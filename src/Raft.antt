-- ===== src/Raft.antt =====
-- The Raft server: Raft/code.
pub mod Run
pub mod Server
pub mod RequestVote
pub mod AppendEntries
pub mod Leader
pub mod Api
mod Tests
pub mod Steps
pub mod Loop
pub mod Cluster
pub mod Replicas
