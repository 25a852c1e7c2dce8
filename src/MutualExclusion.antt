-- ===== src/MutualExclusion.antt =====
-- Lamport's mutual exclusion algorithm: Mutual-Exclusion/code.
pub mod Heap
pub mod Entries
pub mod Process
pub mod System
mod Tests
pub mod Resource
pub mod ReceivedTime
pub mod RequestQueue
pub mod Message
pub mod Timestamp
pub mod Clock
