-- ===== src/MutualExclusion/System/Termination.antt =====
-- The number of turns in a run of the goroutines of process.go.
pub mod Change
pub mod Turns
pub mod Counts
pub mod Bound
