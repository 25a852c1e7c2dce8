-- ===== src/MutualExclusion/System/Progress.antt =====
-- Every turn of a process waits or succeeds, and keeps the invariant: none panics.
pub mod Requests
pub mod Quiet
pub mod Next
pub mod Rule5
pub mod Release
pub mod Check
pub mod Handle
pub mod Ack
use distributed_algorithms.Prelude.{ℕ, ◌≡◌, ◌⊎◌}
use distributed_algorithms.MutualExclusion.Process.{Observer}
use distributed_algorithms.MutualExclusion.System.{System, Outcome, blocked, done}
use distributed_algorithms.MutualExclusion.System.Invariant.{Inv}

abbrev pub Progress : (o : Observer) → ℕ → Outcome (System o) → Type 0
Progress o n r = (r ≡ blocked) ⊎ ((t : System o) × (r ≡ done t) × Inv o n t)
