-- ===== src/Raft/Tests/Loops.antt =====
-- The goroutine of a new server up to its first election.
use distributed_algorithms.Prelude.{ℕ, refl}
use distributed_algorithms.Raft.Server.{Raft, Saved, make_persister, read_persist, read_raft_state}
use distributed_algorithms.Raft.Api.{make, follow, timeout}
use distributed_algorithms.Raft.Steps.{Trace}
use distributed_algorithms.Raft.Loop.{
  electing, Turns, starts_at, goes_on, branches, follows, begins, branch,
}
use distributed_algorithms.Raft.Loop.Refinement.{IsAt, states_loop_refines}
use distributed_algorithms.Raft.Tests.{plain, made}

stands : (rf : Raft ℕ (Saved ℕ)) × Turns plain made electing rf
unfolding branch follow make read_persist read_raft_state make_persister
stands = (
  _,
  goes_on (goes_on (goes_on (goes_on starts_at branches) (follows timeout refl)) branches) begins,
)

states_loop_refines_example : Trace plain made stands.0 × IsAt electing stands.0.state
states_loop_refines_example = states_loop_refines plain made stands.0 electing stands.1
