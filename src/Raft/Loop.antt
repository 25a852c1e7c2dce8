-- ===== src/Raft/Loop.antt =====
-- raft-API.go: statesLoop, with newElection and newHeartBeat, as the goroutine that it is: the
-- handlers and the other goroutines of the server run between any two of its steps.
pub mod Refinement
use distributed_algorithms.Prelude.{ℕ, ◌≡◌, Option, some, List}
use distributed_algorithms.Raft.Run.{ok}
use distributed_algorithms.Raft.Server.{Codec, Raft, State, follower, candidate, leader, copy}
use distributed_algorithms.Raft.AppendEntries.{AppendEntriesArgs}
use distributed_algorithms.Raft.Leader.{broadcast_append_entries}
use distributed_algorithms.Raft.Api.{
  Signal, timeout, heart_beats, elected, come_to_power, follow, await_votes, begin_election, make,
}
use distributed_algorithms.Raft.Steps.{
  Step, votes, appends, campaigns, counts, copies, starts, broadcasts, applies, waits, awaits,
  powers, crashes,
}

-- Where the goroutine stands: at the switch, in the select of a follower, before the lock of
-- newElection, in its select, before the lock of comeToPower, before broadcastAppendEntries, and in the
-- pause after it.
pub data Point : Type 0 where
  switch following standing electing winning leading resting : Point

-- The branch of the switch.
unfoldable pub branch : State → Point
branch follower = following
branch candidate = standing
branch leader = leading

-- Where the select of newElection leads.
unfoldable pub after_select : Signal → Point
after_select timeout = switch
after_select heart_beats = switch
after_select elected = winning

module _ {C B : Type 0} (codec : Codec C B) where
  -- A step that is not one of this goroutine, and no crash.
  abbrev pub IsOther : {a b : Raft C B} → Step codec a b → Type 0
  IsOther campaigns = ⊥
  IsOther (broadcasts sent h) = ⊥
  IsOther (waits s h) = ⊥
  IsOther (awaits s h) = ⊥
  IsOther (powers h) = ⊥
  IsOther (crashes z) = ⊥
  IsOther _ = Unit

  pub data Turn : Point → Raft C B → Point → Raft C B → Type 0 where
    branches : {rf : Raft C B} → Turn switch rf (branch rf.state) rf
    follows :
        {rf rf' : Raft C B} (s : Signal) → follow rf s ≡ some rf' → Turn following rf switch rf'
    begins : {rf : Raft C B} → Turn standing rf electing (begin_election codec rf)
    ends :
        {rf rf' : Raft C B} (s : Signal)
        → await_votes rf s ≡ some rf'
        → Turn electing rf (after_select s) rf'
    wins : {rf rf' : Raft C B} → come_to_power rf ≡ ok rf' → Turn winning rf switch rf'
    beats :
        {rf rf' : Raft C B} (sent : List (ℕ × AppendEntriesArgs C))
        → broadcast_append_entries rf ≡ ok (rf', sent)
        → Turn leading rf resting rf'
    wakes : {rf : Raft C B} → Turn resting rf switch rf
    others : {p : Point} {rf rf' : Raft C B} (s : Step codec rf rf') → IsOther s → Turn p rf p rf'
    restarts :
        {p : Point} {rf : Raft C B} (zero_command : C)
        → Turn p rf switch (make codec zero_command rf.peers rf.me (copy rf.persister))

  -- Any number of turns of a server that starts as `a`.
  pub data Turns (a : Raft C B) : Point → Raft C B → Type 0 where
    starts_at : Turns a switch a
    goes_on : {p q : Point} {b c : Raft C B} → Turns a p b → Turn p b q c → Turns a q c
