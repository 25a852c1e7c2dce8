-- ===== src/Raft/Api.antt =====
-- raft-API.go and raft-settings.go: a server's start, its loops, and what its user calls.
pub mod Apply
pub mod Restart
use distributed_algorithms.Prelude.{
  ℕ, zero, suc, ◌+◌, ◌-◌, ◌*◌, ◌/◌, Bool, true, false, Option, none, some, List, [], ◌∷◌, ◌++◌, ltb,
  leb, ◌==◌, if◌then◌else◌, get_elem?,
}
use distributed_algorithms.Raft.Run.{Run, ok, panic, or_panic, ◌>>=◌, send}
use distributed_algorithms.Raft.Server.{
  LogEntry, State, leader, candidate, follower, Persister, Codec, Raft, get_last_index,
  get_base_index, is_leader, persist, read_persist, read_raft_state,
}

-- In nanoseconds, as time.Duration.
abbrev pub heart_beat : ℕ
heart_beat = 50 * 1000000

abbrev pub min_election : ℕ
min_election = heart_beat * 10

abbrev pub max_election : ℕ
max_election = min_election * 8 / 5

-- `random` is what rand.Intn(maxElection - minElection) returns.
unfoldable pub election_timeout : ℕ → ℕ
election_timeout random = min_election + random

pub record ApplyMsg (C : Type 0) : Type 0 where
  pub command_valid : Bool
  pub command_index : ℕ
  pub command : C

module _ {C B : Type 0} (codec : Codec C B) where
  -- `zero_command` is the command 0 of the first entry. The fields that Make does not set are 0.
  unfoldable pub make : C → ℕ → ℕ → Persister B → Raft C B
  unfolding read_persist read_raft_state
  make zero_command peers me persister =
      let rf : Raft C B = record {
        peers = peers;
        persister = persister;
        me = me;
        current_term = 0;
        voted_for = none;
        logs = record { log_index = 0; log_term = 0; command = zero_command } ∷ [];
        commit_index = 0;
        last_applied = 0;
        indexed = false;
        next_index = λ _. 0;
        match_index = λ _. 0;
        state = follower;
        vote_count = 0;
        chan_commit = 0;
        chan_heart_beat = 0;
        chan_be_elected = 0;
      } in
      read_persist codec rf (read_raft_state persister)

  -- The section of newElection under the lock.
  unfoldable pub begin_election : Raft C B → Raft C B
  unfolding persist
  begin_election rf =
      persist codec
        (record rf { current_term = rf.current_term + 1; voted_for = some rf.me; vote_count = 1 })

  unfoldable pub start : Raft C B → C → Run (Raft C B × Option (ℕ × ℕ))
  unfolding persist
  start rf command =
      let append = get_last_index rf.logs >>= λ last.
      let entry : LogEntry C = record {
        log_index = last + 1;
        log_term = rf.current_term;
        command = command;
      } in
      ok (
        persist codec (record rf { logs = rf.logs ++ entry ∷ [] }),
        some (last + 1, rf.current_term),
      ) in
      if is_leader rf.state then append else ok (rf, none)

-- What statesLoop waits for: a timeout, or an element of a channel.
pub data Signal : Type 0 where
  timeout heart_beats elected : Signal

-- The receive from a channel; an empty one is not ready.
unfoldable pub receive : ℕ → Option ℕ
receive zero = none
receive (suc n) = some n

module _ {C B : Type 0} where
  unfoldable pub get_state : Raft C B → ℕ × Bool
  get_state rf = (rf.current_term, is_leader rf.state)

  -- nextIndex and matchIndex are made, and set for every server.
  unfoldable pub come_to_power : Raft C B → Run (Raft C B)
  come_to_power rf = get_last_index rf.logs >>= λ last. ok (record rf {
    state = leader;
    indexed = true;
    next_index = λ _. last + 1;
    match_index = λ _. 0;
  })

  -- The select of statesLoop in the state FOLLOWER, for the signal that it takes.
  unfoldable pub follow : Raft C B → Signal → Option (Raft C B)
  unfolding receive
  follow rf timeout = some (record rf { state = candidate })
  follow rf heart_beats = elim (receive rf.chan_heart_beat) [
    | none ↦ none
    | some n ↦ some (record rf { chan_heart_beat = n })
  ]
  follow rf elected = none

  -- The select of newElection, up to comeToPower: the receive from chanBeElected is made without the
  -- lock, and other goroutines run before comeToPower takes it. The handlers never leave FOLLOWER, so
  -- that the receive of a heart beat and the write of the state after it are one step.
  unfoldable pub await_votes : Raft C B → Signal → Option (Raft C B)
  unfolding receive
  await_votes rf timeout = some rf
  await_votes rf heart_beats = elim (receive rf.chan_heart_beat) [
    | none ↦ none
    | some n ↦ some (record rf { chan_heart_beat = n; state = follower })
  ]
  await_votes rf elected = elim (receive rf.chan_be_elected) [
    | none ↦ none
    | some n ↦ some (record rf { chan_be_elected = n })
  ]

module _ {C : Type 0} where
  -- The message of one round of applyLoop, for the index `i`.
  unfoldable pub apply_msg : List (LogEntry C) → ℕ → ℕ → Run (ApplyMsg C)
  apply_msg logs base i =
      let build = or_panic (get_elem? logs (i - base)) >>= λ e.
      ok (record { command_valid = true; command_index = i; command = e.command }) in
      if ltb i base then panic else build

  -- `k` rounds of the loop of applyLoop from the index `i` on.
  unfoldable pub apply_from : List (LogEntry C) → ℕ → ℕ → ℕ → Run (List (ApplyMsg C))
  unfolding apply_msg
  apply_from logs base i zero = ok []
  apply_from logs base i (suc k) =
      apply_msg logs base i >>= λ m. apply_from logs base (i + 1) k >>= λ ms. ok (m ∷ ms)

module _ {C B : Type 0} where
  -- One turn of applyLoop after it has received from chanCommit: the server, and what it sends on
  -- chanApply, whose receiver is assumed to take every message.
  unfoldable pub apply : Raft C B → Run (Raft C B × List (ApplyMsg C))
  unfolding apply_from
  apply rf = get_base_index rf.logs >>= λ base.
      apply_from rf.logs base (rf.last_applied + 1) (rf.commit_index - rf.last_applied) >>= λ ms.
      ok (
        record rf {
          last_applied =
              if ltb rf.last_applied rf.commit_index then rf.commit_index else rf.last_applied;
        },
        ms,
      )
