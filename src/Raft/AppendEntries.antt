-- ===== src/Raft/AppendEntries.antt =====
-- raft-AppendEntries.go, the follower's side: the handler of AppendEntries.
pub mod Seen
pub mod Outcome
pub mod Backoff
pub mod Search
pub mod Calls
pub mod Repeat
pub mod Total
use distributed_algorithms.Prelude.{
  ℕ, zero, suc, ◌+◌, ◌-◌, Bool, true, false, not, ◌&&◌, ◌||◌, Option, none, some, List, ◌++◌, ltb,
  leb, ◌==◌, if◌then◌else◌, length, get_elem?, take,
}
use distributed_algorithms.Raft.Run.{Run, ok, panic, or_panic, ◌>>=◌, send}
use distributed_algorithms.Raft.Server.{
  LogEntry, Codec, Raft, min, get_last_index, get_base_index, persist, newer_term,
}

pub record AppendEntriesArgs (C : Type 0) : Type 0 where
  pub term : ℕ
  pub leader_id : ℕ
  pub prev_log_index : ℕ
  pub prev_log_term : ℕ
  pub leader_commit : ℕ
  pub entries : List (LogEntry C)

pub record AppendEntriesReply : Type 0 where
  pub term : ℕ
  pub success : Bool
  pub next_index : ℕ

module _ {C : Type 0} where
  -- The loop that looks for the last entry below `i` of another term than `term`; it leaves
  -- NextIndex at 0 where it finds none.
  unfoldable pub find_conflict : List (LogEntry C) → ℕ → ℕ → ℕ → Run ℕ
  find_conflict logs base term zero = ok 0
  find_conflict logs base term (suc i) =
      let rest = find_conflict logs base term i in
      let test = or_panic (get_elem? logs (i - base)) >>= λ e.
      if e.log_term == term then rest else ok (i + 1) in
      if ltb i base then ok 0 else test

  -- `logs[:n]`, which panics past the end of the slice.
  unfoldable pub slice_to : List (LogEntry C) → ℕ → Run (List (LogEntry C))
  slice_to logs n = if leb n (length logs) then ok (take n logs) else panic

  -- NextIndex of the refusal where the entry at PrevLogIndex has another term; `none` where the
  -- handler goes on.
  unfoldable pub check_prev : List (LogEntry C) → ℕ → AppendEntriesArgs C → Run (Option ℕ)
  check_prev logs base args =
      let test = or_panic (get_elem? logs (args.prev_log_index - base)) >>= λ e.
      let search = find_conflict logs base e.log_term args.prev_log_index >>= λ n. ok (some n) in
      if args.prev_log_term == e.log_term then ok none else search in
      if ltb base args.prev_log_index then test else ok none

  -- The new log and NextIndex, which is 0 where PrevLogIndex is below the base. The code truncates
  -- and appends in the array of rf.logs, which also changes the Entries of the server's own calls
  -- that are not encoded yet. A list shares nothing; `encodes` of Replicas leaves those calls out.
  unfoldable pub overwrite :
      List (LogEntry C) → ℕ → AppendEntriesArgs C → Run (List (LogEntry C) × Bool × ℕ)
  unfolding slice_to
  overwrite logs base args =
      let write = slice_to logs (args.prev_log_index + 1 - base) >>= λ kept.
      get_last_index (kept ++ args.entries) >>= λ last. ok (kept ++ args.entries, true, last + 1) in
      if leb base args.prev_log_index then write else ok (logs, false, 0)

  module _ {B : Type 0} (codec : Codec C B) where
    -- Step 5 of the handler, on LeaderCommit.
    unfoldable pub follow_commit : Raft C B → ℕ → Run (Raft C B)
    follow_commit rf leader_commit =
        let advance = get_last_index rf.logs >>= λ last. send rf.chan_commit >>= λ n.
        ok (record rf { commit_index = min leader_commit last; chan_commit = n }) in
        if ltb rf.commit_index leader_commit then advance else ok rf

    unfoldable pub refuse : Raft C B → ℕ → Run (Raft C B × AppendEntriesReply)
    unfolding persist
    refuse rf next =
        ok (persist codec rf, record { term = rf.current_term; success = false; next_index = next })

    -- The handler after PrevLogIndex has been found in the log.
    unfoldable pub accept : Raft C B → ℕ → AppendEntriesArgs C → Run (Raft C B × AppendEntriesReply)
    unfolding overwrite follow_commit persist
    accept rf base args = overwrite rf.logs base args >>= λ (logs, success, next).
        follow_commit (record rf { logs = logs }) args.leader_commit >>= λ rf'.
        ok (
          persist codec rf',
          record { term = rf.current_term; success = success; next_index = next },
        )

    unfoldable pub match_prev : Raft C B → AppendEntriesArgs C → Run (Raft C B × AppendEntriesReply)
    unfolding check_prev refuse accept
    match_prev rf args = get_last_index rf.logs >>= λ last.
        let in_log = get_base_index rf.logs >>= λ base. check_prev rf.logs base args >>= λ conflict.
        elim conflict [ some next ↦ refuse rf next | none ↦ accept rf base args ] in
        if ltb last args.prev_log_index then refuse rf (last + 1) else in_log

    unfoldable pub append_entries :
        Raft C B → AppendEntriesArgs C → Run (Raft C B × AppendEntriesReply)
    unfolding newer_term match_prev
    append_entries rf args =
        let handle = send rf.chan_heart_beat >>= λ beats.
        match_prev (newer_term codec (record rf { chan_heart_beat = beats }) args.term) args in
        if ltb args.term rf.current_term
        then ok (rf, record { term = rf.current_term; success = false; next_index = 0 })
        else handle
