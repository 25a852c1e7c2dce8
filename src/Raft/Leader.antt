-- ===== src/Raft/Leader.antt =====
-- raft-AppendEntries.go, the leader's side: commitment, the arguments that it sends, the replies.
pub mod Commit
pub mod Round
pub mod Sync
use distributed_algorithms.Prelude.{
  ℕ, zero, suc, ◌+◌, ◌-◌, ◌*◌, Bool, true, false, not, ◌&&◌, ◌||◌, Option, none, some, List, [],
  ◌∷◌, ◌++◌, ltb, leb, ◌==◌, if◌then◌else◌, length, get_elem?, drop, update,
}
use distributed_algorithms.Raft.Run.{Run, ok, panic, or_panic, ◌>>=◌, send}
use distributed_algorithms.Raft.Server.{
  LogEntry, Codec, Raft, min, get_last_index, get_base_index, last_entry, is_leader, persist,
  step_down,
}
use distributed_algorithms.Raft.AppendEntries.{AppendEntriesArgs, AppendEntriesReply}

module _ {C B : Type 0} where
  -- newAppendEntriesArgs for the server `id`. Indices below the base, and -1, panic. In the code
  -- Entries is a slice in the array of rf.logs; here it holds what the slice does under the lock.
  -- `encodes` of Replicas says when a call still carries that.
  unfoldable pub entries_args : Raft C B → ℕ → ℕ → Run (AppendEntriesArgs C)
  entries_args rf base zero = panic
  entries_args rf base (suc prev) =
      let build = or_panic (get_elem? rf.logs (prev - base)) >>= λ e. ok (record {
        term = rf.current_term;
        leader_id = rf.me;
        prev_log_index = prev;
        prev_log_term = e.log_term;
        leader_commit = rf.commit_index;
        entries = drop (prev + 1 - base) rf.logs;
      }) in
      if ltb prev base then panic else build

  unfoldable pub new_append_entries_args : Raft C B → ℕ → Run (AppendEntriesArgs C)
  unfolding entries_args
  new_append_entries_args rf id =
      let build = get_base_index rf.logs >>= λ base. entries_args rf base (rf.next_index id) in
      if rf.indexed then build else panic

  -- Whether server `id` has the entry `idx`, and the entry is of the current term.
  unfoldable pub has_copy : Raft C B → ℕ → ℕ → ℕ → Run Bool
  has_copy rf base idx id =
      let test =
        or_panic (get_elem? rf.logs (idx - base)) >>= λ e. ok (e.log_term == rf.current_term) in
      let counted = if leb idx (rf.match_index id) then test else ok false in
      if id == rf.me then ok false else if rf.indexed then counted else panic

  -- `count` after the servers below `n`; the leader counts itself.
  unfoldable pub count_copies : Raft C B → ℕ → ℕ → ℕ → Run ℕ
  unfolding has_copy
  count_copies rf base idx zero = ok 1
  count_copies rf base idx (suc id) = count_copies rf base idx id >>= λ c.
      has_copy rf base idx id >>= λ copy. ok (if copy then c + 1 else c)

  -- `newCommitIndex` after the first `k` indices above the commit index.
  unfoldable pub scan_commit : Raft C B → ℕ → ℕ → Run ℕ
  unfolding count_copies
  scan_commit rf base zero = ok 0
  scan_commit rf base (suc k) = scan_commit rf base k >>= λ new.
      count_copies rf base (rf.commit_index + k + 1) rf.peers >>= λ c.
      ok (if ltb rf.peers (2 * c) then rf.commit_index + k + 1 else new)

  unfoldable pub commit : Raft C B → Run (Raft C B)
  unfolding scan_commit
  commit rf = get_last_index rf.logs >>= λ last. get_base_index rf.logs >>= λ base.
      scan_commit rf base (last - rf.commit_index) >>= λ new.
      let advance =
        send rf.chan_commit >>= λ n. ok (record rf { commit_index = new; chan_commit = n }) in
      if ltb rf.commit_index new then advance else ok rf

  -- The messages to the servers below `n`.
  unfoldable pub messages : Raft C B → ℕ → Run (List (ℕ × AppendEntriesArgs C))
  unfolding new_append_entries_args
  messages rf zero = ok []
  messages rf (suc id) = messages rf id >>= λ sent.
      let more = new_append_entries_args rf id >>= λ args. ok (sent ++ (id, args) ∷ []) in
      if not (id == rf.me) && is_leader rf.state then more else ok sent

  unfoldable pub broadcast_append_entries :
      Raft C B → Run (Raft C B × List (ℕ × AppendEntriesArgs C))
  unfolding commit messages
  broadcast_append_entries rf =
      commit rf >>= λ rf'. messages rf' rf'.peers >>= λ sent. ok (rf', sent)

  -- The reply was a success for these entries.
  unfoldable pub note_copies : Raft C B → ℕ → List (LogEntry C) → Run (Raft C B)
  note_copies rf id [] = ok rf
  note_copies rf id (x ∷ xs) =
      let note = last_entry (x ∷ xs) >>= λ e. ok (record rf {
        match_index = update rf.match_index id e.log_index;
        next_index = update rf.next_index id (e.log_index + 1);
      }) in
      if rf.indexed then note else panic

  -- sendAppendEntriesAndDealReply, once the reply has come. args.Entries is read only in the term of
  -- the call, before an AppendEntries of a later term can have written into its array.
  unfoldable pub deal_append_reply :
      Codec C B → Raft C B → ℕ → AppendEntriesArgs C → AppendEntriesReply → Run (Raft C B)
  unfolding persist step_down note_copies
  deal_append_reply codec rf id args reply =
      let back = ok (record rf { next_index = update rf.next_index id reply.next_index }) in
      if ltb rf.current_term reply.term
      then ok (persist codec (step_down codec rf reply.term))
      else if not (rf.current_term == args.term)
      then ok rf
      else if not reply.success
      then (if rf.indexed then back else panic)
      else note_copies rf id args.entries
