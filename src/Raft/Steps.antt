-- ===== src/Raft/Steps.antt =====
-- The steps of one server, in any order, and with crashes between them.
pub mod Bound
pub mod OneVote
pub mod Outcome
pub mod Logs
use distributed_algorithms.Prelude.{
  ℕ, zero, suc, ◌+◌, ◌-◌, ◌≤◌, ◌<◌, ◌≡◌, ◌⊎◌, inl, inr, refl, sym, ◌∙◌, Bool, true, false, not,
  ◌&&◌, ◌||◌, Option, none, some, List, ltb, ◌==◌, if◌then◌else◌, arith, Bool-cases, Option-cases,
}
use distributed_algorithms.Raft.Run.{Run, ok, panic, blocked, ◌>>=◌, send}
use distributed_algorithms.Raft.Server.{
  LogEntry, State, Persister, make_persister, copy, Codec, Raft, persist, save_raft_state,
  read_persist, read_raft_state, persistent, step_down, newer_term, IsPersisted,
}
use distributed_algorithms.Raft.RequestVote.{
  RequestVoteArgs, RequestVoteReply, request_vote, vote, is_valid_args, may_vote, is_up_to_date,
  deal_vote_reply, announce,
}
use distributed_algorithms.Raft.AppendEntries.{
  AppendEntriesArgs, AppendEntriesReply, append_entries, match_prev, accept, refuse, follow_commit,
  check_prev, overwrite,
}
use distributed_algorithms.Raft.Leader.{
  broadcast_append_entries, commit, messages, deal_append_reply, note_copies,
}
use distributed_algorithms.Raft.Api.{
  ApplyMsg, make, begin_election, start, come_to_power, Signal, follow, await_votes, apply, receive,
}

module _ {C B : Type 0} (codec : Codec C B) where
  -- A handler, a section of a loop, or a crash and a restart from what was persisted.
  pub data Step (rf : Raft C B) : Raft C B → Type 0 where
    votes :
        {rf' : Raft C B} (args : RequestVoteArgs) (reply : RequestVoteReply)
        → request_vote codec rf args ≡ ok (rf', reply)
        → Step rf rf'
    appends :
        {rf' : Raft C B} (args : AppendEntriesArgs C) (reply : AppendEntriesReply)
        → append_entries codec rf args ≡ ok (rf', reply)
        → Step rf rf'
    campaigns : Step rf (begin_election codec rf)
    counts :
        {rf' : Raft C B} (args : RequestVoteArgs) (reply : RequestVoteReply)
        → deal_vote_reply codec rf args reply ≡ ok rf'
        → Step rf rf'
    copies :
        {rf' : Raft C B} (id : ℕ) (args : AppendEntriesArgs C) (reply : AppendEntriesReply)
        → deal_append_reply codec rf id args reply ≡ ok rf'
        → Step rf rf'
    starts :
        {rf' : Raft C B} (command : C) (r : Option (ℕ × ℕ))
        → start codec rf command ≡ ok (rf', r)
        → Step rf rf'
    broadcasts :
        {rf' : Raft C B} (sent : List (ℕ × AppendEntriesArgs C))
        → broadcast_append_entries rf ≡ ok (rf', sent)
        → Step rf rf'
    applies : {rf' : Raft C B} (ms : List (ApplyMsg C)) → apply rf ≡ ok (rf', ms) → Step rf rf'
    waits : {rf' : Raft C B} (s : Signal) → follow rf s ≡ some rf' → Step rf rf'
    awaits : {rf' : Raft C B} (s : Signal) → await_votes rf s ≡ some rf' → Step rf rf'
    powers : {rf' : Raft C B} → come_to_power rf ≡ ok rf' → Step rf rf'
    crashes :
        (zero_command : C) → Step rf (make codec zero_command rf.peers rf.me (copy rf.persister))

  -- Any number of steps.
  pub data Trace (a : Raft C B) : Raft C B → Type 0 where
    stay : Trace a a
    more : {b c : Raft C B} → Trace a b → Step b c → Trace a c
