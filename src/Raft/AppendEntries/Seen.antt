-- ===== src/Raft/AppendEntries/Seen.antt =====
-- The beginning of the handler: the heart beat, and the term of the message.
use distributed_algorithms.Prelude.{◌+◌, ◌≤◌, ◌<◌, ◌≡◌, refl, arith}
use distributed_algorithms.Raft.Run.{Run, send, capacity}
use distributed_algorithms.Raft.Server.{Codec, Raft, newer_term, step_down}
use distributed_algorithms.Raft.AppendEntries.{
  AppendEntriesArgs, AppendEntriesReply, match_prev, append_entries,
}

module _ {C B : Type 0} (codec : Codec C B) (rf : Raft C B) (args : AppendEntriesArgs C)
    (fresh : rf.current_term ≤ args.term) (beats : rf.chan_heart_beat < capacity) where
  abbrev pub beaten : Raft C B
  beaten = record rf { chan_heart_beat = rf.chan_heart_beat + 1 }

  pub handled :
      (r : Run (Raft C B × AppendEntriesReply))
      → match_prev codec (newer_term codec beaten args.term) args ≡ r
      → append_entries codec rf args ≡ r
  unfolding append_entries send
  handled r h = ground arith

  -- The server when it has taken over the term.
  pub record IsSeen (seen : Raft C B) : Type 0 where
    pub is : newer_term codec beaten args.term ≡ seen
    pub same_logs : seen.logs ≡ rf.logs
    pub same_commit : seen.commit_index ≡ rf.commit_index
    pub same_room : seen.chan_commit ≡ rf.chan_commit
    pub same_beats : seen.chan_heart_beat ≡ rf.chan_heart_beat + 1
    pub new_term : seen.current_term ≡ args.term

  pub beaten-IsSeen : IsSeen (newer_term codec beaten args.term)
  unfolding newer_term step_down
  beaten-IsSeen = record {
    is = refl;
    same_logs = ground arith;
    same_commit = ground arith;
    same_room = ground arith;
    same_beats = ground arith;
    new_term = ground arith;
  }
