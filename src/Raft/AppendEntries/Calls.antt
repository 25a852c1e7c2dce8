-- ===== src/Raft/AppendEntries/Calls.antt =====
-- What a call of AppendEntries (raft-AppendEntries.go) leaves and answers, on each of its ways.
use distributed_algorithms.Prelude.{
  ℕ, ◌+◌, ◌≤◌, ◌<◌, ◌≡◌, refl, sym, ap, ◌∙◌, Bool, true, false, List, ◌++◌, arith, dec_lt, take,
}
use distributed_algorithms.Raft.Run.{ok, send, capacity}
use distributed_algorithms.Raft.Server.{LogEntry, Codec, Raft, persist, newer_term}
use distributed_algorithms.Raft.Server.Log.{IsLog, IsRange, get_last_index-ok, get_base_index-ok}
use distributed_algorithms.Raft.AppendEntries.{
  AppendEntriesArgs, AppendEntriesReply, append_entries, match_prev, accept, follow_commit,
}
use distributed_algorithms.Raft.AppendEntries.Seen.{beaten, handled, beaten-IsSeen}
use distributed_algorithms.Raft.AppendEntries.Outcome.{
  Matches, written, written-IsLog, matched, overwritten,
}
use distributed_algorithms.Raft.AppendEntries.Backoff.{IsTermed, Misses, append_entries_missing}

module _ {C B : Type 0} (codec : Codec C B) (args : AppendEntriesArgs C)
    (new : IsRange (args.prev_log_index + 1) args.entries) where
  -- What a call leaves and answers.
  pub record IsCall (a b : Raft C B) (reply : AppendEntriesReply) (kept : List (LogEntry C))
      (answer : Bool) (now : ℕ) : Type 0 where
    pub logs : b.logs ≡ kept
    pub success : reply.success ≡ answer
    pub term : (reply.term ≡ now) × (b.current_term ≡ now)

  -- The new log has the previous entry where the old one has it.
  matched-IsCall :
      (seen b : Raft C B) (reply : AppendEntriesReply) (log : IsLog seen.logs)
      (m : Matches seen.logs args)
      → match_prev codec seen args ≡ ok (b, reply)
      → IsCall seen b reply (written seen.logs args log m new) true seen.current_term
  unfolding match_prev accept follow_commit send persist
  matched-IsCall seen b reply log m e =
      let last = get_last_index-ok seen.logs log in
      let base = get_base_index-ok seen.logs log in
      let check = matched seen.logs args log m new in
      let write = overwritten seen.logs args log m new in
      let new_last =
        get_last_index-ok (written seen.logs args log m new)
          (written-IsLog seen.logs args log m new) in
      record {
        logs = ground (arith, e, m.within, last, base, check, write, new_last);
        success = ground (arith, e, m.within, last, base, check, write, new_last);
        term = (
          ground (arith, e, m.within, last, base, check, write, new_last),
          ground (arith, e, m.within, last, base, check, write, new_last),
        );
      }

  module _ (a b : Raft C B) (reply : AppendEntriesReply)
      (h : append_entries codec a args ≡ ok (b, reply)) where
    pub stale-IsCall :
        args.term < a.current_term → (b ≡ a) × IsCall a b reply a.logs false a.current_term
    unfolding append_entries
    stale-IsCall old =
        let e : b ≡ a = ground arith in
        (
          e,
          record {
            logs = ap (λ (x : Raft C B). x.logs) e;
            success = ground arith;
            term = (ground arith, ap (λ (x : Raft C B). x.current_term) e);
          },
        )

    beats_room : a.current_term ≤ args.term → a.chan_heart_beat < capacity
    unfolding append_entries send
    beats_room fresh = elim (dec_lt a.chan_heart_beat capacity) [
      | yes lt ↦ lt
      | no full ↦ absurd (ground arith)
    ]

    pub missing-IsCall :
        (log : IsLog a.logs) (terms : IsTermed a.logs)
        → a.current_term ≤ args.term
        → Misses a.logs log terms args
        → IsCall a b reply a.logs false args.term
    missing-IsCall log terms fresh m =
        let (x, r, v) = append_entries_missing codec a args log terms fresh (beats_room fresh) m in
        let e : ok (x, r) ≡ ok (b, reply) = sym v.returns ∙ h in
        record {
          logs = ground (arith, v.same, e);
          success = ground (arith, v.failure, e);
          term = (ground (arith, v.term, e), ground (arith, v.current, e));
        }

    pub found-IsCall :
        (log : IsLog a.logs) (m : Matches a.logs args)
        → a.current_term ≤ args.term
        → IsCall a b reply (take (args.prev_log_index + 1) a.logs ++ args.entries) true args.term
    found-IsCall log m fresh =
        let v = beaten-IsSeen codec a args fresh (beats_room fresh) in
        let seen = newer_term codec (beaten codec a args fresh (beats_room fresh)) args.term in
        let e = sym (handled codec a args fresh (beats_room fresh) _ refl) ∙ h in
        let w = matched-IsCall seen b reply (rw v.same_logs log) (rw v.same_logs m) e in
        record {
          logs =
              w.logs
              ∙ ap (λ (xs : List (LogEntry C)). take (args.prev_log_index + 1) xs ++ args.entries)
                  v.same_logs;
          success = w.success;
          term = (w.term.0 ∙ v.new_term, w.term.1 ∙ v.new_term);
        }
