-- ===== src/Raft/AppendEntries/Backoff.antt =====
-- What the handler of AppendEntries answers where the previous entry does not match.
use distributed_algorithms.Prelude.{
  ℕ, zero, suc, ◌+◌, ◌-◌, ◌≤◌, ◌<◌, ◌≡◌, ◌≢◌, inl, inr, refl, ◌∙◌, ap, false, some, List, ◌==◌,
  arith, Bool-cases, get_elem?-some, get_elem?-lt, length, get_elem?,
}
use distributed_algorithms.Raft.Run.{ok, capacity}
use distributed_algorithms.Raft.Server.{
  LogEntry, Codec, Raft, persist, IsPersisted, save_raft_state,
}
use distributed_algorithms.Raft.Server.Log.{IsLog, get_last_index-ok, get_base_index-ok}
use distributed_algorithms.Raft.AppendEntries.{
  AppendEntriesArgs, AppendEntriesReply, check_prev, find_conflict, refuse, match_prev,
  append_entries,
}
use distributed_algorithms.Raft.AppendEntries.Seen.{IsSeen, handled, beaten-IsSeen}

-- The first entry has the term 0, and no other has.
pub record IsTermed {C : Type 0} (logs : List (LogEntry C)) : Type 0 where
  pub first : (e : LogEntry C) → get_elem? logs 0 ≡ some e → e.log_term ≡ 0
  pub later : (i : ℕ) (e : LogEntry C) → 0 < i → get_elem? logs i ≡ some e → 0 < e.log_term

module _ {C : Type 0} (logs : List (LogEntry C)) (log : IsLog logs) (terms : IsTermed logs) where
  -- The loop finds an entry of another term, at the latest the first.
  find_conflict-ok :
      (t k : ℕ)
      → 0 < t
      → 0 < k
      → k ≤ length logs
      → (r : ℕ) × (find_conflict logs 0 t k ≡ ok r) × (0 < r) × (r ≤ k)
  unfolding find_conflict
  find_conflict-ok t zero p q le = absurd (omega arith)
  find_conflict-ok t (suc i) p q le =
      let (e, h) = get_elem?-some logs i (omega arith) in
      elim (Bool-cases (e.log_term == t)) [
        | inr other ↦ (i + 1, ground (arith, h), omega arith, omega arith)
        | inl same ↦
            let pos : 0 < i = positive i e h (ground arith) in
            let (r, f, a, b) = find_conflict-ok t i p pos (omega arith) in
            (r, ground (arith, h), a, omega arith)
      ]
    where
      positive : (i : ℕ) (e : LogEntry C) → get_elem? logs i ≡ some e → 0 < e.log_term → 0 < i
      positive zero e h lt = absurd (omega (arith, terms.first e h))
      positive (suc i) e h lt = omega arith

  -- The log ends before the previous entry, or has another entry there.
  pub data Misses (args : AppendEntriesArgs C) : Type 0 where
    short : length logs ≤ args.prev_log_index → Misses args
    conflicts :
        (e : LogEntry C)
        → 0 < args.prev_log_index
        → get_elem? logs args.prev_log_index ≡ some e
        → args.prev_log_term ≢ e.log_term
        → Misses args

  conflict_found :
      (args : AppendEntriesArgs C) (e : LogEntry C)
      → 0 < args.prev_log_index
      → get_elem? logs args.prev_log_index ≡ some e
      → args.prev_log_term ≢ e.log_term
      → (r : ℕ) × (check_prev logs 0 args ≡ ok (some r)) × (0 < r) × (r ≤ args.prev_log_index)
  unfolding check_prev
  conflict_found args e pos h ne =
      let (r, f, a, b) =
        find_conflict-ok e.log_term args.prev_log_index (terms.later _ e pos h) pos
          (omega (arith, get_elem?-lt logs args.prev_log_index h)) in
      (r, ground (arith, h, f), a, b)

module _ {C B : Type 0} (codec : Codec C B) where
  refused :
      (rf : Raft C B) (args : AppendEntriesArgs C) (log : IsLog rf.logs) (terms : IsTermed rf.logs)
      → Misses rf.logs log terms args
      → (r : ℕ) × (match_prev codec rf args
          ≡ ok (
            persist codec rf,
            record { term = rf.current_term; success = false; next_index = r },
          ))
        × (0 < r)
        × (r ≤ args.prev_log_index)
  unfolding match_prev refuse
  refused rf args log terms (short le) = (
    length rf.logs - 1 + 1,
    ground (arith, get_last_index-ok rf.logs log, log.inhabited),
    omega arith,
    omega (arith, log.inhabited),
  )
  refused rf args log terms (conflicts e pos h ne) =
      let (r, f, a, b) = conflict_found rf.logs log terms args e pos h ne in
      (
        r,
        ground (
          arith,
          get_last_index-ok rf.logs log,
          get_base_index-ok rf.logs log,
          get_elem?-lt rf.logs args.prev_log_index h,
          f,
        ),
        a,
        b,
      )

  -- What a refusal leaves behind.
  pub record IsRefused (rf : Raft C B) (args : AppendEntriesArgs C) (rf' : Raft C B)
      (reply : AppendEntriesReply) : Type 0 where
    pub returns : append_entries codec rf args ≡ ok (rf', reply)
    pub failure : reply.success ≡ false
    pub term : reply.term ≡ args.term
    pub back : (0 < reply.next_index) × (reply.next_index ≤ args.prev_log_index)
    pub current : rf'.current_term ≡ args.term
    pub channels :
        (rf'.chan_heart_beat ≡ rf.chan_heart_beat + 1) × (rf'.chan_commit ≡ rf.chan_commit)
    pub same : (rf'.logs ≡ rf.logs) × (rf'.commit_index ≡ rf.commit_index)
    pub persisted : IsPersisted codec rf'

  module _ (rf : Raft C B) (args : AppendEntriesArgs C) (log : IsLog rf.logs)
      (terms : IsTermed rf.logs) (fresh : rf.current_term ≤ args.term)
      (beats : rf.chan_heart_beat < capacity) where
    IsRefused-from :
        (seen : Raft C B)
        → IsSeen codec rf args fresh beats seen
        → Misses rf.logs log terms args
        → (rf' : Raft C B) × (reply : AppendEntriesReply) × IsRefused rf args rf' reply
    unfolding persist save_raft_state
    IsRefused-from seen v m =
        let log' : IsLog seen.logs = rw v.same_logs log in
        let terms' : IsTermed seen.logs = rw v.same_logs terms in
        let (r, f, a, b) = refused seen args log' terms' (moved m) in
        (
          persist codec seen,
          record { term = seen.current_term; success = false; next_index = r },
          record {
            returns =
                handled codec rf args fresh beats _ (ap (λ x. match_prev codec x args) v.is ∙ f);
            failure = refl;
            term = v.new_term;
            back = (a, b);
            current = v.new_term;
            channels = (v.same_beats, v.same_room);
            same = (v.same_logs, v.same_commit);
            persisted = refl;
          },
        )
      where
        moved :
            {l : IsLog seen.logs} {t : IsTermed seen.logs}
            → Misses rf.logs log terms args
            → Misses seen.logs l t args
        moved (short le) = short (rw v.same_logs le)
        moved (conflicts e pos h ne) = conflicts e pos (rw v.same_logs h) ne

    -- The handler of a server with a log whose first entry alone has the term 0, in a term that is
    -- not newer than the message's, with room in its channel of heart beats, where the log does not
    -- have the previous entry: it returns and reports failure in the message's term, and the
    -- NextIndex that it reports lies between 1 and PrevLogIndex, so that the next attempt goes
    -- further back and never below the first entry. The log and the commit index stay.
    pub append_entries_missing :
        Misses rf.logs log terms args
        → (rf' : Raft C B) × (reply : AppendEntriesReply) × IsRefused rf args rf' reply
    append_entries_missing m = IsRefused-from _ (beaten-IsSeen codec rf args fresh beats) m
