-- ===== src/Raft/AppendEntries/Total.antt =====
-- The handler of AppendEntries on every input that a leader sends.
use distributed_algorithms.Prelude.{
  ◌+◌, ◌≤◌, ◌<◌, ◌≡◌, ◌≢◌, ◌⊎◌, inl, inr, refl, sym, ◌∙◌, true, false, List, arith, dec_lt,
  ℕ_discrete, length, get_elem?-some,
}
use distributed_algorithms.Raft.Run.{Run, ok, panic, blocked, send, capacity}
use distributed_algorithms.Raft.Server.{LogEntry, Codec, Raft}
use distributed_algorithms.Raft.Server.Log.{IsLog, IsRange, get_last_index-ok, get_base_index-ok}
use distributed_algorithms.Raft.AppendEntries.{
  AppendEntriesArgs, AppendEntriesReply, append_entries, match_prev, accept, follow_commit,
}
use distributed_algorithms.Raft.AppendEntries.Seen.{handled, beaten-IsSeen}
use distributed_algorithms.Raft.AppendEntries.Outcome.{
  Matches, append_entries_matching, written, written-IsLog, matched, overwritten,
}
use distributed_algorithms.Raft.AppendEntries.Backoff.{
  IsTermed, Misses, short, conflicts, append_entries_missing,
}

-- A call that returns does not end otherwise.
returned : {X : Type 0} (r : Run X) (x : X) → r ≡ ok x → (r ≢ panic) × (r ≢ blocked)
returned r x e = (λ h. cc, λ h. cc)

same_reply :
    {X Y : Type 0} (r : Run (X × Y)) (x x' : X) (y y' : Y)
    → r ≡ ok (x, y)
    → r ≡ ok (x', y')
    → y ≡ y'
same_reply r x x' y y' e f = ground arith

waits : {X : Type 0} (r : Run X) → r ≡ blocked → r ≢ panic
waits r e = λ h. cc

module _ {C : Type 0} (logs : List (LogEntry C)) (log : IsLog logs) (terms : IsTermed logs)
    (args : AppendEntriesArgs C) where
  -- A log has the previous entry or misses it.
  pub previous_found : Matches logs args ⊎ Misses logs log terms args
  previous_found = elim (dec_lt args.prev_log_index (length logs)) [
    | no ended ↦ inr (short (omega arith))
    | yes within ↦
        let (e, at) = get_elem?-some logs args.prev_log_index within in
        elim (dec_lt 0 args.prev_log_index) [
          | no first ↦ inl (record { within = within; agrees = λ x pos h. absurd (omega arith) })
          | yes pos ↦ elim (ℕ_discrete args.prev_log_term e.log_term) [
            | no ne ↦ inr (conflicts e pos at ne)
            | yes same ↦
                inl (record { within = within; agrees = λ x p h. ground (arith, at, h, same) })
          ]
        ]
  ]

-- What a reply says, if it is not of a newer term: the entries are in the log, or how far to go back.
abbrev pub IsFrank : {C : Type 0} → AppendEntriesArgs C → AppendEntriesReply → Type 0
IsFrank args reply =
    (args.term < reply.term)
    ⊎ ((reply.success ≡ true)
        ⊎ ((reply.success ≡ false)
            × (0 < reply.next_index)
            × (reply.next_index ≤ args.prev_log_index)))

module _ {C B : Type 0} (codec : Codec C B) where
  -- With a full channel of commitments the handler answers or waits.
  pub full_answer :
      (rf : Raft C B) (args : AppendEntriesArgs C) (log : IsLog rf.logs) (m : Matches rf.logs args)
      (new : IsRange (args.prev_log_index + 1) args.entries)
      → match_prev codec rf args ≢ panic
  unfolding match_prev accept follow_commit send
  full_answer rf args log m new h = ground (
    arith,
    h,
    m.within,
    get_last_index-ok rf.logs log,
    get_base_index-ok rf.logs log,
    matched rf.logs args log m new,
    overwritten rf.logs args log m new,
    get_last_index-ok (written rf.logs args log m new) (written-IsLog rf.logs args log m new),
  )

  found_answer :
      (rf rf' : Raft C B) (args : AppendEntriesArgs C) (reply : AppendEntriesReply)
      (log : IsLog rf.logs) (m : Matches rf.logs args)
      (new : IsRange (args.prev_log_index + 1) args.entries)
      → match_prev codec rf args ≡ ok (rf', reply)
      → reply.success ≡ true
  unfolding match_prev accept follow_commit send
  found_answer rf rf' args reply log m new h = ground (
    arith,
    h,
    m.within,
    get_last_index-ok rf.logs log,
    get_base_index-ok rf.logs log,
    matched rf.logs args log m new,
    overwritten rf.logs args log m new,
    get_last_index-ok (written rf.logs args log m new) (written-IsLog rf.logs args log m new),
  )

  module _ (rf : Raft C B) (args : AppendEntriesArgs C) (log : IsLog rf.logs)
      (terms : IsTermed rf.logs) (new : IsRange (args.prev_log_index + 1) args.entries) where
    stale_answer :
        args.term < rf.current_term
        → (reply : AppendEntriesReply) × (args.term < reply.term)
          × (append_entries codec rf args ≡ ok (rf, reply))
    unfolding append_entries
    stale_answer h =
        (record { term = rf.current_term; success = false; next_index = 0 }, h, ground arith)

    beats_full :
        rf.current_term ≤ args.term
        → capacity ≤ rf.chan_heart_beat
        → append_entries codec rf args ≡ blocked
    unfolding append_entries send
    beats_full fresh full = ground arith

    seen_answer :
        rf.current_term ≤ args.term
        → rf.chan_heart_beat < capacity
        → append_entries codec rf args ≢ panic
    seen_answer fresh beats h = elim (previous_found rf.logs log terms args) [
      | inr misses ↦
          let (rf', reply, a) = append_entries_missing codec rf args log terms fresh beats misses in
          (returned _ _ a.returns).0 h
      | inl matches ↦
          let v = beaten-IsSeen codec rf args fresh beats in
          full_answer _ args (rw v.same_logs log) (rw v.same_logs matches) new
            (sym (handled codec rf args fresh beats _ refl) ∙ h)
    ]

    pub append_entries-IsFrank :
        (rf' : Raft C B) (reply : AppendEntriesReply)
        → append_entries codec rf args ≡ ok (rf', reply)
        → IsFrank args reply
    append_entries-IsFrank rf' reply h = elim (dec_lt args.term rf.current_term) [
      | yes stale ↦
          let (r, t, e) = stale_answer stale in inl (rw (sym (same_reply _ _ _ _ _ e h)) t)
      | no fresh ↦ elim (dec_lt rf.chan_heart_beat capacity) [
        | no full ↦ absurd ((returned _ _ h).1 (beats_full (omega arith) (omega arith)))
        | yes beats ↦ elim (previous_found rf.logs log terms args) [
          | inr misses ↦
              let (x, r, a) =
                append_entries_missing codec rf args log terms (omega arith) beats misses in
              let e : r ≡ reply = same_reply _ _ _ _ _ a.returns h in
              inr (inr (rw (sym e) (a.failure, a.back.0, a.back.1)))
          | inl matches ↦
              let v = beaten-IsSeen codec rf args (omega arith) beats in
              inr (
                inl (
                  found_answer _ rf' args reply (rw v.same_logs log) (rw v.same_logs matches) new
                    (sym (handled codec rf args (omega arith) beats _ refl) ∙ h)))
        ]
      ]
    ]

    room_answer :
        rf.current_term ≤ args.term
        → rf.chan_heart_beat < capacity
        → rf.chan_commit < capacity
        → append_entries codec rf args ≢ blocked
    room_answer fresh beats room h = elim (previous_found rf.logs log terms args) [
      | inr misses ↦
          let (rf', reply, a) = append_entries_missing codec rf args log terms fresh beats misses in
          (returned _ _ a.returns).1 h
      | inl matches ↦
          let (rf', reply, a) =
            append_entries_matching codec rf args log new fresh beats room matches in
          (returned _ _ a.returns).1 h
    ]

    -- The handler of a server with a log whose first entry alone has the term 0, for entries that go
    -- on from PrevLogIndex: no index is out of range, whatever the term, PrevLogIndex and
    -- LeaderCommit of the message are, and it blocks only on a channel that is full, the one of heart
    -- beats or the one of commitments.
    pub append_entries_total :
        (append_entries codec rf args ≢ panic)
        × (append_entries codec rf args ≡ blocked
            → (capacity ≤ rf.chan_heart_beat) ⊎ (capacity ≤ rf.chan_commit))
    append_entries_total = elim (dec_lt args.term rf.current_term) [
      | yes stale ↦
          let (reply, t, e) = stale_answer stale in
          ((returned _ _ e).0, λ h. absurd ((returned _ _ e).1 h))
      | no fresh ↦ elim (dec_lt rf.chan_heart_beat capacity) [
        | no full ↦
            let e = beats_full (omega arith) (omega arith) in ((waits _ e), λ h. inl (omega arith))
        | yes beats ↦ (
          seen_answer (omega arith) beats,
          λ h. inr (elim (dec_lt rf.chan_commit capacity) [
            | no full ↦ omega arith
            | yes room ↦ absurd (room_answer (omega arith) beats room h)
          ]),
        )
      ]
    ]
