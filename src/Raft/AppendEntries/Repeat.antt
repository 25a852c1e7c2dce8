-- ===== src/Raft/AppendEntries/Repeat.antt =====
-- The handler of AppendEntries (raft-AppendEntries.go) for a message that comes twice.
use distributed_algorithms.Prelude.{
  ℕ, ◌+◌, ◌≤◌, ◌<◌, ◌≡◌, ◌≢◌, inl, inr, refl, sym, ap, subst, ◌∙◌, Bool, false, List, ◌++◌, arith,
  dec_lt, length-take, take, get_elem?, take-take, take-append_left, get_elem?-take,
}
use distributed_algorithms.Raft.Run.{Run, ok, panic, blocked, send, capacity}
use distributed_algorithms.Raft.Server.{LogEntry, Codec, Raft}
use distributed_algorithms.Raft.Server.Log.{IsLog, IsRange}
use distributed_algorithms.Raft.AppendEntries.{
  AppendEntriesArgs, AppendEntriesReply, append_entries,
}
use distributed_algorithms.Raft.AppendEntries.Seen.{handled, beaten-IsSeen}
use distributed_algorithms.Raft.AppendEntries.Outcome.{
  Matches, written, written-IsLog, length-written,
}
use distributed_algorithms.Raft.AppendEntries.Backoff.{IsTermed, Misses, short, conflicts}
use distributed_algorithms.Raft.AppendEntries.Total.{
  previous_found, full_answer, append_entries_total,
}
use distributed_algorithms.Raft.AppendEntries.Calls.{
  IsCall, stale-IsCall, missing-IsCall, found-IsCall,
}

module _ {C B : Type 0} (codec : Codec C B) (args : AppendEntriesArgs C)
    (new : IsRange (args.prev_log_index + 1) args.entries) where
  still_missing :
      (xs ys : List (LogEntry C)) (log : IsLog xs) (terms : IsTermed xs) (log' : IsLog ys)
      (terms' : IsTermed ys)
      → ys ≡ xs
      → Misses xs log terms args
      → Misses ys log' terms' args
  still_missing xs ys log terms log' terms' e (short le) = short (rw e le)
  still_missing xs ys log terms log' terms' e (conflicts x pos h ne) = conflicts x pos (rw e h) ne

  module _ (xs : List (LogEntry C)) (log : IsLog xs) (m : Matches xs args) where
    abbrev once : List (LogEntry C)
    once = written xs args log m new

    same_start : take (args.prev_log_index + 1) once ≡ take (args.prev_log_index + 1) xs
    same_start =
        take-append_left (args.prev_log_index + 1) (take (args.prev_log_index + 1) xs) args.entries
          (omega
            (arith, m.within, length-take (args.prev_log_index + 1) xs (omega (arith, m.within))))
        ∙ take-take (args.prev_log_index + 1) (args.prev_log_index + 1) xs (omega arith)

    same_prev : get_elem? once args.prev_log_index ≡ get_elem? xs args.prev_log_index
    same_prev =
        sym (get_elem?-take (args.prev_log_index + 1) once args.prev_log_index (omega arith))
        ∙ (ap (λ (ys : List (LogEntry C)). get_elem? ys args.prev_log_index) same_start
            ∙ get_elem?-take (args.prev_log_index + 1) xs args.prev_log_index (omega arith))

    still_matching : Matches once args
    still_matching = record {
      within = omega (arith, length-written xs args log m new);
      agrees = λ e pos h. m.agrees e pos (sym same_prev ∙ h);
    }

  found_total :
      (x : Raft C B) → IsLog x.logs → Matches x.logs args → append_entries codec x args ≢ panic
  unfolding append_entries send
  found_total x log m h = elim (dec_lt args.term x.current_term) [
    | yes old ↦ ground arith
    | no fresh ↦ elim (dec_lt x.chan_heart_beat capacity) [
      | no full ↦ ground arith
      | yes beats ↦
          let v = beaten-IsSeen codec x args (omega arith) beats in
          full_answer codec _ args (rw v.same_logs log) (rw v.same_logs m) new
            (sym (handled codec x args (omega arith) beats _ refl) ∙ h)
    ]
  ]

  -- The second call agrees with the first.
  pub record IsSame (b c : Raft C B) (reply reply' : AppendEntriesReply) : Type 0 where
    pub logs : c.logs ≡ b.logs
    pub term : c.current_term ≡ b.current_term
    pub success : reply'.success ≡ reply.success
    pub reply_term : reply'.term ≡ reply.term

  -- How the second call ends.
  pub data IsRepeated (b : Raft C B) (reply : AppendEntriesReply)
      : Run (Raft C B × AppendEntriesReply) → Type 0 where
    waits : IsRepeated b reply blocked
    answers :
        (c : Raft C B) (reply' : AppendEntriesReply)
        → IsSame b c reply reply'
        → IsRepeated b reply (ok (c, reply'))

  agree :
      {a b c : Raft C B} {reply reply' : AppendEntriesReply} {kept kept' : List (LogEntry C)}
      {answer : Bool} {now : ℕ}
      → IsCall codec args new a b reply kept answer now
      → IsCall codec args new b c reply' kept' answer now
      → kept' ≡ b.logs
      → IsSame b c reply reply'
  agree v w e = record {
    logs = w.logs ∙ e;
    term = w.term.1 ∙ sym (v.term.1);
    success = w.success ∙ sym v.success;
    reply_term = w.term.0 ∙ sym (v.term.0);
  }

  module _ (a b : Raft C B) (reply : AppendEntriesReply) (log : IsLog a.logs)
      (terms : IsTermed a.logs) (h : append_entries codec a args ≡ ok (b, reply)) where
    stale_again :
        (c : Raft C B) (reply' : AppendEntriesReply)
        → append_entries codec b args ≡ ok (c, reply')
        → args.term < a.current_term
        → IsSame b c reply reply'
    stale_again c reply' h' old =
        let (e, v) = stale-IsCall codec args new a b reply h old in
        let (e', w) =
          stale-IsCall codec args new b c reply' h'
            (omega (arith, ap (λ (x : Raft C B). x.current_term) e)) in
        agree v
          (subst (λ t. IsCall codec args new b c reply' b.logs false t)
            (ap (λ (x : Raft C B). x.current_term) e) w)
          refl

    missing_again :
        (c : Raft C B) (reply' : AppendEntriesReply)
        → append_entries codec b args ≡ ok (c, reply')
        → a.current_term ≤ args.term
        → Misses a.logs log terms args
        → IsSame b c reply reply'
    missing_again c reply' h' fresh m =
        let v = missing-IsCall codec args new a b reply h log terms fresh m in
        let log' : IsLog b.logs = rw v.logs log in
        let terms' : IsTermed b.logs = rw v.logs terms in
        let m' = still_missing a.logs b.logs log terms log' terms' v.logs m in
        agree v
          (missing-IsCall codec args new b c reply' h' log' terms' (omega (arith, v.term.1)) m')
          refl

    found_again :
        (c : Raft C B) (reply' : AppendEntriesReply)
        → append_entries codec b args ≡ ok (c, reply')
        → a.current_term ≤ args.term
        → Matches a.logs args
        → IsSame b c reply reply'
    found_again c reply' h' fresh m =
        let v = found-IsCall codec args new a b reply h log m fresh in
        let log' : IsLog b.logs = rw v.logs (written-IsLog a.logs args log m new) in
        let m' : Matches b.logs args = rw v.logs (still_matching a.logs log m) in
        let w = found-IsCall codec args new b c reply' h' log' m' (omega (arith, v.term.1)) in
        let start : take (args.prev_log_index + 1) b.logs ≡ take (args.prev_log_index + 1) a.logs =
          ap (take (args.prev_log_index + 1)) v.logs ∙ same_start a.logs log m in
        agree v w (ap (λ (xs : List (LogEntry C)). xs ++ args.entries) start ∙ sym v.logs)

    again :
        (c : Raft C B) (reply' : AppendEntriesReply)
        → append_entries codec b args ≡ ok (c, reply')
        → IsSame b c reply reply'
    again c reply' h' = elim (dec_lt args.term a.current_term) [
      | yes old ↦ stale_again c reply' h' old
      | no fresh ↦ elim (previous_found a.logs log terms args) [
        | inr misses ↦ missing_again c reply' h' (omega arith) misses
        | inl matches ↦ found_again c reply' h' (omega arith) matches
      ]
    ]

    -- The second call does not panic.
    again_total : append_entries codec b args ≢ panic
    again_total = elim (dec_lt args.term a.current_term) [
      | yes old ↦
          let e = (stale-IsCall codec args new a b reply h old).0 in
          returned (append_entries codec b args) (ap (λ x. append_entries codec x args) e ∙ h)
      | no fresh ↦ elim (previous_found a.logs log terms args) [
        | inr misses ↦
            let v = missing-IsCall codec args new a b reply h log terms (omega arith) misses in
            (append_entries_total codec b args (rw v.logs log) (rw v.logs terms) new).0
        | inl matches ↦
            let v = found-IsCall codec args new a b reply h log matches (omega arith) in
            found_total b (rw v.logs (written-IsLog a.logs args log matches new))
              (rw v.logs (still_matching a.logs log matches))
      ]
    ]
      where
        returned : (r : Run (Raft C B × AppendEntriesReply)) → r ≡ ok (b, reply) → r ≢ panic
        returned r e p = cc

    -- A message that a server with a log whose first entry alone has the term 0 has just handled, with
    -- entries that go on from PrevLogIndex, and that comes once more: the handler does not panic, and
    -- where it does not block on a full channel, it leaves the log and the term as they are after the
    -- first time and answers with the same success and term.
    pub repeated_message : IsRepeated b reply (append_entries codec b args)
    repeated_message = of_run (append_entries codec b args) refl
      where
        of_run :
            (r : Run (Raft C B × AppendEntriesReply))
            → append_entries codec b args ≡ r
            → IsRepeated b reply r
        of_run (ok (c, reply')) e = answers c reply' (again c reply' e)
        of_run panic e = absurd (again_total e)
        of_run blocked e = waits
