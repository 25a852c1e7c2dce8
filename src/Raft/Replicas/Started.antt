-- ===== src/Raft/Replicas/Started.antt =====
-- Start of raft-API.go at a leader, as one server and the others see it.
use distributed_algorithms.Prelude.{
  ℕ, ◌+◌, ◌<◌, ◌≡◌, ◌≢◌, ◌⊎◌, inl, inr, sym, ap, ◌∙◌, Bool, true, some, [], arith, dec_lt,
  ℕ_discrete, update, update_self, update_other, length, get_elem?, take, length-append,
  get_elem?-lt, take_all, take-append_left,
}
use distributed_algorithms.Raft.Server.{LogEntry, Codec, Raft}
use distributed_algorithms.Raft.Server.Log.{IsLog}
use distributed_algorithms.Raft.Api.Restart.{IsStarted}
use distributed_algorithms.Raft.Replicas.Invariant.{
  Written, Follows, Extends, Extends-Follows, IsReplica,
}

module _ {C B : Type 0} (codec : Codec C B) (z : C) (w : Written C) (a b : Raft C B) (command : C)
    (s : IsStarted codec a command b) where
  -- The leader's log is what it has written in its term.
  abbrev pub rewritten : Written C
  rewritten = update w a.current_term b.logs

  written_now : rewritten a.current_term ≡ b.logs
  written_now = update_self w a.current_term b.logs

  module _ (own : (w a.current_term ≡ []) ⊎ (a.logs ≡ w a.current_term)) where
    pub rewritten-Extends : Extends w rewritten
    rewritten-Extends t = elim (ℕ_discrete t a.current_term) [
      | no ne ↦
          inr
            (ap (take (length (w t))) (update_other w a.current_term t b.logs ne) ∙ take_all (w t))
      | yes e ↦ elim own [
        | inl unwritten ↦ inl (rw e unwritten)
        | inr same ↦ inr (
            rw (e, written_now, sym same, s.logs)
              (take-append_left (length a.logs) a.logs _ (omega arith) ∙ take_all a.logs))
      ]
    ]

    started-Follows : IsLog a.logs → Follows z w a.logs → Follows z rewritten b.logs
    started-Follows log f = record {
      starts = rw s.logs (take-append_left 1 a.logs _ log.inhabited ∙ f.starts);
      copies = copies;
    }
      where
        f' : Follows z rewritten a.logs
        f' = Extends-Follows z w rewritten a.logs rewritten-Extends f

        copies :
            (i : ℕ) (e : LogEntry C)
            → 0 < i
            → get_elem? b.logs i ≡ some e
            → take (i + 1) b.logs ≡ take (i + 1) (rewritten e.log_term)
        copies i e pos h = elim (dec_lt i (length a.logs)) [
          | yes lt ↦
              let old : get_elem? a.logs i ≡ some e = sym (s.older i lt) ∙ h in
              ap (take (i + 1)) s.logs
              ∙ (take-append_left (i + 1) a.logs _ (omega arith) ∙ f'.copies i e pos old)
          | no ge ↦
              let n : length b.logs ≡ length a.logs + 1 =
                ap length s.logs ∙ length-append a.logs _ in
              let at : i ≡ length a.logs = omega (arith, n, get_elem?-lt b.logs i h) in
              let t : e.log_term ≡ a.current_term = ground (arith, s.entry, rw at at h) in
              ap (take (i + 1)) (rw t (sym written_now))
        ]

    pub started-IsReplica :
        (won : ℕ → Bool) → IsReplica codec z w a won → IsReplica codec z rewritten b won
    started-IsReplica won u = record {
      stored = inl s.persisted;
      log = s.valid;
      follows = started-Follows u.log u.follows;
      leads = λ l. rw (s.same.1) (u.leads (sym s.same.0 ∙ l));
      past = λ t h. omega (arith, s.same.1, u.past t h);
      owns = λ h. inr (rw (s.same.1) (sym written_now));
    }

    -- A server that has not been elected in that term.
    pub other-IsReplica :
        (x : Raft C B) (won : ℕ → Bool)
        → IsReplica codec z w x won
        → won a.current_term ≢ true
        → IsReplica codec z rewritten x won
    other-IsReplica x won u lost = record {
      stored = u.stored;
      log = u.log;
      follows = Extends-Follows z w rewritten x.logs rewritten-Extends u.follows;
      leads = u.leads;
      past = u.past;
      owns = λ h. elim (ℕ_discrete x.current_term a.current_term) [
        | yes e ↦ absurd (lost (rw e at h))
        | no ne ↦ rw (update_other w a.current_term x.current_term b.logs ne) (u.owns h)
      ];
    }
