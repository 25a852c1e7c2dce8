-- ===== src/Raft/Replicas/Invariant.antt =====
-- What is asked of every server and of every message of raft-AppendEntries.go: each log follows, entry by entry, the log that
-- the leader of the entry's term has written.
use distributed_algorithms.Prelude.{
  IsPrefix, ℕ, zero, suc, ◌+◌, ◌≤◌, ◌<◌, ◌≡◌, ◌≢◌, ◌⊎◌, inl, inr, sym, ap, ◌∙◌, Bool, true, none,
  some, List, [], ◌∷◌, arith, ℕ_discrete, length, get_elem?, take, drop, length-take, get_elem?-lt,
  length-take-le, take-take,
}
use distributed_algorithms.Raft.Server.{LogEntry, leader, Codec, Raft, IsPersisted}
use distributed_algorithms.Raft.Server.Log.{IsLog}
use distributed_algorithms.Raft.AppendEntries.Backoff.{IsTermed}
use distributed_algorithms.Raft.Cluster.{Cluster}
use distributed_algorithms.Raft.Replicas.{Message}
use distributed_algorithms.Raft.Replicas.Local.{IsCalm}
use distributed_algorithms.Raft.Steps.Bound.{Kept}

-- The logs that the leaders have written, by term.
abbrev pub Written : Type 0 → Type 0
Written C = ℕ → List (LogEntry C)

module _ {C : Type 0} where
  abbrev pub first : C → LogEntry C
  first z = record { log_index = 0; log_term = 0; command = z }

  -- The log starts with the entry 0, and up to every other entry it is what the leader of that entry's
  -- term has written.
  pub record Follows (z : C) (w : Written C) (logs : List (LogEntry C)) : Type 0 where
    pub starts : take 1 logs ≡ first z ∷ []
    pub copies :
        (i : ℕ) (e : LogEntry C)
        → 0 < i
        → get_elem? logs i ≡ some e
        → take (i + 1) logs ≡ take (i + 1) (w e.log_term)

  -- Two such logs are the same up to entries of the same index and term.
  pub Follows-take :
      (z : C) (w : Written C) (xs ys : List (LogEntry C))
      → Follows z w xs
      → Follows z w ys
      → (i : ℕ) (x y : LogEntry C) → get_elem? xs i ≡ some x
      → get_elem? ys i ≡ some y
      → (0 < i → x.log_term ≡ y.log_term)
      → take (i + 1) xs ≡ take (i + 1) ys
  Follows-take z w xs ys f g zero x y a b e = f.starts ∙ sym g.starts
  Follows-take z w xs ys f g (suc i) x y a b e =
      let p = f.copies (suc i) x (omega arith) a in
      let q = g.copies (suc i) y (omega arith) b in
      p ∙ (ap (λ t. take (suc i + 1) (w t)) (e (omega arith)) ∙ sym q)

  -- The logs that are written to grow only at their ends.
  abbrev pub Extends : Written C → Written C → Type 0
  Extends w w' = (t : ℕ) → (w t ≡ []) ⊎ IsPrefix (w t) (w' t)

  pub Extends-Follows :
      (z : C) (w w' : Written C) (logs : List (LogEntry C))
      → Extends w w'
      → Follows z w logs
      → Follows z w' logs
  Extends-Follows z w w' logs ext f = record { starts = f.starts; copies = copies }
    where
      copies :
          (i : ℕ) (e : LogEntry C)
          → 0 < i
          → get_elem? logs i ≡ some e
          → take (i + 1) logs ≡ take (i + 1) (w' e.log_term)
      copies i e pos h =
          let p = f.copies i e pos h in
          let n : length (take (i + 1) (w e.log_term)) ≡ i + 1 =
            ap length (sym p) ∙ length-take (i + 1) logs (omega (arith, get_elem?-lt logs i h)) in
          let le = length-take-le (i + 1) (w e.log_term) in
          elim (ext e.log_term) [
            | inl none_yet ↦ absurd (omega (arith, n, le, ap length none_yet))
            | inr same ↦
                p
                ∙ (ap (take (i + 1)) (sym same)
                    ∙ take-take (i + 1) (length (w e.log_term)) (w' e.log_term)
                        (omega (arith, n, le)))
          ]

  -- No other entry than the first has the term 0, if no leader wrote in that term.
  pub Follows-IsTermed :
      (z : C) (w : Written C) (logs : List (LogEntry C))
      → Follows z w logs
      → w 0 ≡ []
      → IsTermed logs
  Follows-IsTermed z w [] f unwritten = record {
    first = λ e h. absurd (ground arith);
    later = λ i e pos h. absurd (ground arith);
  }
  Follows-IsTermed z w (x ∷ xs) f unwritten = record {
    first = λ e h. ground (arith, f.starts);
    later = λ i e pos h. elim (ℕ_discrete e.log_term 0) [
      | no ne ↦ omega arith
      | yes old ↦
          let p = f.copies i e pos h in
          let n = length-take (i + 1) (x ∷ xs) (omega (arith, get_elem?-lt (x ∷ xs) i h)) in
          absurd (
            omega (
              arith,
              n,
              ap length p,
              length-take-le (i + 1) (w e.log_term),
              ap (λ t. length (w t)) old,
              ap length unwritten,
            ))
    ];
  }

module _ {C B : Type 0} (codec : Codec C B) where
  -- What is persisted is up to date, or nothing is and the server is as it was made.
  abbrev pub IsStored : C → Raft C B → Type 0
  IsStored z rf =
      IsPersisted codec rf
      ⊎ ((rf.persister.raftstate ≡ none) × (rf.current_term ≡ 0) × (rf.logs ≡ first z ∷ []))

  -- A server, with the terms in which it has been elected.
  pub record IsReplica (z : C) (w : Written C) (rf : Raft C B) (won : ℕ → Bool) : Type 0 where
    pub stored : IsStored z rf
    pub log : IsLog rf.logs
    pub follows : Follows z w rf.logs
    pub leads : rf.state ≡ leader → won rf.current_term ≡ true
    pub past : (t : ℕ) → won t ≡ true → t ≤ rf.current_term
    pub owns : won rf.current_term ≡ true → (w rf.current_term ≡ []) ⊎ (rf.logs ≡ w rf.current_term)

  -- A message is a part of a log that its sender had, from the entry after PrevLogIndex on.
  pub record IsMessage (z : C) (w : Written C) (c : Cluster C B) (m : Message C) : Type 0 where
    pub whole : List (LogEntry C)
    pub follows : Follows z w whole
    pub log : IsLog whole
    pub prev : LogEntry C
    pub prev_at : get_elem? whole m.args.prev_log_index ≡ some prev
    pub prev_term : m.args.prev_log_term ≡ prev.log_term
    pub rest : m.args.entries ≡ drop (m.args.prev_log_index + 1) whole
    pub other : m.receiver ≢ m.sender
    pub won : (c m.sender).elected m.args.term ≡ true

  pub kept-stored : (z : C) (a b : Raft C B) → Kept codec a b → IsStored z a → IsStored z b
  kept-stored z a b (inr p) s = inl p
  kept-stored z a b (inl k) s = ground arith

  -- A server that keeps its log.
  pub moved-IsReplica :
      (z : C) (w : Written C) (a b : Raft C B) (won : ℕ → Bool)
      → IsReplica z w a won
      → b.logs ≡ a.logs
      → a.current_term ≤ b.current_term
      → IsStored z b
      → (b.state ≡ leader → won b.current_term ≡ true)
      → IsReplica z w b won
  moved-IsReplica z w a b won v logs term stored leads = record {
    stored = stored;
    log = rw logs v.log;
    follows = rw logs v.follows;
    leads = leads;
    past = λ t h. omega (arith, v.past t h);
    owns = λ h.
        let e : b.current_term ≡ a.current_term = omega (arith, v.past b.current_term h) in
        let own : (w a.current_term ≡ []) ⊎ (a.logs ≡ w a.current_term) = v.owns (rw e at h) in
        rw (e, logs) own;
  }

  pub calm-IsReplica :
      (z : C) (w : Written C) (a b : Raft C B) (won : ℕ → Bool)
      → IsReplica z w a won
      → IsCalm codec a b
      → IsReplica z w b won
  calm-IsReplica z w a b won v k =
      moved-IsReplica z w a b won v k.logs k.term (kept-stored z a b k.kept v.stored)
        (λ l. let (l', e) = k.leads l in rw e (v.leads l'))
