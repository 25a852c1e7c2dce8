-- ===== src/Raft/AppendEntries/Search.antt =====
-- The search of AppendEntries for NextIndex (raft-AppendEntries.go), and a description of its result by
-- recursion on the log.
use distributed_algorithms.Prelude.{
  ℕ, zero, suc, ◌+◌, ◌≤◌, ◌≡◌, refl, ap, ◌∙◌, some, List, [], ◌∷◌, ◌++◌, ◌==◌, if◌then◌else◌, arith,
  length, take, get_elem?, get_elem?-some, length-take,
}
use distributed_algorithms.Raft.Run.{ok}
use distributed_algorithms.Raft.Server.{LogEntry}
use distributed_algorithms.Raft.AppendEntries.{find_conflict}

module _ {C : Type 0} (term : ℕ) where
  -- How many entries there are up to the last of another term.
  unfoldable pub after_other : List (LogEntry C) → ℕ
  after_other [] = 0
  after_other (x ∷ xs) = elim (after_other xs) [
    | zero ↦ if x.log_term == term then 0 else 1
    | suc n ↦ n + 2
  ]

  after_other-append :
      (xs : List (LogEntry C)) (e : LogEntry C)
      → after_other (xs ++ e ∷ []) ≡ (if e.log_term == term then after_other xs else length xs + 1)
  unfolding after_other
  after_other-append [] e = ground arith
  after_other-append (x ∷ xs) e = ground (arith, after_other-append xs e)

take-suc :
    {A : Type 0} (xs : List A) (i : ℕ) (x : A)
    → get_elem? xs i ≡ some x
    → take (suc i) xs ≡ take i xs ++ x ∷ []
take-suc [] i x h = absurd (ground arith)
take-suc (y ∷ xs) zero x h = ground arith
take-suc (y ∷ xs) (suc i) x h = ap (λ ys. y ∷ ys) (take-suc xs i x h)

-- For a log whose indices start at 0 and an index in it, the search, from that index downwards, gives
-- the number of entries up to the last one before the index that is of another term, or 0 where all
-- of them are of the term; it never reads past the log.
pub find_conflict_lem :
    {C : Type 0} (logs : List (LogEntry C)) (term k : ℕ)
    → k ≤ length logs
    → find_conflict logs 0 term k ≡ ok (after_other term (take k logs))
unfolding find_conflict after_other
find_conflict_lem logs term zero le = refl
find_conflict_lem logs term (suc i) le =
    let (e, h) = get_elem?-some logs i (omega arith) in
    let step =
      ap (after_other term) (take-suc logs i e h) ∙ after_other-append term (take i logs) e in
    ground (
      arith,
      h,
      find_conflict_lem logs term i (omega arith),
      step,
      length-take i logs (omega arith),
    )
