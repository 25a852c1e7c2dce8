-- ===== src/MutualExclusion/System/Invariant/Turn.antt =====
-- A turn of one process keeps the invariant of the system, from what the turn does to that process.
use distributed_algorithms.Prelude.{
  ℕ, ◌+◌, ◌≤◌, ◌<◌, ◌≡◌, ◌≢◌, ◌⊎◌, inl, inr, refl, sym, ◌∙◌, true, some, total-update, update,
  update_all, arith,
}
use distributed_algorithms.MutualExclusion.Timestamp.{Timestamp}
use distributed_algorithms.MutualExclusion.Timestamp.Order.{less_of_time}
use distributed_algorithms.MutualExclusion.ReceivedTime.Latest.{latest, IsOther}
use distributed_algorithms.MutualExclusion.Resource.{Resource}
use distributed_algorithms.MutualExclusion.System.{Node}
use distributed_algorithms.MutualExclusion.System.Invariant.{
  request_of, is_occupying, time_of, owes, Precedes, IsPair, IsShared,
}

-- What becomes of process `i` in its turn: the node `a` becomes `b`.
pub record IsTurn (n i : ℕ) (nodes : ℕ → Node) (a b : Node) : Type 0 where
  pub clock : time_of a ≤ time_of b
  pub heard : (j : ℕ) → IsOther n i j → latest b.process.received_time j ≤ time_of (nodes j)
  pub asks :
      (us : Timestamp) → request_of b ≡ some us → (request_of a ≡ some us) ⊎ (time_of a < us.time)
  pub wins :
      is_occupying b ≡ true
      → ((is_occupying a ≡ true) × (request_of b ≡ request_of a))
        ⊎ ((ts : Timestamp)
            → request_of b ≡ some ts
            → (j : ℕ) → IsOther n i j
            → Precedes ts (nodes j))

module _ {n i : ℕ} {nodes : ℕ → Node} {b : Node} (turn : IsTurn n i nodes (nodes i) b) where
  pub Precedes-turn : (ts : Timestamp) → Precedes ts (nodes i) → Precedes ts b
  Precedes-turn ts (before, first) = (
    omega (arith, turn.clock),
    λ us e. elim (turn.asks us e) [
      | inl old ↦ first us old
      | inr new ↦ less_of_time ts us (omega arith)
    ],
  )

  module _ (i_lt : i < n)
      (pair : (j k : ℕ) → j < n → k < n → j ≢ k → IsPair j (nodes j) (nodes k)) where
    from_turn : (k : ℕ) → k < n → i ≢ k → IsPair i b (nodes k)
    from_turn k lt ne =
        let p = pair i k i_lt lt ne in
        record {
          behind = omega (arith, p.behind, turn.clock);
          first = λ ts occ e. Precedes-turn ts (p.first ts occ e);
        }

    to_turn : (j : ℕ) → j < n → j ≢ i → IsPair j (nodes j) b
    to_turn j lt ne = record {
      behind = turn.heard j (lt, ne);
      first = λ ts occ e. elim (turn.wins occ) [
        | inl (was, same) ↦ (pair j i lt i_lt ne).first ts was (sym same ∙ e)
        | inr wins ↦ wins ts e j (lt, ne)
      ];
    }

    pub IsPair-turn :
        (j k : ℕ) → j < n → k < n → j ≢ k → IsPair j (update nodes i b j) (update nodes i b k)
    IsPair-turn j k p q ne =
        update_all (λ x d. j ≢ x → IsPair j (update nodes i b j) d) nodes i b
          (λ r.
            update_all (λ x d. x ≢ i → IsPair x d b) nodes i b (λ c. absurd (c refl)) j
              (λ _ c. to_turn j p c) r)
          k
          (λ r c.
            update_all (λ x d. x ≢ k → IsPair x d (nodes k)) nodes i b (from_turn k q) j
              (λ _ t. pair j k p q t) c)
          ne

  -- The turns that do not touch the resource.
  pub IsShared-turn :
      (r : Resource) (budget budget' : ℕ)
      → i < n
      → is_occupying b ≡ is_occupying (nodes i)
      → (is_occupying (nodes i) ≡ true → request_of b ≡ request_of (nodes i))
      → budget' + owes b ≡ budget + owes (nodes i)
      → IsShared n nodes r budget
      → IsShared n (update nodes i b) r budget'
  IsShared-turn r budget budget' lt same kept money v = record {
    held = λ j p.
        update_all (λ x d. is_occupying d ≡ true → r.occupied_by ≡ request_of d) nodes i b
          (λ occ. v.held i lt (sym same ∙ occ) ∙ sym (kept (sym same ∙ occ))) j
          (λ _ occ. v.held j p occ);
    holder = λ ts e.
        let (j, p, occ) = v.holder ts e in
        (
          j,
          p,
          update_all (λ x d. is_occupying (nodes x) ≡ true → is_occupying d ≡ true) nodes i b
              (λ was. same ∙ was) j (λ _ was. was) occ,
        );
    last = λ ts e j p.
        update_all (λ x d. Precedes ts d) nodes i b (Precedes-turn ts (v.last ts e i lt)) j
          (λ _. v.last ts e j p);
    owed = omega (arith, v.owed, total-update owes n nodes i b lt);
  }
