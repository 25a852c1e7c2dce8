-- ===== src/MutualExclusion/Timestamp/Least.antt =====
-- The least of some timestamps.
use distributed_algorithms.Prelude.{
  ℕ, zero, suc, ◌<◌, ◌≡◌, ◌⊎◌, inl, inr, false, Option, none, some, arith, ℕ_discrete, Bool-cases,
  Option-cases,
}
use distributed_algorithms.MutualExclusion.Timestamp.{Timestamp, less}
use distributed_algorithms.MutualExclusion.Timestamp.Order.{less-IsOrder}

-- Of the first `n` values that are given, none is less than the least.
abbrev pub Least : (ℕ → Option Timestamp) → ℕ → Timestamp → Type 0
Least f n us = (j : ℕ) (x : Timestamp) → j < n → f j ≡ some x → less x us ≡ false

pub Least-cases :
    (f : ℕ → Option Timestamp) (n : ℕ)
    → ((j : ℕ) → j < n → f j ≡ none)
      ⊎ ((m : ℕ) × (m < n) × ((us : Timestamp) × (f m ≡ some us) × Least f n us))
Least-cases f zero = inl (λ j b. elim b [ ])
Least-cases f (suc n) = elim (Option-cases (f n)) [
  | inl absent ↦ elim (Least-cases f n) [
    | inl all ↦
        inl (λ j b. elim (ℕ_discrete j n) [ yes e ↦ rw e absent | no ne ↦ all j (omega arith) ])
    | inr (m, b, (us, e, least)) ↦ inr (
      m,
      omega arith,
      (
        us,
        e,
        λ j x c h. elim (ℕ_discrete j n) [
          | yes r ↦ absurd (ground (arith, rw r at h))
          | no ne ↦ least j x (omega arith) h
        ],
      ),
    )
  ]
  | inr (ts, here) ↦ elim (Least-cases f n) [
    | inl all ↦ inr (
      n,
      omega arith,
      (
        ts,
        here,
        λ j x c h. elim (ℕ_discrete j n) [
          | yes r ↦ irreflexive x ts (ground (arith, rw r at h))
          | no ne ↦ absurd (ground (arith, all j (omega arith)))
        ],
      ),
    )
    | inr (m, b, (us, e, least)) ↦ elim (Bool-cases (less ts us)) [
      | inl before ↦ inr (
        n,
        omega arith,
        (
          ts,
          here,
          λ j x c h. elim (ℕ_discrete j n) [
            | yes r ↦ irreflexive x ts (ground (arith, rw r at h))
            | no ne ↦
                less-IsOrder.trans ts us x (less-IsOrder.asym ts us before)
                  (least j x (omega arith) h)
          ],
        ),
      )
      | inr behind ↦ inr (
        m,
        omega arith,
        (
          us,
          e,
          λ j x c h. elim (ℕ_discrete j n) [
            | yes r ↦ same_as x ts us (ground (arith, rw r at h)) behind
            | no ne ↦ least j x (omega arith) h
          ],
        ),
      )
    ]
  ]
]
  where
    irreflexive : (x ts : Timestamp) → x ≡ ts → less x ts ≡ false
    irreflexive x ts e = ground (arith, less-IsOrder.asym ts ts)

    same_as : (x ts us : Timestamp) → x ≡ ts → less ts us ≡ false → less x us ≡ false
    same_as x ts us e h = rw e h

pub less_antisym : (a b : Timestamp) → less a b ≡ false → less b a ≡ false → a ≡ b
unfolding less
less_antisym a b h k = ground arith
