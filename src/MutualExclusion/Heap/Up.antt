-- ===== src/MutualExclusion/Heap/Up.antt =====
-- `up` restores the order when one element is too small for its place.
use distributed_algorithms.Prelude.{
  ℕ, zero, suc, ◌<◌, ◌≡◌, ◌≢◌, true, false, arith, inl, inr, Bool-cases, ◌==◌, not, ◌||◌,
}
use distributed_algorithms.MutualExclusion.Heap.{Interface, parent, up_loop, up}
use distributed_algorithms.MutualExclusion.Heap.Order.{IsLawful, IsHeap, IsRising}

module _ {S : Type 0} {h : Interface S} (law : IsLawful h) where
  open h use {len, less, swap}
  open law use {asym, trans, less-swap}

  module _ (s : S) (j n : ℕ) (v : IsRising h s j n) (pos : 0 < j) (lt : j < n)
      (below : less s j (parent j) ≡ true) where
    rise_settled :
        (k : ℕ) → 0 < k → k < n → k ≢ parent j → less (swap s (parent j) j) k (parent k) ≡ false
    rise_settled k p q r = ground (
      arith,
      less-swap s (parent j) j k (parent k),
      asym s j (parent j),
      v.bridged k,
      v.settled k,
      trans s j (parent j) k,
    )

    rise_bridged :
        (c : ℕ)
        → 0 < c
        → c < n
        → 0 < parent j
        → parent c ≡ parent j
        → less (swap s (parent j) j) c (parent (parent j)) ≡ false
    rise_bridged c p q r e = ground (
      arith,
      less-swap s (parent j) j c (parent (parent j)),
      v.settled c,
      v.settled (parent j),
      trans s (parent (parent j)) (parent j) c,
    )

    rise : IsRising h (swap s (parent j) j) (parent j) n
    rise = record { settled = rise_settled; bridged = rise_bridged }

  up_loop-IsHeap :
      (k : ℕ) (s : S) (j n : ℕ) → j < k → j < n → IsRising h s j n → IsHeap h (up_loop h k s j) n
  unfolding up_loop
  up_loop-IsHeap zero s j n fuel lt v = absurd (omega arith)
  up_loop-IsHeap (suc k) s j n fuel lt v =
      elim (Bool-cases ((parent j == j) || not (less s j (parent j)))) [
        | inl stop ↦ rw stop (λ c p q. ground (arith, v.settled c p q))
        | inr more ↦ rw more (
            up_loop-IsHeap k (swap s (parent j) j) (parent j) n (ground arith) (ground arith)
              (rise s j n v (ground arith) lt (ground arith)))
      ]

  -- Enough fuel is the element's place: every round halves it.
  pub up-IsHeap : (s : S) (j n : ℕ) → j < n → IsRising h s j n → IsHeap h (up h s j) n
  unfolding up
  up-IsHeap s j n lt v = up_loop-IsHeap (suc j) s j n (omega arith) lt v
