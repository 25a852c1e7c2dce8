-- ===== src/MutualExclusion/Heap/Keeps.antt =====
-- The heap's loops change the state by exchanging elements, and by nothing else.
use distributed_algorithms.Prelude.{
  ℕ, zero, suc, ◌+◌, ◌*◌, ◌<◌, arith, inl, inr, Bool-cases, ◌==◌, not, ◌||◌, ltb, leb,
}
use distributed_algorithms.MutualExclusion.Heap.{
  Interface, parent, child, up_loop, up, down_loop, down, settle,
}

-- A property that every exchange of two of the first `n` elements keeps.
module _ {ℓ} {S : Type 0} (h : Interface S) (P : S → Type ℓ) (n : ℕ)
    (keep : (s : S) (i j : ℕ) → i < n → j < n → P s → P (h.swap s i j)) where
  up_loop-keeps : (k : ℕ) (s : S) (j : ℕ) → j < n → P s → P (up_loop h k s j)
  unfolding up_loop
  up_loop-keeps zero s j lt p = p
  up_loop-keeps (suc k) s j lt p =
      elim (Bool-cases ((parent j == j) || not (h.less s j (parent j)))) [
        | inl stop ↦ rw stop p
        | inr more ↦ rw more (
            up_loop-keeps k (h.swap s (parent j) j) (parent j) (omega arith)
              (keep s (parent j) j (omega arith) lt p))
      ]

  pub up-keeps : (s : S) (j : ℕ) → j < n → P s → P (up h s j)
  unfolding up
  up-keeps s j lt p = up_loop-keeps (suc j) s j lt p

  child-lt : (s : S) (i : ℕ) → 2 * i + 1 < n → child h s i n < n
  unfolding child
  child-lt s i lt = ground arith

  down_loop-keeps : (k : ℕ) (s : S) (i : ℕ) → i < n → P s → P (down_loop h k s i n).0
  unfolding down_loop
  down_loop-keeps zero s i lt p = p
  down_loop-keeps (suc k) s i lt p =
      elim (Bool-cases (leb n (2 * i + 1) || not (h.less s (child h s i n) i))) [
        | inl stop ↦ rw stop p
        | inr more ↦
            let lt' = child-lt s i (ground arith) in
            rw more (
              down_loop-keeps k (h.swap s i (child h s i n)) (child h s i n) lt'
                (keep s i (child h s i n) lt lt' p))
      ]

  pub settle-keeps : (s : S) (i : ℕ) → i < n → P s → P (settle h s i n)
  unfolding settle down
  settle-keeps s i lt p =
      let r = down_loop h n s i n in
      let q = down_loop-keeps n s i lt p in
      elim (Bool-cases (ltb i r.1)) [
        | inl moved ↦ rw moved q
        | inr still ↦ rw still (up-keeps r.0 i lt q)
      ]
