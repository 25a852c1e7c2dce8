-- ===== src/Prelude/Family.antt =====
-- Families indexed by numbers: slices and arrays of records, written at one index, and sums.
use Prim.Native.Nat.{ℕ, zero, suc, ◌+◌, ◌*◌, ◌<◌, ◌≤◌}
use mathlib.Core.Path.{◌≡◌, refl, sym, subst}
use mathlib.Core.Logic.{◌≢◌}
use native.Mathlib.Omega.{arith}
use native.Mathlib.Decide.{ℕ_discrete, dec_lt}
use distributed_algorithms.Prelude.Tests.{◌==◌, if◌then◌else◌}

module _ {ℓ} {A : Type ℓ} where
  abbrev pub update : (ℕ → A) → ℕ → A → ℕ → A
  update f i a j = if i == j then a else f j

  pub update_self : (f : ℕ → A) (i : ℕ) (a : A) → update f i a i ≡ a
  update_self f i a = ground arith

  pub update_other : (f : ℕ → A) (i j : ℕ) (a : A) → j ≢ i → update f i a j ≡ f j
  update_other f i j a h = ground arith

  -- What holds of the new element and of the others holds of all.
  pub update_all {κ} :
      (P : ℕ → A → Type κ) (f : ℕ → A) (i : ℕ) (a : A)
      → P i a
      → (j : ℕ) → (j ≢ i → P j (f j))
      → P j (update f i a j)
  update_all P f i a p j q = elim (ℕ_discrete j i) [
    | yes e ↦ subst (λ k. P k (update f i a k)) (sym e) (subst (P i) (sym (update_self f i a)) p)
    | no e ↦ subst (P j) (sym (update_other f i j a e)) (q e)
  ]

  -- The sum of the weights of the first `n` elements.
  pub total : (A → ℕ) → ℕ → (ℕ → A) → ℕ
  total w zero f = 0
  total w (suc n) f = total w n f + w (f n)

  total-update_of_le :
      (w : A → ℕ) (n : ℕ) (f : ℕ → A) (i : ℕ) (a : A)
      → n ≤ i
      → total w n (update f i a) ≡ total w n f
  unfolding total
  total-update_of_le w zero f i a h = refl
  total-update_of_le w (suc n) f i a h = ground (arith, total-update_of_le w n f i a)

  pub total-update :
      (w : A → ℕ) (n : ℕ) (f : ℕ → A) (i : ℕ) (a : A)
      → i < n
      → total w n (update f i a) + w (f i) ≡ total w n f + w a
  unfolding total
  total-update w zero f i a h = absurd (omega arith)
  total-update w (suc n) f i a h = elim (dec_lt i n) [
    | yes below ↦ ground (arith, total-update w n f i a below)
    | no last ↦ ground (arith, total-update_of_le w n f i a)
  ]

  pub total-zero : (w : A → ℕ) (n : ℕ) (f : ℕ → A) → ((i : ℕ) → w (f i) ≡ 0) → total w n f ≡ 0
  unfolding total
  total-zero w zero f h = refl
  total-zero w (suc n) f h = omega (arith, total-zero w n f h, h n)

  pub total-same :
      (w v : A → ℕ) (n : ℕ) (f : ℕ → A)
      → ((i : ℕ) → i < n → w (f i) ≡ v (f i))
      → total w n f ≡ total v n f
  unfolding total
  total-same w v zero f h = refl
  total-same w v (suc n) f h =
      omega (arith, total-same w v n f (λ i b. h i (omega arith)), h n (omega arith))

  pub total-le :
      (w : A → ℕ) (n c : ℕ) (f : ℕ → A) → ((i : ℕ) → i < n → w (f i) ≤ c) → total w n f ≤ n * c
  unfolding total
  total-le w zero c f h = omega arith
  total-le w (suc n) c f h =
      grind (arith, total-le w n c f (λ i b. h i (omega arith)), h n (omega arith))
