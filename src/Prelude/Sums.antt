-- ===== src/Prelude/Sums.antt =====
-- Sums of weights below a number.
use Prim.Native.Nat.{ℕ, zero, suc, ◌+◌, ◌<◌, ◌≤◌}
use mathlib.Core.Path.{◌≡◌, refl}
use mathlib.Core.Logic.{◌≢◌}
use native.Mathlib.Omega.{arith}
use native.Mathlib.Decide.{ℕ_discrete}

-- The sum of `w 0` up to `w (n - 1)`.
pub sum : ℕ → (ℕ → ℕ) → ℕ
sum zero w = 0
sum (suc n) w = sum n w + w n

pub sum-le : (n : ℕ) (w v : ℕ → ℕ) → ((j : ℕ) → j < n → w j ≤ v j) → sum n w ≤ sum n v
unfolding sum
sum-le zero w v h = omega arith
sum-le (suc n) w v h = omega (arith, sum-le n w v (λ j b. h j (omega arith)), h n (omega arith))

pub sum-lt :
    (n : ℕ) (w v : ℕ → ℕ) (i : ℕ)
    → i < n
    → ((j : ℕ) → j < n → w j ≤ v j)
    → w i < v i
    → sum n w < sum n v
unfolding sum
sum-lt zero w v i b h lt = absurd (omega arith)
sum-lt (suc n) w v i b h lt = elim (ℕ_discrete i n) [
  | yes e ↦
      let last : w n < v n = rw e at lt in omega (arith, sum-le n w v (λ j c. h j (omega arith)))
  | no ne ↦
      omega (arith, sum-lt n w v i (omega arith) (λ j c. h j (omega arith)) lt, h n (omega arith))
]

-- Weights that share one at most.
pub sum-disjoint : (n : ℕ) (w v : ℕ → ℕ) → ((j : ℕ) → j < n → w j + v j ≤ 1) → sum n w + sum n v ≤ n
unfolding sum
sum-disjoint zero w v h = omega arith
sum-disjoint (suc n) w v h =
    omega (arith, sum-disjoint n w v (λ j b. h j (omega arith)), h n (omega arith))

pub sum-same : (n : ℕ) (w v : ℕ → ℕ) → ((j : ℕ) → j < n → v j ≡ w j) → sum n v ≡ sum n w
unfolding sum
sum-same zero w v h = refl
sum-same (suc n) w v h = omega (arith, sum-same n w v (λ j b. h j (omega arith)), h n (omega arith))

pub sum-none : (n : ℕ) (w : ℕ → ℕ) → ((j : ℕ) → j < n → w j ≡ 0) → sum n w ≡ 0
unfolding sum
sum-none zero w h = refl
sum-none (suc n) w h = omega (arith, sum-none n w (λ j b. h j (omega arith)), h n (omega arith))

-- One weight grows by one.
pub sum-suc :
    (n : ℕ) (w v : ℕ → ℕ) (i : ℕ)
    → i < n
    → ((j : ℕ) → j < n → j ≢ i → v j ≡ w j)
    → v i ≡ w i + 1
    → sum n v ≡ sum n w + 1
unfolding sum
sum-suc zero w v i b h e = absurd (omega arith)
sum-suc (suc n) w v i b h e = elim (ℕ_discrete i n) [
  | yes r ↦
      let last : v n ≡ w n + 1 = rw r at e in
      omega (arith, last, sum-same n w v (λ j c. h j (omega arith) (omega arith)))
  | no ne ↦ omega (
    arith,
    sum-suc n w v i (omega arith) (λ j c. h j (omega arith)) e,
    h n (omega arith) (omega arith),
  )
]
