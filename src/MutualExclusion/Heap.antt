-- ===== src/MutualExclusion/Heap.antt =====
-- The standard library's container/heap, as receivedTime.go and requestQueue.go use it: a binary
-- heap over the methods of heap.Interface. Its order and its laws are in the child modules.
pub mod Order
pub mod Up
pub mod Down
pub mod Keeps
use distributed_algorithms.Prelude.{
  ℕ, zero, suc, ◌+◌, ◌-◌, ◌*◌, ◌/◌, Bool, true, false, not, ◌&&◌, ◌||◌, ltb, leb, ◌==◌,
  if◌then◌else◌,
}

-- Len, Less and Swap of heap.Interface.
pub record Interface (S : Type 0) : Type 0 where
  pub len : S → ℕ
  pub less : S → ℕ → ℕ → Bool
  pub swap : S → ℕ → ℕ → S

abbrev pub parent : ℕ → ℕ
parent j = (j - 1) / 2

module _ {S : Type 0} (h : Interface S) where
  open h use {len, less, swap}

  -- `up`: one round of the loop per unit of fuel.
  unfoldable pub up_loop : ℕ → S → ℕ → S
  up_loop zero s j = s
  up_loop (suc k) s j =
      let rest = up_loop k (swap s (parent j) j) (parent j) in
      if (parent j == j) || not (less s j (parent j)) then s else rest

  unfoldable pub up : S → ℕ → S
  up s j = up_loop (suc j) s j

  -- The smaller of the children of `i` below `n`.
  unfoldable pub child : S → ℕ → ℕ → ℕ
  child s i n = if ltb (2 * i + 2) n && less s (2 * i + 2) (2 * i + 1) then 2 * i + 2 else 2 * i + 1

  -- `down`: the state, and where the element came to rest.
  unfoldable pub down_loop : ℕ → S → ℕ → ℕ → S × ℕ
  down_loop zero s i n = (s, i)
  down_loop (suc k) s i n =
      let rest = down_loop k (swap s i (child s i n)) (child s i n) n in
      if leb n (2 * i + 1) || not (less s (child s i n) i) then (s, i) else rest

  unfoldable pub down : S → ℕ → ℕ → S × Bool
  down s i n = let r = down_loop n s i n in (r.0, ltb i r.1)

  -- `if !down(h, i, n) { up(h, i) }`
  unfoldable pub settle : S → ℕ → ℕ → S
  settle s i n = let r = down s i n in if r.1 then r.0 else up r.0 i

  unfoldable pub fix : S → ℕ → S
  fix s i = settle s i (len s)

  -- Remove up to its last step, the call of Pop.
  unfoldable pub remove : S → ℕ → S
  remove s i =
      let n = len s - 1 in let moved = settle (swap s i n) i n in if n == i then s else moved
