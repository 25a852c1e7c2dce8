-- ===== src/MutualExclusion/Entries/Laws.antt =====
-- Which entries a queue holds, and that the heap's operations keep the places and the order.
use distributed_algorithms.Prelude.{ℕ, ◌<◌, ◌≡◌, refl, Bool, true, false, arith, some}
use distributed_algorithms.MutualExclusion.Heap
use distributed_algorithms.MutualExclusion.Heap.Order.{IsLawful, transpose}
use distributed_algorithms.MutualExclusion.Entries.{Entries, swap, interface}

-- A strict weak order, as a Boolean test.
pub record IsOrder {K : Type 0} (lt : K → K → Bool) : Type 0 where
  pub asym : (a b : K) → lt a b ≡ true → lt b a ≡ false
  pub trans : (a b c : K) → lt b a ≡ false → lt c b ≡ false → lt c a ≡ false

module _ {K : Type 0} where
  abbrev pub Live : Entries K → ℕ → Type 0
  Live e p = (k : ℕ) × (k < e.len) × (e.slot k ≡ p)

  -- Every entry in the slice knows its place.
  abbrev pub IsIndexed : Entries K → Type 0
  IsIndexed e = (k : ℕ) → k < e.len → e.index (e.slot k) ≡ some k

  -- The same entries with the same keys, at other places.
  pub record IsReordered (d e : Entries K) : Type 0 where
    pub len_eq : e.len ≡ d.len
    pub key_eq : (p : ℕ) → e.key p ≡ d.key p
    pub indexed : IsIndexed e
    pub out : (p : ℕ) → Live e p → Live d p
    pub into : (p : ℕ) → Live d p → Live e p

  pub IsReordered-refl : (e : Entries K) → IsIndexed e → IsReordered e e
  IsReordered-refl e v = record {
    len_eq = refl;
    key_eq = λ p. refl;
    indexed = v;
    out = λ p l. l;
    into = λ p l. l;
  }

  pub at_injective :
      (e : Entries K)
      → IsIndexed e
      → (a b : ℕ) → a < e.len
      → b < e.len
      → e.slot a ≡ e.slot b
      → a ≡ b
  at_injective e v a b p q h = ground (arith, v a p, v b q)

  swap-IsIndexed :
      (e : Entries K) (i j : ℕ) → i < e.len → j < e.len → IsIndexed e → IsIndexed (swap e i j)
  unfolding swap
  swap-IsIndexed e i j p q v k r = ground (arith, v k r, v i p, v j q)

  swap-Live : (e : Entries K) (i j p : ℕ) → i < e.len → j < e.len → Live e p → Live (swap e i j) p
  unfolding swap
  swap-Live e i j p hi hj (k, lt, h) = (transpose i j k, ground arith, ground arith)

  swap-Live_inv :
      (e : Entries K) (i j p : ℕ) → i < e.len → j < e.len → Live (swap e i j) p → Live e p
  unfolding swap
  swap-Live_inv e i j p hi hj (k, lt, h) = (transpose i j k, ground arith, ground arith)

  pub swap-IsReordered :
      (d e : Entries K) (i j : ℕ)
      → i < d.len
      → j < d.len
      → IsReordered d e
      → IsReordered d (swap e i j)
  unfolding swap
  swap-IsReordered d e i j p q v = record {
    len_eq = v.len_eq;
    key_eq = v.key_eq;
    indexed = swap-IsIndexed e i j p' q' v.indexed;
    out = λ r l. v.out r (swap-Live_inv e i j r p' q' l);
    into = λ r l. swap-Live e i j r p' q' (v.into r l);
  }
    where
      p' : i < e.len
      p' = omega (arith, v.len_eq)

      q' : j < e.len
      q' = omega (arith, v.len_eq)

module _ {K : Type 0} {lt : K → K → Bool} (order : IsOrder lt) where
  abbrev heap : Heap.Interface (Entries K)
  heap = interface lt

  pub interface-IsLawful : IsLawful (interface lt)
  unfolding swap
  interface-IsLawful = record {
    asym = λ e a b. order.asym (e.key (e.slot a)) (e.key (e.slot b));
    trans = λ e a b c. order.trans (e.key (e.slot a)) (e.key (e.slot b)) (e.key (e.slot c));
    len-swap = λ e i j. refl;
    less-swap = λ e i j a b. ground arith;
  }
