-- ===== src/MutualExclusion/Heap/Order.antt =====
-- What container/heap asks of Less and Swap, and the order of a heap.
use distributed_algorithms.Prelude.{ℕ, ◌<◌, ◌≡◌, ◌≢◌, true, false, ◌==◌, if◌then◌else◌}
use distributed_algorithms.MutualExclusion.Heap.{Interface, parent}

abbrev pub transpose : ℕ → ℕ → ℕ → ℕ
transpose i j a = if i == a then j else if j == a then i else a

-- Less is a strict weak order on the elements, and Swap exchanges two of them.
pub record IsLawful {S : Type 0} (h : Interface S) : Type 0 where
  pub asym : (s : S) (a b : ℕ) → h.less s a b ≡ true → h.less s b a ≡ false
  pub trans :
      (s : S) (a b c : ℕ) → h.less s b a ≡ false → h.less s c b ≡ false → h.less s c a ≡ false
  pub len-swap : (s : S) (i j : ℕ) → h.len (h.swap s i j) ≡ h.len s
  pub less-swap :
      (s : S) (i j a b : ℕ)
      → h.less (h.swap s i j) a b ≡ h.less s (transpose i j a) (transpose i j b)

module _ {S : Type 0} (h : Interface S) where
  -- The first `n` elements are in heap order: none is less than its parent.
  abbrev pub IsHeap : S → ℕ → Type 0
  IsHeap s n = (k : ℕ) → 0 < k → k < n → h.less s k (parent k) ≡ false

  -- In heap order but for `j`, which may be less than its parent.
  pub record IsRising (s : S) (j n : ℕ) : Type 0 where
    pub settled : (k : ℕ) → 0 < k → k < n → k ≢ j → h.less s k (parent k) ≡ false
    pub bridged : (c : ℕ) → 0 < c → c < n → 0 < j → parent c ≡ j → h.less s c (parent j) ≡ false

  -- In heap order but for `i`, which may be anything.
  pub record IsLoose (s : S) (i n : ℕ) : Type 0 where
    pub settled : (k : ℕ) → 0 < k → k < n → k ≢ i → parent k ≢ i → h.less s k (parent k) ≡ false
    pub bridged : (c : ℕ) → 0 < c → c < n → 0 < i → parent c ≡ i → h.less s c (parent i) ≡ false
