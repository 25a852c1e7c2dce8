-- ===== src/MutualExclusion/Heap/Down.antt =====
-- `down` carries an element to its place below; `settle` and `remove` bring back the order.
use distributed_algorithms.Prelude.{
  ℕ, zero, suc, ◌+◌, ◌-◌, ◌*◌, ◌≤◌, ◌<◌, ◌≡◌, ◌≢◌, refl, ◌∙◌, subst, true, false, arith, ℕ_discrete,
  inl, inr, ◌⊎◌, Bool-cases, ◌==◌, not, ◌||◌, ltb, leb,
}
use distributed_algorithms.MutualExclusion.Heap.{
  Interface, parent, child, down_loop, down, settle, remove,
}
use distributed_algorithms.MutualExclusion.Heap.Order.{IsLawful, IsHeap, IsRising, IsLoose}
use distributed_algorithms.MutualExclusion.Heap.Up.{up-IsHeap}

module _ {S : Type 0} {h : Interface S} (law : IsLawful h) where
  open h use {len, less, swap}
  open law use {asym, trans, less-swap}

  -- The chosen child is a child, and no sibling is less.
  record IsLeast (s : S) (i n j : ℕ) : Type 0 where
    bound : j < n
    above : i < j
    child_of : parent j ≡ i
    least : (c : ℕ) → 0 < c → c < n → parent c ≡ i → less s c j ≡ false

  child-parent :
      (s : S) (i n : ℕ)
      → 2 * i + 1 < n
      → (child h s i n < n) × (i < child h s i n) × (parent (child h s i n) ≡ i)
  unfolding child
  child-parent s i n lt = (ground arith, ground arith, ground arith)

  child_cases : (c i : ℕ) → 0 < c → parent c ≡ i → (c ≡ 2 * i + 1) ⊎ (c ≡ 2 * i + 2)
  child_cases c i p e = omega arith

  less_irrefl : (s : S) (a : ℕ) → less s a a ≡ false
  less_irrefl s a = ground (arith, asym s a a)

  child_least :
      (s : S) (i n c : ℕ) → 0 < c → c < n → parent c ≡ i → less s c (child h s i n) ≡ false
  unfolding child
  child_least s i n c p q e = elim (child_cases c i p e) [
    | inl e1 ↦ rw e1 (ground (arith, less_irrefl s (2 * i + 1), asym s (2 * i + 2) (2 * i + 1)))
    | inr e2 ↦ rw e2 (ground (arith, less_irrefl s (2 * i + 2)))
  ]

  child-IsLeast : (s : S) (i n : ℕ) → 2 * i + 1 < n → IsLeast s i n (child h s i n)
  child-IsLeast s i n lt = record {
    bound = (child-parent s i n lt).0;
    above = (child-parent s i n lt).1;
    child_of = (child-parent s i n lt).2;
    least = child_least s i n;
  }

  module _ (s : S) (i n j : ℕ) (v : IsLoose h s i n) (m : IsLeast s i n j)
      (below : less s j i ≡ true) where
    open m use {bound, above, child_of, least}

    sink_settled :
        (k : ℕ) → 0 < k → k < n → k ≢ j → parent k ≢ j → less (swap s i j) k (parent k) ≡ false
    sink_settled k p q r t =
        ground (arith, less-swap s i j k (parent k), v.bridged j, v.settled k, least k)

    sink_bridged :
        (c : ℕ) → 0 < c → c < n → 0 < j → parent c ≡ j → less (swap s i j) c (parent j) ≡ false
    sink_bridged c p q r e = ground (arith, less-swap s i j c (parent j), v.settled c)

    sink : IsLoose h (swap s i j) j n
    sink = record { settled = sink_settled; bridged = sink_bridged }

    sink_parent : less (swap s i j) j (parent j) ≡ false
    sink_parent = ground (arith, less-swap s i j j (parent j), asym s j i)

  leaf_or_least :
      (s : S) (i n : ℕ)
      → leb n (2 * i + 1) || not (less s (child h s i n) i) ≡ true
      → (c : ℕ) → 0 < c
      → c < n
      → parent c ≡ i
      → less s c i ≡ false
  leaf_or_least s i n stop c p q e = elim (Bool-cases (leb n (2 * i + 1))) [
    | inl leaf ↦ absurd (ground arith)
    | inr inner ↦ ground (arith, child_least s i n c p q e, trans s i (child h s i n) c)
  ]

  at_rest :
      (s : S) (i n : ℕ)
      → IsLoose h s i n
      → leb n (2 * i + 1) || not (less s (child h s i n) i) ≡ true
      → IsRising h s i n
  at_rest s i n v stop = record {
    settled = λ k p q r. elim (ℕ_discrete (parent k) i) [
      | yes e ↦ ground (arith, leaf_or_least s i n stop k p q e)
      | no e ↦ v.settled k p q r e
    ];
    bridged = v.bridged;
  }

  abbrev FitsParent : S → ℕ → Type 0
  FitsParent s i = 0 < i → less s i (parent i) ≡ false

  -- Where `down` leaves the element: at most its parent is still too large, and not even that
  -- where the element fitted its parent at the start.
  record Lands (s : S) (i n : ℕ) (r : S × ℕ) : Type 0 where
    rising : IsRising h r.0 r.1 n
    fitting : FitsParent s i → FitsParent r.0 r.1
    lower : i ≤ r.1
    moved : r.1 ≢ i → FitsParent r.0 r.1

  sink_Lands :
      (s : S) (i n : ℕ) (t : S) (j : ℕ) (r : S × ℕ)
      → i < j
      → FitsParent t j
      → Lands t j n r
      → Lands s i n r
  sink_Lands s i n t j r lt fits l = record {
    rising = l.rising;
    fitting = λ _. l.fitting fits;
    lower = omega (arith, l.lower);
    moved = λ _. l.fitting fits;
  }

  down_loop-Lands :
      (k : ℕ) (s : S) (i n : ℕ) → n ≤ k + i → IsLoose h s i n → Lands s i n (down_loop h k s i n)
  unfolding down_loop
  down_loop-Lands zero s i n fuel v = record {
    rising = at_rest s i n v (ground arith);
    fitting = λ f. f;
    lower = omega arith;
    moved = λ e. absurd (e refl);
  }
  down_loop-Lands (suc k) s i n fuel v =
      elim (Bool-cases (leb n (2 * i + 1) || not (less s (child h s i n) i))) [
        | inl stop ↦ rw stop (record {
          rising = at_rest s i n v stop;
          fitting = λ f. f;
          lower = omega arith;
          moved = λ e. absurd (e refl);
        })
        | inr more ↦
            let j = child h s i n in
            let m = child-IsLeast s i n (ground arith) in
            let t = swap s i j in
            rw more (
              sink_Lands s i n t j _ m.above (λ _. sink_parent s i n j v m (ground arith))
                (down_loop-Lands k t j n (omega (arith, m.above))
                  (sink s i n j v m (ground arith))))
      ]

  rising_fits : (s : S) (i n : ℕ) → IsRising h s i n → FitsParent s i → IsHeap h s n
  rising_fits s i n v f k p q = elim (ℕ_discrete k i) [
    | yes e ↦ rw e (f (omega arith))
    | no e ↦ v.settled k p q e
  ]

  -- Down, and up where down did not move: the order is back whatever stood at `i`.
  pub settle-IsHeap : (s : S) (i n : ℕ) → i < n → IsLoose h s i n → IsHeap h (settle h s i n) n
  unfolding settle down
  settle-IsHeap s i n lt v =
      let l = down_loop-Lands n s i n (omega arith) v in
      let r = down_loop h n s i n in
      elim (Bool-cases (ltb i r.1)) [
        | inl down ↦ rw down (rising_fits r.0 r.1 n l.rising (l.moved (ground arith)))
        | inr still ↦
            let e : r.1 ≡ i = ground (arith, l.lower) in
            rw still (up-IsHeap law r.0 i n lt (subst (λ j. IsRising h r.0 j n) e l.rising))
      ]

  IsHeap-IsLoose : (s : S) (i n : ℕ) → IsHeap h s n → IsLoose h s i n
  IsHeap-IsLoose s i n o = record {
    settled = λ k p q r t. o k p q;
    bridged = λ c p q r e. ground (arith, o c p q, o i r, trans s (parent i) i c);
  }

  -- A write at `i` that changes no other element leaves the order loose at `i` only.
  pub rewritten-IsLoose :
      (s t : S) (i n : ℕ)
      → ((a b : ℕ) → a < n → b < n → a ≢ i → b ≢ i → less t a b ≡ less s a b)
      → IsHeap h s n
      → IsLoose h t i n
  rewritten-IsLoose s t i n same o =
      let v = IsHeap-IsLoose s i n o in
      record {
        settled = λ k p q r e. same k (parent k) q (omega arith) r e ∙ v.settled k p q r e;
        bridged = λ c p q r e.
            same c (parent i) q (omega arith) (omega arith) (omega arith) ∙ v.bridged c p q r e;
      }

  pub remove-IsHeap :
      (s : S) (i : ℕ) → i < len s → IsHeap h s (len s) → IsHeap h (remove h s i) (len s - 1)
  unfolding remove
  remove-IsHeap s i lt o = elim (Bool-cases ((len s - 1) == i)) [
    | inl last ↦ rw last (λ k p q. o k p (omega arith))
    | inr inner ↦
        rw inner (
          settle-IsHeap (swap s i (len s - 1)) i (len s - 1) (ground arith)
            (swapped (ground arith)))
  ]
    where
      swapped : i < len s - 1 → IsLoose h (swap s i (len s - 1)) i (len s - 1)
      swapped below =
          let n = len s - 1 in
          let v = IsHeap-IsLoose s i (len s) o in
          record {
            settled = λ k p q r e.
                ground (arith, less-swap s i n k (parent k), v.settled k p (omega arith) r e);
            bridged = λ c p q r e.
                ground (arith, less-swap s i n c (parent i), v.bridged c p (omega arith) r e);
          }
