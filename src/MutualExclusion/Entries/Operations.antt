-- ===== src/MutualExclusion/Entries/Operations.antt =====
-- heap.Push, heap.Remove and heap.Fix on a queue of entries; the least entry, and what Push does.
use distributed_algorithms.Prelude.{
  ℕ, zero, suc, ◌+◌, ◌-◌, ◌<◌, ◌≡◌, ◌≢◌, Bool, false, arith, inl, inr, ◌⊎◌, ◌↔◌, subst, sym,
  Bool-cases, ◌==◌,
}
use distributed_algorithms.MutualExclusion.Heap
use distributed_algorithms.MutualExclusion.Heap.{parent}
use distributed_algorithms.MutualExclusion.Heap.Order.{IsLawful, IsHeap, IsRising}
use distributed_algorithms.MutualExclusion.Heap.Up.{up-IsHeap}
use distributed_algorithms.MutualExclusion.Heap.Keeps.{up-keeps}
use distributed_algorithms.MutualExclusion.Entries.{Entries, push, pop, interface}
use distributed_algorithms.MutualExclusion.Entries.Laws.{
  IsOrder, Live, IsIndexed, IsReordered, IsReordered-refl, swap-IsReordered, interface-IsLawful,
}

module _ {K : Type 0} (lt : K → K → Bool) where
  unfoldable pub heap_push : Entries K → ℕ → Entries K
  heap_push e p = Heap.up (interface lt) (push e p) ((push e p).len - 1)

  unfoldable pub heap_remove : Entries K → ℕ → Entries K
  heap_remove e i = pop (Heap.remove (interface lt) e i)

  unfoldable pub heap_fix : Entries K → ℕ → Entries K
  heap_fix e i = Heap.fix (interface lt) e i

  pub record IsQueue (e : Entries K) : Type 0 where
    pub indexed : IsIndexed e
    pub heap : IsHeap (interface lt) e e.len

module _ {K : Type 0} {lt : K → K → Bool} (order : IsOrder lt) where
  pub law : IsLawful (interface lt)
  law = interface-IsLawful order

  least_at :
      (e : Entries K)
      → IsHeap (interface lt) e e.len
      → (f k : ℕ) → k < f
      → k < e.len
      → lt (e.key (e.slot k)) (e.key (e.slot 0)) ≡ false
  least_at e h zero k fuel p = absurd (omega arith)
  least_at e h (suc f) k fuel p = elim (Bool-cases (k == 0)) [
    | inl root ↦ ground (arith, order.asym (e.key (e.slot k)) (e.key (e.slot k)))
    | inr inner ↦
        order.trans (e.key (e.slot 0)) (e.key (e.slot (parent k))) (e.key (e.slot k))
          (least_at e h f (parent k) (ground arith) (ground arith)) (h k (ground arith) p)
  ]

  -- The entry at place 0 is least.
  pub root_least :
      (e : Entries K) → IsQueue lt e → (p : ℕ) → Live e p → lt (e.key p) (e.key (e.slot 0)) ≡ false
  root_least e q p (k, b, h) = rw (← h) (least_at e q.heap (suc k) k (omega arith) b)

  push-IsIndexed : (e : Entries K) (p : ℕ) → ¬ (Live e p) → IsIndexed e → IsIndexed (push e p)
  unfolding push
  push-IsIndexed e p new v k b = elim (Bool-cases (e.len == k)) [
    | inl last ↦ ground arith
    | inr old ↦
        let other : p ≢ e.slot k = λ h. new (k, ground arith, sym h) in ground (arith, v k, other)
  ]

  push-Live : (e : Entries K) (p q : ℕ) → (q ≡ p) ⊎ Live e q → Live (push e p) q
  unfolding push
  push-Live e p q (inl h) = (e.len, omega arith, ground arith)
  push-Live e p q (inr (k, b, h)) = (k, omega arith, ground arith)

  push-Live_inv : (e : Entries K) (p q : ℕ) → Live (push e p) q → (q ≡ p) ⊎ Live e q
  unfolding push
  push-Live_inv e p q (k, b, h) = elim (Bool-cases (e.len == k)) [
    | inl last ↦ inl (ground arith)
    | inr old ↦ inr (k, ground arith, ground arith)
  ]

  push-IsRising :
      (e : Entries K) (p : ℕ)
      → IsHeap (interface lt) e e.len
      → IsRising (interface lt) (push e p) e.len (e.len + 1)
  unfolding push
  push-IsRising e p h = record {
    settled = λ k a b c. ground (arith, h k a);
    bridged = λ c a b d f. absurd (omega arith);
  }

  push_heaped :
      (e : Entries K) (p : ℕ)
      → ¬ (Live e p)
      → IsQueue lt e
      → IsReordered (push e p) (heap_push lt e p)
  unfolding heap_push push
  push_heaped e p new q =
      up-keeps (interface lt) (IsReordered (push e p)) (e.len + 1)
        (λ s i j a b. swap-IsReordered (push e p) s i j a b) (push e p) (e.len + 1 - 1)
        (omega arith) (IsReordered-refl (push e p) (push-IsIndexed e p new q.indexed))

  pub resized :
      (e : Entries K) (n : ℕ)
      → e.len ≡ n
      → IsHeap (interface lt) e n
      → IsHeap (interface lt) e e.len
  resized e n h o = subst (IsHeap (interface lt) e) (sym h) o

  push_ordered :
      (e : Entries K) (p : ℕ)
      → IsHeap (interface lt) e e.len
      → IsHeap (interface lt) (heap_push lt e p) (e.len + 1)
  unfolding heap_push push
  push_ordered e p h =
      rw (add-sub_one e.len)
        (up-IsHeap law (push e p) e.len (e.len + 1) (omega arith) (push-IsRising e p h))
    where
      add-sub_one : (n : ℕ) → n + 1 - 1 ≡ n
      add-sub_one n = omega arith

  -- heap.Push keeps the places and the order, and adds the entry to those of the queue.
  pub heap_push-IsQueue :
      (e : Entries K) (p : ℕ) → ¬ (Live e p) → IsQueue lt e → IsQueue lt (heap_push lt e p)
  unfolding push
  heap_push-IsQueue e p new q =
      let r = push_heaped e p new q in
      record {
        indexed = r.indexed;
        heap = resized (heap_push lt e p) (e.len + 1) r.len_eq (push_ordered e p q.heap);
      }

  pub heap_push-Live :
      (e : Entries K) (p : ℕ)
      → ¬ (Live e p)
      → IsQueue lt e
      → (x : ℕ) → Live (heap_push lt e p) x ↔ ((x ≡ p) ⊎ Live e x)
  heap_push-Live e p new q x =
      let r = push_heaped e p new q in
      (λ l. push-Live_inv e p x (r.out x l), λ l. r.into x (push-Live e p x l))

  pub heap_push-key :
      (e : Entries K) (p : ℕ)
      → ¬ (Live e p)
      → IsQueue lt e
      → (x : ℕ) → (heap_push lt e p).key x ≡ e.key x
  unfolding push
  heap_push-key e p new q x = (push_heaped e p new q).key_eq x
