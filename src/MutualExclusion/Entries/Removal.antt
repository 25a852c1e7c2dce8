-- ===== src/MutualExclusion/Entries/Removal.antt =====
-- heap.Remove on a queue of entries.
use distributed_algorithms.Prelude.{
  ℕ, ◌-◌, ◌<◌, ◌≡◌, ◌≢◌, Bool, arith, inl, inr, ◌↔◌, Bool-cases, ◌==◌,
}
use distributed_algorithms.MutualExclusion.Heap
use distributed_algorithms.MutualExclusion.Heap.{parent}
use distributed_algorithms.MutualExclusion.Heap.Down.{remove-IsHeap}
use distributed_algorithms.MutualExclusion.Heap.Keeps.{settle-keeps}
use distributed_algorithms.MutualExclusion.Entries.{Entries, swap, pop, interface}
use distributed_algorithms.MutualExclusion.Entries.Laws.{
  IsOrder, Live, IsIndexed, IsReordered, IsReordered-refl, swap-IsReordered,
}
use distributed_algorithms.MutualExclusion.Entries.Operations.{IsQueue, law, heap_remove}

module _ {K : Type 0} {lt : K → K → Bool} (order : IsOrder lt) where
  -- What heap.Remove keeps until Pop: the entry waits behind the others.
  record IsParted (d : Entries K) (p : ℕ) (e : Entries K) : Type 0 where
    same : IsReordered d e
    behind : e.slot (d.len - 1) ≡ p

  swap-IsParted :
      (d : Entries K) (p : ℕ) (e : Entries K) (i j : ℕ)
      → i < d.len - 1
      → j < d.len - 1
      → IsParted d p e
      → IsParted d p (swap e i j)
  unfolding swap
  swap-IsParted d p e i j a b v = record {
    same = swap-IsReordered d e i j (omega arith) (omega arith) v.same;
    behind = ground (arith, v.behind);
  }

  swap_behind : (e : Entries K) (i j : ℕ) → (swap e i j).slot j ≡ e.slot i
  unfolding swap
  swap_behind e i j = ground arith

  parted :
      (e : Entries K) (i : ℕ)
      → i < e.len
      → IsIndexed e
      → IsParted e (e.slot i) (Heap.remove (interface lt) e i)
  unfolding Heap.remove
  parted e i b v = elim (Bool-cases ((e.len - 1) == i)) [
    | inl last ↦ rw last (record { same = IsReordered-refl e v; behind = ground arith })
    | inr inner ↦ rw inner (
        settle-keeps (interface lt) (IsParted e (e.slot i)) (e.len - 1)
          (λ s a c p q. swap-IsParted e (e.slot i) s a c p q) (swap e i (e.len - 1)) i
          (ground arith)
          (record {
            same = swap-IsReordered e e i (e.len - 1) b (omega arith) (IsReordered-refl e v);
            behind = swap_behind e i (e.len - 1);
          }))
  ]

  module _ (d : Entries K) (p : ℕ) (e : Entries K) (v : IsParted d p e)
      (some_entry : 0 < d.len) where
    open v.same use {len_eq, key_eq, indexed, out, into}

    pop-IsIndexed : IsIndexed (pop e)
    unfolding pop
    pop-IsIndexed k b = ground (arith, indexed k, indexed (e.len - 1))

    pop-Live : (x : ℕ) → Live d x → x ≢ p → Live (pop e) x
    unfolding pop
    pop-Live x l ne = let (k, b, h) = into x l in (k, ground (arith, len_eq, v.behind), h)

    pop-Live_inv : (x : ℕ) → Live (pop e) x → Live d x × (x ≢ p)
    unfolding pop
    pop-Live_inv x (k, b, h) = (
      out x (k, omega arith, h),
      ground (arith, len_eq, v.behind, indexed k, indexed (e.len - 1)),
    )

  module _ (e : Entries K) (i : ℕ) (b : i < e.len) (q : IsQueue lt e) where
    some_entry_at : 0 < e.len
    some_entry_at = omega arith

    removed_len : (Heap.remove (interface lt) e i).len ≡ e.len
    removed_len = (parted e i b q.indexed).same.len_eq

    -- heap.Remove keeps the places and the order, and takes the entry at `i` out of the queue.
    pub heap_remove-IsQueue : IsQueue lt (heap_remove lt e i)
    unfolding heap_remove pop
    heap_remove-IsQueue = record {
      indexed = pop-IsIndexed e (e.slot i) _ (parted e i b q.indexed) some_entry_at;
      heap = rw removed_len (remove-IsHeap (law order) e i b q.heap);
    }

    pub heap_remove-Live : (x : ℕ) → Live (heap_remove lt e i) x ↔ (Live e x × (x ≢ e.slot i))
    unfolding heap_remove
    heap_remove-Live x = (
      pop-Live_inv e (e.slot i) _ (parted e i b q.indexed) some_entry_at x,
      λ (l, ne). pop-Live e (e.slot i) _ (parted e i b q.indexed) some_entry_at x l ne,
    )

    pub heap_remove-key : (x : ℕ) → (heap_remove lt e i).key x ≡ e.key x
    unfolding heap_remove pop
    heap_remove-key x = (parted e i b q.indexed).same.key_eq x
