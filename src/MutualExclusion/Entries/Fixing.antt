-- ===== src/MutualExclusion/Entries/Fixing.antt =====
-- heap.Fix on a queue of entries, after a write.
use distributed_algorithms.Prelude.{ℕ, ◌<◌, ◌≡◌, ◌≢◌, Bool, arith, ◌↔◌, sym, ◌∙◌, update}
use distributed_algorithms.MutualExclusion.Heap
use distributed_algorithms.MutualExclusion.Heap.{parent}
use distributed_algorithms.MutualExclusion.Heap.Order.{IsLoose}
use distributed_algorithms.MutualExclusion.Heap.Down.{settle-IsHeap, rewritten-IsLoose}
use distributed_algorithms.MutualExclusion.Heap.Keeps.{settle-keeps}
use distributed_algorithms.MutualExclusion.Entries.{Entries, write, interface}
use distributed_algorithms.MutualExclusion.Entries.Laws.{
  IsOrder, Live, IsIndexed, IsReordered, IsReordered-refl, at_injective, swap-IsReordered,
}
use distributed_algorithms.MutualExclusion.Entries.Operations.{IsQueue, law, resized, heap_fix}

module _ {K : Type 0} {lt : K → K → Bool} (order : IsOrder lt) where
  -- A new key for the entry at `i`, and heap.Fix.
  module _ (e : Entries K) (p : ℕ) (x : K) (i : ℕ) (b : i < e.len) (here : e.slot i ≡ p)
      (q : IsQueue lt e) where
    write-IsIndexed : IsIndexed (write e p x)
    unfolding write
    write-IsIndexed = q.indexed

    fix-IsReordered : IsReordered (write e p x) (heap_fix lt (write e p x) i)
    unfolding heap_fix Heap.fix write
    fix-IsReordered =
        settle-keeps (interface lt) (IsReordered (write e p x)) e.len
          (λ s a c u v. swap-IsReordered (write e p x) s a c u v) (write e p x) i b
          (IsReordered-refl (write e p x) write-IsIndexed)

    fix-IsLoose : IsLoose (interface lt) (write e p x) i e.len
    unfolding write
    fix-IsLoose =
        rewritten-IsLoose (law order) e (write e p x) i e.len
          (λ a c u v r t. ground (arith, other a u r, other c v t)) q.heap
      where
        other : (a : ℕ) → a < e.len → a ≢ i → p ≢ e.slot a
        other a u r h = r (at_injective e q.indexed a i u b (sym h ∙ sym here))

    pub heap_fix-IsQueue : IsQueue lt (heap_fix lt (write e p x) i)
    unfolding heap_fix Heap.fix write
    heap_fix-IsQueue = record {
      indexed = fix-IsReordered.indexed;
      heap =
          resized order (heap_fix lt (write e p x) i) e.len fix-IsReordered.len_eq
            (settle-IsHeap (law order) (write e p x) i e.len b fix-IsLoose);
    }

    pub heap_fix-Live : (y : ℕ) → Live (heap_fix lt (write e p x) i) y ↔ Live e y
    unfolding write
    heap_fix-Live y = (fix-IsReordered.out y, fix-IsReordered.into y)

    pub heap_fix-key : (y : ℕ) → (heap_fix lt (write e p x) i).key y ≡ update e.key p x y
    unfolding write
    heap_fix-key y = fix-IsReordered.key_eq y
