-- ===== src/MutualExclusion/RequestQueue.antt =====
-- requestQueue.go: the queue of requests, a heap of pointers with a map from each request to its
-- entry. `none` is a panic. Entries are allocated at `next`, and the zero value of an index is 0.
pub mod Contents
pub mod Removal
pub mod Refinement
use distributed_algorithms.Prelude.{
  ℕ, ◌+◌, Bool, true, false, Option, none, some, ltb, ◌==◌, if◌then◌else◌, update,
}
use distributed_algorithms.MutualExclusion.Entries.{Entries, write}
use distributed_algorithms.MutualExclusion.Entries.Operations.{heap_push, heap_remove}

-- The interface Less of a request, and the equality of requests as keys of a map.
pub record Less (K : Type 0) : Type 0 where
  pub less : K → K → Bool
  pub same : K → K → Bool

pub record RequestQueue (K : Type 0) : Type 0 where
  pub rpq : Entries K
  pub request_of : K → Option ℕ
  pub next : ℕ

module _ {K : Type 0} (l : Less K) where
  unfoldable pub assign : (K → Option ℕ) → K → Option ℕ → K → Option ℕ
  assign m k v j = if l.same k j then v else m j

  -- The field of an empty heap's entries is never read: `blank` stands for nil.
  unfoldable pub new_request_queue : K → RequestQueue K
  new_request_queue blank = record {
    rpq = record { len = 0; slot = λ _. 0; key = λ _. blank; index = λ _. none };
    request_of = λ _. none;
    next = 0;
  }

  unfoldable pub min : RequestQueue K → Option K
  min q = if q.rpq.len == 0 then none else some (q.rpq.key (q.rpq.slot 0))

  -- A new entry for `ls`, its index still 0.
  unfoldable pub allocate : RequestQueue K → K → Entries K
  unfolding write
  allocate q ls = record (write q.rpq q.next ls) { index = update q.rpq.index q.next (some 0) }

  unfoldable pub push : RequestQueue K → K → RequestQueue K
  push q ls = record {
    rpq = heap_push l.less (allocate q ls) q.next;
    request_of = assign q.request_of ls (some q.next);
    next = q.next + 1;
  }

  -- The method remove of the heap: an index -1, or one past the end, panics.
  unfoldable pub remove_entry : Entries K → ℕ → Option (Entries K)
  remove_entry e p = elim (e.index p) [
    | none ↦ none
    | some i ↦ if ltb i e.len then some (heap_remove l.less e i) else none
  ]

  -- Remove: a request that the map does not know is a nil entry, and reading its index panics.
  unfoldable pub remove : RequestQueue K → K → Option (RequestQueue K)
  remove q ls = elim (q.request_of ls) [
    | none ↦ none
    | some p ↦ elim (remove_entry q.rpq p) [
      | none ↦ none
      | some e ↦ some (record q { rpq = e; request_of = assign q.request_of ls none })
    ]
  ]
