-- ===== src/MutualExclusion/Entries.antt =====
-- The shape that timeRecordQueue (receivedTime.go) and requestPriorityQueue (requestQueue.go) share:
-- a slice of pointers to entries, each of which knows its place in the slice. A pointer is a
-- number, a slice is its length and its elements by place, and the fields of the entries are read
-- and written through the pointers. The index -1 is `none`.
pub mod Laws
pub mod Operations
pub mod Removal
pub mod Fixing
use distributed_algorithms.Prelude.{ℕ, ◌+◌, ◌-◌, Bool, Option, none, some, update}
use distributed_algorithms.MutualExclusion.Heap.{Interface}

pub record Entries (K : Type 0) : Type 0 where
  pub len : ℕ
  pub slot : ℕ → ℕ
  pub key : ℕ → K
  pub index : ℕ → Option ℕ

module _ {K : Type 0} where
  -- `q[i], q[j] = q[j], q[i]`, and the new places are written into the two entries.
  unfoldable pub swap : Entries K → ℕ → ℕ → Entries K
  swap e i j =
      let slot = update (update e.slot i (e.slot j)) j (e.slot i) in
      record e { slot = slot; index = update (update e.index (slot i) (some i)) (slot j) (some j) }

  -- The method Push: the entry goes to the end of the slice.
  unfoldable pub push : Entries K → ℕ → Entries K
  push e p = record e {
    len = e.len + 1;
    slot = update e.slot e.len p;
    index = update e.index p (some e.len);
  }

  -- The method Pop: the last entry leaves the slice.
  unfoldable pub pop : Entries K → Entries K
  pop e = record e { len = e.len - 1; index = update e.index (e.slot (e.len - 1)) none }

  unfoldable pub write : Entries K → ℕ → K → Entries K
  write e p x = record e { key = update e.key p x }

-- heap.Interface, by an order of the keys.
abbrev pub interface : {K : Type 0} → (K → K → Bool) → Interface (Entries K)
interface lt = record {
  len = λ e. e.len;
  less = λ e i j. lt (e.key (e.slot i)) (e.key (e.slot j));
  swap = swap;
}
