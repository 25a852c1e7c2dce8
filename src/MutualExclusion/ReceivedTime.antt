-- ===== src/MutualExclusion/ReceivedTime.antt =====
-- receivedTime.go: the time of the last message from each other process, in a heap. The record of
-- process `i` is the pointer `i`; a panic is `none`; the zero value of an index is 0.
pub mod Latest
use distributed_algorithms.Prelude.{
  ℕ, zero, suc, Option, none, some, ltb, ◌==◌, if◌then◌else◌, update,
}
use distributed_algorithms.MutualExclusion.Entries.{Entries, write}
use distributed_algorithms.MutualExclusion.Entries.Operations.{heap_push, heap_fix}

pub record ReceivedTime : Type 0 where
  pub trq : Entries ℕ
  pub trs : ℕ → Option ℕ

-- The loop of newReceivedTime, up to process `n`.
unfoldable pub fill : ℕ → ℕ → ReceivedTime
fill me zero = record {
  trq = record { len = 0; slot = λ _. 0; key = λ _. 0; index = λ _. some 0 };
  trs = λ _. none;
}
fill me (suc i) =
    let rt = fill me i in
    if i == me then rt else record { trq = heap_push ltb rt.trq i; trs = update rt.trs i (some i) }

unfoldable pub new_received_time : ℕ → ℕ → ReceivedTime
unfolding fill
new_received_time all me = fill me all

-- heap.Fix at the index -1 finds nothing to do.
unfoldable pub fix_entry : Entries ℕ → ℕ → Entries ℕ
fix_entry e p = elim (e.index p) [ none ↦ e | some i ↦ heap_fix ltb e i ]

-- Update; a process with no record, such as the own one, makes it panic.
unfoldable pub update_time : ReceivedTime → ℕ → ℕ → Option ReceivedTime
update_time rt id t = elim (rt.trs id) [
  | none ↦ none
  | some p ↦ some (record rt { trq = fix_entry (write rt.trq p t) p })
]

-- Min panics where there is no other process.
unfoldable pub min_time : ReceivedTime → Option ℕ
min_time rt = if rt.trq.len == 0 then none else some (rt.trq.key (rt.trq.slot 0))
