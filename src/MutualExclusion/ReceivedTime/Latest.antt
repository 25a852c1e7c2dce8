-- ===== src/MutualExclusion/ReceivedTime/Latest.antt =====
-- The received times as a time for each other process.
use distributed_algorithms.Prelude.{
  ℕ, zero, suc, ◌≤◌, ◌<◌, ◌≡◌, ◌≢◌, ◌↔◌, ◌⊎◌, inl, inr, refl, ◌∙◌, some, ltb, ◌==◌, update, arith,
  Bool-cases, ℕ_discrete,
}
use distributed_algorithms.MutualExclusion.Entries.{write}
use distributed_algorithms.MutualExclusion.Entries.Laws.{IsOrder, Live}
use distributed_algorithms.MutualExclusion.Entries.Operations.{
  IsQueue, heap_push, heap_fix, root_least, heap_push-IsQueue, heap_push-Live, heap_push-key,
}
use distributed_algorithms.MutualExclusion.Entries.Fixing.{
  heap_fix-IsQueue, heap_fix-Live, heap_fix-key,
}
use distributed_algorithms.MutualExclusion.ReceivedTime.{
  ReceivedTime, fill, new_received_time, fix_entry, update_time, min_time,
}

pub ltb-IsOrder : IsOrder ltb
ltb-IsOrder = record { asym = λ a b h. ground arith; trans = λ a b c h k. ground arith }

-- The abstract view: the time last received from a process.
unfoldable pub latest : ReceivedTime → ℕ → ℕ
latest rt p = rt.trq.key p

-- Process `p` is another one than `me`, of `all`.
abbrev pub IsOther : ℕ → ℕ → ℕ → Type 0
IsOther all me p = (p < all) × (p ≢ me)

-- The heap holds the records of the other processes.
pub record IsValid (all me : ℕ) (rt : ReceivedTime) : Type 0 where
  pub queue : IsQueue ltb rt.trq
  pub held : (p : ℕ) → Live rt.trq p → IsOther all me p
  pub holds : (p : ℕ) → IsOther all me p → Live rt.trq p
  pub recorded : (p : ℕ) → IsOther all me p → rt.trs p ≡ some p

module _ (me n : ℕ) (rt : ReceivedTime) (v : IsValid n me rt) where
  skip-IsValid : n ≡ me → IsValid (suc n) me rt
  skip-IsValid e = record {
    queue = v.queue;
    held = λ p l. let (lt, ne) = v.held p l in (omega arith, ne);
    holds = λ p (lt, ne). v.holds p (omega arith, ne);
    recorded = λ p (lt, ne). v.recorded p (omega arith, ne);
  }

  absent : ¬ (Live rt.trq n)
  absent l = absurd (omega (arith, (v.held n l).0))

  abbrev add : ReceivedTime
  add = record { trq = heap_push ltb rt.trq n; trs = update rt.trs n (some n) }

  added_Live : (p : ℕ) → Live (heap_push ltb rt.trq n) p ↔ ((p ≡ n) ⊎ Live rt.trq p)
  added_Live p = heap_push-Live ltb-IsOrder rt.trq n absent v.queue p

  add-IsValid : n ≢ me → IsValid (suc n) me add
  add-IsValid ne = record {
    queue = heap_push-IsQueue ltb-IsOrder rt.trq n absent v.queue;
    held = λ p l. elim ((added_Live p).0 l) [
      | inl e ↦ (omega arith, omega arith)
      | inr old ↦ let (lt, other) = v.held p old in (omega arith, other)
    ];
    holds = λ p (lt, other). elim (ℕ_discrete p n) [
      | yes e ↦ (added_Live p).1 (inl e)
      | no e ↦ (added_Live p).1 (inr (v.holds p (omega arith, other)))
    ];
    recorded = λ p (lt, other). elim (ℕ_discrete p n) [
      | yes e ↦ ground arith
      | no e ↦ ground (arith, v.recorded p (omega arith, other))
    ];
  }

  add-latest : (p : ℕ) → latest add p ≡ latest rt p
  unfolding latest
  add-latest p = heap_push-key ltb-IsOrder rt.trq n absent v.queue p

fill-IsValid : (me n : ℕ) → IsValid n me (fill me n) × ((p : ℕ) → latest (fill me n) p ≡ 0)
unfolding fill latest
fill-IsValid me zero = (
  record {
    queue = record { indexed = λ k b. elim b [ ]; heap = λ k a b. elim b [ ] };
    held = λ p (k, b, h). elim b [ ];
    holds = λ p (lt, ne). elim lt [ ];
    recorded = λ p (lt, ne). elim lt [ ];
  },
  λ p. refl,
)
fill-IsValid me (suc i) = elim (Bool-cases (i == me)) [
  | inl own ↦
      rw own (skip-IsValid me i _ (fill-IsValid me i).0 (ground arith), (fill-IsValid me i).1)
  | inr other ↦ rw other (
    add-IsValid me i _ (fill-IsValid me i).0 (ground arith),
    λ p. add-latest me i _ (fill-IsValid me i).0 p ∙ (fill-IsValid me i).1 p,
  )
]

-- A new record of received times is valid, and nothing has been received.
pub new-IsValid :
    (all me : ℕ)
    → IsValid all me (new_received_time all me)
      × ((p : ℕ) → latest (new_received_time all me) p ≡ 0)
unfolding new_received_time
new-IsValid all me = fill-IsValid me all

module _ {all me : ℕ} (rt : ReceivedTime) (v : IsValid all me rt) where
  -- What Update with the time `t` of process `id` leaves behind when it returns `rt'`.
  pub record IsUpdated (id t : ℕ) (rt' : ReceivedTime) : Type 0 where
    pub returns : update_time rt id t ≡ some rt'
    pub valid : IsValid all me rt'
    pub newest : (p : ℕ) → latest rt' p ≡ update (latest rt) id t p

  fixed : ℕ → ℕ → ℕ → ReceivedTime
  fixed id t i = record rt { trq = heap_fix ltb (write rt.trq id t) i }

  module _ (id t i : ℕ) (other : IsOther all me id) (b : i < rt.trq.len)
      (here : rt.trq.slot i ≡ id) where
    fixed_returns : update_time rt id t ≡ some (fixed id t i)
    unfolding update_time fix_entry fixed write
    fixed_returns = ground (arith, v.recorded id other, v.queue.indexed i b)

    fixed_newest : (p : ℕ) → latest (fixed id t i) p ≡ update (latest rt) id t p
    unfolding fixed latest
    fixed_newest p = heap_fix-key ltb-IsOrder rt.trq id t i b here v.queue p

    fixed-IsUpdated : IsUpdated id t (fixed id t i)
    unfolding fixed
    fixed-IsUpdated = record {
      returns = fixed_returns;
      valid = record {
        queue = heap_fix-IsQueue ltb-IsOrder rt.trq id t i b here v.queue;
        held = λ p l. v.held p ((heap_fix-Live ltb-IsOrder rt.trq id t i b here v.queue p).0 l);
        holds = λ p o. (heap_fix-Live ltb-IsOrder rt.trq id t i b here v.queue p).1 (v.holds p o);
        recorded = v.recorded;
      };
      newest = fixed_newest;
    }

  -- Update of valid received times for another process returns, keeps them valid, and sets the time
  -- of that process alone.
  pub update_other_process :
      (id t : ℕ) → IsOther all me id → (rt' : ReceivedTime) × IsUpdated id t rt'
  update_other_process id t other =
      let (i, b, here) = v.holds id other in (fixed id t i, fixed-IsUpdated id t i other b here)

  -- Where there is another process, Min of valid received times is the least of the times last
  -- received from the other processes.
  pub min_time_lem :
      (q : ℕ)
      → IsOther all me q
      → (m : ℕ) × (min_time rt ≡ some m)
        × ((p : ℕ) → IsOther all me p → m ≤ latest rt p)
        × ((p : ℕ) × IsOther all me p × (latest rt p ≡ m))
  unfolding min_time latest
  min_time_lem q other =
      let (i, b, here) = v.holds q other in
      let root = rt.trq.slot 0 in
      (
        rt.trq.key root,
        ground arith,
        λ p o. ground (arith, root_least ltb-IsOrder rt.trq v.queue p (v.holds p o)),
        (root, v.held root (0, omega arith, refl), refl),
      )
