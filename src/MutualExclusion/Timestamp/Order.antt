-- ===== src/MutualExclusion/Timestamp/Order.antt =====
-- The timestamps are totally ordered.
use distributed_algorithms.Prelude.{
  not, ◌&&◌, ◌||◌, ◌<◌, ◌≡◌, ◌≢◌, ◌⊎◌, ◌↔◌, true, false, some, arith,
}
use distributed_algorithms.MutualExclusion.Timestamp.{Timestamp, less, is_equal, is_before}
use distributed_algorithms.MutualExclusion.Entries.Laws.{IsOrder}

pub less-IsOrder : IsOrder less
unfolding less
less-IsOrder = record { asym = λ a b h. ground arith; trans = λ a b c h k. ground arith }

-- `Less` is a strict total order: of two timestamps either the first precedes the second, or they
-- are equal, or the second precedes the first, and no two of these hold; the order is transitive.
-- It refines `IsBefore`, the order of the times alone.
pub less_total :
    (a b c : Timestamp)
    → (((less a b ≡ true) × (is_equal a (some b) ≡ false) × (less b a ≡ false))
        ⊎ (((less a b ≡ false) × (is_equal a (some b) ≡ true) × (less b a ≡ false))
            ⊎ ((less a b ≡ false) × (is_equal a (some b) ≡ false) × (less b a ≡ true))))
      × (not (less a b && less b c) || less a c ≡ true)
      × (not (is_before a b.time) || less a b ≡ true)
unfolding less is_equal is_before
less_total a b c = (ground arith, ground arith, ground arith)

pub is_equal_iff : (a b : Timestamp) → (is_equal a (some b) ≡ true) ↔ (a ≡ b)
unfolding is_equal
is_equal_iff a b = ground arith

pub less_of_time : (a b : Timestamp) → a.time < b.time → less a b ≡ true
unfolding less
less_of_time a b h = ground arith

pub less_of_not : (a b : Timestamp) → a.process ≢ b.process → less b a ≡ false → less a b ≡ true
unfolding less
less_of_not a b ne h = ground arith
