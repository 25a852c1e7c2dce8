-- ===== src/MutualExclusion/Resource.antt =====
-- resource.go: the shared resource, which checks that it is taken by one process at a time and in
-- the order of the timestamps. A panic is `none`. The timestamp <T-1:P-1> of newResource, which is
-- less than every other, is `none`; `instant` is what time.Now returns. The report is not modelled.
pub mod Order
use distributed_algorithms.Prelude.{
  ℕ, zero, suc, ◌≡◌, Bool, true, Option, none, some, List, [], ◌∷◌, ◌++◌, if◌then◌else◌, ◌==◌,
  arith,
}
use distributed_algorithms.MutualExclusion.Timestamp.{Timestamp, less, is_equal}
use distributed_algorithms.MutualExclusion.Timestamp.Order.{is_equal_iff}

pub record Resource : Type 0 where
  pub last_occupied_by : Option Timestamp
  pub occupied_by : Option Timestamp
  pub timestamps : List Timestamp
  pub times : List ℕ
  pub wg : ℕ

unfoldable pub new_resource : ℕ → Resource
new_resource times = record {
  last_occupied_by = none;
  occupied_by = none;
  timestamps = [];
  times = [];
  wg = times;
}

-- `lastOccupiedBy.Less(ts)`
unfoldable pub last_less : Option Timestamp → Timestamp → Bool
last_less none ts = true
last_less (some last) ts = less last ts

unfoldable pub occupy : Resource → Timestamp → ℕ → Option Resource
occupy r ts instant = elim r.occupied_by [
  | some other ↦ none
  | none ↦
      if last_less r.last_occupied_by ts
      then some (record r {
        occupied_by = some ts;
        timestamps = r.timestamps ++ ts ∷ [];
        times = r.times ++ instant ∷ [];
      })
      else none
]

-- Whether `wait()` returns.
unfoldable pub wait : Resource → Bool
wait r = r.wg == 0

-- `wg.Done()` panics at 0.
unfoldable pub done : ℕ → Option ℕ
done zero = none
done (suc n) = some n

-- IsEqual of the nil occupant panics, as does that of another one.
unfoldable pub release : Resource → Timestamp → ℕ → Option Resource
release r ts instant = elim r.occupied_by [
  | none ↦ none
  | some holder ↦
      if is_equal holder (some ts)
      then elim (done r.wg) [
        | none ↦ none
        | some left ↦ some (record r {
          last_occupied_by = some ts;
          occupied_by = none;
          times = r.times ++ instant ∷ [];
          wg = left;
        })
      ]
      else none
]

-- Occupy of a free resource by a timestamp past the last one.
pub occupy_free :
    (r : Resource) (ts : Timestamp) (instant : ℕ)
    → r.occupied_by ≡ none
    → last_less r.last_occupied_by ts ≡ true
    → occupy r ts instant
      ≡ some (record r {
        occupied_by = some ts;
        timestamps = r.timestamps ++ ts ∷ [];
        times = r.times ++ instant ∷ [];
      })
unfolding occupy
occupy_free r ts instant h k = ground arith

pub release_held :
    (r : Resource) (ts : Timestamp) (instant left : ℕ)
    → r.occupied_by ≡ some ts
    → r.wg ≡ suc left
    → release r ts instant
      ≡ some (record r {
        last_occupied_by = some ts;
        occupied_by = none;
        times = r.times ++ instant ∷ [];
        wg = left;
      })
unfolding release done
release_held r ts instant left h k = ground (arith, is_equal_iff ts ts)
