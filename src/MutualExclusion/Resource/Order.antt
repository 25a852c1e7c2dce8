-- ===== src/MutualExclusion/Resource/Order.antt =====
-- The resource checks the order in which it is taken.
use distributed_algorithms.Prelude.{ℕ, ◌≡◌, true, none, some, arith}
use distributed_algorithms.MutualExclusion.Timestamp.{Timestamp, less, is_equal}
use distributed_algorithms.MutualExclusion.Resource.{Resource, last_less, occupy, release}

occupied_by_lem :
    (r taken : Resource) (ts : Timestamp) (i : ℕ)
    → occupy r ts i ≡ some taken
    → taken.occupied_by ≡ some ts
unfolding occupy
occupied_by_lem r taken ts i h = ground arith

released_by_lem :
    (taken freed : Resource) (ts : Timestamp) (j : ℕ)
    → release taken ts j ≡ some freed
    → freed.last_occupied_by ≡ some ts
unfolding release
released_by_lem taken freed ts j h = ground arith

past_last :
    (freed again : Resource) (ts us : Timestamp) (k : ℕ)
    → freed.last_occupied_by ≡ some ts
    → occupy freed us k ≡ some again
    → less ts us ≡ true
unfolding occupy last_less
past_last freed again ts us k e h = ground arith

occupy_occupied :
    (r : Resource) (ts us : Timestamp) (k : ℕ) → r.occupied_by ≡ some ts → occupy r us k ≡ none
unfolding occupy
occupy_occupied r ts us k h = ground arith

release_other :
    (r : Resource) (ts us : Timestamp) (j : ℕ)
    → r.occupied_by ≡ some ts
    → less ts us ≡ true
    → release r us j ≡ none
unfolding release less is_equal
release_other r ts us j h e = ground arith

-- Where an occupation with `ts` is followed by its release and by an occupation with `us`, and none
-- of the three calls panics, `ts` precedes `us`; and between the occupation with `ts` and its
-- release, Occupy and Release with `us` would panic.
pub occupied_in_order :
    (r taken freed again : Resource) (ts us : Timestamp) (i j k : ℕ)
    → occupy r ts i ≡ some taken
    → release taken ts j ≡ some freed
    → occupy freed us k ≡ some again
    → (less ts us ≡ true) × (occupy taken us k ≡ none) × (release taken us j ≡ none)
occupied_in_order r taken freed again ts us i j k h g f =
    let held = occupied_by_lem r taken ts i h in
    let later = past_last freed again ts us k (released_by_lem taken freed ts j g) f in
    (later, occupy_occupied taken ts us k held, release_other taken ts us j held later)
