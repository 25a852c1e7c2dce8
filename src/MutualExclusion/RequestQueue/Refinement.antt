-- ===== src/MutualExclusion/RequestQueue/Refinement.antt =====
-- The heap with its map against the plain list of the waiting requests.
use distributed_algorithms.Prelude.{
  ◌≡◌, ◌⊎◌, inl, inr, refl, sym, ◌∙◌, ap, Bool, true, false, Option, none, some, List, [], ◌∷◌,
  if◌then◌else◌, ◌>>=◌, arith, Bool-cases,
}
use distributed_algorithms.MutualExclusion.RequestQueue.{
  Less, RequestQueue, new_request_queue, min, push, remove,
}
use distributed_algorithms.MutualExclusion.RequestQueue.Contents.{
  IsLess, contains, IsValid, new_request_queue-IsValid, push_lem, min_lem,
}
use distributed_algorithms.MutualExclusion.RequestQueue.Removal.{remove_waiting, remove_missing}

-- A call of the interface RequestQueue.
pub data Operation (K : Type 0) : Type 0 where
  pushes : K → Operation K
  removes : K → Operation K
  asks_min : Operation K

module _ {K : Type 0} (l : Less K) where
  -- What a sequence of calls returns: the answers of Min, or a panic.
  unfoldable pub answers : RequestQueue K → List (Operation K) → Option (List (Option K))
  unfolding push remove min
  answers q [] = some []
  answers q (pushes k ∷ ops) = answers (push l q k) ops
  answers q (removes k ∷ ops) = remove l q k >>= λ q'. answers q' ops
  answers q (asks_min ∷ ops) = answers q ops >>= λ out. some (min l q ∷ out)

  -- The specification: a list of the requests that wait, the last one first.
  abbrev pub member : List K → K → Bool
  member [] k = false
  member (x ∷ xs) k = if l.same x k then true else member xs k

  abbrev pub take_out : List K → K → List K
  take_out [] k = []
  take_out (x ∷ xs) k = let rest = take_out xs k in if l.same k x then rest else x ∷ rest

  abbrev pub smaller : K → Option K → K
  smaller x none = x
  smaller x (some m) = if l.less x m then x else m

  abbrev pub least : List K → Option K
  least [] = none
  least (x ∷ xs) = some (smaller x (least xs))

  unfoldable pub list_answers : List K → List (Operation K) → Option (List (Option K))
  list_answers xs [] = some []
  list_answers xs (pushes k ∷ ops) = list_answers (k ∷ xs) ops
  list_answers xs (removes k ∷ ops) =
      let rest = list_answers (take_out xs k) ops in if member xs k then rest else none
  list_answers xs (asks_min ∷ ops) = list_answers xs ops >>= λ out. some (least xs ∷ out)

  -- No request is pushed while it waits.
  abbrev pub AreNew : List K → List (Operation K) → Type 0
  AreNew xs [] = Unit
  AreNew xs (pushes k ∷ ops) = (member xs k ≡ false) × AreNew (k ∷ xs) ops
  AreNew xs (removes k ∷ ops) = AreNew (take_out xs k) ops
  AreNew xs (asks_min ∷ ops) = AreNew xs ops

module _ {K : Type 0} {l : Less K} (law : IsLess l)
    (antisym : (a b : K) → l.less a b ≡ false → l.less b a ≡ false → a ≡ b) where
  least_lem :
      (xs : List K)
      → ((least l xs ≡ none) × ((k : K) → member l xs k ≡ false))
        ⊎ ((m : K) × (least l xs ≡ some m)
            × (member l xs m ≡ true)
            × ((k : K) → member l xs k ≡ true → l.less k m ≡ false))
  least_lem [] = inl (refl, λ k. refl)
  least_lem (x ∷ xs) = elim (least_lem xs) [
    | inl (e, nothing) ↦ inr (
      x,
      ap (λ o. some (smaller l x o)) e,
      ground (arith, law.same_iff x x),
      λ k h. ground (arith, h, nothing k, law.same_iff x k, law.order.asym x x),
    )
    | inr (m, e, here, first) ↦ elim (Bool-cases (l.less x m)) [
      | inl before ↦ inr (
        x,
        ap (λ o. some (smaller l x o)) e ∙ ground (arith, before),
        ground (arith, law.same_iff x x),
        λ k h. elim (Bool-cases (l.same x k)) [
          | inl it ↦ ground (arith, law.same_iff x k, law.order.asym x x)
          | inr other ↦
              law.order.trans x m k (law.order.asym x m before) (first k (ground (arith, h, other)))
        ],
      )
      | inr behind ↦ inr (
        m,
        ap (λ o. some (smaller l x o)) e ∙ ground (arith, behind),
        ground (arith, here),
        λ k h. ground (arith, h, first k, behind, law.same_iff x k),
      )
    ]
  ]

  member-take_out :
      (xs : List K) (k j : K)
      → member l (take_out l xs k) j ≡ (if l.same k j then false else member l xs j)
  member-take_out [] k j = ground arith
  member-take_out (x ∷ xs) k j =
      ground (arith, member-take_out xs k j, law.same_iff k x, law.same_iff x j, law.same_iff k j)

  -- The queue holds what the list holds.
  Holds : RequestQueue K → List K → Type 0
  Holds q xs = IsValid l q × ((k : K) → contains q k ≡ member l xs k)

  min-least : (q : RequestQueue K) (xs : List K) → Holds q xs → min l q ≡ least l xs
  unfolding Holds
  min-least q xs (v, same) = elim (min_lem law q v) [
    | inl (e, nothing) ↦ elim (least_lem xs) [
      | inl (e', h) ↦ e ∙ sym e'
      | inr (m, e', here, h) ↦ absurd (ground (arith, nothing m, same m, here))
    ]
    | inr (m, e, here, first) ↦ elim (least_lem xs) [
      | inl (e', nothing) ↦ absurd (ground (arith, nothing m, same m, here))
      | inr (m', e', here', first') ↦
          e
          ∙ (ap some (antisym m m' (first' m (sym (same m) ∙ here)) (first m' (same m' ∙ here')))
              ∙ sym e')
    ]
  ]

  answers_from :
      (ops : List (Operation K)) (q : RequestQueue K) (xs : List K)
      → Holds q xs
      → AreNew l xs ops
      → answers l q ops ≡ list_answers l xs ops
  unfolding answers list_answers Holds
  answers_from [] q xs h w = refl
  answers_from (pushes k ∷ ops) q xs (v, same) (new, w) =
      let (valid, adds) = push_lem law q v k (same k ∙ new) in
      answers_from ops (push l q k) (k ∷ xs) (valid, λ j. ground (arith, adds j, same j)) w
  answers_from (removes k ∷ ops) q xs (v, same) w = elim (Bool-cases (contains q k)) [
    | inl here ↦
        let (q', r) = remove_waiting law q v k here in
        ground (
          arith,
          r.returns,
          same k,
          here,
          answers_from ops q' (take_out l xs k)
              (r.valid, λ j. ground (arith, r.rest j, same j, member-take_out xs k j)) w,
        )
    | inr missing ↦ ground (arith, remove_missing law q v k missing, same k)
  ]
  answers_from (asks_min ∷ ops) q xs h w =
      ground (arith, min-least q xs h, answers_from ops q xs h w)

  -- For a lawful order in which different requests are comparable, and for any sequence of Push,
  -- Remove and Min that pushes no request while it waits: the queue returns from Min what a plain list
  -- of the waiting requests has as its least element, and panics exactly where a request is removed
  -- that the list does not have.
  pub answers_lem :
      (blank : K) (ops : List (Operation K))
      → AreNew l [] ops
      → answers l (new_request_queue l blank) ops ≡ list_answers l [] ops
  unfolding Holds new_request_queue contains
  answers_lem blank ops w =
      answers_from ops (new_request_queue l blank) []
        (new_request_queue-IsValid law blank, λ k. refl) w
