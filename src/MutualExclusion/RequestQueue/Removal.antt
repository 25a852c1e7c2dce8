-- ===== src/MutualExclusion/RequestQueue/Removal.antt =====
-- Remove takes one request out of the queue, and panics where the request is not there.
use distributed_algorithms.Prelude.{
  ℕ, ◌<◌, ◌≡◌, ◌≢◌, ◌↔◌, inl, inr, ◌∙◌, true, false, none, some, if◌then◌else◌, arith, Bool-cases,
  Option-cases,
}
use distributed_algorithms.MutualExclusion.Entries.Laws.{Live}
use distributed_algorithms.MutualExclusion.Entries.Operations.{heap_remove}
use distributed_algorithms.MutualExclusion.Entries.Removal.{
  heap_remove-IsQueue, heap_remove-Live, heap_remove-key,
}
use distributed_algorithms.MutualExclusion.RequestQueue.{
  Less, RequestQueue, assign, remove_entry, remove,
}
use distributed_algorithms.MutualExclusion.RequestQueue.Contents.{IsLess, contains, IsValid}

module _ {K : Type 0} {l : Less K} (law : IsLess l) (q : RequestQueue K) (v : IsValid l q)
    (k : K) where
  -- The queue without the entry at `i`.
  without : ℕ → RequestQueue K
  without i = record q {
    rpq = heap_remove l.less q.rpq i;
    request_of = assign l q.request_of k none;
  }

  module _ (p i : ℕ) (known : q.request_of k ≡ some p) (b : i < q.rpq.len)
      (here : q.rpq.slot i ≡ p) where
    remove-some : remove l q k ≡ some (without i)
    unfolding remove remove_entry without
    remove-some = ground (arith, v.queue.indexed i b)

    left_Live : (x : ℕ) → Live (heap_remove l.less q.rpq i) x ↔ (Live q.rpq x × (x ≢ q.rpq.slot i))
    left_Live x = heap_remove-Live law.order q.rpq i b v.queue x

    left_key : (x : ℕ) → (heap_remove l.less q.rpq i).key x ≡ q.rpq.key x
    left_key x = heap_remove-key law.order q.rpq i b v.queue x

    left_named :
        (j : K) (x : ℕ)
        → assign l q.request_of k none j ≡ some x
        → Live (heap_remove l.less q.rpq i) x × ((heap_remove l.less q.rpq i).key x ≡ j)
    unfolding assign
    left_named j x e = elim (Bool-cases (l.same k j)) [
      | inl hit ↦ absurd (ground arith)
      | inr miss ↦
          let old = v.named j x (ground arith) in
          let other : x ≢ q.rpq.slot i =
            λ h. ground (arith, law.same_iff k j, v.named k p known, old.1) in
          ((left_Live x).1 (old.0, other), left_key x ∙ old.1)
    ]

    left_owned :
        (x : ℕ)
        → Live (heap_remove l.less q.rpq i) x
        → assign l q.request_of k none ((heap_remove l.less q.rpq i).key x) ≡ some x
    unfolding assign
    left_owned x live =
        let old = (left_Live x).0 live in
        ground (
          arith,
          left_key x,
          v.owned x old.0,
          old.1,
          law.same_iff k ((heap_remove l.less q.rpq i).key x),
        )

    without-IsValid : IsValid l (without i)
    unfolding without
    without-IsValid = record {
      queue = heap_remove-IsQueue law.order q.rpq i b v.queue;
      named = left_named;
      owned = left_owned;
      fresh = λ x live. v.fresh x ((left_Live x).0 live).0;
    }

  without-contains :
      (i : ℕ) (j : K) → contains (without i) j ≡ (if l.same k j then false else contains q j)
  unfolding without contains assign
  without-contains i j = ground arith

  -- What Remove leaves behind when it returns `q'`.
  pub record IsRemoved (q' : RequestQueue K) : Type 0 where
    pub returns : remove l q k ≡ some q'
    pub valid : IsValid l q'
    pub rest : (j : K) → contains q' j ≡ (if l.same k j then false else contains q j)

  -- Remove of a waiting request, from a valid queue with a lawful order, returns, keeps the queue
  -- valid, and takes that request and no other out.
  pub remove_waiting : contains q k ≡ true → (q' : RequestQueue K) × IsRemoved q'
  unfolding contains
  remove_waiting h = elim (Option-cases (q.request_of k)) [
    | inl missing ↦ absurd (ground arith)
    | inr (p, known) ↦
        let (i, b, here) = (v.named k p known).0 in
        (
          without i,
          record {
            returns = remove-some p i known b here;
            valid = without-IsValid p i known b here;
            rest = without-contains i;
          },
        )
  ]

  -- Remove of a request that is not there panics.
  pub remove_missing : contains q k ≡ false → remove l q k ≡ none
  unfolding contains remove
  remove_missing h = ground arith
