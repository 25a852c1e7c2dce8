-- ===== src/MutualExclusion/RequestQueue/Contents.antt =====
-- The queue as the set of requests it contains.
use distributed_algorithms.Prelude.{
  ℕ, ◌-◌, ◌/◌, ◌<◌, ◌≡◌, ◌≢◌, ◌↔◌, ◌⊎◌, inl, inr, refl, ap, subst, Bool, true, false, Option, none,
  some, ◌==◌, if◌then◌else◌, update, arith, Bool-cases,
}
use distributed_algorithms.MutualExclusion.Entries.{write}
use distributed_algorithms.MutualExclusion.Entries.Laws.{IsOrder, Live}
use distributed_algorithms.MutualExclusion.Entries.Operations.{
  IsQueue, root_least, heap_push-IsQueue, heap_push-Live, heap_push-key,
}
use distributed_algorithms.MutualExclusion.RequestQueue.{
  Less, RequestQueue, assign, new_request_queue, min, allocate, push,
}

pub record IsLess {K : Type 0} (l : Less K) : Type 0 where
  pub order : IsOrder l.less
  pub same_iff : (a b : K) → (l.same a b ≡ true) ↔ (a ≡ b)

abbrev pub is_some : {A : Type 0} → Option A → Bool
is_some none = false
is_some (some _) = true

module _ {K : Type 0} where
  -- The abstract view: which requests wait in the queue.
  unfoldable pub contains : RequestQueue K → K → Bool
  contains q k = is_some (q.request_of k)

  -- The map and the heap agree.
  pub record IsValid (l : Less K) (q : RequestQueue K) : Type 0 where
    pub queue : IsQueue l.less q.rpq
    pub named : (k : K) (p : ℕ) → q.request_of k ≡ some p → Live q.rpq p × (q.rpq.key p ≡ k)
    pub owned : (p : ℕ) → Live q.rpq p → q.request_of (q.rpq.key p) ≡ some p
    pub fresh : (p : ℕ) → Live q.rpq p → p < q.next

module _ {K : Type 0} {l : Less K} (law : IsLess l) where
  pub new_request_queue-IsValid : (blank : K) → IsValid l (new_request_queue l blank)
  unfolding new_request_queue
  new_request_queue-IsValid blank = record {
    queue = record { indexed = λ k b. elim b [ ]; heap = λ k a b. elim b [ ] };
    named = λ k p h. cc;
    owned = λ p (k, b, h). elim b [ ];
    fresh = λ p (k, b, h). elim b [ ];
  }

  module _ (q : RequestQueue K) (v : IsValid l q) where
    placed : (i : ℕ) → i < q.rpq.len → q.next ≢ q.rpq.slot i
    placed i b e = absurd (omega (arith, v.fresh (q.rpq.slot i) (i, b, refl)))

    -- In a valid queue with a lawful order, Min is nil exactly if no request waits, and else it is a
    -- waiting request that no other precedes.
    pub min_lem :
        ((min l q ≡ none) × ((k : K) → contains q k ≡ false))
        ⊎ ((m : K) × (min l q ≡ some m)
            × (contains q m ≡ true)
            × ((k : K) → contains q k ≡ true → l.less k m ≡ false))
    unfolding min contains
    min_lem = elim (Bool-cases (q.rpq.len == 0)) [
      | inl empty ↦ inl (rw empty, λ k. none_in empty k (q.request_of k) refl)
      | inr full ↦ inr (
        m,
        rw full,
        ap is_some (v.owned (q.rpq.slot 0) (0, ground arith, refl)),
        λ k. least_in k (q.request_of k) refl,
      )
    ]
      where
        m : K
        m = q.rpq.key (q.rpq.slot 0)

        none_in :
            (q.rpq.len == 0) ≡ true
            → (k : K) (o : Option ℕ) → q.request_of k ≡ o
            → is_some (q.request_of k) ≡ false
        none_in empty k none e = ap is_some e
        none_in empty k (some p) e = let (i, b, h) = (v.named k p e).0 in absurd (ground arith)

        least_in :
            (k : K) (o : Option ℕ)
            → q.request_of k ≡ o
            → is_some (q.request_of k) ≡ true
            → l.less k m ≡ false
        least_in k none e t = cc
        least_in k (some p) e t =
            subst (λ x. l.less x m ≡ false) ((v.named k p e).1)
              (root_least law.order q.rpq v.queue p (v.named k p e).0)

    module _ (k : K) where
      not-Live : ¬ (Live (allocate l q k) q.next)
      unfolding allocate write
      not-Live live = absurd (omega (arith, v.fresh q.next live))

      allocate-IsQueue : IsQueue l.less (allocate l q k)
      unfolding allocate write
      allocate-IsQueue = record {
        indexed = λ i b. ground (arith, placed i b, v.queue.indexed i b);
        heap = λ i a b.
            ground (arith, placed i b, placed ((i - 1) / 2) (omega arith), v.queue.heap i a b);
      }

      pushed_Live : (p : ℕ) → Live (push l q k).rpq p ↔ ((p ≡ q.next) ⊎ Live q.rpq p)
      unfolding push allocate write
      pushed_Live p = heap_push-Live law.order (allocate l q k) q.next not-Live allocate-IsQueue p

      pushed_key : (p : ℕ) → (push l q k).rpq.key p ≡ update q.rpq.key q.next k p
      unfolding push allocate write
      pushed_key p = heap_push-key law.order (allocate l q k) q.next not-Live allocate-IsQueue p

      request_of_push :
          (j : K) → (push l q k).request_of j ≡ (if l.same k j then some q.next else q.request_of j)
      unfolding push assign
      request_of_push j = refl

      pushed_named :
          contains q k ≡ false
          → (j : K) (p : ℕ) → (push l q k).request_of j ≡ some p
          → Live (push l q k).rpq p × ((push l q k).rpq.key p ≡ j)
      unfolding contains
      pushed_named new j p e = elim (Bool-cases (l.same k j)) [
        | inl hit ↦ (
          (pushed_Live p).1 (inl (ground (arith, request_of_push j))),
          ground (arith, request_of_push j, pushed_key p, law.same_iff k j),
        )
        | inr miss ↦
            let old = v.named j p (ground (arith, request_of_push j)) in
            ((pushed_Live p).1 (inr old.0), ground (arith, v.fresh p old.0, old.1, pushed_key p))
      ]

      pushed_owned :
          contains q k ≡ false
          → (p : ℕ) → Live (push l q k).rpq p
          → (push l q k).request_of ((push l q k).rpq.key p) ≡ some p
      unfolding contains
      pushed_owned new p live = elim ((pushed_Live p).0 live) [
        | inl e ↦ ground (
          arith,
          pushed_key p,
          request_of_push ((push l q k).rpq.key p),
          law.same_iff k ((push l q k).rpq.key p),
        )
        | inr old ↦ ground (
          arith,
          pushed_key p,
          v.fresh p old,
          v.owned p old,
          request_of_push ((push l q k).rpq.key p),
          law.same_iff k ((push l q k).rpq.key p),
        )
      ]

      pushed_fresh : (p : ℕ) → Live (push l q k).rpq p → p < (push l q k).next
      unfolding push
      pushed_fresh p live = elim ((pushed_Live p).0 live) [
        | inl e ↦ omega arith
        | inr old ↦ omega (arith, v.fresh p old)
      ]

      pub push-IsValid : contains q k ≡ false → IsValid l (push l q k)
      unfolding push
      push-IsValid new = record {
        queue = heap_push-IsQueue law.order (allocate l q k) q.next not-Live allocate-IsQueue;
        named = pushed_named new;
        owned = pushed_owned new;
        fresh = pushed_fresh;
      }

      -- Push adds the request.
      pub push-contains :
          (j : K) → contains (push l q k) j ≡ (if l.same k j then true else contains q j)
      unfolding push contains assign
      push-contains j = ground arith

      -- Push of a request that does not wait, on a valid queue with a lawful order, keeps the queue
      -- valid, and adds that request and no other.
      pub push_lem :
          contains q k ≡ false
          → IsValid l (push l q k)
            × ((j : K) → contains (push l q k) j ≡ (if l.same k j then true else contains q j))
      push_lem new = (push-IsValid new, push-contains)
