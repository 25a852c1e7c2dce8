-- ===== src/MutualExclusion/System/Safety.antt =====
-- What Lamport's algorithm promises: the resource is never taken twice, it is taken in the order
-- of the requests, and nothing in the program panics.
use distributed_algorithms.Prelude.{
  ℕ, ◌<◌, ◌≡◌, ◌≢◌, inl, inr, refl, sym, true, some, arith, ℕ_discrete,
}
use distributed_algorithms.MutualExclusion.Timestamp.{Timestamp, less}
use distributed_algorithms.MutualExclusion.Timestamp.Order.{less-IsOrder}
use distributed_algorithms.MutualExclusion.Message.{request_resource}
use distributed_algorithms.MutualExclusion.Process.{Observer}
use distributed_algorithms.MutualExclusion.System.{System, panic, Action, turn, Reach}
use distributed_algorithms.MutualExclusion.System.Invariant.{request_of, is_occupying}
use distributed_algorithms.MutualExclusion.System.Reachable.{Reach-Inv, turn-Progress}

module _ (o : Observer) {n times : ℕ} {random : ℕ → ℕ} {s : System o}
    (r : Reach o n times random s) where
  -- In every reachable state of `n` processes, a process that occupies the resource has a request,
  -- the resource is occupied by that request, and the request precedes the request of every other
  -- process, whether or not that request has arrived.
  pub first_come_first_served :
      (i : ℕ)
      → i < n
      → is_occupying (s.nodes i) ≡ true
      → (ts : Timestamp) × (request_of (s.nodes i) ≡ some ts)
        × (s.resource.occupied_by ≡ some ts)
        × ((j : ℕ) (us : Timestamp)
            → j < n
            → j ≢ i
            → request_of (s.nodes j) ≡ some us
            → less ts us ≡ true)
  first_come_first_served i lt occ =
      let inv = Reach-Inv o r in
      let (ts, e) = (inv.local i lt).occupies occ in
      (
        ts,
        e,
        ground (arith, inv.shared.held i lt occ),
        λ j us b ne f. ((inv.pair j i b lt ne).first ts occ e).1 us f,
      )

  -- In every reachable state, two processes that both occupy the resource are the same.
  pub mutual_exclusion :
      (i j : ℕ)
      → i < n
      → j < n
      → is_occupying (s.nodes i) ≡ true
      → is_occupying (s.nodes j) ≡ true
      → i ≡ j
  mutual_exclusion i j p q occ occ' = elim (ℕ_discrete i j) [
    | yes e ↦ e
    | no ne ↦
        let (ts, e, _, first) = first_come_first_served i p occ in
        let (us, f, _, first') = first_come_first_served j q occ' in
        absurd (
          ground
            (arith, less-IsOrder.asym ts us (first j us q (λ x. ne (sym x)) f), first' i ts p ne e))
  ]

  -- In a reachable state no turn of a goroutine panics: neither the resource, which checks that it
  -- is free and taken in order, nor a request queue that is told to remove a request, nor the
  -- received times, nor a wait group.
  pub never_panics : (i : ℕ) (a : Action) (instant : ℕ) → i < n → turn o s i a instant ≢ panic
  never_panics i a instant lt e = elim (turn-Progress o s (Reach-Inv o r) i lt a instant) [
    | inl stuck ↦ cc
    | inr (t, f, _) ↦ cc
  ]

  -- In every reachable state, no two requests that have been broadcast have equal timestamps.
  pub requests_distinct :
      (j k : ℕ)
      → j < k
      → k < o.sent s.prop
      → (o.value s.prop j).msg_type ≡ request_resource
      → (o.value s.prop k).msg_type ≡ request_resource
      → (o.value s.prop j).timestamp ≢ (o.value s.prop k).timestamp
  requests_distinct j k lt b p q e =
      let h = (Reach-Inv o r).history in
      let ts = (o.value s.prop k).timestamp in
      ground (
        arith,
        h.requests k ts b (q, refl),
        h.requests j ts (omega arith) (p, e),
        h.ordered j k lt b,
      )
