-- ===== src/MutualExclusion/System/Progress/Rule5.antt =====
-- What the test of rule 5 means for all the requests under way.
use distributed_algorithms.Prelude.{
  ℕ, ◌≤◌, ◌<◌, ◌≡◌, ◌≢◌, ◌⊎◌, inl, inr, sym, ◌∙◌, true, false, Option-cases, Option, none, some,
  arith, dec_lt, Bool-cases,
}
use distributed_algorithms.MutualExclusion.Timestamp.{Timestamp, less, is_equal, is_before}
use distributed_algorithms.MutualExclusion.ReceivedTime.Latest.{latest, IsOther, min_time_lem}
use distributed_algorithms.MutualExclusion.RequestQueue.{min}
use distributed_algorithms.MutualExclusion.Process.{
  Observer, Process, by_timestamp, is_first, is_satisfied_rule5,
}
use distributed_algorithms.MutualExclusion.System.{Node, System}
use distributed_algorithms.MutualExclusion.System.History.{IsRequest}
use distributed_algorithms.MutualExclusion.System.Local.{IsNode, handled}
use distributed_algorithms.MutualExclusion.System.Invariant.{request_of, Precedes, Inv}
use distributed_algorithms.MutualExclusion.System.Progress.Quiet.{heard_before}
use distributed_algorithms.MutualExclusion.RequestQueue.Contents.{contains, min_lem}
use distributed_algorithms.MutualExclusion.Timestamp.Order.{less_of_time, less_of_not, is_equal_iff}
use distributed_algorithms.MutualExclusion.System.Local.Queue.{by_timestamp-IsLess}

module _ (o : Observer) {n : ℕ} (s : System o) (inv : Inv o n s) (i : ℕ) (lt : i < n) where
  open o use {Property, sent, value}

  abbrev node : Node
  node = s.nodes i

  abbrev p : Process
  p = node.process

  v : IsNode o n s.prop i node
  v = inv.local i lt

  -- What rule 5 tests: the own request is first in the queue, and all others have been heard later.
  pub record IsSatisfied (ts : Timestamp) : Type 0 where
    pub test : is_satisfied_rule5 p ≡ some true
    pub vacant : p.is_occupying ≡ false
    pub asked : p.request_timestamp ≡ some ts
    pub head : min by_timestamp p.request_queue ≡ some ts
    pub heard : (j : ℕ) → IsOther n i j → ts.time < latest p.received_time j

  is_before-lt : (ts : Timestamp) (t : ℕ) → is_before ts t ≡ true → ts.time < t
  unfolding is_before
  is_before-lt ts t h = ground arith

  is_first_head : (ts : Timestamp) (o : Option Timestamp) → is_equal ts o ≡ true → o ≡ some ts
  is_first_head ts none h = absurd (unfold is_equal in cc)
  is_first_head ts (some us) h = ground (arith, is_equal_iff ts us)

  -- With another process to hear from, the test of rule 5 returns.
  pub rule5_cases :
      (q : ℕ)
      → IsOther n i q
      → (is_satisfied_rule5 p ≡ some false) ⊎ ((ts : Timestamp) × IsSatisfied ts)
  unfolding is_satisfied_rule5 is_first
  rule5_cases q other =
      let (m, e, least, _) = min_time_lem p.received_time v.timed.valid q other in
      elim (Option-cases p.request_timestamp) [
        | inl idle ↦ inl (ground arith)
        | inr (ts, asked) ↦ elim (Bool-cases p.is_occupying) [
          | inl busy ↦ inl (ground arith)
          | inr vacant ↦ elim (Bool-cases (is_equal ts (min by_timestamp p.request_queue))) [
            | inr behind ↦ inl (ground arith)
            | inl first ↦ elim (Bool-cases (is_before ts m)) [
              | inr early ↦ inl (ground (arith, e))
              | inl late ↦ inr (
                ts,
                record {
                  test = ground (arith, e);
                  vacant = vacant;
                  asked = asked;
                  head = is_first_head ts _ first;
                  heard = λ j x. omega (arith, is_before-lt ts m late, least j x);
                },
              )
            ]
          ]
        ]
      ]

  module _ (ts : Timestamp) (w : IsSatisfied ts) where
    head_least : (us : Timestamp) → contains p.request_queue us ≡ true → less us ts ≡ false
    head_least us c = elim (min_lem by_timestamp-IsLess p.request_queue v.queued.valid) [
      | inl (empty, _) ↦ absurd (ground (arith, w.head))
      | inr (m, e, _, least) ↦ ground (arith, w.head, least us c)
    ]

    -- The request precedes every other that has been made, whether or not it has arrived.
    module _ (j : ℕ) (other : IsOther n i j) (us : Timestamp)
        (e : request_of (s.nodes j) ≡ some us) where
      vj : IsNode o n s.prop j (s.nodes j)
      vj = inv.local j other.0

      foreign : us.process ≢ i
      foreign r = other.1 (sym (vj.asking.mine us e) ∙ r)

      precedes_read :
          (k : ℕ)
          → k < node.cursor
          → k < sent s.prop
          → IsRequest o s.prop k us
          → handled node.listener node.cursor ≡ node.cursor
          → less ts us ≡ true
      precedes_read k old b r all =
          let c =
            v.queued.enqueued us foreign (rw all (k, old, r))
              (rw all (λ l d x. vj.asking.held us e l (omega (arith, v.read)) x)) in
          less_of_not ts us (λ r. foreign (sym r ∙ v.asking.mine ts w.asked)) (head_least us c)

      precedes_unread :
          (k : ℕ) → node.cursor ≤ k → k < sent s.prop → IsRequest o s.prop k us → less ts us ≡ true
      precedes_unread k new b r =
          let (from, time) = inv.history.requests k us b r in
          less_of_time ts us (
            omega (
              arith,
              time,
              w.heard j other,
              v.timed.unread j k other new b (sym from ∙ vj.asking.mine us e),
            ))

      pub precedes : handled node.listener node.cursor ≡ node.cursor → less ts us ≡ true
      precedes all =
          let (k, b, r) = vj.asking.broadcast us e in
          elim (dec_lt k node.cursor) [
            | yes old ↦ precedes_read k old b r all
            | no new ↦ precedes_unread k (omega arith) b r
          ]

    pub satisfied-Precedes :
        handled node.listener node.cursor ≡ node.cursor
        → (j : ℕ) → IsOther n i j
        → Precedes ts (s.nodes j)
    satisfied-Precedes all j other = (
      omega (arith, w.heard j other, heard_before o s inv i lt j other),
      λ us e. precedes j other us e all,
    )
