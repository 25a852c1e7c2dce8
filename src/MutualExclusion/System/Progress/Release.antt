-- ===== src/MutualExclusion/System/Progress/Release.antt =====
-- A turn of releaseResource.
use distributed_algorithms.Prelude.{
  ℕ, suc, ◌+◌, ◌-◌, ◌<◌, ◌≡◌, ◌≢◌, inl, inr, refl, sym, ◌∙◌, subst, true, false, ltb, none, some,
  update, update_all, total, total-update, [], ◌∷◌, ◌++◌, arith, Bool-cases,
}
use distributed_algorithms.MutualExclusion.Clock.{now, tick}
use distributed_algorithms.MutualExclusion.Timestamp.{Timestamp}
use distributed_algorithms.MutualExclusion.Message.{release_resource, others, Message, new_message}
use distributed_algorithms.MutualExclusion.ReceivedTime.Latest.{latest}
use distributed_algorithms.MutualExclusion.RequestQueue.{RequestQueue, remove}
use distributed_algorithms.MutualExclusion.Process.{
  Observer, Process, by_timestamp, announce_release, release_resource_of, is_satisfied_rule5,
}
use distributed_algorithms.MutualExclusion.System.{Node, System, done, turn_release}
use distributed_algorithms.MutualExclusion.System.History.{
  IsNext, grow-IsHistory, value_cases, Unreleased-shrink, IsRelease,
}
use distributed_algorithms.MutualExclusion.System.Local.{IsNode, IsQueued, handled}
use distributed_algorithms.MutualExclusion.System.Local.Queue.{remove_own-IsQueued}
use distributed_algorithms.MutualExclusion.System.Invariant.{
  request_of, is_occupying, time_of, owes, Precedes, IsShared, Inv,
}
use distributed_algorithms.MutualExclusion.System.Invariant.Turn.{IsTurn, IsPair-turn}
use distributed_algorithms.MutualExclusion.System.Progress.{Progress}
use distributed_algorithms.MutualExclusion.System.Progress.Quiet.{heard_before}
use distributed_algorithms.MutualExclusion.Resource.{Resource, release_held}
use distributed_algorithms.MutualExclusion.Timestamp.Order.{less-IsOrder}
use distributed_algorithms.MutualExclusion.System.Local.Grow.{
  IsNode-grow, IsQueued-grow, IsTimed-grow, IsListening-grow, IsAnswering-grow, handled-le,
}
use distributed_algorithms.MutualExclusion.Resource

module _ (o : Observer) {n : ℕ} (s : System o) (inv : Inv o n s) (i : ℕ) (lt : i < n) where
  open o use {Property, sent, value, sent-update, value_new}

  abbrev node : Node
  node = s.nodes i

  abbrev p : Process
  p = node.process

  v : IsNode o n s.prop i node
  v = inv.local i lt

  module _ (instant : ℕ) (occ : p.is_occupying ≡ true) (ts : Timestamp)
      (asked : p.request_timestamp ≡ some ts) where
    mine : ts.process ≡ i
    mine = v.asking.mine ts asked

    -- Nobody else occupies the resource.
    alone : (j : ℕ) → j < n → j ≢ i → is_occupying (s.nodes j) ≡ false
    alone j b ne = elim (Bool-cases (is_occupying (s.nodes j))) [
      | inr vacant ↦ vacant
      | inl busy ↦
          let (us, r) = (inv.local j b).occupies busy in
          absurd (
            ground (
              arith,
              less-IsOrder.asym ts us (((inv.pair j i b lt ne).first ts occ asked).1 us r),
              ((inv.pair i j lt b (λ x. ne (sym x))).first us busy r).1 ts asked,
            ))
    ]

    abbrev m : Message
    m = new_message release_resource (time_of node + 1) p.me others ts

    next : IsNext o n s.prop m
    next = record {
      sender = omega (arith, v.named);
      later = λ k b f. ground (arith, v.timed.stamped k b, v.named);
      request = λ t. cc;
      release = λ t. (mine ∙ sym v.named, v.asking.broadcast ts asked, v.asking.held ts asked);
    }

    module _ (q : RequestQueue Timestamp)
        (removed : remove by_timestamp p.request_queue ts ≡ some q)
        (queued : IsQueued o s.prop i (handled node.listener node.cursor) q none) where
      abbrev node' : Node
      node' = record node {
        process = record p {
          wg = 0;
          clock = record { time = time_of node + 1 };
          request_queue = q;
          is_occupying = false;
          request_timestamp = none;
        };
        releasing = node.releasing - 1;
      }

      abbrev left : ℕ
      left = s.budget + total owes n (update s.nodes i node')

      owed : s.resource.wg ≡ suc left
      owed = ground (arith, inv.shared.owed, total-update owes n s.nodes i node' lt)

      abbrev freed : Resource
      freed = record s.resource {
        last_occupied_by = some ts;
        occupied_by = none;
        times = s.resource.times ++ instant ∷ [];
        wg = left;
      }

      after : System o
      after = record s {
        nodes = update s.nodes i node';
        prop = o.update s.prop m;
        resource = freed;
      }

      waiting_once : p.wg ≡ 1
      waiting_once = ground (arith, v.asking.waits)

      returns :
          release_resource_of o p s.resource s.prop instant
          ≡ some (node'.process, freed, o.update s.prop m)
      unfolding release_resource_of announce_release tick now Resource.done
      returns = ground (
        arith,
        release_held s.resource ts instant left (inv.shared.held i lt occ ∙ asked) owed,
        removed,
        waiting_once,
      )

      released : turn_release o s i node instant ≡ done after
      unfolding turn_release after
      released = ground (arith, returns, v.started)

      local : IsNode o n (o.update s.prop m) i node'
      unfolding now is_satisfied_rule5
      local = record {
        named = v.named;
        read = omega (arith, v.read, sent-update s.prop m);
        queued =
            IsQueued-grow o s.prop m i _ _ _
              (omega (arith, v.read, handled-le node.listener node.cursor)) queued;
        timed =
            IsTimed-grow o s.prop m n i _ _ _ _ (λ other. absurd (other.1 v.named))
              (λ _. omega arith) (omega arith) v.read v.timed;
        asking = record {
          waits = refl;
          mine = λ x r. cc;
          past = λ x r. cc;
          broadcast = λ x r. cc;
          held = λ x r. cc;
          only_one = λ x e (k, b, r) u. elim (value_cases o s.prop m k b) [
            | inl (old, f) ↦
                let same =
                  v.asking.only_one x e (k, old, rw f at r)
                    (Unreleased-shrink o s.prop m (sent s.prop) x (omega arith)
                      (λ j c. u j (omega (arith, sent-update s.prop m)))) in
                absurd (u (sent s.prop) (omega (arith, sent-update s.prop m)) (released_x x same))
            | inr (last, f) ↦ absurd (ground (arith, f))
          ];
        };
        listening = IsListening-grow o s.prop m n i _ node.listener v.read v.listening;
        answering =
            IsAnswering-grow o s.prop m i _ node.listener _ _ v.read (omega arith) v.answering;
        settled = λ x other f g. refl;
        occupies = λ r. cc;
        started = ground (arith, v.started);
      }
        where
          released_x :
              (x : Timestamp)
              → p.request_timestamp ≡ some x
              → IsRelease o (o.update s.prop m) (sent s.prop) x
          released_x x same =
              (ground (arith, value_new s.prop m), ground (arith, value_new s.prop m))

      turned : IsTurn n i s.nodes node node'
      unfolding now
      turned = record {
        clock = omega arith;
        heard = heard_before o s inv i lt;
        asks = λ us r. cc;
        wins = λ r. cc;
      }

      shared : IsShared n (update s.nodes i node') freed s.budget
      unfolding now
      shared = record {
        held = λ j b.
            update_all (λ x d. is_occupying d ≡ true → none ≡ request_of d) s.nodes i node'
              (λ r. cc) j (λ ne r. absurd (ground (arith, alone j b ne)));
        holder = λ us r. cc;
        last = λ us r j b.
            subst (λ y. Precedes y (update s.nodes i node' j)) (same us r)
              (update_all (λ x d. Precedes ts d) s.nodes i node'
                (omega (arith, v.asking.past ts asked), λ x y. cc) j
                (λ ne. (inv.pair j i b lt ne).first ts occ asked));
        owed = refl;
      }
        where
          same : (us : Timestamp) → some ts ≡ some us → ts ≡ us
          same us r = cc

      kept : Inv o n after
      unfolding after
      kept = record {
        history = grow-IsHistory o s.prop m inv.history next;
        local = λ j b. update_all (IsNode o n (o.update s.prop m)) s.nodes i node' local j (λ ne.
            IsNode-grow o s.prop m n j (s.nodes j) (λ r. ne (sym r ∙ v.named))
              (λ _. mine ∙ sym v.named) (λ t. cc) (λ other. heard_early j b ne) (inv.local j b));
        pair = IsPair-turn turned lt inv.pair;
        shared = shared;
      }
        where
          heard_early :
              (j : ℕ)
              → j < n
              → j ≢ i
              → latest (s.nodes j).process.received_time p.me < time_of node + 1
          heard_early j b ne = ground (arith, v.named, (inv.pair i j lt b (λ r. ne (sym r))).behind)

  occupying : 0 < node.releasing → p.is_occupying ≡ true
  occupying h = ground (arith, v.started)

  -- A turn of releaseResource: Release does not panic, nor does the removal of the request.
  pub release-Progress : (instant : ℕ) → Progress o n (turn_release o s i node instant)
  release-Progress instant = elim (Bool-cases (ltb 0 node.releasing)) [
    | inr none_started ↦ inl (unfold turn_release in rw none_started)
    | inl some_started ↦
        let occ = occupying (ground arith) in
        let (ts, asked) = v.occupies occ in
        let (q, removed, queued) =
          remove_own-IsQueued o s.prop v.queued ts asked (v.asking.mine ts asked) in
        inr (
          after instant occ ts asked q removed queued,
          released instant occ ts asked q removed queued,
          kept instant occ ts asked q removed queued,
        )
  ]
