-- ===== src/MutualExclusion/System/Progress/Requests.antt =====
-- A turn of Request.
use distributed_algorithms.Prelude.{
  false, ℕ, ◌+◌, ◌-◌, ◌<◌, ◌≡◌, ◌≢◌, inl, inr, refl, sym, ◌∙◌, ◌&&◌, ◌==◌, ltb, none, some, update,
  update_all, arith, Bool-cases,
}
use distributed_algorithms.MutualExclusion.Clock.{now, tick}
use distributed_algorithms.MutualExclusion.Timestamp.{Timestamp, new_timestamp, is_before}
use distributed_algorithms.MutualExclusion.Message.{request_resource, others, Message, new_message}
use distributed_algorithms.MutualExclusion.ReceivedTime.Latest.{latest, IsOther, min_time_lem}
use distributed_algorithms.MutualExclusion.RequestQueue.{push}
use distributed_algorithms.MutualExclusion.Process.{
  Observer, Process, by_timestamp, request, is_first, is_satisfied_rule5,
}
use distributed_algorithms.MutualExclusion.System.{Node, System, turn_request}
use distributed_algorithms.MutualExclusion.System.History.{
  IsNext, grow-IsHistory, value_cases, Unreleased, Unreleased-shrink,
}
use distributed_algorithms.MutualExclusion.System.Local.{IsNode, IsAsking}
use distributed_algorithms.MutualExclusion.System.Local.Grow.{
  IsNode-grow, IsQueued-grow, IsTimed-grow, handled-le, IsListening-grow, IsAnswering-grow,
}
use distributed_algorithms.MutualExclusion.System.Local.Queue.{push_own-IsQueued}
use distributed_algorithms.MutualExclusion.System.Invariant.{time_of, Inv}
use distributed_algorithms.MutualExclusion.System.Invariant.Turn.{
  IsTurn, IsPair-turn, IsShared-turn,
}
use distributed_algorithms.MutualExclusion.System.Progress.{Progress}

module _ (o : Observer) {n : ℕ} (s : System o) (inv : Inv o n s) (i : ℕ) (lt : i < n) where
  open o use {Property, sent, value, sent-update, value_new}

  abbrev node : Node
  node = s.nodes i

  abbrev p : Process
  p = node.process

  v : IsNode o n s.prop i node
  v = inv.local i lt

  abbrev ts : Timestamp
  ts = record { time = time_of node + 1; process = p.me }

  abbrev m : Message
  m = new_message request_resource (time_of node + 1) p.me others ts

  abbrev p' : Process
  p' = record p {
    wg = p.wg + 1;
    clock = record { time = time_of node + 1 };
    request_queue = push by_timestamp p.request_queue ts;
    request_timestamp = some ts;
  }

  abbrev node' : Node
  node' = record node { process = p' }

  next : IsNext o n s.prop m
  next = record {
    sender = omega (arith, v.named);
    later = λ k b f. ground (arith, v.timed.stamped k b, v.named);
    request = λ _. (refl, refl);
    release = λ e. cc;
  }

  free : p.wg ≡ 0 → p.request_timestamp ≡ none
  free w = ground (arith, v.asking.waits)

  unreleased : Unreleased o (o.update s.prop m) (sent (o.update s.prop m)) ts
  unreleased k b r = elim (value_cases o s.prop m k b) [
    | inl (old, e) ↦
        let (own, (j, lt', asked), _) = inv.history.releases k ts old (rw e at r) in
        ground (
          arith,
          inv.history.requests j ts (omega arith) asked,
          v.timed.stamped j (omega arith),
          v.named,
        )
    | inr (last, e) ↦ ground (arith, e)
  ]

  asking : p.wg ≡ 0 → IsAsking o (o.update s.prop m) i (some ts) (time_of node + 1) (p.wg + 1)
  asking w = record {
    waits = omega arith;
    mine = λ x e. ground (arith, v.named);
    past = λ x e. ground arith;
    broadcast = λ x e. (
      sent s.prop,
      omega (arith, sent-update s.prop m),
      (ground (arith, value_new s.prop m), ground (arith, value_new s.prop m)),
    );
    held = λ x e k b r. unreleased k b (r.0, ground arith);
    only_one = λ x e (k, b, r) u. elim (value_cases o s.prop m k b) [
      | inl (old, f) ↦ absurd (
          ground (
            arith,
            free w,
            v.asking.only_one x e (k, old, rw f at r)
                (Unreleased-shrink o s.prop m (sent s.prop) x (omega arith)
                  (λ j c. u j (omega (arith, sent-update s.prop m)))),
          ))
      | inr (last, f) ↦ ground (arith, f)
    ];
  }

  -- Nobody has been heard since, so that rule 5 cannot hold yet.
  early : (q : ℕ) → IsOther n i q → is_satisfied_rule5 p' ≡ some false
  unfolding is_satisfied_rule5 is_first is_before
  early q other =
      let (t, e, least, _) = min_time_lem p.received_time v.timed.valid q other in
      ground (arith, e, least q other, v.timed.passed q other)

  local : p.wg ≡ 0 → IsNode o n (o.update s.prop m) i node'
  unfolding now
  local w = record {
    named = v.named;
    read = omega (arith, v.read, sent-update s.prop m);
    queued =
        IsQueued-grow o s.prop m i _ _ _
          (omega (arith, v.read, handled-le node.listener node.cursor))
          (push_own-IsQueued o s.prop v.queued ts (free w) v.named);
    timed =
        IsTimed-grow o s.prop m n i _ _ _ _ (λ other. absurd (other.1 v.named)) (λ _. omega arith)
          (omega arith) v.read v.timed;
    asking = asking w;
    listening = IsListening-grow o s.prop m n i _ node.listener v.read v.listening;
    answering = IsAnswering-grow o s.prop m i _ node.listener _ _ v.read (omega arith) v.answering;
    settled = λ q other f g. early q other;
    occupies = λ occ. (ts, refl);
    started = v.started;
  }

  turned : p.wg ≡ 0 → IsTurn n i s.nodes node node'
  unfolding now
  turned w = record {
    clock = omega arith;
    heard = λ j other. (inv.pair j i other.0 lt other.1).behind;
    asks = λ us e. inr (ground arith);
    wins = λ occ. absurd (ground (arith, v.occupies occ, free w));
  }

  after : System o
  after = record s {
    nodes = update s.nodes i node';
    prop = o.update s.prop m;
    budget = s.budget - 1;
  }

  kept : p.wg ≡ 0 → 0 < s.budget → Inv o n after
  unfolding after
  kept w money = record {
    history = grow-IsHistory o s.prop m inv.history next;
    local = λ j b. update_all (IsNode o n (o.update s.prop m)) s.nodes i node' (local w) j (λ ne.
        IsNode-grow o s.prop m n j (s.nodes j) (λ e. ne (sym e ∙ v.named)) (λ _. refl) (λ _. refl)
          (λ other. heard_before j b ne) (inv.local j b));
    pair = IsPair-turn (turned w) lt inv.pair;
    shared =
        IsShared-turn (turned w) s.resource s.budget (s.budget - 1) lt refl
          (λ occ. absurd (ground (arith, v.occupies occ, free w))) (ground (arith, free w))
          inv.shared;
  }
    where
      heard_before :
          (j : ℕ) → j < n → j ≢ i → latest (s.nodes j).process.received_time p.me < time_of node + 1
      heard_before j b ne = ground (arith, v.named, (inv.pair i j lt b (λ e. ne (sym e))).behind)

  pub request-Progress : Progress o n (turn_request o s i node)
  unfolding turn_request request tick now new_timestamp after
  request-Progress = elim (Bool-cases ((p.wg == 0) && ltb 0 s.budget)) [
    | inl free ↦ inr (after, rw free, kept (ground arith) (ground arith))
    | inr busy ↦ inl (rw busy)
  ]
