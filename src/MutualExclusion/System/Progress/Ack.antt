-- ===== src/MutualExclusion/System/Progress/Ack.antt =====
-- A turn that answers a request.
use distributed_algorithms.Prelude.{
  ℕ, ◌+◌, ◌-◌, ◌<◌, ℕ_discrete, ◌≡◌, ◌≢◌, inl, inr, refl, sym, ◌∙◌, subst, update, update_all,
  arith,
}
use distributed_algorithms.MutualExclusion.Clock.{now, tick}
use distributed_algorithms.MutualExclusion.Message.{
  request_resource, acknowledgment, only, Message, new_message,
}
use distributed_algorithms.MutualExclusion.ReceivedTime.Latest.{latest}
use distributed_algorithms.MutualExclusion.Process.{Observer, Process, acknowledge}
use distributed_algorithms.MutualExclusion.System.{acking, checking, Node, System, turn_ack}
use distributed_algorithms.MutualExclusion.System.History.{IsNext, grow-IsHistory}
use distributed_algorithms.MutualExclusion.System.Local.{IsNode, IsListening, IsAtHand, IsAnswered}
use distributed_algorithms.MutualExclusion.System.Invariant.{time_of, Inv}
use distributed_algorithms.MutualExclusion.System.Invariant.Turn.{
  IsTurn, IsPair-turn, IsShared-turn,
}
use distributed_algorithms.MutualExclusion.System.Progress.{Progress}
use distributed_algorithms.MutualExclusion.System.Progress.Quiet.{heard_before, seen_by}
use distributed_algorithms.MutualExclusion.System.Local.Grow.{
  IsNode-grow, IsAnswered-grow, IsQueued-grow, IsTimed-grow, IsAsking-grow,
}

module _ (o : Observer) {n : ℕ} (s : System o) (inv : Inv o n s) (i : ℕ) (lt : i < n) where
  open o use {Property, sent, value, sent-update, value_old, value_new}

  abbrev node : Node
  node = s.nodes i

  abbrev p : Process
  p = node.process

  v : IsNode o n s.prop i node
  v = inv.local i lt

  module _ (msg : Message) (e : node.listener ≡ acking msg) where
    abbrev m : Message
    m = new_message acknowledgment (time_of node + 1) p.me (only msg.from) msg.timestamp

    abbrev node' : Node
    node' = record node {
      process = record p { clock = record { time = time_of node + 1 } };
      listener = checking;
    }

    next : IsNext o n s.prop m
    next = record {
      sender = omega (arith, v.named);
      later = λ k b f. ground (arith, v.timed.stamped k b, v.named);
      request = λ t. cc;
      release = λ t. cc;
    }

    at_hand : IsAtHand o s.prop node.cursor (time_of node) (acking msg)
    at_hand = subst (IsAtHand o s.prop node.cursor (time_of node)) e v.answering.at_hand

    -- The new message answers the request at hand.
    answered :
        (k : ℕ)
        → k < node.cursor
        → (value (o.update s.prop m) k).msg_type ≡ request_resource
        → (value (o.update s.prop m) k).from ≢ i
        → IsAnswered o (o.update s.prop m) i k
    answered k c t f =
        let old : k < sent s.prop = omega (arith, v.read) in
        let same = value_old s.prop m k old in
        elim (ℕ_discrete k (node.cursor - 1)) [
          | no r ↦
              IsAnswered-grow o s.prop m i k old
                (v.answering.answered k (rw e (omega arith)) (rw same at t) (rw same at f))
          | yes r ↦ (
            sent s.prop,
            omega (arith, sent-update s.prop m),
            ground (arith, value_new s.prop m),
            ground (arith, value_new s.prop m, v.named),
            ground (arith, value_new s.prop m, same, at_hand.1, r),
            ground (arith, value_new s.prop m, same, at_hand.1, at_hand.2, r),
          )
        ]

    local : IsNode o n (o.update s.prop m) i node'
    unfolding now
    local = record {
      named = v.named;
      read = omega (arith, v.read, sent-update s.prop m);
      queued = IsQueued-grow o s.prop m i _ _ _ v.read (seen_by o s inv i lt (acking msg) e);
      timed =
          IsTimed-grow o s.prop m n i _ _ _ _ (λ other. absurd (other.1 v.named)) (λ _. omega arith)
            (omega arith) v.read v.timed;
      asking = IsAsking-grow o s.prop m i _ _ _ _ (λ t x. cc) (λ t x. cc) (omega arith) v.asking;
      answering = record { answered = answered; at_hand = tt };
      settled = λ q other f. cc;
      listening = (msg.from, subst (IsListening o n s.prop i node.cursor) e v.listening);
      occupies = v.occupies;
      started = v.started;
    }

    turned : IsTurn n i s.nodes node node'
    unfolding now
    turned = record {
      clock = omega arith;
      heard = heard_before o s inv i lt;
      asks = λ us r. inl r;
      wins = λ occ. inl (occ, refl);
    }

    after : System o
    after = record s { nodes = update s.nodes i node'; prop = o.update s.prop m }

    kept : Inv o n after
    unfolding after
    kept = record {
      history = grow-IsHistory o s.prop m inv.history next;
      local = λ j b. update_all (IsNode o n (o.update s.prop m)) s.nodes i node' local j (λ ne.
          IsNode-grow o s.prop m n j (s.nodes j) (λ r. ne (sym r ∙ v.named)) (λ t. cc) (λ t. cc)
            (λ other. heard_early j b ne) (inv.local j b));
      pair = IsPair-turn turned lt inv.pair;
      shared =
          IsShared-turn turned s.resource s.budget s.budget lt refl (λ _. refl) refl inv.shared;
    }
      where
        heard_early :
            (j : ℕ)
            → j < n
            → j ≢ i
            → latest (s.nodes j).process.received_time p.me < time_of node + 1
        heard_early j b ne = ground (arith, v.named, (inv.pair i j lt b (λ r. ne (sym r))).behind)

    -- A turn that answers a request: rule 2.2.
    pub ack-Progress : Progress o n (turn_ack o s i node msg)
    unfolding turn_ack acknowledge tick now after
    ack-Progress = inr (after, refl, kept)
