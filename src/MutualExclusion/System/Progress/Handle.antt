-- ===== src/MutualExclusion/System/Progress/Handle.antt =====
-- A turn in the handler of a message: rules 2.1 and 4.
use distributed_algorithms.Prelude.{
  ℕ, ◌+◌, ◌-◌, ◌<◌, ◌≡◌, ◌≢◌, ◌⊎◌, inl, inr, refl, sym, ap, ◌∙◌, subst, some, arith, ℕ_discrete,
}
use distributed_algorithms.MutualExclusion.Timestamp.{Timestamp}
use distributed_algorithms.MutualExclusion.Message.{
  MsgType, request_resource, release_resource, acknowledgment, Message,
}
use distributed_algorithms.MutualExclusion.ReceivedTime.Latest.{IsOther}
use distributed_algorithms.MutualExclusion.RequestQueue.{RequestQueue, push, remove}
use distributed_algorithms.MutualExclusion.Process.{
  Observer, Process, by_timestamp, enqueue_request, handle_release_message,
}
use distributed_algorithms.MutualExclusion.System.{
  Listener, waiting, handling, acking, checking, Node, System, done, put, turn_handle,
}
use distributed_algorithms.MutualExclusion.System.History.{IsRequest, IsRelease}
use distributed_algorithms.MutualExclusion.System.Local.{
  IsNode, IsQueued, IsListening, IsAtHand, IsAnswered, IsAnswering, handled,
}
use distributed_algorithms.MutualExclusion.System.Local.Queue.{
  skip-IsQueued, push_foreign-IsQueued, remove_foreign-IsQueued,
}
use distributed_algorithms.MutualExclusion.System.Invariant.{time_of, Inv}
use distributed_algorithms.MutualExclusion.System.Progress.{Progress}
use distributed_algorithms.MutualExclusion.System.Progress.Quiet.{
  IsQuiet, quiet-Inv, heard_before, seen_by,
}

module _ (o : Observer) {n : ℕ} (s : System o) (inv : Inv o n s) (i : ℕ) (lt : i < n) where
  open o use {Property, sent, value}

  abbrev node : Node
  node = s.nodes i

  abbrev p : Process
  p = node.process

  v : IsNode o n s.prop i node
  v = inv.local i lt

  module _ (msg : Message) (e : node.listener ≡ handling msg) where
    at_hand : (0 < node.cursor) × (value s.prop (node.cursor - 1) ≡ msg) × IsOther n i msg.from
    at_hand = subst (IsListening o n s.prop i node.cursor) e v.listening

    last : node.cursor - 1 < sent s.prop
    last = omega (arith, at_hand.0, v.read)

    whole : node.cursor - 1 + 1 ≡ node.cursor
    whole = omega (arith, at_hand.0)

    before : IsQueued o s.prop i (node.cursor - 1) p.request_queue p.request_timestamp
    before = seen_by o s inv i lt (handling msg) e

    newer : IsAtHand o s.prop node.cursor (time_of node) (handling msg)
    newer = subst (IsAtHand o s.prop node.cursor (time_of node)) e v.answering.at_hand

    answered_before :
        (k : ℕ)
        → k < node.cursor - 1
        → (value s.prop k).msg_type ≡ request_resource
        → (value s.prop k).from ≢ i
        → IsAnswered o s.prop i k
    answered_before k c = v.answering.answered k (rw e c)

    -- Only a request is to be acknowledged.
    checking-IsAnswering :
        msg.msg_type ≢ request_resource → IsAnswering o s.prop i node.cursor checking (time_of node)
    checking-IsAnswering no_request = record {
      answered = λ k c t f. elim (ℕ_discrete k (node.cursor - 1)) [
        | yes r ↦ absurd (no_request (ap (λ x. x.msg_type) (sym newer.1) ∙ rw r at t))
        | no r ↦ answered_before k (omega arith) t f
      ];
      at_hand = tt;
    }

    acking-IsAnswering : IsAnswering o s.prop i node.cursor (acking msg) (time_of node)
    acking-IsAnswering = record { answered = answered_before; at_hand = newer }

    -- The loop goes on with another queue at another place.
    abbrev moved : RequestQueue Timestamp → Listener → Node
    moved q l = record node { process = record p { request_queue = q }; listener = l }

    moved-IsQuiet :
        (q : RequestQueue Timestamp) (l : Listener)
        → IsQueued o s.prop i (handled l node.cursor) q p.request_timestamp
        → IsListening o n s.prop i node.cursor l
        → IsAnswering o s.prop i node.cursor l (time_of node)
        → l ≢ waiting
        → IsQuiet o s inv i lt (moved q l)
    moved-IsQuiet q l queued listening answering busy = record {
      local = record {
        named = v.named;
        read = v.read;
        queued = queued;
        timed = v.timed;
        asking = v.asking;
        listening = listening;
        answering = answering;
        settled = λ x other e. absurd (busy e);
        occupies = v.occupies;
        started = v.started;
      };
      clock = omega arith;
      heard = heard_before o s inv i lt;
      request = refl;
      occupying = refl;
    }

    asked : msg.msg_type ≡ request_resource → IsRequest o s.prop (node.cursor - 1) msg.timestamp
    asked t = (ground (arith, at_hand.1), ground (arith, at_hand.1))

    released : msg.msg_type ≡ release_resource → IsRelease o s.prop (node.cursor - 1) msg.timestamp
    released t = (ground (arith, at_hand.1), ground (arith, at_hand.1))

    asked_by : msg.msg_type ≡ request_resource → msg.timestamp.process ≢ i
    asked_by t = ground (
      arith,
      inv.history.requests (node.cursor - 1) msg.timestamp last (asked t),
      at_hand.1,
      at_hand.2.1,
    )

    released_by : msg.msg_type ≡ release_resource → msg.timestamp.process ≢ i
    released_by t = ground (
      arith,
      (inv.history.releases (node.cursor - 1) msg.timestamp last (released t)).0,
      at_hand.1,
      at_hand.2.1,
    )

    seen_all :
        (q : RequestQueue Timestamp)
        → IsQueued o s.prop i (node.cursor - 1 + 1) q p.request_timestamp
        → IsQueued o s.prop i node.cursor q p.request_timestamp
    seen_all q w = rw whole at w

    type_cases :
        (t : MsgType) → (t ≡ acknowledgment) ⊎ (t ≡ request_resource) ⊎ (t ≡ release_resource)
    type_cases acknowledgment = inl refl
    type_cases request_resource = inr (inl refl)
    type_cases release_resource = inr (inr refl)

    release_returns :
        (q : RequestQueue Timestamp)
        → msg.msg_type ≡ release_resource
        → remove by_timestamp p.request_queue msg.timestamp ≡ some q
        → turn_handle o s i node msg ≡ done (put o s i (moved q checking))
    unfolding turn_handle handle_release_message
    release_returns q t r = ground arith

    -- A turn in the switch on the message's type.
    pub handle-Progress : Progress o n (turn_handle o s i node msg)
    unfolding turn_handle enqueue_request handle_release_message
    handle-Progress = elim (type_cases msg.msg_type) [
      | inl ack ↦ inr (
        put o s i (moved p.request_queue checking),
        rw ack,
        quiet-Inv o s inv i lt _ (
            moved-IsQuiet p.request_queue checking
              (seen_all _ (
                skip-IsQueued o s.prop before (λ ts ne r. ground (arith, at_hand.1))
                  (λ ts ne r. ground (arith, at_hand.1))))
              (msg.from, at_hand.2) (checking-IsAnswering (λ r. cc)) (λ r. cc)),
      )
      | inr (inl t) ↦ inr (
        put o s i (moved (push by_timestamp p.request_queue msg.timestamp) (acking msg)),
        rw t,
        quiet-Inv o s inv i lt _ (
            moved-IsQuiet _ (acking msg)
              (seen_all _ (
                push_foreign-IsQueued o s.prop before inv.history last msg.timestamp (asked_by t)
                  (asked t)))
              at_hand.2 acking-IsAnswering (λ r. cc)),
      )
      | inr (inr t) ↦
          let (q, r, w) =
            remove_foreign-IsQueued o s.prop before inv.history last msg.timestamp (released_by t)
              (released t) v.asking.mine in
          inr (
            put o s i (moved q checking),
            release_returns q t r,
            quiet-Inv o s inv i lt _ (
                moved-IsQuiet q checking (seen_all _ w) (msg.from, at_hand.2)
                  (checking-IsAnswering (λ r. cc)) (λ r. cc)),
          )
    ]
