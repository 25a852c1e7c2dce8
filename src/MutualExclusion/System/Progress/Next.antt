-- ===== src/MutualExclusion/System/Progress/Next.antt =====
-- A turn at stream.Next: the loop skips a message, or takes note of its time.
use distributed_algorithms.Prelude.{
  ℕ, ◌+◌, ◌-◌, ◌≤◌, ◌<◌, ◌≡◌, ◌≢◌, inl, inr, refl, sym, subst, true, false, ltb, arith, Bool-cases,
  ℕ_discrete,
}
use distributed_algorithms.MutualExclusion.Clock.{Clock, now, max}
use distributed_algorithms.MutualExclusion.Clock
use distributed_algorithms.MutualExclusion.Timestamp.{Timestamp}
use distributed_algorithms.MutualExclusion.Message.{
  Message, MsgType, acknowledgment, request_resource, release_resource,
}
use distributed_algorithms.MutualExclusion.ReceivedTime.{ReceivedTime}
use distributed_algorithms.MutualExclusion.ReceivedTime.Latest.{
  IsOther, IsUpdated, update_other_process,
}
use distributed_algorithms.MutualExclusion.Process.{
  Observer, Process, ignores, is_ack, is_to, hear_time,
}
use distributed_algorithms.MutualExclusion.System.{
  Listener, waiting, handling, Node, System, put, turn_next,
}
use distributed_algorithms.MutualExclusion.System.History.{IsRequest, IsRelease}
use distributed_algorithms.MutualExclusion.System.Local.{
  IsNode, IsQueued, IsTimed, IsListening, IsHeeded, IsAnswered, IsAnswering, handled,
}
use distributed_algorithms.MutualExclusion.System.Local.Queue.{skip-IsQueued}
use distributed_algorithms.MutualExclusion.System.Invariant.{time_of, Inv}
use distributed_algorithms.MutualExclusion.System.Progress.{Progress}
use distributed_algorithms.MutualExclusion.System.Progress.Quiet.{
  IsQuiet, quiet-Inv, heard_before, seen_by,
}

last_read : (c : ℕ) → c + 1 - 1 ≡ c
last_read c = omega arith

is_ack_lem : (t : MsgType) → is_ack t ≡ true → t ≡ acknowledgment
unfolding is_ack
is_ack_lem acknowledgment h = refl
is_ack_lem request_resource h = cc
is_ack_lem release_resource h = cc

module _ (o : Observer) {n : ℕ} (s : System o) (inv : Inv o n s) (i : ℕ) (lt : i < n) where
  open o use {Property, sent, value}

  abbrev node : Node
  node = s.nodes i

  abbrev p : Process
  p = node.process

  v : IsNode o n s.prop i node
  v = inv.local i lt

  module _ (idle : node.listener ≡ waiting) (b : node.cursor < sent s.prop) where
    abbrev msg : Message
    msg = value s.prop node.cursor

    skipped : Node
    skipped = record node { cursor = node.cursor + 1 }

    not_asked :
        ignores p msg ≡ true
        → (ts : Timestamp) → ts.process ≢ i
        → ¬ (IsRequest o s.prop node.cursor ts)
    unfolding ignores
    not_asked skip ts ne r = ground (arith, inv.history.requests node.cursor ts b r, v.named)

    not_released :
        ignores p msg ≡ true
        → (ts : Timestamp) → ts.process ≢ i
        → ¬ (IsRelease o s.prop node.cursor ts)
    unfolding ignores
    not_released skip ts ne r = ground (arith, (inv.history.releases node.cursor ts b r).0, v.named)

    passed_over : ignores p msg ≡ true → (j : ℕ) → IsOther n i j → msg.from ≡ j → ¬ (IsHeeded i msg)
    unfolding ignores is_ack is_to
    passed_over skip j other f heed =
        let ack : is_ack msg.msg_type ≡ true = ground (arith, v.named, other) in
        ground (arith, v.named, other, heed (is_ack_lem msg.msg_type ack))

    skipped-IsQueued :
        (l : Listener)
        → l ≡ waiting
        → ignores p msg ≡ true
        → IsQueued o s.prop i (handled l (node.cursor + 1)) p.request_queue p.request_timestamp
    skipped-IsQueued l e skip =
        subst
          (λ x.
            IsQueued o s.prop i (handled x (node.cursor + 1)) p.request_queue p.request_timestamp)
          (sym e)
          (skip-IsQueued o s.prop (seen_by o s inv i lt waiting idle) (not_asked skip)
            (not_released skip))

    answered_before :
        (k : ℕ)
        → k < node.cursor
        → (value s.prop k).msg_type ≡ request_resource
        → (value s.prop k).from ≢ i
        → IsAnswered o s.prop i k
    answered_before k c = v.answering.answered k (rw idle c)

    skipped_answered :
        ignores p msg ≡ true
        → (k : ℕ) → k < node.cursor + 1
        → (value s.prop k).msg_type ≡ request_resource
        → (value s.prop k).from ≢ i
        → IsAnswered o s.prop i k
    unfolding ignores is_ack
    skipped_answered skip k c t f = elim (ℕ_discrete k node.cursor) [
      | yes r ↦ absurd (ground (arith, v.named, rw r at t, rw r at f))
      | no r ↦ answered_before k (omega arith) t f
    ]

    skipped-IsQuiet : ignores p msg ≡ true → IsQuiet o s inv i lt skipped
    unfolding skipped
    skipped-IsQuiet skip = record {
      local = record {
        named = v.named;
        read = omega arith;
        queued = skipped-IsQueued node.listener idle skip;
        timed = record {
          valid = v.timed.valid;
          unread = λ j k other c. v.timed.unread j k other (omega arith);
          noted = λ j k other c f heed. elim (ℕ_discrete k node.cursor) [
            | yes r ↦ absurd (passed_over skip j other (rw r at f) (rw r at heed))
            | no r ↦ v.timed.noted j k other (omega arith) f heed
          ];
          passed = v.timed.passed;
          stamped = v.timed.stamped;
        };
        asking = v.asking;
        listening = subst (IsListening o n s.prop i (node.cursor + 1)) (sym idle) tt;
        answering =
            subst (λ l. IsAnswering o s.prop i (node.cursor + 1) l (time_of node)) (sym idle)
              (record { answered = skipped_answered skip; at_hand = tt });
        settled = v.settled;
        occupies = v.occupies;
        started = v.started;
      };
      clock = omega arith;
      heard = heard_before o s inv i lt;
      request = refl;
      occupying = refl;
    }

    module _ (rt : ReceivedTime) (other : IsOther n i msg.from)
        (w : IsUpdated p.received_time v.timed.valid msg.from msg.msg_time rt) where
      abbrev heard_process : Process
      heard_process = record p { clock = Clock.update p.clock msg.msg_time; received_time = rt }

      abbrev heard_node : Node
      heard_node = record node {
        process = heard_process;
        listener = handling msg;
        cursor = node.cursor + 1;
      }

      clock_le : time_of node ≤ now (Clock.update p.clock msg.msg_time)
      unfolding now Clock.update max
      clock_le = ground arith

      clock_lt : msg.msg_time < now (Clock.update p.clock msg.msg_time)
      unfolding now Clock.update max
      clock_lt = ground arith

      heard-IsTimed :
          IsTimed o n s.prop i (node.cursor + 1) rt (now (Clock.update p.clock msg.msg_time))
      heard-IsTimed = record {
        valid = w.valid;
        unread = λ j k x c d f. ground (
          arith,
          w.newest j,
          v.timed.unread j k x (omega arith) d f,
          inv.history.ordered node.cursor k (omega arith) d,
        );
        noted = λ j k x c f heed. elim (ℕ_discrete k node.cursor) [
          | yes r ↦ ground (arith, w.newest j, r, f)
          | no r ↦ ground (
            arith,
            w.newest j,
            v.timed.noted j k x (omega arith) f heed,
            inv.history.ordered k node.cursor (omega arith) b,
          )
        ];
        passed = λ j x. ground (arith, w.newest j, clock_le, clock_lt, v.timed.passed j x);
        stamped = λ k c f. omega (arith, clock_le, v.timed.stamped k c f);
      }

      heard-IsQuiet : IsQuiet o s inv i lt heard_node
      heard-IsQuiet = record {
        local = record {
          named = v.named;
          read = omega arith;
          queued = rw (last_read node.cursor) (seen_by o s inv i lt waiting idle);
          timed = heard-IsTimed;
          asking = record {
            waits = v.asking.waits;
            mine = v.asking.mine;
            past = λ ts e. omega (arith, clock_le, v.asking.past ts e);
            broadcast = v.asking.broadcast;
            held = v.asking.held;
            only_one = v.asking.only_one;
          };
          listening = (omega arith, rw (last_read node.cursor), other);
          answering = record {
            answered = λ k c. answered_before k (omega arith);
            at_hand = (omega arith, rw (last_read node.cursor), clock_lt);
          };
          settled = λ q x e. cc;
          occupies = v.occupies;
          started = v.started;
        };
        clock = clock_le;
        heard = λ j x. ground (
          arith,
          w.newest j,
          heard_before o s inv i lt j x,
          (inv.local j x.0).timed.stamped node.cursor b,
        );
        request = refl;
        occupying = refl;
      }

    hears : ignores p msg ≡ false → IsOther n i msg.from
    unfolding ignores
    hears h = (inv.history.senders node.cursor b, ground (arith, v.named))

  -- A turn at stream.Next.
  pub next-Progress : node.listener ≡ waiting → Progress o n (turn_next o s i node)
  unfolding turn_next hear_time
  next-Progress idle = elim (Bool-cases (ltb node.cursor (sent s.prop))) [
    | inr drained ↦ inl (rw drained)
    | inl more ↦
        let b : node.cursor < sent s.prop = ground arith in
        elim (Bool-cases (ignores p (value s.prop node.cursor))) [
          | inl skip ↦ inr (
            put o s i (skipped idle b),
            unfold skipped in rw (more, skip),
            quiet-Inv o s inv i lt _ (skipped-IsQuiet idle b skip),
          )
          | inr keep ↦
              let other = hears idle b keep in
              let (rt, w) =
                update_other_process p.received_time v.timed.valid _
                  (value s.prop node.cursor).msg_time other in
              inr (
                put o s i (heard_node idle b rt other w),
                rw (more, keep) (rw w.returns),
                quiet-Inv o s inv i lt _ (heard-IsQuiet idle b rt other w),
              )
        ]
  ]
