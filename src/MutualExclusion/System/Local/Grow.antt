-- ===== src/MutualExclusion/System/Local/Grow.antt =====
-- A new message leaves alone what holds of the processes that did not send it.
use distributed_algorithms.Prelude.{
  ℕ, ◌-◌, ◌≤◌, ◌<◌, ◌≡◌, ◌≢◌, inl, inr, sym, ◌∙◌, Option, some, arith,
}
use distributed_algorithms.MutualExclusion.Timestamp.{Timestamp}
use distributed_algorithms.MutualExclusion.Message.{Message, request_resource, release_resource}
use distributed_algorithms.MutualExclusion.ReceivedTime.{ReceivedTime}
use distributed_algorithms.MutualExclusion.ReceivedTime.Latest.{latest, IsOther}
use distributed_algorithms.MutualExclusion.RequestQueue.{RequestQueue}
use distributed_algorithms.MutualExclusion.Process.{Observer}
use distributed_algorithms.MutualExclusion.System.{
  Listener, waiting, handling, acking, checking, Node,
}
use distributed_algorithms.MutualExclusion.System.History.{
  value_cases, Requested-grow, Requested-shrink, Unreleased-shrink, Unreleased-grow,
}
use distributed_algorithms.MutualExclusion.System.Local.{
  handled, acked, IsQueued, IsTimed, IsAsking, IsListening, IsAtHand, IsAnswered, IsAnswering,
  IsNode,
}

pub handled-le : (l : Listener) (c : ℕ) → handled l c ≤ c
handled-le waiting c = omega arith
handled-le (handling x) c = omega arith
handled-le (acking x) c = omega arith
handled-le checking c = omega arith

pub acked-le : (l : Listener) (c : ℕ) → acked l c ≤ c
acked-le waiting c = omega arith
acked-le (handling x) c = omega arith
acked-le (acking x) c = omega arith
acked-le checking c = omega arith

module _ (o : Observer) (h : o.Property) (m : Message) where
  open o use {Property, sent, value, update, sent-update, value_old, value_new}

  pub IsQueued-grow :
      (me seen : ℕ) (q : RequestQueue Timestamp) (req : Option Timestamp)
      → seen ≤ sent h
      → IsQueued o h me seen q req
      → IsQueued o (update h m) me seen q req
  IsQueued-grow me seen q req le v = record {
    valid = v.valid;
    enqueued = λ ts ne r u.
        v.enqueued ts ne (Requested-shrink o h m seen ts le r)
          (Unreleased-shrink o h m seen ts le u);
    foreign = λ ts ne c. Requested-grow o h m seen ts le (v.foreign ts ne c);
    unreleased = λ ts ne c. Unreleased-grow o h m seen ts le (v.unreleased ts ne c);
    own = v.own;
    own_in = v.own_in;
  }

  pub IsTimed-grow :
      (n me cursor : ℕ) (rt : ReceivedTime) (time time' : ℕ)
      → (IsOther n me m.from → latest rt m.from < m.msg_time)
      → (m.from ≡ me → m.msg_time ≤ time')
      → time ≤ time'
      → cursor ≤ sent h
      → IsTimed o n h me cursor rt time
      → IsTimed o n (update h m) me cursor rt time'
  IsTimed-grow n me cursor rt time time' new own le b v = record {
    valid = v.valid;
    unread = λ i k other c b f. elim (value_cases o h m k b) [
      | inl (old, e) ↦ rw e (v.unread i k other c old (rw e at f))
      | inr (last, e) ↦ let g : m.from ≡ i = rw e at f in rw (e, ← g) (new (rw (← g) at other))
    ];
    noted = λ i k other c f heed.
        let e = value_old h m k (omega arith) in
        rw e (v.noted i k other c (rw e at f) (rw e at heed));
    passed = λ i other. omega (arith, v.passed i other);
    stamped = λ k b f. elim (value_cases o h m k b) [
      | inl (old, e) ↦ ground (arith, e, v.stamped k old)
      | inr (last, e) ↦ ground (arith, e, own)
    ];
  }

  pub IsAsking-grow :
      (me : ℕ) (req : Option Timestamp) (time time' wg : ℕ)
      → (m.msg_type ≡ release_resource → req ≢ some m.timestamp)
      → (m.msg_type ≡ request_resource → m.timestamp.process ≢ me)
      → time ≤ time'
      → IsAsking o h me req time wg
      → IsAsking o (update h m) me req time' wg
  IsAsking-grow me req time time' wg keep foreign le v = record {
    waits = v.waits;
    mine = v.mine;
    past = λ ts e. omega (arith, v.past ts e);
    broadcast = λ ts e.
        let (k, b, r) = v.broadcast ts e in
        (k, omega (arith, sent-update h m), rw (value_old h m k b) r);
    held = λ ts e k b r. elim (value_cases o h m k b) [
      | inl (old, f) ↦ v.held ts e k old (rw f at r)
      | inr (last, f) ↦ keep (rw f at r.0) (ground (arith, f))
    ];
    only_one = λ ts e (k, b, r) u. elim (value_cases o h m k b) [
      | inl (old, f) ↦
          v.only_one ts e (k, old, rw f at r)
            (Unreleased-shrink o h m (sent h) ts (omega arith)
              (λ j c. u j (omega (arith, sent-update h m))))
      | inr (last, f) ↦ absurd (foreign (rw f at r.0) (ground (arith, f)))
    ];
  }

  pub IsListening-grow :
      (n me cursor : ℕ) (l : Listener)
      → cursor ≤ sent h
      → IsListening o n h me cursor l
      → IsListening o n (update h m) me cursor l
  IsListening-grow n me cursor waiting le v = v
  IsListening-grow n me cursor (handling x) le (a, b, c) =
      (a, value_old h m (cursor - 1) (omega arith) ∙ b, c)
  IsListening-grow n me cursor (acking x) le v = v
  IsListening-grow n me cursor checking le v = v

  IsAtHand-grow :
      (cursor time time' : ℕ) (l : Listener)
      → cursor ≤ sent h
      → time ≤ time'
      → IsAtHand o h cursor time l
      → IsAtHand o (update h m) cursor time' l
  IsAtHand-grow cursor time time' waiting b le v = v
  IsAtHand-grow cursor time time' (handling x) b le (p, q, r) =
      (p, value_old h m (cursor - 1) (omega arith) ∙ q, omega arith)
  IsAtHand-grow cursor time time' (acking x) b le (p, q, r) =
      (p, value_old h m (cursor - 1) (omega arith) ∙ q, omega arith)
  IsAtHand-grow cursor time time' checking b le v = v

  pub IsAnswered-grow :
      (me k : ℕ) → k < sent h → IsAnswered o h me k → IsAnswered o (update h m) me k
  IsAnswered-grow me k b (j, c, t, f, d, l) =
      let p = value_old h m j c in
      let q = value_old h m k b in
      (j, omega (arith, sent-update h m), rw p t, rw p f, rw (p, q) d, rw (p, q) l)

  pub IsAnswering-grow :
      (me cursor : ℕ) (l : Listener) (time time' : ℕ)
      → cursor ≤ sent h
      → time ≤ time'
      → IsAnswering o h me cursor l time
      → IsAnswering o (update h m) me cursor l time'
  IsAnswering-grow me cursor l time time' b le v = record {
    answered = λ k c t f.
        let old : k < sent h = omega (arith, acked-le l cursor) in
        let e = value_old h m k old in
        IsAnswered-grow me k old (v.answered k c (rw e at t) (rw e at f));
    at_hand = IsAtHand-grow cursor time time' l b le v.at_hand;
  }

  -- Another process sent the message.
  pub IsNode-grow :
      (n me : ℕ) (node : Node)
      → m.from ≢ me
      → (m.msg_type ≡ release_resource → m.timestamp.process ≡ m.from)
      → (m.msg_type ≡ request_resource → m.timestamp.process ≡ m.from)
      → (IsOther n me m.from → latest node.process.received_time m.from < m.msg_time)
      → IsNode o n h me node
      → IsNode o n (update h m) me node
  IsNode-grow n me node ne signed asked new v = record {
    named = v.named;
    read = omega (arith, v.read, sent-update h m);
    queued =
        IsQueued-grow me _ _ _ (omega (arith, v.read, handled-le node.listener node.cursor))
          v.queued;
    timed = IsTimed-grow n me _ _ _ _ new (λ e. absurd (ne e)) (omega arith) v.read v.timed;
    asking =
        IsAsking-grow me _ _ _ _ (λ t e. ne (sym (signed t) ∙ v.asking.mine m.timestamp e))
          (λ t e. ne (sym (asked t) ∙ e)) (omega arith) v.asking;
    listening = IsListening-grow n me _ node.listener v.read v.listening;
    answering = IsAnswering-grow me _ node.listener _ _ v.read (omega arith) v.answering;
    settled = v.settled;
    occupies = v.occupies;
    started = v.started;
  }
