-- ===== src/MutualExclusion/System/Local.antt =====
-- What holds of one process in every reachable state, against the messages broadcast so far.
pub mod Grow
pub mod Queue
use distributed_algorithms.Prelude.{
  ℕ, zero, suc, ◌+◌, ◌-◌, ◌≤◌, ◌<◌, ◌≡◌, ◌≢◌, Bool, true, false, Option, none, some,
}
use distributed_algorithms.MutualExclusion.Clock.{now}
use distributed_algorithms.MutualExclusion.Timestamp.{Timestamp}
use distributed_algorithms.MutualExclusion.Message.{Message, request_resource, acknowledgment, only}
use distributed_algorithms.MutualExclusion.ReceivedTime.{ReceivedTime}
use distributed_algorithms.MutualExclusion.ReceivedTime.Latest.{latest, IsOther}
use distributed_algorithms.MutualExclusion.ReceivedTime
use distributed_algorithms.MutualExclusion.RequestQueue.{RequestQueue}
use distributed_algorithms.MutualExclusion.RequestQueue.Contents.{contains}
use distributed_algorithms.MutualExclusion.RequestQueue
use distributed_algorithms.MutualExclusion.Process.{
  Observer, Process, by_timestamp, is_satisfied_rule5,
}
use distributed_algorithms.MutualExclusion.System.{
  Listener, waiting, handling, acking, checking, Node,
}
use distributed_algorithms.MutualExclusion.System.History.{Requested, Unreleased}

-- How many messages the request queue has seen.
abbrev pub handled : Listener → ℕ → ℕ
handled (handling _) cursor = cursor - 1
handled _ cursor = cursor

-- How many messages have been acknowledged where that is due.
abbrev pub acked : Listener → ℕ → ℕ
acked (handling _) cursor = cursor - 1
acked (acking _) cursor = cursor - 1
acked _ cursor = cursor

abbrev pub pending : Option Timestamp → ℕ
pending none = 0
pending (some _) = 1

abbrev pub count : Bool → ℕ
count false = 0
count true = 1

-- An acknowledgment counts for the process that it is sent to.
abbrev pub IsHeeded : ℕ → Message → Type 0
IsHeeded me m = m.msg_type ≡ acknowledgment → m.to ≡ only me

module _ (o : Observer) where
  open o use {Property, sent, value}

  -- The queue holds the own request, and the others' requests that it has seen and whose release
  -- it has not seen; a request that it has seen is there until its release.
  pub record IsQueued (h : Property) (me seen : ℕ) (q : RequestQueue Timestamp)
      (req : Option Timestamp) : Type 0 where
    pub valid : RequestQueue.Contents.IsValid by_timestamp q
    pub enqueued :
        (ts : Timestamp)
        → ts.process ≢ me
        → Requested o h seen ts
        → Unreleased o h seen ts
        → contains q ts ≡ true
    pub foreign : (ts : Timestamp) → ts.process ≢ me → contains q ts ≡ true → Requested o h seen ts
    pub unreleased :
        (ts : Timestamp) → ts.process ≢ me → contains q ts ≡ true → Unreleased o h seen ts
    pub own : (ts : Timestamp) → ts.process ≡ me → contains q ts ≡ true → req ≡ some ts
    pub own_in : (ts : Timestamp) → req ≡ some ts → contains q ts ≡ true

  -- What has been received is older than what has not, and than the own clock; no message that
  -- counts is passed over; the own messages are not from the future.
  pub record IsTimed (n : ℕ) (h : Property) (me cursor : ℕ) (rt : ReceivedTime) (time : ℕ)
      : Type 0 where
    pub valid : ReceivedTime.Latest.IsValid n me rt
    pub unread :
        (i k : ℕ)
        → IsOther n me i
        → cursor ≤ k
        → k < sent h
        → (value h k).from ≡ i
        → latest rt i < (value h k).msg_time
    pub noted :
        (i k : ℕ)
        → IsOther n me i
        → k < cursor
        → (value h k).from ≡ i
        → IsHeeded me (value h k)
        → (value h k).msg_time ≤ latest rt i
    pub passed : (i : ℕ) → IsOther n me i → latest rt i ≤ time
    pub stamped : (k : ℕ) → k < sent h → (value h k).from ≡ me → (value h k).msg_time ≤ time

  -- The own request is the one that has been sent and has not been released.
  pub record IsAsking (h : Property) (me : ℕ) (req : Option Timestamp) (time wg : ℕ) : Type 0 where
    pub waits : wg ≡ pending req
    pub mine : (ts : Timestamp) → req ≡ some ts → ts.process ≡ me
    pub past : (ts : Timestamp) → req ≡ some ts → ts.time ≤ time
    pub broadcast : (ts : Timestamp) → req ≡ some ts → Requested o h (sent h) ts
    pub held : (ts : Timestamp) → req ≡ some ts → Unreleased o h (sent h) ts
    pub only_one :
        (ts : Timestamp)
        → ts.process ≡ me
        → Requested o h (sent h) ts
        → Unreleased o h (sent h) ts
        → req ≡ some ts

  -- The message at hand is the last one read, from another process.
  abbrev pub IsListening : ℕ → Property → ℕ → ℕ → Listener → Type 0
  IsListening n h me cursor waiting = Unit
  IsListening n h me cursor (handling m) =
      (0 < cursor) × (value h (cursor - 1) ≡ m) × IsOther n me m.from
  IsListening n h me cursor (acking m) = IsOther n me m.from
  IsListening n h me cursor checking = (i : ℕ) × IsOther n me i

  -- The k-th message, a request by another process, has been acknowledged later.
  abbrev pub IsAnswered : Property → ℕ → ℕ → Type 0
  IsAnswered h me k =
      (j : ℕ) × (j < sent h)
      × ((value h j).msg_type ≡ acknowledgment)
      × ((value h j).from ≡ me)
      × ((value h j).to ≡ only (value h k).from)
      × ((value h k).msg_time < (value h j).msg_time)

  -- The message at hand is older than the own clock.
  abbrev pub IsAtHand : Property → ℕ → ℕ → Listener → Type 0
  IsAtHand h cursor time (handling m) =
      (0 < cursor) × (value h (cursor - 1) ≡ m) × (m.msg_time < time)
  IsAtHand h cursor time (acking m) =
      (0 < cursor) × (value h (cursor - 1) ≡ m) × (m.msg_time < time)
  IsAtHand h cursor time _ = Unit

  -- All requests of the others have been acknowledged, but for the one at hand.
  pub record IsAnswering (h : Property) (me cursor : ℕ) (l : Listener) (time : ℕ) : Type 0 where
    pub answered :
        (k : ℕ)
        → k < acked l cursor
        → (value h k).msg_type ≡ request_resource
        → (value h k).from ≢ me
        → IsAnswered h me k
    pub at_hand : IsAtHand h cursor time l

  pub record IsNode (n : ℕ) (h : Property) (me : ℕ) (node : Node) : Type 0 where
    pub named : node.process.me ≡ me
    pub read : node.cursor ≤ sent h
    pub queued :
        IsQueued h me
          (handled node.listener node.cursor)
          node.process.request_queue
          node.process.request_timestamp
    pub timed : IsTimed n h me node.cursor node.process.received_time (now node.process.clock)
    pub asking :
        IsAsking h me node.process.request_timestamp (now node.process.clock) node.process.wg
    pub listening : IsListening n h me node.cursor node.listener
    pub answering : IsAnswering h me node.cursor node.listener (now node.process.clock)
    pub settled :
        (q : ℕ)
        → IsOther n me q
        → node.listener ≡ waiting
        → node.process.is_occupying ≡ false
        → is_satisfied_rule5 node.process ≡ some false
    pub occupies :
        node.process.is_occupying ≡ true
        → (ts : Timestamp) × (node.process.request_timestamp ≡ some ts)
    pub started : node.releasing ≡ count node.process.is_occupying
