-- ===== src/MutualExclusion/Process.antt =====
-- process.go: what one process does. A section under the process's mutex is one function; what it
-- shares with the others, the resource and the broadcast property, goes in and out. A panic is
-- `none`. The property is that of the package observer, which is not part of this repository.
use distributed_algorithms.Prelude.{
  ℕ, ◌+◌, ◌<◌, ◌≡◌, Bool, true, false, not, ◌&&◌, ◌||◌, Option, none, some, ◌==◌, if◌then◌else◌,
  ◌>>=◌,
}
use distributed_algorithms.MutualExclusion.Clock.{Clock, new_clock, update, tick, now}
use distributed_algorithms.MutualExclusion.Timestamp.{
  Timestamp, new_timestamp, less, is_equal, is_before,
}
use distributed_algorithms.MutualExclusion.Message.{
  MsgType, request_resource, release_resource, acknowledgment, Receiver, others, only, Message,
  new_message,
}
use distributed_algorithms.MutualExclusion.ReceivedTime.{
  ReceivedTime, new_received_time, update_time, min_time,
}
use distributed_algorithms.MutualExclusion.RequestQueue.{
  Less, RequestQueue, new_request_queue, push, remove, min,
}
use distributed_algorithms.MutualExclusion.Resource.{Resource, occupy, release, done}

-- The package observer: a property to which values are written, and streams that read them all in
-- the order in which they were written. `value` gives the value of the k-th Update.
pub record Observer : Type 1 where
  pub Property : Type 0
  pub empty : Property
  pub update : Property → Message → Property
  pub sent : Property → ℕ
  pub value : Property → ℕ → Message
  pub sent-empty : sent empty ≡ 0
  pub sent-update : (p : Property) (m : Message) → sent (update p m) ≡ sent p + 1
  pub value_old :
      (p : Property) (m : Message) (k : ℕ) → k < sent p → value (update p m) k ≡ value p k
  pub value_new : (p : Property) (m : Message) → value (update p m) (sent p) ≡ m

-- Requests are compared by Less. The keys of requestOf are pointers to timestamps: no two requests
-- of a run have equal timestamps, so equality of the values stands for that of the pointers.
abbrev pub by_timestamp : Less Timestamp
by_timestamp = record { less = less; same = λ a b. is_equal a (some b) }

pub record Process : Type 0 where
  pub me : ℕ
  pub wg : ℕ
  pub clock : Clock
  pub received_time : ReceivedTime
  pub request_queue : RequestQueue Timestamp
  pub is_occupying : Bool
  pub request_timestamp : Option Timestamp

unfoldable pub new_process : ℕ → ℕ → ℕ → Process
new_process all me random = record {
  me = me;
  wg = 0;
  clock = new_clock random;
  received_time = new_received_time all me;
  request_queue = new_request_queue by_timestamp (new_timestamp 0 0);
  is_occupying = false;
  request_timestamp = none;
}

-- `msg.to != p.me`
unfoldable pub is_to : Receiver → ℕ → Bool
is_to others i = false
is_to (only j) i = j == i

unfoldable pub is_ack : MsgType → Bool
is_ack acknowledgment = true
is_ack _ = false

-- The messages that Listening skips.
unfoldable pub ignores : Process → Message → Bool
unfolding is_to is_ack
ignores p msg = (msg.from == p.me) || (is_ack msg.msg_type && not (is_to msg.to p.me))

unfoldable pub hear_time : Process → ℕ → ℕ → Option Process
hear_time p from time = do
  rt ← update_time p.received_time from time
  some (record p { clock = update p.clock time; received_time = rt })

-- handleRequestMessage, rule 2.1: under the queue's own lock.
unfoldable pub enqueue_request : Process → Message → Process
enqueue_request p msg = record p { request_queue = push by_timestamp p.request_queue msg.timestamp }

-- handleReleaseMessage, rule 4.
unfoldable pub handle_release_message : Process → Message → Option Process
handle_release_message p msg = do
  queue ← remove by_timestamp p.request_queue msg.timestamp
  some (record p { request_queue = queue })

-- `requestTimestamp.IsEqual(requestQueue.Min())`, then rule 5.2; Min of no time panics.
unfoldable pub is_first : Process → Timestamp → Option Bool
is_first p ts =
    if is_equal ts (min by_timestamp p.request_queue)
    then (do t ← min_time p.received_time; some (is_before ts t))
    else some false

unfoldable pub is_satisfied_rule5 : Process → Option Bool
unfolding is_first
is_satisfied_rule5 p = elim p.request_timestamp [
  | none ↦ some false
  | some ts ↦ if p.is_occupying then some false else is_first p ts
]

-- The nil timestamp would panic in Occupy's Less.
unfoldable pub occupy_resource : Process → Resource → ℕ → Option (Process × Resource)
occupy_resource p r instant = elim p.request_timestamp [
  | none ↦ none
  | some ts ↦ elim (occupy r ts instant) [
    | none ↦ none
    | some r' ↦ some (record p { is_occupying = true }, r')
  ]
]

-- checkRule5; the Boolean says whether a goroutine with releaseResource was started.
unfoldable pub check_rule5 : Process → Resource → ℕ → Option (Process × Resource × Bool)
unfolding is_satisfied_rule5 occupy_resource
check_rule5 p r instant = elim (is_satisfied_rule5 p) [
  | none ↦ none
  | some false ↦ some (p, r, false)
  | some true ↦ elim (occupy_resource p r instant) [
    | none ↦ none
    | some (p', r') ↦ some (p', r', true)
  ]
]

module _ (o : Observer) where
  -- handleRequestMessage, rule 2.2.
  unfoldable pub acknowledge : Process → Message → o.Property → Process × o.Property
  acknowledge p msg prop =
      let (t, c) = tick p.clock in
      (
        record p { clock = c },
        o.update prop (new_message acknowledgment t p.me (only msg.from) msg.timestamp),
      )

  -- The part of releaseResource after the release of the resource.
  unfoldable pub announce_release : Process → Timestamp → o.Property → Option (Process × o.Property)
  announce_release p ts prop = elim (remove by_timestamp p.request_queue ts) [
    | none ↦ none
    | some queue ↦
        let (t, c) = tick p.clock in
        elim (done p.wg) [
          | none ↦ none
          | some wg ↦ some (
            record p {
              wg = wg;
              clock = c;
              request_queue = queue;
              is_occupying = false;
              request_timestamp = none;
            },
            o.update prop (new_message release_resource t p.me others ts),
          )
        ]
  ]

  unfoldable pub release_resource_of :
      Process → Resource → o.Property → ℕ → Option (Process × Resource × o.Property)
  unfolding announce_release
  release_resource_of p r prop instant = elim p.request_timestamp [
    | none ↦ none
    | some ts ↦ elim (release r ts instant) [
      | none ↦ none
      | some r' ↦ elim (announce_release p ts prop) [
        | none ↦ none
        | some (p', prop') ↦ some (p', r', prop')
      ]
    ]
  ]

  -- Request after `wg.Wait()`.
  unfoldable pub request : Process → o.Property → Process × o.Property
  request p prop =
      let c = (tick p.clock).1 in
      let ts = new_timestamp (now c) p.me in
      (
        record p {
          wg = p.wg + 1;
          clock = c;
          request_queue = push by_timestamp p.request_queue ts;
          request_timestamp = some ts;
        },
        o.update prop (new_message request_resource (now c) p.me others ts),
      )
