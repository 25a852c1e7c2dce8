-- ===== src/MutualExclusion/System.antt =====
-- The goroutines of a run, process.go: each process has the listening loop of Listening, callers
-- of Request, and the goroutine that checkRule5 starts. They interleave in any order. A step is a
-- section under a process's mutex, or a call of its request queue between two such sections. `n`
-- processes share a resource for `times` occupations, as newResource(times) has it, and make at
-- most as many requests.
pub mod History
pub mod Local
pub mod Invariant
pub mod Progress
pub mod Reachable
pub mod Safety
pub mod Quiescence
pub mod Termination
pub mod Completion
use distributed_algorithms.Prelude.{
  ℕ, zero, suc, ◌+◌, ◌-◌, ◌≤◌, ◌<◌, ◌≡◌, ◌≢◌, Bool, true, false, Option, none, some, ltb, ◌==◌,
  ◌&&◌, ◌||◌, if◌then◌else◌, update,
}
use distributed_algorithms.MutualExclusion.Message.{
  MsgType, request_resource, release_resource, acknowledgment, Message,
}
use distributed_algorithms.MutualExclusion.Resource.{Resource, new_resource}
use distributed_algorithms.MutualExclusion.Process.{
  Observer, Process, new_process, ignores, hear_time, enqueue_request, handle_release_message,
  check_rule5, acknowledge, release_resource_of, request,
}

-- Where the listening loop of a process stands: at stream.Next, before the handler of a message,
-- between the two parts of handleRequestMessage, before checkRule5.
pub data Listener : Type 0 where
  waiting : Listener
  handling : Message → Listener
  acking : Message → Listener
  checking : Listener

pub record Node : Type 0 where
  pub process : Process
  pub listener : Listener
  pub cursor : ℕ  -- how many values the stream has returned
  pub releasing : ℕ  -- goroutines with releaseResource that have been started

-- One turn of a goroutine: it waits, it panics, or it is done.
pub data Outcome {ℓ} (A : Type ℓ) : Type ℓ where
  blocked panic : Outcome A
  done : A → Outcome A

pub data Action : Type 0 where
  requests listens releases : Action

module _ (o : Observer) where
  pub record System : Type 0 where
    pub nodes : ℕ → Node
    pub prop : o.Property
    pub resource : Resource
    pub budget : ℕ

  -- `random i` is the random number of the clock of process `i`.
  unfoldable pub init : ℕ → ℕ → (ℕ → ℕ) → System
  init n times random = record {
    nodes = λ i. record {
      process = new_process n i (random i);
      listener = waiting;
      cursor = 0;
      releasing = 0;
    };
    prop = o.empty;
    resource = new_resource times;
    budget = times;
  }

  abbrev pub put : System → ℕ → Node → System
  put s i node = record s { nodes = update s.nodes i node }

  -- Request blocks in `wg.Wait` while an earlier request is under way.
  unfoldable pub turn_request : System → ℕ → Node → Outcome System
  turn_request s i node =
      if (node.process.wg == 0) && ltb 0 s.budget
      then (let (p, prop) = request o node.process s.prop in
          done (record s {
            nodes = update s.nodes i (record node { process = p });
            prop = prop;
            budget = s.budget - 1;
          }))
      else blocked

  -- The end of the loop's body up to the handler.
  unfoldable pub turn_next : System → ℕ → Node → Outcome System
  turn_next s i node =
      let msg = o.value s.prop node.cursor in
      let read = record node { cursor = node.cursor + 1 } in
      if ltb node.cursor (o.sent s.prop)
      then (if ignores node.process msg
          then done (put s i read)
          else elim (hear_time node.process msg.from msg.msg_time) [
            | none ↦ panic
            | some p ↦ done (put s i (record read { process = p; listener = handling msg }))
          ])
      else blocked

  -- The switch on the message's type.
  unfoldable pub turn_handle : System → ℕ → Node → Message → Outcome System
  turn_handle s i node msg = elim (msg.msg_type) [
    | acknowledgment ↦ done (put s i (record node { listener = checking }))
    | request_resource ↦ done (
        put s i (record node { process = enqueue_request node.process msg; listener = acking msg }))
    | release_resource ↦ elim (handle_release_message node.process msg) [
      | none ↦ panic
      | some p ↦ done (put s i (record node { process = p; listener = checking }))
    ]
  ]

  unfoldable pub turn_ack : System → ℕ → Node → Message → Outcome System
  turn_ack s i node msg =
      let (p, prop) = acknowledge o node.process msg s.prop in
      done (record s {
        nodes = update s.nodes i (record node { process = p; listener = checking });
        prop = prop;
      })

  unfoldable pub turn_check : System → ℕ → Node → ℕ → Outcome System
  turn_check s i node instant = elim (check_rule5 node.process s.resource instant) [
    | none ↦ panic
    | some (p, r, started) ↦ done (record s {
      nodes = update s.nodes i (record node {
        process = p;
        listener = waiting;
        releasing = if started then node.releasing + 1 else node.releasing;
      });
      resource = r;
    })
  ]

  unfoldable pub turn_listen : System → ℕ → Node → Listener → ℕ → Outcome System
  turn_listen s i node waiting instant = turn_next s i node
  turn_listen s i node (handling msg) instant = turn_handle s i node msg
  turn_listen s i node (acking msg) instant = turn_ack s i node msg
  turn_listen s i node checking instant = turn_check s i node instant

  unfoldable pub turn_release : System → ℕ → Node → ℕ → Outcome System
  turn_release s i node instant =
      if ltb 0 node.releasing
      then elim (release_resource_of o node.process s.resource s.prop instant) [
        | none ↦ panic
        | some (p, r, prop) ↦ done (record s {
          nodes = update s.nodes i (record node { process = p; releasing = node.releasing - 1 });
          prop = prop;
          resource = r;
        })
      ]
      else blocked

  -- A turn of process `i` at the time `instant`.
  unfoldable pub turn : System → ℕ → Action → ℕ → Outcome System
  unfolding turn_listen
  turn s i requests instant = turn_request s i (s.nodes i)
  turn s i listens instant = turn_listen s i (s.nodes i) (s.nodes i).listener instant
  turn s i releases instant = turn_release s i (s.nodes i) instant

  -- The states that `n` processes can reach.
  pub data Reach (n times : ℕ) (random : ℕ → ℕ) : System → Type 0 where
    start : Reach n times random (init n times random)
    next :
        {s t : System}
        → Reach n times random s
        → (i : ℕ) (a : Action) (instant : ℕ) → i < n
        → turn s i a instant ≡ done t
        → Reach n times random t
