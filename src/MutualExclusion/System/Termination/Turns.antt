-- ===== src/MutualExclusion/System/Termination/Turns.antt =====
-- What each turn of a goroutine (process.go) changes.
use distributed_algorithms.Prelude.{
  ℕ, ◌+◌, ◌-◌, ◌≤◌, ◌<◌, ◌≡◌, ◌⊎◌, inl, inr, refl, subst, Bool, some, ltb, ◌==◌, ◌&&◌,
  if◌then◌else◌, update, arith, Bool-cases, Option-cases,
}
use distributed_algorithms.MutualExclusion.Clock.{tick}
use distributed_algorithms.MutualExclusion.Timestamp.{Timestamp}
use distributed_algorithms.MutualExclusion.Message.{
  MsgType, request_resource, release_resource, acknowledgment, others, Message, new_message,
}
use distributed_algorithms.MutualExclusion.Resource.{Resource, occupy, release}
use distributed_algorithms.MutualExclusion.Resource
use distributed_algorithms.MutualExclusion.Process.{
  Observer, Process, hear_time, ignores, occupy_resource, check_rule5, handle_release_message,
  enqueue_request, release_resource_of, announce_release, acknowledge, request,
}
use distributed_algorithms.MutualExclusion.System.{
  Listener, waiting, handling, acking, checking, Node, System, Outcome, blocked, panic, done, put,
  Action, requests, listens, releases, turn, turn_listen, turn_next, turn_handle, turn_ack,
  turn_check, turn_release, turn_request,
}
use distributed_algorithms.MutualExclusion.System.Termination.Change.{
  due, left, Changed, asks, frees, answers, skips, hears, works,
}

release_wg :
    (r r' : Resource) (ts : Timestamp) (instant : ℕ)
    → release r ts instant ≡ some r'
    → r'.wg + 1 ≡ r.wg
unfolding release Resource.done
release_wg r r' ts instant h = ground arith

occupy_wg :
    (r r' : Resource) (ts : Timestamp) (instant : ℕ) → occupy r ts instant ≡ some r' → r'.wg ≡ r.wg
unfolding occupy
occupy_wg r r' ts instant h = ground arith

module _ (o : Observer) (s : System o) (i : ℕ) where
  abbrev node : Node
  node = s.nodes i

  -- A turn that goes on makes a change.
  abbrev Goes : Outcome (System o) → Type 0
  Goes x = (u : System o) → x ≡ done u → Changed o s u i

  goes : (x : Outcome (System o)) (u : System o) → x ≡ done u → Changed o s u i → Goes x
  goes x u e c t f = subst (λ y. Changed o s y i) (same t f) c
    where
      same : (t : System o) → x ≡ done t → u ≡ t
      same t f = cc

  stays : (x : Outcome (System o)) → (x ≡ blocked) ⊎ (x ≡ panic) → Goes x
  stays x (inl e) t f = cc
  stays x (inr e) t f = cc

  request-Goes : Goes (turn_request o s i node)
  unfolding turn_request request
  request-Goes = elim (Bool-cases ((node.process.wg == 0) && ltb 0 s.budget)) [
    | inr busy ↦ stays _ (inl (rw busy))
    | inl free ↦
        let p = request o node.process s.prop in
        goes _
          (record s {
            nodes = update s.nodes i (record node { process = p.0 });
            prop = p.1;
            budget = s.budget - 1;
          })
          (rw free)
          (record node { process = p.0 }, refl, asks _ refl refl (ground arith) refl (refl, refl))
  ]

  next-Goes : node.listener ≡ waiting → Goes (turn_next o s i node)
  unfolding turn_next
  next-Goes idle = elim (Bool-cases (ltb node.cursor (o.sent s.prop))) [
    | inr drained ↦ stays _ (inl (rw drained))
    | inl more ↦
        let msg = o.value s.prop node.cursor in
        elim (Bool-cases (ignores node.process msg)) [
          | inl skip ↦
              let b : Node = record node { cursor = node.cursor + 1 } in
              goes _ (put o s i b) (rw (more, skip))
                (b, refl, skips (ground arith) refl (refl, refl) idle idle refl)
          | inr keep ↦ elim (Option-cases (hear_time node.process msg.from msg.msg_time)) [
            | inl lost ↦ stays _ (inr (rw (more, keep) (rw lost)))
            | inr (p, heard) ↦
                let b : Node = record node {
                  cursor = node.cursor + 1;
                  process = p;
                  listener = handling msg;
                } in
                goes _ (put o s i b) (rw (more, keep) (rw heard))
                  (b, refl, hears (ground arith) refl (refl, refl) idle refl refl)
          ]
        ]
  ]

  module _ (msg : Message) (e : node.listener ≡ handling msg) where
    shorter : (l : Listener) → left l < 3 → left l < left node.listener
    shorter l h = rw e h

    no_more : (l : Listener) → due l ≤ due (handling msg) → due l ≤ due node.listener
    no_more l h = rw e h

    handle-Goes : (k : MsgType) → msg.msg_type ≡ k → Goes (turn_handle o s i node msg)
    unfolding turn_handle
    handle-Goes acknowledgment t =
        let b : Node = record node { listener = checking } in
        goes _ (put o s i b) (rw t) (
          b,
          refl,
          works refl (refl, refl) refl (shorter checking (omega arith))
              (no_more checking (omega arith)),
        )
    handle-Goes request_resource t =
        let b : Node = record node {
          process = enqueue_request node.process msg;
          listener = acking msg;
        } in
        goes _ (put o s i b) (rw t) (
          b,
          refl,
          works refl (refl, refl) refl (shorter (acking msg) (omega arith))
              (no_more (acking msg) (ground arith)),
        )
    handle-Goes release_resource t = elim (Option-cases (handle_release_message node.process msg)) [
      | inl lost ↦ stays _ (inr (ground arith))
      | inr (p, found) ↦
          let b : Node = record node { process = p; listener = checking } in
          goes _ (put o s i b) (ground arith) (
            b,
            refl,
            works refl (refl, refl) refl (shorter checking (omega arith))
                (no_more checking (omega arith)),
          )
    ]

  ack-Goes : (msg : Message) → node.listener ≡ acking msg → Goes (turn_ack o s i node msg)
  unfolding turn_ack acknowledge
  ack-Goes msg e =
      let p = acknowledge o node.process msg s.prop in
      let b : Node = record node { process = p.0; listener = checking } in
      goes _ (record s { nodes = update s.nodes i b; prop = p.1 }) refl
        (b, refl, answers _ msg refl refl (refl, refl) e refl refl)

  check_wg :
      (p : Process) (r : Resource) (started : Bool) (instant : ℕ)
      → check_rule5 node.process s.resource instant ≡ some (p, r, started)
      → r.wg ≡ s.resource.wg
  unfolding check_rule5 occupy_resource occupy
  check_wg p r started instant h = ground arith

  check-Goes : (instant : ℕ) → node.listener ≡ checking → Goes (turn_check o s i node instant)
  unfolding turn_check
  check-Goes instant e = elim (Option-cases (check_rule5 node.process s.resource instant)) [
    | inl lost ↦ stays _ (inr (ground arith))
    | inr ((p, r, started), found) ↦
        let b : Node = record node {
          process = p;
          listener = waiting;
          releasing = if started then node.releasing + 1 else node.releasing;
        } in
        goes _ (record s { nodes = update s.nodes i b; resource = r }) (ground arith)
          (
            b,
            refl,
            works refl (refl, check_wg p r started instant found) refl (rw e (omega arith))
                (omega arith),
          )
  ]

  announced :
      (ts : Timestamp) (p : Process) (prop : o.Property)
      → announce_release o node.process ts s.prop ≡ some (p, prop)
      → (m : Message) × (m.msg_type ≡ release_resource) × (prop ≡ o.update s.prop m)
  unfolding announce_release
  announced ts p prop h = (
    new_message release_resource (tick node.process.clock).0 node.process.me others ts,
    refl,
    ground arith,
  )

  freed :
      (p : Process) (r : Resource) (prop : o.Property) (instant : ℕ)
      → release_resource_of o node.process s.resource s.prop instant ≡ some (p, r, prop)
      → (m : Message) × (m.msg_type ≡ release_resource)
        × (prop ≡ o.update s.prop m)
        × (r.wg + 1 ≡ s.resource.wg)
  unfolding release_resource_of
  freed p r prop instant h = elim (Option-cases node.process.request_timestamp) [
    | inl unasked ↦ absurd (ground arith)
    | inr (ts, asked) ↦ elim (Option-cases (release s.resource ts instant)) [
      | inl held ↦ absurd (ground arith)
      | inr (r', e) ↦ elim (Option-cases (announce_release o node.process ts s.prop)) [
        | inl lost ↦ absurd (ground arith)
        | inr ((p', prop'), f) ↦
            let (m, t, g) = announced ts p' prop' f in
            (m, t, ground (arith, g), ground (arith, release_wg s.resource r' ts instant e))
      ]
    ]
  ]

  release-Goes : (instant : ℕ) → Goes (turn_release o s i node instant)
  unfolding turn_release
  release-Goes instant = elim (Bool-cases (ltb 0 node.releasing)) [
    | inr none_started ↦ stays _ (inl (rw none_started))
    | inl some_started ↦
        elim (Option-cases (release_resource_of o node.process s.resource s.prop instant)) [
          | inl lost ↦ stays _ (inr (rw some_started (rw lost)))
          | inr ((p, r, prop), found) ↦
              let b : Node = record node { process = p; releasing = node.releasing - 1 } in
              let (m, t, e, w) = freed p r prop instant found in
              goes _ (record s { nodes = update s.nodes i b; prop = prop; resource = r })
                (rw some_started (rw found)) (b, refl, frees m t e refl w (refl, refl))
        ]
  ]

  listen-Goes :
      (l : Listener) (instant : ℕ) → node.listener ≡ l → Goes (turn_listen o s i node l instant)
  unfolding turn_listen
  listen-Goes waiting instant e = next-Goes e
  listen-Goes (handling m) instant e = handle-Goes m e m.msg_type refl
  listen-Goes (acking m) instant e = ack-Goes m e
  listen-Goes checking instant e = check-Goes instant e

  -- Every turn that is taken makes one of the changes.
  pub turn-Changed :
      (t : System o) (a : Action) (instant : ℕ) → turn o s i a instant ≡ done t → Changed o s t i
  unfolding turn
  turn-Changed t requests instant h = request-Goes t h
  turn-Changed t listens instant h = listen-Goes node.listener instant refl t h
  turn-Changed t releases instant h = release-Goes instant t h
