-- ===== src/MutualExclusion/System/Quiescence.antt =====
-- States in which no listening loop and no release of process.go can go on.
use distributed_algorithms.Prelude.{
  ℕ, ◌≤◌, ◌<◌, ◌≡◌, ◌≢◌, inl, inr, refl, sym, ◌∙◌, ap, true, false, none, some, arith, ℕ_discrete,
}
use distributed_algorithms.MutualExclusion.Timestamp.{Timestamp, is_before}
use distributed_algorithms.MutualExclusion.Timestamp.Order.{is_equal_iff}
use distributed_algorithms.MutualExclusion.Timestamp.Least.{Least, Least-cases, less_antisym}
use distributed_algorithms.MutualExclusion.Message.{
  MsgType, request_resource, release_resource, acknowledgment, only, Message,
}
use distributed_algorithms.MutualExclusion.ReceivedTime.Latest.{latest, IsOther, min_time_lem}
use distributed_algorithms.MutualExclusion.RequestQueue.{min}
use distributed_algorithms.MutualExclusion.RequestQueue.Contents.{contains, min_lem}
use distributed_algorithms.MutualExclusion.Process.{
  Observer, Process, by_timestamp, is_first, is_satisfied_rule5,
}
use distributed_algorithms.MutualExclusion.System.{
  Listener, waiting, handling, acking, checking, System, blocked, listens, releases, turn,
  turn_listen, turn_next, turn_handle, turn_ack, turn_check, turn_release, Reach,
}
use distributed_algorithms.MutualExclusion.System.Local.{IsNode, handled}
use distributed_algorithms.MutualExclusion.System.Local.Queue.{by_timestamp-IsLess}
use distributed_algorithms.MutualExclusion.System.Invariant.{request_of, is_occupying, Inv}
use distributed_algorithms.MutualExclusion.System.Reachable.{Reach-Inv}

module _ (o : Observer) where
  open o use {sent, value}

  -- Neither a listening loop nor a release can take a turn.
  unfoldable pub IsQuiescent : ℕ → System o → Type 0
  IsQuiescent n s =
      (i : ℕ) → i < n → (turn o s i listens 0 ≡ blocked) × (turn o s i releases 0 ≡ blocked)

  module _ (s : System o) (i : ℕ) where
    handle-Goes :
        (t : MsgType) (m : Message) → m.msg_type ≡ t → turn_handle o s i (s.nodes i) m ≢ blocked
    unfolding turn_handle
    handle-Goes acknowledgment m e h = ground arith
    handle-Goes request_resource m e h = ground arith
    handle-Goes release_resource m e h = ground arith

    check-Goes : turn_check o s i (s.nodes i) 0 ≢ blocked
    unfolding turn_check
    check-Goes h = ground arith

    listen_blocked :
        (l : Listener)
        → turn_listen o s i (s.nodes i) l 0 ≡ blocked
        → (l ≡ waiting) × (sent s.prop ≤ (s.nodes i).cursor)
    unfolding turn_listen turn_next turn_ack
    listen_blocked waiting h = (refl, ground arith)
    listen_blocked (handling m) h = absurd (handle-Goes m.msg_type m refl h)
    listen_blocked (acking m) h = cc
    listen_blocked checking h = absurd (check-Goes h)

    release_blocked : turn_release o s i (s.nodes i) 0 ≡ blocked → (s.nodes i).releasing ≡ 0
    unfolding turn_release
    release_blocked h = ground arith

  module _ {n : ℕ} (s : System o) (inv : Inv o n s) (two : 1 < n) (quiet : IsQuiescent n s) where
    idle : (i : ℕ) → i < n → ((s.nodes i).listener ≡ waiting) × (sent s.prop ≤ (s.nodes i).cursor)
    unfolding IsQuiescent turn
    idle i b = listen_blocked s i (s.nodes i).listener (quiet i b).0

    vacant : (i : ℕ) → i < n → is_occupying (s.nodes i) ≡ false
    unfolding IsQuiescent turn
    vacant i b = ground (arith, release_blocked s i (quiet i b).1, (inv.local i b).started)

    -- Every other process has been heard after the request.
    heard_later :
        (i j : ℕ) (ts : Timestamp)
        → i < n
        → IsOther n i j
        → request_of (s.nodes i) ≡ some ts
        → ts.time < latest (s.nodes i).process.received_time j
    heard_later i j ts b other e =
        let vi = inv.local i b in
        let vj = inv.local j other.0 in
        let (k, c, (t, same)) = vi.asking.broadcast ts e in
        let (from, time) = inv.history.requests k ts c (t, same) in
        let mine = vi.asking.mine ts e in
        let all : k < (s.nodes j).cursor = omega (arith, (idle j other.0).1) in
        let (a, d, ack, by, to, later) =
          vj.answering.answered k (rw ((idle j other.0).0) all) t
            (λ f. other.1 (sym f ∙ sym from ∙ mine)) in
        let noted =
          vi.timed.noted j a other (omega (arith, (idle i b).1)) by
            (λ _. to ∙ ap only (sym from ∙ mine)) in
        omega (arith, time, later, noted)

    module _ (i : ℕ) (ts : Timestamp) (b : i < n) (e : request_of (s.nodes i) ≡ some ts)
        (least : Least (λ j. request_of (s.nodes j)) n ts) where
      abbrev p : Process
      p = (s.nodes i).process

      v : IsNode o n s.prop i (s.nodes i)
      v = inv.local i b

      all_read : (k : ℕ) → k < handled (s.nodes i).listener (s.nodes i).cursor → k < sent s.prop
      all_read k c =
          let d : k < (s.nodes i).cursor = rw ((idle i b).0) at c in omega (arith, v.read)

      -- What waits in the queue is still asked for.
      waiting_request :
          (x : Timestamp)
          → x.process ≢ i
          → contains p.request_queue x ≡ true
          → (j : ℕ) × (j < n) × (request_of (s.nodes j) ≡ some x)
      waiting_request x foreign c =
          let (k, d, r) = v.queued.foreign x foreign c in
          let j = (value s.prop k).from in
          let old = all_read k d in
          let bj = inv.history.senders k old in
          (
            j,
            bj,
            (inv.local j bj).asking.only_one x ((inv.history.requests k x old r).0) (k, old, r)
                (λ l f.
                  v.queued.unreleased x foreign c l
                    (rw ((idle i b).0) (omega (arith, (idle i b).1)))),
          )

      head : min by_timestamp p.request_queue ≡ some ts
      head = elim (min_lem by_timestamp-IsLess p.request_queue v.queued.valid) [
        | inl (_, absent) ↦ absurd (ground (arith, absent ts, v.queued.own_in ts e))
        | inr (m, first, c, none_less) ↦ elim (ℕ_discrete m.process i) [
          | yes own ↦ ground (arith, first, v.queued.own m own c)
          | no foreign ↦
              let (j, bj, asked) = waiting_request m foreign c in
              let same : m ≡ ts =
                less_antisym m ts (least j m bj asked) (none_less ts (v.queued.own_in ts e)) in
              rw (← same) first
        ]
      ]

      satisfied : (q : ℕ) → IsOther n i q → is_satisfied_rule5 p ≡ some true
      unfolding is_satisfied_rule5 is_first is_before
      satisfied q other =
          let (t, f, _, (j, x, g)) = min_time_lem p.received_time v.timed.valid q other in
          ground (arith, e, vacant i b, head, f, heard_later i j ts b x e, g, is_equal_iff ts ts)

      stuck : ⊥
      stuck =
          let (q, other) : (q : ℕ) × IsOther n i q = someone in
          ground (arith, satisfied q other, v.settled q other (idle i b).0 (vacant i b))
        where
          someone : (q : ℕ) × IsOther n i q
          someone = elim (ℕ_discrete i 0) [
            | yes r ↦ (1, (two, omega arith))
            | no r ↦ (0, (omega arith, omega arith))
          ]

    no_request : (i : ℕ) → i < n → request_of (s.nodes i) ≡ none
    no_request = elim (Least-cases (λ j. request_of (s.nodes j)) n) [
      | inl none_left ↦ none_left
      | inr (m, b, (us, e, least)) ↦ absurd (stuck m us b e least)
    ]

  -- In a reachable state of two or more processes in which no listening loop and no release can
  -- take a turn, no process has a request under way and none occupies the resource: the system never
  -- comes to a stop with a request that has not been served.
  pub all_served :
      {n times : ℕ} {random : ℕ → ℕ} {s : System o}
      → Reach o n times random s
      → 1 < n
      → IsQuiescent n s
      → (i : ℕ) → i < n
      → (request_of (s.nodes i) ≡ none) × (is_occupying (s.nodes i) ≡ false)
  all_served {s = s} r two quiet i b =
      let inv = Reach-Inv o r in (no_request s inv two quiet i b, vacant s inv two quiet i b)
