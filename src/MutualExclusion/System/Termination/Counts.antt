-- ===== src/MutualExclusion/System/Termination/Counts.antt =====
-- How the turns of a run are paid for by its messages, and the messages by the requests.
use distributed_algorithms.Prelude.{
  ℕ, zero, suc, ◌+◌, ◌*◌, ◌≤◌, ◌<◌, ◌≡◌, refl, ap, total, total-update, total-same, total-zero,
  update, update_all, arith, dec_lt,
}
use distributed_algorithms.MutualExclusion.Message.{
  MsgType, request_resource, release_resource, acknowledgment, Message,
}
use distributed_algorithms.MutualExclusion.Process.{Observer, new_process}
use distributed_algorithms.MutualExclusion.Resource.{new_resource}
use distributed_algorithms.MutualExclusion.System.{handling, Node, System, init, Reach, start, next}
use distributed_algorithms.MutualExclusion.System.Termination.Turns.{turn-Changed}
use distributed_algorithms.MutualExclusion.System.Termination.Change.{
  due, left, Change, asks, frees, answers, skips, hears, works,
}

abbrev is_request : MsgType → ℕ
is_request request_resource = 1
is_request _ = 0

abbrev pub cursor_of : Node → ℕ
cursor_of a = a.cursor

abbrev left_of : Node → ℕ
left_of a = left a.listener

abbrev due_of : Node → ℕ
due_of a = due a.listener

due_handling :
    (m : Message) (t : MsgType) → m.msg_type ≡ t → due (handling m) ≡ is_request m.msg_type
due_handling m request_resource e = rw e refl
due_handling m release_resource e = rw e refl
due_handling m acknowledgment e = rw e refl

module _ (o : Observer) where
  open o use {Property, sent, value, sent-update, value_old, value_new, empty, sent-empty}

  -- The requests among the first `k` messages.
  pub asked : Property → ℕ → ℕ
  asked h zero = 0
  asked h (suc k) = asked h k + is_request (value h k).msg_type

  asked-grow :
      (h : Property) (m : Message) (k : ℕ) → k ≤ sent h → asked (o.update h m) k ≡ asked h k
  unfolding asked
  asked-grow h m zero b = refl
  asked-grow h m (suc k) b =
      ground (arith, asked-grow h m k (omega arith), value_old h m k (omega arith))

  asked-sent :
      (h : Property) (m : Message)
      → asked (o.update h m) (sent (o.update h m)) ≡ asked h (sent h) + is_request m.msg_type
  unfolding asked
  asked-sent h m =
      rw (sent_suc) (ground (arith, asked-grow h m (sent h) (omega arith), value_new h m))
    where
      sent_suc : sent (o.update h m) ≡ suc (sent h)
      sent_suc = omega (arith, sent-update h m)

  pub asked_mono : (h : Property) (j k : ℕ) → j ≤ k → asked h j ≤ asked h k
  unfolding asked
  asked_mono h j zero b = let e : j ≡ 0 = omega arith in rw e (omega arith)
  asked_mono h j (suc k) b = elim (dec_lt k j) [
    | yes last ↦ let e : j ≡ suc k = omega arith in rw e (omega arith)
    | no below ↦ omega (arith, asked_mono h j k (omega arith))
  ]

  asked-next :
      (h : Property) (k : ℕ) → asked h (k + 1) ≡ asked h k + is_request (value h k).msg_type
  unfolding asked
  asked-next h k = rw (as_suc k) refl
    where
      as_suc : (k : ℕ) → k + 1 ≡ suc k
      as_suc k = omega arith

  abbrev pub heard_of : Property → Node → ℕ
  heard_of h a = asked h a.cursor

  -- `steps` turns have been taken.
  pub record IsCounted (n times steps : ℕ) (s : System o) : Type 0 where
    pub read : (i : ℕ) → i < n → (s.nodes i).cursor ≤ sent s.prop
    pub paid : s.budget + asked s.prop (sent s.prop) ≡ times
    pub taken : steps + total left_of n s.nodes ≤ sent s.prop + 4 * total cursor_of n s.nodes
    pub written :
        sent s.prop + s.budget + s.resource.wg + total due_of n s.nodes
        ≤ 2 * times + total (heard_of s.prop) n s.nodes

  module _ {n times steps : ℕ} (s t : System o) (v : IsCounted n times steps s) (i : ℕ) (lt : i < n)
      (b : Node) (e : t.nodes ≡ update s.nodes i b) where
    abbrev a : Node
    a = s.nodes i

    after : (w : Node → ℕ) → total w n t.nodes + w a ≡ total w n s.nodes + w b
    after w = rw e (total-update w n s.nodes i b lt)

    -- A turn that sends a message.
    sent_turn :
        (m : Message)
        → t.prop ≡ o.update s.prop m
        → b.cursor ≡ a.cursor
        → 1 + left b.listener ≤ left a.listener + 1
        → t.budget + is_request m.msg_type ≡ s.budget
        → 1 + t.budget + t.resource.wg + due b.listener ≤ s.budget + s.resource.wg + due a.listener
        → IsCounted n times (suc steps) t
    sent_turn m p place shorter bought less_due =
        let old =
          total-same (heard_of t.prop) (heard_of s.prop) n s.nodes
            (λ j c. rw p (asked-grow s.prop m (s.nodes j).cursor (v.read j c))) in
        let more : sent t.prop ≡ sent s.prop + 1 = rw p (sent-update s.prop m) in
        let requests : asked t.prop (sent t.prop)
            ≡ asked s.prop (sent s.prop) + is_request m.msg_type =
          rw p (asked-sent s.prop m) in
        let heard : heard_of t.prop b ≡ heard_of t.prop a = ap (asked t.prop) place in
        record {
          read = λ j c. rw e (
              update_all (λ k (d : Node). d.cursor ≤ sent t.prop) s.nodes i b
                (omega (arith, more, place, v.read i lt)) j (λ _. omega (arith, more, v.read j c)));
          paid = omega (arith, v.paid, bought, requests);
          taken = omega (arith, v.taken, after left_of, after cursor_of, more, shorter, place);
          written =
              omega (
                arith,
                v.written,
                after due_of,
                after (heard_of t.prop),
                old,
                heard,
                more,
                less_due,
              );
        }

    -- A turn that sends nothing.
    quiet_turn :
        t.prop ≡ s.prop
        → (t.budget ≡ s.budget) × (t.resource.wg ≡ s.resource.wg)
        → b.cursor ≤ sent s.prop
        → 1 + left b.listener + 4 * a.cursor ≤ left a.listener + 4 * b.cursor
        → due b.listener + heard_of s.prop a ≤ due a.listener + heard_of s.prop b
        → IsCounted n times (suc steps) t
    quiet_turn p (same, wg) place moved heard = record {
      read = λ j c.
          rw (e, p)
            (update_all (λ k (d : Node). d.cursor ≤ sent s.prop) s.nodes i b place j
              (λ _. v.read j c));
      paid = rw p (rw same v.paid);
      taken = rw p (omega (arith, v.taken, after left_of, after cursor_of, moved));
      written =
          rw p (omega (arith, v.written, after due_of, after (heard_of s.prop), heard, same, wg));
    }

    change-IsCounted : Change o s t i b → IsCounted n times (suc steps) t
    unfolding asked
    change-IsCounted (asks m k p bought wg (l, c)) =
        sent_turn m p c (rw l (omega arith)) (rw k bought) (rw l (omega (arith, bought, wg)))
    change-IsCounted (frees m k p same wg (l, c)) =
        sent_turn m p c (rw l (omega arith)) (rw k (omega arith)) (rw l (omega (arith, same, wg)))
    change-IsCounted (answers m x k p (same, wg) l l' c) =
        sent_turn m p c (rw (l, l') (omega arith)) (rw k (omega arith))
          (rw (l, l') (omega (arith, same, wg)))
    change-IsCounted (skips more p same l l' c) =
        quiet_turn p same (omega (arith, c)) (rw (l, l') (omega (arith, c)))
          (rw (l, l', c) (omega (arith, asked-next s.prop a.cursor)))
    change-IsCounted (hears more p same l l' c) =
        let msg = value s.prop a.cursor in
        quiet_turn p same (omega (arith, c)) (rw (l, l') (omega (arith, c))) (
          rw (l, l', c)
            (omega (arith, asked-next s.prop a.cursor, due_handling msg msg.msg_type refl)))
    change-IsCounted (works p same c shorter fewer) =
        quiet_turn p same (rw c (v.read i lt)) (omega (arith, c)) (rw c (omega (arith, fewer)))

  -- The number of turns of a run.
  unfoldable pub steps :
      {n times : ℕ} {random : ℕ → ℕ} {s : System o} → Reach o n times random s → ℕ
  steps start = 0
  steps (next r i a instant lt e) = suc (steps r)

  init-IsCounted : (n times : ℕ) (random : ℕ → ℕ) → IsCounted n times 0 (init o n times random)
  unfolding init new_process new_resource asked
  init-IsCounted n times random = record {
    read = λ i b. omega arith;
    paid = rw sent-empty (omega arith);
    taken = omega (arith, total-zero left_of n (init o n times random).nodes (λ i. refl));
    written =
        omega (arith, sent-empty, total-zero due_of n (init o n times random).nodes (λ i. refl));
  }

  pub Reach-IsCounted :
      {n times : ℕ} {random : ℕ → ℕ} {s : System o} (r : Reach o n times random s)
      → IsCounted n times (steps r) s
  unfolding steps
  Reach-IsCounted {n} {times} {random} start = init-IsCounted n times random
  Reach-IsCounted (next {s} {t} r i a instant lt e) =
      let (b, f, c) = turn-Changed o s i t a instant e in
      change-IsCounted s t (Reach-IsCounted r) i lt b f c
