-- ===== src/MutualExclusion/System/Reachable.antt =====
-- The invariant holds at the start, and so in every reachable state.
use distributed_algorithms.Prelude.{ℕ, ◌<◌, ◌≡◌, inl, inr, refl, subst, none, total-zero, arith}
use distributed_algorithms.MutualExclusion.Timestamp.{new_timestamp}
use distributed_algorithms.MutualExclusion.ReceivedTime.Latest.{new-IsValid}
use distributed_algorithms.MutualExclusion.RequestQueue.{new_request_queue}
use distributed_algorithms.MutualExclusion.RequestQueue.Contents.{
  contains, new_request_queue-IsValid,
}
use distributed_algorithms.MutualExclusion.Resource.{new_resource}
use distributed_algorithms.MutualExclusion.Process.{
  Observer, by_timestamp, new_process, is_satisfied_rule5,
}
use distributed_algorithms.MutualExclusion.System.{
  Listener, waiting, handling, acking, checking, System, done, Action, requests, listens, releases,
  init, turn, turn_listen, Reach, start, next,
}
use distributed_algorithms.MutualExclusion.System.Local.{IsNode, IsQueued}
use distributed_algorithms.MutualExclusion.System.Local.Queue.{by_timestamp-IsLess}
use distributed_algorithms.MutualExclusion.System.Invariant.{owes, Inv}
use distributed_algorithms.MutualExclusion.System.Progress.{Progress}
use distributed_algorithms.MutualExclusion.System.Progress.Requests.{request-Progress}
use distributed_algorithms.MutualExclusion.System.Progress.Next.{next-Progress}
use distributed_algorithms.MutualExclusion.System.Progress.Handle.{handle-Progress}
use distributed_algorithms.MutualExclusion.System.Progress.Ack.{ack-Progress}
use distributed_algorithms.MutualExclusion.System.Progress.Check.{check-Progress}
use distributed_algorithms.MutualExclusion.System.Progress.Release.{release-Progress}

module _ (o : Observer) where
  open o use {sent, value, empty, sent-empty}

  unsent : (k : ℕ) → k < sent empty → ⊥
  unsent k b = omega (arith, sent-empty)

  new_queue-IsQueued :
      (i : ℕ) → IsQueued o empty i 0 (new_request_queue by_timestamp (new_timestamp 0 0)) none
  unfolding new_request_queue contains
  new_queue-IsQueued i = record {
    valid = new_request_queue-IsValid by_timestamp-IsLess (new_timestamp 0 0);
    enqueued = λ ts ne (k, b, r) u. elim b [ ];
    foreign = λ ts ne c. cc;
    unreleased = λ ts ne c. cc;
    own = λ ts e c. cc;
    own_in = λ ts e. cc;
  }

  module _ (n times : ℕ) (random : ℕ → ℕ) where
    abbrev s : System o
    s = init o n times random

    init-IsNode : (i : ℕ) → IsNode o n s.prop i (s.nodes i)
    unfolding init new_process is_satisfied_rule5
    init-IsNode i = record {
      named = refl;
      read = omega arith;
      queued = new_queue-IsQueued i;
      timed = record {
        valid = (new-IsValid n i).0;
        unread = λ j k other c b. absurd (unsent k b);
        noted = λ j k other c. elim c [ ];
        passed = λ j other. omega (arith, (new-IsValid n i).1 j);
        stamped = λ k b. absurd (unsent k b);
      };
      asking = record {
        waits = refl;
        mine = λ ts e. cc;
        past = λ ts e. cc;
        broadcast = λ ts e. cc;
        held = λ ts e. cc;
        only_one = λ ts e (k, b, r) u. absurd (unsent k b);
      };
      listening = tt;
      answering = record { answered = λ k c. elim c [ ]; at_hand = tt };
      settled = λ q other e f. refl;
      occupies = λ occ. cc;
      started = refl;
    }

    init-Inv : Inv o n s
    unfolding init new_process new_resource
    init-Inv = record {
      history = record {
        senders = λ k b. absurd (unsent k b);
        ordered = λ j k lt b. absurd (unsent k b);
        requests = λ k ts b. absurd (unsent k b);
        releases = λ k ts b. absurd (unsent k b);
      };
      local = λ i lt. init-IsNode i;
      pair = λ i j p q ne. record {
        behind = omega (arith, (new-IsValid n j).1 i);
        first = λ ts occ. cc;
      };
      shared = record {
        held = λ j b occ. cc;
        holder = λ ts e. cc;
        last = λ ts e. cc;
        owed = omega (arith, total-zero owes n s.nodes (λ i. refl));
      };
    }

  module _ {n : ℕ} (s : System o) (inv : Inv o n s) (i : ℕ) (lt : i < n) where
    listen-Progress :
        (l : Listener) (instant : ℕ)
        → (s.nodes i).listener ≡ l
        → Progress o n (turn_listen o s i (s.nodes i) l instant)
    unfolding turn_listen
    listen-Progress waiting instant e = next-Progress o s inv i lt e
    listen-Progress (handling m) instant e = handle-Progress o s inv i lt m e
    listen-Progress (acking m) instant e = ack-Progress o s inv i lt m e
    listen-Progress checking instant e = check-Progress o s inv i lt instant e

    -- Every turn waits, or succeeds and keeps the invariant.
    pub turn-Progress : (a : Action) (instant : ℕ) → Progress o n (turn o s i a instant)
    unfolding turn
    turn-Progress requests instant = request-Progress o s inv i lt
    turn-Progress listens instant = listen-Progress (s.nodes i).listener instant refl
    turn-Progress releases instant = release-Progress o s inv i lt instant

  pub Reach-Inv :
      {n times : ℕ} {random : ℕ → ℕ} {s : System o} → Reach o n times random s → Inv o n s
  Reach-Inv {n} {times} {random} start = init-Inv n times random
  Reach-Inv {n} (next {s} {t} r i a instant lt e) =
      elim (turn-Progress s (Reach-Inv r) i lt a instant) [
        | inl stuck ↦ cc
        | inr (u, f, inv) ↦ subst (Inv o n) (same u f) inv
      ]
    where
      same : (u : System o) → turn o s i a instant ≡ done u → u ≡ t
      same u f = cc
