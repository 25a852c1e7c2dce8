-- ===== src/MutualExclusion/System/Progress/Check.antt =====
-- A turn in checkRule5: the process occupies the resource where rule 5 holds.
use distributed_algorithms.Prelude.{
  ℕ, ◌+◌, ◌<◌, ◌≡◌, inl, inr, refl, sym, ap, subst, true, false, Option-cases, Option, none, some,
  update, update_all, update_self, total-update, [], ◌∷◌, ◌++◌, arith, ℕ_discrete, Bool-cases,
}
use distributed_algorithms.MutualExclusion.Timestamp.{Timestamp}
use distributed_algorithms.MutualExclusion.ReceivedTime.Latest.{IsOther}
use distributed_algorithms.MutualExclusion.Process.{
  Observer, Process, is_satisfied_rule5, occupy_resource, check_rule5,
}
use distributed_algorithms.MutualExclusion.System.{
  waiting, checking, Node, System, done, put, turn_check,
}
use distributed_algorithms.MutualExclusion.System.Local.{IsNode, IsListening, IsAnswering, handled}
use distributed_algorithms.MutualExclusion.System.Invariant.{
  request_of, is_occupying, time_of, owes, Precedes, IsShared, Inv,
}
use distributed_algorithms.MutualExclusion.System.Invariant.Turn.{IsTurn, IsPair-turn}
use distributed_algorithms.MutualExclusion.System.Progress.{Progress}
use distributed_algorithms.MutualExclusion.System.Progress.Quiet.{
  IsQuiet, quiet-Inv, heard_before, seen_by,
}
use distributed_algorithms.MutualExclusion.Resource.{Resource, occupy_free, last_less}
use distributed_algorithms.MutualExclusion.Timestamp.Order.{less-IsOrder}
use distributed_algorithms.MutualExclusion.System.Progress.Rule5.{
  IsSatisfied, rule5_cases, satisfied-Precedes,
}

module _ (o : Observer) {n : ℕ} (s : System o) (inv : Inv o n s) (i : ℕ) (lt : i < n) where
  open o use {Property, sent, value}

  abbrev node : Node
  node = s.nodes i

  abbrev p : Process
  p = node.process

  v : IsNode o n s.prop i node
  v = inv.local i lt

  module _ (instant : ℕ) (e : node.listener ≡ checking) where
    all_handled : handled node.listener node.cursor ≡ node.cursor
    all_handled = rw e

    other : (j : ℕ) × IsOther n i j
    other = subst (IsListening o n s.prop i node.cursor) e v.listening

    rest : IsAnswering o s.prop i node.cursor waiting (time_of node)
    rest = record { answered = λ k c. v.answering.answered k (rw e c); at_hand = tt }

    abbrev idle_node : Node
    idle_node = record node { listener = waiting }

    idle-IsQuiet : is_satisfied_rule5 p ≡ some false → IsQuiet o s inv i lt idle_node
    idle-IsQuiet h = record {
      local = record {
        named = v.named;
        read = v.read;
        queued = seen_by o s inv i lt checking e;
        timed = v.timed;
        asking = v.asking;
        listening = tt;
        answering = rest;
        settled = λ q x f g. h;
        occupies = v.occupies;
        started = v.started;
      };
      clock = omega arith;
      heard = heard_before o s inv i lt;
      request = refl;
      occupying = refl;
    }

    unsatisfied :
        is_satisfied_rule5 p ≡ some false
        → turn_check o s i node instant ≡ done (put o s i idle_node)
    unfolding turn_check check_rule5
    unsatisfied h = ground arith

    module _ (ts : Timestamp) (w : IsSatisfied o s inv i lt ts) where
      precedes : (j : ℕ) → IsOther n i j → Precedes ts (s.nodes j)
      precedes = satisfied-Precedes o s inv i lt ts w all_handled

      -- Nobody else occupies the resource.
      alone : (j : ℕ) → j < n → is_occupying (s.nodes j) ≡ false
      alone j b = elim (ℕ_discrete j i) [
        | yes r ↦ rw r w.vacant
        | no ne ↦ elim (Bool-cases (is_occupying (s.nodes j))) [
          | inr vacant ↦ vacant
          | inl occ ↦
              let (us, r) = (inv.local j b).occupies occ in
              absurd (
                ground (
                  arith,
                  less-IsOrder.asym ts us ((precedes j (b, ne)).1 us r),
                  ((inv.pair i j lt b (λ x. ne (sym x))).first us occ r).1 ts w.asked,
                ))
        ]
      ]

      free : s.resource.occupied_by ≡ none
      free = elim (Option-cases s.resource.occupied_by) [
        | inl r ↦ r
        | inr (us, r) ↦
            let (j, b, occ) = inv.shared.holder us r in absurd (ground (arith, alone j b))
      ]

      in_order : (l : Option Timestamp) → s.resource.last_occupied_by ≡ l → last_less l ts ≡ true
      unfolding last_less
      in_order none r = refl
      in_order (some l) r = (inv.shared.last l r i lt).1 ts w.asked

      abbrev taken : Resource
      taken = record s.resource {
        occupied_by = some ts;
        timestamps = s.resource.timestamps ++ ts ∷ [];
        times = s.resource.times ++ instant ∷ [];
      }

      abbrev owner : Node
      owner = record node {
        process = record p { is_occupying = true };
        listener = waiting;
        releasing = node.releasing + 1;
      }

      after : System o
      after = record s { nodes = update s.nodes i owner; resource = taken }

      occupied : turn_check o s i node instant ≡ done after
      unfolding turn_check check_rule5 occupy_resource after
      occupied = ground (
        arith,
        w.test,
        w.asked,
        occupy_free s.resource ts instant free (in_order s.resource.last_occupied_by refl),
      )

      turned : IsTurn n i s.nodes node owner
      turned = record {
        clock = omega arith;
        heard = heard_before o s inv i lt;
        asks = λ us r. inl r;
        wins =
            λ _. inr (λ us r j x. subst (λ y. Precedes y (s.nodes j)) (same us r) (precedes j x));
      }
        where
          same : (us : Timestamp) → p.request_timestamp ≡ some us → ts ≡ us
          same us r = ground (arith, w.asked)

      shared : IsShared n (update s.nodes i owner) taken s.budget
      shared = record {
        held = λ j b.
            update_all (λ x d. is_occupying d ≡ true → some ts ≡ request_of d) s.nodes i owner
              (λ _. sym w.asked) j (λ ne occ. absurd (ground (arith, alone j b)));
        holder = λ us r. (i, lt, ap is_occupying (update_self s.nodes i owner));
        last = λ us r j b.
            update_all (λ x d. Precedes us d) s.nodes i owner (inv.shared.last us r i lt) j
              (λ _. inv.shared.last us r j b);
        owed = omega (arith, inv.shared.owed, total-update owes n s.nodes i owner lt);
      }

      kept : Inv o n after
      unfolding after
      kept = record {
        history = inv.history;
        local = λ j b.
            update_all (IsNode o n s.prop) s.nodes i owner
              (record {
                named = v.named;
                read = v.read;
                queued = seen_by o s inv i lt checking e;
                timed = v.timed;
                asking = v.asking;
                listening = tt;
                answering = rest;
                settled = λ q x f g. cc;
                occupies = λ _. (ts, w.asked);
                started = ground (arith, v.started, w.vacant);
              })
              j (λ _. inv.local j b);
        pair = IsPair-turn turned lt inv.pair;
        shared = shared;
      }

    -- A turn in checkRule5: Occupy does not panic.
    pub check-Progress : Progress o n (turn_check o s i node instant)
    check-Progress = elim (rule5_cases o s inv i lt other.0 other.1) [
      | inl h ↦
          inr
            (put o s i idle_node, unsatisfied h, quiet-Inv o s inv i lt idle_node (idle-IsQuiet h))
      | inr (ts, w) ↦ inr (after ts w, occupied ts w, kept ts w)
    ]
