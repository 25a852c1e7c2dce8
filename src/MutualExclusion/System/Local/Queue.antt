-- ===== src/MutualExclusion/System/Local/Queue.antt =====
-- The request queue of a process follows the messages and the own requests.
use distributed_algorithms.Prelude.{
  ℕ, ◌+◌, ◌≤◌, ◌<◌, ◌≡◌, ◌≢◌, ◌⊎◌, inl, inr, sym, ◌∙◌, subst, true, false, Option, none, some,
  arith, Bool-cases, ℕ_discrete,
}
use distributed_algorithms.MutualExclusion.Timestamp.{Timestamp, is_equal}
use distributed_algorithms.MutualExclusion.Timestamp.Order.{less-IsOrder, is_equal_iff}
use distributed_algorithms.MutualExclusion.RequestQueue.{RequestQueue, push, remove}
use distributed_algorithms.MutualExclusion.RequestQueue.Contents.{
  IsLess, contains, push-IsValid, push-contains,
}
use distributed_algorithms.MutualExclusion.RequestQueue.Removal.{remove_waiting}
use distributed_algorithms.MutualExclusion.Process.{Observer, by_timestamp}
use distributed_algorithms.MutualExclusion.System.History.{
  IsHistory, Requested, Unreleased, IsRequest, IsRelease,
}
use distributed_algorithms.MutualExclusion.System.Local.{IsQueued}

pub by_timestamp-IsLess : IsLess by_timestamp
by_timestamp-IsLess = record { order = less-IsOrder; same_iff = is_equal_iff }

module _ (o : Observer) (h : o.Property) where
  open o use {Property, sent, value}

  Requested-suc :
      (b : ℕ) (ts : Timestamp) → Requested o h (b + 1) ts → Requested o h b ts ⊎ IsRequest o h b ts
  Requested-suc b ts (k, lt, r) = elim (ℕ_discrete k b) [
    | yes e ↦ inr (rw (← e) r)
    | no e ↦ inl (k, omega arith, r)
  ]

  Requested-le : (b c : ℕ) (ts : Timestamp) → b ≤ c → Requested o h b ts → Requested o h c ts
  Requested-le b c ts le (k, lt, r) = (k, omega arith, r)

  Unreleased-le : (b c : ℕ) (ts : Timestamp) → b ≤ c → Unreleased o h c ts → Unreleased o h b ts
  Unreleased-le b c ts le u k lt r = u k (omega arith) r

  Unreleased-suc :
      (b : ℕ) (ts : Timestamp)
      → Unreleased o h b ts
      → ¬ (IsRelease o h b ts)
      → Unreleased o h (b + 1) ts
  Unreleased-suc b ts u now k lt r = elim (ℕ_discrete k b) [
    | yes e ↦ now (rw (← e) r)
    | no e ↦ u k (omega arith) r
  ]

  module _ {me seen : ℕ} {q : RequestQueue Timestamp} {req : Option Timestamp}
      (v : IsQueued o h me seen q req) where
    -- A message that is no other's request, and whose release if any is the own, changes nothing.
    pub skip-IsQueued :
        ((ts : Timestamp) → ts.process ≢ me → ¬ (IsRequest o h seen ts))
        → ((ts : Timestamp) → ts.process ≢ me → ¬ (IsRelease o h seen ts))
        → IsQueued o h me (seen + 1) q req
    skip-IsQueued other no_release = record {
      valid = v.valid;
      enqueued = λ ts ne r u. elim (Requested-suc seen ts r) [
        | inl old ↦ v.enqueued ts ne old (Unreleased-le seen (seen + 1) ts (omega arith) u)
        | inr now ↦ absurd (other ts ne now)
      ];
      foreign = λ ts ne c. Requested-le seen (seen + 1) ts (omega arith) (v.foreign ts ne c);
      unreleased = λ ts ne c. Unreleased-suc seen ts (v.unreleased ts ne c) (no_release ts ne);
      own = v.own;
      own_in = v.own_in;
    }

    module _ (ts : Timestamp) where
      pushed : (x : Timestamp) → ts ≢ x → contains (push by_timestamp q ts) x ≡ contains q x
      pushed x ne =
          ground (arith, push-contains by_timestamp-IsLess q v.valid ts x, is_equal_iff ts x)

      pushed_self : contains (push by_timestamp q ts) ts ≡ true
      pushed_self =
          ground (arith, push-contains by_timestamp-IsLess q v.valid ts ts, is_equal_iff ts ts)

      own_absent : req ≡ none → ts.process ≡ me → contains q ts ≡ false
      own_absent e mine = elim (Bool-cases (contains q ts)) [
        | inl c ↦ absurd (ground (arith, v.own ts mine c))
        | inr c ↦ c
      ]

      pub push_own-IsQueued :
          req ≡ none → ts.process ≡ me → IsQueued o h me seen (push by_timestamp q ts) (some ts)
      push_own-IsQueued e mine = record {
        valid = push-IsValid by_timestamp-IsLess q v.valid ts (own_absent e mine);
        enqueued = λ x ne r u.
            pushed x (λ p. ne (subst (λ y. y.process ≡ me) p mine)) ∙ v.enqueued x ne r u;
        foreign = λ x ne c.
            v.foreign x ne (sym (pushed x (λ p. ne (subst (λ y. y.process ≡ me) p mine))) ∙ c);
        unreleased = λ x ne c.
            v.unreleased x ne (sym (pushed x (λ p. ne (subst (λ y. y.process ≡ me) p mine))) ∙ c);
        own = λ x p c. elim (Bool-cases (is_equal ts (some x))) [
          | inl hit ↦ ground (arith, is_equal_iff ts x)
          | inr miss ↦ absurd (ground (arith, is_equal_iff ts x, pushed x, v.own x p))
        ];
        own_in = λ x p. ground (arith, pushed_self);
      }

      pub remove_own-IsQueued :
          req ≡ some ts
          → ts.process ≡ me
          → (q' : RequestQueue Timestamp) × (remove by_timestamp q ts ≡ some q')
            × IsQueued o h me seen q' none
      remove_own-IsQueued e mine =
          let (q', r) = remove_waiting by_timestamp-IsLess q v.valid ts (v.own_in ts e) in
          (
            q',
            r.returns,
            record {
              valid = r.valid;
              enqueued =
                  λ x ne p u. ground (arith, r.rest x, is_equal_iff ts x, v.enqueued x ne p u);
              foreign = λ x ne c. v.foreign x ne (ground (arith, r.rest x));
              unreleased = λ x ne c. v.unreleased x ne (ground (arith, r.rest x));
              own = λ x p c. absurd (ground (arith, r.rest x, is_equal_iff ts x, v.own x p));
              own_in = λ x p. cc;
            },
          )

    module _ {n : ℕ} (hist : IsHistory o n h) (b : seen < sent h) (ts : Timestamp)
        (ne : ts.process ≢ me) where
      foreign_absent : IsRequest o h seen ts → contains q ts ≡ false
      foreign_absent r = elim (Bool-cases (contains q ts)) [
        | inl c ↦
            let (k, lt, old) = v.foreign ts ne c in
            absurd (
              ground (
                arith,
                hist.requests seen ts b r,
                hist.requests k ts (omega arith) old,
                hist.ordered k seen lt b,
              ))
        | inr c ↦ c
      ]

      -- A request is not released before it is made.
      new_unreleased : IsRequest o h seen ts → Unreleased o h (seen + 1) ts
      new_unreleased r k lt rel =
          let (_, (j, before, old), _) = hist.releases k ts (omega arith) rel in
          ground (
            arith,
            hist.requests seen ts b r,
            hist.requests j ts (omega arith) old,
            hist.ordered j seen (omega arith) b,
          )

      -- Rule 2.1: the request of another process.
      pub push_foreign-IsQueued :
          IsRequest o h seen ts → IsQueued o h me (seen + 1) (push by_timestamp q ts) req
      push_foreign-IsQueued r = record {
        valid = push-IsValid by_timestamp-IsLess q v.valid ts (foreign_absent r);
        enqueued = λ x other p u. elim (Requested-suc seen x p) [
          | inl old ↦ ground (
            arith,
            push-contains by_timestamp-IsLess q v.valid ts x,
            v.enqueued x other old (Unreleased-le seen (seen + 1) x (omega arith) u),
          )
          | inr now ↦
              subst (λ y. contains (push by_timestamp q ts) y ≡ true) (sym r.1 ∙ now.1)
                (pushed_self ts)
        ];
        foreign = λ x other c. elim (Bool-cases (is_equal ts (some x))) [
          | inl hit ↦ (seen, omega arith, subst (IsRequest o h seen) ((is_equal_iff ts x).0 hit) r)
          | inr miss ↦
              Requested-le seen (seen + 1) x (omega arith) (
                v.foreign x other
                  (ground (arith, push-contains by_timestamp-IsLess q v.valid ts x)))
        ];
        unreleased = λ x other c. elim (Bool-cases (is_equal ts (some x))) [
          | inl hit ↦
              subst (Unreleased o h (seen + 1)) ((is_equal_iff ts x).0 hit) (new_unreleased r)
          | inr miss ↦
              Unreleased-suc seen x
                (v.unreleased x other
                  (ground (arith, push-contains by_timestamp-IsLess q v.valid ts x)))
                (λ rel. absurd (ground (arith, rel.0, r.0)))
        ];
        own = λ x p c.
            v.own x p
              (ground (arith, push-contains by_timestamp-IsLess q v.valid ts x, is_equal_iff ts x));
        own_in =
            λ x p. ground (arith, push-contains by_timestamp-IsLess q v.valid ts x, v.own_in x p);
      }

      -- Rule 4: the release by another process finds its request in the queue.
      pub remove_foreign-IsQueued :
          IsRelease o h seen ts
          → ((x : Timestamp) → req ≡ some x → x.process ≡ me)
          → (q' : RequestQueue Timestamp) × (remove by_timestamp q ts ≡ some q')
            × IsQueued o h me (seen + 1) q' req
      remove_foreign-IsQueued r mine =
          let (_, asked, once) = hist.releases seen ts b r in
          let (q', w) =
            remove_waiting by_timestamp-IsLess q v.valid ts (v.enqueued ts ne asked once) in
          (
            q',
            w.returns,
            record {
              valid = w.valid;
              enqueued = λ x other p u. elim (Requested-suc seen x p) [
                | inl old ↦ ground (
                  arith,
                  w.rest x,
                  is_equal_iff ts x,
                  released_now x r u,
                  v.enqueued x other old (Unreleased-le seen (seen + 1) x (omega arith) u),
                )
                | inr now ↦ absurd (ground (arith, now.0, r.0))
              ];
              foreign = λ x other c.
                  Requested-le seen (seen + 1) x (omega arith)
                    (v.foreign x other (ground (arith, w.rest x)));
              unreleased = λ x other c.
                  Unreleased-suc seen x (v.unreleased x other (ground (arith, w.rest x)))
                    (λ rel. absurd (ground (arith, w.rest x, is_equal_iff ts x, r.1, rel.1)));
              own = λ x p c. v.own x p (ground (arith, w.rest x));
              own_in = λ x p. ground (arith, w.rest x, is_equal_iff ts x, v.own_in x p, mine x p);
            },
          )
        where
          released_now :
              (x : Timestamp) → IsRelease o h seen ts → Unreleased o h (seen + 1) x → ts ≢ x
          released_now x r u e = u seen (omega arith) (subst (IsRelease o h seen) e r)
