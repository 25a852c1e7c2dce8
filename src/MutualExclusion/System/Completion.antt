-- ===== src/MutualExclusion/System/Completion.antt =====
-- How the runs of the processes go on, and where they end: wait of resource.go.
use distributed_algorithms.Prelude.{
  ℕ, zero, suc, ◌+◌, ◌≤◌, ◌<◌, ◌≡◌, ◌⊎◌, inl, inr, true, false, none, total, total-le, arith,
  ℕ_discrete,
}
use distributed_algorithms.MutualExclusion.Resource.{wait}
use distributed_algorithms.MutualExclusion.Process.{Observer}
use distributed_algorithms.MutualExclusion.System.{
  System, blocked, done, Action, requests, listens, releases, turn, turn_request, Reach, next,
}
use distributed_algorithms.MutualExclusion.System.Invariant.{request_of, is_occupying, owes, Inv}
use distributed_algorithms.MutualExclusion.System.Reachable.{Reach-Inv, turn-Progress}
use distributed_algorithms.MutualExclusion.System.Quiescence.{IsQuiescent, all_served}
use distributed_algorithms.MutualExclusion.System.Termination.Counts.{steps}
use distributed_algorithms.MutualExclusion.System.Termination.Bound.{most_turns, runs_end}

module _ (o : Observer) where
  -- All occupations are over: `wait()` of the resource returns, and nothing is under way.
  pub record IsComplete (n : ℕ) (s : System o) : Type 0 where
    pub returns : wait s.resource ≡ true
    pub spent : s.budget ≡ 0
    pub served : (i : ℕ) → i < n → request_of (s.nodes i) ≡ none
    pub vacant : (i : ℕ) → i < n → is_occupying (s.nodes i) ≡ false

  -- Some process can take a turn.
  abbrev Goes : ℕ → System o → Type 0
  Goes n s = (i : ℕ) × (i < n) × ((a : Action) × ((t : System o) × (turn o s i a 0 ≡ done t)))

  abbrev AllBlocked : ℕ → System o → Type 0
  AllBlocked m s = (i : ℕ) → i < m → (a : Action) → turn o s i a 0 ≡ blocked

  module _ {n : ℕ} (s : System o) (inv : Inv o n s) where
    Goes-at : (i : ℕ) → i < n → ((a : Action) → turn o s i a 0 ≡ blocked) ⊎ Goes n s
    Goes-at i b = elim (turn-Progress o s inv i b requests 0) [
      | inr (t, e, _) ↦ inr (i, b, (requests, (t, e)))
      | inl x ↦ elim (turn-Progress o s inv i b listens 0) [
        | inr (t, e, _) ↦ inr (i, b, (listens, (t, e)))
        | inl y ↦ elim (turn-Progress o s inv i b releases 0) [
          | inr (t, e, _) ↦ inr (i, b, (releases, (t, e)))
          | inl z ↦ inl (all x y z)
        ]
      ]
    ]
      where
        all :
            turn o s i requests 0 ≡ blocked
            → turn o s i listens 0 ≡ blocked
            → turn o s i releases 0 ≡ blocked
            → (a : Action) → turn o s i a 0 ≡ blocked
        all x y z requests = x
        all x y z listens = y
        all x y z releases = z

    Goes-below : (m : ℕ) → m ≤ n → AllBlocked m s ⊎ Goes n s
    Goes-below zero b = inl (λ i c. elim c [ ])
    Goes-below (suc m) b = elim (Goes-below m (omega arith)) [
      | inr goes ↦ inr goes
      | inl below ↦ elim (Goes-at m (omega arith)) [
        | inr goes ↦ inr goes
        | inl here ↦
            inl (λ i c. elim (ℕ_discrete i m) [ yes e ↦ rw e here | no ne ↦ below i (omega arith) ])
      ]
    ]

  request_blocked :
      (s : System o) (i : ℕ)
      → turn o s i requests 0 ≡ blocked
      → (s.nodes i).process.wg ≡ 0
      → s.budget ≡ 0
  unfolding turn turn_request
  request_blocked s i h w = ground arith

  module _ {n times : ℕ} {random : ℕ → ℕ} {s : System o} (two : 1 < n) where
    completed : Reach o n times random s → AllBlocked n s → IsComplete n s
    unfolding wait IsQuiescent
    completed r stuck = record {
      returns = ground (arith, v.shared.owed, spent, nothing);
      spent = spent;
      served = λ i b. (served i b).0;
      vacant = λ i b. (served i b).1;
    }
      where
        v : Inv o n s
        v = Reach-Inv o r

        served :
            (i : ℕ) → i < n → (request_of (s.nodes i) ≡ none) × (is_occupying (s.nodes i) ≡ false)
        served = all_served o r two (λ i b. (stuck i b listens, stuck i b releases))

        first : 0 < n
        first = omega arith

        idle : (s.nodes 0).process.wg ≡ 0
        idle = ground (arith, (v.local 0 first).asking.waits, (served 0 first).0)

        spent : s.budget ≡ 0
        spent = request_blocked s 0 (stuck 0 first requests) idle

        nothing : total owes n s.nodes ≡ 0
        nothing = omega (arith, total-le owes n 0 s.nodes (λ i b. ground (arith, (served i b).0)))

    -- In a reachable state of two or more processes, either all occupations are over and `wait()` of
    -- the resource returns, or some process can take a turn.
    pub deadlock_free : Reach o n times random s → IsComplete n s ⊎ Goes n s
    deadlock_free r = elim (Goes-below s (Reach-Inv o r) n (omega arith)) [
      | inl stuck ↦ inl (completed r stuck)
      | inr goes ↦ inr goes
    ]

  -- The states that a run goes on to.
  pub data Continues (n : ℕ) (s : System o) : System o → Type 0 where
    here : Continues n s s
    then_turn :
        {t u : System o}
        → Continues n s t
        → (i : ℕ) (a : Action) (instant : ℕ) → i < n
        → turn o t i a instant ≡ done u
        → Continues n s u

  completes_within :
      {n times : ℕ} {random : ℕ → ℕ} (s t : System o) (k : ℕ) (r : Reach o n times random t)
      → 1 < n
      → most_turns n times < steps o r + k
      → Continues n s t
      → (u : System o) × Continues n s u × IsComplete n u
  unfolding steps
  completes_within s t zero r two fuel c = absurd (omega (arith, (runs_end o r).1))
  completes_within s t (suc k) r two fuel c = elim (deadlock_free two r) [
    | inl complete ↦ (t, c, complete)
    | inr (i, b, (a, (u, e))) ↦
        completes_within s u k (next r i a 0 b e) two (omega arith) (then_turn c i a 0 b e)
  ]

  -- From every reachable state of two or more processes the run goes on to a state in which all
  -- occupations are over and `wait()` of the resource returns.
  pub reaches_the_end :
      {n times : ℕ} {random : ℕ → ℕ} {s : System o}
      → Reach o n times random s
      → 1 < n
      → (u : System o) × Continues n s u × IsComplete n u
  reaches_the_end {n} {times} {s = s} r two =
      completes_within s s (most_turns n times + 1) r two (omega arith) here
