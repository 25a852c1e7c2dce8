-- ===== src/Raft/Cluster/Calls.antt =====
-- The table of a candidate's calls, and the votes that are counted in it.
use distributed_algorithms.Prelude.{
  ℕ, ◌+◌, ◌≤◌, ◌<◌, ◌≡◌, ◌≢◌, ◌⊎◌, inl, inr, refl, sym, subst, Bool, true, false, some, arith, sum,
  sum-lt,
}
use distributed_algorithms.Raft.RequestVote.{RequestVoteArgs}
use distributed_algorithms.Raft.Cluster.{Call, absent, sent, answered, closed, set_call, send_calls}
use distributed_algorithms.Raft.Cluster.Invariant.{Ballots, counted, backs, IsCall}

-- A call is written, or one that was there is.
pub set_call-cases :
    (calls : ℕ → ℕ → Call) (j t : ℕ) (call : Call) (k u : ℕ)
    → ((k ≡ j) × (u ≡ t) × (set_call calls j t call k u ≡ call))
      ⊎ (set_call calls j t call k u ≡ calls k u)
unfolding set_call
set_call-cases calls j t call k u = ground arith

pub send_calls-cases :
    (calls : ℕ → ℕ → Call) (n me : ℕ) (args : RequestVoteArgs) (candidate : ℕ → Bool) (k u : ℕ)
    → ((k ≢ me) × (u ≡ args.term) × (send_calls calls n me args candidate k u ≡ sent args))
      ⊎ (send_calls calls n me args candidate k u ≡ calls k u)
unfolding send_calls
send_calls-cases calls n me args candidate k u = ground arith

pub IsCall-set :
    (b : Ballots) (n i : ℕ) (calls : ℕ → ℕ → Call) (j t : ℕ) (call : Call)
    → ((k T : ℕ) → IsCall b n i k T (calls k T))
    → IsCall b n i j t call
    → (k T : ℕ) → IsCall b n i k T (set_call calls j t call k T)
IsCall-set b n i calls j t call all new k T = elim (set_call-cases calls j t call k T) [
  | inl (r, s, e) ↦
      subst (IsCall b n i k T) (sym e) (
        subst (λ k. IsCall b n i k T call) (sym r) (subst (λ T. IsCall b n i j T call) (sym s) new))
  | inr e ↦ subst (IsCall b n i k T) (sym e) (all k T)
]

-- A vote that has been counted is a ballot of another server.
pub counted-le :
    (b : Ballots) (n i k T : ℕ) (call : Call)
    → IsCall b n i k T call
    → counted call ≤ backs (b k T) i
unfolding counted backs
counted-le b n i k T absent c = omega arith
counted-le b n i k T (sent args) c = omega arith
counted-le b n i k T (answered args reply) c = omega arith
counted-le b n i k T (closed true) c = ground (arith, c.1)
counted-le b n i k T (closed false) c = omega arith

pub counted_self :
    (b : Ballots) (n i T : ℕ) (call : Call) → IsCall b n i i T call → counted call ≡ 0
unfolding counted
counted_self b n i T absent c = refl
counted_self b n i T (sent args) c = refl
counted_self b n i T (answered args reply) c = refl
counted_self b n i T (closed true) c = absurd (c.0 refl)
counted_self b n i T (closed false) c = refl

-- The counted votes and the candidate's own.
pub votes-le :
    (b : Ballots) (n i T : ℕ) (calls : ℕ → Call)
    → i < n
    → ((k : ℕ) → IsCall b n i k T (calls k))
    → b i T ≡ some i
    → sum n (λ k. counted (calls k)) + 1 ≤ sum n (λ k. backs (b k T) i)
unfolding backs
votes-le b n i T calls below all own = omega (
  arith,
  sum-lt n (λ k. counted (calls k)) (λ k. backs (b k T) i) i below
      (λ k c. counted-le b n i k T (calls k) (all k))
      (ground (arith, counted_self b n i T (calls i) (all i), own)),
)
