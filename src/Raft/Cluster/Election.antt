-- ===== src/Raft/Cluster/Election.antt =====
-- The elections that the states of several servers record, for raft-RequestVote.go and newElection.
use distributed_algorithms.Prelude.{
  ℕ, ◌+◌, ◌≤◌, ◌≡◌, ◌≢◌, inl, refl, subst, true, Option, none, some, arith, update, update_all,
  sum-disjoint, ℕ_discrete,
}
use distributed_algorithms.Raft.Server.{
  Codec, Raft, make_persister, copy, read_persist, read_raft_state,
}
use distributed_algorithms.Raft.RequestVote.{RequestVoteArgs}
use distributed_algorithms.Raft.Api.{make}
use distributed_algorithms.Raft.Steps.{votes, counts, campaigns, crashes}
use distributed_algorithms.Raft.Steps.OneVote.{made-Stored, step-IsBound}
use distributed_algorithms.Raft.Cluster.{
  sent, Node, Cluster, drop_calls, Move, campaign, broadcast, answer, deal, act, crash, Reach,
  start, next, new_cluster, campaigned, dealt, crashed, set_server,
}
use distributed_algorithms.Raft.Cluster.Local.{
  local-SameCount, vote-SameCount, vote-granted, crash-SameName,
}
use distributed_algorithms.Raft.Cluster.Invariant.{
  Ballots, is_live, counted, backs, cast, IsGrown, IsCall, IsNode, server-moves, server-IsNode,
}
use distributed_algorithms.Raft.Cluster.Moves.{
  IsSafe, server-IsSafe, campaigned-IsNode, broadcasted-IsNode, replied-IsNode,
}
use distributed_algorithms.Raft.Cluster.Replies.{dealt-IsNode}

-- A ballot is for one server.
one_backed : (o : Option ℕ) (i k : ℕ) → i ≢ k → backs o i + backs o k ≤ 1
unfolding backs
one_backed none i k ne = omega arith
one_backed (some v) i k ne = ground arith

module _ {C B : Type 0} (codec : Codec C B) where
  crashed-IsNode :
      (n i : ℕ) (b : Ballots) (x : Node C B) (z : C)
      → IsNode codec n i b x
      → let b' = update b i (cast (b i) (crashed codec x z).server) in
        IsGrown b b' → IsNode codec n i b' (crashed codec x z)
  unfolding crashed drop_calls is_live counted cast
  crashed-IsNode n i b x z v g =
      let rf = make codec z x.server.peers x.server.me (copy x.server.persister) in
      let w = step-IsBound codec x.server rf (crashes z) v.stored in
      let rf0 = record rf { vote_count = x.server.vote_count } in
      let u =
        server-IsNode codec n i b x rf0 v w.0 w.1 (crash-SameName codec x.server z) (λ e. refl) g in
      record {
        stored = u.stored;
        me = u.me;
        peers = u.peers;
        current = u.current;
        later = u.later;
        opened = λ T h. cc;
        unheard = λ T h. cc;
        future = λ T h k. (refl, refl);
        running = inl (λ e. cc, λ k. refl);
        call = λ k T. tt;
        won = u.won;
      }

  ballot :
      (b : Ballots) (args : RequestVoteArgs) (rf : Raft C B) (i j t : ℕ)
      → IsCall b 0 i j t (sent args)
      → (rf.voted_for ≡ some args.candidate_id) × (rf.current_term ≡ args.term)
      → update b j (cast (b j) rf) j t ≡ some i
  unfolding cast
  ballot b args rf i j t was gives = ground (arith, was, gives)

  calls_asked :
      (c : Cluster C B) (rf : Raft C B) (i j t : ℕ) (args : RequestVoteArgs)
      → (c i).calls j t ≡ sent args
      → (set_server codec c j rf i).calls j t ≡ sent args
  calls_asked c rf i j t args asked = ground (arith, asked)

  new-IsNode : (z : C) (n i : ℕ) → IsNode codec n i (λ j T. none) (new_cluster codec z n i)
  unfolding new_cluster make read_persist read_raft_state make_persister is_live counted
  new-IsNode z n i = record {
    stored = made-Stored codec z n i;
    me = refl;
    peers = refl;
    current = refl;
    later = λ T h. refl;
    opened = λ T h. cc;
    unheard = λ T h. cc;
    future = λ T h k. (refl, refl);
    running = inl (λ e. cc, λ k. refl);
    call = λ k T. tt;
    won = λ T h. cc;
  }

  Move-IsSafe : (n : ℕ) (c d : Cluster C B) → IsSafe codec n c → Move codec n c d → IsSafe codec n d
  unfolding campaigned dealt crashed
  Move-IsSafe n c d (b, v) (campaign i bi) = (
    _,
    server-moves codec n b c v i (campaigned codec (c i))
        (step-IsBound codec (c i).server _ campaigns (v i).stored).0
        (campaigned-IsNode codec n i b (c i) (v i)),
  )
  Move-IsSafe n c d (b, v) (broadcast i args candidate bi pending h) = (
    b,
    λ k.
        update_all (λ k. IsNode codec n k b) c i _
          (broadcasted-IsNode codec n i b (c i) args candidate (v i) pending h) k (λ ne. v k),
  )
  Move-IsSafe n c d (b, v) (answer i j t args rf reply bi bj asked h) =
      let step = votes args reply h in
      let same = vote-SameCount codec (c j).server rf args reply h in
      let b' = update b j (cast (b j) rf) in
      let v' =
        server-IsSafe codec n b c v j rf (step-IsBound codec (c j).server rf step (v j).stored)
          same.0 (λ e. same.1) in
      let x = set_server codec c j rf i in
      let was = subst (IsCall b n i j t) asked ((v i).call j t) in
      let gives = vote-granted codec (c j).server rf args reply h in
      (
        b',
        λ k.
            update_all (λ k. IsNode codec n k b') (set_server codec c j rf) i _
              (replied-IsNode codec n i j t b' x args reply (v' i)
                (calls_asked c rf i j t args asked) (λ y. ballot b args rf i j t was (gives y)))
              k (λ ne. v' k),
      )
  Move-IsSafe n c d (b, v) (deal i j t args rf reply bi bj asked h) = (
    _,
    server-moves codec n b c v i (dealt codec (c i) j t args reply rf)
        (step-IsBound codec (c i).server rf (counts args reply h) (v i).stored).0
        (dealt-IsNode codec n i j t b (c i) args reply rf bi bj (v i) asked h),
  )
  Move-IsSafe n c d (b, v) (act j rf s bj l) = (
    _,
    server-IsSafe codec n b c v j rf (step-IsBound codec (c j).server rf s (v j).stored)
        (local-SameCount codec (c j).server rf s l).0
        (λ e. (local-SameCount codec (c j).server rf s l).1),
  )
  Move-IsSafe n c d (b, v) (crash j z bj) = (
    _,
    server-moves codec n b c v j (crashed codec (c j) z)
        (step-IsBound codec (c j).server _ (crashes z) (v j).stored).0
        (crashed-IsNode n j b (c j) z (v j)),
  )

  pub Reach-IsSafe : (z : C) (n : ℕ) (c : Cluster C B) → Reach codec z n c → IsSafe codec n c
  Reach-IsSafe z n c start = (λ j T. none, new-IsNode z n)
  Reach-IsSafe z n d (next {c = c} r m) = Move-IsSafe n c d (Reach-IsSafe z n c r) m

  -- In every state that `n` new servers reach, over a network that loses and delays messages and with
  -- crashes and restarts, two servers that have put something into chanBeElected in the same term
  -- are the same server, if every broadcast of requests for votes reads its arguments before the
  -- term of its server changes.
  pub election_safety :
      (z : C) (n : ℕ) (c : Cluster C B)
      → Reach codec z n c
      → (i k t : ℕ) → (c i).elected t ≡ true
      → (c k).elected t ≡ true
      → i ≡ k
  unfolding backs
  election_safety z n c r i k t h g =
      let (b, v) = Reach-IsSafe z n c r in
      elim (ℕ_discrete i k) [
        | yes e ↦ e
        | no ne ↦ absurd (
            omega (
              arith,
              (v i).won t h,
              (v k).won t g,
              sum-disjoint n (λ j. backs (b j t) i) (λ j. backs (b j t) k)
                  (λ j bj. one_backed (b j t) i k ne),
            ))
      ]
