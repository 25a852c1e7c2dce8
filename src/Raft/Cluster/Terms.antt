-- ===== src/Raft/Cluster/Terms.antt =====
-- The term 0 in the elections among servers (newElection of raft-API.go, raft-RequestVote.go).
use distributed_algorithms.Prelude.{
  ℕ, ◌<◌, ◌≡◌, ◌≢◌, inl, inr, refl, sym, ◌∙◌, Bool, true, false, some, arith, Bool-cases,
  update_all, subst, ℕ_discrete,
}
use distributed_algorithms.Raft.Run.{ok}
use distributed_algorithms.Raft.Server.{Codec, Raft}
use distributed_algorithms.Raft.RequestVote.{
  RequestVoteArgs, RequestVoteReply, request_vote_args, deal_vote_reply,
}
use distributed_algorithms.Raft.Cluster.{
  sent, answered, Node, Cluster, set_call, send_calls, drop_calls, is_counted, mark_elected,
  set_server, campaigned, broadcasted, replied, dealt, crashed, Move, campaign, broadcast, answer,
  deal, act, crash, new_cluster, Reach, start, next,
}
use distributed_algorithms.Raft.Cluster.Local.{args_lem, deal_uncounted, deal_counted}
use distributed_algorithms.Raft.Cluster.Invariant.{is_live, IsCall}
use distributed_algorithms.Raft.Cluster.Moves.{IsSafe}
use distributed_algorithms.Raft.Cluster.Election.{Reach-IsSafe}

module _ {C B : Type 0} (codec : Codec C B) where
  -- No election, no call and no success of a server is of the term 0.
  record IsLate (x : Node C B) : Type 0 where
    election : (t : ℕ) → x.election ≡ some t → 0 < t
    calls : (j : ℕ) → is_live (x.calls j 0) ≡ false
    elected : x.elected 0 ≡ false

  broadcasted-IsLate :
      (n : ℕ) (x : Node C B) (args : RequestVoteArgs) (still : ℕ → Bool)
      → x.election ≡ some x.server.current_term
      → request_vote_args codec x.server ≡ ok args
      → IsLate x
      → IsLate (broadcasted codec x n args still)
  unfolding broadcasted send_calls is_live
  broadcasted-IsLate n x args still pending h v = record {
    election = λ t e. cc;
    calls = λ j. ground (
      arith,
      v.calls j,
      args_lem codec x.server args h,
      v.election x.server.current_term pending,
    );
    elected = v.elected;
  }

  replied-IsLate :
      (x : Node C B) (j t : ℕ) (args : RequestVoteArgs) (reply : RequestVoteReply)
      → x.calls j t ≡ sent args
      → IsLate x
      → IsLate (replied codec x j t args reply)
  unfolding replied set_call is_live
  replied-IsLate x j t args reply h v = record {
    election = v.election;
    calls = λ k. ground (arith, v.calls k, v.calls j);
    elected = v.elected;
  }

  dealt-IsLate :
      (x : Node C B) (j t : ℕ) (args : RequestVoteArgs) (reply : RequestVoteReply) (rf : Raft C B)
      → x.calls j t ≡ answered args reply
      → args.term ≡ t
      → deal_vote_reply codec x.server args reply ≡ ok rf
      → IsLate x
      → IsLate (dealt codec x j t args reply rf)
  unfolding dealt set_call mark_elected is_live
  dealt-IsLate x j t args reply rf h e k v = record {
    election = v.election;
    calls = λ i. ground (arith, v.calls i);
    elected = elim (Bool-cases (is_counted codec x.server args reply)) [
      | inl f ↦
          let y = deal_counted codec x.server rf args reply k f in
          ground (arith, v.calls j, v.elected, y.1, e)
      | inr f ↦
          let y = deal_uncounted codec x.server rf args reply k f in ground (arith, v.elected, y.1)
    ];
  }

  Move-IsLate :
      (n : ℕ) (c d : Cluster C B)
      → IsSafe codec n c
      → ((k : ℕ) → IsLate (c k))
      → Move codec n c d
      → (k : ℕ) → IsLate (d k)
  unfolding campaigned crashed drop_calls is_live
  Move-IsLate n c d s v (campaign i b) k =
      update_all (λ k. IsLate) c i _
        (record { election = λ t e. ground arith; calls = (v i).calls; elected = (v i).elected }) k
        (λ ne. v k)
  Move-IsLate n c d s v (broadcast i args still b p h) k =
      update_all (λ k. IsLate) c i _ (broadcasted-IsLate n (c i) args still p h (v i)) k (λ ne. v k)
  Move-IsLate n c d s v (answer i j t args rf reply b b' q h) k =
      let e = set_server codec c j rf in
      let w : (k : ℕ) → IsLate (e k) = λ k.
        update_all (λ k. IsLate) c j (record (c j) { server = rf })
          (record { election = (v j).election; calls = (v j).calls; elected = (v j).elected }) k
          (λ ne. v k) in
      update_all (λ k. IsLate) e i _ (replied-IsLate (e i) j t args reply (ground (arith, q)) (w i))
        k (λ ne. w k)
  Move-IsLate n c d s v (deal i j t args rf reply b b' q h) k =
      let call = subst (IsCall (s.0) n i j t) q ((s.1 i).call j t) in
      update_all (λ k. IsLate) c i _ (dealt-IsLate (c i) j t args reply rf q call.0 h (v i)) k
        (λ ne. v k)
  Move-IsLate n c d s v (act j rf st b l) k =
      update_all (λ k. IsLate) c j (record (c j) { server = rf })
        (record { election = (v j).election; calls = (v j).calls; elected = (v j).elected }) k
        (λ ne. v k)
  Move-IsLate n c d s v (crash j x b) k =
      update_all (λ k. IsLate) c j _
        (record { election = λ t e. cc; calls = λ i. refl; elected = (v j).elected }) k (λ ne. v k)

  Reach-IsLate : (z : C) (n : ℕ) (c : Cluster C B) → Reach codec z n c → (k : ℕ) → IsLate (c k)
  unfolding new_cluster is_live
  Reach-IsLate z n c start k = record { election = λ t e. cc; calls = λ j. refl; elected = refl }
  Reach-IsLate z n d (next {c = c} r m) k =
      Move-IsLate n c d (Reach-IsSafe codec z n c r) (Reach-IsLate z n c r) m k

  -- Nobody is elected in the term 0.
  pub elected_late :
      (z : C) (n : ℕ) (c : Cluster C B)
      → Reach codec z n c
      → (i t : ℕ) → (c i).elected t ≡ true
      → 0 < t
  elected_late z n c r i t h = elim (ℕ_discrete t 0) [
    | no ne ↦ omega arith
    | yes e ↦ absurd (both (sym (Reach-IsLate z n c r i).elected ∙ (rw e at h)))
  ]
    where
      both : false ≢ true
      both e = cc
