-- ===== src/Raft/Cluster/Moves.antt =====
-- The invariant under the moves of one server, its elections and the answers to its calls.
use distributed_algorithms.Prelude.{
  ℕ, ◌+◌, ◌≡◌, inl, inr, refl, sym, subst, Bool, true, some, arith, update, sum-none, sum-same,
}
use distributed_algorithms.Raft.Run.{ok}
use distributed_algorithms.Raft.Server.{Codec, Raft, persist}
use distributed_algorithms.Raft.RequestVote.{RequestVoteArgs, RequestVoteReply, request_vote_args}
use distributed_algorithms.Raft.Api.{begin_election}
use distributed_algorithms.Raft.Steps.{campaigns}
use distributed_algorithms.Raft.Steps.Bound.{IsBound}
use distributed_algorithms.Raft.Steps.OneVote.{Stored, step-IsBound}
use distributed_algorithms.Raft.Cluster.{
  sent, answered, Node, Cluster, set_call, send_calls, campaigned, broadcasted, replied, set_server,
}
use distributed_algorithms.Raft.Cluster.Local.{SameName, args_lem}
use distributed_algorithms.Raft.Cluster.Invariant.{
  Ballots, is_live, counted, cast, IsGrown, IsCall, IsNode, server-moves, server-IsNode,
}
use distributed_algorithms.Raft.Cluster.Calls.{send_calls-cases, IsCall-set}

module _ {C B : Type 0} (codec : Codec C B) where
  -- The ballots tell a state that is safe.
  abbrev pub IsSafe : ℕ → Cluster C B → Type 0
  IsSafe n c = (b : Ballots) × ((k : ℕ) → IsNode codec n k b (c k))

  -- A server moves and its elections stay.
  pub server-IsSafe :
      (n : ℕ) (b : Ballots) (c : Cluster C B)
      → ((k : ℕ) → IsNode codec n k b (c k))
      → (i : ℕ) (rf : Raft C B) → IsBound codec (c i).server rf × Stored codec rf
      → SameName (c i).server rf
      → (rf.current_term ≡ (c i).server.current_term → rf.vote_count ≡ (c i).server.vote_count)
      → (k : ℕ) → IsNode codec n k (update b i (cast (b i) rf)) (set_server codec c i rf k)
  server-IsSafe n b c v i rf bound name count =
      server-moves codec n b c v i (record (c i) { server = rf }) bound.0
        (server-IsNode codec n i b (c i) rf (v i) bound.0 bound.1 name count)

  pub campaigned-IsNode :
      (n i : ℕ) (b : Ballots) (x : Node C B)
      → IsNode codec n i b x
      → let b' = update b i (cast (b i) (begin_election codec x.server)) in
        IsGrown b b' → IsNode codec n i b' (campaigned codec x)
  unfolding campaigned begin_election persist cast
  campaigned-IsNode n i b x v g =
      let w = step-IsBound codec x.server (begin_election codec x.server) campaigns v.stored in
      let u =
        server-IsNode codec n i b x (begin_election codec x.server) v w.0 w.1 (refl, refl)
          (λ e. absurd (omega (arith, e))) g in
      record {
        stored = u.stored;
        me = u.me;
        peers = u.peers;
        current = u.current;
        later = u.later;
        opened = λ T h. ground arith;
        unheard = λ T h. v.future T (ground arith);
        future = u.future;
        running = inr (
          ground (arith, v.me),
          omega (
            arith,
            sum-none n (λ j. counted (x.calls j (x.server.current_term + 1)))
                (λ j c. (v.future (x.server.current_term + 1) (omega arith) j).1),
          ),
        );
        call = u.call;
        won = u.won;
      }

  pub broadcasted-IsNode :
      (n i : ℕ) (b : Ballots) (x : Node C B) (args : RequestVoteArgs) (candidate : ℕ → Bool)
      → IsNode codec n i b x
      → x.election ≡ some x.server.current_term
      → request_vote_args codec x.server ≡ ok args
      → IsNode codec n i b (broadcasted codec x n args candidate)
  unfolding broadcasted send_calls is_live counted
  broadcasted-IsNode n i b x args candidate v pending h =
      let w = args_lem codec x.server args h in
      let unused = v.unheard x.server.current_term pending in
      record {
        stored = v.stored;
        me = v.me;
        peers = v.peers;
        current = v.current;
        later = v.later;
        opened = λ T f. cc;
        unheard = λ T f. cc;
        future = λ T f j. (ground (arith, v.future T f j), ground (arith, v.future T f j));
        running = elim v.running [
          | inl idle ↦ absurd (idle.0 pending)
          | inr runs ↦ inr (
            runs.0,
            omega (
              arith,
              runs.1,
              sum-same n (λ j. counted (x.calls j x.server.current_term))
                  (λ j.
                    counted
                      (send_calls x.calls n x.server.me args candidate j x.server.current_term))
                  (λ j c. ground (arith, unused j)),
            ),
          )
        ];
        call = λ j T. elim (send_calls-cases x.calls n x.server.me args candidate j T) [
          | inl (ne, r, e) ↦
              subst (IsCall b n i j T) (sym e)
                (ground (arith, v.me), ground (arith, v.me), ground (arith, v.me))
          | inr e ↦ subst (IsCall b n i j T) (sym e) (v.call j T)
        ];
        won = v.won;
      }

  pub replied-IsNode :
      (n i j t : ℕ) (b : Ballots) (x : Node C B) (args : RequestVoteArgs) (reply : RequestVoteReply)
      → IsNode codec n i b x
      → x.calls j t ≡ sent args
      → (reply.vote_granted ≡ true → b j t ≡ some i)
      → IsNode codec n i b (replied codec x j t args reply)
  unfolding replied set_call is_live counted
  replied-IsNode n i j t b x args reply v asked granted =
      let was = subst (IsCall b n i j t) asked (v.call j t) in
      record {
        stored = v.stored;
        me = v.me;
        peers = v.peers;
        current = v.current;
        later = v.later;
        opened = v.opened;
        unheard = λ T f k. ground (arith, v.unheard T f k);
        future = λ T f k. ground (arith, v.future T f k);
        running = elim v.running [
          | inl idle ↦ inl (idle.0, λ k. ground (arith, idle.1 k))
          | inr runs ↦ inr (
            runs.0,
            omega (
              arith,
              runs.1,
              sum-same n (λ k. counted (x.calls k x.server.current_term))
                  (λ k.
                    counted (set_call x.calls j t (answered args reply) k x.server.current_term))
                  (λ k c. ground arith),
            ),
          )
        ];
        call = IsCall-set b n i x.calls j t (answered args reply) v.call (was.0, was.2, granted);
        won = v.won;
      }
