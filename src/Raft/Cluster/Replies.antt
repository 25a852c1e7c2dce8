-- ===== src/Raft/Cluster/Replies.antt =====
-- The invariant when a reply comes in.
use distributed_algorithms.Prelude.{
  ℕ, ◌+◌, ◌*◌, ◌<◌, ◌≡◌, ◌⊎◌, inl, inr, refl, sym, subst, ◌∙◌, Bool, true, false, some, arith,
  Bool-cases, update, sum, sum-same, sum-suc,
}
use distributed_algorithms.Raft.Run.{ok}
use distributed_algorithms.Raft.Server.{Codec, Raft}
use distributed_algorithms.Raft.RequestVote.{RequestVoteArgs, RequestVoteReply, deal_vote_reply}
use distributed_algorithms.Raft.Steps.{counts}
use distributed_algorithms.Raft.Steps.OneVote.{step-IsBound}
use distributed_algorithms.Raft.Cluster.{
  answered, closed, Node, set_call, is_counted, mark_elected, dealt,
}
use distributed_algorithms.Raft.Cluster.Local.{deal-SameName, deal_uncounted, deal_counted}
use distributed_algorithms.Raft.Cluster.Invariant.{
  Ballots, is_live, counted, backs, cast, IsGrown, IsCall, IsNode, server-IsNode,
}
use distributed_algorithms.Raft.Cluster.Calls.{IsCall-set, votes-le}

module _ {C B : Type 0} (codec : Codec C B) where
  -- A call ends without a vote.
  closed-IsNode :
      (n i j t : ℕ) (b : Ballots) (x : Node C B) (elected : ℕ → Bool)
      → IsNode codec n i b x
      → counted (x.calls j t) ≡ 0
      → ((T : ℕ) → elected T ≡ x.elected T)
      → IsNode codec n i b
          (record x { calls = set_call x.calls j t (closed false); elected = elected })
  unfolding set_call is_live counted
  closed-IsNode n i j t b x elected v none_yet same = record {
    stored = v.stored;
    me = v.me;
    peers = v.peers;
    current = v.current;
    later = v.later;
    opened = v.opened;
    unheard = λ T f k. ground (arith, v.unheard T f k);
    future = λ T f k. ground (arith, v.future T f k);
    running = elim v.running [
      | inl idle ↦ inl (idle.0, λ k. ground (arith, idle.1 k))
      | inr runs ↦ inr (
        runs.0,
        omega (
          arith,
          runs.1,
          sum-same n (λ k. counted (x.calls k x.server.current_term))
              (λ k. counted (set_call x.calls j t (closed false) k x.server.current_term))
              (λ k c. ground arith),
        ),
      )
    ];
    call = IsCall-set b n i x.calls j t (closed false) v.call tt;
    won = λ T h. v.won T (sym (same T) ∙ h);
  }

  dealt_uncounted-IsNode :
      (n i j t : ℕ) (b : Ballots) (x : Node C B) (args : RequestVoteArgs) (reply : RequestVoteReply)
      (rf : Raft C B)
      → IsNode codec n i b x
      → x.calls j t ≡ answered args reply
      → deal_vote_reply codec x.server args reply ≡ ok rf
      → is_counted codec x.server args reply ≡ false
      → let b' = update b i (cast (b i) rf) in
        IsGrown b b' → IsNode codec n i b' (dealt codec x j t args reply rf)
  unfolding dealt mark_elected counted
  dealt_uncounted-IsNode n i j t b x args reply rf v asked h f g =
      let w = step-IsBound codec x.server rf (counts args reply h) v.stored in
      let same = deal_uncounted codec x.server rf args reply h f in
      let u =
        server-IsNode codec n i b x rf v w.0 w.1 (deal-SameName codec x.server rf args reply h)
          (λ e. same.0) g in
      let z =
        closed-IsNode n i j t _ (record x { server = rf })
          (mark_elected codec x.elected x.server rf) u (ground arith) (λ T. ground arith) in
      subst
        (λ r. IsNode codec n i (update b i (cast (b i) rf)) (record x {
          server = rf;
          calls = set_call x.calls j t (closed r);
          elected = mark_elected codec x.elected x.server rf;
        }))
        (sym f) z

  -- A call ends with a vote.
  counted-IsNode :
      (n i j t tally : ℕ) (b : Ballots) (x : Node C B) (args : RequestVoteArgs)
      (reply : RequestVoteReply) (elected : ℕ → Bool)
      → i < n
      → j < n
      → IsNode codec n i b x
      → x.calls j t ≡ answered args reply
      → t ≡ x.server.current_term
      → b j t ≡ some i
      → tally ≡ x.server.vote_count + 1
      → ((T : ℕ) → elected T ≡ true → (x.elected T ≡ true) ⊎ ((T ≡ t) × (n < 2 * tally)))
      → IsNode codec n i b (record x {
        server = record x.server { vote_count = tally };
        calls = set_call x.calls j t (closed true);
        elected = elected;
      })
  unfolding set_call is_live counted
  counted-IsNode n i j t tally b x args reply elected bi bj v asked term vote count marked =
      let was = subst (IsCall b n i j t) asked (v.call j t) in
      let calls = set_call x.calls j t (closed true) in
      let all = IsCall-set b n i x.calls j t (closed true) v.call (was.1, vote) in
      let adds : sum n (λ k. counted (calls k t)) ≡ sum n (λ k. counted (x.calls k t)) + 1 =
        sum-suc n (λ k. counted (x.calls k t)) (λ k. counted (calls k t)) j bj
          (λ k c ne. ground arith) (ground arith) in
      let runs : (b i t ≡ some i) × (x.server.vote_count ≡ sum n (λ k. counted (x.calls k t)) + 1) =
        elim v.running [
          | inl idle ↦ absurd (ground (arith, term, asked, idle.1 j))
          | inr runs ↦ rw term runs
        ] in
      let goes : (b i t ≡ some i) × (tally ≡ sum n (λ k. counted (calls k t)) + 1) =
        (runs.0, omega (arith, count, runs.1, adds)) in
      record {
        stored = v.stored;
        me = v.me;
        peers = v.peers;
        current = v.current;
        later = v.later;
        opened = v.opened;
        unheard = λ T f k. ground (arith, v.unheard T f k);
        future = λ T f k. ground (arith, v.future T f k);
        running = inr (rw (sym term) goes);
        call = all;
        won = λ T h. elim (marked T h) [
          | inl before ↦ v.won T before
          | inr (e, most) ↦
              let le = votes-le b n i t (λ k. calls k t) bi (λ k. all k t) runs.0 in
              let wins : n < 2 * sum n (λ j. backs (b j t) i) = omega (arith, le, most, goes.1) in
              rw e wins
        ];
      }

  dealt_counted-IsNode :
      (n i j t : ℕ) (b : Ballots) (x : Node C B) (args : RequestVoteArgs) (reply : RequestVoteReply)
      (rf : Raft C B)
      → i < n
      → j < n
      → IsNode codec n i b x
      → x.calls j t ≡ answered args reply
      → deal_vote_reply codec x.server args reply ≡ ok rf
      → is_counted codec x.server args reply ≡ true
      → let b' = update b i (cast (b i) rf) in
        IsGrown b b' → IsNode codec n i b' (dealt codec x j t args reply rf)
  unfolding dealt mark_elected cast
  dealt_counted-IsNode n i j t b x args reply rf bi bj v asked h f g =
      let w = step-IsBound codec x.server rf (counts args reply h) v.stored in
      let (more, term, granted, same_term, same_vote, majority) =
        deal_counted codec x.server rf args reply h f in
      let rf0 = record rf { vote_count = x.server.vote_count } in
      let u =
        server-IsNode codec n i b x rf0 v w.0 w.1 (deal-SameName codec x.server rf args reply h)
          (λ e. refl) g in
      let was = subst (IsCall b n i j t) asked (v.call j t) in
      let z =
        counted-IsNode n i j t rf.vote_count _ (record x { server = rf0 }) args reply
          (mark_elected codec x.elected x.server rf) bi bj u asked
          (sym was.0 ∙ (term ∙ sym same_term)) (g j t i (was.2 granted)) more
          (λ T k. ground (arith, k, majority, v.peers, term, was.0)) in
      subst
        (λ r. IsNode codec n i (update b i (cast (b i) rf)) (record x {
          server = rf;
          calls = set_call x.calls j t (closed r);
          elected = mark_elected codec x.elected x.server rf;
        }))
        (sym f) z

  pub dealt-IsNode :
      (n i j t : ℕ) (b : Ballots) (x : Node C B) (args : RequestVoteArgs) (reply : RequestVoteReply)
      (rf : Raft C B)
      → i < n
      → j < n
      → IsNode codec n i b x
      → x.calls j t ≡ answered args reply
      → deal_vote_reply codec x.server args reply ≡ ok rf
      → let b' = update b i (cast (b i) rf) in
        IsGrown b b' → IsNode codec n i b' (dealt codec x j t args reply rf)
  dealt-IsNode n i j t b x args reply rf bi bj v asked h g =
      elim (Bool-cases (is_counted codec x.server args reply)) [
        | inl e ↦ dealt_counted-IsNode n i j t b x args reply rf bi bj v asked h e g
        | inr e ↦ dealt_uncounted-IsNode n i j t b x args reply rf v asked h e g
      ]
