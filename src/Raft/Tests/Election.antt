-- ===== src/Raft/Tests/Election.antt =====
-- An election of three servers.
use distributed_algorithms.Prelude.{ℕ, ◌≡◌, refl, true, arith}
use distributed_algorithms.Raft.Run.{send}
use distributed_algorithms.Raft.Server.{
  Saved, make_persister, persist, save_raft_state, read_persist, read_raft_state, get_last_index,
  get_last_term, last_entry, newer_term, step_down, is_candidate,
}
use distributed_algorithms.Raft.RequestVote.{
  RequestVoteArgs, request_vote, request_vote_args, deal_vote_reply, vote, is_valid_args, may_vote,
  is_up_to_date, announce,
}
use distributed_algorithms.Raft.Api.{make, begin_election, timeout, follow}
use distributed_algorithms.Raft.Steps.{waits}
use distributed_algorithms.Raft.Cluster.{
  Cluster, set_call, send_calls, is_counted, mark_elected, campaigned, broadcasted, replied, dealt,
  campaign, broadcast, answer, deal, act, new_cluster, Reach, start, next,
}
use distributed_algorithms.Raft.Cluster.Election.{election_safety}
use distributed_algorithms.Raft.Tests.{plain}

abbrev Servers : Type 0
Servers = Cluster ℕ (Saved ℕ)

abbrev pub asking : RequestVoteArgs
asking = record { term = 1; candidate_id = 0; last_log_index = 0; last_log_term = 0 }

-- Server 0 becomes a candidate, asks the others, and gets the vote of server 1.
won_run : (c : Servers) × Reach plain 0 3 c × ((c 0).elected 1 ≡ true)
unfolding new_cluster make read_persist read_raft_state make_persister follow campaigned
    begin_election persist save_raft_state broadcasted send_calls request_vote_args get_last_index
    get_last_term last_entry replied set_call request_vote newer_term step_down vote is_valid_args
    may_vote is_up_to_date send dealt is_counted mark_elected deal_vote_reply announce is_candidate
won_run =
    let r1 = next start (act 0 _ (waits timeout refl) (omega arith) tt) in
    let r2 = next r1 (campaign 0 (omega arith)) in
    let r3 = next r2 (broadcast 0 asking (λ j. true) (omega arith) refl refl) in
    let r4 = next r3 (answer 0 1 1 asking _ _ (omega arith) (omega arith) refl refl) in
    let r5 = next r4 (deal 0 1 1 asking _ _ (omega arith) (omega arith) refl refl) in (_, r5, refl)

abbrev winner : ℕ
winner = 0

election_safety_example : winner ≡ winner
election_safety_example =
    election_safety plain 0 3 won_run.0 won_run.1 winner winner 1 won_run.2 won_run.2
