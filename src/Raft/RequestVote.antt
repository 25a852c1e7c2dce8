-- ===== src/Raft/RequestVote.antt =====
-- raft-RequestVote.go: the vote that a candidate asks for, and the count of the votes.
pub mod Votes
use distributed_algorithms.Prelude.{
  ℕ, ◌+◌, ◌*◌, Bool, true, false, not, ◌&&◌, ◌||◌, Option, none, some, List, ltb, leb, ◌==◌,
  if◌then◌else◌,
}
use distributed_algorithms.Raft.Run.{Run, ok, ◌>>=◌, send}
use distributed_algorithms.Raft.Server.{
  LogEntry, Codec, Raft, get_last_index, get_last_term, is_candidate, persist, step_down,
  newer_term,
}

pub record RequestVoteArgs : Type 0 where
  pub term : ℕ
  pub candidate_id : ℕ
  pub last_log_index : ℕ
  pub last_log_term : ℕ

pub record RequestVoteReply : Type 0 where
  pub term : ℕ
  pub vote_granted : Bool

unfoldable pub is_up_to_date : RequestVoteArgs → ℕ → ℕ → Bool
is_up_to_date args term index =
    ltb term args.last_log_term || ((args.last_log_term == term) && leb index args.last_log_index)

-- `votedFor == NOBODY || votedFor == candidate`
unfoldable pub may_vote : Option ℕ → ℕ → Bool
may_vote none candidate = true
may_vote (some c) candidate = c == candidate

module _ {C B : Type 0} where
  unfoldable pub is_valid_args : Raft C B → RequestVoteArgs → Run Bool
  unfolding may_vote is_up_to_date
  is_valid_args rf args = do
    term ← get_last_term rf.logs
    index ← get_last_index rf.logs
    ok (may_vote rf.voted_for args.candidate_id && is_up_to_date args term index)

  module _ (codec : Codec C B) where
    -- The handler after the check of the term. The deferred persist() comes last.
    unfoldable pub vote : Raft C B → RequestVoteArgs → Bool → Run (Raft C B × RequestVoteReply)
    unfolding persist
    vote rf args false =
        ok (persist codec rf, record { term = rf.current_term; vote_granted = false })
    vote rf args true = do
      beats ← send rf.chan_heart_beat
      ok (
        persist codec (record rf { voted_for = some args.candidate_id; chan_heart_beat = beats }),
        record { term = rf.current_term; vote_granted = true },
      )

    unfoldable pub request_vote : Raft C B → RequestVoteArgs → Run (Raft C B × RequestVoteReply)
    unfolding newer_term vote
    request_vote rf args =
        let seen = newer_term codec rf args.term in
        if ltb args.term rf.current_term
        then ok (rf, record { term = rf.current_term; vote_granted = false })
        else (do valid ← is_valid_args seen args; vote seen args valid)

    -- The arguments that broadcastRequestVote sends to every other server.
    unfoldable pub request_vote_args : Raft C B → Run RequestVoteArgs
    request_vote_args rf = do
      last_term ← get_last_term rf.logs
      last_index ← get_last_index rf.logs
      ok (record {
        term = rf.current_term;
        candidate_id = rf.me;
        last_log_index = last_index;
        last_log_term = last_term;
      })

    -- `if 2*rf.voteCount > len(rf.peers) && rf.isCandidate() { rf.chanBeElected <- struct{}{} }`
    unfoldable pub announce : Raft C B → Run (Raft C B)
    announce rf =
        if ltb rf.peers (2 * rf.vote_count) && is_candidate rf.state
        then (do n ← send rf.chan_be_elected; ok (record rf { chan_be_elected = n }))
        else ok rf

    -- sendRequestVoteAndDealReply, once the reply has come.
    unfoldable pub deal_vote_reply : Raft C B → RequestVoteArgs → RequestVoteReply → Run (Raft C B)
    unfolding persist step_down announce
    deal_vote_reply rf args reply =
        if ltb rf.current_term reply.term
        then ok (persist codec (step_down codec rf reply.term))
        else if not (rf.current_term == args.term) || not reply.vote_granted
        then ok rf
        else announce (record rf { vote_count = rf.vote_count + 1 })
