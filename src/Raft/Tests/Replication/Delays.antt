-- ===== src/Raft/Tests/Replication/Delays.antt =====
-- A heart beat that comes late, and a call whose entries were overwritten before it was encoded.
use distributed_algorithms.Prelude.{ℕ, ◌<◌, ◌≡◌, refl, true, arith, [], ◌∷◌}
use distributed_algorithms.Raft.Run.{ok, panic, send}
use distributed_algorithms.Raft.Server.{
  LogEntry, Saved, Raft, leader, make_persister, persist, save_raft_state, read_persist,
  read_raft_state, get_last_index, get_last_term, get_base_index, min, last_entry, newer_term,
  step_down, is_candidate, is_leader,
}
use distributed_algorithms.Raft.RequestVote.{
  request_vote, request_vote_args, deal_vote_reply, vote, is_valid_args, may_vote, is_up_to_date,
  announce,
}
use distributed_algorithms.Raft.AppendEntries.{
  AppendEntriesArgs, AppendEntriesReply, append_entries, match_prev, check_prev, accept, refuse,
  overwrite, slice_to, follow_commit,
}
use distributed_algorithms.Raft.Leader.{
  entries_args, new_append_entries_args, has_copy, count_copies, scan_commit, commit, messages,
  broadcast_append_entries, note_copies, deal_append_reply,
}
use distributed_algorithms.Raft.Api.{
  make, begin_election, timeout, elected, follow, receive, come_to_power, await_votes, start, apply,
  apply_from, apply_msg,
}
use distributed_algorithms.Raft.Steps.{powers, waits, awaits}
use distributed_algorithms.Raft.Cluster.{
  set_call, send_calls, is_counted, mark_elected, campaigned, broadcasted, replied, dealt, campaign,
  broadcast, answer, deal, act, new_cluster,
}
use distributed_algorithms.Raft.Replicas.{
  encodes, address, elects, sends, receives, new_replicas, History, goes_on,
}
use distributed_algorithms.Raft.Tests.{plain}
use distributed_algorithms.Raft.Tests.Election.{asking}
use distributed_algorithms.Raft.Tests.Replication.{
  command_entry, Replicas3, led, offered, copied, both, noted_next, noted_match, first_entry, ahead,
  behind, late, no_leader,
}

-- Server 0 commits the entry and says so to server 1. Before applyLoop of server 1 takes it up, the
-- first heart beat, which was late, cuts the log below CommitIndex.
overrun : (s : Replicas3) × History plain 0 3 s × (apply (s.cluster 1).server ≡ panic)
unfolding copied offered apply apply_from apply_msg min led new_replicas new_cluster make
    read_persist read_raft_state make_persister follow campaigned begin_election broadcasted
    send_calls request_vote_args get_last_term replied set_call request_vote vote is_valid_args
    may_vote is_up_to_date dealt is_counted mark_elected deal_vote_reply announce is_candidate
    await_votes receive come_to_power is_leader start address append_entries match_prev check_prev
    accept refuse overwrite slice_to follow_commit get_base_index get_last_index last_entry
    entries_args new_append_entries_args has_copy count_copies scan_commit commit messages
    broadcast_append_entries note_copies deal_append_reply newer_term step_down persist
    save_raft_state send
overrun =
    let committed : Raft ℕ (Saved ℕ) = record (ahead both noted_next noted_match) {
      commit_index = 1;
      chan_commit = 1;
    } in
    let follows : Raft ℕ (Saved ℕ) = record (behind both 3) { commit_index = 1; chan_commit = 1 } in
    let r1 = goes_on copied.1 (encodes 2 late refl refl) in
    let r2 = goes_on r1 (sends 0 committed _ (omega arith) refl) in
    let r3 = goes_on r2 (encodes 0 _ refl refl) in
    let r4 = goes_on r3 (receives 0 _ follows _ refl (omega arith) refl) in
    let r5 = goes_on r4 (
      receives 1 late (record (behind (first_entry ∷ []) 4) { commit_index = 1; chan_commit = 1 }) _
        refl (omega arith) refl) in
    (_, r5, refl)

first : 1 < 3
first = omega arith

second : 2 < 3
second = omega arith

-- Server 0 commits the entry. The late heart beat takes it from server 1, and then server 2, which
-- never had it, is elected by server 1.
lost :
    (s : Replicas3) × History plain 0 3 s
    × ((s.cluster 0).server.commit_index ≡ 1)
    × ((s.cluster 2).server.state ≡ leader)
    × ((s.cluster 2).server.current_term ≡ 2)
    × ((s.cluster 2).server.logs ≡ first_entry ∷ [])
unfolding copied offered apply apply_from apply_msg min led new_replicas new_cluster make
    read_persist read_raft_state make_persister follow campaigned begin_election broadcasted
    send_calls request_vote_args get_last_term replied set_call request_vote vote is_valid_args
    may_vote is_up_to_date dealt is_counted mark_elected deal_vote_reply announce is_candidate
    await_votes receive come_to_power is_leader start address append_entries match_prev check_prev
    accept refuse overwrite slice_to follow_commit get_base_index get_last_index last_entry
    entries_args new_append_entries_args has_copy count_copies scan_commit commit messages
    broadcast_append_entries note_copies deal_append_reply newer_term step_down persist
    save_raft_state send
lost =
    let committed : Raft ℕ (Saved ℕ) = record (ahead both noted_next noted_match) {
      commit_index = 1;
      chan_commit = 1;
    } in
    let r0 = goes_on copied.1 (encodes 2 late refl refl) in
    let r1 = goes_on r0 (sends 0 committed _ (omega arith) refl) in
    let r2 = goes_on r1 (receives 0 late (behind (first_entry ∷ []) 3) _ refl (omega arith) refl) in
    let r3 = goes_on r2 (elects (act 2 _ (waits timeout refl) second tt) tt) in
    let r4 = goes_on r3 (elects (campaign 2 second) no_leader) in
    let r5 = goes_on r4 (elects (campaign 2 second) no_leader) in
    let r6 = goes_on r5 (
      elects
        (broadcast 2 (record asking { term = 2; candidate_id = 2 }) (λ j. true) second refl refl)
        tt) in
    let r7 = goes_on r6 (elects (answer 2 1 2 _ _ _ second first refl refl) tt) in
    let r8 = goes_on r7 (elects (deal 2 1 2 _ _ _ second first refl refl) tt) in
    let r9 = goes_on r8 (elects (act 2 _ (awaits elected refl) second tt) tt) in
    let r10 = goes_on r9 (elects (act 2 _ (powers refl) second tt) refl) in
    (_, r10, refl, refl, refl, refl)

-- A call of the term 1, whose entry was overwritten in the sender's array by one of the term 2.
abbrev overwritten_entry : LogEntry ℕ
overwritten_entry = record { log_index = 2; log_term = 2; command = 9 }

abbrev overwritten_args : AppendEntriesArgs ℕ
overwritten_args = record {
  term = 1;
  leader_id = 0;
  prev_log_index = 1;
  prev_log_term = 1;
  leader_commit = 0;
  entries = overwritten_entry ∷ [];
}

-- The handler takes the entry of the term 2 behind an entry of the term 1, which the leader of the
-- term 2 need not have.
overwritten :
    (rf : Raft ℕ (Saved ℕ)) × (reply : AppendEntriesReply) × (append_entries plain
        (behind both 0)
        overwritten_args
      ≡ ok (rf, reply))
    × (rf.logs ≡ first_entry ∷ command_entry ∷ overwritten_entry ∷ [])
unfolding min newer_term step_down persist save_raft_state append_entries match_prev check_prev
    accept refuse overwrite slice_to follow_commit get_base_index get_last_index last_entry send
overwritten = (_, _, refl, refl)
