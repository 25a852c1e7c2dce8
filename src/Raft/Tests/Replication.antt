-- ===== src/Raft/Tests/Replication.antt =====
-- The log of an elected server on its way to the others.
mod Delays
use distributed_algorithms.Prelude.{
  false, ℕ, ◌≤◌, ◌<◌, take, ◌≡◌, ◌≢◌, refl, true, arith, some, none, length, get_elem?, update,
  List, [], ◌∷◌,
}
use distributed_algorithms.Raft.Run.{panic, send, capacity}
use distributed_algorithms.Raft.Server.{
  LogEntry, Saved, Persister, Raft, leader, candidate, follower, make_persister, persist,
  save_raft_state, read_persist, read_raft_state, get_last_index, get_last_term, get_base_index,
  min, last_entry, newer_term, step_down, is_candidate, is_leader,
}
use distributed_algorithms.Raft.RequestVote.{
  request_vote, request_vote_args, deal_vote_reply, vote, is_valid_args, may_vote, is_up_to_date,
  announce,
}
use distributed_algorithms.Raft.AppendEntries.{
  AppendEntriesArgs, append_entries, match_prev, check_prev, accept, refuse, overwrite, slice_to,
  follow_commit,
}
use distributed_algorithms.Raft.Leader.{
  entries_args, new_append_entries_args, has_copy, count_copies, scan_commit, commit, messages,
  broadcast_append_entries, note_copies, deal_append_reply,
}
use distributed_algorithms.Raft.Api.{
  make, begin_election, timeout, elected, follow, receive, come_to_power, await_votes, start, apply,
  apply_from, apply_msg,
}
use distributed_algorithms.Raft.Steps.{powers, waits, awaits, starts}
use distributed_algorithms.Raft.Cluster.{
  set_call, send_calls, is_counted, mark_elected, campaigned, broadcasted, replied, dealt, campaign,
  broadcast, answer, deal, act, new_cluster,
}
use distributed_algorithms.Raft.Replicas.{
  encodes, Message, Replicas, address, elects, sends, receives, deals, new_replicas, History,
  begins, goes_on,
}
use distributed_algorithms.Raft.Leader.Sync.{IsSynced}
use distributed_algorithms.Raft.Replicas.Matching.{log_matching}
use distributed_algorithms.Raft.Replicas.Inside.{next_index_bounds}
use distributed_algorithms.Raft.Replicas.AppendOnly.{Later, stays, onward, append_only}
use distributed_algorithms.Raft.Replicas.Total.{All, calls_total, replicas_catch_up}
use distributed_algorithms.Raft.Tests.{plain}
use distributed_algorithms.Raft.Tests.Election.{asking}

abbrev Replicas3 : Type 0
Replicas3 = Replicas ℕ (Saved ℕ)

no_leader : candidate ≢ leader
no_leader e = cc

among : 0 < 3
among = omega arith

-- Server 0 is elected by server 1 and comes to power.
unfoldable led : (s : Replicas3) × History plain 0 3 s
unfolding new_replicas new_cluster make read_persist read_raft_state make_persister follow
    campaigned begin_election persist save_raft_state broadcasted send_calls request_vote_args
    get_last_index get_last_term last_entry replied set_call request_vote newer_term step_down vote
    is_valid_args may_vote is_up_to_date send dealt is_counted mark_elected deal_vote_reply announce
    is_candidate await_votes receive come_to_power is_leader start address append_entries match_prev
    check_prev accept refuse overwrite slice_to follow_commit get_base_index entries_args
    new_append_entries_args has_copy count_copies scan_commit commit messages
    broadcast_append_entries note_copies deal_append_reply
led =
    let r1 = goes_on begins (elects (act 0 _ (waits timeout refl) (omega arith) tt) tt) in
    let r2 = goes_on r1 (elects (campaign 0 (omega arith)) no_leader) in
    let r3 = goes_on r2 (elects (broadcast 0 asking (λ j. true) (omega arith) refl refl) tt) in
    let r4 =
      goes_on r3 (elects (answer 0 1 1 asking _ _ (omega arith) (omega arith) refl refl) tt) in
    let r5 = goes_on r4 (elects (deal 0 1 1 asking _ _ (omega arith) (omega arith) refl refl) tt) in
    let r6 = goes_on r5 (elects (act 0 _ (awaits elected refl) among tt) tt) in
    let r7 = goes_on r6 (elects (act 0 _ (powers refl) among tt) refl) in (_, r7)

abbrev first_entry : LogEntry ℕ
first_entry = record { log_index = 0; log_term = 0; command = 0 }

abbrev command_entry : LogEntry ℕ
command_entry = record { log_index = 1; log_term = 1; command = 7 }

abbrev stored : List (LogEntry ℕ) → Persister (Saved ℕ)
stored logs = record {
  raftstate = some (record { current_term = 1; voted_for = some 0; logs = logs });
  snapshot = none;
}

-- Server 0 with its log, NextIndex and MatchIndex.
abbrev ahead : List (LogEntry ℕ) → (ℕ → ℕ) → (ℕ → ℕ) → Raft ℕ (Saved ℕ)
ahead logs next matched = record {
  peers = 3;
  persister = stored logs;
  me = 0;
  current_term = 1;
  voted_for = some 0;
  logs = logs;
  commit_index = 0;
  last_applied = 0;
  indexed = true;
  next_index = next;
  match_index = matched;
  state = leader;
  vote_count = 2;
  chan_commit = 0;
  chan_heart_beat = 0;
  chan_be_elected = 0;
}

abbrev behind : List (LogEntry ℕ) → ℕ → Raft ℕ (Saved ℕ)
behind logs beats = record {
  peers = 3;
  persister = stored logs;
  me = 1;
  current_term = 1;
  voted_for = some 0;
  logs = logs;
  commit_index = 0;
  last_applied = 0;
  indexed = false;
  next_index = λ _. 0;
  match_index = λ _. 0;
  state = follower;
  vote_count = 0;
  chan_commit = 0;
  chan_heart_beat = beats;
  chan_be_elected = 0;
}

abbrev both : List (LogEntry ℕ)
both = first_entry ∷ command_entry ∷ []

abbrev noted_next : ℕ → ℕ
noted_next = update (λ _. 1) 1 2

abbrev noted_match : ℕ → ℕ
noted_match = update (λ _. 0) 1 1

abbrev carries : List (LogEntry ℕ) → AppendEntriesArgs ℕ
carries entries = record {
  term = 1;
  leader_id = 0;
  prev_log_index = 0;
  prev_log_term = 0;
  leader_commit = 0;
  entries = entries;
}

abbrev to_both : List (LogEntry ℕ) → List (ℕ × AppendEntriesArgs ℕ)
to_both entries = (1, carries entries) ∷ (2, carries entries) ∷ []

-- Server 0 sends heart beats, takes a command, and sends it to the others.
unfoldable offered : (s : Replicas3) × History plain 0 3 s
unfolding led new_replicas new_cluster make read_persist read_raft_state make_persister follow
    campaigned begin_election broadcasted send_calls request_vote_args get_last_term replied
    set_call request_vote vote is_valid_args may_vote is_up_to_date dealt is_counted mark_elected
    deal_vote_reply announce is_candidate await_votes receive come_to_power is_leader start address
    append_entries match_prev check_prev accept refuse overwrite slice_to follow_commit
    get_base_index get_last_index last_entry entries_args new_append_entries_args has_copy
    count_copies scan_commit commit messages broadcast_append_entries note_copies deal_append_reply
    newer_term step_down persist save_raft_state send
offered =
    let r1 =
      goes_on led.1
        (sends 0 (ahead (first_entry ∷ []) (λ _. 1) (λ _. 0)) (to_both []) (omega arith) refl) in
    let r2 =
      goes_on r1
        (elects (act 0 (ahead both (λ _. 1) (λ _. 0)) (starts 7 _ refl) (omega arith) tt) tt) in
    let r3 =
      goes_on r2 (
        sends 0 (ahead both (λ _. 1) (λ _. 0)) (to_both (command_entry ∷ [])) (omega arith) refl) in
    (_, r3)

-- The call with the entry is encoded, server 1 takes the entry, and server 0 notes its answer.
unfoldable copied : (s : Replicas3) × History plain 0 3 s
unfolding offered led new_replicas new_cluster make read_persist read_raft_state make_persister
    follow campaigned begin_election broadcasted send_calls request_vote_args get_last_term replied
    set_call request_vote vote is_valid_args may_vote is_up_to_date dealt is_counted mark_elected
    deal_vote_reply announce is_candidate await_votes receive come_to_power is_leader start address
    append_entries match_prev check_prev accept refuse overwrite slice_to follow_commit
    get_base_index get_last_index last_entry entries_args new_append_entries_args has_copy
    count_copies scan_commit commit messages broadcast_append_entries note_copies deal_append_reply
    newer_term step_down persist save_raft_state send
copied =
    let r0 = goes_on offered.1 (encodes 0 _ refl refl) in
    let r1 = goes_on r0 (receives 0 _ (behind both 2) _ refl (omega arith) refl) in
    let r2 = goes_on r1 (deals 0 _ (ahead both noted_next noted_match) refl (omega arith) refl) in
    (_, r2)

abbrev late : Message ℕ
late = record { sender = 0; receiver = 1; args = carries [] }

-- What the examples use of that state.
copied-state :
    ((copied.0.cluster 0).server.state ≡ leader)
    × (get_elem? (copied.0.cluster 0).server.logs 1 ≡ some command_entry)
    × (get_elem? (copied.0.cluster 1).server.logs 1 ≡ some command_entry)
    × (get_elem? copied.0.calls 2 ≡ some late)
    × ((copied.0.cluster 2).server.current_term ≤ (copied.0.cluster 0).server.current_term)
    × ((copied.0.cluster 2).server.chan_heart_beat < capacity)
    × ((copied.0.cluster 2).server.chan_commit < capacity)
unfolding copied offered led new_replicas new_cluster make read_persist read_raft_state
    make_persister follow campaigned begin_election broadcasted send_calls request_vote_args
    get_last_term replied set_call request_vote vote is_valid_args may_vote is_up_to_date dealt
    is_counted mark_elected deal_vote_reply announce is_candidate await_votes receive come_to_power
    is_leader start address append_entries match_prev check_prev accept refuse overwrite slice_to
    follow_commit get_base_index get_last_index last_entry entries_args new_append_entries_args
    has_copy count_copies scan_commit commit messages broadcast_append_entries note_copies
    deal_append_reply newer_term step_down persist save_raft_state send
copied-state = (refl, refl, refl, refl, omega arith, omega arith, omega arith)

log_matching_example :
    take 2 (copied.0.cluster 0).server.logs ≡ take 2 (copied.0.cluster 1).server.logs
log_matching_example =
    log_matching plain 0 3 copied.0 copied.1 0 1 1 command_entry command_entry copied-state.1
      copied-state.2 refl

-- Server 0, once in power, takes a command.
took :
    (t : Replicas3) × Later plain 0 3 led.0 t
    × ((led.0.cluster 0).elected (led.0.cluster 0).server.current_term ≡ true)
    × ((t.cluster 0).server.current_term ≡ (led.0.cluster 0).server.current_term)
unfolding led new_replicas new_cluster make read_persist read_raft_state make_persister follow
    campaigned begin_election broadcasted send_calls request_vote_args get_last_term replied
    set_call request_vote vote is_valid_args may_vote is_up_to_date dealt is_counted mark_elected
    deal_vote_reply announce is_candidate await_votes receive come_to_power is_leader start address
    append_entries match_prev check_prev accept refuse overwrite slice_to follow_commit
    get_base_index get_last_index last_entry entries_args new_append_entries_args has_copy
    count_copies scan_commit commit messages broadcast_append_entries note_copies deal_append_reply
    newer_term step_down persist save_raft_state send
took = (
  _,
  onward stays
      (elects (act 0 (ahead both (λ _. 1) (λ _. 0)) (starts 7 _ refl) (omega arith) tt) tt),
  refl,
  refl,
)

append_only_example :
    take (length (led.0.cluster 0).server.logs) (took.0.cluster 0).server.logs
    ≡ (led.0.cluster 0).server.logs
append_only_example = append_only plain 0 3 led.0 led.1 0 took.0 took.1 took.2 took.3

next_index_bounds_example :
    (0 < (copied.0.cluster 0).server.next_index 1)
    × ((copied.0.cluster 0).server.next_index 1 ≤ length (copied.0.cluster 0).server.logs)
next_index_bounds_example = next_index_bounds plain 0 3 copied.0 copied.1 0 copied-state.0 1

calls_total_example :
    All
      (λ m. append_entries plain (copied.0.cluster m.receiver).server m.args ≢ panic)
      copied.0.messages
calls_total_example = (calls_total plain 0 3 copied.0 copied.1).5

replicas_catch_up_example :
    (rounds : ℕ) × (rounds ≤ (copied.0.cluster 0).server.next_index 2)
    × ((ld : Raft ℕ (Saved ℕ)) × (fo : Raft ℕ (Saved ℕ)) × IsSynced plain 2
          (copied.0.cluster 0).server
          (copied.0.cluster 2).server
          rounds
          ld
          fo)
replicas_catch_up_example =
    replicas_catch_up plain 0 3 copied.0 copied.1 0 2 copied-state.0 copied-state.4 copied-state.5
      copied-state.6
