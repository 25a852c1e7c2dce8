-- ===== src/Raft/Tests.antt =====
-- Raft servers on concrete inputs.
mod Election
mod Rounds
mod Loops
mod Replication
use distributed_algorithms.Prelude.{
  ◌≤◌, ◌⊎◌, ℕ, zero, suc, ◌+◌, ◌*◌, ◌<◌, ◌≡◌, refl, true, none, some, List, [], ◌∷◌, arith,
  get_elem?,
}
use distributed_algorithms.Raft.Run.{ok, send}
use distributed_algorithms.Raft.Server.{
  LogEntry, State, leader, follower, make_persister, copy, Saved, Codec, Raft, persist,
  read_persist, read_raft_state, save_raft_state, last_entry, get_last_index, get_base_index,
  get_last_term, step_down, newer_term,
}
use distributed_algorithms.Raft.Server.Log.{IsLog, IsRange}
use distributed_algorithms.Raft.RequestVote.{
  RequestVoteArgs, RequestVoteReply, is_up_to_date, may_vote, is_valid_args, vote, request_vote,
}
use distributed_algorithms.Raft.RequestVote.Votes.{IsAnswered, request_vote_lem, vote_once}
use distributed_algorithms.Raft.AppendEntries.{
  AppendEntriesArgs, AppendEntriesReply, append_entries, match_prev, check_prev, accept, refuse,
  overwrite, slice_to, follow_commit,
}
use distributed_algorithms.Raft.AppendEntries.Outcome.{Matches, IsAppended, append_entries_matching}
use distributed_algorithms.Raft.AppendEntries.Backoff.{
  IsTermed, short, IsRefused, append_entries_missing,
}
use distributed_algorithms.Raft.Leader.Round.{IsReplicated, round_lem}
use distributed_algorithms.Raft.Api.{ApplyMsg, make, begin_election}
use distributed_algorithms.Raft.Steps.{Trace, appends, stay, more, campaigns, crashes}
use distributed_algorithms.Raft.Steps.OneVote.{one_vote_in_a_term}
use distributed_algorithms.Raft.Steps.Logs.{IsRanged, AreRanged, log_kept}
use distributed_algorithms.Raft.Api.Apply.{IsTurn, apply_lem}
use distributed_algorithms.Raft.Api.Restart.{IsStarted, restart_lem, start_lem}

-- The encoding that keeps the fields as they are, of one byte.
abbrev plain : Codec ℕ (Saved ℕ)
plain = record {
  size = λ x. 1;
  encode = λ x. x;
  decode = λ x. x;
  size-encode = λ x. omega arith;
  decode-encode = λ x. refl;
}

abbrev entry : ℕ → ℕ → LogEntry ℕ
entry i t = record { log_index = i; log_term = t; command = 10 * i }

-- The entries 1 and 2 are of the terms 1 and 2.
abbrev three : List (LogEntry ℕ)
three = entry 0 0 ∷ entry 1 1 ∷ entry 2 2 ∷ []

three-IsRange : IsRange 0 three
three-IsRange zero e h = ground arith
three-IsRange (suc zero) e h = ground arith
three-IsRange (suc (suc zero)) e h = ground arith
three-IsRange (suc (suc (suc i))) e h = absurd (ground arith)

three-IsLog : IsLog three
three-IsLog = record { inhabited = omega arith; range = three-IsRange }

three-IsTermed : IsTermed three
three-IsTermed = record { first = λ e h. ground arith; later = later }
  where
    later : (i : ℕ) (e : LogEntry ℕ) → 0 < i → get_elem? three i ≡ some e → 0 < e.log_term
    later zero e p h = absurd (omega arith)
    later (suc zero) e p h = ground arith
    later (suc (suc zero)) e p h = ground arith
    later (suc (suc (suc i))) e p h = absurd (ground arith)

-- Server 0 of three, in the term 2.
abbrev server : State → Raft ℕ (Saved ℕ)
server state = record {
  peers = 3;
  persister = make_persister;
  me = 0;
  current_term = 2;
  voted_for = none;
  logs = three;
  commit_index = 0;
  last_applied = 0;
  indexed = true;
  next_index = λ i. 3;
  match_index = λ i. 2;
  state = state;
  vote_count = 0;
  chan_commit = 0;
  chan_heart_beat = 0;
  chan_be_elected = 0;
}

abbrev ask : RequestVoteArgs
ask = record { term = 3; candidate_id = 1; last_log_index = 2; last_log_term = 2 }

request_vote_lem_example :
    (e : LogEntry ℕ) × (get_elem? three 2 ≡ some e)
    × ((rf : Raft ℕ (Saved ℕ)) × (reply : RequestVoteReply) × IsAnswered plain
          (server follower)
          ask
          e
          rf
          reply)
request_vote_lem_example = request_vote_lem plain (server follower) ask three-IsLog (omega arith)

abbrev granted : RequestVoteReply
granted = record { term = 3; vote_granted = true }

abbrev voter : ℕ → Raft ℕ (Saved ℕ)
voter beats =
    persist plain
      (record (server follower) { current_term = 3; voted_for = some 1; chan_heart_beat = beats })

first_vote : request_vote plain (server follower) ask ≡ ok (voter 1, granted)
unfolding request_vote newer_term step_down vote is_valid_args is_up_to_date may_vote persist
    save_raft_state send get_last_index get_last_term last_entry
first_vote = refl

second_vote : request_vote plain (voter 1) ask ≡ ok (voter 2, granted)
unfolding request_vote newer_term step_down vote is_valid_args is_up_to_date may_vote persist
    save_raft_state send get_last_index get_last_term last_entry
second_vote = refl

vote_once_example : ◌≡◌ {A = ℕ} 1 1
vote_once_example =
    vote_once plain (server follower) (voter 1) (voter 2) ask ask granted granted three-IsLog
      (omega arith) first_vote refl refl second_vote refl

abbrev message : ℕ → AppendEntriesArgs ℕ
message prev = record {
  term = 2;
  leader_id = 2;
  prev_log_index = prev;
  prev_log_term = 1;
  leader_commit = 1;
  entries = entry (prev + 1) 2 ∷ [];
}

message-Matches : Matches three (message 1)
message-Matches = record { within = omega arith; agrees = λ e p h. ground arith }

new-IsRange : IsRange 2 (entry 2 2 ∷ [])
new-IsRange zero e h = ground arith
new-IsRange (suc i) e h = absurd (ground arith)

append_entries_matching_example :
    (rf : Raft ℕ (Saved ℕ)) × (reply : AppendEntriesReply) × IsAppended plain
      (server follower)
      (message 1)
      rf
      reply
append_entries_matching_example =
    append_entries_matching plain (server follower) (message 1) three-IsLog new-IsRange
      (omega arith) (omega arith) (omega arith) message-Matches

append_entries_missing_example :
    (rf : Raft ℕ (Saved ℕ)) × (reply : AppendEntriesReply) × IsRefused plain
      (server follower)
      (message 5)
      rf
      reply
append_entries_missing_example =
    append_entries_missing plain (server follower) (message 5) three-IsLog three-IsTermed
      (omega arith) (omega arith) (short (omega arith))

abbrev committed : Raft ℕ (Saved ℕ)
committed = record (server follower) { commit_index = 2 }

apply_lem_example : (rf : Raft ℕ (Saved ℕ)) × (ms : List (ApplyMsg ℕ)) × IsTurn committed rf ms
apply_lem_example = apply_lem committed three-IsLog (omega arith) (omega arith)

start_lem_example : (rf : Raft ℕ (Saved ℕ)) × IsStarted plain (server leader) 7 rf
start_lem_example = start_lem plain (server leader) 7 refl three-IsLog

abbrev restarted : Raft ℕ (Saved ℕ)
restarted = make plain 0 3 0 (copy (voter 1).persister)

restart_lem_example :
    (restarted.current_term ≡ 3)
    × (restarted.voted_for ≡ some 1)
    × (restarted.logs ≡ three)
    × (restarted.state ≡ follower)
    × (restarted.commit_index ≡ 0)
    × (restarted.last_applied ≡ 0)
unfolding persist save_raft_state
restart_lem_example = restart_lem plain (voter 1) 0 3 0 refl

abbrev made : Raft ℕ (Saved ℕ)
made = make plain 0 3 0 make_persister

abbrev campaigning : Raft ℕ (Saved ℕ)
campaigning = begin_election plain made

abbrev recovered : Raft ℕ (Saved ℕ)
recovered = make plain 0 3 0 (copy campaigning.persister)

recovered-Trace : Trace plain campaigning recovered
unfolding begin_election make read_persist read_raft_state persist save_raft_state make_persister
    copy
recovered-Trace = more stay (crashes 0)

one_vote_in_a_term_example :
    (campaigning.current_term ≤ recovered.current_term)
    × ((campaigning.current_term < recovered.current_term)
        ⊎ ((campaigning.voted_for ≡ none) ⊎ (recovered.voted_for ≡ campaigning.voted_for)))
one_vote_in_a_term_example =
    one_vote_in_a_term plain 0 3 0 campaigning recovered (more stay campaigns) recovered-Trace

abbrev sender : Raft ℕ (Saved ℕ)
sender = record (server leader) { next_index = λ i. 2; match_index = λ i. 0 }

-- A follower that has an entry of the term 1 where the leader has one of the term 2.
abbrev astray : List (LogEntry ℕ)
astray = entry 0 0 ∷ entry 1 1 ∷ entry 2 1 ∷ []

astray-IsLog : IsLog astray
astray-IsLog = record { inhabited = omega arith; range = range }
  where
    range : IsRange 0 astray
    range zero e h = ground arith
    range (suc zero) e h = ground arith
    range (suc (suc zero)) e h = ground arith
    range (suc (suc (suc i))) e h = absurd (ground arith)

abbrev receiver : Raft ℕ (Saved ℕ)
receiver = record (server follower) { me = 1; logs = astray }

round_lem_example :
    (fo : Raft ℕ (Saved ℕ)) × (ld : Raft ℕ (Saved ℕ)) × (args : AppendEntriesArgs ℕ)
    × (reply : AppendEntriesReply) × IsReplicated plain sender 1 1 three-IsLog refl
        (omega arith)
        refl
        receiver
        fo
        ld
        args
        reply
round_lem_example =
    round_lem plain sender 1 1 three-IsLog refl (omega arith) refl receiver astray-IsLog
      (omega arith) refl (omega arith) (omega arith) (omega arith)

abbrev first_message : AppendEntriesArgs ℕ
first_message = record (message 0) { prev_log_term = 0; leader_commit = 0 }

abbrev fed : Raft ℕ (Saved ℕ)
fed =
    persist plain
      (record made { current_term = 2; logs = entry 0 0 ∷ entry 1 2 ∷ []; chan_heart_beat = 1 })

fed_by_message :
    append_entries plain made first_message
    ≡ ok (fed, record { term = 2; success = true; next_index = 2 })
unfolding make read_persist read_raft_state make_persister append_entries newer_term step_down
    match_prev check_prev accept refuse overwrite slice_to follow_commit persist save_raft_state
    send get_last_index get_base_index last_entry
fed_by_message = refl

abbrev fed_run : Trace plain made fed
fed_run =
    more stay
      (appends first_message (record { term = 2; success = true; next_index = 2 }) fed_by_message)

fed_run-AreRanged : AreRanged plain fed_run
unfolding AreRanged IsRanged
fed_run-AreRanged = (tt, range)
  where
    range : IsRange 1 (entry 1 2 ∷ [])
    range zero e h = ground arith
    range (suc i) e h = absurd (ground arith)

log_kept_example : IsLog fed.logs
log_kept_example = log_kept plain 0 3 0 fed fed_run fed_run-AreRanged
