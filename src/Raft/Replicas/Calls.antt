-- ===== src/Raft/Replicas/Calls.antt =====
-- The calls of a server (raft-AppendEntries.go, raft-RequestVote.go, raft-API.go) on a log that is well
-- formed.
use distributed_algorithms.Prelude.{
  ℕ, Bool, true, false, zero, suc, ◌-◌, ◌≡◌, ◌≢◌, ◌⊎◌, inl, inr, refl, not, ◌&&◌, ◌==◌, some, List,
  [], ◌∷◌, ◌++◌, arith, Bool-cases, dec_lt, length, get_elem?, get_elem?-some,
}
use distributed_algorithms.Raft.Run.{Run, ok, panic, blocked, ◌>>=◌, send}
use distributed_algorithms.Raft.Server.{
  newer_term, step_down, LogEntry, last_entry, Codec, Raft, is_leader,
}
use distributed_algorithms.Raft.Server.Log.{
  IsLog, get_last_index-ok, get_last_term-ok, get_base_index-ok,
}
use distributed_algorithms.Raft.RequestVote.{
  RequestVoteArgs, request_vote, request_vote_args, vote, is_valid_args, may_vote, is_up_to_date,
}
use distributed_algorithms.Raft.AppendEntries.{AppendEntriesArgs, AppendEntriesReply}
use distributed_algorithms.Raft.Leader.{
  messages, scan_commit, commit, broadcast_append_entries, note_copies, deal_append_reply,
}
use distributed_algorithms.Raft.Leader.Commit.{scan_commit-ok}
use distributed_algorithms.Raft.Leader.Round.{sent, sent-ok}
use distributed_algorithms.Raft.Api.{start, come_to_power}
use distributed_algorithms.Raft.Replicas.Sent.{leads_of}
use distributed_algorithms.Raft.Replicas.Steady.{IsInLog, commit-state, commit-IsInLog}

bind_panic :
    {A B : Type 0} (r : Run A) (f : A → Run B)
    → r ≢ panic
    → ((x : A) → r ≡ ok x → f x ≢ panic)
    → (r >>= f) ≢ panic
bind_panic (ok x) f p q = q x refl
bind_panic panic f p q = absurd (p refl)
bind_panic blocked f p q = λ h. cc

module _ {C B : Type 0} (codec : Codec C B) (rf : Raft C B) (log : IsLog rf.logs) where
  commit_total : rf.indexed ≡ true → commit rf ≢ panic
  unfolding commit send scan_commit
  commit_total made = elim (dec_lt rf.commit_index (length rf.logs)) [
    | yes within ↦
        let (r, e, best) =
          scan_commit-ok rf made (length rf.logs - 1 - rf.commit_index) (omega arith) in
        λ h. ground (arith, get_last_index-ok rf.logs log, get_base_index-ok rf.logs log, e)
    | no past ↦
        let none_left : length rf.logs - 1 - rf.commit_index ≡ 0 = omega arith in
        λ h. ground (arith, get_last_index-ok rf.logs log, get_base_index-ok rf.logs log, none_left)
  ]

  messages_total :
      IsInLog rf → (n : ℕ) → (xs : List (ℕ × AppendEntriesArgs C)) × (messages rf n ≡ ok xs)
  unfolding messages
  messages_total v zero = ([], refl)
  messages_total v (suc id) =
      let (xs, e) = messages_total v id in
      elim (Bool-cases (not (id == rf.me) && is_leader rf.state)) [
        | inr skips ↦ (xs, ground arith)
        | inl sends ↦
            let (made, w) = v (leads_of codec rf.state (ground arith)) in
            let (pos, le) = w id in
            let f =
              sent-ok codec rf id (rf.next_index id - 1) log (omega arith) (omega arith) made in
            let args =
              sent codec rf id (rf.next_index id - 1) log (omega arith) (omega arith) made in
            (xs ++ (id, args) ∷ [], ground (arith, e, f))
      ]

  pub start_total : (command : C) → start codec rf command ≢ panic
  unfolding start
  start_total command h = ground (arith, get_last_index-ok rf.logs log)

  pub come_to_power_total : come_to_power rf ≢ panic
  unfolding come_to_power
  come_to_power_total h = ground (arith, get_last_index-ok rf.logs log)

  pub request_vote_args_total : request_vote_args codec rf ≢ panic
  unfolding request_vote_args
  request_vote_args_total h =
      ground (arith, get_last_index-ok rf.logs log, get_last_term-ok rf.logs log)

  newer_term-logs : (t : ℕ) → (newer_term codec rf t).logs ≡ rf.logs
  unfolding newer_term step_down
  newer_term-logs t = ground arith

  vote_total :
      (seen : Raft C B) (args : RequestVoteArgs) (valid : Bool) → vote codec seen args valid ≢ panic
  unfolding vote send
  vote_total seen args true h = ground arith
  vote_total seen args false h = ground arith

  is_valid_args-ok :
      (seen : Raft C B) (args : RequestVoteArgs)
      → IsLog seen.logs
      → (valid : Bool) × (is_valid_args seen args ≡ ok valid)
  unfolding is_valid_args
  is_valid_args-ok seen args kept =
      let (e, at, term) = get_last_term-ok seen.logs kept in
      (
        may_vote seen.voted_for args.candidate_id
            && is_up_to_date args e.log_term (length seen.logs - 1),
        ground (arith, term, get_last_index-ok seen.logs kept),
      )

  pub request_vote_total : (args : RequestVoteArgs) → request_vote codec rf args ≢ panic
  unfolding request_vote
  request_vote_total args h =
      let seen = newer_term codec rf args.term in
      let (valid, e) = is_valid_args-ok seen args (rw (newer_term-logs args.term) log) in
      ground (arith, e, vote_total seen args valid)

module _ {C B : Type 0} (codec : Codec C B) where
  pub broadcast_total :
      (rf : Raft C B)
      → IsLog rf.logs
      → IsInLog rf
      → rf.indexed ≡ true
      → broadcast_append_entries rf ≢ panic
  unfolding broadcast_append_entries
  broadcast_total rf log v made = bind_panic (commit rf) _ (commit_total codec rf log made) (λ b e.
      let u : IsLog b.logs = rw (commit-state codec rf b v e).1 log in
      let (xs, f) = messages_total codec b u (commit-IsInLog codec rf b v e) b.peers in
      λ h. ground (arith, f))

  pub deal_total :
      (rf : Raft C B) (id : ℕ) (m : AppendEntriesArgs C) (reply : AppendEntriesReply)
      → rf.indexed ≡ true
      → deal_append_reply codec rf id m reply ≢ panic
  unfolding deal_append_reply note_copies last_entry
  deal_total rf id m reply made h = elim (List-last m.entries) [
    | inl none_sent ↦ ground (arith, made, none_sent)
    | inr (x, xs, e, is, at) ↦ ground (arith, made, is, at)
  ]
    where
      List-last :
          (xs : List (LogEntry C))
          → (xs ≡ [])
            ⊎ ((x : LogEntry C) × (ys : List (LogEntry C)) × (e : LogEntry C) × (xs ≡ x ∷ ys)
                × (get_elem? (x ∷ ys) (length ys) ≡ some e))
      List-last [] = inl refl
      List-last (x ∷ ys) =
          let (e, at) = get_elem?-some (x ∷ ys) (length ys) (omega arith) in
          inr (x, ys, e, refl, at)
