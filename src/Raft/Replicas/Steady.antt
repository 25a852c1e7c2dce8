-- ===== src/Raft/Replicas/Steady.antt =====
-- NextIndex under the steps of a server that is a leader and does not come to power.
use distributed_algorithms.Prelude.{
  true, Bool-cases, ◌⊎◌, ◌++◌, ℕ, ◌+◌, ◌-◌, ◌≤◌, ◌<◌, ◌≡◌, inl, inr, sym, ◌∙◌, Option, some, List,
  [], ◌∷◌, arith, ◌≢◌, length, length-append,
}
use distributed_algorithms.Raft.Run.{ok}
use distributed_algorithms.Raft.Server.{
  is_leader, LogEntry, leader, Codec, Raft, persist, step_down, newer_term,
}
use distributed_algorithms.Raft.Server.Log.{IsLog, get_last_index-ok}
use distributed_algorithms.Raft.RequestVote.{
  RequestVoteArgs, RequestVoteReply, request_vote, vote, deal_vote_reply, announce,
}
use distributed_algorithms.Raft.AppendEntries.{
  AppendEntriesArgs, AppendEntriesReply, append_entries,
}
use distributed_algorithms.Raft.Leader.{broadcast_append_entries, commit, messages}
use distributed_algorithms.Raft.Api.{
  ApplyMsg, Signal, timeout, heart_beats, elected, start, come_to_power, follow, await_votes, apply,
}
use distributed_algorithms.Raft.Steps.Bound.{bind_ok}
use distributed_algorithms.Raft.Replicas.Local.{
  await-IsCalm, IsCalm, vote-IsCalm, count-IsCalm, apply-IsCalm, follow-IsCalm, broadcast-IsCalm,
  append-Leads,
}

module _ {C B : Type 0} where
  -- nextIndex is not nil, and of every server it is an index of the log, or the one after the last.
  abbrev pub IsInLog : Raft C B → Type 0
  IsInLog rf =
      rf.state ≡ leader
      → (rf.indexed ≡ true)
        × ((id : ℕ) → (0 < rf.next_index id) × (rf.next_index id ≤ length rf.logs))

  -- nextIndex stays, and is nil or not as before.
  abbrev SameIndices : Raft C B → Raft C B → Type 0
  SameIndices a b = (b.next_index ≡ a.next_index) × (b.indexed ≡ a.indexed)

  -- Who comes to power starts from the end of the log.
  pub power-IsInLog :
      (codec : Codec C B) (a b : Raft C B) → IsLog a.logs → come_to_power a ≡ ok b → IsInLog b
  unfolding come_to_power
  power-IsInLog codec a b log h l =
      let last = get_last_index-ok a.logs log in
      (ground (arith, last), λ id. (ground (arith, last), ground (arith, last, log.inhabited)))

  module _ (codec : Codec C B) (a b : Raft C B) (v : IsInLog a) where
    steady-IsInLog : IsCalm codec a b → SameIndices a b → IsInLog b
    steady-IsInLog k (e, made) l =
        let (old, w) = v (k.leads l).0 in (made ∙ old, λ id. rw (e, k.logs) (w id))

    vote-next :
        (args : RequestVoteArgs) (reply : RequestVoteReply)
        → request_vote codec a args ≡ ok (b, reply)
        → SameIndices a b
    unfolding request_vote newer_term step_down vote persist
    vote-next args reply h = (ground arith, ground arith)

    pub vote-IsInLog :
        (args : RequestVoteArgs) (reply : RequestVoteReply)
        → request_vote codec a args ≡ ok (b, reply)
        → IsInLog b
    vote-IsInLog args reply h =
        steady-IsInLog (vote-IsCalm codec a b args reply h) (vote-next args reply h)

    count-next :
        (args : RequestVoteArgs) (reply : RequestVoteReply)
        → deal_vote_reply codec a args reply ≡ ok b
        → SameIndices a b
    unfolding deal_vote_reply announce persist step_down
    count-next args reply h = (ground arith, ground arith)

    pub count-IsInLog :
        (args : RequestVoteArgs) (reply : RequestVoteReply)
        → deal_vote_reply codec a args reply ≡ ok b
        → IsInLog b
    count-IsInLog args reply h =
        steady-IsInLog (count-IsCalm codec a b args reply h) (count-next args reply h)

    apply-next : (ms : List (ApplyMsg C)) → apply a ≡ ok (b, ms) → SameIndices a b
    unfolding apply
    apply-next ms h = (ground arith, ground arith)

    pub apply-IsInLog : (ms : List (ApplyMsg C)) → apply a ≡ ok (b, ms) → IsInLog b
    apply-IsInLog ms h = steady-IsInLog (apply-IsCalm codec a b ms h) (apply-next ms h)

    follow-next : (s : Signal) → follow a s ≡ some b → SameIndices a b
    unfolding follow
    follow-next s h = (ground arith, ground arith)

    pub follow-IsInLog : (s : Signal) → follow a s ≡ some b → IsInLog b
    follow-IsInLog s h = steady-IsInLog (follow-IsCalm codec a b s h) (follow-next s h)

    await-next : (s : Signal) → await_votes a s ≡ some b → SameIndices a b
    unfolding await_votes
    await-next timeout h = (ground arith, ground arith)
    await-next heart_beats h = (ground arith, ground arith)
    await-next elected h = (ground arith, ground arith)

    pub await-IsInLog : (s : Signal) → await_votes a s ≡ some b → IsInLog b
    await-IsInLog s h = steady-IsInLog (await-IsCalm codec a b s h) (await-next s h)

    commit-next : commit a ≡ ok b → SameIndices a b
    unfolding commit
    commit-next h = (ground arith, ground arith)

    pub commit-state : commit a ≡ ok b → (b.state ≡ a.state) × (b.logs ≡ a.logs)
    unfolding commit
    commit-state h = (ground arith, ground arith)

    pub commit-IsInLog : commit a ≡ ok b → IsInLog b
    commit-IsInLog h l =
        let (s, k) = commit-state h in
        let (e, made) = commit-next h in
        let (old, w) = v (sym s ∙ l) in (made ∙ old, λ id. rw (e, k) (w id))

    -- A message to a leader is of an older term, if no other server leads in its term.
    pub append-IsInLog :
        (args : AppendEntriesArgs C) (reply : AppendEntriesReply)
        → append_entries codec a args ≡ ok (b, reply)
        → (a.state ≡ leader → a.current_term ≢ args.term)
        → IsInLog b
    append-IsInLog args reply h other l =
        let (leads, term) = append-Leads codec a b args reply h in
        let (l', e) = leads l in
        elim term [ inl (old, same) ↦ rw same (v l') | inr new ↦ absurd (other l' (sym e ∙ new)) ]

    start-next :
        (command : C) (r : Option (ℕ × ℕ))
        → start codec a command ≡ ok (b, r)
        → SameIndices a b × (b.state ≡ a.state)
    unfolding start persist
    start-next command r h = ((ground arith, ground arith), ground arith)

    start-length :
        (command : C) (r : Option (ℕ × ℕ))
        → IsLog a.logs
        → start codec a command ≡ ok (b, r)
        → length a.logs ≤ length b.logs
    unfolding start persist
    start-length command r log h = ground (
      arith,
      get_last_index-ok a.logs log,
      length-append a.logs (
          record { log_index = length a.logs - 1 + 1; log_term = a.current_term; command = command }
          ∷ []),
    )

    -- Start keeps the log, or puts one entry behind it.
    pub start-logs :
        (command : C) (r : Option (ℕ × ℕ))
        → IsLog a.logs
        → start codec a command ≡ ok (b, r)
        → (b.logs ≡ a.logs) ⊎ ((e : LogEntry C) × (b.logs ≡ a.logs ++ e ∷ []))
    unfolding start persist
    start-logs command r log h = elim (Bool-cases (is_leader a.state)) [
      | inr other ↦ inl (ground arith)
      | inl leads ↦
          let e : LogEntry C = record {
            log_index = length a.logs - 1 + 1;
            log_term = a.current_term;
            command = command;
          } in
          inr (e, ground (arith, get_last_index-ok a.logs log))
    ]

    pub start-IsInLog :
        (command : C) (r : Option (ℕ × ℕ))
        → IsLog a.logs
        → start codec a command ≡ ok (b, r)
        → IsInLog b
    start-IsInLog command r log h l =
        let ((e, made), s) = start-next command r h in
        let (old, w) = v (sym s ∙ l) in
        let n = start-length command r log h in
        (made ∙ old, λ id. (ground (arith, (w id).0, e), ground (arith, (w id).1, n, e)))

  pub broadcast-IsInLog :
      (codec : Codec C B) (a b : Raft C B) (sent : List (ℕ × AppendEntriesArgs C))
      → IsInLog a
      → broadcast_append_entries a ≡ ok (b, sent)
      → IsInLog b
  unfolding broadcast_append_entries
  broadcast-IsInLog codec a b sent v h =
      let (c, e, f) = bind_ok codec (commit a) _ _ h in
      let (x, g, k) = bind_ok codec (messages c c.peers) _ _ f in
      let n = commit-next codec a c v e in
      steady-IsInLog codec a b v (broadcast-IsCalm codec a b sent h)
        (ground (arith, n), ground (arith, n))
