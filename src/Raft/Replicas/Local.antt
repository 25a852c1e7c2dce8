-- ===== src/Raft/Replicas/Local.antt =====
-- What the steps of a server do to its log and to its leadership (raft-API.go, raft-RequestVote.go,
-- raft-AppendEntries.go).
use distributed_algorithms.Prelude.{
  ℕ, ◌≤◌, ◌<◌, ◌≡◌, ◌⊎◌, inl, inr, sym, ◌∙◌, some, List, ltb, arith, Bool-cases,
}
use distributed_algorithms.Raft.Run.{ok, ◌>>=◌, send}
use distributed_algorithms.Raft.Server.{
  LogEntry, leader, Codec, Raft, persist, step_down, newer_term,
}
use distributed_algorithms.Raft.RequestVote.{
  RequestVoteArgs, RequestVoteReply, request_vote, vote, deal_vote_reply, announce,
}
use distributed_algorithms.Raft.AppendEntries.{
  AppendEntriesArgs, AppendEntriesReply, append_entries, match_prev,
}
use distributed_algorithms.Raft.Leader.{broadcast_append_entries, deal_append_reply, note_copies}
use distributed_algorithms.Raft.Api.{
  ApplyMsg, Signal, timeout, heart_beats, elected, follow, await_votes, apply,
}
use distributed_algorithms.Raft.Steps.Bound.{
  await-same, bind_ok, IsBound, Kept, vote-IsBound, count-IsBound, copy-IsBound, match_prev-same,
  broadcast-same, apply-same, follow-same,
}
use distributed_algorithms.Raft.Loop.Refinement.{match_prev-state, broadcast-state}
use distributed_algorithms.Raft.Steps.Outcome.{vote-logs, count-logs, copy-logs}

module _ {C B : Type 0} (codec : Codec C B) where
  -- A leader has been one in the same term.
  abbrev pub Leads : Raft C B → Raft C B → Type 0
  Leads a b = b.state ≡ leader → (a.state ≡ leader) × (b.current_term ≡ a.current_term)

  -- The log stays, and no leader is made.
  pub record IsCalm (a b : Raft C B) : Type 0 where
    pub logs : b.logs ≡ a.logs
    pub term : a.current_term ≤ b.current_term
    pub kept : Kept codec a b
    pub leads : Leads a b

  calm :
      (a b : Raft C B)
      → b.logs ≡ a.logs
      → IsBound codec a b × Kept codec a b
      → Leads a b
      → IsCalm a b
  calm a b logs w leads = record {
    logs = logs;
    term = ground (arith, w.0);
    kept = w.1;
    leads = leads;
  }

  same :
      (a b : Raft C B)
      → (b.current_term ≡ a.current_term)
        × (b.voted_for ≡ a.voted_for)
        × (b.persister ≡ a.persister)
        × (b.logs ≡ a.logs)
      → (b.state ≡ leader → a.state ≡ leader)
      → IsCalm a b
  same a b (t, v, p, l) leads = record {
    logs = l;
    term = omega (arith, t);
    kept = inl ((t, v), p, l);
    leads = λ h. (leads h, t);
  }

  module _ (a b : Raft C B) where
    vote-Leads :
        (args : RequestVoteArgs) (reply : RequestVoteReply)
        → request_vote codec a args ≡ ok (b, reply)
        → Leads a b
    unfolding request_vote newer_term step_down vote persist
    vote-Leads args reply h l = (ground arith, ground arith)

    pub vote-IsCalm :
        (args : RequestVoteArgs) (reply : RequestVoteReply)
        → request_vote codec a args ≡ ok (b, reply)
        → IsCalm a b
    vote-IsCalm args reply h =
        calm a b (vote-logs codec a b args reply h) (vote-IsBound codec a b args reply h)
          (vote-Leads args reply h)

    count-Leads :
        (args : RequestVoteArgs) (reply : RequestVoteReply)
        → deal_vote_reply codec a args reply ≡ ok b
        → Leads a b
    unfolding deal_vote_reply announce persist step_down
    count-Leads args reply h l = (ground arith, ground arith)

    pub count-IsCalm :
        (args : RequestVoteArgs) (reply : RequestVoteReply)
        → deal_vote_reply codec a args reply ≡ ok b
        → IsCalm a b
    count-IsCalm args reply h =
        calm a b (count-logs codec a b args reply h) (count-IsBound codec a b args reply h)
          (count-Leads args reply h)

    note-Leads : (id : ℕ) (xs : List (LogEntry C)) → note_copies a id xs ≡ ok b → Leads a b
    unfolding note_copies
    note-Leads id xs h l = (ground arith, ground arith)

    copy-Leads :
        (id : ℕ) (args : AppendEntriesArgs C) (reply : AppendEntriesReply)
        → deal_append_reply codec a id args reply ≡ ok b
        → Leads a b
    unfolding deal_append_reply persist step_down
    copy-Leads id args reply h l =
        (ground (arith, note-Leads id args.entries), ground (arith, note-Leads id args.entries))

    pub copy-IsCalm :
        (id : ℕ) (args : AppendEntriesArgs C) (reply : AppendEntriesReply)
        → deal_append_reply codec a id args reply ≡ ok b
        → IsCalm a b
    copy-IsCalm id args reply h =
        calm a b (copy-logs codec a b id args reply h) (copy-IsBound codec a b id args reply h)
          (copy-Leads id args reply h)

    apply-Leads :
        (ms : List (ApplyMsg C)) → apply a ≡ ok (b, ms) → b.state ≡ leader → a.state ≡ leader
    unfolding apply
    apply-Leads ms h l = ground arith

    pub apply-IsCalm : (ms : List (ApplyMsg C)) → apply a ≡ ok (b, ms) → IsCalm a b
    apply-IsCalm ms h =
        let w = apply-same codec a b ms h in same a b (w.0.0, w.0.1, w.1, w.2) (apply-Leads ms h)

    follow-Leads : (s : Signal) → follow a s ≡ some b → b.state ≡ leader → a.state ≡ leader
    unfolding follow
    follow-Leads s h l = ground arith

    pub follow-IsCalm : (s : Signal) → follow a s ≡ some b → IsCalm a b
    follow-IsCalm s h =
        let w = follow-same codec a b s h in same a b (w.0.0, w.0.1, w.1, w.2) (follow-Leads s h)

    await-Leads : (s : Signal) → await_votes a s ≡ some b → b.state ≡ leader → a.state ≡ leader
    unfolding await_votes
    await-Leads timeout h l = ground arith
    await-Leads heart_beats h l = ground arith
    await-Leads elected h l = ground arith

    pub await-IsCalm : (s : Signal) → await_votes a s ≡ some b → IsCalm a b
    await-IsCalm s h =
        let w = await-same codec a b s h in same a b (w.0.0, w.0.1, w.1, w.2) (await-Leads s h)

  pub broadcast-IsCalm :
      (a b : Raft C B) (sent : List (ℕ × AppendEntriesArgs C))
      → broadcast_append_entries a ≡ ok (b, sent)
      → IsCalm a b
  broadcast-IsCalm a b sent h =
      let w = broadcast-same codec a b sent h in
      same a b (w.0.0, w.0.1, w.1, w.2) (λ l. sym (broadcast-state codec a b sent h) ∙ l)

  -- A message of no older term: the server is in the message's term, and a leader only if it was one.
  pub append-Leads :
      (a b : Raft C B) (args : AppendEntriesArgs C) (reply : AppendEntriesReply)
      → append_entries codec a args ≡ ok (b, reply)
      → Leads a b × (((args.term < a.current_term) × (b ≡ a)) ⊎ (b.current_term ≡ args.term))
  unfolding append_entries newer_term step_down
  append-Leads a b args reply h = elim (Bool-cases (ltb args.term a.current_term)) [
    | inl old ↦
        let e : b ≡ a = ground arith in (λ l. (ground arith, ground arith), inl (ground arith, e))
    | inr fresh ↦
        let handle : (send a.chan_heart_beat >>= λ n.
        match_prev codec (newer_term codec (record a { chan_heart_beat = n }) args.term) args)
            ≡ ok (b, reply) =
          ground arith in
        let (n, e, f) = bind_ok codec (send a.chan_heart_beat) _ _ handle in
        let w = match_prev-state codec _ b args reply f in
        let v = match_prev-same codec _ b args reply f in
        (λ l. (ground arith, ground arith), inr (ground arith))
  ]
