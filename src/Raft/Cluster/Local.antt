-- ===== src/Raft/Cluster/Local.antt =====
-- What the steps of a server leave alone of the fields that an election uses.
use distributed_algorithms.Prelude.{
  ℕ, ◌+◌, ◌*◌, ◌<◌, ◌≡◌, ◌⊎◌, inl, inr, true, false, Option, some, List, ltb, arith, Bool-cases,
  Option-cases,
}
use distributed_algorithms.Raft.Run.{ok, ◌>>=◌, send}
use distributed_algorithms.Raft.Server.{
  LogEntry, Codec, Raft, persist, step_down, newer_term, read_persist, read_raft_state, copy,
  make_persister,
}
use distributed_algorithms.Raft.RequestVote.{
  RequestVoteArgs, RequestVoteReply, request_vote, vote, request_vote_args, deal_vote_reply,
  announce,
}
use distributed_algorithms.Raft.AppendEntries.{
  AppendEntriesArgs, AppendEntriesReply, append_entries, match_prev, accept, refuse, follow_commit,
  overwrite,
}
use distributed_algorithms.Raft.Leader.{
  broadcast_append_entries, commit, messages, deal_append_reply, note_copies,
}
use distributed_algorithms.Raft.Api.{
  ApplyMsg, Signal, make, start, come_to_power, follow, await_votes, apply,
}
use distributed_algorithms.Raft.Steps.{
  powers, Step, votes, appends, campaigns, counts, copies, starts, broadcasts, applies, waits,
  awaits, crashes,
}
use distributed_algorithms.Raft.Steps.Bound.{bind_ok}
use distributed_algorithms.Raft.Cluster.{IsLocal, is_counted}

module _ {C B : Type 0} where
  -- Who the server is.
  abbrev pub SameName : Raft C B → Raft C B → Type 0
  SameName a b = (b.me ≡ a.me) × (b.peers ≡ a.peers)

  abbrev pub SameCount : Raft C B → Raft C B → Type 0
  SameCount a b = SameName a b × (b.vote_count ≡ a.vote_count)

  module _ (codec : Codec C B) (a b : Raft C B) where
    pub vote-SameCount :
        (args : RequestVoteArgs) (reply : RequestVoteReply)
        → request_vote codec a args ≡ ok (b, reply)
        → SameCount a b
    unfolding request_vote newer_term step_down vote persist
    vote-SameCount args reply h = ground arith

    -- A vote that is granted is given to the candidate, in its term.
    pub vote-granted :
        (args : RequestVoteArgs) (reply : RequestVoteReply)
        → request_vote codec a args ≡ ok (b, reply)
        → reply.vote_granted ≡ true
        → (b.voted_for ≡ some args.candidate_id) × (b.current_term ≡ args.term)
    unfolding request_vote newer_term step_down vote persist
    vote-granted args reply h g = ground arith

    start-SameCount :
        (command : C) (r : Option (ℕ × ℕ)) → start codec a command ≡ ok (b, r) → SameCount a b
    unfolding start persist
    start-SameCount command r h = ground arith

    follow-SameCount : (s : Signal) → follow a s ≡ some b → SameCount a b
    unfolding follow
    follow-SameCount s h = ground arith

    await-SameCount : (s : Signal) → await_votes a s ≡ some b → SameCount a b
    unfolding await_votes
    await-SameCount s h = ground arith

    power-SameCount : come_to_power a ≡ ok b → SameCount a b
    unfolding come_to_power
    power-SameCount h = ground arith

    apply-SameCount : (ms : List (ApplyMsg C)) → apply a ≡ ok (b, ms) → SameCount a b
    unfolding apply
    apply-SameCount ms h = ground arith

    commit-SameCount : commit a ≡ ok b → SameCount a b
    unfolding commit
    commit-SameCount h = ground arith

    note-SameCount : (id : ℕ) (xs : List (LogEntry C)) → note_copies a id xs ≡ ok b → SameCount a b
    unfolding note_copies
    note-SameCount id xs h = ground arith

    copy-SameCount :
        (id : ℕ) (args : AppendEntriesArgs C) (reply : AppendEntriesReply)
        → deal_append_reply codec a id args reply ≡ ok b
        → SameCount a b
    unfolding deal_append_reply persist step_down
    copy-SameCount id args reply h = ground (arith, note-SameCount id args.entries)

    follow_commit-SameCount : (n : ℕ) → follow_commit codec a n ≡ ok b → SameCount a b
    unfolding follow_commit
    follow_commit-SameCount n h = ground arith

  module _ (codec : Codec C B) where
    broadcast-SameCount :
        (a b : Raft C B) (sent : List (ℕ × AppendEntriesArgs C))
        → broadcast_append_entries a ≡ ok (b, sent)
        → SameCount a b
    unfolding broadcast_append_entries
    broadcast-SameCount a b sent h =
        let (c, e, f) = bind_ok codec (commit a) _ _ h in
        let (x, g, k) = bind_ok codec (messages c c.peers) _ _ f in
        let w = commit-SameCount codec a c e in ground arith

    accept-SameCount :
        (a b : Raft C B) (base : ℕ) (args : AppendEntriesArgs C) (reply : AppendEntriesReply)
        → accept codec a base args ≡ ok (b, reply)
        → SameCount a b
    unfolding accept persist
    accept-SameCount a b base args reply h =
        let (x, e, f) = bind_ok codec (overwrite a.logs base args) _ _ h in
        let (c, g, k) =
          bind_ok codec (follow_commit codec (record a { logs = x.0 }) args.leader_commit) _ _ f in
        let w = follow_commit-SameCount codec (record a { logs = x.0 }) c args.leader_commit g in
        ground arith

    match_prev-SameCount :
        (a b : Raft C B) (args : AppendEntriesArgs C) (reply : AppendEntriesReply)
        → match_prev codec a args ≡ ok (b, reply)
        → SameCount a b
    unfolding match_prev refuse persist
    match_prev-SameCount a b args reply h = ground (arith, accept-SameCount a b)

    append-SameCount :
        (a b : Raft C B) (args : AppendEntriesArgs C) (reply : AppendEntriesReply)
        → append_entries codec a args ≡ ok (b, reply)
        → SameCount a b
    unfolding append_entries newer_term step_down
    append-SameCount a b args reply h = elim (Bool-cases (ltb args.term a.current_term)) [
      | inl old ↦ ground arith
      | inr fresh ↦
          let handle : (send a.chan_heart_beat >>= λ beats.
          match_prev codec (newer_term codec (record a { chan_heart_beat = beats }) args.term) args)
              ≡ ok (b, reply) =
            ground arith in
          let (beats, e, f) = bind_ok codec (send a.chan_heart_beat) _ _ handle in
          let w = match_prev-SameCount _ b args reply f in ground arith
    ]

    pub local-SameCount : (a b : Raft C B) (s : Step codec a b) → IsLocal codec s → SameCount a b
    local-SameCount a b (votes args reply h) l = vote-SameCount codec a b args reply h
    local-SameCount a b (appends args reply h) l = append-SameCount a b args reply h
    local-SameCount a b campaigns l = absurd l
    local-SameCount a b (counts args reply h) l = absurd l
    local-SameCount a b (copies id args reply h) l = copy-SameCount codec a b id args reply h
    local-SameCount a b (starts command r h) l = start-SameCount codec a b command r h
    local-SameCount a b (broadcasts sent h) l = broadcast-SameCount a b sent h
    local-SameCount a b (applies ms h) l = apply-SameCount codec a b ms h
    local-SameCount a b (waits s h) l = follow-SameCount codec a b s h
    local-SameCount a b (awaits s h) l = await-SameCount codec a b s h
    local-SameCount a b (powers h) l = power-SameCount codec a b h
    local-SameCount a b (crashes z) l = absurd l

    -- What a reply does: it adds a vote or none, and a message to chanBeElected takes a majority.
    pub deal-SameName :
        (a b : Raft C B) (args : RequestVoteArgs) (reply : RequestVoteReply)
        → deal_vote_reply codec a args reply ≡ ok b
        → SameName a b
    unfolding deal_vote_reply announce persist step_down
    deal-SameName a b args reply h = ground arith

    pub deal_uncounted :
        (a b : Raft C B) (args : RequestVoteArgs) (reply : RequestVoteReply)
        → deal_vote_reply codec a args reply ≡ ok b
        → is_counted codec a args reply ≡ false
        → (b.vote_count ≡ a.vote_count) × (b.chan_be_elected ≡ a.chan_be_elected)
    unfolding deal_vote_reply announce persist step_down is_counted
    deal_uncounted a b args reply h f = ground arith

    pub deal_counted :
        (a b : Raft C B) (args : RequestVoteArgs) (reply : RequestVoteReply)
        → deal_vote_reply codec a args reply ≡ ok b
        → is_counted codec a args reply ≡ true
        → (b.vote_count ≡ a.vote_count + 1)
          × (args.term ≡ a.current_term)
          × (reply.vote_granted ≡ true)
          × (b.current_term ≡ a.current_term)
          × (b.voted_for ≡ a.voted_for)
          × ((b.chan_be_elected ≡ a.chan_be_elected) ⊎ (a.peers < 2 * b.vote_count))
    unfolding deal_vote_reply announce is_counted
    deal_counted a b args reply h f =
        (ground arith, ground arith, ground arith, ground arith, ground arith, ground arith)

    pub args_lem :
        (a : Raft C B) (args : RequestVoteArgs)
        → request_vote_args codec a ≡ ok args
        → (args.term ≡ a.current_term) × (args.candidate_id ≡ a.me)
    unfolding request_vote_args
    args_lem a args h = (ground arith, ground arith)

    pub crash-SameName :
        (a : Raft C B) (z : C) → SameName a (make codec z a.peers a.me (copy a.persister))
    unfolding make read_persist read_raft_state copy make_persister
    crash-SameName a z = elim (Option-cases a.persister.raftstate) [
      | inl e ↦ ground (arith, e)
      | inr (b, e) ↦ ground (arith, e)
    ]
