-- ===== src/Raft/Steps/Bound.antt =====
-- What each handler of a server does to its term, its vote and what it has persisted.
use distributed_algorithms.Prelude.{
  ℕ, ◌<◌, ◌≡◌, ◌⊎◌, inl, inr, refl, Option, none, some, List, ltb, arith, Bool-cases,
}
use distributed_algorithms.Raft.Run.{Run, ok, panic, blocked, ◌>>=◌, send}
use distributed_algorithms.Raft.Server.{
  LogEntry, Codec, Raft, persist, save_raft_state, step_down, newer_term, IsPersisted,
}
use distributed_algorithms.Raft.RequestVote.{
  RequestVoteArgs, RequestVoteReply, request_vote, vote, is_valid_args, may_vote, deal_vote_reply,
  announce,
}
use distributed_algorithms.Raft.AppendEntries.{
  AppendEntriesArgs, AppendEntriesReply, append_entries, match_prev, accept, refuse, follow_commit,
  overwrite,
}
use distributed_algorithms.Raft.Leader.{
  broadcast_append_entries, commit, messages, deal_append_reply, note_copies,
}
use distributed_algorithms.Raft.Api.{
  ApplyMsg, start, come_to_power, Signal, follow, await_votes, apply,
}

module _ {C B : Type 0} (codec : Codec C B) where
  -- The fields that a vote stands in.
  abbrev pub SameVote : Raft C B → Raft C B → Type 0
  SameVote a b = (b.current_term ≡ a.current_term) × (b.voted_for ≡ a.voted_for)

  -- The term rises, or a vote that has been given in it stays.
  abbrev pub IsBound : Raft C B → Raft C B → Type 0
  IsBound a b =
      (a.current_term < b.current_term)
      ⊎ ((b.current_term ≡ a.current_term) × ((a.voted_for ≡ none) ⊎ (b.voted_for ≡ a.voted_for)))

  -- The server is as it was, or persisted.
  abbrev pub Kept : Raft C B → Raft C B → Type 0
  Kept a b = (SameVote a b × (b.persister ≡ a.persister) × (b.logs ≡ a.logs)) ⊎ IsPersisted codec b

  pub bind_ok :
      {X Y : Type 0} (x : Run X) (f : X → Run Y) (y : Y)
      → x >>= f ≡ ok y
      → (a : X) × (x ≡ ok a) × (f a ≡ ok y)
  bind_ok (ok a) f y h = (a, refl, h)
  bind_ok panic f y h = cc
  bind_ok blocked f y h = cc

  module _ (rf : Raft C B) where
    pub vote-IsBound :
        (rf' : Raft C B) (args : RequestVoteArgs) (reply : RequestVoteReply)
        → request_vote codec rf args ≡ ok (rf', reply)
        → IsBound rf rf' × Kept rf rf'
    unfolding request_vote newer_term step_down vote is_valid_args may_vote persist save_raft_state
    vote-IsBound rf' args reply h = (ground arith, ground arith)

    pub start-same :
        (rf' : Raft C B) (command : C) (r : Option (ℕ × ℕ))
        → start codec rf command ≡ ok (rf', r)
        → SameVote rf rf' × Kept rf rf'
    unfolding start persist save_raft_state
    start-same rf' command r h = ground arith

    pub count-IsBound :
        (rf' : Raft C B) (args : RequestVoteArgs) (reply : RequestVoteReply)
        → deal_vote_reply codec rf args reply ≡ ok rf'
        → IsBound rf rf' × Kept rf rf'
    unfolding deal_vote_reply announce persist save_raft_state step_down
    count-IsBound rf' args reply h = (ground arith, ground arith)

    pub follow-same :
        (rf' : Raft C B) (s : Signal)
        → follow rf s ≡ some rf'
        → SameVote rf rf' × (rf'.persister ≡ rf.persister) × (rf'.logs ≡ rf.logs)
    unfolding follow
    follow-same rf' s h = (ground arith)

    pub await-same :
        (rf' : Raft C B) (s : Signal)
        → await_votes rf s ≡ some rf'
        → SameVote rf rf' × (rf'.persister ≡ rf.persister) × (rf'.logs ≡ rf.logs)
    unfolding await_votes
    await-same rf' s h = (ground arith)

    pub power-same :
        (rf' : Raft C B)
        → come_to_power rf ≡ ok rf'
        → SameVote rf rf' × (rf'.persister ≡ rf.persister) × (rf'.logs ≡ rf.logs)
    unfolding come_to_power
    power-same rf' h = (ground arith)

    commit-same :
        (rf' : Raft C B)
        → commit rf ≡ ok rf'
        → SameVote rf rf' × (rf'.persister ≡ rf.persister) × (rf'.logs ≡ rf.logs)
    unfolding commit
    commit-same rf' h = ground arith

    pub broadcast-same :
        (rf' : Raft C B) (sent : List (ℕ × AppendEntriesArgs C))
        → broadcast_append_entries rf ≡ ok (rf', sent)
        → SameVote rf rf' × (rf'.persister ≡ rf.persister) × (rf'.logs ≡ rf.logs)
    unfolding broadcast_append_entries
    broadcast-same rf' sent h =
        let (c, e, f) = bind_ok (commit rf) _ _ h in
        let (x, g, k) = bind_ok (messages c c.peers) _ _ f in
        let w = commit-same c e in ground arith

    pub apply-same :
        (rf' : Raft C B) (ms : List (ApplyMsg C))
        → apply rf ≡ ok (rf', ms)
        → SameVote rf rf' × (rf'.persister ≡ rf.persister) × (rf'.logs ≡ rf.logs)
    unfolding apply
    apply-same rf' ms h = ground arith

  note_copies-same :
      (rf rf' : Raft C B) (id : ℕ) (xs : List (LogEntry C))
      → note_copies rf id xs ≡ ok rf'
      → SameVote rf rf' × (rf'.persister ≡ rf.persister) × (rf'.logs ≡ rf.logs)
  unfolding note_copies
  note_copies-same rf rf' id xs h = ground arith

  pub copy-IsBound :
      (rf rf' : Raft C B) (id : ℕ) (args : AppendEntriesArgs C) (reply : AppendEntriesReply)
      → deal_append_reply codec rf id args reply ≡ ok rf'
      → IsBound rf rf' × Kept rf rf'
  unfolding deal_append_reply persist save_raft_state step_down
  copy-IsBound rf rf' id args reply h = (
    ground (arith, note_copies-same rf rf' id args.entries),
    ground (arith, note_copies-same rf rf' id args.entries),
  )

  follow_commit-same :
      (rf rf' : Raft C B) (n : ℕ) → follow_commit codec rf n ≡ ok rf' → SameVote rf rf'
  unfolding follow_commit
  follow_commit-same rf rf' n h = ground arith

  accept-same :
      (rf rf' : Raft C B) (base : ℕ) (args : AppendEntriesArgs C) (reply : AppendEntriesReply)
      → accept codec rf base args ≡ ok (rf', reply)
      → SameVote rf rf' × IsPersisted codec rf'
  unfolding accept persist save_raft_state
  accept-same rf rf' base args reply h =
      let (a, e, f) = bind_ok (overwrite rf.logs base args) _ _ h in
      let (c, g, k) =
        bind_ok (follow_commit codec (record rf { logs = a.0 }) args.leader_commit) _ _ f in
      let w = follow_commit-same (record rf { logs = a.0 }) c args.leader_commit g in ground arith

  pub match_prev-same :
      (rf rf' : Raft C B) (args : AppendEntriesArgs C) (reply : AppendEntriesReply)
      → match_prev codec rf args ≡ ok (rf', reply)
      → SameVote rf rf' × IsPersisted codec rf'
  unfolding match_prev refuse persist save_raft_state
  match_prev-same rf rf' args reply h = ground (arith, accept-same rf rf')

  pub append-IsBound :
      (rf rf' : Raft C B) (args : AppendEntriesArgs C) (reply : AppendEntriesReply)
      → append_entries codec rf args ≡ ok (rf', reply)
      → IsBound rf rf' × Kept rf rf'
  unfolding append_entries newer_term step_down
  append-IsBound rf rf' args reply h = elim (Bool-cases (ltb args.term rf.current_term)) [
    | inl old ↦ (ground arith, ground arith)
    | inr fresh ↦
        let handle : (send rf.chan_heart_beat >>= λ beats.
        match_prev codec (newer_term codec (record rf { chan_heart_beat = beats }) args.term) args)
            ≡ ok (rf', reply) =
          ground arith in
        let (beats, e, f) = bind_ok (send rf.chan_heart_beat) _ _ handle in
        let w = match_prev-same _ rf' args reply f in (ground arith, inr w.1)
  ]
