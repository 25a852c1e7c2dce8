-- ===== src/Raft/Loop/Refinement.antt =====
-- The turns of statesLoop (raft-API.go) as steps of the server.
use distributed_algorithms.Prelude.{
  ℕ, ◌≡◌, ◌≢◌, ◌⊎◌, inl, inr, refl, sym, ◌∙◌, Option, some, List, arith, Bool-cases, ltb,
}
use distributed_algorithms.Raft.Run.{ok, send, ◌>>=◌}
use distributed_algorithms.Raft.Server.{
  Codec, Raft, State, follower, candidate, leader, persist, step_down, newer_term, LogEntry,
}
use distributed_algorithms.Raft.RequestVote.{
  RequestVoteArgs, RequestVoteReply, request_vote, vote, deal_vote_reply, announce,
}
use distributed_algorithms.Raft.AppendEntries.{
  AppendEntriesArgs, AppendEntriesReply, append_entries, match_prev, accept, refuse, follow_commit,
}
use distributed_algorithms.Raft.Leader.{
  broadcast_append_entries, commit, messages, deal_append_reply, note_copies,
}
use distributed_algorithms.Raft.Api.{
  ApplyMsg, Signal, timeout, heart_beats, elected, await_votes, start, apply, begin_election,
}
use distributed_algorithms.Raft.Steps.{
  Step, votes, appends, campaigns, counts, copies, starts, broadcasts, applies, waits, awaits,
  powers, crashes, Trace, stay, more,
}
use distributed_algorithms.Raft.Steps.Bound.{bind_ok}
use distributed_algorithms.Raft.Loop.{
  Point, switch, following, standing, electing, winning, leading, resting, branch, after_select,
  wins, IsOther, Turn, branches, follows, begins, ends, beats, wakes, others, restarts, Turns,
  starts_at, goes_on,
}

-- What the state is at a point: a leader has come through the switch, and so has a candidate.
abbrev pub IsAt : Point → State → Type 0
IsAt switch s = Unit
IsAt following s = s ≡ follower
IsAt standing s = s ≢ leader
IsAt electing s = s ≢ leader
IsAt winning s = s ≢ leader
IsAt leading s = s ≢ candidate
IsAt resting s = s ≢ candidate

module _ {C B : Type 0} where
  -- The state stays, or the server has stepped down.
  abbrev Keeps : Raft C B → Raft C B → Type 0
  Keeps a b = (b.state ≡ a.state) ⊎ (b.state ≡ follower)

  module _ (codec : Codec C B) (a b : Raft C B) where
    vote-Keeps :
        (args : RequestVoteArgs) (reply : RequestVoteReply)
        → request_vote codec a args ≡ ok (b, reply)
        → Keeps a b
    unfolding request_vote newer_term step_down vote persist
    vote-Keeps args reply h = ground arith

    count-Keeps :
        (args : RequestVoteArgs) (reply : RequestVoteReply)
        → deal_vote_reply codec a args reply ≡ ok b
        → Keeps a b
    unfolding deal_vote_reply announce persist step_down
    count-Keeps args reply h = ground arith

    start-Keeps : (command : C) (r : Option (ℕ × ℕ)) → start codec a command ≡ ok (b, r) → Keeps a b
    unfolding start persist
    start-Keeps command r h = ground arith

    apply-Keeps : (ms : List (ApplyMsg C)) → apply a ≡ ok (b, ms) → Keeps a b
    unfolding apply
    apply-Keeps ms h = ground arith

    note-same : (id : ℕ) (xs : List (LogEntry C)) → note_copies a id xs ≡ ok b → b.state ≡ a.state
    unfolding note_copies
    note-same id xs h = ground arith

    copy-Keeps :
        (id : ℕ) (args : AppendEntriesArgs C) (reply : AppendEntriesReply)
        → deal_append_reply codec a id args reply ≡ ok b
        → Keeps a b
    unfolding deal_append_reply persist step_down
    copy-Keeps id args reply h = ground (arith, note-same id args.entries)

    commit-state : commit a ≡ ok b → b.state ≡ a.state
    unfolding commit
    commit-state h = ground arith

    follow_commit-state : (n : ℕ) → follow_commit codec a n ≡ ok b → b.state ≡ a.state
    unfolding follow_commit
    follow_commit-state n h = ground arith

  module _ (codec : Codec C B) where
    pub broadcast-state :
        (a b : Raft C B) (sent : List (ℕ × AppendEntriesArgs C))
        → broadcast_append_entries a ≡ ok (b, sent)
        → b.state ≡ a.state
    unfolding broadcast_append_entries
    broadcast-state a b sent h =
        let (c, e, f) = bind_ok codec (commit a) _ _ h in
        let (x, g, k) = bind_ok codec (messages c c.peers) _ _ f in
        let w = commit-state codec a c e in ground arith

    pub match_prev-state :
        (a b : Raft C B) (args : AppendEntriesArgs C) (reply : AppendEntriesReply)
        → match_prev codec a args ≡ ok (b, reply)
        → b.state ≡ a.state
    unfolding match_prev refuse accept persist
    match_prev-state a b args reply h = ground (arith, follow_commit-state codec)

    append-Keeps :
        (a b : Raft C B) (args : AppendEntriesArgs C) (reply : AppendEntriesReply)
        → append_entries codec a args ≡ ok (b, reply)
        → Keeps a b
    unfolding append_entries newer_term step_down
    append-Keeps a b args reply h = elim (Bool-cases (ltb args.term a.current_term)) [
      | inl old ↦ ground arith
      | inr fresh ↦
          let handle : (send a.chan_heart_beat >>= λ n.
          match_prev codec (newer_term codec (record a { chan_heart_beat = n }) args.term) args)
              ≡ ok (b, reply) =
            ground arith in
          let (n, e, f) = bind_ok codec (send a.chan_heart_beat) _ _ handle in
          let w = match_prev-state _ b args reply f in ground arith
    ]

    other-Keeps : (a b : Raft C B) (s : Step codec a b) → IsOther codec s → Keeps a b
    other-Keeps a b (votes args reply h) o = vote-Keeps codec a b args reply h
    other-Keeps a b (appends args reply h) o = append-Keeps a b args reply h
    other-Keeps a b campaigns o = absurd o
    other-Keeps a b (counts args reply h) o = count-Keeps codec a b args reply h
    other-Keeps a b (copies id args reply h) o = copy-Keeps codec a b id args reply h
    other-Keeps a b (starts command r h) o = start-Keeps codec a b command r h
    other-Keeps a b (broadcasts sent h) o = absurd o
    other-Keeps a b (applies ms h) o = apply-Keeps codec a b ms h
    other-Keeps a b (waits s h) o = absurd o
    other-Keeps a b (awaits s h) o = absurd o
    other-Keeps a b (powers h) o = absurd o
    other-Keeps a b (crashes z) o = absurd o

    IsAt-Keeps : (p : Point) (a b : Raft C B) → Keeps a b → IsAt p a.state → IsAt p b.state
    IsAt-Keeps switch a b k v = tt
    IsAt-Keeps following a b k v = ground arith
    IsAt-Keeps standing a b k v = λ e. ground arith
    IsAt-Keeps electing a b k v = λ e. ground arith
    IsAt-Keeps winning a b k v = λ e. ground arith
    IsAt-Keeps leading a b k v = λ e. ground arith
    IsAt-Keeps resting a b k v = λ e. ground arith

    branch-IsAt : (s : State) → IsAt (branch s) s
    unfolding branch
    branch-IsAt follower = refl
    branch-IsAt candidate = λ e. cc
    branch-IsAt leader = λ e. cc

    -- The state stays in the select where an element of chanBeElected is taken.
    select-IsAt :
        (a b : Raft C B) (s : Signal)
        → await_votes a s ≡ some b
        → a.state ≢ leader
        → IsAt (after_select s) b.state
    unfolding await_votes after_select
    select-IsAt a b timeout h v = tt
    select-IsAt a b heart_beats h v = tt
    select-IsAt a b elected h v = λ e. ground arith

    Turn-Trace :
        (a b c : Raft C B) (p q : Point)
        → Turn codec p b q c
        → Trace codec a b × IsAt p b.state
        → Trace codec a c × IsAt q c.state
    unfolding begin_election persist
    Turn-Trace a b _ _ _ branches (t, v) = (t, branch-IsAt b.state)
    Turn-Trace a b c _ _ (follows s h) (t, v) = (more t (waits s h), tt)
    Turn-Trace a b _ _ _ begins (t, v) = (more t campaigns, v)
    Turn-Trace a b c _ _ (ends s h) (t, v) = (more t (awaits s h), select-IsAt b c s h v)
    Turn-Trace a b c _ _ (wins h) (t, v) = (more t (powers h), tt)
    Turn-Trace a b c _ _ (beats sent h) (t, v) =
        (more t (broadcasts sent h), λ e. v (sym (broadcast-state b c sent h) ∙ e))
    Turn-Trace a b _ _ _ wakes (t, v) = (t, tt)
    Turn-Trace a b c p _ (others s o) (t, v) = (more t s, IsAt-Keeps p b c (other-Keeps b c s o) v)
    Turn-Trace a b _ _ _ (restarts z) (t, v) = (more t (crashes z), tt)

    -- Whatever statesLoop does, with handlers and the other goroutines between its steps and with
    -- restarts, is a run of the steps of the server. The server is a follower while it waits for a
    -- heart beat, it is no leader while it stands for election and until it comes to power, and no candidate while it leads.
    pub states_loop_refines :
        (a b : Raft C B) (p : Point) → Turns codec a p b → Trace codec a b × IsAt p b.state
    states_loop_refines a _ _ starts_at = (stay, tt)
    states_loop_refines a c q (goes_on {p = p} {b = b} r t) =
        Turn-Trace a b c p q t (states_loop_refines a b p r)
