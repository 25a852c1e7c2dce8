-- ===== src/Raft/Steps/OneVote.antt =====
-- A server votes once in a term, across crashes.
use distributed_algorithms.Prelude.{ℕ, ◌≤◌, ◌<◌, ◌≡◌, ◌⊎◌, inl, inr, refl, none, arith}
use distributed_algorithms.Raft.Server.{
  make_persister, copy, Codec, Raft, persist, save_raft_state, read_persist, read_raft_state,
  persistent, IsPersisted,
}
use distributed_algorithms.Raft.Api.{make, begin_election}
use distributed_algorithms.Raft.Steps.{
  Step, votes, appends, campaigns, counts, copies, starts, broadcasts, applies, waits, awaits,
  powers, crashes, Trace, stay, more,
}
use distributed_algorithms.Raft.Steps.Bound.{
  SameVote, IsBound, Kept, vote-IsBound, start-same, count-IsBound, follow-same, await-same,
  power-same, broadcast-same, apply-same, copy-IsBound, append-IsBound,
}

module _ {C B : Type 0} (codec : Codec C B) where
  -- What is persisted is up to date, or nothing is and the server is as it was made.
  abbrev pub Stored : Raft C B → Type 0
  Stored rf =
      IsPersisted codec rf
      ⊎ ((rf.persister.raftstate ≡ none) × (rf.current_term ≡ 0) × (rf.voted_for ≡ none))

  Kept-Stored : (a b : Raft C B) → Kept codec a b → Stored a → Stored b
  Kept-Stored a b (inr p) v = inl p
  Kept-Stored a b (inl k) v = ground arith

  pub made-Stored : (z : C) (peers me : ℕ) → Stored (make codec z peers me make_persister)
  unfolding make read_persist read_raft_state make_persister
  made-Stored z peers me = inr (refl, refl, refl)

  crash-IsBound :
      (rf : Raft C B) (z : C) (peers me : ℕ)
      → Stored rf
      → let rf' = make codec z peers me (copy rf.persister) in IsBound codec rf rf' × Stored rf'
  unfolding make read_persist read_raft_state copy make_persister
  crash-IsBound rf z peers me (inl p) =
      let x = codec.size-encode (persistent codec rf) in
      let y = codec.decode-encode (persistent codec rf) in
      (ground (arith, p, x, y), inl (ground (arith, p, x, y)))
  crash-IsBound rf z peers me (inr v) = (ground (arith, v), inr (ground (arith, v)))

  campaign-lt : (a : Raft C B) → IsBound codec a (begin_election codec a)
  unfolding begin_election persist
  campaign-lt a = inl (omega arith)

  campaign-IsPersisted : (a : Raft C B) → IsPersisted codec (begin_election codec a)
  unfolding begin_election persist save_raft_state
  campaign-IsPersisted a = refl

  same-IsBound :
      (a b : Raft C B)
      → SameVote codec a b × (b.persister ≡ a.persister) × (b.logs ≡ a.logs)
      → Stored a
      → IsBound codec a b × Stored b
  same-IsBound a b k v = (ground arith, Kept-Stored a b (inl k) v)

  pub step-IsBound : (a b : Raft C B) → Step codec a b → Stored a → IsBound codec a b × Stored b
  step-IsBound a b (votes args reply h) v =
      let w = vote-IsBound codec a b args reply h in (w.0, Kept-Stored a b w.1 v)
  step-IsBound a b (appends args reply h) v =
      let w = append-IsBound codec a b args reply h in (w.0, Kept-Stored a b w.1 v)
  step-IsBound a b campaigns v = (campaign-lt a, inl (campaign-IsPersisted a))
  step-IsBound a b (counts args reply h) v =
      let w = count-IsBound codec a b args reply h in (w.0, Kept-Stored a b w.1 v)
  step-IsBound a b (copies id args reply h) v =
      let w = copy-IsBound codec a b id args reply h in (w.0, Kept-Stored a b w.1 v)
  step-IsBound a b (starts command r h) v =
      let w = start-same codec a b command r h in (ground arith, Kept-Stored a b w.1 v)
  step-IsBound a b (broadcasts sent h) v = same-IsBound a b (broadcast-same codec a b sent h) v
  step-IsBound a b (applies ms h) v = same-IsBound a b (apply-same codec a b ms h) v
  step-IsBound a b (waits s h) v = same-IsBound a b (follow-same codec a b s h) v
  step-IsBound a b (awaits s h) v = same-IsBound a b (await-same codec a b s h) v
  step-IsBound a b (powers h) v = same-IsBound a b (power-same codec a b h) v
  step-IsBound a b (crashes z) v = crash-IsBound a z a.peers a.me v

  Trace-IsBound : (a b : Raft C B) → Trace codec a b → Stored a → IsBound codec a b × Stored b
  Trace-IsBound a b stay v = (inr (refl, inr refl), v)
  Trace-IsBound a c (more {b = b} t s) v =
      let w = Trace-IsBound a b t v in let u = step-IsBound b c s w.1 in (ground arith, u.1)

  -- Whatever a server does after it was made without a saved state, crashes and restarts included:
  -- its term never falls, and a vote that it has given stays its vote as long as the term does.
  pub one_vote_in_a_term :
      (z : C) (peers me : ℕ) (a b : Raft C B)
      → Trace codec (make codec z peers me make_persister) a
      → Trace codec a b
      → (a.current_term ≤ b.current_term)
        × ((a.current_term < b.current_term) ⊎ ((a.voted_for ≡ none) ⊎ (b.voted_for ≡ a.voted_for)))
  one_vote_in_a_term z peers me a b before after =
      let v = (Trace-IsBound _ a before (made-Stored z peers me)).1 in
      let w = (Trace-IsBound a b after v).0 in (ground arith, ground arith)
