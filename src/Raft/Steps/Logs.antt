-- ===== src/Raft/Steps/Logs.antt =====
-- The log of a server stays a log, across crashes, where the messages to it are those of a log.
use distributed_algorithms.Prelude.{ℕ, zero, suc, ◌+◌, ◌≡◌, inl, inr, refl, Option, [], ◌∷◌, arith}
use distributed_algorithms.Raft.Run.{ok}
use distributed_algorithms.Raft.Server.{
  State, leader, candidate, follower, make_persister, copy, Codec, Raft, persist, read_persist,
  read_raft_state, persistent, is_leader,
}
use distributed_algorithms.Raft.Server.Log.{IsRange, IsLog}
use distributed_algorithms.Raft.Api.{make, start, begin_election}
use distributed_algorithms.Raft.Api.Restart.{start_lem}
use distributed_algorithms.Raft.Steps.{
  powers, Step, votes, appends, campaigns, counts, copies, starts, broadcasts, applies, waits,
  awaits, crashes, Trace, stay, more,
}
use distributed_algorithms.Raft.Steps.Bound.{
  power-same, broadcast-same, apply-same, follow-same, await-same,
}
use distributed_algorithms.Raft.Steps.OneVote.{Stored, made-Stored, step-IsBound}
use distributed_algorithms.Raft.Steps.Outcome.{
  append-Outcome, Outcome-IsLog, vote-logs, count-logs, copy-logs,
}

module _ {C B : Type 0} (codec : Codec C B) where
  start-IsLog :
      (a b : Raft C B) (command : C) (r : Option (ℕ × ℕ))
      → IsLog a.logs
      → start codec a command ≡ ok (b, r)
      → IsLog b.logs
  unfolding start is_leader
  start-IsLog a b command r log h = by_state a.state refl
    where
      by_state : (s : State) → a.state ≡ s → IsLog b.logs
      by_state leader e =
          let (c, w) = start_lem codec a command e log in
          let same : b.logs ≡ c.logs = ground (arith, w.returns) in rw same w.valid
      by_state candidate e = let same : b.logs ≡ a.logs = ground arith in rw same log
      by_state follower e = let same : b.logs ≡ a.logs = ground arith in rw same log

  pub first-IsLog : (z : C) → IsLog (record { log_index = 0; log_term = 0; command = z } ∷ [])
  first-IsLog z = record { inhabited = omega arith; range = range }
    where
      range : IsRange 0 (record { log_index = 0; log_term = 0; command = z } ∷ [])
      range zero e h = ground arith
      range (suc i) e h = absurd (ground arith)

  crash-IsLog :
      (a : Raft C B) (z : C) (peers me : ℕ)
      → Stored codec a
      → IsLog a.logs
      → IsLog (make codec z peers me (copy a.persister)).logs
  unfolding make read_persist read_raft_state copy make_persister
  crash-IsLog a z peers me (inl p) log =
      let x = codec.size-encode (persistent codec a) in
      let y = codec.decode-encode (persistent codec a) in
      let same : (make codec z peers me (copy a.persister)).logs ≡ a.logs =
        ground (arith, p, x, y) in
      rw same log
  crash-IsLog a z peers me (inr v) log =
      let same : (make codec z peers me (copy a.persister)).logs
          ≡ record { log_index = 0; log_term = 0; command = z } ∷ [] =
        ground (arith, v) in
      rw same (first-IsLog z)

  -- The entries of a message to the server go on from the previous index.
  unfoldable pub IsRanged : {a b : Raft C B} → Step codec a b → Type 0
  IsRanged (appends args reply h) = IsRange (args.prev_log_index + 1) args.entries
  IsRanged _ = Unit

  unfoldable pub AreRanged : {a b : Raft C B} → Trace codec a b → Type 0
  AreRanged stay = Unit
  AreRanged (more t s) = AreRanged t × IsRanged s

  step-IsLog :
      (a b : Raft C B) (s : Step codec a b)
      → IsRanged s
      → Stored codec a
      → IsLog a.logs
      → IsLog b.logs
  unfolding IsRanged begin_election persist
  step-IsLog a b (votes args reply h) r v log = rw (vote-logs codec a b args reply h) log
  step-IsLog a b (appends args reply h) r v log =
      Outcome-IsLog codec a.logs args b.logs log r (append-Outcome codec a b args reply log h)
  step-IsLog a b campaigns r v log = log
  step-IsLog a b (counts args reply h) r v log = rw (count-logs codec a b args reply h) log
  step-IsLog a b (copies id args reply h) r v log = rw (copy-logs codec a b id args reply h) log
  step-IsLog a b (starts command x h) r v log = start-IsLog a b command x log h
  step-IsLog a b (broadcasts sent h) r v log = rw ((broadcast-same codec a b sent h).2) log
  step-IsLog a b (applies ms h) r v log = rw ((apply-same codec a b ms h).2) log
  step-IsLog a b (waits s h) r v log = rw ((follow-same codec a b s h).2) log
  step-IsLog a b (awaits s h) r v log = rw ((await-same codec a b s h).2) log
  step-IsLog a b (powers h) r v log = rw ((power-same codec a b h).2) log
  step-IsLog a b (crashes z) r v log = crash-IsLog a z a.peers a.me v log

  Trace-IsLog :
      (a b : Raft C B) (t : Trace codec a b)
      → AreRanged t
      → Stored codec a
      → IsLog a.logs
      → IsLog b.logs × Stored codec b
  unfolding AreRanged
  Trace-IsLog a b stay r v log = (log, v)
  Trace-IsLog a c (more {b = b} t s) r v log =
      let (l, w) = Trace-IsLog a b t r.0 v log in
      (step-IsLog b c s r.1 w l, (step-IsBound codec b c s w).1)

  -- Whatever a server does after it was made without a saved state, crashes and restarts included,
  -- its log starts with the entry 0 and has consecutive indices, where the entries of every message
  -- to its handler AppendEntries have consecutive indices from PrevLogIndex + 1 on.
  pub log_kept :
      (z : C) (peers me : ℕ) (b : Raft C B)
      (t : Trace codec (make codec z peers me make_persister) b)
      → AreRanged t
      → IsLog b.logs
  unfolding make read_persist read_raft_state make_persister
  log_kept z peers me b t r = (Trace-IsLog _ b t r (made-Stored codec z peers me) (first-IsLog z)).0
