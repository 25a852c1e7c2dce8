-- ===== src/Raft/Steps/Outcome.antt =====
-- What the calls of a server do to its log (raft-RequestVote.go, raft-AppendEntries.go).
use distributed_algorithms.Prelude.{
  ℕ, ◌+◌, ◌-◌, ◌≤◌, ◌≡◌, inl, inr, subst, Bool, Option, none, some, List, ◌++◌, ltb, leb, arith,
  Bool-cases, length, take, length-append, length-take,
}
use distributed_algorithms.Raft.Run.{ok, ◌>>=◌, send}
use distributed_algorithms.Raft.Server.{LogEntry, Codec, Raft, persist, step_down, newer_term}
use distributed_algorithms.Raft.Server.Log.{
  IsRange, IsLog, IsRange-take, IsRange-append, get_base_index-ok, get_last_index-ok,
}
use distributed_algorithms.Raft.RequestVote.{
  RequestVoteArgs, RequestVoteReply, request_vote, vote, deal_vote_reply, announce,
}
use distributed_algorithms.Raft.AppendEntries.{
  AppendEntriesArgs, AppendEntriesReply, append_entries, match_prev, check_prev, accept, refuse,
  follow_commit, overwrite, slice_to,
}
use distributed_algorithms.Raft.Leader.{deal_append_reply, note_copies}
use distributed_algorithms.Raft.Steps.Bound.{bind_ok}

module _ {C B : Type 0} (codec : Codec C B) where
  pub vote-logs :
      (a b : Raft C B) (args : RequestVoteArgs) (reply : RequestVoteReply)
      → request_vote codec a args ≡ ok (b, reply)
      → b.logs ≡ a.logs
  unfolding request_vote newer_term step_down vote persist
  vote-logs a b args reply h = ground arith

  pub count-logs :
      (a b : Raft C B) (args : RequestVoteArgs) (reply : RequestVoteReply)
      → deal_vote_reply codec a args reply ≡ ok b
      → b.logs ≡ a.logs
  unfolding deal_vote_reply announce persist step_down
  count-logs a b args reply h = ground arith

  note-logs :
      (a b : Raft C B) (id : ℕ) (es : List (LogEntry C))
      → note_copies a id es ≡ ok b
      → b.logs ≡ a.logs
  unfolding note_copies
  note-logs a b id es h = ground arith

  pub copy-logs :
      (a b : Raft C B) (id : ℕ) (args : AppendEntriesArgs C) (reply : AppendEntriesReply)
      → deal_append_reply codec a id args reply ≡ ok b
      → b.logs ≡ a.logs
  unfolding deal_append_reply persist step_down
  copy-logs a b id args reply h = ground (arith, note-logs a b id args.entries)

  written-IsLog :
      (logs : List (LogEntry C)) (prev : ℕ) (es : List (LogEntry C))
      → IsLog logs
      → prev + 1 ≤ length logs
      → IsRange (prev + 1) es
      → IsLog (take (prev + 1) logs ++ es)
  written-IsLog logs prev es log le new = record {
    inhabited =
        omega (arith, length-append (take (prev + 1) logs) es, length-take (prev + 1) logs le);
    range =
        IsRange-append 0 (take (prev + 1) logs) es (IsRange-take 0 (prev + 1) logs le log.range)
          (rw (length-take (prev + 1) logs le) (λ i e h. omega (arith, new i e h)));
  }

  -- What AppendEntries makes of a log: nothing else, or the entries behind the previous one, which
  -- the log has.
  pub data Outcome (logs : List (LogEntry C)) (args : AppendEntriesArgs C)
      (logs' : List (LogEntry C)) : Type 0 where
    unchanged : logs' ≡ logs → Outcome logs args logs'
    changed :
        args.prev_log_index + 1 ≤ length logs
        → check_prev logs 0 args ≡ ok none
        → logs' ≡ take (args.prev_log_index + 1) logs ++ args.entries
        → Outcome logs args logs'

  overwrite-Outcome :
      (logs : List (LogEntry C)) (args : AppendEntriesArgs C) (r : List (LogEntry C) × Bool × ℕ)
      → check_prev logs 0 args ≡ ok none
      → overwrite logs 0 args ≡ ok r
      → Outcome logs args (r.0)
  unfolding overwrite slice_to
  overwrite-Outcome logs args r c h =
      elim (Bool-cases (leb (args.prev_log_index + 1) (length logs))) [
        | inr out ↦ absurd (ground arith)
        | inl fits ↦ changed (ground arith) c (ground arith)
      ]

  follow_commit-logs : (a b : Raft C B) (n : ℕ) → follow_commit codec a n ≡ ok b → b.logs ≡ a.logs
  unfolding follow_commit
  follow_commit-logs a b n h = ground arith

  accept-Outcome :
      (a b : Raft C B) (args : AppendEntriesArgs C) (reply : AppendEntriesReply)
      → check_prev a.logs 0 args ≡ ok none
      → accept codec a 0 args ≡ ok (b, reply)
      → Outcome a.logs args b.logs
  unfolding accept persist
  accept-Outcome a b args reply c h =
      let (r, e, f) = bind_ok codec (overwrite a.logs 0 args) _ _ h in
      let (d, g, k) =
        bind_ok codec (follow_commit codec (record a { logs = r.0 }) args.leader_commit) _ _ f in
      let w = follow_commit-logs (record a { logs = r.0 }) d args.leader_commit g in
      let same : b.logs ≡ r.0 = ground arith in rw same (overwrite-Outcome a.logs args r c e)

  match_prev-Outcome :
      (a b : Raft C B) (args : AppendEntriesArgs C) (reply : AppendEntriesReply)
      → IsLog a.logs
      → match_prev codec a args ≡ ok (b, reply)
      → Outcome a.logs args b.logs
  unfolding match_prev refuse persist
  match_prev-Outcome a b args reply log h =
      elim (Bool-cases (ltb (length a.logs - 1) args.prev_log_index)) [
        | inl short ↦ unchanged (ground (arith, get_last_index-ok a.logs log))
        | inr long ↦
            let rest : (check_prev a.logs 0 args >>= λ conflict. elim conflict [
              | some next ↦ refuse codec a next
              | none ↦ accept codec a 0 args
            ])
                ≡ ok (b, reply) =
              ground (arith, get_last_index-ok a.logs log, get_base_index-ok a.logs log) in
            let (conflict, e, f) = bind_ok codec (check_prev a.logs 0 args) _ _ rest in
            decided conflict e f
      ]
    where
      decided :
          (conflict : Option ℕ)
          → check_prev a.logs 0 args ≡ ok conflict
          → elim conflict [ some next ↦ refuse codec a next | none ↦ accept codec a 0 args ]
            ≡ ok (b, reply)
          → Outcome a.logs args b.logs
      decided none e f = accept-Outcome a b args reply e f
      decided (some next) e f = unchanged (ground arith)

  pub append-Outcome :
      (a b : Raft C B) (args : AppendEntriesArgs C) (reply : AppendEntriesReply)
      → IsLog a.logs
      → append_entries codec a args ≡ ok (b, reply)
      → Outcome a.logs args b.logs
  unfolding append_entries newer_term step_down
  append-Outcome a b args reply log h = elim (Bool-cases (ltb args.term a.current_term)) [
    | inl old ↦ unchanged (ground arith)
    | inr fresh ↦
        let handle : (send a.chan_heart_beat >>= λ beats.
        match_prev codec (newer_term codec (record a { chan_heart_beat = beats }) args.term) args)
            ≡ ok (b, reply) =
          ground arith in
        let (beats, e, f) = bind_ok codec (send a.chan_heart_beat) _ _ handle in
        let same : (newer_term codec (record a { chan_heart_beat = beats }) args.term).logs
            ≡ a.logs =
          ground arith in
        subst (λ x. Outcome x args b.logs) same (match_prev-Outcome _ b args reply (rw same log) f)
  ]

  pub Outcome-IsLog :
      (logs : List (LogEntry C)) (args : AppendEntriesArgs C) (logs' : List (LogEntry C))
      → IsLog logs
      → IsRange (args.prev_log_index + 1) args.entries
      → Outcome logs args logs'
      → IsLog logs'
  Outcome-IsLog logs args logs' log new (unchanged e) = rw e log
  Outcome-IsLog logs args logs' log new (changed fits c e) =
      rw e (written-IsLog logs args.prev_log_index args.entries log fits new)
