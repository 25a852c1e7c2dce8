-- ===== src/Raft/AppendEntries/Outcome.antt =====
-- What the handler of AppendEntries does where the previous entry matches.
use distributed_algorithms.Prelude.{
  ℕ, ◌+◌, ◌-◌, ◌≤◌, ◌<◌, ◌≡◌, inl, inr, refl, ◌∙◌, ap, true, none, some, List, ◌++◌, ltb,
  if◌then◌else◌, arith, Bool-cases, get_elem?-some, length, get_elem?, take, length-append,
  length-take,
}
use distributed_algorithms.Raft.Run.{ok, send, capacity}
use distributed_algorithms.Raft.Server.{
  LogEntry, Codec, Raft, min, persist, IsPersisted, save_raft_state,
}
use distributed_algorithms.Raft.Server.Log.{
  IsRange, IsLog, IsRange-take, IsRange-append, get_last_index-ok, get_base_index-ok,
}
use distributed_algorithms.Raft.AppendEntries.{
  AppendEntriesArgs, AppendEntriesReply, check_prev, slice_to, overwrite, follow_commit, accept,
  match_prev, append_entries,
}
use distributed_algorithms.Raft.AppendEntries.Seen.{IsSeen, handled, beaten-IsSeen}

-- The log has the previous entry of the arguments. The entry 0 is in every log.
pub record Matches {C : Type 0} (logs : List (LogEntry C)) (args : AppendEntriesArgs C)
    : Type 0 where
  pub within : args.prev_log_index < length logs
  pub agrees :
      (e : LogEntry C)
      → 0 < args.prev_log_index
      → get_elem? logs args.prev_log_index ≡ some e
      → args.prev_log_term ≡ e.log_term

module _ {C : Type 0} (logs : List (LogEntry C)) (args : AppendEntriesArgs C) (log : IsLog logs)
    (m : Matches logs args) (new : IsRange (args.prev_log_index + 1) args.entries) where
  abbrev pub written : List (LogEntry C)
  written = take (args.prev_log_index + 1) logs ++ args.entries

  pub length-written : length written ≡ args.prev_log_index + 1 + length args.entries
  length-written = omega (
    arith,
    length-append (take (args.prev_log_index + 1) logs) args.entries,
    length-take (args.prev_log_index + 1) logs (omega (arith, m.within)),
  )

  pub written-IsLog : IsLog written
  written-IsLog = record {
    inhabited = omega (arith, length-written);
    range =
        IsRange-append 0 (take (args.prev_log_index + 1) logs) args.entries
          (IsRange-take 0 (args.prev_log_index + 1) logs (omega (arith, m.within)) log.range)
          (rw (length-take (args.prev_log_index + 1) logs (omega (arith, m.within)))
            (λ i e h. omega (arith, new i e h)));
  }

  pub matched : check_prev logs 0 args ≡ ok none
  unfolding check_prev
  matched = elim (Bool-cases (ltb 0 args.prev_log_index)) [
    | inr first ↦ rw first
    | inl later ↦
        let (e, h) = get_elem?-some logs args.prev_log_index m.within in
        ground (arith, h, m.agrees e (ground arith) h)
  ]

  pub overwritten :
      overwrite logs 0 args ≡ ok (written, true, args.prev_log_index + 1 + length args.entries)
  unfolding overwrite slice_to
  overwritten = ground (arith, m.within, get_last_index-ok written written-IsLog, length-written)

-- The commit index after a message with this commit index of the leader, for a log of length `n`.
abbrev pub followed : ℕ → ℕ → ℕ → ℕ
followed old leader_commit n = if ltb old leader_commit then min leader_commit (n - 1) else old

module _ {C B : Type 0} (codec : Codec C B) where
  -- What a successful call leaves behind.
  pub record IsAppended (rf : Raft C B) (args : AppendEntriesArgs C) (rf' : Raft C B)
      (reply : AppendEntriesReply) : Type 0 where
    pub returns : append_entries codec rf args ≡ ok (rf', reply)
    pub success : reply.success ≡ true
    pub term : (reply.term ≡ args.term) × (rf'.current_term ≡ args.term)
    pub beats : rf'.chan_heart_beat ≡ rf.chan_heart_beat + 1
    pub next : reply.next_index ≡ args.prev_log_index + 1 + length args.entries
    pub logs : rf'.logs ≡ take (args.prev_log_index + 1) rf.logs ++ args.entries
    pub valid : IsLog rf'.logs
    pub committed : rf'.commit_index ≡ followed rf.commit_index args.leader_commit (length rf'.logs)
    pub persisted : IsPersisted codec rf'

  module _ (rf : Raft C B) (args : AppendEntriesArgs C) (log : IsLog rf.logs)
      (m : Matches rf.logs args) (new : IsRange (args.prev_log_index + 1) args.entries)
      (room : rf.chan_commit < capacity) where
    abbrev with_logs : Raft C B
    with_logs = record rf { logs = written rf.logs args log m new }

    abbrev after_commit : Raft C B
    after_commit = record with_logs {
      commit_index = followed rf.commit_index args.leader_commit (length with_logs.logs);
      chan_commit =
          if ltb rf.commit_index args.leader_commit then rf.chan_commit + 1 else rf.chan_commit;
    }

    commit_followed : follow_commit codec with_logs args.leader_commit ≡ ok after_commit
    unfolding follow_commit send
    commit_followed =
        ground (arith, get_last_index-ok with_logs.logs (written-IsLog rf.logs args log m new))

    accepted :
        match_prev codec rf args
        ≡ ok (
          persist codec after_commit,
          record {
            term = rf.current_term;
            success = true;
            next_index = args.prev_log_index + 1 + length args.entries;
          },
        )
    unfolding match_prev accept
    accepted = ground (
      arith,
      get_last_index-ok rf.logs log,
      get_base_index-ok rf.logs log,
      m.within,
      matched rf.logs args log m new,
      overwritten rf.logs args log m new,
      commit_followed,
    )

  module _ (rf : Raft C B) (args : AppendEntriesArgs C) (log : IsLog rf.logs)
      (new : IsRange (args.prev_log_index + 1) args.entries) (fresh : rf.current_term ≤ args.term)
      (beats : rf.chan_heart_beat < capacity) (room : rf.chan_commit < capacity) where
    IsAppended-from :
        (seen : Raft C B)
        → IsSeen codec rf args fresh beats seen
        → Matches rf.logs args
        → (rf' : Raft C B) × (reply : AppendEntriesReply) × IsAppended rf args rf' reply
    unfolding persist save_raft_state
    IsAppended-from seen v m =
        let log' : IsLog seen.logs = rw v.same_logs log in
        let m' : Matches seen.logs args = rw v.same_logs m in
        let room' : seen.chan_commit < capacity = rw v.same_room room in
        (
          persist codec (after_commit seen args log' m' new room'),
          record {
            term = seen.current_term;
            success = true;
            next_index = args.prev_log_index + 1 + length args.entries;
          },
          record {
            returns =
                handled codec rf args fresh beats _
                  (ap (λ x. match_prev codec x args) v.is ∙ accepted seen args log' m' new room');
            success = refl;
            term = (v.new_term, v.new_term);
            beats = v.same_beats;
            next = refl;
            logs =
                ap (λ (x : List (LogEntry C)). take (args.prev_log_index + 1) x ++ args.entries)
                  v.same_logs;
            valid = written-IsLog seen.logs args log' m' new;
            committed =
                ap
                  (λ c. followed c args.leader_commit (length (written seen.logs args log' m' new)))
                  v.same_commit;
            persisted = refl;
          },
        )

    -- The handler of a server with a log, in a term that is not newer than the message's, where the
    -- log has the previous entry and the new entries go on from there, and with room in the
    -- channels: it returns, and reports success and the index after the last new entry. The log is
    -- the old one up to the previous entry with the new entries behind it, whatever stood there
    -- before, and is a log again. The commit index follows the leader's, up to the last entry. The
    -- result is persisted.
    pub append_entries_matching :
        Matches rf.logs args
        → (rf' : Raft C B) × (reply : AppendEntriesReply) × IsAppended rf args rf' reply
    append_entries_matching m = IsAppended-from _ (beaten-IsSeen codec rf args fresh beats) m
