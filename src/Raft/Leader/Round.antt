-- ===== src/Raft/Leader/Round.antt =====
-- A round of replication: the leader's message, the follower's answer, and the leader's record of it.
use distributed_algorithms.Prelude.{
  ℕ, true, suc, ◌+◌, ◌-◌, ◌≤◌, ◌<◌, ◌≡◌, ◌⊎◌, inl, inr, refl, sym, ◌∙◌, ap, subst, some, List, [],
  ◌∷◌, ◌++◌, arith, update, length, get_elem?, take, drop, length-drop, get_elem?-take,
  get_elem?-some, take-append_drop,
}
use distributed_algorithms.Raft.Run.{ok, capacity}
use distributed_algorithms.Raft.Server.{LogEntry, Codec, Raft, last_entry}
use distributed_algorithms.Raft.Server.Log.{IsLog, IsRange, IsRange-drop, get_base_index-ok}
use distributed_algorithms.Raft.AppendEntries.{
  AppendEntriesArgs, AppendEntriesReply, append_entries,
}
use distributed_algorithms.Raft.AppendEntries.Outcome.{Matches, append_entries_matching}
use distributed_algorithms.Raft.Leader.{
  new_append_entries_args, entries_args, deal_append_reply, note_copies,
}

module _ {C B : Type 0} (codec : Codec C B) (ld : Raft C B) (id prev : ℕ) (log : IsLog ld.logs)
    (at_next : ld.next_index id ≡ prev + 1) (within : prev < length ld.logs)
    (made : ld.indexed ≡ true) where
  pub prev_entry : (e : LogEntry C) × (get_elem? ld.logs prev ≡ some e)
  prev_entry = get_elem?-some ld.logs prev within

  abbrev pub sent : AppendEntriesArgs C
  sent = record {
    term = ld.current_term;
    leader_id = ld.me;
    prev_log_index = prev;
    prev_log_term = prev_entry.0.log_term;
    leader_commit = ld.commit_index;
    entries = drop (prev + 1) ld.logs;
  }

  pub sent-ok : new_append_entries_args ld id ≡ ok sent
  unfolding new_append_entries_args entries_args
  sent-ok = ground (arith, get_base_index-ok ld.logs log, at_next, prev_entry.1)

  sent-IsRange : IsRange (prev + 1) (drop (prev + 1) ld.logs)
  sent-IsRange i e h = omega (arith, IsRange-drop 0 (prev + 1) ld.logs log.range i e h)

  sent-Matches :
      (logs : List (LogEntry C))
      → prev < length logs
      → take (prev + 1) logs ≡ take (prev + 1) ld.logs
      → Matches logs sent
  sent-Matches logs lt same = record { within = lt; agrees = agrees }
    where
      agrees :
          (e : LogEntry C)
          → 0 < prev
          → get_elem? logs prev ≡ some e
          → prev_entry.0.log_term ≡ e.log_term
      agrees e p h =
          let a = get_elem?-take (prev + 1) logs prev (omega arith) in
          let b = get_elem?-take (prev + 1) ld.logs prev (omega arith) in
          let c = ap (λ xs. get_elem? xs prev) same in ground (arith, prev_entry.1, a, b, c)

  -- What the leader has noted down, of a success.
  pub record IsNoted (ld' : Raft C B) : Type 0 where
    pub next : ld'.next_index id ≡ length ld.logs
    pub copied :
        (ld'.match_index id ≡ length ld.logs - 1)
        ⊎ ((prev + 1 ≡ length ld.logs) × (ld'.match_index id ≡ ld.match_index id))
    pub same : (ld'.logs ≡ ld.logs) × (ld'.commit_index ≡ ld.commit_index)

  note-ok :
      (es : List (LogEntry C))
      → es ≡ drop (prev + 1) ld.logs
      → (ld' : Raft C B) × (note_copies ld id es ≡ ok ld') × IsNoted ld'
  unfolding note_copies last_entry
  note-ok [] h =
      let n : 0 ≡ length ld.logs - (prev + 1) = ap length h ∙ length-drop (prev + 1) ld.logs in
      (
        ld,
        refl,
        record {
          next = omega (arith, at_next, n);
          copied = inr (omega (arith, n), refl);
          same = (refl, refl);
        },
      )
  note-ok (x ∷ xs) h =
      let n : suc (length xs) ≡ length ld.logs - (prev + 1) =
        ap length h ∙ length-drop (prev + 1) ld.logs in
      let (e, f) = get_elem?-some (x ∷ xs) (length xs) (omega arith) in
      let at : e.log_index ≡ prev + 1 + length xs =
        subst (IsRange (prev + 1)) (sym h) sent-IsRange (length xs) e f in
      (
        record ld {
          match_index = update ld.match_index id e.log_index;
          next_index = update ld.next_index id (e.log_index + 1);
        },
        ground (arith, f),
        record {
          next = ground (arith, at, n);
          copied = inl (ground (arith, at, n));
          same = (refl, refl);
        },
      )

  -- The effect of the whole round.
  pub record IsReplicated (fo fo' ld' : Raft C B) (args : AppendEntriesArgs C)
      (reply : AppendEntriesReply) : Type 0 where
    pub sends : new_append_entries_args ld id ≡ ok args
    pub answers : append_entries codec fo args ≡ ok (fo', reply)
    pub deals : deal_append_reply codec ld id args reply ≡ ok ld'
    pub beats : fo'.chan_heart_beat ≡ fo.chan_heart_beat + 1
    pub logs : fo'.logs ≡ ld.logs
    pub noted : IsNoted ld'

  -- A leader with a log, whose nextIndex and matchIndex are not nil, sends to the server `id` the entries from NextIndex, the index after `prev`,
  -- on, where `prev` is an index of its log. The follower is in no newer term, its log is one, agrees
  -- with the leader's up to `prev`, and its channels have room. Then none of the three calls panics,
  -- and after the answer the follower's log is the leader's, and the leader notes that the server has
  -- all of its log: NextIndex is past it, and MatchIndex is its last index unless there was nothing
  -- to send.
  pub round_lem :
      (fo : Raft C B)
      → IsLog fo.logs
      → prev < length fo.logs
      → take (prev + 1) fo.logs ≡ take (prev + 1) ld.logs
      → fo.current_term ≤ ld.current_term
      → fo.chan_heart_beat < capacity
      → fo.chan_commit < capacity
      → (fo' : Raft C B) × (ld' : Raft C B) × (args : AppendEntriesArgs C)
        × (reply : AppendEntriesReply) × IsReplicated fo fo' ld' args reply
  unfolding deal_append_reply
  round_lem fo flog lt same fresh beats room =
      let (fo', reply, a) =
        append_entries_matching codec fo sent flog sent-IsRange fresh beats room
          (sent-Matches fo.logs lt same) in
      let (ld', f, noted) = note-ok (drop (prev + 1) ld.logs) refl in
      (
        fo',
        ld',
        sent,
        reply,
        record {
          sends = sent-ok;
          answers = a.returns;
          beats = a.beats;
          deals = ground (arith, a.success, a.term, f);
          logs =
              a.logs
              ∙ ap (λ (xs : List (LogEntry C)). xs ++ drop (prev + 1) ld.logs) same
              ∙ take-append_drop (prev + 1) ld.logs;
          noted = noted;
        },
      )
