-- ===== src/Raft/Leader/Sync.antt =====
-- The rounds in which a leader brings the log of a server into line with its own.
use distributed_algorithms.Prelude.{
  ℕ, true, zero, suc, ◌+◌, ◌-◌, ◌≤◌, ◌<◌, ◌≡◌, ◌≢◌, ◌⊎◌, inl, inr, refl, sym, ◌∙◌, ap, none, some,
  List, arith, update, length, get_elem?, take, get_elem?-some, ℕ_discrete, dec_lt,
}
use distributed_algorithms.Raft.Run.{Run, ok, blocked, ◌>>=◌, capacity}
use distributed_algorithms.Raft.Server.{LogEntry, Codec, Raft}
use distributed_algorithms.Raft.Server.Log.{IsLog}
use distributed_algorithms.Raft.AppendEntries.{AppendEntriesArgs, append_entries}
use distributed_algorithms.Raft.AppendEntries.Backoff.{
  IsTermed, Misses, short, conflicts, append_entries_missing,
}
use distributed_algorithms.Raft.Leader.{new_append_entries_args, deal_append_reply}
use distributed_algorithms.Raft.Leader.Round.{prev_entry, sent, sent-ok, round_lem}
use distributed_algorithms.Raft.Api.{follow, heart_beats, receive}

-- statesLoop of the follower takes the heart beat.
unfoldable pub take_beat : {C B : Type 0} → Raft C B → Run (Raft C B)
unfolding follow
take_beat fo = elim (follow fo heart_beats) [ none ↦ blocked | some fo' ↦ ok fo' ]

module _ {C B : Type 0} (codec : Codec C B) (id : ℕ) where
  -- A message of the leader, the answer of server `id`, and the leader's record of it. The pair is the
  -- leader and the follower.
  unfoldable pub exchange : Raft C B → Raft C B → Run (Raft C B × Raft C B)
  unfolding new_append_entries_args append_entries take_beat deal_append_reply
  exchange ld fo = do
    args ← new_append_entries_args ld id
    answer ← append_entries codec fo args
    fo' ← take_beat answer.0
    ld' ← deal_append_reply codec ld id args answer.1
    ok (ld', fo')

  unfoldable pub exchanges : ℕ → Raft C B → Raft C B → Run (Raft C B × Raft C B)
  unfolding exchange
  exchanges zero ld fo = ok (ld, fo)
  exchanges (suc k) ld fo = do both ← exchange ld fo; exchanges k both.0 both.1

-- Two logs that have an entry with the same index and term are the same up to there.
abbrev pub AreMatching : {C : Type 0} → List (LogEntry C) → List (LogEntry C) → Type 0
AreMatching {C} xs ys =
    (i : ℕ) (x y : LogEntry C)
    → get_elem? xs i ≡ some x
    → get_elem? ys i ≡ some y
    → x.log_term ≡ y.log_term
    → take (i + 1) xs ≡ take (i + 1) ys

module _ {C B : Type 0} (codec : Codec C B) (id : ℕ) where
  -- A follower that the leader can reach, in no newer term, and with room in its channels; nextIndex
  -- and matchIndex of the leader are not nil.
  pub record IsOpen (ld fo : Raft C B) : Type 0 where
    pub made : ld.indexed ≡ true
    pub log : IsLog fo.logs
    pub terms : IsTermed fo.logs
    pub matching : AreMatching fo.logs ld.logs
    pub fresh : fo.current_term ≤ ld.current_term
    pub beats : fo.chan_heart_beat < capacity
    pub room : fo.chan_commit < capacity

  -- The leader and the follower after `k` rounds.
  pub record IsSynced (ld fo : Raft C B) (k : ℕ) (ld' fo' : Raft C B) : Type 0 where
    pub returns : exchanges codec id k ld fo ≡ ok (ld', fo')
    pub same_logs : (fo'.logs ≡ ld.logs) × (ld'.logs ≡ ld.logs)
    pub next : ld'.next_index id ≡ length ld.logs

  take_beat-ok :
      (fo : Raft C B) (n : ℕ)
      → fo.chan_heart_beat ≡ n + 1
      → take_beat fo ≡ ok (record fo { chan_heart_beat = n })
  unfolding take_beat follow receive
  take_beat-ok fo n h = ground (arith, h)

  module _ (ld fo : Raft C B) (prev : ℕ) (log : IsLog ld.logs) (terms : IsTermed ld.logs)
      (open_to : IsOpen ld fo) (at_next : ld.next_index id ≡ prev + 1)
      (within : prev < length ld.logs) where
    abbrev args : AppendEntriesArgs C
    args = sent codec ld id prev log at_next within open_to.made

    -- The follower has the previous entry, with all before it, or misses it.
    found_or_missing :
        ((prev < length fo.logs) × (take (prev + 1) fo.logs ≡ take (prev + 1) ld.logs))
        ⊎ Misses fo.logs open_to.log open_to.terms args
    found_or_missing = elim (dec_lt prev (length fo.logs)) [
      | no short_log ↦ inr (short (omega arith))
      | yes lt ↦
          let (y, there) = prev_entry codec ld id prev log at_next within open_to.made in
          let (x, here) = get_elem?-some fo.logs prev lt in
          elim (ℕ_discrete x.log_term y.log_term) [
            | yes e ↦ inl (lt, open_to.matching prev x y here there e)
            | no ne ↦ inr (conflicts x (later x y here there ne) here (λ e. ne (sym e)))
          ]
    ]
      where
        later :
            (x y : LogEntry C)
            → get_elem? fo.logs prev ≡ some x
            → get_elem? ld.logs prev ≡ some y
            → x.log_term ≢ y.log_term
            → 0 < prev
        later x y here there ne = elim (ℕ_discrete prev 0) [
          | no pos ↦ omega arith
          | yes e ↦
              absurd
                (ne (open_to.terms.first x (rw e at here) ∙ sym (terms.first y (rw e at there))))
        ]

    -- The leader and the follower after a refusal: NextIndex is lower, and not below 1.
    record IsBack (ld' fo' : Raft C B) (r : ℕ) : Type 0 where
      returns : exchange codec id ld fo ≡ ok (ld', fo')
      same : ld'.logs ≡ ld.logs
      opens : IsOpen ld' fo'
      next : ld'.next_index id ≡ r + 1
      lower : r < prev

    refused_round :
        Misses fo.logs open_to.log open_to.terms args
        → (ld' : Raft C B) × (fo' : Raft C B) × (r : ℕ) × IsBack ld' fo' r
    unfolding exchange deal_append_reply
    refused_round m =
        let (fo1, reply, a) =
          append_entries_missing codec fo args open_to.log open_to.terms open_to.fresh open_to.beats
            m in
        let ld' = record ld { next_index = update ld.next_index id reply.next_index } in
        let fo' = record fo1 { chan_heart_beat = fo.chan_heart_beat } in
        let taken = take_beat-ok fo1 fo.chan_heart_beat a.channels.0 in
        let deals : deal_append_reply codec ld id args reply ≡ ok ld' =
          ground (arith, open_to.made, a.term, a.failure) in
        (
          ld',
          fo',
          reply.next_index - 1,
          record {
            returns = ground (
              arith,
              sent-ok codec ld id prev log at_next within open_to.made,
              a.returns,
              taken,
              deals,
            );
            same = refl;
            opens = record {
              made = open_to.made;
              log = rw (a.same.0) open_to.log;
              terms = rw (a.same.0) open_to.terms;
              matching = rw (a.same.0) open_to.matching;
              fresh = omega (arith, a.current);
              beats = open_to.beats;
              room = omega (arith, a.channels.1, open_to.room);
            };
            next = ground (arith, a.back);
            lower = omega (arith, a.back);
          },
        )

    done_round :
        prev < length fo.logs
        → take (prev + 1) fo.logs ≡ take (prev + 1) ld.logs
        → (ld' : Raft C B) × (fo' : Raft C B) × IsSynced ld fo 1 ld' fo'
    unfolding exchange exchanges
    done_round lt same =
        let (fo1, ld', sent_args, reply, a) =
          round_lem codec ld id prev log at_next within open_to.made fo open_to.log lt same
            open_to.fresh open_to.beats open_to.room in
        let taken = take_beat-ok fo1 fo.chan_heart_beat a.beats in
        (
          ld',
          record fo1 { chan_heart_beat = fo.chan_heart_beat },
          record {
            returns = ground (arith, a.sends, a.answers, taken, a.deals);
            same_logs = (a.logs, a.noted.same.0);
            next = a.noted.next;
          },
        )

  sync :
      (m prev : ℕ) (ld fo : Raft C B)
      → prev < m
      → IsLog ld.logs
      → IsTermed ld.logs
      → IsOpen ld fo
      → ld.next_index id ≡ prev + 1
      → prev < length ld.logs
      → (k : ℕ) × (k ≤ m) × ((ld' : Raft C B) × (fo' : Raft C B) × IsSynced ld fo k ld' fo')
  unfolding exchanges
  sync zero prev ld fo lt log terms open_to at_next within = absurd (omega arith)
  sync (suc m) prev ld fo lt log terms open_to at_next within =
      elim (found_or_missing ld fo prev log terms open_to at_next within) [
        | inl (below, same) ↦
            (1, omega arith, done_round ld fo prev log terms open_to at_next within below same)
        | inr missing ↦
            let (ld1, fo1, r, a) =
              refused_round ld fo prev log terms open_to at_next within missing in
            let (k, le, (ld', fo', z)) =
              sync m r ld1 fo1 (omega (arith, a.lower)) (rw a.same log) (rw a.same terms) a.opens
                a.next (omega (arith, a.lower, ap length a.same)) in
            (
              suc k,
              omega arith,
              (
                ld',
                fo',
                record {
                  returns = ground (arith, a.returns, z.returns);
                  same_logs = (z.same_logs.0 ∙ a.same, z.same_logs.1 ∙ a.same);
                  next = z.next ∙ ap length a.same;
                },
              ),
            )
      ]

  -- A leader whose nextIndex and matchIndex are not nil, with NextIndex of a server between 1 and the length of its log, and a follower in no newer
  -- term and with room in its channels, both with logs whose first entry alone has the term 0, such
  -- that entries with the same index and term have the same entries before them. If messages and
  -- replies arrive and the follower takes each heart beat, then after at most NextIndex rounds, none
  -- of which panics or blocks, the follower's log is the leader's and NextIndex is past it.
  pub followers_catch_up :
      (ld fo : Raft C B)
      → IsLog ld.logs
      → IsTermed ld.logs
      → IsOpen ld fo
      → 0 < ld.next_index id
      → ld.next_index id ≤ length ld.logs
      → (k : ℕ) × (k ≤ ld.next_index id)
        × ((ld' : Raft C B) × (fo' : Raft C B) × IsSynced ld fo k ld' fo')
  followers_catch_up ld fo log terms open_to pos le =
      sync (ld.next_index id) (ld.next_index id - 1) ld fo (omega arith) log terms open_to
        (omega arith) (omega arith)
