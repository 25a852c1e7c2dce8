-- ===== src/Raft/RequestVote/Votes.antt =====
-- When a server gives its vote, and that it gives one in a term.
use distributed_algorithms.Prelude.{
  ℕ, ◌+◌, ◌-◌, ◌≤◌, ◌<◌, ◌≡◌, ◌↔◌, ◌⊎◌, inl, inr, refl, sym, ◌∙◌, subst, Bool, true, false, ◌&&◌,
  Option, none, some, ltb, if◌then◌else◌, arith, Bool-cases, dec_lt, length, get_elem?,
}
use distributed_algorithms.Raft.Run.{ok, send, capacity}
use distributed_algorithms.Raft.Server.{
  LogEntry, Codec, Raft, get_last_term, persist, step_down, newer_term, IsPersisted,
  save_raft_state,
}
use distributed_algorithms.Raft.Server.Log.{IsLog, get_last_index-ok, get_last_term-ok}
use distributed_algorithms.Raft.RequestVote.{
  RequestVoteArgs, RequestVoteReply, may_vote, is_up_to_date, is_valid_args, vote, request_vote,
}

-- The log of the candidate is at least as up-to-date as one that ends in the entry `e`.
abbrev pub UpToDate : {C : Type 0} → RequestVoteArgs → LogEntry C → ℕ → Type 0
UpToDate args e index =
    (e.log_term < args.last_log_term)
    ⊎ ((args.last_log_term ≡ e.log_term) × (index ≤ args.last_log_index))

-- A vote for `c` is not a second one.
abbrev pub Unbound : Option ℕ → ℕ → Type 0
Unbound none c = Unit
Unbound (some d) c = d ≡ c

may_vote_iff : (o : Option ℕ) (c : ℕ) → (may_vote o c ≡ true) ↔ Unbound o c
unfolding may_vote
may_vote_iff none c = (λ h. tt, λ h. refl)
may_vote_iff (some d) c = ground arith

up_to_date_iff :
    {C : Type 0} (args : RequestVoteArgs) (e : LogEntry C) (index : ℕ)
    → (is_up_to_date args e.log_term index ≡ true) ↔ UpToDate args e index
unfolding is_up_to_date
up_to_date_iff args e index = (λ h. ground arith, λ h. ground arith)

and_left : (a b : Bool) → a && b ≡ true → a ≡ true
and_left a b h = ground arith

and_right : (a b : Bool) → a && b ≡ true → b ≡ true
and_right a b h = ground arith

module _ {C B : Type 0} (codec : Codec C B) where
  -- The vote that binds a server when it is asked in the term `t`.
  abbrev pub bound : Raft C B → ℕ → Option ℕ
  bound rf t = if ltb rf.current_term t then none else rf.voted_for

  -- What a call of the handler does.
  pub record IsAnswered (rf : Raft C B) (args : RequestVoteArgs) (e : LogEntry C) (rf' : Raft C B)
      (reply : RequestVoteReply) : Type 0 where
    pub returns : request_vote codec rf args ≡ ok (rf', reply)
    pub term :
        (rf'.current_term ≡ reply.term)
        × (rf.current_term ≤ rf'.current_term)
        × (args.term ≤ rf'.current_term)
    pub known : (rf'.current_term ≡ rf.current_term) ⊎ (rf'.current_term ≡ args.term)
    pub granted : (reply.vote_granted ≡ true) ↔ (
        (rf.current_term ≤ args.term)
        × Unbound (bound rf args.term) args.candidate_id
        × UpToDate args e (length rf.logs - 1))
    pub votes :
        ((reply.vote_granted ≡ true)
          × (rf'.voted_for ≡ some args.candidate_id)
          × (rf'.current_term ≡ args.term))
        ⊎ ((reply.vote_granted ≡ false) × (rf'.voted_for ≡ bound rf args.term))
    pub logs : rf'.logs ≡ rf.logs
    pub beats : rf'.chan_heart_beat ≤ rf.chan_heart_beat + 1
    pub persisted : (rf' ≡ rf) ⊎ IsPersisted codec rf'

  module _ (rf : Raft C B) (args : RequestVoteArgs) (log : IsLog rf.logs)
      (room : rf.chan_heart_beat < capacity) where
    last :
        (e : LogEntry C) × (get_elem? rf.logs (length rf.logs - 1) ≡ some e)
        × (get_last_term rf.logs ≡ ok e.log_term)
    last = get_last_term-ok rf.logs log

    abbrev seen : Raft C B
    seen = newer_term codec rf args.term

    -- The test of the arguments, for a server that has taken over the term.
    valid_test : Bool
    valid_test =
        may_vote (bound rf args.term) args.candidate_id
        && is_up_to_date args last.0.log_term (length rf.logs - 1)

    valid-ok : is_valid_args seen args ≡ ok valid_test
    unfolding is_valid_args newer_term step_down valid_test
    valid-ok = ground (arith, last.2, get_last_index-ok rf.logs log)

    valid_iff : (valid_test ≡ true) ↔ (
        Unbound (bound rf args.term) args.candidate_id × UpToDate args last.0 (length rf.logs - 1))
    unfolding valid_test
    valid_iff = (
      λ h. (
        (may_vote_iff (bound rf args.term) args.candidate_id).0 (and_left _ _ h),
        (up_to_date_iff args last.0 (length rf.logs - 1)).0 (and_right _ _ h),
      ),
      λ h.
          rw ((may_vote_iff (bound rf args.term) args.candidate_id).1 h.0)
            ((up_to_date_iff args last.0 (length rf.logs - 1)).1 h.1),
    )

    abbrev refused : Raft C B × RequestVoteReply
    refused = (persist codec seen, record { term = seen.current_term; vote_granted = false })

    abbrev gave : Raft C B × RequestVoteReply
    gave = (
      persist codec (record seen {
        voted_for = some args.candidate_id;
        chan_heart_beat = seen.chan_heart_beat + 1;
      }),
      record { term = seen.current_term; vote_granted = true },
    )

    stale_answer :
        args.term < rf.current_term
        → IsAnswered rf args last.0 rf (record { term = rf.current_term; vote_granted = false })
    unfolding request_vote
    stale_answer h = record {
      returns = ground arith;
      term = (refl, omega arith, omega arith);
      known = inl refl;
      granted = (λ e. cc, λ g. absurd (omega (arith, g.0)));
      votes = inr (refl, ground arith);
      logs = refl;
      beats = omega arith;
      persisted = inl refl;
    }

    refused_answer :
        rf.current_term ≤ args.term
        → valid_test ≡ false
        → IsAnswered rf args last.0 refused.0 refused.1
    unfolding request_vote newer_term step_down vote persist save_raft_state
    refused_answer h e = record {
      returns = ground (arith, valid-ok);
      term = (ground arith, ground arith, ground arith);
      known = ground arith;
      granted = (λ f. cc, λ g. absurd (no_vote (valid_iff.1 (g.1, g.2))));
      votes = inr (refl, ground arith);
      logs = ground arith;
      beats = ground arith;
      persisted = inr refl;
    }
      where
        no_vote : valid_test ≡ true → ⊥
        no_vote f = cc

    gave_answer :
        rf.current_term ≤ args.term → valid_test ≡ true → IsAnswered rf args last.0 gave.0 gave.1
    unfolding request_vote newer_term step_down vote persist save_raft_state send
    gave_answer h e = record {
      returns = ground (arith, valid-ok);
      term = (ground arith, ground arith, ground arith);
      known = ground arith;
      granted = (λ f. (h, (valid_iff.0 e).0, (valid_iff.0 e).1), λ g. refl);
      votes = inl (refl, refl, ground arith);
      logs = ground arith;
      beats = ground arith;
      persisted = inr refl;
    }

  -- The handler of a server with a log, and with room in its channel of heart beats, returns. It
  -- takes over a newer term. It gives its vote exactly if the candidate's term is not older, the
  -- server has given none to another in that term, and the candidate's log is at least as
  -- up-to-date; then the vote is for that term, and else the vote given before in that term stays. The
  -- log stays, and the server is unchanged or persisted.
  pub request_vote_lem :
      (rf : Raft C B) (args : RequestVoteArgs)
      → IsLog rf.logs
      → rf.chan_heart_beat < capacity
      → (e : LogEntry C) × (get_elem? rf.logs (length rf.logs - 1) ≡ some e)
        × ((rf' : Raft C B) × (reply : RequestVoteReply) × IsAnswered rf args e rf' reply)
  request_vote_lem rf args log room =
      let e = last rf args log room in
      (
        e.0,
        e.1,
        elim (dec_lt args.term rf.current_term) [
          | yes old ↦ (
            rf,
            record { term = rf.current_term; vote_granted = false },
            stale_answer rf args log room old,
          )
          | no fresh ↦ elim (Bool-cases (valid_test rf args log room)) [
            | inl t ↦
                let x = gave rf args log room in
                (x.0, x.1, gave_answer rf args log room (omega arith) t)
            | inr f ↦
                let x = refused rf args log room in
                (x.0, x.1, refused_answer rf args log room (omega arith) f)
          ]
        ],
      )

  -- What the handler has returned is the answer.
  answered :
      (rf rf' : Raft C B) (args : RequestVoteArgs) (reply : RequestVoteReply)
      → IsLog rf.logs
      → rf.chan_heart_beat < capacity
      → request_vote codec rf args ≡ ok (rf', reply)
      → (e : LogEntry C) × IsAnswered rf args e rf' reply
  answered rf rf' args reply log room h =
      let (e, _, (x, y, w)) = request_vote_lem rf args log room in
      let same : (x, y) ≡ (rf', reply) = ok_injective (sym w.returns ∙ h) in
      (e, subst (λ (p : Raft C B × RequestVoteReply). IsAnswered rf args e p.0 p.1) same w)
    where
      ok_injective : {a b : Raft C B × RequestVoteReply} → ok a ≡ ok b → a ≡ b
      ok_injective h = cc

  -- A server with a log and room for two heart beats, which has granted its vote in the answer to
  -- `a` and is then asked with `b` in the same term, grants it again only to the same candidate.
  pub vote_once :
      (rf rf' rf'' : Raft C B) (a b : RequestVoteArgs) (reply reply' : RequestVoteReply)
      → IsLog rf.logs
      → rf.chan_heart_beat + 1 < capacity
      → request_vote codec rf a ≡ ok (rf', reply)
      → reply.vote_granted ≡ true
      → b.term ≡ a.term
      → request_vote codec rf' b ≡ ok (rf'', reply')
      → reply'.vote_granted ≡ true
      → b.candidate_id ≡ a.candidate_id
  vote_once rf rf' rf'' a b reply reply' log room h g same h' g' =
      let (_, v) = answered rf rf' a reply log (omega arith) h in
      let (_, w) = answered rf' rf'' b reply' (rw v.logs log) (omega (arith, v.beats)) h' in
      let gave : bound rf' b.term ≡ some a.candidate_id = ground (arith, g, v.votes) in
      sym (subst (λ o. Unbound o b.candidate_id) gave (w.granted.0 g').1)
