-- ===== src/Raft/Replicas/Servers.antt =====
-- AppendEntries, the count of votes and a restart, as one server sees them.
use distributed_algorithms.Prelude.{
  ℕ, ◌+◌, ◌≤◌, ◌≡◌, ◌≢◌, ◌⊎◌, inl, inr, sym, ap, ◌∙◌, Bool, true, none, List, [], ◌++◌, arith,
  Bool-cases, length, take, get_elem?-some, take-append_drop,
}
use distributed_algorithms.Raft.Run.{ok}
use distributed_algorithms.Raft.Server.{
  LogEntry, leader, follower, Codec, Raft, persistent, copy, make_persister, read_persist,
  read_raft_state,
}
use distributed_algorithms.Raft.Server.Log.{IsRange, IsRange-drop}
use distributed_algorithms.Raft.RequestVote.{RequestVoteArgs, RequestVoteReply, deal_vote_reply}
use distributed_algorithms.Raft.AppendEntries.{AppendEntriesReply, append_entries, check_prev}
use distributed_algorithms.Raft.Api.{make}
use distributed_algorithms.Raft.Steps.Bound.{append-IsBound}
use distributed_algorithms.Raft.Steps.Outcome.{
  Outcome, unchanged, changed, append-Outcome, Outcome-IsLog,
}
use distributed_algorithms.Raft.Cluster.{Cluster, is_counted, mark_elected}
use distributed_algorithms.Raft.Cluster.Local.{deal_uncounted, deal_counted}
use distributed_algorithms.Raft.Replicas.{Message}
use distributed_algorithms.Raft.Replicas.Local.{append-Leads}
use distributed_algorithms.Raft.Replicas.Invariant.{
  Written, IsStored, Follows, Follows-take, IsReplica, IsMessage, kept-stored, moved-IsReplica,
}

module _ {C B : Type 0} (codec : Codec C B) (z : C) (w : Written C) where
  module _ (c : Cluster C B) (m : Message C) (v : IsMessage codec z w c m) where
    pub message-IsRange : IsRange (m.args.prev_log_index + 1) m.args.entries
    message-IsRange i e h =
        omega (
          arith,
          IsRange-drop 0 (m.args.prev_log_index + 1) v.whole v.log.range i e (rw v.rest at h),
        )

    -- The log that the message is a part of.
    accepted :
        (logs : List (LogEntry C))
        → Follows z w logs
        → m.args.prev_log_index + 1 ≤ length logs
        → check_prev logs 0 m.args ≡ ok none
        → take (m.args.prev_log_index + 1) logs ++ m.args.entries ≡ v.whole
    unfolding check_prev
    accepted logs f fits checked =
        let (x, at) = get_elem?-some logs m.args.prev_log_index (omega arith) in
        let same =
          Follows-take z w logs v.whole f v.follows m.args.prev_log_index x v.prev at v.prev_at
            (λ pos. ground (arith, at, checked, v.prev_term)) in
        ap (λ (xs : List (LogEntry C)). xs ++ m.args.entries) same
        ∙ (ap (λ (xs : List (LogEntry C)). take (m.args.prev_log_index + 1) v.whole ++ xs) v.rest
            ∙ take-append_drop (m.args.prev_log_index + 1) v.whole)

    outcome-Follows :
        (logs logs' : List (LogEntry C))
        → Follows z w logs
        → Outcome codec logs m.args logs'
        → Follows z w logs'
    outcome-Follows logs logs' f (unchanged e) = rw e f
    outcome-Follows logs logs' f (changed fits checked e) =
        rw (e ∙ accepted logs f fits checked) v.follows

    -- The receiver of a message, which has not been elected in its term.
    pub received-IsReplica :
        (a b : Raft C B) (won : ℕ → Bool) (reply : AppendEntriesReply)
        → IsReplica codec z w a won
        → append_entries codec a m.args ≡ ok (b, reply)
        → (won m.args.term ≢ true)
        → IsReplica codec z w b won
    received-IsReplica a b won reply u h lost =
        let o = append-Outcome codec a b m.args reply u.log h in
        let bound = append-IsBound codec a b m.args reply h in
        let (leads, term) = append-Leads codec a b m.args reply h in
        record {
          stored = kept-stored codec z a b bound.1 u.stored;
          log = Outcome-IsLog codec a.logs m.args b.logs u.log message-IsRange o;
          follows = outcome-Follows a.logs b.logs u.follows o;
          leads = λ l. let (l', e) = leads l in rw e (u.leads l');
          past = λ t k. ground (arith, u.past t k, bound.0);
          owns = λ k. elim term [
            | inl (old, e) ↦ rw e (u.owns (rw e at k))
            | inr new ↦ absurd (lost (rw new at k))
          ];
        }

  -- A server that has been elected.
  pub elected-IsReplica :
      (a : Raft C B) (won won' : ℕ → Bool)
      → IsReplica codec z w a won
      → ((t : ℕ) → won t ≡ true → won' t ≡ true)
      → ((t : ℕ) → won' t ≡ true → (won t ≡ true) ⊎ ((t ≡ a.current_term) × (w t ≡ [])))
      → IsReplica codec z w a won'
  elected-IsReplica a won won' u grows new = record {
    stored = u.stored;
    log = u.log;
    follows = u.follows;
    leads = λ l. grows a.current_term (u.leads l);
    past =
        λ t h. elim (new t h) [ inl before ↦ u.past t before | inr (e, unwritten) ↦ omega arith ];
    owns = λ h. elim (new a.current_term h) [
      | inl before ↦ u.owns before
      | inr (e, unwritten) ↦ inl unwritten
    ];
  }

  -- The terms that counting a reply adds.
  pub newly_elected :
      (a b : Raft C B) (won : ℕ → Bool) (args : RequestVoteArgs) (reply : RequestVoteReply)
      → deal_vote_reply codec a args reply ≡ ok b
      → (t : ℕ) → mark_elected codec won a b t ≡ true
      → (won t ≡ true) ⊎ (t ≡ b.current_term)
  unfolding mark_elected
  newly_elected a b won args reply h t k = elim (Bool-cases (is_counted codec a args reply)) [
    | inl e ↦ let y = deal_counted codec a b args reply h e in ground (arith, k, y.3)
    | inr e ↦ let y = deal_uncounted codec a b args reply h e in ground (arith, k, y.1)
  ]

  pub restarted :
      (a : Raft C B) (peers me : ℕ)
      → IsStored codec z a
      → let b = make codec z peers me (copy a.persister) in
        (b.logs ≡ a.logs)
        × (b.current_term ≡ a.current_term)
        × (b.state ≡ follower)
        × IsStored codec z b
  unfolding make read_persist read_raft_state copy make_persister
  restarted a peers me (inl p) =
      let x = codec.size-encode (persistent codec a) in
      let y = codec.decode-encode (persistent codec a) in
      (
        ground (arith, p, x, y),
        ground (arith, p, x, y),
        ground (arith, p, x, y),
        inl (ground (arith, p, x, y)),
      )
  restarted a peers me (inr q) =
      (ground (arith, q), ground (arith, q), ground (arith, q), inr (ground (arith, q)))

  pub crashed-IsReplica :
      (a : Raft C B) (won : ℕ → Bool) (peers me : ℕ)
      → IsReplica codec z w a won
      → IsReplica codec z w (make codec z peers me (copy a.persister)) won
  crashed-IsReplica a won peers me u =
      let (logs, term, state, stored) = restarted a peers me u.stored in
      moved-IsReplica codec z w a _ won u logs (omega (arith, term)) stored
        (λ l. absurd (no_leader (sym state ∙ l)))
    where
      no_leader : follower ≢ leader
      no_leader e = cc
