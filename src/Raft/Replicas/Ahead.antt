-- ===== src/Raft/Replicas/Ahead.antt =====
-- The logs of the servers that have been elected, and NextIndex of the leaders, from one event to
-- the next.
use distributed_algorithms.Prelude.{
  IsPrefix, same-IsPrefix, append-IsPrefix, ℕ, ◌≤◌, ◌<◌, ◌≡◌, ◌≢◌, ◌⊎◌, inl, inr, sym, ap, subst,
  ◌∙◌, Bool, true, List, arith, update, update_all, take_all, List, [], ◌∷◌,
}
use distributed_algorithms.Raft.Run.{ok}
use distributed_algorithms.Raft.Server.{leader, follower, Codec, Raft, persist}
use distributed_algorithms.Raft.RequestVote.{RequestVoteArgs, RequestVoteReply, request_vote}
use distributed_algorithms.Raft.AppendEntries.{AppendEntriesReply, append_entries}
use distributed_algorithms.Raft.Api.{begin_election}
use distributed_algorithms.Raft.Steps.{
  powers, Step, votes, appends, campaigns, counts, copies, starts, broadcasts, applies, waits,
  awaits, crashes,
}
use distributed_algorithms.Raft.Steps.Bound.{append-IsBound, power-same, start-same}
use distributed_algorithms.Raft.Cluster.{
  Node, Cluster, set_server, campaigned, broadcasted, replied, dealt, crashed, IsLocal, Move,
  campaign, broadcast, answer, deal, act, crash, Reach,
}
use distributed_algorithms.Raft.Cluster.Election.{election_safety}
use distributed_algorithms.Raft.Replicas.{Message, IsQuiet, IsElection}
use distributed_algorithms.Raft.Replicas.Local.{
  await-IsCalm, IsCalm, vote-IsCalm, count-IsCalm, apply-IsCalm, follow-IsCalm, append-Leads,
}
use distributed_algorithms.Raft.Replicas.Invariant.{IsMessage}
use distributed_algorithms.Raft.Replicas.Servers.{restarted}
use distributed_algorithms.Raft.Replicas.Consistent.{IsConsistent}
use distributed_algorithms.Raft.Replicas.Steady.{
  power-IsInLog, IsInLog, vote-IsInLog, count-IsInLog, apply-IsInLog, follow-IsInLog, await-IsInLog,
  append-IsInLog, start-IsInLog, start-logs,
}

module _ {C B : Type 0} (codec : Codec C B) where
  -- Of a server that has been elected in its term, only a log that goes on from its own or another term can come.
  abbrev pub IsAhead : (ℕ → Bool) → Raft C B → Raft C B → Type 0
  IsAhead won a b =
      (a.current_term ≤ b.current_term)
      × (won a.current_term ≡ true → b.current_term ≡ a.current_term → IsPrefix a.logs b.logs)

  abbrev pub IsGrown : (ℕ → Bool) → Raft C B → Raft C B → Type 0
  IsGrown won a b = IsAhead won a b × IsInLog b

  pub stays-IsGrown : (won : ℕ → Bool) (a : Raft C B) → IsInLog a → IsGrown won a a
  stays-IsGrown won a v = ((omega arith, λ w e. take_all a.logs), v)

  pub calm-IsGrown :
      (won : ℕ → Bool) (a b : Raft C B) → IsCalm codec a b → IsInLog b → IsGrown won a b
  calm-IsGrown won a b k v = ((k.term, λ w e. same-IsPrefix a.logs b.logs k.logs), v)

  module _ (z : C) (n : ℕ) (c : Cluster C B) (ms : List (Message C)) (v : IsConsistent codec z c ms)
      (r : Reach codec z n c) (inside : (k : ℕ) → IsInLog (c k).server) where
    -- One server moves.
    pub server-IsGrown :
        (i : ℕ) (y : Node C B)
        → IsGrown (c i).elected (c i).server y.server
        → (k : ℕ) → IsGrown (c k).elected (c k).server (update c i y k).server
    server-IsGrown i y own k =
        update_all (λ k x. IsGrown (c k).elected (c k).server x.server) c i y own k
          (λ ne. stays-IsGrown (c k).elected (c k).server (inside k))

    act-IsGrown :
        (i : ℕ) (rf : Raft C B) (s : Step codec (c i).server rf)
        → IsLocal codec s
        → IsQuiet codec (c i).elected s
        → IsGrown (c i).elected (c i).server rf
    act-IsGrown i rf (votes args reply h) l q =
        calm-IsGrown (c i).elected (c i).server rf (vote-IsCalm codec (c i).server rf args reply h)
          (vote-IsInLog codec (c i).server rf (inside i) args reply h)
    act-IsGrown i rf (appends args reply h) l q = absurd q
    act-IsGrown i rf campaigns l q = absurd l
    act-IsGrown i rf (counts args reply h) l q = absurd l
    act-IsGrown i rf (copies id args reply h) l q = absurd q
    act-IsGrown i rf (starts command x h) l q = (
      (
        omega (arith, (start-same codec (c i).server rf command x h).0.0),
        λ w e. elim (start-logs codec (c i).server rf (inside i) command x (v.nodes i).log h) [
          | inl kept ↦ same-IsPrefix (c i).server.logs rf.logs kept
          | inr (y, more) ↦ append-IsPrefix (c i).server.logs (y ∷ []) rf.logs more
        ],
      ),
      start-IsInLog codec (c i).server rf (inside i) command x (v.nodes i).log h,
    )
    act-IsGrown i rf (broadcasts xs h) l q = absurd q
    act-IsGrown i rf (applies xs h) l q =
        calm-IsGrown (c i).elected (c i).server rf (apply-IsCalm codec (c i).server rf xs h)
          (apply-IsInLog codec (c i).server rf (inside i) xs h)
    act-IsGrown i rf (waits s h) l q =
        calm-IsGrown (c i).elected (c i).server rf (follow-IsCalm codec (c i).server rf s h)
          (follow-IsInLog codec (c i).server rf (inside i) s h)
    act-IsGrown i rf (awaits s h) l q =
        calm-IsGrown (c i).elected (c i).server rf (await-IsCalm codec (c i).server rf s h)
          (await-IsInLog codec (c i).server rf (inside i) s h)
    act-IsGrown i rf (powers h) l q =
        let w = power-same codec (c i).server rf h in
        (
          (omega (arith, w.0.0), λ x e. same-IsPrefix (c i).server.logs rf.logs (w.2)),
          power-IsInLog codec (c i).server rf (v.nodes i).log h,
        )
    act-IsGrown i rf (crashes x) l q = absurd l

    campaign-IsGrown :
        (i : ℕ)
        → (c i).server.state ≢ leader
        → IsGrown (c i).elected (c i).server (campaigned codec (c i)).server
    unfolding campaigned begin_election persist
    campaign-IsGrown i no_leader =
        ((omega arith, λ w e. absurd (omega (arith, e))), λ l. absurd (no_leader l))

    crash-IsGrown : (i : ℕ) → IsGrown (c i).elected (c i).server (crashed codec (c i) z).server
    unfolding crashed
    crash-IsGrown i =
        let (logs, term, state, stored) =
          restarted codec z v.written (c i).server (c i).server.peers (c i).server.me
            (v.nodes i).stored in
        (
          (
            omega (arith, term),
            λ w e. same-IsPrefix (c i).server.logs (crashed codec (c i) z).server.logs logs,
          ),
          λ l. absurd (no_leader (sym state ∙ l)),
        )
      where
        no_leader : follower ≢ leader
        no_leader e = cc

    answer-IsGrown :
        (i j t : ℕ) (args : RequestVoteArgs) (rf : Raft C B) (reply : RequestVoteReply)
        → request_vote codec (c j).server args ≡ ok (rf, reply)
        → let d = set_server codec c j rf in
          (k : ℕ)
          → IsGrown
              (c k).elected
              (c k).server
              (update d i (replied codec (d i) j t args reply) k).server
    unfolding replied
    answer-IsGrown i j t args rf reply h k =
        let d = set_server codec c j rf in
        let own =
          calm-IsGrown (c j).elected (c j).server rf
            (vote-IsCalm codec (c j).server rf args reply h)
            (vote-IsInLog codec (c j).server rf (inside j) args reply h) in
        let before = server-IsGrown j (record (c j) { server = rf }) own in
        update_all (λ k x. IsGrown (c k).elected (c k).server x.server) d i
          (replied codec (d i) j t args reply) (before i) k (λ ne. before k)

    pub Move-IsGrown :
        (d : Cluster C B) (m : Move codec n c d)
        → IsElection codec z m
        → (k : ℕ) → IsGrown (c k).elected (c k).server (d k).server
    unfolding broadcasted dealt
    Move-IsGrown d (campaign i b) e =
        server-IsGrown i (campaigned codec (c i)) (campaign-IsGrown i e)
    Move-IsGrown d (broadcast i args still b p h) e =
        server-IsGrown i (broadcasted codec (c i) n args still)
          (stays-IsGrown (c i).elected (c i).server (inside i))
    Move-IsGrown d (answer i j t args rf reply b b' q h) e = answer-IsGrown i j t args rf reply h
    Move-IsGrown d (deal i j t args rf reply b b' q h) e =
        server-IsGrown i (dealt codec (c i) j t args reply rf) (
          calm-IsGrown (c i).elected (c i).server rf
            (count-IsCalm codec (c i).server rf args reply h)
            (count-IsInLog codec (c i).server rf (inside i) args reply h))
    Move-IsGrown d (act i rf s b l) e =
        server-IsGrown i (record (c i) { server = rf }) (act-IsGrown i rf s l e)
    Move-IsGrown d (crash i x b) e =
        subst
          (λ x.
            (k : ℕ)
            → IsGrown (c k).elected (c k).server (update c i (crashed codec (c i) x) k).server)
          (sym e) (server-IsGrown i (crashed codec (c i) z) (crash-IsGrown i))

    pub receive-IsGrown :
        (m : Message C) (rf : Raft C B) (reply : AppendEntriesReply)
        → IsMessage codec z v.written c m
        → append_entries codec (c m.receiver).server m.args ≡ ok (rf, reply)
        → IsGrown (c m.receiver).elected (c m.receiver).server rf
    receive-IsGrown m rf reply f h =
        let a = (c m.receiver).server in
        let lost : (c m.receiver).elected m.args.term ≢ true =
          λ e. f.other (election_safety codec z n c r m.receiver m.sender m.args.term e f.won) in
        (
          (
            ground (arith, (append-IsBound codec a rf m.args reply h).0),
            grows (c m.receiver).elected a (append-Leads codec a rf m.args reply h).1 lost,
          ),
          append-IsInLog codec a rf (inside m.receiver) m.args reply h
              (λ l e. lost (rw e at (v.nodes m.receiver).leads l)),
        )
      where
        grows :
            (won : ℕ → Bool) (a : Raft C B)
            → ((m.args.term < a.current_term) × (rf ≡ a)) ⊎ (rf.current_term ≡ m.args.term)
            → won m.args.term ≢ true
            → won a.current_term ≡ true
            → rf.current_term ≡ a.current_term
            → IsPrefix a.logs rf.logs
        grows won a (inl (old, e)) lost w k =
            same-IsPrefix a.logs rf.logs (ap (λ (x : Raft C B). x.logs) e)
        grows won a (inr new) lost w k = absurd (lost (rw (sym k ∙ new) at w))
