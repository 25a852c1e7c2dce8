-- ===== src/Raft/Replicas/Keeps.antt =====
-- The servers and their messages from one event to the next.
use distributed_algorithms.Prelude.{
  ℕ, ◌≡◌, ◌≢◌, inl, inr, refl, sym, subst, true, List, arith, Bool-cases, update, update_self,
  update_all,
}
use distributed_algorithms.Raft.Run.{ok}
use distributed_algorithms.Raft.Server.{leader, persist, save_raft_state, Codec, Raft}
use distributed_algorithms.Raft.RequestVote.{
  RequestVoteArgs, RequestVoteReply, deal_vote_reply, request_vote,
}
use distributed_algorithms.Raft.Api.{begin_election, come_to_power}
use distributed_algorithms.Raft.Steps.{
  powers, Step, votes, appends, campaigns, counts, copies, starts, broadcasts, applies, waits,
  awaits, crashes,
}
use distributed_algorithms.Raft.Steps.Bound.{power-same}
use distributed_algorithms.Raft.Cluster.{
  Node, Cluster, set_server, mark_elected, campaigned, broadcasted, replied, dealt, crashed,
  IsLocal, Move, campaign, broadcast, answer, deal, act, crash, Reach, next,
}
use distributed_algorithms.Raft.Cluster.Election.{election_safety}
use distributed_algorithms.Raft.Replicas.{Message, IsQuiet, IsElection}
use distributed_algorithms.Raft.Replicas.Local.{
  IsCalm, vote-IsCalm, count-IsCalm, apply-IsCalm, follow-IsCalm, await-IsCalm,
}
use distributed_algorithms.Raft.Replicas.Invariant.{
  IsReplica, kept-stored, moved-IsReplica, calm-IsReplica,
}
use distributed_algorithms.Raft.Replicas.Servers.{
  elected-IsReplica, newly_elected, crashed-IsReplica,
}
use distributed_algorithms.Raft.Replicas.Consistent.{
  IsConsistent, same-IsConsistent, server-IsConsistent, update-Remembers,
}
use distributed_algorithms.Raft.Replicas.Writes.{start-IsConsistent}

module _ {C B : Type 0} (codec : Codec C B) (z : C) (n : ℕ) where
  module _ (c : Cluster C B) (ms : List (Message C)) (v : IsConsistent codec z c ms)
      (r : Reach codec z n c) where
    pub calm-IsConsistent :
        (i : ℕ) (rf : Raft C B)
        → IsCalm codec (c i).server rf
        → IsConsistent codec z (set_server codec c i rf) ms
    calm-IsConsistent i rf k =
        server-IsConsistent codec z c ms v i rf
          (calm-IsReplica codec z v.written (c i).server rf (c i).elected (v.nodes i) k)

    power-IsConsistent :
        (i : ℕ) (rf : Raft C B)
        → come_to_power (c i).server ≡ ok rf
        → (c i).elected (c i).server.current_term ≡ true
        → IsConsistent codec z (set_server codec c i rf) ms
    power-IsConsistent i rf h ours =
        let w = power-same codec (c i).server rf h in
        let u = v.nodes i in
        server-IsConsistent codec z c ms v i rf (
          moved-IsReplica codec z v.written (c i).server rf (c i).elected u w.2
            (omega (arith, w.0.0)) (kept-stored codec z (c i).server rf (inl w) u.stored)
            (λ l. rw (w.0.0) ours))

    act-IsConsistent :
        (i : ℕ) (rf : Raft C B) (s : Step codec (c i).server rf)
        → IsLocal codec s
        → IsQuiet codec (c i).elected s
        → IsConsistent codec z (set_server codec c i rf) ms
    act-IsConsistent i rf (votes args reply h) l q =
        calm-IsConsistent i rf (vote-IsCalm codec (c i).server rf args reply h)
    act-IsConsistent i rf (appends args reply h) l q = absurd q
    act-IsConsistent i rf campaigns l q = absurd l
    act-IsConsistent i rf (counts args reply h) l q = absurd l
    act-IsConsistent i rf (copies id args reply h) l q = absurd q
    act-IsConsistent i rf (starts command x h) l q =
        start-IsConsistent codec z n c ms v r i rf command x h
    act-IsConsistent i rf (broadcasts xs h) l q = absurd q
    act-IsConsistent i rf (applies xs h) l q =
        calm-IsConsistent i rf (apply-IsCalm codec (c i).server rf xs h)
    act-IsConsistent i rf (waits s h) l q =
        calm-IsConsistent i rf (follow-IsCalm codec (c i).server rf s h)
    act-IsConsistent i rf (awaits s h) l q =
        calm-IsConsistent i rf (await-IsCalm codec (c i).server rf s h)
    act-IsConsistent i rf (powers h) l q = power-IsConsistent i rf h q
    act-IsConsistent i rf (crashes x) l q = absurd l

    node-IsConsistent :
        (i : ℕ) (y : Node C B)
        → ((t : ℕ) → (c i).elected t ≡ true → y.elected t ≡ true)
        → IsReplica codec z v.written y.server y.elected
        → IsConsistent codec z (update c i y) ms
    node-IsConsistent i y later own =
        same-IsConsistent codec z c (update c i y) ms v (update-Remembers codec z c i y later) (λ k.
          update_all (λ k x. IsReplica codec z v.written x.server x.elected) c i y own k
            (λ ne. v.nodes k))

    -- Who is elected writes a log that nobody has written before.
    deal-IsConsistent :
        (i j t : ℕ) (args : RequestVoteArgs) (rf : Raft C B) (reply : RequestVoteReply)
        → Reach codec z n (update c i (dealt codec (c i) j t args reply rf))
        → deal_vote_reply codec (c i).server args reply ≡ ok rf
        → IsConsistent codec z (update c i (dealt codec (c i) j t args reply rf)) ms
    unfolding dealt mark_elected
    deal-IsConsistent i j t args rf reply r' h =
        let y = dealt codec (c i) j t args reply rf in
        let grows : (u : ℕ) → (c i).elected u ≡ true → y.elected u ≡ true =
          λ u e. ground (arith, e) in
        let later = update-Remembers codec z c i y grows in
        node-IsConsistent i y grows (
          elected-IsReplica codec z v.written rf (c i).elected y.elected
            (calm-IsReplica codec z v.written (c i).server rf (c i).elected (v.nodes i)
              (count-IsCalm codec (c i).server rf args reply h))
            grows
            (λ u k. elim (Bool-cases ((c i).elected u)) [
              | inl before ↦ inl before
              | inr not_yet ↦
                  elim (newly_elected codec z v.written (c i).server rf (c i).elected args reply h u
                    k) [
                      | inl before ↦ inl before
                      | inr e ↦ elim (v.author u) [
                        | inl unwritten ↦ inr (e, unwritten)
                        | inr (x, won) ↦
                            let mine : (update c i y i).elected u ≡ true =
                              rw (update_self c i y) k in
                            let same =
                              election_safety codec z n (update c i y) r' x i u (later x u won)
                                mine in
                            inl (rw (sym same) won)
                      ]
                    ]
            ]))

    campaign-IsConsistent :
        (i : ℕ)
        → (c i).server.state ≢ leader
        → IsConsistent codec z (update c i (campaigned codec (c i))) ms
    unfolding campaigned begin_election persist save_raft_state
    campaign-IsConsistent i no_leader =
        node-IsConsistent i (campaigned codec (c i)) (λ t e. e)
          (moved-IsReplica codec z v.written (c i).server _ (c i).elected (v.nodes i) refl
            (omega arith) (inl refl) (λ l. absurd (no_leader l)))

    crash-IsConsistent : (i : ℕ) → IsConsistent codec z (update c i (crashed codec (c i) z)) ms
    unfolding crashed
    crash-IsConsistent i =
        node-IsConsistent i (crashed codec (c i) z) (λ t e. e)
          (crashed-IsReplica codec z v.written (c i).server (c i).elected (c i).server.peers
            (c i).server.me (v.nodes i))

  answer-IsConsistent :
      (c : Cluster C B) (ms : List (Message C)) (v : IsConsistent codec z c ms)
      (r : Reach codec z n c) (i j t : ℕ) (args : RequestVoteArgs) (rf : Raft C B)
      (reply : RequestVoteReply)
      → request_vote codec (c j).server args ≡ ok (rf, reply)
      → IsConsistent codec z
          (update
            (set_server codec c j rf)
            i
            (replied codec (set_server codec c j rf i) j t args reply))
          ms
  unfolding replied
  answer-IsConsistent c ms v r i j t args rf reply h =
      let d = set_server codec c j rf in
      let u = calm-IsConsistent c ms v r j rf (vote-IsCalm codec (c j).server rf args reply h) in
      same-IsConsistent codec z d _ ms u
        (update-Remembers codec z d i (replied codec (d i) j t args reply) (λ t e. e))
        (λ k.
          update_all (λ k x. IsReplica codec z u.written x.server x.elected) d i
            (replied codec (d i) j t args reply) (u.nodes i) k (λ ne. u.nodes k))

  pub Move-IsConsistent :
      (c d : Cluster C B) (ms : List (Message C))
      → IsConsistent codec z c ms
      → Reach codec z n c
      → (m : Move codec n c d) → IsElection codec z m
      → IsConsistent codec z d ms
  unfolding broadcasted
  Move-IsConsistent c d ms v r (campaign i b) e = campaign-IsConsistent c ms v r i e
  Move-IsConsistent c d ms v r (broadcast i args still b p h) e =
      node-IsConsistent c ms v r i (broadcasted codec (c i) n args still) (λ t h. h) (v.nodes i)
  Move-IsConsistent c d ms v r (answer i j t args rf reply b b' q h) e =
      answer-IsConsistent c ms v r i j t args rf reply h
  Move-IsConsistent c d ms v r (deal i j t args rf reply b b' q h) e =
      deal-IsConsistent c ms v r i j t args rf reply (next r (deal i j t args rf reply b b' q h)) h
  Move-IsConsistent c d ms v r (act i rf s b l) e = act-IsConsistent c ms v r i rf s l e
  Move-IsConsistent c d ms v r (crash i x b) e =
      subst (λ x. IsConsistent codec z (update c i (crashed codec (c i) x)) ms) (sym e)
        (crash-IsConsistent c ms v r i)
