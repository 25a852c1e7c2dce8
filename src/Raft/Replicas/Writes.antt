-- ===== src/Raft/Replicas/Writes.antt =====
-- Start of raft-API.go in one of several servers: a leader writes to the log of its term.
use distributed_algorithms.Prelude.{
  ℕ, ◌≡◌, inl, inr, refl, ◌∙◌, Option, List, arith, ℕ_discrete, update_other, update_all,
}
use distributed_algorithms.Raft.Run.{ok}
use distributed_algorithms.Raft.Server.{State, leader, candidate, follower, Codec, Raft, is_leader}
use distributed_algorithms.Raft.Api.{start}
use distributed_algorithms.Raft.Api.Restart.{start_lem, IsStarted}
use distributed_algorithms.Raft.Cluster.{Cluster, set_server, Reach}
use distributed_algorithms.Raft.Cluster.Election.{election_safety}
use distributed_algorithms.Raft.Replicas.{Message}
use distributed_algorithms.Raft.Replicas.Invariant.{IsReplica}
use distributed_algorithms.Raft.Replicas.Started.{
  rewritten, rewritten-Extends, started-IsReplica, other-IsReplica,
}
use distributed_algorithms.Raft.Replicas.Consistent.{
  IsConsistent, server-IsConsistent, set_server-Remembers, message-later,
}

module _ {C B : Type 0} (codec : Codec C B) (z : C) (n : ℕ) where
  module _ (c : Cluster C B) (ms : List (Message C)) (v : IsConsistent codec z c ms)
      (r : Reach codec z n c) where
    -- Start on a leader writes to the log of its term.
    leader-IsConsistent :
        (i : ℕ) (rf : Raft C B) (command : C)
        → (c i).server.state ≡ leader
        → IsStarted codec (c i).server command rf
        → IsConsistent codec z (set_server codec c i rf) ms
    leader-IsConsistent i rf command lead s =
        let u = v.nodes i in
        let a = (c i).server in
        let won = u.leads lead in
        let own = u.owns won in
        let w = rewritten codec z v.written a rf command s in
        let later = set_server-Remembers codec z c i rf in
        record {
          written = w;
          nodes = λ k.
              update_all (λ k x. IsReplica codec z w x.server x.elected) c i
                (record (c i) { server = rf })
                (started-IsReplica codec z v.written a rf command s own (c i).elected u) k
                (λ ne.
                  other-IsReplica codec z v.written a rf command s own (c k).server (c k).elected
                    (v.nodes k) (λ h. ne (election_safety codec z n c r k i a.current_term h won)));
          author = λ t. elim (ℕ_discrete t a.current_term) [
            | yes e ↦ inr (i, later i t (rw e won))
            | no ne ↦ elim (v.author t) [
              | inl e ↦ inl (update_other v.written a.current_term t rf.logs ne ∙ e)
              | inr (k, h) ↦ inr (k, later k t h)
            ]
          ];
          sent = λ k m h.
              message-later codec z v.written w c (set_server codec c i rf) m
                (rewritten-Extends codec z v.written a rf command s own) later (v.sent k m h);
        }

    pub start-IsConsistent :
        (i : ℕ) (rf : Raft C B) (command : C) (x : Option (ℕ × ℕ))
        → start codec (c i).server command ≡ ok (rf, x)
        → IsConsistent codec z (set_server codec c i rf) ms
    unfolding start is_leader
    start-IsConsistent i rf command x h = by_state (c i).server.state refl
      where
        stay : rf ≡ (c i).server → IsConsistent codec z (set_server codec c i rf) ms
        stay e = server-IsConsistent codec z c ms v i rf (rw e (v.nodes i))

        by_state :
            (s : State) → (c i).server.state ≡ s → IsConsistent codec z (set_server codec c i rf) ms
        by_state leader e =
            let (b, w) = start_lem codec (c i).server command e (v.nodes i).log in
            let same : rf ≡ b = ground (arith, w.returns) in
            leader-IsConsistent i rf command e (rw same w)
        by_state candidate e = stay (ground (arith, e))
        by_state follower e = stay (ground (arith, e))
