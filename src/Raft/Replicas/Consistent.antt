-- ===== src/Raft/Replicas/Consistent.antt =====
-- The servers and their messages together, with what the leaders have written in each term.
use distributed_algorithms.Prelude.{
  ℕ, ◌≡◌, ◌⊎◌, inl, inr, true, some, List, [], arith, ℕ_discrete, update, update_self, update_other,
  update_all, get_elem?, take_all,
}
use distributed_algorithms.Raft.Server.{Codec, Raft}
use distributed_algorithms.Raft.Cluster.{
  Node, Cluster, set_server, mark_elected, campaigned, broadcasted, replied, dealt, crashed, Move,
  campaign, broadcast, answer, deal, act, crash,
}
use distributed_algorithms.Raft.Replicas.{Message}
use distributed_algorithms.Raft.Replicas.Invariant.{
  Written, IsReplica, IsMessage, Extends, Extends-Follows,
}

module _ {C B : Type 0} (codec : Codec C B) (z : C) where
  pub record IsConsistent (c : Cluster C B) (ms : List (Message C)) : Type 0 where
    pub written : Written C
    pub nodes : (k : ℕ) → IsReplica codec z written (c k).server (c k).elected
    pub author : (t : ℕ) → (written t ≡ []) ⊎ ((k : ℕ) × ((c k).elected t ≡ true))
    pub sent : (k : ℕ) (m : Message C) → get_elem? ms k ≡ some m → IsMessage codec z written c m

  -- Nobody's election is forgotten.
  abbrev pub Remembers : Cluster C B → Cluster C B → Type 0
  Remembers c d = (k t : ℕ) → (c k).elected t ≡ true → (d k).elected t ≡ true

  pub update-Remembers :
      (c : Cluster C B) (i : ℕ) (y : Node C B)
      → ((t : ℕ) → (c i).elected t ≡ true → y.elected t ≡ true)
      → Remembers c (update c i y)
  update-Remembers c i y h k t e = elim (ℕ_discrete k i) [
    | yes r ↦ rw (r, update_self c i y) (h t (rw r at e))
    | no ne ↦ rw (update_other c i k y ne) e
  ]

  pub set_server-Remembers :
      (c : Cluster C B) (i : ℕ) (rf : Raft C B) → Remembers c (set_server codec c i rf)
  set_server-Remembers c i rf = update-Remembers c i (record (c i) { server = rf }) (λ t e. e)

  pub Move-Remembers : (n : ℕ) (c d : Cluster C B) → Move codec n c d → Remembers c d
  unfolding campaigned broadcasted replied dealt crashed mark_elected
  Move-Remembers n c d (campaign i b) = update-Remembers c i _ (λ t e. e)
  Move-Remembers n c d (broadcast i args candidate b p h) = update-Remembers c i _ (λ t e. e)
  Move-Remembers n c d (answer i j t args rf reply b b' q h) = λ k u e.
      update-Remembers (set_server codec c j rf) i _ (λ t e. e) k u
        (set_server-Remembers c j rf k u e)
  Move-Remembers n c d (deal i j t args rf reply b b' q h) =
      update-Remembers c i _ (λ u e. ground (arith, e))
  Move-Remembers n c d (act j rf s b l) = set_server-Remembers c j rf
  Move-Remembers n c d (crash j x b) = update-Remembers c j _ (λ t e. e)

  pub message-later :
      (w w' : Written C) (c d : Cluster C B) (m : Message C)
      → Extends w w'
      → Remembers c d
      → IsMessage codec z w c m
      → IsMessage codec z w' d m
  message-later w w' c d m ext later v = record {
    whole = v.whole;
    follows = Extends-Follows z w w' v.whole ext v.follows;
    log = v.log;
    prev = v.prev;
    prev_at = v.prev_at;
    prev_term = v.prev_term;
    rest = v.rest;
    other = v.other;
    won = later m.sender m.args.term v.won;
  }

  -- The servers move and nothing is written.
  pub same-IsConsistent :
      (c d : Cluster C B) (ms : List (Message C)) (v : IsConsistent c ms)
      → Remembers c d
      → ((k : ℕ) → IsReplica codec z v.written (d k).server (d k).elected)
      → IsConsistent d ms
  same-IsConsistent c d ms v later nodes = record {
    written = v.written;
    nodes = nodes;
    author = λ t. elim (v.author t) [ inl e ↦ inl e | inr (k, h) ↦ inr (k, later k t h) ];
    sent = λ k m h.
        message-later v.written v.written c d m (λ t. inr (take_all (v.written t))) later
          (v.sent k m h);
  }

  pub server-IsConsistent :
      (c : Cluster C B) (ms : List (Message C)) (v : IsConsistent c ms) (i : ℕ) (rf : Raft C B)
      → IsReplica codec z v.written rf (c i).elected
      → IsConsistent (set_server codec c i rf) ms
  server-IsConsistent c ms v i rf own =
      same-IsConsistent c (set_server codec c i rf) ms v (set_server-Remembers c i rf) (λ k.
        update_all (λ k x. IsReplica codec z v.written x.server x.elected) c i
          (record (c i) { server = rf }) own k (λ ne. v.nodes k))
