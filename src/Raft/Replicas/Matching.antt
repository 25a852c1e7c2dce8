-- ===== src/Raft/Replicas/Matching.antt =====
-- The logs of several servers (raft-AppendEntries.go) in the states that they reach.
use distributed_algorithms.Prelude.{
  ◌⊎◌, ap, inl, inr, length, get_elem?-append_right, ◌+◌, ℕ, zero, suc, ◌+◌, ◌<◌, ◌≡◌, inl, inr,
  refl, sym, subst, ◌∙◌, some, List, [], ◌∷◌, ◌++◌, arith, get_elem?, take, get_elem?-append_cases,
  update_self,
}
use distributed_algorithms.Raft.Run.{ok}
use distributed_algorithms.Raft.Server.{
  LogEntry, Codec, Raft, make_persister, read_persist, read_raft_state,
}
use distributed_algorithms.Raft.AppendEntries.{
  AppendEntriesArgs, AppendEntriesReply, append_entries,
}
use distributed_algorithms.Raft.Leader.{broadcast_append_entries}
use distributed_algorithms.Raft.Api.{make}
use distributed_algorithms.Raft.Steps.{appends, broadcasts, copies}
use distributed_algorithms.Raft.Steps.Logs.{first-IsLog}
use distributed_algorithms.Raft.Cluster.{
  Cluster, set_server, Move, act, new_cluster, Reach, start, next,
}
use distributed_algorithms.Raft.Cluster.Local.{local-SameCount}
use distributed_algorithms.Raft.Cluster.Election.{election_safety, Reach-IsSafe}
use distributed_algorithms.Raft.Replicas.{
  encodes, Message, Replicas, address, Event, elects, sends, receives, deals, new_replicas, History,
  begins, goes_on,
}
use distributed_algorithms.Raft.Replicas.Local.{broadcast-IsCalm, copy-IsCalm}
use distributed_algorithms.Raft.Replicas.Invariant.{
  Written, first, Follows-take, IsReplica, IsMessage,
}
use distributed_algorithms.Raft.Replicas.Servers.{received-IsReplica}
use distributed_algorithms.Raft.Replicas.Sent.{IsSent, broadcast-IsSent}
use distributed_algorithms.Raft.Replicas.Consistent.{
  Remembers, Move-Remembers, IsConsistent, server-IsConsistent, set_server-Remembers,
}
use distributed_algorithms.Raft.Replicas.Keeps.{calm-IsConsistent, Move-IsConsistent}

-- What is encoded is a call that was begun.
abbrev pub AreBegun : {C B : Type 0} → Replicas C B → Type 0
AreBegun {C} s =
    (k : ℕ) (m : Message C)
    → get_elem? s.messages k ≡ some m
    → (j : ℕ) × (get_elem? s.calls j ≡ some m)

module _ {C B : Type 0} (codec : Codec C B) (z : C) (n : ℕ) where
  -- Every event but the encoding of a call is a move of the cluster.
  Event-cases :
      (s t : Replicas C B)
      → Event codec z n s t
      → (t.cluster ≡ s.cluster) ⊎ Move codec n s.cluster t.cluster
  Event-cases s t (elects m e) = inr m
  Event-cases s t (sends i rf xs b h) = inr (act i rf (broadcasts xs h) b tt)
  Event-cases s t (encodes k m at e) = inl refl
  Event-cases s t (receives k m rf reply at b h) =
      inr (act m.receiver rf (appends m.args reply h) b tt)
  Event-cases s t (deals k a rf at b h) =
      inr (act a.message.sender rf (copies a.message.receiver a.message.args a.reply h) b tt)

  pub Event-Remembers :
      (s t : Replicas C B) → Event codec z n s t → Remembers codec z s.cluster t.cluster
  Event-Remembers s t e = elim (Event-cases s t e) [
    | inl same ↦ subst (Remembers codec z s.cluster) (sym same) (λ k u h. h)
    | inr m ↦ Move-Remembers codec z n s.cluster t.cluster m
  ]

  pub History-Reach : (s : Replicas C B) → History codec z n s → Reach codec z n s.cluster
  unfolding new_replicas
  History-Reach s begins = start
  History-Reach t (goes_on {s = s} r e) = elim (Event-cases s t e) [
    | inl same ↦ subst (Reach codec z n) (sym same) (History-Reach s r)
    | inr m ↦ next (History-Reach s r) m
  ]

  module _ (c : Cluster C B) (ms : List (Message C)) (v : IsConsistent codec z c ms)
      (r : Reach codec z n c) where
    -- What a leader sends is a part of its log.
    part-IsMessage :
        (w : Written C) (i : ℕ) (rf : Raft C B) (x : ℕ × AppendEntriesArgs C)
        → IsReplica codec z w rf (c i).elected
        → rf.me ≡ i
        → IsSent codec rf x
        → IsMessage codec z w
            (set_server codec c i rf)
            (record { sender = i; receiver = x.0; args = x.1 })
    part-IsMessage w i rf x u me s = record {
      whole = rf.logs;
      follows = u.follows;
      log = u.log;
      prev = s.part.prev;
      prev_at = s.part.prev_at;
      prev_term = s.part.prev_term;
      rest = s.part.rest;
      other = λ e. s.other (e ∙ sym me);
      won = set_server-Remembers codec z c i rf i x.1.term (rw s.part.term (u.leads s.leads));
    }

    send-IsConsistent :
        (i : ℕ) (rf : Raft C B) (xs : List (ℕ × AppendEntriesArgs C))
        → broadcast_append_entries (c i).server ≡ ok (rf, xs)
        → IsConsistent codec z (set_server codec c i rf) (address i xs ++ ms)
    send-IsConsistent i rf xs h =
        let u =
          calm-IsConsistent codec z n c ms v r i rf (broadcast-IsCalm codec (c i).server rf xs h) in
        let own : IsReplica codec z u.written rf (c i).elected =
          subst (λ x. IsReplica codec z u.written x.server x.elected)
            (update_self c i (record (c i) { server = rf })) (u.nodes i) in
        let me : rf.me ≡ i =
          (local-SameCount codec (c i).server rf (broadcasts xs h) tt).0.0
          ∙ ((Reach-IsSafe codec z n c r).1 i).me in
        record {
          written = u.written;
          nodes = u.nodes;
          author = u.author;
          sent = λ k m at. elim (get_elem?-append_cases (address i xs) ms k at) [
            | inl new ↦
                let (x, is_sent, is) =
                  broadcast-IsSent codec (c i).server rf i xs h own.log k m new in
                subst (IsMessage codec z u.written (set_server codec c i rf)) (sym is)
                  (part-IsMessage u.written i rf x own me is_sent)
            | inr (j, old) ↦ u.sent j m old
          ];
        }

    receive-IsConsistent :
        (k : ℕ) (m : Message C) (rf : Raft C B) (reply : AppendEntriesReply)
        → get_elem? ms k ≡ some m
        → append_entries codec (c m.receiver).server m.args ≡ ok (rf, reply)
        → IsConsistent codec z (set_server codec c m.receiver rf) ms
    receive-IsConsistent k m rf reply at h =
        let f = v.sent k m at in
        server-IsConsistent codec z c ms v m.receiver rf (
          received-IsReplica codec z v.written c m f (c m.receiver).server rf (c m.receiver).elected
            reply (v.nodes m.receiver) h
            (λ e. f.other (election_safety codec z n c r m.receiver m.sender m.args.term e f.won)))

  Event-AreBegun : (s t : Replicas C B) → Event codec z n s t → AreBegun s → AreBegun t
  Event-AreBegun s t (elects m e) v = v
  Event-AreBegun s t (sends i rf xs b h) v = λ k m at.
      let (j, there) = v k m at in
      let new = address i xs in
      (
        length new + j,
        get_elem?-append_right new s.calls (length new + j) (omega arith)
            ∙ ap (get_elem? s.calls) (omega arith)
            ∙ there,
      )
  Event-AreBegun s t (encodes k m at e) v = λ j x h. begun j x h
    where
      begun :
          (j : ℕ) (x : Message C)
          → get_elem? (m ∷ s.messages) j ≡ some x
          → (l : ℕ) × (get_elem? s.calls l ≡ some x)
      begun zero x h = (k, ground (arith, at, h))
      begun (suc j) x h = v j x h
  Event-AreBegun s t (receives k m rf reply at b h) v = v
  Event-AreBegun s t (deals k a rf at b h) v = v

  pub History-AreBegun : (s : Replicas C B) → History codec z n s → AreBegun s
  unfolding new_replicas
  History-AreBegun s begins = λ k m at. absurd (ground arith)
  History-AreBegun t (goes_on {s = s} r e) = Event-AreBegun s t e (History-AreBegun s r)

  Event-IsConsistent :
      (s t : Replicas C B)
      → Event codec z n s t
      → Reach codec z n s.cluster
      → AreBegun s
      → IsConsistent codec z s.cluster s.calls
      → IsConsistent codec z t.cluster t.calls
  Event-IsConsistent s t (elects {d = d} m e) r begun v =
      Move-IsConsistent codec z n s.cluster d s.calls v r m e
  Event-IsConsistent s t (sends i rf xs b h) r begun v =
      send-IsConsistent s.cluster s.calls v r i rf xs h
  Event-IsConsistent s t (encodes k m at e) r begun v = v
  Event-IsConsistent s t (receives k m rf reply at b h) r begun v =
      let (j, there) = begun k m at in
      receive-IsConsistent s.cluster s.calls v r j m rf reply there h
  Event-IsConsistent s t (deals k a rf at b h) r begun v =
      calm-IsConsistent codec z n s.cluster s.calls v r a.message.sender rf (
        copy-IsCalm codec (s.cluster a.message.sender).server rf a.message.receiver a.message.args
          a.reply h)

  new-IsConsistent : IsConsistent codec z (new_cluster codec z n) []
  unfolding new_cluster make read_persist read_raft_state make_persister
  new-IsConsistent = record {
    written = λ t. [];
    nodes = λ k. record {
      stored = inr (refl, refl, refl);
      log = first-IsLog codec z;
      follows = record { starts = refl; copies = alone };
      leads = λ l. cc;
      past = λ t h. cc;
      owns = λ h. cc;
    };
    author = λ t. inl refl;
    sent = λ k m h. absurd (ground arith);
  }
    where
      alone :
          (i : ℕ) (e : LogEntry C)
          → 0 < i
          → get_elem? (first z ∷ []) i ≡ some e
          → take (i + 1) (first z ∷ []) ≡ take (i + 1) []
      alone zero e pos h = absurd (omega arith)
      alone (suc i) e pos h = absurd (ground arith)

  pub History-IsConsistent :
      (s : Replicas C B) → History codec z n s → IsConsistent codec z s.cluster s.calls
  unfolding new_replicas
  History-IsConsistent s begins = new-IsConsistent
  History-IsConsistent t (goes_on {s = s} r e) =
      Event-IsConsistent s t e (History-Reach s r) (History-AreBegun s r) (History-IsConsistent s r)

  -- In every state that `n` new servers reach, the logs of any two of them are the same up to entries
  -- with the same index and term, whatever the network loses, repeats, delays and reorders and
  -- whichever servers crash and restart. It is for servers whose broadcasts of requests for votes read
  -- their arguments before the term changes, that come to power only in a term in which they were
  -- elected, that do not stand for election as leaders, that start and restart with the same command
  -- in the first entry, and whose calls of AppendEntries are encoded before any of the call's
  -- entries is cut off the sender's log. Entries shares its array with that log and is encoded
  -- without the lock, so that a call that is encoded later can carry entries that were overwritten.
  pub log_matching :
      (s : Replicas C B)
      → History codec z n s
      → (i k j : ℕ) (x y : LogEntry C) → get_elem? (s.cluster i).server.logs j ≡ some x
      → get_elem? (s.cluster k).server.logs j ≡ some y
      → x.log_term ≡ y.log_term
      → take (j + 1) (s.cluster i).server.logs ≡ take (j + 1) (s.cluster k).server.logs
  log_matching s r i k j x y a b e =
      let v = History-IsConsistent s r in
      Follows-take z v.written _ _ (v.nodes i).follows (v.nodes k).follows j x y a b (λ pos. e)
