-- ===== src/Raft/Replicas/Inside.antt =====
-- NextIndex of the leaders (raft-AppendEntries.go and comeToPower of raft-API.go) in the states that
-- the servers reach.
use distributed_algorithms.Prelude.{
  ◌≢◌, ℕ, ◌≤◌, ◌<◌, ◌≡◌, inl, inr, subst, arith, length, get_elem?-append_cases,
}
use distributed_algorithms.Raft.Server.{
  follower, leader, Codec, make_persister, read_persist, read_raft_state,
}
use distributed_algorithms.Raft.AppendEntries.Total.{IsFrank}
use distributed_algorithms.Raft.Api.{make}
use distributed_algorithms.Raft.Cluster.{set_server, Reach, new_cluster}
use distributed_algorithms.Raft.Replicas.{
  encodes, Answer, Replicas, address, Event, elects, sends, receives, deals, new_replicas, History,
  begins, goes_on,
}
use distributed_algorithms.Raft.Replicas.Consistent.{IsConsistent}
use distributed_algorithms.Raft.Replicas.Matching.{
  AreBegun, History-AreBegun, History-Reach, History-IsConsistent,
}
use distributed_algorithms.Raft.Replicas.Bounded.{
  IsWithin, IsBounded, Event-IsGrown, later-sent, later-answered, sent-IsWithin, received-answered,
}

module _ {C B : Type 0} (codec : Codec C B) (z : C) where
  module _ (n : ℕ) (s : Replicas C B) (r : Reach codec z n s.cluster)
      (v : IsConsistent codec z s.cluster s.calls) (b : IsBounded codec z s) where
    Event-IsBounded :
        (t : Replicas C B)
        → Event codec z n s t
        → IsConsistent codec z t.cluster t.calls
        → AreBegun t
        → IsBounded codec z t
    Event-IsBounded t (elects {d = d} m e) u begun =
        let g = elects m e in
        record {
          inside = λ k. (Event-IsGrown codec z n s r v b t g k).1;
          begun = begun;
          sent = later-sent codec z n s r v b t g;
          answered = later-answered codec z n s r v b t g;
        }
    Event-IsBounded t (sends i rf xs bound h) u begun =
        let g = sends i rf xs bound h in
        record {
          inside = λ k. (Event-IsGrown codec z n s r v b t g k).1;
          begun = begun;
          sent = λ k m at. elim (get_elem?-append_cases (address i xs) s.calls k at) [
            | inl new ↦ sent-IsWithin codec z n s r v b u.written i rf xs h k m new (u.sent k m at)
            | inr (j, old) ↦ later-sent codec z n s r v b t g j m old
          ];
          answered = later-answered codec z n s r v b t g;
        }
    Event-IsBounded t (encodes k m at e) u begun =
        let g = encodes k m at e in
        record {
          inside = b.inside;
          begun = begun;
          sent = later-sent codec z n s r v b t g;
          answered = later-answered codec z n s r v b t g;
        }
    Event-IsBounded t (receives k m rf reply at bound h) u begun =
        let g = receives k m rf reply at bound h in
        let (c, there_too) = b.begun k m at in
        record {
          inside = λ k. (Event-IsGrown codec z n s r v b t g k).1;
          begun = begun;
          sent = later-sent codec z n s r v b t g;
          answered = λ j a there.
              elim (received-answered codec z n s r v b m rf reply j a h (b.sent c m there_too)
                there) [
                  | inl (frank, is) ↦
                      subst
                        (λ (x : Answer C).
                          IsWithin codec z (set_server codec s.cluster m.receiver rf) x.message
                          × IsFrank x.message.args x.reply)
                        is (later-sent codec z n s r v b t g c m there_too, frank)
                  | inr (l, old) ↦ later-answered codec z n s r v b t g l a old
                ];
        }
    Event-IsBounded t (deals k a rf at bound h) u begun =
        let g = deals k a rf at bound h in
        record {
          inside = λ k. (Event-IsGrown codec z n s r v b t g k).1;
          begun = begun;
          sent = later-sent codec z n s r v b t g;
          answered = later-answered codec z n s r v b t g;
        }

  new-IsBounded : (n : ℕ) → IsBounded codec z (new_replicas codec z n)
  unfolding new_replicas new_cluster make read_persist read_raft_state make_persister
  new-IsBounded n = record {
    inside = λ k l. absurd (no_leader l);
    begun = λ k m h. absurd (ground arith);
    sent = λ k m h. absurd (ground arith);
    answered = λ k m h. absurd (ground arith);
  }
    where
      no_leader : follower ≢ leader
      no_leader e = cc

  pub History-IsBounded : (n : ℕ) (s : Replicas C B) → History codec z n s → IsBounded codec z s
  History-IsBounded n s begins = new-IsBounded n
  History-IsBounded n t (goes_on {s = s} r e) =
      Event-IsBounded n s (History-Reach codec z n s r) (History-IsConsistent codec z n s r)
        (History-IsBounded n s r) t e (History-IsConsistent codec z n t (goes_on r e))
        (History-AreBegun codec z n t (goes_on r e))

-- In every state that servers reach, under the conditions of log_matching, NextIndex of a leader is for
-- each server at least 1 and at most the length of the leader's log, whatever replies have come, in
-- whatever order.
pub next_index_bounds :
    {C B : Type 0} (codec : Codec C B) (z : C) (n : ℕ) (s : Replicas C B)
    → History codec z n s
    → (i : ℕ) → (s.cluster i).server.state ≡ leader
    → (id : ℕ)
    → (0 < (s.cluster i).server.next_index id)
      × ((s.cluster i).server.next_index id ≤ length (s.cluster i).server.logs)
next_index_bounds codec z n s r i l id = ((History-IsBounded codec z n s r).inside i l).1 id
