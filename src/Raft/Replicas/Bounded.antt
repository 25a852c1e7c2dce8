-- ===== src/Raft/Replicas/Bounded.antt =====
-- What the messages and their replies say of the log of a leader, in every state of the servers.
use distributed_algorithms.Prelude.{
  IsPrefix-length, ℕ, ◌+◌, ◌≤◌, ◌≡◌, ◌⊎◌, inl, inr, sym, ap, subst, ◌∙◌, true, some, List, ◌∷◌,
  arith, zero, suc, update_self, length, length-drop, get_elem?, get_elem?-lt,
}
use distributed_algorithms.Raft.Run.{ok}
use distributed_algorithms.Raft.Server.{Codec, Raft}
use distributed_algorithms.Raft.Server.Log.{IsLog, IsRange}
use distributed_algorithms.Raft.AppendEntries.{
  AppendEntriesArgs, AppendEntriesReply, append_entries,
}
use distributed_algorithms.Raft.AppendEntries.Backoff.{IsTermed}
use distributed_algorithms.Raft.AppendEntries.Total.{IsFrank, append_entries-IsFrank}
use distributed_algorithms.Raft.Leader.{broadcast_append_entries, deal_append_reply}
use distributed_algorithms.Raft.Cluster.{Node, Cluster, set_server, Reach}
use distributed_algorithms.Raft.Cluster.Terms.{elected_late}
use distributed_algorithms.Raft.Replicas.{
  encodes, Message, Answer, Replicas, address, Event, elects, sends, receives, deals,
}
use distributed_algorithms.Raft.Replicas.Local.{broadcast-IsCalm, copy-IsCalm}
use distributed_algorithms.Raft.Replicas.Invariant.{Written, IsMessage, Follows-IsTermed}
use distributed_algorithms.Raft.Replicas.Servers.{message-IsRange}
use distributed_algorithms.Raft.Replicas.Sent.{broadcast-IsSent}
use distributed_algorithms.Raft.Replicas.Consistent.{IsConsistent}
use distributed_algorithms.Raft.Replicas.Matching.{AreBegun, Event-Remembers}
use distributed_algorithms.Raft.Replicas.Steady.{IsInLog, broadcast-IsInLog}
use distributed_algorithms.Raft.Replicas.Replies.{deal-IsInLog}
use distributed_algorithms.Raft.Replicas.Ahead.{
  stays-IsGrown, IsGrown, calm-IsGrown, server-IsGrown, Move-IsGrown, receive-IsGrown,
}

module _ {C B : Type 0} (codec : Codec C B) (z : C) where
  -- A message ends within the log of its sender, as long as the sender is in the message's term.
  pub record IsWithin (c : Cluster C B) (m : Message C) : Type 0 where
    pub range : IsRange (m.args.prev_log_index + 1) m.args.entries
    pub won : (c m.sender).elected m.args.term ≡ true
    pub fits :
        (c m.sender).server.current_term ≡ m.args.term
        → m.args.prev_log_index + 1 + length m.args.entries ≤ length (c m.sender).server.logs

  pub record IsBounded (s : Replicas C B) : Type 0 where
    pub inside : (k : ℕ) → IsInLog (s.cluster k).server
    pub begun : AreBegun s
    pub sent : (k : ℕ) (m : Message C) → get_elem? s.calls k ≡ some m → IsWithin s.cluster m
    pub answered :
        (k : ℕ) (a : Answer C)
        → get_elem? s.answers k ≡ some a
        → IsWithin s.cluster a.message × IsFrank a.message.args a.reply

  pub consistent-IsTermed :
      (n : ℕ) (c : Cluster C B) (ms : List (Message C))
      → Reach codec z n c
      → IsConsistent codec z c ms
      → (k : ℕ) → IsTermed (c k).server.logs
  consistent-IsTermed n c ms r v k = elim (v.author 0) [
    | inl unwritten ↦ Follows-IsTermed z v.written (c k).server.logs (v.nodes k).follows unwritten
    | inr (i, h) ↦ absurd (omega (arith, elected_late codec z n c r i 0 h))
  ]

  module _ (n : ℕ) (s : Replicas C B) (r : Reach codec z n s.cluster)
      (v : IsConsistent codec z s.cluster s.calls) (b : IsBounded s) where
    deal-IsGrown :
        (k : ℕ) (a : Answer C) (rf : Raft C B)
        → get_elem? s.answers k ≡ some a
        → deal_append_reply codec
            (s.cluster a.message.sender).server
            a.message.receiver
            a.message.args
            a.reply
          ≡ ok rf
        → let i = a.message.sender in IsGrown codec (s.cluster i).elected (s.cluster i).server rf
    deal-IsGrown k a rf at h =
        let m = a.message in
        let ld = (s.cluster m.sender).server in
        let (w, frank) = b.answered k a at in
        calm-IsGrown codec (s.cluster m.sender).elected ld rf
          (copy-IsCalm codec ld rf m.receiver m.args a.reply h)
          (deal-IsInLog codec ld rf (b.inside m.sender) m.receiver m.args a.reply w.range h frank
            w.fits)

    pub Event-IsGrown :
        (t : Replicas C B)
        → Event codec z n s t
        → (k : ℕ) → IsGrown codec (s.cluster k).elected (s.cluster k).server (t.cluster k).server
    Event-IsGrown t (elects {d = d} m e) =
        Move-IsGrown codec z n s.cluster s.calls v r b.inside d m e
    Event-IsGrown t (sends i rf xs bound h) =
        let ld = (s.cluster i).server in
        server-IsGrown codec z n s.cluster s.calls v r b.inside i
          (record (s.cluster i) { server = rf })
          (calm-IsGrown codec (s.cluster i).elected ld rf (broadcast-IsCalm codec ld rf xs h)
            (broadcast-IsInLog codec ld rf xs (b.inside i) h))
    Event-IsGrown t (encodes k m at e) =
        λ i. stays-IsGrown codec (s.cluster i).elected (s.cluster i).server (b.inside i)
    Event-IsGrown t (receives k m rf reply at bound h) =
        let (j, there) = b.begun k m at in
        server-IsGrown codec z n s.cluster s.calls v r b.inside m.receiver
          (record (s.cluster m.receiver) { server = rf })
          (receive-IsGrown codec z n s.cluster s.calls v r b.inside m rf reply (v.sent j m there) h)
    Event-IsGrown t (deals k a rf at bound h) =
        let i = a.message.sender in
        server-IsGrown codec z n s.cluster s.calls v r b.inside i
          (record (s.cluster i) { server = rf }) (deal-IsGrown k a rf at h)

    module _ (t : Replicas C B) (e : Event codec z n s t) where
      pub later-IsWithin : (m : Message C) → IsWithin s.cluster m → IsWithin t.cluster m
      later-IsWithin m w =
          let k = m.sender in
          let g = Event-IsGrown t e k in
          record {
            range = w.range;
            won = Event-Remembers codec z n s t e k m.args.term w.won;
            fits = λ h.
                let past = (v.nodes k).past m.args.term w.won in
                let now : (s.cluster k).server.current_term ≡ m.args.term = omega (arith, g.0.0) in
                omega (
                  arith,
                  w.fits now,
                  IsPrefix-length (s.cluster k).server.logs (t.cluster k).server.logs
                      (g.0.1 (rw now w.won) (h ∙ sym now)),
                );
          }

      pub later-sent : (k : ℕ) (m : Message C) → get_elem? s.calls k ≡ some m → IsWithin t.cluster m
      later-sent k m at = later-IsWithin m (b.sent k m at)

      pub later-answered :
          (k : ℕ) (a : Answer C)
          → get_elem? s.answers k ≡ some a
          → IsWithin t.cluster a.message × IsFrank a.message.args a.reply
      later-answered k a at =
          (later-IsWithin a.message (b.answered k a at).0, (b.answered k a at).1)

    -- What a broadcast sends.
    pub sent-IsWithin :
        (w : Written C) (i : ℕ) (rf : Raft C B) (xs : List (ℕ × AppendEntriesArgs C))
        → broadcast_append_entries (s.cluster i).server ≡ ok (rf, xs)
        → (k : ℕ) (m : Message C) → get_elem? (address i xs) k ≡ some m
        → IsMessage codec z w (set_server codec s.cluster i rf) m
        → IsWithin (set_server codec s.cluster i rf) m
    sent-IsWithin w i rf xs h k m at f =
        let ld = (s.cluster i).server in
        let d = set_server codec s.cluster i rf in
        let log : IsLog rf.logs = rw (broadcast-IsCalm codec ld rf xs h).logs (v.nodes i).log in
        let (x, is_sent, is) = broadcast-IsSent codec ld rf i xs h log k m at in
        let y : Message C = record { sender = i; receiver = x.0; args = x.1 } in
        let g = subst (IsMessage codec z w d) is f in
        let own : length (d i).server.logs ≡ length rf.logs =
          ap (λ (y : Node C B). length y.server.logs)
            (update_self s.cluster i (record (s.cluster i) { server = rf })) in
        let p = is_sent.part in
        subst (IsWithin d) (sym is) (record {
          range = message-IsRange codec z w d y g;
          won = g.won;
          fits = λ _. omega (
            arith,
            own,
            get_elem?-lt rf.logs x.1.prev_log_index p.prev_at,
            ap length p.rest,
            length-drop (x.1.prev_log_index + 1) rf.logs,
          );
        })

    pub received-answered :
        (m : Message C) (rf : Raft C B) (reply : AppendEntriesReply) (k : ℕ) (a : Answer C)
        → append_entries codec (s.cluster m.receiver).server m.args ≡ ok (rf, reply)
        → IsWithin s.cluster m
        → get_elem? (record { message = m; reply = reply } ∷ s.answers) k ≡ some a
        → (IsFrank m.args reply × (record { message = m; reply = reply } ≡ a))
          ⊎ ((j : ℕ) × (get_elem? s.answers j ≡ some a))
    received-answered m rf reply zero a h w at = inl (
      append_entries-IsFrank codec (s.cluster m.receiver).server m.args (v.nodes m.receiver).log
          (consistent-IsTermed n s.cluster s.calls r v m.receiver) w.range rf reply h,
      ground (arith, at),
    )
    received-answered m rf reply (suc k) a h w at = inr (k, at)
