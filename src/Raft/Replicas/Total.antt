-- ===== src/Raft/Replicas/Total.antt =====
-- The calls of the replication (raft-AppendEntries.go, and Start of raft-API.go) in the states that
-- the servers reach.
use distributed_algorithms.Raft.Replicas.Steady.{IsInLog}
use distributed_algorithms.Prelude.{
  true, false, ◌⊎◌, inl, inr, sym, ◌∙◌, Bool-cases, List, [], ◌∷◌, refl, suc, ℕ, ◌≤◌, ◌<◌, ◌≡◌, ◌≢◌,
  some, get_elem?,
}
use distributed_algorithms.Raft.Run.{panic, capacity}
use distributed_algorithms.Raft.Server.{leader, Codec, Raft}
use distributed_algorithms.Raft.RequestVote.{RequestVoteArgs, request_vote, request_vote_args}
use distributed_algorithms.Raft.AppendEntries.{append_entries}
use distributed_algorithms.Raft.AppendEntries.Total.{append_entries_total}
use distributed_algorithms.Raft.Leader.{broadcast_append_entries, deal_append_reply}
use distributed_algorithms.Raft.Leader.Sync.{IsSynced, followers_catch_up}
use distributed_algorithms.Raft.Api.{start, come_to_power}
use distributed_algorithms.Raft.Replicas.{Replicas, History}
use distributed_algorithms.Raft.Replicas.Servers.{message-IsRange}
use distributed_algorithms.Raft.Replicas.Matching.{
  History-AreBegun, History-Reach, History-IsConsistent, log_matching,
}
use distributed_algorithms.Raft.Replicas.Bounded.{consistent-IsTermed}
use distributed_algorithms.Raft.Replicas.Inside.{History-IsBounded}
use distributed_algorithms.Raft.Replicas.Calls.{
  start_total, come_to_power_total, request_vote_args_total, request_vote_total, broadcast_total,
  deal_total,
}

module _ {A : Type 0} (P : A → Type 0) where
  abbrev pub All : List A → Type 0
  All [] = Unit
  All (x ∷ xs) = P x × All xs

  All-of : (xs : List A) → ((k : ℕ) (x : A) → get_elem? xs k ≡ some x → P x) → All xs
  All-of [] h = tt
  All-of (x ∷ xs) h = (h 0 x refl, All-of xs (λ k. h (suc k)))

module _ {C B : Type 0} where
  -- nextIndex and matchIndex are nil, and the server does not lead.
  abbrev pub IsNew : Raft C B → Type 0
  IsNew rf = (rf.indexed ≡ false) × (rf.state ≢ leader)

  IsNew-or : {P : Type 0} (rf : Raft C B) → IsInLog rf → (rf.indexed ≡ true → P) → IsNew rf ⊎ P
  IsNew-or rf v h = elim (Bool-cases rf.indexed) [
    | inl made ↦ inr (h made)
    | inr new ↦ inl (new, λ l. both (sym new ∙ (v l).0))
  ]
    where
      both : false ≢ true
      both e = cc

module _ {C B : Type 0} (codec : Codec C B) where
  module _ (z : C) (n : ℕ) (s : Replicas C B) (r : History codec z n s) where
    -- In every state that servers reach, under the conditions of log_matching, none of these calls
    -- panics at any server: RequestVote, the arguments of broadcastRequestVote, comeToPower and Start,
    -- and AppendEntries for any message that was encoded, however late and however often it comes. Nor do
    -- broadcastAppendEntries and the handling of any reply to its messages, where comeToPower has
    -- made nextIndex and matchIndex of the server since it was last made; every leader is such.
    pub calls_total :
        ((i : ℕ) (args : RequestVoteArgs) → request_vote codec (s.cluster i).server args ≢ panic)
        × ((i : ℕ) → request_vote_args codec (s.cluster i).server ≢ panic)
        × ((i : ℕ) → come_to_power (s.cluster i).server ≢ panic)
        × ((i : ℕ)
            → IsNew (s.cluster i).server ⊎ (broadcast_append_entries (s.cluster i).server ≢ panic))
        × ((i : ℕ) (command : C) → start codec (s.cluster i).server command ≢ panic)
        × All (λ m. append_entries codec (s.cluster m.receiver).server m.args ≢ panic) s.messages
        × All
            (λ a.
              IsNew (s.cluster a.message.sender).server
              ⊎ (deal_append_reply codec
                    (s.cluster a.message.sender).server
                    a.message.receiver
                    a.message.args
                    a.reply
                  ≢ panic))
            s.answers
    calls_total =
        let v = History-IsConsistent codec z n s r in
        let b = History-IsBounded codec z n s r in
        let reach = History-Reach codec z n s r in
        (
          λ i args. request_vote_total codec (s.cluster i).server (v.nodes i).log args,
          λ i. request_vote_args_total codec (s.cluster i).server (v.nodes i).log,
          λ i. come_to_power_total codec (s.cluster i).server (v.nodes i).log,
          λ i.
              IsNew-or (s.cluster i).server (b.inside i)
                (broadcast_total codec (s.cluster i).server (v.nodes i).log (b.inside i)),
          λ i command. start_total codec (s.cluster i).server (v.nodes i).log command,
          All-of _ s.messages (λ k m at.
              let (j, there) = History-AreBegun codec z n s r k m at in
              (append_entries_total codec (s.cluster m.receiver).server m.args
                (v.nodes m.receiver).log
                (consistent-IsTermed codec z n s.cluster s.calls reach v m.receiver)
                (message-IsRange codec z v.written s.cluster m (v.sent j m there))).0),
          All-of _ s.answers (λ k a at.
              let ld = (s.cluster a.message.sender).server in
              IsNew-or ld (b.inside a.message.sender)
                (deal_total codec ld a.message.receiver a.message.args a.reply)),
        )

    -- In every state that servers reach, under the conditions of log_matching: if messages and replies
    -- arrive from now on between a leader and a server in no newer term, with room in its channels,
    -- and the server takes each heart beat, then after at most NextIndex rounds, none of which panics
    -- or blocks, the server's log is the leader's and NextIndex is past it.
    pub replicas_catch_up :
        (i k : ℕ)
        → (s.cluster i).server.state ≡ leader
        → (s.cluster k).server.current_term ≤ (s.cluster i).server.current_term
        → (s.cluster k).server.chan_heart_beat < capacity
        → (s.cluster k).server.chan_commit < capacity
        → (rounds : ℕ) × (rounds ≤ (s.cluster i).server.next_index k)
          × ((ld : Raft C B) × (fo : Raft C B) × IsSynced codec k
                (s.cluster i).server
                (s.cluster k).server
                rounds
                ld
                fo)
    replicas_catch_up i k leads fresh beats room =
        let v = History-IsConsistent codec z n s r in
        let reach = History-Reach codec z n s r in
        let (made, w) = (History-IsBounded codec z n s r).inside i leads in
        let (pos, le) = w k in
        let terms = consistent-IsTermed codec z n s.cluster s.calls reach v in
        followers_catch_up codec k (s.cluster i).server (s.cluster k).server (v.nodes i).log
          (terms i)
          (record {
            made = made;
            log = (v.nodes k).log;
            terms = terms k;
            matching = log_matching codec z n s r k i;
            fresh = fresh;
            beats = beats;
            room = room;
          })
          pos le
