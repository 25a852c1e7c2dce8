-- ===== src/Raft/Replicas/Sent.antt =====
-- What a leader sends (raft-AppendEntries.go, broadcastAppendEntries and newAppendEntriesArgs).
use distributed_algorithms.Prelude.{
  ℕ, zero, suc, ◌+◌, ◌≡◌, ◌≢◌, inl, inr, refl, true, not, ◌&&◌, some, List, [], ◌∷◌, ◌++◌, ◌==◌,
  arith, Bool-cases, Option-cases, subst, get_elem?, drop, get_elem?-append_cases,
}
use distributed_algorithms.Raft.Run.{ok, ◌>>=◌}
use distributed_algorithms.Raft.Server.{
  LogEntry, State, leader, candidate, follower, is_leader, Codec, Raft,
}
use distributed_algorithms.Raft.Server.Log.{IsLog, get_base_index-ok}
use distributed_algorithms.Raft.AppendEntries.{AppendEntriesArgs}
use distributed_algorithms.Raft.Leader.{
  entries_args, new_append_entries_args, messages, commit, broadcast_append_entries,
}
use distributed_algorithms.Raft.Steps.Bound.{bind_ok}
use distributed_algorithms.Raft.Replicas.{Message, address}

module _ {C B : Type 0} (codec : Codec C B) where
  -- The arguments for the server `id`.
  pub record IsPart (rf : Raft C B) (id : ℕ) (args : AppendEntriesArgs C) : Type 0 where
    pub prev : LogEntry C
    pub prev_at : get_elem? rf.logs args.prev_log_index ≡ some prev
    pub prev_term : args.prev_log_term ≡ prev.log_term
    pub rest : args.entries ≡ drop (args.prev_log_index + 1) rf.logs
    pub term : args.term ≡ rf.current_term
    pub next : rf.next_index id ≡ args.prev_log_index + 1

  entries_args-IsPart :
      (rf : Raft C B) (id next : ℕ) (args : AppendEntriesArgs C)
      → rf.next_index id ≡ next
      → entries_args rf 0 next ≡ ok args
      → IsPart rf id args
  unfolding entries_args
  entries_args-IsPart rf id zero args n h = absurd (ground arith)
  entries_args-IsPart rf id (suc prev) args n h = elim (Option-cases (get_elem? rf.logs prev)) [
    | inl out ↦ absurd (ground arith)
    | inr (e, at) ↦ record {
      prev = e;
      prev_at = ground arith;
      prev_term = ground arith;
      rest = ground arith;
      term = ground arith;
      next = ground arith;
    }
  ]

  pub new_append_entries_args-IsPart :
      (rf : Raft C B) (id : ℕ) (args : AppendEntriesArgs C)
      → IsLog rf.logs
      → new_append_entries_args rf id ≡ ok args
      → IsPart rf id args
  unfolding new_append_entries_args
  new_append_entries_args-IsPart rf id args log h =
      entries_args-IsPart rf id (rf.next_index id) args refl
        (ground (arith, get_base_index-ok rf.logs log))

  -- A message of a broadcast: it is for another server, and from a leader.
  pub record IsSent (rf : Raft C B) (x : ℕ × AppendEntriesArgs C) : Type 0 where
    pub other : x.0 ≢ rf.me
    pub leads : rf.state ≡ leader
    pub part : IsPart rf (x.0) (x.1)

  pub leads_of : (s : State) → is_leader s ≡ true → s ≡ leader
  unfolding is_leader
  leads_of leader h = refl
  leads_of candidate h = cc
  leads_of follower h = cc

  pub messages-IsSent :
      (rf : Raft C B) (log : IsLog rf.logs) (k : ℕ) (xs : List (ℕ × AppendEntriesArgs C))
      → messages rf k ≡ ok xs
      → (i : ℕ) (x : ℕ × AppendEntriesArgs C) → get_elem? xs i ≡ some x
      → IsSent rf x
  unfolding messages
  messages-IsSent rf log zero xs h i x at = absurd (ground arith)
  messages-IsSent rf log (suc id) xs h i x at =
      let (ys, e, f) = bind_ok codec (messages rf id) _ _ h in
      elim (Bool-cases (not (id == rf.me) && is_leader rf.state)) [
        | inr skips ↦ messages-IsSent rf log id ys e i x (ground arith)
        | inl sends ↦
            let more : (new_append_entries_args rf id >>= λ args. ok (ys ++ (id, args) ∷ []))
                ≡ ok xs =
              ground arith in
            let (args, g, q) = bind_ok codec (new_append_entries_args rf id) _ _ more in
            let all : xs ≡ ys ++ (id, args) ∷ [] = ground arith in
            elim (get_elem?-append_cases ys ((id, args) ∷ []) i (rw all at at)) [
              | inl before ↦ messages-IsSent rf log id ys e i x before
              | inr (j, last) ↦
                  let is : (id, args) ≡ x = only j last in
                  subst (IsSent rf) is (record {
                    other = ground arith;
                    leads = leads_of rf.state (ground arith);
                    part = new_append_entries_args-IsPart rf id args log g;
                  })
            ]
      ]
    where
      only : {y : ℕ × AppendEntriesArgs C} (j : ℕ) → get_elem? (y ∷ []) j ≡ some x → y ≡ x
      only zero h = ground arith
      only (suc j) h = absurd (ground arith)

  address_of :
      (i : ℕ) (xs : List (ℕ × AppendEntriesArgs C)) (k : ℕ) (m : Message C)
      → get_elem? (address i xs) k ≡ some m
      → (x : ℕ × AppendEntriesArgs C) × (get_elem? xs k ≡ some x)
        × (m ≡ record { sender = i; receiver = x.0; args = x.1 })
  unfolding address
  address_of i [] k m h = absurd (ground arith)
  address_of i (x ∷ xs) zero m h = (x, refl, ground arith)
  address_of i (x ∷ xs) (suc k) m h = address_of i xs k m h

  pub broadcast-IsSent :
      (a rf : Raft C B) (i : ℕ) (xs : List (ℕ × AppendEntriesArgs C))
      → broadcast_append_entries a ≡ ok (rf, xs)
      → IsLog rf.logs
      → (k : ℕ) (m : Message C) → get_elem? (address i xs) k ≡ some m
      → (x : ℕ × AppendEntriesArgs C) × IsSent rf x
        × (m ≡ record { sender = i; receiver = x.0; args = x.1 })
  unfolding broadcast_append_entries
  broadcast-IsSent a rf i xs h log k m at =
      let (b, e, f) = bind_ok codec (commit a) _ _ h in
      let (ys, g, q) = bind_ok codec (messages b b.peers) _ _ f in
      let all : messages rf b.peers ≡ ok xs = ground arith in
      let (x, there, is) = address_of i xs k m at in
      (x, messages-IsSent rf log b.peers xs all k x there, is)
