-- ===== src/Raft/Replicas/Replies.antt =====
-- NextIndex of a leader that takes a reply (raft-AppendEntries.go, sendAppendEntriesAndDealReply).
use distributed_algorithms.Prelude.{
  ℕ, ◌+◌, ◌≤◌, ◌<◌, ◌≡◌, ◌⊎◌, inl, inr, ◌∙◌, List, [], ◌∷◌, ltb, arith, Bool-cases, ap, update,
  ◌==◌, length, get_elem?-some,
}
use distributed_algorithms.Raft.Run.{ok}
use distributed_algorithms.Raft.Server.{
  LogEntry, leader, Codec, Raft, persist, step_down, last_entry,
}
use distributed_algorithms.Raft.Server.Log.{IsRange}
use distributed_algorithms.Raft.AppendEntries.{AppendEntriesArgs, AppendEntriesReply}
use distributed_algorithms.Raft.AppendEntries.Total.{IsFrank}
use distributed_algorithms.Raft.Leader.{deal_append_reply, note_copies}
use distributed_algorithms.Raft.Replicas.Local.{copy-IsCalm}
use distributed_algorithms.Raft.Replicas.Steady.{IsInLog}

module _ {C B : Type 0} (codec : Codec C B) (a b : Raft C B) (v : IsInLog a) where
  note-next :
      (id p : ℕ) (xs : List (LogEntry C))
      → IsRange p xs
      → note_copies a id xs ≡ ok b
      → (b.next_index ≡ a.next_index) ⊎ (b.next_index ≡ update a.next_index id (p + length xs))
  unfolding note_copies last_entry
  note-next id p [] r h = inl (ground arith)
  note-next id p (x ∷ xs) r h =
      let (e, at) = get_elem?-some (x ∷ xs) (length xs) (omega arith) in
      let i = r (length xs) e at in
      let n : e.log_index + 1 ≡ p + length (x ∷ xs) = omega (arith, i) in
      let f : b.next_index ≡ update a.next_index id (e.log_index + 1) = ground (arith, at) in
      inr (f ∙ ap (update a.next_index id) n)

  deal-next :
      (id : ℕ) (args : AppendEntriesArgs C) (reply : AppendEntriesReply)
      → IsRange (args.prev_log_index + 1) args.entries
      → deal_append_reply codec a id args reply ≡ ok b
      → IsFrank args reply
      → b.state ≡ leader
      → (b.next_index ≡ a.next_index)
        ⊎ ((k : ℕ) × (b.next_index ≡ update a.next_index id k)
            × (a.current_term ≡ args.term)
            × (0 < k)
            × (k ≤ args.prev_log_index + 1 + length args.entries))
  unfolding deal_append_reply persist step_down
  deal-next id args reply r h frank l = elim (Bool-cases (ltb a.current_term reply.term)) [
    | inl newer ↦ absurd (ground arith)
    | inr old ↦ elim (Bool-cases (a.current_term == args.term)) [
      | inr other ↦ inl (ground arith)
      | inl current ↦ elim (Bool-cases (reply.success)) [
        | inr refused ↦ inr (
          reply.next_index,
          ground arith,
          ground arith,
          ground (arith, frank),
          ground (arith, frank),
        )
        | inl accepted ↦
            let noted : note_copies a id args.entries ≡ ok b = ground arith in
            elim (note-next id (args.prev_log_index + 1) args.entries r noted) [
              | inl e ↦ inl e
              | inr e ↦ inr (
                args.prev_log_index + 1 + length args.entries,
                e,
                ground arith,
                omega arith,
                omega arith,
              )
            ]
      ]
    ]
  ]

  note-indexed :
      (id : ℕ) (xs : List (LogEntry C)) → note_copies a id xs ≡ ok b → b.indexed ≡ a.indexed
  unfolding note_copies
  note-indexed id xs h = ground arith

  deal-indexed :
      (id : ℕ) (args : AppendEntriesArgs C) (reply : AppendEntriesReply)
      → deal_append_reply codec a id args reply ≡ ok b
      → b.indexed ≡ a.indexed
  unfolding deal_append_reply persist step_down
  deal-indexed id args reply h = ground (arith, note-indexed id args.entries)

  pub deal-IsInLog :
      (id : ℕ) (args : AppendEntriesArgs C) (reply : AppendEntriesReply)
      → IsRange (args.prev_log_index + 1) args.entries
      → deal_append_reply codec a id args reply ≡ ok b
      → IsFrank args reply
      → (a.current_term ≡ args.term → args.prev_log_index + 1 + length args.entries ≤ length a.logs)
      → IsInLog b
  deal-IsInLog id args reply r h frank fits l =
      let c = copy-IsCalm codec a b id args reply h in
      let (made, w) = v (c.leads l).0 in
      (
        deal-indexed id args reply h ∙ made,
        λ j. elim (deal-next id args reply r h frank l) [
          | inl e ↦ rw (e, c.logs) (w j)
          | inr (k, e, term, pos, le) ↦
              rw (e, c.logs) (set_next k pos (omega (arith, fits term)) j (w j))
        ],
      )
    where
      set_next :
          (k : ℕ)
          → 0 < k
          → k ≤ length a.logs
          → (j : ℕ) → (0 < a.next_index j) × (a.next_index j ≤ length a.logs)
          → (0 < update a.next_index id k j) × (update a.next_index id k j ≤ length a.logs)
      set_next k pos le j w = (ground arith, ground arith)
