-- ===== src/Raft/Server/Log.antt =====
-- The log: its entries have consecutive indices.
use distributed_algorithms.Prelude.{
  ℕ, ◌+◌, ◌-◌, ◌≤◌, ◌<◌, ◌≡◌, sym, ◌∙◌, some, List, ◌++◌, arith, dec_lt, length, get_elem?, take,
  drop, length-take, get_elem?-take, get_elem?-append_left, get_elem?-append_right, get_elem?-drop,
  get_elem?-lt, get_elem?-some,
}
use distributed_algorithms.Raft.Run.{ok}
use distributed_algorithms.Raft.Server.{
  LogEntry, last_entry, get_last_index, get_base_index, get_last_term,
}

module _ {C : Type 0} where
  -- The entries have the indices `b`, `b + 1` and so on.
  abbrev pub IsRange : ℕ → List (LogEntry C) → Type 0
  IsRange b logs = (i : ℕ) (e : LogEntry C) → get_elem? logs i ≡ some e → e.log_index ≡ b + i

  -- A server's log starts with the entry 0 of no command, and is not compacted.
  pub record IsLog (logs : List (LogEntry C)) : Type 0 where
    pub inhabited : 0 < length logs
    pub range : IsRange 0 logs

  pub IsRange-take :
      (b n : ℕ) (logs : List (LogEntry C))
      → n ≤ length logs
      → IsRange b logs
      → IsRange b (take n logs)
  IsRange-take b n logs le r i e h =
      let lt = get_elem?-lt (take n logs) i h in
      r i e (sym (get_elem?-take n logs i (omega (arith, length-take n logs le))) ∙ h)

  pub IsRange-append :
      (b : ℕ) (xs ys : List (LogEntry C))
      → IsRange b xs
      → IsRange (b + length xs) ys
      → IsRange b (xs ++ ys)
  IsRange-append b xs ys r t i e h = elim (dec_lt i (length xs)) [
    | yes lt ↦ r i e (sym (get_elem?-append_left xs ys i lt) ∙ h)
    | no ge ↦
        let g = t (i - length xs) e (sym (get_elem?-append_right xs ys i (omega arith)) ∙ h) in
        omega (arith, g)
  ]

  pub IsRange-drop :
      (b n : ℕ) (logs : List (LogEntry C)) → IsRange b logs → IsRange (b + n) (drop n logs)
  IsRange-drop b n logs r i e h =
      let g = r (n + i) e (sym (get_elem?-drop n logs i) ∙ h) in omega (arith, g)

  module _ (logs : List (LogEntry C)) (v : IsLog logs) where
    last_some : (e : LogEntry C) × (get_elem? logs (length logs - 1) ≡ some e)
    last_some = get_elem?-some logs (length logs - 1) (omega (arith, v.inhabited))

    last_entry-ok :
        (e : LogEntry C) × (last_entry logs ≡ ok e) × (get_elem? logs (length logs - 1) ≡ some e)
    unfolding last_entry
    last_entry-ok = let (e, h) = last_some in (e, ground (arith, v.inhabited), h)

    -- On a log the accessors return: the last index is the length less one, the base index is 0.
    pub get_last_index-ok : get_last_index logs ≡ ok (length logs - 1)
    unfolding get_last_index
    get_last_index-ok =
        let (e, h, at) = last_entry-ok in ground (arith, h, v.range (length logs - 1) e at)

    pub get_base_index-ok : get_base_index logs ≡ ok 0
    unfolding get_base_index
    get_base_index-ok =
        let (e, h) = get_elem?-some logs 0 v.inhabited in ground (arith, h, v.range 0 e h)

    pub get_last_term-ok :
        (e : LogEntry C) × (get_elem? logs (length logs - 1) ≡ some e)
        × (get_last_term logs ≡ ok e.log_term)
    unfolding get_last_term
    get_last_term-ok = let (e, h, at) = last_entry-ok in (e, at, ground (arith, h))
