-- ===== src/Raft/Api/Apply.antt =====
-- applyLoop applies the committed entries in order, each of them once.
use distributed_algorithms.Prelude.{
  ℕ, zero, suc, ◌+◌, ◌-◌, ◌≤◌, ◌<◌, ◌≡◌, refl, sym, ◌∙◌, ap, true, some, List, [], ◌∷◌, ltb,
  if◌then◌else◌, arith, length, get_elem?, get_elem?-some,
}
use distributed_algorithms.Raft.Run.{ok}
use distributed_algorithms.Raft.Server.{LogEntry, Raft}
use distributed_algorithms.Raft.Server.Log.{IsLog, get_base_index-ok}
use distributed_algorithms.Raft.Api.{ApplyMsg, apply_msg, apply_from, apply}

module _ {C : Type 0} where
  -- The messages are those of the entries from the index `i` on.
  pub record IsApplied (logs : List (LogEntry C)) (i k : ℕ) (ms : List (ApplyMsg C)) : Type 0 where
    pub number : length ms ≡ k
    pub content :
        (j : ℕ) (m : ApplyMsg C)
        → get_elem? ms j ≡ some m
        → (m.command_valid ≡ true)
          × (m.command_index ≡ i + j)
          × ((e : LogEntry C) × (get_elem? logs (i + j) ≡ some e) × (m.command ≡ e.command))

  -- The messages of the first round and of the later ones.
  first_IsApplied :
      (logs : List (LogEntry C)) (i k : ℕ) (e : LogEntry C) (ms : List (ApplyMsg C))
      → get_elem? logs i ≡ some e
      → IsApplied logs (i + 1) k ms
      → IsApplied logs i
          (suc k)
          (record { command_valid = true; command_index = i; command = e.command } ∷ ms)
  first_IsApplied logs i k e ms h v = record { number = omega (arith, v.number); content = content }
    where
      content :
          (j : ℕ) (m : ApplyMsg C)
          → get_elem?
              (record { command_valid = true; command_index = i; command = e.command } ∷ ms)
              j
            ≡ some m
          → (m.command_valid ≡ true)
            × (m.command_index ≡ i + j)
            × ((e : LogEntry C) × (get_elem? logs (i + j) ≡ some e) × (m.command ≡ e.command))
      content zero m f = (ground arith, ground arith, (e, ground arith, ground arith))
      content (suc j) m f =
          let (a, b, (x, c, d)) = v.content j m f in
          let same : i + 1 + j ≡ i + suc j = omega arith in
          (a, omega (arith, b), (x, sym (ap (get_elem? logs) same) ∙ c, d))

  pub apply_from-ok :
      (logs : List (LogEntry C)) (i k : ℕ)
      → i + k ≤ length logs
      → (ms : List (ApplyMsg C)) × (apply_from logs 0 i k ≡ ok ms) × IsApplied logs i k ms
  unfolding apply_from apply_msg
  apply_from-ok logs i zero le =
      ([], refl, record { number = refl; content = λ j m h. absurd (ground arith) })
  apply_from-ok logs i (suc k) le =
      let (e, h) = get_elem?-some logs i (omega arith) in
      let (ms, f, v) = apply_from-ok logs (i + 1) k (omega arith) in
      (
        record { command_valid = true; command_index = i; command = e.command } ∷ ms,
        ground (arith, h, f),
        first_IsApplied logs i k e ms h v,
      )

module _ {C B : Type 0} (rf : Raft C B) where
  -- What a turn of the loop does for a committed prefix of the log.
  pub record IsTurn (rf' : Raft C B) (ms : List (ApplyMsg C)) : Type 0 where
    pub returns : apply rf ≡ ok (rf', ms)
    pub messages : IsApplied rf.logs (rf.last_applied + 1) (rf.commit_index - rf.last_applied) ms
    pub reaches : rf.commit_index ≤ rf'.last_applied
    pub counts : rf'.last_applied ≡ rf.last_applied + length ms
    pub same : (rf'.logs ≡ rf.logs) × (rf'.commit_index ≡ rf.commit_index)

  -- A turn of applyLoop, for a server with a log that reaches the commit index and the last applied
  -- index, returns. It sends one message for each index above the last applied one, up to the commit
  -- index and in this order, and the message has the index and the command of the log's entry
  -- there. The last applied index grows by the number of the messages, and reaches the commit index.
  pub apply_lem :
      IsLog rf.logs
      → rf.commit_index < length rf.logs
      → rf.last_applied < length rf.logs
      → (rf' : Raft C B) × (ms : List (ApplyMsg C)) × IsTurn rf' ms
  unfolding apply
  apply_lem log reach applied =
      let (ms, f, v) =
        apply_from-ok rf.logs (rf.last_applied + 1) (rf.commit_index - rf.last_applied)
          (omega arith) in
      (
        record rf {
          last_applied =
              if ltb rf.last_applied rf.commit_index then rf.commit_index else rf.last_applied;
        },
        ms,
        record {
          returns = ground (arith, get_base_index-ok rf.logs log, f);
          messages = v;
          reaches = ground arith;
          counts = ground (arith, v.number);
          same = (refl, refl);
        },
      )
