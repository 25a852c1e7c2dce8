-- ===== src/Raft/Api/Restart.antt =====
-- What a server that has crashed finds again, and the new entry of Start.
use distributed_algorithms.Prelude.{
  ℕ, zero, suc, ◌+◌, ◌-◌, ◌<◌, ◌≡◌, refl, ◌∙◌, some, [], ◌∷◌, ◌++◌, arith, length, length-append,
  get_elem?, get_elem?-append_left, get_elem?-append_right,
}
use distributed_algorithms.Raft.Run.{ok}
use distributed_algorithms.Raft.Server.{
  LogEntry, leader, follower, Codec, Raft, read_persist, read_raft_state, persist, save_raft_state,
  IsPersisted, copy, make_persister, is_leader,
}
use distributed_algorithms.Raft.Server.Log.{IsRange, IsLog, IsRange-append, get_last_index-ok}
use distributed_algorithms.Raft.Api.{make, start}

module _ {C B : Type 0} (codec : Codec C B) where
  -- A server that is made from the copy of the persister of a server whose state is persisted has
  -- that server's term, vote and log, and is a follower that has committed and applied nothing.
  pub restart_lem :
      (rf : Raft C B) (zero_command : C) (peers me : ℕ)
      → IsPersisted codec rf
      → let rf' = make codec zero_command peers me (copy rf.persister) in
        (rf'.current_term ≡ rf.current_term)
        × (rf'.voted_for ≡ rf.voted_for)
        × (rf'.logs ≡ rf.logs)
        × (rf'.state ≡ follower)
        × (rf'.commit_index ≡ 0)
        × (rf'.last_applied ≡ 0)
  unfolding make read_persist read_raft_state copy make_persister
  restart_lem rf zero_command peers me p =
      let x =
        codec.size-encode
          (record { current_term = rf.current_term; voted_for = rf.voted_for; logs = rf.logs }) in
      let y =
        codec.decode-encode
          (record { current_term = rf.current_term; voted_for = rf.voted_for; logs = rf.logs }) in
      (
        ground (arith, p, x, y),
        ground (arith, p, x, y),
        ground (arith, p, x, y),
        ground (arith, p),
        ground (arith, p),
        ground (arith, p),
      )

  -- What Start returns for a leader, and leaves behind.
  pub record IsStarted (rf : Raft C B) (command : C) (rf' : Raft C B) : Type 0 where
    pub returns : start codec rf command ≡ ok (rf', some (length rf.logs, rf.current_term))
    pub entry :
        get_elem? rf'.logs (length rf.logs)
        ≡ some
            (record { log_index = length rf.logs; log_term = rf.current_term; command = command })
    pub logs :
        rf'.logs
        ≡ rf.logs
          ++ record { log_index = length rf.logs; log_term = rf.current_term; command = command }
            ∷ []
    pub same : (rf'.state ≡ rf.state) × (rf'.current_term ≡ rf.current_term)
    pub older : (i : ℕ) → i < length rf.logs → get_elem? rf'.logs i ≡ get_elem? rf.logs i
    pub valid : IsLog rf'.logs
    pub persisted : IsPersisted codec rf'

  last-IsRange : (n : ℕ) (e : LogEntry C) → e.log_index ≡ n → IsRange n (e ∷ [])
  last-IsRange n e h zero x f = ground arith
  last-IsRange n e h (suc i) x f = absurd (ground arith)

  last_at : (n : ℕ) (e : LogEntry C) → get_elem? (e ∷ []) (n - n) ≡ some e
  last_at n e = let z : n - n ≡ 0 = omega arith in rw z refl

  -- Start, on a leader with a log, returns the index after the last one and the current term. The
  -- new entry stands there, the others stay where they were, the log is one again, and the server
  -- is persisted.
  pub start_lem :
      (rf : Raft C B) (command : C)
      → rf.state ≡ leader
      → IsLog rf.logs
      → (rf' : Raft C B) × IsStarted rf command rf'
  unfolding start persist save_raft_state is_leader
  start_lem rf command l log =
      let next : length rf.logs - 1 + 1 ≡ length rf.logs = omega (arith, log.inhabited) in
      let e : LogEntry C = record {
        log_index = length rf.logs;
        log_term = rf.current_term;
        command = command;
      } in
      (
        persist codec (record rf { logs = rf.logs ++ e ∷ [] }),
        record {
          returns = ground (arith, l, get_last_index-ok rf.logs log, next);
          entry =
              get_elem?-append_right rf.logs (e ∷ []) (length rf.logs) (omega arith)
              ∙ last_at (length rf.logs) e;
          logs = refl;
          same = (refl, refl);
          older = λ i b. get_elem?-append_left rf.logs (e ∷ []) i b;
          valid = record {
            inhabited = omega (arith, length-append rf.logs (e ∷ []), log.inhabited);
            range =
                IsRange-append 0 rf.logs (e ∷ []) log.range
                  (last-IsRange (0 + length rf.logs) e (omega arith));
          };
          persisted = refl;
        },
      )
