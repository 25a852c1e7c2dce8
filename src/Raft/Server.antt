-- ===== src/Raft/Server.antt =====
-- The state of a Raft server and the access to its log: raft-Raft.go, raft-LogEntry.go,
-- raft-state.go, raft-method.go, raft-persist.go, persister.go and the minimum of util.go. Terms
-- and indices are natural numbers; NOBODY is `none`; a command is of any type `C`. The bytes of a
-- persister are of a type `B`, with the encoding of labgob and encoding/gob as a parameter.
pub mod Log
use distributed_algorithms.Prelude.{
  ℕ, zero, suc, ◌+◌, ◌-◌, ◌≡◌, ◌<◌, Bool, true, false, Option, none, some, List, [], ◌∷◌, ◌++◌, ltb,
  ◌==◌, if◌then◌else◌, length, get_elem?,
}
use distributed_algorithms.Raft.Run.{Run, ok, panic, or_panic, ◌>>=◌}

pub record LogEntry (C : Type 0) : Type 0 where
  pub log_index : ℕ
  pub log_term : ℕ
  pub command : C

pub data State : Type 0 where
  leader candidate follower : State

unfoldable pub min : ℕ → ℕ → ℕ
min a b = if ltb a b then a else b

-- The persister's two byte slices; `none` is nil.
pub record Persister (B : Type 0) : Type 0 where
  pub raftstate : Option B
  pub snapshot : Option B

unfoldable pub make_persister : {B : Type 0} → Persister B
make_persister = record { raftstate = none; snapshot = none }

unfoldable pub copy : {B : Type 0} → Persister B → Persister B
unfolding make_persister
copy ps = record make_persister { raftstate = ps.raftstate; snapshot = ps.snapshot }

unfoldable pub save_raft_state : {B : Type 0} → Persister B → Option B → Persister B
save_raft_state ps state = record ps { raftstate = state }

unfoldable pub read_raft_state : {B : Type 0} → Persister B → Option B
read_raft_state ps = ps.raftstate

unfoldable pub save_state_and_snapshot :
    {B : Type 0} → Persister B → Option B → Option B → Persister B
save_state_and_snapshot ps state snapshot = record ps { raftstate = state; snapshot = snapshot }

unfoldable pub read_snapshot : {B : Type 0} → Persister B → Option B
read_snapshot ps = ps.snapshot

-- The fields that persist() writes, in this order.
pub record Saved (C : Type 0) : Type 0 where
  pub current_term : ℕ
  pub voted_for : Option ℕ
  pub logs : List (LogEntry C)

-- The encoder and the decoder of the persistent fields: what has been encoded is not empty, and is
-- decoded to the same values.
pub record Codec (C B : Type 0) : Type 0 where
  pub size : B → ℕ
  pub encode : Saved C → B
  pub decode : B → Saved C
  pub size-encode : (x : Saved C) → 0 < size (encode x)
  pub decode-encode : (x : Saved C) → decode (encode x) ≡ x

-- `peers` is the number of servers. The slices nextIndex and matchIndex go by server; `indexed` is false
-- while they are nil, and then the two functions stand for nothing.
pub record Raft (C B : Type 0) : Type 0 where
  pub peers : ℕ
  pub persister : Persister B
  pub me : ℕ
  pub current_term : ℕ
  pub voted_for : Option ℕ
  pub logs : List (LogEntry C)
  pub commit_index : ℕ
  pub last_applied : ℕ
  pub indexed : Bool
  pub next_index : ℕ → ℕ
  pub match_index : ℕ → ℕ
  pub state : State
  pub vote_count : ℕ
  pub chan_commit : ℕ
  pub chan_heart_beat : ℕ
  pub chan_be_elected : ℕ

module _ {C : Type 0} where
  -- `logs[len(logs)-1]`, an index -1 for no logs.
  unfoldable pub last_entry : List (LogEntry C) → Run (LogEntry C)
  last_entry logs = if length logs == 0 then panic else or_panic (get_elem? logs (length logs - 1))

  unfoldable pub get_last_index : List (LogEntry C) → Run ℕ
  unfolding last_entry
  get_last_index logs = do e ← last_entry logs; ok e.log_index

  unfoldable pub get_base_index : List (LogEntry C) → Run ℕ
  get_base_index logs = do e ← or_panic (get_elem? logs 0); ok e.log_index

  unfoldable pub get_last_term : List (LogEntry C) → Run ℕ
  unfolding last_entry
  get_last_term logs = do e ← last_entry logs; ok e.log_term

unfoldable pub is_leader : State → Bool
is_leader leader = true
is_leader _ = false

unfoldable pub is_candidate : State → Bool
is_candidate candidate = true
is_candidate _ = false

module _ {C B : Type 0} (codec : Codec C B) where
  abbrev pub persistent : Raft C B → Saved C
  persistent rf = record {
    current_term = rf.current_term;
    voted_for = rf.voted_for;
    logs = rf.logs;
  }

  unfoldable pub persist : Raft C B → Raft C B
  unfolding save_raft_state
  persist rf = record rf {
    persister = save_raft_state rf.persister (some (codec.encode (persistent rf)));
  }

  -- Nothing is restored from nil or from no bytes.
  unfoldable pub read_persist : Raft C B → Option B → Raft C B
  read_persist rf none = rf
  read_persist rf (some b) =
      let saved = codec.decode b in
      if ltb (codec.size b) 1 then rf else record rf {
        current_term = saved.current_term;
        voted_for = saved.voted_for;
        logs = saved.logs;
      }

  -- What the persister holds is what the server would write now.
  abbrev pub IsPersisted : Raft C B → Type 0
  IsPersisted rf = rf.persister.raftstate ≡ some (codec.encode (persistent rf))

  -- `rf.currentTerm = term; rf.state = FOLLOWER; rf.votedFor = NOBODY`
  unfoldable pub step_down : Raft C B → ℕ → Raft C B
  step_down rf term = record rf { current_term = term; state = follower; voted_for = none }

  unfoldable pub newer_term : Raft C B → ℕ → Raft C B
  unfolding step_down
  newer_term rf term = if ltb rf.current_term term then step_down rf term else rf
