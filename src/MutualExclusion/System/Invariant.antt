-- ===== src/MutualExclusion/System/Invariant.antt =====
-- What holds of the whole system in every reachable state.
pub mod Turn
use distributed_algorithms.Prelude.{
  ℕ, zero, suc, ◌+◌, ◌-◌, ◌≤◌, ◌<◌, ◌≡◌, ◌≢◌, Bool, true, false, Option, none, some, total,
}
use distributed_algorithms.MutualExclusion.Clock.{now}
use distributed_algorithms.MutualExclusion.Timestamp.{Timestamp, less}
use distributed_algorithms.MutualExclusion.ReceivedTime.Latest.{latest}
use distributed_algorithms.MutualExclusion.Resource.{Resource}
use distributed_algorithms.MutualExclusion.Process.{Observer}
use distributed_algorithms.MutualExclusion.System.{Node, System}
use distributed_algorithms.MutualExclusion.System.History.{IsHistory}
use distributed_algorithms.MutualExclusion.System.Local.{pending, IsNode}

abbrev pub request_of : Node → Option Timestamp
request_of a = a.process.request_timestamp

abbrev pub is_occupying : Node → Bool
is_occupying a = a.process.is_occupying

abbrev pub time_of : Node → ℕ
time_of a = now a.process.clock

abbrev pub owes : Node → ℕ
owes a = pending (request_of a)

-- `ts` comes before what process `a` asks for, now and from now on.
abbrev pub Precedes : Timestamp → Node → Type 0
Precedes ts a =
    (ts.time ≤ time_of a) × ((us : Timestamp) → request_of a ≡ some us → less ts us ≡ true)

-- Process `i` is `a`, and `b` is another one.
pub record IsPair (i : ℕ) (a b : Node) : Type 0 where
  pub behind : latest b.process.received_time i ≤ time_of a
  pub first : (ts : Timestamp) → is_occupying b ≡ true → request_of b ≡ some ts → Precedes ts a

-- The resource knows who occupies it, and whoever occupied it last came before all that ask.
pub record IsShared (n : ℕ) (nodes : ℕ → Node) (r : Resource) (budget : ℕ) : Type 0 where
  pub held : (j : ℕ) → j < n → is_occupying (nodes j) ≡ true → r.occupied_by ≡ request_of (nodes j)
  pub holder :
      (ts : Timestamp)
      → r.occupied_by ≡ some ts
      → (j : ℕ) × (j < n) × (is_occupying (nodes j) ≡ true)
  pub last :
      (ts : Timestamp) → r.last_occupied_by ≡ some ts → (j : ℕ) → j < n → Precedes ts (nodes j)
  pub owed : r.wg ≡ budget + total owes n nodes

pub record Inv (o : Observer) (n : ℕ) (s : System o) : Type 0 where
  pub history : IsHistory o n s.prop
  pub local : (i : ℕ) → i < n → IsNode o n s.prop i (s.nodes i)
  pub pair : (i j : ℕ) → i < n → j < n → i ≢ j → IsPair i (s.nodes i) (s.nodes j)
  pub shared : IsShared n s.nodes s.resource s.budget
