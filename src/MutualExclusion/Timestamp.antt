-- ===== src/MutualExclusion/Timestamp.antt =====
-- timestamp.go: the time of an event with the process it happened in, ordered by time and then by
-- process. The start value <T-1:P-1> of a resource is modelled in Resource.
pub mod Order
pub mod Least
use distributed_algorithms.Prelude.{
  ℕ, Bool, true, false, ◌&&◌, Option, none, some, ltb, ◌==◌, if◌then◌else◌,
}

pub record Timestamp : Type 0 where
  pub time : ℕ
  pub process : ℕ

unfoldable pub new_timestamp : ℕ → ℕ → Timestamp
new_timestamp time process = record { time = time; process = process }

unfoldable pub less : Timestamp → Timestamp → Bool
less a b = if a.time == b.time then ltb a.process b.process else ltb a.time b.time

-- The argument nil is `none`.
unfoldable pub is_equal : Timestamp → Option Timestamp → Bool
is_equal a none = false
is_equal a (some b) = (a.time == b.time) && (a.process == b.process)

unfoldable pub is_before : Timestamp → ℕ → Bool
is_before a t = ltb a.time t
