-- ===== src/MutualExclusion/Clock.antt =====
-- clock.go and the maximum of util.go: the logical clock of a process. A time is a natural number;
-- the random start of newClock is a parameter.
use distributed_algorithms.Prelude.{ℕ, ◌+◌, ◌<◌, ltb, if◌then◌else◌, arith}

unfoldable pub max : ℕ → ℕ → ℕ
max a b = if ltb b a then a else b

pub record Clock : Type 0 where
  pub time : ℕ

-- `random` is the value of rand.Intn(100).
unfoldable pub new_clock : ℕ → Clock
new_clock random = record { time = 1 + random }

unfoldable pub update : Clock → ℕ → Clock
unfolding max
update c t = record { time = max c.time (t + 1) }

unfoldable pub tick : Clock → ℕ × Clock
tick c = let t = c.time + 1 in (t, record { time = t })

unfoldable pub now : Clock → ℕ
now c = c.time

-- A new clock does not stand at 0, whatever the random number.
pub new_clock-pos : (random : ℕ) → 0 < now (new_clock random)
unfolding new_clock now
new_clock-pos random = omega arith
