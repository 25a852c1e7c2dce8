-- ===== src/Raft/Run.antt =====
-- How a call of the server's code ends.
use distributed_algorithms.Prelude.{ℕ, ◌+◌, ◌<◌, ◌≡◌, Option, none, some, ltb, if◌then◌else◌, arith}

-- It returns, it panics, as an index out of range does, or it blocks on a full channel.
pub data Run {ℓ} (A : Type ℓ) : Type ℓ where
  ok : A → Run A
  panic blocked : Run A

infixl 5 ◌>>=◌
abbrev pub ◌>>=◌ {ℓ κ} : {A : Type ℓ} {B : Type κ} → Run A → (A → Run B) → Run B
ok a >>= f = f a
panic >>= f = panic
blocked >>= f = blocked

abbrev pub or_panic {ℓ} : {A : Type ℓ} → Option A → Run A
or_panic none = panic
or_panic (some a) = ok a

-- The buffer of the server's channels. A channel of struct{} is the number of its elements.
abbrev pub capacity : ℕ
capacity = 100

unfoldable pub send : ℕ → Run ℕ
send c = if ltb c capacity then ok (c + 1) else blocked

pub send_room : (c : ℕ) → c < capacity → send c ≡ ok (c + 1)
unfolding send
send_room c h = ground arith
