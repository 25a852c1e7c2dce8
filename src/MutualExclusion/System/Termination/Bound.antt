-- ===== src/MutualExclusion/System/Termination/Bound.antt =====
-- A bound on the number of turns of a run.
use distributed_algorithms.Prelude.{ℕ, zero, suc, ◌+◌, ◌*◌, ◌≤◌, total-le, arith}
use distributed_algorithms.MutualExclusion.Process.{Observer}
use distributed_algorithms.MutualExclusion.System.{System, Reach}
use distributed_algorithms.MutualExclusion.System.Termination.Counts.{
  asked_mono, heard_of, cursor_of, steps, Reach-IsCounted,
}

-- The most messages, and the most turns, of a run of `n` processes that share the resource for
-- `times` occupations.
abbrev pub most_messages : ℕ → ℕ → ℕ
most_messages n times = (n + 2) * times

abbrev pub most_turns : ℕ → ℕ → ℕ
most_turns n times = (4 * n + 1) * most_messages n times

mul-le : (n a b : ℕ) → a ≤ b → n * a ≤ n * b
mul-le zero a b h = omega arith
mul-le (suc n) a b h = grind (arith, mul-le n a b h)

module _ (o : Observer) {n times : ℕ} {random : ℕ → ℕ} {s : System o}
    (r : Reach o n times random s) where
  open o use {sent}

  messages-le : sent s.prop ≤ most_messages n times
  messages-le =
      let v = Reach-IsCounted o r in
      let heard = total-le (heard_of o s.prop) n times s.nodes (λ i b.
        omega (arith, v.paid, asked_mono o s.prop (s.nodes i).cursor (sent s.prop) (v.read i b))) in
      grind (arith, v.written, heard)

  -- A run has at most n + 2 messages for each of its occupations, and at most 4 n + 1 turns for each
  -- of these messages: every run ends, whatever the order of the turns.
  pub runs_end : (sent s.prop ≤ most_messages n times) × (steps o r ≤ most_turns n times)
  runs_end =
      let v = Reach-IsCounted o r in
      let read = total-le cursor_of n (sent s.prop) s.nodes v.read in
      let more = mul-le n (sent s.prop) (most_messages n times) messages-le in
      (messages-le, grind (arith, v.taken, read, more, messages-le))
