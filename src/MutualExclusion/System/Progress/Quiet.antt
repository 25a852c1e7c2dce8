-- ===== src/MutualExclusion/System/Progress/Quiet.antt =====
-- The turns of the listening loop that send nothing and leave the resource alone.
use distributed_algorithms.Prelude.{ℕ, ◌+◌, ◌≤◌, ◌<◌, ◌≡◌, inl, sym, ◌∙◌, ap, subst, update_all}
use distributed_algorithms.MutualExclusion.ReceivedTime.Latest.{latest, IsOther}
use distributed_algorithms.MutualExclusion.Process.{Observer, Process}
use distributed_algorithms.MutualExclusion.System.{Listener, Node, System, put}
use distributed_algorithms.MutualExclusion.System.Local.{pending, IsNode, IsQueued, handled}
use distributed_algorithms.MutualExclusion.System.Invariant.{request_of, is_occupying, time_of, Inv}
use distributed_algorithms.MutualExclusion.System.Invariant.Turn.{
  IsTurn, IsPair-turn, IsShared-turn,
}

module _ (o : Observer) {n : ℕ} (s : System o) (inv : Inv o n s) (i : ℕ) (lt : i < n) where
  open o use {Property, sent, value}

  abbrev node : Node
  node = s.nodes i

  abbrev p : Process
  p = node.process

  v : IsNode o n s.prop i node
  v = inv.local i lt

  -- What a quiet turn keeps of the process.
  pub record IsQuiet (b : Node) : Type 0 where
    pub local : IsNode o n s.prop i b
    pub clock : time_of node ≤ time_of b
    pub heard : (j : ℕ) → IsOther n i j → latest b.process.received_time j ≤ time_of (s.nodes j)
    pub request : request_of b ≡ request_of node
    pub occupying : is_occupying b ≡ is_occupying node

  -- A quiet turn keeps the invariant.
  pub quiet-Inv : (b : Node) → IsQuiet b → Inv o n (put o s i b)
  quiet-Inv b q = record {
    history = inv.history;
    local = λ j lt'. update_all (IsNode o n s.prop) s.nodes i b q.local j (λ _. inv.local j lt');
    pair = IsPair-turn turn lt inv.pair;
    shared =
        IsShared-turn turn s.resource s.budget s.budget lt q.occupying (λ _. q.request)
          (ap (λ r. s.budget + pending r) q.request) inv.shared;
  }
    where
      turn : IsTurn n i s.nodes node b
      turn = record {
        clock = q.clock;
        heard = q.heard;
        asks = λ us e. inl (sym q.request ∙ e);
        wins = λ occ. inl (sym q.occupying ∙ occ, q.request);
      }

  pub heard_before : (j : ℕ) → IsOther n i j → latest p.received_time j ≤ time_of (s.nodes j)
  heard_before j other = (inv.pair j i other.0 lt other.1).behind

  -- The queue as the listener `l` has it.
  pub seen_by :
      (l : Listener)
      → node.listener ≡ l
      → IsQueued o s.prop i (handled l node.cursor) p.request_queue p.request_timestamp
  seen_by l e =
      subst (λ x. IsQueued o s.prop i (handled x node.cursor) p.request_queue p.request_timestamp) e
        v.queued
