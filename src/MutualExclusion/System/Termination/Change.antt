-- ===== src/MutualExclusion/System/Termination/Change.antt =====
-- What a turn changes of the counts that bound a run.
use distributed_algorithms.Prelude.{ℕ, ◌+◌, ◌≤◌, ◌<◌, ◌≡◌, update}
use distributed_algorithms.MutualExclusion.Message.{
  request_resource, release_resource, acknowledgment, Message,
}
use distributed_algorithms.MutualExclusion.Process.{Observer}
use distributed_algorithms.MutualExclusion.System.{
  Listener, waiting, handling, acking, checking, Node, System,
}

-- An acknowledgment that is still to be sent.
abbrev pub due : Listener → ℕ
due (handling m) = elim (m.msg_type) [ request_resource ↦ 1 | _ ↦ 0 ]
due (acking m) = 1
due _ = 0

-- Turns until the loop is back at stream.Next, at most.
abbrev pub left : Listener → ℕ
left waiting = 0
left (handling m) = 3
left (acking m) = 2
left checking = 1

module _ (o : Observer) (s t : System o) (i : ℕ) where
  abbrev a : Node
  a = s.nodes i

  -- The accounts that a turn may leave as they are.
  abbrev SameAccounts : Type 0
  SameAccounts = (t.budget ≡ s.budget) × (t.resource.wg ≡ s.resource.wg)

  abbrev SamePlace : Node → Type 0
  SamePlace b = (b.listener ≡ a.listener) × (b.cursor ≡ a.cursor)

  -- The node of process `i` becomes `b`.
  pub data Change (b : Node) : Type 0 where
    asks :
        (m : Message)
        → m.msg_type ≡ request_resource
        → t.prop ≡ o.update s.prop m
        → t.budget + 1 ≡ s.budget
        → t.resource.wg ≡ s.resource.wg
        → SamePlace b
        → Change b
    frees :
        (m : Message)
        → m.msg_type ≡ release_resource
        → t.prop ≡ o.update s.prop m
        → t.budget ≡ s.budget
        → t.resource.wg + 1 ≡ s.resource.wg
        → SamePlace b
        → Change b
    answers :
        (m m' : Message)
        → m.msg_type ≡ acknowledgment
        → t.prop ≡ o.update s.prop m
        → SameAccounts
        → a.listener ≡ acking m'
        → b.listener ≡ checking
        → b.cursor ≡ a.cursor
        → Change b
    skips :
        a.cursor < o.sent s.prop
        → t.prop ≡ s.prop
        → SameAccounts
        → a.listener ≡ waiting
        → b.listener ≡ waiting
        → b.cursor ≡ a.cursor + 1
        → Change b
    hears :
        a.cursor < o.sent s.prop
        → t.prop ≡ s.prop
        → SameAccounts
        → a.listener ≡ waiting
        → b.listener ≡ handling (o.value s.prop a.cursor)
        → b.cursor ≡ a.cursor + 1
        → Change b
    works :
        t.prop ≡ s.prop
        → SameAccounts
        → b.cursor ≡ a.cursor
        → left b.listener < left a.listener
        → due b.listener ≤ due a.listener
        → Change b

  abbrev pub Changed : Type 0
  Changed = (b : Node) × (t.nodes ≡ update s.nodes i b) × Change b
