-- ===== src/Raft/Cluster.antt =====
-- Elections among several servers: newElection, broadcastRequestVote and the goroutines of
-- sendRequestVoteAndDealReply (raft-API.go, raft-RequestVote.go), over a network that may lose and
-- delay what it carries, in any order, and runs a call's handler at most once. Everything else that
-- a server does, and crashes, happen in between. It is taken that the goroutine of
-- broadcastRequestVote reads its arguments before the server's term changes: one that is overtaken
-- is left out.
pub mod Local
pub mod Invariant
pub mod Calls
pub mod Moves
pub mod Replies
pub mod Election
pub mod Terms
use distributed_algorithms.Prelude.{
  ℕ, zero, suc, ◌+◌, ◌<◌, ◌≡◌, Bool, true, false, not, ◌&&◌, ◌||◌, Option, none, some, ltb, ◌==◌,
  if◌then◌else◌, update,
}
use distributed_algorithms.Raft.Run.{Run, ok}
use distributed_algorithms.Raft.Server.{Codec, Raft, make_persister, copy}
use distributed_algorithms.Raft.RequestVote.{
  RequestVoteArgs, RequestVoteReply, request_vote, request_vote_args, deal_vote_reply,
}
use distributed_algorithms.Raft.Api.{make, begin_election}
use distributed_algorithms.Raft.Steps.{
  Step, votes, appends, campaigns, counts, copies, starts, broadcasts, applies, waits, awaits,
  crashes,
}

-- A goroutine that asks for one vote: it has not been started, its call is under way, the reply is
-- under way, or it is over, and the vote has been counted or not.
pub data Call : Type 0 where
  absent : Call
  sent : RequestVoteArgs → Call
  answered : RequestVoteArgs → RequestVoteReply → Call
  closed : Bool → Call

-- A server with the goroutines of its elections. `election` is the term of its last election while
-- the broadcast is to come; `calls j t` is the call to server `j` in the term `t`; `elected t` says
-- that something has been put into chanBeElected in the term `t`.
pub record Node (C B : Type 0) : Type 0 where
  pub server : Raft C B
  pub election : Option ℕ
  pub calls : ℕ → ℕ → Call
  pub elected : ℕ → Bool

abbrev pub Cluster : Type 0 → Type 0 → Type 0
Cluster C B = ℕ → Node C B

unfoldable pub set_call : (ℕ → ℕ → Call) → ℕ → ℕ → Call → ℕ → ℕ → Call
set_call calls j t call k u = if (k == j) && (u == t) then call else calls k u

-- The calls of broadcastRequestVote: `candidate j` says whether the server is still a candidate when
-- the loop comes to server `j` of the `n`.
unfoldable pub send_calls : (ℕ → ℕ → Call) → ℕ → ℕ → RequestVoteArgs → (ℕ → Bool) → ℕ → ℕ → Call
send_calls calls n me args candidate k u =
    if (u == args.term) && ((ltb k n && not (k == me)) && candidate k) then sent args else calls k u

-- A server that has crashed gets no more replies. Its requests may still come in, as any other step
-- of their receivers.
unfoldable pub drop_calls : ℕ → ℕ → Call
drop_calls k u = closed false

module _ {C B : Type 0} (codec : Codec C B) where
  -- Whether the reply adds to the count of the votes.
  unfoldable pub is_counted : Raft C B → RequestVoteArgs → RequestVoteReply → Bool
  is_counted rf args reply =
      not (ltb rf.current_term reply.term) && ((rf.current_term == args.term) && reply.vote_granted)

  unfoldable pub mark_elected : (ℕ → Bool) → Raft C B → Raft C B → ℕ → Bool
  mark_elected elected rf rf' t =
      elected t || ((t == rf.current_term) && not (rf'.chan_be_elected == rf.chan_be_elected))

  unfoldable pub campaigned : Node C B → Node C B
  unfolding begin_election
  campaigned x = record x {
    server = begin_election codec x.server;
    election = some (x.server.current_term + 1);
  }

  unfoldable pub broadcasted : Node C B → ℕ → RequestVoteArgs → (ℕ → Bool) → Node C B
  unfolding send_calls
  broadcasted x n args candidate = record x {
    election = none;
    calls = send_calls x.calls n x.server.me args candidate;
  }

  abbrev pub set_server : Cluster C B → ℕ → Raft C B → Cluster C B
  set_server c j rf = update c j (record (c j) { server = rf })

  -- The reply is in the network.
  unfoldable pub replied : Node C B → ℕ → ℕ → RequestVoteArgs → RequestVoteReply → Node C B
  unfolding set_call
  replied x j t args reply = record x { calls = set_call x.calls j t (answered args reply) }

  -- The server is `rf` after the reply of server `j`.
  unfoldable pub dealt : Node C B → ℕ → ℕ → RequestVoteArgs → RequestVoteReply → Raft C B → Node C B
  unfolding set_call is_counted mark_elected
  dealt x j t args reply rf = record x {
    server = rf;
    calls = set_call x.calls j t (closed (is_counted x.server args reply));
    elected = mark_elected x.elected x.server rf;
  }

  unfoldable pub crashed : Node C B → C → Node C B
  unfolding make copy drop_calls
  crashed x zero_command = record x {
    server = make codec zero_command x.server.peers x.server.me (copy x.server.persister);
    election = none;
    calls = drop_calls;
  }

  -- What a server does by itself, and for messages other than the replies to its calls.
  abbrev pub IsLocal : {a b : Raft C B} → Step codec a b → Type 0
  IsLocal campaigns = ⊥
  IsLocal (counts args reply h) = ⊥
  IsLocal (crashes z) = ⊥
  IsLocal _ = Unit

  pub data Move (n : ℕ) (c : Cluster C B) : Cluster C B → Type 0 where
    campaign : (i : ℕ) → i < n → Move n c (update c i (campaigned (c i)))
    broadcast :
        (i : ℕ) (args : RequestVoteArgs) (candidate : ℕ → Bool)
        → i < n
        → (c i).election ≡ some (c i).server.current_term
        → request_vote_args codec (c i).server ≡ ok args
        → Move n c (update c i (broadcasted (c i) n args candidate))
    answer :
        (i j t : ℕ) (args : RequestVoteArgs) (rf : Raft C B) (reply : RequestVoteReply)
        → i < n
        → j < n
        → (c i).calls j t ≡ sent args
        → request_vote codec (c j).server args ≡ ok (rf, reply)
        → Move n c (update (set_server c j rf) i (replied (set_server c j rf i) j t args reply))
    deal :
        (i j t : ℕ) (args : RequestVoteArgs) (rf : Raft C B) (reply : RequestVoteReply)
        → i < n
        → j < n
        → (c i).calls j t ≡ answered args reply
        → deal_vote_reply codec (c i).server args reply ≡ ok rf
        → Move n c (update c i (dealt (c i) j t args reply rf))
    act :
        (j : ℕ) (rf : Raft C B) (s : Step codec (c j).server rf)
        → j < n
        → IsLocal s
        → Move n c (set_server c j rf)
    crash : (j : ℕ) (zero_command : C) → j < n → Move n c (update c j (crashed (c j) zero_command))

  unfoldable pub new_cluster : C → ℕ → Cluster C B
  unfolding make make_persister
  new_cluster zero_command n i = record {
    server = make codec zero_command n i make_persister;
    election = none;
    calls = λ j t. absent;
    elected = λ t. false;
  }

  -- The states that `n` servers can reach.
  pub data Reach (zero_command : C) (n : ℕ) : Cluster C B → Type 0 where
    start : Reach zero_command n (new_cluster zero_command n)
    next : {c d : Cluster C B} → Reach zero_command n c → Move n c d → Reach zero_command n d
