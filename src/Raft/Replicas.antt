-- ===== src/Raft/Replicas.antt =====
-- Replication among several servers (raft-AppendEntries.go), over the elections of Raft.Cluster: the
-- messages of broadcastAppendEntries and their replies go through a network that loses, repeats and
-- delays them in any order. A call is begun under the lock and encoded later. A call that is encoded
-- when the log of its sender has lost some of its entries is left out.
pub mod Local
pub mod Invariant
pub mod Servers
pub mod Started
pub mod Consistent
pub mod Writes
pub mod Keeps
pub mod Sent
pub mod Matching
pub mod Steady
pub mod Replies
pub mod Ahead
pub mod Bounded
pub mod Inside
pub mod AppendOnly
pub mod Calls
pub mod Total
use distributed_algorithms.Prelude.{
  ◌+◌, take, drop, length, ℕ, ◌<◌, ◌≡◌, ◌≢◌, true, Bool, Option, some, List, [], ◌∷◌, ◌++◌,
  get_elem?,
}
use distributed_algorithms.Raft.Run.{ok}
use distributed_algorithms.Raft.Server.{LogEntry, leader, Codec, Raft}
use distributed_algorithms.Raft.AppendEntries.{
  AppendEntriesArgs, AppendEntriesReply, append_entries,
}
use distributed_algorithms.Raft.Leader.{broadcast_append_entries, deal_append_reply}
use distributed_algorithms.Raft.Api.{Signal, elected}
use distributed_algorithms.Raft.Steps.{
  powers, Step, votes, appends, campaigns, counts, copies, starts, broadcasts, applies, waits,
  awaits, crashes,
}
use distributed_algorithms.Raft.Cluster.{
  Cluster, set_server, Move, campaign, broadcast, answer, deal, act, crash, new_cluster,
}

-- A call of AppendEntries.
pub record Message (C : Type 0) : Type 0 where
  pub sender : ℕ
  pub receiver : ℕ
  pub args : AppendEntriesArgs C

-- A reply that is under way, with the call that it is for.
pub record Answer (C : Type 0) : Type 0 where
  pub message : Message C
  pub reply : AppendEntriesReply

-- `calls` are the calls of AppendEntries as they were begun, and `messages` those that are encoded.
pub record Replicas (C B : Type 0) : Type 0 where
  pub cluster : Cluster C B
  pub calls : List (Message C)
  pub messages : List (Message C)
  pub answers : List (Answer C)

-- The Entries of a call are a slice of its sender's log, in the same array, and are read when labrpc
-- encodes the call, without the lock. An AppendEntries that has cut the log before lets later entries
-- be written over them. `IsIntact` says that the entries that were put into the call still stand in
-- the sender's log.
abbrev pub IsIntact : {C : Type 0} → List (LogEntry C) → AppendEntriesArgs C → Type 0
IsIntact logs args = take (length args.entries) (drop (args.prev_log_index + 1) logs) ≡ args.entries

-- The calls of a broadcast of server `i`.
unfoldable pub address : {C : Type 0} → ℕ → List (ℕ × AppendEntriesArgs C) → List (Message C)
address i [] = []
address i (x ∷ xs) = record { sender = i; receiver = x.0; args = x.1 } ∷ address i xs

module _ {C B : Type 0} (codec : Codec C B) where
  -- A step that neither sends nor receives, and that comes to power, if it does, in a term in which the
  -- server was elected.
  abbrev pub IsQuiet : (ℕ → Bool) → {a b : Raft C B} → Step codec a b → Type 0
  IsQuiet won (appends args reply h) = ⊥
  IsQuiet won (broadcasts sent h) = ⊥
  IsQuiet won (copies id args reply h) = ⊥
  IsQuiet won {a = a} (powers h) = won a.current_term ≡ true
  IsQuiet won _ = Unit

  -- A server that stands for election is no leader, and the command of the first entry is always 0.
  abbrev pub IsElection : C → {n : ℕ} {c d : Cluster C B} → Move codec n c d → Type 0
  IsElection zero_command {c = c} (campaign i b) = (c i).server.state ≢ leader
  IsElection zero_command {c = c} (act j rf s b l) = IsQuiet ((c j).elected) s
  IsElection zero_command (crash j z b) = z ≡ zero_command
  IsElection zero_command _ = Unit

  -- `encodes` is what Call of labrpc does first, between any two steps of the servers.
  pub data Event (zero_command : C) (n : ℕ) (s : Replicas C B) : Replicas C B → Type 0 where
    elects :
        {d : Cluster C B} (m : Move codec n s.cluster d)
        → IsElection zero_command m
        → Event zero_command n s (record s { cluster = d })
    sends :
        (i : ℕ) (rf : Raft C B) (sent : List (ℕ × AppendEntriesArgs C))
        → i < n
        → broadcast_append_entries (s.cluster i).server ≡ ok (rf, sent)
        → Event zero_command n s (record s {
          cluster = set_server codec s.cluster i rf;
          calls = address i sent ++ s.calls;
        })
    encodes :
        (k : ℕ) (m : Message C)
        → get_elem? s.calls k ≡ some m
        → IsIntact (s.cluster m.sender).server.logs m.args
        → Event zero_command n s (record s { messages = m ∷ s.messages })
    receives :
        (k : ℕ) (m : Message C) (rf : Raft C B) (reply : AppendEntriesReply)
        → get_elem? s.messages k ≡ some m
        → m.receiver < n
        → append_entries codec (s.cluster m.receiver).server m.args ≡ ok (rf, reply)
        → Event zero_command n s (record s {
          cluster = set_server codec s.cluster m.receiver rf;
          answers = record { message = m; reply = reply } ∷ s.answers;
        })
    deals :
        (k : ℕ) (a : Answer C) (rf : Raft C B)
        → get_elem? s.answers k ≡ some a
        → a.message.sender < n
        → deal_append_reply codec
            (s.cluster a.message.sender).server
            a.message.receiver
            a.message.args
            a.reply
          ≡ ok rf
        → Event zero_command n s
            (record s { cluster = set_server codec s.cluster a.message.sender rf })

  unfoldable pub new_replicas : C → ℕ → Replicas C B
  unfolding new_cluster
  new_replicas zero_command n = record {
    cluster = new_cluster codec zero_command n;
    calls = [];
    messages = [];
    answers = [];
  }

  -- The states that `n` servers can reach.
  pub data History (zero_command : C) (n : ℕ) : Replicas C B → Type 0 where
    begins : History zero_command n (new_replicas zero_command n)
    goes_on :
        {s t : Replicas C B}
        → History zero_command n s
        → Event zero_command n s t
        → History zero_command n t
