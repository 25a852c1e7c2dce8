-- ===== src/Lib.antt =====
-- Models of the two distributed algorithms of this repository, and the theorems that hold of them.
--
-- Lamport's mutual exclusion (Mutual-Exclusion/code), in MutualExclusion.antt and its children.
-- `all` processes share one resource. Each keeps a logical clock, the times of the last messages
-- from the others, a queue of requests and the timestamp of its own request, and broadcasts its
-- messages through a property of the package observer, which every other process reads in order.
-- - Clock: clock.go and max of util.go. Timestamp: timestamp.go. Message: message.go.
-- - Heap: the functions of the standard library's container/heap that the code calls. Entries: the
--   methods of heap.Interface of timeRecordQueue and requestPriorityQueue, which are the same code.
-- - ReceivedTime: receivedTime.go. RequestQueue: requestQueue.go. Resource: resource.go.
-- - Process: process.go, with one function for each section under the process's mutex.
-- - System: the goroutines of all processes. `turn` is one turn of a goroutine, and `Reach` holds
--   of the states that any interleaving of turns reaches. The listening loop stops between the
--   message's arrival, its handler, the acknowledgment and checkRule5. Local and Invariant say what
--   holds of every reachable state, and Progress that each turn keeps it. Quiescence is about the
--   states in which the loops stand still, Termination about the number of turns of a run, and
--   Completion puts the two together.
--
-- The Raft server (Raft/code), in Raft.antt and its children.
-- - Run: how a call ends; it returns, panics, or blocks on a channel of 100 elements.
-- - Server: raft-Raft.go, raft-LogEntry.go, raft-state.go, raft-method.go, raft-persist.go,
--   persister.go and min of util.go.
-- - RequestVote: raft-RequestVote.go. AppendEntries: the handler of raft-AppendEntries.go, and
--   Leader: the other functions of that file. Api: raft-API.go and raft-settings.go.
-- - Steps: everything that one server does, in any order, with crashes and restarts from the
--   persister. The messages that reach it are arbitrary, and so is their order.
-- - Loop: statesLoop as a goroutine with a place where it stands, the handlers running in between.
-- - Cluster: elections among several servers. A `Node` is a server with the goroutines of its
--   elections, and a `Move` is newElection, a broadcast, a handler's answer, the treatment of a
--   reply, any other step, or a crash. A call that fails is one that is never answered or whose reply
--   is never treated.
-- - Replicas: the replication among several servers, over Cluster. `Replicas` holds the servers with
--   all calls that broadcastAppendEntries began, all messages that were encoded for them, and all
--   replies, which stay, so that each may come never, late, or more than once, in any order. An
--   `Event` is a `Move` that neither sends nor takes a message, a broadcast, the encoding of any of
--   the calls, the handler for any of the messages, or the treatment of any of the replies. A server
--   comes to power only in a term in which it was elected, newElection runs at servers that are no
--   leaders, and the command of the first entry, 0 in the code, is the same at every start and
--   restart. In the code Entries of a call is a slice that shares its array with rf.logs, and labrpc
--   encodes it without the lock; an AppendEntries that has cut the log lets other entries be written
--   there. `encodes` therefore asks that the entries that were put into the call still stand in the
--   sender's log (`IsIntact`), and a call that loses entries before it is encoded is left out.
-- - Leader.Sync: the rounds of messages and replies between a leader and one server.
--
-- Conventions. An int that the code keeps non-negative is a natural number without a bound; a -1 or
-- a nil that stands for nothing is `none`. nextIndex and matchIndex are nil until comeToPower makes
-- them, which `indexed` says; to read or write an element of a nil slice panics. A panic, as by an
-- index out of range, is `none` in the first model and `panic` in the second. Pointers to entries of
-- a heap are numbers, and the fields are read and written through them. The queue of requests uses
-- pointers to timestamps as keys; the model compares their values, since no two requests have equal
-- ones. What rand.Intn, time.Now and the network return are arguments.
--
-- Bounds. A loop of container/heap has as many rounds as its fuel: `up` from the place j has j + 1
-- and `down` among n elements has n: the places on a path in
-- the heap are fewer. All other loops are recursions on a list or on a number of rounds.
--
-- Parameters. The package observer is the record Observer: values come out in the order in which
-- they went in. The encoder labgob is the record Codec: decoding gives back what was encoded.
--
-- Not modelled: the output for debugging and the report of the resource, the copies of labrpc and
-- labgob, the test harness config.go and the tests. A turn is taken to be atomic where the code
-- holds a mutex; wg.Wait and wg.Add of Request belong to its turn, as does wg.Done after
-- releaseResource has unlocked. Of the loops of a Raft server the bodies are modelled, not the
-- sleeping; applyLoop is one turn, and the receiver of chanApply takes every message. Left out
-- of the elections is a broadcast of requests for votes whose server has changed its term before the
-- goroutine reads its arguments, and of the replication a call that is encoded after its entries
-- were cut off the sender's log, and comeToPower in a term that the server has not won.
mod Prelude
pub mod MutualExclusion
pub mod Raft
