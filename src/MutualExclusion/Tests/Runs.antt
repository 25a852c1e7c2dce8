-- ===== src/MutualExclusion/Tests/Runs.antt =====
-- Runs of two processes.
use distributed_algorithms.Prelude.{
  zero, suc, ℕ, ◌+◌, ◌≤◌, ◌<◌, ◌≡◌, ◌≢◌, ◌⊎◌, refl, Bool, true, false, none, some, List, [], ◌∷◌,
  if◌then◌else◌, arith, update, update_self, update_other,
}
use distributed_algorithms.MutualExclusion.Heap
use distributed_algorithms.MutualExclusion.Entries
use distributed_algorithms.MutualExclusion.Entries.Operations
use distributed_algorithms.MutualExclusion.Clock.{Clock, max, new_clock, tick, now}
use distributed_algorithms.MutualExclusion.Clock
use distributed_algorithms.MutualExclusion.Timestamp.{
  Timestamp, new_timestamp, less, is_equal, is_before,
}
use distributed_algorithms.MutualExclusion.Message.{Message, request_resource, others, new_message}
use distributed_algorithms.MutualExclusion.ReceivedTime.{
  fill, new_received_time, fix_entry, update_time, min_time,
}
use distributed_algorithms.MutualExclusion.RequestQueue
use distributed_algorithms.MutualExclusion.RequestQueue.{
  RequestQueue, assign, new_request_queue, allocate, remove_entry,
}
use distributed_algorithms.MutualExclusion.Resource.{new_resource, last_less, occupy, release, done}
use distributed_algorithms.MutualExclusion.Process
use distributed_algorithms.MutualExclusion.Process.{
  Observer, by_timestamp, new_process, is_to, is_ack, ignores, hear_time, enqueue_request,
  handle_release_message, is_first, is_satisfied_rule5, occupy_resource, check_rule5, acknowledge,
  announce_release, release_resource_of,
}
use distributed_algorithms.MutualExclusion.System
use distributed_algorithms.MutualExclusion.System.{
  System, Outcome, Action, requests, listens, releases, init, turn, turn_request, turn_next,
  turn_handle, turn_ack, turn_check, turn_listen, turn_release, Reach, start, next,
}
use distributed_algorithms.MutualExclusion.System.Invariant.{request_of, is_occupying}
use distributed_algorithms.MutualExclusion.System.Quiescence.{IsQuiescent, all_served}
use distributed_algorithms.MutualExclusion.System.Termination.Counts.{steps}
use distributed_algorithms.MutualExclusion.System.Termination.Bound.{
  most_messages, most_turns, runs_end,
}
use distributed_algorithms.MutualExclusion.System.Completion.{
  IsComplete, Continues, deadlock_free, reaches_the_end,
}
use distributed_algorithms.MutualExclusion.System.Safety.{
  mutual_exclusion, first_come_first_served, never_panics, requests_distinct,
}
use distributed_algorithms.MutualExclusion.Tests.{blank}

-- A property that keeps all values by their number.
abbrev memory : Observer
memory = record {
  Property = ℕ × (ℕ → Message);
  empty = (0, λ k. new_message request_resource 0 0 others blank);
  update = λ (n, f) m. (n + 1, update f n m);
  sent = λ (n, f). n;
  value = λ (n, f). f;
  sent-empty = refl;
  sent-update = λ p m. refl;
  value_old = λ (n, f) m k lt. update_other f n k m (omega arith);
  value_new = λ (n, f) m. update_self f n m;
}

abbrev after : System memory → Outcome (System memory) → System memory
after s (System.done t) = t
after s System.blocked = s
after s System.panic = s

-- The state after these turns of two processes; a turn that blocks changes nothing.
abbrev play : System memory → List (Bool × Action) → System memory
play s [] = s
play s ((second, a) ∷ rest) = play (after s (turn memory s (if second then 1 else 0) a 0)) rest

abbrev first_state : System memory
first_state = init memory 2 2 (λ i. 0)

after-Reach :
    (s : System memory)
    → Reach memory 2 2 (λ i. 0) s
    → (i : ℕ) (a : Action) → i < 2
    → (x : Outcome (System memory)) → turn memory s i a 0 ≡ x
    → Reach memory 2 2 (λ i. 0) (after s x)
after-Reach s r i a b (System.done t) e = next r i a 0 b e
after-Reach s r i a b System.blocked e = r
after-Reach s r i a b System.panic e = r

play-Reach :
    (turns : List (Bool × Action)) (s : System memory)
    → Reach memory 2 2 (λ i. 0) s
    → Reach memory 2 2 (λ i. 0) (play s turns)
play-Reach [] s r = r
play-Reach ((true, a) ∷ rest) s r = play-Reach rest _ (after-Reach s r 1 a (omega arith) _ refl)
play-Reach ((false, a) ∷ rest) s r = play-Reach rest _ (after-Reach s r 0 a (omega arith) _ refl)

-- Both processes request, process 1 hears of it, and process 0 takes the resource.
abbrev turns : List (Bool × Action)
turns =
    (false, requests)
    ∷ (true, requests)
    ∷ (true, listens)
    ∷ (true, listens)
    ∷ (true, listens)
    ∷ (true, listens)
    ∷ (false, listens)
    ∷ (false, listens)
    ∷ (false, listens)
    ∷ (false, listens)
    ∷ (false, listens)
    ∷ (false, listens)
    ∷ (false, listens)
    ∷ (false, listens)
    ∷ []

abbrev taken : System memory
taken = play first_state turns

taken-Reach : Reach memory 2 2 (λ i. 0) taken
taken-Reach = play-Reach turns first_state start

-- Turns of all goroutines, again and again.
abbrev rounds : ℕ → List (Bool × Action)
rounds zero = []
rounds (suc k) =
    (false, listens) ∷ (true, listens) ∷ (false, releases) ∷ (true, releases) ∷ rounds k

-- Both occupations are over.
abbrev finished : System memory
finished = play taken (rounds 20)

finished-Reach : Reach memory 2 2 (λ i. 0) finished
finished-Reach = play-Reach (rounds 20) taken taken-Reach

taken_run :
    (is_occupying (taken.nodes 0) ≡ true)
    × (memory.sent taken.prop ≡ 4)
    × ((memory.value taken.prop 0).msg_type ≡ request_resource)
    × ((memory.value taken.prop 1).msg_type ≡ request_resource)
    × (turn memory finished 0 listens 0 ≡ System.blocked)
    × (turn memory finished 0 releases 0 ≡ System.blocked)
    × (turn memory finished 1 listens 0 ≡ System.blocked)
    × (turn memory finished 1 releases 0 ≡ System.blocked)
    × (finished.resource.wg ≡ 0)
unfolding init turn turn_request turn_next turn_handle turn_ack turn_check turn_listen turn_release
    new_process ignores is_to is_ack hear_time enqueue_request handle_release_message is_first
    is_satisfied_rule5 occupy_resource check_rule5 acknowledge announce_release release_resource_of
    Process.request new_resource last_less occupy release done new_request_queue RequestQueue.min
    allocate assign RequestQueue.push remove_entry RequestQueue.remove fill new_received_time
    fix_entry update_time min_time less is_equal is_before new_timestamp new_clock max Clock.update
    tick now Entries.swap Entries.push Entries.pop Entries.write Operations.heap_push
    Operations.heap_remove Operations.heap_fix Heap.up_loop Heap.up Heap.child Heap.down_loop
    Heap.down Heap.settle Heap.fix Heap.remove
taken_run = (refl, refl, refl, refl, refl, refl, refl, refl, refl)

mutual_exclusion_example : ◌≡◌ {A = ℕ} 0 0
mutual_exclusion_example =
    mutual_exclusion memory taken-Reach 0 0 (omega arith) (omega arith) taken_run.0 taken_run.0

first_come_first_served_example :
    (ts : Timestamp) × (request_of (taken.nodes 0) ≡ some ts)
    × (taken.resource.occupied_by ≡ some ts)
    × ((j : ℕ) (us : Timestamp)
        → j < 2
        → j ≢ 0
        → request_of (taken.nodes j) ≡ some us
        → less ts us ≡ true)
first_come_first_served_example =
    first_come_first_served memory taken-Reach 0 (omega arith) taken_run.0

never_panics_example : turn memory taken 0 releases 7 ≢ System.panic
never_panics_example = never_panics memory taken-Reach 0 releases 7 (omega arith)

finished-IsQuiescent : IsQuiescent memory 2 finished
unfolding IsQuiescent
finished-IsQuiescent zero b = (taken_run.4, taken_run.5)
finished-IsQuiescent (suc zero) b = (taken_run.6, taken_run.7)
finished-IsQuiescent (suc (suc i)) b = absurd (omega arith)

all_served_example :
    (request_of (finished.nodes 1) ≡ none) × (is_occupying (finished.nodes 1) ≡ false)
all_served_example =
    all_served memory finished-Reach (omega arith) finished-IsQuiescent 1 (omega arith)

runs_end_example :
    (memory.sent taken.prop ≤ most_messages 2 2) × (steps memory taken-Reach ≤ most_turns 2 2)
runs_end_example = runs_end memory taken-Reach

deadlock_free_example :
    IsComplete memory 2 taken
    ⊎ ((i : ℕ) × (i < 2)
        × ((a : Action) × ((t : System memory) × (turn memory taken i a 0 ≡ System.done t))))
deadlock_free_example = deadlock_free memory (omega arith) taken-Reach

reaches_the_end_example : (u : System memory) × Continues memory 2 taken u × IsComplete memory 2 u
reaches_the_end_example = reaches_the_end memory taken-Reach (omega arith)

requests_distinct_example :
    (memory.value taken.prop 0).timestamp ≢ (memory.value taken.prop 1).timestamp
requests_distinct_example =
    requests_distinct memory taken-Reach 0 1 (omega arith) (omega (arith, taken_run.1)) taken_run.2
      taken_run.3
