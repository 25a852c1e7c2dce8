-- ===== src/MutualExclusion/Tests.antt =====
-- Runs of the mutual exclusion algorithm on concrete inputs.
mod Queue
mod Runs
use distributed_algorithms.Prelude.{
  zero, suc, not, ◌&&◌, ◌||◌, ℕ, ◌+◌, ◌≤◌, ◌≡◌, ◌≢◌, ◌⊎◌, refl, Bool, true, false, none, some, List,
  [], ◌∷◌, if◌then◌else◌, arith, update_self, update_other,
}
use distributed_algorithms.MutualExclusion.Heap
use distributed_algorithms.MutualExclusion.Entries
use distributed_algorithms.MutualExclusion.Entries.Operations
use distributed_algorithms.MutualExclusion.Clock.{Clock, max}
use distributed_algorithms.MutualExclusion.Clock
use distributed_algorithms.MutualExclusion.Timestamp.{
  Timestamp, new_timestamp, less, is_equal, is_before,
}
use distributed_algorithms.MutualExclusion.Timestamp.Order.{less_total, less-IsOrder, is_equal_iff}
use distributed_algorithms.MutualExclusion.Message.{Message, request_resource, others, new_message}
use distributed_algorithms.MutualExclusion.ReceivedTime.{
  ReceivedTime, fill, new_received_time, fix_entry, update_time, min_time,
}
use distributed_algorithms.MutualExclusion.ReceivedTime.Latest
use distributed_algorithms.MutualExclusion.ReceivedTime.Latest.{
  latest, IsOther, IsUpdated, new-IsValid, update_other_process, min_time_lem,
}
use distributed_algorithms.MutualExclusion.RequestQueue
use distributed_algorithms.MutualExclusion.RequestQueue.{
  RequestQueue, assign, new_request_queue, allocate, remove_entry,
}
use distributed_algorithms.MutualExclusion.RequestQueue.Contents
use distributed_algorithms.MutualExclusion.RequestQueue.Contents.{
  IsLess, contains, new_request_queue-IsValid, push_lem, min_lem,
}
use distributed_algorithms.MutualExclusion.RequestQueue.Removal.{IsRemoved, remove_waiting}
use distributed_algorithms.MutualExclusion.Resource.{
  Resource, new_resource, last_less, occupy, release, done,
}
use distributed_algorithms.MutualExclusion.Resource.Order.{occupied_in_order}
use distributed_algorithms.MutualExclusion.Process
use distributed_algorithms.MutualExclusion.Process.{
  Observer, by_timestamp, new_process, is_to, is_ack, ignores, hear_time, enqueue_request,
  handle_release_message, is_first, is_satisfied_rule5, occupy_resource, check_rule5, acknowledge,
  announce_release, release_resource_of,
}
use distributed_algorithms.MutualExclusion.System
use distributed_algorithms.MutualExclusion.System.{
  System, Outcome, Action, requests, listens, releases, init, turn, turn_request, turn_next,
  turn_handle, turn_ack, turn_check, turn_listen, turn_release, Reach, start, next,
}
use distributed_algorithms.MutualExclusion.System.Invariant.{request_of, is_occupying}
use distributed_algorithms.MutualExclusion.System.Quiescence.{IsQuiescent, all_served}
use distributed_algorithms.MutualExclusion.System.Termination.Counts.{steps}
use distributed_algorithms.MutualExclusion.System.Termination.Bound.{
  most_messages, most_turns, runs_end,
}
use distributed_algorithms.MutualExclusion.System.Completion.{
  IsComplete, Continues, deadlock_free, reaches_the_end,
}
use distributed_algorithms.MutualExclusion.System.Safety.{
  mutual_exclusion, first_come_first_served, never_panics, requests_distinct,
}

abbrev blank : Timestamp
blank = record { time = 0; process = 0 }

abbrev early : Timestamp
early = record { time = 3; process = 1 }

abbrev late : Timestamp
late = record { time = 3; process = 2 }

less_total_example :
    (((less early late ≡ true) × (is_equal early (some late) ≡ false) × (less late early ≡ false))
      ⊎ (((less early late ≡ false)
            × (is_equal early (some late) ≡ true)
            × (less late early ≡ false))
          ⊎ ((less early late ≡ false)
              × (is_equal early (some late) ≡ false)
              × (less late early ≡ true))))
    × (not (less early late && less late blank) || less early blank ≡ true)
    × (not (is_before early late.time) || less early late ≡ true)
less_total_example = less_total early late blank

timestamp-IsLess : IsLess by_timestamp
timestamp-IsLess = record { order = less-IsOrder; same_iff = is_equal_iff }

abbrev empty_queue : RequestQueue Timestamp
empty_queue = new_request_queue by_timestamp blank

abbrev one_request : RequestQueue Timestamp
one_request = RequestQueue.push by_timestamp empty_queue late

empty_queue_lem : contains empty_queue late ≡ false
unfolding contains new_request_queue
empty_queue_lem = refl

one_request-IsValid : Contents.IsValid by_timestamp one_request
one_request-IsValid =
    (push_lem timestamp-IsLess empty_queue (new_request_queue-IsValid timestamp-IsLess blank) late
      empty_queue_lem).0

early_absent : contains one_request early ≡ false
unfolding contains RequestQueue.push new_request_queue assign is_equal
early_absent = refl

late_waits : contains one_request late ≡ true
unfolding contains RequestQueue.push new_request_queue assign is_equal
late_waits = refl

push_lem_example :
    Contents.IsValid by_timestamp (RequestQueue.push by_timestamp one_request early)
    × ((j : Timestamp)
        → contains (RequestQueue.push by_timestamp one_request early) j
          ≡ (if by_timestamp.same early j then true else contains one_request j))
push_lem_example = push_lem timestamp-IsLess one_request one_request-IsValid early early_absent

min_lem_example :
    ((RequestQueue.min by_timestamp one_request ≡ none)
      × ((k : Timestamp) → contains one_request k ≡ false))
    ⊎ ((m : Timestamp) × (RequestQueue.min by_timestamp one_request ≡ some m)
        × (contains one_request m ≡ true)
        × ((k : Timestamp) → contains one_request k ≡ true → less k m ≡ false))
min_lem_example = min_lem timestamp-IsLess one_request one_request-IsValid

remove_waiting_example :
    (q' : RequestQueue Timestamp) × IsRemoved timestamp-IsLess one_request one_request-IsValid late
      q'
remove_waiting_example =
    remove_waiting timestamp-IsLess one_request one_request-IsValid late late_waits

abbrev times_of_three : ReceivedTime
times_of_three = new_received_time 3 1

new-IsValid_example : Latest.IsValid 3 1 times_of_three × ((p : ℕ) → latest times_of_three p ≡ 0)
new-IsValid_example = new-IsValid 3 1

update_other_process_example :
    (rt : ReceivedTime) × IsUpdated times_of_three (new-IsValid 3 1).0 2 8 rt
update_other_process_example =
    update_other_process times_of_three (new-IsValid 3 1).0 2 8 (omega arith, omega arith)

min_time_lem_example :
    (m : ℕ) × (min_time times_of_three ≡ some m)
    × ((p : ℕ) → IsOther 3 1 p → m ≤ latest times_of_three p)
    × ((p : ℕ) × IsOther 3 1 p × (latest times_of_three p ≡ m))
min_time_lem_example = min_time_lem times_of_three (new-IsValid 3 1).0 0 (omega arith, omega arith)

abbrev held : Resource
held = record (new_resource 2) { occupied_by = some early; timestamps = early ∷ []; times = 5 ∷ [] }

abbrev freed : Resource
freed = record held {
  last_occupied_by = some early;
  occupied_by = none;
  times = 5 ∷ 6 ∷ [];
  wg = 1;
}

abbrev held_again : Resource
held_again = record freed {
  occupied_by = some late;
  timestamps = early ∷ late ∷ [];
  times = 5 ∷ 6 ∷ 7 ∷ [];
}

first_held : occupy (new_resource 2) early 5 ≡ some held
unfolding new_resource last_less occupy release done less is_equal
first_held = refl

first_freed : release held early 6 ≡ some freed
unfolding new_resource last_less occupy release done less is_equal
first_freed = refl

second_held : occupy freed late 7 ≡ some held_again
unfolding new_resource last_less occupy release done less is_equal
second_held = refl

occupied_in_order_example :
    (less early late ≡ true) × (occupy held late 7 ≡ none) × (release held late 6 ≡ none)
occupied_in_order_example =
    occupied_in_order (new_resource 2) held freed held_again early late 5 6 7 first_held first_freed
      second_held
