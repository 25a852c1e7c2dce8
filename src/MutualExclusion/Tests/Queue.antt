-- ===== src/MutualExclusion/Tests/Queue.antt =====
-- Calls of a queue of requests.
use distributed_algorithms.Prelude.{◌≡◌, refl, some, List, [], ◌∷◌}
use distributed_algorithms.MutualExclusion.Timestamp.{Timestamp, less, is_equal}
use distributed_algorithms.MutualExclusion.Timestamp.Least.{less_antisym}
use distributed_algorithms.MutualExclusion.Process.{by_timestamp}
use distributed_algorithms.MutualExclusion.RequestQueue.Refinement.{
  Operation, pushes, removes, asks_min, answers, list_answers, AreNew, answers_lem,
}
use distributed_algorithms.MutualExclusion.Tests.{timestamp-IsLess, empty_queue, blank, early, late}

-- Min of two requests, and again after the first has been released.
abbrev calls : List (Operation Timestamp)
calls = pushes late ∷ pushes early ∷ asks_min ∷ removes early ∷ asks_min ∷ []

calls-AreNew : AreNew by_timestamp [] calls
unfolding is_equal
calls-AreNew = (refl, (refl, tt))

list_answers_of_calls : list_answers by_timestamp [] calls ≡ some (some early ∷ some late ∷ [])
unfolding list_answers less is_equal
list_answers_of_calls = refl

answers_lem_example : answers by_timestamp empty_queue calls ≡ list_answers by_timestamp [] calls
answers_lem_example = answers_lem timestamp-IsLess less_antisym blank calls calls-AreNew
