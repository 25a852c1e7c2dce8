-- ===== src/Raft/Tests/Rounds.antt =====
-- A leader and a follower with another entry in its log.
use distributed_algorithms.Prelude.{
  ℕ, zero, suc, ◌≤◌, ◌<◌, ◌≡◌, refl, ◌≢◌, ◌⊎◌, some, [], ◌∷◌, arith, get_elem?,
}
use distributed_algorithms.Raft.Server.{LogEntry, Saved, Raft, follower}
use distributed_algorithms.Raft.Run.{ok, panic, blocked, capacity}
use distributed_algorithms.Raft.Server.Log.{IsRange}
use distributed_algorithms.Raft.AppendEntries.{AppendEntriesReply, append_entries, find_conflict}
use distributed_algorithms.Raft.AppendEntries.Outcome.{append_entries_matching}
use distributed_algorithms.Raft.AppendEntries.Repeat.{IsRepeated, repeated_message}
use distributed_algorithms.Raft.AppendEntries.Search.{after_other, find_conflict_lem}
use distributed_algorithms.Raft.AppendEntries.Backoff.{IsTermed}
use distributed_algorithms.Raft.AppendEntries.Total.{append_entries_total}
use distributed_algorithms.Raft.Leader.Sync.{AreMatching, IsOpen, IsSynced, followers_catch_up}
use distributed_algorithms.Raft.Tests.{
  new-IsRange, message-Matches, entry, server, message, plain, three, three-IsLog, three-IsTermed,
  astray, astray-IsLog, sender, receiver,
}

astray-IsTermed : IsTermed astray
astray-IsTermed = record { first = λ e h. ground arith; later = later }
  where
    later : (i : ℕ) (e : LogEntry ℕ) → 0 < i → get_elem? astray i ≡ some e → 0 < e.log_term
    later zero e p h = absurd (omega arith)
    later (suc zero) e p h = ground arith
    later (suc (suc zero)) e p h = ground arith
    later (suc (suc (suc i))) e p h = absurd (ground arith)

astray-AreMatching : AreMatching astray three
astray-AreMatching zero x y a b e = refl
astray-AreMatching (suc zero) x y a b e = refl
astray-AreMatching (suc (suc zero)) x y a b e = absurd (ground arith)
astray-AreMatching (suc (suc (suc i))) x y a b e = absurd (ground arith)

-- The leader takes the follower for one that has all of the log.
abbrev hopeful : Raft ℕ (Saved ℕ)
hopeful = record sender { next_index = λ i. 3 }

receiver-IsOpen : IsOpen plain 1 hopeful receiver
receiver-IsOpen = record {
  made = refl;
  log = astray-IsLog;
  terms = astray-IsTermed;
  matching = astray-AreMatching;
  fresh = omega arith;
  beats = omega arith;
  room = omega arith;
}

followers_catch_up_example :
    (k : ℕ) × (k ≤ 3)
    × ((ld : Raft ℕ (Saved ℕ)) × (fo : Raft ℕ (Saved ℕ)) × IsSynced plain 1 hopeful receiver k ld
          fo)
followers_catch_up_example =
    followers_catch_up plain 1 hopeful receiver three-IsLog three-IsTermed receiver-IsOpen
      (omega arith) (omega arith)

far-IsRange : IsRange 6 (entry 6 2 ∷ [])
far-IsRange zero e h = ground arith
far-IsRange (suc i) e h = absurd (ground arith)

append_entries_total_example :
    (append_entries plain (server follower) (message 5) ≢ panic)
    × (append_entries plain (server follower) (message 5) ≡ blocked
        → (capacity ≤ (server follower).chan_heart_beat)
          ⊎ (capacity ≤ (server follower).chan_commit))
append_entries_total_example =
    append_entries_total plain (server follower) (message 5) three-IsLog three-IsTermed far-IsRange

find_conflict_lem_example : find_conflict three 0 2 3 ≡ ok 2
unfolding after_other
find_conflict_lem_example = find_conflict_lem three 2 3 (omega arith)

-- A message that finds its previous entry, handled once.
handled_once :
    (b : Raft ℕ (Saved ℕ)) × (reply : AppendEntriesReply) × (append_entries plain
        (server follower)
        (message 1)
      ≡ ok (b, reply))
handled_once =
    let (b, reply, v) =
      append_entries_matching plain (server follower) (message 1) three-IsLog new-IsRange
        (omega arith) (omega arith) (omega arith) message-Matches in
    (b, reply, v.returns)

repeated_message_example :
    IsRepeated plain
      (message 1)
      new-IsRange
      handled_once.0
      handled_once.1
      (append_entries plain handled_once.0 (message 1))
repeated_message_example =
    repeated_message plain (message 1) new-IsRange (server follower) handled_once.0 handled_once.1
      three-IsLog three-IsTermed handled_once.2
