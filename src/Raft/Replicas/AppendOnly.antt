-- ===== src/Raft/Replicas/AppendOnly.antt =====
-- The log of a server in the term in which it was elected (raft-AppendEntries.go, and Start of
-- raft-API.go), from one state of the servers to a later one.
use distributed_algorithms.Prelude.{
  IsPrefix, IsPrefix-trans, ℕ, ◌≤◌, ◌≡◌, sym, ◌∙◌, true, arith, take_all,
}
use distributed_algorithms.Raft.Server.{Codec}
use distributed_algorithms.Raft.Replicas.{Replicas, Event, History, goes_on}
use distributed_algorithms.Raft.Replicas.Matching.{
  Event-Remembers, History-Reach, History-IsConsistent,
}
use distributed_algorithms.Raft.Replicas.Bounded.{Event-IsGrown}
use distributed_algorithms.Raft.Replicas.Inside.{History-IsBounded}

module _ {C B : Type 0} (codec : Codec C B) (z : C) (n : ℕ) where
  -- The states that can follow the state `s`.
  pub data Later (s : Replicas C B) : Replicas C B → Type 0 where
    stays : Later s s
    onward : {t u : Replicas C B} → Later s t → Event codec z n t u → Later s u

  later-History : (s t : Replicas C B) → History codec z n s → Later s t → History codec z n t
  later-History s _ r stays = r
  later-History s u r (onward {t = t} l e) = goes_on (later-History s t r l) e

  module _ (s : Replicas C B) (r : History codec z n s) (i : ℕ) where
    abbrev term : ℕ
    term = (s.cluster i).server.current_term

    -- What is known of a later state.
    record IsLater (t : Replicas C B) : Type 0 where
      terms : term ≤ (t.cluster i).server.current_term
      elected : (s.cluster i).elected term ≡ true → (t.cluster i).elected term ≡ true
      log :
          (s.cluster i).elected term ≡ true
          → (t.cluster i).server.current_term ≡ term
          → IsPrefix (s.cluster i).server.logs (t.cluster i).server.logs

    later-IsLater : (t : Replicas C B) → Later s t → IsLater t
    later-IsLater t stays = record {
      terms = omega arith;
      elected = λ h. h;
      log = λ h e. take_all (s.cluster i).server.logs;
    }
    later-IsLater u (onward {t = t} l e) =
        let v = later-IsLater t l in
        let q = later-History s t r l in
        let g =
          Event-IsGrown codec z n t (History-Reach codec z n t q)
            (History-IsConsistent codec z n t q) (History-IsBounded codec z n t q) u e i in
        record {
          terms = omega (arith, v.terms, g.0.0);
          elected = λ h. Event-Remembers codec z n t u e i term (v.elected h);
          log = λ h same.
              let before : (t.cluster i).server.current_term ≡ term =
                omega (arith, v.terms, g.0.0) in
              IsPrefix-trans (s.cluster i).server.logs (t.cluster i).server.logs
                (u.cluster i).server.logs (v.log h before)
                (g.0.1 (rw before (v.elected h)) (same ∙ sym before));
        }

    -- From a state that servers reach, under the conditions of log_matching, to any later one: a
    -- server that was elected in its term, and is still in that term, has kept its whole log and has
    -- at most put entries behind it, crashes and restarts included.
    pub append_only :
        (t : Replicas C B)
        → Later s t
        → (s.cluster i).elected term ≡ true
        → (t.cluster i).server.current_term ≡ term
        → IsPrefix (s.cluster i).server.logs (t.cluster i).server.logs
    append_only t l = (later-IsLater t l).log
