-- ===== src/Raft/Leader/Commit.antt =====
-- The leader commits up to the last entry that a majority has.
use distributed_algorithms.Prelude.{
  ℕ, zero, suc, ◌+◌, ◌*◌, ◌≤◌, ◌<◌, true, ◌≡◌, ◌⊎◌, inl, inr, refl, not, ◌&&◌, some, ltb, leb, ◌==◌,
  if◌then◌else◌, arith, Bool-cases, ℕ_discrete, length, get_elem?, get_elem?-some,
}
use distributed_algorithms.Raft.Run.{ok}
use distributed_algorithms.Raft.Server.{LogEntry, Raft}
use distributed_algorithms.Raft.Leader.{has_copy, count_copies, scan_commit, commit}

module _ {C B : Type 0} (rf : Raft C B) where
  -- How many of the servers below `n`, without this one, are known to have the entry `idx`.
  pub copies : ℕ → ℕ → ℕ
  copies idx zero = 0
  copies idx (suc id) =
      copies idx id + (if not (id == rf.me) && leb idx (rf.match_index id) then 1 else 0)

  -- The entry `idx` is of the current term and on more than half of the servers, this one counted;
  -- where this server is alone, any entry is.
  pub record IsMajor (idx : ℕ) : Type 0 where
    pub entry : LogEntry C
    pub is_at : get_elem? rf.logs idx ≡ some entry
    pub most :
        rf.peers < 2 * (1 + (if entry.log_term == rf.current_term then copies idx rf.peers else 0))

  count_copies-ok :
      rf.indexed ≡ true
      → (idx n : ℕ) (e : LogEntry C) → get_elem? rf.logs idx ≡ some e
      → count_copies rf 0 idx n
        ≡ ok (1 + (if e.log_term == rf.current_term then copies idx n else 0))
  unfolding count_copies copies has_copy
  count_copies-ok made idx zero e h = ground arith
  count_copies-ok made idx (suc id) e h = ground (arith, h, count_copies-ok made idx id e h)

  -- The best index among the first `k` above the commit index.
  abbrev pub Best : ℕ → ℕ → Type 0
  Best k r =
      ((r ≡ 0) × ((idx : ℕ) → rf.commit_index < idx → idx ≤ rf.commit_index + k → ¬ (IsMajor idx)))
      ⊎ ((rf.commit_index < r)
          × (r ≤ rf.commit_index + k)
          × IsMajor r
          × ((idx : ℕ) → r < idx → idx ≤ rf.commit_index + k → ¬ (IsMajor idx)))

  major_most :
      (idx : ℕ) (e : LogEntry C)
      → get_elem? rf.logs idx ≡ some e
      → IsMajor idx
      → rf.peers < 2 * (1 + (if e.log_term == rf.current_term then copies idx rf.peers else 0))
  major_most idx e h m = ground (arith, h, m.is_at, m.most)

  Best-none : (k r : ℕ) → Best k r → ¬ (IsMajor (rf.commit_index + k + 1)) → Best (suc k) r
  Best-none k r (inl (e, no_major)) no_last = inl (
    e,
    λ idx a b. elim (ℕ_discrete idx (rf.commit_index + k + 1)) [
      | yes q ↦ rw q no_last
      | no q ↦ no_major idx a (omega arith)
    ],
  )
  Best-none k r (inr (a, b, m, no_major)) no_last = inr (
    a,
    omega arith,
    m,
    λ idx c d. elim (ℕ_discrete idx (rf.commit_index + k + 1)) [
      | yes q ↦ rw q no_last
      | no q ↦ no_major idx c (omega arith)
    ],
  )

  pub scan_commit-ok :
      rf.indexed ≡ true
      → (k : ℕ) → rf.commit_index + k < length rf.logs
      → (r : ℕ) × (scan_commit rf 0 k ≡ ok r) × Best k r
  unfolding scan_commit
  scan_commit-ok made zero b = (0, refl, inl (refl, λ idx p q. absurd (omega arith)))
  scan_commit-ok made (suc k) b =
      let (r, f, best) = scan_commit-ok made k (omega arith) in
      let (e, h) = get_elem?-some rf.logs (rf.commit_index + k + 1) (omega arith) in
      let c =
        1
        + (if e.log_term == rf.current_term
            then copies (rf.commit_index + k + 1) rf.peers
            else 0) in
      let g = count_copies-ok made (rf.commit_index + k + 1) rf.peers e h in
      elim (Bool-cases (ltb rf.peers (2 * c))) [
        | inl major ↦ (
          rf.commit_index + k + 1,
          rw (f, g) (rw major),
          inr (
            omega arith,
            omega arith,
            record { entry = e; is_at = h; most = ground arith },
            λ idx p q. absurd (omega arith),
          ),
        )
        | inr minor ↦ (
          r,
          rw (f, g) (rw minor),
          Best-none k r best
              (λ m. absurd (ground (arith, major_most (rf.commit_index + k + 1) e h m))),
        )
      ]

  -- What the leader's commitment does.
  pub record IsCommitted (rf' : Raft C B) : Type 0 where
    pub returns : commit rf ≡ ok rf'
    pub advance :
        (rf'.commit_index ≡ rf.commit_index)
        ⊎ ((rf.commit_index < rf'.commit_index)
            × (rf'.commit_index < length rf.logs)
            × IsMajor rf'.commit_index)
    pub greatest : (idx : ℕ) → rf'.commit_index < idx → idx < length rf.logs → ¬ (IsMajor idx)
    pub same : (rf'.logs ≡ rf.logs) × (rf'.current_term ≡ rf.current_term)
