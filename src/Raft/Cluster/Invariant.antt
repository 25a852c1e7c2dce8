-- ===== src/Raft/Cluster/Invariant.antt =====
-- What holds in every state of several servers: whom each server has voted for in each term, and
-- what the calls and the counts of the candidates say of it.
use distributed_algorithms.Prelude.{
  ℕ, ◌+◌, ◌*◌, ◌≤◌, ◌<◌, ◌≡◌, ◌≢◌, ◌⊎◌, inl, inr, ◌∙◌, Bool, true, false, Option, none, some, ◌==◌,
  if◌then◌else◌, arith, Option-cases, update, update_other, update_all, sum, sum-le,
}
use distributed_algorithms.Raft.Server.{Codec, Raft}
use distributed_algorithms.Raft.Steps.Bound.{IsBound}
use distributed_algorithms.Raft.Steps.OneVote.{Stored}
use distributed_algorithms.Raft.Cluster.{Call, absent, sent, answered, closed, Node, Cluster}
use distributed_algorithms.Raft.Cluster.Local.{SameName}

-- Whom a server has voted for, by server and term.
abbrev pub Ballots : Type 0
Ballots = ℕ → ℕ → Option ℕ

unfoldable pub is_live : Call → Bool
is_live (sent args) = true
is_live (answered args reply) = true
is_live _ = false

unfoldable pub counted : Call → ℕ
counted (closed true) = 1
counted _ = 0

unfoldable pub backs : Option ℕ → ℕ → ℕ
backs none i = 0
backs (some k) i = if k == i then 1 else 0

-- The ballots of a server that has come to its current term.
unfoldable pub cast : {C B : Type 0} → (ℕ → Option ℕ) → Raft C B → ℕ → Option ℕ
cast b rf T = if T == rf.current_term then rf.voted_for else b T

abbrev pub IsGrown : Ballots → Ballots → Type 0
IsGrown b b' = (k T v : ℕ) → b k T ≡ some v → b' k T ≡ some v

-- The call of server `i` to server `j` in the term `T`.
abbrev pub IsCall : Ballots → ℕ → ℕ → ℕ → ℕ → Call → Type 0
IsCall b n i j T absent = Unit
IsCall b n i j T (sent args) = (args.term ≡ T) × (args.candidate_id ≡ i) × (j ≢ i)
IsCall b n i j T (answered args reply) =
    (args.term ≡ T) × (j ≢ i) × (reply.vote_granted ≡ true → b j T ≡ some i)
IsCall b n i j T (closed true) = (j ≢ i) × (b j T ≡ some i)
IsCall b n i j T (closed false) = Unit

abbrev pub IsUnused : Call → Type 0
IsUnused call = (is_live call ≡ false) × (counted call ≡ 0)

module _ {C B : Type 0} (codec : Codec C B) where
  -- Server `i` counts no votes in its term, or it has voted for itself and counts itself and those
  -- whose votes have come in.
  abbrev pub IsRunning : ℕ → ℕ → Ballots → Node C B → Type 0
  IsRunning n i b x =
      ((x.election ≢ some x.server.current_term)
        × ((j : ℕ) → is_live (x.calls j x.server.current_term) ≡ false))
      ⊎ ((b i x.server.current_term ≡ some i)
          × (x.server.vote_count ≡ sum n (λ j. counted (x.calls j x.server.current_term)) + 1))

  pub record IsNode (n i : ℕ) (b : Ballots) (x : Node C B) : Type 0 where
    pub stored : Stored codec x.server
    pub me : x.server.me ≡ i
    pub peers : x.server.peers ≡ n
    pub current : b i x.server.current_term ≡ x.server.voted_for
    pub later : (T : ℕ) → x.server.current_term < T → b i T ≡ none
    pub opened : (T : ℕ) → x.election ≡ some T → T ≤ x.server.current_term
    pub unheard : (T : ℕ) → x.election ≡ some T → (j : ℕ) → IsUnused (x.calls j T)
    pub future : (T : ℕ) → x.server.current_term < T → (j : ℕ) → IsUnused (x.calls j T)
    pub running : IsRunning n i b x
    pub call : (j T : ℕ) → IsCall b n i j T (x.calls j T)
    pub won : (T : ℕ) → x.elected T ≡ true → n < 2 * sum n (λ j. backs (b j T) i)

  -- Ballots that grow, and that stay for the server itself.
  IsCall-grown :
      (n i j T : ℕ) (b b' : Ballots) (call : Call)
      → IsGrown b b'
      → IsCall b n i j T call
      → IsCall b' n i j T call
  IsCall-grown n i j T b b' absent g c = c
  IsCall-grown n i j T b b' (sent args) g c = c
  IsCall-grown n i j T b b' (answered args reply) g c = (c.0, c.1, λ h. g j T i (c.2 h))
  IsCall-grown n i j T b b' (closed true) g c = (c.0, g j T i c.1)
  IsCall-grown n i j T b b' (closed false) g c = c

  backs-grown : (b b' : Ballots) → IsGrown b b' → (i j T : ℕ) → backs (b j T) i ≤ backs (b' j T) i
  unfolding backs
  backs-grown b b' g i j T = elim (Option-cases (b j T)) [
    | inl e ↦ ground (arith, e)
    | inr (k, e) ↦ ground (arith, e, g j T k e)
  ]

  pub IsNode-grown :
      (n i : ℕ) (b b' : Ballots) (x : Node C B)
      → IsGrown b b'
      → b' i ≡ b i
      → IsNode n i b x
      → IsNode n i b' x
  IsNode-grown n i b b' x g e v = record {
    stored = v.stored;
    me = v.me;
    peers = v.peers;
    current = cc (e, v.current);
    later = λ T h. cc (e, v.later T h);
    opened = v.opened;
    unheard = v.unheard;
    future = v.future;
    running = elim v.running [
      | inl idle ↦ inl idle
      | inr runs ↦ inr (g i x.server.current_term i runs.0, runs.1)
    ];
    call = λ j T. IsCall-grown n i j T b b' (x.calls j T) g (v.call j T);
    won = λ T h. omega (
      arith,
      v.won T h,
      sum-le n (λ j. backs (b j T) i) (λ j. backs (b' j T) i) (λ j c. backs-grown b b' g i j T),
    );
  }

  cast-IsGrown :
      (n i : ℕ) (b : Ballots) (x : Node C B) (rf : Raft C B)
      → IsNode n i b x
      → IsBound codec x.server rf
      → IsGrown b (update b i (cast (b i) rf))
  unfolding cast
  cast-IsGrown n i b x rf v bound k T a e = let w = v.current in let u = v.later T in ground arith

  -- A server comes to a state in which no vote of its term is lost.
  pub server-moves :
      (n : ℕ) (b : Ballots) (c : Cluster C B)
      → ((k : ℕ) → IsNode n k b (c k))
      → (i : ℕ) (y : Node C B) → IsBound codec (c i).server y.server
      → (IsGrown b (update b i (cast (b i) y.server))
          → IsNode n i (update b i (cast (b i) y.server)) y)
      → (k : ℕ) → IsNode n k (update b i (cast (b i) y.server)) (update c i y k)
  server-moves n b c v i y bound own k =
      let g = cast-IsGrown n i b (c i) y.server (v i) bound in
      update_all (λ k. IsNode n k (update b i (cast (b i) y.server))) c i y (own g) k
        (λ ne. IsNode-grown n k b _ (c k) g (update_other b i k _ ne) (v k))

  runs_on :
      (n i : ℕ) (b b' : Ballots) (x : Node C B) (rf : Raft C B)
      → IsNode n i b x
      → IsBound codec x.server rf
      → (rf.current_term ≡ x.server.current_term → rf.vote_count ≡ x.server.vote_count)
      → IsGrown b b'
      → IsRunning n i b' (record x { server = rf })
  runs_on n i b b' x rf v (inl lt) count g = inl (
    λ e. absurd (omega (arith, v.opened rf.current_term e)),
    λ j. (v.future rf.current_term lt j).0,
  )
  runs_on n i b b' x rf v (inr (e, w)) count g = elim v.running [
    | inl idle ↦
        let still : (x.election ≢ some rf.current_term)
            × ((j : ℕ) → is_live (x.calls j rf.current_term) ≡ false) =
          rw e idle in
        inl still
    | inr runs ↦
        let still : (b i rf.current_term ≡ some i)
            × (x.server.vote_count ≡ sum n (λ j. counted (x.calls j rf.current_term)) + 1) =
          rw e runs in
        inr (g i rf.current_term i still.0, count e ∙ still.1)
  ]

  -- The server alone moves, and its count of votes stays unless the term rises.
  pub server-IsNode :
      (n i : ℕ) (b : Ballots) (x : Node C B) (rf : Raft C B)
      → IsNode n i b x
      → IsBound codec x.server rf
      → Stored codec rf
      → SameName x.server rf
      → (rf.current_term ≡ x.server.current_term → rf.vote_count ≡ x.server.vote_count)
      → let b' = update b i (cast (b i) rf) in
        IsGrown b b' → IsNode n i b' (record x { server = rf })
  unfolding cast
  server-IsNode n i b x rf v bound stored name count g =
      let b' = update b i (cast (b i) rf) in
      record {
        stored = stored;
        me = ground (arith, v.me);
        peers = ground (arith, v.peers);
        current = ground arith;
        later = λ T h. ground (arith, v.later T);
        opened = λ T h. ground (arith, v.opened T h);
        unheard = v.unheard;
        future = λ T h. v.future T (ground arith);
        running = runs_on n i b b' x rf v bound count g;
        call = λ j T. IsCall-grown n i j T b b' (x.calls j T) g (v.call j T);
        won = λ T h. omega (
          arith,
          v.won T h,
          sum-le n (λ j. backs (b j T) i) (λ j. backs (b' j T) i) (λ j c. backs-grown b b' g i j T),
        );
      }
