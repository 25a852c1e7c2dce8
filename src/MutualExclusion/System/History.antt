-- ===== src/MutualExclusion/System/History.antt =====
-- What holds of the messages broadcast so far, and that each new message keeps it.
use distributed_algorithms.Prelude.{ℕ, ◌≤◌, ◌<◌, ◌≡◌, ◌⊎◌, inl, inr, subst, arith, dec_lt}
use distributed_algorithms.MutualExclusion.Timestamp.{Timestamp}
use distributed_algorithms.MutualExclusion.Message.{request_resource, release_resource, Message}
use distributed_algorithms.MutualExclusion.Process.{Observer}

module _ (o : Observer) where
  open o use {Property, sent, value, update, sent-update, value_old, value_new}

  -- A request, or a release, of `ts` is the k-th message.
  abbrev pub IsRequest : Property → ℕ → Timestamp → Type 0
  IsRequest h k ts = ((value h k).msg_type ≡ request_resource) × ((value h k).timestamp ≡ ts)

  abbrev pub IsRelease : Property → ℕ → Timestamp → Type 0
  IsRelease h k ts = ((value h k).msg_type ≡ release_resource) × ((value h k).timestamp ≡ ts)

  abbrev pub Requested : Property → ℕ → Timestamp → Type 0
  Requested h b ts = (k : ℕ) × (k < b) × IsRequest h k ts

  abbrev pub Unreleased : Property → ℕ → Timestamp → Type 0
  Unreleased h b ts = (k : ℕ) → k < b → ¬ (IsRelease h k ts)

  pub record IsHistory (n : ℕ) (h : Property) : Type 0 where
    pub senders : (k : ℕ) → k < sent h → (value h k).from < n
    pub ordered :
        (j k : ℕ)
        → j < k
        → k < sent h
        → (value h j).from ≡ (value h k).from
        → (value h j).msg_time < (value h k).msg_time
    pub requests :
        (k : ℕ) (ts : Timestamp)
        → k < sent h
        → IsRequest h k ts
        → (ts.process ≡ (value h k).from) × (ts.time ≡ (value h k).msg_time)
    pub releases :
        (k : ℕ) (ts : Timestamp)
        → k < sent h
        → IsRelease h k ts
        → (ts.process ≡ (value h k).from) × Requested h k ts × Unreleased h k ts

  -- What a new message owes to those before it.
  pub record IsNext (n : ℕ) (h : Property) (m : Message) : Type 0 where
    pub sender : m.from < n
    pub later : (k : ℕ) → k < sent h → (value h k).from ≡ m.from → (value h k).msg_time < m.msg_time
    pub request :
        m.msg_type ≡ request_resource
        → (m.timestamp.process ≡ m.from) × (m.timestamp.time ≡ m.msg_time)
    pub release :
        m.msg_type ≡ release_resource
        → (m.timestamp.process ≡ m.from)
          × Requested h (sent h) m.timestamp
          × Unreleased h (sent h) m.timestamp

  module _ (h : Property) (m : Message) where
    abbrev grown : Property
    grown = update h m

    pub value_cases :
        (k : ℕ)
        → k < sent grown
        → ((k < sent h) × (value grown k ≡ value h k)) ⊎ ((k ≡ sent h) × (value grown k ≡ m))
    value_cases k b = elim (dec_lt k (sent h)) [
      | yes old ↦ inl (old, value_old h m k old)
      | no new ↦
          let e : k ≡ sent h = omega (arith, sent-update h m) in inr (e, rw e (value_new h m))
    ]

    pub Requested-grow :
        (b : ℕ) (ts : Timestamp) → b ≤ sent h → Requested h b ts → Requested grown b ts
    Requested-grow b ts le (k, lt, r) = (k, lt, rw (value_old h m k (omega arith)) r)

    pub Unreleased-grow :
        (b : ℕ) (ts : Timestamp) → b ≤ sent h → Unreleased h b ts → Unreleased grown b ts
    Unreleased-grow b ts le u k lt r = u k lt (rw (value_old h m k (omega arith)) at r)

    pub Requested-shrink :
        (b : ℕ) (ts : Timestamp) → b ≤ sent h → Requested grown b ts → Requested h b ts
    Requested-shrink b ts le (k, lt, r) = (k, lt, rw (value_old h m k (omega arith)) at r)

    pub Unreleased-shrink :
        (b : ℕ) (ts : Timestamp) → b ≤ sent h → Unreleased grown b ts → Unreleased h b ts
    Unreleased-shrink b ts le u k lt r = u k lt (rw (value_old h m k (omega arith)) r)

    module _ {n : ℕ} (v : IsHistory n h) (new : IsNext n h m) where
      grown_senders : (k : ℕ) → k < sent grown → (value grown k).from < n
      grown_senders k b = elim (value_cases k b) [
        | inl (old, e) ↦ rw e (v.senders k old)
        | inr (_, e) ↦ rw e new.sender
      ]

      grown_ordered :
          (j k : ℕ)
          → j < k
          → k < sent grown
          → (value grown j).from ≡ (value grown k).from
          → (value grown j).msg_time < (value grown k).msg_time
      grown_ordered j k lt b f = elim (value_cases k b) [
        | inl (old, e) ↦ ground (arith, e, value_old h m j (omega arith), v.ordered j k lt old)
        | inr (last, e) ↦
            ground (arith, e, value_old h m j (omega arith), new.later j (omega arith))
      ]

      grown_requests :
          (k : ℕ) (ts : Timestamp)
          → k < sent grown
          → IsRequest grown k ts
          → (ts.process ≡ (value grown k).from) × (ts.time ≡ (value grown k).msg_time)
      grown_requests k ts b r = elim (value_cases k b) [
        | inl (old, e) ↦ rw e (v.requests k ts old (rw e at r))
        | inr (last, e) ↦ ground (arith, e, new.request)
      ]

      grown_releases :
          (k : ℕ) (ts : Timestamp)
          → k < sent grown
          → IsRelease grown k ts
          → (ts.process ≡ (value grown k).from) × Requested grown k ts × Unreleased grown k ts
      grown_releases k ts b r = elim (value_cases k b) [
        | inl (old, e) ↦
            let (p, q, u) = v.releases k ts old (rw e at r) in
            (rw e p, Requested-grow k ts (omega arith) q, Unreleased-grow k ts (omega arith) u)
        | inr (last, e) ↦
            let t : m.msg_type ≡ release_resource = rw e at r.0 in
            let s : m.timestamp ≡ ts = rw e at r.1 in
            let (p, q, u) = new.release t in
            (
              ground (arith, e, s, p),
              rw last (Requested-grow (sent h) ts (omega arith) (subst (Requested h (sent h)) s q)),
              rw last
                  (Unreleased-grow (sent h) ts (omega arith) (subst (Unreleased h (sent h)) s u)),
            )
      ]

      -- A message that follows on the history keeps it.
      pub grow-IsHistory : IsHistory n grown
      grow-IsHistory = record {
        senders = grown_senders;
        ordered = grown_ordered;
        requests = grown_requests;
        releases = grown_releases;
      }
