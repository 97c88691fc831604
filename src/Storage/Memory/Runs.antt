-- ===== src/Storage/Memory/Runs.antt =====
-- Histories of a memory storage: checks of any buckets, and rounds of the garbage collector.
use tower_rate_tier.Gcra.{RateLimitInfo, RateLimited, check_gcra}
use tower_rate_tier.Gcra.Decision.{current}
use tower_rate_tier.Prelude.{
  ◌>>=◌, List, Option-cases, Panics, Result, [], arith, err, inl, inr, none, ok, refl, some, ℕ, ◌∷◌,
  ◌≡◌, ◌≤◌, ◌≡◌,
}
use tower_rate_tier.Quota.{Nanos, Quota, burst_offset_nanos, emission_interval_nanos}
use tower_rate_tier.Storage.{Decision, StorageKey}
use tower_rate_tier.Storage.DashMap.{DashMap, Key}
use tower_rate_tier.Storage.Memory.{MemoryStorage, check_and_update, retain_active, store}
use tower_rate_tier.Storage.Memory.Buckets.{bucket, check_and_update-eq, decided, key_of}

pub data Op : Type 0 where
  check : StorageKey → Quota → ℕ → Nanos → Op
  collect : Nanos → Op

abbrev pub time : Op → Nanos
time (check key quota cost now) = now
time (collect now) = now

-- The clock that the operations read does not go back, and has reached `t` before them.
abbrev pub Ordered : Nanos → List Op → Type 0
Ordered t [] = Unit
Ordered t (op ∷ ops) = (t ≤ time op) × Ordered (time op) ops

-- A check with its answer.
pub record Served : Type 0 where
  pub key : StorageKey
  pub cost : ℕ
  pub answer : Decision

module _ (d : DashMap) where
  unfoldable pub run : MemoryStorage d → List Op → Panics (List Served × MemoryStorage d)
  run m [] = some ([], m)
  run m (collect now ∷ ops) = run (retain_active d m now) ops
  run m (check key quota cost now ∷ ops) = check_and_update d key quota cost now m >>= λ (r, m').
      run m' ops >>= λ (rs, m''). some (record { key = key; cost = cost; answer = r } ∷ rs, m'')

  abbrev pub answers : Panics (List Served × MemoryStorage d) → Panics (List Served)
  answers none = none
  answers (some (rs, m)) = some rs

  -- Both storages give every bucket the same effective arrival time.
  abbrev pub Agree : Nanos → MemoryStorage d → MemoryStorage d → Type 0
  Agree t m n = (k : Key) → current (bucket d m k) t ≡ current (bucket d n k) t

  abbrev pub add_served :
      Served → Panics (List Served × MemoryStorage d) → Panics (List Served × MemoryStorage d)
  add_served s none = none
  add_served s (some (rs, m)) = some (s ∷ rs, m)

  abbrev pub after_check :
      MemoryStorage d
      → StorageKey
      → ℕ
      → List Op
      → Result (Nanos × RateLimitInfo) RateLimited
      → Panics (List Served × MemoryStorage d)
  after_check m key cost ops r =
      add_served (record { key = key; cost = cost; answer = decided r })
        (run (store d m (key_of key) r).1 ops)

  bind-add_served :
      (s : Served) (p : Panics (List Served × MemoryStorage d))
      → (p >>= λ (rs, m). some (s ∷ rs, m)) ≡ add_served s p
  bind-add_served s none = refl
  bind-add_served s (some (rs, m)) = refl

  pub store-decided :
      (m : MemoryStorage d) (k : Key) (r : Result (Nanos × RateLimitInfo) RateLimited)
      → ◌≡◌ {A = Decision} (ok (store d m k r).0) (decided r)
  store-decided m k (ok (t, i)) = refl
  store-decided m k (err l) = refl

  -- A check of the storage, by the algorithm's result on the bucket.
  pub check-decided :
      (m : MemoryStorage d) (key : StorageKey) (q : Quota) (cost : ℕ) (now : Nanos)
      (r : Result (Nanos × RateLimitInfo) RateLimited)
      → check_gcra
          (bucket d m (key_of key))
          now
          (emission_interval_nanos q)
          (burst_offset_nanos q)
          cost
        ≡ some r
      → check_and_update d key q cost now m ≡ some (decided r, (store d m (key_of key) r).1)
  check-decided m key q cost now r e =
      rw (check_and_update-eq d key q cost now m, e, store-decided m (key_of key) r) refl

  -- A history that starts with a check, by the algorithm's result on the bucket.
  pub run-check :
      (m : MemoryStorage d) (key : StorageKey) (q : Quota) (cost : ℕ) (now : Nanos) (ops : List Op)
      → run m (check key q cost now ∷ ops) ≡ (
          check_gcra
            (bucket d m (key_of key))
            now
            (emission_interval_nanos q)
            (burst_offset_nanos q)
            cost
          >>= after_check m key cost ops)
  unfolding run
  run-check m key q cost now ops =
      rw (check_and_update-eq d key q cost now m)
        (elim (Option-cases (
          check_gcra (bucket d m (key_of key)) now (emission_interval_nanos q)
            (burst_offset_nanos q) cost)) [
              | inl e ↦ rw e
              | inr (r, e) ↦ rw e (
                  rw (← store-decided m (key_of key) r)
                    (bind-add_served _ (run (store d m (key_of key) r).1 ops)))
            ])

  answers-add_served :
      (s : Served) (p : Panics (List Served × MemoryStorage d)) (rs : List Served)
      → answers (add_served s p) ≡ some rs
      → (ss : List Served) × (answers p ≡ some ss) × (rs ≡ s ∷ ss)
  answers-add_served s none rs e = cc
  answers-add_served s (some (ss, m)) rs e = (ss, refl, ground arith)

  added_answers :
      (s : Served) (p : Panics (List Served × MemoryStorage d)) (rs : List Served)
      → answers p ≡ some rs
      → (ss : List Served) × (answers (add_served s p) ≡ some ss)
  added_answers s none rs e = cc
  added_answers s (some (ss, m)) rs e = (s ∷ ss, refl)

  -- The parts of a history that starts with a check and does not panic.
  pub run-check-some :
      (m : MemoryStorage d) (key : StorageKey) (q : Quota) (cost : ℕ) (now : Nanos) (ops : List Op)
      (rs : List Served)
      → answers (run m (check key q cost now ∷ ops)) ≡ some rs
      → (r : Result (Nanos × RateLimitInfo) RateLimited) × (check_gcra
            (bucket d m (key_of key))
            now
            (emission_interval_nanos q)
            (burst_offset_nanos q)
            cost
          ≡ some r)
        × (ss : List Served) × (answers (run (store d m (key_of key) r).1 ops) ≡ some ss)
        × (rs ≡ record { key = key; cost = cost; answer = decided r } ∷ ss)
  run-check-some m key q cost now ops rs e =
      elim (Option-cases (
        check_gcra (bucket d m (key_of key)) now (emission_interval_nanos q) (burst_offset_nanos q)
          cost)) [
            | inl g ↦ let h = rw (run-check m key q cost now ops, g) at e in cc
            | inr (r, g) ↦
                let h = rw (run-check m key q cost now ops, g) at e in
                let (ss, a, b) = answers-add_served _ (run (store d m (key_of key) r).1 ops) rs h in
                (r, g, ss, a, b)
          ]

  pub answered_after :
      (m : MemoryStorage d) (key : StorageKey) (q : Quota) (cost : ℕ) (now : Nanos) (ops : List Op)
      (r : Result (Nanos × RateLimitInfo) RateLimited) (rs : List Served)
      → check_gcra
          (bucket d m (key_of key))
          now
          (emission_interval_nanos q)
          (burst_offset_nanos q)
          cost
        ≡ some r
      → answers (run (store d m (key_of key) r).1 ops) ≡ some rs
      → (ss : List Served) × (answers (run m (check key q cost now ∷ ops)) ≡ some ss)
  answered_after m key q cost now ops r rs g e =
      rw (run-check m key q cost now ops, g)
        (added_answers _ (run (store d m (key_of key) r).1 ops) rs e)
