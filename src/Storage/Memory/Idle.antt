-- ===== src/Storage/Memory/Idle.antt =====
-- Histories of a memory storage in which one bucket admits nothing.
use tower_rate_tier.Gcra.{RateLimitInfo, RateLimited, check_gcra}
use tower_rate_tier.Gcra.Decision.{current, current_later}
use tower_rate_tier.Prelude.{
  Bool-cases, List, Option-cases, Panics, Result, [], ap, arith, err, false, inl, inr, none, ok,
  refl, some, ℕ, ◌∙◌, ◌∷◌, ◌≡◌, ◌≤◌,
}
use tower_rate_tier.Quota.{Nanos, Quota, burst_offset_nanos, emission_interval_nanos}
use tower_rate_tier.Storage.{StorageKey}
use tower_rate_tier.Storage.DashMap.{DashMap, Key, key_eq, key_eq_iff}
use tower_rate_tier.Storage.Memory.{MemoryStorage, retain_active, store}
use tower_rate_tier.Storage.Memory.Buckets.{bucket, bucket-store, decided, key_of}
use tower_rate_tier.Storage.Memory.Collection.{bucket-retain_active}
use tower_rate_tier.Storage.Memory.Rate.{admits}
use tower_rate_tier.Storage.Memory.Runs.{Op, Served, add_served, check, collect, run, run-check}

-- No answer of the bucket is an admission.
abbrev pub Refuses : Key → List Served → Type 0
Refuses k [] = Unit
Refuses k (s ∷ rs) = (key_of s.key ≡ k → admits s.answer ≡ false) × Refuses k rs

-- No round of the collector is later than `end`.
abbrev pub Until : Nanos → List Op → Type 0
Until end [] = Unit
Until end (collect now ∷ ops) = (now ≤ end) × Until end ops
Until end (check key q cost now ∷ ops) = Until end ops

module _ (d : DashMap) (k : Key) where
  -- A check that is refused, or is of another bucket, leaves the bucket.
  bucket-refused :
      (m : MemoryStorage d) (j : Key) (r : Result (Nanos × RateLimitInfo) RateLimited)
      → (j ≡ k → admits (decided r) ≡ false)
      → bucket d (store d m j r).1 k ≡ bucket d m k
  bucket-refused m j (err l) none_admitted = refl
  bucket-refused m j (ok (t, i)) none_admitted = elim (Bool-cases (key_eq j k)) [
    | inl e ↦ absurd (let h = none_admitted ((key_eq_iff j k).0 e) in cc)
    | inr e ↦ bucket-store d m j k (ok (t, i)) ∙ rw e refl
  ]

  current-retain :
      (end : Nanos) (m : MemoryStorage d) (now : Nanos)
      → now ≤ end
      → current (bucket d (retain_active d m now) k) end ≡ current (bucket d m k) end
  current-retain end m now early = omega (
    arith,
    bucket-retain_active d m now k,
    current_later (bucket d (retain_active d m now) k) now end early,
    current_later (bucket d m k) now end early,
  )

  add_served-some :
      (s : Served) (p : Panics (List Served × MemoryStorage d)) (rs : List Served)
      (m : MemoryStorage d)
      → add_served d s p ≡ some (rs, m)
      → (ss : List Served) × (p ≡ some (ss, m)) × (rs ≡ s ∷ ss)
  add_served-some s none rs m e = cc
  add_served-some s (some (ss, n)) rs m e = (ss, ground arith, ground arith)

  run-check-parts :
      (m : MemoryStorage d) (key : StorageKey) (q : Quota) (cost : ℕ) (now : Nanos) (ops : List Op)
      (rs : List Served) (m2 : MemoryStorage d)
      → run d m (check key q cost now ∷ ops) ≡ some (rs, m2)
      → (r : Result (Nanos × RateLimitInfo) RateLimited) × (ss : List Served) × (check_gcra
            (bucket d m (key_of key))
            now
            (emission_interval_nanos q)
            (burst_offset_nanos q)
            cost
          ≡ some r)
        × (run d (store d m (key_of key) r).1 ops ≡ some (ss, m2))
        × (rs ≡ record { key = key; cost = cost; answer = decided r } ∷ ss)
  run-check-parts m key q cost now ops rs m2 e =
      elim (Option-cases (
        check_gcra (bucket d m (key_of key)) now (emission_interval_nanos q) (burst_offset_nanos q)
          cost)) [
            | inl g ↦ let h = rw (run-check d m key q cost now ops, g) at e in cc
            | inr (r, g) ↦
                let h = rw (run-check d m key q cost now ops, g) at e in
                let (ss, f, a) =
                  add_served-some _ (run d (store d m (key_of key) r).1 ops) rs m2 h in
                (r, ss, g, f, a)
          ]

  -- However many checks of a bucket are refused, however many of other buckets are made, and
  -- whatever the collector drops by then, the bucket is the same at the end.
  pub run-current :
      (end : Nanos) (ops : List Op) (m : MemoryStorage d) (rs : List Served) (m2 : MemoryStorage d)
      → Until end ops
      → run d m ops ≡ some (rs, m2)
      → Refuses k rs
      → current (bucket d m2 k) end ≡ current (bucket d m k) end
  unfolding run
  run-current end [] m rs m2 until e refuses = let same : m2 ≡ m = ground arith in rw same refl
  run-current end (collect now ∷ ops) m rs m2 until e refuses =
      run-current end ops (retain_active d m now) rs m2 until.1 e refuses
      ∙ current-retain end m now until.0
  run-current end (check key q cost now ∷ ops) m rs m2 until e refuses =
      let (r, ss, g, f, answers_eq) = run-check-parts m key q cost now ops rs m2 e in
      let (spared, others) = rw answers_eq at refuses in
      run-current end ops (store d m (key_of key) r).1 ss m2 until f others
      ∙ ap (λ b. current b end) (bucket-refused m (key_of key) r spared)
