-- ===== src/Storage/Memory/Rate.antt =====
-- The rate that a user gets through the memory storage, over any history.
use tower_rate_tier.Gcra.{RateLimitInfo, RateLimited, check_gcra}
use tower_rate_tier.Gcra.Decision.{check_gcra_total, current, current_later}
use tower_rate_tier.Gcra.Retry.{check_gcra-allowed}
use tower_rate_tier.Prelude.{
  ◌*◌, ◌+◌, ◌-◌, ◌<◌, Bool, Bool-cases, List, Option, Result, [], ap, arith, err, false,
  if◌then◌else◌, inl, inr, ok, refl, some, true, u64_max, ℕ, ◌∷◌, ◌≡◌, ◌≤◌,
}
use tower_rate_tier.Quota.{Nanos, Quota, burst_offset_nanos, emission_interval_nanos}
use tower_rate_tier.Quota.Bounds.{IsLimited, emission_pos}
use tower_rate_tier.Storage.{Decision, StorageKey}
use tower_rate_tier.Storage.DashMap.{DashMap, Key, key_eq, key_eq_iff}
use tower_rate_tier.Storage.Memory.{MemoryStorage, retain_active, store}
use tower_rate_tier.Storage.Memory.Buckets.{bucket, bucket-store, decided, key_of, moved}
use tower_rate_tier.Storage.Memory.Collection.{bucket-retain_active}
use tower_rate_tier.Storage.Memory.Runs.{
  Op, Ordered, Served, answered_after, answers, check, collect, run, run-check-some,
}

abbrev pub admits : Decision → Bool
admits (ok (ok i)) = true
admits (ok (err l)) = false
admits (err e) = false

-- What a bucket was charged: the costs of its allowed checks.
abbrev pub charge : Key → Served → ℕ
charge k s = if key_eq (key_of s.key) k then (if admits s.answer then s.cost else 0) else 0

abbrev pub spent : Key → List Served → ℕ
spent k [] = 0
spent k (s ∷ rs) = charge k s + spent k rs

-- No operation is later than `end`, the checks of the bucket use the quota, and all quotas limit.
abbrev pub UsesQuota : Key → Quota → Nanos → List Op → Type 0
UsesQuota k q end [] = Unit
UsesQuota k q end (collect now ∷ ops) = (now ≤ end) × UsesQuota k q end ops
UsesQuota k q end (check key quota cost now ∷ ops) =
    (now ≤ end) × (key_of key ≡ k → quota ≡ q) × IsLimited quota × UsesQuota k q end ops

module _ (d : DashMap) (k : Key) (q : Quota) (v : IsLimited q) where
  abbrev ei : ℕ
  ei = emission_interval_nanos q

  abbrev bo : ℕ
  bo = burst_offset_nanos q

  abbrev level : MemoryStorage d → Nanos → Nanos
  level m now = current (bucket d m k) now

  moved-level :
      (b : Option Nanos) (now cost : ℕ) (r : Result (Nanos × RateLimitInfo) RateLimited)
      → now + bo < u64_max
      → check_gcra b now ei bo cost ≡ some r
      → current b now ≤ now + bo
      → (current (moved b r) now ≡ current b now + ei * (if admits (decided r) then cost else 0))
        × (current (moved b r) now ≤ now + bo)
  moved-level b now cost (ok (t, i)) room e low =
      let (a, c) = check_gcra-allowed b now ei bo cost (emission_pos q v) t i room e in omega arith
  moved-level b now cost (err l) room e low = omega arith

  hit-level :
      (j : Key)
      → j ≡ k
      → (m : MemoryStorage d) (quota : Quota) (now cost : ℕ)
        (r : Result (Nanos × RateLimitInfo) RateLimited)
      → now + bo < u64_max
      → (j ≡ k → quota ≡ q)
      → check_gcra
          (bucket d m j)
          now
          (emission_interval_nanos quota)
          (burst_offset_nanos quota)
          cost
        ≡ some r
      → level m now ≤ now + bo
      → (current (moved (bucket d m j) r) now
          ≡ level m now + ei * (if admits (decided r) then cost else 0))
        × (current (moved (bucket d m j) r) now ≤ now + bo)
  hit-level j p m quota now cost r room same e low =
      let b : bucket d m j ≡ bucket d m k = ap (d.entry m.state) p in
      rw b (moved-level (bucket d m k) now cost r room (rw (← b, ← same p) e) low)

  -- One check of any bucket.
  pub level-store :
      (m : MemoryStorage d) (key : StorageKey) (quota : Quota) (now cost : ℕ)
      (r : Result (Nanos × RateLimitInfo) RateLimited)
      → now + bo < u64_max
      → (key_of key ≡ k → quota ≡ q)
      → check_gcra
          (bucket d m (key_of key))
          now
          (emission_interval_nanos quota)
          (burst_offset_nanos quota)
          cost
        ≡ some r
      → level m now ≤ now + bo
      → (level (store d m (key_of key) r).1 now
          ≡ level m now + ei * charge k (record { key = key; cost = cost; answer = decided r }))
        × (level (store d m (key_of key) r).1 now ≤ now + bo)
  level-store m key quota now cost r room same e low = elim (Bool-cases (key_eq (key_of key) k)) [
    | inl hit ↦
        rw (bucket-store d m (key_of key) k r, hit)
          (hit-level (key_of key) ((key_eq_iff (key_of key) k).0 hit) m quota now cost r room same e
            low)
    | inr miss ↦ rw (bucket-store d m (key_of key) k r, miss) (omega arith)
  ]

  spent_from :
      (t end : Nanos) (m : MemoryStorage d) (ops : List Op) (rs : List Served)
      → t ≤ end
      → end + bo < u64_max
      → Ordered t ops
      → UsesQuota k q end ops
      → level m t ≤ t + bo
      → answers d (run d m ops) ≡ some rs
      → level m t + ei * spent k rs ≤ end + bo
  unfolding run
  spent_from t end m [] rs past room o u low e = ground arith
  spent_from t end m (collect now ∷ ops) rs past room o u low e =
      let a = current_later (bucket d m k) t now o.0 in
      let b = bucket-retain_active d m now k in
      let c = spent_from now end (retain_active d m now) ops rs u.0 room o.1 u.1 (omega arith) e in
      omega arith
  spent_from t end m (check key quota cost now ∷ ops) rs past room o u low e =
      let a = current_later (bucket d m k) t now o.0 in
      let (r, g, ss, h, f) = run-check-some d m key quota cost now ops rs e in
      let (b, c) = level-store m key quota now cost r (omega arith) u.1 g (omega arith) in
      let n = spent_from now end (store d m (key_of key) r).1 ops ss u.0 room o.1 u.3 c h in
      rw f (grind arith)

  history_answered :
      (end : Nanos) (m : MemoryStorage d) (ops : List Op)
      → UsesQuota k q end ops
      → (rs : List Served) × (answers d (run d m ops) ≡ some rs)
  unfolding run
  history_answered end m [] u = ([], refl)
  history_answered end m (collect now ∷ ops) u =
      history_answered end (retain_active d m now) ops u.1
  history_answered end m (check key quota cost now ∷ ops) u =
      let (r, g) =
        check_gcra_total (bucket d m (key_of key)) now (emission_interval_nanos quota)
          (burst_offset_nanos quota) cost (emission_pos quota u.2) in
      let (rs, e) = history_answered end (store d m (key_of key) r).1 ops u.3 in
      answered_after d m key quota cost now ops r rs g e

  -- Take any history of checks and collections with quotas that limit, whose clock runs from
  -- `start` to `end` without going back, and in which one bucket is always checked with the same
  -- quota. If the bucket starts at most one burst ahead, and one burst after `end` still fits the
  -- clock, then every check is answered, and the costs admitted from the bucket are worth at most
  -- one burst and the time between `start` and `end`.
  pub spent_bound :
      (start end : Nanos) (m : MemoryStorage d) (ops : List Op)
      → start ≤ end
      → end + bo < u64_max
      → Ordered start ops
      → UsesQuota k q end ops
      → current (bucket d m k) start ≤ start + bo
      → (rs : List Served) × (answers d (run d m ops) ≡ some rs)
        × (emission_interval_nanos q * spent k rs ≤ burst_offset_nanos q + (end - start))
  spent_bound start end m ops past room o u low =
      let (rs, e) = history_answered end m ops u in
      let h = spent_from start end m ops rs past room o u low e in (rs, e, omega arith)
