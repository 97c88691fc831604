-- ===== src/Storage/Limits.antt =====
-- What a storage of src/storage/mod.rs promises about the rate of one bucket under one quota.
use tower_rate_tier.Storage.Memory.{check_and_update as check_memory}
use tower_rate_tier.Gcra.Decision.{check_gcra_total, current, current_later}
use tower_rate_tier.Prelude.{◌*◌, ◌+◌, ◌<◌, arith, max, some, sym, u64_max, ℕ, ◌∙◌, ◌≡◌, ◌≤◌}
use tower_rate_tier.Quota.{Nanos, Quota, burst_offset_nanos, emission_interval_nanos}
use tower_rate_tier.Quota.Bounds.{IsLimited, emission_pos}
use tower_rate_tier.Storage.{Decision, Storage, StorageKey}
use tower_rate_tier.Storage.DashMap.{DashMap, Key}
use tower_rate_tier.Storage.Memory.{MemoryStorage, memory_storage, store}
use tower_rate_tier.Storage.Memory.Buckets.{bucket, decided, key_of}
use tower_rate_tier.Storage.Memory.Rate.{charge, level-store}
use tower_rate_tier.Storage.Memory.Runs.{check-decided}

-- `level` is the time at which the bucket is full again. It moves on with the clock, and with each
-- request that the storage admits from the bucket by its cost, but never more than one burst ahead.
-- A call that fails may charge the bucket, too.
pub record LimitsRate {S : Type 0} (storage : Storage S) (k : Key) (q : Quota) : Type 0 where
  pub level : S → Nanos → Nanos
  pub level_later : (s : S) (t u : Nanos) → t ≤ u → level s u ≡ max (level s t) u
  pub level_check :
      (key : StorageKey) (quota : Quota) (cost : ℕ) (now : Nanos) (s s2 : S) (r : Decision)
      → IsLimited quota
      → now + burst_offset_nanos q < u64_max
      → (key_of key ≡ k → quota ≡ q)
      → level s now ≤ now + burst_offset_nanos q
      → storage.check_and_update key quota cost now s ≡ some (r, s2)
      → (level s now
            + emission_interval_nanos q * charge k (record { key = key; cost = cost; answer = r })
          ≤ level s2 now)
        × (level s2 now ≤ now + burst_offset_nanos q)

module _ (d : DashMap) (k : Key) (q : Quota) (v : IsLimited q) where
  -- One check of any bucket, for the level of `k`.
  pub check-level :
      (key : StorageKey) (quota : Quota) (cost : ℕ) (now : Nanos) (m m2 : MemoryStorage d)
      (r : Decision)
      → IsLimited quota
      → now + burst_offset_nanos q < u64_max
      → (key_of key ≡ k → quota ≡ q)
      → current (bucket d m k) now ≤ now + burst_offset_nanos q
      → check_memory d key quota cost now m ≡ some (r, m2)
      → (current (bucket d m k) now
            + emission_interval_nanos q * charge k (record { key = key; cost = cost; answer = r })
          ≤ current (bucket d m2 k) now)
        × (current (bucket d m2 k) now ≤ now + burst_offset_nanos q)
  check-level key quota cost now m m2 r limits room same low e =
      let (x, g) =
        check_gcra_total (bucket d m (key_of key)) now (emission_interval_nanos quota)
          (burst_offset_nanos quota) cost (emission_pos quota limits) in
      let (f, h) = level-store d k q v m key quota now cost x room same g low in
      let both = sym (check-decided d m key quota cost now x g) ∙ e in
      let answer_same : decided x ≡ r = ground arith in
      let left_same : (store d m (key_of key) x).1 ≡ m2 = ground arith in
      rw (← answer_same, ← left_same) (omega (arith, f), h)

  -- The memory storage keeps the promise.
  memory-LimitsRate : LimitsRate (memory_storage d) k q
  unfolding memory_storage
  memory-LimitsRate = record {
    level = λ m now. current (bucket d m k) now;
    level_later = λ m t u. current_later (bucket d m k) t u;
    level_check = check-level;
  }
