-- ===== src/Storage/Memory.antt =====
-- src/storage/memory.rs: arrival times by key, in memory.
pub mod Buckets
pub mod Idle
pub mod Runs
pub mod Collection
pub mod Rate
pub mod Remaining
use tower_rate_tier.Gcra.{RateLimitInfo, RateLimited, check_gcra}
use tower_rate_tier.Prelude.{◌==◌, Bool, Panics, Result, err, leb, none, ok, some, ℕ, ◌>>=◌, ◌>>◌}
use tower_rate_tier.Quota.{Nanos, Quota, burst_offset_nanos, emission_interval_nanos}
use tower_rate_tier.Storage.{Decision, Storage, StorageKey}
use tower_rate_tier.Storage.DashMap.{DashMap, Key}

pub record MemoryStorage (d : DashMap) : Type 0 where
  pub state : d.Map

module _ (d : DashMap) where
  unfoldable pub new : MemoryStorage d
  new = record { state = d.new }

  unfoldable pub len : MemoryStorage d → ℕ
  len m = d.len m.state

  unfoldable pub is_empty : MemoryStorage d → Bool
  is_empty m = d.len m.state == 0

  -- An entry stays as long as its arrival time has not passed.
  unfoldable pub retain_active : MemoryStorage d → Nanos → MemoryStorage d
  retain_active m now = record { state = d.retain (λ tat. leb now tat) m.state }

  unfoldable pub clear : MemoryStorage d → MemoryStorage d
  clear m = record { state = d.clear m.state }

  -- `slot.insert(new_tat)` on the allowed side of the check.
  abbrev pub store :
      MemoryStorage d
      → Key
      → Result (Nanos × RateLimitInfo) RateLimited
      → Result RateLimitInfo RateLimited × MemoryStorage d
  store m k (ok (new_tat, info)) = (ok info, record { state = d.insert m.state k new_tat })
  store m k (err limited) = (err limited, m)

  -- The entry is held from the read to the write.
  unfoldable pub check_and_update :
      StorageKey → Quota → ℕ → Nanos → MemoryStorage d → Panics (Decision × MemoryStorage d)
  check_and_update key quota cost now m =
      let ei = emission_interval_nanos quota in
      let bo = burst_offset_nanos quota in
      let k : Key = (key.user_id, key.tier) in
      do
        checked ← elim (d.entry m.state k) [
          | some tat ↦ check_gcra (some tat) now ei bo cost
          | none ↦ check_gcra none now ei bo cost
        ]
        let (result, m') = store m k checked
        some (ok result, m')

  -- impl Storage for MemoryStorage
  unfoldable pub memory_storage : Storage (MemoryStorage d)
  memory_storage = record { check_and_update = check_and_update }
