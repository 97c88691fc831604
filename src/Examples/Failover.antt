-- ===== src/Examples/Failover.antt =====
-- A breaker of src/storage/breaker.rs over a memory storage that is down for a while.
use tower_rate_tier.Storage.Breaker.{check_and_update as check_breaker}
use tower_rate_tier.Storage.Memory.{check_and_update as check_memory}
use tower_rate_tier.Storage.Memory.{new as new_memory}
use tower_rate_tier.Examples.Memory.{ana, quota, quota-IsLimited}
use tower_rate_tier.Examples.Table.{table}
use tower_rate_tier.Gcra.{check_gcra}
use tower_rate_tier.Gcra.Decision.{current, current_later}
use tower_rate_tier.Prelude.{
  ◌&&◌, ◌*◌, ◌+◌, ◌-◌, ◌<◌, Bool, Bool-cases, List, [], arith, err, if◌then◌else◌, inl, inr, leb,
  none, ok, refl, some, u64_max, ℕ, ◌∷◌, ◌≡◌, ◌≤◌, ◌≡◌,
}
use tower_rate_tier.Prelude.Text.{codes, text_eq}
use tower_rate_tier.Quota.{
  Nanos, Quota, burst_offset_nanos, emission_interval_nanos, is_unlimited, replenish_interval,
}
use tower_rate_tier.Quota.Bounds.{IsLimited, emission_pos}
use tower_rate_tier.Storage.Memory.Rate.{charge}
use tower_rate_tier.Storage.{Decision, Storage, StorageKey}
use tower_rate_tier.Storage.Breaker.{
  CircuitBreaker, Shared, admit, begin, breaker_storage, check_fallback, emit, finish,
  prune_fallback, prune_fallback_if_due, settle,
}
use tower_rate_tier.Storage.Breaker.Failover.{failover_spent_bound, spent_in_all}
use tower_rate_tier.Storage.Breaker.Local.{IsTotal, Watched, recoveries, watch}
use tower_rate_tier.Storage.Breaker.Transition.{after_call, closed}
use tower_rate_tier.Storage.DashMap.{key_eq}
use tower_rate_tier.Storage.Limits.{LimitsRate, check-level}
use tower_rate_tier.Storage.Memory.{MemoryStorage, clear, retain_active}
use tower_rate_tier.Storage.Memory.Buckets.{bucket, check_and_update-answers, key_of}
use tower_rate_tier.Storage.Serve.{StorageRequest, ask}

abbrev is_down : ℕ → Bool
is_down now = leb 105 now && leb now 159

abbrev flaky : Storage (MemoryStorage table)
flaky = record {
  check_and_update = λ key q cost now m.
      if is_down now
      then some (err (record { message = codes "down" }), m)
      else check_memory table key q cost now m;
}

flaky-IsTotal : IsTotal flaky
flaky-IsTotal key q cost now m limits = elim (Bool-cases (is_down now)) [
  | inl e ↦ ((err (record { message = codes "down" }), m), rw e refl)
  | inr e ↦
      let (a, n, f) = check_and_update-answers table key q cost now m (emission_pos q limits) in
      ((ok a, n), rw e f)
]

flaky-check :
    (key : StorageKey) (q : Quota) (cost : ℕ) (now : Nanos) (m m2 : MemoryStorage table)
    (r : Decision)
    → IsLimited q
    → now + burst_offset_nanos quota < u64_max
    → (key_of key ≡ key_of ana → q ≡ quota)
    → current (bucket table m (key_of ana)) now ≤ now + burst_offset_nanos quota
    → flaky.check_and_update key q cost now m ≡ some (r, m2)
    → (current (bucket table m (key_of ana)) now
          + emission_interval_nanos quota
            * charge (key_of ana) (record { key = key; cost = cost; answer = r })
        ≤ current (bucket table m2 (key_of ana)) now)
      × (current (bucket table m2 (key_of ana)) now ≤ now + burst_offset_nanos quota)
flaky-check key q cost now m m2 r limits room same low e = elim (Bool-cases (is_down now)) [
  | inl x ↦
      let h = rw x at e in
      let m_same : m ≡ m2 = ground arith in
      let r_same : ◌≡◌ {A = Decision} (err (record { message = codes "down" })) r = ground arith in
      rw (← m_same, ← r_same)
        (elim (Bool-cases (key_eq (key_of key) (key_of ana))) [
          | inl y ↦ rw y (omega arith, low)
          | inr y ↦ rw y (omega arith, low)
        ])
  | inr x ↦
      check-level table (key_of ana) quota quota-IsLimited key q cost now m m2 r limits room same
        low (rw x at e)
]

abbrev flaky_limits : LimitsRate flaky (key_of ana) quota
flaky_limits = record {
  level = λ m now. current (bucket table m (key_of ana)) now;
  level_later = λ m t u. current_later (bucket table m (key_of ana)) t u;
  level_check = flaky-check;
}

abbrev guarded : CircuitBreaker (MemoryStorage table) Unit
guarded = record {
  primary = flaky;
  policy = record { failure_threshold = 2; open_for = 50 };
  on_state_change = none;
}

abbrev fresh : Shared table (MemoryStorage table) Unit
fresh = record {
  primary_state = new_memory table;
  fallback = new_memory table;
  state = closed 0;
  last_pruned = 0;
  world = tt;
}

abbrev ask_at : ℕ → StorageRequest
ask_at now = record { key = ana; quota = quota; cost = 2; now = now }

-- The primary admits the first one, the fallback the second; the third fails, too, and opens the
-- breaker; the fourth comes after the outage.
abbrev asks : List StorageRequest
asks = ask_at 100 ∷ ask_at 105 ∷ ask_at 106 ∷ ask_at 170 ∷ []

all_admitted :
    (ws : List Watched) × (u : Shared table (MemoryStorage table) Unit) × (watch guarded fresh asks
      ≡ some (ws, u))
    × (spent_in_all (key_of ana) ws ≡ 6)
    × (recoveries ws ≡ 1)
unfolding watch ask breaker_storage check_breaker admit finish check_fallback check_memory settle
    begin after_call prune_fallback_if_due emit retain_active new_memory check_gcra
    emission_interval_nanos burst_offset_nanos prune_fallback key_eq text_eq is_unlimited
    replenish_interval clear
all_admitted = (_, _, refl, refl, refl)

failover_spent_bound_example :
    (ws : List Watched) × (u : Shared table (MemoryStorage table) Unit) × (watch guarded fresh asks
      ≡ some (ws, u))
    × (emission_interval_nanos quota * spent_in_all (key_of ana) ws
        ≤ burst_offset_nanos quota * (2 + recoveries ws) + 2 * (170 - 100))
unfolding burst_offset_nanos new_memory
failover_spent_bound_example =
    failover_spent_bound guarded (key_of ana) quota flaky_limits 100 170 fresh asks quota-IsLimited
      flaky-IsTotal (omega arith) (omega arith)
      (
        λ e. refl,
        quota-IsLimited,
        (
          λ e. refl,
          quota-IsLimited,
          (λ e. refl, quota-IsLimited, (λ e. refl, quota-IsLimited, tt)),
        ),
      )
      (omega arith) (omega arith)
