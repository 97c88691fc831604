-- ===== src/Storage/Redis/Units.antt =====
-- The microseconds of src/storage/redis.rs against the nanoseconds of the other storages.
use native.Mathlib.Nat.{mul-le-mul_right}
use tower_rate_tier.Prelude.{
  ◌*◌, ◌+◌, ◌<◌, ap, arith, max, saturating_mul, some, u32_max, u64_max, ℕ, ◌∙◌, ◌≡◌, ◌≤◌,
}
use tower_rate_tier.Quota.{Nanos, Quota, burst_offset_nanos, emission_interval_nanos, with_window}
use tower_rate_tier.Quota.Bounds.{
  emission_pos, with_window-intervals, with_window-max_burst, with_window_lem,
}
use tower_rate_tier.Storage.{StorageKey}
use tower_rate_tier.Storage.Redis.{RedisStorage, ScriptCall, micros_ceil, script_call}
use tower_rate_tier.Storage.Redis.Key.{Sha1}

micros_ceil-bounds : (n : Nanos) → (n ≤ micros_ceil n * 1000) × (micros_ceil n * 1000 < n + 1000)
unfolding micros_ceil
micros_ceil-bounds n = ground arith

burst-fits :
    (i ei n w : ℕ) → i * 1000 < ei + 1000 → ei * n ≤ w → n ≤ u32_max → w ≤ u64_max → i * n ≤ u64_max
burst-fits i ei n w h k count window =
    let m : i * 1000 * n ≤ (ei + 1000) * n = mul-le-mul_right n (omega arith) in
    let e : i * 1000 * n ≡ i * n * 1000 = grind arith in
    let f : (ei + 1000) * n ≡ ei * n + 1000 * n = grind arith in omega arith

burst-covers : (i ei n : ℕ) → ei ≤ i * 1000 → ei * n ≤ i * n * 1000
burst-covers i ei n h =
    let m : ei * n ≤ i * 1000 * n = mul-le-mul_right n h in
    let e : i * 1000 * n ≡ i * n * 1000 = grind arith in omega arith

exact_burst : (j i n : ℕ) → j ≡ i → i * n ≤ u64_max → saturating_mul j n ≡ j * n
exact_burst j i n e f = rw e (omega arith)

-- A script call that is at least as strict as the quota of `n` requests, by less than a microsecond
-- for each interval.
abbrev pub IsTighter : Quota → ℕ → ScriptCall → Type 0
IsTighter q n sent =
    (1 ≤ sent.emission_interval)
    × (emission_interval_nanos q ≤ sent.emission_interval * 1000)
    × (sent.emission_interval * 1000 < emission_interval_nanos q + 1000)
    × (sent.burst_offset ≡ sent.emission_interval * n)
    × (burst_offset_nanos q ≤ sent.burst_offset * 1000)

-- The interval and the burst that the script is asked with, in microseconds.
abbrev pub interval : Quota → ℕ
interval q = max (micros_ceil (emission_interval_nanos q)) 1

abbrev pub burst : Quota → ℕ
burst q = saturating_mul (interval q) q.max_burst

pub interval-bounds :
    (n w : ℕ) (q : Quota)
    → n ≤ u32_max
    → w ≤ u64_max
    → with_window n w ≡ some q
    → (1 ≤ interval q)
      × (emission_interval_nanos q ≤ interval q * 1000)
      × (interval q * 1000 < emission_interval_nanos q + 1000)
      × (burst q ≡ interval q * n)
      × (burst_offset_nanos q ≤ burst q * 1000)
interval-bounds n w q count window e =
    let p = emission_pos q (with_window_lem n w q e) in
    let (o, r, l, g) = with_window-intervals n w q window e in
    let a : q.max_burst ≡ n = with_window-max_burst n w q e in
    let (x, y) = micros_ceil-bounds (emission_interval_nanos q) in
    let i : ℕ = micros_ceil (emission_interval_nanos q) in
    let m : max i 1 ≡ i = omega arith in
    let f = burst-fits i (emission_interval_nanos q) n w y (omega arith) count window in
    let c = burst-covers i (emission_interval_nanos q) n x in
    let b : saturating_mul (max i 1) q.max_burst ≡ max i 1 * n =
      ap (saturating_mul (max i 1)) a ∙ exact_burst (max i 1) i n m f in
    let k : max i 1 * n ≡ i * n = ap (λ x. x * n) m in
    (omega arith, omega arith, omega arith, b, omega arith)

-- For a quota that `with_window` accepts, of at most u32::MAX requests in at most u64::MAX
-- nanoseconds, the script is asked with an interval of at least a microsecond, no shorter than the
-- quota's and longer by less than a microsecond, and with a burst of exactly the quota's requests,
-- which covers the quota's own: the quota is never looser in Redis than in memory.
pub script_call-IsTighter :
    {C : Type 0} (sha1 : Sha1) (s : RedisStorage C) (key : StorageKey) (n w cost : ℕ) (q : Quota)
    (now : Nanos)
    → n ≤ u32_max
    → w ≤ u64_max
    → with_window n w ≡ some q
    → IsTighter q n (script_call sha1 s key q cost now)
unfolding script_call
script_call-IsTighter sha1 s key n w cost q now count window e =
    interval-bounds n w q count window e
