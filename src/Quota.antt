-- ===== src/Quota.antt =====
-- src/quota.rs: the quota of a tier and the two intervals of the rate algorithm.
pub mod Bounds
use tower_rate_tier.Prelude.{
  ℕ, ◌/◌, Bool, not, ◌==◌, leb, ltb, if◌then◌else◌, u64_max, saturating_mul, Panics, some, none,
  assert, ◌>>=◌, ◌>>◌,
}
use tower_rate_tier.Duration.{Duration, from_secs}

-- Nanoseconds since an arbitrary epoch: a u64.
abbrev pub Nanos : Type 0
Nanos = ℕ

pub record Quota : Type 0 where
  pub max_burst : ℕ  -- u32
  pub window : Duration

-- The three `assert!`s in the order of the source.
unfoldable pub with_window : ℕ → Duration → Panics Quota
with_window count window = do
  assert (ltb 0 count)
  assert (not (window == 0))
  assert (leb count window)
  some (record { max_burst = count; window = window })

unfoldable pub per_second : ℕ → Panics Quota
unfolding with_window
per_second count = with_window count (from_secs 1)

unfoldable pub per_minute : ℕ → Panics Quota
unfolding with_window
per_minute count = with_window count (from_secs 60)

unfoldable pub per_hour : ℕ → Panics Quota
unfolding with_window
per_hour count = with_window count (from_secs 3600)

unfoldable pub per_day : ℕ → Panics Quota
unfolding with_window
per_day count = with_window count (from_secs 86_400)

unfoldable pub unlimited : Quota
unlimited = record { max_burst = 0; window = 0 }

unfoldable pub is_unlimited : Quota → Bool
is_unlimited q = q.max_burst == 0

unfoldable pub replenish_interval : Quota → Duration
unfolding is_unlimited
replenish_interval q = if is_unlimited q then 0 else q.window / q.max_burst

unfoldable pub emission_interval_nanos : Quota → Nanos
unfolding replenish_interval
emission_interval_nanos q =
    let nanos = replenish_interval q in if ltb u64_max nanos then u64_max else nanos

unfoldable pub burst_offset_nanos : Quota → Nanos
unfolding emission_interval_nanos
burst_offset_nanos q = saturating_mul (emission_interval_nanos q) q.max_burst
