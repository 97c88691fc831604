-- ===== src/Gcra.antt =====
-- src/gcra.rs: the generic cell rate algorithm.
pub mod Decision
pub mod Tokens
pub mod Retry
use tower_rate_tier.Duration.{Duration, ceil_secs}
use tower_rate_tier.Prelude.{
  ◌-◌, ◌/◌, ◌==◌, Option, Panics, Result, as_u32, err, if◌then◌else◌, ltb, max, none, ok,
  saturating_add, saturating_mul, saturating_sub, some, ℕ,
}
use tower_rate_tier.Quota.{Nanos}

pub record RateLimitInfo : Type 0 where
  pub limit : ℕ  -- u32
  pub remaining : ℕ  -- u32
  pub reset_after : Duration

pub record RateLimited : Type 0 where
  pub limit : ℕ  -- u32
  pub retry_after : Duration
  pub reset_after : Duration

unfoldable pub retry_after_secs : RateLimited → ℕ
unfolding ceil_secs
retry_after_secs limited = ceil_secs limited.retry_after

abbrev pub unwrap_or : Option Nanos → Nanos → Nanos
unwrap_or none d = d
unwrap_or (some t) d = t

-- The two divisions panic when the interval is 0. Both subtractions are of a smaller number.
unfoldable pub check_gcra :
    Option Nanos → Nanos → Nanos → Nanos → ℕ → Panics (Result (Nanos × RateLimitInfo) RateLimited)
check_gcra tat now emission_interval burst_offset cost =
    if emission_interval == 0
    then none
    else let limit = as_u32 (burst_offset / emission_interval) in
      let current_tat = max (unwrap_or tat now) now in
      let increment = saturating_mul emission_interval cost in
      let new_tat = saturating_add current_tat increment in
      let allow_at = saturating_sub new_tat burst_offset in
      if ltb now allow_at
      then some (
          err (record {
            limit = limit;
            retry_after = allow_at - now;
            reset_after = current_tat - now;
          }))
      else let diff = saturating_sub burst_offset (new_tat - now) in
        let remaining = as_u32 (diff / emission_interval) in
        some (
          ok
            (new_tat, record { limit = limit; remaining = remaining; reset_after = new_tat - now }))
