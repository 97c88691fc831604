-- ===== src/Duration.antt =====
-- std::time::Duration as its number of nanoseconds, and the rounding of src/gcra.rs to seconds.
use tower_rate_tier.Prelude.{
  ℕ, ◌+◌, ◌/◌, ◌%◌, ◌*◌, ◌≤◌, ◌<◌, u64_max, ltb, if◌then◌else◌, saturating_add, arith,
}

abbrev pub Duration : Type 0
Duration = ℕ

abbrev pub nanos_per_sec : ℕ
nanos_per_sec = 1_000_000_000

-- Duration::MAX: u64::MAX seconds and 999,999,999 nanoseconds.
abbrev pub duration_max : ℕ
duration_max = u64_max * 1_000_000_000 + 999_999_999

abbrev pub from_secs : ℕ → Duration
from_secs s = s * 1_000_000_000

abbrev pub as_secs : Duration → ℕ
as_secs d = d / 1_000_000_000

abbrev pub subsec_nanos : Duration → ℕ
subsec_nanos d = d % 1_000_000_000

-- Whole seconds, rounded up.
unfoldable pub ceil_secs : Duration → ℕ
ceil_secs duration =
    let round_up = if ltb 0 (subsec_nanos duration) then 1 else 0 in
    saturating_add (as_secs duration) round_up

-- For a duration of at most u64::MAX nanoseconds, the rounded seconds last at least as long as the
-- duration, and less than a second longer.
pub ceil_secs_bounds :
    (d : Duration)
    → d ≤ u64_max
    → (d ≤ from_secs (ceil_secs d)) × (from_secs (ceil_secs d) < d + 1_000_000_000)
unfolding ceil_secs
ceil_secs_bounds d h = ground arith
