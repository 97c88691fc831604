-- ===== src/SystemTime.antt =====
-- std::time::SystemTime, as nanoseconds from the Unix epoch, and the reset header's arithmetic of
-- src/response.rs.
use tower_rate_tier.Duration.{Duration}
use tower_rate_tier.Prelude.{◌*◌, ◌+◌, ◌-◌, Option, ◌^◌, if◌then◌else◌, leb, none, some, ℕ}

-- At or after the epoch, or `n + 1` nanoseconds before it.
pub data SystemTime : Type 0 where
  after_epoch : ℕ → SystemTime
  before_epoch : ℕ → SystemTime

-- The last representable moment: i64::MAX seconds and 999,999,999 nanoseconds (Unix).
abbrev pub system_time_max : ℕ
system_time_max = (2 ^ 63 - 1) * 1_000_000_000 + 999_999_999

unfoldable pub checked_add : SystemTime → Duration → Option SystemTime
checked_add (after_epoch t) d =
    if leb (t + d) system_time_max then some (after_epoch (t + d)) else none
checked_add (before_epoch t) d =
    if leb d t
    then some (before_epoch (t - d))
    else if leb (d - t - 1) system_time_max
    then some (after_epoch (d - t - 1))
    else none

-- `duration_since(UNIX_EPOCH)`; `none` is the error of a moment before the epoch.
unfoldable pub since_epoch : SystemTime → Option Duration
since_epoch (after_epoch t) = some t
since_epoch (before_epoch t) = none
