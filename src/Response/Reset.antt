-- ===== src/Response/Reset.antt =====
-- The moment that the reset header of src/response.rs tells.
use tower_rate_tier.Duration.{Duration, ceil_secs, from_secs}
use tower_rate_tier.Prelude.{
  ◌+◌, ◌-◌, ◌<◌, Bool-cases, arith, inl, inr, leb, refl, u64_max, ℕ, ◌≡◌, ◌≤◌, ◌⊎◌,
}
use tower_rate_tier.Response.{reset_secs}
use tower_rate_tier.SystemTime.{
  SystemTime, after_epoch, before_epoch, checked_add, since_epoch, system_time_max,
}

-- Whole seconds that reach a moment after the epoch, and do not pass it by a second.
abbrev pub RoundedUp : ℕ → ℕ → Type 0
RoundedUp moment secs = (moment ≤ from_secs secs) × (from_secs secs < moment + 1_000_000_000)

-- The seconds since the epoch at a duration after a moment: rounded up, 0 before the epoch, and
-- u64::MAX when the system's clock cannot tell the moment.
abbrev pub ResetsAt : SystemTime → Duration → ℕ → Type 0
ResetsAt (after_epoch t) d secs =
    ((t + d ≤ system_time_max) × RoundedUp (t + d) secs)
    ⊎ ((system_time_max < t + d) × (secs ≡ u64_max))
ResetsAt (before_epoch t) d secs =
    ((d ≤ t) × (secs ≡ 0))
    ⊎ ((t < d) × (d ≤ t + 1 + system_time_max) × RoundedUp (d - t - 1) secs)
    ⊎ ((t + 1 + system_time_max < d) × (secs ≡ u64_max))

ceil_secs-RoundedUp : (m : ℕ) → m ≤ system_time_max → RoundedUp m (ceil_secs m)
unfolding ceil_secs
ceil_secs-RoundedUp m h = ground arith

pub reset_secs-ResetsAt : (now : SystemTime) (d : Duration) → ResetsAt now d (reset_secs d now)
unfolding reset_secs checked_add since_epoch
reset_secs-ResetsAt (after_epoch t) d = elim (Bool-cases (leb (t + d) system_time_max)) [
  | inl e ↦
      let fits : t + d ≤ system_time_max = ground (arith, e) in
      rw (e, reset_secs, checked_add) (inl (fits, ceil_secs-RoundedUp (t + d) fits))
  | inr e ↦
      let over : system_time_max < t + d = ground (arith, e) in
      rw (e, reset_secs, checked_add) (inr (over, refl))
]
reset_secs-ResetsAt (before_epoch t) d = elim (Bool-cases (leb d t)) [
  | inl e ↦
      let early : d ≤ t = ground (arith, e) in
      rw (e, reset_secs, checked_add, since_epoch) (inl (early, refl))
  | inr e ↦ elim (Bool-cases (leb (d - t - 1) system_time_max)) [
    | inl f ↦
        let fits : d - t - 1 ≤ system_time_max = ground (arith, f) in
        let past : t < d = ground (arith, e) in
        let tells : d ≤ t + 1 + system_time_max = omega arith in
        rw (e, f, reset_secs, checked_add, since_epoch)
          (inr (inl (past, tells, ceil_secs-RoundedUp (d - t - 1) fits)))
    | inr f ↦
        let past : t < d = ground (arith, e) in
        let over : system_time_max < d - t - 1 = ground (arith, f) in
        let far : t + 1 + system_time_max < d = omega arith in
        rw (e, f, reset_secs, checked_add, since_epoch) (inr (inr (far, refl)))
  ]
]
