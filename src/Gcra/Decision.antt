-- ===== src/Gcra/Decision.antt =====
-- What `check_gcra` decides, for arguments at which its arithmetic does not saturate.
use tower_rate_tier.Gcra.{RateLimitInfo, RateLimited, check_gcra, unwrap_or}
use tower_rate_tier.Prelude.{
  ◌*◌, ◌+◌, ◌-◌, ◌/◌, ◌<◌, Option, Option-cases, Result, arith, as_u32, err, if◌then◌else◌, inl,
  inr, leb, max, none, ok, some, u64_max, ℕ, ◌≡◌, ◌≢◌, ◌≤◌,
}
use tower_rate_tier.Quota.{Nanos}

abbrev pub current : Option Nanos → Nanos → Nanos
current tat now = max (unwrap_or tat now) now

-- The reports on a request that moves the arrival time to `t`.
abbrev pub allowed_info : Nanos → Nanos → Nanos → Nanos → RateLimitInfo
allowed_info now ei bo t = record {
  limit = as_u32 (bo / ei);
  remaining = as_u32 ((now + bo - t) / ei);
  reset_after = t - now;
}

abbrev pub limited_info : Option Nanos → Nanos → Nanos → Nanos → Nanos → RateLimited
limited_info tat now ei bo t = record {
  limit = as_u32 (bo / ei);
  retry_after = t - (now + bo);
  reset_after = current tat now - now;
}

-- The algorithm without saturation: the request is allowed when the theoretical arrival time,
-- moved on by its cost, lies within one burst of the present.
unfoldable pub reference :
    Option Nanos → Nanos → Nanos → Nanos → ℕ → Result (Nanos × RateLimitInfo) RateLimited
reference tat now ei bo cost =
    let t = current tat now + ei * cost in
    if leb t (now + bo)
    then ok (t, allowed_info now ei bo t)
    else err (limited_info tat now ei bo t)

-- With an interval above 0, and where the new arrival time fits 64 bits, nothing saturates.
pub check_gcra-reference :
    (tat : Option Nanos) (now ei bo cost : ℕ)
    → 0 < ei
    → current tat now + ei * cost ≤ u64_max
    → check_gcra tat now ei bo cost ≡ some (reference tat now ei bo cost)
unfolding check_gcra reference
check_gcra-reference tat now ei bo cost pos fits = ground arith

-- With an interval above 0, a request whose new arrival time reaches the end of the clock is
-- refused, as long as one burst from now does not reach it.
check_gcra_saturated :
    (tat : Option Nanos) (now ei bo cost : ℕ)
    → 0 < ei
    → u64_max ≤ current tat now + ei * cost
    → now + bo < u64_max
    → (l : RateLimited) × (check_gcra tat now ei bo cost ≡ some (err l))
unfolding check_gcra
check_gcra_saturated tat now ei bo cost pos over room = (
  record {
    limit = as_u32 (bo / ei);
    retry_after = u64_max - bo - now;
    reset_after = current tat now - now;
  },
  ground arith,
)

-- How the effective arrival time moves while nothing is admitted.
pub current_later :
    (tat : Option Nanos) (now later : Nanos)
    → now ≤ later
    → (current tat later ≡ max (current tat now) later)
current_later none now later h = omega arith
current_later (some t) now later h = omega arith

-- The stored arrival time matters only through the effective one: an expired one is as none.
pub check_gcra-current :
    (a b : Option Nanos) (now ei bo cost : ℕ)
    → current a now ≡ current b now
    → check_gcra a now ei bo cost ≡ check_gcra b now ei bo cost
unfolding check_gcra
check_gcra-current a b now ei bo cost e = rw e

check_gcra-ne-none :
    (tat : Option Nanos) (now ei bo cost : ℕ) → 0 < ei → check_gcra tat now ei bo cost ≢ none
unfolding check_gcra
check_gcra-ne-none tat now ei bo cost pos = ground arith

-- The check panics only on an interval of 0.
pub check_gcra_total :
    (tat : Option Nanos) (now ei bo cost : ℕ)
    → 0 < ei
    → (r : Result (Nanos × RateLimitInfo) RateLimited) × (check_gcra tat now ei bo cost ≡ some r)
check_gcra_total tat now ei bo cost pos = elim (Option-cases (check_gcra tat now ei bo cost)) [
  | inl e ↦ absurd (check_gcra-ne-none tat now ei bo cost pos e)
  | inr p ↦ p
]
