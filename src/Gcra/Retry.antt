-- ===== src/Gcra/Retry.antt =====
-- When a refused request may come back.
use tower_rate_tier.Duration.{ceil_secs_bounds, from_secs}
use tower_rate_tier.Gcra.{RateLimitInfo, RateLimited, check_gcra, retry_after_secs}
use tower_rate_tier.Gcra.Decision.{
  allowed_info, check_gcra-reference, current, current_later, limited_info, reference,
}
use tower_rate_tier.Prelude.{
  ◌*◌, ◌+◌, ◌<◌, Option, Panics, Result, arith, err, ok, some, u64_max, ℕ, ◌≡◌, ◌≤◌,
}
use tower_rate_tier.Quota.{Nanos}

-- The two ways in which a check ends without a panic.
abbrev pub IsAllowed : Panics (Result (Nanos × RateLimitInfo) RateLimited) → Type 0
IsAllowed r = (p : Nanos × RateLimitInfo) × (r ≡ some (ok p))

abbrev pub IsRefused : Panics (Result (Nanos × RateLimitInfo) RateLimited) → Type 0
IsRefused r = (l : RateLimited) × (r ≡ some (err l))

module _ (tat : Option Nanos) (now ei bo cost : ℕ) (pos : 0 < ei) where
  reference-IsAllowed :
      current tat now + ei * cost ≤ u64_max
      → current tat now + ei * cost ≤ now + bo
      → IsAllowed (check_gcra tat now ei bo cost)
  unfolding reference
  reference-IsAllowed fits h = rw (check_gcra-reference tat now ei bo cost pos fits) (
    (current tat now + ei * cost, allowed_info now ei bo (current tat now + ei * cost)),
    ground arith,
  )

  reference-IsRefused :
      current tat now + ei * cost ≤ u64_max
      → now + bo < current tat now + ei * cost
      → IsRefused (check_gcra tat now ei bo cost)
  unfolding reference
  reference-IsRefused fits h =
      rw (check_gcra-reference tat now ei bo cost pos fits)
        (limited_info tat now ei bo (current tat now + ei * cost), ground arith)

  retry_after-eq :
      (l : RateLimited)
      → current tat now + ei * cost ≤ u64_max
      → check_gcra tat now ei bo cost ≡ some (err l)
      → now + bo + l.retry_after ≡ current tat now + ei * cost
  unfolding reference
  retry_after-eq l fits e =
      let k = rw (check_gcra-reference tat now ei bo cost pos fits) at e in ground arith

  pub check_gcra-allowed :
      (t : Nanos) (i : RateLimitInfo)
      → now + bo < u64_max
      → check_gcra tat now ei bo cost ≡ some (ok (t, i))
      → (t ≡ current tat now + ei * cost) × (t ≤ now + bo)
  unfolding check_gcra
  check_gcra-allowed t i room e = ground arith

-- With an interval above 0, a request that was refused at `now`, and whose cost fits the burst, is
-- allowed at a later moment from `retry_after` on, and refused before, if nothing else was admitted
-- in between and the new arrival time fits 64 bits then.
pub retry_after_exact :
    (tat : Option Nanos) (now ei bo cost : ℕ) (l : RateLimited) (later : Nanos)
    → 0 < ei
    → ei * cost ≤ bo
    → check_gcra tat now ei bo cost ≡ some (err l)
    → now ≤ later
    → current tat later + ei * cost ≤ u64_max
    → (now + l.retry_after ≤ later → IsAllowed (check_gcra tat later ei bo cost))
      × (later < now + l.retry_after → IsRefused (check_gcra tat later ei bo cost))
retry_after_exact tat now ei bo cost l later pos cheap e after fits =
    let mono = current_later tat now later after in
    let k = retry_after-eq tat now ei bo cost pos l (omega arith) e in
    (
      λ h. reference-IsAllowed tat later ei bo cost pos fits (omega arith),
      λ h. reference-IsRefused tat later ei bo cost pos fits (omega arith),
    )

-- With an interval above 0, a refused request whose cost fits the burst is allowed from the whole
-- seconds of the Retry-After header on, if nothing else was admitted in between and the new arrival
-- time fits 64 bits then.
pub retry_after_secs_suffices :
    (tat : Option Nanos) (now ei bo cost : ℕ) (l : RateLimited) (later : Nanos)
    → 0 < ei
    → ei * cost ≤ bo
    → check_gcra tat now ei bo cost ≡ some (err l)
    → now + from_secs (retry_after_secs l) ≤ later
    → current tat later + ei * cost ≤ u64_max
    → IsAllowed (check_gcra tat later ei bo cost)
unfolding retry_after_secs
retry_after_secs_suffices tat now ei bo cost l later pos cheap e waited fits =
    let mono = current_later tat now later (omega arith) in
    let k = retry_after-eq tat now ei bo cost pos l (omega arith) e in
    let s = ceil_secs_bounds l.retry_after (omega arith) in
    (retry_after_exact tat now ei bo cost l later pos cheap e (omega arith) fits).0 (omega arith)

-- With an interval above 0, and where the stored time fits 64 bits, a request of cost 0 is allowed
-- if the bucket is at most one burst ahead, and refused if it is further ahead.
check_gcra-free :
    (tat : Option Nanos) (now ei bo : ℕ)
    → 0 < ei
    → current tat now ≤ u64_max
    → (current tat now ≤ now + bo → IsAllowed (check_gcra tat now ei bo 0))
      × (now + bo < current tat now → IsRefused (check_gcra tat now ei bo 0))
check_gcra-free tat now ei bo pos fits = (
  λ h. reference-IsAllowed tat now ei bo 0 pos (omega arith) (omega arith),
  λ h. reference-IsRefused tat now ei bo 0 pos (omega arith) (omega arith),
)
