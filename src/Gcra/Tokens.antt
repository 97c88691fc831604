-- ===== src/Gcra/Tokens.antt =====
-- The algorithm as a bucket of tokens: what is left of the burst at a moment, in whole requests.
use native.Mathlib.Decide.{dec_le}
use native.Mathlib.Nat.{add-mul-div_left, div-lt_iff_lt-mul, le-div_iff_mul-le, zero-div}
use tower_rate_tier.Gcra.{RateLimitInfo, RateLimited, check_gcra}
use tower_rate_tier.Gcra.Decision.{
  allowed_info, check_gcra-reference, current, limited_info, reference,
}
use tower_rate_tier.Prelude.{
  ◌*◌, ◌+◌, ◌-◌, ◌/◌, ◌<◌, Option, Panics, Result, ap, arith, as_u32, err, max, ok, some, u64_max,
  ℕ, ◌≡◌, ◌≤◌,
}
use tower_rate_tier.Quota.{Nanos}

-- The whole requests that a bucket with this arrival time still holds.
unfoldable pub tokens : Option Nanos → Nanos → Nanos → Nanos → ℕ
tokens tat now ei bo = (now + bo - current tat now) / ei

-- The outcome that the bucket prescribes for a request of this cost.
pub data Admits (tat : Option Nanos) (now ei bo cost : ℕ)
    (r : Panics (Result (Nanos × RateLimitInfo) RateLimited)) : Type 0 where
  take :
      (t : Nanos) (i : RateLimitInfo)
      → cost ≤ tokens tat now ei bo
      → r ≡ some (ok (t, i))
      → tokens (some t) now ei bo ≡ tokens tat now ei bo - cost
      → i.remaining ≡ as_u32 (tokens tat now ei bo - cost)
      → t ≤ now + bo
      → Admits tat now ei bo cost r
  refuse :
      (l : RateLimited)
      → tokens tat now ei bo < cost
      → r ≡ some (err l)
      → 0 < l.retry_after
      → Admits tat now ei bo cost r

sub-div : (x ei c : ℕ) → 0 < ei → (x - ei * c) / ei ≡ x / ei - c
sub-div x ei c h = elim (dec_le (ei * c) x) [
  | yes p ↦
      let e : (x - ei * c + ei * c) / ei ≡ (x - ei * c) / ei + c = add-mul-div_left _ c h in
      let k : x - ei * c + ei * c ≡ x = omega arith in omega (arith, rw k at e)
  | no p ↦
      let e : x / ei < c = (div-lt_iff_lt-mul h).1 (grind arith) in
      let k : x - ei * c ≡ 0 = omega arith in rw k (rw (zero-div ei) (omega arith))
]

module _ (tat : Option Nanos) (now ei bo cost : ℕ) (pos : 0 < ei) where
  le-tokens :
      cost ≤ tokens tat now ei bo
      → current tat now ≤ now + bo
      → current tat now + ei * cost ≤ now + bo
  unfolding tokens
  le-tokens h v =
      let k : cost * ei ≤ now + bo - current tat now = (le-div_iff_mul-le pos).0 h in grind arith

  tokens-le : current tat now + ei * cost ≤ now + bo → cost ≤ tokens tat now ei bo
  unfolding tokens
  tokens-le h = (le-div_iff_mul-le pos).1 (grind arith)

  left-over : (now + bo - (current tat now + ei * cost)) / ei ≡ tokens tat now ei bo - cost
  unfolding tokens
  left-over =
      let e = sub-div (now + bo - current tat now) ei cost pos in
      let k : now + bo - (current tat now + ei * cost) ≡ now + bo - current tat now - ei * cost =
        omega arith in
      rw k e

  tokens-spent : tokens (some (current tat now + ei * cost)) now ei bo ≡ tokens tat now ei bo - cost
  unfolding tokens
  tokens-spent =
      let k : max (current tat now + ei * cost) now ≡ current tat now + ei * cost = omega arith in
      rw k left-over

  tokens-lt :
      ¬ (current tat now + ei * cost ≤ now + bo)
      → current tat now ≤ now + bo
      → tokens tat now ei bo < cost
  tokens-lt far valid = elim (dec_le cost (tokens tat now ei bo)) [
    | yes q ↦ absurd (far (le-tokens q valid))
    | no q ↦ omega arith
  ]

  -- With an interval above 0, and where the new arrival time fits 64 bits,
  -- a bucket that is at most one burst ahead admits exactly the requests that its tokens pay for,
  -- takes their cost and reports what is left; it refuses the others, with a positive wait.
  pub check_gcra-Admits :
      current tat now ≤ now + bo
      → current tat now + ei * cost ≤ u64_max
      → Admits tat now ei bo cost (check_gcra tat now ei bo cost)
  unfolding reference
  check_gcra-Admits valid fits =
      let t : Nanos = current tat now + ei * cost in
      rw (check_gcra-reference tat now ei bo cost pos fits) (elim (dec_le t (now + bo)) [
        | yes p ↦
            take t (allowed_info now ei bo t) (tokens-le p) (ground arith) tokens-spent
              (ap as_u32 left-over) p
        | no p ↦
            refuse (limited_info tat now ei bo t) (tokens-lt p valid) (ground arith) (omega arith)
      ])
