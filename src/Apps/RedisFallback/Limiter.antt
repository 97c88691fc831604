-- ===== src/Apps/RedisFallback/Limiter.antt =====
-- The limiter that examples/axum_redis_fallback.rs builds.
use tower_rate_tier.Storage.Breaker.{new as new_breaker}
use tower_rate_tier.Tier.Builder.{storage as set_storage}
use tower_rate_tier.Storage.Redis.{check_and_update as check_redis_storage}
use tower_rate_tier.Storage.Breaker.{check_and_update as check_breaker}
use mathlib.Core.Option.{some-injective}
use tower_rate_tier.Apps.RedisFallback.{breaker, rate_tier, tier_of}
use tower_rate_tier.Gcra.{RateLimitInfo, RateLimited}
use tower_rate_tier.HashMap.{get, insert, is_empty}
use tower_rate_tier.Policy.{OnMissing, OnUnknownTier}
use tower_rate_tier.Prelude.{
  Bool, Bool-cases, Result, [], ap, arith, inl, inr, none, ok, refl, some, sym, ℕ, ◌∷◌, ◌≡◌, ◌≡◌,
}
use tower_rate_tier.Prelude.Text.{Text, codes, text_eq}
use tower_rate_tier.Quota.{Nanos, Quota, per_minute}
use tower_rate_tier.Quota.Bounds.{IsLimited}
use tower_rate_tier.Storage.{StorageKey}
use tower_rate_tier.Storage.Breaker.{Shared, breaker_storage, on_state_change}
use tower_rate_tier.Storage.Breaker.Serving.{check_and_update-Answered}
use tower_rate_tier.Storage.DashMap.{DashMap}
use tower_rate_tier.Storage.Redis.{Connection, redis_storage}
use tower_rate_tier.Storage.Redis.Key.{Sha1}
use tower_rate_tier.Tier.{RateTier, get_quota}
use tower_rate_tier.Tier.Builder.{Built, build, builder, built_in, custom, on_missing, tier}

-- The two quotas.
abbrev pub per_minute_of : ℕ → Quota
per_minute_of n = record { max_burst = n; window = 60_000_000_000 }

module _ (sha1 : Sha1) {C L W : Type 0} (eprintln : Text → L → L) (d : DashMap)
    (system_clock : W → Nanos) (in_runtime : W → Bool) (conn : Connection C) where
  -- The limiter, written out.
  abbrev pub limiter : RateTier (Shared d C L) W
  limiter = record {
    tiers = (codes "free", per_minute_of 5) ∷ (codes "pro", per_minute_of 100) ∷ [];
    default_tier = none;
    on_missing = OnMissing.deny 401;
    on_unknown_tier = OnUnknownTier.use_default;
    storage = breaker_storage (breaker sha1 eprintln conn);
    clock = system_clock;
    gc = none;
    in_runtime = in_runtime;
  }

  pub rate_tier-limiter :
      (world : W)
      → rate_tier sha1 eprintln d system_clock in_runtime conn world ≡ some (custom limiter)
  unfolding rate_tier build insert is_empty text_eq per_minute builder set_storage on_missing tier
  rate_tier-limiter world = refl

  -- A tier that a key has is configured.
  pub tier_of-known :
      (api_key tier : Text)
      → tier_of api_key ≡ some tier
      → (q : Quota) × (get_quota limiter tier ≡ some q) × IsLimited q
  unfolding tier_of get_quota get text_eq
  tier_of-known api_key tier e = elim (Bool-cases (text_eq api_key (codes "key_free"))) [
    | inl a ↦
        let f : codes "free" ≡ tier = some-injective _ _ (let g = rw a at e in g) in
        (
          per_minute_of 5,
          rw (sym f) refl,
          record { count_pos = omega arith; fast_enough = omega arith },
        )
    | inr a ↦ elim (Bool-cases (text_eq api_key (codes "key_pro"))) [
      | inl b ↦
          let f : codes "pro" ≡ tier = some-injective _ _ (let g = rw (a, b) at e in g) in
          (
            per_minute_of 100,
            rw (sym f) refl,
            record { count_pos = omega arith; fast_enough = omega arith },
          )
      | inr b ↦ let g = rw (a, b) at e in cc
    ]
  ]

  pub custom_injective :
      (t u : RateTier (Shared d C L) W)
      → ◌≡◌ {A = Built d (Shared d C L) W} (custom t) (custom u)
      → t ≡ u
  custom_injective t u e = ap (λ v. elim v [ custom r ↦ r | built_in r m ↦ t ]) e

  -- The breaker over Redis answers every check of a quota that a constructor built.
  pub breaker-answers :
      (key : StorageKey) (q : Quota) (cost : ℕ) (now : Nanos) (s : Shared d C L)
      → IsLimited q
      → (a : Result RateLimitInfo RateLimited) × (s' : Shared d C L) × (check_breaker
            (breaker sha1 eprintln conn)
            key
            q
            cost
            now
            s
          ≡ some (ok a, s'))
  unfolding breaker redis_storage check_redis_storage on_state_change new_breaker
  breaker-answers key q cost now s v =
      check_and_update-Answered (breaker sha1 eprintln conn) key q cost now s v (λ p. (_, refl))
