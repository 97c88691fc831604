-- ===== src/Apps/RedisFallback.antt =====
-- examples/axum_redis_fallback.rs: limits in Redis, and from local memory while Redis is down.
pub mod Limiter
pub mod Answered
use tower_rate_tier.Tier.Builder.{storage as set_storage}
use tower_rate_tier.Layer.{new as new_settings}
use tower_rate_tier.Storage.Breaker.{new as new_breaker}
use tower_rate_tier.Storage.Redis.{new as new_redis}
use tower_rate_tier.Apps.{Web, read_header}
use tower_rate_tier.Http.{Http}
use tower_rate_tier.Layer.{Settings, identifier_fn}
use tower_rate_tier.Policy.{OnMissing, TierIdentity}
use tower_rate_tier.Prelude.{
  ◌++◌, Bool, Option, Panics, Result, err, if◌then◌else◌, none, ok, some, ◌>>=◌, ◌>>◌,
}
use tower_rate_tier.Prelude.Text.{Text, codes, text_eq}
use tower_rate_tier.Quota.{Nanos, per_minute}
use tower_rate_tier.Storage.{display_storage_error}
use tower_rate_tier.Storage.Breaker.{CircuitBreaker, Shared, breaker_storage, on_state_change}
use tower_rate_tier.Storage.Breaker.Event.{BreakerEvent, primary_failed}
use tower_rate_tier.Storage.DashMap.{DashMap}
use tower_rate_tier.Storage.Redis.{Connection, redis_storage}
use tower_rate_tier.Storage.Redis.Key.{Sha1}
use tower_rate_tier.Tier.Builder.{Built, build, builder, on_missing, tier}

-- How the attempt to connect at the start ends, without and within its two seconds.
pub data Connected (C E : Type 0) : Type 0 where
  connected : C → Connected C E
  failed : E → Connected C E
  late : Connected C E

-- An error that is not the network's stops the program; the rest is only printed.
unfoldable pub check_redis :
    {C E L : Type 0} → (Text → L → L) → (E → Bool) → Connected C E → L → Result (Unit {0}) E × L
check_redis eprintln is_io_error (connected conn) world = (ok tt, world)
check_redis eprintln is_io_error (failed error) world =
    if is_io_error error
    then (ok tt, eprintln (codes "redis unreachable at startup, starting anyway") world)
    else (err error, world)
check_redis eprintln is_io_error late world =
    (ok tt, eprintln (codes "redis unreachable at startup, starting anyway") world)

unfoldable pub tier_of : Text → Option Text
unfolding text_eq
tier_of api_key =
    if text_eq api_key (codes "key_free")
    then some (codes "free")
    else if text_eq api_key (codes "key_pro")
    then some (codes "pro")
    else none

module _ {h : Http} (web : Web h) where
  unfoldable pub identify : h.HeaderMap → Option TierIdentity
  unfolding read_header tier_of
  identify headers = do
    api_key ← read_header web (codes "x-api-key") headers
    tier ← tier_of api_key
    some (record { user_id = api_key; tier = tier })

  unfoldable pub layer_settings : {W : Type 0} → Settings h W
  unfolding identify
  layer_settings = identifier_fn new_settings identify

-- What the program prints when the breaker opens and closes.
unfoldable pub report_state : {L : Type 0} → (Text → L → L) → BreakerEvent → L → L
unfolding display_storage_error
report_state eprintln (BreakerEvent.opened error) world =
    eprintln (codes "rate limiter: redis down, limiting locally: " ++ display_storage_error error)
      world
report_state eprintln BreakerEvent.closed world = eprintln (codes "rate limiter: redis back") world
report_state eprintln (primary_failed error) world = world

module _ (sha1 : Sha1) {C L : Type 0} (eprintln : Text → L → L) where
  unfoldable pub breaker : Connection C → CircuitBreaker C L
  unfolding report_state
  breaker conn =
      on_state_change (new_breaker (redis_storage sha1 (new_redis conn))) (report_state eprintln)

module _ (sha1 : Sha1) {C L W : Type 0} (eprintln : Text → L → L) (d : DashMap)
    (system_clock : W → Nanos) (in_runtime : W → Bool) where
  -- The limiter that `main` builds.
  unfoldable pub rate_tier : Connection C → W → Panics (Built d (Shared d C L) W)
  unfolding breaker
  rate_tier conn world = do
    free ← per_minute 5
    pro ← per_minute 100
    build d system_clock in_runtime
        (set_storage
          (on_missing (tier (tier builder (codes "free") free) (codes "pro") pro)
            (OnMissing.deny 401))
          (breaker_storage (breaker sha1 eprintln conn)))
        world
