-- ===== src/Apps/ApiKey.antt =====
-- examples/axum_api_key.rs: tiers and limits in Redis.
pub mod Unknown
use tower_rate_tier.Tier.Builder.{storage as set_storage}
use tower_rate_tier.Layer.{new as new_settings}
use tower_rate_tier.Storage.Redis.{new as new_redis}
use tower_rate_tier.Apps.{Web, read_header, route_cost, with_tiers}
use tower_rate_tier.Http.{Http}
use tower_rate_tier.Layer.{Settings, cost_fn, headers_only, identifier}
use tower_rate_tier.Policy.{OnMissing, TierIdentity}
use tower_rate_tier.Prelude.{◌++◌, ◌>>=◌, Bool, Option, Panics, none, some}
use tower_rate_tier.Prelude.Text.{Text, as_bytes, codes}
use tower_rate_tier.Quota.{Nanos}
use tower_rate_tier.Storage.DashMap.{DashMap}
use tower_rate_tier.Storage.Redis.{Connection, RedisStorage, key_secret, redis_storage}
use tower_rate_tier.Storage.Redis.Key.{Sha1}
use tower_rate_tier.Tier.Builder.{Built, build, on_missing}

-- How the lookup of a key ends, and what its hundred milliseconds may cut off.
pub data Lookup : Type 0 where
  found : Text → Lookup
  missing failed late : Lookup

abbrev pub identity_of : Text → Lookup → Option TierIdentity
identity_of api_key (found tier) = some (record { user_id = api_key; tier = tier })
identity_of api_key missing = none
identity_of api_key failed = none
identity_of api_key late = none

module _ {h : Http} (web : Web h) {W : Type 0} (conn_get : Text → W → Lookup × W) where
  unfoldable pub identify : h.HeaderMap → W → Option TierIdentity × W
  unfolding read_header
  identify headers w = elim (read_header web (codes "x-api-key") headers) [
    | none ↦ (none, w)
    | some api_key ↦
        let (looked_up, w') = conn_get (codes "tier:" ++ api_key) w in
        (identity_of api_key looked_up, w')
  ]

  unfoldable pub layer_settings : Settings h W
  unfolding identify route_cost
  layer_settings =
      cost_fn (identifier new_settings (headers_only identify))
        (route_cost web (codes "/api/export"))

module _ {C : Type 0} where
  -- The storage, with the secret from the environment.
  unfoldable pub redis : Connection C → Option Text → RedisStorage C
  redis conn none = new_redis conn
  redis conn (some secret) = key_secret (new_redis conn) (as_bytes secret)

module _ (sha1 : Sha1) {C W : Type 0} (d : DashMap) (system_clock : W → Nanos)
    (in_runtime : W → Bool) where
  -- The limiter that `main` builds.
  unfoldable pub rate_tier : Connection C → Option Text → W → Panics (Built d C W)
  unfolding with_tiers redis
  rate_tier conn secret world = with_tiers >>= λ b.
      build d system_clock in_runtime
        (set_storage (on_missing b (OnMissing.deny 401)) (redis_storage sha1 (redis conn secret)))
        world
