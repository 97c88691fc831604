-- ===== src/Apps/Basic.antt =====
-- examples/axum_basic.rs: a closure that identifies the user, and a cost for each route.
use tower_rate_tier.Layer.{new as new_settings}
use tower_rate_tier.Apps.{Web, read_header, route_cost, with_tiers}
use tower_rate_tier.Http.{Http}
use tower_rate_tier.Layer.{Settings, cost_fn, identifier_fn}
use tower_rate_tier.Policy.{TierIdentity}
use tower_rate_tier.Prelude.{◌>>=◌, Bool, Option, Panics, if◌then◌else◌, some, ◌>>=◌}
use tower_rate_tier.Prelude.Text.{Text, codes, text_eq}
use tower_rate_tier.Quota.{Nanos}
use tower_rate_tier.Storage.DashMap.{DashMap}
use tower_rate_tier.Tier.Builder.{Built, build}

unfoldable pub tier_name : Text → Text
unfolding text_eq
tier_name api_key =
    if text_eq api_key (codes "pro-user")
    then codes "pro"
    else if text_eq api_key (codes "enterprise-user")
    then codes "enterprise"
    else codes "free"

module _ {h : Http} (web : Web h) where
  unfoldable pub identify : h.HeaderMap → Option TierIdentity
  unfolding read_header tier_name
  identify headers = do
    api_key ← read_header web (codes "x-api-key") headers
    some (record { user_id = api_key; tier = tier_name api_key })

  unfoldable pub layer_settings : {W : Type 0} → Settings h W
  unfolding identify route_cost
  layer_settings =
      cost_fn (identifier_fn new_settings identify) (route_cost web (codes "/api/search"))

module _ {W : Type 0} (d : DashMap) (system_clock : W → Nanos) (in_runtime : W → Bool) where
  -- The limiter that `main` builds, over the built-in storage.
  unfoldable pub rate_tier : W → Panics (Built d ⊥ W)
  unfolding with_tiers
  rate_tier world = with_tiers >>= λ b. build d system_clock in_runtime b world
