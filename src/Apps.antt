-- ===== src/Apps.antt =====
-- The programs of examples/: how they put the library together. Their routes, listeners and
-- connections are not modelled.
pub mod Basic
pub mod ApiKey
pub mod Jwt
pub mod RedisFallback
use tower_rate_tier.Http.{Http, other}
use tower_rate_tier.Prelude.{Option, Panics, if◌then◌else◌, some, ℕ, ◌>>=◌, ◌>>◌}
use tower_rate_tier.Prelude.Text.{Text, codes, text_eq}
use tower_rate_tier.Quota.{per_minute, unlimited}
use tower_rate_tier.Tier.Builder.{RateTierBuilder, builder, default_tier, tier}

-- What the programs use of the crate `http` besides: `HeaderValue::to_str`, and the path of a
-- request.
pub record Web (h : Http) : Type 0 where
  pub to_str : Text → Option Text
  pub path : h.Parts → Text

module _ {h : Http} (web : Web h) where
  -- `headers.get(name)?.to_str().ok()?`
  unfoldable pub read_header : Text → h.HeaderMap → Option Text
  read_header name headers = do value ← h.get headers (other name); web.to_str value

  -- A `cost_fn` of one route that costs more.
  unfoldable pub route_cost : Text → h.Parts → ℕ
  unfolding text_eq
  route_cost route parts = if text_eq (web.path parts) route then 5 else 1

-- The tiers of the three programs that have the same ones.
module _ {S W : Type 0} where
  unfoldable pub with_tiers : Panics (RateTierBuilder S W)
  with_tiers = do
    free ← per_minute 10
    pro ← per_minute 100
    some (
        default_tier
          (tier (tier (tier builder (codes "free") free) (codes "pro") pro) (codes "enterprise")
            unlimited)
          (codes "free"))
