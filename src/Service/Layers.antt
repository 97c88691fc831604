-- ===== src/Service/Layers.antt =====
-- The layers of src/layer.rs and src/buffered.rs, and the services that they make.
use tower_rate_tier.Http.{Http, Request}
use tower_rate_tier.Layer.{Bytes, Settings}
use tower_rate_tier.Prelude.{Panics, ℕ}
use tower_rate_tier.Service.{Env, Inner, Reply, call}
use tower_rate_tier.Service.Buffered.{BodyReader, call_buffered, default_max_body_size}
use tower_rate_tier.Tier.{RateTier, World}

pub record TierLimitLayer (h : Http) (S W : Type 0) : Type 0 where
  pub rate_tier : RateTier S W
  pub settings : Settings h W

pub record TierLimitService (h : Http) (S W I : Type 0) : Type 0 where
  pub inner : I
  pub rate_tier : RateTier S W
  pub settings : Settings h W

pub record BufferedTierLimitLayer (h : Http) (S W : Type 0) : Type 0 where
  pub rate_tier : RateTier S W
  pub settings : Settings h W
  pub max_body_size : ℕ

pub record BufferedTierLimitService (h : Http) (S W I : Type 0) : Type 0 where
  pub inner : I
  pub rate_tier : RateTier S W
  pub settings : Settings h W
  pub max_body_size : ℕ

module _ {h : Http} {S W : Type 0} where
  -- `TierLimitLayer::layer`
  unfoldable pub layer : {I : Type 0} → TierLimitLayer h S W → I → TierLimitService h S W I
  layer l inner = record { inner = inner; rate_tier = l.rate_tier; settings = l.settings }

  unfoldable pub buffer_body : TierLimitLayer h S W → BufferedTierLimitLayer h S W
  buffer_body l = record {
    rate_tier = l.rate_tier;
    settings = l.settings;
    max_body_size = default_max_body_size;
  }

  unfoldable pub max_body_size : BufferedTierLimitLayer h S W → ℕ → BufferedTierLimitLayer h S W
  max_body_size l size = record l { max_body_size = size }

  -- `BufferedTierLimitLayer::layer`
  unfoldable pub layer_buffered :
      {I : Type 0} → BufferedTierLimitLayer h S W → I → BufferedTierLimitService h S W I
  layer_buffered l inner = record {
    inner = inner;
    rate_tier = l.rate_tier;
    settings = l.settings;
    max_body_size = l.max_body_size;
  }

module _ {h : Http} {B R E S W : Type 0} (env : Env h R W) where
  -- The services' `call`s, on what they were made of.
  abbrev pub serve_limited :
      TierLimitService h S W (Inner h B R E W) → Request h B → World S W → Panics (Reply h R E S W)
  serve_limited s req w = call env s.rate_tier s.settings s.inner req w

  abbrev pub serve_buffered :
      BodyReader B
      → BufferedTierLimitService h S W (Inner h Bytes R E W)
      → Request h B
      → World S W
      → Panics (Reply h R E S W)
  serve_buffered reader s req w =
      call_buffered env reader s.max_body_size s.rate_tier s.settings s.inner req w
