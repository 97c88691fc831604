-- ===== src/Layer.antt =====
-- src/layer.rs and src/event.rs: the settings of the middleware, its callbacks and its identifier.
-- `W` is all that the callbacks, the identifier and the inner service may read and change.
use tower_rate_tier.Gcra.{RateLimited}
use tower_rate_tier.Http.{Http, Response}
use tower_rate_tier.Policy.{OnStorageError, TierIdentity}
use tower_rate_tier.Prelude.{List, Option, none, some, ℕ}
use tower_rate_tier.Prelude.Text.{Text}
use tower_rate_tier.Storage.{StorageError}

pub data LimitEvent : Type 0 where
  storage_error : Text → Text → StorageError → LimitEvent
  unknown_tier : Text → Text → LimitEvent
  cost_exceeds_limit : Text → Text → ℕ → ℕ → LimitEvent

-- The trait `TierIdentifier`, its futures run to their end. A body is a list of bytes.
abbrev pub Bytes : Type 0
Bytes = List ℕ

pub record TierIdentifier (h : Http) (W : Type 0) : Type 0 where
  pub identify : h.HeaderMap → W → Option TierIdentity × W
  pub identify_with_body : h.HeaderMap → Bytes → W → Option TierIdentity × W

pub record Settings (h : Http) (W : Type 0) : Type 0 where
  pub identifier : TierIdentifier h W
  pub on_storage_error : OnStorageError
  pub on_limited : Option (Text → Text → RateLimited → W → W)
  pub rate_limited_response : Option (Text → Text → RateLimited → Response h Text)
  pub on_event : Option (LimitEvent → W → W)
  pub cost_fn : Option (h.Parts → ℕ)

module _ {h : Http} {W : Type 0} where
  -- The trait's default for `identify_with_body`.
  unfoldable pub headers_only : (h.HeaderMap → W → Option TierIdentity × W) → TierIdentifier h W
  headers_only identify = record {
    identify = identify;
    identify_with_body = λ headers body. identify headers;
  }

  unfoldable pub noop_identifier : TierIdentifier h W
  unfolding headers_only
  noop_identifier = headers_only (λ headers w. (none, w))

  unfoldable pub closure_identifier : (h.HeaderMap → Option TierIdentity) → TierIdentifier h W
  unfolding headers_only
  closure_identifier f = headers_only (λ headers w. (f headers, w))

  -- The settings of `TierLimitLayer::new`.
  unfoldable pub new : Settings h W
  unfolding noop_identifier
  new = record {
    identifier = noop_identifier;
    on_storage_error = OnStorageError.allow;
    on_limited = none;
    rate_limited_response = none;
    on_event = none;
    cost_fn = none;
  }

  unfoldable pub identifier : Settings h W → TierIdentifier h W → Settings h W
  identifier s f = record s { identifier = f }

  unfoldable pub identifier_fn : Settings h W → (h.HeaderMap → Option TierIdentity) → Settings h W
  unfolding closure_identifier
  identifier_fn s f = record s { identifier = closure_identifier f }

  unfoldable pub on_storage_error : Settings h W → OnStorageError → Settings h W
  on_storage_error s policy = record s { on_storage_error = policy }

  unfoldable pub on_limited : Settings h W → (Text → Text → RateLimited → W → W) → Settings h W
  on_limited s f = record s { on_limited = some f }

  unfoldable pub rate_limited_response :
      Settings h W → (Text → Text → RateLimited → Response h Text) → Settings h W
  rate_limited_response s f = record s { rate_limited_response = some f }

  unfoldable pub cost_fn : Settings h W → (h.Parts → ℕ) → Settings h W
  cost_fn s f = record s { cost_fn = some f }

  unfoldable pub on_event : Settings h W → (LimitEvent → W → W) → Settings h W
  on_event s f = record s { on_event = some f }
