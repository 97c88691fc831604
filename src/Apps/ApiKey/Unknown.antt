-- ===== src/Apps/ApiKey/Unknown.antt =====
-- What examples/axum_api_key.rs answers to a key that it does not know.
use tower_rate_tier.Layer.{new as new_settings}
use tower_rate_tier.Tier.Builder.{storage as set_storage}
use tower_rate_tier.Apps.{Web, with_tiers}
use tower_rate_tier.Apps.ApiKey.{Lookup, identify, layer_settings, rate_tier}
use tower_rate_tier.Check.{missing_identity, resolve_identity}
use tower_rate_tier.HashMap.{contains_key, get, insert, is_empty}
use tower_rate_tier.Http.{Http, Request}
use tower_rate_tier.Layer.{cost_fn, headers_only, identifier}
use tower_rate_tier.Policy.{OnMissing}
use tower_rate_tier.Prelude.{Bool, Option, ap, none, ok, refl, some, sym, ◌≡◌}
use tower_rate_tier.Prelude.Text.{Text, text_eq}
use tower_rate_tier.Quota.{Nanos, per_minute, with_window}
use tower_rate_tier.Response.{deny_response}
use tower_rate_tier.Service.{Env, Inner, call, into_body, limit_request, short_circuit}
use tower_rate_tier.Storage.DashMap.{DashMap}
use tower_rate_tier.Storage.Redis.{Connection}
use tower_rate_tier.Storage.Redis.Key.{Sha1}
use tower_rate_tier.Tier.{RateTier, World}
use tower_rate_tier.Tier.Builder.{build, builder, built_in, custom, default_tier, on_missing, tier}

module _ (sha1 : Sha1) {C W : Type 0} (d : DashMap) (system_clock : W → Nanos)
    (in_runtime : W → Bool) (conn : Connection C) (secret : Option Text) where
  denies-unknown :
      (t : RateTier C W) (start : W)
      → rate_tier sha1 d system_clock in_runtime conn secret start ≡ some (custom t)
      → t.on_missing ≡ OnMissing.deny 401
  unfolding rate_tier with_tiers build insert is_empty contains_key get text_eq per_minute builder
      set_storage on_missing tier default_tier with_window
  denies-unknown t start e =
      ap
        (λ v. elim v [
          | some (custom r) ↦ r.on_missing
          | some (built_in r m) ↦ r.on_missing
          | none ↦ OnMissing.allow
        ])
        (sym e)

  -- Of the limiter that the program builds, a request whose key the lookup does not find, in time
  -- and without an error, or that has no readable key, is answered with 401. The storage of the
  -- limits is not asked, and all that changes is what the lookup changed.
  pub unknown_key_refused :
      {h : Http} {B R E : Type 0} (web : Web h) (conn_get : Text → W → Lookup × W) (env : Env h R W)
      (inner : Inner h B R E W) (req : Request h B) (t : RateTier C W) (start w' : W)
      (w : World C W)
      → rate_tier sha1 d system_clock in_runtime conn secret start ≡ some (custom t)
      → identify web conn_get (h.headers req.parts) w.rest ≡ (none, w')
      → call env t (layer_settings web conn_get) inner req w
        ≡ some (ok (into_body env (deny_response h 401)), record w { rest = w' })
  unfolding call layer_settings cost_fn identifier new_settings headers_only limit_request
      resolve_identity missing_identity short_circuit
  unknown_key_refused web conn_get env inner req t start w' w built e =
      rw (e, denies-unknown t start built) refl
