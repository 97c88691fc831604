-- ===== src/Service/Charged.antt =====
-- The layer of src/cost.rs around the service of src/service.rs.
use tower_rate_tier.Tier.{check as check_directly}
use tower_rate_tier.Check.{request_cost}
use tower_rate_tier.Cost.{call_with_cost, layer_cost, tier_cost}
use tower_rate_tier.Http.{Http, Request}
use tower_rate_tier.Policy.{TierIdentity}
use tower_rate_tier.Prelude.{◌>>=◌, Panics, ap, refl, some, ℕ, ◌∙◌, ◌≡◌}
use tower_rate_tier.Quota.{Quota}
use tower_rate_tier.Service.{Env, Inner, Reply, call}
use tower_rate_tier.Service.Direct.{limit_request-check, reply_to}
use tower_rate_tier.Service.Layers.{TierLimitLayer, layer, serve_limited}
use tower_rate_tier.Tier.{World, get_quota}

module _ {h : Http} {B R E S W : Type 0} (env : Env h R W) (l : TierLimitLayer h S W)
    (inner : Inner h B R E W) (cost : ℕ) where
  -- `tier_cost(cost)` around the limiter's layer around a service.
  abbrev pub serve_with_cost : Request h B → World S W → Panics (Reply h R E S W)
  serve_with_cost = call_with_cost (serve_limited env) (layer_cost (tier_cost cost) (layer l inner))

  -- The request that reaches the limiter.
  abbrev pub marked : Request h B → Request h B
  marked req = record req { parts = h.insert_tier_cost cost req.parts }

  request_cost-marked : (req : Request h B) → request_cost (marked req).parts l.settings ≡ cost
  unfolding request_cost
  request_cost-marked req = rw (request_cost, h.tier_cost-insert cost req.parts) refl

  -- Behind a `tier_cost` layer, a request that the identifier gives an identity of a configured
  -- tier is checked with exactly the layer's cost, whatever cost the request had and whatever cost
  -- function is set, and under the identity that its own headers give: the service does what
  -- `RateTier::check` says of that user, tier and cost.
  pub call_with_cost-check :
      (req : Request h B) (id : TierIdentity) (q : Quota) (w : World S W) (v : W)
      → l.settings.identifier.identify (h.headers req.parts) w.rest ≡ (some id, v)
      → get_quota l.rate_tier id.tier ≡ some q
      → serve_with_cost req w ≡ (
          check_directly l.rate_tier id.user_id id.tier cost (record w { rest = v })
          >>= reply_to env l.settings inner (marked req) id.user_id id.tier q)
  unfolding call_with_cost layer_cost tier_cost layer call
  call_with_cost-check req id q w v e known =
      rw (call_with_cost, call, h.headers-insert cost req.parts, e)
        (limit_request-check env l.rate_tier l.settings inner (marked req) id q
            (record w { rest = v }) known
          ∙ ap
              (λ c.
                check_directly l.rate_tier id.user_id id.tier c (record w { rest = v })
                >>= reply_to env l.settings inner (marked req) id.user_id id.tier q)
              (request_cost-marked req))
