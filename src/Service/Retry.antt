-- ===== src/Service/Retry.antt =====
-- What the Retry-After header of a refusal promises, over the built-in storage.
use tower_rate_tier.Storage.Memory.{check_and_update as check_memory}
use tower_rate_tier.Gcra.{RateLimitInfo, RateLimited}
use tower_rate_tier.Http.{Http, Request, Response}
use tower_rate_tier.Layer.{Settings}
use tower_rate_tier.Policy.{TierIdentity}
use tower_rate_tier.Prelude.{ok, some, ◌≡◌}
use tower_rate_tier.Prelude.Text.{Text}
use tower_rate_tier.Quota.{Quota}
use tower_rate_tier.Response.Headers.{IsRefusal}
use tower_rate_tier.Service.{Env, Inner, annotate, forward, into_body, limit_request}
use tower_rate_tier.Storage.{StorageKey}
use tower_rate_tier.Storage.DashMap.{DashMap}
use tower_rate_tier.Storage.Memory.{MemoryStorage, memory_storage}
use tower_rate_tier.SystemTime.{SystemTime}
use tower_rate_tier.Tier.{RateTier, World}
use tower_rate_tier.Tier.Calls.{HasInterval}

module _ (d : DashMap) {h : Http} {B R E W : Type 0} (env : Env h R W)
    (t : RateTier (MemoryStorage d) W) (s : Settings h W) (inner : Inner h B R E W)
    (has_interval : HasInterval t) (over_memory : t.storage ≡ memory_storage d) where
  abbrev pub asked_of : TierIdentity → StorageKey
  asked_of id = record { user_id = id.user_id; tier = id.tier }

  -- The reply to a refused request: 429 with its headers, and the buckets as they were.
  abbrev pub RefusedWith :
      Request h B
      → TierIdentity
      → RateLimited
      → Text
      → World (MemoryStorage d) W
      → MemoryStorage d
      → Type 0
  RefusedWith req id l name w n =
      (resp : Response h Text) × (at : SystemTime) × (w2 : World (MemoryStorage d) W)
      × (limit_request env t s inner req (some id) w ≡ some (ok (into_body env resp), w2))
      × IsRefusal h l at name resp
      × (w2.stored ≡ n)

  -- The wrapped service's answer, with the rate headers.
  abbrev pub ServedNow : Request h B → TierIdentity → World (MemoryStorage d) W → Type 0
  ServedNow req id w =
      (info : RateLimitInfo) × (w2 : World (MemoryStorage d) W) × (limit_request env t s inner req
          (some id) w
        ≡ some (annotate info (env.wall_clock w2.rest) (forward inner req w2)))
