-- ===== src/Apps/RedisFallback/Answered.antt =====
-- What examples/axum_redis_fallback.rs answers, whatever Redis does.
use tower_rate_tier.Layer.{new as new_settings}
use tower_rate_tier.Storage.Breaker.{check_and_update as check_breaker}
use mathlib.Core.Option.{some-injective}
use tower_rate_tier.Apps.{Web, read_header}
use tower_rate_tier.Apps.RedisFallback.{breaker, identify, layer_settings, rate_tier, tier_of}
use tower_rate_tier.Apps.RedisFallback.Limiter.{
  breaker-answers, custom_injective, limiter, rate_tier-limiter, tier_of-known,
}
use tower_rate_tier.Check.{missing_identity, process_result, request_cost, resolve_identity}
use tower_rate_tier.Gcra.{RateLimitInfo, RateLimited}
use tower_rate_tier.Http.{Http, Request}
use tower_rate_tier.Layer.{closure_identifier, headers_only, identifier_fn}
use tower_rate_tier.Policy.{TierIdentity}
use tower_rate_tier.Prelude.{
  ◌>>=◌, Bool, Option, Panics, Result, ap, arith, err, leb, none, ok, refl, some, sym, true, ◌∙◌,
  ◌≡◌,
}
use tower_rate_tier.Prelude.Text.{Text, codes}
use tower_rate_tier.Quota.{Nanos, Quota}
use tower_rate_tier.Quota.Bounds.{IsLimited, limited-is_unlimited}
use tower_rate_tier.Response.{deny_response, rate_limited_response}
use tower_rate_tier.Service.{
  Env, Inner, Reply, annotate, call, conclude, conclude_checked, forward, into_body, limit_request,
  short_circuit,
}
use tower_rate_tier.Service.Direct.{limit_request-asked}
use tower_rate_tier.Storage.{Decision, StorageKey}
use tower_rate_tier.Storage.Breaker.{Shared, breaker_storage}
use tower_rate_tier.Storage.DashMap.{DashMap}
use tower_rate_tier.Storage.Redis.{Connection}
use tower_rate_tier.Storage.Redis.Key.{Sha1}
use tower_rate_tier.Tier.{RateTier, World, ask_storage, get_quota, use_storage}
use tower_rate_tier.Tier.Builder.{custom, tier}

one_fits : (q : Quota) → IsLimited q → leb 1 q.max_burst ≡ true
one_fits q v = ground (arith, v.count_pos)

module _ (sha1 : Sha1) {C L W : Type 0} (eprintln : Text → L → L) (d : DashMap)
    (system_clock : W → Nanos) (in_runtime : W → Bool) (conn : Connection C) {h : Http}
    {B R E : Type 0} (web : Web h) (env : Env h R W) (inner : Inner h B R E W)
    (req : Request h B) where
  -- The reply, in the world after the breaker's answer: the wrapped service's with the headers, or
  -- 429.
  abbrev pub replied :
      Text
      → Result RateLimitInfo RateLimited
      → World (Shared d C L) W
      → Reply h R E (Shared d C L) W
  replied tier (ok info) w = annotate info (env.wall_clock w.rest) (forward inner req w)
  replied tier (err l) w =
      (ok (into_body env (rate_limited_response h l tier (env.wall_clock w.rest))), w)

  -- An unknown key is answered with 401 and nothing changes. A known one has the reply to what the
  -- breaker says of its quota.
  abbrev pub Answered :
      Option TierIdentity
      → RateTier (Shared d C L) W
      → World (Shared d C L) W
      → Panics (Reply h R E (Shared d C L) W)
      → Type 0
  Answered none t w out = out ≡ some (ok (into_body env (deny_response h 401)), w)
  Answered (some id) t w out =
      (q : Quota) × (a : Result RateLimitInfo RateLimited) × (s' : Shared d C L) × (get_quota t
          id.tier
        ≡ some q)
      × IsLimited q
      × (check_breaker (breaker sha1 eprintln conn)
            (record { user_id = id.user_id; tier = id.tier }) q 1 (system_clock w.rest) w.stored
          ≡ some (ok a, s'))
      × (out ≡ some (replied id.tier a (record w { stored = s' })))

  limited-replied :
      (t : RateTier (Shared d C L) W) (id : TierIdentity) (q : Quota)
      (a : Result RateLimitInfo RateLimited) (w : World (Shared d C L) W)
      → conclude_checked env (layer_settings web) inner req id.user_id id.tier (ok a, w)
        ≡ replied id.tier a w
  unfolding conclude_checked process_result conclude layer_settings identifier_fn new_settings
  limited-replied t id q (ok info) w = refl
  limited-replied t id q (err l) w = refl

  known-tier :
      (id : TierIdentity) (api_key : Text) (tier : Option Text)
      → tier_of api_key ≡ tier
      → (tier >>= λ t. some (record { user_id = api_key; tier = t })) ≡ some id
      → tier_of api_key ≡ some id.tier
  known-tier id api_key none e f = cc
  known-tier id api_key (some t) e f = e ∙ ap (λ v. v >>= λ i. some i.tier) f

  identify-tier :
      (id : TierIdentity) (header : Option Text)
      → (header >>= λ api_key.
          tier_of api_key >>= λ t. some (record { user_id = api_key; tier = t }))
        ≡ some id
      → (api_key : Text) × (tier_of api_key ≡ some id.tier)
  identify-tier id none e = cc
  identify-tier id (some api_key) e = (api_key, known-tier id api_key (tier_of api_key) refl e)

  fixed_cost :
      h.tier_cost req.parts ≡ none → request_cost req.parts (layer_settings {h = h} web {W = W}) ≡ 1
  unfolding request_cost layer_settings identifier_fn new_settings
  fixed_cost free = rw free refl

  asked-breaker :
      (key : StorageKey) (q : Quota) (now : Nanos) (w : World (Shared d C L) W) (a : Decision)
      (s' : Shared d C L)
      → check_breaker (breaker sha1 eprintln conn) key q 1 now w.stored ≡ some (a, s')
      → ask_storage (limiter sha1 eprintln d system_clock in_runtime conn) key q 1 now w
        ≡ some (a, record w { stored = s' })
  unfolding ask_storage use_storage breaker_storage
  asked-breaker key q now w a s' e = rw e refl

  identified-Answered :
      (identity : Option TierIdentity) (w : World (Shared d C L) W)
      → identify web (h.headers req.parts) ≡ identity
      → h.tier_cost req.parts ≡ none
      → Answered identity (limiter sha1 eprintln d system_clock in_runtime conn) w (
          limit_request env
            (limiter sha1 eprintln d system_clock in_runtime conn)
            (layer_settings web)
            inner
            req
            identity
            w)
  unfolding limit_request resolve_identity missing_identity short_circuit identify
  identified-Answered none w e free = refl
  identified-Answered (some id) w e free =
      let t = limiter sha1 eprintln d system_clock in_runtime conn in
      let (api_key, known) =
        identify-tier id (read_header web (codes "x-api-key") (h.headers req.parts)) e in
      let (q, configured, v) =
        tier_of-known sha1 eprintln d system_clock in_runtime conn api_key id.tier known in
      let (a, s', reply) =
        breaker-answers sha1 eprintln d system_clock in_runtime conn
          (record { user_id = id.user_id; tier = id.tier }) q 1 (system_clock w.rest) w.stored v in
      let cost = fixed_cost free in
      (
        q,
        a,
        s',
        configured,
        v,
        reply,
        limit_request-asked env t (layer_settings web) inner req id q w (record w { stored = s' })
              (ok a) configured (limited-is_unlimited q v) (rw cost (one_fits q v))
              (rw cost (
                asked-breaker (record { user_id = id.user_id; tier = id.tier }) q
                  (system_clock w.rest) w (ok a) s' reply))
            ∙ ap some (limited-replied t id q a (record w { stored = s' })),
      )

  -- Whatever Redis does, answers, fails or is late, and whatever state the breaker is in, take a
  -- request without a cost of its own to the limiter that the program builds. Without a key that
  -- the program's table has, it is answered with 401 and nothing changes. With one, the breaker
  -- answers the check of that user under the key's tier, by the clock, with cost 1 and a quota that
  -- limits, and never with an error; the reply is the wrapped service's with the rate headers, or
  -- 429, as that answer says.
  pub fallback_call-Answered :
      (t : RateTier (Shared d C L) W) (start : W) (w : World (Shared d C L) W)
      → rate_tier sha1 eprintln d system_clock in_runtime conn start ≡ some (custom t)
      → h.tier_cost req.parts ≡ none
      → Answered
          (identify web (h.headers req.parts))
          t
          w
          (call env t (layer_settings web) inner req w)
  unfolding call layer_settings identifier_fn closure_identifier headers_only
  fallback_call-Answered t start w built free =
      let f : t ≡ limiter sha1 eprintln d system_clock in_runtime conn =
        custom_injective sha1 eprintln d system_clock in_runtime conn _ _ (
          some-injective _ _
            (sym built ∙ rate_tier-limiter sha1 eprintln d system_clock in_runtime conn start)) in
      rw f (identified-Answered (identify web (h.headers req.parts)) w refl free)
