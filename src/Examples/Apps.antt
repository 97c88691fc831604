-- ===== src/Examples/Apps.antt =====
-- examples/axum_redis_fallback.rs while Redis does not answer.
use tower_rate_tier.Storage.Breaker.{
  check_and_update as check_breaker, new as new_breaker, on_state_change as set_on_state_change,
}
use tower_rate_tier.Storage.Redis.{check_and_update as check_in_redis, new as new_redis}
use tower_rate_tier.Storage.Memory.{check_and_update as check_memory}
use tower_rate_tier.Layer.{new as new_settings, identifier_fn, closure_identifier, headers_only}
use tower_rate_tier.Apps.RedisFallback.{identify as key_identity, layer_settings as key_settings}
use tower_rate_tier.Apps.RedisFallback.Answered.{Answered as FallbackAnswered}
use tower_rate_tier.Apps.RedisFallback.Limiter.{limiter as limiter_of, rate_tier-limiter}
use tower_rate_tier.Storage.Memory.{new as new_memory}
use tower_rate_tier.Apps.{Web, read_header}
use tower_rate_tier.Apps.RedisFallback.{breaker, report_state, tier_of}
use tower_rate_tier.Apps.RedisFallback.Answered.{fallback_call-Answered}
use tower_rate_tier.Check.{
  missing_identity, process_result, reject_cost_over_limit, request_cost, resolve_identity,
  resolve_quota,
}
use tower_rate_tier.Examples.Redis.{connection, constant}
use tower_rate_tier.Examples.Service.{answering, env, http}
use tower_rate_tier.Examples.Table.{table}
use tower_rate_tier.Gcra.{check_gcra}
use tower_rate_tier.HashMap.{get}
use tower_rate_tier.Http.{Request, Response, other, same_name}
use tower_rate_tier.Prelude.{
  ◌>>=◌, List, Panics, Result, [], err, false, none, ok, refl, some, suc, true, zero, ℕ, ◌∷◌, ◌≡◌,
}
use tower_rate_tier.Prelude.Text.{Text, codes, text_eq}
use tower_rate_tier.Quota.{burst_offset_nanos, emission_interval_nanos, is_unlimited}
use tower_rate_tier.Response.{deny_response, inject_headers, rate_limited_response}
use tower_rate_tier.Service.{
  call, charge, conclude, conclude_checked, forward, limit_request, short_circuit,
}
use tower_rate_tier.Storage.Breaker.{
  Shared, admit, begin, breaker_storage, check_fallback, emit, finish, initial, prune_fallback,
  prune_fallback_if_due, settle,
}
use tower_rate_tier.Storage.{display_storage_error}
use tower_rate_tier.Storage.Breaker.Event.{BreakerEvent}
use tower_rate_tier.Storage.Breaker.Transition.{after_call}
use tower_rate_tier.Storage.DashMap.{key_eq}
use tower_rate_tier.Storage.Memory.{retain_active}
use tower_rate_tier.Storage.Redis.{redis_storage}
use tower_rate_tier.Tier.{RateTier, World, ask_storage, get_quota, use_storage}

abbrev web : Web http
web = record { to_str = λ value. some value; path = λ parts. codes "/api/data" }

abbrev with_key : Text → Request http Unit
with_key api_key = record { parts = ((other (codes "x-api-key"), api_key) ∷ [], none); body = tt }

-- What is printed is a list.
abbrev eprintln : Text → List Text → List Text
eprintln line lines = line ∷ lines

abbrev fallback_limiter : RateTier (Shared table Unit (List Text)) ℕ
fallback_limiter = limiter_of constant eprintln table (λ now. now) (λ now. true) connection

abbrev at_start : World (Shared table Unit (List Text)) ℕ
at_start = record { stored = initial tt (new_memory table) []; gc_started = false; rest = 7 }

abbrev status_of :
    Panics (Result (Response http Text) ⊥ × World (Shared table Unit (List Text)) ℕ) → ℕ
status_of none = 0
status_of (some (ok reply, w)) = reply.status
status_of (some (err e, w)) = absurd e

-- `call` for one key.
abbrev asked_with :
    Text
    → World (Shared table Unit (List Text)) ℕ
    → Panics (Result (Response http Text) ⊥ × World (Shared table Unit (List Text)) ℕ)
asked_with api_key w = call env fallback_limiter (key_settings web) answering (with_key api_key) w

unknown_key : status_of (asked_with (codes "unknown") at_start) ≡ 401
unfolding call key_settings key_identity read_header tier_of text_eq same_name new_settings
    identifier_fn closure_identifier headers_only limit_request resolve_identity missing_identity
    short_circuit deny_response
unknown_key = refl

-- Each request after the one before, all at the same time.
abbrev asked_times :
    ℕ
    → World (Shared table Unit (List Text)) ℕ
    → Panics (Result (Response http Text) ⊥ × World (Shared table Unit (List Text)) ℕ)
asked_times zero w = asked_with (codes "key_free") w
asked_times (suc n) w = asked_with (codes "key_free") w >>= λ (r, w'). asked_times n w'

-- Memory lets five requests of a key pass.
sixth_refused :
    (status_of (asked_times 4 at_start) ≡ 200) × (status_of (asked_times 5 at_start) ≡ 429)
unfolding call key_settings key_identity read_header tier_of text_eq same_name new_settings
    identifier_fn closure_identifier headers_only limit_request resolve_identity resolve_quota get
    get_quota is_unlimited charge reject_cost_over_limit request_cost ask_storage use_storage
    breaker_storage check_breaker breaker new_breaker set_on_state_change redis_storage
    check_in_redis new_redis admit begin settle after_call finish check_fallback check_memory
    prune_fallback_if_due prune_fallback retain_active new_memory initial check_gcra
    emission_interval_nanos burst_offset_nanos conclude_checked process_result conclude forward emit
    report_state key_eq inject_headers rate_limited_response
sixth_refused = (refl, refl)

-- What is printed when the breaker opens.
opening_reported :
    report_state eprintln (BreakerEvent.opened (record { message = codes "pool timed out" })) []
    ≡ codes "rate limiter: redis down, limiting locally: storage error: pool timed out" ∷ []
unfolding report_state display_storage_error
opening_reported = refl

fallback_call-Answered_example :
    FallbackAnswered constant eprintln table
      (λ now. now)
      (λ now. true)
      connection
      web
      env
      answering
      (with_key (codes "key_free"))
      (key_identity web ((other (codes "x-api-key"), codes "key_free") ∷ []))
      fallback_limiter
      at_start
      (call env fallback_limiter
        (key_settings web)
        answering
        (with_key (codes "key_free"))
        at_start)
fallback_call-Answered_example =
    fallback_call-Answered constant eprintln table (λ now. now) (λ now. true) connection web env
      answering (with_key (codes "key_free")) fallback_limiter 0 at_start
      (rate_tier-limiter constant eprintln table (λ now. now) (λ now. true) connection 0) refl
