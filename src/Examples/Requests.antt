-- ===== src/Examples/Requests.antt =====
-- A history of HTTP requests of one user, with bodies that tell the wrapped service's replies from
-- the middleware's.
use tower_rate_tier.Storage.Memory.{check_and_update as check_memory, new as new_memory}
use tower_rate_tier.Check.{
  process_result, reject_cost_over_limit, request_cost, resolve_identity, resolve_quota,
}
use tower_rate_tier.Examples.Limiter.{
  free_quota, full, limited, limiter-HasInterval, limiter-HasLimits,
}
use tower_rate_tier.Examples.Memory.{quota}
use tower_rate_tier.Examples.Service.{http, limiter, request, settings, world}
use tower_rate_tier.Examples.Table.{table}
use tower_rate_tier.Gcra.{check_gcra}
use tower_rate_tier.HashMap.{get}
use tower_rate_tier.Http.{Response}
use tower_rate_tier.Layer.{headers_only}
use tower_rate_tier.Prelude.{
  ◌*◌, ◌+◌, ◌-◌, ◌<◌, Bool, List, Option, Panics, Result, [], arith, false, none, ok, refl, some,
  true, u64_max, ℕ, ◌∷◌, ◌≡◌, ◌≤◌,
}
use tower_rate_tier.Prelude.Text.{Text, codes, text_eq}
use tower_rate_tier.Quota.{burst_offset_nanos, emission_interval_nanos, is_unlimited}
use tower_rate_tier.Response.{inject_headers, rate_limited_response}
use tower_rate_tier.Service.{
  Env, Inner, call, charge, conclude, conclude_checked, forward, limit_request,
}
use tower_rate_tier.Service.Passed.{passed_in}
use tower_rate_tier.Service.Rate.{EndsBy, requests_spent_bound}
use tower_rate_tier.Service.Requests.{Arrival, Event, arrived, asks_of, serve_requests, ticked}
use tower_rate_tier.Storage.DashMap.{key_eq}
use tower_rate_tier.Storage.Memory.{MemoryStorage, memory_storage, retain_active}
use tower_rate_tier.Storage.Memory.Runs.{Ordered}
use tower_rate_tier.SystemTime.{after_epoch}
use tower_rate_tier.Tier.{World, ask_storage}

abbrev tagged : Env http (Option Text) ℕ
tagged = record { from_string = λ body. none; wall_clock = λ now. after_epoch now }

abbrev own_body : Option Text → Bool
own_body none = false
own_body (some body) = true

abbrev hello : Inner http Unit (Option Text) ⊥ ℕ
hello req w = (ok (record { status = 200; headers = []; body = some (codes "hello") }), w)

abbrev requests_at : List (Event http Unit ℕ)
requests_at =
    arrived (record { request = request; at = 100 })
    ∷ arrived (record { request = request; at = 105 })
    ∷ ticked 110
    ∷ arrived (record { request = request; at = 125 })
    ∷ []

abbrev served : Panics (
    List (Arrival http Unit ℕ × Result (Response http (Option Text)) ⊥)
    × World (MemoryStorage table) ℕ)
served = serve_requests table tagged limiter settings hello world requests_at

abbrev passed_of :
    Panics (
      List (Arrival http Unit ℕ × Result (Response http (Option Text)) ⊥)
      × World (MemoryStorage table) ℕ)
    → ℕ
passed_of none = 0
passed_of (some (out, w)) = passed_in settings own_body (codes "ana") (codes "free") out

-- The second request is refused.
two_pass : passed_of served ≡ 4
unfolding serve_requests call limit_request resolve_identity headers_only resolve_quota get text_eq
    charge reject_cost_over_limit request_cost ask_storage memory_storage check_memory new_memory
    check_gcra emission_interval_nanos burst_offset_nanos process_result conclude_checked conclude
    forward retain_active is_unlimited key_eq inject_headers rate_limited_response
two_pass = refl

bodies_told : (text : Text) → own_body (tagged.from_string text) ≡ false
bodies_told text = refl

requests_room : 125 + burst_offset_nanos quota < u64_max
unfolding burst_offset_nanos
requests_room = omega arith

requests-Ordered : Ordered 100 (asks_of limiter settings requests_at)
unfolding headers_only resolve_identity resolve_quota get text_eq is_unlimited request_cost
requests-Ordered = omega arith

requests-EndsBy : EndsBy 125 (asks_of limiter settings requests_at)
unfolding headers_only resolve_identity resolve_quota get text_eq is_unlimited request_cost
requests-EndsBy = omega arith

requests_spent_bound_example :
    (out : List (Arrival http Unit ℕ × Result (Response http (Option Text)) ⊥)) × (w : World
      (MemoryStorage table)
      ℕ)
    × (serve_requests table tagged limiter settings hello world requests_at ≡ some (out, w))
    × (emission_interval_nanos quota * passed_in settings own_body (codes "ana") (codes "free") out
        ≤ burst_offset_nanos quota + (125 - 100))
requests_spent_bound_example =
    requests_spent_bound table tagged limiter settings hello own_body (codes "ana") (codes "free")
      bodies_told limiter-HasInterval refl limiter-HasLimits quota free_quota limited 100 125 world
      requests_at (omega arith) requests-Ordered requests-EndsBy requests_room full
