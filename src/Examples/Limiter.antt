-- ===== src/Examples/Limiter.antt =====
-- The check without HTTP, the builder, the cost layer and the collector at concrete inputs.
use tower_rate_tier.Tier.{check as check_directly}
use tower_rate_tier.Storage.Memory.{new as new_memory}
use tower_rate_tier.Examples.Memory.{quota, quota-IsLimited}
use tower_rate_tier.Examples.Replies.{free_ana}
use tower_rate_tier.Examples.Service.{answering, env, http, limiter, request, settings, world}
use tower_rate_tier.Examples.Table.{table}
use tower_rate_tier.Gc.Sweep.{steps-bucket}
use tower_rate_tier.Gc.{GcEvent, dropped, steps}
use tower_rate_tier.Gcra.Decision.{current}
use tower_rate_tier.HashMap.{get, is_empty}
use tower_rate_tier.Layer.{headers_only}
use tower_rate_tier.Prelude.{
  ◌*◌, ◌+◌, ◌-◌, ◌<◌, ◌>>=◌, List, [], arith, false, leb, none, refl, some, true, u64_max, ℕ, ◌∷◌,
  ◌≡◌, ◌≤◌,
}
use tower_rate_tier.Prelude.Text.{Text, codes, text_eq}
use tower_rate_tier.Quota.{Quota, burst_offset_nanos, emission_interval_nanos, is_unlimited}
use tower_rate_tier.Service.Charged.{call_with_cost-check, marked, serve_with_cost}
use tower_rate_tier.Service.Direct.{reply_to}
use tower_rate_tier.Service.Layers.{TierLimitLayer}
use tower_rate_tier.Storage.DashMap.{kept}
use tower_rate_tier.Storage.Memory.{MemoryStorage}
use tower_rate_tier.Storage.Memory.Buckets.{bucket}
use tower_rate_tier.Tier.{World, get_quota}
use tower_rate_tier.Tier.Builder.{
  Built, RateTierBuilder, build, builder, default_exists, default_tier, tier,
}
use tower_rate_tier.Tier.Builder.Made.{Spawns, build-Made, by_default, by_default_tier, by_tier}
use tower_rate_tier.Tier.Calls.{Answered, Event, HasInterval, called, paid_in, serve_checks, ticked}
use tower_rate_tier.Tier.Rate.{HasLimits, check_spent_bound}

pub limiter-HasInterval : HasInterval limiter
limiter-HasInterval gc e = absurd cc

only_quota : (name : Text) (q : Quota) → get_quota limiter name ≡ some q → q ≡ quota
unfolding get_quota get
only_quota name q e = ground arith

pub limiter-HasLimits : HasLimits limiter
limiter-HasLimits name q e l = rw (only_quota name q e) quota-IsLimited

-- Calls of two users, and a round of the collector.
abbrev events : List (Event ℕ)
events =
    called (codes "ana") (codes "free") 2 100
    ∷ called (codes "bob") (codes "free") 1 101
    ∷ ticked 102
    ∷ called (codes "ana") (codes "free") 2 103
    ∷ called (codes "ana") (codes "gold") 1 104
    ∷ []

pub free_quota : get_quota limiter (codes "free") ≡ some quota
unfolding get_quota text_eq get
free_quota = refl

pub limited : is_unlimited quota ≡ false
unfolding is_unlimited
limited = refl

room : 104 + burst_offset_nanos quota < u64_max
unfolding burst_offset_nanos
room = omega arith

pub full :
    current (bucket table world.stored (codes "ana", codes "free")) 100
    ≤ 100 + burst_offset_nanos quota
unfolding new_memory
full = omega arith

check_spent_bound_example :
    (out : List Answered) × (w : World (MemoryStorage table) ℕ) × (serve_checks table limiter world
        events
      ≡ some (out, w))
    × (emission_interval_nanos quota * paid_in (codes "ana", codes "free") out
        ≤ burst_offset_nanos quota + (104 - 100))
check_spent_bound_example =
    check_spent_bound table limiter (codes "ana") (codes "free") quota 100 104 world events refl
      limiter-HasInterval limiter-HasLimits free_quota limited (ground arith) room full

abbrev free_tier : RateTierBuilder Unit ℕ
free_tier = default_tier (tier builder (codes "free") quota) (codes "free")

build-Made_example :
    (is_empty free_tier.tiers ≡ false
      → default_exists table (λ now. now) (λ now. true) free_tier ≡ true
      → (built : Built table Unit ℕ) × (build table (λ now. now) (λ now. true) free_tier 100
          ≡ some built)
        × Spawns built)
    × (is_empty free_tier.tiers ≡ true
        → build table (λ now. now) (λ now. true) free_tier 100 ≡ none)
    × (default_exists table (λ now. now) (λ now. true) free_tier ≡ false
        → build table (λ now. now) (λ now. true) free_tier 100 ≡ none)
build-Made_example =
    build-Made table (λ now. now) (λ now. true) free_tier 100
      (by_default_tier (codes "free") (by_tier (codes "free") quota by_default))

abbrev limiter_layer : TierLimitLayer http (MemoryStorage table) ℕ
limiter_layer = record { rate_tier = limiter; settings = settings }

call_with_cost-check_example : serve_with_cost env limiter_layer answering 3 request world ≡ (
    check_directly limiter (codes "ana") (codes "free") 3 world
    >>= reply_to env settings answering
        (marked env limiter_layer answering 3 request)
        (codes "ana")
        (codes "free")
        quota)
unfolding headers_only
call_with_cost-check_example =
    call_with_cost-check env limiter_layer answering 3 request free_ana quota world 100 refl
      free_quota

-- Two buckets: the collector drops the one that is full.
abbrev filled : MemoryStorage table
filled = record {
  state =
      table.insert (table.insert table.new (codes "ana", codes "free") 30)
        (codes "bob", codes "free") 50;
}

-- The handle is dropped before the last tick.
abbrev lifetime : List GcEvent
lifetime = GcEvent.ticked 40 ∷ GcEvent.ticked 20 ∷ dropped ∷ GcEvent.ticked 900 ∷ []

abbrev left_of : MemoryStorage table
left_of = (steps lifetime (record { running = true }, filled)).1

steps-bucket_example :
    (bucket table left_of (codes "ana", codes "free")
      ≡ kept (λ tat. leb 40 tat) (bucket table filled (codes "ana", codes "free")))
    × (current (bucket table left_of (codes "ana", codes "free")) 50
        ≡ current (bucket table filled (codes "ana", codes "free")) 50)
steps-bucket_example =
    steps-bucket table lifetime filled (codes "ana", codes "free") 50 (omega arith)
