-- ===== src/Examples/FailoverRedis.antt =====
-- Two instances that share one Redis server; the breaker of the first one fails over while it
-- cannot reach the server.
use tower_rate_tier.Storage.Failover.Rate.{run_spent_bound}
use tower_rate_tier.Quota.Bounds.{IsLimited}
use tower_rate_tier.Storage.Failover.{place_of}
use tower_rate_tier.Examples.Shared.{two_quota, two_accepted}
use tower_rate_tier.Storage.Breaker.Local.{recoveries}
use tower_rate_tier.Prelude.{suc, ◌*◌, ◌+◌, ◌-◌, ◌≤◌, arith}
use tower_rate_tier.Storage.Memory.{new as new_memory}
use tower_rate_tier.Storage.Memory.{check_and_update as check_memory}
use tower_rate_tier.Storage.Breaker.{check_and_update as check_breaker}
use tower_rate_tier.Storage.Redis.{check_and_update as check_redis}
use tower_rate_tier.Examples.Memory.{ana}
use tower_rate_tier.Examples.Redis.{constant}
use tower_rate_tier.Examples.Shared.{
  place_of_ana, ask_for_ana, empty_server, exact_expiry, instance_a, late, script_message,
}
use tower_rate_tier.Examples.Table.{table}
use tower_rate_tier.Gcra.{check_gcra}
use tower_rate_tier.Prelude.{List, Panics, [], none, refl, some, ℕ, ◌∷◌, ◌≡◌}
use tower_rate_tier.Prelude.Text.{codes, text_eq}
use tower_rate_tier.Quota.{
  burst_offset_nanos, emission_interval_nanos, is_unlimited, replenish_interval,
}
use tower_rate_tier.Storage.{Decision}
use tower_rate_tier.Storage.Breaker.{
  CircuitBreaker, Shared, admit, begin, breaker_storage, check_fallback, emit, finish,
  prune_fallback, prune_fallback_if_due, settle,
}
use tower_rate_tier.Storage.Breaker.Failover.{passed_on}
use tower_rate_tier.Storage.Breaker.Local.{Watched, spent_locally}
use tower_rate_tier.Storage.Breaker.Transition.{after_call, closed}
use tower_rate_tier.Storage.DashMap.{key_eq}
use tower_rate_tier.Storage.Failover.{Event, ours, run, shared_redis, theirs}
use tower_rate_tier.Storage.Memory.{clear, retain_active}
use tower_rate_tier.Storage.Memory.Buckets.{key_of}
use tower_rate_tier.Storage.Redis.{redis_storage}
use tower_rate_tier.Storage.Redis.Faults.{Fault, Line, in_time, overdue, unreachable}
use tower_rate_tier.Storage.Redis.Key.{redis_key}
use tower_rate_tier.Storage.Redis.Rate.{Arrival, spent_under}
use tower_rate_tier.Storage.Redis.Script.{exact_integer, gcra_script}
use tower_rate_tier.Storage.Serve.{ask}

abbrev guarded : CircuitBreaker Line Unit
guarded = record {
  primary = shared_redis constant exact_expiry script_message late instance_a;
  policy = record { failure_threshold = 2; open_for = 50 };
  on_state_change = none;
}

abbrev fresh : Shared table Line Unit
fresh = record {
  primary_state = record { server = empty_server; fault = in_time };
  fallback = new_memory table;
  state = closed 0;
  last_pruned = 0;
  world = tt;
}

abbrev lost : Fault
lost = unreachable (record { message = codes "refused" })

-- Redis admits the first call of the first instance and one of the second; the second call does
-- not reach it, the third one is answered too late, and the fallback admits both.
abbrev events : List Event
events =
    ours 1_000 in_time (ask_for_ana 7)
    ∷ theirs (record { instance_of = instance_a; request = ask_for_ana 900; at = 1_010 })
    ∷ ours 1_020 lost (ask_for_ana 8)
    ∷ ours 1_030 overdue (ask_for_ana 9)
    ∷ ours 1_040 in_time (ask_for_ana 10)
    ∷ []

abbrev admitted_in :
    Panics (List Watched × List (Arrival × Decision) × Shared table Line Unit) → ℕ × ℕ × ℕ
admitted_in none = (0, 0, 0)
admitted_in (some (ws, ds, u)) = (
  spent_locally (key_of ana) ws,
  passed_on (key_of ana) ws,
  spent_under constant exact_expiry script_message late place_of_ana ds,
)

events_admitted :
    admitted_in (run constant exact_expiry script_message late guarded fresh events) ≡ (2, 1, 1)
unfolding run ask redis_storage gcra_script check_gcra redis_key text_eq exact_integer
    emission_interval_nanos breaker_storage check_breaker admit finish check_fallback check_memory
    settle begin after_call prune_fallback_if_due emit retain_active new_memory burst_offset_nanos
    prune_fallback key_eq is_unlimited replenish_interval clear check_redis
events_admitted = refl

two_quota-IsLimited : IsLimited two_quota
two_quota-IsLimited = record { count_pos = omega arith; fast_enough = omega arith }

run_spent_bound_example :
    (ws : List Watched) × (ds : List (Arrival × Decision)) × (u : Shared table Line Unit) × (run
        constant exact_expiry script_message late guarded fresh events
      ≡ some (ws, ds, u))
    × (emission_interval_nanos two_quota * spent_locally (key_of ana) ws
        ≤ burst_offset_nanos two_quota * suc (recoveries ws) + (10 - 7))
    × (emission_interval_nanos two_quota
          * (passed_on (key_of ana) ws
              + spent_under constant exact_expiry script_message late
                  (place_of constant instance_a ana)
                  ds)
        ≤ burst_offset_nanos two_quota + (1_040 - 1_000) * 1000)
unfolding burst_offset_nanos new_memory
run_spent_bound_example =
    run_spent_bound constant exact_expiry script_message late instance_a guarded refl refl ana 2
      60_000_000_000 two_quota 7 10 1_000 1_040 fresh events (omega arith) (omega arith)
      two_accepted (omega arith) (omega arith)
      (
        λ e. refl,
        two_quota-IsLimited,
        (
          λ e. refl,
          refl,
          (
            λ e. refl,
            two_quota-IsLimited,
            (λ e. refl, two_quota-IsLimited, (λ e. refl, two_quota-IsLimited, tt)),
          ),
        ),
      )
      (omega arith) tt
