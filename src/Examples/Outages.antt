-- ===== src/Examples/Outages.antt =====
-- A breaker of src/storage/breaker.rs whose callback logs, over a primary that is down.
use tower_rate_tier.Storage.Breaker.{check_and_update as check_breaker}
use tower_rate_tier.Storage.Memory.{check_and_update as check_memory}
use tower_rate_tier.Storage.Memory.{new as new_memory}
use tower_rate_tier.Examples.Breaker.{failing, requests}
use tower_rate_tier.Examples.Memory.{ana, quota, quota-IsLimited}
use tower_rate_tier.Examples.Table.{table}
use tower_rate_tier.Gcra.{check_gcra}
use tower_rate_tier.Gcra.Decision.{current}
use tower_rate_tier.Prelude.{
  ◌*◌, ◌+◌, ◌-◌, ◌<◌, List, Panics, [], arith, err, none, refl, some, suc, u64_max, ℕ, ◌∷◌, ◌≡◌,
  ◌≤◌,
}
use tower_rate_tier.Prelude.Text.{codes, text_eq}
use tower_rate_tier.Quota.{
  burst_offset_nanos, emission_interval_nanos, is_unlimited, replenish_interval,
}
use tower_rate_tier.Storage.{Decision}
use tower_rate_tier.Storage.Breaker.{
  CircuitBreaker, Shared, admit, begin, breaker_storage, check_fallback, emit, finish,
  prune_fallback, prune_fallback_if_due, settle,
}
use tower_rate_tier.Storage.Breaker.Event.{BreakerEvent, primary_failed}
use tower_rate_tier.Storage.Breaker.Local.{IsTotal, Watched, recoveries, spent_locally, watch}
use tower_rate_tier.Storage.Breaker.Rate.{fallback_spent_bound}
use tower_rate_tier.Storage.Breaker.Transition.{after_call, closed}
use tower_rate_tier.Storage.DashMap.{key_eq}
use tower_rate_tier.Storage.Memory.{clear, retain_active}
use tower_rate_tier.Storage.Memory.Buckets.{bucket, key_of}
use tower_rate_tier.Storage.Memory.Runs.{answers}
use tower_rate_tier.Storage.Serve.{ask, serve}

abbrev logging : CircuitBreaker ℕ (List BreakerEvent)
logging = record {
  primary = failing;
  policy = record { failure_threshold = 2; open_for = 50 };
  on_state_change = some (λ event log. event ∷ log);
}

abbrev quiet : Shared table ℕ (List BreakerEvent)
quiet = record {
  primary_state = 0;
  fallback = new_memory table;
  state = closed 0;
  last_pruned = 0;
  world = [];
}

-- Both requests fail, and the second one opens the breaker.
abbrev down : BreakerEvent
down = primary_failed (record { message = codes "down" })

abbrev log_of : Panics (List Decision × Shared table ℕ (List BreakerEvent)) → List BreakerEvent
log_of none = []
log_of (some (answers, s)) = s.world

reports_of_outage :
    log_of (serve (breaker_storage logging) quiet requests)
    ≡ BreakerEvent.opened (record { message = codes "down" }) ∷ down ∷ down ∷ []
unfolding serve ask breaker_storage check_breaker admit finish check_fallback check_memory settle
    begin after_call prune_fallback_if_due emit retain_active new_memory check_gcra
    emission_interval_nanos burst_offset_nanos prune_fallback key_eq text_eq is_unlimited
    replenish_interval clear
reports_of_outage = refl

abbrev state_of :
    Panics (List Decision × Shared table ℕ (List BreakerEvent)) → Shared table ℕ (List BreakerEvent)
state_of none = quiet
state_of (some (answers, s)) = s

abbrev answers_of : Panics (List Decision × Shared table ℕ (List BreakerEvent)) → List Decision
answers_of none = []
answers_of (some (answers, s)) = answers

abbrev served_history : Panics (List Decision × Shared table ℕ (List BreakerEvent))
served_history = serve (breaker_storage logging) quiet requests

-- Both requests are the fallback's, which admits the first one.
fallback_admits :
    (ws : List Watched) × (u : Shared table ℕ (List BreakerEvent)) × (watch logging quiet requests
      ≡ some (ws, u))
    × (spent_locally (key_of ana) ws ≡ 2)
    × (recoveries ws ≡ 0)
unfolding watch ask breaker_storage check_breaker admit finish check_fallback check_memory settle
    begin after_call prune_fallback_if_due emit retain_active new_memory check_gcra
    emission_interval_nanos burst_offset_nanos prune_fallback key_eq text_eq is_unlimited
    replenish_interval clear
fallback_admits = (_, _, refl, refl, refl)

failing-IsTotal : IsTotal failing
failing-IsTotal key q cost now n limits = ((err (record { message = codes "down" }), suc n), refl)

fallback_room : 110 + burst_offset_nanos quota < u64_max
unfolding burst_offset_nanos
fallback_room = omega arith

fallback_low :
    current (bucket table quiet.fallback (key_of ana)) 100 ≤ 100 + burst_offset_nanos quota
unfolding new_memory
fallback_low = omega arith

fallback_spent_bound_example :
    (ws : List Watched) × (u : Shared table ℕ (List BreakerEvent)) × (watch logging quiet requests
      ≡ some (ws, u))
    × (emission_interval_nanos quota * spent_locally (key_of ana) ws
        ≤ burst_offset_nanos quota * suc (recoveries ws) + (110 - 100))
fallback_spent_bound_example =
    fallback_spent_bound logging (key_of ana) quota quota-IsLimited 100 110 quiet requests
      failing-IsTotal fallback_room (omega arith)
      (λ e. refl, quota-IsLimited, (λ e. refl, quota-IsLimited, tt)) fallback_low
