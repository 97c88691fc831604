-- ===== src/Examples/Breaker.antt =====
-- The breaker of src/storage/breaker.rs at concrete inputs, over a primary that counts its calls
-- and answers one decision.
use tower_rate_tier.Storage.Memory.{new as new_memory}
use tower_rate_tier.Examples.Memory.{ana, quota}
use tower_rate_tier.Examples.Table.{table}
use tower_rate_tier.Gcra.{RateLimitInfo}
use tower_rate_tier.Prelude.{
  ◌+◌, ◌++◌, ◌>>=◌, List, [], arith, err, ok, refl, saturating_add, some, suc, true, ℕ, ◌∷◌, ◌≡◌,
  ◌≤◌,
}
use tower_rate_tier.Prelude.Lists.{length}
use tower_rate_tier.Prelude.Text.{codes}
use tower_rate_tier.Quota.{Nanos}
use tower_rate_tier.Storage.{Storage}
use tower_rate_tier.Storage.Breaker.{CircuitBreaker, Shared, admit, breaker_storage, drop_guard}
use tower_rate_tier.Storage.Breaker.Failures.{IsBelow, Reach-IsBelow}
use tower_rate_tier.Storage.Breaker.Flights.{
  Flight, Step, System, armed, dropped, enter, entered, here, made, next, waiting,
}
use tower_rate_tier.Storage.Breaker.Histories.{healthy_is_primary, outage_is_memory, with_fallback}
use tower_rate_tier.Storage.Breaker.Probe.{IsGuarded, Reach-IsGuarded, half_open_released, probes}
use tower_rate_tier.Storage.Breaker.Threshold.{after_failures, opens_at_threshold}
use tower_rate_tier.Storage.Breaker.Transition.{Route, closed, half_open, opened, probe}
use tower_rate_tier.Storage.Memory.{memory_storage}
use tower_rate_tier.Storage.Serve.{StorageRequest, ask, serve}

abbrev info : RateLimitInfo
info = record { limit = 3; remaining = 2; reset_after = 10 }

-- A primary that always answers.
abbrev counting : Storage ℕ
counting = record { check_and_update = λ key q cost now n. some (ok (ok info), suc n) }

-- A primary that never does.
abbrev pub failing : Storage ℕ
failing = record {
  check_and_update = λ key q cost now n. some (err (record { message = codes "down" }), suc n);
}

abbrev healthy : CircuitBreaker ℕ ℕ
healthy = record {
  primary = counting;
  policy = record { failure_threshold = 2; open_for = 50 };
  on_state_change = some (λ event n. suc n);
}

abbrev broken : CircuitBreaker ℕ ℕ
broken = record healthy { primary = failing }

abbrev start : Shared table ℕ ℕ
start = record {
  primary_state = 0;
  fallback = new_memory table;
  state = closed 0;
  last_pruned = 0;
  world = 0;
}

abbrev tripped : Shared table ℕ ℕ
tripped = record start { state = opened 150 }

abbrev pub requests : List StorageRequest
requests =
    record { key = ana; quota = quota; cost = 2; now = 100 }
    ∷ record { key = ana; quota = quota; cost = 2; now = 105 }
    ∷ []

outage_is_memory_example :
    serve (breaker_storage broken) tripped requests
    ≡ (serve (memory_storage table) tripped.fallback requests >>= with_fallback broken tripped)
outage_is_memory_example = outage_is_memory broken tripped requests 150 refl (ground arith)

requests_served : serve counting 0 requests ≡ some (ok (ok info) ∷ ok (ok info) ∷ [], 2)
unfolding serve ask
requests_served = refl

healthy_is_primary_example :
    serve (breaker_storage healthy) start requests
    ≡ some (ok (ok info) ∷ ok (ok info) ∷ [], record start { primary_state = 2 })
healthy_is_primary_example =
    healthy_is_primary healthy start requests (ok (ok info) ∷ ok (ok info) ∷ []) 2 refl
      requests_served (ground arith)

abbrev first_failures : List Nanos
first_failures = 100 ∷ []

opens_at_threshold_example :
    (after_failures healthy.policy (closed 0) first_failures ≡ closed (length first_failures))
    × (length first_failures + 1 ≡ 2
        → after_failures healthy.policy (closed 0) (first_failures ++ 110 ∷ [])
          ≡ opened (saturating_add 110 50))
opens_at_threshold_example =
    opens_at_threshold healthy.policy first_failures 110 (omega arith) (omega arith)

-- Half-open, with a probe in flight and a call that was admitted before.
abbrev probing : Flight
probing = record {
  key = ana;
  quota = quota;
  cost = 1;
  admitted_at = 150;
  route = probe;
  phase = waiting;
}

abbrev half : System table ℕ ℕ
half = record {
  shared = record start { state = half_open };
  flights = record probing { admitted_at = 90; route = Route.primary } ∷ probing ∷ [];
}

-- From the outage, the first request after it probes, and its future is dropped.
abbrev outage : System table ℕ ℕ
outage = record { shared = tripped; flights = [] }

abbrev probed : System table ℕ ℕ
probed = record {
  shared = record tripped { state = half_open };
  flights = record probing { phase = made } ∷ [];
}

enter_probing : enter broken ana quota 1 150 outage ≡ some probed
unfolding enter admit
enter_probing = refl

abbrev abandoned : System table ℕ ℕ
abandoned = record {
  shared = drop_guard true 150 (record tripped { state = half_open });
  flights = [];
}

Reach-IsGuarded_example : IsGuarded broken abandoned
Reach-IsGuarded_example = Reach-IsGuarded broken outage abandoned refl (
    next (next here (entered ana quota 1 150 enter_probing))
      (dropped [] [] (record probing { phase = made }) refl refl))

half_open_released_example :
    (xs ys : List Flight) × (f : Flight) × (u : System table ℕ ℕ) × (half.flights ≡ xs ++ f ∷ ys)
    × (armed f ≡ true)
    × Step broken half u
    × (u.flights ≡ xs ++ ys)
    × (probes u.flights ≡ 0)
    × ((now : Nanos) → f.admitted_at ≤ now → (admit u.shared.state now).0 ≡ some Route.probe)
half_open_released_example = half_open_released broken half refl refl

-- In an outage, and after a probe that was abandoned, the breaker is not closed; from a fresh one a
-- call is admitted and stays in flight.
abbrev fresh : System table ℕ ℕ
fresh = record { shared = start; flights = [] }

abbrev calling : System table ℕ ℕ
calling = record {
  shared = start;
  flights = record probing { admitted_at = 100; route = Route.primary; phase = made } ∷ [];
}

calling_entered : enter broken ana quota 1 100 fresh ≡ some calling
unfolding enter admit
calling_entered = refl

Reach-IsBelow_example : IsBelow broken.policy calling.shared.state
Reach-IsBelow_example =
    Reach-IsBelow broken (omega arith) fresh calling (omega arith)
      (next here (entered ana quota 1 100 calling_entered))
