-- ===== src/Storage/Breaker/Log.antt =====
-- The events that a breaker reports, over a history of calls one after the other.
use tower_rate_tier.Prelude.{◌&&◌, ◌+◌, List, [], err, if◌then◌else◌, ok, some, suc, ℕ, ◌∷◌, ◌≡◌}
use tower_rate_tier.Quota.{Quota}
use tower_rate_tier.Storage.{Decision}
use tower_rate_tier.Storage.Breaker.{CircuitBreaker, Shared}
use tower_rate_tier.Storage.Breaker.Event.{BreakerEvent, primary_failed}
use tower_rate_tier.Storage.Breaker.Transition.{
  State, closed, half_open, is_closed, is_half_open, is_open, opened,
}
use tower_rate_tier.Storage.DashMap.{DashMap}

-- The callback adds each event to a list.
abbrev pub IsLogging : {P : Type 0} → CircuitBreaker P (List BreakerEvent) → Type 0
IsLogging b = b.on_state_change ≡ some (◌∷◌)

abbrev pub openings : List BreakerEvent → ℕ
openings [] = 0
openings (BreakerEvent.opened e ∷ log) = suc (openings log)
openings (BreakerEvent.closed ∷ log) = openings log
openings (primary_failed e ∷ log) = openings log

abbrev pub closings : List BreakerEvent → ℕ
closings [] = 0
closings (BreakerEvent.opened e ∷ log) = closings log
closings (BreakerEvent.closed ∷ log) = suc (closings log)
closings (primary_failed e ∷ log) = closings log

abbrev pub outages : State → ℕ
outages (closed failures) = 0
outages (opened until) = 1
outages half_open = 1

-- Every outage that was reported is over and reported so, but for one that still lasts.
abbrev pub IsReported : {d : DashMap} {P : Type 0} → Shared d P (List BreakerEvent) → Type 0
IsReported s = openings s.world ≡ closings s.world + outages s.state

-- What a call of the primary adds to the log when its result took the state from one to another.
abbrev reported : State → State → Decision → List BreakerEvent → List BreakerEvent
reported old new (ok x) log =
    if is_half_open old && is_closed new then BreakerEvent.closed ∷ log else log
reported old new (err x) log =
    if is_closed old && is_open new
    then BreakerEvent.opened x ∷ primary_failed x ∷ log
    else primary_failed x ∷ log
