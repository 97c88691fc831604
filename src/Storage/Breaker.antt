-- ===== src/Storage/Breaker.antt =====
-- src/storage/breaker.rs: a storage that falls back to local memory while its primary fails.
pub mod Transition
pub mod Event
pub mod Threshold
pub mod Serving
pub mod Histories
pub mod Flights
pub mod Probe
pub mod Frames
pub mod Failures
pub mod Log
pub mod Local
pub mod Levels
pub mod Rate
pub mod Primary
pub mod Failover
use tower_rate_tier.Storage.Memory.{check_and_update as check_memory}
use tower_rate_tier.Duration.{Duration, from_secs}
use tower_rate_tier.Prelude.{
  ◌&&◌, ◌==◌, ◌>>=◌, Bool, Option, Panics, assert, err, if◌then◌else◌, leb, ltb, none, not, ok,
  saturating_sub, some, u64_max, ℕ, ◌>>=◌, ◌>>◌,
}
use tower_rate_tier.Quota.{Nanos, Quota}
use tower_rate_tier.Storage.{Decision, Storage, StorageKey}
use tower_rate_tier.Storage.Breaker.Event.{BreakerEvent, primary_failed}
use tower_rate_tier.Storage.Breaker.Transition.{
  Outcome, Policy, Route, State, after_call, closed, failure, half_open, is_closed, is_half_open,
  is_open, is_probe, opened, probe, success,
}
use tower_rate_tier.Storage.DashMap.{DashMap}
use tower_rate_tier.Storage.Memory.{MemoryStorage, clear, retain_active}

-- `P` is the primary's own shared state, and `W` what a callback may change.
pub record CircuitBreaker (P W : Type 0) : Type 0 where
  pub primary : Storage P
  pub policy : Policy
  pub on_state_change : Option (BreakerEvent → W → W)

-- What the calls share.
pub record Shared (d : DashMap) (P W : Type 0) : Type 0 where
  pub primary_state : P
  pub fallback : MemoryStorage d
  pub state : State
  pub last_pruned : Nanos
  pub world : W

abbrev pub default_failure_threshold : ℕ
default_failure_threshold = 3

abbrev pub default_open_for : Duration
default_open_for = from_secs 5

-- Nanoseconds, saturating at u64::MAX.
unfoldable pub duration_nanos : Duration → Nanos
duration_nanos duration = if leb duration u64_max then duration else u64_max

module _ {P W : Type 0} where
  unfoldable pub new : Storage P → CircuitBreaker P W
  unfolding duration_nanos
  new primary = record {
    primary = primary;
    policy = record {
      failure_threshold = default_failure_threshold;
      open_for = duration_nanos default_open_for;
    };
    on_state_change = none;
  }

  unfoldable pub failure_threshold : CircuitBreaker P W → ℕ → Panics (CircuitBreaker P W)
  failure_threshold b threshold = do
    assert (ltb 0 threshold)
    some (record b { policy = record b.policy { failure_threshold = threshold } })

  unfoldable pub open_for : CircuitBreaker P W → Duration → Panics (CircuitBreaker P W)
  unfolding duration_nanos
  open_for b duration = do
    assert (not (duration == 0))
    some (record b { policy = record b.policy { open_for = duration_nanos duration } })

  unfoldable pub on_state_change : CircuitBreaker P W → (BreakerEvent → W → W) → CircuitBreaker P W
  on_state_change b callback = record b { on_state_change = some callback }

-- Where a call goes, and the state that it leaves.
unfoldable pub admit : State → Nanos → Option Route × State
admit (closed failures) now = (some Route.primary, closed failures)
admit (opened until) now = if leb until now then (some probe, half_open) else (none, opened until)
admit half_open now = (none, half_open)

abbrev pub outcome_of : Decision → Outcome
outcome_of (ok decision) = success
outcome_of (err error) = failure

module _ {d : DashMap} {P W : Type 0} where
  -- A breaker's state when it is built: nothing failed and nothing pruned.
  unfoldable pub initial : P → MemoryStorage d → W → Shared d P W
  initial p fallback w = record {
    primary_state = p;
    fallback = fallback;
    state = closed 0;
    last_pruned = 0;
    world = w;
  }

  unfoldable pub emit : CircuitBreaker P W → BreakerEvent → Shared d P W → Shared d P W
  emit b event s = elim b.on_state_change [
    | some callback ↦ record s { world = callback event s.world }
    | none ↦ s
  ]

  unfoldable pub prune_fallback : Nanos → Shared d P W → Shared d P W
  prune_fallback now s = record s { last_pruned = now; fallback = retain_active d s.fallback now }

  -- `last` is the value loaded before the compare-exchange, which fails if another call has stored
  -- another value since.
  unfoldable pub prune_fallback_if_due :
      CircuitBreaker P W → Nanos → Nanos → Shared d P W → Shared d P W
  prune_fallback_if_due b last now s =
      if leb b.policy.open_for (saturating_sub now last) && s.last_pruned == last
      then record s { last_pruned = now; fallback = retain_active d s.fallback now }
      else s

  -- Before the primary is called: a probe prunes the fallback.
  unfoldable pub begin : Route → Nanos → Shared d P W → Shared d P W
  begin route now s = if is_probe route then prune_fallback now s else s

  -- The critical section after the primary's answer; the states before and after it.
  unfoldable pub settle :
      CircuitBreaker P W → Route → Decision → Nanos → Shared d P W → (State × State) × Shared d P W
  settle b route result now s =
      let new = after_call s.state route (outcome_of result) now b.policy in
      ((s.state, new), record s { state = new })

  unfoldable pub check_fallback :
      StorageKey → Quota → ℕ → Nanos → Shared d P W → Panics (Decision × Shared d P W)
  check_fallback key quota cost now s =
      check_memory d key quota cost now s.fallback >>= λ (r, m). some (r, record s { fallback = m })

  -- After the critical section.
  unfoldable pub finish :
      CircuitBreaker P W
      → StorageKey
      → Quota
      → ℕ
      → Nanos
      → State × State
      → Decision
      → Shared d P W
      → Panics (Decision × Shared d P W)
  finish b key quota cost now (old, new) (ok decision) s = some (
    ok decision,
    if is_half_open old && is_closed new
        then emit b BreakerEvent.closed (record s { fallback = clear d s.fallback })
        else s,
  )
  finish b key quota cost now (old, new) (err error) s =
      let s1 = emit b (primary_failed error) s in
      let s2 =
        if is_closed old && is_open new
        then emit b (BreakerEvent.opened error) (prune_fallback now s1)
        else prune_fallback_if_due b s1.last_pruned now s1 in
      check_fallback key quota cost now s2

  -- Dropping the guard of a call.
  unfoldable pub drop_guard : Bool → Nanos → Shared d P W → Shared d P W
  drop_guard armed admitted_at s =
      if armed && is_half_open s.state then record s { state = opened admitted_at } else s

  abbrev pub call_primary :
      CircuitBreaker P W
      → StorageKey
      → Quota
      → ℕ
      → Nanos
      → Shared d P W
      → Panics (Decision × Shared d P W)
  call_primary b key quota cost now s =
      b.primary.check_and_update key quota cost now s.primary_state >>= λ (r, p).
      some (r, record s { primary_state = p })

  -- A call that no other call interleaves with and nobody cancels. (`Flights` interleaves them.)
  unfoldable pub check_and_update :
      CircuitBreaker P W
      → StorageKey
      → Quota
      → ℕ
      → Nanos
      → Shared d P W
      → Panics (Decision × Shared d P W)
  check_and_update b key quota cost now s =
      let (admitted, state') = admit s.state now in
      let s1 = record s { state = state' } in
      elim admitted [
        | none ↦ check_fallback key quota cost now s1
        | some route ↦ call_primary b key quota cost now (begin route now s1) >>= λ (result, s2).
            let (states, s3) = settle b route result now s2 in
            finish b key quota cost now states result s3
      ]

  unfoldable pub breaker_storage : CircuitBreaker P W → Storage (Shared d P W)
  breaker_storage b = record { check_and_update = check_and_update b }
