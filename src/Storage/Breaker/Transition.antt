-- ===== src/Storage/Breaker/Transition.antt =====
-- src/storage/breaker/transition.rs: the state machine of the circuit breaker.
use tower_rate_tier.Prelude.{
  Bool, false, if◌then◌else◌, leb, saturating_add, saturating_add_u32, true, ℕ,
}
use tower_rate_tier.Quota.{Nanos}

pub data State : Type 0 where
  closed : ℕ → State  -- consecutive failures, a u32
  opened : Nanos → State  -- until
  half_open : State

pub data Route : Type 0 where
  primary probe : Route

pub data Outcome : Type 0 where
  success failure : Outcome

pub record Policy : Type 0 where
  pub failure_threshold : ℕ  -- u32
  pub open_for : Nanos

-- The last clause covers stale results, and probe results that the breaker no longer waits for.
unfoldable pub after_call : State → Route → Outcome → Nanos → Policy → State
after_call (closed failures) primary success now policy = closed 0
after_call half_open probe success now policy = closed 0
after_call (closed failures) primary failure now policy =
    let failures' = saturating_add_u32 failures 1 in
    if leb policy.failure_threshold failures'
    then opened (saturating_add now policy.open_for)
    else closed failures'
after_call half_open probe failure now policy = opened (saturating_add now policy.open_for)
after_call state _ _ now policy = state

abbrev pub is_probe : Route → Bool
is_probe primary = false
is_probe probe = true

abbrev pub is_closed : State → Bool
is_closed (closed failures) = true
is_closed _ = false

abbrev pub is_open : State → Bool
is_open (opened until) = true
is_open _ = false

abbrev pub is_half_open : State → Bool
is_half_open half_open = true
is_half_open _ = false
