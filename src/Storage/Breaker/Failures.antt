-- ===== src/Storage/Breaker/Failures.antt =====
-- The count of failures.
use tower_rate_tier.Prelude.{
  ◌&&◌, ◌<◌, Bool, Bool-cases, arith, inl, inr, leb, saturating_add_u32, some, ℕ, ◌≡◌,
}
use tower_rate_tier.Quota.{Nanos, Quota}
use tower_rate_tier.Storage.{StorageKey}
use tower_rate_tier.Storage.Breaker.{
  CircuitBreaker, Shared, admit, check_fallback, drop_guard, outcome_of, settle,
}
use tower_rate_tier.Storage.Breaker.Flights.{
  Reach, Step, System, answered, armed, dropped, enter, entered, finished, here, next, polled,
  primary_changed,
}
use tower_rate_tier.Storage.Breaker.Frames.{state-begin, state-finish}
use tower_rate_tier.Storage.Breaker.Transition.{
  Outcome, Policy, Route, State, after_call, closed, half_open, is_half_open, opened,
}
use tower_rate_tier.Storage.DashMap.{DashMap}

-- A closed breaker has counted fewer failures than its threshold.
abbrev pub IsBelow : Policy → State → Type 0
IsBelow p (closed failures) = failures < p.failure_threshold
IsBelow p (opened until) = Unit
IsBelow p half_open = Unit

after_call-IsBelow :
    (p : Policy) (state : State) (route : Route) (outcome : Outcome) (now : Nanos)
    → 0 < p.failure_threshold
    → IsBelow p state
    → IsBelow p (after_call state route outcome now p)
unfolding after_call
after_call-IsBelow p (closed n) Route.primary Outcome.success now positive h = positive
after_call-IsBelow p (closed n) Route.primary Outcome.failure now positive h =
    elim (Bool-cases (leb p.failure_threshold (saturating_add_u32 n 1))) [
      | inl e ↦ rw e tt
      | inr e ↦ rw e (ground arith)
    ]
after_call-IsBelow p (closed n) Route.probe outcome now positive h = h
after_call-IsBelow p (opened until) route outcome now positive h = tt
after_call-IsBelow p half_open Route.primary outcome now positive h = tt
after_call-IsBelow p half_open Route.probe Outcome.success now positive h = positive
after_call-IsBelow p half_open Route.probe Outcome.failure now positive h = tt

admit-IsBelow :
    (p : Policy) (state : State) (now : Nanos) → IsBelow p state → IsBelow p (admit state now).1
unfolding admit
admit-IsBelow p (closed n) now h = h
admit-IsBelow p (opened until) now h = elim (Bool-cases (leb until now)) [
  | inl e ↦ rw e tt
  | inr e ↦ rw e tt
]
admit-IsBelow p half_open now h = tt

module _ {d : DashMap} {P W : Type 0} (b : CircuitBreaker P W)
    (positive : 0 < b.policy.failure_threshold) where
  state-enter :
      (key : StorageKey) (q : Quota) (cost : ℕ) (now : Nanos) (s u : System d P W)
      → enter b key q cost now s ≡ some u
      → u.shared.state ≡ (admit s.shared.state now).1
  unfolding enter check_fallback
  state-enter key q cost now s u e = ground arith

  drop-IsBelow :
      (armed : Bool) (at : Nanos) (s : Shared d P W)
      → IsBelow b.policy s.state
      → IsBelow b.policy (drop_guard armed at s).state
  unfolding drop_guard
  drop-IsBelow armed at s h = elim (Bool-cases (armed && is_half_open s.state)) [
    | inl e ↦ rw e tt
    | inr e ↦ rw e h
  ]

  enter-IsBelow :
      (key : StorageKey) (q : Quota) (cost : ℕ) (now : Nanos) (s u : System d P W)
      → enter b key q cost now s ≡ some u
      → IsBelow b.policy s.shared.state
      → IsBelow b.policy u.shared.state
  enter-IsBelow key q cost now s u e h =
      rw (state-enter key q cost now s u e) (admit-IsBelow b.policy s.shared.state now h)

  Step-IsBelow :
      (s u : System d P W)
      → Step b s u
      → IsBelow b.policy s.shared.state
      → IsBelow b.policy u.shared.state
  unfolding settle drop_guard
  Step-IsBelow s u (entered key q cost now e) h = enter-IsBelow key q cost now s u e h
  Step-IsBelow s u (polled xs ys f at phase e) h =
      rw (e, state-begin f.route f.admitted_at s.shared) h
  Step-IsBelow s u (answered xs ys f r at phase e) h =
      rw e
        (after_call-IsBelow b.policy s.shared.state f.route (outcome_of r) f.admitted_at positive h)
  Step-IsBelow s u (finished xs ys f states r a t at phase done e) h =
      rw (e, state-finish b f.key f.quota f.cost f.admitted_at states r a s.shared t done) h
  Step-IsBelow s u (dropped xs ys f at e) h = rw e (drop-IsBelow (armed f) f.admitted_at s.shared h)
  Step-IsBelow s u (primary_changed p e) h = rw e h

  -- From a breaker in which it is so, such as one that was just built with a threshold above 0,
  -- whatever calls are made, polled, answered, finished and dropped in whatever order: a closed
  -- breaker has counted fewer failures than its threshold.
  pub Reach-IsBelow :
      (s u : System d P W)
      → IsBelow b.policy s.shared.state
      → Reach b s u
      → IsBelow b.policy u.shared.state
  Reach-IsBelow s u h here = h
  Reach-IsBelow s u h (next {t} r st) = Step-IsBelow t u st (Reach-IsBelow s t h r)
