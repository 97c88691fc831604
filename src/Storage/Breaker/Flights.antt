-- ===== src/Storage/Breaker/Flights.antt =====
-- Calls of the breaker that overlap. A call that is admitted to the primary is a future: it may be
-- polled, answered, finished or dropped at any time, in any order with the others.
use tower_rate_tier.Prelude.{
  ◌&&◌, ◌++◌, ◌>>=◌, Bool, List, Panics, false, none, some, true, ℕ, ◌∷◌, ◌≡◌,
}
use tower_rate_tier.Quota.{Nanos, Quota}
use tower_rate_tier.Storage.{Decision, StorageKey}
use tower_rate_tier.Storage.Breaker.{
  CircuitBreaker, Shared, admit, begin, check_fallback, drop_guard, finish, settle,
}
use tower_rate_tier.Storage.Breaker.Transition.{Route, State, is_probe}
use tower_rate_tier.Storage.DashMap.{DashMap}

-- How far a future has come: made, waiting for the primary, or past the critical section.
pub data Phase : Type 0 where
  made waiting : Phase
  settled : State × State → Decision → Phase

pub record Flight : Type 0 where
  pub key : StorageKey
  pub quota : Quota
  pub cost : ℕ
  pub admitted_at : Nanos
  pub route : Route
  pub phase : Phase

-- The guard's flag: set for a probe, and cleared in the critical section.
abbrev pub unsettled : Phase → Bool
unsettled (settled states result) = false
unsettled _ = true

abbrev pub armed : Flight → Bool
armed f = is_probe f.route && unsettled f.phase

pub record System (d : DashMap) (P W : Type 0) : Type 0 where
  pub shared : Shared d P W
  pub flights : List Flight

module _ {d : DashMap} {P W : Type 0} (b : CircuitBreaker P W) where
  -- `check_and_update` up to the future that it returns.
  unfoldable pub enter : StorageKey → Quota → ℕ → Nanos → System d P W → Panics (System d P W)
  enter key quota cost now s =
      let (admitted, state') = admit s.shared.state now in
      let shared' = record s.shared { state = state' } in
      elim admitted [
        | none ↦
            check_fallback key quota cost now shared' >>= λ (r, t). some (record s { shared = t })
        | some route ↦ some (record {
          shared = shared';
          flights =
              record {
                key = key;
                quota = quota;
                cost = cost;
                admitted_at = now;
                route = route;
                phase = made;
              }
              ∷ s.flights;
        })
      ]

  -- One step of the system. The primary may answer anything, and its state may change at any time.
  pub data Step (s u : System d P W) : Type 0 where
    entered :
        (key : StorageKey) (quota : Quota) (cost : ℕ) (now : Nanos)
        → enter key quota cost now s ≡ some u
        → Step s u
    polled :
        (xs ys : List Flight) (f : Flight)
        → s.flights ≡ xs ++ f ∷ ys
        → f.phase ≡ made
        → u ≡ record {
          shared = begin f.route f.admitted_at s.shared;
          flights = xs ++ record f { phase = waiting } ∷ ys;
        }
        → Step s u
    answered :
        (xs ys : List Flight) (f : Flight) (result : Decision)
        → s.flights ≡ xs ++ f ∷ ys
        → f.phase ≡ waiting
        → u ≡ (
            let (states, t) = settle b f.route result f.admitted_at s.shared in
            record { shared = t; flights = xs ++ record f { phase = settled states result } ∷ ys })
        → Step s u
    finished :
        (xs ys : List Flight) (f : Flight) (states : State × State) (result reply : Decision)
        (t : Shared d P W)
        → s.flights ≡ xs ++ f ∷ ys
        → f.phase ≡ settled states result
        → finish b f.key f.quota f.cost f.admitted_at states result s.shared ≡ some (reply, t)
        → u ≡ record { shared = t; flights = xs ++ ys }
        → Step s u
    dropped :
        (xs ys : List Flight) (f : Flight)
        → s.flights ≡ xs ++ f ∷ ys
        → u ≡ record { shared = drop_guard (armed f) f.admitted_at s.shared; flights = xs ++ ys }
        → Step s u
    primary_changed :
        (p : P) → u ≡ record s { shared = record s.shared { primary_state = p } } → Step s u

  pub data Reach (s : System d P W) : System d P W → Type 0 where
    here : Reach s s
    next : {t u : System d P W} → Reach s t → Step t u → Reach s u
