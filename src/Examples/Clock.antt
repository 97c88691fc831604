-- ===== src/Examples/Clock.antt =====
-- The clock of src/clock.rs at a concrete run: another thread sets it in the first turn.
use tower_rate_tier.Clock.{FakeClock, Turn, advance}
use tower_rate_tier.Clock.Advance.{EndsAt, advance-EndsAt}
use tower_rate_tier.Prelude.{[], false, min, none, refl, some, u64_max, ◌∷◌}

abbrev shown : FakeClock
shown = record { nanos = 5 }

abbrev disturbance : Turn
disturbance = record { stored = some 40; spurious = false }

abbrev quiet : Turn
quiet = record { stored = none; spurious = false }

advance-EndsAt_example :
    EndsAt
      (min 10 u64_max)
      shown
      (disturbance ∷ quiet ∷ [])
      (advance shown 10 (disturbance ∷ quiet ∷ []))
advance-EndsAt_example = advance-EndsAt shown 10 (disturbance ∷ []) quiet (refl, refl)
