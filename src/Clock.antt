-- ===== src/Clock.antt =====
-- src/clock.rs: the clocks that can be set and the one that runs.
pub mod Advance
use tower_rate_tier.Duration.{Duration}
use tower_rate_tier.Gcra.Decision.{current}
use tower_rate_tier.Prelude.{
  ◌&&◌, ◌==◌, Bool, List, Option, [], as_u64, if◌then◌else◌, min, none, not, saturating_add, some,
  u64_max, ◌∷◌,
}
use tower_rate_tier.Quota.{Nanos}

-- SystemClock::now: the time since the clock was made, cast to a u64.
unfoldable pub system_now : Duration → Nanos
system_now elapsed = as_u64 elapsed

-- The shared number of a FakeClock.
pub record FakeClock : Type 0 where
  pub nanos : Nanos

unfoldable pub new : FakeClock
new = record { nanos = 0 }

unfoldable pub now : FakeClock → Nanos
now c = c.nanos

unfoldable pub set : FakeClock → Nanos → FakeClock
set c nanos = record { nanos = nanos }

-- One turn of the compare-exchange: what other threads stored just before it, if anything, and
-- whether the exchange fails although it found the expected value, as a weak one may.
pub record Turn : Type 0 where
  pub stored : Option Nanos
  pub spurious : Bool

abbrev pub disturbed : FakeClock → Option Nanos → FakeClock
disturbed c none = c
disturbed c (some n) = record { nanos = n }

-- The loop of `advance`, for the turns that it gets; `none` while it has not ended.
unfoldable pub advance_loop : Nanos → Nanos → FakeClock → List Turn → Option FakeClock
advance_loop delta current c [] = none
advance_loop delta current c (t ∷ turns) =
    let found = disturbed c t.stored in
    let again = advance_loop delta found.nanos found turns in
    if found.nanos == current && not t.spurious
    then some (record { nanos = saturating_add current delta })
    else again

unfoldable pub advance : FakeClock → Duration → List Turn → Option FakeClock
unfolding advance_loop
advance c duration turns = advance_loop (min duration u64_max) c.nanos c turns
