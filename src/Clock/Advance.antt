-- ===== src/Clock/Advance.antt =====
-- The loop of FakeClock::advance in src/clock.rs.
use tower_rate_tier.Clock.{FakeClock, Turn, advance, advance_loop, disturbed}
use tower_rate_tier.Duration.{Duration}
use tower_rate_tier.Prelude.{
  ◌&&◌, ◌++◌, ◌==◌, Bool-cases, List, Option, [], ap, arith, false, inl, inr, min, none, not, refl,
  saturating_add, some, u64_max, ◌∷◌, ◌≡◌, ◌∷◌,
}
use tower_rate_tier.Quota.{Nanos}

-- A turn before which no other thread stores, and whose exchange does not fail spuriously.
abbrev pub IsQuiet : Turn → Type 0
IsQuiet t = (t.stored ≡ none) × (t.spurious ≡ false)

-- What the clock shows when other threads store what they store before these turns.
abbrev pub after_turns : FakeClock → List Turn → FakeClock
after_turns c [] = c
after_turns c (t ∷ turns) = after_turns (disturbed c t.stored) turns

-- How a loop ends that is given enough turns: in one exchange, which finds that the clock shows
-- what it showed before, after all the stores of the turns up to then.
abbrev pub EndsAt : Nanos → FakeClock → List Turn → Option FakeClock → Type 0
EndsAt delta c turns out =
    (before : List Turn) × (t : Turn) × (rest : List Turn) × (turns ≡ before ++ t ∷ rest)
    × (t.spurious ≡ false)
    × ((disturbed (after_turns c before) t.stored).nanos ≡ (after_turns c before).nanos)
    × (out ≡ some (record { nanos = saturating_add (after_turns c before).nanos delta }))

turn-EndsAt :
    (delta current : Nanos) (c : FakeClock) (t : Turn) (turns : List Turn)
    → current ≡ c.nanos
    → (((disturbed c t.stored).nanos == current && not t.spurious) ≡ false
        → EndsAt delta
            (disturbed c t.stored)
            turns
            (advance_loop delta (disturbed c t.stored).nanos (disturbed c t.stored) turns))
    → EndsAt delta c (t ∷ turns) (advance_loop delta current c (t ∷ turns))
unfolding advance_loop
turn-EndsAt delta current c t turns seen again =
    elim (Bool-cases ((disturbed c t.stored).nanos == current && not t.spurious)) [
      | inl e ↦ ([], t, turns, refl, ground arith, ground arith, rw e (ground arith))
      | inr e ↦
          let (before, l, rest, p, calm, found, q) = again e in
          (t ∷ before, l, rest, ap (◌∷◌ t) p, calm, found, rw e q)
    ]

advance_loop-EndsAt :
    (delta : Nanos) (c : FakeClock) (turns : List Turn) (q : Turn)
    → IsQuiet q
    → EndsAt delta c (turns ++ q ∷ []) (advance_loop delta c.nanos c (turns ++ q ∷ []))
advance_loop-EndsAt delta c [] q h =
    turn-EndsAt delta c.nanos c q [] refl (λ e. absurd (let k = rw (h.0, h.1) at e in ground arith))
advance_loop-EndsAt delta c (t ∷ turns) q h =
    turn-EndsAt delta c.nanos c t (turns ++ q ∷ []) refl
      (λ e. advance_loop-EndsAt delta (disturbed c t.stored) turns q h)

-- Whatever other threads store in between, in turns of which the last is not disturbed, the loop of
-- `advance` ends in one of these turns, in an exchange that does not fail spuriously and finds the
-- clock as it was after all the turns before; and it has then added the duration, up to u64::MAX,
-- to what the clock showed there: no store of another thread is overwritten by a sum that ignores
-- it.
pub advance-EndsAt :
    (c : FakeClock) (duration : Duration) (turns : List Turn) (q : Turn)
    → IsQuiet q
    → EndsAt (min duration u64_max) c (turns ++ q ∷ []) (advance c duration (turns ++ q ∷ []))
unfolding advance
advance-EndsAt c duration turns q h = advance_loop-EndsAt (min duration u64_max) c turns q h
