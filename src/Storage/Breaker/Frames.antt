-- ===== src/Storage/Breaker/Frames.antt =====
-- What the parts of a call leave alone.
use tower_rate_tier.Storage.Memory.{check_and_update as check_memory}
use tower_rate_tier.Prelude.{Option-cases, arith, err, inl, inr, ok, some, ℕ, ◌∙◌, ◌≡◌}
use tower_rate_tier.Quota.{Nanos, Quota}
use tower_rate_tier.Storage.{Decision, StorageKey}
use tower_rate_tier.Storage.Breaker.{
  CircuitBreaker, Shared, begin, check_fallback, emit, finish, prune_fallback,
  prune_fallback_if_due,
}
use tower_rate_tier.Storage.Breaker.Event.{BreakerEvent, primary_failed}
use tower_rate_tier.Storage.Breaker.Transition.{Route, State}
use tower_rate_tier.Storage.DashMap.{DashMap}
use tower_rate_tier.Storage.Memory.{clear, retain_active}

module _ {d : DashMap} {P W : Type 0} where
  pub state-begin : (r : Route) (now : Nanos) (s : Shared d P W) → (begin r now s).state ≡ s.state
  unfolding begin prune_fallback
  state-begin r now s = ground arith

  pub state-check_fallback :
      (key : StorageKey) (q : Quota) (cost : ℕ) (now : Nanos) (a : Decision) (s t : Shared d P W)
      → check_fallback key q cost now s ≡ some (a, t)
      → t.state ≡ s.state
  unfolding check_fallback
  state-check_fallback key q cost now a s t e =
      elim (Option-cases (check_memory d key q cost now s.fallback)) [
        | inl g ↦ let h = rw g at e in cc
        | inr ((r, m), g) ↦ let h = rw g at e in ground arith
      ]

  pub world-check_fallback :
      (key : StorageKey) (q : Quota) (cost : ℕ) (now : Nanos) (a : Decision) (s t : Shared d P W)
      → check_fallback key q cost now s ≡ some (a, t)
      → t.world ≡ s.world
  unfolding check_fallback
  world-check_fallback key q cost now a s t e =
      elim (Option-cases (check_memory d key q cost now s.fallback)) [
        | inl g ↦ let h = rw g at e in cc
        | inr ((r, m), g) ↦ let h = rw g at e in ground arith
      ]

module _ {d : DashMap} {P W : Type 0} (b : CircuitBreaker P W) where
  pub state-emit : (event : BreakerEvent) (s : Shared d P W) → (emit b event s).state ≡ s.state
  unfolding emit
  state-emit event s = ground arith

  pub state-finish :
      (key : StorageKey) (q : Quota) (cost : ℕ) (now : Nanos) (states : State × State)
      (r a : Decision) (s t : Shared d P W)
      → finish b key q cost now states r s ≡ some (a, t)
      → t.state ≡ s.state
  unfolding finish prune_fallback prune_fallback_if_due
  state-finish key q cost now (old, new) (ok x) a s t e =
      ground (arith, state-emit BreakerEvent.closed (record s { fallback = clear d s.fallback }))
  state-finish key q cost now (old, new) (err x) a s t e =
      let s1 = emit b (primary_failed x) s in
      state-check_fallback key q cost now a _ t e
      ∙ ground (
        arith,
        state-emit (primary_failed x) s,
        state-emit (BreakerEvent.opened x)
            (record s1 { last_pruned = now; fallback = retain_active d s1.fallback now }),
      )
