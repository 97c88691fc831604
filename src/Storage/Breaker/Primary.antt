-- ===== src/Storage/Breaker/Primary.antt =====
-- What one call of src/storage/breaker.rs does to a bucket of its primary, when the primary limits
-- the rate.
use tower_rate_tier.Storage.Memory.{check_and_update as check_memory}
use tower_rate_tier.Prelude.{
  ◌>>=◌, Bool, Option, Option-cases, ap, arith, err, false, inl, inr, none, ok, refl, some, true, ℕ,
  ◌∙◌, ◌≡◌,
}
use tower_rate_tier.Quota.{Nanos, Quota}
use tower_rate_tier.Storage.{Decision, StorageKey}
use tower_rate_tier.Storage.Breaker.{
  CircuitBreaker, Shared, admit, begin, breaker_storage, call_primary, check_and_update,
  check_fallback, emit, finish, prune_fallback, prune_fallback_if_due, settle,
}
use tower_rate_tier.Storage.Breaker.Event.{BreakerEvent, primary_failed}
use tower_rate_tier.Storage.Breaker.Local.{has_failed, is_local}
use tower_rate_tier.Storage.Breaker.Transition.{Route, State}
use tower_rate_tier.Storage.DashMap.{DashMap}
use tower_rate_tier.Storage.Memory.{clear, retain_active}
use tower_rate_tier.Storage.Serve.{StorageRequest, ask}

module _ {d : DashMap} {P W : Type 0} where
  primary-check_fallback :
      (key : StorageKey) (q : Quota) (cost : ℕ) (now : Nanos) (a : Decision) (s t : Shared d P W)
      → check_fallback key q cost now s ≡ some (a, t)
      → t.primary_state ≡ s.primary_state
  unfolding check_fallback
  primary-check_fallback key q cost now a s t e =
      elim (Option-cases (check_memory d key q cost now s.fallback)) [
        | inl g ↦ let h = rw g at e in cc
        | inr ((r, m), g) ↦ let h = rw g at e in ground arith
      ]

module _ {d : DashMap} {P W : Type 0} (b : CircuitBreaker P W) where
  primary-emit :
      (event : BreakerEvent) (s : Shared d P W) → (emit b event s).primary_state ≡ s.primary_state
  unfolding emit
  primary-emit event s = ground arith

  -- After the primary's answer its state stays, and the answer is the breaker's if it is not an
  -- error.
  primary-finish :
      (key : StorageKey) (q : Quota) (cost : ℕ) (now : Nanos) (states : State × State)
      (r a : Decision) (p : P) (s t : Shared d P W)
      → finish b key q cost now states r s ≡ some (a, t)
      → (t.primary_state ≡ s.primary_state) × (has_failed (some (r, p)) ≡ false → a ≡ r)
  unfolding finish prune_fallback prune_fallback_if_due
  primary-finish key q cost now (old, new) (ok x) a p s t e = (
    ground (arith, primary-emit BreakerEvent.closed (record s { fallback = clear d s.fallback })),
    λ h. ground arith,
  )
  primary-finish key q cost now (old, new) (err x) a p s t e =
      let s1 = emit b (primary_failed x) s in
      (
        primary-check_fallback key q cost now a _ t e
            ∙ ground (
              arith,
              primary-emit (primary_failed x) s,
              primary-emit (BreakerEvent.opened x)
                  (record s1 { last_pruned = now; fallback = retain_active d s1.fallback now }),
            ),
        λ h. cc,
      )

-- A call and its answer. Either the primary's state stays and the fallback answered; or the primary
-- was called, and its answer is the call's if it is not an error.
pub data Called {d : DashMap} {P W : Type 0} (b : CircuitBreaker P W) (r : StorageRequest)
    (locally : Bool) (a : Decision) (s t : Shared d P W) : Type 0 where
  spared : t.primary_state ≡ s.primary_state → locally ≡ true → Called b r locally a s t
  reached :
      (x : Decision) (p : P)
      → ask b.primary s.primary_state r ≡ some (x, p)
      → t.primary_state ≡ p
      → locally ≡ has_failed (some (x, p))
      → (has_failed (some (x, p)) ≡ false → a ≡ x)
      → Called b r locally a s t

module _ {d : DashMap} {P W : Type 0} (b : CircuitBreaker P W) where
  Called-primary :
      (route : Route) (r : StorageRequest) (s t : Shared d P W) (a : Decision)
      → (call_primary b r.key r.quota r.cost r.now s >>= λ (result, u).
          finish b r.key r.quota r.cost r.now
            (settle b route result r.now u).0
            result
            (settle b route result r.now u).1)
        ≡ some (a, t)
      → Called b r (has_failed (ask b.primary s.primary_state r)) a s t
  unfolding settle ask
  Called-primary route r s t a out =
      elim (Option-cases (b.primary.check_and_update r.key r.quota r.cost r.now s.primary_state)) [
        | inl e ↦ let h = rw e at out in cc
        | inr ((x, p), e) ↦
            let h = rw e at out in
            let (f, g) = primary-finish b r.key r.quota r.cost r.now _ x a p _ t h in
            reached x p e f (ap has_failed e) g
      ]

  Called-routed :
      (route : Option Route) (after : State) (r : StorageRequest) (s t : Shared d P W)
      (a : Decision)
      → elim route [
        | none ↦ check_fallback r.key r.quota r.cost r.now (record s { state = after })
        | some way ↦
            call_primary b r.key r.quota r.cost r.now (begin way r.now (record s { state = after }))
            >>= λ (result, u).
                let (states, v) = settle b way result r.now u in
                finish b r.key r.quota r.cost r.now states result v
      ]
        ≡ some (a, t)
      → Called b r
          (elim route [ none ↦ true | some way ↦ has_failed (ask b.primary s.primary_state r) ])
          a
          s
          t
  unfolding begin prune_fallback
  Called-routed none after r s t a out =
      spared (primary-check_fallback r.key r.quota r.cost r.now a _ t out) refl
  Called-routed (some Route.primary) after r s t a out =
      elim (Called-primary Route.primary r (record s { state = after }) t a out) [
        | spared e l ↦ spared e l
        | reached x p e f l g ↦ reached x p e f l g
      ]
  Called-routed (some Route.probe) after r s t a out =
      elim (Called-primary Route.probe r
        (record s {
          state = after;
          last_pruned = r.now;
          fallback = retain_active d s.fallback r.now;
        })
        t a out) [ spared e l ↦ spared e l | reached x p e f l g ↦ reached x p e f l g ]

  pub ask-Called :
      (r : StorageRequest) (s t : Shared d P W) (a : Decision)
      → ask (breaker_storage b) s r ≡ some (a, t)
      → Called b r (is_local b s r) a s t
  unfolding ask breaker_storage check_and_update
  ask-Called r s t a out = Called-routed (admit s.state r.now).0 (admit s.state r.now).1 r s t a out
