-- ===== src/Storage/Breaker/Serving.antt =====
-- What the breaker answers: calls that nothing interleaves with.
use tower_rate_tier.Gcra.{RateLimitInfo, RateLimited}
use tower_rate_tier.Prelude.{
  ◌<◌, ◌>>=◌, Bool-cases, Panics, Result, err, inl, inr, leb, ok, refl, some, ℕ, ◌≡◌,
}
use tower_rate_tier.Quota.{Nanos, Quota, emission_interval_nanos}
use tower_rate_tier.Quota.Bounds.{IsLimited, emission_pos}
use tower_rate_tier.Storage.{Decision, StorageKey}
use tower_rate_tier.Storage.Breaker.{
  CircuitBreaker, Shared, admit, call_primary, check_and_update, check_fallback, finish, new,
  settle,
}
use tower_rate_tier.Storage.Breaker.Transition.{Route, State, closed, half_open, opened}
use tower_rate_tier.Storage.DashMap.{DashMap}
use tower_rate_tier.Storage.Memory.Buckets.{check_and_update-answers}

module _ {d : DashMap} {P W : Type 0} (b : CircuitBreaker P W) where
  abbrev Answered : Panics (Decision × Shared d P W) → Type 0
  Answered r = (a : Result RateLimitInfo RateLimited) × (t : Shared d P W) × (r ≡ some (ok a, t))

  check_fallback-Answered :
      (key : StorageKey) (q : Quota) (cost : ℕ) (now : Nanos) (s : Shared d P W)
      → 0 < emission_interval_nanos q
      → Answered (check_fallback key q cost now s)
  unfolding check_fallback
  check_fallback-Answered key q cost now s pos =
      let (a, m, e) = check_and_update-answers d key q cost now s.fallback pos in
      (a, record s { fallback = m }, rw e)

  finish-Answered :
      (key : StorageKey) (q : Quota) (cost : ℕ) (now : Nanos) (states : State × State)
      (r : Decision) (s : Shared d P W)
      → 0 < emission_interval_nanos q
      → Answered (finish b key q cost now states r s)
  unfolding finish
  finish-Answered key q cost now (old, new) (ok a) s pos = (a, _, refl)
  finish-Answered key q cost now (old, new) (err e) s pos =
      check_fallback-Answered key q cost now _ pos

  routed-Answered :
      (route : Route) (key : StorageKey) (q : Quota) (cost : ℕ) (now : Nanos) (s : Shared d P W)
      → 0 < emission_interval_nanos q
      → ((p : P) → (r : Decision × P) × (b.primary.check_and_update key q cost now p ≡ some r))
      → Answered (
          call_primary b key q cost now s >>= λ (result, t).
          finish b key q cost now
            (settle b route result now t).0
            result
            (settle b route result now t).1)
  routed-Answered route key q cost now s pos total =
      let ((r, p), e) = total s.primary_state in rw e (finish-Answered key q cost now _ r _ pos)

  admitted-Answered :
      (state : State) (key : StorageKey) (q : Quota) (cost : ℕ) (now : Nanos) (s : Shared d P W)
      → s.state ≡ state
      → 0 < emission_interval_nanos q
      → ((p : P) → (r : Decision × P) × (b.primary.check_and_update key q cost now p ≡ some r))
      → Answered (check_and_update b key q cost now s)
  unfolding check_and_update admit
  admitted-Answered (closed n) key q cost now s e pos total =
      rw e (routed-Answered Route.primary key q cost now _ pos total)
  admitted-Answered half_open key q cost now s e pos total =
      rw e (check_fallback-Answered key q cost now _ pos)
  admitted-Answered (opened until) key q cost now s e pos total =
      elim (Bool-cases (leb until now)) [
        | inl due ↦
            rw (e, check_and_update, admit, due)
              (routed-Answered Route.probe key q cost now _ pos total)
        | inr early ↦
            rw (e, check_and_update, admit, early) (check_fallback-Answered key q cost now _ pos)
      ]

  -- With a primary that does not panic, every call with a quota that a constructor built is
  -- answered, and never with a storage error: the failures of the primary stay inside the breaker.
  pub check_and_update-Answered :
      (key : StorageKey) (q : Quota) (cost : ℕ) (now : Nanos) (s : Shared d P W)
      → IsLimited q
      → ((p : P) → (r : Decision × P) × (b.primary.check_and_update key q cost now p ≡ some r))
      → (a : Result RateLimitInfo RateLimited) × (t : Shared d P W) × (check_and_update b key q cost
            now s
          ≡ some (ok a, t))
  check_and_update-Answered key q cost now s v total =
      admitted-Answered s.state key q cost now s refl (emission_pos q v) total
