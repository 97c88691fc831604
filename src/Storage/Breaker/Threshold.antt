-- ===== src/Storage/Breaker/Threshold.antt =====
-- When the breaker opens.
use tower_rate_tier.Prelude.{
  ◌+◌, ◌++◌, ◌<◌, List, [], ap, arith, refl, saturating_add, u32_max, ℕ, ◌∙◌, ◌∷◌, ◌≡◌, ◌≤◌,
}
use tower_rate_tier.Prelude.Lists.{length}
use tower_rate_tier.Quota.{Nanos}
use tower_rate_tier.Storage.Breaker.Transition.{
  Policy, Route, State, after_call, closed, failure, opened,
}

-- The states after calls to the primary that all fail, at the given times.
abbrev pub after_failures : Policy → State → List Nanos → State
after_failures policy state [] = state
after_failures policy state (now ∷ nows) =
    after_failures policy (after_call state Route.primary failure now policy) nows

after_failures-append :
    (p : Policy) (s : State) (nows : List Nanos) (last : Nanos)
    → after_failures p s (nows ++ last ∷ [])
      ≡ after_call (after_failures p s nows) Route.primary failure last p
after_failures-append p s [] last = refl
after_failures-append p s (now ∷ nows) last =
    after_failures-append p (after_call s Route.primary failure now p) nows last

failure-below :
    (p : Policy) (n : ℕ) (now : Nanos)
    → p.failure_threshold ≤ u32_max
    → n + 1 < p.failure_threshold
    → after_call (closed n) Route.primary failure now p ≡ closed (n + 1)
unfolding after_call
failure-below p n now word h = ground arith

failure-at :
    (p : Policy) (n : ℕ) (now : Nanos)
    → p.failure_threshold ≤ u32_max
    → n + 1 ≡ p.failure_threshold
    → after_call (closed n) Route.primary failure now p ≡ opened (saturating_add now p.open_for)
unfolding after_call
failure-at p n now word h = ground arith

after_failures_below :
    (p : Policy) (n : ℕ) (nows : List Nanos)
    → p.failure_threshold ≤ u32_max
    → n + length nows < p.failure_threshold
    → after_failures p (closed n) nows ≡ closed (n + length nows)
after_failures_below p n [] word h = ap closed (omega arith)
after_failures_below p n (now ∷ nows) word h =
    rw (failure-below p n now word (omega arith))
      (after_failures_below p (n + 1) nows word (omega arith) ∙ ap closed (omega arith))

-- For a threshold of at most u32::MAX, a breaker that just succeeded stays closed through fewer
-- failures in a row than its threshold, and the failure that reaches the threshold opens it for
-- `open_for`, up to the end of the clock.
pub opens_at_threshold :
    (p : Policy) (nows : List Nanos) (last : Nanos)
    → p.failure_threshold ≤ u32_max
    → length nows < p.failure_threshold
    → (after_failures p (closed 0) nows ≡ closed (length nows))
      × (length nows + 1 ≡ p.failure_threshold
          → after_failures p (closed 0) (nows ++ last ∷ [])
            ≡ opened (saturating_add last p.open_for))
opens_at_threshold p nows last word h =
    let e = after_failures_below p 0 nows word (omega arith) ∙ ap closed (omega arith) in
    (
      e,
      λ k.
          after_failures-append p (closed 0) nows last
          ∙ rw e (failure-at p (length nows) last word k),
    )
