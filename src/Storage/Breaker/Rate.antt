-- ===== src/Storage/Breaker/Rate.antt =====
-- The rate that a user gets through the fallback of src/storage/breaker.rs, over any history.
use tower_rate_tier.Gc.{step}
use tower_rate_tier.Gcra.Decision.{current, current_later}
use tower_rate_tier.Prelude.{
  ◌*◌, ◌+◌, ◌-◌, ◌<◌, ◌>>=◌, List, Option, [], arith, false, none, refl, some, suc, true, u64_max,
  ℕ, ◌∷◌, ◌≡◌, ◌≤◌,
}
use tower_rate_tier.Quota.{Nanos, Quota, burst_offset_nanos, emission_interval_nanos}
use tower_rate_tier.Quota.Bounds.{IsLimited}
use tower_rate_tier.Storage.{StorageKey}
use tower_rate_tier.Storage.Breaker.{
  CircuitBreaker, Shared, admit, begin, breaker_storage, call_primary, check_and_update,
  check_fallback, finish, prune_fallback, settle,
}
use tower_rate_tier.Storage.Breaker.Levels.{Stepped, Stepped-check_fallback, Stepped-finish, level}
use tower_rate_tier.Storage.Breaker.Local.{
  IsTotal, RunsBetween, RunsBetween-ordered, UsesOneQuota, Watched, has_failed, is_local,
  recoveries, spent_locally, watch, watched,
}
use tower_rate_tier.Storage.Breaker.Transition.{
  Route, State, closed, half_open, is_closed, is_half_open, opened,
}
use tower_rate_tier.Storage.DashMap.{DashMap, Key}
use tower_rate_tier.Storage.Memory.{retain_active}
use tower_rate_tier.Storage.Memory.Buckets.{bucket, key_of}
use tower_rate_tier.Storage.Memory.Collection.{bucket-retain_active}
use tower_rate_tier.Storage.Redis.Rate.{runs}
use tower_rate_tier.Storage.Serve.{StorageRequest, ask}

admit-half_open :
    (state : State) (now : Nanos)
    → is_half_open (admit state now).1 ≡ true
    → is_closed state ≡ false
unfolding admit
admit-half_open (closed n) now e = cc
admit-half_open (opened until) now e = refl
admit-half_open half_open now e = refl

pub add_up :
    (l0 l1 l2 ei bo cost rest closed_again more end : ℕ)
    → l0 ≤ l1
    → l1 + ei * cost ≤ l2 + bo * closed_again
    → l2 + ei * rest ≤ end + bo * suc more
    → l0 + ei * (cost + rest) ≤ end + bo * suc (closed_again + more)
add_up l0 l1 l2 ei bo cost rest closed_again more end a b c = grind arith

module _ {d : DashMap} {P W : Type 0} (b : CircuitBreaker P W) (k : Key) (q : Quota)
    (v : IsLimited q) where
  Stepped-called :
      (route : Route) (key : StorageKey) (quota : Quota) (cost : ℕ) (now : Nanos) (state : State)
      (before : Nanos) (s : Shared d P W)
      → IsTotal b.primary
      → IsLimited quota
      → now + burst_offset_nanos q < u64_max
      → (key_of key ≡ k → quota ≡ q)
      → (is_half_open s.state ≡ true → is_closed state ≡ false)
      → level b k q v s now ≡ before
      → before ≤ now + burst_offset_nanos q
      → Stepped b k q v key cost now state before
          (has_failed (b.primary.check_and_update key quota cost now s.primary_state))
          (call_primary b key quota cost now s >>= λ (result, t).
            finish b key quota cost now
              (settle b route result now t).0
              result
              (settle b route result now t).1)
  unfolding settle
  Stepped-called route key quota cost now state before s total limits room same origin at low =
      let ((r, p), e) = total key quota cost now s.primary_state limits in
      rw e (
        Stepped-finish b k q v key quota cost now state s.state _ before r p _ limits room same refl
          origin at low)

  -- Where a call goes, from the state that it leaves.
  Stepped-routed :
      (route : Option Route) (after : State) (key : StorageKey) (quota : Quota) (cost : ℕ)
      (now : Nanos) (s : Shared d P W)
      → IsTotal b.primary
      → IsLimited quota
      → now + burst_offset_nanos q < u64_max
      → (key_of key ≡ k → quota ≡ q)
      → (is_half_open after ≡ true → is_closed s.state ≡ false)
      → level b k q v s now ≤ now + burst_offset_nanos q
      → Stepped b k q v key cost now s.state
          (level b k q v s now)
          (elim route [
            | none ↦ true
            | some r ↦ has_failed (b.primary.check_and_update key quota cost now s.primary_state)
          ])
          (elim route [
            | none ↦ check_fallback key quota cost now (record s { state = after })
            | some r ↦
                call_primary b key quota cost now (begin r now (record s { state = after }))
                >>= λ (result, t).
                    let (states, u) = settle b r result now t in
                    finish b key quota cost now states result u
          ])
  unfolding begin prune_fallback
  Stepped-routed none after key quota cost now s total limits room same origin low =
      Stepped-check_fallback b k q v key quota cost now s.state (level b k q v s now) _ limits room
        same refl low
  Stepped-routed (some Route.primary) after key quota cost now s total limits room same origin low =
      Stepped-called Route.primary key quota cost now s.state (level b k q v s now)
        (record s { state = after }) total limits room same origin refl low
  Stepped-routed (some Route.probe) after key quota cost now s total limits room same origin low =
      Stepped-called Route.probe key quota cost now s.state (level b k q v s now)
        (record s { state = after; last_pruned = now; fallback = retain_active d s.fallback now })
        total limits room same origin (bucket-retain_active d s.fallback now k) low

  pub Stepped-ask :
      (r : StorageRequest) (s : Shared d P W)
      → IsTotal b.primary
      → IsLimited r.quota
      → r.now + burst_offset_nanos q < u64_max
      → (key_of r.key ≡ k → r.quota ≡ q)
      → level b k q v s r.now ≤ r.now + burst_offset_nanos q
      → Stepped b k q v r.key r.cost r.now s.state
          (level b k q v s r.now)
          (is_local b s r)
          (ask (breaker_storage b) s r)
  unfolding ask breaker_storage check_and_update
  Stepped-ask r s total limits room same low =
      Stepped-routed (admit s.state r.now).0 (admit s.state r.now).1 r.key r.quota r.cost r.now s
        total limits room same (admit-half_open s.state r.now) low

  spent_from :
      (t end : Nanos) (s : Shared d P W) (rs : List StorageRequest)
      → IsTotal b.primary
      → end + burst_offset_nanos q < u64_max
      → RunsBetween t end rs
      → UsesOneQuota k q rs
      → level b k q v s t ≤ t + burst_offset_nanos q
      → (ws : List Watched) × (u : Shared d P W) × (watch b s rs ≡ some (ws, u))
        × (level b k q v s t + emission_interval_nanos q * spent_locally k ws
            ≤ end + burst_offset_nanos q * suc (recoveries ws))
  unfolding watch
  spent_from t end s [] total room runs uses low = ([], s, refl, ground (arith, runs))
  spent_from t end s (r ∷ rs) total room runs uses low =
      let late = RunsBetween-ordered r.now end rs runs.1 in
      let later = current_later (bucket d s.fallback k) t r.now runs.0 in
      let (a, s1, e, step, low1) =
        Stepped-ask r s total uses.1 (omega arith) uses.0 (omega (arith, runs.0)) in
      let (ws, u, f, ih) = spent_from r.now end s1 rs total room runs.1 uses.2 low1 in
      (
        watched b s r a s1 ∷ ws,
        u,
        rw (e, f) refl,
        add_up (level b k q v s t) (level b k q v s r.now) (level b k q v s1 r.now)
            (emission_interval_nanos q) (burst_offset_nanos q) _ (spent_locally k ws) _
            (recoveries ws) end (omega arith) step ih,
      )

  -- Take any history of calls, one after the other, of any buckets with quotas that limit, to a
  -- breaker in any state over a primary that does not panic on such quotas, whatever it answers,
  -- while the clock runs from a start to an end without going back. If the calls of one bucket use
  -- one quota, the fallback holds it at most one burst ahead at the start, and one burst after the
  -- end still fits the clock, then every call is answered, and the costs that the fallback admitted
  -- from the bucket are worth at most the time between start and end, one burst, and one more for
  -- each time that the breaker closed again.
  pub fallback_spent_bound :
      (start end : Nanos) (s : Shared d P W) (rs : List StorageRequest)
      → IsTotal b.primary
      → end + burst_offset_nanos q < u64_max
      → RunsBetween start end rs
      → UsesOneQuota k q rs
      → current (bucket d s.fallback k) start ≤ start + burst_offset_nanos q
      → (ws : List Watched) × (u : Shared d P W) × (watch b s rs ≡ some (ws, u))
        × (emission_interval_nanos q * spent_locally k ws
            ≤ burst_offset_nanos q * suc (recoveries ws) + (end - start))
  fallback_spent_bound start end s rs total room runs uses low =
      let (ws, u, e, h) = spent_from start end s rs total room runs uses low in
      let past = RunsBetween-ordered start end rs runs in (ws, u, e, omega arith)
