-- ===== src/Storage/Breaker/Levels.antt =====
-- What one call of src/storage/breaker.rs does to a bucket of its fallback.
use tower_rate_tier.Gcra.Decision.{check_gcra_total, current}
use tower_rate_tier.Prelude.{
  ◌&&◌, ◌*◌, ◌+◌, ◌<◌, ◌==◌, Bool, Bool-cases, Option-cases, Panics, arith, err, false,
  if◌then◌else◌, inl, inr, leb, not, ok, refl, saturating_sub, some, true, u64_max, ℕ, ◌∙◌, ◌≡◌,
  ◌≤◌,
}
use tower_rate_tier.Quota.{Nanos, Quota, burst_offset_nanos, emission_interval_nanos}
use tower_rate_tier.Quota.Bounds.{IsLimited, emission_pos}
use tower_rate_tier.Storage.{Decision, StorageError, StorageKey}
use tower_rate_tier.Storage.Breaker.{
  CircuitBreaker, Shared, admit, begin, check_fallback, emit, finish, prune_fallback,
  prune_fallback_if_due,
}
use tower_rate_tier.Storage.Breaker.Event.{BreakerEvent, primary_failed}
use tower_rate_tier.Storage.Breaker.Frames.{state-emit}
use tower_rate_tier.Storage.Breaker.Local.{has_failed}
use tower_rate_tier.Storage.Breaker.Transition.{
  Route, State, closed, half_open, is_closed, is_half_open, is_open, opened,
}
use tower_rate_tier.Storage.DashMap.{DashMap, Key, kept}
use tower_rate_tier.Storage.Memory.{clear, store}
use tower_rate_tier.Storage.Memory.Buckets.{bucket, decided, key_of}
use tower_rate_tier.Storage.Memory.Collection.{bucket-retain_active}
use tower_rate_tier.Storage.Memory.Rate.{charge, level-store}
use tower_rate_tier.Storage.Memory.Runs.{check-decided}

admit-half_open :
    (state : State) (now : Nanos)
    → is_half_open (admit state now).1 ≡ true
    → is_closed state ≡ false
unfolding admit
admit-half_open (closed n) now e = cc
admit-half_open (opened until) now e = refl
admit-half_open half_open now e = refl

module _ {d : DashMap} {P W : Type 0} (b : CircuitBreaker P W) (k : Key) (q : Quota)
    (v : IsLimited q) where
  abbrev pub level : Shared d P W → Nanos → Nanos
  level s now = current (bucket d s.fallback k) now

  level-check_fallback :
      (key : StorageKey) (quota : Quota) (cost : ℕ) (now : Nanos) (s : Shared d P W)
      → IsLimited quota
      → now + burst_offset_nanos q < u64_max
      → (key_of key ≡ k → quota ≡ q)
      → level s now ≤ now + burst_offset_nanos q
      → (a : Decision) × (t : Shared d P W) × (check_fallback key quota cost now s ≡ some (a, t))
        × (level t now
            ≡ level s now
              + emission_interval_nanos q
                * charge k (record { key = key; cost = cost; answer = a }))
        × (level t now ≤ now + burst_offset_nanos q)
        × (t.state ≡ s.state)
  unfolding check_fallback
  level-check_fallback key quota cost now s limits room same low =
      let (r, e) =
        check_gcra_total (bucket d s.fallback (key_of key)) now (emission_interval_nanos quota)
          (burst_offset_nanos quota) cost (emission_pos quota limits) in
      let (f, g) = level-store d k q v s.fallback key quota now cost r room same e low in
      (
        decided r,
        record s { fallback = (store d s.fallback (key_of key) r).1 },
        rw (check-decided d s.fallback key quota cost now r e) refl,
        f,
        g,
        refl,
      )

  level-begin :
      (route : Route) (now : Nanos) (s : Shared d P W) → level (begin route now s) now ≡ level s now
  unfolding begin prune_fallback
  level-begin Route.primary now s = refl
  level-begin Route.probe now s = bucket-retain_active d s.fallback now k

  level-emit :
      (event : BreakerEvent) (now : Nanos) (s : Shared d P W)
      → level (emit b event s) now ≡ level s now
  unfolding emit
  level-emit event now s = elim (Option-cases b.on_state_change) [
    | inl e ↦ rw e refl
    | inr (f, e) ↦ rw e refl
  ]

  level-prune : (now : Nanos) (s : Shared d P W) → level (prune_fallback now s) now ≡ level s now
  unfolding prune_fallback
  level-prune now s = bucket-retain_active d s.fallback now k

  level-prune_if_due :
      (last now : Nanos) (s : Shared d P W)
      → level (prune_fallback_if_due b last now s) now ≡ level s now
  unfolding prune_fallback_if_due
  level-prune_if_due last now s =
      elim (Bool-cases (leb b.policy.open_for (saturating_sub now last) && s.last_pruned == last)) [
        | inl e ↦ rw e (bucket-retain_active d s.fallback now k)
        | inr e ↦ rw e refl
      ]

  level-failed :
      (opens : Bool) (x : StorageError) (now : Nanos) (s : Shared d P W)
      → level
          (if opens
            then emit b (BreakerEvent.opened x) (prune_fallback now s)
            else prune_fallback_if_due b s.last_pruned now s)
          now
        ≡ level s now
  level-failed true x now s =
      level-emit (BreakerEvent.opened x) now (prune_fallback now s) ∙ level-prune now s
  level-failed false x now s = level-prune_if_due s.last_pruned now s

  -- A call that started in a state and at a level: what it charged to the fallback's bucket is
  -- within the bucket's new level, and one burst more if the breaker closed again.
  abbrev pub Stepped :
      StorageKey → ℕ → Nanos → State → Nanos → Bool → Panics (Decision × Shared d P W) → Type 0
  Stepped key cost now state before locally out =
      (a : Decision) × (t : Shared d P W) × (out ≡ some (a, t))
      × (before
            + emission_interval_nanos q
              * (if locally then charge k (record { key = key; cost = cost; answer = a }) else 0)
          ≤ level t now
            + burst_offset_nanos q * (if is_closed t.state && not (is_closed state) then 1 else 0))
      × (level t now ≤ now + burst_offset_nanos q)

  pub Stepped-check_fallback :
      (key : StorageKey) (quota : Quota) (cost : ℕ) (now : Nanos) (state : State) (before : Nanos)
      (s : Shared d P W)
      → IsLimited quota
      → now + burst_offset_nanos q < u64_max
      → (key_of key ≡ k → quota ≡ q)
      → level s now ≡ before
      → before ≤ now + burst_offset_nanos q
      → Stepped key cost now state before true (check_fallback key quota cost now s)
  Stepped-check_fallback key quota cost now state before s limits room same at low =
      let (a, t, e, f, g, _) =
        level-check_fallback key quota cost now s limits room same (omega arith) in
      (a, t, e, omega arith, g)

  level-clear :
      (now : Nanos) (s : Shared d P W)
      → level (emit b BreakerEvent.closed (record s { fallback = clear d s.fallback })) now ≡ now
  unfolding clear
  level-clear now s =
      level-emit BreakerEvent.closed now (record s { fallback = clear d s.fallback })
      ∙ (rw (d.entry-clear s.fallback.state k) (omega arith))

  pub Stepped-finish :
      (key : StorageKey) (quota : Quota) (cost : ℕ) (now : Nanos) (state old new : State)
      (before : Nanos) (r : Decision) (p : P) (s : Shared d P W)
      → IsLimited quota
      → now + burst_offset_nanos q < u64_max
      → (key_of key ≡ k → quota ≡ q)
      → s.state ≡ new
      → (is_half_open old ≡ true → is_closed state ≡ false)
      → level s now ≡ before
      → before ≤ now + burst_offset_nanos q
      → Stepped key cost now state before
          (has_failed (some (r, p)))
          (finish b key quota cost now (old, new) r s)
  unfolding finish prune_fallback prune_fallback_if_due
  Stepped-finish key quota cost now state old new before (ok a) p s limits room same kept origin at
        low =
      elim (Bool-cases (is_half_open old && is_closed new)) [
        | inl e ↦
            let t = emit b BreakerEvent.closed (record s { fallback = clear d s.fallback }) in
            let l = level-clear now s in
            let st : t.state ≡ new =
              state-emit b BreakerEvent.closed (record s { fallback = clear d s.fallback })
              ∙ kept in
            let c : is_closed t.state && not (is_closed state) ≡ true =
              rw (st, origin (ground (arith, e))) (ground (arith, e)) in
            (ok a, t, rw e refl, rw c (omega (arith, l)), omega (arith, l))
        | inr e ↦ (ok a, s, rw e refl, omega arith, omega arith)
      ]
  Stepped-finish key quota cost now state old new before (err x) p s limits room same kept origin at
        low =
      let s1 = emit b (primary_failed x) s in
      let at1 : level s1 now ≡ before = level-emit (primary_failed x) now s ∙ at in
      Stepped-check_fallback key quota cost now state before _ limits room same
        (level-failed (is_closed old && is_open new) x now s1 ∙ at1) low
