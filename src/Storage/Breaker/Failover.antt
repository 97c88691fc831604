-- ===== src/Storage/Breaker/Failover.antt =====
-- The rate that a user gets through src/storage/breaker.rs altogether, from a primary that limits
-- the rate and from the fallback, over any history.
use tower_rate_tier.Gcra.Decision.{current}
use tower_rate_tier.Prelude.{
  ◌*◌, ◌+◌, ◌-◌, ◌<◌, Bool-cases, List, Option-cases, [], arith, if◌then◌else◌, inl, inr, refl,
  some, suc, u64_max, ℕ, ◌∙◌, ◌∷◌, ◌≡◌, ◌≤◌,
}
use tower_rate_tier.Quota.{Nanos, Quota, burst_offset_nanos, emission_interval_nanos}
use tower_rate_tier.Quota.Bounds.{IsLimited}
use tower_rate_tier.Service.Passed.{passed}
use tower_rate_tier.Storage.{Decision}
use tower_rate_tier.Storage.Breaker.{CircuitBreaker, Shared, breaker_storage}
use tower_rate_tier.Storage.Breaker.Levels.{level}
use tower_rate_tier.Storage.Breaker.Local.{
  IsTotal, RunsBetween, RunsBetween-ordered, UsesOneQuota, Watched, has_failed, recoveries,
  spent_locally, watch, watched,
}
use tower_rate_tier.Storage.Breaker.Primary.{ask-Called, reached, spared}
use tower_rate_tier.Storage.Breaker.Rate.{fallback_spent_bound}
use tower_rate_tier.Storage.DashMap.{DashMap, Key}
use tower_rate_tier.Storage.Limits.{LimitsRate}
use tower_rate_tier.Storage.Memory.Buckets.{bucket, key_of}
use tower_rate_tier.Storage.Memory.Rate.{charge}
use tower_rate_tier.Storage.Redis.Rate.{runs}
use tower_rate_tier.Storage.Serve.{StorageRequest, ask}

-- What the primary admitted from a bucket, and what both did.
abbrev pub passed_charge : Key → Watched → ℕ
passed_charge k w = if w.locally then 0 else charge k w.served

abbrev pub passed_on : Key → List Watched → ℕ
passed_on k [] = 0
passed_on k (w ∷ ws) = passed_charge k w + passed_on k ws

abbrev pub spent_in_all : Key → List Watched → ℕ
spent_in_all k [] = 0
spent_in_all k (w ∷ ws) = charge k w.served + spent_in_all k ws

spent-split :
    (k : Key) (ws : List Watched) → spent_in_all k ws ≡ spent_locally k ws + passed_on k ws
spent-split k [] = refl
spent-split k (w ∷ ws) = elim (Bool-cases w.locally) [
  | inl e ↦ rw e (omega (arith, spent-split k ws))
  | inr e ↦ rw e (omega (arith, spent-split k ws))
]

both_bounds :
    (ei bo locally passed again level start end : ℕ)
    → ei * locally ≤ bo * suc again + (end - start)
    → level + ei * passed ≤ end + bo
    → start ≤ level
    → start ≤ end
    → ei * (locally + passed) ≤ bo * (2 + again) + 2 * (end - start)
both_bounds ei bo locally passed again level start end a c e f = grind arith

module _ {d : DashMap} {P W : Type 0} (b : CircuitBreaker P W) (k : Key) (q : Quota)
    (promise : LimitsRate b.primary k q) where
  watch-cons :
      (s u : Shared d P W) (r : StorageRequest) (rs : List StorageRequest) (ws : List Watched)
      → watch b s (r ∷ rs) ≡ some (ws, u)
      → (a : Decision) × (t : Shared d P W) × (vs : List Watched) × (ask (breaker_storage b) s r
          ≡ some (a, t))
        × (watch b t rs ≡ some (vs, u))
        × (ws ≡ watched b s r a t ∷ vs)
  unfolding watch
  watch-cons s u r rs ws e = elim (Option-cases (ask (breaker_storage b) s r)) [
    | inl g ↦ let h = rw g at e in cc
    | inr ((a, t), g) ↦
        let h = rw g at e in
        elim (Option-cases (watch b t rs)) [
          | inl f ↦ let l = rw f at h in cc
          | inr ((vs, v), f) ↦ let l = rw f at h in (a, t, vs, g, f ∙ ground arith, ground arith)
        ]
  ]

  -- What a call took from the primary's bucket is within the bucket's new level.
  ask-level :
      (r : StorageRequest) (s t : Shared d P W) (a : Decision)
      → IsLimited r.quota
      → r.now + burst_offset_nanos q < u64_max
      → (key_of r.key ≡ k → r.quota ≡ q)
      → promise.level s.primary_state r.now ≤ r.now + burst_offset_nanos q
      → ask (breaker_storage b) s r ≡ some (a, t)
      → (promise.level s.primary_state r.now
            + emission_interval_nanos q * passed_charge k (watched b s r a t)
          ≤ promise.level t.primary_state r.now)
        × (promise.level t.primary_state r.now ≤ r.now + burst_offset_nanos q)
  unfolding ask
  ask-level r s t a limits room same low out = elim (ask-Called b r s t a out) [
    | spared e l ↦ rw (e, l) (omega arith, low)
    | reached x p e f l g ↦
        let (n, m) =
          promise.level_check r.key r.quota r.cost r.now s.primary_state p x limits room same low
            e in
        rw f (elim (Bool-cases (has_failed (some (x, p)))) [
          | inl y ↦ let h = l ∙ y in rw h (omega (arith, n), m)
          | inr y ↦ let h = l ∙ y in rw (h, g y) (n, m)
        ])
  ]

  passed_from :
      (t end : Nanos) (s u : Shared d P W) (rs : List StorageRequest) (ws : List Watched)
      → end + burst_offset_nanos q < u64_max
      → RunsBetween t end rs
      → UsesOneQuota k q rs
      → promise.level s.primary_state t ≤ t + burst_offset_nanos q
      → watch b s rs ≡ some (ws, u)
      → promise.level s.primary_state t + emission_interval_nanos q * passed_on k ws
        ≤ end + burst_offset_nanos q
  unfolding watch
  passed_from t end s u [] ws room runs uses low e =
      let done : [] ≡ ws = ground arith in rw (← done) (omega (arith, runs))
  passed_from t end s u (r ∷ rs) ws room runs uses low e =
      let later = promise.level_later s.primary_state t r.now runs.0 in
      let late = RunsBetween-ordered r.now end rs runs.1 in
      let (a, s1, vs, asked_eq, f, same) = watch-cons s u r rs ws e in
      let (l, m) =
        ask-level r s s1 a uses.1 (omega arith) uses.0 (omega (arith, runs.0)) asked_eq in
      let ih = passed_from r.now end s1 u rs vs room runs.1 uses.2 m f in rw same (grind arith)

  -- Take a primary that panics on no quota that limits, and that limits the rate of a bucket under
  -- a quota, and any history of calls, one after the other, of any buckets with quotas that limit,
  -- to a breaker in any state, while the clock runs from a start to an end without going back. If
  -- the calls of that bucket use that quota, the primary and the fallback hold it at most one burst
  -- ahead at the start, and one burst after the end still fits the clock, then every call is
  -- answered, and all the costs that the breaker admitted from the bucket are worth at most twice
  -- the time between start and end, two bursts, and one more for each time that the breaker closed
  -- again.
  pub failover_spent_bound :
      (start end : Nanos) (s : Shared d P W) (rs : List StorageRequest)
      → IsLimited q
      → IsTotal b.primary
      → end + burst_offset_nanos q < u64_max
      → RunsBetween start end rs
      → UsesOneQuota k q rs
      → current (bucket d s.fallback k) start ≤ start + burst_offset_nanos q
      → promise.level s.primary_state start ≤ start + burst_offset_nanos q
      → (ws : List Watched) × (u : Shared d P W) × (watch b s rs ≡ some (ws, u))
        × (emission_interval_nanos q * spent_in_all k ws
            ≤ burst_offset_nanos q * (2 + recoveries ws) + 2 * (end - start))
  failover_spent_bound start end s rs v total room runs uses low primary_low =
      let (ws, u, e, h) = fallback_spent_bound b k q v start end s rs total room runs uses low in
      let l = passed_from start end s u rs ws room runs uses primary_low e in
      let past = RunsBetween-ordered start end rs runs in
      let from = promise.level_later s.primary_state start start (omega arith) in
      let sum =
        both_bounds (emission_interval_nanos q) (burst_offset_nanos q) (spent_locally k ws)
          (passed_on k ws) (recoveries ws) (promise.level s.primary_state start) start end h l
          (omega (arith, from)) past in
      (ws, u, e, rw (spent-split k ws) sum)
