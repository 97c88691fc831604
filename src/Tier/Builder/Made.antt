-- ===== src/Tier/Builder/Made.antt =====
-- The builders that the methods of RateTierBuilder in src/tier.rs make, and when `build` panics.
use tower_rate_tier.Tier.Builder.{storage as set_storage}
use tower_rate_tier.Storage.Memory.{new as new_memory}
use mathlib.Core.Option.{some-injective}
use tower_rate_tier.Duration.{Duration}
use tower_rate_tier.HashMap.{is_empty}
use tower_rate_tier.Policy.{OnMissing, OnUnknownTier}
use tower_rate_tier.Prelude.{
  ◌<◌, ◌==◌, Bool, Bool-cases, Option, ap, arith, assert-some, false, if◌then◌else◌, inl, inr, none,
  not, refl, some, true, ◌≡◌,
}
use tower_rate_tier.Prelude.Text.{Text}
use tower_rate_tier.Quota.{Nanos, Quota}
use tower_rate_tier.Storage.{Storage}
use tower_rate_tier.Storage.DashMap.{DashMap}
use tower_rate_tier.Storage.Memory.{MemoryStorage, memory_storage}
use tower_rate_tier.Tier.{RateTier, World, use_storage}
use tower_rate_tier.Tier.Builder.{
  Built, RateTierBuilder, assemble, build, builder, built_in, clock, custom, default_exists,
  default_tier, disable_gc, gc_interval, on_missing, on_unknown_tier, tier,
}
use tower_rate_tier.Tier.Calls.{HasInterval, use_storage-some}

-- `RateTierBuilder::default()`, and each method on a builder. `gc_interval` may panic.
pub data Made {S W : Type 0} : RateTierBuilder S W → Type 0 where
  by_default : Made builder
  by_tier :
      {b : RateTierBuilder S W} (name : Text) (quota : Quota) → Made b → Made (tier b name quota)
  by_default_tier : {b : RateTierBuilder S W} (name : Text) → Made b → Made (default_tier b name)
  by_on_missing :
      {b : RateTierBuilder S W} (policy : OnMissing) → Made b → Made (on_missing b policy)
  by_on_unknown_tier :
      {b : RateTierBuilder S W} (policy : OnUnknownTier) → Made b → Made (on_unknown_tier b policy)
  by_clock : {b : RateTierBuilder S W} (f : W → Nanos) → Made b → Made (clock b f)
  by_storage : {b : RateTierBuilder S W} (s : Storage S) → Made b → Made (set_storage b s)
  by_gc_interval :
      {b' : RateTierBuilder S W} (b : RateTierBuilder S W) (i : Duration)
      → gc_interval b i ≡ some b'
      → Made b
      → Made b'
  by_disable_gc : {b : RateTierBuilder S W} → Made b → Made (disable_gc b)

module _ {S W : Type 0} where
  gc_interval-pos :
      (b b' : RateTierBuilder S W) (i : Duration) → gc_interval b i ≡ some b' → 0 < b'.gc_interval
  unfolding gc_interval
  gc_interval-pos b b' i e =
      let (p, f) = assert-some (not (i == 0)) _ _ e in
      let g : i ≡ b'.gc_interval = ap (λ c. c.gc_interval) (some-injective _ _ f) in ground arith

  Made-interval : (b : RateTierBuilder S W) → Made b → 0 < b.gc_interval
  unfolding builder tier default_tier on_missing on_unknown_tier clock set_storage gc_interval
      disable_gc
  Made-interval b by_default = ground arith
  Made-interval b (by_tier name quota m) = Made-interval _ m
  Made-interval b (by_default_tier name m) = Made-interval _ m
  Made-interval b (by_on_missing policy m) = Made-interval _ m
  Made-interval b (by_on_unknown_tier policy m) = Made-interval _ m
  Made-interval b (by_clock f m) = Made-interval _ m
  Made-interval b (by_storage s m) = Made-interval _ m
  Made-interval b (by_gc_interval a i e m) = gc_interval-pos a b i e
  Made-interval b (by_disable_gc m) = Made-interval _ m

-- The collector of a limiter has an interval that is not 0.
abbrev pub Spawns : {d : DashMap} {S W : Type 0} → Built d S W → Type 0
Spawns (custom t) = HasInterval t
Spawns (built_in t w) = HasInterval t

module _ {S W : Type 0} (d : DashMap) (system_clock : W → Nanos) (in_runtime : W → Bool)
    (b : RateTierBuilder S W) (w : W) where
  -- The limiter over the built-in storage.
  abbrev collected : RateTier (MemoryStorage d) W
  collected =
      let gc = if b.gc_enabled then some (record { interval = b.gc_interval }) else none in
      assemble d system_clock in_runtime b (memory_storage d) gc

  collector-HasInterval :
      {T : Type 0} (backend : Storage T)
      → 0 < b.gc_interval
      → HasInterval (
          assemble d system_clock in_runtime b backend
            (if b.gc_enabled then some (record { interval = b.gc_interval }) else none))
  collector-HasInterval backend p gc e = elim (Bool-cases b.gc_enabled) [
    | inl g ↦ let k = rw g at e in ground (arith, p)
    | inr g ↦ let k = rw g at e in absurd cc
  ]

  over_built_in :
      (w1 : World (MemoryStorage d) W)
      → b.storage ≡ none
      → is_empty b.tiers ≡ false
      → default_exists d system_clock in_runtime b ≡ true
      → use_storage collected (record { stored = new_memory d; gc_started = false; rest = w })
        ≡ some w1
      → build d system_clock in_runtime b w ≡ some (built_in collected w1)
  unfolding build
  over_built_in w1 f e g k = rw (build, e, g, f, k) refl

  built_by :
      (backend : Option (Storage S))
      → b.storage ≡ backend
      → 0 < b.gc_interval
      → is_empty b.tiers ≡ false
      → default_exists d system_clock in_runtime b ≡ true
      → (built : Built d S W) × (build d system_clock in_runtime b w ≡ some built) × Spawns built
  unfolding build
  built_by (some s) f p e g = (
    custom (assemble d system_clock in_runtime b s none),
    rw (build, e, g, f) refl,
    λ gc h. absurd cc,
  )
  built_by none f p e g =
      let h = collector-HasInterval (memory_storage d) p in
      let (w1, k, l) =
        use_storage-some collected (record { stored = new_memory d; gc_started = false; rest = w })
          h in
      (built_in collected w1, over_built_in w1 f e g k, h)

  -- For a builder that its methods made: without tiers, `build` panics; with a default tier that is
  -- not among the tiers, it panics; otherwise it returns a limiter, whose collector, if it has one,
  -- has an interval that is not 0.
  pub build-Made :
      Made b
      → (is_empty b.tiers ≡ false
          → default_exists d system_clock in_runtime b ≡ true
          → (built : Built d S W) × (build d system_clock in_runtime b w ≡ some built)
            × Spawns built)
        × (is_empty b.tiers ≡ true → build d system_clock in_runtime b w ≡ none)
        × (default_exists d system_clock in_runtime b ≡ false
            → build d system_clock in_runtime b w ≡ none)
  unfolding build
  build-Made m = (
    λ e g. built_by b.storage refl (Made-interval b m) e g,
    λ e. rw (build, e) refl,
    λ g. elim (Bool-cases (is_empty b.tiers)) [
      | inl e ↦ rw (build, e) refl
      | inr e ↦ rw (build, e, g) refl
    ],
  )
