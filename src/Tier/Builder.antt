-- ===== src/Tier/Builder.antt =====
-- The builder of src/tier.rs.
pub mod Default
pub mod Made
use tower_rate_tier.Storage.Memory.{new as new_memory}
use tower_rate_tier.Duration.{Duration, from_secs}
use tower_rate_tier.HashMap.{HashMap, contains_key, insert, is_empty}
use tower_rate_tier.Policy.{OnMissing, OnUnknownTier}
use tower_rate_tier.Prelude.{
  ◌==◌, ◌>>=◌, Bool, Option, Panics, [], assert, false, if◌then◌else◌, none, not, some, true, ◌>>=◌,
  ◌>>◌,
}
use tower_rate_tier.Prelude.Text.{Text}
use tower_rate_tier.Quota.{Nanos, Quota}
use tower_rate_tier.Storage.{Storage}
use tower_rate_tier.Storage.DashMap.{DashMap}
use tower_rate_tier.Storage.Memory.{MemoryStorage, memory_storage}
use tower_rate_tier.Tier.{LazyGc, RateTier, World, use_storage}

-- A custom storage's limiter, or one with the built-in storage, which the builder makes and whose
-- collector it may start.
pub data Built (d : DashMap) (S W : Type 0) : Type 0 where
  custom : RateTier S W → Built d S W
  built_in : RateTier (MemoryStorage d) W → World (MemoryStorage d) W → Built d S W

pub record RateTierBuilder (S W : Type 0) : Type 0 where
  pub tiers : HashMap Quota
  pub default_tier : Option Text
  pub on_missing : OnMissing
  pub on_unknown_tier : OnUnknownTier
  pub clock : Option (W → Nanos)
  pub storage : Option (Storage S)
  pub gc_interval : Duration
  pub gc_enabled : Bool

module _ {S W : Type 0} where
  -- RateTierBuilder::default()
  unfoldable pub builder : RateTierBuilder S W
  builder = record {
    tiers = [];
    default_tier = none;
    on_missing = OnMissing.use_default;
    on_unknown_tier = OnUnknownTier.use_default;
    clock = none;
    storage = none;
    gc_interval = from_secs 60;
    gc_enabled = true;
  }

  unfoldable pub tier : RateTierBuilder S W → Text → Quota → RateTierBuilder S W
  tier b name quota = record b { tiers = insert b.tiers name quota }

  unfoldable pub default_tier : RateTierBuilder S W → Text → RateTierBuilder S W
  default_tier b name = record b { default_tier = some name }

  unfoldable pub on_missing : RateTierBuilder S W → OnMissing → RateTierBuilder S W
  on_missing b policy = record b { on_missing = policy }

  unfoldable pub on_unknown_tier : RateTierBuilder S W → OnUnknownTier → RateTierBuilder S W
  on_unknown_tier b policy = record b { on_unknown_tier = policy }

  unfoldable pub clock : RateTierBuilder S W → (W → Nanos) → RateTierBuilder S W
  clock b f = record b { clock = some f }

  unfoldable pub storage : RateTierBuilder S W → Storage S → RateTierBuilder S W
  storage b s = record b { storage = some s; gc_enabled = false }

  unfoldable pub gc_interval : RateTierBuilder S W → Duration → Panics (RateTierBuilder S W)
  gc_interval b interval = do
    assert (not (interval == 0))
    some (record b { gc_interval = interval; gc_enabled = true })

  unfoldable pub disable_gc : RateTierBuilder S W → RateTierBuilder S W
  disable_gc b = record b { gc_enabled = false }

-- The system's clock and runtime are the environment's.
module _ {S W : Type 0} (d : DashMap) (system_clock : W → Nanos) (in_runtime : W → Bool) where
  -- The limiter over a storage.
  abbrev pub assemble :
      {T : Type 0} → RateTierBuilder S W → Storage T → Option LazyGc → RateTier T W
  assemble b backend gc = record {
    tiers = b.tiers;
    default_tier = b.default_tier;
    on_missing = b.on_missing;
    on_unknown_tier = b.on_unknown_tier;
    storage = backend;
    clock = elim b.clock [ some f ↦ f | none ↦ system_clock ];
    gc = gc;
    in_runtime = in_runtime;
  }

  abbrev pub default_exists : RateTierBuilder S W → Bool
  default_exists b = elim b.default_tier [ some name ↦ contains_key b.tiers name | none ↦ true ]

  unfoldable pub build : RateTierBuilder S W → W → Panics (Built d S W)
  build b w = do
    assert (not (is_empty b.tiers))
    assert (default_exists b)
    elim b.storage [
      | some backend ↦ some (custom (assemble b backend none))
      | none ↦
          let gc = if b.gc_enabled then some (record { interval = b.gc_interval }) else none in
          let t = assemble b (memory_storage d) gc in
          use_storage t (record { stored = new_memory d; gc_started = false; rest = w }) >>= λ w1.
          some (built_in t w1)
    ]
