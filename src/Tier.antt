-- ===== src/Tier.antt =====
-- src/tier.rs: the tiers of a limiter, its builder, and the check without HTTP.
-- `S` is the storage's shared state, and `W` the rest of the world, which the clock reads.
pub mod Builder
pub mod Calls
pub mod Rate
pub mod Errors
use tower_rate_tier.Duration.{Duration}
use tower_rate_tier.Gcra.{RateLimitInfo, RateLimited}
use tower_rate_tier.HashMap.{HashMap, get}
use tower_rate_tier.Policy.{OnMissing, OnUnknownTier}
use tower_rate_tier.Prelude.{
  ◌&&◌, ◌==◌, ◌>>◌, ◌>>=◌, Bool, Option, Panics, Result, assert, err, if◌then◌else◌, ltb, none, not,
  ok, some, true, ℕ, ◌>>=◌, ◌>>◌,
}
use tower_rate_tier.Prelude.Text.{Text}
use tower_rate_tier.Quota.{Nanos, Quota, is_unlimited}
use tower_rate_tier.Storage.{Decision, Storage, StorageError, StorageKey}

-- The collector of the built-in storage. Whether its task runs is part of `World`.
pub record LazyGc : Type 0 where
  pub interval : Duration

pub record RateTier (S W : Type 0) : Type 0 where
  pub tiers : HashMap Quota
  pub default_tier : Option Text
  pub on_missing : OnMissing
  pub on_unknown_tier : OnUnknownTier
  pub storage : Storage S
  pub clock : W → Nanos
  pub gc : Option LazyGc
  -- Whether a Tokio runtime is there: `Handle::try_current().is_ok()`.
  pub in_runtime : W → Bool

-- What a limiter's operations change.
pub record World (S W : Type 0) : Type 0 where
  pub stored : S
  pub gc_started : Bool
  pub rest : W

pub data CheckError : Type 0 where
  unknown_tier : Text → CheckError
  storage : StorageError → CheckError
  cost_exceeds_limit : ℕ → ℕ → CheckError

abbrev pub unlimited_info : RateLimitInfo
unlimited_info = record { limit = 0; remaining = 0; reset_after = 0 }

module _ {S W : Type 0} where
  unfoldable pub get_quota : RateTier S W → Text → Option Quota
  get_quota t name = get t.tiers name

  -- `GcHandle::spawn` needs an interval above 0, and panics on 0.
  unfoldable pub ensure_started : RateTier S W → LazyGc → World S W → Panics (World S W)
  ensure_started t gc w =
      if not w.gc_started && t.in_runtime w.rest
      then (assert (not (gc.interval == 0)) >> some (record w { gc_started = true }))
      else some w

  -- `RateTier::storage`
  unfoldable pub use_storage : RateTier S W → World S W → Panics (World S W)
  unfolding ensure_started
  use_storage t w = elim t.gc [ some gc ↦ ensure_started t gc w | none ↦ some w ]

  -- The storage's answer, in the world.
  unfoldable pub ask_storage :
      RateTier S W → StorageKey → Quota → ℕ → Nanos → World S W → Panics (Decision × World S W)
  unfolding use_storage
  ask_storage t key quota cost now w = do
    w1 ← use_storage t w
    reply ← t.storage.check_and_update key quota cost now w1.stored
    some (reply.0, record w1 { stored = reply.1 })

  abbrev pub checked :
      Decision × World S W → Result (Result RateLimitInfo RateLimited) CheckError × World S W
  checked (ok answer, w) = (ok answer, w)
  checked (err e, w) = (err (CheckError.storage e), w)

  unfoldable pub check :
      RateTier S W
      → Text
      → Text
      → ℕ
      → World S W
      → Panics (Result (Result RateLimitInfo RateLimited) CheckError × World S W)
  unfolding get_quota is_unlimited
  check t user_id tier_name cost w = elim (get_quota t tier_name) [
    | none ↦ some (err (CheckError.unknown_tier tier_name), w)
    | some quota ↦
        if is_unlimited quota
        then some (ok (ok unlimited_info), w)
        else if ltb quota.max_burst cost
        then some (err (CheckError.cost_exceeds_limit cost quota.max_burst), w)
        else (ask_storage t (record { user_id = user_id; tier = tier_name }) quota cost
              (t.clock w.rest) w
            >>= λ reply. some (checked reply))
  ]
