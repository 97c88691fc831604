-- ===== src/Policy.antt =====
-- The policies of src/on_missing.rs, src/on_unknown_tier.rs and src/on_storage_error.rs, and the
-- identity of src/identifier.rs.
use tower_rate_tier.Prelude.{ℕ}
use tower_rate_tier.Prelude.Text.{Text}

-- http::StatusCode, by its number.
abbrev pub StatusCode : Type 0
StatusCode = ℕ

pub data OnMissing : Type 0 where
  use_default allow : OnMissing
  deny : StatusCode → OnMissing

pub data OnUnknownTier : Type 0 where
  use_default : OnUnknownTier
  deny : StatusCode → OnUnknownTier
  allow : OnUnknownTier

pub data OnStorageError : Type 0 where
  allow deny : OnStorageError

pub record TierIdentity : Type 0 where
  pub user_id : Text
  pub tier : Text
