-- ===== src/Storage.antt =====
-- src/storage/mod.rs: what a storage backend is asked, and what it answers.
pub mod DashMap
pub mod Serve
pub mod Limits
pub mod Memory
pub mod Breaker
pub mod Redis
pub mod Failover
use tower_rate_tier.Gcra.{RateLimitInfo, RateLimited}
use tower_rate_tier.Prelude.{◌++◌, Panics, Result, ℕ}
use tower_rate_tier.Prelude.Text.{Text, codes}
use tower_rate_tier.Quota.{Nanos, Quota}

-- One bucket: a user within a tier.
pub record StorageKey : Type 0 where
  pub user_id : Text
  pub tier : Text

-- The boxed error of a backend, by its message.
pub record StorageError : Type 0 where
  pub message : Text

-- `Display` of StorageError.
unfoldable pub display_storage_error : StorageError → Text
display_storage_error e = codes "storage error: " ++ e.message

-- The output of `StorageFuture`: the outer result is the backend's, the inner one the decision.
abbrev pub Decision : Type 0
Decision = Result (Result RateLimitInfo RateLimited) StorageError

-- The trait `Storage`, for a backend whose shared state is an `S`: the future run to its end.
pub record Storage (S : Type 0) : Type 0 where
  pub check_and_update : StorageKey → Quota → ℕ → Nanos → S → Panics (Decision × S)
