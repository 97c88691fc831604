-- ===== src/Storage/Breaker/Event.antt =====
-- The events of src/storage/breaker.rs. The errors are those of the primary.
use tower_rate_tier.Storage.{StorageError}

pub data BreakerEvent : Type 0 where
  primary_failed : StorageError → BreakerEvent
  opened : StorageError → BreakerEvent
  closed : BreakerEvent
