-- ===== src/Gc.antt =====
-- src/gc.rs: the task that collects expired entries.
pub mod Sweep
use tower_rate_tier.Clock.{now}
use tower_rate_tier.Duration.{Duration}
use tower_rate_tier.Prelude.{
  ◌==◌, ◌>>◌, Bool, List, Panics, [], assert, false, if◌then◌else◌, not, some, true, ◌∷◌,
}
use tower_rate_tier.Quota.{Nanos}
use tower_rate_tier.Storage.DashMap.{DashMap}
use tower_rate_tier.Storage.Memory.{MemoryStorage, retain_active}

-- Whether the task of a handle still runs.
pub record GcHandle : Type 0 where
  pub running : Bool

-- `GcHandle::spawn` panics on an interval of 0, and otherwise starts the task.
unfoldable pub spawn : Duration → Panics GcHandle
spawn interval = assert (not (interval == 0)) >> some (record { running = true })

-- `impl Drop for GcHandle`: the task is aborted.
unfoldable pub drop : GcHandle → GcHandle
drop handle = record handle { running = false }

-- The task's loop: at each tick it reads the clock and collects. The ticks are the clock's values.
unfoldable pub ticks : {d : DashMap} → MemoryStorage d → List Nanos → MemoryStorage d
ticks m [] = m
ticks {d} m (now ∷ nows) = ticks (retain_active d m now) nows

-- A tick of the interval, with the clock's value then, or the end of the handle's life.
pub data GcEvent : Type 0 where
  ticked : Nanos → GcEvent
  dropped : GcEvent

unfoldable pub step :
    {d : DashMap} → GcEvent → GcHandle × MemoryStorage d → GcHandle × MemoryStorage d
unfolding drop
step (ticked now) (handle, m) = (handle, if handle.running then retain_active _ m now else m)
step dropped (handle, m) = (drop handle, m)

unfoldable pub steps :
    {d : DashMap} → List GcEvent → GcHandle × MemoryStorage d → GcHandle × MemoryStorage d
unfolding step
steps [] s = s
steps (e ∷ es) s = steps es (step e s)
