-- ===== src/Gc/Sweep.antt =====
-- What the task of src/gc.rs leaves of the buckets.
use tower_rate_tier.Gc.{GcEvent, dropped, step, steps, ticked, ticks}
use tower_rate_tier.Gcra.Decision.{current}
use tower_rate_tier.Prelude.{
  ◌&&◌, Bool, List, Option, [], ap, arith, false, leb, max, none, refl, some, true, ◌∙◌, ◌∷◌, ◌≡◌,
  ◌≤◌,
}
use tower_rate_tier.Quota.{Nanos}
use tower_rate_tier.Storage.DashMap.{DashMap, Key, kept}
use tower_rate_tier.Storage.Memory.{MemoryStorage, retain_active}
use tower_rate_tier.Storage.Memory.Buckets.{bucket}

-- No tick is later than the time.
abbrev pub outlives : Nanos → List Nanos → Bool
outlives tat [] = true
outlives tat (now ∷ nows) = leb now tat && outlives tat nows

abbrev pub latest : List Nanos → Nanos
latest [] = 0
latest (now ∷ nows) = max now (latest nows)

outlives-latest : (tat : Nanos) (nows : List Nanos) → outlives tat nows ≡ leb (latest nows) tat
outlives-latest tat [] = ground arith
outlives-latest tat (now ∷ nows) = ground (arith, outlives-latest tat nows)

kept-kept : (f g : Nanos → Bool) (e : Option Nanos) → kept g (kept f e) ≡ kept (λ t. f t && g t) e
kept-kept f g none = refl
kept-kept f g (some t) = ground arith

kept-all : (e : Option Nanos) → e ≡ kept (λ tat. true) e
kept-all none = refl
kept-all (some t) = refl

kept-latest :
    (nows : List Nanos) (e : Option Nanos)
    → kept (λ tat. outlives tat nows) e ≡ kept (λ tat. leb (latest nows) tat) e
kept-latest nows none = refl
kept-latest nows (some t) = rw (outlives-latest t nows) refl

kept-later :
    (last now : Nanos) (e : Option Nanos)
    → last ≤ now
    → current (kept (λ tat. leb last tat) e) now ≡ current e now
kept-later last now none h = refl
kept-later last now (some t) h = ground arith

-- The ticks before the handle is dropped.
abbrev pub heard : List GcEvent → List Nanos
heard [] = []
heard (ticked now ∷ es) = now ∷ heard es
heard (dropped ∷ es) = []

module _ (d : DashMap) where
  ticks-kept :
      (m : MemoryStorage d) (nows : List Nanos) (k : Key)
      → bucket d (ticks m nows) k ≡ kept (λ tat. outlives tat nows) (bucket d m k)
  unfolding ticks retain_active
  ticks-kept m [] k = kept-all (bucket d m k)
  ticks-kept m (now ∷ nows) k =
      rw (ticks-kept (retain_active d m now) nows k, d.entry-retain (λ tat. leb now tat) m.state k)
        (kept-kept (λ tat. leb now tat) (λ tat. outlives tat nows) (bucket d m k))

  steps-stopped :
      (es : List GcEvent) (m : MemoryStorage d)
      → steps es (record { running = false }, m) ≡ (record { running = false }, m)
  unfolding steps step
  steps-stopped [] m = refl
  steps-stopped (ticked now ∷ es) m = steps-stopped es m
  steps-stopped (dropped ∷ es) m = steps-stopped es m

  -- A started task collects at each of its ticks until its handle is dropped, and never after.
  steps-ticks :
      (es : List GcEvent) (m : MemoryStorage d)
      → (steps es (record { running = true }, m)).1 ≡ ticks m (heard es)
  unfolding steps step ticks
  steps-ticks [] m = refl
  steps-ticks (ticked now ∷ es) m = steps-ticks es (retain_active d m now)
  steps-ticks (dropped ∷ es) m = ap (λ s. s.1) (steps-stopped es m)

  -- What any ticks leave of a bucket.
  ticks-bucket :
      (m : MemoryStorage d) (nows : List Nanos) (k : Key)
      → (bucket d (ticks m nows) k ≡ kept (λ tat. leb (latest nows) tat) (bucket d m k))
        × ((now : Nanos)
            → latest nows ≤ now
            → current (bucket d (ticks m nows) k) now ≡ current (bucket d m k) now)
  ticks-bucket m nows k =
      let e : bucket d (ticks m nows) k ≡ kept (λ tat. leb (latest nows) tat) (bucket d m k) =
        ticks-kept m nows k ∙ kept-latest nows (bucket d m k) in
      (e, λ now h. rw e (kept-later (latest nows) now (bucket d m k) h))

  -- Take any ticks of a started task, in whatever order of their times, with its handle dropped at
  -- any point or never. The map then holds exactly the buckets that it held before and that the
  -- latest tick before the drop did not find full: each keeps its arrival time, and no check from
  -- that tick on tells the map from what it was.
  pub steps-bucket :
      (es : List GcEvent) (m : MemoryStorage d) (k : Key) (now : Nanos)
      → latest (heard es) ≤ now
      → let left = (steps es (record { running = true }, m)).1 in
        (bucket d left k ≡ kept (λ tat. leb (latest (heard es)) tat) (bucket d m k))
        × (current (bucket d left k) now ≡ current (bucket d m k) now)
  steps-bucket es m k now late =
      let (same, unseen) = ticks-bucket m (heard es) k in
      rw (steps-ticks es m) (same, unseen now late)
