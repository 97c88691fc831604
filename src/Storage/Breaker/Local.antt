-- ===== src/Storage/Breaker/Local.antt =====
-- Which calls of src/storage/breaker.rs its fallback answers, and when an outage ends, over a
-- history of calls one after the other.
use tower_rate_tier.Prelude.{
  ◌&&◌, ◌+◌, ◌>>=◌, Bool, List, Panics, [], arith, err, false, if◌then◌else◌, none, not, ok, some,
  true, ℕ, ◌∷◌, ◌≡◌, ◌≤◌,
}
use tower_rate_tier.Quota.{Nanos, Quota}
use tower_rate_tier.Quota.Bounds.{IsLimited}
use tower_rate_tier.Storage.{Decision, Storage, StorageKey}
use tower_rate_tier.Storage.Breaker.{CircuitBreaker, Shared, admit, breaker_storage}
use tower_rate_tier.Storage.Breaker.Transition.{is_closed}
use tower_rate_tier.Storage.DashMap.{DashMap, Key}
use tower_rate_tier.Storage.Memory.Buckets.{key_of}
use tower_rate_tier.Storage.Memory.Rate.{charge}
use tower_rate_tier.Storage.Memory.Runs.{Served}
use tower_rate_tier.Storage.Serve.{StorageRequest, ask}

-- A call: its answer, whether the fallback gave it, and whether the breaker closed again.
pub record Watched : Type 0 where
  pub served : Served
  pub locally : Bool
  pub recovered : Bool

-- A storage that does not panic on a quota that limits.
abbrev pub IsTotal : {P : Type 0} → Storage P → Type 0
IsTotal {P} storage =
    (key : StorageKey) (quota : Quota) (cost : ℕ) (now : Nanos) (p : P)
    → IsLimited quota
    → (r : Decision × P) × (storage.check_and_update key quota cost now p ≡ some r)

abbrev pub has_failed : {P : Type 0} → Panics (Decision × P) → Bool
has_failed none = false
has_failed (some (ok a, p)) = false
has_failed (some (err e, p)) = true

module _ {d : DashMap} {P W : Type 0} (b : CircuitBreaker P W) where
  -- The breaker does not call the primary, or the primary fails.
  abbrev pub is_local : Shared d P W → StorageRequest → Bool
  is_local s r = elim (admit s.state r.now).0 [
    | none ↦ true
    | some route ↦
        has_failed (b.primary.check_and_update r.key r.quota r.cost r.now s.primary_state)
  ]

  abbrev pub recovers : Shared d P W → Shared d P W → Bool
  recovers s t = is_closed t.state && not (is_closed s.state)

  abbrev pub watched : Shared d P W → StorageRequest → Decision → Shared d P W → Watched
  watched s r a t = record {
    served = record { key = r.key; cost = r.cost; answer = a };
    locally = is_local s r;
    recovered = recovers s t;
  }

  unfoldable pub watch : Shared d P W → List StorageRequest → Panics (List Watched × Shared d P W)
  watch s [] = some ([], s)
  watch s (r ∷ rs) = ask (breaker_storage b) s r >>= λ (a, t).
      watch t rs >>= λ (ws, u). some (watched s r a t ∷ ws, u)

-- The costs that the fallback admitted from a bucket.
abbrev pub local_charge : Key → Watched → ℕ
local_charge k w = if w.locally then charge k w.served else 0

abbrev pub spent_locally : Key → List Watched → ℕ
spent_locally k [] = 0
spent_locally k (w ∷ ws) = local_charge k w + spent_locally k ws

abbrev pub recoveries : List Watched → ℕ
recoveries [] = 0
recoveries (w ∷ ws) = (if w.recovered then 1 else 0) + recoveries ws

-- The clock that the requests read does not go back, and runs from one time to another.
abbrev pub RunsBetween : Nanos → Nanos → List StorageRequest → Type 0
RunsBetween start end [] = start ≤ end
RunsBetween start end (r ∷ rs) = (start ≤ r.now) × RunsBetween r.now end rs

-- The requests of a bucket use a quota, and all quotas limit.
abbrev pub UsesOneQuota : Key → Quota → List StorageRequest → Type 0
UsesOneQuota k q [] = Unit
UsesOneQuota k q (r ∷ rs) =
    (key_of r.key ≡ k → r.quota ≡ q) × IsLimited r.quota × UsesOneQuota k q rs

pub RunsBetween-ordered :
    (start end : Nanos) (rs : List StorageRequest) → RunsBetween start end rs → start ≤ end
RunsBetween-ordered start end [] h = h
RunsBetween-ordered start end (r ∷ rs) h =
    let l = RunsBetween-ordered r.now end rs h.1 in omega (arith, h.0)
