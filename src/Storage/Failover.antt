-- ===== src/Storage/Failover.antt =====
-- A breaker (src/storage/breaker.rs) in front of a Redis storage (src/storage/redis.rs) that other
-- instances of the program use as well, over a connection that fails at times.
pub mod Levels
pub mod Rate
use tower_rate_tier.Duration.{Duration}
use tower_rate_tier.Prelude.{false, ◌>>=◌, List, Panics, [], some, ℕ, ◌∷◌, ◌≡◌, ◌≤◌}
use tower_rate_tier.Prelude.Text.{Text}
use tower_rate_tier.Quota.{Nanos, Quota}
use tower_rate_tier.Quota.Bounds.{IsLimited}
use tower_rate_tier.Storage.{Decision, Storage, StorageError, StorageKey}
use tower_rate_tier.Storage.Breaker.{CircuitBreaker, Shared, breaker_storage}
use tower_rate_tier.Storage.Breaker.Local.{Watched, watched}
use tower_rate_tier.Storage.DashMap.{DashMap}
use tower_rate_tier.Storage.Redis.{RedisStorage, redis_storage}
use tower_rate_tier.Storage.Redis.Faults.{Fault, Line, line_at, on_line}
use tower_rate_tier.Storage.Redis.Key.{Sha1, redis_key}
use tower_rate_tier.Storage.Redis.Rate.{Arrival, arrive, place}
use tower_rate_tier.Storage.Redis.Script.{ScriptError}
use tower_rate_tier.Storage.Redis.Server.{Expiry, Server}
use tower_rate_tier.Storage.Serve.{StorageRequest, ask}

-- A call of this instance's breaker, when the server's clock shows a time, and how its call of the
-- server, if it makes one, ends; or a call by another instance.
pub data Event : Type 0 where
  ours : ℕ → Fault → StorageRequest → Event
  theirs : Arrival → Event

module _ {d : DashMap} {W : Type 0} where
  abbrev pub move_to : ℕ → Fault → Shared d Line W → Shared d Line W
  move_to at f s = record s { primary_state = line_at s.primary_state.server at f }

  abbrev pub with_server : Server → Shared d Line W → Shared d Line W
  with_server sv s = record s { primary_state = record s.primary_state { server = sv } }

-- The place of a bucket of this instance in Redis.
abbrev pub place_of : Sha1 → RedisStorage Server → StorageKey → Text
place_of sha1 settings key =
    redis_key sha1 settings.hash_user_ids settings.key_secret settings.key_prefix key

module _ (sha1 : Sha1) (x : Expiry) (message : ScriptError → StorageError)
    (timeout_error : Duration → StorageError) (settings : RedisStorage Server) where
  abbrev pub shared_redis : Storage Line
  shared_redis = redis_storage sha1 (on_line x message timeout_error settings)

  -- All calls under the key are of the quota, the breaker's quotas limit, and no other instance sends
  -- its own clock.
  abbrev pub UsesQuotaAt : Text → Quota → List Event → Type 0
  UsesQuotaAt k q [] = Unit
  UsesQuotaAt k q (ours at f r ∷ es) =
      (place_of sha1 settings r.key ≡ k → r.quota ≡ q) × IsLimited r.quota × UsesQuotaAt k q es
  UsesQuotaAt k q (theirs a ∷ es) =
      (place sha1 x message timeout_error a ≡ k → a.request.quota ≡ q)
      × (a.instance_of.client_clock ≡ false)
      × UsesQuotaAt k q es

-- This instance's clock runs from one time to another, and so does the server's.
abbrev pub RunsWithin : Nanos → Nanos → ℕ → ℕ → List Event → Type 0
RunsWithin start end st send [] = (start ≤ end) × (st ≤ send)
RunsWithin start end st send (ours at f r ∷ es) =
    (start ≤ r.now) × (st ≤ at) × RunsWithin r.now end at send es
RunsWithin start end st send (theirs a ∷ es) = (st ≤ a.at) × RunsWithin start end a.at send es

module _ (sha1 : Sha1) (x : Expiry) (message : ScriptError → StorageError)
    (timeout_error : Duration → StorageError) {d : DashMap} {W : Type 0}
    (b : CircuitBreaker Line W) where
  -- The calls of the breaker, and those of the others with their answers.
  unfoldable pub run :
      Shared d Line W
      → List Event
      → Panics (List Watched × List (Arrival × Decision) × Shared d Line W)
  run s [] = some ([], [], s)
  run s (ours at f r ∷ es) = ask (breaker_storage b) (move_to at f s) r >>= λ (a, t).
      run t es >>= λ (ws, ds, u). some (watched b (move_to at f s) r a t ∷ ws, ds, u)
  run s (theirs a ∷ es) =
      arrive sha1 x message timeout_error s.primary_state.server a >>= λ (y, sv).
      run (with_server sv s) es >>= λ (ws, ds, u). some (ws, (a, y) ∷ ds, u)
