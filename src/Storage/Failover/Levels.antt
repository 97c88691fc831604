-- ===== src/Storage/Failover/Levels.antt =====
-- What one call of a breaker in front of a shared Redis server takes from a key on the server.
use mathlib.Core.Option.{some-injective}
use native.Mathlib.Nat.{mul-le-mul_left}
use tower_rate_tier.Duration.{Duration}
use tower_rate_tier.Prelude.{
  false, ◌*◌, ◌+◌, Bool-cases, ap, arith, inl, inr, refl, some, sym, true, ℕ, ◌∙◌, ◌≡◌, ◌≤◌,
}
use tower_rate_tier.Prelude.Text.{Text, text_eq, text_eq_iff}
use tower_rate_tier.Quota.{Quota}
use tower_rate_tier.Storage.{Decision, StorageError, StorageKey}
use tower_rate_tier.Storage.Breaker.{CircuitBreaker, Shared, breaker_storage}
use tower_rate_tier.Storage.Breaker.Failover.{passed_charge}
use tower_rate_tier.Storage.Breaker.Local.{IsTotal, has_failed, watched}
use tower_rate_tier.Storage.Breaker.Primary.{ask-Called, reached, spared}
use tower_rate_tier.Storage.DashMap.{DashMap, Key, key_eq, key_eq_iff}
use tower_rate_tier.Storage.Failover.{move_to, place_of, shared_redis}
use tower_rate_tier.Storage.Memory.Buckets.{key_of}
use tower_rate_tier.Storage.Memory.Rate.{charge}
use tower_rate_tier.Storage.Redis.{RedisStorage, check_and_update, redis_storage}
use tower_rate_tier.Storage.Redis.Effective.{effective}
use tower_rate_tier.Storage.Redis.Faults.{Fault, Line, ask-received, received, received-level}
use tower_rate_tier.Storage.Redis.Key.{Sha1}
use tower_rate_tier.Storage.Redis.Rate.{Arrival, charge_under}
use tower_rate_tier.Storage.Redis.Script.{ScriptError}
use tower_rate_tier.Storage.Redis.Server.{Expiry, IsKept, Server, raw}
use tower_rate_tier.Storage.Redis.Units.{burst, interval}
use tower_rate_tier.Storage.Serve.{StorageRequest, ask}

-- A call of this instance.
abbrev arrival_of : RedisStorage Server → ℕ → StorageRequest → Arrival
arrival_of settings at r = record { instance_of = settings; request = r; at = at }

-- The effective time of a key on the server.
abbrev pub at_server : Text → Quota → Server → ℕ → ℕ
at_server k q sv t = effective (raw (sv.entries k)) t (burst q)

pub same_place :
    (sha1 : Sha1) (settings : RedisStorage Server) (a b : StorageKey)
    → key_of a ≡ key_of b
    → place_of sha1 settings a ≡ place_of sha1 settings b
same_place sha1 settings a b p =
    ap (λ (j : Key). place_of sha1 settings (record { user_id = j.0; tier = j.1 })) p

module _ (sha1 : Sha1) (x : Expiry) (message : ScriptError → StorageError)
    (timeout_error : Duration → StorageError) (settings : RedisStorage Server) where
  pub shared_redis-IsTotal : IsTotal (shared_redis sha1 x message timeout_error settings)
  unfolding redis_storage check_and_update
  shared_redis-IsTotal key q cost now l limits = (_, refl)

  charge-le_under :
      (key : StorageKey) (r : StorageRequest) (at : ℕ) (a : Decision)
      → charge (key_of key) (record { key = r.key; cost = r.cost; answer = a })
        ≤ charge_under sha1 x message timeout_error
            (place_of sha1 settings key)
            (arrival_of settings at r, a)
  charge-le_under key r at a = elim (Bool-cases (key_eq (key_of r.key) (key_of key))) [
    | inl e ↦
        let p = (key_eq_iff (key_of r.key) (key_of key)).0 e in
        let hit : text_eq (place_of sha1 settings r.key) (place_of sha1 settings key) ≡ true =
          (text_eq_iff (place_of sha1 settings r.key) (place_of sha1 settings key)).1
            (same_place sha1 settings r.key key p) in
        rw (e, hit) (omega arith)
    | inr e ↦ rw e (omega arith)
  ]

module _ (sha1 : Sha1) (x : Expiry) (message : ScriptError → StorageError)
    (timeout_error : Duration → StorageError) (settings : RedisStorage Server) {d : DashMap}
    {W : Type 0} (b : CircuitBreaker Line W)
    (over_redis : b.primary ≡ shared_redis sha1 x message timeout_error settings)
    (server_clock : settings.client_clock ≡ false) where
  -- What a call of the breaker takes from the key on the server.
  pub ours-level :
      (key : StorageKey) (q : Quota) (at : ℕ) (f : Fault) (r : StorageRequest)
      (s t : Shared d Line W) (a : Decision)
      → (place_of sha1 settings r.key ≡ place_of sha1 settings key → r.quota ≡ q)
      → IsKept (s.primary_state.server.entries (place_of sha1 settings key))
      → ask (breaker_storage b) (move_to at f s) r ≡ some (a, t)
      → IsKept (t.primary_state.server.entries (place_of sha1 settings key))
        × (at_server (place_of sha1 settings key) q s.primary_state.server at
              + interval q * passed_charge (key_of key) (watched b (move_to at f s) r a t)
            ≤ at_server (place_of sha1 settings key) q t.primary_state.server at)
  ours-level key q at f r s t a same safe out = elim (ask-Called b r (move_to at f s) t a out) [
    | spared e l ↦ rw (e, l) (safe, omega arith)
    | reached y p e g l h ↦
        let sv = s.primary_state.server in
        let got : received sha1 x message timeout_error f sv (arrival_of settings at r) ≡ (y, p) =
          some-injective _ _ (
            sym (
              ask-received sha1 x message timeout_error sv (arrival_of settings at r) f
                server_clock)
            ∙ (rw over_redis at e)) in
        let (m, n) = rw got at (
          received-level sha1 x message timeout_error (place_of sha1 settings key) q sv
            (arrival_of settings at r) f same safe) in
        let c =
          mul-le-mul_left (interval q)
            (charge-le_under sha1 x message timeout_error settings key r at y) in
        rw g (
          m,
          elim (Bool-cases (has_failed (some (y, p)))) [
            | inl z ↦ let w = l ∙ z in let o = rw z at n in rw w (omega (arith, o))
            | inr z ↦ let w = l ∙ z in let o = rw z at n in rw (w, h z) (omega (arith, o, c))
          ],
        )
  ]
