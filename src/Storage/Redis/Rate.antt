-- ===== src/Storage/Redis/Rate.antt =====
-- The rate that a user gets through src/storage/redis.rs when several instances of the program
-- share one Redis server, over any history of their calls.
use tower_rate_tier.Duration.{Duration}
use tower_rate_tier.Prelude.{
  ◌*◌, ◌+◌, ◌-◌, ◌/◌, ◌>>=◌, Bool, Bool-cases, List, Option, Panics, Result, [], ap, arith, err,
  false, if◌then◌else◌, inl, inr, none, ok, refl, some, u32_max, u64_max, ℕ, ◌∷◌, ◌≡◌, ◌≤◌,
}
use tower_rate_tier.Prelude.Int.{pos}
use tower_rate_tier.Prelude.Text.{decimal, Text, text_eq, text_eq_iff}
use tower_rate_tier.Quota.{Quota, burst_offset_nanos, emission_interval_nanos, with_window}
use tower_rate_tier.Quota.Bounds.{with_window-intervals}
use tower_rate_tier.Storage.{Decision, StorageError}
use tower_rate_tier.Storage.DashMap.{kept}
use tower_rate_tier.Storage.Memory.Rate.{admits}
use tower_rate_tier.Storage.Redis.{
  RedisStorage, check_and_update, decision_of, decode_reply, is_one, redis_storage, script_call,
}
use tower_rate_tier.Storage.Redis.Effective.{
  charged, effective, effective_mono, entry_after, entry_after-effective, to_nanos,
}
use tower_rate_tier.Storage.Redis.Key.{Sha1, redis_key}
use tower_rate_tier.Storage.Redis.Script.{ScriptError, ScriptReply, Write, gcra_script}
use tower_rate_tier.Storage.Redis.Server.{
  Expiry, IsKept, Server, answered, argv_now, live, on_server, raw,
}
use tower_rate_tier.Storage.Redis.Units.{burst, interval, interval-bounds}
use tower_rate_tier.Storage.Serve.{StorageRequest, ask}

-- A call of one instance, with its own settings, when the server's clock shows `at`.
pub record Arrival : Type 0 where
  pub instance_of : RedisStorage Server
  pub request : StorageRequest
  pub at : ℕ

module _ (sha1 : Sha1) (x : Expiry) (message : ScriptError → StorageError)
    (timeout_error : Duration → StorageError) where
  -- The key of a call in Redis.
  abbrev pub place : Arrival → Text
  place a =
      redis_key sha1 a.instance_of.hash_user_ids a.instance_of.key_secret a.instance_of.key_prefix
        a.request.key

  abbrev pub arrive : Server → Arrival → Panics (Decision × Server)
  arrive sv a =
      ask (redis_storage sha1 (on_server x message timeout_error a.instance_of))
        (record sv { clock = a.at }) a.request

  unfoldable pub runs : Server → List Arrival → Panics (List (Arrival × Decision) × Server)
  runs sv [] = some ([], sv)
  runs sv (a ∷ rest) =
      arrive sv a >>= λ (d, sv'). runs sv' rest >>= λ (ds, sv''). some ((a, d) ∷ ds, sv'')

  -- What the bucket under a key was charged: the costs of its allowed requests.
  abbrev pub charge_under : Text → Arrival × Decision → ℕ
  charge_under k (a, d) =
      if text_eq (place a) k then (if admits d then a.request.cost else 0) else 0

  abbrev pub spent_under : Text → List (Arrival × Decision) → ℕ
  spent_under k [] = 0
  spent_under k (s ∷ rs) = charge_under k s + spent_under k rs

  -- The server's clock does not go back, and is not later than `end`.
  abbrev pub Within : ℕ → ℕ → List Arrival → Type 0
  Within t end [] = t ≤ end
  Within t end (a ∷ rest) = (t ≤ a.at) × Within a.at end rest

  -- The calls under the key are of the quota.
  abbrev pub UsesQuota : Text → Quota → List Arrival → Type 0
  UsesQuota k q [] = Unit
  UsesQuota k q (a ∷ rest) = (place a ≡ k → a.request.quota ≡ q) × UsesQuota k q rest

  -- No instance sends its own clock.
  abbrev pub OnServerClock : List Arrival → Type 0
  OnServerClock [] = Unit
  OnServerClock (a ∷ rest) = (a.instance_of.client_clock ≡ false) × OnServerClock rest

  -- The script's result, with or without the instance's clock.
  abbrev pub script_run : Bool → Server → Arrival → Result (ScriptReply × Option Write) ScriptError
  script_run sent sv a =
      gcra_script (argv_now (if sent then decimal (a.request.now / 1000) else [])) a.at
        (live x a.at (sv.entries (place a))) (interval a.request.quota) (burst a.request.quota)
        a.request.cost

  abbrev pub arrived : Server → Arrival → Result (ScriptReply × Option Write) ScriptError
  arrived sv a =
      gcra_script none a.at (live x a.at (sv.entries (place a))) (interval a.request.quota)
        (burst a.request.quota) a.request.cost

  -- What a call comes to, when the script gave a result.
  abbrev pub ended :
      Server → Arrival → Result (ScriptReply × Option Write) ScriptError → Decision × Server
  ended sv a r =
      let (i, sv') = answered x message timeout_error (record sv { clock = a.at }) (place a) r in
      (
        decision_of sha1 (on_server x message timeout_error a.instance_of) a.request.quota.max_burst
            i,
        sv',
      )

  pub arrive-ended :
      (sv : Server) (a : Arrival)
      → a.instance_of.client_clock ≡ false
      → arrive sv a ≡ some (ended sv a (arrived sv a))
  unfolding ask redis_storage check_and_update script_call
  arrive-ended sv a server_clock =
      ap (λ (sent : Bool). some (ended sv a (script_run sent sv a))) server_clock

  -- The admission of a call is the script's.
  charge_under-charged :
      (sv : Server) (a : Arrival) (r : ScriptReply) (w : Option Write)
      → (if admits (ended sv a (ok (r, w))).0 then a.request.cost else 0) ≡ charged r a.request.cost
  unfolding decode_reply
  charge_under-charged sv a r w = elim (Bool-cases (is_one (pos r.allowed))) [
    | inl h ↦ rw h refl
    | inr h ↦ rw h refl
  ]

  entries-ended :
      (k : Text) (sv : Server) (a : Arrival) (r : ScriptReply) (w : Option Write)
      → (ended sv a (ok (r, w))).1.entries k
        ≡ (if text_eq (place a) k then entry_after a.at (sv.entries k) w else sv.entries k)
  unfolding entry_after
  entries-ended k sv a r none = ground arith
  entries-ended k sv a r (some w) = refl

  pub level-ended :
      (k : Text) (q : Quota) (sv : Server) (a : Arrival)
      (r : Result (ScriptReply × Option Write) ScriptError)
      → (place a ≡ k → a.request.quota ≡ q)
      → IsKept (sv.entries k)
      → arrived sv a ≡ r
      → IsKept ((ended sv a r).1.entries k)
        × (effective (raw ((ended sv a r).1.entries k)) a.at (burst q)
            ≡ effective (raw (sv.entries k)) a.at (burst q)
              + interval q * charge_under k (a, (ended sv a r).0))
  level-ended k q sv a (err e) same kept h = (kept, grind arith)
  level-ended k q sv a (ok (r, w)) same kept h = elim (Bool-cases (text_eq (place a) k)) [
    | inl hit ↦
        let p = (text_eq_iff (place a) k).0 hit in
        let g = rw (p, same p) at h in
        let (b, c, d) =
          entry_after-effective x (sv.entries k) a.at (interval q) (burst q) a.request.cost r w kept
            g in
        let l = rw hit at (entries-ended k sv a r w) in
        let m = charge_under-charged sv a r w in rw (l, hit, m) (d, b)
    | inr miss ↦ rw (entries-ended k sv a r w, miss) (kept, omega arith)
  ]

  runs-cons :
      (sv : Server) (a : Arrival) (rest : List Arrival) (out : List (Arrival × Decision))
      (sv'' : Server)
      → runs sv rest ≡ some (out, sv'')
      → (sv0 : Server) (d : Decision) → arrive sv0 a ≡ some (d, sv)
      → runs sv0 (a ∷ rest) ≡ some ((a, d) ∷ out, sv'')
  unfolding runs
  runs-cons sv a rest out sv'' e sv0 d f = rw (f, e) refl

  spent_from :
      (k : Text) (q : Quota) (t end : ℕ) (sv : Server) (arrivals : List Arrival)
      → Within t end arrivals
      → UsesQuota k q arrivals
      → OnServerClock arrivals
      → IsKept (sv.entries k)
      → (out : List (Arrival × Decision)) × (sv' : Server) × (runs sv arrivals ≡ some (out, sv'))
        × (effective (raw (sv.entries k)) t (burst q) + interval q * spent_under k out
            ≤ end + burst q)
  unfolding runs
  spent_from k q t end sv [] w u clocks kept = ([], sv, refl, omega (arith, w))
  spent_from k q t end sv (a ∷ rest) w u clocks kept =
      let r = arrived sv a in
      let (b, c) = level-ended k q sv a r u.0 kept refl in
      let (d, sv1) = ended sv a r in
      let (out, sv', e, f) = spent_from k q a.at end sv1 rest w.1 u.1 clocks.1 b in
      let m = effective_mono (raw (sv.entries k)) t a.at (burst q) w.0 in
      (
        (a, d) ∷ out,
        sv',
        runs-cons sv1 a rest out sv' e sv d (arrive-ended sv a clocks.0),
        grind arith,
      )

  Within-le : (t end : ℕ) (arrivals : List Arrival) → Within t end arrivals → t ≤ end
  Within-le t end [] w = w
  Within-le t end (a ∷ rest) w = omega (arith, w.0, Within-le a.at end rest w.1)

  -- Take any history of calls, by any instances whose scripts read the server's clock (all settings
  -- but `use_client_clock`), of one server on whose clock (in microseconds) the history runs from
  -- `start` to `end` without going back. Let the calls under one key be of one quota that
  -- `with_window` accepts, of at most u32::MAX requests in at most u64::MAX nanoseconds, and let
  -- the expiry of what the key holds at the start not be before its value. Then every call is
  -- answered, and the costs admitted under the key are worth at most one burst of the quota and the
  -- time between `start` and `end`.
  pub shared_spent_bound :
      (k : Text) (n w : ℕ) (q : Quota) (start end : ℕ) (sv : Server) (arrivals : List Arrival)
      → n ≤ u32_max
      → w ≤ u64_max
      → with_window n w ≡ some q
      → Within start end arrivals
      → UsesQuota k q arrivals
      → OnServerClock arrivals
      → IsKept (sv.entries k)
      → (out : List (Arrival × Decision)) × (sv' : Server) × (runs sv arrivals ≡ some (out, sv'))
        × (emission_interval_nanos q * spent_under k out
            ≤ burst_offset_nanos q + (end - start) * 1000)
  shared_spent_bound k n w q start end sv arrivals count window e o u clocks kept =
      let (out, sv', f, g) = spent_from k q start end sv arrivals o u clocks kept in
      let (a, b, c, d, l) = interval-bounds n w q count window e in
      let (z, y, v, t) = with_window-intervals n w q window e in
      let le = Within-le start end arrivals o in
      let h =
        to_nanos (interval q) (emission_interval_nanos q) n (spent_under k out) (end - start) b
          (omega arith) in
      (out, sv', f, omega arith)
