-- ===== src/Storage/Failover/Rate.antt =====
-- The rate that a user gets when a breaker in front of a shared Redis server fails over.
use tower_rate_tier.Duration.{Duration}
use tower_rate_tier.Gc.{step}
use tower_rate_tier.Gcra.Decision.{current, current_later}
use tower_rate_tier.Prelude.{
  false, ◌*◌, ◌+◌, ◌-◌, ◌<◌, List, [], arith, refl, some, suc, u32_max, u64_max, ℕ, ◌∷◌, ◌≡◌, ◌≤◌,
}
use tower_rate_tier.Quota.{Quota, burst_offset_nanos, emission_interval_nanos, with_window}
use tower_rate_tier.Quota.Bounds.{IsLimited, with_window-intervals, with_window_lem}
use tower_rate_tier.Service.Passed.{passed}
use tower_rate_tier.Storage.{Decision, StorageError, StorageKey}
use tower_rate_tier.Storage.Breaker.{CircuitBreaker, Shared}
use tower_rate_tier.Storage.Breaker.Failover.{passed_on}
use tower_rate_tier.Storage.Breaker.Levels.{level}
use tower_rate_tier.Storage.Breaker.Local.{IsTotal, Watched, recoveries, spent_locally, watched}
use tower_rate_tier.Storage.Breaker.Rate.{Stepped-ask, add_up}
use tower_rate_tier.Storage.DashMap.{DashMap}
use tower_rate_tier.Storage.Failover.{
  Event, RunsWithin, UsesQuotaAt, move_to, ours, place_of, run, shared_redis, theirs, with_server,
}
use tower_rate_tier.Storage.Failover.Levels.{
  at_server, ours-level, same_place, shared_redis-IsTotal,
}
use tower_rate_tier.Storage.Memory.Buckets.{bucket, key_of}
use tower_rate_tier.Storage.Redis.{RedisStorage}
use tower_rate_tier.Storage.Redis.Effective.{charged, effective_mono, to_nanos}
use tower_rate_tier.Storage.Redis.Faults.{Line}
use tower_rate_tier.Storage.Redis.Key.{Sha1}
use tower_rate_tier.Storage.Redis.Rate.{
  Arrival, arrive-ended, arrived, ended, level-ended, runs, spent_under,
}
use tower_rate_tier.Storage.Redis.Script.{ScriptError}
use tower_rate_tier.Storage.Redis.Server.{Expiry, IsKept, Server, raw}
use tower_rate_tier.Storage.Redis.Units.{burst, interval, interval-bounds}

add_passed :
    (l0 l1 l2 i passed more theirs_spent end : ℕ)
    → l0 ≤ l1
    → l1 + i * passed ≤ l2
    → l2 + i * (more + theirs_spent) ≤ end
    → l0 + i * (passed + more + theirs_spent) ≤ end
add_passed l0 l1 l2 i passed more theirs_spent end a b c = grind arith

add_theirs :
    (l0 l1 l2 i charged passed theirs_spent end : ℕ)
    → l0 ≤ l1
    → l2 ≡ l1 + i * charged
    → l2 + i * (passed + theirs_spent) ≤ end
    → l0 + i * (passed + (charged + theirs_spent)) ≤ end
add_theirs l0 l1 l2 i charged passed theirs_spent end a b c = grind arith

RunsWithin-ordered :
    (t end st send : ℕ) (es : List Event) → RunsWithin t end st send es → (t ≤ end) × (st ≤ send)
RunsWithin-ordered t end st send [] h = h
RunsWithin-ordered t end st send (ours at f r ∷ es) h =
    let (a, c) = RunsWithin-ordered r.now end at send es h.2 in
    (omega (arith, h.0), omega (arith, h.1))
RunsWithin-ordered t end st send (theirs a ∷ es) h =
    let (b, c) = RunsWithin-ordered t end a.at send es h.1 in (b, omega (arith, h.0))

module _ (sha1 : Sha1) (x : Expiry) (message : ScriptError → StorageError)
    (timeout_error : Duration → StorageError) (settings : RedisStorage Server) {d : DashMap}
    {W : Type 0} (b : CircuitBreaker Line W)
    (over_redis : b.primary ≡ shared_redis sha1 x message timeout_error settings)
    (server_clock : settings.client_clock ≡ false) where
  spent_from :
      (key : StorageKey) (q : Quota) (v : IsLimited q) (t end st send : ℕ) (s : Shared d Line W)
      (es : List Event)
      → IsTotal b.primary
      → end + burst_offset_nanos q < u64_max
      → RunsWithin t end st send es
      → UsesQuotaAt sha1 x message timeout_error settings (place_of sha1 settings key) q es
      → level b (key_of key) q v s t ≤ t + burst_offset_nanos q
      → IsKept (s.primary_state.server.entries (place_of sha1 settings key))
      → (ws : List Watched) × (ds : List (Arrival × Decision)) × (u : Shared d Line W) × (run sha1 x
            message timeout_error b s es
          ≡ some (ws, ds, u))
        × (level b (key_of key) q v s t + emission_interval_nanos q * spent_locally (key_of key) ws
            ≤ end + burst_offset_nanos q * suc (recoveries ws))
        × (at_server (place_of sha1 settings key) q s.primary_state.server st
              + interval q
                * (passed_on (key_of key) ws
                    + spent_under sha1 x message timeout_error (place_of sha1 settings key) ds)
            ≤ send + burst q)
  unfolding run
  spent_from key q v t end st send s [] total room runs uses low safe =
      ([], [], s, refl, omega (arith, runs, low), omega (arith, runs))
  spent_from key q v t end st send s (ours at f r ∷ es) total room runs uses low safe =
      let k = place_of sha1 settings key in
      let late = RunsWithin-ordered r.now end at send es runs.2 in
      let later = current_later (bucket d s.fallback (key_of key)) t r.now runs.0 in
      let (a, s1, e, step, low1) =
        Stepped-ask b (key_of key) q v r (move_to at f s) total uses.1 (omega arith)
          (λ p. uses.0 (same_place sha1 settings r.key key p)) (omega (arith, runs.0)) in
      let (safe1, took) =
        ours-level sha1 x message timeout_error settings b over_redis server_clock key q at f r s s1
          a uses.0 safe e in
      let (ws, ds, u, g, local_ih, passed_ih) =
        spent_from key q v r.now end at send s1 es total room runs.2 uses.2 low1 safe1 in
      let mono = effective_mono (raw (s.primary_state.server.entries k)) st at (burst q) runs.1 in
      (
        watched b (move_to at f s) r a s1 ∷ ws,
        ds,
        u,
        rw (e, g) refl,
        add_up (level b (key_of key) q v s t) (level b (key_of key) q v s r.now)
            (level b (key_of key) q v s1 r.now) (emission_interval_nanos q) (burst_offset_nanos q) _
            (spent_locally (key_of key) ws) _ (recoveries ws) end (omega arith) step local_ih,
        add_passed _ _ _ (interval q) _ (passed_on (key_of key) ws) _ _ mono took passed_ih,
      )
  spent_from key q v t end st send s (theirs a ∷ es) total room runs uses low safe =
      let k = place_of sha1 settings key in
      let sv = s.primary_state.server in
      let r = arrived sha1 x message timeout_error sv a in
      let (safe1, took) = level-ended sha1 x message timeout_error k q sv a r uses.0 safe refl in
      let (y, sv1) = ended sha1 x message timeout_error sv a r in
      let (ws, ds, u, g, local_ih, passed_ih) =
        spent_from key q v t end a.at send (with_server sv1 s) es total room runs.1 uses.2 low
          safe1 in
      let mono = effective_mono (raw (sv.entries k)) st a.at (burst q) runs.0 in
      (
        ws,
        (a, y) ∷ ds,
        u,
        rw (arrive-ended sha1 x message timeout_error sv a uses.1, g) refl,
        local_ih,
        add_theirs _ _ _ (interval q) _ (passed_on (key_of key) ws) _ _ mono took passed_ih,
      )

  -- Take a breaker in any state over a Redis storage whose scripts read the server's clock (any
  -- settings but `use_client_clock`), any history of its calls, one after the other, of any buckets
  -- with quotas that limit, each with a call of the server that ends in time, never reaches it, or
  -- is answered after the timeout; and any calls by other instances whose scripts read the server's
  -- clock too in between. Let the breaker's clock and the server's (in microseconds) each run from
  -- a start to an end without going back, and let one burst after the end of the breaker's clock
  -- still fit it. Let the calls under one bucket's key be of one quota that `with_window` accepts,
  -- of at most u32::MAX requests in at most u64::MAX nanoseconds, let the fallback hold the bucket
  -- at most one burst ahead at the start, and let the expiry of what the key holds at the start not
  -- be before its value. Then every call is answered; the costs that the fallback admitted from the
  -- bucket are worth at most the time between start and end, one burst, and one more for each time
  -- that the breaker closed again; and those that the breaker passed on from Redis, with those that
  -- the other instances were admitted under the key, are worth at most one burst and the time on
  -- the server.
  pub run_spent_bound :
      (key : StorageKey) (n w : ℕ) (q : Quota) (start end st send : ℕ) (s : Shared d Line W)
      (es : List Event)
      → n ≤ u32_max
      → w ≤ u64_max
      → with_window n w ≡ some q
      → end + burst_offset_nanos q < u64_max
      → RunsWithin start end st send es
      → UsesQuotaAt sha1 x message timeout_error settings (place_of sha1 settings key) q es
      → current (bucket d s.fallback (key_of key)) start ≤ start + burst_offset_nanos q
      → IsKept (s.primary_state.server.entries (place_of sha1 settings key))
      → (ws : List Watched) × (ds : List (Arrival × Decision)) × (u : Shared d Line W) × (run sha1 x
            message timeout_error b s es
          ≡ some (ws, ds, u))
        × (emission_interval_nanos q * spent_locally (key_of key) ws
            ≤ burst_offset_nanos q * suc (recoveries ws) + (end - start))
        × (emission_interval_nanos q
              * (passed_on (key_of key) ws
                  + spent_under sha1 x message timeout_error (place_of sha1 settings key) ds)
            ≤ burst_offset_nanos q + (send - st) * 1000)
  run_spent_bound key n w q start end st send s es count window accepted room runs_within uses low
        safe =
      let v = with_window_lem n w q accepted in
      let total =
        rw (← over_redis) at (shared_redis-IsTotal sha1 x message timeout_error settings) in
      let (ws, ds, u, e, local_sum, passed_sum) =
        spent_from key q v start end st send s es total room runs_within uses low safe in
      let (past, server_past) = RunsWithin-ordered start end st send es runs_within in
      let (i0, i1, i2, i3, i4) = interval-bounds n w q count window accepted in
      let (w0, w1, w2, w3) = with_window-intervals n w q window accepted in
      let h =
        to_nanos (interval q) (emission_interval_nanos q) n
          (passed_on (key_of key) ws
            + spent_under sha1 x message timeout_error (place_of sha1 settings key) ds)
          (send - st) i1 (omega arith) in
      (ws, ds, u, e, omega arith, omega arith)
