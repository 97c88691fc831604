-- ===== src/Service/Rate.antt =====
-- The rate at which a user's requests get through src/service.rs to the wrapped service, over any
-- history of requests.
use tower_rate_tier.Storage.Memory.Rate.{charge as charge_bucket}
use Prim.Native.Nat.{zero-le}
use mathlib.Core.Option.{some-injective}
use native.Mathlib.Nat.{mul-le-mul_left}
use tower_rate_tier.Apps.Jwt.{split}
use tower_rate_tier.Check.{request_cost}
use tower_rate_tier.Gcra.Decision.{current}
use tower_rate_tier.Http.{Http, Response}
use tower_rate_tier.Layer.{Settings}
use tower_rate_tier.Prelude.{
  ◌*◌, ◌+◌, ◌++◌, ◌-◌, ◌<◌, Bool, Bool-cases, List, Panics, Result, [], ap, arith, false, inl, inr,
  refl, some, sym, true, u64_max, ◌∙◌, ◌∷◌, ◌≡◌, ◌≤◌, ◌≡◌,
}
use tower_rate_tier.Prelude.Text.{Text}
use tower_rate_tier.Quota.{Nanos, Quota, burst_offset_nanos, emission_interval_nanos, is_unlimited}
use tower_rate_tier.Service.{Env, Inner, Reply, call}
use tower_rate_tier.Service.Answers.{Handled, answered_by, counted, quiet}
use tower_rate_tier.Service.Handled.{call-IsHandled}
use tower_rate_tier.Service.Passed.{is_of, is_of-IsOf, passed, passed_in}
use tower_rate_tier.Service.Requests.{
  Arrival, Event, arrived, asks, asks_of, identified_as, serve_requests, ticked,
}
use tower_rate_tier.Storage.{Decision, StorageKey}
use tower_rate_tier.Storage.DashMap.{DashMap, Key, key_eq, key_eq_iff}
use tower_rate_tier.Storage.Memory.{MemoryStorage, memory_storage, retain_active}
use tower_rate_tier.Storage.Memory.Buckets.{bucket, decided, key_of}
use tower_rate_tier.Storage.Memory.Rate.{UsesQuota, admits, spent, spent_bound}
use tower_rate_tier.Storage.Memory.Runs.{Op, Ordered, Served, answers, run, run-check-some, time}
use tower_rate_tier.Tier.{RateTier, World, get_quota}
use tower_rate_tier.Tier.Calls.{HasInterval}
use tower_rate_tier.Tier.Rate.{HasLimits}

-- No operation is later than a time.
abbrev pub EndsBy : Nanos → List Op → Type 0
EndsBy end [] = Unit
EndsBy end (op ∷ ops) = (time op ≤ end) × EndsBy end ops

module _ (d : DashMap) {h : Http} {B R E W : Type 0} (env : Env h R W)
    (t : RateTier (MemoryStorage d) W) (s : Settings h W) (inner : Inner h B R E W)
    (own : R → Bool) where
  serve-arrived :
      (a : Arrival h B W) (rest : List (Event h B W)) (w w1 w2 : World (MemoryStorage d) W)
      (reply : Result (Response h R) E) (out : List (Arrival h B W × Result (Response h R) E))
      → call env t s inner a.request (record w { rest = a.at }) ≡ some (reply, w1)
      → serve_requests d env t s inner w1 rest ≡ some (out, w2)
      → serve_requests d env t s inner w (arrived a ∷ rest) ≡ some ((a, reply) ∷ out, w2)
  unfolding serve_requests
  serve-arrived a rest w w1 w2 reply out e f = rw (e, f) refl

  -- What a history comes to, against the storage's operations.
  abbrev ComesTo : Key → World (MemoryStorage d) W → List (Event h B W) → List Served → Type 0
  ComesTo k w events rs =
      (out : List (Arrival h B W × Result (Response h R) E)) × (w' : World (MemoryStorage d) W)
      × (serve_requests d env t s inner w events ≡ some (out, w'))
      × (passed_in s own k.0 k.1 out ≤ spent k rs)

  module _ (user tier : Text) where
    quiet-passed :
        (a : Arrival h B W) (reply : Result (Response h R) E)
        → ((identified_as s a).0 ≡ some (record { user_id = user; tier = tier })
            → answered_by own reply ≡ false)
        → passed s own user tier (a, reply) ≡ 0
    quiet-passed a reply z = elim (Bool-cases (is_of user tier (identified_as s a).0)) [
      | inl e ↦ rw (e, z (is_of-IsOf user tier (identified_as s a).0 e)) refl
      | inr e ↦ rw e refl
    ]

    counted-passed :
        (a : Arrival h B W) (reply : Result (Response h R) E) (key : StorageKey) (answer : Decision)
        → ((identified_as s a).0 ≡ some (record { user_id = user; tier = tier })
            → ◌≡◌ {A = Key} (key_of key) (user, tier))
        → (answered_by own reply ≡ true → admits answer ≡ true)
        → passed s own user tier (a, reply)
          ≤ charge_bucket
              (user, tier)
              (record { key = key; cost = request_cost a.request.parts s; answer = answer })
    counted-passed a reply key answer of_k means =
        elim (Bool-cases (is_of user tier (identified_as s a).0)) [
          | inr e ↦ rw e (zero-le)
          | inl e ↦ elim (Bool-cases (answered_by own reply)) [
            | inr f ↦ rw (e, f) (zero-le)
            | inl f ↦
                let g = of_k (is_of-IsOf user tier (identified_as s a).0 e) in
                let k : key_eq (key_of key) (user, tier) ≡ true =
                  (key_eq_iff (key_of key) (user, tier)).1 g in
                rw (e, f, k, means f) (omega arith)
          ]
        ]

    module _ (foreign : (text : Text) → own (env.from_string text) ≡ false)
        (has_interval : HasInterval t) (over_memory : t.storage ≡ memory_storage d)
        (limits : HasLimits t) (q : Quota) (known : get_quota t tier ≡ some q)
        (limited : is_unlimited q ≡ false) where
      handled :
          (a : Arrival h B W) (w : World (MemoryStorage d) W)
          → Handled d t own
              (user, tier)
              ((identified_as s a).0 ≡ some (record { user_id = user; tier = tier }))
              (request_cost a.request.parts s)
              w.stored
              (asks t s a.request.parts (identified_as s a).0 (identified_as s a).1)
              (call env t s inner a.request (record w { rest = a.at }))
      handled a w =
          call-IsHandled d env t s inner own foreign has_interval over_memory limits user tier q
            known limited a w

      arrived-run :
          (a : Arrival h B W) (w : World (MemoryStorage d) W) (rest : List (Event h B W))
          (rs : List Served) (ops : List Op) (out : Panics (Reply h R E (MemoryStorage d) W))
          → call env t s inner a.request (record w { rest = a.at }) ≡ out
          → Handled d t own
              (user, tier)
              ((identified_as s a).0 ≡ some (record { user_id = user; tier = tier }))
              (request_cost a.request.parts s)
              w.stored
              ops
              out
          → answers d (run d w.stored (ops ++ asks_of t s rest)) ≡ some rs
          → ((w1 : World (MemoryStorage d) W) (ss : List Served)
              → answers d (run d w1.stored (asks_of t s rest)) ≡ some ss
              → ComesTo (user, tier) w1 rest ss)
          → ComesTo (user, tier) w (arrived a ∷ rest) rs
      arrived-run a w rest rs ops out c (quiet reply w1 o f same z) e ih =
          let (replies, w2, g, b) = ih w1 rs (rw same (rw o at e)) in
          let p = quiet-passed a reply z in
          (
            (a, reply) ∷ replies,
            w2,
            serve-arrived a rest w w1 w2 reply replies (c ∙ f) g,
            omega (arith, p),
          )
      arrived-run a w rest rs ops out c
            (counted key p now r reply w1 o found bounded taken f stored of_k means) e ih =
          let (ss_r, g, ss, l, split) =
            run-check-some d w.stored key p (request_cost a.request.parts s) now (asks_of t s rest)
              rs (rw o at e) in
          let same : ss_r ≡ r = some-injective _ _ (sym g ∙ taken) in
          let (replies, w2, served, b) = ih w1 ss (rw stored (rw same at l)) in
          let v = counted-passed a reply key (decided r) of_k means in
          (
            (a, reply) ∷ replies,
            w2,
            serve-arrived a rest w w1 w2 reply replies (c ∙ f) served,
            rw (split, same) (omega (arith, v, b)),
          )

      serve_requests-run :
          (w : World (MemoryStorage d) W) (events : List (Event h B W)) (rs : List Served)
          → answers d (run d w.stored (asks_of t s events)) ≡ some rs
          → ComesTo (user, tier) w events rs
      unfolding serve_requests run
      serve_requests-run w [] rs e = ([], w, refl, zero-le)
      serve_requests-run w (ticked now ∷ rest) rs e =
          serve_requests-run (record w { stored = retain_active d w.stored now }) rest rs e
      serve_requests-run w (arrived a ∷ rest) rs e =
          arrived-run a w rest rs _ _ refl (handled a w) e
            (λ w1 ss f. serve_requests-run w1 rest ss f)

      added-UsesQuota :
          (a : Arrival h B W) (w : World (MemoryStorage d) W) (end : Nanos) (rest ops : List Op)
          (out : Panics (Reply h R E (MemoryStorage d) W))
          → Handled d t own
              (user, tier)
              ((identified_as s a).0 ≡ some (record { user_id = user; tier = tier }))
              (request_cost a.request.parts s)
              w.stored
              ops
              out
          → EndsBy end (ops ++ rest)
          → (EndsBy end rest → UsesQuota (user, tier) q end rest)
          → UsesQuota (user, tier) q end (ops ++ rest)
      added-UsesQuota a w end rest ops out (quiet reply w1 o f same z) e ih = rw o (ih (rw o at e))
      added-UsesQuota a w end rest ops out
            (counted key p now r reply w1 o found bounded taken f stored of_k means) e ih =
          let (late, later) = rw o at e in
          rw o (
            late,
            (λ g.
                let l : get_quota t key.tier ≡ some q = rw (ap (λ (k : Key). k.1) g) known in
                some-injective _ _ (sym found ∙ l)),
            limits key.tier p found bounded,
            ih later,
          )

      asks_of-UsesQuota :
          (w : World (MemoryStorage d) W) (end : Nanos) (events : List (Event h B W))
          → EndsBy end (asks_of t s events)
          → UsesQuota (user, tier) q end (asks_of t s events)
      asks_of-UsesQuota w end [] e = tt
      asks_of-UsesQuota w end (ticked now ∷ rest) e = (e.0, asks_of-UsesQuota w end rest e.1)
      asks_of-UsesQuota w end (arrived a ∷ rest) e =
          added-UsesQuota a w end (asks_of t s rest) _ _ (handled a w) e
            (λ f. asks_of-UsesQuota w end rest f)

      -- A limiter over the built-in storage, with a collector whose interval is not 0 and quotas
      -- that limit unless they are unlimited. Take any history of HTTP requests, by any users under
      -- any tiers, with any settings of the middleware, and with rounds of the collector in
      -- between. Let the clock, each time that the storage is asked or collected, run from `start`
      -- to `end` without going back, let one burst after `end` still fit it, let the user's bucket
      -- under a limited tier start at most one burst ahead, and let a test `own` tell the bodies of
      -- the middleware's own replies from others. Then every request gets a reply, and the requests
      -- of the user under the tier that the wrapped service answers, with bodies that pass the
      -- test, cost no more than what is worth one burst and the time between `start` and `end`.
      pub requests_spent_bound :
          (start end : Nanos) (w : World (MemoryStorage d) W) (events : List (Event h B W))
          → start ≤ end
          → Ordered start (asks_of t s events)
          → EndsBy end (asks_of t s events)
          → end + burst_offset_nanos q < u64_max
          → current (bucket d w.stored (user, tier)) start ≤ start + burst_offset_nanos q
          → (out : List (Arrival h B W × Result (Response h R) E)) × (w' : World
              (MemoryStorage d)
              W)
            × (serve_requests d env t s inner w events ≡ some (out, w'))
            × (emission_interval_nanos q * passed_in s own user tier out
                ≤ burst_offset_nanos q + (end - start))
      requests_spent_bound start end w events past ordered ended room low =
          let (rs, e, b) =
            spent_bound d (user, tier) q (limits tier q known limited) start end w.stored
              (asks_of t s events) past room ordered (asks_of-UsesQuota w end events ended) low in
          let (out, w', f, g) = serve_requests-run w events rs e in
          let m : emission_interval_nanos q * passed_in s own user tier out
              ≤ emission_interval_nanos q * spent (user, tier) rs =
            mul-le-mul_left (emission_interval_nanos q) g in
          (out, w', f, omega (arith, m, b))
