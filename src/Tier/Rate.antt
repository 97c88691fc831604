-- ===== src/Tier/Rate.antt =====
-- The rate that a user gets through RateTier::check of src/tier.rs, over any history.
use tower_rate_tier.Tier.{check as check_directly}
use tower_rate_tier.Tier.{check as check_directly}
use mathlib.Core.Option.{some-injective}
use tower_rate_tier.Apps.Jwt.{split}
use tower_rate_tier.Gcra.{RateLimitInfo, RateLimited}
use tower_rate_tier.Gcra.Decision.{current}
use tower_rate_tier.Prelude.{
  ◌*◌, ◌+◌, ◌++◌, ◌-◌, ◌<◌, Bool-cases, List, Option-cases, Result, [], ap, arith, err, false, inl,
  inr, ltb, ok, refl, some, sym, u64_max, ℕ, ◌∙◌, ◌∷◌, ◌≡◌, ◌≤◌, ◌⊎◌,
}
use tower_rate_tier.Prelude.Text.{Text}
use tower_rate_tier.Quota.{Nanos, Quota, burst_offset_nanos, emission_interval_nanos, is_unlimited}
use tower_rate_tier.Quota.Bounds.{IsLimited}
use tower_rate_tier.Storage.{StorageKey}
use tower_rate_tier.Storage.DashMap.{DashMap, Key, key_eq, key_eq_iff}
use tower_rate_tier.Storage.Memory.{MemoryStorage, memory_storage, retain_active, store}
use tower_rate_tier.Storage.Memory.Buckets.{bucket, decided, key_of}
use tower_rate_tier.Storage.Memory.Rate.{UsesQuota, admits, spent, spent_bound}
use tower_rate_tier.Storage.Memory.Runs.{
  Op, Ordered, Served, answers, check-decided, run, run-check-some,
}
use tower_rate_tier.Tier.{CheckError, RateTier, World, checked, get_quota}
use tower_rate_tier.Tier.Calls.{
  Answered, Comes, Event, HasInterval, asked, called, comes, ops_of, ops_of_call, paid, paid_in,
  passes, serve_checks, ticked, unasked,
}

paid-unasked :
    {W : Type 0} (d : DashMap) (t : RateTier (MemoryStorage d) W) (k : Key) (q : Quota)
    (user tier : Text) (cost : ℕ) (r : Result (Result RateLimitInfo RateLimited) CheckError)
    → get_quota t k.1 ≡ some q
    → is_unlimited q ≡ false
    → ((p : Quota) → get_quota t tier ≡ some p → is_unlimited p ≡ false → passes r ≡ false)
    → paid k (record { user_id = user; tier = tier; cost = cost; answer = r }) ≡ 0
paid-unasked d t k q user tier cost r known limited z = elim (Bool-cases (key_eq (user, tier) k)) [
  | inl hit ↦
      let e = (key_eq_iff (user, tier) k).0 hit in rw (hit, z q (rw (← e) at known) limited) refl
  | inr miss ↦ rw miss refl
]

passes-checked :
    {S W : Type 0} (r : Result (Nanos × RateLimitInfo) RateLimited) (w : World S W)
    → passes (checked (decided r, w)).0 ≡ admits (decided r)
passes-checked (ok (t, i)) w = refl
passes-checked (err l) w = refl

checked-parts :
    {S W : Type 0} (r : Result (Nanos × RateLimitInfo) RateLimited) (w : World S W)
    → checked (decided r, w) ≡ ((checked (decided r, w)).0, w)
checked-parts (ok (t, i)) w = refl
checked-parts (err l) w = refl

module _ (d : DashMap) {W : Type 0} (t : RateTier (MemoryStorage d) W) where
  -- The times of the history do not go back, and are not later than `end`.
  abbrev pub Within : Nanos → Nanos → List (Event W) → Type 0
  Within from end [] = from ≤ end
  Within from end (ticked now ∷ rest) = (from ≤ now) × Within now end rest
  Within from end (called user tier cost at ∷ rest) =
      (from ≤ t.clock at) × Within (t.clock at) end rest

  serve-called :
      (user tier : Text) (cost : ℕ) (at : W) (w w1 w2 : World (MemoryStorage d) W)
      (rest : List (Event W)) (r : Result (Result RateLimitInfo RateLimited) CheckError)
      (out : List Answered)
      → check_directly t user tier cost (record w { rest = at }) ≡ some (r, w1)
      → serve_checks d t w1 rest ≡ some (out, w2)
      → serve_checks d t w (called user tier cost at ∷ rest)
        ≡ some (record { user_id = user; tier = tier; cost = cost; answer = r } ∷ out, w2)
  unfolding serve_checks
  serve-called user tier cost at w w1 w2 rest r out e f = rw (e, f) refl

  module _ (has_interval : HasInterval t) (over_memory : t.storage ≡ memory_storage d) (k : Key)
      (q : Quota) (known : get_quota t k.1 ≡ some q) (limited : is_unlimited q ≡ false) where
    called-run :
        (user tier : Text) (cost : ℕ) (at : W) (w : World (MemoryStorage d) W)
        (rest : List (Event W)) (rs : List Served)
        → answers d (run d w.stored (ops_of_call d t user tier cost at ++ ops_of d t rest))
          ≡ some rs
        → Comes d t user tier cost at w
        → ((w1 : World (MemoryStorage d) W) (ss : List Served)
            → answers d (run d w1.stored (ops_of d t rest)) ≡ some ss
            → (out : List Answered) × (w' : World (MemoryStorage d) W) × (serve_checks d t w1 rest
                ≡ some (out, w'))
              × (paid_in k out ≡ spent k ss))
        → (out : List Answered) × (w' : World (MemoryStorage d) W) × (serve_checks d t w
              (called user tier cost at ∷ rest)
            ≡ some (out, w'))
          × (paid_in k out ≡ spent k rs)
    called-run user tier cost at w rest rs e (unasked r o c z) ih =
        let (out, w', f, g) = ih (record w { rest = at }) rs (rw o at e) in
        let p = paid-unasked d t k q user tier cost r known limited z in
        (_, w', serve-called user tier cost at w _ w' rest r out c f, omega (arith, p))
    called-run user tier cost at w rest rs e (asked p w1 o c) ih =
        let key : StorageKey = record { user_id = user; tier = tier } in
        let (r, a, ss, b, split) =
          run-check-some d w.stored key p cost (t.clock at) (ops_of d t rest) rs (rw o at e) in
        let m = (store d w.stored (key_of key) r).1 in
        let c1 = rw (check-decided d w.stored key p cost (t.clock at) r a) at c in
        let v = record w1 { stored = m } in
        let (out, w', f, g) = ih v ss b in
        let n = (passes-checked r v) in
        (
          record { user_id = user; tier = tier; cost = cost; answer = (checked (decided r, v)).0 }
              ∷ out,
          w',
          serve-called user tier cost at w v w' rest (checked (decided r, v)).0 out
              (c1 ∙ ap some (checked-parts r v)) f,
          rw (split, n) (omega (arith, g)),
        )

    serve_checks-run :
        (w : World (MemoryStorage d) W) (events : List (Event W)) (rs : List Served)
        → answers d (run d w.stored (ops_of d t events)) ≡ some rs
        → (out : List Answered) × (w' : World (MemoryStorage d) W) × (serve_checks d t w events
            ≡ some (out, w'))
          × (paid_in k out ≡ spent k rs)
    unfolding serve_checks run
    serve_checks-run w [] rs e = ([], w, refl, ground arith)
    serve_checks-run w (ticked now ∷ rest) rs e =
        serve_checks-run (record w { stored = retain_active d w.stored now }) rest rs e
    serve_checks-run w (called user tier cost at ∷ rest) rs e =
        called-run user tier cost at w rest rs e
          (comes d t has_interval over_memory user tier cost at w)
          (λ w1 ss f. serve_checks-run w1 rest ss f)

-- The quotas of a limiter come from the constructors: those that are not unlimited limit.
abbrev pub HasLimits : {S W : Type 0} → RateTier S W → Type 0
HasLimits t =
    (name : Text) (q : Quota) → get_quota t name ≡ some q → is_unlimited q ≡ false → IsLimited q

Ordered-earlier : (s u : Nanos) (ops : List Op) → s ≤ u → Ordered u ops → Ordered s ops
Ordered-earlier s u [] h o = tt
Ordered-earlier s u (op ∷ ops) h o = (omega (arith, o.0), o.1)

module _ (d : DashMap) {W : Type 0} (t : RateTier (MemoryStorage d) W) where
  ops_of_call-shape :
      (user tier : Text) (cost : ℕ) (at : W)
      → (ops_of_call d t user tier cost at ≡ [])
        ⊎ ((q : Quota) × (get_quota t tier ≡ some q)
            × (is_unlimited q ≡ false)
            × (ops_of_call d t user tier cost at
                ≡ Op.check (record { user_id = user; tier = tier }) q cost (t.clock at) ∷ []))
  unfolding ops_of_call
  ops_of_call-shape user tier cost at = elim (Option-cases (get_quota t tier)) [
    | inl e ↦ inl (rw (ops_of_call, e) refl)
    | inr (q, e) ↦ elim (Bool-cases (is_unlimited q)) [
      | inl u ↦ inl (rw (ops_of_call, e, u) refl)
      | inr u ↦ elim (Bool-cases (ltb q.max_burst cost)) [
        | inl c ↦ inl (rw (ops_of_call, e, u, c) refl)
        | inr c ↦ inr (q, e, u, rw (ops_of_call, e, u, c) refl)
      ]
    ]
  ]

  Within-le : (from end : Nanos) (events : List (Event W)) → Within d t from end events → from ≤ end
  Within-le from end [] w = w
  Within-le from end (ticked now ∷ rest) w = omega (arith, w.0, Within-le now end rest w.1)
  Within-le from end (called user tier cost at ∷ rest) w =
      omega (arith, w.0, Within-le (t.clock at) end rest w.1)

  ops_of-Ordered :
      (from end : Nanos) (events : List (Event W))
      → Within d t from end events
      → Ordered from (ops_of d t events)
  ops_of-Ordered from end [] w = tt
  ops_of-Ordered from end (ticked now ∷ rest) w = (w.0, ops_of-Ordered now end rest w.1)
  ops_of-Ordered from end (called user tier cost at ∷ rest) w =
      let o = ops_of-Ordered (t.clock at) end rest w.1 in
      elim (ops_of_call-shape user tier cost at) [
        | inl e ↦ rw e (Ordered-earlier from (t.clock at) (ops_of d t rest) w.0 o)
        | inr (q, e, u, f) ↦ rw f (w.0, o)
      ]

  module _ (k : Key) (q : Quota) (known : get_quota t k.1 ≡ some q) (limits : HasLimits t) where
    ops_of-UsesQuota :
        (from end : Nanos) (events : List (Event W))
        → Within d t from end events
        → UsesQuota k q end (ops_of d t events)
    ops_of-UsesQuota from end [] w = tt
    ops_of-UsesQuota from end (ticked now ∷ rest) w =
        (Within-le now end rest w.1, ops_of-UsesQuota now end rest w.1)
    ops_of-UsesQuota from end (called user tier cost at ∷ rest) w =
        let o = ops_of-UsesQuota (t.clock at) end rest w.1 in
        elim (ops_of_call-shape user tier cost at) [
          | inl e ↦ rw e o
          | inr (p, e, u, f) ↦ rw f (
            Within-le (t.clock at) end rest w.1,
            (λ h.
                let g : get_quota t tier ≡ some q = rw (ap (λ k. k.1) h) known in
                some-injective _ _ (sym e ∙ g)),
            limits tier p e u,
            o,
          )
        ]

  -- A limiter over the built-in storage, with a collector whose interval is not 0 and quotas that
  -- the constructors return. Take any history of calls of `check` by any users under any tiers,
  -- with rounds of the collector in between, whose clock runs from `start` to `end` without going
  -- back. If a user's bucket under a limited tier starts at most one burst ahead, and one burst
  -- after `end` still fits the clock, then every call is answered, and what the user's allowed
  -- calls under the tier cost is worth at most one burst and the time between `start` and `end`.
  pub check_spent_bound :
      (user tier : Text) (q : Quota) (start end : Nanos) (w : World (MemoryStorage d) W)
      (events : List (Event W))
      → t.storage ≡ memory_storage d
      → HasInterval t
      → HasLimits t
      → get_quota t tier ≡ some q
      → is_unlimited q ≡ false
      → Within d t start end events
      → end + burst_offset_nanos q < u64_max
      → current (bucket d w.stored (user, tier)) start ≤ start + burst_offset_nanos q
      → (out : List Answered) × (w' : World (MemoryStorage d) W) × (serve_checks d t w events
          ≡ some (out, w'))
        × (emission_interval_nanos q * paid_in (user, tier) out
            ≤ burst_offset_nanos q + (end - start))
  check_spent_bound user tier q start end w events over_memory has_interval limits known limited o
        room low =
      let k : Key = (user, tier) in
      let (rs, e, b) =
        spent_bound d k q (limits tier q known limited) start end w.stored (ops_of d t events)
          (Within-le start end events o) room (ops_of-Ordered start end events o)
          (ops_of-UsesQuota k q known limits start end events o) low in
      let (out, w', f, g) =
        serve_checks-run d t has_interval over_memory k q known limited w events rs e in
      (out, w', f, rw g b)
