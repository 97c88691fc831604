-- ===== src/Tier/Calls.antt =====
-- The calls of RateTier::check of src/tier.rs over the built-in storage, with the rounds of its
-- collector, and the operations of the storage that they come to.
use tower_rate_tier.Storage.Memory.{check_and_update as check_memory}
use tower_rate_tier.Tier.{check as check_directly}
use tower_rate_tier.Gcra.{RateLimitInfo, RateLimited}
use tower_rate_tier.Prelude.{
  ◌&&◌, ◌+◌, ◌++◌, ◌<◌, ◌==◌, ◌>>=◌, Bool, Bool-cases, List, Option-cases, Panics, Result, [],
  arith, err, false, if◌then◌else◌, inl, inr, ltb, none, not, ok, refl, some, true, ◌||◌, ℕ, ◌∷◌,
  ◌≡◌,
}
use tower_rate_tier.Prelude.Text.{Text}
use tower_rate_tier.Quota.{Nanos, Quota, is_unlimited}
use tower_rate_tier.Storage.{Decision, StorageKey}
use tower_rate_tier.Storage.DashMap.{DashMap, Key, key_eq}
use tower_rate_tier.Storage.Memory.{MemoryStorage, memory_storage, retain_active}
use tower_rate_tier.Storage.Memory.Runs.{Op}
use tower_rate_tier.Tier.{
  CheckError, LazyGc, RateTier, World, ask_storage, checked, ensure_started, get_quota,
  unlimited_info, use_storage,
}

-- A call of `check`, in a world that shows a time; or a round of the collector.
pub data Event (W : Type 0) : Type 0 where
  called : Text → Text → ℕ → W → Event W
  ticked : Nanos → Event W

-- A call with its answer.
pub record Answered : Type 0 where
  pub user_id : Text
  pub tier : Text
  pub cost : ℕ
  pub answer : Result (Result RateLimitInfo RateLimited) CheckError

abbrev pub passes : Result (Result RateLimitInfo RateLimited) CheckError → Bool
passes (ok (ok i)) = true
passes (ok (err l)) = false
passes (err e) = false

-- The cost of the user's call under the tier, if it was allowed.
abbrev pub paid : Key → Answered → ℕ
paid k a = if key_eq (a.user_id, a.tier) k then (if passes a.answer then a.cost else 0) else 0

abbrev pub paid_in : Key → List Answered → ℕ
paid_in k [] = 0
paid_in k (a ∷ rest) = paid k a + paid_in k rest

module _ (d : DashMap) {W : Type 0} (t : RateTier (MemoryStorage d) W) where
  -- The calls one after the other, with the collector's rounds in between.
  unfoldable pub serve_checks :
      World (MemoryStorage d) W
      → List (Event W)
      → Panics (List Answered × World (MemoryStorage d) W)
  serve_checks w [] = some ([], w)
  serve_checks w (ticked now ∷ rest) =
      serve_checks (record w { stored = retain_active d w.stored now }) rest
  serve_checks w (called user tier cost at ∷ rest) =
      check_directly t user tier cost (record w { rest = at }) >>= λ (r, w1).
      serve_checks w1 rest >>= λ (out, w2).
      some (record { user_id = user; tier = tier; cost = cost; answer = r } ∷ out, w2)

  -- The operations of the storage that a call comes to.
  unfoldable pub ops_of_call : Text → Text → ℕ → W → List Op
  ops_of_call user tier cost at = elim (get_quota t tier) [
    | none ↦ []
    | some q ↦
        if is_unlimited q || ltb q.max_burst cost
        then []
        else Op.check (record { user_id = user; tier = tier }) q cost (t.clock at) ∷ []
  ]

  abbrev pub ops_of : List (Event W) → List Op
  ops_of [] = []
  ops_of (ticked now ∷ rest) = Op.collect now ∷ ops_of rest
  ops_of (called user tier cost at ∷ rest) = ops_of_call user tier cost at ++ ops_of rest

-- The collector's interval is not 0, as the builder's methods and `spawn` make sure.
abbrev pub HasInterval : {S W : Type 0} → RateTier S W → Type 0
HasInterval t = (gc : LazyGc) → t.gc ≡ some gc → 0 < gc.interval

pub use_storage-some :
    {S W : Type 0} (t : RateTier S W) (w : World S W)
    → HasInterval t
    → (w1 : World S W) × (use_storage t w ≡ some w1) × (w1.stored ≡ w.stored)
unfolding use_storage ensure_started
use_storage-some t w h = elim (Option-cases t.gc) [
  | inl e ↦ (w, rw e refl, refl)
  | inr (gc, e) ↦
      let p : (gc.interval == 0) ≡ false = ground (arith, h gc e) in
      elim (Bool-cases (not w.gc_started && t.in_runtime w.rest)) [
        | inl c ↦ (record w { gc_started = true }, rw (e, c, p) refl, refl)
        | inr c ↦ (w, rw (e, c) refl, refl)
      ]
]

-- What a call comes to.
pub data Comes (d : DashMap) {W : Type 0} (t : RateTier (MemoryStorage d) W) (user tier : Text)
    (cost : ℕ) (at : W) (w : World (MemoryStorage d) W) : Type 0 where
  unasked :
      (r : Result (Result RateLimitInfo RateLimited) CheckError)
      → ops_of_call d t user tier cost at ≡ []
      → check_directly t user tier cost (record w { rest = at }) ≡ some (r, record w { rest = at })
      → ((q : Quota) → get_quota t tier ≡ some q → is_unlimited q ≡ false → passes r ≡ false)
      → Comes d t user tier cost at w
  asked :
      (q : Quota) (w1 : World (MemoryStorage d) W)
      → ops_of_call d t user tier cost at
        ≡ Op.check (record { user_id = user; tier = tier }) q cost (t.clock at) ∷ []
      → check_directly t user tier cost (record w { rest = at }) ≡ (
          check_memory d (record { user_id = user; tier = tier }) q cost (t.clock at) w.stored
          >>= λ (a, m). some (checked (a, record w1 { stored = m })))
      → Comes d t user tier cost at w

bind-checked :
    {S W : Type 0} (p : Panics (Decision × S)) (w : World S W)
    → (p >>= (λ reply. some (reply.0, record w { stored = reply.1 })) >>= λ reply.
        some (checked reply))
      ≡ (p >>= λ (a, m). some (checked (a, record w { stored = m })))
bind-checked none w = refl
bind-checked (some (a, m)) w = refl

module _ (d : DashMap) {W : Type 0} (t : RateTier (MemoryStorage d) W) (h : HasInterval t)
    (built_in : t.storage ≡ memory_storage d) where
  ask_storage-memory :
      (key : StorageKey) (q : Quota) (cost : ℕ) (now : Nanos) (m : MemoryStorage d)
      (w w1 : World (MemoryStorage d) W)
      → use_storage t w ≡ some w1
      → w1.stored ≡ m
      → (ask_storage t key q cost now w >>= λ reply. some (checked reply)) ≡ (
          check_memory d key q cost now m >>= λ (a, m').
          some (checked (a, record w1 { stored = m' })))
  unfolding ask_storage memory_storage
  ask_storage-memory key q cost now m w w1 f g =
      rw (ask_storage, f, built_in, ← g) (bind-checked (check_memory d key q cost now w1.stored) w1)

  pub comes :
      (user tier : Text) (cost : ℕ) (at : W) (w : World (MemoryStorage d) W)
      → Comes d t user tier cost at w
  unfolding check_directly ops_of_call
  comes user tier cost at w = elim (Option-cases (get_quota t tier)) [
    | inl e ↦
        unasked (err (CheckError.unknown_tier tier)) (rw (ops_of_call, check_directly, e) refl)
          (rw (ops_of_call, check_directly, e) refl) (λ q f g. refl)
    | inr (q, e) ↦ elim (Bool-cases (is_unlimited q)) [
      | inl u ↦
          unasked (ok (ok unlimited_info)) (rw (ops_of_call, check_directly, e, u) refl)
            (rw (ops_of_call, check_directly, e, u) refl)
            (λ p f g. let k = rw e at f in ground arith)
      | inr u ↦ elim (Bool-cases (ltb q.max_burst cost)) [
        | inl c ↦
            unasked (err (CheckError.cost_exceeds_limit cost q.max_burst))
              (rw (ops_of_call, e, u, c) refl) (rw (check_directly, e, u, c) refl) (λ p f g. refl)
        | inr c ↦
            let (w1, f, g) = use_storage-some t (record w { rest = at }) h in
            asked q w1 (rw (ops_of_call, e, u, c) refl) (
              rw (check_directly, e, u, c)
                (ask_storage-memory (record { user_id = user; tier = tier }) q cost (t.clock at)
                  w.stored (record w { rest = at }) w1 f g))
      ]
    ]
  ]
