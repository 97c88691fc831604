-- ===== src/Service/Handled.antt =====
-- What one request to src/service.rs over the built-in storage comes to.
use mathlib.Core.Option.{some-injective}
use tower_rate_tier.Check.{
  anonymous, default_quota, missing_identity, report, request_cost, resolve_identity, resolve_quota,
  unknown_quota, unless_unlimited,
}
use tower_rate_tier.Gcra.Decision.{check_gcra_total}
use tower_rate_tier.Http.{Http, Request}
use tower_rate_tier.Layer.{LimitEvent, Settings}
use tower_rate_tier.Policy.{OnMissing, OnUnknownTier, TierIdentity}
use tower_rate_tier.Prelude.{
  ◌>>=◌, Bool, Bool-cases, List, Option, Option-cases, Panics, ap, false, inl, inr, leb, none, ok,
  refl, some, sym, true, ◌∙◌, ◌≡◌, ◌≡◌,
}
use tower_rate_tier.Prelude.Text.{Text}
use tower_rate_tier.Quota.{Quota, burst_offset_nanos, emission_interval_nanos, is_unlimited}
use tower_rate_tier.Quota.Bounds.{emission_pos}
use tower_rate_tier.Service.{
  Env, Inner, Reply, call, charge, charge_resolved, conclude_checked, forward, limit_identified,
  limit_request, short_circuit,
}
use tower_rate_tier.Service.Answers.{
  Handled, ask_storage-decided, conclude_checked-own, counted, quiet,
}
use tower_rate_tier.Service.Direct.{charge-fits, charge_over_limit}
use tower_rate_tier.Service.Requests.{Arrival, asks, asks_identified, asks_resolved, identified_as}
use tower_rate_tier.Service.Verdict.{default_quota-configured}
use tower_rate_tier.Storage.{StorageKey}
use tower_rate_tier.Storage.DashMap.{DashMap, Key}
use tower_rate_tier.Storage.Memory.{MemoryStorage, memory_storage}
use tower_rate_tier.Storage.Memory.Buckets.{bucket, decided, key_of}
use tower_rate_tier.Storage.Memory.Runs.{Op}
use tower_rate_tier.Tier.{RateTier, World, get_quota}
use tower_rate_tier.Tier.Calls.{HasInterval}
use tower_rate_tier.Tier.Rate.{HasLimits}

module _ (d : DashMap) {h : Http} {B R E W : Type 0} (env : Env h R W)
    (t : RateTier (MemoryStorage d) W) (s : Settings h W) (inner : Inner h B R E W) (own : R → Bool)
    (foreign : (text : Text) → own (env.from_string text) ≡ false) (has_interval : HasInterval t)
    (over_memory : t.storage ≡ memory_storage d) (limits : HasLimits t) (k : Key) (quota : Quota)
    (known : get_quota t k.1 ≡ some quota) (limited : is_unlimited quota ≡ false) (mine : Type 0)
    (req : Request h B) where
  abbrev IsHandled : MemoryStorage d → List Op → Panics (Reply h R E (MemoryStorage d) W) → Type 0
  IsHandled m ops out = Handled d t own k mine (request_cost req.parts s) m ops out

  -- An admitted or refused check, once the quota is known.
  charge-IsHandled :
      (user_id tier : Text) (q : Quota) (w : World (MemoryStorage d) W)
      → get_quota t tier ≡ some q
      → is_unlimited q ≡ false
      → (mine → (user_id, tier) ≡ k)
      → IsHandled w.stored
          (asks_resolved t s user_id (request_cost req.parts s) (ok (tier, q), w.rest))
          (charge env t s inner req user_id tier q w)
  charge-IsHandled user_id tier q w found bounded of_k =
      elim (Bool-cases (leb (request_cost req.parts s) q.max_burst)) [
        | inl e ↦
            let key : StorageKey = record { user_id = user_id; tier = tier } in
            let now = t.clock w.rest in
            let (r, f) =
              check_gcra_total (bucket d w.stored (key_of key)) now (emission_interval_nanos q)
                (burst_offset_nanos q) (request_cost req.parts s)
                (emission_pos q (limits tier q found bounded)) in
            let (w', g, l) =
              ask_storage-decided d t has_interval over_memory key q (request_cost req.parts s) now
                w r f in
            let (same, own_means) =
              conclude_checked-own d env s inner own foreign req user_id tier r w' in
            counted key q now r (conclude_checked env s inner req user_id tier (decided r, w')).0
              (conclude_checked env s inner req user_id tier (decided r, w')).1 (rw e refl) found
              bounded f
              (charge-fits env t s inner req user_id tier q w e
                ∙ ap
                    (λ a.
                      a >>= λ answer. some (conclude_checked env s inner req user_id tier answer))
                    g)
              (same ∙ l) of_k own_means
        | inr e ↦
            quiet _ _ (rw e refl) (charge_over_limit env t s inner req user_id tier q w e) refl
              (λ m. foreign _)
      ]

  -- A request of `k` is of a limited tier.
  not_unlimited :
      (user_id tier : Text) (q : Quota)
      → get_quota t tier ≡ some q
      → is_unlimited q ≡ true
      → ¬ ◌≡◌ {A = Key} (user_id, tier) k
  not_unlimited user_id tier q found free e =
      let f : get_quota t tier ≡ some quota = rw (ap (λ j. j.1) e) known in
      let g : is_unlimited quota ≡ true = rw (some-injective _ _ (sym f ∙ found)) free in cc

  resolved-IsHandled :
      (user_id tier : Text) (q : Quota) (w : World (MemoryStorage d) W)
      → get_quota t tier ≡ some q
      → (mine → ◌≡◌ {A = Key} (user_id, tier) k)
      → IsHandled w.stored
          (asks_resolved t s user_id
            (request_cost req.parts s)
            (unless_unlimited (ok (tier, q)), w.rest))
          (charge_resolved env t s inner req user_id w (unless_unlimited (ok (tier, q))))
  unfolding short_circuit forward
  resolved-IsHandled user_id tier q w found of_k = elim (Bool-cases (is_unlimited q)) [
    | inl free ↦
        rw free (
          quiet _ _ refl refl refl (λ m. absurd (not_unlimited user_id tier q found free (of_k m))))
    | inr bound ↦ rw bound (charge-IsHandled user_id tier q w found bound of_k)
  ]

  default-IsHandled :
      (user_id : Text) (w : World (MemoryStorage d) W)
      → ¬ mine
      → IsHandled w.stored
          (asks_resolved t s user_id
            (request_cost req.parts s)
            (unless_unlimited (unknown_quota OnUnknownTier.use_default t), w.rest))
          (charge_resolved env t s inner req user_id w
            (unless_unlimited (unknown_quota OnUnknownTier.use_default t)))
  unfolding unknown_quota short_circuit
  default-IsHandled user_id w stranger = elim (Option-cases (default_quota t)) [
    | inl e ↦ rw (e, unknown_quota) (quiet _ _ refl refl refl (λ m. foreign _))
    | inr ((name, q), e) ↦
        rw (e, unknown_quota)
          (resolved-IsHandled user_id name q w (default_quota-configured t name q e).1
            (λ m. absurd (stranger m)))
  ]

  unknown-IsHandled :
      (policy : OnUnknownTier) (user_id : Text) (w : World (MemoryStorage d) W)
      → ¬ mine
      → IsHandled w.stored
          (asks_resolved t s user_id
            (request_cost req.parts s)
            (unless_unlimited (unknown_quota policy t), w.rest))
          (charge_resolved env t s inner req user_id w (unless_unlimited (unknown_quota policy t)))
  unfolding unknown_quota short_circuit forward
  unknown-IsHandled OnUnknownTier.use_default user_id w stranger =
      default-IsHandled user_id w stranger
  unknown-IsHandled (OnUnknownTier.deny status) user_id w stranger =
      quiet _ _ refl refl refl (λ m. foreign _)
  unknown-IsHandled OnUnknownTier.allow user_id w stranger =
      quiet _ _ refl refl refl (λ m. absurd (stranger m))

  identified-IsHandled :
      (user_id tier : Text) (w : World (MemoryStorage d) W)
      → (mine → ◌≡◌ {A = Key} (user_id, tier) k)
      → IsHandled w.stored
          (asks_identified t s (request_cost req.parts s) (ok (user_id, tier)) w.rest)
          (limit_identified env t s inner req w (ok (user_id, tier)))
  unfolding resolve_quota
  identified-IsHandled user_id tier w of_k = elim (Option-cases (get_quota t tier)) [
    | inl e ↦
        rw (e, resolve_quota)
          (unknown-IsHandled t.on_unknown_tier user_id
            (record w { rest = report s (LimitEvent.unknown_tier user_id tier) w.rest })
            (λ m. let f : get_quota t tier ≡ some quota = rw (ap (λ j. j.1) (of_k m)) known in cc))
    | inr (q, e) ↦ rw (e, resolve_quota) (resolved-IsHandled user_id tier q w e of_k)
  ]

  missing-IsHandled :
      (policy : OnMissing) (default : Option Text) (w : World (MemoryStorage d) W)
      → ¬ mine
      → IsHandled w.stored
          (asks_identified t s (request_cost req.parts s) (missing_identity policy default) w.rest)
          (limit_identified env t s inner req w (missing_identity policy default))
  unfolding missing_identity short_circuit forward
  missing-IsHandled OnMissing.allow default w stranger =
      quiet _ _ refl refl refl (λ m. absurd (stranger m))
  missing-IsHandled (OnMissing.deny status) default w stranger =
      quiet _ _ refl refl refl (λ m. foreign _)
  missing-IsHandled OnMissing.use_default (some name) w stranger =
      identified-IsHandled anonymous name w (λ m. absurd (stranger m))
  missing-IsHandled OnMissing.use_default none w stranger =
      quiet _ _ refl refl refl (λ m. foreign _)

module _ (d : DashMap) {h : Http} {B R E W : Type 0} (env : Env h R W)
    (t : RateTier (MemoryStorage d) W) (s : Settings h W) (inner : Inner h B R E W) (own : R → Bool)
    (foreign : (text : Text) → own (env.from_string text) ≡ false) (has_interval : HasInterval t)
    (over_memory : t.storage ≡ memory_storage d) (limits : HasLimits t) (user tier : Text)
    (quota : Quota) (known : get_quota t tier ≡ some quota)
    (limited : is_unlimited quota ≡ false) where
  -- The identity of the user within the tier.
  abbrev pub IsOf : Option TierIdentity → Type 0
  IsOf identity = identity ≡ some (record { user_id = user; tier = tier })

  limit_request-IsHandled :
      (req : Request h B) (identity : Option TierIdentity) (w : World (MemoryStorage d) W)
      → Handled d t own
          (user, tier)
          (IsOf identity)
          (request_cost req.parts s)
          w.stored
          (asks t s req.parts identity w.rest)
          (limit_request env t s inner req identity w)
  unfolding limit_request resolve_identity
  limit_request-IsHandled req (some id) w =
      identified-IsHandled d env t s inner own foreign has_interval over_memory limits (user, tier)
        quota known limited (IsOf (some id)) req id.user_id id.tier w
        (λ e. ap (λ i. (i.user_id, i.tier)) (some-injective _ _ e))
  limit_request-IsHandled req none w =
      missing-IsHandled d env t s inner own foreign has_interval over_memory limits (user, tier)
        quota known limited (IsOf none) req t.on_missing t.default_tier w (λ e. cc)

  pub call-IsHandled :
      (a : Arrival h B W) (w : World (MemoryStorage d) W)
      → Handled d t own
          (user, tier)
          (IsOf (identified_as s a).0)
          (request_cost a.request.parts s)
          w.stored
          (asks t s a.request.parts (identified_as s a).0 (identified_as s a).1)
          (call env t s inner a.request (record w { rest = a.at }))
  unfolding call
  call-IsHandled a w =
      limit_request-IsHandled a.request (identified_as s a).0
        (record w { rest = (identified_as s a).1 })
