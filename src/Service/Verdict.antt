-- ===== src/Service/Verdict.antt =====
-- Why a request reaches the wrapped service, and why not.
pub mod Kinds
use tower_rate_tier.Check.{
  anonymous, default_quota, failed_outcome, missing_identity, process_result, report, request_cost,
  resolve_identity, resolve_quota, unknown_quota, unless_unlimited,
}
use tower_rate_tier.Http.{Http, Request}
use tower_rate_tier.Layer.{LimitEvent, Settings}
use tower_rate_tier.Policy.{OnMissing, OnStorageError, OnUnknownTier, TierIdentity}
use tower_rate_tier.Prelude.{
  ◌>>=◌, Bool-cases, Option, Option-cases, Panics, arith, err, false, inl, inr, leb, none, ok, refl,
  some, ◌∙◌, ◌≡◌, ◌≤◌, ◌>>=◌,
}
use tower_rate_tier.Prelude.Text.{Text}
use tower_rate_tier.Quota.{Quota, is_unlimited}
use tower_rate_tier.Response.{deny_response, forbidden, storage_error_response}
use tower_rate_tier.Service.{
  Env, Inner, Reply, charge, charge_resolved, conclude, conclude_checked, limit_identified,
  limit_request, short_circuit,
}
use tower_rate_tier.Service.Direct.{charge-fits, charge_over_limit}
use tower_rate_tier.Service.Verdict.Kinds.{
  Bypass, IsCharged, Verdict, admitted, asks, bypassed, storage_down, storage_panicked, turned_away,
  unconfigured, unidentified, unlimited_tier,
}
use tower_rate_tier.Storage.{Decision}
use tower_rate_tier.SystemTime.{SystemTime}
use tower_rate_tier.Tier.{RateTier, World, get_quota}

module _ {S W : Type 0} (t : RateTier S W) where
  named_quota :
      (default : Option Text) (name : Text) (q : Quota)
      → ◌>>=◌ {B = Text × Quota} default (λ n. get_quota t n >>= λ quota. some (n, quota))
        ≡ some (name, q)
      → (default ≡ some name) × (get_quota t name ≡ some q)
  named_quota none name q e = cc
  named_quota (some n) name q e = elim (Option-cases (get_quota t n)) [
    | inl f ↦ let g = rw f at e in cc
    | inr (x, f) ↦ let g = rw f at e in ground arith
  ]

  pub default_quota-configured :
      (name : Text) (q : Quota)
      → default_quota t ≡ some (name, q)
      → (t.default_tier ≡ some name) × (get_quota t name ≡ some q)
  unfolding default_quota
  default_quota-configured name q e = named_quota t.default_tier name q e

module _ {h : Http} {B R E S W : Type 0} (env : Env h R W) (t : RateTier S W)
    (s : Settings h W) where
  module _ (req : Request h B) (identity : Option TierIdentity) (before : S) where
    abbrev Ends : (Inner h B R E W → Panics (Reply h R E S W)) → Type 0
    Ends out = Verdict env t s req identity before out

    same_end :
        (f g : Inner h B R E W → Panics (Reply h R E S W))
        → ((inner : Inner h B R E W) → f inner ≡ g inner)
        → Ends g
        → Ends f
    same_end f g e (turned_away resp w p) = turned_away resp w (λ i. e i ∙ p i)
    same_end f g e (admitted user_id name q v w info at charged limited cheap same asked p) =
        admitted user_id name q v w info at charged limited cheap same asked (λ i. e i ∙ p i)
    same_end f g e (bypassed w b p) = bypassed w b (λ i. e i ∙ p i)
    same_end f g e (storage_panicked user_id name q v charged limited same asked p) =
        storage_panicked user_id name q v charged limited same asked (λ i. e i ∙ p i)

    failed-Verdict :
        (policy : OnStorageError) (at : SystemTime) (w : World S W)
        → (policy ≡ OnStorageError.allow → Bypass t s identity (request_cost req.parts s) before)
        → Ends (λ inner. some (conclude env inner req at (failed_outcome policy) w))
    unfolding conclude
    failed-Verdict OnStorageError.allow at w b = bypassed w (b refl) (λ i. refl)
    failed-Verdict OnStorageError.deny at w b = turned_away (storage_error_response h) w (λ i. refl)

    module _ (user_id name : Text) (q : Quota) (charged : IsCharged t s identity user_id name q)
        (limited : is_unlimited q ≡ false) where
      conclude_checked-Verdict :
          (v w : World S W) (r : Decision)
          → request_cost req.parts s ≤ q.max_burst
          → v.stored ≡ before
          → asks t s user_id name q (request_cost req.parts s) v ≡ some (r, w)
          → Ends (λ inner. some (conclude_checked env s inner req user_id name (r, w)))
      unfolding conclude_checked process_result conclude
      conclude_checked-Verdict v w (ok (ok info)) cheap same asked =
          admitted user_id name q v w info (env.wall_clock w.rest) charged limited cheap same asked
            (λ i. refl)
      conclude_checked-Verdict v w (ok (err l)) cheap same asked = turned_away _ _ (λ i. refl)
      conclude_checked-Verdict v w (err e) cheap same asked =
          failed-Verdict s.on_storage_error (env.wall_clock w.rest) _
            (storage_down user_id name q v w e charged limited same asked)

      asked-Verdict :
          (w : World S W)
          → request_cost req.parts s ≤ q.max_burst
          → w.stored ≡ before
          → Ends (λ inner. asks t s user_id name q (request_cost req.parts s) w >>= λ answer.
              some (conclude_checked env s inner req user_id name answer))
      asked-Verdict w cheap same =
          elim (Option-cases (asks t s user_id name q (request_cost req.parts s) w)) [
            | inl e ↦ storage_panicked user_id name q w charged limited same e (λ i. rw e refl)
            | inr ((r, w1), e) ↦
                same_end _ (λ i. some (conclude_checked env s i req user_id name (r, w1)))
                  (λ i. rw e refl) (conclude_checked-Verdict w w1 r cheap same e)
          ]

      charge-Verdict :
          (w : World S W)
          → w.stored ≡ before
          → Ends (λ inner. charge env t s inner req user_id name q w)
      charge-Verdict w same = elim (Bool-cases (leb (request_cost req.parts s) q.max_burst)) [
        | inl e ↦
            same_end _ _ (λ i. charge-fits env t s i req user_id name q w e)
              (asked-Verdict w (ground arith) same)
        | inr e ↦ turned_away _ _ (λ i. charge_over_limit env t s i req user_id name q w e)
      ]

    resolved-Verdict :
        (user_id name : Text) (q : Quota) (w : World S W)
        → IsCharged t s identity user_id name q
        → w.stored ≡ before
        → Ends
            (λ inner. charge_resolved env t s inner req user_id w (unless_unlimited (ok (name, q))))
    unfolding short_circuit
    resolved-Verdict user_id name q w charged same = elim (Bool-cases (is_unlimited q)) [
      | inl e ↦
          bypassed w (unlimited_tier user_id name q charged e) (λ i. rw (e, unless_unlimited) refl)
      | inr e ↦
          same_end _ _ (λ i. rw (e, unless_unlimited) refl)
            (charge-Verdict user_id name q charged e w same)
    ]

    default-Verdict :
        (user_id tier : Text) (w : World S W)
        → resolve_identity {h = h} identity t ≡ ok (user_id, tier)
        → get_quota t tier ≡ none
        → t.on_unknown_tier ≡ OnUnknownTier.use_default
        → w.stored ≡ before
        → Ends (λ inner.
          charge_resolved env t s inner req user_id w
            (unless_unlimited (unknown_quota OnUnknownTier.use_default t)))
    unfolding unknown_quota short_circuit
    default-Verdict user_id tier w mine unknown policy same =
        elim (Option-cases (default_quota t)) [
          | inl e ↦ turned_away (deny_response h forbidden) w (λ i. rw (e, unknown_quota) refl)
          | inr ((name, q), e) ↦
              let (named, known) = default_quota-configured t name q e in
              same_end _ _ (λ i. rw (e, unknown_quota) refl)
                (resolved-Verdict user_id name q w (tier, mine, inr (unknown, policy, named, known))
                  same)
        ]

    unknown-Verdict :
        (policy : OnUnknownTier) (user_id tier : Text) (w : World S W)
        → resolve_identity {h = h} identity t ≡ ok (user_id, tier)
        → get_quota t tier ≡ none
        → t.on_unknown_tier ≡ policy
        → w.stored ≡ before
        → Ends (λ inner.
          charge_resolved env t s inner req user_id w (unless_unlimited (unknown_quota policy t)))
    unfolding unknown_quota short_circuit
    unknown-Verdict OnUnknownTier.use_default user_id tier w mine unknown policy same =
        default-Verdict user_id tier w mine unknown policy same
    unknown-Verdict (OnUnknownTier.deny status) user_id tier w mine unknown policy same =
        turned_away (deny_response h status) w (λ i. refl)
    unknown-Verdict OnUnknownTier.allow user_id tier w mine unknown policy same =
        bypassed w (unconfigured user_id tier mine unknown policy) (λ i. refl)

    identified-Verdict :
        (user_id tier : Text) (w : World S W)
        → resolve_identity {h = h} identity t ≡ ok (user_id, tier)
        → w.stored ≡ before
        → Ends (λ inner. limit_identified env t s inner req w (ok (user_id, tier)))
    unfolding resolve_quota
    identified-Verdict user_id tier w mine same = elim (Option-cases (get_quota t tier)) [
      | inl e ↦
          same_end _ _ (λ i. rw (e, resolve_quota) refl)
            (unknown-Verdict t.on_unknown_tier user_id tier
              (record w { rest = report s (LimitEvent.unknown_tier user_id tier) w.rest }) mine e
              refl same)
      | inr (q, e) ↦
          same_end _ _ (λ i. rw (e, resolve_quota) refl)
            (resolved-Verdict user_id tier q w (tier, mine, inl (refl, e)) same)
    ]

    missing-Verdict :
        (policy : OnMissing) (default : Option Text) (w : World S W)
        → (policy ≡ OnMissing.allow → Bypass t s identity (request_cost req.parts s) before)
        → ((name : Text)
            → missing_identity {h = h} policy default ≡ ok (anonymous, name)
            → Ends (λ inner. limit_identified env t s inner req w (ok (anonymous, name))))
        → Ends (λ inner. limit_identified env t s inner req w (missing_identity policy default))
    unfolding missing_identity short_circuit
    missing-Verdict OnMissing.allow default w b k = bypassed w (b refl) (λ i. refl)
    missing-Verdict (OnMissing.deny status) default w b k =
        turned_away (deny_response h status) w (λ i. refl)
    missing-Verdict OnMissing.use_default (some name) w b k = k name refl
    missing-Verdict OnMissing.use_default none w b k =
        turned_away (deny_response h forbidden) w (λ i. refl)

module _ {h : Http} {B R E S W : Type 0} (env : Env h R W) (t : RateTier S W) (s : Settings h W)
    (req : Request h B) where
  -- Every request ends in one of four ways, whichever service is wrapped: it is turned away with a
  -- reply of the middleware, the same for all wrapped services, and none of them is called; the
  -- storage, as it was when the request came, admitted the request's cost for its user under the
  -- limited quota of the user's tier, which the cost fits, and a reply of the wrapped service
  -- carries the headers; it is let through for one of four reasons of its own, each of them chosen
  -- by the configuration; or the storage panicked.
  pub limit_request-Verdict :
      (identity : Option TierIdentity) (w : World S W)
      → Verdict {E = E} env t s req identity w.stored
          (λ inner. limit_request env t s inner req identity w)
  unfolding limit_request resolve_identity
  limit_request-Verdict (some id) w =
      identified-Verdict env t s req (some id) w.stored id.user_id id.tier w refl refl
  limit_request-Verdict none w =
      missing-Verdict env t s req none w.stored t.on_missing t.default_tier w (unidentified refl)
        (λ name e. identified-Verdict env t s req none w.stored anonymous name w e refl)
