-- ===== src/Check.antt =====
-- src/check.rs: the decisions that both services share.
use tower_rate_tier.Gcra.{RateLimitInfo, RateLimited}
use tower_rate_tier.Http.{Http, Response}
use tower_rate_tier.Layer.{LimitEvent, Settings}
use tower_rate_tier.Policy.{OnMissing, OnStorageError, OnUnknownTier, TierIdentity}
use tower_rate_tier.Prelude.{Option, Result, err, if◌then◌else◌, leb, none, ok, some, ℕ, ◌>>=◌}
use tower_rate_tier.Prelude.Text.{Text, codes}
use tower_rate_tier.Quota.{Quota, is_unlimited}
use tower_rate_tier.Response.{
  cost_exceeds_limit_response, deny_response, forbidden, rate_limited_response,
  storage_error_response,
}
use tower_rate_tier.Storage.{Decision}
use tower_rate_tier.SystemTime.{SystemTime}
use tower_rate_tier.Tier.{RateTier, get_quota}

-- The outcome of a check. A refused request has its reply.
pub data CheckOutcome (h : Http) : Type 0 where
  allow : RateLimitInfo → CheckOutcome h
  pass_through : CheckOutcome h
  deny : Response h Text → CheckOutcome h

abbrev pub anonymous : Text
anonymous = codes "__anonymous__"

module _ {h : Http} where
  unfoldable pub missing_identity : OnMissing → Option Text → Result (Text × Text) (CheckOutcome h)
  missing_identity OnMissing.allow default = err pass_through
  missing_identity (OnMissing.deny status) default =
      err (CheckOutcome.deny (deny_response h status))
  missing_identity OnMissing.use_default (some default) = ok (anonymous, default)
  missing_identity OnMissing.use_default none = err (CheckOutcome.deny (deny_response h forbidden))

  abbrev pub unless_unlimited :
      Result (Text × Quota) (CheckOutcome h) → Result (Text × Quota) (CheckOutcome h)
  unless_unlimited (err outcome) = err outcome
  unless_unlimited (ok (name, quota)) =
      if is_unlimited quota then err pass_through else ok (name, quota)

  abbrev pub failed_outcome : OnStorageError → CheckOutcome h
  failed_outcome OnStorageError.allow = pass_through
  failed_outcome OnStorageError.deny = CheckOutcome.deny (storage_error_response h)

module _ {h : Http} {S W : Type 0} where
  unfoldable pub resolve_identity :
      Option TierIdentity → RateTier S W → Result (Text × Text) (CheckOutcome h)
  unfolding missing_identity
  resolve_identity (some id) t = ok (id.user_id, id.tier)
  resolve_identity none t = missing_identity t.on_missing t.default_tier

module _ {h : Http} {W : Type 0} where
  -- `settings.on_event`, if it is set.
  unfoldable pub report : Settings h W → LimitEvent → W → W
  report s event w = elim s.on_event [ some cb ↦ cb event w | none ↦ w ]

module _ {S W : Type 0} where
  -- `default_tier().and_then(|name| get_quota(name).map(|quota| (name, quota)))`
  unfoldable pub default_quota : RateTier S W → Option (Text × Quota)
  unfolding get_quota
  default_quota t = do name ← t.default_tier; quota ← get_quota t name; some (name, quota)

module _ {h : Http} {S W : Type 0} where
  unfoldable pub unknown_quota :
      OnUnknownTier → RateTier S W → Result (Text × Quota) (CheckOutcome h)
  unfolding default_quota
  unknown_quota OnUnknownTier.allow t = err pass_through
  unknown_quota (OnUnknownTier.deny status) t = err (CheckOutcome.deny (deny_response h status))
  unknown_quota OnUnknownTier.use_default t = elim (default_quota t) [
    | some (name, quota) ↦ ok (name, quota)
    | none ↦ err (CheckOutcome.deny (deny_response h forbidden))
  ]

  unfoldable pub resolve_quota :
      RateTier S W → Text → Text → Settings h W → W → Result (Text × Quota) (CheckOutcome h) × W
  unfolding get_quota unknown_quota report is_unlimited
  resolve_quota t user_id tier_name s w = elim (get_quota t tier_name) [
    | some quota ↦ (unless_unlimited (ok (tier_name, quota)), w)
    | none ↦ (
      unless_unlimited (unknown_quota t.on_unknown_tier t),
      report s (LimitEvent.unknown_tier user_id tier_name) w,
    )
  ]

module _ {h : Http} {W : Type 0} where
  unfoldable pub request_cost : h.Parts → Settings h W → ℕ
  request_cost parts s = elim (h.tier_cost parts) [
    | some cost ↦ cost
    | none ↦ elim s.cost_fn [ some f ↦ f parts | none ↦ 1 ]
  ]

  unfoldable pub reject_cost_over_limit :
      ℕ → Quota → Text → Text → Settings h W → W → Option (Response h Text) × W
  unfolding report
  reject_cost_over_limit cost quota user_id tier_name s w =
      let limit = quota.max_burst in
      if leb cost limit then (none, w) else (
        some (cost_exceeds_limit_response h tier_name cost limit),
        report s (LimitEvent.cost_exceeds_limit user_id tier_name cost limit) w,
      )

  abbrev pub limited_response :
      Settings h W → Text → Text → RateLimited → SystemTime → Response h Text
  limited_response s user_id tier_name limited now = elim s.rate_limited_response [
    | some f ↦ f user_id tier_name limited
    | none ↦ rate_limited_response h limited tier_name now
  ]

  unfoldable pub process_result :
      Decision → Text → Text → Settings h W → SystemTime → W → CheckOutcome h × W
  unfolding report
  process_result (ok (ok info)) user_id tier_name s now w = (CheckOutcome.allow info, w)
  process_result (ok (err limited)) user_id tier_name s now w = (
    CheckOutcome.deny (limited_response s user_id tier_name limited now),
    elim s.on_limited [ some cb ↦ cb user_id tier_name limited w | none ↦ w ],
  )
  process_result (err error) user_id tier_name s now w = (
    failed_outcome s.on_storage_error,
    report s (LimitEvent.storage_error user_id tier_name error) w,
  )
