-- ===== src/Service/Verdict/Kinds.antt =====
-- The ways in which a request to src/service.rs ends.
use tower_rate_tier.Check.{request_cost, resolve_identity}
use tower_rate_tier.Gcra.{RateLimitInfo}
use tower_rate_tier.Http.{Http, Request, Response}
use tower_rate_tier.Layer.{Settings}
use tower_rate_tier.Policy.{OnMissing, OnStorageError, OnUnknownTier, TierIdentity}
use tower_rate_tier.Prelude.{Option, Panics, err, false, none, ok, some, true, ℕ, ◌≡◌, ◌≤◌, ◌⊎◌}
use tower_rate_tier.Prelude.Text.{Text}
use tower_rate_tier.Quota.{Quota, is_unlimited}
use tower_rate_tier.Service.{Env, Inner, Reply, annotate, forward, into_body}
use tower_rate_tier.Storage.{Decision, StorageError}
use tower_rate_tier.SystemTime.{SystemTime}
use tower_rate_tier.Tier.{RateTier, World, ask_storage, get_quota}

module _ {h : Http} {S W : Type 0} (t : RateTier S W) (s : Settings h W) where
  -- The user and the quota of a request: the user and tier that its identity comes to, and the
  -- quota of this tier, or the default tier's where the tier is unknown and that is the policy.
  abbrev pub IsCharged : Option TierIdentity → Text → Text → Quota → Type 0
  IsCharged identity user_id name q =
      (tier : Text) × (resolve_identity {h = h} identity t ≡ ok (user_id, tier))
      × (((name ≡ tier) × (get_quota t tier ≡ some q))
          ⊎ ((get_quota t tier ≡ none)
              × (t.on_unknown_tier ≡ OnUnknownTier.use_default)
              × (t.default_tier ≡ some name)
              × (get_quota t name ≡ some q)))

  -- What the storage says to a user of a tier, in the world `v`, at the time of the clock.
  abbrev pub asks : Text → Text → Quota → ℕ → World S W → Panics (Decision × World S W)
  asks user_id name q cost v =
      ask_storage t (record { user_id = user_id; tier = name }) q cost (t.clock v.rest) v

  -- The reasons for letting a request through without the storage's leave. `before` is the
  -- storage's state when the request came.
  pub data Bypass (identity : Option TierIdentity) (cost : ℕ) (before : S) : Type 0 where
    unidentified : identity ≡ none → t.on_missing ≡ OnMissing.allow → Bypass identity cost before
    unconfigured :
        (user_id tier : Text)
        → resolve_identity {h = h} identity t ≡ ok (user_id, tier)
        → get_quota t tier ≡ none
        → t.on_unknown_tier ≡ OnUnknownTier.allow
        → Bypass identity cost before
    unlimited_tier :
        (user_id name : Text) (q : Quota)
        → IsCharged identity user_id name q
        → is_unlimited q ≡ true
        → Bypass identity cost before
    storage_down :
        (user_id name : Text) (q : Quota) (v w : World S W) (e : StorageError)
        → IsCharged identity user_id name q
        → is_unlimited q ≡ false
        → v.stored ≡ before
        → asks user_id name q cost v ≡ some (err e, w)
        → s.on_storage_error ≡ OnStorageError.allow
        → Bypass identity cost before

module _ {h : Http} {B R E S W : Type 0} (env : Env h R W) (t : RateTier S W)
    (s : Settings h W) where
  -- The ends of a request, whatever service is wrapped: `out` is what comes of it for each.
  pub data Verdict (req : Request h B) (identity : Option TierIdentity) (before : S)
      (out : Inner h B R E W → Panics (Reply h R E S W)) : Type 0 where
    turned_away :
        (resp : Response h Text) (w : World S W)
        → ((inner : Inner h B R E W) → out inner ≡ some (ok (into_body env resp), w))
        → Verdict req identity before out
    admitted :
        (user_id name : Text) (q : Quota) (v w : World S W) (info : RateLimitInfo) (at : SystemTime)
        → IsCharged t s identity user_id name q
        → is_unlimited q ≡ false
        → request_cost req.parts s ≤ q.max_burst
        → v.stored ≡ before
        → asks t s user_id name q (request_cost req.parts s) v ≡ some (ok (ok info), w)
        → ((inner : Inner h B R E W) → out inner ≡ some (annotate info at (forward inner req w)))
        → Verdict req identity before out
    bypassed :
        (w : World S W)
        → Bypass t s identity (request_cost req.parts s) before
        → ((inner : Inner h B R E W) → out inner ≡ some (forward inner req w))
        → Verdict req identity before out
    storage_panicked :
        (user_id name : Text) (q : Quota) (v : World S W)
        → IsCharged t s identity user_id name q
        → is_unlimited q ≡ false
        → v.stored ≡ before
        → asks t s user_id name q (request_cost req.parts s) v ≡ none
        → ((inner : Inner h B R E W) → out inner ≡ none)
        → Verdict req identity before out
