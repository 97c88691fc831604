-- ===== src/Service/Buffered.antt =====
-- src/buffered.rs: the service that reads the body before it identifies the user.
use tower_rate_tier.Check.{
  CheckOutcome, pass_through, process_result, reject_cost_over_limit, request_cost,
  resolve_identity, resolve_quota,
}
use tower_rate_tier.Gcra.{RateLimitInfo}
use tower_rate_tier.Http.{Http, Request, Response}
use tower_rate_tier.Layer.{Bytes, Settings}
use tower_rate_tier.Prelude.{
  Panics, Result, err, if◌then◌else◌, ltb, none, ok, some, ℕ, ◌≡◌, ◌≤◌, ◌>>=◌,
}
use tower_rate_tier.Prelude.Lists.{length}
use tower_rate_tier.Prelude.Text.{Text}
use tower_rate_tier.Quota.{Quota}
use tower_rate_tier.Response.{bad_request_response, inject_headers, payload_too_large_response}
use tower_rate_tier.Service.{Env, Inner, Reply, into_body}
use tower_rate_tier.Storage.{Decision, StorageKey}
use tower_rate_tier.SystemTime.{SystemTime}
use tower_rate_tier.Tier.{RateTier, World, ask_storage}

-- How reading a body ends.
pub data Collected : Type 0 where
  collected : Bytes → Collected
  too_long body_failed : Collected

-- The crates `http-body` and `http-body-util`: a body declares a lower bound of its length, and is
-- read through `Limited`, which fails on a body longer than the limit.
pub record BodyReader (B : Type 0) : Type 0 where
  pub size_hint_lower : B → ℕ
  pub collect_limited : ℕ → B → Collected
  pub within_limit :
      (limit : ℕ) (b : B) (bytes : Bytes)
      → collect_limited limit b ≡ collected bytes
      → length bytes ≤ limit
  pub hint_holds :
      (limit : ℕ) (b : B) (bytes : Bytes)
      → collect_limited limit b ≡ collected bytes
      → size_hint_lower b ≤ length bytes

-- 64 * 1024
abbrev pub default_max_body_size : ℕ
default_max_body_size = 65_536

-- `Request::from_parts(parts, Full::new(body_bytes))`: the full body is the list of its bytes.
abbrev pub from_parts : {h : Http} → h.Parts → Bytes → Request h Bytes
from_parts parts body_bytes = record { parts = parts; body = body_bytes }

module _ {h : Http} {R E : Type 0} where
  -- `resp?`, and the headers on it.
  unfoldable pub with_headers :
      RateLimitInfo → SystemTime → Result (Response h R) E → Result (Response h R) E
  with_headers info checked_at (err e) = err e
  with_headers info checked_at (ok resp) = ok (inject_headers h resp info checked_at)

module _ {h : Http} {R E S W : Type 0} (env : Env h R W) (inner : Inner h Bytes R E W) where
  -- `inner.call(req).await` on the rebuilt request.
  unfoldable pub call_inner : h.Parts → Bytes → World S W → Reply h R E S W
  call_inner parts body_bytes w =
      let (r, w') = inner (from_parts parts body_bytes) w.rest in (r, record w { rest = w' })

  -- The outcomes that `resolve_identity` and `resolve_quota` return early; `Allow` is
  -- `unreachable!()`.
  unfoldable pub return_early :
      h.Parts → Bytes → CheckOutcome h → World S W → Panics (Reply h R E S W)
  unfolding call_inner
  return_early parts body_bytes pass_through w = some (call_inner parts body_bytes w)
  return_early parts body_bytes (CheckOutcome.deny resp) w = some (ok (into_body env resp), w)
  return_early parts body_bytes (CheckOutcome.allow info) w = none

  -- The last `match`.
  unfoldable pub reply : h.Parts → Bytes → SystemTime → CheckOutcome h → World S W → Reply h R E S W
  unfolding call_inner with_headers
  reply parts body_bytes checked_at (CheckOutcome.allow info) w =
      let (r, w') = call_inner parts body_bytes w in (with_headers info checked_at r, w')
  reply parts body_bytes checked_at (CheckOutcome.deny resp) w = (ok (into_body env resp), w)
  reply parts body_bytes checked_at pass_through w = call_inner parts body_bytes w

module _ {h : Http} {R E S W : Type 0} (env : Env h R W) (t : RateTier S W) (s : Settings h W)
    (inner : Inner h Bytes R E W) (parts : h.Parts) (body_bytes : Bytes) where
  -- From the storage's answer on.
  unfoldable pub checked : Text → Text → Decision → World S W → Reply h R E S W
  unfolding reply
  checked user_id tier_name result w =
      let checked_at = env.wall_clock w.rest in
      let (outcome, w') = process_result result user_id tier_name s checked_at w.rest in
      reply env inner parts body_bytes checked_at outcome (record w { rest = w' })

  -- From the cost on.
  unfoldable pub charged : Text → Text → Quota → World S W → Panics (Reply h R E S W)
  unfolding checked
  charged user_id tier_name quota w =
      let cost = request_cost parts s in
      let (rejected, w') = reject_cost_over_limit cost quota user_id tier_name s w.rest in
      elim rejected [
        | some resp ↦ some (ok (into_body env resp), record w { rest = w' })
        | none ↦ do
          let now = t.clock w'
          let key : StorageKey = record { user_id = user_id; tier = tier_name }
          (result, w2) ← ask_storage t key quota cost now (record w { rest = w' })
          some (checked user_id tier_name result w2)
      ]

  -- The `match` on the resolved quota.
  unfoldable pub quota_resolved :
      Text → World S W → Result (Text × Quota) (CheckOutcome h) → Panics (Reply h R E S W)
  unfolding return_early charged
  quota_resolved user_id w (ok (tier_name, quota)) = charged user_id tier_name quota w
  quota_resolved user_id w (err outcome) = return_early env inner parts body_bytes outcome w

  -- The `match` on the resolved identity.
  unfoldable pub identity_resolved :
      World S W → Result (Text × Text) (CheckOutcome h) → Panics (Reply h R E S W)
  unfolding return_early quota_resolved
  identity_resolved w (ok (user_id, tier_name)) =
      let (resolved, w') = resolve_quota t user_id tier_name s w.rest in
      quota_resolved user_id (record w { rest = w' }) resolved
  identity_resolved w (err outcome) = return_early env inner parts body_bytes outcome w

  -- The part of `call` after the body was read.
  unfoldable pub identified : World S W → Panics (Reply h R E S W)
  unfolding identity_resolved
  identified w =
      let (identity, w') = s.identifier.identify_with_body (h.headers parts) body_bytes w.rest in
      identity_resolved (record w { rest = w' }) (resolve_identity identity t)

module _ {h : Http} {B R E S W : Type 0} (env : Env h R W) (reader : BodyReader B) where
  -- `BufferedTierLimitService::call`
  unfoldable pub call_buffered :
      ℕ
      → RateTier S W
      → Settings h W
      → Inner h Bytes R E W
      → Request h B
      → World S W
      → Panics (Reply h R E S W)
  call_buffered max_body_size t s inner req w =
      if ltb max_body_size (reader.size_hint_lower req.body)
      then some (ok (into_body env (payload_too_large_response h)), w)
      else elim (reader.collect_limited max_body_size req.body) [
        | collected body_bytes ↦ identified env t s inner req.parts body_bytes w
        | too_long ↦ some (ok (into_body env (payload_too_large_response h)), w)
        | body_failed ↦ some (ok (into_body env (bad_request_response h)), w)
      ]
