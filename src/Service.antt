-- ===== src/Service.antt =====
-- src/service.rs: the middleware service. (`Buffered` is the one that buffers the body.)
pub mod Buffered
pub mod Verdict
pub mod Agreement
pub mod Direct
pub mod Layers
pub mod Charged
pub mod Readiness
pub mod Requests
pub mod Answers
pub mod Handled
pub mod Passed
pub mod Rate
pub mod Retry
use tower_rate_tier.Check.{
  CheckOutcome, pass_through, process_result, reject_cost_over_limit, request_cost,
  resolve_identity, resolve_quota,
}
use tower_rate_tier.Gcra.{RateLimitInfo}
use tower_rate_tier.Http.{Http, Request, Response}
use tower_rate_tier.Layer.{Settings}
use tower_rate_tier.Policy.{TierIdentity}
use tower_rate_tier.Prelude.{◌>>=◌, Option, Panics, Result, err, none, ok, some}
use tower_rate_tier.Prelude.Text.{Text}
use tower_rate_tier.Quota.{Quota}
use tower_rate_tier.Response.{inject_headers}
use tower_rate_tier.Storage.{Decision}
use tower_rate_tier.Storage.Serve.{rest}
use tower_rate_tier.SystemTime.{SystemTime}
use tower_rate_tier.Tier.{RateTier, World, ask_storage}

-- The wrapped service: its future run to its end. `E` is its error.
abbrev pub Inner : Http → Type 0 → Type 0 → Type 0 → Type 0 → Type 0
Inner h B R E W = Request h B → W → Result (Response h R) E × W

-- What the two services run in: the wall clock, and `From<String>` of the reply's body.
pub record Env (h : Http) (R W : Type 0) : Type 0 where
  pub from_string : Text → R
  pub wall_clock : W → SystemTime

abbrev pub Reply : Http → Type 0 → Type 0 → Type 0 → Type 0 → Type 0
Reply h R E S W = Result (Response h R) E × World S W

-- `resp.map(Into::into)`
abbrev pub into_body : {h : Http} {R W : Type 0} → Env h R W → Response h Text → Response h R
into_body env r = record { status = r.status; headers = r.headers; body = env.from_string r.body }

module _ {h : Http} {R E S W : Type 0} where
  abbrev pub annotate : RateLimitInfo → SystemTime → Reply h R E S W → Reply h R E S W
  annotate info at (ok r, w) = (ok (inject_headers h r info at), w)
  annotate info at (err e, w) = (err e, w)

module _ {h : Http} {B R E S W : Type 0} where
  -- `inner.call(req).await`
  unfoldable pub forward : Inner h B R E W → Request h B → World S W → Reply h R E S W
  forward inner req w = let (r, w') = inner req w.rest in (r, record w { rest = w' })

module _ {h : Http} {B R E S W : Type 0} (env : Env h R W) where
  -- An outcome, with the request that goes on to the inner service.
  unfoldable pub conclude :
      Inner h B R E W → Request h B → SystemTime → CheckOutcome h → World S W → Reply h R E S W
  conclude inner req at (CheckOutcome.allow info) w = annotate info at (forward inner req w)
  conclude inner req at (CheckOutcome.deny resp) w = (ok (into_body env resp), w)
  conclude inner req at pass_through w = forward inner req w

  -- An outcome that an earlier step returned: it is not `Allow`, which is `unreachable!()`.
  unfoldable pub short_circuit :
      Inner h B R E W → Request h B → CheckOutcome h → World S W → Panics (Reply h R E S W)
  short_circuit inner req (CheckOutcome.allow info) w = none
  short_circuit inner req (CheckOutcome.deny resp) w = some (ok (into_body env resp), w)
  short_circuit inner req pass_through w = some (forward inner req w)

  -- After the storage's answer.
  unfoldable pub conclude_checked :
      Settings h W
      → Inner h B R E W
      → Request h B
      → Text
      → Text
      → Decision × World S W
      → Reply h R E S W
  conclude_checked s inner req user_id tier_name (result, w) =
      let at = env.wall_clock w.rest in
      let (outcome, w') = process_result result user_id tier_name s at w.rest in
      conclude inner req at outcome (record w { rest = w' })

  -- From the quota on: the cost, the storage, and its answer.
  unfoldable pub charge :
      RateTier S W
      → Settings h W
      → Inner h B R E W
      → Request h B
      → Text
      → Text
      → Quota
      → World S W
      → Panics (Reply h R E S W)
  charge t s inner req user_id tier_name quota w =
      let cost = request_cost req.parts s in
      let (rejected, w1) = reject_cost_over_limit cost quota user_id tier_name s w.rest in
      let w2 = record w { rest = w1 } in
      elim rejected [
        | some resp ↦ some (ok (into_body env resp), w2)
        | none ↦
            ask_storage t (record { user_id = user_id; tier = tier_name }) quota cost (t.clock w1)
              w2
            >>= λ answer. some (conclude_checked s inner req user_id tier_name answer)
      ]

  -- The two `match`es on what an earlier step returned.
  abbrev pub charge_resolved :
      RateTier S W
      → Settings h W
      → Inner h B R E W
      → Request h B
      → Text
      → World S W
      → Result (Text × Quota) (CheckOutcome h)
      → Panics (Reply h R E S W)
  charge_resolved t s inner req user_id w (err outcome) = short_circuit inner req outcome w
  charge_resolved t s inner req user_id w (ok (tier_name, quota)) =
      charge t s inner req user_id tier_name quota w

  abbrev pub limit_identified :
      RateTier S W
      → Settings h W
      → Inner h B R E W
      → Request h B
      → World S W
      → Result (Text × Text) (CheckOutcome h)
      → Panics (Reply h R E S W)
  limit_identified t s inner req w (err outcome) = short_circuit inner req outcome w
  limit_identified t s inner req w (ok (user_id, tier_name)) =
      let (resolved, w1) = resolve_quota t user_id tier_name s w.rest in
      charge_resolved t s inner req user_id (record w { rest = w1 }) resolved

  -- From the identity on.
  unfoldable pub limit_request :
      RateTier S W
      → Settings h W
      → Inner h B R E W
      → Request h B
      → Option TierIdentity
      → World S W
      → Panics (Reply h R E S W)
  limit_request t s inner req identity w =
      limit_identified t s inner req w (resolve_identity identity t)

  -- `TierLimitService::call`
  unfoldable pub call :
      RateTier S W
      → Settings h W
      → Inner h B R E W
      → Request h B
      → World S W
      → Panics (Reply h R E S W)
  call t s inner req w =
      let (identity, w') = s.identifier.identify (h.headers req.parts) w.rest in
      limit_request t s inner req identity (record w { rest = w' })
