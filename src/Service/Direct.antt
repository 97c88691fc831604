-- ===== src/Service/Direct.antt =====
-- The middleware of src/service.rs against the check without HTTP of src/tier.rs.
use tower_rate_tier.Tier.{check as check_directly}
use tower_rate_tier.Check.{
  reject_cost_over_limit, report, request_cost, resolve_identity, resolve_quota,
}
use tower_rate_tier.Gcra.{RateLimitInfo, RateLimited}
use tower_rate_tier.Http.{Http, Request, Response}
use tower_rate_tier.Layer.{LimitEvent, Settings}
use tower_rate_tier.Policy.{TierIdentity}
use tower_rate_tier.Prelude.{
  ◌>>=◌, Bool-cases, Option, Panics, Result, ap, arith, err, false, if◌then◌else◌, inl, inr, leb,
  ltb, none, ok, refl, some, true, ℕ, ◌≡◌,
}
use tower_rate_tier.Prelude.Text.{Text}
use tower_rate_tier.Quota.{Quota, is_unlimited}
use tower_rate_tier.Response.{cost_exceeds_limit_response}
use tower_rate_tier.Service.{
  Env, Inner, Reply, charge, conclude_checked, forward, into_body, limit_request, short_circuit,
}
use tower_rate_tier.Storage.{Decision}
use tower_rate_tier.Tier.{CheckError, RateTier, World, ask_storage, checked, get_quota}

module _ {h : Http} {B R E S W : Type 0} (env : Env h R W) (s : Settings h W)
    (inner : Inner h B R E W) (req : Request h B) (user_id tier : Text) (q : Quota) where
  -- What the middleware makes of the answer that `RateTier::check` gives. A configured tier is not
  -- unknown.
  abbrev pub reply_to :
      Result (Result RateLimitInfo RateLimited) CheckError × World S W → Panics (Reply h R E S W)
  reply_to (err (CheckError.cost_exceeds_limit cost limit), w) = some (
    ok (into_body env (cost_exceeds_limit_response h tier cost limit)),
    record w { rest = report s (LimitEvent.cost_exceeds_limit user_id tier cost limit) w.rest },
  )
  reply_to (err (CheckError.storage e), w) =
      some (conclude_checked env s inner req user_id tier (err e, w))
  reply_to (err (CheckError.unknown_tier name), w) = none
  reply_to (ok answer, w) =
      if is_unlimited q
      then some (forward inner req w)
      else some (conclude_checked env s inner req user_id tier (ok answer, w))

module _ {h : Http} {W : Type 0} (s : Settings h W) (cost : ℕ) (q : Quota) (user_id tier : Text)
    (w : W) where
  cost-fits :
      leb cost q.max_burst ≡ true → reject_cost_over_limit cost q user_id tier s w ≡ (none, w)
  unfolding reject_cost_over_limit
  cost-fits e = rw e refl

  cost_over_limit :
      leb cost q.max_burst ≡ false
      → reject_cost_over_limit cost q user_id tier s w ≡ (
        some (cost_exceeds_limit_response h tier cost q.max_burst),
        report s (LimitEvent.cost_exceeds_limit user_id tier cost q.max_burst) w,
      )
  unfolding reject_cost_over_limit
  cost_over_limit e = rw e refl

module _ {h : Http} {B R E S W : Type 0} (env : Env h R W) (t : RateTier S W) (s : Settings h W)
    (inner : Inner h B R E W) (req : Request h B) where
  answered-reply_to :
      (user_id tier : Text) (q : Quota) (asked : Panics (Decision × World S W))
      → is_unlimited q ≡ false
      → (asked >>= λ answer. some (conclude_checked env s inner req user_id tier answer))
        ≡ (asked >>= (λ reply. some (checked reply)) >>= reply_to env s inner req user_id tier q)
  answered-reply_to user_id tier q none limited = refl
  answered-reply_to user_id tier q (some (ok answer, w)) limited = rw limited
  answered-reply_to user_id tier q (some (err e, w)) limited = refl

  -- `charge` from the test of the cost on.
  abbrev after_cost :
      Text → Text → Quota → World S W → Option (Response h Text) × W → Panics (Reply h R E S W)
  after_cost user_id tier q w p = elim p.0 [
    | some resp ↦ some (ok (into_body env resp), record w { rest = p.1 })
    | none ↦
        ask_storage t (record { user_id = user_id; tier = tier }) q (request_cost req.parts s)
          (t.clock p.1) (record w { rest = p.1 })
        >>= λ answer. some (conclude_checked env s inner req user_id tier answer)
  ]

  charge-after_cost :
      (user_id tier : Text) (q : Quota) (w : World S W) (p : Option (Response h Text) × W)
      → reject_cost_over_limit (request_cost req.parts s) q user_id tier s w.rest ≡ p
      → charge env t s inner req user_id tier q w ≡ after_cost user_id tier q w p
  unfolding charge
  charge-after_cost user_id tier q w p e = ap (after_cost user_id tier q w) e

  pub charge-fits :
      (user_id tier : Text) (q : Quota) (w : World S W)
      → leb (request_cost req.parts s) q.max_burst ≡ true
      → charge env t s inner req user_id tier q w ≡ (
          ask_storage t
            (record { user_id = user_id; tier = tier })
            q
            (request_cost req.parts s)
            (t.clock w.rest)
            w
          >>= λ answer. some (conclude_checked env s inner req user_id tier answer))
  charge-fits user_id tier q w e =
      charge-after_cost user_id tier q w _
        (cost-fits s (request_cost req.parts s) q user_id tier w.rest e)

  pub charge_over_limit :
      (user_id tier : Text) (q : Quota) (w : World S W)
      → leb (request_cost req.parts s) q.max_burst ≡ false
      → charge env t s inner req user_id tier q w
        ≡ some (
          ok (
              into_body env
                (cost_exceeds_limit_response h tier (request_cost req.parts s) q.max_burst)),
          record w {
            rest =
                report s
                  (LimitEvent.cost_exceeds_limit user_id tier
                    (request_cost req.parts s)
                    q.max_burst)
                  w.rest;
          },
        )
  charge_over_limit user_id tier q w e =
      charge-after_cost user_id tier q w _
        (cost_over_limit s (request_cost req.parts s) q user_id tier w.rest e)

  pub limit_request-asked :
      (id : TierIdentity) (q : Quota) (w w' : World S W) (a : Decision)
      → get_quota t id.tier ≡ some q
      → is_unlimited q ≡ false
      → leb (request_cost req.parts s) q.max_burst ≡ true
      → ask_storage t
          (record { user_id = id.user_id; tier = id.tier })
          q
          (request_cost req.parts s)
          (t.clock w.rest)
          w
        ≡ some (a, w')
      → limit_request env t s inner req (some id) w
        ≡ some (conclude_checked env s inner req id.user_id id.tier (a, w'))
  unfolding limit_request resolve_identity resolve_quota
  limit_request-asked id q w w' a known limited cheap asked =
      rw (known, limit_request, resolve_identity, resolve_quota, limited)
        (rw (charge-fits id.user_id id.tier q w cheap, asked) refl)

  charge-check :
      (user_id tier : Text) (q : Quota) (w : World S W)
      → get_quota t tier ≡ some q
      → is_unlimited q ≡ false
      → charge env t s inner req user_id tier q w ≡ (
          check_directly t user_id tier (request_cost req.parts s) w
          >>= reply_to env s inner req user_id tier q)
  unfolding check_directly
  charge-check user_id tier q w known limited =
      let cost = request_cost req.parts s in
      elim (Bool-cases (leb cost q.max_burst)) [
        | inl e ↦
            let f : ltb q.max_burst cost ≡ false = ground arith in
            rw (charge-fits user_id tier q w e) (
              rw (check_directly, known, limited, f)
                (answered-reply_to user_id tier q
                  (ask_storage t (record { user_id = user_id; tier = tier }) q cost (t.clock w.rest)
                    w)
                  limited))
        | inr e ↦
            let f : ltb q.max_burst cost ≡ true = ground arith in
            rw (charge_over_limit user_id tier q w e) (rw (check_directly, known, limited, f) refl)
      ]

  -- Take a request with an identity whose tier is configured. The middleware does what
  -- `RateTier::check` of the same user, tier and cost says: it rejects a cost over the limit and
  -- reports it, lets an unlimited tier through as it is, and treats the storage's answer, also an
  -- error or a panic, as the answer to the request, in the same world.
  pub limit_request-check :
      (id : TierIdentity) (q : Quota) (w : World S W)
      → get_quota t id.tier ≡ some q
      → limit_request env t s inner req (some id) w ≡ (
          check_directly t id.user_id id.tier (request_cost req.parts s) w
          >>= reply_to env s inner req id.user_id id.tier q)
  unfolding limit_request resolve_identity resolve_quota short_circuit check_directly
  limit_request-check id q w known = elim (Bool-cases (is_unlimited q)) [
    | inl e ↦ rw (limit_request, resolve_identity, resolve_quota, known, e, check_directly) (rw e)
    | inr e ↦
        rw (known, limit_request, resolve_identity, resolve_quota, e)
          (charge-check id.user_id id.tier q w known e)
  ]
