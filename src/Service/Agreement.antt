-- ===== src/Service/Agreement.antt =====
-- The two services of src/service.rs and src/buffered.rs against each other.
use tower_rate_tier.Check.{CheckOutcome, pass_through, reject_cost_over_limit, request_cost}
use tower_rate_tier.Gcra.{RateLimitInfo}
use tower_rate_tier.Http.{Http, Request, Response}
use tower_rate_tier.Layer.{Bytes, Settings}
use tower_rate_tier.Prelude.{
  ◌<◌, ◌>>=◌, Bool-cases, Option, Option-cases, Result, ap, arith, err, false, inl, inr, ltb, none,
  ok, refl, some, ℕ, ◌≡◌, ◌≢◌, ◌≤◌, ◌⊎◌,
}
use tower_rate_tier.Prelude.Text.{Text}
use tower_rate_tier.Quota.{Quota}
use tower_rate_tier.Response.{
  bad_request, bad_request_response, payload_too_large, payload_too_large_response,
}
use tower_rate_tier.Service.{
  Env, Inner, annotate, call, charge, charge_resolved, conclude, conclude_checked, forward,
  into_body, limit_identified, limit_request, short_circuit,
}
use tower_rate_tier.Service.Buffered.{
  BodyReader, Collected, body_failed, call_buffered, call_inner, charged, checked, collected,
  from_parts, identified, identity_resolved, quota_resolved, reply, return_early, too_long,
  with_headers,
}
use tower_rate_tier.Storage.{Decision}
use tower_rate_tier.SystemTime.{SystemTime}
use tower_rate_tier.Tier.{RateTier, World}

hint-fits :
    {B : Type 0} (reader : BodyReader B) (limit : ℕ) (b : B) (bytes : Bytes)
    → reader.collect_limited limit b ≡ collected bytes
    → ltb limit (reader.size_hint_lower b) ≡ false
hint-fits reader limit b bytes e =
    ground (arith, reader.within_limit limit b bytes e, reader.hint_holds limit b bytes e)

Collected-cases :
    (c : Collected) → ((bytes : Bytes) × (c ≡ collected bytes)) ⊎ (c ≡ too_long) ⊎ (c ≡ body_failed)
Collected-cases (collected bytes) = inl (bytes, refl)
Collected-cases too_long = inr (inl refl)
Collected-cases body_failed = inr (inr refl)

bind_same :
    {A B : Type 0} (m : Option A) (f g : A → Option B)
    → ((a : A) → f a ≡ g a)
    → (m >>= f) ≡ (m >>= g)
bind_same none f g e = refl
bind_same (some a) f g e = e a

module _ {h : Http} {R E S W : Type 0} where
  with_headers-annotate :
      (info : RateLimitInfo) (at : SystemTime) (r : Result (Response h R) E) (w : World S W)
      → (with_headers info at r, w) ≡ annotate info at (r, w)
  unfolding with_headers
  with_headers-annotate info at (ok r) w = refl
  with_headers-annotate info at (err e) w = refl

module _ {h : Http} {R E S W : Type 0} (env : Env h R W) (inner : Inner h Bytes R E W)
    (parts : h.Parts) (bytes : Bytes) where
  reply-conclude :
      (at : SystemTime) (outcome : CheckOutcome h) (w : World S W)
      → reply env inner parts bytes at outcome w
        ≡ conclude env inner (from_parts parts bytes) at outcome w
  unfolding reply call_inner conclude forward
  reply-conclude at (CheckOutcome.allow info) w =
      with_headers-annotate info at (inner (from_parts parts bytes) w.rest).0 _
  reply-conclude at (CheckOutcome.deny resp) w = refl
  reply-conclude at pass_through w = refl

  return_early-short_circuit :
      (outcome : CheckOutcome h) (w : World S W)
      → return_early env inner parts bytes outcome w
        ≡ short_circuit env inner (from_parts parts bytes) outcome w
  unfolding return_early call_inner short_circuit forward
  return_early-short_circuit (CheckOutcome.allow info) w = refl
  return_early-short_circuit (CheckOutcome.deny resp) w = refl
  return_early-short_circuit pass_through w = refl

module _ {h : Http} {R E S W : Type 0} (env : Env h R W) (t : RateTier S W) (s : Settings h W)
    (inner : Inner h Bytes R E W) (parts : h.Parts) (bytes : Bytes) where
  checked-conclude_checked :
      (user_id tier : Text) (answer : Decision × World S W)
      → checked env t s inner parts bytes user_id tier answer.0 answer.1
        ≡ conclude_checked env s inner (from_parts parts bytes) user_id tier answer
  unfolding checked conclude_checked
  checked-conclude_checked user_id tier (result, w) = reply-conclude env inner parts bytes _ _ _

  charged-charge :
      (user_id tier : Text) (q : Quota) (w : World S W)
      → charged env t s inner parts bytes user_id tier q w
        ≡ charge env t s inner (from_parts parts bytes) user_id tier q w
  unfolding charged charge
  charged-charge user_id tier q w =
      elim (Option-cases
        (reject_cost_over_limit (request_cost parts s) q user_id tier s w.rest).0) [
          | inl e ↦
              rw (e, charged, charge)
                (bind_same _ _ _ (λ answer. ap some (checked-conclude_checked user_id tier answer)))
          | inr (resp, e) ↦ rw (e, charged, charge) refl
        ]

  quota_resolved-charge_resolved :
      (user_id : Text) (w : World S W) (r : Result (Text × Quota) (CheckOutcome h))
      → quota_resolved env t s inner parts bytes user_id w r
        ≡ charge_resolved env t s inner (from_parts parts bytes) user_id w r
  unfolding quota_resolved
  quota_resolved-charge_resolved user_id w (ok (tier, q)) = charged-charge user_id tier q w
  quota_resolved-charge_resolved user_id w (err outcome) =
      return_early-short_circuit env inner parts bytes outcome w

  identity_resolved-limit_identified :
      (w : World S W) (r : Result (Text × Text) (CheckOutcome h))
      → identity_resolved env t s inner parts bytes w r
        ≡ limit_identified env t s inner (from_parts parts bytes) w r
  unfolding identity_resolved
  identity_resolved-limit_identified w (ok (user_id, tier)) =
      quota_resolved-charge_resolved user_id _ _
  identity_resolved-limit_identified w (err outcome) =
      return_early-short_circuit env inner parts bytes outcome w

module _ {h : Http} {B R E S W : Type 0} (env : Env h R W) (reader : BodyReader B) where
  -- A body that could be read within the limit: if the identifier takes the same identity from the
  -- headers with this body as without one, then the buffering service does to the request what the
  -- plain service does to the request with the bytes of the body.
  pub call_buffered-call :
      (limit : ℕ) (t : RateTier S W) (s : Settings h W) (inner : Inner h Bytes R E W)
      (req : Request h B) (bytes : Bytes) (w : World S W)
      → reader.collect_limited limit req.body ≡ collected bytes
      → s.identifier.identify_with_body (h.headers req.parts) bytes w.rest
        ≡ s.identifier.identify (h.headers req.parts) w.rest
      → call_buffered env reader limit t s inner req w
        ≡ call env t s inner (record { parts = req.parts; body = bytes }) w
  unfolding call_buffered identified call limit_request
  call_buffered-call limit t s inner req bytes w e same =
      rw (hint-fits reader limit req.body bytes e, e, same)
        (identity_resolved-limit_identified env t s inner req.parts bytes _ _)

  -- A body that could not be read within the limit is answered with 413 when it declares more than
  -- the limit or reading it crossed the limit, and with 400 when it declares no more and reading it
  -- failed; and the world, with the storage and what the identifier and the wrapped service change,
  -- stays as it was.
  pub call_buffered-rejects :
      (limit : ℕ) (t : RateTier S W) (s : Settings h W) (inner : Inner h Bytes R E W)
      (req : Request h B) (w : World S W)
      → ((bytes : Bytes) → reader.collect_limited limit req.body ≢ collected bytes)
      → (r : Response h Text) × (call_buffered env reader limit t s inner req w
          ≡ some (ok (into_body env r), w))
        × (((limit < reader.size_hint_lower req.body
                ⊎ reader.collect_limited limit req.body ≡ too_long)
              × (r.status ≡ payload_too_large))
            ⊎ ((reader.size_hint_lower req.body ≤ limit)
                × (reader.collect_limited limit req.body ≡ body_failed)
                × (r.status ≡ bad_request)))
  unfolding call_buffered payload_too_large_response bad_request_response
  call_buffered-rejects limit t s inner req w failed =
      elim (Bool-cases (ltb limit (reader.size_hint_lower req.body))) [
        | inl e ↦ (payload_too_large_response h, rw e, inl (inl (ground arith), refl))
        | inr e ↦ elim (Collected-cases (reader.collect_limited limit req.body)) [
          | inl (bytes, c) ↦ absurd (failed bytes c)
          | inr (inl c) ↦ (payload_too_large_response h, rw (e, c), inl (inr c, refl))
          | inr (inr c) ↦ (bad_request_response h, rw (e, c), inr (ground arith, c, refl))
        ]
      ]
