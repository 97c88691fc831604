-- ===== src/Response/Headers.antt =====
-- The headers of the replies of src/response.rs.
use tower_rate_tier.Gcra.{RateLimitInfo, RateLimited, retry_after_secs}
use tower_rate_tier.Http.{
  HeaderName, Http, Response, content_type, or_else, other, same_name, x_ratelimit_limit,
  x_ratelimit_remaining, x_ratelimit_reset,
}
use tower_rate_tier.Prelude.{Option, if◌then◌else◌, none, refl, some, ℕ, ◌≡◌}
use tower_rate_tier.Prelude.Text.{Text, codes, decimal}
use tower_rate_tier.Response.{
  inject_headers, rate_limited_response, reset_header_value, reset_secs, too_many_requests,
}
use tower_rate_tier.Response.Reset.{ResetsAt, reset_secs-ResetsAt}
use tower_rate_tier.SystemTime.{SystemTime}

module _ (h : Http) where
  get-three :
      (m : h.HeaderMap) (a b c n : HeaderName) (u v w : Text)
      → h.get (h.insert (h.insert (h.insert m a u) b v) c w) n ≡ (
          if same_name c n
          then some w
          else if same_name b n
          then some v
          else if same_name a n
          then some u
          else h.get m n)
  get-three m a b c n u v w =
      rw
        (
          h.get-insert (h.insert (h.insert m a u) b v) c n w,
          h.get-insert (h.insert m a u) b n v,
          h.get-insert m a n u,
        )
        refl

  -- `r` with the three rate headers; its other headers, its status and its body are as they were.
  abbrev pub IsAnnotated :
      {B : Type 0} → Response h B → RateLimitInfo → SystemTime → Text → Response h B → Type 0
  IsAnnotated r i now name out =
      (h.get out.headers x_ratelimit_limit ≡ some (decimal i.limit))
      × (h.get out.headers x_ratelimit_remaining ≡ some (decimal i.remaining))
      × ((secs : ℕ) × (h.get out.headers x_ratelimit_reset ≡ some (decimal secs))
          × ResetsAt now i.reset_after secs)
      × (h.get out.headers HeaderName.retry_after ≡ h.get r.headers HeaderName.retry_after)
      × (h.get out.headers content_type ≡ h.get r.headers content_type)
      × (h.get out.headers (other name) ≡ h.get r.headers (other name))
      × (out.status ≡ r.status)
      × (out.body ≡ r.body)

  -- After `inject_headers` a reply has the three rate headers, also if the wrapped service set them:
  -- the limit, what remains, and the seconds since the epoch at which the bucket is full, rounded
  -- up, 0 if that is before the epoch, and u64::MAX if the system's clock cannot tell that moment.
  -- Its other headers, its status and its body are as they were.
  pub inject_headers-IsAnnotated :
      {B : Type 0} (r : Response h B) (i : RateLimitInfo) (now : SystemTime) (name : Text)
      → IsAnnotated r i now name (inject_headers h r i now)
  unfolding inject_headers same_name reset_header_value
  inject_headers-IsAnnotated r i now name =
      let injected = λ (n : HeaderName).
        get-three r.headers x_ratelimit_limit x_ratelimit_remaining x_ratelimit_reset n
          (decimal i.limit) (decimal i.remaining) (reset_header_value i.reset_after now) in
      (
        injected x_ratelimit_limit,
        injected x_ratelimit_remaining,
        (
          reset_secs i.reset_after now,
          injected x_ratelimit_reset,
          reset_secs-ResetsAt now i.reset_after,
        ),
        injected HeaderName.retry_after,
        injected content_type,
        injected (other name),
        refl,
        refl,
      )

-- A header's first value after another value was appended to a header.
abbrev value : Option Text → HeaderName → Text → HeaderName → Option Text
value old a v n = if same_name a n then or_else old (some v) else old

module _ (h : Http) where
  get-five :
      (a b c d e n : HeaderName) (u v w x y : Text)
      → h.get
          (h.append (h.append (h.append (h.append (h.append h.no_headers a u) b v) c w) d x) e y)
          n
        ≡ value (value (value (value (value none a u n) b v n) c w n) d x n) e y n
  get-five a b c d e n u v w x y =
      let h1 = h.append h.no_headers a u in
      let h2 = h.append h1 b v in
      let h3 = h.append h2 c w in
      let h4 = h.append h3 d x in
      rw
        (
          h.get-append h4 e n y,
          h.get-append h3 d n x,
          h.get-append h2 c n w,
          h.get-append h1 b n v,
          h.get-append h.no_headers a n u,
          h.get-no_headers n,
        )
        refl

  -- A refusal: 429, when to come back in whole seconds, the limit, that nothing is left, when the
  -- bucket is full, that the body is JSON, and no other header.
  abbrev pub IsRefusal : RateLimited → SystemTime → Text → Response h Text → Type 0
  IsRefusal l now name out =
      (out.status ≡ too_many_requests)
      × (h.get out.headers HeaderName.retry_after ≡ some (decimal (retry_after_secs l)))
      × (h.get out.headers x_ratelimit_limit ≡ some (decimal l.limit))
      × (h.get out.headers x_ratelimit_remaining ≡ some (codes "0"))
      × (h.get out.headers x_ratelimit_reset ≡ some (reset_header_value l.reset_after now))
      × (h.get out.headers content_type ≡ some (codes "application/json"))
      × (h.get out.headers (other name) ≡ none)

  -- The reply to a refused request has status 429, and its headers say when to come back in whole
  -- seconds, the limit, that nothing is left, when the bucket is full, and that the body is JSON;
  -- it has no other header.
  pub rate_limited_response-IsRefusal :
      (l : RateLimited) (tier : Text) (now : SystemTime) (name : Text)
      → IsRefusal l now name (rate_limited_response h l tier now)
  unfolding rate_limited_response same_name decimal
  rate_limited_response-IsRefusal l tier now name =
      let given = λ (n : HeaderName).
        get-five content_type HeaderName.retry_after x_ratelimit_limit x_ratelimit_remaining
          x_ratelimit_reset n (codes "application/json") (decimal (retry_after_secs l))
          (decimal l.limit) (decimal 0) (reset_header_value l.reset_after now) in
      (
        refl,
        given HeaderName.retry_after,
        given x_ratelimit_limit,
        given x_ratelimit_remaining,
        given x_ratelimit_reset,
        given content_type,
        given (other name),
      )
