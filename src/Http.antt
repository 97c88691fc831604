-- ===== src/Http.antt =====
-- The crate `http`, as the middleware uses it: header maps, the reasons of status codes, and the
-- parts of a request. Its operations and their documented behaviour are the parameter of the
-- modules that use it.
use tower_rate_tier.Policy.{StatusCode}
use tower_rate_tier.Prelude.{Bool, Option, false, if◌then◌else◌, none, some, true, ℕ, ◌≡◌}
use tower_rate_tier.Prelude.Text.{Text, text_eq}

-- The header names that the middleware writes, and those of others.
pub data HeaderName : Type 0 where
  content_type retry_after x_ratelimit_limit x_ratelimit_remaining x_ratelimit_reset : HeaderName
  other : Text → HeaderName

unfoldable pub same_name : HeaderName → HeaderName → Bool
same_name content_type content_type = true
same_name retry_after retry_after = true
same_name x_ratelimit_limit x_ratelimit_limit = true
same_name x_ratelimit_remaining x_ratelimit_remaining = true
same_name x_ratelimit_reset x_ratelimit_reset = true
same_name (other a) (other b) = text_eq a b
same_name _ _ = false

abbrev pub or_else {ℓ} : {A : Type ℓ} → Option A → Option A → Option A
or_else (some a) b = some a
or_else none b = b

pub record Http : Type 1 where
  pub HeaderMap : Type 0
  pub no_headers : HeaderMap
  -- The first value of a header.
  pub get : HeaderMap → HeaderName → Option Text
  -- `HeaderMap::insert` replaces; `append`, which a response's builder calls, adds a value.
  pub insert : HeaderMap → HeaderName → Text → HeaderMap
  pub append : HeaderMap → HeaderName → Text → HeaderMap
  pub canonical_reason : StatusCode → Option Text
  -- `request::Parts`: its headers, and its `TierCost` extension.
  pub Parts : Type 0
  pub headers : Parts → HeaderMap
  pub tier_cost : Parts → Option ℕ
  pub insert_tier_cost : ℕ → Parts → Parts
  pub get-no_headers : (n : HeaderName) → get no_headers n ≡ none
  pub get-insert :
      (h : HeaderMap) (n m : HeaderName) (v : Text)
      → get (insert h n v) m ≡ (if same_name n m then some v else get h m)
  pub get-append :
      (h : HeaderMap) (n m : HeaderName) (v : Text)
      → get (append h n v) m ≡ (if same_name n m then or_else (get h m) (some v) else get h m)
  pub tier_cost-insert : (c : ℕ) (p : Parts) → tier_cost (insert_tier_cost c p) ≡ some c
  -- An extension is no header.
  pub headers-insert : (c : ℕ) (p : Parts) → headers (insert_tier_cost c p) ≡ headers p

-- http::Response<B>
pub record Response (h : Http) (B : Type 0) : Type 0 where
  pub status : StatusCode
  pub headers : h.HeaderMap
  pub body : B

-- http::Request<B>
pub record Request (h : Http) (B : Type 0) : Type 0 where
  pub parts : h.Parts
  pub body : B
