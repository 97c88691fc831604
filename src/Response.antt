-- ===== src/Response.antt =====
-- src/response.rs: the headers and the replies of the middleware.
pub mod Headers
pub mod Reset
pub mod Escape
use tower_rate_tier.Duration.{Duration, ceil_secs}
use tower_rate_tier.Gcra.{RateLimitInfo, RateLimited, retry_after_secs}
use tower_rate_tier.Http.{
  HeaderName, Http, Response, content_type, x_ratelimit_limit, x_ratelimit_remaining,
  x_ratelimit_reset,
}
use tower_rate_tier.Policy.{StatusCode}
use tower_rate_tier.Prelude.{
  ◌%◌, ◌&&◌, ◌++◌, ◌/◌, ◌==◌, Bool, [], if◌then◌else◌, leb, ltb, none, some, u64_max, ◌||◌, ℕ, ◌∷◌,
}
use tower_rate_tier.Prelude.Text.{Text, codes, decimal, hex_digit}
use tower_rate_tier.SystemTime.{SystemTime, checked_add, since_epoch}

abbrev pub ok_status : StatusCode
ok_status = 200

abbrev pub bad_request : StatusCode
bad_request = 400

abbrev pub forbidden : StatusCode
forbidden = 403

abbrev pub payload_too_large : StatusCode
payload_too_large = 413

abbrev pub too_many_requests : StatusCode
too_many_requests = 429

abbrev pub service_unavailable : StatusCode
service_unavailable = 503

-- char::is_control
unfoldable pub is_control : ℕ → Bool
is_control c = ltb c 0x20 || (leb 0x7f c && ltb c 0xa0)

-- `format!("\\u{:04x}", c)`, for a `c` below 0x1_0000, as every control character is.
unfoldable pub unicode_escape : ℕ → Text
unfolding hex_digit
unicode_escape c =
    b'\\'
    ∷ b'u'
    ∷ hex_digit (c / 0x1000 % 0x10)
    ∷ hex_digit (c / 0x100 % 0x10)
    ∷ hex_digit (c / 0x10 % 0x10)
    ∷ hex_digit (c % 0x10)
    ∷ []

unfoldable pub escape_char : ℕ → Text
unfolding is_control unicode_escape
escape_char c =
    if c == b'"'
    then b'\\' ∷ b'"' ∷ []
    else if c == b'\\'
    then b'\\' ∷ b'\\' ∷ []
    else if is_control c
    then unicode_escape c
    else c ∷ []

unfoldable pub escape_json_string : Text → Text
unfolding escape_char
escape_json_string [] = []
escape_json_string (c ∷ s) = escape_char c ++ escape_json_string s

-- The seconds of the reset header.
unfoldable pub reset_secs : Duration → SystemTime → ℕ
unfolding checked_add since_epoch ceil_secs
reset_secs reset_after now = elim (checked_add now reset_after) [
  | some reset ↦ elim (since_epoch reset) [ some d ↦ ceil_secs d | none ↦ 0 ]
  | none ↦ u64_max
]

unfoldable pub reset_header_value : Duration → SystemTime → Text
unfolding reset_secs
reset_header_value reset_after now = decimal (reset_secs reset_after now)

module _ (h : Http) where
  unfoldable pub inject_headers :
      {B : Type 0} → Response h B → RateLimitInfo → SystemTime → Response h B
  inject_headers response info now =
      let h1 = h.insert response.headers x_ratelimit_limit (decimal info.limit) in
      let h2 = h.insert h1 x_ratelimit_remaining (decimal info.remaining) in
      let h3 = h.insert h2 x_ratelimit_reset (reset_header_value info.reset_after now) in
      record response { headers = h3 }

  unfoldable pub rate_limited_response : RateLimited → Text → SystemTime → Response h Text
  rate_limited_response limited tier now =
      let secs = retry_after_secs limited in
      let h1 = h.append h.no_headers content_type (codes "application/json") in
      let h2 = h.append h1 HeaderName.retry_after (decimal secs) in
      let h3 = h.append h2 x_ratelimit_limit (decimal limited.limit) in
      let h4 = h.append h3 x_ratelimit_remaining (decimal 0) in
      let h5 = h.append h4 x_ratelimit_reset (reset_header_value limited.reset_after now) in
      record {
        status = too_many_requests;
        headers = h5;
        body =
            codes "{\"error\":\"rate limit exceeded\",\"tier\":\""
            ++ escape_json_string tier
            ++ codes "\",\"retry_after\":"
            ++ decimal secs
            ++ codes "}";
      }

  -- A reply with a JSON body and no other header.
  abbrev pub json_response : StatusCode → Text → Response h Text
  json_response status body = record {
    status = status;
    headers = h.append h.no_headers content_type (codes "application/json");
    body = body;
  }

  unfoldable pub cost_exceeds_limit_response : Text → ℕ → ℕ → Response h Text
  cost_exceeds_limit_response tier cost limit' = json_response forbidden (
      codes "{\"error\":\"request cost exceeds tier limit\",\"tier\":\""
      ++ escape_json_string tier
      ++ codes "\",\"cost\":"
      ++ decimal cost
      ++ codes ",\"limit\":"
      ++ decimal limit'
      ++ codes "}")

  unfoldable pub canonical_reason : StatusCode → Text
  canonical_reason status = elim (h.canonical_reason status) [
    | some reason ↦ reason
    | none ↦ codes "request denied"
  ]

  unfoldable pub deny_response : StatusCode → Response h Text
  unfolding canonical_reason
  deny_response status =
      json_response status (codes "{\"error\":\"" ++ canonical_reason status ++ codes "\"}")

  unfoldable pub storage_error_response : Response h Text
  storage_error_response =
      json_response service_unavailable (codes "{\"error\":\"service unavailable\"}")

  unfoldable pub bad_request_response : Response h Text
  bad_request_response =
      json_response bad_request (codes "{\"error\":\"failed to read request body\"}")

  -- src/buffered.rs
  unfoldable pub payload_too_large_response : Response h Text
  payload_too_large_response =
      json_response payload_too_large (codes "{\"error\":\"payload too large\"}")
