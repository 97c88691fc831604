-- ===== src/Apps/Jwt.antt =====
-- examples/axum_jwt.rs: the user and the tier from the claims of a token.
use tower_rate_tier.Layer.{new as new_settings}
use tower_rate_tier.Apps.{Web, read_header, with_tiers}
use tower_rate_tier.Http.{Http}
use tower_rate_tier.Layer.{Bytes, Settings, headers_only, identifier}
use tower_rate_tier.Policy.{TierIdentity}
use tower_rate_tier.Prelude.{
  ◌==◌, ◌>>=◌, Bool, List, Option, Panics, [], if◌then◌else◌, none, some, ℕ, ◌∷◌, ◌>>=◌,
}
use tower_rate_tier.Prelude.Text.{Text, codes}
use tower_rate_tier.Quota.{Nanos}
use tower_rate_tier.Storage.DashMap.{DashMap}
use tower_rate_tier.Tier.Builder.{Built, build}

-- The crates that read the claims: the decoder of base64, JSON's parser, and what the identifier
-- asks of a JSON value.
pub record Claims : Type 1 where
  pub Value : Type 0
  pub decode : Text → Option Bytes
  pub from_slice : Bytes → Option Value
  pub get : Value → Text → Option Value
  pub as_str : Value → Option Text

-- `str::strip_prefix`
unfoldable pub strip_prefix : Text → Text → Option Text
strip_prefix [] s = some s
strip_prefix (c ∷ prefix) [] = none
strip_prefix (c ∷ prefix) (a ∷ s) = if c == a then strip_prefix prefix s else none

-- One more character of the first part.
abbrev pub lengthen : ℕ → List Text → List Text
lengthen c [] = (c ∷ []) ∷ []
lengthen c (part ∷ parts) = (c ∷ part) ∷ parts

-- `str::split` at a character.
unfoldable pub split : ℕ → Text → List Text
split dot [] = [] ∷ []
split dot (c ∷ s) = let parts = split dot s in if c == dot then [] ∷ parts else lengthen c parts

-- The second of exactly three parts.
abbrev pub payload_part : List Text → Option Text
payload_part (header ∷ payload ∷ signature ∷ []) = some payload
payload_part _ = none

-- `.unwrap_or("free")`
abbrev pub or_free : Option Text → Text
or_free (some tier) = tier
or_free none = codes "free"

module _ {h : Http} (web : Web h) (claims : Claims) where
  unfoldable pub identify_claims : claims.Value → Option TierIdentity
  identify_claims value = do
    user ← claims.get value (codes "user_id")
    user_id ← claims.as_str user
    let tier = or_free (claims.get value (codes "tier") >>= claims.as_str) in
        some (record { user_id = user_id; tier = tier })

  unfoldable pub identify : h.HeaderMap → Option TierIdentity
  unfolding read_header strip_prefix split identify_claims
  identify headers = do
    auth ← read_header web (codes "authorization") headers
    token ← strip_prefix (codes "Bearer ") auth
    part ← payload_part (split 46 token)
    payload ← claims.decode part
    value ← claims.from_slice payload
    identify_claims value

  unfoldable pub layer_settings : {W : Type 0} → Settings h W
  unfolding identify
  layer_settings = identifier new_settings (headers_only (λ headers w. (identify headers, w)))

module _ {W : Type 0} (d : DashMap) (system_clock : W → Nanos) (in_runtime : W → Bool) where
  -- The limiter that `main` builds, over the built-in storage.
  unfoldable pub rate_tier : W → Panics (Built d ⊥ W)
  unfolding with_tiers
  rate_tier world = with_tiers >>= λ b. build d system_clock in_runtime b world
