-- ===== src/Storage/Redis/Key.antt =====
-- The keys of src/storage/redis.rs.
use Prim.Native.Nat.{bit_xor}
use tower_rate_tier.Prelude.{
  ◌%◌, ◌++◌, ◌/◌, ◌<◌, Bool, List, Option, [], false, if◌then◌else◌, ltb, none, some, suc, true,
  zero, ℕ, ◌∷◌, ◌≡◌,
}
use tower_rate_tier.Prelude.Lists.{All, length}
use tower_rate_tier.Prelude.Text.{Text, as_bytes, byte_len, codes, decimal, hex_digit}
use tower_rate_tier.Storage.{StorageKey}

-- The crate `sha1_smol`: a digest of 20 bytes. Updates in turn are one update by the bytes joined.
pub record Sha1 : Type 0 where
  pub digest : List ℕ → List ℕ
  pub digest_length : (m : List ℕ) → length (digest m) ≡ 20
  pub digest_bytes : (m : List ℕ) → All (λ b. b < 256) (digest m)

-- `Display` of a digest: two lower-case digits for each byte.
unfoldable pub hex : List ℕ → Text
unfolding hex_digit
hex [] = []
hex (b ∷ bs) = hex_digit (b / 16) ∷ hex_digit (b % 16) ∷ hex bs

-- `bytes`, and zeros up to the size of a block.
unfoldable pub pad : ℕ → List ℕ → List ℕ
pad zero bytes = []
pad (suc n) [] = 0 ∷ pad n []
pad (suc n) (b ∷ bytes) = b ∷ pad n bytes

abbrev pub block : ℕ
block = 64

abbrev pub xor_all : ℕ → List ℕ → List ℕ
xor_all k [] = []
xor_all k (b ∷ bs) = bit_xor b k ∷ xor_all k bs

module _ (sha1 : Sha1) where
  -- The key of `hmac_sha1`: the secret, or its digest if it is longer than a block.
  unfoldable pub hmac_key : List ℕ → List ℕ
  unfolding pad
  hmac_key secret =
      if ltb block (length secret) then pad block (sha1.digest secret) else pad block secret

  unfoldable pub hmac_sha1 : List ℕ → List ℕ → List ℕ
  unfolding hmac_key
  hmac_sha1 secret message =
      let key = hmac_key secret in
      let inner = sha1.digest (xor_all 0x36 key ++ message) in
      sha1.digest (xor_all 0x5c key ++ inner)

  unfoldable pub user_digest : Option (List ℕ) → Text → List ℕ
  unfolding hmac_sha1 as_bytes
  user_digest (some secret) user_id = hmac_sha1 secret (as_bytes user_id)
  user_digest none user_id = sha1.digest (as_bytes user_id)

  unfoldable pub redis_key : Bool → Option (List ℕ) → Text → StorageKey → Text
  unfolding user_digest hex decimal byte_len
  redis_key true secret prefix key =
      prefix ++ (key.tier ++ (codes ":" ++ hex (user_digest secret key.user_id)))
  redis_key false secret prefix key =
      prefix
      ++ (decimal (byte_len key.tier) ++ (codes ":" ++ (key.tier ++ (codes ":" ++ key.user_id))))
