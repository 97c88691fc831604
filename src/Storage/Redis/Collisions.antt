-- ===== src/Storage/Redis/Collisions.antt =====
-- When the keys of src/storage/redis.rs are equal.
use tower_rate_tier.Prelude.{
  ◌%◌, ◌+◌, ◌++◌, ◌/◌, ◌<◌, Bool, List, Option, [], ap, arith, false, none, refl, some, true, ℕ,
  ◌∷◌, ◌≡◌,
}
use tower_rate_tier.Prelude.Decimal.{
  cancel_prefix, decimal-IsDigits, decimal_injective, split_bytes, split_digits, split_end,
}
use tower_rate_tier.Prelude.Lists.{All, length}
use tower_rate_tier.Prelude.Text.{Text, byte_len, codes, decimal, hex_digit}
use tower_rate_tier.Storage.{StorageKey}
use tower_rate_tier.Storage.Redis.Key.{Sha1, hex, hmac_sha1, redis_key, user_digest}

plain_key_injective :
    (sha1 : Sha1) (secret : Option (List ℕ)) (prefix : Text) (j k : StorageKey)
    → redis_key sha1 false secret prefix j ≡ redis_key sha1 false secret prefix k
    → (j.user_id ≡ k.user_id) × (j.tier ≡ k.tier)
unfolding redis_key
plain_key_injective sha1 secret prefix j k e =
    let (n, rest) =
      split_digits (decimal (byte_len j.tier)) (decimal (byte_len k.tier)) _ _
        (decimal-IsDigits (byte_len j.tier)) (decimal-IsDigits (byte_len k.tier))
        (cancel_prefix prefix _ _ e) in
    let (tier, user) = split_bytes j.tier k.tier _ _ (decimal_injective _ _ n) rest in
    (ground arith, tier)

length-hex : (bytes : List ℕ) → length (hex bytes) ≡ length bytes + length bytes
unfolding hex
length-hex [] = refl
length-hex (b ∷ bytes) = omega (arith, length-hex bytes)

hex_digit_injective : (m n : ℕ) → m < 16 → n < 16 → hex_digit m ≡ hex_digit n → m ≡ n
unfolding hex_digit
hex_digit_injective m n h k e = ground arith

hex_injective :
    (xs ys : List ℕ) → All (λ b. b < 256) xs → All (λ b. b < 256) ys → hex xs ≡ hex ys → xs ≡ ys
unfolding hex
hex_injective [] [] h k e = refl
hex_injective [] (y ∷ ys) h k e = absurd (ground arith)
hex_injective (x ∷ xs) [] h k e = absurd (ground arith)
hex_injective (x ∷ xs) (y ∷ ys) h k e =
    let a =
      hex_digit_injective (x / 16) (y / 16) (omega (arith, h.0)) (omega (arith, k.0))
        (ground arith) in
    let b = hex_digit_injective (x % 16) (y % 16) (omega arith) (omega arith) (ground arith) in
    let c = hex_injective xs ys h.1 k.1 (ground arith) in
    let d : x ≡ y = omega arith in ground arith

length-user_digest :
    (sha1 : Sha1) (secret : Option (List ℕ)) (user : Text)
    → length (user_digest sha1 secret user) ≡ 20
unfolding user_digest hmac_sha1
length-user_digest sha1 none user = sha1.digest_length _
length-user_digest sha1 (some secret) user = sha1.digest_length _

user_digest-All :
    (sha1 : Sha1) (secret : Option (List ℕ)) (user : Text)
    → All (λ b. b < 256) (user_digest sha1 secret user)
unfolding user_digest hmac_sha1
user_digest-All sha1 none user = sha1.digest_bytes _
user_digest-All sha1 (some secret) user = sha1.digest_bytes _

hashed_key_injective :
    (sha1 : Sha1) (secret : Option (List ℕ)) (prefix : Text) (j k : StorageKey)
    → redis_key sha1 true secret prefix j ≡ redis_key sha1 true secret prefix k
    → (user_digest sha1 secret j.user_id ≡ user_digest sha1 secret k.user_id) × (j.tier ≡ k.tier)
unfolding redis_key
hashed_key_injective sha1 secret prefix j k e =
    let a = user_digest sha1 secret j.user_id in
    let b = user_digest sha1 secret k.user_id in
    let (tier, rest) =
      split_end j.tier k.tier (codes ":" ++ hex a) (codes ":" ++ hex b)
        (omega (
          arith,
          length-hex a,
          length-hex b,
          length-user_digest sha1 secret j.user_id,
          length-user_digest sha1 secret k.user_id,
        ))
        (cancel_prefix prefix _ _ e) in
    (
      hex_injective a b (user_digest-All sha1 secret j.user_id)
          (user_digest-All sha1 secret k.user_id) (ground arith),
      tier,
    )

-- Two buckets with the same key have the same tier. With plain user ids they also have the same
-- user, whatever separators the names contain; with hashed ones their users have the same digest,
-- also when a secret is set.
pub redis_key-collides :
    (sha1 : Sha1) (secret : Option (List ℕ)) (hashed : Bool) (prefix : Text) (j k : StorageKey)
    → redis_key sha1 hashed secret prefix j ≡ redis_key sha1 hashed secret prefix k
    → (j.tier ≡ k.tier)
      × (hashed ≡ false → j.user_id ≡ k.user_id)
      × (user_digest sha1 secret j.user_id ≡ user_digest sha1 secret k.user_id)
redis_key-collides sha1 secret false prefix j k e =
    let (user, tier) = plain_key_injective sha1 secret prefix j k e in
    (tier, λ h. user, ap (user_digest sha1 secret) user)
redis_key-collides sha1 secret true prefix j k e =
    let (digest, tier) = hashed_key_injective sha1 secret prefix j k e in
    (tier, λ h. absurd (ground arith), digest)
