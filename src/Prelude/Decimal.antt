-- ===== src/Prelude/Decimal.antt =====
-- Decimal numbers can be read back, and texts can be split where they were joined.
use tower_rate_tier.Prelude.{
  ◌%◌, ◌*◌, ◌+◌, ◌++◌, ◌-◌, ◌/◌, ◌<◌, Bool-cases, [], ap, arith, inl, inr, ltb, refl, suc, sym,
  zero, ℕ, ◌∙◌, ◌∷◌, ◌≡◌,
}
use tower_rate_tier.Prelude.Lists.{length, length-append}
use tower_rate_tier.Prelude.Text.{Text, as_bytes, byte_len, decimal, digits_from, utf8_char}

-- The number that digits continue.
abbrev pub read_digits : Text → ℕ → ℕ
read_digits [] v = v
read_digits (c ∷ s) v = read_digits s (v * 10 + (c - 48))

read-digits_from :
    (fuel n : ℕ) (acc : Text)
    → n < fuel
    → read_digits (digits_from fuel n acc) 0 ≡ read_digits acc n
unfolding digits_from
read-digits_from zero n acc h = absurd (omega arith)
read-digits_from (suc fuel) n acc h = elim (Bool-cases (ltb n 10)) [
  | inl e ↦ rw (e, digits_from) (ap (read_digits acc) (omega arith))
  | inr e ↦
      rw (e, digits_from)
        (read-digits_from fuel (n / 10) ((48 + n % 10) ∷ acc) (ground arith)
          ∙ ap (read_digits acc) (omega arith))
]

pub read_digits-decimal : (n : ℕ) → read_digits (decimal n) 0 ≡ n
unfolding decimal
read_digits-decimal n = read-digits_from (suc n) n [] (omega arith)

pub decimal_injective : (m n : ℕ) → decimal m ≡ decimal n → m ≡ n
decimal_injective m n e =
    sym (read_digits-decimal m) ∙ ap (λ s. read_digits s 0) e ∙ read_digits-decimal n

abbrev pub IsDigits : Text → Type 0
IsDigits [] = Unit
IsDigits (c ∷ s) = (c < 58) × IsDigits s

digits_from-IsDigits : (fuel n : ℕ) (acc : Text) → IsDigits acc → IsDigits (digits_from fuel n acc)
unfolding digits_from
digits_from-IsDigits zero n acc h = h
digits_from-IsDigits (suc fuel) n acc h = elim (Bool-cases (ltb n 10)) [
  | inl e ↦ rw (e, digits_from) (ground arith, h)
  | inr e ↦
      rw (e, digits_from)
        (digits_from-IsDigits fuel (n / 10) ((48 + n % 10) ∷ acc) (omega arith, h))
]

pub decimal-IsDigits : (n : ℕ) → IsDigits (decimal n)
unfolding decimal
decimal-IsDigits n = digits_from-IsDigits (suc n) n [] tt

-- Digits end at the first colon.
pub split_digits :
    (xs ys u v : Text)
    → IsDigits xs
    → IsDigits ys
    → xs ++ 58 ∷ u ≡ ys ++ 58 ∷ v
    → (xs ≡ ys) × (u ≡ v)
split_digits [] [] u v h k e = (refl, ground arith)
split_digits [] (y ∷ ys) u v h k e = absurd (ground arith)
split_digits (x ∷ xs) [] u v h k e = absurd (ground arith)
split_digits (x ∷ xs) (y ∷ ys) u v h k e =
    let (a, b) = split_digits xs ys u v h.1 k.1 (ground arith) in (ground arith, b)

byte_len-cons : (c : ℕ) (s : Text) → byte_len (c ∷ s) ≡ length (utf8_char c) + byte_len s
unfolding byte_len
byte_len-cons c s = length-append (utf8_char c) (as_bytes s)

byte_len_nil : byte_len [] ≡ 0
unfolding byte_len
byte_len_nil = refl

byte_len_pos : (c : ℕ) (s : Text) → 0 < byte_len (c ∷ s)
unfolding utf8_char
byte_len_pos c s = let e = byte_len-cons c s in ground arith

-- A text of a known number of bytes ends where its bytes end.
pub split_bytes :
    (xs ys u v : Text) → byte_len xs ≡ byte_len ys → xs ++ u ≡ ys ++ v → (xs ≡ ys) × (u ≡ v)
split_bytes [] [] u v h e = (refl, e)
split_bytes [] (y ∷ ys) u v h e = absurd (let p = byte_len_pos y ys in omega (arith, byte_len_nil))
split_bytes (x ∷ xs) [] u v h e = absurd (let p = byte_len_pos x xs in omega (arith, byte_len_nil))
split_bytes (x ∷ xs) (y ∷ ys) u v h e =
    let p = byte_len-cons x xs in
    let q = byte_len-cons y ys in
    let f : x ≡ y = ground arith in
    let (a, b) =
      split_bytes xs ys u v (omega (arith, ap (λ c. length (utf8_char c)) f)) (ground arith) in
    (ground arith, b)

-- Two texts that end with as many characters.
pub split_end : (xs ys u v : Text) → length u ≡ length v → xs ++ u ≡ ys ++ v → (xs ≡ ys) × (u ≡ v)
split_end [] [] u v h e = (refl, e)
split_end [] (y ∷ ys) u v h e =
    absurd (let p = ap length e in let q = length-append ys v in omega arith)
split_end (x ∷ xs) [] u v h e =
    absurd (let p = ap length e in let q = length-append xs u in omega arith)
split_end (x ∷ xs) (y ∷ ys) u v h e =
    let (a, b) = split_end xs ys u v h (ground arith) in (ground arith, b)

pub cancel_prefix : (p u v : Text) → p ++ u ≡ p ++ v → u ≡ v
cancel_prefix [] u v e = e
cancel_prefix (c ∷ p) u v e = cancel_prefix p u v (ground arith)
