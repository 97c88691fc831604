-- ===== src/Response/Escape.antt =====
-- The strings of src/response.rs are read back by a reader of JSON strings (RFC 8259).
use mathlib.Core.List.{append_assoc}
use tower_rate_tier.Prelude.{
  ◌%◌, ◌&&◌, ◌*◌, ◌+◌, ◌++◌, ◌-◌, ◌/◌, ◌<◌, ◌==◌, Bool-cases, Option, [], ap, arith, false,
  if◌then◌else◌, inl, inr, leb, ltb, none, refl, some, true, ◌||◌, ℕ, ◌∙◌, ◌∷◌, ◌≡◌, ◌≢◌, ◌≤◌,
}
use tower_rate_tier.Prelude.Text.{Text, hex_digit}
use tower_rate_tier.Response.{escape_char, escape_json_string, is_control, unicode_escape}

-- What the reader is in the middle of: nothing, an escape, or a `\u` with digits left to come.
pub data Pending : Type 0 where
  plain escaped : Pending
  unicode : ℕ → ℕ → Pending

abbrev pub quote : ℕ
quote = b'"'

unfoldable pub hex_value : ℕ → Option ℕ
hex_value c =
    if leb 48 c && leb c 57
    then some (c - 48)
    else if leb 97 c && leb c 102
    then some (c - 87)
    else if leb 65 c && leb c 70
    then some (c - 55)
    else none

-- The character of a two-character escape.
unfoldable pub escape_value : ℕ → Option ℕ
escape_value c =
    if c == b'"' || c == b'\\' || c == b'/'
    then some c
    else if c == b'b'
    then some 8
    else if c == b'f'
    then some 12
    else if c == b'n'
    then some 10
    else if c == b'r'
    then some 13
    else if c == b't'
    then some 9
    else none

abbrev prepend : ℕ → Option (Text × Text) → Option (Text × Text)
prepend c none = none
prepend c (some (s, rest)) = some (c ∷ s, rest)

-- The text of a string up to its closing quote, and what follows the quote. A raw control character
-- below 0x20 is an error; an escape of a surrogate is one too.
unfoldable pub read_string : Pending → Text → Option (Text × Text)
unfolding hex_value escape_value
read_string _ [] = none
read_string plain (c ∷ s) =
    let go = read_string escaped s in
    let copy = read_string plain s in
    if c == quote
    then some ([], s)
    else if c == b'\\'
    then go
    else if ltb c 0x20
    then none
    else prepend c copy
read_string escaped (c ∷ s) =
    let digits = read_string (unicode 3 0) s in
    let copy = read_string plain s in
    if c == b'u' then digits else elim (escape_value c) [ some d ↦ prepend d copy | none ↦ none ]
read_string (unicode n v) (c ∷ s) = elim (hex_value c) [
  | none ↦ none
  | some d ↦
      let last = read_string plain s in
      let more = read_string (unicode (n - 1) (v * 16 + d)) s in
      if ltb 0 n
      then more
      else if leb 0xd800 (v * 16 + d) && ltb (v * 16 + d) 0xe000
      then none
      else prepend (v * 16 + d) last
]

hex_value-hex_digit : (n : ℕ) → n < 16 → hex_value (hex_digit n) ≡ some n
unfolding hex_value hex_digit
hex_value-hex_digit n h = ground arith

read_digit :
    (n v x : ℕ) (s : Text)
    → 0 < n
    → x < 16
    → read_string (unicode n v) (hex_digit x ∷ s) ≡ read_string (unicode (n - 1) (v * 16 + x)) s
unfolding read_string
read_digit n v x s p h = rw (read_string, hex_value-hex_digit x h) (ground arith)

read_last :
    (v x : ℕ) (s : Text)
    → x < 16
    → v * 16 + x < 0xd800
    → read_string (unicode 0 v) (hex_digit x ∷ s) ≡ prepend (v * 16 + x) (read_string plain s)
unfolding read_string
read_last v x s h k = rw (read_string, hex_value-hex_digit x h) (ground arith)

read_backslash_u : (s : Text) → read_string plain (b'\\' ∷ b'u' ∷ s) ≡ read_string (unicode 3 0) s
unfolding read_string
read_backslash_u s = refl

read_backslash :
    (c : ℕ) (s : Text)
    → (c == b'"' || c == b'\\') ≡ true
    → read_string plain (b'\\' ∷ c ∷ s) ≡ prepend c (read_string plain s)
unfolding read_string
read_backslash c s h = ground arith

read_plain :
    (c : ℕ) (s : Text)
    → c ≢ b'"'
    → c ≢ b'\\'
    → 0x20 ≤ c
    → read_string plain (c ∷ s) ≡ prepend c (read_string plain s)
unfolding read_string
read_plain c s q b h = ground arith

read_quote : (s : Text) → read_string plain (quote ∷ s) ≡ some ([], s)
unfolding read_string
read_quote s = refl

read_unicode :
    (c : ℕ) (s : Text)
    → c < 0xa0
    → read_string plain (unicode_escape c ++ s) ≡ prepend c (read_string plain s)
unfolding unicode_escape
read_unicode c s h =
    let a : ℕ = c / 0x1000 % 0x10 in
    let b : ℕ = c / 0x100 % 0x10 in
    let d : ℕ = c / 0x10 % 0x10 in
    let e : ℕ = c % 0x10 in
    read_backslash_u _
    ∙ read_digit 3 0 a _ (omega arith) (omega arith)
    ∙ read_digit 2 (0 * 16 + a) b _ (omega arith) (omega arith)
    ∙ read_digit 1 ((0 * 16 + a) * 16 + b) d _ (omega arith) (omega arith)
    ∙ read_last (((0 * 16 + a) * 16 + b) * 16 + d) e s (omega arith) (omega arith)
    ∙ ap (λ n. prepend n (read_string plain s)) (omega arith)

below : (c : ℕ) → is_control c ≡ true → c < 0xa0
unfolding is_control
below c k = ground arith

above : (c : ℕ) → is_control c ≡ false → 0x20 ≤ c
unfolding is_control
above c k = ground arith

read_char :
    (c : ℕ) (s : Text) → read_string plain (escape_char c ++ s) ≡ prepend c (read_string plain s)
unfolding escape_char
read_char c s = elim (Bool-cases (c == b'"')) [
  | inl q ↦ rw (q, escape_char) (ground (arith, read_backslash c s))
  | inr q ↦ elim (Bool-cases (c == b'\\')) [
    | inl b ↦ rw (q, b, escape_char) (ground (arith, read_backslash c s))
    | inr b ↦ elim (Bool-cases (is_control c)) [
      | inl k ↦ rw (q, b, k, escape_char) (read_unicode c s (below c k))
      | inr k ↦ rw (q, b, k, escape_char) (read_plain c s (ground arith) (ground arith) (above c k))
    ]
  ]
]

-- A reader of JSON strings that stands behind the opening quote reads exactly the text back from
-- its escaped form and the closing quote, whatever characters the text has and whatever follows.
pub read_string-escape_json_string :
    (text rest : Text)
    → read_string plain (escape_json_string text ++ quote ∷ rest) ≡ some (text, rest)
unfolding escape_json_string
read_string-escape_json_string [] rest = read_quote rest
read_string-escape_json_string (c ∷ text) rest =
    simp (append_assoc, read_char, read_string-escape_json_string text rest)
