-- ===== src/Tier/Errors.antt =====
-- The texts of the errors of src/tier.rs and src/storage/mod.rs, and where they come from.
use tower_rate_tier.Prelude.{
  ◌%◌, ◌+◌, ◌++◌, ◌/◌, ◌<◌, Bool-cases, Option, [], ap, arith, inl, inr, ltb, none, refl, some, suc,
  zero, ℕ, ◌∷◌, ◌≡◌,
}
use tower_rate_tier.Prelude.Decimal.{cancel_prefix, decimal_injective}
use tower_rate_tier.Prelude.Text.{Text, codes, decimal, digits_from}
use tower_rate_tier.Storage.{StorageError, display_storage_error}
use tower_rate_tier.Tier.{CheckError, unknown_tier}

-- `Display` of CheckError.
unfoldable display : CheckError → Text
unfolding display_storage_error
display (unknown_tier name) = codes "unknown tier: " ++ name
display (CheckError.storage e) = display_storage_error e
display (CheckError.cost_exceeds_limit cost limit) =
    codes "request cost "
    ++ (decimal cost ++ (codes " exceeds the tier limit of " ++ decimal limit))

-- `source` of CheckError: the error of the storage.
unfoldable source : CheckError → Option StorageError
source (unknown_tier name) = none
source (CheckError.storage e) = some e
source (CheckError.cost_exceeds_limit cost limit) = none

-- `From<StorageError>`
unfoldable from_storage_error : StorageError → CheckError
from_storage_error e = CheckError.storage e

abbrev IsAboveSpace : Text → Type 0
IsAboveSpace [] = Unit
IsAboveSpace (c ∷ s) = (32 < c) × IsAboveSpace s

digits_from-IsAboveSpace :
    (fuel n : ℕ) (acc : Text) → IsAboveSpace acc → IsAboveSpace (digits_from fuel n acc)
unfolding digits_from
digits_from-IsAboveSpace zero n acc h = h
digits_from-IsAboveSpace (suc fuel) n acc h = elim (Bool-cases (ltb n 10)) [
  | inl e ↦ rw (e, digits_from) (ground arith, h)
  | inr e ↦
      rw (e, digits_from)
        (digits_from-IsAboveSpace fuel (n / 10) ((48 + n % 10) ∷ acc) (omega arith, h))
]

decimal-IsAboveSpace : (n : ℕ) → IsAboveSpace (decimal n)
unfolding decimal
decimal-IsAboveSpace n = digits_from-IsAboveSpace (suc n) n [] tt

-- A word ends at the first space.
split_word :
    (xs ys u v : Text)
    → IsAboveSpace xs
    → IsAboveSpace ys
    → xs ++ 32 ∷ u ≡ ys ++ 32 ∷ v
    → (xs ≡ ys) × (u ≡ v)
split_word [] [] u v h k e = (refl, ground arith)
split_word [] (y ∷ ys) u v h k e = absurd (ground arith)
split_word (x ∷ xs) [] u v h k e = absurd (ground arith)
split_word (x ∷ xs) (y ∷ ys) u v h k e =
    let (a, b) = split_word xs ys u v h.1 k.1 (ground arith) in (ground arith, b)

-- Two errors with the same text are the same: the text tells the kind of the error, and its name,
-- its message or its numbers.
display_injective : (a b : CheckError) → display a ≡ display b → a ≡ b
unfolding display display_storage_error
display_injective (unknown_tier m) (unknown_tier n) e =
    ap unknown_tier (cancel_prefix (codes "unknown tier: ") m n e)
display_injective (unknown_tier m) (CheckError.storage x) e = absurd (ground arith)
display_injective (unknown_tier m) (CheckError.cost_exceeds_limit c l) e = absurd (ground arith)
display_injective (CheckError.storage x) (unknown_tier n) e = absurd (ground arith)
display_injective (CheckError.storage x) (CheckError.storage y) e =
    ap (λ (s : Text). CheckError.storage (record { message = s }))
      (cancel_prefix (codes "storage error: ") x.message y.message e)
display_injective (CheckError.storage x) (CheckError.cost_exceeds_limit c l) e =
    absurd (ground arith)
display_injective (CheckError.cost_exceeds_limit c l) (unknown_tier n) e = absurd (ground arith)
display_injective (CheckError.cost_exceeds_limit c l) (CheckError.storage y) e =
    absurd (ground arith)
display_injective (CheckError.cost_exceeds_limit c l) (CheckError.cost_exceeds_limit c2 l2) e =
    let f = cancel_prefix (codes "request cost ") _ _ e in
    let (g, h) =
      split_word (decimal c) (decimal c2) _ _ (decimal-IsAboveSpace c) (decimal-IsAboveSpace c2)
        f in
    let i = decimal_injective c c2 g in
    let j = decimal_injective l l2 (cancel_prefix (codes "exceeds the tier limit of ") _ _ h) in
    ground arith
