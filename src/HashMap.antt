-- ===== src/HashMap.antt =====
-- std::collections::HashMap with `String` keys, as an association list. Nothing iterates over it.
use tower_rate_tier.Prelude.{
  Bool, List, Option, [], arith, false, if◌then◌else◌, none, refl, some, true, ◌∷◌, ◌≡◌,
}
use tower_rate_tier.Prelude.Text.{Text, text_eq, text_eq_iff}

abbrev pub HashMap {ℓ} : Type ℓ → Type ℓ
HashMap V = List (Text × V)

module _ {ℓ} {V : Type ℓ} where
  unfoldable pub get : HashMap V → Text → Option V
  get [] k = none
  get ((j, v) ∷ m) k = if text_eq j k then some v else get m k

  unfoldable pub insert : HashMap V → Text → V → HashMap V
  insert [] k v = (k, v) ∷ []
  insert ((j, w) ∷ m) k v = if text_eq j k then (k, v) ∷ m else (j, w) ∷ insert m k v

  unfoldable pub is_empty : HashMap V → Bool
  is_empty [] = true
  is_empty (e ∷ m) = false

  unfoldable pub contains_key : HashMap V → Text → Bool
  unfolding get
  contains_key m k = elim (get m k) [ some v ↦ true | none ↦ false ]

  pub get-insert :
      (m : HashMap V) (k j : Text) (v : V)
      → get (insert m k v) j ≡ (if text_eq k j then some v else get m j)
  unfolding get insert
  get-insert [] k j v = refl
  get-insert ((i, w) ∷ m) k j v =
      ground (arith, text_eq_iff i k, text_eq_iff i j, text_eq_iff k j, get-insert m k j v)

  pub insert-nonempty : (m : HashMap V) (k : Text) (v : V) → is_empty (insert m k v) ≡ false
  unfolding is_empty insert
  insert-nonempty [] k v = refl
  insert-nonempty ((i, w) ∷ m) k v = ground arith
