-- ===== src/Prelude/Fallible.antt =====
-- Rust's `Result`, and code that may panic: an `Option` whose `none` is the panic.
use mathlib.Core.Option.{Option, none, some}
use mathlib.Core.Path.{◌≡◌, refl}
use mathlib.Core.Bool.{Bool, true, false}

pub data Result {ℓ κ} (A : Type ℓ) (E : Type κ) : Type (ℓ ⊔ κ) where
  ok : A → Result A E
  err : E → Result A E

-- The type of a call that may panic; `none` is the panic.
abbrev pub Panics {ℓ} : Type ℓ → Type ℓ
Panics A = Option A

infixl 5 ◌>>=◌ ◌>>◌
abbrev pub ◌>>=◌ {ℓ κ} : {A : Type ℓ} {B : Type κ} → Option A → (A → Option B) → Option B
none >>= f = none
some a >>= f = f a

abbrev pub ◌>>◌ {ℓ} : {B : Type ℓ} → Option (Unit {0}) → Option B → Option B
m >> k = m >>= λ _. k

-- assert!(test)
abbrev pub assert : Bool → Option (Unit {0})
assert true = some tt
assert false = none

pub bind_assoc {ℓ κ μ} :
    {A : Type ℓ} {B : Type κ} {C : Type μ} (m : Option A) (f : A → Option B) (g : B → Option C)
    → (m >>= f >>= g) ≡ (m >>= λ a. f a >>= g)
bind_assoc none f g = refl
bind_assoc (some a) f g = refl

pub bind_congr {ℓ κ} :
    {A : Type ℓ} {B : Type κ} (m : Option A) (f g : A → Option B)
    → ((a : A) → f a ≡ g a)
    → (m >>= f) ≡ (m >>= g)
bind_congr none f g h = refl
bind_congr (some a) f g h = h a

pub assert-some {ℓ} :
    {B : Type ℓ} (test : Bool) (k : Option B) (b : B)
    → assert test >> k ≡ some b
    → (test ≡ true) × (k ≡ some b)
assert-some true k b e = (refl, e)
assert-some false k b e = cc
