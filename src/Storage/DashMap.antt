-- ===== src/Storage/DashMap.antt =====
-- The crate `dashmap`, as src/storage/memory.rs uses it: a map whose calls are atomic. Its
-- operations and their documented behaviour are the parameter of the modules that use it.
use tower_rate_tier.Prelude.{
  ◌&&◌, Bool, Option, arith, if◌then◌else◌, none, some, true, ℕ, ◌↔◌, ◌≡◌,
}
use tower_rate_tier.Prelude.Text.{Text, text_eq, text_eq_iff}
use tower_rate_tier.Quota.{Nanos}

-- (user_id, tier)
abbrev pub Key : Type 0
Key = Text × Text

unfoldable pub key_eq : Key → Key → Bool
key_eq (u, t) (v, s) = text_eq u v && text_eq t s

pub key_eq_iff : (j k : Key) → (key_eq j k ≡ true) ↔ (j ≡ k)
unfolding key_eq
key_eq_iff (u, t) (v, s) = ground (arith, text_eq_iff u v, text_eq_iff t s)

abbrev pub kept : (Nanos → Bool) → Option Nanos → Option Nanos
kept keep none = none
kept keep (some v) = if keep v then some v else none

pub record DashMap : Type 1 where
  pub Map : Type 0
  pub new : Map
  -- `entry(k)`: `Occupied` with the value, or `Vacant`.
  pub entry : Map → Key → Option Nanos
  pub insert : Map → Key → Nanos → Map
  pub retain : (Nanos → Bool) → Map → Map
  pub clear : Map → Map
  pub len : Map → ℕ
  pub entry-new : (k : Key) → entry new k ≡ none
  pub entry-insert :
      (m : Map) (k j : Key) (v : Nanos)
      → entry (insert m k v) j ≡ (if key_eq k j then some v else entry m j)
  pub entry-retain :
      (keep : Nanos → Bool) (m : Map) (k : Key) → entry (retain keep m) k ≡ kept keep (entry m k)
  pub entry-clear : (m : Map) (k : Key) → entry (clear m) k ≡ none
  pub len_zero : (m : Map) → (len m ≡ 0) ↔ ((k : Key) → entry m k ≡ none)
