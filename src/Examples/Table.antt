-- ===== src/Examples/Table.antt =====
-- A map as the storages need it: an association list.
use tower_rate_tier.Prelude.{
  Bool, List, Option, [], arith, if◌then◌else◌, none, refl, some, suc, ℕ, ◌↔◌, ◌∷◌, ◌≡◌,
}
use tower_rate_tier.Quota.{Nanos}
use tower_rate_tier.Storage.DashMap.{DashMap, Key, kept, key_eq, key_eq_iff}

abbrev pub Table : Type 0
Table = List (Key × Nanos)

abbrev pub entry_of : Table → Key → Option Nanos
entry_of [] j = none
entry_of ((k, v) ∷ m) j = if key_eq k j then some v else entry_of m j

abbrev pub put : Table → Key → Nanos → Table
put [] k v = (k, v) ∷ []
put ((j, w) ∷ m) k v = let rest = put m k v in if key_eq j k then (k, v) ∷ m else (j, w) ∷ rest

abbrev pub remove : Key → Table → Table
remove k [] = []
remove k ((j, w) ∷ m) = let rest = remove k m in if key_eq k j then rest else (j, w) ∷ rest

abbrev pub keep_if : (Nanos → Bool) → Table → Table
keep_if keep [] = []
keep_if keep ((k, v) ∷ m) =
    let rest = keep_if keep m in if keep v then (k, v) ∷ rest else remove k rest

pub entry-put :
    (m : Table) (k j : Key) (v : Nanos)
    → entry_of (put m k v) j ≡ (if key_eq k j then some v else entry_of m j)
entry-put [] k j v = refl
entry-put ((i, w) ∷ m) k j v =
    ground (arith, key_eq_iff i k, key_eq_iff i j, key_eq_iff k j, entry-put m k j v)

pub entry-remove :
    (m : Table) (k j : Key) → entry_of (remove k m) j ≡ (if key_eq k j then none else entry_of m j)
entry-remove [] k j = ground arith
entry-remove ((i, w) ∷ m) k j =
    ground (arith, key_eq_iff k i, key_eq_iff i j, key_eq_iff k j, entry-remove m k j)

pub entry-keep_if :
    (keep : Nanos → Bool) (m : Table) (k : Key)
    → entry_of (keep_if keep m) k ≡ kept keep (entry_of m k)
entry-keep_if keep [] k = refl
entry-keep_if keep ((i, w) ∷ m) k =
    ground (arith, key_eq_iff i k, entry-keep_if keep m k, entry-remove (keep_if keep m) i k)

abbrev pub size : Table → ℕ
size [] = 0
size (e ∷ m) = suc (size m)

pub size_zero : (m : Table) → (size m ≡ 0) ↔ ((k : Key) → entry_of m k ≡ none)
size_zero [] = (λ e k. refl, λ h. refl)
size_zero ((i, w) ∷ m) =
    (λ e. absurd (omega arith), λ h. let a = h i in let b = key_eq_iff i i in ground arith)

abbrev pub table : DashMap
table = record {
  Map = Table;
  new = [];
  entry = entry_of;
  insert = put;
  retain = keep_if;
  clear = λ m. [];
  len = size;
  entry-new = λ k. refl;
  entry-insert = entry-put;
  entry-retain = entry-keep_if;
  entry-clear = λ m k. refl;
  len_zero = size_zero;
}
