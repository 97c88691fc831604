-- ===== src/Storage/Redis/Parsed.antt =====
-- What the strings of src/storage/redis.rs are to src/storage/gcra.lua.
use tower_rate_tier.Prelude.{
  ◌%◌, ◌*◌, ◌+◌, ◌/◌, ◌<◌, Bool, Bool-cases, Option, [], ◌^◌, arith, false, if◌then◌else◌, inl, inr,
  ltb, none, refl, some, suc, true, zero, ℕ, ◌∷◌, ◌≡◌,
}
use tower_rate_tier.Prelude.Int.{negsuc, pos}
use tower_rate_tier.Prelude.Text.{Text, decimal, digits_from, text_eq}
use tower_rate_tier.Quota.{Nanos, Quota}
use tower_rate_tier.Storage.{StorageKey}
use tower_rate_tier.Storage.Redis.{RedisStorage, script_arguments, script_call, script_keys}
use tower_rate_tier.Storage.Redis.Key.{Sha1}
use tower_rate_tier.Storage.Redis.Lua.{
  Fetched, Lua, LuaNumber, effective_number, exact_number, found, fraction, infinity, lua_check,
  lua_script, minus_infinity, nan, stored_number, time_number, whole,
}
use tower_rate_tier.Storage.Redis.Script.{
  effective_tat, exact_integer, gcra_script, max_exact, script_body,
}

-- A stored value as a natural number: infinity is above every time and burst of the script, and
-- what is not an integer, or negative, counts as no value.
abbrev pub as_stored : Option LuaNumber → Option ℕ
as_stored (some (whole (pos n))) = some n
as_stored (some (whole (negsuc n))) = none
as_stored (some fraction) = none
as_stored (some infinity) = some (2 ^ 54)
as_stored (some minus_infinity) = none
as_stored (some nan) = none
as_stored none = none

effective_number-effective_tat :
    (l : Lua) (value : Option LuaNumber) (now bo : ℕ)
    → now < max_exact
    → bo < max_exact
    → effective_number l value now bo ≡ effective_tat (as_stored value) now bo
unfolding effective_number effective_tat
effective_number-effective_tat l none now bo h k = refl
effective_number-effective_tat l (some (whole (pos n))) now bo h k = refl
effective_number-effective_tat l (some (whole (negsuc n))) now bo h k = refl
effective_number-effective_tat l (some fraction) now bo h k = refl
effective_number-effective_tat l (some infinity) now bo h k = ground arith
effective_number-effective_tat l (some minus_infinity) now bo h k = refl
effective_number-effective_tat l (some nan) now bo h k = refl

exact_integer-some : (n : ℕ) → ltb n max_exact ≡ true → exact_integer n ≡ some n
unfolding exact_integer
exact_integer-some n e = rw e refl

exact_integer-none : (n : ℕ) → ltb n max_exact ≡ false → exact_integer n ≡ none
unfolding exact_integer
exact_integer-none n e = rw e refl

read-some :
    (l : Lua) (n : ℕ) → ltb n max_exact ≡ true → exact_number (l.tonumber (decimal n)) ≡ some n
unfolding exact_number
read-some l n e = rw (l.tonumber-decimal n, l.exact_digits n (ground arith)) (ground arith)

read-none :
    (l : Lua) (n : ℕ) → ltb n max_exact ≡ false → exact_number (l.tonumber (decimal n)) ≡ none
unfolding exact_number
read-none l n e =
    let h = l.large_digits n (ground arith) in rw (l.tonumber-decimal n) (ground arith)

read-exact_integer : (l : Lua) (n : ℕ) → exact_number (l.tonumber (decimal n)) ≡ exact_integer n
read-exact_integer l n = elim (Bool-cases (ltb n max_exact)) [
  | inl a ↦ rw (read-some l n a, exact_integer-some n a) refl
  | inr a ↦ rw (read-none l n a, exact_integer-none n a) refl
]

digits_from-cons : (fuel n c : ℕ) (acc : Text) → text_eq (digits_from fuel n (c ∷ acc)) [] ≡ false
unfolding digits_from text_eq
digits_from-cons zero n c acc = refl
digits_from-cons (suc fuel) n c acc = elim (Bool-cases (ltb n 10)) [
  | inl a ↦ rw a refl
  | inr a ↦ rw a (digits_from-cons fuel (n / 10) (48 + n % 10) (c ∷ acc))
]

decimal-cons : (n : ℕ) → text_eq (decimal n) [] ≡ false
unfolding decimal digits_from text_eq
decimal-cons n = elim (Bool-cases (ltb n 10)) [
  | inl a ↦ rw a refl
  | inr a ↦ rw a (digits_from-cons n (n / 10) (48 + n % 10) [])
]

-- `ARGV[1]` of an instance that sends its clock, or does not.
abbrev pub time_argument : Option ℕ → Text
time_argument none = []
time_argument (some now) = decimal now

time_number-exact_integer :
    (l : Lua) (time : Option ℕ) (seconds microseconds : ℕ)
    → time_number l (time_argument time) seconds microseconds
      ≡ exact_integer (elim time [ some now ↦ now | none ↦ seconds * 1_000_000 + microseconds ])
unfolding time_number exact_number exact_integer text_eq
time_number-exact_integer l none seconds microseconds = ground arith
time_number-exact_integer l (some now) seconds microseconds =
    rw (decimal-cons now, read-exact_integer l now) refl

lua_check-gcra_script :
    (l : Lua) (key : Text) (time : Option ℕ) (ei bo cost seconds microseconds : ℕ)
    (get : Text → Fetched)
    → lua_check l key
        (time_argument time)
        (decimal ei)
        (decimal bo)
        (decimal cost)
        seconds
        microseconds
        get
      ≡ gcra_script time
          (seconds * 1_000_000 + microseconds)
          (as_stored (stored_number l (get key)))
          ei
          bo
          cost
unfolding lua_check gcra_script script_body
lua_check-gcra_script l key time ei bo cost seconds microseconds get =
    let t : ℕ = elim time [ some now ↦ now | none ↦ seconds * 1_000_000 + microseconds ] in
    let r = time_number-exact_integer l time seconds microseconds in
    elim (Bool-cases (ltb ei max_exact)) [
      | inr a ↦ rw (lua_check, read-none l ei a, a) refl
      | inl a ↦ elim (Bool-cases (ltb ei 1)) [
        | inl b ↦ rw (lua_check, read-some l ei a, a, b) refl
        | inr b ↦
            rw (lua_check, read-some l ei a, a, b)
              (elim (Bool-cases (ltb bo max_exact)) [
                | inr c ↦ rw (read-none l bo c, c) refl
                | inl c ↦ elim (Bool-cases (ltb bo ei)) [
                  | inl d ↦ rw (read-some l bo c, c, d) refl
                  | inr d ↦
                      rw (read-some l bo c, c, d)
                        (elim (Bool-cases (ltb cost max_exact)) [
                          | inr e ↦ rw (read-none l cost e, e) refl
                          | inl e ↦
                              rw (read-some l cost e, e, r)
                                (elim (Bool-cases (ltb t max_exact)) [
                                  | inr f ↦ rw (exact_integer-none t f) refl
                                  | inl f ↦
                                      rw
                                        (
                                          exact_integer-some t f,
                                          effective_number-effective_tat l
                                              (stored_number l (get key)) t bo (ground arith)
                                              (ground arith),
                                        )
                                        refl
                                ])
                        ])
                ]
              ])
      ]
    ]

-- A number that the script stored is what the script reads.
pub stored_number-decimal :
    (l : Lua) (tat : ℕ)
    → tat < max_exact
    → as_stored (stored_number l (found (decimal tat))) ≡ some tat
unfolding stored_number
stored_number-decimal l tat h = rw (l.tonumber-decimal tat, l.exact_digits tat h) refl

-- The time that an instance sends.
abbrev pub sent_time : Bool → Nanos → Option ℕ
sent_time client_clock now = if client_clock then some (now / 1000) else none

call_time :
    (client_clock : Bool) (now : Nanos)
    → (if client_clock then decimal (now / 1000) else [])
      ≡ time_argument (sent_time client_clock now)
call_time true now = refl
call_time false now = refl

-- Lua's script is given the strings that a check of the Redis storage sends, whatever string, error
-- or nothing the key holds and whatever the server's time is. It replies, fails and writes as the
-- script over natural numbers does on the numbers of the call, the instance's or the server's
-- microseconds, and the stored number, where infinity counts as a number above every time and
-- burst, and a value that is no integer from 0 on counts as none.
pub script_call-gcra_script :
    (l : Lua) (sha1 : Sha1) {C : Type 0} (s : RedisStorage C) (key : StorageKey) (quota : Quota)
    (cost : ℕ) (now : Nanos) (seconds microseconds : ℕ) (get : Text → Fetched)
    → let sent = script_call sha1 s key quota cost now in
      lua_script l (script_keys sent) (script_arguments sent) seconds microseconds get
      ≡ gcra_script
          (sent_time s.client_clock now)
          (seconds * 1_000_000 + microseconds)
          (as_stored (stored_number l (get sent.key)))
          sent.emission_interval
          sent.burst_offset
          sent.cost
unfolding lua_script script_call
script_call-gcra_script l sha1 s key quota cost now seconds microseconds get =
    rw (call_time s.client_clock now)
      (lua_check-gcra_script l _ (sent_time s.client_clock now) _ _ cost seconds microseconds get)
