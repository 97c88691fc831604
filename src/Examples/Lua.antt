-- ===== src/Examples/Lua.antt =====
-- src/storage/gcra.lua on strings, with a `tonumber` that reads digits only.
use tower_rate_tier.Examples.Memory.{ana}
use tower_rate_tier.Examples.Redis.{backend, constant, per_minute_quota}
use tower_rate_tier.Prelude.{
  ◌&&◌, Bool, Option, [], arith, err, if◌then◌else◌, ltb, none, ok, refl, some, true, ℕ, ◌∷◌, ◌≡◌,
}
use tower_rate_tier.Prelude.Decimal.{IsDigits, decimal-IsDigits, read_digits, read_digits-decimal}
use tower_rate_tier.Prelude.Int.{pos}
use tower_rate_tier.Prelude.Text.{Text, codes, decimal}
use tower_rate_tier.Storage.Redis.{ScriptCall, script_arguments, script_call, script_keys}
use tower_rate_tier.Storage.Redis.Lua.{
  Fetched, Lua, LuaNumber, effective_number, found, infinity, lua_script, stored_number, whole,
}
use tower_rate_tier.Storage.Redis.Parsed.{as_stored, script_call-gcra_script}
use tower_rate_tier.Storage.Redis.Script.{
  ScriptReply, Write, gcra_script, invalid_emission_interval, wrong_arguments,
}

abbrev is_digits : Text → Bool
is_digits [] = true
is_digits (c ∷ s) = ltb c 58 && is_digits s

is_digits-IsDigits : (s : Text) → IsDigits s → is_digits s ≡ true
is_digits-IsDigits [] h = refl
is_digits-IsDigits (c ∷ s) h = ground (arith, is_digits-IsDigits s h.1)

abbrev read_number : Text → Option LuaNumber
read_number s = if is_digits s then some (whole (pos (read_digits s 0))) else none

read_number-decimal : (n : ℕ) → read_number (decimal n) ≡ some (whole (pos n))
read_number-decimal n =
    rw (is_digits-IsDigits (decimal n) (decimal-IsDigits n), read_digits-decimal n) refl

abbrev digits_only : Lua
digits_only = record {
  tonumber = read_number;
  digits_value = λ n. n;
  tonumber-decimal = read_number-decimal;
  exact_digits = λ n h. refl;
  large_digits = λ n h. h;
}

-- A key whose value is corrupted.
abbrev corrupted : Text → Fetched
corrupted key = found (codes "corrupted")

abbrev sent : ScriptCall
sent = script_call constant backend ana per_minute_quota 1 100

script_call-gcra_script_example :
    lua_script digits_only (script_keys sent) (script_arguments sent) 5 250 corrupted
    ≡ gcra_script none 5_000_250
        (as_stored (stored_number digits_only (corrupted sent.key)))
        sent.emission_interval
        sent.burst_offset
        sent.cost
script_call-gcra_script_example =
    script_call-gcra_script digits_only constant backend ana per_minute_quota 1 100 5 250 corrupted

-- A corrupted value is a fresh bucket.
abbrev corrupted_reply : ScriptReply
corrupted_reply = record { allowed = 1; remaining = 2; retry_after_us = 0; reset_after_us = 10 }

abbrev corrupted_write : Write
corrupted_write = record { value = 5_000_260; expire_ms = 1 }

fresh :
    lua_script digits_only
      (codes "k" ∷ [])
      (codes "" ∷ codes "10" ∷ codes "30" ∷ codes "1" ∷ [])
      5
      250
      corrupted
    ≡ ok (corrupted_reply, some corrupted_write)
unfolding lua_script
fresh = refl

bad_interval :
    lua_script digits_only
      (codes "k" ∷ [])
      (codes "" ∷ codes "x" ∷ codes "30" ∷ codes "1" ∷ [])
      5
      250
      corrupted
    ≡ err invalid_emission_interval
unfolding lua_script
bad_interval = refl

missing_argument :
    lua_script digits_only (codes "k" ∷ []) (codes "" ∷ codes "10" ∷ []) 5 250 corrupted
    ≡ err wrong_arguments
unfolding lua_script
missing_argument = refl

-- An infinity is not a fresh bucket: it is capped at a full one.
infinity_capped : effective_number digits_only (some infinity) 100 30 ≡ (130, true)
unfolding effective_number
infinity_capped = refl
