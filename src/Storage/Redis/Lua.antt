-- ===== src/Storage/Redis/Lua.antt =====
-- src/storage/gcra.lua from its strings on: how it reads KEYS, ARGV, the time and the stored value.
-- What Lua and Redis do is a parameter.
use tower_rate_tier.Prelude.{
  ◌*◌, ◌+◌, ◌<◌, Bool, List, Option, Result, [], err, false, if◌then◌else◌, leb, ltb, none, some,
  true, ℕ, ◌∷◌, ◌≡◌, ◌≤◌,
}
use tower_rate_tier.Prelude.Int.{negsuc, pos, ℤ}
use tower_rate_tier.Prelude.Text.{Text, decimal, text_eq}
use tower_rate_tier.Storage.Redis.Script.{
  ScriptError, ScriptReply, Write, invalid_burst_offset, invalid_cost, invalid_emission_interval,
  invalid_time, max_exact, script_decision, wrong_arguments,
}

-- A number of Lua: an integer, one between two integers, an infinity, or NaN.
pub data LuaNumber : Type 0 where
  whole : ℤ → LuaNumber
  fraction : LuaNumber
  infinity minus_infinity nan : LuaNumber

-- `tonumber`, and what it reads from the decimal digits of a natural number: the number below
-- 2 ^ 53, and from there on a double that is not below 2 ^ 53 either.
pub record Lua : Type 0 where
  pub tonumber : Text → Option LuaNumber
  pub digits_value : ℕ → ℕ
  pub tonumber-decimal : (n : ℕ) → tonumber (decimal n) ≡ some (whole (pos (digits_value n)))
  pub exact_digits : (n : ℕ) → n < max_exact → digits_value n ≡ n
  pub large_digits : (n : ℕ) → max_exact ≤ n → max_exact ≤ digits_value n

-- What GET gives through pcall: an error as a table, no key, or a string.
pub data Fetched : Type 0 where
  error_table absent : Fetched
  found : Text → Fetched

-- `exact_integer`, of what `tonumber` gave.
unfoldable pub exact_number : Option LuaNumber → Option ℕ
exact_number none = none
exact_number (some (whole (pos n))) = if leb max_exact n then none else some n
exact_number (some (whole (negsuc n))) = none
exact_number (some fraction) = none
exact_number (some infinity) = none
exact_number (some minus_infinity) = none
exact_number (some nan) = none

module _ (l : Lua) where
  -- `tonumber(stored)`; a table is read as nil.
  unfoldable pub stored_number : Fetched → Option LuaNumber
  stored_number error_table = none
  stored_number absent = none
  stored_number (found text) = l.tonumber text

  -- The TAT that the script goes on with, and whether it was capped.
  unfoldable pub effective_number : Option LuaNumber → ℕ → ℕ → ℕ × Bool
  effective_number (some (whole (pos tat))) now burst_offset =
      if ltb tat now
      then (now, false)
      else if ltb (now + burst_offset) tat
      then (now + burst_offset, true)
      else (tat, false)
  effective_number (some infinity) now burst_offset = (now + burst_offset, true)
  effective_number _ now burst_offset = (now, false)

  -- `exact_integer(ARGV[1])`, or what TIME answers in seconds and microseconds.
  unfoldable pub time_number : Text → ℕ → ℕ → Option ℕ
  unfolding exact_number text_eq
  time_number argument seconds microseconds =
      if text_eq argument []
      then exact_number (some (whole (pos (seconds * 1_000_000 + microseconds))))
      else exact_number (l.tonumber argument)

  -- From the second argument on, with the key's value and the time of the server.
  unfoldable pub lua_check :
      Text
      → Text
      → Text
      → Text
      → Text
      → ℕ
      → ℕ
      → (Text → Fetched)
      → Result (ScriptReply × Option Write) ScriptError
  unfolding exact_number stored_number effective_number time_number script_decision
  lua_check key time interval offset cells seconds microseconds get =
      elim (exact_number (l.tonumber interval)) [
        | none ↦ err invalid_emission_interval
        | some emission_interval ↦
            if ltb emission_interval 1
            then err invalid_emission_interval
            else elim (exact_number (l.tonumber offset)) [
              | none ↦ err invalid_burst_offset
              | some burst_offset ↦
                  if ltb burst_offset emission_interval
                  then err invalid_burst_offset
                  else elim (exact_number (l.tonumber cells)) [
                    | none ↦ err invalid_cost
                    | some cost ↦ elim (time_number time seconds microseconds) [
                      | none ↦ err invalid_time
                      | some now ↦
                          script_decision
                            (effective_number (stored_number (get key)) now burst_offset) now
                            emission_interval burst_offset cost
                    ]
                  ]
            ]
      ]

  -- The script: the number of its keys and arguments first.
  unfoldable pub lua_script :
      List Text
      → List Text
      → ℕ
      → ℕ
      → (Text → Fetched)
      → Result (ScriptReply × Option Write) ScriptError
  unfolding lua_check
  lua_script (key ∷ []) (time ∷ interval ∷ offset ∷ cells ∷ []) seconds microseconds get =
      lua_check key time interval offset cells seconds microseconds get
  lua_script _ _ seconds microseconds get = err wrong_arguments
