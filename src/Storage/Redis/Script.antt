-- ===== src/Storage/Redis/Script.antt =====
-- src/storage/gcra.lua: the check that Redis runs. Its numbers are natural numbers below 2 ^ 53,
-- which Lua's doubles hold exactly; times are microseconds.
use tower_rate_tier.Prelude.{
  ◌*◌, ◌+◌, ◌-◌, ◌/◌, Bool, Option, Result, ◌^◌, err, false, if◌then◌else◌, ltb, none, not, ok,
  some, true, ◌||◌, ℕ,
}

abbrev pub max_exact : ℕ
max_exact = 2 ^ 53

-- { allowed, remaining, retry_after_us, reset_after_us }
pub record ScriptReply : Type 0 where
  pub allowed : ℕ
  pub remaining : ℕ
  pub retry_after_us : ℕ
  pub reset_after_us : ℕ

pub data ScriptError : Type 0 where
  invalid_emission_interval invalid_burst_offset invalid_cost invalid_time : ScriptError
  out_of_range wrong_arguments : ScriptError

-- `SET key value PX ms`
pub record Write : Type 0 where
  pub value : ℕ
  pub expire_ms : ℕ

unfoldable pub ceil_div : ℕ → ℕ → ℕ
ceil_div a b = (a + b - 1) / b

-- exact_integer, for a number that is an integer and not negative.
unfoldable pub exact_integer : ℕ → Option ℕ
exact_integer n = if ltb n max_exact then some n else none

-- The TAT that the script goes on with, and whether it was capped. `none` stands for a missing key,
-- a key of another type, and a value that is no integer.
unfoldable pub effective_tat : Option ℕ → ℕ → ℕ → ℕ × Bool
effective_tat none now burst_offset = (now, false)
effective_tat (some tat) now burst_offset =
    if ltb tat now
    then (now, false)
    else if ltb (now + burst_offset) tat
    then (now + burst_offset, true)
    else (tat, false)

-- With the TAT that it goes on with.
unfoldable pub script_decision :
    ℕ × Bool → ℕ → ℕ → ℕ → ℕ → Result (ScriptReply × Option Write) ScriptError
unfolding ceil_div
script_decision (tat, capped) now emission_interval burst_offset cost =
    let increment = emission_interval * cost in
    if ltb max_exact (increment + tat)
    then err out_of_range
    else let new_tat = tat + increment in
      if ltb (now + burst_offset) new_tat
      then ok (
        record {
          allowed = 0;
          remaining = 0;
          retry_after_us = new_tat - burst_offset - now;
          reset_after_us = tat - now;
        },
        if capped
            then some (record { value = tat; expire_ms = ceil_div (tat - now) 1000 })
            else none,
      )
      else ok (
        record {
          allowed = 1;
          remaining = (burst_offset - (new_tat - now)) / emission_interval;
          retry_after_us = 0;
          reset_after_us = new_tat - now;
        },
        if ltb now new_tat
            then some (record { value = new_tat; expire_ms = ceil_div (new_tat - now) 1000 })
            else none,
      )

-- After the arguments were read.
unfoldable pub script_body :
    Option ℕ → ℕ → ℕ → ℕ → ℕ → Result (ScriptReply × Option Write) ScriptError
unfolding effective_tat script_decision
script_body stored now emission_interval burst_offset cost =
    script_decision (effective_tat stored now burst_offset) now emission_interval burst_offset cost

-- `ARGV[1]` is `none` when it is empty, and `server_time` is what TIME answers then.
unfoldable pub gcra_script :
    Option ℕ → ℕ → Option ℕ → ℕ → ℕ → ℕ → Result (ScriptReply × Option Write) ScriptError
unfolding script_body exact_integer
gcra_script argv_now server_time stored emission_interval burst_offset cost =
    if not (ltb emission_interval max_exact) || ltb emission_interval 1
    then err invalid_emission_interval
    else if not (ltb burst_offset max_exact) || ltb burst_offset emission_interval
    then err invalid_burst_offset
    else if not (ltb cost max_exact)
    then err invalid_cost
    else elim (exact_integer (elim argv_now [ some now ↦ now | none ↦ server_time ])) [
      | none ↦ err invalid_time
      | some now ↦ script_body stored now emission_interval burst_offset cost
    ]
