-- ===== src/Storage/Redis.antt =====
-- src/storage/redis.rs: the storage that several instances share.
pub mod Key
pub mod Script
pub mod Agreement
pub mod Lua
pub mod Parsed
pub mod Writes
pub mod Server
pub mod Served
pub mod Effective
pub mod Rate
pub mod Faults
pub mod Units
pub mod Collisions
use tower_rate_tier.Duration.{Duration}
use tower_rate_tier.Gcra.{RateLimitInfo, RateLimited}
use tower_rate_tier.Http.{retry_after}
use tower_rate_tier.Layer.{Bytes}
use tower_rate_tier.Prelude.{
  ◌%◌, ◌*◌, ◌+◌, ◌/◌, ◌==◌, Bool, List, Option, Panics, Result, [], err, false, if◌then◌else◌, leb,
  max, none, ok, saturating_mul, some, true, u32_max, ℕ, ◌∷◌,
}
use tower_rate_tier.Prelude.Int.{negsuc, pos, ℤ}
use tower_rate_tier.Prelude.Text.{Text, codes, decimal}
use tower_rate_tier.Quota.{Nanos, Quota, emission_interval_nanos}
use tower_rate_tier.Storage.{Decision, Storage, StorageError, StorageKey}
use tower_rate_tier.Storage.Redis.Key.{Sha1, redis_key}

-- How an invocation of the script ends within the timeout. The crate `redis` turns the script's
-- error replies and the connection's errors into errors.
pub data Invoked : Type 0 where
  replied : ℤ → ℤ → ℤ → ℤ → Invoked  -- allowed, remaining, retry_after_us, reset_after_us
  refused : StorageError → Invoked
  timed_out : Invoked

-- The key and arguments of one script call, as strings and numbers. An empty `now` means TIME.
pub record ScriptCall : Type 0 where
  pub key : Text
  pub now : Text
  pub emission_interval : ℕ
  pub burst_offset : ℕ
  pub cost : ℕ

-- KEYS and ARGV of the invocation.
abbrev pub script_keys : ScriptCall → List Text
script_keys call = call.key ∷ []

abbrev pub script_arguments : ScriptCall → List Text
script_arguments call =
    call.now ∷ decimal call.emission_interval ∷ decimal call.burst_offset ∷ decimal call.cost ∷ []

-- The connection, and the message of a timeout.
pub record Connection (C : Type 0) : Type 0 where
  pub invoke : Duration → ScriptCall → C → Invoked × C
  pub timeout_error : Duration → StorageError

abbrev pub default_timeout : Duration
default_timeout = 100_000_000

pub record RedisStorage (C : Type 0) : Type 0 where
  pub conn : Connection C
  pub key_prefix : Text
  pub timeout : Duration
  pub hash_user_ids : Bool
  pub key_secret : Option Bytes
  pub client_clock : Bool

module _ {C : Type 0} where
  unfoldable pub new : Connection C → RedisStorage C
  new conn = record {
    conn = conn;
    key_prefix = codes "trt:";
    timeout = default_timeout;
    hash_user_ids = true;
    key_secret = none;
    client_clock = false;
  }

  unfoldable pub key_prefix : RedisStorage C → Text → RedisStorage C
  key_prefix s prefix = record s { key_prefix = prefix }

  unfoldable pub timeout : RedisStorage C → Duration → RedisStorage C
  timeout s limit = record s { timeout = limit }

  unfoldable pub plain_user_ids : RedisStorage C → RedisStorage C
  plain_user_ids s = record s { hash_user_ids = false }

  unfoldable pub key_secret : RedisStorage C → Bytes → RedisStorage C
  key_secret s secret = record s { key_secret = some secret }

  unfoldable pub use_client_clock : RedisStorage C → RedisStorage C
  use_client_clock s = record s { client_clock = true }

-- Microseconds, rounded up.
unfoldable pub micros_ceil : Nanos → ℕ
micros_ceil nanos = nanos / 1000 + (if nanos % 1000 == 0 then 0 else 1)

-- `Duration::from_micros(u64::try_from(value).unwrap_or(0))`
unfoldable pub micros : ℤ → Duration
micros (pos n) = n * 1000
micros (negsuc n) = 0

-- `u32::try_from(remaining.max(0)).unwrap_or(u32::MAX)`
unfoldable pub remaining_u32 : ℤ → ℕ
remaining_u32 (pos n) = if leb n u32_max then n else u32_max
remaining_u32 (negsuc n) = 0

-- `allowed == 1`
unfoldable pub is_one : ℤ → Bool
is_one (pos n) = n == 1
is_one (negsuc n) = false

unfoldable pub decode_reply : ℤ → ℤ → ℤ → ℤ → ℕ → Result RateLimitInfo RateLimited
unfolding micros remaining_u32 is_one
decode_reply allowed remaining retry_after_us reset_after_us limit =
    if is_one allowed
    then ok (record {
      limit = limit;
      remaining = remaining_u32 remaining;
      reset_after = micros reset_after_us;
    })
    else err (record {
      limit = limit;
      retry_after = micros retry_after_us;
      reset_after = micros reset_after_us;
    })

module _ (sha1 : Sha1) {C : Type 0} where
  unfoldable pub script_call : RedisStorage C → StorageKey → Quota → ℕ → Nanos → ScriptCall
  unfolding micros_ceil
  script_call s key quota cost now =
      let emission_interval = max (micros_ceil (emission_interval_nanos quota)) 1 in
      record {
        key = redis_key sha1 s.hash_user_ids s.key_secret s.key_prefix key;
        now = if s.client_clock then decimal (now / 1000) else [];
        emission_interval = emission_interval;
        burst_offset = saturating_mul emission_interval quota.max_burst;
        cost = cost;
      }

  abbrev pub decision_of : RedisStorage C → ℕ → Invoked → Decision
  decision_of s limit (replied allowed remaining retry_after_us reset_after_us) =
      ok (decode_reply allowed remaining retry_after_us reset_after_us limit)
  decision_of s limit (refused e) = err e
  decision_of s limit timed_out = err (s.conn.timeout_error s.timeout)

  unfoldable pub check_and_update :
      RedisStorage C → StorageKey → Quota → ℕ → Nanos → C → Panics (Decision × C)
  unfolding script_call decode_reply
  check_and_update s key quota cost now c =
      let (result, c') = s.conn.invoke s.timeout (script_call s key quota cost now) c in
      some (decision_of s quota.max_burst result, c')

  unfoldable pub redis_storage : RedisStorage C → Storage C
  redis_storage s = record { check_and_update = check_and_update s }
