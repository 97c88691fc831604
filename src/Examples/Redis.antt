-- ===== src/Examples/Redis.antt =====
-- The storage of src/storage/redis.rs at concrete inputs, with a digest that is always the same.
use tower_rate_tier.Examples.Memory.{ana}
use tower_rate_tier.Prelude.{◌*◌, ◌+◌, ◌/◌, ◌<◌, arith, false, none, ok, refl, some, true, ◌≡◌, ◌≤◌}
use tower_rate_tier.Prelude.Lists.{All, replicate}
use tower_rate_tier.Prelude.Text.{codes}
use tower_rate_tier.Quota.{Quota, burst_offset_nanos, emission_interval_nanos, with_window}
use tower_rate_tier.Quota.Bounds.{with_window-intervals}
use tower_rate_tier.Storage.{StorageKey}
use tower_rate_tier.Storage.Redis.{
  Connection, RedisStorage, default_timeout, script_call, timed_out,
}
use tower_rate_tier.Storage.Redis.Collisions.{redis_key-collides}
use tower_rate_tier.Storage.Redis.Key.{Sha1, redis_key, user_digest}
use tower_rate_tier.Storage.Redis.Script.{ScriptReply, Write, script_body, script_decision}
use tower_rate_tier.Storage.Redis.Units.{IsTighter, script_call-IsTighter}
use tower_rate_tier.Storage.Redis.Writes.{IsFresh, script_body-IsFresh}

pub constant_bytes : All (λ b. b < 256) (replicate 20 7)
constant_bytes = ground arith

abbrev pub constant : Sha1
constant = record {
  digest = λ message. replicate 20 7;
  digest_length = λ message. refl;
  digest_bytes = λ message. constant_bytes;
}

abbrev bob : StorageKey
bob = record { user_id = codes "bob"; tier = codes "free" }

same_key :
    redis_key constant true none (codes "trt:") ana
    ≡ redis_key constant true none (codes "trt:") bob
unfolding redis_key
same_key = refl

redis_key-collides_example :
    (ana.tier ≡ bob.tier)
    × (true ≡ false → ana.user_id ≡ bob.user_id)
    × (user_digest constant none ana.user_id ≡ user_digest constant none bob.user_id)
redis_key-collides_example = redis_key-collides constant none true (codes "trt:") ana bob same_key

abbrev pub connection : Connection Unit
connection = record {
  invoke = λ limit call c. (timed_out, c);
  timeout_error = λ limit. record { message = codes "timed out" };
}

abbrev pub backend : RedisStorage Unit
backend = record {
  conn = connection;
  key_prefix = codes "trt:";
  timeout = default_timeout;
  hash_user_ids = true;
  key_secret = none;
  client_clock = false;
}

abbrev pub per_minute_quota : Quota
per_minute_quota = record { max_burst = 7; window = 60_000_000_000 }

accepted : with_window 7 60_000_000_000 ≡ some per_minute_quota
unfolding with_window
accepted = refl

script_call-IsTighter_example :
    IsTighter per_minute_quota 7 (script_call constant backend ana per_minute_quota 1 100)
script_call-IsTighter_example =
    script_call-IsTighter constant backend ana 7 60_000_000_000 1 per_minute_quota 100 (omega arith)
      (omega arith) accepted

with_window-intervals_example :
    (burst_offset_nanos per_minute_quota ≡ emission_interval_nanos per_minute_quota * 7)
    × (burst_offset_nanos per_minute_quota / emission_interval_nanos per_minute_quota ≡ 7)
    × (burst_offset_nanos per_minute_quota ≤ 60_000_000_000)
    × (60_000_000_000 < burst_offset_nanos per_minute_quota + 7)
with_window-intervals_example =
    with_window-intervals 7 60_000_000_000 per_minute_quota (omega arith) accepted

-- A stored time beyond one burst: it is capped, and the cap is written.
abbrev capped_reply : ScriptReply
capped_reply = record { allowed = 0; remaining = 0; retry_after_us = 10; reset_after_us = 30 }

abbrev capped_write : Write
capped_write = record { value = 130; expire_ms = 1 }

capped : script_body (some 500) 100 10 30 1 ≡ ok (capped_reply, some capped_write)
unfolding script_body script_decision
capped = refl

script_body-IsFresh_example : IsFresh 100 30 capped_write
script_body-IsFresh_example =
    script_body-IsFresh (some 500) 100 10 30 1 capped_reply capped_write (omega arith) capped
