-- ===== src/Storage/Redis/Agreement.antt =====
-- src/storage/gcra.lua against src/gcra.rs, at the same unit of time.
use tower_rate_tier.Gcra.{RateLimitInfo, RateLimited, check_gcra, unwrap_or}
use tower_rate_tier.Gcra.Decision.{check_gcra-reference, current, reference}
use tower_rate_tier.Prelude.{
  ◌*◌, ◌+◌, ◌-◌, ◌/◌, ◌<◌, Option, Result, arith, as_u32, err, false, if◌then◌else◌, ltb, none, ok,
  some, u32_max, ℕ, ◌≡◌, ◌≤◌,
}
use tower_rate_tier.Quota.{Nanos}
use tower_rate_tier.Storage.Redis.Script.{
  ScriptReply, Write, ceil_div, effective_tat, max_exact, script_body, script_decision,
}

-- What the script stores for an arrival time: nothing if it is not in the future.
abbrev pub written : ℕ → ℕ → Option Write
written now t =
    if ltb now t then some (record { value = t; expire_ms = ceil_div (t - now) 1000 }) else none

-- The reply and the write that go with the algorithm's result.
abbrev pub scripted : ℕ → Result (Nanos × RateLimitInfo) RateLimited → ScriptReply × Option Write
scripted now (ok (t, i)) = (
  record {
    allowed = 1;
    remaining = i.remaining;
    retry_after_us = 0;
    reset_after_us = i.reset_after;
  },
  written now t,
)
scripted now (err l) = (
  record {
    allowed = 0;
    remaining = 0;
    retry_after_us = l.retry_after;
    reset_after_us = l.reset_after;
  },
  none,
)

remaining_fits :
    (now ei bo t : ℕ)
    → 0 < ei
    → bo / ei ≤ u32_max
    → now ≤ t
    → as_u32 ((now + bo - t) / ei) ≡ (now + bo - t) / ei
remaining_fits now ei bo t ei_pos small h =
    let k : (now + bo - t) / ei ≤ bo / ei = grind arith in omega arith

effective-current :
    (stored : Option ℕ) (now bo : ℕ)
    → unwrap_or stored now ≤ now + bo
    → effective_tat stored now bo ≡ (current stored now, false)
unfolding effective_tat
effective-current stored now bo h = ground arith

-- With an interval above 0, at most u32::MAX requests in the burst, a stored time that is at most
-- one burst ahead, and numbers that stay in Lua's exact range, the script decides, replies and
-- stores as the Rust algorithm does on the same numbers.
pub script_body-check_gcra :
    (stored : Option ℕ) (now ei bo cost : ℕ)
    → 0 < ei
    → bo / ei ≤ u32_max
    → unwrap_or stored now ≤ now + bo
    → ei * cost + current stored now ≤ max_exact
    → (r : Result (Nanos × RateLimitInfo) RateLimited) × (check_gcra stored now ei bo cost ≡ some r)
      × (script_body stored now ei bo cost ≡ ok (scripted now r))
unfolding script_body script_decision reference
script_body-check_gcra stored now ei bo cost ei_pos small near exact =
    let e = effective-current stored now bo near in
    let f = check_gcra-reference stored now ei bo cost ei_pos (omega arith) in
    (
      reference stored now ei bo cost,
      f,
      rw (e, remaining_fits now ei bo (current stored now + ei * cost) ei_pos small (omega arith))
          (ground arith),
    )

-- The key outlives its bucket, by less than a millisecond.
pub expiry_bounds :
    (now t : ℕ) (w : Write)
    → written now t ≡ some w
    → (t ≤ now + w.expire_ms * 1000) × (now + w.expire_ms * 1000 < t + 1000)
unfolding ceil_div
expiry_bounds now t w e = ground arith
