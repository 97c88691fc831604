-- ===== src/Storage/Redis/Served.antt =====
-- One call of src/storage/redis.rs that the server's script answers, against src/gcra.rs.
use mathlib.Core.Path.{ap₂}
use native.Mathlib.Nat.{mul-le-mul_left}
use tower_rate_tier.Duration.{Duration}
use tower_rate_tier.Gcra.{RateLimitInfo, RateLimited, check_gcra, unwrap_or}
use tower_rate_tier.Gcra.Decision.{current}
use tower_rate_tier.Prelude.{
  ◌*◌, ◌+◌, ◌/◌, ◌<◌, Bool, if◌then◌else◌, Option, Panics, Result, [], ap, arith, err, false, ltb,
  none, ok, refl, some, sym, true, u32_max, u64_max, ℕ, ◌∙◌, ◌≡◌, ◌≤◌,
}
use tower_rate_tier.Prelude.Int.{pos}
use tower_rate_tier.Prelude.Text.{decimal, Text}
use tower_rate_tier.Quota.{Nanos, Quota, with_window}
use tower_rate_tier.Quota.Bounds.{with_window-max_burst, with_window_lem}
use tower_rate_tier.Storage.{Decision, StorageError, StorageKey}
use tower_rate_tier.Storage.Redis.{
  RedisStorage, ScriptCall, check_and_update, decision_of, decode_reply, is_one, micros,
  remaining_u32, script_call,
}
use tower_rate_tier.Storage.Redis.Agreement.{script_body-check_gcra, scripted, written}
use tower_rate_tier.Storage.Redis.Key.{Sha1}
use tower_rate_tier.Storage.Redis.Script.{
  ScriptError, Write, exact_integer, gcra_script, max_exact, script_body,
}
use tower_rate_tier.Storage.Redis.Server.{
  Expiry, Server, answered, apply_write, argv_now, live, on_server,
}
use tower_rate_tier.Storage.Redis.Units.{burst, script_call-IsTighter}

-- The decision of the algorithm in microseconds, for a quota of `limit` requests.
abbrev pub in_micros : ℕ → Result (Nanos × RateLimitInfo) RateLimited → Decision
in_micros limit (ok (t, i)) =
    ok (ok (record { limit = limit; remaining = i.remaining; reset_after = i.reset_after * 1000 }))
in_micros limit (err l) = ok (
    err (record {
      limit = limit;
      retry_after = l.retry_after * 1000;
      reset_after = l.reset_after * 1000;
    }))

-- What the script writes for the algorithm's result.
abbrev pub write_of : ℕ → Result (Nanos × RateLimitInfo) RateLimited → Option Write
write_of now (ok (t, i)) = written now t
write_of now (err l) = none

remaining-le :
    (tat : Option ℕ) (now ei bo cost : ℕ) (t : Nanos) (i : RateLimitInfo)
    → check_gcra tat now ei bo cost ≡ some (ok (t, i))
    → i.remaining ≤ u32_max
unfolding check_gcra
remaining-le tat now ei bo cost t i e = ground arith

gcra_script-accepts :
    (now : ℕ) (stored : Option ℕ) (ei bo cost : ℕ)
    → 1 ≤ ei
    → ei ≤ bo
    → bo < max_exact
    → cost < max_exact
    → now < max_exact
    → gcra_script none now stored ei bo cost ≡ script_body stored now ei bo cost
unfolding gcra_script script_body
gcra_script-accepts now stored ei bo cost a b c d e =
    let ei1 : ltb ei 1 ≡ false = ground arith in
    let ei2 : ltb ei max_exact ≡ true = ground arith in
    let bo1 : ltb bo ei ≡ false = ground arith in
    let bo2 : ltb bo max_exact ≡ true = ground arith in
    let cost2 : ltb cost max_exact ≡ true = ground arith in
    let now2 : ltb now max_exact ≡ true = ground arith in
    rw (gcra_script, exact_integer, ei1, ei2, bo1, bo2, cost2, now2) refl

burst-count : (ei n : ℕ) → 1 ≤ ei → ei * n / ei ≡ n
burst-count ei n h = grind arith

burst-le : (ei n m : ℕ) → n ≤ m → ei * n ≤ ei * m
burst-le ei n m h = mul-le-mul_left ei h

-- The script on its own clock is the algorithm, for a burst of `n` requests.
gcra_script-check_gcra :
    (stored : Option ℕ) (now ei n cost : ℕ)
    → 1 ≤ ei
    → 1 ≤ n
    → n ≤ u32_max
    → cost ≤ n
    → now + ei * n + ei * n < max_exact
    → unwrap_or stored now ≤ now + ei * n
    → (r : Result (Nanos × RateLimitInfo) RateLimited) × (check_gcra stored now ei (ei * n) cost
        ≡ some r)
      × (gcra_script none now stored ei (ei * n) cost ≡ ok (scripted now r))
gcra_script-check_gcra stored now ei n cost a b count cheap exact near =
    let one : ei * 1 ≤ ei * n = burst-le ei 1 n b in
    let c : ei * cost ≤ ei * n = burst-le ei cost n cheap in
    let k : ei * n / ei ≡ n = burst-count ei n a in
    let t : current stored now ≤ now + ei * n = ground arith in
    let (r, e, f) =
      script_body-check_gcra stored now ei (ei * n) cost a (omega arith) near (omega arith) in
    (
      r,
      e,
      gcra_script-accepts now stored ei (ei * n) cost a (omega arith) (omega arith) (omega arith)
            (omega arith)
          ∙ f,
    )

-- The decision and the server after the algorithm's result.
abbrev pub outcome :
    ℕ → Server → Text → Result (Nanos × RateLimitInfo) RateLimited → Decision × Server
outcome n sv key r = (in_micros n r, apply_write sv key (write_of sv.clock r))

decode_reply-ok :
    (n : ℕ) (t : Nanos) (i : RateLimitInfo)
    → i.remaining ≤ u32_max
    → ok (decode_reply (pos 1) (pos i.remaining) (pos 0) (pos i.reset_after) n)
      ≡ in_micros n (ok (t, i))
unfolding decode_reply remaining_u32 micros is_one
decode_reply-ok n t i h = ground arith

decode_reply-err :
    (n : ℕ) (l : RateLimited)
    → ok (decode_reply (pos 0) (pos 0) (pos l.retry_after) (pos l.reset_after) n)
      ≡ in_micros n (err l)
unfolding decode_reply micros is_one
decode_reply-err n l = refl

module _ (sha1 : Sha1) (x : Expiry) (message : ScriptError → StorageError)
    (timeout_error : Duration → StorageError) (s : RedisStorage Server) where
  decision_of-scripted :
      (n : ℕ) (sv : Server) (key : Text) (r : Result (Nanos × RateLimitInfo) RateLimited)
      → ((t : Nanos) (i : RateLimitInfo) → r ≡ ok (t, i) → i.remaining ≤ u32_max)
      → (let (i, sv') = answered x message timeout_error sv key (ok (scripted sv.clock r)) in
          (decision_of sha1 (on_server x message timeout_error s) n i, sv'))
        ≡ outcome n sv key r
  decision_of-scripted n sv key (ok (t, i)) h =
      ap (λ d. (d, apply_write sv key (written sv.clock t))) (decode_reply-ok n t i (h t i refl))
  decision_of-scripted n sv key (err l) h = ap (λ d. (d, sv)) (decode_reply-err n l)

  -- The reply to a script call, decoded.
  abbrev pub reply_of : ℕ → Server → ScriptCall → Panics (Decision × Server)
  reply_of n sv sent =
      let (i, sv') = answered x message timeout_error sv sent.key (
        gcra_script (argv_now sent.now) sv.clock (live x sv.clock (sv.entries sent.key))
          sent.emission_interval sent.burst_offset sent.cost) in
      some (decision_of sha1 (on_server x message timeout_error s) n i, sv')

  pub check_and_update-reply_of :
      (key : StorageKey) (q : Quota) (cost : ℕ) (now : Nanos) (sv : Server)
      → check_and_update sha1 (on_server x message timeout_error s) key q cost now sv
        ≡ reply_of q.max_burst sv
            (script_call sha1 (on_server x message timeout_error s) key q cost now)
  unfolding check_and_update
  check_and_update-reply_of key q cost now sv = refl

  script_call-fields :
      (key : StorageKey) (q : Quota) (cost : ℕ) (now : Nanos) (sent : ScriptCall)
      → s.client_clock ≡ false
      → script_call sha1 (on_server x message timeout_error s) key q cost now ≡ sent
      → (sent.now ≡ []) × (sent.cost ≡ cost)
  unfolding script_call
  script_call-fields key q cost now sent server_clock c = (
    ap (λ k. k.now) (sym c)
        ∙ ap (λ (b : Bool). if b then decimal (now / 1000) else []) server_clock,
    ap (λ k. k.cost) (sym c),
  )

  reply_of-outcome :
      (n cost : ℕ) (sv : Server) (sent : ScriptCall)
      (r : Result (Nanos × RateLimitInfo) RateLimited)
      → sent.now ≡ []
      → sent.cost ≡ cost
      → sent.burst_offset ≡ sent.emission_interval * n
      → check_gcra
          (live x sv.clock (sv.entries sent.key))
          sv.clock
          sent.emission_interval
          (sent.emission_interval * n)
          cost
        ≡ some r
      → gcra_script none sv.clock
          (live x sv.clock (sv.entries sent.key))
          sent.emission_interval
          (sent.emission_interval * n)
          cost
        ≡ ok (scripted sv.clock r)
      → (check_gcra
            (live x sv.clock (sv.entries sent.key))
            sv.clock
            sent.emission_interval
            sent.burst_offset
            cost
          ≡ some r)
        × (reply_of n sv sent ≡ some (outcome n sv sent.key r))
  reply_of-outcome n cost sv sent r k g f d e = (
    rw f d,
    rw (k, f, g, e)
        (ap some (
          decision_of-scripted n sv sent.key r (λ t i j.
            remaining-le (live x sv.clock (sv.entries sent.key)) sv.clock sent.emission_interval
              (sent.emission_interval * n) cost t i (d ∙ ap some j)))),
  )

  -- One check of the Redis storage over a server, with any settings but `use_client_clock`, of a
  -- quota of at most u32::MAX requests in at most u64::MAX nanoseconds that `with_window` accepts,
  -- with a cost of at most those requests, and while the server's clock and the burst stay in Lua's
  -- exact range and the stored time is at most one burst ahead, is one check of the algorithm on
  -- the server's time and numbers: the same decision, its durations turned to nanoseconds, and the
  -- new time stored under the bucket's key alone.
  pub check_and_update-outcome :
      (key : StorageKey) (n w : ℕ) (q : Quota) (cost : ℕ) (now : Nanos) (sv : Server)
      (sent : ScriptCall)
      → s.client_clock ≡ false
      → n ≤ u32_max
      → w ≤ u64_max
      → with_window n w ≡ some q
      → cost ≤ n
      → script_call sha1 (on_server x message timeout_error s) key q cost now ≡ sent
      → sv.clock + sent.burst_offset + sent.burst_offset < max_exact
      → unwrap_or (live x sv.clock (sv.entries sent.key)) sv.clock ≤ sv.clock + sent.burst_offset
      → (r : Result (Nanos × RateLimitInfo) RateLimited) × (check_gcra
            (live x sv.clock (sv.entries sent.key))
            sv.clock
            sent.emission_interval
            sent.burst_offset
            cost
          ≡ some r)
        × (check_and_update sha1 (on_server x message timeout_error s) key q cost now sv
            ≡ some (outcome n sv sent.key r))
  check_and_update-outcome key n w q cost now sv sent server_clock count window e cheap c exact
        near =
      let (one, low, high, burst, covers) =
        script_call-IsTighter sha1 (on_server x message timeout_error s) key n w cost q now count
          window e in
      let l = with_window_lem n w q e in
      let m = with_window-max_burst n w q e in
      let f : sent.burst_offset ≡ sent.emission_interval * n = rw (sym c) burst in
      let (k, g) = script_call-fields key q cost now sent server_clock c in
      let o : 1 ≤ sent.emission_interval = rw (sym c) one in
      let (r, d, v) =
        gcra_script-check_gcra (live x sv.clock (sv.entries sent.key)) sv.clock
          sent.emission_interval n cost o (omega (arith, l.count_pos)) count cheap (omega arith)
          (omega arith) in
      let (d', v') = reply_of-outcome n cost sv sent r k g f d v in
      (r, d', check_and_update-reply_of key q cost now sv ∙ ap₂ (λ b k. reply_of b sv k) m c ∙ v')
