-- ===== src/Examples/Shared.antt =====
-- Two instances that share one Redis server, at a quota of two requests in a minute.
use tower_rate_tier.Duration.{Duration}
use tower_rate_tier.Examples.Memory.{ana}
use tower_rate_tier.Examples.Redis.{constant}
use tower_rate_tier.Gcra.{RateLimitInfo, RateLimited, check_gcra}
use tower_rate_tier.Prelude.{
  ◌*◌, ◌+◌, ◌-◌, List, Panics, Result, [], arith, false, leb, none, refl, some, true, ℕ, ◌∷◌, ◌≡◌,
  ◌≤◌,
}
use tower_rate_tier.Prelude.Text.{Text, codes, text_eq}
use tower_rate_tier.Quota.{Nanos, Quota, burst_offset_nanos, emission_interval_nanos, with_window}
use tower_rate_tier.Storage.{Decision, StorageError}
use tower_rate_tier.Storage.Redis.{
  RedisStorage, ScriptCall, check_and_update, default_timeout, redis_storage, script_call,
}
use tower_rate_tier.Storage.Redis.Key.{redis_key}
use tower_rate_tier.Storage.Redis.Rate.{Arrival, runs, shared_spent_bound, spent_under}
use tower_rate_tier.Storage.Redis.Script.{ScriptError, exact_integer, gcra_script}
use tower_rate_tier.Storage.Redis.Served.{check_and_update-outcome, outcome}
use tower_rate_tier.Storage.Redis.Server.{Expiry, Server, on_server, script_connection}
use tower_rate_tier.Storage.Serve.{StorageRequest, ask}

pub exact_not_early :
    (set_at expire_ms now : ℕ)
    → leb (set_at + expire_ms * 1000) now ≡ true
    → set_at + expire_ms * 1000 ≤ now
exact_not_early set_at expire_ms now e = ground arith

abbrev pub exact_expiry : Expiry
exact_expiry = record {
  gone = λ set_at expire_ms now. leb (set_at + expire_ms * 1000) now;
  not_early = exact_not_early;
}

abbrev pub script_message : ScriptError → StorageError
script_message e = record { message = codes "ERR" }

abbrev pub late : Duration → StorageError
late limit = record { message = codes "timed out" }

abbrev pub two_quota : Quota
two_quota = record { max_burst = 2; window = 60_000_000_000 }

pub two_accepted : with_window 2 60_000_000_000 ≡ some two_quota
unfolding with_window
two_accepted = refl

-- Plain user ids, and the other settings as `new` sets them.
abbrev pub instance_a : RedisStorage Server
instance_a = record {
  conn = script_connection exact_expiry script_message late;
  key_prefix = codes "trt:";
  timeout = default_timeout;
  hash_user_ids = false;
  key_secret = none;
  client_clock = false;
}

abbrev pub ask_for_ana : ℕ → StorageRequest
ask_for_ana now = record { key = ana; quota = two_quota; cost = 1; now = now }

abbrev arrivals : List Arrival
arrivals =
    record { instance_of = instance_a; request = ask_for_ana 7; at = 1_000 }
    ∷ record { instance_of = instance_a; request = ask_for_ana 900; at = 1_010 }
    ∷ record { instance_of = instance_a; request = ask_for_ana 0; at = 1_020 }
    ∷ record { instance_of = instance_a; request = ask_for_ana 3; at = 90_001_000 }
    ∷ []

abbrev pub empty_server : Server
empty_server = record { entries = λ k. none; clock = 0 }

abbrev pub place_of_ana : Text
place_of_ana = redis_key constant false none (codes "trt:") ana

shared_spent_bound_example :
    (out : List (Arrival × Decision)) × (sv : Server) × (runs constant exact_expiry script_message
        late empty_server arrivals
      ≡ some (out, sv))
    × (emission_interval_nanos two_quota
          * spent_under constant exact_expiry script_message late place_of_ana out
        ≤ burst_offset_nanos two_quota + (90_001_000 - 1_000) * 1000)
shared_spent_bound_example =
    shared_spent_bound constant exact_expiry script_message late place_of_ana 2 60_000_000_000
      two_quota 1_000 90_001_000 empty_server arrivals (omega arith) (omega arith) two_accepted
      (ground arith) (λ e. refl, (λ e. refl, (λ e. refl, (λ e. refl, tt))))
      (refl, (refl, (refl, (refl, tt)))) tt

-- The third request within the minute is refused, the one after it is over is allowed.
abbrev spent_by_ana : Panics (List (Arrival × Decision) × Server) → ℕ
spent_by_ana none = 0
spent_by_ana (some (out, sv)) =
    spent_under constant exact_expiry script_message late place_of_ana out

three_admitted :
    spent_by_ana (runs constant exact_expiry script_message late empty_server arrivals) ≡ 3
unfolding runs ask redis_storage gcra_script check_gcra redis_key text_eq exact_integer
    check_and_update emission_interval_nanos
three_admitted = refl

abbrev call_for_ana : ScriptCall
call_for_ana = record {
  key = place_of_ana;
  now = [];
  emission_interval = 30_000_000;
  burst_offset = 60_000_000;
  cost = 1;
}

script_call_for_ana :
    script_call constant (on_server exact_expiry script_message late instance_a) ana two_quota 1 7
    ≡ call_for_ana
unfolding script_call emission_interval_nanos
script_call_for_ana = refl

abbrev server_at : ℕ → Server
server_at t = record { entries = λ k. none; clock = t }

check_and_update-outcome_example :
    (r : Result (Nanos × RateLimitInfo) RateLimited) × (check_gcra none 1_000 30_000_000 60_000_000
        1
      ≡ some r)
    × (check_and_update constant
          (on_server exact_expiry script_message late instance_a)
          ana
          two_quota
          1
          7
          (server_at 1_000)
        ≡ some (outcome 2 (server_at 1_000) place_of_ana r))
check_and_update-outcome_example =
    check_and_update-outcome constant exact_expiry script_message late instance_a ana 2
      60_000_000_000 two_quota 1 7 (server_at 1_000) call_for_ana refl (omega arith) (omega arith)
      two_accepted (omega arith) script_call_for_ana (omega arith) (omega arith)
