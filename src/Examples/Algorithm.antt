-- ===== src/Examples/Algorithm.antt =====
-- The algorithm of src/gcra.rs at concrete inputs: an interval of 10, a burst of 3 requests.
use tower_rate_tier.Gcra.{RateLimitInfo, RateLimited, check_gcra}
use tower_rate_tier.Gcra.Retry.{IsAllowed, IsRefused, retry_after_exact}
use tower_rate_tier.Gcra.Tokens.{Admits, check_gcra-Admits}
use tower_rate_tier.Prelude.{◌+◌, ◌<◌, Result, arith, err, none, ok, refl, some, ◌≡◌, ◌≤◌}
use tower_rate_tier.Quota.{Nanos}
use tower_rate_tier.Storage.Redis.Agreement.{script_body-check_gcra, scripted}
use tower_rate_tier.Storage.Redis.Script.{script_body}

-- A fresh bucket.
check_gcra-Admits_example : Admits none 100 10 30 2 (check_gcra none 100 10 30 2)
check_gcra-Admits_example =
    check_gcra-Admits none 100 10 30 2 (omega arith) (omega arith) (omega arith)

-- A bucket that two of the three requests were taken from, asked for two more.
abbrev refused : RateLimited
refused = record { limit = 3; retry_after = 10; reset_after = 20 }

refused_run : check_gcra (some 120) 100 10 30 2 ≡ some (err refused)
unfolding check_gcra
refused_run = refl

retry_after_exact_example :
    (100 + 10 ≤ 110 → IsAllowed (check_gcra (some 120) 110 10 30 2))
    × (110 < 100 + 10 → IsRefused (check_gcra (some 120) 110 10 30 2))
retry_after_exact_example =
    retry_after_exact (some 120) 100 10 30 2 refused 110 (omega arith) (omega arith) refused_run
      (omega arith) (omega arith)

-- The reply of the script at the same numbers.
script_body-check_gcra_example :
    (r : Result (Nanos × RateLimitInfo) RateLimited) × (check_gcra (some 120) 100 10 30 1 ≡ some r)
    × (script_body (some 120) 100 10 30 1 ≡ ok (scripted 100 r))
script_body-check_gcra_example =
    script_body-check_gcra (some 120) 100 10 30 1 (omega arith) (omega arith) (omega arith)
      (omega arith)
