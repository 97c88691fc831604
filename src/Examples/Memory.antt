-- ===== src/Examples/Memory.antt =====
-- The memory storage of src/storage/memory.rs at concrete inputs: three requests in 30 nanoseconds.
use tower_rate_tier.Storage.Memory.{check_and_update as check_memory, new as new_memory}
use tower_rate_tier.Storage.Memory.Runs.{check as check_op}
use tower_rate_tier.Examples.Table.{table}
use tower_rate_tier.Gcra.{RateLimitInfo, check_gcra}
use tower_rate_tier.Prelude.{
  ◌*◌, ◌+◌, ◌-◌, List, Panics, [], arith, err, none, ok, refl, some, ◌∷◌, ◌≡◌, ◌≤◌,
}
use tower_rate_tier.Prelude.Text.{codes, text_eq}
use tower_rate_tier.Quota.{
  Quota, burst_offset_nanos, emission_interval_nanos, is_unlimited, replenish_interval, with_window,
}
use tower_rate_tier.Quota.Bounds.{IsLimited}
use tower_rate_tier.Storage.{StorageKey}
use tower_rate_tier.Storage.DashMap.{key_eq}
use tower_rate_tier.Storage.Memory.{MemoryStorage, retain_active}
use tower_rate_tier.Storage.Memory.Buckets.{key_of}
use tower_rate_tier.Storage.Memory.Collection.{checks_only, collection_invisible}
use tower_rate_tier.Storage.Memory.Rate.{UsesQuota, spent, spent_bound}
use tower_rate_tier.Storage.Memory.Remaining.{CountsDown, remaining_exact}
use tower_rate_tier.Storage.Memory.Runs.{Op, Ordered, Served, answers, collect, run}

abbrev pub quota : Quota
quota = record { max_burst = 3; window = 30 }

pub quota-IsLimited : IsLimited quota
quota-IsLimited = record { count_pos = omega arith; fast_enough = omega arith }

abbrev pub ana : StorageKey
ana = record { user_id = codes "ana"; tier = codes "free" }

abbrev bob : StorageKey
bob = record { user_id = codes "bob"; tier = codes "free" }

abbrev history : List Op
history =
    check_op ana quota 2 100
    ∷ check_op bob quota 1 100
    ∷ check_op ana quota 2 105
    ∷ collect 112
    ∷ check_op ana quota 2 112
    ∷ []

history-Ordered : Ordered 100 history
history-Ordered = ground arith

history-UsesQuota : UsesQuota (key_of ana) quota 112 history
history-UsesQuota = ground (arith, quota-IsLimited)

-- Two of the three requests of ana are admitted.
abbrev history_answers : List Served
history_answers =
    record {
      key = ana;
      cost = 2;
      answer = ok (ok (record { limit = 3; remaining = 1; reset_after = 20 }));
    }
    ∷ record {
      key = bob;
      cost = 1;
      answer = ok (ok (record { limit = 3; remaining = 2; reset_after = 10 }));
    }
    ∷ record {
      key = ana;
      cost = 2;
      answer = ok (err (record { limit = 3; retry_after = 5; reset_after = 15 }));
    }
    ∷ record {
      key = ana;
      cost = 2;
      answer = ok (ok (record { limit = 3; remaining = 0; reset_after = 28 }));
    }
    ∷ []

history_served : answers table (run table (new_memory table) history) ≡ some history_answers
unfolding run check_memory retain_active new_memory check_gcra emission_interval_nanos
    burst_offset_nanos replenish_interval is_unlimited key_eq text_eq
history_served = refl

spent_bound_example :
    (rs : List Served) × (answers table (run table (new_memory table) history) ≡ some rs)
    × (emission_interval_nanos quota * spent (key_of ana) rs
        ≤ burst_offset_nanos quota + (112 - 100))
unfolding new_memory emission_interval_nanos burst_offset_nanos
spent_bound_example =
    spent_bound table (key_of ana) quota quota-IsLimited 100 112 (new_memory table) history
      (omega arith) (ground arith) history-Ordered history-UsesQuota (ground arith)

collection_invisible_example :
    answers table (run table (new_memory table) history)
    ≡ answers table (run table (new_memory table) (checks_only history))
collection_invisible_example =
    collection_invisible table (new_memory table) 100 history history-Ordered

abbrev pub left_by : Panics (List Served × MemoryStorage table) → MemoryStorage table
left_by none = new_memory table
left_by (some (rs, m)) = m

-- What the first request of ana leaves, and says.
abbrev first_info : RateLimitInfo
first_info = record { limit = 3; remaining = 1; reset_after = 20 }

abbrev after_first : MemoryStorage table
after_first = left_by (run table (new_memory table) (check_op ana quota 2 100 ∷ []))

quota_accepted : with_window 3 30 ≡ some quota
unfolding with_window
quota_accepted = refl

first_check :
    check_memory table ana quota 2 100 (new_memory table) ≡ some (ok (ok first_info), after_first)
unfolding run check_memory new_memory check_gcra emission_interval_nanos burst_offset_nanos
    replenish_interval is_unlimited key_eq text_eq
first_check = refl

remaining_exact_example :
    (rs : List Served) × (answers table
        (run table after_first (check_op ana quota 1 100 ∷ check_op ana quota 1 100 ∷ []))
      ≡ some rs)
    × CountsDown 1 rs
unfolding new_memory emission_interval_nanos burst_offset_nanos
remaining_exact_example =
    remaining_exact table 3 30 quota ana 2 100 (new_memory table) after_first first_info
      (omega arith) (omega arith) quota_accepted (omega arith) (ground arith) (ground arith)
      first_check
