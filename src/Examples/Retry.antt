-- ===== src/Examples/Retry.antt =====
-- A request to src/service.rs that is refused and comes back, at the limiter of Examples.Service.
use tower_rate_tier.Storage.Memory.{check_and_update as check_memory}
use tower_rate_tier.Storage.Memory.Runs.{check as check_op}
use tower_rate_tier.Examples.Memory.{ana, left_by, quota}
use tower_rate_tier.Examples.Table.{table}
use tower_rate_tier.Gcra.{RateLimited}
use tower_rate_tier.Policy.{TierIdentity}
use tower_rate_tier.Prelude.{List, [], err, false, ok, ℕ, ◌∷◌}
use tower_rate_tier.Prelude.Text.{codes}
use tower_rate_tier.Storage.Memory.{MemoryStorage}
use tower_rate_tier.Storage.Memory.Runs.{Op, Served, collect, run}
use tower_rate_tier.Tier.{World}

-- The bucket is two requests ahead, and a request of cost 2 comes.
abbrev spent_world : World (MemoryStorage table) ℕ
spent_world = record {
  stored = record { state = ((codes "ana", codes "free"), 120) ∷ [] };
  gc_started = false;
  rest = 100;
}

abbrev identity : TierIdentity
identity = record { user_id = codes "ana"; tier = codes "free" }

abbrev refusal_now : RateLimited
refusal_now = record { limit = 3; retry_after = 10; reset_after = 20 }

-- An impatient retry, and a round of the collector, before the second is over.
abbrev meanwhile : List Op
meanwhile = check_op ana quota 2 105 ∷ collect 112 ∷ []

abbrev impatient : Served
impatient = record {
  key = ana;
  cost = 2;
  answer = ok (err (record { limit = 3; retry_after = 5; reset_after = 15 }));
}

abbrev later_world : World (MemoryStorage table) ℕ
later_world = record {
  stored = left_by (run table spent_world.stored meanwhile);
  gc_started = false;
  rest = 1_000_000_100;
}
