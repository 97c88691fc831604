-- ===== src/Examples/Readiness.antt =====
-- The readiness of src/service.rs at a concrete wrapped service.
use tower_rate_tier.Examples.Service.{http, limiter, settings}
use tower_rate_tier.Examples.Table.{table}
use tower_rate_tier.Prelude.{Bool, List, [], false, refl, true, ℕ, ◌∷◌}
use tower_rate_tier.Service.Readiness.{
  IsReady, Moves, Runs, Runs-IsReady, Tower, Wrapped, calls, plain, poll_ready, polls, take_inner,
}
use tower_rate_tier.Storage.Memory.{MemoryStorage}

-- A wrapped service that is its readiness: polling makes it ready, and a clone is not.
abbrev flag : Wrapped Bool
flag = record {
  poll_ready = λ i. (true, true);
  clone = λ i. false;
  ready = λ i. i;
  polled_ready = λ i e. refl;
}

abbrev tower_of : Bool → Bool → List Bool → Tower http (MemoryStorage table) ℕ flag
tower_of inner was_polled taken = record {
  service = plain (record { inner = inner; rate_tier = limiter; settings = settings });
  polled = was_polled;
  taken = taken;
}

fresh-IsReady : IsReady http (MemoryStorage table) ℕ flag (tower_of false false [])
fresh-IsReady = record { service = λ e. absurd cc; taken = tt }

first_poll :
    Moves http (MemoryStorage table) ℕ flag (tower_of false false []) (tower_of true true [])
unfolding poll_ready
first_poll = polls refl

first_call :
    Moves http
      (MemoryStorage table)
      ℕ
      flag
      (tower_of true true [])
      (tower_of false false (true ∷ []))
unfolding take_inner
first_call = calls refl refl

Runs-IsReady_example : IsReady http (MemoryStorage table) ℕ flag (tower_of false false (true ∷ []))
Runs-IsReady_example =
    Runs-IsReady http (MemoryStorage table) ℕ flag (tower_of false false [])
      (tower_of false false (true ∷ [])) fresh-IsReady
      (Runs.then (Runs.then Runs.start first_poll) first_call)
