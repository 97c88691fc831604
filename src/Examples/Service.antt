-- ===== src/Examples/Service.antt =====
-- The middleware of src/service.rs at a concrete request: a model of the crate `http`, one tier
-- over the memory storage, and a service that answers.
use tower_rate_tier.Storage.Memory.{new as new_memory}
use Prim.Native.Nat.{zero-le}
use tower_rate_tier.Duration.{from_secs}
use tower_rate_tier.Examples.Memory.{quota}
use tower_rate_tier.Examples.Table.{table}
use tower_rate_tier.Gcra.{RateLimitInfo}
use tower_rate_tier.HashMap.{contains_key, is_empty}
use tower_rate_tier.Http.{
  HeaderName, Http, Request, Response, or_else, other, same_name, x_ratelimit_limit,
}
use tower_rate_tier.Layer.{Bytes, Settings, headers_only}
use tower_rate_tier.Policy.{OnMissing, OnStorageError, OnUnknownTier}
use tower_rate_tier.Prelude.{
  ◌++◌, ◌<◌, Bool-cases, List, Option, [], arith, false, if◌then◌else◌, inl, inr, leb, none, ok,
  refl, some, true, ℕ, ◌∷◌, ◌≡◌, ◌≢◌, ◌≤◌, ◌⊎◌,
}
use tower_rate_tier.Prelude.Lists.{length}
use tower_rate_tier.Prelude.Text.{Text, codes, text_eq}
use tower_rate_tier.Response.{bad_request, inject_headers, payload_too_large}
use tower_rate_tier.Response.Headers.{IsAnnotated, inject_headers-IsAnnotated}
use tower_rate_tier.Service.{Env, Inner, call, into_body, limit_request}
use tower_rate_tier.Service.Agreement.{call_buffered-call, call_buffered-rejects}
use tower_rate_tier.Service.Buffered.{
  BodyReader, Collected, body_failed, call_buffered, collected, too_long,
}
use tower_rate_tier.Service.Verdict.{limit_request-Verdict}
use tower_rate_tier.Service.Verdict.Kinds.{Verdict}
use tower_rate_tier.Storage.Memory.{MemoryStorage, memory_storage}
use tower_rate_tier.SystemTime.{after_epoch}
use tower_rate_tier.Tier.{RateTier, World, use_storage}
use tower_rate_tier.Tier.Builder.{Built, RateTierBuilder, assemble, build, built_in}

abbrev pub Headers : Type 0
Headers = List (HeaderName × Text)

abbrev pub first : Headers → HeaderName → Option Text
first [] n = none
first ((m, v) ∷ h) n = if same_name m n then some v else first h n

pub first-append :
    (h : Headers) (n m : HeaderName) (v : Text)
    → first (h ++ (n, v) ∷ []) m
      ≡ (if same_name n m then or_else (first h m) (some v) else first h m)
first-append [] n m v = ground arith
first-append ((k, w) ∷ h) n m v = ground (arith, first-append h n m v)

abbrev pub http : Http
http = record {
  HeaderMap = Headers;
  no_headers = [];
  get = first;
  insert = λ h n v. (n, v) ∷ h;
  append = λ h n v. h ++ (n, v) ∷ [];
  canonical_reason = λ status. none;
  Parts = Headers × Option ℕ;
  headers = λ (h, c). h;
  tier_cost = λ (h, c). c;
  insert_tier_cost = λ cost (h, c). (h, some cost);
  get-no_headers = λ n. refl;
  get-insert = λ h n m v. refl;
  get-append = first-append;
  tier_cost-insert = λ c p. refl;
  headers-insert = λ c p. refl;
}

-- The world is a clock.
abbrev pub limiter : RateTier (MemoryStorage table) ℕ
limiter = record {
  tiers = (codes "free", quota) ∷ [];
  default_tier = some (codes "free");
  on_missing = OnMissing.use_default;
  on_unknown_tier = OnUnknownTier.use_default;
  storage = memory_storage table;
  clock = λ now. now;
  gc = none;
  in_runtime = λ now. true;
}

abbrev pub settings : Settings http ℕ
settings = record {
  identifier =
      headers_only (λ headers w. (some (record { user_id = codes "ana"; tier = codes "free" }), w));
  on_storage_error = OnStorageError.allow;
  on_limited = none;
  rate_limited_response = none;
  on_event = none;
  cost_fn = none;
}

abbrev pub env : Env http Text ℕ
env = record { from_string = λ body. body; wall_clock = λ now. after_epoch now }

abbrev pub answering : Inner http Unit Text ⊥ ℕ
answering req w = (ok (record { status = 200; headers = []; body = codes "hello" }), w)

abbrev pub request : Request http Unit
request = record { parts = ([], some 2); body = tt }

abbrev pub world : World (MemoryStorage table) ℕ
world = record { stored = new_memory table; gc_started = false; rest = 100 }

limit_request-Verdict_example :
    Verdict {E = Unit} env limiter settings request none world.stored
      (λ inner. limit_request env limiter settings inner request none world)
limit_request-Verdict_example = limit_request-Verdict env limiter settings request none world

abbrev pub three : Bytes
three = 1 ∷ 2 ∷ 3 ∷ []

abbrev read_three : ℕ → Collected
read_three limit = if leb 3 limit then collected three else too_long

read_three-fits :
    (limit : ℕ) (bytes : Bytes) → read_three limit ≡ collected bytes → length bytes ≤ limit
read_three-fits limit bytes e = elim (Bool-cases (leb 3 limit)) [
  | inl a ↦ let k = rw a at e in let f : three ≡ bytes = ground arith in rw (← f) (ground arith)
  | inr a ↦ absurd (let k = rw a at e in ground arith)
]

too_long-collected : (bytes : Bytes) → too_long ≢ collected bytes
too_long-collected bytes e = ground arith

abbrev echo : Inner http Bytes Text ⊥ ℕ
echo req w = (ok (record { status = 200; headers = []; body = req.body }), w)

-- A body of three bytes, read whole if the limit allows it.
abbrev reader : BodyReader Unit
reader = record {
  size_hint_lower = λ b. 0;
  collect_limited = λ limit b. read_three limit;
  within_limit = λ limit b bytes e. read_three-fits limit bytes e;
  hint_holds = λ limit b bytes e. zero-le;
}

call_buffered-call_example :
    call_buffered env reader 10 limiter settings echo request world
    ≡ call env limiter settings echo (record { parts = request.parts; body = three }) world
unfolding headers_only
call_buffered-call_example =
    call_buffered-call env reader 10 limiter settings echo request three world refl refl

call_buffered-rejects_example :
    (r : Response http Text) × (call_buffered env reader 2 limiter settings echo request world
      ≡ some (ok (into_body env r), world))
    × (((2 < reader.size_hint_lower request.body ⊎ reader.collect_limited 2 request.body ≡ too_long)
          × (r.status ≡ payload_too_large))
        ⊎ ((reader.size_hint_lower request.body ≤ 2)
            × (reader.collect_limited 2 request.body ≡ body_failed)
            × (r.status ≡ bad_request)))
call_buffered-rejects_example =
    call_buffered-rejects env reader 2 limiter settings echo request world too_long-collected

abbrev configuration : RateTierBuilder Unit ℕ
configuration = record {
  tiers = (codes "free", quota) ∷ [];
  default_tier = some (codes "free");
  on_missing = OnMissing.use_default;
  on_unknown_tier = OnUnknownTier.use_default;
  clock = none;
  storage = none;
  gc_interval = from_secs 60;
  gc_enabled = true;
}

abbrev limiter_built : Built table Unit ℕ
limiter_built =
    built_in
      (assemble table (λ now. now) (λ now. true) configuration (memory_storage table)
        (some (record { interval = from_secs 60 })))
      (record { stored = new_memory table; gc_started = true; rest = 100 })

build_run : build table (λ now. now) (λ now. true) configuration 100 ≡ some limiter_built
unfolding build is_empty contains_key use_storage text_eq
build_run = refl

-- A reply of a service that sets a rate header itself.
abbrev reply : Response http Text
reply = record {
  status = 200;
  headers = (x_ratelimit_limit, codes "9") ∷ (other (codes "etag"), codes "x") ∷ [];
  body = codes "hello";
}

abbrev decision : RateLimitInfo
decision = record { limit = 3; remaining = 1; reset_after = 20 }

inject_headers-IsAnnotated_example :
    IsAnnotated http reply decision
      (after_epoch 5)
      (codes "etag")
      (inject_headers http reply decision (after_epoch 5))
inject_headers-IsAnnotated_example =
    inject_headers-IsAnnotated http reply decision (after_epoch 5) (codes "etag")
