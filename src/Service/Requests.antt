-- ===== src/Service/Requests.antt =====
-- Histories of HTTP requests to src/service.rs over the built-in storage, with the rounds of its
-- collector.
use tower_rate_tier.Check.{CheckOutcome, request_cost, resolve_identity, resolve_quota}
use tower_rate_tier.Http.{Http, Request, Response}
use tower_rate_tier.Layer.{Settings}
use tower_rate_tier.Policy.{TierIdentity}
use tower_rate_tier.Prelude.{
  ◌++◌, ◌>>=◌, List, Option, Panics, Result, [], err, if◌then◌else◌, leb, ok, some, ℕ, ◌∷◌,
}
use tower_rate_tier.Prelude.Text.{Text}
use tower_rate_tier.Quota.{Nanos, Quota}
use tower_rate_tier.Service.{Env, Inner, call}
use tower_rate_tier.Storage.DashMap.{DashMap}
use tower_rate_tier.Storage.Memory.{MemoryStorage, retain_active}
use tower_rate_tier.Storage.Memory.Runs.{Op}
use tower_rate_tier.Tier.{RateTier, World}

-- A request, and the world in which it arrives, with the time that its clock shows.
pub record Arrival (h : Http) (B W : Type 0) : Type 0 where
  pub request : Request h B
  pub at : W

pub data Event (h : Http) (B W : Type 0) : Type 0 where
  arrived : Arrival h B W → Event h B W
  ticked : Nanos → Event h B W

module _ {h : Http} {B R E W : Type 0} (d : DashMap) (env : Env h R W)
    (t : RateTier (MemoryStorage d) W) (s : Settings h W) (inner : Inner h B R E W) where
  -- The requests one after the other, each with its reply.
  unfoldable pub serve_requests :
      World (MemoryStorage d) W
      → List (Event h B W)
      → Panics (List (Arrival h B W × Result (Response h R) E) × World (MemoryStorage d) W)
  serve_requests w [] = some ([], w)
  serve_requests w (ticked now ∷ rest) =
      serve_requests (record w { stored = retain_active d w.stored now }) rest
  serve_requests w (arrived a ∷ rest) =
      call env t s inner a.request (record w { rest = a.at }) >>= λ (reply, w1).
      serve_requests w1 rest >>= λ (out, w2). some ((a, reply) ∷ out, w2)

module _ {h : Http} {B W : Type 0} (s : Settings h W) where
  -- Who a request is from, and the world after the identifier was asked.
  abbrev pub identified_as : Arrival h B W → Option TierIdentity × W
  identified_as a = s.identifier.identify (h.headers a.request.parts) a.at

module _ {h : Http} {S W : Type 0} (t : RateTier S W) (s : Settings h W) where
  -- The storage's operations that a request comes to: none, or one check.
  abbrev pub asks_resolved : Text → ℕ → Result (Text × Quota) (CheckOutcome h) × W → List Op
  asks_resolved user_id cost (err o, w) = []
  asks_resolved user_id cost (ok (tier, q), w) =
      if leb cost q.max_burst
      then Op.check (record { user_id = user_id; tier = tier }) q cost (t.clock w) ∷ []
      else []

  abbrev pub asks_identified : ℕ → Result (Text × Text) (CheckOutcome h) → W → List Op
  asks_identified cost (err o) w = []
  asks_identified cost (ok (user_id, tier)) w =
      asks_resolved user_id cost (resolve_quota t user_id tier s w)

  abbrev pub asks : h.Parts → Option TierIdentity → W → List Op
  asks parts identity w = asks_identified (request_cost parts s) (resolve_identity identity t) w

module _ {h : Http} {B S W : Type 0} (t : RateTier S W) (s : Settings h W) where
  abbrev pub asks_of : List (Event h B W) → List Op
  asks_of [] = []
  asks_of (ticked now ∷ rest) = Op.collect now ∷ asks_of rest
  asks_of (arrived a ∷ rest) =
      asks t s a.request.parts (identified_as s a).0 (identified_as s a).1 ++ asks_of rest
