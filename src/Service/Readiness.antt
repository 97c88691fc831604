-- ===== src/Service/Readiness.antt =====
-- Readiness in src/service.rs and src/buffered.rs: a service of the crate tower may be called only
-- after its poll_ready has returned Ready, and a clone of a ready service need not be ready.
use tower_rate_tier.Cost.{TierCostService}
use tower_rate_tier.Http.{Http}
use tower_rate_tier.Prelude.{◌++◌, Bool, List, [], arith, false, refl, true, ◌∷◌, ◌≡◌}
use tower_rate_tier.Prelude.Lists.{All}
use tower_rate_tier.Service.Layers.{BufferedTierLimitService, TierLimitService}

-- What the middleware uses of the wrapped service: poll_ready, with whether it returned Ready, and
-- clone. `ready` says that the service may be called.
pub record Wrapped (I : Type 0) : Type 0 where
  pub poll_ready : I → Bool × I
  pub clone : I → I
  pub ready : I → Bool
  pub polled_ready : (i : I) → (poll_ready i).0 ≡ true → ready (poll_ready i).1 ≡ true

module _ {h : Http} {S W I : Type 0} (c : Wrapped I) where
  -- `TierLimitService::poll_ready`
  unfoldable pub poll_ready : TierLimitService h S W I → Bool × TierLimitService h S W I
  poll_ready s = let (answer, inner) = c.poll_ready s.inner in (answer, record s { inner = inner })

  -- The first lines of `call`: the instance that the future takes, and the service that stays. A
  -- clone is made, and swapped with the instance in the service.
  unfoldable pub take_inner : TierLimitService h S W I → I × TierLimitService h S W I
  take_inner s = let inner = c.clone s.inner in (s.inner, record s { inner = inner })

  -- `BufferedTierLimitService::poll_ready`, and the first lines of its `call`.
  unfoldable pub poll_ready_buffered :
      BufferedTierLimitService h S W I → Bool × BufferedTierLimitService h S W I
  poll_ready_buffered s =
      let (answer, inner) = c.poll_ready s.inner in (answer, record s { inner = inner })

  unfoldable pub take_inner_buffered :
      BufferedTierLimitService h S W I → I × BufferedTierLimitService h S W I
  take_inner_buffered s = let inner = c.clone s.inner in (s.inner, record s { inner = inner })

module _ {I : Type 0} (c : Wrapped I) where
  -- `TierCostService::poll_ready`. Its `call` calls the instance itself.
  unfoldable poll_ready_cost : TierCostService I → Bool × TierCostService I
  poll_ready_cost s =
      let (answer, inner) = c.poll_ready s.inner in (answer, record s { inner = inner })

  poll_ready_cost-ready :
      (s : TierCostService I)
      → (poll_ready_cost s).0 ≡ true
      → c.ready (poll_ready_cost s).1.inner ≡ true
  unfolding poll_ready_cost
  poll_ready_cost-ready s e = c.polled_ready s.inner e

-- Either service.
pub data Front (h : Http) (S W I : Type 0) : Type 0 where
  plain : TierLimitService h S W I → Front h S W I
  buffered : BufferedTierLimitService h S W I → Front h S W I

module _ {h : Http} {S W I : Type 0} where
  abbrev pub inner_of : Front h S W I → I
  inner_of (plain s) = s.inner
  inner_of (buffered s) = s.inner

  module _ (c : Wrapped I) where
    abbrev pub poll_front : Front h S W I → Bool × Front h S W I
    poll_front (plain s) = let (answer, s') = poll_ready c s in (answer, plain s')
    poll_front (buffered s) = let (answer, s') = poll_ready_buffered c s in (answer, buffered s')

    abbrev pub take_front : Front h S W I → I × Front h S W I
    take_front (plain s) = let (i, s') = take_inner c s in (i, plain s')
    take_front (buffered s) = let (i, s') = take_inner_buffered c s in (i, buffered s')

    poll_front-ready :
        (s : Front h S W I) → (poll_front s).0 ≡ true → c.ready (inner_of (poll_front s).1) ≡ true
    unfolding poll_ready poll_ready_buffered
    poll_front-ready (plain s) e = c.polled_ready s.inner e
    poll_front-ready (buffered s) e = c.polled_ready s.inner e

    take_front-inner_of : (s : Front h S W I) → (take_front s).0 ≡ inner_of s
    unfolding take_inner take_inner_buffered
    take_front-inner_of (plain s) = refl
    take_front-inner_of (buffered s) = refl

middle_removed :
    {A : Type 0} (P : A → Type 0) (xs ys : List A) (a : A) → All P (xs ++ a ∷ ys) → All P (xs ++ ys)
middle_removed P [] ys a h = h.1
middle_removed P (x ∷ xs) ys a h = (h.0, middle_removed P xs ys a h.1)

module _ (h : Http) (S W : Type 0) {I : Type 0} (c : Wrapped I) where
  -- A service, whether its last poll_ready returned Ready and no call was made since, and the
  -- instances that the futures of its calls have taken and not yet called.
  pub record Tower : Type 0 where
    pub service : Front h S W I
    pub polled : Bool
    pub taken : List I

  -- A caller that keeps to the contract calls only a service that was polled ready.
  pub data Moves : Tower → Tower → Type 0 where
    polls :
        {t u : Tower}
        → u ≡ record {
          service = (poll_front c t.service).1;
          polled = (poll_front c t.service).0;
          taken = t.taken;
        }
        → Moves t u
    calls :
        {t u : Tower}
        → t.polled ≡ true
        → u ≡ record {
          service = (take_front c t.service).1;
          polled = false;
          taken = (take_front c t.service).0 ∷ t.taken;
        }
        → Moves t u
    forwards :
        {t u : Tower} (before after : List I) (i : I)
        → t.taken ≡ before ++ i ∷ after
        → u ≡ record t { taken = before ++ after }
        → Moves t u

  pub data Runs (t : Tower) : Tower → Type 0 where
    start : Runs t t
    then : {u v : Tower} → Runs t u → Moves u v → Runs t v

  -- A polled service is ready, and so is every instance that was taken.
  pub record IsReady (t : Tower) : Type 0 where
    pub service : t.polled ≡ true → c.ready (inner_of t.service) ≡ true
    pub taken : All (λ i. c.ready i ≡ true) t.taken

  Moves-IsReady : (t u : Tower) → Moves t u → IsReady t → IsReady u
  Moves-IsReady t u (polls e) r =
      rw e (record { service = λ p. poll_front-ready c t.service p; taken = r.taken })
  Moves-IsReady t u (calls p e) r = rw e (record {
    service = λ q. absurd (ground arith);
    taken = (rw (take_front-inner_of c t.service) (r.service p), r.taken);
  })
  Moves-IsReady t u (forwards before after i at e) r = rw e (record {
    service = r.service;
    taken = middle_removed (λ i. c.ready i ≡ true) before after i (rw at at r.taken);
  })

  -- From either service, plain or buffering, that is ready if it was polled ready, whatever calls
  -- are made by a caller that polls before each of them, and in whatever order their futures call
  -- the wrapped service: each instance that a future has taken is ready, and so is the service
  -- whenever it was polled ready.
  pub Runs-IsReady : (t u : Tower) → IsReady t → Runs t u → IsReady u
  Runs-IsReady t u r start = r
  Runs-IsReady t u r (then {u = v} past move) = Moves-IsReady v u move (Runs-IsReady t v r past)
