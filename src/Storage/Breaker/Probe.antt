-- ===== src/Storage/Breaker/Probe.antt =====
-- The probe: while the breaker is half-open exactly one call is trying the primary.
use tower_rate_tier.Prelude.{
  ◌+◌, ◌++◌, ◌<◌, Bool, Bool-cases, List, [], ap, arith, false, inl, inr, refl, some, sym, true, ℕ,
  ◌∙◌, ◌∷◌, ◌≡◌, ◌≤◌, ◌∷◌,
}
use tower_rate_tier.Quota.{Nanos, Quota}
use tower_rate_tier.Storage.{Decision, StorageKey}
use tower_rate_tier.Storage.Breaker.{
  CircuitBreaker, Shared, admit, check_fallback, drop_guard, settle,
}
use tower_rate_tier.Storage.Breaker.Flights.{
  Flight, Reach, Step, System, answered, armed, dropped, enter, entered, finished, here, next,
  polled, primary_changed, settled, waiting,
}
use tower_rate_tier.Storage.Breaker.Frames.{state-begin, state-finish}
use tower_rate_tier.Storage.Breaker.Transition.{Route, after_call, half_open, is_half_open}
use tower_rate_tier.Storage.DashMap.{DashMap}

abbrev one_if : Bool → ℕ
one_if true = 1
one_if false = 0

-- The armed probes in flight.
abbrev pub probes : List Flight → ℕ
probes [] = 0
probes (f ∷ fs) = one_if (armed f) + probes fs

probes-append : (xs ys : List Flight) → probes (xs ++ ys) ≡ probes xs + probes ys
probes-append [] ys = omega arith
probes-append (f ∷ xs) ys = omega (arith, probes-append xs ys)

probes-remove :
    (xs ys : List Flight) (f : Flight)
    → probes (xs ++ f ∷ ys) ≡ one_if (armed f) + probes (xs ++ ys)
probes-remove xs ys f = omega (arith, probes-append xs (f ∷ ys), probes-append xs ys)

module _ {d : DashMap} {P W : Type 0} (b : CircuitBreaker P W) where
  -- The breaker is half-open exactly while one armed probe is in flight, and otherwise none is.
  abbrev pub IsGuarded : System d P W → Type 0
  IsGuarded s = probes s.flights ≡ one_if (is_half_open s.shared.state)

  settle-IsGuarded :
      (f : Flight) (r : Decision) (s : Shared d P W) (n : ℕ)
      → f.phase ≡ waiting
      → one_if (armed f) + n ≡ one_if (is_half_open s.state)
      → n ≡ one_if (is_half_open (settle b f.route r f.admitted_at s).1.state)
  unfolding settle after_call
  settle-IsGuarded f r s n w h = ground arith

  drop-IsGuarded :
      (f : Flight) (s : Shared d P W) (n : ℕ)
      → one_if (armed f) + n ≡ one_if (is_half_open s.state)
      → n ≡ one_if (is_half_open (drop_guard (armed f) f.admitted_at s).state)
  unfolding drop_guard
  drop-IsGuarded f s n h = ground arith

  enter-IsGuarded :
      (key : StorageKey) (q : Quota) (cost : ℕ) (now : Nanos) (s u : System d P W)
      → enter b key q cost now s ≡ some u
      → IsGuarded s
      → IsGuarded u
  unfolding enter admit check_fallback
  enter-IsGuarded key q cost now s u e g = ground arith

  -- Every step keeps the guard: of any calls, in any interleaving, with any answers of the primary.
  pub Step-IsGuarded : (s u : System d P W) → Step b s u → IsGuarded s → IsGuarded u
  Step-IsGuarded s u (entered key q cost now e) g = enter-IsGuarded key q cost now s u e g
  Step-IsGuarded s u (polled xs ys f at phase e) g = rw e (
      ground (
        arith,
        state-begin f.route f.admitted_at s.shared,
        probes-remove xs ys f,
        probes-remove xs ys (record f { phase = waiting }),
      ))
  Step-IsGuarded s u (answered xs ys f r at phase e) g =
      let n = probes-remove xs ys f in
      let k =
        settle-IsGuarded f r s.shared (probes (xs ++ ys)) phase (sym n ∙ ap probes (sym at) ∙ g) in
      rw e (
        probes-remove xs ys
          (record f { phase = settled (settle b f.route r f.admitted_at s.shared).0 r })
        ∙ ground (arith, k))
  Step-IsGuarded s u (finished xs ys f states r a t at phase done e) g =
      let k = state-finish b f.key f.quota f.cost f.admitted_at states r a s.shared t done in
      rw e (ground (arith, probes-remove xs ys f))
  Step-IsGuarded s u (dropped xs ys f at e) g =
      let n = probes-remove xs ys f in
      rw e (drop-IsGuarded f s.shared (probes (xs ++ ys)) (sym n ∙ ap probes (sym at) ∙ g))
  Step-IsGuarded s u (primary_changed p e) g = rw e g

  -- From a system where it is so, such as a breaker that was just built, whatever calls are made,
  -- polled, answered, finished and dropped in whatever order: exactly one armed probe is in flight
  -- while the breaker is half-open, and none otherwise.
  pub Reach-IsGuarded : (s u : System d P W) → IsGuarded s → Reach b s u → IsGuarded u
  Reach-IsGuarded s u g here = g
  Reach-IsGuarded s u g (next {t} r st) = Step-IsGuarded t u st (Reach-IsGuarded s t g r)

-- The first armed probe.
find_probe :
    (fs : List Flight)
    → 0 < probes fs
    → (xs : List Flight) × (f : Flight) × (ys : List Flight) × (fs ≡ xs ++ f ∷ ys)
      × (armed f ≡ true)
find_probe [] h = absurd (omega arith)
find_probe (f ∷ fs) h = elim (Bool-cases (armed f)) [
  | inl e ↦ ([], f, fs, refl, e)
  | inr e ↦
      let (xs, g, ys, at, a) = find_probe fs (let k = rw e at h in omega arith) in
      (f ∷ xs, g, ys, ap (◌∷◌ f) at, a)
]

module _ {d : DashMap} {P W : Type 0} (b : CircuitBreaker P W) where
  -- A half-open breaker with exactly one armed probe in flight is never stuck: that probe is among
  -- the calls in flight, and if its future is dropped, which leaves the other calls and no armed
  -- probe in flight, then a request at or after the time at which it was admitted probes again.
  pub half_open_released :
      (s : System d P W)
      → IsGuarded b s
      → s.shared.state ≡ half_open
      → (xs ys : List Flight) × (f : Flight) × (u : System d P W) × (s.flights ≡ xs ++ f ∷ ys)
        × (armed f ≡ true)
        × Step b s u
        × (u.flights ≡ xs ++ ys)
        × (probes u.flights ≡ 0)
        × ((now : Nanos) → f.admitted_at ≤ now → (admit u.shared.state now).0 ≡ some Route.probe)
  unfolding drop_guard admit
  half_open_released s g e =
      let (xs, f, ys, at, a) = find_probe s.flights (ground arith) in
      let u : System d P W = record {
        shared = drop_guard (armed f) f.admitted_at s.shared;
        flights = xs ++ ys;
      } in
      (
        xs,
        ys,
        f,
        u,
        at,
        a,
        dropped xs ys f at refl,
        refl,
        ground (arith, probes-remove xs ys f),
        λ now h. ground arith,
      )
