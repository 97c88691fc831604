-- ===== src/Tier/Builder/Default.antt =====
-- What the checks of RateTierBuilder::build in src/tier.rs guarantee.
use tower_rate_tier.Storage.Memory.{new as new_memory}
use mathlib.Core.Option.{some-injective}
use tower_rate_tier.Check.{default_quota}
use tower_rate_tier.HashMap.{contains_key, get}
use tower_rate_tier.Prelude.{
  ◌>>=◌, Bool, Option, Option-cases, arith, assert-some, false, if◌then◌else◌, inl, inr, none, some,
  subst, true, ◌≡◌,
}
use tower_rate_tier.Prelude.Text.{Text}
use tower_rate_tier.Quota.{Nanos, Quota}
use tower_rate_tier.Storage.{Storage}
use tower_rate_tier.Storage.DashMap.{DashMap}
use tower_rate_tier.Storage.Memory.{memory_storage}
use tower_rate_tier.Tier.{RateTier, get_quota, use_storage}
use tower_rate_tier.Tier.Builder.{
  Built, RateTierBuilder, assemble, build, built_in, custom, default_exists,
}

-- The default tier of a limiter has a quota.
abbrev pub HasDefault : {S W : Type 0} → RateTier S W → Type 0
HasDefault t =
    (name : Text) → t.default_tier ≡ some name → (q : Quota) × (default_quota t ≡ some (name, q))

abbrev pub Configured : {d : DashMap} {S W : Type 0} → Built d S W → Type 0
Configured (custom t) = HasDefault t
Configured (built_in t w) = HasDefault t

exists-HasDefault :
    {S W : Type 0} (t : RateTier S W)
    → (elim t.default_tier [ some name ↦ contains_key t.tiers name | none ↦ true ]) ≡ true
    → HasDefault t
unfolding default_quota get_quota contains_key
exists-HasDefault t e name f =
    let g : contains_key t.tiers name ≡ true = rw f at e in
    elim (Option-cases (get t.tiers name)) [
      | inl a ↦ absurd (let k = rw (contains_key, a) at g in ground arith)
      | inr (q, a) ↦ (q, rw (f, a))
    ]

module _ {S W : Type 0} (d : DashMap) (system_clock : W → Nanos) (in_runtime : W → Bool)
    (b : RateTierBuilder S W) (w : W) where
  assembled-Configured :
      (backend : Option (Storage S)) (built : Built d S W)
      → default_exists d system_clock in_runtime b ≡ true
      → (elim backend [
        | some s ↦ some (custom (assemble d system_clock in_runtime b s none))
        | none ↦
            let gc = if b.gc_enabled then some (record { interval = b.gc_interval }) else none in
            let t = assemble d system_clock in_runtime b (memory_storage d) gc in
            use_storage t (record { stored = new_memory d; gc_started = false; rest = w }) >>= λ w1.
            some (built_in t w1)
      ])
        ≡ some built
      → Configured built
  assembled-Configured (some s) built h e =
      subst Configured (some-injective _ _ e)
        (exists-HasDefault (assemble d system_clock in_runtime b s none) h)
  assembled-Configured none built h e =
      let gc = if b.gc_enabled then some (record { interval = b.gc_interval }) else none in
      let t = assemble d system_clock in_runtime b (memory_storage d) gc in
      elim (Option-cases
        (use_storage t (record { stored = new_memory d; gc_started = false; rest = w }))) [
          | inl f ↦ absurd (let g = rw f at e in cc)
          | inr (w1, f) ↦ subst Configured (some-injective _ _ (rw f at e)) (exists-HasDefault t h)
        ]

-- Every limiter that `build` returns, over a custom storage or the built-in one, has a quota for
-- its default tier.
pub build-Configured :
    {S W : Type 0} (d : DashMap) (system_clock : W → Nanos) (in_runtime : W → Bool)
    (b : RateTierBuilder S W) (w : W) (built : Built d S W)
    → build d system_clock in_runtime b w ≡ some built
    → Configured built
unfolding build
build-Configured d system_clock in_runtime b w built e =
    let (filled, e1) = assert-some _ _ _ e in
    let (h, e2) = assert-some _ _ _ e1 in
    assembled-Configured d system_clock in_runtime b w b.storage built h e2
