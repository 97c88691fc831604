-- ===== src/Quota/Bounds.antt =====
-- What the constructors of src/quota.rs guarantee of the intervals.
use native.Mathlib.Nat.{
  div-le_self, div-mul-le_self, le-div_iff_mul-le, lt-div-mul-add, mul-div_cancel_left,
}
use tower_rate_tier.Prelude.{◌*◌, ◌+◌, ◌/◌, ◌<◌, ap, arith, false, some, u64_max, ℕ, ◌∙◌, ◌≡◌, ◌≤◌}
use tower_rate_tier.Quota.{
  Quota, burst_offset_nanos, emission_interval_nanos, is_unlimited, with_window,
}

-- A quota that a constructor other than `unlimited` returned.
pub record IsLimited (q : Quota) : Type 0 where
  pub count_pos : 0 < q.max_burst
  pub fast_enough : q.max_burst ≤ q.window

pub with_window_lem : (n w : ℕ) → (q : Quota) → with_window n w ≡ some q → IsLimited q
unfolding with_window
with_window_lem n w q e = ground arith

pub with_window-max_burst : (n w : ℕ) (q : Quota) → with_window n w ≡ some q → q.max_burst ≡ n
unfolding with_window
with_window-max_burst n w q e = ground arith

div_pos : (w n : ℕ) → 0 < n → n ≤ w → 0 < w / n
div_pos w n h k = (le-div_iff_mul-le h).1 (omega (arith))

pub emission_pos : (q : Quota) → IsLimited q → 0 < emission_interval_nanos q
unfolding emission_interval_nanos
emission_pos q v = ground (arith, div_pos q.window q.max_burst v.count_pos v.fast_enough)

pub limited-is_unlimited : (q : Quota) → IsLimited q → is_unlimited q ≡ false
unfolding is_unlimited
limited-is_unlimited q v = ground (arith, v.count_pos)

emission-eq :
    (q : Quota)
    → IsLimited q
    → q.window ≤ u64_max
    → emission_interval_nanos q ≡ q.window / q.max_burst
unfolding emission_interval_nanos
emission-eq q v small = let h = div-le_self q.window q.max_burst in ground (arith, v.count_pos)

pub burst-eq :
    (q : Quota)
    → IsLimited q
    → q.window ≤ u64_max
    → burst_offset_nanos q ≡ emission_interval_nanos q * q.max_burst
unfolding burst_offset_nanos
burst-eq q v small =
    let l = div-mul-le_self q.window q.max_burst in rw (emission-eq q v small) (omega arith)

-- For a quota that `with_window` accepts, with a window of at most u64::MAX nanoseconds, the burst
-- offset is exactly the burst of intervals, so that the burst that the algorithm computes from the
-- two is the quota's; it is within the window, and short of it by less than a nanosecond for each
-- request.
pub with_window-intervals :
    (n w : ℕ) (q : Quota)
    → w ≤ u64_max
    → with_window n w ≡ some q
    → (burst_offset_nanos q ≡ emission_interval_nanos q * n)
      × (burst_offset_nanos q / emission_interval_nanos q ≡ n)
      × (burst_offset_nanos q ≤ w)
      × (w < burst_offset_nanos q + n)
unfolding with_window
with_window-intervals n w q small e =
    let v = with_window_lem n w q e in
    let a : q.max_burst ≡ n = ground arith in
    let b : q.window ≡ w = ground arith in
    let s : q.window ≤ u64_max = omega arith in
    let l = div-mul-le_self q.window q.max_burst in
    let m : q.window < q.window / q.max_burst * q.max_burst + q.max_burst =
      lt-div-mul-add v.count_pos in
    let f = emission-eq q v s in
    let o : burst_offset_nanos q ≡ q.window / q.max_burst * q.max_burst = rw (burst-eq q v s, f) in
    (
      burst-eq q v s ∙ ap (λ c. emission_interval_nanos q * c) a,
      ap (λ c. c / emission_interval_nanos q) (burst-eq q v s)
          ∙ mul-div_cancel_left q.max_burst (emission_pos q v)
          ∙ a,
      omega arith,
      omega arith,
    )
