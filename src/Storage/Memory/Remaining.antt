-- ===== src/Storage/Memory/Remaining.antt =====
-- What the number of remaining requests in an answer of the memory storage promises.
use native.Mathlib.Nat.{div-mul-le_self, le-div_iff_mul-le, mul-le-mul_left}
use tower_rate_tier.Gcra.{RateLimitInfo, RateLimited, check_gcra}
use tower_rate_tier.Gcra.Decision.{current}
use tower_rate_tier.Gcra.Tokens.{check_gcra-Admits, refuse, take, tokens}
use tower_rate_tier.Prelude.{
  ◌*◌, ◌+◌, ◌-◌, ◌/◌, ◌<◌, List, Option, Panics, Result, [], ap, arith, as_u32, err, none, ok, refl,
  some, suc, sym, u32_max, u64_max, zero, ℕ, ◌∙◌, ◌∷◌, ◌≡◌, ◌≤◌,
}
use tower_rate_tier.Prelude.Lists.{replicate}
use tower_rate_tier.Quota.{Nanos, Quota, burst_offset_nanos, emission_interval_nanos, with_window}
use tower_rate_tier.Quota.Bounds.{
  emission_pos, with_window-intervals, with_window-max_burst, with_window_lem,
}
use tower_rate_tier.Storage.{StorageKey}
use tower_rate_tier.Storage.DashMap.{DashMap, key_eq_iff}
use tower_rate_tier.Storage.Memory.{MemoryStorage, check_and_update, store}
use tower_rate_tier.Storage.Memory.Buckets.{bucket, bucket-store, decided, key_of}
use tower_rate_tier.Storage.Memory.Runs.{
  Op, Served, add_served, answers, check, check-decided, run, run-check,
}

-- That many requests are admitted, each with one less remaining than before, and the next one is
-- refused.
abbrev pub CountsDown : ℕ → List Served → Type 0
CountsDown zero (s ∷ []) = (l : RateLimited) × (s.answer ≡ ok (err l))
CountsDown (suc n) (s ∷ rs) =
    (i : RateLimitInfo) × (s.answer ≡ ok (ok i)) × (i.remaining ≡ n) × CountsDown n rs
CountsDown _ _ = ⊥

as_u32_small : (n : ℕ) → n ≤ u32_max → as_u32 n ≡ n
as_u32_small n h = omega arith

module _ (d : DashMap) (key : StorageKey) (q : Quota) (now : Nanos)
    (pos : 0 < emission_interval_nanos q) where
  abbrev left : MemoryStorage d → ℕ
  left m = tokens (bucket d m (key_of key)) now (emission_interval_nanos q) (burst_offset_nanos q)

  added :
      (s : Served) (p : Panics (List Served × MemoryStorage d)) (rs : List Served)
      → answers d p ≡ some rs
      → answers d (add_served d s p) ≡ some (s ∷ rs)
  added s none rs e = cc
  added s (some (ss, m)) rs e = ground arith

  served-first :
      (m : MemoryStorage d) (cost : ℕ) (ops : List Op)
      (r : Result (Nanos × RateLimitInfo) RateLimited) (rs : List Served)
      → check_gcra
          (bucket d m (key_of key))
          now
          (emission_interval_nanos q)
          (burst_offset_nanos q)
          cost
        ≡ some r
      → answers d (run d (store d m (key_of key) r).1 ops) ≡ some rs
      → answers d (run d m (check key q cost now ∷ ops))
        ≡ some (record { key = key; cost = cost; answer = decided r } ∷ rs)
  served-first m cost ops r rs g e =
      rw (run-check d m key q cost now ops, g)
        (added _ (run d (store d m (key_of key) r).1 ops) rs e)

  bucket_stored :
      (m : MemoryStorage d) (t : Nanos) (i : RateLimitInfo)
      → bucket d (store d m (key_of key) (ok (t, i))).1 (key_of key) ≡ some t
  bucket_stored m t i =
      bucket-store d m (key_of key) (key_of key) (ok (t, i))
      ∙ rw ((key_eq_iff (key_of key) (key_of key)).1 refl) refl

  left-stored :
      (m : MemoryStorage d) (t : Nanos) (i : RateLimitInfo)
      → left (store d m (key_of key) (ok (t, i))).1
        ≡ tokens (some t) now (emission_interval_nanos q) (burst_offset_nanos q)
  left-stored m t i =
      ap (λ b. tokens b now (emission_interval_nanos q) (burst_offset_nanos q))
        (bucket_stored m t i)

  current-stored :
      (m : MemoryStorage d) (t : Nanos) (i : RateLimitInfo)
      → t ≤ now + burst_offset_nanos q
      → current (bucket d (store d m (key_of key) (ok (t, i))).1 (key_of key)) now
        ≤ now + burst_offset_nanos q
  current-stored m t i h = rw (bucket_stored m t i) (omega arith)

  counts :
      (n : ℕ) (m : MemoryStorage d)
      → left m ≡ n
      → n ≤ u32_max
      → current (bucket d m (key_of key)) now ≤ now + burst_offset_nanos q
      → now + burst_offset_nanos q + emission_interval_nanos q ≤ u64_max
      → (rs : List Served) × (answers d (run d m (replicate (suc n) (check key q 1 now))) ≡ some rs)
        × CountsDown n rs
  unfolding run
  counts zero m same small low room =
      elim (check_gcra-Admits (bucket d m (key_of key)) now (emission_interval_nanos q)
        (burst_offset_nanos q) 1 pos low (omega arith)) [
          | take t i enough e after says near ↦ absurd (omega arith)
          | refuse l short e wait ↦ (_, served-first m 1 [] (err l) [] e refl, (l, refl))
        ]
  counts (suc n) m same small low room =
      elim (check_gcra-Admits (bucket d m (key_of key)) now (emission_interval_nanos q)
        (burst_offset_nanos q) 1 pos low (omega arith)) [
          | take t i enough e after says near ↦
              let (rs, f, down) =
                counts n (store d m (key_of key) (ok (t, i))).1 (left-stored m t i ∙ omega arith)
                  (omega arith) (current-stored m t i near) room in
              let exact = as_u32_small n (omega arith) in
              (
                _,
                served-first m 1 (replicate (suc n) (check key q 1 now)) (ok (t, i)) rs e f,
                (i, refl, omega (arith, says, exact), down),
              )
          | refuse l short e wait ↦ absurd (omega arith)
        ]

tokens-le_burst : (tat : Option Nanos) (now ei bo : ℕ) → 0 < ei → tokens tat now ei bo ≤ bo / ei
unfolding tokens
tokens-le_burst tat now ei bo above =
    let l = div-mul-le_self (now + bo - current tat now) ei in
    (le-div_iff_mul-le above).1 (omega (arith, l))

module _ (d : DashMap) where
  -- Take a quota that `with_window` accepts, with at most u32::MAX requests in a window of at most
  -- u64::MAX nanoseconds, a bucket that is at most one burst ahead, and the present at least two
  -- bursts before the end of the clock. When the storage admits a check of a cost within the burst,
  -- the remaining requests that it reports are exact: as many checks of cost 1 of the bucket at
  -- that moment are admitted, each with one less remaining than before, and the next one is
  -- refused.
  pub remaining_exact :
      (n w : ℕ) (q : Quota) (key : StorageKey) (cost : ℕ) (now : Nanos) (m m2 : MemoryStorage d)
      (i : RateLimitInfo)
      → n ≤ u32_max
      → w ≤ u64_max
      → with_window n w ≡ some q
      → cost ≤ n
      → now + 2 * burst_offset_nanos q ≤ u64_max
      → current (bucket d m (key_of key)) now ≤ now + burst_offset_nanos q
      → check_and_update d key q cost now m ≡ some (ok (ok i), m2)
      → (rs : List Served) × (answers d (run d m2 (replicate (suc i.remaining) (check key q 1 now)))
          ≡ some rs)
        × CountsDown i.remaining rs
  remaining_exact n w q key cost now m m2 i small window built cheap room low reply =
      let v = with_window_lem n w q built in
      let above = emission_pos q v in
      let (whole_burst, bursts, _, _) = with_window-intervals n w q window built in
      let same_count = with_window-max_burst n w q built in
      let ei = emission_interval_nanos q in
      let bo = burst_offset_nanos q in
      let covered = mul-le-mul_left ei cheap in
      let one = mul-le-mul_left ei (rw same_count at v.count_pos) in
      let few = tokens-le_burst (bucket d m (key_of key)) now ei bo above in
      elim (check_gcra-Admits (bucket d m (key_of key)) now ei bo cost above low
        (omega (arith, covered, whole_burst))) [
          | take t j enough e after says near ↦
              let same = sym (check-decided d m key q cost now (ok (t, j)) e) ∙ reply in
              let info : j ≡ i = ground arith in
              let left_behind : (store d m (key_of key) (ok (t, j))).1 ≡ m2 = ground arith in
              let rest =
                counts d key q now above j.remaining (store d m (key_of key) (ok (t, j))).1
                  (left-stored d key q now above m t j ∙ after ∙ omega (arith, says, few, bursts))
                  (omega (arith, says, few, bursts)) (current-stored d key q now above m t j near)
                  (omega (arith, one, whole_burst)) in
              rw (info, left_behind) at rest
          | refuse l short e wait ↦
              let same = sym (check-decided d m key q cost now (err l) e) ∙ reply in
              absurd (ground arith)
        ]
