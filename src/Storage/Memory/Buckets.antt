-- ===== src/Storage/Memory/Buckets.antt =====
-- What an operation of the memory storage does to each bucket.
use tower_rate_tier.Gcra.{RateLimitInfo, RateLimited, check_gcra}
use tower_rate_tier.Gcra.Decision.{check_gcra_total}
use tower_rate_tier.Prelude.{
  ◌<◌, ◌>>=◌, Bool-cases, Option, Option-cases, Result, ap, arith, err, if◌then◌else◌, inl, inr, ok,
  some, sym, ℕ, ◌∙◌, ◌≡◌,
}
use tower_rate_tier.Quota.{Nanos, Quota, burst_offset_nanos, emission_interval_nanos}
use tower_rate_tier.Storage.{Decision, StorageKey}
use tower_rate_tier.Storage.DashMap.{DashMap, Key, key_eq, key_eq_iff}
use tower_rate_tier.Storage.Memory.{MemoryStorage, check_and_update, store}

abbrev pub key_of : StorageKey → Key
key_of key = (key.user_id, key.tier)

-- One bucket before and after a check: an allowed check moves its arrival time, and any other
-- check leaves it.
abbrev pub moved : Option Nanos → Result (Nanos × RateLimitInfo) RateLimited → Option Nanos
moved b (ok (t, i)) = some t
moved b (err l) = b

abbrev pub decided : Result (Nanos × RateLimitInfo) RateLimited → Decision
decided (ok (t, i)) = ok (ok i)
decided (err l) = ok (err l)

module _ (d : DashMap) where
  abbrev pub bucket : MemoryStorage d → Key → Option Nanos
  bucket m k = d.entry m.state k

  pub bucket-store :
      (m : MemoryStorage d) (k j : Key) (r : Result (Nanos × RateLimitInfo) RateLimited)
      → bucket (store d m k r).1 j ≡ (if key_eq k j then moved (bucket m k) r else bucket m j)
  bucket-store m k j (ok (t, i)) = d.entry-insert m.state k j t
  bucket-store m k j (err l) = elim (Bool-cases (key_eq k j)) [
    | inl e ↦ rw e (ap (d.entry m.state) (sym ((key_eq_iff k j).0 e)))
    | inr e ↦ rw e
  ]

  pub check_and_update-eq :
      (key : StorageKey) (q : Quota) (cost : ℕ) (now : Nanos) (m : MemoryStorage d)
      → check_and_update d key q cost now m ≡ (
          check_gcra
            (bucket m (key_of key))
            now
            (emission_interval_nanos q)
            (burst_offset_nanos q)
            cost
          >>= λ r. some (ok (store d m (key_of key) r).0, (store d m (key_of key) r).1))
  unfolding check_and_update
  check_and_update-eq key q cost now m = elim (Option-cases (bucket m (key_of key))) [
    | inl e ↦ rw e
    | inr (t, e) ↦ rw e
  ]

  -- A check with a quota that has an interval is answered, and not with an error.
  pub check_and_update-answers :
      (key : StorageKey) (q : Quota) (cost : ℕ) (now : Nanos) (m : MemoryStorage d)
      → 0 < emission_interval_nanos q
      → (a : Result RateLimitInfo RateLimited) × (n : MemoryStorage d) × (check_and_update d key q
            cost now m
          ≡ some (ok a, n))
  check_and_update-answers key q cost now m pos =
      let k = key_of key in
      let (r, e) =
        check_gcra_total (bucket m k) now (emission_interval_nanos q) (burst_offset_nanos q) cost
          pos in
      ((store d m k r).0, (store d m k r).1, check_and_update-eq key q cost now m ∙ rw e)

  pub check_and_update-ok :
      (key : StorageKey) (q : Quota) (cost : ℕ) (now : Nanos) (m n : MemoryStorage d) (r : Decision)
      → check_and_update d key q cost now m ≡ some (r, n)
      → (a : Result RateLimitInfo RateLimited) × (r ≡ ok a)
  check_and_update-ok key q cost now m n r e =
      let k = key_of key in
      elim (Option-cases
        (check_gcra (bucket m k) now (emission_interval_nanos q) (burst_offset_nanos q) cost)) [
          | inl g ↦
              let h = sym (check_and_update-eq key q cost now m) ∙ e in let h' = rw g at h in cc
          | inr (x, g) ↦
              let h = sym (check_and_update-eq key q cost now m) ∙ e in
              let h' = rw g at h in ((store d m k x).0, ground arith)
        ]
