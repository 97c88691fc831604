-- ===== src/Service/Answers.antt =====
-- What a request to src/service.rs comes to over the built-in storage, and what its answer says.
use tower_rate_tier.Storage.Memory.{check_and_update as check_memory}
use tower_rate_tier.Check.{process_result}
use tower_rate_tier.Gcra.{RateLimitInfo, RateLimited, check_gcra}
use tower_rate_tier.Http.{Http, Request, Response}
use tower_rate_tier.Layer.{Settings}
use tower_rate_tier.Prelude.{
  Bool, List, Panics, Result, [], ap, err, false, ok, refl, some, sym, true, ℕ, ◌∙◌, ◌∷◌, ◌≡◌,
}
use tower_rate_tier.Prelude.Text.{Text}
use tower_rate_tier.Quota.{Nanos, Quota, burst_offset_nanos, emission_interval_nanos, is_unlimited}
use tower_rate_tier.Service.{Env, Inner, Reply, annotate, conclude, conclude_checked, forward}
use tower_rate_tier.Storage.{Decision, StorageKey}
use tower_rate_tier.Storage.DashMap.{DashMap, Key}
use tower_rate_tier.Storage.Memory.{MemoryStorage, memory_storage, store}
use tower_rate_tier.Storage.Memory.Buckets.{bucket, decided, key_of}
use tower_rate_tier.Storage.Memory.Rate.{admits}
use tower_rate_tier.Storage.Memory.Runs.{Op, check-decided}
use tower_rate_tier.SystemTime.{SystemTime}
use tower_rate_tier.Tier.{RateTier, World, ask_storage, get_quota, use_storage}
use tower_rate_tier.Tier.Calls.{HasInterval, use_storage-some}

-- Whether a reply is the wrapped service's, where `own` is false on the middleware's bodies: an
-- error is always the wrapped service's.
abbrev pub answered_by : {h : Http} {R E : Type 0} → (R → Bool) → Result (Response h R) E → Bool
answered_by own (ok r) = own r.body
answered_by own (err e) = true

-- A request over the buckets of `m`, and the operations it comes to. Either it leaves the buckets,
-- and a request that is `mine` is not answered by the wrapped service; or it is one check of a
-- bucket under its tier's quota, of the bucket `k` if it is mine, and a reply of the wrapped
-- service means that the check admitted it.
pub data Handled (d : DashMap) {h : Http} {R E W : Type 0} (t : RateTier (MemoryStorage d) W)
    (own : R → Bool) (k : Key) (mine : Type 0) (cost : ℕ) (m : MemoryStorage d) (ops : List Op)
    (out : Panics (Reply h R E (MemoryStorage d) W)) : Type 0 where
  quiet :
      (reply : Result (Response h R) E) (w : World (MemoryStorage d) W)
      → ops ≡ []
      → out ≡ some (reply, w)
      → w.stored ≡ m
      → (mine → answered_by own reply ≡ false)
      → Handled d t own k mine cost m ops out
  counted :
      (key : StorageKey) (q : Quota) (now : Nanos) (r : Result (Nanos × RateLimitInfo) RateLimited)
      (reply : Result (Response h R) E) (w : World (MemoryStorage d) W)
      → ops ≡ Op.check key q cost now ∷ []
      → get_quota t key.tier ≡ some q
      → is_unlimited q ≡ false
      → check_gcra
          (bucket d m (key_of key))
          now
          (emission_interval_nanos q)
          (burst_offset_nanos q)
          cost
        ≡ some r
      → out ≡ some (reply, w)
      → w.stored ≡ (store d m (key_of key) r).1
      → (mine → key_of key ≡ k)
      → (answered_by own reply ≡ true → admits (decided r) ≡ true)
      → Handled d t own k mine cost m ops out

annotate-world :
    {h : Http} {R E S W : Type 0} (info : RateLimitInfo) (at : SystemTime) (p : Reply h R E S W)
    → (annotate info at p).1 ≡ p.1
annotate-world info at (ok r, w) = refl
annotate-world info at (err e, w) = refl

module _ (d : DashMap) {W : Type 0} (t : RateTier (MemoryStorage d) W)
    (has_interval : HasInterval t) (over_memory : t.storage ≡ memory_storage d) where
  ask_storage-checked :
      (key : StorageKey) (q : Quota) (cost : ℕ) (now : Nanos) (w w1 : World (MemoryStorage d) W)
      (a : Decision) (m m' : MemoryStorage d)
      → use_storage t w ≡ some w1
      → w1.stored ≡ m
      → check_memory d key q cost now m ≡ some (a, m')
      → ask_storage t key q cost now w ≡ some (a, record w1 { stored = m' })
  unfolding ask_storage memory_storage
  ask_storage-checked key q cost now w w1 a m m' f g c =
      let e : check_memory d key q cost now w1.stored ≡ some (a, m') = rw g c in
      rw (ask_storage, f, over_memory, e) refl

  pub ask_storage-decided :
      (key : StorageKey) (q : Quota) (cost : ℕ) (now : Nanos) (w : World (MemoryStorage d) W)
      (r : Result (Nanos × RateLimitInfo) RateLimited)
      → check_gcra
          (bucket d w.stored (key_of key))
          now
          (emission_interval_nanos q)
          (burst_offset_nanos q)
          cost
        ≡ some r
      → (w' : World (MemoryStorage d) W) × (ask_storage t key q cost now w ≡ some (decided r, w'))
        × (w'.stored ≡ (store d w.stored (key_of key) r).1)
  ask_storage-decided key q cost now w r e =
      let (w1, f, g) = use_storage-some t w has_interval in
      let m' = (store d w.stored (key_of key) r).1 in
      (
        record w1 { stored = m' },
        ask_storage-checked key q cost now w w1 (decided r) w.stored m' f g
            (check-decided d w.stored key q cost now r e),
        refl,
      )

module _ (d : DashMap) {h : Http} {B R E W : Type 0} (env : Env h R W) (s : Settings h W)
    (inner : Inner h B R E W) (own : R → Bool)
    (foreign : (text : Text) → own (env.from_string text) ≡ false) (req : Request h B) where
  -- After the storage's answer.
  pub conclude_checked-own :
      (user_id tier : Text) (r : Result (Nanos × RateLimitInfo) RateLimited)
      (w : World (MemoryStorage d) W)
      → let (reply, w') = conclude_checked env s inner req user_id tier (decided r, w) in
        (w'.stored ≡ w.stored) × (answered_by own reply ≡ true → admits (decided r) ≡ true)
  unfolding conclude_checked process_result conclude forward
  conclude_checked-own user_id tier (ok (t, i)) w =
      (ap (λ v. v.stored) (annotate-world i _ (forward inner req w)), λ x. refl)
  conclude_checked-own user_id tier (err l) w = (refl, λ x. sym (foreign _) ∙ x)
