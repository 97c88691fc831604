-- ===== src/Storage/Memory/Collection.antt =====
-- The garbage collector of src/gc.rs is invisible: it drops only what no later check can tell
-- from an empty bucket.
use tower_rate_tier.Gcra.{RateLimitInfo, RateLimited}
use tower_rate_tier.Gcra.Decision.{check_gcra-current, current, current_later}
use tower_rate_tier.Prelude.{
  ◌>>=◌, Bool-cases, List, Option, Panics, Result, [], arith, err, inl, inr, leb, none, ok, refl,
  some, ℕ, ◌∙◌, ◌∷◌, ◌≡◌, ◌≤◌,
}
use tower_rate_tier.Quota.{Nanos, burst_offset_nanos, emission_interval_nanos}
use tower_rate_tier.Storage.{StorageKey}
use tower_rate_tier.Storage.DashMap.{DashMap, Key, kept, key_eq}
use tower_rate_tier.Storage.Memory.{MemoryStorage, retain_active, store}
use tower_rate_tier.Storage.Memory.Buckets.{bucket, bucket-store, key_of, moved}
use tower_rate_tier.Storage.Memory.Runs.{
  Agree, Op, Ordered, Served, add_served, after_check, answers, check, collect, run, run-check,
}

-- The history without the collector's rounds.
unfoldable pub checks_only : List Op → List Op
checks_only [] = []
checks_only (collect now ∷ ops) = checks_only ops
checks_only (check key quota cost now ∷ ops) = check key quota cost now ∷ checks_only ops

kept-current :
    (b : Option Nanos) (now : Nanos) → current (kept (λ tat. leb now tat) b) now ≡ current b now
kept-current none now = refl
kept-current (some t) now = ground arith

module _ (d : DashMap) where
  Agree-later : (t u : Nanos) (m n : MemoryStorage d) → t ≤ u → Agree d t m n → Agree d u m n
  Agree-later t u m n h a k =
      omega (arith, a k, current_later (bucket d m k) t u h, current_later (bucket d n k) t u h)

  -- A round of the collector leaves every effective arrival time.
  pub bucket-retain_active :
      (m : MemoryStorage d) (now : Nanos) (k : Key)
      → current (bucket d (retain_active d m now) k) now ≡ current (bucket d m k) now
  unfolding retain_active
  bucket-retain_active m now k =
      rw (d.entry-retain (λ tat. leb now tat) m.state k) (kept-current (bucket d m k) now)

  Agree-retain :
      (t : Nanos) (m n : MemoryStorage d) → Agree d t m n → Agree d t (retain_active d m t) n
  Agree-retain t m n a k = bucket-retain_active m t k ∙ a k

  moved-current :
      (a b : Option Nanos) (now : Nanos) (r : Result (Nanos × RateLimitInfo) RateLimited)
      → current a now ≡ current b now
      → current (moved a r) now ≡ current (moved b r) now
  moved-current a b now (ok (t, i)) e = refl
  moved-current a b now (err l) e = e

  Agree-store :
      (t : Nanos) (m n : MemoryStorage d) (k : Key) (r : Result (Nanos × RateLimitInfo) RateLimited)
      → Agree d t m n
      → Agree d t (store d m k r).1 (store d n k r).1
  Agree-store t m n k r a j =
      rw (bucket-store d m k j r, bucket-store d n k j r)
        (elim (Bool-cases (key_eq k j)) [
          | inl e ↦ rw e (moved-current (bucket d m k) (bucket d n k) t r (a k))
          | inr e ↦ rw e (a j)
        ])

  answers-add_served :
      (s : Served) (p q : Panics (List Served × MemoryStorage d))
      → answers d p ≡ answers d q
      → answers d (add_served d s p) ≡ answers d (add_served d s q)
  answers-add_served s none none e = refl
  answers-add_served s none (some (rs, n)) e = cc
  answers-add_served s (some (rs, m)) none e = cc
  answers-add_served s (some (rs, m)) (some (ss, n)) e = ground arith

  answers-after_check :
      (m n : MemoryStorage d) (key : StorageKey) (cost : ℕ) (ops : List Op) (ops' : List Op)
      (now : Nanos) (g : Panics (Result (Nanos × RateLimitInfo) RateLimited))
      → ((r : Result (Nanos × RateLimitInfo) RateLimited)
          → answers d (run d (store d m (key_of key) r).1 ops)
            ≡ answers d (run d (store d n (key_of key) r).1 ops'))
      → answers d (g >>= after_check d m key cost ops)
        ≡ answers d (g >>= after_check d n key cost ops')
  answers-after_check m n key cost ops ops' now none h = refl
  answers-after_check m n key cost ops ops' now (some r) h = answers-add_served _ _ _ (h r)

  collection_from :
      (t : Nanos) (m n : MemoryStorage d) (ops : List Op)
      → Ordered t ops
      → Agree d t m n
      → answers d (run d m ops) ≡ answers d (run d n (checks_only ops))
  unfolding run checks_only
  collection_from t m n [] o a = refl
  collection_from t m n (collect now ∷ ops) o a =
      collection_from now (retain_active d m now) n ops o.1
        (Agree-retain now m n (Agree-later t now m n o.0 a))
  collection_from t m n (check key q cost now ∷ ops) o a =
      let b = Agree-later t now m n o.0 a in
      rw
        (
          run-check d m key q cost now ops,
          run-check d n key q cost now (checks_only ops),
          check_gcra-current (bucket d m (key_of key)) (bucket d n (key_of key)) now
              (emission_interval_nanos q) (burst_offset_nanos q) cost (b (key_of key)),
        )
        (answers-after_check m n key cost ops (checks_only ops) now _
          (λ r. collection_from now _ _ ops o.1 (Agree-store now m n (key_of key) r b)))

  -- Rounds of the collector at any point of a history change no answer, whatever buckets the
  -- checks are of and whatever quotas they use, as long as the clock does not go back.
  pub collection_invisible :
      (m : MemoryStorage d) (t : Nanos) (ops : List Op)
      → Ordered t ops
      → answers d (run d m ops) ≡ answers d (run d m (checks_only ops))
  collection_invisible m t ops o = collection_from t m m ops o (λ k. refl)
