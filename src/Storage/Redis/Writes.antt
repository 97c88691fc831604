-- ===== src/Storage/Redis/Writes.antt =====
-- What src/storage/gcra.lua writes.
use tower_rate_tier.Prelude.{
  ◌*◌, ◌+◌, ◌<◌, Bool, Bool-cases, Option, arith, false, inl, inr, ltb, none, ok, refl, some, true,
  ℕ, ◌≡◌, ◌≤◌,
}
use tower_rate_tier.Storage.Redis.Script.{
  ScriptReply, Write, ceil_div, effective_tat, script_body, script_decision,
}

-- A write of a time in the future, at most one burst ahead, with an expiry that keeps the key until
-- that time, and for less than a millisecond longer.
abbrev pub IsFresh : ℕ → ℕ → Write → Type 0
IsFresh now bo w =
    (now < w.value)
    × (w.value ≤ now + bo)
    × (0 < w.expire_ms)
    × (w.value ≤ now + w.expire_ms * 1000)
    × (now + w.expire_ms * 1000 < w.value + 1000)

body-IsFresh :
    (stored : Option ℕ) (now ei bo cost tat : ℕ) (capped : Bool) (r : ScriptReply) (w : Write)
    → 0 < bo
    → effective_tat stored now bo ≡ (tat, capped)
    → (capped ≡ true → tat ≡ now + bo)
    → script_body stored now ei bo cost ≡ ok (r, some w)
    → IsFresh now bo w
unfolding script_body script_decision ceil_div
body-IsFresh stored now ei bo cost tat capped r w room f full e = let g = rw f at e in ground arith

-- With a burst above 0, whatever the key held, the script writes only a time in the future that is
-- at most one burst ahead, with a positive expiry that keeps the key until that time, and for less
-- than a millisecond longer.
pub script_body-IsFresh :
    (stored : Option ℕ) (now ei bo cost : ℕ) (r : ScriptReply) (w : Write)
    → 0 < bo
    → script_body stored now ei bo cost ≡ ok (r, some w)
    → IsFresh now bo w
unfolding effective_tat
script_body-IsFresh none now ei bo cost r w room e =
    body-IsFresh none now ei bo cost now false r w room refl (λ x. ground arith) e
script_body-IsFresh (some t) now ei bo cost r w room e = elim (Bool-cases (ltb t now)) [
  | inl a ↦ body-IsFresh (some t) now ei bo cost now false r w room (rw a) (λ x. ground arith) e
  | inr a ↦ elim (Bool-cases (ltb (now + bo) t)) [
    | inl b ↦
        body-IsFresh (some t) now ei bo cost (now + bo) true r w room (rw (a, b)) (λ x. refl) e
    | inr b ↦
        body-IsFresh (some t) now ei bo cost t false r w room (rw (a, b)) (λ x. ground arith) e
  ]
]
