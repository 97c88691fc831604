-- ===== src/Storage/Redis/Effective.antt =====
-- What one run of src/storage/gcra.lua makes of a key's arrival time.
use native.Mathlib.Decide.{dec_le}
use native.Mathlib.Nat.{mul-le-mul_left, mul-le-mul_right}
use tower_rate_tier.Gcra.Decision.{current, current_later}
use tower_rate_tier.Prelude.{
  ◌*◌, ◌+◌, ◌-◌, ◌<◌, Bool, Bool-cases, Option, ap, arith, false, if◌then◌else◌, inl, inr, ltb, min,
  none, ok, refl, some, sym, true, ℕ, ◌∙◌, ◌≡◌, ◌≤◌,
}
use tower_rate_tier.Prelude.Int.{pos}
use tower_rate_tier.Storage.Redis.{is_one}
use tower_rate_tier.Storage.Redis.Script.{
  ScriptReply, Write, effective_tat, exact_integer, gcra_script, script_body, script_decision,
}
use tower_rate_tier.Storage.Redis.Server.{Entry, Expiry, IsKept, current-live, live, raw}
use tower_rate_tier.Storage.Redis.Writes.{script_body-IsFresh}

-- The time that the script goes on with.
abbrev pub effective : Option ℕ → ℕ → ℕ → ℕ
effective stored now bo = min (current stored now) (now + bo)

abbrev pub stored_after : Option ℕ → Option Write → Option ℕ
stored_after stored none = stored
stored_after stored (some w) = some w.value

effective_tat-effective :
    (stored : Option ℕ) (now bo : ℕ)
    → (capped : Bool) × (effective_tat stored now bo ≡ (effective stored now bo, capped))
      × (capped ≡ true → effective stored now bo ≡ now + bo)
unfolding effective_tat
effective_tat-effective none now bo = (false, ground arith, λ h. absurd (ground arith))
effective_tat-effective (some t) now bo = elim (Bool-cases (ltb t now)) [
  | inl a ↦ (false, rw a (ground arith), λ h. absurd (ground arith))
  | inr a ↦ elim (Bool-cases (ltb (now + bo) t)) [
    | inl b ↦ (true, rw (a, b) (ground arith), λ h. ground arith)
    | inr b ↦ (false, rw (a, b) (ground arith), λ h. absurd (ground arith))
  ]
]

-- The cost, if the reply allows the request.
abbrev pub charged : ScriptReply → ℕ → ℕ
charged r cost = if is_one (pos r.allowed) then cost else 0

body-effective :
    (stored : Option ℕ) (now ei bo cost tat : ℕ) (capped : Bool) (r : ScriptReply)
    (w : Option Write)
    → effective_tat stored now bo ≡ (tat, capped)
    → effective stored now bo ≡ tat
    → (capped ≡ true → tat ≡ now + bo)
    → script_body stored now ei bo cost ≡ ok (r, w)
    → (effective (stored_after stored w) now bo ≡ tat + ei * charged r cost)
      × (tat + ei * charged r cost ≤ now + bo)
unfolding script_body script_decision is_one
body-effective stored now ei bo cost tat capped r none f t full e =
    let g = rw f at e in ground arith
body-effective stored now ei bo cost tat capped r (some w) f t full e =
    let g = rw f at e in ground arith

script_body-effective :
    (stored : Option ℕ) (now ei bo cost : ℕ) (r : ScriptReply) (w : Option Write)
    → script_body stored now ei bo cost ≡ ok (r, w)
    → (effective (stored_after stored w) now bo ≡ effective stored now bo + ei * charged r cost)
      × (effective stored now bo + ei * charged r cost ≤ now + bo)
script_body-effective stored now ei bo cost r w e =
    let (capped, f, g) = effective_tat-effective stored now bo in
    body-effective stored now ei bo cost (effective stored now bo) capped r w f refl g e

-- The entry under a key after the script's write.
unfoldable pub entry_after : ℕ → Option Entry → Option Write → Option Entry
entry_after now e none = e
entry_after now e (some w) =
    some (record { value = w.value; set_at = now; expire_ms = w.expire_ms })

gcra_script-body :
    (now : ℕ) (stored : Option ℕ) (ei bo cost : ℕ) (r : ScriptReply) (w : Option Write)
    → gcra_script none now stored ei bo cost ≡ ok (r, w)
    → (0 < bo) × (script_body stored now ei bo cost ≡ ok (r, w))
unfolding gcra_script exact_integer
gcra_script-body now stored ei bo cost r w e = ground arith

entry_after-IsKept :
    (stored : Option ℕ) (now ei bo cost : ℕ) (r : ScriptReply) (w : Option Write) (e : Option Entry)
    → 0 < bo
    → script_body stored now ei bo cost ≡ ok (r, w)
    → IsKept e
    → IsKept (entry_after now e w)
unfolding entry_after
entry_after-IsKept stored now ei bo cost r none e room h k = k
entry_after-IsKept stored now ei bo cost r (some w) e room h k =
    (script_body-IsFresh stored now ei bo cost r w room h).3

effective-raw :
    (x : Expiry) (e : Option Entry) (now bo : ℕ) (w : Option Write)
    → IsKept e
    → effective (raw (entry_after now e w)) now bo
      ≡ effective (stored_after (live x now e) w) now bo
unfolding entry_after
effective-raw x e now bo none k = ap (λ t. min t (now + bo)) (sym (current-live x e now k))
effective-raw x e now bo (some w) k = refl

-- One run of the script for a key whose entry is kept.
pub entry_after-effective :
    (x : Expiry) (e : Option Entry) (now ei bo cost : ℕ) (r : ScriptReply) (w : Option Write)
    → IsKept e
    → gcra_script none now (live x now e) ei bo cost ≡ ok (r, w)
    → (effective (raw (entry_after now e w)) now bo
        ≡ effective (raw e) now bo + ei * charged r cost)
      × (effective (raw e) now bo + ei * charged r cost ≤ now + bo)
      × IsKept (entry_after now e w)
unfolding entry_after
entry_after-effective x e now ei bo cost r w k h =
    let (room, b) = gcra_script-body now (live x now e) ei bo cost r w h in
    let (f, g) = script_body-effective (live x now e) now ei bo cost r w b in
    let same : effective (live x now e) now bo ≡ effective (raw e) now bo =
      ap (λ t. min t (now + bo)) (current-live x e now k) in
    let kept = entry_after-IsKept (live x now e) now ei bo cost r w e room b k in
    (effective-raw x e now bo w k ∙ f ∙ ap (λ t. t + ei * charged r cost) same, omega arith, kept)

over_burst :
    (i ei n m d : ℕ) → ei ≤ i * 1000 → i * (n + m) ≤ i * n + d → ei * (n + m) ≤ ei * n + d * 1000
over_burst i ei n m d h e =
    let x : i * (n + m) ≡ i * n + i * m = grind arith in
    let y : ei * (n + m) ≡ ei * n + ei * m = grind arith in
    let b : ei * m ≤ i * 1000 * m = mul-le-mul_right m h in
    let z : i * 1000 * m ≡ i * m * 1000 = grind arith in omega arith

-- From microseconds to the quota's nanoseconds.
pub to_nanos : (i ei n s d : ℕ) → ei ≤ i * 1000 → i * s ≤ i * n + d → ei * s ≤ ei * n + d * 1000
to_nanos i ei n s d h e = elim (dec_le s n) [
  | yes p ↦ let m : ei * s ≤ ei * n = mul-le-mul_left ei p in omega arith
  | no p ↦
      let v : n + (s - n) ≡ s = omega arith in rw (← v) (over_burst i ei n (s - n) d h (rw v e))
]

pub effective_mono : (s : Option ℕ) (t u bo : ℕ) → t ≤ u → effective s t bo ≤ effective s u bo
effective_mono s t u bo h = let a = current_later s t u h in omega (arith, a)
