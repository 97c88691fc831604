-- ===== src/Storage/Serve.antt =====
-- A history of requests to a storage, one after the other.
use tower_rate_tier.Prelude.{
  ◌<◌, ◌>>=◌, List, Option-cases, Panics, [], arith, err, inl, inr, ok, refl, some, sym, ℕ, ◌∙◌,
  ◌∷◌, ◌≡◌,
}
use tower_rate_tier.Quota.{Nanos, Quota}
use tower_rate_tier.Storage.{Decision, Storage, StorageKey}
use tower_rate_tier.Storage.Memory.Runs.{answers}

pub record StorageRequest : Type 0 where
  pub key : StorageKey
  pub quota : Quota
  pub cost : ℕ
  pub now : Nanos

module _ {S : Type 0} (storage : Storage S) where
  unfoldable pub ask : S → StorageRequest → Panics (Decision × S)
  ask s r = storage.check_and_update r.key r.quota r.cost r.now s

  unfoldable pub serve : S → List StorageRequest → Panics (List Decision × S)
  serve s [] = some ([], s)
  serve s (r ∷ rs) = ask s r >>= λ (a, t). serve t rs >>= λ (answers, u). some (a ∷ answers, u)

  -- The rest of a history after the first answer.
  abbrev pub rest : List StorageRequest → Decision × S → Panics (List Decision × S)
  rest rs (a, t) = serve t rs >>= λ (answers, u). some (a ∷ answers, u)

  pub serve-cons :
      (s : S) (r : StorageRequest) (rs : List StorageRequest)
      → serve s (r ∷ rs) ≡ (ask s r >>= rest rs)
  unfolding serve
  serve-cons s r rs = refl

  pub serve-nil : (s : S) → serve s [] ≡ some ([], s)
  unfolding serve
  serve-nil s = refl

  -- The parts of a history that does not panic.
  pub serve-cons-some :
      (s u : S) (r : StorageRequest) (rs : List StorageRequest) (out : List Decision)
      → serve s (r ∷ rs) ≡ some (out, u)
      → (a : Decision) × (t : S) × (answers : List Decision) × (ask s r ≡ some (a, t))
        × (serve t rs ≡ some (answers, u))
        × (out ≡ a ∷ answers)
  serve-cons-some s u r rs out e =
      let h = sym (serve-cons s r rs) ∙ e in
      elim (Option-cases (ask s r)) [
        | inl x ↦ let k = rw x at h in cc
        | inr ((a, t), x) ↦
            let k = rw x at h in
            elim (Option-cases (serve t rs)) [
              | inl y ↦ let l = rw y at k in cc
              | inr ((answers, v), y) ↦
                  let l = rw y at k in (a, t, answers, x, ground arith, ground arith)
            ]
      ]

-- Every request comes before `until`.
abbrev pub Before : Nanos → List StorageRequest → Type 0
Before until [] = Unit
Before until (r ∷ rs) = (r.now < until) × Before until rs

-- No answer is a storage error.
abbrev pub NoErrors : List Decision → Type 0
NoErrors [] = Unit
NoErrors (ok a ∷ answers) = NoErrors answers
NoErrors (err e ∷ answers) = ⊥
