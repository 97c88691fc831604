-- ===== src/Storage/Breaker/Histories.antt =====
-- What the breaker is to its clients, over a history of requests.
use tower_rate_tier.Gcra.{RateLimitInfo, RateLimited}
use tower_rate_tier.Prelude.{
  ◌<◌, ◌>>=◌, List, Panics, Result, [], arith, bind_assoc, bind_congr, err, none, ok, refl, some,
  sym, ◌∙◌, ◌∷◌, ◌≡◌,
}
use tower_rate_tier.Quota.{Nanos}
use tower_rate_tier.Storage.{Decision}
use tower_rate_tier.Storage.Breaker.{
  CircuitBreaker, Shared, admit, begin, breaker_storage, check_and_update, check_fallback, finish,
  settle,
}
use tower_rate_tier.Storage.Breaker.Transition.{after_call, closed, opened}
use tower_rate_tier.Storage.DashMap.{DashMap}
use tower_rate_tier.Storage.Memory.{MemoryStorage, memory_storage}
use tower_rate_tier.Storage.Memory.Runs.{answers, run}
use tower_rate_tier.Storage.Serve.{
  Before, NoErrors, StorageRequest, ask, serve, serve-cons, serve-cons-some, serve-nil,
}

module _ {d : DashMap} {P W : Type 0} (b : CircuitBreaker P W) where
  abbrev pub with_fallback :
      Shared d P W → List Decision × MemoryStorage d → Panics (List Decision × Shared d P W)
  with_fallback s (answers, m) = some (answers, record s { fallback = m })

  admit-open :
      (s : Shared d P W) (until now : Nanos)
      → s.state ≡ opened until
      → now < until
      → ((admit s.state now).0 ≡ none) × ((admit s.state now).1 ≡ s.state)
  unfolding admit
  admit-open s until now e h = ground arith

  ask-open :
      (s : Shared d P W) (r : StorageRequest) (until : Nanos)
      → s.state ≡ opened until
      → r.now < until
      → ask (breaker_storage b) s r
        ≡ (ask (memory_storage d) s.fallback r >>= λ (a, m). some (a, record s { fallback = m }))
  unfolding ask breaker_storage memory_storage check_and_update check_fallback
  ask-open s r until e early =
      let (to_fallback, same) = admit-open s until r.now e early in
      rw (to_fallback, same, check_and_update) refl

  shuffle :
      (s : Shared d P W) (m : MemoryStorage d) (a : Decision)
      (out : Panics (List Decision × MemoryStorage d))
      → ((out >>= with_fallback (record s { fallback = m })) >>= λ (answers, u).
          some (a ∷ answers, u))
        ≡ ((out >>= λ (answers, u). some (a ∷ answers, u)) >>= with_fallback s)
  shuffle s m a none = refl
  shuffle s m a (some (answers, u)) = refl

  -- While the breaker is open it is its fallback: over any requests that come before the period
  -- ends, the answers and the fallback's state are those of the memory storage, and neither the
  -- primary nor the breaker's own state is touched.
  pub outage_is_memory :
      (s : Shared d P W) (rs : List StorageRequest) (until : Nanos)
      → s.state ≡ opened until
      → Before until rs
      → serve (breaker_storage b) s rs
        ≡ (serve (memory_storage d) s.fallback rs >>= with_fallback s)
  outage_is_memory s [] until e early =
      rw (serve-nil (breaker_storage b) s, serve-nil (memory_storage d) s.fallback)
  outage_is_memory s (r ∷ rs) until e early =
      let memory = ask (memory_storage d) s.fallback r in
      rw
        (
          serve-cons (breaker_storage b) s r rs,
          serve-cons (memory_storage d) s.fallback r rs,
          ask-open s r until e early.0,
        )
        (bind_assoc memory _ _
          ∙ bind_congr memory _ _ (λ (a, m).
            rw (outage_is_memory (record s { fallback = m }) rs until e early.1)
              (shuffle s m a (serve (memory_storage d) m rs)))
          ∙ sym (bind_assoc memory _ (with_fallback s)))

  ask-closed :
      (s : Shared d P W) (r : StorageRequest) (p : P) (a : Result RateLimitInfo RateLimited)
      → s.state ≡ closed 0
      → ask b.primary s.primary_state r ≡ some (ok a, p)
      → ask (breaker_storage b) s r ≡ some (ok a, record s { primary_state = p })
  unfolding ask breaker_storage check_and_update admit begin settle finish after_call
  ask-closed s r p a e answer = ground arith

  healthy-cons :
      (s : Shared d P W) (r : StorageRequest) (rs : List StorageRequest) (out : List Decision)
      (p : P) (a : Decision) (q : P) (answers : List Decision)
      → s.state ≡ closed 0
      → ask b.primary s.primary_state r ≡ some (a, q)
      → out ≡ a ∷ answers
      → NoErrors out
      → (NoErrors answers
          → serve (breaker_storage b) (record s { primary_state = q }) rs
            ≡ some (answers, record s { primary_state = p }))
      → serve (breaker_storage b) s (r ∷ rs) ≡ some (out, record s { primary_state = p })
  healthy-cons s r rs out p (ok a) q answers e asked split clean ih =
      let clean' : NoErrors answers = rw split at clean in
      rw (serve-cons (breaker_storage b) s r rs, ask-closed s r q a e asked, split) (rw (ih clean'))
  healthy-cons s r rs out p (err a) q answers e asked split clean ih =
      let bad : ⊥ = rw split at clean in absurd bad

  -- While the primary answers without errors, a breaker that counts no failure is its primary: the
  -- answers and the primary's state are the primary's own, and nothing else changes.
  pub healthy_is_primary :
      (s : Shared d P W) (rs : List StorageRequest) (answers : List Decision) (p : P)
      → s.state ≡ closed 0
      → serve b.primary s.primary_state rs ≡ some (answers, p)
      → NoErrors answers
      → serve (breaker_storage b) s rs ≡ some (answers, record s { primary_state = p })
  healthy_is_primary s [] answers p e run clean =
      ground (arith, serve-nil b.primary s.primary_state, serve-nil (breaker_storage b) s)
  healthy_is_primary s (r ∷ rs) answers p e run clean =
      let (a, q, answers', asked, rest', out) =
        serve-cons-some b.primary s.primary_state p r rs answers run in
      healthy-cons s r rs answers p a q answers' e asked out clean
        (healthy_is_primary (record s { primary_state = q }) rs answers' p e rest')
