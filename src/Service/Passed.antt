-- ===== src/Service/Passed.antt =====
-- What a user's requests that the wrapped service of src/service.rs answered cost.
use tower_rate_tier.Check.{request_cost}
use tower_rate_tier.Http.{Http, Response}
use tower_rate_tier.Layer.{Settings}
use tower_rate_tier.Policy.{TierIdentity}
use tower_rate_tier.Prelude.{
  ◌&&◌, ◌+◌, Bool, List, Option, Result, [], ap, false, if◌then◌else◌, none, some, true, ℕ, ◌∷◌,
  ◌≡◌,
}
use tower_rate_tier.Prelude.Text.{Text}
use tower_rate_tier.Service.Answers.{answered_by}
use tower_rate_tier.Service.Requests.{Arrival, identified_as}
use tower_rate_tier.Storage.DashMap.{Key, key_eq, key_eq_iff}

module _ (user tier : Text) where
  -- The user's requests under the tier.
  abbrev pub is_of : Option TierIdentity → Bool
  is_of none = false
  is_of (some id) = key_eq (id.user_id, id.tier) (user, tier)

  pub is_of-IsOf :
      (identity : Option TierIdentity)
      → is_of identity ≡ true
      → identity ≡ some (record { user_id = user; tier = tier })
  is_of-IsOf none e = cc
  is_of-IsOf (some id) e =
      ap (λ (j : Key). some (record { user_id = j.0; tier = j.1 }))
        ((key_eq_iff (id.user_id, id.tier) (user, tier)).0 e)

module _ {h : Http} {B R E W : Type 0} (s : Settings h W) (own : R → Bool) (user tier : Text) where
  -- The cost of a request of the user that the wrapped service answered.
  abbrev pub passed : Arrival h B W × Result (Response h R) E → ℕ
  passed (a, reply) =
      if is_of user tier (identified_as s a).0 && answered_by own reply
      then request_cost a.request.parts s
      else 0

  abbrev pub passed_in : List (Arrival h B W × Result (Response h R) E) → ℕ
  passed_in [] = 0
  passed_in (p ∷ rest) = passed p + passed_in rest
