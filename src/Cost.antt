-- ===== src/Cost.antt =====
-- src/cost.rs: the layer that sets a request's cost.
use tower_rate_tier.Http.{Http, Request}
use tower_rate_tier.Prelude.{ℕ}

pub record TierCostLayer : Type 0 where
  pub cost : ℕ

-- The service around an inner one, of type `I`.
pub record TierCostService (I : Type 0) : Type 0 where
  pub inner : I
  pub cost : ℕ

unfoldable pub tier_cost : ℕ → TierCostLayer
tier_cost cost = record { cost = cost }

-- `TierCostLayer::layer`
unfoldable pub layer_cost : {I : Type 0} → TierCostLayer → I → TierCostService I
layer_cost l inner = record { inner = inner; cost = l.cost }

-- `TierCostService::call`, over the inner service's `call`, whatever comes of a request there.
unfoldable pub call_with_cost :
    {h : Http} {B I A : Type 0} → (I → Request h B → A) → TierCostService I → Request h B → A
call_with_cost {h} call s req =
    call s.inner (record req { parts = h.insert_tier_cost s.cost req.parts })
