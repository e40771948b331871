-- ===== src/Persistence/Commercial.antt =====
-- src/commerce_operations/persistence/models.py: pricing decisions, returns and recommendations to
-- reorder.
use cax_commerce_operations.Prelude.{ℕ, String, Option}
use cax_commerce_operations.Prelude.Int.{ℤ}
use cax_commerce_operations.Persistence.Json.{Object}
use cax_commerce_operations.Persistence.Tables.{HasId}
use cax_commerce_operations.Domains.Pricing.{Quotient}

pub record PricingDecision : Type 0 where
  pub id : ℕ
  pub inventory_item_id : ℕ
  pub approval_id : Option ℕ
  pub landed_cost : Quotient
  pub marketplace_fees : ℤ
  pub fulfilment_costs : ℤ
  pub target_margin : ℤ
  pub minimum_margin : ℤ
  pub minimum_price : ℕ
  pub current_price : Option ℤ
  pub proposed_price : ℕ
  pub contribution_margin : ℤ
  pub gross_profit : ℤ
  pub contribution_profit : ℤ
  pub margin_percentage : ℤ
  pub roi_percentage : Option ℤ
  pub recommended_price : ℕ
  pub price_change_percentage : Option ℤ
  pub landed_cost_source : String
  pub commercial_rules : Object
  pub currency : String
  pub reason : String
  pub policy_result : String
  pub formula_version : ℕ
  pub effective_at : Option ℕ

-- ReturnStatus
pub data ReturnStatus : Type 0 where
  requested approved received rejected completed : ReturnStatus

-- A row of `returns`.
pub record ReturnRecord : Type 0 where
  pub id : ℕ
  pub order_id : ℕ
  pub order_item_id : Option ℕ
  pub quantity : ℕ
  pub disposition : Option String
  pub status : ReturnStatus

pub record ReorderRecommendation : Type 0 where
  pub id : ℕ
  pub inventory_item_id : ℕ
  pub workflow_run_id : ℕ
  pub source_event_id : ℕ
  pub available_quantity : ℕ
  pub low_stock_threshold : ℕ
  pub suggested_quantity : ℕ
  pub reason : String
  pub status : String

instance abbrev pub HasId-pricing_decision : HasId PricingDecision
HasId-pricing_decision = record { id_of = λ r. r.id }

instance abbrev pub HasId-return_record : HasId ReturnRecord
HasId-return_record = record { id_of = λ r. r.id }

instance abbrev pub HasId-reorder_recommendation : HasId ReorderRecommendation
HasId-reorder_recommendation = record { id_of = λ r. r.id }
