-- ===== src/Application/Pricing.antt =====
-- src/commerce_operations/application/pricing.py: pricing decisions, and the approval of significant
-- price changes.
pub mod Decisions
use cax_commerce_operations.Prelude.{
  ℕ, String, Bool, true, false, not, ◌||◌, Option, none, some, List, [], ◌∷◌, ◌==◌, Eq-nat,
  Eq-string, Eq-option, ltb, if◌then◌else◌,
}
use cax_commerce_operations.Prelude.Int.{ℤ, pos}
use cax_commerce_operations.Errors.{Error, Result, ok, err}
use cax_commerce_operations.Persistence.Keys.{CorrelationId}
use cax_commerce_operations.Persistence.Json.{Json, Object}
use cax_commerce_operations.Persistence.Tables.{get, put, add}
use cax_commerce_operations.Persistence.Models.{
  InventoryItem, Approval, AuditEvent, HasId-inventory_item,
}
use cax_commerce_operations.Persistence.Commercial.{PricingDecision, HasId-pricing_decision}
use cax_commerce_operations.Domains.Pricing.{
  Quotient, PricingInputs, CommercialPricingRules, PricingCalculation, calculate_price,
}
use cax_commerce_operations.Approvals.Policy.{ApprovalActionType, ApprovalContext, value}
use cax_commerce_operations.Approvals.Engine.{
  ApprovalEngine, ApprovalRequest, ActionRegistry, ResumeHandler, request_if_required,
  register_action,
}
use cax_commerce_operations.Session.{Db, Action}
use cax_commerce_operations.Session.Actions.{
  pure, raise, gets, lift, or_raise, raise_if, modify, new_id, add_audit, ◌>>=◌, ◌>>◌,
}

pub record CreatePricingDecision : Type 0 where
  pub inventory_item_id : ℕ
  pub marketplace_fees : ℤ
  pub fulfilment_costs : ℤ
  pub target_margin : ℤ
  pub minimum_margin : ℤ
  pub current_selling_price : Option ℤ
  pub currency : String
  pub reason : String
  pub requester : String
  pub landed_cost : Option ℤ
  pub rules : CommercialPricingRules

-- `upper` is Python's `str.upper`.
pub record PricingService : Type 0 where
  pub approval_engine : ApprovalEngine
  pub upper : String → String

abbrev pub landed_cost_of : CreatePricingDecision → InventoryItem → Quotient
landed_cost_of command item = elim command.landed_cost [
  | none ↦ record { num = pos item.cost_basis; den = 1 }
  | some cost ↦ record { num = cost; den = 1 }
]

abbrev source_of : Option ℤ → String
source_of none = "actual_inventory"
source_of (some cost) = "estimated"

abbrev pub inputs_of : CreatePricingDecision → InventoryItem → PricingInputs
inputs_of command item = record {
  landed_cost = landed_cost_of command item;
  marketplace_fees = command.marketplace_fees;
  fulfilment_costs = command.fulfilment_costs;
  target_margin = command.target_margin;
  minimum_margin = command.minimum_margin;
  current_selling_price = command.current_selling_price;
}

-- `str(value) if value is not None else None`
abbrev amount_or_null : Option ℤ → Json
amount_or_null none = Json.null
amount_or_null (some z) = Json.amount z

abbrev rules_object : CommercialPricingRules → Object
rules_object r =
    ("minimum_price", Json.amount r.minimum_price)
    ∷ ("maximum_price", amount_or_null r.maximum_price)
    ∷ ("rounding_increment", Json.amount r.rounding_increment)
    ∷ ("maximum_automatic_change_percent", Json.amount r.maximum_automatic_change_percent)
    ∷ []

abbrev pub new_decision :
    PricingService
    → ℕ
    → CreatePricingDecision
    → InventoryItem
    → PricingCalculation
    → PricingDecision
new_decision service id command item result = record {
  id = id;
  inventory_item_id = item.id;
  approval_id = none;
  landed_cost = landed_cost_of command item;
  marketplace_fees = command.marketplace_fees;
  fulfilment_costs = command.fulfilment_costs;
  target_margin = command.target_margin;
  minimum_margin = command.minimum_margin;
  minimum_price = result.minimum_selling_price;
  current_price = command.current_selling_price;
  proposed_price = result.recommended_selling_price;
  contribution_margin = result.contribution_profit;
  gross_profit = result.gross_profit;
  contribution_profit = result.contribution_profit;
  margin_percentage = result.margin_percentage;
  roi_percentage = result.roi_percentage;
  recommended_price = result.recommended_selling_price;
  price_change_percentage = result.price_change_percentage;
  landed_cost_source = source_of command.landed_cost;
  commercial_rules = rules_object command.rules;
  currency = service.upper command.currency;
  reason = command.reason;
  policy_result = "pending";
  formula_version = 1;
  effective_at = none;
}

abbrev pub price_context : PricingDecision → ApprovalContext
price_context d = record {
  action_type = ApprovalActionType.price_change;
  amount = none;
  price_change_percent = d.price_change_percentage;
  is_first_publication = false;
  risk_level = "normal";
}

abbrev pub price_request : PricingDecision → String → ApprovalRequest
price_request d requester = record {
  action_type = value ApprovalActionType.price_change;
  resource_type = "pricing_decision";
  resource_id = d.id;
  requested_action =
      ("current_price", amount_or_null d.current_price)
      ∷ ("recommended_price", Json.amount (pos d.proposed_price))
      ∷ ("minimum_price", Json.amount (pos d.minimum_price))
      ∷ ("currency", Json.text d.currency)
      ∷ [];
  reason = d.reason;
  requester = requester;
  risk_level = "financial";
  workflow_run_id = none;
  expires_at = none;
}

abbrev pub write_decision : PricingDecision → Action (Unit {0})
write_decision d = modify (λ s. record s { pricing_decisions = put d s.pricing_decisions })

-- `_audit`
unfoldable pub audit_decision : PricingDecision → String → Action (Unit {0})
unfolding add_audit
audit_decision d actor = add_audit (record {
  actor_type = "user";
  actor_id = actor;
  action = "pricing.decision_created";
  resource_type = "pricing_decision";
  resource_id = d.id;
  before_state = none;
  after_state = some (
      ("recommended_price", Json.amount (pos d.recommended_price))
      ∷ ("minimum_price", Json.amount (pos d.minimum_price))
      ∷ ("policy_result", Json.text d.policy_result)
      ∷ []);
  reason = some d.reason;
  correlation_id = CorrelationId.of_row d.id;
})

-- The decision after the policy has answered.
abbrev pub answered : ℕ → Option Approval → PricingDecision → PricingDecision
answered now none d = record d { policy_result = "allowed"; effective_at = some now }
answered now (some approval) d = record d {
  policy_result = "approval_required";
  approval_id = some approval.id;
}

-- The end of `create_decision`, for the decision that was just added.
unfoldable pub finish_decision : ApprovalEngine → String → PricingDecision → Action PricingDecision
unfolding audit_decision
finish_decision engine requester decision = do
  approval ← request_if_required engine (price_context decision) (price_request decision requester)
  now ← gets (λ s. s.clock)
  let final = answered now approval decision
  write_decision final
  audit_decision final requester
  pure final

-- The part of `create_decision` after the calculation. The flush checks that the proposed price is no
-- lower than the minimum price.
unfoldable pub record_decision :
    PricingService
    → CreatePricingDecision
    → InventoryItem
    → PricingCalculation
    → Action PricingDecision
unfolding new_id finish_decision
record_decision service command item result = do
  id ← new_id
  let decision = new_decision service id command item result
  raise_if (ltb decision.proposed_price decision.minimum_price) Error.integrity_error
  modify (λ s. record s { pricing_decisions = add decision s.pricing_decisions })
  finish_decision service.approval_engine command.requester decision

-- `PricingService.create_decision`
unfoldable pub create_decision : PricingService → CreatePricingDecision → Action PricingDecision
create_decision service command = do
  item ← (λ s.
      or_raise (get command.inventory_item_id s.inventory) Error.pricing_inventory_not_found s)
  result ← lift (calculate_price (inputs_of command item) command.rules)
  record_decision service command item result

abbrev pub effective : ℕ → PricingDecision → PricingDecision
effective now d = record d { policy_result = "approved"; effective_at = some now }

-- `PricingService.approve_price_change`
unfoldable pub approve_price_change : ResumeHandler
approve_price_change approval = do
  raise_if (not (approval.resource_type == "pricing_decision")) Error.pricing_approval
  decision ← (λ s. or_raise (get approval.resource_id s.pricing_decisions) Error.pricing_approval s)
  raise_if
      (not (decision.approval_id == some approval.id)
        || not (decision.policy_result == "approval_required"))
      Error.pricing_approval
  raise_if (ltb decision.proposed_price decision.minimum_price) Error.pricing_approval
  now ← gets (λ s. s.clock)
  write_decision (effective now decision)

-- `register_pricing_approval_handler`
abbrev pub register_pricing_approval_handler : ActionRegistry → Result ActionRegistry
register_pricing_approval_handler registry =
    register_action (value ApprovalActionType.price_change) approve_price_change registry
