-- ===== src/Examples/Prices.antt =====
-- Prices: an item that cost 10.0000, one that cost nothing, and a price that waits for an approval.
use cax_commerce_operations.Prelude.{◌≤◌, ◌≡◌, ◌↔◌, refl, some, none, false, true, [], ◌∷◌, arith}
use cax_commerce_operations.Prelude.Int.{pos, pos_part}
use cax_commerce_operations.Errors.{Error, ok, err}
use cax_commerce_operations.Persistence.Enums.{ApprovalStatus}
use cax_commerce_operations.Persistence.Tables.{get, put}
use cax_commerce_operations.Persistence.Models.{Approval, HasId-inventory_item}
use cax_commerce_operations.Persistence.Commercial.{PricingDecision, HasId-pricing_decision}
use cax_commerce_operations.Domains.Pricing.Rounding.{ceil_div, quantize}
use cax_commerce_operations.Domains.Pricing.{
  PricingInputs, PricingCalculation, default_rules, total_cost, price_for_margin, exceeds, validate,
  minimum_price_of, recommended_price_of, calculate, calculate_price,
}
use cax_commerce_operations.Domains.Pricing.Price.{
  Least, calculate_price-Least, calculate_price_undefined,
}
use cax_commerce_operations.Approvals.Policy.{from_settings}
use cax_commerce_operations.Approvals.Engine.{
  ApprovalEngine, approve, audit_approval, open_approval, resume_action, resume_workflow,
  stamp_resumed,
}
use cax_commerce_operations.Application.Pricing.{approve_price_change, effective}
use cax_commerce_operations.Application.Pricing.Decisions.{grant_sets_price}
use cax_commerce_operations.Session.{Db, empty_db}
use cax_commerce_operations.Session.Actions.{add_audit}

-- A cost of 10.0000 with fees of 1.5000, a target margin of 30 percent and at least 15 percent.
abbrev inputs : PricingInputs
inputs = record {
  landed_cost = record { num = pos 100000; den = 1 };
  marketplace_fees = pos 15000;
  fulfilment_costs = pos 0;
  target_margin = pos 3000;
  minimum_margin = pos 1500;
  current_selling_price = none;
}

abbrev calculation : PricingCalculation
calculation = record {
  gross_profit = pos 64300;
  contribution_profit = pos 49300;
  margin_percentage = pos 300061;
  roi_percentage = some (pos 493000);
  minimum_selling_price = 135300;
  recommended_selling_price = 164300;
  price_change_percentage = none;
  within_automatic_boundary = true;
}

calculates : calculate_price inputs default_rules ≡ ok calculation
unfolding calculate_price validate minimum_price_of recommended_price_of calculate ceil_div quantize
calculates = refl

calculate_price-Least_example :
    Least (price_for_margin (total_cost inputs) (pos 3000)) 135300 100 164300
    × Least (price_for_margin (total_cost inputs) (pos 1500)) 0 100 135300
    × (exceeds 164300 none ≡ false)
calculate_price-Least_example =
    calculate_price-Least inputs default_rules calculation (omega arith) calculates

-- A gift without fees or a minimum price.
abbrev gift : PricingInputs
gift = record inputs { landed_cost = record { num = pos 0; den = 1 }; marketplace_fees = pos 0 }

gift_valid : validate gift default_rules ≡ ok tt
unfolding validate
gift_valid = refl

calculate_price_undefined_example :
    (calculate_price gift default_rules ≡ err Error.invalid_operation)
    ↔ (((total_cost gift).num ≡ 0) × (pos_part default_rules.minimum_price ≡ 0))
calculate_price_undefined_example =
    calculate_price_undefined gift default_rules (omega arith) gift_valid

abbrev engine : ApprovalEngine
engine = record {
  policy = from_settings (record {
    significant_price_change_percent = pos 100000;
    refund_approval_threshold = pos 500000;
  });
  default_expiry_hours = 24;
  action_registry = ("price_change", approve_price_change) ∷ [];
  action_hash = λ type id payload. id;
}

-- From 10.0000 to 16.4300.
abbrev decision : PricingDecision
decision = record {
  id = 8;
  inventory_item_id = 5;
  approval_id = some 20;
  landed_cost = record { num = pos 100000; den = 1 };
  marketplace_fees = pos 15000;
  fulfilment_costs = pos 0;
  target_margin = pos 3000;
  minimum_margin = pos 1500;
  minimum_price = 135300;
  current_price = some (pos 100000);
  proposed_price = 164300;
  contribution_margin = pos 49300;
  gross_profit = pos 64300;
  contribution_profit = pos 49300;
  margin_percentage = pos 300061;
  roi_percentage = some (pos 493000);
  recommended_price = 164300;
  price_change_percentage = some (pos 643000);
  landed_cost_source = "estimated";
  commercial_rules = [];
  currency = "EUR";
  reason = "New costs";
  policy_result = "approval_required";
  formula_version = 1;
  effective_at = none;
}

abbrev request : Approval
request = record {
  id = 20;
  action_type = "price_change";
  resource_type = "pricing_decision";
  resource_id = 8;
  requested_payload = [];
  action_hash = 8;
  risk_level = "commercial";
  rule_name = "significant_price_change";
  rule_version = 1;
  status = ApprovalStatus.pending;
  requested_by = "alice";
  requested_reason = "New costs";
  decided_by = none;
  rationale = none;
  workflow_run_id = none;
  expires_at = some 87400;
  decided_at = none;
  resumed_at = none;
  created_at = 1000;
}

abbrev waiting : Db
waiting = record empty_db {
  next_id = 21;
  clock = 1000;
  pricing_decisions = decision ∷ [];
  approvals = request ∷ [];
}

abbrev granted_request : Approval
granted_request = record request {
  status = ApprovalStatus.approved;
  decided_by = some "bob";
  rationale = some "Agreed";
  decided_at = some 2000;
  resumed_at = some 2000;
}

abbrev after : Db
after = (approve engine 20 "bob" "Agreed" (some 2000) waiting).1

grants : approve engine 20 "bob" "Agreed" (some 2000) waiting ≡ (ok granted_request, after)
unfolding approve open_approval resume_action resume_workflow stamp_resumed audit_approval
    approve_price_change add_audit put
grants = refl

grant_sets_price_example :
    (d : PricingDecision) × (get 8 waiting.pricing_decisions ≡ some d)
    × (d.approval_id ≡ some 20)
    × (d.policy_result ≡ "approval_required")
    × (d.minimum_price ≤ d.proposed_price)
    × (get 8 after.pricing_decisions ≡ some (effective 1000 d))
grant_sets_price_example =
    grant_sets_price engine 20 "bob" "Agreed" (some 2000) waiting after request granted_request refl
      refl grants
