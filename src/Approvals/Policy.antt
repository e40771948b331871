-- ===== src/Approvals/Policy.antt =====
-- src/commerce_operations/approvals/policy.py: which actions a human must approve. Decimals are
-- integers of one scale (ten-thousandths).
pub mod Decision
use cax_commerce_operations.Prelude.{
  ℕ, ◌≡◌, ◌↔◌, String, Bool, true, false, not, ◌&&◌, Option, none, some, List, [], ◌∷◌, arith, Eq,
  ◌==◌, nat_eq, ltb, leb, contains, if◌then◌else◌,
}
use cax_commerce_operations.Prelude.Int.{ℤ, pos, abs, ltb_ℤ, leb_ℤ}

pub data ApprovalActionType : Type 0 where
  supplier_purchase first_marketplace_publication price_change refund : ApprovalActionType
  destructive_action high_risk_action customer_response : ApprovalActionType

abbrev pub action_code : ApprovalActionType → ℕ
action_code ApprovalActionType.supplier_purchase = 0
action_code ApprovalActionType.first_marketplace_publication = 1
action_code ApprovalActionType.price_change = 2
action_code ApprovalActionType.refund = 3
action_code ApprovalActionType.destructive_action = 4
action_code ApprovalActionType.high_risk_action = 5
action_code ApprovalActionType.customer_response = 6

pub action_eq_iff :
    (a b : ApprovalActionType) → (nat_eq (action_code a) (action_code b) ≡ true) ↔ (a ≡ b)
action_eq_iff a b = ground arith

instance abbrev pub Eq-action : Eq ApprovalActionType
Eq-action = record { beq = λ a b. nat_eq (action_code a) (action_code b); beq_iff = action_eq_iff }

-- The texts of the enumeration's members (`.value`).
abbrev pub value : ApprovalActionType → String
value ApprovalActionType.supplier_purchase = "supplier_purchase"
value ApprovalActionType.first_marketplace_publication = "first_marketplace_publication"
value ApprovalActionType.price_change = "price_change"
value ApprovalActionType.refund = "refund"
value ApprovalActionType.destructive_action = "destructive_action"
value ApprovalActionType.high_risk_action = "high_risk_action"
value ApprovalActionType.customer_response = "customer_response"

pub data PolicyDecision : Type 0 where
  allow require_approval : PolicyDecision

pub record ApprovalContext : Type 0 where
  pub action_type : ApprovalActionType
  pub amount : Option ℤ
  pub price_change_percent : Option ℤ
  pub is_first_publication : Bool
  pub risk_level : String

-- The classes that implement `ApprovalRule`, with the fields that have no default.
pub data ApprovalRule : Type 0 where
  action_rule : String → List ApprovalActionType → ApprovalRule
  first_publication_rule : ApprovalRule
  significant_price_change_rule : ℤ → ApprovalRule
  refund_threshold_rule : ℤ → ApprovalRule

abbrev pub rule_name : ApprovalRule → String
rule_name (ApprovalRule.action_rule name types) = name
rule_name ApprovalRule.first_publication_rule = "first_marketplace_publication"
rule_name (ApprovalRule.significant_price_change_rule threshold) = "significant_price_change"
rule_name (ApprovalRule.refund_threshold_rule threshold) = "refund_above_threshold"

abbrev pub rule_version : ApprovalRule → ℕ
rule_version rule = 1

abbrev pub exceeds_percent : Option ℤ → ℤ → Bool
exceeds_percent none threshold = false
exceeds_percent (some percent) threshold = leb_ℤ threshold (pos (abs percent))

abbrev pub exceeds_amount : Option ℤ → ℤ → Bool
exceeds_amount none threshold = false
exceeds_amount (some amount) threshold = ltb_ℤ threshold amount

unfoldable pub requires_approval : ApprovalRule → ApprovalContext → Bool
requires_approval (ApprovalRule.action_rule name types) c = contains c.action_type types
requires_approval ApprovalRule.first_publication_rule c =
    c.action_type == ApprovalActionType.first_marketplace_publication && c.is_first_publication
requires_approval (ApprovalRule.significant_price_change_rule threshold) c =
    c.action_type == ApprovalActionType.price_change
    && exceeds_percent c.price_change_percent threshold
requires_approval (ApprovalRule.refund_threshold_rule threshold) c =
    c.action_type == ApprovalActionType.refund && exceeds_amount c.amount threshold

pub record PolicyResult : Type 0 where
  pub decision : PolicyDecision
  pub matched_rule : Option ApprovalRule

-- `ApprovalPolicy.evaluate`: the first rule that wants an approval decides.
unfoldable pub evaluate : List ApprovalRule → ApprovalContext → PolicyResult
evaluate [] c = record { decision = PolicyDecision.allow; matched_rule = none }
evaluate (rule ∷ rules) c =
    let rest = evaluate rules c in
    if requires_approval rule c
    then record { decision = PolicyDecision.require_approval; matched_rule = some rule }
    else rest

-- The two thresholds that `from_settings` reads, as decimals.
pub record Thresholds : Type 0 where
  pub significant_price_change_percent : ℤ
  pub refund_approval_threshold : ℤ

-- `ApprovalPolicy.from_settings`
abbrev pub from_settings : Thresholds → List ApprovalRule
from_settings settings =
    ApprovalRule.action_rule "financial_and_high_risk_actions" (
      ApprovalActionType.supplier_purchase ∷ ApprovalActionType.destructive_action
      ∷ ApprovalActionType.high_risk_action ∷ [])
    ∷ ApprovalRule.first_publication_rule
    ∷ ApprovalRule.significant_price_change_rule settings.significant_price_change_percent
    ∷ ApprovalRule.refund_threshold_rule settings.refund_approval_threshold
    ∷ []
