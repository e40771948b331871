-- ===== src/Examples/Decisions.antt =====
-- Approval policies and decisions on concrete inputs.
use cax_commerce_operations.Prelude.{
  ℕ, ◌≡◌, ◌≢◌, ◌↔◌, ◌⊎◌, refl, false, none, some, [], ◌∷◌, arith, filter, length,
}
use cax_commerce_operations.Prelude.Int.{pos}
use cax_commerce_operations.Errors.{ok}
use cax_commerce_operations.Persistence.Enums.{ApprovalStatus}
use cax_commerce_operations.Persistence.Tables.{get, put}
use cax_commerce_operations.Persistence.Models.{Approval, HasId-approval}
use cax_commerce_operations.Approvals.Policy.{
  ApprovalActionType, ApprovalContext, PolicyDecision, Thresholds, from_settings, evaluate,
}
use cax_commerce_operations.Approvals.Policy.Decision.{NeedsHuman, from_settings_exact}
use cax_commerce_operations.Approvals.Engine.{
  ApprovalEngine, ApprovalRequest, create_request, request_if_required, approve, reject, is_due,
  audit_approval, expired, is_expirable, expire_due, open_approval, resume_action, resume_workflow,
  stamp_resumed,
}
use cax_commerce_operations.Approvals.Engine.Request.{
  create_request_again, request_if_required_exact,
}
use cax_commerce_operations.Approvals.Engine.Decide.{IsTame, decision_final, approve_sound}
use cax_commerce_operations.Approvals.Engine.Expiry.{Only, ApprovalsAreKeyed, expire_due_exact}
use cax_commerce_operations.Session.{Db, empty_db}
use cax_commerce_operations.Session.Actions.{pure, add_audit}

abbrev thresholds : Thresholds
thresholds = record {
  significant_price_change_percent = pos 100000;
  refund_approval_threshold = pos 500000;
}

-- A refund of 60.0000, where 50.0000 needs no approval.
abbrev big_refund : ApprovalContext
big_refund = record {
  action_type = ApprovalActionType.refund;
  amount = some (pos 600000);
  price_change_percent = none;
  is_first_publication = false;
  risk_level = "standard";
}

from_settings_exact_example :
    ((evaluate (from_settings thresholds) big_refund).decision ≡ PolicyDecision.require_approval)
    ↔ NeedsHuman thresholds big_refund
from_settings_exact_example = from_settings_exact thresholds big_refund

abbrev engine : ApprovalEngine
engine = record {
  policy = from_settings thresholds;
  default_expiry_hours = 24;
  action_registry = ("refund", λ a. pure tt) ∷ [];
  action_hash = λ type id payload. id;
}

abbrev request : ApprovalRequest
request = record {
  action_type = "refund";
  resource_type = "refund";
  resource_id = 7;
  requested_action = [];
  reason = "Damaged";
  requester = "alice";
  risk_level = "standard";
  workflow_run_id = none;
  expires_at = none;
}

create_request_again_example :
    (a : Approval) × (s' : Db) × (create_request engine "refund_above_threshold" 1 request empty_db
      ≡ (ok a, s'))
    × (create_request engine "another_rule" 2 request s' ≡ (ok a, s'))
create_request_again_example =
    create_request_again engine "refund_above_threshold" "another_rule" 1 2 request empty_db

request_if_required_exact_example :
    (((request_if_required engine big_refund request empty_db).0 ≡ ok none)
      × ¬ NeedsHuman thresholds big_refund)
    ⊎ ((a : Approval) × ((request_if_required engine big_refund request empty_db).0 ≡ ok (some a))
        × NeedsHuman thresholds big_refund)
request_if_required_exact_example =
    request_if_required_exact engine thresholds big_refund request empty_db refl

abbrev pub refund_approval : ℕ → ApprovalStatus → Approval
refund_approval id status = record {
  id = id;
  action_type = "refund";
  resource_type = "refund";
  resource_id = 7;
  requested_payload = [];
  action_hash = 7;
  risk_level = "standard";
  rule_name = "refund_above_threshold";
  rule_version = 1;
  status = status;
  requested_by = "alice";
  requested_reason = "Damaged";
  decided_by = none;
  rationale = none;
  workflow_run_id = none;
  expires_at = some 100;
  decided_at = none;
  resumed_at = none;
  created_at = 0;
}

-- A pending approval and a rejected one.
abbrev two_approvals : Db
two_approvals = record empty_db {
  approvals =
      refund_approval 1 ApprovalStatus.pending ∷ refund_approval 2 ApprovalStatus.rejected ∷ [];
}

engine-IsTame : IsTame engine
engine-IsTame = record { same_approvals = λ type h found a s. ground (arith, found) }

rejected-closed : ApprovalStatus.rejected ≢ ApprovalStatus.pending
rejected-closed = λ e. cc

decision_final_example :
    (get 2 (approve engine 2 "bob" "fine" (some 50) two_approvals).1.approvals
      ≡ some (refund_approval 2 ApprovalStatus.rejected))
    × (get 2 (reject 2 "bob" "fine" (some 50) two_approvals).1.approvals
        ≡ some (refund_approval 2 ApprovalStatus.rejected))
decision_final_example =
    decision_final engine 2 "bob" "fine" (some 50) two_approvals 2
      (refund_approval 2 ApprovalStatus.rejected) engine-IsTame refl rejected-closed

abbrev granted : Approval
granted = record (refund_approval 1 ApprovalStatus.approved) {
  decided_by = some "bob";
  rationale = some "fine";
  decided_at = some 50;
  resumed_at = some 50;
}

approves :
    approve engine 1 "bob" "fine" (some 50) two_approvals
    ≡ (ok granted, (approve engine 1 "bob" "fine" (some 50) two_approvals).1)
unfolding approve open_approval put audit_approval add_audit resume_action resume_workflow
    stamp_resumed
approves = refl

approve_sound_example :
    let s' = (approve engine 1 "bob" "fine" (some 50) two_approvals).1 in
    (a : Approval) × (get 1 two_approvals.approvals ≡ some a)
    × (a.status ≡ ApprovalStatus.pending)
    × (is_due 50 a.expires_at ≡ false)
    × (get 1 s'.approvals ≡ some granted)
    × (granted.status ≡ ApprovalStatus.approved)
    × (granted.decided_by ≡ some "bob")
    × (granted.rationale ≡ some "fine")
    × (granted.resumed_at ≡ some 50)
approve_sound_example =
    approve_sound engine 1 "bob" "fine" (some 50) two_approvals
      (approve engine 1 "bob" "fine" (some 50) two_approvals).1 granted engine-IsTame approves

two_approvals-ApprovalsAreKeyed : ApprovalsAreKeyed two_approvals
unfolding Only
two_approvals-ApprovalsAreKeyed k a found =
    (λ e. ground (arith, e, found), (λ e. ground (arith, e, found), tt))

expire_due_exact_example :
    ((expire_due (some 900) two_approvals).0
      ≡ ok (length (filter (is_expirable 900) two_approvals.approvals)))
    × (get 1 (expire_due (some 900) two_approvals).1.approvals
        ≡ some (expired 900 "system" (refund_approval 1 ApprovalStatus.pending)))
expire_due_exact_example =
    expire_due_exact (some 900) two_approvals 1 (refund_approval 1 ApprovalStatus.pending)
      two_approvals-ApprovalsAreKeyed refl
