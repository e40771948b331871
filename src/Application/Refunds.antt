-- ===== src/Application/Refunds.antt =====
-- src/commerce_operations/application/refunds.py: refunds are approved by policy or by a human.
pub mod Payment
pub mod Request
use cax_commerce_operations.Prelude.{
  ℕ, ◌*◌, String, Bool, true, false, not, ◌||◌, Option, none, some, List, [], ◌∷◌, ◌==◌, Eq-nat,
  Eq-string, Eq-option, or_else, if◌then◌else◌,
}
use cax_commerce_operations.Prelude.Int.{ℤ, pos, sub_ℕ, pos_part, neg_part, Eq-int}
use cax_commerce_operations.Errors.{Error, Result, ok, err}
use cax_commerce_operations.Persistence.Enums.{RefundStatus, Eq-refund_status}
use cax_commerce_operations.Persistence.Keys.{CorrelationId}
use cax_commerce_operations.Persistence.Json.{Json, Object, field, json_eq}
use cax_commerce_operations.Persistence.Tables.{get, put}
use cax_commerce_operations.Persistence.Models.{Refund, Approval, AuditEvent, HasId-refund}
use cax_commerce_operations.Approvals.Policy.{ApprovalActionType, ApprovalContext, value}
use cax_commerce_operations.Approvals.Engine.{
  ApprovalEngine, ApprovalRequest, ActionRegistry, ResumeHandler, request_if_required,
  register_action,
}
use cax_commerce_operations.Session.{Db, Action}
use cax_commerce_operations.Session.Actions.{
  pure, raise, gets, lift, or_raise, raise_if, modify, add_audit, ◌>>=◌, ◌>>◌,
}

abbrev pub write_refund : Refund → Action (Unit {0})
write_refund r = modify (λ s. record s { refunds = put r s.refunds })

abbrev pub approved : Refund → Refund
approved r = record r { status = RefundStatus.approved }

abbrev status_approved : Object
status_approved = ("status", Json.text "approved") ∷ []

abbrev policy_audit : Refund → AuditEvent
policy_audit r = record {
  actor_type = "system";
  actor_id = "refund-policy";
  action = "refund.auto_approved";
  resource_type = "refund";
  resource_id = r.id;
  before_state = none;
  after_state = some status_approved;
  reason = some "Refund was within the configured approval threshold";
  correlation_id = CorrelationId.of_row r.order_id;
}

-- The refund that a proposal names, if it is still proposed.
abbrev pub proposed_refund : ℕ → Db → Option Refund
proposed_refund refund_id s = elim (get refund_id s.refunds) [
  | none ↦ none
  | some r ↦ if r.status == RefundStatus.proposed then some r else none
]

abbrev pub refund_context : Refund → ApprovalContext
refund_context r = record {
  action_type = ApprovalActionType.refund;
  amount = some (pos r.amount);
  price_change_percent = none;
  is_first_publication = false;
  risk_level = "normal";
}

abbrev pub refund_request : Refund → String → String → ApprovalRequest
refund_request r requester reason = record {
  action_type = value ApprovalActionType.refund;
  resource_type = "refund";
  resource_id = r.id;
  requested_action = ("refund_id", Json.ident r.id) ∷ ("amount", Json.amount (pos r.amount)) ∷ [];
  reason = reason;
  requester = requester;
  risk_level = "financial";
  workflow_run_id = none;
  expires_at = none;
}

-- The end of `request_approval`: the policy let the refund through, or an approval stands for it.
unfoldable pub note_answer : Refund → Option Approval → Action (Option Approval)
unfolding add_audit
note_answer refund none = do
  write_refund (approved refund)
  add_audit (policy_audit refund)
  pure none
note_answer refund (some approval) = do
  write_refund (record refund { approval_id = some approval.id })
  pure (some approval)

-- `RefundService.request_approval`
unfoldable pub request_approval : ApprovalEngine → ℕ → String → String → Action (Option Approval)
unfolding note_answer
request_approval engine refund_id requester reason = do
  refund ← (λ s. or_raise (proposed_refund refund_id s) Error.refund_approval s)
  approval ←
      request_if_required engine (refund_context refund) (refund_request refund requester reason)
  note_answer refund approval

abbrev scale : ℤ → ℤ
scale z = sub_ℕ (pos_part z * 10000) (neg_part z * 10000)

-- `Decimal(value)` of a JSON value, in ten-thousandths. The texts that `str` makes of decimals are
-- the amounts; no other text of a payload is a number.
abbrev pub decimal_of : Option Json → Result ℤ
decimal_of none = err Error.type_error
decimal_of (some Json.null) = err Error.type_error
decimal_of (some (Json.flag true)) = ok (pos 10000)
decimal_of (some (Json.flag false)) = ok (pos 0)
decimal_of (some (Json.int z)) = ok (scale z)
decimal_of (some (Json.amount z)) = ok z
decimal_of (some (Json.text s)) = err Error.invalid_operation
decimal_of (some (Json.texts l)) = err Error.value_error
decimal_of (some (Json.ident k)) = err Error.invalid_operation

-- `requested_id == str(refund.id)`
abbrev pub names_refund : Option Json → ℕ → Bool
names_refund none id = false
names_refund (some j) id = json_eq j (Json.ident id)

abbrev pub human_audit : Approval → Refund → AuditEvent
human_audit approval r = record {
  actor_type = "human";
  actor_id = or_else approval.decided_by "unknown";
  action = "refund.approved";
  resource_type = "refund";
  resource_id = r.id;
  before_state = none;
  after_state = some status_approved;
  reason = approval.rationale;
  correlation_id = CorrelationId.of_row r.order_id;
}

-- The test of the approved payload. The amount is read only if the ids agree.
unfoldable pub check_payload : Object → Refund → Result (Unit {0})
check_payload payload r =
    if not (names_refund (field "refund_id" payload) r.id)
    then err Error.refund_approval
    else elim (decimal_of (field "amount" payload)) [
      | err e ↦ err e
      | ok amount ↦ if amount == pos r.amount then ok tt else err Error.refund_approval
    ]

-- `approve_refund`
unfoldable pub approve_refund : ResumeHandler
unfolding check_payload add_audit
approve_refund approval = do
  refund ← (λ s. or_raise (get approval.resource_id s.refunds) Error.refund_approval s)
  raise_if (not (approval.resource_type == "refund")) Error.refund_approval
  raise_if (not (refund.status == RefundStatus.proposed)) Error.refund_approval
  lift (check_payload approval.requested_payload refund)
  write_refund (approved refund)
  add_audit (human_audit approval refund)

-- `register_refund_approval_handler`
abbrev pub register_refund_approval_handler : ActionRegistry → Result ActionRegistry
register_refund_approval_handler registry =
    register_action (value ApprovalActionType.refund) approve_refund registry
