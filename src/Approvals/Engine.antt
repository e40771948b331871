-- ===== src/Approvals/Engine.antt =====
-- src/commerce_operations/approvals/engine.py: the life of an approval.
pub mod Decide
pub mod Request
pub mod Expiry
pub mod Carry
pub mod Ask
use cax_commerce_operations.Prelude.{
  ℕ, ◌+◌, ◌*◌, String, Bool, true, false, not, ◌&&◌, Option, none, some, List, [], ◌∷◌, Eq-nat,
  Eq-string, Eq-option, ◌==◌, leb, find, filter, or_else, length, if◌then◌else◌,
}
use cax_commerce_operations.Errors.{Error, Result, ok, err}
use cax_commerce_operations.Persistence.Enums.{ApprovalStatus, RunStatus, Eq-approval_status}
use cax_commerce_operations.Persistence.Keys.{CorrelationId}
use cax_commerce_operations.Persistence.Json.{Json, Object}
use cax_commerce_operations.Persistence.Tables.{get, put, add}
use cax_commerce_operations.Persistence.Models.{
  Approval, WorkflowRun, AuditEvent, HasId-approval, HasId-workflow_run,
}
use cax_commerce_operations.Approvals.Policy.{
  PolicyDecision, ApprovalContext, ApprovalRule, rule_name, rule_version, evaluate,
}
use cax_commerce_operations.Session.{Db, Action}
use cax_commerce_operations.Session.Actions.{
  pure, raise, gets, or_raise, raise_if, modify, new_id, add_audit, ◌>>=◌, ◌>>◌,
}

abbrev pub ResumeHandler : Type 0
ResumeHandler = Approval → Action (Unit {0})

-- `ApprovalActionRegistry`
abbrev pub ActionRegistry : Type 0
ActionRegistry = List (String × ResumeHandler)

-- `ApprovalActionRegistry.get`
abbrev pub registered : String → ActionRegistry → Option ResumeHandler
registered action_type [] = none
registered action_type ((name, handler) ∷ rest) =
    if name == action_type then some handler else registered action_type rest

-- `ApprovalActionRegistry.register`
unfoldable pub register_action : String → ResumeHandler → ActionRegistry → Result ActionRegistry
register_action action_type handler registry = elim (registered action_type registry) [
  | some _ ↦ err Error.value_error
  | none ↦ ok (add (action_type, handler) registry)
]

-- `action_hash` is the SHA-256 of the canonical JSON text of its arguments.
pub record ApprovalEngine : Type 0 where
  pub policy : List ApprovalRule
  pub default_expiry_hours : ℕ
  pub action_registry : ActionRegistry
  pub action_hash : String → ℕ → Object → ℕ

-- The keyword arguments of `create_request`.
pub record ApprovalRequest : Type 0 where
  pub action_type : String
  pub resource_type : String
  pub resource_id : ℕ
  pub requested_action : Object
  pub reason : String
  pub requester : String
  pub risk_level : String
  pub workflow_run_id : Option ℕ
  pub expires_at : Option ℕ

abbrev status_object : String → Object
status_object status = ("status", Json.text status) ∷ []

-- Python's `a or b` on texts, where no text and the empty text give `b`.
abbrev text_or : Option String → String → String
text_or none t = t
text_or (some a) t = if a == "" then t else a

-- `_audit`
unfoldable pub audit_approval :
    Approval → String → String → Option String → String → Action (Unit {0})
unfolding add_audit
audit_approval approval action actor before after = add_audit (record {
  actor_type = if not (actor == "system") then "user" else "system";
  actor_id = actor;
  action = action;
  resource_type = "approval";
  resource_id = approval.id;
  before_state = elim before [ none ↦ none | some status ↦ some (status_object status) ];
  after_state = some (status_object after);
  reason = some (text_or approval.rationale approval.requested_reason);
  correlation_id = CorrelationId.of_row approval.id;
})

abbrev pub same_request : String → ℕ → ℕ → Approval → Bool
same_request resource_type resource_id hash a =
    a.resource_type == resource_type && a.resource_id == resource_id && a.action_hash == hash

abbrev pub new_approval : ℕ → ℕ → ApprovalEngine → String → ℕ → ApprovalRequest → Approval
new_approval id now engine rule_name rule_version r = record {
  id = id;
  action_type = r.action_type;
  resource_type = r.resource_type;
  resource_id = r.resource_id;
  requested_payload = r.requested_action;
  action_hash = engine.action_hash r.action_type r.resource_id r.requested_action;
  risk_level = r.risk_level;
  rule_name = rule_name;
  rule_version = rule_version;
  status = ApprovalStatus.pending;
  requested_by = r.requester;
  requested_reason = r.reason;
  decided_by = none;
  rationale = none;
  workflow_run_id = r.workflow_run_id;
  expires_at = some (or_else r.expires_at (now + engine.default_expiry_hours * 3600));
  decided_at = none;
  resumed_at = none;
  created_at = now;
}

-- The part of `create_request` after the search for an existing request.
unfoldable pub insert_request : ApprovalEngine → String → ℕ → ApprovalRequest → Action Approval
unfolding new_id audit_approval
insert_request engine rule_name rule_version r = do
  id ← new_id
  now ← gets (λ s. s.clock)
  let approval = new_approval id now engine rule_name rule_version r
  modify (λ s. record s { approvals = add approval s.approvals })
  audit_approval approval "approval.requested" r.requester none "pending"
  pure approval

-- `ApprovalEngine.create_request`
unfoldable pub create_request : ApprovalEngine → String → ℕ → ApprovalRequest → Action Approval
create_request engine rule_name rule_version r = do
  existing ← gets (λ s.
      find
        (same_request r.resource_type r.resource_id
          (engine.action_hash r.action_type r.resource_id r.requested_action))
        s.approvals)
  elim existing [
    | some approval ↦ pure approval
    | none ↦ insert_request engine rule_name rule_version r
  ]

-- `ApprovalEngine.request_if_required`
unfoldable pub request_if_required :
    ApprovalEngine → ApprovalContext → ApprovalRequest → Action (Option Approval)
request_if_required engine context r =
    let result = evaluate engine.policy context in
    elim result.decision [
      | PolicyDecision.allow ↦ pure none
      | PolicyDecision.require_approval ↦ elim result.matched_rule [
        | none ↦ raise Error.assertion_error
        | some rule ↦ do
          approval ← create_request engine (rule_name rule) (rule_version rule) r
          pure (some approval)
      ]
    ]

-- `ApprovalEngine.get`
abbrev pub find_approval : ℕ → Action Approval
find_approval approval_id s = or_raise (get approval_id s.approvals) Error.approval_not_found s

abbrev pub save_approval : Approval → Action (Unit {0})
save_approval a = modify (λ s. record s { approvals = put a s.approvals })

abbrev pub expired : ℕ → String → Approval → Approval
expired now actor a = record a {
  status = ApprovalStatus.expired;
  decided_at = some now;
  decided_by = some actor;
  rationale = some "Approval expired before a decision was made";
}

-- `_expire`
unfoldable pub expire : Approval → ℕ → String → Action (Unit {0})
unfolding audit_approval
expire approval now actor = do
  save_approval (expired now actor approval)
  audit_approval (expired now actor approval) "approval.expired" actor (some "pending") "expired"

-- `approval.expires_at is not None and approval.expires_at <= now`
abbrev pub is_due : ℕ → Option ℕ → Bool
is_due now none = false
is_due now (some t) = leb t now

-- The workflow that waits for the approval runs again.
unfoldable pub resume_workflow : Option ℕ → Action (Unit {0})
resume_workflow none = pure tt
resume_workflow (some workflow_run_id) = do
  workflow ← (λ s. or_raise (get workflow_run_id s.workflows) Error.approval_transition s)
  modify (λ s. record s {
    workflows =
        put
          (record workflow {
            version = workflow.version + 1;
            status = RunStatus.running;
            next_retry_at = none;
            error = none;
          })
          s.workflows;
  })

abbrev pub call_handler : Option ResumeHandler → ResumeHandler
call_handler none approval = pure tt
call_handler (some handler) approval = handler approval

-- The last assignment of `_resume_action`, to the row as it is after the handler ran.
unfoldable pub stamp_resumed : ℕ → ℕ → Action (Unit {0})
stamp_resumed approval_id now = do
  approval ← find_approval approval_id
  save_approval (record approval { resumed_at = some now })

-- `_resume_action`
unfoldable pub resume_action : ApprovalEngine → Approval → ℕ → Action (Unit {0})
resume_action engine approval now = do
  call_handler (registered approval.action_type engine.action_registry) approval
  resume_workflow approval.workflow_run_id
  stamp_resumed approval.id now

abbrev pub decided : ApprovalStatus → String → String → ℕ → Approval → Approval
decided status approver reason now a = record a {
  status = status;
  decided_by = some approver;
  rationale = some reason;
  decided_at = some now;
}

-- The tests that `approve` and `reject` share: the approval is pending and not due. A due approval is
-- expired before the exception is raised.
unfoldable pub open_approval : ℕ → ℕ → Action Approval
unfolding expire
open_approval approval_id now = do
  approval ← find_approval approval_id
  raise_if (not (approval.status == ApprovalStatus.pending)) Error.approval_transition
  if is_due now approval.expires_at
      then expire approval now "system" >> raise Error.approval_expired
      else pure approval

-- `ApprovalEngine.approve`
unfoldable pub approve : ApprovalEngine → ℕ → String → String → Option ℕ → Action Approval
unfolding audit_approval
approve engine approval_id approver reason at = do
  now ← gets (λ s. or_else at s.clock)
  approval ← open_approval approval_id now
  let approved = decided ApprovalStatus.approved approver reason now approval
  save_approval approved
  resume_action engine approved now
  audit_approval approved "approval.approved" approver (some "pending") "approved"
  find_approval approval_id

-- `ApprovalEngine.reject`
unfoldable pub reject : ℕ → String → String → Option ℕ → Action Approval
unfolding audit_approval
reject approval_id approver reason at = do
  now ← gets (λ s. or_else at s.clock)
  approval ← open_approval approval_id now
  let rejected = decided ApprovalStatus.rejected approver reason now approval
  save_approval rejected
  audit_approval rejected "approval.rejected" approver (some "pending") "rejected"
  pure rejected

abbrev pub is_expirable : ℕ → Approval → Bool
is_expirable now a = a.status == ApprovalStatus.pending && is_due now a.expires_at

unfoldable pub expire_all : ℕ → List Approval → Action (Unit {0})
unfolding expire
expire_all now [] = pure tt
expire_all now (a ∷ rest) = expire a now "system" >> expire_all now rest

-- `ApprovalEngine.expire_due`: expires every pending approval that is due, and counts them.
unfoldable pub expire_due : Option ℕ → Action ℕ
unfolding expire_all
expire_due at = do
  now ← gets (λ s. or_else at s.clock)
  due ← gets (λ s. filter (is_expirable now) s.approvals)
  expire_all now due
  pure (length due)
