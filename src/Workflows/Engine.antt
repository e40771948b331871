-- ===== src/Workflows/Engine.antt =====
-- src/commerce_operations/workflows/engine.py: starting, resuming and retrying workflow runs. A run
-- is read again after its step, whose writes are rolled back if it raises.
pub mod Writes
pub mod Outcomes
use Prim.Native.String.{◌++◌ as concat}
use cax_commerce_operations.Prelude.{
  ℕ, ◌+◌, ◌*◌, String, Bool, true, false, not, ◌&&◌, ◌||◌, Option, none, some, List, [], ◌∷◌, ◌==◌,
  Eq-nat, Eq-option, find, filter, take, contains, is_some, or_else, leb, ltb, if◌then◌else◌,
  nat_eq,
}
use cax_commerce_operations.Errors.{Error, Result, ok, err, is_non_retryable}
use cax_commerce_operations.Persistence.Enums.{
  ApprovalStatus, RunStatus, Eq-approval_status, Eq-run_status,
}
use cax_commerce_operations.Persistence.Keys.{Key, CorrelationId, WorkflowName, Eq-key}
use cax_commerce_operations.Persistence.Json.{Json, Object}
use cax_commerce_operations.Prelude.Int.{pos}
use cax_commerce_operations.Persistence.Tables.{get, put, add}
use cax_commerce_operations.Persistence.Models.{
  WorkflowRun, Approval, DomainEvent, AuditEvent, HasId-workflow_run, HasId-approval,
  HasId-domain_event,
}
use cax_commerce_operations.Events.Types.{EventPayload}
use cax_commerce_operations.Events.Store.{EventEnvelope, emit, to_envelope}
use cax_commerce_operations.Workflows.Definitions.{
  WorkflowDefinition, WorkflowEngine, WorkflowOutcome, completed, find_definition, name_text,
  without_prefix, merge,
}
use cax_commerce_operations.Session.{Db, Action}
use cax_commerce_operations.Session.Actions.{
  pure, raise, gets, lift, or_raise, raise_if, modify, new_id, add_audit, transact, ◌>>=◌, ◌>>◌,
}

abbrev pub run_text : RunStatus → String
run_text RunStatus.pending = "pending"
run_text RunStatus.running = "running"
run_text RunStatus.succeeded = "succeeded"
run_text RunStatus.failed = "failed"
run_text RunStatus.retrying = "retrying"
run_text RunStatus.escalated = "escalated"
run_text RunStatus.cancelled = "cancelled"

-- `_audit`
unfoldable pub audit_run : WorkflowRun → Option RunStatus → RunStatus → String → Action (Unit {0})
unfolding add_audit
audit_run workflow before after reason = add_audit (record {
  actor_type = "system";
  actor_id = "workflow-engine";
  action = "workflow.state_changed";
  resource_type = "workflow_run";
  resource_id = workflow.id;
  before_state = elim before [
    | none ↦ none
    | some status ↦ some (("status", Json.text (run_text status)) ∷ [])
  ];
  after_state = some (
      ("status", Json.text (run_text after))
      ∷ ("step", elim workflow.current_step [ none ↦ Json.null | some s ↦ Json.text s ])
      ∷ ("attempts", Json.int (pos workflow.attempts))
      ∷ []);
  reason = some reason;
  correlation_id = workflow.correlation_id;
})

-- The changed row is written at the next flush.
unfoldable pub save_run : WorkflowRun → Action WorkflowRun
save_run workflow s =
    let w = record workflow { version = workflow.version + 1 } in
    (ok w, record s { workflows = put w s.workflows })

abbrev failure : String → String → Bool → Object
failure type message retryable =
    ("type", Json.text type)
    ∷ ("message", Json.text message)
    ∷ ("retryable", Json.flag retryable)
    ∷ []

-- `_terminal_failure`, which every caller calls with `retryable=False`. `completed_at` is the time of
-- the call and not the caller's `now`.
unfoldable pub terminal_failure : WorkflowRun → String → Bool → Action WorkflowRun
unfolding save_run audit_run
terminal_failure workflow reason retryable = do
  now ← gets (λ s. s.clock)
  failed ← save_run (record workflow {
    status = RunStatus.failed;
    current_step = some "failed";
    completed_at = some now;
    error = some (failure "workflow_failure" reason retryable);
    next_retry_at = none;
  })
  audit_run failed (some workflow.status) RunStatus.failed reason
  emit
      (EventPayload.workflow_failed workflow.id (name_text workflow.workflow_name) reason retryable)
      "workflow_run" workflow.id workflow.version workflow.correlation_id (some workflow.id)
      (Key.of_id "workflow-failed" workflow.id)
  pure failed

abbrev pub is_past : ℕ → Option ℕ → Bool
is_past now none = false
is_past now (some deadline) = leb deadline now

-- The row as the step left it.
abbrev pub reload : WorkflowRun → Action WorkflowRun
reload workflow = gets (λ s. or_else (get workflow.id s.workflows) workflow)

-- The assignments at the start of an attempt.
abbrev pub started : WorkflowRun → WorkflowRun
started workflow = record workflow {
  status = RunStatus.running;
  current_step = some "executing";
  attempts = workflow.attempts + 1;
  next_retry_at = none;
}

-- The step returned: the run is done, or waits for an approval.
unfoldable pub settle_outcome : Option WorkflowOutcome → ℕ → WorkflowRun → Action WorkflowRun
unfolding save_run audit_run
settle_outcome returned now row =
    let outcome = or_else returned (completed "completed" []) in
    let workflow = record row {
      checkpoints = merge row.checkpoints outcome.checkpoints;
      current_step = some outcome.current_step;
      error = none;
    } in
    elim outcome.approval_id [
      | some approval_id ↦ do
        w ←
            save_run (record workflow {
              status = RunStatus.pending;
              waiting_approval_id = some approval_id;
            })
        audit_run w (some row.status) RunStatus.pending "Waiting for human approval"
        pure w
      | none ↦ do
        w ← save_run (record workflow { status = RunStatus.succeeded; completed_at = some now })
        audit_run w (some row.status) RunStatus.succeeded "Workflow completed"
        pure w
    ]

-- The step raised: the run fails for good, or is tried again later.
unfoldable pub settle_exception :
    WorkflowEngine → WorkflowDefinition → Error → ℕ → WorkflowRun → Action WorkflowRun
unfolding save_run audit_run
settle_exception engine definition exception now workflow =
    if is_non_retryable exception
    then terminal_failure workflow (engine.message exception) false
    else if leb workflow.max_attempts workflow.attempts
    then terminal_failure workflow
        (concat (engine.type_name exception) (concat ": " (engine.message exception))) false
    else do
      w ← save_run (record workflow {
        status = RunStatus.retrying;
        current_step = some "retry_scheduled";
        next_retry_at = some (now + definition.policy.retry_delay_seconds * workflow.attempts);
        error = some (failure (engine.type_name exception) (engine.message exception) true);
      })
      audit_run w (some workflow.status) RunStatus.retrying (engine.message exception)
      pure w

-- The result of the step decides. A step that raised has been rolled back.
unfoldable pub settle :
    WorkflowEngine
    → WorkflowDefinition
    → ℕ
    → WorkflowRun
    → Result (Option WorkflowOutcome)
    → Action WorkflowRun
settle engine definition now workflow (ok outcome) = reload workflow >>= settle_outcome outcome now
settle engine definition now workflow (err exception) =
    settle_exception engine definition exception now workflow

-- `_execute`
unfoldable pub execute :
    WorkflowEngine → WorkflowRun → WorkflowDefinition → EventEnvelope → ℕ → Action WorkflowRun
unfolding save_run audit_run
execute engine workflow definition event now =
    if is_past now workflow.deadline_at
    then terminal_failure workflow "Workflow timed out" false
    else do
      w ← save_run (started workflow)
      audit_run w (some workflow.status) RunStatus.running "Workflow attempt started"
      result ← (λ s. let (r, s') = transact (definition.step event w) s in (ok r, s'))
      settle engine definition now w result
