-- ===== src/Workflows/Scheduler.antt =====
-- src/commerce_operations/workflows/engine.py: the entry points of the engine, for an event, for one
-- run and for every run whose retry is due.
pub mod Keys
pub mod Events
pub mod Retries
use cax_commerce_operations.Prelude.{
  ℕ, ◌+◌, String, Bool, true, false, not, ◌&&◌, ◌||◌, Option, none, some, List, [], ◌∷◌, ◌==◌,
  Eq-nat, Eq-option, find, filter, take, contains, or_else, leb, ltb, if◌then◌else◌,
}
use cax_commerce_operations.Errors.{Error, Result, ok, err}
use cax_commerce_operations.Persistence.Enums.{
  ApprovalStatus, RunStatus, Eq-approval_status, Eq-run_status,
}
use cax_commerce_operations.Persistence.Keys.{Key, CorrelationId, WorkflowName, Eq-key}
use cax_commerce_operations.Persistence.Tables.{get, put, add}
use cax_commerce_operations.Persistence.Models.{
  WorkflowRun, Approval, HasId-workflow_run, HasId-approval, HasId-domain_event,
}
use cax_commerce_operations.Events.Store.{EventEnvelope, to_envelope}
use cax_commerce_operations.Workflows.Definitions.{
  WorkflowDefinition, WorkflowEngine, find_definition, without_prefix,
}
use cax_commerce_operations.Workflows.Engine.{
  audit_run, save_run, terminal_failure, is_past, execute,
}
use cax_commerce_operations.Session.{Db, Action}
use cax_commerce_operations.Session.Actions.{
  pure, raise, gets, lift, or_raise, raise_if, modify, new_id, ◌>>=◌, ◌>>◌,
}

-- `_definition`
abbrev pub definition_of : WorkflowEngine → String → Action WorkflowDefinition
definition_of engine name = or_raise (find_definition name engine.definitions) Error.lookup_error

abbrev pub run_key : String → EventEnvelope → Key
run_key name event = Key.of_part "workflow" event.event_id name

abbrev pub with_run_key : Key → List WorkflowRun → Option WorkflowRun
with_run_key key = find (λ r. r.idempotency_key == some key)

abbrev pub new_run : ℕ → ℕ → WorkflowDefinition → EventEnvelope → ℕ → WorkflowRun
new_run id created_at definition event now = record {
  id = id;
  version = 1;
  workflow_name = WorkflowName.orchestrated definition.name;
  workflow_version = definition.version;
  correlation_id = CorrelationId.of_name (run_key definition.name event);
  source_event_id = some event.event_id;
  idempotency_key = some (run_key definition.name event);
  status = RunStatus.pending;
  current_step = some "queued";
  attempts = 0;
  next_retry_at = none;
  error = none;
  checkpoints = [];
  max_attempts = definition.policy.max_attempts;
  timeout_seconds = definition.policy.timeout_seconds;
  started_at = some now;
  deadline_at = some (now + definition.policy.timeout_seconds);
  completed_at = none;
  waiting_approval_id = none;
  cost_amount = 0;
  cost_currency = none;
  created_at = created_at;
}

-- The run of the event, made if there is none.
unfoldable pub find_or_create :
    WorkflowDefinition → EventEnvelope → ℕ → Option WorkflowRun → Action WorkflowRun
unfolding new_id audit_run
find_or_create definition event now (some workflow) = pure workflow
find_or_create definition event now none = do
  id ← new_id
  created_at ← gets (λ s. s.clock)
  let workflow = new_run id created_at definition event now
  modify (λ s. record s { workflows = add workflow s.workflows })
  audit_run workflow none RunStatus.pending "Workflow created"
  pure workflow

abbrev pub is_terminal : RunStatus → Bool
is_terminal status =
    contains status (RunStatus.succeeded ∷ RunStatus.cancelled ∷ RunStatus.failed ∷ [])

-- `WorkflowEngine.handle_event`
unfoldable pub handle_event :
    WorkflowEngine → String → EventEnvelope → Option ℕ → Action WorkflowRun
unfolding find_or_create
handle_event engine definition_name event at = do
  definition ← definition_of engine definition_name
  now ← gets (λ s. or_else at s.clock)
  existing ← gets (λ s. with_run_key (run_key definition.name event) s.workflows)
  workflow ← find_or_create definition event now existing
  if is_terminal workflow.status
      then pure workflow
      else execute engine workflow definition event now

abbrev pub is_granted : Option Approval → Bool
is_granted none = false
is_granted (some approval) = approval.status == ApprovalStatus.approved

-- A run that waits goes on once its approval is granted.
unfoldable pub leave_wait : WorkflowRun → Action WorkflowRun
unfolding save_run
leave_wait workflow = elim workflow.waiting_approval_id [
  | none ↦ pure workflow
  | some approval_id ↦ do
    granted ← gets (λ s. is_granted (get approval_id s.approvals))
    if granted
        then save_run (record workflow { waiting_approval_id = none })
        else raise Error.non_retryable_workflow
]

abbrev pub not_yet : ℕ → Option ℕ → Bool
not_yet now none = false
not_yet now (some next_retry) = ltb now next_retry

-- The end of `resume`, for the event that started the run.
unfoldable pub resume_event :
    WorkflowEngine → WorkflowRun → WorkflowDefinition → ℕ → ℕ → Action WorkflowRun
resume_event engine workflow definition source_event_id now = do
  event_record ← gets (λ s. get source_event_id s.events)
  elim event_record [
    | none ↦ terminal_failure workflow "Workflow source event was not found" false
    | some event ↦ do
      envelope ← lift (to_envelope event)
      execute engine workflow definition envelope now
  ]

-- `WorkflowEngine.resume`
unfoldable pub resume : WorkflowEngine → ℕ → Option ℕ → Action WorkflowRun
unfolding leave_wait resume_event
resume engine workflow_id at = do
  workflow ← (λ s. or_raise (get workflow_id s.workflows) Error.lookup_error s)
  definition ← definition_of engine (without_prefix workflow.workflow_name)
  elim workflow.source_event_id [
    | none ↦ terminal_failure workflow "Workflow source event is missing" false
    | some source_event_id ↦ do
      awake ← leave_wait workflow
      now ← gets (λ s. or_else at s.clock)
      if not_yet now awake.next_retry_at
          then pure awake
          else resume_event engine awake definition source_event_id now
  ]

abbrev pub is_orchestrated : WorkflowName → Bool
is_orchestrated (WorkflowName.orchestrated name) = true
is_orchestrated (WorkflowName.plain name) = false

abbrev pub is_retry_due : ℕ → WorkflowRun → Bool
is_retry_due now r =
    is_orchestrated r.workflow_name && r.status == RunStatus.retrying && is_past now r.next_retry_at

-- ORDER BY next_retry_at, created_at, of rows that both have a time to retry at.
abbrev pub retries_before : WorkflowRun → WorkflowRun → Bool
retries_before a b =
    let x = or_else a.next_retry_at 0 in
    let y = or_else b.next_retry_at 0 in ltb x y || (x == y && leb a.created_at b.created_at)

unfoldable pub insert_by_retry : WorkflowRun → List WorkflowRun → List WorkflowRun
insert_by_retry r [] = r ∷ []
insert_by_retry r (x ∷ t) =
    let rest = insert_by_retry r t in if retries_before r x then r ∷ x ∷ t else x ∷ rest

unfoldable pub by_retry : List WorkflowRun → List WorkflowRun
unfolding insert_by_retry
by_retry [] = []
by_retry (x ∷ t) = insert_by_retry x (by_retry t)

unfoldable pub resume_all : WorkflowEngine → ℕ → List WorkflowRun → Action (List WorkflowRun)
resume_all engine now [] = pure []
resume_all engine now (workflow ∷ rest) = do
  w ← resume engine workflow.id (some now)
  ws ← resume_all engine now rest
  pure (w ∷ ws)

-- `WorkflowEngine.retry_due`
unfoldable pub retry_due : WorkflowEngine → Option ℕ → ℕ → Action (List WorkflowRun)
unfolding by_retry
retry_due engine at limit = do
  now ← gets (λ s. or_else at s.clock)
  due ← gets (λ s. take limit (by_retry (filter (is_retry_due now) s.workflows)))
  resume_all engine now due
