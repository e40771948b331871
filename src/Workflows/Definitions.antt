-- ===== src/Workflows/Definitions.antt =====
-- src/commerce_operations/workflows/engine.py: what a workflow is, and the registry of workflows.
use Prim.Native.String.{◌++◌ as concat}
use cax_commerce_operations.Prelude.{
  ℕ, String, Option, none, some, List, [], ◌∷◌, ◌||◌, ◌==◌, Eq-string, find, is_some, ltb,
  if◌then◌else◌,
}
use cax_commerce_operations.Errors.{Error, Result, ok, err}
use cax_commerce_operations.Persistence.Keys.{WorkflowName}
use cax_commerce_operations.Persistence.Json.{Json, Object}
use cax_commerce_operations.Persistence.Models.{WorkflowRun}
use cax_commerce_operations.Persistence.Tables.{add}
use cax_commerce_operations.Events.Store.{EventEnvelope}
use cax_commerce_operations.Session.{Action}

pub record WorkflowExecutionPolicy : Type 0 where
  pub max_attempts : ℕ
  pub timeout_seconds : ℕ
  pub retry_delay_seconds : ℕ

pub record WorkflowOutcome : Type 0 where
  pub current_step : String
  pub checkpoints : Object
  pub approval_id : Option ℕ

-- `WorkflowOutcome.completed`
abbrev pub completed : String → Object → WorkflowOutcome
completed current_step checkpoints = record {
  current_step = current_step;
  checkpoints = checkpoints;
  approval_id = none;
}

-- `WorkflowOutcome.waiting_for_approval`
abbrev pub waiting_for_approval : String → ℕ → Object → WorkflowOutcome
waiting_for_approval current_step approval_id checkpoints = record {
  current_step = current_step;
  checkpoints = checkpoints;
  approval_id = some approval_id;
}

abbrev pub WorkflowStep : Type 0
WorkflowStep = EventEnvelope → WorkflowRun → Action (Option WorkflowOutcome)

pub record WorkflowDefinition : Type 0 where
  pub name : String
  pub version : ℕ
  pub step : WorkflowStep
  pub policy : WorkflowExecutionPolicy

-- `type_name` and `message` are Python's `type(exc).__name__` and `str(exc)`.
pub record WorkflowEngine : Type 0 where
  pub definitions : List WorkflowDefinition
  pub type_name : Error → String
  pub message : Error → String

abbrev pub find_definition : String → List WorkflowDefinition → Option WorkflowDefinition
find_definition name = find (λ d. d.name == name)

-- `WorkflowEngine.register`
unfoldable pub register_definition : WorkflowDefinition → WorkflowEngine → Result WorkflowEngine
register_definition definition engine =
    if is_some (find_definition definition.name engine.definitions)
    then err Error.value_error
    else if ltb definition.policy.max_attempts 1 || ltb definition.policy.timeout_seconds 1
    then err Error.value_error
    else ok (record engine { definitions = add definition engine.definitions })

-- `prefix + name`
abbrev pub name_text : WorkflowName → String
name_text (WorkflowName.orchestrated name) = concat "orchestrator:" name
name_text (WorkflowName.plain name) = name

-- `workflow_name.removeprefix(prefix)`
abbrev pub without_prefix : WorkflowName → String
without_prefix (WorkflowName.orchestrated name) = name
without_prefix (WorkflowName.plain name) = name

-- `{**a, **b}`: a field of `b` replaces the field of that name, or is added at the end.
abbrev pub set_field : String → Json → Object → Object
set_field name value [] = (name, value) ∷ []
set_field name value ((k, x) ∷ o) =
    let rest = set_field name value o in if k == name then (k, value) ∷ o else (k, x) ∷ rest

abbrev pub merge : Object → Object → Object
merge a [] = a
merge a ((k, x) ∷ b) = merge (set_field k x a) b
