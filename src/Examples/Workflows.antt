-- ===== src/Examples/Workflows.antt =====
-- Workflow runs on concrete inputs: one that fails and is retried, and one that ends.
use cax_commerce_operations.Prelude.{
  ℕ, ◌+◌, ◌<◌, ◌≡◌, ◌⊎◌, refl, true, none, some, List, [], ◌∷◌, arith,
}
use cax_commerce_operations.Errors.{Error, ok}
use cax_commerce_operations.Persistence.Enums.{RunStatus, ApprovalStatus}
use cax_commerce_operations.Persistence.Tables.{get, put}
use cax_commerce_operations.Persistence.Models.{
  Approval, WorkflowRun, HasId-workflow_run, HasId-approval,
}
use cax_commerce_operations.Persistence.Json.{Json}
use cax_commerce_operations.Events.Types.Codec.{decode_payload, model_dump}
use cax_commerce_operations.Events.Store.{to_record, to_envelope}
use cax_commerce_operations.Workflows.Definitions.{
  WorkflowDefinition, WorkflowEngine, WorkflowExecutionPolicy, completed,
}
use cax_commerce_operations.Workflows.Engine.{
  audit_run, save_run, settle_outcome, settle_exception, settle, execute,
}
use cax_commerce_operations.Workflows.Engine.Outcomes.{Ending, KeepsRun, execute_settles}
use cax_commerce_operations.Workflows.Scheduler.{
  new_run, find_or_create, handle_event, leave_wait, resume_event, resume,
}
use cax_commerce_operations.Workflows.Scheduler.Keys.{SameKeys-refl}
use cax_commerce_operations.Workflows.Scheduler.Events.{KeepsKeys, AreKeyed, handle_event_again}
use cax_commerce_operations.Workflows.Scheduler.Retries.{
  KeepsRuns, Retried, retries_bounded, resume_needs_approval,
}
use cax_commerce_operations.Session.{Db}
use cax_commerce_operations.Session.Actions.{pure, raise, new_id, add_audit}
use cax_commerce_operations.Examples.Outbox.{envelope, two_events}
use cax_commerce_operations.Examples.Decisions.{refund_approval}

abbrev policy : WorkflowExecutionPolicy
policy = record { max_attempts = 3; timeout_seconds = 300; retry_delay_seconds = 30 }

abbrev succeeding : WorkflowDefinition
succeeding = record {
  name = "reorder";
  version = 1;
  step = λ e w. pure (some (completed "reordered" []));
  policy = policy;
}

abbrev raising : WorkflowDefinition
raising = record {
  name = "publish";
  version = 1;
  step = λ e w. raise Error.runtime_error;
  policy = policy;
}

abbrev engine : WorkflowEngine
engine = record {
  definitions = succeeding ∷ raising ∷ [];
  type_name = λ e. "RuntimeError";
  message = λ e. "unavailable";
}

-- The run of the first event, and a session that stores it.
abbrev first_run : WorkflowRun
first_run = new_run 10 0 raising (envelope 1 20) 100

abbrev queued : Db
queued = record two_events { next_id = 20; workflows = first_run ∷ [] }

abbrev attempted : Db
attempted = (execute engine first_run raising (envelope 1 20) 100 queued).1

abbrev retrying_run : WorkflowRun
retrying_run = record first_run {
  version = 3;
  status = RunStatus.retrying;
  current_step = some "retry_scheduled";
  attempts = 1;
  next_retry_at = some 130;
  error = some (
      ("type", Json.text "RuntimeError")
      ∷ ("message", Json.text "unavailable")
      ∷ ("retryable", Json.flag true)
      ∷ []);
}

raises : execute engine first_run raising (envelope 1 20) 100 queued ≡ (ok retrying_run, attempted)
unfolding execute settle settle_exception save_run audit_run add_audit put
raises = refl

raising-KeepsRun : KeepsRun 10 raising.step
raising-KeepsRun e w s h = h

execute_settles_example :
    Ending raising 100 first_run retrying_run queued attempted
    × (get 10 attempted.workflows ≡ some retrying_run)
execute_settles_example =
    execute_settles engine first_run retrying_run raising (envelope 1 20) 100 queued attempted
      raising-KeepsRun refl raises

engine-KeepsRuns : KeepsRuns engine
engine-KeepsRuns = record { keeps = λ name d found id e w s. ground (arith, found) }

engine-KeepsKeys : KeepsKeys engine
engine-KeepsKeys = record {
  keeps = λ name d found e w s.
      let same : (d.step e w s).1.workflows ≡ s.workflows = ground (arith, found) in
      rw same (SameKeys-refl s.workflows);
}

-- A retry at 130; the next one is due at 190, after a longer delay, and is the last attempt.
abbrev again : Db
again = (resume engine 10 (some 130) attempted).1

abbrev second_retry : WorkflowRun
second_retry = record retrying_run { version = 5; attempts = 2; next_retry_at = some 190 }

raises_again : resume engine 10 (some 130) attempted ≡ (ok second_retry, again)
unfolding resume leave_wait resume_event execute settle settle_exception save_run audit_run
    add_audit put to_envelope decode_payload model_dump to_record
raises_again = refl

abbrev retry_times : List ℕ
retry_times = 130 ∷ []

Retried-once : Retried engine 10 retry_times retrying_run attempted
Retried-once = (second_retry, again, refl, raises_again, refl, tt)

retries_bounded_example : (retry_times ≡ []) ⊎ (1 + 1 < 3)
retries_bounded_example =
    retries_bounded engine 10 retry_times retrying_run attempted engine-KeepsRuns
      (execute_settles_example.1) Retried-once

-- A run that waits for an approval that is approved.
abbrev waiting_run : WorkflowRun
waiting_run = record (new_run 11 0 succeeding (envelope 1 20) 100) { waiting_approval_id = some 1 }

abbrev waiting : Db
waiting = record two_events {
  next_id = 20;
  workflows = waiting_run ∷ [];
  approvals = refund_approval 1 ApprovalStatus.approved ∷ [];
}

abbrev done_run : WorkflowRun
done_run = record waiting_run {
  version = 4;
  status = RunStatus.succeeded;
  current_step = some "reordered";
  attempts = 1;
  completed_at = some 120;
  waiting_approval_id = none;
}

resumes :
    resume engine 11 (some 120) waiting ≡ (ok done_run, (resume engine 11 (some 120) waiting).1)
unfolding resume leave_wait resume_event execute settle settle_outcome save_run audit_run add_audit
    put to_envelope decode_payload model_dump to_record
resumes = refl

resume_needs_approval_example :
    (a : Approval) × (get 1 waiting.approvals ≡ some a) × (a.status ≡ ApprovalStatus.approved)
resume_needs_approval_example =
    resume_needs_approval engine 11 1 1 (some 120) waiting_run done_run waiting
      (resume engine 11 (some 120) waiting).1 refl refl refl resumes

abbrev fresh : Db
fresh = record two_events { next_id = 20 }

fresh-AreKeyed : AreKeyed fresh
fresh-AreKeyed = record { keyed = λ k w h. ground (arith, h); fresh = refl }

abbrev handled : Db
handled = (handle_event engine "reorder" (envelope 1 20) (some 100) fresh).1

abbrev ended_run : WorkflowRun
ended_run = record (new_run 20 0 succeeding (envelope 1 20) 100) {
  version = 3;
  status = RunStatus.succeeded;
  current_step = some "reordered";
  attempts = 1;
  completed_at = some 100;
}

handles : handle_event engine "reorder" (envelope 1 20) (some 100) fresh ≡ (ok ended_run, handled)
unfolding handle_event find_or_create execute settle settle_outcome save_run audit_run add_audit put
    new_id
handles = refl

handle_event_again_example :
    handle_event engine "reorder" (envelope 1 20) (some 500) handled ≡ (ok ended_run, handled)
handle_event_again_example =
    handle_event_again engine "reorder" (envelope 1 20) (some 100) (some 500) fresh handled
      ended_run engine-KeepsKeys fresh-AreKeyed handles refl
