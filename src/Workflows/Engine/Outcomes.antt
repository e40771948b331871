-- ===== src/Workflows/Engine/Outcomes.antt =====
-- How an attempt of a workflow run ends, and what it leaves in the database.
use Prim.Native.String.{◌++◌ as concat}
use cax_commerce_operations.Prelude.{
  ℕ, ◌+◌, ◌*◌, ◌<◌, ◌≡◌, refl, String, Bool, true, false, Option, none, some, [], inl, inr, arith,
  is_some, or_else, Bool-cases, Option-cases, leb,
}
use cax_commerce_operations.Errors.{Error, ok, Result-cases, is_non_retryable}
use cax_commerce_operations.Persistence.Enums.{RunStatus}
use cax_commerce_operations.Persistence.Tables.{get, put, get-put_self}
use cax_commerce_operations.Persistence.Models.{WorkflowRun, HasId-workflow_run}
use cax_commerce_operations.Events.Store.{EventEnvelope}
use cax_commerce_operations.Workflows.Definitions.{
  WorkflowDefinition, WorkflowEngine, WorkflowOutcome, WorkflowStep, completed,
}
use cax_commerce_operations.Workflows.Engine.{
  audit_run, save_run, failure, terminal_failure, is_past, started, settle_outcome,
  settle_exception, settle, execute,
}
use cax_commerce_operations.Session.{Db}
use cax_commerce_operations.Session.Actions.{add_audit}
use cax_commerce_operations.Workflows.Engine.Writes.{
  SameBusiness, SameBusiness-trans, Writes, Writes-business, Writes-runs, saved, failed_row,
  terminal_failure-Writes,
}

-- How an attempt at the time `now` by a run `w` ends, with the row `r`, when it does not raise.
pub data Ending (definition : WorkflowDefinition) (now : ℕ) (w r : WorkflowRun) (s s' : Db)
    : Type 0 where
  succeeded :
      r.status ≡ RunStatus.succeeded
      → r.completed_at ≡ some now
      → r.error ≡ none
      → Ending definition now w r s s'
  waits :
      (approval_id : ℕ)
      → r.status ≡ RunStatus.pending
      → r.waiting_approval_id ≡ some approval_id
      → r.error ≡ none
      → Ending definition now w r s s'
  fails :
      r.status ≡ RunStatus.failed
      → r.next_retry_at ≡ none
      → SameBusiness s s'
      → Ending definition now w r s s'
  retries :
      r.status ≡ RunStatus.retrying
      → r.attempts ≡ w.attempts + 1
      → r.attempts < r.max_attempts
      → r.max_attempts ≡ w.max_attempts
      → r.next_retry_at ≡ some (now + definition.policy.retry_delay_seconds * r.attempts)
      → SameBusiness s s'
      → Ending definition now w r s s'

-- What the row `r` keeps of the row `v` it is written over.
pub record Replaces (v r : WorkflowRun) (s s' : Db) : Type 0 where
  pub same_id : r.id ≡ v.id
  pub same_key : r.idempotency_key ≡ v.idempotency_key
  pub written : s'.workflows ≡ put r s.workflows

-- A terminal failure that returns.
pub terminal_failure_ok :
    (definition : WorkflowDefinition) (now : ℕ) (reason : String) (b : Bool) (w v r : WorkflowRun)
    (s s' : Db)
    → terminal_failure v reason b s ≡ (ok r, s')
    → Ending definition now w r s s' × Replaces v r s s'
terminal_failure_ok definition now reason b w v r s s' h =
    let x = failed_row s.clock reason b v in
    let (p, result) = terminal_failure-Writes v reason b s in
    let e : x ≡ r = ground (arith, h, result) in
    let f : (terminal_failure v reason b s).1 ≡ s' = ground (arith, h) in
    let q : Writes (put r s.workflows) s s' = rw (← f, ← e) p in
    (
      Ending.fails (rw (← e) refl) (rw (← e) refl) (Writes-business (put r s.workflows) s s' q),
      record {
        same_id = rw (← e) refl;
        same_key = rw (← e) refl;
        written = Writes-runs (put r s.workflows) s s' q;
      },
    )

pub settle_exception_ok :
    (engine : WorkflowEngine) (definition : WorkflowDefinition) (x : Error) (now : ℕ)
    (w v r : WorkflowRun) (s s' : Db)
    → settle_exception engine definition x now v s ≡ (ok r, s')
    → v.attempts ≡ w.attempts + 1
    → v.max_attempts ≡ w.max_attempts
    → Ending definition now w r s s' × Replaces v r s s'
unfolding settle_exception save_run audit_run add_audit
settle_exception_ok engine definition x now w v r s s' h a m =
    elim (Bool-cases (is_non_retryable x)) [
      | inl final ↦
          terminal_failure_ok definition now (engine.message x) false w v r s s'
            (ground (arith, final))
      | inr other ↦ elim (Bool-cases (leb v.max_attempts v.attempts)) [
        | inl spent ↦
            terminal_failure_ok definition now
              (concat (engine.type_name x) (concat ": " (engine.message x))) false w v r s s'
              (ground (arith, other, spent))
        | inr left ↦
            let y = saved (record v {
              status = RunStatus.retrying;
              current_step = some "retry_scheduled";
              next_retry_at = some (now + definition.policy.retry_delay_seconds * v.attempts);
              error = some (failure (engine.type_name x) (engine.message x) true);
            }) in
            let s₁ =
              (audit_run y (some v.status) RunStatus.retrying (engine.message x)
                (record s { workflows = put y s.workflows })).1 in
            let e : (y ≡ r) × (s₁ ≡ s') = ground (arith, other, left) in
            let q : Writes (put r s.workflows) s s' =
              rw (← e.0, ← e.1) (s.next_id, s.events, s₁.audits, refl) in
            (
              Ending.retries (rw (← e.0) refl) (rw (← e.0) a) (rw (← e.0) (ground arith))
                  (rw (← e.0) m) (rw (← e.0) refl) (Writes-business (put r s.workflows) s s' q),
              record {
                same_id = rw (← e.0) refl;
                same_key = rw (← e.0) refl;
                written = Writes-runs (put r s.workflows) s s' q;
              },
            )
      ]
    ]

pub settle_outcome_ok :
    (definition : WorkflowDefinition) (outcome : Option WorkflowOutcome) (now : ℕ)
    (w v r : WorkflowRun) (s s' o : Db)
    → settle_outcome outcome now v s ≡ (ok r, s')
    → Ending definition now w r o s' × Replaces v r s s'
unfolding settle_outcome save_run audit_run add_audit
settle_outcome_ok definition outcome now w v r s s' o h =
    elim (Option-cases (or_else outcome (completed "completed" [])).approval_id) [
      | inl none_waits ↦
          let e : (r.status ≡ RunStatus.succeeded)
              × (r.completed_at ≡ some now)
              × (r.error ≡ none) =
            ground (arith, none_waits) in
          (
            Ending.succeeded e.0 e.1 e.2,
            record {
              same_id = ground (arith, none_waits);
              same_key = ground (arith, none_waits);
              written = ground (arith, none_waits);
            },
          )
      | inr (id, asks) ↦
          let e : (r.status ≡ RunStatus.pending)
              × (r.waiting_approval_id ≡ some id)
              × (r.error ≡ none) =
            ground (arith, asks) in
          (
            Ending.waits id e.0 e.1 e.2,
            record {
              same_id = ground (arith, asks);
              same_key = ground (arith, asks);
              written = ground (arith, asks);
            },
          )
    ]

-- What the engine relies on: a step does not remove the run from the table.
abbrev pub KeepsRun : ℕ → WorkflowStep → Type 0
KeepsRun id step =
    (e : EventEnvelope) (w : WorkflowRun) (s : Db)
    → is_some (get id s.workflows) ≡ true
    → is_some (get id (step e w s).1.workflows) ≡ true

-- The state in which the step is called.
abbrev pub attempting : WorkflowRun → Db → Db
attempting workflow s =
    (audit_run (saved (started workflow)) (some workflow.status) RunStatus.running
      "Workflow attempt started"
      (record s { workflows = put (saved (started workflow)) s.workflows })).1

pub attempting-Writes :
    (w : WorkflowRun) (s : Db) → Writes (put (saved (started w)) s.workflows) s (attempting w s)
unfolding audit_run add_audit
attempting-Writes w s = (s.next_id, s.events, (attempting w s).audits, refl)

Ending-from :
    {definition : WorkflowDefinition} {now : ℕ} {w r : WorkflowRun} {o s s' : Db}
    → SameBusiness o s
    → Ending definition now w r s s'
    → Ending definition now w r o s'
Ending-from b (Ending.succeeded p q e) = Ending.succeeded p q e
Ending-from b (Ending.waits id p q e) = Ending.waits id p q e
Ending-from b (Ending.fails p q c) = Ending.fails p q (SameBusiness-trans b c)
Ending-from b (Ending.retries p q l m d c) = Ending.retries p q l m d (SameBusiness-trans b c)

-- An attempt that returns leaves the run done, waiting for an approval, failed, or to be retried
-- after a delay that grows with the number of attempts, and then fewer attempts than the maximum
-- were made; the row that is returned is the row that is stored. If the run fails or is retried,
-- no table but the runs, the events and the audit trail has changed: what the step wrote is rolled
-- back. The step keeps the run's row.
pub execute_settles :
    (engine : WorkflowEngine) (w r : WorkflowRun) (definition : WorkflowDefinition)
    (event : EventEnvelope) (now : ℕ) (s s' : Db)
    → KeepsRun w.id definition.step
    → get w.id s.workflows ≡ some w
    → execute engine w definition event now s ≡ (ok r, s')
    → Ending definition now w r s s' × (get w.id s'.workflows ≡ some r)
unfolding execute settle save_run
execute_settles engine w r definition event now s s' keeps found h =
    elim (Bool-cases (is_past now w.deadline_at)) [
      | inl late ↦
          let (ending, rep) =
            terminal_failure_ok definition now "Workflow timed out" false w w r s s'
              (ground (arith, late)) in
          (ending, rw rep.written (get-put_self w.id r w s.workflows found rep.same_id))
      | inr in_time ↦
          let v = saved (started w) in
          let s₁ = attempting w s in
          let (runs, business) : (s₁.workflows ≡ put v s.workflows) × SameBusiness s s₁ = (
            Writes-runs (put v s.workflows) s s₁ (attempting-Writes w s),
            Writes-business (put v s.workflows) s s₁ (attempting-Writes w s),
          ) in
          let found₁ : get w.id s₁.workflows ≡ some v =
            rw runs (get-put_self w.id v w s.workflows found refl) in
          elim (Result-cases (definition.step event v s₁).0) [
            | inl (outcome, q) ↦
                let s₂ = (definition.step event v s₁).1 in
                let x = or_else (get v.id s₂.workflows) v in
                let kept : get w.id s₂.workflows ≡ some x =
                  ground (arith, keeps event v s₁ (ground (arith, found₁))) in
                let (ending, rep) =
                  settle_outcome_ok definition outcome now w x r s₂ s' s
                    (ground (arith, in_time, q)) in
                (ending, rw rep.written (get-put_self w.id r x s₂.workflows kept rep.same_id))
            | inr (x, q) ↦
                let (ending, rep) =
                  settle_exception_ok engine definition x now w v r s₁ s'
                    (ground (arith, in_time, q)) refl refl in
                (
                  Ending-from business ending,
                  rw rep.written (get-put_self w.id r v s₁.workflows found₁ rep.same_id),
                )
          ]
    ]
