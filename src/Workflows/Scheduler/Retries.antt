-- ===== src/Workflows/Scheduler/Retries.antt =====
-- Resuming runs: how often a run is retried, and that one that waits is not run unapproved.
use cax_commerce_operations.Prelude.{
  ℕ, ◌+◌, ◌<◌, ◌≡◌, ◌≢◌, ◌⊎◌, refl, String, false, Option, none, some, List, [], ◌∷◌, inl, inr,
  arith, length, Option-cases,
}
use cax_commerce_operations.Errors.{ok, Result-cases}
use cax_commerce_operations.Persistence.Enums.{RunStatus, ApprovalStatus, Eq-approval_status}
use cax_commerce_operations.Persistence.Tables.{get, get-put_self, get-id}
use cax_commerce_operations.Persistence.Models.{
  WorkflowRun, Approval, HasId-workflow_run, HasId-approval, HasId-domain_event,
}
use cax_commerce_operations.Events.Store.{to_envelope}
use cax_commerce_operations.Workflows.Definitions.{
  WorkflowDefinition, WorkflowEngine, find_definition, without_prefix,
}
use cax_commerce_operations.Workflows.Engine.{save_run, terminal_failure}
use cax_commerce_operations.Workflows.Engine.Outcomes.{
  Ending, KeepsRun, terminal_failure_ok, execute_settles,
}
use cax_commerce_operations.Workflows.Scheduler.{leave_wait, not_yet, resume_event, resume}
use cax_commerce_operations.Session.{Db}

-- No step of a registered workflow removes a run.
pub record KeepsRuns (engine : WorkflowEngine) : Type 0 where
  pub keeps :
      (name : String) (d : WorkflowDefinition)
      → find_definition name engine.definitions ≡ some d
      → (id : ℕ) → KeepsRun id d.step

-- What is left of the number of attempts after one more of them.
abbrev Progresses : WorkflowRun → WorkflowRun → Type 0
Progresses w r =
    (r.status ≢ RunStatus.retrying)
    ⊎ ((r.attempts ≡ w.attempts + 1)
        × (r.attempts < r.max_attempts)
        × (r.max_attempts ≡ w.max_attempts))

Ending-Progresses :
    (definition : WorkflowDefinition) (now : ℕ) (w r : WorkflowRun) (s s' : Db)
    → Ending definition now w r s s'
    → Progresses w r
Ending-Progresses definition now w r s s' (Ending.succeeded p q e) = inl (λ x. ground arith)
Ending-Progresses definition now w r s s' (Ending.waits id p q e) = inl (λ x. ground arith)
Ending-Progresses definition now w r s s' (Ending.fails p q c) = inl (λ x. ground arith)
Ending-Progresses definition now w r s s' (Ending.retries p q l m d c) = inr (q, l, m)

-- The row that `leave_wait` goes on with.
leave_wait_ok :
    (w a : WorkflowRun) (id : ℕ) (s s₁ : Db)
    → get id s.workflows ≡ some w
    → leave_wait w s ≡ (ok a, s₁)
    → (get id s₁.workflows ≡ some a)
      × (a.attempts ≡ w.attempts)
      × (a.max_attempts ≡ w.max_attempts)
      × (a.next_retry_at ≡ w.next_retry_at)
      × (s₁.events ≡ s.events)
unfolding leave_wait save_run
leave_wait_ok w a id s s₁ found h =
    let y : WorkflowRun = record w { version = w.version + 1; waiting_approval_id = none } in
    ground (arith, get-id id w s.workflows found, get-put_self id y w s.workflows found refl)

fails_on :
    (definition : WorkflowDefinition) (now : ℕ) (reason : String) (w r : WorkflowRun) (s s' : Db)
    → get w.id s.workflows ≡ some w
    → terminal_failure w reason false s ≡ (ok r, s')
    → Progresses w r × (get w.id s'.workflows ≡ some r)
fails_on definition now reason w r s s' found h =
    let (ending, rep) = terminal_failure_ok definition now reason false w w r s s' h in
    (
      Ending-Progresses definition now w r s s' ending,
      rw rep.written (get-put_self w.id r w s.workflows found rep.same_id),
    )

resume_event_ok :
    (engine : WorkflowEngine) (w r : WorkflowRun) (definition : WorkflowDefinition) (source now : ℕ)
    (s s' : Db)
    → KeepsRun w.id definition.step
    → get w.id s.workflows ≡ some w
    → resume_event engine w definition source now s ≡ (ok r, s')
    → Progresses w r × (get w.id s'.workflows ≡ some r)
unfolding resume_event
resume_event_ok engine w r definition source now s s' keeps found h =
    elim (Option-cases (get source s.events)) [
      | inl missing ↦
          fails_on definition now "Workflow source event was not found" w r s s' found
            (ground (arith, missing))
      | inr (event, e) ↦ elim (Result-cases (to_envelope event)) [
        | inl (env, d) ↦
            let (ending, kept) =
              execute_settles engine w r definition env now s s' keeps found
                (ground (arith, e, d)) in
            (Ending-Progresses definition now w r s s' ending, kept)
        | inr (x, d) ↦ ground (arith, e, d)
      ]
    ]

-- A due run that is resumed is not to be retried afterwards, or has used up one more of its attempts
-- and has some left.
resume_due :
    (engine : WorkflowEngine) (id now : ℕ) (w r : WorkflowRun) (s s' : Db)
    → KeepsRuns engine
    → get id s.workflows ≡ some w
    → not_yet now w.next_retry_at ≡ false
    → resume engine id (some now) s ≡ (ok r, s')
    → Progresses w r × (get id s'.workflows ≡ some r)
unfolding resume
resume_due engine id now w r s s' keeps found due h =
    elim (Option-cases (find_definition (without_prefix w.workflow_name) engine.definitions)) [
      | inl unknown ↦ ground (arith, found, unknown)
      | inr (definition, e) ↦ elim (Option-cases w.source_event_id) [
        | inl without ↦
            let i = get-id id w s.workflows found in
            let there : get w.id s.workflows ≡ some w = ground (arith, i) in
            rw (← i) (
              fails_on definition now "Workflow source event is missing" w r s s' there
                (ground (arith, found, e, without)))
        | inr (source, f) ↦ elim (Result-cases (leave_wait w s).0) [
          | inl (a, q) ↦
              let s₁ = (leave_wait w s).1 in
              let (kept, same, most, next, _) = leave_wait_ok w a id s s₁ found (ground arith) in
              let i = get-id id a s₁.workflows kept in
              let there : get a.id s₁.workflows ≡ some a = ground (arith, i) in
              rw (← i, ← same, ← most)
                (resume_event_ok engine a r definition source now s₁ s'
                  (keeps.keeps (without_prefix w.workflow_name) definition e a.id) there
                  (ground (arith, found, e, f, q, next, due)))
          | inr (x, q) ↦ ground (arith, found, e, f, q)
        ]
      ]
    ]

-- At each of the times the run is due, is resumed, and is to be retried once more.
abbrev pub Retried : WorkflowEngine → ℕ → List ℕ → WorkflowRun → Db → Type 0
Retried engine id [] w s = Unit
Retried engine id (now ∷ later) w s =
    (r : WorkflowRun) × (s' : Db) × (not_yet now w.next_retry_at ≡ false)
    × (resume engine id (some now) s ≡ (ok r, s'))
    × (r.status ≡ RunStatus.retrying)
    × Retried engine id later r s'

-- A run is not retried for ever: it is resumed and found to need another retry only while it has
-- attempts left, whatever its steps do and whenever it is resumed. The steps keep the run's row.
pub retries_bounded :
    (engine : WorkflowEngine) (id : ℕ) (times : List ℕ) (w : WorkflowRun) (s : Db)
    → KeepsRuns engine
    → get id s.workflows ≡ some w
    → Retried engine id times w s
    → (times ≡ []) ⊎ (w.attempts + length times < w.max_attempts)
retries_bounded engine id [] w s keeps found done = inl refl
retries_bounded engine id (now ∷ later) w s keeps found (r, s', due, h, again, done) =
    let (step, kept) = resume_due engine id now w r s s' keeps found due h in
    elim step [
      | inl stops ↦ absurd (stops again)
      | inr (one, left, most) ↦ elim (retries_bounded engine id later r s' keeps kept done) [
        | inl last ↦ inr (rw last (omega arith))
        | inr more ↦ inr (omega arith)
      ]
    ]

-- A run that waits for an approval is resumed only if the approval is stored and approved. The run
-- has a source event.
pub resume_needs_approval :
    (engine : WorkflowEngine) (id approval_id source : ℕ) (at : Option ℕ) (w r : WorkflowRun)
    (s s' : Db)
    → get id s.workflows ≡ some w
    → w.source_event_id ≡ some source
    → w.waiting_approval_id ≡ some approval_id
    → resume engine id at s ≡ (ok r, s')
    → (a : Approval) × (get approval_id s.approvals ≡ some a) × (a.status ≡ ApprovalStatus.approved)
unfolding resume leave_wait
resume_needs_approval engine id approval_id source at w r s s' found sourced asks h =
    elim (Option-cases (get approval_id s.approvals)) [
      | inl none_there ↦ absurd (
          ground (
            arith,
            Option-cases (find_definition (without_prefix w.workflow_name) engine.definitions),
          ))
      | inr (a, e) ↦ (
        a,
        e,
        ground (
          arith,
          Option-cases (find_definition (without_prefix w.workflow_name) engine.definitions),
        ),
      )
    ]
