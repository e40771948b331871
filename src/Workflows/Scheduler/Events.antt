-- ===== src/Workflows/Scheduler/Events.antt =====
-- An event starts one run, and a run that has ended is not run again when the event is delivered
-- again.
use cax_commerce_operations.Prelude.{
  ℕ, ◌≡◌, refl, String, true, false, Option, none, some, List, [], ◌∷◌, inl, inr, arith, Eq-nat,
  Eq-option, is_some, or_else, Bool-cases, Option-cases, eq_self,
}
use cax_commerce_operations.Errors.{ok, Result-cases}
use cax_commerce_operations.Persistence.Keys.{Key, Eq-key}
use cax_commerce_operations.Persistence.Tables.{get, put, add, get-put_self, get-id, get-add}
use cax_commerce_operations.Persistence.Models.{WorkflowRun, HasId-workflow_run}
use cax_commerce_operations.Events.Store.{EventEnvelope}
use cax_commerce_operations.Workflows.Definitions.{
  WorkflowDefinition, WorkflowEngine, find_definition,
}
use cax_commerce_operations.Workflows.Engine.{
  audit_run, save_run, started, is_past, settle, execute,
}
use cax_commerce_operations.Workflows.Engine.Writes.{Writes-runs, saved}
use cax_commerce_operations.Workflows.Engine.Outcomes.{
  attempting, attempting-Writes, terminal_failure_ok, settle_exception_ok, settle_outcome_ok,
  execute_settles,
}
use cax_commerce_operations.Workflows.Scheduler.{
  run_key, with_run_key, new_run, find_or_create, is_terminal, handle_event,
}
use cax_commerce_operations.Session.{Db}
use cax_commerce_operations.Session.Actions.{new_id, add_audit}
use cax_commerce_operations.Workflows.Scheduler.Keys.{
  SameKeys, SameKeys-refl, SameKeys-trans, SameKeys-put, with_run_key-SameKeys,
}

-- What the engine relies on: a step leaves the ids and keys of runs.
pub record KeepsKeys (engine : WorkflowEngine) : Type 0 where
  pub keeps :
      (name : String) (d : WorkflowDefinition)
      → find_definition name engine.definitions ≡ some d
      → (e : EventEnvelope) (w : WorkflowRun) (s : Db)
      → SameKeys s.workflows (d.step e w s).1.workflows

SameKeys-get :
    (id : ℕ) (t u : List WorkflowRun)
    → SameKeys t u
    → is_some (get id t) ≡ true
    → is_some (get id u) ≡ true
SameKeys-get id [] u same h = ground arith
SameKeys-get id (x ∷ t) [] same h = absurd same
SameKeys-get id (x ∷ t) (y ∷ u) same h = ground (arith, SameKeys-get id t u)

-- A row that keeps its key is written over the row that was read.
SameKeys-written :
    (v r : WorkflowRun) (o t : List WorkflowRun)
    → SameKeys o t
    → get v.id t ≡ some v
    → r.id ≡ v.id
    → r.idempotency_key ≡ v.idempotency_key
    → SameKeys o (put r t)
SameKeys-written v r o t same found i k =
    SameKeys-trans o t (put r t) same (SameKeys-put r v t (rw i found) k)

execute-SameKeys :
    (engine : WorkflowEngine) (w r : WorkflowRun) (d : WorkflowDefinition) (event : EventEnvelope)
    (now : ℕ) (s s' : Db)
    → ((e : EventEnvelope) (v : WorkflowRun) (t : Db)
        → SameKeys t.workflows (d.step e v t).1.workflows)
    → get w.id s.workflows ≡ some w
    → execute engine w d event now s ≡ (ok r, s')
    → SameKeys s.workflows s'.workflows
unfolding execute settle save_run
execute-SameKeys engine w r d event now s s' keeps found h =
    elim (Bool-cases (is_past now w.deadline_at)) [
      | inl late ↦
          let (_, rep) =
            terminal_failure_ok d now "Workflow timed out" false w w r s s'
              (ground (arith, late)) in
          rw rep.written (
            SameKeys-written w r s.workflows s.workflows (SameKeys-refl s.workflows) found
              rep.same_id rep.same_key)
      | inr in_time ↦
          let v = saved (started w) in
          let s₁ = attempting w s in
          let runs = Writes-runs (put v s.workflows) s s₁ (attempting-Writes w s) in
          let same₁ : SameKeys s.workflows s₁.workflows =
            rw runs (SameKeys-put v w s.workflows found refl) in
          let found₁ : get w.id s₁.workflows ≡ some v =
            rw runs (get-put_self w.id v w s.workflows found refl) in
          elim (Result-cases (d.step event v s₁).0) [
            | inl (outcome, q) ↦
                let s₂ = (d.step event v s₁).1 in
                let same₂ = keeps event v s₁ in
                let x = or_else (get v.id s₂.workflows) v in
                let kept : get w.id s₂.workflows ≡ some x = ground (
                  arith,
                  SameKeys-get w.id s₁.workflows s₂.workflows same₂ (ground (arith, found₁)),
                ) in
                let (_, rep) =
                  settle_outcome_ok d outcome now w x r s₂ s' s (ground (arith, in_time, q)) in
                let i = get-id w.id x s₂.workflows kept in
                let there : get x.id s₂.workflows ≡ some x = ground (arith, i) in
                rw rep.written (
                  SameKeys-written x r s.workflows s₂.workflows
                    (SameKeys-trans s.workflows s₁.workflows s₂.workflows same₁ same₂) there
                    rep.same_id rep.same_key)
            | inr (x, q) ↦
                let (_, rep) =
                  settle_exception_ok engine d x now w v r s₁ s' (ground (arith, in_time, q)) refl
                    refl in
                rw rep.written (
                  SameKeys-written v r s.workflows s₁.workflows same₁ found₁ rep.same_id
                    rep.same_key)
          ]
    ]

-- The stored runs have ids of their own, and a new id is no run's.
pub record AreKeyed (s : Db) : Type 0 where
  pub keyed :
      (k : Key) (w : WorkflowRun)
      → with_run_key k s.workflows ≡ some w
      → get w.id s.workflows ≡ some w
  pub fresh : get s.next_id s.workflows ≡ none

abbrev IsRunOf : Key → WorkflowRun → Db → Type 0
IsRunOf k w s = (with_run_key k s.workflows ≡ some w) × (get w.id s.workflows ≡ some w)

with_run_key-add :
    (k : Key) (w : WorkflowRun) (t : List WorkflowRun)
    → with_run_key k t ≡ none
    → w.idempotency_key ≡ some k
    → with_run_key k (add w t) ≡ some w
with_run_key-add k w [] none_there h = ground (arith, eq_self (some k))
with_run_key-add k w (x ∷ t) none_there h = ground (arith, with_run_key-add k w t)

find_or_create_ok :
    (d : WorkflowDefinition) (event : EventEnvelope) (now : ℕ) (s s₀ : Db) (w : WorkflowRun)
    → AreKeyed s
    → let k = run_key d.name event in
      find_or_create d event now (with_run_key k s.workflows) s ≡ (ok w, s₀) → IsRunOf k w s₀
unfolding find_or_create new_id audit_run add_audit
find_or_create_ok d event now s s₀ w keyed h =
    let k = run_key d.name event in
    elim (Option-cases (with_run_key k s.workflows)) [
      | inl new ↦
          let x = new_run s.next_id s.clock d event now in
          let e : (x ≡ w) × (s₀.workflows ≡ add x s.workflows) = ground (arith, new) in
          rw (e.1, ← e.0)
            (
              with_run_key-add k x s.workflows new refl,
              ground (arith, get-add s.next_id x s.workflows keyed.fresh),
            )
      | inr (x, old) ↦
          let e : (x ≡ w) × (s ≡ s₀) = ground (arith, old) in
          rw (← e.0, ← e.1) (old, keyed.keyed k x old)
    ]

-- An event that is delivered again does not run its workflow again: once handling the event has
-- returned a run that has ended, handling it again, at any time, returns that run and changes
-- nothing. Runs have ids of their own and steps leave the ids and keys of runs.
pub handle_event_again :
    (engine : WorkflowEngine) (name : String) (event : EventEnvelope) (at later : Option ℕ)
    (s s' : Db) (r : WorkflowRun)
    → KeepsKeys engine
    → AreKeyed s
    → handle_event engine name event at s ≡ (ok r, s')
    → is_terminal r.status ≡ true
    → handle_event engine name event later s' ≡ (ok r, s')
unfolding handle_event
handle_event_again engine name event at later s s' r keeps keyed h ended =
    let now = or_else at s.clock in
    elim (Option-cases (find_definition name engine.definitions)) [
      | inl unknown ↦ ground (arith, unknown)
      | inr (d, e) ↦
          let k = run_key d.name event in
          let start = find_or_create d event now (with_run_key k s.workflows) s in
          elim (Result-cases start.0) [
            | inl (w, q) ↦
                let (found, there) =
                  find_or_create_ok d event now s start.1 w keyed (ground (arith, q)) in
                let again : with_run_key k s'.workflows ≡ some r =
                  elim (Bool-cases (is_terminal w.status)) [
                    | inl done ↦ ground (arith, e, q, done, found)
                    | inr going ↦
                        let ran : execute engine w d event now start.1 ≡ (ok r, s') =
                          ground (arith, e, q, going) in
                        let (_, kept) =
                          execute_settles engine w r d event now start.1 s'
                            (λ v x t.
                              SameKeys-get w.id t.workflows (d.step v x t).1.workflows
                                (keeps.keeps name d e v x t))
                            there ran in
                        with_run_key-SameKeys k w r start.1.workflows s'.workflows
                          (execute-SameKeys engine w r d event now start.1 s' (keeps.keeps name d e)
                            there ran)
                          found there kept
                  ] in
                ground (arith, e, again, ended)
            | inr (x, q) ↦ ground (arith, e, q)
          ]
    ]
