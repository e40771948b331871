-- ===== src/Approvals/Engine/Carry.antt =====
-- What an approval sets off: the resume handler runs on the approved row, and the rest of the call
-- writes only workflows, approvals and audit rows.
use cax_commerce_operations.Prelude.{
  ℕ, ◌≡◌, ◌+◌, refl, String, false, Option, none, some, List, arith, inl, inr, or_else,
  Option-cases,
}
use cax_commerce_operations.Errors.{Error, ok, err, Result-cases}
use cax_commerce_operations.Persistence.Enums.{ApprovalStatus, RunStatus, Eq-approval_status}
use cax_commerce_operations.Persistence.Tables.{get, put, get-put_self, get-id}
use cax_commerce_operations.Persistence.Models.{
  Approval, WorkflowRun, AuditEvent, HasId-approval, HasId-workflow_run,
}
use cax_commerce_operations.Approvals.Engine.Decide.{Opened, opened}
use cax_commerce_operations.Session.{Db, Action}
use cax_commerce_operations.Session.Actions.{add_audit, ◌>>◌}
use cax_commerce_operations.Approvals.Engine.{
  ApprovalEngine, ResumeHandler, registered, is_due, call_handler, resume_workflow, stamp_resumed,
  resume_action, decided, open_approval, approve, audit_approval, find_approval,
}

-- `s'` differs from `s` at most in its workflows, approvals and audit rows.
abbrev pub Bookkeeping : Db → Db → Type 0
Bookkeeping s s' =
    (w : List WorkflowRun) × (t : List Approval) × (u : List AuditEvent) × (s'
      ≡ record s { workflows = w; approvals = t; audits = u })

resume_workflow_writes :
    (w : Option ℕ) (s : Db)
    → (t : List WorkflowRun) × ((resume_workflow w s).1 ≡ record s { workflows = t })
unfolding resume_workflow
resume_workflow_writes none s = (s.workflows, refl)
resume_workflow_writes (some k) s = elim (Option-cases (get k s.workflows)) [
  | inl missing ↦ (s.workflows, ground arith)
  | inr (w, found) ↦ (
    put
        (record w {
          version = w.version + 1;
          status = RunStatus.running;
          next_retry_at = none;
          error = none;
        })
        s.workflows,
    ground arith,
  )
]

stamp_resumed_writes :
    (id now : ℕ) (s : Db)
    → (t : List Approval) × ((stamp_resumed id now s).1 ≡ record s { approvals = t })
unfolding stamp_resumed
stamp_resumed_writes id now s = elim (Option-cases (get id s.approvals)) [
  | inl missing ↦ (s.approvals, ground arith)
  | inr (a, found) ↦ (put (record a { resumed_at = some now }) s.approvals, ground arith)
]

-- The row that the handler is given.
abbrev pub granted : String → String → ℕ → Approval → Approval
granted approver reason now a = decided ApprovalStatus.approved approver reason now a

-- The state in which it is called, and what it does.
abbrev pub saved : Approval → Db → Db
saved a s = record s { approvals = put a s.approvals }

-- The last part of `approve`, after the handler.
after_handler :
    (engine : ApprovalEngine) (a b : Approval) (id now : ℕ) (approver : String) (s s' s₂ : Db)
    → call_handler (registered a.action_type engine.action_registry) a s ≡ (ok tt, s₂)
    → (resume_action engine a now
          >> (audit_approval a "approval.approved" approver (some "pending") "approved"
              >> find_approval id))
        s
      ≡ (ok b, s')
    → Bookkeeping s₂ s'
unfolding resume_action audit_approval add_audit
after_handler engine a b id now approver s s' s₂ q h =
    let (w, wrote) = resume_workflow_writes a.workflow_run_id s₂ in
    let s₃ = (resume_workflow a.workflow_run_id s₂).1 in
    let (t, stamped) = stamp_resumed_writes a.id now s₃ in
    let s₄ = (stamp_resumed a.id now s₃).1 in
    elim (Result-cases (resume_workflow a.workflow_run_id s₂).0) [
      | inr (x, e) ↦ absurd (ground (arith, q, e, h))
      | inl (u, e) ↦ elim (Result-cases (stamp_resumed a.id now s₃).0) [
        | inr (x, f) ↦ absurd (ground (arith, q, e, f, h))
        | inl (v, f) ↦ elim (Option-cases (get id s₄.approvals)) [
          | inl missing ↦ absurd (ground (arith, q, e, f, missing, h))
          | inr (c, found) ↦ (w, t, s'.audits, ground (arith, q, e, f, found, h, wrote, stamped))
        ]
      ]
    ]

handler_raised :
    (engine : ApprovalEngine) (a b : Approval) (now : ℕ) (k : Action Approval) (s s' : Db)
    (x : Error)
    → (call_handler (registered a.action_type engine.action_registry) a s).0 ≡ err x
    → (resume_action engine a now >> k) s ≡ (ok b, s')
    → ⊥
unfolding resume_action
handler_raised engine a b now k s s' x q h = ground (arith, q, h)

-- A grant that returns found the approval pending and not due, ran the handler of its action on the
-- granted row with success, and wrote nothing else but workflows, approvals and audit rows.
pub record Carried (engine : ApprovalEngine) (id : ℕ) (approver reason : String) (now : ℕ)
    (a : Approval) (s s' : Db) : Type 0 where
  pub found : get id s.approvals ≡ some a
  pub was_pending : a.status ≡ ApprovalStatus.pending
  pub was_early : is_due now a.expires_at ≡ false
  pub after : Db
  pub handled :
      let c = granted approver reason now a in
      call_handler (registered a.action_type engine.action_registry) c (saved c s) ≡ (ok tt, after)
  pub kept : Bookkeeping after s'

pub approve_carries :
    (engine : ApprovalEngine) (id : ℕ) (approver reason : String) (at : Option ℕ) (s s' : Db)
    (b : Approval)
    → approve engine id approver reason at s ≡ (ok b, s')
    → (a : Approval) × Carried engine id approver reason (or_else at s.clock) a s s'
unfolding approve
approve_carries engine id approver reason at s s' b h = elim (opened id (or_else at s.clock) s) [
  | Opened.is_refused x e ↦ absurd (ground (arith, e, h))
  | Opened.is_late a found pending due e ↦ absurd (ground (arith, e, h))
  | Opened.is_open a found pending early e ↦
      let now = or_else at s.clock in
      let c = granted approver reason now a in
      let rest : (resume_action engine c now
              >> (audit_approval c "approval.approved" approver (some "pending") "approved"
                  >> find_approval id))
            (saved c s)
          ≡ (ok b, s') =
        ground (arith, e, h) in
      elim (Result-cases
        (call_handler (registered a.action_type engine.action_registry) c (saved c s)).0) [
          | inr (x, q) ↦ absurd (
              handler_raised engine c b now
                (audit_approval c "approval.approved" approver (some "pending") "approved"
                  >> find_approval id)
                (saved c s) s' x q rest)
          | inl (u, q) ↦
              let after =
                (call_handler (registered a.action_type engine.action_registry) c (saved c s)).1 in
              (
                a,
                record {
                  found = found;
                  was_pending = pending;
                  was_early = early;
                  after = after;
                  handled = ground (arith, q);
                  kept =
                      after_handler engine c b id now approver (saved c s) s' after
                        (ground (arith, q)) rest;
                },
              )
        ]
]

-- The same, for the handler that is registered for the approval's action.
pub approve_runs :
    (engine : ApprovalEngine) (handler : ResumeHandler) (id : ℕ) (approver reason : String)
    (at : Option ℕ) (s s' : Db) (a b : Approval)
    → get id s.approvals ≡ some a
    → registered a.action_type engine.action_registry ≡ some handler
    → approve engine id approver reason at s ≡ (ok b, s')
    → let c = granted approver reason (or_else at s.clock) a in
      (after : Db) × (handler c (saved c s) ≡ (ok tt, after)) × Bookkeeping after s'
approve_runs engine handler id approver reason at s s' a b found installed h =
    let (a', carried) = approve_carries engine id approver reason at s s' b h in
    let c = granted approver reason (or_else at s.clock) a in
    let same : a' ≡ a = ground (arith, carried.found, found) in
    let ran : call_handler (registered a.action_type engine.action_registry) c (saved c s)
        ≡ (ok tt, carried.after) =
      rw (← same) carried.handled in
    (carried.after, rw installed at ran, carried.kept)

resume_action_completes :
    (engine : ApprovalEngine) (a : Approval) (now : ℕ) (s s₂ : Db)
    → a.workflow_run_id ≡ none
    → call_handler (registered a.action_type engine.action_registry) a s ≡ (ok tt, s₂)
    → get a.id s₂.approvals ≡ some a
    → resume_action engine a now s
      ≡ (ok tt, record s₂ { approvals = put (record a { resumed_at = some now }) s₂.approvals })
unfolding resume_action stamp_resumed resume_workflow
resume_action_completes engine a now s s₂ free q kept = ground (arith, q, free, kept)

open_completes :
    (id now : ℕ) (s : Db) (a : Approval)
    → get id s.approvals ≡ some a
    → a.status ≡ ApprovalStatus.pending
    → is_due now a.expires_at ≡ false
    → open_approval id now s ≡ (ok a, s)
unfolding open_approval
open_completes id now s a found pending early = ground arith

-- A grant of a pending approval that is not due and that no workflow waits for returns, if its
-- handler does and leaves the approval alone.
pub approve_completes :
    (engine : ApprovalEngine) (id : ℕ) (approver reason : String) (at : Option ℕ) (s s₂ : Db)
    (a : Approval)
    → get id s.approvals ≡ some a
    → a.status ≡ ApprovalStatus.pending
    → is_due (or_else at s.clock) a.expires_at ≡ false
    → a.workflow_run_id ≡ none
    → let c = granted approver reason (or_else at s.clock) a in
      call_handler (registered a.action_type engine.action_registry) c (saved c s) ≡ (ok tt, s₂)
      → get id s₂.approvals ≡ some c
      → (b : Approval) × (approve engine id approver reason at s
          ≡ (ok b, (approve engine id approver reason at s).1))
unfolding approve audit_approval add_audit
approve_completes engine id approver reason at s s₂ a found pending early free q kept =
    let now = or_else at s.clock in
    let c = granted approver reason now a in
    let d : Approval = record c { resumed_at = some now } in
    let here : a.id ≡ id = get-id id a s.approvals found in
    let stored : get id (put d s₂.approvals) ≡ some d =
      ground (arith, here, get-put_self id d c s₂.approvals kept) in
    let opens = open_completes id now s a found pending early in
    let resumed =
      resume_action_completes engine c now (saved c s) s₂ free q (ground (arith, here, kept)) in
    (d, ground (arith, opens, resumed, stored))
