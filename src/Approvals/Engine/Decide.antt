-- ===== src/Approvals/Engine/Decide.antt =====
-- Decisions on approvals: only a pending approval that is not due is decided, and once it is decided
-- or expired it stays as it is.
use native.Mathlib.Decide.{ℕ_discrete}
use cax_commerce_operations.Prelude.{
  ℕ, ◌≡◌, ◌≢◌, refl, String, true, false, Option, none, some, arith, inl, inr, ◌∙◌, ◌==◌,
  Option-cases, Bool-cases, or_else,
}
use cax_commerce_operations.Errors.{Error, ok, err, Result-cases}
use cax_commerce_operations.Persistence.Enums.{ApprovalStatus, Eq-approval_status}
use cax_commerce_operations.Persistence.Tables.{get, put, get-put_self, get-put_ne, get-id}
use cax_commerce_operations.Persistence.Models.{Approval, HasId-approval}
use cax_commerce_operations.Session.{Db}
use cax_commerce_operations.Approvals.Engine.{
  ApprovalEngine, ResumeHandler, registered, expired, expire, is_due, call_handler, resume_workflow,
  stamp_resumed, resume_action, decided, open_approval, approve, reject,
}

-- The three ways in which `open_approval` ends.
pub data Opened (id now : ℕ) (s : Db) : Type 0 where
  is_open :
      (a : Approval)
      → get id s.approvals ≡ some a
      → a.status ≡ ApprovalStatus.pending
      → is_due now a.expires_at ≡ false
      → open_approval id now s ≡ (ok a, s)
      → Opened id now s
  is_late :
      (a : Approval)
      → get id s.approvals ≡ some a
      → a.status ≡ ApprovalStatus.pending
      → is_due now a.expires_at ≡ true
      → open_approval id now s ≡ (err Error.approval_expired, (expire a now "system" s).1)
      → Opened id now s
  is_refused : (x : Error) → open_approval id now s ≡ (err x, s) → Opened id now s

pub opened : (id now : ℕ) (s : Db) → Opened id now s
unfolding open_approval
opened id now s = elim (Option-cases (get id s.approvals)) [
  | inl missing ↦ Opened.is_refused Error.approval_not_found (ground arith)
  | inr (a, found) ↦ elim (Bool-cases (a.status == ApprovalStatus.pending)) [
    | inl pending ↦ elim (Bool-cases (is_due now a.expires_at)) [
      | inl due ↦ Opened.is_late a found (ground arith) due (ground arith)
      | inr early ↦ Opened.is_open a found (ground arith) early (ground arith)
    ]
    | inr closed ↦ Opened.is_refused Error.approval_transition (ground arith)
  ]
]

-- No row but `id` differs.
abbrev OnlyRow : ℕ → Db → Db → Type 0
OnlyRow id s s' = (k : ℕ) → id ≢ k → get k s'.approvals ≡ get k s.approvals

-- The handlers of the registry leave the approvals to the engine.
pub record IsTame (engine : ApprovalEngine) : Type 0 where
  pub same_approvals :
      (action_type : String) (h : ResumeHandler)
      → registered action_type engine.action_registry ≡ some h
      → (a : Approval) (s : Db) → (h a s).1.approvals ≡ s.approvals

expire_parts :
    (a : Approval) (now : ℕ) (actor : String) (s : Db)
    → (expire a now actor s).1.approvals ≡ put (expired now actor a) s.approvals
unfolding expire
expire_parts a now actor s = refl

call_handler_approvals :
    (engine : ApprovalEngine) (a : Approval) (s : Db)
    → IsTame engine
    → (call_handler (registered a.action_type engine.action_registry) a s).1.approvals ≡ s.approvals
call_handler_approvals engine a s tame =
    elim (Option-cases (registered a.action_type engine.action_registry)) [
      | inl without ↦ rw without refl
      | inr (h, found) ↦ rw found (tame.same_approvals a.action_type h found a s)
    ]

resume_workflow_approvals :
    (w : Option ℕ) (s : Db) → (resume_workflow w s).1.approvals ≡ s.approvals
unfolding resume_workflow
resume_workflow_approvals none s = refl
resume_workflow_approvals (some w) s = ground arith

stamp_resumed_only : (id now : ℕ) (s : Db) → OnlyRow id s (stamp_resumed id now s).1
unfolding stamp_resumed
stamp_resumed_only id now s k ne = elim (Option-cases (get id s.approvals)) [
  | inl missing ↦ ground arith
  | inr (a, found) ↦ ground (
    arith,
    get-id id a s.approvals found,
    get-put_ne k (record a { resumed_at = some now }) s.approvals,
  )
]

-- The states that `resume_action` passes through.
resume_action_only :
    (engine : ApprovalEngine) (a : Approval) (now : ℕ) (s : Db)
    → IsTame engine
    → OnlyRow a.id s (resume_action engine a now s).1
unfolding resume_action
resume_action_only engine a now s tame k ne =
    let s₁ = (call_handler (registered a.action_type engine.action_registry) a s).1 in
    let s₂ = (resume_workflow a.workflow_run_id s₁).1 in
    let e₁ : s₁.approvals ≡ s.approvals = call_handler_approvals engine a s tame in
    let e₂ : s₂.approvals ≡ s₁.approvals = resume_workflow_approvals a.workflow_run_id s₁ in
    ground (arith, stamp_resumed_only a.id now s₂ k ne)

stamp_resumed_self :
    (id now : ℕ) (s : Db) (x : Approval)
    → get id s.approvals ≡ some x
    → get id (stamp_resumed id now s).1.approvals ≡ some (record x { resumed_at = some now })
unfolding stamp_resumed
stamp_resumed_self id now s x found =
    ground (arith, get-put_self id (record x { resumed_at = some now }) x s.approvals found refl)

resume_action_self :
    (engine : ApprovalEngine) (a x : Approval) (now : ℕ) (s : Db)
    → IsTame engine
    → get a.id s.approvals ≡ some x
    → (resume_action engine a now s).0 ≡ ok tt
    → get a.id (resume_action engine a now s).1.approvals
      ≡ some (record x { resumed_at = some now })
unfolding resume_action
resume_action_self engine a x now s tame found h =
    let s₁ = (call_handler (registered a.action_type engine.action_registry) a s).1 in
    let s₂ = (resume_workflow a.workflow_run_id s₁).1 in
    let e₁ : s₁.approvals ≡ s.approvals = call_handler_approvals engine a s tame in
    let e₂ : s₂.approvals ≡ s₁.approvals = resume_workflow_approvals a.workflow_run_id s₁ in
    let found₂ : get a.id s₂.approvals ≡ some x = rw (e₂, e₁) found in
    ground (arith, stamp_resumed_self a.id now s₂ x found₂)

-- How a call of `approve` or `reject` treats the approvals, by how `open_approval` ends.
approve_only :
    (engine : ApprovalEngine) (id : ℕ) (approver reason : String) (at : Option ℕ) (s : Db)
    → IsTame engine
    → OnlyRow id s (approve engine id approver reason at s).1
unfolding approve
approve_only engine id approver reason at s tame k ne = elim (opened id (or_else at s.clock) s) [
  | Opened.is_refused x e ↦ ground (arith, e)
  | Opened.is_late a found pending due e ↦ ground (
    arith,
    e,
    expire_parts a (or_else at s.clock) "system" s,
    get-id id a s.approvals found,
    get-put_ne k (expired (or_else at s.clock) "system" a) s.approvals,
  )
  | Opened.is_open a found pending early e ↦
      let now = or_else at s.clock in
      let b = decided ApprovalStatus.approved approver reason now a in
      let s₁ : Db = record s { approvals = put b s.approvals } in
      ground (
        arith,
        e,
        get-id id a s.approvals found,
        resume_action_only engine b now s₁ tame k,
        get-put_ne k b s.approvals,
      )
]

reject_only :
    (id : ℕ) (approver reason : String) (at : Option ℕ) (s : Db)
    → OnlyRow id s (reject id approver reason at s).1
unfolding reject
reject_only id approver reason at s k ne = elim (opened id (or_else at s.clock) s) [
  | Opened.is_refused x e ↦ ground (arith, e)
  | Opened.is_late a found pending due e ↦ ground (
    arith,
    e,
    expire_parts a (or_else at s.clock) "system" s,
    get-id id a s.approvals found,
    get-put_ne k (expired (or_else at s.clock) "system" a) s.approvals,
  )
  | Opened.is_open a found pending early e ↦
      let now = or_else at s.clock in
      ground (
        arith,
        e,
        get-id id a s.approvals found,
        get-put_ne k (decided ApprovalStatus.rejected approver reason now a) s.approvals,
      )
]

-- On an approval that is no longer pending both calls raise and change nothing.
closed_refused :
    (id now : ℕ) (s : Db) (a : Approval)
    → get id s.approvals ≡ some a
    → a.status ≢ ApprovalStatus.pending
    → open_approval id now s ≡ (err Error.approval_transition, s)
unfolding open_approval
closed_refused id now s a found closed = ground arith

pub closed_refuses :
    (engine : ApprovalEngine) (id : ℕ) (approver reason : String) (at : Option ℕ) (s : Db)
    (a : Approval)
    → get id s.approvals ≡ some a
    → a.status ≢ ApprovalStatus.pending
    → (approve engine id approver reason at s ≡ (err Error.approval_transition, s))
      × (reject id approver reason at s ≡ (err Error.approval_transition, s))
unfolding approve reject
closed_refuses engine id approver reason at s a found closed =
    let e = closed_refused id (or_else at s.clock) s a found closed in (ground arith, ground arith)

-- A decision is final: whatever approval is approved or rejected, with whatever outcome, an approval
-- that was decided or has expired stays as it is. The resume handlers leave approvals alone.
pub decision_final :
    (engine : ApprovalEngine) (id : ℕ) (approver reason : String) (at : Option ℕ) (s : Db) (k : ℕ)
    (a : Approval)
    → IsTame engine
    → get k s.approvals ≡ some a
    → a.status ≢ ApprovalStatus.pending
    → (get k (approve engine id approver reason at s).1.approvals ≡ some a)
      × (get k (reject id approver reason at s).1.approvals ≡ some a)
decision_final engine id approver reason at s k a tame found closed = elim (ℕ_discrete id k) [
  | yes same ↦
      let (p, q) = closed_refuses engine id approver reason at s a (rw same found) closed in
      (rw p found, rw q found)
  | no ne ↦ (
    approve_only engine id approver reason at s tame k ne ∙ found,
    reject_only id approver reason at s k ne ∙ found,
  )
]

-- An approval is granted only while it is pending and before it expires, and the call that returns
-- has set its status, the approver and the reason.
pub approve_sound :
    (engine : ApprovalEngine) (id : ℕ) (approver reason : String) (at : Option ℕ) (s s' : Db)
    (b : Approval)
    → IsTame engine
    → approve engine id approver reason at s ≡ (ok b, s')
    → (a : Approval) × (get id s.approvals ≡ some a)
      × (a.status ≡ ApprovalStatus.pending)
      × (is_due (or_else at s.clock) a.expires_at ≡ false)
      × (get id s'.approvals ≡ some b)
      × (b.status ≡ ApprovalStatus.approved)
      × (b.decided_by ≡ some approver)
      × (b.rationale ≡ some reason)
      × (b.resumed_at ≡ some (or_else at s.clock))
unfolding approve
approve_sound engine id approver reason at s s' b tame h = elim (opened id (or_else at s.clock) s) [
  | Opened.is_refused x e ↦ ground (arith, e)
  | Opened.is_late a found pending due e ↦ ground (arith, e)
  | Opened.is_open a found pending early e ↦
      let now = or_else at s.clock in
      let c = decided ApprovalStatus.approved approver reason now a in
      let d : Approval = record c { resumed_at = some now } in
      let s₁ : Db = record s { approvals = put c s.approvals } in
      let saved : get c.id s₁.approvals ≡ some c =
        ground (arith, get-id id a s.approvals found, get-put_self id c a s.approvals found refl) in
      elim (Result-cases (resume_action engine c now s₁).0) [
        | inl (u, q) ↦
            let kept = resume_action_self engine c c now s₁ tame saved q in
            let same : (b ≡ d) × (get id s'.approvals ≡ some b) =
              ground (arith, kept, get-id id a s.approvals found) in
            (
              a,
              found,
              pending,
              early,
              same.1,
              rw (same.0) refl,
              rw (same.0) refl,
              rw (same.0) refl,
              rw (same.0) refl,
            )
        | inr (x, q) ↦ absurd (ground (arith, q))
      ]
]
