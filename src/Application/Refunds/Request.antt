-- ===== src/Application/Refunds/Request.antt =====
-- Asking for a refund: small ones are approved at once, large ones by a human, who can do so.
use cax_commerce_operations.Prelude.{
  ℕ, ◌+◌, ◌*◌, ◌<◌, ◌≡◌, ◌⊎◌, refl, String, none, some, inl, inr, arith,
}
use cax_commerce_operations.Prelude.Int.{pos, pos_part, neg_part}
use cax_commerce_operations.Errors.{ok}
use cax_commerce_operations.Persistence.Enums.{ApprovalStatus, RefundStatus, Eq-refund_status}
use cax_commerce_operations.Persistence.Tables.{get, get-put_self}
use cax_commerce_operations.Persistence.Models.{Refund, Approval, HasId-refund, HasId-approval}
use cax_commerce_operations.Approvals.Policy.{Thresholds, from_settings}
use cax_commerce_operations.Approvals.Policy.Decision.{NeedsHuman}
use cax_commerce_operations.Approvals.Engine.{ApprovalEngine, registered}
use cax_commerce_operations.Approvals.Engine.Request.{answering}
use cax_commerce_operations.Approvals.Engine.Ask.{Asked, request_if_required_cases}
use cax_commerce_operations.Application.Refunds.{
  approved, refund_context, refund_request, note_answer, request_approval, approve_refund,
  proposed_refund,
}
use cax_commerce_operations.Application.Refunds.Payment.{Payable}
use cax_commerce_operations.Session.{Db}
use cax_commerce_operations.Session.Actions.{add_audit}

-- The amount is above the configured threshold.
abbrev pub IsLarge : Thresholds → Refund → Type 0
IsLarge t r = pos_part t.refund_approval_threshold < r.amount + neg_part t.refund_approval_threshold

needs-IsLarge : (t : Thresholds) (r : Refund) → NeedsHuman t (refund_context r) → IsLarge t r
needs-IsLarge t r (NeedsHuman.purchase e) = cc
needs-IsLarge t r (NeedsHuman.destructive e) = cc
needs-IsLarge t r (NeedsHuman.high_risk e) = cc
needs-IsLarge t r (NeedsHuman.first_publication e f) = cc
needs-IsLarge t r (NeedsHuman.price_change p e f g) = cc
needs-IsLarge t r (NeedsHuman.refund a e f g) = ground arith

IsLarge-needs : (t : Thresholds) (r : Refund) → IsLarge t r → NeedsHuman t (refund_context r)
IsLarge-needs t r h = NeedsHuman.refund (pos r.amount) refl refl (omega arith)

-- A proposed refund that asks for approval is approved at once if its amount is within the configured
-- threshold; a larger one stays proposed and is tied to the approval that the call returns.
pub request_approval_exact :
    (engine : ApprovalEngine) (t : Thresholds) (id : ℕ) (requester reason : String) (s : Db)
    (r : Refund)
    → engine.policy ≡ from_settings t
    → get id s.refunds ≡ some r
    → r.status ≡ RefundStatus.proposed
    → let s' = (request_approval engine id requester reason s).1 in
      ((¬ IsLarge t r)
        × ((request_approval engine id requester reason s).0 ≡ ok none)
        × (get id s'.refunds ≡ some (approved r))
        × (s'.approvals ≡ s.approvals))
      ⊎ ((a : Approval) × IsLarge t r
          × ((request_approval engine id requester reason s).0 ≡ ok (some a))
          × (get id s'.refunds ≡ some (record r { approval_id = some a.id })))
unfolding request_approval note_answer add_audit
request_approval_exact engine t id requester reason s r configured found proposed =
    let asks = refund_request r requester reason in
    let ready : proposed_refund id s ≡ some r = ground (arith, found, proposed) in
    elim (request_if_required_cases engine t (refund_context r) asks s configured) [
      | Asked.is_allowed no_need e ↦ inl (
        λ big. no_need (IsLarge-needs t r big),
        ground (arith, ready, e),
        ground (arith, ready, e, get-put_self id (approved r) r s.refunds found refl),
        ground (arith, ready, e),
      )
      | Asked.is_known a needs known e ↦ inr (
        a,
        needs-IsLarge t r needs,
        ground (arith, ready, e),
        ground (
          arith,
          ready,
          e,
          get-put_self id (record r { approval_id = some a.id }) r s.refunds found refl,
        ),
      )
      | Asked.is_new a name version u needs new made e ↦ inr (
        a,
        needs-IsLarge t r needs,
        ground (arith, ready, e),
        ground (
          arith,
          ready,
          e,
          get-put_self id (record r { approval_id = some a.id }) r s.refunds found refl,
        ),
      )
    ]

-- What lets a large refund be paid: it is proposed, no approval was asked for it before, the new
-- approval gets an id of its own, and the refund handler is registered.
pub record Askable (engine : ApprovalEngine) (t : Thresholds) (id : ℕ) (requester reason : String)
    (s : Db) (r : Refund) : Type 0 where
  pub configured : engine.policy ≡ from_settings t
  pub found : get id s.refunds ≡ some r
  pub is_proposed : r.status ≡ RefundStatus.proposed
  pub is_large : IsLarge t r
  pub unasked : answering engine (refund_request r requester reason) s.approvals ≡ none
  pub fresh : get s.next_id s.approvals ≡ none
  pub handler : registered "refund" engine.action_registry ≡ some approve_refund

-- A pending approval of the refund `r`, as the request leaves them.
record Waiting (engine : ApprovalEngine) (id asked_at : ℕ) (a : Approval) (r : Refund) (s : Db)
    : Type 0 where
  stored : get a.id s.approvals ≡ some a
  is_pending : a.status ≡ ApprovalStatus.pending
  expiry : a.expires_at ≡ some (asked_at + engine.default_expiry_hours * 3600)
  no_workflow : a.workflow_run_id ≡ none
  is_refund : a.action_type ≡ "refund"
  names : a.resource_id ≡ id
  payable : Payable a r s
