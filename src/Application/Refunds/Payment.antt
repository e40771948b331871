-- ===== src/Application/Refunds/Payment.antt =====
-- Which refunds a granted approval pays.
use cax_commerce_operations.Prelude.{
  ℕ, ◌≡◌, ◌⊎◌, refl, String, Option, some, inl, inr, arith, Bool-cases, Option-cases, or_else, ◌==◌,
  Eq-nat, Eq-string,
}
use cax_commerce_operations.Prelude.Int.{pos, Eq-int}
use cax_commerce_operations.Errors.{Error, ok, err, Result-cases}
use cax_commerce_operations.Persistence.Enums.{RefundStatus, Eq-refund_status}
use cax_commerce_operations.Persistence.Json.{Json, Object, field, json_eq_iff}
use cax_commerce_operations.Persistence.Tables.{get, put, add, get-put_self}
use cax_commerce_operations.Persistence.Models.{Refund, Approval, HasId-refund, HasId-approval}
use cax_commerce_operations.Approvals.Engine.{ApprovalEngine, registered, approve}
use cax_commerce_operations.Approvals.Engine.Carry.{granted, saved, approve_runs}
use cax_commerce_operations.Application.Refunds.{
  approved, decimal_of, check_payload, human_audit, approve_refund,
}
use cax_commerce_operations.Session.{Db}
use cax_commerce_operations.Session.Actions.{add_audit}

-- The payload names the refund and its present amount.
abbrev pub Matches : Object → Refund → Type 0
Matches payload r =
    (field "refund_id" payload ≡ some (Json.ident r.id))
    × (decimal_of (field "amount" payload) ≡ ok (pos r.amount))

check_payload_sound :
    (payload : Object) (r : Refund) → check_payload payload r ≡ ok tt → Matches payload r
unfolding check_payload
check_payload_sound payload r h = elim (Option-cases (field "refund_id" payload)) [
  | inl missing ↦ absurd (ground (arith, missing, h))
  | inr (j, found) ↦ elim (Result-cases (decimal_of (field "amount" payload))) [
    | inr (x, bad) ↦ absurd (ground (arith, found, bad, h))
    | inl (z, read) ↦
        ground
          (arith, found, read, h, json_eq_iff j (Json.ident r.id), Eq-int.beq_iff z (pos r.amount))
  ]
]

check_payload_complete :
    (payload : Object) (r : Refund) → Matches payload r → check_payload payload r ≡ ok tt
unfolding check_payload
check_payload_complete payload r (named, read) =
    ground (arith, named, read, Eq-int.beq_iff (pos r.amount) (pos r.amount))

-- What the handler finds when it approves a refund.
pub record Payable (a : Approval) (r : Refund) (s : Db) : Type 0 where
  pub found : get a.resource_id s.refunds ≡ some r
  pub is_refund : a.resource_type ≡ "refund"
  pub is_proposed : r.status ≡ RefundStatus.proposed
  pub matches : Matches a.requested_payload r

abbrev pub paid : Approval → Refund → Db → Db
paid a r s = record s {
  refunds = put (approved r) s.refunds;
  audits = add (human_audit a r) s.audits;
}

-- The handler approves a refund exactly when it is the proposed one that the approval names, at the
-- amount that was approved; otherwise it raises and writes nothing.
approve_refund_cases :
    (a : Approval) (s : Db)
    → ((r : Refund) × Payable a r s × (approve_refund a s ≡ (ok tt, paid a r s)))
      ⊎ ((x : Error) × (approve_refund a s ≡ (err x, s)))
unfolding approve_refund add_audit
approve_refund_cases a s = elim (Option-cases (get a.resource_id s.refunds)) [
  | inl missing ↦ inr (Error.refund_approval, ground (arith, missing))
  | inr (r, found) ↦ elim (Bool-cases (a.resource_type == "refund")) [
    | inr other ↦ inr (Error.refund_approval, ground (arith, found, other))
    | inl same ↦ elim (Bool-cases (r.status == RefundStatus.proposed)) [
      | inr closed ↦ inr (Error.refund_approval, ground (arith, found, same, closed))
      | inl open_one ↦ elim (Result-cases (check_payload a.requested_payload r)) [
        | inr (x, bad) ↦ inr (x, ground (arith, found, same, open_one, bad))
        | inl (u, good) ↦ inl (
          r,
          record {
            found = found;
            is_refund = (Eq-string.beq_iff a.resource_type "refund").0 same;
            is_proposed = (Eq-refund_status.beq_iff r.status RefundStatus.proposed).0 open_one;
            matches = check_payload_sound a.requested_payload r good;
          },
          ground (arith, found, same, open_one, good),
        )
      ]
    ]
  ]
]

pub approve_refund_completes :
    (a : Approval) (r : Refund) (s : Db) → Payable a r s → approve_refund a s ≡ (ok tt, paid a r s)
unfolding approve_refund add_audit
approve_refund_completes a r s p = ground (
  arith,
  p.found,
  p.is_proposed,
  (Eq-string.beq_iff a.resource_type "refund").1 p.is_refund,
  check_payload_complete a.requested_payload r p.matches,
)

-- A refund approval that is granted pays exactly the refund it names: the refund was proposed, the
-- approved payload has its id and its amount as it is when the approval is granted, and afterwards
-- the refund is approved. The handler of refunds is registered.
pub grant_pays_refund :
    (engine : ApprovalEngine) (id : ℕ) (approver reason : String) (at : Option ℕ) (s s' : Db)
    (a b : Approval)
    → get id s.approvals ≡ some a
    → registered a.action_type engine.action_registry ≡ some approve_refund
    → approve engine id approver reason at s ≡ (ok b, s')
    → (r : Refund) × (get a.resource_id s.refunds ≡ some r)
      × (r.status ≡ RefundStatus.proposed)
      × (field "refund_id" a.requested_payload ≡ some (Json.ident r.id))
      × (decimal_of (field "amount" a.requested_payload) ≡ ok (pos r.amount))
      × (s'.refunds ≡ put (approved r) s.refunds)
      × (get a.resource_id s'.refunds ≡ some (approved r))
grant_pays_refund engine id approver reason at s s' a b found handler h =
    let c = granted approver reason (or_else at s.clock) a in
    let (after, called, (w, t, u, kept)) =
      approve_runs engine approve_refund id approver reason at s s' a b found handler h in
    elim (approve_refund_cases c (saved c s)) [
      | inr (x, e) ↦ absurd (ground (arith, e, called))
      | inl (r, p, e) ↦
          let written : s'.refunds ≡ put (approved r) s.refunds = ground (arith, kept, called, e) in
          (
            r,
            p.found,
            p.is_proposed,
            p.matches.0,
            p.matches.1,
            written,
            ground
                (arith, written, get-put_self a.resource_id (approved r) r s.refunds p.found refl),
          )
    ]
