-- ===== src/Examples/Refunds.antt =====
-- A refund of 60.0000, where 50.0000 needs no approval.
use cax_commerce_operations.Prelude.{◌≡◌, refl, none, some, [], ◌∷◌}
use cax_commerce_operations.Prelude.Int.{pos}
use cax_commerce_operations.Errors.{ok}
use cax_commerce_operations.Persistence.Enums.{RefundStatus, ApprovalStatus}
use cax_commerce_operations.Persistence.Json.{Json, field}
use cax_commerce_operations.Persistence.Tables.{get, put}
use cax_commerce_operations.Persistence.Models.{Refund, Approval, HasId-refund}
use cax_commerce_operations.Approvals.Policy.{Thresholds, from_settings}
use cax_commerce_operations.Approvals.Engine.{
  ApprovalEngine, approve, audit_approval, open_approval, resume_action, resume_workflow,
  stamp_resumed,
}
use cax_commerce_operations.Application.Refunds.{
  approved, decimal_of, check_payload, approve_refund,
}
use cax_commerce_operations.Application.Refunds.Payment.{grant_pays_refund}
use cax_commerce_operations.Session.{Db, empty_db}
use cax_commerce_operations.Session.Actions.{add_audit}

abbrev thresholds : Thresholds
thresholds = record {
  significant_price_change_percent = pos 100000;
  refund_approval_threshold = pos 500000;
}

abbrev engine : ApprovalEngine
engine = record {
  policy = from_settings thresholds;
  default_expiry_hours = 24;
  action_registry = ("refund", approve_refund) ∷ [];
  action_hash = λ type id payload. id;
}

abbrev refund : Refund
refund = record {
  id = 7;
  order_id = 3;
  approval_id = none;
  amount = 600000;
  currency = "EUR";
  status = RefundStatus.proposed;
}

abbrev start : Db
start = record empty_db { next_id = 20; clock = 1000; refunds = refund ∷ [] }

-- The approval that the request makes, and the session in which it waits.
abbrev request : Approval
request = record {
  id = 20;
  action_type = "refund";
  resource_type = "refund";
  resource_id = 7;
  requested_payload = ("refund_id", Json.ident 7) ∷ ("amount", Json.amount (pos 600000)) ∷ [];
  action_hash = 7;
  risk_level = "financial";
  rule_name = "refund_above_threshold";
  rule_version = 1;
  status = ApprovalStatus.pending;
  requested_by = "alice";
  requested_reason = "Damaged";
  decided_by = none;
  rationale = none;
  workflow_run_id = none;
  expires_at = some 87400;
  decided_at = none;
  resumed_at = none;
  created_at = 1000;
}

abbrev waiting : Db
waiting = record start {
  next_id = 21;
  refunds = record refund { approval_id = some 20 } ∷ [];
  approvals = request ∷ [];
}

abbrev decision : Approval
decision = record request {
  status = ApprovalStatus.approved;
  decided_by = some "bob";
  rationale = some "Agreed";
  decided_at = some 2000;
  resumed_at = some 2000;
}

abbrev after : Db
after = (approve engine 20 "bob" "Agreed" (some 2000) waiting).1

grants : approve engine 20 "bob" "Agreed" (some 2000) waiting ≡ (ok decision, after)
unfolding approve open_approval resume_action resume_workflow stamp_resumed audit_approval
    approve_refund check_payload add_audit put
grants = refl

grant_pays_refund_example :
    (r : Refund) × (get 7 waiting.refunds ≡ some r)
    × (r.status ≡ RefundStatus.proposed)
    × (field "refund_id" request.requested_payload ≡ some (Json.ident r.id))
    × (decimal_of (field "amount" request.requested_payload) ≡ ok (pos r.amount))
    × (after.refunds ≡ put (approved r) waiting.refunds)
    × (get 7 after.refunds ≡ some (approved r))
grant_pays_refund_example =
    grant_pays_refund engine 20 "bob" "Agreed" (some 2000) waiting after request decision refl refl
      grants
