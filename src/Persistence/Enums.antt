-- ===== src/Persistence/Enums.antt =====
-- src/commerce_operations/persistence/enums.py: the enumerations that the modelled services
-- compare. Each has its members in the order of the source, numbered for `==`.
use cax_commerce_operations.Prelude.{ℕ, ◌≡◌, ◌↔◌, true, arith, Eq, nat_eq}

pub data ProcurementStatus : Type 0 where
  proposed awaiting_approval approved ordered shipped received cancelled : ProcurementStatus

pub data PurchaseOrderStatus : Type 0 where
  draft approved submitted shipped received cancelled : PurchaseOrderStatus

pub data InventoryMovementType : Type 0 where
  receipt reservation release shipment return adjustment : InventoryMovementType

-- REQUESTED is an alias of PENDING.
pub data ApprovalStatus : Type 0 where
  pending approved rejected expired cancelled executed execution_failed : ApprovalStatus

pub data OrderStatus : Type 0 where
  pending paid processing dispatched delivered cancelled returned refunded : OrderStatus

pub data RefundStatus : Type 0 where
  proposed approved processing completed failed cancelled : RefundStatus

pub data RunStatus : Type 0 where
  pending running succeeded failed retrying escalated cancelled : RunStatus

pub data EventStatus : Type 0 where
  pending published failed dead_lettered : EventStatus

pub data HandlerReceiptStatus : Type 0 where
  completed : HandlerReceiptStatus

abbrev pub procurement_code : ProcurementStatus → ℕ
procurement_code ProcurementStatus.proposed = 0
procurement_code ProcurementStatus.awaiting_approval = 1
procurement_code ProcurementStatus.approved = 2
procurement_code ProcurementStatus.ordered = 3
procurement_code ProcurementStatus.shipped = 4
procurement_code ProcurementStatus.received = 5
procurement_code ProcurementStatus.cancelled = 6

abbrev pub purchase_order_code : PurchaseOrderStatus → ℕ
purchase_order_code PurchaseOrderStatus.draft = 0
purchase_order_code PurchaseOrderStatus.approved = 1
purchase_order_code PurchaseOrderStatus.submitted = 2
purchase_order_code PurchaseOrderStatus.shipped = 3
purchase_order_code PurchaseOrderStatus.received = 4
purchase_order_code PurchaseOrderStatus.cancelled = 5

abbrev pub movement_code : InventoryMovementType → ℕ
movement_code InventoryMovementType.receipt = 0
movement_code InventoryMovementType.reservation = 1
movement_code InventoryMovementType.release = 2
movement_code InventoryMovementType.shipment = 3
movement_code InventoryMovementType.return = 4
movement_code InventoryMovementType.adjustment = 5

abbrev pub approval_code : ApprovalStatus → ℕ
approval_code ApprovalStatus.pending = 0
approval_code ApprovalStatus.approved = 1
approval_code ApprovalStatus.rejected = 2
approval_code ApprovalStatus.expired = 3
approval_code ApprovalStatus.cancelled = 4
approval_code ApprovalStatus.executed = 5
approval_code ApprovalStatus.execution_failed = 6

abbrev pub order_code : OrderStatus → ℕ
order_code OrderStatus.pending = 0
order_code OrderStatus.paid = 1
order_code OrderStatus.processing = 2
order_code OrderStatus.dispatched = 3
order_code OrderStatus.delivered = 4
order_code OrderStatus.cancelled = 5
order_code OrderStatus.returned = 6
order_code OrderStatus.refunded = 7

abbrev pub refund_code : RefundStatus → ℕ
refund_code RefundStatus.proposed = 0
refund_code RefundStatus.approved = 1
refund_code RefundStatus.processing = 2
refund_code RefundStatus.completed = 3
refund_code RefundStatus.failed = 4
refund_code RefundStatus.cancelled = 5

abbrev pub run_code : RunStatus → ℕ
run_code RunStatus.pending = 0
run_code RunStatus.running = 1
run_code RunStatus.succeeded = 2
run_code RunStatus.failed = 3
run_code RunStatus.retrying = 4
run_code RunStatus.escalated = 5
run_code RunStatus.cancelled = 6

abbrev pub event_status_code : EventStatus → ℕ
event_status_code EventStatus.pending = 0
event_status_code EventStatus.published = 1
event_status_code EventStatus.failed = 2
event_status_code EventStatus.dead_lettered = 3

pub procurement_eq_iff :
    (a b : ProcurementStatus) → (nat_eq (procurement_code a) (procurement_code b) ≡ true) ↔ (a ≡ b)
procurement_eq_iff a b = ground arith

pub purchase_order_eq_iff :
    (a b : PurchaseOrderStatus)
    → (nat_eq (purchase_order_code a) (purchase_order_code b) ≡ true) ↔ (a ≡ b)
purchase_order_eq_iff a b = ground arith

pub movement_eq_iff :
    (a b : InventoryMovementType) → (nat_eq (movement_code a) (movement_code b) ≡ true) ↔ (a ≡ b)
movement_eq_iff a b = ground arith

pub approval_eq_iff :
    (a b : ApprovalStatus) → (nat_eq (approval_code a) (approval_code b) ≡ true) ↔ (a ≡ b)
approval_eq_iff a b = ground arith

pub order_eq_iff : (a b : OrderStatus) → (nat_eq (order_code a) (order_code b) ≡ true) ↔ (a ≡ b)
order_eq_iff a b = ground arith

pub refund_eq_iff : (a b : RefundStatus) → (nat_eq (refund_code a) (refund_code b) ≡ true) ↔ (a ≡ b)
refund_eq_iff a b = ground arith

pub run_eq_iff : (a b : RunStatus) → (nat_eq (run_code a) (run_code b) ≡ true) ↔ (a ≡ b)
run_eq_iff a b = ground arith

pub event_status_eq_iff :
    (a b : EventStatus) → (nat_eq (event_status_code a) (event_status_code b) ≡ true) ↔ (a ≡ b)
event_status_eq_iff a b = ground arith

instance abbrev pub Eq-procurement_status : Eq ProcurementStatus
Eq-procurement_status = record {
  beq = λ a b. nat_eq (procurement_code a) (procurement_code b);
  beq_iff = procurement_eq_iff;
}

instance abbrev pub Eq-purchase_order_status : Eq PurchaseOrderStatus
Eq-purchase_order_status = record {
  beq = λ a b. nat_eq (purchase_order_code a) (purchase_order_code b);
  beq_iff = purchase_order_eq_iff;
}

instance abbrev pub Eq-movement_type : Eq InventoryMovementType
Eq-movement_type = record {
  beq = λ a b. nat_eq (movement_code a) (movement_code b);
  beq_iff = movement_eq_iff;
}

instance abbrev pub Eq-approval_status : Eq ApprovalStatus
Eq-approval_status = record {
  beq = λ a b. nat_eq (approval_code a) (approval_code b);
  beq_iff = approval_eq_iff;
}

instance abbrev pub Eq-order_status : Eq OrderStatus
Eq-order_status = record {
  beq = λ a b. nat_eq (order_code a) (order_code b);
  beq_iff = order_eq_iff;
}

instance abbrev pub Eq-refund_status : Eq RefundStatus
Eq-refund_status = record {
  beq = λ a b. nat_eq (refund_code a) (refund_code b);
  beq_iff = refund_eq_iff;
}

instance abbrev pub Eq-run_status : Eq RunStatus
Eq-run_status = record { beq = λ a b. nat_eq (run_code a) (run_code b); beq_iff = run_eq_iff }

instance abbrev pub Eq-event_status : Eq EventStatus
Eq-event_status = record {
  beq = λ a b. nat_eq (event_status_code a) (event_status_code b);
  beq_iff = event_status_eq_iff;
}
