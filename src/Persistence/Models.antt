-- ===== src/Persistence/Models.antt =====
-- src/commerce_operations/persistence/models.py: the rows of the modelled tables. Ids are numbers
-- that a counter hands out, times are numbers, money is in ten-thousandths. Columns with a CHECK
-- constraint `>= 0` are naturals. `version` counts the writes of a changed row, and is kept where an
-- event quotes it. `created_at` and `updated_at` are kept only where they are read.
use cax_commerce_operations.Prelude.{ℕ, String, Option, List}
use cax_commerce_operations.Prelude.Int.{ℤ, sub_ℕ}
use cax_commerce_operations.Persistence.Enums.{
  ProcurementStatus, PurchaseOrderStatus, InventoryMovementType, ApprovalStatus, OrderStatus,
  RefundStatus, RunStatus, EventStatus, HandlerReceiptStatus,
}
use cax_commerce_operations.Persistence.Keys.{Key, CorrelationId, WorkflowName}
use cax_commerce_operations.Persistence.Json.{Object}
use cax_commerce_operations.Persistence.Tables.{HasId}
use cax_commerce_operations.Errors.{Error}
use cax_commerce_operations.Events.Types.{EventType}
use cax_commerce_operations.Integrations.Contracts.{RecommendationContext}

pub record SupplierQuote : Type 0 where
  pub id : ℕ
  pub product_id : ℕ
  pub supplier_id : ℕ
  pub external_quote_id : String
  pub currency : String
  pub moq : ℕ
  pub quantity : ℕ
  pub unit_cost : ℕ
  pub shipping_cost : ℕ
  pub lead_time_days : ℕ
  pub valid_until : Option ℕ
  pub source_reference : Option String

pub record ProcurementRequest : Type 0 where
  pub id : ℕ
  pub version : ℕ
  pub product_id : ℕ
  pub selected_quote_id : ℕ
  pub workflow_run_id : Option ℕ
  pub requested_quantity : ℕ
  pub estimated_landed_cost : ℕ
  pub currency : String
  pub recommendation_context : Option RecommendationContext
  pub expected_arrival_at : Option ℕ
  pub status : ProcurementStatus

pub record PurchaseOrder : Type 0 where
  pub id : ℕ
  pub version : ℕ
  pub procurement_request_id : ℕ
  pub supplier_id : ℕ
  pub quantity : ℕ
  pub received_quantity : ℕ
  pub total_amount : ℕ
  pub actual_landed_cost : Option ℕ
  pub currency : String
  pub terms : Object
  pub external_reference : Option String
  pub status : PurchaseOrderStatus
  pub ordered_at : Option ℕ
  pub shipped_at : Option ℕ
  pub received_at : Option ℕ
  pub expected_arrival_at : Option ℕ

pub record InventoryItem : Type 0 where
  pub id : ℕ
  pub version : ℕ
  pub product_id : ℕ
  pub sku : String
  pub storage_location : String
  pub quantity_on_hand : ℕ
  pub reserved_quantity : ℕ
  pub cost_basis : ℕ
  pub currency : String
  pub low_stock_threshold : ℕ

-- The property of the same name.
abbrev pub available : InventoryItem → ℤ
available i = sub_ℕ i.quantity_on_hand i.reserved_quantity

-- `source_id` is the text of an id.
pub record InventoryMovement : Type 0 where
  pub id : ℕ
  pub inventory_item_id : ℕ
  pub purchase_order_id : Option ℕ
  pub movement_type : InventoryMovementType
  pub quantity_delta : ℤ
  pub unit_cost : Option ℤ
  pub reason : String
  pub source_type : String
  pub source_id : ℕ
  pub idempotency_key : Key

pub record OrderItem : Type 0 where
  pub id : ℕ
  pub inventory_item_id : ℕ
  pub external_line_id : String
  pub sku : String
  pub quantity : ℕ
  pub unit_price : ℕ
  pub tax_amount : ℕ
  pub discount_amount : ℕ
  pub reservation_reference : Option Key

pub record Order : Type 0 where
  pub id : ℕ
  pub version : ℕ
  pub workflow_run_id : Option ℕ
  pub marketplace : String
  pub marketplace_account_id : String
  pub external_order_id : String
  pub source_event_id : String
  pub source_payload_hash : ℕ
  pub status : OrderStatus
  pub currency : String
  pub total_amount : ℕ
  pub customer_reference : Option String
  pub ordered_at : ℕ
  pub paid_at : Option ℕ
  pub dispatched_at : Option ℕ
  pub delivered_at : Option ℕ
  pub items : List OrderItem

pub record Refund : Type 0 where
  pub id : ℕ
  pub order_id : ℕ
  pub approval_id : Option ℕ
  pub amount : ℕ
  pub currency : String
  pub status : RefundStatus

pub record Approval : Type 0 where
  pub id : ℕ
  pub action_type : String
  pub resource_type : String
  pub resource_id : ℕ
  pub requested_payload : Object
  pub action_hash : ℕ
  pub risk_level : String
  pub rule_name : String
  pub rule_version : ℕ
  pub status : ApprovalStatus
  pub requested_by : String
  pub requested_reason : String
  pub decided_by : Option String
  pub rationale : Option String
  pub workflow_run_id : Option ℕ
  pub expires_at : Option ℕ
  pub decided_at : Option ℕ
  pub resumed_at : Option ℕ
  pub created_at : ℕ

-- `error` is the JSON object that the engine writes.
pub record WorkflowRun : Type 0 where
  pub id : ℕ
  pub version : ℕ
  pub workflow_name : WorkflowName
  pub workflow_version : ℕ
  pub correlation_id : CorrelationId
  pub source_event_id : Option ℕ
  pub idempotency_key : Option Key
  pub status : RunStatus
  pub current_step : Option String
  pub attempts : ℕ
  pub next_retry_at : Option ℕ
  pub error : Option Object
  pub checkpoints : Object
  pub max_attempts : ℕ
  pub timeout_seconds : ℕ
  pub started_at : Option ℕ
  pub deadline_at : Option ℕ
  pub completed_at : Option ℕ
  pub waiting_approval_id : Option ℕ
  pub cost_amount : ℕ
  pub cost_currency : Option String
  pub created_at : ℕ

pub record EventHandlerReceipt : Type 0 where
  pub event_id : ℕ
  pub handler_name : String
  pub status : HandlerReceiptStatus

pub record AuditEvent : Type 0 where
  pub actor_type : String
  pub actor_id : String
  pub action : String
  pub resource_type : String
  pub resource_id : ℕ
  pub before_state : Option Object
  pub after_state : Option Object
  pub reason : Option String
  pub correlation_id : CorrelationId

-- `payload` is the JSON form of the payload; `last_error` names the handler and what it raised.
pub record DomainEvent : Type 0 where
  pub id : ℕ
  pub event_type : EventType
  pub event_version : ℕ
  pub producer : String
  pub aggregate_type : String
  pub aggregate_id : ℕ
  pub aggregate_version : ℕ
  pub correlation_id : CorrelationId
  pub workflow_id : Option ℕ
  pub causation_id : Option ℕ
  pub idempotency_key : Key
  pub payload : Object
  pub publication_status : EventStatus
  pub processing_attempts : ℕ
  pub last_error : Option (String × Error)
  pub created_at : ℕ

instance abbrev pub HasId-supplier_quote : HasId SupplierQuote
HasId-supplier_quote = record { id_of = λ r. r.id }

instance abbrev pub HasId-procurement_request : HasId ProcurementRequest
HasId-procurement_request = record { id_of = λ r. r.id }

instance abbrev pub HasId-purchase_order : HasId PurchaseOrder
HasId-purchase_order = record { id_of = λ r. r.id }

instance abbrev pub HasId-inventory_item : HasId InventoryItem
HasId-inventory_item = record { id_of = λ r. r.id }

instance abbrev pub HasId-inventory_movement : HasId InventoryMovement
HasId-inventory_movement = record { id_of = λ r. r.id }

instance abbrev pub HasId-order : HasId Order
HasId-order = record { id_of = λ r. r.id }

instance abbrev pub HasId-refund : HasId Refund
HasId-refund = record { id_of = λ r. r.id }

instance abbrev pub HasId-approval : HasId Approval
HasId-approval = record { id_of = λ r. r.id }

instance abbrev pub HasId-workflow_run : HasId WorkflowRun
HasId-workflow_run = record { id_of = λ r. r.id }

instance abbrev pub HasId-domain_event : HasId DomainEvent
HasId-domain_event = record { id_of = λ r. r.id }
