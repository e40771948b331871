-- ===== src/Events/Types.antt =====
-- src/commerce_operations/events/types.py: event types, payloads and their JSON form.
pub mod Codec
pub mod RoundTrip
use Prim.Native.String.{◌∷◌ as cons, [] as empty_text}
use cax_commerce_operations.Prelude.{
  ℕ, suc, String, ◌≡◌, ◌↔◌, Bool, true, false, ◌&&◌, Option, arith, Eq, nat_eq,
}
use cax_commerce_operations.Prelude.Int.{ℤ, pos, ltb_ℤ, leb_ℤ}
use cax_commerce_operations.Errors.{Error, Result, ok, err}

pub data EventType : Type 0 where
  product_approved procurement_requested procurement_status_changed purchase_approved
        purchase_order_created stock_received inventory_changed listing_draft_created
        listing_validation_failed listing_approved listing_published order_received order_cancelled
        order_returned low_stock customer_message_received refund_requested workflow_failed :
      EventType

-- The payload classes, with their fields in order. An optional field is None or a value.
pub data EventPayload : Type 0 where
  product_approved :
      (product_id : ℕ)
      → (source_product_id : String) → (source_workflow_run_id : Option String)
      → (procurement_request_id : Option ℕ) → EventPayload
  procurement_requested :
      (procurement_request_id : ℕ) → (product_id : ℕ) → (quantity : ℤ) → EventPayload
  procurement_status_changed :
      (procurement_request_id : ℕ)
      → (previous_status : String) → (current_status : String) → (actor : String) → EventPayload
  purchase_approved : (procurement_request_id : ℕ) → (approval_id : ℕ) → EventPayload
  purchase_order_created :
      (purchase_order_id : ℕ) → (procurement_request_id : ℕ) → (po_number : String) → EventPayload
  stock_received : (inventory_item_id : ℕ) → (purchase_order_id : ℕ) → (quantity : ℤ) → EventPayload
  inventory_changed :
      (inventory_item_id : ℕ)
      → (quantity_delta : ℤ) → (quantity_on_hand : ℤ) → (reserved_quantity : ℤ) → EventPayload
  listing_draft_created :
      (listing_draft_id : ℕ)
      → (inventory_item_id : ℕ) → (marketplace : String) → (listing_version : ℤ) → EventPayload
  listing_validation_failed :
      (listing_draft_id : ℕ)
      → (inventory_item_id : ℕ) → (marketplace : String) → (error_count : ℤ) → EventPayload
  listing_approved : (listing_draft_id : ℕ) → (approval_id : ℕ) → EventPayload
  listing_published :
      (marketplace_listing_id : ℕ)
      → (listing_draft_id : ℕ) → (external_listing_id : String) → EventPayload
  order_received :
      (order_id : ℕ) → (marketplace : String) → (external_order_id : String) → EventPayload
  order_cancelled : (order_id : ℕ) → (reason : Option String) → EventPayload
  order_returned : (order_id : ℕ) → (return_id : ℕ) → (quantity : ℤ) → EventPayload
  low_stock :
      (inventory_item_id : ℕ)
      → (sku : String) → (available_quantity : ℤ) → (threshold : ℤ) → EventPayload
  customer_message_received :
      (conversation_id : ℕ) → (message_id : ℕ) → (channel : String) → EventPayload
  refund_requested :
      (refund_id : ℕ) → (order_id : ℕ) → (amount : ℤ) → (currency : String) → EventPayload
  workflow_failed :
      (failed_workflow_id : ℕ)
      → (workflow_name : String) → (reason : String) → (retryable : Bool) → EventPayload

abbrev pub event_type_code : EventType → ℕ
event_type_code EventType.product_approved = 0
event_type_code EventType.procurement_requested = 1
event_type_code EventType.procurement_status_changed = 2
event_type_code EventType.purchase_approved = 3
event_type_code EventType.purchase_order_created = 4
event_type_code EventType.stock_received = 5
event_type_code EventType.inventory_changed = 6
event_type_code EventType.listing_draft_created = 7
event_type_code EventType.listing_validation_failed = 8
event_type_code EventType.listing_approved = 9
event_type_code EventType.listing_published = 10
event_type_code EventType.order_received = 11
event_type_code EventType.order_cancelled = 12
event_type_code EventType.order_returned = 13
event_type_code EventType.low_stock = 14
event_type_code EventType.customer_message_received = 15
event_type_code EventType.refund_requested = 16
event_type_code EventType.workflow_failed = 17

pub event_type_eq_iff :
    (a b : EventType) → (nat_eq (event_type_code a) (event_type_code b) ≡ true) ↔ (a ≡ b)
event_type_eq_iff a b = ground arith

instance abbrev pub Eq-event_type : Eq EventType
Eq-event_type = record {
  beq = λ a b. nat_eq (event_type_code a) (event_type_code b);
  beq_iff = event_type_eq_iff;
}

-- EVENT_TYPES_BY_PAYLOAD: every payload class is registered under one event type.
abbrev pub event_type_of : EventPayload → EventType
event_type_of (EventPayload.product_approved _ _ _ _) = EventType.product_approved
event_type_of (EventPayload.procurement_requested _ _ _) = EventType.procurement_requested
event_type_of (EventPayload.procurement_status_changed _ _ _ _) =
    EventType.procurement_status_changed
event_type_of (EventPayload.purchase_approved _ _) = EventType.purchase_approved
event_type_of (EventPayload.purchase_order_created _ _ _) = EventType.purchase_order_created
event_type_of (EventPayload.stock_received _ _ _) = EventType.stock_received
event_type_of (EventPayload.inventory_changed _ _ _ _) = EventType.inventory_changed
event_type_of (EventPayload.listing_draft_created _ _ _ _) = EventType.listing_draft_created
event_type_of (EventPayload.listing_validation_failed _ _ _ _) = EventType.listing_validation_failed
event_type_of (EventPayload.listing_approved _ _) = EventType.listing_approved
event_type_of (EventPayload.listing_published _ _ _) = EventType.listing_published
event_type_of (EventPayload.order_received _ _ _) = EventType.order_received
event_type_of (EventPayload.order_cancelled _ _) = EventType.order_cancelled
event_type_of (EventPayload.order_returned _ _ _) = EventType.order_returned
event_type_of (EventPayload.low_stock _ _ _ _) = EventType.low_stock
event_type_of (EventPayload.customer_message_received _ _ _) = EventType.customer_message_received
event_type_of (EventPayload.refund_requested _ _ _ _) = EventType.refund_requested
event_type_of (EventPayload.workflow_failed _ _ _ _) = EventType.workflow_failed

abbrev pub text_length : String → ℕ
text_length empty_text = 0
text_length (cons c s) = suc (text_length s)

-- The `Field` constraints of the payload classes.
abbrev pub is_valid : EventPayload → Bool
is_valid (EventPayload.procurement_requested _ _ quantity) = ltb_ℤ (pos 0) quantity
is_valid (EventPayload.stock_received _ _ quantity) = ltb_ℤ (pos 0) quantity
is_valid (EventPayload.inventory_changed _ _ quantity_on_hand reserved_quantity) =
    leb_ℤ (pos 0) quantity_on_hand && leb_ℤ (pos 0) reserved_quantity
is_valid (EventPayload.listing_draft_created _ _ _ listing_version) = ltb_ℤ (pos 0) listing_version
is_valid (EventPayload.listing_validation_failed _ _ _ error_count) = ltb_ℤ (pos 0) error_count
is_valid (EventPayload.order_returned _ _ quantity) = ltb_ℤ (pos 0) quantity
is_valid (EventPayload.low_stock _ _ available_quantity threshold) =
    leb_ℤ (pos 0) available_quantity && leb_ℤ (pos 0) threshold
is_valid (EventPayload.refund_requested _ _ amount currency) =
    ltb_ℤ (pos 0) amount && nat_eq (text_length currency) 3
is_valid _ = true
