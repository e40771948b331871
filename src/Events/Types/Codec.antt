-- ===== src/Events/Types/Codec.antt =====
-- src/commerce_operations/events/types.py: the JSON form of a payload (`model_dump`) and back
-- (`decode_payload`). pydantic makes both from the declared fields and constraints, as it documents;
-- ids and amounts are left as they are in place of their texts.
use mathlib.Core.Option
use cax_commerce_operations.Prelude.{
  ℕ, String, Bool, true, ◌&&◌, Option, none, some, List, [], ◌∷◌, contains, Eq-string,
  if◌then◌else◌,
}
use cax_commerce_operations.Prelude.Int.{ℤ}
use cax_commerce_operations.Errors.{Error, Result, ok, err}
use cax_commerce_operations.Persistence.Json.{Json, Object, field}
use cax_commerce_operations.Events.Types.{EventType, EventPayload, is_valid}

abbrev text_or_null : Option String → Json
text_or_null none = Json.null
text_or_null (some s) = Json.text s

abbrev ident_or_null : Option ℕ → Json
ident_or_null none = Json.null
ident_or_null (some i) = Json.ident i

unfoldable pub model_dump : EventPayload → Object
model_dump
      (EventPayload.product_approved product_id source_product_id source_workflow_run_id
        procurement_request_id) =
    ("product_id", Json.ident product_id)
    ∷ ("source_product_id", Json.text source_product_id)
    ∷ ("source_workflow_run_id", text_or_null source_workflow_run_id)
    ∷ ("procurement_request_id", ident_or_null procurement_request_id)
    ∷ []
model_dump (EventPayload.procurement_requested procurement_request_id product_id quantity) =
    ("procurement_request_id", Json.ident procurement_request_id)
    ∷ ("product_id", Json.ident product_id)
    ∷ ("quantity", Json.int quantity)
    ∷ []
model_dump
      (EventPayload.procurement_status_changed procurement_request_id previous_status current_status
        actor) =
    ("procurement_request_id", Json.ident procurement_request_id)
    ∷ ("previous_status", Json.text previous_status)
    ∷ ("current_status", Json.text current_status)
    ∷ ("actor", Json.text actor)
    ∷ []
model_dump (EventPayload.purchase_approved procurement_request_id approval_id) =
    ("procurement_request_id", Json.ident procurement_request_id)
    ∷ ("approval_id", Json.ident approval_id)
    ∷ []
model_dump
      (EventPayload.purchase_order_created purchase_order_id procurement_request_id po_number) =
    ("purchase_order_id", Json.ident purchase_order_id)
    ∷ ("procurement_request_id", Json.ident procurement_request_id)
    ∷ ("po_number", Json.text po_number)
    ∷ []
model_dump (EventPayload.stock_received inventory_item_id purchase_order_id quantity) =
    ("inventory_item_id", Json.ident inventory_item_id)
    ∷ ("purchase_order_id", Json.ident purchase_order_id)
    ∷ ("quantity", Json.int quantity)
    ∷ []
model_dump
      (EventPayload.inventory_changed inventory_item_id quantity_delta quantity_on_hand
        reserved_quantity) =
    ("inventory_item_id", Json.ident inventory_item_id)
    ∷ ("quantity_delta", Json.int quantity_delta)
    ∷ ("quantity_on_hand", Json.int quantity_on_hand)
    ∷ ("reserved_quantity", Json.int reserved_quantity)
    ∷ []
model_dump
      (EventPayload.listing_draft_created listing_draft_id inventory_item_id marketplace
        listing_version) =
    ("listing_draft_id", Json.ident listing_draft_id)
    ∷ ("inventory_item_id", Json.ident inventory_item_id)
    ∷ ("marketplace", Json.text marketplace)
    ∷ ("listing_version", Json.int listing_version)
    ∷ []
model_dump
      (EventPayload.listing_validation_failed listing_draft_id inventory_item_id marketplace
        error_count) =
    ("listing_draft_id", Json.ident listing_draft_id)
    ∷ ("inventory_item_id", Json.ident inventory_item_id)
    ∷ ("marketplace", Json.text marketplace)
    ∷ ("error_count", Json.int error_count)
    ∷ []
model_dump (EventPayload.listing_approved listing_draft_id approval_id) =
    ("listing_draft_id", Json.ident listing_draft_id) ∷ ("approval_id", Json.ident approval_id) ∷ []
model_dump
      (EventPayload.listing_published marketplace_listing_id listing_draft_id external_listing_id) =
    ("marketplace_listing_id", Json.ident marketplace_listing_id)
    ∷ ("listing_draft_id", Json.ident listing_draft_id)
    ∷ ("external_listing_id", Json.text external_listing_id)
    ∷ []
model_dump (EventPayload.order_received order_id marketplace external_order_id) =
    ("order_id", Json.ident order_id)
    ∷ ("marketplace", Json.text marketplace)
    ∷ ("external_order_id", Json.text external_order_id)
    ∷ []
model_dump (EventPayload.order_cancelled order_id reason) =
    ("order_id", Json.ident order_id) ∷ ("reason", text_or_null reason) ∷ []
model_dump (EventPayload.order_returned order_id return_id quantity) =
    ("order_id", Json.ident order_id)
    ∷ ("return_id", Json.ident return_id)
    ∷ ("quantity", Json.int quantity)
    ∷ []
model_dump (EventPayload.low_stock inventory_item_id sku available_quantity threshold) =
    ("inventory_item_id", Json.ident inventory_item_id)
    ∷ ("sku", Json.text sku)
    ∷ ("available_quantity", Json.int available_quantity)
    ∷ ("threshold", Json.int threshold)
    ∷ []
model_dump (EventPayload.customer_message_received conversation_id message_id channel) =
    ("conversation_id", Json.ident conversation_id)
    ∷ ("message_id", Json.ident message_id)
    ∷ ("channel", Json.text channel)
    ∷ []
model_dump (EventPayload.refund_requested refund_id order_id amount currency) =
    ("refund_id", Json.ident refund_id)
    ∷ ("order_id", Json.ident order_id)
    ∷ ("amount", Json.amount amount)
    ∷ ("currency", Json.text currency)
    ∷ []
model_dump (EventPayload.workflow_failed failed_workflow_id workflow_name reason retryable) =
    ("failed_workflow_id", Json.ident failed_workflow_id)
    ∷ ("workflow_name", Json.text workflow_name)
    ∷ ("reason", Json.text reason)
    ∷ ("retryable", Json.flag retryable)
    ∷ []

-- Readers of one field. A field of another kind is refused; an optional one may be missing.
abbrev as_ident : Json → Option ℕ
as_ident (Json.ident i) = some i
as_ident _ = none

abbrev as_text : Json → Option String
as_text (Json.text s) = some s
as_text _ = none

abbrev as_int : Json → Option ℤ
as_int (Json.int n) = some n
as_int _ = none

abbrev as_amount : Json → Option ℤ
as_amount (Json.amount n) = some n
as_amount _ = none

abbrev as_flag : Json → Option Bool
as_flag (Json.flag b) = some b
as_flag _ = none

abbrev optional : {A : Type 0} → (Json → Option A) → Option Json → Option (Option A)
optional read none = some none
optional read (some Json.null) = some none
optional read (some j) = Option.map some (read j)

infixl 5 ◌>>=◌
abbrev ◌>>=◌ : {A B : Type 0} → Option A → (A → Option B) → Option B
none >>= f = none
some a >>= f = f a

abbrev required : {A : Type 0} → (Json → Option A) → Option Json → Option A
required read j = j >>= read

read_payload : EventType → Object → Option EventPayload
read_payload EventType.product_approved o = do
  product_id ← required as_ident (field "product_id" o)
  source_product_id ← required as_text (field "source_product_id" o)
  source_workflow_run_id ← optional as_text (field "source_workflow_run_id" o)
  procurement_request_id ← optional as_ident (field "procurement_request_id" o)
  some (
      EventPayload.product_approved product_id source_product_id source_workflow_run_id
        procurement_request_id)
read_payload EventType.procurement_requested o = do
  procurement_request_id ← required as_ident (field "procurement_request_id" o)
  product_id ← required as_ident (field "product_id" o)
  quantity ← required as_int (field "quantity" o)
  some (EventPayload.procurement_requested procurement_request_id product_id quantity)
read_payload EventType.procurement_status_changed o = do
  procurement_request_id ← required as_ident (field "procurement_request_id" o)
  previous_status ← required as_text (field "previous_status" o)
  current_status ← required as_text (field "current_status" o)
  actor ← required as_text (field "actor" o)
  some (
      EventPayload.procurement_status_changed procurement_request_id previous_status current_status
        actor)
read_payload EventType.purchase_approved o = do
  procurement_request_id ← required as_ident (field "procurement_request_id" o)
  approval_id ← required as_ident (field "approval_id" o)
  some (EventPayload.purchase_approved procurement_request_id approval_id)
read_payload EventType.purchase_order_created o = do
  purchase_order_id ← required as_ident (field "purchase_order_id" o)
  procurement_request_id ← required as_ident (field "procurement_request_id" o)
  po_number ← required as_text (field "po_number" o)
  some (EventPayload.purchase_order_created purchase_order_id procurement_request_id po_number)
read_payload EventType.stock_received o = do
  inventory_item_id ← required as_ident (field "inventory_item_id" o)
  purchase_order_id ← required as_ident (field "purchase_order_id" o)
  quantity ← required as_int (field "quantity" o)
  some (EventPayload.stock_received inventory_item_id purchase_order_id quantity)
read_payload EventType.inventory_changed o = do
  inventory_item_id ← required as_ident (field "inventory_item_id" o)
  quantity_delta ← required as_int (field "quantity_delta" o)
  quantity_on_hand ← required as_int (field "quantity_on_hand" o)
  reserved_quantity ← required as_int (field "reserved_quantity" o)
  some (
      EventPayload.inventory_changed inventory_item_id quantity_delta quantity_on_hand
        reserved_quantity)
read_payload EventType.listing_draft_created o = do
  listing_draft_id ← required as_ident (field "listing_draft_id" o)
  inventory_item_id ← required as_ident (field "inventory_item_id" o)
  marketplace ← required as_text (field "marketplace" o)
  listing_version ← required as_int (field "listing_version" o)
  some (
      EventPayload.listing_draft_created listing_draft_id inventory_item_id marketplace
        listing_version)
read_payload EventType.listing_validation_failed o = do
  listing_draft_id ← required as_ident (field "listing_draft_id" o)
  inventory_item_id ← required as_ident (field "inventory_item_id" o)
  marketplace ← required as_text (field "marketplace" o)
  error_count ← required as_int (field "error_count" o)
  some (
      EventPayload.listing_validation_failed listing_draft_id inventory_item_id marketplace
        error_count)
read_payload EventType.listing_approved o = do
  listing_draft_id ← required as_ident (field "listing_draft_id" o)
  approval_id ← required as_ident (field "approval_id" o)
  some (EventPayload.listing_approved listing_draft_id approval_id)
read_payload EventType.listing_published o = do
  marketplace_listing_id ← required as_ident (field "marketplace_listing_id" o)
  listing_draft_id ← required as_ident (field "listing_draft_id" o)
  external_listing_id ← required as_text (field "external_listing_id" o)
  some (EventPayload.listing_published marketplace_listing_id listing_draft_id external_listing_id)
read_payload EventType.order_received o = do
  order_id ← required as_ident (field "order_id" o)
  marketplace ← required as_text (field "marketplace" o)
  external_order_id ← required as_text (field "external_order_id" o)
  some (EventPayload.order_received order_id marketplace external_order_id)
read_payload EventType.order_cancelled o = do
  order_id ← required as_ident (field "order_id" o)
  reason ← optional as_text (field "reason" o)
  some (EventPayload.order_cancelled order_id reason)
read_payload EventType.order_returned o = do
  order_id ← required as_ident (field "order_id" o)
  return_id ← required as_ident (field "return_id" o)
  quantity ← required as_int (field "quantity" o)
  some (EventPayload.order_returned order_id return_id quantity)
read_payload EventType.low_stock o = do
  inventory_item_id ← required as_ident (field "inventory_item_id" o)
  sku ← required as_text (field "sku" o)
  available_quantity ← required as_int (field "available_quantity" o)
  threshold ← required as_int (field "threshold" o)
  some (EventPayload.low_stock inventory_item_id sku available_quantity threshold)
read_payload EventType.customer_message_received o = do
  conversation_id ← required as_ident (field "conversation_id" o)
  message_id ← required as_ident (field "message_id" o)
  channel ← required as_text (field "channel" o)
  some (EventPayload.customer_message_received conversation_id message_id channel)
read_payload EventType.refund_requested o = do
  refund_id ← required as_ident (field "refund_id" o)
  order_id ← required as_ident (field "order_id" o)
  amount ← required as_amount (field "amount" o)
  currency ← required as_text (field "currency" o)
  some (EventPayload.refund_requested refund_id order_id amount currency)
read_payload EventType.workflow_failed o = do
  failed_workflow_id ← required as_ident (field "failed_workflow_id" o)
  workflow_name ← required as_text (field "workflow_name" o)
  reason ← required as_text (field "reason" o)
  retryable ← required as_flag (field "retryable" o)
  some (EventPayload.workflow_failed failed_workflow_id workflow_name reason retryable)

-- `extra="forbid"`: no field beside those of the class.
abbrev known : EventType → List String
known EventType.product_approved =
    "product_id" ∷ "source_product_id" ∷ "source_workflow_run_id" ∷ "procurement_request_id" ∷ []
known EventType.procurement_requested = "procurement_request_id" ∷ "product_id" ∷ "quantity" ∷ []
known EventType.procurement_status_changed =
    "procurement_request_id" ∷ "previous_status" ∷ "current_status" ∷ "actor" ∷ []
known EventType.purchase_approved = "procurement_request_id" ∷ "approval_id" ∷ []
known EventType.purchase_order_created =
    "purchase_order_id" ∷ "procurement_request_id" ∷ "po_number" ∷ []
known EventType.stock_received = "inventory_item_id" ∷ "purchase_order_id" ∷ "quantity" ∷ []
known EventType.inventory_changed =
    "inventory_item_id" ∷ "quantity_delta" ∷ "quantity_on_hand" ∷ "reserved_quantity" ∷ []
known EventType.listing_draft_created =
    "listing_draft_id" ∷ "inventory_item_id" ∷ "marketplace" ∷ "listing_version" ∷ []
known EventType.listing_validation_failed =
    "listing_draft_id" ∷ "inventory_item_id" ∷ "marketplace" ∷ "error_count" ∷ []
known EventType.listing_approved = "listing_draft_id" ∷ "approval_id" ∷ []
known EventType.listing_published =
    "marketplace_listing_id" ∷ "listing_draft_id" ∷ "external_listing_id" ∷ []
known EventType.order_received = "order_id" ∷ "marketplace" ∷ "external_order_id" ∷ []
known EventType.order_cancelled = "order_id" ∷ "reason" ∷ []
known EventType.order_returned = "order_id" ∷ "return_id" ∷ "quantity" ∷ []
known EventType.low_stock = "inventory_item_id" ∷ "sku" ∷ "available_quantity" ∷ "threshold" ∷ []
known EventType.customer_message_received = "conversation_id" ∷ "message_id" ∷ "channel" ∷ []
known EventType.refund_requested = "refund_id" ∷ "order_id" ∷ "amount" ∷ "currency" ∷ []
known EventType.workflow_failed =
    "failed_workflow_id" ∷ "workflow_name" ∷ "reason" ∷ "retryable" ∷ []

abbrev only_known : List String → Object → Bool
only_known names [] = true
only_known names ((k, _) ∷ o) = contains k names && only_known names o

abbrev check : Option EventPayload → Result EventPayload
check none = err Error.validation_error
check (some p) = if is_valid p then ok p else err Error.validation_error

unfoldable pub decode_payload : EventType → Object → Result EventPayload
unfolding read_payload
decode_payload event_type o =
    if only_known (known event_type) o
    then check (read_payload event_type o)
    else err Error.validation_error
