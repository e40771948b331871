-- ===== src/Application/Orders.antt =====
-- src/commerce_operations/application/orders.py: marketplace orders from ingestion to their end.
pub mod Ledger
pub mod Changes
use cax_commerce_operations.Prelude.{
  ℕ, ◌+◌, ◌*◌, String, Bool, true, false, not, ◌&&◌, ◌||◌, Option, none, some, List, [], ◌∷◌, ◌++◌,
  ◌==◌, Eq-nat, Eq-string, any, contains, find, map, ltb, if◌then◌else◌,
}
use cax_commerce_operations.Errors.{Error, Result, ok, err}
use cax_commerce_operations.Persistence.Enums.{OrderStatus, RunStatus, Eq-order_status}
use cax_commerce_operations.Persistence.Keys.{Key, CorrelationId, WorkflowName}
use cax_commerce_operations.Persistence.Json.{Json, Object}
use cax_commerce_operations.Persistence.Tables.{get, put, add}
use cax_commerce_operations.Persistence.Models.{
  InventoryItem, Order, OrderItem, WorkflowRun, AuditEvent, HasId-order, HasId-workflow_run,
}
use cax_commerce_operations.Domains.Orders.{transition_order}
use cax_commerce_operations.Events.Types.{EventPayload}
use cax_commerce_operations.Events.Store.{emit}
use cax_commerce_operations.Application.Procurement.{run_of, save_workflow}
use cax_commerce_operations.Application.Reservations.{reserve, release_order, ship_order}
use cax_commerce_operations.Session.{Db, Action}
use cax_commerce_operations.Session.Actions.{
  pure, raise, gets, lift, or_raise, raise_if, modify, new_id, add_audit, ◌>>=◌, ◌>>◌,
}

-- The marketplace's command. Amounts are in ten-thousandths; pydantic has checked the fields.
pub record NormalizedOrderItem : Type 0 where
  pub external_line_id : String
  pub sku : String
  pub quantity : ℕ
  pub unit_price : ℕ
  pub tax_amount : ℕ
  pub discount_amount : ℕ

pub record NormalizedMarketplaceOrder : Type 0 where
  pub contract_version : ℕ
  pub marketplace : String
  pub marketplace_account_id : String
  pub external_order_id : String
  pub source_event_id : String
  pub status : OrderStatus
  pub currency : String
  pub total_amount : ℕ
  pub customer_reference : Option String
  pub shipping_details : Object
  pub ordered_at : ℕ
  pub items : List NormalizedOrderItem

-- `payload_hash` is the SHA-256 of the command's JSON text without the event id; `upper` is
-- Python's `str.upper`.
pub record OrderService : Type 0 where
  pub payload_hash : NormalizedMarketplaceOrder → ℕ
  pub upper : String → String

pub record OrderIngestionResult : Type 0 where
  pub order : Order
  pub duplicate : Bool

abbrev pub order_text : OrderStatus → String
order_text OrderStatus.pending = "pending"
order_text OrderStatus.paid = "paid"
order_text OrderStatus.processing = "processing"
order_text OrderStatus.dispatched = "dispatched"
order_text OrderStatus.delivered = "delivered"
order_text OrderStatus.cancelled = "cancelled"
order_text OrderStatus.returned = "returned"
order_text OrderStatus.refunded = "refunded"

abbrev has_repeats : List String → Bool
has_repeats [] = false
has_repeats (x ∷ t) = contains x t || has_repeats t

abbrev excessive : NormalizedOrderItem → Bool
excessive line = ltb (line.unit_price * line.quantity + line.tax_amount) line.discount_amount

-- `_validate`
unfoldable pub validate : NormalizedMarketplaceOrder → Result (Unit {0})
validate command =
    if not (contains command.status (OrderStatus.pending ∷ OrderStatus.paid ∷ []))
    then err Error.order_validation
    else if has_repeats (map (λ line. line.external_line_id) command.items)
    then err Error.order_validation
    else if any excessive command.items
    then err Error.order_validation
    else ok tt

-- `_audit`: an order without a workflow has no correlation id to read.
unfoldable pub audit_order :
    Order → String → String → Option OrderStatus → OrderStatus → String → Action (Unit {0})
unfolding add_audit
audit_order order action actor before after reason = do
  workflow ← (λ s. or_raise (run_of order.workflow_run_id s) Error.attribute_error s)
  add_audit (record {
    actor_type = if actor == "marketplace" then "system" else "user";
    actor_id = actor;
    action = action;
    resource_type = "order";
    resource_id = order.id;
    before_state = elim before [
      | none ↦ none
      | some status ↦ some (("status", Json.text (order_text status)) ∷ [])
    ];
    after_state = some (("status", Json.text (order_text after)) ∷ []);
    reason = some reason;
    correlation_id = workflow.correlation_id;
  })

abbrev same_source : NormalizedMarketplaceOrder → Order → Bool
same_source command o =
    o.marketplace == command.marketplace
    && o.marketplace_account_id == command.marketplace_account_id

-- The order that the command delivers again, if there is one.
abbrev pub delivered_order : NormalizedMarketplaceOrder → Db → Option Order
delivered_order command s =
    find (λ o. same_source command o && o.external_order_id == command.external_order_id) s.orders

abbrev pub event_order : NormalizedMarketplaceOrder → Db → Option Order
event_order command s =
    find (λ o. same_source command o && o.source_event_id == command.source_event_id) s.orders

abbrev order_correlation : NormalizedMarketplaceOrder → CorrelationId
order_correlation command =
    CorrelationId.of_name
      (Key.of_order command.marketplace command.marketplace_account_id command.external_order_id)

abbrev order_run : ℕ → ℕ → NormalizedMarketplaceOrder → WorkflowRun
order_run id now command = record {
  id = id;
  version = 1;
  workflow_name = WorkflowName.plain "marketplace-order-fulfilment";
  workflow_version = 1;
  correlation_id = order_correlation command;
  source_event_id = none;
  idempotency_key = none;
  status = RunStatus.running;
  current_step = some (if command.status == OrderStatus.paid then "paid" else "awaiting_payment");
  attempts = 0;
  next_retry_at = none;
  error = none;
  checkpoints = ("external_order_id", Json.text command.external_order_id) ∷ [];
  max_attempts = 3;
  timeout_seconds = 300;
  started_at = none;
  deadline_at = none;
  completed_at = none;
  waiting_approval_id = none;
  cost_amount = 0;
  cost_currency = none;
  created_at = now;
}

abbrev new_order : OrderService → ℕ → ℕ → ℕ → NormalizedMarketplaceOrder → Order
new_order service id run now command = record {
  id = id;
  version = 1;
  workflow_run_id = some run;
  marketplace = command.marketplace;
  marketplace_account_id = command.marketplace_account_id;
  external_order_id = command.external_order_id;
  source_event_id = command.source_event_id;
  source_payload_hash = service.payload_hash command;
  status = command.status;
  currency = service.upper command.currency;
  total_amount = command.total_amount;
  customer_reference = command.customer_reference;
  ordered_at = command.ordered_at;
  paid_at = if command.status == OrderStatus.paid then some now else none;
  dispatched_at = none;
  delivered_at = none;
  items = [];
}

abbrev new_line : ℕ → ℕ → Order → NormalizedOrderItem → OrderItem
new_line id inventory_item_id order line = record {
  id = id;
  inventory_item_id = inventory_item_id;
  external_line_id = line.external_line_id;
  sku = line.sku;
  quantity = line.quantity;
  unit_price = line.unit_price;
  tax_amount = line.tax_amount;
  discount_amount = line.discount_amount;
  reservation_reference = some (Key.of_part "order" order.id line.external_line_id);
}

-- The loop of `ingest`: reserves every line, and returns the items of the order.
unfoldable pub reserve_lines :
    Order → CorrelationId → List NormalizedOrderItem → Action (List OrderItem)
unfolding new_id
reserve_lines order correlation_id [] = pure []
reserve_lines order correlation_id (line ∷ lines) = do
  item ← reserve line.sku line.quantity order line.external_line_id correlation_id
  id ← new_id
  rest ← reserve_lines order correlation_id lines
  pure (new_line id item.id order line ∷ rest)

abbrev pub write_order : Order → Action (Unit {0})
write_order o = modify (λ s. record s { orders = put o s.orders })

-- The workflow and the order without its items, as `ingest` adds them first.
unfoldable pub open_order : OrderService → NormalizedMarketplaceOrder → Action Order
unfolding new_id
open_order service command = do
  run ← new_id
  now ← gets (λ s. s.clock)
  modify (λ s. record s { workflows = add (order_run run now command) s.workflows })
  id ← new_id
  let order = new_order service id run now command
  modify (λ s. record s { orders = add order s.orders })
  pure order

-- The end of `ingest`, once every line is reserved.
unfoldable pub finish_ingest :
    NormalizedMarketplaceOrder → Order → List OrderItem → Action OrderIngestionResult
finish_ingest command empty items = do
  let order = record empty { items = items }
  write_order order
  emit (EventPayload.order_received order.id order.marketplace order.external_order_id) "order"
      order.id order.version (order_correlation command) order.workflow_run_id
      (Key.of_id "order-received" order.id)
  audit_order order "order.received" "marketplace" none order.status "Marketplace order ingestion"
  pure (record { order = order; duplicate = false })

-- The part of `ingest` after the checks.
unfoldable pub ingest_new : OrderService → NormalizedMarketplaceOrder → Action OrderIngestionResult
unfolding open_order finish_ingest
ingest_new service command = do
  empty ← open_order service command
  items ← reserve_lines empty (order_correlation command) command.items
  finish_ingest command empty items

-- `OrderService.ingest`
unfoldable pub ingest : OrderService → NormalizedMarketplaceOrder → Action OrderIngestionResult
ingest service command = do
  existing ← gets (delivered_order command)
  reused ← gets (event_order command)
  elim existing [
    | some order ↦
        if not (order.source_payload_hash == service.payload_hash command)
        then raise Error.order_idempotency_conflict
        else pure (record { order = order; duplicate = true })
    | none ↦ elim reused [
      | some _ ↦ raise Error.order_idempotency_conflict
      | none ↦ lift (validate command) >> ingest_new service command
    ]
  ]
