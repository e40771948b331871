-- ===== src/Integrations/Products.antt =====
-- src/commerce_operations/integrations/repository_1/service.py: products that another system approved
-- become products, quotes and procurement requests of this one.
pub mod Again
use cax_commerce_operations.Prelude.{
  ℕ, ◌+◌, ◌*◌, String, Bool, true, false, not, ◌&&◌, ◌||◌, Option, none, some, List, [], ◌∷◌, ◌==◌,
  Eq-nat, Eq-string, any, find, if◌then◌else◌,
}
use cax_commerce_operations.Errors.{Error, Result, ok, err}
use cax_commerce_operations.Persistence.Enums.{ProcurementStatus, RunStatus}
use cax_commerce_operations.Persistence.Keys.{
  Key, CorrelationId, WorkflowName, Eq-key, correlation_eq, name_eq,
}
use cax_commerce_operations.Persistence.Json.{Json, Object}
use cax_commerce_operations.Persistence.Tables.{get, add}
use cax_commerce_operations.Persistence.Models.{
  SupplierQuote, ProcurementRequest, WorkflowRun, DomainEvent, HasId-workflow_run,
}
use cax_commerce_operations.Persistence.Catalog.{Product, ProductStatus, Supplier, SupplierStatus}
use cax_commerce_operations.Integrations.Contracts.{ApprovedProductRequestV1}
use cax_commerce_operations.Events.Types.{EventPayload}
use cax_commerce_operations.Events.Store.{EventEnvelope, create_event, publish}
use cax_commerce_operations.Session.{Db, Action}
use cax_commerce_operations.Session.Actions.{
  pure, raise, gets, or_raise, raise_if, modify, new_id, ◌>>=◌, ◌>>◌,
}

pub record IngestionIdentity : Type 0 where
  pub source_system : String
  pub source_product_id : String

-- `payload_hash` is the SHA-256 of the request's canonical JSON text.
pub record IngestionService : Type 0 where
  pub payload_hash : ApprovedProductRequestV1 → ℕ

pub record ApprovedProductResponseV1 : Type 0 where
  pub product_id : ℕ
  pub procurement_request_id : ℕ
  pub workflow_run_id : ℕ
  pub event_id : ℕ
  pub correlation_id : CorrelationId
  pub procurement_status : ProcurementStatus
  pub duplicate : Bool

abbrev pub identity_of : ApprovedProductRequestV1 → IngestionIdentity
identity_of r = record { source_system = r.source_system; source_product_id = r.source_product_id }

abbrev pub of_identity : IngestionIdentity → Product → Bool
of_identity i p = p.source_system == i.source_system && p.external_product_id == i.source_product_id

-- `_find_product`
abbrev pub find_product : IngestionIdentity → Db → Option Product
find_product i s = find (of_identity i) s.products

-- `_event_idempotency_key`
abbrev pub event_key : IngestionIdentity → Key
event_key i = Key.of_product "product-approved" i.source_system i.source_product_id

-- `_correlation_id`
abbrev pub correlation_id : IngestionIdentity → String → CorrelationId
correlation_id i run = CorrelationId.of_name (Key.of_source i.source_system i.source_product_id run)

-- `_response`
abbrev pub response :
    Product → ProcurementRequest → WorkflowRun → DomainEvent → Bool → ApprovedProductResponseV1
response product procurement workflow event duplicate = record {
  product_id = product.id;
  procurement_request_id = procurement.id;
  workflow_run_id = workflow.id;
  event_id = event.id;
  correlation_id = workflow.correlation_id;
  procurement_status = procurement.status;
  duplicate = duplicate;
}

abbrev pub procurement_of : ℕ → Db → Option ProcurementRequest
procurement_of product_id s = find (λ q. q.product_id == product_id) s.requests

abbrev pub event_of : IngestionIdentity → Db → Option DomainEvent
event_of i s = find (λ e. e.idempotency_key == event_key i) s.events

abbrev pub stored_identity : Product → IngestionIdentity
stored_identity p = record {
  source_system = p.source_system;
  source_product_id = p.external_product_id;
}

abbrev pub run_by_id : Option ℕ → Db → Option WorkflowRun
run_by_id none s = none
run_by_id (some id) s = get id s.workflows

-- `_existing_response`
unfoldable pub existing_response : Product → ℕ → Action ApprovedProductResponseV1
existing_response product hash = do
  raise_if (not (product.source_payload_hash == hash)) Error.approved_product_conflict
  procurement ← (λ s. or_raise (procurement_of product.id s) Error.approved_product_conflict s)
  event ← (λ s. or_raise (event_of (stored_identity product) s) Error.approved_product_conflict s)
  workflow ←
      (λ s. or_raise (run_by_id procurement.workflow_run_id s) Error.approved_product_conflict s)
  pure (response product procurement workflow event true)

abbrev pub new_product : ℕ → ℕ → ApprovedProductRequestV1 → Product
new_product id hash r = record {
  id = id;
  version = 1;
  source_system = r.source_system;
  external_product_id = r.source_product_id;
  source_workflow_run_id = r.source_workflow_run_id;
  source_recommendation_id = r.source_recommendation_id;
  source_payload_hash = hash;
  name = r.product.name;
  brand = r.product.brand;
  identifiers = r.product.identifiers;
  attributes = r.product.attributes;
  recommendation_evidence = r.recommendation.evidence;
  status = ProductStatus.approved;
}

abbrev known_supplier : ApprovedProductRequestV1 → Db → Option Supplier
known_supplier r s =
    find
      (λ x.
        x.source_system == r.source_system
        && x.external_supplier_id == r.selected_supplier.source_supplier_id)
      s.suppliers

abbrev new_supplier : ℕ → ApprovedProductRequestV1 → Supplier
new_supplier id r = record {
  id = id;
  source_system = r.source_system;
  external_supplier_id = r.selected_supplier.source_supplier_id;
  name = r.selected_supplier.name;
  contact_details = r.selected_supplier.contact_details;
  terms = r.selected_supplier.terms;
  status = SupplierStatus.active;
}

-- The supplier of the quote, added if it is not known.
unfoldable pub find_or_add_supplier : ApprovedProductRequestV1 → Option Supplier → Action Supplier
unfolding new_id
find_or_add_supplier r (some supplier) = pure supplier
find_or_add_supplier r none = do
  id ← new_id
  let supplier = new_supplier id r
  modify (λ s. record s { suppliers = add supplier s.suppliers })
  pure supplier

abbrev pub new_quote : ℕ → ℕ → ℕ → ApprovedProductRequestV1 → SupplierQuote
new_quote id product_id supplier_id r = record {
  id = id;
  product_id = product_id;
  supplier_id = supplier_id;
  external_quote_id = r.supplier_quote.source_quote_id;
  currency = r.supplier_quote.currency;
  moq = r.supplier_quote.moq;
  quantity = r.supplier_quote.quantity;
  unit_cost = r.supplier_quote.unit_cost;
  shipping_cost = r.supplier_quote.shipping_cost;
  lead_time_days = r.supplier_quote.lead_time_days;
  valid_until = r.supplier_quote.valid_until;
  source_reference = r.supplier_quote.source_reference;
}

abbrev pub new_workflow : ℕ → ℕ → String → ApprovedProductRequestV1 → WorkflowRun
new_workflow id now key r = record {
  id = id;
  version = 1;
  workflow_name = WorkflowName.plain "approved-product-procurement";
  workflow_version = 1;
  correlation_id = correlation_id (identity_of r) r.source_workflow_run_id;
  source_event_id = none;
  idempotency_key = none;
  status = RunStatus.pending;
  current_step = some "procurement_requested";
  attempts = 0;
  next_retry_at = none;
  error = none;
  checkpoints =
      ("source_system", Json.text r.source_system)
      ∷ ("source_workflow_run_id", Json.text r.source_workflow_run_id)
      ∷ ("source_recommendation_id", Json.text r.source_recommendation_id)
      ∷ ("request_idempotency_key", Json.text key)
      ∷ [];
  max_attempts = 3;
  timeout_seconds = 300;
  started_at = none;
  deadline_at = none;
  completed_at = none;
  waiting_approval_id = none;
  cost_amount = 0;
  cost_currency = none;
  created_at = now;
}

abbrev same_quote : SupplierQuote → SupplierQuote → Bool
same_quote q x = x.supplier_id == q.supplier_id && x.external_quote_id == q.external_quote_id

abbrev same_run : WorkflowRun → WorkflowRun → Bool
same_run w x =
    name_eq x.workflow_name w.workflow_name && correlation_eq x.correlation_id w.correlation_id

-- The quote and the workflow, which one flush writes: the database checks
-- UniqueConstraint("supplier_id", "external_quote_id") and
-- UniqueConstraint("workflow_name", "correlation_id").
unfoldable pub add_quote_and_workflow : SupplierQuote → WorkflowRun → Action (Unit {0})
add_quote_and_workflow quote workflow s =
    if any (same_quote quote) s.quotes || any (same_run workflow) s.workflows
    then (err Error.integrity_error, s)
    else (ok tt, record s { quotes = add quote s.quotes; workflows = add workflow s.workflows })

abbrev pub new_procurement : ℕ → ℕ → ℕ → ℕ → ℕ → ApprovedProductRequestV1 → ProcurementRequest
new_procurement id now product_id quote_id workflow_id r = record {
  id = id;
  version = 1;
  product_id = product_id;
  selected_quote_id = quote_id;
  workflow_run_id = some workflow_id;
  requested_quantity = r.supplier_quote.quantity;
  estimated_landed_cost = r.economics.estimated_landed_cost_per_unit;
  currency = r.supplier_quote.currency;
  recommendation_context =
      some (record { economics = r.economics; recommendation = r.recommendation });
  expected_arrival_at = some (now + r.supplier_quote.lead_time_days * 86400);
  status = ProcurementStatus.proposed;
}

-- The event that announces the product.
unfoldable pub announce :
    ApprovedProductRequestV1 → Product → ProcurementRequest → WorkflowRun → Action DomainEvent
announce r product procurement workflow = do
  event ←
      create_event
        (EventPayload.product_approved product.id r.source_product_id
          (some r.source_workflow_run_id) (some procurement.id))
        "product" product.id product.version
        (correlation_id (identity_of r) r.source_workflow_run_id) (some workflow.id)
        (event_key (identity_of r))
  publish event

-- The rows of a product that is not known yet, in the order in which `ingest` adds them.
unfoldable pub add_rows :
    ℕ → ApprovedProductRequestV1 → String → Action (Product × ProcurementRequest × WorkflowRun)
unfolding new_id find_or_add_supplier add_quote_and_workflow
add_rows hash r key = do
  product_id ← new_id
  now ← gets (λ s. s.clock)
  let product = new_product product_id hash r
  modify (λ s. record s { products = add product s.products })
  known ← gets (known_supplier r)
  supplier ← find_or_add_supplier r known
  quote_id ← new_id
  workflow_id ← new_id
  let workflow = new_workflow workflow_id now key r
  add_quote_and_workflow (new_quote quote_id product_id supplier.id r) workflow
  procurement_id ← new_id
  let procurement = new_procurement procurement_id now product_id quote_id workflow_id r
  modify (λ s. record s { requests = add procurement s.requests })
  pure (product, procurement, workflow)

-- The part of `ingest` for a product that is not known.
unfoldable pub ingest_new : ℕ → ApprovedProductRequestV1 → String → Action ApprovedProductResponseV1
ingest_new hash r key = do
  rows ← add_rows hash r key
  event ← announce r rows.0 rows.1 rows.2
  pure (response rows.0 rows.1 rows.2 event false)

-- `ApprovedProductIngestionService.ingest`
unfoldable pub ingest :
    IngestionService → ApprovedProductRequestV1 → String → Action ApprovedProductResponseV1
ingest service r key = do
  existing ← gets (find_product (identity_of r))
  elim existing [
    | some product ↦ existing_response product (service.payload_hash r)
    | none ↦ ingest_new (service.payload_hash r) r key
  ]

-- `find_existing_after_conflict`
unfoldable pub find_existing_after_conflict :
    IngestionService → ApprovedProductRequestV1 → Action ApprovedProductResponseV1
find_existing_after_conflict service r = do
  product ← (λ s. or_raise (find_product (identity_of r) s) Error.approved_product_conflict s)
  existing_response product (service.payload_hash r)
