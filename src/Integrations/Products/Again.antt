-- ===== src/Integrations/Products/Again.antt =====
-- A product that is delivered twice is taken in once.
use cax_commerce_operations.Prelude.{
  ℕ, ◌+◌, ◌≤◌, ◌≡◌, refl, String, true, false, ◌||◌, Option, none, some, List, [], ◌∷◌, inl, inr,
  arith, find, any, find-append, Option-cases, Bool-cases, ◌==◌, Eq-nat, Eq-string, eq_self, ap,
  sym, ◌∙◌, find-append_last,
}
use cax_commerce_operations.Errors.{ok}
use cax_commerce_operations.Persistence.Keys.{Eq-key}
use cax_commerce_operations.Persistence.Tables.{get, add}
use cax_commerce_operations.Persistence.Models.{
  ProcurementRequest, WorkflowRun, DomainEvent, HasId-workflow_run,
}
use cax_commerce_operations.Persistence.Catalog.{Product, Supplier}
use cax_commerce_operations.Integrations.Contracts.{ApprovedProductRequestV1}
use cax_commerce_operations.Integrations.Products.{
  IngestionService, ApprovedProductResponseV1, identity_of, find_product, event_key, correlation_id,
  response, procurement_of, event_of, of_identity, stored_identity, run_by_id, existing_response,
  new_product, find_or_add_supplier, known_supplier, new_supplier, new_quote, new_workflow,
  add_quote_and_workflow, announce, add_rows, ingest_new, ingest, same_quote, same_run,
}
use cax_commerce_operations.Events.Types.{EventPayload}
use cax_commerce_operations.Events.Store.{EventEnvelope, create_event, publish, to_record}
use cax_commerce_operations.Events.Store.Emit.{create_event_made}
use cax_commerce_operations.Events.Store.Outbox.{publish_cases}
use cax_commerce_operations.Session.{Db}
use cax_commerce_operations.Session.Actions.{bind_ok, new_id, pure, ◌>>=◌}

-- No workflow has an id, and no request is for a product, that was not given out yet.
pub record AreFresh (s : Db) : Type 0 where
  pub no_run : (k : ℕ) → s.next_id ≤ k → get k s.workflows ≡ none
  pub no_request : (k : ℕ) → s.next_id ≤ k → procurement_of k s ≡ none

-- The rows that `add_rows` leaves.
record Grown (hash : ℕ) (r : ApprovedProductRequestV1) (p : Product) (q : ProcurementRequest)
    (w : WorkflowRun) (s s' : Db) : Type 0 where
  is_product : p ≡ new_product s.next_id hash r
  for_product : q.product_id ≡ s.next_id
  has_run : q.workflow_run_id ≡ some w.id
  new_run : s.next_id ≤ w.id
  products : s'.products ≡ add p s.products
  requests : s'.requests ≡ add q s.requests
  workflows : s'.workflows ≡ add w s.workflows

supplier_cases :
    (r : ApprovedProductRequestV1) (o : Option Supplier) (s : Db)
    → (x : Supplier) × (n : ℕ) × (t : List Supplier) × (find_or_add_supplier r o s
        ≡ (ok x, record s { next_id = n; suppliers = t }))
      × (s.next_id ≤ n)
unfolding find_or_add_supplier new_id
supplier_cases r none s = (
  new_supplier s.next_id r,
  s.next_id + 1,
  add (new_supplier s.next_id r) s.suppliers,
  refl,
  omega arith,
)
supplier_cases r (some x) s = (x, s.next_id, s.suppliers, refl, omega arith)

grown :
    (hash : ℕ) (r : ApprovedProductRequestV1) (key : String) (s s' : Db) (p : Product)
    (q : ProcurementRequest) (w : WorkflowRun)
    → add_rows hash r key s ≡ (ok (p, q, w), s')
    → Grown hash r p q w s s'
unfolding add_rows new_id add_quote_and_workflow
grown hash r key s s' p q w h =
    let s₁ : Db = record s {
      next_id = s.next_id + 1;
      products = add (new_product s.next_id hash r) s.products;
    } in
    let (x, n, t, e, le) = supplier_cases r (known_supplier r s₁) s₁ in
    let quote = new_quote n s.next_id x.id r in
    let run = new_workflow (n + 1) s.clock key r in
    elim (Bool-cases (any (same_quote quote) s.quotes || any (same_run run) s.workflows)) [
      | inl clash ↦ absurd (ground (arith, e, clash, h))
      | inr free ↦ record {
        is_product = ground (arith, e, free, h);
        for_product = ground (arith, e, free, h);
        has_run = ground (arith, e, free, h);
        new_run = ground (arith, e, free, h);
        products = ground (arith, e, free, h);
        requests = ground (arith, e, free, h);
        workflows = ground (arith, e, free, h);
      }
    ]

-- The tables that announcing leaves alone, and the event that is found afterwards.
record Announced (r : ApprovedProductRequestV1) (ev : DomainEvent) (s s' : Db) : Type 0 where
  products : s'.products ≡ s.products
  requests : s'.requests ≡ s.requests
  workflows : s'.workflows ≡ s.workflows
  stored : event_of (identity_of r) s' ≡ some ev

published :
    (r : ApprovedProductRequestV1) (e : EventEnvelope) (ev : DomainEvent) (s s' : Db)
    → e.idempotency_key ≡ event_key (identity_of r)
    → publish e s ≡ (ok ev, s')
    → Announced r ev s s'
unfolding to_record
published r e ev s s' key h = elim (publish_cases e s) [
  | inl (new, free, p) ↦
      let is_record : ev ≡ to_record e = ground (arith, p, h) in
      let grew : s' ≡ record s { events = add (to_record e) s.events } = ground (arith, p, h) in
      rw (is_record, grew)
        (record {
          products = refl;
          requests = refl;
          workflows = refl;
          stored = rw (← key) (
              rw
                (find-append (λ x. x.idempotency_key == e.idempotency_key) s.events
                  (to_record e ∷ []))
                (rw new (rw (eq_self e.idempotency_key) refl)));
        })
  | inr (inl (x, (old, t, d, p))) ↦
      let is_record : ev ≡ x = ground (arith, p, h) in
      let same : s' ≡ s = ground (arith, p, h) in
      rw (is_record, same)
        (record { products = refl; requests = refl; workflows = refl; stored = rw (← key) old })
  | inr (inr (x, p)) ↦ absurd (ground (arith, p, h))
]

announced :
    (r : ApprovedProductRequestV1) (p : Product) (q : ProcurementRequest) (w : WorkflowRun)
    (ev : DomainEvent) (s s' : Db)
    → announce r p q w s ≡ (ok ev, s')
    → Announced r ev s s'
unfolding announce
announced r p q w ev s s' h =
    let body =
      EventPayload.product_approved p.id r.source_product_id (some r.source_workflow_run_id)
        (some q.id) in
    let c = correlation_id (identity_of r) r.source_workflow_run_id in
    let make =
      create_event body "product" p.id p.version c (some w.id) (event_key (identity_of r)) in
    let (e, made, rest) = bind_ok make publish ev s s' h in
    let (key, same_body, moved) =
      create_event_made body "product" p.id p.version c (some w.id) (event_key (identity_of r)) s
        (make s).1 e made in
    let a = published r e ev (make s).1 s' key rest in
    record {
      products = a.products ∙ ap (λ x. x.products) moved;
      requests = a.requests ∙ ap (λ x. x.requests) moved;
      workflows = a.workflows ∙ ap (λ x. x.workflows) moved;
      stored = a.stored;
    }

-- Once its rows are there, a product of the same data is answered from them.
answered_again :
    (service : IngestionService) (r : ApprovedProductRequestV1) (key : String) (s : Db)
    (p : Product) (q : ProcurementRequest) (w : WorkflowRun) (ev : DomainEvent)
    → find_product (identity_of r) s ≡ some p
    → p.source_payload_hash ≡ service.payload_hash r
    → p.source_system ≡ r.source_system
    → p.external_product_id ≡ r.source_product_id
    → procurement_of p.id s ≡ some q
    → event_of (identity_of r) s ≡ some ev
    → q.workflow_run_id ≡ some w.id
    → get w.id s.workflows ≡ some w
    → ingest service r key s ≡ (ok (response p q w ev true), s)
unfolding ingest existing_response
answered_again service r key s p q w ev found same sys ext wanted told run stored =
    ground
      (arith, found, same, sys, ext, wanted, told, run, stored, eq_self (service.payload_hash r))

answered_same :
    (p : Product) (hash : ℕ) (s s' : Db) (x : ApprovedProductResponseV1)
    → existing_response p hash s ≡ (ok x, s')
    → (s' ≡ s) × (x.duplicate ≡ true)
unfolding existing_response
answered_same p hash s s' x h = elim (Bool-cases (p.source_payload_hash == hash)) [
  | inr other ↦ absurd (ground (arith, other, h))
  | inl same ↦ elim (Option-cases (procurement_of p.id s)) [
    | inl missing ↦ absurd (ground (arith, same, missing, h))
    | inr (q, wanted) ↦ elim (Option-cases (event_of (stored_identity p) s)) [
      | inl missing ↦ absurd (ground (arith, same, wanted, missing, h))
      | inr (ev, told) ↦ elim (Option-cases (run_by_id q.workflow_run_id s)) [
        | inl missing ↦ absurd (ground (arith, same, wanted, told, missing, h))
        | inr (w, run) ↦
            (ground (arith, same, wanted, told, run, h), ground (arith, same, wanted, told, run, h))
      ]
    ]
  ]
]

-- The rows of a product that was taken in are found again.
found_again :
    (service : IngestionService) (r : ApprovedProductRequestV1) (key : String) (s s₁ s' : Db)
    (p : Product) (q : ProcurementRequest) (w : WorkflowRun) (ev : DomainEvent)
    → AreFresh s
    → find_product (identity_of r) s ≡ none
    → Grown (service.payload_hash r) r p q w s s₁
    → Announced r ev s₁ s'
    → ingest service r key s' ≡ (ok (response p q w ev true), s')
found_again service r key s s₁ s' p q w ev fresh unknown g a =
    let same = g.is_product in
    let found : find_product (identity_of r) s' ≡ some p =
      ap (λ t. find (of_identity (identity_of r)) t) (a.products ∙ g.products)
      ∙ find-append_last (of_identity (identity_of r)) p s.products unknown
          (rw same (ground (arith, eq_self r.source_system, eq_self r.source_product_id))) in
    let given : p.id ≡ s.next_id = ap (λ (x : Product). x.id) same in
    let wanted : procurement_of p.id s' ≡ some q =
      ap (λ t. find (λ (y : ProcurementRequest). y.product_id == p.id) t) (a.requests ∙ g.requests)
      ∙ find-append_last (λ (y : ProcurementRequest). y.product_id == p.id) q s.requests
          (fresh.no_request p.id (omega (arith, given))) (ground (arith, given, g.for_product)) in
    let stored : get w.id s'.workflows ≡ some w =
      ap (λ t. get w.id t) (a.workflows ∙ g.workflows)
      ∙ find-append_last (λ (y : WorkflowRun). y.id == w.id) w s.workflows
          (fresh.no_run w.id g.new_run) (eq_self w.id) in
    answered_again service r key s' p q w ev found
      (ap (λ (x : Product). x.source_payload_hash) same)
      (ap (λ (x : Product). x.source_system) same)
      (ap (λ (x : Product). x.external_product_id) same) wanted a.stored g.has_run stored

ingest_known :
    (service : IngestionService) (r : ApprovedProductRequestV1) (key : String) (s : Db)
    (p : Product)
    → find_product (identity_of r) s ≡ some p
    → ingest service r key s ≡ existing_response p (service.payload_hash r) s
unfolding ingest
ingest_known service r key s p known = ground (arith, known)

ingest_unknown :
    (service : IngestionService) (r : ApprovedProductRequestV1) (key : String) (s : Db)
    → find_product (identity_of r) s ≡ none
    → ingest service r key s ≡ ingest_new (service.payload_hash r) r key s
unfolding ingest
ingest_unknown service r key s unknown = ground (arith, unknown)

-- Delivering a product again, with whatever idempotency key, returns the same ids with the mark of a
-- duplicate and writes nothing. The ids to come are unused.
pub ingest_again :
    (service : IngestionService) (r : ApprovedProductRequestV1) (key key' : String) (s s' : Db)
    (x : ApprovedProductResponseV1)
    → AreFresh s
    → ingest service r key s ≡ (ok x, s')
    → ingest service r key' s' ≡ (ok (record x { duplicate = true }), s')
unfolding ingest_new
ingest_again service r key key' s s' x fresh h =
    elim (Option-cases (find_product (identity_of r) s)) [
      | inr (p, known) ↦
          let from_rows = sym (ingest_known service r key s p known) ∙ h in
          let (same, marked) = answered_same p (service.payload_hash r) s s' x from_rows in
          let again = ingest_known service r key' s p known ∙ from_rows in
          rw same (again ∙ ground (arith, marked, same))
      | inl unknown ↦
          let taken : ingest_new (service.payload_hash r) r key s ≡ (ok x, s') =
            sym (ingest_unknown service r key s unknown) ∙ h in
          let (rows, grew, rest) =
            bind_ok (add_rows (service.payload_hash r) r key)
              (λ rows. announce r rows.0 rows.1 rows.2 >>= λ event.
                pure (response rows.0 rows.1 rows.2 event false))
              x s s' taken in
          let s₁ = (add_rows (service.payload_hash r) r key s).1 in
          let (ev, told, last) =
            bind_ok (announce r rows.0 rows.1 rows.2)
              (λ event. pure (response rows.0 rows.1 rows.2 event false)) x s₁ s' rest in
          let g = grown (service.payload_hash r) r key s s₁ rows.0 rows.1 rows.2 grew in
          let a =
            announced r rows.0 rows.1 rows.2 ev s₁ (announce r rows.0 rows.1 rows.2 s₁).1 told in
          let moved : (announce r rows.0 rows.1 rows.2 s₁).1 ≡ s' = ap (λ y. y.1) last in
          let same : response rows.0 rows.1 rows.2 ev false ≡ x = ground (arith, last) in
          let again =
            found_again service r key' s s₁ (announce r rows.0 rows.1 rows.2 s₁).1 rows.0 rows.1
              rows.2 ev fresh unknown g a in
          rw (← moved) (rw (← same) again)
    ]
