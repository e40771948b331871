-- ===== src/Application/Procurement/Steps.antt =====
-- The part that the calls on a stored purchase order share: the request changes its status, and the
-- order is found by its request.
use cax_commerce_operations.Prelude.{
  ℕ, ◌+◌, ◌≡◌, ◌∙◌, refl, String, Option, some, List, [], ◌∷◌, inl, inr, arith, ◌==◌, Eq-nat, find,
  or_else, Bool-cases, Option-cases,
}
use cax_commerce_operations.Errors.{ok, Result-cases}
use cax_commerce_operations.Persistence.Enums.{ProcurementStatus}
use cax_commerce_operations.Persistence.Keys.{Key}
use cax_commerce_operations.Persistence.Tables.{get, put, add, get-put_self, get-id}
use cax_commerce_operations.Persistence.Models.{
  ProcurementRequest, PurchaseOrder, DomainEvent, AuditEvent, HasId-procurement_request,
  HasId-purchase_order, HasId-workflow_run,
}
use cax_commerce_operations.Domains.Procurement.{ProcurementTransition, transition}
use cax_commerce_operations.Events.Types.{EventPayload}
use cax_commerce_operations.Events.Store.{emit}
use cax_commerce_operations.Events.Store.Emit.{emit_frame}
use cax_commerce_operations.Application.Procurement.{
  find_request, run_of, order_of, status_text, purchase_order_of, save_request, procurement_audit,
  apply_transition,
}
use cax_commerce_operations.Session.{Db, Action}
use cax_commerce_operations.Session.Actions.{pure, gets, ◌>>=◌, ◌>>◌, add_audit, then_pure}

-- The request after a transition to the status `target`.
abbrev pub moved : ProcurementStatus → ProcurementRequest → ProcurementRequest
moved target request = record request { status = target; version = request.version + 1 }

-- A transition that returns was allowed, and writes the request, an audit row and events.
pub apply_transition_ok :
    (request r : ProcurementRequest) (target : ProcurementStatus) (actor reason : String)
    (s s' : Db)
    → apply_transition request target actor reason s ≡ (ok r, s')
    → (c : ProcurementTransition) × (transition request.status target ≡ ok c)
      × (r ≡ moved target request)
      × (n : ℕ) × (events : List DomainEvent) × (audits : List AuditEvent) × (s' ≡ record s {
        next_id = n;
        requests = put (moved target request) s.requests;
        events = events;
        audits = audits;
      })
unfolding apply_transition save_request add_audit
apply_transition_ok request r target actor reason s s' h =
    elim (Result-cases (transition request.status target)) [
      | inr (x, e) ↦ absurd (ground (arith, e))
      | inl (c, e) ↦ elim (Option-cases (run_of request.workflow_run_id s)) [
        | inl missing ↦ absurd (ground (arith, e, missing))
        | inr (w, f) ↦
            let m = moved target request in
            let s₁ : Db = record s {
              requests = put m s.requests;
              audits = add (procurement_audit m c actor reason w) s.audits;
            } in
            let notice =
              emit
                (EventPayload.procurement_status_changed request.id (status_text c.previous)
                  (status_text c.current) actor)
                "procurement_request" request.id m.version w.correlation_id (some w.id)
                (Key.of_part "procurement-status" request.id (status_text target)) in
            let (n, events, q) =
              emit_frame
                (EventPayload.procurement_status_changed request.id (status_text c.previous)
                  (status_text c.current) actor)
                "procurement_request" request.id m.version w.correlation_id (some w.id)
                (Key.of_part "procurement-status" request.id (status_text target)) s₁ in
            let (same, result) = then_pure notice m s₁ in
            let go : (notice >> pure m) s₁ ≡ (ok r, s') = ground (arith, e, f) in
            let e₀ : r ≡ m = ground (arith, go, result) in
            let e₁ : s' ≡ (notice s₁).1 = ground (arith, go, same) in
            (c, e, e₀, n, events, s₁.audits, e₁ ∙ q)
      ]
    ]

-- Purchase orders are found by their own ids.
pub record OrdersAreKeyed (s : Db) : Type 0 where
  pub keyed :
      (k : ℕ) (o : PurchaseOrder) → order_of k s ≡ some o → get o.id s.purchase_orders ≡ some o

abbrev of_request : ℕ → List PurchaseOrder → Option PurchaseOrder
of_request k = find (λ o. o.procurement_request_id == k)

of_request-id :
    (k : ℕ) (o : PurchaseOrder) (t : List PurchaseOrder)
    → of_request k t ≡ some o
    → o.procurement_request_id ≡ k
of_request-id k o [] h = ground arith
of_request-id k o (x ∷ t) h = ground (arith, of_request-id k o t)

pub of_request-put :
    (k : ℕ) (o n : PurchaseOrder) (t : List PurchaseOrder)
    → of_request k t ≡ some o
    → get o.id t ≡ some o
    → n.id ≡ o.id
    → n.procurement_request_id ≡ o.procurement_request_id
    → of_request k (put n t) ≡ some n
unfolding put
of_request-put k o n [] h g i r = ground arith
of_request-put k o n (x ∷ t) h g i r = elim (Bool-cases (x.procurement_request_id == k)) [
  | inl this ↦ ground (arith, this)
  | inr other ↦ elim (Bool-cases (x.id == o.id)) [
    | inl same ↦ absurd (ground (arith, other, same, of_request-id k o t))
    | inr apart ↦ ground (arith, other, apart, of_request-put k o n t)
  ]
]

-- What a transition of the request `id` leaves for the rest of its call.
pub record Step (id : ℕ) (target : ProcurementStatus) (q m : ProcurementRequest) (o : PurchaseOrder)
    (s s₁ : Db) : Type 0 where
  pub change : ProcurementTransition
  pub allowed : transition q.status target ≡ ok change
  pub is_moved : m ≡ moved target q
  pub kept : get id s₁.requests ≡ some m
  pub same_orders : s₁.purchase_orders ≡ s.purchase_orders
  pub ordered : order_of id s ≡ some o

transition-Step :
    (id : ℕ) (target : ProcurementStatus) (actor reason : String) (q m : ProcurementRequest)
    (o : PurchaseOrder) (s s₁ : Db)
    → get id s.requests ≡ some q
    → order_of q.id s ≡ some o
    → apply_transition q target actor reason s ≡ (ok m, s₁)
    → Step id target q m o s s₁
transition-Step id target actor reason q m o s s₁ found e f =
    let (c, allowed, same, n, ev, au, after) = apply_transition_ok q m target actor reason s s₁ f in
    let i = get-id id q s.requests found in
    record {
      change = c;
      allowed = allowed;
      is_moved = same;
      kept = rw (after, same) (get-put_self id (moved target q) q s.requests found refl);
      same_orders = rw after refl;
      ordered = ground (arith, i, e);
    }

-- The order of the request after it was written.
pub order_written :
    (id : ℕ) (o n : PurchaseOrder) (s s' : Db)
    → OrdersAreKeyed s
    → order_of id s ≡ some o
    → n.id ≡ o.id
    → n.procurement_request_id ≡ o.procurement_request_id
    → s'.purchase_orders ≡ put n s.purchase_orders
    → order_of id s' ≡ some n
order_written id o n s s' keyed e i r w =
    rw w (of_request-put id o n s.purchase_orders e (keyed.keyed id o e) i r)

-- The shape that the three calls share, with what each of them does at the end.
abbrev pub marks :
    ℕ
    → ProcurementStatus
    → String
    → String
    → Option ℕ
    → (ProcurementRequest → PurchaseOrder → ℕ → Action ProcurementRequest)
    → Action ProcurementRequest
marks id target actor reason at rest = do
  request ← find_request id
  order ← purchase_order_of request.id
  now ← gets (λ s. or_else at s.clock)
  r ← apply_transition request target actor reason
  rest r order now

pub record Marked (id : ℕ) (target : ProcurementStatus) (at : Option ℕ)
    (rest : ProcurementRequest → PurchaseOrder → ℕ → Action ProcurementRequest)
    (r : ProcurementRequest) (s s' : Db) : Type 0 where
  pub request : ProcurementRequest
  pub moved_request : ProcurementRequest
  pub order : PurchaseOrder
  pub between : Db
  pub found : get id s.requests ≡ some request
  pub step : Step id target request moved_request order s between
  pub ended : rest moved_request order (or_else at s.clock) between ≡ (ok r, s')

pub marks_ok :
    (id : ℕ) (target : ProcurementStatus) (actor reason : String) (at : Option ℕ)
    (rest : ProcurementRequest → PurchaseOrder → ℕ → Action ProcurementRequest)
    (r : ProcurementRequest) (s s' : Db)
    → marks id target actor reason at rest s ≡ (ok r, s')
    → Marked id target at rest r s s'
marks_ok id target actor reason at rest r s s' h = elim (Option-cases (get id s.requests)) [
  | inl missing ↦ absurd (ground (arith, missing))
  | inr (q, found) ↦ elim (Option-cases (order_of q.id s)) [
    | inl missing ↦ absurd (ground (arith, found, missing))
    | inr (o, e) ↦
        let t = apply_transition q target actor reason s in
        elim (Result-cases t.0) [
          | inr (x, f) ↦ absurd (ground (arith, found, e, f))
          | inl (m, f) ↦ record {
            request = q;
            moved_request = m;
            order = o;
            between = t.1;
            found = found;
            step = transition-Step id target actor reason q m o s t.1 found e (ground (arith, f));
            ended = ground (arith, found, e, f);
          }
        ]
  ]
]
