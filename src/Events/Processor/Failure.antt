-- ===== src/Events/Processor/Failure.antt =====
-- A handler that raises leaves nothing behind, and the event is marked as failed and stays
-- deliverable.
use mathlib.Core.List.{Memᴰ}
use cax_commerce_operations.Prelude.{
  ℕ, ◌+◌, ◌≡◌, ◌≢◌, refl, true, false, some, List, [], ◌∷◌, arith, is_some, inl, inr, Option-cases,
}
use cax_commerce_operations.Errors.{Error, ok, err, Result-cases}
use cax_commerce_operations.Persistence.Enums.{EventStatus}
use cax_commerce_operations.Persistence.Tables.{get, get-put_self}
use cax_commerce_operations.Persistence.Models.{DomainEvent, HasId-domain_event}
use cax_commerce_operations.Events.Store.{EventEnvelope, to_envelope}
use cax_commerce_operations.Events.Handlers.{RegisteredHandler, EventHandlerRegistry, handlers_for}
use cax_commerce_operations.Session.{Db}
use cax_commerce_operations.Events.Processor.{
  has_receipt, process_handler, record_failure, process_handlers, mark_complete, process,
}
use cax_commerce_operations.Events.Processor.Receipts.{process_handler_cases, process_handler_ok}
use cax_commerce_operations.Events.Processor.Delivery.{AllTame}

-- `_record_failure` keeps the receipts and marks the event.
record_failure_ok :
    (event_id : ℕ) (h : RegisteredHandler) (x : Error) (s : Db)
    → is_some (get event_id s.events) ≡ true
    → let s' = record_failure event_id h.name x s in
      (s'.receipts ≡ s.receipts)
      × (y : DomainEvent) × (get event_id s'.events ≡ some y)
      × (y.publication_status ≡ EventStatus.failed)
      × (y.last_error ≡ some (h.name, x))
unfolding record_failure
record_failure_ok event_id h x s present = elim (Option-cases (get event_id s.events)) [
  | inl missing ↦ ground arith
  | inr (event, found) ↦
      let y : DomainEvent = record event {
        processing_attempts = event.processing_attempts + 1;
        publication_status = EventStatus.failed;
        last_error = some (h.name, x);
      } in
      (
        ground arith,
        y,
        ground (arith, get-put_self event_id y event s.events found refl),
        refl,
        refl,
      )
]

-- The handler at which the loop stopped, and what it left.
pub record FailedAt (event_id : ℕ) (hs : List RegisteredHandler) (s' : Db) : Type 0 where
  pub handler : RegisteredHandler
  pub exception : Error
  pub event : DomainEvent
  pub registered : Memᴰ handler hs
  pub no_receipt : has_receipt event_id handler.name s' ≡ false
  pub stored : get event_id s'.events ≡ some event
  pub marked : event.publication_status ≡ EventStatus.failed
  pub explained : event.last_error ≡ some (handler.name, exception)

FailedAt-behind :
    {event_id : ℕ} {h : RegisteredHandler} {hs : List RegisteredHandler} {s' : Db}
    → FailedAt event_id hs s'
    → FailedAt event_id (h ∷ hs) s'
FailedAt-behind f = record {
  handler = f.handler;
  exception = f.exception;
  event = f.event;
  registered = Memᴰ.tail f.registered;
  no_receipt = f.no_receipt;
  stored = f.stored;
  marked = f.marked;
  explained = f.explained;
}

fails_here :
    (event_id : ℕ) (h : RegisteredHandler) (hs : List RegisteredHandler) (x : Error) (s : Db)
    → is_some (get event_id s.events) ≡ true
    → has_receipt event_id h.name s ≡ false
    → FailedAt event_id (h ∷ hs) (record_failure event_id h.name x s)
fails_here event_id h hs x s present new =
    let (same, y, stored, marked, explained) = record_failure_ok event_id h x s present in
    record {
      handler = h;
      exception = x;
      event = y;
      registered = Memᴰ.head refl;
      no_receipt = rw same new;
      stored = stored;
      marked = marked;
      explained = explained;
    }

-- A handler that raises is rolled back, and had no receipt.
rolled_back :
    (event_id : ℕ) (h : RegisteredHandler) (s : Db) (x : Error)
    → is_some (get event_id s.events) ≡ true
    → (process_handler event_id h s).0 ≡ err x
    → ((process_handler event_id h s).1 ≡ s) × (has_receipt event_id h.name s ≡ false)
rolled_back event_id h s x present e = elim (process_handler_cases event_id h s) [
  | inl (done, p) ↦ ground arith
  | inr (inl (event, b, t, ran, p)) ↦ ground arith
  | inr (inr (y, p, inl new)) ↦ (ground arith, new)
  | inr (inr (y, p, inr missing)) ↦ ground arith
]

process_handlers_fail :
    (event_id : ℕ) (hs : List RegisteredHandler) (p k : ℕ) (s : Db) (x : Error) (s' : Db)
    → AllTame hs
    → is_some (get event_id s.events) ≡ true
    → process_handlers event_id hs p k s ≡ (err x, s')
    → FailedAt event_id hs s'
unfolding process_handlers
process_handlers_fail event_id [] p k s x s' tame present e = cc
process_handlers_fail event_id (h ∷ hs) p k s x s' tame present e =
    let s₁ = (process_handler event_id h s).1 in
    elim (Result-cases (process_handler event_id h s).0) [
      | inl (true, q) ↦
          let (step, _) = process_handler_ok event_id h s true s₁ tame.0 (ground arith) in
          FailedAt-behind (
            process_handlers_fail event_id hs (p + 1) k s₁ x s' tame.1 (step.event_stays present)
              (ground arith))
      | inl (false, q) ↦
          let (step, _) = process_handler_ok event_id h s false s₁ tame.0 (ground arith) in
          FailedAt-behind (
            process_handlers_fail event_id hs p (k + 1) s₁ x s' tame.1 (step.event_stays present)
              (ground arith))
      | inr (y, q) ↦
          let (kept, new) = rolled_back event_id h s y present q in
          let same : record_failure event_id h.name y s ≡ s' = ground arith in
          rw (← same) (fails_here event_id h hs y s present new)
    ]

mark_complete_err :
    (event_id : ℕ) (s : Db) → (mark_complete event_id s).0 ≢ err Error.event_processing
unfolding mark_complete
mark_complete_err event_id s = ground arith

-- If processing an event raises because of a handler, then in the end the event is stored as
-- failed, with the name and the exception of a handler that is registered for it and has no
-- receipt: the next delivery runs that handler again. The handlers are tame.
pub process_failure :
    (registry : EventHandlerRegistry) (event_id : ℕ) (event : DomainEvent) (env : EventEnvelope)
    (s s' : Db)
    → get event_id s.events ≡ some event
    → to_envelope event ≡ ok env
    → AllTame (handlers_for registry env.event_type)
    → process registry event_id s ≡ (err Error.event_processing, s')
    → FailedAt event_id (handlers_for registry env.event_type) s'
unfolding process
process_failure registry event_id event env s s' found decoded tame e =
    let hs = registry.handlers env.event_type in
    let s₁ = (process_handlers event_id hs 0 0 s).1 in
    elim (Result-cases (process_handlers event_id hs 0 0 s).0) [
      | inl (c, p) ↦ absurd (mark_complete_err event_id s₁ (ground arith))
      | inr (x, p) ↦ process_handlers_fail event_id hs 0 0 s x s' tame (ground arith) (ground arith)
    ]
