-- ===== src/Events/Processor.antt =====
-- src/commerce_operations/events/processor.py: delivery of one event to its handlers, each in a
-- transaction of its own, with a receipt that keeps a handler from running twice.
pub mod Receipts
pub mod Delivery
pub mod Failure
use cax_commerce_operations.Prelude.{
  ℕ, ◌+◌, String, Bool, true, false, ◌&&◌, Option, none, some, List, [], ◌∷◌, ◌==◌, Eq-nat,
  Eq-string, any, if◌then◌else◌,
}
use cax_commerce_operations.Errors.{Error, Result, ok, err}
use cax_commerce_operations.Persistence.Enums.{EventStatus, HandlerReceiptStatus}
use cax_commerce_operations.Persistence.Tables.{get, put, add}
use cax_commerce_operations.Persistence.Models.{
  DomainEvent, EventHandlerReceipt, HasId-domain_event,
}
use cax_commerce_operations.Events.Store.{EventEnvelope, to_envelope}
use cax_commerce_operations.Events.Handlers.{RegisteredHandler, EventHandlerRegistry, handlers_for}
use cax_commerce_operations.Session.{Db, Action}
use cax_commerce_operations.Session.Actions.{
  pure, raise, gets, lift, or_raise, modify, transact, ◌>>=◌, ◌>>◌,
}

pub record ProcessingResult : Type 0 where
  pub event_id : ℕ
  pub handlers_processed : ℕ
  pub handlers_skipped : ℕ

-- A receipt of the handler `name` for the event exists.
abbrev pub has_receipt : ℕ → String → Db → Bool
has_receipt event_id name s = any (λ r. r.event_id == event_id && r.handler_name == name) s.receipts

abbrev pub find_event : ℕ → Action DomainEvent
find_event event_id s = or_raise (get event_id s.events) Error.event_not_found s

-- The body of `_process_handler` when there is no receipt.
unfoldable pub run_handler : ℕ → DomainEvent → RegisteredHandler → Action Bool
run_handler event_id event handler = do
  modify (λ s. record s {
    receipts =
        add
          (record {
            event_id = event_id;
            handler_name = handler.name;
            status = HandlerReceiptStatus.completed;
          })
          s.receipts;
  })
  envelope ← lift (to_envelope event)
  handler.callback envelope
  pure true

-- `_process_handler`: true if the handler ran, false if it had its receipt.
unfoldable pub process_handler : ℕ → RegisteredHandler → Action Bool
unfolding run_handler
process_handler event_id handler = transact do
  event ← find_event event_id
  done ← gets (has_receipt event_id handler.name)
  if done then pure false else run_handler event_id event handler

unfoldable pub note_failure : String → Error → Option DomainEvent → Db → Db
note_failure name exception none s = s
note_failure name exception (some event) s = record s {
  events =
      put
        (record event {
          processing_attempts = event.processing_attempts + 1;
          publication_status = EventStatus.failed;
          last_error = some (name, exception);
        })
        s.events;
}

-- `_record_failure`
unfoldable pub record_failure : ℕ → String → Error → Db → Db
unfolding note_failure
record_failure event_id name exception s = note_failure name exception (get event_id s.events) s

-- The loop of `process`: counts the handlers that ran and those that were skipped.
unfoldable pub process_handlers : ℕ → List RegisteredHandler → ℕ → ℕ → Action (ℕ × ℕ)
process_handlers event_id [] processed skipped s = (ok (processed, skipped), s)
process_handlers event_id (handler ∷ handlers) processed skipped s =
    let (r, s') = process_handler event_id handler s in
    elim r [
      | ok true ↦ process_handlers event_id handlers (processed + 1) skipped s'
      | ok false ↦ process_handlers event_id handlers processed (skipped + 1) s'
      | err e ↦ (err Error.event_processing, record_failure event_id handler.name e s')
    ]

-- `_mark_complete`
unfoldable pub mark_complete : ℕ → Action (Unit {0})
mark_complete event_id = do
  event ← find_event event_id
  modify (λ s. record s {
    events =
        put
          (record event {
            processing_attempts = event.processing_attempts + 1;
            publication_status = EventStatus.published;
            last_error = none;
          })
          s.events;
  })

-- `EventProcessor.process`
unfoldable pub process : EventHandlerRegistry → ℕ → Action ProcessingResult
unfolding handlers_for
process registry event_id = do
  event ← find_event event_id
  envelope ← lift (to_envelope event)
  counts ← process_handlers event_id (handlers_for registry envelope.event_type) 0 0
  mark_complete event_id
  pure (record { event_id = event_id; handlers_processed = counts.0; handlers_skipped = counts.1 })
