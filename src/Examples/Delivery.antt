-- ===== src/Examples/Delivery.antt =====
-- Delivery of an event to two handlers, one of which can fail.
use cax_commerce_operations.Prelude.{◌+◌, ◌≡◌, refl, some, [], ◌∷◌, length}
use cax_commerce_operations.Errors.{Error, ok, err}
use cax_commerce_operations.Persistence.Enums.{EventStatus, HandlerReceiptStatus}
use cax_commerce_operations.Persistence.Tables.{get, put}
use cax_commerce_operations.Persistence.Models.{DomainEvent, HasId-domain_event}
use cax_commerce_operations.Events.Types.{EventType}
use cax_commerce_operations.Events.Types.Codec.{decode_payload, model_dump}
use cax_commerce_operations.Events.Store.{to_record, to_envelope}
use cax_commerce_operations.Events.Store.Reading.{to_envelope-to_record}
use cax_commerce_operations.Events.Handlers.{RegisteredHandler, EventHandlerRegistry, handlers_for}
use cax_commerce_operations.Events.Processor.{
  ProcessingResult, run_handler, process_handler, process_handlers, note_failure, record_failure,
  mark_complete, process,
}
use cax_commerce_operations.Events.Processor.Receipts.{IsTame}
use cax_commerce_operations.Events.Processor.Delivery.{
  AllTame, AllReceived, process_delivers, process_again,
}
use cax_commerce_operations.Events.Processor.Failure.{FailedAt, process_failure}
use cax_commerce_operations.Session.{Db}
use cax_commerce_operations.Session.Actions.{pure, raise}
use cax_commerce_operations.Examples.Outbox.{envelope, two_events}

abbrev counter : RegisteredHandler
counter = record { name = "counter"; event_type = EventType.low_stock; callback = λ e. pure tt }

abbrev notifier : RegisteredHandler
notifier = record { name = "notifier"; event_type = EventType.low_stock; callback = λ e. pure tt }

abbrev broken : RegisteredHandler
broken = record {
  name = "broken";
  event_type = EventType.low_stock;
  callback = λ e. raise Error.runtime_error;
}

abbrev working : EventHandlerRegistry
working = record { handlers = λ t. counter ∷ notifier ∷ []; names = "counter" ∷ "notifier" ∷ [] }

abbrev failing : EventHandlerRegistry
failing = record { handlers = λ t. counter ∷ broken ∷ []; names = "counter" ∷ "broken" ∷ [] }

counter-IsTame : IsTame counter
counter-IsTame = record { same_receipts = λ e s. refl; events_stay = λ e s k h. h }

notifier-IsTame : IsTame notifier
notifier-IsTame = record { same_receipts = λ e s. refl; events_stay = λ e s k h. h }

broken-IsTame : IsTame broken
broken-IsTame = record { same_receipts = λ e s. refl; events_stay = λ e s k h. h }

working-AllTame : AllTame (handlers_for working EventType.low_stock)
unfolding handlers_for
working-AllTame = (counter-IsTame, (notifier-IsTame, tt))

failing-AllTame : AllTame (handlers_for failing EventType.low_stock)
unfolding handlers_for
failing-AllTame = (counter-IsTame, (broken-IsTame, tt))

first_stored : get 1 two_events.events ≡ some (to_record (envelope 1 20))
unfolding to_record
first_stored = refl

decoded : to_envelope (to_record (envelope 1 20)) ≡ ok (envelope 1 20)
decoded = to_envelope-to_record (envelope 1 20) refl refl

abbrev after_delivery : Db
after_delivery = (process working 1 two_events).1

abbrev both : ProcessingResult
both = record { event_id = 1; handlers_processed = 2; handlers_skipped = 0 }

runs_both : process working 1 two_events ≡ (ok both, after_delivery)
unfolding process process_handlers process_handler run_handler mark_complete handlers_for
    to_envelope put to_record decode_payload model_dump
runs_both = refl

process_delivers_example :
    AllReceived 1 (handlers_for working EventType.low_stock) after_delivery
    × (2 + 0 ≡ length (handlers_for working EventType.low_stock))
    × (x : DomainEvent) × (get 1 after_delivery.events ≡ some x)
    × (x.publication_status ≡ EventStatus.published)
process_delivers_example =
    process_delivers working 1 (to_record (envelope 1 20)) (envelope 1 20) two_events after_delivery
      both first_stored decoded working-AllTame runs_both

abbrev received : Db
received = record two_events {
  receipts =
      record { event_id = 1; handler_name = "notifier"; status = HandlerReceiptStatus.completed }
      ∷ record { event_id = 1; handler_name = "counter"; status = HandlerReceiptStatus.completed }
      ∷ [];
}

received-all : AllReceived 1 (handlers_for working EventType.low_stock) received
unfolding handlers_for
received-all = (refl, (refl, tt))

process_again_example : process working 1 received ≡ (
  ok (record {
    event_id = 1;
    handlers_processed = 0;
    handlers_skipped = length (handlers_for working EventType.low_stock);
  }),
  (mark_complete 1 received).1,
)
process_again_example =
    process_again working 1 (to_record (envelope 1 20)) (envelope 1 20) received first_stored
      decoded received-all

abbrev after_failure : Db
after_failure = (process failing 1 two_events).1

fails : process failing 1 two_events ≡ (err Error.event_processing, after_failure)
unfolding process process_handlers process_handler run_handler handlers_for to_envelope
    record_failure note_failure put to_record decode_payload model_dump
fails = refl

process_failure_example : FailedAt 1 (handlers_for failing EventType.low_stock) after_failure
process_failure_example =
    process_failure failing 1 (to_record (envelope 1 20)) (envelope 1 20) two_events after_failure
      first_stored decoded failing-AllTame fails
