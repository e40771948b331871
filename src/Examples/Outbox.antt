-- ===== src/Examples/Outbox.antt =====
-- Events on concrete inputs: payloads, publication and reading from the outbox.
use cax_commerce_operations.Prelude.{ℕ, ◌≡◌, refl, none, some, List, [], ◌∷◌}
use cax_commerce_operations.Prelude.Int.{pos}
use cax_commerce_operations.Errors.{ok}
use cax_commerce_operations.Persistence.Keys.{Key, CorrelationId}
use cax_commerce_operations.Persistence.Tables.{get}
use cax_commerce_operations.Persistence.Models.{DomainEvent, HasId-domain_event}
use cax_commerce_operations.Events.Types.{EventType, EventPayload}
use cax_commerce_operations.Events.Store.{
  EventEnvelope, to_record, insert_event, publish, publish_to, pending, by_time, insert_by_time,
  to_envelope,
}
use cax_commerce_operations.Events.Store.Outbox.{publish_again}
use cax_commerce_operations.Events.Store.Reading.{to_envelope-to_record}
use cax_commerce_operations.Session.{Db, empty_db}

abbrev pub low_stock : EventPayload
low_stock = EventPayload.low_stock 7 "SKU-7" (pos 1) (pos 2)

-- An envelope of the `n`th change of an item, at the time `t`.
abbrev pub envelope : ℕ → ℕ → EventEnvelope
envelope n t = record {
  event_id = n;
  event_type = EventType.low_stock;
  event_version = 1;
  occurred_at = t;
  producer = "commerce-operations";
  aggregate_type = "inventory_item";
  aggregate_id = 7;
  aggregate_version = n;
  correlation_id = CorrelationId.of_row 7;
  workflow_id = none;
  causation_id = none;
  idempotency_key = Key.of_id "low-stock" n;
  body = low_stock;
}

to_envelope-to_record_example : to_envelope (to_record (envelope 1 5)) ≡ ok (envelope 1 5)
to_envelope-to_record_example = to_envelope-to_record (envelope 1 5) refl refl

-- The session after two events, the later of which came first.
abbrev pub two_events : Db
two_events = record empty_db { events = to_record (envelope 1 20) ∷ to_record (envelope 2 10) ∷ [] }

third_published : (publish (envelope 3 30) two_events).0 ≡ ok (to_record (envelope 3 30))
unfolding publish publish_to insert_event to_record
third_published = refl

publish_again_example :
    publish (envelope 3 30) (publish (envelope 3 30) two_events).1
    ≡ (ok (to_record (envelope 3 30)), (publish (envelope 3 30) two_events).1)
publish_again_example = publish_again (envelope 3 30) two_events third_published

second_stored : get 2 two_events.events ≡ some (to_record (envelope 2 10))
unfolding to_record
second_stored = refl

abbrev batch : List DomainEvent
batch = to_record (envelope 2 10) ∷ to_record (envelope 1 20) ∷ []

batch-pending : (pending 5 none two_events).0 ≡ ok batch
unfolding pending by_time insert_by_time to_record
batch-pending = refl
