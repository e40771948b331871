-- ===== src/Events/Store.antt =====
-- src/commerce_operations/events/store.py and `create_event` of events/types.py: the transactional
-- outbox.
pub mod Emit
pub mod Outbox
pub mod Reading
use cax_commerce_operations.Prelude.{
  ℕ, String, Bool, Option, none, some, List, [], ◌∷◌, leb, not, ◌&&◌, ◌||◌, ◌==◌, Eq-nat, Eq-string,
  any, contains, filter, find, take, if◌then◌else◌,
}
use cax_commerce_operations.Errors.{Error, Result, ok, err}
use cax_commerce_operations.Persistence.Enums.{EventStatus, Eq-event_status}
use cax_commerce_operations.Persistence.Keys.{Key, CorrelationId, Eq-key}
use cax_commerce_operations.Persistence.Json.{Eq-object}
use cax_commerce_operations.Persistence.Tables.{get, add}
use cax_commerce_operations.Persistence.Models.{DomainEvent, HasId-domain_event}
use cax_commerce_operations.Events.Types.{
  EventType, EventPayload, Eq-event_type, event_type_of, is_valid,
}
use cax_commerce_operations.Events.Types.Codec.{model_dump, decode_payload}
use cax_commerce_operations.Session.{Db, Action}
use cax_commerce_operations.Session.Actions.{
  pure, raise, gets, lift, modify, raise_if, new_id, ◌>>=◌, ◌>>◌,
}

pub record EventEnvelope : Type 0 where
  pub event_id : ℕ
  pub event_type : EventType
  pub event_version : ℕ
  pub occurred_at : ℕ
  pub producer : String
  pub aggregate_type : String
  pub aggregate_id : ℕ
  pub aggregate_version : ℕ
  pub correlation_id : CorrelationId
  pub workflow_id : Option ℕ
  pub causation_id : Option ℕ
  pub idempotency_key : Key
  pub body : EventPayload

-- Building the payload and the envelope checks their field constraints.
unfoldable pub create_event :
    EventPayload → String → ℕ → ℕ → CorrelationId → Option ℕ → Key → Action EventEnvelope
unfolding new_id
create_event payload aggregate_type aggregate_id aggregate_version correlation_id workflow_id
      idempotency_key =
    do
      raise_if (not (is_valid payload) || aggregate_version == 0) Error.validation_error
      event_id ← new_id
      now ← gets (λ s. s.clock)
      pure (record {
        event_id = event_id;
        event_type = event_type_of payload;
        event_version = 1;
        occurred_at = now;
        producer = "commerce-operations";
        aggregate_type = aggregate_type;
        aggregate_id = aggregate_id;
        aggregate_version = aggregate_version;
        correlation_id = correlation_id;
        workflow_id = workflow_id;
        causation_id = none;
        idempotency_key = idempotency_key;
        body = payload;
      })

unfoldable pub to_record : EventEnvelope → DomainEvent
to_record event = record {
  id = event.event_id;
  event_type = event.event_type;
  event_version = event.event_version;
  producer = event.producer;
  aggregate_type = event.aggregate_type;
  aggregate_id = event.aggregate_id;
  aggregate_version = event.aggregate_version;
  correlation_id = event.correlation_id;
  workflow_id = event.workflow_id;
  causation_id = event.causation_id;
  idempotency_key = event.idempotency_key;
  payload = model_dump event.body;
  publication_status = EventStatus.pending;
  processing_attempts = 0;
  last_error = none;
  created_at = event.occurred_at;
}

-- UniqueConstraint("aggregate_type", "aggregate_id", "aggregate_version", "event_type")
abbrev pub same_change : DomainEvent → DomainEvent → Bool
same_change a b =
    a.aggregate_type == b.aggregate_type
    && a.aggregate_id == b.aggregate_id
    && a.aggregate_version == b.aggregate_version
    && a.event_type == b.event_type

-- The rows that the primary key and the unique constraints of the table keep apart.
abbrev pub conflicts : DomainEvent → DomainEvent → Bool
conflicts a b = same_change a b || a.idempotency_key == b.idempotency_key || a.id == b.id

-- `session.add(record)` and `session.flush()`, where the database checks the constraints.
unfoldable pub insert_event : DomainEvent → Action DomainEvent
insert_event r s =
    if any (conflicts r) s.events
    then (err Error.integrity_error, s)
    else (ok r, record s { events = add r s.events })

unfoldable pub publish_to : EventEnvelope → Option DomainEvent → Action DomainEvent
unfolding insert_event to_record
publish_to event none = insert_event (to_record event)
publish_to event (some existing) =
    if not (existing.event_type == event.event_type)
      || not (existing.payload == model_dump event.body)
    then raise Error.event_conflict
    else pure existing

abbrev pub with_key : Key → List DomainEvent → Option DomainEvent
with_key k = find (λ r. r.idempotency_key == k)

-- `DatabaseEventStore.publish`
unfoldable pub publish : EventEnvelope → Action DomainEvent
unfolding publish_to
publish event s = publish_to event (with_key event.idempotency_key s.events) s

-- `publish(session, create_event(...))`, as the services write it.
unfoldable pub emit :
    EventPayload → String → ℕ → ℕ → CorrelationId → Option ℕ → Key → Action (Unit {0})
unfolding create_event publish
emit payload aggregate_type aggregate_id aggregate_version correlation_id workflow_id key = do
  event ←
      create_event payload aggregate_type aggregate_id aggregate_version correlation_id workflow_id
        key
  publish event
  pure tt

-- `DatabaseEventStore.get`
unfoldable pub get_event : ℕ → Action (Option DomainEvent)
get_event event_id = gets (λ s. get event_id s.events)

-- Ordered by `created_at`; rows of one time keep the order in which they were added.
unfoldable pub insert_by_time : DomainEvent → List DomainEvent → List DomainEvent
insert_by_time r [] = add r []
insert_by_time r (x ∷ t) =
    if leb r.created_at x.created_at then r ∷ x ∷ t else x ∷ insert_by_time r t

unfoldable pub by_time : List DomainEvent → List DomainEvent
unfolding insert_by_time
by_time [] = []
by_time (x ∷ t) = insert_by_time x (by_time t)

abbrev pub is_pending : Option (List EventType) → DomainEvent → Bool
is_pending none r = contains r.publication_status (EventStatus.pending ∷ EventStatus.failed ∷ [])
is_pending (some types) r =
    contains r.publication_status (EventStatus.pending ∷ EventStatus.failed ∷ [])
    && contains r.event_type types

-- `DatabaseEventStore.pending`: the outbox, oldest first.
unfoldable pub pending : ℕ → Option (List EventType) → Action (List DomainEvent)
unfolding by_time
pending limit event_types =
    gets (λ s. take limit (by_time (filter (is_pending event_types) s.events)))

-- `DatabaseEventStore.to_envelope`
unfoldable pub to_envelope : DomainEvent → Result EventEnvelope
to_envelope r = elim (decode_payload r.event_type r.payload) [
  | err e ↦ err e
  | ok body ↦ ok (record {
    event_id = r.id;
    event_type = r.event_type;
    event_version = r.event_version;
    occurred_at = r.created_at;
    producer = r.producer;
    aggregate_type = r.aggregate_type;
    aggregate_id = r.aggregate_id;
    aggregate_version = r.aggregate_version;
    correlation_id = r.correlation_id;
    workflow_id = r.workflow_id;
    causation_id = r.causation_id;
    idempotency_key = r.idempotency_key;
    body = body;
  })
]
