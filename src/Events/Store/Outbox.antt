-- ===== src/Events/Store/Outbox.antt =====
-- What the outbox guarantees: publishing is idempotent and changes no stored event.
use cax_commerce_operations.Prelude.{
  ℕ, ◌≡◌, refl, false, none, some, List, [], ◌∷◌, ◌⊎◌, inl, inr, ap, arith, any, find-append, ◌==◌,
  Eq-nat, Eq-string, Bool-cases, Option-cases, eq_self,
}
use cax_commerce_operations.Errors.{Error, Result, ok, err}
use cax_commerce_operations.Persistence.Keys.{Eq-key}
use cax_commerce_operations.Persistence.Json.{Eq-object}
use cax_commerce_operations.Persistence.Tables.{get, get-add_old, add}
use cax_commerce_operations.Persistence.Models.{DomainEvent, HasId-domain_event}
use cax_commerce_operations.Events.Types.{Eq-event_type}
use cax_commerce_operations.Events.Types.Codec.{model_dump}
use cax_commerce_operations.Session.{Db}
use cax_commerce_operations.Events.Store.{
  EventEnvelope, to_record, conflicts, publish_to, with_key, publish,
}

-- The three outcomes: a new record is appended, the record of the same key is returned, or the call
-- raises; only the first changes the session.
abbrev Appends : EventEnvelope → Db → Type 0
Appends e s =
    (with_key e.idempotency_key s.events ≡ none)
    × (any (conflicts (to_record e)) s.events ≡ false)
    × (publish e s ≡ (ok (to_record e), record s { events = add (to_record e) s.events }))

abbrev Finds : EventEnvelope → Db → DomainEvent → Type 0
Finds e s r =
    (with_key e.idempotency_key s.events ≡ some r)
    × (r.event_type ≡ e.event_type)
    × (r.payload ≡ model_dump e.body)
    × (publish e s ≡ (ok r, s))

found_cases :
    (e : EventEnvelope) (r : DomainEvent) (s : Db)
    → ((r.event_type ≡ e.event_type)
        × (r.payload ≡ model_dump e.body)
        × (publish_to e (some r) s ≡ (ok r, s)))
      ⊎ (publish_to e (some r) s ≡ (err Error.event_conflict, s))
unfolding publish_to
found_cases e r s = ground (
  arith,
  Eq-event_type.beq_iff r.event_type e.event_type,
  Eq-object.beq_iff r.payload (model_dump e.body),
)

pub publish_cases :
    (e : EventEnvelope) (s : Db)
    → Appends e s ⊎ ((r : DomainEvent) × Finds e s r) ⊎ ((x : Error) × (publish e s ≡ (err x, s)))
unfolding publish
publish_cases e s = elim (Option-cases (with_key e.idempotency_key s.events)) [
  | inl new ↦ elim (Bool-cases (any (conflicts (to_record e)) s.events)) [
    | inl clash ↦ inr (inr (Error.integrity_error, rw (new, publish_to, clash) refl))
    | inr free ↦ inl (new, free, rw (new, publish_to, free) refl)
  ]
  | inr (r, old) ↦ elim (found_cases e r s) [
    | inl (t, d, p) ↦ inr (inl (r, (old, t, d, rw old p)))
    | inr p ↦ inr (inr (Error.event_conflict, rw old p))
  ]
]

publish_match :
    (e : EventEnvelope) (s : Db) (r : DomainEvent)
    → with_key e.idempotency_key s.events ≡ some r
    → r.event_type ≡ e.event_type
    → r.payload ≡ model_dump e.body
    → publish e s ≡ (ok r, s)
unfolding publish
publish_match e s r old t d =
    rw (old, publish_to)
      (ground (
        arith,
        Eq-event_type.beq_iff r.event_type e.event_type,
        Eq-object.beq_iff r.payload (model_dump e.body),
      ))

with_key-add :
    (e : EventEnvelope) (t : List DomainEvent)
    → with_key e.idempotency_key t ≡ none
    → with_key e.idempotency_key (add (to_record e) t) ≡ some (to_record e)
unfolding to_record
with_key-add e t new =
    rw (find-append (λ r. r.idempotency_key == e.idempotency_key) t (to_record e ∷ []))
      (ground (arith, eq_self e.idempotency_key))

-- Publishing an event again, after a call that returned, returns the same record and changes
-- nothing.
pub publish_again :
    (e : EventEnvelope) (s : Db) {r : DomainEvent}
    → (publish e s).0 ≡ ok r
    → publish e (publish e s).1 ≡ (ok r, (publish e s).1)
unfolding to_record
publish_again e s {r} h = elim (publish_cases e s) [
  | inl (new, free, p) ↦
      let s' : Db = record s { events = add (to_record e) s.events } in
      rw p (
        rw (publish_match e s' (to_record e) (with_key-add e s.events new) refl refl)
          (cc (ap (λ (y : Result DomainEvent × Db). y.0) p)))
  | inr (inl (x, (old, t, d, p))) ↦ rw (p, p) (cc (ap (λ (y : Result DomainEvent × Db). y.0) p))
  | inr (inr (x, p)) ↦ cc (ap (λ (y : Result DomainEvent × Db). y.0) p)
]

-- No event that is stored is changed or removed by publishing another.
pub publish_keeps :
    (e : EventEnvelope) (s : Db) (k : ℕ) (r : DomainEvent)
    → get k s.events ≡ some r
    → get k (publish e s).1.events ≡ some r
publish_keeps e s k r h = elim (publish_cases e s) [
  | inl (new, free, p) ↦ rw p (get-add_old k (to_record e) r s.events h)
  | inr (inl (x, (_, _, _, p))) ↦ rw p h
  | inr (inr (x, p)) ↦ rw p h
]
