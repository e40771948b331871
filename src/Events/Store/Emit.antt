-- ===== src/Events/Store/Emit.antt =====
-- What publishing an event can change in the database: the events and the counter of ids.
use cax_commerce_operations.Prelude.{
  ℕ, ◌≡◌, refl, String, not, ◌||◌, ◌==◌, Eq-nat, Option, List, inl, inr, arith, Bool-cases, ◌+◌,
}
use cax_commerce_operations.Errors.{ok, Result-cases}
use cax_commerce_operations.Persistence.Keys.{Key, CorrelationId}
use cax_commerce_operations.Persistence.Tables.{add}
use cax_commerce_operations.Persistence.Models.{DomainEvent}
use cax_commerce_operations.Events.Types.{EventPayload, is_valid}
use cax_commerce_operations.Events.Store.{EventEnvelope, create_event, emit, publish, to_record}
use cax_commerce_operations.Events.Store.Outbox.{publish_cases}
use cax_commerce_operations.Session.{Db}
use cax_commerce_operations.Session.Actions.{new_id}

publish_frame :
    (e : EventEnvelope) (s : Db)
    → (t : List DomainEvent) × ((publish e s).1 ≡ record s { events = t })
publish_frame e s = elim (publish_cases e s) [
  | inl (_, _, p) ↦ (add (to_record e) s.events, rw p refl)
  | inr (inl (r, (_, _, _, p))) ↦ (s.events, rw p refl)
  | inr (inr (x, p)) ↦ (s.events, rw p refl)
]

create_event_frame :
    (p : EventPayload) (kind : String) (id version : ℕ) (c : CorrelationId) (w : Option ℕ) (k : Key)
    (s : Db)
    → (n : ℕ) × ((create_event p kind id version c w k s).1 ≡ record s { next_id = n })
unfolding create_event new_id
create_event_frame p kind id version c w k s =
    elim (Bool-cases (not (is_valid p) || version == 0)) [
      | inl bad ↦ (s.next_id, ground (arith, bad))
      | inr good ↦ (s.next_id + 1, ground (arith, good))
    ]

-- An event that is made has the key and the body that were asked for, and takes one id.
pub create_event_made :
    (p : EventPayload) (kind : String) (id version : ℕ) (c : CorrelationId) (w : Option ℕ) (k : Key)
    (s s' : Db) (e : EventEnvelope)
    → create_event p kind id version c w k s ≡ (ok e, s')
    → (e.idempotency_key ≡ k) × (e.body ≡ p) × (s' ≡ record s { next_id = s.next_id + 1 })
unfolding create_event new_id
create_event_made p kind id version c w k s s' e h =
    elim (Bool-cases (not (is_valid p) || version == 0)) [
      | inl bad ↦ absurd (ground (arith, bad, h))
      | inr good ↦ (ground (arith, good, h), ground (arith, good, h), ground (arith, good, h))
    ]

pub emit_frame :
    (p : EventPayload) (kind : String) (id version : ℕ) (c : CorrelationId) (w : Option ℕ) (k : Key)
    (s : Db)
    → (n : ℕ) × (t : List DomainEvent) × ((emit p kind id version c w k s).1
        ≡ record s { next_id = n; events = t })
unfolding emit
emit_frame p kind id version c w k s =
    let (n, made) = create_event_frame p kind id version c w k s in
    elim (Result-cases (create_event p kind id version c w k s).0) [
      | inl (e, q) ↦
          let (t, put) = publish_frame e (record s { next_id = n }) in
          elim (Result-cases (publish e (record s { next_id = n })).0) [
            | inl (r, u) ↦ (n, t, ground (arith, q, made, put, u))
            | inr (x, u) ↦ (n, t, ground (arith, q, made, put, u))
          ]
      | inr (x, q) ↦ (n, s.events, ground (arith, q, made))
    ]
