-- ===== src/Events/Store/Reading.antt =====
-- What is read back from the outbox.
use mathlib.Core.List.{Memᴰ}
use cax_commerce_operations.Prelude.{
  ℕ, zero, suc, ◌≤◌, ◌≡◌, refl, ap, true, Option, List, [], ◌∷◌, arith, All, length, take, filter,
  Bool-cases, inl, inr, leb,
}
use cax_commerce_operations.Errors.{ok}
use cax_commerce_operations.Persistence.Models.{DomainEvent}
use cax_commerce_operations.Events.Types.{EventType, event_type_of, is_valid}
use cax_commerce_operations.Events.Types.Codec.{model_dump, decode_payload}
use cax_commerce_operations.Events.Types.RoundTrip.{decode_payload-model_dump}
use cax_commerce_operations.Session.{Db}
use cax_commerce_operations.Events.Store.{
  EventEnvelope, to_record, to_envelope, insert_by_time, by_time, is_pending, pending,
}

-- A published envelope that `create_event` made comes back from its record as it was.
pub to_envelope-to_record :
    (e : EventEnvelope)
    → is_valid e.body ≡ true
    → e.event_type ≡ event_type_of e.body
    → to_envelope (to_record e) ≡ ok e
unfolding to_envelope to_record
to_envelope-to_record e valid typed =
    let d : decode_payload e.event_type (model_dump e.body) ≡ ok e.body =
      rw typed (decode_payload-model_dump e.body valid) in
    rw (d, to_envelope) refl

-- Each event is no later than those behind it.
abbrev NoLater : DomainEvent → List DomainEvent → Type 0
NoLater r = All (λ x. r.created_at ≤ x.created_at)

abbrev pub IsOldestFirst : List DomainEvent → Type 0
IsOldestFirst [] = Unit
IsOldestFirst (x ∷ t) = NoLater x t × IsOldestFirst t

NoLater-trans :
    (r x : DomainEvent) (t : List DomainEvent)
    → r.created_at ≤ x.created_at
    → NoLater x t
    → NoLater r t
NoLater-trans r x [] h a = tt
NoLater-trans r x (y ∷ t) h a = (omega arith, NoLater-trans r x t h a.1)

NoLater-insert :
    (x r : DomainEvent) (t : List DomainEvent)
    → x.created_at ≤ r.created_at
    → NoLater x t
    → NoLater x (insert_by_time r t)
unfolding insert_by_time
NoLater-insert x r [] h a = (h, tt)
NoLater-insert x r (y ∷ t) h a = elim (Bool-cases (leb r.created_at y.created_at)) [
  | inl before ↦ rw before (h, a)
  | inr after ↦ rw after (a.0, NoLater-insert x r t h a.1)
]

insert-IsOldestFirst :
    (r : DomainEvent) (t : List DomainEvent) → IsOldestFirst t → IsOldestFirst (insert_by_time r t)
unfolding insert_by_time
insert-IsOldestFirst r [] h = (tt, tt)
insert-IsOldestFirst r (y ∷ t) h = elim (Bool-cases (leb r.created_at y.created_at)) [
  | inl before ↦ rw before ((ground arith, NoLater-trans r y t (ground arith) h.0), h)
  | inr after ↦ rw after (NoLater-insert y r t (ground arith) h.0, insert-IsOldestFirst r t h.1)
]

by_time-IsOldestFirst : (t : List DomainEvent) → IsOldestFirst (by_time t)
unfolding by_time
by_time-IsOldestFirst [] = tt
by_time-IsOldestFirst (x ∷ t) = insert-IsOldestFirst x (by_time t) (by_time-IsOldestFirst t)

abbrev pub AllPending : Option (List EventType) → List DomainEvent → Type 0
AllPending types = All (λ r. is_pending types r ≡ true)

filter-AllPending :
    (types : Option (List EventType)) (t : List DomainEvent)
    → AllPending types (filter (is_pending types) t)
filter-AllPending types [] = tt
filter-AllPending types (x ∷ t) = elim (Bool-cases (is_pending types x)) [
  | inl keep ↦ rw keep (keep, filter-AllPending types t)
  | inr drop ↦ rw drop (filter-AllPending types t)
]

All-insert :
    (P : DomainEvent → Type 0) (r : DomainEvent) (t : List DomainEvent)
    → P r
    → All P t
    → All P (insert_by_time r t)
unfolding insert_by_time
All-insert P r [] p a = (p, tt)
All-insert P r (y ∷ t) p a = elim (Bool-cases (leb r.created_at y.created_at)) [
  | inl before ↦ rw before (p, a)
  | inr after ↦ rw after (a.0, All-insert P r t p a.1)
]

All-by_time : (P : DomainEvent → Type 0) (t : List DomainEvent) → All P t → All P (by_time t)
unfolding by_time
All-by_time P [] a = tt
All-by_time P (x ∷ t) a = All-insert P x (by_time t) a.0 (All-by_time P t a.1)

All-take : (P : DomainEvent → Type 0) (n : ℕ) (t : List DomainEvent) → All P t → All P (take n t)
All-take P zero t a = tt
All-take P (suc n) [] a = tt
All-take P (suc n) (x ∷ t) a = (a.0, All-take P n t a.1)

take-IsOldestFirst : (n : ℕ) (t : List DomainEvent) → IsOldestFirst t → IsOldestFirst (take n t)
take-IsOldestFirst zero t h = tt
take-IsOldestFirst (suc n) [] h = tt
take-IsOldestFirst (suc n) (x ∷ t) h =
    (All-take (λ y. x.created_at ≤ y.created_at) n t h.0, take-IsOldestFirst n t h.1)

pub length-take_le {ℓ} : {A : Type ℓ} (n : ℕ) (t : List A) → length (take n t) ≤ n
length-take_le zero t = omega arith
length-take_le (suc n) [] = omega arith
length-take_le (suc n) (x ∷ t) = omega (arith, length-take_le n t)

-- The outbox hands out at most `limit` events; each waits for publication or failed before, and is
-- of a wanted type; and no event comes before an older one.
pub pending_sound :
    (limit : ℕ) (types : Option (List EventType)) (s : Db) (batch : List DomainEvent)
    → (pending limit types s).0 ≡ ok batch
    → AllPending types batch × IsOldestFirst batch × (length batch ≤ limit)
unfolding pending
pending_sound limit types s batch h =
    let waiting = filter (is_pending types) s.events in
    let e : take limit (by_time waiting) ≡ batch = cc in
    rw (← e) (
      All-take (λ r. is_pending types r ≡ true) limit (by_time waiting)
          (All-by_time (λ r. is_pending types r ≡ true) waiting (filter-AllPending types s.events)),
      take-IsOldestFirst limit (by_time waiting) (by_time-IsOldestFirst waiting),
      length-take_le limit (by_time waiting),
    )

Memᴰ-filter :
    (types : Option (List EventType)) (r : DomainEvent) (t : List DomainEvent)
    → is_pending types r ≡ true
    → Memᴰ r t
    → Memᴰ r (filter (is_pending types) t)
Memᴰ-filter types r [] p m = elim m [ ]
Memᴰ-filter types r (x ∷ t) p (Memᴰ.head e) = rw (← e, p) (Memᴰ.head refl)
Memᴰ-filter types r (x ∷ t) p (Memᴰ.tail m) = elim (Bool-cases (is_pending types x)) [
  | inl keep ↦ rw keep (Memᴰ.tail (Memᴰ-filter types r t p m))
  | inr drop ↦ rw drop (Memᴰ-filter types r t p m)
]

Memᴰ-insert_self : (r : DomainEvent) (t : List DomainEvent) → Memᴰ r (insert_by_time r t)
unfolding insert_by_time
Memᴰ-insert_self r [] = Memᴰ.head refl
Memᴰ-insert_self r (y ∷ t) = elim (Bool-cases (leb r.created_at y.created_at)) [
  | inl before ↦ rw before (Memᴰ.head refl)
  | inr after ↦ rw after (Memᴰ.tail (Memᴰ-insert_self r t))
]

Memᴰ-insert : (x r : DomainEvent) (t : List DomainEvent) → Memᴰ r t → Memᴰ r (insert_by_time x t)
unfolding insert_by_time
Memᴰ-insert x r [] m = elim m [ ]
Memᴰ-insert x r (y ∷ t) (Memᴰ.head e) = elim (Bool-cases (leb x.created_at y.created_at)) [
  | inl before ↦ rw before (Memᴰ.tail (Memᴰ.head e))
  | inr after ↦ rw after (Memᴰ.head e)
]
Memᴰ-insert x r (y ∷ t) (Memᴰ.tail m) = elim (Bool-cases (leb x.created_at y.created_at)) [
  | inl before ↦ rw before (Memᴰ.tail (Memᴰ.tail m))
  | inr after ↦ rw after (Memᴰ.tail (Memᴰ-insert x r t m))
]

Memᴰ-by_time : (r : DomainEvent) (t : List DomainEvent) → Memᴰ r t → Memᴰ r (by_time t)
unfolding by_time
Memᴰ-by_time r [] m = elim m [ ]
Memᴰ-by_time r (x ∷ t) (Memᴰ.head e) = rw (← e) (Memᴰ-insert_self r (by_time t))
Memᴰ-by_time r (x ∷ t) (Memᴰ.tail m) = Memᴰ-insert x r (by_time t) (Memᴰ-by_time r t m)

length-insert_by_time :
    (r : DomainEvent) (t : List DomainEvent) → length (insert_by_time r t) ≡ suc (length t)
unfolding insert_by_time
length-insert_by_time r [] = refl
length-insert_by_time r (y ∷ t) = ground (arith, length-insert_by_time r t)

length-by_time : (t : List DomainEvent) → length (by_time t) ≡ length t
unfolding by_time
length-by_time [] = refl
length-by_time (x ∷ t) = omega (arith, length-insert_by_time x (by_time t), length-by_time t)

take_all : (n : ℕ) (t : List DomainEvent) → length t ≤ n → take n t ≡ t
take_all zero [] h = refl
take_all zero (x ∷ t) h = absurd (omega arith)
take_all (suc n) [] h = refl
take_all (suc n) (x ∷ t) h = ap (λ u. x ∷ u) (take_all n t (omega arith))

-- When no more than `limit` events wait, the outbox hands out every event that does.
pub pending_complete :
    (limit : ℕ) (types : Option (List EventType)) (s : Db) (batch : List DomainEvent)
    (r : DomainEvent)
    → (pending limit types s).0 ≡ ok batch
    → length (filter (is_pending types) s.events) ≤ limit
    → Memᴰ r s.events
    → is_pending types r ≡ true
    → Memᴰ r batch
unfolding pending
pending_complete limit types s batch r h few m p =
    let waiting = filter (is_pending types) s.events in
    let all = take_all limit (by_time waiting) (omega (arith, length-by_time waiting)) in
    let e : by_time waiting ≡ batch = cc all in
    rw (← e) (Memᴰ-by_time r waiting (Memᴰ-filter types r s.events p m))
