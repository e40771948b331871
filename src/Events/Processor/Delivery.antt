-- ===== src/Events/Processor/Delivery.antt =====
-- Each handler of an event runs once: a successful delivery leaves a receipt for every handler, and
-- a handler that has its receipt is skipped.
use cax_commerce_operations.Prelude.{
  ℕ, ◌+◌, ◌≡◌, refl, true, false, none, some, List, [], ◌∷◌, arith, All, length, inl, inr, Eq-nat,
  Eq-string, Option-cases,
}
use cax_commerce_operations.Errors.{ok, Result-cases}
use cax_commerce_operations.Persistence.Enums.{EventStatus}
use cax_commerce_operations.Persistence.Tables.{get, get-put_self}
use cax_commerce_operations.Persistence.Models.{DomainEvent, HasId-domain_event}
use cax_commerce_operations.Events.Store.{EventEnvelope, to_envelope}
use cax_commerce_operations.Events.Handlers.{RegisteredHandler, EventHandlerRegistry, handlers_for}
use cax_commerce_operations.Session.{Db}
use cax_commerce_operations.Events.Processor.Receipts.{IsTame, Progress, process_handler_ok}
use cax_commerce_operations.Events.Processor.{
  ProcessingResult, has_receipt, process_handler, process_handlers, mark_complete, process,
}

abbrev pub AllTame : List RegisteredHandler → Type 0
AllTame = All IsTame

abbrev pub AllReceived : ℕ → List RegisteredHandler → Db → Type 0
AllReceived event_id handlers s = All (λ h. has_receipt event_id h.name s ≡ true) handlers

Progress-trans :
    {event_id : ℕ} {s t u : Db}
    → Progress event_id s t
    → Progress event_id t u
    → Progress event_id s u
Progress-trans a b = record {
  receipts_stay = λ n r. b.receipts_stay n (a.receipts_stay n r);
  event_stays = λ r. b.event_stays (a.event_stays r);
}

process_handlers_ok :
    (event_id : ℕ) (hs : List RegisteredHandler) (p k : ℕ) (s : Db) (c : ℕ × ℕ) (s' : Db)
    → AllTame hs
    → process_handlers event_id hs p k s ≡ (ok c, s')
    → Progress event_id s s' × AllReceived event_id hs s' × (c.0 + c.1 ≡ p + k + length hs)
unfolding process_handlers
process_handlers_ok event_id [] p k s c s' tame e =
    let same : s ≡ s' = cc in
    rw (← same) (record { receipts_stay = λ n r. r; event_stays = λ r. r }, tt, ground arith)
process_handlers_ok event_id (h ∷ hs) p k s c s' tame e =
    let s₁ = (process_handler event_id h s).1 in
    elim (Result-cases (process_handler event_id h s).0) [
      | inl (true, q) ↦
          let (step, got) = process_handler_ok event_id h s true s₁ tame.0 (ground arith) in
          let (rest, all, count) =
            process_handlers_ok event_id hs (p + 1) k s₁ c s' tame.1 (ground arith) in
          (Progress-trans step rest, (rest.receipts_stay h.name got, all), omega arith)
      | inl (false, q) ↦
          let (step, got) = process_handler_ok event_id h s false s₁ tame.0 (ground arith) in
          let (rest, all, count) =
            process_handlers_ok event_id hs p (k + 1) s₁ c s' tame.1 (ground arith) in
          (Progress-trans step rest, (rest.receipts_stay h.name got, all), omega arith)
      | inr (x, q) ↦ ground (arith, q)
    ]

-- `_mark_complete` marks the event as published and touches nothing else.
mark_complete_ok :
    (event_id : ℕ) (s s' : Db)
    → mark_complete event_id s ≡ (ok tt, s')
    → (s'.receipts ≡ s.receipts)
      × (x : DomainEvent) × (get event_id s'.events ≡ some x)
      × (x.publication_status ≡ EventStatus.published)
unfolding mark_complete
mark_complete_ok event_id s s' e = elim (Option-cases (get event_id s.events)) [
  | inl missing ↦ ground arith
  | inr (x, found) ↦
      let y : DomainEvent = record x {
        processing_attempts = x.processing_attempts + 1;
        publication_status = EventStatus.published;
        last_error = none;
      } in
      (ground arith, y, ground (arith, get-put_self event_id y x s.events found refl), refl)
]

mark_complete_returns :
    (event_id : ℕ) (s : Db) (event : DomainEvent)
    → get event_id s.events ≡ some event
    → (mark_complete event_id s).0 ≡ ok tt
unfolding mark_complete
mark_complete_returns event_id s event found = ground arith

AllReceived-same :
    (event_id : ℕ) (hs : List RegisteredHandler) (s t : Db)
    → t.receipts ≡ s.receipts
    → AllReceived event_id hs s
    → AllReceived event_id hs t
AllReceived-same event_id [] s t same all = tt
AllReceived-same event_id (h ∷ hs) s t same all =
    (rw same all.0, AllReceived-same event_id hs s t same all.1)

-- If processing an event returns, every handler registered for its type has a receipt, the numbers
-- of handlers that ran and that were skipped add up to all of them, and the event is stored as
-- published. The handlers are tame: they leave receipts and the presence of events alone.
pub process_delivers :
    (registry : EventHandlerRegistry) (event_id : ℕ) (event : DomainEvent) (env : EventEnvelope)
    (s s' : Db) (r : ProcessingResult)
    → get event_id s.events ≡ some event
    → to_envelope event ≡ ok env
    → AllTame (handlers_for registry env.event_type)
    → process registry event_id s ≡ (ok r, s')
    → AllReceived event_id (handlers_for registry env.event_type) s'
      × (r.handlers_processed + r.handlers_skipped ≡ length (handlers_for registry env.event_type))
      × (x : DomainEvent) × (get event_id s'.events ≡ some x)
      × (x.publication_status ≡ EventStatus.published)
unfolding process
process_delivers registry event_id event env s s' r found decoded tame e =
    let hs = registry.handlers env.event_type in
    let s₁ = (process_handlers event_id hs 0 0 s).1 in
    let s₂ = (mark_complete event_id s₁).1 in
    elim (Result-cases (process_handlers event_id hs 0 0 s).0) [
      | inl (c, p) ↦ elim (Result-cases (mark_complete event_id s₁).0) [
        | inl (u, q) ↦
            let same : s₂ ≡ s' = ground arith in
            let (progress, all, count) =
              process_handlers_ok event_id hs 0 0 s c s₁ tame (ground arith) in
            let (kept, x, stored, published) = mark_complete_ok event_id s₁ s₂ (ground arith) in
            rw (← same)
              (AllReceived-same event_id hs s₁ s₂ kept all, ground arith, x, stored, published)
        | inr (x, q) ↦ ground arith
      ]
      | inr (x, p) ↦ ground arith
    ]

process_handler_skips :
    (event_id : ℕ) (h : RegisteredHandler) (s : Db) (event : DomainEvent)
    → get event_id s.events ≡ some event
    → has_receipt event_id h.name s ≡ true
    → process_handler event_id h s ≡ (ok false, s)
unfolding process_handler
process_handler_skips event_id h s event found done = ground arith

process_handlers_skip :
    (event_id : ℕ) (hs : List RegisteredHandler) (p k : ℕ) (s : Db) (event : DomainEvent)
    → get event_id s.events ≡ some event
    → AllReceived event_id hs s
    → process_handlers event_id hs p k s ≡ (ok (p, k + length hs), s)
unfolding process_handlers
process_handlers_skip event_id [] p k s event found all = ground arith
process_handlers_skip event_id (h ∷ hs) p k s event found all = ground (
  arith,
  process_handler_skips event_id h s event found all.0,
  process_handlers_skip event_id hs p (k + 1) s event found all.1,
)

-- Once every handler has its receipt, processing the event again runs no handler: it counts all of
-- them as skipped and only marks the event.
pub process_again :
    (registry : EventHandlerRegistry) (event_id : ℕ) (event : DomainEvent) (env : EventEnvelope)
    (s : Db)
    → get event_id s.events ≡ some event
    → to_envelope event ≡ ok env
    → AllReceived event_id (handlers_for registry env.event_type) s
    → process registry event_id s ≡ (
      ok (record {
        event_id = event_id;
        handlers_processed = 0;
        handlers_skipped = length (handlers_for registry env.event_type);
      }),
      (mark_complete event_id s).1,
    )
unfolding process
process_again registry event_id event env s found decoded got = ground (
  arith,
  process_handlers_skip event_id (registry.handlers env.event_type) 0 0 s event found got,
  mark_complete_returns event_id s event found,
)
