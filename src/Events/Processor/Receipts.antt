-- ===== src/Events/Processor/Receipts.antt =====
-- One call of `_process_handler`: it runs the handler, skips it, or raises and is rolled back.
use cax_commerce_operations.Prelude.{
  ℕ, ◌≡◌, refl, String, Bool, true, false, ◌&&◌, ◌||◌, none, List, [], ◌∷◌, ◌++◌, arith, any,
  is_some, inl, inr, ◌⊎◌, ◌==◌, Eq-nat, Eq-string, Bool-cases, Option-cases, eq_self,
}
use cax_commerce_operations.Errors.{Error, ok, err, Result-cases}
use cax_commerce_operations.Persistence.Enums.{HandlerReceiptStatus}
use cax_commerce_operations.Persistence.Tables.{get, add}
use cax_commerce_operations.Persistence.Models.{
  DomainEvent, EventHandlerReceipt, HasId-domain_event,
}
use cax_commerce_operations.Events.Store.{EventEnvelope, to_envelope}
use cax_commerce_operations.Events.Handlers.{RegisteredHandler}
use cax_commerce_operations.Session.{Db}
use cax_commerce_operations.Events.Processor.{has_receipt, run_handler, process_handler}

-- What the processor relies on: a handler's callback leaves the receipts and the stored events'
-- presence to the processor.
pub record IsTame (h : RegisteredHandler) : Type 0 where
  pub same_receipts : (e : EventEnvelope) (s : Db) → (h.callback e s).1.receipts ≡ s.receipts
  pub events_stay :
      (e : EventEnvelope) (s : Db) (k : ℕ)
      → is_some (get k s.events) ≡ true
      → is_some (get k (h.callback e s).1.events) ≡ true

any-append {ℓ} :
    {A : Type ℓ} (p : A → Bool) (xs ys : List A) → any p (xs ++ ys) ≡ (any p xs || any p ys)
any-append p [] ys = refl
any-append p (x ∷ xs) ys = ground (arith, any-append p xs ys)

abbrev receipt_of : ℕ → String → EventHandlerReceipt
receipt_of event_id name = record {
  event_id = event_id;
  handler_name = name;
  status = HandlerReceiptStatus.completed;
}

-- A state in which the receipt of `name` was added, and no stored event went away.
record HasReceived (event_id : ℕ) (name : String) (s s' : Db) : Type 0 where
  receipts_grow : s'.receipts ≡ add (receipt_of event_id name) s.receipts
  event_stays : is_some (get event_id s.events) ≡ true → is_some (get event_id s'.events) ≡ true

run_handler_ok :
    (event_id : ℕ) (event : DomainEvent) (h : RegisteredHandler) (s : Db) (b : Bool) (s' : Db)
    → IsTame h
    → run_handler event_id event h s ≡ (ok b, s')
    → (b ≡ true) × HasReceived event_id h.name s s'
unfolding run_handler
run_handler_ok event_id event h s b s' tame e =
    let s₁ : Db = record s { receipts = add (receipt_of event_id h.name) s.receipts } in
    elim (Result-cases (to_envelope event)) [
      | inl (env, p) ↦
          ground (arith, p, tame.same_receipts env s₁, tame.events_stay env s₁ event_id)
      | inr (x, p) ↦ ground (arith, p)
    ]

has_receipt-add :
    (event_id : ℕ) (name other : String) (s s' : Db)
    → HasReceived event_id name s s'
    → has_receipt event_id other s' ≡ (has_receipt event_id other s || name == other)
has_receipt-add event_id name other s s' h =
    let p = λ (r : EventHandlerReceipt). r.event_id == event_id && r.handler_name == other in
    rw h.receipts_grow (
      rw (any-append p s.receipts (receipt_of event_id name ∷ []))
        (ground (arith, eq_self event_id)))

-- What holds between the states around a call of `process_handler` or of its loop.
pub record Progress (event_id : ℕ) (s s' : Db) : Type 0 where
  pub receipts_stay :
      (name : String) → has_receipt event_id name s ≡ true → has_receipt event_id name s' ≡ true
  pub event_stays : is_some (get event_id s.events) ≡ true → is_some (get event_id s'.events) ≡ true

-- A handler is skipped by its receipt, or runs and returns, or the call raises and is rolled back.
pub process_handler_cases :
    (event_id : ℕ) (h : RegisteredHandler) (s : Db)
    → ((has_receipt event_id h.name s ≡ true) × (process_handler event_id h s ≡ (ok false, s)))
      ⊎ ((event : DomainEvent) × (b : Bool) × (s' : Db) × (run_handler event_id event h s
            ≡ (ok b, s'))
          × (process_handler event_id h s ≡ (ok b, s')))
      ⊎ ((x : Error) × (process_handler event_id h s ≡ (err x, s))
          × ((has_receipt event_id h.name s ≡ false) ⊎ (get event_id s.events ≡ none)))
unfolding process_handler
process_handler_cases event_id h s = elim (Option-cases (get event_id s.events)) [
  | inl missing ↦ inr (inr (Error.event_not_found, ground arith, inr missing))
  | inr (event, found) ↦ elim (Bool-cases (has_receipt event_id h.name s)) [
    | inl done ↦ inl (done, ground arith)
    | inr new ↦ elim (Result-cases (run_handler event_id event h s).0) [
      | inl (b, p) ↦
          inr (inl (event, b, (run_handler event_id event h s).1, ground arith, ground arith))
      | inr (x, p) ↦ inr (inr (x, ground arith, inl new))
    ]
  ]
]

pub process_handler_ok :
    (event_id : ℕ) (h : RegisteredHandler) (s : Db) (b : Bool) (s' : Db)
    → IsTame h
    → process_handler event_id h s ≡ (ok b, s')
    → Progress event_id s s' × (has_receipt event_id h.name s' ≡ true)
process_handler_ok event_id h s b s' tame e = elim (process_handler_cases event_id h s) [
  | inl (done, p) ↦
      let same : s ≡ s' = cc in
      rw (← same) (record { receipts_stay = λ n r. r; event_stays = λ r. r }, done)
  | inr (inl (event, c, t, ran, p)) ↦
      let same : t ≡ s' = cc in
      let (_, grown) = run_handler_ok event_id event h s c t tame ran in
      rw (← same) (
        record {
          receipts_stay = λ n r. ground (arith, has_receipt-add event_id h.name n s t grown);
          event_stays = grown.event_stays;
        },
        ground (arith, has_receipt-add event_id h.name h.name s t grown, eq_self h.name),
      )
  | inr (inr (x, p, _)) ↦ cc
]
