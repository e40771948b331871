-- ===== src/Worker/Cycle.antt =====
-- What one cycle of the worker does.
use cax_commerce_operations.Prelude.{
  ℕ, ◌+◌, ◌≤◌, ◌≡◌, refl, none, some, List, [], ◌∷◌, map, take, filter, length, inl, inr, arith,
}
use cax_commerce_operations.Errors.{Error, ok, Result-cases}
use cax_commerce_operations.Events.Store.{pending, by_time, is_pending}
use cax_commerce_operations.Events.Store.Reading.{length-take_le}
use cax_commerce_operations.Events.Handlers.{EventHandlerRegistry}
use cax_commerce_operations.Events.Processor.{process}
use cax_commerce_operations.Persistence.Models.{DomainEvent, WorkflowRun}
use cax_commerce_operations.Workflows.Definitions.{WorkflowEngine}
use cax_commerce_operations.Workflows.Scheduler.{
  retry_due, resume_all, resume, by_retry, is_retry_due,
}
use cax_commerce_operations.Worker.{Worker, counted, process_batch, run_once, core_event_types}
use cax_commerce_operations.Session.{Db, Action}
use cax_commerce_operations.Session.Actions.{pure, ◌>>=◌, transact, bind_ok}

length-map {ℓ κ} :
    {A : Type ℓ} {B : Type κ} (f : A → B) (xs : List A) → length (map f xs) ≡ length xs
length-map f [] = refl
length-map f (x ∷ xs) = omega (arith, length-map f xs)

counted_cases : (e : Error) (n m : ℕ) → counted e n ≡ ok m → m ≡ n
counted_cases e n m h = ground (arith, h)

batch_bounded :
    (registry : EventHandlerRegistry) (ids : List ℕ) (n m : ℕ) (s s' : Db)
    → process_batch registry ids n s ≡ (ok m, s')
    → m ≤ n + length ids
unfolding process_batch
batch_bounded registry [] n m s s' h = ground (arith, h)
batch_bounded registry (id ∷ ids) n m s s' h =
    let s₁ = (process registry id s).1 in
    elim (Result-cases (process registry id s).0) [
      | inl (r, good) ↦
          omega (arith, batch_bounded registry ids (n + 1) m s₁ s' (ground (arith, good, h)))
      | inr (e, bad) ↦ elim (Result-cases (counted e n)) [
        | inr (x, raised) ↦ absurd (ground (arith, bad, raised, h))
        | inl (k, logged) ↦
            let same = counted_cases e n k logged in
            omega
              (arith, same, batch_bounded registry ids k m s₁ s' (ground (arith, bad, logged, h)))
      ]
    ]

resume_all-length :
    (engine : WorkflowEngine) (now : ℕ) (due ws : List WorkflowRun) (s s' : Db)
    → resume_all engine now due s ≡ (ok ws, s')
    → length ws ≡ length due
unfolding resume_all
resume_all-length engine now [] ws s s' h = ground (arith, h)
resume_all-length engine now (w ∷ rest) ws s s' h =
    let (w', here, more) =
      bind_ok (resume engine w.id (some now))
        (λ w'. resume_all engine now rest >>= λ t. pure (w' ∷ t)) ws s s' h in
    let s₁ = (resume engine w.id (some now) s).1 in
    let (ws', there, last) =
      bind_ok (resume_all engine now rest) (λ t. pure (w' ∷ t)) ws s₁ s' more in
    let same = resume_all-length engine now rest ws' s₁ _ there in ground (arith, same, last)

transact_ok {ℓ} :
    {A : Type ℓ} (m : Action A) (a : A) (s s' : Db)
    → transact m s ≡ (ok a, s')
    → (t : Db) × (m s ≡ (ok a, t))
transact_ok m a s s' h = elim (Result-cases (m s).0) [
  | inl (b, e) ↦ ((m s).1, ground (arith, e, h))
  | inr (x, e) ↦ absurd (ground (arith, e, h))
]

retry_due_bounded :
    (engine : WorkflowEngine) (limit : ℕ) (ws : List WorkflowRun) (s s' : Db)
    → retry_due engine none limit s ≡ (ok ws, s')
    → length ws ≤ limit
unfolding retry_due
retry_due_bounded engine limit ws s s' h =
    let due = take limit (by_retry (filter (is_retry_due s.clock) s.workflows)) in
    omega (
      arith,
      resume_all-length engine s.clock due ws s s' h,
      length-take_le limit (by_retry (filter (is_retry_due s.clock) s.workflows)),
    )

-- A cycle reports at most two batches of work.
run_once_bounded :
    (w : Worker) (n : ℕ) (s s' : Db) → run_once w s ≡ (ok n, s') → n ≤ w.batch_size + w.batch_size
unfolding run_once pending
run_once_bounded w n s s' h =
    let events =
      take w.batch_size (by_time (filter (is_pending (some core_event_types)) s.events)) in
    let ids = map (λ (e : DomainEvent). e.id) events in
    let (processed, ran, rest) =
      bind_ok (process_batch w.registry ids 0)
        (λ p. transact (retry_due w.engine none w.batch_size) >>= λ r. pure (p + length r)) n s s'
        h in
    let s₁ = (process_batch w.registry ids 0 s).1 in
    let (retried, tried, last) =
      bind_ok (transact (retry_due w.engine none w.batch_size)) (λ r. pure (processed + length r)) n
        s₁ s' rest in
    let one = batch_bounded w.registry ids 0 processed s s₁ ran in
    let less =
      length-take_le w.batch_size
        (by_time (filter (is_pending (some core_event_types)) s.events)) in
    let same = length-map (λ (e : DomainEvent). e.id) events in
    let (s₂, due) = transact_ok (retry_due w.engine none w.batch_size) retried s₁ _ tried in
    let two = retry_due_bounded w.engine w.batch_size retried s₁ s₂ due in
    let sum : processed + length retried ≡ n = ground (arith, last) in
    omega (arith, one, less, same, two, sum)
