-- ===== src/Session/Actions.antt =====
-- How actions are put together.
use cax_commerce_operations.Prelude.{
  ℕ, ◌+◌, ◌≡◌, ◌⊎◌, inl, inr, arith, Bool, Option, none, some, if◌then◌else◌,
}
use cax_commerce_operations.Errors.{Error, Result, ok, err, Result-cases}
use cax_commerce_operations.Persistence.Models.{AuditEvent}
use cax_commerce_operations.Persistence.Tables.{add}
use cax_commerce_operations.Session.{Db, Action}

module _ {ℓ} {A : Type ℓ} where
  abbrev pub pure : A → Action A
  pure a s = (ok a, s)

  abbrev pub raise : Error → Action A
  raise e s = (err e, s)

  abbrev pub gets : (Db → A) → Action A
  gets f s = (ok (f s), s)

  -- The value of a call that does not touch the session.
  abbrev pub lift : Result A → Action A
  lift r s = (r, s)

  -- `if a is None: raise`
  abbrev pub or_raise : Option A → Error → Action A
  or_raise none e = raise e
  or_raise (some a) e = pure a

infixl 5 ◌>>=◌ ◌>>◌
abbrev pub ◌>>=◌ {ℓ κ} : {A : Type ℓ} {B : Type κ} → Action A → (A → Action B) → Action B
◌>>=◌ m f s = let (r, s') = m s in elim r [ ok a ↦ f a s' | err e ↦ (err e, s') ]

abbrev pub ◌>>◌ {ℓ κ} : {A : Type ℓ} {B : Type κ} → Action A → Action B → Action B
m >> k = m >>= λ _. k

abbrev pub raise_if : Bool → Error → Action (Unit {0})
raise_if b e = if b then raise e else pure tt

abbrev pub modify : (Db → Db) → Action (Unit {0})
modify f s = (ok tt, f s)

-- A new primary key.
unfoldable pub new_id : Action ℕ
new_id s = (ok s.next_id, record s { next_id = s.next_id + 1 })

-- `session.add(AuditEvent(...))`
unfoldable pub add_audit : AuditEvent → Action (Unit {0})
add_audit a = modify (λ s. record s { audits = add a s.audits })

-- `with session_factory.begin()` and `session.begin_nested()`: what a block wrote is rolled back if
-- it raises.
abbrev pub transact {ℓ} : {A : Type ℓ} → Action A → Action A
transact m s = let (r, s') = m s in elim r [ ok a ↦ (ok a, s') | err e ↦ (err e, s) ]

-- `m >> pure a` writes what `m` writes.
pub then_pure {ℓ} :
    {A : Type ℓ} (m : Action (Unit {0})) (a : A) (s : Db)
    → (((m >> pure a) s).1 ≡ (m s).1)
      × ((((m >> pure a) s).0 ≡ ok a) ⊎ ((x : Error) × (((m >> pure a) s).0 ≡ err x)))
then_pure m a s = elim (Result-cases (m s).0) [
  | inl (u, e) ↦ (ground (arith, e), inl (ground (arith, e)))
  | inr (x, e) ↦ (ground (arith, e), inr (x, ground (arith, e)))
]

-- A call that returns passed through a state in between.
pub bind_ok {ℓ κ} :
    {A : Type ℓ} {B : Type κ} (m : Action A) (f : A → Action B) (b : B) (s s' : Db)
    → (m >>= f) s ≡ (ok b, s')
    → (a : A) × (m s ≡ (ok a, (m s).1)) × (f a (m s).1 ≡ (ok b, s'))
bind_ok m f b s s' h = elim (Result-cases (m s).0) [
  | inl (a, e) ↦ (a, ground (arith, e), ground (arith, e))
  | inr (x, e) ↦ absurd (ground (arith, e))
]
