-- ===== src/Application/Stock/Keeps.antt =====
-- Actions that leave the stock alone: neither an item nor a movement changes.
use cax_commerce_operations.Prelude.{
  ℕ, ◌≡◌, refl, String, Bool, true, false, Option, none, some, inl, inr, arith, Option-cases,
  if◌then◌else◌,
}
use cax_commerce_operations.Errors.{Error, ok, Result-cases}
use cax_commerce_operations.Persistence.Keys.{Key, CorrelationId}
use cax_commerce_operations.Persistence.Models.{AuditEvent}
use cax_commerce_operations.Events.Types.{EventPayload}
use cax_commerce_operations.Events.Store.{emit}
use cax_commerce_operations.Events.Store.Emit.{emit_frame}
use cax_commerce_operations.Session.{Db, Action}
use cax_commerce_operations.Session.Actions.{pure, or_raise, add_audit, then_pure, ◌>>=◌, ◌>>◌}

abbrev pub SameStock : Db → Db → Type 0
SameStock s s' = (s'.inventory ≡ s.inventory) × (s'.movements ≡ s.movements)

pub record KeepsStock {ℓ} {A : Type ℓ} (m : Action A) : Type ℓ where
  pub keeps : (s : Db) → SameStock s (m s).1

module _ {ℓ κ} {A : Type ℓ} {B : Type κ} where
  pub KeepsStock-bind :
      (m : Action A) (f : A → Action B)
      → KeepsStock m
      → ((a : A) → KeepsStock (f a))
      → KeepsStock (m >>= f)
  KeepsStock-bind m f h k = record {
    keeps = λ s. elim (Result-cases (m s).0) [
      | inl (a, e) ↦
          let (p, q) = h.keeps s in
          let next = k a in
          let (u, v) = next.keeps (m s).1 in (ground (arith, e, p, u), ground (arith, e, q, v))
      | inr (x, e) ↦ let (p, q) = h.keeps s in (ground (arith, e, p), ground (arith, e, q))
    ];
  }

pub KeepsStock-emit :
    (p : EventPayload) (kind : String) (id version : ℕ) (c : CorrelationId) (w : Option ℕ) (k : Key)
    → KeepsStock (emit p kind id version c w k)
KeepsStock-emit p kind id version c w k = record {
  keeps = λ s. let (n, t, e) = emit_frame p kind id version c w k s in (rw e refl, rw e refl);
}

pub KeepsStock-or_raise {ℓ} :
    {A : Type ℓ} (read : Db → Option A) (x : Error) → KeepsStock (λ s. or_raise (read s) x s)
KeepsStock-or_raise read x = record {
  keeps = λ s. elim (Option-cases (read s)) [
    | inl e ↦ (ground (arith, e), ground (arith, e))
    | inr (a, e) ↦ (ground (arith, e), ground (arith, e))
  ];
}

pub KeepsStock-pure {ℓ} : {A : Type ℓ} (a : A) → KeepsStock (pure a)
KeepsStock-pure a = record { keeps = λ s. (refl, refl) }

pub KeepsStock-if {ℓ} :
    {A : Type ℓ} (b : Bool) (m n : Action A)
    → KeepsStock m
    → KeepsStock n
    → KeepsStock (if b then m else n)
KeepsStock-if true m n h k = h
KeepsStock-if false m n h k = k

pub KeepsStock-given {ℓ} : {A : Type ℓ} (o : Option A) (x : Error) → KeepsStock (or_raise o x)
KeepsStock-given none x = record { keeps = λ s. (refl, refl) }
KeepsStock-given (some a) x = record { keeps = λ s. (refl, refl) }

pub KeepsStock-add_audit : (a : AuditEvent) → KeepsStock (add_audit a)
unfolding add_audit
KeepsStock-add_audit a = record { keeps = λ s. (refl, refl) }

-- With these `search` takes an action apart.
pub ruleset keeps_laws = (
  KeepsStock-bind, KeepsStock-emit, KeepsStock-or_raise, KeepsStock-given, KeepsStock-pure,
  KeepsStock-if, KeepsStock-add_audit,
)

-- A call that ends with `pure a`.
pub KeepsStock-ok {ℓ} :
    {A : Type ℓ} (m : Action (Unit {0})) (a r : A) (s s' : Db)
    → KeepsStock m
    → (m >> pure a) s ≡ (ok r, s')
    → (r ≡ a) × SameStock s s'
KeepsStock-ok m a r s s' h e =
    let (p, q) = h.keeps s in
    let (same, result) = then_pure m a s in
    (ground (arith, e, result), (ground (arith, e, same, p), ground (arith, e, same, q)))
