-- ===== src/Approvals/Engine/Expiry.antt =====
-- `ApprovalEngine.expire_due`: exactly the pending approvals that are due expire.
use cax_commerce_operations.Prelude.{
  ℕ, ◌≡◌, refl, inl, inr, true, false, Bool, Option, some, List, [], ◌∷◌, arith, if◌then◌else◌,
  ◌==◌, Eq-nat, Bool-cases, ◌∙◌, ap, or_else, length, filter,
}
use cax_commerce_operations.Errors.{ok}
use cax_commerce_operations.Persistence.Tables.{get, put, get-put_ne, get-put_self, get-id}
use cax_commerce_operations.Persistence.Models.{Approval, HasId-approval}
use cax_commerce_operations.Session.{Db}
use cax_commerce_operations.Approvals.Engine.{expired, expire, is_expirable, expire_all, expire_due}

-- Every row of the list with the id `k` is `a`.
unfoldable pub Only : ℕ → Approval → List Approval → Type 0
Only k a [] = Unit {0}
Only k a (x ∷ l) = ((x.id == k) ≡ true → x ≡ a) × Only k a l

unfoldable has : ℕ → List Approval → Bool
has k [] = false
has k (x ∷ l) = if x.id == k then true else has k l

puts : ℕ → List Approval → List Approval → List Approval
puts now [] t = t
puts now (x ∷ l) t = puts now l (put (expired now "system" x) t)

expire_all_approvals :
    (now : ℕ) (l : List Approval) (s : Db)
    → (expire_all now l s).1.approvals ≡ puts now l s.approvals
unfolding expire_all expire puts
expire_all_approvals now [] s = refl
expire_all_approvals now (x ∷ l) s = expire_all_approvals now l (expire x now "system" s).1

expire_all_ok : (now : ℕ) (l : List Approval) (s : Db) → (expire_all now l s).0 ≡ ok tt
unfolding expire_all expire
expire_all_ok now [] s = refl
expire_all_ok now (x ∷ l) s = expire_all_ok now l (expire x now "system" s).1

puts_written :
    (now k : ℕ) (a b : Approval) (l t : List Approval)
    → Only k a l
    → (a.id == k) ≡ true
    → get k t ≡ some b
    → get k (puts now l t) ≡ some (if has k l then expired now "system" a else b)
unfolding puts has Only
puts_written now k a b [] t only same found = found
puts_written now k a b (x ∷ l) t only same found = elim (Bool-cases (x.id == k)) [
  | inl e ↦
      let x_is_a : x ≡ a = only.0 e in
      let there : get k (put (expired now "system" x) t) ≡ some (expired now "system" x) =
        get-put_self k (expired now "system" x) b t found (ground (arith, get-id k b t found)) in
      let rest =
        puts_written now k a (expired now "system" x) l (put (expired now "system" x) t) only.1 same
          there in
      rw e (
        rest ∙ elim (Bool-cases (has k l)) [
          | inl q ↦ rw q refl
          | inr q ↦ rw q (ap (λ y. some (expired now "system" y)) x_is_a)
        ])
  | inr e ↦
      let there : get k (put (expired now "system" x) t) ≡ some b =
        ground (arith, get-put_ne k (expired now "system" x) t) in
      rw e (puts_written now k a b l (put (expired now "system" x) t) only.1 same there)
]

-- The rows that are selected.
filter-Only :
    (k : ℕ) (a : Approval) (p : Approval → Bool) (l : List Approval)
    → Only k a l
    → Only k a (filter p l)
unfolding Only
filter-Only k a p [] only = tt
filter-Only k a p (x ∷ l) only = elim (Bool-cases (p x)) [
  | inl e ↦ rw e (only.0, filter-Only k a p l only.1)
  | inr e ↦ rw e (filter-Only k a p l only.1)
]

has-filter_none :
    (k : ℕ) (a : Approval) (p : Approval → Bool) (l : List Approval)
    → Only k a l
    → p a ≡ false
    → has k (filter p l) ≡ false
unfolding Only has
has-filter_none k a p [] only off = refl
has-filter_none k a p (x ∷ l) only off = elim (Bool-cases (x.id == k)) [
  | inl e ↦
      let x_is_a : x ≡ a = only.0 e in
      let skipped : p x ≡ false = ap p x_is_a ∙ off in
      rw skipped (has-filter_none k a p l only.1 off)
  | inr e ↦ ground (arith, e, has-filter_none k a p l only.1 off)
]

has-filter :
    (k : ℕ) (a : Approval) (p : Approval → Bool) (l : List Approval)
    → Only k a l
    → get k l ≡ some a
    → has k (filter p l) ≡ p a
unfolding Only has
has-filter k a p [] only found = ground arith
has-filter k a p (x ∷ l) only found = elim (Bool-cases (x.id == k)) [
  | inl e ↦
      let x_is_a : x ≡ a = only.0 e in
      elim (Bool-cases (p x)) [
        | inl q ↦ ground (arith, e, q, x_is_a)
        | inr q ↦ ground (arith, q, x_is_a, has-filter_none k a p l only.1)
      ]
  | inr e ↦ ground (arith, e, has-filter k a p l only.1)
]

-- Rows of the table with one id are one row.
abbrev pub ApprovalsAreKeyed : Db → Type 0
ApprovalsAreKeyed s = (k : ℕ) (a : Approval) → get k s.approvals ≡ some a → Only k a s.approvals

-- `expire_due` returns the number of the pending approvals that are due, and an approval that was
-- there before is afterwards expired at that time by the system if it was one of them, and as it was
-- otherwise. Approvals have ids of their own.
pub expire_due_exact :
    (at : Option ℕ) (s : Db) (k : ℕ) (a : Approval)
    → ApprovalsAreKeyed s
    → get k s.approvals ≡ some a
    → let now = or_else at s.clock in
      ((expire_due at s).0 ≡ ok (length (filter (is_expirable now) s.approvals)))
      × (get k (expire_due at s).1.approvals
          ≡ some (if is_expirable now a then expired now "system" a else a))
unfolding expire_due
expire_due_exact at s k a keyed found =
    let now = or_else at s.clock in
    let due = filter (is_expirable now) s.approvals in
    let done = expire_all_ok now due s in
    let only = keyed k a found in
    let same : (a.id == k) ≡ true = ground (arith, get-id k a s.approvals found) in
    let row =
      puts_written now k a a due s.approvals (filter-Only k a (is_expirable now) s.approvals only)
        same found in
    (
      rw done refl,
      rw done (
          rw (expire_all_approvals now due s) (
            row
            ∙ ap (λ b. some (if b then expired now "system" a else a))
                (has-filter k a (is_expirable now) s.approvals only found))),
    )
