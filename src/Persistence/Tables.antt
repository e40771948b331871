-- ===== src/Persistence/Tables.antt =====
-- A table is the list of its rows, oldest first. A row is found by its primary key.
use cax_commerce_operations.Prelude.{
  ℕ, ◌≡◌, ◌≢◌, refl, Option, none, some, List, [], ◌∷◌, ◌++◌, arith, Eq-nat, ◌==◌, find,
  if◌then◌else◌,
}

-- The primary key of `EntityMixin`.
pub record HasId {ℓ} (A : Type ℓ) : Type ℓ where
  pub id_of : A → ℕ

-- `session.add(r)`
abbrev pub add {ℓ} : {A : Type ℓ} → A → List A → List A
add r t = t ++ r ∷ []

module _ {ℓ} {A : Type ℓ} ⦃e : HasId A⦄ where
  -- `session.get(A, k)`, or a select by the primary key
  abbrev pub get : ℕ → List A → Option A
  get k t = find (λ r. e.id_of r == k) t

  -- The row `r` is written in place of the row of its id.
  unfoldable pub put : A → List A → List A
  put r [] = []
  put r (x ∷ t) = if e.id_of x == e.id_of r then r ∷ t else x ∷ put r t

  pub get-put :
      (k : ℕ) (r : A) (t : List A) {old : A}
      → get (e.id_of r) t ≡ some old
      → get k (put r t) ≡ (if e.id_of r == k then some r else get k t)
  unfolding put
  get-put k r [] h = ground arith
  get-put k r (x ∷ t) {old} h = ground (arith, get-put k r t {old = old})

  pub get-add :
      (k : ℕ) (r : A) (t : List A)
      → get k t ≡ none
      → get k (add r t) ≡ (if e.id_of r == k then some r else none)
  get-add k r [] h = refl
  get-add k r (x ∷ t) h = ground (arith, get-add k r t)

  pub get-add_old : (k : ℕ) (r x : A) (t : List A) → get k t ≡ some x → get k (add r t) ≡ some x
  get-add_old k r x [] h = ground arith
  get-add_old k r x (y ∷ t) h = ground (arith, get-add_old k r x t)

  pub get-id : (k : ℕ) (x : A) (t : List A) → get k t ≡ some x → e.id_of x ≡ k
  get-id k x [] h = ground arith
  get-id k x (y ∷ t) h = ground (arith, get-id k x t)

  -- Writing back a row that was read by its key.
  pub get-put_self :
      (k : ℕ) (r old : A) (t : List A)
      → get k t ≡ some old
      → e.id_of r ≡ e.id_of old
      → get k (put r t) ≡ some r
  unfolding put
  get-put_self k r old [] h same = ground arith
  get-put_self k r old (x ∷ t) h same = ground (arith, get-put_self k r old t, get-id k old t)

  pub get-put_ne : (k : ℕ) (r : A) (t : List A) → e.id_of r ≢ k → get k (put r t) ≡ get k t
  unfolding put
  get-put_ne k r [] h = refl
  get-put_ne k r (x ∷ t) h = ground (arith, get-put_ne k r t)

  -- A row with a key of its own is added.
  pub get-add_new :
      (k : ℕ) (r : A) (t : List A)
      → get (e.id_of r) t ≡ none
      → get k (add r t) ≡ (if e.id_of r == k then some r else get k t)
  get-add_new k r [] h = refl
  get-add_new k r (x ∷ t) h = ground (arith, get-add_new k r t)
