-- ===== src/Workflows/Scheduler/Keys.antt =====
-- The ids and keys of the stored runs, by which an event finds its run.
use cax_commerce_operations.Prelude.{
  ◌≡◌, refl, true, some, List, [], ◌∷◌, inl, inr, arith, ◌==◌, Eq-nat, Eq-option, Bool-cases,
}
use cax_commerce_operations.Persistence.Keys.{Key, Eq-key}
use cax_commerce_operations.Persistence.Tables.{get, put}
use cax_commerce_operations.Persistence.Models.{WorkflowRun, HasId-workflow_run}
use cax_commerce_operations.Workflows.Scheduler.{with_run_key}

-- The same runs, by id and key, in the same order.
abbrev pub SameKeys : List WorkflowRun → List WorkflowRun → Type 0
SameKeys [] [] = Unit
SameKeys (x ∷ t) (y ∷ u) = (x.id ≡ y.id) × (x.idempotency_key ≡ y.idempotency_key) × SameKeys t u
SameKeys _ _ = ⊥

pub SameKeys-refl : (t : List WorkflowRun) → SameKeys t t
SameKeys-refl [] = tt
SameKeys-refl (x ∷ t) = (refl, refl, SameKeys-refl t)

pub SameKeys-trans : (t u v : List WorkflowRun) → SameKeys t u → SameKeys u v → SameKeys t v
SameKeys-trans [] [] [] a b = tt
SameKeys-trans (x ∷ t) (y ∷ u) (z ∷ v) a b = ground (arith, SameKeys-trans t u v)
SameKeys-trans [] [] (z ∷ v) a b = b
SameKeys-trans [] (y ∷ u) v a b = absurd a
SameKeys-trans (x ∷ t) [] v a b = absurd a
SameKeys-trans (x ∷ t) (y ∷ u) [] a b = b

pub SameKeys-put :
    (r old : WorkflowRun) (t : List WorkflowRun)
    → get r.id t ≡ some old
    → r.idempotency_key ≡ old.idempotency_key
    → SameKeys t (put r t)
unfolding put
SameKeys-put r old [] h k = ground arith
SameKeys-put r old (x ∷ t) h k = ground (arith, SameKeys-put r old t, SameKeys-refl t)

with_run_key-key :
    (k : Key) (w : WorkflowRun) (t : List WorkflowRun)
    → with_run_key k t ≡ some w
    → (w.idempotency_key == some k) ≡ true
with_run_key-key k w [] a = ground arith
with_run_key-key k w (y ∷ t) a = ground (arith, with_run_key-key k w t)

-- The run of a key is found by its key again.
pub with_run_key-SameKeys :
    (k : Key) (w x : WorkflowRun) (t u : List WorkflowRun)
    → SameKeys t u
    → with_run_key k t ≡ some w
    → get w.id t ≡ some w
    → get w.id u ≡ some x
    → with_run_key k u ≡ some x
with_run_key-SameKeys k w x [] u same a b c = ground arith
with_run_key-SameKeys k w x (y ∷ t) [] same a b c = absurd same
with_run_key-SameKeys k w x (y ∷ t) (z ∷ u) same a b c =
    let (i, j, rest) = same in
    elim (Bool-cases (y.idempotency_key == some k)) [
      | inl this ↦ ground (arith, this, i, j)
      | inr other ↦
          let behind : with_run_key k t ≡ some w = ground (arith, other) in
          elim (Bool-cases (y.id == w.id)) [
            | inl this ↦
                let e : y ≡ w = ground (arith, this) in
                absurd (ground (arith, e, other, with_run_key-key k w t behind))
            | inr apart ↦
                let there : get w.id t ≡ some w = ground (arith, apart) in
                let further : get w.id u ≡ some x = ground (arith, apart, i) in
                let found = with_run_key-SameKeys k w x t u rest behind there further in
                ground (arith, found, other, j)
          ]
    ]
