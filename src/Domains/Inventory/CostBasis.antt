-- ===== src/Domains/Inventory/CostBasis.antt =====
-- What the weighted cost basis says of the value of the stock.
use native.Mathlib.Nat.{div-mul-le_self, lt-div-mul-add, mul-le-mul_right}
use cax_commerce_operations.Prelude.{ℕ, ◌+◌, ◌*◌, ◌≤◌, ◌<◌, ◌≡◌, inl, inr, arith, ltb, Bool-cases}
use cax_commerce_operations.Prelude.Int.{pos}
use cax_commerce_operations.Errors.{ok}
use cax_commerce_operations.Domains.Inventory.{half_up, weighted_cost_basis}

-- The rounded quotient is off by at most a half.
half_up_bounds :
    (num den : ℕ)
    → 0 < den
    → (2 * (half_up num den * den) ≤ 2 * num + den) × (2 * num ≤ 2 * (half_up num den * den) + den)
unfolding half_up
half_up_bounds num den h =
    let low = div-mul-le_self (2 * num + den) (2 * den) in
    let high = lt-div-mul-add {a = 2 * num + den} {b = 2 * den} (omega (arith, h)) in
    (omega (arith, low), omega (arith, high))

weighted_value :
    (q a c b b' : ℕ)
    → weighted_cost_basis q b (pos a) (pos c) ≡ ok b'
    → (0 < a) × (b' ≡ half_up (b * q + c * a) (q + a))
unfolding weighted_cost_basis
weighted_value q a c b b' h = ground (arith, h)

-- Receiving `a` units at unit cost `c` into `q` units at cost basis `b` gives a basis `b'` that keeps
-- the value of the stock, b * q + c * a, up to half a ten-thousandth for each of the q + a units:
-- the rounding of the stored basis loses or creates no more.
pub weighted_cost_basis-value :
    (q a c b b' : ℕ)
    → weighted_cost_basis q b (pos a) (pos c) ≡ ok b'
    → (2 * (b' * (q + a)) ≤ 2 * (b * q + c * a) + (q + a))
      × (2 * (b * q + c * a) ≤ 2 * (b' * (q + a)) + (q + a))
weighted_cost_basis-value q a c b b' h =
    let (some_come, e) = weighted_value q a c b b' h in
    rw (e) (half_up_bounds (b * q + c * a) (q + a) (omega (arith, some_come)))

below : (lo b num den : ℕ) → 0 < den → lo * den ≤ num → 2 * num ≤ 2 * (b * den) + den → lo ≤ b
below lo b num den some_den l h = elim (Bool-cases (ltb b lo)) [
  | inl less ↦
      let more : b + 1 ≤ lo = ground (arith, less) in
      absurd (omega (arith, mul-le-mul_right den more, some_den, l, h))
  | inr not_less ↦ ground (arith, not_less)
]

above : (hi b num den : ℕ) → 0 < den → num ≤ hi * den → 2 * (b * den) ≤ 2 * num + den → b ≤ hi
above hi b num den some_den u h = elim (Bool-cases (ltb hi b)) [
  | inl less ↦
      let more : hi + 1 ≤ b = ground (arith, less) in
      absurd (omega (arith, mul-le-mul_right den more, some_den, u, h))
  | inr not_less ↦ ground (arith, not_less)
]

-- The new basis is an average: it lies between any bounds that hold for the old basis and for the
-- unit cost of what comes in.
pub weighted_cost_basis_bounds :
    (q a c lo hi b b' : ℕ)
    → weighted_cost_basis q b (pos a) (pos c) ≡ ok b'
    → lo ≤ b
    → b ≤ hi
    → lo ≤ c
    → c ≤ hi
    → (lo ≤ b') × (b' ≤ hi)
weighted_cost_basis_bounds q a c lo hi b b' h l u lc uc =
    let (some_come, e) = weighted_value q a c b b' h in
    let (low, high) = half_up_bounds (b * q + c * a) (q + a) (omega (arith, some_come)) in
    rw (e) (
      below lo (half_up (b * q + c * a) (q + a)) (b * q + c * a) (q + a) (omega (arith, some_come))
          (omega (arith, mul-le-mul_right q l, mul-le-mul_right a lc)) high,
      above hi (half_up (b * q + c * a) (q + a)) (b * q + c * a) (q + a) (omega (arith, some_come))
          (omega (arith, mul-le-mul_right q u, mul-le-mul_right a uc)) low,
    )
