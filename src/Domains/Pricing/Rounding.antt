-- ===== src/Domains/Pricing/Rounding.antt =====
-- How decimals are rounded: up to a whole number (ROUND_CEILING of `to_integral_value`), and to the
-- nearest, a tie to the even neighbour (`quantize` in the default context).
use native.Mathlib.Nat
use cax_commerce_operations.Prelude.{
  ℕ, ◌+◌, ◌-◌, ◌*◌, ◌/◌, ◌%◌, ◌≤◌, ◌<◌, ◌↔◌, arith, ltb, Eq-nat, if◌then◌else◌,
}
use cax_commerce_operations.Prelude.Int.{ℤ, sub_ℕ, pos_part, neg_part}

-- `num / den`, rounded up.
unfoldable pub ceil_div : ℕ → ℕ → ℕ
ceil_div num den = (num + (den - 1)) / den

-- `num / den`, to the nearest, a tie to the even neighbour.
unfoldable pub nearest : ℕ → ℕ → ℕ
nearest num den =
    let q = num / den in
    let twice = 2 * (num % den) in
    if ltb twice den then q else if ltb den twice then q + 1 else q + q % 2

-- `num * scale / den` to the nearest whole number, with the sign of `num`.
unfoldable pub quantize : ℤ → ℕ → ℕ → ℤ
unfolding nearest
quantize num scale den =
    sub_ℕ (nearest (pos_part num * scale) den) (nearest (neg_part num * scale) den)

-- `ceil_div num den` is the least whole number that is no less than the quotient.
pub ceil_div-le : (num den q : ℕ) → 0 < den → (ceil_div num den ≤ q) ↔ (num ≤ q * den)
unfolding ceil_div
ceil_div-le num den q h =
    let split = Nat.div-lt_iff_lt-mul {x = num + (den - 1)} {y = q + 1} h in
    (
      λ le. omega (arith, split.0 (omega (arith, le))),
      λ le. omega (arith, split.1 (omega (arith, le))),
    )
