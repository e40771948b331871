-- ===== src/Domains/Pricing/Price.antt =====
-- What a calculated price is: the least price of the grid that meets every demand.
use native.Mathlib.Nat
use cax_commerce_operations.Prelude.{
  ℕ, ◌*◌, ◌≤◌, ◌<◌, ◌≡◌, ◌↔◌, ◌≢◌, arith, refl, inl, inr, ltb, Bool-cases, false,
}
use cax_commerce_operations.Prelude.Int.{pos_part}
use cax_commerce_operations.Errors.{Error, ok, err, Result-cases}
use cax_commerce_operations.Domains.Pricing.Rounding.{ceil_div, ceil_div-le}
use cax_commerce_operations.Domains.Pricing.{
  PricingInputs, CommercialPricingRules, PricingCalculation, Ratio, total_cost, price_for_margin,
  at_least, round_up, minimum_price_of, recommended_price_of, exceeds, calculate, calculate_price,
  validate,
}

-- `price` is a multiple of the increment.
abbrev pub OnGrid : ℕ → ℕ → Type 0
OnGrid increment price = (k : ℕ) × (price ≡ k * increment)

-- `price` is the least price of the grid that is no less than the quotient and no less than `floor`.
abbrev pub Least : Ratio → ℕ → ℕ → ℕ → Type 0
Least value floor increment price =
    OnGrid increment price
    × (value.num ≤ price * value.den)
    × (floor ≤ price)
    × ((k : ℕ)
        → value.num ≤ k * increment * value.den
        → floor ≤ k * increment
        → price ≤ k * increment)

rounded_low :
    (value : Ratio) (floor increment : ℕ)
    → 0 < increment
    → value.num < floor * value.den
    → Least value floor increment (ceil_div floor (1 * increment) * increment)
rounded_low value floor increment i low =
    let c = ceil_div floor (1 * increment) in
    let covers : floor ≤ c * increment =
      omega (arith, (ceil_div-le floor (1 * increment) c (omega arith)).0 (Nat.le_refl c)) in
    (
      (c, refl),
      omega (arith, low, Nat.mul-le-mul_right value.den covers),
      covers,
      λ k above tall.
          Nat.mul-le-mul_right increment
            ((ceil_div-le floor (1 * increment) k (omega arith)).1 (omega (arith, tall))),
    )

rounded_high :
    (value : Ratio) (floor increment : ℕ)
    → 0 < value.den
    → 0 < increment
    → floor * value.den ≤ value.num
    → Least value floor increment (ceil_div value.num (value.den * increment) * increment)
rounded_high value floor increment d i high =
    let grain : 0 < value.den * increment = Nat.mul-pos d i in
    let c = ceil_div value.num (value.den * increment) in
    let reaches : value.num ≤ c * increment * value.den =
      grind (arith, (ceil_div-le value.num (value.den * increment) c grain).0 (Nat.le_refl c)) in
    (
      (c, refl),
      reaches,
      Nat.le_of_mul-le-mul_right (Nat.le_trans high reaches) d,
      λ k above tall.
          Nat.mul-le-mul_right increment
            ((ceil_div-le value.num (value.den * increment) k grain).1 (grind (arith, above))),
    )

round_up-Least :
    (value : Ratio) (floor increment : ℕ)
    → 0 < value.den
    → 0 < increment
    → Least value floor increment (round_up (at_least value floor) increment)
round_up-Least value floor increment d i = elim (Bool-cases (ltb value.num (floor * value.den))) [
  | inl low ↦ rw low (rounded_low value floor increment i (ground (arith, low)))
  | inr high ↦ rw high (rounded_high value floor increment d i (ground (arith, high)))
]

-- What a pair of inputs and rules must satisfy.
abbrev pub IsPriceable : PricingInputs → CommercialPricingRules → Type 0
IsPriceable i r = validate i r ≡ ok tt

validated :
    (i : PricingInputs) (r : CommercialPricingRules)
    → IsPriceable i r
    → (0 < pos_part r.rounding_increment)
      × (pos_part i.target_margin < 10000)
      × (pos_part i.minimum_margin ≤ pos_part i.target_margin)
unfolding validate
validated i r h = ground arith

calculated :
    (i : PricingInputs) (r : CommercialPricingRules) (m p : ℕ) (c : PricingCalculation)
    → calculate i r m p ≡ ok c
    → (c.minimum_selling_price ≡ m) × (c.recommended_selling_price ≡ p) × (0 < p)
unfolding calculate
calculated i r m p c h = ground arith

-- A price that is returned passed every test.
priced :
    (i : PricingInputs) (r : CommercialPricingRules) (c : PricingCalculation)
    → calculate_price i r ≡ ok c
    → IsPriceable i r
      × (c.minimum_selling_price ≡ minimum_price_of i r)
      × (c.recommended_selling_price ≡ recommended_price_of i r)
      × (exceeds c.recommended_selling_price r.maximum_price ≡ false)
unfolding calculate_price
priced i r c h = elim (Result-cases (validate i r)) [
  | inr (x, bad) ↦ absurd (ground (arith, h, bad))
  | inl (u, good) ↦ elim (Bool-cases (exceeds (recommended_price_of i r) r.maximum_price)) [
    | inl over ↦ absurd (ground (arith, h, good, over))
    | inr fits ↦
        let same : calculate i r (minimum_price_of i r) (recommended_price_of i r) ≡ ok c =
          ground (arith, h, good, fits) in
        let (m, p, some_price) =
          calculated i r (minimum_price_of i r) (recommended_price_of i r) c same in
        (good, m, p, rw p fits)
  ]
]

minimum_price-Least :
    (i : PricingInputs) (r : CommercialPricingRules)
    → 0 < i.landed_cost.den
    → IsPriceable i r
    → Least
        (price_for_margin (total_cost i) i.minimum_margin)
        (pos_part r.minimum_price)
        (pos_part r.rounding_increment)
        (minimum_price_of i r)
unfolding minimum_price_of
minimum_price-Least i r d good =
    let (grain, target, ordered) = validated i r good in
    round_up-Least (price_for_margin (total_cost i) i.minimum_margin) (pos_part r.minimum_price)
      (pos_part r.rounding_increment) (Nat.mul-pos d (ground arith)) grain

recommended_price-Least :
    (i : PricingInputs) (r : CommercialPricingRules)
    → 0 < i.landed_cost.den
    → IsPriceable i r
    → Least
        (price_for_margin (total_cost i) i.target_margin)
        (minimum_price_of i r)
        (pos_part r.rounding_increment)
        (recommended_price_of i r)
unfolding recommended_price_of
recommended_price-Least i r d good =
    let (grain, target, ordered) = validated i r good in
    round_up-Least (price_for_margin (total_cost i) i.target_margin) (minimum_price_of i r)
      (pos_part r.rounding_increment) (Nat.mul-pos d (ground arith)) grain

-- A calculated price is the least multiple of the rounding increment that leaves the target margin
-- and is no lower than the minimum price; the minimum price is likewise the least that leaves the
-- minimum margin and is no lower than the configured one; and no maximum is exceeded. The landed
-- cost is a quotient of decimals.
pub calculate_price-Least :
    (i : PricingInputs) (r : CommercialPricingRules) (c : PricingCalculation)
    → 0 < i.landed_cost.den
    → calculate_price i r ≡ ok c
    → let grain = pos_part r.rounding_increment in
      Least
        (price_for_margin (total_cost i) i.target_margin)
        c.minimum_selling_price
        grain
        c.recommended_selling_price
      × Least
          (price_for_margin (total_cost i) i.minimum_margin)
          (pos_part r.minimum_price)
          grain
          c.minimum_selling_price
      × (exceeds c.recommended_selling_price r.maximum_price ≡ false)
calculate_price-Least i r c d h =
    let (good, m, p, fits) = priced i r c h in
    (rw (p, m) (recommended_price-Least i r d good), rw m (minimum_price-Least i r d good), fits)

Least-zero :
    (value : Ratio) (floor increment price : ℕ)
    → Least value floor increment price
    → (price ≡ 0) ↔ ((value.num ≡ 0) × (floor ≡ 0))
Least-zero value floor increment price (grid, covers, above, least) = (
  λ e. (omega (arith, rw e at covers), omega (arith, e, above)),
  λ (none_left : (value.num ≡ 0) × (floor ≡ 0)).
      omega (arith, least 0 (omega (arith, none_left)) (omega (arith, none_left))),
)

free_price :
    (i : PricingInputs) (r : CommercialPricingRules)
    → 0 < i.landed_cost.den
    → IsPriceable i r
    → (recommended_price_of i r ≡ 0) ↔ (((total_cost i).num ≡ 0) × (pos_part r.minimum_price ≡ 0))
free_price i r d good =
    let cost = total_cost i in
    let step = pos_part r.rounding_increment in
    let low =
      Least-zero (price_for_margin cost i.minimum_margin) (pos_part r.minimum_price) step
        (minimum_price_of i r) (minimum_price-Least i r d good) in
    let high =
      Least-zero (price_for_margin cost i.target_margin) (minimum_price_of i r) step
        (recommended_price_of i r) (recommended_price-Least i r d good) in
    (
      λ e. let up = high.0 e in let down = low.0 up.1 in (omega (arith, up.0), down.1),
      λ e. high.1 (omega (arith, e), low.1 (omega (arith, e), e.1)),
    )

nothing_exceeds :
    (i : PricingInputs) (r : CommercialPricingRules)
    → IsPriceable i r
    → exceeds 0 r.maximum_price ≡ false
unfolding validate
nothing_exceeds i r h = ground arith

calculate_free :
    (i : PricingInputs) (r : CommercialPricingRules) (m p : ℕ)
    → (calculate i r m p ≡ err Error.invalid_operation) ↔ (p ≡ 0)
unfolding calculate
calculate_free i r m p = ground arith

-- Of the inputs that pass every check, those of no cost and no minimum price, and no others, make the
-- calculation divide by a price of zero, and it raises the exception of the decimals in place of a
-- PricingValidationError.
pub calculate_price_undefined :
    (i : PricingInputs) (r : CommercialPricingRules)
    → 0 < i.landed_cost.den
    → IsPriceable i r
    → (calculate_price i r ≡ err Error.invalid_operation)
      ↔ (((total_cost i).num ≡ 0) × (pos_part r.minimum_price ≡ 0))
unfolding calculate_price
calculate_price_undefined i r d good =
    let free = free_price i r d good in
    let price = recommended_price_of i r in
    let stuck = calculate_free i r (minimum_price_of i r) price in
    elim (Bool-cases (exceeds price r.maximum_price)) [
      | inl over ↦
          let some_price : price ≢ 0 = λ e. cc (over, e, nothing_exceeds i r good) in
          (λ e. absurd (ground (arith, e, good, over)), λ e. absurd (some_price (free.1 e)))
      | inr fits ↦ (
        λ e. free.0 (stuck.0 (ground (arith, e, good, fits))),
        λ e. ground (arith, good, fits, stuck.1 (free.1 e)),
      )
    ]
