-- ===== src/Core/Money/Quantities.antt =====
-- Which quantities are accepted, and what a service charge comes to (FIN-2, FIN-3).
use native.Mathlib.Nat.{pow-suc}
use recurring_service_platfo.Base.{
  ok, >>=-eq-ok, ℕ, zero, suc, ◌+◌, ◌*◌, ◌^◌, ◌≤◌, ◌<◌, ◌≡◌, refl, ◌↔◌, arith,
}
use recurring_service_platfo.Base.Int.{ℤ, pos, negsuc, magnitude, ◌*ℤ◌, ◌≤ℤ◌}
use recurring_service_platfo.Core.Money.{
  PyValue, int_value, quantity_max, unit_price_minor_max, bigint_max, half_up, round_half_up,
  quantize_finite, quantize_quantity, validate_unit_price_minor, decimal_of_quantity,
  compute_charge_minor,
}
use recurring_service_platfo.Core.Money.Rounding.{le_of_mul_lt, half_up_bounds, half_up_exact}

pub ten_pow_pos : (s : ℕ) → 0 < 10 ^ s
ten_pow_pos zero = omega arith
ten_pow_pos (suc s) = let h : 0 < 10 ^ s = ten_pow_pos s in rw pow-suc (omega arith)

quantize_finite_sound :
    (c : ℤ) (s q : ℕ)
    → quantize_finite c s ≡ ok q
    → (pos 0 ≤ℤ c) × (q * 10 ^ s ≡ magnitude c * 1000) × (q ≤ quantity_max)
unfolding quantize_finite
quantize_finite_sound c s q h = ground (arith, ten_pow_pos s, le_of_mul_lt q quantity_max (10 ^ s))

quantize_finite_complete :
    (c : ℤ) (s q : ℕ)
    → pos 0 ≤ℤ c
    → q * 10 ^ s ≡ magnitude c * 1000
    → q ≤ quantity_max
    → quantize_finite c s ≡ ok q
unfolding quantize_finite
quantize_finite_complete c s q nonneg exact within =
    let fits : q * 10 ^ s ≤ quantity_max * 10 ^ s = grind arith in
    let back : half_up (magnitude c * 1000) (10 ^ s) ≡ q =
      rw (← exact) (half_up_exact q (10 ^ s) (ten_pow_pos s)) in
    rw back (ground arith)

-- A decimal number is accepted as a quantity exactly when it is a whole number of thousandths,
-- not negative and within the range of the column, and it is stored as that number of thousandths
pub quantize_finite_iff :
    (c : ℤ) (s q : ℕ)
    → (quantize_finite c s ≡ ok q)
      ↔ ((pos 0 ≤ℤ c) × (q * 10 ^ s ≡ magnitude c * 1000) × (q ≤ quantity_max))
quantize_finite_iff c s q =
    (quantize_finite_sound c s q, λ h. quantize_finite_complete c s q h.0 h.1 h.2)

pub pos-*ℤ-pos : (a b : ℕ) → pos a *ℤ pos b ≡ pos (a * b)
unfolding ◌*ℤ◌
pos-*ℤ-pos a b = ground arith

pub round_half_up-pos : (n d : ℕ) → round_half_up (pos n) d ≡ pos (half_up n d)
unfolding round_half_up
round_half_up-pos n d = ground arith

pub validate_unit_price-ok :
    (p : ℕ) → p ≤ unit_price_minor_max → validate_unit_price_minor (int_value (pos p)) ≡ ok (pos p)
unfolding validate_unit_price_minor
validate_unit_price-ok p h = ground arith

pub validate_unit_price-inv :
    (v : PyValue) (p : ℤ)
    → validate_unit_price_minor v ≡ ok p
    → (n : ℕ) × (p ≡ pos n) × (v ≡ int_value (pos n)) × (n ≤ unit_price_minor_max)
unfolding validate_unit_price_minor
validate_unit_price-inv (int_value (pos n)) p h = (n, ground arith, refl, ground arith)
validate_unit_price-inv (int_value (negsuc n)) p h = absurd (ground arith)
validate_unit_price-inv _ p h = cc

-- A stored quantity in the range of the column, read back as a decimal, is accepted again with
-- the same value
pub quantize_quantity-stored :
    (q : ℕ) → q ≤ quantity_max → quantize_quantity (decimal_of_quantity q) ≡ ok q
unfolding quantize_quantity
quantize_quantity-stored q h = quantize_finite_complete (pos q) 3 q (omega arith) refl h

-- The charge of a stored quantity at an accepted price is the product, rounded once.
pub compute_charge-stored :
    (q p : ℕ)
    → q ≤ quantity_max
    → p ≤ unit_price_minor_max
    → compute_charge_minor (decimal_of_quantity q) (int_value (pos p))
      ≡ ok (pos (half_up (q * p) 1000))
unfolding compute_charge_minor
compute_charge-stored q p hq hp =
    rw (quantize_quantity-stored q hq, validate_unit_price-ok p hp, compute_charge_minor)
      (rw (pos-*ℤ-pos q p, round_half_up-pos (q * p) 1000))

-- A charge that is computed comes from a quantity and a price that were accepted, is not
-- negative, and is the exact product rounded half up once
pub compute_charge_sound :
    (quantity price : PyValue) (c : ℤ)
    → compute_charge_minor quantity price ≡ ok c
    → (q p n : ℕ) × (quantize_quantity quantity ≡ ok q)
      × (price ≡ int_value (pos p))
      × (c ≡ pos n)
      × (n * 2000 ≤ 2 * (q * p) + 1000)
      × (2 * (q * p) + 1000 < (n + 1) * 2000)
unfolding compute_charge_minor
compute_charge_sound v w c h =
    let (q, eq, h₁) = >>=-eq-ok (quantize_quantity v) _ h in
    let (p, ep, h₂) = >>=-eq-ok (validate_unit_price_minor w) _ h₁ in
    let (n, e, ew, _) = validate_unit_price-inv w p ep in
    let (lo, hi) = half_up_bounds (q * n) 1000 (omega arith) in
    (
      q,
      n,
      half_up (q * n) 1000,
      eq,
      ew,
      cc (h₂, e, pos-*ℤ-pos q n, round_half_up-pos (q * n) 1000),
      omega arith,
      omega arith,
    )

-- At the largest quantity, every accepted unit price of 9,223,372,037 minor units or more gives a
-- charge that a BIGINT column cannot hold
pub compute_charge_overflows :
    (p : ℕ)
    → 9_223_372_037 ≤ p
    → p ≤ unit_price_minor_max
    → (n : ℕ) × (compute_charge_minor (decimal_of_quantity quantity_max) (int_value (pos p))
        ≡ ok (pos n))
      × (bigint_max < n)
compute_charge_overflows p lo hi =
    let (l, u) = half_up_bounds (quantity_max * p) 1000 (omega arith) in
    (
      half_up (quantity_max * p) 1000,
      compute_charge-stored quantity_max p (omega arith) hi,
      omega arith,
    )
