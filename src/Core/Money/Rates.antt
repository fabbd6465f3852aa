-- ===== src/Core/Money/Rates.antt =====
-- Basis points of an amount (COM-9).
use recurring_service_platfo.Base.{
  if◌then◌else◌, money_error, ok, err, ℕ, ◌+◌, ◌*◌, ◌≤◌, ◌≡◌, ap, ◌||◌, arith,
}
use recurring_service_platfo.Base.Int.{
  ℤ, pos, negsuc, pos_part, neg_part, magnitude, ◌+ℤ◌, ◌*ℤ◌, neg, ◌≤ℤ◌, ltb_ℤ, +ℤ_parts, int_laws,
}
use recurring_service_platfo.Core.Money.{
  int_value, rate_bp_scale, half_up, round_half_up, validate_rate_bp, apply_rate_bp,
}
use recurring_service_platfo.Core.Money.Rounding.{
  le_of_mul_lt, half_up_bounds, round_half_up-magnitude, round_half_up-neg, round_half_up_near,
}

-- What `apply_rate_bp` computes once its arguments are accepted.
abbrev pub rate_amount : ℤ → ℤ → ℤ
rate_amount base rate = round_half_up (base *ℤ rate) rate_bp_scale

-- A rate is applied to every amount exactly when it lies between 0 and 10000 basis points, and
-- the result is the product over 10000 rounded half up; any other rate is a money error
pub apply_rate_bp_lem :
    (base rate : ℤ)
    → apply_rate_bp (int_value base) (int_value rate) ≡ (
        if ltb_ℤ rate (pos 0) || ltb_ℤ (pos rate_bp_scale) rate
        then err money_error
        else ok (rate_amount base rate))
unfolding apply_rate_bp validate_rate_bp
apply_rate_bp_lem base rate = ground arith

magnitude-*ℤ : (a : ℤ) (r : ℕ) → magnitude (a *ℤ pos r) ≡ magnitude a * r
unfolding ◌*ℤ◌
magnitude-*ℤ (pos n) r = ground arith
magnitude-*ℤ (negsuc n) r = ground arith

neg-*ℤ : (a b : ℤ) → neg a *ℤ b ≡ neg (a *ℤ b)
unfolding ◌*ℤ◌ neg
neg-*ℤ (pos n) (pos r) = grind arith
neg-*ℤ (pos n) (negsuc r) = grind arith
neg-*ℤ (negsuc n) (pos r) = grind arith
neg-*ℤ (negsuc n) (negsuc r) = grind arith

-- Reversing an amount reverses its commission exactly, whatever the rounding did.
pub rate_amount-neg : (base rate : ℤ) → rate_amount (neg base) rate ≡ neg (rate_amount base rate)
rate_amount-neg base rate = rw (neg-*ℤ base rate) (round_half_up-neg (base *ℤ rate) rate_bp_scale)

-- At a rate of at most 10000 basis points the commission of an amount, of either sign, is never
-- larger than the amount
pub rate_amount-le :
    (base : ℤ) (r : ℕ) → r ≤ rate_bp_scale → magnitude (rate_amount base (pos r)) ≤ magnitude base
rate_amount-le base r h =
    rw (round_half_up-magnitude (base *ℤ pos r) rate_bp_scale, magnitude-*ℤ base r)
      (let (lo, _) = half_up_bounds (magnitude base * r) rate_bp_scale (omega arith) in
        let m : magnitude base * r ≤ magnitude base * rate_bp_scale = grind arith in
        le_of_mul_lt (half_up (magnitude base * r) rate_bp_scale) (magnitude base) 20000
          (omega arith))

*ℤ-parts :
    (a : ℤ) (r : ℕ)
    → pos_part (a *ℤ pos r) + neg_part a * r ≡ neg_part (a *ℤ pos r) + pos_part a * r
unfolding ◌*ℤ◌
*ℤ-parts (pos n) r = grind arith
*ℤ-parts (negsuc n) r = grind arith

-- Commission on a sum differs from the sum of the commissions by less than two minor units.
pub rate_amount-add :
    (a b : ℤ) (r : ℕ)
    → let split = rate_amount a (pos r) +ℤ rate_amount b (pos r) in
      let whole = rate_amount (a +ℤ b) (pos r) in
      (split ≤ℤ whole +ℤ pos 1) × (whole ≤ℤ split +ℤ pos 1)
rate_amount-add a b r =
    let near = λ (x : ℤ). round_half_up_near (x *ℤ pos r) rate_bp_scale (omega arith) in
    let linear = ap (λ (t : ℕ). t * r) (+ℤ_parts a b) in
    let na = near a in
    let nb = near b in
    let nw = near (a +ℤ b) in
    let pa = *ℤ-parts a r in let pb = *ℤ-parts b r in let pw = *ℤ-parts (a +ℤ b) r in omega int_laws
