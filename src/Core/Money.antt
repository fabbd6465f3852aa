-- ===== src/Core/Money.antt =====
-- backend/app/core/money.py: integer minor units, quantities in thousandths, one rounding rule.
--
-- A Decimal is its value, a coefficient over a power of ten. The contexts of 50 digits are exact for
-- the products of this module, whose factors come from BIGINT and NUMERIC(12,3) columns.
pub mod Rounding
pub mod Quantities
pub mod Rates
pub mod Format
use recurring_service_platfo.Base.{
  ltb, ◌==◌, if◌then◌else◌, any, Error, money_error, quantity_error, Result, ok, err, ◌>>=◌, ◌>>◌,
  raise_if, ℕ, zero, ◌+◌, ◌-◌, ◌*◌, ◌/◌, ◌^◌, ap, Bool, true, false, not, ◌||◌, Option, none, some,
}
use recurring_service_platfo.Base.Int.{ℤ, pos, magnitude, ◌*ℤ◌, neg, ltb_ℤ}

-- What `Decimal(…)` makes of a number or a text: `finite c s` is c / 10^s.
pub data Numeral : Type 0 where
  finite : ℤ → ℕ → Numeral
  non_finite : Numeral

-- A value of the dynamic language, as far as the checks here tell values apart. A text is what
-- `Decimal` reads in it, if anything.
pub data PyValue : Type 0 where
  float_value none_value other_value : PyValue
  bool_value : Bool → PyValue
  int_value : ℤ → PyValue
  decimal_value : Numeral → PyValue
  text_value : Option Numeral → PyValue

-- 999999999.999 in thousandths.
abbrev pub quantity_max : ℕ
quantity_max = 999_999_999_999

abbrev pub unit_price_minor_max : ℕ
unit_price_minor_max = 1_000_000_000_000

abbrev pub rate_bp_scale : ℕ
rate_bp_scale = 10_000

abbrev pub bigint_max : ℕ
bigint_max = 9_223_372_036_854_775_807

abbrev pub reject_float : PyValue → Error → Result (Unit {0})
reject_float float_value e = err e
reject_float _ e = ok tt

-- Half-up on a magnitude n / d.
unfoldable pub half_up : ℕ → ℕ → ℕ
half_up n d = (2 * n + d) / (2 * d)

-- `round_half_up` of the fraction n / d: away from zero on a tie, whatever the sign.
unfoldable pub round_half_up : ℤ → ℕ → ℤ
round_half_up n d =
    if ltb_ℤ n (pos 0) then neg (pos (half_up (magnitude n) d)) else pos (half_up (magnitude n) d)

-- `Decimal(value)`, or the exception that it raises.
unfoldable pub to_decimal : PyValue → Option Numeral
to_decimal (int_value n) = some (finite n 0)
to_decimal (decimal_value d) = some d
to_decimal (text_value t) = t
to_decimal _ = none

abbrev pub is_bool : PyValue → Bool
is_bool (bool_value _) = true
is_bool _ = false

-- The checks of `quantize_quantity` on c / 10^s; the result is in thousandths.
unfoldable pub quantize_finite : ℤ → ℕ → Result ℕ
quantize_finite c s =
    if ltb_ℤ c (pos 0)
    then err quantity_error
    else if ltb (quantity_max * 10 ^ s) (magnitude c * 1000)
    then err quantity_error
    else if half_up (magnitude c * 1000) (10 ^ s) * 10 ^ s == magnitude c * 1000
    then ok (half_up (magnitude c * 1000) (10 ^ s))
    else err quantity_error

abbrev pub quantize_numeral : Option Numeral → Result ℕ
quantize_numeral none = err quantity_error
quantize_numeral (some non_finite) = err quantity_error
quantize_numeral (some (finite c s)) = quantize_finite c s

unfoldable pub quantize_quantity : PyValue → Result ℕ
unfolding to_decimal
quantize_quantity value = do
  reject_float value quantity_error
  raise_if (is_bool value) quantity_error
  quantize_numeral (to_decimal value)

-- `isinstance(value, int)` and not a bool.
abbrev pub require_int : PyValue → Error → Result ℤ
require_int (int_value n) e = ok n
require_int _ e = err e

unfoldable pub validate_unit_price_minor : PyValue → Result ℤ
validate_unit_price_minor value = do
  n ← require_int value money_error
  raise_if (ltb_ℤ n (pos 0)) money_error
  raise_if (ltb_ℤ (pos unit_price_minor_max) n) money_error
  ok n

-- A stored quantity is a Decimal at scale 3.
abbrev pub decimal_of_quantity : ℕ → PyValue
decimal_of_quantity q = decimal_value (finite (pos q) 3)

unfoldable pub compute_charge_minor : PyValue → PyValue → Result ℤ
compute_charge_minor quantity unit_price_minor = do
  qty ← quantize_quantity quantity
  price ← validate_unit_price_minor unit_price_minor
  ok (round_half_up (pos qty *ℤ price) 1000)

unfoldable pub validate_rate_bp : PyValue → Result ℤ
validate_rate_bp value = do
  n ← require_int value money_error
  raise_if (ltb_ℤ n (pos 0) || ltb_ℤ (pos rate_bp_scale) n) money_error
  ok n

unfoldable pub apply_rate_bp : PyValue → PyValue → Result ℤ
apply_rate_bp base_amount_minor rate_bp = do
  base ← require_int base_amount_minor money_error
  rate ← validate_rate_bp rate_bp
  ok (round_half_up (base *ℤ rate) rate_bp_scale)

-- `multiply_minor`: the same rounding over a usage quantity of any scale.
unfoldable pub multiply_minor : PyValue → PyValue → Result ℤ
multiply_minor quantity unit_price_minor = do
  reject_float quantity quantity_error
  price ← validate_unit_price_minor unit_price_minor
  elim quantity [
    | decimal_value (finite c s) ↦
        if ltb_ℤ c (pos 0) then err quantity_error else ok (round_half_up (c *ℤ price) (10 ^ s))
    | _ ↦ err quantity_error
  ]
