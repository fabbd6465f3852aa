-- ===== src/Core/Money/Format.antt =====
-- backend/app/core/money.py: `format_minor`, an amount as a person reads it.
pub mod Digits
pub mod Reading
use recurring_service_platfo.Base.{
  ltb, leb, if◌then◌else◌, money_error, Result, ok, err, ℕ, zero, suc, ◌+◌, ◌-◌, ◌/◌, ◌%◌, ◌^◌, ap,
  not, [], ◌∷◌, ◌++◌,
}
use recurring_service_platfo.Base.Int.{ℤ, pos, magnitude, neg, ltb_ℤ}
use recurring_service_platfo.Core.Text.{Text}
use native.Mathlib.Nat.{pow-suc, mod-lt, div-add-mod'}

-- `str(n)` of a number that is not negative; n + 1 rounds are enough for its digits.
unfoldable pub decimal_from : ℕ → ℕ → Text
decimal_from zero n = []
decimal_from (suc fuel) n =
    let rest = decimal_from fuel (n / 10) ++ (b'0' + n % 10) ∷ [] in
    if ltb n 10 then (b'0' + n) ∷ [] else rest

unfoldable pub decimal : ℕ → Text
unfolding decimal_from
decimal n = decimal_from (suc n) n

-- The last `k` digits of a number, with leading zeros.
unfoldable pub padded : ℕ → ℕ → Text
padded zero n = []
padded (suc k) n = padded k (n / 10) ++ (b'0' + n % 10) ∷ []

-- `f"{n:,}"`.
unfoldable pub grouped_from : ℕ → ℕ → Text
unfolding decimal padded
grouped_from zero n = []
grouped_from (suc fuel) n =
    let rest = grouped_from fuel (n / 1000) ++ b',' ∷ padded 3 (n % 1000) in
    if ltb n 1000 then decimal n else rest

unfoldable pub grouped : ℕ → Text
unfolding grouped_from
grouped n = grouped_from (suc n) n

abbrev pub fraction_of : ℕ → ℕ → Text
fraction_of zero n = []
fraction_of (suc k) n = b'.' ∷ padded (suc k) n

-- The magnitude with its point, and the sign before it.
unfoldable pub number_text : ℕ → ℕ → Text
unfolding grouped padded
number_text exponent n = grouped (n / 10 ^ exponent) ++ fraction_of exponent (n % 10 ^ exponent)

abbrev pub sign_text : ℤ → Text
sign_text a = if ltb_ℤ a (pos 0) then b'-' ∷ [] else []

-- `abs` works in the default context of 28 digits, which is exact for an amount of up to 28 digits
-- and so for every value of a BIGINT column.
unfoldable pub format_minor : ℤ → Text → ℕ → Result Text
unfolding number_text
format_minor amount currency exponent =
    if leb exponent 4
    then ok (currency ++ b' ' ∷ (sign_text amount ++ number_text exponent (magnitude amount)))
    else err money_error
