-- ===== src/Search/Phone.antt =====
-- backend/app/search/normalize.py: phone numbers. The Unicode database is an argument: `digit` is
-- the decimal value of a code point that `isdigit` accepts, and `is_alpha` is `str.isalpha`.
pub mod Suffix
use recurring_service_platfo.Base.{
  ltb, leb, if◌then◌else◌, length, any, ok, ℕ, zero, suc, ◌+◌, ◌-◌, ◌/◌, ap, Bool, false, not, ◌&&◌,
  Option, none, some, [], ◌∷◌,
}
use recurring_service_platfo.Core.Text.{Text, is_empty}

abbrev pub max_query_length : ℕ
max_query_length = 120

abbrev pub phone_suffix_min_digits : ℕ
phone_suffix_min_digits = 7

abbrev pub phone_suffix_digits : ℕ
phone_suffix_digits = 9

-- `value[:n]`.
unfoldable pub take : ℕ → Text → Text
take zero t = []
take (suc n) [] = []
take (suc n) (c ∷ cs) = c ∷ take n cs

-- `value[n:]`.
unfoldable pub drop : ℕ → Text → Text
drop zero t = t
drop (suc n) [] = []
drop (suc n) (c ∷ cs) = drop n cs

-- Every digit as its ASCII character, in order.
unfoldable pub digits_of : (ℕ → Option ℕ) → Text → Text
digits_of digit [] = []
digits_of digit (c ∷ cs) = elim (digit c) [
  | none ↦ digits_of digit cs
  | some d ↦ (b'0' + d) ∷ digits_of digit cs
]

unfoldable pub normalize_phone : (ℕ → Option ℕ) → Option Text → Text
normalize_phone digit none = []
normalize_phone digit (some value) = digits_of digit (take max_query_length value)

-- The last nine digits, or nothing when there are fewer than seven.
abbrev pub suffix_of : Text → Text
suffix_of digits =
    if ltb (length digits) phone_suffix_min_digits
    then []
    else drop (length digits - phone_suffix_digits) digits

unfoldable pub phone_suffix : (ℕ → Option ℕ) → Option Text → Text
phone_suffix digit value = suffix_of (normalize_phone digit value)

abbrev pub is_present : Option Text → Bool
is_present none = false
is_present (some t) = not (is_empty t)

unfoldable pub looks_like_phone : (ℕ → Option ℕ) → (ℕ → Bool) → Option Text → Bool
looks_like_phone digit is_alpha none = false
looks_like_phone digit is_alpha (some value) =
    not (is_empty value)
    && (not (any is_alpha value)
        && leb phone_suffix_min_digits (length (normalize_phone digit (some value))))
