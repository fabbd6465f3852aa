-- ===== src/Customers/Fields.antt =====
-- backend/app/customers/commands.py: the fields of a request, checked.
use recurring_service_platfo.Base.{
  leb, ◌==◌, if◌then◌else◌, get_or, validation_failed, Result, ok, err, ◌>>=◌, reraise, ℕ, zero,
  suc, Bool, true, false, not, ◌&&◌, ◌||◌, Option, none, some, [], ◌∷◌,
}
use recurring_service_platfo.Base.Int.{ℤ}
use recurring_service_platfo.Core.Text.{Text, strip, is_empty}
use recurring_service_platfo.Core.Money.{
  PyValue, int_value, quantize_quantity, validate_unit_price_minor, decimal_of_quantity,
}
use recurring_service_platfo.Models.{Customer}
use recurring_service_platfo.Search.Names.{Unicode, normalize_text}

pub record CreateCustomerInput : Type 0 where
  pub code : Text
  pub name : Text
  pub phone_e164 : Option Text
  pub whatsapp_e164 : Option Text
  pub address : Option Text
  pub area : Option Text
  pub default_quantity : PyValue
  pub unit_price_minor : PyValue

-- `unknown_status` is any other text.
pub data StatusInput : Type 0 where
  active_input inactive_input unknown_status : StatusInput

-- `none` is a field that is absent (`_UNSET`).
pub record UpdateCustomerInput : Type 0 where
  pub name : Option Text
  pub phone_e164 : Option (Option Text)
  pub whatsapp_e164 : Option (Option Text)
  pub address : Option (Option Text)
  pub area : Option (Option Text)
  pub default_quantity : Option PyValue
  pub unit_price_minor : Option PyValue
  pub status : Option StatusInput
  pub expected_row_version : Option ℕ

-- `\d{low,low + room}$` at a text: as many digits as there are, and then the end, or a newline that
-- ends the text.
abbrev pub is_end : Text → Bool
is_end [] = true
is_end (c ∷ []) = c == 10
is_end (c ∷ d ∷ cs) = false

unfoldable pub digits_match : (ℕ → Bool) → ℕ → ℕ → Text → Bool
digits_match is_decimal (suc low) room [] = false
digits_match is_decimal (suc low) room (c ∷ cs) =
    is_decimal c && digits_match is_decimal low room cs
digits_match is_decimal zero zero cs = is_end cs
digits_match is_decimal zero (suc room) [] = true
digits_match is_decimal zero (suc room) (c ∷ cs) =
    is_end (c ∷ cs) || (is_decimal c && digits_match is_decimal zero room cs)

-- `^\+[1-9]\d{6,14}$`.
unfoldable pub is_e164 : (ℕ → Bool) → Text → Bool
is_e164 is_decimal (plus ∷ c ∷ cs) =
    plus == b'+' && (leb b'1' c && (leb c b'9' && digits_match is_decimal 6 8 cs))
is_e164 is_decimal _ = false

unfoldable pub validate_phone : Unicode → Option Text → Result (Option Text)
validate_phone u none = ok none
validate_phone u (some []) = ok none
validate_phone u (some (c ∷ cs)) =
    if is_e164 u.is_decimal (c ∷ cs) then ok (some (c ∷ cs)) else err validation_failed

unfoldable pub validate_quantity : PyValue → Result ℕ
validate_quantity value = reraise validation_failed (quantize_quantity value)

unfoldable pub validate_price : PyValue → Result ℤ
validate_price value = reraise validation_failed (validate_unit_price_minor value)

abbrev pub is_stale : Option ℕ → ℕ → Bool
is_stale none row_version = false
is_stale (some expected) row_version = not (row_version == expected)

abbrev pub set_name : Unicode → Option Text → Customer → Result Customer
set_name u none c = ok c
set_name u (some name) c =
    if is_empty (strip name)
    then err validation_failed
    else ok (record c { name = strip name; normalized_name = normalize_text u (strip name) })

abbrev pub set_phone : Unicode → Option (Option Text) → Customer → Result Customer
set_phone u none c = ok c
set_phone u (some phone) c = do p ← validate_phone u phone; ok (record c { phone_e164 = p })

abbrev pub set_whatsapp : Unicode → Option (Option Text) → Customer → Result Customer
set_whatsapp u none c = ok c
set_whatsapp u (some phone) c = do p ← validate_phone u phone; ok (record c { whatsapp_e164 = p })

abbrev pub set_quantity : Option PyValue → Customer → Result Customer
set_quantity none c = ok c
set_quantity (some value) c = do
  quantity ← validate_quantity value
  price ← validate_price (int_value c.unit_price_minor)
  ok (record c { default_quantity = quantity })

abbrev pub set_price : Option PyValue → Customer → Result Customer
set_price none c = ok c
set_price (some value) c = do
  quantity ← validate_quantity (decimal_of_quantity c.default_quantity)
  price ← validate_price value
  ok (record c { unit_price_minor = price })

abbrev pub set_status : Option StatusInput → Customer → Result Customer
set_status none c = ok c
set_status (some active_input) c = ok (record c { is_active = true })
set_status (some inactive_input) c = ok (record c { is_active = false })
set_status (some unknown_status) c = err validation_failed

-- The fields of a request in the order of the code; a later one sees what an earlier one set.
unfoldable pub updated_customer : Unicode → UpdateCustomerInput → Customer → Result Customer
updated_customer u input c = do
  named ← set_name u input.name c
  phoned ← set_phone u input.phone_e164 named
  reached ← set_whatsapp u input.whatsapp_e164 phoned
  counted ← set_quantity input.default_quantity (record reached {
    address = get_or input.address reached.address;
    area = get_or input.area reached.area;
  })
  priced ← set_price input.unit_price_minor counted
  set_status input.status priced
