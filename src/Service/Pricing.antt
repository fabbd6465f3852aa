-- ===== src/Service/Pricing.antt =====
-- backend/app/service/commands.py: `_resolve_quantity_and_charge`.
use recurring_service_platfo.Base.{
  validation_failed, Result, ok, err, ◌>>=◌, reraise, ℕ, Option, none, some,
}
use recurring_service_platfo.Base.Int.{ℤ, pos}
use recurring_service_platfo.Core.Money.{
  PyValue, int_value, quantize_quantity, decimal_of_quantity, compute_charge_minor,
}
use recurring_service_platfo.Models.{ServiceKind, skip}

abbrev pub charged : PyValue → ℤ → Result (ℕ × ℤ)
charged raw unit_price_minor = do
  q ← quantize_quantity raw
  c ← compute_charge_minor (decimal_of_quantity q) (int_value unit_price_minor)
  ok (q, c)

abbrev pub required_charge : Option PyValue → ℤ → Result (ℕ × ℤ)
required_charge none unit_price_minor = err validation_failed
required_charge (some raw) unit_price_minor =
    reraise validation_failed (charged raw unit_price_minor)

-- One rounding point; a SKIP is always zero and zero.
unfoldable pub resolve_quantity_and_charge : ServiceKind → Option PyValue → ℤ → Result (ℕ × ℤ)
resolve_quantity_and_charge skip raw unit_price_minor = ok (0, pos 0)
resolve_quantity_and_charge _ raw unit_price_minor = required_charge raw unit_price_minor
