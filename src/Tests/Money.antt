-- ===== src/Tests/Money.antt =====
-- Amounts: charges, quantities, rates, commission and costs.

use recurring_service_platfo.Commission.Events.{
  commission_minor_for, adjustment_minor_for, find_event, append_event, create_event,
}
use recurring_service_platfo.Session.{Db, new_id, after}
use recurring_service_platfo.Base.{
  ◌==◌, if◌then◌else◌, Result, ok, ℕ, ◌+◌, ◌*◌, ◌^◌, ◌≤◌, ◌<◌, ◌≡◌, refl, ◌↔◌, true, false, none,
  some, [], ◌∷◌, arith,
}
use recurring_service_platfo.Base.Int.{ℤ, pos, magnitude, ◌+ℤ◌, ◌-ℤ◌, ◌*ℤ◌, neg, ◌≤ℤ◌, ◌<ℤ◌}
use recurring_service_platfo.Core.Clock.{resolve_date}
use recurring_service_platfo.Core.Money.{
  int_value, quantity_max, bigint_max, half_up, round_half_up, to_decimal, quantize_finite,
  quantize_quantity, validate_unit_price_minor, decimal_of_quantity, compute_charge_minor,
  validate_rate_bp, apply_rate_bp,
}
use recurring_service_platfo.Core.Money.Quantities.{
  quantize_finite_iff, compute_charge-stored, compute_charge_sound, compute_charge_overflows,
}
use recurring_service_platfo.Models.{recorded_value, by_service_record, CommissionEvent, Entity}
use recurring_service_platfo.Commission.Engine.Amounts.{
  IsEarnedOn, adjustment-reverses, adjustment-drift,
}
use recurring_service_platfo.Commission.Settlements.{
  validate_amount_minor, record_settlement, commission_position,
}
use recurring_service_platfo.Commission.Settlements.Position.{record_settlement-position}
use recurring_service_platfo.Costs.Estimates.{annual, RateTerms}
use recurring_service_platfo.Tests.Sample.{
  day_of, ctx, platform, plan, settlement_input, is_ok, entity_or, no_entity, is_ok-done, blank_db,
}

compute_charge_overflows_example :
    (n : ℕ) × (compute_charge_minor
        (decimal_of_quantity quantity_max)
        (int_value (pos 10_000_000_000))
      ≡ ok (pos n))
    × (bigint_max < n)
compute_charge_overflows_example =
    compute_charge_overflows 10_000_000_000 (omega arith) (omega arith)

compute_charge-stored_example :
    compute_charge_minor (decimal_of_quantity 1500) (int_value (pos 25001))
    ≡ ok (pos (half_up (1500 * 25001) 1000))
compute_charge-stored_example = compute_charge-stored 1500 25001 (omega arith) (omega arith)

-- 37501.5 rounds up.
charge_ok : compute_charge_minor (decimal_of_quantity 1500) (int_value (pos 25001)) ≡ ok (pos 37502)
unfolding compute_charge_minor quantize_quantity to_decimal quantize_finite half_up
    validate_unit_price_minor round_half_up ◌*ℤ◌
charge_ok = refl

compute_charge_sound_example :
    (q p n : ℕ) × (quantize_quantity (decimal_of_quantity 1500) ≡ ok q)
    × (int_value (pos 25001) ≡ int_value (pos p))
    × (pos 37502 ≡ pos n)
    × (n * 2000 ≤ 2 * (q * p) + 1000)
    × (2 * (q * p) + 1000 < (n + 1) * 2000)
compute_charge_sound_example =
    compute_charge_sound (decimal_of_quantity 1500) (int_value (pos 25001)) (pos 37502) charge_ok

quantize_finite_iff_example :
    (quantize_finite (pos 15) 1 ≡ ok 1500)
    ↔ ((pos 0 ≤ℤ pos 15) × (1500 * 10 ^ 1 ≡ magnitude (pos 15) * 1000) × (1500 ≤ quantity_max))
quantize_finite_iff_example = quantize_finite_iff (pos 15) 1 1500

abbrev event_of : ℤ → ℤ → CommissionEvent
event_of base fee = record {
  id = 10;
  tenant_id = 1;
  plan_id = 2;
  basis_snapshot = recorded_value;
  rate_bp_snapshot = some (pos 250);
  fixed_amount_minor_snapshot = none;
  source_type = by_service_record;
  source_id = 8;
  base_amount_minor = base;
  commission_minor = fee;
  occurred_on = day_of 2024 3 15;
}

earning :
    create_event ctx plan by_service_record 8 (pos 37500) (day_of 2024 3 15) blank_db
    ≡ ok (
      some (event_of (pos 37500) (pos 938)),
      record blank_db { events = event_of (pos 37500) (pos 938) ∷ []; next_id = 11 },
    )
unfolding create_event find_event append_event new_id commission_minor_for apply_rate_bp
    validate_rate_bp round_half_up half_up ◌*ℤ◌
earning = refl

earned_event : IsEarnedOn plan (pos 37500) (event_of (pos 37500) (pos 938))
unfolding commission_minor_for apply_rate_bp validate_rate_bp round_half_up half_up ◌*ℤ◌
earned_event = record {
  same_basis = refl;
  same_rate = refl;
  same_fixed = refl;
  same_base = refl;
  earned = refl;
}

adjustment-reverses_example :
    adjustment_minor_for (event_of (pos 37500) (pos 938)) (neg (pos 37500)) false
    ≡ ok (neg (pos 938))
adjustment-reverses_example =
    adjustment-reverses plan (pos 37500) (event_of (pos 37500) (pos 938)) earned_event

-- 10 corrected to 20 at 2.5 %: 0.25 earns 0, and the difference earns 0, but 0.5 would earn 1.
small_event : IsEarnedOn plan (pos 10) (event_of (pos 10) (pos 0))
unfolding commission_minor_for apply_rate_bp validate_rate_bp round_half_up half_up ◌*ℤ◌
small_event = record {
  same_basis = refl;
  same_rate = refl;
  same_fixed = refl;
  same_base = refl;
  earned = refl;
}

small_step : adjustment_minor_for (event_of (pos 10) (pos 0)) (pos 10) true ≡ ok (pos 0)
unfolding adjustment_minor_for apply_rate_bp validate_rate_bp round_half_up half_up ◌*ℤ◌
small_step = refl

small_whole :
    commission_minor_for recorded_value (some (pos 250)) none (pos 10 +ℤ pos 10) ≡ ok (pos 1)
unfolding commission_minor_for apply_rate_bp validate_rate_bp round_half_up half_up ◌*ℤ◌ ◌+ℤ◌
small_whole = refl

adjustment-drift_example : (pos 0 +ℤ pos 0 ≤ℤ pos 1 +ℤ pos 1) × (pos 1 ≤ℤ pos 0 +ℤ pos 0 +ℤ pos 1)
adjustment-drift_example =
    adjustment-drift plan (pos 10) (pos 10) 250 (event_of (pos 10) (pos 0)) (pos 1) (pos 0)
      small_event refl refl small_step small_whole

abbrev settlement_run : Result (Entity × Db)
settlement_run = record_settlement platform settlement_input 905 blank_db

settlement_ok : is_ok settlement_run ≡ true
unfolding record_settlement validate_amount_minor resolve_date new_id
settlement_ok = refl

record_settlement-position_example :
    (amount : ℤ) × (settlement_input.amount_minor ≡ int_value amount)
    × (pos 0 <ℤ amount)
    × ((commission_position 1 (after blank_db settlement_run)).earned_minor
        ≡ (commission_position 1 blank_db).earned_minor)
    × ((commission_position 1 (after blank_db settlement_run)).adjustments_minor
        ≡ (commission_position 1 blank_db).adjustments_minor)
    × ((commission_position 1 (after blank_db settlement_run)).outstanding_minor
        ≡ (commission_position 1 blank_db).outstanding_minor
          -ℤ (if platform.tenant_id == 1 then amount else pos 0))
record_settlement-position_example =
    record_settlement-position platform settlement_input 905 blank_db
      (after blank_db settlement_run) (entity_or no_entity settlement_run) 1
      (is_ok-done blank_db settlement_run settlement_ok)

abbrev hosting : RateTerms
hosting = record {
  unit_price_minor = none;
  fixed_amount_minor = some (pos 1000);
  fixed_recurrence = some annual;
}
