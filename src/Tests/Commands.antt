-- ===== src/Tests/Commands.antt =====
-- The commands on the sample tables.

use recurring_service_platfo.Commission.Events.{
  commission_minor_for, adjustment_minor_for, find_event, chain_walk, chain_ids, chain_event,
  append_event, create_event, append_adjustment, create_adjustment,
}
use recurring_service_platfo.Session.Isolation.{Untouched}
use recurring_service_platfo.Core.Date.{days_in_month, day_before}
use recurring_service_platfo.Commission.Settlements.{validate_amount_minor}
use recurring_service_platfo.Books.Paying.{record_payment-Balanced}
use recurring_service_platfo.Core.Text.{is_space, lstrip, rstrip, strip, require_reason}
use recurring_service_platfo.Payments.Commands.{
  load_payer, load_payment, prepare_payment, settle_payment, record_payment, settle_payment_voided,
  void_payment,
}
use recurring_service_platfo.Books.Recording.{record_service-Balanced}
use recurring_service_platfo.Books.History.{
  by_record_service, by_record_payment, IsBlank, Reachable, start, then, Reachable-Balanced,
  outstanding-accepted,
}
use recurring_service_platfo.Books.{accepted_value, received_value, Balanced}
use recurring_service_platfo.Session.{Db, new_id, next_row_version, after}
use recurring_service_platfo.Base.{find, Result, ok, ◌≡◌, refl, ◌⊎◌, true, some, arith}
use recurring_service_platfo.Base.Int.{pos, negsuc, ◌+ℤ◌, ◌-ℤ◌, ◌*ℤ◌, neg}
use recurring_service_platfo.Core.Clock.{validate_business_date, resolve_date}
use recurring_service_platfo.Core.Money.{
  half_up, round_half_up, to_decimal, quantize_finite, quantize_quantity, validate_unit_price_minor,
  compute_charge_minor, validate_rate_bp, apply_rate_bp,
}
use recurring_service_platfo.Models.{
  service, is_active_status, DailyServiceRecord, is_recorded, Payment, Entity,
  service_record_entity,
}
use recurring_service_platfo.Books.Moves.{
  Moves, correct_service-Moves, void_service-Moves, void_payment-Moves, record_service-Moves,
}
use recurring_service_platfo.Session.Tables.{
  insert_record, is_record, is_payment, insert_entry, insert_cycle, record_tenant_event,
}
use recurring_service_platfo.Billing.Cycles.{
  period_start_of, period_end_of, period_bounds, open_cycle, create_cycle, usable_cycle,
  ensure_open_cycle,
}
use recurring_service_platfo.Billing.Ledger.{append_entry, post_entry, outstanding_minor}
use recurring_service_platfo.Service.Pricing.{resolve_quantity_and_charge}
use recurring_service_platfo.Service.Commands.{
  load_customer, load_record, settle_recorded, store_recorded, prepare_recorded, record_service,
  replace_record, settle_corrected, correct_service, settle_voided, void_service,
}
use recurring_service_platfo.Commission.Plans.{effective_plan}
use recurring_service_platfo.Commission.Engine.{
  on_service_recorded, on_service_corrected, on_service_voided, on_payment_recorded,
  on_payment_voided,
}
use recurring_service_platfo.Books.DayHistory.{Reachable-OneActive}
use recurring_service_platfo.Books.Isolation.Payments.{do_record_service, run_command-Untouched}
use recurring_service_platfo.Books.ActiveDay.{OneActive, record_service-twice}
use recurring_service_platfo.Tests.Sample.{
  ctx, blank_db, record_input, correct_input, void_input, payment_input, void_payment_input, is_ok,
  entity_or, no_entity, is_ok-done,
}

blank : IsBlank blank_db
blank = record { no_records = refl; no_payments = refl; no_entries = refl }

blank-Balanced : Balanced blank_db
blank-Balanced = Reachable-Balanced blank_db (start blank_db blank)

abbrev recorded_run : Result (Entity × Db)
recorded_run = record_service ctx record_input 900 blank_db

abbrev recorded_db : Db
recorded_db = after blank_db recorded_run

recorded_ok : is_ok recorded_run ≡ true
unfolding record_service prepare_recorded load_customer resolve_quantity_and_charge resolve_date
    quantize_quantity quantize_finite compute_charge_minor validate_unit_price_minor
    next_row_version new_id store_recorded insert_record settle_recorded post_entry append_entry
    ensure_open_cycle open_cycle create_cycle period_bounds insert_cycle insert_entry
    on_service_recorded effective_plan create_event find_event append_event commission_minor_for
    apply_rate_bp validate_rate_bp record_tenant_event half_up round_half_up to_decimal ◌*ℤ◌
recorded_ok = refl

record_service-Moves_example :
    Balanced recorded_db
    × ((r : DailyServiceRecord) × (entity_or no_entity recorded_run ≡ service_record_entity r)
        × (r.kind ≡ record_input.kind)
        × (r.customer_id ≡ record_input.customer_id)
        × ((r.kind ≡ service) ⊎ (recorded_db.ledger ≡ blank_db.ledger))
        × Moves 1 r.customer_id r.charge_minor (pos 0) blank_db recorded_db)
record_service-Moves_example =
    record_service-Moves ctx record_input 900 blank_db recorded_db
      (entity_or no_entity recorded_run) blank-Balanced
      (is_ok-done blank_db recorded_run recorded_ok)

abbrev corrected_run : Result (Entity × Db)
corrected_run = correct_service ctx 10 correct_input 901 recorded_db

abbrev corrected_db : Db
corrected_db = after recorded_db corrected_run

corrected_ok : is_ok corrected_run ≡ true
unfolding record_service prepare_recorded load_customer resolve_quantity_and_charge resolve_date
    quantize_quantity quantize_finite compute_charge_minor validate_unit_price_minor
    next_row_version new_id store_recorded insert_record settle_recorded post_entry append_entry
    ensure_open_cycle open_cycle create_cycle period_bounds insert_cycle insert_entry
    on_service_recorded effective_plan create_event find_event append_event commission_minor_for
    apply_rate_bp validate_rate_bp record_tenant_event half_up round_half_up to_decimal ◌*ℤ◌
    correct_service load_record replace_record settle_corrected on_service_corrected chain_event
    chain_ids chain_walk adjustment_minor_for create_adjustment append_adjustment usable_cycle
    require_reason strip lstrip rstrip is_space void_service settle_voided on_service_voided
    record_payment prepare_payment load_payer validate_amount_minor settle_payment
    on_payment_recorded void_payment load_payment settle_payment_voided on_payment_voided ◌-ℤ◌ ◌+ℤ◌
    neg validate_business_date period_start_of period_end_of day_before days_in_month
corrected_ok = refl

correct_service-Moves_example :
    Balanced corrected_db
    × ((original : DailyServiceRecord) × (replacement : DailyServiceRecord) × (original.id ≡ 10)
        × (find (is_record 1 original.id) recorded_db.records ≡ some original)
        × (is_active_status original.status ≡ true)
        × (entity_or no_entity corrected_run ≡ service_record_entity replacement)
        × Moves 1 original.customer_id
            (replacement.charge_minor -ℤ original.charge_minor)
            (pos 0)
            recorded_db
            corrected_db)
correct_service-Moves_example =
    correct_service-Moves ctx 10 correct_input 901 recorded_db corrected_db
      (entity_or no_entity corrected_run)
      (record_service-Balanced ctx record_input 900 blank_db recorded_db
        (entity_or no_entity recorded_run) blank-Balanced
        (is_ok-done blank_db recorded_run recorded_ok))
      (is_ok-done recorded_db corrected_run corrected_ok)

abbrev voided_run : Result (Entity × Db)
voided_run = void_service ctx 10 void_input 902 recorded_db

voided_ok : is_ok voided_run ≡ true
unfolding record_service prepare_recorded load_customer resolve_quantity_and_charge resolve_date
    quantize_quantity quantize_finite compute_charge_minor validate_unit_price_minor
    next_row_version new_id store_recorded insert_record settle_recorded post_entry append_entry
    ensure_open_cycle open_cycle create_cycle period_bounds insert_cycle insert_entry
    on_service_recorded effective_plan create_event find_event append_event commission_minor_for
    apply_rate_bp validate_rate_bp record_tenant_event half_up round_half_up to_decimal ◌*ℤ◌
    correct_service load_record replace_record settle_corrected on_service_corrected chain_event
    chain_ids chain_walk adjustment_minor_for create_adjustment append_adjustment usable_cycle
    require_reason strip lstrip rstrip is_space void_service settle_voided on_service_voided
    record_payment prepare_payment load_payer validate_amount_minor settle_payment
    on_payment_recorded void_payment load_payment settle_payment_voided on_payment_voided ◌-ℤ◌ ◌+ℤ◌
    neg validate_business_date period_start_of period_end_of day_before days_in_month
voided_ok = refl

void_service-Moves_example :
    let voided_db = after recorded_db voided_run in
    Balanced voided_db
    × ((r : DailyServiceRecord) × (r.id ≡ 10)
        × (find (is_record 1 r.id) recorded_db.records ≡ some r)
        × (is_active_status r.status ≡ true)
        × Moves 1 r.customer_id (neg r.charge_minor) (pos 0) recorded_db voided_db)
void_service-Moves_example =
    void_service-Moves ctx 10 void_input 902 recorded_db (after recorded_db voided_run)
      (entity_or no_entity voided_run)
      (record_service-Balanced ctx record_input 900 blank_db recorded_db
        (entity_or no_entity recorded_run) blank-Balanced
        (is_ok-done blank_db recorded_run recorded_ok))
      (is_ok-done recorded_db voided_run voided_ok)

abbrev paid_run : Result (Entity × Db)
paid_run = record_payment ctx payment_input 903 recorded_db

abbrev paid_db : Db
paid_db = after recorded_db paid_run

paid_ok : is_ok paid_run ≡ true
unfolding record_service prepare_recorded load_customer resolve_quantity_and_charge resolve_date
    quantize_quantity quantize_finite compute_charge_minor validate_unit_price_minor
    next_row_version new_id store_recorded insert_record settle_recorded post_entry append_entry
    ensure_open_cycle open_cycle create_cycle period_bounds insert_cycle insert_entry
    on_service_recorded effective_plan create_event find_event append_event commission_minor_for
    apply_rate_bp validate_rate_bp record_tenant_event half_up round_half_up to_decimal ◌*ℤ◌
    correct_service load_record replace_record settle_corrected on_service_corrected chain_event
    chain_ids chain_walk adjustment_minor_for create_adjustment append_adjustment usable_cycle
    require_reason strip lstrip rstrip is_space void_service settle_voided on_service_voided
    record_payment prepare_payment load_payer validate_amount_minor settle_payment
    on_payment_recorded void_payment load_payment settle_payment_voided on_payment_voided ◌-ℤ◌ ◌+ℤ◌
    neg validate_business_date period_start_of period_end_of day_before days_in_month
paid_ok = refl

paid-Balanced : Balanced recorded_db → Balanced paid_db
paid-Balanced b =
    record_payment-Balanced ctx payment_input 903 recorded_db paid_db (entity_or no_entity paid_run)
      b (is_ok-done recorded_db paid_run paid_ok)

record_payment-Balanced_example : Balanced paid_db
record_payment-Balanced_example =
    record_payment-Balanced ctx payment_input 903 recorded_db paid_db (entity_or no_entity paid_run)
      (record_service-Balanced ctx record_input 900 blank_db recorded_db
        (entity_or no_entity recorded_run) blank-Balanced
        (is_ok-done blank_db recorded_run recorded_ok))
      (is_ok-done recorded_db paid_run paid_ok)

abbrev refunded_run : Result (Entity × Db)
refunded_run = void_payment ctx 13 void_payment_input 904 paid_db

refunded_ok : is_ok refunded_run ≡ true
unfolding record_service prepare_recorded load_customer resolve_quantity_and_charge resolve_date
    quantize_quantity quantize_finite compute_charge_minor validate_unit_price_minor
    next_row_version new_id store_recorded insert_record settle_recorded post_entry append_entry
    ensure_open_cycle open_cycle create_cycle period_bounds insert_cycle insert_entry
    on_service_recorded effective_plan create_event find_event append_event commission_minor_for
    apply_rate_bp validate_rate_bp record_tenant_event half_up round_half_up to_decimal ◌*ℤ◌
    correct_service load_record replace_record settle_corrected on_service_corrected chain_event
    chain_ids chain_walk adjustment_minor_for create_adjustment append_adjustment usable_cycle
    require_reason strip lstrip rstrip is_space void_service settle_voided on_service_voided
    record_payment prepare_payment load_payer validate_amount_minor settle_payment
    on_payment_recorded void_payment load_payment settle_payment_voided on_payment_voided ◌-ℤ◌ ◌+ℤ◌
    neg validate_business_date period_start_of period_end_of day_before days_in_month
refunded_ok = refl

void_payment-Moves_example :
    let refunded_db = after paid_db refunded_run in
    Balanced refunded_db
    × ((p : Payment) × (p.id ≡ 13)
        × (find (is_payment 1 p.id) paid_db.payments ≡ some p)
        × (is_recorded p.status ≡ true)
        × Moves 1 p.customer_id (pos 0) (neg p.amount_minor) paid_db refunded_db)
void_payment-Moves_example =
    void_payment-Moves ctx 13 void_payment_input 904 paid_db (after paid_db refunded_run)
      (entity_or no_entity refunded_run)
      (paid-Balanced (
        record_service-Balanced ctx record_input 900 blank_db recorded_db
          (entity_or no_entity recorded_run) blank-Balanced
          (is_ok-done blank_db recorded_run recorded_ok)))
      (is_ok-done paid_db refunded_run refunded_ok)

-- A service, then a payment of more than it costs.
history : Reachable paid_db
history =
    then recorded_db paid_db
      (then blank_db recorded_db (start blank_db blank) (
        by_record_service ctx record_input 900 (entity_or no_entity recorded_run)
          (is_ok-done blank_db recorded_run recorded_ok)))
      (by_record_payment ctx payment_input 903 (entity_or no_entity paid_run)
        (is_ok-done recorded_db paid_run paid_ok))

Reachable-Balanced_example : Balanced paid_db
Reachable-Balanced_example = Reachable-Balanced paid_db history

outstanding-accepted_example :
    outstanding_minor 1 5 paid_db
    ≡ accepted_value 1 5 paid_db.records -ℤ received_value 1 5 paid_db.payments
outstanding-accepted_example = outstanding-accepted paid_db 1 5 history

-- The customer owes 37500 and paid 60000.
credit : outstanding_minor 1 5 paid_db ≡ negsuc 22499
unfolding record_service prepare_recorded load_customer resolve_quantity_and_charge resolve_date
    quantize_quantity quantize_finite compute_charge_minor validate_unit_price_minor
    next_row_version new_id store_recorded insert_record settle_recorded post_entry append_entry
    ensure_open_cycle open_cycle create_cycle period_bounds insert_cycle insert_entry
    on_service_recorded effective_plan create_event find_event append_event commission_minor_for
    apply_rate_bp validate_rate_bp record_tenant_event half_up round_half_up to_decimal ◌*ℤ◌
    correct_service load_record replace_record settle_corrected on_service_corrected chain_event
    chain_ids chain_walk adjustment_minor_for create_adjustment append_adjustment usable_cycle
    require_reason strip lstrip rstrip is_space void_service settle_voided on_service_voided
    record_payment prepare_payment load_payer validate_amount_minor settle_payment
    on_payment_recorded void_payment load_payment settle_payment_voided on_payment_voided ◌-ℤ◌ ◌+ℤ◌
    neg validate_business_date period_start_of period_end_of day_before days_in_month
    outstanding_minor
credit = refl

Reachable-OneActive_example : OneActive paid_db.records
Reachable-OneActive_example = Reachable-OneActive paid_db history

run_command-Untouched_example : Untouched 2 blank_db recorded_db
run_command-Untouched_example =
    run_command-Untouched ctx (do_record_service record_input) 900 2 blank_db recorded_db
      (entity_or no_entity recorded_run) (omega arith)
      (is_ok-done blank_db recorded_run recorded_ok)

record_service-twice_example :
    ¬ (record_service ctx record_input 901 recorded_db ≡ ok (no_entity, recorded_db))
record_service-twice_example =
    record_service-twice ctx ctx record_input record_input 900 901 blank_db recorded_db recorded_db
      (entity_or no_entity recorded_run) no_entity (is_ok-done blank_db recorded_run recorded_ok)
      refl refl refl
