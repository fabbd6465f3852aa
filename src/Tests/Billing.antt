-- ===== src/Tests/Billing.antt =====
-- Cycles, figures and statements on the sample tables.
use recurring_service_platfo.Billing.Ledger.{entry_of}
use recurring_service_platfo.Session.Tables.{insert_cycle, insert_statement}
use recurring_service_platfo.Session.{Db, new_id, next_row_version, after}
use recurring_service_platfo.Base.{
  All, cycle_rollover_required, Result, ok, err, ◌≡◌, refl, true, none, some, [], ◌∷◌, arith,
}
use recurring_service_platfo.Base.Int.{ℤ, pos, negsuc, ◌+ℤ◌, ◌-ℤ◌}
use recurring_service_platfo.Core.Date.{is_leap, days_in_month, IsDate, date_leb, day_before}
use recurring_service_platfo.Models.{
  TenantContext, EntryKind, charge, payment, adjustment, SourceType, from_service_record,
  from_payment, LedgerEntry, open_status, BillingCycle, Statement,
}
use recurring_service_platfo.Billing.Cycles.{
  add_one_month, period_start_of, period_end_of, period_bounds, open_cycle, create_cycle,
  ensure_open_cycle,
}
use recurring_service_platfo.Billing.Cycles.Open.{
  IsTenant, ensure_open_cycle_sound, OneOpen, ensure_open_cycle-rollover, ensure_open_cycle-again,
}
use recurring_service_platfo.Billing.Cycles.Periods.{period_holds}
use recurring_service_platfo.Billing.Reporting.{
  business_generated_minor, collected_minor, outstanding_total_minor,
}
use recurring_service_platfo.Billing.Reporting.Figures.{
  IsPosted, outstanding-eq-generated-collected,
}
use recurring_service_platfo.Billing.Statements.{
  cycle_movements, previous_statement, opening_balance_minor, statement_of, issue_statement,
}
use recurring_service_platfo.Billing.Statements.Identity.{issue_statement-closing}
use recurring_service_platfo.Tests.Sample.{day_of, ctx, blank_db}

today-IsDate : IsDate (day_of 2024 3 15)
unfolding days_in_month
today-IsDate = record {
  year_pos = omega arith;
  month_pos = omega arith;
  month_le = omega arith;
  day_pos = omega arith;
  day_le = ground arith;
}

leap-IsDate : IsDate (day_of 2024 2 29)
unfolding days_in_month is_leap
leap-IsDate = record {
  year_pos = omega arith;
  month_pos = omega arith;
  month_le = omega arith;
  day_pos = omega arith;
  day_le = ground arith;
}

sample-IsTenant : IsTenant ctx
sample-IsTenant = record {
  start_lo = omega arith;
  start_hi = omega arith;
  today_valid = today-IsDate;
  today_year = omega arith;
}

abbrev march : BillingCycle
march = record {
  id = 10;
  tenant_id = 1;
  period_start = day_of 2024 3 1;
  period_end = day_of 2024 3 31;
  status = open_status;
  closed_at = none;
  closed_by_user_id = none;
}

abbrev march_db : Db
march_db = record blank_db { cycles = march ∷ []; next_id = 11 }

opened : ensure_open_cycle ctx blank_db ≡ ok (march, march_db)
unfolding ensure_open_cycle open_cycle create_cycle period_bounds period_start_of period_end_of
    add_one_month day_before days_in_month new_id insert_cycle
opened = refl

ensure_open_cycle_sound_example :
    (open_cycle ctx march_db ≡ some march)
    × (march.tenant_id ≡ ctx.tenant_id)
    × (march.status ≡ open_status)
    × (date_leb ctx.today march.period_end ≡ true)
ensure_open_cycle_sound_example =
    ensure_open_cycle_sound ctx blank_db march_db march sample-IsTenant opened

ensure_open_cycle-again_example :
    OneOpen march_db.cycles × (ensure_open_cycle ctx march_db ≡ ok (march, march_db))
ensure_open_cycle-again_example =
    ensure_open_cycle-again ctx blank_db march_db march sample-IsTenant tt opened

abbrev april_ctx : TenantContext
april_ctx = record ctx { today = day_of 2024 4 1 }

march_open : open_cycle april_ctx march_db ≡ some march
unfolding open_cycle
march_open = refl

rollover : ensure_open_cycle april_ctx march_db ≡ err cycle_rollover_required
rollover = ensure_open_cycle-rollover april_ctx march_db march march_open refl

abbrev march_entry : LedgerEntry
march_entry = entry_of ctx 5 charge (pos 37500) (day_of 2024 3 14) from_service_record 8 10

abbrev posted_db : Db
posted_db = record march_db { ledger = march_entry ∷ [] }

period_holds_example :
    (date_leb (period_start_of 20 (day_of 2024 3 15)) (day_of 2024 3 15) ≡ true)
    × (date_leb (day_of 2024 3 15) (period_end_of (period_start_of 20 (day_of 2024 3 15))) ≡ true)
    × ((period_start_of 20 (day_of 2024 3 15)).day ≡ 20)
period_holds_example =
    period_holds 20 (day_of 2024 3 15) (omega arith) (omega arith) today-IsDate (omega arith)

abbrev entry : EntryKind → ℤ → SourceType → LedgerEntry
entry kind amount source = record {
  tenant_id = 1;
  customer_id = 5;
  entry_kind = kind;
  amount_minor = amount;
  occurred_on = day_of 2024 3 2;
  posting_cycle_id = some 10;
  source_type = source;
  source_id = 4;
  created_by_user_id = 7;
}

abbrev busy_db : Db
busy_db = record march_db {
  ledger =
      entry payment (negsuc 299) from_payment
      ∷ entry adjustment (pos 50) from_service_record
      ∷ entry charge (pos 1000) from_service_record
      ∷ [];
}

busy-IsPosted : All IsPosted busy_db.ledger
busy-IsPosted = (refl, (refl, (refl, tt)))

outstanding-eq-generated-collected_example :
    outstanding_total_minor 1 (some 5) none busy_db
    ≡ business_generated_minor 1 (some 5) none busy_db -ℤ collected_minor 1 (some 5) none busy_db
outstanding-eq-generated-collected_example =
    outstanding-eq-generated-collected 1 (some 5) none busy_db busy-IsPosted

abbrev issued : Result (Statement × Db)
issued = issue_statement ctx march 5 busy_db

abbrev issued_row : Statement
issued_row =
    statement_of ctx march 5 (cycle_movements 1 5 10 busy_db)
      (opening_balance_minor 1 5 march busy_db) 2 11

issue_done :
    issue_statement ctx march 5 busy_db
    ≡ ok (issued_row, after busy_db (issue_statement ctx march 5 busy_db))
unfolding issue_statement next_row_version new_id insert_statement
issue_done = refl

issue_statement-closing_example :
    (issued_row.closing_balance_minor
      ≡ opening_balance_minor 1 5 march busy_db
        +ℤ outstanding_total_minor 1 (some 5) (some 10) busy_db)
    × (issued_row.opening_balance_minor ≡ opening_balance_minor 1 5 march busy_db)
    × ((p : Statement)
        → previous_statement 1 5 march.period_start busy_db ≡ some p
        → issued_row.opening_balance_minor ≡ p.closing_balance_minor)
issue_statement-closing_example =
    issue_statement-closing ctx march 5 busy_db (after busy_db issued) issued_row busy-IsPosted
      issue_done
