-- ===== src/Tests/Reminders.antt =====
-- The reminder engine and its runner at concrete inputs.
use recurring_service_platfo.Base.{
  find, Result, ok, ℕ, ◌≤◌, ◌≡◌, refl, ◌⊎◌, true, false, none, some, List, [], ◌∷◌, ◌++◌, map,
  arith,
}
use recurring_service_platfo.Models.{
  Customer, of_stage, ReminderState, pending, sent, failed, is_cancelled, Reminder, accepted, cron,
  manual_trigger, Counts, ReminderContext, charge, from_service_record, LedgerEntry, closed,
  BillingCycle, Statement,
}
use recurring_service_platfo.Reminders.Delivery.History.{
  processed, start, next, Reachable-IsDelivered,
}
use recurring_service_platfo.Reminders.Runner.Guard.{FoundByKey}
use recurring_service_platfo.Reminders.Delivery.Rows.{attempts_of, successes_of}
use recurring_service_platfo.Core.Money.Format.Reading.{read_amount, format_minor-read}
use recurring_service_platfo.Reminders.Confined.{ConfinedTo, process_customer-ConfinedTo}
use recurring_service_platfo.Reminders.Runner.Day.{
  EndsAs, run_daily_reminders-EndsAs, run_daily_reminders-again,
}
use recurring_service_platfo.Reminders.Runner.{
  count_all, run_round, RunOutcome, completed, already_run, tenant_schedule, run_daily_reminders,
}
use recurring_service_platfo.Reminders.Claims.{claim_run}
use recurring_service_platfo.Reminders.Amounts.{
  Asks, owed, dispatch_reminder-Asks, dispatch_reminder-final,
}
use recurring_service_platfo.Session.{Db, new_id, after}
use recurring_service_platfo.Base.Int.{pos, negsuc, ◌+ℤ◌, ◌≤ℤ◌, ◌<ℤ◌}
use recurring_service_platfo.Core.Text.{Text, codes}
use recurring_service_platfo.Core.Money.Format.{decimal, padded, grouped, number_text, format_minor}
use recurring_service_platfo.Billing.Ledger.{outstanding_minor}
use recurring_service_platfo.Reminders.Schedule.{
  statement, reminder, final, Stage, load_entry, load_entries, insert_stage, sort_stages,
  load_schedule, due_loop, due_stage,
}
use recurring_service_platfo.Reminders.Engine.Stages.{
  reminder_cycle_for, highest_sent_stage, load_reminder, is_reminder, loaded, audit_reminder,
  add_reminder, create_stage,
}
use recurring_service_platfo.Reminders.Engine.Generation.{
  is_retryable, owner_alert_for, with_alert, generate_due_reminder,
}
use recurring_service_platfo.Reminders.Engine.Messages.{
  receipt, raised, Provider, customer_destination, owner_destination, iso_date, render_params,
  template_for,
}
use recurring_service_platfo.Reminders.Engine.Dispatch.{
  hand_over, fail_reminder, cancel_reminder, send_to, cycle_by_id, attempt, dispatch_reminder,
}
use recurring_service_platfo.Reminders.Engine.{dispatch_all, process_customer}
use recurring_service_platfo.Tests.Sample.{day_of, customer, blank_db, value_or}

abbrev system : ReminderContext
system = record {
  tenant_id = 1;
  user_id = none;
  now = 100;
  today = day_of 2024 3 15;
  currency = codes "PKR";
  currency_exponent = 2;
}

abbrev february : BillingCycle
february = record {
  id = 3;
  tenant_id = 1;
  period_start = day_of 2024 2 1;
  period_end = day_of 2024 2 29;
  status = closed;
  closed_at = some 50;
  closed_by_user_id = some 7;
}

abbrev bill : Statement
bill = record {
  id = 4;
  tenant_id = 1;
  customer_id = 5;
  cycle_id = 3;
  opening_balance_minor = pos 0;
  charges_minor = pos 300000;
  service_adjustments_minor = pos 0;
  payments_minor = pos 0;
  payment_reversals_minor = pos 0;
  closing_balance_minor = pos 300000;
  service_days = 2;
  total_quantity = 2000;
  unit_label = codes "litre";
  currency = codes "PKR";
  row_version = 1;
}

abbrev posted : LedgerEntry
posted = record {
  tenant_id = 1;
  customer_id = 5;
  entry_kind = charge;
  amount_minor = pos 300000;
  occurred_on = day_of 2024 2 3;
  posting_cycle_id = some 3;
  source_type = from_service_record;
  source_id = 8;
  created_by_user_id = 7;
}

abbrev billed_db : Db
billed_db = record blank_db { cycles = february ∷ []; statements = bill ∷ []; ledger = posted ∷ [] }

abbrev taking : Provider
taking = record {
  name = codes "fake";
  send =
      λ id message. receipt (record { state = accepted; provider_message_id = none; error = none });
}

abbrev down : Provider
down = record { name = codes "fake"; send = λ id message. raised (codes "TimeoutError: x") }

abbrev stages : List Stage
stages =
    record { day = 1; kind = statement }
    ∷ record { day = 8; kind = reminder }
    ∷ record { day = 15; kind = final }
    ∷ []

abbrev by_code : List Customer → List Customer
by_code cs = cs

abbrev states_of : Db → List ReminderState
states_of db = map (λ r. r.state) db.reminders

-- The final notice to the customer, and the alert to the owner.
final_day :
    states_of (after billed_db (process_customer system taking customer stages billed_db))
    ≡ sent ∷ sent ∷ []
unfolding process_customer reminder_cycle_for generate_due_reminder due_stage due_loop load_reminder
    highest_sent_stage outstanding_minor create_stage add_reminder new_id audit_reminder with_alert
    loaded owner_alert_for dispatch_all dispatch_reminder attempt owner_destination
    customer_destination send_to render_params format_minor number_text grouped decimal padded
    template_for hand_over is_retryable iso_date ◌+ℤ◌
final_day = refl

outage :
    states_of (after billed_db (process_customer system down customer stages billed_db))
    ≡ failed ∷ failed ∷ []
unfolding process_customer reminder_cycle_for generate_due_reminder due_stage due_loop load_reminder
    highest_sent_stage outstanding_minor create_stage add_reminder new_id audit_reminder with_alert
    loaded owner_alert_for dispatch_all dispatch_reminder attempt owner_destination
    customer_destination send_to render_params format_minor number_text grouped decimal padded
    template_for hand_over is_retryable iso_date ◌+ℤ◌
outage = refl

abbrev final_db : Db
final_db = after billed_db (process_customer system taking customer stages billed_db)

abbrev due_ids : List ℕ
due_ids = value_or [] (process_customer system taking customer stages billed_db)

final_run : process_customer system taking customer stages billed_db ≡ ok (due_ids, final_db)
unfolding process_customer reminder_cycle_for generate_due_reminder due_stage due_loop load_reminder
    highest_sent_stage outstanding_minor create_stage add_reminder new_id audit_reminder with_alert
    loaded owner_alert_for dispatch_all dispatch_reminder attempt owner_destination
    customer_destination send_to render_params format_minor number_text grouped decimal padded
    template_for hand_over is_retryable iso_date ◌+ℤ◌
final_run = refl

abbrev notice : Reminder
notice = record {
  id = 10;
  tenant_id = 1;
  customer_id = 5;
  cycle_id = 3;
  schedule_day = 15;
  kind = of_stage final;
  amount_minor_at_generation = pos 300000;
  state = sent;
  attempt_count = 1;
  last_error = none;
  generated_at = 100;
  sent_at = some 100;
  cancelled_at = none;
}

found_notice : find (is_reminder 10) final_db.reminders ≡ some notice
unfolding process_customer reminder_cycle_for generate_due_reminder due_stage due_loop load_reminder
    highest_sent_stage outstanding_minor create_stage add_reminder new_id audit_reminder with_alert
    loaded owner_alert_for dispatch_all dispatch_reminder attempt owner_destination
    customer_destination send_to render_params format_minor number_text grouped decimal padded
    template_for hand_over is_retryable iso_date ◌+ℤ◌
found_notice = refl

process_customer-ConfinedTo_example : ConfinedTo billed_db final_db
process_customer-ConfinedTo_example =
    process_customer-ConfinedTo system taking customer stages billed_db final_db due_ids final_run

Reachable-IsDelivered_example :
    (attempts_of 10 final_db.communication_log ≤ 3)
    × (successes_of 10 final_db.communication_log ≡ 1)
Reachable-IsDelivered_example =
    Reachable-IsDelivered final_db 10 notice
      (next (start refl refl) (processed system taking customer stages due_ids final_run))
      found_notice

abbrev waiting : Reminder
waiting = record notice { state = pending; attempt_count = 0; sent_at = none }

abbrev waiting_db : Db
waiting_db = record billed_db { reminders = waiting ∷ []; next_id = 20 }

-- The customer has paid everything since.
abbrev paid_db : Db
paid_db = record waiting_db { ledger = [] }

abbrev dispatch_waiting : Db → Result (Unit {0} × Db)
dispatch_waiting db = dispatch_reminder system taking 10 none none none false db

waiting_run : dispatch_waiting waiting_db ≡ ok (tt, after waiting_db (dispatch_waiting waiting_db))
unfolding loaded dispatch_reminder attempt owner_destination customer_destination send_to
    render_params format_minor number_text grouped decimal padded template_for hand_over iso_date
    outstanding_minor audit_reminder new_id ◌+ℤ◌ cancel_reminder fail_reminder reminder_cycle_for
    cycle_by_id
waiting_run = refl

paid_run : dispatch_waiting paid_db ≡ ok (tt, after paid_db (dispatch_waiting paid_db))
unfolding loaded dispatch_reminder attempt owner_destination customer_destination send_to
    render_params format_minor number_text grouped decimal padded template_for hand_over iso_date
    outstanding_minor audit_reminder new_id ◌+ℤ◌ cancel_reminder fail_reminder reminder_cycle_for
    cycle_by_id
paid_run = refl

dispatch_reminder-Asks_example :
    let sent_db = after waiting_db (dispatch_waiting waiting_db) in
    (sent_db.communication_log ≡ [])
    ⊎ (Asks system (owed system waiting waiting_db) waiting_db sent_db
        × (true ≡ true → pos 0 <ℤ owed system waiting waiting_db))
dispatch_reminder-Asks_example =
    dispatch_reminder-Asks system taking none none none false 10 waiting waiting_db
      (after waiting_db (dispatch_waiting waiting_db)) tt refl waiting_run

nothing_owed : owed system waiting paid_db ≤ℤ pos 0
unfolding outstanding_minor
nothing_owed = omega arith

dispatch_reminder-final_example :
    let settled = after paid_db (dispatch_waiting paid_db) in
    (settled.communication_log ≡ [])
    × ((s : Reminder) × (find (is_reminder 10) settled.reminders ≡ some s)
        × (is_cancelled s.state ≡ true))
    × (dispatch_reminder system taking 10 none none none true settled ≡ ok (tt, settled))
dispatch_reminder-final_example =
    dispatch_reminder-final system system taking taking none none none none none none false true 10
      waiting paid_db (after paid_db (dispatch_waiting paid_db)) tt refl refl refl nothing_owed
      paid_run

abbrev counted : Counts
counted = record { generated = 2; sent = 2; failed = 0; cancelled = 0; owner_alerts = 1 }

abbrev day_run : RunOutcome × Db
day_run = run_daily_reminders system taking by_code cron billed_db

day_completed : day_run.0 ≡ completed counted
unfolding process_customer reminder_cycle_for generate_due_reminder due_stage due_loop load_reminder
    highest_sent_stage outstanding_minor create_stage add_reminder new_id audit_reminder with_alert
    loaded owner_alert_for dispatch_all dispatch_reminder attempt owner_destination
    customer_destination send_to render_params format_minor number_text grouped decimal padded
    template_for hand_over is_retryable iso_date ◌+ℤ◌ run_daily_reminders tenant_schedule claim_run
    run_round count_all load_schedule load_entries load_entry sort_stages insert_stage
day_completed = refl

no_run_yet : FoundByKey system billed_db
no_run_yet j h = cc

run_daily_reminders-again_example :
    run_daily_reminders (record system { now = 200 }) down by_code manual_trigger day_run.1
    ≡ (already_run, day_run.1)
run_daily_reminders-again_example =
    run_daily_reminders-again system taking by_code cron billed_db (record system { now = 200 })
      down by_code manual_trigger counted no_run_yet day_completed refl refl

run_daily_reminders-EndsAs_example : EndsAs system billed_db day_run.0 day_run.1
run_daily_reminders-EndsAs_example =
    run_daily_reminders-EndsAs system taking by_code cron billed_db no_run_yet

format_sample : format_minor (negsuc 123456788) (codes "PKR") 2 ≡ ok (codes "PKR -1,234,567.89")
unfolding format_minor number_text grouped decimal padded
format_sample = refl

format_minor-read_example :
    (number : Text) × (codes "PKR -1,234,567.89" ≡ codes "PKR" ++ b' ' ∷ number)
    × (read_amount 2 number ≡ some (negsuc 123456788))
format_minor-read_example =
    format_minor-read (negsuc 123456788) (codes "PKR") 2 (codes "PKR -1,234,567.89") (omega arith)
      format_sample
