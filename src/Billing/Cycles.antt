-- ===== src/Billing/Cycles.antt =====
-- backend/app/billing/cycles.py: the period of a date, and the open cycle.
pub mod Periods
pub mod Open
use recurring_service_platfo.Session.{
  Db, Action, ◌>>=◌, ◌>>◌, pure, raise, lift, raise_when, gets, new_id,
}
use recurring_service_platfo.Base.{
  ltb, leb, ◌==◌, if◌then◌else◌, find, not_found, validation_failed, cycle_rollover_required,
  Result, ok, err, or_raise, ℕ, ◌+◌, ◌-◌, ◌/◌, ap, not, Option, none, some,
}
use recurring_service_platfo.Core.Date.{Date, date_ltb, day_before}
use recurring_service_platfo.Models.{TenantContext, open_status, closed, is_open, BillingCycle}
use recurring_service_platfo.Session.Tables.{is_open_cycle, is_cycle, insert_cycle}

-- The next month's day of the same number; safe for days up to 28.
unfoldable pub add_one_month : Date → Date
add_one_month d =
    if d.month == 12
    then record { year = d.year + 1; month = 1; day = d.day }
    else record { year = d.year; month = d.month + 1; day = d.day }

-- The first day of the period that holds `on_date`.
unfoldable pub period_start_of : ℕ → Date → Date
period_start_of start_day on_date =
    if leb start_day on_date.day
    then record { year = on_date.year; month = on_date.month; day = start_day }
    else (let previous =
          day_before (record { year = on_date.year; month = on_date.month; day = 1 }) in
        record { year = previous.year; month = previous.month; day = start_day })

unfoldable pub period_end_of : Date → Date
unfolding add_one_month
period_end_of start = day_before (add_one_month start)

unfoldable pub period_bounds : TenantContext → Date → Result (Date × Date)
period_bounds ctx on_date =
    if ctx.is_monthly
    then ok (
      period_start_of ctx.cycle_start_day on_date,
      period_end_of (period_start_of ctx.cycle_start_day on_date),
    )
    else err validation_failed

unfoldable pub open_cycle : TenantContext → Db → Option BillingCycle
open_cycle ctx db = find (is_open_cycle ctx.tenant_id) db.cycles

-- A new OPEN cycle over the whole period that holds today.
unfoldable pub create_cycle : TenantContext → Action BillingCycle
create_cycle ctx = do
  bounds ← lift (period_bounds ctx ctx.today)
  id ← new_id
  let cycle : BillingCycle = record {
    id = id;
    tenant_id = ctx.tenant_id;
    period_start = bounds.0;
    period_end = bounds.1;
    status = open_status;
    closed_at = none;
    closed_by_user_id = none;
  }
  insert_cycle cycle
  pure cycle

-- An open cycle whose period has ended does not qualify.
unfoldable pub usable_cycle : TenantContext → BillingCycle → Action BillingCycle
usable_cycle ctx cycle = do
  raise_when (date_ltb cycle.period_end ctx.today) cycle_rollover_required
  pure cycle

abbrev pub reuse_or_create : TenantContext → Option BillingCycle → Action BillingCycle
reuse_or_create ctx none = create_cycle ctx
reuse_or_create ctx (some cycle) = usable_cycle ctx cycle

unfoldable pub ensure_open_cycle : TenantContext → Action BillingCycle
ensure_open_cycle ctx = do reuse_or_create ctx (← gets (open_cycle ctx))

unfoldable pub load_cycle : TenantContext → ℕ → Action BillingCycle
load_cycle ctx cycle_id = do
  lift (or_raise (← gets (λ db. find (is_cycle ctx.tenant_id cycle_id) db.cycles)) not_found)
