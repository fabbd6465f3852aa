-- ===== src/Reminders/Runner.antt =====
-- backend/app/reminders/runner.py: the guard of the day, one tenant's round, and all tenants.
--
-- The round commits after every customer, so a run returns the tables that it has committed, also
-- when it raises. The order of a list is that of the database's collation: an argument.
pub mod Guard
pub mod Day
use recurring_service_platfo.Reminders.Claims.{is_job_run, set_job_run, claim_run}
use recurring_service_platfo.Session.{Db, raise}
use recurring_service_platfo.Session.Tables.{is_customer}
use recurring_service_platfo.Base.{
  ◌==◌, filter, find, Error, not_found, Result, ok, err, ℕ, suc, ◌+◌, ◌-◌, ◌/◌, ap, Bool, true,
  false, not, ◌&&◌, Option, none, some, List, [], ◌∷◌,
}
use recurring_service_platfo.Core.Date.{Date}
use recurring_service_platfo.Models.{
  Customer, active, owner_alert, is_owner_alert, ReminderState, is_sent, is_cancelled, Reminder,
  JobRunStatus, succeeded, run_failed, JobTrigger, cron, Counts, JobRun, Tenant, ReminderContext,
  Entity, job_run_entity, reminder_run_completed, audit_job, system_scope, AuditEvent,
}
use recurring_service_platfo.Reminders.Schedule.{reminder, Stage, load_schedule, due_stage}
use recurring_service_platfo.Reminders.Engine.Stages.{is_reminder}
use recurring_service_platfo.Reminders.Engine.Messages.{raised, Provider, is_tenant}
use recurring_service_platfo.Reminders.Engine.{process_customer}

abbrev pub no_counts : Counts
no_counts = record { generated = 0; sent = 0; failed = 0; cancelled = 0; owner_alerts = 0 }

abbrev pub one_if : Bool → ℕ
one_if true = 1
one_if false = 0

abbrev pub is_failed : ReminderState → Bool
is_failed ReminderState.failed = true
is_failed _ = false

abbrev pub count_reminder : Reminder → Counts → Counts
count_reminder r c = record {
  generated = c.generated + 1;
  sent = c.sent + one_if (is_sent r.state);
  failed = c.failed + one_if (is_failed r.state);
  cancelled = c.cancelled + one_if (is_cancelled r.state);
  owner_alerts = c.owner_alerts + one_if (is_owner_alert r.kind);
}

abbrev pub count_found : Option Reminder → Counts → Counts
count_found none c = c
count_found (some r) c = count_reminder r c

unfoldable pub count_all : List ℕ → Db → Counts → Counts
count_all [] db c = c
count_all (id ∷ ids) db c = count_all ids db (count_found (find (is_reminder id) db.reminders) c)

abbrev pub is_customer_of : ℕ → Customer → Bool
is_customer_of tenant c = c.tenant_id == tenant && c.is_active

-- A round that ended, or the exception that ended it; with what was committed.
pub data Round : Type 0 where
  finished : Counts → Db → Round
  crashed : Error → Counts → Db → Round

unfoldable pub run_round :
    ReminderContext → Provider → List Stage → List Customer → Counts → Db → Round
run_round ctx provider schedule [] counts db = finished counts db
run_round ctx provider schedule (c ∷ cs) counts db =
    elim (process_customer ctx provider c schedule db) [
      | ok r ↦ run_round ctx provider schedule cs (count_all r.0 r.1 counts) r.1
      | err e ↦ crashed e counts db
    ]

abbrev pub round_of :
    ReminderContext → Provider → List Stage → Option Stage → List Customer → Db → Round
round_of ctx provider schedule none customers db = finished no_counts db
round_of ctx provider schedule (some stage) customers db =
    run_round ctx provider schedule customers no_counts db

pub data RunOutcome : Type 0 where
  completed : Counts → RunOutcome
  already_run : RunOutcome
  run_raised : Error → RunOutcome

abbrev pub ended : JobRunStatus → ReminderContext → Counts → JobRun → JobRun
ended status ctx counts j = record j {
  status = status;
  finished_at = some ctx.now;
  detail = some counts;
}

-- `record_system_event`: the one audit row of a run.
abbrev pub run_event : ReminderContext → ℕ → Option Entity → AuditEvent
run_event ctx id after = record {
  tenant_id = ctx.tenant_id;
  actor_user_id = none;
  actor_scope = system_scope;
  action = reminder_run_completed;
  entity_id = id;
  before = none;
  after = after;
  reason = none;
  operation_id = none;
  audit_source = audit_job;
}

abbrev pub run_snapshot : ℕ → Db → Option Entity
run_snapshot id db = elim (find (is_job_run id) db.job_runs) [
  | none ↦ none
  | some j ↦ some (job_run_entity j)
]

abbrev pub with_event : ReminderContext → ℕ → Db → Db
with_event ctx id db = record db {
  audit_events = run_event ctx id (run_snapshot id db) ∷ db.audit_events;
}

abbrev pub end_round : ReminderContext → ℕ → Round → RunOutcome × Db
end_round ctx id (finished counts db) =
    (completed counts, with_event ctx id (set_job_run id (ended succeeded ctx counts) db))
end_round ctx id (crashed e counts db) =
    (run_raised e, set_job_run id (ended run_failed ctx counts) db)

abbrev pub run_claimed :
    ReminderContext
    → Provider
    → (List Customer → List Customer)
    → List Stage
    → Option ℕ × Db
    → RunOutcome × Db
run_claimed ctx provider ordered schedule (none, db) = (already_run, db)
run_claimed ctx provider ordered schedule (some id, db) = end_round ctx id (
    round_of ctx provider schedule (due_stage schedule ctx.today.day)
      (ordered (filter (is_customer_of ctx.tenant_id) db.customers)) db)

abbrev pub is_tenant_row : ℕ → Tenant → Bool
is_tenant_row id t = t.id == id

abbrev pub schedule_of : Option Tenant → Result (List Stage)
schedule_of none = err not_found
schedule_of (some t) = load_schedule t.reminder_schedule

-- REM-1: from the tenant's own row.
unfoldable pub tenant_schedule : ReminderContext → Db → Result (List Stage)
tenant_schedule ctx db = schedule_of (find (is_tenant_row ctx.tenant_id) db.tenants)

abbrev pub run_scheduled :
    ReminderContext
    → Provider
    → (List Customer → List Customer)
    → JobTrigger
    → Db
    → Result (List Stage)
    → RunOutcome × Db
run_scheduled ctx provider ordered triggered_by db (err e) = (run_raised e, db)
run_scheduled ctx provider ordered triggered_by db (ok schedule) =
    run_claimed ctx provider ordered schedule (claim_run ctx triggered_by db)

unfoldable pub run_daily_reminders :
    ReminderContext → Provider → (List Customer → List Customer) → JobTrigger → Db → RunOutcome × Db
run_daily_reminders ctx provider ordered triggered_by db =
    run_scheduled ctx provider ordered triggered_by db (tenant_schedule ctx db)

-- `SystemContext.for_tenant`: the clock gives the instant, and the zone database the tenant's date.
abbrev pub system_context : ℕ → (Tenant → Date) → Tenant → ReminderContext
system_context now date_of t = record {
  tenant_id = t.id;
  user_id = none;
  now = now;
  today = date_of t;
  currency = t.currency;
  currency_exponent = t.currency_exponent;
}

-- A tenant that raises does not stop the round.
unfoldable pub run_tenants :
    ℕ
    → (Tenant → Date)
    → Provider
    → (List Customer → List Customer)
    → List Tenant
    → Db
    → List RunOutcome × Db
run_tenants now date_of provider ordered [] db = ([], db)
run_tenants now date_of provider ordered (t ∷ ts) db =
    let first = run_daily_reminders (system_context now date_of t) provider ordered cron db in
    let rest = run_tenants now date_of provider ordered ts first.1 in (first.0 ∷ rest.0, rest.1)

unfoldable pub run_reminders_for_all_tenants :
    ℕ
    → (Tenant → Date)
    → Provider
    → (List Tenant → List Tenant)
    → (List Customer → List Customer)
    → Db
    → List RunOutcome × Db
run_reminders_for_all_tenants now date_of provider by_slug ordered db =
    run_tenants now date_of provider ordered (by_slug (filter (λ t. t.is_active) db.tenants)) db
