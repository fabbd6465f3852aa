-- ===== src/Reminders/Claims.antt =====
-- backend/app/reminders/runner.py: who claims the run of a day.
use recurring_service_platfo.Session.{Db}
use recurring_service_platfo.Base.{
  ◌==◌, if◌then◌else◌, find, update_first, ℕ, ◌+◌, Bool, ◌&&◌, Option, none, some, ◌∷◌,
}
use recurring_service_platfo.Core.Date.{Date, date_eqb}
use recurring_service_platfo.Models.{running, is_succeeded, JobTrigger, JobRun, ReminderContext}

-- uq_job_run_tenant_id_kind_business_date.
abbrev pub is_run_of : ℕ → Date → JobRun → Bool
is_run_of tenant day j = j.tenant_id == tenant && date_eqb j.business_date day

abbrev pub is_job_run : ℕ → JobRun → Bool
is_job_run id j = j.id == id

abbrev pub set_job_run : ℕ → (JobRun → JobRun) → Db → Db
set_job_run id f db = record db { job_runs = update_first (is_job_run id) f db.job_runs }

abbrev pub new_run : ReminderContext → JobTrigger → ℕ → JobRun
new_run ctx triggered_by id = record {
  id = id;
  tenant_id = ctx.tenant_id;
  business_date = ctx.today;
  status = running;
  triggered_by = triggered_by;
  detail = none;
  started_at = ctx.now;
  finished_at = none;
}

abbrev pub reclaimed : ReminderContext → JobTrigger → JobRun → JobRun
reclaimed ctx triggered_by j = record j {
  status = running;
  triggered_by = triggered_by;
  started_at = ctx.now;
  finished_at = none;
}

-- The id of the run that is ours, or `none` when the day's run has succeeded.
abbrev pub claim_existing : ReminderContext → JobTrigger → JobRun → Db → Option ℕ × Db
claim_existing ctx triggered_by j db =
    if is_succeeded j.status
    then (none, db)
    else (some j.id, set_job_run j.id (reclaimed ctx triggered_by) db)

abbrev pub claim_new : ReminderContext → JobTrigger → Db → Option ℕ × Db
claim_new ctx triggered_by db = (
  some db.next_id,
  record db {
    job_runs = new_run ctx triggered_by db.next_id ∷ db.job_runs;
    next_id = db.next_id + 1;
  },
)

abbrev pub claim_by : ReminderContext → JobTrigger → Db → Option JobRun → Option ℕ × Db
claim_by ctx triggered_by db (some j) = claim_existing ctx triggered_by j db
claim_by ctx triggered_by db none = claim_new ctx triggered_by db

unfoldable pub claim_run : ReminderContext → JobTrigger → Db → Option ℕ × Db
claim_run ctx triggered_by db =
    claim_by ctx triggered_by db (find (is_run_of ctx.tenant_id ctx.today) db.job_runs)
