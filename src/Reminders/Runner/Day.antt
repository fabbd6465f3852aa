-- ===== src/Reminders/Runner/Day.antt =====
-- One run of a tenant's day, and what it leaves for the next.
use mathlib.Core.Path.{subst}
use recurring_service_platfo.Session.{Db, after}
use recurring_service_platfo.Base.{
  Bool-cases, filter, find, update_first, Error, Result, ok, err, Result-cases, ℕ, ◌≡◌, refl, sym,
  ap, ◌∙◌, ◌⊎◌, inl, inr, true, false, Option, none, some, List, [], ◌∷◌, arith,
}
use recurring_service_platfo.Models.{
  Customer, JobRunStatus, running, succeeded, run_failed, is_succeeded, JobTrigger, Counts, JobRun,
  ReminderContext,
}
use recurring_service_platfo.Reminders.Schedule.{Stage, due_stage}
use recurring_service_platfo.Reminders.Engine.Messages.{Provider}
use recurring_service_platfo.Reminders.Engine.{process_customer}
use recurring_service_platfo.Reminders.Confined.{process_customer-ConfinedTo}
use recurring_service_platfo.Reminders.Runner.{
  no_counts, count_all, is_customer_of, Round, finished, crashed, run_round, round_of, RunOutcome,
  completed, already_run, run_raised, ended, end_round, run_claimed, is_tenant_row, schedule_of,
  tenant_schedule, run_scheduled, run_daily_reminders,
}
use recurring_service_platfo.Reminders.Claims.{
  is_run_of, is_job_run, claim_existing, claim_by, claim_run,
}
use recurring_service_platfo.Reminders.Runner.Guard.{
  FoundByKey, Claimed, changed-Claimed, claim_by-Claimed,
}

-- What the tables of a run share with those it started from.
pub record SameJobs (db db' : Db) : Type 0 where
  pub runs : db'.job_runs ≡ db.job_runs
  pub tenants_too : db'.tenants ≡ db.tenants

abbrev tables_of : Round → Db
tables_of (finished counts db) = db
tables_of (crashed e counts db) = db

abbrev status_of : Round → JobRunStatus
status_of (finished counts db) = succeeded
status_of (crashed e counts db) = run_failed

module _ (ctx : ReminderContext) (provider : Provider) (schedule : List Stage) (c : Customer)
    (cs : List Customer) (counts : Counts) (db : Db) where
  run_round-ok :
      (r : List ℕ × Db)
      → process_customer ctx provider c schedule db ≡ ok r
      → run_round ctx provider schedule (c ∷ cs) counts db
        ≡ run_round ctx provider schedule cs (count_all r.0 r.1 counts) r.1
  unfolding run_round
  run_round-ok r e = rw (e, run_round) refl

  run_round-err :
      (e : Error)
      → process_customer ctx provider c schedule db ≡ err e
      → run_round ctx provider schedule (c ∷ cs) counts db ≡ crashed e counts db
  unfolding run_round
  run_round-err e h = rw (h, run_round) refl

run_round-SameJobs :
    (ctx : ReminderContext) (provider : Provider) (schedule : List Stage)
    (customers : List Customer) (counts : Counts) (db : Db)
    → SameJobs db (tables_of (run_round ctx provider schedule customers counts db))
unfolding run_round
run_round-SameJobs ctx provider schedule [] counts db = record { runs = refl; tenants_too = refl }
run_round-SameJobs ctx provider schedule (c ∷ cs) counts db =
    elim (Result-cases (process_customer ctx provider c schedule db)) [
      | inl (r, e) ↦
          let rest = run_round-SameJobs ctx provider schedule cs (count_all r.0 r.1 counts) r.1 in
          let frame = process_customer-ConfinedTo ctx provider c schedule db r.1 r.0 e in
          subst (λ x. SameJobs db (tables_of x))
            (sym (run_round-ok ctx provider schedule c cs counts db r e))
            (record {
              runs = rest.runs ∙ ap (λ x. x.job_runs) frame;
              tenants_too = rest.tenants_too ∙ ap (λ x. x.tenants) frame;
            })
      | inr (e, h) ↦
          subst (λ x. SameJobs db (tables_of x))
            (sym (run_round-err ctx provider schedule c cs counts db e h))
            (record { runs = refl; tenants_too = refl })
    ]

round_of-SameJobs :
    (ctx : ReminderContext) (provider : Provider) (schedule : List Stage) (stage : Option Stage)
    (customers : List Customer) (db : Db)
    → SameJobs db (tables_of (round_of ctx provider schedule stage customers db))
round_of-SameJobs ctx provider schedule none customers db = record {
  runs = refl;
  tenants_too = refl;
}
round_of-SameJobs ctx provider schedule (some stage) customers db =
    run_round-SameJobs ctx provider schedule customers no_counts db

end_round-Claimed :
    (ctx : ReminderContext) (id : ℕ) (db : Db) (r : Round)
    → Claimed ctx id running db
    → SameJobs db (tables_of r)
    → Claimed ctx id (status_of r) (end_round ctx id r).1
end_round-Claimed ctx id db (finished counts after) c same =
    changed-Claimed ctx id succeeded (ended succeeded ctx counts) db _ (λ x. refl) (λ x. refl)
      (λ x. refl) c.row c.own c.by_day c.by_id
      (ap (update_first (is_job_run id) (ended succeeded ctx counts)) same.runs)
end_round-Claimed ctx id db (crashed e counts after) c same =
    changed-Claimed ctx id run_failed (ended run_failed ctx counts) db _ (λ x. refl) (λ x. refl)
      (λ x. refl) c.row c.own c.by_day c.by_id
      (ap (update_first (is_job_run id) (ended run_failed ctx counts)) same.runs)

-- How a run has ended: the day's row says so, and the schedule is as it was.
abbrev pub EndsAs : ReminderContext → Db → RunOutcome → Db → Type 0
EndsAs ctx db (completed counts) after =
    (after.tenants ≡ db.tenants)
    × ((j : JobRun) × (find (is_run_of ctx.tenant_id ctx.today) after.job_runs ≡ some j)
        × (j.status ≡ succeeded))
EndsAs ctx db already_run after =
    (after ≡ db)
    × ((j : JobRun) × (find (is_run_of ctx.tenant_id ctx.today) db.job_runs ≡ some j)
        × (is_succeeded j.status ≡ true))
EndsAs ctx db (run_raised e) after =
    ((after ≡ db) × (tenant_schedule ctx db ≡ err e))
    ⊎ ((j : JobRun) × (find (is_run_of ctx.tenant_id ctx.today) after.job_runs ≡ some j)
        × (j.status ≡ run_failed))

end_round-EndsAs :
    (ctx : ReminderContext) (id : ℕ) (start db : Db) (r : Round)
    → db.tenants ≡ start.tenants
    → Claimed ctx id running db
    → SameJobs db (tables_of r)
    → EndsAs ctx start (end_round ctx id r).0 (end_round ctx id r).1
end_round-EndsAs ctx id start db (finished counts after) et c same =
    let d = end_round-Claimed ctx id db (finished counts after) c same in
    (same.tenants_too ∙ et, (d.row, d.by_day, d.in_status))
end_round-EndsAs ctx id start db (crashed e counts after) et c same =
    let d = end_round-Claimed ctx id db (crashed e counts after) c same in
    inr (d.row, d.by_day, d.in_status)

claim_by-tenants :
    (ctx : ReminderContext) (triggered_by : JobTrigger) (db : Db) (o : Option JobRun)
    → (claim_by ctx triggered_by db o).1.tenants ≡ db.tenants
claim_by-tenants ctx triggered_by db none = refl
claim_by-tenants ctx triggered_by db (some j) = ground arith

claim_by-none :
    (ctx : ReminderContext) (triggered_by : JobTrigger) (db : Db) (o : Option JobRun)
    → find (is_run_of ctx.tenant_id ctx.today) db.job_runs ≡ o
    → (claim_by ctx triggered_by db o).0 ≡ none
    → EndsAs ctx db already_run (claim_by ctx triggered_by db o).1
claim_by-none ctx triggered_by db none e h = cc
claim_by-none ctx triggered_by db (some j) e h = elim (Bool-cases (is_succeeded j.status)) [
  | inl done ↦ rw done (refl, (j, e, done))
  | inr open_still ↦ absurd (claims ctx triggered_by db j open_still h)
]
  where
    claims :
        (ctx : ReminderContext) (triggered_by : JobTrigger) (db : Db) (j : JobRun)
        → is_succeeded j.status ≡ false
        → (claim_existing ctx triggered_by j db).0 ≡ none
        → ⊥
    claims ctx triggered_by db j open_still h = ground arith

module _ (ctx : ReminderContext) (provider : Provider) (ordered : List Customer → List Customer)
    (triggered_by : JobTrigger) (db : Db) (key : FoundByKey ctx db) where
  run_claimed-EndsAs :
      (schedule : List Stage) (o : Option JobRun) (claim : Option ℕ)
      → find (is_run_of ctx.tenant_id ctx.today) db.job_runs ≡ o
      → (claim_by ctx triggered_by db o).0 ≡ claim
      → let r =
          run_claimed ctx provider ordered schedule (claim, (claim_by ctx triggered_by db o).1) in
        EndsAs ctx db r.0 r.1
  run_claimed-EndsAs schedule o none e h = claim_by-none ctx triggered_by db o e h
  run_claimed-EndsAs schedule o (some id) e h =
      let claimed = (claim_by ctx triggered_by db o).1 in
      end_round-EndsAs ctx id db claimed _ (claim_by-tenants ctx triggered_by db o)
        (claim_by-Claimed ctx triggered_by db id o key e h)
        (round_of-SameJobs ctx provider schedule (due_stage schedule ctx.today.day)
          (ordered (filter (is_customer_of ctx.tenant_id) claimed.customers)) claimed)

  run_scheduled-EndsAs :
      (schedule : Result (List Stage))
      → tenant_schedule ctx db ≡ schedule
      → let r = run_scheduled ctx provider ordered triggered_by db schedule in EndsAs ctx db r.0 r.1
  unfolding claim_run
  run_scheduled-EndsAs (err e) configured = inl (refl, configured)
  run_scheduled-EndsAs (ok schedule) configured =
      run_claimed-EndsAs schedule (find (is_run_of ctx.tenant_id ctx.today) db.job_runs) _ refl refl

  -- Where the primary key finds the row of the day, a run of a day that completes leaves that row
  -- SUCCEEDED and the schedules as they were, one that reports that the day was done had found a
  -- row that SUCCEEDED and changed nothing, and one that raises either was refused its schedule
  -- with that error and changed nothing, or leaves the row FAILED
  pub run_daily_reminders-EndsAs :
      let r = run_daily_reminders ctx provider ordered triggered_by db in EndsAs ctx db r.0 r.1
  unfolding run_daily_reminders
  run_daily_reminders-EndsAs = run_scheduled-EndsAs (tenant_schedule ctx db) refl

  completed-schedule :
      (s : Result (List Stage)) (counts : Counts)
      → (run_scheduled ctx provider ordered triggered_by db s).0 ≡ completed counts
      → (schedule : List Stage) × (s ≡ ok schedule)
  completed-schedule (err e) counts h = cc
  completed-schedule (ok schedule) counts h = (schedule, refl)

again-run :
    (ctx : ReminderContext) (provider : Provider) (ordered : List Customer → List Customer)
    (triggered_by : JobTrigger) (db : Db) (j : JobRun) (schedule : List Stage)
    → find (is_run_of ctx.tenant_id ctx.today) db.job_runs ≡ some j
    → j.status ≡ succeeded
    → tenant_schedule ctx db ≡ ok schedule
    → run_daily_reminders ctx provider ordered triggered_by db ≡ (already_run, db)
unfolding run_daily_reminders claim_run
again-run ctx provider ordered triggered_by db j schedule e done configured =
    rw (configured, e, done) refl

-- Where the primary key finds the row of the day, once a tenant's run of a day has completed, a
-- further run for that tenant and day, with any provider, order and trigger, reports that it was
-- done and changes nothing
pub run_daily_reminders-again :
    (ctx : ReminderContext) (provider : Provider) (ordered : List Customer → List Customer)
    (triggered_by : JobTrigger) (db : Db) (later : ReminderContext) (other_provider : Provider)
    (reordered : List Customer → List Customer) (triggered_again : JobTrigger) (counts : Counts)
    → FoundByKey ctx db
    → (run_daily_reminders ctx provider ordered triggered_by db).0 ≡ completed counts
    → later.tenant_id ≡ ctx.tenant_id
    → later.today ≡ ctx.today
    → let after = (run_daily_reminders ctx provider ordered triggered_by db).1 in
      run_daily_reminders later other_provider reordered triggered_again after
      ≡ (already_run, after)
unfolding run_daily_reminders tenant_schedule
run_daily_reminders-again ctx provider ordered triggered_by db later other_provider reordered
      triggered_again counts key h same_tenant same_day =
    let after = (run_daily_reminders ctx provider ordered triggered_by db).1 in
    let (schedule, configured) =
      completed-schedule ctx provider ordered triggered_by db key (tenant_schedule ctx db) counts
        h in
    let (tenants, (j, found, done)) =
      subst (λ o. EndsAs ctx db o after) h
        (run_daily_reminders-EndsAs ctx provider ordered triggered_by db key) in
    again-run later other_provider reordered triggered_again after j schedule
      (ap (λ t. find (is_run_of t later.today) after.job_runs) same_tenant
        ∙ ap (λ d. find (is_run_of ctx.tenant_id d) after.job_runs) same_day
        ∙ found)
      done
      (ap (λ t. schedule_of (find (is_tenant_row t) after.tenants)) same_tenant
        ∙ ap (λ ts. schedule_of (find (is_tenant_row ctx.tenant_id) ts)) tenants
        ∙ configured)
