-- ===== src/Reminders/Engine/Stages.antt =====
-- backend/app/reminders/engine.py: the reminder cycle, and the rows of the stages.
use recurring_service_platfo.Session.{
  Db, Action, ◌>>=◌, ◌>>◌, pure, lift, raise_when, gets, modify, new_id,
}
use recurring_service_platfo.Base.{
  ltb, leb, ◌==◌, if◌then◌else◌, find, update_first, assertion_error, integrity_error, or_raise, ℕ,
  Bool, true, false, not, ◌&&◌, Option, none, some, List, [], ◌∷◌,
}
use recurring_service_platfo.Base.Int.{ℤ}
use recurring_service_platfo.Core.Date.{Date}
use recurring_service_platfo.Core.Text.{Text}
use recurring_service_platfo.Models.{
  ReminderKind, of_stage, owner_alert, is_owner_alert, reminder_kind_eqb, pending, is_sent,
  Reminder, ReminderContext, BillingCycle, Statement, reminder_entity, AuditAction,
  reminder_generated, audit_online, audit_job, tenant_scope, system_scope,
}
use recurring_service_platfo.Session.Tables.{is_cycle, record_audit_event}
use recurring_service_platfo.Reminders.Schedule.{in_schedule_kinds}

pub record ReminderCycle : Type 0 where
  pub cycle_id : ℕ
  pub statement : Statement
  pub period_start : Date
  pub period_end : Date

abbrev pub cycle_of : Statement → BillingCycle → ReminderCycle
cycle_of s c = record {
  cycle_id = s.cycle_id;
  statement = s;
  period_start = c.period_start;
  period_end = c.period_end;
}

-- `order_by(row_version.desc()).limit(1)`.
abbrev pub newer_of : ReminderCycle → Option ReminderCycle → Option ReminderCycle
newer_of c none = some c
newer_of c (some d) = if ltb c.statement.row_version d.statement.row_version then some d else some c

abbrev pub newest_cycle :
    (Statement → Bool) → List BillingCycle → List Statement → Option ReminderCycle
newest_cycle wanted cycles [] = none
newest_cycle wanted cycles (s ∷ ss) =
    let rest = newest_cycle wanted cycles ss in
    if wanted s
    then elim (find (is_cycle s.tenant_id s.cycle_id) cycles) [
      | none ↦ rest
      | some c ↦ newer_of (cycle_of s c) rest
    ]
    else rest

unfoldable pub reminder_cycle_for : ℕ → ℕ → Db → Option ReminderCycle
reminder_cycle_for tenant customer db =
    newest_cycle (λ s. s.tenant_id == tenant && s.customer_id == customer) db.cycles db.statements

abbrev pub is_of_cycle : ℕ → ℕ → ℕ → Reminder → Bool
is_of_cycle tenant customer cycle r =
    r.tenant_id == tenant && (r.customer_id == customer && r.cycle_id == cycle)

-- A stage that reached the customer: SENT, and not an alert to the owner.
abbrev pub counts_as_sent : ℕ → ℕ → ℕ → Reminder → Bool
counts_as_sent tenant customer cycle r =
    is_of_cycle tenant customer cycle r && (not (is_owner_alert r.kind) && is_sent r.state)

-- `coalesce(max(schedule_day), 0)`.
abbrev pub highest_day : (Reminder → Bool) → List Reminder → ℕ
highest_day p [] = 0
highest_day p (r ∷ rs) =
    let rest = highest_day p rs in if p r && ltb rest r.schedule_day then r.schedule_day else rest

unfoldable pub highest_sent_stage : ℕ → ℕ → ℕ → Db → ℕ
highest_sent_stage tenant customer cycle db =
    highest_day (counts_as_sent tenant customer cycle) db.reminders

-- uq_reminder_tenant_id_customer_id_cycle_id_schedule_day_kind.
abbrev pub is_stage : ℕ → ℕ → ℕ → ℕ → ReminderKind → Reminder → Bool
is_stage tenant customer cycle day kind r =
    is_of_cycle tenant customer cycle r && (r.schedule_day == day && reminder_kind_eqb r.kind kind)

unfoldable pub load_reminder : ℕ → ℕ → ℕ → ℕ → ReminderKind → Db → Option Reminder
load_reminder tenant customer cycle day kind db =
    find (is_stage tenant customer cycle day kind) db.reminders

-- The row of an object; it is there, since no reminder is ever deleted.
abbrev pub is_reminder : ℕ → Reminder → Bool
is_reminder id r = r.id == id

unfoldable pub loaded : ℕ → Action Reminder
loaded id = do lift (or_raise (← gets (λ db. find (is_reminder id) db.reminders)) assertion_error)

abbrev pub update_reminder : ℕ → (Reminder → Reminder) → Action (Unit {0})
update_reminder id f =
    modify (λ db. record db { reminders = update_first (is_reminder id) f db.reminders })

-- AUD-9: a job is SYSTEM and JOB, a person who sends again is not.
abbrev pub is_system : Option ℕ → Bool → Bool
is_system none manual = not manual
is_system (some _) manual = false

abbrev pub actor_of : ReminderContext → Bool → Option ℕ
actor_of ctx manual = if is_system ctx.user_id manual then none else ctx.user_id

unfoldable pub audit_reminder :
    ReminderContext → AuditAction → Reminder → Option Text → Option ℕ → Bool → Action (Unit {0})
audit_reminder ctx action r reason operation_id manual = record_audit_event (record {
  tenant_id = ctx.tenant_id;
  actor_user_id = actor_of ctx manual;
  actor_scope = if is_system ctx.user_id manual then system_scope else tenant_scope;
  action = action;
  entity_id = r.id;
  before = none;
  after = some (reminder_entity r);
  reason = reason;
  operation_id = operation_id;
  audit_source = if manual then audit_online else audit_job;
})

abbrev pub new_reminder : ReminderContext → ℕ → ℕ → ℕ → ReminderKind → ℤ → ℕ → Reminder
new_reminder ctx customer cycle day kind amount id = record {
  id = id;
  tenant_id = ctx.tenant_id;
  customer_id = customer;
  cycle_id = cycle;
  schedule_day = day;
  kind = kind;
  amount_minor_at_generation = amount;
  state = pending;
  attempt_count = 0;
  last_error = none;
  generated_at = ctx.now;
  sent_at = none;
  cancelled_at = none;
}

-- The CHECK constraints on a new row: a known kind, and a day of every month.
abbrev pub is_known_stage : ReminderKind → Bool
is_known_stage (of_stage k) = in_schedule_kinds k
is_known_stage owner_alert = true

abbrev pub fits_checks : ℕ → ReminderKind → Bool
fits_checks day kind = is_known_stage kind && (leb 1 day && leb day 28)

unfoldable pub add_reminder : ReminderContext → (ℕ → Reminder) → Action ℕ
add_reminder ctx row = do
  id ← new_id
  modify (λ db. record db { reminders = row id ∷ db.reminders })
  audit_reminder ctx reminder_generated (row id) none none false
  pure id

-- The unique index settles every race: a row that is there already wins.
abbrev pub win_or_add : Option Reminder → Action ℕ → Action ℕ
win_or_add (some winner) add = pure winner.id
win_or_add none add = add

unfoldable pub create_stage : ReminderContext → ℕ → ℕ → ℕ → ReminderKind → ℤ → Action ℕ
create_stage ctx customer cycle day kind amount = do
  raise_when (not (fits_checks day kind)) integrity_error
  winner ← gets (load_reminder ctx.tenant_id customer cycle day kind)
  win_or_add winner (add_reminder ctx (new_reminder ctx customer cycle day kind amount))
