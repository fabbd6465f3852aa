-- ===== src/Reminders/Engine/Generation.antt =====
-- backend/app/reminders/engine.py: which messages a customer is due.
use recurring_service_platfo.Session.{Action, ◌>>=◌, pure, gets}
use recurring_service_platfo.Base.{
  ltb, leb, if◌then◌else◌, ℕ, Bool, true, false, not, ◌&&◌, ◌||◌, Option, none, some, List, [], ◌∷◌,
  ◌++◌,
}
use recurring_service_platfo.Base.Int.{ℤ, pos, leb_ℤ}
use recurring_service_platfo.Models.{
  Customer, of_stage, owner_alert, in_outstanding_kinds, ReminderState, pending, failed,
  is_cancelled, Reminder, ReminderContext,
}
use recurring_service_platfo.Billing.Ledger.{outstanding_minor}
use recurring_service_platfo.Reminders.Schedule.{is_final_kind, Stage, due_stage}
use recurring_service_platfo.Reminders.Engine.Stages.{
  ReminderCycle, highest_sent_stage, load_reminder, loaded, create_stage,
}

abbrev pub max_delivery_attempts : ℕ
max_delivery_attempts = 3

abbrev pub may_retry : ReminderState → ℕ → Bool
may_retry pending attempts = true
may_retry failed attempts = ltb attempts max_delivery_attempts
may_retry _ attempts = false

unfoldable pub is_retryable : Reminder → Bool
is_retryable r = may_retry r.state r.attempt_count

abbrev pub when_retryable : Reminder → Option ℕ
when_retryable r = if is_retryable r then some r.id else none

abbrev pub alert_or_create :
    ReminderContext → Reminder → Customer → ReminderCycle → Option Reminder → Action (Option ℕ)
alert_or_create ctx final_notice customer cycle (some alert) = pure (when_retryable alert)
alert_or_create ctx final_notice customer cycle none = do
  outstanding ← gets (outstanding_minor ctx.tenant_id customer.id)
  id ← create_stage ctx customer.id cycle.cycle_id final_notice.schedule_day owner_alert outstanding
  pure (some id)

-- The alert that goes with a FINAL stage.
unfoldable pub owner_alert_for :
    ReminderContext → Reminder → Customer → ReminderCycle → Action (Option ℕ)
owner_alert_for ctx final_notice customer cycle = do
  alert ←
      gets (
        load_reminder ctx.tenant_id customer.id cycle.cycle_id final_notice.schedule_day
          owner_alert)
  alert_or_create ctx final_notice customer cycle alert

abbrev pub listed : Option ℕ → List ℕ
listed none = []
listed (some id) = id ∷ []

abbrev pub append_alert : List ℕ → Option ℕ → List ℕ
append_alert due alert = due ++ listed alert

abbrev pub alert_when :
    Bool → ReminderContext → Reminder → Customer → ReminderCycle → List ℕ → Action (List ℕ)
alert_when false ctx r customer cycle due = pure due
alert_when true ctx r customer cycle due = do
  alert ← owner_alert_for ctx r customer cycle
  pure (append_alert due alert)

unfoldable pub with_alert :
    ReminderContext → Customer → ReminderCycle → Stage → ℕ → List ℕ → Action (List ℕ)
with_alert ctx customer cycle stage id due = do
  r ← loaded id
  alert_when (is_final_kind stage.kind && not (is_cancelled r.state)) ctx r customer cycle due

-- REM-8 and REM-4: nothing when the stage is not above every sent one, or nothing is owed.
abbrev pub is_not_due : Stage → ℕ → ℤ → Bool
is_not_due stage highest outstanding =
    leb stage.day highest
    || (in_outstanding_kinds (of_stage stage.kind) && leb_ℤ outstanding (pos 0))

abbrev pub create_unless :
    Bool → ReminderContext → Customer → ReminderCycle → Stage → ℤ → Action (List ℕ)
create_unless true ctx customer cycle stage outstanding = pure []
create_unless false ctx customer cycle stage outstanding = do
  id ← create_stage ctx customer.id cycle.cycle_id stage.day (of_stage stage.kind) outstanding
  with_alert ctx customer cycle stage id (id ∷ [])

abbrev pub generate_from :
    ReminderContext → Customer → ReminderCycle → Stage → Option Reminder → Action (List ℕ)
generate_from ctx customer cycle stage (some existing) =
    with_alert ctx customer cycle stage existing.id (listed (when_retryable existing))
generate_from ctx customer cycle stage none = do
  highest ← gets (highest_sent_stage ctx.tenant_id customer.id cycle.cycle_id)
  outstanding ← gets (outstanding_minor ctx.tenant_id customer.id)
  create_unless (is_not_due stage highest outstanding) ctx customer cycle stage outstanding

abbrev pub generate_stage :
    ReminderContext → Customer → ReminderCycle → Option Stage → Action (List ℕ)
generate_stage ctx customer cycle none = pure []
generate_stage ctx customer cycle (some stage) = do
  existing ←
      gets (load_reminder ctx.tenant_id customer.id cycle.cycle_id stage.day (of_stage stage.kind))
  generate_from ctx customer cycle stage existing

unfoldable pub generate_due_reminder :
    ReminderContext → Customer → List Stage → ReminderCycle → Action (List ℕ)
generate_due_reminder ctx customer schedule cycle =
    generate_stage ctx customer cycle (due_stage schedule ctx.today.day)
