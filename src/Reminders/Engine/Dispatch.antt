-- ===== src/Reminders/Engine/Dispatch.antt =====
-- backend/app/reminders/engine.py: one delivery attempt, and its outcome on the rows.
use recurring_service_platfo.Reminders.Engine.Rows.{
  attempt_row, message_of, answered_row, failed_row, cancelled_row, settle_attempt,
}
use recurring_service_platfo.Session.{
  Action, ◌>>=◌, ◌>>◌, pure, lift, raise_when, gets, modify, new_id,
}
use recurring_service_platfo.Base.{
  leb, ◌==◌, if◌then◌else◌, find, update_first, not_found, validation_failed, value_error, or_raise,
  ℕ, Bool, true, false, ◌&&◌, ◌||◌, Option, none, some, ◌∷◌,
}
use recurring_service_platfo.Base.Int.{ℤ, pos, leb_ℤ}
use recurring_service_platfo.Core.Text.{Text, codes, is_empty}
use recurring_service_platfo.Models.{
  Customer, ReminderKind, of_stage, owner_alert, in_outstanding_kinds, is_sent, is_cancelled,
  Reminder, Channel, is_successful, CommunicationLog, ReminderContext, reminder_failed,
  reminder_cancelled,
}
use recurring_service_platfo.Session.Tables.{is_customer, is_statement_of}
use recurring_service_platfo.Billing.Ledger.{outstanding_minor}
use recurring_service_platfo.Reminders.Engine.Stages.{
  ReminderCycle, newest_cycle, reminder_cycle_for, loaded, update_reminder, audit_reminder,
}
use recurring_service_platfo.Reminders.Engine.Generation.{max_delivery_attempts}
use recurring_service_platfo.Reminders.Engine.Messages.{
  Provider, receipt_of, destination_for, render_params, template_for,
}

abbrev pub add_entry : CommunicationLog → Action (Unit {0})
add_entry entry = modify (λ db. record db { communication_log = entry ∷ db.communication_log })

abbrev pub update_entry : ℕ → (CommunicationLog → CommunicationLog) → Action (Unit {0})
update_entry id f =
    modify (λ db. record db {
      communication_log = update_first (λ e. e.id == id) f db.communication_log;
    })

-- The log row, the call of the provider, and what it answered.
unfoldable pub hand_over :
    ReminderContext → Provider → Reminder → CommunicationLog → Option ℕ → Bool → Action (Unit {0})
hand_over ctx provider r entry operation_id manual = do
  add_entry entry
  raise_when (is_empty entry.destination) value_error
  let answer = receipt_of (provider.send entry.id (message_of entry))
  update_entry entry.id (answered_row answer)
  settle_attempt (is_successful answer.state) ctx r answer operation_id manual

unfoldable pub no_contact : ReminderKind → Text
no_contact owner_alert = codes "no active owner-admin address to alert"
no_contact (of_stage _) = codes "no phone or WhatsApp number on file for this customer"

-- `_fail`: nothing reached a provider, so nothing is logged.
unfoldable pub fail_reminder :
    ReminderContext → Reminder → Text → Option ℕ → Bool → Action (Unit {0})
fail_reminder ctx r error operation_id manual = do
  update_reminder r.id (failed_row error)
  audit_reminder ctx reminder_failed (failed_row error r) (some error) operation_id manual

unfoldable pub cancel_reminder : ReminderContext → Reminder → Action (Unit {0})
cancel_reminder ctx r = do
  update_reminder r.id (cancelled_row ctx)
  audit_reminder ctx reminder_cancelled (cancelled_row ctx r)
      (some (codes "customer no longer owes anything")) none false

unfoldable pub send_to :
    ReminderContext
    → Provider
    → Reminder
    → Customer
    → ReminderCycle
    → ℤ
    → Option ℕ
    → Bool
    → Channel × Text
    → Action (Unit {0})
send_to ctx provider r customer cycle outstanding operation_id manual destination = do
  params ← render_params ctx customer cycle r outstanding
  template ← lift (template_for r.kind)
  id ← new_id
  hand_over ctx provider r (attempt_row ctx provider.name r destination template params id)
      operation_id manual

abbrev pub deliver_to :
    ReminderContext
    → Provider
    → Reminder
    → Customer
    → ReminderCycle
    → ℤ
    → Option ℕ
    → Bool
    → Option (Channel × Text)
    → Action (Unit {0})
deliver_to ctx provider r customer cycle outstanding operation_id manual none =
    fail_reminder ctx r (no_contact r.kind) operation_id manual
deliver_to ctx provider r customer cycle outstanding operation_id manual (some destination) =
    send_to ctx provider r customer cycle outstanding operation_id manual destination

-- REM-4: a customer who owes nothing gets no reminder of a debt.
abbrev pub cancel_or_deliver :
    Bool
    → ReminderContext
    → Provider
    → Reminder
    → Customer
    → ReminderCycle
    → ℤ
    → Option ℕ
    → Bool
    → Action (Unit {0})
cancel_or_deliver true ctx provider r customer cycle outstanding operation_id manual =
    cancel_reminder ctx r
cancel_or_deliver false ctx provider r customer cycle outstanding operation_id manual = do
  destination ← gets (destination_for ctx r customer)
  deliver_to ctx provider r customer cycle outstanding operation_id manual destination

abbrev pub given_customer : ReminderContext → Reminder → Option Customer → Action Customer
given_customer ctx r (some customer) = pure customer
given_customer ctx r none = do
  lift (
      or_raise (← gets (λ db. find (is_customer ctx.tenant_id r.customer_id) db.customers))
        not_found)

-- `_cycle_by_id`: the statement of the reminder's own cycle.
unfoldable pub cycle_by_id : ReminderContext → Reminder → Action ReminderCycle
cycle_by_id ctx r = do
  lift (
      or_raise
        (← gets (λ db.
          newest_cycle (is_statement_of ctx.tenant_id r.customer_id r.cycle_id) db.cycles
            db.statements))
        validation_failed)

abbrev pub of_reminder : ReminderContext → Reminder → Option ReminderCycle → Action ReminderCycle
of_reminder ctx r none = cycle_by_id ctx r
of_reminder ctx r (some cycle) =
    if cycle.cycle_id == r.cycle_id then pure cycle else cycle_by_id ctx r

abbrev pub given_cycle : ReminderContext → Reminder → Option ReminderCycle → Action ReminderCycle
given_cycle ctx r (some cycle) = pure cycle
given_cycle ctx r none = do
  cycle ← gets (reminder_cycle_for ctx.tenant_id r.customer_id)
  of_reminder ctx r cycle

-- SENT and CANCELLED are final, and the attempts are bounded.
abbrev pub is_settled : Reminder → Bool
is_settled r =
    is_sent r.state || (is_cancelled r.state || leb max_delivery_attempts r.attempt_count)

unfoldable pub attempt :
    ReminderContext
    → Provider
    → Reminder
    → Option Customer
    → Option ReminderCycle
    → Option ℕ
    → Bool
    → Action (Unit {0})
attempt ctx provider r customer? cycle? operation_id manual = do
  customer ← given_customer ctx r customer?
  cycle ← given_cycle ctx r cycle?
  outstanding ← gets (outstanding_minor ctx.tenant_id r.customer_id)
  cancel_or_deliver (in_outstanding_kinds r.kind && leb_ℤ outstanding (pos 0)) ctx provider r
      customer cycle outstanding operation_id manual

abbrev pub attempt_unless :
    Bool
    → ReminderContext
    → Provider
    → Reminder
    → Option Customer
    → Option ReminderCycle
    → Option ℕ
    → Bool
    → Action (Unit {0})
attempt_unless true ctx provider r customer? cycle? operation_id manual = pure tt
attempt_unless false ctx provider r customer? cycle? operation_id manual =
    attempt ctx provider r customer? cycle? operation_id manual

-- P0 §10 step 5. The amount is read here, and not when the stage was generated.
unfoldable pub dispatch_reminder :
    ReminderContext
    → Provider
    → ℕ
    → Option Customer
    → Option ReminderCycle
    → Option ℕ
    → Bool
    → Action (Unit {0})
dispatch_reminder ctx provider id customer? cycle? operation_id manual = do
  r ← loaded id
  attempt_unless (is_settled r) ctx provider r customer? cycle? operation_id manual
