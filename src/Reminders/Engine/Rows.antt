-- ===== src/Reminders/Engine/Rows.antt =====
-- backend/app/reminders/engine.py: the rows that a delivery attempt writes.
use recurring_service_platfo.Session.{Action, ◌>>◌}
use recurring_service_platfo.Base.{
  if◌then◌else◌, get_or, ℕ, ◌+◌, Bool, true, false, Option, none, some, [],
}
use recurring_service_platfo.Core.Text.{Text, codes}
use recurring_service_platfo.Models.{
  is_owner_alert, sent, failed, cancelled, Reminder, Channel, queued, MessageParams,
  CommunicationLog, ReminderContext, AuditAction, reminder_sent, reminder_failed,
  reminder_owner_alerted,
}
use recurring_service_platfo.Reminders.Engine.Stages.{update_reminder, audit_reminder}
use recurring_service_platfo.Reminders.Engine.Messages.{OutboundMessage, DeliveryReceipt, present}

abbrev pub attempt_row :
    ReminderContext → Text → Reminder → Channel × Text → Text → MessageParams → ℕ → CommunicationLog
attempt_row ctx provider_name r destination template params id = record {
  id = id;
  tenant_id = ctx.tenant_id;
  customer_id = r.customer_id;
  reminder_id = r.id;
  channel = destination.0;
  provider = provider_name;
  template_key = template;
  destination = destination.1;
  payload = params;
  provider_message_id = none;
  state = queued;
  error = none;
  attempt_no = r.attempt_count + 1;
}

abbrev pub message_of : CommunicationLog → OutboundMessage
message_of entry = record {
  tenant_id = entry.tenant_id;
  customer_id = entry.customer_id;
  channel = entry.channel;
  to = entry.destination;
  template_key = entry.template_key;
  params = entry.payload;
  idempotency_key = entry.reminder_id;
}

abbrev pub answered_row : DeliveryReceipt → CommunicationLog → CommunicationLog
answered_row r entry = record entry {
  state = r.state;
  provider_message_id = r.provider_message_id;
  error = r.error;
}

abbrev pub sent_row : ReminderContext → Reminder → Reminder
sent_row ctx r = record r {
  attempt_count = r.attempt_count + 1;
  state = sent;
  sent_at = some ctx.now;
  last_error = none;
}

abbrev pub failed_row : Text → Reminder → Reminder
failed_row error r = record r {
  attempt_count = r.attempt_count + 1;
  state = failed;
  last_error = some error;
}

abbrev pub cancelled_row : ReminderContext → Reminder → Reminder
cancelled_row ctx r = record r { state = cancelled; cancelled_at = some ctx.now; last_error = none }

-- `receipt.error or "delivery failed"`.
abbrev pub error_text : Option Text → Text
error_text e = if present e then get_or e [] else codes "delivery failed"

abbrev pub sent_action : Reminder → AuditAction
sent_action r = if is_owner_alert r.kind then reminder_owner_alerted else reminder_sent

abbrev pub resent_reason : Bool → Option Text
resent_reason true = some (codes "re-dispatched by the owner")
resent_reason false = none

-- The outcome of the attempt, on the row and in the audit trail.
abbrev pub settle_attempt :
    Bool → ReminderContext → Reminder → DeliveryReceipt → Option ℕ → Bool → Action (Unit {0})
settle_attempt true ctx r answer operation_id manual = do
  update_reminder r.id (sent_row ctx)
  audit_reminder ctx (sent_action r) (sent_row ctx r) (resent_reason manual) operation_id manual
settle_attempt false ctx r answer operation_id manual = do
  update_reminder r.id (failed_row (error_text answer.error))
  audit_reminder ctx reminder_failed (failed_row (error_text answer.error) r)
      (some (error_text answer.error)) operation_id manual
