-- ===== src/Models/Reminders.antt =====
-- reminders/models.py and ports/comms.py: reminders, delivery attempts and job runs; the tenant's
-- row and the users that the reminder jobs read.
use recurring_service_platfo.Base.{ℕ, Bool, true, false, Option, List}
use recurring_service_platfo.Base.Int.{ℤ}
use recurring_service_platfo.Core.Text.{Text}
use recurring_service_platfo.Core.Date.{Date}
use recurring_service_platfo.Reminders.Schedule.{
  StageKind, statement, reminder, final, other_kind, RawEntry,
}

-- A stage of the schedule, or the alert to the owner that goes with the FINAL one.
pub data ReminderKind : Type 0 where
  of_stage : StageKind → ReminderKind
  owner_alert : ReminderKind

abbrev pub is_owner_alert : ReminderKind → Bool
is_owner_alert (of_stage _) = false
is_owner_alert owner_alert = true

-- OUTSTANDING_KINDS.
abbrev pub in_outstanding_kinds : ReminderKind → Bool
in_outstanding_kinds (of_stage reminder) = true
in_outstanding_kinds (of_stage final) = true
in_outstanding_kinds (of_stage statement) = false
in_outstanding_kinds (of_stage other_kind) = false
in_outstanding_kinds owner_alert = true

abbrev pub stage_kind_eqb : StageKind → StageKind → Bool
stage_kind_eqb statement statement = true
stage_kind_eqb reminder reminder = true
stage_kind_eqb final final = true
stage_kind_eqb other_kind other_kind = true
stage_kind_eqb _ _ = false

abbrev pub reminder_kind_eqb : ReminderKind → ReminderKind → Bool
reminder_kind_eqb (of_stage k) (of_stage j) = stage_kind_eqb k j
reminder_kind_eqb owner_alert owner_alert = true
reminder_kind_eqb _ _ = false

pub data ReminderState : Type 0 where
  pending sent failed cancelled : ReminderState

abbrev pub is_sent : ReminderState → Bool
is_sent sent = true
is_sent _ = false

abbrev pub is_cancelled : ReminderState → Bool
is_cancelled cancelled = true
is_cancelled _ = false

pub record Reminder : Type 0 where
  pub id : ℕ
  pub tenant_id : ℕ
  pub customer_id : ℕ
  pub cycle_id : ℕ
  pub schedule_day : ℕ
  pub kind : ReminderKind
  pub amount_minor_at_generation : ℤ
  pub state : ReminderState
  pub attempt_count : ℕ
  pub last_error : Option Text
  pub generated_at : ℕ
  pub sent_at : Option ℕ
  pub cancelled_at : Option ℕ

pub data Channel : Type 0 where
  whatsapp sms email : Channel

pub data DeliveryState : Type 0 where
  queued accepted delivered delivery_failed : DeliveryState

-- DeliveryState.SUCCESSFUL.
abbrev pub is_successful : DeliveryState → Bool
is_successful accepted = true
is_successful delivered = true
is_successful _ = false

-- The values of the message, every one a text; `statement_total` only where the key is set.
pub record MessageParams : Type 0 where
  pub customer_name : Text
  pub customer_code : Text
  pub amount_due : Text
  pub currency : Text
  pub period_start : Text
  pub period_end : Text
  pub business_date : Text
  pub stage : Text
  pub statement_total : Option Text

pub record CommunicationLog : Type 0 where
  pub id : ℕ
  pub tenant_id : ℕ
  pub customer_id : ℕ
  pub reminder_id : ℕ
  pub channel : Channel
  pub provider : Text
  pub template_key : Text
  pub destination : Text
  pub payload : MessageParams
  pub provider_message_id : Option Text
  pub state : DeliveryState
  pub error : Option Text
  pub attempt_no : ℕ

pub data JobRunStatus : Type 0 where
  running succeeded run_failed : JobRunStatus

abbrev pub is_succeeded : JobRunStatus → Bool
is_succeeded succeeded = true
is_succeeded _ = false

pub data JobTrigger : Type 0 where
  cron manual_trigger : JobTrigger

pub record Counts : Type 0 where
  pub generated : ℕ
  pub sent : ℕ
  pub failed : ℕ
  pub cancelled : ℕ
  pub owner_alerts : ℕ

-- The only kind of job is `reminders`.
pub record JobRun : Type 0 where
  pub id : ℕ
  pub tenant_id : ℕ
  pub business_date : Date
  pub status : JobRunStatus
  pub triggered_by : JobTrigger
  pub detail : Option Counts
  pub started_at : ℕ
  pub finished_at : Option ℕ

-- tenancy/models.py: what the jobs read of a tenant; a schedule that is no list is `none`.
pub record Tenant : Type 0 where
  pub id : ℕ
  pub is_active : Bool
  pub currency : Text
  pub currency_exponent : ℕ
  pub reminder_schedule : Option (List RawEntry)
  pub row_version : ℕ

-- identity/models.py: what the owner alert reads of a user.
pub record AppUser : Type 0 where
  pub id : ℕ
  pub tenant_id : Option ℕ
  pub is_owner_admin : Bool
  pub is_active : Bool
  pub email : Text
  pub created_at : ℕ

-- A `SystemContext` of a job, which has no user, or the `TenantContext` of an owner who sends again.
pub record ReminderContext : Type 0 where
  pub tenant_id : ℕ
  pub user_id : Option ℕ
  pub now : ℕ
  pub today : Date
  pub currency : Text
  pub currency_exponent : ℕ
