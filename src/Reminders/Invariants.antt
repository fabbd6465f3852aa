-- ===== src/Reminders/Invariants.antt =====
-- What every operation of the reminder engine keeps, from the changes that it is made of.
pub mod Dispatching
pub mod Generating
use mathlib.Core.Path.{subst}
use recurring_service_platfo.Session.{Db, Action, new_id}
use recurring_service_platfo.Session.Triples.{Triple, Sustains}
use recurring_service_platfo.Base.{err, ℕ, ◌-◌, ◌≡◌, Bool, false, Option}
use recurring_service_platfo.Base.Int.{ℤ}
use recurring_service_platfo.Core.Text.{Text}
use recurring_service_platfo.Models.{
  ReminderKind, failed, cancelled, Reminder, CommunicationLog, ReminderContext, AuditAction,
}
use recurring_service_platfo.Reminders.Schedule.{reminder}
use recurring_service_platfo.Reminders.Engine.Stages.{
  loaded, update_reminder, audit_reminder, create_stage,
}
use recurring_service_platfo.Reminders.Engine.Messages.{Provider}
use recurring_service_platfo.Reminders.Engine.Dispatch.{hand_over, is_settled}
use recurring_service_platfo.Reminders.Engine.Rows.{failed_row, cancelled_row}

-- An invariant of the engine: what holds between two operations, what holds while a row is at hand,
-- and the changes of the tables that keep them.
pub record EngineInvariant (ctx : ReminderContext) : Type 1 where
  pub holds : Db → Type 0
  pub row : Reminder → Db → Type 0
  pub weaken : (r : Reminder) (db : Db) → row r db → holds db
  pub loading : (id : ℕ) → Triple holds (loaded id) row
  pub counting : (r : Reminder) → Sustains (row r) new_id
  pub audited :
      (action : AuditAction) (r : Reminder) (reason : Option Text) (operation_id : Option ℕ)
      (manual : Bool)
      → Sustains holds (audit_reminder ctx action r reason operation_id manual)
  pub creating :
      (customer cycle day : ℕ) (kind : ReminderKind) (amount : ℤ)
      → Sustains holds (create_stage ctx customer cycle day kind amount)
  pub failing :
      (r : Reminder) (error : Text)
      → is_settled r ≡ false
      → Triple (row r) (update_reminder r.id (failed_row error)) (λ u. holds)
  pub cancelling :
      (r : Reminder)
      → is_settled r ≡ false
      → Triple (row r) (update_reminder r.id (cancelled_row ctx)) (λ u. holds)
  pub handing :
      (provider : Provider) (r : Reminder) (entry : CommunicationLog) (operation_id : Option ℕ)
      (manual : Bool)
      → entry.reminder_id ≡ r.id
      → is_settled r ≡ false
      → Triple (row r) (hand_over ctx provider r entry operation_id manual) (λ u. holds)
