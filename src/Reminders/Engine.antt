-- ===== src/Reminders/Engine.antt =====
-- backend/app/reminders/engine.py: one customer, end to end.
--
-- A reminder that the code holds is an object of the session, whose fields are those of its row: it
-- is the id of the row here, and `loaded` reads it. The provider is third-party code.
pub mod Stages
pub mod Generation
pub mod Messages
pub mod Rows
pub mod Dispatch
use recurring_service_platfo.Session.{Action, ◌>>=◌, ◌>>◌, pure, gets}
use recurring_service_platfo.Base.{ℕ, ◌-◌, ◌/◌, ap, false, Option, none, some, List, [], ◌∷◌}
use recurring_service_platfo.Models.{Customer, Reminder, ReminderContext}
use recurring_service_platfo.Reminders.Schedule.{reminder, Stage}
use recurring_service_platfo.Reminders.Engine.Stages.{ReminderCycle, reminder_cycle_for, loaded}
use recurring_service_platfo.Reminders.Engine.Generation.{generate_due_reminder}
use recurring_service_platfo.Reminders.Engine.Messages.{Provider}
use recurring_service_platfo.Reminders.Engine.Dispatch.{dispatch_reminder}

unfoldable pub dispatch_all :
    ReminderContext → Provider → Customer → ReminderCycle → List ℕ → Action (Unit {0})
dispatch_all ctx provider customer cycle [] = pure tt
dispatch_all ctx provider customer cycle (id ∷ ids) = do
  dispatch_reminder ctx provider id (some customer) (some cycle) none false
  dispatch_all ctx provider customer cycle ids

abbrev pub process_cycle :
    ReminderContext → Provider → Customer → List Stage → Option ReminderCycle → Action (List ℕ)
process_cycle ctx provider customer schedule none = pure []
process_cycle ctx provider customer schedule (some cycle) = do
  due ← generate_due_reminder ctx customer schedule cycle
  dispatch_all ctx provider customer cycle due
  pure due

-- The unit of work of the runner, and of its commits.
unfoldable pub process_customer :
    ReminderContext → Provider → Customer → List Stage → Action (List ℕ)
process_customer ctx provider customer schedule = do
  cycle ← gets (reminder_cycle_for ctx.tenant_id customer.id)
  process_cycle ctx provider customer schedule cycle
