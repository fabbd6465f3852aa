-- ===== src/Reminders/Delivery/History.antt =====
-- Delivery over any history: runs for customers, reminders sent again, and everything else.
use recurring_service_platfo.Reminders.Delivery.Keeping.{
  process_customer-AllDelivered, dispatch_reminder-AllDelivered,
}
use recurring_service_platfo.Session.{Db}
use recurring_service_platfo.Base.{
  if◌then◌else◌, find, ok, ℕ, ◌≤◌, ◌≡◌, sym, ap, ◌∙◌, Bool, Option, none, some, List, [], arith,
}
use recurring_service_platfo.Models.{Customer, is_sent, Reminder, ReminderContext}
use recurring_service_platfo.Reminders.Schedule.{Stage}
use recurring_service_platfo.Reminders.Engine.Stages.{ReminderCycle, is_reminder}
use recurring_service_platfo.Reminders.Engine.Messages.{Provider}
use recurring_service_platfo.Reminders.Engine.Dispatch.{dispatch_reminder}
use recurring_service_platfo.Reminders.Engine.{process_customer}
use recurring_service_platfo.Reminders.Delivery.Rows.{
  attempts_of, successes_of, AllDelivered, same-AllDelivered,
}

-- `elsewhere` is any transaction that writes neither reminders nor the log; ids are never reused.
pub data Step (db db' : Db) : Type 0 where
  processed :
      (ctx : ReminderContext) (provider : Provider) (customer : Customer) (schedule : List Stage)
      (due : List ℕ)
      → process_customer ctx provider customer schedule db ≡ ok (due, db')
      → Step db db'
  dispatched :
      (ctx : ReminderContext) (provider : Provider) (id : ℕ) (customer : Option Customer)
      (cycle : Option ReminderCycle) (operation_id : Option ℕ) (manual : Bool) (u : Unit {0})
      → dispatch_reminder ctx provider id customer cycle operation_id manual db ≡ ok (u, db')
      → Step db db'
  elsewhere :
      db'.reminders ≡ db.reminders
      → db'.communication_log ≡ db.communication_log
      → db.next_id ≤ db'.next_id
      → Step db db'

pub data Reachable : Db → Type 0 where
  start : {db : Db} → db.reminders ≡ [] → db.communication_log ≡ [] → Reachable db
  next : {db db' : Db} → Reachable db → Step db db' → Reachable db'

start-AllDelivered : (db : Db) → db.reminders ≡ [] → db.communication_log ≡ [] → AllDelivered db
start-AllDelivered db er el = record {
  rows = λ id r h. absurd (no_row id r (ap (find (is_reminder id)) (sym er) ∙ h));
  fresh = rw el tt;
  known = rw er tt;
}
  where
    no_row : (id : ℕ) (r : Reminder) → none ≡ some r → ⊥
    no_row id r h = cc

Step-AllDelivered : (db db' : Db) → Step db db' → AllDelivered db → AllDelivered db'
Step-AllDelivered db db' (processed ctx provider customer schedule due h) d =
    process_customer-AllDelivered ctx provider customer schedule db db' due d h
Step-AllDelivered db db' (dispatched ctx provider id customer cycle operation_id manual u h) d =
    dispatch_reminder-AllDelivered ctx provider id customer cycle operation_id manual db db' u d h
Step-AllDelivered db db' (elsewhere er el le) d = same-AllDelivered db db' er el le d

pub Reachable-AllDelivered : {db : Db} → Reachable db → AllDelivered db
Reachable-AllDelivered (start er el) = start-AllDelivered _ er el
Reachable-AllDelivered (next r s) = Step-AllDelivered _ _ s (Reachable-AllDelivered r)

-- After any sequence of runs for customers, of reminders sent again and of other transactions
-- that leave reminders and the delivery log alone, from tables with neither, whatever the
-- provider answers or raises, the log holds at most three attempts of every reminder, and exactly
-- one that the provider took when the reminder is SENT and none otherwise
pub Reachable-IsDelivered :
    (db : Db) (id : ℕ) (r : Reminder)
    → Reachable db
    → find (is_reminder id) db.reminders ≡ some r
    → (attempts_of r.id db.communication_log ≤ 3)
      × (successes_of r.id db.communication_log ≡ (if is_sent r.state then 1 else 0))
Reachable-IsDelivered db id r reached h =
    let d = (Reachable-AllDelivered reached).rows id r h in (ground (arith, d), d.successes)
