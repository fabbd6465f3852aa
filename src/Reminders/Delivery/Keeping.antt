-- ===== src/Reminders/Delivery/Keeping.antt =====
-- The changes that the engine makes keep the delivery log true to the reminders.
use recurring_service_platfo.Reminders.Engine.{process_customer}
use recurring_service_platfo.Reminders.Schedule.{Stage}
use recurring_service_platfo.Reminders.Engine.Messages.{Provider}
use recurring_service_platfo.Session.{Db, raise_when, gets, new_id}
use recurring_service_platfo.Session.Triples.{
  Triple, Sustains, Sustains-bind, Sustains-pure, Sustains-gets, Triple-modify, Sustains-raise_when,
  Triple-new_id,
}
use recurring_service_platfo.Base.{
  integrity_error, ok, ℕ, ◌+◌, ◌≡◌, refl, Bool, false, not, Option, none, some, List, ◌∷◌, arith,
}
use recurring_service_platfo.Base.Int.{ℤ}
use recurring_service_platfo.Core.Text.{Text}
use recurring_service_platfo.Models.{
  Customer, ReminderKind, Reminder, CommunicationLog, ReminderContext,
}
use recurring_service_platfo.Reminders.Engine.Stages.{
  ReminderCycle, load_reminder, update_reminder, audit_reminder, new_reminder, fits_checks,
  add_reminder, win_or_add, create_stage,
}
use recurring_service_platfo.Reminders.Engine.Dispatch.{is_settled, dispatch_reminder}
use recurring_service_platfo.Reminders.Engine.Rows.{failed_row, cancelled_row}
use recurring_service_platfo.Reminders.Invariants.Dispatching.{dispatch_reminder-Sustains}
use recurring_service_platfo.Reminders.Invariants.Generating.{process_customer-Sustains}
use recurring_service_platfo.Reminders.Invariants.{EngineInvariant}
use recurring_service_platfo.Reminders.Delivery.Rows.{
  IsDelivered, AllDelivered, same-AllDelivered, new-AllDelivered, update-AllDelivered,
}
use recurring_service_platfo.Reminders.Delivery.Attempts.{
  Holds, audit_reminder-AllDelivered, loaded-Holds, hand_over-AllDelivered,
}

-- A row that changes with nothing logged.
unlogged-AllDelivered :
    (f : Reminder → Reminder) (r : Reminder)
    → ((x : Reminder) → (f x).id ≡ x.id)
    → ((log : List CommunicationLog) → IsDelivered log r → IsDelivered log (f r))
    → Triple (Holds r) (update_reminder r.id f) (λ u. AllDelivered)
unlogged-AllDelivered f r keeps_id fits =
    Triple-modify (Holds r) _ (λ u. AllDelivered)
      (λ db h.
        update-AllDelivered db db.communication_log f r h.1 keeps_id (λ id n. (refl, refl))
          (fits db.communication_log (h.0.rows r.id r h.1)) h.0.fresh h.0)

failed-IsDelivered :
    (error : Text) (r : Reminder) (log : List CommunicationLog)
    → is_settled r ≡ false
    → IsDelivered log r
    → IsDelivered log (failed_row error r)
failed-IsDelivered error r log open_still d = ground arith

cancelled-IsDelivered :
    (ctx : ReminderContext) (r : Reminder) (log : List CommunicationLog)
    → is_settled r ≡ false
    → IsDelivered log r
    → IsDelivered log (cancelled_row ctx r)
cancelled-IsDelivered ctx r log open_still d = ground arith

new_id-Holds : (r : Reminder) → Sustains (Holds r) new_id
new_id-Holds r =
    Triple-new_id (Holds r) (λ id. Holds r)
      (λ db h. (same-AllDelivered db _ refl refl (omega arith) h.0, h.1))

pub add_reminder-run :
    (ctx : ReminderContext) (row : ℕ → Reminder) (db db' : Db) (id : ℕ)
    → add_reminder ctx row db ≡ ok (id, db')
    → (db'.reminders ≡ row db.next_id ∷ db.reminders)
      × (db'.communication_log ≡ db.communication_log)
      × (db'.next_id ≡ db.next_id + 1)
unfolding add_reminder new_id audit_reminder
add_reminder-run ctx row db db' id h = ground arith

create_stage-AllDelivered :
    (ctx : ReminderContext) (customer cycle day : ℕ) (kind : ReminderKind) (amount : ℤ)
    → Sustains AllDelivered (create_stage ctx customer cycle day kind amount)
unfolding create_stage
create_stage-AllDelivered ctx customer cycle day kind amount =
    Sustains-bind AllDelivered (raise_when (not (fits_checks day kind)) integrity_error) _
      (Sustains-raise_when AllDelivered (not (fits_checks day kind)) integrity_error)
      (λ u.
        Sustains-bind AllDelivered (gets (load_reminder ctx.tenant_id customer cycle day kind)) _
          (Sustains-gets AllDelivered (load_reminder ctx.tenant_id customer cycle day kind))
          (λ winner. win_or_add-AllDelivered winner))
  where
    row : ℕ → Reminder
    row = new_reminder ctx customer cycle day kind amount

    added : Sustains AllDelivered (add_reminder ctx row)
    added db db' id d h =
        let (rows, log, ids) = add_reminder-run ctx row db db' id h in
        same-AllDelivered
          (record db { reminders = row db.next_id ∷ db.reminders; next_id = db.next_id + 1 }) db'
          rows log (omega arith) (new-AllDelivered db (row db.next_id) refl refl refl d)

    win_or_add-AllDelivered :
        (winner : Option Reminder)
        → Sustains AllDelivered (win_or_add winner (add_reminder ctx row))
    win_or_add-AllDelivered none = added
    win_or_add-AllDelivered (some winner) = Sustains-pure AllDelivered winner.id

delivered : (ctx : ReminderContext) → EngineInvariant ctx
delivered ctx = record {
  holds = AllDelivered;
  row = Holds;
  weaken = λ r db h. h.0;
  loading = loaded-Holds;
  counting = new_id-Holds;
  audited = audit_reminder-AllDelivered ctx;
  creating = create_stage-AllDelivered ctx;
  failing = λ r error open_still.
      unlogged-AllDelivered (failed_row error) r (λ x. refl)
        (λ log d. failed-IsDelivered error r log open_still d);
  cancelling = λ r open_still.
      unlogged-AllDelivered (cancelled_row ctx) r (λ x. refl)
        (λ log d. cancelled-IsDelivered ctx r log open_still d);
  handing = hand_over-AllDelivered ctx;
}

pub process_customer-AllDelivered :
    (ctx : ReminderContext) (provider : Provider) (customer : Customer) (schedule : List Stage)
    → Sustains AllDelivered (process_customer ctx provider customer schedule)
unfolding delivered
process_customer-AllDelivered ctx = process_customer-Sustains ctx (delivered ctx)

pub dispatch_reminder-AllDelivered :
    (ctx : ReminderContext) (provider : Provider) (id : ℕ) (customer : Option Customer)
    (cycle : Option ReminderCycle) (operation_id : Option ℕ) (manual : Bool)
    → Sustains AllDelivered (dispatch_reminder ctx provider id customer cycle operation_id manual)
unfolding delivered
dispatch_reminder-AllDelivered ctx provider id customer cycle operation_id manual =
    dispatch_reminder-Sustains ctx (delivered ctx) provider customer cycle operation_id manual id
