-- ===== src/Reminders/Confined.antt =====
-- REM-6: the tables that the reminder engine writes, and that it writes no other.
use recurring_service_platfo.Reminders.Invariants.Generating.{process_customer-Sustains}
use recurring_service_platfo.Reminders.Engine.{process_customer}
use recurring_service_platfo.Reminders.Invariants.{EngineInvariant}
use recurring_service_platfo.Reminders.Invariants.Dispatching.{dispatch_reminder-Sustains}
use recurring_service_platfo.Reminders.Delivery.Attempts.{loaded-row}
use recurring_service_platfo.Session.{Db, Action, raise_when, gets, new_id}
use recurring_service_platfo.Session.Triples.{
  Sustains, Sustains-bind, Sustains-gets, Sustains-raise_when,
}
use recurring_service_platfo.Base.{
  value_error, integrity_error, ok, ℕ, ◌≡◌, refl, ap, ◌∙◌, Bool, true, false, not, Option, none,
  some, List, arith,
}
use recurring_service_platfo.Base.Int.{ℤ}
use recurring_service_platfo.Core.Text.{Text, is_empty}
use recurring_service_platfo.Models.{
  Customer, ReminderKind, Reminder, is_successful, CommunicationLog, ReminderContext, AuditAction,
}
use recurring_service_platfo.Reminders.Schedule.{Stage}
use recurring_service_platfo.Reminders.Engine.Stages.{
  ReminderCycle, load_reminder, loaded, update_reminder, audit_reminder, new_reminder, fits_checks,
  add_reminder, win_or_add, create_stage,
}
use recurring_service_platfo.Reminders.Engine.Messages.{DeliveryReceipt, Provider, receipt_of}
use recurring_service_platfo.Reminders.Engine.Dispatch.{
  add_entry, update_entry, hand_over, dispatch_reminder,
}
use recurring_service_platfo.Reminders.Engine.Rows.{
  message_of, answered_row, failed_row, cancelled_row, settle_attempt,
}

-- The tables `db` with the reminders, the delivery log and the audit trail of `db'`.
abbrev pub with_reminders_of : Db → Db → Db
with_reminders_of db db' = record db {
  reminders = db'.reminders;
  communication_log = db'.communication_log;
  audit_events = db'.audit_events;
  next_id = db'.next_id;
}

abbrev pub ConfinedTo : Db → Db → Type 0
ConfinedTo db db' = db' ≡ with_reminders_of db db'

confined_trans : (a b c : Db) → ConfinedTo a b → ConfinedTo b c → ConfinedTo a c
confined_trans a b c h k = k ∙ ap (λ x. with_reminders_of x c) h

abbrev Confines : {A : Type 0} → Action A → Type 0
Confines {A} m = (db db' : Db) (a : A) → m db ≡ ok (a, db') → ConfinedTo db db'

after_confined :
    {A : Type 0} (start : Db) (m : Action A) → Confines m → Sustains (ConfinedTo start) m
after_confined start m c db db' a p h = confined_trans start db db' p (c db db' a h)

module _ (ctx : ReminderContext) where
  audit-Confines :
      (action : AuditAction) (r : Reminder) (reason : Option Text) (operation_id : Option ℕ)
      (manual : Bool)
      → Confines (audit_reminder ctx action r reason operation_id manual)
  unfolding audit_reminder
  audit-Confines action r reason operation_id manual db db' a h = ground arith

  update-Confines : (id : ℕ) (f : Reminder → Reminder) → Confines (update_reminder id f)
  update-Confines id f db db' a h = ground arith

  add-Confines : (row : ℕ → Reminder) → Confines (add_reminder ctx row)
  unfolding add_reminder new_id audit_reminder
  add-Confines row db db' a h = ground arith

  win-Confines :
      (winner : Option Reminder) (row : ℕ → Reminder)
      → Confines (win_or_add winner (add_reminder ctx row))
  win-Confines none row db db' a h = add-Confines row db db' a h
  win-Confines (some winner) row db db' a h = ground arith

  create-Confines :
      (customer cycle day : ℕ) (kind : ReminderKind) (amount : ℤ)
      → Confines (create_stage ctx customer cycle day kind amount)
  unfolding create_stage
  create-Confines customer cycle day kind amount db db' a h =
      let P = ConfinedTo db in
      let query = load_reminder ctx.tenant_id customer cycle day kind in
      Sustains-bind P (raise_when (not (fits_checks day kind)) integrity_error) _
        (Sustains-raise_when P (not (fits_checks day kind)) integrity_error)
        (λ u. Sustains-bind P (gets query) _ (Sustains-gets P query) (λ winner.
          after_confined db (win_or_add winner _)
            (win-Confines winner (new_reminder ctx customer cycle day kind amount))))
        db db' a refl h

  settle-Confines :
      (done : Bool) (r : Reminder) (answer : DeliveryReceipt) (operation_id : Option ℕ)
      (manual : Bool)
      → Confines (settle_attempt done ctx r answer operation_id manual)
  unfolding audit_reminder
  settle-Confines true r answer operation_id manual db db' a h = ground arith
  settle-Confines false r answer operation_id manual db db' a h = ground arith

  add_entry-Confines : (entry : CommunicationLog) → Confines (add_entry entry)
  add_entry-Confines entry db db' a h = ground arith

  update_entry-Confines :
      (id : ℕ) (f : CommunicationLog → CommunicationLog) → Confines (update_entry id f)
  update_entry-Confines id f db db' a h = ground arith

  hand-Confines :
      (provider : Provider) (r : Reminder) (entry : CommunicationLog) (operation_id : Option ℕ)
      (manual : Bool)
      → Confines (hand_over ctx provider r entry operation_id manual)
  unfolding hand_over
  hand-Confines provider r entry operation_id manual db db' a h =
      let P = ConfinedTo db in
      let answer = receipt_of (provider.send entry.id (message_of entry)) in
      Sustains-bind P (add_entry entry) _
        (after_confined db (add_entry entry) (add_entry-Confines entry))
        (λ u.
          Sustains-bind P (raise_when (is_empty entry.destination) value_error) _
            (Sustains-raise_when P (is_empty entry.destination) value_error)
            (λ v.
              Sustains-bind P (update_entry entry.id (answered_row answer)) _
                (after_confined db (update_entry entry.id (answered_row answer))
                  (update_entry-Confines entry.id (answered_row answer)))
                (λ w.
                  after_confined db
                    (settle_attempt (is_successful answer.state) ctx r answer operation_id manual)
                    (settle-Confines (is_successful answer.state) r answer operation_id manual))))
        db db' a refl h

  loaded-Confines : (id : ℕ) → Confines (loaded id)
  loaded-Confines id db db' r h = rw (loaded-row id db db' r h).1 refl

  new_id-Confines : Confines new_id
  unfolding new_id
  new_id-Confines db db' a h = ground arith

  confined : Db → EngineInvariant ctx
  confined start = record {
    holds = ConfinedTo start;
    row = λ r. ConfinedTo start;
    weaken = λ r db h. h;
    loading = λ id. after_confined start (loaded id) (loaded-Confines id);
    counting = λ r. after_confined start new_id new_id-Confines;
    audited = λ action r reason operation_id manual.
        after_confined start (audit_reminder ctx action r reason operation_id manual)
          (audit-Confines action r reason operation_id manual);
    creating = λ customer cycle day kind amount.
        after_confined start (create_stage ctx customer cycle day kind amount)
          (create-Confines customer cycle day kind amount);
    failing = λ r error open_still.
        after_confined start (update_reminder r.id (failed_row error))
          (update-Confines r.id (failed_row error));
    cancelling = λ r open_still.
        after_confined start (update_reminder r.id (cancelled_row ctx))
          (update-Confines r.id (cancelled_row ctx));
    handing = λ provider r entry operation_id manual own open_still.
        after_confined start (hand_over ctx provider r entry operation_id manual)
          (hand-Confines provider r entry operation_id manual);
  }

-- The reminder run for a customer changes no table but the reminders, the delivery log and the
-- audit trail, whatever the provider does: no balance, payment or statement can move
pub process_customer-ConfinedTo :
    (ctx : ReminderContext) (provider : Provider) (customer : Customer) (schedule : List Stage)
    (db db' : Db) (due : List ℕ)
    → process_customer ctx provider customer schedule db ≡ ok (due, db')
    → ConfinedTo db db'
unfolding confined
process_customer-ConfinedTo ctx provider customer schedule db db' due h =
    process_customer-Sustains ctx (confined ctx db) provider customer schedule db db' due refl h

pub dispatch_reminder-ConfinedTo :
    (ctx : ReminderContext) (provider : Provider) (id : ℕ) (customer : Option Customer)
    (cycle : Option ReminderCycle) (operation_id : Option ℕ) (manual : Bool) (db db' : Db)
    (u : Unit {0})
    → dispatch_reminder ctx provider id customer cycle operation_id manual db ≡ ok (u, db')
    → ConfinedTo db db'
unfolding confined
dispatch_reminder-ConfinedTo ctx provider id customer cycle operation_id manual db db' u h =
    dispatch_reminder-Sustains ctx (confined ctx db) provider customer cycle operation_id manual id
      db db' u refl h
