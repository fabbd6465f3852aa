-- ===== src/Reminders/Delivery/Attempts.antt =====
-- Every operation of the reminder engine keeps the delivery log true to the reminders.
use recurring_service_platfo.Session.Frames.{raise_when-same}
use mathlib.Core.Path.{subst}
use recurring_service_platfo.Core.Text.{Text, is_empty}
use recurring_service_platfo.Session.{Db, raise_when, bind-ok}
use recurring_service_platfo.Session.Triples.{Triple, Sustains, Triple-modify}
use recurring_service_platfo.Base.{
  ◌==◌, if◌then◌else◌, ==_refl, find, update_first, All-find, value_error, ok, ℕ, ◌<◌, ◌≡◌, refl,
  ap, ◌∙◌, ◌≢◌, Bool, true, false, Option, some, List, ◌∷◌, arith,
}
use recurring_service_platfo.Models.{
  Reminder, is_successful, CommunicationLog, ReminderContext, AuditAction,
}
use recurring_service_platfo.Reminders.Engine.Stages.{is_reminder, loaded, audit_reminder}
use recurring_service_platfo.Reminders.Engine.Messages.{DeliveryReceipt, Provider, receipt_of}
use recurring_service_platfo.Reminders.Engine.Dispatch.{hand_over, is_settled}
use recurring_service_platfo.Reminders.Engine.Rows.{
  message_of, answered_row, sent_row, failed_row, error_text, settle_attempt,
}
use recurring_service_platfo.Reminders.Delivery.Rows.{
  attempts_of, successes_of, IsDelivered, AllDelivered, find-is_reminder, same-AllDelivered,
  update-AllDelivered,
}

-- The row that an object stands for is at hand.
abbrev pub Holds : Reminder → Db → Type 0
Holds r db = AllDelivered db × (find (is_reminder r.id) db.reminders ≡ some r)

pub audit_reminder-AllDelivered :
    (ctx : ReminderContext) (action : AuditAction) (r : Reminder) (reason : Option Text)
    (operation_id : Option ℕ) (manual : Bool)
    → Sustains AllDelivered (audit_reminder ctx action r reason operation_id manual)
unfolding audit_reminder
audit_reminder-AllDelivered ctx action r reason operation_id manual =
    Triple-modify AllDelivered _ (λ u. AllDelivered)
      (λ db d. same-AllDelivered db _ refl refl (omega arith) d)

pub loaded-row :
    (id : ℕ) (db db' : Db) (r : Reminder)
    → loaded id db ≡ ok (r, db')
    → (find (is_reminder id) db.reminders ≡ some r) × (db' ≡ db)
unfolding loaded
loaded-row id db db' r h = ground arith

pub loaded-Holds : (id : ℕ) → Triple AllDelivered (loaded id) Holds
loaded-Holds id db db' r d h =
    let (found, same) = loaded-row id db db' r h in
    rw same (
      d,
      ap (λ j. find (is_reminder j) db.reminders) (find-is_reminder id db.reminders r found)
          ∙ found,
    )

-- What a finished attempt has written.
settle_attempt-run :
    (done : Bool) (ctx : ReminderContext) (r : Reminder) (answer : DeliveryReceipt)
    (operation_id : Option ℕ) (manual : Bool) (db db' : Db) (u : Unit {0})
    → settle_attempt done ctx r answer operation_id manual db ≡ ok (u, db')
    → (db'.reminders
        ≡ update_first
            (is_reminder r.id)
            (if done then sent_row ctx else failed_row (error_text answer.error))
            db.reminders)
      × (db'.communication_log ≡ db.communication_log)
      × (db'.next_id ≡ db.next_id)
unfolding audit_reminder
settle_attempt-run true ctx r answer operation_id manual db db' u h = ground arith
settle_attempt-run false ctx r answer operation_id manual db db' u h = ground arith

update_first-head :
    {A : Type 0} (p : A → Bool) (f : A → A) (x : A) (xs : List A)
    → p x ≡ true
    → update_first p f (x ∷ xs) ≡ f x ∷ xs
update_first-head p f x xs h = rw h

pub hand_over-run :
    (ctx : ReminderContext) (provider : Provider) (r : Reminder) (entry : CommunicationLog)
    (operation_id : Option ℕ) (manual : Bool) (db db' : Db) (u : Unit {0})
    → hand_over ctx provider r entry operation_id manual db ≡ ok (u, db')
    → let answer = receipt_of (provider.send entry.id (message_of entry)) in
      (db'.reminders
        ≡ update_first
            (is_reminder r.id)
            (if is_successful answer.state
              then sent_row ctx
              else failed_row (error_text answer.error))
            db.reminders)
      × (db'.communication_log ≡ answered_row answer entry ∷ db.communication_log)
      × (db'.next_id ≡ db.next_id)
unfolding hand_over
hand_over-run ctx provider r entry operation_id manual db db' u h =
    let answer = receipt_of (provider.send entry.id (message_of entry)) in
    let logged = record db {
      communication_log =
          update_first (λ e. e.id == entry.id) (answered_row answer) (entry ∷ db.communication_log);
    } in
    let (unit, db₁, checked, rest) =
      bind-ok (raise_when (is_empty entry.destination) value_error) _ _ h in
    let at : db₁ ≡ record db { communication_log = entry ∷ db.communication_log } =
      raise_when-same _ _ _ _ _ checked in
    let run =
      subst
        (λ x.
          settle_attempt (is_successful answer.state) ctx r answer operation_id manual (record x {
            communication_log =
                update_first (λ e. e.id == entry.id) (answered_row answer) x.communication_log;
          })
          ≡ ok (u, db'))
        at rest in
    let (rows, log, ids) = settle_attempt-run _ ctx r answer operation_id manual logged db' u run in
    (
      rows,
      log
          ∙ update_first-head (λ e. e.id == entry.id) (answered_row answer) entry
              db.communication_log (==_refl entry.id),
      ids,
    )

-- An attempt on a reminder that is neither SENT nor out of attempts.
new_attempt-IsDelivered :
    (ctx : ReminderContext) (r : Reminder) (answer : DeliveryReceipt) (entry : CommunicationLog)
    (log : List CommunicationLog)
    → entry.reminder_id ≡ r.id
    → is_settled r ≡ false
    → IsDelivered log r
    → IsDelivered (answered_row answer entry ∷ log) (
        (if is_successful answer.state then sent_row ctx else failed_row (error_text answer.error))
          r)
new_attempt-IsDelivered ctx r answer entry log e open_still d = ground (arith, ==_refl r.id)

outcome_keeps_id :
    (done : Bool) (ctx : ReminderContext) (error : Text) (x : Reminder)
    → ((if done then sent_row ctx else failed_row error) x).id ≡ x.id
outcome_keeps_id true ctx error x = refl
outcome_keeps_id false ctx error x = refl

other_entry :
    (id : ℕ) (r : Reminder) (answer : DeliveryReceipt) (entry : CommunicationLog)
    (log : List CommunicationLog)
    → entry.reminder_id ≡ r.id
    → id ≢ r.id
    → (attempts_of id (answered_row answer entry ∷ log) ≡ attempts_of id log)
      × (successes_of id (answered_row answer entry ∷ log) ≡ successes_of id log)
other_entry id r answer entry log own n = ground arith

pub hand_over-AllDelivered :
    (ctx : ReminderContext) (provider : Provider) (r : Reminder) (entry : CommunicationLog)
    (operation_id : Option ℕ) (manual : Bool)
    → entry.reminder_id ≡ r.id
    → is_settled r ≡ false
    → Triple (Holds r) (hand_over ctx provider r entry operation_id manual) (λ u. AllDelivered)
hand_over-AllDelivered ctx provider r entry operation_id manual own open_still db db' u (d, e) h =
    let answer = receipt_of (provider.send entry.id (message_of entry)) in
    let f =
      if is_successful answer.state then sent_row ctx else failed_row (error_text answer.error) in
    let log = answered_row answer entry ∷ db.communication_log in
    let (rows, logged, ids) = hand_over-run ctx provider r entry operation_id manual db db' u h in
    same-AllDelivered
      (record db {
        reminders = update_first (is_reminder r.id) f db.reminders;
        communication_log = log;
      })
      db' rows logged (omega arith)
      (update-AllDelivered db log f r e
        (outcome_keeps_id (is_successful answer.state) ctx (error_text answer.error))
        (λ id n. other_entry id r answer entry db.communication_log own n)
        (new_attempt-IsDelivered ctx r answer entry db.communication_log own open_still
          (d.rows r.id r e))
        (
          rw own (All-find (λ x. x.id < db.next_id) (is_reminder r.id) db.reminders r d.known e),
          d.fresh,
        )
        d)
