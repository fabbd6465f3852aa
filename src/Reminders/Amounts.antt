-- ===== src/Reminders/Amounts.antt =====
-- REM-2 to REM-4: the amount that a reminder asks for, and when nothing is sent.
use recurring_service_platfo.Reminders.Delivery.Rows.{find-is_reminder}
use recurring_service_platfo.Billing.Ledger.{outstanding_minor}
use mathlib.Core.Path.{subst}
use recurring_service_platfo.Session.{Db, ◌>>=◌, lift, new_id, bind-ok}
use recurring_service_platfo.Session.Frames.{lift-same}
use recurring_service_platfo.Base.{
  find, update_first, ok, ℕ, ◌≡◌, refl, ap, ◌∙◌, ◌⊎◌, inl, inr, Bool, true, false, ◌&&◌, Option,
  none, some, List, [], ◌∷◌, arith,
}
use recurring_service_platfo.Base.Int.{ℤ, pos, ◌≤ℤ◌, ◌<ℤ◌, leb_ℤ}
use recurring_service_platfo.Core.Text.{Text}
use recurring_service_platfo.Core.Money.Format.{format_minor}
use recurring_service_platfo.Models.{
  Customer, in_outstanding_kinds, is_cancelled, Reminder, Channel, MessageParams, CommunicationLog,
  ReminderContext,
}
use recurring_service_platfo.Reminders.Engine.Stages.{
  ReminderCycle, is_reminder, loaded, audit_reminder,
}
use recurring_service_platfo.Reminders.Engine.Messages.{
  Provider, receipt_of, destination_for, render_params, template_for,
}
use recurring_service_platfo.Reminders.Engine.Dispatch.{
  no_contact, fail_reminder, cancel_reminder, send_to, deliver_to, cancel_or_deliver,
  given_customer, given_cycle, is_settled, attempt, attempt_unless, dispatch_reminder,
}
use recurring_service_platfo.Reminders.Engine.Rows.{
  attempt_row, message_of, answered_row, cancelled_row,
}
use recurring_service_platfo.Reminders.Invariants.Dispatching.{
  render_params-Reads, given_customer-Reads, given_cycle-Reads,
}
use recurring_service_platfo.Reminders.Delivery.Attempts.{loaded-row, hand_over-run}

-- One message was handed over, and it asks for an amount of minor units.
abbrev pub Asks : ReminderContext → ℤ → Db → Db → Type 0
Asks ctx outstanding db db' =
    (entry : CommunicationLog) × (db'.communication_log ≡ entry ∷ db.communication_log)
    × (format_minor outstanding ctx.currency ctx.currency_exponent ≡ ok entry.payload.amount_due)

module _ (ctx : ReminderContext) where
  render_params-amount :
      (r : Reminder) (customer : Customer) (cycle : ReminderCycle) (outstanding : ℤ) (db db' : Db)
      (params : MessageParams)
      → render_params ctx customer cycle r outstanding db ≡ ok (params, db')
      → format_minor outstanding ctx.currency ctx.currency_exponent ≡ ok params.amount_due
  unfolding render_params
  render_params-amount r customer cycle outstanding db db' params h = ground arith

  fail_reminder-log :
      (r : Reminder) (error : Text) (operation_id : Option ℕ) (manual : Bool) (db db' : Db)
      (u : Unit {0})
      → fail_reminder ctx r error operation_id manual db ≡ ok (u, db')
      → db'.communication_log ≡ db.communication_log
  unfolding fail_reminder audit_reminder
  fail_reminder-log r error operation_id manual db db' u h = ground arith

  cancel_reminder-run :
      (r : Reminder) (db db' : Db) (u : Unit {0})
      → cancel_reminder ctx r db ≡ ok (u, db')
      → (db'.communication_log ≡ db.communication_log)
        × (db'.reminders ≡ update_first (is_reminder r.id) (cancelled_row ctx) db.reminders)
  unfolding cancel_reminder audit_reminder
  cancel_reminder-run r db db' u h = ground arith

  new_id-log :
      (db db' : Db) (id : ℕ)
      → new_id db ≡ ok (id, db')
      → db'.communication_log ≡ db.communication_log
  unfolding new_id
  new_id-log db db' id h = ground arith

  module _ (provider : Provider) (r : Reminder) (customer : Customer) (cycle : ReminderCycle)
      (outstanding : ℤ) (operation_id : Option ℕ) (manual : Bool) where
    send_to-Asks :
        (destination : Channel × Text) (db db' : Db) (u : Unit {0})
        → send_to ctx provider r customer cycle outstanding operation_id manual destination db
          ≡ ok (u, db')
        → Asks ctx outstanding db db'
    unfolding send_to
    send_to-Asks destination db db' u h =
        let (params, db₁, rendered, h₁) =
          bind-ok (render_params ctx customer cycle r outstanding) _ db h in
        let (template, db₂, chosen, h₂) = bind-ok (lift (template_for r.kind)) _ db₁ h₁ in
        let (id, db₃, counted, h₃) = bind-ok new_id _ db₂ h₂ in
        let entry = attempt_row ctx provider.name r destination template params id in
        let answer = receipt_of (provider.send entry.id (message_of entry)) in
        let (rows, logged, ids) =
          hand_over-run ctx provider r entry operation_id manual db₃ db' u h₃ in
        let same₁ =
          ap (λ x. x.communication_log)
            (render_params-Reads ctx r customer cycle outstanding db db₁ params rendered) in
        let same₂ =
          ap (λ x. x.communication_log) (lift-same (template_for r.kind) db₁ db₂ template chosen) in
        let same₃ = new_id-log db₂ db₃ id counted in
        (
          answered_row answer entry,
          logged ∙ ap (λ log. answered_row answer entry ∷ log) (same₃ ∙ same₂ ∙ same₁),
          render_params-amount r customer cycle outstanding db db₁ params rendered,
        )

    deliver_to-Asks :
        (destination : Option (Channel × Text)) (db db' : Db) (u : Unit {0})
        → deliver_to ctx provider r customer cycle outstanding operation_id manual destination db
          ≡ ok (u, db')
        → (db'.communication_log ≡ db.communication_log) ⊎ Asks ctx outstanding db db'
    deliver_to-Asks none db db' u h =
        inl (fail_reminder-log r (no_contact r.kind) operation_id manual db db' u h)
    deliver_to-Asks (some destination) db db' u h = inr (send_to-Asks destination db db' u h)

    cancel_or_deliver-Asks :
        (clear : Bool) (db db' : Db) (u : Unit {0})
        → cancel_or_deliver clear ctx provider r customer cycle outstanding operation_id manual db
          ≡ ok (u, db')
        → (db'.communication_log ≡ db.communication_log)
          ⊎ (Asks ctx outstanding db db' × (clear ≡ false))
    cancel_or_deliver-Asks true db db' u h = inl (cancel_reminder-run r db db' u h).0
    cancel_or_deliver-Asks false db db' u h =
        elim (deliver_to-Asks (destination_for ctx r customer db) db db' u h) [
          | inl same ↦ inl same
          | inr asks ↦ inr (asks, refl)
        ]

-- What is owed when the message goes out.
abbrev pub owed : ReminderContext → Reminder → Db → ℤ
owed ctx r db = outstanding_minor ctx.tenant_id r.customer_id db

abbrev pub is_clear : ReminderContext → Reminder → Db → Bool
is_clear ctx r db = in_outstanding_kinds r.kind && leb_ℤ (owed ctx r db) (pos 0)

positive_unless_clear :
    (outstanding_kind : Bool) (amount : ℤ)
    → (outstanding_kind && leb_ℤ amount (pos 0)) ≡ false
    → outstanding_kind ≡ true
    → pos 0 <ℤ amount
positive_unless_clear outstanding_kind amount h e = ground arith

module _ (ctx : ReminderContext) (provider : Provider) (customer? : Option Customer)
    (cycle? : Option ReminderCycle) (operation_id : Option ℕ) (manual : Bool) where
  -- The reads before the decision leave the tables as they are.
  attempt-decision :
      (r : Reminder) (db db' : Db) (u : Unit {0})
      → attempt ctx provider r customer? cycle? operation_id manual db ≡ ok (u, db')
      → (customer : Customer) × (cycle : ReminderCycle) × (cancel_or_deliver
            (is_clear ctx r db)
            ctx
            provider
            r
            customer
            cycle
            (owed ctx r db)
            operation_id
            manual
            db
          ≡ ok (u, db'))
  unfolding attempt
  attempt-decision r db db' u h =
      let (customer, db₁, e₁, h₁) = bind-ok (given_customer ctx r customer?) _ db h in
      let (cycle, db₂, e₂, h₂) = bind-ok (given_cycle ctx r cycle?) _ db₁ h₁ in
      let same =
        given_cycle-Reads ctx r cycle? db₁ db₂ cycle e₂
        ∙ given_customer-Reads ctx r customer? db db₁ customer e₁ in
      (
        customer,
        cycle,
        subst
            (λ x.
              cancel_or_deliver (is_clear ctx r x) ctx provider r customer cycle (owed ctx r x)
                operation_id manual x
              ≡ ok (u, db'))
            same h₂,
      )

  attempt_unless-Asks :
      (settled : Bool) (r : Reminder) (db db' : Db) (u : Unit {0})
      → attempt_unless settled ctx provider r customer? cycle? operation_id manual db ≡ ok (u, db')
      → (db'.communication_log ≡ db.communication_log)
        ⊎ (Asks ctx (owed ctx r db) db db' × (is_clear ctx r db ≡ false))
  attempt_unless-Asks true r db db' u h = inl (ground arith)
  attempt_unless-Asks false r db db' u h =
      let (customer, cycle, decided) = attempt-decision r db db' u h in
      cancel_or_deliver-Asks ctx provider r customer cycle (owed ctx r db) operation_id manual
        (is_clear ctx r db) db db' u decided

  -- The step of a dispatch after its row is read.
  dispatch-row :
      (id : ℕ) (r : Reminder) (db db' : Db) (u : Unit {0})
      → find (is_reminder id) db.reminders ≡ some r
      → dispatch_reminder ctx provider id customer? cycle? operation_id manual db ≡ ok (u, db')
      → attempt_unless (is_settled r) ctx provider r customer? cycle? operation_id manual db
        ≡ ok (u, db')
  unfolding dispatch_reminder
  dispatch-row id r db db' u e h =
      let (s, db₁, read, h₁) = bind-ok (loaded id) _ db h in
      let (found, same) = loaded-row id db db₁ s read in
      let row : s ≡ r = ground (arith, found, e) in
      subst
        (λ x.
          attempt_unless (is_settled x) ctx provider x customer? cycle? operation_id manual db
          ≡ ok (u, db'))
        row
        (subst
          (λ x.
            attempt_unless (is_settled s) ctx provider s customer? cycle? operation_id manual x
            ≡ ok (u, db'))
          same h₁)

  -- A dispatch logs at most one attempt, whose message asks for the balance that the ledger gives
  -- for the customer at that moment, in the currency of the tenant; for a reminder of a debt that
  -- balance is positive
  pub dispatch_reminder-Asks :
      (id : ℕ) (r : Reminder) (db db' : Db) (u : Unit {0})
      → find (is_reminder id) db.reminders ≡ some r
      → dispatch_reminder ctx provider id customer? cycle? operation_id manual db ≡ ok (u, db')
      → (db'.communication_log ≡ db.communication_log)
        ⊎ (Asks ctx (owed ctx r db) db db'
            × (in_outstanding_kinds r.kind ≡ true → pos 0 <ℤ owed ctx r db))
  dispatch_reminder-Asks id r db db' u e h =
      elim (attempt_unless-Asks (is_settled r) r db db' u (dispatch-row id r db db' u e h)) [
        | inl same ↦ inl same
        | inr (asks, unclear) ↦
            inr (asks, positive_unless_clear (in_outstanding_kinds r.kind) (owed ctx r db) unclear)
      ]

  cancelled-run :
      (settled clear : Bool) (r : Reminder) (db db' : Db) (u : Unit {0})
      → settled ≡ false
      → clear ≡ true
      → is_clear ctx r db ≡ clear
      → attempt_unless settled ctx provider r customer? cycle? operation_id manual db ≡ ok (u, db')
      → (db'.communication_log ≡ db.communication_log)
        × (db'.reminders ≡ update_first (is_reminder r.id) (cancelled_row ctx) db.reminders)
  cancelled-run true clear r db db' u open_still paid e h = cc
  cancelled-run false clear r db db' u open_still paid e h =
      let (customer, cycle, decided) = attempt-decision r db db' u h in
      cancel_reminder-run ctx r db db' u (
        subst
          (λ b.
            cancel_or_deliver b ctx provider r customer cycle (owed ctx r db) operation_id manual db
            ≡ ok (u, db'))
          (e ∙ paid) decided)

  -- Dispatching a reminder of a debt that is neither settled nor out of attempts, for a customer
  -- who owes nothing any more, sends and logs nothing and cancels the reminder
  pub dispatch_reminder-cancels :
      (id : ℕ) (r : Reminder) (db db' : Db) (u : Unit {0})
      → find (is_reminder id) db.reminders ≡ some r
      → is_settled r ≡ false
      → in_outstanding_kinds r.kind ≡ true
      → owed ctx r db ≤ℤ pos 0
      → dispatch_reminder ctx provider id customer? cycle? operation_id manual db ≡ ok (u, db')
      → (db'.communication_log ≡ db.communication_log)
        × (db'.reminders ≡ update_first (is_reminder id) (cancelled_row ctx) db.reminders)
  dispatch_reminder-cancels id r db db' u e open_still chases paid h =
      let own = find-is_reminder id db.reminders r e in
      let (log, rows) =
        cancelled-run (is_settled r) (is_clear ctx r db) r db db' u open_still (ground arith) refl
          (dispatch-row id r db db' u e h) in
      (
        log,
        subst (λ j. db'.reminders ≡ update_first (is_reminder j) (cancelled_row ctx) db.reminders)
            own rows,
      )

find-updated :
    (id : ℕ) (f : Reminder → Reminder) (rs : List Reminder) (r : Reminder)
    → ((x : Reminder) → (f x).id ≡ x.id)
    → find (is_reminder id) rs ≡ some r
    → find (is_reminder id) (update_first (is_reminder id) f rs) ≡ some (f r)
find-updated id f [] r k h = cc
find-updated id f (x ∷ xs) r k h = ground (arith, k x, find-updated id f xs r k)

settled-run :
    (ctx : ReminderContext) (provider : Provider) (id : ℕ) (customer? : Option Customer)
    (cycle? : Option ReminderCycle) (operation_id : Option ℕ) (manual : Bool) (s : Reminder)
    (db : Db)
    → find (is_reminder id) db.reminders ≡ some s
    → is_settled s ≡ true
    → dispatch_reminder ctx provider id customer? cycle? operation_id manual db ≡ ok (tt, db)
unfolding dispatch_reminder loaded
settled-run ctx provider id customer? cycle? operation_id manual s db found done =
    rw (found, ◌>>=◌, done) refl

cancelled-settled : (s : Reminder) → is_cancelled s.state ≡ true → is_settled s ≡ true
cancelled-settled s h = ground arith

-- Dispatching a reminder of a debt that is neither settled nor out of attempts, for a customer
-- who owes nothing any more, logs nothing and leaves the reminder CANCELLED for good: a further
-- dispatch of it, with any provider and by any user or job, is accepted and changes nothing
pub dispatch_reminder-final :
    (ctx later_ctx : ReminderContext) (provider later_provider : Provider)
    (customer? later_customer? : Option Customer) (cycle? later_cycle? : Option ReminderCycle)
    (operation_id later_operation_id : Option ℕ) (manual later_manual : Bool) (id : ℕ)
    (r : Reminder) (db db' : Db) (u : Unit {0})
    → find (is_reminder id) db.reminders ≡ some r
    → is_settled r ≡ false
    → in_outstanding_kinds r.kind ≡ true
    → owed ctx r db ≤ℤ pos 0
    → dispatch_reminder ctx provider id customer? cycle? operation_id manual db ≡ ok (u, db')
    → (db'.communication_log ≡ db.communication_log)
      × ((s : Reminder) × (find (is_reminder id) db'.reminders ≡ some s)
          × (is_cancelled s.state ≡ true))
      × (dispatch_reminder later_ctx later_provider id later_customer? later_cycle?
            later_operation_id later_manual db'
          ≡ ok (tt, db'))
dispatch_reminder-final ctx later_ctx provider later_provider customer? later_customer? cycle?
      later_cycle? operation_id later_operation_id manual later_manual id r db db' u e open_still
      chases paid h =
    let (log, rows) =
      dispatch_reminder-cancels ctx provider customer? cycle? operation_id manual id r db db' u e
        open_still chases paid h in
    let there : find (is_reminder id) db'.reminders ≡ some (cancelled_row ctx r) =
      ap (find (is_reminder id)) rows
      ∙ find-updated id (cancelled_row ctx) db.reminders r (λ x. refl) e in
    (
      log,
      (cancelled_row ctx r, there, refl),
      settled-run later_ctx later_provider id later_customer? later_cycle? later_operation_id
          later_manual (cancelled_row ctx r) db' there
          (cancelled-settled (cancelled_row ctx r) refl),
    )
