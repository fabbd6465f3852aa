-- ===== src/Reminders/Invariants/Dispatching.antt =====
-- A dispatch of a reminder, with every outcome, keeps an invariant of the engine.
use recurring_service_platfo.Session.{lift, gets, new_id}
use recurring_service_platfo.Session.Triples.{
  Triple, Sustains, Reads, Reads-Sustains, Triple-bind, Triple-pure, Sustains-gets, Sustains-lift,
}
use recurring_service_platfo.Base.{ℕ, ◌≡◌, refl, Bool, true, false, ◌&&◌, Option, none, some, arith}
use recurring_service_platfo.Base.Int.{ℤ, pos, leb_ℤ}
use recurring_service_platfo.Core.Text.{Text, codes}
use recurring_service_platfo.Models.{
  Customer, in_outstanding_kinds, Reminder, Channel, ReminderContext, reminder_failed,
  reminder_cancelled,
}
use recurring_service_platfo.Billing.Ledger.{outstanding_minor}
use recurring_service_platfo.Reminders.Engine.Stages.{ReminderCycle, loaded, update_reminder}
use recurring_service_platfo.Reminders.Engine.Messages.{
  Provider, destination_for, render_params, template_for,
}
use recurring_service_platfo.Reminders.Engine.Dispatch.{
  no_contact, fail_reminder, cancel_reminder, send_to, deliver_to, cancel_or_deliver,
  given_customer, cycle_by_id, given_cycle, is_settled, attempt, attempt_unless, dispatch_reminder,
}
use recurring_service_platfo.Reminders.Engine.Rows.{attempt_row, failed_row, cancelled_row}
use recurring_service_platfo.Reminders.Invariants.{EngineInvariant}

pub render_params-Reads :
    (ctx : ReminderContext) (r : Reminder) (customer : Customer) (cycle : ReminderCycle)
    (outstanding : ℤ)
    → Reads (render_params ctx customer cycle r outstanding)
unfolding render_params
render_params-Reads ctx r customer cycle outstanding db db' a h = ground arith

module _ (ctx : ReminderContext) (inv : EngineInvariant ctx) (provider : Provider) (r : Reminder)
    (operation_id : Option ℕ) (manual : Bool) (open_still : is_settled r ≡ false) where
  fail_reminder-Sustains :
      (error : Text)
      → Triple (inv.row r) (fail_reminder ctx r error operation_id manual) (λ u. inv.holds)
  unfolding fail_reminder
  fail_reminder-Sustains error =
      Triple-bind (inv.row r) (update_reminder r.id (failed_row error)) (λ u. inv.holds) _
        (λ u. inv.holds) (inv.failing r error open_still)
        (λ u. inv.audited reminder_failed (failed_row error r) (some error) operation_id manual)

  cancel_reminder-Sustains : Triple (inv.row r) (cancel_reminder ctx r) (λ u. inv.holds)
  unfolding cancel_reminder
  cancel_reminder-Sustains =
      Triple-bind (inv.row r) (update_reminder r.id (cancelled_row ctx)) (λ u. inv.holds) _
        (λ u. inv.holds) (inv.cancelling r open_still)
        (λ u.
          inv.audited reminder_cancelled (cancelled_row ctx r)
            (some (codes "customer no longer owes anything")) none false)

  send_to-Sustains :
      (customer : Customer) (cycle : ReminderCycle) (outstanding : ℤ) (destination : Channel × Text)
      → Triple
          (inv.row r)
          (send_to ctx provider r customer cycle outstanding operation_id manual destination)
          (λ u. inv.holds)
  unfolding send_to
  send_to-Sustains customer cycle outstanding destination =
      Triple-bind (inv.row r) (render_params ctx customer cycle r outstanding) (λ p. inv.row r) _
        (λ u. inv.holds)
        (Reads-Sustains (inv.row r) (render_params ctx customer cycle r outstanding)
          (render_params-Reads ctx r customer cycle outstanding))
        (λ params.
          Triple-bind (inv.row r) (lift (template_for r.kind)) (λ t. inv.row r) _ (λ u. inv.holds)
            (Sustains-lift (inv.row r) (template_for r.kind))
            (λ template.
              Triple-bind (inv.row r) new_id (λ id. inv.row r) _ (λ u. inv.holds) (inv.counting r)
                (λ id.
                  inv.handing provider r
                    (attempt_row ctx provider.name r destination template params id) operation_id
                    manual refl open_still)))

  deliver_to-Sustains :
      (customer : Customer) (cycle : ReminderCycle) (outstanding : ℤ)
      (destination : Option (Channel × Text))
      → Triple
          (inv.row r)
          (deliver_to ctx provider r customer cycle outstanding operation_id manual destination)
          (λ u. inv.holds)
  deliver_to-Sustains customer cycle outstanding none = fail_reminder-Sustains (no_contact r.kind)
  deliver_to-Sustains customer cycle outstanding (some destination) =
      send_to-Sustains customer cycle outstanding destination

  cancel_or_deliver-Sustains :
      (clear : Bool) (customer : Customer) (cycle : ReminderCycle) (outstanding : ℤ)
      → Triple
          (inv.row r)
          (cancel_or_deliver clear ctx provider r customer cycle outstanding operation_id manual)
          (λ u. inv.holds)
  cancel_or_deliver-Sustains true customer cycle outstanding = cancel_reminder-Sustains
  cancel_or_deliver-Sustains false customer cycle outstanding =
      Triple-bind (inv.row r) (gets (destination_for ctx r customer)) (λ d. inv.row r) _
        (λ u. inv.holds) (Sustains-gets (inv.row r) (destination_for ctx r customer))
        (λ destination. deliver_to-Sustains customer cycle outstanding destination)

pub given_customer-Reads :
    (ctx : ReminderContext) (r : Reminder) (c : Option Customer) → Reads (given_customer ctx r c)
given_customer-Reads ctx r (some c) db db' a h = ground arith
given_customer-Reads ctx r none db db' a h = ground arith

cycle_by_id-Reads : (ctx : ReminderContext) (r : Reminder) → Reads (cycle_by_id ctx r)
unfolding cycle_by_id
cycle_by_id-Reads ctx r db db' a h = ground arith

pub given_cycle-Reads :
    (ctx : ReminderContext) (r : Reminder) (c : Option ReminderCycle) → Reads (given_cycle ctx r c)
given_cycle-Reads ctx r (some c) db db' a h = ground arith
given_cycle-Reads ctx r none db db' a h = ground (arith, cycle_by_id-Reads ctx r db db' a)

module _ (ctx : ReminderContext) (inv : EngineInvariant ctx) (provider : Provider)
    (customer? : Option Customer) (cycle? : Option ReminderCycle) (operation_id : Option ℕ)
    (manual : Bool) where
  attempt-Sustains :
      (r : Reminder)
      → is_settled r ≡ false
      → Triple
          (inv.row r)
          (attempt ctx provider r customer? cycle? operation_id manual)
          (λ u. inv.holds)
  unfolding attempt
  attempt-Sustains r open_still =
      Triple-bind (inv.row r) (given_customer ctx r customer?) (λ c. inv.row r) _ (λ u. inv.holds)
        (Reads-Sustains (inv.row r) (given_customer ctx r customer?)
          (given_customer-Reads ctx r customer?))
        (λ customer.
          Triple-bind (inv.row r) (given_cycle ctx r cycle?) (λ c. inv.row r) _ (λ u. inv.holds)
            (Reads-Sustains (inv.row r) (given_cycle ctx r cycle?) (given_cycle-Reads ctx r cycle?))
            (λ cycle.
              Triple-bind (inv.row r) (gets (outstanding_minor ctx.tenant_id r.customer_id))
                (λ c. inv.row r) _ (λ u. inv.holds)
                (Sustains-gets (inv.row r) (outstanding_minor ctx.tenant_id r.customer_id))
                (λ outstanding.
                  cancel_or_deliver-Sustains ctx inv provider r operation_id manual open_still
                    (in_outstanding_kinds r.kind && leb_ℤ outstanding (pos 0)) customer cycle
                    outstanding)))

  attempt_unless-Sustains :
      (settled : Bool) (r : Reminder)
      → is_settled r ≡ settled
      → Triple
          (inv.row r)
          (attempt_unless settled ctx provider r customer? cycle? operation_id manual)
          (λ u. inv.holds)
  attempt_unless-Sustains true r e = Triple-pure (inv.row r) tt (λ u. inv.holds) (inv.weaken r)
  attempt_unless-Sustains false r e = attempt-Sustains r e

  pub dispatch_reminder-Sustains :
      (id : ℕ)
      → Sustains inv.holds (dispatch_reminder ctx provider id customer? cycle? operation_id manual)
  unfolding dispatch_reminder
  dispatch_reminder-Sustains id =
      Triple-bind inv.holds (loaded id) inv.row _ (λ u. inv.holds) (inv.loading id)
        (λ r. attempt_unless-Sustains (is_settled r) r refl)
