-- ===== src/Reminders/Invariants/Generating.antt =====
-- The stages that a run generates, and the whole run of a customer, keep an invariant of the engine.
use recurring_service_platfo.Session.{gets}
use recurring_service_platfo.Session.Triples.{
  Sustains, Triple-bind, Sustains-bind, Sustains-pure, Sustains-gets,
}
use recurring_service_platfo.Base.{
  ℕ, Bool, true, false, not, ◌&&◌, Option, none, some, List, [], ◌∷◌,
}
use recurring_service_platfo.Base.Int.{ℤ}
use recurring_service_platfo.Models.{
  Customer, of_stage, owner_alert, is_cancelled, Reminder, ReminderContext,
}
use recurring_service_platfo.Billing.Ledger.{outstanding_minor}
use recurring_service_platfo.Reminders.Schedule.{is_final_kind, Stage, due_stage}
use recurring_service_platfo.Reminders.Engine.Stages.{
  ReminderCycle, reminder_cycle_for, highest_sent_stage, load_reminder, loaded, create_stage,
}
use recurring_service_platfo.Reminders.Engine.Generation.{
  when_retryable, alert_or_create, owner_alert_for, listed, append_alert, alert_when, with_alert,
  is_not_due, create_unless, generate_from, generate_stage, generate_due_reminder,
}
use recurring_service_platfo.Reminders.Engine.Messages.{Provider}
use recurring_service_platfo.Reminders.Engine.Dispatch.{dispatch_reminder}
use recurring_service_platfo.Reminders.Engine.{dispatch_all, process_cycle, process_customer}
use recurring_service_platfo.Reminders.Invariants.{EngineInvariant}
use recurring_service_platfo.Reminders.Invariants.Dispatching.{dispatch_reminder-Sustains}

module _ (ctx : ReminderContext) (inv : EngineInvariant ctx) where
  module _ (customer : Customer) (cycle : ReminderCycle) where
    alert_or_create-Sustains :
        (notice : Reminder) (alert : Option Reminder)
        → Sustains inv.holds (alert_or_create ctx notice customer cycle alert)
    alert_or_create-Sustains notice (some alert) = Sustains-pure inv.holds (when_retryable alert)
    alert_or_create-Sustains notice none =
        Sustains-bind inv.holds (gets (outstanding_minor ctx.tenant_id customer.id)) _
          (Sustains-gets inv.holds (outstanding_minor ctx.tenant_id customer.id))
          (λ outstanding.
            Sustains-bind inv.holds
              (create_stage ctx customer.id cycle.cycle_id notice.schedule_day owner_alert
                outstanding)
              _
              (inv.creating customer.id cycle.cycle_id notice.schedule_day owner_alert outstanding)
              (λ id. Sustains-pure inv.holds (some id)))

    owner_alert_for-Sustains :
        (notice : Reminder) → Sustains inv.holds (owner_alert_for ctx notice customer cycle)
    unfolding owner_alert_for
    owner_alert_for-Sustains notice =
        Sustains-bind inv.holds
          (gets (
            load_reminder ctx.tenant_id customer.id cycle.cycle_id notice.schedule_day owner_alert))
          _
          (Sustains-gets inv.holds (
            load_reminder ctx.tenant_id customer.id cycle.cycle_id notice.schedule_day owner_alert))
          (alert_or_create-Sustains notice)

    alert_when-Sustains :
        (wanted : Bool) (r : Reminder) (due : List ℕ)
        → Sustains inv.holds (alert_when wanted ctx r customer cycle due)
    alert_when-Sustains false r due = Sustains-pure inv.holds due
    alert_when-Sustains true r due =
        Sustains-bind inv.holds (owner_alert_for ctx r customer cycle) _
          (owner_alert_for-Sustains r) (λ alert. Sustains-pure inv.holds (append_alert due alert))

    with_alert-Sustains :
        (stage : Stage) (id : ℕ) (due : List ℕ)
        → Sustains inv.holds (with_alert ctx customer cycle stage id due)
    unfolding with_alert
    with_alert-Sustains stage id due =
        Triple-bind inv.holds (loaded id) inv.row _ (λ a. inv.holds) (inv.loading id)
          (λ r db db' a h.
            alert_when-Sustains (is_final_kind stage.kind && not (is_cancelled r.state)) r due db
              db' a (inv.weaken r db h))

    create_unless-Sustains :
        (skipped : Bool) (stage : Stage) (outstanding : ℤ)
        → Sustains inv.holds (create_unless skipped ctx customer cycle stage outstanding)
    create_unless-Sustains true stage outstanding = Sustains-pure inv.holds []
    create_unless-Sustains false stage outstanding =
        Sustains-bind inv.holds
          (create_stage ctx customer.id cycle.cycle_id stage.day (of_stage stage.kind) outstanding)
          _ (inv.creating customer.id cycle.cycle_id stage.day (of_stage stage.kind) outstanding)
          (λ id. with_alert-Sustains stage id (id ∷ []))

    generate_from-Sustains :
        (stage : Stage) (existing : Option Reminder)
        → Sustains inv.holds (generate_from ctx customer cycle stage existing)
    generate_from-Sustains stage (some existing) =
        with_alert-Sustains stage existing.id (listed (when_retryable existing))
    generate_from-Sustains stage none =
        Sustains-bind inv.holds (gets (highest_sent_stage ctx.tenant_id customer.id cycle.cycle_id))
          _ (Sustains-gets inv.holds (highest_sent_stage ctx.tenant_id customer.id cycle.cycle_id))
          (λ highest.
            Sustains-bind inv.holds (gets (outstanding_minor ctx.tenant_id customer.id)) _
              (Sustains-gets inv.holds (outstanding_minor ctx.tenant_id customer.id))
              (λ outstanding.
                create_unless-Sustains (is_not_due stage highest outstanding) stage outstanding))

    generate_stage-Sustains :
        (stage : Option Stage) → Sustains inv.holds (generate_stage ctx customer cycle stage)
    generate_stage-Sustains none = Sustains-pure inv.holds []
    generate_stage-Sustains (some stage) =
        Sustains-bind inv.holds
          (gets (
            load_reminder ctx.tenant_id customer.id cycle.cycle_id stage.day (of_stage stage.kind)))
          _
          (Sustains-gets inv.holds (
            load_reminder ctx.tenant_id customer.id cycle.cycle_id stage.day (of_stage stage.kind)))
          (generate_from-Sustains stage)

    module _ (provider : Provider) where
      dispatch_all-Sustains :
          (ids : List ℕ) → Sustains inv.holds (dispatch_all ctx provider customer cycle ids)
      unfolding dispatch_all
      dispatch_all-Sustains [] = Sustains-pure inv.holds tt
      dispatch_all-Sustains (id ∷ ids) =
          Sustains-bind inv.holds
            (dispatch_reminder ctx provider id (some customer) (some cycle) none false) _
            (dispatch_reminder-Sustains ctx inv provider (some customer) (some cycle) none false id)
            (λ u. dispatch_all-Sustains ids)

  process_cycle-Sustains :
      (provider : Provider) (customer : Customer) (schedule : List Stage)
      (cycle : Option ReminderCycle)
      → Sustains inv.holds (process_cycle ctx provider customer schedule cycle)
  unfolding generate_due_reminder
  process_cycle-Sustains provider customer schedule none = Sustains-pure inv.holds []
  process_cycle-Sustains provider customer schedule (some cycle) =
      Sustains-bind inv.holds (generate_due_reminder ctx customer schedule cycle) _
        (generate_stage-Sustains customer cycle (due_stage schedule ctx.today.day))
        (λ due.
          Sustains-bind inv.holds (dispatch_all ctx provider customer cycle due) _
            (dispatch_all-Sustains customer cycle provider due) (λ u. Sustains-pure inv.holds due))

  pub process_customer-Sustains :
      (provider : Provider) (customer : Customer) (schedule : List Stage)
      → Sustains inv.holds (process_customer ctx provider customer schedule)
  unfolding process_customer
  process_customer-Sustains provider customer schedule =
      Sustains-bind inv.holds (gets (reminder_cycle_for ctx.tenant_id customer.id)) _
        (Sustains-gets inv.holds (reminder_cycle_for ctx.tenant_id customer.id))
        (process_cycle-Sustains provider customer schedule)
