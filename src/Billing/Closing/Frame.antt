-- ===== src/Billing/Closing/Frame.antt =====
-- Closing a cycle leaves the accepted business and the ledger alone.
use recurring_service_platfo.Core.Date.{date_leb}
use recurring_service_platfo.Session.Frames.{Keeps, Keeps-bind, Keeps-pure, Keeps-raise_when}
use recurring_service_platfo.Session.Tables.{update_cycle}
use recurring_service_platfo.Base.{
  length, validation_failed, cycle_period_not_ended, ℕ, not, none, some, arith,
}
use recurring_service_platfo.Models.{
  TenantContext, is_open, BillingCycle, billing_cycle_entity, billing_cycle_closed, audit_online,
}
use recurring_service_platfo.Billing.Cycles.{load_cycle}
use recurring_service_platfo.Billing.Statements.{closed_row}
use recurring_service_platfo.Billing.Statements.Frame.{issue_statements-Keeps}
use recurring_service_platfo.Billing.Closing.{finish_closing, close_cycle}
use recurring_service_platfo.Books.Rows.{record_tenant_event-Keeps}

load_cycle-Keeps : (ctx : TenantContext) (id : ℕ) → Keeps (load_cycle ctx id)
unfolding load_cycle
load_cycle-Keeps ctx id db db' c h = ground arith

update_cycle-Keeps :
    (tenant id : ℕ) (f : BillingCycle → BillingCycle) → Keeps (update_cycle tenant id f)
update_cycle-Keeps tenant id f db db' u h = ground arith

finish_closing-Keeps :
    (ctx : TenantContext) (cycle : BillingCycle) (operation_id : ℕ)
    → Keeps (finish_closing ctx cycle operation_id)
unfolding finish_closing
finish_closing-Keeps ctx cycle operation_id =
    Keeps-bind _ _ (update_cycle-Keeps ctx.tenant_id cycle.id (closed_row ctx)) (λ u.
      Keeps-bind _ _ (issue_statements-Keeps ctx (closed_row ctx cycle)) (λ issued.
        Keeps-bind _ _
          (record_tenant_event-Keeps ctx billing_cycle_closed cycle.id
            (some (billing_cycle_entity cycle 0))
            (some (billing_cycle_entity (closed_row ctx cycle) 0)) none operation_id audit_online)
          (λ w. Keeps-pure (billing_cycle_entity (closed_row ctx cycle) (length issued)))))

pub close_cycle-Keeps :
    (ctx : TenantContext) (id operation_id : ℕ) → Keeps (close_cycle ctx id operation_id)
unfolding close_cycle
close_cycle-Keeps ctx id operation_id = Keeps-bind _ _ (load_cycle-Keeps ctx id) (λ cycle.
    Keeps-bind _ _ (Keeps-raise_when (not (is_open cycle.status)) validation_failed) (λ u.
      Keeps-bind _ _ (Keeps-raise_when (date_leb ctx.today cycle.period_end) cycle_period_not_ended)
        (λ w. finish_closing-Keeps ctx cycle operation_id)))
