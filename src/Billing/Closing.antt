-- ===== src/Billing/Closing.antt =====
-- backend/app/billing/cycles.py: closing a cycle and issuing its statements.
pub mod Frame
use recurring_service_platfo.Session.{Action, ◌>>=◌, ◌>>◌, pure, raise, raise_when, after}
use recurring_service_platfo.Base.{
  leb, length, validation_failed, cycle_period_not_ended, ℕ, ◌-◌, ◌/◌, ap, not, none, some,
}
use recurring_service_platfo.Core.Date.{date_leb}
use recurring_service_platfo.Models.{
  TenantContext, online, closed, is_open, BillingCycle, Entity, billing_cycle_entity,
  billing_cycle_closed, audit_online,
}
use recurring_service_platfo.Session.Tables.{update_cycle, record_tenant_event}
use recurring_service_platfo.Billing.Cycles.{load_cycle}
use recurring_service_platfo.Billing.Statements.{
  issue_statement, issue_statements_for_cycle, closed_row,
}

unfoldable pub finish_closing : TenantContext → BillingCycle → ℕ → Action Entity
finish_closing ctx cycle operation_id = do
  update_cycle ctx.tenant_id cycle.id (closed_row ctx)
  issued ← issue_statements_for_cycle ctx (closed_row ctx cycle)
  record_tenant_event ctx billing_cycle_closed cycle.id (some (billing_cycle_entity cycle 0))
      (some (billing_cycle_entity (closed_row ctx cycle) 0)) none operation_id audit_online
  pure (billing_cycle_entity (closed_row ctx cycle) (length issued))

-- The period's last day belongs to it, so the first day to close is the day after.
unfoldable pub close_cycle : TenantContext → ℕ → ℕ → Action Entity
close_cycle ctx cycle_id operation_id = do
  cycle ← load_cycle ctx cycle_id
  raise_when (not (is_open cycle.status)) validation_failed
  raise_when (date_leb ctx.today cycle.period_end) cycle_period_not_ended
  finish_closing ctx cycle operation_id
