-- ===== src/Billing/Reporting.antt =====
-- backend/app/billing/reporting.py: the four figures and the derived payment status.
--
-- Of the context the figures use only the tenant.
pub mod Figures
use recurring_service_platfo.Session.{Db}
use recurring_service_platfo.Base.{
  leb, ◌==◌, if◌then◌else◌, ℕ, zero, ◌+◌, ◌-◌, ◌/◌, ap, Bool, true, false, not, ◌&&◌, Option, none,
  some,
}
use recurring_service_platfo.Base.Int.{ℤ, pos, ◌+ℤ◌, neg, leb_ℤ, is_zero}
use recurring_service_platfo.Base.Sums.{sum_where}
use recurring_service_platfo.Models.{
  TenantContext, service, is_service, Payment, charge, payment, adjustment, LedgerEntry, is_charge,
  is_payment_entry, is_adjustment, is_service_origin, is_payment_origin, BillingCycle, Statement,
}
use recurring_service_platfo.Billing.Cycles.{open_cycle}

abbrev pub matches : Option ℕ → Option ℕ → Bool
matches none _ = true
matches (some _) none = false
matches (some a) (some b) = b == a

-- `_ledger_scope`: an absent customer or cycle puts no condition.
abbrev pub in_scope : ℕ → Option ℕ → Option ℕ → LedgerEntry → Bool
in_scope tenant customer cycle e =
    e.tenant_id == tenant
    && (matches customer (some e.customer_id) && matches cycle e.posting_cycle_id)

abbrev pub ledger_sum : (LedgerEntry → Bool) → Db → ℤ
ledger_sum condition db = sum_where condition (λ e. e.amount_minor) db.ledger

unfoldable pub business_generated_minor : ℕ → Option ℕ → Option ℕ → Db → ℤ
business_generated_minor tenant customer cycle db =
    ledger_sum (λ e. in_scope tenant customer cycle e && is_charge e) db
    +ℤ ledger_sum
        (λ e. in_scope tenant customer cycle e && (is_adjustment e && is_service_origin e)) db

unfoldable pub collected_minor : ℕ → Option ℕ → Option ℕ → Db → ℤ
collected_minor tenant customer cycle db = neg (
    ledger_sum (λ e. in_scope tenant customer cycle e && is_payment_entry e) db
    +ℤ ledger_sum
        (λ e. in_scope tenant customer cycle e && (is_adjustment e && is_payment_origin e)) db)

unfoldable pub outstanding_total_minor : ℕ → Option ℕ → Option ℕ → Db → ℤ
outstanding_total_minor tenant customer cycle db = ledger_sum (in_scope tenant customer cycle) db

abbrev pub statement_in_scope : ℕ → Option ℕ → Option ℕ → Statement → Bool
statement_in_scope tenant customer cycle s =
    s.tenant_id == tenant
    && (matches customer (some s.customer_id) && matches cycle (some s.cycle_id))

unfoldable pub billed_value_minor : ℕ → Option ℕ → Option ℕ → Db → ℤ
billed_value_minor tenant customer cycle db =
    sum_where (statement_in_scope tenant customer cycle)
      (λ s. s.charges_minor +ℤ s.service_adjustments_minor) db.statements

pub record ReportingTotals : Type 0 where
  pub business_generated : ℤ
  pub billed_value : ℤ
  pub collected : ℤ
  pub outstanding : ℤ

unfoldable pub reporting_totals : ℕ → Option ℕ → Option ℕ → Db → ReportingTotals
reporting_totals tenant customer cycle db = record {
  business_generated = business_generated_minor tenant customer cycle db;
  billed_value = billed_value_minor tenant customer cycle db;
  collected = collected_minor tenant customer cycle db;
  outstanding = outstanding_total_minor tenant customer cycle db;
}

pub data PaymentState : Type 0 where
  paid partially_paid unpaid : PaymentState

-- Nothing is collected against a cycle that does not exist.
abbrev pub status_in_cycle : TenantContext → ℕ → Option BillingCycle → Db → PaymentState
status_in_cycle ctx customer none db = unpaid
status_in_cycle ctx customer (some cycle) db =
    if is_zero (collected_minor ctx.tenant_id (some customer) (some cycle.id) db)
    then unpaid
    else partially_paid

unfoldable pub customer_payment_status : TenantContext → ℕ → Db → PaymentState
customer_payment_status ctx customer db =
    if leb_ℤ (outstanding_total_minor ctx.tenant_id (some customer) none db) (pos 0)
    then paid
    else status_in_cycle ctx customer (open_cycle ctx db) db
