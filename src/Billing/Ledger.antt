-- ===== src/Billing/Ledger.antt =====
-- backend/app/billing/ledger.py: the one place that appends a ledger entry, and the balance.
pub mod Posting
use recurring_service_platfo.Session.{Db, Action, ◌>>=◌, ◌>>◌, pure}
use recurring_service_platfo.Base.{
  ◌==◌, any, ℕ, zero, ◌-◌, ◌/◌, ap, Bool, true, false, not, ◌&&◌, Option, none, some,
}
use recurring_service_platfo.Base.Int.{ℤ, pos, neg, is_zero}
use recurring_service_platfo.Base.Sums.{sum_where}
use recurring_service_platfo.Core.Date.{Date}
use recurring_service_platfo.Models.{
  TenantContext, service, Source, DailyServiceRecord, other, Payment, EntryKind, charge, payment,
  adjustment, SourceType, from_service_record, from_payment, LedgerEntry,
}
use recurring_service_platfo.Session.Tables.{insert_entry}
use recurring_service_platfo.Billing.Cycles.{open_cycle, ensure_open_cycle}

abbrev pub entry_of : TenantContext → ℕ → EntryKind → ℤ → Date → SourceType → ℕ → ℕ → LedgerEntry
entry_of ctx customer_id entry_kind amount_minor occurred_on source_type source_id cycle_id =
    record {
      tenant_id = ctx.tenant_id;
      customer_id = customer_id;
      entry_kind = entry_kind;
      amount_minor = amount_minor;
      occurred_on = occurred_on;
      posting_cycle_id = some cycle_id;
      source_type = source_type;
      source_id = source_id;
      created_by_user_id = ctx.user_id;
    }

-- A zero amount posts nothing; any other posts to the open cycle, whatever its date.
abbrev pub post_unless : Bool → Action (Option LedgerEntry) → Action (Option LedgerEntry)
post_unless true post = pure none
post_unless false post = post

unfoldable pub append_entry : (ℕ → LedgerEntry) → TenantContext → Action (Option LedgerEntry)
append_entry entry_in ctx = do
  cycle ← ensure_open_cycle ctx
  insert_entry (entry_in cycle.id)
  pure (some (entry_in cycle.id))

unfoldable pub post_entry :
    TenantContext → ℕ → EntryKind → ℤ → Date → SourceType → ℕ → Action (Option LedgerEntry)
post_entry ctx customer_id entry_kind amount_minor occurred_on source_type source_id =
    post_unless (is_zero amount_minor) (
      append_entry
        (entry_of ctx customer_id entry_kind amount_minor occurred_on source_type source_id) ctx)

abbrev pub post_service_charge : TenantContext → DailyServiceRecord → Action (Option LedgerEntry)
post_service_charge ctx r =
    post_entry ctx r.customer_id charge r.charge_minor r.service_date from_service_record r.id

abbrev pub post_service_adjustment : TenantContext → ℕ → ℤ → Date → ℕ → Action (Option LedgerEntry)
post_service_adjustment ctx customer_id amount_minor occurred_on source_id =
    post_entry ctx customer_id adjustment amount_minor occurred_on from_service_record source_id

-- Negative, because it reduces debt.
abbrev pub post_payment : TenantContext → Payment → Action (Option LedgerEntry)
post_payment ctx p =
    post_entry ctx p.customer_id payment (neg p.amount_minor) p.received_on from_payment p.id

abbrev pub post_payment_adjustment : TenantContext → ℕ → ℤ → Date → ℕ → Action (Option LedgerEntry)
post_payment_adjustment ctx customer_id amount_minor occurred_on source_id =
    post_entry ctx customer_id adjustment amount_minor occurred_on from_payment source_id

-- FIN-4: the balance of a customer.
unfoldable pub outstanding_minor : ℕ → ℕ → Db → ℤ
outstanding_minor tenant customer db =
    sum_where (λ e. e.tenant_id == tenant && e.customer_id == customer) (λ e. e.amount_minor)
      db.ledger
