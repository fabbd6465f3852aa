-- ===== src/Session/Tables.antt =====
-- Inserts under the unique indexes of the tables: a violation is an IntegrityError at the flush.
use recurring_service_platfo.Session.{Action, ◌>>=◌, ◌>>◌, raise_when, gets, modify}
use recurring_service_platfo.Base.{
  ◌==◌, any, update_first, integrity_error, ℕ, Bool, true, false, ◌&&◌, ◌||◌, Option, ◌∷◌, some,
}
use recurring_service_platfo.Core.Date.{Date, date_eqb}
use recurring_service_platfo.Core.Text.{Text}
use recurring_service_platfo.Models.{
  TenantContext, Customer, is_active_status, Source, sync, DailyServiceRecord, Payment, EntryKind,
  opening, charge, payment, adjustment, SourceType, from_service_record, from_payment,
  from_opening_balance, LedgerEntry, is_open, BillingCycle, Statement, Entity, AuditAction,
  AuditSource, audit_online, audit_sync, tenant_scope, AuditEvent,
}

-- uq_daily_service_record_active_day.
abbrev pub is_active_day : ℕ → ℕ → Date → DailyServiceRecord → Bool
is_active_day tenant customer day r =
    r.tenant_id == tenant
    && (r.customer_id == customer && (date_eqb r.service_date day && is_active_status r.status))

unfoldable pub insert_record : DailyServiceRecord → Action (Unit {0})
insert_record r = do
  raise_when
      (← gets (λ db. any (is_active_day r.tenant_id r.customer_id r.service_date) db.records))
      integrity_error
  modify (λ db. record db { records = r ∷ db.records })

abbrev pub is_record : ℕ → ℕ → DailyServiceRecord → Bool
is_record tenant id r = r.tenant_id == tenant && r.id == id

-- The unit of work writes back the fields of a loaded row.
abbrev pub update_record : ℕ → ℕ → (DailyServiceRecord → DailyServiceRecord) → Action (Unit {0})
update_record tenant id f =
    modify (λ db. record db { records = update_first (is_record tenant id) f db.records })

abbrev pub is_payment : ℕ → ℕ → Payment → Bool
is_payment tenant id p = p.tenant_id == tenant && p.id == id

abbrev pub insert_payment : Payment → Action (Unit {0})
insert_payment p = modify (λ db. record db { payments = p ∷ db.payments })

abbrev pub update_payment : ℕ → ℕ → (Payment → Payment) → Action (Unit {0})
update_payment tenant id f =
    modify (λ db. record db { payments = update_first (is_payment tenant id) f db.payments })

abbrev pub is_customer : ℕ → ℕ → Customer → Bool
is_customer tenant id c = c.tenant_id == tenant && c.id == id

abbrev pub entry_kind_eqb : EntryKind → EntryKind → Bool
entry_kind_eqb opening opening = true
entry_kind_eqb charge charge = true
entry_kind_eqb payment payment = true
entry_kind_eqb adjustment adjustment = true
entry_kind_eqb _ _ = false

abbrev pub source_type_eqb : SourceType → SourceType → Bool
source_type_eqb from_service_record from_service_record = true
source_type_eqb from_payment from_payment = true
source_type_eqb from_opening_balance from_opening_balance = true
source_type_eqb _ _ = false

-- uq_ledger_entry_tenant_id_source_type_source_id_entry_kind.
abbrev pub is_entry_of : ℕ → SourceType → ℕ → EntryKind → LedgerEntry → Bool
is_entry_of tenant source id kind e =
    e.tenant_id == tenant
    && (source_type_eqb e.source_type source
        && (e.source_id == id && entry_kind_eqb e.entry_kind kind))

unfoldable pub insert_entry : LedgerEntry → Action (Unit {0})
insert_entry e = do
  raise_when
      (← gets
        (λ db. any (is_entry_of e.tenant_id e.source_type e.source_id e.entry_kind) db.ledger))
      integrity_error
  modify (λ db. record db { ledger = e ∷ db.ledger })

abbrev pub is_open_cycle : ℕ → BillingCycle → Bool
is_open_cycle tenant c = c.tenant_id == tenant && is_open c.status

abbrev pub is_cycle : ℕ → ℕ → BillingCycle → Bool
is_cycle tenant id c = c.tenant_id == tenant && c.id == id

-- uq_billing_cycle_one_open_per_tenant and uq_billing_cycle_tenant_id_period_start.
abbrev pub clashes_with : BillingCycle → BillingCycle → Bool
clashes_with c o =
    o.tenant_id == c.tenant_id && (is_open o.status || date_eqb o.period_start c.period_start)

unfoldable pub insert_cycle : BillingCycle → Action (Unit {0})
insert_cycle c = do
  raise_when (← gets (λ db. any (clashes_with c) db.cycles)) integrity_error
  modify (λ db. record db { cycles = c ∷ db.cycles })

abbrev pub update_cycle : ℕ → ℕ → (BillingCycle → BillingCycle) → Action (Unit {0})
update_cycle tenant id f =
    modify (λ db. record db { cycles = update_first (is_cycle tenant id) f db.cycles })

-- uq_statement_tenant_id_customer_id_cycle_id.
abbrev pub is_statement_of : ℕ → ℕ → ℕ → Statement → Bool
is_statement_of tenant customer cycle s =
    s.tenant_id == tenant && (s.customer_id == customer && s.cycle_id == cycle)

unfoldable pub insert_statement : Statement → Action (Unit {0})
insert_statement s = do
  raise_when
      (← gets (λ db. any (is_statement_of s.tenant_id s.customer_id s.cycle_id) db.statements))
      integrity_error
  modify (λ db. record db { statements = s ∷ db.statements })

-- audit/service.py: `record_audit_event` only appends.
abbrev pub record_audit_event : AuditEvent → Action (Unit {0})
record_audit_event e = modify (λ db. record db { audit_events = e ∷ db.audit_events })

-- `SYNC if data.source == Source.SYNC else ONLINE`.
abbrev pub audit_source_of : Source → AuditSource
audit_source_of sync = audit_sync
audit_source_of _ = audit_online

unfoldable pub record_tenant_event :
    TenantContext
    → AuditAction
    → ℕ
    → Option Entity
    → Option Entity
    → Option Text
    → ℕ
    → AuditSource
    → Action (Unit {0})
record_tenant_event ctx action entity_id before after reason operation_id source =
    record_audit_event (record {
      tenant_id = ctx.tenant_id;
      actor_user_id = some ctx.user_id;
      actor_scope = tenant_scope;
      action = action;
      entity_id = entity_id;
      before = before;
      after = after;
      reason = reason;
      operation_id = some operation_id;
      audit_source = source;
    })
