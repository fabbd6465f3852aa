-- ===== src/Service/Commands.antt =====
-- backend/app/service/commands.py: record, skip, correct, void.
use recurring_service_platfo.Session.{
  Action, ◌>>=◌, ◌>>◌, pure, lift, raise_when, gets, on_integrity_error, new_id, next_row_version,
  after,
}
use recurring_service_platfo.Base.{
  find, not_found, validation_failed, service_already_recorded, or_raise, ℕ, Bool, not, ◌||◌,
  Option, none, some,
}
use recurring_service_platfo.Base.Int.{ℤ, ◌-ℤ◌, neg}
use recurring_service_platfo.Core.Date.{Date}
use recurring_service_platfo.Core.Clock.{resolve_date}
use recurring_service_platfo.Core.Text.{Text, require_reason}
use recurring_service_platfo.Models.{
  TenantContext, Customer, ServiceKind, service, skip, is_service, is_skip, active, superseded,
  voided, is_active_status, DailyServiceRecord, LedgerEntry, Entity, service_record_entity,
  AuditAction, service_recorded, service_skipped, service_corrected, service_voided_action,
}
use recurring_service_platfo.Session.Tables.{
  insert_record, is_record, update_record, is_customer, audit_source_of, record_tenant_event,
}
use recurring_service_platfo.Service.Pricing.{resolve_quantity_and_charge}
use recurring_service_platfo.Billing.Ledger.{post_service_charge, post_service_adjustment}
use recurring_service_platfo.Commission.Engine.{
  on_service_recorded, on_service_corrected, on_service_voided,
}
use recurring_service_platfo.Service.Inputs.{
  RecordServiceInput, CorrectServiceInput, VoidServiceInput,
}

-- Only an ACTIVE customer of the tenant is served; a foreign id is not found.
unfoldable pub load_customer : TenantContext → ℕ → Action Customer
load_customer ctx customer_id = do
  customer ← lift (
      or_raise (← gets (λ db. find (is_customer ctx.tenant_id customer_id) db.customers)) not_found)
  raise_when (not customer.is_active) validation_failed
  pure customer

unfoldable pub load_record : TenantContext → ℕ → Action DailyServiceRecord
load_record ctx record_id = do
  lift (or_raise (← gets (λ db. find (is_record ctx.tenant_id record_id) db.records)) not_found)

abbrev pub is_known_kind : ServiceKind → Bool
is_known_kind kind = is_service kind || is_skip kind

abbrev pub post_when_service :
    TenantContext → DailyServiceRecord → ServiceKind → Action (Option LedgerEntry)
post_when_service ctx r service = post_service_charge ctx r
post_when_service ctx r _ = pure none

abbrev pub recorded_action : ServiceKind → AuditAction
recorded_action skip = service_skipped
recorded_action _ = service_recorded

-- What a new row earns, posts and leaves in the audit trail, once it is stored.
unfoldable pub settle_recorded : TenantContext → DailyServiceRecord → ℕ → Action Entity
settle_recorded ctx r operation_id = do
  post_when_service ctx r r.kind
  on_service_recorded ctx r
  record_tenant_event ctx (recorded_action r.kind) r.id none (some (service_record_entity r)) none
      operation_id (audit_source_of r.source)
  pure (service_record_entity r)

unfoldable pub store_recorded : DailyServiceRecord → Action (Unit {0})
store_recorded r = on_integrity_error service_already_recorded (insert_record r)

-- The row of `record_service`.
abbrev pub recorded_row :
    TenantContext → RecordServiceInput → ℕ → Customer → Date → ℕ × ℤ → ℕ → ℕ → DailyServiceRecord
recorded_row ctx input operation_id customer service_date priced row_version id = record {
  id = id;
  tenant_id = ctx.tenant_id;
  customer_id = customer.id;
  service_date = service_date;
  quantity = priced.0;
  unit_price_minor = customer.unit_price_minor;
  unit_label = ctx.unit_label;
  charge_minor = priced.1;
  kind = input.kind;
  status = active;
  corrects_id = none;
  superseded_by_id = none;
  adjustment_minor = none;
  reason = none;
  recorded_by_user_id = ctx.user_id;
  operation_id = operation_id;
  source = input.source;
  input_method = input.input_method;
  row_version = row_version;
}

unfoldable pub prepare_recorded : TenantContext → RecordServiceInput → ℕ → Action DailyServiceRecord
prepare_recorded ctx input operation_id = do
  raise_when (not (is_known_kind input.kind)) validation_failed
  customer ← load_customer ctx input.customer_id
  service_date ← lift (resolve_date ctx.today input.service_date)
  priced ← lift (resolve_quantity_and_charge input.kind input.quantity customer.unit_price_minor)
  row_version ← next_row_version
  id ← new_id
  pure (recorded_row ctx input operation_id customer service_date priced row_version id)

unfoldable pub record_service : TenantContext → RecordServiceInput → ℕ → Action Entity
record_service ctx input operation_id = do
  r ← prepare_recorded ctx input operation_id
  store_recorded r
  settle_recorded ctx r operation_id

-- The row that `correct_service` puts in the original's place: the original's price and date.
abbrev pub replacement_row :
    TenantContext
    → CorrectServiceInput
    → ℕ
    → Text
    → DailyServiceRecord
    → ℕ × ℤ
    → ℕ
    → ℕ
    → DailyServiceRecord
replacement_row ctx input operation_id reason original priced row_version id = record {
  id = id;
  tenant_id = ctx.tenant_id;
  customer_id = original.customer_id;
  service_date = original.service_date;
  quantity = priced.0;
  unit_price_minor = original.unit_price_minor;
  unit_label = original.unit_label;
  charge_minor = priced.1;
  kind = input.kind;
  status = active;
  corrects_id = some original.id;
  superseded_by_id = none;
  adjustment_minor = some (priced.1 -ℤ original.charge_minor);
  reason = some reason;
  recorded_by_user_id = ctx.user_id;
  operation_id = operation_id;
  source = input.source;
  input_method = input.input_method;
  row_version = row_version;
}

abbrev pub supersede : ℕ → DailyServiceRecord → DailyServiceRecord
supersede row_version r = record r { status = superseded; row_version = row_version }

abbrev pub succeed_by : ℕ → DailyServiceRecord → DailyServiceRecord
succeed_by id r = record r { superseded_by_id = some id }

-- The active slot is freed first, and the superseded row takes its version before its successor.
unfoldable pub replace_record :
    TenantContext
    → CorrectServiceInput
    → ℕ
    → Text
    → DailyServiceRecord
    → ℕ × ℤ
    → Action DailyServiceRecord
replace_record ctx input operation_id reason original priced = do
  superseded_version ← next_row_version
  update_record ctx.tenant_id original.id (supersede superseded_version)
  row_version ← next_row_version
  id ← new_id
  insert_record (replacement_row ctx input operation_id reason original priced row_version id)
  update_record ctx.tenant_id original.id (succeed_by id)
  pure (replacement_row ctx input operation_id reason original priced row_version id)

-- The difference is posted against the record whose active life ends.
unfoldable pub settle_corrected :
    TenantContext
    → CorrectServiceInput
    → ℕ
    → Text
    → DailyServiceRecord
    → DailyServiceRecord
    → Action Entity
settle_corrected ctx input operation_id reason original replacement = do
  post_service_adjustment ctx original.customer_id
      (replacement.charge_minor -ℤ original.charge_minor) original.service_date original.id
  on_service_corrected ctx original replacement reason
  record_tenant_event ctx service_corrected replacement.id (some (service_record_entity original))
      (some (service_record_entity replacement)) (some reason) operation_id
      (audit_source_of input.source)
  pure (service_record_entity replacement)

unfoldable pub correct_service : TenantContext → ℕ → CorrectServiceInput → ℕ → Action Entity
correct_service ctx record_id input operation_id = do
  reason ← lift (require_reason input.reason)
  original ← load_record ctx record_id
  raise_when (not (is_active_status original.status)) validation_failed
  raise_when (not (is_known_kind input.kind)) validation_failed
  priced ← lift (resolve_quantity_and_charge input.kind input.quantity original.unit_price_minor)
  replacement ← replace_record ctx input operation_id reason original priced
  settle_corrected ctx input operation_id reason original replacement

abbrev pub void_row : Text → ℕ → DailyServiceRecord → DailyServiceRecord
void_row reason row_version r = record r {
  status = voided;
  reason = some reason;
  row_version = row_version;
}

unfoldable pub settle_voided :
    TenantContext
    → VoidServiceInput
    → ℕ
    → Text
    → DailyServiceRecord
    → DailyServiceRecord
    → Action Entity
settle_voided ctx input operation_id reason before after = do
  post_service_adjustment ctx after.customer_id (neg after.charge_minor) after.service_date after.id
  on_service_voided ctx after reason
  record_tenant_event ctx service_voided_action after.id (some (service_record_entity before))
      (some (service_record_entity after)) (some reason) operation_id (audit_source_of input.source)
  pure (service_record_entity after)

unfoldable pub void_service : TenantContext → ℕ → VoidServiceInput → ℕ → Action Entity
void_service ctx record_id input operation_id = do
  reason ← lift (require_reason input.reason)
  r ← load_record ctx record_id
  raise_when (not (is_active_status r.status)) validation_failed
  row_version ← next_row_version
  update_record ctx.tenant_id r.id (void_row reason row_version)
  settle_voided ctx input operation_id reason r (void_row reason row_version r)
