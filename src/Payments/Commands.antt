-- ===== src/Payments/Commands.antt =====
-- backend/app/payments/commands.py: record and void.
use recurring_service_platfo.Session.{
  Action, ◌>>=◌, ◌>>◌, pure, lift, raise_when, gets, new_id, next_row_version, after,
}
use recurring_service_platfo.Base.{
  find, not_found, validation_failed, or_raise, ℕ, not, Option, none, some,
}
use recurring_service_platfo.Base.Int.{ℤ}
use recurring_service_platfo.Core.Date.{Date}
use recurring_service_platfo.Core.Clock.{resolve_date}
use recurring_service_platfo.Core.Text.{Text, require_reason}
use recurring_service_platfo.Core.Money.{PyValue}
use recurring_service_platfo.Models.{
  TenantContext, Customer, Source, PaymentMethod, is_known_method, recorded, payment_voided,
  is_recorded, Payment, Entity, payment_entity, payment_recorded, payment_voided_action,
}
use recurring_service_platfo.Session.Tables.{
  is_payment, insert_payment, update_payment, is_customer, audit_source_of, record_tenant_event,
}
use recurring_service_platfo.Billing.Ledger.{post_payment, post_payment_adjustment}
use recurring_service_platfo.Commission.Engine.{on_payment_recorded, on_payment_voided}
use recurring_service_platfo.Commission.Settlements.{validate_amount_minor}

pub record RecordPaymentInput : Type 0 where
  pub customer_id : ℕ
  pub amount_minor : PyValue
  pub method : PaymentMethod
  pub received_on : Option Date
  pub reference : Option Text
  pub note : Option Text
  pub source : Source

pub record VoidPaymentInput : Type 0 where
  pub reason : Option Text
  pub source : Source

-- Unlike a service, a payment is taken from an inactive customer too.
unfoldable pub load_payer : TenantContext → ℕ → Action Customer
load_payer ctx customer_id = do
  lift (
      or_raise (← gets (λ db. find (is_customer ctx.tenant_id customer_id) db.customers)) not_found)

unfoldable pub load_payment : TenantContext → ℕ → Action Payment
load_payment ctx payment_id = do
  lift (or_raise (← gets (λ db. find (is_payment ctx.tenant_id payment_id) db.payments)) not_found)

abbrev pub payment_row :
    TenantContext → RecordPaymentInput → ℕ → Customer → ℤ → Date → ℕ → ℕ → Payment
payment_row ctx input operation_id customer amount received_on row_version id = record {
  id = id;
  tenant_id = ctx.tenant_id;
  customer_id = customer.id;
  amount_minor = amount;
  method = input.method;
  received_on = received_on;
  reference = input.reference;
  note = input.note;
  status = recorded;
  voided_reason = none;
  voided_by_user_id = none;
  voided_at = none;
  operation_id = operation_id;
  recorded_by_user_id = ctx.user_id;
  source = input.source;
  row_version = row_version;
}

unfoldable pub prepare_payment : TenantContext → RecordPaymentInput → ℕ → Action Payment
prepare_payment ctx input operation_id = do
  raise_when (not (is_known_method input.method)) validation_failed
  customer ← load_payer ctx input.customer_id
  amount ← lift (validate_amount_minor input.amount_minor)
  received_on ← lift (resolve_date ctx.today input.received_on)
  row_version ← next_row_version
  id ← new_id
  pure (payment_row ctx input operation_id customer amount received_on row_version id)

unfoldable pub settle_payment : TenantContext → Payment → ℕ → Action Entity
settle_payment ctx p operation_id = do
  post_payment ctx p
  on_payment_recorded ctx p
  record_tenant_event ctx payment_recorded p.id none (some (payment_entity p)) none operation_id
      (audit_source_of p.source)
  pure (payment_entity p)

-- Any positive amount is accepted, also one above what is owed.
unfoldable pub record_payment : TenantContext → RecordPaymentInput → ℕ → Action Entity
record_payment ctx input operation_id = do
  p ← prepare_payment ctx input operation_id
  insert_payment p
  settle_payment ctx p operation_id

abbrev pub void_payment_row : TenantContext → Text → ℕ → Payment → Payment
void_payment_row ctx reason row_version p = record p {
  status = payment_voided;
  voided_reason = some reason;
  voided_by_user_id = some ctx.user_id;
  voided_at = some ctx.now;
  row_version = row_version;
}

-- The compensation keeps the receipt date and posts to the cycle that is open now.
unfoldable pub settle_payment_voided :
    TenantContext → VoidPaymentInput → ℕ → Text → Payment → Payment → Action Entity
settle_payment_voided ctx input operation_id reason before after = do
  post_payment_adjustment ctx after.customer_id after.amount_minor after.received_on after.id
  on_payment_voided ctx after reason
  record_tenant_event ctx payment_voided_action after.id (some (payment_entity before))
      (some (payment_entity after)) (some reason) operation_id (audit_source_of input.source)
  pure (payment_entity after)

unfoldable pub void_payment : TenantContext → ℕ → VoidPaymentInput → ℕ → Action Entity
void_payment ctx payment_id input operation_id = do
  reason ← lift (require_reason input.reason)
  p ← load_payment ctx payment_id
  raise_when (not (is_recorded p.status)) validation_failed
  row_version ← next_row_version
  update_payment ctx.tenant_id p.id (void_payment_row ctx reason row_version)
  settle_payment_voided ctx input operation_id reason p (void_payment_row ctx reason row_version p)
