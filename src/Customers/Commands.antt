-- ===== src/Customers/Commands.antt =====
-- backend/app/customers/commands.py: create and update. The lists of aliases that a command returns
-- stand in the order of the table, and not of the database's collation.
use recurring_service_platfo.Session.{
  Db, Action, ◌>>=◌, ◌>>◌, pure, lift, raise_when, gets, modify, new_id, next_row_version, after,
}
use recurring_service_platfo.Session.Tables.{is_customer, record_tenant_event}
use recurring_service_platfo.Base.{
  ◌==◌, filter, find, any, update_first, not_found, validation_failed, conflict, or_raise, ℕ, Bool,
  true, ◌&&◌, Option, none, some, List, [], ◌∷◌, map,
}
use recurring_service_platfo.Base.Int.{ℤ}
use recurring_service_platfo.Core.Text.{Text, strip, is_empty, text_eqb}
use recurring_service_platfo.Models.{
  TenantContext, Customer, is_active_alias, CustomerAlias, Entity, customer_entity,
  customer_created, customer_updated, audit_online,
}
use recurring_service_platfo.Search.Names.{Unicode, normalize_text}
use recurring_service_platfo.Customers.Fields.{
  CreateCustomerInput, UpdateCustomerInput, validate_phone, validate_quantity, validate_price,
  is_stale, updated_customer,
}

-- uq_customer_tenant_id_code.
abbrev pub is_code_of : ℕ → Text → Customer → Bool
is_code_of tenant code c = c.tenant_id == tenant && text_eqb c.code code

unfoldable pub insert_customer : Customer → Action (Unit {0})
insert_customer c = do
  raise_when (← gets (λ db. any (is_code_of c.tenant_id c.code) db.customers)) conflict
  modify (λ db. record db { customers = c ∷ db.customers })

abbrev pub update_customer_row : ℕ → ℕ → (Customer → Customer) → Action (Unit {0})
update_customer_row tenant id f =
    modify (λ db. record db { customers = update_first (is_customer tenant id) f db.customers })

abbrev pub customer_row :
    Unicode
    → TenantContext
    → CreateCustomerInput
    → ℕ
    → ℤ
    → Option Text
    → Option Text
    → ℕ
    → ℕ
    → Customer
customer_row u ctx input quantity price phone whatsapp_number row_version id = record {
  id = id;
  tenant_id = ctx.tenant_id;
  name = strip input.name;
  normalized_name = normalize_text u input.name;
  code = strip input.code;
  phone_e164 = phone;
  whatsapp_e164 = whatsapp_number;
  address = input.address;
  area = input.area;
  default_quantity = quantity;
  unit_price_minor = price;
  is_active = true;
  row_version = row_version;
}

unfoldable pub prepare_customer : Unicode → TenantContext → CreateCustomerInput → Action Customer
prepare_customer u ctx input = do
  raise_when (is_empty (strip input.code)) validation_failed
  raise_when (is_empty (strip input.name)) validation_failed
  quantity ← lift (validate_quantity input.default_quantity)
  price ← lift (validate_price input.unit_price_minor)
  phone ← lift (validate_phone u input.phone_e164)
  whatsapp_number ← lift (validate_phone u input.whatsapp_e164)
  row_version ← next_row_version
  id ← new_id
  pure (customer_row u ctx input quantity price phone whatsapp_number row_version id)

unfoldable pub create_customer : Unicode → TenantContext → CreateCustomerInput → ℕ → Action Entity
create_customer u ctx input operation_id = do
  c ← prepare_customer u ctx input
  insert_customer c
  record_tenant_event ctx customer_created c.id none (some (customer_entity c [])) none operation_id
      audit_online
  pure (customer_entity c [])

unfoldable pub get_customer : TenantContext → ℕ → Action Customer
get_customer ctx customer_id = do
  lift (
      or_raise (← gets (λ db. find (is_customer ctx.tenant_id customer_id) db.customers)) not_found)

abbrev pub is_active_alias_of : ℕ → ℕ → CustomerAlias → Bool
is_active_alias_of tenant customer a =
    a.tenant_id == tenant && (a.customer_id == customer && is_active_alias a.status)

-- The texts of `list_aliases`.
abbrev pub alias_texts : ℕ → ℕ → Db → List Text
alias_texts tenant customer db =
    map (λ a. a.alias) (filter (is_active_alias_of tenant customer) db.aliases)

unfoldable pub settle_update : TenantContext → ℕ → Customer → Customer → Action Entity
settle_update ctx operation_id before after = do
  update_customer_row ctx.tenant_id before.id (λ c. after)
  record_tenant_event ctx customer_updated after.id (some (customer_entity before []))
      (some (customer_entity after [])) none operation_id audit_online
  aliases ← gets (alias_texts ctx.tenant_id after.id)
  pure (customer_entity after aliases)

unfoldable pub update_customer :
    Unicode → TenantContext → ℕ → UpdateCustomerInput → ℕ → Action Entity
update_customer u ctx customer_id input operation_id = do
  c ← get_customer ctx customer_id
  raise_when (is_stale input.expected_row_version c.row_version) conflict
  changed ← lift (updated_customer u input c)
  row_version ← next_row_version
  settle_update ctx operation_id c (record changed { row_version = row_version })
