-- ===== src/Customers/Aliases.antt =====
-- backend/app/customers/aliases.py: the names a customer is called by. The table's order stands for
-- the order in which the database returns rows that no clause orders.
pub mod Bounds
pub mod Changes
use recurring_service_platfo.Session.{
  Db, Action, ◌>>=◌, ◌>>◌, pure, lift, raise_when, gets, modify, new_id, next_row_version, after,
}
use recurring_service_platfo.Session.Tables.{record_tenant_event}
use recurring_service_platfo.Base.{
  ltb, leb, ◌==◌, if◌then◌else◌, get_or, length, filter, find, any, update_first, not_found,
  validation_failed, conflict, Result, ok, err, or_raise, ℕ, Bool, true, false, not, ◌&&◌, Option,
  none, some, [], ◌∷◌,
}
use recurring_service_platfo.Core.Text.{Text, strip, text_eqb}
use recurring_service_platfo.Models.{
  TenantContext, alias_active, alias_inactive, is_active_alias, CustomerAlias, Entity,
  customer_alias_entity, AuditAction, customer_alias_added, customer_alias_updated,
  customer_alias_deactivated, customer_alias_reactivated, audit_online,
}
use recurring_service_platfo.Search.Names.{Unicode, normalize_text}
use recurring_service_platfo.Customers.Commands.{
  update_customer_row, get_customer, is_active_alias_of,
}
use mathlib.Core.Option

abbrev pub max_aliases_per_customer : ℕ
max_aliases_per_customer = 20

abbrev pub checked_key : Text → Text → Result (Text × Text)
checked_key text [] = err validation_failed
checked_key text (c ∷ cs) = ok (text, c ∷ cs)

abbrev pub checked_text : Unicode → Text → Result (Text × Text)
checked_text u [] = err validation_failed
checked_text u (c ∷ cs) =
    if ltb 200 (length (c ∷ cs))
    then err validation_failed
    else checked_key (c ∷ cs) (normalize_text u (c ∷ cs))

-- The display text and its comparison key.
unfoldable pub validated : Unicode → Option Text → Result (Text × Text)
validated u value = checked_text u (strip (get_or value []))

abbrev pub is_alias_of : ℕ → ℕ → CustomerAlias → Bool
is_alias_of tenant customer a = a.tenant_id == tenant && a.customer_id == customer

abbrev pub is_alias : ℕ → ℕ → ℕ → CustomerAlias → Bool
is_alias tenant customer id a = is_alias_of tenant customer a && a.id == id

unfoldable pub alias_row : TenantContext → ℕ → ℕ → Action CustomerAlias
alias_row ctx customer_id alias_id = do
  lift (
      or_raise (← gets (λ db. find (is_alias ctx.tenant_id customer_id alias_id) db.aliases))
        not_found)

abbrev pub has_key : ℕ → ℕ → Text → CustomerAlias → Bool
has_key tenant customer normalized a =
    is_alias_of tenant customer a && text_eqb a.normalized normalized

-- uq_customer_alias_active_normalized, against a row that is `id`.
abbrev pub is_clash : ℕ → ℕ → Text → ℕ → CustomerAlias → Bool
is_clash tenant customer normalized id a =
    has_key tenant customer normalized a && (is_active_alias a.status && not (a.id == id))

abbrev pub update_alias_row : ℕ → ℕ → ℕ → (CustomerAlias → CustomerAlias) → Action (Unit {0})
update_alias_row tenant customer id f =
    modify (λ db. record db { aliases = update_first (is_alias tenant customer id) f db.aliases })

-- The alias travels with its customer, whose version advances.
unfoldable pub touch_customer : TenantContext → ℕ → Action (Unit {0})
touch_customer ctx customer_id = do
  row_version ← next_row_version
  update_customer_row ctx.tenant_id customer_id (λ c. record c { row_version = row_version })

abbrev pub is_active_found : Option CustomerAlias → Bool
is_active_found none = false
is_active_found (some a) = is_active_alias a.status

abbrev pub new_alias : TenantContext → ℕ → Text → Text → ℕ → CustomerAlias
new_alias ctx customer_id text normalized id = record {
  id = id;
  tenant_id = ctx.tenant_id;
  customer_id = customer_id;
  alias = text;
  normalized = normalized;
  status = alias_active;
  updated_at = ctx.now;
  deactivated_at = none;
}

abbrev pub reactivated : TenantContext → Text → CustomerAlias → CustomerAlias
reactivated ctx text a = record a {
  alias = text;
  status = alias_active;
  deactivated_at = none;
  updated_at = ctx.now;
}

abbrev pub alias_event :
    TenantContext
    → AuditAction
    → Option CustomerAlias
    → CustomerAlias
    → Option Text
    → ℕ
    → Action Entity
alias_event ctx action before after reason operation_id = do
  record_tenant_event ctx action after.id (Option.map customer_alias_entity before)
      (some (customer_alias_entity after)) reason operation_id audit_online
  pure (customer_alias_entity after)

-- A spelling that was retired comes back as the row that it was.
abbrev pub put_alias : TenantContext → ℕ → Text → Text → ℕ → Option CustomerAlias → Action Entity
put_alias ctx customer_id text normalized operation_id none = do
  touch_customer ctx customer_id
  id ← new_id
  modify (λ db. record db { aliases = new_alias ctx customer_id text normalized id ∷ db.aliases })
  alias_event ctx customer_alias_added none (new_alias ctx customer_id text normalized id) none
      operation_id
put_alias ctx customer_id text normalized operation_id (some a) = do
  touch_customer ctx customer_id
  raise_when (← gets (λ db. any (is_clash ctx.tenant_id customer_id normalized a.id) db.aliases))
      conflict
  update_alias_row ctx.tenant_id customer_id a.id (reactivated ctx text)
  alias_event ctx customer_alias_reactivated (some a) (reactivated ctx text a) none operation_id

abbrev pub active_aliases : ℕ → ℕ → Db → ℕ
active_aliases tenant customer db = length (filter (is_active_alias_of tenant customer) db.aliases)

unfoldable pub add_alias : Unicode → TenantContext → ℕ → Option Text → ℕ → Action Entity
add_alias u ctx customer_id alias operation_id = do
  customer ← get_customer ctx customer_id
  checked ← lift (validated u alias)
  existing ← gets (λ db. find (has_key ctx.tenant_id customer_id checked.1) db.aliases)
  raise_when (is_active_found existing) conflict
  raise_when
      (← gets (λ db. leb max_aliases_per_customer (active_aliases ctx.tenant_id customer_id db)))
      validation_failed
  put_alias ctx customer_id checked.0 checked.1 operation_id existing

abbrev pub respelled : TenantContext → Text → Text → CustomerAlias → CustomerAlias
respelled ctx text normalized a = record a {
  alias = text;
  normalized = normalized;
  updated_at = ctx.now;
}

-- After the check the unique index cannot refuse the new key.
unfoldable pub update_alias : Unicode → TenantContext → ℕ → ℕ → Option Text → ℕ → Action Entity
update_alias u ctx customer_id alias_id alias operation_id = do
  customer ← get_customer ctx customer_id
  row ← alias_row ctx customer_id alias_id
  checked ← lift (validated u alias)
  raise_when (← gets (λ db. any (is_clash ctx.tenant_id customer_id checked.1 alias_id) db.aliases))
      conflict
  update_alias_row ctx.tenant_id customer_id row.id (respelled ctx checked.0 checked.1)
  touch_customer ctx customer_id
  alias_event ctx customer_alias_updated (some row) (respelled ctx checked.0 checked.1 row) none
      operation_id

abbrev pub retired : TenantContext → CustomerAlias → CustomerAlias
retired ctx a = record a {
  status = alias_inactive;
  deactivated_at = some ctx.now;
  updated_at = ctx.now;
}

-- Asking twice changes nothing and is not audited.
abbrev pub retire_unless :
    Bool → TenantContext → ℕ → CustomerAlias → Option Text → ℕ → Action Entity
retire_unless true ctx customer_id row reason operation_id = pure (customer_alias_entity row)
retire_unless false ctx customer_id row reason operation_id = do
  update_alias_row ctx.tenant_id customer_id row.id (retired ctx)
  touch_customer ctx customer_id
  alias_event ctx customer_alias_deactivated (some row) (retired ctx row) reason operation_id

unfoldable pub deactivate_alias : TenantContext → ℕ → ℕ → Option Text → ℕ → Action Entity
deactivate_alias ctx customer_id alias_id reason operation_id = do
  customer ← get_customer ctx customer_id
  row ← alias_row ctx customer_id alias_id
  retire_unless (not (is_active_alias row.status)) ctx customer_id row reason operation_id
