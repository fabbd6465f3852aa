-- ===== src/Models/Customers.antt =====
-- customers/models.py: the other names of a customer.
use recurring_service_platfo.Base.{ℕ, Bool, true, false, Option}
use recurring_service_platfo.Core.Text.{Text}

pub data AliasStatus : Type 0 where
  alias_active alias_inactive : AliasStatus

abbrev pub is_active_alias : AliasStatus → Bool
is_active_alias alias_active = true
is_active_alias alias_inactive = false

pub record CustomerAlias : Type 0 where
  pub id : ℕ
  pub tenant_id : ℕ
  pub customer_id : ℕ
  pub alias : Text
  pub normalized : Text
  pub status : AliasStatus
  pub updated_at : ℕ
  pub deactivated_at : Option ℕ
