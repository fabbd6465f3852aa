-- ===== src/Identity/Capabilities.antt =====
-- backend/app/identity/capabilities.py: the static capability map.
use recurring_service_platfo.Base.{
  permission_denied, value_error, Result, ok, err, ◌>>◌, raise_if, ◌≡◌, refl, ◌≢◌, ◌↔◌, ◌⊎◌, inl,
  inr, Bool, true, false, not, ◌||◌, arith,
}

-- The roles of identity/models.py; `other_role` is any other text.
pub data Role : Type 0 where
  owner_admin platform_owner operator other_role : Role

-- The capability strings of the map; `other_capability` is any other text.
pub data Capability : Type 0 where
  customer_read customer_write service_record service_correct billing_read : Capability
  billing_close_cycle payment_record payment_void reminder_read reminder_trigger : Capability
  dashboard_read search_use cost_read cost_write : Capability
  commission_read commission_adjust commission_settle tenant_provision : Capability
  platform_dashboard_read : Capability
  other_capability : Capability

abbrev pub in_tenant_set : Capability → Bool
in_tenant_set commission_read = false
in_tenant_set commission_adjust = false
in_tenant_set commission_settle = false
in_tenant_set tenant_provision = false
in_tenant_set platform_dashboard_read = false
in_tenant_set other_capability = false
in_tenant_set _ = true

abbrev pub in_platform_set : Capability → Bool
in_platform_set commission_read = true
in_platform_set commission_adjust = true
in_platform_set commission_settle = true
in_platform_set tenant_provision = true
in_platform_set platform_dashboard_read = true
in_platform_set _ = false

-- `CAPABILITIES.get(role, frozenset())`.
unfoldable pub capabilities_of : Role → Capability → Bool
capabilities_of owner_admin c = in_tenant_set c
capabilities_of platform_owner c = in_platform_set c
capabilities_of operator c = false
capabilities_of other_role c = false

abbrev pub has : Role → Capability → Bool
has role c = capabilities_of role c

-- The union over every role of the map.
unfoldable pub in_all_capabilities : Capability → Bool
unfolding capabilities_of
in_all_capabilities c =
    capabilities_of owner_admin c
    || (capabilities_of platform_owner c || capabilities_of operator c)

unfoldable pub require : Role → Capability → Result (Unit {0})
require role c = do
  raise_if (not (in_all_capabilities c)) value_error
  raise_if (not (has role c)) permission_denied

-- For every capability of the map the owner of a business is let through exactly when the owner
-- of the platform is refused with a permission error, and a string outside the map is an error
-- for both
pub require-disjoint :
    (c : Capability)
    → ((require owner_admin c ≡ ok tt) ↔ (require platform_owner c ≡ err permission_denied))
      ⊎ ((require owner_admin c ≡ err value_error) × (require platform_owner c ≡ err value_error))
unfolding require in_all_capabilities capabilities_of
require-disjoint other_capability = inr (refl, refl)
require-disjoint customer_read = inl (ground arith)
require-disjoint customer_write = inl (ground arith)
require-disjoint service_record = inl (ground arith)
require-disjoint service_correct = inl (ground arith)
require-disjoint billing_read = inl (ground arith)
require-disjoint billing_close_cycle = inl (ground arith)
require-disjoint payment_record = inl (ground arith)
require-disjoint payment_void = inl (ground arith)
require-disjoint reminder_read = inl (ground arith)
require-disjoint reminder_trigger = inl (ground arith)
require-disjoint dashboard_read = inl (ground arith)
require-disjoint search_use = inl (ground arith)
require-disjoint cost_read = inl (ground arith)
require-disjoint cost_write = inl (ground arith)
require-disjoint commission_read = inl (ground arith)
require-disjoint commission_adjust = inl (ground arith)
require-disjoint commission_settle = inl (ground arith)
require-disjoint tenant_provision = inl (ground arith)
require-disjoint platform_dashboard_read = inl (ground arith)

-- SEC-8: a role that holds nothing is refused everything: no operator and no unknown role is ever
-- let through.
pub require-operator :
    (c : Capability) → (require operator c ≢ ok tt) × (require other_role c ≢ ok tt)
unfolding require in_all_capabilities capabilities_of
require-operator c = ground arith
