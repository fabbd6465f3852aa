-- ===== src/Models/Commission.antt =====
-- commission/models.py.
use recurring_service_platfo.Base.{ℕ, Bool, true, false, Option}
use recurring_service_platfo.Base.Int.{ℤ}
use recurring_service_platfo.Core.Text.{Text}
use recurring_service_platfo.Core.Date.{Date}

pub data CommissionBasis : Type 0 where
  recorded_value billed_value collected_value per_event unknown_basis : CommissionBasis

abbrev pub is_per_event : CommissionBasis → Bool
is_per_event per_event = true
is_per_event _ = false

pub data CommissionSourceType : Type 0 where
  by_service_record by_payment by_statement : CommissionSourceType

abbrev pub source_eqb : CommissionSourceType → CommissionSourceType → Bool
source_eqb by_service_record by_service_record = true
source_eqb by_payment by_payment = true
source_eqb by_statement by_statement = true
source_eqb _ _ = false

pub record CommissionPlan : Type 0 where
  pub id : ℕ
  pub tenant_id : ℕ
  pub basis : CommissionBasis
  pub rate_bp : Option ℤ
  pub fixed_amount_minor : Option ℤ
  pub currency : Text
  pub effective_from : Date
  pub effective_to : Option Date
  pub created_by_user_id : ℕ

pub record CommissionEvent : Type 0 where
  pub id : ℕ
  pub tenant_id : ℕ
  pub plan_id : ℕ
  pub basis_snapshot : CommissionBasis
  pub rate_bp_snapshot : Option ℤ
  pub fixed_amount_minor_snapshot : Option ℤ
  pub source_type : CommissionSourceType
  pub source_id : ℕ
  pub base_amount_minor : ℤ
  pub commission_minor : ℤ
  pub occurred_on : Date

pub record CommissionAdjustment : Type 0 where
  pub tenant_id : ℕ
  pub commission_event_id : ℕ
  pub amount_minor : ℤ
  pub reason : Text
  pub source_type : CommissionSourceType
  pub source_id : ℕ
  pub created_by_user_id : ℕ

pub record CommissionSettlement : Type 0 where
  pub id : ℕ
  pub tenant_id : ℕ
  pub period_start : Date
  pub period_end : Date
  pub amount_minor : ℤ
  pub settled_on : Date
  pub reference : Option Text
  pub note : Option Text
  pub created_by_user_id : ℕ

-- What a platform principal acts with on a tenant that it chose.
pub record PlatformContext : Type 0 where
  pub tenant_id : ℕ
  pub user_id : ℕ
  pub today : Date
  pub currency : Text
