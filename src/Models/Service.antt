-- ===== src/Models/Service.antt =====
-- customers/models.py and service/models.py, and the tenant context.
use recurring_service_platfo.Base.{ℕ, Bool, true, false, Option}
use recurring_service_platfo.Base.Int.{ℤ}
use recurring_service_platfo.Core.Text.{Text}
use recurring_service_platfo.Core.Date.{Date}

pub record TenantContext : Type 0 where
  pub tenant_id : ℕ
  pub user_id : ℕ
  pub now : ℕ
  pub today : Date
  pub unit_label : Text
  pub currency : Text
  pub currency_exponent : ℕ
  pub is_monthly : Bool
  pub cycle_start_day : ℕ

-- The column `status` of a customer is ACTIVE or INACTIVE; quantities count thousandths of a unit.
pub record Customer : Type 0 where
  pub id : ℕ
  pub tenant_id : ℕ
  pub name : Text
  pub normalized_name : Text
  pub code : Text
  pub phone_e164 : Option Text
  pub whatsapp_e164 : Option Text
  pub address : Option Text
  pub area : Option Text
  pub default_quantity : ℕ
  pub unit_price_minor : ℤ
  pub is_active : Bool
  pub row_version : ℕ

-- `unknown_kind` is any other text that a request may carry.
pub data ServiceKind : Type 0 where
  service skip unknown_kind : ServiceKind

abbrev pub is_service : ServiceKind → Bool
is_service service = true
is_service _ = false

abbrev pub is_skip : ServiceKind → Bool
is_skip skip = true
is_skip _ = false

pub data RecordStatus : Type 0 where
  active superseded voided : RecordStatus

abbrev pub is_active_status : RecordStatus → Bool
is_active_status active = true
is_active_status _ = false

pub data Source : Type 0 where
  online sync import : Source

pub data InputMethod : Type 0 where
  button voice : InputMethod

-- `quantity` counts thousandths of a unit.
pub record DailyServiceRecord : Type 0 where
  pub id : ℕ
  pub tenant_id : ℕ
  pub customer_id : ℕ
  pub service_date : Date
  pub quantity : ℕ
  pub unit_price_minor : ℤ
  pub unit_label : Text
  pub charge_minor : ℤ
  pub kind : ServiceKind
  pub status : RecordStatus
  pub corrects_id : Option ℕ
  pub superseded_by_id : Option ℕ
  pub adjustment_minor : Option ℤ
  pub reason : Option Text
  pub recorded_by_user_id : ℕ
  pub operation_id : ℕ
  pub source : Source
  pub input_method : InputMethod
  pub row_version : ℕ
