-- ===== src/Models/Payments.antt =====
-- payments/models.py.
use recurring_service_platfo.Base.{ℕ, Bool, true, false, Option}
use recurring_service_platfo.Base.Int.{ℤ}
use recurring_service_platfo.Core.Text.{Text}
use recurring_service_platfo.Core.Date.{Date}
use recurring_service_platfo.Models.Service.{Source}

pub data PaymentMethod : Type 0 where
  cash bank_transfer other unknown_method : PaymentMethod

abbrev pub is_known_method : PaymentMethod → Bool
is_known_method unknown_method = false
is_known_method _ = true

pub data PaymentStatus : Type 0 where
  recorded payment_voided : PaymentStatus

abbrev pub is_recorded : PaymentStatus → Bool
is_recorded recorded = true
is_recorded _ = false

pub record Payment : Type 0 where
  pub id : ℕ
  pub tenant_id : ℕ
  pub customer_id : ℕ
  pub amount_minor : ℤ
  pub method : PaymentMethod
  pub received_on : Date
  pub reference : Option Text
  pub note : Option Text
  pub status : PaymentStatus
  pub voided_reason : Option Text
  pub voided_by_user_id : Option ℕ
  pub voided_at : Option ℕ
  pub operation_id : ℕ
  pub recorded_by_user_id : ℕ
  pub source : Source
  pub row_version : ℕ
