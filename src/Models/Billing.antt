-- ===== src/Models/Billing.antt =====
-- billing/models.py: cycles, ledger entries and statements.
use recurring_service_platfo.Base.{ℕ, Bool, true, false, Option}
use recurring_service_platfo.Base.Int.{ℤ}
use recurring_service_platfo.Core.Text.{Text}
use recurring_service_platfo.Core.Date.{Date}

pub data EntryKind : Type 0 where
  opening charge payment adjustment : EntryKind

pub data SourceType : Type 0 where
  from_service_record from_payment from_opening_balance : SourceType

pub record LedgerEntry : Type 0 where
  pub tenant_id : ℕ
  pub customer_id : ℕ
  pub entry_kind : EntryKind
  pub amount_minor : ℤ
  pub occurred_on : Date
  pub posting_cycle_id : Option ℕ
  pub source_type : SourceType
  pub source_id : ℕ
  pub created_by_user_id : ℕ

abbrev pub is_charge : LedgerEntry → Bool
is_charge e = elim e.entry_kind [
  | opening ↦ false
  | charge ↦ true
  | payment ↦ false
  | adjustment ↦ false
]

abbrev pub is_payment_entry : LedgerEntry → Bool
is_payment_entry e = elim e.entry_kind [
  | opening ↦ false
  | charge ↦ false
  | payment ↦ true
  | adjustment ↦ false
]

abbrev pub is_adjustment : LedgerEntry → Bool
is_adjustment e = elim e.entry_kind [
  | opening ↦ false
  | charge ↦ false
  | payment ↦ false
  | adjustment ↦ true
]

abbrev pub is_service_origin : LedgerEntry → Bool
is_service_origin e = elim e.source_type [
  | from_service_record ↦ true
  | from_payment ↦ false
  | from_opening_balance ↦ false
]

abbrev pub is_payment_origin : LedgerEntry → Bool
is_payment_origin e = elim e.source_type [
  | from_service_record ↦ false
  | from_payment ↦ true
  | from_opening_balance ↦ false
]

pub data CycleStatus : Type 0 where
  open_status closed : CycleStatus

abbrev pub is_open : CycleStatus → Bool
is_open open_status = true
is_open closed = false

pub record BillingCycle : Type 0 where
  pub id : ℕ
  pub tenant_id : ℕ
  pub period_start : Date
  pub period_end : Date
  pub status : CycleStatus
  pub closed_at : Option ℕ
  pub closed_by_user_id : Option ℕ

pub record Statement : Type 0 where
  pub id : ℕ
  pub tenant_id : ℕ
  pub customer_id : ℕ
  pub cycle_id : ℕ
  pub opening_balance_minor : ℤ
  pub charges_minor : ℤ
  pub service_adjustments_minor : ℤ
  pub payments_minor : ℤ
  pub payment_reversals_minor : ℤ
  pub closing_balance_minor : ℤ
  pub service_days : ℕ
  pub total_quantity : ℕ
  pub unit_label : Text
  pub currency : Text
  pub row_version : ℕ
