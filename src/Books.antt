-- ===== src/Books.antt =====
-- The balances against the accepted business: what backend/app/billing/ledger.py and reporting.py
-- promise about the rows of backend/app/service/models.py and payments/models.py.
pub mod Postings
pub mod Rows
pub mod Recording
pub mod Correcting
pub mod Voiding
pub mod Paying
pub mod Moves
pub mod History
pub mod ActiveDay
pub mod DayCorrecting
pub mod DayHistory
pub mod Isolation
use recurring_service_platfo.Session.{Db}
use recurring_service_platfo.Base.{
  ◌==◌, if◌then◌else◌, All, ℕ, ◌-◌, ◌/◌, ◌≡◌, ap, ◌&&◌, none, some, List,
}
use recurring_service_platfo.Base.Int.{ℤ, pos}
use recurring_service_platfo.Base.Sums.{sum_by}
use recurring_service_platfo.Models.{
  service, active, is_active_status, DailyServiceRecord, recorded, is_recorded, Payment, charge,
  payment,
}
use recurring_service_platfo.Billing.Reporting.{business_generated_minor, collected_minor}
use recurring_service_platfo.Billing.Reporting.Figures.{IsPosted}

-- The part of an amount of customer `owner` of tenant `holder` that customer `c` of `t` has.
abbrev pub share : ℕ → ℕ → ℕ → ℕ → ℤ → ℤ
share t c holder owner amount = if holder == t && owner == c then amount else pos 0

-- The charge of a record while it is ACTIVE.
abbrev pub accepted_part : ℕ → ℕ → DailyServiceRecord → ℤ
accepted_part t c r =
    share t c r.tenant_id r.customer_id
      (if is_active_status r.status then r.charge_minor else pos 0)

abbrev pub accepted_value : ℕ → ℕ → List DailyServiceRecord → ℤ
accepted_value t c = sum_by (accepted_part t c)

-- The amount of a payment while it is RECORDED.
abbrev pub received_part : ℕ → ℕ → Payment → ℤ
received_part t c p =
    share t c p.tenant_id p.customer_id (if is_recorded p.status then p.amount_minor else pos 0)

abbrev pub received_value : ℕ → ℕ → List Payment → ℤ
received_value t c = sum_by (received_part t c)

-- Every customer's figures are those of the accepted business.
pub record Balanced (db : Db) : Type 0 where
  pub posted : All IsPosted db.ledger
  pub generated :
      (t c : ℕ) → business_generated_minor t (some c) none db ≡ accepted_value t c db.records
  pub collected : (t c : ℕ) → collected_minor t (some c) none db ≡ received_value t c db.payments
