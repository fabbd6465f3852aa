-- ===== src/Costs/Estimates.antt =====
-- backend/app/costs/estimates.py: one month of a rate.
use recurring_service_platfo.Base.{
  value_error, assertion_error, Result, ok, err, ◌>>=◌, ℕ, ◌+◌, ◌*◌, ◌≤◌, ◌<◌, ◌≡◌, ◌≢◌, Option,
  none, some, arith,
}
use recurring_service_platfo.Base.Int.{ℤ, magnitude}
use recurring_service_platfo.Core.Date.{Date}
use recurring_service_platfo.Core.Money.{PyValue, int_value, round_half_up, multiply_minor}
use recurring_service_platfo.Core.Money.Rounding.{half_up_bounds, round_half_up-magnitude}

-- `unknown_recurrence` is any other text.
pub data CostRecurrence : Type 0 where
  monthly annual unknown_recurrence : CostRecurrence

-- The currency and the unit, which no estimate reads, are left out.
pub record RateTerms : Type 0 where
  pub unit_price_minor : Option ℤ
  pub fixed_amount_minor : Option ℤ
  pub fixed_recurrence : Option CostRecurrence

abbrev pub months_per_year : ℕ
months_per_year = 12

-- A Decimal of 50 digits stands for the exact twelfth: at a tie it is exact, and elsewhere its
-- error is far below the distance to a tie.
unfoldable pub monthly_equivalent_minor : ℤ → CostRecurrence → Result ℤ
monthly_equivalent_minor amount monthly = ok amount
monthly_equivalent_minor amount annual = ok (round_half_up amount months_per_year)
monthly_equivalent_minor amount unknown_recurrence = err value_error

abbrev pub usage_estimate : Option PyValue → ℤ → Result (Option ℤ)
usage_estimate none price = ok none
usage_estimate (some quantity) price = do n ← multiply_minor quantity (int_value price); ok (some n)

abbrev pub fixed_estimate : Option ℤ → Option CostRecurrence → Result (Option ℤ)
fixed_estimate (some amount) (some recurrence) = do
  n ← monthly_equivalent_minor amount recurrence
  ok (some n)
fixed_estimate _ _ = err assertion_error

-- No measured usage is no estimate, and not zero.
unfoldable pub estimate_minor : RateTerms → Option PyValue → Result (Option ℤ)
estimate_minor terms usage_quantity = elim terms.unit_price_minor [
  | some price ↦ usage_estimate usage_quantity price
  | none ↦ fixed_estimate terms.fixed_amount_minor terms.fixed_recurrence
]

abbrev pub month_start : Date → Date
month_start d = record d { day = 1 }

-- The month of an annual fee is a twelfth of it rounded half up, so twelve months differ from the
-- fee by at most six minor units
pub monthly_equivalent-annual :
    (amount month : ℤ)
    → monthly_equivalent_minor amount annual ≡ ok month
    → (magnitude month * 24 ≤ magnitude amount * 2 + 12)
      × (magnitude amount * 2 + 12 < (magnitude month + 1) * 24)
unfolding monthly_equivalent_minor
monthly_equivalent-annual amount month h =
    let (lo, hi) = half_up_bounds (magnitude amount) months_per_year (omega arith) in
    let same : month ≡ round_half_up amount months_per_year = ground arith in
    rw (same, round_half_up-magnitude amount months_per_year) (omega arith, omega arith)

fixed_estimate-known :
    (amount : Option ℤ) (recurrence : Option CostRecurrence)
    → fixed_estimate amount recurrence ≢ ok none
unfolding monthly_equivalent_minor
fixed_estimate-known (some a) (some monthly) = ground arith
fixed_estimate-known (some a) (some annual) = ground arith
fixed_estimate-known (some a) (some unknown_recurrence) = ground arith
fixed_estimate-known (some a) none = ground arith
fixed_estimate-known none r = ground arith

-- A usage price without a measured usage gives no figure, and a fixed amount gives its result
-- whatever the usage and never an unknown one
pub estimate_minor-unknown :
    (terms : RateTerms) (usage : Option PyValue)
    → ((price : ℤ) → terms.unit_price_minor ≡ some price → estimate_minor terms none ≡ ok none)
      × (terms.unit_price_minor ≡ none → estimate_minor terms usage ≡ estimate_minor terms none)
      × (terms.unit_price_minor ≡ none → estimate_minor terms usage ≢ ok none)
unfolding estimate_minor monthly_equivalent_minor
estimate_minor-unknown terms usage = (
  λ price e. rw (e, estimate_minor),
  λ e. rw (e, estimate_minor),
  λ e.
      rw (e, estimate_minor) (fixed_estimate-known terms.fixed_amount_minor terms.fixed_recurrence),
)
