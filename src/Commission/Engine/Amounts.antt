-- ===== src/Commission/Engine/Amounts.antt =====
-- How much an event earns, and what an adjustment of it takes back.
use recurring_service_platfo.Session.{Db, new_id}
use recurring_service_platfo.Commission.Events.{
  fixed_fee, rated_fee, commission_minor_for, rate_value, adjustment_minor_for, find_event,
  append_event, create_event,
}
use recurring_service_platfo.Base.{
  if◌then◌else◌, Option-cases, get_or, ok, Result-cases, ℕ, ◌≡◌, inl, inr, Bool, true, false,
  Option, none, some, arith,
}
use recurring_service_platfo.Base.Int.{ℤ, pos, ◌+ℤ◌, neg, ◌≤ℤ◌}
use recurring_service_platfo.Core.Date.{Date}
use recurring_service_platfo.Core.Money.{int_value, apply_rate_bp}
use recurring_service_platfo.Core.Money.Rates.{
  rate_amount, apply_rate_bp_lem, rate_amount-neg, rate_amount-add,
}
use recurring_service_platfo.Models.{
  TenantContext, is_per_event, CommissionSourceType, CommissionPlan, CommissionEvent,
}

-- An event carries the terms and the base of its plan.
pub record IsEarnedOn (plan : CommissionPlan) (base : ℤ) (event : CommissionEvent) : Type 0 where
  pub same_basis : event.basis_snapshot ≡ plan.basis
  pub same_rate : event.rate_bp_snapshot ≡ plan.rate_bp
  pub same_fixed : event.fixed_amount_minor_snapshot ≡ plan.fixed_amount_minor
  pub same_base : event.base_amount_minor ≡ base
  pub earned :
      commission_minor_for plan.basis plan.rate_bp plan.fixed_amount_minor base
      ≡ ok event.commission_minor

-- An event that is created carries a copy of the terms of its plan and the commission that these
-- give on its base amount
pub create_event-IsEarnedOn :
    (ctx : TenantContext) (plan : CommissionPlan) (source : CommissionSourceType) (id : ℕ)
    (base : ℤ) (on : Date) (db db' : Db) (event : CommissionEvent)
    → create_event ctx plan source id base on db ≡ ok (some event, db')
    → IsEarnedOn plan base event
unfolding create_event append_event new_id
create_event-IsEarnedOn ctx plan source id base on db db' event h =
    elim (Option-cases (find_event ctx.tenant_id source id db)) [
      | inr (e, found) ↦ absurd (ground arith)
      | inl absent ↦
          elim (Result-cases
            (commission_minor_for plan.basis plan.rate_bp plan.fixed_amount_minor base)) [
              | inr (e, failed) ↦ absurd (ground arith)
              | inl (fee, worth) ↦ record {
                same_basis = ground arith;
                same_rate = ground arith;
                same_fixed = ground arith;
                same_base = ground arith;
                earned = ground arith;
              }
            ]
    ]

per_event_reversal :
    (b : Bool) (rate fixed : Option ℤ) (base fee : ℤ)
    → (if b then fixed_fee fixed else rated_fee rate base) ≡ ok fee
    → (if b
        then (ok (neg (get_or fixed (pos 0))))
        else apply_rate_bp (int_value (neg base)) (rate_value rate))
      ≡ ok (neg fee)
per_event_reversal true rate none base fee h = cc
per_event_reversal true rate (some n) base fee h = ground arith
per_event_reversal false none fixed base fee h = cc
per_event_reversal false (some r) fixed base fee h =
    ground (arith, apply_rate_bp_lem base r, apply_rate_bp_lem (neg base) r, rate_amount-neg base r)

-- For an event with the terms, base and commission that its plan gave it, taking the whole base
-- back as no longer commissionable takes back exactly the commission that was earned, whatever
-- the basis and the rounding
pub adjustment-reverses :
    (plan : CommissionPlan) (base : ℤ) (event : CommissionEvent)
    → IsEarnedOn plan base event
    → adjustment_minor_for event (neg base) false ≡ ok (neg event.commission_minor)
unfolding adjustment_minor_for commission_minor_for
adjustment-reverses plan base event k =
    rw (k.same_basis, k.same_rate, k.same_fixed)
      (per_event_reversal (is_per_event plan.basis) plan.rate_bp plan.fixed_amount_minor base
        event.commission_minor k.earned)

rated_fee-amount :
    (base rate fee : ℤ)
    → apply_rate_bp (int_value base) (int_value rate) ≡ ok fee
    → fee ≡ rate_amount base rate
rated_fee-amount base rate fee h = ground (arith, apply_rate_bp_lem base rate)

-- For a rated event with its plan's terms, the commission earned plus the adjustment for one
-- correction differs from the commission on the corrected amount by at most one minor unit
pub adjustment-drift :
    (plan : CommissionPlan) (base delta : ℤ) (r : ℕ) (event : CommissionEvent) (fee adjusted : ℤ)
    → IsEarnedOn plan base event
    → is_per_event plan.basis ≡ false
    → plan.rate_bp ≡ some (pos r)
    → adjustment_minor_for event delta true ≡ ok adjusted
    → commission_minor_for plan.basis plan.rate_bp plan.fixed_amount_minor (base +ℤ delta) ≡ ok fee
    → (event.commission_minor +ℤ adjusted ≤ℤ fee +ℤ pos 1)
      × (fee ≤ℤ event.commission_minor +ℤ adjusted +ℤ pos 1)
unfolding adjustment_minor_for commission_minor_for
adjustment-drift plan base delta r event fee adjusted k rated rate took would =
    let (lo, hi) = rate_amount-add base delta r in
    let first : event.commission_minor ≡ rate_amount base (pos r) =
      rated_fee-amount base (pos r) event.commission_minor (rw (rated, rate) at k.earned) in
    let second : adjusted ≡ rate_amount delta (pos r) =
      rated_fee-amount delta (pos r) adjusted
        (rw (k.same_basis, k.same_rate, rated, rate) at took) in
    let whole : fee ≡ rate_amount (base +ℤ delta) (pos r) =
      rated_fee-amount (base +ℤ delta) (pos r) fee (rw (rated, rate) at would) in
    rw (first, second, whole) (lo, hi)
