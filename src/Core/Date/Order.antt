-- ===== src/Core/Date/Order.antt =====
-- The order on dates, and one day back and forth.
use recurring_service_platfo.Base.{ltb, Bool-cases, ℕ, ◌≤◌, ◌≡◌, inl, inr, true, false, arith}
use recurring_service_platfo.Core.Date.{
  Date, days_in_month, IsDate, date_ltb, date_leb, day_before, day_after,
}

pub days_in_month_bounds : (y m : ℕ) → (28 ≤ days_in_month y m) × (days_in_month y m ≤ 31)
unfolding days_in_month
days_in_month_bounds y m = ground arith

pub december : (y m : ℕ) → 12 ≤ m → days_in_month y m ≡ 31
unfolding days_in_month
december y m h = ground arith

-- One day forward and one day back.
pub day_before-day_after : (d : Date) → IsDate d → day_before (day_after d) ≡ d
unfolding day_before day_after
day_before-day_after d v = elim (Bool-cases (ltb d.day (days_in_month d.year d.month))) [
  | inl e ↦ rw (e, day_after) (ground (arith, v.day_pos))
  | inr e ↦ elim (Bool-cases (ltb d.month 12)) [
    | inl f ↦ rw (e, f, day_after) (ground (arith, v.day_le, v.month_pos))
    | inr f ↦
        rw (e, f, day_after)
          (ground (arith, december d.year d.month, v.day_le, v.day_pos, v.month_le))
  ]
]

pub date_ltb_trans :
    (a b c : Date) → date_ltb a b ≡ true → date_ltb b c ≡ true → date_ltb a c ≡ true
date_ltb_trans a b c h k = ground arith

pub date_ltb_irrefl : (a : Date) → date_ltb a a ≡ false
date_ltb_irrefl a = ground arith

pub date_leb_trans :
    (a b c : Date) → date_leb a b ≡ true → date_leb b c ≡ true → date_leb a c ≡ true
date_leb_trans a b c h k = ground arith
