-- ===== src/Core/Date.antt =====
-- `datetime.date`: the proleptic Gregorian calendar, as far as the program uses it.
pub mod Order
use recurring_service_platfo.Base.{
  ltb, leb, ◌==◌, if◌then◌else◌, ℕ, ◌+◌, ◌-◌, ◌%◌, ◌≤◌, ◌<◌, ap, Bool, not, ◌&&◌, ◌||◌,
}

pub record Date : Type 0 where
  pub year : ℕ
  pub month : ℕ
  pub day : ℕ

unfoldable pub is_leap : ℕ → Bool
is_leap y = y % 4 == 0 && (not (y % 100 == 0) || y % 400 == 0)

unfoldable pub days_in_month : ℕ → ℕ → ℕ
days_in_month y m =
    if m == 2
    then (if is_leap y then 29 else 28)
    else if m == 4 || m == 6 || m == 9 || m == 11
    then 30
    else 31

-- A date that the constructor accepts (the upper bound on years is left out).
pub record IsDate (d : Date) : Type 0 where
  pub year_pos : 1 ≤ d.year
  pub month_pos : 1 ≤ d.month
  pub month_le : d.month ≤ 12
  pub day_pos : 1 ≤ d.day
  pub day_le : d.day ≤ days_in_month d.year d.month

-- `d < e`: dates compare by year, then month, then day.
abbrev pub date_ltb : Date → Date → Bool
date_ltb d e =
    ltb d.year e.year
    || (d.year == e.year && (ltb d.month e.month || (d.month == e.month && ltb d.day e.day)))

abbrev pub date_leb : Date → Date → Bool
date_leb d e = not (date_ltb e d)

abbrev pub date_eqb : Date → Date → Bool
date_eqb d e = d.year == e.year && (d.month == e.month && d.day == e.day)

-- `d - timedelta(days=1)`.
unfoldable pub day_before : Date → Date
day_before d =
    if ltb 1 d.day
    then record d { day = d.day - 1 }
    else if ltb 1 d.month
    then record { year = d.year; month = d.month - 1; day = days_in_month d.year (d.month - 1) }
    else record { year = d.year - 1; month = 12; day = 31 }

-- `d + timedelta(days=1)`.
unfoldable pub day_after : Date → Date
day_after d =
    if ltb d.day (days_in_month d.year d.month)
    then record d { day = d.day + 1 }
    else if ltb d.month 12
    then record { year = d.year; month = d.month + 1; day = 1 }
    else record { year = d.year + 1; month = 1; day = 1 }
