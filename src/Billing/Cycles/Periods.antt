-- ===== src/Billing/Cycles/Periods.antt =====
-- The periods tile the calendar: each date lies in one, and one ends the day before the next starts.
use recurring_service_platfo.Base.{
  ltb, leb, ◌==◌, if◌then◌else◌, ltb→lt, lt→ltb, Bool-cases, ℕ, zero, suc, ◌+◌, ◌-◌, ◌≤◌, ◌<◌, ◌≡◌,
  refl, ◌⊎◌, inl, inr, true, false, arith,
}
use recurring_service_platfo.Core.Date.{Date, days_in_month, IsDate, date_leb, day_before}
use recurring_service_platfo.Billing.Cycles.{add_one_month, period_start_of, period_end_of}

abbrev at : ℕ → ℕ → ℕ → Date
at y m d = record { year = y; month = m; day = d }

start_cases :
    (s : ℕ) (d : Date)
    → IsDate d
    → ((s ≤ d.day) × (period_start_of s d ≡ at d.year d.month s))
      ⊎ ((d.day < s) × (1 < d.month) × (period_start_of s d ≡ at d.year (d.month - 1) s))
      ⊎ ((d.day < s) × (d.month ≡ 1) × (period_start_of s d ≡ at (d.year - 1) 12 s))
unfolding period_start_of day_before
start_cases s d v = elim (Bool-cases (leb s d.day)) [
  | inl e ↦ inl (ground arith, rw (e, period_start_of))
  | inr e ↦ elim (Bool-cases (ltb 1 d.month)) [
    | inl f ↦ inr (inl (ground arith, ground arith, rw (e, f, period_start_of, day_before)))
    | inr f ↦
        inr
          (inr (ground arith, ground (arith, v.month_pos), rw (e, f, period_start_of, day_before)))
  ]
]

day_before-late : (y m d : ℕ) → day_before (at y m (suc (suc d))) ≡ at y m (suc d)
unfolding day_before
day_before-late y m d = ground arith

day_before-month : (y m : ℕ) → 1 ≤ m → day_before (at y (m + 1) 1) ≡ at y m (days_in_month y m)
unfolding day_before
day_before-month y m h =
    let e : m + 1 - 1 ≡ m = omega arith in rw (lt→ltb 1 (m + 1) (omega arith), day_before) (rw e)

day_before-year : (y : ℕ) → day_before (at (y + 1) 1 1) ≡ at y 12 31
unfolding day_before
day_before-year y = ground arith

add_one_month-december : (y s : ℕ) → add_one_month (at y 12 s) ≡ at (y + 1) 1 s
unfolding add_one_month
add_one_month-december y s = refl

add_one_month-lt : (y m s : ℕ) → m < 12 → add_one_month (at y m s) ≡ at y (m + 1) s
unfolding add_one_month
add_one_month-lt y m s h = let e : (m == 12) ≡ false = ground arith in rw (e, add_one_month)

end_in_year :
    (y m s : ℕ)
    → 1 ≤ m
    → m < 12
    → period_end_of (at y m (suc s))
      ≡ (if s == 0 then at y m (days_in_month y m) else at y (m + 1) s)
unfolding period_end_of
end_in_year y m zero one lt = rw (add_one_month-lt y m 1 lt) (day_before-month y m one)
end_in_year y m (suc s) one lt =
    rw (add_one_month-lt y m (suc (suc s)) lt, day_before-late y (m + 1) s) (ground arith)

end_in_december :
    (y s : ℕ) → period_end_of (at y 12 (suc s)) ≡ (if s == 0 then at y 12 31 else at (y + 1) 1 s)
unfolding period_end_of
end_in_december y zero = rw (add_one_month-december y 1) (day_before-year y)
end_in_december y (suc s) =
    rw (add_one_month-december y (suc (suc s)), day_before-late (y + 1) 1 s) (ground arith)

-- The last day of the period that starts on day s + 1 of a month.
abbrev last_day : ℕ → ℕ → ℕ → Date
last_day y m s =
    if s == 0
    then at y m (days_in_month y m)
    else if m == 12
    then at (y + 1) 1 s
    else at y (m + 1) s

end_lem : (y m s : ℕ) → 1 ≤ m → m ≤ 12 → period_end_of (at y m (suc s)) ≡ last_day y m s
unfolding days_in_month
end_lem y m s one le = elim (Bool-cases (ltb m 12)) [
  | inl lt ↦ rw (end_in_year y m s one (ltb→lt m 12 lt)) (ground arith)
  | inr ge ↦ let e : m ≡ 12 = ground arith in rw (e, end_in_december y s)
]

holds_at :
    (y m s : ℕ) (d : Date)
    → 1 ≤ m
    → m ≤ 12
    → date_leb (at y m (suc s)) d ≡ true
    → date_leb d (last_day y m s) ≡ true
    → (date_leb (at y m (suc s)) d ≡ true)
      × (date_leb d (period_end_of (at y m (suc s))) ≡ true)
      × (suc s ≡ suc s)
holds_at y m s d one le h k = (h, rw (end_lem y m s one le) k, refl)

-- For a start day of 1 to 28 and a valid date from year 2 on, the period of the date starts on
-- the configured day and the date lies between its first and its last day
pub period_holds :
    (s : ℕ) (d : Date)
    → 1 ≤ s
    → s ≤ 28
    → IsDate d
    → 2 ≤ d.year
    → (date_leb (period_start_of s d) d ≡ true)
      × (date_leb d (period_end_of (period_start_of s d)) ≡ true)
      × ((period_start_of s d).day ≡ s)
period_holds zero d lo hi v y = absurd (omega arith)
period_holds (suc s) d lo hi v y = elim (start_cases (suc s) d v) [
  | inl (c, e) ↦
      rw e (
        holds_at d.year d.month s d v.month_pos v.month_le (ground arith)
          (ground (arith, v.day_le)))
  | inr (inl (c, m, e)) ↦ rw e (
      holds_at d.year (d.month - 1) s d (omega arith) (omega (arith, v.month_le)) (ground arith)
        (ground (arith, v.day_pos, v.month_le)))
  | inr (inr (c, m, e)) ↦ rw e (
      holds_at (d.year - 1) 12 s d (omega arith) (omega arith) (ground arith)
        (ground (arith, v.day_pos)))
]

unique_at :
    (y m s : ℕ) (e : Date)
    → 1 ≤ m
    → m ≤ 12
    → IsDate e
    → date_leb (at y m (suc s)) e ≡ true
    → date_leb e (last_day y m s) ≡ true
    → period_start_of (suc s) e ≡ at y m (suc s)
unique_at y m s e one le w h k = elim (start_cases (suc s) e w) [
  | inl (c, q) ↦ rw q (ground (arith, w.month_pos, w.month_le))
  | inr (inl (c, a, q)) ↦ rw q (ground (arith, w.month_pos, w.month_le))
  | inr (inr (c, a, q)) ↦ rw q (ground (arith, w.month_pos, w.month_le))
]

-- For a start day of 1 to 28, any date between the first and the last day of the period of a date
-- (from year 2 on) has the same period: periods do not overlap
pub period_unique :
    (s : ℕ) (d e : Date)
    → 1 ≤ s
    → s ≤ 28
    → IsDate d
    → IsDate e
    → 2 ≤ d.year
    → date_leb (period_start_of s d) e ≡ true
    → date_leb e (period_end_of (period_start_of s d)) ≡ true
    → period_start_of s e ≡ period_start_of s d
period_unique zero d e lo hi v w y h k = absurd (omega arith)
period_unique (suc s) d e lo hi v w y h k = elim (start_cases (suc s) d v) [
  | inl (_, q) ↦ via d.year d.month v.month_pos v.month_le q
  | inr (inl (_, m, q)) ↦ via d.year (d.month - 1) (omega arith) (omega (arith, v.month_le)) q
  | inr (inr (_, _, q)) ↦ via (d.year - 1) 12 (omega arith) (omega arith) q
]
  where
    via :
        (a b : ℕ)
        → 1 ≤ b
        → b ≤ 12
        → period_start_of (suc s) d ≡ at a b (suc s)
        → period_start_of (suc s) e ≡ period_start_of (suc s) d
    via a b one le q =
        rw q (unique_at a b s e one le w (rw q at h) (rw (← end_lem a b s one le) (rw q at k)))
