-- ===== src/Tests/Lookups.antt =====
-- Plans in force and typed phone numbers.

use recurring_service_platfo.Session.{Db, new_id, after}
use recurring_service_platfo.Base.{
  leb, if◌then◌else◌, Result, ℕ, ◌-◌, ◌≤◌, ◌≡◌, refl, Bool, true, false, ◌&&◌, Option, none, some,
  arith,
}
use recurring_service_platfo.Base.Int.{pos}
use recurring_service_platfo.Core.Date.{days_in_month, day_before}
use recurring_service_platfo.Core.Text.{Text, codes}
use recurring_service_platfo.Core.Money.{int_value, validate_rate_bp}
use recurring_service_platfo.Models.{collected_value, Entity}
use mathlib.Core.List.Memᴰ.{head}
use recurring_service_platfo.Commission.Plans.{
  effective_plan, CreatePlanInput, validate_terms, close_predecessor, insert_plan, create_plan,
}
use recurring_service_platfo.Commission.Plans.Overlap.{Disjoint, effective_plan_unique}
use recurring_service_platfo.Commission.Plans.Creating.{create_plan-Disjoint}
use recurring_service_platfo.Search.Phone.{take, drop, digits_of, normalize_phone, phone_suffix}
use recurring_service_platfo.Tests.Sample.{
  day_of, platform, plan, blank_db, is_ok, entity_or, no_entity, is_ok-done,
}

effective_plan_unique_example : effective_plan 1 (day_of 2024 3 15) blank_db ≡ some plan
effective_plan_unique_example =
    effective_plan_unique 1 (day_of 2024 3 15) plan blank_db (refl, tt) (head refl) refl

abbrev plan_input : CreatePlanInput
plan_input = record {
  basis = collected_value;
  effective_from = day_of 2024 4 1;
  rate_bp = some (int_value (pos 300));
  fixed_amount_minor = none;
  currency = some (codes "pkr");
  effective_to = none;
}

abbrev plan_run : Result (Entity × Db)
plan_run = create_plan platform plan_input 906 blank_db

plan_ok : is_ok plan_run ≡ true
unfolding create_plan validate_terms validate_rate_bp close_predecessor day_before days_in_month
    new_id insert_plan
plan_ok = refl

create_plan-Disjoint_example : Disjoint (after blank_db plan_run).plans
create_plan-Disjoint_example =
    create_plan-Disjoint platform plan_input 906 blank_db (after blank_db plan_run)
      (entity_or no_entity plan_run) (refl, tt) (refl, tt) (is_ok-done blank_db plan_run plan_ok)

-- The digits of ASCII.
abbrev ascii_digit : ℕ → Option ℕ
ascii_digit c = if leb 48 c && leb c 57 then some (c - 48) else none

abbrev no_letter : ℕ → Bool
no_letter c = false

ascii_digit-le : (c d : ℕ) → ascii_digit c ≡ some d → d ≤ 9
ascii_digit-le c d h = ground arith

abbrev typed : Option Text
typed = some (codes "0300-1234567")

-- The national and the international form have one suffix.
suffixes_agree :
    phone_suffix ascii_digit typed ≡ phone_suffix ascii_digit (some (codes "+92 300 1234567"))
unfolding phone_suffix normalize_phone digits_of take drop
suffixes_agree = refl
