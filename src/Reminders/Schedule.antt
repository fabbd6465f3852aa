-- ===== src/Reminders/Schedule.antt =====
-- backend/app/reminders/schedule.py: the reminder schedule, and what is due on a day.
pub mod Due
pub mod Loading
use recurring_service_platfo.Base.{
  ltb, leb, ◌==◌, if◌then◌else◌, filter, find, any, validation_failed, Result, ok, err, ◌>>=◌, ◌>>◌,
  raise_if, ℕ, ◌-◌, ◌/◌, ap, Bool, true, false, not, ◌&&◌, Option, none, some, List, [], ◌∷◌,
}
use recurring_service_platfo.Base.Int.{pos}
use recurring_service_platfo.Core.Money.{PyValue, int_value}

-- `other_kind` is any other value.
pub data StageKind : Type 0 where
  statement reminder final other_kind : StageKind

abbrev pub in_schedule_kinds : StageKind → Bool
in_schedule_kinds other_kind = false
in_schedule_kinds _ = true

abbrev pub is_final_kind : StageKind → Bool
is_final_kind final = true
is_final_kind _ = false

pub record Stage : Type 0 where
  pub day : ℕ
  pub kind : StageKind

abbrev pub is_final : Stage → Bool
is_final s = is_final_kind s.kind

-- One element of the JSON column: an object, with what `get` finds in it, or anything else.
pub data RawEntry : Type 0 where
  object_entry : PyValue → StageKind → RawEntry
  other_entry : RawEntry

-- `isinstance(day, int)` and not a bool, within 1..28.
abbrev pub valid_day : PyValue → Result ℕ
valid_day (int_value (pos n)) = if leb 1 n && leb n 28 then ok n else err validation_failed
valid_day _ = err validation_failed

unfoldable pub load_entry : List ℕ → RawEntry → Result Stage
load_entry seen_days other_entry = err validation_failed
load_entry seen_days (object_entry day kind) = do
  d ← valid_day day
  raise_if (not (in_schedule_kinds kind)) validation_failed
  raise_if (any (λ s. d == s) seen_days) validation_failed
  ok (record { day = d; kind = kind })

unfoldable pub load_entries : List ℕ → List RawEntry → Result (List Stage)
load_entries seen_days [] = ok []
load_entries seen_days (e ∷ es) = do
  stage ← load_entry seen_days e
  stages ← load_entries (stage.day ∷ seen_days) es
  ok (stage ∷ stages)

-- `sorted(stages, key=day)`, which is stable.
unfoldable pub insert_stage : Stage → List Stage → List Stage
insert_stage s [] = s ∷ []
insert_stage s (t ∷ ts) = if leb s.day t.day then s ∷ t ∷ ts else t ∷ insert_stage s ts

unfoldable pub sort_stages : List Stage → List Stage
sort_stages [] = []
sort_stages (s ∷ ss) = insert_stage s (sort_stages ss)

abbrev pub last_day : List Stage → ℕ
last_day [] = 0
last_day (s ∷ []) = s.day
last_day (s ∷ t ∷ ts) = last_day (t ∷ ts)

-- At most one FINAL stage, and it is the last.
abbrev pub check_finals : List Stage → List Stage → Result (List Stage)
check_finals [] ordered = ok ordered
check_finals (f ∷ []) ordered =
    if f.day == last_day ordered then ok ordered else err validation_failed
check_finals (f ∷ g ∷ gs) ordered = err validation_failed

abbrev pub nonempty : List RawEntry → Bool
nonempty [] = false
nonempty (_ ∷ _) = true

-- A column that is no list is refused like an empty one.
unfoldable pub load_schedule : Option (List RawEntry) → Result (List Stage)
load_schedule none = err validation_failed
load_schedule (some raw) = do
  raise_if (not (nonempty raw)) validation_failed
  stages ← load_entries [] raw
  check_finals (filter is_final (sort_stages stages)) (sort_stages stages)

abbrev pub is_later : Stage → Option Stage → Bool
is_later s none = true
is_later s (some t) = ltb t.day s.day

abbrev pub is_earlier : Stage → Option Stage → Bool
is_earlier s none = true
is_earlier s (some t) = ltb s.day t.day

-- The loop of `due_stage` from a stage `latest` on.
unfoldable pub due_loop : Option Stage → List Stage → ℕ → Option Stage
due_loop latest [] day_of_month = latest
due_loop latest (s ∷ ss) day_of_month =
    due_loop (if leb s.day day_of_month && is_later s latest then some s else latest) ss
      day_of_month

-- REM-8: the highest stage on or before the day.
unfoldable pub due_stage : List Stage → ℕ → Option Stage
due_stage schedule day_of_month = due_loop none schedule day_of_month

unfoldable pub stage_on_day : List Stage → ℕ → Option Stage
stage_on_day schedule day = find (λ s. s.day == day) schedule

unfoldable pub next_loop : Option Stage → List Stage → ℕ → Option Stage
next_loop upcoming [] day = upcoming
next_loop upcoming (s ∷ ss) day =
    next_loop (if ltb day s.day && is_earlier s upcoming then some s else upcoming) ss day

unfoldable pub next_stage_after : List Stage → ℕ → Option Stage
next_stage_after schedule day = next_loop none schedule day
