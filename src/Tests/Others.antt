-- ===== src/Tests/Others.antt =====
-- Operations, the reminder schedule, capabilities, dates and reasons.

use recurring_service_platfo.Commission.Events.{mem, chain_ids}
use recurring_service_platfo.Session.{Db, Action}
use recurring_service_platfo.Base.{
  All, ok, ◌+◌, ◌≡◌, refl, ◌≢◌, ◌↔◌, true, false, Option, none, some, List, [], ◌∷◌,
}
use recurring_service_platfo.Base.Int.{pos}
use recurring_service_platfo.Core.Date.{date_ltb}
use recurring_service_platfo.Core.Clock.{validate_business_date, resolve_date, resolve_date-le}
use recurring_service_platfo.Core.Text.{codes, is_space, lstrip, rstrip, strip, require_reason}
use recurring_service_platfo.Core.Money.{int_value}
use recurring_service_platfo.Models.{service, active, online, button, DailyServiceRecord, Entity}
use recurring_service_platfo.Commission.Engine.Following.{LeadsTo, chain_ids-iff}
use recurring_service_platfo.Sync.Idempotency.{
  applied, OperationOutcome, load_register_row, register_row, fill_register, perform_claimed,
  execute_idempotent,
}
use recurring_service_platfo.Reminders.Schedule.{
  statement, reminder, final, Stage, RawEntry, object_entry, load_entry, load_entries, insert_stage,
  sort_stages, load_schedule, due_stage,
}
use recurring_service_platfo.Reminders.Schedule.Due.{IsDue, due_stage-IsDue}
use recurring_service_platfo.Reminders.Schedule.Loading.{
  Ascending, IsStage, FinalLast, load_schedule_sound,
}
use recurring_service_platfo.Identity.Capabilities.{
  operator, other_role, cost_read, require, require-operator,
}
use recurring_service_platfo.Tests.Sample.{day_of, blank_db, no_entity}

-- An effect: one more id is taken.
abbrev take_id : Action Entity
take_id db = ok (no_entity, record db { next_id = db.next_id + 1 })

abbrev quiet : Db → Db
quiet db = db

abbrev first_outcome : OperationOutcome
first_outcome = record { status = applied; result = some no_entity; entity_id = some 2 }

abbrev applied_db : Db
applied_db = record blank_db {
  operations = fill_register no_entity (register_row 1 7 900 77) ∷ [];
  next_id = 11;
}

first_run : execute_idempotent quiet 1 7 900 77 take_id blank_db ≡ ok (first_outcome, applied_db)
unfolding execute_idempotent load_register_row perform_claimed
first_run = refl

abbrev stages : List Stage
stages =
    record { day = 1; kind = statement }
    ∷ record { day = 8; kind = reminder }
    ∷ record { day = 15; kind = final }
    ∷ []

due_stage-IsDue_example : IsDue stages 9 (due_stage stages 9)
due_stage-IsDue_example = due_stage-IsDue stages 9

abbrev column : Option (List RawEntry)
column = some (
    object_entry (int_value (pos 15)) final
    ∷ object_entry (int_value (pos 1)) statement
    ∷ object_entry (int_value (pos 8)) reminder
    ∷ [])

loaded : load_schedule column ≡ ok stages
unfolding load_schedule load_entries load_entry sort_stages insert_stage
loaded = refl

load_schedule_sound_example : Ascending stages × All IsStage stages × FinalLast stages
load_schedule_sound_example = load_schedule_sound column stages loaded

require-operator_example :
    (require operator cost_read ≢ ok tt) × (require other_role cost_read ≢ ok tt)
require-operator_example = require-operator cost_read

resolve_date-le_example : date_ltb (day_of 2024 3 15) (day_of 2024 3 14) ≡ false
unfolding resolve_date validate_business_date
resolve_date-le_example =
    resolve_date-le (day_of 2024 3 15) (some (day_of 2024 3 14)) (day_of 2024 3 14) refl

reason_given : require_reason (some (codes " late ")) ≡ ok (codes "late")
unfolding require_reason strip lstrip rstrip is_space
reason_given = refl

-- A row that corrects itself.
abbrev looped : DailyServiceRecord
looped = record {
  id = 4;
  tenant_id = 1;
  customer_id = 5;
  service_date = day_of 2024 3 2;
  quantity = 1000;
  unit_price_minor = pos 25000;
  unit_label = codes "litre";
  charge_minor = pos 25000;
  kind = service;
  status = active;
  corrects_id = some 4;
  superseded_by_id = none;
  adjustment_minor = none;
  reason = none;
  recorded_by_user_id = 7;
  operation_id = 900;
  source = online;
  input_method = button;
  row_version = 2;
}

abbrev looped_db : Db
looped_db = record blank_db { records = looped ∷ [] }

chain_ids-iff_example :
    (mem 9 (chain_ids 1 looped looped_db) ≡ true) ↔ LeadsTo 1 looped_db.records 9 (some 4)
chain_ids-iff_example = chain_ids-iff 1 looped looped_db 9 refl
