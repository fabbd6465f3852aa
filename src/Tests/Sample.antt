-- ===== src/Tests/Sample.antt =====
-- The sample tables and inputs of the runs.
use recurring_service_platfo.Reminders.Schedule.{statement, reminder, final, object_entry}
use recurring_service_platfo.Service.Inputs.{
  RecordServiceInput, CorrectServiceInput, VoidServiceInput,
}
use recurring_service_platfo.Session.{Db, after}
use recurring_service_platfo.Base.{
  Result, ok, err, ℕ, ◌≡◌, refl, Bool, true, false, none, some, [], ◌∷◌,
}
use recurring_service_platfo.Base.Int.{pos}
use recurring_service_platfo.Core.Date.{Date}
use recurring_service_platfo.Core.Text.{codes}
use recurring_service_platfo.Core.Money.{finite, int_value, decimal_value}
use recurring_service_platfo.Models.{
  TenantContext, Customer, service, online, sync, button, Tenant, AppUser, cash, recorded_value,
  CommissionPlan, PlatformContext, Entity, commission_plan_entity,
}
use recurring_service_platfo.Payments.Commands.{RecordPaymentInput, VoidPaymentInput}
use recurring_service_platfo.Commission.Settlements.{RecordSettlementInput}

abbrev pub day_of : ℕ → ℕ → ℕ → Date
day_of y m d = record { year = y; month = m; day = d }

abbrev pub ctx : TenantContext
ctx = record {
  tenant_id = 1;
  user_id = 7;
  now = 100;
  today = day_of 2024 3 15;
  unit_label = codes "litre";
  currency = codes "PKR";
  currency_exponent = 2;
  is_monthly = true;
  cycle_start_day = 1;
}

abbrev pub platform : PlatformContext
platform = record { tenant_id = 1; user_id = 3; today = day_of 2024 3 15; currency = codes "PKR" }

abbrev pub customer : Customer
customer = record {
  id = 5;
  tenant_id = 1;
  name = codes "Ayesha";
  normalized_name = codes "ayesha";
  code = codes "A1";
  phone_e164 = none;
  whatsapp_e164 = some (codes "+923001234567");
  address = none;
  area = none;
  default_quantity = 1000;
  unit_price_minor = pos 25000;
  is_active = true;
  row_version = 1;
}

abbrev pub plan : CommissionPlan
plan = record {
  id = 2;
  tenant_id = 1;
  basis = recorded_value;
  rate_bp = some (pos 250);
  fixed_amount_minor = none;
  currency = codes "PKR";
  effective_from = day_of 2024 1 1;
  effective_to = none;
  created_by_user_id = 3;
}

-- Statement on day 1, reminder on day 8, final notice on day 15.
abbrev pub tenant : Tenant
tenant = record {
  id = 1;
  is_active = true;
  currency = codes "PKR";
  currency_exponent = 2;
  row_version = 1;
  reminder_schedule = some (
      object_entry (int_value (pos 1)) statement
      ∷ object_entry (int_value (pos 15)) final
      ∷ object_entry (int_value (pos 8)) reminder
      ∷ []);
}

abbrev pub owner : AppUser
owner = record {
  id = 7;
  tenant_id = some 1;
  is_owner_admin = true;
  is_active = true;
  email = codes "o@x.pk";
  created_at = 1;
}

abbrev pub blank_db : Db
blank_db = record {
  customers = customer ∷ [];
  records = [];
  payments = [];
  cycles = [];
  ledger = [];
  statements = [];
  plans = plan ∷ [];
  events = [];
  adjustments = [];
  settlements = [];
  audit_events = [];
  operations = [];
  aliases = [];
  reminders = [];
  communication_log = [];
  job_runs = [];
  tenants = tenant ∷ [];
  users = owner ∷ [];
  next_id = 10;
  row_version = 1;
}

-- 1.5 units.
abbrev pub record_input : RecordServiceInput
record_input = record {
  customer_id = 5;
  kind = service;
  quantity = some (decimal_value (finite (pos 15) 1));
  service_date = none;
  input_method = button;
  source = online;
}

-- 2 units after all.
abbrev pub correct_input : CorrectServiceInput
correct_input = record {
  quantity = some (int_value (pos 2));
  reason = some (codes "short");
  kind = service;
  input_method = button;
  source = online;
}

abbrev pub void_input : VoidServiceInput
void_input = record { reason = some (codes "wrong day"); source = online }

abbrev pub payment_input : RecordPaymentInput
payment_input = record {
  customer_id = 5;
  amount_minor = int_value (pos 60000);
  method = cash;
  received_on = some (day_of 2024 3 14);
  reference = none;
  note = none;
  source = sync;
}

abbrev pub void_payment_input : VoidPaymentInput
void_payment_input = record { reason = some (codes "bounced"); source = online }

abbrev pub settlement_input : RecordSettlementInput
settlement_input = record {
  period_start = day_of 2024 3 1;
  period_end = day_of 2024 3 10;
  amount_minor = int_value (pos 900);
  settled_on = none;
  reference = none;
  note = none;
}

abbrev pub is_ok : {A : Type 0} → Result A → Bool
is_ok (ok a) = true
is_ok (err e) = false

abbrev pub entity_or : Entity → Result (Entity × Db) → Entity
entity_or e (ok r) = r.0
entity_or e (err _) = e

abbrev pub no_entity : Entity
no_entity = commission_plan_entity plan

-- What a command that succeeds has returned.
pub is_ok-done :
    (db : Db) (r : Result (Entity × Db))
    → is_ok r ≡ true
    → r ≡ ok (entity_or no_entity r, after db r)
is_ok-done db (ok r) h = refl
is_ok-done db (err e) h = cc

abbrev pub value_or : {A : Type 0} → A → Result (A × Db) → A
value_or a (ok r) = r.0
value_or a (err _) = a

pub value_or-done :
    {A : Type 0} (a : A) (db : Db) (r : Result (A × Db))
    → is_ok r ≡ true
    → r ≡ ok (value_or a r, after db r)
value_or-done a db (ok r) h = refl
value_or-done a db (err e) h = cc
