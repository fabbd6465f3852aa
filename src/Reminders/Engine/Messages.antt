-- ===== src/Reminders/Engine/Messages.antt =====
-- backend/app/reminders/engine.py and ports/comms.py: whom a message reaches, and what it says.
use recurring_service_platfo.Session.{Db, Action, ◌>>=◌, pure, lift}
use recurring_service_platfo.Base.{
  ltb, ◌==◌, if◌then◌else◌, key_error, Result, ok, err, ℕ, Bool, true, false, not, ◌&&◌, ◌||◌,
  Option, none, some, List, [], ◌∷◌, ◌++◌,
}
use recurring_service_platfo.Base.Int.{ℤ}
use recurring_service_platfo.Core.Date.{Date}
use recurring_service_platfo.Core.Text.{Text, codes, is_empty}
use recurring_service_platfo.Core.Money.Format.{decimal, padded, format_minor}
use recurring_service_platfo.Models.{
  Customer, ReminderKind, of_stage, owner_alert, is_owner_alert, Reminder, Channel, whatsapp, sms,
  email, DeliveryState, delivery_failed, MessageParams, AppUser, ReminderContext, Statement,
}
use recurring_service_platfo.Reminders.Schedule.{statement, reminder, final, other_kind}
use recurring_service_platfo.Reminders.Engine.Stages.{ReminderCycle}

-- The `reference`, which decides nothing, is left out.
pub record OutboundMessage : Type 0 where
  pub tenant_id : ℕ
  pub customer_id : ℕ
  pub channel : Channel
  pub to : Text
  pub template_key : Text
  pub params : MessageParams
  pub idempotency_key : ℕ

pub record DeliveryReceipt : Type 0 where
  pub state : DeliveryState
  pub provider_message_id : Option Text
  pub error : Option Text

-- A provider returns a receipt, or raises.
pub data Answer : Type 0 where
  receipt : DeliveryReceipt → Answer
  raised : Text → Answer

-- What a provider answers may differ at every call, which the id of the attempt's log row tells
-- apart.
pub record Provider : Type 0 where
  pub name : Text
  pub send : ℕ → OutboundMessage → Answer

-- `except Exception`: an outage is a delivery fact.
abbrev pub receipt_of : Answer → DeliveryReceipt
receipt_of (receipt r) = r
receipt_of (raised e) = record {
  state = delivery_failed;
  provider_message_id = none;
  error = some e;
}

abbrev pub present : Option Text → Bool
present none = false
present (some t) = not (is_empty t)

abbrev pub on_channel : Channel → Option Text → Option (Channel × Text)
on_channel c none = none
on_channel c (some t) = some (c, t)

unfoldable pub customer_destination : Customer → Option (Channel × Text)
customer_destination c =
    if present c.whatsapp_e164
    then on_channel whatsapp c.whatsapp_e164
    else if present c.phone_e164
    then on_channel sms c.phone_e164
    else none

abbrev pub is_tenant : ℕ → Option ℕ → Bool
is_tenant tenant none = false
is_tenant tenant (some t) = t == tenant

abbrev pub is_owner_of : ℕ → AppUser → Bool
is_owner_of tenant u = is_tenant tenant u.tenant_id && (u.is_owner_admin && u.is_active)

-- `order_by(created_at, id).limit(1)`.
abbrev pub earlier_of : AppUser → Option AppUser → Option AppUser
earlier_of u none = some u
earlier_of u (some v) =
    if ltb v.created_at u.created_at || (v.created_at == u.created_at && ltb v.id u.id)
    then some v
    else some u

abbrev pub first_owner : ℕ → List AppUser → Option AppUser
first_owner tenant [] = none
first_owner tenant (u ∷ us) =
    let rest = first_owner tenant us in if is_owner_of tenant u then earlier_of u rest else rest

abbrev pub email_of : Option AppUser → Option (Channel × Text)
email_of none = none
email_of (some u) = if is_empty u.email then none else some (email, u.email)

unfoldable pub owner_destination : ℕ → Db → Option (Channel × Text)
owner_destination tenant db = email_of (first_owner tenant db.users)

abbrev pub destination_for : ReminderContext → Reminder → Customer → Db → Option (Channel × Text)
destination_for ctx r customer db =
    if is_owner_alert r.kind
    then owner_destination ctx.tenant_id db
    else customer_destination customer

-- `date.isoformat`.
unfoldable pub iso_date : Date → Text
iso_date d = padded 4 d.year ++ b'-' ∷ (padded 2 d.month ++ b'-' ∷ padded 2 d.day)

abbrev pub is_statement_kind : ReminderKind → Bool
is_statement_kind (of_stage statement) = true
is_statement_kind (of_stage reminder) = false
is_statement_kind (of_stage final) = false
is_statement_kind (of_stage other_kind) = false
is_statement_kind owner_alert = false

abbrev pub some_text : Result Text → Result (Option Text)
some_text (ok t) = ok (some t)
some_text (err e) = err e

abbrev pub total_text : Bool → ReminderContext → Statement → Result (Option Text)
total_text false ctx s = ok none
total_text true ctx s =
    some_text (format_minor s.closing_balance_minor s.currency ctx.currency_exponent)

abbrev pub params_of :
    ReminderContext → Customer → ReminderCycle → Reminder → Text → Option Text → MessageParams
params_of ctx customer cycle r amount total = record {
  customer_name = customer.name;
  customer_code = customer.code;
  amount_due = amount;
  currency = ctx.currency;
  period_start = iso_date cycle.period_start;
  period_end = iso_date cycle.period_end;
  business_date = iso_date ctx.today;
  stage = decimal r.schedule_day;
  statement_total = total;
}

-- REM-7: the provider gets texts, and no amount to format.
unfoldable pub render_params :
    ReminderContext → Customer → ReminderCycle → Reminder → ℤ → Action MessageParams
render_params ctx customer cycle r outstanding = do
  amount ← lift (format_minor outstanding ctx.currency ctx.currency_exponent)
  total ← lift (total_text (is_statement_kind r.kind) ctx cycle.statement)
  pure (params_of ctx customer cycle r amount total)

unfoldable pub template_for : ReminderKind → Result Text
template_for (of_stage statement) = ok (codes "statement.issued")
template_for (of_stage reminder) = ok (codes "payment.reminder")
template_for (of_stage final) = ok (codes "payment.reminder.final")
template_for (of_stage other_kind) = err key_error
template_for owner_alert = ok (codes "owner.final_alert")
