-- ===== src/Commission/Settlements.antt =====
-- backend/app/commission/settlements.py and reporting.py: money paid over, and the position.
pub mod Position
use recurring_service_platfo.Session.{
  Db, Action, ◌>>=◌, ◌>>◌, pure, raise, lift, raise_when, modify, new_id,
}
use recurring_service_platfo.Base.{
  ltb, leb, ◌==◌, if◌then◌else◌, validation_failed, Result, ok, err, ℕ, zero, ◌+◌, ◌-◌, ◌/◌, ap,
  not, Option, none, some, ◌∷◌,
}
use recurring_service_platfo.Base.Int.{ℤ, pos, ◌+ℤ◌, ◌-ℤ◌, leb_ℤ}
use recurring_service_platfo.Base.Sums.{sum_where}
use recurring_service_platfo.Core.Clock.{resolve_date}
use recurring_service_platfo.Core.Date.{Date, date_ltb}
use recurring_service_platfo.Core.Text.{Text}
use recurring_service_platfo.Core.Money.{PyValue, int_value}
use recurring_service_platfo.Models.{
  recorded, Payment, adjustment, CommissionSettlement, PlatformContext, Entity,
  commission_settlement_entity, commission_settlement_recorded, audit_platform, platform_scope,
}
use recurring_service_platfo.Session.Tables.{record_audit_event}

pub record RecordSettlementInput : Type 0 where
  pub period_start : Date
  pub period_end : Date
  pub amount_minor : PyValue
  pub settled_on : Option Date
  pub reference : Option Text
  pub note : Option Text

-- PAY-3: an int, and greater than zero. Payments and settlements check alike.
unfoldable pub validate_amount_minor : PyValue → Result ℤ
validate_amount_minor (int_value n) = if leb_ℤ n (pos 0) then err validation_failed else ok n
validate_amount_minor _ = err validation_failed

abbrev pub settlement_row :
    PlatformContext → RecordSettlementInput → ℤ → Date → ℕ → CommissionSettlement
settlement_row ctx input amount settled_on id = record {
  id = id;
  tenant_id = ctx.tenant_id;
  period_start = input.period_start;
  period_end = input.period_end;
  amount_minor = amount;
  settled_on = settled_on;
  reference = input.reference;
  note = input.note;
  created_by_user_id = ctx.user_id;
}

unfoldable pub record_settlement : PlatformContext → RecordSettlementInput → ℕ → Action Entity
record_settlement ctx input operation_id = do
  amount ← lift (validate_amount_minor input.amount_minor)
  raise_when (date_ltb input.period_end input.period_start) validation_failed
  settled_on ← lift (resolve_date ctx.today input.settled_on)
  id ← new_id
  let settlement = settlement_row ctx input amount settled_on id
  modify (λ db. record db { settlements = settlement ∷ db.settlements })
  record_audit_event (record {
    tenant_id = ctx.tenant_id;
    actor_user_id = some ctx.user_id;
    actor_scope = platform_scope;
    action = commission_settlement_recorded;
    entity_id = id;
    before = none;
    after = some (commission_settlement_entity settlement);
    reason = none;
    operation_id = some operation_id;
    audit_source = audit_platform;
  })
  pure (commission_settlement_entity settlement)

pub record CommissionPosition : Type 0 where
  pub earned_minor : ℤ
  pub adjustments_minor : ℤ
  pub settled_minor : ℤ
  pub outstanding_minor : ℤ

abbrev pub earned : ℕ → Db → ℤ
earned tenant db = sum_where (λ e. e.tenant_id == tenant) (λ e. e.commission_minor) db.events

abbrev pub adjusted : ℕ → Db → ℤ
adjusted tenant db = sum_where (λ a. a.tenant_id == tenant) (λ a. a.amount_minor) db.adjustments

abbrev pub settled : ℕ → Db → ℤ
settled tenant db = sum_where (λ s. s.tenant_id == tenant) (λ s. s.amount_minor) db.settlements

unfoldable pub commission_position : ℕ → Db → CommissionPosition
commission_position tenant db = record {
  earned_minor = earned tenant db;
  adjustments_minor = adjusted tenant db;
  settled_minor = settled tenant db;
  outstanding_minor = earned tenant db +ℤ adjusted tenant db -ℤ settled tenant db;
}
