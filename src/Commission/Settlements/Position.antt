-- ===== src/Commission/Settlements/Position.antt =====
-- A settlement and the position of each tenant.
use recurring_service_platfo.Session.{Db, lift, raise_when, new_id, bind-ok}
use recurring_service_platfo.Session.Frames.{KeepsBooks, Keeps, lift-ok, lift-same, raise_when-same}
use recurring_service_platfo.Base.{
  ◌==◌, if◌then◌else◌, validation_failed, ok, ℕ, ◌≡◌, ◌∙◌, ◌∷◌, arith,
}
use recurring_service_platfo.Base.Int.{ℤ, pos, ◌+ℤ◌, ◌-ℤ◌, ◌<ℤ◌, int_laws}
use recurring_service_platfo.Core.Date.{Date, date_ltb}
use recurring_service_platfo.Core.Clock.{resolve_date}
use recurring_service_platfo.Core.Money.{PyValue, int_value}
use recurring_service_platfo.Models.{PlatformContext, Entity}
use recurring_service_platfo.Commission.Settlements.{
  RecordSettlementInput, validate_amount_minor, settlement_row, record_settlement,
  commission_position,
}

record_settlement-ok :
    (ctx : PlatformContext) (input : RecordSettlementInput) (operation_id : ℕ) (db db' : Db)
    (e : Entity)
    → record_settlement ctx input operation_id db ≡ ok (e, db')
    → (amount : ℤ) × (day : Date) × (validate_amount_minor input.amount_minor ≡ ok amount)
      × (KeepsBooks db db')
      × (db'.events ≡ db.events)
      × (db'.adjustments ≡ db.adjustments)
      × (db'.settlements ≡ settlement_row ctx input amount day db.next_id ∷ db.settlements)
unfolding record_settlement new_id
record_settlement-ok ctx input operation_id db db' e h =
    let (amount, db₁, e₁, h₁) = bind-ok (lift (validate_amount_minor input.amount_minor)) _ db h in
    let (u, db₂, e₂, h₂) =
      bind-ok (raise_when (date_ltb input.period_end input.period_start) validation_failed) _ db₁
        h₁ in
    let (day, db₃, e₃, h₃) = bind-ok (lift (resolve_date ctx.today input.settled_on)) _ db₂ h₂ in
    let back : db₃ ≡ db =
      lift-same _ db₂ db₃ day e₃
      ∙ raise_when-same _ _ db₁ db₂ u e₂
      ∙ lift-same _ db db₁ amount e₁ in
    (
      amount,
      day,
      lift-ok _ db db₁ amount e₁,
      ground arith,
      ground arith,
      ground arith,
      ground arith,
    )

pub record_settlement-Keeps :
    (ctx : PlatformContext) (input : RecordSettlementInput) (operation_id : ℕ)
    → Keeps (record_settlement ctx input operation_id)
record_settlement-Keeps ctx input operation_id db db' e h =
    let (_, _, _, k, _, _, _) = record_settlement-ok ctx input operation_id db db' e h in k

validate_amount-pos :
    (v : PyValue) (n : ℤ) → validate_amount_minor v ≡ ok n → (v ≡ int_value n) × (pos 0 <ℤ n)
unfolding validate_amount_minor
validate_amount-pos (int_value m) n h = (ground arith, ground arith)
validate_amount-pos _ n h = cc

take_off : (a b s : ℤ) → a -ℤ (b +ℤ s) ≡ a -ℤ s -ℤ b
take_off a b s = omega int_laws

-- A settlement that is accepted is of a positive amount; it lowers the outstanding commission of
-- its own tenant by that amount and leaves what was earned and adjusted, and every other tenant's
-- position, alone
pub record_settlement-position :
    (ctx : PlatformContext) (input : RecordSettlementInput) (operation_id : ℕ) (db db' : Db)
    (e : Entity) (t : ℕ)
    → record_settlement ctx input operation_id db ≡ ok (e, db')
    → (amount : ℤ) × (input.amount_minor ≡ int_value amount)
      × (pos 0 <ℤ amount)
      × ((commission_position t db').earned_minor ≡ (commission_position t db).earned_minor)
      × ((commission_position t db').adjustments_minor
          ≡ (commission_position t db).adjustments_minor)
      × ((commission_position t db').outstanding_minor
          ≡ (commission_position t db).outstanding_minor
            -ℤ (if ctx.tenant_id == t then amount else pos 0))
unfolding commission_position
record_settlement-position ctx input operation_id db db' e t h =
    let (amount, day, valid, _, same_events, same_adjustments, settlements) =
      record_settlement-ok ctx input operation_id db db' e h in
    let (is_int, positive) = validate_amount-pos input.amount_minor amount valid in
    (
      amount,
      is_int,
      positive,
      rw same_events,
      rw same_adjustments,
      rw (same_events, same_adjustments, settlements) (take_off _ _ _),
    )
