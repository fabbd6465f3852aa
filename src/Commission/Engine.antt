-- ===== src/Commission/Engine.antt =====
-- backend/app/commission/engine.py: which accepted business facts earn.
pub mod Chain
pub mod Following
use recurring_service_platfo.Commission.Events.{
  adjustment_minor_for, find_event, chain_event, create_event, create_adjustment,
}
pub mod Frame
pub mod Amounts
use recurring_service_platfo.Session.{Action, ◌>>=◌, ◌>>◌, pure, lift, gets}
use recurring_service_platfo.Base.{
  find, ℕ, ◌+◌, ◌-◌, ◌/◌, ap, Bool, true, false, not, Option, none, some,
}
use recurring_service_platfo.Base.Int.{ℤ, ◌+ℤ◌, ◌-ℤ◌, neg}
use recurring_service_platfo.Core.Text.{Text}
use recurring_service_platfo.Models.{
  TenantContext, ServiceKind, service, is_service, voided, DailyServiceRecord, recorded,
  payment_voided, Payment, charge, payment, adjustment, BillingCycle, Statement, CommissionBasis,
  recorded_value, billed_value, collected_value, per_event, by_service_record, by_payment,
  by_statement, CommissionPlan, CommissionEvent, service_recorded, service_corrected,
  payment_recorded,
}
use recurring_service_platfo.Commission.Plans.{effective_plan}

abbrev pub earns_on_service : CommissionBasis → Bool
earns_on_service recorded_value = true
earns_on_service per_event = true
earns_on_service _ = false

abbrev pub earns_on_payment : CommissionBasis → Bool
earns_on_payment collected_value = true
earns_on_payment _ = false

abbrev pub earns_on_statement : CommissionBasis → Bool
earns_on_statement billed_value = true
earns_on_statement _ = false

-- The plan in force on the fact's business date, if its basis reads this kind of fact.
abbrev pub if_earning :
    (CommissionBasis → Bool)
    → Option CommissionPlan
    → (CommissionPlan → Action (Option CommissionEvent))
    → Action (Option CommissionEvent)
if_earning earns none k = pure none
if_earning earns (some plan) k = elim (earns plan.basis) [ true ↦ k plan | false ↦ pure none ]

abbrev pub when_service :
    ServiceKind → Action (Option CommissionEvent) → Action (Option CommissionEvent)
when_service service m = m
when_service _ m = pure none

unfoldable pub on_service_recorded :
    TenantContext → DailyServiceRecord → Action (Option CommissionEvent)
on_service_recorded ctx r = when_service r.kind (do
  plan ← gets (effective_plan ctx.tenant_id r.service_date)
  if_earning earns_on_service plan
      (λ p. create_event ctx p by_service_record r.id r.charge_minor r.service_date))

abbrev pub adjust_service :
    TenantContext → Text → ℕ → ℤ → Bool → CommissionEvent → Action (Unit {0})
adjust_service ctx reason id base_delta still event = do
  amount ← lift (adjustment_minor_for event base_delta still)
  create_adjustment ctx event amount reason by_service_record id
  pure tt

abbrev pub correct_chain :
    TenantContext
    → DailyServiceRecord
    → DailyServiceRecord
    → Text
    → Option CommissionEvent
    → Action (Unit {0})
correct_chain ctx original replacement reason none = on_service_recorded ctx replacement >> pure tt
correct_chain ctx original replacement reason (some event) =
    adjust_service ctx reason original.id (replacement.charge_minor -ℤ original.charge_minor)
      (is_service replacement.kind) event

-- A chain that earned is adjusted by the difference; one that never earned may earn now.
unfoldable pub on_service_corrected :
    TenantContext → DailyServiceRecord → DailyServiceRecord → Text → Action (Unit {0})
on_service_corrected ctx original replacement reason = do
  event ← gets (chain_event ctx.tenant_id original)
  correct_chain ctx original replacement reason event

abbrev pub void_chain :
    TenantContext → DailyServiceRecord → Text → Option CommissionEvent → Action (Unit {0})
void_chain ctx r reason none = pure tt
void_chain ctx r reason (some event) =
    adjust_service ctx reason r.id (neg r.charge_minor) false event

unfoldable pub on_service_voided : TenantContext → DailyServiceRecord → Text → Action (Unit {0})
on_service_voided ctx r reason = do
  event ← gets (chain_event ctx.tenant_id r)
  void_chain ctx r reason event

unfoldable pub on_payment_recorded : TenantContext → Payment → Action (Option CommissionEvent)
on_payment_recorded ctx p = do
  plan ← gets (effective_plan ctx.tenant_id p.received_on)
  if_earning earns_on_payment plan
      (λ q. create_event ctx q by_payment p.id p.amount_minor p.received_on)

abbrev pub void_payment_event :
    TenantContext → Payment → Text → Option CommissionEvent → Action (Unit {0})
void_payment_event ctx p reason none = pure tt
void_payment_event ctx p reason (some event) = do
  amount ← lift (adjustment_minor_for event (neg p.amount_minor) false)
  create_adjustment ctx event amount reason by_payment p.id
  pure tt

unfoldable pub on_payment_voided : TenantContext → Payment → Text → Action (Unit {0})
on_payment_voided ctx p reason = do
  event ← gets (find_event ctx.tenant_id by_payment p.id)
  void_payment_event ctx p reason event

-- FIN-15 is the base; a payment reversed in the cycle is not in it.
unfoldable pub on_statement_issued :
    TenantContext → Statement → BillingCycle → Action (Option CommissionEvent)
on_statement_issued ctx s cycle = do
  plan ← gets (effective_plan ctx.tenant_id cycle.period_end)
  if_earning earns_on_statement plan (λ q.
      create_event ctx q by_statement s.id (s.charges_minor +ℤ s.service_adjustments_minor)
        cycle.period_end)
