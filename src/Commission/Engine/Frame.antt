-- ===== src/Commission/Engine/Frame.antt =====
-- Commission never touches the accepted business or the ledger.
use recurring_service_platfo.Base.Int.{ℤ, ◌+ℤ◌}
use recurring_service_platfo.Commission.Events.{
  find_event, append_event, unless_found, create_event, is_adjustment_of, append_adjustment,
  adjustment_of, create_adjustment,
}
use recurring_service_platfo.Session.{Action, gets}
use recurring_service_platfo.Base.{Bool-cases, find, ℕ, inl, inr, Bool, Option, none, some, arith}
use recurring_service_platfo.Core.Date.{Date}
use recurring_service_platfo.Core.Text.{Text}
use recurring_service_platfo.Models.{
  TenantContext, ServiceKind, service, skip, unknown_kind, DailyServiceRecord, Payment,
  BillingCycle, Statement, CommissionBasis, CommissionSourceType, by_service_record, by_payment,
  by_statement, CommissionPlan, CommissionEvent, CommissionAdjustment,
}
use recurring_service_platfo.Session.Frames.{
  Keeps, Keeps-bind, Keeps-pure, Keeps-lift, Keeps-gets, Keeps-new_id,
}
use recurring_service_platfo.Commission.Engine.{
  earns_on_service, earns_on_payment, earns_on_statement, if_earning, when_service,
  on_service_recorded, adjust_service, correct_chain, on_service_corrected, void_chain,
  on_service_voided, on_payment_recorded, void_payment_event, on_payment_voided,
  on_statement_issued,
}

append_event-Keeps :
    (ctx : TenantContext) (plan : CommissionPlan) (source : CommissionSourceType) (id : ℕ)
    (base : ℤ) (on : Date)
    → Keeps (append_event ctx plan source id base on)
unfolding append_event
append_event-Keeps ctx plan source id base on =
    Keeps-bind _ _ (Keeps-lift _)
      (λ fee. Keeps-bind _ _ Keeps-new_id (λ event_id. λ db db' a h. ground arith))

append_adjustment-Keeps : (a : CommissionAdjustment) → Keeps (append_adjustment a)
unfolding append_adjustment
append_adjustment-Keeps a db db' o h = ground arith

unless_found-Keeps :
    {A B : Type 0} (o : Option A) (m : Action (Option B)) → Keeps m → Keeps (unless_found o m)
unless_found-Keeps (some a) m k = Keeps-pure none
unless_found-Keeps none m k = k

create_event-Keeps :
    (ctx : TenantContext) (plan : CommissionPlan) (source : CommissionSourceType) (id : ℕ)
    (base : ℤ) (on : Date)
    → Keeps (create_event ctx plan source id base on)
unfolding create_event
create_event-Keeps ctx plan source id base on =
    Keeps-bind (gets (find_event ctx.tenant_id source id)) _ (Keeps-gets _)
      (λ o. unless_found-Keeps o _ (append_event-Keeps ctx plan source id base on))

create_adjustment-Keeps :
    (ctx : TenantContext) (event : CommissionEvent) (amount : ℤ) (reason : Text)
    (source : CommissionSourceType) (id : ℕ)
    → Keeps (create_adjustment ctx event amount reason source id)
unfolding create_adjustment
create_adjustment-Keeps ctx event amount reason source id =
    Keeps-bind (gets (λ db. find (is_adjustment_of ctx.tenant_id source id) db.adjustments)) _
      (Keeps-gets _)
      (λ o.
        unless_found-Keeps o _
          (append_adjustment-Keeps (adjustment_of ctx event amount reason source id)))

if_earning-Keeps :
    (earns : CommissionBasis → Bool) (o : Option CommissionPlan)
    (k : CommissionPlan → Action (Option CommissionEvent))
    → ((p : CommissionPlan) → Keeps (k p))
    → Keeps (if_earning earns o k)
if_earning-Keeps earns none k h = Keeps-pure none
if_earning-Keeps earns (some p) k h = elim (Bool-cases (earns p.basis)) [
  | inl e ↦ rw (e, if_earning) (h p)
  | inr e ↦ rw (e, if_earning) (Keeps-pure none)
]

when_service-Keeps :
    (kind : ServiceKind) (m : Action (Option CommissionEvent))
    → Keeps m
    → Keeps (when_service kind m)
when_service-Keeps service m k = k
when_service-Keeps skip m k = Keeps-pure none
when_service-Keeps unknown_kind m k = Keeps-pure none

pub on_service_recorded-Keeps :
    (ctx : TenantContext) (r : DailyServiceRecord) → Keeps (on_service_recorded ctx r)
unfolding on_service_recorded
on_service_recorded-Keeps ctx r = when_service-Keeps r.kind _ (
    Keeps-bind _ _ (Keeps-gets _) (λ plan.
      if_earning-Keeps earns_on_service plan _
        (λ p. create_event-Keeps ctx p by_service_record r.id r.charge_minor r.service_date)))

pub on_payment_recorded-Keeps :
    (ctx : TenantContext) (p : Payment) → Keeps (on_payment_recorded ctx p)
unfolding on_payment_recorded
on_payment_recorded-Keeps ctx p = Keeps-bind _ _ (Keeps-gets _) (λ plan.
    if_earning-Keeps earns_on_payment plan _
      (λ q. create_event-Keeps ctx q by_payment p.id p.amount_minor p.received_on))

pub on_statement_issued-Keeps :
    (ctx : TenantContext) (s : Statement) (cycle : BillingCycle)
    → Keeps (on_statement_issued ctx s cycle)
unfolding on_statement_issued
on_statement_issued-Keeps ctx s cycle = Keeps-bind _ _ (Keeps-gets _) (λ plan.
    if_earning-Keeps earns_on_statement plan _ (λ q.
      create_event-Keeps ctx q by_statement s.id (s.charges_minor +ℤ s.service_adjustments_minor)
        cycle.period_end))

adjust_service-Keeps :
    (ctx : TenantContext) (reason : Text) (id : ℕ) (delta : ℤ) (still : Bool)
    (event : CommissionEvent)
    → Keeps (adjust_service ctx reason id delta still event)
adjust_service-Keeps ctx reason id delta still event = Keeps-bind _ _ (Keeps-lift _) (λ amount.
    Keeps-bind _ _ (create_adjustment-Keeps ctx event amount reason by_service_record id)
      (λ o. Keeps-pure tt))

correct_chain-Keeps :
    (ctx : TenantContext) (original replacement : DailyServiceRecord) (reason : Text)
    (o : Option CommissionEvent)
    → Keeps (correct_chain ctx original replacement reason o)
correct_chain-Keeps ctx original replacement reason none =
    Keeps-bind _ _ (on_service_recorded-Keeps ctx replacement) (λ e. Keeps-pure tt)
correct_chain-Keeps ctx original replacement reason (some event) =
    adjust_service-Keeps ctx reason original.id _ _ event

pub on_service_corrected-Keeps :
    (ctx : TenantContext) (original replacement : DailyServiceRecord) (reason : Text)
    → Keeps (on_service_corrected ctx original replacement reason)
unfolding on_service_corrected
on_service_corrected-Keeps ctx original replacement reason =
    Keeps-bind _ _ (Keeps-gets _) (correct_chain-Keeps ctx original replacement reason)

void_chain-Keeps :
    (ctx : TenantContext) (r : DailyServiceRecord) (reason : Text) (o : Option CommissionEvent)
    → Keeps (void_chain ctx r reason o)
void_chain-Keeps ctx r reason none = Keeps-pure tt
void_chain-Keeps ctx r reason (some event) = adjust_service-Keeps ctx reason r.id _ _ event

pub on_service_voided-Keeps :
    (ctx : TenantContext) (r : DailyServiceRecord) (reason : Text)
    → Keeps (on_service_voided ctx r reason)
unfolding on_service_voided
on_service_voided-Keeps ctx r reason = Keeps-bind _ _ (Keeps-gets _) (void_chain-Keeps ctx r reason)

void_payment_event-Keeps :
    (ctx : TenantContext) (p : Payment) (reason : Text) (o : Option CommissionEvent)
    → Keeps (void_payment_event ctx p reason o)
void_payment_event-Keeps ctx p reason none = Keeps-pure tt
void_payment_event-Keeps ctx p reason (some event) = Keeps-bind _ _ (Keeps-lift _) (λ amount.
    Keeps-bind _ _ (create_adjustment-Keeps ctx event amount reason by_payment p.id)
      (λ o. Keeps-pure tt))

pub on_payment_voided-Keeps :
    (ctx : TenantContext) (p : Payment) (reason : Text) → Keeps (on_payment_voided ctx p reason)
unfolding on_payment_voided
on_payment_voided-Keeps ctx p reason =
    Keeps-bind _ _ (Keeps-gets _) (void_payment_event-Keeps ctx p reason)
