-- ===== src/Books/Isolation.antt =====
-- The commands of one tenant leave the rows of every other tenant alone (SEC-4).
pub mod Commands
pub mod Payments
pub mod Once
use recurring_service_platfo.Commission.Events.{
  find_event, append_event, unless_found, create_event, is_adjustment_of, append_adjustment,
  adjustment_of, create_adjustment,
}
use recurring_service_platfo.Session.{Action, ◌>>◌, pure, lift, gets, new_id, after}
use recurring_service_platfo.Session.Isolation.{
  Spares, Spares-bind, Spares-pure, Spares-lift, Spares-gets, Spares-new_id, Spares-insert_entry,
}
use recurring_service_platfo.Session.Tables.{insert_entry, insert_cycle, record_tenant_event}
use recurring_service_platfo.Base.{
  ◌==◌, Bool-cases, find, ok, ℕ, zero, ◌-◌, ◌≡◌, ap, inl, inr, Bool, true, false, Option, none,
  some, arith,
}
use recurring_service_platfo.Base.Int.{ℤ, pos, is_zero}
use recurring_service_platfo.Core.Date.{Date}
use recurring_service_platfo.Core.Text.{Text}
use recurring_service_platfo.Models.{
  TenantContext, ServiceKind, service, skip, unknown_kind, voided, Source, DailyServiceRecord,
  Tenant, other, recorded, payment_voided, Payment, EntryKind, charge, payment, adjustment,
  SourceType, LedgerEntry, is_adjustment, CommissionBasis, CommissionSourceType, by_service_record,
  by_payment, CommissionPlan, CommissionEvent, CommissionAdjustment, Entity, AuditAction,
  service_recorded, service_corrected, payment_recorded, AuditSource,
}
use recurring_service_platfo.Billing.Cycles.{
  open_cycle, create_cycle, usable_cycle, ensure_open_cycle,
}
use recurring_service_platfo.Billing.Ledger.{entry_of, post_unless, append_entry, post_entry}
use recurring_service_platfo.Commission.Engine.{
  earns_on_service, earns_on_payment, if_earning, when_service, on_service_recorded, adjust_service,
  correct_chain, on_service_corrected, void_chain, on_service_voided, on_payment_recorded,
  void_payment_event, on_payment_voided,
}

post_unless-Spares :
    {t : ℕ} (b : Bool) (m : Action (Option LedgerEntry)) → Spares t m → Spares t (post_unless b m)
post_unless-Spares true m k = Spares-pure none
post_unless-Spares false m k = k

unless_found-Spares :
    {t : ℕ} {A B : Type 0} (o : Option A) (m : Action (Option B))
    → Spares t m
    → Spares t (unless_found o m)
unless_found-Spares (some a) m k = Spares-pure none
unless_found-Spares none m k = k

if_earning-Spares :
    {t : ℕ} (earns : CommissionBasis → Bool) (o : Option CommissionPlan)
    (k : CommissionPlan → Action (Option CommissionEvent))
    → ((p : CommissionPlan) → Spares t (k p))
    → Spares t (if_earning earns o k)
if_earning-Spares earns none k h = Spares-pure none
if_earning-Spares earns (some p) k h = elim (Bool-cases (earns p.basis)) [
  | inl e ↦ rw (e, if_earning) (h p)
  | inr e ↦ rw (e, if_earning) (Spares-pure none)
]

when_service-Spares :
    {t : ℕ} (kind : ServiceKind) (m : Action (Option CommissionEvent))
    → Spares t m
    → Spares t (when_service kind m)
when_service-Spares service m k = k
when_service-Spares skip m k = Spares-pure none
when_service-Spares unknown_kind m k = Spares-pure none

append_adjustment-Spares :
    {t : ℕ} (a : CommissionAdjustment) → (a.tenant_id == t) ≡ false → Spares t (append_adjustment a)
unfolding append_adjustment
append_adjustment-Spares a foreign db db' o h = ground arith

module _ {t : ℕ} (ctx : TenantContext) (foreign : (ctx.tenant_id == t) ≡ false) where
  tenant_event-Spares :
      (action : AuditAction) (id : ℕ) (before after : Option Entity) (reason : Option Text)
      (operation_id : ℕ) (source : AuditSource)
      → Spares t (record_tenant_event ctx action id before after reason operation_id source)
  unfolding record_tenant_event
  tenant_event-Spares action id before after reason operation_id source db db' a h = ground arith

  ensure_open_cycle-Spares : Spares t (ensure_open_cycle ctx)
  unfolding ensure_open_cycle create_cycle usable_cycle new_id insert_cycle
  ensure_open_cycle-Spares db db' c h = ground arith

  pub post_entry-Spares :
      (customer : ℕ) (kind : EntryKind) (amount : ℤ) (on : Date) (source : SourceType) (id : ℕ)
      → Spares t (post_entry ctx customer kind amount on source id)
  unfolding post_entry append_entry
  post_entry-Spares customer kind amount on source id = post_unless-Spares (is_zero amount) _ (
      Spares-bind _ _ ensure_open_cycle-Spares (λ cycle.
        Spares-bind _ _
          (Spares-insert_entry (entry_of ctx customer kind amount on source id cycle.id) foreign)
          (λ u. Spares-pure (some (entry_of ctx customer kind amount on source id cycle.id)))))

  append_event-Spares :
      (plan : CommissionPlan) (source : CommissionSourceType) (id : ℕ) (base : ℤ) (on : Date)
      → Spares t (append_event ctx plan source id base on)
  unfolding append_event
  append_event-Spares plan source id base on =
      Spares-bind _ _ (Spares-lift _)
        (λ fee. Spares-bind _ _ Spares-new_id (λ event_id. λ db db' a h. ground arith))

  create_event-Spares :
      (plan : CommissionPlan) (source : CommissionSourceType) (id : ℕ) (base : ℤ) (on : Date)
      → Spares t (create_event ctx plan source id base on)
  unfolding create_event
  create_event-Spares plan source id base on =
      Spares-bind (gets (find_event ctx.tenant_id source id)) _ (Spares-gets _)
        (λ o. unless_found-Spares o _ (append_event-Spares plan source id base on))

  create_adjustment-Spares :
      (event : CommissionEvent) (amount : ℤ) (reason : Text) (source : CommissionSourceType)
      (id : ℕ)
      → Spares t (create_adjustment ctx event amount reason source id)
  unfolding create_adjustment
  create_adjustment-Spares event amount reason source id =
      Spares-bind (gets (λ db. find (is_adjustment_of ctx.tenant_id source id) db.adjustments)) _
        (Spares-gets _)
        (λ o.
          unless_found-Spares o _
            (append_adjustment-Spares (adjustment_of ctx event amount reason source id) foreign))

  pub on_service_recorded-Spares : (r : DailyServiceRecord) → Spares t (on_service_recorded ctx r)
  unfolding on_service_recorded
  on_service_recorded-Spares r = when_service-Spares r.kind _ (
      Spares-bind _ _ (Spares-gets _) (λ plan.
        if_earning-Spares earns_on_service plan _
          (λ p. create_event-Spares p by_service_record r.id r.charge_minor r.service_date)))

  pub on_payment_recorded-Spares : (p : Payment) → Spares t (on_payment_recorded ctx p)
  unfolding on_payment_recorded
  on_payment_recorded-Spares p = Spares-bind _ _ (Spares-gets _) (λ plan.
      if_earning-Spares earns_on_payment plan _
        (λ q. create_event-Spares q by_payment p.id p.amount_minor p.received_on))

  adjust_service-Spares :
      (reason : Text) (id : ℕ) (delta : ℤ) (still : Bool) (event : CommissionEvent)
      → Spares t (adjust_service ctx reason id delta still event)
  adjust_service-Spares reason id delta still event = Spares-bind _ _ (Spares-lift _) (λ amount.
      Spares-bind _ _ (create_adjustment-Spares event amount reason by_service_record id)
        (λ o. Spares-pure tt))

  correct_chain-Spares :
      (original replacement : DailyServiceRecord) (reason : Text) (o : Option CommissionEvent)
      → Spares t (correct_chain ctx original replacement reason o)
  correct_chain-Spares original replacement reason none =
      Spares-bind _ _ (on_service_recorded-Spares replacement) (λ e. Spares-pure tt)
  correct_chain-Spares original replacement reason (some event) =
      adjust_service-Spares reason original.id _ _ event

  pub on_service_corrected-Spares :
      (original replacement : DailyServiceRecord) (reason : Text)
      → Spares t (on_service_corrected ctx original replacement reason)
  unfolding on_service_corrected
  on_service_corrected-Spares original replacement reason =
      Spares-bind _ _ (Spares-gets _) (correct_chain-Spares original replacement reason)

  void_chain-Spares :
      (r : DailyServiceRecord) (reason : Text) (o : Option CommissionEvent)
      → Spares t (void_chain ctx r reason o)
  void_chain-Spares r reason none = Spares-pure tt
  void_chain-Spares r reason (some event) = adjust_service-Spares reason r.id _ _ event

  pub on_service_voided-Spares :
      (r : DailyServiceRecord) (reason : Text) → Spares t (on_service_voided ctx r reason)
  unfolding on_service_voided
  on_service_voided-Spares r reason = Spares-bind _ _ (Spares-gets _) (void_chain-Spares r reason)

  void_payment_event-Spares :
      (p : Payment) (reason : Text) (o : Option CommissionEvent)
      → Spares t (void_payment_event ctx p reason o)
  void_payment_event-Spares p reason none = Spares-pure tt
  void_payment_event-Spares p reason (some event) = Spares-bind _ _ (Spares-lift _) (λ amount.
      Spares-bind _ _ (create_adjustment-Spares event amount reason by_payment p.id)
        (λ o. Spares-pure tt))

  pub on_payment_voided-Spares :
      (p : Payment) (reason : Text) → Spares t (on_payment_voided ctx p reason)
  unfolding on_payment_voided
  on_payment_voided-Spares p reason =
      Spares-bind _ _ (Spares-gets _) (void_payment_event-Spares p reason)

  pub settle-Spares :
      {A : Type 0} (hook : Action A) (action : AuditAction) (id : ℕ) (before after : Option Entity)
      (reason : Option Text) (operation_id : ℕ) (source : AuditSource) (e : Entity)
      → Spares t hook
      → Spares t (
          hook
          >> (record_tenant_event ctx action id before after reason operation_id source >> pure e))
  settle-Spares hook action id before after reason operation_id source e k =
      Spares-bind hook _ k (λ a.
        Spares-bind _ _ (tenant_event-Spares action id before after reason operation_id source)
          (λ u. Spares-pure e))
