-- ===== src/Books/DayHistory.antt =====
-- Which commands touch the records, and the active day through every history of commands.

use recurring_service_platfo.Books.DayCorrecting.{correct_service-OneActive, void_service-OneActive}
use recurring_service_platfo.Session.{Db, bind-ok}
use recurring_service_platfo.Session.Tables.{is_payment, audit_source_of}
use recurring_service_platfo.Base.{update_first, ok, ℕ, ◌≡◌, ◌∙◌, none, some, ◌∷◌}
use recurring_service_platfo.Base.Int.{neg}
use recurring_service_platfo.Models.{
  TenantContext, payment, adjustment, from_payment, Entity, payment_entity, payment_recorded,
  payment_voided_action,
}
use recurring_service_platfo.Billing.Ledger.{post_payment, post_payment_adjustment}
use recurring_service_platfo.Billing.Ledger.Posting.{post_entry-KeepsRows}
use recurring_service_platfo.Billing.Closing.Frame.{close_cycle-Keeps}
use recurring_service_platfo.Payments.Commands.{
  RecordPaymentInput, VoidPaymentInput, prepare_payment, settle_payment, record_payment,
  void_payment_row, settle_payment_voided, void_payment,
}
use recurring_service_platfo.Commission.Engine.{on_payment_recorded, on_payment_voided}
use recurring_service_platfo.Commission.Engine.Frame.{
  on_payment_recorded-Keeps, on_payment_voided-Keeps,
}
use recurring_service_platfo.Commission.Plans.Frame.{create_plan-Keeps}
use recurring_service_platfo.Commission.Settlements.Position.{record_settlement-Keeps}
use recurring_service_platfo.Books.Rows.{settle-Keeps}
use recurring_service_platfo.Books.Paying.{prepare_payment-Keeps, checked_payment_void-ok}
use recurring_service_platfo.Books.History.{
  Step, by_record_service, by_correct_service, by_void_service, by_record_payment, by_void_payment,
  by_close_cycle, by_create_plan, by_record_settlement, Reachable, start, then,
}
use recurring_service_platfo.Books.ActiveDay.{OneActive, record_service-OneActive}

record_payment-records :
    (ctx : TenantContext) (input : RecordPaymentInput) (operation_id : ℕ) (db db' : Db) (e : Entity)
    → record_payment ctx input operation_id db ≡ ok (e, db')
    → db'.records ≡ db.records
unfolding record_payment settle_payment
record_payment-records ctx input operation_id db db' e h =
    let (p, db₁, e₁, h₁) = bind-ok (prepare_payment ctx input operation_id) _ db h in
    let db₂ : Db = record db₁ { payments = p ∷ db₁.payments } in
    let (o, db₃, e₃, h₃) = bind-ok (post_payment ctx p) _ db₂ h₁ in
    let rest =
      settle-Keeps (on_payment_recorded ctx p) ctx payment_recorded p.id none
        (some (payment_entity p)) none operation_id (audit_source_of p.source) (payment_entity p)
        (on_payment_recorded-Keeps ctx p) db₃ db' e h₃ in
    let posted =
      post_entry-KeepsRows ctx p.customer_id payment (neg p.amount_minor) p.received_on from_payment
        p.id db₂ db₃ o e₃ in
    rest.same_records
    ∙ posted.same_records
    ∙ (prepare_payment-Keeps ctx input operation_id db db₁ p e₁).same_records

void_payment-records :
    (ctx : TenantContext) (id : ℕ) (input : VoidPaymentInput) (operation_id : ℕ) (db db' : Db)
    (e : Entity)
    → void_payment ctx id input operation_id db ≡ ok (e, db')
    → db'.records ≡ db.records
unfolding settle_payment_voided
void_payment-records ctx id input operation_id db db' e h =
    let (reason, p, v, live, own, found, key, h₁) =
      checked_payment_void-ok ctx id input operation_id db db' e h in
    let gone = void_payment_row ctx reason v p in
    let db₁ : Db = record db {
      row_version = v;
      payments =
          update_first (is_payment ctx.tenant_id p.id) (void_payment_row ctx reason v) db.payments;
    } in
    let (o, db₂, e₂, h₂) =
      bind-ok (post_payment_adjustment ctx p.customer_id p.amount_minor p.received_on p.id) _ db₁
        h₁ in
    let rest =
      settle-Keeps (on_payment_voided ctx gone reason) ctx payment_voided_action p.id
        (some (payment_entity p)) (some (payment_entity gone)) (some reason) operation_id
        (audit_source_of input.source) (payment_entity gone)
        (on_payment_voided-Keeps ctx gone reason) db₂ db' e h₂ in
    let posted =
      post_entry-KeepsRows ctx p.customer_id adjustment p.amount_minor p.received_on from_payment
        p.id db₁ db₂ o e₂ in
    rest.same_records ∙ posted.same_records

Step-OneActive : (db db' : Db) → OneActive db.records → Step db db' → OneActive db'.records
Step-OneActive db db' v (by_record_service ctx input op e h) =
    record_service-OneActive ctx input op db db' e v h
Step-OneActive db db' v (by_correct_service ctx id input op e h) =
    correct_service-OneActive ctx id input op db db' e v h
Step-OneActive db db' v (by_void_service ctx id input op e h) =
    void_service-OneActive ctx id input op db db' e v h
Step-OneActive db db' v (by_record_payment ctx input op e h) =
    rw (record_payment-records ctx input op db db' e h) v
Step-OneActive db db' v (by_void_payment ctx id input op e h) =
    rw (void_payment-records ctx id input op db db' e h) v
Step-OneActive db db' v (by_close_cycle ctx id op e h) =
    rw ((close_cycle-Keeps ctx id op db db' e h).same_records) v
Step-OneActive db db' v (by_create_plan ctx input op e h) =
    rw ((create_plan-Keeps ctx input op db db' e h).same_records) v
Step-OneActive db db' v (by_record_settlement ctx input op e h) =
    rw ((record_settlement-Keeps ctx input op db db' e h).same_records) v

-- After any sequence of accepted commands, of any tenants in any order, from tables without
-- business, no two active records of one tenant have the same customer and date
pub Reachable-OneActive : (db : Db) → Reachable db → OneActive db.records
Reachable-OneActive db (start db₀ k) = rw k.no_records tt
Reachable-OneActive db (then db₀ db₁ r s) = Step-OneActive db₀ db₁ (Reachable-OneActive db₀ r) s
