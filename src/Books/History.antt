-- ===== src/Books/History.antt =====
-- Histories of the domain commands of backend/app/service, payments, billing and commission.
use recurring_service_platfo.Service.Inputs.{
  RecordServiceInput, CorrectServiceInput, VoidServiceInput,
}
use recurring_service_platfo.Books.Voiding.{void_service-Balanced}
use recurring_service_platfo.Billing.Closing.{close_cycle}
use recurring_service_platfo.Billing.Closing.Frame.{close_cycle-Keeps}
use recurring_service_platfo.Session.{Db}
use recurring_service_platfo.Base.{ok, ℕ, ◌≡◌, ◌∙◌, none, some, [], arith}
use recurring_service_platfo.Base.Int.{◌-ℤ◌}
use recurring_service_platfo.Base.Sums.{sum_by-congr}
use recurring_service_platfo.Models.{TenantContext, PlatformContext, Entity}
use recurring_service_platfo.Billing.Ledger.{outstanding_minor}
use recurring_service_platfo.Billing.Reporting.{outstanding_total_minor}
use recurring_service_platfo.Billing.Reporting.Figures.{
  business_generated_lem, collected_lem, outstanding-eq-generated-collected,
}
use recurring_service_platfo.Service.Commands.{record_service, correct_service, void_service}
use recurring_service_platfo.Payments.Commands.{
  RecordPaymentInput, VoidPaymentInput, record_payment, void_payment,
}
use recurring_service_platfo.Commission.Plans.{CreatePlanInput, create_plan}
use recurring_service_platfo.Commission.Settlements.Position.{record_settlement-Keeps}
use recurring_service_platfo.Commission.Plans.Frame.{create_plan-Keeps}
use recurring_service_platfo.Commission.Settlements.{RecordSettlementInput, record_settlement}
use recurring_service_platfo.Books.{accepted_value, received_value, Balanced}
use recurring_service_platfo.Books.Postings.{Balanced-KeepsBooks}
use recurring_service_platfo.Books.Recording.{record_service-Balanced}
use recurring_service_platfo.Books.Correcting.{correct_service-Balanced}
use recurring_service_platfo.Books.Paying.{record_payment-Balanced, void_payment-Balanced}

-- One accepted command.
pub data Step (db db' : Db) : Type 0 where
  by_record_service :
      (ctx : TenantContext) (input : RecordServiceInput) (operation_id : ℕ) (e : Entity)
      → record_service ctx input operation_id db ≡ ok (e, db')
      → Step db db'
  by_correct_service :
      (ctx : TenantContext) (id : ℕ) (input : CorrectServiceInput) (operation_id : ℕ) (e : Entity)
      → correct_service ctx id input operation_id db ≡ ok (e, db')
      → Step db db'
  by_void_service :
      (ctx : TenantContext) (id : ℕ) (input : VoidServiceInput) (operation_id : ℕ) (e : Entity)
      → void_service ctx id input operation_id db ≡ ok (e, db')
      → Step db db'
  by_record_payment :
      (ctx : TenantContext) (input : RecordPaymentInput) (operation_id : ℕ) (e : Entity)
      → record_payment ctx input operation_id db ≡ ok (e, db')
      → Step db db'
  by_void_payment :
      (ctx : TenantContext) (id : ℕ) (input : VoidPaymentInput) (operation_id : ℕ) (e : Entity)
      → void_payment ctx id input operation_id db ≡ ok (e, db')
      → Step db db'
  by_close_cycle :
      (ctx : TenantContext) (id operation_id : ℕ) (e : Entity)
      → close_cycle ctx id operation_id db ≡ ok (e, db')
      → Step db db'
  by_create_plan :
      (ctx : PlatformContext) (input : CreatePlanInput) (operation_id : ℕ) (e : Entity)
      → create_plan ctx input operation_id db ≡ ok (e, db')
      → Step db db'
  by_record_settlement :
      (ctx : PlatformContext) (input : RecordSettlementInput) (operation_id : ℕ) (e : Entity)
      → record_settlement ctx input operation_id db ≡ ok (e, db')
      → Step db db'

-- Tables without accepted business.
pub record IsBlank (db : Db) : Type 0 where
  pub no_records : db.records ≡ []
  pub no_payments : db.payments ≡ []
  pub no_entries : db.ledger ≡ []

-- The tables after any sequence of accepted commands, of any tenants in any order.
pub data Reachable : Db → Type 0 where
  start : (db : Db) → IsBlank db → Reachable db
  then : (db db' : Db) → Reachable db → Step db db' → Reachable db'

Step-Balanced : (db db' : Db) → Balanced db → Step db db' → Balanced db'
Step-Balanced db db' b (by_record_service ctx input op e h) =
    record_service-Balanced ctx input op db db' e b h
Step-Balanced db db' b (by_correct_service ctx id input op e h) =
    correct_service-Balanced ctx id input op db db' e b h
Step-Balanced db db' b (by_void_service ctx id input op e h) =
    void_service-Balanced ctx id input op db db' e b h
Step-Balanced db db' b (by_record_payment ctx input op e h) =
    record_payment-Balanced ctx input op db db' e b h
Step-Balanced db db' b (by_void_payment ctx id input op e h) =
    void_payment-Balanced ctx id input op db db' e b h
Step-Balanced db db' b (by_close_cycle ctx id op e h) =
    Balanced-KeepsBooks b (close_cycle-Keeps ctx id op db db' e h)
Step-Balanced db db' b (by_create_plan ctx input op e h) =
    Balanced-KeepsBooks b (create_plan-Keeps ctx input op db db' e h)
Step-Balanced db db' b (by_record_settlement ctx input op e h) =
    Balanced-KeepsBooks b (record_settlement-Keeps ctx input op db db' e h)

blank-Balanced : (db : Db) → IsBlank db → Balanced db
blank-Balanced db k = record {
  posted = rw k.no_entries tt;
  generated = λ t c. business_generated_lem t (some c) none db ∙ rw (k.no_entries, k.no_records);
  collected = λ t c. collected_lem t (some c) none db ∙ rw (k.no_entries, k.no_payments);
}

-- After any sequence of accepted commands (service recorded, corrected and voided, payment
-- recorded and voided, cycle closed, plan created, settlement recorded), of any tenants in any
-- order, from tables without business, every customer's business generated is the charges of its
-- active records and every customer's collections are its payments that were not voided, and the
-- ledger holds only entries of the kinds that these commands post
pub Reachable-Balanced : (db : Db) → Reachable db → Balanced db
Reachable-Balanced db (start db₀ k) = blank-Balanced db₀ k
Reachable-Balanced db (then db₀ db₁ r s) = Step-Balanced db₀ db₁ (Reachable-Balanced db₀ r) s

outstanding-scope :
    (t c : ℕ) (db : Db) → outstanding_minor t c db ≡ outstanding_total_minor t (some c) none db
unfolding outstanding_minor outstanding_total_minor
outstanding-scope t c db = sum_by-congr _ _ db.ledger (λ e. ground arith)

-- In tables that a sequence of accepted commands reaches, the balance that the ledger gives for a
-- customer is the value of its active records less its payments that were not voided
pub outstanding-accepted :
    (db : Db) (t c : ℕ)
    → Reachable db
    → outstanding_minor t c db ≡ accepted_value t c db.records -ℤ received_value t c db.payments
outstanding-accepted db t c r =
    let b = Reachable-Balanced db r in
    outstanding-scope t c db
    ∙ outstanding-eq-generated-collected t (some c) none db b.posted
    ∙ rw (b.generated t c, b.collected t c)
