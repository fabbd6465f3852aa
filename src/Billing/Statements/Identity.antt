-- ===== src/Billing/Statements/Identity.antt =====
-- The closing balance of a statement against the ledger (P0 §5.4, FIN-8).
use recurring_service_platfo.Session.Tables.{insert_statement}
use recurring_service_platfo.Session.{Db, new_id, next_row_version}
use recurring_service_platfo.Base.{All, ok, ℕ, ◌+◌, ◌≡◌, ap, ◌∙◌, some, arith}
use recurring_service_platfo.Base.Int.{ℤ, ◌+ℤ◌, int_laws}
use recurring_service_platfo.Models.{TenantContext, BillingCycle, Statement}
use recurring_service_platfo.Billing.Reporting.{
  business_generated_minor, collected_minor, outstanding_total_minor,
}
use recurring_service_platfo.Billing.Reporting.Figures.{
  IsPosted, outstanding-eq-generated-collected,
}
use recurring_service_platfo.Billing.Statements.{
  cycle_movements, previous_statement, opening_balance_minor, statement_of, issue_statement,
}

statement-closing :
    (ctx : TenantContext) (cycle : BillingCycle) (customer : ℕ) (opening_minor : ℤ)
    (row_version id : ℕ) (db : Db)
    → All IsPosted db.ledger
    → (statement_of ctx cycle customer
        (cycle_movements ctx.tenant_id customer cycle.id db)
        opening_minor
        row_version
        id).closing_balance_minor
      ≡ opening_minor +ℤ outstanding_total_minor ctx.tenant_id (some customer) (some cycle.id) db
unfolding cycle_movements business_generated_minor collected_minor
statement-closing ctx cycle customer opening_minor row_version id db h =
    rw (outstanding-eq-generated-collected ctx.tenant_id (some customer) (some cycle.id) db h)
      (omega int_laws)

-- Over a ledger of posted entries, an issued statement closes at its opening balance plus
-- everything that the ledger has for the customer in the cycle, and opens at the closing balance
-- of the previous statement where there is one
pub issue_statement-closing :
    (ctx : TenantContext) (cycle : BillingCycle) (customer : ℕ) (db db' : Db) (s : Statement)
    → All IsPosted db.ledger
    → issue_statement ctx cycle customer db ≡ ok (s, db')
    → (s.closing_balance_minor
        ≡ opening_balance_minor ctx.tenant_id customer cycle db
          +ℤ outstanding_total_minor ctx.tenant_id (some customer) (some cycle.id) db)
      × (s.opening_balance_minor ≡ opening_balance_minor ctx.tenant_id customer cycle db)
      × ((p : Statement)
          → previous_statement ctx.tenant_id customer cycle.period_start db ≡ some p
          → s.opening_balance_minor ≡ p.closing_balance_minor)
unfolding issue_statement next_row_version new_id insert_statement opening_balance_minor
issue_statement-closing ctx cycle customer db db' s posted h =
    let opening_minor = opening_balance_minor ctx.tenant_id customer cycle db in
    let row =
      statement_of ctx cycle customer (cycle_movements ctx.tenant_id customer cycle.id db)
        opening_minor (db.row_version + 1) db.next_id in
    let same : s ≡ row = ground arith in
    (
      ap (λ (x : Statement). x.closing_balance_minor) same
          ∙ statement-closing ctx cycle customer opening_minor (db.row_version + 1) db.next_id db
              posted,
      ap (λ (x : Statement). x.opening_balance_minor) same,
      λ p e. ap (λ (x : Statement). x.opening_balance_minor) same ∙ rw (e, opening_balance_minor),
    )
