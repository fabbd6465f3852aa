-- ===== src/Billing/Statements/Frame.antt =====
-- Issuing statements leaves the accepted business and the ledger alone.
use recurring_service_platfo.Session.{gets}
use recurring_service_platfo.Session.Frames.{
  Keeps, Keeps-bind, Keeps-pure, Keeps-raise_when, Keeps-gets, Keeps-new_id, Keeps-next_row_version,
}
use recurring_service_platfo.Session.Tables.{insert_statement}
use recurring_service_platfo.Base.{any, validation_failed, ℕ, List, [], ◌∷◌, arith}
use recurring_service_platfo.Models.{TenantContext, BillingCycle, Statement}
use recurring_service_platfo.Billing.Statements.{
  cycle_movements, opening_balance_minor, billable_customers, is_unassigned, statement_of,
  issue_statement, issue_all, earn_all, issue_statements_for_cycle,
}
use recurring_service_platfo.Commission.Engine.Frame.{on_statement_issued-Keeps}

insert_statement-Keeps : (s : Statement) → Keeps (insert_statement s)
unfolding insert_statement
insert_statement-Keeps s db db' a h = ground arith

issue_statement-Keeps :
    (ctx : TenantContext) (cycle : BillingCycle) (customer : ℕ)
    → Keeps (issue_statement ctx cycle customer)
unfolding issue_statement
issue_statement-Keeps ctx cycle customer =
    Keeps-bind (gets (cycle_movements ctx.tenant_id customer cycle.id)) _ (Keeps-gets _) (λ m.
      Keeps-bind (gets (opening_balance_minor ctx.tenant_id customer cycle)) _ (Keeps-gets _)
        (λ opening_minor. Keeps-bind _ _ Keeps-next_row_version (λ v.
          Keeps-bind _ _ Keeps-new_id (λ id.
            Keeps-bind _ _
              (insert_statement-Keeps (statement_of ctx cycle customer m opening_minor v id))
              (λ u. Keeps-pure (statement_of ctx cycle customer m opening_minor v id))))))

issue_all-Keeps :
    (ctx : TenantContext) (cycle : BillingCycle) (customers : List ℕ)
    → Keeps (issue_all ctx cycle customers)
unfolding issue_all
issue_all-Keeps ctx cycle [] = Keeps-pure []
issue_all-Keeps ctx cycle (customer ∷ customers) =
    Keeps-bind _ _ (issue_statement-Keeps ctx cycle customer)
      (λ s. Keeps-bind _ _ (issue_all-Keeps ctx cycle customers) (λ ss. Keeps-pure (s ∷ ss)))

earn_all-Keeps :
    (ctx : TenantContext) (cycle : BillingCycle) (ss : List Statement)
    → Keeps (earn_all ctx cycle ss)
unfolding earn_all
earn_all-Keeps ctx cycle [] = Keeps-pure tt
earn_all-Keeps ctx cycle (s ∷ ss) =
    Keeps-bind _ _ (on_statement_issued-Keeps ctx s cycle) (λ e. earn_all-Keeps ctx cycle ss)

pub issue_statements-Keeps :
    (ctx : TenantContext) (cycle : BillingCycle) → Keeps (issue_statements_for_cycle ctx cycle)
unfolding issue_statements_for_cycle
issue_statements-Keeps ctx cycle =
    Keeps-bind (gets (λ db. any (is_unassigned ctx.tenant_id) db.ledger)) _ (Keeps-gets _) (λ b.
      Keeps-bind _ _ (Keeps-raise_when b validation_failed) (λ u.
        Keeps-bind (gets (billable_customers ctx.tenant_id cycle)) _ (Keeps-gets _) (λ customers.
          Keeps-bind _ _ (issue_all-Keeps ctx cycle customers)
            (λ issued. Keeps-bind _ _ (earn_all-Keeps ctx cycle issued) (λ w. Keeps-pure issued)))))
