-- ===== src/Billing/Statements.antt =====
-- backend/app/billing/statements.py: the figures of one cycle, carry-forward, issue.
pub mod Identity
pub mod Frame
use recurring_service_platfo.Session.{
  Db, Action, ◌>>=◌, ◌>>◌, pure, raise, raise_when, gets, new_id, next_row_version,
}
use recurring_service_platfo.Base.{
  ltb, leb, ◌==◌, if◌then◌else◌, is_some, filter, find, any, validation_failed, ℕ, suc, ◌+◌, ◌-◌,
  ◌/◌, ap, Bool, false, not, ◌&&◌, Option, none, some, List, [], ◌∷◌, map,
}
use recurring_service_platfo.Base.Int.{ℤ, pos, ◌+ℤ◌, ◌-ℤ◌, neg}
use recurring_service_platfo.Core.Date.{Date, date_ltb, date_leb, date_eqb}
use recurring_service_platfo.Models.{
  TenantContext, service, is_service, DailyServiceRecord, opening, charge, payment, adjustment,
  LedgerEntry, is_charge, is_payment_entry, is_adjustment, is_service_origin, is_payment_origin,
  closed, BillingCycle, Statement,
}
use recurring_service_platfo.Session.Tables.{is_record, is_payment, is_cycle, insert_statement}
use recurring_service_platfo.Billing.Reporting.{in_scope, ledger_sum}
use recurring_service_platfo.Commission.Engine.{on_statement_issued}

pub record CycleMovements : Type 0 where
  pub charges_minor : ℤ
  pub service_adjustments_minor : ℤ
  pub payments_minor : ℤ
  pub payment_reversals_minor : ℤ
  pub service_days : ℕ
  pub total_quantity : ℕ

abbrev pub in_cycle : ℕ → ℕ → ℕ → LedgerEntry → Bool
in_cycle tenant customer cycle = in_scope tenant (some customer) (some cycle)

-- The charges of the cycle with the record of each: an inner join.
abbrev pub joined :
    (LedgerEntry → Bool) → List DailyServiceRecord → List LedgerEntry → List (Date × ℕ)
joined condition records [] = []
joined condition records (e ∷ es) =
    if condition e
    then elim (find (is_record e.tenant_id e.source_id) records) [
      | none ↦ joined condition records es
      | some r ↦ (e.occurred_on, r.quantity) ∷ joined condition records es
    ]
    else joined condition records es

-- `count(distinct …)`: a date counts where it occurs last.
abbrev pub distinct_days : List (Date × ℕ) → ℕ
distinct_days [] = 0
distinct_days (x ∷ xs) =
    if any (λ y. date_eqb x.0 y.0) xs then distinct_days xs else suc (distinct_days xs)

abbrev pub total_of : List (Date × ℕ) → ℕ
total_of [] = 0
total_of (x ∷ xs) = x.1 + total_of xs

unfoldable pub cycle_movements : ℕ → ℕ → ℕ → Db → CycleMovements
cycle_movements tenant customer cycle db =
    let scope = in_cycle tenant customer cycle in
    let stats = joined (λ e. scope e && is_charge e) db.records db.ledger in
    record {
      charges_minor = ledger_sum (λ e. scope e && is_charge e) db;
      service_adjustments_minor =
          ledger_sum (λ e. scope e && (is_adjustment e && is_service_origin e)) db;
      payments_minor = neg (ledger_sum (λ e. scope e && is_payment_entry e) db);
      payment_reversals_minor =
          ledger_sum (λ e. scope e && (is_adjustment e && is_payment_origin e)) db;
      service_days = distinct_days stats;
      total_quantity = total_of stats;
    }

-- The period start of a statement's cycle, if the join finds it before a date.
abbrev pub start_before : ℕ → Date → List BillingCycle → ℕ → Option Date
start_before tenant before cycles cycle = elim (find (is_cycle tenant cycle) cycles) [
  | none ↦ none
  | some c ↦ if date_ltb c.period_start before then some c.period_start else none
]

abbrev pub later_of : Option (Date × Statement) → Date → Statement → Option (Date × Statement)
later_of none start s = some (start, s)
later_of (some best) start s = if date_ltb start best.0 then some best else some (start, s)

-- The statement whose cycle started last among those before a date.
abbrev pub latest_before :
    ℕ → ℕ → Date → List BillingCycle → List Statement → Option (Date × Statement)
latest_before tenant customer before cycles [] = none
latest_before tenant customer before cycles (s ∷ ss) =
    let rest = latest_before tenant customer before cycles ss in
    if s.tenant_id == tenant && s.customer_id == customer
    then elim (start_before tenant before cycles s.cycle_id) [
      | none ↦ rest
      | some start ↦ later_of rest start s
    ]
    else rest

unfoldable pub previous_statement : ℕ → ℕ → Date → Db → Option Statement
previous_statement tenant customer period_start db =
    elim (latest_before tenant customer period_start db.cycles db.statements) [
      | none ↦ none
      | some best ↦ some best.1
    ]

-- An entry that was posted to a cycle of the tenant that started before a date.
abbrev pub posted_before : ℕ → Date → List BillingCycle → Option ℕ → Bool
posted_before tenant before cycles none = false
posted_before tenant before cycles (some cycle) =
    any (λ c. is_cycle tenant cycle c && date_ltb c.period_start before) cycles

abbrev pub carried_in : ℕ → ℕ → Date → List BillingCycle → LedgerEntry → Bool
carried_in tenant customer before cycles e =
    e.tenant_id == tenant
    && (e.customer_id == customer && posted_before tenant before cycles e.posting_cycle_id)

-- Carry-forward (FIN-8).
unfoldable pub opening_balance_minor : ℕ → ℕ → BillingCycle → Db → ℤ
opening_balance_minor tenant customer cycle db =
    elim (previous_statement tenant customer cycle.period_start db) [
      | some s ↦ s.closing_balance_minor
      | none ↦ ledger_sum (carried_in tenant customer cycle.period_start db.cycles) db
    ]

abbrev pub posted_up_to : ℕ → Date → List BillingCycle → Option ℕ → Bool
posted_up_to tenant day cycles none = false
posted_up_to tenant day cycles (some cycle) =
    any (λ c. is_cycle tenant cycle c && date_leb c.period_start day) cycles

-- `select distinct`: a customer stands where it occurs last.
abbrev pub distinct : List ℕ → List ℕ
distinct [] = []
distinct (x ∷ xs) = if any (λ y. x == y) xs then distinct xs else x ∷ distinct xs

unfoldable pub billable_customers : ℕ → BillingCycle → Db → List ℕ
billable_customers tenant cycle db = distinct (
    map (λ e. e.customer_id)
      (filter
        (λ e.
          e.tenant_id == tenant
          && posted_up_to tenant cycle.period_start db.cycles e.posting_cycle_id)
        db.ledger))

abbrev pub is_unassigned : ℕ → LedgerEntry → Bool
is_unassigned tenant e = e.tenant_id == tenant && not (is_some e.posting_cycle_id)

-- The identity of P0 §5.4.
abbrev pub statement_of : TenantContext → BillingCycle → ℕ → CycleMovements → ℤ → ℕ → ℕ → Statement
statement_of ctx cycle customer m opening_minor row_version id = record {
  id = id;
  tenant_id = ctx.tenant_id;
  customer_id = customer;
  cycle_id = cycle.id;
  opening_balance_minor = opening_minor;
  charges_minor = m.charges_minor;
  service_adjustments_minor = m.service_adjustments_minor;
  payments_minor = m.payments_minor;
  payment_reversals_minor = m.payment_reversals_minor;
  closing_balance_minor =
      opening_minor +ℤ m.charges_minor +ℤ m.service_adjustments_minor -ℤ m.payments_minor
      +ℤ m.payment_reversals_minor;
  service_days = m.service_days;
  total_quantity = m.total_quantity;
  unit_label = ctx.unit_label;
  currency = ctx.currency;
  row_version = row_version;
}

unfoldable pub issue_statement : TenantContext → BillingCycle → ℕ → Action Statement
issue_statement ctx cycle customer = do
  m ← gets (cycle_movements ctx.tenant_id customer cycle.id)
  opening_minor ← gets (opening_balance_minor ctx.tenant_id customer cycle)
  row_version ← next_row_version
  id ← new_id
  insert_statement (statement_of ctx cycle customer m opening_minor row_version id)
  pure (statement_of ctx cycle customer m opening_minor row_version id)

unfoldable pub issue_all : TenantContext → BillingCycle → List ℕ → Action (List Statement)
issue_all ctx cycle [] = pure []
issue_all ctx cycle (customer ∷ customers) = do
  s ← issue_statement ctx cycle customer
  ss ← issue_all ctx cycle customers
  pure (s ∷ ss)

unfoldable pub earn_all : TenantContext → BillingCycle → List Statement → Action (Unit {0})
earn_all ctx cycle [] = pure tt
earn_all ctx cycle (s ∷ ss) = do on_statement_issued ctx s cycle; earn_all ctx cycle ss

unfoldable pub issue_statements_for_cycle : TenantContext → BillingCycle → Action (List Statement)
issue_statements_for_cycle ctx cycle = do
  raise_when (← gets (λ db. any (is_unassigned ctx.tenant_id) db.ledger)) validation_failed
  customers ← gets (billable_customers ctx.tenant_id cycle)
  issued ← issue_all ctx cycle customers
  earn_all ctx cycle issued
  pure issued

abbrev pub closed_row : TenantContext → BillingCycle → BillingCycle
closed_row ctx c = record c {
  status = closed;
  closed_at = some ctx.now;
  closed_by_user_id = some ctx.user_id;
}
