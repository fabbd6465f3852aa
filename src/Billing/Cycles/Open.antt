-- ===== src/Billing/Cycles/Open.antt =====
-- The open cycle: what `ensure_open_cycle` returns, and when it refuses (P0 §5.5).
use recurring_service_platfo.Billing.Cycles.Periods.{period_holds}
use recurring_service_platfo.Session.{Db, new_id}
use recurring_service_platfo.Session.Tables.{is_open_cycle, clashes_with, insert_cycle}
use recurring_service_platfo.Session.Frames.{KeepsBooks}
use recurring_service_platfo.Base.{
  Option-cases, find, any, find-holds, cycle_rollover_required, ok, err, ◌≤◌, ◌≡◌, refl, ◌⊎◌, inl,
  inr, true, false, none, some, List, [], ◌∷◌, arith,
}
use recurring_service_platfo.Core.Date.{IsDate, date_ltb, date_leb}
use recurring_service_platfo.Models.{TenantContext, open_status, is_open, BillingCycle}
use recurring_service_platfo.Billing.Cycles.{
  period_bounds, open_cycle, create_cycle, usable_cycle, ensure_open_cycle,
}

pub ensure_open_cycle-KeepsBooks :
    (ctx : TenantContext) (db db' : Db) (c : BillingCycle)
    → ensure_open_cycle ctx db ≡ ok (c, db')
    → KeepsBooks db db'
unfolding ensure_open_cycle create_cycle usable_cycle period_bounds new_id insert_cycle
ensure_open_cycle-KeepsBooks ctx db db' c h = ground arith

-- The context of a tenant row that its CHECK constraints admit.
pub record IsTenant (ctx : TenantContext) : Type 0 where
  pub start_lo : 1 ≤ ctx.cycle_start_day
  pub start_hi : ctx.cycle_start_day ≤ 28
  pub today_valid : IsDate ctx.today
  pub today_year : 2 ≤ ctx.today.year

-- For a tenant whose start day is 1 to 28 and a valid business date, a cycle that is returned for
-- posting is the tenant's stored open cycle and does not end before today
pub ensure_open_cycle_sound :
    (ctx : TenantContext) (db db' : Db) (c : BillingCycle)
    → IsTenant ctx
    → ensure_open_cycle ctx db ≡ ok (c, db')
    → (open_cycle ctx db' ≡ some c)
      × (c.tenant_id ≡ ctx.tenant_id)
      × (c.status ≡ open_status)
      × (date_leb ctx.today c.period_end ≡ true)
unfolding ensure_open_cycle create_cycle usable_cycle period_bounds new_id insert_cycle open_cycle
ensure_open_cycle_sound ctx db db' c t h =
    elim (Option-cases (find (is_open_cycle ctx.tenant_id) db.cycles)) [
      | inl e ↦ ground (
        arith,
        period_holds ctx.cycle_start_day ctx.today t.start_lo t.start_hi t.today_valid t.today_year,
      )
      | inr (o, e) ↦ ground (arith, find-holds (is_open_cycle ctx.tenant_id) db.cycles o e)
    ]

-- At most one cycle of a tenant is open.
abbrev pub OneOpen : List BillingCycle → Type 0
OneOpen [] = Unit
OneOpen (c ∷ cs) =
    (is_open c.status ≡ true → any (is_open_cycle c.tenant_id) cs ≡ false) × OneOpen cs

clashes_with-open :
    (c : BillingCycle) (cs : List BillingCycle)
    → any (clashes_with c) cs ≡ false
    → any (is_open_cycle c.tenant_id) cs ≡ false
clashes_with-open c [] h = refl
clashes_with-open c (o ∷ cs) h = ground (arith, clashes_with-open c cs)

-- Where every tenant has at most one open cycle, it still has at most one after a cycle was found
-- or opened
pub ensure_open_cycle-OneOpen :
    (ctx : TenantContext) (db db' : Db) (c : BillingCycle)
    → OneOpen db.cycles
    → ensure_open_cycle ctx db ≡ ok (c, db')
    → OneOpen db'.cycles
unfolding ensure_open_cycle create_cycle usable_cycle period_bounds new_id insert_cycle
ensure_open_cycle-OneOpen ctx db db' c v h = ground (arith, clashes_with-open c db.cycles)

-- An open cycle whose last day lies before today refuses every posting with the rollover error
pub ensure_open_cycle-rollover :
    (ctx : TenantContext) (db : Db) (c : BillingCycle)
    → open_cycle ctx db ≡ some c
    → date_ltb c.period_end ctx.today ≡ true
    → ensure_open_cycle ctx db ≡ err cycle_rollover_required
unfolding ensure_open_cycle usable_cycle
ensure_open_cycle-rollover ctx db c h e = ground arith

found-again :
    (ctx : TenantContext) (db : Db) (c : BillingCycle)
    → open_cycle ctx db ≡ some c
    → date_leb ctx.today c.period_end ≡ true
    → ensure_open_cycle ctx db ≡ ok (c, db)
unfolding ensure_open_cycle usable_cycle
found-again ctx db c h e = ground arith

-- Where no tenant has two open cycles, finding or opening the cycle of a tenant whose start day
-- is 1 to 28 on a valid date keeps that, and asking again on the same day returns the same cycle
-- and changes nothing
pub ensure_open_cycle-again :
    (ctx : TenantContext) (db db' : Db) (c : BillingCycle)
    → IsTenant ctx
    → OneOpen db.cycles
    → ensure_open_cycle ctx db ≡ ok (c, db')
    → OneOpen db'.cycles × (ensure_open_cycle ctx db' ≡ ok (c, db'))
ensure_open_cycle-again ctx db db' c t v h =
    let (there, own, live, holds) = ensure_open_cycle_sound ctx db db' c t h in
    (ensure_open_cycle-OneOpen ctx db db' c v h, found-again ctx db' c there holds)

-- A cycle that is open already is the one that is returned.
pub ensure_open_cycle-kept :
    (ctx : TenantContext) (db db' : Db) (c : BillingCycle)
    → ensure_open_cycle ctx db ≡ ok (c, db')
    → (open_cycle ctx db ≡ none) ⊎ (open_cycle ctx db ≡ some c)
unfolding ensure_open_cycle usable_cycle open_cycle
ensure_open_cycle-kept ctx db db' c h =
    elim (Option-cases (find (is_open_cycle ctx.tenant_id) db.cycles)) [
      | inl e ↦ inl e
      | inr (o, e) ↦ inr (ground arith)
    ]
