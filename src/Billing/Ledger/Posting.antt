-- ===== src/Billing/Ledger/Posting.antt =====
-- What a posting does to the tables.
use recurring_service_platfo.Billing.Cycles.{open_cycle, ensure_open_cycle}
use recurring_service_platfo.Billing.Cycles.Open.{
  ensure_open_cycle-KeepsBooks, ensure_open_cycle-rollover,
}
use recurring_service_platfo.Session.{Db, bind-ok, bind-raise}
use recurring_service_platfo.Session.Tables.{insert_entry}
use recurring_service_platfo.Session.Frames.{KeepsRows}
use recurring_service_platfo.Base.{
  if◌then◌else◌, Bool-cases, cycle_rollover_required, ok, err, ℕ, ◌≡◌, ◌⊎◌, inl, inr, true, Option,
  none, some, ◌∷◌, arith,
}
use recurring_service_platfo.Base.Int.{ℤ, pos, is_zero}
use recurring_service_platfo.Core.Date.{Date, date_ltb}
use recurring_service_platfo.Models.{
  TenantContext, EntryKind, SourceType, LedgerEntry, BillingCycle,
}
use recurring_service_platfo.Billing.Ledger.{entry_of, post_unless, append_entry, post_entry}

append_entry-ok :
    (entry_in : ℕ → LedgerEntry) (ctx : TenantContext) (db db' : Db) (o : Option LedgerEntry)
    → append_entry entry_in ctx db ≡ ok (o, db')
    → (c : BillingCycle) × (db₁ : Db) × (ensure_open_cycle ctx db ≡ ok (c, db₁))
      × (db' ≡ record db₁ { ledger = entry_in c.id ∷ db₁.ledger })
unfolding append_entry insert_entry
append_entry-ok entry_in ctx db db' o h =
    let (c, db₁, opened, rest) = bind-ok (ensure_open_cycle ctx) _ db h in
    (c, db₁, opened, ground arith)

module _ (ctx : TenantContext) (customer : ℕ) (kind : EntryKind) (amount : ℤ) (on : Date)
    (source : SourceType) (id : ℕ) (db db' : Db) (o : Option LedgerEntry)
    (done : post_entry ctx customer kind amount on source id db ≡ ok (o, db')) where
  -- Nothing but the ledger and the cycles changes.
  pub post_entry-KeepsRows : KeepsRows db db'
  unfolding post_entry
  post_entry-KeepsRows = elim (Bool-cases (is_zero amount)) [
    | inl z ↦ ground arith
    | inr nz ↦
        let (c, db₁, opened, e) =
          append_entry-ok (entry_of ctx customer kind amount on source id) ctx db db' o
            (rw (nz, post_entry) at done) in
        let same = ensure_open_cycle-KeepsBooks ctx db db₁ c opened in ground arith
  ]

  -- A zero amount leaves the ledger; any other goes on top of it, in some cycle.
  pub post_entry-ledger :
      ((amount ≡ pos 0) × (db'.ledger ≡ db.ledger))
      ⊎ ((cycle : ℕ) × (db'.ledger
            ≡ entry_of ctx customer kind amount on source id cycle ∷ db.ledger))
  unfolding post_entry
  post_entry-ledger = elim (Bool-cases (is_zero amount)) [
    | inl z ↦ inl (ground arith, ground arith)
    | inr nz ↦
        let (c, db₁, opened, e) =
          append_entry-ok (entry_of ctx customer kind amount on source id) ctx db db' o
            (rw (nz, post_entry) at done) in
        let same = ensure_open_cycle-KeepsBooks ctx db db₁ c opened in inr (c.id, ground arith)
  ]

pub post_entry-zero :
    (ctx : TenantContext) (customer : ℕ) (kind : EntryKind) (amount : ℤ) (on : Date)
    (source : SourceType) (id : ℕ) (db : Db)
    → amount ≡ pos 0
    → post_entry ctx customer kind amount on source id db ≡ ok (none, db)
unfolding post_entry
post_entry-zero ctx customer kind amount on source id db h = ground arith

-- While the tenant's open cycle has its last day before today, a posting of a zero amount does
-- nothing and every other posting is refused with the rollover error
pub post_entry-rollover :
    (ctx : TenantContext) (customer : ℕ) (kind : EntryKind) (amount : ℤ) (on : Date)
    (source : SourceType) (id : ℕ) (db : Db) (c : BillingCycle)
    → open_cycle ctx db ≡ some c
    → date_ltb c.period_end ctx.today ≡ true
    → post_entry ctx customer kind amount on source id db
      ≡ (if is_zero amount then ok (none, db) else err cycle_rollover_required)
unfolding post_entry append_entry
post_entry-rollover ctx customer kind amount on source id db c opened over =
    elim (Bool-cases (is_zero amount)) [
      | inl z ↦ rw (z, post_unless)
      | inr nz ↦
          rw (nz, post_unless)
            (bind-raise (ensure_open_cycle ctx) _ db
              (ensure_open_cycle-rollover ctx db c opened over))
    ]
