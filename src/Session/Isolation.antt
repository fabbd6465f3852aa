-- ===== src/Session/Isolation.antt =====
-- What one tenant's action leaves alone: the rows of another tenant.
use recurring_service_platfo.Session.{
  Db, Action, ◌>>=◌, pure, lift, raise_when, gets, new_id, next_row_version, bind-ok,
}
use recurring_service_platfo.Session.Tables.{
  insert_record, is_record, update_record, is_payment, insert_payment, update_payment, insert_entry,
  insert_cycle, record_audit_event,
}
use recurring_service_platfo.Session.Frames.{lift-same, raise_when-same}
use recurring_service_platfo.Base.{
  ◌==◌, filter, filter-update_first, Error, Result, ok, ℕ, ◌≡◌, refl, ◌∙◌, Bool, false, arith,
}
use recurring_service_platfo.Models.{
  DailyServiceRecord, Payment, LedgerEntry, BillingCycle, AuditEvent,
}

-- The rows of tenant `t`, of every table that a command writes, and the register of operations.
pub record Untouched (t : ℕ) (db db' : Db) : Type 0 where
  pub records_of :
      filter (λ r. r.tenant_id == t) db'.records ≡ filter (λ r. r.tenant_id == t) db.records
  pub payments_of :
      filter (λ p. p.tenant_id == t) db'.payments ≡ filter (λ p. p.tenant_id == t) db.payments
  pub cycles_of :
      filter (λ c. c.tenant_id == t) db'.cycles ≡ filter (λ c. c.tenant_id == t) db.cycles
  pub ledger_of :
      filter (λ e. e.tenant_id == t) db'.ledger ≡ filter (λ e. e.tenant_id == t) db.ledger
  pub statements_of :
      filter (λ s. s.tenant_id == t) db'.statements ≡ filter (λ s. s.tenant_id == t) db.statements
  pub events_of :
      filter (λ e. e.tenant_id == t) db'.events ≡ filter (λ e. e.tenant_id == t) db.events
  pub adjustments_of :
      filter (λ a. a.tenant_id == t) db'.adjustments ≡ filter (λ a. a.tenant_id == t) db.adjustments
  pub audit_of :
      filter (λ e. e.tenant_id == t) db'.audit_events
      ≡ filter (λ e. e.tenant_id == t) db.audit_events
  pub same_operations : db'.operations ≡ db.operations

pub Untouched-refl : (t : ℕ) (db : Db) → Untouched t db db
Untouched-refl t db = record {
  records_of = refl;
  payments_of = refl;
  cycles_of = refl;
  ledger_of = refl;
  statements_of = refl;
  events_of = refl;
  adjustments_of = refl;
  audit_of = refl;
  same_operations = refl;
}

pub Untouched-trans : {t : ℕ} {a b c : Db} → Untouched t a b → Untouched t b c → Untouched t a c
Untouched-trans h k = record {
  records_of = k.records_of ∙ h.records_of;
  payments_of = k.payments_of ∙ h.payments_of;
  cycles_of = k.cycles_of ∙ h.cycles_of;
  ledger_of = k.ledger_of ∙ h.ledger_of;
  statements_of = k.statements_of ∙ h.statements_of;
  events_of = k.events_of ∙ h.events_of;
  adjustments_of = k.adjustments_of ∙ h.adjustments_of;
  audit_of = k.audit_of ∙ h.audit_of;
  same_operations = k.same_operations ∙ h.same_operations;
}

-- An action all of whose successful runs leave the tenant's rows alone.
abbrev pub Spares : {A : Type 0} → ℕ → Action A → Type 0
Spares {A} t m = (db db' : Db) (a : A) → m db ≡ ok (a, db') → Untouched t db db'

module _ {t : ℕ} where
  pub Spares-bind :
      {A B : Type 0} (m : Action A) (f : A → Action B)
      → Spares t m
      → ((a : A) → Spares t (f a))
      → Spares t (m >>= f)
  Spares-bind m f hm hf db db' b h =
      let (a, db₁, e, e') = bind-ok m f db h in Untouched-trans (hm db db₁ a e) (hf a db₁ db' b e')

  pub Spares-same :
      {A : Type 0} (m : Action A)
      → ((db db' : Db) (a : A) → m db ≡ ok (a, db') → db' ≡ db)
      → Spares t m
  Spares-same m same db db' a h = rw (same db db' a h) (Untouched-refl t db)

  pub Spares-pure : {A : Type 0} (a : A) → Spares t (pure a)
  Spares-pure a = Spares-same (pure a) (λ db db' b h. ground arith)

  pub Spares-lift : {A : Type 0} (r : Result A) → Spares t (lift r)
  Spares-lift r = Spares-same (lift r) (lift-same r)

  pub Spares-raise_when : (b : Bool) (e : Error) → Spares t (raise_when b e)
  Spares-raise_when b e = Spares-same (raise_when b e) (raise_when-same b e)

  pub Spares-gets : {A : Type 0} (f : Db → A) → Spares t (gets f)
  Spares-gets f = Spares-same (gets f) (λ db db' b h. ground arith)

  pub Spares-new_id : Spares t new_id
  unfolding new_id
  Spares-new_id db db' a h = ground arith

  pub Spares-next_row_version : Spares t next_row_version
  unfolding next_row_version
  Spares-next_row_version db db' a h = ground arith

  pub Spares-record_audit_event :
      (e : AuditEvent) → (e.tenant_id == t) ≡ false → Spares t (record_audit_event e)
  Spares-record_audit_event e foreign db db' a h = ground arith

  pub Spares-insert_record :
      (r : DailyServiceRecord) → (r.tenant_id == t) ≡ false → Spares t (insert_record r)
  unfolding insert_record
  Spares-insert_record r foreign db db' a h = ground arith

  pub Spares-update_record :
      (tenant id : ℕ) (f : DailyServiceRecord → DailyServiceRecord)
      → (tenant == t) ≡ false
      → ((r : DailyServiceRecord) → (f r).tenant_id ≡ r.tenant_id)
      → Spares t (update_record tenant id f)
  Spares-update_record tenant id f foreign keeps db db' a h =
      let rows =
        filter-update_first (λ r. r.tenant_id == t) (is_record tenant id) f db.records
          (λ r k. (ground arith, let own = keeps r in ground arith)) in
      ground (arith, rows)

  pub Spares-insert_payment :
      (p : Payment) → (p.tenant_id == t) ≡ false → Spares t (insert_payment p)
  Spares-insert_payment p foreign db db' a h = ground arith

  pub Spares-update_payment :
      (tenant id : ℕ) (f : Payment → Payment)
      → (tenant == t) ≡ false
      → ((p : Payment) → (f p).tenant_id ≡ p.tenant_id)
      → Spares t (update_payment tenant id f)
  Spares-update_payment tenant id f foreign keeps db db' a h =
      let rows =
        filter-update_first (λ p. p.tenant_id == t) (is_payment tenant id) f db.payments
          (λ p k. (ground arith, let own = keeps p in ground arith)) in
      ground (arith, rows)

  pub Spares-insert_entry :
      (e : LedgerEntry) → (e.tenant_id == t) ≡ false → Spares t (insert_entry e)
  unfolding insert_entry
  Spares-insert_entry e foreign db db' a h = ground arith

  pub Spares-insert_cycle :
      (c : BillingCycle) → (c.tenant_id == t) ≡ false → Spares t (insert_cycle c)
  unfolding insert_cycle
  Spares-insert_cycle c foreign db db' a h = ground arith
