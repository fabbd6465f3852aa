-- ===== src/Session.antt =====
-- One database session (core/db.py): the tables, and a command's transaction.
--
-- A command returns its result with the new tables, or the error that it raised: the caller then
-- rolls back, so nothing that it wrote is left.
pub mod Tables
pub mod Frames
pub mod Isolation
pub mod Triples
use recurring_service_platfo.Base.{
  Error, integrity_error, Result, ok, err, ℕ, suc, ◌+◌, ◌-◌, ◌/◌, ◌≡◌, refl, Bool, true, false, not,
  List, arith,
}
use recurring_service_platfo.Models.{
  Customer, DailyServiceRecord, CustomerAlias, Reminder, CommunicationLog, JobRun, Tenant, AppUser,
  Payment, payment, adjustment, LedgerEntry, BillingCycle, Statement, CommissionPlan,
  CommissionEvent, CommissionAdjustment, CommissionSettlement, AuditEvent, SyncOperation,
}

pub record Db : Type 0 where
  pub customers : List Customer
  pub records : List DailyServiceRecord
  pub payments : List Payment
  pub cycles : List BillingCycle
  pub ledger : List LedgerEntry
  pub statements : List Statement
  pub plans : List CommissionPlan
  pub events : List CommissionEvent
  pub adjustments : List CommissionAdjustment
  pub settlements : List CommissionSettlement
  pub audit_events : List AuditEvent
  pub operations : List SyncOperation
  pub aliases : List CustomerAlias
  pub reminders : List Reminder
  pub communication_log : List CommunicationLog
  pub job_runs : List JobRun
  pub tenants : List Tenant
  pub users : List AppUser
  pub next_id : ℕ
  pub row_version : ℕ

abbrev pub Action : Type 0 → Type 0
Action A = Db → Result (A × Db)

infixl 5 ◌>>=◌ ◌>>◌
abbrev pub ◌>>=◌ : {A B : Type 0} → Action A → (A → Action B) → Action B
◌>>=◌ m f db = elim (m db) [ ok r ↦ f r.0 r.1 | err e ↦ err e ]

abbrev pub ◌>>◌ : {A B : Type 0} → Action A → Action B → Action B
m >> k = m >>= λ _. k

abbrev pub pure : {A : Type 0} → A → Action A
pure a db = ok (a, db)

abbrev pub raise : {A : Type 0} → Error → Action A
raise e db = err e

abbrev pub lift : {A : Type 0} → Result A → Action A
lift (ok a) db = ok (a, db)
lift (err e) db = err e

abbrev pub raise_when : Bool → Error → Action (Unit {0})
raise_when true e db = err e
raise_when false e db = ok (tt, db)

abbrev pub gets : {A : Type 0} → (Db → A) → Action A
gets f db = ok (f db, db)

abbrev pub modify : (Db → Db) → Action (Unit {0})
modify f db = ok (tt, f db)

-- `except IntegrityError: … raise e`, for an index whose violation has its own domain error.
abbrev pub on_integrity_error : {A : Type 0} → Error → Action A → Action A
on_integrity_error e m db = elim (m db) [
  | ok r ↦ ok r
  | err integrity_error ↦ err e
  | err f ↦ err f
]

-- The default of every primary key.
unfoldable pub new_id : Action ℕ
new_id db = ok (db.next_id, record db { next_id = db.next_id + 1 })

-- `SELECT nextval(…)`.
unfoldable pub next_row_version : Action ℕ
next_row_version db = ok (db.row_version + 1, record db { row_version = db.row_version + 1 })

-- What a state the caller sees after a transaction: rolled back when it raised.
abbrev pub after : {A : Type 0} → Db → Result (A × Db) → Db
after db (ok r) = r.1
after db (err e) = db

split_ok :
    {A B : Type 0} (o : Result (A × Db)) (f : A → Action B) {r : B × Db}
    → elim o [ ok q ↦ f q.0 q.1 | err e ↦ err e ] ≡ ok r
    → (a : A) × (db' : Db) × (o ≡ ok (a, db')) × (f a db' ≡ ok r)
split_ok (ok q) f h = (q.0, q.1, refl, h)
split_ok (err e) f h = cc

-- A chain that succeeds has steps that succeed.
pub bind-ok :
    {A B : Type 0} (m : Action A) (f : A → Action B) (db : Db) {r : B × Db}
    → (m >>= f) db ≡ ok r
    → (a : A) × (db' : Db) × (m db ≡ ok (a, db')) × (f a db' ≡ ok r)
bind-ok m f db h = split_ok (m db) f h

-- A chain whose first step succeeds goes on from there.
pub bind-run :
    {A B : Type 0} (m : Action A) (f : A → Action B) (db : Db) {a : A} {db' : Db}
    → m db ≡ ok (a, db')
    → (m >>= f) db ≡ f a db'
bind-run m f db h = rw (h, ◌>>=◌)

-- A chain whose first step raises has raised.
pub bind-raise :
    {A B : Type 0} (m : Action A) (f : A → Action B) (db : Db) {e : Error}
    → m db ≡ err e
    → (m >>= f) db ≡ err e
bind-raise m f db h = rw (h, ◌>>=◌)

-- What a step that only returns says of the tables.
pub returned_state : {A : Type 0} (a b : A) (db db' : Db) → pure a db ≡ ok (b, db') → db ≡ db'
returned_state a b db db' h = ground arith
