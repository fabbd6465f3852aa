-- ===== src/Session/Frames.antt =====
-- What an operation leaves alone: the rows from which the balances are computed.
use recurring_service_platfo.Session.{
  Db, Action, ◌>>=◌, pure, lift, raise_when, gets, new_id, next_row_version, bind-ok,
}
use recurring_service_platfo.Base.{Error, Result, ok, err, ◌≡◌, refl, ◌∙◌, Bool, true, false, arith}
use recurring_service_platfo.Models.{AuditEvent}
use recurring_service_platfo.Session.Tables.{record_audit_event}

-- Accepted business is untouched; the ledger may grow.
pub record KeepsRows (db db' : Db) : Type 0 where
  pub same_records : db'.records ≡ db.records
  pub same_payments : db'.payments ≡ db.payments
  pub same_customers : db'.customers ≡ db.customers

-- Nothing from which a balance is computed has changed.
pub record KeepsBooks (db db' : Db) : Type 0 where
  pub same_records : db'.records ≡ db.records
  pub same_payments : db'.payments ≡ db.payments
  pub same_customers : db'.customers ≡ db.customers
  pub same_ledger : db'.ledger ≡ db.ledger

pub KeepsBooks-refl : (db : Db) → KeepsBooks db db
KeepsBooks-refl db = record {
  same_records = refl;
  same_payments = refl;
  same_customers = refl;
  same_ledger = refl;
}

pub KeepsBooks-trans : {a b c : Db} → KeepsBooks a b → KeepsBooks b c → KeepsBooks a c
KeepsBooks-trans h k = record {
  same_records = k.same_records ∙ h.same_records;
  same_payments = k.same_payments ∙ h.same_payments;
  same_customers = k.same_customers ∙ h.same_customers;
  same_ledger = k.same_ledger ∙ h.same_ledger;
}

-- An action all of whose successful runs keep the books.
abbrev pub Keeps : {A : Type 0} → Action A → Type 0
Keeps {A} m = (db db' : Db) (a : A) → m db ≡ ok (a, db') → KeepsBooks db db'

-- An action that is followed by ones that keep the books.
pub Keeps-bind :
    {A B : Type 0} (m : Action A) (f : A → Action B)
    → Keeps m
    → ((a : A) → Keeps (f a))
    → Keeps (m >>= f)
Keeps-bind m f hm hf db db' b h =
    let (a, db₁, e, e') = bind-ok m f db h in KeepsBooks-trans (hm db db₁ a e) (hf a db₁ db' b e')

-- An action that leaves the tables as they are.
pub Keeps-same :
    {A : Type 0} (m : Action A) → ((db db' : Db) (a : A) → m db ≡ ok (a, db') → db' ≡ db) → Keeps m
Keeps-same m same db db' a h = rw (same db db' a h) (KeepsBooks-refl db)

pub Keeps-pure : {A : Type 0} (a : A) → Keeps (pure a)
Keeps-pure a = Keeps-same (pure a) (λ db db' b h. ground arith)

pub Keeps-lift : {A : Type 0} (r : Result A) → Keeps (lift r)
Keeps-lift (ok a) = Keeps-same (lift (ok a)) (λ db db' b h. ground arith)
Keeps-lift (err e) = Keeps-same (lift (err e)) (λ db db' b h. cc)

pub Keeps-raise_when : (b : Bool) (e : Error) → Keeps (raise_when b e)
Keeps-raise_when true e = λ db db' b h. cc
Keeps-raise_when false e = Keeps-same (raise_when false e) (λ db db' b h. ground arith)

pub Keeps-gets : {A : Type 0} (f : Db → A) → Keeps (gets f)
Keeps-gets f = Keeps-same (gets f) (λ db db' b h. ground arith)

pub Keeps-new_id : Keeps new_id
unfolding new_id
Keeps-new_id db db' a h = ground arith

pub Keeps-next_row_version : Keeps next_row_version
unfolding next_row_version
Keeps-next_row_version db db' a h = ground arith

pub Keeps-record_audit_event : (e : AuditEvent) → Keeps (record_audit_event e)
Keeps-record_audit_event e db db' a h = ground arith

-- What a step that succeeded says of its test or its value.
pub lift-ok : {A : Type 0} (r : Result A) (db db' : Db) (a : A) → lift r db ≡ ok (a, db') → r ≡ ok a
lift-ok (ok x) db db' a h = ground arith
lift-ok (err e) db db' a h = cc

pub not_raised :
    (b : Bool) (e : Error) (db db' : Db) (u : Unit {0})
    → raise_when b e db ≡ ok (u, db')
    → b ≡ false
not_raised true e db db' u h = cc
not_raised false e db db' u h = refl

pub lift-same :
    {A : Type 0} (r : Result A) (db db' : Db) (a : A) → lift r db ≡ ok (a, db') → db' ≡ db
lift-same (ok x) db db' a h = ground arith
lift-same (err e) db db' a h = cc

pub raise_when-same :
    (b : Bool) (e : Error) (db db' : Db) (u : Unit {0}) → raise_when b e db ≡ ok (u, db') → db' ≡ db
raise_when-same true e db db' u h = cc
raise_when-same false e db db' u h = ground arith
