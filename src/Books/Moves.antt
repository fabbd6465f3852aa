-- ===== src/Books/Moves.antt =====
-- By how much an accepted command moves the figures of a customer.
use recurring_service_platfo.Session.{Db, Action, ◌>>◌, pure, after, bind-ok}
use recurring_service_platfo.Session.Frames.{KeepsRows, Keeps}
use recurring_service_platfo.Session.Tables.{
  is_record, is_payment, audit_source_of, record_tenant_event,
}
use recurring_service_platfo.Base.{
  ◌==◌, Bool-cases, find, update_first, ok, ℕ, ◌≡◌, refl, sym, ap, ◌∙◌, ◌⊎◌, inl, inr, true, ◌&&◌,
  Option, none, some, arith,
}
use recurring_service_platfo.Base.Int.{ℤ, pos, ◌+ℤ◌, ◌-ℤ◌, neg, int_laws}
use recurring_service_platfo.Core.Text.{Text}
use recurring_service_platfo.Models.{
  TenantContext, ServiceKind, service, skip, unknown_kind, is_active_status, DailyServiceRecord,
  is_recorded, Payment, charge, adjustment, from_service_record, from_payment, LedgerEntry, Entity,
  service_record_entity, payment_entity, AuditAction, service_corrected, service_voided_action,
  payment_voided_action, AuditSource,
}
use recurring_service_platfo.Billing.Ledger.{post_entry}
use recurring_service_platfo.Billing.Ledger.Posting.{post_entry-KeepsRows}
use recurring_service_platfo.Billing.Reporting.{business_generated_minor, collected_minor}
use recurring_service_platfo.Commission.Engine.{
  on_service_recorded, on_service_corrected, on_service_voided, on_payment_voided,
}
use recurring_service_platfo.Commission.Engine.Frame.{
  on_service_recorded-Keeps, on_service_corrected-Keeps, on_service_voided-Keeps,
  on_payment_voided-Keeps,
}
use recurring_service_platfo.Service.Inputs.{
  RecordServiceInput, CorrectServiceInput, VoidServiceInput,
}
use recurring_service_platfo.Books.Recording.{
  prepare_recorded-Keeps, prepare_recorded-IsFresh, prepare_recorded-asked, store_recorded-ok,
  fresh-accepted, record_service-Balanced,
}
use recurring_service_platfo.Service.Commands.{
  post_when_service, recorded_action, settle_recorded, store_recorded, prepare_recorded,
  record_service, replace_record, settle_corrected, correct_service, void_row, settle_voided,
  void_service,
}
use recurring_service_platfo.Payments.Commands.{
  VoidPaymentInput, void_payment_row, settle_payment_voided, void_payment,
}
use recurring_service_platfo.Books.{share, accepted_value, received_value, Balanced}
use recurring_service_platfo.Books.Rows.{settle-Keeps}
use recurring_service_platfo.Books.Correcting.{
  retire, replace_record-ok, replace_record-accepted, checked_service-ok, correct_service-Balanced,
}
use recurring_service_platfo.Books.Voiding.{checked_void-ok, void_service-Balanced}
use recurring_service_platfo.Books.Paying.{refund, checked_payment_void-ok, void_payment-Balanced}

-- Business generated and collections of one customer move, and those of no other.
pub record Moves (tenant customer : ℕ) (generated collected : ℤ) (db db' : Db) : Type 0 where
  pub generated_by :
      (t c : ℕ)
      → business_generated_minor t (some c) none db'
        ≡ share t c tenant customer generated +ℤ business_generated_minor t (some c) none db
  pub collected_by :
      (t c : ℕ)
      → collected_minor t (some c) none db'
        ≡ share t c tenant customer collected +ℤ collected_minor t (some c) none db

share-none : (t c tenant customer : ℕ) (x : ℤ) → share t c tenant customer (pos 0) +ℤ x ≡ x
share-none t c tenant customer x = elim (Bool-cases (tenant == t && customer == c)) [
  | inl e ↦ rw e (omega int_laws)
  | inr e ↦ rw e (omega int_laws)
]

module _ (tenant customer : ℕ) (amount : ℤ) (db db' : Db) (b : Balanced db)
    (b' : Balanced db') where
  pub generated-Moves :
      ((t c : ℕ)
        → accepted_value t c db'.records
          ≡ share t c tenant customer amount +ℤ accepted_value t c db.records)
      → db'.payments ≡ db.payments
      → Moves tenant customer amount (pos 0) db db'
  generated-Moves change same = record {
    generated_by = λ t c.
        b'.generated t c
        ∙ change t c
        ∙ ap (λ x. share t c tenant customer amount +ℤ x) (sym (b.generated t c));
    collected_by = λ t c.
        b'.collected t c
        ∙ ap (received_value t c) same
        ∙ sym (b.collected t c)
        ∙ sym (share-none t c tenant customer (collected_minor t (some c) none db));
  }

  collected-Moves :
      ((t c : ℕ)
        → received_value t c db'.payments
          ≡ share t c tenant customer amount +ℤ received_value t c db.payments)
      → db'.records ≡ db.records
      → Moves tenant customer (pos 0) amount db db'
  collected-Moves change same = record {
    generated_by = λ t c.
        b'.generated t c
        ∙ ap (accepted_value t c) same
        ∙ sym (b.generated t c)
        ∙ sym (share-none t c tenant customer (business_generated_minor t (some c) none db));
    collected_by = λ t c.
        b'.collected t c
        ∙ change t c
        ∙ ap (λ x. share t c tenant customer amount +ℤ x) (sym (b.collected t c));
  }

-- What follows a write: the posting, the commission and the audit event.
pub settled-rows :
    {A : Type 0} (post : Action (Option LedgerEntry)) (hook : Action A) (ctx : TenantContext)
    (action : AuditAction) (id : ℕ) (before after : Option Entity) (reason : Option Text)
    (operation_id : ℕ) (source : AuditSource) (e e' : Entity) (db db' : Db)
    → ((d d' : Db) (o : Option LedgerEntry) → post d ≡ ok (o, d') → KeepsRows d d')
    → Keeps hook
    → (post
          >> (hook
              >> (record_tenant_event ctx action id before after reason operation_id source
                  >> pure e)))
        db
      ≡ ok (e', db')
    → (db'.records ≡ db.records) × (db'.payments ≡ db.payments) × (e' ≡ e)
settled-rows post hook ctx action id before after reason operation_id source e e' db db' keeps k h =
    let (o, db₁, e₁, h₁) = bind-ok post _ db h in
    let rows = keeps db db₁ o e₁ in
    let rest =
      settle-Keeps hook ctx action id before after reason operation_id source e k db₁ db' e' h₁ in
    let (a, db₂, e₂, h₂) = bind-ok hook _ db₁ h₁ in
    let (u, db₃, e₃, h₃) =
      bind-ok (record_tenant_event ctx action id before after reason operation_id source) _ db₂
        h₂ in
    (rest.same_records ∙ rows.same_records, rest.same_payments ∙ rows.same_payments, ground arith)

-- A correction that is accepted is of the record that was asked for, which was active, keeps
-- every customer's figures equal to its accepted business, and moves the business generated of
-- the customer by the charge of the returned replacement less that of the original; collections
-- and the figures of every other customer stay
pub correct_service-Moves :
    (ctx : TenantContext) (id : ℕ) (input : CorrectServiceInput) (operation_id : ℕ) (db db' : Db)
    (e : Entity)
    → Balanced db
    → correct_service ctx id input operation_id db ≡ ok (e, db')
    → Balanced db'
      × ((original : DailyServiceRecord) × (replacement : DailyServiceRecord) × (original.id ≡ id)
          × (find (is_record ctx.tenant_id original.id) db.records ≡ some original)
          × (is_active_status original.status ≡ true)
          × (e ≡ service_record_entity replacement)
          × Moves ctx.tenant_id original.customer_id
              (replacement.charge_minor -ℤ original.charge_minor)
              (pos 0)
              db
              db')
unfolding settle_corrected
correct_service-Moves ctx id input operation_id db db' e b h =
    let (reason, original, priced, live, own, found, key, h₁) =
      checked_service-ok ctx id input operation_id db db' e h in
    let (replacement, db₁, e₁, h₂) =
      bind-ok (replace_record ctx input operation_id reason original priced) _ db h₁ in
    let amount = replacement.charge_minor -ℤ original.charge_minor in
    let (_, _, _, _, _, same_ledger, same_payments, _) =
      replace_record-ok ctx input operation_id reason original priced db db₁ replacement e₁ in
    let (records, payments, out) =
      settled-rows
        (post_entry ctx original.customer_id adjustment amount original.service_date
          from_service_record original.id)
        (on_service_corrected ctx original replacement reason) ctx service_corrected replacement.id
        (some (service_record_entity original)) (some (service_record_entity replacement))
        (some reason) operation_id (audit_source_of input.source)
        (service_record_entity replacement) e db₁ db'
        (post_entry-KeepsRows ctx original.customer_id adjustment amount original.service_date
          from_service_record original.id)
        (on_service_corrected-Keeps ctx original replacement reason) h₂ in
    let b' = correct_service-Balanced ctx id input operation_id db db' e b h in
    (
      b',
      (
        original,
        replacement,
        key,
        found,
        live,
        out,
        generated-Moves ctx.tenant_id original.customer_id amount db db' b b'
            (λ t c.
              ap (accepted_value t c) records
              ∙ replace_record-accepted ctx input operation_id reason original priced db db₁
                  replacement e₁ t c own live found)
            (payments ∙ same_payments),
      ),
    )

-- A void that is accepted is of the record that was asked for, which was active, keeps every
-- customer's figures equal to its accepted business, and takes the whole charge of the record out
-- of the business generated of its customer; collections and the figures of every other customer
-- stay
pub void_service-Moves :
    (ctx : TenantContext) (id : ℕ) (input : VoidServiceInput) (operation_id : ℕ) (db db' : Db)
    (e : Entity)
    → Balanced db
    → void_service ctx id input operation_id db ≡ ok (e, db')
    → Balanced db'
      × ((r : DailyServiceRecord) × (r.id ≡ id)
          × (find (is_record ctx.tenant_id r.id) db.records ≡ some r)
          × (is_active_status r.status ≡ true)
          × Moves ctx.tenant_id r.customer_id (neg r.charge_minor) (pos 0) db db')
unfolding settle_voided
void_service-Moves ctx id input operation_id db db' e b h =
    let (reason, r, v, live, own, found, key, h₁) =
      checked_void-ok ctx id input operation_id db db' e h in
    let gone = void_row reason v r in
    let db₁ : Db = record db {
      row_version = v;
      records = update_first (is_record ctx.tenant_id r.id) (void_row reason v) db.records;
    } in
    let (records, payments, out) =
      settled-rows
        (post_entry ctx r.customer_id adjustment (neg r.charge_minor) r.service_date
          from_service_record r.id)
        (on_service_voided ctx gone reason) ctx service_voided_action r.id
        (some (service_record_entity r)) (some (service_record_entity gone)) (some reason)
        operation_id (audit_source_of input.source) (service_record_entity gone) e db₁ db'
        (post_entry-KeepsRows ctx r.customer_id adjustment (neg r.charge_minor) r.service_date
          from_service_record r.id)
        (on_service_voided-Keeps ctx gone reason) h₁ in
    let b' = void_service-Balanced ctx id input operation_id db db' e b h in
    (
      b',
      (
        r,
        key,
        found,
        live,
        generated-Moves ctx.tenant_id r.customer_id (neg r.charge_minor) db db' b b'
            (λ t c.
              ap (accepted_value t c) records
              ∙ retire ctx r own live t c (void_row reason v) db.records found (ground arith))
            payments,
      ),
    )

-- A void that is accepted is of the payment that was asked for, which was recorded, keeps every
-- customer's figures equal to its accepted business, and takes the amount of the payment out of
-- the collections of its customer; business generated and the figures of every other customer
-- stay
pub void_payment-Moves :
    (ctx : TenantContext) (id : ℕ) (input : VoidPaymentInput) (operation_id : ℕ) (db db' : Db)
    (e : Entity)
    → Balanced db
    → void_payment ctx id input operation_id db ≡ ok (e, db')
    → Balanced db'
      × ((p : Payment) × (p.id ≡ id)
          × (find (is_payment ctx.tenant_id p.id) db.payments ≡ some p)
          × (is_recorded p.status ≡ true)
          × Moves ctx.tenant_id p.customer_id (pos 0) (neg p.amount_minor) db db')
unfolding settle_payment_voided
void_payment-Moves ctx id input operation_id db db' e b h =
    let (reason, p, v, live, own, found, key, h₁) =
      checked_payment_void-ok ctx id input operation_id db db' e h in
    let gone = void_payment_row ctx reason v p in
    let db₁ : Db = record db {
      row_version = v;
      payments =
          update_first (is_payment ctx.tenant_id p.id) (void_payment_row ctx reason v) db.payments;
    } in
    let (records, payments, out) =
      settled-rows
        (post_entry ctx p.customer_id adjustment p.amount_minor p.received_on from_payment p.id)
        (on_payment_voided ctx gone reason) ctx payment_voided_action p.id (some (payment_entity p))
        (some (payment_entity gone)) (some reason) operation_id (audit_source_of input.source)
        (payment_entity gone) e db₁ db'
        (post_entry-KeepsRows ctx p.customer_id adjustment p.amount_minor p.received_on from_payment
          p.id)
        (on_payment_voided-Keeps ctx gone reason) h₁ in
    let b' = void_payment-Balanced ctx id input operation_id db db' e b h in
    (
      b',
      (
        p,
        key,
        found,
        live,
        collected-Moves ctx.tenant_id p.customer_id (neg p.amount_minor) db db' b b'
            (λ t c.
              ap (received_value t c) payments
              ∙ refund ctx p t c (void_payment_row ctx reason v) db.payments own live found
                  (ground arith))
            records,
      ),
    )

post_when_service-rows :
    (kind : ServiceKind) (ctx : TenantContext) (r : DailyServiceRecord) (db db' : Db)
    (o : Option LedgerEntry)
    → post_when_service ctx r kind db ≡ ok (o, db')
    → KeepsRows db db'
post_when_service-rows service ctx r db db' o h =
    post_entry-KeepsRows ctx r.customer_id charge r.charge_minor r.service_date from_service_record
      r.id db db' o h
post_when_service-rows skip ctx r db db' o h = ground arith
post_when_service-rows unknown_kind ctx r db db' o h = ground arith

post_when_service-ledger :
    (kind : ServiceKind) (ctx : TenantContext) (r : DailyServiceRecord) (db db' : Db)
    (o : Option LedgerEntry)
    → post_when_service ctx r kind db ≡ ok (o, db')
    → (kind ≡ service) ⊎ (db'.ledger ≡ db.ledger)
post_when_service-ledger service ctx r db db' o h = inl refl
post_when_service-ledger skip ctx r db db' o h = inr (ground arith)
post_when_service-ledger unknown_kind ctx r db db' o h = inr (ground arith)

settled-ledger :
    (ctx : TenantContext) (r : DailyServiceRecord) (operation_id : ℕ) (db db' : Db) (e : Entity)
    → settle_recorded ctx r operation_id db ≡ ok (e, db')
    → (r.kind ≡ service) ⊎ (db'.ledger ≡ db.ledger)
unfolding settle_recorded
settled-ledger ctx r operation_id db db' e h =
    let (o, db₁, e₁, h₁) = bind-ok (post_when_service ctx r r.kind) _ db h in
    let rest =
      settle-Keeps (on_service_recorded ctx r) ctx (recorded_action r.kind) r.id none
        (some (service_record_entity r)) none operation_id (audit_source_of r.source)
        (service_record_entity r) (on_service_recorded-Keeps ctx r) db₁ db' e h₁ in
    elim (post_when_service-ledger r.kind ctx r db db₁ o e₁) [
      | inl k ↦ inl k
      | inr same ↦ inr (rest.same_ledger ∙ same)
    ]

-- Recording a service or a skip returns a record of the requested kind and customer, keeps every
-- customer's figures equal to its accepted business, and moves the business generated of the
-- customer by the charge of the record; a record that is no service leaves the ledger as it was,
-- and collections and the figures of every other customer stay
pub record_service-Moves :
    (ctx : TenantContext) (input : RecordServiceInput) (operation_id : ℕ) (db db' : Db) (e : Entity)
    → Balanced db
    → record_service ctx input operation_id db ≡ ok (e, db')
    → Balanced db'
      × ((r : DailyServiceRecord) × (e ≡ service_record_entity r)
          × (r.kind ≡ input.kind)
          × (r.customer_id ≡ input.customer_id)
          × ((r.kind ≡ service) ⊎ (db'.ledger ≡ db.ledger))
          × Moves ctx.tenant_id r.customer_id r.charge_minor (pos 0) db db')
unfolding record_service settle_recorded
record_service-Moves ctx input operation_id db db' e b h =
    let (r, db₁, e₁, h₁) = bind-ok (prepare_recorded ctx input operation_id) _ db h in
    let (u, db₂, e₂, h₂) = bind-ok (store_recorded r) _ db₁ h₁ in
    let kept = prepare_recorded-Keeps ctx input operation_id db db₁ r e₁ in
    let fresh = prepare_recorded-IsFresh ctx input operation_id db db₁ r e₁ in
    let (kind, whose, day) = prepare_recorded-asked ctx input operation_id db db₁ r e₁ in
    let stored = store_recorded-ok r db₁ db₂ u e₂ in
    let (records, payments, out) =
      settled-rows (post_when_service ctx r r.kind) (on_service_recorded ctx r) ctx
        (recorded_action r.kind) r.id none (some (service_record_entity r)) none operation_id
        (audit_source_of r.source) (service_record_entity r) e db₂ db'
        (post_when_service-rows r.kind ctx r) (on_service_recorded-Keeps ctx r) h₂ in
    let b' = record_service-Balanced ctx input operation_id db db' e b h in
    (
      b',
      (
        r,
        out,
        kind,
        whose,
        elim (settled-ledger ctx r operation_id db₂ db' e h₂) [
          | inl k ↦ inl k
          | inr same ↦ inr (same ∙ ap (λ (d : Db). d.ledger) stored ∙ kept.same_ledger)
        ],
        generated-Moves ctx.tenant_id r.customer_id r.charge_minor db db' b b'
            (λ t c.
              ap (accepted_value t c) (records ∙ ap (λ (d : Db). d.records) stored)
              ∙ fresh-accepted t c ctx r db₁.records fresh
              ∙ ap
                  (λ rs.
                    share t c ctx.tenant_id r.customer_id r.charge_minor +ℤ accepted_value t c rs)
                  kept.same_records)
            (payments ∙ ap (λ (d : Db). d.payments) stored ∙ kept.same_payments),
      ),
    )
