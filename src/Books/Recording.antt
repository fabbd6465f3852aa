-- ===== src/Books/Recording.antt =====
-- record_service of backend/app/service/commands.py keeps the books.
use recurring_service_platfo.Service.Inputs.{RecordServiceInput}
use recurring_service_platfo.Billing.Ledger.{post_service_charge}
use recurring_service_platfo.Commission.Engine.Frame.{on_service_recorded-Keeps}
use recurring_service_platfo.Billing.Ledger.Posting.{post_entry-zero}
use recurring_service_platfo.Commission.Engine.{on_service_recorded}
use recurring_service_platfo.Books.Rows.{Balanced-service, settle-Keeps}
use recurring_service_platfo.Session.{Db, lift, raise_when, new_id, next_row_version, bind-ok}
use recurring_service_platfo.Session.Frames.{
  Keeps, Keeps-bind, Keeps-pure, Keeps-lift, Keeps-raise_when, Keeps-new_id, Keeps-next_row_version,
  lift-ok, not_raised,
}
use recurring_service_platfo.Session.Tables.{insert_record, is_customer, audit_source_of}
use recurring_service_platfo.Base.{
  Option-cases, find, find-holds, validation_failed, ok, ℕ, ◌≡◌, refl, sym, ap, ◌∙◌, ◌⊎◌, inl, inr,
  true, not, Option, none, some, List, ◌∷◌, arith,
}
use recurring_service_platfo.Base.Int.{ℤ, pos, ◌+ℤ◌}
use recurring_service_platfo.Core.Clock.{resolve_date}
use recurring_service_platfo.Core.Money.{PyValue}
use recurring_service_platfo.Models.{
  TenantContext, Customer, ServiceKind, service, skip, unknown_kind, active, DailyServiceRecord,
  charge, from_service_record, Entity, service_record_entity,
}
use recurring_service_platfo.Service.Pricing.{resolve_quantity_and_charge}
use recurring_service_platfo.Service.Commands.{
  load_customer, is_known_kind, post_when_service, recorded_action, settle_recorded, store_recorded,
  recorded_row, prepare_recorded, record_service,
}
use recurring_service_platfo.Books.{share, accepted_value, Balanced}
use recurring_service_platfo.Books.Postings.{Balanced-KeepsBooks}

pub load_customer-Keeps : (ctx : TenantContext) (id : ℕ) → Keeps (load_customer ctx id)
unfolding load_customer
load_customer-Keeps ctx id db db' c h = ground arith

pub prepare_recorded-Keeps :
    (ctx : TenantContext) (input : RecordServiceInput) (operation_id : ℕ)
    → Keeps (prepare_recorded ctx input operation_id)
unfolding prepare_recorded
prepare_recorded-Keeps ctx input operation_id =
    Keeps-bind _ _ (Keeps-raise_when (not (is_known_kind input.kind)) validation_failed) (λ u.
      Keeps-bind _ _ (load_customer-Keeps ctx input.customer_id) (λ customer.
        Keeps-bind (lift (resolve_date ctx.today input.service_date)) _ (Keeps-lift _) (λ day.
          Keeps-bind
            (lift (resolve_quantity_and_charge input.kind input.quantity customer.unit_price_minor))
            _ (Keeps-lift _)
            (λ priced. Keeps-bind _ _ Keeps-next_row_version (λ v.
              Keeps-bind _ _ Keeps-new_id (λ id.
                Keeps-pure (recorded_row ctx input operation_id customer day priced v id)))))))

-- A row is what the next posting needs: the tenant's, ACTIVE, and without a charge if it is no service.
pub record IsFresh (ctx : TenantContext) (r : DailyServiceRecord) : Type 0 where
  pub is_own : r.tenant_id ≡ ctx.tenant_id
  pub is_accepted : r.status ≡ active
  pub is_charged : (r.kind ≡ service) ⊎ (r.charge_minor ≡ pos 0)

pub skip_charge :
    (kind : ServiceKind) (raw : Option PyValue) (price : ℤ) (priced : ℕ × ℤ)
    → is_known_kind kind ≡ true
    → resolve_quantity_and_charge kind raw price ≡ ok priced
    → (kind ≡ service) ⊎ (priced.1 ≡ pos 0)
unfolding resolve_quantity_and_charge
skip_charge service raw price priced k h = inl refl
skip_charge skip raw price priced k h = inr (ground arith)
skip_charge unknown_kind raw price priced k h = absurd (ground arith)

pub prepare_recorded-IsFresh :
    (ctx : TenantContext) (input : RecordServiceInput) (operation_id : ℕ) (db db' : Db)
    (r : DailyServiceRecord)
    → prepare_recorded ctx input operation_id db ≡ ok (r, db')
    → IsFresh ctx r
unfolding prepare_recorded next_row_version new_id
prepare_recorded-IsFresh ctx input operation_id db db' r h =
    let (u, db₁, e₁, h₁) =
      bind-ok (raise_when (not (is_known_kind input.kind)) validation_failed) _ db h in
    let (customer, db₂, e₂, h₂) = bind-ok (load_customer ctx input.customer_id) _ db₁ h₁ in
    let (day, db₃, e₃, h₃) = bind-ok (lift (resolve_date ctx.today input.service_date)) _ db₂ h₂ in
    let (priced, db₄, e₄, h₄) =
      bind-ok
        (lift (resolve_quantity_and_charge input.kind input.quantity customer.unit_price_minor)) _
        db₃ h₃ in
    let known = not_raised (not (is_known_kind input.kind)) validation_failed db db₁ u e₁ in
    let none_charge =
      skip_charge input.kind input.quantity customer.unit_price_minor priced (ground arith)
        (lift-ok _ db₃ db₄ priced e₄) in
    record { is_own = ground arith; is_accepted = ground arith; is_charged = ground arith }

load_customer-id :
    (ctx : TenantContext) (id : ℕ) (db db' : Db) (c : Customer)
    → load_customer ctx id db ≡ ok (c, db')
    → c.id ≡ id
unfolding load_customer
load_customer-id ctx id db db' c h =
    elim (Option-cases (find (is_customer ctx.tenant_id id) db.customers)) [
      | inl e ↦ absurd (ground arith)
      | inr (q, e) ↦
          let own = find-holds (is_customer ctx.tenant_id id) db.customers q e in ground arith
    ]

-- The row is of the customer, the day and the kind that the request names.
pub prepare_recorded-asked :
    (ctx : TenantContext) (input : RecordServiceInput) (operation_id : ℕ) (db db' : Db)
    (r : DailyServiceRecord)
    → prepare_recorded ctx input operation_id db ≡ ok (r, db')
    → (r.kind ≡ input.kind)
      × (r.customer_id ≡ input.customer_id)
      × (resolve_date ctx.today input.service_date ≡ ok r.service_date)
unfolding prepare_recorded next_row_version new_id
prepare_recorded-asked ctx input operation_id db db' r h =
    let (u, db₁, e₁, h₁) =
      bind-ok (raise_when (not (is_known_kind input.kind)) validation_failed) _ db h in
    let (customer, db₂, e₂, h₂) = bind-ok (load_customer ctx input.customer_id) _ db₁ h₁ in
    let (day, db₃, e₃, h₃) = bind-ok (lift (resolve_date ctx.today input.service_date)) _ db₂ h₂ in
    let (priced, db₄, e₄, h₄) =
      bind-ok
        (lift (resolve_quantity_and_charge input.kind input.quantity customer.unit_price_minor)) _
        db₃ h₃ in
    let dated = lift-ok (resolve_date ctx.today input.service_date) db₂ db₃ day e₃ in
    let asked_for = load_customer-id ctx input.customer_id db₁ db₂ customer e₂ in
    (ground arith, ground arith, dated ∙ ap ok (ground arith))

pub store_recorded-ok :
    (r : DailyServiceRecord) (db db' : Db) (u : Unit {0})
    → store_recorded r db ≡ ok (u, db')
    → db' ≡ record db { records = r ∷ db.records }
unfolding store_recorded insert_record
store_recorded-ok r db db' u h = ground arith

pub fresh-accepted :
    (t c : ℕ) (ctx : TenantContext) (r : DailyServiceRecord) (rs : List DailyServiceRecord)
    → IsFresh ctx r
    → accepted_value t c (r ∷ rs)
      ≡ share t c ctx.tenant_id r.customer_id r.charge_minor +ℤ accepted_value t c rs
fresh-accepted t c ctx r rs f = rw (f.is_own, f.is_accepted)

-- Without a charge there is nothing to post, so every fresh row posts its charge.
post_when_service-eq :
    (kind : ServiceKind) (ctx : TenantContext) (r : DailyServiceRecord) (db : Db)
    → (kind ≡ service) ⊎ (r.charge_minor ≡ pos 0)
    → post_when_service ctx r kind db ≡ post_service_charge ctx r db
post_when_service-eq service ctx r db k = refl
post_when_service-eq skip ctx r db k = sym (
    post_entry-zero ctx r.customer_id charge r.charge_minor r.service_date from_service_record r.id
      db (ground arith))
post_when_service-eq unknown_kind ctx r db k = sym (
    post_entry-zero ctx r.customer_id charge r.charge_minor r.service_date from_service_record r.id
      db (ground arith))

settle_recorded-Balanced :
    (ctx : TenantContext) (r : DailyServiceRecord) (operation_id : ℕ) (db₀ db db' : Db) (e : Entity)
    → IsFresh ctx r
    → Balanced db₀
    → db ≡ record db₀ { records = r ∷ db₀.records }
    → settle_recorded ctx r operation_id db ≡ ok (e, db')
    → Balanced db'
unfolding settle_recorded
settle_recorded-Balanced ctx r operation_id db₀ db db' e f b same h =
    let (o, db₁, e₁, h₁) = bind-ok (post_when_service ctx r r.kind) _ db h in
    Balanced-KeepsBooks
      (Balanced-service ctx r.customer_id charge r.charge_minor r.service_date r.id db₀ db db₁ o b
        (ap (λ (d : Db). d.ledger) same) (inl refl) (ap (λ (d : Db). d.payments) same)
        (λ t c.
          ap (λ (d : Db). accepted_value t c d.records) same
          ∙ fresh-accepted t c ctx r db₀.records f)
        (sym (post_when_service-eq r.kind ctx r db f.is_charged) ∙ e₁))
      (settle-Keeps (on_service_recorded ctx r) ctx (recorded_action r.kind) r.id none
        (some (service_record_entity r)) none operation_id (audit_source_of r.source)
        (service_record_entity r) (on_service_recorded-Keeps ctx r) db₁ db' e h₁)

-- Recording a service or a skip keeps every customer's figures equal to its accepted business,
-- and a skip posts nothing
pub record_service-Balanced :
    (ctx : TenantContext) (input : RecordServiceInput) (operation_id : ℕ) (db db' : Db) (e : Entity)
    → Balanced db
    → record_service ctx input operation_id db ≡ ok (e, db')
    → Balanced db'
unfolding record_service
record_service-Balanced ctx input operation_id db db' e b h =
    let (r, db₁, e₁, h₁) = bind-ok (prepare_recorded ctx input operation_id) _ db h in
    let (u, db₂, e₂, h₂) = bind-ok (store_recorded r) _ db₁ h₁ in
    settle_recorded-Balanced ctx r operation_id db₁ db₂ db' e
      (prepare_recorded-IsFresh ctx input operation_id db db₁ r e₁)
      (Balanced-KeepsBooks b (prepare_recorded-Keeps ctx input operation_id db db₁ r e₁))
      (store_recorded-ok r db₁ db₂ u e₂) h₂
