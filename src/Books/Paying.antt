-- ===== src/Books/Paying.antt =====
-- record_payment and void_payment of backend/app/payments/commands.py keep the books.

use recurring_service_platfo.Session.{Db, lift, raise_when, new_id, next_row_version, bind-ok}
use recurring_service_platfo.Session.Frames.{
  Keeps, Keeps-bind, Keeps-pure, Keeps-lift, Keeps-raise_when, Keeps-new_id, Keeps-next_row_version,
  not_raised, lift-same, raise_when-same,
}
use recurring_service_platfo.Session.Tables.{is_payment, audit_source_of}
use recurring_service_platfo.Base.{
  ◌==◌, Option-cases, find, update_first, find-holds, validation_failed, ok, ℕ, ◌+◌, ◌≡◌, refl, sym,
  ap, ◌∙◌, inl, inr, true, not, ◌&&◌, none, some, List, ◌∷◌, arith,
}
use recurring_service_platfo.Base.Int.{pos, ◌+ℤ◌, neg, neg-neg}
use recurring_service_platfo.Base.Sums.{sum_by-update_first}
use recurring_service_platfo.Core.Clock.{resolve_date}
use recurring_service_platfo.Core.Text.{Text, require_reason}
use recurring_service_platfo.Models.{
  TenantContext, is_known_method, recorded, is_recorded, Payment, payment, adjustment, Entity,
  payment_entity, payment_recorded, payment_voided_action,
}
use recurring_service_platfo.Billing.Ledger.{post_payment, post_payment_adjustment}
use recurring_service_platfo.Payments.Commands.{
  RecordPaymentInput, VoidPaymentInput, load_payer, load_payment, payment_row, prepare_payment,
  settle_payment, record_payment, void_payment_row, settle_payment_voided, void_payment,
}
use recurring_service_platfo.Commission.Engine.{on_payment_recorded, on_payment_voided}
use recurring_service_platfo.Commission.Engine.Frame.{
  on_payment_recorded-Keeps, on_payment_voided-Keeps,
}
use recurring_service_platfo.Commission.Settlements.{validate_amount_minor}
use recurring_service_platfo.Books.{share, received_part, received_value, Balanced}
use recurring_service_platfo.Books.Postings.{Balanced-KeepsBooks}
use recurring_service_platfo.Books.Rows.{Balanced-payment, settle-Keeps, share-out}

load_payer-Keeps : (ctx : TenantContext) (id : ℕ) → Keeps (load_payer ctx id)
unfolding load_payer
load_payer-Keeps ctx id db db' c h = ground arith

pub prepare_payment-Keeps :
    (ctx : TenantContext) (input : RecordPaymentInput) (operation_id : ℕ)
    → Keeps (prepare_payment ctx input operation_id)
unfolding prepare_payment
prepare_payment-Keeps ctx input operation_id =
    Keeps-bind _ _ (Keeps-raise_when (not (is_known_method input.method)) validation_failed) (λ u.
      Keeps-bind _ _ (load_payer-Keeps ctx input.customer_id) (λ customer.
        Keeps-bind (lift (validate_amount_minor input.amount_minor)) _ (Keeps-lift _) (λ amount.
          Keeps-bind (lift (resolve_date ctx.today input.received_on)) _ (Keeps-lift _) (λ day.
            Keeps-bind _ _ Keeps-next_row_version (λ v.
              Keeps-bind _ _ Keeps-new_id (λ id.
                Keeps-pure (payment_row ctx input operation_id customer amount day v id)))))))

pub prepare_payment-ok :
    (ctx : TenantContext) (input : RecordPaymentInput) (operation_id : ℕ) (db db' : Db)
    (p : Payment)
    → prepare_payment ctx input operation_id db ≡ ok (p, db')
    → (p.tenant_id ≡ ctx.tenant_id) × (p.status ≡ recorded)
unfolding prepare_payment next_row_version new_id
prepare_payment-ok ctx input operation_id db db' p h =
    let (u, db₁, e₁, h₁) =
      bind-ok (raise_when (not (is_known_method input.method)) validation_failed) _ db h in
    let (customer, db₂, e₂, h₂) = bind-ok (load_payer ctx input.customer_id) _ db₁ h₁ in
    let (amount, db₃, e₃, h₃) =
      bind-ok (lift (validate_amount_minor input.amount_minor)) _ db₂ h₂ in
    let (day, db₄, e₄, h₄) = bind-ok (lift (resolve_date ctx.today input.received_on)) _ db₃ h₃ in
    (ground arith, ground arith)

-- Recording a payment of any accepted amount, an overpayment included, keeps every customer's
-- figures equal to its accepted business
pub record_payment-Balanced :
    (ctx : TenantContext) (input : RecordPaymentInput) (operation_id : ℕ) (db db' : Db) (e : Entity)
    → Balanced db
    → record_payment ctx input operation_id db ≡ ok (e, db')
    → Balanced db'
unfolding record_payment settle_payment
record_payment-Balanced ctx input operation_id db db' e b h =
    let (p, db₁, e₁, h₁) = bind-ok (prepare_payment ctx input operation_id) _ db h in
    let (own, live) = prepare_payment-ok ctx input operation_id db db₁ p e₁ in
    let db₂ : Db = record db₁ { payments = p ∷ db₁.payments } in
    let (o, db₃, e₃, h₃) = bind-ok (post_payment ctx p) _ db₂ h₁ in
    Balanced-KeepsBooks
      (Balanced-payment ctx p.customer_id payment (neg p.amount_minor) p.received_on p.id db₁ db₂
        db₃ o (Balanced-KeepsBooks b (prepare_payment-Keeps ctx input operation_id db db₁ p e₁))
        refl (inl refl) refl (λ t c. rw (own, live, neg-neg p.amount_minor)) e₃)
      (settle-Keeps (on_payment_recorded ctx p) ctx payment_recorded p.id none
        (some (payment_entity p)) none operation_id (audit_source_of p.source) (payment_entity p)
        (on_payment_recorded-Keeps ctx p) db₃ db' e h₃)

load_payment-ok :
    (ctx : TenantContext) (id : ℕ) (db db' : Db) (p : Payment)
    → load_payment ctx id db ≡ ok (p, db')
    → (db' ≡ db)
      × (find (is_payment ctx.tenant_id p.id) db.payments ≡ some p)
      × (p.tenant_id ≡ ctx.tenant_id)
      × (p.id ≡ id)
unfolding load_payment
load_payment-ok ctx id db db' p h =
    elim (Option-cases (find (is_payment ctx.tenant_id id) db.payments)) [
      | inl e ↦ absurd (ground arith)
      | inr (q, e) ↦
          let same : q ≡ p = ground arith in
          let own = find-holds (is_payment ctx.tenant_id id) db.payments q e in
          let key : p.id ≡ id = ground arith in
          (
            ground arith,
            ap (λ k. find (is_payment ctx.tenant_id k) db.payments) key ∙ e ∙ ap some same,
            ground arith,
            key,
          )
    ]

-- The amount of a recorded payment leaves its customer when it is voided.
pub refund :
    (ctx : TenantContext) (p : Payment) (t c : ℕ) (g : Payment → Payment) (ps : List Payment)
    → p.tenant_id ≡ ctx.tenant_id
    → is_recorded p.status ≡ true
    → find (is_payment ctx.tenant_id p.id) ps ≡ some p
    → received_part t c (g p) ≡ pos 0
    → received_value t c (update_first (is_payment ctx.tenant_id p.id) g ps)
      ≡ share t c ctx.tenant_id p.customer_id (neg p.amount_minor) +ℤ received_value t c ps
refund ctx p t c g ps own live found gone =
    sum_by-update_first (received_part t c) (is_payment ctx.tenant_id p.id) g ps found
    ∙ rw (gone, live, own)
        (share-out (ctx.tenant_id == t && p.customer_id == c) (received_value t c ps)
          p.amount_minor)

pub checked_payment_void-ok :
    (ctx : TenantContext) (id : ℕ) (input : VoidPaymentInput) (operation_id : ℕ) (db db' : Db)
    (e : Entity)
    → void_payment ctx id input operation_id db ≡ ok (e, db')
    → (reason : Text) × (p : Payment) × (v : ℕ) × (is_recorded p.status ≡ true)
      × (p.tenant_id ≡ ctx.tenant_id)
      × (find (is_payment ctx.tenant_id p.id) db.payments ≡ some p)
      × (p.id ≡ id)
      × (settle_payment_voided ctx input operation_id reason p
            (void_payment_row ctx reason v p)
            (record db {
              row_version = v;
              payments =
                  update_first
                    (is_payment ctx.tenant_id p.id)
                    (void_payment_row ctx reason v)
                    db.payments;
            })
          ≡ ok (e, db'))
unfolding void_payment next_row_version
checked_payment_void-ok ctx id input operation_id db db' e h =
    let (reason, db₁, e₁, h₁) = bind-ok (lift (require_reason input.reason)) _ db h in
    let (p, db₂, e₂, h₂) = bind-ok (load_payment ctx id) _ db₁ h₁ in
    let (u, db₃, e₃, h₃) =
      bind-ok (raise_when (not (is_recorded p.status)) validation_failed) _ db₂ h₂ in
    let (at₂, found, own, key) = load_payment-ok ctx id db₁ db₂ p e₂ in
    let live = not_raised (not (is_recorded p.status)) validation_failed db₂ db₃ u e₃ in
    let first : db₁ ≡ db = lift-same _ db db₁ reason e₁ in
    let back : db₃ ≡ db = raise_when-same _ _ db₂ db₃ u e₃ ∙ at₂ ∙ first in
    (
      reason,
      p,
      db.row_version + 1,
      ground arith,
      own,
      ap (λ (d : Db). find (is_payment ctx.tenant_id p.id) d.payments) (sym first) ∙ found,
      key,
      ap
            (λ (d : Db).
              settle_payment_voided ctx input operation_id reason p
                (void_payment_row ctx reason (d.row_version + 1) p)
                (record d {
                  row_version = d.row_version + 1;
                  payments =
                      update_first (is_payment ctx.tenant_id p.id)
                        (void_payment_row ctx reason (d.row_version + 1)) d.payments;
                }))
            (sym back)
          ∙ h₃,
    )

-- Voiding a payment keeps every customer's figures equal to its accepted business: collections
-- fall by its amount and business generated stays
pub void_payment-Balanced :
    (ctx : TenantContext) (id : ℕ) (input : VoidPaymentInput) (operation_id : ℕ) (db db' : Db)
    (e : Entity)
    → Balanced db
    → void_payment ctx id input operation_id db ≡ ok (e, db')
    → Balanced db'
unfolding settle_payment_voided
void_payment-Balanced ctx id input operation_id db db' e b h =
    let (reason, p, v, live, own, found, key, h₁) =
      checked_payment_void-ok ctx id input operation_id db db' e h in
    let gone = void_payment_row ctx reason v p in
    let db₁ : Db = record db {
      row_version = v;
      payments =
          update_first (is_payment ctx.tenant_id p.id) (void_payment_row ctx reason v) db.payments;
    } in
    let (o, db₂, e₂, h₂) =
      bind-ok (post_payment_adjustment ctx p.customer_id p.amount_minor p.received_on p.id) _ db₁
        h₁ in
    Balanced-KeepsBooks
      (Balanced-payment ctx p.customer_id adjustment p.amount_minor p.received_on p.id db db₁ db₂ o
        b refl (inr refl) refl
        (λ t c.
          refund ctx p t c (void_payment_row ctx reason v) db.payments own live found
            (ground arith))
        e₂)
      (settle-Keeps (on_payment_voided ctx gone reason) ctx payment_voided_action p.id
        (some (payment_entity p)) (some (payment_entity gone)) (some reason) operation_id
        (audit_source_of input.source) (payment_entity gone)
        (on_payment_voided-Keeps ctx gone reason) db₂ db' e h₂)
