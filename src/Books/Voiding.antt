-- ===== src/Books/Voiding.antt =====
-- void_service of backend/app/service/commands.py keeps the books.
use recurring_service_platfo.Service.Inputs.{VoidServiceInput}
use recurring_service_platfo.Commission.Engine.Frame.{on_service_voided-Keeps}
use recurring_service_platfo.Commission.Engine.{on_service_voided}
use recurring_service_platfo.Books.Rows.{Balanced-service, settle-Keeps}
use recurring_service_platfo.Books.Postings.{Balanced-KeepsBooks}
use recurring_service_platfo.Billing.Ledger.{post_service_adjustment}
use recurring_service_platfo.Session.Frames.{not_raised, lift-same, raise_when-same}
use recurring_service_platfo.Core.Text.{Text, require_reason}
use recurring_service_platfo.Session.{Db, lift, raise_when, next_row_version, bind-ok}
use recurring_service_platfo.Session.Tables.{is_record, audit_source_of}
use recurring_service_platfo.Base.{
  find, update_first, validation_failed, ok, ℕ, ◌+◌, ◌≡◌, refl, sym, ap, ◌∙◌, inr, true, not, some,
  arith,
}
use recurring_service_platfo.Base.Int.{neg}
use recurring_service_platfo.Models.{
  TenantContext, is_active_status, DailyServiceRecord, adjustment, Entity, service_record_entity,
  service_voided_action,
}
use recurring_service_platfo.Service.Commands.{load_record, void_row, settle_voided, void_service}
use recurring_service_platfo.Books.{Balanced}
use recurring_service_platfo.Books.Correcting.{load_record-ok, retire}

pub checked_void-ok :
    (ctx : TenantContext) (id : ℕ) (input : VoidServiceInput) (operation_id : ℕ) (db db' : Db)
    (e : Entity)
    → void_service ctx id input operation_id db ≡ ok (e, db')
    → (reason : Text) × (r : DailyServiceRecord) × (v : ℕ) × (is_active_status r.status ≡ true)
      × (r.tenant_id ≡ ctx.tenant_id)
      × (find (is_record ctx.tenant_id r.id) db.records ≡ some r)
      × (r.id ≡ id)
      × (settle_voided ctx input operation_id reason r (void_row reason v r) (record db {
        row_version = v;
        records = update_first (is_record ctx.tenant_id r.id) (void_row reason v) db.records;
      })
          ≡ ok (e, db'))
unfolding void_service next_row_version
checked_void-ok ctx id input operation_id db db' e h =
    let (reason, db₁, e₁, h₁) = bind-ok (lift (require_reason input.reason)) _ db h in
    let (r, db₂, e₂, h₂) = bind-ok (load_record ctx id) _ db₁ h₁ in
    let (u, db₃, e₃, h₃) =
      bind-ok (raise_when (not (is_active_status r.status)) validation_failed) _ db₂ h₂ in
    let (at₂, found, own, key) = load_record-ok ctx id db₁ db₂ r e₂ in
    let live = not_raised (not (is_active_status r.status)) validation_failed db₂ db₃ u e₃ in
    let first : db₁ ≡ db = lift-same _ db db₁ reason e₁ in
    let back : db₃ ≡ db = raise_when-same _ _ db₂ db₃ u e₃ ∙ at₂ ∙ first in
    (
      reason,
      r,
      db.row_version + 1,
      ground arith,
      own,
      ap (λ (d : Db). find (is_record ctx.tenant_id r.id) d.records) (sym first) ∙ found,
      key,
      ap
            (λ (d : Db).
              settle_voided ctx input operation_id reason r (void_row reason (d.row_version + 1) r)
                (record d {
                  row_version = d.row_version + 1;
                  records =
                      update_first (is_record ctx.tenant_id r.id)
                        (void_row reason (d.row_version + 1)) d.records;
                }))
            (sym back)
          ∙ h₃,
    )

-- Voiding a service record keeps every customer's figures equal to its accepted business: the
-- whole charge of the active record is reversed
pub void_service-Balanced :
    (ctx : TenantContext) (id : ℕ) (input : VoidServiceInput) (operation_id : ℕ) (db db' : Db)
    (e : Entity)
    → Balanced db
    → void_service ctx id input operation_id db ≡ ok (e, db')
    → Balanced db'
unfolding settle_voided
void_service-Balanced ctx id input operation_id db db' e b h =
    let (reason, r, v, live, own, found, key, h₁) =
      checked_void-ok ctx id input operation_id db db' e h in
    let gone = void_row reason v r in
    let db₁ : Db = record db {
      row_version = v;
      records = update_first (is_record ctx.tenant_id r.id) (void_row reason v) db.records;
    } in
    let (o, db₂, e₂, h₂) =
      bind-ok (post_service_adjustment ctx r.customer_id (neg r.charge_minor) r.service_date r.id) _
        db₁ h₁ in
    Balanced-KeepsBooks
      (Balanced-service ctx r.customer_id adjustment (neg r.charge_minor) r.service_date r.id db db₁
        db₂ o b refl (inr refl) refl
        (λ t c. retire ctx r own live t c (void_row reason v) db.records found (ground arith)) e₂)
      (settle-Keeps (on_service_voided ctx gone reason) ctx service_voided_action r.id
        (some (service_record_entity r)) (some (service_record_entity gone)) (some reason)
        operation_id (audit_source_of input.source) (service_record_entity gone)
        (on_service_voided-Keeps ctx gone reason) db₂ db' e h₂)
