-- ===== src/Books/DayCorrecting.antt =====
-- Corrections and voids keep one active record for a customer and a day.
use recurring_service_platfo.Service.Inputs.{CorrectServiceInput, VoidServiceInput}
use recurring_service_platfo.Books.Voiding.{checked_void-ok}
use recurring_service_platfo.Core.Text.{Text}
use recurring_service_platfo.Books.Correcting.{checked_service-ok}
use recurring_service_platfo.Session.{Db, new_id, next_row_version, bind-ok}
use recurring_service_platfo.Session.Tables.{
  is_active_day, insert_record, is_record, audit_source_of,
}
use recurring_service_platfo.Base.{
  any, update_first, ok, ℕ, ◌+◌, ◌≡◌, refl, ◌∙◌, false, some, ◌∷◌, arith,
}
use recurring_service_platfo.Base.Int.{ℤ, ◌-ℤ◌, neg}
use recurring_service_platfo.Models.{
  TenantContext, DailyServiceRecord, adjustment, from_service_record, Entity, service_record_entity,
  service_corrected, service_voided_action,
}
use recurring_service_platfo.Billing.Ledger.{post_service_adjustment}
use recurring_service_platfo.Billing.Ledger.Posting.{post_entry-KeepsRows}
use recurring_service_platfo.Service.Commands.{
  supersede, succeed_by, replace_record, settle_corrected, correct_service, void_row, settle_voided,
  void_service,
}
use recurring_service_platfo.Commission.Engine.{on_service_corrected, on_service_voided}
use recurring_service_platfo.Commission.Engine.Frame.{
  on_service_corrected-Keeps, on_service_voided-Keeps,
}
use recurring_service_platfo.Books.Rows.{settle-Keeps}
use recurring_service_platfo.Books.ActiveDay.{OneActive, update_first-OneActive}

replace_record-free :
    (ctx : TenantContext) (input : CorrectServiceInput) (operation_id : ℕ) (reason : Text)
    (original : DailyServiceRecord) (priced : ℕ × ℤ) (db db' : Db)
    (replacement : DailyServiceRecord)
    → replace_record ctx input operation_id reason original priced db ≡ ok (replacement, db')
    → (v id : ℕ) × (any
          (is_active_day replacement.tenant_id replacement.customer_id replacement.service_date)
          (update_first (is_record ctx.tenant_id original.id) (supersede v) db.records)
        ≡ false)
      × (db'.records
          ≡ update_first (is_record ctx.tenant_id original.id) (succeed_by id) (
              replacement
              ∷ update_first (is_record ctx.tenant_id original.id) (supersede v) db.records))
unfolding replace_record next_row_version new_id insert_record
replace_record-free ctx input operation_id reason original priced db db' replacement h =
    (db.row_version + 1, db.next_id, ground arith, ground arith)

pub correct_service-OneActive :
    (ctx : TenantContext) (id : ℕ) (input : CorrectServiceInput) (operation_id : ℕ) (db db' : Db)
    (e : Entity)
    → OneActive db.records
    → correct_service ctx id input operation_id db ≡ ok (e, db')
    → OneActive db'.records
unfolding settle_corrected
correct_service-OneActive ctx id input operation_id db db' e v h =
    let (reason, original, priced, live, own, found, key, h₁) =
      checked_service-ok ctx id input operation_id db db' e h in
    let (replacement, db₁, e₁, h₂) =
      bind-ok (replace_record ctx input operation_id reason original priced) _ db h₁ in
    let amount = replacement.charge_minor -ℤ original.charge_minor in
    let (o, db₂, e₂, h₃) =
      bind-ok
        (post_service_adjustment ctx original.customer_id amount original.service_date original.id)
        _ db₁ h₂ in
    let posted =
      post_entry-KeepsRows ctx original.customer_id adjustment amount original.service_date
        from_service_record original.id db₁ db₂ o e₂ in
    let rest =
      settle-Keeps (on_service_corrected ctx original replacement reason) ctx service_corrected
        replacement.id (some (service_record_entity original))
        (some (service_record_entity replacement)) (some reason) operation_id
        (audit_source_of input.source) (service_record_entity replacement)
        (on_service_corrected-Keeps ctx original replacement reason) db₂ db' e h₃ in
    let (w, new, free, rows) =
      replace_record-free ctx input operation_id reason original priced db db₁ replacement e₁ in
    let retired =
      update_first-OneActive (is_record ctx.tenant_id original.id) (supersede w) db.records
        (λ r. (refl, refl, refl, λ l. ground arith)) v in
    rw (rest.same_records ∙ posted.same_records ∙ rows) (
      update_first-OneActive (is_record ctx.tenant_id original.id) (succeed_by new)
        (replacement ∷ update_first (is_record ctx.tenant_id original.id) (supersede w) db.records)
        (λ r. (refl, refl, refl, λ l. l)) (λ l. free, retired))

pub void_service-OneActive :
    (ctx : TenantContext) (id : ℕ) (input : VoidServiceInput) (operation_id : ℕ) (db db' : Db)
    (e : Entity)
    → OneActive db.records
    → void_service ctx id input operation_id db ≡ ok (e, db')
    → OneActive db'.records
unfolding settle_voided
void_service-OneActive ctx id input operation_id db db' e v h =
    let (reason, r, w, live, own, found, key, h₁) =
      checked_void-ok ctx id input operation_id db db' e h in
    let gone = void_row reason w r in
    let db₁ : Db = record db {
      row_version = w;
      records = update_first (is_record ctx.tenant_id r.id) (void_row reason w) db.records;
    } in
    let (o, db₂, e₂, h₂) =
      bind-ok (post_service_adjustment ctx r.customer_id (neg r.charge_minor) r.service_date r.id) _
        db₁ h₁ in
    let posted =
      post_entry-KeepsRows ctx r.customer_id adjustment (neg r.charge_minor) r.service_date
        from_service_record r.id db₁ db₂ o e₂ in
    let rest =
      settle-Keeps (on_service_voided ctx gone reason) ctx service_voided_action r.id
        (some (service_record_entity r)) (some (service_record_entity gone)) (some reason)
        operation_id (audit_source_of input.source) (service_record_entity gone)
        (on_service_voided-Keeps ctx gone reason) db₂ db' e h₂ in
    rw (rest.same_records ∙ posted.same_records) (
      update_first-OneActive (is_record ctx.tenant_id r.id) (void_row reason w) db.records
        (λ q. (refl, refl, refl, λ l. ground arith)) v)
