-- ===== src/Books/Correcting.antt =====
-- correct_service of backend/app/service/commands.py keeps the books.
use recurring_service_platfo.Service.Inputs.{CorrectServiceInput}
use recurring_service_platfo.Commission.Engine.Frame.{on_service_corrected-Keeps}
use recurring_service_platfo.Commission.Engine.{on_service_corrected}
use recurring_service_platfo.Books.Rows.{Balanced-service, settle-Keeps, share-out}
use recurring_service_platfo.Books.Postings.{Balanced-KeepsBooks}
use recurring_service_platfo.Billing.Ledger.{post_service_adjustment}
use recurring_service_platfo.Session.Frames.{not_raised, lift-same, raise_when-same}
use recurring_service_platfo.Service.Pricing.{resolve_quantity_and_charge}
use recurring_service_platfo.Core.Text.{Text, require_reason}
use recurring_service_platfo.Session.{
  Db, ◌>>=◌, lift, raise_when, new_id, next_row_version, bind-ok,
}
use recurring_service_platfo.Session.Tables.{insert_record, is_record, audit_source_of}
use recurring_service_platfo.Base.{
  ◌==◌, if◌then◌else◌, Option-cases, find, update_first, find-holds, validation_failed, ok, ℕ, ◌+◌,
  ◌<◌, ◌≡◌, refl, sym, ap, ◌∙◌, inl, inr, Bool, true, false, not, ◌&&◌, some, List, ◌∷◌, arith,
}
use recurring_service_platfo.Base.Int.{ℤ, pos, ◌+ℤ◌, ◌-ℤ◌, neg, int_laws}
use recurring_service_platfo.Base.Sums.{sum_by-update_first, sum_by-touch}
use recurring_service_platfo.Models.{
  TenantContext, is_active_status, DailyServiceRecord, adjustment, Entity, service_record_entity,
  service_corrected,
}
use recurring_service_platfo.Service.Commands.{
  load_record, is_known_kind, replacement_row, supersede, succeed_by, replace_record,
  settle_corrected, correct_service,
}
use recurring_service_platfo.Books.{share, accepted_part, accepted_value, Balanced}

pub load_record-ok :
    (ctx : TenantContext) (id : ℕ) (db db' : Db) (r : DailyServiceRecord)
    → load_record ctx id db ≡ ok (r, db')
    → (db' ≡ db)
      × (find (is_record ctx.tenant_id r.id) db.records ≡ some r)
      × (r.tenant_id ≡ ctx.tenant_id)
      × (r.id ≡ id)
unfolding load_record
load_record-ok ctx id db db' r h =
    elim (Option-cases (find (is_record ctx.tenant_id id) db.records)) [
      | inl e ↦ absurd (ground arith)
      | inr (q, e) ↦
          let same : q ≡ r = ground arith in
          let own = find-holds (is_record ctx.tenant_id id) db.records q e in
          let key : r.id ≡ id = ground arith in
          (
            ground arith,
            ap (λ k. find (is_record ctx.tenant_id k) db.records) key ∙ e ∙ ap some same,
            ground arith,
            key,
          )
    ]

share-swap :
    (b : Bool) (s x y : ℤ)
    → (if b then y else pos 0) +ℤ ((if b then neg x else pos 0) +ℤ s)
      ≡ (if b then y -ℤ x else pos 0) +ℤ s
share-swap true s x y = omega int_laws
share-swap false s x y = omega int_laws

module _ (ctx : TenantContext) (original : DailyServiceRecord)
    (is_own : original.tenant_id ≡ ctx.tenant_id)
    (is_live : is_active_status original.status ≡ true) where
  -- The charge of an active row leaves its customer when the row stops being active.
  pub retire :
      (t c : ℕ) (g : DailyServiceRecord → DailyServiceRecord) (rs : List DailyServiceRecord)
      → find (is_record ctx.tenant_id original.id) rs ≡ some original
      → accepted_part t c (g original) ≡ pos 0
      → accepted_value t c (update_first (is_record ctx.tenant_id original.id) g rs)
        ≡ share t c ctx.tenant_id original.customer_id (neg original.charge_minor)
          +ℤ accepted_value t c rs
  retire t c g rs found gone =
      sum_by-update_first (accepted_part t c) (is_record ctx.tenant_id original.id) g rs found
      ∙ rw (gone, is_live, is_own)
          (share-out (ctx.tenant_id == t && original.customer_id == c) (accepted_value t c rs)
            original.charge_minor)

module _ (ctx : TenantContext) (input : CorrectServiceInput) (operation_id : ℕ) (reason : Text)
    (original : DailyServiceRecord) (priced : ℕ × ℤ) (db db' : Db)
    (replacement : DailyServiceRecord)
    (done : replace_record ctx input operation_id reason original priced db
      ≡ ok (replacement, db')) where
  -- The tables after a replacement.
  pub replace_record-ok :
      (v w id : ℕ) × (replacement
        ≡ replacement_row ctx input operation_id reason original priced w id)
      × (v < w)
      × (db'.ledger ≡ db.ledger)
      × (db'.payments ≡ db.payments)
      × (db'.records
          ≡ update_first (is_record ctx.tenant_id original.id) (succeed_by id) (
              replacement
              ∷ update_first (is_record ctx.tenant_id original.id) (supersede v) db.records))
  unfolding replace_record next_row_version new_id insert_record
  replace_record-ok = (
    db.row_version + 1,
    db.row_version + 2,
    db.next_id,
    ground arith,
    ground arith,
    ground arith,
    ground arith,
    ground arith,
  )

  pub replace_record-accepted :
      (t c : ℕ)
      → original.tenant_id ≡ ctx.tenant_id
      → is_active_status original.status ≡ true
      → find (is_record ctx.tenant_id original.id) db.records ≡ some original
      → accepted_value t c db'.records
        ≡ share t c ctx.tenant_id original.customer_id
            (replacement.charge_minor -ℤ original.charge_minor)
          +ℤ accepted_value t c db.records
  replace_record-accepted t c own live found =
      let (v, w, id, row, later, _, _, rows) = replace_record-ok in
      ap (accepted_value t c) rows
      ∙ sum_by-touch (accepted_part t c) (is_record ctx.tenant_id original.id) (succeed_by id)
          (replacement
            ∷ update_first (is_record ctx.tenant_id original.id) (supersede v) db.records)
          (λ a. refl)
      ∙ ap (λ s. accepted_part t c replacement +ℤ s)
          (retire ctx original own live t c (supersede v) db.records found (ground arith))
      ∙ ap
          (λ (r : DailyServiceRecord).
            accepted_part t c r
            +ℤ (share t c ctx.tenant_id original.customer_id (neg original.charge_minor)
                +ℤ accepted_value t c db.records))
          row
      ∙ share-swap (ctx.tenant_id == t && original.customer_id == c) (accepted_value t c db.records)
          original.charge_minor priced.1
      ∙ ap
          (λ (r : DailyServiceRecord).
            share t c ctx.tenant_id original.customer_id (r.charge_minor -ℤ original.charge_minor)
            +ℤ accepted_value t c db.records)
          (sym row)

-- The checks before a command writes.
pub checked_service-ok :
    (ctx : TenantContext) (id : ℕ) (input : CorrectServiceInput) (operation_id : ℕ) (db db' : Db)
    (e : Entity)
    → correct_service ctx id input operation_id db ≡ ok (e, db')
    → (reason : Text) × (original : DailyServiceRecord) × (priced : ℕ × ℤ) × (is_active_status
          original.status
        ≡ true)
      × (original.tenant_id ≡ ctx.tenant_id)
      × (find (is_record ctx.tenant_id original.id) db.records ≡ some original)
      × (original.id ≡ id)
      × ((replace_record ctx input operation_id reason original priced
              >>= settle_corrected ctx input operation_id reason original)
            db
          ≡ ok (e, db'))
unfolding correct_service
checked_service-ok ctx id input operation_id db db' e h =
    let (reason, db₁, e₁, h₁) = bind-ok (lift (require_reason input.reason)) _ db h in
    let (original, db₂, e₂, h₂) = bind-ok (load_record ctx id) _ db₁ h₁ in
    let (u, db₃, e₃, h₃) =
      bind-ok (raise_when (not (is_active_status original.status)) validation_failed) _ db₂ h₂ in
    let (w, db₄, e₄, h₄) =
      bind-ok (raise_when (not (is_known_kind input.kind)) validation_failed) _ db₃ h₃ in
    let (priced, db₅, e₅, h₅) =
      bind-ok
        (lift (resolve_quantity_and_charge input.kind input.quantity original.unit_price_minor)) _
        db₄ h₄ in
    let (at₂, found, own, key) = load_record-ok ctx id db₁ db₂ original e₂ in
    let live = not_raised (not (is_active_status original.status)) validation_failed db₂ db₃ u e₃ in
    let back : db₅ ≡ db =
      lift-same _ db₄ db₅ priced e₅
      ∙ raise_when-same _ _ db₃ db₄ w e₄
      ∙ raise_when-same _ _ db₂ db₃ u e₃
      ∙ at₂
      ∙ lift-same _ db db₁ reason e₁ in
    let first : db₁ ≡ db = lift-same _ db db₁ reason e₁ in
    (
      reason,
      original,
      priced,
      ground arith,
      own,
      ap (λ (d : Db). find (is_record ctx.tenant_id original.id) d.records) (sym first) ∙ found,
      key,
      ap
            (replace_record ctx input operation_id reason original priced
              >>= settle_corrected ctx input operation_id reason original)
            (sym back)
          ∙ h₅,
    )

-- A correction that is accepted keeps every customer's figures equal to its accepted business:
-- the active record changes and the difference is posted
pub correct_service-Balanced :
    (ctx : TenantContext) (id : ℕ) (input : CorrectServiceInput) (operation_id : ℕ) (db db' : Db)
    (e : Entity)
    → Balanced db
    → correct_service ctx id input operation_id db ≡ ok (e, db')
    → Balanced db'
unfolding settle_corrected
correct_service-Balanced ctx id input operation_id db db' e b h =
    let (reason, original, priced, live, own, found, key, h₁) =
      checked_service-ok ctx id input operation_id db db' e h in
    let (replacement, db₁, e₁, h₂) =
      bind-ok (replace_record ctx input operation_id reason original priced) _ db h₁ in
    let amount = replacement.charge_minor -ℤ original.charge_minor in
    let (o, db₂, e₂, h₃) =
      bind-ok
        (post_service_adjustment ctx original.customer_id amount original.service_date original.id)
        _ db₁ h₂ in
    let (_, _, _, _, _, same_ledger, same_payments, _) =
      replace_record-ok ctx input operation_id reason original priced db db₁ replacement e₁ in
    Balanced-KeepsBooks
      (Balanced-service ctx original.customer_id adjustment amount original.service_date original.id
        db db₁ db₂ o b same_ledger (inr refl) same_payments
        (λ t c.
          replace_record-accepted ctx input operation_id reason original priced db db₁ replacement
            e₁ t c own live found)
        e₂)
      (settle-Keeps (on_service_corrected ctx original replacement reason) ctx service_corrected
        replacement.id (some (service_record_entity original))
        (some (service_record_entity replacement)) (some reason) operation_id
        (audit_source_of input.source) (service_record_entity replacement)
        (on_service_corrected-Keeps ctx original replacement reason) db₂ db' e h₃)
