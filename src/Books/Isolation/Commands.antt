-- ===== src/Books/Isolation/Commands.antt =====
-- The five commands of service and payments, and the tenants that they do not act for.
use recurring_service_platfo.Service.Inputs.{
  RecordServiceInput, CorrectServiceInput, VoidServiceInput,
}
use recurring_service_platfo.Session.{Db, Action, lift, on_integrity_error, after, bind-ok}
use recurring_service_platfo.Session.Isolation.{
  Untouched-trans, Spares, Spares-bind, Spares-pure, Spares-lift, Spares-raise_when, Spares-new_id,
  Spares-next_row_version, Spares-insert_record, Spares-update_record,
}
use recurring_service_platfo.Session.Tables.{audit_source_of}
use recurring_service_platfo.Base.{
  ◌==◌, Error, validation_failed, service_already_recorded, Result, ok, err, ℕ, ◌≡◌, refl, false,
  not, none, some, arith,
}
use recurring_service_platfo.Base.Int.{ℤ, ◌-ℤ◌, neg}
use recurring_service_platfo.Core.Clock.{resolve_date}
use recurring_service_platfo.Core.Text.{Text, require_reason}
use recurring_service_platfo.Models.{
  TenantContext, ServiceKind, service, skip, unknown_kind, is_active_status, DailyServiceRecord,
  charge, adjustment, from_service_record, service_record_entity, service_corrected,
  service_voided_action,
}
use recurring_service_platfo.Service.Pricing.{resolve_quantity_and_charge}
use recurring_service_platfo.Service.Commands.{
  load_customer, load_record, is_known_kind, post_when_service, recorded_action, settle_recorded,
  store_recorded, recorded_row, prepare_recorded, record_service, replacement_row, supersede,
  succeed_by, replace_record, settle_corrected, correct_service, void_row, settle_voided,
  void_service,
}
use recurring_service_platfo.Commission.Engine.{
  on_service_recorded, on_service_corrected, on_service_voided,
}
use recurring_service_platfo.Books.Recording.{prepare_recorded-IsFresh}
use recurring_service_platfo.Books.Isolation.{
  post_entry-Spares, on_service_recorded-Spares, on_service_corrected-Spares,
  on_service_voided-Spares, settle-Spares,
}

caught :
    {A : Type 0} (e : Error) (o : Result (A × Db)) {r : A × Db}
    → on_integrity_error e (λ (db : Db). o) r.1 ≡ ok r
    → o ≡ ok r
caught e (ok q) h = h
caught e (err f) h = ground arith

on_integrity_error-Spares :
    {t : ℕ} {A : Type 0} (e : Error) (m : Action A) → Spares t m → Spares t (on_integrity_error e m)
on_integrity_error-Spares e m k db db' a h = k db db' a (caught e (m db) h)

module _ {t : ℕ} (ctx : TenantContext) (foreign : (ctx.tenant_id == t) ≡ false) where
  load_customer-Spares : (id : ℕ) → Spares t (load_customer ctx id)
  unfolding load_customer
  load_customer-Spares id db db' c h = ground arith

  load_record-Spares : (id : ℕ) → Spares t (load_record ctx id)
  unfolding load_record
  load_record-Spares id db db' c h = ground arith

  prepare_recorded-Spares :
      (input : RecordServiceInput) (operation_id : ℕ)
      → Spares t (prepare_recorded ctx input operation_id)
  unfolding prepare_recorded
  prepare_recorded-Spares input operation_id =
      Spares-bind _ _ (Spares-raise_when (not (is_known_kind input.kind)) validation_failed) (λ u.
        Spares-bind _ _ (load_customer-Spares input.customer_id) (λ customer.
          Spares-bind (lift (resolve_date ctx.today input.service_date)) _ (Spares-lift _) (λ day.
            Spares-bind
              (lift
                (resolve_quantity_and_charge input.kind input.quantity customer.unit_price_minor))
              _ (Spares-lift _)
              (λ priced. Spares-bind _ _ Spares-next_row_version (λ v.
                Spares-bind _ _ Spares-new_id (λ id.
                  Spares-pure (recorded_row ctx input operation_id customer day priced v id)))))))

  post_when_service-Spares :
      (r : DailyServiceRecord) (kind : ServiceKind) → Spares t (post_when_service ctx r kind)
  post_when_service-Spares r service =
      post_entry-Spares ctx foreign r.customer_id charge r.charge_minor r.service_date
        from_service_record r.id
  post_when_service-Spares r skip = Spares-pure none
  post_when_service-Spares r unknown_kind = Spares-pure none

  settle_recorded-Spares :
      (r : DailyServiceRecord) (operation_id : ℕ) → Spares t (settle_recorded ctx r operation_id)
  unfolding settle_recorded
  settle_recorded-Spares r operation_id = Spares-bind _ _ (post_when_service-Spares r r.kind) (λ o.
      settle-Spares ctx foreign (on_service_recorded ctx r) (recorded_action r.kind) r.id none
        (some (service_record_entity r)) none operation_id (audit_source_of r.source)
        (service_record_entity r) (on_service_recorded-Spares ctx foreign r))

  store_recorded-Spares :
      (r : DailyServiceRecord) → (r.tenant_id == t) ≡ false → Spares t (store_recorded r)
  unfolding store_recorded
  store_recorded-Spares r apart =
      on_integrity_error-Spares service_already_recorded _ (Spares-insert_record r apart)

  pub record_service-Spares :
      (input : RecordServiceInput) (operation_id : ℕ)
      → Spares t (record_service ctx input operation_id)
  unfolding record_service
  record_service-Spares input operation_id db db' e h =
      let (r, db₁, e₁, h₁) = bind-ok (prepare_recorded ctx input operation_id) _ db h in
      let own = (prepare_recorded-IsFresh ctx input operation_id db db₁ r e₁).is_own in
      Untouched-trans (prepare_recorded-Spares input operation_id db db₁ r e₁) (
        Spares-bind (store_recorded r) _ (store_recorded-Spares r (rw own foreign))
          (λ u. settle_recorded-Spares r operation_id) db₁ db' e h₁)

  replace_record-Spares :
      (input : CorrectServiceInput) (operation_id : ℕ) (reason : Text)
      (original : DailyServiceRecord) (priced : ℕ × ℤ)
      → Spares t (replace_record ctx input operation_id reason original priced)
  unfolding replace_record
  replace_record-Spares input operation_id reason original priced =
      Spares-bind _ _ Spares-next_row_version (λ v.
        Spares-bind _ _
          (Spares-update_record ctx.tenant_id original.id (supersede v) foreign (λ r. refl))
          (λ u. Spares-bind _ _ Spares-next_row_version (λ w. Spares-bind _ _ Spares-new_id (λ id.
            Spares-bind _ _
              (Spares-insert_record
                (replacement_row ctx input operation_id reason original priced w id) foreign)
              (λ x.
                Spares-bind _ _
                  (Spares-update_record ctx.tenant_id original.id (succeed_by id) foreign
                    (λ r. refl))
                  (λ y.
                    Spares-pure
                      (replacement_row ctx input operation_id reason original priced w id)))))))

  settle_corrected-Spares :
      (input : CorrectServiceInput) (operation_id : ℕ) (reason : Text)
      (original replacement : DailyServiceRecord)
      → Spares t (settle_corrected ctx input operation_id reason original replacement)
  unfolding settle_corrected
  settle_corrected-Spares input operation_id reason original replacement =
      Spares-bind _ _
        (post_entry-Spares ctx foreign original.customer_id adjustment
          (replacement.charge_minor -ℤ original.charge_minor) original.service_date
          from_service_record original.id)
        (λ o.
          settle-Spares ctx foreign (on_service_corrected ctx original replacement reason)
            service_corrected replacement.id (some (service_record_entity original))
            (some (service_record_entity replacement)) (some reason) operation_id
            (audit_source_of input.source) (service_record_entity replacement)
            (on_service_corrected-Spares ctx foreign original replacement reason))

  pub correct_service-Spares :
      (id : ℕ) (input : CorrectServiceInput) (operation_id : ℕ)
      → Spares t (correct_service ctx id input operation_id)
  unfolding correct_service
  correct_service-Spares id input operation_id =
      Spares-bind (lift (require_reason input.reason)) _ (Spares-lift _) (λ reason.
        Spares-bind _ _ (load_record-Spares id) (λ original.
          Spares-bind _ _
            (Spares-raise_when (not (is_active_status original.status)) validation_failed)
            (λ u.
              Spares-bind _ _ (Spares-raise_when (not (is_known_kind input.kind)) validation_failed)
                (λ w.
                  Spares-bind
                    (lift (
                      resolve_quantity_and_charge input.kind input.quantity
                        original.unit_price_minor))
                    _ (Spares-lift _)
                    (λ priced.
                      Spares-bind _ _
                        (replace_record-Spares input operation_id reason original priced)
                        (settle_corrected-Spares input operation_id reason original))))))

  settle_voided-Spares :
      (input : VoidServiceInput) (operation_id : ℕ) (reason : Text)
      (before after : DailyServiceRecord)
      → Spares t (settle_voided ctx input operation_id reason before after)
  unfolding settle_voided
  settle_voided-Spares input operation_id reason before after =
      Spares-bind _ _
        (post_entry-Spares ctx foreign after.customer_id adjustment (neg after.charge_minor)
          after.service_date from_service_record after.id)
        (λ o.
          settle-Spares ctx foreign (on_service_voided ctx after reason) service_voided_action
            after.id (some (service_record_entity before)) (some (service_record_entity after))
            (some reason) operation_id (audit_source_of input.source) (service_record_entity after)
            (on_service_voided-Spares ctx foreign after reason))

  pub void_service-Spares :
      (id : ℕ) (input : VoidServiceInput) (operation_id : ℕ)
      → Spares t (void_service ctx id input operation_id)
  unfolding void_service
  void_service-Spares id input operation_id =
      Spares-bind (lift (require_reason input.reason)) _ (Spares-lift _) (λ reason.
        Spares-bind _ _ (load_record-Spares id) (λ r.
          Spares-bind _ _ (Spares-raise_when (not (is_active_status r.status)) validation_failed)
            (λ u. Spares-bind _ _ Spares-next_row_version (λ v.
              Spares-bind _ _
                (Spares-update_record ctx.tenant_id r.id (void_row reason v) foreign (λ q. refl))
                (λ w. settle_voided-Spares input operation_id reason r (void_row reason v r))))))
