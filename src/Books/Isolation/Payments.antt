-- ===== src/Books/Isolation/Payments.antt =====
-- The payment commands, and every command of a tenant, spare the other tenants.
use recurring_service_platfo.Service.Inputs.{
  RecordServiceInput, CorrectServiceInput, VoidServiceInput,
}
use recurring_service_platfo.Session.{Db, Action, lift, after, bind-ok}
use recurring_service_platfo.Session.Isolation.{
  Untouched, Untouched-trans, Spares, Spares-bind, Spares-pure, Spares-lift, Spares-raise_when,
  Spares-new_id, Spares-next_row_version, Spares-insert_payment, Spares-update_payment,
}
use recurring_service_platfo.Session.Tables.{insert_payment, audit_source_of}
use recurring_service_platfo.Base.{
  ◌==◌, validation_failed, ok, ℕ, ◌≡◌, refl, ◌≢◌, false, not, none, some, arith,
}
use recurring_service_platfo.Base.Int.{neg}
use recurring_service_platfo.Core.Clock.{resolve_date}
use recurring_service_platfo.Core.Text.{Text, require_reason}
use recurring_service_platfo.Models.{
  TenantContext, is_known_method, is_recorded, Payment, payment, adjustment, from_payment, Entity,
  payment_entity, payment_recorded, payment_voided_action,
}
use recurring_service_platfo.Service.Commands.{record_service, correct_service, void_service}
use recurring_service_platfo.Payments.Commands.{
  RecordPaymentInput, VoidPaymentInput, load_payer, load_payment, payment_row, prepare_payment,
  settle_payment, record_payment, void_payment_row, settle_payment_voided, void_payment,
}
use recurring_service_platfo.Commission.Settlements.{validate_amount_minor}
use recurring_service_platfo.Commission.Engine.{on_payment_recorded, on_payment_voided}
use recurring_service_platfo.Books.Paying.{prepare_payment-ok}
use recurring_service_platfo.Books.Isolation.{
  post_entry-Spares, on_payment_recorded-Spares, on_payment_voided-Spares, settle-Spares,
}
use recurring_service_platfo.Books.Isolation.Commands.{
  record_service-Spares, correct_service-Spares, void_service-Spares,
}

module _ {t : ℕ} (ctx : TenantContext) (foreign : (ctx.tenant_id == t) ≡ false) where
  load_payer-Spares : (id : ℕ) → Spares t (load_payer ctx id)
  unfolding load_payer
  load_payer-Spares id db db' c h = ground arith

  load_payment-Spares : (id : ℕ) → Spares t (load_payment ctx id)
  unfolding load_payment
  load_payment-Spares id db db' c h = ground arith

  prepare_payment-Spares :
      (input : RecordPaymentInput) (operation_id : ℕ)
      → Spares t (prepare_payment ctx input operation_id)
  unfolding prepare_payment
  prepare_payment-Spares input operation_id =
      Spares-bind _ _ (Spares-raise_when (not (is_known_method input.method)) validation_failed)
        (λ u. Spares-bind _ _ (load_payer-Spares input.customer_id) (λ customer.
          Spares-bind (lift (validate_amount_minor input.amount_minor)) _ (Spares-lift _) (λ amount.
            Spares-bind (lift (resolve_date ctx.today input.received_on)) _ (Spares-lift _) (λ day.
              Spares-bind _ _ Spares-next_row_version (λ v. Spares-bind _ _ Spares-new_id (λ id.
                Spares-pure (payment_row ctx input operation_id customer amount day v id)))))))

  settle_payment-Spares :
      (p : Payment) (operation_id : ℕ) → Spares t (settle_payment ctx p operation_id)
  unfolding settle_payment
  settle_payment-Spares p operation_id =
      Spares-bind _ _
        (post_entry-Spares ctx foreign p.customer_id payment (neg p.amount_minor) p.received_on
          from_payment p.id)
        (λ o.
          settle-Spares ctx foreign (on_payment_recorded ctx p) payment_recorded p.id none
            (some (payment_entity p)) none operation_id (audit_source_of p.source)
            (payment_entity p) (on_payment_recorded-Spares ctx foreign p))

  record_payment-Spares :
      (input : RecordPaymentInput) (operation_id : ℕ)
      → Spares t (record_payment ctx input operation_id)
  unfolding record_payment
  record_payment-Spares input operation_id db db' e h =
      let (p, db₁, e₁, h₁) = bind-ok (prepare_payment ctx input operation_id) _ db h in
      let (own, live) = prepare_payment-ok ctx input operation_id db db₁ p e₁ in
      Untouched-trans (prepare_payment-Spares input operation_id db db₁ p e₁) (
        Spares-bind (insert_payment p) _ (Spares-insert_payment p (rw own foreign))
          (λ u. settle_payment-Spares p operation_id) db₁ db' e h₁)

  settle_payment_voided-Spares :
      (input : VoidPaymentInput) (operation_id : ℕ) (reason : Text) (before after : Payment)
      → Spares t (settle_payment_voided ctx input operation_id reason before after)
  unfolding settle_payment_voided
  settle_payment_voided-Spares input operation_id reason before after =
      Spares-bind _ _
        (post_entry-Spares ctx foreign after.customer_id adjustment after.amount_minor
          after.received_on from_payment after.id)
        (λ o.
          settle-Spares ctx foreign (on_payment_voided ctx after reason) payment_voided_action
            after.id (some (payment_entity before)) (some (payment_entity after)) (some reason)
            operation_id (audit_source_of input.source) (payment_entity after)
            (on_payment_voided-Spares ctx foreign after reason))

  void_payment-Spares :
      (id : ℕ) (input : VoidPaymentInput) (operation_id : ℕ)
      → Spares t (void_payment ctx id input operation_id)
  unfolding void_payment
  void_payment-Spares id input operation_id =
      Spares-bind (lift (require_reason input.reason)) _ (Spares-lift _) (λ reason.
        Spares-bind _ _ (load_payment-Spares id) (λ p.
          Spares-bind _ _ (Spares-raise_when (not (is_recorded p.status)) validation_failed) (λ u.
            Spares-bind _ _ Spares-next_row_version (λ v.
              Spares-bind _ _
                (Spares-update_payment ctx.tenant_id p.id (void_payment_row ctx reason v) foreign
                  (λ q. refl))
                (λ w.
                  settle_payment_voided-Spares input operation_id reason p
                    (void_payment_row ctx reason v p))))))

-- The commands of service and payments, run for one tenant.
pub data TenantCommand : Type 0 where
  do_record_service : RecordServiceInput → TenantCommand
  do_correct_service : ℕ → CorrectServiceInput → TenantCommand
  do_void_service : ℕ → VoidServiceInput → TenantCommand
  do_record_payment : RecordPaymentInput → TenantCommand
  do_void_payment : ℕ → VoidPaymentInput → TenantCommand

abbrev pub run_command : TenantContext → TenantCommand → ℕ → Action Entity
run_command ctx (do_record_service input) operation_id = record_service ctx input operation_id
run_command ctx (do_correct_service id input) operation_id =
    correct_service ctx id input operation_id
run_command ctx (do_void_service id input) operation_id = void_service ctx id input operation_id
run_command ctx (do_record_payment input) operation_id = record_payment ctx input operation_id
run_command ctx (do_void_payment id input) operation_id = void_payment ctx id input operation_id

run-Spares :
    (ctx : TenantContext) (command : TenantCommand) (operation_id t : ℕ)
    → (ctx.tenant_id == t) ≡ false
    → Spares t (run_command ctx command operation_id)
run-Spares ctx (do_record_service input) operation_id t foreign =
    record_service-Spares ctx foreign input operation_id
run-Spares ctx (do_correct_service id input) operation_id t foreign =
    correct_service-Spares ctx foreign id input operation_id
run-Spares ctx (do_void_service id input) operation_id t foreign =
    void_service-Spares ctx foreign id input operation_id
run-Spares ctx (do_record_payment input) operation_id t foreign =
    record_payment-Spares ctx foreign input operation_id
run-Spares ctx (do_void_payment id input) operation_id t foreign =
    void_payment-Spares ctx foreign id input operation_id

-- A command of service or payments that is accepted for one tenant leaves the records, payments,
-- cycles, ledger entries, statements, commission events and adjustments and audit events of every
-- other tenant as they were, and the register of operations
pub run_command-Untouched :
    (ctx : TenantContext) (command : TenantCommand) (operation_id t : ℕ) (db db' : Db) (e : Entity)
    → ctx.tenant_id ≢ t
    → run_command ctx command operation_id db ≡ ok (e, db')
    → Untouched t db db'
run_command-Untouched ctx command operation_id t db db' e apart h =
    run-Spares ctx command operation_id t (ground arith) db db' e h
