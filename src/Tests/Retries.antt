-- ===== src/Tests/Retries.antt =====
-- A payment that is sent twice under one operation id.
use recurring_service_platfo.Models.{TenantContext}
use recurring_service_platfo.Base.{
  idempotency_key_reuse, Result, ok, err, ℕ, ◌≡◌, refl, ◌≢◌, true, none, List, [], ◌∷◌,
}
use recurring_service_platfo.Base.Int.{neg}
use recurring_service_platfo.Session.{Db, new_id, next_row_version, after}
use recurring_service_platfo.Session.Tables.{insert_entry, insert_cycle, record_tenant_event}
use recurring_service_platfo.Core.Clock.{validate_business_date, resolve_date}
use recurring_service_platfo.Commission.Settlements.{validate_amount_minor}
use recurring_service_platfo.Commission.Plans.{effective_plan}
use recurring_service_platfo.Commission.Engine.{on_payment_recorded}
use recurring_service_platfo.Billing.Cycles.{
  period_bounds, open_cycle, create_cycle, ensure_open_cycle,
}
use recurring_service_platfo.Billing.Ledger.{append_entry, post_entry}
use recurring_service_platfo.Payments.Commands.{
  load_payer, prepare_payment, settle_payment, record_payment,
}
use recurring_service_platfo.Sync.Idempotency.{
  applied, duplicate, OperationOutcome, load_register_row, perform_claimed, execute_idempotent,
}
use recurring_service_platfo.Books.Isolation.Payments.{
  TenantCommand, do_record_service, do_record_payment,
}
use recurring_service_platfo.Books.Isolation.Once.{undisturbed, request, serve, request-once}
use recurring_service_platfo.Tests.Sample.{
  ctx, blank_db, record_input, payment_input, is_ok, value_or, value_or-done,
}

abbrev alone : Db → Db
alone db = db

abbrev other_hash : ℕ
other_hash = 78

abbrev no_outcome : OperationOutcome
no_outcome = record { status = applied; result = none; entity_id = none }

abbrev sent : Result (OperationOutcome × Db)
sent = request alone ctx (do_record_payment payment_input) 903 77 blank_db

sent_ok : is_ok sent ≡ true
unfolding execute_idempotent load_register_row perform_claimed record_payment prepare_payment
    load_payer validate_amount_minor resolve_date validate_business_date next_row_version new_id
    settle_payment post_entry append_entry ensure_open_cycle open_cycle create_cycle period_bounds
    insert_cycle insert_entry on_payment_recorded effective_plan record_tenant_event neg
sent_ok = refl

not_sent : load_register_row 1 903 blank_db ≡ none
unfolding load_register_row
not_sent = refl

-- Another tenant uses the same id in between.
abbrev between : List (TenantContext × TenantCommand × ℕ × ℕ)
between =
    (record ctx { tenant_id = 2 }, do_record_payment payment_input, 903, 77)
    ∷ (ctx, do_record_service record_input, 904, 80)
    ∷ []

request-once_example :
    ((value_or no_outcome sent).status ≡ applied)
    × (request undisturbed ctx
          (do_record_service record_input)
          903
          77
          (serve between (after blank_db sent))
        ≡ ok (
          record (value_or no_outcome sent) { status = duplicate },
          serve between (after blank_db sent),
        ))
    × (other_hash ≢ 77
        → request undisturbed ctx
            (do_record_service record_input)
            903
            other_hash
            (serve between (after blank_db sent))
          ≡ err idempotency_key_reuse)
request-once_example =
    request-once alone ctx ctx (do_record_payment payment_input) (do_record_service record_input)
      903 77 other_hash between blank_db (after blank_db sent) (value_or no_outcome sent) not_sent
      not_sent refl (value_or-done no_outcome blank_db sent sent_ok)
