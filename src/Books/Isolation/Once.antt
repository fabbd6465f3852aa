-- ===== src/Books/Isolation/Once.antt =====
-- A request of service or payments that a client sends again under its operation id.
-- A request of service or payments that a client sends again under its operation id.
use recurring_service_platfo.Sync.Idempotency.{
  applied, duplicate, OperationOutcome, is_operation, load_register_row, replay, register_row,
  fill_register, perform_claimed, claim, claim_after_race, replay_or, execute_idempotent,
}
use recurring_service_platfo.Sync.Idempotency.Replay.{execute-applied}
use recurring_service_platfo.Session.{Db, after, bind-ok}
use recurring_service_platfo.Base.{
  ◌==◌, ==_refl, Bool-cases, Option-cases, find, update_first, idempotency_key_reuse, Result, ok,
  err, ℕ, suc, ◌≡◌, refl, sym, ap, ◌∙◌, ◌≢◌, inl, inr, false, none, some, List, [], ◌∷◌, arith,
}
use recurring_service_platfo.Models.{TenantContext, Entity, SyncOperation}
use recurring_service_platfo.Books.Isolation.Payments.{
  TenantCommand, run_command, run_command-Untouched,
}

-- There is always another tenant.
other_tenant : (n : ℕ) → n ≢ suc n
other_tenant n = omega arith

-- No other transaction commits in the middle of a request.
abbrev pub undisturbed : Db → Db
undisturbed db = db

abbrev pub request :
    (Db → Db) → TenantContext → TenantCommand → ℕ → ℕ → Db → Result (OperationOutcome × Db)
request race ctx command operation_id request_hash =
    execute_idempotent race ctx.tenant_id ctx.user_id operation_id request_hash
      (run_command ctx command operation_id)

-- Requests that are served one after the other; one that is refused leaves nothing behind.
unfoldable pub serve : List (TenantContext × TenantCommand × ℕ × ℕ) → Db → Db
serve [] db = db
serve ((ctx, command, operation_id, request_hash) ∷ rest) db =
    serve rest (after db (request undisturbed ctx command operation_id request_hash db))

command-same_operations :
    (ctx : TenantContext) (command : TenantCommand) (operation_id : ℕ) (db db' : Db) (e : Entity)
    → run_command ctx command operation_id db ≡ ok (e, db')
    → db'.operations ≡ db.operations
command-same_operations ctx command operation_id db db' e h =
    (run_command-Untouched ctx command operation_id (suc ctx.tenant_id) db db' e
      (other_tenant ctx.tenant_id) h).same_operations

-- A register row that was found is found while another one is claimed and filled in.
find-claimed :
    (tenant operation_id t o user hash : ℕ) (e : Entity) (row : SyncOperation)
    (os : List SyncOperation)
    → find (is_operation t o) os ≡ none
    → find (is_operation tenant operation_id) os ≡ some row
    → find
        (is_operation tenant operation_id)
        (update_first (is_operation t o) (fill_register e) (register_row t user o hash ∷ os))
      ≡ some row
find-claimed tenant operation_id t o user hash e row os new found =
    elim (Bool-cases (is_operation tenant operation_id (register_row t user o hash))) [
      | inl same ↦ absurd (
          let own : t ≡ tenant = ground arith in
          let key : o ≡ operation_id = ground arith in
          let none_there : find (is_operation tenant operation_id) os ≡ none =
            ap (λ x. find (is_operation x operation_id) os) (sym own)
            ∙ ap (λ x. find (is_operation t x) os) (sym key)
            ∙ new in
          none-some row (sym none_there ∙ found))
      | inr apart ↦ ground (arith, found)
    ]
  where
    none-some : (r : SyncOperation) → none ≡ some r → ⊥
    none-some r h = cc

replayed-same :
    (existing : SyncOperation) (hash : ℕ) (db db' : Db) (out : OperationOutcome)
    → replay existing hash db ≡ ok (out, db')
    → db' ≡ db
unfolding replay
replayed-same existing hash db db' out h = ground arith

request-keeps :
    (tenant operation_id : ℕ) (row : SyncOperation) (ctx : TenantContext) (command : TenantCommand)
    (o hash : ℕ) (db db' : Db) (out : OperationOutcome)
    → load_register_row tenant operation_id db ≡ some row
    → request undisturbed ctx command o hash db ≡ ok (out, db')
    → load_register_row tenant operation_id db' ≡ some row
unfolding execute_idempotent perform_claimed load_register_row
request-keeps tenant operation_id row ctx command o hash db db' out found h =
    elim (Option-cases (find (is_operation ctx.tenant_id o) db.operations)) [
      | inr (existing, e) ↦
          let replayed : replay existing hash db ≡ ok (out, db') = rw (e, replay_or) at h in
          ap (λ (d : Db). find (is_operation tenant operation_id) d.operations)
            (replayed-same existing hash db db' out replayed)
          ∙ found
      | inl e ↦
          let claimed : perform_claimed ctx.tenant_id o (run_command ctx command o) (record db {
            operations = register_row ctx.tenant_id ctx.user_id o hash ∷ db.operations;
          })
              ≡ ok (out, db') =
            rw (e, replay_or, claim_after_race, undisturbed, e, claim) at h in
          let (x, db₁, e₁, h₁) = bind-ok (run_command ctx command o) _ _ claimed in
          let kept = command-same_operations ctx command o _ db₁ x e₁ in
          let written : db'.operations
              ≡ update_first (is_operation ctx.tenant_id o) (fill_register x) db₁.operations =
            ground arith in
          ap (find (is_operation tenant operation_id)) written
          ∙ ap
              (λ os.
                find (is_operation tenant operation_id)
                  (update_first (is_operation ctx.tenant_id o) (fill_register x) os))
              kept
          ∙ find-claimed tenant operation_id ctx.tenant_id o ctx.user_id hash x row db.operations e
              found
    ]

after-keeps :
    (tenant operation_id : ℕ) (row : SyncOperation) (ctx : TenantContext) (command : TenantCommand)
    (o hash : ℕ) (db : Db) (r : Result (OperationOutcome × Db))
    → load_register_row tenant operation_id db ≡ some row
    → request undisturbed ctx command o hash db ≡ r
    → load_register_row tenant operation_id (after db r) ≡ some row
after-keeps tenant operation_id row ctx command o hash db (ok r) found h =
    request-keeps tenant operation_id row ctx command o hash db r.1 r.0 found h
after-keeps tenant operation_id row ctx command o hash db (err e) found h = found

serve-keeps :
    (tenant operation_id : ℕ) (row : SyncOperation)
    (requests : List (TenantContext × TenantCommand × ℕ × ℕ)) (db : Db)
    → load_register_row tenant operation_id db ≡ some row
    → load_register_row tenant operation_id (serve requests db) ≡ some row
unfolding serve
serve-keeps tenant operation_id row [] db found = found
serve-keeps tenant operation_id row ((ctx, command, o, hash) ∷ rest) db found =
    serve-keeps tenant operation_id row rest _
      (after-keeps tenant operation_id row ctx command o hash db _ found refl)

-- A request of service or payments that is accepted under an operation id that the tenant had not
-- used, also not by a transaction that commits before the id is claimed, has its effect once:
-- after any sequence of further requests of service and payments of any tenants, one after the
-- other, a request of the tenant under that id returns the stored result and changes nothing when
-- its hash is the same, and is refused when its hash differs
pub request-once :
    (race : Db → Db) (ctx ctx' : TenantContext) (command command' : TenantCommand)
    (operation_id request_hash request_hash' : ℕ)
    (between : List (TenantContext × TenantCommand × ℕ × ℕ)) (db db' : Db) (o : OperationOutcome)
    → load_register_row ctx.tenant_id operation_id db ≡ none
    → load_register_row ctx.tenant_id operation_id (race db) ≡ none
    → ctx'.tenant_id ≡ ctx.tenant_id
    → request race ctx command operation_id request_hash db ≡ ok (o, db')
    → (o.status ≡ applied)
      × (request undisturbed ctx' command' operation_id request_hash (serve between db')
          ≡ ok (record o { status = duplicate }, serve between db'))
      × (request_hash' ≢ request_hash
          → request undisturbed ctx' command' operation_id request_hash' (serve between db')
            ≡ err idempotency_key_reuse)
unfolding execute_idempotent replay
request-once race ctx ctx' command command' operation_id request_hash request_hash' between db db' o
      absent still same done =
    let (e, outcome, found) =
      execute-applied race ctx.tenant_id ctx.user_id operation_id request_hash
        (run_command ctx command operation_id) db db' o absent still
        (command-same_operations ctx command operation_id) done in
    let row = fill_register e (register_row ctx.tenant_id ctx.user_id operation_id request_hash) in
    let later = serve-keeps ctx.tenant_id operation_id row between db' found in
    let there : load_register_row ctx'.tenant_id operation_id (serve between db') ≡ some row =
      ap (λ t. load_register_row t operation_id (serve between db')) same ∙ later in
    (
      ap (λ (x : OperationOutcome). x.status) outcome,
      rw (there, outcome, ==_refl request_hash),
      λ other.
          let apart : (request_hash == request_hash') ≡ false = ground arith in rw (there, apart),
    )
