-- ===== src/Sync/Idempotency/Replay.antt =====
-- One operation id has one effect.
use recurring_service_platfo.Session.{Db, Action, bind-ok}
use recurring_service_platfo.Base.{
  ◌==◌, if◌then◌else◌, ==_refl, Bool-cases, find, update_first, idempotency_key_reuse, ok, err, ℕ,
  ◌≡◌, ap, ◌∙◌, ◌≢◌, inl, inr, false, none, some, List, ◌∷◌, arith,
}
use recurring_service_platfo.Models.{Entity, SyncOperation}
use recurring_service_platfo.Sync.Idempotency.{
  applied, duplicate, OperationOutcome, is_operation, load_register_row, replay, entity_key,
  register_row, fill_register, perform_claimed, claim, replay_or, execute_idempotent,
}

claimed-first :
    (tenant user operation_id request_hash : ℕ) (e : Entity) (os : List SyncOperation)
    → find (is_operation tenant operation_id) (
        update_first
          (is_operation tenant operation_id)
          (fill_register e)
          (register_row tenant user operation_id request_hash ∷ os))
      ≡ some (fill_register e (register_row tenant user operation_id request_hash))
claimed-first tenant user operation_id request_hash e os = ground arith

module _ (race : Db → Db) (tenant user operation_id request_hash : ℕ)
    (perform : Action Entity) where
  pub execute-applied :
      (db db' : Db) (o : OperationOutcome)
      → load_register_row tenant operation_id db ≡ none
      → load_register_row tenant operation_id (race db) ≡ none
      → ((db₁ db₂ : Db) (e : Entity) → perform db₁ ≡ ok (e, db₂) → db₂.operations ≡ db₁.operations)
      → execute_idempotent race tenant user operation_id request_hash perform db ≡ ok (o, db')
      → (e : Entity) × (o
          ≡ record { status = applied; result = some e; entity_id = some (entity_key e) })
        × (load_register_row tenant operation_id db'
            ≡ some (fill_register e (register_row tenant user operation_id request_hash)))
  unfolding execute_idempotent perform_claimed load_register_row
  execute-applied db db' o absent still keeps h =
      let claimed : perform_claimed tenant operation_id perform (record (race db) {
        operations = register_row tenant user operation_id request_hash ∷ (race db).operations;
      })
          ≡ ok (o, db') =
        rw (absent, still, replay_or, claim) at h in
      let (e, db₂, e₁, h₁) = bind-ok perform _ _ claimed in
      let written : db' ≡ record db₂ {
        operations =
            update_first (is_operation tenant operation_id) (fill_register e) db₂.operations;
      } =
        ground arith in
      (
        e,
        ground arith,
        ap (load_register_row tenant operation_id) written
            ∙ ap
                (λ os.
                  find (is_operation tenant operation_id)
                    (update_first (is_operation tenant operation_id) (fill_register e) os))
                (keeps _ _ e e₁)
            ∙ claimed-first tenant user operation_id request_hash e (race db).operations,
      )

  -- Once an operation id, unknown before, was accepted with an effect that leaves the register
  -- alone, running the same id and request again, with any code and against any concurrent
  -- transactions, has no further effect and returns the first result, and another request under
  -- the id is refused
  pub execute-once :
      (db db' : Db) (o : OperationOutcome) (race' : Db → Db) (user' request_hash' : ℕ)
      (perform' : Action Entity)
      → load_register_row tenant operation_id db ≡ none
      → load_register_row tenant operation_id (race db) ≡ none
      → ((db₁ db₂ : Db) (e : Entity) → perform db₁ ≡ ok (e, db₂) → db₂.operations ≡ db₁.operations)
      → execute_idempotent race tenant user operation_id request_hash perform db ≡ ok (o, db')
      → (o.status ≡ applied)
        × (execute_idempotent race' tenant user' operation_id request_hash perform' db'
            ≡ ok (record o { status = duplicate }, db'))
        × (request_hash' ≢ request_hash
            → execute_idempotent race' tenant user' operation_id request_hash' perform' db'
              ≡ err idempotency_key_reuse)
  unfolding execute_idempotent replay
  execute-once db db' o race' user' request_hash' perform' absent still keeps h =
      let (e, outcome, found) = execute-applied db db' o absent still keeps h in
      (
        ap (λ (x : OperationOutcome). x.status) outcome,
        rw (found, outcome, ==_refl request_hash),
        λ other.
            let apart : (request_hash == request_hash') ≡ false = ground arith in rw (found, apart),
      )

  -- A run that finds its operation id claimed by a concurrent transaction has no effect of its
  -- own: it returns the stored result of the same request or refuses another one
  pub execute-raced :
      (db : Db) (winner : SyncOperation)
      → load_register_row tenant operation_id db ≡ none
      → load_register_row tenant operation_id (race db) ≡ some winner
      → execute_idempotent race tenant user operation_id request_hash perform db ≡ (
          if winner.request_hash == request_hash
          then ok (
            record { status = duplicate; result = winner.result; entity_id = winner.entity_id },
            race db,
          )
          else err idempotency_key_reuse)
  unfolding execute_idempotent replay
  execute-raced db winner absent found = elim (Bool-cases (winner.request_hash == request_hash)) [
    | inl e ↦ rw (absent, replay_or, found, claim, e)
    | inr e ↦ rw (absent, replay_or, found, claim, e)
  ]
