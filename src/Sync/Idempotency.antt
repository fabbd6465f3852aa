-- ===== src/Sync/Idempotency.antt =====
-- backend/app/sync/idempotency.py: `execute_idempotent`.
--
-- The hash of the request (SHA-256 over canonical JSON) is an argument. `race` is what the other
-- transactions of the tenant commit between the first lookup and the claim of the register row.
pub mod Replay
use recurring_service_platfo.Session.{
  Db, Action, ◌>>=◌, ◌>>◌, pure, raise, raise_when, gets, modify, after,
}
use recurring_service_platfo.Base.{
  ◌==◌, find, update_first, idempotency_key_reuse, ok, ℕ, ◌-◌, ◌/◌, ap, Bool, not, ◌&&◌, Option,
  none, some, ◌∷◌,
}
use recurring_service_platfo.Models.{
  service, sync, other, payment, closed, Entity, service_record_entity, payment_entity,
  billing_cycle_entity, commission_plan_entity, commission_settlement_entity, customer_entity,
  customer_alias_entity, reminder_entity, job_run_entity, SyncOperation,
}

pub data OperationStatus : Type 0 where
  applied duplicate : OperationStatus

pub record OperationOutcome : Type 0 where
  pub status : OperationStatus
  pub result : Option Entity
  pub entity_id : Option ℕ

abbrev pub is_operation : ℕ → ℕ → SyncOperation → Bool
is_operation tenant operation_id o = o.tenant_id == tenant && o.operation_id == operation_id

unfoldable pub load_register_row : ℕ → ℕ → Db → Option SyncOperation
load_register_row tenant operation_id db = find (is_operation tenant operation_id) db.operations

-- SYN-14: the same id for another request fails closed.
unfoldable pub replay : SyncOperation → ℕ → Action OperationOutcome
replay existing request_hash = do
  raise_when (not (existing.request_hash == request_hash)) idempotency_key_reuse
  pure (record { status = duplicate; result = existing.result; entity_id = existing.entity_id })

-- The third component of what `perform` returns.
abbrev pub entity_key : Entity → ℕ
entity_key (service_record_entity r) = r.id
entity_key (payment_entity p) = p.id
entity_key (billing_cycle_entity c n) = c.id
entity_key (commission_plan_entity p) = p.id
entity_key (commission_settlement_entity s) = s.id
entity_key (customer_entity c aliases) = c.id
entity_key (customer_alias_entity a) = a.id
entity_key (reminder_entity r) = r.id
entity_key (job_run_entity j) = j.id

abbrev pub register_row : ℕ → ℕ → ℕ → ℕ → SyncOperation
register_row tenant user operation_id request_hash = record {
  tenant_id = tenant;
  operation_id = operation_id;
  user_id = user;
  request_hash = request_hash;
  result = none;
  entity_id = none;
}

abbrev pub fill_register : Entity → SyncOperation → SyncOperation
fill_register e o = record o { result = some e; entity_id = some (entity_key e) }

-- The effect, and the register row filled in, in the one transaction.
unfoldable pub perform_claimed : ℕ → ℕ → Action Entity → Action OperationOutcome
perform_claimed tenant operation_id perform = do
  e ← perform
  modify (λ db. record db {
    operations = update_first (is_operation tenant operation_id) (fill_register e) db.operations;
  })
  pure (record { status = applied; result = some e; entity_id = some (entity_key e) })

-- uq_sync_operation_tenant_id_operation_id decides who claims an id.
abbrev pub claim : Option SyncOperation → ℕ → ℕ → ℕ → ℕ → Action Entity → Action OperationOutcome
claim (some winner) tenant user operation_id request_hash perform = replay winner request_hash
claim none tenant user operation_id request_hash perform = do
  modify (λ db. record db {
    operations = register_row tenant user operation_id request_hash ∷ db.operations;
  })
  perform_claimed tenant operation_id perform

abbrev pub claim_after_race : (Db → Db) → ℕ → ℕ → ℕ → ℕ → Action Entity → Action OperationOutcome
claim_after_race race tenant user operation_id request_hash perform = do
  modify race
  winner ← gets (load_register_row tenant operation_id)
  claim winner tenant user operation_id request_hash perform

abbrev pub replay_or : Option SyncOperation → ℕ → Action OperationOutcome → Action OperationOutcome
replay_or (some existing) request_hash m = replay existing request_hash
replay_or none request_hash m = m

unfoldable pub execute_idempotent :
    (Db → Db) → ℕ → ℕ → ℕ → ℕ → Action Entity → Action OperationOutcome
execute_idempotent race tenant user operation_id request_hash perform = do
  existing ← gets (load_register_row tenant operation_id)
  replay_or existing request_hash
      (claim_after_race race tenant user operation_id request_hash perform)
