-- ===== src/Models/Audit.antt =====
-- audit/models.py and sync/models.py: the audit trail and the operation register.
use recurring_service_platfo.Base.{ℕ, Option, List}
use recurring_service_platfo.Core.Text.{Text}
use recurring_service_platfo.Models.Service.{Customer, DailyServiceRecord}
use recurring_service_platfo.Models.Customers.{CustomerAlias}
use recurring_service_platfo.Models.Reminders.{Reminder, JobRun}
use recurring_service_platfo.Models.Payments.{Payment}
use recurring_service_platfo.Models.Billing.{BillingCycle}
use recurring_service_platfo.Models.Commission.{CommissionPlan, CommissionSettlement}

-- The serialized entity that a command returns, and the snapshots in the audit trail, are fixed
-- projections of a row; the row stands for them. A closed cycle comes with its statement count, a customer with
-- its active aliases.
pub data Entity : Type 0 where
  service_record_entity : DailyServiceRecord → Entity
  payment_entity : Payment → Entity
  billing_cycle_entity : BillingCycle → ℕ → Entity
  commission_plan_entity : CommissionPlan → Entity
  commission_settlement_entity : CommissionSettlement → Entity
  customer_entity : Customer → List Text → Entity
  customer_alias_entity : CustomerAlias → Entity
  reminder_entity : Reminder → Entity
  job_run_entity : JobRun → Entity

pub data AuditAction : Type 0 where
  service_recorded service_skipped service_corrected service_voided_action : AuditAction
  payment_recorded payment_voided_action billing_cycle_closed : AuditAction
  commission_plan_created commission_plan_closed commission_settlement_recorded : AuditAction
  customer_created customer_updated customer_alias_added customer_alias_updated : AuditAction
  customer_alias_deactivated customer_alias_reactivated : AuditAction
  reminder_run_completed reminder_generated reminder_sent reminder_failed : AuditAction
  reminder_cancelled reminder_owner_alerted : AuditAction

pub data AuditSource : Type 0 where
  audit_online audit_sync audit_job audit_platform : AuditSource

pub data ActorScope : Type 0 where
  tenant_scope platform_scope system_scope : ActorScope

pub record AuditEvent : Type 0 where
  pub tenant_id : ℕ
  pub actor_user_id : Option ℕ
  pub actor_scope : ActorScope
  pub action : AuditAction
  pub entity_id : ℕ
  pub before : Option Entity
  pub after : Option Entity
  pub reason : Option Text
  pub operation_id : Option ℕ
  pub audit_source : AuditSource

pub record SyncOperation : Type 0 where
  pub tenant_id : ℕ
  pub operation_id : ℕ
  pub user_id : ℕ
  pub request_hash : ℕ
  pub result : Option Entity
  pub entity_id : Option ℕ
