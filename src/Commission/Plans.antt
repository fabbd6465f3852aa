-- ===== src/Commission/Plans.antt =====
-- backend/app/commission/plans.py: the plan in force on a date, and a new plan.
pub mod Frame
pub mod Overlap
pub mod Creating
use recurring_service_platfo.Session.{
  Db, Action, ◌>>=◌, ◌>>◌, pure, raise, lift, raise_when, gets, modify, new_id,
}
use recurring_service_platfo.Base.{
  ltb, leb, ◌==◌, if◌then◌else◌, is_some, filter, find, any, update_first, validation_failed,
  commission_plan_overlap, conflict, Result, ok, err, reraise, ℕ, ◌-◌, ◌/◌, ap, Bool, true, not,
  ◌&&◌, Option, none, some, List, [], ◌∷◌, map,
}
use recurring_service_platfo.Base.Int.{ℤ, pos, ltb_ℤ}
use recurring_service_platfo.Core.Date.{Date, date_leb, day_before}
use recurring_service_platfo.Core.Text.{Text, codes, text_eqb}
use recurring_service_platfo.Core.Money.{PyValue, int_value, validate_rate_bp}
use recurring_service_platfo.Models.{
  superseded, failed, recorded, closed, CommissionBasis, recorded_value, billed_value,
  collected_value, per_event, unknown_basis, CommissionPlan, PlatformContext, Entity,
  commission_plan_entity, AuditAction, commission_plan_created, commission_plan_closed,
  audit_platform, platform_scope, AuditEvent,
}
use recurring_service_platfo.Session.Tables.{record_audit_event}

abbrev pub ends_on_or_after : Option Date → Date → Bool
ends_on_or_after none day = true
ends_on_or_after (some last) day = date_leb day last

abbrev pub is_in_force : ℕ → Date → CommissionPlan → Bool
is_in_force tenant on_date p =
    p.tenant_id == tenant
    && (date_leb p.effective_from on_date && ends_on_or_after p.effective_to on_date)

-- At most one row matches, by the EXCLUDE constraint on the ranges.
unfoldable pub effective_plan : ℕ → Date → Db → Option CommissionPlan
effective_plan tenant on_date db = find (is_in_force tenant on_date) db.plans

pub record CreatePlanInput : Type 0 where
  pub basis : CommissionBasis
  pub effective_from : Date
  pub rate_bp : Option PyValue
  pub fixed_amount_minor : Option PyValue
  pub currency : Option Text
  pub effective_to : Option Date

abbrev pub fixed_term : Option PyValue → Result ℤ
fixed_term none = err validation_failed
fixed_term (some (int_value n)) = if ltb_ℤ n (pos 0) then err validation_failed else ok n
fixed_term (some _) = err validation_failed

abbrev pub rate_term : Option PyValue → Result ℤ
rate_term none = err validation_failed
rate_term (some v) = reraise validation_failed (validate_rate_bp v)

abbrev pub per_event_terms : CreatePlanInput → Action (Option ℤ × Option ℤ)
per_event_terms input = do
  raise_when (is_some input.rate_bp) validation_failed
  fixed ← lift (fixed_term input.fixed_amount_minor)
  pure (none, some fixed)

abbrev pub rated_terms : CreatePlanInput → Action (Option ℤ × Option ℤ)
rated_terms input = do
  raise_when (is_some input.fixed_amount_minor) validation_failed
  rate ← lift (rate_term input.rate_bp)
  pure (some rate, none)

-- Exactly one term, and the one that the basis uses (COM-1, COM-9).
unfoldable pub validate_terms : CreatePlanInput → Action (Option ℤ × Option ℤ)
validate_terms input = elim input.basis [
  | recorded_value ↦ rated_terms input
  | billed_value ↦ rated_terms input
  | collected_value ↦ rated_terms input
  | per_event ↦ per_event_terms input
  | unknown_basis ↦ raise validation_failed
]

abbrev pub is_clashing : ℕ → Date → CommissionPlan → Bool
is_clashing tenant effective_from p =
    p.tenant_id == tenant && ends_on_or_after p.effective_to effective_from

abbrev pub plan_audit :
    PlatformContext → AuditAction → ℕ → Option Entity → Option Entity → Option Text → ℕ → AuditEvent
plan_audit ctx action id before after reason operation_id = record {
  tenant_id = ctx.tenant_id;
  actor_user_id = some ctx.user_id;
  actor_scope = platform_scope;
  action = action;
  entity_id = id;
  before = before;
  after = after;
  reason = reason;
  operation_id = some operation_id;
  audit_source = audit_platform;
}

abbrev pub end_plan : ℕ → ℕ → Date → Db → Db
end_plan tenant id last db = record db {
  plans =
      update_first (λ p. p.tenant_id == tenant && p.id == id)
        (λ p. record p { effective_to = some last }) db.plans;
}

-- The plans that reach the new start: none, one open-ended predecessor to close, or a conflict.
unfoldable pub close_predecessor :
    PlatformContext → Date → ℕ → List CommissionPlan → Action (Option CommissionPlan)
close_predecessor ctx effective_from operation_id [] = pure none
close_predecessor ctx effective_from operation_id (p ∷ []) = do
  raise_when (date_leb effective_from p.effective_from) commission_plan_overlap
  raise_when (is_some p.effective_to) commission_plan_overlap
  let closed_plan : CommissionPlan = record p { effective_to = some (day_before effective_from) }
  modify (end_plan ctx.tenant_id p.id (day_before effective_from))
  record_audit_event (
      plan_audit ctx commission_plan_closed p.id (some (commission_plan_entity p))
        (some (commission_plan_entity closed_plan))
        (some (codes "superseded by a new commission plan")) operation_id)
  pure (some closed_plan)
close_predecessor ctx effective_from operation_id (p ∷ q ∷ ps) = raise commission_plan_overlap

-- `daterange(from, to, '[]')` of two plans of a tenant meet.
abbrev pub ranges_meet : CommissionPlan → CommissionPlan → Bool
ranges_meet p q =
    q.tenant_id == p.tenant_id
    && (ends_on_or_after p.effective_to q.effective_from
        && ends_on_or_after q.effective_to p.effective_from)

-- ex_commission_plan_effective_range_no_overlap.
unfoldable pub insert_plan : CommissionPlan → Action (Unit {0})
insert_plan p = do
  raise_when (← gets (λ db. any (ranges_meet p) db.plans)) commission_plan_overlap
  modify (λ db. record db { plans = p ∷ db.plans })

-- `str.upper` on a currency code in ASCII.
abbrev pub to_upper : ℕ → ℕ
to_upper c = if leb b'a' c && leb c b'z' then c - 32 else c

-- `data.currency or ctx.currency`.
abbrev pub plan_currency : Option Text → Text → Text
plan_currency none default = map to_upper default
plan_currency (some []) default = map to_upper default
plan_currency (some (c ∷ cs)) default = map to_upper (c ∷ cs)

abbrev pub plan_row : PlatformContext → CreatePlanInput → Option ℤ × Option ℤ → ℕ → CommissionPlan
plan_row ctx input terms id = record {
  id = id;
  tenant_id = ctx.tenant_id;
  basis = input.basis;
  rate_bp = terms.0;
  fixed_amount_minor = terms.1;
  currency = plan_currency input.currency ctx.currency;
  effective_from = input.effective_from;
  effective_to = input.effective_to;
  created_by_user_id = ctx.user_id;
}

unfoldable pub create_plan : PlatformContext → CreatePlanInput → ℕ → Action Entity
create_plan ctx input operation_id = do
  terms ← validate_terms input
  raise_when (not (text_eqb (plan_currency input.currency ctx.currency) ctx.currency))
      validation_failed
  raise_when (not (ends_on_or_after input.effective_to input.effective_from)) validation_failed
  clashing ← gets (λ db. filter (is_clashing ctx.tenant_id input.effective_from) db.plans)
  close_predecessor ctx input.effective_from operation_id clashing
  id ← new_id
  let plan = plan_row ctx input terms id
  insert_plan plan
  record_audit_event (
      plan_audit ctx commission_plan_created id none (some (commission_plan_entity plan)) none
        operation_id)
  pure (commission_plan_entity plan)
