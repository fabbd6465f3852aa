-- ===== src/Commission/Events.antt =====
-- backend/app/commission/engine.py: the amounts, the correction chain, and appending an event or an
-- adjustment.
use recurring_service_platfo.Session.{Db, Action, ◌>>=◌, ◌>>◌, pure, lift, gets, modify, new_id}
use recurring_service_platfo.Base.{
  ◌==◌, if◌then◌else◌, get_or, length, find, any, assertion_error, Result, ok, err, ℕ, zero, suc,
  Bool, ◌&&◌, Option, none, some, List, [], ◌∷◌,
}
use recurring_service_platfo.Base.Int.{ℤ, pos, neg}
use recurring_service_platfo.Core.Date.{Date}
use recurring_service_platfo.Core.Text.{Text}
use recurring_service_platfo.Core.Money.{PyValue, none_value, int_value, apply_rate_bp}
use recurring_service_platfo.Models.{
  TenantContext, DailyServiceRecord, CommissionBasis, is_per_event, CommissionSourceType,
  by_service_record, source_eqb, CommissionPlan, CommissionEvent, CommissionAdjustment,
}
use recurring_service_platfo.Session.Tables.{is_record}

abbrev pub fixed_fee : Option ℤ → Result ℤ
fixed_fee none = err assertion_error
fixed_fee (some fee) = ok fee

abbrev pub rated_fee : Option ℤ → ℤ → Result ℤ
rated_fee none base = err assertion_error
rated_fee (some rate) base = apply_rate_bp (int_value base) (int_value rate)

-- `commission_minor_for`.
unfoldable pub commission_minor_for : CommissionBasis → Option ℤ → Option ℤ → ℤ → Result ℤ
commission_minor_for basis rate_bp fixed base =
    if is_per_event basis then fixed_fee fixed else rated_fee rate_bp base

abbrev pub rate_value : Option ℤ → PyValue
rate_value none = none_value
rate_value (some n) = int_value n

-- `_adjustment_minor_for`: by the terms on the event, never by today's plan.
unfoldable pub adjustment_minor_for : CommissionEvent → ℤ → Bool → Result ℤ
adjustment_minor_for event base_delta still_commissionable =
    if is_per_event event.basis_snapshot
    then (if still_commissionable
        then ok (pos 0)
        else ok (neg (get_or event.fixed_amount_minor_snapshot (pos 0))))
    else apply_rate_bp (int_value base_delta) (rate_value event.rate_bp_snapshot)

abbrev pub is_event_of : ℕ → CommissionSourceType → ℕ → CommissionEvent → Bool
is_event_of tenant source id e =
    e.tenant_id == tenant && (source_eqb e.source_type source && e.source_id == id)

unfoldable pub find_event : ℕ → CommissionSourceType → ℕ → Db → Option CommissionEvent
find_event tenant source id db = find (is_event_of tenant source id) db.events

abbrev pub mem : ℕ → List ℕ → Bool
mem x = any (λ y. x == y)

-- `corrects_id` of the row with an id, if there is such a row.
abbrev pub corrects : ℕ → ℕ → List DailyServiceRecord → Option ℕ
corrects tenant id rows = elim (find (is_record tenant id) rows) [
  | none ↦ none
  | some r ↦ r.corrects_id
]

-- The `while` of `_chain_ids`; `none` says that the fuel ran out. The list is newest first.
unfoldable pub chain_walk : ℕ → ℕ → List DailyServiceRecord → List ℕ → Option ℕ → Option (List ℕ)
chain_walk zero tenant rows seen next = none
chain_walk (suc fuel) tenant rows seen none = some seen
chain_walk (suc fuel) tenant rows seen (some id) =
    let further = chain_walk fuel tenant rows (id ∷ seen) (corrects tenant id rows) in
    if mem id seen then some seen else further

unfoldable pub chain_ids : ℕ → DailyServiceRecord → Db → List ℕ
unfolding chain_walk
chain_ids tenant r db =
    get_or (chain_walk (suc (suc (length db.records))) tenant db.records (r.id ∷ []) r.corrects_id)
      []

abbrev pub is_chain_event : ℕ → List ℕ → CommissionEvent → Bool
is_chain_event tenant ids e =
    e.tenant_id == tenant && (source_eqb e.source_type by_service_record && mem e.source_id ids)

unfoldable pub chain_event : ℕ → DailyServiceRecord → Db → Option CommissionEvent
chain_event tenant r db = find (is_chain_event tenant (chain_ids tenant r db)) db.events

-- One source fact earns at most once; the plan's terms are copied onto the event.
unfoldable pub append_event :
    TenantContext
    → CommissionPlan
    → CommissionSourceType
    → ℕ
    → ℤ
    → Date
    → Action (Option CommissionEvent)
append_event ctx plan source id base occurred_on = do
  fee ← lift (commission_minor_for plan.basis plan.rate_bp plan.fixed_amount_minor base)
  event_id ← new_id
  let event : CommissionEvent = record {
    id = event_id;
    tenant_id = ctx.tenant_id;
    plan_id = plan.id;
    basis_snapshot = plan.basis;
    rate_bp_snapshot = plan.rate_bp;
    fixed_amount_minor_snapshot = plan.fixed_amount_minor;
    source_type = source;
    source_id = id;
    base_amount_minor = base;
    commission_minor = fee;
    occurred_on = occurred_on;
  }
  modify (λ db. record db { events = event ∷ db.events })
  pure (some event)

abbrev pub unless_found : {A B : Type 0} → Option A → Action (Option B) → Action (Option B)
unless_found (some _) m = pure none
unless_found none m = m

unfoldable pub create_event :
    TenantContext
    → CommissionPlan
    → CommissionSourceType
    → ℕ
    → ℤ
    → Date
    → Action (Option CommissionEvent)
create_event ctx plan source id base occurred_on = do
  existing ← gets (find_event ctx.tenant_id source id)
  unless_found existing (append_event ctx plan source id base occurred_on)

abbrev pub is_adjustment_of : ℕ → CommissionSourceType → ℕ → CommissionAdjustment → Bool
is_adjustment_of tenant source id a =
    a.tenant_id == tenant && (source_eqb a.source_type source && a.source_id == id)

unfoldable pub append_adjustment : CommissionAdjustment → Action (Option CommissionAdjustment)
append_adjustment a = do
  modify (λ db. record db { adjustments = a ∷ db.adjustments })
  pure (some a)

abbrev pub adjustment_of :
    TenantContext → CommissionEvent → ℤ → Text → CommissionSourceType → ℕ → CommissionAdjustment
adjustment_of ctx event amount reason source id = record {
  tenant_id = ctx.tenant_id;
  commission_event_id = event.id;
  amount_minor = amount;
  reason = reason;
  source_type = source;
  source_id = id;
  created_by_user_id = ctx.user_id;
}

-- Appended even when the amount is zero.
unfoldable pub create_adjustment :
    TenantContext
    → CommissionEvent
    → ℤ
    → Text
    → CommissionSourceType
    → ℕ
    → Action (Option CommissionAdjustment)
create_adjustment ctx event amount reason source id = do
  existing ← gets (λ db. find (is_adjustment_of ctx.tenant_id source id) db.adjustments)
  unless_found existing (append_adjustment (adjustment_of ctx event amount reason source id))
