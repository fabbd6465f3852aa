-- ===== src/Books/ActiveDay.antt =====
-- The one ACTIVE record of a customer and a day (SYN-4, uq_daily_service_record_active_day).

use recurring_service_platfo.Service.Inputs.{RecordServiceInput}
use recurring_service_platfo.Session.{Db, after, bind-ok, bind-run, bind-raise}
use recurring_service_platfo.Session.Tables.{is_active_day, insert_record, audit_source_of}
use recurring_service_platfo.Base.{
  Bool-cases, any, update_first, service_already_recorded, Result, ok, err, ℕ, ◌≡◌, refl, sym, ap,
  ◌∙◌, inl, inr, Bool, true, false, Option, none, some, List, [], ◌∷◌, arith,
}
use recurring_service_platfo.Core.Date.{Date}
use recurring_service_platfo.Models.{
  TenantContext, ServiceKind, service, skip, unknown_kind, is_active_status, DailyServiceRecord,
  charge, from_service_record, LedgerEntry, Entity, service_record_entity,
}
use recurring_service_platfo.Billing.Ledger.Posting.{post_entry-KeepsRows}
use recurring_service_platfo.Service.Commands.{
  post_when_service, recorded_action, settle_recorded, store_recorded, prepare_recorded,
  record_service,
}
use recurring_service_platfo.Commission.Engine.{on_service_recorded}
use recurring_service_platfo.Commission.Engine.Frame.{on_service_recorded-Keeps}
use recurring_service_platfo.Books.Rows.{settle-Keeps}
use recurring_service_platfo.Books.Recording.{
  prepare_recorded-Keeps, prepare_recorded-IsFresh, prepare_recorded-asked, store_recorded-ok,
}
use recurring_service_platfo.Core.Clock.{resolve_date}

-- No two active records of one tenant have the same customer and date.
abbrev pub OneActive : List DailyServiceRecord → Type 0
OneActive [] = Unit
OneActive (r ∷ rs) =
    (is_active_status r.status ≡ true
      → any (is_active_day r.tenant_id r.customer_id r.service_date) rs ≡ false)
    × OneActive rs

-- Rows that come out of an update are active on no day on which they were not active before.
retired-any :
    (t c : ℕ) (d : Date) (p : DailyServiceRecord → Bool)
    (g : DailyServiceRecord → DailyServiceRecord) (rs : List DailyServiceRecord)
    → ((r : DailyServiceRecord) → is_active_day t c d (g r) ≡ true → is_active_day t c d r ≡ true)
    → any (is_active_day t c d) rs ≡ false
    → any (is_active_day t c d) (update_first p g rs) ≡ false
retired-any t c d p g [] k h = refl
retired-any t c d p g (x ∷ xs) k h = ground (arith, k x, retired-any t c d p g xs k)

is_active_day-back :
    (t c : ℕ) (d : Date) (r q : DailyServiceRecord)
    → q.tenant_id ≡ r.tenant_id
    → q.customer_id ≡ r.customer_id
    → q.service_date ≡ r.service_date
    → (is_active_status q.status ≡ true → is_active_status r.status ≡ true)
    → is_active_day t c d q ≡ true
    → is_active_day t c d r ≡ true
is_active_day-back t c d r q kt kc kd ks h =
    let h' : is_active_day t c d q ≡ true = h in ground (arith, ks)

-- A change that gives up a day or keeps it keeps the invariant.
pub update_first-OneActive :
    (p : DailyServiceRecord → Bool) (g : DailyServiceRecord → DailyServiceRecord)
    (rs : List DailyServiceRecord)
    → ((r : DailyServiceRecord)
        → ((g r).tenant_id ≡ r.tenant_id)
          × ((g r).customer_id ≡ r.customer_id)
          × ((g r).service_date ≡ r.service_date)
          × (is_active_status (g r).status ≡ true → is_active_status r.status ≡ true))
    → OneActive rs
    → OneActive (update_first p g rs)
update_first-OneActive p g [] k h = tt
update_first-OneActive p g (x ∷ xs) k h = elim (Bool-cases (p x)) [
  | inl e ↦
      rw (e, update_first)
        (λ live. let (kt, kc, kd, ks) = k x in rw (kt, kc, kd) (h.0 (ks live)), h.1)
  | inr e ↦
      rw (e, update_first)
        (
          λ live.
              retired-any x.tenant_id x.customer_id x.service_date p g xs
                (λ r.
                  let (kt, kc, kd, ks) = k r in
                  is_active_day-back x.tenant_id x.customer_id x.service_date r (g r) kt kc kd ks)
                (h.0 live),
          update_first-OneActive p g xs k h.1,
        )
]

store_recorded-free :
    (r : DailyServiceRecord) (db db' : Db) (u : Unit {0})
    → store_recorded r db ≡ ok (u, db')
    → any (is_active_day r.tenant_id r.customer_id r.service_date) db.records ≡ false
unfolding store_recorded insert_record
store_recorded-free r db db' u h = ground arith

post_when_service-records :
    (kind : ServiceKind) (ctx : TenantContext) (r : DailyServiceRecord) (db db' : Db)
    (o : Option LedgerEntry)
    → post_when_service ctx r kind db ≡ ok (o, db')
    → db'.records ≡ db.records
post_when_service-records service ctx r db db' o h =
    (post_entry-KeepsRows ctx r.customer_id charge r.charge_minor r.service_date from_service_record
      r.id db db' o h).same_records
post_when_service-records skip ctx r db db' o h = ground arith
post_when_service-records unknown_kind ctx r db db' o h = ground arith

settle_recorded-records :
    (ctx : TenantContext) (r : DailyServiceRecord) (operation_id : ℕ) (db db' : Db) (e : Entity)
    → settle_recorded ctx r operation_id db ≡ ok (e, db')
    → db'.records ≡ db.records
unfolding settle_recorded
settle_recorded-records ctx r operation_id db db' e h =
    let (o, db₁, e₁, h₁) = bind-ok (post_when_service ctx r r.kind) _ db h in
    let rest =
      settle-Keeps (on_service_recorded ctx r) ctx (recorded_action r.kind) r.id none
        (some (service_record_entity r)) none operation_id (audit_source_of r.source)
        (service_record_entity r) (on_service_recorded-Keeps ctx r) db₁ db' e h₁ in
    rest.same_records ∙ post_when_service-records r.kind ctx r db db₁ o e₁

pub record_service-OneActive :
    (ctx : TenantContext) (input : RecordServiceInput) (operation_id : ℕ) (db db' : Db) (e : Entity)
    → OneActive db.records
    → record_service ctx input operation_id db ≡ ok (e, db')
    → OneActive db'.records
unfolding record_service
record_service-OneActive ctx input operation_id db db' e v h =
    let (r, db₁, e₁, h₁) = bind-ok (prepare_recorded ctx input operation_id) _ db h in
    let (u, db₂, e₂, h₂) = bind-ok (store_recorded r) _ db₁ h₁ in
    let kept = prepare_recorded-Keeps ctx input operation_id db db₁ r e₁ in
    let free = store_recorded-free r db₁ db₂ u e₂ in
    let rows : db'.records ≡ r ∷ db₁.records =
      settle_recorded-records ctx r operation_id db₂ db' e h₂
      ∙ ap (λ (d : Db). d.records) (store_recorded-ok r db₁ db₂ u e₂) in
    rw rows (λ live. free, rw kept.same_records v)

store_recorded-taken :
    (r : DailyServiceRecord) (db : Db)
    → any (is_active_day r.tenant_id r.customer_id r.service_date) db.records ≡ true
    → store_recorded r db ≡ err service_already_recorded
unfolding store_recorded insert_record
store_recorded-taken r db h = ground arith

-- A request to record that passes every check, for a customer and a date that have an active
-- record already, is refused with the domain error for a service that is already recorded
pub record_service-conflict :
    (ctx : TenantContext) (input : RecordServiceInput) (operation_id : ℕ) (db db₁ : Db)
    (r : DailyServiceRecord)
    → prepare_recorded ctx input operation_id db ≡ ok (r, db₁)
    → any (is_active_day r.tenant_id r.customer_id r.service_date) db.records ≡ true
    → record_service ctx input operation_id db ≡ err service_already_recorded
unfolding record_service
record_service-conflict ctx input operation_id db db₁ r prepared taken =
    let kept = prepare_recorded-Keeps ctx input operation_id db db₁ r prepared in
    let taken₁ : any (is_active_day r.tenant_id r.customer_id r.service_date) db₁.records ≡ true =
      ap (any (is_active_day r.tenant_id r.customer_id r.service_date)) kept.same_records ∙ taken in
    bind-run (prepare_recorded ctx input operation_id) _ db prepared
    ∙ bind-raise (store_recorded r) _ db₁ (store_recorded-taken r db₁ taken₁)

-- A day that an active record holds is taken for a row of the same tenant, customer and date.
day-taken :
    (t c : ℕ) (d : Date) (r : DailyServiceRecord) (rs : List DailyServiceRecord)
    → is_active_status r.status ≡ true
    → r.tenant_id ≡ t
    → r.customer_id ≡ c
    → r.service_date ≡ d
    → any (is_active_day t c d) (r ∷ rs) ≡ true
day-taken t c d r rs live own whose day = rw (← own, ← whose, ← day) (ground (arith, live))

bool-apart : true ≡ false → ⊥
bool-apart h = cc

dated : (d : Result Date) (a b : Date) → d ≡ ok a → d ≡ ok b → a ≡ b
dated d a b h k = cc

-- Once a service or a skip is recorded, no further request to record for the same tenant and
-- customer whose date resolves to the same day is accepted on the tables that it left, whatever
-- kind and quantity it asks for
pub record_service-twice :
    (ctx later_ctx : TenantContext) (input later : RecordServiceInput)
    (operation_id later_operation_id : ℕ) (db db' after : Db) (e e' : Entity)
    → record_service ctx input operation_id db ≡ ok (e, db')
    → later_ctx.tenant_id ≡ ctx.tenant_id
    → later.customer_id ≡ input.customer_id
    → resolve_date later_ctx.today later.service_date ≡ resolve_date ctx.today input.service_date
    → ¬ (record_service later_ctx later later_operation_id db' ≡ ok (e', after))
unfolding record_service
record_service-twice ctx later_ctx input later operation_id later_operation_id db db' after e e'
      first tenant customer day second =
    let (r, db₁, e₁, h₁) = bind-ok (prepare_recorded ctx input operation_id) _ db first in
    let (u, db₂, e₂, h₂) = bind-ok (store_recorded r) _ db₁ h₁ in
    let rows : db'.records ≡ r ∷ db₁.records =
      settle_recorded-records ctx r operation_id db₂ db' e h₂
      ∙ ap (λ (d : Db). d.records) (store_recorded-ok r db₁ db₂ u e₂) in
    let (s, db₃, e₃, h₃) =
      bind-ok (prepare_recorded later_ctx later later_operation_id) _ db' second in
    let (w, db₄, e₄, h₄) = bind-ok (store_recorded s) _ db₃ h₃ in
    let kept = prepare_recorded-Keeps later_ctx later later_operation_id db' db₃ s e₃ in
    let free = store_recorded-free s db₃ db₄ w e₄ in
    let (kind₁, whose₁, day₁) = prepare_recorded-asked ctx input operation_id db db₁ r e₁ in
    let (kind₂, whose₂, day₂) =
      prepare_recorded-asked later_ctx later later_operation_id db' db₃ s e₃ in
    let fresh = prepare_recorded-IsFresh ctx input operation_id db db₁ r e₁ in
    let again = prepare_recorded-IsFresh later_ctx later later_operation_id db' db₃ s e₃ in
    let taken : any (is_active_day s.tenant_id s.customer_id s.service_date) (r ∷ db₁.records)
        ≡ true =
      day-taken s.tenant_id s.customer_id s.service_date r db₁.records
        (ap is_active_status fresh.is_accepted) (fresh.is_own ∙ sym tenant ∙ sym again.is_own)
        (whose₁ ∙ sym customer ∙ sym whose₂)
        (dated (resolve_date ctx.today input.service_date) r.service_date s.service_date day₁
          (sym day ∙ day₂)) in
    let found =
      ap (any (is_active_day s.tenant_id s.customer_id s.service_date)) (kept.same_records ∙ rows)
      ∙ taken in
    bool-apart (sym found ∙ free)
