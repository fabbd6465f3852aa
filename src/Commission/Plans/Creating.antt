-- ===== src/Commission/Plans/Creating.antt =====
-- create_plan of backend/app/commission/plans.py against the plans that are there.
use recurring_service_platfo.Core.Text.{text_eqb}
use recurring_service_platfo.Base.Int.{ℤ}
use mathlib.Core.List.{Memᴰ}
use mathlib.Core.List.Memᴰ.{head, tail}
use recurring_service_platfo.Session.{
  Db, ◌>>=◌, ◌>>◌, pure, raise, lift, raise_when, new_id, bind-ok, returned_state,
}
use recurring_service_platfo.Session.Frames.{not_raised, raise_when-same}
use recurring_service_platfo.Base.{
  ◌==◌, Bool-cases, is_some, filter, find, any, update_first, validation_failed,
  commission_plan_overlap, Result, ok, err, ℕ, ◌+◌, ◌≡◌, refl, sym, ap, ◌∙◌, inl, inr, Bool, true,
  false, not, ◌&&◌, Option, none, some, List, [], ◌∷◌, arith,
}
use recurring_service_platfo.Core.Date.{Date, date_leb, day_before}
use recurring_service_platfo.Models.{
  CommissionBasis, recorded_value, billed_value, collected_value, per_event, unknown_basis,
  CommissionPlan, PlatformContext, Entity,
}
use recurring_service_platfo.Commission.Plans.{
  ends_on_or_after, CreatePlanInput, fixed_term, rate_term, validate_terms, is_clashing,
  close_predecessor, insert_plan, plan_currency, plan_row, create_plan,
}
use recurring_service_platfo.Commission.Plans.Overlap.{
  Disjoint, same_key, Keyed, ended, update-Disjoint,
}

filter-Memᴰ :
    (c : CommissionPlan → Bool) (p : CommissionPlan) (rest ps : List CommissionPlan)
    → filter c ps ≡ p ∷ rest
    → Memᴰ p ps × (c p ≡ true)
filter-Memᴰ c p rest [] h = cc
filter-Memᴰ c p rest (x ∷ xs) h = elim (Bool-cases (c x)) [
  | inl k ↦
      let kept : x ∷ filter c xs ≡ p ∷ rest = rw (k, filter) at h in
      let same : x ≡ p = cc kept in (head (sym same), rw same at k)
  | inr k ↦ let (m, e) = filter-Memᴰ c p rest xs (rw (k, filter) at h) in (tail m, e)
]

other_key :
    (x p : CommissionPlan) (ps : List CommissionPlan)
    → Memᴰ p ps
    → any (same_key x) ps ≡ false
    → same_key x p ≡ false
other_key x p [] m h = elim m [ ]
other_key x p (y ∷ ys) (head e) h = rw e (ground arith)
other_key x p (y ∷ ys) (tail m) h = other_key x p ys m (ground arith)

Keyed-find :
    (t : ℕ) (p : CommissionPlan) (ps : List CommissionPlan)
    → Keyed ps
    → Memᴰ p ps
    → p.tenant_id ≡ t
    → find (λ q. q.tenant_id == t && q.id == p.id) ps ≡ some p
Keyed-find t p [] h m e = elim m [ ]
Keyed-find t p (x ∷ xs) h (head k) e =
    let own : x.tenant_id ≡ t = ap (λ (q : CommissionPlan). q.tenant_id) (sym k) ∙ e in
    let key : x.id ≡ p.id = ap (λ (q : CommissionPlan). q.id) (sym k) in
    let test : (x.tenant_id == t && x.id == p.id) ≡ true = ground arith in rw test (ap some (sym k))
Keyed-find t p (x ∷ xs) h (tail m) e =
    let other = other_key x p xs m h.0 in
    let test : (x.tenant_id == t && x.id == p.id) ≡ false = ground arith in
    rw test (Keyed-find t p xs h.1 m e)

not_some : {A : Type 0} (o : Option A) → is_some o ≡ false → o ≡ none
not_some none h = refl
not_some (some a) h = cc

close_predecessor-Disjoint :
    (ctx : PlatformContext) (from : Date) (operation_id : ℕ) (ps : List CommissionPlan)
    (db db' : Db) (o : Option CommissionPlan)
    → filter (is_clashing ctx.tenant_id from) db.plans ≡ ps
    → Keyed db.plans
    → Disjoint db.plans
    → close_predecessor ctx from operation_id ps db ≡ ok (o, db')
    → Disjoint db'.plans
unfolding close_predecessor
close_predecessor-Disjoint ctx from operation_id [] db db' o f k h done =
    let same : db'.plans ≡ db.plans = ground arith in rw same h
close_predecessor-Disjoint ctx from operation_id (p ∷ []) db db' o f k h done =
    let (u, db₁, e₁, h₁) =
      bind-ok (raise_when (date_leb from p.effective_from) commission_plan_overlap) _ db done in
    let (v, db₂, e₂, h₂) =
      bind-ok (raise_when (is_some p.effective_to) commission_plan_overlap) _ db₁ h₁ in
    let back : db₂ ≡ db = raise_when-same _ _ db₁ db₂ v e₂ ∙ raise_when-same _ _ db db₁ u e₁ in
    let open_ended =
      not_some p.effective_to
        (not_raised (is_some p.effective_to) commission_plan_overlap db₁ db₂ v e₂) in
    let (member, clash) = filter-Memᴰ (is_clashing ctx.tenant_id from) p [] db.plans f in
    let own : p.tenant_id ≡ ctx.tenant_id = ground arith in
    let plans : db'.plans
        ≡ update_first (λ q. q.tenant_id == ctx.tenant_id && q.id == p.id) (ended (day_before from))
            db₂.plans =
      ground arith in
    rw
      (plans
        ∙ ap
            (λ (d : Db).
              update_first (λ q. q.tenant_id == ctx.tenant_id && q.id == p.id)
                (ended (day_before from)) d.plans)
            back)
      (update-Disjoint p (λ q. q.tenant_id == ctx.tenant_id && q.id == p.id) (day_before from)
        db.plans (Keyed-find ctx.tenant_id p db.plans k member own) open_ended h)
close_predecessor-Disjoint ctx from operation_id (p ∷ q ∷ ps) db db' o f k h done = cc

insert_plan-Disjoint :
    (p : CommissionPlan) (db db' : Db) (u : Unit {0})
    → insert_plan p db ≡ ok (u, db')
    → Disjoint db.plans
    → Disjoint db'.plans
unfolding insert_plan
insert_plan-Disjoint p db db' u done h = ground arith

terms-same :
    (flag : Bool) (r : Result ℤ) (f : ℤ → Option ℤ × Option ℤ) (db db' : Db)
    (t : Option ℤ × Option ℤ)
    → (raise_when flag validation_failed >> (lift r >>= λ n. pure (f n))) db ≡ ok (t, db')
    → db' ≡ db
terms-same true r f db db' t h = cc
terms-same false (ok n) f db db' t h = ground arith
terms-same false (err e) f db db' t h = cc

validate_terms-same :
    (input : CreatePlanInput) (basis : CommissionBasis) (db db' : Db) (t : Option ℤ × Option ℤ)
    → input.basis ≡ basis
    → validate_terms input db ≡ ok (t, db')
    → db' ≡ db
unfolding validate_terms
validate_terms-same input recorded_value db db' t e h =
    terms-same (is_some input.fixed_amount_minor) (rate_term input.rate_bp) (λ n. (some n, none)) db
      db' t (rw e at h)
validate_terms-same input billed_value db db' t e h =
    terms-same (is_some input.fixed_amount_minor) (rate_term input.rate_bp) (λ n. (some n, none)) db
      db' t (rw e at h)
validate_terms-same input collected_value db db' t e h =
    terms-same (is_some input.fixed_amount_minor) (rate_term input.rate_bp) (λ n. (some n, none)) db
      db' t (rw e at h)
validate_terms-same input per_event db db' t e h =
    terms-same (is_some input.rate_bp) (fixed_term input.fixed_amount_minor) (λ n. (none, some n))
      db db' t (rw e at h)
validate_terms-same input unknown_basis db db' t e h =
    let failed : raise validation_failed db ≡ ok (t, db') = rw e at h in cc failed

-- Where the plans have distinct keys and no two plans of a tenant have a day in common, creating
-- a plan, which may close the open-ended one before it, leaves no two plans of a tenant with a
-- day in common
pub create_plan-Disjoint :
    (ctx : PlatformContext) (input : CreatePlanInput) (operation_id : ℕ) (db db' : Db) (e : Entity)
    → Keyed db.plans
    → Disjoint db.plans
    → create_plan ctx input operation_id db ≡ ok (e, db')
    → Disjoint db'.plans
unfolding create_plan new_id
create_plan-Disjoint ctx input operation_id db db' e k h done =
    let (terms, db₁, e₁, h₁) = bind-ok (validate_terms input) _ db done in
    let (u, db₂, e₂, h₂) =
      bind-ok
        (raise_when (not (text_eqb (plan_currency input.currency ctx.currency) ctx.currency))
          validation_failed)
        _ db₁ h₁ in
    let (v, db₃, e₃, h₃) =
      bind-ok
        (raise_when (not (ends_on_or_after input.effective_to input.effective_from))
          validation_failed)
        _ db₂ h₂ in
    let back : db₃ ≡ db =
      raise_when-same _ _ db₂ db₃ v e₃
      ∙ raise_when-same _ _ db₁ db₂ u e₂
      ∙ validate_terms-same input input.basis db db₁ terms refl e₁ in
    let (o, db₄, e₄, h₄) =
      bind-ok
        (close_predecessor ctx input.effective_from operation_id
          (filter (is_clashing ctx.tenant_id input.effective_from) db₃.plans))
        _ db₃ h₃ in
    let closed_predecessor =
      close_predecessor-Disjoint ctx input.effective_from operation_id _ db₃ db₄ o refl (rw back k)
        (rw back h) e₄ in
    let row = plan_row ctx input terms db₄.next_id in
    let (w, db₅, e₅, h₅) =
      bind-ok (insert_plan row) _ (record db₄ { next_id = db₄.next_id + 1 }) h₄ in
    let same : db'.plans ≡ db₅.plans = ap (λ x. x.plans) (sym (returned_state _ e _ db' h₅)) in
    rw same (
      insert_plan-Disjoint row (record db₄ { next_id = db₄.next_id + 1 }) db₅ w e₅
        closed_predecessor)
