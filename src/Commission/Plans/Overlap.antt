-- ===== src/Commission/Plans/Overlap.antt =====
-- The plans of a tenant never overlap (COM-9, ex_commission_plan_effective_range_no_overlap).
use mathlib.Core.Option.{some-injective}
use mathlib.Core.List.{Memᴰ}
use mathlib.Core.List.Memᴰ.{head, tail}
use recurring_service_platfo.Core.Date.Order.{date_leb_trans}
use recurring_service_platfo.Session.{Db}
use recurring_service_platfo.Base.{
  ◌==◌, Bool-cases, &&-true, find, any, update_first, ℕ, ◌≡◌, refl, sym, ap, ◌∙◌, inl, inr, Bool,
  true, false, ◌&&◌, Option, none, some, List, [], ◌∷◌, arith,
}
use recurring_service_platfo.Core.Date.{Date, date_leb}
use recurring_service_platfo.Models.{CommissionPlan}
use recurring_service_platfo.Commission.Plans.{
  ends_on_or_after, is_in_force, effective_plan, ranges_meet,
}

-- No two plans of one tenant have a day in common.
abbrev pub Disjoint : List CommissionPlan → Type 0
Disjoint [] = Unit
Disjoint (p ∷ ps) = (any (ranges_meet p) ps ≡ false) × Disjoint ps

abbrev pub same_key : CommissionPlan → CommissionPlan → Bool
same_key p q = q.tenant_id == p.tenant_id && q.id == p.id

-- Primary keys.
abbrev pub Keyed : List CommissionPlan → Type 0
Keyed [] = Unit
Keyed (p ∷ ps) = (any (same_key p) ps ≡ false) × Keyed ps

still_runs :
    (last : Option Date) (d e : Date)
    → ends_on_or_after last d ≡ true
    → date_leb e d ≡ true
    → ends_on_or_after last e ≡ true
still_runs none d e h k = refl
still_runs (some l) d e h k = date_leb_trans e d l k h

in_force-meet :
    (t : ℕ) (d : Date) (p q : CommissionPlan)
    → is_in_force t d p ≡ true
    → is_in_force t d q ≡ true
    → ranges_meet p q ≡ true
in_force-meet t d p q hp hq =
    let (pt, pw) =
      &&-true (p.tenant_id == t) (date_leb p.effective_from d && ends_on_or_after p.effective_to d)
        hp in
    let (qt, qw) =
      &&-true (q.tenant_id == t) (date_leb q.effective_from d && ends_on_or_after q.effective_to d)
        hq in
    let (pf, pe) = &&-true (date_leb p.effective_from d) (ends_on_or_after p.effective_to d) pw in
    let (qf, qe) = &&-true (date_leb q.effective_from d) (ends_on_or_after q.effective_to d) qw in
    let same : (q.tenant_id == p.tenant_id) ≡ true = ground arith in
    rw (
      same,
      still_runs p.effective_to d q.effective_from pe qf,
      still_runs q.effective_to d p.effective_from qe pf,
    )

in_force-none :
    (t : ℕ) (d : Date) (p q : CommissionPlan) (ps : List CommissionPlan)
    → Memᴰ q ps
    → any (ranges_meet p) ps ≡ false
    → is_in_force t d q ≡ true
    → is_in_force t d p ≡ false
in_force-none t d p q [] m h k = elim m [ ]
in_force-none t d p q (x ∷ xs) (head e) h k = elim (Bool-cases (is_in_force t d p)) [
  | inr out ↦ out
  | inl inside ↦ let meet = in_force-meet t d p x inside (rw e at k) in absurd (ground arith)
]
in_force-none t d p q (x ∷ xs) (tail m) h k = in_force-none t d p q xs m (ground arith) k

effective-find :
    (t : ℕ) (d : Date) (p : CommissionPlan) (ps : List CommissionPlan)
    → Disjoint ps
    → Memᴰ p ps
    → is_in_force t d p ≡ true
    → find (is_in_force t d) ps ≡ some p
effective-find t d p [] h m k = elim m [ ]
effective-find t d p (x ∷ xs) h (head e) k = rw (rw e at k) (ap some (sym e))
effective-find t d p (x ∷ xs) h (tail m) k =
    rw (in_force-none t d x p xs m h.0 k) (effective-find t d p xs h.1 m k)

-- Where no two plans of a tenant have a day in common, any plan of the tenant that is in force on
-- a date is the effective plan of that date
pub effective_plan_unique :
    (t : ℕ) (d : Date) (p : CommissionPlan) (db : Db)
    → Disjoint db.plans
    → Memᴰ p db.plans
    → is_in_force t d p ≡ true
    → effective_plan t d db ≡ some p
unfolding effective_plan
effective_plan_unique t d p db h m k = effective-find t d p db.plans h m k

and_drop :
    (a b c : Bool)
    → ((a && (b && c)) ≡ true → (a && (true && c)) ≡ true)
      × ((a && (c && b)) ≡ true → (a && (c && true)) ≡ true)
and_drop a b c = (λ h. ground arith, λ h. ground arith)

-- A plan that is given an end meets no plan that it did not meet while it was open-ended.
shrink-meets :
    (p : CommissionPlan) (last : Date) (q : CommissionPlan)
    → p.effective_to ≡ none
    → (ranges_meet (record p { effective_to = some last }) q ≡ true → ranges_meet p q ≡ true)
      × (ranges_meet q (record p { effective_to = some last }) ≡ true → ranges_meet q p ≡ true)
shrink-meets p last q e = (
  λ h. rw e (
      (and_drop (q.tenant_id == p.tenant_id) (ends_on_or_after (some last) q.effective_from)
          (ends_on_or_after q.effective_to p.effective_from)).0
        h),
  λ h. rw e (
      (and_drop (p.tenant_id == q.tenant_id) (ends_on_or_after (some last) q.effective_from)
          (ends_on_or_after q.effective_to p.effective_from)).1
        h),
)

abbrev pub ended : Date → CommissionPlan → CommissionPlan
ended last p = record p { effective_to = some last }

shrink-any :
    (p : CommissionPlan) (last : Date) (qs : List CommissionPlan)
    → p.effective_to ≡ none
    → any (ranges_meet p) qs ≡ false
    → any (ranges_meet (ended last p)) qs ≡ false
shrink-any p last [] e h = refl
shrink-any p last (q ∷ qs) e h =
    let back = (shrink-meets p last q e).0 in ground (arith, back, shrink-any p last qs e)

-- Closing the open-ended plan that a search finds.
meets-update :
    (x p : CommissionPlan) (key : CommissionPlan → Bool) (last : Date) (ps : List CommissionPlan)
    → find key ps ≡ some p
    → p.effective_to ≡ none
    → any (ranges_meet x) ps ≡ false
    → any (ranges_meet x) (update_first key (ended last) ps) ≡ false
meets-update x p key last [] f e h = refl
meets-update x p key last (y ∷ ys) f e h = elim (Bool-cases (key y)) [
  | inl k ↦
      let same : y ≡ p = some-injective _ _ (rw (k, find) at f) in
      let open_ended : y.effective_to ≡ none =
        ap (λ (q : CommissionPlan). q.effective_to) same ∙ e in
      let back = (shrink-meets y last x open_ended).1 in rw (k, update_first) (ground (arith, back))
  | inr k ↦
      let rest = meets-update x p key last ys (rw (k, find) at f) e (ground arith) in
      rw (k, update_first) (ground (arith, rest))
]

pub update-Disjoint :
    (p : CommissionPlan) (key : CommissionPlan → Bool) (last : Date) (ps : List CommissionPlan)
    → find key ps ≡ some p
    → p.effective_to ≡ none
    → Disjoint ps
    → Disjoint (update_first key (ended last) ps)
update-Disjoint p key last [] f e h = tt
update-Disjoint p key last (y ∷ ys) f e h = elim (Bool-cases (key y)) [
  | inl k ↦
      let same : y ≡ p = some-injective _ _ (rw (k, find) at f) in
      let open_ended : y.effective_to ≡ none =
        ap (λ (q : CommissionPlan). q.effective_to) same ∙ e in
      rw (k, update_first) (shrink-any y last ys open_ended h.0, h.1)
  | inr k ↦
      rw (k, update_first)
        (
          meets-update y p key last ys (rw (k, find) at f) e h.0,
          update-Disjoint p key last ys (rw (k, find) at f) e h.1,
        )
]
