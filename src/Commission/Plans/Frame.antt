-- ===== src/Commission/Plans/Frame.antt =====
-- Creating a plan leaves the accepted business and the ledger alone.
use recurring_service_platfo.Core.Text.{text_eqb}
use recurring_service_platfo.Session.Frames.{
  Keeps, Keeps-bind, Keeps-pure, Keeps-lift, Keeps-raise_when, Keeps-gets, Keeps-new_id,
  Keeps-record_audit_event,
}
use recurring_service_platfo.Session.{raise, gets}
use recurring_service_platfo.Base.{
  is_some, filter, validation_failed, commission_plan_overlap, ℕ, not, none, some, List, [], ◌∷◌,
  arith,
}
use recurring_service_platfo.Core.Date.{Date, date_leb}
use recurring_service_platfo.Models.{
  CommissionBasis, recorded_value, billed_value, collected_value, per_event, unknown_basis,
  CommissionPlan, PlatformContext, commission_plan_entity, commission_plan_created,
}
use recurring_service_platfo.Commission.Plans.{
  ends_on_or_after, CreatePlanInput, fixed_term, rate_term, per_event_terms, rated_terms,
  validate_terms, is_clashing, plan_audit, close_predecessor, insert_plan, plan_currency, plan_row,
  create_plan,
}

per_event_terms-Keeps : (input : CreatePlanInput) → Keeps (per_event_terms input)
per_event_terms-Keeps input =
    Keeps-bind _ _ (Keeps-raise_when (is_some input.rate_bp) validation_failed) (λ u.
      Keeps-bind _ _ (Keeps-lift (fixed_term input.fixed_amount_minor))
        (λ n. Keeps-pure (none, some n)))

rated_terms-Keeps : (input : CreatePlanInput) → Keeps (rated_terms input)
rated_terms-Keeps input =
    Keeps-bind _ _ (Keeps-raise_when (is_some input.fixed_amount_minor) validation_failed)
      (λ u. Keeps-bind _ _ (Keeps-lift (rate_term input.rate_bp)) (λ n. Keeps-pure (some n, none)))

terms-Keeps :
    (basis : CommissionBasis) (input : CreatePlanInput)
    → Keeps (elim basis [
      | recorded_value ↦ rated_terms input
      | billed_value ↦ rated_terms input
      | collected_value ↦ rated_terms input
      | per_event ↦ per_event_terms input
      | unknown_basis ↦ raise validation_failed
    ])
terms-Keeps recorded_value input = rated_terms-Keeps input
terms-Keeps billed_value input = rated_terms-Keeps input
terms-Keeps collected_value input = rated_terms-Keeps input
terms-Keeps per_event input = per_event_terms-Keeps input
terms-Keeps unknown_basis input = λ db db' a h. cc

pub validate_terms-Keeps : (input : CreatePlanInput) → Keeps (validate_terms input)
unfolding validate_terms
validate_terms-Keeps input = terms-Keeps input.basis input

close_predecessor-Keeps :
    (ctx : PlatformContext) (from : Date) (operation_id : ℕ) (ps : List CommissionPlan)
    → Keeps (close_predecessor ctx from operation_id ps)
unfolding close_predecessor
close_predecessor-Keeps ctx from operation_id [] = Keeps-pure none
close_predecessor-Keeps ctx from operation_id (p ∷ []) =
    Keeps-bind _ _ (Keeps-raise_when (date_leb from p.effective_from) commission_plan_overlap) (λ u.
      Keeps-bind _ _ (Keeps-raise_when (is_some p.effective_to) commission_plan_overlap)
        (λ v db db' a h. ground arith))
close_predecessor-Keeps ctx from operation_id (p ∷ q ∷ ps) = λ db db' a h. cc

insert_plan-Keeps : (p : CommissionPlan) → Keeps (insert_plan p)
unfolding insert_plan
insert_plan-Keeps p db db' a h = ground arith

pub create_plan-Keeps :
    (ctx : PlatformContext) (input : CreatePlanInput) (operation_id : ℕ)
    → Keeps (create_plan ctx input operation_id)
unfolding create_plan
create_plan-Keeps ctx input operation_id = Keeps-bind _ _ (validate_terms-Keeps input) (λ terms.
    Keeps-bind _ _
      (Keeps-raise_when (not (text_eqb (plan_currency input.currency ctx.currency) ctx.currency))
        validation_failed)
      (λ u.
        Keeps-bind _ _
          (Keeps-raise_when (not (ends_on_or_after input.effective_to input.effective_from))
            validation_failed)
          (λ v.
            Keeps-bind
              (gets (λ db. filter (is_clashing ctx.tenant_id input.effective_from) db.plans)) _
              (Keeps-gets _)
              (λ clashing.
                Keeps-bind _ _
                  (close_predecessor-Keeps ctx input.effective_from operation_id clashing)
                  (λ o. Keeps-bind _ _ Keeps-new_id (λ id.
                    Keeps-bind _ _ (insert_plan-Keeps (plan_row ctx input terms id)) (λ w.
                      Keeps-bind _ _
                        (Keeps-record_audit_event (
                          plan_audit ctx commission_plan_created id none
                            (some (commission_plan_entity (plan_row ctx input terms id))) none
                            operation_id))
                        (λ x.
                          Keeps-pure (commission_plan_entity (plan_row ctx input terms id))))))))))
