-- ===== src/Reminders/Runner/Guard.antt =====
-- What the guard of the day promises: a run that has succeeded is not run again.
use mathlib.Core.Path.{subst}
use mathlib.Core.Option.{some-injective}
use recurring_service_platfo.Session.{Db}
use recurring_service_platfo.Base.{
  ◌==◌, ==_iff, ==_refl, Bool-cases, find, update_first, find-holds, ℕ, ◌≡◌, refl, sym, ap, ◌∙◌,
  inl, inr, Bool, true, false, Option, none, some, List, [], ◌∷◌, arith,
}
use recurring_service_platfo.Core.Date.{Date, date_eqb}
use recurring_service_platfo.Models.{
  JobRunStatus, running, is_succeeded, JobTrigger, JobRun, ReminderContext,
}
use recurring_service_platfo.Reminders.Claims.{
  is_run_of, is_job_run, set_job_run, new_run, reclaimed, claim_existing, claim_new, claim_by,
}

-- The primary key of the row that the guard finds leads to that row.
abbrev pub FoundByKey : ReminderContext → Db → Type 0
FoundByKey ctx db =
    (j : JobRun)
    → find (is_run_of ctx.tenant_id ctx.today) db.job_runs ≡ some j
    → find (is_job_run j.id) db.job_runs ≡ some j

date_eqb_refl : (d : Date) → date_eqb d d ≡ true
date_eqb_refl d = ground (arith, ==_refl d.year, ==_refl d.month, ==_refl d.day)

-- A change of the row that a test and the primary key both find.
not_both : (b : Bool) → b ≡ false → b ≡ true → ⊥
not_both b h k = cc

find-update_key :
    (p : JobRun → Bool) (f : JobRun → JobRun) (js : List JobRun) (j : JobRun)
    → ((x : JobRun) → p (f x) ≡ p x)
    → ((x : JobRun) → (f x).id ≡ x.id)
    → find p js ≡ some j
    → find (is_job_run j.id) js ≡ some j
    → (find p (update_first (is_job_run j.id) f js) ≡ some (f j))
      × (find (is_job_run j.id) (update_first (is_job_run j.id) f js) ≡ some (f j))
find-update_key p f [] j kp ki h e = cc
find-update_key p f (x ∷ js) j kp ki h e = elim (Bool-cases (p x)) [
  | inl day ↦
      let same : x ≡ j = ground arith in
      let own : (x.id == j.id) ≡ true = (==_iff x.id j.id).1 (ap (λ y. y.id) same) in
      ground (arith, kp x, ki x)
  | inr later ↦ elim (Bool-cases (x.id == j.id)) [
    | inl own ↦
        let same : x ≡ j = ground arith in
        let day = find-holds p js j (ground arith) in
        absurd (not_both (p x) later (ap p same ∙ day))
    | inr other_row ↦
        let rest = find-update_key p f js j kp ki (ground arith) (ground arith) in
        ground (arith, rest)
  ]
]

-- Our run: the guard and its key find it, in this state.
pub record Claimed (ctx : ReminderContext) (id : ℕ) (status : JobRunStatus) (db : Db) : Type 0 where
  pub row : JobRun
  pub by_day : find (is_run_of ctx.tenant_id ctx.today) db.job_runs ≡ some row
  pub by_id : find (is_job_run id) db.job_runs ≡ some row
  pub own : row.id ≡ id
  pub in_status : row.status ≡ status

no_claim : (id : ℕ) → none ≡ some id → ⊥
no_claim id h = cc

claim_new-Claimed :
    (ctx : ReminderContext) (triggered_by : JobTrigger) (db : Db)
    → Claimed ctx db.next_id running (claim_new ctx triggered_by db).1
claim_new-Claimed ctx triggered_by db = record {
  row = new_run ctx triggered_by db.next_id;
  by_day = rw (==_refl ctx.tenant_id, date_eqb_refl ctx.today) refl;
  by_id = rw (==_refl db.next_id) refl;
  own = refl;
  in_status = refl;
}

pub changed-Claimed :
    (ctx : ReminderContext) (id : ℕ) (status : JobRunStatus) (f : JobRun → JobRun) (db db' : Db)
    → ((x : JobRun) → is_run_of ctx.tenant_id ctx.today (f x) ≡ is_run_of ctx.tenant_id ctx.today x)
    → ((x : JobRun) → (f x).id ≡ x.id)
    → ((x : JobRun) → (f x).status ≡ status)
    → (j : JobRun) → j.id ≡ id
    → find (is_run_of ctx.tenant_id ctx.today) db.job_runs ≡ some j
    → find (is_job_run id) db.job_runs ≡ some j
    → db'.job_runs ≡ update_first (is_job_run id) f db.job_runs
    → Claimed ctx id status db'
changed-Claimed ctx id status f db db' kp ki ks j own day key written =
    let key' = ap (λ i. find (is_job_run i) db.job_runs) own ∙ key in
    let (day₁, key₁) =
      find-update_key (is_run_of ctx.tenant_id ctx.today) f db.job_runs j kp ki day key' in
    let written' = written ∙ ap (λ i. update_first (is_job_run i) f db.job_runs) (sym own) in
    record {
      row = f j;
      by_day = ap (find (is_run_of ctx.tenant_id ctx.today)) written' ∙ day₁;
      by_id =
          ap (λ i. find (is_job_run i) db'.job_runs) (sym own)
          ∙ ap (find (is_job_run j.id)) written'
          ∙ key₁;
      own = ki j ∙ own;
      in_status = ks j;
    }

claim_existing-own :
    (ctx : ReminderContext) (triggered_by : JobTrigger) (j : JobRun) (db : Db) (id : ℕ)
    → is_succeeded j.status ≡ false
    → (claim_existing ctx triggered_by j db).0 ≡ some id
    → j.id ≡ id
claim_existing-own ctx triggered_by j db id open_still h = ground arith

pub claim_by-Claimed :
    (ctx : ReminderContext) (triggered_by : JobTrigger) (db : Db) (id : ℕ) (o : Option JobRun)
    → FoundByKey ctx db
    → find (is_run_of ctx.tenant_id ctx.today) db.job_runs ≡ o
    → (claim_by ctx triggered_by db o).0 ≡ some id
    → Claimed ctx id running (claim_by ctx triggered_by db o).1
claim_by-Claimed ctx triggered_by db id none key e h =
    subst (λ i. Claimed ctx i running (claim_new ctx triggered_by db).1) (some-injective _ _ h)
      (claim_new-Claimed ctx triggered_by db)
claim_by-Claimed ctx triggered_by db id (some j) key e h =
    elim (Bool-cases (is_succeeded j.status)) [
      | inl done ↦ absurd (no_claim id (rw done at h))
      | inr open_still ↦
          let own : j.id ≡ id = claim_existing-own ctx triggered_by j db id open_still h in
          rw open_still (
            changed-Claimed ctx id running (reclaimed ctx triggered_by) db
              (set_job_run j.id (reclaimed ctx triggered_by) db) (λ x. refl) (λ x. refl) (λ x. refl)
              j own e (ap (λ i. find (is_job_run i) db.job_runs) (sym own) ∙ key j e)
              (ap (λ i. update_first (is_job_run i) (reclaimed ctx triggered_by) db.job_runs) own))
    ]
