-- ===== src/Reminders/Delivery/Rows.antt =====
-- The delivery log against the reminders: what a change of one row leaves true.
use mathlib.Core.Path.{subst}
use recurring_service_platfo.Session.{Db}
use recurring_service_platfo.Base.{
  ◌==◌, if◌then◌else◌, ==_iff, Bool-cases, find, update_first, All, find-holds, All-update_first, ℕ,
  ◌+◌, ◌≤◌, ◌<◌, ◌≡◌, refl, sym, ap, ◌∙◌, ◌≢◌, inl, inr, false, ◌&&◌, some, List, [], ◌∷◌, arith,
}
use recurring_service_platfo.Models.{is_sent, Reminder, is_successful, CommunicationLog}
use recurring_service_platfo.Reminders.Engine.Stages.{is_reminder}

-- The attempts that the log holds of a reminder, and those that a provider took.
abbrev pub attempts_of : ℕ → List CommunicationLog → ℕ
attempts_of id [] = 0
attempts_of id (e ∷ es) = (if e.reminder_id == id then 1 else 0) + attempts_of id es

abbrev pub successes_of : ℕ → List CommunicationLog → ℕ
successes_of id [] = 0
successes_of id (e ∷ es) =
    (if e.reminder_id == id && is_successful e.state then 1 else 0) + successes_of id es

-- Every attempt in the log was counted, the count is bounded, and a success was logged once for a
-- reminder that is SENT and never for another.
pub record IsDelivered (log : List CommunicationLog) (r : Reminder) : Type 0 where
  pub logged : attempts_of r.id log ≤ r.attempt_count
  pub bounded : r.attempt_count ≤ 3
  pub successes : successes_of r.id log ≡ (if is_sent r.state then 1 else 0)

pub record AllDelivered (db : Db) : Type 0 where
  pub rows :
      (id : ℕ) (r : Reminder)
      → find (is_reminder id) db.reminders ≡ some r
      → IsDelivered db.communication_log r
  pub fresh : All (λ e. e.reminder_id < db.next_id) db.communication_log
  pub known : All (λ r. r.id < db.next_id) db.reminders

pub find-is_reminder :
    (id : ℕ) (rs : List Reminder) (r : Reminder) → find (is_reminder id) rs ≡ some r → r.id ≡ id
find-is_reminder id rs r h = (==_iff r.id id).0 (find-holds (is_reminder id) rs r h)

pub find-update_self :
    (id : ℕ) (f : Reminder → Reminder) (rs : List Reminder) (r s : Reminder)
    → ((x : Reminder) → (f x).id ≡ x.id)
    → find (is_reminder id) rs ≡ some r
    → find (is_reminder id) (update_first (is_reminder id) f rs) ≡ some s
    → s ≡ f r
find-update_self id f [] r s k h e = cc
find-update_self id f (x ∷ rs) r s k h e = ground (arith, k x, find-update_self id f rs r s k)

pub find-update_other :
    (id j : ℕ) (f : Reminder → Reminder) (rs : List Reminder)
    → ((x : Reminder) → (f x).id ≡ x.id)
    → j ≢ id
    → find (is_reminder j) (update_first (is_reminder id) f rs) ≡ find (is_reminder j) rs
find-update_other id j f [] k n = refl
find-update_other id j f (x ∷ rs) k n = ground (arith, k x, find-update_other id j f rs k n)

attempts_of-zero :
    (id : ℕ) (log : List CommunicationLog)
    → All (λ e. e.reminder_id < id) log
    → (attempts_of id log ≡ 0) × (successes_of id log ≡ 0)
attempts_of-zero id [] h = (refl, refl)
attempts_of-zero id (e ∷ es) h = ground (arith, attempts_of-zero id es h.1)

pub All-lt-weaken :
    {A : Type 0} (key : A → ℕ) (n m : ℕ) (xs : List A)
    → n ≤ m
    → All (λ x. key x < n) xs
    → All (λ x. key x < m) xs
All-lt-weaken key n m [] le h = tt
All-lt-weaken key n m (x ∷ xs) le h = (omega arith, All-lt-weaken key n m xs le h.1)

-- Tables of which the reminders and the log are the same, and no id was given back.
pub same-AllDelivered :
    (db db' : Db)
    → db'.reminders ≡ db.reminders
    → db'.communication_log ≡ db.communication_log
    → db.next_id ≤ db'.next_id
    → AllDelivered db
    → AllDelivered db'
same-AllDelivered db db' er el le d = record {
  rows = λ id r h. rw el (d.rows id r (ap (find (is_reminder id)) (sym er) ∙ h));
  fresh = rw el (
      All-lt-weaken (λ (e : CommunicationLog). e.reminder_id) db.next_id db'.next_id
        db.communication_log le d.fresh);
  known =
      rw er (All-lt-weaken (λ (r : Reminder). r.id) db.next_id db'.next_id db.reminders le d.known);
}

new-IsDelivered :
    (log : List CommunicationLog) (r : Reminder)
    → r.attempt_count ≡ 0
    → is_sent r.state ≡ false
    → All (λ e. e.reminder_id < r.id) log
    → IsDelivered log r
new-IsDelivered log r ea es fresh =
    let (none_logged, none_sent) = attempts_of-zero r.id log fresh in
    record { logged = omega arith; bounded = omega arith; successes = rw es none_sent }

-- A new reminder is PENDING, and nothing was logged of it.
pub new-AllDelivered :
    (db : Db) (r : Reminder)
    → r.id ≡ db.next_id
    → r.attempt_count ≡ 0
    → is_sent r.state ≡ false
    → AllDelivered db
    → AllDelivered (record db { reminders = r ∷ db.reminders; next_id = db.next_id + 1 })
new-AllDelivered db r ei ea es d = record {
  rows = λ id x h. elim (Bool-cases (r.id == id)) [
    | inl e ↦
        let same : r ≡ x = ground arith in
        subst (IsDelivered db.communication_log) same
          (new-IsDelivered db.communication_log r ea es (rw ei d.fresh))
    | inr e ↦ d.rows id x (let skip = h in ground arith)
  ];
  fresh =
      All-lt-weaken (λ (e : CommunicationLog). e.reminder_id) db.next_id (db.next_id + 1)
        db.communication_log (omega arith) d.fresh;
  known = (
    omega arith,
    All-lt-weaken (λ (x : Reminder). x.id) db.next_id (db.next_id + 1) db.reminders (omega arith)
        d.known,
  );
}

kept-IsDelivered :
    (log log' : List CommunicationLog) (id : ℕ) (r : Reminder)
    → r.id ≡ id
    → attempts_of id log' ≡ attempts_of id log
    → successes_of id log' ≡ successes_of id log
    → IsDelivered log r
    → IsDelivered log' r
kept-IsDelivered log log' id r ei ea es d = ground (arith, ei, ea, es, d)

-- One row changed, and the log grew by entries of that row at most.
pub update-AllDelivered :
    (db : Db) (log : List CommunicationLog) (f : Reminder → Reminder) (r : Reminder)
    → find (is_reminder r.id) db.reminders ≡ some r
    → ((x : Reminder) → (f x).id ≡ x.id)
    → ((id : ℕ)
        → id ≢ r.id
        → (attempts_of id log ≡ attempts_of id db.communication_log)
          × (successes_of id log ≡ successes_of id db.communication_log))
    → IsDelivered log (f r)
    → All (λ e. e.reminder_id < db.next_id) log
    → AllDelivered db
    → AllDelivered (record db {
      reminders = update_first (is_reminder r.id) f db.reminders;
      communication_log = log;
    })
update-AllDelivered db log f r e k same new fresh d = record {
  rows = λ id x h. elim (Bool-cases (id == r.id)) [
    | inl own ↦
        let here =
          subst
            (λ j. find (is_reminder j) (update_first (is_reminder r.id) f db.reminders) ≡ some x)
            ((==_iff id r.id).0 own) h in
        subst (IsDelivered log) (sym (find-update_self r.id f db.reminders r x k e here)) new
    | inr foreign ↦
        let n : id ≢ r.id = λ q. ground (arith, q) in
        let there = sym (find-update_other r.id id f db.reminders k n) ∙ h in
        kept-IsDelivered db.communication_log log id x (find-is_reminder id db.reminders x there)
          (same id n).0 (same id n).1 (d.rows id x there)
  ];
  fresh = fresh;
  known =
      All-update_first (λ x. x.id < db.next_id) (is_reminder r.id) f db.reminders
        (λ x h. rw (k x) h) d.known;
}
