-- ===== src/Reminders/Schedule/Loading.antt =====
-- What a schedule that was accepted looks like.
use recurring_service_platfo.Base.{
  leb, ◌==◌, Bool-cases, filter, any, All, validation_failed, ok, >>=-eq-ok, raise_if, ℕ, ◌≤◌, ◌<◌,
  ◌≡◌, refl, ◌≢◌, inl, inr, true, false, not, Option, none, some, List, [], ◌∷◌, arith,
}
use recurring_service_platfo.Base.Int.{pos, negsuc}
use recurring_service_platfo.Core.Money.{PyValue, int_value}
use recurring_service_platfo.Reminders.Schedule.{
  in_schedule_kinds, Stage, is_final, RawEntry, object_entry, other_entry, valid_day, load_entry,
  load_entries, insert_stage, sort_stages, last_day, check_finals, nonempty, load_schedule,
}

-- In ascending order of day, and no two stages on one day.
abbrev pub Ascending : List Stage → Type 0
Ascending [] = Unit
Ascending (s ∷ ss) = All (λ t. s.day < t.day) ss × Ascending ss

-- A day that every month has, and a kind that a schedule may carry.
abbrev pub IsStage : Stage → Type 0
IsStage s = (1 ≤ s.day) × (s.day ≤ 28) × (in_schedule_kinds s.kind ≡ true)

-- Only the last stage may be FINAL.
abbrev pub FinalLast : List Stage → Type 0
FinalLast [] = Unit
FinalLast (s ∷ []) = Unit
FinalLast (s ∷ t ∷ ts) = (is_final s ≡ false) × FinalLast (t ∷ ts)

-- The days of a list that a later entry may not repeat.
abbrev pub Distinct : List Stage → Type 0
Distinct [] = Unit
Distinct (s ∷ ss) = All (λ t. t.day ≢ s.day) ss × Distinct ss

abbrev pub Unseen : List ℕ → Stage → Type 0
Unseen seen s = any (λ d. s.day == d) seen ≡ false

valid_day-ok : (v : PyValue) (d : ℕ) → valid_day v ≡ ok d → (1 ≤ d) × (d ≤ 28)
valid_day-ok (int_value (pos n)) d h = (ground arith, ground arith)
valid_day-ok (int_value (negsuc n)) d h = cc
valid_day-ok _ d h = cc

load_entry-ok :
    (seen : List ℕ) (e : RawEntry) (s : Stage)
    → load_entry seen e ≡ ok s
    → IsStage s × Unseen seen s
unfolding load_entry
load_entry-ok seen other_entry s h = cc
load_entry-ok seen (object_entry day kind) s h =
    let (d, e₁, h₁) = >>=-eq-ok (valid_day day) _ h in
    let bounds = valid_day-ok day d e₁ in ground (arith, bounds)

insert_stage-All :
    (P : Stage → Type 0) (s : Stage) (ss : List Stage) → P s → All P ss → All P (insert_stage s ss)
unfolding insert_stage
insert_stage-All P s [] p h = (p, tt)
insert_stage-All P s (t ∷ ts) p h = ground (arith, insert_stage-All P s ts p h.1)

sort_stages-All : (P : Stage → Type 0) (ss : List Stage) → All P ss → All P (sort_stages ss)
unfolding sort_stages
sort_stages-All P [] h = tt
sort_stages-All P (s ∷ ss) h = insert_stage-All P s (sort_stages ss) h.0 (sort_stages-All P ss h.1)

below-All :
    (s t : Stage) (ts : List Stage)
    → s.day < t.day
    → All (λ u. t.day < u.day) ts
    → All (λ u. s.day < u.day) ts
below-All s t [] h a = tt
below-All s t (u ∷ us) h a = (omega arith, below-All s t us h a.1)

insert_stage-Ascending :
    (s : Stage) (ss : List Stage)
    → All (λ t. t.day ≢ s.day) ss
    → Ascending ss
    → Ascending (insert_stage s ss)
unfolding insert_stage
insert_stage-Ascending s [] d a = (tt, tt)
insert_stage-Ascending s (t ∷ ts) d a = elim (Bool-cases (leb s.day t.day)) [
  | inl e ↦
      let under : s.day < t.day = ground arith in
      rw (e, insert_stage) ((under, below-All s t ts under a.0), a)
  | inr e ↦
      let over : t.day < s.day = ground arith in
      rw (e, insert_stage)
        (insert_stage-All (λ u. t.day < u.day) s ts over a.0, insert_stage-Ascending s ts d.1 a.1)
]

sort_stages-Ascending : (ss : List Stage) → Distinct ss → Ascending (sort_stages ss)
unfolding sort_stages
sort_stages-Ascending [] d = tt
sort_stages-Ascending (s ∷ ss) d =
    insert_stage-Ascending s (sort_stages ss) (sort_stages-All (λ t. t.day ≢ s.day) ss d.0)
      (sort_stages-Ascending ss d.1)

Unseen-split :
    (d : ℕ) (seen : List ℕ) (ss : List Stage)
    → All (Unseen (d ∷ seen)) ss
    → All (λ t. t.day ≢ d) ss × All (Unseen seen) ss
Unseen-split d seen [] h = (tt, tt)
Unseen-split d seen (s ∷ ss) h =
    let (apart, rest) = Unseen-split d seen ss h.1 in ((ground arith, apart), (ground arith, rest))

load_entries-ok :
    (seen : List ℕ) (es : List RawEntry) (ss : List Stage)
    → load_entries seen es ≡ ok ss
    → All IsStage ss × All (Unseen seen) ss × Distinct ss
unfolding load_entries
load_entries-ok seen [] ss h = let empty : ss ≡ [] = ground arith in rw empty (tt, tt, tt)
load_entries-ok seen (e ∷ es) ss h =
    let (s, e₁, h₁) = >>=-eq-ok (load_entry seen e) _ h in
    let (rest, e₂, h₂) = >>=-eq-ok (load_entries (s.day ∷ seen) es) _ h₁ in
    let (valid, new) = load_entry-ok seen e s e₁ in
    let (valids, unseens, distinct) = load_entries-ok (s.day ∷ seen) es rest e₂ in
    let (apart, olds) = Unseen-split s.day seen rest unseens in
    let same : ss ≡ s ∷ rest = ground arith in
    rw same ((valid, valids), (new, olds), (apart, distinct))

below-last :
    (d : ℕ) (t : Stage) (ts : List Stage) → All (λ u. d < u.day) (t ∷ ts) → d < last_day (t ∷ ts)
below-last d t [] h = h.0
below-last d t (u ∷ us) h = below-last d u us h.1

no_final-last : (ss : List Stage) → filter is_final ss ≡ [] → FinalLast ss
no_final-last [] h = tt
no_final-last (s ∷ []) h = tt
no_final-last (s ∷ t ∷ ts) h = elim (Bool-cases (is_final s)) [
  | inl e ↦ absurd (ground arith)
  | inr e ↦ (e, no_final-last (t ∷ ts) (rw (e, filter) at h))
]

one_final-last :
    (f : Stage) (ss : List Stage)
    → Ascending ss
    → filter is_final ss ≡ f ∷ []
    → f.day ≡ last_day ss
    → FinalLast ss
one_final-last f [] a h l = tt
one_final-last f (s ∷ []) a h l = tt
one_final-last f (s ∷ t ∷ ts) a h l = elim (Bool-cases (is_final s)) [
  | inl e ↦
      let kept : s ∷ filter is_final (t ∷ ts) ≡ f ∷ [] = rw (e, filter) at h in
      let same : s ≡ f = cc kept in let below = below-last s.day t ts a.0 in absurd (ground arith)
  | inr e ↦ (e, one_final-last f (t ∷ ts) a.1 (rw (e, filter) at h) l)
]

check_finals-ok :
    (finals ordered ss : List Stage)
    → filter is_final ordered ≡ finals
    → Ascending ordered
    → check_finals finals ordered ≡ ok ss
    → (ss ≡ ordered) × FinalLast ordered
check_finals-ok [] ordered ss f a h = (ground arith, no_final-last ordered f)
check_finals-ok (x ∷ []) ordered ss f a h =
    (ground arith, one_final-last x ordered a f (ground arith))
check_finals-ok (x ∷ y ∷ ys) ordered ss f a h = cc

-- A schedule that is accepted is in ascending order with at most one stage on a day, each stage
-- on a day from 1 to 28 and of a configurable kind, and no stage but the last is FINAL
pub load_schedule_sound :
    (raw : Option (List RawEntry)) (ss : List Stage)
    → load_schedule raw ≡ ok ss
    → Ascending ss × All IsStage ss × FinalLast ss
unfolding load_schedule
load_schedule_sound none ss h = cc
load_schedule_sound (some raw) ss h =
    let (u, e₁, h₁) = >>=-eq-ok (raise_if (not (nonempty raw)) validation_failed) _ h in
    let (stages, e₂, h₂) = >>=-eq-ok (load_entries [] raw) _ h₁ in
    let (valid, _, distinct) = load_entries-ok [] raw stages e₂ in
    let ascending = sort_stages-Ascending stages distinct in
    let (same, finals) =
      check_finals-ok (filter is_final (sort_stages stages)) (sort_stages stages) ss refl ascending
        h₂ in
    rw same (ascending, sort_stages-All IsStage stages valid, finals)
