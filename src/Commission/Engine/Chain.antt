-- ===== src/Commission/Engine/Chain.antt =====
-- The walk along a correction chain ends within the fuel that it is given.
use recurring_service_platfo.Session.{Db}
use recurring_service_platfo.Commission.Events.{mem, corrects, chain_walk, chain_ids}
use recurring_service_platfo.Base.{
  if◌then◌else◌, Bool-cases, Option-cases, is_some, get_or, length, find, ℕ, zero, suc, ◌+◌, ◌≤◌,
  ◌<◌, ◌≡◌, refl, ap, ◌⊎◌, inl, inr, true, false, Option, none, some, List, [], ◌∷◌, arith,
}
use recurring_service_platfo.Models.{DailyServiceRecord}
use recurring_service_platfo.Session.Tables.{is_record}

-- Rows whose id has not been visited.
abbrev pub unseen : List ℕ → List DailyServiceRecord → ℕ
unseen seen [] = 0
unseen seen (r ∷ rs) = if mem r.id seen then unseen seen rs else suc (unseen seen rs)

unseen-le : (seen : List ℕ) (rs : List DailyServiceRecord) → unseen seen rs ≤ length rs
unseen-le seen [] = omega arith
unseen-le seen (r ∷ rs) = ground (arith, unseen-le seen rs)

unseen_mono :
    (id : ℕ) (seen : List ℕ) (rs : List DailyServiceRecord) → unseen (id ∷ seen) rs ≤ unseen seen rs
unseen_mono id seen [] = omega arith
unseen_mono id seen (r ∷ rs) = ground (arith, unseen_mono id seen rs)

unseen-drop :
    (tenant id : ℕ) (seen : List ℕ) (rs : List DailyServiceRecord) (r : DailyServiceRecord)
    → mem id seen ≡ false
    → find (is_record tenant id) rs ≡ some r
    → unseen (id ∷ seen) rs < unseen seen rs
unseen-drop tenant id seen [] r new found = cc
unseen-drop tenant id seen (x ∷ xs) r new found = elim (Bool-cases (is_record tenant id x)) [
  | inl e ↦
      let key : x.id ≡ id = ground arith in
      let unvisited : mem x.id seen ≡ false = rw key new in ground (arith, unseen_mono id seen xs)
  | inr e ↦ ground (arith, unseen-drop tenant id seen xs r new)
]

-- One step that is not the last costs one unit of fuel and one unvisited row.
next_fuel :
    (fuel tenant : ℕ) (rs : List DailyServiceRecord) (seen : List ℕ) (id : ℕ)
    → mem id seen ≡ false
    → unseen seen rs + 2 ≤ suc fuel
    → (corrects tenant id rs ≡ none) ⊎ (unseen (id ∷ seen) rs + 2 ≤ fuel)
next_fuel fuel tenant rs seen id new h = elim (Option-cases (find (is_record tenant id) rs)) [
  | inl e ↦ inl (ground arith)
  | inr (r, e) ↦ let d = unseen-drop tenant id seen rs r new e in inr (omega arith)
]

chain_walk-stops :
    (fuel tenant : ℕ) (rs : List DailyServiceRecord) (seen : List ℕ)
    → 1 ≤ fuel
    → is_some (chain_walk fuel tenant rs seen none) ≡ true
unfolding chain_walk
chain_walk-stops zero tenant rs seen h = absurd (omega arith)
chain_walk-stops (suc fuel) tenant rs seen h = refl

chain_walk-ends :
    (fuel tenant : ℕ) (rs : List DailyServiceRecord) (seen : List ℕ) (next : Option ℕ)
    → unseen seen rs + 2 ≤ fuel
    → is_some (chain_walk fuel tenant rs seen next) ≡ true
unfolding chain_walk
chain_walk-ends zero tenant rs seen next h = absurd (omega arith)
chain_walk-ends (suc fuel) tenant rs seen none h = refl
chain_walk-ends (suc fuel) tenant rs seen (some id) h = elim (Bool-cases (mem id seen)) [
  | inl old ↦ rw (old, chain_walk)
  | inr new ↦
      rw (new, chain_walk)
        (elim (next_fuel fuel tenant rs seen id new h) [
          | inl last ↦ rw last (chain_walk-stops fuel tenant rs (id ∷ seen) (omega arith))
          | inr more ↦ chain_walk-ends fuel tenant rs (id ∷ seen) (corrects tenant id rs) more
        ])
]

-- The walk along a correction chain ends within two steps more than there are records, also where
-- corrections form a cycle, and returns the ids of the chain
pub chain_ids-ends :
    (tenant : ℕ) (r : DailyServiceRecord) (db : Db)
    → (ids : List ℕ) × (chain_walk
          (suc (suc (length db.records)))
          tenant
          db.records
          (r.id ∷ [])
          r.corrects_id
        ≡ some ids)
      × (chain_ids tenant r db ≡ ids)
unfolding chain_ids
chain_ids-ends tenant r db =
    let bound = unseen-le (r.id ∷ []) db.records in
    let ends =
      chain_walk-ends (suc (suc (length db.records))) tenant db.records (r.id ∷ []) r.corrects_id
        (omega arith) in
    elim (Option-cases
      (chain_walk (suc (suc (length db.records))) tenant db.records (r.id ∷ []) r.corrects_id)) [
        | inl e ↦ absurd (ground arith)
        | inr (ids, e) ↦ (ids, e, ap (λ o. get_or o []) e)
      ]
