-- ===== src/Commission/Engine/Following.antt =====
-- The ids that the walk along a correction chain returns.
use recurring_service_platfo.Session.{Db}
use recurring_service_platfo.Commission.Events.{mem, corrects, chain_walk, chain_ids}
use recurring_service_platfo.Commission.Engine.Chain.{chain_ids-ends}
use recurring_service_platfo.Base.{
  if◌then◌else◌, ==_refl, Bool-cases, find, ℕ, zero, suc, ◌≡◌, refl, sym, ap, ◌∙◌, ◌↔◌, ◌⊎◌, inl,
  inr, Bool, true, false, Option, none, some, List, [], ◌∷◌, arith,
}
use recurring_service_platfo.Models.{DailyServiceRecord}
use recurring_service_platfo.Session.Tables.{is_record}
use mathlib.Core.Path.{subst}

-- The ids that the corrections lead to from an id: that id, and those from the one it corrects.
pub data LeadsTo (tenant : ℕ) (rows : List DailyServiceRecord) (k : ℕ) : Option ℕ → Type 0 where
  here : (next : Option ℕ) → next ≡ some k → LeadsTo tenant rows k next
  further :
      (next : Option ℕ) (id : ℕ)
      → next ≡ some id
      → LeadsTo tenant rows k (corrects tenant id rows)
      → LeadsTo tenant rows k next

module _ (tenant : ℕ) (rows : List DailyServiceRecord) where
  -- What the corrections of the ids that were seen lead to was seen, or is next.
  abbrev Closed : List ℕ → Option ℕ → Type 0
  Closed seen next =
      (j k : ℕ)
      → mem j seen ≡ true
      → corrects tenant j rows ≡ some k
      → (mem k seen ≡ true) ⊎ (next ≡ some k)

  some-eq : (a b : ℕ) → some a ≡ some b → a ≡ b
  some-eq a b h = cc

  seen-head : (id : ℕ) (seen : List ℕ) → mem id (id ∷ seen) ≡ true
  seen-head id seen = ground (arith, ==_refl id)

  mem-cases : (j id : ℕ) (seen : List ℕ) → mem j (id ∷ seen) ≡ true → (j ≡ id) ⊎ (mem j seen ≡ true)
  mem-cases j id seen h = ground arith

  mem-later : (j id : ℕ) (seen : List ℕ) → mem j seen ≡ true → mem j (id ∷ seen) ≡ true
  mem-later j id seen h = ground arith

  Closed-step :
      (id : ℕ) (seen : List ℕ)
      → Closed seen (some id)
      → Closed (id ∷ seen) (corrects tenant id rows)
  Closed-step id seen c j k m e = elim (mem-cases j id seen m) [
    | inl same ↦ inr (ap (λ i. corrects tenant i rows) (sym same) ∙ e)
    | inr old ↦ elim (c j k old e) [
      | inl m' ↦ inl (mem-later k id seen m')
      | inr next ↦
          inl (subst (λ i. mem i (id ∷ seen) ≡ true) (some-eq id k next) (seen-head id seen))
    ]
  ]

  -- Ids that are closed with nothing next hold all that follows from one of them.
  closed-LeadsTo :
      (ids : List ℕ) (k : ℕ) (next : Option ℕ)
      → ((j i : ℕ) → mem j ids ≡ true → corrects tenant j rows ≡ some i → mem i ids ≡ true)
      → ((i : ℕ) → next ≡ some i → mem i ids ≡ true)
      → LeadsTo tenant rows k next
      → mem k ids ≡ true
  closed-LeadsTo ids k next c starts (here _ e) = starts k e
  closed-LeadsTo ids k next c starts (further _ id e f) =
      closed-LeadsTo ids k (corrects tenant id rows) c (λ i h. c id i (starts id e) h) f

  -- The walk returns ids that are closed, and keeps those that were seen.
  chain_walk-closed :
      (fuel : ℕ) (seen : List ℕ) (next : Option ℕ) (ids : List ℕ)
      → Closed seen next
      → chain_walk fuel tenant rows seen next ≡ some ids
      → ((j i : ℕ) → mem j ids ≡ true → corrects tenant j rows ≡ some i → mem i ids ≡ true)
        × ((j : ℕ) → mem j seen ≡ true → mem j ids ≡ true)
  unfolding chain_walk
  chain_walk-closed zero seen next ids c h = cc
  chain_walk-closed (suc fuel) seen none ids c h =
      let same : seen ≡ ids = cc in
      (
        λ j i m e. elim (c j i (subst (λ l. mem j l ≡ true) (sym same) m) e) [
          | inl m' ↦ subst (λ l. mem i l ≡ true) same m'
          | inr nothing ↦ absurd (none-some i nothing)
        ],
        λ j m. subst (λ l. mem j l ≡ true) same m,
      )
    where
      none-some : (i : ℕ) → none ≡ some i → ⊥
      none-some i h = cc
  chain_walk-closed (suc fuel) seen (some id) ids c h = elim (Bool-cases (mem id seen)) [
    | inl old ↦
        let same : seen ≡ ids = seen-returned (mem id seen) seen ids _ old h in
        (
          λ j i m e. elim (c j i (subst (λ l. mem j l ≡ true) (sym same) m) e) [
            | inl m' ↦ subst (λ l. mem i l ≡ true) same m'
            | inr next ↦
                subst (λ l. mem i l ≡ true) same
                  (subst (λ x. mem x seen ≡ true) (some-eq id i next) old)
          ],
          λ j m. subst (λ l. mem j l ≡ true) same m,
        )
    | inr new ↦
        let (shut, kept) =
          chain_walk-closed fuel (id ∷ seen) (corrects tenant id rows) ids (Closed-step id seen c)
            (walked-on (mem id seen) seen ids _ new h) in
        (shut, λ j m. kept j (mem-later j id seen m))
  ]
    where
      seen-returned :
          (b : Bool) (s t : List ℕ) (o : Option (List ℕ))
          → b ≡ true
          → (if b then some s else o) ≡ some t
          → s ≡ t
      seen-returned b s t o e h =
          let e' : b ≡ true = e in let k : some s ≡ some t = rw e' at h in cc

      walked-on :
          (b : Bool) (s t : List ℕ) (o : Option (List ℕ))
          → b ≡ false
          → (if b then some s else o) ≡ some t
          → o ≡ some t
      walked-on b s t o e h = rw e at h

  -- The walk returns nothing but what was seen and what follows.
  chain_walk-LeadsTo :
      (fuel : ℕ) (seen : List ℕ) (next : Option ℕ) (ids : List ℕ) (k : ℕ)
      → chain_walk fuel tenant rows seen next ≡ some ids
      → mem k ids ≡ true
      → (mem k seen ≡ true) ⊎ LeadsTo tenant rows k next
  unfolding chain_walk
  chain_walk-LeadsTo zero seen next ids k h m = cc
  chain_walk-LeadsTo (suc fuel) seen none ids k h m =
      inl (let same : seen ≡ ids = cc in subst (λ l. mem k l ≡ true) (sym same) m)
  chain_walk-LeadsTo (suc fuel) seen (some id) ids k h m = elim (Bool-cases (mem id seen)) [
    | inl old ↦ inl (ground (arith, old))
    | inr new ↦
        elim (chain_walk-LeadsTo fuel (id ∷ seen) (corrects tenant id rows) ids k (rw new at h) m) [
          | inl m' ↦ elim (mem-cases k id seen m') [
            | inl same ↦ inr (here _ (ap some (sym same)))
            | inr old ↦ inl old
          ]
          | inr f ↦ inr (further _ id refl f)
        ]
  ]

-- For a stored record, the walk along its corrections returns the ids that the corrections lead
-- to from it, its own included, and no other, also where corrections form a cycle; so the walk
-- never runs out of fuel
pub chain_ids-iff :
    (tenant : ℕ) (r : DailyServiceRecord) (db : Db) (k : ℕ)
    → find (is_record tenant r.id) db.records ≡ some r
    → (mem k (chain_ids tenant r db) ≡ true) ↔ LeadsTo tenant db.records k (some r.id)
chain_ids-iff tenant r db k stored =
    let (ids, walked, returned) = chain_ids-ends tenant r db in
    let own : corrects tenant r.id db.records ≡ r.corrects_id = rw (stored, corrects) in
    let start : Closed tenant db.records (r.id ∷ []) r.corrects_id =
      λ j i m e. inr (sym own ∙ ap (λ x. corrects tenant x db.records) (sym (only j r.id m)) ∙ e) in
    let (shut, kept) =
      chain_walk-closed tenant db.records _ (r.id ∷ []) r.corrects_id ids start walked in
    (
      λ m.
          elim (chain_walk-LeadsTo tenant db.records _ (r.id ∷ []) r.corrects_id ids k walked
            (subst (λ l. mem k l ≡ true) returned m)) [
              | inl m' ↦ here _ (ap some (sym (only k r.id m')))
              | inr f ↦ further _ r.id refl (subst (λ o. LeadsTo tenant db.records k o) (sym own) f)
            ],
      λ f.
          subst (λ l. mem k l ≡ true) (sym returned)
            (closed-LeadsTo tenant db.records ids k (some r.id) shut
              (λ i e. kept i (
                subst (λ x. mem x (r.id ∷ []) ≡ true) (some-eq tenant db.records r.id i e)
                  (ground (arith, ==_refl r.id))))
              f),
    )
  where
    only : (j i : ℕ) → mem j (i ∷ []) ≡ true → j ≡ i
    only j i h = ground arith
