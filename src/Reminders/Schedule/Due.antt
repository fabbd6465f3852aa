-- ===== src/Reminders/Schedule/Due.antt =====
-- What `due_stage` and `next_stage_after` pick.
use recurring_service_platfo.Base.{
  leb, Bool-cases, &&-true, All, ℕ, ◌≤◌, ◌<◌, ◌≡◌, refl, sym, ◌⊎◌, inl, inr, true, false, ◌&&◌,
  Option, none, some, List, [], ◌∷◌, arith,
}
use mathlib.Core.Option.{some-injective}
use mathlib.Core.List.{Memᴰ}
use mathlib.Core.List.Memᴰ.{head, tail}
use recurring_service_platfo.Reminders.Schedule.{Stage, is_later, due_loop, due_stage}

-- The stage that is due on a day: of the stages on or before it, the one with the highest day.
abbrev pub IsDue : List Stage → ℕ → Option Stage → Type 0
IsDue schedule day none = All (λ t. day < t.day) schedule
IsDue schedule day (some s) =
    (s.day ≤ day) × Memᴰ s schedule × All (λ t. t.day ≤ day → t.day ≤ s.day) schedule

-- What the loop has found so far, and what is left of the list.
abbrev pub BestSoFar : List Stage → ℕ → Option Stage → Option Stage → Type 0
BestSoFar rest day latest none = (latest ≡ none) × All (λ t. day < t.day) rest
BestSoFar rest day latest (some s) =
    (s.day ≤ day)
    × ((latest ≡ some s) ⊎ Memᴰ s rest)
    × ((t : Stage) → latest ≡ some t → t.day ≤ s.day)
    × All (λ t. t.day ≤ day → t.day ≤ s.day) rest

abbrev pub WithinDay : ℕ → Option Stage → Type 0
WithinDay day none = Unit
WithinDay day (some s) = s.day ≤ day

best-skip :
    (x : Stage) (rest : List Stage) (day : ℕ) (latest o : Option Stage)
    → (leb x.day day && is_later x latest) ≡ false
    → BestSoFar rest day latest o
    → BestSoFar (x ∷ rest) day latest o
best-skip x rest day none none h b = (refl, (ground arith, b.1))
best-skip x rest day (some t) none h b = cc
best-skip x rest day none (some s) h b =
    (b.0, elim b.1 [ inl e ↦ inl e | inr m ↦ inr (tail m) ], b.2, (ground arith, b.3))
best-skip x rest day (some t) (some s) h b =
    let above = b.2 t refl in
    (b.0, elim b.1 [ inl e ↦ inl e | inr m ↦ inr (tail m) ], b.2, (ground arith, b.3))

best-take :
    (x : Stage) (rest : List Stage) (day : ℕ) (latest o : Option Stage)
    → (leb x.day day && is_later x latest) ≡ true
    → BestSoFar rest day (some x) o
    → BestSoFar (x ∷ rest) day latest o
best-take x rest day latest none h b = cc
best-take x rest day latest (some s) h b =
    let above = b.2 x refl in
    (
      b.0,
      elim b.1 [ inl e ↦ inr (head (sym (some-injective _ _ e))) | inr m ↦ inr (tail m) ],
      λ t e.
          let later : is_later x (some t) ≡ true =
            rw e at (&&-true (leb x.day day) (is_later x latest) h).1 in
          ground arith,
      (λ _. above, b.3),
    )

due_loop-best :
    (rest : List Stage) (day : ℕ) (latest : Option Stage)
    → WithinDay day latest
    → BestSoFar rest day latest (due_loop latest rest day)
unfolding due_loop
due_loop-best [] day none w = (refl, tt)
due_loop-best [] day (some s) w = (w, inl refl, λ t e. ground arith, tt)
due_loop-best (x ∷ rest) day latest w = elim (Bool-cases (leb x.day day && is_later x latest)) [
  | inl e ↦
      rw (e, due_loop)
        (best-take x rest day latest _ e (due_loop-best rest day (some x) (ground arith)))
  | inr e ↦ rw (e, due_loop) (best-skip x rest day latest _ e (due_loop-best rest day latest w))
]

best-IsDue :
    (schedule : List Stage) (day : ℕ) (o : Option Stage)
    → BestSoFar schedule day none o
    → IsDue schedule day o
best-IsDue schedule day none b = b.1
best-IsDue schedule day (some s) b =
    (b.0, elim b.1 [ inl e ↦ absurd (ground arith) | inr m ↦ m ], b.3)

-- The stage that is due on a day is a stage of the schedule on or before that day with the
-- highest such day, and there is none exactly when every stage is later
pub due_stage-IsDue :
    (schedule : List Stage) (day : ℕ) → IsDue schedule day (due_stage schedule day)
unfolding due_stage
due_stage-IsDue schedule day =
    best-IsDue schedule day (due_loop none schedule day) (due_loop-best schedule day none tt)
