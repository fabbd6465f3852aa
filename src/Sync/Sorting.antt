-- ===== src/Sync/Sorting.antt =====
-- Pages of rows in the order of a key: `order_by(key)`, `limit(n)` and `sort(key=…)`.
pub mod Counts
pub mod Pages
use recurring_service_platfo.Base.{
  leb, if◌then◌else◌, leb→le, Bool-cases, All, ℕ, zero, suc, ◌-◌, ◌≤◌, ◌<◌, ap, inl, inr, Bool,
  List, [], ◌∷◌, map, arith,
}

module _ {A : Type 0} where
  -- `xs[:n]`, and what it leaves.
  abbrev pub limited : ℕ → List A → List A
  limited zero xs = []
  limited (suc n) [] = []
  limited (suc n) (x ∷ xs) = x ∷ limited n xs

  abbrev pub beyond : ℕ → List A → List A
  beyond zero xs = xs
  beyond (suc n) [] = []
  beyond (suc n) (x ∷ xs) = beyond n xs

  -- The stable sort by a key.
  abbrev pub insert_by : (A → ℕ) → A → List A → List A
  insert_by key x [] = x ∷ []
  insert_by key x (y ∷ ys) = if leb (key x) (key y) then x ∷ y ∷ ys else y ∷ insert_by key x ys

  abbrev pub sort_by : (A → ℕ) → List A → List A
  sort_by key [] = []
  sort_by key (x ∷ xs) = insert_by key x (sort_by key xs)

  -- No key is above the keys that follow it.
  abbrev pub Ascending : (A → ℕ) → List A → Type 0
  Ascending key [] = Unit
  Ascending key (x ∷ xs) = All (λ y. key x ≤ key y) xs × Ascending key xs

  abbrev pub StrictlyAscending : (A → ℕ) → List A → Type 0
  StrictlyAscending key [] = Unit
  StrictlyAscending key (x ∷ xs) = All (λ y. key x < key y) xs × StrictlyAscending key xs

  pub All-map : (P Q : A → Type 0) (xs : List A) → ((a : A) → P a → Q a) → All P xs → All Q xs
  All-map P Q [] k h = tt
  All-map P Q (x ∷ xs) k h = (k x h.0, All-map P Q xs k h.1)

  pub All-insert_by :
      (P : A → Type 0) (key : A → ℕ) (x : A) (xs : List A)
      → P x
      → All P xs
      → All P (insert_by key x xs)
  All-insert_by P key x [] p h = (p, tt)
  All-insert_by P key x (y ∷ ys) p h = ground (arith, All-insert_by P key x ys p h.1)

  insert_by-Ascending :
      (key : A → ℕ) (x : A) (xs : List A) → Ascending key xs → Ascending key (insert_by key x xs)
  insert_by-Ascending key x [] h = (tt, tt)
  insert_by-Ascending key x (y ∷ ys) h = elim (Bool-cases (leb (key x) (key y))) [
    | inl e ↦ rw e (
      (
        leb→le (key x) (key y) e,
        All-map (λ z. key y ≤ key z) (λ z. key x ≤ key z) ys
            (λ z k. omega (arith, k, leb→le (key x) (key y) e)) h.0,
      ),
      h,
    )
    | inr e ↦ rw e (
      All-insert_by (λ z. key y ≤ key z) key x ys (ground arith) h.0,
      insert_by-Ascending key x ys h.1,
    )
  ]

  pub sort_by-Ascending : (key : A → ℕ) (xs : List A) → Ascending key (sort_by key xs)
  sort_by-Ascending key [] = tt
  sort_by-Ascending key (x ∷ xs) =
      insert_by-Ascending key x (sort_by key xs) (sort_by-Ascending key xs)
