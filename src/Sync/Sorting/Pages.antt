-- ===== src/Sync/Sorting/Pages.antt =====
-- A page of the rows in the order of a key that no two rows share.
use recurring_service_platfo.Base.{
  ltb, ◌==◌, Bool-cases, filter, All, ℕ, zero, suc, ◌≤◌, ◌<◌, ◌≡◌, inl, inr, List, [], ◌∷◌, arith,
}
use recurring_service_platfo.Sync.Sorting.{
  limited, beyond, sort_by, Ascending, StrictlyAscending, All-map, All-insert_by, sort_by-Ascending,
}
use recurring_service_platfo.Sync.Sorting.Counts.{count, count-sort_by, All-trivial, count-none}

module _ {A : Type 0} where
  pub All-beyond : (P : A → Type 0) (n : ℕ) (xs : List A) → All P xs → All P (beyond n xs)
  All-beyond P zero xs h = h
  All-beyond P (suc n) [] h = tt
  All-beyond P (suc n) (x ∷ xs) h = All-beyond P n xs h.1

  pub All-limited : (P : A → Type 0) (n : ℕ) (xs : List A) → All P xs → All P (limited n xs)
  All-limited P zero xs h = tt
  All-limited P (suc n) [] h = tt
  All-limited P (suc n) (x ∷ xs) h = (h.0, All-limited P n xs h.1)

  pub All-sort_by : (P : A → Type 0) (key : A → ℕ) (xs : List A) → All P xs → All P (sort_by key xs)
  All-sort_by P key [] h = tt
  All-sort_by P key (x ∷ xs) h =
      All-insert_by P key x (sort_by key xs) h.0 (All-sort_by P key xs h.1)

  pub All-both : (P Q : A → Type 0) (xs : List A) → All P xs → All Q xs → All (λ x. P x × Q x) xs
  All-both P Q [] h k = tt
  All-both P Q (x ∷ xs) h k = ((h.0, k.0), All-both P Q xs h.1 k.1)

  -- No two rows have a key in common.
  abbrev pub Distinct : (A → ℕ) → List A → Type 0
  Distinct key xs = (k : ℕ) → count (λ x. key x == k) xs ≤ 1

module _ {A : Type 0} (key : A → ℕ) where
  pub All-newer :
      (since : ℕ) (xs : List A) → All (λ x. since < key x) (filter (λ x. ltb since (key x)) xs)
  All-newer since [] = tt
  All-newer since (x ∷ xs) = ground (arith, All-newer since xs)

  above_head :
      (k : ℕ) (xs : List A)
      → All (λ y. k ≤ key y) xs
      → count (λ y. key y == k) xs ≡ 0
      → All (λ y. k < key y) xs
  above_head k [] h c = tt
  above_head k (x ∷ xs) h c = ground (arith, above_head k xs h.1)

  Ascending-Distinct : (xs : List A) → Ascending key xs → Distinct key xs → StrictlyAscending key xs
  Ascending-Distinct [] h d = tt
  Ascending-Distinct (x ∷ xs) h d = (
    above_head (key x) xs h.0 (ground (arith, d (key x))),
    Ascending-Distinct xs h.1 (λ k. ground (arith, d k)),
  )

  pub sort_by-StrictlyAscending :
      (xs : List A) → Distinct key xs → StrictlyAscending key (sort_by key xs)
  sort_by-StrictlyAscending xs d =
      Ascending-Distinct (sort_by key xs) (sort_by-Ascending key xs)
        (λ k. rw (count-sort_by (λ x. key x == k) key xs) (d k))

  pub limited-StrictlyAscending :
      (n : ℕ) (xs : List A) → StrictlyAscending key xs → StrictlyAscending key (limited n xs)
  limited-StrictlyAscending zero xs h = tt
  limited-StrictlyAscending (suc n) [] h = tt
  limited-StrictlyAscending (suc n) (x ∷ xs) h =
      (All-limited (λ y. key x < key y) n xs h.0, limited-StrictlyAscending n xs h.1)

  -- Every row past a page is above the whole page, and the page is full.
  pub beyond-above :
      (n : ℕ) (xs : List A)
      → StrictlyAscending key xs
      → All (λ z. All (λ y. key y < key z) (limited n xs)) (beyond n xs)
  beyond-above zero xs h = All-trivial xs
  beyond-above (suc n) [] h = tt
  beyond-above (suc n) (x ∷ xs) h =
      All-both (λ z. key x < key z) (λ z. All (λ y. key y < key z) (limited n xs)) (beyond n xs)
        (All-beyond (λ z. key x < key z) n xs h.0) (beyond-above n xs h.1)

  pub beyond-full :
      (n : ℕ) (xs : List A)
      → StrictlyAscending key xs
      → All (λ z. n ≤ count (λ y. ltb (key y) (key z)) (limited n xs)) (beyond n xs)
  beyond-full zero xs h =
      All-map (λ z. Unit {0}) (λ z. 0 ≤ 0) xs (λ z k. omega arith) (All-trivial xs)
  beyond-full (suc n) [] h = tt
  beyond-full (suc n) (x ∷ xs) h =
      All-map (λ z. (key x < key z) × (n ≤ count (λ y. ltb (key y) (key z)) (limited n xs))) _
        (beyond n xs) (λ z k. ground arith)
        (All-both (λ z. key x < key z) (λ z. n ≤ count (λ y. ltb (key y) (key z)) (limited n xs))
          (beyond n xs) (All-beyond (λ z. key x < key z) n xs h.0) (beyond-full n xs h.1))

  none_below : (k : ℕ) (xs : List A) → All (λ y. k ≤ key y) xs → count (λ y. ltb (key y) k) xs ≡ 0
  none_below k xs h = count-none (λ y. k ≤ key y) (λ y. ltb (key y) k) xs h (λ y l. ground arith)

  -- Where so many rows are below a key, the page has no other rows.
  pub limited-below :
      (n k : ℕ) (xs : List A)
      → StrictlyAscending key xs
      → n ≤ count (λ y. ltb (key y) k) xs
      → All (λ y. key y < k) (limited n xs)
  limited-below zero k xs h c = tt
  limited-below (suc n) k [] h c = tt
  limited-below (suc n) k (x ∷ xs) h c = elim (Bool-cases (ltb (key x) k)) [
    | inl e ↦ (ground arith, limited-below n k xs h.1 (ground arith))
    | inr e ↦ absurd (
        let none =
          none_below k xs
            (All-map (λ y. key x < key y) (λ y. k ≤ key y) xs (λ y l. ground arith) h.0) in
        ground arith)
  ]
