-- ===== src/Sync/Sorting/Counts.antt =====
-- How many rows of a page meet a test.
use recurring_service_platfo.Base.{
  if◌then◌else◌, length, filter, All, ℕ, zero, suc, ◌+◌, ◌≤◌, ◌<◌, ◌≡◌, refl, ◌∙◌, Bool, true,
  false, ◌&&◌, List, [], ◌∷◌, ◌++◌, arith,
}
use recurring_service_platfo.Sync.Sorting.{limited, beyond, insert_by, sort_by}

module _ {A : Type 0} where
  abbrev pub count : (A → Bool) → List A → ℕ
  count p [] = 0
  count p (x ∷ xs) = (if p x then 1 else 0) + count p xs

  pub count-++ : (p : A → Bool) (xs ys : List A) → count p (xs ++ ys) ≡ count p xs + count p ys
  count-++ p [] ys = omega arith
  count-++ p (x ∷ xs) ys = ground (arith, count-++ p xs ys)

  count-insert_by :
      (p : A → Bool) (key : A → ℕ) (x : A) (xs : List A)
      → count p (insert_by key x xs) ≡ count p (x ∷ xs)
  count-insert_by p key x [] = refl
  count-insert_by p key x (y ∷ ys) = ground (arith, count-insert_by p key x ys)

  pub count-sort_by :
      (p : A → Bool) (key : A → ℕ) (xs : List A) → count p (sort_by key xs) ≡ count p xs
  count-sort_by p key [] = refl
  count-sort_by p key (x ∷ xs) =
      ground (arith, count-insert_by p key x (sort_by key xs), count-sort_by p key xs)

  pub count-limited :
      (p : A → Bool) (n : ℕ) (xs : List A)
      → count p (limited n xs) + count p (beyond n xs) ≡ count p xs
  count-limited p zero xs = omega arith
  count-limited p (suc n) [] = refl
  count-limited p (suc n) (x ∷ xs) = ground (arith, count-limited p n xs)

  pub count-filter :
      (p q : A → Bool) (xs : List A) → count p (filter q xs) ≡ count (λ x. p x && q x) xs
  count-filter p q [] = refl
  count-filter p q (x ∷ xs) = ground (arith, count-filter p q xs)

  -- Tests that agree, on the rows that have a property.
  pub count-agree :
      (P : A → Type 0) (p q : A → Bool) (xs : List A)
      → All P xs
      → ((x : A) → P x → p x ≡ q x)
      → count p xs ≡ count q xs
  count-agree P p q [] h k = refl
  count-agree P p q (x ∷ xs) h k = ground (arith, k x h.0, count-agree P p q xs h.1 k)

  pub All-trivial : (xs : List A) → All (λ x. Unit {0}) xs
  All-trivial [] = tt
  All-trivial (x ∷ xs) = (tt, All-trivial xs)

  pub count-false : (xs : List A) → count (λ x. false) xs ≡ 0
  count-false [] = refl
  count-false (x ∷ xs) = omega (arith, count-false xs)

  pub count-none :
      (P : A → Type 0) (p : A → Bool) (xs : List A)
      → All P xs
      → ((x : A) → P x → p x ≡ false)
      → count p xs ≡ 0
  count-none P p xs h k = count-agree P p (λ x. false) xs h k ∙ count-false xs

  pub count-all : (xs : List A) → count (λ x. true) xs ≡ length xs
  count-all [] = refl
  count-all (x ∷ xs) = ground (arith, count-all xs)

  pub count-le :
      (p q : A → Bool) (xs : List A) → ((x : A) → p x ≡ true → q x ≡ true) → count p xs ≤ count q xs
  count-le p q [] k = omega arith
  count-le p q (x ∷ xs) k = ground (arith, k x, count-le p q xs k)

  pub length-limited : (n : ℕ) (xs : List A) → n < length xs → length (limited n xs) ≡ n
  length-limited zero xs h = refl
  length-limited (suc n) [] h = absurd (omega arith)
  length-limited (suc n) (x ∷ xs) h = ground (arith, length-limited n xs)

  pub beyond-none : (n : ℕ) (xs : List A) → length xs ≤ n → beyond n xs ≡ []
  beyond-none zero [] h = refl
  beyond-none zero (x ∷ xs) h = absurd (omega arith)
  beyond-none (suc n) [] h = refl
  beyond-none (suc n) (x ∷ xs) h = beyond-none n xs (omega arith)
