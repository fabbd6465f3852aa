-- ===== src/Base/Sums.antt =====
-- `coalesce(sum(column), 0)` over the rows of a table that meet a condition.
use recurring_service_platfo.Base.{arith}
use mathlib.Core.Path.{◌≡◌, refl}
use mathlib.Core.Bool.{Bool}
use mathlib.Core.Option.{some}
use mathlib.Core.List.{List, [], ◌∷◌}
use recurring_service_platfo.Base.Tests.{if◌then◌else◌}
use recurring_service_platfo.Base.Lists.{find, update_first}
use recurring_service_platfo.Base.Int.{ℤ, pos, ◌+ℤ◌, ◌-ℤ◌, neg, int_laws}

module _ {ℓ} {A : Type ℓ} where
  abbrev pub sum_by : (A → ℤ) → List A → ℤ
  sum_by f [] = pos 0
  sum_by f (x ∷ xs) = f x +ℤ sum_by f xs

  abbrev pub sum_where : (A → Bool) → (A → ℤ) → List A → ℤ
  sum_where p f = sum_by (λ x. if p x then f x else pos 0)

  pub sum_by-update_first :
      (f : A → ℤ) (p : A → Bool) (g : A → A) (xs : List A) {a : A}
      → find p xs ≡ some a
      → sum_by f (update_first p g xs) ≡ sum_by f xs -ℤ f a +ℤ f (g a)
  sum_by-update_first f p g [] h = cc
  sum_by-update_first f p g (x ∷ xs) h = grind (int_laws, sum_by-update_first f p g xs)

  pub sum_by-add :
      (f g h : A → ℤ) (xs : List A)
      → ((a : A) → h a ≡ f a +ℤ g a)
      → sum_by h xs ≡ sum_by f xs +ℤ sum_by g xs
  sum_by-add f g h [] e = omega int_laws
  sum_by-add f g h (x ∷ xs) e = rw (e x, sum_by-add f g h xs e) (omega int_laws)

  pub sum_by-congr : (f g : A → ℤ) (xs : List A) → ((a : A) → f a ≡ g a) → sum_by f xs ≡ sum_by g xs
  sum_by-congr f g [] e = refl
  sum_by-congr f g (x ∷ xs) e = rw (e x, sum_by-congr f g xs e)

  pub sum_by-neg :
      (f g : A → ℤ) (xs : List A) → ((a : A) → g a ≡ neg (f a)) → sum_by g xs ≡ neg (sum_by f xs)
  sum_by-neg f g [] e = omega int_laws
  sum_by-neg f g (x ∷ xs) e = rw (e x, sum_by-neg f g xs e) (omega int_laws)

  pub sum_by-zero : (f : A → ℤ) (xs : List A) → ((a : A) → f a ≡ pos 0) → sum_by f xs ≡ pos 0
  sum_by-zero f [] e = refl
  sum_by-zero f (x ∷ xs) e = rw (e x, sum_by-zero f xs e) (omega int_laws)

  pub sum_by-touch :
      (f : A → ℤ) (p : A → Bool) (g : A → A) (xs : List A)
      → ((a : A) → f (g a) ≡ f a)
      → sum_by f (update_first p g xs) ≡ sum_by f xs
  sum_by-touch f p g [] e = refl
  sum_by-touch f p g (x ∷ xs) e = ground (arith, e x, sum_by-touch f p g xs e)
