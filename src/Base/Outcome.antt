-- ===== src/Base/Outcome.antt =====
-- The outcome of a command: a value, or the domain error that it raises (core/errors.py).
use mathlib.Core.Logic.{◌⊎◌, inl, inr}
use mathlib.Core.Path.{◌≡◌, refl}
use mathlib.Core.Bool.{Bool, true, false}
use mathlib.Core.Option.{Option, none, some}

-- The subclasses of `DomainError`, and the exceptions of the money layer. What an error says in
-- words is left out.
pub data Error : Type 0 where
  permission_denied not_found validation_failed cycle_period_not_ended : Error
  cycle_rollover_required commission_plan_overlap service_already_recorded : Error
  idempotency_key_reuse conflict key_error : Error
  money_error quantity_error value_error type_error assertion_error integrity_error : Error

pub data Result {ℓ} (A : Type ℓ) : Type ℓ where
  ok : A → Result A
  err : Error → Result A

abbrev pub raise_if : Bool → Error → Result (Unit {0})
raise_if false _ = ok tt
raise_if true e = err e

-- The next step of a `do` block runs on the value of a step that raised nothing.
infixl 5 ◌>>=◌ ◌>>◌
abbrev pub ◌>>=◌ {ℓ κ} : {B : Type ℓ} {C : Type κ} → Result B → (B → Result C) → Result C
err raised >>= next = err raised
ok value >>= next = next value

abbrev pub ◌>>◌ {ℓ} : {C : Type ℓ} → Result (Unit {0}) → Result C → Result C
◌>>◌ check rest = check >>= λ unit. rest

-- A chain that raised nothing has steps that raised nothing.
pub >>=-eq-ok {ℓ κ} :
    {B : Type ℓ} {C : Type κ} (m : Result B) (next : B → Result C) {c : C}
    → (m >>= next) ≡ ok c
    → (value : B) × (m ≡ ok value) × (next value ≡ ok c)
>>=-eq-ok (err raised) next h = cc
>>=-eq-ok (ok value) next h = (value, refl, h)

abbrev pub or_raise {ℓ} : {A : Type ℓ} → Option A → Error → Result A
or_raise none e = err e
or_raise (some a) e = ok a

-- `except (…) as exc: raise E from exc`.
abbrev pub reraise {ℓ} : {A : Type ℓ} → Error → Result A → Result A
reraise e (ok a) = ok a
reraise e (err _) = err e

abbrev pub IsOk {ℓ} : {A : Type ℓ} → Result A → Type 0
IsOk (ok _) = Unit
IsOk (err _) = ⊥

pub Result-cases {ℓ} :
    {A : Type ℓ} (r : Result A) → ((a : A) × (r ≡ ok a)) ⊎ ((e : Error) × (r ≡ err e))
Result-cases (ok a) = inl (a, refl)
Result-cases (err e) = inr (e, refl)
