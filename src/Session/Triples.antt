-- ===== src/Session/Triples.antt =====
-- What holds before an action, and what holds after each of its successful runs.
use recurring_service_platfo.Session.{
  Action, ◌>>=◌, pure, lift, raise_when, gets, modify, new_id, next_row_version, bind-ok, Db,
}
use recurring_service_platfo.Base.{
  Error, Result, ok, err, ℕ, ◌+◌, ◌≡◌, refl, sym, Bool, true, false,
}
use mathlib.Core.Path.{subst}

abbrev pub Triple : {A : Type 0} → (Db → Type 0) → Action A → (A → Db → Type 0) → Type 0
Triple {A} P m Q = (db db' : Db) (a : A) → P db → m db ≡ ok (a, db') → Q a db'

-- An action that keeps a predicate.
abbrev pub Sustains : {A : Type 0} → (Db → Type 0) → Action A → Type 0
Sustains P m = Triple P m (λ a. P)

ok-injective : {A : Type 0} (x y : A) → ok x ≡ ok y → x ≡ y
ok-injective x y h = cc

-- The value and the tables of a run that is known.
run_to :
    {A : Type 0} (Q : A → Db → Type 0) (a : A) (db : Db) (b : A) (db' : Db)
    → Q a db
    → pure a db ≡ ok (b, db')
    → Q b db'
run_to Q a db b db' q h = subst (λ r. Q r.0 r.1) (ok-injective (a, db) (b, db') h) q

-- An action that reads and changes nothing.
abbrev pub Reads : {A : Type 0} → Action A → Type 0
Reads {A} m = (db db' : Db) (a : A) → m db ≡ ok (a, db') → db' ≡ db

module _ {A : Type 0} where
  pub Reads-Sustains : (P : Db → Type 0) (m : Action A) → Reads m → Sustains P m
  Reads-Sustains P m same db db' a p h = subst P (sym (same db db' a h)) p

  pub Triple-bind :
      {B : Type 0} (P : Db → Type 0) (m : Action A) (Q : A → Db → Type 0) (f : A → Action B)
      (R : B → Db → Type 0)
      → Triple P m Q
      → ((a : A) → Triple (Q a) (f a) R)
      → Triple P (m >>= f) R
  Triple-bind P m Q f R hm hf db db' b p h =
      let (a, db₁, e, e') = bind-ok m f db h in hf a db₁ db' b (hm db db₁ a p e) e'

  pub Triple-pure :
      (P : Db → Type 0) (a : A) (Q : A → Db → Type 0)
      → ((db : Db) → P db → Q a db)
      → Triple P (pure a) Q
  Triple-pure P a Q k db db' b p h = run_to Q a db b db' (k db p) h

  pub Triple-gets : (P : Db → Type 0) (f : Db → A) → Triple P (gets f) (λ a db. P db × (f db ≡ a))
  Triple-gets P f db db' a p h = run_to (λ a db. P db × (f db ≡ a)) (f db) db a db' (p, refl) h

  pub Triple-lift : (P : Db → Type 0) (r : Result A) → Triple P (lift r) (λ a db. P db × (r ≡ ok a))
  Triple-lift P (ok x) db db' a p h = run_to (λ a db. P db × (ok x ≡ ok a)) x db a db' (p, refl) h
  Triple-lift P (err e) db db' a p h = cc

  -- A chain that goes on after a step whose value says nothing.
  pub Sustains-bind :
      {B : Type 0} (P : Db → Type 0) (m : Action A) (f : A → Action B)
      → Sustains P m
      → ((a : A) → Sustains P (f a))
      → Sustains P (m >>= f)
  Sustains-bind P m f hm hf = Triple-bind P m (λ a. P) f (λ b. P) hm hf

  pub Sustains-pure : (P : Db → Type 0) (a : A) → Sustains P (pure a)
  Sustains-pure P a = Triple-pure P a (λ b. P) (λ db p. p)

  pub Sustains-gets : (P : Db → Type 0) (f : Db → A) → Sustains P (gets f)
  Sustains-gets P f db db' a p h = (Triple-gets P f db db' a p h).0

  pub Sustains-lift : (P : Db → Type 0) (r : Result A) → Sustains P (lift r)
  Sustains-lift P r db db' a p h = (Triple-lift P r db db' a p h).0

pub Triple-modify :
    (P : Db → Type 0) (f : Db → Db) (Q : Unit {0} → Db → Type 0)
    → ((db : Db) → P db → Q tt (f db))
    → Triple P (modify f) Q
Triple-modify P f Q k db db' a p h = run_to Q tt (f db) a db' (k db p) h

pub Sustains-raise_when : (P : Db → Type 0) (b : Bool) (e : Error) → Sustains P (raise_when b e)
Sustains-raise_when P true e db db' a p h = cc
Sustains-raise_when P false e db db' a p h = run_to (λ a. P) tt db a db' p h

pub Triple-raise_when :
    (P : Db → Type 0) (b : Bool) (e : Error)
    → Triple P (raise_when b e) (λ a db. P db × (b ≡ false))
Triple-raise_when P true e db db' a p h = cc
Triple-raise_when P false e db db' a p h =
    run_to (λ a db. P db × (false ≡ false)) tt db a db' (p, refl) h

pub Triple-new_id :
    (P : Db → Type 0) (Q : ℕ → Db → Type 0)
    → ((db : Db) → P db → Q db.next_id (record db { next_id = db.next_id + 1 }))
    → Triple P new_id Q
unfolding new_id
Triple-new_id P Q k db db' a p h =
    run_to Q db.next_id (record db { next_id = db.next_id + 1 }) a db' (k db p) h

pub Triple-next_row_version :
    (P : Db → Type 0) (Q : ℕ → Db → Type 0)
    → ((db : Db) → P db → Q (db.row_version + 1) (record db { row_version = db.row_version + 1 }))
    → Triple P next_row_version Q
unfolding next_row_version
Triple-next_row_version P Q k db db' a p h =
    run_to Q (db.row_version + 1) (record db { row_version = db.row_version + 1 }) a db' (k db p) h
