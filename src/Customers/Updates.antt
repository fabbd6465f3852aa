-- ===== src/Customers/Updates.antt =====
-- What an accepted update of a customer leaves for the next request and for the search.
use recurring_service_platfo.Session.Frames.{lift-ok, lift-same, raise_when-same}
use recurring_service_platfo.Customers.Commands.{get_customer, settle_update, update_customer}
use recurring_service_platfo.Session.Tables.{is_customer, record_tenant_event}
use mathlib.Core.Path.{subst}
use recurring_service_platfo.Session.{
  Db, ◌>>=◌, lift, raise_when, next_row_version, after, bind-ok, bind-run, bind-raise,
}
use recurring_service_platfo.Base.{
  find, update_first, All, find-holds, All-find, All-update_first, Error, conflict, ok, err, ℕ, ◌+◌,
  ◌≤◌, ◌<◌, ◌≡◌, refl, sym, ap, ◌∙◌, Bool, true, Option, some, List, [], ◌∷◌, arith,
}
use recurring_service_platfo.Models.{TenantContext, Customer, Entity}
use recurring_service_platfo.Search.Names.{Unicode}
use recurring_service_platfo.Customers.Fields.{UpdateCustomerInput, is_stale, updated_customer}
use recurring_service_platfo.Customers.Following.{
  KeyMatches, Follows, Follows-trans, plain, updated-Follows,
}

get_customer-found :
    (ctx : TenantContext) (id : ℕ) (db db' : Db) (c : Customer)
    → get_customer ctx id db ≡ ok (c, db')
    → (find (is_customer ctx.tenant_id id) db.customers ≡ some c) × (db' ≡ db)
unfolding get_customer
get_customer-found ctx id db db' c h = ground arith

settle_update-customers :
    (ctx : TenantContext) (operation_id : ℕ) (before after : Customer) (db db' : Db) (e : Entity)
    → settle_update ctx operation_id before after db ≡ ok (e, db')
    → db'.customers ≡ update_first (is_customer ctx.tenant_id before.id) (λ c. after) db.customers
unfolding settle_update record_tenant_event
settle_update-customers ctx operation_id before after db db' e h = ground arith

next_row_version-run :
    (db db' : Db) (v : ℕ)
    → next_row_version db ≡ ok (v, db')
    → (v ≡ db.row_version + 1) × (db'.customers ≡ db.customers)
unfolding next_row_version
next_row_version-run db db' v h = ground arith

-- The row that an accepted update read, and the one that it wrote.
record Updated (u : Unicode) (ctx : TenantContext) (id : ℕ) (db db' : Db) : Type 0 where
  before : Customer
  after_row : Customer
  read : find (is_customer ctx.tenant_id id) db.customers ≡ some before
  follows : Follows u before after_row
  version : after_row.row_version ≡ db.row_version + 1
  written :
      db'.customers
      ≡ update_first (is_customer ctx.tenant_id before.id) (λ c. after_row) db.customers

update_customer-Updated :
    (u : Unicode) (ctx : TenantContext) (id : ℕ) (input : UpdateCustomerInput) (operation_id : ℕ)
    (db db' : Db) (e : Entity)
    → update_customer u ctx id input operation_id db ≡ ok (e, db')
    → Updated u ctx id db db'
unfolding update_customer
update_customer-Updated u ctx id input operation_id db db' e done =
    let (c, db₁, e₁, h₁) = bind-ok (get_customer ctx id) _ db done in
    let (v, db₂, e₂, h₂) =
      bind-ok (raise_when (is_stale input.expected_row_version c.row_version) conflict) _ db₁ h₁ in
    let (changed, db₃, e₃, h₃) = bind-ok (lift (updated_customer u input c)) _ db₂ h₂ in
    let (version, db₄, e₄, h₄) = bind-ok next_row_version _ db₃ h₃ in
    let (found, same₁) = get_customer-found ctx id db db₁ c e₁ in
    let back : db₃ ≡ db =
      lift-same (updated_customer u input c) db₂ db₃ changed e₃
      ∙ raise_when-same _ conflict db₁ db₂ v e₂
      ∙ same₁ in
    let (drawn, kept) = next_row_version-run db₃ db₄ version e₄ in
    let after = record changed { row_version = version } in
    record {
      before = c;
      after_row = after;
      read = found;
      follows =
          Follows-trans u c changed after
            (updated-Follows u input c changed
              (lift-ok (updated_customer u input c) db₂ db₃ changed e₃))
            (plain u changed after refl refl refl refl);
      version = drawn ∙ ap (λ x. x.row_version + 1) back;
      written =
          settle_update-customers ctx operation_id c after db₄ db' e h₄
          ∙ ap (update_first (is_customer ctx.tenant_id c.id) (λ x. after))
              (kept ∙ ap (λ x. x.customers) back);
    }

-- The query that found a row finds the row that replaced it.
find-replaced :
    (p : Customer → Bool) (after : Customer) (xs : List Customer) (c : Customer)
    → p after ≡ true
    → find p xs ≡ some c
    → find p (update_first p (λ x. after) xs) ≡ some after
find-replaced p after [] c k h = cc
find-replaced p after (x ∷ xs) c k h = ground (arith, find-replaced p after xs c k)

get_customer-run :
    (ctx : TenantContext) (id : ℕ) (db : Db) (c : Customer)
    → find (is_customer ctx.tenant_id id) db.customers ≡ some c
    → get_customer ctx id db ≡ ok (c, db)
unfolding get_customer
get_customer-run ctx id db c found = rw (found, ◌>>=◌) refl

raised_when : (b : Bool) (e : Error) (db : Db) → b ≡ true → raise_when b e db ≡ err e
raised_when b e db h = rw h refl

refuses :
    (u : Unicode) (ctx : TenantContext) (id : ℕ) (input : UpdateCustomerInput) (operation_id : ℕ)
    (db : Db) (c : Customer)
    → find (is_customer ctx.tenant_id id) db.customers ≡ some c
    → is_stale input.expected_row_version c.row_version ≡ true
    → update_customer u ctx id input operation_id db ≡ err conflict
unfolding update_customer
refuses u ctx id input operation_id db c found stale =
    bind-run (get_customer ctx id) _ db (get_customer-run ctx id db c found)
    ∙ bind-raise (raise_when (is_stale input.expected_row_version c.row_version) conflict) _ db
        (raised_when (is_stale input.expected_row_version c.row_version) conflict db stale)

older_is_stale :
    (expected : Option ℕ) (v n : ℕ) → expected ≡ some v → v < n → is_stale expected n ≡ true
older_is_stale expected v n e lt = ground arith

-- After an update of a customer that is accepted, a request for the same customer that expects a
-- row version drawn before that update is refused with the conflict error, whatever it asks for
pub update_customer-stale :
    (u : Unicode) (ctx : TenantContext) (id : ℕ) (input late : UpdateCustomerInput)
    (operation_id late_operation_id : ℕ) (db db' : Db) (e : Entity) (v : ℕ)
    → update_customer u ctx id input operation_id db ≡ ok (e, db')
    → late.expected_row_version ≡ some v
    → v ≤ db.row_version
    → update_customer u ctx id late late_operation_id db' ≡ err conflict
update_customer-stale u ctx id input late operation_id late_operation_id db db' e v done expects
      old =
    let w = update_customer-Updated u ctx id input operation_id db db' e done in
    let hit = find-holds (is_customer ctx.tenant_id id) db.customers w.before w.read in
    let own : w.before.id ≡ id = ground arith in
    let after_hit : is_customer ctx.tenant_id id w.after_row ≡ true = ground (arith, w.follows) in
    let now_there : find (is_customer ctx.tenant_id id) db'.customers ≡ some w.after_row =
      ap (find (is_customer ctx.tenant_id id)) (
        w.written
        ∙ ap (λ i. update_first (is_customer ctx.tenant_id i) (λ x. w.after_row) db.customers) own)
      ∙ find-replaced (is_customer ctx.tenant_id id) w.after_row db.customers w.before after_hit
          w.read in
    refuses u ctx id late late_operation_id db' w.after_row now_there (
      older_is_stale late.expected_row_version v w.after_row.row_version expects
        (ground (arith, w.version)))

replaced-All :
    (P : Customer → Type 0) (p : Customer → Bool) (after : Customer) (xs : List Customer)
    → P after
    → All P xs
    → All P (update_first p (λ c. after) xs)
replaced-All P p after xs k h = All-update_first P p (λ c. after) xs (λ c q. k) h

-- Where the comparison key of every customer is that of the name, it still is after an update
-- that is accepted
pub update_customer-KeyMatches :
    (u : Unicode) (ctx : TenantContext) (id : ℕ) (input : UpdateCustomerInput) (operation_id : ℕ)
    (db db' : Db) (e : Entity)
    → All (KeyMatches u) db.customers
    → update_customer u ctx id input operation_id db ≡ ok (e, db')
    → All (KeyMatches u) db'.customers
update_customer-KeyMatches u ctx id input operation_id db db' e h done =
    let w = update_customer-Updated u ctx id input operation_id db db' e done in
    subst (All (KeyMatches u)) (sym w.written) (
      replaced-All (KeyMatches u) (is_customer ctx.tenant_id w.before.id) w.after_row db.customers
        (w.follows.key
          (All-find (KeyMatches u) (is_customer ctx.tenant_id id) db.customers w.before h w.read))
        h)
