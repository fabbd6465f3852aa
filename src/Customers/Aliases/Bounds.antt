-- ===== src/Customers/Aliases/Bounds.antt =====
-- A customer never has more active aliases than the bound.
use recurring_service_platfo.Session.Frames.{not_raised, lift-same, raise_when-same}
use recurring_service_platfo.Search.Names.{Unicode}
use recurring_service_platfo.Session.Triples.{Triple, Sustains, Reads}
use recurring_service_platfo.Session.{
  Db, Action, lift, raise_when, new_id, next_row_version, after, bind-ok,
}
use recurring_service_platfo.Session.Tables.{record_tenant_event}
use recurring_service_platfo.Base.{
  leb, ◌==◌, Bool-cases, length, filter, find, any, update_first, filter-update_first,
  validation_failed, conflict, ok, ℕ, ◌+◌, ◌≤◌, ◌<◌, ◌≡◌, refl, ap, ◌∙◌, inl, inr, Bool, true,
  false, ◌&&◌, Option, none, some, List, [], ◌∷◌, arith,
}
use recurring_service_platfo.Core.Text.{Text}
use recurring_service_platfo.Models.{
  TenantContext, CustomerAlias, AuditAction, customer_alias_added, customer_alias_reactivated,
}
use recurring_service_platfo.Customers.Commands.{get_customer, is_active_alias_of}
use recurring_service_platfo.Customers.Aliases.{
  max_aliases_per_customer, validated, is_alias, has_key, is_clash, touch_customer, is_active_found,
  new_alias, reactivated, alias_event, put_alias, active_aliases, add_alias,
}

abbrev pub AliasesBounded : Db → Type 0
AliasesBounded db =
    (tenant customer : ℕ) → active_aliases tenant customer db ≤ max_aliases_per_customer

abbrev HasRoom : ℕ → ℕ → Db → Type 0
HasRoom t c db = AliasesBounded db × (active_aliases t c db < max_aliases_per_customer)

module _ {A : Type 0} where
  length-filter-update_add :
      (p q : A → Bool) (f : A → A) (xs : List A)
      → length (filter p (update_first q f xs)) ≤ length (filter p xs) + 1
  length-filter-update_add p q f [] = omega arith
  length-filter-update_add p q f (x ∷ xs) = ground (arith, length-filter-update_add p q f xs)

  length-filter-cons :
      (p : A → Bool) (x : A) (xs : List A) → length (filter p (x ∷ xs)) ≤ length (filter p xs) + 1
  length-filter-cons p x xs = ground arith

  pub length-filter-update_le :
      (p q : A → Bool) (f : A → A) (xs : List A)
      → ((a : A) → p (f a) ≡ true → p a ≡ true)
      → length (filter p (update_first q f xs)) ≤ length (filter p xs)
  length-filter-update_le p q f [] k = omega arith
  length-filter-update_le p q f (x ∷ xs) k = ground (arith, k x, length-filter-update_le p q f xs k)

-- Steps that write no alias.
abbrev pub KeepsAliases : {A : Type 0} → Action A → Type 0
KeepsAliases {A} m = (db db' : Db) (a : A) → m db ≡ ok (a, db') → db'.aliases ≡ db.aliases

pub bounded-same : (db db' : Db) → db'.aliases ≡ db.aliases → AliasesBounded db → AliasesBounded db'
bounded-same db db' e b t c = rw e (b t c)

room-same : (t c : ℕ) (db db' : Db) → db'.aliases ≡ db.aliases → HasRoom t c db → HasRoom t c db'
room-same t c db db' e h = (bounded-same db db' e h.0, rw e h.1)

pub touch-KeepsAliases : (ctx : TenantContext) (id : ℕ) → KeepsAliases (touch_customer ctx id)
unfolding touch_customer next_row_version
touch-KeepsAliases ctx id db db' a h = ground arith

pub event-KeepsAliases :
    (ctx : TenantContext) (action : AuditAction) (before : Option CustomerAlias)
    (after : CustomerAlias) (reason : Option Text) (operation_id : ℕ)
    → KeepsAliases (alias_event ctx action before after reason operation_id)
unfolding record_tenant_event
event-KeepsAliases ctx action before after reason operation_id db db' a h = ground arith

pub get_customer-Reads : (ctx : TenantContext) (id : ℕ) → Reads (get_customer ctx id)
unfolding get_customer
get_customer-Reads ctx id db db' a h = ground arith

below_bound : (n : ℕ) → leb max_aliases_per_customer n ≡ false → n < 20
below_bound n h = ground arith

module _ (ctx : TenantContext) (customer : ℕ) where
  -- Only aliases of the customer change; one more at most is active.
  put-bounded :
      (id : ℕ) (f : CustomerAlias → CustomerAlias) (db : Db)
      → ((a : CustomerAlias)
          → ((f a).tenant_id ≡ a.tenant_id) × ((f a).customer_id ≡ a.customer_id))
      → HasRoom ctx.tenant_id customer db
      → AliasesBounded
          (record db { aliases = update_first (is_alias ctx.tenant_id customer id) f db.aliases })
  put-bounded id f db keeps h t c = elim (Bool-cases (ctx.tenant_id == t && customer == c)) [
    | inl own ↦
        let added =
          length-filter-update_add (is_active_alias_of t c) (is_alias ctx.tenant_id customer id) f
            db.aliases in
        let room : active_aliases t c db < 20 = ground (arith, h.1) in omega (arith, added, room)
    | inr foreign ↦
        let same =
          filter-update_first (is_active_alias_of t c) (is_alias ctx.tenant_id customer id) f
            db.aliases (λ a hit. (ground arith, let k = keeps a in ground arith)) in
        rw same (h.0 t c)
  ]

  new-bounded :
      (a : CustomerAlias) (db : Db)
      → a.tenant_id ≡ ctx.tenant_id
      → a.customer_id ≡ customer
      → HasRoom ctx.tenant_id customer db
      → AliasesBounded (record db { aliases = a ∷ db.aliases })
  new-bounded a db et ec h t c = elim (Bool-cases (ctx.tenant_id == t && customer == c)) [
    | inl own ↦
        let room : active_aliases t c db < 20 = ground (arith, h.1) in
        let one_more = length-filter-cons (is_active_alias_of t c) a db.aliases in
        omega (arith, one_more, room)
    | inr foreign ↦
        let skipped : is_active_alias_of t c a ≡ false = ground (arith, et, ec) in
        rw skipped (h.0 t c)
  ]

  put_alias-bounded :
      (text normalized : Text) (operation_id : ℕ) (existing : Option CustomerAlias)
      → Triple
          (HasRoom ctx.tenant_id customer)
          (put_alias ctx customer text normalized operation_id existing)
          (λ e. AliasesBounded)
  unfolding new_id
  put_alias-bounded text normalized operation_id none db db' e h done =
      let (u, db₁, e₁, h₁) = bind-ok (touch_customer ctx customer) _ db done in
      let touched = touch-KeepsAliases ctx customer db db₁ u e₁ in
      let row = new_alias ctx customer text normalized db₁.next_id in
      let written = record db₁ { next_id = db₁.next_id + 1; aliases = row ∷ db₁.aliases } in
      let final =
        event-KeepsAliases ctx customer_alias_added none row none operation_id written db' e h₁ in
      bounded-same written db' final
        (new-bounded row db₁ refl refl (room-same ctx.tenant_id customer db db₁ touched h))
  put_alias-bounded text normalized operation_id (some a) db db' e h done =
      let (u, db₁, e₁, h₁) = bind-ok (touch_customer ctx customer) _ db done in
      let touched = touch-KeepsAliases ctx customer db db₁ u e₁ in
      let (v, db₂, e₂, h₂) =
        bind-ok
          (raise_when (any (is_clash ctx.tenant_id customer normalized a.id) db₁.aliases) conflict)
          _ db₁ h₁ in
      let same = ap (λ x. x.aliases) (raise_when-same _ conflict db₁ db₂ v e₂) in
      let written = record db₂ {
        aliases =
            update_first (is_alias ctx.tenant_id customer a.id) (reactivated ctx text) db₂.aliases;
      } in
      let final =
        event-KeepsAliases ctx customer_alias_reactivated (some a) (reactivated ctx text a) none
          operation_id written db' e h₂ in
      bounded-same written db' final (
        put-bounded a.id (reactivated ctx text) db₂ (λ x. (refl, refl))
          (room-same ctx.tenant_id customer db db₂ (same ∙ touched) h))

  pub add_alias-AliasesBounded :
      (u : Unicode) (alias : Option Text) (operation_id : ℕ)
      → Sustains AliasesBounded (add_alias u ctx customer alias operation_id)
  unfolding add_alias get_customer
  add_alias-AliasesBounded u alias operation_id db db' e h done =
      let (o, db₁, e₁, h₁) = bind-ok (get_customer ctx customer) _ db done in
      let (checked, db₂, e₂, h₂) = bind-ok (lift (validated u alias)) _ db₁ h₁ in
      let existing = find (has_key ctx.tenant_id customer checked.1) db₂.aliases in
      let (v, db₃, e₃, h₃) = bind-ok (raise_when (is_active_found existing) conflict) _ db₂ h₂ in
      let (w, db₄, e₄, h₄) =
        bind-ok
          (raise_when (leb max_aliases_per_customer (active_aliases ctx.tenant_id customer db₃))
            validation_failed)
          _ db₃ h₃ in
      let back : db₃ ≡ db =
        raise_when-same _ conflict db₂ db₃ v e₃
        ∙ lift-same (validated u alias) db₁ db₂ checked e₂
        ∙ get_customer-Reads ctx customer db db₁ o e₁ in
      let below : active_aliases ctx.tenant_id customer db₃ < 20 =
        below_bound (active_aliases ctx.tenant_id customer db₃)
          (not_raised _ validation_failed db₃ db₄ w e₄) in
      let room =
        room-same ctx.tenant_id customer db₃ db₄
          (ap (λ x. x.aliases) (raise_when-same _ validation_failed db₃ db₄ w e₄))
          (bounded-same db db₃ (ap (λ x. x.aliases) back) h, below) in
      put_alias-bounded checked.0 checked.1 operation_id existing db₄ db' e room h₄
