-- ===== src/Customers/Aliases/Changes.antt =====
-- Any sequence of alias commands keeps the bound on active aliases.
use recurring_service_platfo.Session.{Db, Action, lift, raise_when, after, bind-ok}
use recurring_service_platfo.Session.Frames.{lift-same, raise_when-same}
use recurring_service_platfo.Session.Triples.{
  Sustains, Reads, Reads-Sustains, Sustains-bind, Sustains-pure,
}
use recurring_service_platfo.Base.{
  any, update_first, conflict, Result, ok, err, ℕ, ◌≡◌, refl, ap, ◌∙◌, Bool, true, false, not,
  Option, none, some, List, [], ◌∷◌, arith,
}
use recurring_service_platfo.Core.Text.{Text}
use recurring_service_platfo.Models.{
  TenantContext, is_active_alias, CustomerAlias, Entity, customer_alias_entity,
  customer_alias_updated, customer_alias_deactivated,
}
use recurring_service_platfo.Search.Names.{Unicode}
use recurring_service_platfo.Customers.Commands.{get_customer, is_active_alias_of}
use recurring_service_platfo.Customers.Aliases.{
  validated, is_alias, alias_row, is_clash, touch_customer, add_alias, respelled, update_alias,
  retired, retire_unless, deactivate_alias,
}
use recurring_service_platfo.Customers.Aliases.Bounds.{
  AliasesBounded, length-filter-update_le, bounded-same, touch-KeepsAliases, event-KeepsAliases,
  get_customer-Reads, add_alias-AliasesBounded,
}

alias_row-Reads : (ctx : TenantContext) (customer id : ℕ) → Reads (alias_row ctx customer id)
unfolding alias_row
alias_row-Reads ctx customer id db db' a h = ground arith

module _ (ctx : TenantContext) (customer : ℕ) where
  -- A write after which no more aliases are active than before.
  changed-bounded :
      (id : ℕ) (f : CustomerAlias → CustomerAlias) (db : Db)
      → ((t c : ℕ) (a : CustomerAlias)
          → is_active_alias_of t c (f a) ≡ true
          → is_active_alias_of t c a ≡ true)
      → AliasesBounded db
      → AliasesBounded
          (record db { aliases = update_first (is_alias ctx.tenant_id customer id) f db.aliases })
  changed-bounded id f db k b t c = omega (
    arith,
    length-filter-update_le (is_active_alias_of t c) (is_alias ctx.tenant_id customer id) f
        db.aliases (k t c),
    b t c,
  )

  update_alias-AliasesBounded :
      (u : Unicode) (id : ℕ) (alias : Option Text) (operation_id : ℕ)
      → Sustains AliasesBounded (update_alias u ctx customer id alias operation_id)
  unfolding update_alias
  update_alias-AliasesBounded u id alias operation_id db db' e b done =
      let (o, db₁, e₁, h₁) = bind-ok (get_customer ctx customer) _ db done in
      let (row, db₂, e₂, h₂) = bind-ok (alias_row ctx customer id) _ db₁ h₁ in
      let (checked, db₃, e₃, h₃) = bind-ok (lift (validated u alias)) _ db₂ h₂ in
      let (v, db₄, e₄, h₄) =
        bind-ok
          (raise_when (any (is_clash ctx.tenant_id customer checked.1 id) db₃.aliases) conflict) _
          db₃ h₃ in
      let back : db₄ ≡ db =
        raise_when-same _ conflict db₃ db₄ v e₄
        ∙ lift-same (validated u alias) db₂ db₃ checked e₃
        ∙ alias_row-Reads ctx customer id db₁ db₂ row e₂
        ∙ get_customer-Reads ctx customer db db₁ o e₁ in
      let f = respelled ctx checked.0 checked.1 in
      let written = record db₄ {
        aliases = update_first (is_alias ctx.tenant_id customer row.id) f db₄.aliases;
      } in
      let (w, db₅, e₅, h₅) = bind-ok (touch_customer ctx customer) _ written h₄ in
      bounded-same written db'
        (event-KeepsAliases ctx customer_alias_updated (some row) (f row) none operation_id db₅ db'
            e h₅
          ∙ touch-KeepsAliases ctx customer written db₅ w e₅)
        (changed-bounded row.id f db₄ (λ t c a on. on)
          (bounded-same db db₄ (ap (λ x. x.aliases) back) b))

  retire-bounded :
      (retired_already : Bool) (row : CustomerAlias) (reason : Option Text) (operation_id : ℕ)
      → Sustains AliasesBounded (retire_unless retired_already ctx customer row reason operation_id)
  retire-bounded true row reason operation_id db db' e b done =
      Sustains-pure AliasesBounded (customer_alias_entity row) db db' e b done
  retire-bounded false row reason operation_id db db' e b done =
      let written = record db {
        aliases = update_first (is_alias ctx.tenant_id customer row.id) (retired ctx) db.aliases;
      } in
      let (w, db₁, e₁, h₁) = bind-ok (touch_customer ctx customer) _ written done in
      bounded-same written db'
        (event-KeepsAliases ctx customer_alias_deactivated (some row) (retired ctx row) reason
            operation_id db₁ db' e h₁
          ∙ touch-KeepsAliases ctx customer written db₁ w e₁)
        (changed-bounded row.id (retired ctx) db (λ t c a on. ground arith) b)

  deactivate_alias-AliasesBounded :
      (id : ℕ) (reason : Option Text) (operation_id : ℕ)
      → Sustains AliasesBounded (deactivate_alias ctx customer id reason operation_id)
  unfolding deactivate_alias
  deactivate_alias-AliasesBounded id reason operation_id =
      Sustains-bind AliasesBounded (get_customer ctx customer) _
        (Reads-Sustains AliasesBounded (get_customer ctx customer)
          (get_customer-Reads ctx customer))
        (λ o.
          Sustains-bind AliasesBounded (alias_row ctx customer id) _
            (Reads-Sustains AliasesBounded (alias_row ctx customer id)
              (alias_row-Reads ctx customer id))
            (λ row. retire-bounded (not (is_active_alias row.status)) row reason operation_id))

pub data AliasCommand : Type 0 where
  add : Option Text → AliasCommand
  respell : ℕ → Option Text → AliasCommand
  retire : ℕ → Option Text → AliasCommand

abbrev pub run_alias_command : Unicode → TenantContext → ℕ → ℕ → AliasCommand → Action Entity
run_alias_command u ctx customer operation_id (add alias) =
    add_alias u ctx customer alias operation_id
run_alias_command u ctx customer operation_id (respell id alias) =
    update_alias u ctx customer id alias operation_id
run_alias_command u ctx customer operation_id (retire id reason) =
    deactivate_alias ctx customer id reason operation_id

-- Requests one after the other; one that is refused leaves the tables as they were.
unfoldable pub run_alias_commands : Unicode → List (TenantContext × ℕ × ℕ × AliasCommand) → Db → Db
run_alias_commands u [] db = db
run_alias_commands u ((ctx, customer, operation_id, command) ∷ rest) db =
    run_alias_commands u rest (after db (run_alias_command u ctx customer operation_id command db))

run-AliasesBounded :
    (u : Unicode) (ctx : TenantContext) (customer operation_id : ℕ) (command : AliasCommand)
    → Sustains AliasesBounded (run_alias_command u ctx customer operation_id command)
run-AliasesBounded u ctx customer operation_id (add alias) =
    add_alias-AliasesBounded ctx customer u alias operation_id
run-AliasesBounded u ctx customer operation_id (respell id alias) =
    update_alias-AliasesBounded ctx customer u id alias operation_id
run-AliasesBounded u ctx customer operation_id (retire id reason) =
    deactivate_alias-AliasesBounded ctx customer id reason operation_id

after-AliasesBounded :
    (m : Action Entity) (db : Db) (r : Result (Entity × Db))
    → Sustains AliasesBounded m
    → m db ≡ r
    → AliasesBounded db
    → AliasesBounded (after db r)
after-AliasesBounded m db (ok r) k e b = k db r.1 r.0 b e
after-AliasesBounded m db (err raised) k e b = b

-- From tables in which no customer has more than 20 active aliases, any sequence of requests to
-- add, respell or retire aliases, refused ones included, of any tenants and customers, leaves no
-- customer with more
pub run_alias_commands-AliasesBounded :
    (u : Unicode) (commands : List (TenantContext × ℕ × ℕ × AliasCommand)) (db : Db)
    → AliasesBounded db
    → AliasesBounded (run_alias_commands u commands db)
unfolding run_alias_commands
run_alias_commands-AliasesBounded u [] db b = b
run_alias_commands-AliasesBounded u ((ctx, customer, operation_id, command) ∷ rest) db b =
    run_alias_commands-AliasesBounded u rest _ (
      after-AliasesBounded (run_alias_command u ctx customer operation_id command) db _
        (run-AliasesBounded u ctx customer operation_id command) refl b)
