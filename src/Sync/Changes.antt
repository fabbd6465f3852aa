-- ===== src/Sync/Changes.antt =====
-- backend/app/sync/changes.py: the change feed of a tenant. The payload of a change is its row, and
-- that of a customer has the aliases.
pub mod Reading
pub mod Covering
pub mod Pulling
use recurring_service_platfo.Session.{Db}
use recurring_service_platfo.Base.{
  ltb, leb, ◌==◌, if◌then◌else◌, length, filter, ℕ, zero, ◌+◌, ◌-◌, ◌/◌, ap, Bool, not, List, [],
  ◌∷◌, ◌++◌, map,
}
use recurring_service_platfo.Core.Text.{Text}
use recurring_service_platfo.Models.{
  TenantContext, Customer, sync, DailyServiceRecord, Tenant, other, Payment, payment, Statement,
  Entity,
}
use recurring_service_platfo.Customers.Commands.{alias_texts}
use recurring_service_platfo.Sync.Sorting.{limited, sort_by}

abbrev pub max_page_limit : ℕ
max_page_limit = 1000

pub data SyncEntity : Type 0 where
  tenant_feed customer_feed record_feed payment_feed statement_feed : SyncEntity

abbrev pub sync_entities : List SyncEntity
sync_entities = tenant_feed ∷ customer_feed ∷ record_feed ∷ payment_feed ∷ statement_feed ∷ []

pub data Change : Type 0 where
  tenant_change : Tenant → Change
  customer_change : Customer → List Text → Change
  record_change : DailyServiceRecord → Change
  payment_change : Payment → Change
  statement_change : Statement → Change

abbrev pub version_of : Change → ℕ
version_of (tenant_change t) = t.row_version
version_of (customer_change c aliases) = c.row_version
version_of (record_change r) = r.row_version
version_of (payment_change p) = p.row_version
version_of (statement_change s) = s.row_version

-- The rows of the tenant in one table, before the other clauses of a query.
unfoldable pub table_rows : SyncEntity → ℕ → Db → List Change
table_rows tenant_feed tenant db = map tenant_change (filter (λ t. t.id == tenant) db.tenants)
table_rows customer_feed tenant db =
    map (λ c. customer_change c (alias_texts tenant c.id db))
      (filter (λ c. c.tenant_id == tenant) db.customers)
table_rows record_feed tenant db =
    map record_change (filter (λ r. r.tenant_id == tenant) db.records)
table_rows payment_feed tenant db =
    map payment_change (filter (λ p. p.tenant_id == tenant) db.payments)
table_rows statement_feed tenant db =
    map statement_change (filter (λ s. s.tenant_id == tenant) db.statements)

abbrev pub newer_rows : SyncEntity → ℕ → ℕ → Db → List Change
newer_rows entity tenant since db =
    filter (λ c. ltb since (version_of c)) (table_rows entity tenant db)

-- The primary key leaves one row of the tenant, which is not limited.
unfoldable pub read_rows : SyncEntity → ℕ → ℕ → ℕ → Db → List Change
read_rows tenant_feed tenant since limit db = newer_rows tenant_feed tenant since db
read_rows entity tenant since limit db =
    limited limit (sort_by version_of (newer_rows entity tenant since db))

unfoldable pub merged_rows : List SyncEntity → ℕ → ℕ → ℕ → Db → List Change
merged_rows [] tenant since limit db = []
merged_rows (e ∷ es) tenant since limit db =
    read_rows e tenant since limit db ++ merged_rows es tenant since limit db

unfoldable pub max_version : List Change → ℕ
max_version [] = 0
max_version (c ∷ cs) =
    let rest = max_version cs in if leb (version_of c) rest then rest else version_of c

unfoldable pub head_of : List SyncEntity → ℕ → Db → ℕ
head_of [] tenant db = 0
head_of (e ∷ es) tenant db =
    let own = max_version (table_rows e tenant db) in
    let rest = head_of es tenant db in if leb own rest then rest else own

abbrev pub current_head : TenantContext → Db → ℕ
current_head ctx db = head_of sync_entities ctx.tenant_id db

-- The version of the last row handed over.
abbrev pub cursor_of : ℕ → List Change → ℕ
cursor_of since [] = since
cursor_of since (c ∷ cs) = cursor_of (version_of c) cs

pub record ChangesPage : Type 0 where
  pub since : ℕ
  pub cursor : ℕ
  pub has_more : Bool
  pub head : ℕ
  pub changes : List Change

-- `max(1, min(limit, MAX_PAGE_LIMIT))`; a limit below zero counts as zero.
abbrev pub page_limit : ℕ → ℕ
page_limit limit =
    let low = if leb limit max_page_limit then limit else max_page_limit in
    if leb low 1 then 1 else low

abbrev pub page_of : ℕ → ℕ → ℕ → List Change → ChangesPage
page_of since limit head merged = record {
  since = since;
  cursor = cursor_of since (limited limit merged);
  has_more = ltb limit (length merged);
  head = head;
  changes = limited limit merged;
}

unfoldable pub changes_since : TenantContext → ℕ → ℕ → Db → ChangesPage
changes_since ctx since limit db =
    page_of since (page_limit limit) (current_head ctx db)
      (sort_by version_of (merged_rows sync_entities ctx.tenant_id since (page_limit limit + 1) db))
