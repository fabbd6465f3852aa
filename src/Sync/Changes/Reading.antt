-- ===== src/Sync/Changes/Reading.antt =====
-- What the readers of the feed leave in the tables.
use recurring_service_platfo.Base.{
  ltb, ◌==◌, filter, All, ℕ, ◌+◌, ◌≤◌, ◌<◌, ◌≡◌, Bool, ◌&&◌, List, [], ◌∷◌, ◌++◌, arith,
}
use recurring_service_platfo.Session.{Db}
use recurring_service_platfo.Models.{TenantContext}
use recurring_service_platfo.Sync.Sorting.{limited, beyond, sort_by, All-map}
use recurring_service_platfo.Sync.Sorting.Counts.{
  count, count-++, count-sort_by, count-limited, count-filter, count-le,
}
use recurring_service_platfo.Sync.Sorting.Pages.{
  All-beyond, All-limited, All-sort_by, All-both, Distinct, All-newer, sort_by-StrictlyAscending,
  beyond-full,
}
use recurring_service_platfo.Sync.Changes.{
  SyncEntity, tenant_feed, customer_feed, record_feed, payment_feed, statement_feed, sync_entities,
  Change, version_of, table_rows, read_rows, merged_rows,
}

-- Every row of the tenant in the tables of the feed.
abbrev pub all_rows : List SyncEntity → ℕ → Db → List Change
all_rows [] tenant db = []
all_rows (e ∷ es) tenant db = table_rows e tenant db ++ all_rows es tenant db

abbrev pub feed_rows : TenantContext → Db → List Change
feed_rows ctx db = all_rows sync_entities ctx.tenant_id db

abbrev pub is_newer : (Change → Bool) → ℕ → Change → Bool
is_newer p since x = p x && ltb since (version_of x)

-- What was read of some rows, with the rows that were left: so many rows that were read are below
-- each of these.
pub record Reading (since n : ℕ) (read rows : List Change) : Type 0 where
  pub rest : List Change
  pub newer : All (λ x. since < version_of x) read
  pub counts : (p : Change → Bool) → count p read + count p rest ≡ count (is_newer p since) rows
  pub above :
      All
        (λ z. (since < version_of z) × (n ≤ count (λ y. ltb (version_of y) (version_of z)) read))
        rest

All-++ : (P : Change → Type 0) (xs ys : List Change) → All P xs → All P ys → All P (xs ++ ys)
All-++ P [] ys h k = k
All-++ P (x ∷ xs) ys h k = (h.0, All-++ P xs ys h.1 k)

Reading-++ :
    (since n : ℕ) (read rows read' rows' : List Change)
    → Reading since n read rows
    → Reading since n read' rows'
    → Reading since n (read ++ read') (rows ++ rows')
Reading-++ since n read rows read' rows' a b = record {
  rest = a.rest ++ b.rest;
  newer = All-++ (λ x. since < version_of x) read read' a.newer b.newer;
  counts = λ p. omega (
    arith,
    count-++ p read read',
    count-++ p a.rest b.rest,
    count-++ (is_newer p since) rows rows',
    a.counts p,
    b.counts p,
  );
  above =
      All-++ _ a.rest b.rest
        (All-map _ _ a.rest
          (λ z k.
            (k.0, omega (arith, k.1, count-++ (λ y. ltb (version_of y) (version_of z)) read read')))
          a.above)
        (All-map _ _ b.rest
          (λ z k.
            (k.0, omega (arith, k.1, count-++ (λ y. ltb (version_of y) (version_of z)) read read')))
          b.above);
}

Reading-all :
    (since n : ℕ) (rows : List Change)
    → Reading since n (filter (λ c. ltb since (version_of c)) rows) rows
Reading-all since n rows = record {
  rest = [];
  newer = All-newer version_of since rows;
  counts = λ p. omega (arith, count-filter p (λ c. ltb since (version_of c)) rows);
  above = tt;
}

filter-Distinct :
    (since : ℕ) (rows : List Change)
    → Distinct version_of rows
    → Distinct version_of (filter (λ c. ltb since (version_of c)) rows)
filter-Distinct since rows d k = omega (
  arith,
  d k,
  count-filter (λ x. version_of x == k) (λ c. ltb since (version_of c)) rows,
  count-le (is_newer (λ x. version_of x == k) since) (λ x. version_of x == k) rows
      (λ x e. ground arith),
)

Reading-limited :
    (since n : ℕ) (rows : List Change)
    → Distinct version_of rows
    → Reading since n
        (limited n (sort_by version_of (filter (λ c. ltb since (version_of c)) rows)))
        rows
Reading-limited since n rows d =
    let newer = filter (λ c. ltb since (version_of c)) rows in
    let ordered = sort_by version_of newer in
    let strict = sort_by-StrictlyAscending version_of newer (filter-Distinct since rows d) in
    let all_newer =
      All-sort_by (λ x. since < version_of x) version_of newer (All-newer version_of since rows) in
    record {
      rest = beyond n ordered;
      newer = All-limited (λ x. since < version_of x) n ordered all_newer;
      counts = λ p. omega (
        arith,
        count-limited p n ordered,
        count-sort_by p version_of newer,
        count-filter p (λ c. ltb since (version_of c)) rows,
      );
      above =
          All-both (λ z. since < version_of z) _ (beyond n ordered)
            (All-beyond (λ x. since < version_of x) n ordered all_newer)
            (beyond-full version_of n ordered strict);
    }

read_rows-Reading :
    (e : SyncEntity) (tenant since n : ℕ) (db : Db)
    → Distinct version_of (table_rows e tenant db)
    → Reading since n (read_rows e tenant since n db) (table_rows e tenant db)
unfolding read_rows
read_rows-Reading tenant_feed tenant since n db d =
    Reading-all since n (table_rows tenant_feed tenant db)
read_rows-Reading customer_feed tenant since n db d =
    Reading-limited since n (table_rows customer_feed tenant db) d
read_rows-Reading record_feed tenant since n db d =
    Reading-limited since n (table_rows record_feed tenant db) d
read_rows-Reading payment_feed tenant since n db d =
    Reading-limited since n (table_rows payment_feed tenant db) d
read_rows-Reading statement_feed tenant since n db d =
    Reading-limited since n (table_rows statement_feed tenant db) d

pub merged_rows-Reading :
    (es : List SyncEntity) (tenant since n : ℕ) (db : Db)
    → Distinct version_of (all_rows es tenant db)
    → Reading since n (merged_rows es tenant since n db) (all_rows es tenant db)
unfolding merged_rows
merged_rows-Reading [] tenant since n db d = Reading-all since n []
merged_rows-Reading (e ∷ es) tenant since n db d =
    let split = λ (k : ℕ).
      count-++ (λ x. version_of x == k) (table_rows e tenant db) (all_rows es tenant db) in
    Reading-++ since n (read_rows e tenant since n db) (table_rows e tenant db)
      (merged_rows es tenant since n db) (all_rows es tenant db)
      (read_rows-Reading e tenant since n db (λ k. omega (arith, d k, split k)))
      (merged_rows-Reading es tenant since n db (λ k. omega (arith, d k, split k)))
