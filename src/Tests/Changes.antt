-- ===== src/Tests/Changes.antt =====
-- The change feed at concrete tables.
use recurring_service_platfo.Base.{leb, ◌==◌, ◌<◌, ◌≡◌, refl, true, [], ◌∷◌, map, arith}
use recurring_service_platfo.Session.{Db}
use recurring_service_platfo.Sync.Sorting.Counts.{count}
use recurring_service_platfo.Sync.Sorting.Pages.{Distinct}
use recurring_service_platfo.Sync.Changes.{
  version_of, table_rows, read_rows, merged_rows, max_version, head_of, changes_since,
}
use recurring_service_platfo.Sync.Changes.Reading.{feed_rows, is_newer}
use recurring_service_platfo.Sync.Changes.Covering.{is_within, changes_since-counts}
use recurring_service_platfo.Sync.Changes.Pulling.{pull_all, pull_all-once}
use recurring_service_platfo.Tests.Sample.{ctx, tenant, blank_db, customer}

abbrev feed_db : Db
feed_db = record blank_db {
  tenants = record tenant { row_version = 4 } ∷ [];
  customers =
      record customer { id = 6; row_version = 9 }
      ∷ record customer { id = 8; tenant_id = 2; row_version = 7 }
      ∷ record customer { row_version = 2 }
      ∷ [];
}

-- The customer of the other tenant is left out, and the third change is for the next page.
first_page : map version_of (changes_since ctx 0 2 feed_db).changes ≡ 2 ∷ 4 ∷ []
unfolding changes_since merged_rows read_rows table_rows head_of max_version
first_page = refl

first_page_more : (changes_since ctx 0 2 feed_db).has_more ≡ true
unfolding changes_since merged_rows read_rows table_rows head_of max_version
first_page_more = refl

second_page : map version_of (changes_since ctx 4 2 feed_db).changes ≡ 9 ∷ []
unfolding changes_since merged_rows read_rows table_rows head_of max_version
second_page = refl

whole_head : (changes_since ctx 4 2 feed_db).head ≡ 9
unfolding changes_since merged_rows read_rows table_rows head_of max_version
whole_head = refl

feed-Distinct : Distinct version_of (feed_rows ctx feed_db)
unfolding table_rows
feed-Distinct k = ground arith

changes_since-counts_example :
    count (λ x. leb 3 (version_of x)) (changes_since ctx 0 2 feed_db).changes
    ≡ count
        (is_within (λ x. leb 3 (version_of x)) 0 (changes_since ctx 0 2 feed_db).cursor)
        (feed_rows ctx feed_db)
changes_since-counts_example =
    changes_since-counts ctx 0 2 feed_db (λ x. leb 3 (version_of x)) feed-Distinct

few_rows : count (is_newer (λ x. true) 0) (feed_rows ctx feed_db) < 4
unfolding table_rows
few_rows = omega arith

pull_all-once_example :
    count (λ x. version_of x == 9) (pull_all 4 ctx 0 2 feed_db)
    ≡ count (is_newer (λ x. version_of x == 9) 0) (feed_rows ctx feed_db)
pull_all-once_example =
    pull_all-once 4 ctx 0 2 feed_db (λ x. version_of x == 9) feed-Distinct few_rows
