-- ===== src/Sync/Changes/Pulling.antt =====
-- frontend/src/sync/engine.ts, the loop of `pull`: the next page from the cursor of the last one.
use recurring_service_platfo.Base.{
  if◌then◌else◌, Bool-cases, ℕ, zero, suc, ◌+◌, ◌≤◌, ◌<◌, ◌≡◌, inl, inr, Bool, true, List, [], ◌∷◌,
  ◌++◌, arith,
}
use recurring_service_platfo.Session.{Db}
use recurring_service_platfo.Models.{TenantContext}
use recurring_service_platfo.Sync.Sorting.Counts.{count, count-++, count-all}
use recurring_service_platfo.Sync.Sorting.Pages.{Distinct}
use recurring_service_platfo.Sync.Changes.{Change, version_of, changes_since}
use recurring_service_platfo.Sync.Changes.Reading.{feed_rows, is_newer}
use recurring_service_platfo.Sync.Changes.Covering.{
  is_within, changes_since-advances, changes_since-progress, changes_since-counts,
  changes_since_complete,
}

-- At most `fuel` pages, until one says that it is the last.
unfoldable pub pull_all : ℕ → TenantContext → ℕ → ℕ → Db → List Change
pull_all zero ctx since limit db = []
pull_all (suc fuel) ctx since limit db =
    let page = changes_since ctx since limit db in
    let rest = pull_all fuel ctx page.cursor limit db in
    if page.has_more then page.changes ++ rest else page.changes

split_at :
    (p : Change → Bool) (since cursor : ℕ) (rows : List Change)
    → since ≤ cursor
    → count (is_within p since cursor) rows + count (is_newer p cursor) rows
      ≡ count (is_newer p since) rows
split_at p since cursor [] h = omega arith
split_at p since cursor (x ∷ xs) h = ground (arith, split_at p since cursor xs h)

-- Where no two rows of the feed have a version in common and the tables stay as they are, a
-- client that asks again from the cursor of each page ends within one request more than there are
-- newer rows, for every page limit, and has got every newer row of the tenant exactly once
pub pull_all-once :
    (fuel : ℕ) (ctx : TenantContext) (since limit : ℕ) (db : Db) (p : Change → Bool)
    → Distinct version_of (feed_rows ctx db)
    → count (is_newer (λ x. true) since) (feed_rows ctx db) < fuel
    → count p (pull_all fuel ctx since limit db) ≡ count (is_newer p since) (feed_rows ctx db)
unfolding pull_all
pull_all-once zero ctx since limit db p d enough = absurd (omega arith)
pull_all-once (suc fuel) ctx since limit db p d enough =
    let page = changes_since ctx since limit db in
    elim (Bool-cases page.has_more) [
      | inr last ↦ rw last (changes_since_complete ctx since limit db p d last)
      | inl more ↦
          let advances = changes_since-advances ctx since limit db d in
          let fewer : count (is_newer (λ x. true) page.cursor) (feed_rows ctx db) < fuel = omega (
            arith,
            enough,
            split_at (λ x. true) since page.cursor (feed_rows ctx db) advances,
            changes_since-counts ctx since limit db (λ x. true) d,
            count-all page.changes,
            changes_since-progress ctx since limit db d more,
          ) in
          rw more (
            omega (
              arith,
              count-++ p page.changes (pull_all fuel ctx page.cursor limit db),
              changes_since-counts ctx since limit db p d,
              pull_all-once fuel ctx page.cursor limit db p d fewer,
              split_at p since page.cursor (feed_rows ctx db) advances,
            ))
    ]
