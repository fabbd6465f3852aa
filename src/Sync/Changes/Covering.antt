-- ===== src/Sync/Changes/Covering.antt =====
-- A page of the feed holds the changes of an interval of versions, each once.
use recurring_service_platfo.Base.{
  ltb, leb, ◌==◌, ltb→lt, length, All, ℕ, ◌+◌, ◌≤◌, ◌<◌, ◌≡◌, refl, ap, Bool, true, false, ◌&&◌,
  List, [], ◌∷◌, arith,
}
use recurring_service_platfo.Session.{Db}
use recurring_service_platfo.Models.{TenantContext}
use recurring_service_platfo.Sync.Sorting.{limited, beyond, sort_by, StrictlyAscending, All-map}
use recurring_service_platfo.Sync.Sorting.Counts.{
  count, count-sort_by, count-limited, count-agree, All-trivial, count-none, count-all, count-le,
  length-limited, beyond-none,
}
use recurring_service_platfo.Sync.Sorting.Pages.{
  All-beyond, All-limited, All-sort_by, All-both, Distinct, sort_by-StrictlyAscending,
  limited-StrictlyAscending, beyond-above, limited-below,
}
use recurring_service_platfo.Sync.Changes.{
  sync_entities, Change, version_of, merged_rows, cursor_of, page_limit, changes_since,
}
use recurring_service_platfo.Sync.Changes.Reading.{
  feed_rows, is_newer, Reading, merged_rows-Reading,
}

-- The changes that meet a test and have a version after one and up to another.
abbrev pub is_within : (Change → Bool) → ℕ → ℕ → Change → Bool
is_within p since cursor x = is_newer p since x && leb (version_of x) cursor

cursor_of-le :
    (since : ℕ) (cs : List Change)
    → All (λ c. since < version_of c) cs
    → StrictlyAscending version_of cs
    → since ≤ cursor_of since cs
cursor_of-le since [] h s = omega arith
cursor_of-le since (c ∷ cs) h s = omega (arith, h.0, cursor_of-le (version_of c) cs s.0 s.1)

cursor_of-covers :
    (since : ℕ) (cs : List Change)
    → StrictlyAscending version_of cs
    → All (λ c. version_of c ≤ cursor_of since cs) cs
cursor_of-covers since [] s = tt
cursor_of-covers since (c ∷ cs) s =
    (cursor_of-le (version_of c) cs s.0 s.1, cursor_of-covers (version_of c) cs s.1)

cursor_of-lt :
    (since k : ℕ) (cs : List Change)
    → since < k
    → All (λ c. version_of c < k) cs
    → cursor_of since cs < k
cursor_of-lt since k [] l h = l
cursor_of-lt since k (c ∷ cs) l h = cursor_of-lt (version_of c) k cs h.0 h.1

module _ (since n : ℕ) (merged rows : List Change) (r : Reading since (n + 1) merged rows) where
  merged-Distinct : Distinct version_of rows → Distinct version_of merged
  merged-Distinct d k = omega (
    arith,
    d k,
    r.counts (λ x. version_of x == k),
    count-le (is_newer (λ x. version_of x == k) since) (λ x. version_of x == k) rows
        (λ x e. ground arith),
  )

  module _ (d : Distinct version_of rows) where
    ordered : StrictlyAscending version_of (sort_by version_of merged)
    ordered = sort_by-StrictlyAscending version_of merged (merged-Distinct d)

    -- The rows that follow the page, and those that were not read, are past its cursor.
    following_past :
        All
          (λ z. cursor_of since (limited n (sort_by version_of merged)) < version_of z)
          (beyond n (sort_by version_of merged))
    following_past =
        All-map
          (λ z.
            (since < version_of z)
            × All (λ y. version_of y < version_of z) (limited n (sort_by version_of merged)))
          _ (beyond n (sort_by version_of merged))
          (λ z k. cursor_of-lt since (version_of z) (limited n (sort_by version_of merged)) k.0 k.1)
          (All-both (λ z. since < version_of z) _ (beyond n (sort_by version_of merged))
            (All-beyond (λ z. since < version_of z) n (sort_by version_of merged)
              (All-sort_by (λ z. since < version_of z) version_of merged r.newer))
            (beyond-above version_of n (sort_by version_of merged) ordered))

    unread_past :
        All (λ z. cursor_of since (limited n (sort_by version_of merged)) < version_of z) r.rest
    unread_past =
        All-map _ _ r.rest
          (λ z k. cursor_of-lt since (version_of z) (limited n (sort_by version_of merged)) k.0 (
            limited-below version_of n (version_of z) (sort_by version_of merged) ordered (
              omega (
                arith,
                k.1,
                count-sort_by (λ y. ltb (version_of y) (version_of z)) version_of merged,
              ))))
          r.above

    page-counts :
        (p : Change → Bool)
        → count p (limited n (sort_by version_of merged))
          ≡ count (is_within p since (cursor_of since (limited n (sort_by version_of merged)))) rows
    page-counts p =
        let page = limited n (sort_by version_of merged) in
        let cursor = cursor_of since page in
        let q = λ (x : Change). p x && leb (version_of x) cursor in
        let all_in : count p page ≡ count q page =
          count-agree (λ x. version_of x ≤ cursor) p q page
            (cursor_of-covers since page
              (limited-StrictlyAscending version_of n (sort_by version_of merged) ordered))
            (λ x l. ground arith) in
        let following : count q (beyond n (sort_by version_of merged)) ≡ 0 =
          count-none (λ z. cursor < version_of z) q _ following_past (λ x l. ground arith) in
        let unread : count q r.rest ≡ 0 =
          count-none (λ z. cursor < version_of z) q _ unread_past (λ x l. ground arith) in
        let same : count (is_newer q since) rows ≡ count (is_within p since cursor) rows =
          count-agree (λ x. Unit {0}) _ _ rows (All-trivial rows) (λ x u. ground arith) in
        omega (
          arith,
          all_in,
          following,
          unread,
          same,
          r.counts q,
          count-limited q n (sort_by version_of merged),
          count-sort_by q version_of merged,
        )

  page_complete :
      (p : Change → Bool)
      → length (sort_by version_of merged) ≤ n
      → count p (limited n (sort_by version_of merged)) ≡ count (is_newer p since) rows
  page_complete p short =
      let merged_short : length merged ≤ n = omega (
        arith,
        short,
        count-all merged,
        count-all (sort_by version_of merged),
        count-sort_by (λ x. true) version_of merged,
      ) in
      let following : count p (beyond n (sort_by version_of merged)) ≡ 0 =
        ap (count p) (beyond-none n (sort_by version_of merged) short) in
      let unread : count p r.rest ≡ 0 = count-none _ p r.rest r.above (λ z k. absurd (
        omega (
          arith,
          k.1,
          merged_short,
          count-all merged,
          count-le (λ y. ltb (version_of y) (version_of z)) (λ y. true) merged (λ y e. refl),
        ))) in
      omega (
        arith,
        following,
        unread,
        r.counts p,
        count-limited p n (sort_by version_of merged),
        count-sort_by p version_of merged,
      )

  cursor-le :
      Distinct version_of rows → since ≤ cursor_of since (limited n (sort_by version_of merged))
  cursor-le d =
      cursor_of-le since (limited n (sort_by version_of merged))
        (All-limited (λ x. since < version_of x) n (sort_by version_of merged)
          (All-sort_by (λ x. since < version_of x) version_of merged r.newer))
        (limited-StrictlyAscending version_of n (sort_by version_of merged) (ordered d))

page_limit_pos : (limit : ℕ) → 1 ≤ page_limit limit
page_limit_pos limit = ground arith

module _ (ctx : TenantContext) (since limit : ℕ) (db : Db)
    (d : Distinct version_of (feed_rows ctx db)) where
  reading :
      Reading since
        (page_limit limit + 1)
        (merged_rows sync_entities ctx.tenant_id since (page_limit limit + 1) db)
        (feed_rows ctx db)
  reading = merged_rows-Reading sync_entities ctx.tenant_id since (page_limit limit + 1) db d

  pub changes_since-advances : since ≤ (changes_since ctx since limit db).cursor
  unfolding changes_since
  changes_since-advances = cursor-le since (page_limit limit) _ (feed_rows ctx db) reading d

  pub changes_since-progress :
      (changes_since ctx since limit db).has_more ≡ true
      → 1 ≤ length (changes_since ctx since limit db).changes
  unfolding changes_since
  changes_since-progress more =
      let merged =
        sort_by version_of
          (merged_rows sync_entities ctx.tenant_id since (page_limit limit + 1) db) in
      let full =
        length-limited (page_limit limit) merged (ltb→lt (page_limit limit) (length merged) more) in
      omega (arith, full, page_limit_pos limit)

-- Where no two rows of the feed have a version in common, a page of the feed holds exactly the
-- rows of the tenant with a version after the requested one and up to the cursor of the page,
-- each as often as the tables hold it: no test tells them apart by counting
pub changes_since-counts :
    (ctx : TenantContext) (since limit : ℕ) (db : Db) (p : Change → Bool)
    → Distinct version_of (feed_rows ctx db)
    → count p (changes_since ctx since limit db).changes
      ≡ count (is_within p since (changes_since ctx since limit db).cursor) (feed_rows ctx db)
unfolding changes_since
changes_since-counts ctx since limit db p d =
    page-counts since (page_limit limit)
      (merged_rows sync_entities ctx.tenant_id since (page_limit limit + 1) db) (feed_rows ctx db)
      (merged_rows-Reading sync_entities ctx.tenant_id since (page_limit limit + 1) db d) d p

pub changes_since_complete :
    (ctx : TenantContext) (since limit : ℕ) (db : Db) (p : Change → Bool)
    → Distinct version_of (feed_rows ctx db)
    → (changes_since ctx since limit db).has_more ≡ false
    → count p (changes_since ctx since limit db).changes
      ≡ count (is_newer p since) (feed_rows ctx db)
unfolding changes_since
changes_since_complete ctx since limit db p d last =
    page_complete since (page_limit limit)
      (merged_rows sync_entities ctx.tenant_id since (page_limit limit + 1) db) (feed_rows ctx db)
      (merged_rows-Reading sync_entities ctx.tenant_id since (page_limit limit + 1) db d) p
      (ground arith)
