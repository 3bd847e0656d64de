-- ===== src/Campaign/Run/Stage.antt =====
-- The bodies of the stages leave the campaign's status and its lease alone.
use noshiro_db_backend.Base.{
  ℕ, zero, suc, ◌≡◌, refl, ◌∙◌, inl, inr, Bool, true, false, ◌&&◌, Option, none, some, List, [],
  ◌∷◌, String, Bool-cases, ltb, get, ℤ, is_text, update_one,
}
use noshiro_db_backend.Campaign.Model.{
  Status, Campaign, WorkItem, World, Parameters, item_pk, item_queued,
}
use noshiro_db_backend.Campaign.Items.{
  ImportOutcome, imported, import_failed, is_not_found, max_attempts, succeed_item, skip_item,
  fail_item, record_outcome, positive_int,
}
use noshiro_db_backend.Campaign.Fetch.{
  fetch, fetch_items, fetch_item, fetch_claimed, import_claimed, expire_leases, recount,
  finish_fetch, batch, batch_size, claim_columns,
}
use noshiro_db_backend.Campaign.Discovery.{
  Page, Provider, Crawl, DiscoverResult, discover, crawl, crawl_at, crawl_page, take_page,
  store_page, truncate, finish_crawl, limit_reached, request, discovery_of, first_cursor,
  default_cursor,
}

-- The status and the lease of a campaign.
abbrev pub control : World → Status × String
control w = (w.campaign.status, w.campaign.lease_owner)

record_outcome-control :
    (now : ℕ) (campaign : Campaign) (item : WorkItem) (o : ImportOutcome) (w : World)
    → control (record_outcome now campaign item o w) ≡ control w
unfolding record_outcome succeed_item skip_item fail_item
record_outcome-control now campaign item (imported entity) w = refl
record_outcome-control now campaign item (import_failed e) w =
    elim (Bool-cases (e.is_provider_error && is_not_found e)) [
      | inl skipped ↦ rw skipped refl
      | inr other ↦ elim (Bool-cases (e.retryable && ltb item.attempt (max_attempts campaign))) [
        | inl again ↦ rw (other, again) refl
        | inr ended ↦ rw (other, ended) refl
      ]
    ]

module _ (import_item : String → World → ImportOutcome) (now : ℕ) (campaign : Campaign)
    (owner : String) where
  import_claimed-control :
      (i : Option WorkItem) (w : World)
      → control (import_claimed import_item now campaign owner i w) ≡ control w
  unfolding import_claimed
  import_claimed-control none w = refl
  import_claimed-control (some i) w =
      record_outcome-control now campaign i (import_item i.cursor w) w

  fetch_claimed-control :
      (pk : ℕ) (claim : Bool × List WorkItem) (w : World)
      → control (fetch_claimed import_item now campaign owner pk claim w) ≡ control w
  unfolding fetch_claimed
  fetch_claimed-control pk (false, items) w = refl
  fetch_claimed-control pk (true, items) w =
      import_claimed-control (get item_pk pk items) (record w { items = items })

  fetch_items-control :
      (queue : List WorkItem) (w : World)
      → control (fetch_items import_item now campaign owner queue w) ≡ control w
  unfolding fetch_items fetch_item
  fetch_items-control [] w = refl
  fetch_items-control (i ∷ queue) w =
      fetch_items-control queue (fetch_item import_item now campaign owner i w)
      ∙ fetch_claimed-control i.pk
          (update_one item_pk i.pk item_queued (claim_columns now owner) w.items) w

pub fetch-control :
    (import_item : String → World → ImportOutcome) (now due_at waiting_at : ℕ) (owner : String)
    (max_items : Option ℤ) (w : World)
    → control (fetch import_item now due_at waiting_at owner max_items w).1 ≡ control w
unfolding fetch finish_fetch recount expire_leases
fetch-control import_item now due_at waiting_at owner max_items w =
    fetch_items-control import_item now w.campaign owner
      (batch now (batch_size max_items w.campaign) (expire_leases now w)) (expire_leases now w)

-- The rows that a discovery leaves.
abbrev pub found : DiscoverResult → World
found (DiscoverResult.raised w) = w
found (DiscoverResult.discovered r) = r.1

module _ (provider : Provider) (new_pk : List WorkItem → ℕ) (now size : ℕ)
    (max_pages : Option (Option ℤ)) where
  take_page-control :
      (page : Page) (s : Crawl) → control (take_page new_pk now page s).world ≡ control s.world
  unfolding take_page store_page
  take_page-control page s = refl

  finish_crawl-control : (s : Crawl) → control (finish_crawl now s).1 ≡ control s.world
  unfolding finish_crawl
  finish_crawl-control s = refl

  crawl_page-control :
      (continue : Crawl → DiscoverResult)
      → ((t : Crawl) → control (found (continue t)) ≡ control t.world)
      → (answer : Option Page) (s : Crawl)
      → control (found (crawl_page provider new_pk now size max_pages continue answer s))
        ≡ control s.world
  unfolding crawl_page truncate
  crawl_page-control continue h none s = refl
  crawl_page-control continue h (some page) s =
      elim (Bool-cases (limit_reached max_pages (take_page new_pk now page s).discovery.pages)) [
        | inl e ↦ rw e (take_page-control page s)
        | inr e ↦ rw e (h (take_page new_pk now page s) ∙ take_page-control page s)
      ]

  crawl_at-control :
      (continue : Crawl → DiscoverResult)
      → ((t : Crawl) → control (found (continue t)) ≡ control t.world)
      → (cursor : Option String) (s : Crawl)
      → control (found (crawl_at provider new_pk now size max_pages continue cursor s))
        ≡ control s.world
  unfolding crawl_at
  crawl_at-control continue h none s = finish_crawl-control s
  crawl_at-control continue h (some cursor) s = elim (Bool-cases (is_text cursor)) [
    | inl e ↦ rw e (crawl_page-control continue h (request provider s cursor size) s)
    | inr e ↦ rw e (finish_crawl-control s)
  ]

  crawl-control :
      (n : ℕ) (s : Crawl)
      → control (found (crawl provider new_pk now size max_pages n s)) ≡ control s.world
  unfolding crawl
  crawl-control zero s = finish_crawl-control s
  crawl-control (suc n) s =
      crawl_at-control (crawl provider new_pk now size max_pages n) (crawl-control n) s.cursor s

pub discover-control :
    (provider : Provider) (new_pk : List WorkItem → ℕ) (now : ℕ) (w : World)
    → control (found (discover provider new_pk now w)) ≡ control w
unfolding discover
discover-control provider new_pk now w =
    let params : Parameters = w.campaign.parameters in
    crawl-control provider new_pk now (positive_int params.page_size 100) params.max_pages
      (positive_int params.discovery_pages_per_step 1)
      (record {
        params = params;
        discovery = discovery_of params;
        cursor = some (first_cursor (discovery_of params).next_cursor (default_cursor w.campaign));
        world = w;
      })
