-- ===== src/Campaign/Discovery.antt =====
-- `_discover`: one bounded step of the crawl that lists a provider's catalogue as work items
-- (src/apps/sync/services/campaign_service.py). The provider's `discover` and `discover_delta` are
-- parameters: a page, or `none` where the call raises. A row's key is a random UUID, a parameter too.
pub mod Window
pub mod Complete
pub mod Rows
use noshiro_db_backend.Base.{
  ℕ, zero, suc, ◌+◌, ◌%◌, max, Bool, true, false, ◌&&◌, ◌||◌, not, Option, none, some, List, [],
  ◌∷◌, ◌++◌, String, ltb, leb, ◌==◌, str_eq, is_text, is_some, or_default, if◌then◌else◌,
  exists_where, length, ℤ,
}
use noshiro_db_backend.Campaign.Model.{
  CampaignType, Discovery, Parameters, Campaign, ItemStatus, WorkItem, World,
}
use noshiro_db_backend.Campaign.Items.{positive_int}

-- `CatalogPage` and `DeltaPage`. `watermark` is the number that the page's watermark spells, where
-- it has one and it is a text of digits.
pub record Page : Type 0 where
  pub external_ids : List String
  pub next_cursor : Option String
  pub total_count : Option ℕ
  pub watermark : Option ℕ

-- `CampaignProvider`, of its discovery. `discover_delta` is `none` where the provider has none.
pub record Provider : Type 0 where
  pub discover : World → String → ℕ → Option Page
  pub discover_delta : Option (World → ℕ → String → ℕ → Option Page)
  pub discovery_complete : Bool

-- `bool(cursor)`
abbrev pub has_cursor : Option String → Bool
has_cursor none = false
has_cursor (some cursor) = is_text cursor

abbrev pub is_incremental : CampaignType → Bool
is_incremental CampaignType.incremental = true
is_incremental _ = false

-- `_default_cursor`
unfoldable pub default_cursor : Campaign → String
default_cursor c =
    if str_eq c.provider_slug "bangumi"
    then (if is_incremental c.campaign_type then "0" else "1:0")
    else "1"

-- `_accumulate_watermark`
unfoldable pub accumulate_watermark : Option ℕ → Option ℕ → Option ℕ
accumulate_watermark pending none = pending
accumulate_watermark none (some candidate) = some candidate
accumulate_watermark (some pending) (some candidate) =
    if ltb pending candidate then some candidate else some pending

-- `total_pages % window_pages == 0`, of a positive divisor.
abbrev pub at_window : ℕ → ℕ → Bool
at_window total_pages zero = false
at_window total_pages (suc n) = (total_pages % suc n) == 0

-- `_promote_delta_window`: the parameters and the discovery afterwards.
unfoldable pub promote_delta_window : Parameters → Discovery → ℕ → ℕ → Parameters × Discovery
unfolding positive_int
promote_delta_window params discovery pending total_pages =
    if has_cursor discovery.next_cursor
      && ltb (or_default params.watermark 0) pending
      && at_window total_pages (positive_int params.delta_window_pages 80)
    then (
      record params { watermark = some pending; pending_watermark = none },
      record discovery { next_cursor = some "1" },
    )
    else (params, discovery)

-- What a page's watermark does in an incremental campaign.
unfoldable pub take_watermark : Option ℕ → Parameters → Discovery → ℕ → Parameters × Discovery
take_watermark none params discovery total_pages = (params, discovery)
take_watermark (some pending) params discovery total_pages =
    promote_delta_window (record params { pending_watermark = some pending }) discovery pending
      total_pages

-- A row of `bulk_create`, with the model's defaults.
abbrev pub new_item : ℕ → ℕ → String → WorkItem
new_item new_pk page cursor = record {
  pk = new_pk;
  shard = page;
  cursor = cursor;
  status = ItemStatus.queued;
  result = none;
  error = "";
  attempt = 0;
  next_retry_at = none;
  last_error_code = "";
  lease_owner = "";
  lease_expires_at = none;
  ai_processed_at = none;
  ai_enriched_at = none;
  started_at = none;
  finished_at = none;
}

-- The unique constraint on shard and cursor.
abbrev pub conflicts : ℕ → String → WorkItem → Bool
conflicts page cursor i = i.shard == page && str_eq i.cursor cursor

-- `bulk_create(…, ignore_conflicts=True)`. `new_pk` gives a key for a row that joins the given ones.
unfoldable pub bulk_create : (List WorkItem → ℕ) → ℕ → List String → List WorkItem → List WorkItem
bulk_create new_pk page [] items = items
bulk_create new_pk page (cursor ∷ rest) items = bulk_create new_pk page rest (
    if exists_where (conflicts page cursor) items
    then items
    else items ++ (new_item (new_pk items) page cursor ∷ []))

-- The variables of the crawl: `params`, `discovery`, `cursor` and the rows.
pub record Crawl : Type 0 where
  pub params : Parameters
  pub discovery : Discovery
  pub cursor : Option String
  pub world : World

-- `campaign.save(update_fields=["parameters", "total_items", "updated_at"])`
abbrev save_crawl : ℕ → Parameters → ℕ → World → World
save_crawl now params total w = record w {
  campaign = record (w.campaign) { parameters = params; total_items = total; updated_at = now };
}

-- `campaign.total_items` after a page.
unfoldable total_after : Option ℕ → ℕ → ℕ → ℕ
total_after (some total_count) total counted = max total total_count
total_after none total counted = counted

-- The rest of a page's turn, of the parameters and the discovery after its watermark.
unfoldable pub store_page : ℕ → Page → List WorkItem → Parameters × Discovery → World → Crawl
unfolding total_after
store_page now page items (params, discovery) w =
    let stored : Parameters = record params { discovery = some discovery } in
    record {
      params = stored;
      discovery = discovery;
      cursor = discovery.next_cursor;
      world =
          save_crawl now stored (total_after page.total_count w.campaign.total_items (length items))
            (record w { items = items });
    }

-- One turn of the loop, up to its save.
unfoldable pub take_page : (List WorkItem → ℕ) → ℕ → Page → Crawl → Crawl
take_page new_pk now page s =
    let total_pages : ℕ = s.discovery.pages + 1 in
    let discovery : Discovery = record (s.discovery) {
      next_cursor = page.next_cursor;
      pages = total_pages;
    } in
    store_page now page (bulk_create new_pk total_pages page.external_ids s.world.items)
      (take_watermark
        (if is_incremental s.world.campaign.campaign_type
          then accumulate_watermark s.params.pending_watermark page.watermark
          else none)
        s.params discovery total_pages)
      s.world

-- `max_pages is not None and total_pages >= self._positive_int(max_pages, total_pages)`
unfoldable pub limit_reached : Option (Option ℤ) → ℕ → Bool
unfolding positive_int
limit_reached none total_pages = false
limit_reached (some value) total_pages = leb (positive_int value total_pages) total_pages

-- The stop at `max_pages`.
unfoldable pub truncate : ℕ → Crawl → World
truncate now s =
    let stored : Parameters = record (s.params) {
      discovery =
          some (record (s.discovery) { truncated = has_cursor s.cursor; next_cursor = none });
      pending_watermark = none;
    } in
    record (s.world) {
      campaign = record (s.world.campaign) { parameters = stored; updated_at = now };
    }

-- The end of the loop at an empty cursor or after the step's pages.
unfoldable pub finish_crawl : ℕ → Crawl → Bool × World
finish_crawl now s =
    let ends : Bool = not (has_cursor s.cursor) in
    let stored : Parameters =
      if is_incremental s.world.campaign.campaign_type && ends
      then record (s.params) {
        pending_watermark = some (or_default s.params.pending_watermark now);
      }
      else s.params in
    (ends, save_crawl now stored (length s.world.items) s.world)

-- The request of a page.
unfoldable pub request : Provider → Crawl → String → ℕ → Option Page
request provider s cursor size =
    elim (if is_incremental s.world.campaign.campaign_type then provider.discover_delta else none) [
      | none ↦ provider.discover s.world cursor size
      | some delta ↦ delta s.world (or_default s.params.watermark 0) cursor size
    ]

-- What `_discover` returns with the rows; `raised` where a request raises.
pub data DiscoverResult : Type 0 where
  discovered : Bool × World → DiscoverResult
  raised : World → DiscoverResult

module _ (provider : Provider) (new_pk : List WorkItem → ℕ) (now size : ℕ)
    (max_pages : Option (Option ℤ)) where
  -- The body of the loop after the request; `continue` is the rest of the loop.
  unfoldable pub crawl_page : (Crawl → DiscoverResult) → Option Page → Crawl → DiscoverResult
  crawl_page continue none s = DiscoverResult.raised s.world
  crawl_page continue (some page) s =
      let t : Crawl = take_page new_pk now page s in
      if limit_reached max_pages t.discovery.pages
      then DiscoverResult.discovered (true, truncate now t)
      else continue t

  unfoldable pub crawl_at : (Crawl → DiscoverResult) → Option String → Crawl → DiscoverResult
  crawl_at continue none s = DiscoverResult.discovered (finish_crawl now s)
  crawl_at continue (some cursor) s =
      if is_text cursor
      then crawl_page continue (request provider s cursor size) s
      else DiscoverResult.discovered (finish_crawl now s)

  -- The loop; the number is the pages that the step may still take.
  unfoldable pub crawl : ℕ → Crawl → DiscoverResult
  crawl zero s = DiscoverResult.discovered (finish_crawl now s)
  crawl (suc n) s = crawl_at (crawl n) s.cursor s

-- `dict(params.get("discovery") or {})`
abbrev pub discovery_of : Parameters → Discovery
discovery_of params =
    or_default params.discovery (record { next_cursor = none; pages = 0; truncated = false })

-- `discovery.get("next_cursor") or default_cursor`
abbrev pub first_cursor : Option String → String → String
first_cursor none default = default
first_cursor (some cursor) default = if is_text cursor then cursor else default

-- `_discover`
unfoldable pub discover : Provider → (List WorkItem → ℕ) → ℕ → World → DiscoverResult
unfolding positive_int default_cursor
discover provider new_pk now w =
    let params : Parameters = w.campaign.parameters in
    let discovery : Discovery = discovery_of params in
    crawl provider new_pk now (positive_int params.page_size 100) params.max_pages
      (positive_int params.discovery_pages_per_step 1)
      (record {
        params = params;
        discovery = discovery;
        cursor = some (first_cursor discovery.next_cursor (default_cursor w.campaign));
        world = w;
      })
