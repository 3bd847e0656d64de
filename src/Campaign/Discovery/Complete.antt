-- ===== src/Campaign/Discovery/Complete.antt =====
-- What a discovery step leaves: the cursor to go on from, and every listed identifier as a row.
use noshiro_db_backend.Base.{
  ℕ, zero, suc, ◌≡◌, refl, ◌∙◌, ap, inl, inr, true, false, ◌&&◌, not, Option, none, some, List,
  String, arith, str_eq, is_text, Bool-cases, ℤ, pos, negsuc,
}
use noshiro_db_backend.Campaign.Model.{Discovery, Parameters, Campaign, WorkItem, World}
use noshiro_db_backend.Campaign.Items.{positive_int}
use noshiro_db_backend.Campaign.Discovery.{
  Page, Provider, Crawl, DiscoverResult, has_cursor, is_incremental, store_page, take_page,
  truncate, finish_crawl, request, crawl_page, crawl_at, crawl, discover, limit_reached,
  default_cursor, first_cursor, discovery_of,
}

-- The rows hold the parameters of the crawl, and its cursor is the stored one.
abbrev IsStored : Crawl → Type 0
IsStored s =
    (s.world.campaign.parameters.discovery ≡ some s.discovery)
    × (s.params ≡ s.world.campaign.parameters)
    × (s.cursor ≡ s.discovery.next_cursor)

-- The answer is true when there is nothing to go on from, and false when there is; the crawl is
-- marked truncated only if it ended.
abbrev pub EndsAt : DiscoverResult → Type 0
EndsAt (DiscoverResult.raised w) = Unit
EndsAt (DiscoverResult.discovered (done, w)) =
    (d : Discovery) × (w.campaign.parameters.discovery ≡ some d)
    × (has_cursor d.next_cursor ≡ not done)

module _ (provider : Provider) (new_pk : List WorkItem → ℕ) (now size : ℕ)
    (max_pages : Option (Option ℤ)) where
  finish_crawl-EndsAt :
      (s : Crawl) → IsStored s → EndsAt (DiscoverResult.discovered (finish_crawl now s))
  unfolding finish_crawl
  finish_crawl-EndsAt s (stored, same, at) =
      elim (Bool-cases
        (is_incremental s.world.campaign.campaign_type && not (has_cursor s.cursor))) [
          | inl e ↦
              rw e
                (s.discovery, ap (λ p. p.discovery) same ∙ stored, ground (arith, ap has_cursor at))
          | inr e ↦
              rw e
                (s.discovery, ap (λ p. p.discovery) same ∙ stored, ground (arith, ap has_cursor at))
        ]

  -- A page that was taken is stored.
  store_page-IsStored :
      (page : Page) (items : List WorkItem) (r : Parameters × Discovery) (w : World)
      → IsStored (store_page now page items r w)
  unfolding store_page
  store_page-IsStored page items r w = (refl, refl, refl)

  take_page-IsStored : (page : Page) (s : Crawl) → IsStored (take_page new_pk now page s)
  unfolding take_page store_page
  take_page-IsStored page s = (refl, refl, refl)

  truncate-EndsAt : (s : Crawl) → EndsAt (DiscoverResult.discovered (true, truncate now s))
  unfolding truncate
  truncate-EndsAt s =
      (record (s.discovery) { truncated = has_cursor s.cursor; next_cursor = none }, refl, refl)

  crawl_page-EndsAt :
      (continue : Crawl → DiscoverResult)
      → ((t : Crawl) → IsStored t → EndsAt (continue t))
      → (answer : Option Page) (s : Crawl)
      → EndsAt (crawl_page provider new_pk now size max_pages continue answer s)
  unfolding crawl_page
  crawl_page-EndsAt continue h none s = tt
  crawl_page-EndsAt continue h (some page) s =
      elim (Bool-cases (limit_reached max_pages (take_page new_pk now page s).discovery.pages)) [
        | inl reached ↦ rw reached (truncate-EndsAt (take_page new_pk now page s))
        | inr below ↦ rw below (h (take_page new_pk now page s) (take_page-IsStored page s))
      ]

  crawl_at-EndsAt :
      (continue : Crawl → DiscoverResult)
      → ((t : Crawl) → IsStored t → EndsAt (continue t))
      → (cursor : Option String) (s : Crawl)
      → ((has_cursor cursor ≡ false) → EndsAt (DiscoverResult.discovered (finish_crawl now s)))
      → EndsAt (crawl_at provider new_pk now size max_pages continue cursor s)
  unfolding crawl_at
  crawl_at-EndsAt continue h none s e = e refl
  crawl_at-EndsAt continue h (some cursor) s e = elim (Bool-cases (is_text cursor)) [
    | inl text ↦ rw text (crawl_page-EndsAt continue h (request provider s cursor size) s)
    | inr empty ↦ rw empty (e empty)
  ]

  crawl-EndsAt :
      (n : ℕ) (s : Crawl) → IsStored s → EndsAt (crawl provider new_pk now size max_pages n s)
  unfolding crawl
  crawl-EndsAt zero s h = finish_crawl-EndsAt s h
  crawl-EndsAt (suc n) s h =
      crawl_at-EndsAt (crawl provider new_pk now size max_pages n) (λ t. crawl-EndsAt n t) s.cursor
        s (λ _. finish_crawl-EndsAt s h)

-- The step takes at least one page, whatever its parameters.
positive : (value : Option ℤ) (default : ℕ) → (n : ℕ) × (positive_int value (suc default) ≡ suc n)
unfolding positive_int
positive none default = (default, refl)
positive (some (negsuc n)) default = (default, refl)
positive (some (pos zero)) default = (default, refl)
positive (some (pos (suc n))) default = (n, ground arith)

default_cursor-is_text : (c : Campaign) → is_text (default_cursor c) ≡ true
unfolding default_cursor
default_cursor-is_text c = elim (Bool-cases (str_eq c.provider_slug "bangumi")) [
  | inl e ↦ elim (Bool-cases (is_incremental c.campaign_type)) [
    | inl i ↦ rw (e, i) refl
    | inr i ↦ rw (e, i) refl
  ]
  | inr e ↦ rw e refl
]

first_cursor-is_text :
    (cursor : Option String) (default : String)
    → is_text default ≡ true
    → is_text (first_cursor cursor default) ≡ true
first_cursor-is_text none default h = h
first_cursor-is_text (some cursor) default h = elim (Bool-cases (is_text cursor)) [
  | inl e ↦ rw e e
  | inr e ↦ rw e h
]

-- A discovery step that returns stores a discovery, and answers true exactly when that has no
-- cursor to go on from.
pub discover-EndsAt :
    (provider : Provider) (new_pk : List WorkItem → ℕ) (now : ℕ) (w : World)
    → EndsAt (discover provider new_pk now w)
unfolding discover crawl
discover-EndsAt provider new_pk now w =
    let params : Parameters = w.campaign.parameters in
    let (n, e) = positive params.discovery_pages_per_step 0 in
    let first : String =
      first_cursor (discovery_of params).next_cursor (default_cursor w.campaign) in
    let s : Crawl = record {
      params = params;
      discovery = discovery_of params;
      cursor = some first;
      world = w;
    } in
    let text : is_text first ≡ true =
      first_cursor-is_text (discovery_of params).next_cursor (default_cursor w.campaign)
        (default_cursor-is_text w.campaign) in
    let size : ℕ = positive_int params.page_size 100 in
    rw e (
      crawl_at-EndsAt provider new_pk now size params.max_pages
        (crawl provider new_pk now size params.max_pages n)
        (λ t. crawl-EndsAt provider new_pk now size params.max_pages n t) (some first) s
        (λ empty. absurd (cc)))
