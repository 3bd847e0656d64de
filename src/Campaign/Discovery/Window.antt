-- ===== src/Campaign/Discovery/Window.antt =====
-- The watermark of an incremental crawl (`_accumulate_watermark`, `_promote_delta_window`).
use noshiro_db_backend.Base.{
  ℕ, ◌+◌, ◌≤◌, ◌≡◌, refl, inl, inr, Bool, true, ◌&&◌, Option, none, some, List, arith, ltb,
  or_default, Bool-cases, max, &&-left, &&-right, ltb→lt,
}
use noshiro_db_backend.Campaign.Model.{Discovery, Parameters, WorkItem}
use noshiro_db_backend.Campaign.Items.{positive_int}
use noshiro_db_backend.Campaign.Discovery.{
  Page, Crawl, is_incremental, accumulate_watermark, has_cursor, at_window, promote_delta_window,
  take_watermark, store_page, take_page,
}

-- The watermark in force, and the higher of it and the pending one.
abbrev pub current : Parameters → ℕ
current p = or_default p.watermark 0

abbrev pub reached : Parameters → ℕ
reached p = max (current p) (or_default p.pending_watermark 0)

accumulate-bounds :
    (pending : Option ℕ) (candidate : ℕ)
    → (n : ℕ) × (accumulate_watermark pending (some candidate) ≡ some n)
      × (candidate ≤ n)
      × (or_default pending 0 ≤ n)
unfolding accumulate_watermark
accumulate-bounds none candidate = (candidate, refl, omega arith, omega arith)
accumulate-bounds (some p) candidate = elim (Bool-cases (ltb p candidate)) [
  | inl lower ↦ rw lower (candidate, refl, omega arith, ground arith)
  | inr higher ↦ rw higher (p, refl, ground arith, omega arith)
]

-- The guard of `_promote_delta_window`.
abbrev promotes : Parameters → Discovery → ℕ → ℕ → Bool
promotes params discovery pending total_pages =
    has_cursor discovery.next_cursor
    && ltb (current params) pending
    && at_window total_pages (positive_int params.delta_window_pages 80)

-- A pending watermark is kept or put in force, and the watermark in force does not go down.
promote-reached :
    (params : Parameters) (discovery : Discovery) (pending total_pages : ℕ)
    → params.pending_watermark ≡ some pending
    → (current params ≤ current (promote_delta_window params discovery pending total_pages).0)
      × (pending ≤ reached (promote_delta_window params discovery pending total_pages).0)
unfolding promote_delta_window
promote-reached params discovery pending total_pages e =
    elim (Bool-cases (promotes params discovery pending total_pages)) [
      | inl up ↦ rw up (
          let higher : ltb (current params) pending ≡ true =
            &&-right (has_cursor discovery.next_cursor) (ltb (current params) pending) (
              &&-left (has_cursor discovery.next_cursor && ltb (current params) pending)
                (at_window total_pages (positive_int params.delta_window_pages 80)) up) in
          (omega (arith, ltb→lt (current params) pending higher), omega arith))
      | inr down ↦ rw (down, e) (omega arith, omega arith)
    ]

take_watermark-reached :
    (params : Parameters) (discovery : Discovery) (candidate total_pages : ℕ)
    → (current params
        ≤ current
            (take_watermark
              (accumulate_watermark params.pending_watermark (some candidate))
              params
              discovery
              total_pages).0)
      × (candidate
          ≤ reached
              (take_watermark
                (accumulate_watermark params.pending_watermark (some candidate))
                params
                discovery
                total_pages).0)
unfolding take_watermark
take_watermark-reached params discovery candidate total_pages =
    let (n, e, above, old) = accumulate-bounds params.pending_watermark candidate in
    let (first, second) =
      promote-reached (record params { pending_watermark = some n }) discovery n total_pages refl in
    rw e (first, omega (arith, above, second))

-- A page of an incremental crawl: its watermark is pending or in force afterwards, and the watermark
-- in force does not go down.
take_page-watermark :
    (new_pk : List WorkItem → ℕ) (now : ℕ) (page : Page) (s : Crawl) (candidate : ℕ)
    → is_incremental s.world.campaign.campaign_type ≡ true
    → page.watermark ≡ some candidate
    → (current s.params ≤ current (take_page new_pk now page s).world.campaign.parameters)
      × (candidate ≤ reached (take_page new_pk now page s).world.campaign.parameters)
unfolding take_page store_page
take_page-watermark new_pk now page s candidate kind mark =
    rw (kind, mark)
      (take_watermark-reached s.params
        (record (s.discovery) { next_cursor = page.next_cursor; pages = s.discovery.pages + 1 })
        candidate (s.discovery.pages + 1))
