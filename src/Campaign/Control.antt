-- ===== src/Campaign/Control.antt =====
-- Pausing, resuming and cancelling a campaign, each on the locked row
-- (src/apps/sync/services/campaign_service.py).
use noshiro_db_backend.Base.{
  get, ◌==◌, Bool-cases, inl, inr, ℕ, ◌+◌, ◌≡◌, refl, Bool, true, false, Option, none, some, List,
  [], ◌∷◌, arith, is_text, if◌then◌else◌, update_where, count_where,
}
use noshiro_db_backend.Campaign.Model.{
  item_pk, Status, Discovery, ItemStatus, WorkItem, World, item_running, item_failed, item_pending,
  item_succeeded,
}

-- The statuses that `pause` accepts, which are those that `resume_paused` restores.
abbrev pub is_active : Status → Bool
is_active Status.queued = true
is_active Status.discovering = true
is_active Status.fetching = true
is_active Status.mapping = true
is_active Status.normalizing = true
is_active Status.reconciling = true
is_active Status.enriching = true
is_active Status.reviewing = true
is_active _ = false

-- `SyncCampaignService.pause`
unfoldable pub pause : ℕ → World → World
pause now w =
    let c = w.campaign in
    if is_active c.status
    then record w {
      campaign = record c {
        parameters = record (c.parameters) { paused_from = some c.status };
        status = Status.paused;
        next_run_at = none;
        updated_at = now;
      };
    }
    else w

abbrev is_paused : Status → Bool
is_paused Status.paused = true
is_paused _ = false

-- `previous if previous in valid else DISCOVERING`, where `previous` is DISCOVERING by default.
abbrev restored : Option Status → Status
restored none = Status.discovering
restored (some s) = if is_active s then s else Status.discovering

-- `SyncCampaignService.resume_paused`
unfoldable pub resume_paused : ℕ → World → World
resume_paused now w =
    let c = w.campaign in
    if is_paused c.status
    then record w {
      campaign = record c {
        status = restored c.parameters.paused_from;
        parameters = record (c.parameters) { paused_from = none };
        next_run_at = some now;
        updated_at = now;
      };
    }
    else w

abbrev is_closed : Status → Bool
is_closed Status.completed = true
is_closed Status.cancelled = true
is_closed _ = false

-- The item writes of `cancel`.
abbrev requeue : WorkItem → WorkItem
requeue i = record i { status = ItemStatus.queued; lease_owner = ""; lease_expires_at = none }

-- `SyncCampaignService.cancel`
unfoldable pub cancel : ℕ → World → World
cancel now w =
    let c = w.campaign in
    if is_closed c.status then w else record w {
      campaign = record c {
        status = Status.cancelled;
        finished_at = some now;
        next_run_at = none;
        updated_at = now;
      };
      items = update_where item_running requeue w.items;
    }

abbrev pub is_failed : Status → Bool
is_failed Status.failed = true
is_failed _ = false

-- The item writes of `resume`.
abbrev pub retry : WorkItem → WorkItem
retry i = record i {
  status = ItemStatus.queued;
  error = "";
  lease_owner = "";
  lease_expires_at = none;
  finished_at = none;
  next_retry_at = none;
  last_error_code = "";
}

-- `"discovery" not in parameters or discovery.get("next_cursor")`
abbrev discovery_open : Option Discovery → Bool
discovery_open none = true
discovery_open (some d) = elim d.next_cursor [ none ↦ false | some cursor ↦ is_text cursor ]

-- `SyncCampaignService.resume`
unfoldable pub resume : ℕ → World → World
resume now w =
    let c = w.campaign in
    if is_failed c.status
    then record w {
      campaign = record c {
        status =
            if discovery_open c.parameters.discovery then Status.discovering else Status.fetching;
        error = "";
        finished_at = none;
        updated_at = now;
      };
      items = update_where item_failed retry w.items;
    }
    else w

-- A pause and a resume bring an active campaign back to the status it had, touch no work item and
-- leave the counter of processed items.
pub resume_paused-pause :
    (now later : ℕ) (w : World)
    → is_active w.campaign.status ≡ true
    → ((pause now w).campaign.status ≡ Status.paused)
      × ((resume_paused later (pause now w)).campaign.status ≡ w.campaign.status)
      × ((resume_paused later (pause now w)).campaign.next_run_at ≡ some later)
      × ((resume_paused later (pause now w)).campaign.processed_items ≡ w.campaign.processed_items)
      × ((resume_paused later (pause now w)).items ≡ w.items)
unfolding pause resume_paused
resume_paused-pause now later w h = ground arith

count-requeue :
    (t : List WorkItem) → count_where item_running (update_where item_running requeue t) ≡ 0
count-requeue [] = refl
count-requeue (i ∷ t) = ground (arith, count-requeue t)

count-pending_requeue :
    (t : List WorkItem)
    → count_where item_pending (update_where item_running requeue t) ≡ count_where item_pending t
count-pending_requeue [] = refl
count-pending_requeue (i ∷ t) = ground (arith, count-pending_requeue t)

count-retry :
    (t : List WorkItem)
    → (count_where item_failed (update_where item_failed retry t) ≡ 0)
      × (count_where item_pending (update_where item_failed retry t)
          ≡ count_where item_pending t + count_where item_failed t)
      × (count_where item_succeeded (update_where item_failed retry t)
          ≡ count_where item_succeeded t)
count-retry [] = ground arith
count-retry (i ∷ t) = ground (arith, count-retry t)

-- After a cancellation of a campaign that is neither completed nor cancelled no item is running, and
-- the items that were queued or running are still to be done.
cancel-items :
    (now : ℕ) (w : World)
    → is_closed w.campaign.status ≡ false
    → ((cancel now w).campaign.status ≡ Status.cancelled)
      × (count_where item_running (cancel now w).items ≡ 0)
      × (count_where item_pending (cancel now w).items ≡ count_where item_pending w.items)
unfolding cancel
cancel-items now w h = ground (arith, count-requeue w.items, count-pending_requeue w.items)

get-retry :
    (t : List WorkItem) (k : ℕ) (i : WorkItem)
    → get item_pk k t ≡ some i
    → get item_pk k (update_where item_failed retry t) ≡ some (if item_failed i then retry i else i)
get-retry [] k i h = absurd (cc)
get-retry (x ∷ t) k i h = elim (Bool-cases (item_pk x == k)) [
  | inl here ↦ elim (Bool-cases (item_failed x)) [
    | inl failed ↦ ground (arith, h, here, failed)
    | inr kept ↦ ground (arith, h, here, kept)
  ]
  | inr there ↦ elim (Bool-cases (item_failed x)) [
    | inl failed ↦ rw (failed, there) (get-retry t k i (rw there at h))
    | inr kept ↦ rw (kept, there) (get-retry t k i (rw there at h))
  ]
]

-- A resume of a failed campaign makes every failed item pending, keeps the successes and leaves the
-- counter of processed items as it is. An item that had failed is queued, to be tried at once and with
-- its tries used up as before; any other stands as it did.
pub resume-items :
    (now : ℕ) (w : World) (k : ℕ) (i : WorkItem)
    → w.campaign.status ≡ Status.failed
    → get item_pk k w.items ≡ some i
    → (count_where item_failed (resume now w).items ≡ 0)
      × (count_where item_succeeded (resume now w).items ≡ count_where item_succeeded w.items)
      × (count_where item_pending (resume now w).items
          ≡ count_where item_pending w.items + count_where item_failed w.items)
      × ((resume now w).campaign.processed_items ≡ w.campaign.processed_items)
      × ((j : WorkItem) × (get item_pk k (resume now w).items ≡ some j)
          × (j.attempt ≡ i.attempt)
          × (j.status ≡ (if item_failed i then ItemStatus.queued else i.status))
          × (j.next_retry_at ≡ (if item_failed i then none else i.next_retry_at)))
unfolding resume
resume-items now w k i h found =
    let (failed, pending, succeeded) = count-retry w.items in
    rw h (failed, succeeded, pending, refl, resumed)
  where
    resumed :
        (j : WorkItem) × (get item_pk k (update_where item_failed retry w.items) ≡ some j)
        × (j.attempt ≡ i.attempt)
        × (j.status ≡ (if item_failed i then ItemStatus.queued else i.status))
        × (j.next_retry_at ≡ (if item_failed i then none else i.next_retry_at))
    resumed = (
      (if item_failed i then retry i else i),
      get-retry w.items k i found,
      ground arith,
      ground arith,
      ground arith,
    )
