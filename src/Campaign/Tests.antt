-- ===== src/Campaign/Tests.antt =====
-- A concrete campaign with its items, and the theorems of the campaign service at it.
use noshiro_db_backend.Base.{
  arith, str_eq, strip, ℕ, ◌+◌, ◌<◌, ◌≡◌, ◌↔◌, refl, true, false, none, some, List, [], ◌∷◌, String,
  get, count_where, pos,
}
use noshiro_db_backend.Campaign.Model.{
  Status, AiMode, CampaignType, Parameters, Campaign, ItemStatus, WorkItem, World, item_pk,
  item_pending, item_failed, item_succeeded,
}
use noshiro_db_backend.Campaign.Control.{
  pause, resume_paused, resume, resume_paused-pause, resume-items,
}
use noshiro_db_backend.Campaign.Items.{ImportOutcome, import_failed, max_attempts}
use noshiro_db_backend.Campaign.Items.Retry.{tries_left}
use noshiro_db_backend.Campaign.Fetch.{FetchResult, fetch, fetch_item, fetch_result, finish_fetch}
use noshiro_db_backend.Campaign.Fetch.Count.{tally, fetch-tally}
use noshiro_db_backend.Campaign.Fetch.Tries.{fetch_item-tries, falls_due, finish_fetch_iff}
use noshiro_db_backend.Campaign.Discovery.{Page, Provider, Crawl, discover}
use noshiro_db_backend.Campaign.Discovery.Complete.{EndsAt, discover-EndsAt}
use noshiro_db_backend.Campaign.Run.{Services, run, taken_up}
use noshiro_db_backend.Agent.Transcript.{take_chars}
use noshiro_db_backend.Campaign.Create.{
  Request, Created, new_campaign, create_campaign, create_checked, create_keyed, get_or_create,
  key_of, create_campaign-again,
}
use noshiro_db_backend.Campaign.Run.Moves.{Moves}
use noshiro_db_backend.Campaign.Run.Lease.{IsReleased, run-IsReleased}

abbrev parameters : Parameters
parameters = record {
  page_size = none;
  max_pages = none;
  discovery_pages_per_step = none;
  fetch_batch_size = none;
  max_attempts = some (pos 3);
  ai_batch_size = none;
  ai_sample_size = some (pos 1);
  delta_window_pages = none;
  discovery = none;
  watermark = some 100;
  pending_watermark = none;
  paused_from = none;
  reconcile_missing = none;
  enrichment = none;
  enrich_sample_size = none;
}

abbrev campaign : Campaign
campaign = record {
  provider_slug = "anilist";
  campaign_type = CampaignType.incremental;
  status = Status.fetching;
  ai_mode = AiMode.shadow;
  parameters = parameters;
  total_items = 3;
  processed_items = 1;
  synced_items = 0;
  skipped_items = 0;
  failed_items = 1;
  quality_report = none;
  agent_run = none;
  error = "";
  heartbeat_at = none;
  lease_owner = "";
  lease_expires_at = none;
  next_run_at = none;
  started_at = some 5;
  finished_at = none;
  updated_at = 5;
}

abbrev queued_item : WorkItem
queued_item = record {
  pk = 1;
  shard = 1;
  cursor = "15";
  status = ItemStatus.queued;
  result = none;
  error = "";
  attempt = 0;
  next_retry_at = none;
  last_error_code = "";
  lease_owner = "";
  lease_expires_at = none;
  ai_processed_at = none;
  ai_enriched_at = none;
  started_at = none;
  finished_at = none;
}

abbrev failed_item : WorkItem
failed_item = record queued_item { pk = 2; cursor = "16"; status = ItemStatus.failed; attempt = 3 }

abbrev done_item : WorkItem
done_item = record queued_item { pk = 3; cursor = "17"; status = ItemStatus.succeeded; attempt = 1 }

abbrev small_world : World
small_world = record {
  campaign = campaign;
  items = queued_item ∷ failed_item ∷ done_item ∷ [];
  records = [];
}

-- An import that the provider refuses for being called too often.
abbrev refused : String → World → ImportOutcome
refused cursor w = import_failed (record {
  name = "anilistapierror";
  text = "AniListAPIError: 429";
  status_code = some 429;
  error_code = "";
  is_provider_error = true;
  retryable = true;
  retry_after = some 20;
})

resume_paused-pause_example :
    ((pause 10 small_world).campaign.status ≡ Status.paused)
    × ((resume_paused 20 (pause 10 small_world)).campaign.status ≡ Status.fetching)
    × ((resume_paused 20 (pause 10 small_world)).campaign.next_run_at ≡ some 20)
    × ((resume_paused 20 (pause 10 small_world)).campaign.processed_items ≡ 1)
    × ((resume_paused 20 (pause 10 small_world)).items ≡ small_world.items)
resume_paused-pause_example = resume_paused-pause 10 20 small_world refl

abbrev failed_world : World
failed_world = record small_world { campaign = record campaign { status = Status.failed } }

resume-items_example :
    (count_where item_failed (resume 10 failed_world).items ≡ 0)
    × (count_where item_succeeded (resume 10 failed_world).items
        ≡ count_where item_succeeded failed_world.items)
    × (count_where item_pending (resume 10 failed_world).items
        ≡ count_where item_pending failed_world.items + count_where item_failed failed_world.items)
    × ((resume 10 failed_world).campaign.processed_items ≡ failed_world.campaign.processed_items)
    × ((j : WorkItem) × (get item_pk 2 (resume 10 failed_world).items ≡ some j)
        × (j.attempt ≡ failed_item.attempt)
        × (j.status ≡ ItemStatus.queued)
        × (j.next_retry_at ≡ none))
resume-items_example = resume-items 10 failed_world 2 failed_item refl refl

fetch-tally_example :
    tally (fetch refused 10 11 12 "campaign:1" (some (pos 2)) small_world).1 ≡ tally small_world
fetch-tally_example =
    fetch-tally refused 10 11 12 "campaign:1" (some (pos 2)) small_world (refl, (refl, (refl, tt)))

fetch_item-tries_example :
    (i : WorkItem) × (get item_pk 1
        (fetch_item refused 10 campaign "campaign:1" queued_item small_world).items
      ≡ some i)
    × (tries_left (max_attempts campaign) i < tries_left (max_attempts campaign) queued_item)
fetch_item-tries_example =
    fetch_item-tries refused 10 campaign "campaign:1" queued_item small_world queued_item
      (refl, (refl, (refl, tt))) refl refl

-- An item that falls due between the two readings of the clock is missed: the fetch reports its end.
abbrev late_world : World
late_world = record small_world {
  items = record queued_item { next_retry_at = some 12 } ∷ done_item ∷ [];
}

finish_fetch_iff_example :
    (((finish_fetch 10 11 12 late_world).0 ≡ FetchResult.fetched true) ↔ (
      (count_where item_pending late_world.items ≡ count_where (falls_due 11 12) late_world.items)
      × (count_where item_failed late_world.items ≡ 0)))
    × (((finish_fetch 10 11 12 late_world).0 ≡ FetchResult.retries_exhausted) ↔ (
        (count_where item_pending late_world.items ≡ count_where (falls_due 11 12) late_world.items)
        × (0 < count_where item_failed late_world.items)))
finish_fetch_iff_example = finish_fetch_iff 10 11 12 late_world (omega arith)

late_is_missed :
    ((finish_fetch 10 11 12 late_world).0 ≡ FetchResult.fetched true)
    × (count_where item_pending late_world.items ≡ 1)
unfolding finish_fetch fetch_result
late_is_missed = (refl, refl)

abbrev page : Page
page = record {
  external_ids = "15" ∷ "18" ∷ [];
  next_cursor = some "2";
  total_count = none;
  watermark = some 130;
}

abbrev new_key : List WorkItem → ℕ
new_key items = 9

abbrev crawl_state : Crawl
crawl_state = record {
  params = parameters;
  discovery = record { next_cursor = some "1"; pages = 0; truncated = false };
  cursor = some "1";
  world = small_world;
}

abbrev catalogue : Provider
catalogue = record {
  discover = λ w cursor size. some page;
  discover_delta = none;
  discovery_complete = true;
}

discover-EndsAt_example : EndsAt (discover catalogue new_key 10 small_world)
discover-EndsAt_example = discover-EndsAt catalogue new_key 10 small_world

abbrev services : Services
services = record {
  provider = catalogue;
  new_pk = new_key;
  import_item = refused;
  due_at = 11;
  waiting_at = 12;
  normalize_item = λ i w. true;
  enrich_item = λ i w. none;
  enrich_setting = pos 0;
  claims = λ r. 0;
  text_of = λ e. "RuntimeError";
}

run-IsReleased_example :
    IsReleased (run services 10 "campaign:0" "campaign:1" none small_world)
    × Moves
        (taken_up 10 small_world).campaign.status
        (run services 10 "campaign:0" "campaign:1" none small_world).campaign.status
run-IsReleased_example =
    run-IsReleased services 10 "campaign:0" "campaign:1" none small_world refl refl

abbrev request : Request
request = record {
  provider_slug = "anilist";
  campaign_type = "full";
  ai_mode = some AiMode.shadow;
  parameters = parameters;
  idempotency_key = some " nightly ";
}

abbrev retried : Request
retried = record request { ai_mode = some AiMode.off; idempotency_key = some "nightly" }

abbrev created : Created
created = new_campaign request AiMode.shadow "nightly"

create_campaign-again_example :
    create_campaign (λ slug. str_eq slug "anilist") retried (created ∷ [])
    ≡ some (created, created ∷ [])
unfolding create_campaign create_checked create_keyed get_or_create key_of take_chars strip
create_campaign-again_example =
    create_campaign-again (λ slug. str_eq slug "anilist") request retried AiMode.off []
      (created ∷ []) created refl refl refl refl refl refl
