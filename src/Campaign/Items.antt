-- ===== src/Campaign/Items.antt =====
-- How the outcome of one work item is recorded: success, skip, retry with backoff, failure
-- (src/apps/sync/services/campaign_service.py). The errors of providers are
-- src/apps/sync/providers/exceptions.py.
pub mod Retry
use noshiro_db_backend.Base.{
  ℕ, suc, ◌+◌, ◌-◌, ◌*◌, ◌^◌, min, Bool, true, false, ◌&&◌, ◌||◌, Option, none, some, List, String,
  ltb, leb, ◌==◌, str_eq, if◌then◌else◌, is_some, update_one, ℤ, pos, negsuc,
}
use noshiro_db_backend.Agent.Transcript.{take_chars}
use noshiro_db_backend.Campaign.Model.{Parameters, Campaign, ItemStatus, WorkItem, World, item_pk}

-- `_positive_int`, of what `int` makes of the value.
unfoldable pub positive_int : Option ℤ → ℕ → ℕ
positive_int none default = default
positive_int (some (negsuc n)) default = default
positive_int (some (pos n)) default = if ltb 0 n then n else default

-- An exception of an import. `name` is the lower-case name of its class and `text` is
-- `f"{type(error).__name__}: {error}"`; the rest is `none` or false where the class has no such
-- attribute. Delays are whole seconds.
pub record ImportError : Type 0 where
  pub name : String
  pub text : String
  pub status_code : Option ℕ
  pub error_code : String
  pub is_provider_error : Bool
  pub retryable : Bool
  pub retry_after : Option ℕ

-- `ProviderAPIError.is_not_found`
unfoldable pub is_not_found : ImportError → Bool
is_not_found e =
    elim e.status_code [ none ↦ false | some c ↦ c == 404 ] || str_eq e.error_code "not_found"

-- `retryable` of the errors of Bangumi, VNDB, AniList and MAL, by the status of the answer and, for
-- AniList, whether it names a reason for being unavailable.
unfoldable provider_retryable : Option ℕ → Bool → Bool
provider_retryable none unavailable = true
provider_retryable (some code) unavailable = unavailable || code == 429 || leb 500 code

-- What `import_item` comes to: the key of the entity, or an exception.
pub data ImportOutcome : Type 0 where
  imported : ℕ → ImportOutcome
  import_failed : ImportError → ImportOutcome

-- `filter(pk=item.pk).update(…)`
abbrev pub update_item : ℕ → (WorkItem → WorkItem) → List WorkItem → List WorkItem
update_item pk f items = (update_one item_pk pk (λ _. true) f items).1

-- The success of an item in `_fetch`, and the campaign's counters.
abbrev pub success_columns : ℕ → ℕ → WorkItem → WorkItem
success_columns now entity i = record i {
  status = ItemStatus.succeeded;
  result = some entity;
  finished_at = some now;
  error = "";
  last_error_code = "";
  next_retry_at = none;
  lease_owner = "";
  lease_expires_at = none;
}

unfoldable pub succeed_item : ℕ → WorkItem → ℕ → World → World
succeed_item now item entity w = record w {
  campaign = record (w.campaign) {
    processed_items = w.campaign.processed_items + 1;
    synced_items = w.campaign.synced_items + 1;
  };
  items = update_item item.pk (success_columns now entity) w.items;
}

abbrev pub skip_columns : ℕ → ImportError → WorkItem → WorkItem
skip_columns now e i = record i {
  status = ItemStatus.skipped;
  error = take_chars 4000 e.text;
  last_error_code = "not_found";
  next_retry_at = none;
  finished_at = some now;
  lease_owner = "";
  lease_expires_at = none;
}

-- `_skip_item`
unfoldable pub skip_item : ℕ → WorkItem → ImportError → World → World
skip_item now item e w = record w {
  campaign = record (w.campaign) {
    processed_items = w.campaign.processed_items + 1;
    skipped_items = w.campaign.skipped_items + 1;
  };
  items = update_item item.pk (skip_columns now e) w.items;
}

-- `retry_after or DEFAULT_RETRY_BASE_SECONDS * (2 ** max(0, item.attempt - 1))`
unfoldable pub retry_delay : Option ℕ → ℕ → ℕ
retry_delay none attempt = 30 * 2 ^ (attempt - 1)
retry_delay (some seconds) attempt = if ltb 0 seconds then seconds else 30 * 2 ^ (attempt - 1)

abbrev pub retry_columns : ℕ → WorkItem → ImportError → WorkItem → WorkItem
retry_columns now item e i = record i {
  status = ItemStatus.queued;
  error = take_chars 4000 e.text;
  last_error_code = e.name;
  next_retry_at = some (now + min (retry_delay e.retry_after item.attempt) 3600);
  lease_owner = "";
  lease_expires_at = none;
}

abbrev pub failure_columns : ℕ → ImportError → WorkItem → WorkItem
failure_columns now e i = record i {
  status = ItemStatus.failed;
  error = take_chars 4000 e.text;
  last_error_code = e.name;
  next_retry_at = none;
  finished_at = some now;
  lease_owner = "";
  lease_expires_at = none;
}

-- `_positive_int(parameters.get("max_attempts"), DEFAULT_MAX_ATTEMPTS)`
abbrev pub max_attempts : Campaign → ℕ
max_attempts c = positive_int c.parameters.max_attempts 5

-- `_fail_item`. `campaign` and `item` are the caller's copies.
unfoldable pub fail_item : ℕ → Campaign → WorkItem → ImportError → World → World
unfolding positive_int
fail_item now campaign item e w =
    if e.retryable && ltb item.attempt (max_attempts campaign)
    then record w { items = update_item item.pk (retry_columns now item e) w.items }
    else record w {
      campaign = record (w.campaign) {
        processed_items = w.campaign.processed_items + 1;
        failed_items = w.campaign.failed_items + 1;
      };
      items = update_item item.pk (failure_columns now e) w.items;
    }

-- What `_fetch` does with the outcome of an import.
unfoldable pub record_outcome : ℕ → Campaign → WorkItem → ImportOutcome → World → World
unfolding is_not_found
record_outcome now campaign item (imported entity) w = succeed_item now item entity w
record_outcome now campaign item (import_failed e) w =
    if e.is_provider_error && is_not_found e
    then skip_item now item e w
    else fail_item now campaign item e w
