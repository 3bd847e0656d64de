-- ===== src/Campaign/Model.antt =====
-- The rows of a campaign and its work items (src/apps/sync/models.py), and the keys of the
-- campaign's JSON parameters that the service reads. Every query of the service is restricted to
-- one campaign and its items. Times are seconds.
use noshiro_db_backend.Base.{ℕ, ◌≡◌, ◌↔◌, Bool, true, false, Option, List, String, arith, ℤ}

-- `SyncCampaign.Status`
pub data Status : Type 0 where
  queued discovering fetching mapping normalizing reconciling enriching reviewing : Status
  paused completed failed cancelled : Status

abbrev pub status_eq : Status → Status → Bool
status_eq Status.queued Status.queued = true
status_eq Status.discovering Status.discovering = true
status_eq Status.fetching Status.fetching = true
status_eq Status.mapping Status.mapping = true
status_eq Status.normalizing Status.normalizing = true
status_eq Status.reconciling Status.reconciling = true
status_eq Status.enriching Status.enriching = true
status_eq Status.reviewing Status.reviewing = true
status_eq Status.paused Status.paused = true
status_eq Status.completed Status.completed = true
status_eq Status.failed Status.failed = true
status_eq Status.cancelled Status.cancelled = true
status_eq _ _ = false

pub status_eq_iff : (a b : Status) → (status_eq a b ≡ true) ↔ (a ≡ b)
status_eq_iff a b = (ground arith, ground arith)

-- `SyncCampaign.AIMode`
pub data AiMode : Type 0 where
  off shadow assisted required : AiMode

-- `campaign_type`, of which the service tells two values apart.
pub data CampaignType : Type 0 where
  full incremental : CampaignType
  other_type : String → CampaignType

-- `parameters["discovery"]`
pub record Discovery : Type 0 where
  pub next_cursor : Option String
  pub pages : ℕ
  pub truncated : Bool

-- `parameters["enrichment"]`
pub record Enrichment : Type 0 where
  pub claims : ℕ
  pub applied : ℕ
  pub abstained : ℕ
  pub skipped : ℕ

-- `SyncCampaign.parameters`. A number is held as what `int` makes of the value, `none` where the
-- key is missing or `int` raises, except for the two sample sizes, which are numbers where they
-- are set; watermarks are texts of digits and are held as their numbers.
pub record Parameters : Type 0 where
  pub page_size : Option ℤ
  pub max_pages : Option (Option ℤ)
  pub discovery_pages_per_step : Option ℤ
  pub fetch_batch_size : Option ℤ
  pub max_attempts : Option ℤ
  pub ai_batch_size : Option ℤ
  pub ai_sample_size : Option ℤ
  pub delta_window_pages : Option ℤ
  pub discovery : Option Discovery
  pub watermark : Option ℕ
  pub pending_watermark : Option ℕ
  pub paused_from : Option Status
  pub reconcile_missing : Option Bool
  pub enrichment : Option Enrichment
  pub enrich_sample_size : Option ℤ

-- `quality_report`, of its counts and flags.
pub record QualityReport : Type 0 where
  pub total_items : ℕ
  pub succeeded_items : ℕ
  pub failed_items : ℕ
  pub skipped_items : ℕ
  pub ai_mode : AiMode
  pub ai_enrichment : Enrichment
  pub ai_claims_pending_review : ℕ
  pub discovery_truncated : Bool

-- The columns of `SyncCampaign`. `agent_run` is the key of its agent run.
pub record Campaign : Type 0 where
  pub provider_slug : String
  pub campaign_type : CampaignType
  pub status : Status
  pub ai_mode : AiMode
  pub parameters : Parameters
  pub total_items : ℕ
  pub processed_items : ℕ
  pub synced_items : ℕ
  pub skipped_items : ℕ
  pub failed_items : ℕ
  pub quality_report : Option QualityReport
  pub agent_run : Option ℕ
  pub error : String
  pub heartbeat_at : Option ℕ
  pub lease_owner : String
  pub lease_expires_at : Option ℕ
  pub next_run_at : Option ℕ
  pub started_at : Option ℕ
  pub finished_at : Option ℕ
  pub updated_at : ℕ

-- `SyncWorkItem.Status`
pub data ItemStatus : Type 0 where
  queued running succeeded failed skipped : ItemStatus

-- The columns of `SyncWorkItem`. `result` is the imported entity.
pub record WorkItem : Type 0 where
  pub pk : ℕ
  pub shard : ℕ
  pub cursor : String
  pub status : ItemStatus
  pub result : Option ℕ
  pub error : String
  pub attempt : ℕ
  pub next_retry_at : Option ℕ
  pub last_error_code : String
  pub lease_owner : String
  pub lease_expires_at : Option ℕ
  pub ai_processed_at : Option ℕ
  pub ai_enriched_at : Option ℕ
  pub started_at : Option ℕ
  pub finished_at : Option ℕ

-- `ProviderRecord.Status`
pub data RecordStatus : Type 0 where
  active missing deleted : RecordStatus

-- `ProviderRecord` (src/apps/index/models/sources.py), of the columns that reconciliation reads.
pub record ProviderRecord : Type 0 where
  pub external_id : String
  pub status : RecordStatus

-- One campaign with its items, and the records in its provider's namespace.
pub record World : Type 0 where
  pub campaign : Campaign
  pub items : List WorkItem
  pub records : List ProviderRecord

abbrev pub item_pk : WorkItem → ℕ
item_pk i = i.pk

abbrev pub item_queued : WorkItem → Bool
item_queued i = elim i.status [ ItemStatus.queued ↦ true | _ ↦ false ]

abbrev pub item_running : WorkItem → Bool
item_running i = elim i.status [ ItemStatus.running ↦ true | _ ↦ false ]

abbrev pub item_succeeded : WorkItem → Bool
item_succeeded i = elim i.status [ ItemStatus.succeeded ↦ true | _ ↦ false ]

abbrev pub item_failed : WorkItem → Bool
item_failed i = elim i.status [ ItemStatus.failed ↦ true | _ ↦ false ]

abbrev item_skipped : WorkItem → Bool
item_skipped i = elim i.status [ ItemStatus.skipped ↦ true | _ ↦ false ]

-- Queued or running: not yet processed.
abbrev pub item_pending : WorkItem → Bool
item_pending i = elim i.status [ ItemStatus.queued ↦ true | ItemStatus.running ↦ true | _ ↦ false ]
