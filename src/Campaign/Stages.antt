-- ===== src/Campaign/Stages.antt =====
-- The stages after the imports: normalizing, reconciling, enriching and reviewing
-- (src/apps/sync/services/campaign_service.py). What the AI services do with an item is a parameter:
-- whether the call returns, and the counts that it returns.
pub mod Sample
pub mod Truncation
use noshiro_db_backend.Base.{
  ℕ, zero, suc, ◌+◌, ◌-◌, min, Bool, true, false, ◌&&◌, ◌||◌, not, Option, none, some, List, [],
  ◌∷◌, String, ltb, leb, str_eq, is_some, or_default, if◌then◌else◌, exists_where, count_where,
  update_where, select_where, update_one, order_by, take, ℤ, pos, negsuc,
}
use noshiro_db_backend.Campaign.Model.{
  AiMode, CampaignType, Discovery, Enrichment, QualityReport, Parameters, Campaign, WorkItem,
  RecordStatus, ProviderRecord, World, item_pk, item_succeeded, item_failed,
}
use noshiro_db_backend.Campaign.Items.{positive_int}
use noshiro_db_backend.Campaign.Fetch.{item_shard}
use noshiro_db_backend.Campaign.Discovery.{has_cursor, is_incremental}

-- What a stage comes to: its answer and the rows, or an exception with the rows.
pub data StageResult : Type 0 where
  staged : Bool → World → StageResult
  stage_raised : World → StageResult

abbrev pub is_off : AiMode → Bool
is_off AiMode.off = true
is_off _ = false

-- `ai_processed_at__isnull=False`, `ai_enriched_at__isnull=False`
abbrev pub is_normalized : WorkItem → Bool
is_normalized i = is_some i.ai_processed_at

abbrev pub is_enriched : WorkItem → Bool
is_enriched i = is_some i.ai_enriched_at

abbrev pub mark_normalized : Option ℕ → WorkItem → WorkItem
mark_normalized at i = record i { ai_processed_at = at }

abbrev pub mark_enriched : Option ℕ → WorkItem → WorkItem
mark_enriched at i = record i { ai_enriched_at = at }

-- The succeeded items that a test leaves, in the order of shard and key, up to a number.
unfoldable pub stage_batch : (WorkItem → Bool) → ℕ → World → List WorkItem
stage_batch seen size w = take size (
    order_by item_shard
      (order_by item_pk (select_where (λ i. item_succeeded i && not (seen i)) w.items)))

-- How many items the step may take, of the sample size, the items that are done and the batch size;
-- `none` where the sample is done.
unfoldable pub sample_room : Option ℤ → ℕ → ℕ → Option ℕ
sample_room none processed batch_size = some batch_size
sample_room (some (negsuc n)) processed batch_size = some batch_size
sample_room (some (pos zero)) processed batch_size = some batch_size
sample_room (some (pos (suc n))) processed batch_size =
    if leb (suc n) processed then none else some (min batch_size (suc n - processed))

module _ (normalize_item : WorkItem → World → Bool) (now : ℕ) where
  -- The body of the loop of `_normalize` for a claimed item: whether it returns, and the rows.
  unfoldable pub normalize_claimed : WorkItem → Bool × List WorkItem → World → Bool × World
  normalize_claimed item (false, items) w = (true, record w { items = items })
  normalize_claimed item (true, items) w =
      if normalize_item item (record w { items = items })
      then (true, record w { items = items })
      else (
        false,
        record w {
          items = (update_one item_pk item.pk (λ _. true) (mark_normalized none) items).1;
        },
      )

  unfoldable pub normalize_one : WorkItem → World → Bool × World
  normalize_one item w =
      normalize_claimed item
        (update_one item_pk item.pk (λ i. item_succeeded i && not (is_normalized i))
          (mark_normalized (some now)) w.items)
        w

  -- The loop, which an exception leaves.
  unfoldable pub normalize_rest : (World → Bool × World) → Bool × World → Bool × World
  normalize_rest continue (false, w) = (false, w)
  normalize_rest continue (true, w) = continue w

  unfoldable pub normalize_items : List WorkItem → World → Bool × World
  normalize_items [] w = (true, w)
  normalize_items (item ∷ rest) w = normalize_rest (normalize_items rest) (normalize_one item w)

  unfoldable pub normalize_end : Bool × World → StageResult
  normalize_end (false, w) = stage_raised w
  normalize_end (true, w) =
      staged (not (exists_where (λ i. item_succeeded i && not (is_normalized i)) w.items)) w

  unfoldable pub normalize_batch : Option ℕ → World → StageResult
  normalize_batch none w = staged true w
  normalize_batch (some size) w =
      normalize_end (normalize_items (stage_batch is_normalized size w) w)

  -- `_normalize`
  unfoldable pub normalize : World → StageResult
  unfolding positive_int
  normalize w =
      if is_off w.campaign.ai_mode
      then staged true w
      else normalize_batch
          (sample_room w.campaign.parameters.ai_sample_size (count_where is_normalized w.items)
            (positive_int w.campaign.parameters.ai_batch_size 50))
          w

abbrev no_enrichment : Enrichment
no_enrichment = record { claims = 0; applied = 0; abstained = 0; skipped = 0 }

abbrev add_enrichment : Enrichment → Enrichment → Enrichment
add_enrichment a b = record {
  claims = a.claims + b.claims;
  applied = a.applied + b.applied;
  abstained = a.abstained + b.abstained;
  skipped = a.skipped + b.skipped;
}

-- `params.get("enrichment") or {…}`
abbrev stats_of : Campaign → Enrichment
stats_of c = or_default c.parameters.enrichment no_enrichment

-- The saved statistics after an item.
abbrev save_enrichment : ℕ → Enrichment → World → World
save_enrichment now result w = record w {
  campaign = record (w.campaign) {
    parameters = record (w.campaign.parameters) {
      enrichment = some (add_enrichment (stats_of w.campaign) result);
    };
    updated_at = now;
  };
}

-- `params.get("enrich_sample_size")`, or the setting.
abbrev pub enrich_sample : ℤ → Campaign → ℤ
enrich_sample setting c = or_default c.parameters.enrich_sample_size setting

module _ (enrich_item : WorkItem → World → Option Enrichment) (setting : ℤ) (now : ℕ) where
  -- What the outcome of an enrichment does; `none` is an exception.
  unfoldable pub enrich_outcome : WorkItem → Option Enrichment → World → Bool × World
  enrich_outcome item none w = (
    false,
    record w { items = (update_one item_pk item.pk (λ _. true) (mark_enriched none) w.items).1 },
  )
  enrich_outcome item (some result) w = (true, save_enrichment now result w)

  unfoldable pub enrich_claimed : WorkItem → Bool × List WorkItem → World → Bool × World
  enrich_claimed item (false, items) w = (true, record w { items = items })
  enrich_claimed item (true, items) w =
      enrich_outcome item (enrich_item item (record w { items = items }))
        (record w { items = items })

  unfoldable pub enrich_one : WorkItem → World → Bool × World
  enrich_one item w =
      enrich_claimed item
        (update_one item_pk item.pk (λ i. item_succeeded i && not (is_enriched i))
          (mark_enriched (some now)) w.items)
        w

  unfoldable pub enrich_rest : (World → Bool × World) → Bool × World → Bool × World
  enrich_rest continue (false, w) = (false, w)
  enrich_rest continue (true, w) = continue w

  unfoldable pub enrich_items : List WorkItem → World → Bool × World
  enrich_items [] w = (true, w)
  enrich_items (item ∷ rest) w = enrich_rest (enrich_items rest) (enrich_one item w)

  -- `sample > 0 and processed_now >= sample`
  unfoldable pub sample_reached : ℤ → ℕ → Bool
  sample_reached (negsuc n) processed = false
  sample_reached (pos zero) processed = false
  sample_reached (pos (suc n)) processed = leb (suc n) processed

  unfoldable pub enrich_end : Bool × World → StageResult
  enrich_end (false, w) = stage_raised w
  enrich_end (true, w) =
      staged
        (sample_reached (enrich_sample setting w.campaign) (count_where is_enriched w.items)
          || not (exists_where (λ i. item_succeeded i && not (is_enriched i)) w.items))
        w

  unfoldable pub enrich_batch : Option ℕ → World → StageResult
  enrich_batch none w = staged true w
  enrich_batch (some size) w = enrich_end (enrich_items (stage_batch is_enriched size w) w)

  -- `_enrich`
  unfoldable pub enrich : World → StageResult
  unfolding positive_int
  enrich w =
      if is_off w.campaign.ai_mode
      then staged true w
      else enrich_batch
          (sample_room (some (enrich_sample setting w.campaign)) (count_where is_enriched w.items)
            (positive_int w.campaign.parameters.ai_batch_size 50))
          w

abbrev pub is_full : CampaignType → Bool
is_full CampaignType.full = true
is_full _ = false

abbrev pub is_truncated : Parameters → Bool
is_truncated p = elim p.discovery [ none ↦ false | some d ↦ d.truncated ]

-- `_can_mark_missing`, of the provider's `discovery_complete`.
unfoldable pub can_mark_missing : Bool → Campaign → Bool
can_mark_missing complete c =
    is_full c.campaign_type
    && not (
        (elim c.parameters.discovery [ none ↦ false | some d ↦ has_cursor d.next_cursor ])
        || is_truncated c.parameters)
    && or_default c.parameters.reconcile_missing complete

abbrev record_active : ProviderRecord → Bool
record_active r = elim r.status [ RecordStatus.active ↦ true | _ ↦ false ]

abbrev has_item : List WorkItem → ProviderRecord → Bool
has_item items r = exists_where (λ i. str_eq i.cursor r.external_id) items

abbrev mark_missing : ProviderRecord → ProviderRecord
mark_missing r = record r { status = RecordStatus.missing }

-- `_reconcile_provider_records`
unfoldable pub reconcile_provider_records : Bool → World → World
unfolding can_mark_missing
reconcile_provider_records complete w =
    if can_mark_missing complete w.campaign
    then record w {
      records =
          update_where (λ r. record_active r && not (has_item w.items r)) mark_missing w.records;
    }
    else w

-- `_write_quality_report`; `claims` counts the proposed claims of an agent run.
unfoldable pub write_quality_report : (ℕ → ℕ) → ℕ → World → World
write_quality_report claims now w = record w {
  campaign = record (w.campaign) {
    quality_report = some (record {
      total_items = w.campaign.total_items;
      succeeded_items = count_where item_succeeded w.items;
      failed_items = count_where item_failed w.items;
      skipped_items = w.campaign.skipped_items;
      ai_mode = w.campaign.ai_mode;
      ai_enrichment = stats_of w.campaign;
      ai_claims_pending_review = elim w.campaign.agent_run [ none ↦ 0 | some r ↦ claims r ];
      discovery_truncated = is_truncated w.campaign.parameters;
    });
    updated_at = now;
  };
}

-- What `_promote_watermark` does with the pending watermark.
unfoldable pub promote_pending : Option ℕ → ℕ → World → World
promote_pending none now w = w
promote_pending (some pending) now w = record w {
  campaign = record (w.campaign) {
    parameters = record (w.campaign.parameters) {
      pending_watermark = none;
      watermark = some pending;
    };
    updated_at = now;
  };
}

-- `_promote_watermark`
unfoldable pub promote_watermark : ℕ → World → World
promote_watermark now w =
    if is_incremental w.campaign.campaign_type && not (is_truncated w.campaign.parameters)
    then promote_pending w.campaign.parameters.pending_watermark now w
    else w
