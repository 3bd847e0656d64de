-- ===== src/Campaign/Run/AiStage.antt =====
-- The AI stages, the reconciliation and the review leave the campaign's status and its lease alone.
use noshiro_db_backend.Base.{
  ℕ, ◌≡◌, refl, ◌∙◌, inl, inr, Bool, true, false, ◌&&◌, not, Option, none, some, List, [], ◌∷◌,
  Bool-cases, ℤ, update_one, count_where,
}
use noshiro_db_backend.Campaign.Model.{Enrichment, WorkItem, World, item_pk, item_succeeded}
use noshiro_db_backend.Campaign.Items.{positive_int}
use noshiro_db_backend.Campaign.Stages.{
  normalize, normalize_batch, normalize_end, normalize_items, normalize_rest, normalize_one,
  normalize_claimed, enrich, enrich_batch, enrich_end, enrich_items, enrich_rest, enrich_one,
  enrich_claimed, enrich_outcome, enrich_sample, mark_normalized, mark_enriched,
  reconcile_provider_records, can_mark_missing, write_quality_report, promote_watermark,
  promote_pending, is_off, is_normalized, is_enriched, sample_room, stage_batch, is_truncated,
}
use noshiro_db_backend.Campaign.Discovery.{is_incremental}
use noshiro_db_backend.Campaign.Stages.Sample.{rows}
use noshiro_db_backend.Campaign.Run.Stage.{control}

module _ (normalize_item : WorkItem → World → Bool) (now : ℕ) where
  normalize_claimed-control :
      (item : WorkItem) (claim : Bool × List WorkItem) (w : World)
      → control (normalize_claimed normalize_item now item claim w).1 ≡ control w
  unfolding normalize_claimed
  normalize_claimed-control item (false, items) w = refl
  normalize_claimed-control item (true, items) w =
      elim (Bool-cases (normalize_item item (record w { items = items }))) [
        | inl e ↦ rw e refl
        | inr e ↦ rw e refl
      ]

  normalize_rest-control :
      (continue : World → Bool × World) (r : Bool × World)
      → ((v : World) → control (continue v).1 ≡ control v)
      → control (normalize_rest normalize_item now continue r).1 ≡ control r.1
  unfolding normalize_rest
  normalize_rest-control continue (false, w) h = refl
  normalize_rest-control continue (true, w) h = h w

  normalize_items-control :
      (queue : List WorkItem) (w : World)
      → control (normalize_items normalize_item now queue w).1 ≡ control w
  unfolding normalize_items normalize_one
  normalize_items-control [] w = refl
  normalize_items-control (i ∷ queue) w =
      normalize_rest-control (normalize_items normalize_item now queue)
        (normalize_one normalize_item now i w) (normalize_items-control queue)
      ∙ normalize_claimed-control i
          (update_one item_pk i.pk (λ i. item_succeeded i && not (is_normalized i))
            (mark_normalized (some now)) w.items)
          w

  normalize_end-control :
      (r : Bool × World) → control (rows (normalize_end normalize_item now r)) ≡ control r.1
  unfolding normalize_end
  normalize_end-control (true, w) = refl
  normalize_end-control (false, w) = refl

  normalize_batch-control :
      (room : Option ℕ) (w : World)
      → control (rows (normalize_batch normalize_item now room w)) ≡ control w
  unfolding normalize_batch
  normalize_batch-control none w = refl
  normalize_batch-control (some n) w =
      normalize_end-control (normalize_items normalize_item now (stage_batch is_normalized n w) w)
      ∙ normalize_items-control (stage_batch is_normalized n w) w

  pub normalize-control : (w : World) → control (rows (normalize normalize_item now w)) ≡ control w
  unfolding normalize
  normalize-control w = elim (Bool-cases (is_off w.campaign.ai_mode)) [
    | inl off ↦ rw off refl
    | inr on ↦ rw on (
        normalize_batch-control
          (sample_room w.campaign.parameters.ai_sample_size (count_where is_normalized w.items)
            (positive_int w.campaign.parameters.ai_batch_size 50))
          w)
  ]

module _ (enrich_item : WorkItem → World → Option Enrichment) (setting : ℤ) (now : ℕ) where
  enrich_outcome-control :
      (item : WorkItem) (o : Option Enrichment) (w : World)
      → control (enrich_outcome enrich_item setting now item o w).1 ≡ control w
  unfolding enrich_outcome
  enrich_outcome-control item none w = refl
  enrich_outcome-control item (some result) w = refl

  enrich_claimed-control :
      (item : WorkItem) (claim : Bool × List WorkItem) (w : World)
      → control (enrich_claimed enrich_item setting now item claim w).1 ≡ control w
  unfolding enrich_claimed
  enrich_claimed-control item (false, items) w = refl
  enrich_claimed-control item (true, items) w =
      enrich_outcome-control item (enrich_item item (record w { items = items }))
        (record w { items = items })

  enrich_rest-control :
      (continue : World → Bool × World) (r : Bool × World)
      → ((v : World) → control (continue v).1 ≡ control v)
      → control (enrich_rest enrich_item setting now continue r).1 ≡ control r.1
  unfolding enrich_rest
  enrich_rest-control continue (false, w) h = refl
  enrich_rest-control continue (true, w) h = h w

  enrich_items-control :
      (queue : List WorkItem) (w : World)
      → control (enrich_items enrich_item setting now queue w).1 ≡ control w
  unfolding enrich_items enrich_one
  enrich_items-control [] w = refl
  enrich_items-control (i ∷ queue) w =
      enrich_rest-control (enrich_items enrich_item setting now queue)
        (enrich_one enrich_item setting now i w) (enrich_items-control queue)
      ∙ enrich_claimed-control i
          (update_one item_pk i.pk (λ i. item_succeeded i && not (is_enriched i))
            (mark_enriched (some now)) w.items)
          w

  enrich_end-control :
      (r : Bool × World) → control (rows (enrich_end enrich_item setting now r)) ≡ control r.1
  unfolding enrich_end
  enrich_end-control (true, w) = refl
  enrich_end-control (false, w) = refl

  enrich_batch-control :
      (room : Option ℕ) (w : World)
      → control (rows (enrich_batch enrich_item setting now room w)) ≡ control w
  unfolding enrich_batch
  enrich_batch-control none w = refl
  enrich_batch-control (some n) w =
      enrich_end-control (enrich_items enrich_item setting now (stage_batch is_enriched n w) w)
      ∙ enrich_items-control (stage_batch is_enriched n w) w

  pub enrich-control : (w : World) → control (rows (enrich enrich_item setting now w)) ≡ control w
  unfolding enrich
  enrich-control w = elim (Bool-cases (is_off w.campaign.ai_mode)) [
    | inl off ↦ rw off refl
    | inr on ↦ rw on (
        enrich_batch-control
          (sample_room (some (enrich_sample setting w.campaign)) (count_where is_enriched w.items)
            (positive_int w.campaign.parameters.ai_batch_size 50))
          w)
  ]

pub reconcile-control :
    (complete : Bool) (w : World) → control (reconcile_provider_records complete w) ≡ control w
unfolding reconcile_provider_records
reconcile-control complete w = elim (Bool-cases (can_mark_missing complete w.campaign)) [
  | inl e ↦ rw e refl
  | inr e ↦ rw e refl
]

promote_pending-control :
    (p : Option ℕ) (now : ℕ) (w : World) → control (promote_pending p now w) ≡ control w
unfolding promote_pending
promote_pending-control none now w = refl
promote_pending-control (some p) now w = refl

promote_watermark-control : (now : ℕ) (w : World) → control (promote_watermark now w) ≡ control w
unfolding promote_watermark
promote_watermark-control now w =
    elim (Bool-cases
      (is_incremental w.campaign.campaign_type && not (is_truncated w.campaign.parameters))) [
        | inl e ↦ rw e (promote_pending-control w.campaign.parameters.pending_watermark now w)
        | inr e ↦ rw e refl
      ]

pub review-control :
    (claims : ℕ → ℕ) (now : ℕ) (w : World)
    → control (promote_watermark now (write_quality_report claims now w)) ≡ control w
unfolding write_quality_report
review-control claims now w = promote_watermark-control now (write_quality_report claims now w)
