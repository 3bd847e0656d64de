-- ===== src/Campaign/Run/Lease.antt =====
-- A step of a campaign moves its status along the state machine and gives its lease back
-- (`run` of src/apps/sync/services/campaign_service.py).

use noshiro_db_backend.Base.{
  ℕ, ◌≡◌, refl, inl, inr, Bool, true, false, Option, none, String, arith, Bool-cases, str_eq,
  eq_iff, ℤ,
}
use noshiro_db_backend.Campaign.Model.{Status, status_eq, Campaign, World}
use noshiro_db_backend.Campaign.State.{advance}
use noshiro_db_backend.Campaign.Control.{resume, is_failed}
use noshiro_db_backend.Campaign.Fetch.{fetch}
use noshiro_db_backend.Campaign.Discovery.{discover}
use noshiro_db_backend.Campaign.Stages.{
  normalize, enrich, reconcile_provider_records, write_quality_report, promote_watermark,
}
use noshiro_db_backend.Campaign.Run.{
  Services, Flow, goes, returned, raises, at_status, from_reviewing, from_enriching,
  from_reconciling, from_normalizing, from_mapping, from_fetching, discover_stage, fetch_stage,
  map_stage, normalize_stage, reconcile_stage, enrich_stage, review_stage, stages, can_fail, fail,
  caught, release, started, run_taken, taken_up, is_stopped, lease_free, claim_lease, run,
  normalize_fault, enrich_fault,
}
use noshiro_db_backend.Campaign.Run.Stage.{control, fetch-control, discover-control}
use noshiro_db_backend.Campaign.Run.AiStage.{
  normalize-control, enrich-control, reconcile-control, review-control,
}
use noshiro_db_backend.Campaign.Run.Moves.{
  Moves, From, world_of, From-same, From-along, From-trans, advance-From, transition-From,
  after_discover-From, after_fetch-From, after_stage-From, at_status-From, then_flow-From,
}

fail-From : (now : ℕ) (text : String) (w : World) → From (control w) (fail now text w)
unfolding fail
fail-From now text w = elim (Bool-cases (can_fail w.campaign.status)) [
  | inl e ↦ rw e (advance-From now Status.failed w)
  | inr e ↦ rw e (From-same (control w) w refl)
]

-- The lease is given back.
abbrev pub IsReleased : World → Type 0
IsReleased w = (w.campaign.lease_owner ≡ "") × (w.campaign.lease_expires_at ≡ none)

release-lem :
    (now : ℕ) (owner : String) (c : Status) (w : World)
    → From (c, owner) w
    → IsReleased (release now owner w) × Moves c (release now owner w).campaign.status
unfolding release
release-lem now owner c w (moves, held) =
    let owned : str_eq w.campaign.lease_owner owner ≡ true =
      (eq_iff w.campaign.lease_owner owner).1 held in
    rw owned ((refl, refl), moves)

-- The resume of a failed campaign looks at no lease, and leaves it alone.
taken_up-claim :
    (now : ℕ) (owner : String) (w : World)
    → control (taken_up now (claim_lease now owner w)) ≡ ((taken_up now w).campaign.status, owner)
unfolding taken_up resume
taken_up-claim now owner w = elim (Bool-cases (status_eq w.campaign.status Status.failed)) [
  | inl e ↦
      let failed_now : is_failed w.campaign.status ≡ true = ground arith in rw (e, failed_now) refl
  | inr e ↦ rw e refl
]

module _ (s : Services) (now : ℕ) (owner item_owner : String) (max_items : Option ℤ) where
  from_reviewing-From :
      (w : World) → From (control w) (world_of (from_reviewing s now owner item_owner max_items w))
  unfolding from_reviewing
  from_reviewing-From w =
      at_status-From Status.reviewing (review_stage s now owner item_owner max_items) w (
        transition-From now Status.completed (control w)
          (promote_watermark now (write_quality_report s.claims now w))
          (review-control s.claims now w))

  from_enriching-From :
      (w : World) → From (control w) (world_of (from_enriching s now owner item_owner max_items w))
  unfolding from_enriching
  from_enriching-From w =
      then_flow-From (control w)
        (at_status Status.enriching (enrich_stage s now owner item_owner max_items) w)
        (from_reviewing s now owner item_owner max_items)
        (at_status-From Status.enriching (enrich_stage s now owner item_owner max_items) w (
          after_stage-From enrich_fault now Status.reviewing (control w)
            (enrich s.enrich_item s.enrich_setting now w)
            (enrich-control s.enrich_item s.enrich_setting now w)))
        from_reviewing-From

  from_reconciling-From :
      (w : World)
      → From (control w) (world_of (from_reconciling s now owner item_owner max_items w))
  unfolding from_reconciling
  from_reconciling-From w =
      then_flow-From (control w)
        (at_status Status.reconciling (reconcile_stage s now owner item_owner max_items) w)
        (from_enriching s now owner item_owner max_items)
        (at_status-From Status.reconciling (reconcile_stage s now owner item_owner max_items) w (
          transition-From now Status.enriching (control w)
            (reconcile_provider_records s.provider.discovery_complete w)
            (reconcile-control s.provider.discovery_complete w)))
        from_enriching-From

  from_normalizing-From :
      (w : World)
      → From (control w) (world_of (from_normalizing s now owner item_owner max_items w))
  unfolding from_normalizing
  from_normalizing-From w =
      then_flow-From (control w)
        (at_status Status.normalizing (normalize_stage s now owner item_owner max_items) w)
        (from_reconciling s now owner item_owner max_items)
        (at_status-From Status.normalizing (normalize_stage s now owner item_owner max_items) w (
          after_stage-From normalize_fault now Status.reconciling (control w)
            (normalize s.normalize_item now w) (normalize-control s.normalize_item now w)))
        from_reconciling-From

  from_mapping-From :
      (w : World) → From (control w) (world_of (from_mapping s now owner item_owner max_items w))
  unfolding from_mapping
  from_mapping-From w =
      then_flow-From (control w)
        (at_status Status.mapping (map_stage s now owner item_owner max_items) w)
        (from_normalizing s now owner item_owner max_items)
        (at_status-From Status.mapping (map_stage s now owner item_owner max_items) w
          (transition-From now Status.normalizing (control w) w refl))
        from_normalizing-From

  from_fetching-From :
      (w : World) → From (control w) (world_of (from_fetching s now owner item_owner max_items w))
  unfolding from_fetching
  from_fetching-From w =
      then_flow-From (control w)
        (at_status Status.fetching (fetch_stage s now owner item_owner max_items) w)
        (from_mapping s now owner item_owner max_items)
        (at_status-From Status.fetching (fetch_stage s now owner item_owner max_items) w (
          after_fetch-From now (control w)
            (fetch s.import_item now s.due_at s.waiting_at item_owner max_items w)
            (fetch-control s.import_item now s.due_at s.waiting_at item_owner max_items w)))
        from_mapping-From

  stages-From :
      (w : World) → From (control w) (world_of (stages s now owner item_owner max_items w))
  unfolding stages
  stages-From w =
      then_flow-From (control w)
        (at_status Status.discovering (discover_stage s now owner item_owner max_items) w)
        (from_fetching s now owner item_owner max_items)
        (at_status-From Status.discovering (discover_stage s now owner item_owner max_items) w (
          after_discover-From now (control w) (discover s.provider s.new_pk now w)
            (discover-control s.provider s.new_pk now w)))
        from_fetching-From

  caught-From :
      (c : Status × String) (f : Flow)
      → From c (world_of f)
      → From c (caught s now owner item_owner max_items f)
  unfolding caught
  caught-From c (goes w) h = h
  caught-From c (returned w) h = h
  caught-From c (raises e w) h =
      From-trans c w (fail now (s.text_of e) w) h (fail-From now (s.text_of e) w)

  -- The stages, and the release after them.
  stages_lem :
      (c : Status) (w : World)
      → From (c, owner) w
      → IsReleased (
          release now owner
            (caught s now owner item_owner max_items (stages s now owner item_owner max_items w)))
        × Moves c
            (release now owner (
              caught s now owner item_owner max_items
                (stages s now owner item_owner max_items w))).campaign.status
  stages_lem c w h =
      release-lem now owner c
        (caught s now owner item_owner max_items (stages s now owner item_owner max_items w))
        (caught-From (c, owner) (stages s now owner item_owner max_items w)
          (From-trans (c, owner) w (world_of (stages s now owner item_owner max_items w)) h
            (stages-From w)))

  started-lem :
      (c : Status) (r : Bool × Campaign × World)
      → From (c, owner) r.2
      → IsReleased (started s now owner item_owner max_items r)
        × Moves c (started s now owner item_owner max_items r).campaign.status
  unfolding started
  started-lem c (false, copy, w) h = release-lem now owner c w h
  started-lem c (true, copy, w) h = stages_lem c w h

  run_taken-lem :
      (c : Status) (w : World)
      → control w ≡ (c, owner)
      → IsReleased (run_taken s now owner item_owner max_items w)
        × Moves c (run_taken s now owner item_owner max_items w).campaign.status
  unfolding run_taken
  run_taken-lem c w e = elim (Bool-cases (status_eq w.campaign.status Status.queued)) [
    | inl q ↦ rw q (
        started-lem c (advance now Status.discovering w.campaign w) (
          From-along (c, owner) w (advance now Status.discovering w.campaign w).2 e
            (advance-From now Status.discovering w)))
    | inr q ↦ rw q (stages_lem c w (From-same (c, owner) w e))
  ]

  -- A step that is let in, since the campaign is not stopped and its lease is free, gives its lease
  -- back, whatever the provider and the AI services do, exceptions included; and the status it leaves is
  -- reached by allowed transitions from the status that it took up.
  pub run-IsReleased :
      (w : World)
      → is_stopped w.campaign.status ≡ false
      → lease_free now w.campaign ≡ true
      → IsReleased (run s now owner item_owner max_items w)
        × Moves
            (taken_up now w).campaign.status
            (run s now owner item_owner max_items w).campaign.status
  unfolding run
  run-IsReleased w going free =
      rw (going, free)
        (run_taken-lem (taken_up now w).campaign.status (taken_up now (claim_lease now owner w))
          (taken_up-claim now owner w))
