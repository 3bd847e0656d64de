-- ===== src/Campaign/Run.antt =====
-- `run`: one bounded step of a campaign under its lease, and what a failure does
-- (src/apps/sync/services/campaign_service.py). One reading of the clock serves the whole step,
-- but for the two at the end of `_fetch`, and no other process writes the campaign's rows meanwhile, so
-- that the caller's copy of a campaign is its row.
pub mod Moves
pub mod Lease
pub mod Stage
pub mod AiStage
use noshiro_db_backend.Base.{
  ℕ, ◌+◌, Bool, true, false, ◌&&◌, not, Option, none, some, List, String, ltb, str_eq,
  if◌then◌else◌, ℤ,
}
use noshiro_db_backend.Agent.Transcript.{take_chars}
use noshiro_db_backend.Campaign.Model.{Status, status_eq, Enrichment, Campaign, WorkItem, World}
use noshiro_db_backend.Campaign.State.{advance}
use noshiro_db_backend.Campaign.Control.{resume}
use noshiro_db_backend.Campaign.Items.{ImportOutcome}
use noshiro_db_backend.Campaign.Fetch.{FetchResult, fetch}
use noshiro_db_backend.Campaign.Discovery.{Provider, DiscoverResult, discover}
use noshiro_db_backend.Campaign.Stages.{
  StageResult, staged, stage_raised, normalize, enrich, reconcile_provider_records,
  write_quality_report, promote_watermark,
}

-- The exceptions that leave a stage.
pub data Fault : Type 0 where
  discovery_fault normalize_fault enrich_fault : Fault
  exhausted_items : ℕ → Fault
  invalid_transition : Status → Fault

-- What the step calls: the provider, the AI services, the settings, the two readings of the clock at
-- the end of `_fetch`, and Python's `f"{type(error).__name__}: {error}"` of an exception.
pub record Services : Type 0 where
  pub provider : Provider
  pub new_pk : List WorkItem → ℕ
  pub import_item : String → World → ImportOutcome
  pub due_at : ℕ
  pub waiting_at : ℕ
  pub normalize_item : WorkItem → World → Bool
  pub enrich_item : WorkItem → World → Option Enrichment
  pub enrich_setting : ℤ
  pub claims : ℕ → ℕ
  pub text_of : Fault → String

-- Where the body of `try` stands: it goes on, it has returned, or it has raised.
pub data Flow : Type 0 where
  goes : World → Flow
  returned : World → Flow
  raises : Fault → World → Flow

unfoldable pub then_flow : Flow → (World → Flow) → Flow
then_flow (goes w) next = next w
then_flow (returned w) next = returned w
then_flow (raises e w) next = raises e w

-- `_transition_required`
unfoldable pub required : Status → Bool × Campaign × World → Flow
required next (true, c, w) = goes w
required next (false, c, w) = raises (invalid_transition next) w

abbrev pub transition_required : ℕ → Status → World → Flow
transition_required now next w = required next (advance now next w.campaign w)

-- `if campaign.status == status: …`
unfoldable pub at_status : Status → (World → Flow) → World → Flow
at_status status body w = if status_eq w.campaign.status status then body w else goes w

-- `if not self._discover(campaign): return …`, and the transition.
unfoldable pub after_discover : ℕ → DiscoverResult → Flow
after_discover now (DiscoverResult.raised w) = raises discovery_fault w
after_discover now (DiscoverResult.discovered (false, w)) = returned w
after_discover now (DiscoverResult.discovered (true, w)) = transition_required now Status.fetching w

unfoldable pub after_fetch : ℕ → FetchResult × World → Flow
after_fetch now (FetchResult.retries_exhausted, w) =
    raises (exhausted_items w.campaign.failed_items) w
after_fetch now (FetchResult.fetched false, w) = returned w
after_fetch now (FetchResult.fetched true, w) = transition_required now Status.mapping w

unfoldable pub after_stage : Fault → ℕ → Status → StageResult → Flow
after_stage fault now next (stage_raised w) = raises fault w
after_stage fault now next (staged false w) = returned w
after_stage fault now next (staged true w) = transition_required now next w

-- `status not in {PAUSED, COMPLETED, CANCELLED, FAILED}`
abbrev pub can_fail : Status → Bool
can_fail Status.paused = false
can_fail Status.completed = false
can_fail Status.cancelled = false
can_fail Status.failed = false
can_fail _ = true

-- `_fail`
unfoldable pub fail : ℕ → String → World → World
fail now text w =
    let w1 : World =
      if can_fail w.campaign.status then (advance now Status.failed w.campaign w).2 else w in
    record w1 {
      campaign = record (w1.campaign) {
        error = take_chars 4000 text;
        finished_at =
            if status_eq w1.campaign.status Status.paused
            then w1.campaign.finished_at
            else some now;
      };
    }

-- The release of the lease, guarded by the owner.
unfoldable pub release : ℕ → String → World → World
release now owner w =
    if str_eq w.campaign.lease_owner owner
    then record w {
      campaign = record (w.campaign) {
        lease_owner = "";
        lease_expires_at = none;
        heartbeat_at = some now;
      };
    }
    else w

-- A failed campaign is resumed.
unfoldable pub taken_up : ℕ → World → World
taken_up now w = if status_eq w.campaign.status Status.failed then resume now w else w

-- `status in {PAUSED, CANCELLED, COMPLETED}`
abbrev pub is_stopped : Status → Bool
is_stopped Status.paused = true
is_stopped Status.cancelled = true
is_stopped Status.completed = true
is_stopped _ = false

-- `lease_expires_at__isnull=True` or `lease_expires_at__lt=now`
abbrev pub lease_free : ℕ → Campaign → Bool
lease_free now c = elim c.lease_expires_at [ none ↦ true | some t ↦ ltb t now ]

-- The columns of the claim.
abbrev pub claim_lease : ℕ → String → World → World
claim_lease now owner w = record w {
  campaign = record (w.campaign) {
    lease_owner = owner;
    lease_expires_at = some (now + 600);
    heartbeat_at = some now;
  };
}

module _ (s : Services) (now : ℕ) (owner item_owner : String) (max_items : Option ℤ) where
  -- The stages of the body of `try` in `run`.
  abbrev pub discover_stage : World → Flow
  discover_stage w = after_discover now (discover s.provider s.new_pk now w)

  abbrev pub fetch_stage : World → Flow
  fetch_stage w =
      after_fetch now (fetch s.import_item now s.due_at s.waiting_at item_owner max_items w)

  abbrev pub map_stage : World → Flow
  map_stage w = transition_required now Status.normalizing w

  abbrev pub normalize_stage : World → Flow
  normalize_stage w =
      after_stage normalize_fault now Status.reconciling (normalize s.normalize_item now w)

  abbrev pub reconcile_stage : World → Flow
  reconcile_stage w =
      transition_required now Status.enriching
        (reconcile_provider_records s.provider.discovery_complete w)

  abbrev pub enrich_stage : World → Flow
  enrich_stage w =
      after_stage enrich_fault now Status.reviewing (enrich s.enrich_item s.enrich_setting now w)

  abbrev pub review_stage : World → Flow
  review_stage w =
      transition_required now Status.completed
        (promote_watermark now (write_quality_report s.claims now w))

  -- The body of `try` from each status on.
  unfoldable pub from_reviewing : World → Flow
  from_reviewing w = at_status Status.reviewing review_stage w

  unfoldable pub from_enriching : World → Flow
  from_enriching w = then_flow (at_status Status.enriching enrich_stage w) from_reviewing

  unfoldable pub from_reconciling : World → Flow
  from_reconciling w = then_flow (at_status Status.reconciling reconcile_stage w) from_enriching

  unfoldable pub from_normalizing : World → Flow
  from_normalizing w = then_flow (at_status Status.normalizing normalize_stage w) from_reconciling

  unfoldable pub from_mapping : World → Flow
  from_mapping w = then_flow (at_status Status.mapping map_stage w) from_normalizing

  unfoldable pub from_fetching : World → Flow
  from_fetching w = then_flow (at_status Status.fetching fetch_stage w) from_mapping

  unfoldable pub stages : World → Flow
  stages w = then_flow (at_status Status.discovering discover_stage w) from_fetching

  -- `except Exception`
  unfoldable pub caught : Flow → World
  caught (goes w) = w
  caught (returned w) = w
  caught (raises e w) = fail now (s.text_of e) w

  -- A queued campaign starts to discover; if that transition is lost the step ends.
  unfoldable pub started : Bool × Campaign × World → World
  started (false, c, w) = release now owner w
  started (true, c, w) = release now owner (caught (stages w))

  -- The step after its claim and a resume.
  unfoldable pub run_taken : World → World
  run_taken w =
      if status_eq w.campaign.status Status.queued
      then started (advance now Status.discovering w.campaign w)
      else release now owner (caught (stages w))

  -- `run`
  unfoldable pub run : World → World
  run w =
      if not (is_stopped w.campaign.status) && lease_free now w.campaign
      then run_taken (taken_up now (claim_lease now owner w))
      else w
