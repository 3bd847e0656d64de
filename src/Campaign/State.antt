-- ===== src/Campaign/State.antt =====
-- The campaign's state machine (src/apps/sync/services/campaign_state.py).
use noshiro_db_backend.Base.{
  ℕ, ◌≡◌, refl, ◌≢◌, ◌⊎◌, inl, inr, Bool, true, false, ◌&&◌, Option, none, some, List, [], ◌∷◌,
  arith, if◌then◌else◌, is_some, Bool-cases, &&-left, &&-right, All, sym, ◌∙◌,
}
use noshiro_db_backend.Campaign.Model.{Status, Campaign, World, status_eq, status_eq_iff}

-- The seven working statuses, in their order.
abbrev pub stage : Status → Option ℕ
stage Status.discovering = some 1
stage Status.fetching = some 2
stage Status.mapping = some 3
stage Status.normalizing = some 4
stage Status.reconciling = some 5
stage Status.enriching = some 6
stage Status.reviewing = some 7
stage _ = none

-- `_TRANSITIONS.get((status, next_status))` is not `None`: the value is always `next_status`.
unfoldable pub allowed : Status → Status → Bool
allowed Status.queued Status.discovering = true
allowed Status.discovering Status.fetching = true
allowed Status.fetching Status.mapping = true
allowed Status.mapping Status.normalizing = true
allowed Status.normalizing Status.reconciling = true
allowed Status.reconciling Status.enriching = true
allowed Status.enriching Status.reviewing = true
allowed Status.reviewing Status.completed = true
allowed s Status.failed = is_some (stage s)
allowed s Status.cancelled = is_some (stage s)
allowed s Status.paused = is_some (stage s)
allowed Status.paused next = is_some (stage next)
allowed _ _ = false

-- `new_status in {COMPLETED, FAILED, CANCELLED}`
abbrev pub ends : Status → Bool
ends Status.completed = true
ends Status.failed = true
ends Status.cancelled = true
ends _ = false

-- The columns that `advance` writes; `copy` is the machine's copy of the row.
abbrev advance_columns : ℕ → Campaign → Status → Campaign → Campaign
advance_columns now copy next row = record row {
  status = next;
  updated_at = now;
  started_at = if status_eq copy.status Status.queued then some now else row.started_at;
  finished_at = if ends next then some now else row.finished_at;
}

-- `SyncCampaignStateMachine.advance`: the answer, the copy and the world. The update is guarded by
-- the status of the copy.
unfoldable pub advance : ℕ → Status → Campaign → World → Bool × Campaign × World
unfolding allowed
advance now next copy w =
    if allowed copy.status next && status_eq w.campaign.status copy.status
    then (
      true,
      record copy { status = next },
      record w { campaign = advance_columns now copy next w.campaign },
    )
    else (false, copy, w)

-- A chain of statuses, each allowed after the one before.
abbrev pub IsChain : Status → List Status → Type 0
IsChain s [] = Unit
IsChain s (t ∷ ts) = (allowed s t ≡ true) × IsChain t ts

abbrev pub last : Status → List Status → Status
last s [] = s
last s (t ∷ ts) = last t ts

-- An ended campaign moves nowhere by its state machine.
allowed_ended : (s t : Status) → ends s ≡ true → allowed s t ≡ false
unfolding allowed
allowed_ended s t h = ground arith

chain_ended : (s : Status) (ts : List Status) → ends s ≡ true → IsChain s ts → last s ts ≡ s
chain_ended s [] h c = refl
chain_ended s (t ∷ ts) h c = absurd (cc (allowed_ended s t h, c.0))

-- What is left of the pipeline after a status.
abbrev remaining : Status → List Status
remaining Status.queued =
    Status.discovering ∷ Status.fetching ∷ Status.mapping ∷ Status.normalizing ∷ Status.reconciling
    ∷ Status.enriching ∷ Status.reviewing ∷ Status.completed ∷ []
remaining Status.discovering =
    Status.fetching ∷ Status.mapping ∷ Status.normalizing ∷ Status.reconciling ∷ Status.enriching
    ∷ Status.reviewing ∷ Status.completed ∷ []
remaining Status.fetching =
    Status.mapping ∷ Status.normalizing ∷ Status.reconciling ∷ Status.enriching ∷ Status.reviewing
    ∷ Status.completed ∷ []
remaining Status.mapping =
    Status.normalizing ∷ Status.reconciling ∷ Status.enriching ∷ Status.reviewing ∷ Status.completed
    ∷ []
remaining Status.normalizing =
    Status.reconciling ∷ Status.enriching ∷ Status.reviewing ∷ Status.completed ∷ []
remaining Status.reconciling = Status.enriching ∷ Status.reviewing ∷ Status.completed ∷ []
remaining Status.enriching = Status.reviewing ∷ Status.completed ∷ []
remaining Status.reviewing = Status.completed ∷ []
remaining _ = []

-- One step of the pipeline, of a chain that neither pauses nor ends without completing.
remaining-step :
    (s t : Status)
    → allowed s t ≡ true
    → s ≢ Status.paused
    → t ≢ Status.paused
    → ((ends t ≡ true) × (t ≢ Status.completed)) ⊎ (remaining s ≡ t ∷ remaining t)
unfolding allowed
remaining-step s t a p q = ground arith

-- Along the allowed transitions, a campaign that is not paused and completes without a pause goes
-- through all that is left of the pipeline from where it stands, each stage once and in order.
chain-remaining :
    (s : Status) (ts : List Status)
    → IsChain s ts
    → s ≢ Status.paused
    → All (λ t. t ≢ Status.paused) ts
    → last s ts ≡ Status.completed
    → ts ≡ remaining s
chain-remaining s [] c p ps e = rw e
chain-remaining s (t ∷ ts) c p ps e = elim (remaining-step s t c.0 p ps.0) [
  | inl (ended, other) ↦ absurd (other (sym (chain_ended t ts ended c.1) ∙ e))
  | inr step ↦ rw (step, ← chain-remaining t ts c.1 ps.0 ps.1 e)
]

-- A granted transition is an allowed one from the status that the row had, and a refused one changes
-- nothing; started and finished are noted on leaving the queue and on an end.
advance-status :
    (now : ℕ) (next : Status) (copy : Campaign) (w : World)
    → (((advance now next copy w).0 ≡ true)
        × (allowed w.campaign.status next ≡ true)
        × ((advance now next copy w).2.campaign.status ≡ next)
        × ((advance now next copy w).2.campaign.finished_at
            ≡ (if ends next then some now else w.campaign.finished_at))
        × ((advance now next copy w).2.campaign.started_at ≡ (
            if status_eq w.campaign.status Status.queued then some now else w.campaign.started_at)))
      ⊎ (advance now next copy w ≡ (false, copy, w))
unfolding advance
advance-status now next copy w =
    elim (Bool-cases (allowed copy.status next && status_eq w.campaign.status copy.status)) [
      | inr e ↦ inr (rw e)
      | inl e ↦
          let same : w.campaign.status ≡ copy.status =
            (status_eq_iff w.campaign.status copy.status).0
              (&&-right (allowed copy.status next) _ e) in
          inl (
            rw e (
              refl,
              rw same (&&-left _ (status_eq w.campaign.status copy.status) e),
              refl,
              refl,
              rw same refl,
            ))
    ]
