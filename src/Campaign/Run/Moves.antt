-- ===== src/Campaign/Run/Moves.antt =====
-- The stages of a step move the status along the state machine, under the same owner of the lease
-- (src/apps/sync/services/campaign_service.py).
use mathlib.Core.Path.{subst}
use noshiro_db_backend.Base.{
  ℕ, ◌≡◌, refl, sym, ◌∙◌, ap, inl, inr, Bool, true, false, ◌&&◌, List, [], ◌∷◌, ◌++◌, String,
  Bool-cases, &&-left,
}
use noshiro_db_backend.Campaign.Model.{Status, status_eq, Campaign, World}
use noshiro_db_backend.Campaign.State.{allowed, advance, IsChain, last}
use noshiro_db_backend.Campaign.Fetch.{FetchResult}
use noshiro_db_backend.Campaign.Discovery.{DiscoverResult}
use noshiro_db_backend.Campaign.Stages.{StageResult, staged, stage_raised}
use noshiro_db_backend.Campaign.Stages.Sample.{rows}
use noshiro_db_backend.Campaign.Run.{
  Fault, Flow, goes, returned, raises, then_flow, required, transition_required, at_status,
  after_discover, after_fetch, after_stage,
}
use noshiro_db_backend.Campaign.Run.Stage.{control, found}

-- A way from one status to another by transitions that the state machine allows.
abbrev pub Moves : Status → Status → Type 0
Moves s t = (way : List Status) × IsChain s way × (last s way ≡ t)

IsChain-append :
    (s : Status) (xs ys : List Status)
    → IsChain s xs
    → IsChain (last s xs) ys
    → IsChain s (xs ++ ys)
IsChain-append s [] ys h k = k
IsChain-append s (x ∷ xs) ys h k = (h.0, IsChain-append x xs ys h.1 k)

last-append : (s : Status) (xs ys : List Status) → last s (xs ++ ys) ≡ last (last s xs) ys
last-append s [] ys = refl
last-append s (x ∷ xs) ys = last-append x xs ys

Moves-trans : (s t u : Status) → Moves s t → Moves t u → Moves s u
Moves-trans s t u (xs, h, e) (ys, k, f) = (
  xs ++ ys,
  IsChain-append s xs ys h (subst (λ v. IsChain v ys) (sym e) k),
  last-append s xs ys ∙ ap (λ v. last v ys) e ∙ f,
)

-- A world reached from a status by allowed transitions, under an owner of the lease.
abbrev pub From : Status × String → World → Type 0
From c w = Moves c.0 w.campaign.status × (w.campaign.lease_owner ≡ c.1)

abbrev pub world_of : Flow → World
world_of (goes w) = w
world_of (returned w) = w
world_of (raises e w) = w

pub From-same : (c : Status × String) (w : World) → control w ≡ c → From c w
From-same c w e = (([], tt, sym (ap (λ x. x.0) e)), ap (λ x. x.1) e)

pub From-along : (c : Status × String) (w v : World) → control w ≡ c → From (control w) v → From c v
From-along c w v e h = subst (λ x. From x v) e h

pub From-trans : (c : Status × String) (w v : World) → From c w → From (control w) v → From c v
From-trans c w v (m, o) (n, p) = (Moves-trans c.0 w.campaign.status v.campaign.status m n, p ∙ o)

pub advance-From :
    (now : ℕ) (next : Status) (w : World) → From (control w) (advance now next w.campaign w).2
unfolding advance
advance-From now next w =
    elim (Bool-cases
      (allowed w.campaign.status next && status_eq w.campaign.status w.campaign.status)) [
        | inl e ↦ rw e (
          (
            next ∷ [],
            (
              &&-left (allowed w.campaign.status next)
                  (status_eq w.campaign.status w.campaign.status) e,
              tt,
            ),
            refl,
          ),
          refl,
        )
        | inr e ↦ rw e (From-same (control w) w refl)
      ]

required-world : (next : Status) (r : Bool × Campaign × World) → world_of (required next r) ≡ r.2
unfolding required
required-world next (true, c, w) = refl
required-world next (false, c, w) = refl

pub transition-From :
    (now : ℕ) (next : Status) (c : Status × String) (w : World)
    → control w ≡ c
    → From c (world_of (transition_required now next w))
transition-From now next c w e =
    rw (required-world next (advance now next w.campaign w))
      (From-along c w (advance now next w.campaign w).2 e (advance-From now next w))

pub after_discover-From :
    (now : ℕ) (c : Status × String) (r : DiscoverResult)
    → control (found r) ≡ c
    → From c (world_of (after_discover now r))
unfolding after_discover
after_discover-From now c (DiscoverResult.raised w) e = From-same c w e
after_discover-From now c (DiscoverResult.discovered (false, w)) e = From-same c w e
after_discover-From now c (DiscoverResult.discovered (true, w)) e =
    transition-From now Status.fetching c w e

pub after_fetch-From :
    (now : ℕ) (c : Status × String) (r : FetchResult × World)
    → control r.1 ≡ c
    → From c (world_of (after_fetch now r))
unfolding after_fetch
after_fetch-From now c (FetchResult.retries_exhausted, w) e = From-same c w e
after_fetch-From now c (FetchResult.fetched false, w) e = From-same c w e
after_fetch-From now c (FetchResult.fetched true, w) e = transition-From now Status.mapping c w e

pub after_stage-From :
    (fault : Fault) (now : ℕ) (next : Status) (c : Status × String) (r : StageResult)
    → control (rows r) ≡ c
    → From c (world_of (after_stage fault now next r))
unfolding after_stage
after_stage-From fault now next c (stage_raised w) e = From-same c w e
after_stage-From fault now next c (staged false w) e = From-same c w e
after_stage-From fault now next c (staged true w) e = transition-From now next c w e

pub at_status-From :
    (status : Status) (body : World → Flow) (w : World)
    → From (control w) (world_of (body w))
    → From (control w) (world_of (at_status status body w))
unfolding at_status
at_status-From status body w h = elim (Bool-cases (status_eq w.campaign.status status)) [
  | inl e ↦ rw e h
  | inr e ↦ rw e (From-same (control w) w refl)
]

pub then_flow-From :
    (c : Status × String) (f : Flow) (next : World → Flow)
    → From c (world_of f)
    → ((w : World) → From (control w) (world_of (next w)))
    → From c (world_of (then_flow f next))
unfolding then_flow
then_flow-From c (goes w) next h k = From-trans c w (world_of (next w)) h (k w)
then_flow-From c (returned w) next h k = h
then_flow-From c (raises e w) next h k = h
