-- ===== src/Catalogue/Matching/Gate.antt =====
-- `_apply_policy` and the conditions of its gate.
use noshiro_db_backend.Base.{
  ℕ, ◌≤◌, ◌≡◌, ◌⊎◌, refl, sym, ap, ◌∙◌, inl, inr, Bool, true, false, [], some, String, Bool-cases,
  get, arith,
}
use mathlib.Core.Path.{subst}
use noshiro_db_backend.Base.Result.{ok, >>=-eq-ok, ok_injective, get_or_raise-eq-ok}
use noshiro_db_backend.Catalogue.Model.{
  Entity, MatchCandidate, MatchDecision, Outcome, World, Failure,
}
use noshiro_db_backend.Catalogue.Redirects.{resolve}
use noshiro_db_backend.Catalogue.Merge.{kind_eq, find_entity}
use noshiro_db_backend.Catalogue.WellFormed.{IsWellFormed}
use noshiro_db_backend.Catalogue.Decide.{is_pending, decide_candidate}
use noshiro_db_backend.Catalogue.Decide.Outcomes.{decide_candidate-effect}
use noshiro_db_backend.Catalogue.Decide.Final.{
  decide_candidate-IsWellFormed, decide_candidate-abstain,
}
use noshiro_db_backend.Catalogue.Proposals.{
  ProposalStatus, PolicyReason, AiProposal, AiPolicy, AiWorld,
}
use noshiro_db_backend.Catalogue.Matching.{
  policy_is_production_ready, has_conflicting_user_library_data, evidence_types, is_bind,
  bind_allowed, finish_and_decide, decide_by_gate, apply_policy,
}

-- The conditions of an automatic bind, on the candidate, the proposal and the two entity rows.
pub record IsGated (w : AiWorld) (p : AiProposal) (c : MatchCandidate) (policy : AiPolicy)
    : Type 0 where
  pub undecided : is_pending c.status ≡ true
  pub ready : policy_is_production_ready w policy c ≡ true
  pub proposed : p.decision ≡ Outcome.bind
  confident : policy.minimum_score ≤ p.confidence
  scored : policy.minimum_score ≤ c.score
  pub apart : policy.minimum_margin ≤ c.runner_up_margin
  evident : policy.minimum_evidence_types ≤ evidence_types w c
  pub left : Entity
  pub right : Entity
  left_found : get Entity.id c.left_entity w.catalogue.entities ≡ some left
  right_found : get Entity.id c.right_entity w.catalogue.entities ≡ some right
  same_kind : kind_eq left.kind right.kind ≡ true
  pub compatible : c.hard_conflicts ≡ []
  unshared : has_conflicting_user_library_data w.catalogue c ≡ false

is_bind-eq : (o : Outcome) → is_bind o ≡ true → o ≡ Outcome.bind
is_bind-eq o h = ground arith

bind_allowed-IsGated :
    (w : AiWorld) (p : AiProposal) (c : MatchCandidate) (a b : Entity) (policy : AiPolicy)
    → is_pending c.status ≡ true
    → policy_is_production_ready w policy c ≡ true
    → find_entity w.catalogue c.left_entity ≡ ok a
    → find_entity w.catalogue c.right_entity ≡ ok b
    → bind_allowed w p c a b policy ≡ true
    → IsGated w p c policy
unfolding bind_allowed find_entity
bind_allowed-IsGated w p c a b policy undecided ready fa fb h = record {
  undecided = undecided;
  ready = ready;
  proposed = is_bind-eq p.decision (ground (arith, h));
  confident = ground (arith, h);
  scored = ground (arith, h);
  apart = ground (arith, h);
  evident = ground (arith, h);
  left = a;
  right = b;
  left_found =
      get_or_raise-eq-ok Failure.does_not_exist (get Entity.id c.left_entity w.catalogue.entities)
        fa;
  right_found =
      get_or_raise-eq-ok Failure.does_not_exist (get Entity.id c.right_entity w.catalogue.entities)
        fb;
  same_kind = ground (arith, h);
  compatible = ground (arith, h);
  unshared = ground (arith, h);
}

-- What a decision of the policy leads to: no entity has moved, or the gate was passed and the
-- candidate's entities resolve to the same one.
abbrev pub IsGuarded : AiWorld → AiProposal → MatchCandidate → AiPolicy → AiWorld → Type 0
IsGuarded w p c policy w' =
    (w'.catalogue.redirects ≡ w.catalogue.redirects)
    ⊎ (IsGated w p c policy
        × (resolve w'.catalogue.redirects c.left_entity
            ≡ resolve w'.catalogue.redirects c.right_entity))

finish_and_decide-eq :
    (w : AiWorld) (p : AiProposal) (c : MatchCandidate) (status : ProposalStatus)
    (reason : PolicyReason) (outcome : Outcome) (text : String) (now new_id : ℕ) (w' : AiWorld)
    → finish_and_decide w p c status reason outcome text now new_id ≡ ok w'
    → (d : MatchDecision × World) × (decide_candidate w.catalogue c.id outcome "ai_policy" text
          new_id
        ≡ ok d)
      × (w'.catalogue ≡ d.1)
unfolding finish_and_decide
finish_and_decide-eq w p c status reason outcome text now new_id w' h =
    let (d, decided, done) =
      >>=-eq-ok (decide_candidate w.catalogue c.id outcome "ai_policy" text new_id) _ h in
    (d, decided, sym (ap AiWorld.catalogue (ok_injective done)))

module _ (w : AiWorld) (p : AiProposal) (c : MatchCandidate) (policy : AiPolicy) (now new_id : ℕ)
    (w' : AiWorld) (v : IsWellFormed w.catalogue)
    (found : get MatchCandidate.id c.id w.catalogue.candidates ≡ some c) where
  decide_by_gate-IsGuarded :
      (allowed : Bool)
      → (allowed ≡ true → IsGated w p c policy)
      → decide_by_gate allowed w p c now new_id ≡ ok w'
      → IsWellFormed w'.catalogue × IsGuarded w p c policy w'
  decide_by_gate-IsGuarded true gate h =
      let (d, decided, same) =
        finish_and_decide-eq w p c ProposalStatus.accepted PolicyReason.passed_gate Outcome.bind
          "Passed calibrated conservative auto-bind gate." now new_id w' h in
      let (kept, together) =
        decide_candidate-effect w.catalogue c.id Outcome.bind "ai_policy"
          "Passed calibrated conservative auto-bind gate." new_id d c v found decided in
      (
        subst IsWellFormed (sym same) kept,
        inr (
          gate refl,
          subst
              (λ (q : World).
                resolve q.redirects c.left_entity ≡ resolve q.redirects c.right_entity)
              (sym same) together,
        ),
      )
  decide_by_gate-IsGuarded false gate h =
      let (d, decided, same) =
        finish_and_decide-eq w p c ProposalStatus.abstained PolicyReason.failed_gate Outcome.abstain
          "Conservative policy abstained because one or more bind gates failed." now new_id w' h in
      (
        subst IsWellFormed (sym same) (
            decide_candidate-IsWellFormed w.catalogue c.id Outcome.abstain "ai_policy"
              "Conservative policy abstained because one or more bind gates failed." new_id d v
              decided),
        inl (
            ap World.redirects same
            ∙ decide_candidate-abstain w.catalogue c.id "ai_policy"
                "Conservative policy abstained because one or more bind gates failed." new_id d
                decided),
      )

  -- The policy keeps the catalogue well formed, and merges only what has passed its gate.
  pub apply_policy-IsGuarded :
      apply_policy w p c policy now new_id ≡ ok w'
      → IsWellFormed w'.catalogue × IsGuarded w p c policy w'
  unfolding apply_policy
  apply_policy-IsGuarded h = elim (Bool-cases (is_pending c.status)) [
    | inr decided ↦
        let same : w'.catalogue ≡ w.catalogue =
          sym (ap AiWorld.catalogue (ok_injective (rw decided at h))) in
        (subst IsWellFormed (sym same) v, inl (ap World.redirects same))
    | inl undecided ↦ elim (Bool-cases (policy_is_production_ready w policy c)) [
      | inr shadow ↦
          let same : w'.catalogue ≡ w.catalogue =
            sym (ap AiWorld.catalogue (ok_injective (rw (undecided, shadow) at h))) in
          (subst IsWellFormed (sym same) v, inl (ap World.redirects same))
      | inl ready ↦
          let h0 = (rw (undecided, ready) at h) in
          let (a, fa, h1) = >>=-eq-ok (find_entity w.catalogue c.left_entity) _ h0 in
          let (b, fb, h2) = >>=-eq-ok (find_entity w.catalogue c.right_entity) _ h1 in
          decide_by_gate-IsGuarded (bind_allowed w p c a b policy)
            (bind_allowed-IsGated w p c a b policy undecided ready fa fb) h2
    ]
  ]
