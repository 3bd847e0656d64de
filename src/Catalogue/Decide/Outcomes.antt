-- ===== src/Catalogue/Decide/Outcomes.antt =====
-- What a decision on a candidate does to the catalogue: `decide_candidate` by its outcomes.
use noshiro_db_backend.Base.{
  ℕ, ◌≡◌, ◌⊎◌, refl, sym, ap, ◌∙◌, inl, inr, Bool, true, false, ◌==◌, not, List, [], ◌∷◌, ◌++◌,
  none, some, String, if◌then◌else◌, ==_refl, get, some_injective, arith,
}
use mathlib.Core.Path.{subst}
use noshiro_db_backend.Base.Result.{
  Result, ok, get_or_raise, >>=-eq-ok, raise_if-eq-ok, get_or_raise-eq-ok, ok_injective,
}
use noshiro_db_backend.Catalogue.Model.{
  Entity, EntityRedirect, MergeEvent, MatchCandidate, Outcome, DecisionData, MatchDecision, World,
  Failure,
}
use noshiro_db_backend.Catalogue.Redirects.{resolve}
use noshiro_db_backend.Catalogue.Redirects.Resolve.{resolve-resolve}
use noshiro_db_backend.Catalogue.Merge.{merge}
use noshiro_db_backend.Catalogue.Merge.Forest.{merge-resolve}
use noshiro_db_backend.Catalogue.WellFormed.{IsWellFormed, merge-IsWellFormed}
use noshiro_db_backend.Catalogue.Decide.{
  is_pending, status_by_outcome, canonical_pair, merge_method, bind_pair, apply_outcome, set_status,
  new_decision, decide_candidate,
}
use noshiro_db_backend.Catalogue.Decide.Flip.{canonical_pair-resolve}

-- A decision that returned.
pub record IsDecided (w : World) (id : ℕ) (outcome : Outcome) (decided_by reason : String)
    (new_id : ℕ) (res : MatchDecision × World) : Type 0 where
  pub candidate : MatchCandidate
  pub found : get MatchCandidate.id id w.candidates ≡ some candidate
  pub was_pending : is_pending candidate.status ≡ true
  pub kept : DecisionData
  pub after : World
  pub applied :
      apply_outcome
        (record w { candidates = set_status (status_by_outcome outcome) candidate.id w.candidates })
        candidate
        outcome
        decided_by
        reason
        new_id
      ≡ ok (kept, after)
  pub result : res ≡ (
    new_decision candidate outcome decided_by reason kept,
    record after {
      decisions = after.decisions ++ new_decision candidate outcome decided_by reason kept ∷ [];
    },
  )

pub decide-IsDecided :
    (w : World) (id : ℕ) (outcome : Outcome) (decided_by reason : String) (new_id : ℕ)
    (res : MatchDecision × World)
    → decide_candidate w id outcome decided_by reason new_id ≡ ok res
    → IsDecided w id outcome decided_by reason new_id res
unfolding decide_candidate
decide-IsDecided w id outcome decided_by reason new_id res h =
    let (c, found, h1) =
      >>=-eq-ok (get_or_raise Failure.does_not_exist (get MatchCandidate.id id w.candidates)) _ h in
    let (pending, h2) = raise_if-eq-ok (not (is_pending c.status)) Failure.already_decided _ h1 in
    let (p, applied, h3) =
      >>=-eq-ok
        (apply_outcome
          (record w { candidates = set_status (status_by_outcome outcome) c.id w.candidates }) c
          outcome decided_by reason new_id)
        _ h2 in
    record {
      candidate = c;
      found =
          get_or_raise-eq-ok Failure.does_not_exist (get MatchCandidate.id id w.candidates) found;
      was_pending = ground (arith, pending);
      kept = p.0;
      after = p.1;
      applied = applied;
      result = sym (ok_injective h3);
    }

-- A bind that returned.
pub record IsBound (w : World) (c : MatchCandidate) (res : DecisionData × World) : Type 0 where
  pub source : Entity
  pub target : Entity
  pub chosen : canonical_pair w c.left_entity c.right_entity ≡ ok (source, target)
  pub event : MergeEvent
  pub by : String
  pub why : String
  pub key : ℕ
  pub merged : merge w source.id target.id (merge_method by) why none key ≡ ok (event, res.1)

pub bind-IsBound :
    (w : World) (c : MatchCandidate) (decided_by reason : String) (new_id : ℕ)
    (res : DecisionData × World)
    → bind_pair w c decided_by reason new_id ≡ ok res
    → IsBound w c res
unfolding bind_pair
bind-IsBound w c decided_by reason new_id res h =
    let (p, chosen, h1) = >>=-eq-ok (canonical_pair w c.left_entity c.right_entity) _ h in
    let (q, merged, h2) =
      >>=-eq-ok (merge w p.0.id p.1.id (merge_method decided_by) reason none new_id) _ h1 in
    subst (IsBound w c) (ok_injective h2) (record {
      source = p.0;
      target = p.1;
      chosen = chosen;
      event = q.0;
      by = decided_by;
      why = reason;
      key = new_id;
      merged = merged;
    })

-- What an outcome does to the redirects.
abbrev HasEffect : Outcome → MatchCandidate → List EntityRedirect → List EntityRedirect → Type 0
HasEffect Outcome.bind c before after = resolve after c.left_entity ≡ resolve after c.right_entity
HasEffect _ c before after = after ≡ before

-- After a merge of two canonical entities, what resolved to either resolves to the target.
merged_together :
    (w : World) (c : MatchCandidate) (res : DecisionData × World)
    → IsWellFormed w
    → (b : IsBound w c res) → (e : ℕ)
    → (resolve w.redirects e ≡ ok b.source.id) ⊎ (resolve w.redirects e ≡ ok b.target.id)
    → resolve res.1.redirects e ≡ ok b.event.target_entity
merged_together w c res v b e h =
    let (forest, source, target, moves) =
      merge-resolve w b.source.id b.target.id (merge_method b.by) b.why none b.key (b.event, res.1)
        v.forest b.merged in
    elim h [
      | inl at ↦
          let same : b.source.id ≡ b.event.source_entity =
            ok_injective (sym (resolve-resolve w.redirects e b.source.id at) ∙ source) in
          moves e b.source.id at
          ∙ ap (λ (k : ℕ). ok (if b.event.source_entity == k then b.event.target_entity else k))
              same
          ∙ ap (λ t. ok (if t then b.event.target_entity else b.event.source_entity))
              (==_refl b.event.source_entity)
      | inr at ↦
          let same : b.target.id ≡ b.event.target_entity =
            ok_injective (sym (resolve-resolve w.redirects e b.target.id at) ∙ target) in
          moves e b.target.id at
          ∙ ap (λ (k : ℕ). ok (if b.event.source_entity == k then b.event.target_entity else k))
              same
          ∙ stays (b.event.source_entity == b.event.target_entity) b.event.target_entity
    ]
  where
    stays : (t : Bool) (k : ℕ) → ◌≡◌ {A = Result Failure ℕ} (ok (if t then k else k)) (ok k)
    stays true k = refl
    stays false k = refl

bind-effect :
    (w : World) (c : MatchCandidate) (res : DecisionData × World)
    → IsWellFormed w
    → IsBound w c res
    → resolve res.1.redirects c.left_entity ≡ resolve res.1.redirects c.right_entity
bind-effect w c res v b =
    elim (canonical_pair-resolve w c.left_entity c.right_entity (b.source, b.target) b.chosen) [
      | inl (l, r) ↦
          merged_together w c res v b c.left_entity (inl l)
          ∙ sym (merged_together w c res v b c.right_entity (inr r))
      | inr (r, l) ↦
          merged_together w c res v b c.left_entity (inr l)
          ∙ sym (merged_together w c res v b c.right_entity (inl r))
    ]

apply_outcome-effect :
    (w : World) (c : MatchCandidate) (outcome : Outcome) (decided_by reason : String) (new_id : ℕ)
    (res : DecisionData × World)
    → IsWellFormed w
    → apply_outcome w c outcome decided_by reason new_id ≡ ok res
    → IsWellFormed res.1 × HasEffect outcome c w.redirects res.1.redirects
apply_outcome-effect w c Outcome.bind decided_by reason new_id res v h =
    let b = bind-IsBound w c decided_by reason new_id res h in
    (
      merge-IsWellFormed w b.source.id b.target.id (merge_method b.by) b.why none b.key
          (b.event, res.1) v b.merged,
      bind-effect w c res v b,
    )
apply_outcome-effect w c Outcome.group decided_by reason new_id res v h =
    subst (λ (q : DecisionData × World). IsWellFormed q.1 × (q.1.redirects ≡ w.redirects))
      (ok_injective h) (v, refl)
apply_outcome-effect w c Outcome.reject decided_by reason new_id res v h =
    subst (λ (q : DecisionData × World). IsWellFormed q.1 × (q.1.redirects ≡ w.redirects))
      (ok_injective h) (v, refl)
apply_outcome-effect w c Outcome.abstain decided_by reason new_id res v h =
    subst (λ (q : DecisionData × World). IsWellFormed q.1 × (q.1.redirects ≡ w.redirects))
      (ok_injective h) (v, refl)

-- A decision that returns keeps the catalogue well formed. After a bind both entities of the
-- candidate resolve to the same one, after any other outcome the redirects are as before.
pub decide_candidate-effect :
    (w : World) (id : ℕ) (outcome : Outcome) (decided_by reason : String) (new_id : ℕ)
    (res : MatchDecision × World) (c : MatchCandidate)
    → IsWellFormed w
    → get MatchCandidate.id id w.candidates ≡ some c
    → decide_candidate w id outcome decided_by reason new_id ≡ ok res
    → IsWellFormed res.1 × HasEffect outcome c w.redirects res.1.redirects
decide_candidate-effect w id outcome decided_by reason new_id res c v found h =
    let d = decide-IsDecided w id outcome decided_by reason new_id res h in
    let same : d.candidate ≡ c = some_injective (sym d.found ∙ found) in
    let marked : World = record w {
      candidates = set_status (status_by_outcome outcome) d.candidate.id w.candidates;
    } in
    let start : IsWellFormed marked = record {
      keyed = v.keyed;
      forest = v.forest;
      one = v.one;
      linked = v.linked;
    } in
    let (kept, effect) =
      apply_outcome-effect marked d.candidate outcome decided_by reason new_id (d.kept, d.after)
        start d.applied in
    subst
      (λ (q : MatchDecision × World).
        IsWellFormed q.1 × HasEffect outcome c w.redirects q.1.redirects)
      (sym d.result)
      (
        record { keyed = kept.keyed; forest = kept.forest; one = kept.one; linked = kept.linked },
        subst (λ x. HasEffect outcome x w.redirects d.after.redirects) same effect,
      )
