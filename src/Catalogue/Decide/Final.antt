-- ===== src/Catalogue/Decide/Final.antt =====
-- What a decision leaves: the candidate that is decided, and an abstention.
use noshiro_db_backend.Base.{
  ℕ, ◌≡◌, refl, sym, ap, ◌∙◌, true, false, not, List, [], ◌∷◌, ◌++◌, none, some, String, get,
  key-get, some_injective, arith,
}
use noshiro_db_backend.Base.Result.{ok, err, ◌>>◌, raise_if, ok_injective}
use noshiro_db_backend.Catalogue.Model.{
  MatchCandidate, Outcome, CandidateStatus, DecisionData, MatchDecision, World, Failure,
}
use noshiro_db_backend.Catalogue.Merge.Granted.{merge-IsMerged}
use noshiro_db_backend.Catalogue.WellFormed.{IsWellFormed}
use noshiro_db_backend.Catalogue.Decide.{
  is_pending, status_by_outcome, merge_method, apply_outcome, set_status, new_decision,
  decide_candidate,
}
use noshiro_db_backend.Catalogue.Decide.Outcomes.{
  decide-IsDecided, bind-IsBound, decide_candidate-effect,
}

-- The candidates after an outcome are those before it.
apply_outcome-candidates :
    (w : World) (c : MatchCandidate) (outcome : Outcome) (decided_by reason : String) (new_id : ℕ)
    (res : DecisionData × World)
    → apply_outcome w c outcome decided_by reason new_id ≡ ok res
    → res.1.candidates ≡ w.candidates
apply_outcome-candidates w c Outcome.bind decided_by reason new_id res h =
    let b = bind-IsBound w c decided_by reason new_id res h in
    ap World.candidates
      (merge-IsMerged w b.source.id b.target.id (merge_method b.by) b.why none b.key
        (b.event, res.1) b.merged).tables
apply_outcome-candidates w c Outcome.group decided_by reason new_id res h =
    ap (λ (q : DecisionData × World). q.1.candidates) (sym (ok_injective h))
apply_outcome-candidates w c Outcome.reject decided_by reason new_id res h =
    ap (λ (q : DecisionData × World). q.1.candidates) (sym (ok_injective h))
apply_outcome-candidates w c Outcome.abstain decided_by reason new_id res h =
    ap (λ (q : DecisionData × World). q.1.candidates) (sym (ok_injective h))

get-set_status :
    (state : CandidateStatus) (k : ℕ) (t : List MatchCandidate) (c : MatchCandidate)
    → get MatchCandidate.id k t ≡ some c
    → get MatchCandidate.id k (set_status state k t) ≡ some (record c { status = state })
get-set_status state k [] c h = absurd (cc)
get-set_status state k (x ∷ t) c h = ground (arith, get-set_status state k t c)

pub status_by_outcome_decided : (o : Outcome) → is_pending (status_by_outcome o) ≡ false
status_by_outcome_decided Outcome.bind = refl
status_by_outcome_decided Outcome.group = refl
status_by_outcome_decided Outcome.reject = refl
status_by_outcome_decided Outcome.abstain = refl

decided_is_refused :
    (w : World) (id : ℕ) (c : MatchCandidate) (outcome : Outcome) (decided_by reason : String)
    (new_id : ℕ)
    → get MatchCandidate.id id w.candidates ≡ some c
    → is_pending c.status ≡ false
    → decide_candidate w id outcome decided_by reason new_id ≡ err Failure.already_decided
unfolding decide_candidate
decided_is_refused w id c outcome decided_by reason new_id found e = rw (found, e) refl

-- A decision is final: the row keeps the status of the outcome, and a second decision is refused.
pub decide_candidate-final :
    (w : World) (id : ℕ) (outcome again : Outcome) (decided_by by reason why : String)
    (new_id other_id : ℕ) (res : MatchDecision × World) (c : MatchCandidate)
    → get MatchCandidate.id id w.candidates ≡ some c
    → decide_candidate w id outcome decided_by reason new_id ≡ ok res
    → (get MatchCandidate.id id res.1.candidates
        ≡ some (record c { status = status_by_outcome outcome }))
      × (decide_candidate res.1 id again by why other_id ≡ err Failure.already_decided)
decide_candidate-final w id outcome again decided_by by reason why new_id other_id res c found h =
    let d = decide-IsDecided w id outcome decided_by reason new_id res h in
    let same : d.candidate ≡ c = some_injective (sym d.found ∙ found) in
    let key : d.candidate.id ≡ id = key-get MatchCandidate.id id w.candidates d.candidate d.found in
    let state = status_by_outcome outcome in
    let rows : res.1.candidates ≡ set_status state id w.candidates =
      ap (λ (q : MatchDecision × World). q.1.candidates) d.result
      ∙ apply_outcome-candidates
          (record w { candidates = set_status state d.candidate.id w.candidates }) d.candidate
          outcome decided_by reason new_id (d.kept, d.after) d.applied
      ∙ ap (λ (k : ℕ). set_status state k w.candidates) key in
    let row : get MatchCandidate.id id res.1.candidates ≡ some (record c { status = state }) =
      ap (get MatchCandidate.id id) rows ∙ get-set_status state id w.candidates c found in
    (
      row,
      decided_is_refused res.1 id (record c { status = state }) again by why other_id row
          (status_by_outcome_decided outcome),
    )

-- A decision keeps the catalogue well formed.
pub decide_candidate-IsWellFormed :
    (w : World) (id : ℕ) (outcome : Outcome) (decided_by reason : String) (new_id : ℕ)
    (res : MatchDecision × World)
    → IsWellFormed w
    → decide_candidate w id outcome decided_by reason new_id ≡ ok res
    → IsWellFormed res.1
decide_candidate-IsWellFormed w id outcome decided_by reason new_id res v h =
    let d = decide-IsDecided w id outcome decided_by reason new_id res h in
    (decide_candidate-effect w id outcome decided_by reason new_id res d.candidate v d.found h).0

-- An abstention moves no entity.
pub decide_candidate-abstain :
    (w : World) (id : ℕ) (decided_by reason : String) (new_id : ℕ) (res : MatchDecision × World)
    → decide_candidate w id Outcome.abstain decided_by reason new_id ≡ ok res
    → res.1.redirects ≡ w.redirects
decide_candidate-abstain w id decided_by reason new_id res h =
    let d = decide-IsDecided w id Outcome.abstain decided_by reason new_id res h in
    ap (λ (q : MatchDecision × World). q.1.redirects) d.result
    ∙ ap (λ (q : DecisionData × World). q.1.redirects) (sym (ok_injective d.applied))

-- What an abstention leaves.
abbrev pub abstained_result : World → MatchCandidate → String → String → MatchDecision × World
abstained_result w c decided_by reason =
    let row = new_decision c Outcome.abstain decided_by reason DecisionData.no_data in
    (
      row,
      record w {
        candidates = set_status CandidateStatus.abstained c.id w.candidates;
        decisions = w.decisions ++ row ∷ [];
      },
    )

-- An abstention from a pending candidate raises nothing.
pub decide_candidate-abstained :
    (w : World) (id : ℕ) (c : MatchCandidate) (decided_by reason : String) (new_id : ℕ)
    → get MatchCandidate.id id w.candidates ≡ some c
    → is_pending c.status ≡ true
    → decide_candidate w id Outcome.abstain decided_by reason new_id
      ≡ ok (abstained_result w c decided_by reason)
unfolding decide_candidate
decide_candidate-abstained w id c decided_by reason new_id found pending = rw found (
    ap
      (λ t. raise_if (not t) Failure.already_decided >> ok (abstained_result w c decided_by reason))
      pending)
