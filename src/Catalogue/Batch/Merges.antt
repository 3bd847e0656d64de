-- ===== src/Catalogue/Batch/Merges.antt =====
-- The merges that a batch makes, against those that it reports.
use noshiro_db_backend.Base.{
  ℕ, ◌+◌, ◌≡◌, refl, ap, sym, ◌∙◌, ◌≤◌, length, length-append, none, String, arith, if◌then◌else◌,
  inl, inr, Bool, true, false, List, [], ◌∷◌, Bool-cases, get,
}
use noshiro_db_backend.Base.Result.{Result, ok, err, >>=-eq-ok, ok_injective, get_or_raise}
use noshiro_db_backend.Catalogue.Model.{
  MatchCandidate, Outcome, DecisionData, MatchDecision, World, Failure,
}
use noshiro_db_backend.Catalogue.Decide.{
  is_pending, merge_method, apply_outcome, set_status, status_by_outcome, decide_candidate,
}
use noshiro_db_backend.Catalogue.Merge.Granted.{merge-IsMerged}
use noshiro_db_backend.Catalogue.Decide.Outcomes.{decide-IsDecided, bind-IsBound}
use noshiro_db_backend.Catalogue.Proposals.{AiWorld}
use noshiro_db_backend.Catalogue.Batch.{
  PendingRow, pending_rows, gate_reasons, is_eligible, bind_reason, decide_row, decide, Summary,
  empty_summary, note_row, count_result, batch_step, batch_loop, run,
}

-- How many merge events a decision adds, at most.
abbrev events_of : Outcome → ℕ
events_of Outcome.bind = 1
events_of _ = 0

apply_outcome-merges :
    (w : World) (c : MatchCandidate) (outcome : Outcome) (decided_by reason : String) (new_id : ℕ)
    (res : DecisionData × World)
    → apply_outcome w c outcome decided_by reason new_id ≡ ok res
    → length res.1.merges ≡ length w.merges + events_of outcome
apply_outcome-merges w c Outcome.bind decided_by reason new_id res h =
    let b = bind-IsBound w c decided_by reason new_id res h in
    let m =
      merge-IsMerged w b.source.id b.target.id (merge_method b.by) b.why none b.key (b.event, res.1)
        b.merged in
    ap (λ (q : World). length q.merges) m.tables ∙ length-append w.merges (b.event ∷ [])
apply_outcome-merges w c Outcome.group decided_by reason new_id res h =
    ap (λ (q : DecisionData × World). length q.1.merges) (sym (ok_injective h)) ∙ omega arith
apply_outcome-merges w c Outcome.reject decided_by reason new_id res h =
    ap (λ (q : DecisionData × World). length q.1.merges) (sym (ok_injective h)) ∙ omega arith
apply_outcome-merges w c Outcome.abstain decided_by reason new_id res h =
    ap (λ (q : DecisionData × World). length q.1.merges) (sym (ok_injective h)) ∙ omega arith

decide_candidate-merges :
    (w : World) (id : ℕ) (outcome : Outcome) (decided_by reason : String) (new_id : ℕ)
    (res : MatchDecision × World)
    → decide_candidate w id outcome decided_by reason new_id ≡ ok res
    → length res.1.merges ≡ length w.merges + events_of outcome
decide_candidate-merges w id outcome decided_by reason new_id res h =
    let d = decide-IsDecided w id outcome decided_by reason new_id res h in
    ap (λ (q : MatchDecision × World). length q.1.merges) d.result
    ∙ apply_outcome-merges
        (record w {
          candidates = set_status (status_by_outcome outcome) d.candidate.id w.candidates;
        })
        d.candidate outcome decided_by reason new_id (d.kept, d.after) d.applied

-- The merge events of the catalogue.
abbrev pub merges_in : AiWorld → ℕ
merges_in w = length w.catalogue.merges

abbrev bound_by : Bool → ℕ
bound_by eligible = if eligible then 1 else 0

decide_row-merges :
    (eligible : Bool) (w : AiWorld) (row : PendingRow) (c : MatchCandidate) (now new_id : ℕ)
    (w' : AiWorld)
    → decide_row eligible w row c now new_id ≡ ok w'
    → merges_in w' ≡ merges_in w + bound_by eligible
decide_row-merges true w row c now new_id w' h =
    let (d, decided, done) =
      >>=-eq-ok
        (decide_candidate w.catalogue c.id Outcome.bind "admin_batch" (bind_reason row.proposal c)
          new_id)
        _ h in
    ap merges_in (sym (ok_injective done))
    ∙ decide_candidate-merges w.catalogue c.id Outcome.bind "admin_batch"
        (bind_reason row.proposal c) new_id d decided
decide_row-merges false w row c now new_id w' h =
    let (d, decided, done) =
      >>=-eq-ok
        (decide_candidate w.catalogue c.id Outcome.abstain "admin_batch"
          "Admin conservative batch abstained." new_id)
        _ h in
    ap merges_in (sym (ok_injective done))
    ∙ decide_candidate-merges w.catalogue c.id Outcome.abstain "admin_batch"
        "Admin conservative batch abstained." new_id d decided

decide-merges :
    (w : AiWorld) (row : PendingRow) (eligible : Bool) (now new_id : ℕ) (w' : AiWorld)
    → decide w row eligible now new_id ≡ ok w'
    → merges_in w' ≤ merges_in w + bound_by eligible
unfolding decide
decide-merges w row eligible now new_id w' h =
    let (c, found, h1) =
      >>=-eq-ok
        (get_or_raise Failure.does_not_exist
          (get MatchCandidate.id row.candidate.id w.catalogue.candidates))
        _ h in
    elim (Bool-cases (is_pending c.status)) [
      | inl pending ↦
          omega (arith, decide_row-merges eligible w row c now new_id w' (rw pending at h1))
      | inr decided ↦ omega (arith, ap merges_in (ok_injective (rw decided at h1)))
    ]

-- The merge events that a batch has made, against those that it has reported.
abbrev IsReported : ℕ → AiWorld × Summary → Type 0
IsReported before (w, s) = merges_in w ≤ before + s.accepted

count_result-IsReported :
    (before : ℕ) (eligible : Bool) (row : PendingRow) (w : AiWorld) (s : Summary)
    (r : Result Failure AiWorld)
    → IsReported before (w, s)
    → ((w' : AiWorld) → r ≡ ok w' → merges_in w' ≤ merges_in w + bound_by eligible)
    → IsReported before (count_result eligible row (w, s) r)
count_result-IsReported before true row w s (ok after) v h = omega (arith, h after refl)
count_result-IsReported before false row w s (ok after) v h = omega (arith, h after refl)
count_result-IsReported before true row w s (err e) v h = v
count_result-IsReported before false row w s (err e) v h = v

batch_step-IsReported :
    (before : ℕ) (apply : Bool) (now new_id : ℕ) (w : AiWorld) (s : Summary) (row : PendingRow)
    → IsReported before (w, s)
    → IsReported before (batch_step apply now new_id (w, s) row)
unfolding batch_step
batch_step-IsReported before true now new_id w s row v =
    count_result-IsReported before (is_eligible (gate_reasons w.catalogue row)) row w
      (note_row s row (gate_reasons w.catalogue row))
      (decide w row (is_eligible (gate_reasons w.catalogue row)) now new_id) v
      (λ w' h. decide-merges w row (is_eligible (gate_reasons w.catalogue row)) now new_id w' h)
batch_step-IsReported before false now new_id w s row v = v

batch_loop-IsReported :
    (before : ℕ) (apply : Bool) (now : ℕ) (keys : ℕ → ℕ) (rows : List PendingRow) (w : AiWorld)
    (s : Summary)
    → IsReported before (w, s)
    → IsReported before (batch_loop apply now keys rows (w, s))
unfolding batch_loop
batch_loop-IsReported before apply now keys [] w s v = v
batch_loop-IsReported before apply now keys (row ∷ rows) w s v =
    let next = batch_step apply now (keys s.processed) (w, s) row in
    batch_loop-IsReported before apply now keys rows next.0 next.1
      (batch_step-IsReported before apply now (keys s.processed) w s row v)

-- A batch, dry or applied, makes at most as many merges as it reports as accepted.
pub run-merges :
    (w : AiWorld) (limit : ℕ) (apply : Bool) (now : ℕ) (keys : ℕ → ℕ)
    → merges_in (run w limit apply now keys).0
      ≤ merges_in w + (run w limit apply now keys).1.accepted
unfolding run
run-merges w limit apply now keys =
    batch_loop-IsReported (merges_in w) apply now keys (pending_rows w limit) w empty_summary
      (omega arith)
