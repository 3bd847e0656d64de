-- ===== src/Catalogue/Batch/Kept.antt =====
-- What a batch does to the catalogue.
use noshiro_db_backend.Base.{
  ℕ, ◌≡◌, refl, ap, inl, inr, Bool, true, false, List, [], ◌∷◌, Bool-cases, get,
}
use mathlib.Core.Path.{subst}
use noshiro_db_backend.Base.Result.{Result, ok, err, >>=-eq-ok, ok_injective, get_or_raise}
use noshiro_db_backend.Catalogue.Model.{MatchCandidate, Outcome, Failure}
use noshiro_db_backend.Catalogue.WellFormed.{IsWellFormed}
use noshiro_db_backend.Catalogue.Decide.{is_pending, decide_candidate}
use noshiro_db_backend.Catalogue.Decide.Final.{decide_candidate-IsWellFormed}
use noshiro_db_backend.Catalogue.Proposals.{AiWorld}
use noshiro_db_backend.Catalogue.Batch.{
  PendingRow, pending_rows, gate_reasons, is_eligible, bind_reason, decide_row, decide, Summary,
  empty_summary, note_row, count_result, batch_step, batch_loop, run,
}

decide_row-IsWellFormed :
    (eligible : Bool) (w : AiWorld) (row : PendingRow) (c : MatchCandidate) (now new_id : ℕ)
    (w' : AiWorld)
    → IsWellFormed w.catalogue
    → decide_row eligible w row c now new_id ≡ ok w'
    → IsWellFormed w'.catalogue
decide_row-IsWellFormed true w row c now new_id w' v h =
    let (d, decided, done) =
      >>=-eq-ok
        (decide_candidate w.catalogue c.id Outcome.bind "admin_batch" (bind_reason row.proposal c)
          new_id)
        _ h in
    subst IsWellFormed (ap AiWorld.catalogue (ok_injective done)) (
      decide_candidate-IsWellFormed w.catalogue c.id Outcome.bind "admin_batch"
        (bind_reason row.proposal c) new_id d v decided)
decide_row-IsWellFormed false w row c now new_id w' v h =
    let (d, decided, done) =
      >>=-eq-ok
        (decide_candidate w.catalogue c.id Outcome.abstain "admin_batch"
          "Admin conservative batch abstained." new_id)
        _ h in
    subst IsWellFormed (ap AiWorld.catalogue (ok_injective done)) (
      decide_candidate-IsWellFormed w.catalogue c.id Outcome.abstain "admin_batch"
        "Admin conservative batch abstained." new_id d v decided)

decide-IsWellFormed :
    (w : AiWorld) (row : PendingRow) (eligible : Bool) (now new_id : ℕ) (w' : AiWorld)
    → IsWellFormed w.catalogue
    → decide w row eligible now new_id ≡ ok w'
    → IsWellFormed w'.catalogue
unfolding decide
decide-IsWellFormed w row eligible now new_id w' v h =
    let (c, found, h1) =
      >>=-eq-ok
        (get_or_raise Failure.does_not_exist
          (get MatchCandidate.id row.candidate.id w.catalogue.candidates))
        _ h in
    elim (Bool-cases (is_pending c.status)) [
      | inl pending ↦ decide_row-IsWellFormed eligible w row c now new_id w' v (rw pending at h1)
      | inr decided ↦ subst IsWellFormed (ap AiWorld.catalogue (ok_injective (rw decided at h1))) v
    ]

count_result-IsWellFormed :
    (eligible : Bool) (row : PendingRow) (w : AiWorld) (s : Summary) (r : Result Failure AiWorld)
    → IsWellFormed w.catalogue
    → ((w' : AiWorld) → r ≡ ok w' → IsWellFormed w'.catalogue)
    → IsWellFormed (count_result eligible row (w, s) r).0.catalogue
count_result-IsWellFormed true row w s (ok after) v h = h after refl
count_result-IsWellFormed false row w s (ok after) v h = h after refl
count_result-IsWellFormed true row w s (err e) v h = v
count_result-IsWellFormed false row w s (err e) v h = v

batch_step-IsWellFormed :
    (apply : Bool) (now new_id : ℕ) (w : AiWorld) (s : Summary) (row : PendingRow)
    → IsWellFormed w.catalogue
    → IsWellFormed (batch_step apply now new_id (w, s) row).0.catalogue
unfolding batch_step
batch_step-IsWellFormed true now new_id w s row v =
    count_result-IsWellFormed (is_eligible (gate_reasons w.catalogue row)) row w
      (note_row s row (gate_reasons w.catalogue row))
      (decide w row (is_eligible (gate_reasons w.catalogue row)) now new_id) v
      (λ w' h.
        decide-IsWellFormed w row (is_eligible (gate_reasons w.catalogue row)) now new_id w' v h)
batch_step-IsWellFormed false now new_id w s row v = v

batch_loop-IsWellFormed :
    (apply : Bool) (now : ℕ) (keys : ℕ → ℕ) (rows : List PendingRow) (w : AiWorld) (s : Summary)
    → IsWellFormed w.catalogue
    → IsWellFormed (batch_loop apply now keys rows (w, s)).0.catalogue
unfolding batch_loop
batch_loop-IsWellFormed apply now keys [] w s v = v
batch_loop-IsWellFormed apply now keys (row ∷ rows) w s v =
    let next = batch_step apply now (keys s.processed) (w, s) row in
    batch_loop-IsWellFormed apply now keys rows next.0 next.1
      (batch_step-IsWellFormed apply now (keys s.processed) w s row v)

-- A batch leaves a well-formed catalogue well formed, whichever of its decisions raise.
pub run-IsWellFormed :
    (w : AiWorld) (limit : ℕ) (apply : Bool) (now : ℕ) (keys : ℕ → ℕ)
    → IsWellFormed w.catalogue
    → IsWellFormed (run w limit apply now keys).0.catalogue
unfolding run
run-IsWellFormed w limit apply now keys v =
    batch_loop-IsWellFormed apply now keys (pending_rows w limit) w empty_summary v
