-- ===== src/Catalogue/Batch/Accounts.antt =====
-- The report of a batch, in a run that applies and in a dry run.
use noshiro_db_backend.Base.{
  ℕ, ◌+◌, ◌≤◌, ◌≡◌, refl, Bool, true, false, List, [], ◌∷◌, length, length-append, arith, map,
  map-snoc, append_nil, sym, ap, ◌∙◌, ◌++◌, if◌then◌else◌,
}
use noshiro_db_backend.Base.Result.{Result, ok, err}
use noshiro_db_backend.Catalogue.Model.{Failure}
use noshiro_db_backend.Catalogue.Proposals.{AiWorld}
use noshiro_db_backend.Catalogue.Batch.{
  PendingRow, GateReason, pending_rows, gate_reasons, is_eligible, decide, Summary, empty_summary,
  note_row, count_result, batch_step, batch_loop, run,
}

-- Where decisions are made, every processed row is accepted, abstained from, or an error; only what is
-- reported as to be bound is accepted.
abbrev IsTallied : Bool → Summary → Type 0
IsTallied apply s =
    (s.accepted + s.abstained + length s.errors ≡ (if apply then s.processed else 0))
    × (s.accepted ≤ s.would_bind)
    × (s.would_bind ≤ s.processed)

count_result-IsTallied :
    (row : PendingRow) (w : AiWorld) (s : Summary) (reasons : List GateReason)
    (r : Result Failure AiWorld)
    → IsTallied true s
    → IsTallied true (count_result (is_eligible reasons) row (w, note_row s row reasons) r).1
count_result-IsTallied row w s [] (ok after) h = (omega arith, omega arith, omega arith)
count_result-IsTallied row w s (x ∷ xs) (ok after) h = (omega arith, omega arith, omega arith)
count_result-IsTallied row w s [] (err e) h =
    (omega (arith, length-append s.errors ((row.proposal.id, e) ∷ [])), omega arith, omega arith)
count_result-IsTallied row w s (x ∷ xs) (err e) h =
    (omega (arith, length-append s.errors ((row.proposal.id, e) ∷ [])), omega arith, omega arith)

note_row-IsTallied :
    (row : PendingRow) (s : Summary) (reasons : List GateReason)
    → IsTallied false s
    → IsTallied false (note_row s row reasons)
note_row-IsTallied row s [] h = (omega arith, omega arith, omega arith)
note_row-IsTallied row s (x ∷ xs) h = (omega arith, omega arith, omega arith)

batch_step-IsTallied :
    (apply : Bool) (now new_id : ℕ) (w : AiWorld) (s : Summary) (row : PendingRow)
    → IsTallied apply s
    → IsTallied apply (batch_step apply now new_id (w, s) row).1
unfolding batch_step
batch_step-IsTallied true now new_id w s row h =
    count_result-IsTallied row w s (gate_reasons w.catalogue row)
      (decide w row (is_eligible (gate_reasons w.catalogue row)) now new_id) h
batch_step-IsTallied false now new_id w s row h =
    note_row-IsTallied row s (gate_reasons w.catalogue row) h

count_result-processed :
    (eligible : Bool) (row : PendingRow) (w : AiWorld) (s : Summary) (r : Result Failure AiWorld)
    → (count_result eligible row (w, s) r).1.processed ≡ s.processed
count_result-processed true row w s (ok after) = refl
count_result-processed false row w s (ok after) = refl
count_result-processed true row w s (err e) = refl
count_result-processed false row w s (err e) = refl

batch_step-processed :
    (apply : Bool) (now new_id : ℕ) (w : AiWorld) (s : Summary) (row : PendingRow)
    → (batch_step apply now new_id (w, s) row).1.processed ≡ s.processed + 1
unfolding batch_step
batch_step-processed true now new_id w s row =
    count_result-processed (is_eligible (gate_reasons w.catalogue row)) row w
      (note_row s row (gate_reasons w.catalogue row))
      (decide w row (is_eligible (gate_reasons w.catalogue row)) now new_id)
batch_step-processed false now new_id w s row = refl

batch_loop-processed :
    (apply : Bool) (now : ℕ) (keys : ℕ → ℕ) (rows : List PendingRow) (w : AiWorld) (s : Summary)
    → (batch_loop apply now keys rows (w, s)).1.processed ≡ s.processed + length rows
unfolding batch_loop
batch_loop-processed apply now keys [] w s = omega arith
batch_loop-processed apply now keys (row ∷ rows) w s =
    let next = batch_step apply now (keys s.processed) (w, s) row in
    omega (
      arith,
      batch_step-processed apply now (keys s.processed) w s row,
      batch_loop-processed apply now keys rows next.0 next.1,
    )

batch_loop-IsTallied :
    (apply : Bool) (now : ℕ) (keys : ℕ → ℕ) (rows : List PendingRow) (w : AiWorld) (s : Summary)
    → IsTallied apply s
    → IsTallied apply (batch_loop apply now keys rows (w, s)).1
unfolding batch_loop
batch_loop-IsTallied apply now keys [] w s h = h
batch_loop-IsTallied apply now keys (row ∷ rows) w s h =
    let next = batch_step apply now (keys s.processed) (w, s) row in
    batch_loop-IsTallied apply now keys rows next.0 next.1
      (batch_step-IsTallied apply now (keys s.processed) w s row h)

empty_summary-IsTallied : (apply : Bool) → IsTallied apply empty_summary
empty_summary-IsTallied true = (refl, omega arith, omega arith)
empty_summary-IsTallied false = (refl, omega arith, omega arith)

-- The proposals that a report lists.
abbrev pub reported : Summary → List ℕ
reported s = map (λ r. r.0) s.rows

count_result-rows :
    (eligible : Bool) (row : PendingRow) (w : AiWorld) (s : Summary) (r : Result Failure AiWorld)
    → (count_result eligible row (w, s) r).1.rows ≡ s.rows
count_result-rows true row w s (ok after) = refl
count_result-rows false row w s (ok after) = refl
count_result-rows true row w s (err e) = refl
count_result-rows false row w s (err e) = refl

batch_step-rows :
    (apply : Bool) (now new_id : ℕ) (w : AiWorld) (s : Summary) (row : PendingRow)
    → (batch_step apply now new_id (w, s) row).1.rows
      ≡ s.rows ++ (row.proposal.id, gate_reasons w.catalogue row) ∷ []
unfolding batch_step
batch_step-rows true now new_id w s row =
    count_result-rows (is_eligible (gate_reasons w.catalogue row)) row w
      (note_row s row (gate_reasons w.catalogue row))
      (decide w row (is_eligible (gate_reasons w.catalogue row)) now new_id)
batch_step-rows false now new_id w s row = refl

batch_loop-reported :
    (apply : Bool) (now : ℕ) (keys : ℕ → ℕ) (rows : List PendingRow) (w : AiWorld) (s : Summary)
    → reported (batch_loop apply now keys rows (w, s)).1
      ≡ reported s ++ map (λ (row : PendingRow). row.proposal.id) rows
unfolding batch_loop
batch_loop-reported apply now keys [] w s = sym (append_nil (reported s))
batch_loop-reported apply now keys (row ∷ rows) w s =
    let next = batch_step apply now (keys s.processed) (w, s) row in
    batch_loop-reported apply now keys rows next.0 next.1
    ∙ ap
        (λ r.
          map (λ (r : ℕ × List GateReason). r.0) r
          ++ map (λ (row : PendingRow). row.proposal.id) rows)
        (batch_step-rows apply now (keys s.processed) w s row)
    ∙ map-snoc (λ (r : ℕ × List GateReason). r.0) s.rows
        (row.proposal.id, gate_reasons w.catalogue row)
        (map (λ (row : PendingRow). row.proposal.id) rows)

-- The report of a batch lists the selected proposals, each once and in their order, and counts them as
-- processed. In a run that applies each of them is accepted, abstained from or an error, and in a dry
-- run none is; no more are accepted than are reported as to be bound, and no more are to be bound than
-- are processed.
pub run-tally :
    (w : AiWorld) (limit : ℕ) (apply : Bool) (now : ℕ) (keys : ℕ → ℕ)
    → (reported (run w limit apply now keys).1
        ≡ map (λ row. row.proposal.id) (pending_rows w limit))
      × ((run w limit apply now keys).1.processed ≡ length (pending_rows w limit))
      × ((run w limit apply now keys).1.accepted
            + (run w limit apply now keys).1.abstained
            + length (run w limit apply now keys).1.errors
          ≡ (if apply then (run w limit apply now keys).1.processed else 0))
      × ((run w limit apply now keys).1.accepted ≤ (run w limit apply now keys).1.would_bind)
      × ((run w limit apply now keys).1.would_bind ≤ (run w limit apply now keys).1.processed)
unfolding run
run-tally w limit apply now keys =
    let tally =
      batch_loop-IsTallied apply now keys (pending_rows w limit) w empty_summary
        (empty_summary-IsTallied apply) in
    (
      batch_loop-reported apply now keys (pending_rows w limit) w empty_summary,
      omega (arith, batch_loop-processed apply now keys (pending_rows w limit) w empty_summary),
      tally.0,
      tally.1,
      tally.2,
    )

-- Nothing is decided in a dry run.
abbrev IsDry : AiWorld → AiWorld × Summary → Type 0
IsDry w (w', s) = (w' ≡ w) × (s.accepted ≡ 0) × (s.abstained ≡ 0) × (s.errors ≡ [])

batch_loop-IsDry :
    (now : ℕ) (keys : ℕ → ℕ) (rows : List PendingRow) (w : AiWorld) (s : Summary)
    → s.accepted ≡ 0
    → s.abstained ≡ 0
    → s.errors ≡ []
    → IsDry w (batch_loop false now keys rows (w, s))
unfolding batch_loop batch_step
batch_loop-IsDry now keys [] w s a b c = (refl, a, b, c)
batch_loop-IsDry now keys (row ∷ rows) w s a b c =
    batch_loop-IsDry now keys rows w (note_row s row (gate_reasons w.catalogue row)) a b c

-- A dry run changes no table and reports no decision and no error.
run-dry :
    (w : AiWorld) (limit now : ℕ) (keys : ℕ → ℕ)
    → ((run w limit false now keys).0 ≡ w)
      × ((run w limit false now keys).1.accepted ≡ 0)
      × ((run w limit false now keys).1.abstained ≡ 0)
      × ((run w limit false now keys).1.errors ≡ [])
unfolding run
run-dry w limit now keys =
    batch_loop-IsDry now keys (pending_rows w limit) w empty_summary refl refl refl
