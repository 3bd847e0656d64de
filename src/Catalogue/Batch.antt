-- ===== src/Catalogue/Batch.antt =====
-- `MatchApplyService` of src/apps/sync/services/match_apply_service.py: one bounded batch of pending
-- proposals, dry unless it is told to apply.
pub mod Accounts
pub mod Kept
pub mod Merges
use noshiro_db_backend.Base.{
  ℕ, suc, ◌+◌, max, Bool, true, false, ◌==◌, ◌&&◌, ◌||◌, not, ltb, List, [], ◌∷◌, ◌++◌, Option,
  none, some, String, if◌then◌else◌, take, length, is_cons, exists_where, select_where, get,
  text_append, decimal_text,
}
use noshiro_db_backend.Base.Result.{Result, ok, err, ◌>>=◌, get_or_raise}
use noshiro_db_backend.Catalogue.Model.{Entity, MatchCandidate, Outcome, World, Failure}
use noshiro_db_backend.Catalogue.Merge.{kind_eq, has_user}
use noshiro_db_backend.Catalogue.Decide.{is_pending, decide_candidate}
use noshiro_db_backend.Catalogue.Proposals.{
  ProposalStatus, PolicyReason, AiProposal, RunStatus, AiRun, AiWorld, entity_is, set_proposal,
}
use noshiro_db_backend.Catalogue.Matching.{is_bind}

-- A proposal with the rows that the query has joined to it, as they were then.
pub record PendingRow : Type 0 where
  pub proposal : AiProposal
  pub candidate : MatchCandidate
  pub left_entity : Entity
  pub right_entity : Entity

abbrev is_pending_proposal : ProposalStatus → Bool
is_pending_proposal ProposalStatus.pending = true
is_pending_proposal _ = false

abbrev pub is_succeeded : RunStatus → Bool
is_succeeded RunStatus.succeeded = true
is_succeeded _ = false

-- `status=PENDING, run__status="succeeded"` and `match_candidate__status=PENDING`
abbrev is_selected : Option AiRun → Option MatchCandidate → AiProposal → Bool
is_selected none c p = false
is_selected (some run) none p = false
is_selected (some run) (some c) p =
    is_pending_proposal p.status && (is_pending c.status && is_succeeded run.status)

-- The joined row, where no key leads nowhere.
abbrev joined_row :
    AiProposal
    → Option MatchCandidate
    → (MatchCandidate → Option Entity)
    → (MatchCandidate → Option Entity)
    → Option PendingRow
joined_row p none left right = none
joined_row p (some c) left right = elim (left c) [
  | none ↦ none
  | some a ↦ elim (right c) [
    | none ↦ none
    | some b ↦ some (record { proposal = p; candidate = c; left_entity = a; right_entity = b })
  ]
]

abbrev row_of : AiWorld → AiProposal → Option PendingRow
row_of w p =
    let candidate = get MatchCandidate.id p.match_candidate w.catalogue.candidates in
    if is_selected (get AiRun.id p.run w.runs) candidate p
    then joined_row p candidate (λ c. get Entity.id c.left_entity w.catalogue.entities)
        (λ c. get Entity.id c.right_entity w.catalogue.entities)
    else none

abbrev pub rows_of : AiWorld → List AiProposal → List PendingRow
rows_of w [] = []
rows_of w (p ∷ ps) =
    let rest = rows_of w ps in elim (row_of w p) [ none ↦ rest | some row ↦ row ∷ rest ]

-- `order_by("-confidence")`
abbrev insert_confident : PendingRow → List PendingRow → List PendingRow
insert_confident x [] = x ∷ []
insert_confident x (y ∷ ys) =
    if ltb x.proposal.confidence y.proposal.confidence
    then y ∷ insert_confident x ys
    else x ∷ y ∷ ys

abbrev most_confident : List PendingRow → List PendingRow
most_confident [] = []
most_confident (x ∷ xs) = insert_confident x (most_confident xs)

unfoldable pub pending_rows : AiWorld → ℕ → List PendingRow
pending_rows w limit = take (max 1 limit) (most_confident (rows_of w w.proposals))

pub data GateReason : Type 0 where
  ai_decision : Outcome → GateReason
  confidence_below_threshold : GateReason
  candidate_score_below_threshold : GateReason
  hard_conflicts : GateReason
  entity_kind_mismatch : GateReason
  conflicting_user_library : GateReason

-- `MIN_CANDIDATE_SCORE` and `MIN_CONFIDENCE`, in ten-thousandths.
abbrev min_candidate_score : ℕ
min_candidate_score = 9500

abbrev min_confidence : ℕ
min_confidence = 9200

-- `reasons.append(reason)` under a test.
abbrev reason_if : Bool → GateReason → List GateReason
reason_if true r = r ∷ []
reason_if false r = []

-- `_has_conflicting_user_library`
unfoldable has_conflicting_user_library : World → MatchCandidate → Bool
has_conflicting_user_library w candidate =
    let left_users = select_where (entity_is candidate.left_entity) w.library in
    exists_where (λ entry. entity_is candidate.right_entity entry && has_user left_users entry)
      w.library

-- `_gate_reasons`
unfoldable pub gate_reasons : World → PendingRow → List GateReason
unfolding has_conflicting_user_library
gate_reasons w row =
    reason_if (not (is_bind row.proposal.decision)) (GateReason.ai_decision row.proposal.decision)
    ++ (reason_if (ltb row.proposal.confidence min_confidence) GateReason.confidence_below_threshold
        ++ (reason_if (ltb row.candidate.score min_candidate_score)
              GateReason.candidate_score_below_threshold
            ++ (reason_if (is_cons row.candidate.hard_conflicts) GateReason.hard_conflicts
                ++ (reason_if (not (kind_eq row.left_entity.kind row.right_entity.kind))
                      GateReason.entity_kind_mismatch
                    ++ reason_if (has_conflicting_user_library w row.candidate)
                        GateReason.conflicting_user_library))))

abbrev pub is_eligible : List GateReason → Bool
is_eligible reasons = not (is_cons reasons)

-- `reason` of `_decide`, which names the proposal's confidence and the candidate's score.
unfoldable pub bind_reason : AiProposal → MatchCandidate → String
unfolding text_append decimal_text
bind_reason proposal candidate = text_append "Admin conservative batch: AI bind at " (
    text_append (decimal_text proposal.confidence) (
      text_append " confidence on candidate score "
        (text_append (decimal_text candidate.score) ".")))

-- The decision of `_decide` on a candidate that is still pending, and then the proposal's columns.
abbrev pub decide_row :
    Bool → AiWorld → PendingRow → MatchCandidate → ℕ → ℕ → Result Failure AiWorld
decide_row true w row candidate now new_id = do
  (decision, after) ←
      decide_candidate w.catalogue candidate.id Outcome.bind "admin_batch"
        (bind_reason row.proposal candidate) new_id
  ok (record w {
    catalogue = after;
    proposals =
        set_proposal ProposalStatus.accepted
          (PolicyReason.admin_bind (bind_reason row.proposal candidate)) (some now) row.proposal.id
          w.proposals;
  })
decide_row false w row candidate now new_id = do
  (decision, after) ←
      decide_candidate w.catalogue candidate.id Outcome.abstain "admin_batch"
        "Admin conservative batch abstained." new_id
  ok (record w {
    catalogue = after;
    proposals =
        set_proposal ProposalStatus.abstained PolicyReason.admin_abstained (some now)
          row.proposal.id w.proposals;
  })

-- `_decide`, one transaction.
unfoldable pub decide : AiWorld → PendingRow → Bool → ℕ → ℕ → Result Failure AiWorld
decide w row eligible now new_id = do
  candidate ←
      get_or_raise Failure.does_not_exist
        (get MatchCandidate.id row.candidate.id w.catalogue.candidates)
  let result = decide_row eligible w row candidate now new_id
  if is_pending candidate.status
      then result
      else ok (record w {
        proposals =
            set_proposal ProposalStatus.abstained PolicyReason.decided_elsewhere (some now)
              row.proposal.id w.proposals;
      })

-- `summary`; a row is kept with its reasons, an error with its proposal.
pub record Summary : Type 0 where
  pub processed : ℕ
  pub would_bind : ℕ
  pub accepted : ℕ
  pub abstained : ℕ
  pub errors : List (ℕ × Failure)
  pub rows : List (ℕ × List GateReason)

abbrev pub empty_summary : Summary
empty_summary = record {
  processed = 0;
  would_bind = 0;
  accepted = 0;
  abstained = 0;
  errors = [];
  rows = [];
}

-- What a row adds before it is decided on.
abbrev pub note_row : Summary → PendingRow → List GateReason → Summary
note_row s row reasons = record s {
  processed = s.processed + 1;
  would_bind = if is_eligible reasons then s.would_bind + 1 else s.would_bind;
  rows = s.rows ++ (row.proposal.id, reasons) ∷ [];
}

-- The `try` of the loop.
abbrev pub count_result :
    Bool → PendingRow → AiWorld × Summary → Result Failure AiWorld → AiWorld × Summary
count_result true row (w, s) (ok after) = (after, record s { accepted = s.accepted + 1 })
count_result false row (w, s) (ok after) = (after, record s { abstained = s.abstained + 1 })
count_result eligible row (w, s) (err e) =
    (w, record s { errors = s.errors ++ (row.proposal.id, e) ∷ [] })

-- One round of the loop; the key of an event is drawn from a stream.
unfoldable pub batch_step : Bool → ℕ → ℕ → AiWorld × Summary → PendingRow → AiWorld × Summary
unfolding decide gate_reasons
batch_step apply now new_id (w, s) row =
    let reasons = gate_reasons w.catalogue row in
    let eligible = is_eligible reasons in
    let noted = note_row s row reasons in
    if apply
    then count_result eligible row (w, noted) (decide w row eligible now new_id)
    else (w, noted)

unfoldable pub batch_loop :
    Bool → ℕ → (ℕ → ℕ) → List PendingRow → AiWorld × Summary → AiWorld × Summary
unfolding batch_step
batch_loop apply now keys [] state = state
batch_loop apply now keys (row ∷ rows) state =
    batch_loop apply now keys rows (batch_step apply now (keys state.1.processed) state row)

-- `run`
unfoldable pub run : AiWorld → ℕ → Bool → ℕ → (ℕ → ℕ) → AiWorld × Summary
unfolding pending_rows batch_loop
run w limit apply now keys = batch_loop apply now keys (pending_rows w limit) (w, empty_summary)
