-- ===== src/Catalogue/Matching/Tests.antt =====
-- Runs of the matching policy and of the batch, and the theorems at such inputs.
use noshiro_db_backend.Base.{
  map, ℕ, ◌+◌, ◌≤◌, ◌≡◌, refl, true, false, [], ◌∷◌, none, some, length, order_by,
}
use noshiro_db_backend.Base.Result.{ok}
use noshiro_db_backend.Catalogue.Model.{
  CandidateStatus, Outcome, DecisionData, MatchDecision, MergeEvent, Method, Visibility,
}
use noshiro_db_backend.Catalogue.Redirects.{resolve, cluster_ids, follow, grow}
use noshiro_db_backend.Catalogue.Merge.{merge, merged_world}
use noshiro_db_backend.Catalogue.WellFormed.{IsWellFormed}
use noshiro_db_backend.Catalogue.Decide.{decide_candidate}
use noshiro_db_backend.Catalogue.Proposals.{
  ProposalStatus, PolicyReason, AiProposal, AiPolicy, RunStatus, AiWorld, RawConfidence, RawOutput,
}
use noshiro_db_backend.Catalogue.Matching.{apply_policy, evaluate}
use noshiro_db_backend.Catalogue.Matching.Gate.{IsGuarded, apply_policy-IsGuarded}
use noshiro_db_backend.Catalogue.Matching.Evaluate.{IsEvaluated, evaluate-IsEvaluated}
use noshiro_db_backend.Catalogue.Batch.{
  PendingRow, empty_summary, gate_reasons, bind_reason, decide, batch_step, pending_rows, run,
}
use noshiro_db_backend.Catalogue.Batch.Accounts.{reported, run-tally}
use noshiro_db_backend.Catalogue.Batch.Kept.{run-IsWellFormed}
use noshiro_db_backend.Catalogue.Batch.Merges.{merges_in, run-merges}
use noshiro_db_backend.Catalogue.Samples.{
  work_row, candidate_row, start, start_snapshot, start-IsWellFormed,
}

abbrev proposal_row : AiProposal
proposal_row = record {
  id = 31;
  run = 41;
  match_candidate = 20;
  decision = Outcome.bind;
  confidence = 9970;
  status = ProposalStatus.pending;
  policy_reason = PolicyReason.not_given;
  decided_at = none;
}

abbrev policy_row : AiPolicy
policy_row = record {
  id = 5;
  use_case = "entity_matching";
  policy_version = "v1";
  shadow_mode = false;
  minimum_score = 9500;
  minimum_margin = 500;
  minimum_evidence_types = 2;
  required_evaluation_precision = 9990;
  is_enabled = true;
}

abbrev ai_start : AiWorld
ai_start = record {
  catalogue = start;
  proposals = proposal_row ∷ [];
  runs = record { id = 41; status = RunStatus.succeeded; finished_at = some 1 } ∷ [];
  policies = policy_row ∷ [];
  evaluations =
      record {
        use_case = "entity_matching";
        policy_version = "v1";
        sample_count = 500;
        precision = 9995;
        passed = true;
        created_at = 3;
      }
      ∷ [];
  evidence =
      record { candidate = 20; evidence_type = "title_similarity" }
      ∷ record { candidate = 20; evidence_type = "official_external_id" }
      ∷ [];
}

-- The tables after the policy has bound the candidate.
abbrev ai_event : MergeEvent
ai_event = record {
  id = 50;
  source_entity = 2;
  target_entity = 1;
  method = Method.ai_policy;
  reason = "Passed calibrated conservative auto-bind gate.";
  snapshot = start_snapshot;
  reversed_at = none;
}

abbrev ai_decision_row : MatchDecision
ai_decision_row = record {
  candidate = 20;
  outcome = Outcome.bind;
  decided_by = "ai_policy";
  policy_version = "v1";
  reason = "Passed calibrated conservative auto-bind gate.";
  decision_data = DecisionData.merge_data 50 2 1;
}

abbrev ai_bound : AiWorld
ai_bound = record ai_start {
  catalogue = record (merged_world start ai_event) {
    candidates = record candidate_row { status = CandidateStatus.accepted } ∷ [];
    decisions = ai_decision_row ∷ [];
  };
  proposals =
      record proposal_row {
        status = ProposalStatus.accepted;
        policy_reason = PolicyReason.passed_gate;
        decided_at = some 100;
      }
      ∷ [];
}

policy_binds : apply_policy ai_start proposal_row candidate_row policy_row 100 50 ≡ ok ai_bound
unfolding apply_policy decide_candidate merge resolve follow cluster_ids grow order_by
policy_binds = refl

apply_policy-IsGuarded_example :
    IsWellFormed ai_bound.catalogue
    × IsGuarded ai_start proposal_row candidate_row policy_row ai_bound
apply_policy-IsGuarded_example =
    apply_policy-IsGuarded ai_start proposal_row candidate_row policy_row 100 50 ai_bound
      start-IsWellFormed refl policy_binds

abbrev answer : RawOutput
answer = record {
  decision = "merge";
  reason = some "same title";
  confidence = RawConfidence.unparsable;
}

evaluate-IsEvaluated_example :
    IsEvaluated ai_start 42 20 5 10000 100
      (evaluate ai_start 42 20 5 10000 (some answer) 100 32 51).0
      (evaluate ai_start 42 20 5 10000 (some answer) 100 32 51).1
evaluate-IsEvaluated_example =
    evaluate-IsEvaluated ai_start 42 20 5 10000 (some answer) 100 32 51 refl

abbrev event_keys : ℕ → ℕ
event_keys n = 60 + n

run-tally_example :
    (reported (run ai_start 200 true 100 event_keys).1
      ≡ map (λ (row : PendingRow). row.proposal.id) (pending_rows ai_start 200))
    × ((run ai_start 200 true 100 event_keys).1.processed ≡ length (pending_rows ai_start 200))
    × ((run ai_start 200 true 100 event_keys).1.accepted
          + (run ai_start 200 true 100 event_keys).1.abstained
          + length (run ai_start 200 true 100 event_keys).1.errors
        ≡ (run ai_start 200 true 100 event_keys).1.processed)
    × ((run ai_start 200 true 100 event_keys).1.accepted
        ≤ (run ai_start 200 true 100 event_keys).1.would_bind)
    × ((run ai_start 200 true 100 event_keys).1.would_bind
        ≤ (run ai_start 200 true 100 event_keys).1.processed)
run-tally_example = run-tally ai_start 200 true 100 event_keys

run-IsWellFormed_example : IsWellFormed (run ai_start 200 true 100 event_keys).0.catalogue
run-IsWellFormed_example = run-IsWellFormed ai_start 200 true 100 event_keys start-IsWellFormed

-- The batch accepts the proposal that is there.
run_accepts : (run ai_start 200 true 100 event_keys).1.accepted ≡ 1
unfolding run decide_candidate merge resolve follow cluster_ids grow order_by
run_accepts = refl

abbrev pending_row : PendingRow
pending_row = record {
  proposal = proposal_row;
  candidate = candidate_row;
  left_entity = work_row 1 Visibility.public_to_all 5;
  right_entity = work_row 2 Visibility.public_to_all 9;
}

bound_gate : gate_reasons ai_bound.catalogue pending_row ≡ []
unfolding gate_reasons
bound_gate = refl

run-merges_example :
    merges_in (run ai_start 200 true 100 event_keys).0
    ≤ merges_in ai_start + (run ai_start 200 true 100 event_keys).1.accepted
run-merges_example = run-merges ai_start 200 true 100 event_keys

bind_reason_text :
    bind_reason proposal_row candidate_row
    ≡ "Admin conservative batch: AI bind at 0.9970 confidence on candidate score 0.9900."
unfolding bind_reason
bind_reason_text = refl

-- A proposal whose candidate has been decided meanwhile is counted as accepted and makes no merge.
batch_step_overcounts :
    ((batch_step true 100 60 (ai_bound, empty_summary) pending_row).1.accepted ≡ 1)
    × ((batch_step true 100 60 (ai_bound, empty_summary) pending_row).0.catalogue
        ≡ ai_bound.catalogue)
unfolding batch_step decide gate_reasons
batch_step_overcounts = (refl, refl)
