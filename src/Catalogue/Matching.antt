-- ===== src/Catalogue/Matching.antt =====
-- `AIMatchingService` of src/apps/ai/services/matching.py: the evaluation of one candidate by a model,
-- and the policy that decides whether the proposal is carried out.
pub mod Gate
pub mod Evaluate
mod Tests
use noshiro_db_backend.Base.{
  first_where, ◌*◌, ◌/◌, ℕ, Bool, true, false, ◌==◌, ◌&&◌, ◌||◌, not, ltb, leb, List, [], ◌∷◌, ◌++◌,
  Option, none, some, String, if◌then◌else◌, str_eq, length, is_cons, exists_where, select_where,
  update_where, get,
}
use noshiro_db_backend.Base.Result.{Result, ok, err, ◌>>=◌, ◌>>◌, get_or_raise}
use noshiro_db_backend.Catalogue.Model.{
  Kind, Entity, UserSubject, MatchCandidate, Outcome, MatchDecision, World, Failure,
}
use noshiro_db_backend.Catalogue.Merge.{kind_eq, has_user, find_entity}
use noshiro_db_backend.Catalogue.Decide.{is_pending, decide_candidate}
use noshiro_db_backend.Catalogue.Proposals.{
  ProposalStatus, PolicyReason, AiProposal, AiPolicy, AiEvaluationRun, MatchEvidence, RunStatus,
  AiRun, AiWorld, Output, InvalidOutput, RawOutput, validate_matching_output, entity_is,
  set_proposal,
}

-- `order_by("-created_at").first()`
abbrev newest : List AiEvaluationRun → Option AiEvaluationRun
newest [] = none
newest (e ∷ es) = elim (newest es) [
  | none ↦ some e
  | some other ↦ if ltb e.created_at other.created_at then some other else some e
]

abbrev is_evaluation_of : AiPolicy → AiEvaluationRun → Bool
is_evaluation_of policy e =
    str_eq e.use_case policy.use_case && (str_eq e.policy_version policy.policy_version && e.passed)

abbrev is_precise : AiPolicy → Option AiEvaluationRun → Bool
is_precise policy none = false
is_precise policy (some e) =
    ltb 0 e.sample_count && leb policy.required_evaluation_precision e.precision

-- `_policy_is_production_ready`
unfoldable pub policy_is_production_ready : AiWorld → AiPolicy → MatchCandidate → Bool
policy_is_production_ready w policy candidate =
    if not policy.is_enabled
      || policy.shadow_mode
      || not (str_eq policy.policy_version candidate.policy_version)
    then false
    else is_precise policy (newest (select_where (is_evaluation_of policy) w.evaluations))

-- `_has_conflicting_user_library_data`
unfoldable pub has_conflicting_user_library_data : World → MatchCandidate → Bool
has_conflicting_user_library_data w candidate =
    let left_users = select_where (entity_is candidate.left_entity) w.library in
    exists_where (λ entry. entity_is candidate.right_entity entry && has_user left_users entry)
      w.library

-- `values("evidence_type").distinct().count()`
abbrev has_text : String → List MatchEvidence → Bool
has_text s es = exists_where (λ e. str_eq e.evidence_type s) es

abbrev distinct_types : List MatchEvidence → ℕ
distinct_types [] = 0
distinct_types (e ∷ es) =
    let rest = distinct_types es in if has_text e.evidence_type es then rest else ℕ.suc rest

unfoldable pub evidence_types : AiWorld → MatchCandidate → ℕ
evidence_types w candidate =
    distinct_types (select_where (λ e. e.candidate == candidate.id) w.evidence)

abbrev pub is_bind : Outcome → Bool
is_bind Outcome.bind = true
is_bind _ = false

-- The conditions of `bind_allowed`.
unfoldable pub bind_allowed :
    AiWorld → AiProposal → MatchCandidate → Entity → Entity → AiPolicy → Bool
unfolding evidence_types has_conflicting_user_library_data
bind_allowed w proposal candidate left right policy =
    is_bind proposal.decision
    && (leb policy.minimum_score proposal.confidence
        && (leb policy.minimum_score candidate.score
            && (leb policy.minimum_margin candidate.runner_up_margin
                && (leb policy.minimum_evidence_types (evidence_types w candidate)
                    && (kind_eq left.kind right.kind
                        && (not (is_cons candidate.hard_conflicts)
                            && not (has_conflicting_user_library_data w.catalogue candidate)))))))

-- `_finish_proposal` with a decision on the candidate.
unfoldable pub finish_and_decide :
    AiWorld
    → AiProposal
    → MatchCandidate
    → ProposalStatus
    → PolicyReason
    → Outcome
    → String
    → ℕ
    → ℕ
    → Result Failure AiWorld
finish_and_decide w proposal candidate status reason outcome text now new_id = do
  let finished = record w {
    proposals = set_proposal status reason (some now) proposal.id w.proposals;
  }
  (decision, after) ←
      decide_candidate finished.catalogue candidate.id outcome "ai_policy" text new_id
  ok (record finished { catalogue = after })

-- What follows the gates.
abbrev pub decide_by_gate :
    Bool → AiWorld → AiProposal → MatchCandidate → ℕ → ℕ → Result Failure AiWorld
decide_by_gate true w proposal candidate now new_id =
    finish_and_decide w proposal candidate ProposalStatus.accepted PolicyReason.passed_gate
      Outcome.bind "Passed calibrated conservative auto-bind gate." now new_id
decide_by_gate false w proposal candidate now new_id =
    finish_and_decide w proposal candidate ProposalStatus.abstained PolicyReason.failed_gate
      Outcome.abstain "Conservative policy abstained because one or more bind gates failed." now
      new_id

-- `_apply_policy`
unfoldable pub apply_policy :
    AiWorld → AiProposal → MatchCandidate → AiPolicy → ℕ → ℕ → Result Failure AiWorld
unfolding finish_and_decide bind_allowed policy_is_production_ready
apply_policy w proposal candidate policy now new_id =
    if not (is_pending candidate.status)
    then ok (record w {
      proposals =
          set_proposal ProposalStatus.abstained PolicyReason.decided_elsewhere (some now)
            proposal.id w.proposals;
    })
    else if not (policy_is_production_ready w policy candidate)
    then ok (record w {
      proposals =
          update_where (λ p. p.id == proposal.id)
            (λ p. record p { policy_reason = PolicyReason.shadow_only }) w.proposals;
    })
    else do
      left ← find_entity w.catalogue candidate.left_entity
      right ← find_entity w.catalogue candidate.right_entity
      let allowed = bind_allowed w proposal candidate left right policy
      decide_by_gate allowed w proposal candidate now new_id

abbrev pub set_run : RunStatus → ℕ → ℕ → List AiRun → List AiRun
set_run status now k =
    update_where (λ r. r.id == k) (λ r. record r { status = status; finished_at = some now })

abbrev pub new_proposal : ℕ → ℕ → ℕ → Output → AiProposal
new_proposal key run candidate output = record {
  id = key;
  run = run;
  match_candidate = candidate;
  decision = output.decision;
  confidence = output.confidence;
  status = ProposalStatus.pending;
  policy_reason = PolicyReason.not_given;
  decided_at = none;
}

-- `_persist_result`, one transaction: the run, the proposal, and the policy. The keys of the rows that
-- it makes are arguments.
unfoldable pub persist_result :
    AiWorld → ℕ → ℕ → ℕ → Output → ℕ → ℕ → ℕ → Result Failure (AiProposal × AiWorld)
unfolding apply_policy
persist_result w run candidate_id policy_id output now proposal_id event_id = do
  candidate ←
      get_or_raise Failure.does_not_exist
        (get MatchCandidate.id candidate_id w.catalogue.candidates)
  policy ← get_or_raise Failure.does_not_exist (get AiPolicy.id policy_id w.policies)
  let proposal = new_proposal proposal_id run candidate.id output
  let stored = record w {
    runs = set_run RunStatus.succeeded now run w.runs;
    proposals = w.proposals ++ proposal ∷ [];
  }
  after ← apply_policy stored proposal candidate policy now event_id
  ok (proposal, after)

-- How `evaluate` ends.
pub data Evaluated : Type 0 where
  candidate_missing : Evaluated
  proposed : AiProposal → Evaluated
  gateway_raised : Evaluated
  output_raised : InvalidOutput → Evaluated
  persist_raised : Failure → Evaluated

-- The end of `evaluate`: a result that cannot be stored rolls its transaction back, and nothing
-- writes the run then.
abbrev pub finish_evaluate : AiWorld → Result Failure (AiProposal × AiWorld) → Evaluated × AiWorld
finish_evaluate w (ok (proposal, after)) = (Evaluated.proposed proposal, after)
finish_evaluate w (err e) = (Evaluated.persist_raised e, w)

-- `_mark_run_failed`
abbrev pub mark_run_failed : AiWorld → ℕ → ℕ → AiWorld
mark_run_failed w now run = record w { runs = set_run RunStatus.failed now run w.runs }

-- `evaluate` from the checked answer on, and from the answer of the gateway on, `none` where it raises.
abbrev pub evaluate_output :
    AiWorld → ℕ → ℕ → ℕ → Result InvalidOutput Output → ℕ → ℕ → ℕ → Evaluated × AiWorld
evaluate_output w run candidate_id policy_id (err e) now proposal_id event_id =
    (Evaluated.output_raised e, mark_run_failed w now run)
evaluate_output w run candidate_id policy_id (ok output) now proposal_id event_id =
    finish_evaluate w (persist_result w run candidate_id policy_id output now proposal_id event_id)

abbrev pub evaluate_answer :
    AiWorld → ℕ → ℕ → ℕ → ℕ → Option RawOutput → ℕ → ℕ → ℕ → Evaluated × AiWorld
evaluate_answer w run candidate_id policy_id one none now proposal_id event_id =
    (Evaluated.gateway_raised, mark_run_failed w now run)
evaluate_answer w run candidate_id policy_id one (some raw) now proposal_id event_id =
    evaluate_output w run candidate_id policy_id (validate_matching_output one raw) now proposal_id
      event_id

abbrev pub started_run : ℕ → AiRun
started_run run = record { id = run; status = RunStatus.running; finished_at = none }

abbrev matching_use_case : String
matching_use_case = "entity_matching"

-- The columns that `defaults` and the model give a new policy; decimals are parts of `one`.
abbrev pub default_policy : ℕ → ℕ → String → AiPolicy
default_policy key one version = record {
  id = key;
  use_case = matching_use_case;
  policy_version = version;
  shadow_mode = true;
  minimum_score = one * 9950 / 10000;
  minimum_margin = one * 500 / 10000;
  minimum_evidence_types = 2;
  required_evaluation_precision = one * 9990 / 10000;
  is_enabled = true;
}

abbrev pub is_of_use_case : AiPolicy → Bool
is_of_use_case policy = str_eq policy.use_case matching_use_case

-- `AIPolicy.objects.get_or_create`, of the row that is found.
abbrev pub policy_or_create : Option AiPolicy → AiPolicy → List AiPolicy → AiPolicy × List AiPolicy
policy_or_create none fresh t = (fresh, t ++ fresh ∷ [])
policy_or_create (some policy) fresh t = (policy, t)

-- `evaluate` from the policy on, with the table of policies after it.
abbrev pub evaluate_policy :
    AiWorld
    → ℕ
    → ℕ
    → AiPolicy × List AiPolicy
    → ℕ
    → Option RawOutput
    → ℕ
    → ℕ
    → ℕ
    → Evaluated × AiWorld
evaluate_policy w run candidate_id (policy, policies) one answer now proposal_id event_id =
    evaluate_answer (record w { policies = policies; runs = w.runs ++ started_run run ∷ [] }) run
      candidate_id policy.id one answer now proposal_id event_id

-- `evaluate` from the candidate on.
abbrev pub evaluate_candidate :
    AiWorld → ℕ → Option MatchCandidate → ℕ → ℕ → Option RawOutput → ℕ → ℕ → ℕ → Evaluated × AiWorld
evaluate_candidate w run none policy_key one answer now proposal_id event_id =
    (Evaluated.candidate_missing, w)
evaluate_candidate w run (some candidate) policy_key one answer now proposal_id event_id =
    evaluate_policy w run candidate.id
      (policy_or_create (first_where is_of_use_case w.policies)
        (default_policy policy_key one candidate.policy_version) w.policies)
      one answer now proposal_id event_id

-- `evaluate`: `answer` is the gateway's, and the keys of the rows that it makes are arguments.
unfoldable pub evaluate :
    AiWorld → ℕ → ℕ → ℕ → ℕ → Option RawOutput → ℕ → ℕ → ℕ → Evaluated × AiWorld
unfolding persist_result validate_matching_output
evaluate w run candidate_id policy_key one answer now proposal_id event_id =
    evaluate_candidate w run (get MatchCandidate.id candidate_id w.catalogue.candidates) policy_key
      one answer now proposal_id event_id
