-- ===== src/Catalogue/Proposals.antt =====
-- The rows of src/apps/ai/models/inference.py that the matching services read or write, the evidence
-- of src/apps/index/models/resolution.py, and `validate_matching_output` of
-- src/apps/ai/services/common.py. Decimals are counts of one fixed small unit.
use noshiro_db_backend.Base.{
  ℕ, zero, suc, Bool, false, ◌==◌, leb, List, Option, none, some, String, if◌then◌else◌, str_eq,
  is_text, strip, ℤ, pos, negsuc, update_where,
}
use noshiro_db_backend.Base.Result.{Result, ok, err, ◌>>=◌}
use noshiro_db_backend.Catalogue.Model.{Outcome, UserSubject, World}

pub data ProposalStatus : Type 0 where
  pending : ProposalStatus
  accepted : ProposalStatus
  rejected : ProposalStatus
  abstained : ProposalStatus

-- The texts of `policy_reason`.
pub data PolicyReason : Type 0 where
  not_given : PolicyReason
  decided_elsewhere : PolicyReason
  shadow_only : PolicyReason
  passed_gate : PolicyReason
  failed_gate : PolicyReason
  admin_bind : String → PolicyReason
  admin_abstained : PolicyReason

-- `decision` is the payload's.
pub record AiProposal : Type 0 where
  pub id : ℕ
  pub run : ℕ
  pub match_candidate : ℕ
  pub decision : Outcome
  pub confidence : ℕ
  pub status : ProposalStatus
  pub policy_reason : PolicyReason
  pub decided_at : Option ℕ

pub record AiPolicy : Type 0 where
  pub id : ℕ
  pub use_case : String
  pub policy_version : String
  pub shadow_mode : Bool
  pub minimum_score : ℕ
  pub minimum_margin : ℕ
  pub minimum_evidence_types : ℕ
  pub required_evaluation_precision : ℕ
  pub is_enabled : Bool

pub record AiEvaluationRun : Type 0 where
  pub use_case : String
  pub policy_version : String
  pub sample_count : ℕ
  pub precision : ℕ
  pub passed : Bool
  pub created_at : ℕ

pub record MatchEvidence : Type 0 where
  pub candidate : ℕ
  pub evidence_type : String

pub data RunStatus : Type 0 where
  running : RunStatus
  succeeded : RunStatus
  failed : RunStatus

pub record AiRun : Type 0 where
  pub id : ℕ
  pub status : RunStatus
  pub finished_at : Option ℕ

-- The catalogue with the tables of the matching services.
pub record AiWorld : Type 0 where
  pub catalogue : World
  pub proposals : List AiProposal
  pub runs : List AiRun
  pub policies : List AiPolicy
  pub evaluations : List AiEvaluationRun
  pub evidence : List MatchEvidence

-- What a provider may answer as a confidence.
pub data RawConfidence : Type 0 where
  boolean : RawConfidence
  unparsable : RawConfidence
  not_finite : RawConfidence
  decimal : ℤ → RawConfidence

-- The answer before it is checked; `reason` is `none` where it is no text.
pub record RawOutput : Type 0 where
  pub decision : String
  pub reason : Option String
  pub confidence : RawConfidence

pub record Output : Type 0 where
  pub decision : Outcome
  pub confidence : ℕ
  pub reason : String

pub data InvalidOutput : Type 0 where
  bad_decision : InvalidOutput
  bad_reason : InvalidOutput
  bad_confidence : InvalidOutput

abbrev parse_decision : String → Result InvalidOutput Outcome
parse_decision s =
    if str_eq s "bind"
    then ok Outcome.bind
    else if str_eq s "group"
    then ok Outcome.group
    else if str_eq s "reject"
    then ok Outcome.reject
    else if str_eq s "abstain"
    then ok Outcome.abstain
    else err InvalidOutput.bad_decision

-- A reason that is a text and not blank, without the white space around it.
abbrev parse_reason : Option String → Result InvalidOutput String
parse_reason none = err InvalidOutput.bad_reason
parse_reason (some s) = if is_text (strip s) then ok (strip s) else err InvalidOutput.bad_reason

-- `0 <= confidence <= 1`, where `one` is 1.
abbrev parse_confidence : ℕ → RawConfidence → Result InvalidOutput ℕ
parse_confidence one RawConfidence.boolean = err InvalidOutput.bad_confidence
parse_confidence one RawConfidence.unparsable = err InvalidOutput.bad_confidence
parse_confidence one RawConfidence.not_finite = err InvalidOutput.bad_confidence
parse_confidence one (RawConfidence.decimal (negsuc n)) = err InvalidOutput.bad_confidence
parse_confidence one (RawConfidence.decimal (pos n)) =
    if leb n one then ok n else err InvalidOutput.bad_confidence

-- `s[:n]`
unfoldable pub text_take : ℕ → String → String
text_take zero s = ""
text_take (suc n) String.[] = ""
text_take (suc n) (String.◌∷◌ c s) = String.◌∷◌ c (text_take n s)

unfoldable pub validate_matching_output : ℕ → RawOutput → Result InvalidOutput Output
validate_matching_output one raw = do
  decision ← parse_decision raw.decision
  reason ← parse_reason raw.reason
  confidence ← parse_confidence one raw.confidence
  ok (record { decision = decision; confidence = confidence; reason = text_take 2000 reason })

-- `entity_id=e`
abbrev pub entity_is : ℕ → UserSubject → Bool
entity_is e entry = elim entry.entity [ none ↦ false | some k ↦ k == e ]

-- `_finish_proposal`, and the other writes of a proposal's columns.
abbrev pub set_proposal :
    ProposalStatus → PolicyReason → Option ℕ → ℕ → List AiProposal → List AiProposal
set_proposal status reason decided k =
    update_where (λ p. p.id == k)
      (λ p. record p { status = status; policy_reason = reason; decided_at = decided })
