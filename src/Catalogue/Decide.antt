-- ===== src/Catalogue/Decide.antt =====
-- Decisions on match candidates in src/apps/index/services/resolution.py: `decide_candidate`,
-- `_canonical_pair` and `_merge_method`.
pub mod Canonical
pub mod Flip
pub mod Outcomes
pub mod Final
use noshiro_db_backend.Base.{
  ℕ, Bool, true, false, ◌==◌, ◌&&◌, ◌||◌, not, ltb, List, [], ◌∷◌, ◌++◌, Option, none, some, String,
  if◌then◌else◌, str_eq, count_where, update_where, get,
}
use noshiro_db_backend.Base.Result.{Result, ok, err, ◌>>=◌, ◌>>◌, raise_if, get_or_raise}
use noshiro_db_backend.Catalogue.Model.{
  Entity, Method, Snapshot, MergeEvent, CandidateStatus, MatchCandidate, Outcome, DecisionData,
  MatchDecision, World, Failure,
}
use noshiro_db_backend.Catalogue.Redirects.{cluster_ids}
use noshiro_db_backend.Catalogue.Merge.{
  kind_eq, SafetyRank, safety_rank, rank_gt, resolve_entity, entity_in, merge,
}

abbrev pub is_pending : CandidateStatus → Bool
is_pending CandidateStatus.pending = true
is_pending _ = false

-- `status_by_outcome`
abbrev pub status_by_outcome : Outcome → CandidateStatus
status_by_outcome Outcome.bind = CandidateStatus.accepted
status_by_outcome Outcome.group = CandidateStatus.grouped
status_by_outcome Outcome.reject = CandidateStatus.rejected
status_by_outcome Outcome.abstain = CandidateStatus.abstained

abbrev pub rank_eq : SafetyRank → SafetyRank → Bool
rank_eq (a, b, c) (x, y, z) = a == x && (b == y && c == z)

-- `bool(n)`
abbrev pub is_positive : ℕ → Bool
is_positive n = ltb 0 n

abbrev pub bool_eq : Bool → Bool → Bool
bool_eq true b = b
bool_eq false b = not b

-- `(created_at, str(pk))` of the first is not behind that of the second; keys sort as their texts do.
abbrev pub is_older : Entity → Entity → Bool
is_older a b = not (ltb b.created_at a.created_at || b.created_at == a.created_at && ltb b.id a.id)

-- Whether the left entity becomes the canonical one, given the library entries of the clusters.
abbrev pub left_is_target : Entity → Entity → ℕ → ℕ → Bool
left_is_target left right left_count right_count =
    if not (rank_eq (safety_rank left) (safety_rank right))
    then rank_gt (safety_rank left) (safety_rank right)
    else if not (bool_eq (is_positive left_count) (is_positive right_count))
    then is_positive left_count
    else is_older left right

-- `_canonical_pair`: the source and the target of the merge.
unfoldable pub canonical_pair : World → ℕ → ℕ → Result Failure (Entity × Entity)
canonical_pair w left_entity right_entity = do
  left ← resolve_entity w left_entity
  right ← resolve_entity w right_entity
  raise_if (left.id == right.id) Failure.resolve_together
  raise_if (not (kind_eq left.kind right.kind)) Failure.bind_kinds
  left_ids ← cluster_ids w.redirects left.id
  right_ids ← cluster_ids w.redirects right.id
  let left_count = count_where (entity_in left_ids) w.library
  let right_count =
      count_where (λ entry. entity_in right_ids entry && not (entity_in left_ids entry)) w.library
  ok (if left_is_target left right left_count right_count then (right, left) else (left, right))

-- `_merge_method`
abbrev pub merge_method : String → Method
merge_method decided_by =
    if str_eq decided_by "ai_policy"
    then Method.ai_policy
    else if str_eq decided_by "manual"
    then Method.manual
    else Method.rule

-- What the decision of a bind does: the merge, and the keys that it keeps of it.
unfoldable pub bind_pair :
    World → MatchCandidate → String → String → ℕ → Result Failure (DecisionData × World)
unfolding canonical_pair
bind_pair w candidate decided_by reason new_id = do
  (source, target) ← canonical_pair w candidate.left_entity candidate.right_entity
  (event, after) ← merge w source.id target.id (merge_method decided_by) reason none new_id
  ok (DecisionData.merge_data event.id source.id target.id, after)

-- The tables after an outcome, and the data of the decision.
abbrev pub apply_outcome :
    World → MatchCandidate → Outcome → String → String → ℕ → Result Failure (DecisionData × World)
apply_outcome w candidate Outcome.bind decided_by reason new_id =
    bind_pair w candidate decided_by reason new_id
apply_outcome w candidate Outcome.group decided_by reason new_id = ok (DecisionData.group_data, w)
apply_outcome w candidate Outcome.reject decided_by reason new_id = ok (DecisionData.no_data, w)
apply_outcome w candidate Outcome.abstain decided_by reason new_id = ok (DecisionData.no_data, w)

abbrev pub set_status : CandidateStatus → ℕ → List MatchCandidate → List MatchCandidate
set_status state k = update_where (λ c. c.id == k) (λ c. record c { status = state })

abbrev pub new_decision : MatchCandidate → Outcome → String → String → DecisionData → MatchDecision
new_decision candidate outcome decided_by reason kept = record {
  candidate = candidate.id;
  outcome = outcome;
  decided_by = decided_by;
  policy_version = candidate.policy_version;
  reason = reason;
  decision_data = kept;
}

-- `decide_candidate`. The row of the decision is added when its data are known: nothing reads it in
-- between, and an exception takes it back.
unfoldable pub decide_candidate :
    World → ℕ → Outcome → String → String → ℕ → Result Failure (MatchDecision × World)
unfolding bind_pair
decide_candidate w candidate_id outcome decided_by reason new_id = do
  candidate ← get_or_raise Failure.does_not_exist (get MatchCandidate.id candidate_id w.candidates)
  raise_if (not (is_pending candidate.status)) Failure.already_decided
  let marked = record w {
    candidates = set_status (status_by_outcome outcome) candidate.id w.candidates;
  }
  (kept, after) ← apply_outcome marked candidate outcome decided_by reason new_id
  let decision = new_decision candidate outcome decided_by reason kept
  ok (decision, record after { decisions = after.decisions ++ decision ∷ [] })
