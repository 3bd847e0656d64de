-- ===== src/Catalogue/Tests.antt =====
-- Runs of the catalogue's operations on small tables, and the theorems at such inputs.
use noshiro_db_backend.Base.{
  ℕ, ◌≡◌, ◌↔◌, refl, true, false, ◌==◌, [], ◌∷◌, none, some, order_by, get, if◌then◌else◌,
}
use noshiro_db_backend.Base.Result.{ok, err}
use noshiro_db_backend.Catalogue.Model.{
  Visibility, Entity, Method, SplitEvent, CandidateStatus, MatchCandidate, Outcome, DecisionData,
  MatchDecision, World, Failure,
}
use noshiro_db_backend.Catalogue.Redirects.{
  contains, redirect_map, resolve, resolve_with, cluster_ids, follow, grow,
}
use noshiro_db_backend.Catalogue.Redirects.Resolve.{resolve_with-redirect_map}
use noshiro_db_backend.Catalogue.Redirects.Cluster.{cluster_ids-resolve}
use noshiro_db_backend.Catalogue.Merge.{
  merge, split, split_result, is_public, kind_eq, safety_rank, rank_gt, resolve_entity, find_entity,
}
use noshiro_db_backend.Catalogue.Merge.Forest.{IsForest, merge-resolve}
use noshiro_db_backend.Catalogue.Merge.Back.{split-merge}
use noshiro_db_backend.Catalogue.WellFormed.{
  IsWellFormed, merge-IsWellFormed, split-IsWellFormed, is_public-canonical,
}
use noshiro_db_backend.Catalogue.Decide.{canonical_pair, decide_candidate}
use noshiro_db_backend.Catalogue.Decide.Canonical.{canonical_pair-safe}
use noshiro_db_backend.Catalogue.Decide.Flip.{canonical_pair-flip}
use noshiro_db_backend.Catalogue.Decide.Outcomes.{decide_candidate-effect}
use noshiro_db_backend.Catalogue.Decide.Final.{decide_candidate-final}
use noshiro_db_backend.Catalogue.Samples.{
  work_row, candidate_row, start, start_snapshot, first_event, merged, start_merges,
  start-IsWellFormed, merged-IsWellFormed,
}

merged_cluster : cluster_ids merged.redirects 1 ≡ ok (1 ∷ 2 ∷ [])
unfolding cluster_ids resolve follow grow
merged_cluster = refl

merged_resolves : resolve merged.redirects 2 ≡ ok 1
unfolding resolve follow
merged_resolves = refl

merge-resolve_example :
    IsForest merged.redirects
    × (resolve start.redirects 2 ≡ ok 2)
    × (resolve start.redirects 1 ≡ ok 1)
    × ((e r : ℕ)
        → resolve start.redirects e ≡ ok r
        → resolve merged.redirects e ≡ ok (if 2 == r then 1 else r))
merge-resolve_example =
    merge-resolve start 2 1 Method.manual "same work" none 50 (first_event, merged)
      start-IsWellFormed.forest start_merges

merge-IsWellFormed_example : IsWellFormed merged
merge-IsWellFormed_example =
    merge-IsWellFormed start 2 1 Method.manual "same work" none 50 (first_event, merged)
      start-IsWellFormed start_merges

merged_splits : split merged 100 50 "editions" ≡ ok (split_result merged 100 first_event "editions")
unfolding split resolve follow cluster_ids grow
merged_splits = refl

split-IsWellFormed_example : IsWellFormed (split_result merged 100 first_event "editions").1
split-IsWellFormed_example =
    split-IsWellFormed merged 100 50 "editions" (split_result merged 100 first_event "editions")
      merged-IsWellFormed merged_splits

split-merge_example :
    (back : SplitEvent × World) × (split merged 100 50 "editions" ≡ ok back)
    × ((e : ℕ) → resolve back.1.redirects e ≡ resolve start.redirects e)
    × (back.0.restored_snapshot ≡ start_snapshot)
split-merge_example =
    split-merge start 2 1 Method.manual "same work" none 50 (first_event, merged) 100 "editions"
      start-IsWellFormed.forest refl refl start_merges

cluster_ids-resolve_example :
    (contains (1 ∷ 2 ∷ []) 2 ≡ true) ↔ (resolve merged.redirects 2 ≡ resolve merged.redirects 1)
cluster_ids-resolve_example =
    cluster_ids-resolve merged.redirects merged-IsWellFormed.forest.unique 1 2 (1 ∷ 2 ∷ [])
      merged_cluster

resolve_with-redirect_map_example :
    resolve_with (redirect_map merged.redirects) 2 ≡ resolve merged.redirects 2
resolve_with-redirect_map_example =
    resolve_with-redirect_map merged.redirects 2 merged-IsWellFormed.forest.unique

is_public-canonical_example : is_public merged 2 ≡ ok true
is_public-canonical_example =
    is_public-canonical merged 2 (work_row 1 Visibility.public_to_all 5) merged-IsWellFormed
      merged_resolves refl

abbrev decided : CandidateStatus → World → World
decided status w = record w { candidates = record candidate_row { status = status } ∷ [] }

abbrev decision_row : Outcome → DecisionData → MatchDecision
decision_row outcome kept = record {
  candidate = 20;
  outcome = outcome;
  decided_by = "manual";
  policy_version = "v1";
  reason = "same work";
  decision_data = kept;
}

abbrev bind_row : MatchDecision
bind_row = decision_row Outcome.bind (DecisionData.merge_data 50 2 1)

abbrev bound : World
bound = record (decided CandidateStatus.accepted merged) { decisions = bind_row ∷ [] }

start_binds : decide_candidate start 20 Outcome.bind "manual" "same work" 50 ≡ ok (bind_row, bound)
unfolding decide_candidate merge resolve follow cluster_ids grow order_by
start_binds = refl

decide_candidate-effect_example :
    IsWellFormed bound × (resolve bound.redirects 1 ≡ resolve bound.redirects 2)
decide_candidate-effect_example =
    decide_candidate-effect start 20 Outcome.bind "manual" "same work" 50 (bind_row, bound)
      candidate_row start-IsWellFormed refl start_binds

decide_candidate-final_example :
    (get MatchCandidate.id 20 bound.candidates
      ≡ some (record candidate_row { status = CandidateStatus.accepted }))
    × (decide_candidate bound 20 Outcome.reject "manual" "no" 51 ≡ err Failure.already_decided)
decide_candidate-final_example =
    decide_candidate-final start 20 Outcome.bind Outcome.reject "manual" "manual" "same work" "no"
      50 51 (bind_row, bound) candidate_row refl start_binds

abbrev chosen_pair : Entity × Entity
chosen_pair = (work_row 2 Visibility.public_to_all 9, work_row 1 Visibility.public_to_all 5)

start_chooses : canonical_pair start 1 2 ≡ ok chosen_pair
unfolding canonical_pair resolve_entity find_entity resolve follow cluster_ids grow
start_chooses = refl

canonical_pair-flip_example : canonical_pair start 2 1 ≡ ok chosen_pair
canonical_pair-flip_example =
    canonical_pair-flip start 1 2 chosen_pair start-IsWellFormed.forest.unique start_chooses

canonical_pair-safe_example :
    ((chosen_pair.0.id == chosen_pair.1.id) ≡ false)
    × (kind_eq chosen_pair.0.kind chosen_pair.1.kind ≡ true)
    × (rank_gt (safety_rank chosen_pair.0) (safety_rank chosen_pair.1) ≡ false)
canonical_pair-safe_example = canonical_pair-safe start 1 2 chosen_pair start_chooses
