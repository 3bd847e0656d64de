-- ===== src/Catalogue/Samples.antt =====
-- Small tables for tests: two public works and a restricted one, before and after a merge.
use noshiro_db_backend.Base.{
  ℕ, ◌≡◌, refl, sym, ◌∙◌, [], ◌∷◌, none, some, order_by, some_injective, arith,
}
use noshiro_db_backend.Base.Result.{ok}
use noshiro_db_backend.Catalogue.Model.{
  Kind, Lifecycle, Visibility, Audience, Entity, Method, UserSubject, Snapshot, MergeEvent,
  CandidateStatus, MatchCandidate, World,
}
use noshiro_db_backend.Catalogue.Redirects.{resolve, cluster_ids, follow, grow}
use noshiro_db_backend.Catalogue.Merge.{merge, merged_world}
use noshiro_db_backend.Catalogue.WellFormed.{IsWellFormed, merge-IsWellFormed}

abbrev pub work_row : ℕ → Visibility → ℕ → Entity
work_row id visibility created_at = record {
  id = id;
  kind = Kind.work;
  lifecycle = Lifecycle.active;
  visibility = visibility;
  audience = Audience.general;
  spoiler_level = 0;
  created_at = created_at;
}

abbrev pub entry : ℕ → ℕ → ℕ → UserSubject
entry id user entity = record { id = id; user = user; entity = some entity }

abbrev pub candidate_row : MatchCandidate
candidate_row = record {
  id = 20;
  left_entity = 1;
  right_entity = 2;
  score = 9900;
  runner_up_margin = 5000;
  policy_version = "v1";
  status = CandidateStatus.pending;
  hard_conflicts = [];
}

-- Two public works and a restricted one, each in the library of a user, and a candidate.
abbrev pub start : World
start = record {
  entities =
      work_row 1 Visibility.public_to_all 5
      ∷ work_row 2 Visibility.public_to_all 9
      ∷ work_row 3 Visibility.restricted 7
      ∷ [];
  redirects = [];
  merges = [];
  splits = [];
  candidates = candidate_row ∷ [];
  decisions = [];
  library = entry 71 7 1 ∷ entry 82 8 2 ∷ [];
}

abbrev pub start_snapshot : Snapshot
start_snapshot = record {
  version = 1;
  source_cluster_ids = 2 ∷ [];
  target_cluster_ids = 1 ∷ [];
  user_library_entries = entry 71 7 1 ∷ entry 82 8 2 ∷ [];
}

abbrev pub first_event : MergeEvent
first_event = record {
  id = 50;
  source_entity = 2;
  target_entity = 1;
  method = Method.manual;
  reason = "same work";
  snapshot = start_snapshot;
  reversed_at = none;
}

-- The tables after the second work has been merged into the first.
abbrev pub merged : World
merged = merged_world start first_event

pub start_merges : merge start 2 1 Method.manual "same work" none 50 ≡ ok (first_event, merged)
unfolding merge resolve follow cluster_ids grow order_by
start_merges = refl

pub start-IsWellFormed : IsWellFormed start
start-IsWellFormed = record {
  keyed = (refl, (refl, (refl, tt)));
  forest = record { unique = tt; within = λ e. (0, e, omega arith, (refl, refl)) };
  one = (
    ((λ u a b x y t. some_injective (sym x ∙ y)), ((λ u a b x y t. absurd (cc)), tt)),
    (((λ u a b x y t. absurd (cc)), ((λ u a b x y t. some_injective (sym x ∙ y)), tt)), tt),
  );
  linked = λ e t h. absurd (cc);
}

pub merged-IsWellFormed : IsWellFormed merged
merged-IsWellFormed =
    merge-IsWellFormed start 2 1 Method.manual "same work" none 50 (first_event, merged)
      start-IsWellFormed start_merges
