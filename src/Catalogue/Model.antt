-- ===== src/Catalogue/Model.antt =====
-- The rows of src/apps/index/models/entities.py and src/apps/index/models/resolution.py that the
-- resolution of entities reads or writes, the library entries of src/apps/users/models/library.py,
-- and the exceptions of the service.
use noshiro_db_backend.Base.{ℕ, Bool, List, Option, String}

pub data Kind : Type 0 where
  work : Kind
  release : Kind
  episode : Kind
  contributor : Kind
  character : Kind
  unclassified : Kind

pub data Lifecycle : Type 0 where
  active : Lifecycle
  merged : Lifecycle
  retired : Lifecycle

pub data Visibility : Type 0 where
  public_to_all : Visibility
  authenticated : Visibility
  restricted : Visibility

pub data Audience : Type 0 where
  unknown : Audience
  general : Audience
  adult : Audience

pub record Entity : Type 0 where
  pub id : ℕ
  pub kind : Kind
  pub lifecycle : Lifecycle
  pub visibility : Visibility
  pub audience : Audience
  pub spoiler_level : ℕ
  pub created_at : ℕ

pub record EntityRedirect : Type 0 where
  pub source_entity : ℕ
  pub target_entity : ℕ
  pub merge_event : ℕ
  pub is_active : Bool

pub data Method : Type 0 where
  rule : Method
  ai_policy : Method
  manual : Method

-- One entry of `UserSubject`; its entity may be null.
pub record UserSubject : Type 0 where
  pub id : ℕ
  pub user : ℕ
  pub entity : Option ℕ

-- What `_merge_snapshot` keeps.
pub record Snapshot : Type 0 where
  pub version : ℕ
  pub source_cluster_ids : List ℕ
  pub target_cluster_ids : List ℕ
  pub user_library_entries : List UserSubject

pub record MergeEvent : Type 0 where
  pub id : ℕ
  pub source_entity : ℕ
  pub target_entity : ℕ
  pub method : Method
  pub reason : String
  pub snapshot : Snapshot
  pub reversed_at : Option ℕ

pub record SplitEvent : Type 0 where
  pub merge_event : ℕ
  pub reason : String
  pub restored_snapshot : Snapshot

pub data CandidateStatus : Type 0 where
  pending : CandidateStatus
  accepted : CandidateStatus
  grouped : CandidateStatus
  rejected : CandidateStatus
  abstained : CandidateStatus

pub record MatchCandidate : Type 0 where
  pub id : ℕ
  pub left_entity : ℕ
  pub right_entity : ℕ
  pub score : ℕ
  pub runner_up_margin : ℕ
  pub policy_version : String
  pub status : CandidateStatus
  pub hard_conflicts : List String

pub data Outcome : Type 0 where
  bind : Outcome
  group : Outcome
  reject : Outcome
  abstain : Outcome

-- `decision_data`: empty, the keys of a merge, or the mark of a group.
pub data DecisionData : Type 0 where
  no_data : DecisionData
  merge_data : (merge_event source canonical : ℕ) → DecisionData
  group_data : DecisionData

pub record MatchDecision : Type 0 where
  pub candidate : ℕ
  pub outcome : Outcome
  pub decided_by : String
  pub policy_version : String
  pub reason : String
  pub decision_data : DecisionData

-- The tables.
pub record World : Type 0 where
  pub entities : List Entity
  pub redirects : List EntityRedirect
  pub merges : List MergeEvent
  pub splits : List SplitEvent
  pub candidates : List MatchCandidate
  pub decisions : List MatchDecision
  pub library : List UserSubject

-- The messages of EntityResolutionError, and `DoesNotExist` of a `.get()`.
pub data Failure : Type 0 where
  redirect_cycle : Failure
  redirect_depth : Failure
  cluster_depth : Failure
  same_entity : Failure
  different_kinds : Failure
  unsafe_canonical : Failure
  library_conflict : Failure
  already_reversed : Failure
  already_decided : Failure
  resolve_together : Failure
  bind_kinds : Failure
  does_not_exist : Failure
