-- ===== src/Catalogue/CrossProvider.antt =====
-- The binding of a Bangumi work to the VNDB entry that it names, in
-- src/apps/index/services/identity.py: `_bind_verified_pair` and `_compatible_galgame_entities`.
pub mod Settled
mod Tests
use noshiro_db_backend.Base.{
  text_append, ℕ, Bool, true, false, ◌==◌, ◌&&◌, ◌||◌, not, ltb, List, [], ◌∷◌, ◌++◌, Option, none,
  some, String, if◌then◌else◌, str_eq, is_cons, exists_where, first_where, update_where,
}
use noshiro_db_backend.Base.Result.{Result, ok, err, ◌>>=◌}
use noshiro_db_backend.Catalogue.Model.{
  Kind, Entity, CandidateStatus, MatchCandidate, Outcome, MatchDecision, World, Failure,
}
use noshiro_db_backend.Catalogue.Merge.{kind_eq, resolve_entity}
use noshiro_db_backend.Catalogue.Decide.{is_pending, decide_candidate}

pub data WorkType : Type 0 where
  anime : WorkType
  galgame : WorkType
  manga : WorkType
  novel : WorkType
  game : WorkType
  music : WorkType
  other : WorkType
  unclassified : WorkType

pub record Work : Type 0 where
  pub entity : ℕ
  pub work_type : WorkType

-- The columns of `MatchEvidence` by which a row is found.
pub record SourceEvidence : Type 0 where
  pub candidate : ℕ
  pub evidence_type : String
  pub observation : ℕ

pub record CrossWorld : Type 0 where
  pub catalogue : World
  pub works : List Work
  pub evidence : List SourceEvidence

abbrev pub policy_version : String
policy_version = "official-cross-id-v1"

abbrev is_galgame : WorkType → Bool
is_galgame WorkType.galgame = true
is_galgame _ = false

-- `in {GALGAME, GAME}`
abbrev is_game : WorkType → Bool
is_game WorkType.galgame = true
is_game WorkType.game = true
is_game _ = false

-- The `work_type` of the first work of an entity, tested; there may be none.
abbrev has_type : (WorkType → Bool) → ℕ → List Work → Bool
has_type p e works = elim (first_where (λ work. work.entity == e) works) [
  | none ↦ false
  | some work ↦ p work.work_type
]

abbrev is_work : Entity → Bool
is_work e = kind_eq e.kind Kind.work

-- `_compatible_galgame_entities`
unfoldable pub compatible_galgame_entities : List Work → Entity → Entity → Bool
compatible_galgame_entities works left right =
    if not (is_work left) || not (is_work right)
    then false
    else has_type is_game left.id works && has_type is_galgame right.id works

abbrev pub is_pair : ℕ → ℕ → MatchCandidate → Bool
is_pair left right c =
    c.left_entity == left && (c.right_entity == right && str_eq c.policy_version policy_version)

-- `get_or_create` of the candidate, whose key is an argument.
abbrev pub new_candidate : ℕ → ℕ → ℕ → List String → MatchCandidate
new_candidate key left right conflicts = record {
  id = key;
  left_entity = left;
  right_entity = right;
  score = 10000;
  runner_up_margin = 10000;
  policy_version = policy_version;
  status = CandidateStatus.pending;
  hard_conflicts = conflicts;
}

abbrev pub or_create :
    Option MatchCandidate
    → MatchCandidate
    → List MatchCandidate
    → MatchCandidate × List MatchCandidate
or_create none new t = (new, t ++ new ∷ [])
or_create (some c) new t = (c, t)

abbrev pub get_or_create :
    ℕ → ℕ → ℕ → List String → List MatchCandidate → MatchCandidate × List MatchCandidate
get_or_create key left right conflicts t =
    or_create (first_where (is_pair left right) t) (new_candidate key left right conflicts) t

-- `get_or_create` of the evidence.
abbrev add_evidence : ℕ → ℕ → List SourceEvidence → List SourceEvidence
add_evidence candidate observation t =
    let same : SourceEvidence → Bool = λ e.
      e.candidate == candidate
      && (str_eq e.evidence_type "official_external_id" && e.observation == observation) in
    if exists_where same t
    then t
    else t
      ++ record {
        candidate = candidate;
        evidence_type = "official_external_id";
        observation = observation;
      }
        ∷ []

-- Whether `except EntityResolutionError` catches an exception.
abbrev pub is_resolution_error : Failure → Bool
is_resolution_error Failure.does_not_exist = false
is_resolution_error _ = true

-- The decision of a candidate.
abbrev pub decided_catalogue :
    CrossWorld → Result Failure (MatchDecision × World) → Result Failure CrossWorld
decided_catalogue w (ok (decision, after)) = ok (record w { catalogue = after })
decided_catalogue w (err e) = err e

abbrev pub abstain : CrossWorld → MatchCandidate → String → ℕ → Result Failure CrossWorld
abstain w c reason event_id =
    decided_catalogue w
      (decide_candidate w.catalogue c.id Outcome.abstain "official_external_id" reason event_id)

-- `str(exc)`, the messages of src/apps/index/services/resolution.py; the exception that no row matches
-- is not caught, and its text is not read.
unfoldable pub failure_text : Failure → String
failure_text Failure.redirect_cycle = "Entity redirect cycle detected."
failure_text Failure.redirect_depth = "Entity redirect depth exceeded."
failure_text Failure.cluster_depth = "Entity redirect cluster depth exceeded."
failure_text Failure.same_entity = "Cannot merge an entity into itself."
failure_text Failure.different_kinds = "Cannot merge entities of different kinds."
failure_text Failure.unsafe_canonical =
    "Canonical entity must preserve the strictest safety classification."
failure_text Failure.library_conflict =
    "Cannot merge entities with conflicting user library entries."
failure_text Failure.already_reversed = "Merge event is already reversed."
failure_text Failure.already_decided = "Match candidate has already been decided."
failure_text Failure.resolve_together = "Candidate entities already resolve together."
failure_text Failure.bind_kinds = "Cannot bind entities of different kinds."
failure_text Failure.does_not_exist = "matching query does not exist."

-- The `try` around the bind.
abbrev pub bind_or_abstain :
    CrossWorld
    → MatchCandidate
    → ℕ
    → Result Failure (MatchDecision × World)
    → Result Failure CrossWorld
bind_or_abstain w c event_id (ok (decision, after)) = ok (record w { catalogue = after })
bind_or_abstain w c event_id (err e) =
    if is_resolution_error e
    then abstain w c
        (text_append "Verified identifier could not be bound safely: " (failure_text e)) event_id
    else err e

-- `reason` of the bind.
unfoldable pub reference_reason : String → String
unfolding text_append
reference_reason vndb_id =
    text_append "Bangumi explicitly references VNDB " (text_append vndb_id ".")

-- From the candidate on.
abbrev pub settle :
    CrossWorld → MatchCandidate → List String → String → ℕ → Result Failure CrossWorld
settle w c conflicts vndb_id event_id =
    if not (is_pending c.status)
    then ok w
    else if is_cons conflicts
    then abstain w c "Official identifier conflicts with canonical entity types." event_id
    else bind_or_abstain w c event_id (
        decide_candidate w.catalogue c.id Outcome.bind "official_external_id"
          (reference_reason vndb_id) event_id)

abbrev set_galgame : ℕ → List Work → List Work
set_galgame e =
    update_where (λ work. work.entity == e) (λ work. record work { work_type = WorkType.galgame })

-- `sorted((a, b), key=str(pk))` of two different keys.
abbrev pub lower : ℕ → ℕ → ℕ
lower a b = if ltb b a then b else a

abbrev pub higher : ℕ → ℕ → ℕ
higher a b = if ltb b a then a else b

-- `hard_conflicts`
abbrev pub conflicts_of : Bool → List String
conflicts_of compatible = if compatible then [] else "entity_type" ∷ []

-- What is written before the candidate is decided on, given the two canonical rows.
abbrev pub link_pair : CrossWorld → Entity → Entity → Bool → ℕ → ℕ → MatchCandidate × CrossWorld
link_pair w bangumi vndb compatible observation key =
    let (c, candidates) =
      get_or_create key (lower bangumi.id vndb.id) (higher bangumi.id vndb.id)
        (conflicts_of compatible) w.catalogue.candidates in
    (
      c,
      record {
        catalogue = record w.catalogue { candidates = candidates };
        works = if compatible then set_galgame bangumi.id w.works else w.works;
        evidence = add_evidence c.id observation w.evidence;
      },
    )

-- `_bind_verified_pair` from the canonical rows on.
unfoldable pub settle_pair :
    CrossWorld → Entity → Entity → ℕ → String → ℕ → ℕ → Result Failure CrossWorld
unfolding compatible_galgame_entities
settle_pair w bangumi vndb observation vndb_id key event_id =
    let compatible = compatible_galgame_entities w.works bangumi vndb in
    let (c, linked) = link_pair w bangumi vndb compatible observation key in
    let settled = settle linked c (conflicts_of compatible) vndb_id event_id in
    if bangumi.id == vndb.id then ok w else settled

-- `_bind_verified_pair`; the keys of a new candidate and of a new event are arguments.
unfoldable pub bind_verified_pair :
    CrossWorld → ℕ → ℕ → ℕ → String → ℕ → ℕ → Result Failure CrossWorld
unfolding settle_pair
bind_verified_pair w bangumi_entity vndb_entity observation vndb_id key event_id = do
  bangumi ← resolve_entity w.catalogue bangumi_entity
  vndb ← resolve_entity w.catalogue vndb_entity
  settle_pair w bangumi vndb observation vndb_id key event_id
