-- ===== src/Catalogue/Merge.antt =====
-- `merge`, `split` and what they call in src/apps/index/services/resolution.py. A raised exception
-- rolls the transaction back, so that only a value carries new tables.
pub mod Granted
pub mod Forest
pub mod Safety
pub mod Links
pub mod Library
pub mod Split
pub mod Back
use noshiro_db_backend.Base.{
  ℕ, Bool, true, false, ◌==◌, ◌&&◌, ◌||◌, not, ltb, List, [], ◌∷◌, ◌++◌, Option, none, some, String,
  if◌then◌else◌, is_some, exists_where, select_where, update_where, first_where, get, order_by,
}
use noshiro_db_backend.Base.Result.{Result, ok, err, ◌>>=◌, ◌>>◌, raise_if, get_or_raise}
use noshiro_db_backend.Catalogue.Model.{
  Kind, Lifecycle, Visibility, Audience, Entity, EntityRedirect, Method, UserSubject, Snapshot,
  MergeEvent, SplitEvent, World, Failure,
}
use noshiro_db_backend.Catalogue.Redirects.{contains, resolve, cluster_ids}

abbrev kind_number : Kind → ℕ
kind_number Kind.work = 0
kind_number Kind.release = 1
kind_number Kind.episode = 2
kind_number Kind.contributor = 3
kind_number Kind.character = 4
kind_number Kind.unclassified = 5

-- `a.kind == b.kind`
abbrev pub kind_eq : Kind → Kind → Bool
kind_eq a b = kind_number a == kind_number b

abbrev visibility_rank : Visibility → ℕ
visibility_rank Visibility.public_to_all = 0
visibility_rank Visibility.authenticated = 1
visibility_rank Visibility.restricted = 2

-- `audience == ADULT`, as the number that Python compares.
abbrev adult_rank : Audience → ℕ
adult_rank Audience.unknown = 0
adult_rank Audience.general = 0
adult_rank Audience.adult = 1

abbrev pub SafetyRank : Type 0
SafetyRank = ℕ × ℕ × ℕ

abbrev pub safety_rank : Entity → SafetyRank
safety_rank e = (visibility_rank e.visibility, adult_rank e.audience, e.spoiler_level)

-- `a > b` of tuples.
abbrev pub rank_gt : SafetyRank → SafetyRank → Bool
rank_gt (a, b, c) (x, y, z) = ltb x a || a == x && (ltb y b || b == y && ltb z c)

-- `Entity.objects.get(pk=e)`
unfoldable pub find_entity : World → ℕ → Result Failure Entity
find_entity w e = get_or_raise Failure.does_not_exist (get Entity.id e w.entities)

-- `resolve`, as the row that it returns.
unfoldable pub resolve_entity : World → ℕ → Result Failure Entity
resolve_entity w e = do root ← resolve w.redirects e; find_entity w root

abbrev pub is_public_row : Entity → Bool
is_public_row e = visibility_rank e.visibility == 0

-- `is_public`: no row of the cluster is anything but public.
unfoldable pub is_public : World → ℕ → Result Failure Bool
is_public w e = do
  ids ← cluster_ids w.redirects e
  ok (not (exists_where (λ row. contains ids row.id && not (is_public_row row)) w.entities))

-- `entity_id__in=ids`; a null is in no list.
abbrev pub entity_in : List ℕ → UserSubject → Bool
entity_in ids entry = elim entry.entity [ none ↦ false | some e ↦ contains ids e ]

-- `user_id__in=` the users of the entries.
abbrev pub has_user : List UserSubject → UserSubject → Bool
has_user entries entry = exists_where (λ other. other.user == entry.user) entries

unfoldable pub ensure_no_user_library_conflict : World → Entity → Entity → Result Failure (Unit {0})
ensure_no_user_library_conflict w source target = do
  source_ids ← cluster_ids w.redirects source.id
  let source_users = select_where (entity_in source_ids) w.library
  target_ids ← cluster_ids w.redirects target.id
  raise_if
      (exists_where (λ entry. entity_in target_ids entry && has_user source_users entry) w.library)
      Failure.library_conflict

unfoldable pub merge_snapshot : World → Entity → Entity → Result Failure Snapshot
merge_snapshot w source target = do
  source_ids ← cluster_ids w.redirects source.id
  target_ids ← cluster_ids w.redirects target.id
  ok (record {
    version = 1;
    source_cluster_ids = order_by (λ x. x) source_ids;
    target_cluster_ids = order_by (λ x. x) target_ids;
    user_library_entries = order_by UserSubject.id (
        select_where (λ entry. entity_in source_ids entry || entity_in target_ids entry) w.library);
  })

-- `snapshot or self._merge_snapshot(…)`; `none` is a snapshot that is not given or empty.
abbrev pub snapshot_or : World → Entity → Entity → Option Snapshot → Result Failure Snapshot
snapshot_or w source target none = merge_snapshot w source target
snapshot_or w source target (some given) = ok given

-- The reads of `FactResolutionService.rebuild_entity`, which raise if the cluster is too deep. The
-- facts are in tables of their own.
unfoldable pub rebuild_entity : World → ℕ → Result Failure (List ℕ)
rebuild_entity w e = do root ← resolve w.redirects e; cluster_ids w.redirects root

-- `save(update_fields=["lifecycle", …])`
abbrev pub set_lifecycle : Lifecycle → ℕ → List Entity → List Entity
set_lifecycle state e = update_where (λ row. row.id == e) (λ row. record row { lifecycle = state })

abbrev pub redirect_row : ℕ → ℕ → ℕ → EntityRedirect
redirect_row source target event = record {
  source_entity = source;
  target_entity = target;
  merge_event = event;
  is_active = true;
}

abbrev pub merged_world : World → MergeEvent → World
merged_world w event = record w {
  entities = set_lifecycle Lifecycle.merged event.source_entity w.entities;
  redirects = w.redirects ++ redirect_row event.source_entity event.target_entity event.id ∷ [];
  merges = w.merges ++ event ∷ [];
}

-- `MergeEvent.objects.create(…)`
abbrev pub new_event : ℕ → Entity → Entity → Method → String → Snapshot → MergeEvent
new_event new_id source target method reason snapshot = record {
  id = new_id;
  source_entity = source.id;
  target_entity = target.id;
  method = method;
  reason = reason;
  snapshot = snapshot;
  reversed_at = none;
}

-- The guards of `merge` on the two canonical rows.
unfoldable pub check_pair : World → Entity → Entity → Result Failure (Unit {0})
unfolding ensure_no_user_library_conflict
check_pair w source target = do
  raise_if (source.id == target.id) Failure.same_entity
  raise_if (not (kind_eq source.kind target.kind)) Failure.different_kinds
  raise_if (rank_gt (safety_rank source) (safety_rank target)) Failure.unsafe_canonical
  ensure_no_user_library_conflict w source target

-- The canonical rows of the two locked ones, where `merge` lets them through.
unfoldable pub merge_pair : World → ℕ → ℕ → Result Failure (Entity × Entity)
unfolding find_entity resolve_entity check_pair
merge_pair w source target = do
  locked_source ← find_entity w source
  source_root ← resolve_entity w locked_source.id
  locked_target ← find_entity w target
  target_root ← resolve_entity w locked_target.id
  check_pair w source_root target_root
  ok (source_root, target_root)

-- The key of the new event is an argument.
unfoldable pub merge :
    World → ℕ → ℕ → Method → String → Option Snapshot → ℕ → Result Failure (MergeEvent × World)
unfolding merge_pair merge_snapshot rebuild_entity
merge w source target method reason given new_id = do
  (source_root, target_root) ← merge_pair w source target
  kept ← snapshot_or w source_root target_root given
  let event = new_event new_id source_root target_root method reason kept
  let after = merged_world w event
  rebuilt ← rebuild_entity after target_root.id
  ok (event, after)

abbrev pub split_world : World → ℕ → MergeEvent → World
split_world w now event = record w {
  entities = set_lifecycle Lifecycle.active event.source_entity w.entities;
  redirects =
      update_where (λ r. r.merge_event == event.id) (λ r. record r { is_active = false })
        w.redirects;
  merges = update_where (λ m. m.id == event.id) (λ m. record m { reversed_at = some now }) w.merges;
}

-- `SplitEvent.objects.create(…)`, and the tables after it.
abbrev pub split_result : World → ℕ → MergeEvent → String → SplitEvent × World
split_result w now event reason =
    let row : SplitEvent = record {
      merge_event = event.id;
      reason = reason;
      restored_snapshot = event.snapshot;
    } in
    (row, record (split_world w now event) { splits = w.splits ++ row ∷ [] })

unfoldable pub split : World → ℕ → ℕ → String → Result Failure (SplitEvent × World)
unfolding rebuild_entity
split w now merge_event reason = do
  event ← get_or_raise Failure.does_not_exist (get MergeEvent.id merge_event w.merges)
  raise_if (is_some event.reversed_at) Failure.already_reversed
  redirect ←
      get_or_raise Failure.does_not_exist (get EntityRedirect.merge_event event.id w.redirects)
  let after = split_world w now event
  rebuilt_target ← rebuild_entity after event.target_entity
  rebuilt_source ← rebuild_entity after event.source_entity
  ok (split_result w now event reason)
