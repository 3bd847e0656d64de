-- ===== src/Catalogue/Merge/Granted.antt =====
-- What a merge that returned has checked, and the tables that it leaves.
use noshiro_db_backend.Base.{
  ℕ, ◌≡◌, refl, sym, ap, ◌∙◌, true, false, ◌==◌, ◌&&◌, not, List, Option, none, String, get,
  key-get, exists_where, select_where, arith,
}
use mathlib.Core.Path.{subst}
use noshiro_db_backend.Base.Result.{
  ok, >>=-eq-ok, raise_if-eq-ok, raise_if-passes, ok_injective, get_or_raise-eq-ok,
}
use noshiro_db_backend.Catalogue.Model.{Entity, Method, Snapshot, MergeEvent, World, Failure}
use noshiro_db_backend.Catalogue.Redirects.{resolve, cluster_ids}
use noshiro_db_backend.Catalogue.Merge.{
  kind_eq, safety_rank, rank_gt, find_entity, resolve_entity, entity_in, has_user,
  ensure_no_user_library_conflict, snapshot_or, rebuild_entity, merged_world, new_event, check_pair,
  merge_pair, merge,
}

find_entity-id : (w : World) (e : ℕ) (row : Entity) → find_entity w e ≡ ok row → row.id ≡ e
unfolding find_entity
find_entity-id w e row h =
    key-get Entity.id e w.entities row
      (get_or_raise-eq-ok Failure.does_not_exist (get Entity.id e w.entities) h)

pub resolve_entity-eq-ok :
    (w : World) (e : ℕ) (row : Entity)
    → resolve_entity w e ≡ ok row
    → (resolve w.redirects e ≡ ok row.id) × (find_entity w row.id ≡ ok row)
unfolding resolve_entity
resolve_entity-eq-ok w e row h =
    let (root, r, f) = >>=-eq-ok (resolve w.redirects e) (λ root. find_entity w root) h in
    let same : row.id ≡ root = find_entity-id w root row f in
    (r ∙ ap ok (sym same), ap (find_entity w) same ∙ f)

-- The clusters that the check of the library has read, and what it found.
pub record IsApart (w : World) (source target : ℕ) : Type 0 where
  pub source_ids : List ℕ
  pub target_ids : List ℕ
  pub source_found : cluster_ids w.redirects source ≡ ok source_ids
  pub target_found : cluster_ids w.redirects target ≡ ok target_ids
  pub apart :
      exists_where
        (λ entry.
          entity_in target_ids entry
          && has_user (select_where (entity_in source_ids) w.library) entry)
        w.library
      ≡ false

ensure-IsApart :
    (w : World) (source target : Entity)
    → ensure_no_user_library_conflict w source target ≡ ok tt
    → IsApart w source.id target.id
unfolding ensure_no_user_library_conflict
ensure-IsApart w source target h =
    let (source_ids, found, h1) = >>=-eq-ok (cluster_ids w.redirects source.id) _ h in
    let (target_ids, found', h2) = >>=-eq-ok (cluster_ids w.redirects target.id) _ h1 in
    let apart = raise_if-passes _ Failure.library_conflict h2 in
    record {
      source_ids = source_ids;
      target_ids = target_ids;
      source_found = found;
      target_found = found';
      apart = apart;
    }

-- What the guards of `merge` have found.
pub record IsChecked (w : World) (s t : Entity) : Type 0 where
  pub differ : (s.id == t.id) ≡ false
  pub same_kind : kind_eq s.kind t.kind ≡ true
  pub no_less_safe : rank_gt (safety_rank s) (safety_rank t) ≡ false
  pub apart : IsApart w s.id t.id

check_pair-IsChecked : (w : World) (s t : Entity) → check_pair w s t ≡ ok tt → IsChecked w s t
unfolding check_pair
check_pair-IsChecked w s t h =
    let (differ, h1) = raise_if-eq-ok _ Failure.same_entity _ h in
    let (kinds, h2) = raise_if-eq-ok (not (kind_eq s.kind t.kind)) Failure.different_kinds _ h1 in
    let (ranks, h3) = raise_if-eq-ok _ Failure.unsafe_canonical _ h2 in
    record {
      differ = differ;
      same_kind = ground (arith, kinds);
      no_less_safe = ranks;
      apart = ensure-IsApart w s t h3;
    }

-- The canonical rows of a pair, and that the guards have passed.
pub record IsPair (w : World) (source target : ℕ) (s t : Entity) : Type 0 where
  pub source_root : resolve w.redirects source ≡ ok s.id
  pub target_root : resolve w.redirects target ≡ ok t.id
  pub source_row : find_entity w s.id ≡ ok s
  pub target_row : find_entity w t.id ≡ ok t
  pub checked : IsChecked w s t

merge_pair-IsPair :
    (w : World) (source target : ℕ) (p : Entity × Entity)
    → merge_pair w source target ≡ ok p
    → IsPair w source target p.0 p.1
unfolding merge_pair
merge_pair-IsPair w source target p h =
    let (a, locked_source, h1) = >>=-eq-ok (find_entity w source) _ h in
    let (s, source_found, h2) = >>=-eq-ok (resolve_entity w a.id) _ h1 in
    let (b, locked_target, h3) = >>=-eq-ok (find_entity w target) _ h2 in
    let (t, target_found, h4) = >>=-eq-ok (resolve_entity w b.id) _ h3 in
    let (u, checked, h5) = >>=-eq-ok (check_pair w s t) _ h4 in
    subst (λ q. IsPair w source target q.0 q.1) (ok_injective h5)
      (record {
        source_root =
            subst (λ x. resolve w.redirects x ≡ ok s.id) (find_entity-id w source a locked_source)
              (resolve_entity-eq-ok w a.id s source_found).0;
        target_root =
            subst (λ x. resolve w.redirects x ≡ ok t.id) (find_entity-id w target b locked_target)
              (resolve_entity-eq-ok w b.id t target_found).0;
        source_row = (resolve_entity-eq-ok w a.id s source_found).1;
        target_row = (resolve_entity-eq-ok w b.id t target_found).1;
        checked = check_pair-IsChecked w s t checked;
      })

-- A merge that returned: the canonical rows, the event, and the tables.
pub record IsMerged (w : World) (source target : ℕ) (event : MergeEvent) (w' : World) : Type 0 where
  pub source_root : Entity
  pub target_root : Entity
  pub pair : IsPair w source target source_root target_root
  pub from_source : event.source_entity ≡ source_root.id
  pub into_target : event.target_entity ≡ target_root.id
  pub open_event : event.reversed_at ≡ none
  pub tables : w' ≡ merged_world w event
  pub members : List ℕ
  pub rebuilt : rebuild_entity w' target_root.id ≡ ok members

pub merge-IsMerged :
    (w : World) (source target : ℕ) (method : Method) (reason : String) (given : Option Snapshot)
    (new_id : ℕ) (res : MergeEvent × World)
    → merge w source target method reason given new_id ≡ ok res
    → IsMerged w source target res.0 res.1
unfolding merge
merge-IsMerged w source target method reason given new_id res h =
    let (p, granted, h1) = >>=-eq-ok (merge_pair w source target) _ h in
    let (kept, snapped, h2) = >>=-eq-ok (snapshot_or w p.0 p.1 given) _ h1 in
    let (ids, rebuilt, h3) =
      >>=-eq-ok
        (rebuild_entity (merged_world w (new_event new_id p.0 p.1 method reason kept)) p.1.id) _
        h2 in
    subst (λ (q : MergeEvent × World). IsMerged w source target q.0 q.1) (ok_injective h3)
      (record {
        source_root = p.0;
        target_root = p.1;
        pair = merge_pair-IsPair w source target p granted;
        from_source = refl;
        into_target = refl;
        open_event = refl;
        tables = refl;
        members = ids;
        rebuilt = rebuilt;
      })
