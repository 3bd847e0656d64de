-- ===== src/Catalogue/Merge/Back.antt =====
-- `split` of the event that `merge` has just made.
use noshiro_db_backend.Base.{
  ℕ, ◌≡◌, refl, sym, ap, List, [], ◌∷◌, ◌++◌, Option, none, some, String, ==_refl, get, get-last,
  arith,
}
use mathlib.Core.Path.{subst, fun_ext}
use noshiro_db_backend.Base.Result.{ok}
use noshiro_db_backend.Catalogue.Model.{
  EntityRedirect, MergeEvent, Method, Snapshot, SplitEvent, World,
}
use noshiro_db_backend.Catalogue.Redirects.{redirect_of, resolve, follow, max_redirect_depth}
use noshiro_db_backend.Catalogue.Redirects.Resolve.{resolve-total}
use noshiro_db_backend.Catalogue.Redirects.Cluster.{cluster_ids-total}
use noshiro_db_backend.Catalogue.Merge.{
  merge, split, split_world, split_result, merged_world, redirect_row, rebuild_entity,
}
use noshiro_db_backend.Catalogue.Merge.Granted.{merge-IsMerged}
use noshiro_db_backend.Catalogue.Merge.Forest.{IsForest, IsMerged-IsForest}
use noshiro_db_backend.Catalogue.Merge.Split.{without, without-IsForest}

rebuild_entity-total :
    (w : World) (e : ℕ) → IsForest w.redirects → (ids : List ℕ) × (rebuild_entity w e ≡ ok ids)
unfolding rebuild_entity
rebuild_entity-total w e f =
    let (root, found, last) = resolve-total w.redirects f.within e in
    let (ids, found') = cluster_ids-total w.redirects f.unique f.within root in
    (ids, rw found found')

-- An open event whose redirect is there can be taken back.
split-total :
    (w : World) (now event : ℕ) (reason : String) (row : MergeEvent) (r : EntityRedirect)
    → IsForest w.redirects
    → get MergeEvent.id event w.merges ≡ some row
    → row.reversed_at ≡ none
    → get EntityRedirect.merge_event row.id w.redirects ≡ some r
    → split w now event reason ≡ ok (split_result w now row reason)
unfolding split
split-total w now event reason row r f found was_open there =
    let after = without-IsForest w.redirects row.id f in
    let (ids, a) = rebuild_entity-total (split_world w now row) row.target_entity after in
    let (ids', b) = rebuild_entity-total (split_world w now row) row.source_entity after in
    rw (found, was_open, there, a, b) refl

-- Switching off the redirect that a merge has added leaves the redirects of before.
redirect_of-undone :
    (rs : List EntityRedirect) (s t event k : ℕ)
    → get EntityRedirect.merge_event event rs ≡ none
    → redirect_of (without event (rs ++ redirect_row s t event ∷ [])) k ≡ redirect_of rs k
redirect_of-undone [] s t event k h = ground (arith, ==_refl event)
redirect_of-undone (r ∷ rs) s t event k h = ground (arith, h, redirect_of-undone rs s t event k)

split-merged_world :
    (w : World) (event : MergeEvent) (now : ℕ) (why : String)
    → IsForest (merged_world w event).redirects
    → event.reversed_at ≡ none
    → get EntityRedirect.merge_event event.id w.redirects ≡ none
    → get MergeEvent.id event.id w.merges ≡ none
    → (back : SplitEvent × World) × (split (merged_world w event) now event.id why ≡ ok back)
      × ((e : ℕ) → resolve back.1.redirects e ≡ resolve w.redirects e)
      × (back.0.restored_snapshot ≡ event.snapshot)
unfolding resolve
split-merged_world w event now why f was_open fresh new =
    let row = redirect_row event.source_entity event.target_entity event.id in
    let same : redirect_of (without event.id (w.redirects ++ row ∷ [])) ≡ redirect_of w.redirects =
      fun_ext (λ k.
        redirect_of-undone w.redirects event.source_entity event.target_entity event.id k fresh) in
    (
      split_result (merged_world w event) now event why,
      split-total (merged_world w event) now event.id why event row f
          (get-last MergeEvent.id event.id w.merges event new refl) was_open
          (get-last EntityRedirect.merge_event event.id w.redirects row fresh refl),
      (λ e. ap (λ next. follow next max_redirect_depth [] e) same),
      refl,
    )

-- A merge that returns can be taken back: where no redirect and no merge had its key before, the split
-- of it returns, every entity resolves to what it resolved to before the merge, and the split event
-- has the snapshot of the merge.
pub split-merge :
    (w : World) (source target : ℕ) (method : Method) (reason : String) (given : Option Snapshot)
    (new_id : ℕ) (res : MergeEvent × World) (now : ℕ) (why : String)
    → IsForest w.redirects
    → get EntityRedirect.merge_event res.0.id w.redirects ≡ none
    → get MergeEvent.id res.0.id w.merges ≡ none
    → merge w source target method reason given new_id ≡ ok res
    → (back : SplitEvent × World) × (split res.1 now res.0.id why ≡ ok back)
      × ((e : ℕ) → resolve back.1.redirects e ≡ resolve w.redirects e)
      × (back.0.restored_snapshot ≡ res.0.snapshot)
split-merge w source target method reason given new_id res now why f fresh new h =
    let m = merge-IsMerged w source target method reason given new_id res h in
    subst
      (λ w'.
        (back : SplitEvent × World) × (split w' now res.0.id why ≡ ok back)
        × ((e : ℕ) → resolve back.1.redirects e ≡ resolve w.redirects e)
        × (back.0.restored_snapshot ≡ res.0.snapshot))
      (sym m.tables)
      (split-merged_world w res.0 now why
        (subst (λ w'. IsForest (World.redirects w')) m.tables
          (IsMerged-IsForest w source target res.0 res.1 f m))
        m.open_event fresh new)
