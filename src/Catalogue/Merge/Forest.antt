-- ===== src/Catalogue/Merge/Forest.antt =====
-- The graph of redirects before and after a merge: its chains, and the constraint on active redirects.
use noshiro_db_backend.Base.{
  ℕ, zero, suc, ◌<◌, ◌≡◌, refl, sym, ap, ◌∙◌, inl, inr, false, ◌==◌, List, [], ◌∷◌, ◌++◌, Option,
  none, some, if◌then◌else◌, Bool-cases, ==_iff, ==_refl, arith, String,
}
use mathlib.Core.Path.{subst}
use noshiro_db_backend.Base.Result.{ok, >>=-eq-ok, ok_injective}
use noshiro_db_backend.Catalogue.Model.{EntityRedirect, MergeEvent, Method, Snapshot, World}
use noshiro_db_backend.Catalogue.Redirects.{redirect_of, resolve, cluster_ids, max_redirect_depth}
use noshiro_db_backend.Catalogue.Redirects.Reaches.{Reaches, Reaches-canonical, EndsWithin}
use noshiro_db_backend.Catalogue.Redirects.Resolve.{
  IsUnique, resolve-Reaches, Reaches-resolve, resolve-end,
}
use noshiro_db_backend.Catalogue.Redirects.Cluster.{cluster_ids-IsCluster}
use noshiro_db_backend.Catalogue.Merge.{redirect_row, merge, rebuild_entity}
use noshiro_db_backend.Catalogue.Merge.Granted.{IsMerged, merge-IsMerged}

-- The redirects of a catalogue in which every entity resolves.
pub record IsForest (rs : List EntityRedirect) : Type 0 where
  pub unique : IsUnique rs
  pub within : EndsWithin (redirect_of rs) max_redirect_depth

-- The redirect that a merge adds, seen by its source and by the others.
pub redirect_of-added :
    (rs : List EntityRedirect) (s t event k : ℕ)
    → redirect_of (rs ++ redirect_row s t event ∷ []) k
      ≡ (elim (redirect_of rs k) [ some x ↦ some x | none ↦ if s == k then some t else none ])
redirect_of-added [] s t event k = ground arith
redirect_of-added (r ∷ rs) s t event k = ground (arith, redirect_of-added rs s t event k)

module _ (rs : List EntityRedirect) (s t event : ℕ) (free : redirect_of rs s ≡ none) where
  abbrev added : List EntityRedirect
  added = rs ++ redirect_row s t event ∷ []

  added_source : redirect_of added s ≡ some t
  added_source = ground (arith, redirect_of-added rs s t event s, free, ==_refl s)

  added_other : (k : ℕ) → (s == k) ≡ false → redirect_of added k ≡ redirect_of rs k
  added_other k e = ground (arith, redirect_of-added rs s t event k)

  other_than_source : (e x : ℕ) → redirect_of rs e ≡ some x → (s == e) ≡ false
  other_than_source e x step = elim (Bool-cases (s == e)) [
    | inl same ↦
        let at : s ≡ e = (==_iff s e).0 same in
        let end : redirect_of rs e ≡ none = subst (λ (k : ℕ). redirect_of rs k ≡ none) at free in
        absurd (cc)
    | inr other ↦ other
  ]

  -- Chains before and after.
  module _ (differ : (s == t) ≡ false) (last : redirect_of rs t ≡ none) where
    added_target : redirect_of added t ≡ none
    added_target = added_other t differ ∙ last

    Reaches-diverted :
        (d e : ℕ) → Reaches (redirect_of rs) d e s → Reaches (redirect_of added) (suc d) e t
    Reaches-diverted zero e (at, end) = (t, rw at added_source, (refl, added_target))
    Reaches-diverted (suc d) e (x, step, h) =
        let kept = other_than_source e x step in
        (x, added_other e kept ∙ step, Reaches-diverted d x h)

    Reaches-kept :
        (d e r : ℕ)
        → (s == r) ≡ false
        → Reaches (redirect_of rs) d e r
        → Reaches (redirect_of added) d e r
    Reaches-kept zero e r other (at, end) = (at, added_other e (rw at other) ∙ end)
    Reaches-kept (suc d) e r other (x, step, h) =
        let kept = other_than_source e x step in
        (x, added_other e kept ∙ step, Reaches-kept d x r other h)

    -- Where an entity that resolved to `r` resolves now.
    abbrev destination : ℕ → ℕ
    destination r = if s == r then t else r

    Reaches-added :
        (d e r : ℕ)
        → Reaches (redirect_of rs) d e r
        → (d' : ℕ) × Reaches (redirect_of added) d' e (destination r)
    Reaches-added d e r h = elim (Bool-cases (s == r)) [
      | inl same ↦
          let at : r ≡ s = sym ((==_iff s r).0 same) in
          (
            suc d,
            rw same (Reaches-diverted d e (subst (λ (k : ℕ). Reaches (redirect_of rs) d e k) at h)),
          )
      | inr other ↦ (d, rw other (Reaches-kept d e r other h))
    ]

    -- Every chain still ends in time, if those into the target do.
    within-added :
        EndsWithin (redirect_of rs) max_redirect_depth
        → ((x d : ℕ) → Reaches (redirect_of added) d x t → d < max_redirect_depth)
        → EndsWithin (redirect_of added) max_redirect_depth
    within-added ends near e =
        let (d, r, lt, h) = ends e in
        elim (Bool-cases (s == r)) [
          | inl same ↦
              let at : r ≡ s = sym ((==_iff s r).0 same) in
              let moved : Reaches (redirect_of added) (suc d) e t =
                Reaches-diverted d e (subst (λ (k : ℕ). Reaches (redirect_of rs) d e k) at h) in
              (suc d, t, near e (suc d) moved, moved)
          | inr other ↦ (d, r, lt, Reaches-kept d e r other h)
        ]

  IsUnique-added : IsUnique rs → IsUnique added
  IsUnique-added u = go rs free u
    where
      go :
          (l : List EntityRedirect)
          → redirect_of l s ≡ none
          → IsUnique l
          → IsUnique (l ++ redirect_row s t event ∷ [])
      go [] f v = ((λ on. refl), tt)
      go (r ∷ l) f v = (
        (λ on. ground (arith, redirect_of-added l s t event r.source_entity, v.0 on, on, f)),
        go l (ground (arith, f)) v.1,
      )

-- What rebuilding an entity has read: that none is too far from its canonical entity.
rebuild_entity-near :
    (w : World) (t : ℕ) (ids : List ℕ)
    → IsUnique w.redirects
    → redirect_of w.redirects t ≡ none
    → rebuild_entity w t ≡ ok ids
    → (x d : ℕ) → Reaches (redirect_of w.redirects) d x t
    → d < max_redirect_depth
unfolding rebuild_entity
rebuild_entity-near w t ids u last h =
    let (root, r, found) = >>=-eq-ok (resolve w.redirects t) (cluster_ids w.redirects) h in
    let at : root ≡ t =
      ok_injective (sym r ∙ resolve-Reaches w.redirects 0 t t (omega arith) (refl, last)) in
    let (root', r', members) = cluster_ids-IsCluster w.redirects u root ids found in
    let at' : root' ≡ t =
      ok_injective
        (sym r' ∙ rw at (resolve-Reaches w.redirects 0 t t (omega arith) (refl, last))) in
    λ x d m. members.1 x d (subst (λ (k : ℕ). Reaches (redirect_of w.redirects) d x k) (sym at') m)

module _ (w : World) (source target : ℕ) (event : MergeEvent) (w' : World)
    (f : IsForest w.redirects) (m : IsMerged w source target event w') where
  source_canonical : redirect_of w.redirects event.source_entity ≡ none
  source_canonical =
      let (d, lt, h) = Reaches-resolve w.redirects source m.source_root.id m.pair.source_root in
      subst (λ (k : ℕ). redirect_of w.redirects k ≡ none) (sym m.from_source)
        (Reaches-canonical (redirect_of w.redirects) d source m.source_root.id h)

  target_canonical : redirect_of w.redirects event.target_entity ≡ none
  target_canonical =
      let (d, lt, h) = Reaches-resolve w.redirects target m.target_root.id m.pair.target_root in
      subst (λ (k : ℕ). redirect_of w.redirects k ≡ none) (sym m.into_target)
        (Reaches-canonical (redirect_of w.redirects) d target m.target_root.id h)

  roots_differ : (event.source_entity == event.target_entity) ≡ false
  roots_differ = rw (m.from_source, m.into_target) m.pair.checked.differ

  redirects_added :
      w'.redirects
      ≡ w.redirects ++ redirect_row event.source_entity event.target_entity event.id ∷ []
  redirects_added = ap World.redirects m.tables

  IsUnique-after : IsUnique w'.redirects
  IsUnique-after = subst IsUnique (sym redirects_added) (
      IsUnique-added w.redirects event.source_entity event.target_entity event.id source_canonical
        f.unique)

  target_canonical_after : redirect_of w'.redirects event.target_entity ≡ none
  target_canonical_after =
      subst (λ rs. redirect_of rs event.target_entity ≡ none) (sym redirects_added)
        (added_target w.redirects event.source_entity event.target_entity event.id source_canonical
          roots_differ target_canonical)

  near_after :
      (x d : ℕ)
      → Reaches (redirect_of w'.redirects) d x event.target_entity
      → d < max_redirect_depth
  near_after =
      rebuild_entity-near w' event.target_entity m.members IsUnique-after target_canonical_after
        (subst (λ (k : ℕ). rebuild_entity w' k ≡ ok m.members) (sym m.into_target) m.rebuilt)

  -- The merge leaves a catalogue in which every entity resolves.
  pub IsMerged-IsForest : IsForest w'.redirects
  IsMerged-IsForest = record {
    unique = IsUnique-after;
    within =
        subst (λ rs. EndsWithin (redirect_of rs) max_redirect_depth) (sym redirects_added)
          (within-added w.redirects event.source_entity event.target_entity event.id
            source_canonical roots_differ target_canonical f.within
            (subst
              (λ rs.
                (x d : ℕ)
                → Reaches (redirect_of rs) d x event.target_entity
                → d < max_redirect_depth)
              redirects_added near_after));
  }

  pub IsMerged-resolve :
      (e r : ℕ)
      → resolve w.redirects e ≡ ok r
      → resolve w'.redirects e ≡ ok (if event.source_entity == r then event.target_entity else r)
  IsMerged-resolve e r h =
      let goal : ℕ =
        destination w.redirects event.source_entity event.target_entity event.id source_canonical
          roots_differ target_canonical r in
      let (d, lt, c) = Reaches-resolve w.redirects e r h in
      let (d', c') =
        Reaches-added w.redirects event.source_entity event.target_entity event.id source_canonical
          roots_differ target_canonical d e r c in
      let there : Reaches (redirect_of w'.redirects) d' e goal =
        subst (λ rs. Reaches (redirect_of rs) d' e goal) (sym redirects_added) c' in
      resolve-end w'.redirects d' e goal IsMerged-IsForest.within there

-- Where the redirects are a forest that is resolved within the depth limit, a merge that returns keeps
-- them one. Its event holds what the two entities resolved to. An entity that resolved to the event's
-- source resolves to its target, all others as before.
pub merge-resolve :
    (w : World) (source target : ℕ) (method : Method) (reason : String) (given : Option Snapshot)
    (new_id : ℕ) (res : MergeEvent × World)
    → IsForest w.redirects
    → merge w source target method reason given new_id ≡ ok res
    → IsForest res.1.redirects
      × (resolve w.redirects source ≡ ok res.0.source_entity)
      × (resolve w.redirects target ≡ ok res.0.target_entity)
      × ((e r : ℕ)
          → resolve w.redirects e ≡ ok r
          → resolve res.1.redirects e
            ≡ ok (if res.0.source_entity == r then res.0.target_entity else r))
merge-resolve w source target method reason given new_id res f h =
    let m = merge-IsMerged w source target method reason given new_id res h in
    (
      IsMerged-IsForest w source target res.0 res.1 f m,
      m.pair.source_root ∙ ap ok (sym m.from_source),
      m.pair.target_root ∙ ap ok (sym m.into_target),
      IsMerged-resolve w source target res.0 res.1 f m,
    )
