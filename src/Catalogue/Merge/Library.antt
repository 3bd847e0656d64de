-- ===== src/Catalogue/Merge/Library.antt =====
-- The library entries of the users in a cluster, before and after a merge.
use noshiro_db_backend.Base.{
  ℕ, ◌≡◌, ◌⊎◌, refl, sym, ap, ◌∙◌, inl, inr, Bool, true, false, ◌==◌, ◌&&◌, List, [], ◌∷◌, Option,
  some, String, if◌then◌else◌, Bool-cases, All, All-map, All-pairs, All-of, All-flip, All-zip_pairs,
  exists_where, select_where, arith,
}
use mathlib.Core.Path.{subst}
use noshiro_db_backend.Base.Result.{ok, ok_injective}
use noshiro_db_backend.Catalogue.Model.{UserSubject, MergeEvent, Method, Snapshot, World}
use noshiro_db_backend.Catalogue.Redirects.{contains, resolve}
use noshiro_db_backend.Catalogue.Redirects.Resolve.{resolve-resolve, resolve-total}
use noshiro_db_backend.Catalogue.Redirects.Cluster.{cluster_ids-resolve}
use noshiro_db_backend.Catalogue.Merge.{entity_in, has_user, merge}
use noshiro_db_backend.Catalogue.Merge.Granted.{IsApart, IsMerged, merge-IsMerged}
use noshiro_db_backend.Catalogue.Merge.Forest.{IsForest, IsMerged-resolve}

-- Two entries of one user whose entities resolve to the same one are entries of the same entity.
abbrev pub IsCompatible : (ℕ → ℕ → Type 0) → UserSubject → UserSubject → Type 0
IsCompatible together x y =
    (x.user == y.user) ≡ true
    → (a b : ℕ) → x.entity ≡ some a
    → y.entity ≡ some b
    → together a b
    → a ≡ b

abbrev pub OnePerCluster : World → Type 0
OnePerCluster w =
    All (λ x. All (IsCompatible (λ a b. resolve w.redirects a ≡ resolve w.redirects b) x) w.library)
      w.library

exists-All :
    {A : Type 0} (p : A → Bool) (t : List A) → exists_where p t ≡ false → All (λ x. p x ≡ false) t
exists-All p [] h = tt
exists-All p (x ∷ t) h = (ground (arith, h), exists-All p t (ground (arith, h)))

select-All :
    {A : Type 0} (p q : A → Bool) (t : List A)
    → exists_where q (select_where p t) ≡ false
    → All (λ x. p x ≡ true → q x ≡ false) t
select-All p q [] h = tt
select-All p q (x ∷ t) h = elim (Bool-cases (p x)) [
  | inl e ↦ ((λ _. ground (arith, h, e)), select-All p q t (ground (arith, h, e)))
  | inr e ↦ ((λ e'. absurd (cc)), select-All p q t (ground (arith, h, e)))
]

-- The two clusters have no user in common.
abbrev IsDisjoint : List ℕ → List ℕ → UserSubject → UserSubject → Type 0
IsDisjoint source_ids target_ids y x =
    entity_in target_ids y ≡ true → entity_in source_ids x ≡ true → (x.user == y.user) ≡ false

IsApart-IsDisjoint :
    (w : World) (s t : ℕ) (apart : IsApart w s t)
    → All (λ y. All (IsDisjoint apart.source_ids apart.target_ids y) w.library) w.library
IsApart-IsDisjoint w s t apart =
    All-map
      (λ y.
        (entity_in apart.target_ids y
          && has_user (select_where (entity_in apart.source_ids) w.library) y)
        ≡ false)
      (λ y. All (IsDisjoint apart.source_ids apart.target_ids y) w.library) w.library
      (λ y h. disjoint y (entity_in apart.target_ids y) refl h) (exists-All _ w.library apart.apart)
  where
    disjoint :
        (y : UserSubject) (b : Bool)
        → entity_in apart.target_ids y ≡ b
        → (entity_in apart.target_ids y
            && has_user (select_where (entity_in apart.source_ids) w.library) y)
          ≡ false
        → All (IsDisjoint apart.source_ids apart.target_ids y) w.library
    disjoint y true e h =
        All-map (λ x. entity_in apart.source_ids x ≡ true → (x.user == y.user) ≡ false)
          (IsDisjoint apart.source_ids apart.target_ids y) w.library (λ x k _. k)
          (select-All (entity_in apart.source_ids) (λ x. x.user == y.user) w.library
            (ground (arith, e, h)))
    disjoint y false e h =
        All-of (IsDisjoint apart.source_ids apart.target_ids y) w.library (λ x target. absurd (cc))

diverted_together :
    (s t p q : ℕ)
    → (if s == p then t else p) ≡ (if s == q then t else q)
    → (p ≡ q) ⊎ (((p ≡ s) × (q ≡ t)) ⊎ ((q ≡ s) × (p ≡ t)))
diverted_together s t p q h = elim (Bool-cases (s == p)) [
  | inl a ↦ elim (Bool-cases (s == q)) [
    | inl b ↦ inl (ground (arith, a, b))
    | inr b ↦ inr (inl (ground (arith, a), ground (arith, a, b, h)))
  ]
  | inr a ↦ elim (Bool-cases (s == q)) [
    | inl b ↦ inr (inr (ground (arith, b), ground (arith, a, b, h)))
    | inr b ↦ inl (ground (arith, a, b, h))
  ]
]

module _ (w : World) (source target : ℕ) (event : MergeEvent) (w' : World)
    (f : IsForest w.redirects) (m : IsMerged w source target event w') where
  -- The canonical entity of before.
  old_root : (e : ℕ) → (r : ℕ) × (resolve w.redirects e ≡ ok r)
  old_root e = let (r, found, last) = resolve-total w.redirects f.within e in (r, found)

  -- Two entities that resolve together now did so before, or lay in the two merged clusters.
  abbrev Crosses : ℕ → ℕ → Type 0
  Crosses a b =
      (resolve w.redirects a ≡ ok m.source_root.id) × (resolve w.redirects b ≡ ok m.target_root.id)

  together_before :
      (a b : ℕ)
      → resolve w'.redirects a ≡ resolve w'.redirects b
      → (resolve w.redirects a ≡ resolve w.redirects b) ⊎ (Crosses a b ⊎ Crosses b a)
  together_before a b h =
      let (p, found) = old_root a in
      let (q, found') = old_root b in
      let now = IsMerged-resolve w source target event w' f m a p found in
      let now' = IsMerged-resolve w source target event w' f m b q found' in
      let split =
        diverted_together event.source_entity event.target_entity p q
          (ok_injective (sym now ∙ h ∙ now')) in
      elim split [
        | inl same ↦ inl (found ∙ ap ok same ∙ sym found')
        | inr (inl (at, at')) ↦
            inr (inl (found ∙ ap ok (at ∙ m.from_source), found' ∙ ap ok (at' ∙ m.into_target)))
        | inr (inr (at, at')) ↦
            inr (inr (found' ∙ ap ok (at ∙ m.from_source), found ∙ ap ok (at' ∙ m.into_target)))
      ]

  in_source :
      (a : ℕ)
      → resolve w.redirects a ≡ ok m.source_root.id
      → contains m.pair.checked.apart.source_ids a ≡ true
  in_source a h =
      (cluster_ids-resolve w.redirects f.unique m.source_root.id a m.pair.checked.apart.source_ids
          m.pair.checked.apart.source_found).1
        (h ∙ sym (resolve-resolve w.redirects a m.source_root.id h))

  in_target :
      (b : ℕ)
      → resolve w.redirects b ≡ ok m.target_root.id
      → contains m.pair.checked.apart.target_ids b ≡ true
  in_target b h =
      (cluster_ids-resolve w.redirects f.unique m.target_root.id b m.pair.checked.apart.target_ids
          m.pair.checked.apart.target_found).1
        (h ∙ sym (resolve-resolve w.redirects b m.target_root.id h))

  abbrev Together : UserSubject → UserSubject → Type 0
  Together = IsCompatible (λ a b. resolve w.redirects a ≡ resolve w.redirects b)

  abbrev Disjoint : UserSubject → UserSubject → Type 0
  Disjoint = IsDisjoint m.pair.checked.apart.source_ids m.pair.checked.apart.target_ids

  IsCompatible-after :
      (x y : UserSubject)
      → Together x y × (Disjoint x y × Disjoint y x)
      → IsCompatible (λ a b. resolve w'.redirects a ≡ resolve w'.redirects b) x y
  IsCompatible-after x y (old, (dis, dis')) user a b ea eb h = elim (together_before a b h) [
    | inl before ↦ old user a b ea eb before
    | inr (inl (from, into)) ↦
        absurd (ground (arith, ea, eb, user, dis', in_source a from, in_target b into))
    | inr (inr (from, into)) ↦
        absurd (ground (arith, ea, eb, user, dis, in_source b from, in_target a into))
  ]

  pub IsMerged-OnePerCluster : OnePerCluster w → OnePerCluster w'
  IsMerged-OnePerCluster one =
      let apart = IsApart-IsDisjoint w m.source_root.id m.target_root.id m.pair.checked.apart in
      let both =
        All-zip_pairs Disjoint (λ x y. Disjoint y x) w.library w.library apart
          (All-flip Disjoint w.library w.library apart) in
      let all =
        All-zip_pairs Together (λ x y. Disjoint x y × Disjoint y x) w.library w.library one both in
      subst
        (λ l.
          All (λ x. All (IsCompatible (λ a b. resolve w'.redirects a ≡ resolve w'.redirects b) x) l)
            l)
        (sym (ap World.library m.tables))
        (All-pairs (λ x y. Together x y × (Disjoint x y × Disjoint y x))
          (IsCompatible (λ a b. resolve w'.redirects a ≡ resolve w'.redirects b)) w.library
          w.library IsCompatible-after all)

-- Merging keeps it so that a user has at most one entry in a cluster.
merge-OnePerCluster :
    (w : World) (source target : ℕ) (method : Method) (reason : String) (given : Option Snapshot)
    (new_id : ℕ) (res : MergeEvent × World)
    → IsForest w.redirects
    → OnePerCluster w
    → merge w source target method reason given new_id ≡ ok res
    → OnePerCluster res.1
merge-OnePerCluster w source target method reason given new_id res f one h =
    IsMerged-OnePerCluster w source target res.0 res.1 f
      (merge-IsMerged w source target method reason given new_id res h) one
