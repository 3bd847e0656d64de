-- ===== src/Catalogue/Merge/Split.antt =====
-- What `split` does to the redirects and to the other tables.
use noshiro_db_backend.Base.{
  ℕ, zero, suc, ◌≤◌, ◌≡◌, ◌⊎◌, refl, sym, ◌∙◌, inl, inr, false, ◌==◌, ◌&&◌, List, [], ◌∷◌, none,
  some, String, Bool-cases, ==_iff, get, update_where, is_some, All, All-pairs, arith,
}
use mathlib.Core.Path.{subst}
use noshiro_db_backend.Base.Result.{
  ok, get_or_raise, >>=-eq-ok, raise_if-eq-ok, get_or_raise-eq-ok, ok_injective,
}
use noshiro_db_backend.Catalogue.Model.{
  Lifecycle, EntityRedirect, MergeEvent, SplitEvent, World, Failure,
}
use noshiro_db_backend.Catalogue.Redirects.{redirect_of, resolve}
use noshiro_db_backend.Catalogue.Redirects.Reaches.{Reaches}
use noshiro_db_backend.Catalogue.Redirects.Resolve.{IsUnique, resolve-end, Reaches-resolve}
use noshiro_db_backend.Catalogue.Merge.{set_lifecycle, split, split_world, rebuild_entity}
use noshiro_db_backend.Catalogue.Merge.Forest.{IsForest}
use noshiro_db_backend.Catalogue.Merge.Library.{IsCompatible, OnePerCluster}

-- The redirects with those of one merge switched off.
abbrev pub without : ℕ → List EntityRedirect → List EntityRedirect
without event = update_where (λ r. r.merge_event == event) (λ r. record r { is_active = false })

-- An entity keeps its redirect or becomes canonical.
redirect_of-without :
    (rs : List EntityRedirect) (event k : ℕ)
    → IsUnique rs
    → (redirect_of (without event rs) k ≡ redirect_of rs k)
      ⊎ (redirect_of (without event rs) k ≡ none)
redirect_of-without [] event k u = inl refl
redirect_of-without (r ∷ rs) event k u = elim (Bool-cases (r.source_entity == k && r.is_active)) [
  | inl leaves ↦
      let at : r.source_entity ≡ k = (==_iff r.source_entity k).0 (ground (arith, leaves)) in
      let alone : redirect_of rs k ≡ none = rw⁻¹ at (u.0 (ground (arith, leaves))) in
      elim (Bool-cases (r.merge_event == event)) [
        | inl off ↦ inr (elim (redirect_of-without rs event k u.1) [
          | inl same ↦ ground (arith, leaves, off, same, alone)
          | inr free ↦ ground (arith, leaves, off, free)
        ])
        | inr on ↦ inl (ground (arith, leaves, on))
      ]
  | inr other ↦ elim (redirect_of-without rs event k u.1) [
    | inl same ↦ inl (ground (arith, other, same))
    | inr free ↦ inr (ground (arith, other, free))
  ]
]

module _ (rs : List EntityRedirect) (event : ℕ) (f : IsForest rs) where
  -- A redirect that is still active was so before.
  pub step_before :
      (k t : ℕ) → redirect_of (without event rs) k ≡ some t → redirect_of rs k ≡ some t
  step_before k t h = elim (redirect_of-without rs event k f.unique) [
    | inl same ↦ sym same ∙ h
    | inr free ↦ absurd (cc)
  ]

  Reaches-without :
      (d e r : ℕ)
      → Reaches (redirect_of rs) d e r
      → (d' : ℕ) × (r' : ℕ) × (d' ≤ d) × Reaches (redirect_of (without event rs)) d' e r'
  Reaches-without zero e r (at, end) = elim (redirect_of-without rs event e f.unique) [
    | inl same ↦ (0, e, omega arith, (refl, same ∙ end))
    | inr free ↦ (0, e, omega arith, (refl, free))
  ]
  Reaches-without (suc d) e r (t, step, h) = elim (redirect_of-without rs event e f.unique) [
    | inl same ↦
        let (d', r', le, h') = Reaches-without d t r h in
        (suc d', r', omega arith, (t, same ∙ step, h'))
    | inr free ↦ (0, e, omega arith, (refl, free))
  ]

  -- The chain of after is the beginning of the chain of before.
  Reaches-through :
      (d c e r r' : ℕ)
      → Reaches (redirect_of (without event rs)) d e r'
      → Reaches (redirect_of rs) c r' r
      → (n : ℕ) × Reaches (redirect_of rs) n e r
  Reaches-through zero c e r r' (at, end) h =
      (c, subst (λ (k : ℕ). Reaches (redirect_of rs) c k r) (sym at) h)
  Reaches-through (suc d) c e r r' (t, step, g) h =
      let (n, k) = Reaches-through d c t r r' g h in (suc n, (t, step_before e t step, k))

  without-IsUnique : IsUnique (without event rs)
  without-IsUnique = go rs f.unique
    where
      go : (l : List EntityRedirect) → IsUnique l → IsUnique (without event l)
      go [] v = tt
      go (r ∷ l) v = elim (Bool-cases (r.merge_event == event)) [
        | inl off ↦ rw off ((λ on. absurd (cc)), go l v.1)
        | inr on ↦ rw on (
          (λ active. elim (redirect_of-without l event r.source_entity v.1) [
            | inl same ↦ same ∙ v.0 active
            | inr free ↦ free
          ]),
          go l v.1,
        )
      ]

  pub without-IsForest : IsForest (without event rs)
  without-IsForest = record {
    unique = without-IsUnique;
    within = λ e.
        let (d, r, lt, h) = f.within e in
        let (d', r', le, h') = Reaches-without d e r h in (d', r', omega arith, h');
  }

  -- Entities that resolve together afterwards did so before.
  without-together :
      (a b : ℕ)
      → resolve (without event rs) a ≡ resolve (without event rs) b
      → resolve rs a ≡ resolve rs b
  without-together a b h =
      let (d, q, lt, at) = without-IsForest.within a in
      let found : resolve (without event rs) b ≡ ok q =
        sym h ∙ resolve-end (without event rs) d a q without-IsForest.within at in
      let (d', lt', at') = Reaches-resolve (without event rs) b q found in
      let (c, r, lt'', on) = f.within q in
      let (n, all) = Reaches-through d c a r q at on in
      let (n', all') = Reaches-through d' c b r q at' on in
      resolve-end rs n a r f.within all ∙ sym (resolve-end rs n' b r f.within all')

-- `split` that returned.
pub record IsSplit (w : World) (now event : ℕ) (w' : World) : Type 0 where
  pub row : MergeEvent
  pub found : get MergeEvent.id event w.merges ≡ some row
  pub was_open : is_some row.reversed_at ≡ false
  pub redirects : w'.redirects ≡ without row.id w.redirects
  pub library : w'.library ≡ w.library
  pub entities : w'.entities ≡ set_lifecycle Lifecycle.active row.source_entity w.entities

pub split-IsSplit :
    (w : World) (now event : ℕ) (reason : String) (res : SplitEvent × World)
    → split w now event reason ≡ ok res
    → IsSplit w now event res.1
unfolding split
split-IsSplit w now event reason res h =
    let (row, found, h1) =
      >>=-eq-ok (get_or_raise Failure.does_not_exist (get MergeEvent.id event w.merges)) _ h in
    let (was_open, h2) = raise_if-eq-ok (is_some row.reversed_at) Failure.already_reversed _ h1 in
    let (redirect, found', h3) =
      >>=-eq-ok
        (get_or_raise Failure.does_not_exist (get EntityRedirect.merge_event row.id w.redirects)) _
        h2 in
    let (ids, rebuilt, h4) =
      >>=-eq-ok (rebuild_entity (split_world w now row) row.target_entity) _ h3 in
    let (ids', rebuilt', h5) =
      >>=-eq-ok (rebuild_entity (split_world w now row) row.source_entity) _ h4 in
    subst (λ (q : SplitEvent × World). IsSplit w now event q.1) (ok_injective h5)
      (record {
        row = row;
        found = get_or_raise-eq-ok Failure.does_not_exist (get MergeEvent.id event w.merges) found;
        was_open = was_open;
        redirects = refl;
        library = refl;
        entities = refl;
      })

-- A split that returns keeps every entity resolvable, separates entities only, and keeps it so that a
-- user has at most one entry in a cluster.
pub split-IsForest :
    (w : World) (now event : ℕ) (reason : String) (res : SplitEvent × World)
    → IsForest w.redirects
    → OnePerCluster w
    → split w now event reason ≡ ok res
    → IsForest res.1.redirects
      × OnePerCluster res.1
      × ((a b : ℕ)
          → resolve res.1.redirects a ≡ resolve res.1.redirects b
          → resolve w.redirects a ≡ resolve w.redirects b)
split-IsForest w now event reason res f one h =
    let p = split-IsSplit w now event reason res h in
    let finer : (a b : ℕ)
        → resolve res.1.redirects a ≡ resolve res.1.redirects b
        → resolve w.redirects a ≡ resolve w.redirects b =
      subst
        (λ rs.
          (a b : ℕ) → resolve rs a ≡ resolve rs b → resolve w.redirects a ≡ resolve w.redirects b)
        (sym p.redirects) (without-together w.redirects p.row.id f) in
    (
      subst IsForest (sym p.redirects) (without-IsForest w.redirects p.row.id f),
      subst
          (λ l.
            All
              (λ x.
                All (IsCompatible (λ a b. resolve res.1.redirects a ≡ resolve res.1.redirects b) x)
                  l)
              l)
          (sym p.library)
          (All-pairs (IsCompatible (λ a b. resolve w.redirects a ≡ resolve w.redirects b))
            (IsCompatible (λ a b. resolve res.1.redirects a ≡ resolve res.1.redirects b)) w.library
            w.library (λ x y old user a b ea eb t. old user a b ea eb (finer a b t)) one),
      finer,
    )
