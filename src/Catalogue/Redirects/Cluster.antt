-- ===== src/Catalogue/Redirects/Cluster.antt =====
-- What `cluster_ids` collects: its levels, and the chains of redirects backwards.
use noshiro_db_backend.Base.{
  ℕ, zero, suc, ◌+◌, ◌≤◌, ◌<◌, ◌≡◌, ◌↔◌, refl, sym, ap, ◌∙◌, inl, inr, Bool, true, false, ◌==◌,
  ◌&&◌, ◌||◌, not, List, [], ◌∷◌, ◌++◌, Option, none, some, Bool-cases, Option-cases, List-cases,
  ==_iff, ==_refl, select_where, arith,
}
use mathlib.Core.Path.{subst}
use native.Mathlib.Decide.{dec_le}
use noshiro_db_backend.Base.Result.{ok, >>=-eq-ok}
use noshiro_db_backend.Catalogue.Model.{EntityRedirect}
use noshiro_db_backend.Catalogue.Redirects.{
  contains, redirect_of, sources_into, minus, grow, cluster_ids, resolve, max_redirect_depth,
}
use noshiro_db_backend.Catalogue.Redirects.Reaches.{
  Reaches, Reaches-same, Reaches-canonical, Reaches-between, EndsWithin,
}
use noshiro_db_backend.Catalogue.Redirects.Resolve.{IsUnique, resolve-Reaches, Reaches-resolve}

contains-append :
    (xs ys : List ℕ) (k : ℕ) → contains (xs ++ ys) k ≡ (contains xs k || contains ys k)
contains-append [] ys k = refl
contains-append (x ∷ xs) ys k = ground (arith, contains-append xs ys k)

contains-select :
    (p : ℕ → Bool) (xs : List ℕ) (k : ℕ) → contains (select_where p xs) k ≡ (contains xs k && p k)
contains-select p [] k = refl
contains-select p (x ∷ xs) k = elim (Bool-cases (x == k)) [
  | inl same ↦
      let at : x ≡ k = (==_iff x k).0 same in
      rw at (ground (arith, contains-select p xs k, ==_refl k))
  | inr other ↦ ground (arith, other, contains-select p xs k)
]

-- Whether a redirect leads into a set.
abbrev leads_into : List ℕ → Option ℕ → Bool
leads_into frontier none = false
leads_into frontier (some t) = contains frontier t

contains-sources_into :
    (rs : List EntityRedirect) (frontier : List ℕ) (x : ℕ)
    → IsUnique rs
    → contains (sources_into rs frontier) x ≡ leads_into frontier (redirect_of rs x)
contains-sources_into [] frontier x u = refl
contains-sources_into (r ∷ rs) frontier x u = elim (Bool-cases r.is_active) [
  | inl on ↦
      let absent : r.source_entity ≡ x → redirect_of rs x ≡ none = (λ at. rw⁻¹ at (u.0 on)) in
      elim (Bool-cases (r.source_entity == x)) [
        | inl here ↦
            let none_below : redirect_of rs x ≡ none = absent ((==_iff r.source_entity x).0 here) in
            ground (arith, on, here, contains-sources_into rs frontier x u.1, none_below)
        | inr other ↦ ground (arith, on, other, contains-sources_into rs frontier x u.1)
      ]
  | inr off ↦ ground (arith, off, contains-sources_into rs frontier x u.1)
]

module _ (rs : List EntityRedirect) (root : ℕ) where
  abbrev Member : ℕ → ℕ → Type 0
  Member d x = Reaches (redirect_of rs) d x root

  -- The entities at exactly `k` hops, and those at most that far.
  abbrev IsLevel : ℕ → List ℕ → Type 0
  IsLevel k xs = (x : ℕ) → (contains xs x ≡ true) ↔ Member k x

  abbrev IsWithin : ℕ → List ℕ → Type 0
  IsWithin k xs = (x : ℕ) → (contains xs x ≡ true) ↔ ((d : ℕ) × (d ≤ k) × Member d x)

  module _ (u : IsUnique rs) (k : ℕ) (ids frontier : List ℕ) (w : IsWithin k ids)
      (l : IsLevel k frontier) where
    abbrev next_sources : List ℕ
    next_sources = minus (sources_into rs frontier) ids

    contains-next_sources :
        (x : ℕ)
        → contains next_sources x ≡ (leads_into frontier (redirect_of rs x) && not (contains ids x))
    contains-next_sources x =
        contains-select (λ y. not (contains ids y)) (sources_into rs frontier) x
        ∙ ap (λ b. b && not (contains ids x)) (contains-sources_into rs frontier x u)

    next-IsLevel : IsLevel (suc k) next_sources
    next-IsLevel x = (forth, back)
      where
        forth : contains next_sources x ≡ true → Member (suc k) x
        forth h =
            let both : (leads_into frontier (redirect_of rs x) && not (contains ids x)) ≡ true =
              sym (contains-next_sources x) ∙ h in
            elim (Option-cases (redirect_of rs x)) [
              | inl last ↦ absurd (ground (arith, both, last))
              | inr (t, more) ↦ (t, more, (l t).0 (ground (arith, both, more)))
            ]

        back : Member (suc k) x → contains next_sources x ≡ true
        back (t, more, m) = elim (Bool-cases (contains ids x)) [
          | inl old ↦
              let (d, le, n) = (w x).0 old in
              let same : d ≡ suc k =
                (Reaches-same (redirect_of rs) d (suc k) x root root n (t, more, m)).0 in
              absurd (omega arith)
          | inr new ↦ contains-next_sources x ∙ ground (arith, more, new, (l t).1 m)
        ]

    next-IsWithin : IsWithin (suc k) (ids ++ next_sources)
    next-IsWithin x = (forth, back)
      where
        forth : contains (ids ++ next_sources) x ≡ true → (d : ℕ) × (d ≤ suc k) × Member d x
        forth h = elim (Bool-cases (contains ids x)) [
          | inl old ↦ let (d, le, n) = (w x).0 old in (d, omega arith, n)
          | inr new ↦
              let there : contains next_sources x ≡ true =
                ground (arith, h, new, contains-append ids next_sources x) in
              (suc k, omega arith, (next-IsLevel x).0 there)
        ]

        back : (d : ℕ) × (d ≤ suc k) × Member d x → contains (ids ++ next_sources) x ≡ true
        back (d, le, n) = contains-append ids next_sources x ∙ (elim (dec_le d k) [
          | yes near ↦ rw ((w x).1 (d, near, n)) refl
          | no far ↦
              let at : d ≡ suc k = omega arith in
              let there : contains next_sources x ≡ true =
                (next-IsLevel x).1 (subst (λ (c : ℕ). Member c x) at n) in
              ground (arith, there)
        ])

  -- The entities that a walk has found, and the bound on every chain that it has shown.
  abbrev IsCluster : ℕ → List ℕ → Type 0
  IsCluster k ids =
      ((x : ℕ) → (contains ids x ≡ true) ↔ ((d : ℕ) × Member d x))
      × ((x d : ℕ) → Member d x → d < k)

  module _ (u : IsUnique rs) where
    -- A level with nothing beyond it is the last.
    last_level :
        (k n : ℕ) (ids frontier : List ℕ) (w : IsWithin k ids) (l : IsLevel k frontier)
        → minus (sources_into rs frontier) ids ≡ []
        → IsCluster (k + suc n) ids
    last_level k n ids frontier w l none_left = (
      (λ x. (
        (λ h. let (d, le, m) = (w x).0 h in (d, m)),
        (λ dm. (w x).1 (dm.0, near x dm.0 dm.1, dm.1)),
      )),
      (λ x d m. let le : d ≤ k = near x d m in omega arith),
    )
      where
        near : (x d : ℕ) → Member d x → d ≤ k
        near x d m = elim (dec_le (suc k) d) [
          | no close ↦ omega arith
          | yes far ↦
              let (y, at) = Reaches-between (redirect_of rs) (suc k) d x root far m in
              let found : contains (minus (sources_into rs frontier) ids) y ≡ true =
                (next-IsLevel u k ids frontier w l y).1 at in
              absurd (ground (arith, found, none_left))
        ]

    grow-last :
        (n : ℕ) (ids frontier : List ℕ)
        → minus (sources_into rs frontier) ids ≡ []
        → grow rs (suc n) ids frontier ≡ ok ids
    unfolding grow
    grow-last n ids frontier e = rw (e, grow) refl

    grow-more :
        (n y : ℕ) (ids frontier ys : List ℕ)
        → minus (sources_into rs frontier) ids ≡ y ∷ ys
        → grow rs (suc n) ids frontier ≡ grow rs n (ids ++ y ∷ ys) (y ∷ ys)
    unfolding grow
    grow-more n y ids frontier ys e = rw (e, grow) refl

    grow-IsCluster :
        (n k : ℕ) (ids frontier res : List ℕ) (w : IsWithin k ids) (l : IsLevel k frontier)
        → grow rs n ids frontier ≡ ok res
        → IsCluster (k + n) res
    unfolding grow
    grow-IsCluster zero k ids frontier res w l h = absurd (cc)
    grow-IsCluster (suc n) k ids frontier res w l h =
        elim (List-cases (minus (sources_into rs frontier) ids)) [
          | inl e ↦
              let same : ids ≡ res = cc (grow-last n ids frontier e) in
              subst (IsCluster (k + suc n)) same (last_level k n ids frontier w l e)
          | inr (y, ys, e) ↦
              let lev = next-IsLevel u k ids frontier w l in
              let wit = next-IsWithin u k ids frontier w l in
              let more : grow rs n (ids ++ y ∷ ys) (y ∷ ys) ≡ ok res =
                sym (grow-more n y ids frontier ys e) ∙ h in
              let found : IsCluster (suc k + n) res =
                grow-IsCluster n (suc k) (ids ++ y ∷ ys) (y ∷ ys) res
                  (subst (λ s. IsWithin (suc k) (ids ++ s)) e wit) (subst (IsLevel (suc k)) e lev)
                  more in
              subst (λ (m : ℕ). IsCluster m res) (omega arith) found
        ]

    -- Where the rounds left suffice for the farthest member, the walk returns.
    grow-total :
        (n k y : ℕ) (ids frontier : List ℕ) (w : IsWithin k ids) (l : IsLevel k frontier)
        → Member k y
        → ((x d : ℕ) → Member d x → d < k + n)
        → (res : List ℕ) × (grow rs n ids frontier ≡ ok res)
    grow-total zero k y ids frontier w l m near = absurd (omega (arith, near y k m))
    grow-total (suc n) k y ids frontier w l m near =
        elim (List-cases (minus (sources_into rs frontier) ids)) [
          | inl e ↦ (ids, grow-last n ids frontier e)
          | inr (z, zs, e) ↦
              let lev : IsLevel (suc k) (z ∷ zs) =
                subst (IsLevel (suc k)) e (next-IsLevel u k ids frontier w l) in
              let wit : IsWithin (suc k) (ids ++ z ∷ zs) =
                subst (λ s. IsWithin (suc k) (ids ++ s)) e (next-IsWithin u k ids frontier w l) in
              let (res, r) =
                grow-total n (suc k) z (ids ++ z ∷ zs) (z ∷ zs) wit lev
                  ((lev z).0 (ground (arith, ==_refl z))) (λ x d at. omega (arith, near x d at)) in
              (res, grow-more n z ids frontier zs e ∙ r)
        ]

    module _ (canonical : redirect_of rs root ≡ none) where
      first-IsLevel : IsLevel 0 (root ∷ [])
      first-IsLevel x = (
        (λ h. let at : x ≡ root = ground (arith, h) in (at, rw at canonical)),
        (λ m. rw (m.0) (ground (arith, ==_refl root))),
      )

      first-IsWithin : IsWithin 0 (root ∷ [])
      first-IsWithin x = (
        (λ h. (0, omega arith, (first-IsLevel x).0 h)),
        (λ (d, le, m).
            let at : d ≡ 0 = omega arith in
            (first-IsLevel x).1 (subst (λ (c : ℕ). Member c x) at m)),
      )

module _ (rs : List EntityRedirect) (u : IsUnique rs) where
  -- What `cluster_ids` returns: the members, and that none of them is too far away to resolve.
  pub cluster_ids-IsCluster :
      (e : ℕ) (ids : List ℕ)
      → cluster_ids rs e ≡ ok ids
      → (root : ℕ) × (resolve rs e ≡ ok root) × IsCluster rs root max_redirect_depth ids
  unfolding cluster_ids
  cluster_ids-IsCluster e ids h =
      let (root, r, g) =
        >>=-eq-ok (resolve rs e) (λ root. grow rs max_redirect_depth (root ∷ []) (root ∷ [])) h in
      let (d, lt, m) = Reaches-resolve rs e root r in
      let canonical : redirect_of rs root ≡ none = Reaches-canonical (redirect_of rs) d e root m in
      (
        root,
        r,
        grow-IsCluster rs root u max_redirect_depth 0 (root ∷ []) (root ∷ []) ids
            (first-IsWithin rs root u canonical) (first-IsLevel rs root u canonical) g,
      )

  -- The cluster of an entity: exactly the entities that resolve to what it resolves to.
  pub cluster_ids-resolve :
      (e x : ℕ) (ids : List ℕ)
      → cluster_ids rs e ≡ ok ids
      → (contains ids x ≡ true) ↔ (resolve rs x ≡ resolve rs e)
  cluster_ids-resolve e x ids h =
      let (root, r, (members, near)) = cluster_ids-IsCluster e ids h in
      (
        (λ c. let (d, m) = (members x).0 c in resolve-Reaches rs d x root (near x d m) m ∙ sym r),
        (λ same. let (d, lt, m) = Reaches-resolve rs x root (same ∙ r) in (members x).1 (d, m)),
      )

  -- Where every chain is short enough, every cluster is found.
  pub cluster_ids-total :
      EndsWithin (redirect_of rs) max_redirect_depth
      → (e : ℕ) → (ids : List ℕ) × (cluster_ids rs e ≡ ok ids)
  unfolding cluster_ids
  cluster_ids-total ends e =
      let (d, root, lt, m) = ends e in
      let canonical : redirect_of rs root ≡ none = Reaches-canonical (redirect_of rs) d e root m in
      let near : (x c : ℕ) → Reaches (redirect_of rs) c x root → c < max_redirect_depth = (λ x c at.
        let (c', r', lt', at') = ends x in
        let same : c ≡ c' = (Reaches-same (redirect_of rs) c c' x root r' at at').0 in
        subst (λ (t : ℕ). t < max_redirect_depth) (sym same) lt') in
      let (ids, g) =
        grow-total rs root u max_redirect_depth 0 root (root ∷ []) (root ∷ [])
          (first-IsWithin rs root u canonical) (first-IsLevel rs root u canonical) (refl, canonical)
          near in
      (ids, rw (resolve-Reaches rs d e root lt m) g)
