-- ===== src/Catalogue/Redirects/Resolve.antt =====
-- `resolve` by chains of redirects, and with the preloaded map.
use noshiro_db_backend.Base.{
  ℕ, zero, suc, ◌<◌, ◌≡◌, refl, sym, ap, inl, inr, true, false, ◌==◌, List, [], ◌∷◌, Option, none,
  Bool-cases, Option-cases, ==_iff, All, arith,
}
use mathlib.Core.Path.{fun_ext, subst}
use noshiro_db_backend.Base.Result.{ok}
use noshiro_db_backend.Catalogue.Model.{EntityRedirect}
use noshiro_db_backend.Catalogue.Redirects.{
  contains, redirect_of, dict_get, redirect_map, follow, resolve, resolve_with, max_redirect_depth,
}
use noshiro_db_backend.Catalogue.Redirects.Reaches.{
  Reaches, Reaches-same, Reaches-canonical, EndsWithin,
}

module _ (next : ℕ → Option ℕ) where
  -- A visited entity is farther away than `d` hops.
  abbrev IsFarther : ℕ → ℕ → Type 0
  IsFarther d v = (d' : ℕ) × (r : ℕ) × (d < d') × Reaches next d' v r

  contains-farther :
      (d e r : ℕ) (visited : List ℕ)
      → Reaches next d e r
      → All (IsFarther d) visited
      → contains visited e ≡ false
  contains-farther d e r [] h f = refl
  contains-farther d e r (v ∷ vs) h ((d', r', lt, k), f) = elim (Bool-cases (v == e)) [
    | inl same ↦
        let at : v ≡ e = (==_iff v e).0 same in
        let eq : d' ≡ d = (Reaches-same next d' d e r' r (rw⁻¹ at k) h).0 in absurd (omega arith)
    | inr other ↦ rw other (contains-farther d e r vs h f)
  ]

  nearer : (d : ℕ) (visited : List ℕ) → All (IsFarther (suc d)) visited → All (IsFarther d) visited
  nearer d [] f = tt
  nearer d (v ∷ vs) ((d', r', lt, k), f) = ((d', r', omega arith, k), nearer d vs f)

  -- A chain of fewer hops than rounds is followed to its end.
  follow-Reaches :
      (n d e r : ℕ) (visited : List ℕ)
      → d < n
      → Reaches next d e r
      → All (IsFarther d) visited
      → follow next n visited e ≡ ok r
  unfolding follow
  follow-Reaches zero d e r visited lt h f = absurd (omega arith)
  follow-Reaches (suc n) zero e r visited lt h f =
      rw (contains-farther zero e r visited h f, h.1) (ap ok h.0)
  follow-Reaches (suc n) (suc d) e r visited lt (t, h, k) f =
      rw (contains-farther (suc d) e r visited (t, h, k) f, h)
        (follow-Reaches n d t r (e ∷ visited) (omega arith) k
          ((suc d, r, omega arith, (t, h, k)), nearer d visited f))

  -- What the loop returns is the end of a chain of fewer hops than rounds.
  Reaches-follow :
      (n e r : ℕ) (visited : List ℕ)
      → follow next n visited e ≡ ok r
      → (d : ℕ) × (d < n) × Reaches next d e r
  unfolding follow
  Reaches-follow zero e r visited h = absurd (cc)
  Reaches-follow (suc n) e r visited h = elim (Bool-cases (contains visited e)) [
    | inl old ↦ absurd (ground (arith, old))
    | inr new ↦ elim (Option-cases (next e)) [
      | inl last ↦ (0, omega arith, (ground arith, last))
      | inr (t, more) ↦
          let rest : follow next n (e ∷ visited) t ≡ ok r = (rw (new, more) at h) in
          let (d, lt, k) = Reaches-follow n t r (e ∷ visited) rest in
          (suc d, omega arith, (t, more, k))
    ]
  ]

module _ (rs : List EntityRedirect) where
  pub resolve-Reaches :
      (d e r : ℕ) → d < max_redirect_depth → Reaches (redirect_of rs) d e r → resolve rs e ≡ ok r
  unfolding resolve
  resolve-Reaches d e r lt h = follow-Reaches (redirect_of rs) max_redirect_depth d e r [] lt h tt

  pub Reaches-resolve :
      (e r : ℕ)
      → resolve rs e ≡ ok r
      → (d : ℕ) × (d < max_redirect_depth) × Reaches (redirect_of rs) d e r
  unfolding resolve
  Reaches-resolve e r h = Reaches-follow (redirect_of rs) max_redirect_depth e r [] h

  -- Where every chain is short enough, every entity resolves, and to a canonical one.
  pub resolve-total :
      EndsWithin (redirect_of rs) max_redirect_depth
      → (e : ℕ) → (r : ℕ) × (resolve rs e ≡ ok r) × (redirect_of rs r ≡ none)
  resolve-total ends e =
      let (d, r, lt, h) = ends e in
      (r, resolve-Reaches d e r lt h, Reaches-canonical (redirect_of rs) d e r h)

-- The constraint uq_active_entity_redirect_source.
abbrev pub IsUnique : List EntityRedirect → Type 0
IsUnique [] = Unit
IsUnique (r ∷ rs) = (r.is_active ≡ true → redirect_of rs r.source_entity ≡ none) × IsUnique rs

dict_get-redirect_map :
    (rs : List EntityRedirect) (k : ℕ)
    → IsUnique rs
    → dict_get (redirect_map rs) k ≡ redirect_of rs k
unfolding redirect_map
dict_get-redirect_map [] k u = refl
dict_get-redirect_map (r ∷ rs) k u = elim (Bool-cases r.is_active) [
  | inl on ↦
      let absent : r.source_entity ≡ k → redirect_of rs k ≡ none = (λ at. rw⁻¹ at (u.0 on)) in
      elim (Bool-cases (r.source_entity == k)) [
        | inl here ↦
            let none_below : redirect_of rs k ≡ none = absent ((==_iff r.source_entity k).0 here) in
            ground (arith, on, here, dict_get-redirect_map rs k u.1, none_below)
        | inr other ↦ ground (arith, on, other, dict_get-redirect_map rs k u.1)
      ]
  | inr off ↦ ground (arith, off, dict_get-redirect_map rs k u.1)
]

-- Where an entity has at most one active redirect, resolving from the preloaded map gives what
-- resolving from the table gives, errors included.
pub resolve_with-redirect_map :
    (rs : List EntityRedirect) (e : ℕ)
    → IsUnique rs
    → resolve_with (redirect_map rs) e ≡ resolve rs e
unfolding resolve_with resolve
resolve_with-redirect_map rs e u = rw (fun_ext (λ k. dict_get-redirect_map rs k u)) refl

-- Resolving again changes nothing.
pub resolve-resolve :
    (rs : List EntityRedirect) (e r : ℕ) → resolve rs e ≡ ok r → resolve rs r ≡ ok r
resolve-resolve rs e r h =
    let (d, lt, c) = Reaches-resolve rs e r h in
    resolve-Reaches rs 0 r r (omega arith) (refl, Reaches-canonical (redirect_of rs) d e r c)

-- Where every chain is short enough, an entity resolves to the end of its chain.
pub resolve-end :
    (rs : List EntityRedirect) (d e r : ℕ)
    → EndsWithin (redirect_of rs) max_redirect_depth
    → Reaches (redirect_of rs) d e r
    → resolve rs e ≡ ok r
resolve-end rs d e r ends h =
    let (d', r', lt, h') = ends e in
    resolve-Reaches rs d e r
      (subst (λ (k : ℕ). k < max_redirect_depth)
        (sym (Reaches-same (redirect_of rs) d d' e r r' h h').0) lt)
      h
