-- ===== src/Catalogue/Merge/Links.antt =====
-- Restrictions of the two rows that a redirect links, and what `merge` does to them.
use noshiro_db_backend.Base.{
  ℕ, zero, suc, ◌≡◌, ◌++◌, refl, sym, ap, ◌∙◌, inl, inr, ◌==◌, List, [], ◌∷◌, Option, none, some,
  if◌then◌else◌, Bool-cases, ==_iff, ==_refl, All, All-map, get, IsKeyed, some_injective, arith,
}
use mathlib.Core.Path.{subst}
use noshiro_db_backend.Catalogue.Model.{Lifecycle, Entity, MergeEvent, World}
use noshiro_db_backend.Catalogue.Redirects.{redirect_of}
use noshiro_db_backend.Catalogue.Redirects.Resolve.{Reaches-resolve}
use noshiro_db_backend.Catalogue.Redirects.Reaches.{Reaches}
use noshiro_db_backend.Catalogue.Merge.{set_lifecycle, redirect_row}
use noshiro_db_backend.Catalogue.Merge.Granted.{IsMerged}
use noshiro_db_backend.Catalogue.Merge.Forest.{IsForest, redirect_of-added}
use noshiro_db_backend.Catalogue.Merge.Safety.{
  IsCovered, IsCovered-trans, IsSafeRow, IsSafe, find_entity-get, get-set_lifecycle,
  IsCovered-alike,
}

-- A redirect leads from one row to another that covers it.
abbrev pub IsLink : List Entity → ℕ → ℕ → Type 0
IsLink rows e t =
    (a : Entity) × (b : Entity) × (get Entity.id e rows ≡ some a)
    × (get Entity.id t rows ≡ some b)
    × IsCovered a b

abbrev pub IsLinked : World → Type 0
IsLinked w = (e t : ℕ) → redirect_of w.redirects e ≡ some t → IsLink w.entities e t

pub IsLink-set_lifecycle :
    (state : Lifecycle) (k e t : ℕ) (rows : List Entity)
    → IsLink rows e t
    → IsLink (set_lifecycle state k rows) e t
IsLink-set_lifecycle state k e t rows (a, b, ha, hb, c) =
    let (a', ha', alike) = get-set_lifecycle state k e rows a ha in
    let (b', hb', alike') = get-set_lifecycle state k t rows b hb in
    (a', b', ha', hb', IsCovered-alike a b a' b' alike alike' c)

IsCovered-self : (a : Entity) → IsCovered a a
IsCovered-self a = (ground arith, ground arith)

-- What an entity is redirected to, over all hops, covers it.
IsLinked-Reaches :
    (w : World) (d e r : ℕ) (a b : Entity)
    → IsLinked w
    → Reaches (redirect_of w.redirects) d e r
    → get Entity.id e w.entities ≡ some a
    → get Entity.id r w.entities ≡ some b
    → IsCovered a b
IsLinked-Reaches w zero e r a b links (at, last) ha hb =
    subst (IsCovered a)
      (some_injective (sym ha ∙ ap (λ (k : ℕ). get Entity.id k w.entities) at ∙ hb))
      (IsCovered-self a)
IsLinked-Reaches w (suc d) e r a b links (t, step, h) ha hb =
    let (a', c, ha', hc, covered) = links e t step in
    IsCovered-trans a c b (subst (λ x. IsCovered x c) (some_injective (sym ha' ∙ ha)) covered)
      (IsLinked-Reaches w d t r c b links h hc hb)

keyed_rows :
    (t : List Entity) → IsKeyed Entity.id t → All (λ row. get Entity.id row.id t ≡ some row) t
keyed_rows [] u = tt
keyed_rows (x ∷ t) u = (
  ground (arith, ==_refl x.id),
  All-map (λ row. get Entity.id row.id t ≡ some row)
      (λ row. get Entity.id row.id (x ∷ t) ≡ some row) t
      (λ row h. elim (Bool-cases (x.id == row.id)) [
        | inl same ↦
            let at : row.id ≡ x.id = sym ((==_iff x.id row.id).0 same) in
            let absent : get Entity.id row.id t ≡ none =
              ap (λ (k : ℕ). get Entity.id k t) at ∙ u.0 in
            absurd (cc)
        | inr other ↦ rw other h
      ])
      (keyed_rows t u.1),
)

pub IsLinked-IsSafe : (w : World) → IsKeyed Entity.id w.entities → IsLinked w → IsSafe w
IsLinked-IsSafe w keyed links =
    All-map (λ row. get Entity.id row.id w.entities ≡ some row) (IsSafeRow w) w.entities
      (λ row here root h there.
        let (d, lt, c) = Reaches-resolve w.redirects row.id root.id h in
        IsLinked-Reaches w d row.id root.id row root links c here there)
      (keyed_rows w.entities keyed)

module _ (w : World) (source target : ℕ) (event : MergeEvent) (w' : World)
    (f : IsForest w.redirects) (m : IsMerged w source target event w') where
  -- The redirect of a merge leads to a row that covers its source.
  new-IsLink : IsLink w.entities event.source_entity event.target_entity
  new-IsLink = (
    m.source_root,
    m.target_root,
    ap (λ (k : ℕ). get Entity.id k w.entities) m.from_source
        ∙ find_entity-get w m.source_root.id m.source_root m.pair.source_row,
    ap (λ (k : ℕ). get Entity.id k w.entities) m.into_target
        ∙ find_entity-get w m.target_root.id m.target_root m.pair.target_row,
    (m.pair.checked.same_kind, m.pair.checked.no_less_safe),
  )

  pub IsMerged-IsLinked : IsLinked w → IsLinked w'
  IsMerged-IsLinked links e t h =
      let row = redirect_row event.source_entity event.target_entity event.id in
      let step : redirect_of (w.redirects ++ row ∷ []) e ≡ some t =
        sym (ap (λ v. redirect_of (World.redirects v) e) m.tables) ∙ h in
      subst (λ rows. IsLink rows e t) (sym (ap World.entities m.tables))
        (IsLink-set_lifecycle Lifecycle.merged event.source_entity e t w.entities (
          go (redirect_of w.redirects e) refl (
            sym (redirect_of-added w.redirects event.source_entity event.target_entity event.id e)
            ∙ step)))
    where
      go :
          (o : Option ℕ)
          → redirect_of w.redirects e ≡ o
          → (elim o [
            | some x ↦ some x
            | none ↦ if event.source_entity == e then some event.target_entity else none
          ])
            ≡ some t
          → IsLink w.entities e t
      go (some x) old k = links e t (old ∙ k)
      go none old k = elim (Bool-cases (event.source_entity == e)) [
        | inl same ↦
            let at : event.source_entity ≡ e = (==_iff event.source_entity e).0 same in
            let into : event.target_entity ≡ t = ground (arith, same, k) in
            subst (λ (x : ℕ). IsLink w.entities e x) into
              (subst (λ (x : ℕ). IsLink w.entities x event.target_entity) at new-IsLink)
        | inr other ↦ absurd (ground (arith, other, k))
      ]
