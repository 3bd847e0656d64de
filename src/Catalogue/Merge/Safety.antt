-- ===== src/Catalogue/Merge/Safety.antt =====
-- Restrictions of the rows in a cluster, and `is_public`.
use noshiro_db_backend.Base.{
  ℕ, ◌≡◌, refl, sym, ap, ◌∙◌, inl, inr, Bool, true, false, ◌==◌, ◌&&◌, not, List, [], ◌∷◌, some,
  if◌then◌else◌, Bool-cases, All, All-map, get, exists_where, arith,
}
use noshiro_db_backend.Base.Result.{ok, get_or_raise-eq-ok}
use noshiro_db_backend.Catalogue.Model.{Lifecycle, Entity, World, Failure}
use noshiro_db_backend.Catalogue.Redirects.{contains, resolve}
use noshiro_db_backend.Catalogue.Redirects.Resolve.{resolve-resolve}
use noshiro_db_backend.Catalogue.Redirects.Cluster.{cluster_ids-resolve, cluster_ids-total}
use noshiro_db_backend.Catalogue.Merge.{
  kind_eq, SafetyRank, safety_rank, rank_gt, find_entity, set_lifecycle, is_public, is_public_row,
}
use noshiro_db_backend.Catalogue.Merge.Forest.{IsForest}

-- `a` may be redirected to `b`.
abbrev pub IsCovered : Entity → Entity → Type 0
IsCovered a b = (kind_eq a.kind b.kind ≡ true) × (rank_gt (safety_rank a) (safety_rank b) ≡ false)

rank_gt_trans :
    (a b c : SafetyRank) → rank_gt a b ≡ false → rank_gt b c ≡ false → rank_gt a c ≡ false
rank_gt_trans (a, a', a'') (b, b', b'') (c, c', c'') h k = ground arith

pub IsCovered-trans : (a b c : Entity) → IsCovered a b → IsCovered b c → IsCovered a c
IsCovered-trans a b c h k = (
  ground (arith, h.0, k.0),
  rank_gt_trans (safety_rank a) (safety_rank b) (safety_rank c) h.1 k.1,
)

-- The canonical row of an entity covers it.
abbrev pub IsSafeRow : World → Entity → Type 0
IsSafeRow w row =
    (root : Entity)
    → resolve w.redirects row.id ≡ ok root.id
    → get Entity.id root.id w.entities ≡ some root
    → IsCovered row root

abbrev pub IsSafe : World → Type 0
IsSafe w = All (IsSafeRow w) w.entities

pub find_entity-get :
    (w : World) (e : ℕ) (row : Entity)
    → find_entity w e ≡ ok row
    → get Entity.id e w.entities ≡ some row
unfolding find_entity
find_entity-get w e row h = get_or_raise-eq-ok Failure.does_not_exist (get Entity.id e w.entities) h

-- Rows that agree in all but the lifecycle.
abbrev IsAlike : Entity → Entity → Type 0
IsAlike a b = (a.id ≡ b.id) × (a.kind ≡ b.kind) × (safety_rank a ≡ safety_rank b)

pub get-set_lifecycle :
    (state : Lifecycle) (e k : ℕ) (t : List Entity) (old : Entity)
    → get Entity.id k t ≡ some old
    → (row : Entity) × (get Entity.id k (set_lifecycle state e t) ≡ some row) × IsAlike old row
get-set_lifecycle state e k [] old h = absurd (cc)
get-set_lifecycle state e k (x ∷ t) old h = elim (Bool-cases (x.id == k)) [
  | inl here ↦
      let row : Entity = if x.id == e then record x { lifecycle = state } else x in
      (
        row,
        ground (arith, here),
        (ground (arith, here, h), ground (arith, here, h), ground (arith, here, h)),
      )
  | inr other ↦
      let (row, found, alike) = get-set_lifecycle state e k t old (ground (arith, other, h)) in
      (row, ground (arith, other, found), alike)
]

pub IsCovered-alike :
    (a b a' b' : Entity) → IsAlike a a' → IsAlike b b' → IsCovered a b → IsCovered a' b'
IsCovered-alike a b a' b' (i, k, s) (i', k', s') h = (
  ground (arith, h.0, k, k'),
  ap (λ p. rank_gt p (safety_rank b')) (sym s) ∙ ap (rank_gt (safety_rank a)) (sym s') ∙ h.1,
)

exists-none :
    {A : Type 0} (p : A → Bool) (t : List A) → All (λ x. p x ≡ false) t → exists_where p t ≡ false
exists-none p [] h = refl
exists-none p (x ∷ t) h = ground (arith, h.0, exists-none p t h.1)

exists-get :
    {A : Type 0} (key : A → ℕ) (k : ℕ) (p : A → Bool) (t : List A) (r : A)
    → get key k t ≡ some r
    → p r ≡ true
    → exists_where p t ≡ true
exists-get key k p [] r h e = absurd (cc)
exists-get key k p (x ∷ t) r h e = ground (arith, e, exists-get key k p t r)

-- Below a public row there are public rows only.
IsCovered-public :
    (row root : Entity) → IsCovered row root → is_public_row root ≡ true → is_public_row row ≡ true
IsCovered-public row root h k = ground (arith, h.1)

-- A client may see an entity exactly when the canonical row is public.
pub is_public-root :
    (w : World) (e : ℕ) (root : Entity)
    → IsForest w.redirects
    → IsSafe w
    → resolve w.redirects e ≡ ok root.id
    → get Entity.id root.id w.entities ≡ some root
    → is_public w e ≡ ok (is_public_row root)
unfolding is_public
is_public-root w e root f safe found there =
    let (ids, c) = cluster_ids-total w.redirects f.unique f.within e in
    let hidden : Entity → Bool = λ row. contains ids row.id && not (is_public_row row) in
    let member = λ (x : ℕ). cluster_ids-resolve w.redirects f.unique e x ids c in
    elim (Bool-cases (is_public_row root)) [
      | inl open_root ↦
          let every : All (λ row. hidden row ≡ false) w.entities =
            All-map (IsSafeRow w) (λ row. hidden row ≡ false) w.entities
              (λ row covered. elim (Bool-cases (contains ids row.id)) [
                | inl inside ↦
                    let shown =
                      IsCovered-public row root
                        (covered root ((member row.id).0 inside ∙ found) there) open_root in
                    ground (arith, shown)
                | inr outside ↦ ground (arith, outside)
              ])
              safe in
          rw (c, exists-none hidden w.entities every, open_root) refl
      | inr closed_root ↦
          let inside =
            (member root.id).1 (resolve-resolve w.redirects e root.id found ∙ sym found) in
          let seen =
            exists-get Entity.id root.id hidden w.entities root there
              (ground (arith, inside, closed_root)) in
          rw (c, seen, closed_root) refl
    ]
