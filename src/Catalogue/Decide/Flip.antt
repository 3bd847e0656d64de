-- ===== src/Catalogue/Decide/Flip.antt =====
-- The choice of `_canonical_pair` when the two entities of a candidate change places.
use noshiro_db_backend.Base.{
  ℕ, ◌≡◌, ◌⊎◌, refl, sym, ap, ◌∙◌, inl, inr, Bool, true, false, ◌==◌, ◌&&◌, not, List, [], ◌∷◌,
  Bool-cases, Option-cases, count_where, arith,
}
use mathlib.Core.Path.{subst}
use noshiro_db_backend.Base.Result.{ok, ok_injective}
use noshiro_db_backend.Catalogue.Model.{Entity, EntityRedirect, UserSubject, World}
use noshiro_db_backend.Catalogue.Redirects.{contains, resolve, cluster_ids}
use noshiro_db_backend.Catalogue.Redirects.Resolve.{resolve-resolve, IsUnique}
use noshiro_db_backend.Catalogue.Redirects.Cluster.{cluster_ids-resolve}
use noshiro_db_backend.Catalogue.Merge.{kind_eq, entity_in}
use noshiro_db_backend.Catalogue.Merge.Granted.{resolve_entity-eq-ok}
use noshiro_db_backend.Catalogue.Decide.{canonical_pair, left_is_target}
use noshiro_db_backend.Catalogue.Decide.Canonical.{
  ordered, canonical_pair-IsChosen, left_is_target_flip, ordered-not,
}

-- Counting the entries of one cluster that are not in another that has none of them.
count_apart :
    (l r : List ℕ) (t : List UserSubject)
    → ((e : ℕ) → contains r e ≡ true → contains l e ≡ false)
    → count_where (λ entry. entity_in r entry && not (entity_in l entry)) t
      ≡ count_where (entity_in r) t
count_apart l r [] h = refl
count_apart l r (x ∷ t) h =
    let rest = count_apart l r t h in
    elim (Option-cases x.entity) [
      | inl no_entity ↦ ground (arith, no_entity, rest)
      | inr (e, at) ↦ elim (Bool-cases (contains r e)) [
        | inl inside ↦ ground (arith, at, inside, h e inside, rest)
        | inr outside ↦ ground (arith, at, outside, rest)
      ]
    ]

-- The clusters of two canonical entities have no member in common.
clusters_apart :
    (rs : List EntityRedirect) (a b : ℕ) (l r : List ℕ)
    → IsUnique rs
    → resolve rs a ≡ ok a
    → resolve rs b ≡ ok b
    → (a == b) ≡ false
    → cluster_ids rs a ≡ ok l
    → cluster_ids rs b ≡ ok r
    → (e : ℕ) → contains r e ≡ true
    → contains l e ≡ false
clusters_apart rs a b l r u ra rb differ la rb' e inside = elim (Bool-cases (contains l e)) [
  | inr outside ↦ outside
  | inl both ↦
      let to_a = (cluster_ids-resolve rs u a e l la).0 both in
      let to_b = (cluster_ids-resolve rs u b e r rb').0 inside in
      let same : a ≡ b = ok_injective (sym ra ∙ sym to_a ∙ to_b ∙ rb) in
      absurd (ground (arith, differ, same))
]

-- Which entity is canonical does not depend on the order of the candidate's entities, where an entity
-- has at most one active redirect.
pub canonical_pair-flip :
    (w : World) (l r : ℕ) (p : Entity × Entity)
    → IsUnique w.redirects
    → canonical_pair w l r ≡ ok p
    → canonical_pair w r l ≡ ok p
unfolding canonical_pair
canonical_pair-flip w l r p u h =
    let c = canonical_pair-IsChosen w l r p h in
    let left_root =
      resolve-resolve w.redirects l c.left.id (resolve_entity-eq-ok w l c.left c.left_found).0 in
    let right_root =
      resolve-resolve w.redirects r c.right.id (resolve_entity-eq-ok w r c.right c.right_found).0 in
    let differ : (c.right.id == c.left.id) ≡ false = ground (arith, c.differ) in
    let kinds : kind_eq c.right.kind c.left.kind ≡ true = ground (arith, c.same_kind) in
    let right_counted : count_where (entity_in c.right_ids) w.library ≡ c.right_count =
      sym (
        count_apart c.left_ids c.right_ids w.library (
          clusters_apart w.redirects c.left.id c.right.id c.left_ids c.right_ids u left_root
            right_root c.differ c.left_cluster c.right_cluster))
      ∙ c.right_counted in
    let left_counted : count_where
          (λ entry. entity_in c.left_ids entry && not (entity_in c.right_ids entry)) w.library
        ≡ c.left_count =
      count_apart c.right_ids c.left_ids w.library (
        clusters_apart w.redirects c.right.id c.left.id c.right_ids c.left_ids u right_root
          left_root differ c.right_cluster c.left_cluster)
      ∙ c.left_counted in
    let flipped : ordered (left_is_target c.right c.left c.right_count c.left_count) c.right c.left
        ≡ p =
      ap (λ flag. ordered flag c.right c.left)
        (left_is_target_flip c.right c.left c.right_count c.left_count differ)
      ∙ ordered-not (left_is_target c.left c.right c.left_count c.right_count) c.right c.left
      ∙ c.chosen in
    rw
      (
        c.right_found, c.left_found, differ, kinds, c.right_cluster, c.left_cluster, right_counted,
        left_counted,
      )
      (ap ok flipped)

-- The pair holds the canonical entities of both, one way round or the other.
pub canonical_pair-resolve :
    (w : World) (l r : ℕ) (p : Entity × Entity)
    → canonical_pair w l r ≡ ok p
    → ((resolve w.redirects l ≡ ok p.0.id) × (resolve w.redirects r ≡ ok p.1.id))
      ⊎ ((resolve w.redirects r ≡ ok p.0.id) × (resolve w.redirects l ≡ ok p.1.id))
canonical_pair-resolve w l r p h =
    let c = canonical_pair-IsChosen w l r p h in
    let left = (resolve_entity-eq-ok w l c.left c.left_found).0 in
    let right = (resolve_entity-eq-ok w r c.right c.right_found).0 in
    subst
      (λ (q : Entity × Entity).
        ((resolve w.redirects l ≡ ok q.0.id) × (resolve w.redirects r ≡ ok q.1.id))
        ⊎ ((resolve w.redirects r ≡ ok q.0.id) × (resolve w.redirects l ≡ ok q.1.id)))
      c.chosen
      (go (left_is_target c.left c.right c.left_count c.right_count) c.left c.right left right)
  where
    go :
        (flag : Bool) (a b : Entity)
        → resolve w.redirects l ≡ ok a.id
        → resolve w.redirects r ≡ ok b.id
        → ((resolve w.redirects l ≡ ok (ordered flag a b).0.id)
            × (resolve w.redirects r ≡ ok (ordered flag a b).1.id))
          ⊎ ((resolve w.redirects r ≡ ok (ordered flag a b).0.id)
              × (resolve w.redirects l ≡ ok (ordered flag a b).1.id))
    go true a b x y = inr (y, x)
    go false a b x y = inl (x, y)
