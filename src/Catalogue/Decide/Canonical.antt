-- ===== src/Catalogue/Decide/Canonical.antt =====
-- Which entity of a candidate becomes the canonical one.
use noshiro_db_backend.Base.{
  ℕ, ◌≡◌, refl, ap, ◌∙◌, Bool, true, false, ◌==◌, ◌&&◌, not, List, if◌then◌else◌, count_where,
  arith,
}
use mathlib.Core.Path.{subst}
use noshiro_db_backend.Base.Result.{ok, >>=-eq-ok, raise_if-eq-ok, ok_injective}
use noshiro_db_backend.Catalogue.Model.{Entity, World, Failure}
use noshiro_db_backend.Catalogue.Redirects.{cluster_ids}
use noshiro_db_backend.Catalogue.Merge.{
  kind_eq, SafetyRank, safety_rank, rank_gt, resolve_entity, entity_in,
}
use noshiro_db_backend.Catalogue.Decide.{
  canonical_pair, left_is_target, rank_eq, is_positive, bool_eq, is_older,
}

-- The pair in the order that a flag says.
abbrev pub ordered : Bool → Entity → Entity → Entity × Entity
ordered flag left right = if flag then (right, left) else (left, right)

-- The checks that let a pair through, and how it is put in order.
pub record IsChosen (w : World) (left_entity right_entity : ℕ) (p : Entity × Entity) : Type 0 where
  pub left : Entity
  pub right : Entity
  pub left_found : resolve_entity w left_entity ≡ ok left
  pub right_found : resolve_entity w right_entity ≡ ok right
  pub differ : (left.id == right.id) ≡ false
  pub same_kind : kind_eq left.kind right.kind ≡ true
  pub left_ids : List ℕ
  pub right_ids : List ℕ
  pub left_cluster : cluster_ids w.redirects left.id ≡ ok left_ids
  pub right_cluster : cluster_ids w.redirects right.id ≡ ok right_ids
  pub left_count : ℕ
  pub right_count : ℕ
  pub left_counted : count_where (entity_in left_ids) w.library ≡ left_count
  pub right_counted :
      count_where (λ entry. entity_in right_ids entry && not (entity_in left_ids entry)) w.library
      ≡ right_count
  pub chosen : ordered (left_is_target left right left_count right_count) left right ≡ p

pub canonical_pair-IsChosen :
    (w : World) (l r : ℕ) (p : Entity × Entity) → canonical_pair w l r ≡ ok p → IsChosen w l r p
unfolding canonical_pair
canonical_pair-IsChosen w l r p h =
    let (left, left_found, h1) = >>=-eq-ok (resolve_entity w l) _ h in
    let (right, right_found, h2) = >>=-eq-ok (resolve_entity w r) _ h1 in
    let (differ, h3) = raise_if-eq-ok (left.id == right.id) Failure.resolve_together _ h2 in
    let (kinds, h4) = raise_if-eq-ok (not (kind_eq left.kind right.kind)) Failure.bind_kinds _ h3 in
    let (left_ids, left_cluster, h5) = >>=-eq-ok (cluster_ids w.redirects left.id) _ h4 in
    let (right_ids, right_cluster, h6) = >>=-eq-ok (cluster_ids w.redirects right.id) _ h5 in
    record {
      left = left;
      right = right;
      left_found = left_found;
      right_found = right_found;
      differ = differ;
      same_kind = ground (arith, kinds);
      left_ids = left_ids;
      right_ids = right_ids;
      left_cluster = left_cluster;
      right_cluster = right_cluster;
      left_count = count_where (entity_in left_ids) w.library;
      right_count =
          count_where (λ entry. entity_in right_ids entry && not (entity_in left_ids entry))
            w.library;
      left_counted = refl;
      right_counted = refl;
      chosen = ok_injective h6;
    }

rank_gt_flip : (p q : SafetyRank) → rank_eq p q ≡ false → rank_gt p q ≡ not (rank_gt q p)
rank_gt_flip (a, a', a'') (b, b', b'') h = ground arith

rank_eq_flip : (p q : SafetyRank) → rank_eq p q ≡ rank_eq q p
rank_eq_flip (a, a', a'') (b, b', b'') = ground arith

rank_eq-gt : (p q : SafetyRank) → rank_eq p q ≡ true → rank_gt p q ≡ false
rank_eq-gt (a, a', a'') (b, b', b'') h = ground arith

rank_gt_asym : (p q : SafetyRank) → rank_gt p q ≡ true → rank_gt q p ≡ false
rank_gt_asym (a, a', a'') (b, b', b'') h = ground arith

is_older_flip : (a b : Entity) → (a.id == b.id) ≡ false → is_older a b ≡ not (is_older b a)
is_older_flip a b h = ground arith

-- A choice by three rules in turn, seen from both sides.
choice_flip :
    (e g g' x y o o' : Bool)
    → (e ≡ false → g ≡ not g')
    → o ≡ not o'
    → (if not e then g else if not (bool_eq x y) then x else o)
      ≡ not (if not e then g' else if not (bool_eq y x) then y else o')
choice_flip true g g' true true o o' h k = k
choice_flip true g g' true false o o' h k = refl
choice_flip true g g' false true o o' h k = refl
choice_flip true g g' false false o o' h k = k
choice_flip false g g' x y o o' h k = h refl

pub left_is_target_flip :
    (a b : Entity) (m n : ℕ)
    → (a.id == b.id) ≡ false
    → left_is_target a b m n ≡ not (left_is_target b a n m)
left_is_target_flip a b m n h =
    choice_flip (rank_eq (safety_rank a) (safety_rank b)) (rank_gt (safety_rank a) (safety_rank b))
      (rank_gt (safety_rank b) (safety_rank a)) (is_positive m) (is_positive n) (is_older a b)
      (is_older b a) (rank_gt_flip (safety_rank a) (safety_rank b)) (is_older_flip a b h)
    ∙ ap
        (λ e. not (
          if not e
          then rank_gt (safety_rank b) (safety_rank a)
          else if not (bool_eq (is_positive n) (is_positive m))
          then is_positive n
          else is_older b a))
        (rank_eq_flip (safety_rank a) (safety_rank b))

pub ordered-not : (flag : Bool) (a b : Entity) → ordered (not flag) a b ≡ ordered flag b a
ordered-not true a b = refl
ordered-not false a b = refl

-- The choice never puts the more restricted entity under the other.
ordered_safe :
    (flag : Bool) (a b : Entity)
    → (flag ≡ true → rank_gt (safety_rank b) (safety_rank a) ≡ false)
    → (flag ≡ false → rank_gt (safety_rank a) (safety_rank b) ≡ false)
    → rank_gt (safety_rank (ordered flag a b).0) (safety_rank (ordered flag a b).1) ≡ false
ordered_safe true a b h k = h refl
ordered_safe false a b h k = k refl

-- A choice goes against the safety ranks only where they are equal.
choice_safe :
    (e g g' t : Bool)
    → (e ≡ true → g ≡ false)
    → (e ≡ true → g' ≡ false)
    → (g ≡ true → g' ≡ false)
    → ((if not e then g else t) ≡ true → g' ≡ false)
      × ((if not e then g else t) ≡ false → g ≡ false)
choice_safe true g g' t h h' k = ((λ _. h' refl), (λ _. h refl))
choice_safe false g g' t h h' k = (k, (λ e. e))

left_is_target_safe :
    (a b : Entity) (m n : ℕ)
    → (left_is_target a b m n ≡ true → rank_gt (safety_rank b) (safety_rank a) ≡ false)
      × (left_is_target a b m n ≡ false → rank_gt (safety_rank a) (safety_rank b) ≡ false)
left_is_target_safe a b m n =
    choice_safe (rank_eq (safety_rank a) (safety_rank b)) (rank_gt (safety_rank a) (safety_rank b))
      (rank_gt (safety_rank b) (safety_rank a))
      (if not (bool_eq (is_positive m) (is_positive n)) then is_positive m else is_older a b)
      (rank_eq-gt (safety_rank a) (safety_rank b))
      (λ e.
        rank_eq-gt (safety_rank b) (safety_rank a)
          (rank_eq_flip (safety_rank b) (safety_rank a) ∙ e))
      (rank_gt_asym (safety_rank a) (safety_rank b))

-- The pair that is chosen passes the first three checks of `merge`: two different entities of one
-- kind, of which the source has no higher rank of safety than the target.
pub canonical_pair-safe :
    (w : World) (l r : ℕ) (p : Entity × Entity)
    → canonical_pair w l r ≡ ok p
    → ((p.0.id == p.1.id) ≡ false)
      × (kind_eq p.0.kind p.1.kind ≡ true)
      × (rank_gt (safety_rank p.0) (safety_rank p.1) ≡ false)
canonical_pair-safe w l r p h =
    let c = canonical_pair-IsChosen w l r p h in
    subst
      (λ (q : Entity × Entity).
        ((q.0.id == q.1.id) ≡ false)
        × (kind_eq q.0.kind q.1.kind ≡ true)
        × (rank_gt (safety_rank q.0) (safety_rank q.1) ≡ false))
      c.chosen
      (go (left_is_target c.left c.right c.left_count c.right_count) c.left c.right
        (left_is_target_safe c.left c.right c.left_count c.right_count) c.differ c.same_kind)
  where
    go :
        (flag : Bool) (a b : Entity)
        → (flag ≡ true → rank_gt (safety_rank b) (safety_rank a) ≡ false)
          × (flag ≡ false → rank_gt (safety_rank a) (safety_rank b) ≡ false)
        → (a.id == b.id) ≡ false
        → kind_eq a.kind b.kind ≡ true
        → (((ordered flag a b).0.id == (ordered flag a b).1.id) ≡ false)
          × (kind_eq (ordered flag a b).0.kind (ordered flag a b).1.kind ≡ true)
          × (rank_gt (safety_rank (ordered flag a b).0) (safety_rank (ordered flag a b).1) ≡ false)
    go true a b s d k = (ground (arith, d), ground (arith, k), s.0 refl)
    go false a b s d k = (d, k, s.1 refl)
