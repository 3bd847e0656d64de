-- ===== src/Community/Interactions/Kept.antt =====
-- The counters of reactions under `react` and `unreact`.
use noshiro_db_backend.Base.{
  ℕ, ◌+◌, ◌≤◌, ◌≡◌, refl, sym, ap, ◌∙◌, inl, inr, Bool, false, ◌==◌, not, List, [], ◌∷◌, ◌++◌,
  exists_where, select_where, count_where, arith, Bool-cases, All, count-append, count-select_part,
  count-select_apart, count-select_le, exists_count,
}
use mathlib.Core.Path.{fun_ext, subst}
use noshiro_db_backend.Base.Result.{ok, ok_injective, >>=-eq-ok, raise_if-eq-ok}
use noshiro_db_backend.Community.Model.{
  TargetType, Target, Reaction, NotificationType, Tables, Failure,
}
use noshiro_db_backend.Community.Targets.{target_eq, get_target_or_raise, reaction_targets}
use noshiro_db_backend.Community.Notifications.{create_notification}
use noshiro_db_backend.Community.Interactions.{
  same_reaction, bump_reaction_count, drop_reaction_count, add_reaction, remove_reaction, react_to,
  react, unreact,
}
use noshiro_db_backend.Community.Interactions.Counts.{
  is_on, PostIsCounted, CommentIsCounted, IsCounted, count-added, same_reaction_alike,
  same_reaction-is_on, the_target, one_if, AreCounted, bump-AreCounted, drop-AreCounted,
}

-- Nobody has reacted twice after a new reaction.
once-added :
    (rs : List Reaction) (r : Reaction)
    → exists_where (λ x. same_reaction x r) rs ≡ false
    → ((y : Reaction) → count_where (λ x. same_reaction x y) rs ≤ 1)
    → (y : Reaction) → count_where (λ x. same_reaction x y) (rs ++ r ∷ []) ≤ 1
once-added rs r new once y = elim (Bool-cases (same_reaction r y)) [
  | inr other ↦ ground (arith, other, once y, count-append (λ x. same_reaction x y) rs (r ∷ []))
  | inl same ↦
      let alike : count_where (λ x. same_reaction x y) rs
          ≡ count_where (λ x. same_reaction x r) rs =
        ap (λ p. count_where p rs) (fun_ext (λ x. same_reaction_alike x r y same)) in
      ground (
        arith,
        same,
        alike,
        new,
        exists_count (λ x. same_reaction x r) rs,
        count-append (λ x. same_reaction x y) rs (r ∷ []),
      )
]

-- A notification is in no counter.
notified-IsCounted :
    (new_id recipient actor : ℕ) (about : List Target) (w : Tables)
    → IsCounted w
    → IsCounted (create_notification new_id recipient actor NotificationType.reacted about w)
unfolding create_notification
notified-IsCounted new_id recipient actor about w v = elim (Bool-cases (recipient == actor)) [
  | inl own ↦ rw own v
  | inr other ↦ rw other (record { posts = v.posts; comments = v.comments; once = v.once })
]

-- A counter is not a reaction.
bump-reactions :
    (ty : TargetType) (k : ℕ) (w : Tables)
    → (bump_reaction_count (the_target ty k) w).reactions ≡ w.reactions
unfolding bump_reaction_count
bump-reactions TargetType.post_type k w = refl
bump-reactions TargetType.comment_type k w = refl
bump-reactions TargetType.review_type k w = refl
bump-reactions TargetType.collection_type k w = refl
bump-reactions TargetType.activity_type k w = refl
bump-reactions TargetType.other_type k w = refl

drop-reactions :
    (ty : TargetType) (k : ℕ) (w : Tables)
    → (drop_reaction_count (the_target ty k) w).reactions ≡ w.reactions
unfolding drop_reaction_count
drop-reactions TargetType.post_type k w = refl
drop-reactions TargetType.comment_type k w = refl
drop-reactions TargetType.review_type k w = refl
drop-reactions TargetType.collection_type k w = refl
drop-reactions TargetType.activity_type k w = refl
drop-reactions TargetType.other_type k w = refl

-- Right counters for the reactions that the tables have.
counted :
    (w : Tables) (rs : List Reaction)
    → w.reactions ≡ rs
    → AreCounted rs w
    → ((y : Reaction) → count_where (λ x. same_reaction x y) rs ≤ 1)
    → IsCounted w
counted w rs same all once = record {
  posts = subst (λ q. All (PostIsCounted q) w.posts) (sym same) all.0;
  comments = subst (λ q. All (CommentIsCounted q) w.comments) (sym same) all.1;
  once = subst (λ q. (y : Reaction) → count_where (λ x. same_reaction x y) q ≤ 1) (sym same) once;
}

added-IsCounted :
    (w : Tables) (r : Reaction)
    → IsCounted w
    → exists_where (λ x. same_reaction x r) w.reactions ≡ false
    → IsCounted (bump_reaction_count r.target (add_reaction w r))
added-IsCounted w r v new =
    counted (bump_reaction_count r.target (add_reaction w r)) (w.reactions ++ r ∷ [])
      (bump-reactions r.target.target_type r.target.target_id (add_reaction w r))
      (bump-AreCounted r.target.target_type r.target.target_id (add_reaction w r) w.reactions
        (λ t. count-added t w.reactions r) (v.posts, v.comments))
      (once-added w.reactions r new v.once)

-- What deleting a reaction takes from the reactions on a target.
count-removed :
    (t : Target) (rs : List Reaction) (r : Reaction)
    → count_where (λ x. same_reaction x r) rs ≡ 1
    → count_where (is_on t) (select_where (λ x. not (same_reaction x r)) rs)
        + one_if (target_eq r.target t)
      ≡ count_where (is_on t) rs
count-removed t rs r single = elim (Bool-cases (target_eq r.target t)) [
  | inl here ↦ ground (
    arith,
    here,
    single,
    count-select_part (is_on t) (λ x. same_reaction x r) rs
        (λ x h. same_reaction-is_on t x r h ∙ here),
  )
  | inr other ↦ ground (
    arith,
    other,
    count-select_apart (is_on t) (λ x. same_reaction x r) rs
        (λ x h. same_reaction-is_on t x r h ∙ other),
  )
]

removed-IsCounted :
    (w : Tables) (r : Reaction)
    → IsCounted w
    → (count_where (λ x. same_reaction x r) w.reactions == 0) ≡ false
    → IsCounted (drop_reaction_count r.target (remove_reaction w r))
removed-IsCounted w r v some_there =
    let rs = select_where (λ x. not (same_reaction x r)) w.reactions in
    let single : count_where (λ x. same_reaction x r) w.reactions ≡ 1 =
      ground (arith, some_there, v.once r) in
    counted (drop_reaction_count r.target (remove_reaction w r)) rs
      (drop-reactions r.target.target_type r.target.target_id (remove_reaction w r))
      (drop-AreCounted r.target.target_type r.target.target_id (remove_reaction w r) w.reactions
        (λ t. count-removed t w.reactions r single) (v.posts, v.comments))
      (λ y. omega (
        arith,
        v.once y,
        count-select_le (λ x. same_reaction x y) (λ x. not (same_reaction x r)) w.reactions,
      ))

react_to-IsCounted :
    (w : Tables) (r : Reaction) (owner new_id : ℕ)
    → IsCounted w
    → IsCounted (react_to w r owner new_id).1
unfolding react_to
react_to-IsCounted w r owner new_id v =
    elim (Bool-cases (exists_where (λ x. same_reaction x r) w.reactions)) [
      | inl there ↦ rw there v
      | inr new ↦ rw new (
          notified-IsCounted new_id owner r.user (r.target ∷ [])
            (bump_reaction_count r.target (add_reaction w r)) (added-IsCounted w r v new))
    ]

-- A reaction that is made, or found made already, keeps every counter of reactions right and every
-- reaction single.
pub react-IsCounted :
    (w : Tables) (r : Reaction) (new_id : ℕ) (res : Bool × Tables)
    → IsCounted w
    → react w r new_id ≡ ok res
    → IsCounted res.1
unfolding react
react-IsCounted w r new_id res v h =
    let (owner, found, done) =
      >>=-eq-ok
        (get_target_or_raise w r.target.target_type r.target.target_id reaction_targets r.user) _
        h in
    subst (λ (q : Bool × Tables). IsCounted q.1) (ok_injective done)
      (react_to-IsCounted w r owner new_id v)

-- Taking a reaction back keeps every counter of reactions right and every reaction single.
pub unreact-IsCounted :
    (w : Tables) (r : Reaction) (w' : Tables) → IsCounted w → unreact w r ≡ ok w' → IsCounted w'
unfolding unreact
unreact-IsCounted w r w' v h =
    let (owner, found, checked) =
      >>=-eq-ok
        (get_target_or_raise w r.target.target_type r.target.target_id reaction_targets r.user) _
        h in
    let (some_there, done) =
      raise_if-eq-ok (count_where (λ x. same_reaction x r) w.reactions == 0)
        Failure.reaction_not_found _ checked in
    subst IsCounted (ok_injective done) (removed-IsCounted w r v some_there)
