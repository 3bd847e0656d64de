-- ===== src/Community/Interactions/Undo.antt =====
-- Taking back a reaction that has just been made.
use noshiro_db_backend.Base.{
  ℕ, ◌≡◌, refl, sym, ap, ◌∙◌, inl, inr, Bool, true, false, ◌==◌, ◌&&◌, ltb, List, [], ◌∷◌, ◌++◌,
  exists_where, count_where, update_where, arith, Bool-cases, count-append, select-added,
  update-undone, first-update_same, ==_refl,
}
use mathlib.Core.Path.{subst}
use noshiro_db_backend.Base.Result.{ok, ok_injective, >>=-eq-ok}
use noshiro_db_backend.Community.Model.{
  TargetType, Target, Post, Comment, Reaction, Notification, NotificationType, Tables,
}
use noshiro_db_backend.Community.Targets.{
  get_public, get_target_or_raise, reaction_targets, is_public_post, is_public_comment, owner_of,
}
use noshiro_db_backend.Community.Notifications.{create_notification, new_notification}
use noshiro_db_backend.Community.Interactions.{
  same_reaction, bump_reaction_count, drop_reaction_count, add_reaction, remove_reaction, react_to,
  react, unreact, more_reactions_post, more_reactions_comment, fewer_reactions_post,
  fewer_reactions_comment,
}

abbrev the_target : TargetType → ℕ → Target
the_target ty k = record { target_type = ty; target_id = k }

-- The tables that a reaction reads or writes, but for the notifications.
abbrev pub SameContent : Tables → Tables → Type 0
SameContent w w' = (w'.posts ≡ w.posts) × (w'.comments ≡ w.comments) × (w'.reactions ≡ w.reactions)

posts_undone :
    (k : ℕ) (ps : List Post)
    → update_where
        (λ p. p.id == k && ltb 0 p.reaction_count)
        fewer_reactions_post
        (update_where (λ p. p.id == k) more_reactions_post ps)
      ≡ ps
posts_undone k ps =
    update-undone (λ p. p.id == k) (λ p. p.id == k && ltb 0 p.reaction_count) more_reactions_post
      fewer_reactions_post ps
      (λ p e. (ground (arith, e), ap (λ (n : ℕ). record p { reaction_count = n }) (omega arith)))
      (λ p e. ground (arith, e))

comments_undone :
    (k : ℕ) (cs : List Comment)
    → update_where
        (λ c. c.id == k && ltb 0 c.reaction_count)
        fewer_reactions_comment
        (update_where (λ c. c.id == k) more_reactions_comment cs)
      ≡ cs
comments_undone k cs =
    update-undone (λ c. c.id == k) (λ c. c.id == k && ltb 0 c.reaction_count) more_reactions_comment
      fewer_reactions_comment cs
      (λ c e. (ground (arith, e), ap (λ (n : ℕ). record c { reaction_count = n }) (omega arith)))
      (λ c e. ground (arith, e))

-- The counters are put back, whatever has become of the other tables.
undone-SameContent :
    (ty : TargetType) (k : ℕ) (w u : Tables) (rs : List Reaction)
    → u.posts ≡ (bump_reaction_count (the_target ty k) (record w { reactions = rs })).posts
    → u.comments ≡ (bump_reaction_count (the_target ty k) (record w { reactions = rs })).comments
    → u.reactions ≡ w.reactions
    → SameContent w (drop_reaction_count (the_target ty k) u)
unfolding bump_reaction_count drop_reaction_count
undone-SameContent TargetType.post_type k w u rs p c r = (rw p (posts_undone k w.posts), c, r)
undone-SameContent TargetType.comment_type k w u rs p c r =
    (p, rw c (comments_undone k w.comments), r)
undone-SameContent TargetType.review_type k w u rs p c r = (p, c, r)
undone-SameContent TargetType.collection_type k w u rs p c r = (p, c, r)
undone-SameContent TargetType.activity_type k w u rs p c r = (p, c, r)
undone-SameContent TargetType.other_type k w u rs p c r = (p, c, r)

-- Who owns what is public, and who blocks whom, does not depend on counters and reactions.
bumped :
    (ty : TargetType) (k : ℕ) (w : Tables) (rs : List Reaction)
    → (get_public (bump_reaction_count (the_target ty k) (record w { reactions = rs })) ty k
        ≡ get_public w ty k)
      × ((bump_reaction_count (the_target ty k) (record w { reactions = rs })).blocks ≡ w.blocks)
      × ((bump_reaction_count (the_target ty k) (record w { reactions = rs })).reactions ≡ rs)
unfolding get_public bump_reaction_count
bumped TargetType.post_type k w rs = (
  first-update_same (owner_of Post.author) (is_public_post k) (λ p. p.id == k) more_reactions_post
      w.posts (λ p. refl) (λ p. refl),
  refl,
  refl,
)
bumped TargetType.comment_type k w rs = (
  first-update_same (owner_of Comment.author) (is_public_comment k) (λ c. c.id == k)
      more_reactions_comment w.comments (λ c. refl) (λ c. refl),
  refl,
  refl,
)
bumped TargetType.review_type k w rs = (refl, refl, refl)
bumped TargetType.collection_type k w rs = (refl, refl, refl)
bumped TargetType.activity_type k w rs = (refl, refl, refl)
bumped TargetType.other_type k w rs = (refl, refl, refl)

-- What is public does not depend on notifications.
get_public-notified :
    (ty : TargetType) (k : ℕ) (w : Tables) (ns : List Notification)
    → get_public (record w { notifications = ns }) ty k ≡ get_public w ty k
unfolding get_public
get_public-notified TargetType.post_type k w ns = refl
get_public-notified TargetType.comment_type k w ns = refl
get_public-notified TargetType.review_type k w ns = refl
get_public-notified TargetType.collection_type k w ns = refl
get_public-notified TargetType.activity_type k w ns = refl
get_public-notified TargetType.other_type k w ns = refl

-- A notification is written in its own table only.
notified :
    (w : Tables) (new_id recipient actor : ℕ) (about : List Target)
    → (ns : List Notification) × (create_notification new_id recipient actor
          NotificationType.reacted about w
        ≡ record w { notifications = ns })
unfolding create_notification
notified w new_id recipient actor about = elim (Bool-cases (recipient == actor)) [
  | inl own ↦ (w.notifications, rw own refl)
  | inr other ↦ (
    w.notifications ++ new_notification new_id recipient actor NotificationType.reacted about ∷ [],
    rw other refl,
  )
]

get_target-same :
    (u w : Tables) (ty : TargetType) (k actor : ℕ) (allowed : TargetType → Bool)
    → get_public u ty k ≡ get_public w ty k
    → u.blocks ≡ w.blocks
    → get_target_or_raise u ty k allowed actor ≡ get_target_or_raise w ty k allowed actor
unfolding get_target_or_raise
get_target-same u w ty k actor allowed p b = rw (p, b) refl

-- A reaction that has been added, and what else its request has written, is taken back.
created_back :
    (w : Tables) (r : Reaction) (owner : ℕ) (ns : List Notification)
    → get_target_or_raise w r.target.target_type r.target.target_id reaction_targets r.user
      ≡ ok owner
    → exists_where (λ x. same_reaction x r) w.reactions ≡ false
    → (back : Tables) × (unreact
          (record (bump_reaction_count r.target (add_reaction w r)) { notifications = ns })
          r
        ≡ ok back)
      × SameContent w back
unfolding unreact
created_back w r owner ns found new =
    let ty = r.target.target_type in
    let k = r.target.target_id in
    let v = bump_reaction_count r.target (add_reaction w r) in
    let u : Tables = record v { notifications = ns } in
    let (public, blocks, reactions) = bumped ty k w (w.reactions ++ r ∷ []) in
    let target : get_target_or_raise u ty k reaction_targets r.user ≡ ok owner =
      get_target-same u w ty k r.user reaction_targets (get_public-notified ty k v ns ∙ public)
        blocks
      ∙ found in
    let self : same_reaction r r ≡ true = ground (arith, ==_refl r.user) in
    let there : (count_where (λ x. same_reaction x r) u.reactions == 0) ≡ false =
      rw reactions
        (ground (arith, self, count-append (λ x. same_reaction x r) w.reactions (r ∷ []))) in
    let gone : (remove_reaction u r).reactions ≡ w.reactions =
      rw reactions (select-added (λ x. same_reaction x r) w.reactions r new self) in
    (
      drop_reaction_count r.target (remove_reaction u r),
      rw (target, there) refl,
      undone-SameContent ty k w (remove_reaction u r) (w.reactions ++ r ∷ []) refl refl gone,
    )

-- A request that has created a reaction has found its target, and has written it and a notification.
react_created :
    (w : Tables) (r : Reaction) (owner new_id : ℕ) (w' : Tables)
    → react_to w r owner new_id ≡ (true, w')
    → (exists_where (λ x. same_reaction x r) w.reactions ≡ false)
      × (ns : List Notification) × (record (bump_reaction_count r.target (add_reaction w r)) {
        notifications = ns;
      }
          ≡ w')
unfolding react_to
react_created w r owner new_id w' h =
    elim (Bool-cases (exists_where (λ x. same_reaction x r) w.reactions)) [
      | inl there ↦ absurd (ground (arith, h, there))
      | inr new ↦
          let (ns, written) =
            notified (bump_reaction_count r.target (add_reaction w r)) new_id owner r.user
              (r.target ∷ []) in
          (new, ns, sym written ∙ ap (λ (q : Bool × Tables). q.1) (rw new at h))
    ]

-- A reaction that was created can be taken back; the posts and comments with their counters and the
-- reactions are then what they were before it.
pub unreact-react :
    (w : Tables) (r : Reaction) (new_id : ℕ) (w' : Tables)
    → react w r new_id ≡ ok (true, w')
    → (back : Tables) × (unreact w' r ≡ ok back) × SameContent w back
unfolding react
unreact-react w r new_id w' h =
    let (owner, found, done) =
      >>=-eq-ok
        (get_target_or_raise w r.target.target_type r.target.target_id reaction_targets r.user) _
        h in
    let (new, ns, written) = react_created w r owner new_id w' (ok_injective done) in
    subst (λ u. (back : Tables) × (unreact u r ≡ ok back) × SameContent w back) written
      (created_back w r owner ns found new)
