-- ===== src/Community/Interactions.antt =====
-- Reactions and bookmarks: src/apps/community/services/interaction_service.py.
pub mod Counts
pub mod Kept
pub mod Undo
use noshiro_db_backend.Base.{
  ℕ, ◌+◌, ◌-◌, Bool, true, false, ◌==◌, ◌&&◌, not, ltb, List, [], ◌∷◌, ◌++◌, Option, none, some,
  if◌then◌else◌, exists_where, select_where, count_where, update_where,
}
use noshiro_db_backend.Base.Result.{Result, ok, err, ◌>>=◌, ◌>>◌, raise_if}
use noshiro_db_backend.Community.Model.{
  TargetType, Target, Post, Comment, ReactionType, Reaction, Bookmark, NotificationType, Tables,
  Failure,
}
use noshiro_db_backend.Community.Targets.{
  target_eq, reaction_targets, bookmark_targets, get_target_or_raise,
}
use noshiro_db_backend.Community.Notifications.{create_notification}

abbrev reaction_number : ReactionType → ℕ
reaction_number ReactionType.like = 0
reaction_number ReactionType.useful = 1
reaction_number ReactionType.agree = 2

-- `filter(user=…, reaction_type=…, **{target_type: target})`
abbrev pub same_reaction : Reaction → Reaction → Bool
same_reaction a b =
    a.user == b.user
    && (target_eq a.target b.target
        && reaction_number a.reaction_type == reaction_number b.reaction_type)

abbrev same_bookmark : Bookmark → Bookmark → Bool
same_bookmark a b = a.user == b.user && target_eq a.target b.target

abbrev pub more_reactions_post : Post → Post
more_reactions_post p = record p { reaction_count = p.reaction_count + 1 }

abbrev pub more_reactions_comment : Comment → Comment
more_reactions_comment c = record c { reaction_count = c.reaction_count + 1 }

abbrev pub fewer_reactions_post : Post → Post
fewer_reactions_post p = record p { reaction_count = p.reaction_count - 1 }

abbrev pub fewer_reactions_comment : Comment → Comment
fewer_reactions_comment c = record c { reaction_count = c.reaction_count - 1 }

-- `_bump_reaction_count(delta=1)`
unfoldable pub bump_reaction_count : Target → Tables → Tables
bump_reaction_count t w = elim t.target_type [
  | TargetType.post_type ↦ record w {
    posts = update_where (λ p. p.id == t.target_id) more_reactions_post w.posts;
  }
  | TargetType.comment_type ↦ record w {
    comments = update_where (λ c. c.id == t.target_id) more_reactions_comment w.comments;
  }
  | TargetType.review_type ↦ w
  | TargetType.collection_type ↦ w
  | TargetType.activity_type ↦ w
  | TargetType.other_type ↦ w
]

-- `_bump_reaction_count(delta=-1)`
unfoldable pub drop_reaction_count : Target → Tables → Tables
drop_reaction_count t w = elim t.target_type [
  | TargetType.post_type ↦ record w {
    posts =
        update_where (λ p. p.id == t.target_id && ltb 0 p.reaction_count) fewer_reactions_post
          w.posts;
  }
  | TargetType.comment_type ↦ record w {
    comments =
        update_where (λ c. c.id == t.target_id && ltb 0 c.reaction_count) fewer_reactions_comment
          w.comments;
  }
  | TargetType.review_type ↦ w
  | TargetType.collection_type ↦ w
  | TargetType.activity_type ↦ w
  | TargetType.other_type ↦ w
]

abbrev pub add_reaction : Tables → Reaction → Tables
add_reaction w r = record w { reactions = w.reactions ++ r ∷ [] }

abbrev pub remove_reaction : Tables → Reaction → Tables
remove_reaction w r = record w {
  reactions = select_where (λ x. not (same_reaction x r)) w.reactions;
}

-- What `react` does once its target is found; the key of a notification is an argument.
unfoldable pub react_to : Tables → Reaction → ℕ → ℕ → Bool × Tables
unfolding bump_reaction_count create_notification
react_to w r owner new_id =
    if exists_where (λ x. same_reaction x r) w.reactions then (false, w) else (
      true,
      create_notification new_id owner r.user NotificationType.reacted (r.target ∷ [])
          (bump_reaction_count r.target (add_reaction w r)),
    )

-- `react`: whether a reaction was created, and the tables.
unfoldable pub react : Tables → Reaction → ℕ → Result Failure (Bool × Tables)
unfolding get_target_or_raise react_to
react w r new_id = do
  owner ← get_target_or_raise w r.target.target_type r.target.target_id reaction_targets r.user
  ok (react_to w r owner new_id)

unfoldable pub unreact : Tables → Reaction → Result Failure Tables
unfolding get_target_or_raise drop_reaction_count
unreact w r = do
  owner ← get_target_or_raise w r.target.target_type r.target.target_id reaction_targets r.user
  raise_if (count_where (λ x. same_reaction x r) w.reactions == 0) Failure.reaction_not_found
  ok (drop_reaction_count r.target (remove_reaction w r))

unfoldable bookmark : Tables → Bookmark → Result Failure (Bool × Tables)
unfolding get_target_or_raise
bookmark w b = do
  raise_if (not (bookmark_targets b.target.target_type)) Failure.target_invalid
  owner ← get_target_or_raise w b.target.target_type b.target.target_id bookmark_targets b.user
  ok (
      if exists_where (λ x. same_bookmark x b) w.bookmarks
      then (false, w)
      else (true, record w { bookmarks = w.bookmarks ++ b ∷ [] }))

unfoldable pub unbookmark : Tables → Bookmark → Result Failure Tables
unfolding get_target_or_raise
unbookmark w b = do
  raise_if (not (bookmark_targets b.target.target_type)) Failure.target_invalid
  owner ← get_target_or_raise w b.target.target_type b.target.target_id bookmark_targets b.user
  raise_if (count_where (λ x. same_bookmark x b) w.bookmarks == 0) Failure.bookmark_not_found
  ok (record w { bookmarks = select_where (λ x. not (same_bookmark x b)) w.bookmarks })
