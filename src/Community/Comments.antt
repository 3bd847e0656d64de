-- ===== src/Community/Comments.antt =====
-- Comments: src/apps/community/services/comment_service.py.
pub mod Replies
pub mod Edits
use noshiro_db_backend.Base.{
  ℕ, zero, suc, ◌+◌, Bool, true, false, ◌==◌, ◌&&◌, ◌||◌, not, List, [], ◌∷◌, ◌++◌, Option, none,
  some, if◌then◌else◌, get, exists_where, first_where, update_where,
}
use noshiro_db_backend.Base.Result.{Result, ok, err, ◌>>=◌, ◌>>◌, raise_if, get_or_raise}
use noshiro_db_backend.Community.Model.{
  Visibility, FeedPolicy, TargetType, Target, Post, Comment, Activity, NotificationType, Tables,
  Failure,
}
use noshiro_db_backend.Community.Targets.{
  target_eq, is_public_post, is_blocked_between, get_target_or_raise,
}
use noshiro_db_backend.Community.Notifications.{create_notification}

-- `COMMENT_TARGETS`
abbrev pub comment_targets : TargetType → Bool
comment_targets TargetType.post_type = true
comment_targets TargetType.review_type = true
comment_targets TargetType.collection_type = true
comment_targets TargetType.activity_type = true
comment_targets _ = false

-- The arguments of a request; keys that are given by the database are arguments beside it.
pub record Request : Type 0 where
  pub author : ℕ
  pub target : Target
  pub parent_id : Option ℕ
  pub visibility : Visibility

abbrev locked_row : Option Post → Bool
locked_row none = false
locked_row (some p) = p.is_locked

-- `getattr(target, "is_locked", False)`; of the targets only a post has the column.
abbrev pub is_locked_target : Tables → Target → Bool
is_locked_target w t = elim t.target_type [
  | TargetType.post_type ↦ locked_row (first_where (is_public_post t.target_id) w.posts)
  | TargetType.comment_type ↦ false
  | TargetType.review_type ↦ false
  | TargetType.collection_type ↦ false
  | TargetType.activity_type ↦ false
  | TargetType.other_type ↦ false
]

abbrev pub is_closed : Comment → Bool
is_closed c = c.is_locked || c.is_hidden

abbrev is_parent : Target → ℕ → Comment → Bool
is_parent t k c = c.id == k && target_eq c.target t

abbrev check_parent : Tables → ℕ → Comment → Result Failure (Option Comment)
check_parent w author parent = do
  raise_if (is_closed parent) Failure.target_locked
  raise_if (not (parent.author == author) && is_blocked_between w.blocks author parent.author)
      Failure.interaction_blocked
  ok (some parent)

-- The parent that is asked for; 0 is as good as none.
unfoldable pub find_parent : Tables → Request → Option ℕ → Result Failure (Option Comment)
find_parent w q none = ok none
find_parent w q (some zero) = ok none
find_parent w q (some (suc n)) = do
  parent ←
      get_or_raise Failure.comment_not_found (first_where (is_parent q.target (suc n)) w.comments)
  check_parent w q.author parent

abbrev pub parent_key : Option Comment → Option ℕ
parent_key none = none
parent_key (some c) = some c.id

abbrev pub new_comment : ℕ → Request → Option Comment → Comment
new_comment id q parent = record {
  id = id;
  author = q.author;
  target = q.target;
  parent = parent_key parent;
  visibility = q.visibility;
  is_hidden = false;
  is_locked = false;
  reply_count = 0;
  reaction_count = 0;
}

abbrev pub more_replies_post : Post → Post
more_replies_post p = record p { reply_count = p.reply_count + 1 }

abbrev pub more_replies_comment : Comment → Comment
more_replies_comment c = record c { reply_count = c.reply_count + 1 }

-- `_bump_target_reply_count`; the time of the last activity is left out.
unfoldable pub bump_posts : Target → List Post → List Post
bump_posts t posts = elim t.target_type [
  | TargetType.post_type ↦ update_where (λ p. p.id == t.target_id) more_replies_post posts
  | TargetType.comment_type ↦ posts
  | TargetType.review_type ↦ posts
  | TargetType.collection_type ↦ posts
  | TargetType.activity_type ↦ posts
  | TargetType.other_type ↦ posts
]

-- The counter of the parent, where there is one.
unfoldable pub bump_parent : Option Comment → List Comment → List Comment
bump_parent none comments = comments
bump_parent (some parent) comments =
    update_where (λ c. c.id == parent.id) more_replies_comment comments

-- The activity that tells of the comment. What it refers to is public, as the target is.
abbrev pub comment_activity : ℕ → ℕ → Request → Activity
comment_activity activity_id id q = record {
  id = activity_id;
  user = q.author;
  visibility = q.visibility;
  feed_policy = FeedPolicy.normal;
  links_are_public = true;
  comment = some id;
}

abbrev pub the_comment : ℕ → Target
the_comment k = record { target_type = TargetType.comment_type; target_id = k }

abbrev pub the_activity : ℕ → Target
the_activity k = record { target_type = TargetType.activity_type; target_id = k }

-- `_notification_kwargs`
abbrev pub notification_target : Target → List Target
notification_target t = elim t.target_type [
  | TargetType.post_type ↦ t ∷ []
  | TargetType.comment_type ↦ []
  | TargetType.review_type ↦ t ∷ []
  | TargetType.collection_type ↦ t ∷ []
  | TargetType.activity_type ↦ []
  | TargetType.other_type ↦ []
]

abbrev pub recipient_of : Option Comment → ℕ → ℕ
recipient_of none owner = owner
recipient_of (some parent) owner = parent.author

-- The keys of the rows that are made.
pub record NewKeys : Type 0 where
  pub comment : ℕ
  pub activity : ℕ
  pub notification : ℕ

-- `create_comment` from the parent on.
unfoldable pub write_comment : Tables → Request → Option Comment → ℕ → NewKeys → Tables
unfolding bump_posts bump_parent create_notification
write_comment w q parent owner keys =
    create_notification keys.notification (recipient_of parent owner) q.author
      NotificationType.commented
      (the_activity keys.activity ∷ the_comment keys.comment ∷ notification_target q.target)
      (record w {
        posts = bump_posts q.target w.posts;
        comments = bump_parent parent (w.comments ++ new_comment keys.comment q parent ∷ []);
        activities = w.activities ++ comment_activity keys.activity keys.comment q ∷ [];
      })

-- `create_comment`: the tables.
unfoldable pub create_comment : Tables → Request → NewKeys → Result Failure Tables
unfolding get_target_or_raise find_parent write_comment
create_comment w q keys = do
  owner ← get_target_or_raise w q.target.target_type q.target.target_id comment_targets q.author
  raise_if (is_locked_target w q.target) Failure.target_locked
  parent ← find_parent w q q.parent_id
  ok (write_comment w q parent owner keys)

-- `_get_my_comment_or_raise`
abbrev pub get_my_comment_or_raise : Tables → ℕ → ℕ → Result Failure Comment
get_my_comment_or_raise w author comment_id = do
  comment ← get_or_raise Failure.comment_not_found (get Comment.id comment_id w.comments)
  raise_if (not (comment.author == author)) Failure.permission_denied
  ok comment

abbrev pub write_row : ℕ → (Comment → Comment) → Tables → Tables
write_row k f w = record w { comments = update_where (λ c. c.id == k) f w.comments }

-- `update_comment` of the visibility, where the request has one; texts are left out.
unfoldable pub update_comment : Tables → ℕ → ℕ → Option Visibility → Result Failure Tables
update_comment w author comment_id given = do
  comment ← get_my_comment_or_raise w author comment_id
  raise_if (is_closed comment) Failure.target_locked
  ok (elim given [ none ↦ w | some v ↦ write_row comment.id (λ c. record c { visibility = v }) w ])

abbrev tells_of : ℕ → Activity → Bool
tells_of k a = elim a.comment [ none ↦ false | some c ↦ c == k ]

-- `Activity.objects.filter(comment=comment).update(feed_policy=HIDDEN)`
abbrev hide_activities : ℕ → Tables → Tables
hide_activities k w = record w {
  activities =
      update_where (tells_of k) (λ a. record a { feed_policy = FeedPolicy.hidden }) w.activities;
}

unfoldable pub hide_comment : Tables → ℕ → Result Failure Tables
hide_comment w k = do
  comment ← get_or_raise Failure.does_not_exist (get Comment.id k w.comments)
  ok (hide_activities comment.id (write_row comment.id (λ c. record c { is_hidden = true }) w))

unfoldable pub lock_comment : Tables → ℕ → Result Failure Tables
lock_comment w k = do
  comment ← get_or_raise Failure.does_not_exist (get Comment.id k w.comments)
  ok (write_row comment.id (λ c. record c { is_locked = true }) w)
