-- ===== src/Community/Tests.antt =====
-- Runs of the community's operations on small tables, and the theorems at such inputs.
use noshiro_db_backend.Base.{
  Option, none, some, ℕ, ◌≡◌, refl, inl, true, false, [], ◌∷◌, none, some, arith,
}
use noshiro_db_backend.Base.Result.{ok, err}
use noshiro_db_backend.Community.Model.{
  Visibility, FeedPolicy, TargetType, Target, Post, Comment, ReactionType, Reaction,
  NotificationType, Notification, Tables, Failure,
}
use noshiro_db_backend.Community.Targets.{get_target_or_raise, get_public}
use noshiro_db_backend.Community.Notifications.{mark_read, create_notification}
use noshiro_db_backend.Community.Notifications.Read.{AgreesOn, mark_read-agrees}
use noshiro_db_backend.Community.Interactions.{
  react, unreact, react_to, bump_reaction_count, drop_reaction_count, unbookmark,
}
use noshiro_db_backend.Community.Interactions.Counts.{IsCounted}
use noshiro_db_backend.Community.Interactions.Kept.{react-IsCounted, unreact-IsCounted}
use noshiro_db_backend.Community.Comments.{
  Request, NewKeys, create_comment, write_comment, find_parent, bump_posts, bump_parent,
}
use noshiro_db_backend.Community.Comments.Replies.{
  RepliesAreCounted, create_comment-RepliesAreCounted,
}
use noshiro_db_backend.Community.Interactions.Undo.{SameContent, unreact-react}

abbrev post_target : Target
post_target = record { target_type = TargetType.post_type; target_id = 5 }

abbrev post_row : ℕ → Post
post_row reaction_count = record {
  id = 5;
  author = 1;
  visibility = Visibility.everyone;
  feed_policy = FeedPolicy.normal;
  is_locked = false;
  reply_count = 0;
  reaction_count = reaction_count;
}

abbrev like_of : ℕ → Reaction
like_of user = record { user = user; target = post_target; reaction_type = ReactionType.like }

-- A post that one user likes; another user blocks its author.
abbrev liked : Tables
liked = record {
  posts = post_row 1 ∷ [];
  comments = [];
  reviews = [];
  collections = [];
  activities = [];
  reactions = like_of 2 ∷ [];
  bookmarks = [];
  notifications = [];
  blocks = record { user = 4; blocked_user = 1 } ∷ [];
}

abbrev notice : Notification
notice = record {
  id = 70;
  recipient = 1;
  actor = 3;
  notification_type = NotificationType.reacted;
  about = post_target ∷ [];
  read_at = none;
}

abbrev liked_twice : Tables
liked_twice = record liked {
  posts = post_row 2 ∷ [];
  reactions = like_of 2 ∷ like_of 3 ∷ [];
  notifications = notice ∷ [];
}

another_likes : react liked (like_of 3) 70 ≡ ok (true, liked_twice)
unfolding react react_to get_target_or_raise get_public bump_reaction_count create_notification
another_likes = refl

likes_again : react liked (like_of 2) 70 ≡ ok (false, liked)
unfolding react react_to get_target_or_raise get_public
likes_again = refl

blocked_likes : react liked (like_of 4) 70 ≡ err Failure.interaction_blocked
unfolding react get_target_or_raise get_public
blocked_likes = refl

not_liked : unreact liked (like_of 3) ≡ err Failure.reaction_not_found
unfolding unreact get_target_or_raise get_public
not_liked = refl

no_bookmark :
    unbookmark liked (record { user = 2; target = post_target }) ≡ err Failure.bookmark_not_found
unfolding unbookmark get_target_or_raise get_public
no_bookmark = refl

liked-IsCounted : IsCounted liked
liked-IsCounted = record { posts = (refl, tt); comments = tt; once = λ r. ground arith }

react-IsCounted_example : IsCounted liked_twice
react-IsCounted_example =
    react-IsCounted liked (like_of 3) 70 (true, liked_twice) liked-IsCounted another_likes

abbrev unliked : Tables
unliked = record liked { posts = post_row 0 ∷ []; reactions = [] }

takes_back : unreact liked (like_of 2) ≡ ok unliked
unfolding unreact get_target_or_raise get_public drop_reaction_count
takes_back = refl

unreact-IsCounted_example : IsCounted unliked
unreact-IsCounted_example = unreact-IsCounted liked (like_of 2) unliked liked-IsCounted takes_back

unreact-react_example :
    (back : Tables) × (unreact liked_twice (like_of 3) ≡ ok back) × SameContent liked back
unreact-react_example = unreact-react liked (like_of 3) 70 liked_twice another_likes

mark_read-agrees_example :
    AgreesOn notice
      (record notice { read_at = some 40 })
      40
      (mark_read
        (record liked { notifications = record notice { read_at = some 40 } ∷ [] })
        notice
        90)
mark_read-agrees_example =
    mark_read-agrees (record liked { notifications = record notice { read_at = some 40 } ∷ [] })
      notice (record notice { read_at = some 40 }) 90 (refl, tt) refl (inl refl)

abbrev request : Option ℕ → Request
request parent_id = record {
  author = 3;
  target = post_target;
  parent_id = parent_id;
  visibility = Visibility.everyone;
}

abbrev comment_row : ℕ → ℕ → Option ℕ → ℕ → Comment
comment_row id author parent reply_count = record {
  id = id;
  author = author;
  target = post_target;
  parent = parent;
  visibility = Visibility.everyone;
  is_hidden = false;
  is_locked = false;
  reply_count = reply_count;
  reaction_count = 0;
}

-- The post with one comment, to which the user replies.
abbrev discussed : Tables
discussed = record liked {
  posts = record (post_row 1) { reply_count = 1 } ∷ [];
  comments = comment_row 8 2 none 0 ∷ [];
}

abbrev new_keys : NewKeys
new_keys = record { comment = 9; activity = 30; notification = 70 }

abbrev answered : Tables
answered = record discussed {
  posts = record (post_row 1) { reply_count = 2 } ∷ [];
  comments = comment_row 8 2 none 1 ∷ comment_row 9 3 (some 8) 0 ∷ [];
  activities =
      record {
        id = 30;
        user = 3;
        visibility = Visibility.everyone;
        feed_policy = FeedPolicy.normal;
        links_are_public = true;
        comment = some 9;
      }
      ∷ [];
  notifications =
      record {
        id = 70;
        recipient = 2;
        actor = 3;
        notification_type = NotificationType.commented;
        about =
            record { target_type = TargetType.activity_type; target_id = 30 }
            ∷ record { target_type = TargetType.comment_type; target_id = 9 }
            ∷ post_target
            ∷ [];
        read_at = none;
      }
      ∷ [];
}

replies : create_comment discussed (request (some 8)) new_keys ≡ ok answered
unfolding create_comment find_parent write_comment bump_posts bump_parent create_notification
    get_target_or_raise get_public
replies = refl

no_parent : create_comment discussed (request (some 7)) new_keys ≡ err Failure.comment_not_found
unfolding create_comment find_parent get_target_or_raise get_public
no_parent = refl

create_comment-RepliesAreCounted_example : RepliesAreCounted answered
create_comment-RepliesAreCounted_example =
    create_comment-RepliesAreCounted discussed (request (some 8)) new_keys answered
      (record { posts = (refl, tt); comments = (refl, tt) }) refl replies
