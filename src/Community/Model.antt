-- ===== src/Community/Model.antt =====
-- The rows of src/apps/community/models and of the public content of src/apps/users/models, with the
-- columns that the services read or write, and the exceptions of src/apps/community/exceptions.py.
use noshiro_db_backend.Base.{ℕ, Bool, List, Option}

pub data Visibility : Type 0 where
  everyone : Visibility
  followers : Visibility
  nobody : Visibility

pub data FeedPolicy : Type 0 where
  hidden : FeedPolicy
  normal : FeedPolicy
  featured : FeedPolicy

-- What a service is asked to work on; `other_type` is any other text.
pub data TargetType : Type 0 where
  post_type : TargetType
  comment_type : TargetType
  review_type : TargetType
  collection_type : TargetType
  activity_type : TargetType
  other_type : TargetType

-- The one column that is set of those that refer to a target.
pub record Target : Type 0 where
  pub target_type : TargetType
  pub target_id : ℕ

pub record Post : Type 0 where
  pub id : ℕ
  pub author : ℕ
  pub visibility : Visibility
  pub feed_policy : FeedPolicy
  pub is_locked : Bool
  pub reply_count : ℕ
  pub reaction_count : ℕ

pub record Comment : Type 0 where
  pub id : ℕ
  pub author : ℕ
  pub target : Target
  pub parent : Option ℕ
  pub visibility : Visibility
  pub is_hidden : Bool
  pub is_locked : Bool
  pub reply_count : ℕ
  pub reaction_count : ℕ

-- With the library entry that it belongs to: its user, its flag, and whether it has an entity.
pub record Review : Type 0 where
  pub id : ℕ
  pub user : ℕ
  pub is_public : Bool
  pub subject_is_public : Bool
  pub has_entity : Bool

pub record Collection : Type 0 where
  pub id : ℕ
  pub user : ℕ
  pub is_public : Bool

-- `links_are_public`: whether the entries, reviews and collections that it refers to are public.
pub record Activity : Type 0 where
  pub id : ℕ
  pub user : ℕ
  pub visibility : Visibility
  pub feed_policy : FeedPolicy
  pub links_are_public : Bool
  pub comment : Option ℕ

pub data ReactionType : Type 0 where
  like : ReactionType
  useful : ReactionType
  agree : ReactionType

pub record Reaction : Type 0 where
  pub user : ℕ
  pub target : Target
  pub reaction_type : ReactionType

pub record Bookmark : Type 0 where
  pub user : ℕ
  pub target : Target

pub data NotificationType : Type 0 where
  followed : NotificationType
  commented : NotificationType
  reacted : NotificationType
  mentioned : NotificationType

-- What a notification is about: its columns that are set.
pub record Notification : Type 0 where
  pub id : ℕ
  pub recipient : ℕ
  pub actor : ℕ
  pub notification_type : NotificationType
  pub about : List Target
  pub read_at : Option ℕ

pub record UserBlock : Type 0 where
  pub user : ℕ
  pub blocked_user : ℕ

pub record Tables : Type 0 where
  pub posts : List Post
  pub comments : List Comment
  pub reviews : List Review
  pub collections : List Collection
  pub activities : List Activity
  pub reactions : List Reaction
  pub bookmarks : List Bookmark
  pub notifications : List Notification
  pub blocks : List UserBlock

pub data Failure : Type 0 where
  target_invalid : Failure
  target_not_found : Failure
  interaction_blocked : Failure
  target_locked : Failure
  comment_not_found : Failure
  permission_denied : Failure
  does_not_exist : Failure
  reaction_not_found : Failure
  bookmark_not_found : Failure
