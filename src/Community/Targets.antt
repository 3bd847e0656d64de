-- ===== src/Community/Targets.antt =====
-- What may be worked on, and by whom: src/apps/community/selectors/target_selector.py, and
-- `is_blocked_between` of relationship_selector.py beside it.
use noshiro_db_backend.Base.{
  ℕ, Bool, true, false, ◌==◌, ◌&&◌, ◌||◌, not, List, Option, none, some, exists_where, first_where,
}
use noshiro_db_backend.Base.Result.{Result, ok, ◌>>=◌, ◌>>◌, raise_if, get_or_raise}
use noshiro_db_backend.Community.Model.{
  Visibility, FeedPolicy, TargetType, Target, Post, Comment, Review, Collection, Activity,
  UserBlock, Tables, Failure,
}

abbrev type_number : TargetType → ℕ
type_number TargetType.post_type = 0
type_number TargetType.comment_type = 1
type_number TargetType.review_type = 2
type_number TargetType.collection_type = 3
type_number TargetType.activity_type = 4
type_number TargetType.other_type = 5

-- `filter(**{target_type: target})`
abbrev pub target_eq : Target → Target → Bool
target_eq a b = type_number a.target_type == type_number b.target_type && a.target_id == b.target_id

abbrev is_everyone : Visibility → Bool
is_everyone Visibility.everyone = true
is_everyone _ = false

abbrev is_hidden_policy : FeedPolicy → Bool
is_hidden_policy FeedPolicy.hidden = true
is_hidden_policy _ = false

-- `REACTION_TARGETS`, as `x in REACTION_TARGETS`; REPORT_TARGETS are the same.
abbrev pub reaction_targets : TargetType → Bool
reaction_targets TargetType.other_type = false
reaction_targets _ = true

abbrev pub bookmark_targets : TargetType → Bool
bookmark_targets TargetType.post_type = true
bookmark_targets TargetType.review_type = true
bookmark_targets TargetType.collection_type = true
bookmark_targets _ = false

abbrev pub is_public_post : ℕ → Post → Bool
is_public_post k p = p.id == k && (is_everyone p.visibility && not (is_hidden_policy p.feed_policy))

abbrev pub is_public_comment : ℕ → Comment → Bool
is_public_comment k c = c.id == k && (is_everyone c.visibility && not c.is_hidden)

abbrev is_public_review : ℕ → Review → Bool
is_public_review k r = r.id == k && (r.is_public && (r.subject_is_public && r.has_entity))

abbrev is_public_collection : ℕ → Collection → Bool
is_public_collection k c = c.id == k && c.is_public

-- `public_visibility_filter` of the activity selector.
abbrev is_public_activity : ℕ → Activity → Bool
is_public_activity k a =
    a.id == k
    && (is_everyone a.visibility && (not (is_hidden_policy a.feed_policy) && a.links_are_public))

-- `owner_for_target` of the row that is found.
abbrev pub owner_of : {A : Type 0} → (A → ℕ) → Option A → Option ℕ
owner_of owner none = none
owner_of owner (some row) = some (owner row)

-- `getters[target_type](target_id)`, as the owner of the row.
unfoldable pub get_public : Tables → TargetType → ℕ → Option ℕ
get_public w TargetType.post_type k = owner_of Post.author (first_where (is_public_post k) w.posts)
get_public w TargetType.comment_type k =
    owner_of Comment.author (first_where (is_public_comment k) w.comments)
get_public w TargetType.review_type k =
    owner_of Review.user (first_where (is_public_review k) w.reviews)
get_public w TargetType.collection_type k =
    owner_of Collection.user (first_where (is_public_collection k) w.collections)
get_public w TargetType.activity_type k =
    owner_of Activity.user (first_where (is_public_activity k) w.activities)
get_public w TargetType.other_type k = none

abbrev blocks_user : ℕ → ℕ → UserBlock → Bool
blocks_user user blocked b = b.user == user && b.blocked_user == blocked

abbrev pub is_blocked_between : List UserBlock → ℕ → ℕ → Bool
is_blocked_between blocks user target_user =
    exists_where (blocks_user user target_user) blocks
    || exists_where (blocks_user target_user user) blocks

-- `get_target_or_raise`, as the owner of the target; an actor is always given.
unfoldable pub get_target_or_raise :
    Tables → TargetType → ℕ → (TargetType → Bool) → ℕ → Result Failure ℕ
unfolding get_public
get_target_or_raise w target_type target_id allowed_targets actor = do
  raise_if (not (allowed_targets target_type)) Failure.target_invalid
  owner ← get_or_raise Failure.target_not_found (get_public w target_type target_id)
  raise_if (not (actor == owner) && is_blocked_between w.blocks actor owner)
      Failure.interaction_blocked
  ok owner
