-- ===== src/Community/Comments/Replies.antt =====
-- The counters of replies: of a post, its comments, and of a comment, the replies to it.
use noshiro_db_backend.Base.{
  ℕ, ◌+◌, ◌≡◌, refl, sym, ◌∙◌, inl, inr, Bool, false, ◌==◌, List, [], ◌∷◌, ◌++◌, Option, none, some,
  if◌then◌else◌, count_where, arith, Bool-cases, All, All-map, All-rewrite, count-append,
  count-update_same,
}
use mathlib.Core.Path.{subst}
use noshiro_db_backend.Base.Result.{ok, ok_injective, >>=-eq-ok, raise_if-eq-ok}
use noshiro_db_backend.Community.Model.{
  TargetType, Target, Post, Comment, NotificationType, Tables, Failure,
}
use noshiro_db_backend.Community.Targets.{target_eq, get_target_or_raise}
use noshiro_db_backend.Community.Notifications.{create_notification}
use noshiro_db_backend.Community.Comments.{
  Request, NewKeys, comment_targets, is_locked_target, find_parent, new_comment, parent_key,
  bump_posts, bump_parent, more_replies_post, more_replies_comment, write_comment, create_comment,
  recipient_of, the_activity, the_comment, notification_target, comment_activity,
}

-- A comment on a post, and a reply to a comment.
abbrev pub is_on_post : ℕ → Comment → Bool
is_on_post k c = target_eq c.target (record { target_type = TargetType.post_type; target_id = k })

abbrev is_key : ℕ → Option ℕ → Bool
is_key k none = false
is_key k (some p) = p == k

abbrev pub is_reply_to : ℕ → Comment → Bool
is_reply_to k c = is_key k c.parent

abbrev pub PostReplies : List Comment → Post → Type 0
PostReplies cs p = p.reply_count ≡ count_where (is_on_post p.id) cs

abbrev pub CommentReplies : List Comment → Comment → Type 0
CommentReplies cs c = c.reply_count ≡ count_where (is_reply_to c.id) cs

pub record RepliesAreCounted (w : Tables) : Type 0 where
  pub posts : All (PostReplies w.comments) w.posts
  pub comments : All (CommentReplies w.comments) w.comments

All-append :
    {A : Type 0} (P : A → Type 0) (xs : List A) (x : A) → All P xs → P x → All P (xs ++ x ∷ [])
All-append P [] x h k = (k, tt)
All-append P (y ∷ xs) x h k = (h.0, All-append P xs x h.1 k)

-- The counters of posts after one comment more.
bump_posts-counted :
    (ty : TargetType) (k : ℕ) (cs cs' : List Comment) (ps : List Post)
    → ((j : ℕ)
        → count_where (is_on_post j) cs'
          ≡ count_where (is_on_post j) cs
            + (if target_eq
                  (record { target_type = ty; target_id = k })
                  (record { target_type = TargetType.post_type; target_id = j })
                then 1
                else 0))
    → All (PostReplies cs) ps
    → All (PostReplies cs') (bump_posts (record { target_type = ty; target_id = k }) ps)
unfolding bump_posts
bump_posts-counted TargetType.post_type k cs cs' ps counts h =
    All-rewrite (PostReplies cs) (PostReplies cs') (λ p. p.id == k) more_replies_post ps
      (λ p e hp. ground (arith, counts p.id, e, hp)) (λ p e hp. ground (arith, counts p.id, e, hp))
      h
bump_posts-counted TargetType.comment_type k cs cs' ps counts h =
    All-map (PostReplies cs) (PostReplies cs') ps (λ p hp. ground (arith, counts p.id, hp)) h
bump_posts-counted TargetType.review_type k cs cs' ps counts h =
    All-map (PostReplies cs) (PostReplies cs') ps (λ p hp. ground (arith, counts p.id, hp)) h
bump_posts-counted TargetType.collection_type k cs cs' ps counts h =
    All-map (PostReplies cs) (PostReplies cs') ps (λ p hp. ground (arith, counts p.id, hp)) h
bump_posts-counted TargetType.activity_type k cs cs' ps counts h =
    All-map (PostReplies cs) (PostReplies cs') ps (λ p hp. ground (arith, counts p.id, hp)) h
bump_posts-counted TargetType.other_type k cs cs' ps counts h =
    All-map (PostReplies cs) (PostReplies cs') ps (λ p hp. ground (arith, counts p.id, hp)) h

-- The counter of a parent is not read by the tests that the counters go by.
bump_parent-count :
    (q : Comment → Bool) (parent : Option Comment) (cs : List Comment)
    → ((c : Comment) → q (more_replies_comment c) ≡ q c)
    → count_where q (bump_parent parent cs) ≡ count_where q cs
unfolding bump_parent
bump_parent-count q none cs h = refl
bump_parent-count q (some p) cs h =
    count-update_same q (λ c. c.id == p.id) more_replies_comment cs (λ c _. h c)

-- The counters of comments after a reply to the parent, if there is one.
bump_parent-counted :
    (parent : Option Comment) (cs cs' : List Comment) (rows : List Comment)
    → ((j : ℕ)
        → count_where (is_reply_to j) cs'
          ≡ count_where (is_reply_to j) cs + (if is_key j (parent_key parent) then 1 else 0))
    → All (CommentReplies cs) rows
    → All (CommentReplies cs') (bump_parent parent rows)
unfolding bump_parent
bump_parent-counted none cs cs' rows counts h =
    All-map (CommentReplies cs) (CommentReplies cs') rows (λ c hc. ground (arith, counts c.id, hc))
      h
bump_parent-counted (some p) cs cs' rows counts h =
    All-rewrite (CommentReplies cs) (CommentReplies cs') (λ c. c.id == p.id) more_replies_comment
      rows (λ c e hc. ground (arith, counts c.id, e, hc))
      (λ c e hc. ground (arith, counts c.id, e, hc)) h

notified-RepliesAreCounted :
    (new_id recipient actor : ℕ) (about : List Target) (w : Tables)
    → RepliesAreCounted w
    → RepliesAreCounted
        (create_notification new_id recipient actor NotificationType.commented about w)
unfolding create_notification
notified-RepliesAreCounted new_id recipient actor about w v =
    elim (Bool-cases (recipient == actor)) [
      | inl own ↦ rw own v
      | inr other ↦ rw other (record { posts = v.posts; comments = v.comments })
    ]

write_comment-RepliesAreCounted :
    (w : Tables) (q : Request) (parent : Option Comment) (owner : ℕ) (keys : NewKeys)
    → RepliesAreCounted w
    → count_where (is_reply_to keys.comment) w.comments ≡ 0
    → RepliesAreCounted (write_comment w q parent owner keys)
unfolding write_comment
write_comment-RepliesAreCounted w q parent owner keys v fresh =
    let new = new_comment keys.comment q parent in
    let old = w.comments ++ new ∷ [] in
    let cs = bump_parent parent old in
    let posts : (j : ℕ)
        → count_where (is_on_post j) cs
          ≡ count_where (is_on_post j) w.comments + (if is_on_post j new then 1 else 0) =
      λ j.
        bump_parent-count (is_on_post j) parent old (λ c. refl)
        ∙ ground (arith, count-append (is_on_post j) w.comments (new ∷ [])) in
    let replies : (j : ℕ)
        → count_where (is_reply_to j) cs
          ≡ count_where (is_reply_to j) w.comments
            + (if is_key j (parent_key parent) then 1 else 0) =
      λ j.
        bump_parent-count (is_reply_to j) parent old (λ c. refl)
        ∙ ground (arith, count-append (is_reply_to j) w.comments (new ∷ [])) in
    notified-RepliesAreCounted keys.notification (recipient_of parent owner) q.author
      (the_activity keys.activity ∷ the_comment keys.comment ∷ notification_target q.target)
      (record w {
        posts = bump_posts q.target w.posts;
        comments = cs;
        activities = w.activities ++ comment_activity keys.activity keys.comment q ∷ [];
      })
      (record {
        posts =
            bump_posts-counted q.target.target_type q.target.target_id w.comments cs w.posts posts
              v.posts;
        comments =
            bump_parent-counted parent w.comments cs old replies
              (All-append (CommentReplies w.comments) w.comments new v.comments (sym fresh));
      })

-- Where no row refers to the key that a new comment gets, a comment that is made keeps the counters of
-- replies right: of its post, and of the comment that it replies to.
pub create_comment-RepliesAreCounted :
    (w : Tables) (q : Request) (keys : NewKeys) (w' : Tables)
    → RepliesAreCounted w
    → count_where (is_reply_to keys.comment) w.comments ≡ 0
    → create_comment w q keys ≡ ok w'
    → RepliesAreCounted w'
unfolding create_comment
create_comment-RepliesAreCounted w q keys w' v fresh h =
    let (owner, found, checked) =
      >>=-eq-ok
        (get_target_or_raise w q.target.target_type q.target.target_id comment_targets q.author) _
        h in
    let (open_target, parented) =
      raise_if-eq-ok (is_locked_target w q.target) Failure.target_locked _ checked in
    let (parent, asked, done) = >>=-eq-ok (find_parent w q q.parent_id) _ parented in
    subst RepliesAreCounted (ok_injective done)
      (write_comment-RepliesAreCounted w q parent owner keys v fresh)
