-- ===== src/Community/Comments/Edits.antt =====
-- The counters of replies under writes of a comment.
use noshiro_db_backend.Base.{
  ℕ, ◌≡◌, refl, sym, ◌∙◌, true, ◌==◌, List, Option, none, some, get, count_where, update_where,
  All-map, All-update, count-update_same,
}
use mathlib.Core.Path.{subst}
use noshiro_db_backend.Base.Result.{ok, ok_injective, >>=-eq-ok, raise_if-eq-ok, get_or_raise}
use noshiro_db_backend.Community.Model.{Visibility, Comment, Tables, Failure}
use noshiro_db_backend.Community.Comments.{
  update_comment, hide_comment, lock_comment, write_row, get_my_comment_or_raise, is_closed,
}
use noshiro_db_backend.Community.Comments.Replies.{
  is_on_post, is_reply_to, PostReplies, CommentReplies, RepliesAreCounted,
}

-- A write of a row that keeps what the counters go by.
write_row-RepliesAreCounted :
    (k : ℕ) (f : Comment → Comment) (w : Tables)
    → ((j : ℕ) (c : Comment) → is_on_post j (f c) ≡ is_on_post j c)
    → ((j : ℕ) (c : Comment) → is_reply_to j (f c) ≡ is_reply_to j c)
    → ((cs : List Comment) (c : Comment) → CommentReplies cs c → CommentReplies cs (f c))
    → RepliesAreCounted w
    → RepliesAreCounted (write_row k f w)
write_row-RepliesAreCounted k f w on_post replies row v =
    let rows = update_where (λ c. c.id == k) f w.comments in
    let replies_kept : (j : ℕ)
        → count_where (is_reply_to j) rows ≡ count_where (is_reply_to j) w.comments =
      λ j. count-update_same (is_reply_to j) (λ c. c.id == k) f w.comments (λ c _. replies j c) in
    record {
      posts =
          All-map (PostReplies w.comments) (PostReplies rows) w.posts
            (λ p h.
              h
              ∙ sym (
                  count-update_same (is_on_post p.id) (λ c. c.id == k) f w.comments
                    (λ c _. on_post p.id c)))
            v.posts;
      comments =
          All-map (CommentReplies w.comments) (CommentReplies rows) rows
            (λ c h. h ∙ sym (replies_kept c.id))
            (All-update (CommentReplies w.comments) (λ c. c.id == k) f w.comments
              (λ c _. row w.comments c) v.comments);
    }

-- Hiding a comment and locking one keep the counters of replies right.
hide_comment-RepliesAreCounted :
    (w : Tables) (k : ℕ) (w' : Tables)
    → RepliesAreCounted w
    → hide_comment w k ≡ ok w'
    → RepliesAreCounted w'
unfolding hide_comment
hide_comment-RepliesAreCounted w k w' v h =
    let (comment, found, done) =
      >>=-eq-ok (get_or_raise Failure.does_not_exist (get Comment.id k w.comments)) _ h in
    let hidden =
      write_row-RepliesAreCounted comment.id (λ c. record c { is_hidden = true }) w (λ j c. refl)
        (λ j c. refl) (λ cs c h. h) v in
    subst RepliesAreCounted (ok_injective done)
      (record { posts = hidden.posts; comments = hidden.comments })

lock_comment-RepliesAreCounted :
    (w : Tables) (k : ℕ) (w' : Tables)
    → RepliesAreCounted w
    → lock_comment w k ≡ ok w'
    → RepliesAreCounted w'
unfolding lock_comment
lock_comment-RepliesAreCounted w k w' v h =
    let (comment, found, done) =
      >>=-eq-ok (get_or_raise Failure.does_not_exist (get Comment.id k w.comments)) _ h in
    subst RepliesAreCounted (ok_injective done) (
      write_row-RepliesAreCounted comment.id (λ c. record c { is_locked = true }) w (λ j c. refl)
        (λ j c. refl) (λ cs c h. h) v)

-- An update of a comment keeps the counters of replies right.
update_comment-RepliesAreCounted :
    (w : Tables) (author k : ℕ) (given : Option Visibility) (w' : Tables)
    → RepliesAreCounted w
    → update_comment w author k given ≡ ok w'
    → RepliesAreCounted w'
unfolding update_comment
update_comment-RepliesAreCounted w author k given w' v h =
    let (comment, found, checked) = >>=-eq-ok (get_my_comment_or_raise w author k) _ h in
    let (still_open, done) = raise_if-eq-ok (is_closed comment) Failure.target_locked _ checked in
    subst RepliesAreCounted (ok_injective done) (edited given comment.id)
  where
    edited :
        (given : Option Visibility) (k : ℕ)
        → RepliesAreCounted
            (elim given [ none ↦ w | some x ↦ write_row k (λ c. record c { visibility = x }) w ])
    edited none k = v
    edited (some x) k =
        write_row-RepliesAreCounted k (λ c. record c { visibility = x }) w (λ j c. refl)
          (λ j c. refl) (λ cs c h. h) v
