-- ===== src/Community/Interactions/Counts.antt =====
-- The counters of reactions beside posts and comments, and what moves them.
use noshiro_db_backend.Base.{
  ℕ, ◌+◌, ◌≤◌, ◌≡◌, refl, sym, ◌∙◌, Bool, true, false, ◌==◌, ◌&&◌, ltb, List, [], ◌∷◌, ◌++◌,
  if◌then◌else◌, count_where, arith, All, All-map, All-rewrite, count-append,
}
use noshiro_db_backend.Community.Model.{TargetType, Target, Post, Comment, Reaction, Tables}
use noshiro_db_backend.Community.Targets.{target_eq}
use noshiro_db_backend.Community.Interactions.{
  same_reaction, bump_reaction_count, drop_reaction_count, more_reactions_post,
  more_reactions_comment, fewer_reactions_post, fewer_reactions_comment,
}

abbrev pub is_on : Target → Reaction → Bool
is_on t r = target_eq r.target t

abbrev the_post : ℕ → Target
the_post k = record { target_type = TargetType.post_type; target_id = k }

abbrev pub the_comment : ℕ → Target
the_comment k = record { target_type = TargetType.comment_type; target_id = k }

abbrev pub PostIsCounted : List Reaction → Post → Type 0
PostIsCounted rs p = p.reaction_count ≡ count_where (is_on (the_post p.id)) rs

abbrev pub CommentIsCounted : List Reaction → Comment → Type 0
CommentIsCounted rs c = c.reaction_count ≡ count_where (is_on (the_comment c.id)) rs

-- Every counter is right, and nobody reacts twice in one way to one target.
pub record IsCounted (w : Tables) : Type 0 where
  pub posts : All (PostIsCounted w.reactions) w.posts
  pub comments : All (CommentIsCounted w.reactions) w.comments
  pub once : (r : Reaction) → count_where (λ x. same_reaction x r) w.reactions ≤ 1

-- A reaction more, seen from any target.
pub count-added :
    (t : Target) (rs : List Reaction) (r : Reaction)
    → count_where (is_on t) (rs ++ r ∷ [])
      ≡ count_where (is_on t) rs + (if target_eq r.target t then 1 else 0)
count-added t rs r = ground (arith, count-append (is_on t) rs (r ∷ []))

-- Comparing with either of two equal reactions gives the same.
pub same_reaction_alike :
    (x r y : Reaction) → same_reaction r y ≡ true → same_reaction x y ≡ same_reaction x r
same_reaction_alike x r y h = ground (arith, h)

-- A reaction that compares equal to one is on the same target.
pub same_reaction-is_on :
    (t : Target) (x r : Reaction) → same_reaction x r ≡ true → is_on t x ≡ target_eq r.target t
same_reaction-is_on t x r h = ground (arith, h)

abbrev pub the_target : TargetType → ℕ → Target
the_target ty k = record { target_type = ty; target_id = k }

abbrev pub one_if : Bool → ℕ
one_if b = if b then 1 else 0

-- All counters of posts and of comments.
abbrev pub AreCounted : List Reaction → Tables → Type 0
AreCounted rs w = All (PostIsCounted rs) w.posts × All (CommentIsCounted rs) w.comments

-- Counters that no reaction moves.
posts_same :
    (rs rs' : List Reaction) (ps : List Post)
    → ((k : ℕ) → count_where (is_on (the_post k)) rs' ≡ count_where (is_on (the_post k)) rs)
    → All (PostIsCounted rs) ps
    → All (PostIsCounted rs') ps
posts_same rs rs' ps same =
    All-map (PostIsCounted rs) (PostIsCounted rs') ps (λ p h. h ∙ sym (same p.id))

comments_same :
    (rs rs' : List Reaction) (cs : List Comment)
    → ((k : ℕ) → count_where (is_on (the_comment k)) rs' ≡ count_where (is_on (the_comment k)) rs)
    → All (CommentIsCounted rs) cs
    → All (CommentIsCounted rs') cs
comments_same rs rs' cs same =
    All-map (CommentIsCounted rs) (CommentIsCounted rs') cs (λ c h. h ∙ sym (same c.id))

-- Counters after the reactions have changed on a target that has none.
uncounted :
    (ty : TargetType) (k : ℕ) (w : Tables) (rs rs' : List Reaction)
    → ((t : Target)
        → target_eq (the_target ty k) t ≡ false
        → count_where (is_on t) rs' ≡ count_where (is_on t) rs)
    → ((j : ℕ) → target_eq (the_target ty k) (the_post j) ≡ false)
    → ((j : ℕ) → target_eq (the_target ty k) (the_comment j) ≡ false)
    → AreCounted rs w
    → AreCounted rs' w
uncounted ty k w rs rs' same no_post no_comment (ps, cs) = (
  posts_same rs rs' w.posts (λ j. same (the_post j) (no_post j)) ps,
  comments_same rs rs' w.comments (λ j. same (the_comment j) (no_comment j)) cs,
)

-- The counters after the reactions have become one more on a target.
pub bump-AreCounted :
    (ty : TargetType) (k : ℕ) (w : Tables) (rs : List Reaction)
    → ((t : Target)
        → count_where (is_on t) w.reactions
          ≡ count_where (is_on t) rs + one_if (target_eq (the_target ty k) t))
    → AreCounted rs w
    → AreCounted w.reactions (bump_reaction_count (the_target ty k) w)
unfolding bump_reaction_count
bump-AreCounted TargetType.post_type k w rs counts (ps, cs) = (
  All-rewrite (PostIsCounted rs) (PostIsCounted w.reactions) (λ p. p.id == k) more_reactions_post
      w.posts (λ p e h. ground (arith, counts (the_post p.id), e, h))
      (λ p e h. ground (arith, counts (the_post p.id), e, h)) ps,
  comments_same rs w.reactions w.comments (λ j. ground (arith, counts (the_comment j))) cs,
)
bump-AreCounted TargetType.comment_type k w rs counts (ps, cs) = (
  posts_same rs w.reactions w.posts (λ j. ground (arith, counts (the_post j))) ps,
  All-rewrite (CommentIsCounted rs) (CommentIsCounted w.reactions) (λ c. c.id == k)
      more_reactions_comment w.comments (λ c e h. ground (arith, counts (the_comment c.id), e, h))
      (λ c e h. ground (arith, counts (the_comment c.id), e, h)) cs,
)
bump-AreCounted TargetType.review_type k w rs counts old =
    uncounted TargetType.review_type k w rs w.reactions (λ t e. ground (arith, counts t, e))
      (λ j. refl) (λ j. refl) old
bump-AreCounted TargetType.collection_type k w rs counts old =
    uncounted TargetType.collection_type k w rs w.reactions (λ t e. ground (arith, counts t, e))
      (λ j. refl) (λ j. refl) old
bump-AreCounted TargetType.activity_type k w rs counts old =
    uncounted TargetType.activity_type k w rs w.reactions (λ t e. ground (arith, counts t, e))
      (λ j. refl) (λ j. refl) old
bump-AreCounted TargetType.other_type k w rs counts old =
    uncounted TargetType.other_type k w rs w.reactions (λ t e. ground (arith, counts t, e))
      (λ j. refl) (λ j. refl) old

-- The counters after the reactions have become one fewer on a target.
pub drop-AreCounted :
    (ty : TargetType) (k : ℕ) (w : Tables) (rs : List Reaction)
    → ((t : Target)
        → count_where (is_on t) w.reactions + one_if (target_eq (the_target ty k) t)
          ≡ count_where (is_on t) rs)
    → AreCounted rs w
    → AreCounted w.reactions (drop_reaction_count (the_target ty k) w)
unfolding drop_reaction_count
drop-AreCounted TargetType.post_type k w rs counts (ps, cs) = (
  All-rewrite (PostIsCounted rs) (PostIsCounted w.reactions)
      (λ p. p.id == k && ltb 0 p.reaction_count) fewer_reactions_post w.posts
      (λ p e h. ground (arith, counts (the_post p.id), e, h))
      (λ p e h. ground (arith, counts (the_post p.id), e, h)) ps,
  comments_same rs w.reactions w.comments (λ j. ground (arith, counts (the_comment j))) cs,
)
drop-AreCounted TargetType.comment_type k w rs counts (ps, cs) = (
  posts_same rs w.reactions w.posts (λ j. ground (arith, counts (the_post j))) ps,
  All-rewrite (CommentIsCounted rs) (CommentIsCounted w.reactions)
      (λ c. c.id == k && ltb 0 c.reaction_count) fewer_reactions_comment w.comments
      (λ c e h. ground (arith, counts (the_comment c.id), e, h))
      (λ c e h. ground (arith, counts (the_comment c.id), e, h)) cs,
)
drop-AreCounted TargetType.review_type k w rs counts old =
    uncounted TargetType.review_type k w rs w.reactions (λ t e. ground (arith, counts t, e))
      (λ j. refl) (λ j. refl) old
drop-AreCounted TargetType.collection_type k w rs counts old =
    uncounted TargetType.collection_type k w rs w.reactions (λ t e. ground (arith, counts t, e))
      (λ j. refl) (λ j. refl) old
drop-AreCounted TargetType.activity_type k w rs counts old =
    uncounted TargetType.activity_type k w rs w.reactions (λ t e. ground (arith, counts t, e))
      (λ j. refl) (λ j. refl) old
drop-AreCounted TargetType.other_type k w rs counts old =
    uncounted TargetType.other_type k w rs w.reactions (λ t e. ground (arith, counts t, e))
      (λ j. refl) (λ j. refl) old
