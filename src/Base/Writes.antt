-- ===== src/Base/Writes.antt =====
-- Deletes and writes of several rows: what they leave of a count, and when one takes another back.
use Prim.Native.Nat.{◌+◌, ◌≤◌}
use mathlib.Core.Path.{◌≡◌, refl}
use mathlib.Core.Logic.{inl, inr}
use mathlib.Core.Bool.{Bool, true, false, not}
use mathlib.Core.Option.{Option, some}
use mathlib.Core.List.{List, [], ◌∷◌, ◌++◌}
use native.Mathlib.Omega.{arith}
use noshiro_db_backend.Base.Tests.{if◌then◌else◌, Bool-cases}
use noshiro_db_backend.Base.Lists.{All}
use noshiro_db_backend.Base.Table.{
  update_where, count_where, exists_where, select_where, first_where,
}

module _ {A : Type 0} where
  -- What is left of a count when rows that pass it are deleted, and when none of them does.
  pub count-select_part :
      (q p : A → Bool) (t : List A)
      → ((r : A) → p r ≡ true → q r ≡ true)
      → count_where q (select_where (λ r. not (p r)) t) + count_where p t ≡ count_where q t
  count-select_part q p [] h = refl
  count-select_part q p (r ∷ t) h = ground (arith, h r, count-select_part q p t h)

  pub count-select_apart :
      (q p : A → Bool) (t : List A)
      → ((r : A) → p r ≡ true → q r ≡ false)
      → count_where q (select_where (λ r. not (p r)) t) ≡ count_where q t
  count-select_apart q p [] h = refl
  count-select_apart q p (r ∷ t) h = ground (arith, h r, count-select_apart q p t h)

  pub count-select_le :
      (q p : A → Bool) (t : List A) → count_where q (select_where p t) ≤ count_where q t
  count-select_le q p [] = omega arith
  count-select_le q p (r ∷ t) = ground (arith, count-select_le q p t)

  -- Deleting the one row that has been added, and taking a write back.
  pub select-added :
      (p : A → Bool) (t : List A) (r : A)
      → exists_where p t ≡ false
      → p r ≡ true
      → select_where (λ x. not (p x)) (t ++ r ∷ []) ≡ t
  select-added p [] r h e = rw e refl
  select-added p (x ∷ t) r h e = ground (arith, select-added p t r, h, e)

  pub update-undone :
      (q q' : A → Bool) (f g : A → A) (t : List A)
      → ((r : A) → q r ≡ true → (q' (f r) ≡ true) × (g (f r) ≡ r))
      → ((r : A) → q r ≡ false → q' r ≡ false)
      → update_where q' g (update_where q f t) ≡ t
  update-undone q q' f g [] on off = refl
  update-undone q q' f g (r ∷ t) on off = elim (Bool-cases (q r)) [
    | inl e ↦ let (hit, back) = on r e in rw (e, hit, back, update-undone q q' f g t on off) refl
    | inr e ↦ rw (e, off r e, update-undone q q' f g t on off) refl
  ]

  -- A write after which no row passes its test leaves nothing for a second one.
  pub update-again :
      (q : A → Bool) (f g : A → A) (t : List A)
      → ((r : A) → q (f r) ≡ false)
      → (count_where q (update_where q f t) ≡ 0)
        × (update_where q g (update_where q f t) ≡ update_where q f t)
  update-again q f g [] done = (refl, refl)
  update-again q f g (r ∷ t) done =
      let (none_left, unchanged) = update-again q f g t done in
      let row : A = if q r then f r else r in
      let passed : q row ≡ false = elim (Bool-cases (q r)) [
        | inl e ↦ rw e (done r)
        | inr e ↦ rw e e
      ] in
      (rw (passed, none_left) refl, rw (passed, unchanged) refl)

  -- What is read of the first row that passes a test, where a write keeps both.
  pub first-update_same :
      {B : Type 0} (read : Option A → B) (p q : A → Bool) (f : A → A) (t : List A)
      → ((r : A) → p (f r) ≡ p r)
      → ((r : A) → read (some (f r)) ≡ read (some r))
      → read (first_where p (update_where q f t)) ≡ read (first_where p t)
  first-update_same read p q f [] keep same = refl
  first-update_same read p q f (r ∷ t) keep same =
      let rest = first-update_same read p q f t keep same in
      elim (Bool-cases (q r)) [
        | inr e ↦ elim (Bool-cases (p r)) [ inl h ↦ rw (e, h) refl | inr h ↦ rw (e, h) rest ]
        | inl e ↦ elim (Bool-cases (p r)) [
          | inl h ↦ rw (e, keep r, h) (same r)
          | inr h ↦ rw (e, keep r, h) rest
        ]
      ]

-- A write that turns one property of rows into another where it writes, as it stands elsewhere.
pub All-rewrite {κ ι} :
    {A : Type 0} (P : A → Type κ) (Q : A → Type ι) (q : A → Bool) (f : A → A) (t : List A)
    → ((r : A) → q r ≡ true → P r → Q (f r))
    → ((r : A) → q r ≡ false → P r → Q r)
    → All P t
    → All Q (update_where q f t)
All-rewrite P Q q f [] on off h = tt
All-rewrite P Q q f (r ∷ t) on off h = elim (Bool-cases (q r)) [
  | inl e ↦ rw e (on r e h.0, All-rewrite P Q q f t on off h.1)
  | inr e ↦ rw e (off r e h.0, All-rewrite P Q q f t on off h.1)
]
