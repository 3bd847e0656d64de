-- ===== src/Base/Guarded.antt =====
-- `filter(pk=k, p).update(f)` on a table: a guarded write of one row, and how it moves counts.
use Prim.Native.Nat.{ℕ, ◌+◌, ◌≤◌}
use mathlib.Core.Path.{◌≡◌, refl}
use mathlib.Core.Logic.{◌≢◌, inl, inr}
use mathlib.Core.Bool.{Bool, true, false}
use mathlib.Core.Option.{none, some}
use mathlib.Core.List.{List, [], ◌∷◌}
use native.Mathlib.Omega.{arith}
use noshiro_db_backend.Base.Tests.{◌==◌, if◌then◌else◌, Bool-cases, ==_iff, &&-left, &&-right}
use noshiro_db_backend.Base.Lists.{All}
use noshiro_db_backend.Base.Table.{
  update_where, count_where, first_where, count-update_same, get, IsKeyed, at_key, count-at_absent,
  update-at_absent, count-at, update-at_refused, get-update_self, get-update_ne, IsKeyed-update,
  All-update,
}

-- `filter(pk=k, p).update(f) == 1`: a compare-and-set of one row, and the table afterwards.
unfoldable pub update_one :
    {A : Type 0} → (A → ℕ) → ℕ → (A → Bool) → (A → A) → List A → Bool × List A
update_one key k p f t = (count_where (at_key key k p) t == 1, update_where (at_key key k p) f t)

module _ {A : Type 0} (key : A → ℕ) (k : ℕ) (p : A → Bool) (f : A → A) (t : List A) where
  pub update_one_refused :
      (r : A)
      → IsKeyed key t
      → get key k t ≡ some r
      → p r ≡ false
      → update_one key k p f t ≡ (false, t)
  unfolding update_one
  update_one_refused r u g e =
      ground (arith, count-at key k p t r u g, update-at_refused key k p f t r u g e)

  pub update_one_absent : get key k t ≡ none → update_one key k p f t ≡ (false, t)
  unfolding update_one
  update_one_absent g = ground (arith, count-at_absent key k p t g, update-at_absent key k p f t g)

  update_one_done :
      (r : A)
      → IsKeyed key t
      → get key k t ≡ some r
      → p r ≡ true
      → (update_one key k p f t).0 ≡ true
  unfolding update_one
  update_one_done r u g e = ground (arith, count-at key k p t r u g)

  -- The flag is the row's test.
  pub update_one_flag :
      (r : A) → IsKeyed key t → get key k t ≡ some r → (update_one key k p f t).0 ≡ p r
  unfolding update_one
  update_one_flag r u g = ground (arith, count-at key k p t r u g)

  pub get-update_one :
      (r : A)
      → ((x : A) → key (f x) ≡ key x)
      → get key k t ≡ some r
      → get key k (update_one key k p f t).1 ≡ some (if p r then f r else r)
  unfolding update_one
  get-update_one r keep g = get-update_self key k p f t r keep g

  pub get-update_one_ne :
      (j : ℕ)
      → ((x : A) → key (f x) ≡ key x)
      → j ≢ k
      → get key j (update_one key k p f t).1 ≡ get key j t
  unfolding update_one
  get-update_one_ne j keep ne = get-update_ne key j k p f t keep ne

  pub IsKeyed-update_one :
      ((x : A) → key (f x) ≡ key x) → IsKeyed key t → IsKeyed key (update_one key k p f t).1
  unfolding update_one
  IsKeyed-update_one keep u = IsKeyed-update key (at_key key k p) f t keep u

pub All-update_one {κ} :
    {A : Type 0} (P : A → Type κ) (key : A → ℕ) (k : ℕ) (p : A → Bool) (f : A → A) (t : List A)
    → ((r : A) → key r ≡ k → p r ≡ true → P r → P (f r))
    → All P t
    → All P (update_one key k p f t).1
unfolding update_one
All-update_one P key k p f t keep h =
    All-update P (at_key key k p) f t
      (λ r q hr.
        keep r ((==_iff (key r) k).0 (&&-left (key r == k) (p r) q)) (&&-right (key r == k) (p r) q)
          hr)
      h

pub count-update_one_same :
    {A : Type 0} (q : A → Bool) (key : A → ℕ) (k : ℕ) (p : A → Bool) (f : A → A) (t : List A)
    → ((r : A) → q (f r) ≡ q r)
    → count_where q (update_one key k p f t).1 ≡ count_where q t
unfolding update_one
count-update_one_same q key k p f t same = count-update_same q (at_key key k p) f t (λ r _. same r)

pub first_where-none_count :
    {A : Type 0} (p : A → Bool) (t : List A) → first_where p t ≡ none → count_where p t ≡ 0
first_where-none_count p [] h = refl
first_where-none_count p (r ∷ t) h = ground (arith, first_where-none_count p t)

-- How a single-row write moves a count.
pub count-update_one :
    {A : Type 0} (q : A → Bool) (key : A → ℕ) (k : ℕ) (p : A → Bool) (f : A → A) (t : List A)
    (r : A)
    → IsKeyed key t
    → get key k t ≡ some r
    → p r ≡ true
    → count_where q (update_one key k p f t).1 + (if q r then 1 else 0)
      ≡ count_where q t + (if q (f r) then 1 else 0)
unfolding update_one
count-update_one q key k p f [] r u g e = absurd (cc)
count-update_one q key k p f (x ∷ t) r u g e = elim (Bool-cases (key x == k)) [
  | inl same ↦
      let here : x ≡ r = ground arith in
      let absent : get key k t ≡ none = ground (arith, u.0) in
      rw (same, here, e, update-at_absent key k p f t absent) (omega arith)
  | inr other ↦
      let there : get key k t ≡ some r = ground arith in
      rw other (omega (arith, count-update_one q key k p f t r u.1 there e))
]

-- A single-row write moves a count by one at most.
pub count-update_one_le :
    {A : Type 0} (q : A → Bool) (key : A → ℕ) (k : ℕ) (p : A → Bool) (f : A → A) (t : List A)
    → IsKeyed key t
    → count_where q (update_one key k p f t).1 ≤ count_where q t + 1
unfolding update_one
count-update_one_le q key k p f [] u = omega arith
count-update_one_le q key k p f (x ∷ t) u = elim (Bool-cases (key x == k)) [
  | inl same ↦
      let here : key x ≡ k = (==_iff (key x) k).0 same in
      let absent : get key k t ≡ none = rw⁻¹ here u.0 in
      rw (same, update-at_absent key k p f t absent) (ground arith)
  | inr other ↦ rw other (ground (arith, count-update_one_le q key k p f t u.1))
]
