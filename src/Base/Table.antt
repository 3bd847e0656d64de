-- ===== src/Base/Table.antt =====
-- A database table as a list of rows with a numeric primary key, and what Django's query sets do
-- with it: `filter(…).update(…)`, `.count()`, `.exists()`, `.first()`.
use Prim.Native.Nat.{ℕ, ◌+◌}
use mathlib.Core.Path.{◌≡◌, refl, sym, ap, ◌∙◌, subst}
use mathlib.Core.Logic.{◌≢◌, inl, inr}
use mathlib.Core.Bool.{Bool, true, false, ◌&&◌, ◌||◌}
use mathlib.Core.Option.{Option, none, some}
use mathlib.Core.List.{List, [], ◌∷◌, ◌++◌}
use native.Mathlib.Omega.{arith}
use noshiro_db_backend.Base.Tests.{◌==◌, ltb, if◌then◌else◌, Bool-cases, ==_iff, ==_refl}
use noshiro_db_backend.Base.Lists.{length, All}

module _ {A : Type 0} where
  -- `filter(p).update(f)`, the rows afterwards.
  abbrev pub update_where : (A → Bool) → (A → A) → List A → List A
  update_where p f [] = []
  update_where p f (r ∷ t) = (if p r then f r else r) ∷ update_where p f t

  -- `filter(p).count()`
  abbrev pub count_where : (A → Bool) → List A → ℕ
  count_where p [] = 0
  count_where p (r ∷ t) = (if p r then 1 else 0) + count_where p t

  -- `filter(p).exists()`
  abbrev pub exists_where : (A → Bool) → List A → Bool
  exists_where p [] = false
  exists_where p (r ∷ t) = p r || exists_where p t

  -- `filter(p)`
  abbrev pub select_where : (A → Bool) → List A → List A
  select_where p [] = []
  select_where p (r ∷ t) = let rest = select_where p t in if p r then r ∷ rest else rest

  -- `filter(p).first()`
  abbrev pub first_where : (A → Bool) → List A → Option A
  first_where p [] = none
  first_where p (r ∷ t) = if p r then some r else first_where p t

  exists-eq-count : (p : A → Bool) (t : List A) → exists_where p t ≡ false → count_where p t ≡ 0
  exists-eq-count p [] h = refl
  exists-eq-count p (r ∷ t) h = ground (arith, exists-eq-count p t)

  count-zero_exists : (p : A → Bool) (t : List A) → count_where p t ≡ 0 → exists_where p t ≡ false
  count-zero_exists p [] h = refl
  count-zero_exists p (r ∷ t) h = ground (arith, count-zero_exists p t)

  pub exists_count : (p : A → Bool) (t : List A) → exists_where p t ≡ ltb 0 (count_where p t)
  exists_count p [] = refl
  exists_count p (r ∷ t) = ground (arith, exists_count p t)

  length-select : (p : A → Bool) (t : List A) → length (select_where p t) ≡ count_where p t
  length-select p [] = refl
  length-select p (r ∷ t) = ground (arith, length-select p t)

  pub count-append :
      (p : A → Bool) (s t : List A) → count_where p (s ++ t) ≡ count_where p s + count_where p t
  count-append p [] t = omega arith
  count-append p (r ∷ s) t = omega (arith, count-append p s t)

  -- An update that keeps a test keeps the count.
  pub count-update_same :
      (q p : A → Bool) (f : A → A) (t : List A)
      → ((r : A) → p r ≡ true → q (f r) ≡ q r)
      → count_where q (update_where p f t) ≡ count_where q t
  count-update_same q p f [] h = refl
  count-update_same q p f (r ∷ t) h = ground (arith, h r, count-update_same q p f t h)

module _ {A : Type 0} (key : A → ℕ) where
  -- The row with a key.
  abbrev pub get : ℕ → List A → Option A
  get k [] = none
  get k (r ∷ t) = if key r == k then some r else get k t

  -- Primary keys are unique.
  abbrev pub IsKeyed : List A → Type 0
  IsKeyed [] = Unit
  IsKeyed (r ∷ t) = (get (key r) t ≡ none) × IsKeyed t

  -- `filter(pk=k, p)`
  abbrev pub at_key : ℕ → (A → Bool) → A → Bool
  at_key k p r = key r == k && p r

  pub count-at_absent :
      (k : ℕ) (p : A → Bool) (t : List A) → get k t ≡ none → count_where (at_key k p) t ≡ 0
  count-at_absent k p [] h = refl
  count-at_absent k p (r ∷ t) h = ground (arith, count-at_absent k p t)

  pub update-at_absent :
      (k : ℕ) (p : A → Bool) (f : A → A) (t : List A)
      → get k t ≡ none
      → update_where (at_key k p) f t ≡ t
  update-at_absent k p f [] h = refl
  update-at_absent k p f (r ∷ t) h = ground (arith, update-at_absent k p f t)

  pub count-at :
      (k : ℕ) (p : A → Bool) (t : List A) (r : A)
      → IsKeyed t
      → get k t ≡ some r
      → count_where (at_key k p) t ≡ (if p r then 1 else 0)
  count-at k p [] r u h = cc
  count-at k p (x ∷ t) r u h = ground (arith, count-at k p t r u.1, count-at_absent k p t)

  -- A write that its filter refuses changes no row.
  pub update-at_refused :
      (k : ℕ) (p : A → Bool) (f : A → A) (t : List A) (r : A)
      → IsKeyed t
      → get k t ≡ some r
      → p r ≡ false
      → update_where (at_key k p) f t ≡ t
  update-at_refused k p f [] r u h e = refl
  update-at_refused k p f (x ∷ t) r u h e =
      ground (arith, update-at_refused k p f t r u.1, update-at_absent k p f t)

  -- What a guarded single-row write does to the row, where the write keeps the key.
  pub get-update_self :
      (k : ℕ) (p : A → Bool) (f : A → A) (t : List A) (r : A)
      → ((x : A) → key (f x) ≡ key x)
      → get k t ≡ some r
      → get k (update_where (at_key k p) f t) ≡ some (if p r then f r else r)
  get-update_self k p f [] r keep h = cc
  get-update_self k p f (x ∷ t) r keep h = ground (arith, keep x, get-update_self k p f t r keep)

  pub get-update_ne :
      (j k : ℕ) (p : A → Bool) (f : A → A) (t : List A)
      → ((x : A) → key (f x) ≡ key x)
      → j ≢ k
      → get j (update_where (at_key k p) f t) ≡ get j t
  get-update_ne j k p f [] keep ne = refl
  get-update_ne j k p f (x ∷ t) keep ne = ground (arith, keep x, get-update_ne j k p f t keep ne)

  get-update_absent :
      (j : ℕ) (q : A → Bool) (f : A → A) (t : List A)
      → ((x : A) → key (f x) ≡ key x)
      → get j t ≡ none
      → get j (update_where q f t) ≡ none
  get-update_absent j q f [] keep h = refl
  get-update_absent j q f (x ∷ t) keep h = ground (arith, keep x, get-update_absent j q f t keep)

  pub IsKeyed-update :
      (q : A → Bool) (f : A → A) (t : List A)
      → ((x : A) → key (f x) ≡ key x)
      → IsKeyed t
      → IsKeyed (update_where q f t)
  IsKeyed-update q f [] keep u = tt
  IsKeyed-update q f (x ∷ t) keep u =
      ground (arith, keep x, get-update_absent (key x) q f t keep, IsKeyed-update q f t keep)

  -- The first row with a key has that key.
  pub key-get : (k : ℕ) (t : List A) (r : A) → get k t ≡ some r → key r ≡ k
  key-get k [] r h = cc
  key-get k (x ∷ t) r h = ground (arith, key-get k t r)

-- A write that keeps a property of rows keeps it of the table.
pub All-update {κ} :
    {A : Type 0} (P : A → Type κ) (q : A → Bool) (f : A → A) (t : List A)
    → ((r : A) → q r ≡ true → P r → P (f r))
    → All P t
    → All P (update_where q f t)
All-update P q f [] keep h = h
All-update P q f (r ∷ t) keep h = elim (Bool-cases (q r)) [
  | inl e ↦ rw e (keep r e h.0, All-update P q f t keep h.1)
  | inr e ↦ rw e (h.0, All-update P q f t keep h.1)
]

All-get {κ} :
    {A : Type 0} (P : A → Type κ) (key : A → ℕ) (k : ℕ) (t : List A) (r : A)
    → All P t
    → get key k t ≡ some r
    → P r
All-get P key k [] r h e = absurd (cc)
All-get P key k (x ∷ t) r h e = elim (Bool-cases (key x == k)) [
  | inl q ↦ let same : x ≡ r = ground arith in subst P same h.0
  | inr q ↦ All-get P key k t r h.1 (ground arith)
]

-- A row that is added under a fresh key is found under it.
pub get-last :
    {A : Type 0} (key : A → ℕ) (k : ℕ) (t : List A) (x : A)
    → get key k t ≡ none
    → key x ≡ k
    → get key k (t ++ x ∷ []) ≡ some x
get-last key k [] x h e = ground (arith, e)
get-last key k (y ∷ t) x h e = ground (arith, e, get-last key k t x)

-- The first row that passes a test is the row with its key.
pub first_where-get :
    {A : Type 0} (key : A → ℕ) (p : A → Bool) (t : List A) (r : A)
    → IsKeyed key t
    → first_where p t ≡ some r
    → (get key (key r) t ≡ some r) × (p r ≡ true)
first_where-get key p [] r u h = absurd (cc)
first_where-get key p (x ∷ t) r u h = elim (Bool-cases (p x)) [
  | inl here ↦
      let same : x ≡ r = ground (arith, here, h) in
      (
        subst (λ y. get key (key y) (x ∷ t) ≡ some y) same (ground (arith, ==_refl (key x))),
        subst (λ y. p y ≡ true) same here,
      )
  | inr other ↦
      let rest = first_where-get key p t r u.1 (ground (arith, other, h)) in
      (
        elim (Bool-cases (key x == key r)) [
          | inl same ↦
              let at : key r ≡ key x = sym ((==_iff (key x) (key r)).0 same) in
              let absent : get key (key r) t ≡ none = ap (λ (k : ℕ). get key k t) at ∙ u.0 in
              absurd (cc (absent, rest.0))
          | inr differ ↦ rw differ rest.0
        ],
        rest.1,
      )
]
