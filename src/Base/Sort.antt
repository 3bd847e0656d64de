-- ===== src/Base/Sort.antt =====
-- `order_by` of a query set: a stable sort of rows by a numeric column.
use Prim.Native.Nat.{ℕ, ◌≤◌, ◌<◌}
use mathlib.Core.Path.{◌≡◌, refl}
use mathlib.Core.Logic.{inl, inr}
use mathlib.Core.Bool.{Bool}
use mathlib.Core.List.{List, [], ◌∷◌, ◌++◌}
use native.Mathlib.Omega.{arith}
use noshiro_db_backend.Base.Tests.{leb, if◌then◌else◌, Bool-cases}
use noshiro_db_backend.Base.Lists.{All}
use noshiro_db_backend.Base.Table.{count_where}

module _ {A : Type 0} (key : A → ℕ) where
  abbrev insert_by : A → List A → List A
  insert_by x [] = x ∷ []
  insert_by x (y ∷ t) = if leb (key x) (key y) then x ∷ y ∷ t else y ∷ insert_by x t

  unfoldable pub order_by : List A → List A
  order_by [] = []
  order_by (x ∷ t) = insert_by x (order_by t)

  -- The keys rise, and none is below the bound.
  abbrev pub IsSortedFrom : ℕ → List A → Type 0
  IsSortedFrom b [] = Unit
  IsSortedFrom b (x ∷ t) = (b ≤ key x) × IsSortedFrom (key x) t

  pub IsSortedFrom-le : (b c : ℕ) (t : List A) → b ≤ c → IsSortedFrom c t → IsSortedFrom b t
  IsSortedFrom-le b c [] h s = tt
  IsSortedFrom-le b c (x ∷ t) h s = (omega arith, s.1)

  IsSortedFrom-insert_by :
      (b : ℕ) (x : A) (t : List A) → b ≤ key x → IsSortedFrom b t → IsSortedFrom b (insert_by x t)
  IsSortedFrom-insert_by b x [] h s = (h, tt)
  IsSortedFrom-insert_by b x (y ∷ t) h s = ground (arith, IsSortedFrom-insert_by (key y) x t)

  pub IsSortedFrom-order_by : (t : List A) → IsSortedFrom 0 (order_by t)
  unfolding order_by
  IsSortedFrom-order_by [] = tt
  IsSortedFrom-order_by (x ∷ t) =
      IsSortedFrom-insert_by 0 x (order_by t) (omega arith) (IsSortedFrom-order_by t)

  count-insert_by :
      (p : A → Bool) (x : A) (t : List A) → count_where p (insert_by x t) ≡ count_where p (x ∷ t)
  count-insert_by p x [] = refl
  count-insert_by p x (y ∷ t) = ground (arith, count-insert_by p x t)

  -- Sorting loses and adds no row.
  pub count-order_by : (p : A → Bool) (t : List A) → count_where p (order_by t) ≡ count_where p t
  unfolding order_by
  count-order_by p [] = refl
  count-order_by p (x ∷ t) = omega (arith, count-insert_by p x (order_by t), count-order_by p t)

  insert_by-last :
      (x m : A) (t : List A) → key x < key m → insert_by x (t ++ m ∷ []) ≡ insert_by x t ++ m ∷ []
  insert_by-last x m [] h = ground arith
  insert_by-last x m (y ∷ t) h = ground (arith, insert_by-last x m t h)

  -- A row behind all others stays the last.
  pub order_by-last :
      (m : A) (t : List A)
      → All (λ x. key x < key m) t
      → order_by (t ++ m ∷ []) ≡ order_by t ++ m ∷ []
  unfolding order_by
  order_by-last m [] h = refl
  order_by-last m (x ∷ t) h = rw (order_by-last m t h.1) (insert_by-last x m (order_by t) h.0)

  pub All-order_by {κ} : (P : A → Type κ) (t : List A) → All P t → All P (order_by t)
  unfolding order_by
  All-order_by P [] h = h
  All-order_by P (x ∷ t) h = go x (order_by t) h.0 (All-order_by P t h.1)
    where
      go : (y : A) (s : List A) → P y → All P s → All P (insert_by y s)
      go y [] hy hs = (hy, tt)
      go y (z ∷ s) hy hs = elim (Bool-cases (leb (key y) (key z))) [
        | inl e ↦ rw e (hy, hs)
        | inr e ↦ rw e (hs.0, go y s hy hs.1)
      ]
