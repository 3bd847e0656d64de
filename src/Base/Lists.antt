-- ===== src/Base/Lists.antt =====
-- Lists measured and indexed by native numbers, under the library's names.
use Prim.Native.Nat.{ℕ, zero, suc, ◌+◌}
use mathlib.Core.Path.{◌≡◌, refl, ap}
use mathlib.Core.Logic.{◌⊎◌, inl, inr}
use mathlib.Core.Bool.{Bool, true, false}
use mathlib.Core.List.{List, [], ◌∷◌, ◌++◌, map}
use native.Mathlib.Omega.{arith}

module _ {ℓ} {A : Type ℓ} where
  abbrev pub length : List A → ℕ
  length [] = 0
  length (x ∷ xs) = suc (length xs)

  abbrev pub take : ℕ → List A → List A
  take zero xs = []
  take (suc n) [] = []
  take (suc n) (x ∷ xs) = x ∷ take n xs

  -- `bool(xs)`
  abbrev pub is_cons : List A → Bool
  is_cons [] = false
  is_cons (x ∷ xs) = true

  pub List-cases : (xs : List A) → (xs ≡ []) ⊎ ((y : A) × (ys : List A) × (xs ≡ y ∷ ys))
  List-cases [] = inl refl
  List-cases (y ∷ ys) = inr (y, ys, refl)

  pub length-append : (xs ys : List A) → length (xs ++ ys) ≡ length xs + length ys
  length-append [] ys = omega arith
  length-append (x ∷ xs) ys = omega (arith, length-append xs ys)

-- A predicate by recursion computes to tuples, which the tactics read and build.
abbrev pub All {ℓ κ} : {A : Type ℓ} → (A → Type κ) → List A → Type κ
All P [] = Unit
All P (x ∷ xs) = P x × All P xs

pub append_nil {ℓ} : {A : Type ℓ} → (xs : List A) → xs ++ [] ≡ xs
append_nil [] = refl
append_nil (x ∷ xs) = ap (λ t. x ∷ t) (append_nil xs)

pub map-snoc {ℓ κ} :
    {A : Type ℓ}
    → {B : Type κ} → (f : A → B) (xs : List A) (y : A) (ys : List B)
    → map f (xs ++ y ∷ []) ++ ys ≡ map f xs ++ f y ∷ ys
map-snoc f [] y ys = refl
map-snoc f (x ∷ xs) y ys = ap (λ t. f x ∷ t) (map-snoc f xs y ys)

pub All-map {ℓ κ ι} :
    {A : Type ℓ} (P : A → Type κ) (Q : A → Type ι) (xs : List A)
    → ((x : A) → P x → Q x)
    → All P xs
    → All Q xs
All-map P Q [] f h = tt
All-map P Q (x ∷ xs) f h = (f x h.0, All-map P Q xs f h.1)

-- What every element has to do with every other.
pub All-pairs {ℓ κ ι} :
    {A : Type ℓ} (R : A → A → Type κ) (S : A → A → Type ι) (xs ys : List A)
    → ((x y : A) → R x y → S x y)
    → All (λ x. All (R x) ys) xs
    → All (λ x. All (S x) ys) xs
All-pairs R S xs ys f h =
    All-map (λ x. All (R x) ys) (λ x. All (S x) ys) xs (λ x hx. All-map (R x) (S x) ys (f x) hx) h

pub All-of {ℓ κ} : {A : Type ℓ} (P : A → Type κ) (xs : List A) → ((x : A) → P x) → All P xs
All-of P [] f = tt
All-of P (x ∷ xs) f = (f x, All-of P xs f)

-- A relation between lists, and the same the other way round.
pub All-flip {ℓ κ} :
    {A : Type ℓ} (R : A → A → Type κ) (xs ys : List A)
    → All (λ x. All (R x) ys) xs
    → All (λ y. All (λ x. R x y) xs) ys
All-flip R xs [] h = tt
All-flip R xs (y ∷ ys) h = (
  All-map (λ x. All (R x) (y ∷ ys)) (λ x. R x y) xs (λ x hx. hx.0) h,
  All-flip R xs ys (All-map (λ x. All (R x) (y ∷ ys)) (λ x. All (R x) ys) xs (λ x hx. hx.1) h),
)

All-zip {ℓ κ ι} :
    {A : Type ℓ} (P : A → Type κ) (Q : A → Type ι) (xs : List A)
    → All P xs
    → All Q xs
    → All (λ x. P x × Q x) xs
All-zip P Q [] h k = tt
All-zip P Q (x ∷ xs) h k = ((h.0, k.0), All-zip P Q xs h.1 k.1)

-- Two relations that hold at every pair.
pub All-zip_pairs {ℓ κ ι} :
    {A : Type ℓ} (R : A → A → Type κ) (S : A → A → Type ι) (xs ys : List A)
    → All (λ x. All (R x) ys) xs
    → All (λ x. All (S x) ys) xs
    → All (λ x. All (λ y. R x y × S x y) ys) xs
All-zip_pairs R S xs ys h k =
    All-map (λ x. All (R x) ys × All (S x) ys) (λ x. All (λ y. R x y × S x y) ys) xs
      (λ x p. All-zip (R x) (S x) ys p.0 p.1)
      (All-zip (λ x. All (R x) ys) (λ x. All (S x) ys) xs h k)
