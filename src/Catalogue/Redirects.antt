-- ===== src/Catalogue/Redirects.antt =====
-- The redirect graph of src/apps/index/services/resolution.py: `redirect_map`, `resolve_with`,
-- `resolve` and `cluster_ids`. Both loops over a chain are `follow`, which differ in
-- how they look a target up. A Python set is a list of which only the membership is read.
pub mod Reaches
pub mod Resolve
pub mod Cluster
use noshiro_db_backend.Base.{
  ℕ, zero, suc, Bool, true, false, ◌==◌, ◌&&◌, ◌||◌, not, List, [], ◌∷◌, ◌++◌, Option, none, some,
  if◌then◌else◌, first_where, select_where,
}
use noshiro_db_backend.Base.Result.{Result, ok, err, ◌>>=◌}
use noshiro_db_backend.Catalogue.Model.{EntityRedirect, Failure}

-- `x in xs`
abbrev pub contains : List ℕ → ℕ → Bool
contains [] k = false
contains (x ∷ xs) k = x == k || contains xs k

abbrev pub max_redirect_depth : ℕ
max_redirect_depth = 32

abbrev pub leaves : ℕ → EntityRedirect → Bool
leaves k r = r.source_entity == k && r.is_active

abbrev target_of : Option EntityRedirect → Option ℕ
target_of none = none
target_of (some r) = some r.target_entity

-- `filter(source_entity=k, is_active=True).first()`, its target.
abbrev pub redirect_of : List EntityRedirect → ℕ → Option ℕ
redirect_of rs k = target_of (first_where (leaves k) rs)

-- A dict as the pairs that were put in: a later pair replaces an earlier one.
abbrev pub dict_get : List (ℕ × ℕ) → ℕ → Option ℕ
dict_get [] k = none
dict_get ((j, v) ∷ m) k = elim (dict_get m k) [
  | some w ↦ some w
  | none ↦ if j == k then some v else none
]

unfoldable pub redirect_map : List EntityRedirect → List (ℕ × ℕ)
redirect_map [] = []
redirect_map (r ∷ rs) =
    let rest = redirect_map rs in
    if r.is_active then (r.source_entity, r.target_entity) ∷ rest else rest

-- The loop over a chain of redirects. The first argument is the number of rounds left.
unfoldable pub follow : (ℕ → Option ℕ) → ℕ → List ℕ → ℕ → Result Failure ℕ
follow next zero visited current = err Failure.redirect_depth
follow next (suc n) visited current =
    if contains visited current then err Failure.redirect_cycle else (elim (next current) [
      | none ↦ ok current
      | some target ↦ follow next n (current ∷ visited) target
    ])

unfoldable pub resolve_with : List (ℕ × ℕ) → ℕ → Result Failure ℕ
resolve_with redirects e = follow (dict_get redirects) max_redirect_depth [] e

unfoldable pub resolve : List EntityRedirect → ℕ → Result Failure ℕ
resolve rs e = follow (redirect_of rs) max_redirect_depth [] e

-- The active sources that redirect into a set.
abbrev pub sources_into : List EntityRedirect → List ℕ → List ℕ
sources_into [] frontier = []
sources_into (r ∷ rs) frontier =
    let rest = sources_into rs frontier in
    if contains frontier r.target_entity && r.is_active then r.source_entity ∷ rest else rest

-- `xs -= ys`
abbrev pub minus : List ℕ → List ℕ → List ℕ
minus xs ys = select_where (λ x. not (contains ys x)) xs

-- The rounds of `cluster_ids`.
unfoldable pub grow : List EntityRedirect → ℕ → List ℕ → List ℕ → Result Failure (List ℕ)
grow rs zero entity_ids frontier = err Failure.cluster_depth
grow rs (suc n) entity_ids frontier = elim (minus (sources_into rs frontier) entity_ids) [
  | [] ↦ ok entity_ids
  | x ∷ xs ↦ grow rs n (entity_ids ++ x ∷ xs) (x ∷ xs)
]

unfoldable pub cluster_ids : List EntityRedirect → ℕ → Result Failure (List ℕ)
cluster_ids rs e = do root ← resolve rs e; grow rs max_redirect_depth (root ∷ []) (root ∷ [])
