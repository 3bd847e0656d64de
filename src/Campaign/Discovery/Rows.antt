-- ===== src/Campaign/Discovery/Rows.antt =====
-- The rows of a discovered page (`bulk_create` under the unique constraint).
use mathlib.Core.List.{append-nil, append_assoc}
use noshiro_db_backend.Base.{
  ℕ, ◌≡◌, refl, ◌∙◌, sym, ap, inl, inr, Bool, true, false, ◌||◌, List, [], ◌∷◌, ◌++◌, String, arith,
  str_eq, if◌then◌else◌, Bool-cases, exists_where, All, eq_iff, ==_refl,
}
use noshiro_db_backend.Campaign.Model.{WorkItem}
use noshiro_db_backend.Campaign.Discovery.{conflicts, new_item, bulk_create}

-- No two rows agree in shard and cursor.
abbrev pub IsUnique : List WorkItem → Type 0
IsUnique [] = Unit
IsUnique (i ∷ t) = (exists_where (conflicts i.shard i.cursor) t ≡ false) × IsUnique t

exists-append :
    (p : WorkItem → Bool) (s t : List WorkItem)
    → exists_where p (s ++ t) ≡ (exists_where p s || exists_where p t)
exists-append p [] t = refl
exists-append p (i ∷ s) t = ground (arith, exists-append p s t)

str_eq_sym : (a b : String) → str_eq a b ≡ str_eq b a
str_eq_sym a b = elim (Bool-cases (str_eq a b)) [
  | inl e ↦ let same : a ≡ b = (eq_iff a b).0 e in rw same refl
  | inr e ↦ elim (Bool-cases (str_eq b a)) [
    | inl f ↦ let same : b ≡ a = (eq_iff b a).0 f in rw same refl
    | inr f ↦ e ∙ sym f
  ]
]

conflicts_sym : (i j : WorkItem) → conflicts i.shard i.cursor j ≡ conflicts j.shard j.cursor i
conflicts_sym i j = ground (arith, str_eq_sym i.cursor j.cursor)

IsUnique-append :
    (items : List WorkItem) (i : WorkItem)
    → IsUnique items
    → exists_where (conflicts i.shard i.cursor) items ≡ false
    → IsUnique (items ++ (i ∷ []))
IsUnique-append [] i u h = (refl, tt)
IsUnique-append (x ∷ t) i u h = (
  exists-append (conflicts x.shard x.cursor) t (i ∷ []) ∙ ground (arith, u.0, conflicts_sym x i, h),
  IsUnique-append t i u.1 (ground (arith, h)),
)

-- The rows after one identifier.
abbrev add_row : (List WorkItem → ℕ) → ℕ → String → List WorkItem → List WorkItem
add_row new_pk page cursor items =
    if exists_where (conflicts page cursor) items
    then items
    else items ++ (new_item (new_pk items) page cursor ∷ [])

add_row-lem :
    (new_pk : List WorkItem → ℕ) (page : ℕ) (cursor : String) (items : List WorkItem)
    → IsUnique items
    → IsUnique (add_row new_pk page cursor items)
      × ((new : List WorkItem) × (add_row new_pk page cursor items ≡ items ++ new))
      × (exists_where (conflicts page cursor) (add_row new_pk page cursor items) ≡ true)
add_row-lem new_pk page cursor items u =
    elim (Bool-cases (exists_where (conflicts page cursor) items)) [
      | inl known ↦ rw known (u, ([], sym (append-nil items)), known)
      | inr fresh ↦
          let i : WorkItem = new_item (new_pk items) page cursor in
          rw fresh (
            IsUnique-append items i u fresh,
            (i ∷ [], refl),
            exists-append (conflicts page cursor) items (i ∷ [])
                ∙ ground (arith, ==_refl page, (eq_iff cursor cursor).1 refl),
          )
    ]

exists-extended :
    (p : WorkItem → Bool) (s t new : List WorkItem)
    → t ≡ s ++ new
    → exists_where p s ≡ true
    → exists_where p t ≡ true
exists-extended p s t new e h = rw (e, exists-append p s new, h) refl

-- Of rows no two of which agree in shard and cursor: after a page its identifiers all have a row,
-- the rows of before stay in place and unchanged, and still no two rows agree in shard and cursor.
bulk_create-lists :
    (new_pk : List WorkItem → ℕ) (page : ℕ) (ids : List String) (items : List WorkItem)
    → IsUnique items
    → IsUnique (bulk_create new_pk page ids items)
      × ((new : List WorkItem) × (bulk_create new_pk page ids items ≡ items ++ new))
      × All
          (λ cursor.
            exists_where (conflicts page cursor) (bulk_create new_pk page ids items) ≡ true)
          ids
unfolding bulk_create
bulk_create-lists new_pk page [] items u = (u, ([], sym (append-nil items)), tt)
bulk_create-lists new_pk page (cursor ∷ ids) items u =
    let next : List WorkItem = add_row new_pk page cursor items in
    let (unique, (row, added), present) = add_row-lem new_pk page cursor items u in
    let (all_unique, (rows, joined), all_present) = bulk_create-lists new_pk page ids next unique in
    (
      all_unique,
      (row ++ rows, joined ∙ ap (λ l. l ++ rows) added ∙ append_assoc items row rows),
      (
        exists-extended (conflicts page cursor) next (bulk_create new_pk page ids next) rows joined
            present,
        all_present,
      ),
    )
