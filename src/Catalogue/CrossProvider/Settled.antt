-- ===== src/Catalogue/CrossProvider/Settled.antt =====
-- What `_bind_verified_pair` raises, and what it leaves of the candidate of the pair.
use noshiro_db_backend.Base.{
  text_append, ℕ, ◌≡◌, ◌⊎◌, refl, sym, ap, ◌∙◌, inl, inr, true, false, ◌==◌, List, Option, none,
  some, String, is_cons, Bool-cases, ==_iff, get, key-get, get-last, IsKeyed, first_where,
  first_where-get, arith,
}
use mathlib.Core.Path.{subst}
use noshiro_db_backend.Base.Result.{Result, ok, err, get_or_raise, Result-cases}
use noshiro_db_backend.Catalogue.Model.{
  Entity, MatchCandidate, Outcome, MatchDecision, World, Failure,
}
use noshiro_db_backend.Catalogue.Redirects.{resolve}
use noshiro_db_backend.Catalogue.Redirects.Resolve.{resolve-total}
use noshiro_db_backend.Catalogue.Merge.{find_entity, resolve_entity}
use noshiro_db_backend.Catalogue.Merge.Granted.{resolve_entity-eq-ok}
use noshiro_db_backend.Catalogue.WellFormed.{IsWellFormed}
use noshiro_db_backend.Catalogue.Decide.{is_pending, decide_candidate, status_by_outcome}
use noshiro_db_backend.Catalogue.Decide.Final.{
  decide_candidate-IsWellFormed, decide_candidate-final, decide_candidate-abstained,
  abstained_result, status_by_outcome_decided,
}
use noshiro_db_backend.Catalogue.CrossProvider.{
  CrossWorld, compatible_galgame_entities, is_pair, new_candidate, or_create, conflicts_of,
  settle_pair, is_resolution_error, failure_text, reference_reason, decided_catalogue, abstain,
  bind_or_abstain, settle, lower, higher, link_pair, bind_verified_pair,
}

-- The candidate under a key is decided, and is still that of its pair.
abbrev IsSettled : MatchCandidate → World → Type 0
IsSettled c w =
    (d : MatchCandidate) × (get MatchCandidate.id c.id w.candidates ≡ some d)
    × (is_pending d.status ≡ false)
    × (d.left_entity ≡ c.left_entity)
    × (d.right_entity ≡ c.right_entity)

-- Nothing is raised but that a row is missing, and what returns is settled.
abbrev Settles : MatchCandidate → Result Failure CrossWorld → Type 0
Settles c (ok w) = IsWellFormed w.catalogue × IsSettled c w.catalogue
Settles c (err e) = e ≡ Failure.does_not_exist

not_caught : (e : Failure) → is_resolution_error e ≡ false → e ≡ Failure.does_not_exist
not_caught e h = ground arith

module _ (w : CrossWorld) (c : MatchCandidate) (vndb_id : String) (event_id : ℕ)
    (v : IsWellFormed w.catalogue)
    (found : get MatchCandidate.id c.id w.catalogue.candidates ≡ some c) where
  -- A decision that returns settles the candidate.
  decided-Settles :
      (outcome : Outcome) (reason : String) (res : MatchDecision × World)
      → decide_candidate w.catalogue c.id outcome "official_external_id" reason event_id ≡ ok res
      → IsWellFormed res.1 × IsSettled c res.1
  decided-Settles outcome reason res h = (
    decide_candidate-IsWellFormed w.catalogue c.id outcome "official_external_id" reason event_id
        res v h,
    (
      record c { status = status_by_outcome outcome },
      (decide_candidate-final w.catalogue c.id outcome outcome "official_external_id"
          "official_external_id" reason reason event_id event_id res c found h).0,
      status_by_outcome_decided outcome,
      refl,
      refl,
    ),
  )

  abstain-Settles :
      (reason : String) → is_pending c.status ≡ true → Settles c (abstain w c reason event_id)
  abstain-Settles reason pending =
      let done =
        decide_candidate-abstained w.catalogue c.id c "official_external_id" reason event_id found
          pending in
      subst (λ r. Settles c (decided_catalogue w r)) (sym done)
        (decided-Settles Outcome.abstain reason
          (abstained_result w.catalogue c "official_external_id" reason) done)

  bind-Settles :
      (r : Result Failure (MatchDecision × World))
      → decide_candidate w.catalogue c.id Outcome.bind "official_external_id"
          (reference_reason vndb_id)
          event_id
        ≡ r
      → is_pending c.status ≡ true
      → Settles c (bind_or_abstain w c event_id r)
  bind-Settles (ok res) h pending = decided-Settles Outcome.bind (reference_reason vndb_id) res h
  bind-Settles (err e) h pending = elim (Bool-cases (is_resolution_error e)) [
    | inl caught ↦ rw caught (
        abstain-Settles
          (text_append "Verified identifier could not be bound safely: " (failure_text e)) pending)
    | inr escapes ↦ rw escapes (not_caught e escapes)
  ]

  settle-Settles : (conflicts : List String) → Settles c (settle w c conflicts vndb_id event_id)
  settle-Settles conflicts = elim (Bool-cases (is_pending c.status)) [
    | inr decided ↦ rw decided (v, (c, found, decided, refl, refl))
    | inl pending ↦ elim (Bool-cases (is_cons conflicts)) [
      | inl blocked ↦
          rw (pending, blocked)
            (abstain-Settles "Official identifier conflicts with canonical entity types." pending)
      | inr free ↦
          rw (pending, free)
            (bind-Settles
              (decide_candidate w.catalogue c.id Outcome.bind "official_external_id"
                (reference_reason vndb_id) event_id)
              refl pending)
    ]
  ]

-- A candidate that is got or made is the row under its key, and of the pair.
or_create-get :
    (key left right : ℕ) (conflicts : List String) (t : List MatchCandidate)
    (o : Option MatchCandidate)
    → IsKeyed MatchCandidate.id t
    → get MatchCandidate.id key t ≡ none
    → first_where (is_pair left right) t ≡ o
    → (get MatchCandidate.id
          (or_create o (new_candidate key left right conflicts) t).0.id
          (or_create o (new_candidate key left right conflicts) t).1
        ≡ some (or_create o (new_candidate key left right conflicts) t).0)
      × ((or_create o (new_candidate key left right conflicts) t).0.left_entity ≡ left)
      × ((or_create o (new_candidate key left right conflicts) t).0.right_entity ≡ right)
or_create-get key left right conflicts t none keyed fresh h = (
  get-last MatchCandidate.id key t (new_candidate key left right conflicts) fresh refl,
  refl,
  refl,
)
or_create-get key left right conflicts t (some c) keyed fresh h =
    let (row, test) = first_where-get MatchCandidate.id (is_pair left right) t c keyed h in
    (row, ground (arith, test), ground (arith, test))

-- The canonical entities of both are one, or the candidate of their pair is decided.
abbrev IsPairSettled : World → ℕ → ℕ → World → Type 0
IsPairSettled w b v w' =
    (p : ℕ) × (q : ℕ) × (resolve w.redirects b ≡ ok p)
    × (resolve w.redirects v ≡ ok q)
    × ((p ≡ q)
        ⊎ ((d : MatchCandidate) × (d.left_entity ≡ lower p q)
            × (d.right_entity ≡ higher p q)
            × (is_pending d.status ≡ false)
            × (get MatchCandidate.id d.id w'.candidates ≡ some d)))

abbrev pub SettlesPair : World → ℕ → ℕ → Result Failure CrossWorld → Type 0
SettlesPair w b v (ok w') = IsWellFormed w'.catalogue × IsPairSettled w b v w'.catalogue
SettlesPair w b v (err e) = e ≡ Failure.does_not_exist

-- What the candidate's settlement says of the pair.
Settles-SettlesPair :
    (w : World) (b v p q : ℕ) (c : MatchCandidate) (r : Result Failure CrossWorld)
    → resolve w.redirects b ≡ ok p
    → resolve w.redirects v ≡ ok q
    → c.left_entity ≡ lower p q
    → c.right_entity ≡ higher p q
    → Settles c r
    → SettlesPair w b v r
Settles-SettlesPair w b v p q c (err e) hb hv l h s = s
Settles-SettlesPair w b v p q c (ok w') hb hv l h (kept, (d, found, decided, dl, dr)) = (
  kept,
  (
    p,
    q,
    hb,
    hv,
    inr (
      d,
      dl ∙ l,
      dr ∙ h,
      decided,
      ap (λ (k : ℕ). get MatchCandidate.id k w'.catalogue.candidates)
            (key-get MatchCandidate.id c.id w'.catalogue.candidates d found)
          ∙ found,
    ),
  ),
)

settle_pair-settles :
    (w : CrossWorld) (be ve : ℕ) (b v : Entity) (observation : ℕ) (vndb_id : String)
    (key event_id : ℕ)
    → IsWellFormed w.catalogue
    → IsKeyed MatchCandidate.id w.catalogue.candidates
    → get MatchCandidate.id key w.catalogue.candidates ≡ none
    → resolve w.catalogue.redirects be ≡ ok b.id
    → resolve w.catalogue.redirects ve ≡ ok v.id
    → SettlesPair w.catalogue be ve (settle_pair w b v observation vndb_id key event_id)
unfolding settle_pair
settle_pair-settles w be ve b v observation vndb_id key event_id f keyed fresh hb hv =
    elim (Bool-cases (b.id == v.id)) [
      | inl same ↦ rw same (f, (b.id, v.id, hb, hv, inl ((==_iff b.id v.id).0 same)))
      | inr differ ↦
          let compatible = compatible_galgame_entities w.works b v in
          let (c, linked) = link_pair w b v compatible observation key in
          let (found, left, right) =
            or_create-get key (lower b.id v.id) (higher b.id v.id) (conflicts_of compatible)
              w.catalogue.candidates
              (first_where (is_pair (lower b.id v.id) (higher b.id v.id)) w.catalogue.candidates)
              keyed fresh refl in
          let kept : IsWellFormed linked.catalogue = record {
            keyed = f.keyed;
            forest = f.forest;
            one = f.one;
            linked = f.linked;
          } in
          rw differ (
            Settles-SettlesPair w.catalogue be ve b.id v.id c
              (settle linked c (conflicts_of compatible) vndb_id event_id) hb hv left right
              (settle-Settles linked c vndb_id event_id kept found (conflicts_of compatible)))
    ]

-- Resolving to a row raises only that the row is missing.
resolve_entity-err :
    (w : World) (e : ℕ) (x : Failure)
    → IsWellFormed w
    → resolve_entity w e ≡ err x
    → x ≡ Failure.does_not_exist
unfolding resolve_entity find_entity
resolve_entity-err w e x f h =
    let (root, found, last) = resolve-total w.redirects f.forest.within e in
    missing (get Entity.id root w.entities) (rw found at h)
  where
    missing :
        (o : Option Entity)
        → get_or_raise Failure.does_not_exist o ≡ err x
        → x ≡ Failure.does_not_exist
    missing none k = cc
    missing (some row) k = cc

-- Binding a verified pair raises nothing but that a row is missing. What it leaves is well formed, and
-- in it the two works are one, or the candidate of their pair is decided.
pub bind_verified_pair-settles :
    (w : CrossWorld) (bangumi_entity vndb_entity observation : ℕ) (vndb_id : String)
    (key event_id : ℕ)
    → IsWellFormed w.catalogue
    → IsKeyed MatchCandidate.id w.catalogue.candidates
    → get MatchCandidate.id key w.catalogue.candidates ≡ none
    → SettlesPair w.catalogue bangumi_entity vndb_entity
        (bind_verified_pair w bangumi_entity vndb_entity observation vndb_id key event_id)
unfolding bind_verified_pair
bind_verified_pair-settles w be ve observation vndb_id key event_id f keyed fresh =
    elim (Result-cases (resolve_entity w.catalogue be)) [
      | inr (x, raised) ↦ rw raised (resolve_entity-err w.catalogue be x f raised)
      | inl (b, hb) ↦ elim (Result-cases (resolve_entity w.catalogue ve)) [
        | inr (x, raised) ↦ rw (hb, raised) (resolve_entity-err w.catalogue ve x f raised)
        | inl (v, hv) ↦
            rw (hb, hv)
              (settle_pair-settles w be ve b v observation vndb_id key event_id f keyed fresh
                (resolve_entity-eq-ok w.catalogue be b hb).0
                (resolve_entity-eq-ok w.catalogue ve v hv).0)
      ]
    ]
