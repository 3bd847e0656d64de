-- ===== src/Campaign/Fetch/Turn.antt =====
-- One turn of the fetch loop, by the row that it finds.
use mathlib.Core.Path.{subst}
use noshiro_db_backend.Base.{
  ℕ, ◌≡◌, refl, sym, ◌∙◌, ap, Bool, true, false, none, some, List, String, get, IsKeyed,
  get-update_one, update_one, update_one_flag, update_one_refused, update_one_absent, key-get,
  if◌then◌else◌,
}
use noshiro_db_backend.Campaign.Model.{Campaign, WorkItem, World, item_pk, item_queued}
use noshiro_db_backend.Campaign.Items.{ImportOutcome, record_outcome}
use noshiro_db_backend.Campaign.Fetch.{claim_columns, import_claimed, fetch_claimed, fetch_item}

module _ (import_item : String → World → ImportOutcome) (now : ℕ) (campaign : Campaign)
    (owner : String) where
  -- The world in which the claimed item is imported.
  abbrev pub claimed_world : WorkItem → World → World
  claimed_world item w = record w {
    items = (update_one item_pk item.pk item_queued (claim_columns now owner) w.items).1;
  }

  pub fetch_item-absent :
      (item : WorkItem) (w : World)
      → get item_pk item.pk w.items ≡ none
      → fetch_item import_item now campaign owner item w ≡ w
  unfolding fetch_item fetch_claimed
  fetch_item-absent item w g =
      rw (update_one_absent item_pk item.pk item_queued (claim_columns now owner) w.items g) refl

  pub fetch_item-taken :
      (item : WorkItem) (w : World) (r : WorkItem)
      → IsKeyed item_pk w.items
      → get item_pk item.pk w.items ≡ some r
      → item_queued r ≡ false
      → fetch_item import_item now campaign owner item w ≡ w
  unfolding fetch_item fetch_claimed
  fetch_item-taken item w r u g q =
      rw (update_one_refused item_pk item.pk item_queued (claim_columns now owner) w.items r u g q)
        refl

  get-claimed_world :
      (item : WorkItem) (w : World) (r : WorkItem)
      → get item_pk item.pk w.items ≡ some r
      → item_queued r ≡ true
      → get item_pk item.pk (claimed_world item w).items ≡ some (claim_columns now owner r)
  get-claimed_world item w r g q =
      get-update_one item_pk item.pk item_queued (claim_columns now owner) w.items r (λ x. refl) g
      ∙ ap (λ b. some (if b then claim_columns now owner r else r)) q

  fetch_claimed-flag :
      (item : WorkItem) (w : World) (claim : Bool × List WorkItem) (i : WorkItem)
      → claim.0 ≡ true
      → get item_pk item.pk claim.1 ≡ some i
      → fetch_claimed import_item now campaign owner item.pk claim w
        ≡ record_outcome now campaign i
            (import_item i.cursor (record w { items = claim.1 }))
            (record w { items = claim.1 })
  unfolding fetch_claimed import_claimed
  fetch_claimed-flag item w (true, items) i f g = rw g refl
  fetch_claimed-flag item w (false, items) i f g = absurd (cc)

  pub fetch_item-claimed :
      (item : WorkItem) (w : World) (r : WorkItem)
      → IsKeyed item_pk w.items
      → get item_pk item.pk w.items ≡ some r
      → item_queued r ≡ true
      → fetch_item import_item now campaign owner item w
        ≡ record_outcome now campaign
            (claim_columns now owner r)
            (import_item r.cursor (claimed_world item w))
            (claimed_world item w)
  unfolding fetch_item
  fetch_item-claimed item w r u g q =
      fetch_claimed-flag item w
        (update_one item_pk item.pk item_queued (claim_columns now owner) w.items)
        (claim_columns now owner r)
        (update_one_flag item_pk item.pk item_queued (claim_columns now owner) w.items r u g ∙ q)
        (get-claimed_world item w r g q)

  -- The claimed item stands under its own key.
  pub get-claimed_self :
      (item : WorkItem) (w : World) (r : WorkItem)
      → get item_pk item.pk w.items ≡ some r
      → item_queued r ≡ true
      → get item_pk r.pk (claimed_world item w).items ≡ some (claim_columns now owner r)
  get-claimed_self item w r g q =
      subst (λ k. get item_pk k (claimed_world item w).items ≡ some (claim_columns now owner r))
        (sym (key-get item_pk item.pk w.items r g)) (get-claimed_world item w r g q)
