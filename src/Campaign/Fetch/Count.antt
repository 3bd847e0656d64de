-- ===== src/Campaign/Fetch/Count.antt =====
-- The counters of a fetch: every item that stops being pending is counted as processed, once.
use noshiro_db_backend.Base.{
  ℕ, ◌+◌, ◌≡◌, refl, ◌∙◌, ap, inl, inr, true, false, ◌&&◌, Option, some, List, [], ◌∷◌, String,
  arith, ltb, Bool-cases, Option-cases, get, IsKeyed, IsKeyed-update, IsKeyed-update_one,
  count_where, count-update_one, count-update_same, ℤ,
}
use noshiro_db_backend.Campaign.Model.{
  Campaign, WorkItem, World, item_pk, item_pending, item_running, item_queued,
}
use noshiro_db_backend.Campaign.Items.{
  success_columns, skip_columns, retry_columns, failure_columns, ImportOutcome, imported,
  import_failed, is_not_found, max_attempts, succeed_item, skip_item, fail_item, record_outcome,
  update_item,
}
use noshiro_db_backend.Campaign.Fetch.Turn.{
  claimed_world, fetch_item-absent, fetch_item-taken, fetch_item-claimed, get-claimed_self,
}
use noshiro_db_backend.Campaign.Items.Retry.{
  record_outcome-items, outcome_columns_pk, outcome_columns,
}
use noshiro_db_backend.Campaign.Fetch.{
  claim_columns, fetch_item, fetch_items, expire_leases, expire_columns, is_lapsed, finish_fetch,
  recount, batch, batch_size, fetch,
}

-- The items that are processed or still to be processed.
abbrev pub tally : World → ℕ
tally w = w.campaign.processed_items + count_where item_pending w.items

-- A write of a pending row that leaves it pending, and one that ends it.
pending_kept :
    (pk : ℕ) (f : WorkItem → WorkItem) (t : List WorkItem) (r : WorkItem)
    → IsKeyed item_pk t
    → get item_pk pk t ≡ some r
    → item_pending r ≡ true
    → item_pending (f r) ≡ true
    → count_where item_pending (update_item pk f t) ≡ count_where item_pending t
pending_kept pk f t r u g p q =
    ground (arith, count-update_one item_pending item_pk pk (λ _. true) f t r u g refl)

pending_ended :
    (pk : ℕ) (f : WorkItem → WorkItem) (t : List WorkItem) (r : WorkItem)
    → IsKeyed item_pk t
    → get item_pk pk t ≡ some r
    → item_pending r ≡ true
    → item_pending (f r) ≡ false
    → 1 + count_where item_pending (update_item pk f t) ≡ count_where item_pending t
pending_ended pk f t r u g p q =
    ground (arith, count-update_one item_pending item_pk pk (λ _. true) f t r u g refl)

-- One running item is recorded.
record_outcome-tally :
    (now : ℕ) (campaign : Campaign) (item : WorkItem) (o : ImportOutcome) (w : World) (r : WorkItem)
    → IsKeyed item_pk w.items
    → get item_pk item.pk w.items ≡ some r
    → item_pending r ≡ true
    → tally (record_outcome now campaign item o w) ≡ tally w
unfolding record_outcome succeed_item skip_item fail_item
record_outcome-tally now campaign item (imported entity) w r u g p =
    omega (arith, pending_ended item.pk (success_columns now entity) w.items r u g p refl)
record_outcome-tally now campaign item (import_failed e) w r u g p =
    elim (Bool-cases (e.is_provider_error && is_not_found e)) [
      | inl skipped ↦
          rw skipped
            (omega (arith, pending_ended item.pk (skip_columns now e) w.items r u g p refl))
      | inr other ↦ elim (Bool-cases (e.retryable && ltb item.attempt (max_attempts campaign))) [
        | inl again ↦
            rw (other, again)
              (omega (arith, pending_kept item.pk (retry_columns now item e) w.items r u g p refl))
        | inr ended ↦
            rw (other, ended)
              (omega (arith, pending_ended item.pk (failure_columns now e) w.items r u g p refl))
      ]
    ]

module _ (import_item : String → World → ImportOutcome) (now : ℕ) (campaign : Campaign)
    (owner : String) where
  fetch_item-tally :
      (item : WorkItem) (w : World)
      → IsKeyed item_pk w.items
      → tally (fetch_item import_item now campaign owner item w) ≡ tally w
  fetch_item-tally item w u = elim (Option-cases (get item_pk item.pk w.items)) [
    | inl absent ↦ ap tally (fetch_item-absent import_item now campaign owner item w absent)
    | inr (r, g) ↦ elim (Bool-cases (item_queued r)) [
      | inr taken ↦ ap tally (fetch_item-taken import_item now campaign owner item w r u g taken)
      | inl q ↦
          ap tally (fetch_item-claimed import_item now campaign owner item w r u g q)
          ∙ record_outcome-tally now campaign (claim_columns now owner r)
              (import_item r.cursor (claimed_world import_item now campaign owner item w))
              (claimed_world import_item now campaign owner item w) (claim_columns now owner r)
              (IsKeyed-update_one item_pk item.pk item_queued (claim_columns now owner) w.items
                (λ x. refl) u)
              (get-claimed_self import_item now campaign owner item w r g q) refl
          ∙ ground (
            arith,
            count-update_one item_pending item_pk item.pk item_queued (claim_columns now owner)
                w.items r u g q,
          )
    ]
  ]

  record_outcome-IsKeyed :
      (item : WorkItem) (o : ImportOutcome) (w : World)
      → IsKeyed item_pk w.items
      → IsKeyed item_pk (record_outcome now campaign item o w).items
  record_outcome-IsKeyed item o w u = rw (record_outcome-items now campaign item o w) (
      IsKeyed-update_one item_pk item.pk (λ _. true) (outcome_columns now campaign item o) w.items
        (outcome_columns_pk now campaign item o) u)

  fetch_item-IsKeyed :
      (item : WorkItem) (w : World)
      → IsKeyed item_pk w.items
      → IsKeyed item_pk (fetch_item import_item now campaign owner item w).items
  fetch_item-IsKeyed item w u = elim (Option-cases (get item_pk item.pk w.items)) [
    | inl absent ↦ rw (fetch_item-absent import_item now campaign owner item w absent) u
    | inr (r, g) ↦ elim (Bool-cases (item_queued r)) [
      | inr taken ↦ rw (fetch_item-taken import_item now campaign owner item w r u g taken) u
      | inl q ↦ rw (fetch_item-claimed import_item now campaign owner item w r u g q) (
          record_outcome-IsKeyed (claim_columns now owner r)
            (import_item r.cursor (claimed_world import_item now campaign owner item w))
            (claimed_world import_item now campaign owner item w)
            (IsKeyed-update_one item_pk item.pk item_queued (claim_columns now owner) w.items
              (λ x. refl) u))
    ]
  ]

  fetch_items-tally :
      (queue : List WorkItem) (w : World)
      → IsKeyed item_pk w.items
      → tally (fetch_items import_item now campaign owner queue w) ≡ tally w
  unfolding fetch_items
  fetch_items-tally [] w u = refl
  fetch_items-tally (item ∷ rest) w u =
      fetch_items-tally rest (fetch_item import_item now campaign owner item w)
        (fetch_item-IsKeyed item w u)
      ∙ fetch_item-tally item w u

-- Where the items' keys are unique, a fetch keeps the number of processed and pending items
-- together.
pub fetch-tally :
    (import_item : String → World → ImportOutcome) (now due_at waiting_at : ℕ) (owner : String)
    (max_items : Option ℤ) (w : World)
    → IsKeyed item_pk w.items
    → tally (fetch import_item now due_at waiting_at owner max_items w).1 ≡ tally w
unfolding fetch finish_fetch recount expire_leases
fetch-tally import_item now due_at waiting_at owner max_items w u =
    fetch_items-tally import_item now w.campaign owner
      (batch now (batch_size max_items w.campaign) (expire_leases now w)) (expire_leases now w)
      (IsKeyed-update item_pk (λ i. item_running i && is_lapsed now i) expire_columns w.items
        (λ x. refl) u)
    ∙ ap (λ n. w.campaign.processed_items + n)
        (count-update_same item_pending (λ i. item_running i && is_lapsed now i) expire_columns
          w.items (λ r e. ground arith))
