-- ===== src/Campaign/Fetch.antt =====
-- `_fetch`: one bounded batch of imports (src/apps/sync/services/campaign_service.py). One reading of
-- the clock serves the batch, and each of the two queries at its end that compare with the time has a
-- reading of its own. What the provider's `import_item` comes to is a parameter, which may depend on
-- the rows of the campaign; it does not write them.
pub mod Turn
pub mod Count
pub mod Tries
use noshiro_db_backend.Base.{
  ℕ, suc, ◌+◌, Bool, true, false, ◌&&◌, ◌||◌, not, Option, none, some, List, [], ◌∷◌, String, ltb,
  leb, ◌==◌, if◌then◌else◌, take, update_one, update_where, select_where, exists_where, count_where,
  get, order_by, ℤ, nonneg_part,
}
use noshiro_db_backend.Campaign.Model.{
  Parameters, Campaign, ItemStatus, WorkItem, World, item_pk, item_queued, item_running,
  item_failed,
}
use noshiro_db_backend.Campaign.Items.{ImportOutcome, positive_int, record_outcome}

-- `lease_expires_at__lt=now`, which a null never satisfies.
abbrev pub is_lapsed : ℕ → WorkItem → Bool
is_lapsed now i = elim i.lease_expires_at [ none ↦ false | some t ↦ ltb t now ]

abbrev pub expire_columns : WorkItem → WorkItem
expire_columns i = record i {
  status = ItemStatus.queued;
  lease_owner = "";
  lease_expires_at = none;
  error = "Worker lease expired before completion.";
}

-- Running items whose lease has run out are queued again.
unfoldable pub expire_leases : ℕ → World → World
expire_leases now w = record w {
  items = update_where (λ i. item_running i && is_lapsed now i) expire_columns w.items;
}

-- `Q(next_retry_at__isnull=True) | Q(next_retry_at__lte=now)`
abbrev pub retry_reached : ℕ → WorkItem → Bool
retry_reached now i = elim i.next_retry_at [ none ↦ true | some t ↦ leb t now ]

-- `next_retry_at__gt=now`
abbrev pub retry_ahead : ℕ → WorkItem → Bool
retry_ahead now i = elim i.next_retry_at [ none ↦ false | some t ↦ ltb now t ]

abbrev pub item_shard : WorkItem → ℕ
item_shard i = i.shard

-- The size of the batch: `max_items`, or the campaign's parameter.
unfoldable pub batch_size : Option ℤ → Campaign → ℕ
unfolding positive_int
batch_size none c = positive_int c.parameters.fetch_batch_size 50
batch_size (some n) c = nonneg_part n

-- The items that are due, in the order of shard and key.
unfoldable pub batch : ℕ → ℕ → World → List WorkItem
batch now size w = take size (
    order_by item_shard
      (order_by item_pk (select_where (λ i. item_queued i && retry_reached now i) w.items)))

abbrev pub claim_columns : ℕ → String → WorkItem → WorkItem
claim_columns now owner i = record i {
  status = ItemStatus.running;
  attempt = i.attempt + 1;
  started_at = some now;
  lease_owner = owner;
  lease_expires_at = some (now + 300);
}

module _ (import_item : String → World → ImportOutcome) (now : ℕ) (campaign : Campaign)
    (owner : String) where
  -- The body of the loop after `refresh_from_db`.
  unfoldable pub import_claimed : Option WorkItem → World → World
  import_claimed none w = w
  import_claimed (some item) w = record_outcome now campaign item (import_item item.cursor w) w

  -- `if claimed != 1: continue`
  unfoldable pub fetch_claimed : ℕ → Bool × List WorkItem → World → World
  fetch_claimed pk (false, items) w = record w { items = items }
  fetch_claimed pk (true, items) w =
      import_claimed (get item_pk pk items) (record w { items = items })

  -- One turn of the loop: claim, import, record.
  unfoldable pub fetch_item : WorkItem → World → World
  fetch_item item w =
      fetch_claimed item.pk
        (update_one item_pk item.pk item_queued (claim_columns now owner) w.items) w

  unfoldable pub fetch_items : List WorkItem → World → World
  fetch_items [] w = w
  fetch_items (item ∷ rest) w = fetch_items rest (fetch_item item w)

-- What `_fetch` returns, or its `RuntimeError`.
pub data FetchResult : Type 0 where
  fetched : Bool → FetchResult
  retries_exhausted : FetchResult

-- The end of `_fetch`, of whether items are due, running and waiting, and of the failures.
unfoldable pub fetch_result : Bool → Bool → Bool → ℕ → FetchResult
fetch_result queued running waiting failures =
    let open_items = queued || waiting || running in
    if not open_items && ltb 0 failures
    then FetchResult.retries_exhausted
    else FetchResult.fetched (not open_items)

-- `campaign.save(update_fields=["failed_items", "updated_at"])`
unfoldable pub recount : ℕ → World → World
recount now w = record w {
  campaign = record (w.campaign) {
    failed_items = count_where item_failed w.items;
    updated_at = now;
  };
}

-- The end of `_fetch`: `due_at` and `waiting_at` are its readings of the clock in the queries of
-- `queued` and of `waiting`.
unfoldable pub finish_fetch : ℕ → ℕ → ℕ → World → FetchResult × World
finish_fetch now due_at waiting_at w = (
  fetch_result (exists_where (λ i. item_queued i && retry_reached due_at i) w.items)
      (exists_where item_running w.items)
      (exists_where (λ i. item_queued i && retry_ahead waiting_at i) w.items)
      (count_where item_failed w.items),
  recount now w,
)

unfoldable pub fetch :
    (String → World → ImportOutcome) → ℕ → ℕ → ℕ → String → Option ℤ → World → FetchResult × World
fetch import_item now due_at waiting_at owner max_items w =
    let w1 = expire_leases now w in
    finish_fetch now due_at waiting_at (
      fetch_items import_item now w.campaign owner (batch now (batch_size max_items w.campaign) w1)
        w1)
