-- ===== src/Campaign/Fetch/Tries.antt =====
-- A fetch ends: each claimed item loses a try, and when a fetch reports its end.
use noshiro_db_backend.Base.{
  none, false, leb, ℕ, ◌+◌, ◌-◌, ◌≡◌, ◌≤◌, ◌<◌, refl, Bool, true, ◌&&◌, some, List, [], ◌∷◌, String,
  arith, ltb, get, IsKeyed, count_where, get-update_one, ◌↔◌, exists_count,
}
use noshiro_db_backend.Campaign.Model.{
  Campaign, WorkItem, World, item_pk, item_pending, item_running, item_queued, item_failed,
}
use noshiro_db_backend.Campaign.Items.{ImportOutcome, max_attempts}
use noshiro_db_backend.Campaign.Items.Retry.{
  tries_left, outcome_columns, outcome_columns_pk, outcome_columns-tries, record_outcome-items,
}
use noshiro_db_backend.Campaign.Fetch.Turn.{claimed_world, fetch_item-claimed, get-claimed_self}
use noshiro_db_backend.Campaign.Fetch.{
  claim_columns, fetch_item, FetchResult, fetch_result, finish_fetch, retry_reached, retry_ahead,
}

-- The row of a claimed item after the turn.
get-fetch_item :
    (import_item : String → World → ImportOutcome) (now : ℕ) (campaign : Campaign) (owner : String)
    (item : WorkItem) (w : World) (r : WorkItem)
    → IsKeyed item_pk w.items
    → get item_pk item.pk w.items ≡ some r
    → item_queued r ≡ true
    → get item_pk r.pk (fetch_item import_item now campaign owner item w).items
      ≡ some (
          outcome_columns now campaign
            (claim_columns now owner r)
            (import_item r.cursor (claimed_world import_item now campaign owner item w))
            (claim_columns now owner r))
get-fetch_item import_item now campaign owner item w r u g q =
    let w1 : World = claimed_world import_item now campaign owner item w in
    let o : ImportOutcome = import_item r.cursor w1 in
    let i : WorkItem = claim_columns now owner r in
    rw
      (
        fetch_item-claimed import_item now campaign owner item w r u g q,
        record_outcome-items now campaign i o w1,
      )
      (get-update_one item_pk r.pk (λ _. true) (outcome_columns now campaign i o) w1.items i
        (outcome_columns_pk now campaign i o)
        (get-claimed_self import_item now campaign owner item w r g q))

tries_before :
    (limit : ℕ) (r : WorkItem) (n : ℕ)
    → item_queued r ≡ true
    → n ≤ limit - r.attempt
    → n < tries_left limit r
tries_before limit r n q h = ground arith

-- Where the items' keys are unique, a queued item that a turn of the loop takes up has strictly
-- fewer tries left afterwards.
pub fetch_item-tries :
    (import_item : String → World → ImportOutcome) (now : ℕ) (campaign : Campaign) (owner : String)
    (item : WorkItem) (w : World) (r : WorkItem)
    → IsKeyed item_pk w.items
    → get item_pk item.pk w.items ≡ some r
    → item_queued r ≡ true
    → (i : WorkItem) × (get item_pk r.pk (fetch_item import_item now campaign owner item w).items
        ≡ some i)
      × (tries_left (max_attempts campaign) i < tries_left (max_attempts campaign) r)
fetch_item-tries import_item now campaign owner item w r u g q =
    let i : WorkItem = claim_columns now owner r in
    let o : ImportOutcome =
      import_item r.cursor (claimed_world import_item now campaign owner item w) in
    (
      outcome_columns now campaign i o i,
      get-fetch_item import_item now campaign owner item w r u g q,
      tries_before (max_attempts campaign) r
          (tries_left (max_attempts campaign) (outcome_columns now campaign i o i)) q
          (outcome_columns-tries now campaign i o r.attempt (omega arith)),
    )

-- A queued item that `queued` finds not yet due and `waiting` finds no longer ahead.
abbrev pub falls_due : ℕ → ℕ → WorkItem → Bool
falls_due due_at waiting_at i =
    item_queued i
    && elim i.next_retry_at [ none ↦ false | some t ↦ ltb due_at t && leb t waiting_at ]

queued_split :
    (due_at waiting_at : ℕ) (t : List WorkItem)
    → due_at ≤ waiting_at
    → count_where item_pending t
      ≡ count_where (λ i. item_queued i && retry_reached due_at i) t
        + count_where (λ i. item_queued i && retry_ahead waiting_at i) t
        + count_where item_running t
        + count_where (falls_due due_at waiting_at) t
queued_split due_at waiting_at [] h = refl
queued_split due_at waiting_at (i ∷ t) h = ground (arith, h, queued_split due_at waiting_at t h)

fetch_result_iff :
    (queued running waiting missed pending failures : ℕ)
    → pending ≡ queued + waiting + running + missed
    → ((fetch_result (ltb 0 queued) (ltb 0 running) (ltb 0 waiting) failures
          ≡ FetchResult.fetched true)
        ↔ ((pending ≡ missed) × (failures ≡ 0)))
      × ((fetch_result (ltb 0 queued) (ltb 0 running) (ltb 0 waiting) failures
            ≡ FetchResult.retries_exhausted)
          ↔ ((pending ≡ missed) × (0 < failures)))
unfolding fetch_result
fetch_result_iff queued running waiting missed pending failures e = ground arith

-- Where the clock does not go back, `_fetch` returns true exactly when every pending item is a queued
-- one that falls due between its two readings of the clock and none has failed; it raises exactly when
-- every pending item is such a one and some have failed.
pub finish_fetch_iff :
    (now due_at waiting_at : ℕ) (w : World)
    → due_at ≤ waiting_at
    → (((finish_fetch now due_at waiting_at w).0 ≡ FetchResult.fetched true) ↔ (
        (count_where item_pending w.items ≡ count_where (falls_due due_at waiting_at) w.items)
        × (count_where item_failed w.items ≡ 0)))
      × (((finish_fetch now due_at waiting_at w).0 ≡ FetchResult.retries_exhausted) ↔ (
          (count_where item_pending w.items ≡ count_where (falls_due due_at waiting_at) w.items)
          × (0 < count_where item_failed w.items)))
unfolding finish_fetch
finish_fetch_iff now due_at waiting_at w h =
    let due : WorkItem → Bool = λ i. item_queued i && retry_reached due_at i in
    let later : WorkItem → Bool = λ i. item_queued i && retry_ahead waiting_at i in
    rw (exists_count due w.items, exists_count later w.items, exists_count item_running w.items)
      (fetch_result_iff (count_where due w.items) (count_where item_running w.items)
        (count_where later w.items) (count_where (falls_due due_at waiting_at) w.items)
        (count_where item_pending w.items) (count_where item_failed w.items)
        (queued_split due_at waiting_at w.items h))
