-- ===== src/Campaign/Items/Retry.antt =====
-- Every recorded outcome ends an item or gives it one attempt fewer, and the counters account for it.
use noshiro_db_backend.Base.{
  ℕ, suc, ◌-◌, ◌≤◌, ◌≡◌, refl, inl, inr, true, ◌&&◌, arith, ltb, if◌then◌else◌, Bool-cases, ltb→lt,
  &&-right,
}
use noshiro_db_backend.Campaign.Model.{Campaign, WorkItem, World, item_pending}
use noshiro_db_backend.Campaign.Items.{
  ImportOutcome, imported, import_failed, is_not_found, update_item, max_attempts, success_columns,
  skip_columns, retry_columns, failure_columns, succeed_item, skip_item, fail_item, record_outcome,
}

-- How many more times an item may be tried.
abbrev pub tries_left : ℕ → WorkItem → ℕ
tries_left limit i = if item_pending i then suc (limit - i.attempt) else 0

-- The columns that an outcome writes.
abbrev pub outcome_columns : ℕ → Campaign → WorkItem → ImportOutcome → WorkItem → WorkItem
outcome_columns now campaign item (imported entity) = success_columns now entity
outcome_columns now campaign item (import_failed e) =
    if e.is_provider_error && is_not_found e
    then skip_columns now e
    else if e.retryable && ltb item.attempt (max_attempts campaign)
    then retry_columns now item e
    else failure_columns now e

pub record_outcome-items :
    (now : ℕ) (campaign : Campaign) (item : WorkItem) (o : ImportOutcome) (w : World)
    → (record_outcome now campaign item o w).items
      ≡ update_item item.pk (outcome_columns now campaign item o) w.items
unfolding record_outcome succeed_item skip_item fail_item
record_outcome-items now campaign item (imported entity) w = refl
record_outcome-items now campaign item (import_failed e) w =
    elim (Bool-cases (e.is_provider_error && is_not_found e)) [
      | inl skipped ↦ rw skipped refl
      | inr other ↦ elim (Bool-cases (e.retryable && ltb item.attempt (max_attempts campaign))) [
        | inl again ↦ rw (other, again) refl
        | inr ended ↦ rw (other, ended) refl
      ]
    ]

pub outcome_columns_pk :
    (now : ℕ) (campaign : Campaign) (item : WorkItem) (o : ImportOutcome) (i : WorkItem)
    → (outcome_columns now campaign item o i).pk ≡ i.pk
outcome_columns_pk now campaign item (imported entity) i = refl
outcome_columns_pk now campaign item (import_failed e) i =
    elim (Bool-cases (e.is_provider_error && is_not_found e)) [
      | inl skipped ↦ rw skipped refl
      | inr other ↦ elim (Bool-cases (e.retryable && ltb item.attempt (max_attempts campaign))) [
        | inl again ↦ rw (other, again) refl
        | inr ended ↦ rw (other, ended) refl
      ]
    ]

-- After its outcome, an item that was on try `a + 1` has at most the tries left that it had after `a`.
pub outcome_columns-tries :
    (now : ℕ) (campaign : Campaign) (item : WorkItem) (o : ImportOutcome) (a : ℕ)
    → item.attempt ≡ suc a
    → tries_left (max_attempts campaign) (outcome_columns now campaign item o item)
      ≤ max_attempts campaign - a
outcome_columns-tries now campaign item (imported entity) a e = omega arith
outcome_columns-tries now campaign item (import_failed x) a e =
    elim (Bool-cases (x.is_provider_error && is_not_found x)) [
      | inl skipped ↦ rw skipped (omega arith)
      | inr other ↦ elim (Bool-cases (x.retryable && ltb item.attempt (max_attempts campaign))) [
        | inl again ↦
            let below : ltb item.attempt (max_attempts campaign) ≡ true =
              &&-right x.retryable (ltb item.attempt (max_attempts campaign)) again in
            rw (other, again) (omega (arith, ltb→lt item.attempt (max_attempts campaign) below))
        | inr ended ↦ rw (other, ended) (omega arith)
      ]
    ]
