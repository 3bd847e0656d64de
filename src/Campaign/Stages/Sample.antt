-- ===== src/Campaign/Stages/Sample.antt =====
-- The sample sizes bound the items that the AI stages work on.
use noshiro_db_backend.Base.{
  ℕ, zero, suc, ◌+◌, ◌-◌, ◌≤◌, ◌≡◌, min, refl, inl, inr, Bool, true, false, ◌&&◌, not, Option, none,
  some, List, [], ◌∷◌, arith, leb, Bool-cases, IsKeyed, IsKeyed-update_one, count_where,
  count-update_one_le, update_one, take, length, max, order_by, select_where, ℤ, pos,
}
use noshiro_db_backend.Campaign.Model.{WorkItem, World, item_pk, item_succeeded}
use noshiro_db_backend.Campaign.Items.{positive_int}
use noshiro_db_backend.Campaign.Fetch.{item_shard}
use noshiro_db_backend.Campaign.Stages.{
  StageResult, staged, stage_raised, is_off, is_normalized, mark_normalized, stage_batch,
  sample_room, normalize_claimed, normalize_one, normalize_rest, normalize_items, normalize_end,
  normalize_batch, normalize,
}

-- The rows that a stage leaves.
abbrev pub rows : StageResult → World
rows (staged done w) = w
rows (stage_raised w) = w

length-take : (n : ℕ) (l : List WorkItem) → length (take n l) ≤ n
length-take zero l = omega arith
length-take (suc n) [] = omega arith
length-take (suc n) (i ∷ l) = omega (arith, length-take n l)

stage_batch-length :
    (seen : WorkItem → Bool) (n : ℕ) (w : World) → length (stage_batch seen n w) ≤ n
unfolding stage_batch
stage_batch-length seen n w = length-take n (
    order_by item_shard
      (order_by item_pk (select_where (λ i. item_succeeded i && not (seen i)) w.items)))

-- The keys stay unique and the count of a test grows by at most a number.
abbrev Grows : (WorkItem → Bool) → ℕ → World → World → Type 0
Grows q n w w2 = IsKeyed item_pk w2.items × (count_where q w2.items ≤ count_where q w.items + n)

unset_le :
    (t : List WorkItem) (k : ℕ)
    → count_where is_normalized (update_one item_pk k (λ _. true) (mark_normalized none) t).1
      ≤ count_where is_normalized t
unfolding update_one
unset_le [] k = omega arith
unset_le (i ∷ t) k = ground (arith, unset_le t k)

module _ (normalize_item : WorkItem → World → Bool) (now : ℕ) where
  normalize_claimed-Grows :
      (item : WorkItem) (claim : Bool × List WorkItem) (w : World)
      → IsKeyed item_pk claim.1
      → Grows is_normalized 0
          (record w { items = claim.1 })
          (normalize_claimed normalize_item now item claim w).1
  unfolding normalize_claimed
  normalize_claimed-Grows item (false, items) w u = (u, omega arith)
  normalize_claimed-Grows item (true, items) w u =
      elim (Bool-cases (normalize_item item (record w { items = items }))) [
        | inl e ↦ rw e (u, omega arith)
        | inr e ↦ rw e (
          IsKeyed-update_one item_pk item.pk (λ _. true) (mark_normalized none) items (λ x. refl) u,
          omega (arith, unset_le items item.pk),
        )
      ]

  normalize_one-Grows :
      (item : WorkItem) (w : World)
      → IsKeyed item_pk w.items
      → Grows is_normalized 1 w (normalize_one normalize_item now item w).1
  unfolding normalize_one
  normalize_one-Grows item w u =
      let p : WorkItem → Bool = λ i. item_succeeded i && not (is_normalized i) in
      let f : WorkItem → WorkItem = mark_normalized (some now) in
      let (keyed, bound) =
        normalize_claimed-Grows item (update_one item_pk item.pk p f w.items) w
          (IsKeyed-update_one item_pk item.pk p f w.items (λ x. refl) u) in
      (keyed, omega (arith, bound, count-update_one_le is_normalized item_pk item.pk p f w.items u))

  normalize_rest-Grows :
      (continue : World → Bool × World) (n : ℕ) (r : Bool × World)
      → ((v : World) → IsKeyed item_pk v.items → Grows is_normalized n v (continue v).1)
      → IsKeyed item_pk r.1.items
      → Grows is_normalized n r.1 (normalize_rest normalize_item now continue r).1
  unfolding normalize_rest
  normalize_rest-Grows continue n (true, v) h k = h v k
  normalize_rest-Grows continue n (false, v) h k = (k, omega arith)

  normalize_items-Grows :
      (queue : List WorkItem) (w : World)
      → IsKeyed item_pk w.items
      → Grows is_normalized (length queue) w (normalize_items normalize_item now queue w).1
  unfolding normalize_items
  normalize_items-Grows [] w u = (u, omega arith)
  normalize_items-Grows (item ∷ rest) w u =
      let (keyed, bound) = normalize_one-Grows item w u in
      let (keyed2, bound2) =
        normalize_rest-Grows (normalize_items normalize_item now rest) (length rest)
          (normalize_one normalize_item now item w) (λ v k. normalize_items-Grows rest v k) keyed in
      (keyed2, omega (arith, bound, bound2))

normalize_end-rows :
    (normalize_item : WorkItem → World → Bool) (now : ℕ) (r : Bool × World)
    → rows (normalize_end normalize_item now r) ≡ r.1
unfolding normalize_end
normalize_end-rows normalize_item now (true, w) = refl
normalize_end-rows normalize_item now (false, w) = refl

normalize_batch-bound :
    (normalize_item : WorkItem → World → Bool) (now n size : ℕ) (limit : Option ℤ) (w : World)
    → limit ≡ some (pos (suc n))
    → IsKeyed item_pk w.items
    → count_where is_normalized
        (rows (
          normalize_batch normalize_item now
            (sample_room limit (count_where is_normalized w.items) size)
            w)).items
      ≤ max (count_where is_normalized w.items) (suc n)
unfolding normalize_batch sample_room
normalize_batch-bound normalize_item now n size limit w e u =
    elim (Bool-cases (leb (suc n) (count_where is_normalized w.items))) [
      | inl done ↦ rw (e, done) (omega arith)
      | inr below ↦
          let room : ℕ = min size (suc n - count_where is_normalized w.items) in
          let bound =
            (normalize_items-Grows normalize_item now (stage_batch is_normalized room w) w u).1 in
          let small = stage_batch-length is_normalized room w in
          rw
            (
              e,
              below,
              normalize_end-rows normalize_item now
                  (normalize_items normalize_item now (stage_batch is_normalized room w) w),
            )
            (ground (arith, bound, small))
    ]

-- Where the items' keys are unique and a positive sample size is set, the number of items
-- normalized stays within the sample size unless it was above it.
normalize-sample :
    (normalize_item : WorkItem → World → Bool) (now : ℕ) (w : World) (n : ℕ)
    → IsKeyed item_pk w.items
    → w.campaign.parameters.ai_sample_size ≡ some (pos (suc n))
    → count_where is_normalized (rows (normalize normalize_item now w)).items
      ≤ max (count_where is_normalized w.items) (suc n)
unfolding normalize
normalize-sample normalize_item now w n u sample = elim (Bool-cases (is_off w.campaign.ai_mode)) [
  | inl off ↦ rw off (omega arith)
  | inr on ↦ rw on (
      normalize_batch-bound normalize_item now n
        (positive_int w.campaign.parameters.ai_batch_size 50) w.campaign.parameters.ai_sample_size w
        sample u)
]
