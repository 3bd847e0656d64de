-- ===== src/Agent/Transcript/Order.antt =====
-- The transcript only grows at its end, and numbers its messages without repetition.
use mathlib.Core.List.{map-append, append-nil}
use noshiro_db_backend.Base.{
  ℕ, ◌+◌, ◌≤◌, ◌<◌, ◌≡◌, refl, ap, ◌∙◌, ◌≢◌, inl, inr, Bool, Option, none, some, List, [], ◌∷◌,
  ◌++◌, map, String, arith, ◌==◌, ==_refl, Bool-cases, Option-cases, All, select_where, order_by,
  order_by-last,
}
use noshiro_db_backend.Agent.Transcript.{
  Role, ToolCall, AgentMessage, message_sequence, last_sequence, next_message, append_message,
  provider_message, messages_for_provider,
}

abbrev NoneAbove : ℕ → Option ℕ → Type 0
NoneAbove n none = Unit
NoneAbove n (some m) = m ≤ n

last_sequence-bound :
    (run n : ℕ) (rows : List AgentMessage)
    → NoneAbove n (last_sequence run rows)
    → All (λ m. message_sequence m < n + 1) (select_where (λ m. m.run == run) rows)
unfolding last_sequence
last_sequence-bound run n [] h = tt
last_sequence-bound run n (m ∷ t) h = elim (Option-cases (last_sequence run t)) [
  | inl e ↦ elim (Bool-cases (m.run == run)) [
    | inl own ↦ rw own (ground arith, last_sequence-bound run n t (rw e tt))
    | inr other ↦ rw other (last_sequence-bound run n t (rw e tt))
  ]
  | inr (k, e) ↦ elim (Bool-cases (m.run == run)) [
    | inl own ↦ rw own (ground arith, last_sequence-bound run n t (rw e (ground arith)))
    | inr other ↦ rw other (last_sequence-bound run n t (rw e (ground arith)))
  ]
]

select-append :
    (p : AgentMessage → Bool) (s t : List AgentMessage)
    → select_where p (s ++ t) ≡ select_where p s ++ select_where p t
select-append p [] t = refl
select-append p (x ∷ s) t = ground (arith, select-append p s t)

module _ (run : ℕ) (role : Role) (content name id : String) (calls : List ToolCall)
    (rows : List AgentMessage) where
  -- The number of a new message is above all that the run has.
  next_message-above :
      All
        (λ m. m.sequence < (next_message run role content name id calls rows).sequence)
        (select_where (λ m. m.run == run) rows)
  unfolding next_message
  next_message-above = elim (Option-cases (last_sequence run rows)) [
    | inl e ↦ rw e (last_sequence-bound run 0 rows (rw e tt))
    | inr (n, e) ↦ rw e (last_sequence-bound run n rows (rw e (omega arith)))
  ]

  select_new :
      let new = next_message run role content name id calls rows in
      select_where (λ m. m.run == run) (new ∷ []) ≡ new ∷ []
  unfolding next_message
  select_new = rw (==_refl run)

  select_new_ne :
      (other : ℕ)
      → other ≢ run
      → select_where (λ m. m.run == other) (next_message run role content name id calls rows ∷ [])
        ≡ []
  unfolding next_message
  select_new_ne other ne = ground arith

  -- What the provider is sent after an append is what it was sent before, then the new message.
  pub messages_for_provider-append_message :
      messages_for_provider run (append_message run role content name id calls rows)
      ≡ messages_for_provider run rows
        ++ provider_message (next_message run role content name id calls rows) ∷ []
  unfolding messages_for_provider append_message
  messages_for_provider-append_message =
      let new = next_message run role content name id calls rows in
      let own = select_where (λ m. m.run == run) rows in
      ap (λ l. map provider_message (order_by message_sequence l))
        (select-append (λ m. m.run == run) rows (new ∷ []) ∙ ap (λ l. own ++ l) select_new)
      ∙ (ap (map provider_message) (order_by-last message_sequence new own next_message-above)
          ∙ map-append provider_message (order_by message_sequence own) (new ∷ []))

  -- An append to one run does not show in the transcript of another.
  messages_for_provider-append_ne :
      (other : ℕ)
      → other ≢ run
      → messages_for_provider other (append_message run role content name id calls rows)
        ≡ messages_for_provider other rows
  unfolding messages_for_provider append_message
  messages_for_provider-append_ne other ne =
      let theirs = select_where (λ m. m.run == other) rows in
      ap (λ l. map provider_message (order_by message_sequence l))
        (select-append (λ m. m.run == other) rows
            (next_message run role content name id calls rows ∷ [])
          ∙ (ap (λ l. theirs ++ l) (select_new_ne other ne) ∙ append-nil theirs))
