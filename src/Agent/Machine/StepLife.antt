-- ===== src/Agent/Machine/StepLife.antt =====
-- The times of a step, and its ends, in the machine of steps.
use noshiro_db_backend.Base.{
  ℕ, ◌≡◌, refl, ◌≢◌, ◌⊎◌, inl, inr, true, none, some, Option, List, arith, ◌==◌, Bool-cases,
  Option-cases, is_some, get, IsKeyed, All, All-update_one, get-update_one_ne, ==_iff,
}
use noshiro_db_backend.Agent.Model.{StepStatus, AgentStep, step_status_eq, step_status_eq_iff}
use noshiro_db_backend.Agent.Machine.Steps.{step_transition_stale}
use noshiro_db_backend.Agent.Machine.{
  StepTransition, step_next, step_updates, step_guard, step_transition, step_pk,
}

-- The times that go with a step's status. A retried step keeps those of its last attempt.
abbrev StepTimes : StepStatus → Option ℕ → Option ℕ → Type 0
StepTimes StepStatus.queued started finished = Unit
StepTimes StepStatus.running started finished = is_some started ≡ true
StepTimes StepStatus.waiting started finished = ⊥
StepTimes _ started finished = is_some finished ≡ true

abbrev StepIsTimed : AgentStep → Type 0
StepIsTimed r = StepTimes r.status r.started_at r.finished_at

step_updates-StepIsTimed :
    (now : ℕ) (copy : AgentStep) (a : StepTransition) (s : StepStatus) (r : AgentStep)
    → step_next copy.status a ≡ some s
    → r.status ≡ copy.status
    → (is_some copy.started_at ≡ true → is_some r.started_at ≡ true)
    → StepIsTimed r
    → StepIsTimed (step_updates now copy a s r)
unfolding step_next
step_updates-StepIsTimed now copy a s r e same hc h = ground arith

step_updates-started :
    (now : ℕ) (copy : AgentStep) (a : StepTransition) (s : StepStatus) (r : AgentStep)
    → is_some r.started_at ≡ true
    → is_some (step_updates now copy a s r).started_at ≡ true
step_updates-started now copy a s r h = ground arith

-- A row of the table is timed, and a copy of it shows a start only if the row has one.
abbrev StepIsTimedFor : AgentStep → AgentStep → Type 0
StepIsTimedFor copy r =
    StepIsTimed r × ((r.pk ≢ copy.pk) ⊎ (copy.started_at ≡ none) ⊎ (is_some r.started_at ≡ true))

shown_start :
    (copy r : AgentStep)
    → StepIsTimedFor copy r
    → r.pk ≡ copy.pk
    → is_some copy.started_at ≡ true
    → is_some r.started_at ≡ true
shown_start copy r h key started = elim h.1 [
  | inl other ↦ absurd (other key)
  | inr (inl unset) ↦ absurd (cc)
  | inr (inr set) ↦ set
]

-- Every transition, by whatever copy that shows no start which the row lacks, keeps every step
-- timed: a running step has a start, one that has ended has an end, and none is waiting.
step_transition-StepIsTimed :
    (now : ℕ) (copy : AgentStep) (a : StepTransition) (rows : List AgentStep)
    → All (StepIsTimedFor copy) rows
    → All (StepIsTimedFor copy) (step_transition now copy a rows).2
unfolding step_transition
step_transition-StepIsTimed now copy a rows h = elim (Option-cases (step_next copy.status a)) [
  | inl e ↦ rw (e, step_transition) h
  | inr (s, e) ↦
      rw (e, step_transition)
        (All-update_one (StepIsTimedFor copy) step_pk copy.pk (step_guard copy)
          (step_updates now copy a s) rows
          (λ r key q hr. (
            step_updates-StepIsTimed now copy a s r e
                ((step_status_eq_iff r.status copy.status).0 q) (shown_start copy r hr key) hr.0,
            elim (Option-cases copy.started_at) [
              | inl unset ↦ inr (inl unset)
              | inr (t, set) ↦ inr (
                  inr
                    (step_updates-started now copy a s r (shown_start copy r hr key (rw set refl))))
            ],
          ))
          h)
]

abbrev StepIsTerminal : StepStatus → Type 0
StepIsTerminal s =
    (s ≡ StepStatus.succeeded) ⊎ (s ≡ StepStatus.skipped) ⊎ (s ≡ StepStatus.cancelled)

step_next_terminal : (s : StepStatus) (a : StepTransition) → StepIsTerminal s → step_next s a ≡ none
unfolding step_next
step_next_terminal s a h = ground arith

-- In a table with unique keys, a step that has succeeded, been skipped or been cancelled is never
-- changed again by a transition, whatever the copy.
step_transition-terminal :
    (now : ℕ) (copy : AgentStep) (a : StepTransition) (rows : List AgentStep) (j : ℕ)
    (row : AgentStep)
    → IsKeyed step_pk rows
    → get step_pk j rows ≡ some row
    → StepIsTerminal row.status
    → get step_pk j (step_transition now copy a rows).2 ≡ some row
unfolding step_transition
step_transition-terminal now copy a rows j row u g h = elim (Bool-cases (j == copy.pk)) [
  | inl e ↦
      let at_copy : get step_pk copy.pk rows ≡ some row = rw (← (==_iff j copy.pk).0 e) g in
      rw ((==_iff j copy.pk).0 e) (elim (Bool-cases (step_status_eq row.status copy.status)) [
        | inl same ↦
            let stuck : step_next copy.status a ≡ none =
              rw (← (step_status_eq_iff row.status copy.status).0 same)
                (step_next_terminal row.status a h) in
            rw (stuck, step_transition) at_copy
        | inr other ↦
            rw
              (step_transition_stale now copy a rows row u at_copy
                (λ same. cc (other, (step_status_eq_iff row.status copy.status).1 same)))
              at_copy
      ])
  | inr ne ↦ elim (Option-cases (step_next copy.status a)) [
    | inl e ↦ rw (e, step_transition) g
    | inr (s, e) ↦
        rw
          (
            e,
            step_transition,
            get-update_one_ne step_pk copy.pk (step_guard copy) (step_updates now copy a s) rows j
                (λ x. refl) (ground arith),
          )
          g
  ]
]
