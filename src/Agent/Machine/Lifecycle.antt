-- ===== src/Agent/Machine/Lifecycle.antt =====
-- What holds of the rows over the life of a table that only the state machines write.
use noshiro_db_backend.Base.{
  ℕ, ◌≡◌, ◌⊎◌, inl, inr, true, none, some, Option, List, arith, Bool-cases, Option-cases, is_some,
  get, IsKeyed, All, All-update_one, ◌==◌, refl, ==_iff, get-update_one_ne,
}
use noshiro_db_backend.Agent.Model.{RunStatus, AgentRun, run_status_eq, run_status_eq_iff}
use noshiro_db_backend.Agent.Machine.{
  RunTransition, run_next, run_updates, run_guard, run_transition, run_pk,
}
use noshiro_db_backend.Agent.Machine.Race.{run_transition_stale}

-- The times that go with a run's status. No machine makes a run `waiting`.
abbrev RunTimes : RunStatus → Option ℕ → Option ℕ → Type 0
RunTimes RunStatus.queued started finished = (started ≡ none) × (finished ≡ none)
RunTimes RunStatus.running started finished = (is_some started ≡ true) × (finished ≡ none)
RunTimes RunStatus.paused started finished = (is_some started ≡ true) × (finished ≡ none)
RunTimes RunStatus.waiting started finished = ⊥
RunTimes _ started finished = (is_some started ≡ true) × (is_some finished ≡ true)

abbrev RunIsTimed : AgentRun → Type 0
RunIsTimed r = RunTimes r.status r.started_at r.finished_at

run_updates-RunIsTimed :
    (now : ℕ) (copy : AgentRun) (a : RunTransition) (s : RunStatus) (r : AgentRun)
    → run_next copy.status a ≡ some s
    → r.status ≡ copy.status
    → RunIsTimed copy
    → RunIsTimed r
    → RunIsTimed (run_updates now copy a s r)
unfolding run_next
run_updates-RunIsTimed now copy a s r e same hc h = ground arith

-- Every transition, by a copy that is timed itself, keeps every run timed: a queued run has no
-- times, a running or paused one has a start and no end, a finished one has both, and none is
-- waiting.
run_transition-RunIsTimed :
    (now : ℕ) (copy : AgentRun) (a : RunTransition) (rows : List AgentRun)
    → RunIsTimed copy
    → All RunIsTimed rows
    → All RunIsTimed (run_transition now copy a rows).2
unfolding run_transition
run_transition-RunIsTimed now copy a rows hc h = elim (Option-cases (run_next copy.status a)) [
  | inl e ↦ rw (e, run_transition) h
  | inr (s, e) ↦
      rw (e, run_transition)
        (All-update_one RunIsTimed run_pk copy.pk (run_guard copy) (run_updates now copy a s) rows
          (λ r _ q hr.
            run_updates-RunIsTimed now copy a s r e ((run_status_eq_iff r.status copy.status).0 q)
              hc hr)
          h)
]

abbrev RunIsTerminal : RunStatus → Type 0
RunIsTerminal s = (s ≡ RunStatus.succeeded) ⊎ (s ≡ RunStatus.failed) ⊎ (s ≡ RunStatus.cancelled)

run_next_terminal : (s : RunStatus) (a : RunTransition) → RunIsTerminal s → run_next s a ≡ none
unfolding run_next
run_next_terminal s a h = ground arith

-- In a table with unique keys, a run that has succeeded, failed or been cancelled is never changed
-- again by a transition, whatever the copy.
run_transition-terminal :
    (now : ℕ) (copy : AgentRun) (a : RunTransition) (rows : List AgentRun) (j : ℕ) (row : AgentRun)
    → IsKeyed run_pk rows
    → get run_pk j rows ≡ some row
    → RunIsTerminal row.status
    → get run_pk j (run_transition now copy a rows).2 ≡ some row
unfolding run_transition
run_transition-terminal now copy a rows j row u g h = elim (Bool-cases (j == copy.pk)) [
  | inl e ↦
      let at_copy : get run_pk copy.pk rows ≡ some row = rw (← (==_iff j copy.pk).0 e) g in
      rw ((==_iff j copy.pk).0 e) (elim (Bool-cases (run_status_eq row.status copy.status)) [
        | inl same ↦
            let stuck : run_next copy.status a ≡ none =
              rw (← (run_status_eq_iff row.status copy.status).0 same)
                (run_next_terminal row.status a h) in
            rw (stuck, run_transition) at_copy
        | inr other ↦
            rw
              (run_transition_stale now copy a rows row u at_copy
                (λ same. cc (other, (run_status_eq_iff row.status copy.status).1 same)))
              at_copy
      ])
  | inr ne ↦ elim (Option-cases (run_next copy.status a)) [
    | inl e ↦ rw (e, run_transition) g
    | inr (s, e) ↦
        rw
          (
            e,
            run_transition,
            get-update_one_ne run_pk copy.pk (run_guard copy) (run_updates now copy a s) rows j
                (λ x. refl) (ground arith),
          )
          g
  ]
]
