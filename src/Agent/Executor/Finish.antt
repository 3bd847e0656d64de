-- ===== src/Agent/Executor/Finish.antt =====
-- A step that an executor has started does not stay running.
use noshiro_db_backend.Base.{
  ℕ, ◌≡◌, refl, sym, ◌∙◌, ap, inl, inr, true, Option, some, List, arith, is_some, if◌then◌else◌,
  get, IsKeyed, get-update_one,
}
use noshiro_db_backend.Agent.Model.{
  RunStatus, StepStatus, StepKind, AgentRun, AgentStep, run_status_eq, run_status_eq_iff,
}
use noshiro_db_backend.Agent.Machine.{
  StepTransition, step_next, step_updates, step_transition, step_pk,
}
use noshiro_db_backend.Agent.Machine.Steps.{step_transition_fresh, step_transition-IsKeyed}
use noshiro_db_backend.Agent.Budget.{Budget}
use noshiro_db_backend.Agent.Registry.{ToolDefinition, SkillDefinition}
use noshiro_db_backend.Agent.Executor.{
  World, StepResult, CompleteJson, finish_action, finish_columns, finish_step, identity_of,
  execute_kind, execute_started, execute,
}
use noshiro_db_backend.Agent.Executor.Once.{
  execute_model-calls, execute_tool-ToolEffect, invoke_tool-steps,
}

-- How a finished step ends.
abbrev pub ended : StepResult → StepStatus
ended result = if is_some result.error then StepStatus.failed else StepStatus.succeeded

module _ (complete_json : CompleteJson) (tools : Option (List ToolDefinition))
    (skills : List SkillDefinition) (run : AgentRun) where
  execute_kind-steps :
      (now : ℕ) (step : AgentStep) (budget : Budget) (w : World) (kind : StepKind)
      → (execute_kind now complete_json tools skills run step budget w kind).1.steps ≡ w.steps
  unfolding execute_kind
  execute_kind-steps now step budget w StepKind.model =
      (execute_model-calls complete_json skills step budget w).2
  execute_kind-steps now step budget w StepKind.tool =
      elim (execute_tool-ToolEffect now run step w tools) [
        | inl same ↦ ap (λ (v : World). v.steps) same
        | inr (tool, parameters, key, a, e) ↦
            ap (λ (v : World). v.steps) e
            ∙ invoke_tool-steps now step tool parameters
                (identity_of tool key run.idempotency_scope) w
      ]
  execute_kind-steps now step budget w _ = refl

finish_next :
    (result : StepResult)
    → step_next StepStatus.running (finish_action result) ≡ some (ended result)
unfolding step_next
finish_next result = ground arith

start_next : step_next StepStatus.queued StepTransition.start ≡ some StepStatus.running
unfolding step_next
start_next = refl

-- The end of a running step: its row has the status of the result, its output and its error.
finish_step-get :
    (now latency : ℕ) (step row : AgentStep) (result : StepResult) (rows : List AgentStep)
    → IsKeyed step_pk rows
    → get step_pk step.pk rows ≡ some row
    → step.status ≡ StepStatus.running
    → row.status ≡ StepStatus.running
    → (row' : AgentStep) × (get step_pk step.pk (finish_step now latency step result rows)
        ≡ some row')
      × (row'.status ≡ ended result)
      × (row'.output ≡ result.output)
      × (row'.error ≡ result.error)
      × (row'.finished_at ≡ some now)
unfolding finish_step
finish_step-get now latency step row result rows u g cs rs =
    let a = finish_action result in
    let (won, _, g') =
      step_transition_fresh now step a rows row u g (ended result) (rs ∙ sym cs)
        (rw cs (finish_next result)) in
    (
      finish_columns latency result (step_updates now step a (ended result) row),
      rw won (
          get-update_one step_pk step.pk (λ _. true) (finish_columns latency result) _ _ (λ x. refl)
            g'),
      refl,
      refl,
      refl,
      ground arith,
    )

module _ (complete_json : CompleteJson) (tools : Option (List ToolDefinition))
    (skills : List SkillDefinition) (run : AgentRun) where
  -- In a table with unique keys, a step that is queued, in the copy and in the row, of a running
  -- run has ended when `execute` returns: its row is failed exactly if the result has an error and
  -- succeeded otherwise, it holds the output and the error of the result, and its end is noted.
  pub execute_ends :
      (now later latency : ℕ) (step row : AgentStep) (budget : Budget) (w : World)
      → IsKeyed step_pk w.steps
      → get step_pk step.pk w.steps ≡ some row
      → run.status ≡ RunStatus.running
      → step.status ≡ StepStatus.queued
      → row.status ≡ StepStatus.queued
      → let (result, w') = execute later latency complete_json tools skills run step budget w now in
        (row' : AgentStep) × (get step_pk step.pk w'.steps ≡ some row')
        × (row'.status ≡ ended result)
        × (row'.output ≡ result.output)
        × (row'.error ≡ result.error)
        × (row'.finished_at ≡ some later)
  unfolding execute execute_started
  execute_ends now later latency step row budget w u g rs cs qs =
      let (won, copy, g') =
        step_transition_fresh now step StepTransition.start w.steps row u g StepStatus.running
          (qs ∙ sym cs) (rw cs start_next) in
      let rows = (step_transition now step StepTransition.start w.steps).2 in
      let step' : AgentStep = record step { status = StepStatus.running } in
      let (result, w') =
        execute_kind later complete_json tools skills run step' budget (record w { steps = rows })
          step'.kind in
      let kept : w'.steps ≡ rows =
        execute_kind-steps complete_json tools skills run later step' budget
          (record w { steps = rows }) step'.kind in
      let test : run_status_eq run.status RunStatus.running ≡ true =
        (run_status_eq_iff run.status RunStatus.running).1 rs in
      rw (test, won, copy)
        (finish_step-get later latency step'
          (step_updates now step StepTransition.start StepStatus.running row) result w'.steps
          (rw kept (step_transition-IsKeyed now step StepTransition.start w.steps row u g))
          (rw kept g') refl refl)
