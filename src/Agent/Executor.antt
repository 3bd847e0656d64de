-- ===== src/Agent/Executor.antt =====
-- Execution of one persisted step (src/apps/ai/runtime/executor.py). The provider of completions,
-- the clock and the duration of a call are arguments; the handlers of tools are in the registry.
mod Rows
mod ModelStep
mod ToolStep
pub mod Once
pub mod Finish
pub mod Unkeyed
pub use Rows.*
unfoldable pub use ModelStep.*
unfoldable pub use ToolStep.*
use noshiro_db_backend.Base.{
  ℕ, suc, ◌+◌, Bool, true, false, ◌&&◌, ◌||◌, not, Option, none, some, List, [], ◌∷◌, ◌++◌, String,
  ltb, ◌==◌, str_eq, is_text, is_some, if◌then◌else◌, or_default, length, exists_where, first_where,
  update_one, ℤ, pos, negsuc, is_blank, text_length,
}
use noshiro_db_backend.Agent.Model.{
  RunStatus, StepStatus, StepKind, ToolParameters, AgentStep, AgentRun, run_status_eq, StepError,
  run_is, step_is, no_registered_executor, budget_exhausted, no_system_prompt, payload_not_object,
  no_skill_contract, unknown_skill, skill_version_mismatch, invalid_skill_input, no_tool_registry,
  invalid_tool_input, missing_scope, invalid_idempotency, no_idempotency_key, other_idempotency_key,
  already_running, previously_failed, unregistered_tool, raised, StepOutput, document, of_input,
}
use noshiro_db_backend.Agent.Machine.{StepTransition, step_transition, step_pk}
use noshiro_db_backend.Agent.Budget.{Budget, is_exhausted, exhaustion_reason}
use noshiro_db_backend.Agent.Registry.{
  Outcome, returned, raises, ToolDefinition, SkillDefinition, get_tool, get_skill,
}

-- `StepTransition.FAIL if result.error else StepTransition.SUCCEED`
abbrev pub finish_action : StepResult → StepTransition
finish_action result = if is_some result.error then StepTransition.fail else StepTransition.succeed

-- The columns that `_finish_step` writes after a won transition.
abbrev pub finish_columns : ℕ → StepResult → AgentStep → AgentStep
finish_columns latency result row = record row {
  output = result.output;
  error = result.error;
  input_tokens = result.input_tokens;
  output_tokens = result.output_tokens;
  cost = result.cost;
  latency_ms = some latency;
}

-- `_finish_step`, on the table of steps.
unfoldable pub finish_step : ℕ → ℕ → AgentStep → StepResult → List AgentStep → List AgentStep
finish_step now latency step result rows =
    let (won, _, rows') = step_transition now step (finish_action result) rows in
    if won
    then (update_one step_pk step.pk (λ _. true) (finish_columns latency result) rows').1
    else rows'

-- What a started step does, by its kind.
unfoldable pub execute_kind :
    ℕ
    → CompleteJson
    → Option (List ToolDefinition)
    → List SkillDefinition
    → AgentRun
    → AgentStep
    → Budget
    → World
    → StepKind
    → StepResult × World
unfolding execute_model execute_tool
execute_kind now complete_json tools skills run step budget w StepKind.model =
    execute_model complete_json skills step budget w
execute_kind now complete_json tools skills run step budget w StepKind.tool =
    execute_tool now run step w tools
execute_kind now complete_json tools skills run step budget w StepKind.plan =
    (step_output (some (of_input step.input)) [], w)
execute_kind now complete_json tools skills run step budget w kind =
    (step_error (no_registered_executor kind), w)

module _ (later latency : ℕ) (complete_json : CompleteJson) (tools : Option (List ToolDefinition))
    (skills : List SkillDefinition) (run : AgentRun) (step : AgentStep) (budget : Budget)
    (w : World) where
  -- By the answer to the start: the caller's step, the machine's and the table.
  execute_started : Bool → AgentStep → List AgentStep → StepResult × World
  execute_started false step' rows = (step_error (step_is step.status), record w { steps = rows })
  execute_started true step' rows =
      let (result, w') =
        execute_kind later complete_json tools skills run step' budget (record w { steps = rows })
          step'.kind in
      (result, record w' { steps = finish_step later latency step' result w'.steps })

  -- `StepExecutor.execute`. The step starts at `now` and ends at `later`.
  unfoldable pub execute : ℕ → StepResult × World
  unfolding execute_started
  execute now =
      let (started, step', rows) = step_transition now step StepTransition.start w.steps in
      if run_status_eq run.status RunStatus.running
      then execute_started started step' rows
      else (step_error (run_is run.status), w)
