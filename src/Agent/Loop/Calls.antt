-- ===== src/Agent/Loop/Calls.antt =====
-- The rows that a model turn and its tool calls write (`_start_model_turn`, `_complete_turn` and
-- `_execute_tool_calls` of src/apps/ai/runtime/agent_loop.py).
use noshiro_db_backend.Base.{
  ℕ, zero, suc, true, false, Option, none, some, List, [], ◌∷◌, ◌++◌, String, ◌==◌, str_eq, is_text,
  if◌then◌else◌, exists_where, update_where, update_one,
}
use noshiro_db_backend.Agent.Model.{
  StepStatus, StepKind, of_step, StepError, StepInput, AgentStep, AgentRun, content,
}
use noshiro_db_backend.Agent.Machine.{StepTransition, run_pk, step_transition}
use noshiro_db_backend.Agent.Budget.{load}
use noshiro_db_backend.Agent.Transcript.{
  Role, ToolCall, append_message, messages_for_provider, take_chars,
}
use noshiro_db_backend.Agent.Registry.{SkillDefinition}
use noshiro_db_backend.Agent.Executor.{World, AiRun, StepResult, execute}
use noshiro_db_backend.Agent.Loop.{
  Loop, Completion, Answer, completed, refused, Driver, int_or_zero, next_sequence, with_runs,
}

abbrev no_input : StepInput
no_input = record {
  tool_name = none;
  parameters = none;
  idempotency_key = some "";
  use_case = "entity_matching";
  system_prompt = none;
  payload = none;
}

-- A new row of `AgentStep`, queued.
abbrev new_step : ℕ → ℕ → Option ℕ → ℕ → StepKind → String → String → StepInput → AgentStep
new_step pk run parent sequence kind skill_name skill_version input = record {
  pk = pk;
  run = run;
  parent = parent;
  sequence = sequence;
  kind = kind;
  status = StepStatus.queued;
  skill_name = skill_name;
  skill_version = skill_version;
  input = input;
  output = none;
  error = none;
  input_tokens = none;
  output_tokens = none;
  cost = none;
  latency_ms = none;
  retry_count = 0;
  started_at = none;
  finished_at = none;
}

abbrev pub with_steps : List AgentStep → Loop → Loop
with_steps rows l = record l { world = record (l.world) { steps = rows } }

abbrev pub with_ai_runs : List AiRun → Loop → Loop
with_ai_runs rows l = record l { world = record (l.world) { ai_runs = rows } }

module _ (d : Driver) (now latency run : ℕ) where
  abbrev pub message : Role → String → String → String → List ToolCall → Loop → Loop
  message role text name id calls l = record l {
    messages = append_message run role text name id calls l.messages;
  }

  -- The rows of `_start_model_turn` for a step.
  unfoldable pub start_rows : AgentStep → Loop → Loop
  start_rows step l =
      with_ai_runs
        (l.world.ai_runs
          ++ (record {
            agent_step = step.pk;
            use_case = d.use_case;
            succeeded = none;
            output = none;
            input_tokens = none;
            output_tokens = none;
            cost = none;
            error = "";
          }
              ∷ []))
        (with_steps (step_transition now step StepTransition.start (l.world.steps ++ (step ∷ []))).2
          l)

  -- The step of a turn; `none` is the `KeyError` of an unknown skill.
  unfoldable pub model_step : Option SkillDefinition → Loop → Option AgentStep
  model_step skill l =
      let version : Option String =
        if is_text d.skill_name
        then (elim skill [ none ↦ none | some s ↦ some s.version ])
        else some "" in
      elim version [
        | none ↦ none
        | some v ↦ some (
            new_step (d.new_pk l.world.steps) run none (next_sequence run l.world.steps)
              StepKind.model d.skill_name v (record no_input { use_case = d.use_case }))
      ]

  -- The attempts of `_complete_turn`: the first completion, or the last refusal.
  unfoldable pub complete_turn : ℕ → ℕ → String → Loop → Answer
  complete_turn zero attempt last l = refused last
  complete_turn (suc n) attempt last l =
      elim (d.complete_agent (messages_for_provider run l.messages) attempt) [
        | completed c ↦ completed c
        | refused text ↦ complete_turn n (suc attempt) text l
      ]

  -- What `_complete_turn` writes.
  unfoldable pub completion_rows : ℕ → Completion → Loop → Loop
  completion_rows step c l =
      with_ai_runs
        (update_where (λ a. a.agent_step == step)
          (λ a. record a {
            succeeded = some true;
            output = some (content (take_chars 1000000 c.content));
            input_tokens = int_or_zero c.input_tokens;
            output_tokens = int_or_zero c.output_tokens;
          })
          l.world.ai_runs)
        (message Role.assistant c.content "" "" c.calls l)

  -- `_mark_airun_failed`
  unfoldable pub mark_airun_failed : ℕ → String → Loop → Loop
  mark_airun_failed step text l =
      with_ai_runs
        (update_where (λ a. a.agent_step == step)
          (λ a. record a { succeeded = some false; error = take_chars 4000 text }) l.world.ai_runs)
        l

  -- The error of a tool result on the run.
  unfoldable pub note_error : Option StepError → Loop → Loop
  note_error none l = l
  note_error (some e) l =
      with_runs
        (update_one run_pk run (λ _. true)
          (λ r. record r { error = some (of_step e); updated_at = now }) l.world.runs).1
        l

  -- The tool message for a result.
  abbrev result_text : StepResult → String
  result_text r = elim r.output [ none ↦ d.error_text r.error | some output ↦ d.output_text output ]

  -- The result of a tool call, recorded.
  unfoldable pub record_result : ToolCall → Loop → StepResult × World → Loop
  record_result call l (result, w) =
      note_error result.error
        (message Role.tool (result_text result) call.name call.id [] (record l { world = w }))

  -- A tool call of a turn, for the copy of the run that the turn holds.
  unfoldable pub tool_call : AgentRun → ℕ → ToolCall → Loop → Loop
  tool_call copy parent call l =
      let child : AgentStep =
        new_step (d.new_pk l.world.steps) run (some parent) (next_sequence run l.world.steps)
          StepKind.tool "" ""
          (record no_input {
            tool_name = some call.name;
            parameters = some (d.parameters_of call);
          }) in
      if exists_where (str_eq call.name) d.tool_names
      then record_result call l (
          execute now latency d.complete_json (some d.tools) d.skills copy child (load copy)
            (record (l.world) { steps = l.world.steps ++ (child ∷ []) }) now)
      else message Role.tool (d.refusal_text call.name) call.name call.id [] l

  unfoldable pub tool_calls : AgentRun → ℕ → List ToolCall → Loop → Loop
  tool_calls copy parent [] l = l
  tool_calls copy parent (call ∷ rest) l =
      tool_calls copy parent rest (tool_call copy parent call l)
