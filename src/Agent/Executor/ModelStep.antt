-- ===== src/Agent/Executor/ModelStep.antt =====
-- A model step: the checks of its input, the call of the provider and the validation of the answer
-- (`_execute_model` of src/apps/ai/runtime/executor.py).
use noshiro_db_backend.Base.{
  ℕ, Bool, true, false, ◌&&◌, not, Option, none, some, List, [], ◌∷◌, ◌++◌, String, str_eq, is_text,
  if◌then◌else◌, ℤ, pos, negsuc, is_blank,
}
use noshiro_db_backend.Agent.Model.{
  AgentStep, budget_exhausted, no_system_prompt, payload_not_object, no_skill_contract,
  unknown_skill, skill_version_mismatch, invalid_skill_input, raised, StepOutput, document,
}
use noshiro_db_backend.Agent.Budget.{Budget, is_exhausted, exhaustion_reason}
use noshiro_db_backend.Agent.Registry.{Outcome, returned, raises, SkillDefinition, get_skill}
use noshiro_db_backend.Agent.Executor.Rows.{AiRun, World, StepResult, step_error}

-- `_non_negative_int` and `_non_negative_decimal`: the argument is the number that the value reads
-- as, if it reads as one.
unfoldable non_negative : Option ℤ → Option ℕ
non_negative none = none
non_negative (some (pos n)) = some n
non_negative (some (negsuc n)) = none

-- The usage that a provider reports; a missing count is `none`.
pub record Usage : Type 0 where
  pub input_tokens : Option ℤ
  pub output_tokens : Option ℤ
  pub cost : Option ℤ

-- `usage: dict[str, Any] = {}`
abbrev pub no_usage : Usage
no_usage = record { input_tokens = none; output_tokens = none; cost = none }

-- What `complete_json` comes to.
pub data JsonCompletion : Type 0 where
  completed : String → Usage → JsonCompletion
  refused : String → JsonCompletion

-- The provider: use case, prompt, schema of the answer, payload.
abbrev pub CompleteJson : Type 0
CompleteJson = String → String → String → String → JsonCompletion

-- The `AIRun` row and the result of a model call, by how validation of its output ended.
abbrev model_result : AgentStep → Usage → Outcome → World → StepResult × World
model_result step usage outcome w =
    let input_tokens = non_negative usage.input_tokens in
    let output_tokens = non_negative usage.output_tokens in
    let cost = non_negative usage.cost in
    let row : Bool → Option StepOutput → String → AiRun = λ good output error. record {
      agent_step = step.pk;
      use_case = step.input.use_case;
      succeeded = some good;
      output = output;
      input_tokens = input_tokens;
      output_tokens = output_tokens;
      cost = cost;
      error = error;
    } in
    elim outcome [
      | raises text ↦ (
        record {
          output = none;
          error = some (raised text);
          tool_invocations = [];
          input_tokens = input_tokens;
          output_tokens = output_tokens;
          cost = cost;
        },
        record w { ai_runs = w.ai_runs ++ row false none text ∷ [] },
      )
      | returned output ↦ (
        record {
          output = some (document output);
          error = none;
          tool_invocations = [];
          input_tokens = input_tokens;
          output_tokens = output_tokens;
          cost = cost;
        },
        record w { ai_runs = w.ai_runs ++ row true (some (document output)) "" ∷ [] },
      )
    ]

-- The call of the provider and the validation of what it returns.
abbrev call_model :
    CompleteJson → AgentStep → SkillDefinition → String → String → World → StepResult × World
call_model complete_json step skill system_prompt payload w =
    elim (complete_json step.input.use_case system_prompt skill.output_schema payload) [
      | refused text ↦ model_result step no_usage (raises text) w
      | completed raw usage ↦ model_result step usage (skill.validate_output raw) w
    ]

-- From the skill on: the version and the input must fit it.
abbrev execute_skill :
    CompleteJson → AgentStep → Option SkillDefinition → String → String → World → StepResult × World
execute_skill complete_json step none system_prompt payload w =
    (step_error (unknown_skill step.skill_name), w)
execute_skill complete_json step (some skill) system_prompt payload w =
    if is_text step.skill_version && not (str_eq step.skill_version skill.version)
    then (step_error (skill_version_mismatch step.skill_version skill.version), w)
    else elim (skill.validate_input payload) [
      | raises text ↦ (step_error (invalid_skill_input text), w)
      | returned _ ↦ call_model complete_json step skill system_prompt payload w
    ]

-- `_execute_model`
unfoldable pub execute_model :
    CompleteJson → List SkillDefinition → AgentStep → Budget → World → StepResult × World
unfolding is_exhausted exhaustion_reason is_blank get_skill non_negative
execute_model complete_json skills step budget w =
    if is_exhausted budget
    then (step_error (budget_exhausted (exhaustion_reason budget)), w)
    else elim step.input.system_prompt [
      | none ↦ (step_error no_system_prompt, w)
      | some system_prompt ↦
          if is_blank system_prompt
          then (step_error no_system_prompt, w)
          else elim step.input.payload [
            | none ↦ (step_error payload_not_object, w)
            | some payload ↦
                if not (is_text step.skill_name)
                then (step_error no_skill_contract, w)
                else execute_skill complete_json step (get_skill step.skill_name skills)
                    system_prompt payload w
          ]
    ]
