-- ===== src/Agent/Executor/ToolStep.antt =====
-- A tool step: scope, idempotency and invocation (`_execute_tool` of
-- src/apps/ai/runtime/executor.py).
use noshiro_db_backend.Base.{
  ℕ, suc, Bool, true, false, ◌&&◌, ◌||◌, not, Option, none, some, List, [], ◌∷◌, ◌++◌, String, ltb,
  str_eq, is_text, if◌then◌else◌, length, exists_where, first_where, update_one, text_length,
}
use noshiro_db_backend.Agent.Model.{
  ToolParameters, AgentStep, AgentRun, StepError, no_tool_registry, invalid_tool_input,
  missing_scope, invalid_idempotency, no_idempotency_key, other_idempotency_key, already_running,
  previously_failed, unregistered_tool, raised, StepOutput, document,
}
use noshiro_db_backend.Agent.Registry.{returned, raises, ToolDefinition, get_tool}
use noshiro_db_backend.Agent.Executor.Rows.{
  InvocationStatus, Identity, ToolInvocation, World, StepResult, step_error, step_output,
  identity_eq,
}

abbrev pub invocation_pk : ToolInvocation → ℕ
invocation_pk i = i.pk

-- The new row of a tool call, with a key that no row has yet.
abbrev pub new_invocation :
    AgentStep → ToolDefinition → ToolParameters → Identity → World → ToolInvocation
new_invocation step tool parameters identity w = record {
  pk = suc (length w.invocations);
  step = step.pk;
  identity = identity;
  status = InvocationStatus.running;
  parameters = parameters;
  permission_scope = tool.permission;
  risk_level = tool.risk_level;
  has_side_effects = tool.has_side_effects;
  result = none;
  error = "";
  finished_at = none;
}

-- From the result of the handler on: the evidence, whose exception `execute` turns into the error of
-- the step, when the invocation has already succeeded.
unfoldable pub capture_evidence : ToolDefinition → ℕ → String → World → StepResult × World
capture_evidence tool pk result w =
    let output = step_output (some (document result)) (pk ∷ []) in
    if tool.records_evidence
    then elim (tool.capture_fault result) [
      | some text ↦ (step_error (raised text), w)
      | none ↦ (output, record w { artifacts = w.artifacts ++ (pk, result) ∷ [] })
    ]
    else (output, w)

-- From the creation of the row on: the row, the call of the handler, the end of the row and, after
-- a success, the evidence.
unfoldable pub invoke_tool :
    ℕ → AgentStep → ToolDefinition → ToolParameters → Identity → World → StepResult × World
unfolding capture_evidence
invoke_tool now step tool parameters identity w =
    let invocation = new_invocation step tool parameters identity w in
    let rows = w.invocations ++ invocation ∷ [] in
    let save : (ToolInvocation → ToolInvocation) → List ToolInvocation =
      λ f. (update_one invocation_pk invocation.pk (λ _. true) f rows).1 in
    let calls = w.calls ++ identity ∷ [] in
    elim (tool.execute parameters) [
      | raises text ↦ (
        step_error (raised text),
        record w {
          invocations = save (λ r. record r {
            status = InvocationStatus.failed;
            error = text;
            finished_at = some now;
          });
          calls = calls;
        },
      )
      | returned result ↦ capture_evidence tool invocation.pk result (record w {
        invocations = save (λ r. record r {
          status = InvocationStatus.succeeded;
          result = some result;
          finished_at = some now;
        });
        calls = calls;
      })
    ]

-- `ToolInvocation.objects.filter(…).first()`, made only for a key that is not empty.
abbrev pub find_previous : Identity → World → Option ToolInvocation
find_previous identity w =
    if is_text identity.idempotency_key
    then first_where (λ i. identity_eq i.identity identity) w.invocations
    else none

-- `previous.result` as the output of the step.
abbrev replayed : Option String → Option StepOutput
replayed none = none
replayed (some text) = some (document text)

-- An earlier invocation under the same key answers for the new one, or refuses it.
abbrev reuse_invocation : ToolInvocation → StepResult
reuse_invocation previous = elim previous.status [
  | InvocationStatus.succeeded ↦ step_output (replayed previous.result) (previous.pk ∷ [])
  | InvocationStatus.running ↦ step_error already_running
  | InvocationStatus.failed ↦ step_error previously_failed
]

-- `parameters.get("idempotency_key") == key`
abbrev has_key : ToolParameters → String → Bool
has_key parameters key = elim parameters.idempotency_key [ none ↦ false | some k ↦ str_eq k key ]

-- The checks of the idempotency metadata, with the error of the first that fails.
unfoldable pub check_idempotency :
    ToolDefinition → ToolParameters → String → String → Option StepError
unfolding text_length
check_idempotency tool parameters key scope =
    if ltb 128 (text_length key) || not (is_text scope) || ltb 128 (text_length scope)
    then some invalid_idempotency
    else if tool.has_side_effects && not (is_text key)
    then some no_idempotency_key
    else if tool.has_side_effects && not (has_key parameters key)
    then some other_idempotency_key
    else none

abbrev pub identity_of : ToolDefinition → String → String → Identity
identity_of tool key scope = record {
  tool_name = tool.name;
  tool_version = tool.version;
  idempotency_key = key;
  idempotency_scope = scope;
}

module _ (now : ℕ) (run : AgentRun) (step : AgentStep) (tool : ToolDefinition)
    (parameters : ToolParameters) (w : World) where
  -- The end of `_execute_tool`, by the earlier invocation.
  unfoldable pub execute_fresh : Identity → Option ToolInvocation → StepResult × World
  unfolding invoke_tool
  execute_fresh identity none = invoke_tool now step tool parameters identity w
  execute_fresh identity (some previous) = (reuse_invocation previous, w)

  -- By the first check that fails.
  unfoldable pub execute_checked : String → Option StepError → StepResult × World
  unfolding execute_fresh
  execute_checked key (some e) = (step_error e, w)
  execute_checked key none =
      let identity = identity_of tool key run.idempotency_scope in
      execute_fresh identity (find_previous identity w)

  -- By the key of the step.
  unfoldable pub execute_keyed : Option String → StepResult × World
  unfolding execute_checked check_idempotency
  execute_keyed none = (step_error invalid_idempotency, w)
  execute_keyed (some key) =
      execute_checked key (check_idempotency tool parameters key run.idempotency_scope)

  -- `_execute_tool` from the tool on.
  unfoldable pub execute_registered : StepResult × World
  unfolding execute_keyed
  execute_registered =
      if exists_where (λ s. str_eq s tool.permission) run.scopes
      then execute_keyed step.input.idempotency_key
      else (step_error (missing_scope tool.permission), w)

module _ (now : ℕ) (run : AgentRun) (step : AgentStep) (w : World) where
  -- By what the registry has under the name.
  unfoldable pub execute_found :
      String → ToolParameters → Option ToolDefinition → StepResult × World
  unfolding execute_registered
  execute_found name parameters none = (step_error (unregistered_tool name), w)
  execute_found name parameters (some tool) = execute_registered now run step tool parameters w

  -- By the name and the parameters of the step's input.
  unfoldable pub execute_input :
      List ToolDefinition → Option String → Option ToolParameters → StepResult × World
  unfolding execute_found get_tool
  execute_input tools (some name) (some parameters) =
      execute_found name parameters (get_tool name tools)
  execute_input tools (some name) none = (step_error invalid_tool_input, w)
  execute_input tools none parameters = (step_error invalid_tool_input, w)

  -- `_execute_tool`
  unfoldable pub execute_tool : Option (List ToolDefinition) → StepResult × World
  unfolding execute_input
  execute_tool none = (step_error no_tool_registry, w)
  execute_tool (some tools) = execute_input tools step.input.tool_name step.input.parameters
