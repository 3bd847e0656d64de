-- ===== src/Agent/Tests.antt =====
-- Concrete runs, steps, tools and messages, and the theorems of the agent runtime at them.
use noshiro_db_backend.Base.{
  pos, ◌⊎◌, ◌≡◌, refl, true, false, Option, none, some, List, [], ◌∷◌, get, update_one, arith,
}
use noshiro_db_backend.Agent.Model.{
  ToolParameters, RunStatus, StepStatus, StepKind, StepInput, AgentStep, AgentRun,
}
use noshiro_db_backend.Agent.Machine.{RunTransition, step_pk, run_transition, run_next}
use noshiro_db_backend.Agent.Machine.Race.{run_transition-one_winner}
use noshiro_db_backend.Agent.Budget.{Budget, default_budget, from_dict, load}
use noshiro_db_backend.Agent.Transcript.{Role, AgentMessage}
use noshiro_db_backend.Agent.Registry.{returned, ToolDefinition}
use noshiro_db_backend.Agent.Loop.{Driver, Loop, start_run, recover_inflight}
use noshiro_db_backend.Agent.Loop.{completed as completed_turn}
use noshiro_db_backend.Agent.Loop.Turn.{start_or_resume, run_loop}
use noshiro_db_backend.Agent.Loop.Ends.{run_loop_ends}
use noshiro_db_backend.Agent.Executor.Unkeyed.{execute_tool_unkeyed}
use noshiro_db_backend.Agent.Executor.{
  invoke_tool, identity_of, Identity, World, CompleteJson, completed, no_usage, execute,
  execute_tool,
}
use noshiro_db_backend.Agent.Executor.Once.{
  IsOnce, ToolEffect, execute_tool-ToolEffect, execute-IsOnce,
}
use noshiro_db_backend.Agent.Executor.Finish.{ended, execute_ends}

abbrev input : StepInput
input = record {
  tool_name = some "evidence.save";
  parameters = some (record { idempotency_key = some "k"; body = "{}" });
  idempotency_key = some "k";
  use_case = "agent";
  system_prompt = none;
  payload = none;
}

abbrev queued_step : AgentStep
queued_step = record {
  pk = 1;
  run = 7;
  parent = none;
  sequence = 3;
  kind = StepKind.tool;
  status = StepStatus.queued;
  skill_name = "";
  skill_version = "";
  input = input;
  output = none;
  error = none;
  input_tokens = none;
  output_tokens = none;
  cost = none;
  latency_ms = none;
  retry_count = 0;
  started_at = none;
  finished_at = none;
}

abbrev done_step : AgentStep
done_step = record queued_step {
  pk = 2;
  sequence = 4;
  status = StepStatus.succeeded;
  started_at = some 10;
  finished_at = some 12;
}

abbrev queued_run : AgentRun
queued_run = record {
  pk = 7;
  status = RunStatus.queued;
  scopes = "write" ∷ [];
  idempotency_scope = "run-7";
  budget = none;
  checkpoint = none;
  error = none;
  started_at = none;
  finished_at = none;
  updated_at = 0;
}

abbrev running_run : AgentRun
running_run = record queued_run { status = RunStatus.running; started_at = some 5 }

abbrev ended_run : AgentRun
ended_run = record running_run { pk = 8; status = RunStatus.succeeded; finished_at = some 9 }

abbrev save_tool : ToolDefinition
save_tool = record {
  name = "evidence.save";
  version = "1";
  permission = "write";
  risk_level = "low";
  has_side_effects = true;
  records_evidence = true;
  capture_fault = λ result. none;
  execute = λ p. returned p.body;
}

abbrev other_tool : ToolDefinition
other_tool = record save_tool { version = "2" }

abbrev small_world : World
small_world = record {
  runs = running_run ∷ [];
  steps = queued_step ∷ done_step ∷ [];
  invocations = [];
  artifacts = [];
  ai_runs = [];
  calls = [];
}

abbrev complete : CompleteJson
complete use_case prompt schema payload = completed "{}" no_usage

abbrev tool_list : Option (List ToolDefinition)
tool_list = some (save_tool ∷ [])

abbrev key_of_k : Identity
key_of_k = record {
  tool_name = "evidence.save";
  tool_version = "1";
  idempotency_key = "k";
  idempotency_scope = "run-7";
}

execute-IsOnce_example :
    IsOnce key_of_k
      (execute 20 3 complete tool_list [] running_run queued_step default_budget small_world 15).1
execute-IsOnce_example =
    execute-IsOnce complete tool_list [] running_run key_of_k refl 15 20 3 queued_step
      default_budget small_world (omega arith, omega arith)

execute_tool-ToolEffect_example :
    ToolEffect 15 running_run queued_step small_world
      (execute_tool 15 running_run queued_step small_world tool_list).1
execute_tool-ToolEffect_example =
    execute_tool-ToolEffect 15 running_run queued_step small_world tool_list

execute_ends_example :
    let (result, w') =
      execute 20 3 complete tool_list [] running_run queued_step default_budget small_world 15 in
    (row' : AgentStep) × (get step_pk 1 w'.steps ≡ some row')
    × (row'.status ≡ ended result)
    × (row'.output ≡ result.output)
    × (row'.error ≡ result.error)
    × (row'.finished_at ≡ some 20)
execute_ends_example =
    execute_ends complete tool_list [] running_run 15 20 3 queued_step queued_step default_budget
      small_world (refl, (refl, tt)) refl refl refl refl

abbrev runs : List AgentRun
runs = queued_run ∷ ended_run ∷ []

run_transition-one_winner_example :
    run_transition 40 queued_run RunTransition.cancel
      (run_transition 30 queued_run RunTransition.start runs).2
    ≡ (false, queued_run, (run_transition 30 queued_run RunTransition.start runs).2)
unfolding run_transition run_next update_one
run_transition-one_winner_example =
    run_transition-one_winner 30 40 queued_run queued_run RunTransition.start RunTransition.cancel
      runs queued_run (refl, (refl, tt)) refl refl refl refl

abbrev steps : List AgentStep
steps = queued_step ∷ done_step ∷ []

abbrev used_budget : Budget
used_budget = record default_budget { steps_used = 4; input_tokens_used = 100 }

abbrev greeting : AgentMessage
greeting = record {
  run = 7;
  sequence = 1;
  role = Role.system;
  name = "";
  tool_call_id = "";
  content = "You complete catalogue entries.";
  tool_calls = [];
}

abbrev messages : List AgentMessage
messages = greeting ∷ []

abbrev unkeyed_step : AgentStep
unkeyed_step = record queued_step { input = record input { idempotency_key = some "" } }

execute_tool_unkeyed_example :
    ((execute_tool 15 running_run unkeyed_step small_world tool_list).1 ≡ small_world)
    ⊎ ((tool : ToolDefinition) × (parameters : ToolParameters) × (tool.has_side_effects ≡ false)
        × ((execute_tool 15 running_run unkeyed_step small_world tool_list).1
            ≡ (invoke_tool 15 unkeyed_step tool parameters
                (identity_of tool "" "run-7")
                small_world).1))
execute_tool_unkeyed_example =
    execute_tool_unkeyed 15 running_run unkeyed_step small_world tool_list "" refl refl

-- A driver whose model never stops to ask for a tool.
abbrev driver : Driver
driver = record {
  complete_agent = λ messages attempt. completed_turn (record {
    content = "";
    calls = record { id = "1"; name = "evidence.save"; arguments = "{}" } ∷ [];
    input_tokens = some (pos 10);
    output_tokens = some (pos 5);
  });
  complete_json = complete;
  tools = save_tool ∷ [];
  skills = [];
  new_pk = λ steps. 9;
  parameters_of = λ call. record { idempotency_key = none; body = call.arguments };
  output_text = λ output. "{}";
  error_text = λ error. "error";
  refusal_text = λ name. "refused";
  output_model = none;
  tool_names = "evidence.save" ∷ [];
  skill_name = "";
  use_case = "agent_loop";
}

abbrev started : Loop
started = record { world = small_world; messages = [] }

run_loop_ends_example : (end : Loop) × (run_loop driver 20 3 7 101 "system" "go" started ≡ some end)
unfolding start_or_resume start_run recover_inflight load from_dict
run_loop_ends_example =
    run_loop_ends driver 20 3 7 100 "system" "go" started running_run refl (omega arith)
