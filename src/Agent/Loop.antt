-- ===== src/Agent/Loop.antt =====
-- The open-ended loop of model turns (src/apps/ai/runtime/agent_loop.py). What the gateway completes,
-- JSON texts and the reading of a call's arguments are parameters. The tool outputs that an `AIRun`
-- repeats from the transcript are left out.
pub mod Calls
pub mod Turn
pub mod Ends
use noshiro_db_backend.Base.{
  ℕ, zero, suc, ◌+◌, ◌-◌, max, Bool, true, false, ◌&&◌, ◌||◌, not, Option, none, some, List, [],
  ◌∷◌, ◌++◌, String, leb, ◌==◌, str_eq, is_text, is_cons, is_some, if◌then◌else◌, exists_where,
  update_where, update_one, select_where, count_where, order_by, get, ℤ, pos, negsuc, is_blank, map,
}
use noshiro_db_backend.Agent.Model.{
  RunStatus, StepStatus, StepKind, RunError, of_step, out_of_budget, exception, StepError,
  interrupted, StepInput, StepOutput, ToolParameters, tool_turn, AgentStep, AgentRun,
  step_status_eq, run_status_eq,
}
use noshiro_db_backend.Agent.Model.{content as content_output, document}
use noshiro_db_backend.Agent.Machine.{
  RunTransition, StepTransition, run_pk, step_pk, run_transition, step_transition,
}
use noshiro_db_backend.Agent.Budget.{
  Budget, load, record_execution, is_exhausted, exhaustion_reason,
}
use noshiro_db_backend.Agent.Budget.{save as save_budget}
use noshiro_db_backend.Agent.Checkpoint.{save as save_checkpoint}
use noshiro_db_backend.Agent.Transcript.{
  Role, ToolCall, AgentMessage, message_sequence, append_message, ProviderMessage,
  messages_for_provider,
}
use noshiro_db_backend.Agent.Registry.{
  Outcome, returned, raises, ToolDefinition, SkillDefinition, get_tool, get_skill,
}
use noshiro_db_backend.Agent.Executor.{World, AiRun, CompleteJson, StepResult, execute}

-- The tables, and the transcript.
pub record Loop : Type 0 where
  pub world : World
  pub messages : List AgentMessage

-- `AgentCompletion`
pub record Completion : Type 0 where
  pub content : String
  pub calls : List ToolCall
  pub input_tokens : Option ℤ
  pub output_tokens : Option ℤ

pub data Answer : Type 0 where
  completed : Completion → Answer
  refused : String → Answer

-- What the driver calls, and the arguments of its `run`.
pub record Driver : Type 0 where
  pub complete_agent : List ProviderMessage → ℕ → Answer
  pub complete_json : CompleteJson
  pub tools : List ToolDefinition
  pub skills : List SkillDefinition
  pub new_pk : List AgentStep → ℕ
  pub parameters_of : ToolCall → ToolParameters
  pub output_text : StepOutput → String
  pub error_text : Option StepError → String
  pub refusal_text : String → String
  pub output_model : Option (String → Outcome)
  pub tool_names : List String
  pub skill_name : String
  pub use_case : String

-- `_int_or_zero`, of what `int` makes of the value.
unfoldable pub int_or_zero : Option ℤ → Option ℕ
int_or_zero none = none
int_or_zero (some (pos n)) = some n
int_or_zero (some (negsuc n)) = some 0

-- `_next_sequence`
unfoldable pub next_sequence : ℕ → List AgentStep → ℕ
next_sequence run [] = 1
next_sequence run (s ∷ t) =
    let rest = next_sequence run t in if s.run == run then max (s.sequence + 1) rest else rest

abbrev is_tool_message : AgentMessage → Bool
is_tool_message m = elim m.role [ Role.tool ↦ true | _ ↦ false ]

-- An assistant message that asks for tools.
abbrev asks_tools : AgentMessage → Bool
asks_tools m = elim m.role [ Role.assistant ↦ is_cons m.tool_calls | _ ↦ false ]

abbrev starts_with_tool : List AgentMessage → Bool
starts_with_tool [] = false
starts_with_tool (m ∷ t) = is_tool_message m

-- The first request for tools that no tool message follows, in the order of the transcript.
unfoldable pub interrupted_at : List AgentMessage → Option ℕ
interrupted_at [] = none
interrupted_at (m ∷ t) =
    if asks_tools m && not (starts_with_tool t) then some m.sequence else interrupted_at t

-- `filter(run=run, sequence__gte=sequence).delete()`
unfoldable pub cut_messages : ℕ → Option ℕ → List AgentMessage → List AgentMessage
cut_messages run none rows = rows
cut_messages run (some n) rows = select_where (λ m. not (m.run == run && leb n m.sequence)) rows

-- `_recover_inflight`
unfoldable pub recover_inflight : ℕ → ℕ → Loop → Loop
recover_inflight now run l = record {
  world = record (l.world) {
    steps =
        update_where (λ s. s.run == run && step_status_eq s.status StepStatus.running)
          (λ s. record s {
            status = StepStatus.failed;
            error = some interrupted;
            finished_at = some now;
          })
          l.world.steps;
  };
  messages =
      cut_messages run
        (interrupted_at (order_by message_sequence (select_where (λ m. m.run == run) l.messages)))
        l.messages;
}

abbrev pub with_runs : List AgentRun → Loop → Loop
with_runs rows l = record l { world = record (l.world) { runs = rows } }

-- The transition of `_start_or_resume`.
unfoldable pub start_run : ℕ → AgentRun → Loop → Loop
start_run now row l = elim row.status [
  | RunStatus.queued ↦ with_runs (run_transition now row RunTransition.start l.world.runs).2 l
  | RunStatus.paused ↦ with_runs (run_transition now row RunTransition.resume l.world.runs).2 l
  | _ ↦ l
]

-- `_fail`, of the row that is read again.
unfoldable pub fail_row : ℕ → RunError → Bool × AgentRun × List AgentRun → Loop → Loop
fail_row now error (false, copy, rows) l = l
fail_row now error (true, copy, rows) l =
    with_runs
      (save_checkpoint now copy l.world.steps (count_where (λ m. m.run == copy.pk) l.messages)
        (update_one run_pk copy.pk (λ _. true) (λ r. record r { error = some error }) rows).1).1
      l

unfoldable pub fail : ℕ → RunError → Option AgentRun → Loop → Loop
fail now error none l = l
fail now error (some row) l =
    fail_row now error (run_transition now row RunTransition.fail l.world.runs) l

-- `_succeed_step`, of the row that is read again.
unfoldable pub succeed_row :
    ℕ → StepOutput → Bool × AgentStep × List AgentStep → List AgentStep → List AgentStep
succeed_row now output (false, copy, rows) steps = steps
succeed_row now output (true, copy, rows) steps =
    (update_one step_pk copy.pk (λ _. true)
      (λ s. record s { output = some output; finished_at = some now }) rows).1

unfoldable pub succeed_step : ℕ → StepOutput → Option AgentStep → List AgentStep → List AgentStep
succeed_step now output none steps = steps
succeed_step now output (some row) steps =
    succeed_row now output (step_transition now row StepTransition.succeed steps) steps
