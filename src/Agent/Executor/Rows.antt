-- ===== src/Agent/Executor/Rows.antt =====
-- The rows of model and tool calls (src/apps/ai/models), and the result of a step
-- (src/apps/ai/runtime/executor.py).
use noshiro_db_backend.Base.{ℕ, Bool, ◌&&◌, Option, none, some, List, [], String, str_eq}
use noshiro_db_backend.Agent.Model.{ToolParameters, AgentStep, AgentRun, StepError, StepOutput}

-- `ToolInvocation.Status`
pub data InvocationStatus : Type 0 where
  running succeeded failed : InvocationStatus

-- What an idempotent invocation is known by: the columns of its unique constraint.
pub record Identity : Type 0 where
  pub tool_name : String
  pub tool_version : String
  pub idempotency_key : String
  pub idempotency_scope : String

-- The columns of `ToolInvocation`; `identity` holds four of them.
pub record ToolInvocation : Type 0 where
  pub pk : ℕ
  pub step : ℕ
  pub identity : Identity
  pub status : InvocationStatus
  pub parameters : ToolParameters
  pub permission_scope : String
  pub risk_level : String
  pub has_side_effects : Bool
  pub result : Option String
  pub error : String
  pub finished_at : Option ℕ

-- The columns of `AIRun` that the runtime writes. `none` is the status of a run that has not ended.
pub record AiRun : Type 0 where
  pub agent_step : ℕ
  pub use_case : String
  pub succeeded : Option Bool
  pub output : Option StepOutput
  pub input_tokens : Option ℕ
  pub output_tokens : Option ℕ
  pub cost : Option ℕ
  pub error : String

-- The tables that a step touches, and the calls of tool handlers so far: the effects on the world.
pub record World : Type 0 where
  pub runs : List AgentRun
  pub steps : List AgentStep
  pub invocations : List ToolInvocation
  pub artifacts : List (ℕ × String)  -- the invocation and the payload
  pub ai_runs : List AiRun
  pub calls : List Identity

pub record StepResult : Type 0 where
  pub output : Option StepOutput
  pub error : Option StepError
  pub tool_invocations : List ℕ
  pub input_tokens : Option ℕ
  pub output_tokens : Option ℕ
  pub cost : Option ℕ

-- `StepResult(step=step, error=…)`
abbrev pub step_error : StepError → StepResult
step_error e = record {
  output = none;
  error = some e;
  tool_invocations = [];
  input_tokens = none;
  output_tokens = none;
  cost = none;
}

-- `StepResult(step=step, output=…)`
abbrev pub step_output : Option StepOutput → List ℕ → StepResult
step_output output invocations = record {
  output = output;
  error = none;
  tool_invocations = invocations;
  input_tokens = none;
  output_tokens = none;
  cost = none;
}

abbrev pub identity_eq : Identity → Identity → Bool
identity_eq a b =
    str_eq a.tool_name b.tool_name
    && (str_eq a.tool_version b.tool_version
        && (str_eq a.idempotency_key b.idempotency_key
            && str_eq a.idempotency_scope b.idempotency_scope))
