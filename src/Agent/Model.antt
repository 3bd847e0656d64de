-- ===== src/Agent/Model.antt =====
-- The rows that the agent runtime keeps (src/apps/ai/models/agent.py): runs, steps and their
-- statuses. Times are seconds, money is a count of the smallest unit in use.
use noshiro_db_backend.Base.{ℕ, ◌≡◌, ◌↔◌, Bool, true, false, Option, List, String, arith}

-- `AgentRun.Status`
pub data RunStatus : Type 0 where
  queued running waiting paused succeeded failed cancelled : RunStatus

-- `AgentStep.Status`
pub data StepStatus : Type 0 where
  queued running waiting succeeded failed skipped cancelled : StepStatus

-- `AgentStep.Kind`
pub data StepKind : Type 0 where
  plan retrieve tool model skill validate approval apply verify : StepKind

abbrev pub run_status_eq : RunStatus → RunStatus → Bool
run_status_eq RunStatus.queued RunStatus.queued = true
run_status_eq RunStatus.running RunStatus.running = true
run_status_eq RunStatus.waiting RunStatus.waiting = true
run_status_eq RunStatus.paused RunStatus.paused = true
run_status_eq RunStatus.succeeded RunStatus.succeeded = true
run_status_eq RunStatus.failed RunStatus.failed = true
run_status_eq RunStatus.cancelled RunStatus.cancelled = true
run_status_eq _ _ = false

pub run_status_eq_iff : (a b : RunStatus) → (run_status_eq a b ≡ true) ↔ (a ≡ b)
run_status_eq_iff a b = (ground arith, ground arith)

abbrev pub step_status_eq : StepStatus → StepStatus → Bool
step_status_eq StepStatus.queued StepStatus.queued = true
step_status_eq StepStatus.running StepStatus.running = true
step_status_eq StepStatus.waiting StepStatus.waiting = true
step_status_eq StepStatus.succeeded StepStatus.succeeded = true
step_status_eq StepStatus.failed StepStatus.failed = true
step_status_eq StepStatus.skipped StepStatus.skipped = true
step_status_eq StepStatus.cancelled StepStatus.cancelled = true
step_status_eq _ _ = false

pub step_status_eq_iff : (a b : StepStatus) → (step_status_eq a b ≡ true) ↔ (a ≡ b)
step_status_eq_iff a b = (ground arith, ground arith)

-- `Budget.exhaustion_reason`
pub data Exhaustion : Type 0 where
  input_token_budget_exhausted output_token_budget_exhausted : Exhaustion
  cost_budget_exhausted step_budget_exhausted : Exhaustion

-- The error of a step: which of the messages it is, with what is written into it. `raised` is the
-- text of an exception, `f"{type(exc).__name__}: {exc}"[:4000]`.
pub data StepError : Type 0 where
  run_is : RunStatus → StepError
  step_is : StepStatus → StepError
  no_registered_executor : StepKind → StepError
  budget_exhausted : Option Exhaustion → StepError
  no_system_prompt payload_not_object no_skill_contract : StepError
  unknown_skill : String → StepError
  skill_version_mismatch : String → String → StepError
  invalid_skill_input : String → StepError
  no_tool_registry invalid_tool_input : StepError
  missing_scope : String → StepError
  invalid_idempotency no_idempotency_key other_idempotency_key : StepError
  already_running previously_failed : StepError
  unregistered_tool : String → StepError  -- the `KeyError` of the registry
  interrupted : StepError
  raised : String → StepError

-- The error of a run.
pub data RunError : Type 0 where
  of_step : StepError → RunError
  out_of_budget : Option Exhaustion → RunError
  exception : String → RunError

-- The parameters of a tool step: what the runtime reads of them, and the rest as text.
pub record ToolParameters : Type 0 where
  pub idempotency_key : Option String
  pub body : String

-- `AgentStep.input`, key by key. A key whose value has another type than the runtime asks for is
-- `none`; an absent `idempotency_key` is the empty text, as `step.input.get` has it.
pub record StepInput : Type 0 where
  pub tool_name : Option String
  pub parameters : Option ToolParameters
  pub idempotency_key : Option String
  pub use_case : String
  pub system_prompt : Option String
  pub payload : Option String

-- `AgentStep.output`: a JSON document as text, the input of a plan step, or what the agent loop
-- notes of a turn.
pub data StepOutput : Type 0 where
  document : String → StepOutput
  of_input : StepInput → StepOutput
  tool_turn : ℕ → StepOutput
  content : String → StepOutput

-- The columns of `AgentStep`. `run` and `parent` are foreign keys.
pub record AgentStep : Type 0 where
  pub pk : ℕ
  pub run : ℕ
  pub parent : Option ℕ
  pub sequence : ℕ
  pub kind : StepKind
  pub status : StepStatus
  pub skill_name : String
  pub skill_version : String
  pub input : StepInput
  pub output : Option StepOutput
  pub error : Option StepError  -- `none` is the empty text
  pub input_tokens : Option ℕ
  pub output_tokens : Option ℕ
  pub cost : Option ℕ
  pub latency_ms : Option ℕ
  pub retry_count : ℕ
  pub started_at : Option ℕ
  pub finished_at : Option ℕ

-- `AgentRun.budget`, a JSON object each key of which may be missing.
pub record BudgetData : Type 0 where
  pub max_input_tokens : Option ℕ
  pub max_output_tokens : Option ℕ
  pub max_cost_usd : Option ℕ
  pub max_steps : Option ℕ
  pub input_tokens_used : Option ℕ
  pub output_tokens_used : Option ℕ
  pub cost_used : Option ℕ
  pub steps_used : Option ℕ

-- The content of a checkpoint, whose hash is left out.
pub record Checkpoint : Type 0 where
  pub run_id : ℕ
  pub run_status : RunStatus
  pub step_count : ℕ
  pub message_count : ℕ
  pub last_completed_sequence : Option ℕ  -- `none` is the default -1
  pub steps : List AgentStep
  pub captured_at : ℕ

-- The columns of `AgentRun` that the runtime reads or writes.
pub record AgentRun : Type 0 where
  pub pk : ℕ
  pub status : RunStatus
  pub scopes : List String  -- `metadata["scopes"]`
  pub idempotency_scope : String
  pub budget : Option BudgetData  -- `none` is JSON null
  pub checkpoint : Option Checkpoint  -- `none` is the empty object
  pub error : Option RunError  -- `none` is the empty text
  pub started_at : Option ℕ
  pub finished_at : Option ℕ
  pub updated_at : ℕ
