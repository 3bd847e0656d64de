-- ===== src/Agent/Executor/Unkeyed.antt =====
-- A tool step without an idempotency key, as the agent loop makes them
-- (src/apps/ai/runtime/executor.py, `_execute_tool`).
use noshiro_db_backend.Base.{
  ℕ, ◌≡◌, ◌⊎◌, inl, inr, false, Option, none, some, List, String, arith, is_text,
}
use noshiro_db_backend.Agent.Model.{AgentRun, AgentStep, ToolParameters}
use noshiro_db_backend.Agent.Registry.{ToolDefinition}
use noshiro_db_backend.Agent.Executor.{
  World, identity_of, invoke_tool, check_idempotency, execute_tool,
}
use noshiro_db_backend.Agent.Executor.Once.{execute_tool-ToolEffect}

-- The check passes a missing key only for a tool without side effects.
check_idempotency_unkeyed :
    (tool : ToolDefinition) (parameters : ToolParameters) (key scope : String)
    → is_text key ≡ false
    → check_idempotency tool parameters key scope ≡ none
    → tool.has_side_effects ≡ false
unfolding check_idempotency
check_idempotency_unkeyed tool parameters key scope k e = ground arith

-- A tool step whose idempotency key is the empty text changes nothing, or invokes a tool that has
-- no side effects.
pub execute_tool_unkeyed :
    (now : ℕ) (run : AgentRun) (step : AgentStep) (w : World) (tools : Option (List ToolDefinition))
    (key : String)
    → step.input.idempotency_key ≡ some key
    → is_text key ≡ false
    → ((execute_tool now run step w tools).1 ≡ w)
      ⊎ ((tool : ToolDefinition) × (parameters : ToolParameters) × (tool.has_side_effects ≡ false)
          × ((execute_tool now run step w tools).1
              ≡ (invoke_tool now step tool parameters
                  (identity_of tool key run.idempotency_scope)
                  w).1))
execute_tool_unkeyed now run step w tools key has empty =
    elim (execute_tool-ToolEffect now run step w tools) [
      | inl same ↦ inl same
      | inr (tool, parameters, k, a, e) ↦
          let same : k ≡ key = cc (a.keyed, has) in
          inr (
            tool,
            parameters,
            check_idempotency_unkeyed tool parameters key run.idempotency_scope empty
                (rw⁻¹ same a.checked),
            rw⁻¹ same e,
          )
    ]
