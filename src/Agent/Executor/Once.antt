-- ===== src/Agent/Executor/Once.antt =====
-- Which calls of tool handlers an executor makes, and that none is made twice under one key.
use noshiro_db_backend.Base.{
  ℕ, ◌+◌, ◌≤◌, ◌≡◌, refl, ap, ◌∙◌, ◌↔◌, ◌⊎◌, inl, inr, Bool, true, false, Option, none, some, List,
  [], ◌∷◌, ◌++◌, String, arith, eq_iff, is_text, if◌then◌else◌, Bool-cases, Option-cases,
  count_where, count-append, count-update_one_same, first_where, first_where-none_count,
  exists_where, str_eq,
}
use noshiro_db_backend.Agent.Model.{
  RunStatus, run_status_eq, StepError, StepKind, AgentRun, AgentStep, ToolParameters,
}
use noshiro_db_backend.Agent.Budget.{Budget}
use noshiro_db_backend.Agent.Registry.{get_tool, Outcome-cases, ToolDefinition, SkillDefinition}
use noshiro_db_backend.Agent.Executor.{
  Identity, ToolInvocation, World, CompleteJson, identity_eq, identity_of, invocation_pk,
  new_invocation, capture_evidence, find_previous, check_idempotency, execute_input, execute_found,
  invoke_tool, execute_fresh, execute_checked, execute_keyed, execute_registered, execute_tool,
  execute_model, execute_kind, execute_started, execute,
}

identity_eq_iff : (a b : Identity) → (identity_eq a b ≡ true) ↔ (a ≡ b)
identity_eq_iff a b = (
  ground (
    arith,
    eq_iff a.tool_name b.tool_name,
    eq_iff a.tool_version b.tool_version,
    eq_iff a.idempotency_key b.idempotency_key,
    eq_iff a.idempotency_scope b.idempotency_scope,
  ),
  ground (
    arith,
    eq_iff a.tool_name b.tool_name,
    eq_iff a.tool_version b.tool_version,
    eq_iff a.idempotency_key b.idempotency_key,
    eq_iff a.idempotency_scope b.idempotency_scope,
  ),
)

-- How often a handler was called under an identity, and how many invocations have it.
abbrev calls_of : Identity → World → ℕ
calls_of id w = count_where (λ c. identity_eq c id) w.calls

abbrev pub rows_of : Identity → World → ℕ
rows_of id w = count_where (λ i. identity_eq i.identity id) w.invocations

-- Under an identity there is at most one invocation, and no more calls than invocations.
abbrev pub IsOnce : Identity → World → Type 0
IsOnce id w = (calls_of id w ≤ rows_of id w) × (rows_of id w ≤ 1)

-- The capture of evidence writes no invocation and no step, and calls no handler.
capture_evidence-calls :
    (tool : ToolDefinition) (pk : ℕ) (result : String) (w : World)
    → ((capture_evidence tool pk result w).1.calls ≡ w.calls)
      × ((capture_evidence tool pk result w).1.invocations ≡ w.invocations)
      × ((capture_evidence tool pk result w).1.steps ≡ w.steps)
unfolding capture_evidence
capture_evidence-calls tool pk result w = ground arith

-- What an invocation adds: one call and one row under its identity, whatever the handler does.
module _ (now : ℕ) (step : AgentStep) (tool : ToolDefinition) (parameters : ToolParameters)
    (identity : Identity) (w : World) where
  invoke_tool-calls :
      (invoke_tool now step tool parameters identity w).1.calls ≡ w.calls ++ identity ∷ []
  unfolding invoke_tool
  invoke_tool-calls = elim (Outcome-cases (tool.execute parameters)) [
    | inl (t, e) ↦ rw (e, invoke_tool)
    | inr (t, e) ↦ rw (e, invoke_tool) (capture_evidence-calls tool _ t _).0
  ]

  pub invoke_tool-steps : (invoke_tool now step tool parameters identity w).1.steps ≡ w.steps
  unfolding invoke_tool
  invoke_tool-steps = elim (Outcome-cases (tool.execute parameters)) [
    | inl (t, e) ↦ rw (e, invoke_tool)
    | inr (t, e) ↦ rw (e, invoke_tool) (capture_evidence-calls tool _ t _).2
  ]

  invoke_tool-rows_of :
      (id : Identity)
      → rows_of id (invoke_tool now step tool parameters identity w).1
        ≡ rows_of id w + (if identity_eq identity id then 1 else 0)
  unfolding invoke_tool
  invoke_tool-rows_of id =
      let q : ToolInvocation → Bool = λ i. identity_eq i.identity id in
      let new = new_invocation step tool parameters identity w in
      let grown : count_where q (w.invocations ++ new ∷ [])
          ≡ count_where q w.invocations + (if identity_eq identity id then 1 else 0) =
        ground (arith, count-append q w.invocations (new ∷ [])) in
      elim (Outcome-cases (tool.execute parameters)) [
        | inl (t, e) ↦
            rw (e, invoke_tool)
              (count-update_one_same q invocation_pk new.pk (λ _. true) _ _ (λ r. refl) ∙ grown)
        | inr (t, e) ↦
            rw (e, invoke_tool)
              (ap (count_where q) (capture_evidence-calls tool new.pk t _).1
                ∙ count-update_one_same q invocation_pk new.pk (λ _. true) _ _ (λ r. refl)
                ∙ grown)
      ]

  invoke_tool-IsOnce :
      (id : Identity)
      → is_text id.idempotency_key ≡ true
      → find_previous identity w ≡ none
      → IsOnce id w
      → IsOnce id (invoke_tool now step tool parameters identity w).1
  invoke_tool-IsOnce id keyed unused once =
      let called : calls_of id (invoke_tool now step tool parameters identity w).1
          ≡ calls_of id w + (if identity_eq identity id then 1 else 0) =
        rw invoke_tool-calls
          (ground (arith, count-append (λ c. identity_eq c id) w.calls (identity ∷ []))) in
      elim (Bool-cases (identity_eq identity id)) [
        | inr other ↦ ground (arith, called, invoke_tool-rows_of id, once)
        | inl same ↦
            let e : identity ≡ id = (identity_eq_iff identity id).0 same in
            let free : first_where (λ i. identity_eq i.identity id) w.invocations ≡ none =
              rw (← e) (ground arith) in
            ground (
              arith,
              called,
              invoke_tool-rows_of id,
              once,
              first_where-none_count (λ i. identity_eq i.identity id) w.invocations free,
            )
      ]

-- The model call writes no invocation and calls no handler.
pub execute_model-calls :
    (complete_json : CompleteJson) (skills : List SkillDefinition) (step : AgentStep)
    (budget : Budget) (w : World)
    → ((execute_model complete_json skills step budget w).1.calls ≡ w.calls)
      × ((execute_model complete_json skills step budget w).1.invocations ≡ w.invocations)
      × ((execute_model complete_json skills step budget w).1.steps ≡ w.steps)
unfolding execute_model
execute_model-calls complete_json skills step budget w = ground arith

-- What must hold for a handler to be called: the run is granted the tool's scope, the metadata
-- passes the checks, and no earlier invocation has the key.
pub record Authorised (run : AgentRun) (step : AgentStep) (tool : ToolDefinition)
    (parameters : ToolParameters) (key : String) (w : World) : Type 0 where
  pub keyed : step.input.idempotency_key ≡ some key
  pub granted : exists_where (λ s. str_eq s tool.permission) run.scopes ≡ true
  pub checked : check_idempotency tool parameters key run.idempotency_scope ≡ none
  pub unused : find_previous (identity_of tool key run.idempotency_scope) w ≡ none

-- A tool step leaves the world alone, or makes one authorised invocation.
abbrev pub ToolEffect : ℕ → AgentRun → AgentStep → World → World → Type 0
ToolEffect now run step w w' =
    (w' ≡ w)
    ⊎ ((tool : ToolDefinition) × (parameters : ToolParameters) × (key : String) × Authorised run
          step tool parameters key w
        × (w'
            ≡ (invoke_tool now step tool parameters (identity_of tool key run.idempotency_scope)
                w).1))

module _ (now : ℕ) (run : AgentRun) (step : AgentStep) (w : World) where
  execute_fresh-ToolEffect :
      (tool : ToolDefinition) (parameters : ToolParameters) (key : String)
      (o : Option ToolInvocation)
      → find_previous (identity_of tool key run.idempotency_scope) w ≡ o
      → step.input.idempotency_key ≡ some key
      → exists_where (λ s. str_eq s tool.permission) run.scopes ≡ true
      → check_idempotency tool parameters key run.idempotency_scope ≡ none
      → ToolEffect now run step w
          (execute_fresh now run step tool parameters w
            (identity_of tool key run.idempotency_scope)
            o).1
  unfolding execute_fresh
  execute_fresh-ToolEffect tool parameters key (some previous) f k g c = inl refl
  execute_fresh-ToolEffect tool parameters key none f k g c =
      inr (tool, parameters, key, record { keyed = k; granted = g; checked = c; unused = f }, refl)

  execute_checked-ToolEffect :
      (tool : ToolDefinition) (parameters : ToolParameters) (key : String) (o : Option StepError)
      → check_idempotency tool parameters key run.idempotency_scope ≡ o
      → step.input.idempotency_key ≡ some key
      → exists_where (λ s. str_eq s tool.permission) run.scopes ≡ true
      → ToolEffect now run step w (execute_checked now run step tool parameters w key o).1
  unfolding execute_checked
  execute_checked-ToolEffect tool parameters key (some e) c k g = inl refl
  execute_checked-ToolEffect tool parameters key none c k g =
      execute_fresh-ToolEffect tool parameters key _ refl k g c

  execute_keyed-ToolEffect :
      (tool : ToolDefinition) (parameters : ToolParameters) (o : Option String)
      → step.input.idempotency_key ≡ o
      → exists_where (λ s. str_eq s tool.permission) run.scopes ≡ true
      → ToolEffect now run step w (execute_keyed now run step tool parameters w o).1
  unfolding execute_keyed
  execute_keyed-ToolEffect tool parameters none k g = inl refl
  execute_keyed-ToolEffect tool parameters (some key) k g =
      execute_checked-ToolEffect tool parameters key _ refl k g

  execute_registered-ToolEffect :
      (tool : ToolDefinition) (parameters : ToolParameters)
      → ToolEffect now run step w (execute_registered now run step tool parameters w).1
  unfolding execute_registered
  execute_registered-ToolEffect tool parameters =
      elim (Bool-cases (exists_where (λ s. str_eq s tool.permission) run.scopes)) [
        | inr denied ↦ rw denied (inl refl)
        | inl granted ↦ rw granted (execute_keyed-ToolEffect tool parameters _ refl granted)
      ]

  execute_input-ToolEffect :
      (tools : List ToolDefinition) (name : Option String) (parameters : Option ToolParameters)
      → ToolEffect now run step w (execute_input now run step w tools name parameters).1
  unfolding execute_input execute_found
  execute_input-ToolEffect tools none parameters = inl refl
  execute_input-ToolEffect tools (some name) none = inl refl
  execute_input-ToolEffect tools (some name) (some parameters) =
      elim (Option-cases (get_tool name tools)) [
        | inl e ↦ rw (e, execute_found) (inl refl)
        | inr (tool, e) ↦ rw (e, execute_found) (execute_registered-ToolEffect tool parameters)
      ]

  -- A tool step changes nothing, or it invokes one tool, under an authorisation: a granted scope,
  -- checked idempotency metadata and no earlier invocation found under its key.
  pub execute_tool-ToolEffect :
      (tools : Option (List ToolDefinition))
      → ToolEffect now run step w (execute_tool now run step w tools).1
  unfolding execute_tool
  execute_tool-ToolEffect none = inl refl
  execute_tool-ToolEffect (some tools) = execute_input-ToolEffect tools _ _

  execute_tool-IsOnce :
      (tools : Option (List ToolDefinition)) (id : Identity)
      → is_text id.idempotency_key ≡ true
      → IsOnce id w
      → IsOnce id (execute_tool now run step w tools).1
  execute_tool-IsOnce tools id keyed once = elim (execute_tool-ToolEffect tools) [
    | inl same ↦ rw same once
    | inr (tool, parameters, key, a, e) ↦ rw e (
        invoke_tool-IsOnce now step tool parameters (identity_of tool key run.idempotency_scope) w
          id keyed a.unused once)
  ]

-- A world with the same calls and invocations.
IsOnce-same :
    (w w' : World) (id : Identity)
    → w'.calls ≡ w.calls
    → w'.invocations ≡ w.invocations
    → IsOnce id w
    → IsOnce id w'
IsOnce-same w w' id c i once = rw (c, i) once

module _ (complete_json : CompleteJson) (tools : Option (List ToolDefinition))
    (skills : List SkillDefinition) (run : AgentRun) (id : Identity)
    (keyed : is_text id.idempotency_key ≡ true) where
  execute_kind-IsOnce :
      (now : ℕ) (step : AgentStep) (budget : Budget) (w : World) (kind : StepKind)
      → IsOnce id w
      → IsOnce id (execute_kind now complete_json tools skills run step budget w kind).1
  unfolding execute_kind
  execute_kind-IsOnce now step budget w StepKind.model once =
      let (c, i, _) = execute_model-calls complete_json skills step budget w in
      IsOnce-same w (execute_model complete_json skills step budget w).1 id c i once
  execute_kind-IsOnce now step budget w StepKind.tool once =
      execute_tool-IsOnce now run step w tools id keyed once
  execute_kind-IsOnce now step budget w _ once = once

  execute_started-IsOnce :
      (later latency : ℕ) (step : AgentStep) (budget : Budget) (w : World) (started : Bool)
      (step' : AgentStep) (rows : List AgentStep)
      → IsOnce id w
      → IsOnce id
          (execute_started later latency complete_json tools skills run step budget w started step'
            rows).1
  unfolding execute_started
  execute_started-IsOnce later latency step budget w false step' rows once = once
  execute_started-IsOnce later latency step budget w true step' rows once =
      execute_kind-IsOnce later step' budget (record w { steps = rows }) step'.kind once

  -- Executing a step, of whatever kind, keeps it so that under an identity whose key is not empty
  -- the tool's handler has been called at most as often as there are invocations, and there is at
  -- most one invocation.
  pub execute-IsOnce :
      (now later latency : ℕ) (step : AgentStep) (budget : Budget) (w : World)
      → IsOnce id w
      → IsOnce id (execute later latency complete_json tools skills run step budget w now).1
  unfolding execute
  execute-IsOnce now later latency step budget w once =
      elim (Bool-cases (run_status_eq run.status RunStatus.running)) [
        | inr stopped ↦ rw stopped once
        | inl running ↦ rw running (execute_started-IsOnce later latency step budget w _ _ _ once)
      ]
