-- ===== src/Agent/Machine.antt =====
-- The state machines of runs and steps (src/apps/ai/runtime/state_machine.py). A machine holds a
-- copy of a row that may be stale; the write is guarded by the status that the copy holds.
pub mod Race
pub mod Lifecycle
pub mod Steps
pub mod StepLife
use noshiro_db_backend.Base.{
  ℕ, Bool, true, false, Option, none, some, List, if◌then◌else◌, is_some, update_one,
}
use noshiro_db_backend.Agent.Model.{
  RunStatus, StepStatus, AgentRun, AgentStep, run_status_eq, step_status_eq,
}

pub data RunTransition : Type 0 where
  start pause resume succeed fail cancel : RunTransition

pub data StepTransition : Type 0 where
  start retry succeed fail skip cancel : StepTransition

-- `_RUN_TRANSITIONS.get((status, action))`
unfoldable pub run_next : RunStatus → RunTransition → Option RunStatus
run_next RunStatus.queued RunTransition.start = some RunStatus.running
run_next RunStatus.running RunTransition.pause = some RunStatus.paused
run_next RunStatus.running RunTransition.succeed = some RunStatus.succeeded
run_next RunStatus.running RunTransition.fail = some RunStatus.failed
run_next RunStatus.running RunTransition.cancel = some RunStatus.cancelled
run_next RunStatus.paused RunTransition.resume = some RunStatus.running
run_next RunStatus.paused RunTransition.cancel = some RunStatus.cancelled
run_next _ _ = none

-- `_STEP_TRANSITIONS.get((status, action))`
unfoldable pub step_next : StepStatus → StepTransition → Option StepStatus
step_next StepStatus.queued StepTransition.start = some StepStatus.running
step_next StepStatus.failed StepTransition.retry = some StepStatus.queued
step_next StepStatus.running StepTransition.succeed = some StepStatus.succeeded
step_next StepStatus.running StepTransition.fail = some StepStatus.failed
step_next StepStatus.running StepTransition.skip = some StepStatus.skipped
step_next StepStatus.queued StepTransition.skip = some StepStatus.skipped
step_next StepStatus.queued StepTransition.cancel = some StepStatus.cancelled
step_next StepStatus.running StepTransition.cancel = some StepStatus.cancelled
step_next _ _ = none

-- `"started_at"` is among the updates: a START whose copy has no start time.
abbrev run_starts : RunTransition → Option ℕ → Bool
run_starts RunTransition.start none = true
run_starts _ _ = false

-- `action in (SUCCEED, FAIL, CANCEL)`
abbrev run_finishes : RunTransition → Bool
run_finishes RunTransition.succeed = true
run_finishes RunTransition.fail = true
run_finishes RunTransition.cancel = true
run_finishes _ = false

abbrev step_starts : StepTransition → Option ℕ → Bool
step_starts StepTransition.start none = true
step_starts _ _ = false

-- `action in (SUCCEED, FAIL, SKIP, CANCEL)`
abbrev step_finishes : StepTransition → Bool
step_finishes StepTransition.succeed = true
step_finishes StepTransition.fail = true
step_finishes StepTransition.skip = true
step_finishes StepTransition.cancel = true
step_finishes _ = false

-- The `updates` of `AgentRunStateMachine.transition`, written to a row. `copy` is the machine's.
abbrev pub run_updates : ℕ → AgentRun → RunTransition → RunStatus → AgentRun → AgentRun
run_updates now copy action new_status row = record row {
  status = new_status;
  updated_at = now;
  started_at = if run_starts action copy.started_at then some now else row.started_at;
  finished_at = if run_finishes action then some now else row.finished_at;
}

abbrev pub step_updates : ℕ → AgentStep → StepTransition → StepStatus → AgentStep → AgentStep
step_updates now copy action new_status row = record row {
  status = new_status;
  started_at = if step_starts action copy.started_at then some now else row.started_at;
  finished_at = if step_finishes action then some now else row.finished_at;
}

-- The primary keys.
abbrev pub run_pk : AgentRun → ℕ
run_pk r = r.pk

abbrev pub step_pk : AgentStep → ℕ
step_pk r = r.pk

-- `filter(status=copy.status)`
abbrev pub run_guard : AgentRun → AgentRun → Bool
run_guard copy r = run_status_eq r.status copy.status

abbrev pub step_guard : AgentStep → AgentStep → Bool
step_guard copy r = step_status_eq r.status copy.status

-- `AgentRunStateMachine.transition`: the answer, the copy and the table afterwards.
unfoldable pub run_transition :
    ℕ → AgentRun → RunTransition → List AgentRun → Bool × AgentRun × List AgentRun
run_transition now copy action rows = elim (run_next copy.status action) [
  | none ↦ (false, copy, rows)
  | some new_status ↦
      let (updated, after) =
        update_one run_pk copy.pk (run_guard copy) (run_updates now copy action new_status) rows in
      (updated, if updated then record copy { status = new_status } else copy, after)
]

-- `AgentStepStateMachine.transition`
unfoldable pub step_transition :
    ℕ → AgentStep → StepTransition → List AgentStep → Bool × AgentStep × List AgentStep
step_transition now copy action rows = elim (step_next copy.status action) [
  | none ↦ (false, copy, rows)
  | some new_status ↦
      let (updated, after) =
        update_one step_pk copy.pk (step_guard copy) (step_updates now copy action new_status)
          rows in
      (updated, if updated then record copy { status = new_status } else copy, after)
]

-- `can_start` and `can_cancel`
unfoldable can_start : AgentRun → Bool
unfolding run_next
can_start copy = is_some (run_next copy.status RunTransition.start)

unfoldable can_cancel : AgentRun → Bool
unfolding run_next
can_cancel copy = is_some (run_next copy.status RunTransition.cancel)
