-- ===== src/Agent/Loop/Turn.antt =====
-- One model turn of the loop, and the loop itself (src/apps/ai/runtime/agent_loop.py). The loop runs
-- on fuel; Loop/Ends shows how much is enough.
use noshiro_db_backend.Base.{
  ℕ, zero, suc, Bool, true, false, ◌||◌, Option, none, some, [], String, ◌==◌, is_text, is_cons,
  length, if◌then◌else◌, exists_where, update_where, count_where, get, is_blank,
}
use noshiro_db_backend.Agent.Model.{
  RunStatus, RunError, out_of_budget, exception, StepOutput, tool_turn, AgentStep, AgentRun,
  run_status_eq, content, document,
}
use noshiro_db_backend.Agent.Machine.{RunTransition, run_pk, step_pk, run_transition}
use noshiro_db_backend.Agent.Budget.{
  Budget, load, save, record_execution, is_exhausted, exhaustion_reason,
}
use noshiro_db_backend.Agent.Checkpoint.{save as save_checkpoint}
use noshiro_db_backend.Agent.Transcript.{Role}
use noshiro_db_backend.Agent.Registry.{Outcome, returned, raises, SkillDefinition, get_skill}
use noshiro_db_backend.Agent.Loop.{
  Loop, Completion, Answer, completed, refused, Driver, int_or_zero, recover_inflight, with_runs,
  start_run, fail, succeed_step,
}
use noshiro_db_backend.Agent.Loop.Calls.{
  with_steps, with_ai_runs, message, start_rows, model_step, complete_turn, completion_rows,
  mark_airun_failed, tool_calls,
}

-- What a turn comes to: the loop goes on, it has returned, or it has raised.
pub data Turn : Type 0 where
  continues : Budget → Loop → Turn
  finishes : Loop → Turn
  fails : RunError → Loop → Turn

module _ (d : Driver) (now latency run : ℕ) where
  -- The final answer: its schema is the caller's, else the skill's, else none.
  unfoldable pub final_output :
      Option (String → Outcome) → Option SkillDefinition → String → Option StepOutput × String
  final_output (some validate) skill text = elim (validate text) [
    | returned o ↦ (some (document o), "")
    | raises e ↦ (none, e)
  ]
  final_output none skill text =
      if is_text d.skill_name
      then (elim skill [
        | none ↦ (none, "unknown skill")
        | some s ↦ (elim (s.validate_output text) [
          | returned o ↦ (some (document o), "")
          | raises e ↦ (none, e)
        ])
      ])
      else (some (content text), "")

  -- The end of `_finish_turn`, for the row of the run that is read again.
  unfoldable pub close_run : Option AgentRun → Loop → Loop
  close_run none l = l
  close_run (some row) l =
      let (done, copy, rows) = run_transition now row RunTransition.succeed l.world.runs in
      with_runs
        (save_checkpoint now copy l.world.steps (count_where (λ m. m.run == run) l.messages) rows).1
        l

  unfoldable pub finish_output : ℕ → Option StepOutput × String → Loop → Turn
  finish_output step (none, error) l = fails (exception error) l
  finish_output step (some output, error) l =
      let l1 : Loop =
        with_ai_runs
          (update_where (λ a. a.agent_step == step) (λ a. record a { output = some output })
            l.world.ai_runs)
          l in
      let l2 : Loop =
        with_steps (succeed_step now output (get step_pk step l1.world.steps) l1.world.steps) l1 in
      finishes (close_run (get run_pk run l2.world.runs) l2)

  -- `_finish_turn`
  unfoldable pub finish_turn : ℕ → Completion → Loop → Turn
  finish_turn step c l =
      if is_blank c.content
      then fails (exception "ValueError: Model returned an empty final answer.") l
      else finish_output step
          (final_output d.output_model (get_skill d.skill_name d.skills) c.content) l

  -- The rest of a turn after its attempt was accounted; `copy` is the turn's copy of the run.
  unfoldable pub after_count : AgentRun → ℕ → Completion → Bool × Budget → Loop → Turn
  after_count copy step c (false, b) l = fails (exception "TypeError") l
  after_count copy step c (true, b) l =
      let (saved, rows) = save now copy b l.world.runs in
      let l1 : Loop = with_runs rows l in
      let l2 : Loop = tool_calls d now latency run saved step c.calls l1 in
      if is_cons c.calls
      then continues b (
          with_steps
            (succeed_step now (tool_turn (length c.calls)) (get step_pk step l2.world.steps)
              l2.world.steps)
            l2)
      else finish_turn step c l1

  unfoldable pub after_complete : AgentRun → Budget → ℕ → Answer → Loop → Turn
  after_complete copy b step (refused text) l =
      fails (exception text) (mark_airun_failed d now latency run step text l)
  after_complete copy b step (completed c) l =
      after_count copy step c
        (record_execution (int_or_zero c.input_tokens) (int_or_zero c.output_tokens) (some 0) b)
        (completion_rows d now latency run step c l)

  unfoldable pub after_start : AgentRun → Budget → Option AgentStep → Loop → Turn
  after_start copy b none l = fails (exception "KeyError") l
  after_start copy b (some step) l =
      let l1 : Loop = start_rows d now latency run step l in
      after_complete copy b step.pk (complete_turn d now latency run 3 0 "" l1) l1

  -- One turn of the loop, for the row of the run that is read at its start.
  unfoldable pub turn : Budget → Option AgentRun → Loop → Turn
  turn b none l = fails (exception "DoesNotExist") l
  turn b (some copy) l =
      if is_exhausted b
      then fails (out_of_budget (exhaustion_reason b)) l
      else after_start copy b (model_step d now latency run (get_skill d.skill_name d.skills) l) l

  -- What becomes of the loop after a turn; `again` is the loop.
  unfoldable pub after_turn : (Budget → Loop → Option Loop) → Turn → Option Loop
  after_turn again (continues b l) = again b l
  after_turn again (finishes l) = some l
  after_turn again (fails e l) = some (fail now e (get run_pk run l.world.runs) l)

  -- `while True`, on fuel; `none` where it runs out.
  unfoldable pub loop : ℕ → Budget → Loop → Option Loop
  loop zero b l = none
  loop (suc n) b l = after_turn (loop n) (turn b (get run_pk run l.world.runs) l)

  -- The first two messages.
  unfoldable pub seed : String → String → Loop → Loop
  seed system_prompt user_prompt l =
      if exists_where (λ m. m.run == run) l.messages
      then l
      else message d now latency run Role.user user_prompt "" "" []
          (message d now latency run Role.system system_prompt "" "" [] l)

  -- `run` after `_start_or_resume`, for the row that is read again.
  unfoldable pub run_started : ℕ → String → String → Option AgentRun → Loop → Option Loop
  run_started fuel system_prompt user_prompt none l = some l
  run_started fuel system_prompt user_prompt (some row) l =
      let result : Option Loop = loop fuel (load row) (seed system_prompt user_prompt l) in
      if run_status_eq row.status RunStatus.running || run_status_eq row.status RunStatus.queued
      then result
      else some l

  unfoldable pub start_or_resume : Option AgentRun → Loop → Loop
  start_or_resume none l = l
  start_or_resume (some row) l = recover_inflight now run (start_run now row l)

  -- `AgentLoopDriver.run`
  unfoldable pub run_loop : ℕ → String → String → Loop → Option Loop
  run_loop fuel system_prompt user_prompt l =
      let l1 : Loop = start_or_resume (get run_pk run l.world.runs) l in
      run_started fuel system_prompt user_prompt (get run_pk run l1.world.runs) l1
