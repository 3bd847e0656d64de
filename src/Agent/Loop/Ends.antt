-- ===== src/Agent/Loop/Ends.antt =====
-- The loop ends: each turn that goes on has used a step of the budget.
use noshiro_db_backend.Base.{
  ℕ, zero, suc, ◌+◌, ◌≤◌, ◌≡◌, refl, inl, inr, Bool, true, false, ◌||◌, Option, none, some, String,
  arith, is_cons, is_blank, Bool-cases, get,
}
use noshiro_db_backend.Agent.Model.{RunStatus, StepOutput, AgentStep, AgentRun, run_status_eq}
use noshiro_db_backend.Agent.Machine.{run_pk}
use noshiro_db_backend.Agent.Budget.{
  Budget, load, record_execution, is_exhausted, record_execution-step, is_exhausted-steps,
}
use noshiro_db_backend.Agent.Registry.{get_skill}
use noshiro_db_backend.Agent.Loop.{
  Loop, Completion, Answer, completed, refused, Driver, int_or_zero,
}
use noshiro_db_backend.Agent.Loop.Calls.{start_rows, model_step, complete_turn, completion_rows}
use noshiro_db_backend.Agent.Loop.Turn.{
  Turn, continues, finishes, fails, finish_output, finish_turn, final_output, after_count,
  after_complete, after_start, turn, after_turn, loop, seed, run_started, start_or_resume, run_loop,
}

-- A turn that goes on has one step more in its budget, under the same limit.
abbrev Uses : Budget → Turn → Type 0
Uses b (continues b' l) = (b'.steps_used ≡ b.steps_used + 1) × (b'.max_steps ≡ b.max_steps)
Uses b (finishes l) = Unit
Uses b (fails e l) = Unit

module _ (d : Driver) (now latency run : ℕ) where
  finish_output-Uses :
      (b : Budget) (step : ℕ) (o : Option StepOutput × String) (l : Loop)
      → Uses b (finish_output d now latency run step o l)
  unfolding finish_output
  finish_output-Uses b step (none, e) l = tt
  finish_output-Uses b step (some o, e) l = tt

  finish_turn-Uses :
      (b : Budget) (step : ℕ) (c : Completion) (l : Loop)
      → Uses b (finish_turn d now latency run step c l)
  unfolding finish_turn
  finish_turn-Uses b step c l = elim (Bool-cases (is_blank c.content)) [
    | inl e ↦ rw e tt
    | inr e ↦ rw e (
        finish_output-Uses b step
          (final_output d now latency run d.output_model (get_skill d.skill_name d.skills)
            c.content)
          l)
  ]

  after_count-Uses :
      (copy : AgentRun) (b : Budget) (step : ℕ) (c : Completion) (r : Bool × Budget) (l : Loop)
      → (r.0 ≡ true → (r.1.steps_used ≡ b.steps_used + 1) × (r.1.max_steps ≡ b.max_steps))
      → Uses b (after_count d now latency run copy step c r l)
  unfolding after_count
  after_count-Uses copy b step c (false, b') l h = tt
  after_count-Uses copy b step c (true, b') l h = elim (Bool-cases (is_cons c.calls)) [
    | inl e ↦ rw e (h refl)
    | inr e ↦ rw e (finish_turn-Uses b step c _)
  ]

  after_complete-Uses :
      (copy : AgentRun) (b : Budget) (step : ℕ) (a : Answer) (l : Loop)
      → Uses b (after_complete d now latency run copy b step a l)
  unfolding after_complete
  after_complete-Uses copy b step (refused text) l = tt
  after_complete-Uses copy b step (completed c) l =
      let i : Option ℕ = int_or_zero c.input_tokens in
      let o : Option ℕ = int_or_zero c.output_tokens in
      after_count-Uses copy b step c (record_execution i o (some 0) b)
        (completion_rows d now latency run step c l)
        (λ counted.
          let step_used = record_execution-step i o (some 0) b counted in
          (step_used.0, step_used.1))

  after_start-Uses :
      (copy : AgentRun) (b : Budget) (step : Option AgentStep) (l : Loop)
      → Uses b (after_start d now latency run copy b step l)
  unfolding after_start
  after_start-Uses copy b none l = tt
  after_start-Uses copy b (some step) l =
      after_complete-Uses copy b step.pk
        (complete_turn d now latency run 3 0 "" (start_rows d now latency run step l))
        (start_rows d now latency run step l)

  -- The turn goes on only if the budget had a step left.
  abbrev Advances : Budget → Turn → Type 0
  Advances b (continues b' l) =
      (suc b.steps_used ≤ b.max_steps)
      × (b'.steps_used ≡ b.steps_used + 1)
      × (b'.max_steps ≡ b.max_steps)
  Advances b _ = Unit

  Uses-Advances : (b : Budget) (t : Turn) → suc b.steps_used ≤ b.max_steps → Uses b t → Advances b t
  Uses-Advances b (continues b' l) h u = (h, u.0, u.1)
  Uses-Advances b (finishes l) h u = tt
  Uses-Advances b (fails e l) h u = tt

  turn-Advances :
      (b : Budget) (row : Option AgentRun) (l : Loop) → Advances b (turn d now latency run b row l)
  unfolding turn
  turn-Advances b none l = tt
  turn-Advances b (some copy) l = elim (Bool-cases (is_exhausted b)) [
    | inl e ↦ rw e tt
    | inr e ↦ rw e (
        Uses-Advances b
          (after_start d now latency run copy b
            (model_step d now latency run (get_skill d.skill_name d.skills) l) l)
          (is_exhausted-steps b e)
          (after_start-Uses copy b
            (model_step d now latency run (get_skill d.skill_name d.skills) l) l))
  ]

  after_turn-ends :
      (n : ℕ) (b : Budget) (t : Turn)
      → ((b' : Budget) (l : Loop)
          → suc b'.max_steps ≤ n + b'.steps_used
          → (end : Loop) × (loop d now latency run n b' l ≡ some end))
      → b.max_steps ≤ n + b.steps_used
      → Advances b t
      → (end : Loop) × (after_turn d now latency run (loop d now latency run n) t ≡ some end)
  unfolding after_turn
  after_turn-ends n b (continues b' l) again bound a = again b' l (omega (arith, a.1, a.2, bound))
  after_turn-ends n b (finishes l) again bound a = (l, refl)
  after_turn-ends n b (fails e l) again bound a = (_, refl)

  last_turn-ends :
      (b : Budget) (t : Turn)
      → b.max_steps ≤ b.steps_used
      → Advances b t
      → (end : Loop) × (after_turn d now latency run (loop d now latency run 0) t ≡ some end)
  unfolding after_turn
  last_turn-ends b (continues b' l) bound a = absurd (omega (arith, a.0, bound))
  last_turn-ends b (finishes l) bound a = (l, refl)
  last_turn-ends b (fails e l) bound a = (_, refl)

  -- With more fuel than the steps that the budget has left, and one more turn, the loop ends.
  loop_ends :
      (n : ℕ) (b : Budget) (l : Loop)
      → b.max_steps ≤ n + b.steps_used
      → (end : Loop) × (loop d now latency run (suc n) b l ≡ some end)
  unfolding loop
  loop_ends zero b l bound =
      last_turn-ends b (turn d now latency run b (get run_pk run l.world.runs) l)
        (omega (arith, bound)) (turn-Advances b (get run_pk run l.world.runs) l)
  loop_ends (suc n) b l bound =
      after_turn-ends (suc n) b (turn d now latency run b (get run_pk run l.world.runs) l)
        (λ b' l' h. loop_ends n b' l' (omega (arith, h))) bound
        (turn-Advances b (get run_pk run l.world.runs) l)

-- The driver's run ends, whatever the model answers and the tools do: where the run's row, as it
-- is read after the start, has a budget with at most `fuel` steps left, fuel for one turn more is
-- enough.
pub run_loop_ends :
    (d : Driver) (now latency run fuel : ℕ) (system_prompt user_prompt : String) (l : Loop)
    (row : AgentRun)
    → get run_pk run (start_or_resume d now latency run (get run_pk run l.world.runs) l).world.runs
      ≡ some row
    → (load row).max_steps ≤ fuel + (load row).steps_used
    → (end : Loop) × (run_loop d now latency run (suc fuel) system_prompt user_prompt l ≡ some end)
unfolding run_loop run_started
run_loop_ends d now latency run fuel system_prompt user_prompt l row g bound =
    let l1 : Loop = start_or_resume d now latency run (get run_pk run l.world.runs) l in
    elim (Bool-cases
      (run_status_eq row.status RunStatus.running || run_status_eq row.status RunStatus.queued)) [
        | inl e ↦
            rw (g, e)
              (loop_ends d now latency run fuel (load row)
                (seed d now latency run system_prompt user_prompt l1) bound)
        | inr e ↦ rw (g, e) (l1, refl)
      ]
