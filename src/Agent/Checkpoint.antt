-- ===== src/Agent/Checkpoint.antt =====
-- Checkpoints of a run (src/apps/ai/runtime/checkpoint.py). The content hash is left out.
use noshiro_db_backend.Base.{
  ltb, ℕ, max, ◌≤◌, ◌≡◌, refl, ◌∙◌, Bool, true, false, ◌&&◌, Option, none, some, List, [], ◌∷◌,
  arith, ◌==◌, if◌then◌else◌, is_some, count_where, select_where, length, order_by, count-order_by,
  update_one, Bool-cases, inl, inr, IsSortedFrom, IsSortedFrom-order_by, IsSortedFrom-le,
  Option-cases,
}
use noshiro_db_backend.Agent.Model.{
  RunStatus, StepStatus, AgentRun, AgentStep, Checkpoint, run_status_eq, step_status_eq,
}
use noshiro_db_backend.Agent.Machine.{run_pk}

abbrev step_sequence : AgentStep → ℕ
step_sequence s = s.sequence

-- `max((s["sequence"] for s in steps if s["status"] == "succeeded"), default=-1)`
unfoldable last_completed : List AgentStep → Option ℕ
last_completed [] = none
last_completed (s ∷ t) =
    let rest = last_completed t in
    if step_status_eq s.status StepStatus.succeeded
    then some (elim rest [ none ↦ s.sequence | some n ↦ max s.sequence n ])
    else rest

-- `CheckpointManager.capture`. `messages` is the number of messages of the run.
unfoldable capture : ℕ → AgentRun → List AgentStep → ℕ → Checkpoint
unfolding last_completed order_by
capture now run all_steps messages =
    let steps = order_by step_sequence (select_where (λ s. s.run == run.pk) all_steps) in
    record {
      run_id = run.pk;
      run_status = run.status;
      step_count = length steps;
      message_count = messages;
      last_completed_sequence = last_completed steps;
      steps = steps;
      captured_at = now;
    }

-- `CheckpointManager.save`: the caller's copy and the table.
unfoldable pub save : ℕ → AgentRun → List AgentStep → ℕ → List AgentRun → AgentRun × List AgentRun
unfolding capture
save now run all_steps messages rows =
    let checkpoint = capture now run all_steps messages in
    (
      record run { checkpoint = some checkpoint },
      (update_one run_pk run.pk (λ _. true)
          (λ r. record r { checkpoint = some checkpoint; updated_at = now }) rows).1,
    )

unfoldable can_resume : AgentRun → Bool
can_resume run = run_status_eq run.status RunStatus.paused && is_some run.checkpoint

-- `s["status"] in ("queued", "running", "failed")`
abbrev needs_replay : AgentStep → Bool
needs_replay s = elim s.status [
  | StepStatus.queued ↦ true
  | StepStatus.running ↦ true
  | StepStatus.failed ↦ true
  | _ ↦ false
]

unfoldable replay_plan : AgentRun → List AgentStep
replay_plan run = elim run.checkpoint [ none ↦ [] | some c ↦ select_where needs_replay c.steps ]

count-select :
    {A : Type 0} (p q : A → Bool) (t : List A)
    → count_where q (select_where p t) ≡ count_where (λ s. p s && q s) t
count-select p q [] = refl
count-select p q (s ∷ t) = ground (arith, count-select p q t)

count-nested :
    (k : ℕ) (p q : AgentStep → Bool) (t : List AgentStep)
    → count_where (λ s. p s && q s) (select_where (λ s. s.run == k) t)
      ≡ count_where (λ s. s.run == k && (p s && q s)) t
count-nested k p q t = count-select (λ s. s.run == k) (λ s. p s && q s) t

-- The plan after a save holds the steps of this run that are queued, running or failed, each as
-- often as the table does, and no other step: every test counts the same.
replay_plan-save :
    (now : ℕ) (run : AgentRun) (all_steps : List AgentStep) (messages : ℕ) (rows : List AgentRun)
    (q : AgentStep → Bool)
    → count_where q (replay_plan (save now run all_steps messages rows).0)
      ≡ count_where (λ s. s.run == run.pk && (needs_replay s && q s)) all_steps
unfolding replay_plan save
replay_plan-save now run all_steps messages rows q =
    count-select needs_replay q
      (order_by step_sequence (select_where (λ s. s.run == run.pk) all_steps))
    ∙ (count-order_by step_sequence (λ s. needs_replay s && q s)
          (select_where (λ s. s.run == run.pk) all_steps)
        ∙ count-nested run.pk needs_replay q all_steps)

select-IsSortedFrom :
    (p : AgentStep → Bool) (b : ℕ) (t : List AgentStep)
    → IsSortedFrom step_sequence b t
    → IsSortedFrom step_sequence b (select_where p t)
select-IsSortedFrom p b [] h = tt
select-IsSortedFrom p b (x ∷ t) h = elim (Bool-cases (p x)) [
  | inl e ↦ rw e (h.0, select-IsSortedFrom p x.sequence t h.1)
  | inr e ↦
      rw e
        (IsSortedFrom-le step_sequence b x.sequence _ h.0 (select-IsSortedFrom p x.sequence t h.1))
]

-- The plan after a save lists its steps by rising sequence number.
replay_plan-sorted :
    (now : ℕ) (run : AgentRun) (all_steps : List AgentStep) (messages : ℕ) (rows : List AgentRun)
    → IsSortedFrom step_sequence 0 (replay_plan (save now run all_steps messages rows).0)
unfolding replay_plan save
replay_plan-sorted now run all_steps messages rows =
    select-IsSortedFrom needs_replay 0 _
      (IsSortedFrom-order_by step_sequence (select_where (λ s. s.run == run.pk) all_steps))

abbrev NoneAbove : ℕ → Option ℕ → Type 0
NoneAbove n none = Unit
NoneAbove n (some m) = m ≤ n

last_completed-bound :
    (t : List AgentStep) (n : ℕ)
    → NoneAbove n (last_completed t)
    → count_where (λ s. step_status_eq s.status StepStatus.succeeded && ltb n s.sequence) t ≡ 0
unfolding last_completed
last_completed-bound [] n h = refl
last_completed-bound (s ∷ t) n h = elim (Option-cases (last_completed t)) [
  | inl e ↦ ground (arith, last_completed-bound t n (rw e tt))
  | inr (m, e) ↦ ground (arith, last_completed-bound t n (rw e (ground arith)))
]

-- Where a capture has a `last_completed_sequence`, no captured step that has succeeded comes after
-- it.
capture-last_completed :
    (now : ℕ) (run : AgentRun) (all_steps : List AgentStep) (messages n : ℕ)
    → (capture now run all_steps messages).last_completed_sequence ≡ some n
    → count_where
        (λ s. step_status_eq s.status StepStatus.succeeded && ltb n s.sequence)
        (capture now run all_steps messages).steps
      ≡ 0
unfolding capture
capture-last_completed now run all_steps messages n h =
    last_completed-bound _ n (rw h (omega arith))
