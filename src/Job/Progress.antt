-- ===== src/Job/Progress.antt =====
-- The life of a job under any calls: how its status moves, and what its counters say.
use noshiro_db_backend.Base.{
  ℕ, ◌≤◌, ◌≡◌, ◌∙◌, ◌⊎◌, inl, inr, true, none, some, List, [], ◌∷◌, arith, Bool-cases, get, IsKeyed,
}
use noshiro_db_backend.Job.{JobStatus, SyncJob, Call, job_pk, is_open, guard, write, call}
use noshiro_db_backend.Job.Lease.{get-call, call-IsKeyed}

-- The calls that reach one job, each at its time.
unfoldable pub run_calls : ℕ → List (ℕ × Call) → List SyncJob → List SyncJob
run_calls id [] jobs = jobs
run_calls id ((now, c) ∷ cs) jobs = run_calls id cs (call now (some id) c jobs).1

-- How far a status is: a succeeded or failed job has ended.
abbrev rank : JobStatus → ℕ
rank JobStatus.queued = 0
rank JobStatus.running = 1
rank JobStatus.succeeded = 2
rank JobStatus.failed = 2

-- What one job keeps from one state to a later one.
pub record Advances (a b : SyncJob) : Type 0 where
  status_forward : rank a.status ≤ rank b.status
  end_final : (is_open a.status ≡ true) ⊎ (b.status ≡ a.status)
  processed_grows : a.processed_count ≤ b.processed_count
  synced_grows : a.synced_count ≤ b.synced_count
  skipped_grows : a.skipped_count ≤ b.skipped_count
  failed_grows : a.failed_count ≤ b.failed_count
  attempts_grow : a.attempt ≤ b.attempt
  start_kept : (a.started_at ≡ none) ⊎ (b.started_at ≡ a.started_at)

Advances-refl : (a : SyncJob) → Advances a a
Advances-refl a = ground arith

Advances-trans : (a b c : SyncJob) → Advances a b → Advances b c → Advances a c
Advances-trans a b c h k = ground arith

write-Advances :
    (now : ℕ) (c : Call) (j : SyncJob) → guard now c j ≡ true → Advances j (write now c j)
write-Advances now (Call.bind_celery_task t) j h = ground arith
write-Advances now (Call.mark_running total label o) j h = ground arith
write-Advances now c j h = ground arith

call-Advances :
    (now id : ℕ) (c : Call) (jobs : List SyncJob) (job : SyncJob)
    → IsKeyed job_pk jobs
    → get job_pk id jobs ≡ some job
    → (job' : SyncJob) × (get job_pk id (call now (some id) c jobs).1 ≡ some job')
      × Advances job job'
call-Advances now id c jobs job u g = elim (Bool-cases (guard now c job)) [
  | inl e ↦ (write now c job, get-call now id c jobs job u g ∙ rw e, write-Advances now c job e)
  | inr e ↦ (job, get-call now id c jobs job u g ∙ rw e, Advances-refl job)
]

-- In a table with unique keys, whatever calls reach a job, in whatever order: its status only
-- moves forward, an end is final, its counters and attempts never fall, and its first start is
-- kept.
pub run_calls-Advances :
    (id : ℕ) (cs : List (ℕ × Call)) (jobs : List SyncJob) (job : SyncJob)
    → IsKeyed job_pk jobs
    → get job_pk id jobs ≡ some job
    → (job' : SyncJob) × (get job_pk id (run_calls id cs jobs) ≡ some job') × Advances job job'
unfolding run_calls
run_calls-Advances id [] jobs job u g = (job, g, Advances-refl job)
run_calls-Advances id ((now, c) ∷ cs) jobs job u g =
    let (mid, gm, am) = call-Advances now id c jobs job u g in
    let (job', g', a') =
      run_calls-Advances id cs (call now (some id) c jobs).1 mid
        (call-IsKeyed now id c jobs job u g) gm in
    (job', g', Advances-trans job mid job' am a')
