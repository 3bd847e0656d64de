-- ===== src/Job/Tests.antt =====
-- A concrete job, and the theorems of the job service at it.
use noshiro_db_backend.Base.{
  ℕ, ◌≡◌, refl, true, false, none, some, List, [], ◌∷◌, arith, get, update_one, eq_iff, pos,
}
use noshiro_db_backend.Job.{JobStatus, SyncJob, Call, job_pk, call, lease_length}
use noshiro_db_backend.Job.Lease.{claim-exclusive, call-fenced}
use noshiro_db_backend.Job.Progress.{Advances, run_calls, run_calls-Advances}

abbrev queued_job : SyncJob
queued_job = record {
  pk = 1;
  job_type = "subject";
  status = JobStatus.queued;
  celery_task_id = "";
  parameters = "{}";
  result = none;
  error = "";
  current_label = "";
  total_count = 0;
  processed_count = 0;
  synced_count = 0;
  skipped_count = 0;
  failed_count = 0;
  attempt = 0;
  heartbeat_at = none;
  lease_owner = "";
  lease_expires_at = none;
  started_at = none;
  finished_at = none;
}

abbrev leased_job : SyncJob
leased_job = record queued_job {
  status = JobStatus.running;
  attempt = 1;
  lease_owner = "worker-a";
  lease_expires_at = some 400;
  started_at = some 100;
}

claim-exclusive_example :
    call 200
      (some 1)
      (Call.claim "worker-b" none)
      (call 100 (some 1) (Call.claim "worker-a" none) (queued_job ∷ [])).1
    ≡ (false, (call 100 (some 1) (Call.claim "worker-a" none) (queued_job ∷ [])).1)
unfolding call update_one lease_length
claim-exclusive_example =
    claim-exclusive 100 200 1 "worker-a" "worker-b" none none (queued_job ∷ []) queued_job
      (refl, tt) refl
      (λ e. let q : false ≡ true = (eq_iff "worker-b" "worker-a").1 e in absurd (cc)) (omega arith)
      refl

call-fenced_example :
    call 200 (some 1) (Call.mark_succeeded "{}" "" (some "worker-b")) (leased_job ∷ [])
    ≡ (false, leased_job ∷ [])
call-fenced_example =
    call-fenced 200 1 "worker-b" (Call.mark_succeeded "{}" "" (some "worker-b")) (leased_job ∷ [])
      leased_job (refl, tt) refl refl
      (λ e. let q : false ≡ true = (eq_iff "worker-a" "worker-b").1 e in absurd (cc)) refl

abbrev calls : List (ℕ × Call)
calls =
    (100, Call.claim "worker-a" none)
    ∷ (120, Call.advance (pos 3) (pos 2) (pos 1) (pos 0) "page 1" (some "worker-a"))
    ∷ (130, Call.mark_succeeded "{}" "" (some "worker-a"))
    ∷ (140, Call.mark_failed "late" "" none)
    ∷ []

run_calls-Advances_example :
    (job' : SyncJob) × (get job_pk 1 (run_calls 1 calls (queued_job ∷ [])) ≡ some job')
    × Advances queued_job job'
run_calls-Advances_example = run_calls-Advances 1 calls (queued_job ∷ []) queued_job (refl, tt) refl
