-- ===== src/Job/Lease.antt =====
-- Leases: one worker at a time, and what a worker that has lost its lease can still write.
use noshiro_db_backend.Base.{
  ℕ, ◌+◌, ◌≤◌, ◌<◌, ◌≡◌, refl, sym, ◌∙◌, ◌≢◌, true, false, Option, none, some, List, String, arith,
  eq_iff, is_text, if◌then◌else◌, get, IsKeyed, update_one_refused, update_one_flag, get-update_one,
  IsKeyed-update_one, ℤ, pos, negsuc,
}
use noshiro_db_backend.Job.{
  JobStatus, SyncJob, Call, claim, heartbeat, release, mark_running, mark_succeeded, mark_failed,
  advance, job_pk, is_open, is_lapsed, lease_length, guard, write, call,
}

write-pk : (now : ℕ) (c : Call) (j : SyncJob) → job_pk (write now c j) ≡ job_pk j
write-pk now (Call.bind_celery_task task) j = refl
write-pk now c j = ground arith

module _ (now id : ℕ) (c : Call) (jobs : List SyncJob) (job : SyncJob) (u : IsKeyed job_pk jobs)
    (g : get job_pk id jobs ≡ some job) where
  -- A call whose guard the row fails answers false and changes nothing.
  call_refused : guard now c job ≡ false → call now (some id) c jobs ≡ (false, jobs)
  unfolding call
  call_refused e = update_one_refused job_pk id (guard now c) (write now c) jobs job u g e

  call_flag : (call now (some id) c jobs).0 ≡ guard now c job
  unfolding call
  call_flag = update_one_flag job_pk id (guard now c) (write now c) jobs job u g

  pub get-call :
      get job_pk id (call now (some id) c jobs).1
      ≡ some (if guard now c job then write now c job else job)
  unfolding call
  get-call = get-update_one job_pk id (guard now c) (write now c) jobs job (write-pk now c) g

  pub call-IsKeyed : IsKeyed job_pk (call now (some id) c jobs).1
  unfolding call
  call-IsKeyed = IsKeyed-update_one job_pk id (guard now c) (write now c) jobs (write-pk now c) u

-- Every lease lasts thirty seconds or more.
lease_length-ge : (seconds : Option ℤ) → 30 ≤ lease_length seconds
unfolding lease_length
lease_length-ge none = omega arith
lease_length-ge (some (pos n)) = ground arith
lease_length-ge (some (negsuc n)) = omega arith

-- In a table with unique keys: while the lease of a claim that was granted runs, no other worker's
-- claim is granted, and it leaves the table as it is.
pub claim-exclusive :
    (now later id : ℕ) (owner rival : String) (seconds wanted : Option ℤ) (jobs : List SyncJob)
    (job : SyncJob)
    → IsKeyed job_pk jobs
    → get job_pk id jobs ≡ some job
    → rival ≢ owner
    → later < now + lease_length seconds
    → (call now (some id) (claim owner seconds) jobs).0 ≡ true
    → let after = (call now (some id) (claim owner seconds) jobs).1 in
      call later (some id) (claim rival wanted) after ≡ (false, after)
claim-exclusive now later id owner rival seconds wanted jobs job u g ne early won =
    let c = claim owner seconds in
    let granted : guard now c job ≡ true = sym (call_flag now id c jobs job u g) ∙ won in
    call_refused later id (claim rival wanted) (call now (some id) c jobs).1 (write now c job)
      (call-IsKeyed now id c jobs job u g) (get-call now id c jobs job u g ∙ rw granted)
      (ground (arith, eq_iff owner rival))

-- In a table with unique keys: a job that is queued or running, and whose lease has run out or was
-- never given, can be claimed by every worker; the claim makes it running, under the worker's
-- lease, as one more attempt.
claim-grants :
    (now id : ℕ) (owner : String) (seconds : Option ℤ) (jobs : List SyncJob) (job : SyncJob)
    → IsKeyed job_pk jobs
    → get job_pk id jobs ≡ some job
    → is_open job.status ≡ true
    → is_lapsed now job.lease_expires_at ≡ true
    → ((call now (some id) (claim owner seconds) jobs).0 ≡ true)
      × ((job' : SyncJob) × (get job_pk id (call now (some id) (claim owner seconds) jobs).1
            ≡ some job')
          × (job'.status ≡ JobStatus.running)
          × (job'.lease_owner ≡ owner)
          × (job'.lease_expires_at ≡ some (now + lease_length seconds))
          × (job'.attempt ≡ job.attempt + 1))
claim-grants now id owner seconds jobs job u g is_live lapsed =
    let c = claim owner seconds in
    let granted : guard now c job ≡ true = ground arith in
    (
      call_flag now id c jobs job u g ∙ granted,
      (write now c job, get-call now id c jobs job u g ∙ rw granted, refl, refl, refl, refl),
    )

-- A call that a worker makes under its own name.
abbrev IsFenced : String → Call → Type 0
IsFenced owner (mark_running total label o) = o ≡ some owner
IsFenced owner (advance processed synced skipped failures label o) = o ≡ some owner
IsFenced owner (mark_succeeded result label o) = o ≡ some owner
IsFenced owner (mark_failed error label o) = o ≡ some owner
IsFenced owner (heartbeat o seconds) = o ≡ owner
IsFenced owner (release o) = o ≡ owner
IsFenced owner _ = ⊥

-- In a table with unique keys: where another owner has the lease of a job, nothing that a worker
-- reports under its own name (start, progress, success, failure, heartbeat, release) changes the
-- table.
pub call-fenced :
    (now id : ℕ) (owner : String) (c : Call) (jobs : List SyncJob) (job : SyncJob)
    → IsKeyed job_pk jobs
    → get job_pk id jobs ≡ some job
    → is_text owner ≡ true
    → job.lease_owner ≢ owner
    → IsFenced owner c
    → call now (some id) c jobs ≡ (false, jobs)
call-fenced now id owner c jobs job u g named lost fenced =
    call_refused now id c jobs job u g (fenced_guard c fenced)
  where
    fenced_guard : (d : Call) → IsFenced owner d → guard now d job ≡ false
    fenced_guard (mark_running total label o) e =
        rw e (ground (arith, eq_iff job.lease_owner owner))
    fenced_guard (advance p s k f label o) e = rw e (ground (arith, eq_iff job.lease_owner owner))
    fenced_guard (mark_succeeded r label o) e = rw e (ground (arith, eq_iff job.lease_owner owner))
    fenced_guard (mark_failed x label o) e = rw e (ground (arith, eq_iff job.lease_owner owner))
    fenced_guard (heartbeat o seconds) e = ground (arith, eq_iff job.lease_owner o)
    fenced_guard (release o) e = ground (arith, eq_iff job.lease_owner o)
    fenced_guard (Call.bind_celery_task t) e = absurd e
    fenced_guard (Call.set_total n label) e = absurd e
    fenced_guard (claim o seconds) e = absurd e
