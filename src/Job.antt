-- ===== src/Job.antt =====
-- Durable job status with worker leases (src/apps/sync/services/sync_job_service.py, and the rows
-- of src/apps/sync/models.py). Every method is one guarded update of the job's row. Times are
-- seconds, and `job_id` is `none` where the caller passes no job.
pub mod Lease
pub mod Progress
mod Tests
use noshiro_db_backend.Base.{
  ℕ, suc, ◌+◌, max, Bool, true, false, ◌&&◌, ◌||◌, not, Option, none, some, List, ◌++◌, [], ◌∷◌,
  String, ltb, leb, str_eq, is_text, if◌then◌else◌, or_default, get, update_one, select_where, ℤ,
  pos, negsuc, nonneg_part,
}
use noshiro_db_backend.Agent.Transcript.{take_chars}

-- `SyncJob.Status`
pub data JobStatus : Type 0 where
  queued running succeeded failed : JobStatus

-- The columns of `SyncJob`.
pub record SyncJob : Type 0 where
  pub pk : ℕ
  pub job_type : String
  pub status : JobStatus
  pub celery_task_id : String
  pub parameters : String
  pub result : Option String
  pub error : String
  pub current_label : String
  pub total_count : ℕ
  pub processed_count : ℕ
  pub synced_count : ℕ
  pub skipped_count : ℕ
  pub failed_count : ℕ
  pub attempt : ℕ
  pub heartbeat_at : Option ℕ
  pub lease_owner : String
  pub lease_expires_at : Option ℕ
  pub started_at : Option ℕ
  pub finished_at : Option ℕ

abbrev pub job_pk : SyncJob → ℕ
job_pk j = j.pk

abbrev is_running : JobStatus → Bool
is_running JobStatus.running = true
is_running _ = false

-- `status__in=(QUEUED, RUNNING)`
abbrev pub is_open : JobStatus → Bool
is_open JobStatus.queued = true
is_open JobStatus.running = true
is_open _ = false

abbrev pub is_succeeded : JobStatus → Bool
is_succeeded JobStatus.succeeded = true
is_succeeded _ = false

-- `if lease_owner: queryset.filter(lease_owner=lease_owner)`
abbrev is_owned : Option String → SyncJob → Bool
is_owned none j = true
is_owned (some owner) j = not (is_text owner) || str_eq j.lease_owner owner

-- `label` if it is not empty, else the column as it is.
abbrev or_label : String → String → String
or_label label old = if is_text label then label else old

-- `update_one` under `if not job_id: return`.
abbrev update_job :
    Option ℕ → (SyncJob → Bool) → (SyncJob → SyncJob) → List SyncJob → Bool × List SyncJob
update_job none p f jobs = (false, jobs)
update_job (some id) p f jobs = update_one job_pk id p f jobs

-- `SyncJobService.create_job`. `id` is the new key.
unfoldable create_job : ℕ → String → String → List SyncJob → List SyncJob
create_job id job_type parameters jobs =
    jobs
    ++ record {
      pk = id;
      job_type = job_type;
      status = JobStatus.queued;
      celery_task_id = "";
      parameters = parameters;
      result = none;
      error = "";
      current_label = "";
      total_count = 0;
      processed_count = 0;
      synced_count = 0;
      skipped_count = 0;
      failed_count = 0;
      attempt = 0;
      heartbeat_at = none;
      lease_owner = "";
      lease_expires_at = none;
      started_at = none;
      finished_at = none;
    }
      ∷ []

-- The methods, as values: the arguments of a call.
pub data Call : Type 0 where
  bind_celery_task : (celery_task_id : String) → Call
  mark_running :
      (total_count : Option ℤ) (current_label : String) (lease_owner : Option String) → Call
  set_total : (total_count : ℤ) (current_label : String) → Call
  advance :
      (processed synced skipped failures : ℤ) (current_label : String) (lease_owner : Option String)
      → Call
  mark_succeeded : (result : String) (current_label : String) (lease_owner : Option String) → Call
  mark_failed : (error : String) (current_label : String) (lease_owner : Option String) → Call
  claim : (lease_owner : String) (lease_seconds : Option ℤ) → Call
  heartbeat : (lease_owner : String) (lease_seconds : Option ℤ) → Call
  release : (lease_owner : String) → Call

-- `max(30, int(lease_seconds or DEFAULT_LEASE_SECONDS))`
unfoldable pub lease_length : Option ℤ → ℕ
lease_length none = 3600
lease_length (some (negsuc n)) = 30
lease_length (some (pos n)) = if ltb 0 n then max 30 n else 3600

-- `Q(lease_expires_at__isnull=True) | Q(lease_expires_at__lte=now)`
abbrev pub is_lapsed : ℕ → Option ℕ → Bool
is_lapsed now none = true
is_lapsed now (some t) = leb t now

-- The rows that a method's query set holds, apart from the key.
abbrev pub guard : ℕ → Call → SyncJob → Bool
guard now (bind_celery_task task) j = true
guard now (mark_running total label owner) j = is_open j.status && is_owned owner j
guard now (set_total total label) j = is_running j.status
guard now (advance processed synced skipped failures label owner) j =
    is_running j.status && is_owned owner j
guard now (mark_succeeded result label owner) j = is_open j.status && is_owned owner j
guard now (mark_failed error label owner) j = is_owned owner j && not (is_succeeded j.status)
guard now (claim owner seconds) j =
    is_open j.status && (str_eq j.lease_owner owner || is_lapsed now j.lease_expires_at)
guard now (heartbeat owner seconds) j = is_running j.status && str_eq j.lease_owner owner
guard now (release owner) j = is_running j.status && str_eq j.lease_owner owner

-- `Coalesce("started_at", Value(now))`
abbrev coalesce : Option ℕ → ℕ → Option ℕ
coalesce none now = some now
coalesce (some t) now = some t

-- The columns that a method writes.
abbrev pub write : ℕ → Call → SyncJob → SyncJob
write now (bind_celery_task task) j = record j { celery_task_id = task }
write now (mark_running total label owner) j = record j {
  status = JobStatus.running;
  started_at = coalesce j.started_at now;
  current_label = label;
  total_count = elim total [ none ↦ j.total_count | some n ↦ nonneg_part n ];
}
write now (set_total total label) j = record j {
  total_count = nonneg_part total;
  current_label = or_label label j.current_label;
}
write now (advance processed synced skipped failures label owner) j = record j {
  processed_count = j.processed_count + nonneg_part processed;
  synced_count = j.synced_count + nonneg_part synced;
  skipped_count = j.skipped_count + nonneg_part skipped;
  failed_count = j.failed_count + nonneg_part failures;
  current_label = or_label label j.current_label;
}
write now (mark_succeeded result label owner) j = record j {
  status = JobStatus.succeeded;
  result = some result;
  current_label = label;
  finished_at = some now;
}
write now (mark_failed error label owner) j = record j {
  status = JobStatus.failed;
  error = take_chars 4000 error;
  current_label = label;
  finished_at = some now;
}
write now (claim owner seconds) j = record j {
  status = JobStatus.running;
  started_at = coalesce j.started_at now;
  heartbeat_at = some now;
  lease_owner = owner;
  lease_expires_at = some (now + lease_length seconds);
  attempt = j.attempt + 1;
}
write now (heartbeat owner seconds) j = record j {
  heartbeat_at = some now;
  lease_expires_at = some (now + lease_length seconds);
}
write now (release owner) j = record j { lease_expires_at = some now }

-- A call of a method: whether it changed a row, and the table.
unfoldable pub call : ℕ → Option ℕ → Call → List SyncJob → Bool × List SyncJob
call now id c jobs = update_job id (guard now c) (write now c) jobs

-- `stale_running_jobs`
unfoldable stale_running_jobs : ℕ → List SyncJob → List SyncJob
stale_running_jobs before =
    select_where
      (λ j. is_running j.status && elim j.lease_expires_at [ none ↦ false | some t ↦ ltb t before ])

-- `get_job`: `none` is `SyncJobNotFound`.
unfoldable get_job : ℕ → List SyncJob → Option SyncJob
get_job id jobs = get job_pk id jobs

abbrev job_status_eq : JobStatus → JobStatus → Bool
job_status_eq JobStatus.queued JobStatus.queued = true
job_status_eq JobStatus.running JobStatus.running = true
job_status_eq JobStatus.succeeded JobStatus.succeeded = true
job_status_eq JobStatus.failed JobStatus.failed = true
job_status_eq _ _ = false

-- `list_queryset`; an empty filter is none.
unfoldable list_queryset : Option JobStatus → String → List SyncJob → List SyncJob
list_queryset status job_type jobs =
    let by_status : List SyncJob = elim status [
      | none ↦ jobs
      | some s ↦ select_where (λ j. job_status_eq j.status s) jobs
    ] in
    if is_text job_type then select_where (λ j. str_eq j.job_type job_type) by_status else by_status
