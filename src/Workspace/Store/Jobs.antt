-- ===== src/Workspace/Store/Jobs.antt =====
-- The jobs of a workspace: their creation, their status changes and the progress that they report.
pub mod Active
pub mod Writes
pub mod Commits
pub mod Reach
pub mod Recovery
pub mod Progress
pub mod Reports
pub mod Capped
use exam_sage.Common.{
  ℕ, String, Bool, true, false, ◌&&◌, ◌||◌, not, Option, none, some, List, [], ◌∷◌, head?, is_none,
  any, count, filter, find, order_by, leb, eqb, if◌then◌else◌, Method, Result, ok, err, Error,
  ◌>>=◌, ◌>>◌, pure, raise, gets, modify, ensure, or_raise, transaction, value_error, runtime_error,
  integrity_error, active_operation, ◌==◌, is_error_code,
}
use exam_sage.Workspace.Models.{
  WorkspaceState, JobStatus, ScanProgress, WorkspaceJob, WorkspaceEvent, PayloadValue,
}
use exam_sage.Workspace.Paths.{normalize_relative_path}
use exam_sage.Workspace.Store.{
  Db, workspace_row, job_row, update_workspace, update_job_row, guard_accepts_jobs,
  guard_transition, is_terminal, is_active_in, is_running, is_queued, same_request, insert_job,
}
use exam_sage.Workspace.Store.Events.{insert_event, mem, text_length}

-- ORDER BY created_at ASC, rowid ASC
abbrev pub created_first : WorkspaceJob → WorkspaceJob → Bool
created_first a b = leb a.created_at b.created_at

-- A request that has its job already, or none.
unfoldable pub create_or_repeat : WorkspaceJob → Option WorkspaceJob → Method Db WorkspaceJob
unfolding insert_job
create_or_repeat job (some j) = pure j
create_or_repeat job none = insert_job job >> job_row job.job_id

-- The transaction of create_job
unfoldable pub try_create : WorkspaceJob → Method Db WorkspaceJob
unfolding create_or_repeat
try_create job = do
  row ← workspace_row job.workspace_id
  guard_accepts_jobs row
  existing ← gets (λ db. find (λ j. same_request j job) db.jobs)
  create_or_repeat job existing

-- The oldest queued or running job of a workspace
unfoldable pub oldest_active : (workspace_id : String) → Db → Option WorkspaceJob
oldest_active workspace_id db =
    head? (order_by created_first (filter (is_active_in workspace_id) db.jobs))

abbrev pub repeated : WorkspaceJob → Option WorkspaceJob → Result WorkspaceJob
repeated job none = err active_operation
repeated job (some active) =
    if active.job_kind == job.job_kind && active.idempotency_key == job.idempotency_key
    then ok active
    else err active_operation

-- except sqlite3.IntegrityError
abbrev pub after_clash : WorkspaceJob → Result WorkspaceJob × Db → Result WorkspaceJob × Db
after_clash job (err Error.integrity_error, db) =
    (repeated job (oldest_active job.workspace_id db), db)
after_clash job r = r

-- create_job; the row takes the key that is passed.
unfoldable pub create_job : WorkspaceJob → (idempotency_key : String) → Method Db WorkspaceJob
unfolding try_create oldest_active
create_job job key db =
    let keyed : WorkspaceJob = record job { idempotency_key = key } in
    after_clash keyed (transaction (try_create keyed) db)

-- get_job
unfoldable pub get_job : (job_id : String) → Method Db WorkspaceJob
get_job job_id = job_row job_id

abbrev pub requeued : WorkspaceJob → WorkspaceJob
requeued j =
    if is_running j.status
    then record j {
      status = JobStatus.queued;
      safe_error_code = none;
      started_at = none;
      finished_at = none;
    }
    else j

-- The loop of recover_running_jobs
unfoldable pub recover_rows : (now : ℕ) → List WorkspaceJob → Method Db (List WorkspaceJob)
unfolding insert_event
recover_rows now [] = pure []
recover_rows now (row ∷ rows) = do
  modify (update_job_row row.job_id requeued)
  insert_event row.job_id "queued" "Workspace operation queued." [] now
  job ← job_row row.job_id
  rest ← recover_rows now rows
  pure (job ∷ rest)

-- SELECT * FROM workspace_jobs WHERE status = ? ORDER BY created_at ASC, rowid ASC
unfoldable pub jobs_with : (JobStatus → Bool) → Db → List WorkspaceJob
jobs_with p db = order_by created_first (filter (λ j. p j.status) db.jobs)

-- recover_running_jobs
unfoldable pub recover_running_jobs : (now : ℕ) → Method Db (List WorkspaceJob)
unfolding recover_rows jobs_with
recover_running_jobs now db = transaction (recover_rows now (jobs_with is_running db)) db

-- list_queued_jobs
unfoldable pub list_queued_jobs : Db → List WorkspaceJob
unfolding jobs_with
list_queued_jobs = jobs_with is_queued

-- recover_unfinished_jobs
unfoldable pub recover_unfinished_jobs : (now : ℕ) → Method Db (List WorkspaceJob)
unfolding recover_running_jobs list_queued_jobs
recover_unfinished_jobs now = recover_running_jobs now >> gets list_queued_jobs

-- start_job, for a job that is not running
unfoldable pub start_queued : (now : ℕ) → WorkspaceJob → Method Db WorkspaceJob
unfolding insert_event
start_queued now job = do
  ensure (is_queued job.status) active_operation
  modify (
      update_job_row job.job_id
        (λ j. record j { status = JobStatus.running; started_at = some now }))
  modify (
      update_workspace job.workspace_id
        (λ w. record w { state = WorkspaceState.scanning; updated_at = now }))
  insert_event job.job_id "started" "Workspace scan started." [] now
  job_row job.job_id

-- The transaction of start_job
unfoldable pub start_body : (now : ℕ) → (job_id : String) → Method Db WorkspaceJob
unfolding start_queued
start_body now job_id = do
  job ← job_row job_id
  workspace ← workspace_row job.workspace_id
  guard_accepts_jobs workspace
  if is_running job.status then pure job else start_queued now job

-- start_job
unfoldable pub start_job : (now : ℕ) → (job_id : String) → Method Db WorkspaceJob
unfolding start_body
start_job now job_id = transaction (start_body now job_id)

-- The path of a progress report, normalized
abbrev short_path : Result String → Result PayloadValue
short_path (err e) = err e
short_path (ok path) =
    if leb (text_length path) 1024 then ok (PayloadValue.text path) else err value_error

abbrev pub progress_path : Option String → Method Db PayloadValue
progress_path none db = (ok PayloadValue.absent, db)
progress_path (some value) db = (short_path (normalize_relative_path value), db)

abbrev pub is_progress : (job_id : String) → WorkspaceEvent → Bool
is_progress job_id e = e.job_id == job_id && e.event_type == "scan_progress"

-- The last row of a list; rows stand in the order of their sequence numbers.
unfoldable pub last_of : List WorkspaceEvent → Option WorkspaceEvent
last_of [] = none
last_of (e ∷ []) = some e
last_of (e ∷ f ∷ es) = last_of (f ∷ es)

-- The payload of a progress event
abbrev pub progress_payload : ScanProgress → PayloadValue → List (String × PayloadValue)
progress_payload progress path =
    ("bytes_hashed", PayloadValue.count progress.bytes_hashed)
    ∷ ("current_relative_path", path)
    ∷ ("discovered_count", PayloadValue.count progress.discovered_count)
    ∷ ("failure_count", PayloadValue.count progress.failure_count)
    ∷ []

-- The transaction of append_progress
unfoldable pub record_progress :
    (now : ℕ) → (job_id : String) → ScanProgress → PayloadValue → Method Db WorkspaceEvent
unfolding insert_event last_of
record_progress now job_id progress path = do
  job ← job_row job_id
  ensure (is_running job.status) active_operation
  reports ← gets (λ db. filter (is_progress job_id) db.events)
  if leb 256 (count (λ e. true) reports)
      then or_raise runtime_error (last_of reports)
      else insert_event job_id "scan_progress" "Scanning course files."
          (progress_payload progress path) now

-- append_progress
unfoldable pub append_progress :
    (now : ℕ) → (job_id : String) → ScanProgress → Method Db WorkspaceEvent
unfolding record_progress text_length
append_progress now job_id progress = do
  path ← progress_path progress.current_relative_path
  transaction (record_progress now job_id progress path)

-- The transaction of fail_job
unfoldable pub fail_body : (now : ℕ) → (job_id code : String) → Method Db WorkspaceJob
unfolding insert_event
fail_body now job_id code = do
  job ← job_row job_id
  ensure (not (is_terminal job.status)) active_operation
  guard_transition job.status JobStatus.failed
  modify (
      update_job_row job_id (λ j. record j {
        status = JobStatus.failed;
        safe_error_code = some code;
        finished_at = some now;
      }))
  modify (
      update_workspace job.workspace_id
        (λ w. record w { state = WorkspaceState.needs_attention; updated_at = now }))
  insert_event job_id "failed" "Workspace scan failed."
      (("safe_error_code", PayloadValue.text code) ∷ []) now
  job_row job_id

-- fail_job; the wrapper looks the job up before the code is tested.
unfoldable pub fail_job : (now : ℕ) → (job_id code : String) → Method Db WorkspaceJob
unfolding fail_body
fail_job now job_id code = do
  job_row job_id
  ensure (is_error_code code) value_error
  transaction (fail_body now job_id code)

-- _STATUS_EVENTS
abbrev pub status_events : JobStatus → List String
status_events JobStatus.queued = []
status_events JobStatus.running = "started" ∷ []
status_events JobStatus.succeeded = "approval_required" ∷ "succeeded" ∷ []
status_events JobStatus.failed = "failed" ∷ []
status_events JobStatus.cancelled = "cancelled" ∷ []

-- immutable_identity
abbrev pub same_identity : WorkspaceJob → WorkspaceJob → Bool
same_identity a b = same_request a b && eqb a.created_at b.created_at

abbrev is_code_or_none : Option String → Bool
is_code_or_none none = true
is_code_or_none (some code) = is_error_code code

-- The fields that update_job writes
abbrev pub with_status : WorkspaceJob → WorkspaceJob → WorkspaceJob
with_status job j = record j {
  status = job.status;
  safe_error_code = job.safe_error_code;
  started_at = job.started_at;
  finished_at = job.finished_at;
}

-- The tests of update_job on the new values
unfoldable pub check_update : WorkspaceJob → WorkspaceEvent → Method Db Unit
check_update job event = do
  ensure (mem event.event_type (status_events job.status)) value_error
  ensure (not (is_running job.status && is_none job.started_at)) value_error
  ensure (not (is_terminal job.status && is_none job.finished_at)) value_error
  ensure (is_code_or_none job.safe_error_code) value_error

-- The transaction of update_job
unfoldable pub update_body : WorkspaceJob → WorkspaceEvent → Method Db Unit
unfolding check_update insert_event
update_body job event = do
  stored ← job_row job.job_id
  ensure (same_identity stored job) value_error
  guard_transition stored.status job.status
  check_update job event
  modify (update_job_row job.job_id (with_status job))
  insert_event event.job_id event.event_type event.message event.payload event.created_at
  pure tt

-- update_job
unfoldable pub update_job : WorkspaceJob → WorkspaceEvent → Method Db Unit
unfolding update_body
update_job job event = do
  ensure (event.job_id == job.job_id) value_error
  transaction (update_body job event)
