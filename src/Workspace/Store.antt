-- ===== src/Workspace/Store.antt =====
-- exam_predictor/workspace/store.py: the tables of WorkspaceStore, its guards and its events. Each
-- method below is one transaction, and the lock of a workspace serializes them.
pub mod Events
pub mod Creation
pub mod Manifests
pub mod Jobs
pub mod Authority
pub mod Removal
use exam_sage.Common.{
  ℕ, suc, ◌+◌, String, Bool, true, false, ◌&&◌, ◌||◌, not, Option, none, some, List, [], ◌∷◌, ◌++◌,
  is_none, any, filter, Method, Result, ok, err, Error, ◌>>=◌, ◌>>◌, pure, raise, gets, modify,
  ensure, or_raise, not_found, active_operation, integrity_error, ◌==◌, if◌then◌else◌,
}
use exam_sage.Common.Table.{lookup, update}
use exam_sage.Workspace.Models.{
  SourceMode, WorkspaceState, SourceState, JobStatus, ManifestEntry, ApprovalRecord,
  WorkspaceRecord, WorkspaceJob, WorkspaceEvent, CleanupRecord,
}

-- A row of workspaces: the record, and the identity of a root that the program owns.
pub record WorkspaceRow : Type 0 where
  pub workspace : WorkspaceRecord
  pub owned_root_device : Option String
  pub owned_root_file_id : Option String

-- A row of manifest_revisions
pub record RevisionRow : Type 0 where
  pub revision_id : String
  pub workspace_id : String
  pub parent_revision_id : Option String
  pub scan_job_id : Option String
  pub policy_version : String
  pub created_at : ℕ

-- A row of manifest_entries
pub record EntryRow : Type 0 where
  pub revision_id : String
  pub entry : ManifestEntry

-- The states of a row of workspace_creation_requests
pub data RequestState : Type 0 where
  claimed completed cancelled failed interrupted : RequestState

-- A row of workspace_creation_requests
pub record RequestRow : Type 0 where
  pub idempotency_key : String
  pub operation_kind : SourceMode
  pub state : RequestState
  pub workspace_id : String
  pub job_id : Option String
  pub safe_error_code : Option String
  pub created_at : ℕ
  pub updated_at : ℕ

-- The database: rows in the order of their rowids.
pub record Db : Type 0 where
  pub workspaces : List WorkspaceRow
  pub revisions : List RevisionRow
  pub entries : List EntryRow
  pub approvals : List ApprovalRecord
  pub jobs : List WorkspaceJob
  pub events : List WorkspaceEvent
  pub last_sequence : ℕ
  pub cleanup : List CleanupRecord
  pub requests : List RequestRow

abbrev pub workspace_key : WorkspaceRow → String
workspace_key r = r.workspace.workspace_id

abbrev pub revision_key : RevisionRow → String
revision_key r = r.revision_id

abbrev pub job_key : WorkspaceJob → String
job_key j = j.job_id

abbrev pub cleanup_key : CleanupRecord → String
cleanup_key c = c.cleanup_id

abbrev pub request_key : RequestRow → String
request_key r = r.idempotency_key

abbrev pub find_workspace : String → Db → Option WorkspaceRow
find_workspace id db = lookup workspace_key id db.workspaces

abbrev pub find_job : String → Db → Option WorkspaceJob
find_job id db = lookup job_key id db.jobs

-- _workspace_row
abbrev pub workspace_row : String → Method Db WorkspaceRow
workspace_row id db = or_raise not_found (find_workspace id db) db

-- _job_row
abbrev pub job_row : String → Method Db WorkspaceJob
job_row id db = or_raise not_found (find_job id db) db

-- UPDATE workspaces SET ... WHERE workspace_id = ?
abbrev pub update_workspace : String → (WorkspaceRecord → WorkspaceRecord) → Db → Db
update_workspace id f db = record db {
  workspaces = update workspace_key id (λ r. record r { workspace = f r.workspace }) db.workspaces;
}

-- UPDATE workspace_jobs SET ... WHERE job_id = ?
abbrev pub update_job_row : String → (WorkspaceJob → WorkspaceJob) → Db → Db
update_job_row id f db = record db { jobs = update job_key id f db.jobs }

abbrev pub is_optional : Option String → String → Bool
is_optional none id = false
is_optional (some s) id = s == id

-- _BLOCKED_JOB_WORKSPACE_STATES
abbrev pub is_blocked : WorkspaceState → Bool
is_blocked WorkspaceState.deleting = true
is_blocked WorkspaceState.cleanup_pending = true
is_blocked _ = false

-- _guard_workspace_accepts_jobs
abbrev pub guard_accepts_jobs : WorkspaceRow → Method Db Unit
guard_accepts_jobs r = ensure (not (is_blocked r.workspace.state)) active_operation

-- _TERMINAL_JOB_STATUSES
abbrev pub is_terminal : JobStatus → Bool
is_terminal JobStatus.queued = false
is_terminal JobStatus.running = false
is_terminal _ = true

-- status = 'running'
abbrev pub is_running : JobStatus → Bool
is_running JobStatus.running = true
is_running _ = false

-- status = 'queued'
abbrev pub is_queued : JobStatus → Bool
is_queued JobStatus.queued = true
is_queued _ = false

-- status IN ('queued', 'running')
abbrev pub is_active : JobStatus → Bool
is_active s = not (is_terminal s)

-- _ALLOWED_JOB_TRANSITIONS
abbrev pub is_allowed : JobStatus → JobStatus → Bool
is_allowed JobStatus.queued JobStatus.running = true
is_allowed JobStatus.queued JobStatus.failed = true
is_allowed JobStatus.queued JobStatus.cancelled = true
is_allowed JobStatus.running JobStatus.succeeded = true
is_allowed JobStatus.running JobStatus.failed = true
is_allowed JobStatus.running JobStatus.cancelled = true
is_allowed _ _ = false

-- _guard_job_transition
abbrev pub guard_transition : JobStatus → JobStatus → Method Db Unit
guard_transition current requested = ensure (is_allowed current requested) active_operation

-- The workspace has a queued or a running job.
abbrev pub is_active_in : String → WorkspaceJob → Bool
is_active_in workspace_id j = j.workspace_id == workspace_id && is_active j.status

unfoldable pub has_active_job : String → Db → Bool
has_active_job workspace_id db = any (is_active_in workspace_id) db.jobs

-- Unique indices: (workspace_id, job_kind, idempotency_key), and one active job to a workspace.
abbrev pub same_request : WorkspaceJob → WorkspaceJob → Bool
same_request j k =
    j.workspace_id == k.workspace_id
    && (j.job_kind == k.job_kind && j.idempotency_key == k.idempotency_key)

-- INSERT INTO workspace_jobs, with its primary key and its unique indices
unfoldable pub insert_job : WorkspaceJob → Method Db Unit
unfolding has_active_job
insert_job job = do
  clash ← gets (λ db. any (λ j. j.job_id == job.job_id || same_request j job) db.jobs)
  ensure (not clash) integrity_error
  busy ← gets (has_active_job job.workspace_id)
  ensure (not (is_active job.status && busy)) integrity_error
  modify (λ db. record db { jobs = db.jobs ++ job ∷ [] })

-- INSERT INTO workspaces, with its primary key
unfoldable pub insert_workspace : WorkspaceRow → Method Db Unit
insert_workspace row = do
  free ← gets (λ db. is_none (find_workspace (workspace_key row) db))
  ensure free integrity_error
  modify (λ db. record db { workspaces = db.workspaces ++ row ∷ [] })

-- DELETE FROM workspaces, with ON DELETE CASCADE on revisions, entries, approvals, jobs and events
unfoldable pub delete_workspace : String → Db → Db
delete_workspace id db =
    let own_revision = λ (revision_id : String).
      any (λ r. r.revision_id == revision_id && r.workspace_id == id) db.revisions in
    let own_job =
      λ (job_id : String). any (λ j. j.job_id == job_id && j.workspace_id == id) db.jobs in
    record db {
      workspaces = filter (λ r. not (workspace_key r == id)) db.workspaces;
      revisions = filter (λ r. not (r.workspace_id == id)) db.revisions;
      entries = filter (λ e. not (own_revision e.revision_id)) db.entries;
      approvals =
          filter (λ a. not (a.workspace_id == id || own_revision a.revision_id)) db.approvals;
      jobs = filter (λ j. not (j.workspace_id == id)) db.jobs;
      events = filter (λ e. not (own_job e.job_id)) db.events;
    }
