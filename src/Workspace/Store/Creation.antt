-- ===== src/Workspace/Store/Creation.antt =====
-- Workspaces and the requests that create them.
use exam_sage.Common.{
  ℕ, String, Bool, true, false, ◌&&◌, Option, none, some, List, [], ◌∷◌, ◌++◌, map, count, filter,
  order_by, leb, ltb, if◌then◌else◌, Method, ok, ◌>>=◌, ◌>>◌, pure, raise, gets, modify, ensure,
  or_raise, transaction, value_error, runtime_error, active_operation, ◌==◌, is_error_code,
}
use Prim.Native.Nat.{Ordering}
use Prim.Native.String.{compare}
use exam_sage.Common.Table.{lookup, update}
use exam_sage.Workspace.Models.{
  SourceMode, SourceState, WorkspaceRecord, WorkspaceSummary, WorkspaceJob,
}
use exam_sage.Workspace.Store.{
  Db, WorkspaceRow, RequestRow, RequestState, request_key, workspace_key, find_workspace,
  workspace_row, job_row, insert_workspace, insert_job, is_queued, is_optional,
}

-- create_workspace
unfoldable pub create_workspace : WorkspaceRecord → Method Db WorkspaceRecord
unfolding insert_workspace
create_workspace workspace = transaction (do
  insert_workspace
      (record { workspace = workspace; owned_root_device = none; owned_root_file_id = none })
  row ← workspace_row workspace.workspace_id
  pure row.workspace)

abbrev pub same_mode : SourceMode → SourceMode → Bool
same_mode SourceMode.native_folder SourceMode.native_folder = true
same_mode SourceMode.browser_snapshot SourceMode.browser_snapshot = true
same_mode _ _ = false

abbrev pub is_claimed : RequestState → Bool
is_claimed RequestState.claimed = true
is_claimed _ = false

abbrev pub is_completed : RequestState → Bool
is_completed RequestState.completed = true
is_completed _ = false

abbrev pub find_request : String → Db → Option RequestRow
find_request key db = lookup request_key key db.requests

-- A claim that finds a request, or none.
unfoldable pub claim_existing :
    (now : ℕ)
    → (idempotency_key : String) → SourceMode
    → (workspace_id : String) → Option RequestRow
    → Method Db (RequestRow × Bool)
claim_existing now key kind workspace_id (some request) =
    if same_mode request.operation_kind kind then pure (request, false) else raise active_operation
claim_existing now key kind workspace_id none =
    let row : RequestRow = record {
      idempotency_key = key;
      operation_kind = kind;
      state = RequestState.claimed;
      workspace_id = workspace_id;
      job_id = none;
      safe_error_code = none;
      created_at = now;
      updated_at = now;
    } in
    λ db. (ok (row, true), record db { requests = db.requests ++ row ∷ [] })

-- claim_creation
unfoldable pub claim_creation :
    (now : ℕ)
    → (idempotency_key : String) → SourceMode
    → (workspace_id : String) → Method Db (RequestRow × Bool)
unfolding claim_existing
claim_creation now key kind workspace_id =
    transaction
      (do existing ← gets (find_request key); claim_existing now key kind workspace_id existing)

-- UPDATE workspace_creation_requests SET ... WHERE idempotency_key = ? AND state = 'claimed'
abbrev pub update_claimed : String → (RequestRow → RequestRow) → Db → Db
update_claimed key f db = record db {
  requests = update request_key key (λ r. if is_claimed r.state then f r else r) db.requests;
}

-- A completed creation is returned again.
unfoldable pub repeat_creation : RequestRow → Method Db (WorkspaceRecord × WorkspaceJob × Bool)
repeat_creation request = do
  existing ← workspace_row request.workspace_id
  job_id ← or_raise runtime_error request.job_id
  done ← job_row job_id
  pure (existing.workspace, done, false)

-- The creation for a claimed request
unfoldable pub create_new :
    (now : ℕ)
    → WorkspaceRow
    → WorkspaceJob
    → (idempotency_key : String) → RequestRow
    → Method Db (WorkspaceRecord × WorkspaceJob × Bool)
unfolding insert_workspace insert_job
create_new now row job key request = do
  ensure (is_claimed request.state && request.workspace_id == workspace_key row) active_operation
  insert_workspace row
  insert_job (record job { idempotency_key = key })
  modify (
      update_claimed key (λ r. record r {
        state = RequestState.completed;
        job_id = some job.job_id;
        updated_at = now;
      }))
  created ← workspace_row (workspace_key row)
  queued ← job_row job.job_id
  pure (created.workspace, queued, true)

unfoldable pub create_for :
    (now : ℕ)
    → WorkspaceRow
    → WorkspaceJob
    → (idempotency_key : String) → RequestRow
    → Method Db (WorkspaceRecord × WorkspaceJob × Bool)
unfolding repeat_creation create_new
create_for now row job key request =
    if is_completed request.state
    then repeat_creation request
    else create_new now row job key request

-- The transaction of create_workspace_with_initial_job
unfoldable pub create_body :
    (now : ℕ)
    → WorkspaceRow
    → WorkspaceJob
    → (idempotency_key : String) → Method Db (WorkspaceRecord × WorkspaceJob × Bool)
unfolding create_for
create_body now row job key = do
  found ← gets (find_request key)
  request ← or_raise active_operation found
  create_for now row job key request

-- create_workspace_with_initial_job
unfoldable pub create_workspace_with_initial_job :
    (now : ℕ)
    → WorkspaceRow
    → WorkspaceJob
    → (idempotency_key : String) → Method Db (WorkspaceRecord × WorkspaceJob × Bool)
unfolding create_body
create_workspace_with_initial_job now row job key = do
  ensure
      (job.workspace_id == workspace_key row
        && (job.job_kind == "initial_scan" && is_queued job.status))
      value_error
  transaction (create_body now row job key)

-- list_recoverable_browser_creations
unfoldable pub list_recoverable_browser_creations : Db → List RequestRow
list_recoverable_browser_creations db =
    order_by (λ a b. leb a.created_at b.created_at)
      (filter
        (λ r. same_mode r.operation_kind SourceMode.browser_snapshot && elim r.state [
          | RequestState.claimed ↦ true
          | RequestState.interrupted ↦ true
          | RequestState.failed ↦ true
          | _ ↦ false
        ])
        db.requests)

-- get_creation_job
unfoldable pub get_creation_job : (idempotency_key : String) → Method Db (Option WorkspaceJob)
get_creation_job key db = elim (find_request key db) [
  | none ↦ (ok none, db)
  | some request ↦ elim request.job_id [
    | none ↦ (ok none, db)
    | some job_id ↦
        if is_completed request.state
        then (do job ← job_row job_id; pure (some job)) db
        else (ok none, db)
  ]
]

-- finish_cancelled_creation
unfoldable pub finish_cancelled_creation : (now : ℕ) → (idempotency_key : String) → Db → Db
finish_cancelled_creation now key =
    update_claimed key (λ r. record r { state = RequestState.cancelled; updated_at = now })

-- fail_creation
unfoldable pub fail_creation : (now : ℕ) → (idempotency_key code : String) → Method Db Unit
fail_creation now key code = do
  ensure (is_error_code code) value_error
  modify (
      update_claimed key (λ r. record r {
        state = RequestState.failed;
        safe_error_code = some code;
        updated_at = now;
      }))

abbrev pub interrupted_row : ℕ → RequestRow → RequestRow
interrupted_row now r =
    if is_claimed r.state
    then record r {
      state = RequestState.interrupted;
      safe_error_code = some "creation_interrupted";
      updated_at = now;
    }
    else r

-- interrupt_claimed_creations
unfoldable pub interrupt_claimed_creations : (now : ℕ) → Db → Db
interrupt_claimed_creations now db = record db { requests = map (interrupted_row now) db.requests }

abbrev both_set : Option String → Option String → Option (String × String)
both_set (some a) (some b) = some (a, b)
both_set _ _ = none

-- get_owned_root_identity
unfoldable pub get_owned_root_identity : String → Method Db (Option (String × String))
get_owned_root_identity workspace_id = do
  row ← workspace_row workspace_id
  pure (both_set row.owned_root_device row.owned_root_file_id)

abbrev pub source_state_eq : SourceState → SourceState → Bool
source_state_eq SourceState.pending_approval SourceState.pending_approval = true
source_state_eq SourceState.approved SourceState.approved = true
source_state_eq SourceState.excluded SourceState.excluded = true
source_state_eq SourceState.failed SourceState.failed = true
source_state_eq SourceState.changed SourceState.changed = true
source_state_eq SourceState.removed SourceState.removed = true
source_state_eq _ _ = false

abbrev summary_of : Db → WorkspaceRow → WorkspaceSummary
summary_of db row = record {
  workspace_id = row.workspace.workspace_id;
  display_name = row.workspace.display_name;
  source_mode = row.workspace.source_mode;
  state = row.workspace.state;
  counts = λ state.
      count
        (λ e.
          is_optional row.workspace.current_draft_revision_id e.revision_id
          && source_state_eq e.entry.state state)
        db.entries;
  updated_at = row.workspace.updated_at;
}

-- ORDER BY updated_at DESC, workspace_id ASC
abbrev newest_first : WorkspaceRow → WorkspaceRow → Bool
newest_first a b =
    if ltb b.workspace.updated_at a.workspace.updated_at
    then true
    else if ltb a.workspace.updated_at b.workspace.updated_at
    then false
    else elim (compare (workspace_key a) (workspace_key b)) [ Ordering.gt ↦ false | _ ↦ true ]

-- list_workspaces
unfoldable pub list_workspaces : Db → List WorkspaceSummary
list_workspaces db = map (summary_of db) (order_by newest_first db.workspaces)

-- get_workspace
unfoldable pub get_workspace : String → Db → Option WorkspaceRecord
get_workspace workspace_id db = elim (find_workspace workspace_id db) [
  | none ↦ none
  | some row ↦ some row.workspace
]

-- source_root
unfoldable pub source_root : String → Method Db String
source_root workspace_id = do row ← workspace_row workspace_id; pure row.workspace.canonical_root
