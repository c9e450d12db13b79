-- ===== src/Workspace/Store/Removal.antt =====
-- The removal of a workspace and the queue of paths that are still to be deleted.
pub mod Settled
use exam_sage.Common.{
  ℕ, suc, String, Bool, true, false, ◌&&◌, ◌||◌, not, Option, none, some, List, [], ◌∷◌, ◌++◌, any,
  filter, find, order_by, leb, if◌then◌else◌, Method, Result, ok, err, Error, ◌>>=◌, ◌>>◌, pure,
  raise, gets, modify, ensure, or_raise, transaction, value_error, index_error, runtime_error,
  active_operation, integrity_error, ◌==◌, is_error_code,
}
use exam_sage.Common.Table.{lookup, update}
use exam_sage.Workspace.Models.{SourceMode, WorkspaceState, WorkspaceRecord, CleanupRecord}
use exam_sage.Workspace.Paths.{has_code, is_absolute, parts, as_posix}
use exam_sage.Workspace.Store.{
  Db, WorkspaceRow, cleanup_key, find_workspace, workspace_row, update_workspace, has_active_job,
  delete_workspace,
}
use exam_sage.Workspace.Store.Events.{text_length}

abbrev pub is_scanning : WorkspaceState → Bool
is_scanning WorkspaceState.scanning = true
is_scanning _ = false

abbrev pub is_deleting : WorkspaceState → Bool
is_deleting WorkspaceState.deleting = true
is_deleting _ = false

abbrev pub to_deleting : ℕ → WorkspaceRecord → WorkspaceRecord
to_deleting now w = record w { state = WorkspaceState.deleting; updated_at = now }

-- The transaction of _mark_deleting
unfoldable pub mark_body : (now : ℕ) → (workspace_id : String) → Method Db WorkspaceRecord
unfolding has_active_job
mark_body now workspace_id = do
  workspace ← workspace_row workspace_id
  ensure (not (is_scanning workspace.workspace.state)) active_operation
  busy ← gets (has_active_job workspace_id)
  ensure (not busy) active_operation
  modify (update_workspace workspace_id (to_deleting now))
  row ← workspace_row workspace_id
  pure row.workspace

-- _mark_deleting, mark_deleting
unfoldable pub mark_deleting : (now : ℕ) → (workspace_id : String) → Method Db WorkspaceRecord
unfolding mark_body
mark_deleting now workspace_id = transaction (mark_body now workspace_id)

-- mark_deleting_if_settled; `unsettled` is what has_unsettled_runs returns.
unfoldable pub mark_deleting_if_settled :
    (unsettled : Bool) → (now : ℕ) → (workspace_id : String) → Method Db WorkspaceRecord
unfolding mark_deleting
mark_deleting_if_settled unsettled now workspace_id = do
  ensure (not unsettled) active_operation
  mark_deleting now workspace_id

-- The transaction of delete_workspace_rows
unfoldable pub delete_body : (workspace_id : String) → Method Db Unit
unfolding has_active_job delete_workspace
delete_body workspace_id = do
  workspace ← workspace_row workspace_id
  ensure (is_deleting workspace.workspace.state) active_operation
  busy ← gets (has_active_job workspace_id)
  ensure (not busy) active_operation
  modify (delete_workspace workspace_id)

-- delete_workspace_rows
unfoldable pub delete_workspace_rows : (workspace_id : String) → Method Db Unit
unfolding delete_body
delete_workspace_rows workspace_id = transaction (delete_body workspace_id)

abbrev owned_parts : List String → Result String
owned_parts [] = err index_error
owned_parts (w ∷ ws) =
    if any (λ p. p == "..") (w ∷ ws) || has_code b':' w
    then err value_error
    else ok (as_posix (w ∷ ws))

-- _owned_relative_path: `relative` is the path below the data directory, if it lies there.
unfoldable pub owned_relative_path : (relative : Option String) → Result String
unfolding has_code is_absolute parts as_posix
owned_relative_path none = err value_error
owned_relative_path (some raw) =
    if raw == "" || (has_code 0 raw || has_code 92 raw)
    then err value_error
    else if is_absolute raw
    then err value_error
    else owned_parts (parts raw)

abbrev is_native : SourceMode → Bool
is_native SourceMode.native_folder = true
is_native SourceMode.browser_snapshot = false

-- A native workspace whose root is the path or one of its parents.
abbrev is_native_source : (is_below : String → Bool) → Option WorkspaceRow → Bool
is_native_source is_below none = false
is_native_source is_below (some row) =
    is_native row.workspace.source_mode && is_below row.workspace.canonical_root

abbrev same_text : Option String → Option String → Bool
same_text none none = true
same_text (some a) (some b) = a == b
same_text _ _ = false

abbrev is_short : Option String → Bool
is_short none = true
is_short (some s) = leb (text_length s) 128

-- INSERT INTO cleanup_queue, with its primary key
abbrev insert_cleanup : CleanupRecord → Method Db Unit
insert_cleanup c = do
  clash ← gets (λ db. any (λ d. d.cleanup_id == c.cleanup_id) db.cleanup)
  ensure (not clash) integrity_error
  modify (λ db. record db { cleanup = db.cleanup ++ c ∷ [] })

-- The transaction of queue_cleanup, for a path that is not queued or is queued already
unfoldable pub queue_path :
    (cleanup_id : String)
    → (now : ℕ) → (workspace_id path code : String) → (device file_id : Option String)
    → Option CleanupRecord
    → Method Db CleanupRecord
queue_path cleanup_id now workspace_id path code device file_id (some existing) = do
  ensure
      (same_text existing.deletion_root_device device
        && same_text existing.deletion_root_file_id file_id)
      value_error
  pure existing
queue_path cleanup_id now workspace_id path code device file_id none = do
  insert_cleanup (record {
    cleanup_id = cleanup_id;
    workspace_id = workspace_id;
    owned_relative_path = path;
    safe_error_code = code;
    attempt_count = 0;
    deletion_root_device = device;
    deletion_root_file_id = file_id;
    created_at = now;
    updated_at = now;
  })
  row ← gets (λ db. lookup cleanup_key cleanup_id db.cleanup)
  or_raise runtime_error row

abbrev lift : Result String → Method Db String
lift r db = (r, db)

-- queue_cleanup: `relative` and `is_below` are what pathlib says of the path, against the data
-- directory and against a root; `cleanup_id` is the drawn uuid.
unfoldable pub queue_cleanup :
    (relative : Option String)
    → (is_below : String → Bool) → (cleanup_id : String) → (now : ℕ) → (workspace_id code : String)
    → (device file_id : Option String) → Method Db CleanupRecord
unfolding owned_relative_path queue_path text_length
queue_cleanup relative is_below cleanup_id now workspace_id code device file_id = do
  path ← lift (owned_relative_path relative)
  ensure (is_short device && is_short file_id) value_error
  transaction (do
    workspace ← gets (find_workspace workspace_id)
    ensure (not (is_native_source is_below workspace)) value_error
    existing ← gets (λ db. find (λ c. c.owned_relative_path == path) db.cleanup)
    queue_path cleanup_id now workspace_id path code device file_id existing)

-- list_cleanup
unfoldable pub list_cleanup : Db → List CleanupRecord
list_cleanup db = order_by (λ a b. leb a.created_at b.created_at) db.cleanup

abbrev pub find_cleanup : String → Db → Option CleanupRecord
find_cleanup id db = lookup cleanup_key id db.cleanup

-- The branches of fail_cleanup
unfoldable pub fail_found :
    (now : ℕ) → (cleanup_id code : String) → Option CleanupRecord → Method Db (Option CleanupRecord)
fail_found now cleanup_id code none = pure none
fail_found now cleanup_id code (some row) = do
  modify (λ db. record db {
    cleanup =
        update cleanup_key cleanup_id
          (λ c. record c {
            safe_error_code = code;
            attempt_count = suc c.attempt_count;
            updated_at = now;
          })
          db.cleanup;
  })
  modify (
      update_workspace row.workspace_id
        (λ w. record w { state = WorkspaceState.cleanup_pending; updated_at = now }))
  updated ← gets (find_cleanup cleanup_id)
  found ← or_raise runtime_error updated
  pure (some found)

-- fail_cleanup
unfoldable pub fail_cleanup :
    (now : ℕ) → (cleanup_id code : String) → Method Db (Option CleanupRecord)
unfolding fail_found
fail_cleanup now cleanup_id code = do
  ensure (is_error_code code) value_error
  transaction (do found ← gets (find_cleanup cleanup_id); fail_found now cleanup_id code found)

abbrev pub is_pending_cleanup : WorkspaceState → Bool
is_pending_cleanup WorkspaceState.deleting = true
is_pending_cleanup WorkspaceState.cleanup_pending = true
is_pending_cleanup _ = false

-- DELETE FROM cleanup_queue WHERE cleanup_id = ?
abbrev drop_cleanup : String → Db → Db
drop_cleanup cleanup_id db = record db {
  cleanup = filter (λ c. not (c.cleanup_id == cleanup_id)) db.cleanup;
}

-- complete_cleanup, once the workspace of the cleanup has been read
unfoldable pub complete_for :
    (cleanup_id workspace_id : String) → Option WorkspaceRow → Method Db (Option String)
unfolding has_active_job delete_workspace
complete_for cleanup_id workspace_id none = do
  modify (drop_cleanup cleanup_id)
  pure (some workspace_id)
complete_for cleanup_id workspace_id (some workspace) = do
  ensure (is_pending_cleanup workspace.workspace.state) active_operation
  busy ← gets (has_active_job workspace_id)
  ensure (not busy) active_operation
  modify (drop_cleanup cleanup_id)
  modify (delete_workspace workspace_id)
  pure (some workspace_id)

abbrev pub complete_found : (cleanup_id : String) → Option CleanupRecord → Method Db (Option String)
complete_found cleanup_id none = pure none
complete_found cleanup_id (some c) = do
  workspace ← gets (find_workspace c.workspace_id)
  complete_for cleanup_id c.workspace_id workspace

-- The transaction of complete_cleanup
unfoldable pub complete_body : (cleanup_id : String) → Method Db (Option String)
unfolding complete_for
complete_body cleanup_id = do
  found ← gets (find_cleanup cleanup_id)
  complete_found cleanup_id found

-- complete_cleanup
unfoldable pub complete_cleanup : (cleanup_id : String) → Method Db (Option String)
unfolding complete_body
complete_cleanup cleanup_id = transaction (complete_body cleanup_id)
