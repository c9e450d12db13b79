-- ===== src/Workspace/Scenarios.antt =====
-- Concrete databases at which the theorems about workspaces apply.
use exam_sage.Common.{
  ◌≤◌, String, true, false, none, some, List, [], ◌∷◌, any, take, count, is_ok, ◌≡◌, refl, ok, err,
  active_operation, ◌==◌, All, order_by, place,
}
use exam_sage.Common.Table.{lookup, update}
use exam_sage.Workspace.Models.{
  SourceMode, WorkspaceState, SourceState, JobStatus, ManifestEntry, ScanProgress, WorkspaceJob,
}
use exam_sage.Workspace.Paths.{
  has_code, split, parts, as_posix, is_absolute, checked, normalize_relative_path, slashed,
}
use exam_sage.Workspace.Paths.Normal.{normalize_relative_path_idem, normalize_relative_path-IsSafe}
use exam_sage.Workspace.Store.{
  Db, WorkspaceRow, find_job, find_workspace, is_active_in, is_running, has_active_job,
  delete_workspace,
}
use exam_sage.Workspace.Store.Manifests.{
  revision, entries_of, insert_revision, insert_entry, insert_entries,
}
use exam_sage.Workspace.Store.Manifests.Changes.{
  clone_revision, change_draft, change_current, change_latest, finish_change, set_inclusion,
  mark_entries_changed_latest, approve, approve_body, approval_of, approve_row, insert_approval,
  is_eligible_state,
}
use exam_sage.Workspace.Store.Jobs.{
  create_job, start_job, recover_running_jobs, append_progress, is_progress,
}
use exam_sage.Workspace.Store.Jobs.Reach.{Write, Reach, Reach-IsSingle, Write-keeps_terminal}
use exam_sage.Workspace.Store.Jobs.Recovery.{recover_running_jobs-settles}
use exam_sage.Workspace.Store.Jobs.Capped.{Log, Logged, Logged-IsCapped}
use exam_sage.Workspace.Store.Authority.{hold_transmission_authority}
use exam_sage.Workspace.Store.Authority.Revoked.{
  set_inclusion-IsRevoked, mark_entries_changed_latest-IsRevoked,
}
use exam_sage.Workspace.Store.Authority.Granted.{approve-IsHeld}
use exam_sage.Workspace.Store.Authority.Complete.{approve-covers_selection, names}
use exam_sage.Workspace.Store.Removal.{mark_deleting, mark_body, delete_workspace_rows, delete_body}
use exam_sage.Workspace.Store.Removal.Settled.{
  mark_deleting-blocks_jobs, delete_workspace_rows-clears,
}

abbrev course : WorkspaceState → WorkspaceRow
course state = record {
  workspace = record {
    workspace_id = "w1";
    display_name = "Algebra";
    source_mode = SourceMode.native_folder;
    canonical_root = "/courses/algebra";
    root_device = some "d";
    root_file_id = some "f";
    state = state;
    current_draft_revision_id = some "r1";
    current_approved_revision_id = none;
    created_at = 1;
    updated_at = 1;
    last_scanned_at = some 1;
    last_access_verified_at = none;
  };
  owned_root_device = none;
  owned_root_file_id = none;
}

abbrev notes : ManifestEntry
notes = record {
  entry_id = "e1";
  workspace_id = "w1";
  relative_path = "week1/notes.pdf";
  item_kind = "file";
  format_category = some "pdf";
  size_bytes = 10;
  modified_ns = some 7;
  device_id = some "d";
  file_id = some "f";
  sha256 = some "aa";
  state = SourceState.pending_approval;
  included = true;
  inclusion_reason = none;
  proposed_course_group = "week1";
  failure_code = none;
  safe_message = none;
  archive_parent_entry_id = none;
  archive_member_path = none;
  archive_member_index = none;
  archive_member_crc32 = none;
  archive_member_compressed_bytes = none;
}

-- One workspace with a draft of one entry
abbrev library : WorkspaceState → List WorkspaceJob → Db
library state jobs = record {
  workspaces = course state ∷ [];
  revisions =
      (record {
        revision_id = "r1";
        workspace_id = "w1";
        parent_revision_id = none;
        scan_job_id = none;
        policy_version = "workspace-v1";
        created_at = 1;
      })
      ∷ [];
  entries = (record { revision_id = "r1"; entry = notes }) ∷ [];
  approvals = [];
  jobs = jobs;
  events = [];
  last_sequence = 0;
  cleanup = [];
  requests = [];
}

abbrev scan : JobStatus → WorkspaceJob
scan status = record {
  job_id = "j1";
  workspace_id = "w1";
  job_kind = "rescan";
  status = status;
  idempotency_key = "k1";
  safe_error_code = none;
  created_at = 2;
  started_at = none;
  finished_at = none;
}

abbrev empty : Db
empty = library WorkspaceState.ready []

abbrev created : Db
created = (create_job (scan JobStatus.queued) "k1" empty).1

abbrev started : Db
started = (start_job 5 "j1" created).1

started-Reach : Reach started
started-Reach =
    Reach.written (Reach.written (Reach.fresh refl) (Write.creates (scan JobStatus.queued) "k1"))
      (Write.starts 5 "j1")

Reach-IsSingle_example : count (is_active_in "w1") started.jobs ≤ 1
Reach-IsSingle_example = Reach-IsSingle started-Reach "w1"

abbrev finished : Db
finished = library WorkspaceState.needs_attention (scan JobStatus.failed ∷ [])

Write-keeps_terminal_example :
    find_job "j1" (start_job 9 "j1" finished).1 ≡ some (scan JobStatus.failed)
unfolding lookup
Write-keeps_terminal_example = Write-keeps_terminal (Write.starts 9 "j1") "j1" refl refl

recover_running_jobs-settles_example :
    (is_ok (recover_running_jobs 7 started).0 ≡ true)
    × ((id : String) (j : WorkspaceJob)
        → find_job id (recover_running_jobs 7 started).1 ≡ some j
        → is_running j.status ≡ false)
recover_running_jobs-settles_example = recover_running_jobs-settles 7 started started-Reach

abbrev progress : ScanProgress
progress = record {
  discovered_count = 1;
  bytes_hashed = 10;
  failure_count = 0;
  current_relative_path = some "week1/notes.pdf";
}

reported-Logged :
    Logged
      (append_progress 6 "j1" progress
        (library WorkspaceState.scanning (scan JobStatus.running ∷ []))).1
reported-Logged = Logged.goes_on (Logged.fresh refl) (Log.appends 6 "j1" progress)

Logged-IsCapped_example :
    count
      (is_progress "j1")
      (append_progress 6 "j1" progress
        (library WorkspaceState.scanning (scan JobStatus.running ∷ []))).1.events
    ≤ 256
Logged-IsCapped_example = Logged-IsCapped reported-Logged "j1"

abbrev review : Db
review = library WorkspaceState.approval_required []

-- The review is over: its approval "a1" can be held.
abbrev pub held : Db
held = (approve "a1" "w1" "r1" "workspace-v1" none 4 review).1

set_inclusion-IsRevoked_example :
    is_ok
      (hold_transmission_authority "w1" "a1" "r1" none
        (set_inclusion "r2" "w1" "r1" ("e1" ∷ []) false 5 held).1).0
    ≡ false
unfolding approve approve_body approval_of approve_row insert_approval set_inclusion change_current
    change_draft finish_change clone_revision revision entries_of insert_revision insert_entry
    insert_entries lookup update order_by place
set_inclusion-IsRevoked_example =
    set_inclusion-IsRevoked "r2" "w1" "r1" ("e1" ∷ []) false 5 held refl "a1" "r1" none

mark_entries_changed_latest-IsRevoked_example :
    is_ok
      (hold_transmission_authority "w1" "a1" "r1" none
        (mark_entries_changed_latest "r2" "w1" ("e1" ∷ []) "source_changed" 5 held).1).0
    ≡ false
unfolding approve approve_body approval_of approve_row insert_approval mark_entries_changed_latest
    change_latest change_draft finish_change clone_revision revision entries_of insert_revision
    insert_entry insert_entries lookup update order_by place
mark_entries_changed_latest-IsRevoked_example =
    mark_entries_changed_latest-IsRevoked "r2" "w1" ("e1" ∷ []) "source_changed" 5 held refl "a1"
      "r1" none

approve-IsHeld_example :
    is_ok
      (hold_transmission_authority "w1" "a1" "r1" none
        (approve "a1" "w1" "r1" "workspace-v1" none 4 review).1).0
    ≡ true
unfolding approve approve_body approval_of approve_row insert_approval revision entries_of lookup
    update order_by place
approve-IsHeld_example = approve-IsHeld "a1" "w1" "r1" "workspace-v1" none 4 review refl tt none

approve-covers_selection_example :
    All
      (λ e.
        e.included ≡ true
        → (is_eligible_state e.state ≡ true)
          × (any (names e) ((record { entry_id = "e1"; sha256 = "aa" }) ∷ []) ≡ true))
      (entries_of "w1" "r1" review)
unfolding approve approve_body approval_of approve_row insert_approval revision entries_of lookup
    update order_by place
approve-covers_selection_example =
    approve-covers_selection "a1" "w1" "r1" "workspace-v1" none 4 review refl

mark_deleting-blocks_jobs_example :
    (has_active_job "w1" (mark_deleting 8 "w1" empty).1 ≡ false)
    × ((job : WorkspaceJob) (key : String)
        → job.workspace_id ≡ "w1"
        → (create_job job key (mark_deleting 8 "w1" empty).1).0 ≡ err active_operation)
unfolding mark_deleting mark_body has_active_job lookup update
mark_deleting-blocks_jobs_example = mark_deleting-blocks_jobs 8 "w1" empty refl

abbrev doomed : Db
doomed = library WorkspaceState.deleting (scan JobStatus.failed ∷ [])

delete_workspace_rows-clears_example :
    (has_active_job "w1" doomed ≡ false)
    × (find_workspace "w1" (delete_workspace_rows "w1" doomed).1 ≡ none)
    × (any (λ j. j.workspace_id == "w1") (delete_workspace_rows "w1" doomed).1.jobs ≡ false)
    × ((v : String)
        → "w1" == v ≡ false
        → find_workspace v (delete_workspace_rows "w1" doomed).1 ≡ find_workspace v doomed)
unfolding delete_workspace_rows delete_body has_active_job delete_workspace lookup update
delete_workspace_rows-clears_example = delete_workspace_rows-clears "w1" doomed refl

normalize_relative_path_idem_example : normalize_relative_path "a/b" ≡ ok "a/b"
unfolding normalize_relative_path checked parts split has_code as_posix slashed is_absolute
normalize_relative_path_idem_example = normalize_relative_path_idem "./a//b" {path = "a/b"} refl

normalize_relative_path-IsSafe_example :
    (is_absolute "a/b" ≡ false)
    × (has_code 0 "a/b" ≡ false)
    × (has_code 92 "a/b" ≡ false)
    × (any (λ p. p == "..") (parts "a/b") ≡ false)
    × (any (has_code b':') (take 1 (parts "a/b")) ≡ false)
unfolding normalize_relative_path checked parts split has_code as_posix slashed is_absolute
normalize_relative_path-IsSafe_example = normalize_relative_path-IsSafe "./a//b" {path = "a/b"} refl
