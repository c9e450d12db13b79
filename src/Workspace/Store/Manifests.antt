-- ===== src/Workspace/Store/Manifests.antt =====
-- Manifest revisions: a scan commits one, and every change of a manifest makes a copy of the draft.
pub mod Changes
pub mod Reads
use Prim.Native.Char.{code}
use Prim.Native.Nat.{Ordering, compare}
use Prim.Native.String.{compare as compare_texts}
use exam_sage.Common.{
  ℕ, ◌+◌, ◌-◌, String, Bool, true, false, ◌&&◌, ◌||◌, not, Option, none, some, List, [], ◌∷◌, ◌++◌,
  map, is_none, get_or, any, filter, find, order_by, leb, ltb, eqb, if◌then◌else◌, Method, Result,
  ok, err, Error, ◌>>=◌, ◌>>◌, pure, raise, gets, modify, ensure, or_raise, transaction,
  value_error, not_found, stale, active_operation, integrity_error, ◌==◌,
}
use exam_sage.Common.Table.{lookup, update}
use exam_sage.Workspace.Models.{
  WorkspaceState, JobStatus, ManifestEntry, ManifestRevision, ScanResult, WorkspaceJob,
  PayloadValue,
}
use exam_sage.Workspace.Store.{
  Db, WorkspaceRow, RevisionRow, EntryRow, revision_key, job_key, workspace_row, job_row,
  update_workspace, update_job_row, is_optional, guard_accepts_jobs, find_job, is_running,
}
use exam_sage.Workspace.Store.Events.{insert_event}

-- NOCASE: A-Z as a-z
folded : ℕ → ℕ
folded c = if leb 65 c && leb c 90 then c + 32 else c

-- The order of two texts under a folding of their characters; none if they are equal under it.
folded_order : String → String → Ordering
unfolding folded
folded_order String.[] String.[] = Ordering.eq
folded_order String.[] (String.◌∷◌ d t) = Ordering.lt
folded_order (String.◌∷◌ c s) String.[] = Ordering.gt
folded_order (String.◌∷◌ c s) (String.◌∷◌ d t) =
    let rest = folded_order s t in
    elim (compare (folded (code c)) (folded (code d))) [
      | Ordering.lt ↦ Ordering.lt
      | Ordering.gt ↦ Ordering.gt
      | Ordering.eq ↦ rest
    ]

-- A column of ORDER BY: the later columns count where it is equal.
abbrev then_by : Ordering → Bool → Bool
then_by Ordering.lt later = true
then_by Ordering.gt later = false
then_by Ordering.eq later = later

-- relative_path COLLATE NOCASE, relative_path, COALESCE(archive_member_path, ''), entry_id
entry_no_later : ManifestEntry → ManifestEntry → Bool
unfolding folded_order
entry_no_later a b = then_by (folded_order a.relative_path b.relative_path) (
    then_by (compare_texts a.relative_path b.relative_path) (
      then_by (compare_texts (get_or a.archive_member_path "") (get_or b.archive_member_path ""))
        (then_by (compare_texts a.entry_id b.entry_id) true)))

abbrev in_revision : String → EntryRow → Bool
in_revision revision_id e = e.revision_id == revision_id

-- The entries of a revision, as _entry reads them.
unfoldable pub entries_of : (workspace_id revision_id : String) → Db → List ManifestEntry
unfolding entry_no_later
entries_of workspace_id revision_id db = order_by entry_no_later (
    map (λ e. record e.entry { workspace_id = workspace_id })
      (filter (in_revision revision_id) db.entries))

abbrev pub find_revision : (workspace_id revision_id : String) → Db → Option RevisionRow
find_revision workspace_id revision_id db =
    find (λ r. r.workspace_id == workspace_id && r.revision_id == revision_id) db.revisions

-- _revision
unfoldable pub revision : (workspace_id revision_id : String) → Method Db ManifestRevision
unfolding entries_of
revision workspace_id revision_id = do
  found ← gets (find_revision workspace_id revision_id)
  row ← or_raise not_found found
  entries ← gets (entries_of workspace_id revision_id)
  pure (record {
    revision_id = row.revision_id;
    workspace_id = row.workspace_id;
    parent_revision_id = row.parent_revision_id;
    scan_job_id = row.scan_job_id;
    policy_version = row.policy_version;
    entries = entries;
    created_at = row.created_at;
  })

-- INSERT INTO manifest_revisions, with its primary key
unfoldable pub insert_revision : RevisionRow → Method Db Unit
insert_revision row = do
  free ← gets (λ db. is_none (lookup revision_key row.revision_id db.revisions))
  ensure free integrity_error
  modify (λ db. record db { revisions = db.revisions ++ row ∷ [] })

-- _insert_entry, with the primary key of manifest_entries
unfoldable pub insert_entry : (revision_id : String) → ManifestEntry → Method Db Unit
insert_entry revision_id entry = do
  clash ← gets (λ db.
      any (λ e. e.revision_id == revision_id && e.entry.entry_id == entry.entry_id) db.entries)
  ensure (not clash) integrity_error
  modify (λ db. record db {
    entries = db.entries ++ (record { revision_id = revision_id; entry = entry }) ∷ [];
  })

unfoldable pub insert_entries : (revision_id : String) → List ManifestEntry → Method Db Unit
unfolding insert_entry
insert_entries revision_id [] = pure tt
insert_entries revision_id (e ∷ es) = insert_entry revision_id e >> insert_entries revision_id es

-- The loop of commit_scan over the entries, with the ids that it has seen.
unfoldable pub insert_scanned :
    (workspace_id revision_id : String) → (seen : List String) → List ManifestEntry → Method Db Unit
unfolding insert_entry
insert_scanned workspace_id revision_id seen [] = pure tt
insert_scanned workspace_id revision_id seen (e ∷ es) = do
  ensure (e.workspace_id == workspace_id) value_error
  ensure (not (any (λ s. s == e.entry_id) seen)) value_error
  insert_entry revision_id e
  insert_scanned workspace_id revision_id (e.entry_id ∷ seen) es

-- The rows behind the first one with an id: those with a greater rowid.
unfoldable pub rows_behind : String → List WorkspaceJob → List WorkspaceJob
rows_behind id [] = []
rows_behind id (j ∷ js) = if j.job_id == id then js else rows_behind id js

-- A revision whose scan was ordered behind the given job.
unfoldable pub is_newer_commit : WorkspaceJob → Db → RevisionRow → Bool
unfolding rows_behind
is_newer_commit job db r =
    r.workspace_id == job.workspace_id
    && any
        (λ j.
          is_optional r.scan_job_id j.job_id
          && (ltb job.created_at j.created_at
              || (eqb j.created_at job.created_at
                  && any (λ b. b.job_id == j.job_id) (rows_behind job.job_id db.jobs))))
        db.jobs

-- ScanPolicy.policy_version of DEFAULT_SCAN_POLICY
abbrev pub default_policy_version : String
default_policy_version = "workspace-v1"

abbrev pub scan_payload : (revision_id : String) → ScanResult → List (String × PayloadValue)
scan_payload revision_id result =
    ("bytes_hashed", PayloadValue.count result.bytes_hashed)
    ∷ ("discovered_count", PayloadValue.count result.discovered_count)
    ∷ ("failure_count", PayloadValue.count result.failure_count)
    ∷ ("revision_id", PayloadValue.text revision_id)
    ∷ []

-- What commit_scan writes when the job has committed nothing before
unfoldable pub commit_new :
    (revision_id : String) → WorkspaceRow → WorkspaceJob → ScanResult → Method Db ManifestRevision
unfolding insert_revision insert_scanned insert_event revision is_newer_commit
commit_new revision_id row job result = do
  ensure (is_running job.status) active_operation
  guard_accepts_jobs row
  newer ← gets (λ db. any (is_newer_commit job db) db.revisions)
  ensure (not newer) stale
  insert_revision (record {
    revision_id = revision_id;
    workspace_id = result.workspace_id;
    parent_revision_id = row.workspace.current_draft_revision_id;
    scan_job_id = some job.job_id;
    policy_version = default_policy_version;
    created_at = result.completed_at;
  })
  insert_scanned result.workspace_id revision_id [] result.entries
  modify (
      update_job_row job.job_id (λ j. record j {
        status = JobStatus.succeeded;
        safe_error_code = none;
        finished_at = some result.completed_at;
      }))
  modify (
      update_workspace result.workspace_id (λ w. record w {
        state = WorkspaceState.approval_required;
        current_draft_revision_id = some revision_id;
        last_scanned_at = some result.completed_at;
        updated_at = result.completed_at;
      }))
  insert_event job.job_id "approval_required" "Scan complete. Review the selected course files."
      (scan_payload revision_id result) result.completed_at
  revision result.workspace_id revision_id

-- A scan that the job has committed before is returned again.
unfoldable pub commit_or_repeat :
    (revision_id workspace_id : String)
    → WorkspaceRow
    → WorkspaceJob
    → ScanResult
    → Option RevisionRow
    → Method Db ManifestRevision
unfolding commit_new revision
commit_or_repeat revision_id workspace_id row job result (some r) =
    revision workspace_id r.revision_id
commit_or_repeat revision_id workspace_id row job result none =
    commit_new revision_id row job result

-- The transaction of commit_scan
unfoldable pub commit_body :
    (revision_id workspace_id : String)
    → ScanResult
    → (job_id : String) → Method Db ManifestRevision
unfolding commit_or_repeat
commit_body revision_id workspace_id result job_id = do
  row ← workspace_row workspace_id
  job ← job_row job_id
  ensure (job.workspace_id == workspace_id) not_found
  existing ← gets (λ db.
      find (λ r. r.workspace_id == workspace_id && is_optional r.scan_job_id job_id) db.revisions)
  commit_or_repeat revision_id workspace_id row job result existing

-- commit_scan; `revision_id` is the drawn uuid.
unfoldable pub commit_scan :
    (revision_id workspace_id : String)
    → ScanResult
    → (job_id : String) → Method Db ManifestRevision
unfolding commit_body
commit_scan revision_id workspace_id result job_id = do
  ensure (result.workspace_id == workspace_id) value_error
  transaction (commit_body revision_id workspace_id result job_id)

-- get_manifest; an empty revision_id counts as none.
unfoldable pub get_manifest : (workspace_id : String) → Option String → Method Db ManifestRevision
unfolding revision
get_manifest workspace_id revision_id = do
  row ← workspace_row workspace_id
  selected ← or_raise not_found (elim revision_id [
    | none ↦ row.workspace.current_draft_revision_id
    | some id ↦ if id == "" then row.workspace.current_draft_revision_id else some id
  ])
  revision workspace_id selected

-- get_manifest_entries
unfoldable pub get_manifest_entries : (workspace_id : String) → Method Db (List ManifestEntry)
unfolding revision
get_manifest_entries workspace_id = do
  row ← workspace_row workspace_id
  elim row.workspace.current_draft_revision_id [
    | none ↦ pure []
    | some id ↦ (do found ← revision workspace_id id; pure found.entries)
  ]

-- require_current_draft
unfoldable pub require_current_draft :
    (workspace_id revision_id : String) → Method Db ManifestRevision
unfolding revision
require_current_draft workspace_id revision_id = do
  row ← workspace_row workspace_id
  ensure (is_optional row.workspace.current_draft_revision_id revision_id) stale
  revision workspace_id revision_id
