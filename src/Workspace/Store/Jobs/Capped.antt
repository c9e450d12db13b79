-- ===== src/Workspace/Store/Jobs/Capped.antt =====
-- The databases that calls reach from one without events, and the cap on the progress events in them.
use exam_sage.Common.{
  ℕ, ◌≤◌, String, Bool, ◌&&◌, not, Option, none, some, List, [], ◌∷◌, count, filter, any, ◌≡◌, refl,
  arith, ◌==◌, value_error, ensure, modify,
}
use exam_sage.Common.Keeps.{Keeps, Keeps-bind, Keeps-ensure}
use exam_sage.Workspace.Models.{
  ScanProgress, WorkspaceJob, WorkspaceEvent, ManifestEntry, ScanResult, CleanupRecord,
}
use exam_sage.Workspace.Store.{Db, WorkspaceRow, RevisionRow, delete_workspace}
use exam_sage.Workspace.Store.Events.{Payload, insert_event}
use exam_sage.Workspace.Store.Manifests.{
  revision, insert_revision, insert_entry, insert_scanned, commit_new, commit_or_repeat,
  commit_body, commit_scan,
}
use exam_sage.Workspace.Store.Manifests.Reads.{revision_same}
use exam_sage.Workspace.Store.Removal.{
  delete_workspace_rows, complete_cleanup, complete_for, complete_found, complete_body, delete_body,
}
use exam_sage.Workspace.Store.Jobs.{
  append_progress, start_job, fail_job, update_job, recover_running_jobs, is_progress,
}
use exam_sage.Workspace.Store.Jobs.Progress.{IsCapped, append_progress-IsCapped}
use exam_sage.Workspace.Store.Jobs.Reports.{
  quiet_rules, insert_event-Keeps, quiet_step, start_job-Keeps, fail_job-Keeps, update_job-Keeps,
  recover_running_jobs-Keeps,
}

insert_revision-Keeps : (row : RevisionRow) → Keeps IsCapped (insert_revision row)
unfolding insert_revision
insert_revision-Keeps row = search (quiet_rules, quiet_step)

insert_entry-Keeps : (id : String) (e : ManifestEntry) → Keeps IsCapped (insert_entry id e)
unfolding insert_entry
insert_entry-Keeps id e = search (quiet_rules, quiet_step)

insert_scanned-Keeps :
    (w id : String) (seen : List String) (es : List ManifestEntry)
    → Keeps IsCapped (insert_scanned w id seen es)
unfolding insert_scanned
insert_scanned-Keeps w id seen [] = search quiet_rules
insert_scanned-Keeps w id seen (e ∷ es) =
    Keeps-bind (ensure (e.workspace_id == w) value_error) _ (Keeps-ensure _ value_error) (λ _.
      Keeps-bind (ensure (not (any (λ s. s == e.entry_id) seen)) value_error) _
        (Keeps-ensure _ value_error)
        (λ _.
          Keeps-bind (insert_entry id e) _ (insert_entry-Keeps id e)
            (λ _. insert_scanned-Keeps w id (e.entry_id ∷ seen) es)))

revision-Keeps : (w id : String) → Keeps IsCapped (revision w id)
revision-Keeps w id = record { at = λ db h. rw (revision_same w id db) h }

scanned_quiet :
    (id : String) (p : Payload) (now : ℕ)
    → Keeps IsCapped (
        insert_event id "approval_required" "Scan complete. Review the selected course files." p
          now)
scanned_quiet id p now =
    insert_event-Keeps id "approval_required" "Scan complete. Review the selected course files." p
      now refl

commit_new-Keeps :
    (id : String) (row : WorkspaceRow) (job : WorkspaceJob) (result : ScanResult)
    → Keeps IsCapped (commit_new id row job result)
unfolding commit_new
commit_new-Keeps id row job result =
    search (quiet_rules, insert_revision-Keeps, insert_scanned-Keeps, scanned_quiet, revision-Keeps)
      depth 30

commit_or_repeat-Keeps :
    (id w : String) (row : WorkspaceRow) (job : WorkspaceJob) (result : ScanResult)
    (o : Option RevisionRow)
    → Keeps IsCapped (commit_or_repeat id w row job result o)
unfolding commit_or_repeat
commit_or_repeat-Keeps id w row job result (some r) = revision-Keeps w r.revision_id
commit_or_repeat-Keeps id w row job result none = commit_new-Keeps id row job result

commit_scan-Keeps :
    (id w : String) (result : ScanResult) (job_id : String)
    → Keeps IsCapped (commit_scan id w result job_id)
unfolding commit_scan commit_body
commit_scan-Keeps id w result job_id = search (quiet_rules, commit_or_repeat-Keeps) depth 20

count-filter_le :
    (p q : WorkspaceEvent → Bool) (xs : List WorkspaceEvent) → count p (filter q xs) ≤ count p xs
count-filter_le p q [] = omega arith
count-filter_le p q (x ∷ xs) = ground (arith, count-filter_le p q xs)

delete_workspace-Keeps : (w : String) → Keeps IsCapped (modify (delete_workspace w))
unfolding delete_workspace
delete_workspace-Keeps w = record {
  at = λ db h k. omega (
    arith,
    h k,
    count-filter_le (is_progress k)
        (λ e. not (any (λ j. j.job_id == e.job_id && j.workspace_id == w) db.jobs)) db.events,
  );
}

delete_workspace_rows-Keeps : (w : String) → Keeps IsCapped (delete_workspace_rows w)
unfolding delete_workspace_rows delete_body
delete_workspace_rows-Keeps w = search (quiet_rules, delete_workspace-Keeps) depth 20

complete_for-Keeps :
    (id w : String) (o : Option WorkspaceRow) → Keeps IsCapped (complete_for id w o)
unfolding complete_for
complete_for-Keeps id w none = search (quiet_rules, quiet_step)
complete_for-Keeps id w (some row) =
    search (quiet_rules, delete_workspace-Keeps, quiet_step) depth 20

complete_found-Keeps :
    (id : String) (o : Option CleanupRecord) → Keeps IsCapped (complete_found id o)
complete_found-Keeps id none = search quiet_rules
complete_found-Keeps id (some c) = search (quiet_rules, complete_for-Keeps)

complete_cleanup-Keeps : (id : String) → Keeps IsCapped (complete_cleanup id)
unfolding complete_cleanup complete_body
complete_cleanup-Keeps id = search (quiet_rules, complete_found-Keeps)

-- A call of a method that adds events or deletes them, or any step that leaves the events alone; what
-- the call returns or raises does not matter.
pub data Log (db : Db) : Db → Type 0 where
  appends :
      (now : ℕ) (job_id : String) (progress : ScanProgress)
      → Log db (append_progress now job_id progress db).1
  starts : (now : ℕ) (job_id : String) → Log db (start_job now job_id db).1
  fails : (now : ℕ) (job_id code : String) → Log db (fail_job now job_id code db).1
  updates : (job : WorkspaceJob) (event : WorkspaceEvent) → Log db (update_job job event db).1
  scans :
      (revision_id workspace_id : String) (result : ScanResult) (job_id : String)
      → Log db (commit_scan revision_id workspace_id result job_id db).1
  recovers : (now : ℕ) → Log db (recover_running_jobs now db).1
  removes : (workspace_id : String) → Log db (delete_workspace_rows workspace_id db).1
  completes : (cleanup_id : String) → Log db (complete_cleanup cleanup_id db).1
  passes : {s : Db} → s.events ≡ db.events → Log db s

-- The databases that such steps reach from one without events
pub data Logged : Db → Type 0 where
  fresh : {db : Db} → db.events ≡ [] → Logged db
  goes_on : {db s : Db} → Logged db → Log db s → Logged s

Log-IsCapped : {db s : Db} → Log db s → IsCapped db → IsCapped s
Log-IsCapped {db} (Log.appends now id progress) h = append_progress-IsCapped now id progress db h
Log-IsCapped {db} (Log.starts now id) h = (start_job-Keeps now id).at db h
Log-IsCapped {db} (Log.fails now id code) h = (fail_job-Keeps now id code).at db h
Log-IsCapped {db} (Log.updates job event) h = (update_job-Keeps job event).at db h
Log-IsCapped {db} (Log.scans rid w result id) h = (commit_scan-Keeps rid w result id).at db h
Log-IsCapped {db} (Log.recovers now) h = (recover_running_jobs-Keeps now).at db h
Log-IsCapped {db} (Log.removes w) h = (delete_workspace_rows-Keeps w).at db h
Log-IsCapped {db} (Log.completes id) h = (complete_cleanup-Keeps id).at db h
Log-IsCapped (Log.passes e) h = λ k. rw e (h k)

-- In every database that calls of the methods that add or delete events, and steps that leave the
-- events alone, reach from one without events, each job has at most 256 progress events.
pub Logged-IsCapped :
    {db : Db} → Logged db → (job_id : String) → count (is_progress job_id) db.events ≤ 256
Logged-IsCapped (Logged.fresh e) = λ k. rw e (omega arith)
Logged-IsCapped (Logged.goes_on r c) = Log-IsCapped c (Logged-IsCapped r)
