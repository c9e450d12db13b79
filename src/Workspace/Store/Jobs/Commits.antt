-- ===== src/Workspace/Store/Jobs/Commits.antt =====
-- The writes to jobs by the methods of other parts: commit_scan, the creation of a workspace with its
-- first scan, and the deletions.
use exam_sage.Common.{
  ℕ, String, Bool, true, ◌&&◌, not, Option, none, some, List, [], ◌∷◌, any, find, filter, if_both,
  inl, inr, ◌≡◌, ◌⊎◌, refl, sym, ap, ◌∙◌, arith, ◌==◌, Method, ◌>>◌, ensure, or_raise, after_check,
  transaction-keeps, bind-then, or_raise_same, or_raise_passed, ensure_same, ensure_passed,
  value_error, not_found, active_operation, stale,
}
use mathlib.Core.Path.{subst}
use exam_sage.Common.Table.{lookup, update, lookup-key}
use exam_sage.Workspace.Models.{
  JobStatus, WorkspaceRecord, CleanupRecord, WorkspaceJob, ManifestEntry, ScanResult,
}
use exam_sage.Workspace.Store.{
  Db, WorkspaceRow, RevisionRow, RequestRow, job_key, workspace_key, find_job, find_workspace,
  job_row, workspace_row, guard_accepts_jobs, is_running, is_queued, insert_job, insert_workspace,
  delete_workspace, has_active_job, is_optional,
}
use exam_sage.Workspace.Store.Events.{Payload, insert_event}
use exam_sage.Workspace.Store.Manifests.{
  revision, insert_revision, insert_entry, insert_scanned, commit_new, commit_or_repeat,
  commit_body, commit_scan, scan_payload, is_newer_commit,
}
use exam_sage.Workspace.Store.Manifests.Reads.{revision_same}
use exam_sage.Workspace.Store.Creation.{
  repeat_creation, create_new, create_for, create_body, create_workspace_with_initial_job,
  find_request, is_completed, is_claimed,
}
use exam_sage.Workspace.Store.Removal.{
  delete_workspace_rows, complete_cleanup, complete_for, complete_found, complete_body, delete_body,
  is_deleting, is_pending_cleanup, find_cleanup,
}
use exam_sage.Workspace.Store.Jobs.Active.{Steps, is_change, outside}
use exam_sage.Workspace.Store.Jobs.Writes.{Wrote, insert_event-jobs, insert_job-Wrote}

-- The jobs are as they were.
abbrev Kept : Db → Db → Type 0
Kept db s = s.jobs ≡ db.jobs

insert_revision-Kept : (row : RevisionRow) (db : Db) → Kept db (insert_revision row db).1
unfolding insert_revision
insert_revision-Kept row db = ground arith

insert_entry-Kept : (r : String) (e : ManifestEntry) (db : Db) → Kept db (insert_entry r e db).1
unfolding insert_entry
insert_entry-Kept r e db = ground arith

insert_scanned-Kept :
    (w r : String) (seen : List String) (es : List ManifestEntry) (db : Db)
    → Kept db (insert_scanned w r seen es db).1
unfolding insert_scanned
insert_scanned-Kept w r seen [] db = refl
insert_scanned-Kept w r seen (e ∷ es) db =
    after_check (Kept db) (ensure (e.workspace_id == w) value_error) _ db
      (ensure_same _ value_error db) refl
      (λ _ _.
        after_check (Kept db) (ensure (not (any (λ s. s == e.entry_id) seen)) value_error) _ db
          (ensure_same _ value_error db) refl
          (λ _ _.
            bind-then (Kept db) (Kept db) (insert_entry r e) _ db (insert_entry-Kept r e db)
              (λ _ h. h) (λ _ s h. insert_scanned-Kept w r (e.entry_id ∷ seen) es s ∙ h)))

running-succeeds : (s : JobStatus) → is_running s ≡ true → is_change s JobStatus.succeeded ≡ true
running-succeeds JobStatus.queued h = absurd (cc)
running-succeeds JobStatus.running h = refl
running-succeeds JobStatus.succeeded h = absurd (cc)
running-succeeds JobStatus.failed h = absurd (cc)
running-succeeds JobStatus.cancelled h = absurd (cc)

event_and_revision-jobs :
    (id t m : String) (p : Payload) (now : ℕ) (w r : String) (db : Db)
    → ((insert_event id t m p now >> revision w r) db).1.jobs ≡ db.jobs
event_and_revision-jobs id t m p now w r db =
    bind-then (Kept db) (Kept db) (insert_event id t m p now) _ db
      (insert_event-jobs id t m p now db) (λ _ h. h)
      (λ _ s h. ap (λ d. d.jobs) (revision_same w r s) ∙ h)

commit_new-Wrote :
    (rid : String) (row : WorkspaceRow) (job : WorkspaceJob) (result : ScanResult) (db : Db)
    → find_job job.job_id db ≡ some job
    → Wrote db (commit_new rid row job result db).1
unfolding commit_new
commit_new-Wrote rid row job result db found =
    after_check (Wrote db) (ensure (is_running job.status) active_operation) _ db
      (ensure_same _ active_operation db) (Steps.stay refl)
      (λ _ run.
        after_check (Wrote db) (guard_accepts_jobs row) _ db (ensure_same _ active_operation db)
          (Steps.stay refl)
          (λ _ _.
            after_check (Wrote db) (ensure (not (any (is_newer_commit job db) db.revisions)) stale)
              _ db (ensure_same _ stale db) (Steps.stay refl)
              (λ _ _.
                bind-then (Kept db) (Wrote db) (insert_revision _) _ db (insert_revision-Kept _ db)
                  (λ _ h. Steps.stay h)
                  (λ _ s h.
                    bind-then (Kept db) (Wrote db)
                      (insert_scanned result.workspace_id rid [] result.entries) _ s
                      (insert_scanned-Kept result.workspace_id rid [] result.entries s ∙ h)
                      (λ _ h. Steps.stay h)
                      (λ _ t k.
                        Steps.move job.job_id
                          (λ j. record j {
                            status = JobStatus.succeeded;
                            safe_error_code = none;
                            finished_at = some result.completed_at;
                          })
                          {j = job} found
                          (running-succeeds job.status (ensure_passed _ active_operation db run))
                          (λ x. refl) (λ x. refl)
                          (event_and_revision-jobs job.job_id "approval_required"
                              "Scan complete. Review the selected course files."
                              (scan_payload rid result) result.completed_at result.workspace_id rid
                              _
                            ∙ ap
                                (update job_key job.job_id (λ j. record j {
                                  status = JobStatus.succeeded;
                                  safe_error_code = none;
                                  finished_at = some result.completed_at;
                                }))
                                k))))))

found_by_own_id :
    (id : String) (job : WorkspaceJob) (db : Db)
    → find_job id db ≡ some job
    → find_job job.job_id db ≡ some job
found_by_own_id id job db found =
    subst (λ k. lookup job_key k db.jobs ≡ some job) (sym (lookup-key job_key id db.jobs found))
      found

commit_or_repeat-Wrote :
    (o : Option RevisionRow) (rid w : String) (row : WorkspaceRow) (job : WorkspaceJob)
    (result : ScanResult) (db : Db)
    → find_job job.job_id db ≡ some job
    → Wrote db (commit_or_repeat rid w row job result o db).1
unfolding commit_or_repeat
commit_or_repeat-Wrote (some r) rid w row job result db found =
    Steps.stay (ap (λ d. d.jobs) (revision_same w r.revision_id db))
commit_or_repeat-Wrote none rid w row job result db found =
    commit_new-Wrote rid row job result db found

commit_body-Wrote :
    (rid w : String) (result : ScanResult) (id : String) (db : Db)
    → Wrote db (commit_body rid w result id db).1
unfolding commit_body
commit_body-Wrote rid w result id db =
    after_check (Wrote db) (workspace_row w) _ db (or_raise_same not_found (find_workspace w db) db)
      (Steps.stay refl)
      (λ row _.
        after_check (Wrote db) (job_row id) _ db (or_raise_same not_found (find_job id db) db)
          (Steps.stay refl)
          (λ job found.
            after_check (Wrote db) (ensure (job.workspace_id == w) not_found) _ db
              (ensure_same _ not_found db) (Steps.stay refl)
              (λ _ _.
                commit_or_repeat-Wrote
                  (find (λ r. r.workspace_id == w && is_optional r.scan_job_id id) db.revisions) rid
                  w row job result db
                  (found_by_own_id id job db
                    (or_raise_passed not_found (find_job id db) db found)))))

pub commit_scan-Wrote :
    (rid w : String) (result : ScanResult) (id : String) (db : Db)
    → Wrote db (commit_scan rid w result id db).1
unfolding commit_scan
commit_scan-Wrote rid w result id db =
    after_check (Wrote db) (ensure (result.workspace_id == w) value_error) _ db
      (ensure_same _ value_error db) (Steps.stay refl)
      (λ _ _.
        transaction-keeps (Wrote db) (commit_body rid w result id) db (Steps.stay refl)
          (commit_body-Wrote rid w result id db))

insert_workspace-Kept : (row : WorkspaceRow) (db : Db) → Kept db (insert_workspace row db).1
unfolding insert_workspace
insert_workspace-Kept row db = ground arith

repeat_same : (request : RequestRow) (db : Db) → (repeat_creation request db).1 ≡ db
unfolding repeat_creation
repeat_same request db = ground arith

create_new-Wrote :
    (now : ℕ) (row : WorkspaceRow) (job : WorkspaceJob) (key : String) (request : RequestRow)
    (db : Db)
    → Wrote db (create_new now row job key request db).1
unfolding create_new
create_new-Wrote now row job key request db =
    after_check (Wrote db)
      (ensure (is_claimed request.state && request.workspace_id == workspace_key row)
        active_operation)
      _ db (ensure_same _ active_operation db) (Steps.stay refl)
      (λ _ _.
        bind-then (Kept db) (Wrote db) (insert_workspace row) _ db (insert_workspace-Kept row db)
          (λ _ h. Steps.stay h)
          (λ _ s h.
            bind-then (Wrote db) (Wrote db) (insert_job (record job { idempotency_key = key })) _ s
              (Steps.both (Steps.stay h)
                (insert_job-Wrote (record job { idempotency_key = key }) s))
              (λ _ h. h) (λ _ t k. Steps.both k (Steps.stay (ground arith)))))

create_for-Wrote :
    (now : ℕ) (row : WorkspaceRow) (job : WorkspaceJob) (key : String) (request : RequestRow)
    (db : Db)
    → Wrote db (create_for now row job key request db).1
unfolding create_for
create_for-Wrote now row job key request db =
    if_both (λ (m : Method Db (WorkspaceRecord × WorkspaceJob × Bool)). Wrote db (m db).1)
      (is_completed request.state) (repeat_creation request) (create_new now row job key request)
      (λ _. Steps.stay (ap (λ d. d.jobs) (repeat_same request db)))
      (λ _. create_new-Wrote now row job key request db)

create_body-Wrote :
    (now : ℕ) (row : WorkspaceRow) (job : WorkspaceJob) (key : String) (db : Db)
    → Wrote db (create_body now row job key db).1
unfolding create_body
create_body-Wrote now row job key db =
    after_check (Wrote db) (or_raise active_operation (find_request key db)) _ db
      (or_raise_same active_operation (find_request key db) db) (Steps.stay refl)
      (λ request _. create_for-Wrote now row job key request db)

pub create_workspace_with_initial_job-Wrote :
    (now : ℕ) (row : WorkspaceRow) (job : WorkspaceJob) (key : String) (db : Db)
    → Wrote db (create_workspace_with_initial_job now row job key db).1
unfolding create_workspace_with_initial_job
create_workspace_with_initial_job-Wrote now row job key db =
    after_check (Wrote db)
      (ensure
        (job.workspace_id == workspace_key row
          && (job.job_kind == "initial_scan" && is_queued job.status))
        value_error)
      _ db (ensure_same _ value_error db) (Steps.stay refl)
      (λ _ _.
        transaction-keeps (Wrote db) (create_body now row job key) db (Steps.stay refl)
          (create_body-Wrote now row job key db))

-- The jobs are as they were, or those of the workspace are gone.
abbrev pub Dropped : String → Db → Db → Type 0
Dropped w db s = (s.jobs ≡ db.jobs) ⊎ (s.jobs ≡ filter (outside w) db.jobs)

delete_body-Dropped : (w : String) (db : Db) → Dropped w db (delete_body w db).1
unfolding delete_body has_active_job delete_workspace
delete_body-Dropped w db =
    after_check (Dropped w db) (workspace_row w) _ db
      (or_raise_same not_found (find_workspace w db) db) (inl refl)
      (λ row _.
        after_check (Dropped w db) (ensure (is_deleting row.workspace.state) active_operation) _ db
          (ensure_same _ active_operation db) (inl refl)
          (λ _ _.
            after_check (Dropped w db) (ensure (not (has_active_job w db)) active_operation) _ db
              (ensure_same _ active_operation db) (inl refl) (λ _ _. inr refl)))

pub delete_workspace_rows-Dropped :
    (w : String) (db : Db) → Dropped w db (delete_workspace_rows w db).1
unfolding delete_workspace_rows
delete_workspace_rows-Dropped w db =
    transaction-keeps (Dropped w db) (delete_body w) db (inl refl) (delete_body-Dropped w db)

complete_for-Dropped :
    (id w : String) (o : Option WorkspaceRow) (db : Db) → Dropped w db (complete_for id w o db).1
unfolding complete_for has_active_job delete_workspace
complete_for-Dropped id w none db = inl refl
complete_for-Dropped id w (some row) db =
    after_check (Dropped w db) (ensure (is_pending_cleanup row.workspace.state) active_operation) _
      db (ensure_same _ active_operation db) (inl refl)
      (λ _ _.
        after_check (Dropped w db) (ensure (not (has_active_job w db)) active_operation) _ db
          (ensure_same _ active_operation db) (inl refl) (λ _ _. inr refl))

complete_found-Dropped :
    (id : String) (o : Option CleanupRecord) (db : Db)
    → (w : String) × Dropped w db (complete_found id o db).1
complete_found-Dropped id none db = (id, inl refl)
complete_found-Dropped id (some c) db =
    (c.workspace_id, complete_for-Dropped id c.workspace_id (find_workspace c.workspace_id db) db)

pub complete_cleanup-Dropped :
    (id : String) (db : Db) → (w : String) × Dropped w db (complete_cleanup id db).1
unfolding complete_cleanup complete_body
complete_cleanup-Dropped id db =
    let (w, h) = complete_found-Dropped id (find_cleanup id db) db in
    (w, transaction-keeps (Dropped w db) (complete_body id) db (inl refl) h)
