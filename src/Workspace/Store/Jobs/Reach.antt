-- ===== src/Workspace/Store/Jobs/Reach.antt =====
-- The databases that the methods reach, and what holds of the jobs in all of them.
use exam_sage.Common.{
  ℕ, ◌≤◌, String, true, some, List, [], filter, count, inl, inr, ◌≡◌, ◌⊎◌, arith,
}
use exam_sage.Common.Table.{IsUnique}
use exam_sage.Workspace.Models.{WorkspaceJob, WorkspaceEvent, ScanResult}
use exam_sage.Workspace.Store.{Db, WorkspaceRow, job_key, find_job, is_terminal, is_active_in}
use exam_sage.Workspace.Store.Creation.{create_workspace_with_initial_job}
use exam_sage.Workspace.Store.Manifests.{commit_scan}
use exam_sage.Workspace.Store.Removal.{delete_workspace_rows, complete_cleanup}
use exam_sage.Workspace.Store.Jobs.{
  create_job, start_job, fail_job, update_job, recover_running_jobs,
}
use exam_sage.Workspace.Store.Jobs.Active.{
  Steps, IsSingle, Steps-IsSingle, Steps-IsUnique, Steps-keeps_terminal, outside, outside-IsSingle,
  outside-IsUnique,
}
use exam_sage.Workspace.Store.Jobs.Writes.{
  Wrote, create_job-Wrote, start_job-Wrote, fail_job-Wrote, update_job-Wrote,
  recover_running_jobs-Wrote,
}
use exam_sage.Workspace.Store.Jobs.Commits.{
  commit_scan-Wrote, create_workspace_with_initial_job-Wrote, Dropped,
  delete_workspace_rows-Dropped, complete_cleanup-Dropped,
}

-- A call of a method that adds jobs or changes them, or any step that leaves the jobs alone; what the
-- call returns or raises does not matter.
pub data Write (db : Db) : Db → Type 0 where
  creates : (job : WorkspaceJob) (key : String) → Write db (create_job job key db).1
  introduces :
      (now : ℕ) (row : WorkspaceRow) (job : WorkspaceJob) (key : String)
      → Write db (create_workspace_with_initial_job now row job key db).1
  starts : (now : ℕ) (job_id : String) → Write db (start_job now job_id db).1
  fails : (now : ℕ) (job_id code : String) → Write db (fail_job now job_id code db).1
  updates : (job : WorkspaceJob) (event : WorkspaceEvent) → Write db (update_job job event db).1
  scans :
      (revision_id workspace_id : String) (result : ScanResult) (job_id : String)
      → Write db (commit_scan revision_id workspace_id result job_id db).1
  recovers : (now : ℕ) → Write db (recover_running_jobs now db).1
  passes : {s : Db} → s.jobs ≡ db.jobs → Write db s

-- A call of a method that deletes the rows of a workspace
pub data Delete (db : Db) : Db → Type 0 where
  removes : (workspace_id : String) → Delete db (delete_workspace_rows workspace_id db).1
  completes : (cleanup_id : String) → Delete db (complete_cleanup cleanup_id db).1

-- The databases that calls reach from one without jobs
pub data Reach : Db → Type 0 where
  fresh : {db : Db} → db.jobs ≡ [] → Reach db
  written : {db s : Db} → Reach db → Write db s → Reach s
  deleted : {db s : Db} → Reach db → Delete db s → Reach s

Write-Wrote : {db s : Db} → Write db s → Wrote db s
Write-Wrote {db} (Write.creates job key) = create_job-Wrote job key db
Write-Wrote {db} (Write.introduces now row job key) =
    create_workspace_with_initial_job-Wrote now row job key db
Write-Wrote {db} (Write.starts now id) = start_job-Wrote now id db
Write-Wrote {db} (Write.fails now id code) = fail_job-Wrote now id code db
Write-Wrote {db} (Write.updates job event) = update_job-Wrote job event db
Write-Wrote {db} (Write.scans rid w result id) = commit_scan-Wrote rid w result id db
Write-Wrote {db} (Write.recovers now) = recover_running_jobs-Wrote now db
Write-Wrote (Write.passes e) = Steps.stay e

Delete-Dropped : {db s : Db} → Delete db s → (w : String) × Dropped w db s
Delete-Dropped {db} (Delete.removes w) = (w, delete_workspace_rows-Dropped w db)
Delete-Dropped {db} (Delete.completes id) = complete_cleanup-Dropped id db

dropped-keeps :
    (P : List WorkspaceJob → Type 0) (w : String) (js ks : List WorkspaceJob)
    → P js
    → P (filter (outside w) js)
    → (ks ≡ js) ⊎ (ks ≡ filter (outside w) js)
    → P ks
dropped-keeps P w js ks h k (inl e) = rw e h
dropped-keeps P w js ks h k (inr e) = rw e k

-- In every database that the methods reach, each workspace has at most one queued or running job.
pub Reach-IsSingle : {db : Db} → Reach db → (w : String) → count (is_active_in w) db.jobs ≤ 1
Reach-IsSingle (Reach.fresh e) = λ w. rw e (omega arith)
Reach-IsSingle (Reach.written r c) = Steps-IsSingle (Write-Wrote c) (Reach-IsSingle r)
Reach-IsSingle (Reach.deleted {db} {s} r c) =
    let (v, d) = Delete-Dropped c in
    dropped-keeps IsSingle v db.jobs s.jobs (Reach-IsSingle r)
      (outside-IsSingle v db.jobs (Reach-IsSingle r)) d

-- In every database that the methods reach, the job ids are unique.
pub Reach-IsUnique : {db : Db} → Reach db → IsUnique job_key db.jobs
Reach-IsUnique (Reach.fresh e) = rw e tt
Reach-IsUnique (Reach.written r c) = Steps-IsUnique (Write-Wrote c) (Reach-IsUnique r)
Reach-IsUnique (Reach.deleted {db} {s} r c) =
    let (v, d) = Delete-Dropped c in
    dropped-keeps (IsUnique job_key) v db.jobs s.jobs (Reach-IsUnique r)
      (outside-IsUnique v db.jobs (Reach-IsUnique r)) d

-- A job that has succeeded, failed or been cancelled is left as it is, in every column, by each method
-- that adds or changes jobs.
pub Write-keeps_terminal :
    {db s : Db} (c : Write db s) (id : String) {j : WorkspaceJob}
    → find_job id db ≡ some j
    → is_terminal j.status ≡ true
    → find_job id s ≡ some j
Write-keeps_terminal c id found h = Steps-keeps_terminal (Write-Wrote c) id found h
