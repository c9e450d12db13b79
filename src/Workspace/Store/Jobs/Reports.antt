-- ===== src/Workspace/Store/Jobs/Reports.antt =====
-- The methods beside append_progress that write events: none adds a progress event.
use exam_sage.Common.{
  ℕ, String, true, false, List, [], ◌∷◌, ◌≡◌, refl, ok, arith, ◌==◌, modify, pure, ◌>>◌,
  after_check, transaction-keeps, or_raise_same, not_found, eq_iff,
}
use exam_sage.Common.Keeps.{Keeps, Keeps-pure, Keeps-ensure, Keeps-bind, keeps_rules}
use exam_sage.Workspace.Models.{JobStatus, WorkspaceRecord, WorkspaceJob, WorkspaceEvent}
use exam_sage.Workspace.Store.{
  Db, find_job, find_workspace, is_running, job_row, workspace_row, update_job_row,
  update_workspace,
}
use exam_sage.Workspace.Store.Events.{
  Payload, insert_event, validate_event, new_event, store_event, mem,
}
use exam_sage.Workspace.Store.Jobs.{
  is_progress, recover_rows, recover_running_jobs, start_queued, start_body, start_job, fail_body,
  fail_job, update_body, update_job, check_update, status_events, jobs_with, requeued, with_status,
}
use exam_sage.Workspace.Store.Jobs.Writes.{validate_same, check_update_same}
use exam_sage.Workspace.Store.Jobs.Progress.{IsCapped, count-append}

pub insert_event-Keeps :
    (id t m : String) (p : Payload) (now : ℕ)
    → (t == "scan_progress") ≡ false
    → Keeps IsCapped (insert_event id t m p now)
unfolding insert_event store_event new_event
insert_event-Keeps id t m p now quiet = record {
  at = λ db h. after_check IsCapped (validate_event t m p) _ db (validate_same t m p db) h (λ _ _ k.
      ground (
        arith,
        h k,
        quiet,
        count-append (is_progress k) db.events (new_event id t m p now db ∷ []),
      ));
}

-- A step that writes no event
pub quiet_step : (f : Db → Db) → ((db : Db) → (f db).events ≡ db.events) → Keeps IsCapped (modify f)
quiet_step f same = record { at = λ db h k. rw (same db) (h k) }

pub update_job_row-Keeps :
    (id : String) (f : WorkspaceJob → WorkspaceJob) → Keeps IsCapped (modify (update_job_row id f))
update_job_row-Keeps id f = record { at = λ db h. h }

pub update_workspace-Keeps :
    (id : String) (f : WorkspaceRecord → WorkspaceRecord)
    → Keeps IsCapped (modify (update_workspace id f))
update_workspace-Keeps id f = record { at = λ db h. h }

pub job_row-Keeps : (id : String) → Keeps IsCapped (job_row id)
job_row-Keeps id = record { at = λ db h. rw (or_raise_same not_found (find_job id db) db) h }

pub workspace_row-Keeps : (id : String) → Keeps IsCapped (workspace_row id)
workspace_row-Keeps id = record {
  at = λ db h. rw (or_raise_same not_found (find_workspace id db) db) h;
}

pub ruleset quiet_rules =
    (keeps_rules, update_job_row-Keeps, update_workspace-Keeps, job_row-Keeps, workspace_row-Keeps)

started_quiet :
    (now : ℕ) (id : String)
    → Keeps IsCapped (insert_event id "started" "Workspace scan started." [] now)
started_quiet now id = insert_event-Keeps id "started" "Workspace scan started." [] now refl

start_queued-Keeps : (now : ℕ) (job : WorkspaceJob) → Keeps IsCapped (start_queued now job)
unfolding start_queued
start_queued-Keeps now job = search (quiet_rules, started_quiet)

pub start_job-Keeps : (now : ℕ) (id : String) → Keeps IsCapped (start_job now id)
unfolding start_job start_body
start_job-Keeps now id = search (quiet_rules, start_queued-Keeps) depth 20

failed_quiet :
    (now : ℕ) (id : String) (p : Payload)
    → Keeps IsCapped (insert_event id "failed" "Workspace scan failed." p now)
failed_quiet now id p = insert_event-Keeps id "failed" "Workspace scan failed." p now refl

pub fail_job-Keeps : (now : ℕ) (id code : String) → Keeps IsCapped (fail_job now id code)
unfolding fail_job fail_body
fail_job-Keeps now id code = search (quiet_rules, failed_quiet) depth 20

queued_quiet :
    (now : ℕ) (id : String)
    → Keeps IsCapped (insert_event id "queued" "Workspace operation queued." [] now)
queued_quiet now id = insert_event-Keeps id "queued" "Workspace operation queued." [] now refl

recover_rows-Keeps : (now : ℕ) (rows : List WorkspaceJob) → Keeps IsCapped (recover_rows now rows)
unfolding recover_rows
recover_rows-Keeps now [] = search quiet_rules
recover_rows-Keeps now (row ∷ rows) =
    Keeps-bind (modify (update_job_row row.job_id requeued)) _
      (update_job_row-Keeps row.job_id requeued)
      (λ _.
        Keeps-bind (insert_event row.job_id "queued" "Workspace operation queued." [] now) _
          (queued_quiet now row.job_id)
          (λ _. Keeps-bind (job_row row.job_id) _ (job_row-Keeps row.job_id) (λ job.
            Keeps-bind (recover_rows now rows) _ (recover_rows-Keeps now rows)
              (λ rest. Keeps-pure (job ∷ rest)))))

pub recover_running_jobs-Keeps : (now : ℕ) → Keeps IsCapped (recover_running_jobs now)
unfolding recover_running_jobs
recover_running_jobs-Keeps now = record {
  at = λ db h.
      transaction-keeps IsCapped (recover_rows now (jobs_with is_running db)) db h
        ((recover_rows-Keeps now (jobs_with is_running db)).at db h);
}

-- What equals a text that is not "scan_progress" is not "scan_progress" either.
other_quiet :
    (a t : String)
    → (a == "scan_progress") ≡ false
    → (a == t) ≡ true
    → (t == "scan_progress") ≡ false
other_quiet a t f e = ground (arith, f, e, eq_iff a t)

mem_quiet :
    (s : JobStatus) (t : String) → mem t (status_events s) ≡ true → (t == "scan_progress") ≡ false
mem_quiet JobStatus.queued t h = absurd (cc)
mem_quiet JobStatus.running t h = ground (arith, h, other_quiet "started" t refl)
mem_quiet JobStatus.succeeded t h =
    ground (arith, h, other_quiet "approval_required" t refl, other_quiet "succeeded" t refl)
mem_quiet JobStatus.failed t h = ground (arith, h, other_quiet "failed" t refl)
mem_quiet JobStatus.cancelled t h = ground (arith, h, other_quiet "cancelled" t refl)

checked_quiet :
    (job : WorkspaceJob) (event : WorkspaceEvent) (db : Db) {u : Unit}
    → (check_update job event db).0 ≡ ok u
    → (event.event_type == "scan_progress") ≡ false
unfolding check_update
checked_quiet job event db e = mem_quiet job.status event.event_type (ground (arith, e))

update_checked-Keeps :
    (job : WorkspaceJob) (event : WorkspaceEvent)
    → Keeps IsCapped (do
      check_update job event
      modify (update_job_row job.job_id (with_status job))
      insert_event event.job_id event.event_type event.message event.payload event.created_at
      pure tt)
update_checked-Keeps job event = record {
  at = λ db h.
      after_check IsCapped (check_update job event) _ db (check_update_same job event db) h (λ u e.
        (Keeps-bind
            (insert_event event.job_id event.event_type event.message event.payload
              event.created_at)
            _
            (insert_event-Keeps event.job_id event.event_type event.message event.payload
              event.created_at (checked_quiet job event db e))
            (λ _. Keeps-pure tt)).at
          (update_job_row job.job_id (with_status job) db) h);
}

pub update_job-Keeps :
    (job : WorkspaceJob) (event : WorkspaceEvent) → Keeps IsCapped (update_job job event)
unfolding update_job update_body
update_job-Keeps job event = search (quiet_rules, update_checked-Keeps) depth 20
