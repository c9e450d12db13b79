-- ===== src/Workspace/Store/Jobs/Writes.antt =====
-- Each method that writes workspace_jobs makes the writes that Active allows.
use mathlib.Core.Path.{subst}
use exam_sage.Common.{
  ℕ, String, true, false, ◌&&◌, ◌||◌, not, integrity_error, Option, none, some, List, [], ◌∷◌, any,
  find, if_both, Bool-cases, Option-cases, inl, inr, ◌≡◌, refl, sym, arith, ◌==◌, Method, Result,
  ok, err, Error, ◌>>◌, pure, raise, not_found, is_error_code, ensure, transaction, after_check,
  transaction-keeps, bind-then, or_raise_same, or_raise_passed, not-true, ensure_same,
  ensure_passed, value_error, active_operation,
}
use exam_sage.Common.Table.{lookup, update, lookup-key}
use exam_sage.Workspace.Models.{JobStatus, WorkspaceJob, WorkspaceEvent, PayloadValue}
use exam_sage.Workspace.Store.{
  Db, job_key, find_job, find_workspace, job_row, workspace_row, guard_accepts_jobs,
  guard_transition, is_active, is_active_in, is_allowed, is_running, is_queued, is_terminal,
  insert_job, update_job_row, same_request, has_active_job,
}
use exam_sage.Workspace.Store.Events.{
  Payload, EventRule, event_rule, insert_event, validate_event, check_payload, store_event,
}
use exam_sage.Workspace.Store.Jobs.{
  try_create, after_clash, create_job, recover_rows, recover_running_jobs, jobs_with, requeued,
  start_queued, start_body, start_job, fail_body, fail_job, update_body, update_job,
  create_or_repeat, check_update, with_status, same_identity,
}
use exam_sage.Workspace.Store.Jobs.Active.{Steps, is_change}

abbrev pub Wrote : Db → Db → Type 0
Wrote db s = Steps db.jobs s.jobs

check_same :
    (r : EventRule) (message : String) (p : Payload) (db : Db)
    → (check_payload r message p db).1 ≡ db
unfolding check_payload
check_same r message p db = ground arith

by_rule_same :
    (o : Option EventRule) (m : String) (p : Payload) (db : Db)
    → ((elim o as (λ x. Method Db Unit) [ none ↦ raise value_error | some r ↦ check_payload r m p ])
        db).1
      ≡ db
by_rule_same none m p db = refl
by_rule_same (some r) m p db = check_same r m p db

pub validate_same : (t m : String) (p : Payload) (db : Db) → (validate_event t m p db).1 ≡ db
unfolding validate_event
validate_same t m p db = by_rule_same (event_rule t) m p db

pub insert_event-jobs :
    (id t m : String) (p : Payload) (now : ℕ) (db : Db)
    → (insert_event id t m p now db).1.jobs ≡ db.jobs
unfolding insert_event store_event
insert_event-jobs id t m p now db =
    after_check (λ s. s.jobs ≡ db.jobs) (validate_event t m p) _ db (validate_same t m p db) refl
      (λ _ _. refl)

-- A read of a job after the event leaves the jobs as they were before it.
pub event_and_read-jobs :
    (id t m : String) (p : Payload) (now : ℕ) (job_id : String) (db : Db)
    → ((insert_event id t m p now >> job_row job_id) db).1.jobs ≡ db.jobs
event_and_read-jobs id t m p now job_id db = ground (arith, insert_event-jobs id t m p now db)

event_and_end-jobs :
    (id t m : String) (p : Payload) (now : ℕ) (db : Db)
    → ((insert_event id t m p now >> pure tt) db).1.jobs ≡ db.jobs
event_and_end-jobs id t m p now db = ground (arith, insert_event-jobs id t m p now db)

queued-is_change : (s : JobStatus) → is_queued s ≡ true → is_change s JobStatus.running ≡ true
queued-is_change JobStatus.queued h = refl
queued-is_change JobStatus.running h = absurd (cc)
queued-is_change JobStatus.succeeded h = absurd (cc)
queued-is_change JobStatus.failed h = absurd (cc)
queued-is_change JobStatus.cancelled h = absurd (cc)

start_queued-Wrote :
    (now : ℕ) (job : WorkspaceJob) (id : String) (db : Db)
    → find_job id db ≡ some job
    → Wrote db (start_queued now job db).1
unfolding start_queued
start_queued-Wrote now job id db found =
    after_check (Wrote db) (ensure (is_queued job.status) active_operation) _ db
      (ensure_same (is_queued job.status) active_operation db) (Steps.stay refl)
      (λ _ e.
        let key = lookup-key job_key id db.jobs found in
        Steps.move job.job_id (λ j. record j { status = JobStatus.running; started_at = some now })
          {j = job} (subst (λ k. lookup job_key k db.jobs ≡ some job) (sym key) found)
          (queued-is_change job.status (ensure_passed _ active_operation db e)) (λ x. refl)
          (λ x. refl)
          (event_and_read-jobs job.job_id "started" "Workspace scan started." [] now job.job_id _))

pub start_job-Wrote : (now : ℕ) (id : String) (db : Db) → Wrote db (start_job now id db).1
unfolding start_job start_body
start_job-Wrote now id db = transaction-keeps (Wrote db) (start_body now id) db (Steps.stay refl) (
    after_check (Wrote db) (job_row id) _ db (or_raise_same not_found (find_job id db) db)
      (Steps.stay refl)
      (λ job found.
        after_check (Wrote db) (workspace_row job.workspace_id) _ db
          (or_raise_same not_found (find_workspace job.workspace_id db) db) (Steps.stay refl)
          (λ w _.
            after_check (Wrote db) (guard_accepts_jobs w) _ db (ensure_same _ active_operation db)
              (Steps.stay refl)
              (λ _ _.
                if_both (λ (m : Method Db WorkspaceJob). Wrote db (m db).1) (is_running job.status)
                  (pure job) (start_queued now job) (λ _. Steps.stay refl)
                  (λ _.
                    start_queued-Wrote now job id db
                      (or_raise_passed not_found (find_job id db) db found))))))

pub allowed-is_change : (s t : JobStatus) → is_allowed s t ≡ true → is_change s t ≡ true
allowed-is_change JobStatus.running JobStatus.queued h = refl
allowed-is_change JobStatus.running JobStatus.running h = h
allowed-is_change JobStatus.running JobStatus.succeeded h = h
allowed-is_change JobStatus.running JobStatus.failed h = h
allowed-is_change JobStatus.running JobStatus.cancelled h = h
allowed-is_change JobStatus.queued t h = h
allowed-is_change JobStatus.succeeded t h = h
allowed-is_change JobStatus.failed t h = h
allowed-is_change JobStatus.cancelled t h = h

fail_body-Wrote : (now : ℕ) (id code : String) (db : Db) → Wrote db (fail_body now id code db).1
unfolding fail_body
fail_body-Wrote now id code db =
    after_check (Wrote db) (job_row id) _ db (or_raise_same not_found (find_job id db) db)
      (Steps.stay refl)
      (λ job found.
        after_check (Wrote db) (ensure (not (is_terminal job.status)) active_operation) _ db
          (ensure_same _ active_operation db) (Steps.stay refl)
          (λ _ _.
            after_check (Wrote db) (guard_transition job.status JobStatus.failed) _ db
              (ensure_same _ active_operation db) (Steps.stay refl)
              (λ _ e.
                Steps.move id
                  (λ j. record j {
                    status = JobStatus.failed;
                    safe_error_code = some code;
                    finished_at = some now;
                  })
                  {j = job} (or_raise_passed not_found (find_job id db) db found)
                  (allowed-is_change job.status JobStatus.failed
                    (ensure_passed _ active_operation db e))
                  (λ x. refl) (λ x. refl)
                  (event_and_read-jobs id "failed" "Workspace scan failed."
                    (("safe_error_code", PayloadValue.text code) ∷ []) now id _))))

pub fail_job-Wrote : (now : ℕ) (id code : String) (db : Db) → Wrote db (fail_job now id code db).1
unfolding fail_job
fail_job-Wrote now id code db =
    after_check (Wrote db) (job_row id) _ db (or_raise_same not_found (find_job id db) db)
      (Steps.stay refl)
      (λ _ _.
        after_check (Wrote db) (ensure (is_error_code code) value_error) _ db
          (ensure_same _ value_error db) (Steps.stay refl)
          (λ _ _.
            transaction-keeps (Wrote db) (fail_body now id code) db (Steps.stay refl)
              (fail_body-Wrote now id code db)))

pub check_update_same :
    (job : WorkspaceJob) (event : WorkspaceEvent) (db : Db) → (check_update job event db).1 ≡ db
unfolding check_update
check_update_same job event db = ground arith

update_body-Wrote :
    (job : WorkspaceJob) (event : WorkspaceEvent) (db : Db) → Wrote db (update_body job event db).1
unfolding update_body
update_body-Wrote job event db =
    after_check (Wrote db) (job_row job.job_id) _ db
      (or_raise_same not_found (find_job job.job_id db) db) (Steps.stay refl)
      (λ stored found.
        after_check (Wrote db) (ensure (same_identity stored job) value_error) _ db
          (ensure_same _ value_error db) (Steps.stay refl)
          (λ _ _.
            after_check (Wrote db) (guard_transition stored.status job.status) _ db
              (ensure_same _ active_operation db) (Steps.stay refl)
              (λ _ e.
                after_check (Wrote db) (check_update job event) _ db
                  (check_update_same job event db) (Steps.stay refl)
                  (λ _ _.
                    Steps.move job.job_id (with_status job) {j = stored}
                      (or_raise_passed not_found (find_job job.job_id db) db found)
                      (allowed-is_change stored.status job.status
                        (ensure_passed _ active_operation db e))
                      (λ x. refl) (λ x. refl)
                      (event_and_end-jobs event.job_id event.event_type event.message event.payload
                        event.created_at _)))))

pub update_job-Wrote :
    (job : WorkspaceJob) (event : WorkspaceEvent) (db : Db) → Wrote db (update_job job event db).1
unfolding update_job
update_job-Wrote job event db =
    after_check (Wrote db) (ensure (event.job_id == job.job_id) value_error) _ db
      (ensure_same _ value_error db) (Steps.stay refl)
      (λ _ _.
        transaction-keeps (Wrote db) (update_body job event) db (Steps.stay refl)
          (update_body-Wrote job event db))

no_clash-lookup :
    (job : WorkspaceJob) (js : List WorkspaceJob)
    → any (λ j. j.job_id == job.job_id || same_request j job) js ≡ false
    → lookup job_key job.job_id js ≡ none
unfolding lookup
no_clash-lookup job [] h = refl
no_clash-lookup job (j ∷ js) h = ground (arith, no_clash-lookup job js)

pub insert_job-Wrote : (job : WorkspaceJob) (db : Db) → Wrote db (insert_job job db).1
unfolding insert_job has_active_job
insert_job-Wrote job db =
    after_check (Wrote db)
      (ensure (not (any (λ j. j.job_id == job.job_id || same_request j job) db.jobs))
        integrity_error)
      _ db (ensure_same _ integrity_error db) (Steps.stay refl)
      (λ _ c.
        after_check (Wrote db)
          (ensure (not (is_active job.status && any (is_active_in job.workspace_id) db.jobs))
            integrity_error)
          _ db (ensure_same _ integrity_error db) (Steps.stay refl)
          (λ _ b.
            Steps.add job
              (no_clash-lookup job db.jobs (not-true (ensure_passed _ integrity_error db c)))
              (not-true (ensure_passed _ integrity_error db b)) refl))

pub read_job-Wrote : (id : String) (db s : Db) → Wrote db s → Wrote db (job_row id s).1
read_job-Wrote id db s h = rw (or_raise_same not_found (find_job id s) s) h

create_or_repeat-Wrote :
    (job : WorkspaceJob) (o : Option WorkspaceJob) (db : Db)
    → Wrote db (create_or_repeat job o db).1
unfolding create_or_repeat
create_or_repeat-Wrote job (some j) db = Steps.stay refl
create_or_repeat-Wrote job none db =
    bind-then (Wrote db) (Wrote db) (insert_job job) _ db (insert_job-Wrote job db) (λ _ h. h)
      (λ _ s h. read_job-Wrote job.job_id db s h)

try_create-Wrote : (job : WorkspaceJob) (db : Db) → Wrote db (try_create job db).1
unfolding try_create
try_create-Wrote job db =
    after_check (Wrote db) (workspace_row job.workspace_id) _ db
      (or_raise_same not_found (find_workspace job.workspace_id db) db) (Steps.stay refl)
      (λ w _.
        after_check (Wrote db) (guard_accepts_jobs w) _ db (ensure_same _ active_operation db)
          (Steps.stay refl)
          (λ _ _. create_or_repeat-Wrote job (find (λ j. same_request j job) db.jobs) db))

after_clash_same : (job : WorkspaceJob) (r : Result WorkspaceJob × Db) → (after_clash job r).1 ≡ r.1
after_clash_same job (ok j, db) = refl
after_clash_same job (err Error.integrity_error, db) = refl
after_clash_same job (err e, db) = refl

pub create_job-Wrote :
    (job : WorkspaceJob) (key : String) (db : Db) → Wrote db (create_job job key db).1
unfolding create_job
create_job-Wrote job key db =
    let keyed : WorkspaceJob = record job { idempotency_key = key } in
    rw (after_clash_same keyed (transaction (try_create keyed) db)) (
      transaction-keeps (Wrote db) (try_create keyed) db (Steps.stay refl)
        (try_create-Wrote keyed db))

update-none :
    (id : String) (f : WorkspaceJob → WorkspaceJob) (js : List WorkspaceJob)
    → lookup job_key id js ≡ none
    → update job_key id f js ≡ js
unfolding lookup update
update-none id f [] h = refl
update-none id f (j ∷ js) h = ground (arith, update-none id f js)

update-same :
    (id : String) (f : WorkspaceJob → WorkspaceJob) (js : List WorkspaceJob) {j : WorkspaceJob}
    → lookup job_key id js ≡ some j
    → f j ≡ j
    → update job_key id f js ≡ js
unfolding lookup update
update-same id f [] h e = refl
update-same id f (k ∷ js) {j} h e = ground (arith, update-same id f js {j = j})

running-is_change : (s : JobStatus) → is_running s ≡ true → is_change s JobStatus.queued ≡ true
running-is_change JobStatus.queued h = absurd (cc)
running-is_change JobStatus.running h = refl
running-is_change JobStatus.succeeded h = absurd (cc)
running-is_change JobStatus.failed h = absurd (cc)
running-is_change JobStatus.cancelled h = absurd (cc)

requeued-is_change :
    (j : WorkspaceJob) → is_running j.status ≡ true → is_change j.status (requeued j).status ≡ true
requeued-is_change j h = rw h (running-is_change j.status h)

requeue-Steps : (id : String) (js : List WorkspaceJob) → Steps js (update job_key id requeued js)
requeue-Steps id js = elim (Option-cases (lookup job_key id js)) [
  | inl e ↦ Steps.stay (update-none id requeued js e)
  | inr (j, e) ↦ elim (Bool-cases (is_running j.status)) [
    | inl r ↦
        Steps.move id requeued {j = j} e (requeued-is_change j r) (λ x. ground arith)
          (λ x. ground arith) refl
    | inr r ↦ Steps.stay (update-same id requeued js e (rw r refl))
  ]
]

recover_rows-Wrote :
    (now : ℕ) (rows : List WorkspaceJob) (db : Db) → Wrote db (recover_rows now rows db).1
unfolding recover_rows
recover_rows-Wrote now [] db = Steps.stay refl
recover_rows-Wrote now (row ∷ rows) db =
    bind-then (Wrote db) (Wrote db)
      (insert_event row.job_id "queued" "Workspace operation queued." [] now) _
      (update_job_row row.job_id requeued db)
      (Steps.both (requeue-Steps row.job_id db.jobs)
        (Steps.stay (insert_event-jobs row.job_id "queued" "Workspace operation queued." [] now _)))
      (λ _ h. h)
      (λ _ s h.
        bind-then (Wrote db) (Wrote db) (job_row row.job_id) _ s (read_job-Wrote row.job_id db s h)
          (λ _ h. h)
          (λ _ t k.
            bind-then (Wrote db) (Wrote db) (recover_rows now rows) _ t
              (Steps.both k (recover_rows-Wrote now rows t)) (λ _ h. h) (λ _ u l. l)))

pub recover_running_jobs-Wrote : (now : ℕ) (db : Db) → Wrote db (recover_running_jobs now db).1
unfolding recover_running_jobs
recover_running_jobs-Wrote now db =
    transaction-keeps (Wrote db) (recover_rows now (jobs_with is_running db)) db (Steps.stay refl)
      (recover_rows-Wrote now (jobs_with is_running db) db)
