-- ===== src/Workspace/Store/Jobs/Progress.antt =====
-- The cap on the progress events of a job.
use exam_sage.Common.{
  ℕ, ◌≤◌, ◌+◌, String, Bool, true, false, Option, none, some, List, [], ◌∷◌, ◌++◌, count, filter,
  leb, if_both, ◌≡◌, refl, sym, ap, ◌∙◌, arith, Method, ensure, or_raise, after_check,
  transaction-keeps, or_raise_same, ensure_same, not_found, runtime_error, active_operation, eq_iff,
}
use exam_sage.Workspace.Models.{ScanProgress, WorkspaceEvent, PayloadValue}
use exam_sage.Workspace.Store.{Db, find_job, job_row, is_running}
use exam_sage.Workspace.Store.Events.{Payload, insert_event, validate_event, new_event, store_event}
use exam_sage.Workspace.Store.Jobs.{
  append_progress, record_progress, progress_path, is_progress, last_of, progress_payload,
}
use exam_sage.Workspace.Store.Jobs.Writes.{validate_same}

pub count-append :
    (p : WorkspaceEvent → Bool) (xs ys : List WorkspaceEvent)
    → count p (xs ++ ys) ≡ count p xs + count p ys
count-append p [] ys = omega arith
count-append p (x ∷ xs) ys = ground (arith, count-append p xs ys)

count-filter :
    (p : WorkspaceEvent → Bool) (xs : List WorkspaceEvent)
    → count (λ e. true) (filter p xs) ≡ count p xs
count-filter p [] = refl
count-filter p (x ∷ xs) = ground (arith, count-filter p xs)

-- The number of the progress events of a job
abbrev pub reports : String → Db → ℕ
reports k db = count (is_progress k) db.events

-- Every job has at most 256 of them.
abbrev pub IsCapped : Db → Type 0
IsCapped db = (k : String) → reports k db ≤ 256

stored-IsCapped :
    (id message : String) (p : Payload) (now : ℕ) (db : Db)
    → leb 256 (reports id db) ≡ false
    → IsCapped db
    → IsCapped (insert_event id "scan_progress" message p now db).1
unfolding insert_event store_event new_event
stored-IsCapped id message p now db free h =
    after_check IsCapped (validate_event "scan_progress" message p) _ db
      (validate_same "scan_progress" message p db) h
      (λ _ _ k. ground (
        arith,
        h k,
        eq_iff id k,
        count-append (is_progress k) db.events (new_event id "scan_progress" message p now db ∷ []),
      ))

record_progress-IsCapped :
    (now : ℕ) (id : String) (progress : ScanProgress) (path : PayloadValue) (db : Db)
    → IsCapped db
    → IsCapped (record_progress now id progress path db).1
unfolding record_progress
record_progress-IsCapped now id progress path db h =
    after_check IsCapped (job_row id) _ db (or_raise_same not_found (find_job id db) db) h (λ job _.
      after_check IsCapped (ensure (is_running job.status) active_operation) _ db
        (ensure_same _ active_operation db) h
        (λ _ _.
          if_both (λ (m : Method Db WorkspaceEvent). IsCapped (m db).1)
            (leb 256 (count (λ e. true) (filter (is_progress id) db.events)))
            (or_raise runtime_error (last_of (filter (is_progress id) db.events)))
            (insert_event id "scan_progress" "Scanning course files."
              (progress_payload progress path) now)
            (λ _.
              rw (or_raise_same runtime_error (last_of (filter (is_progress id) db.events)) db) h)
            (λ free.
              stored-IsCapped id "Scanning course files." (progress_payload progress path) now db
                (ap (leb 256) (sym (count-filter (is_progress id) db.events)) ∙ free) h)))

progress_path_same : (o : Option String) (db : Db) → (progress_path o db).1 ≡ db
progress_path_same none db = refl
progress_path_same (some value) db = refl

pub append_progress-IsCapped :
    (now : ℕ) (id : String) (progress : ScanProgress) (db : Db)
    → IsCapped db
    → IsCapped (append_progress now id progress db).1
unfolding append_progress
append_progress-IsCapped now id progress db h =
    after_check IsCapped (progress_path progress.current_relative_path) _ db
      (progress_path_same progress.current_relative_path db) h
      (λ path _.
        transaction-keeps IsCapped (record_progress now id progress path) db h
          (record_progress-IsCapped now id progress path db h))
