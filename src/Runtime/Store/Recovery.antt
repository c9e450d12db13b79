-- ===== src/Runtime/Store/Recovery.antt =====
-- exam_predictor/runtime/store.py: recover_unfinished, run when the worker process starts.
pub mod Laws
use exam_sage.Common.{
  ℕ, String, Bool, true, false, Option, none, some, List, [], ◌∷◌, map, if◌then◌else◌, ◌==◌,
}
use exam_sage.Runtime.Models.{RunStatus, EventType, AgentEvent}
use exam_sage.Runtime.Store.{Db, select_runs, is_busy, update_run, insert_event}

-- The lifecycle events of the query.
abbrev is_lifecycle : EventType → Bool
is_lifecycle EventType.queued = true
is_lifecycle EventType.started = true
is_lifecycle EventType.stop_requested = true
is_lifecycle EventType.paused = true
is_lifecycle EventType.resumed = true
is_lifecycle EventType.completed = true
is_lifecycle EventType.failed = true
is_lifecycle _ = false

abbrev is_paused_event : Option EventType → Bool
is_paused_event (some EventType.paused) = true
is_paused_event _ = false

-- ORDER BY events.sequence DESC LIMIT 1, as a scan from the oldest event with the last answer kept.
unfoldable pub last_lifecycle_event : String → Option EventType → List AgentEvent → Option EventType
last_lifecycle_event run_id found [] = found
last_lifecycle_event run_id found (e ∷ es) =
    last_lifecycle_event run_id
      (if e.run_id == run_id
        then if is_lifecycle e.event_type then some e.event_type else found
        else found)
      es

abbrev paused_text : String
paused_text = "ExamSage stopped before this run completed. Select Resume to continue."

-- The body of the loop, for a row of the query.
unfoldable pub recover_run : ℕ → String × Option EventType → Db → Db
unfolding update_run insert_event
recover_run now (run_id, last) db =
    let paused = update_run run_id RunStatus.paused none now db in
    if is_paused_event last
    then paused
    else insert_event run_id EventType.paused "paused" paused_text [] now paused

unfoldable pub recover_runs : ℕ → List (String × Option EventType) → Db → Db
unfolding recover_run
recover_runs now [] db = db
recover_runs now (row ∷ rows) db = recover_runs now rows (recover_run now row db)

unfoldable pub unfinished_rows : Db → List (String × Option EventType)
unfolding last_lifecycle_event select_runs
unfinished_rows db =
    map (λ r. (r.run_id, last_lifecycle_event r.run_id none db.events))
      (select_runs (λ r. is_busy r.status) db)

-- The recovered ids, and the database.
unfoldable pub recover_unfinished : (now : ℕ) → Db → List String × Db
unfolding unfinished_rows recover_runs
recover_unfinished now db =
    (map (λ row. row.0) (unfinished_rows db), recover_runs now (unfinished_rows db) db)
