-- ===== src/Runtime/Store.antt =====
-- exam_predictor/runtime/store.py: the tables agent_runs and agent_events, and each method of
-- RuntimeStore as one transaction. A refused transaction leaves no new tables behind.
pub mod Workspaces
pub mod Recovery
pub mod Laws
use Prim.Native.String.{◌++◌ as ◌<>◌}
use exam_sage.Common.{
  ℕ, zero, suc, ◌+◌, ◌≤◌, ◌<◌, ◌≡◌, refl, String, Bool, true, false, ◌&&◌, ◌||◌, not, Option, none,
  some, List, [], ◌∷◌, ◌++◌, map, ltb, leb, if◌then◌else◌, is_none, get_or, filter, any, head?,
  Result, ok, err, key_error, value_error, integrity_error, ◌==◌, order_by,
}
use exam_sage.Common.Table.{lookup, update}
use exam_sage.Runtime.Models.{
  RunStatus, EventType, AgentEvent, RunSnapshot, Payload, completed, failed,
}

-- The database: rows in the order of their rowids, and the AUTOINCREMENT counter of agent_events.
pub record Db : Type 0 where
  pub runs : List RunSnapshot
  pub events : List AgentEvent
  pub last_sequence : ℕ

abbrev pub empty_db : Db
empty_db = record { runs = []; events = []; last_sequence = 0 }

abbrev pub run_key : RunSnapshot → String
run_key r = r.run_id

or_key_error {ℓ} : {A : Type ℓ} → Option A → Result A
or_key_error none = err key_error
or_key_error (some x) = ok x

-- get_run
unfoldable pub get_run : String → Db → Result RunSnapshot
unfolding or_key_error
get_run run_id db = or_key_error (lookup run_key run_id db.runs)

-- ORDER BY created_at ASC, rowid ASC
abbrev pub created_no_later : RunSnapshot → RunSnapshot → Bool
created_no_later a b = leb a.created_at b.created_at

-- SELECT * FROM agent_runs WHERE ... ORDER BY created_at ASC, rowid ASC
unfoldable pub select_runs : (RunSnapshot → Bool) → Db → List RunSnapshot
select_runs test db = order_by created_no_later (filter test db.runs)

-- The statuses of active_run.
abbrev pub is_active : RunStatus → Bool
is_active RunStatus.running = true
is_active RunStatus.stopping = true
is_active RunStatus.paused = true
is_active _ = false

abbrev pub is_queued : RunStatus → Bool
is_queued RunStatus.queued = true
is_queued _ = false

-- {RunStatus.RUNNING, RunStatus.STOPPING}
abbrev pub is_busy : RunStatus → Bool
is_busy RunStatus.running = true
is_busy RunStatus.stopping = true
is_busy _ = false

unfoldable pub active_run : Db → Option RunSnapshot
active_run db = head? (select_runs (λ r. is_active r.status) db)

unfoldable pub next_queued_run : Db → Option RunSnapshot
next_queued_run db = head? (select_runs (λ r. is_queued r.status) db)

-- f"workspace:{workspace_id}"
abbrev pub workspace_thread : String → String
workspace_thread workspace_id = ◌<>◌ "workspace:" workspace_id

mismatched_thread : String → Option String → Bool
mismatched_thread thread_id none = false
mismatched_thread thread_id (some w) = not (thread_id == workspace_thread w)

-- create_run; `run_id` is the drawn uuid, and `now` the clock's reading.
unfoldable pub create_run :
    (run_id thread_id provider_profile_id message : String)
    → RunStatus
    → Option String
    → (now : ℕ) → Db
    → Result (RunSnapshot × Db)
unfolding mismatched_thread
create_run run_id thread_id profile message status workspace_id now db =
    let row : RunSnapshot = record {
      run_id = run_id;
      thread_id = thread_id;
      provider_profile_id = profile;
      workspace_id = workspace_id;
      message = message;
      status = status;
      error = none;
      created_at = now;
      updated_at = now;
    } in
    if mismatched_thread thread_id workspace_id
    then err value_error
    else if is_none (lookup run_key run_id db.runs)
    then ok (row, record db { runs = db.runs ++ row ∷ [] })
    else err integrity_error

abbrev pub write_status : RunStatus → Option String → ℕ → RunSnapshot → RunSnapshot
write_status status error now r = record r { status = status; error = error; updated_at = now }

unfoldable pub update_run : String → RunStatus → Option String → ℕ → Db → Db
update_run run_id status error now db = record db {
  runs = update run_key run_id (write_status status error now) db.runs;
}

-- set_status
unfoldable pub set_status : String → RunStatus → Option String → ℕ → Db → Result Db
unfolding update_run
set_status run_id status error now db =
    if is_none (lookup run_key run_id db.runs)
    then err key_error
    else ok (update_run run_id status error now db)

abbrev pub new_event : String → EventType → String → String → Payload → ℕ → Db → AgentEvent
new_event run_id event_type stage message payload now db = record {
  sequence = db.last_sequence + 1;
  run_id = run_id;
  event_type = event_type;
  stage = stage;
  message = message;
  payload = payload;
  created_at = now;
}

unfoldable pub insert_event : String → EventType → String → String → Payload → ℕ → Db → Db
insert_event run_id event_type stage message payload now db = record db {
  events = db.events ++ new_event run_id event_type stage message payload now db ∷ [];
  last_sequence = db.last_sequence + 1;
}

-- append_event; the foreign key refuses an event of a run that is not there.
unfoldable pub append_event :
    String → EventType → (stage message : String) → Payload → (now : ℕ) → Db → Result Db
unfolding insert_event
append_event run_id event_type stage message payload now db =
    if is_none (lookup run_key run_id db.runs)
    then err integrity_error
    else ok (insert_event run_id event_type stage message payload now db)

-- set_status_and_append_event: both writes or none.
unfoldable pub set_status_and_append_event :
    String
    → RunStatus
    → EventType
    → (stage message : String) → Payload
    → Option String
    → (now : ℕ) → Db
    → Result Db
unfolding update_run insert_event
set_status_and_append_event run_id status event_type stage message payload error now db =
    if is_none (lookup run_key run_id db.runs)
    then err key_error
    else ok (
        insert_event run_id event_type stage message payload now
          (update_run run_id status error now db))

-- list_events; the rows stand in the order of their sequence numbers.
unfoldable pub list_events : String → (after : ℕ) → Db → List AgentEvent
list_events run_id after db = filter (λ e. e.run_id == run_id && ltb after e.sequence) db.events

-- list_by_status, for a set of statuses given by its test
unfoldable pub list_by_status : (RunStatus → Bool) → Db → List RunSnapshot
unfolding select_runs
list_by_status statuses db = select_runs (λ r. statuses r.status) db
