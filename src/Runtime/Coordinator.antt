-- ===== src/Runtime/Coordinator.antt =====
-- exam_predictor/runtime/coordinator.py: RuntimeCoordinator, the queue of its worker thread, and the
-- worker's handling of one command, split where the code releases its lock to run the graph.
pub mod Execute
pub mod Phase
pub mod Invariant
pub mod Submit
pub mod Requests
pub mod Boot
pub mod Reach
use exam_sage.Common.{
  ℕ, String, Bool, true, false, Option, none, some, List, [], ◌∷◌, ◌++◌, if◌then◌else◌, any, Method,
  Result, ok, err, ◌>>=◌, ◌>>◌, pure, raise, gets, modify, ensure, key_error, value_error,
  runtime_error, ◌==◌, not, is_none,
}
use exam_sage.Runtime.Models.{RunStatus, EventType, RunSnapshot, Payload}
use exam_sage.Runtime.Control.{Registry}
use exam_sage.Runtime.Control
use exam_sage.Runtime.Store.{Db, is_busy, workspace_thread}
use exam_sage.Workspace.Models.{WorkspaceState}
use exam_sage.Runtime.Store
use exam_sage.Runtime.Store.Workspaces
use exam_sage.Runtime.Store.Recovery

-- The first word of a command, "start" or "resume".
pub data CommandKind : Type 0 where
  start resume : CommandKind

pub record Command : Type 0 where
  pub kind : CommandKind
  pub run_id : String

-- `_thread`: None, alive, or ended.
pub data WorkerThread : Type 0 where
  absent alive ended : WorkerThread

-- How `graph.invoke` is called for a run.
pub data GraphCall : Type 0 where
  initial_state resume_command continue_pending saved_values : GraphCall

-- A run that the worker has taken from the queue, up to the end of `graph.invoke`.
pub record Execution : Type 0 where
  pub command : Command
  pub event_cursor : ℕ
  pub call : Result GraphCall

pub record Coordinator : Type 0 where
  pub db : Db
  pub controls : Registry
  pub commands : List (Option Command)
  pub executing : Option Execution
  pub worker : WorkerThread
  pub shutdown_requested : Bool
  pub connected : List String

-- A new process on a database.
abbrev pub new : Db → Coordinator
new db = record {
  db = db;
  controls = [];
  commands = [];
  executing = none;
  worker = absent;
  shutdown_requested = false;
  connected = [];
}

-- A transaction of the store, from a method.
abbrev commit : Result Db → Method Coordinator Unit
commit (ok db) c = (ok tt, record c { db = db })
commit (err e) c = (err e, c)

abbrev pub write : (Db → Result Db) → Method Coordinator Unit
write f c = commit (f c.db) c

abbrev pub put : Option Command → Method Coordinator Unit
put command = modify (λ c. record c { commands = c.commands ++ command ∷ [] })

abbrev pub is_alive : WorkerThread → Bool
is_alive alive = true
is_alive _ = false

-- _ensure_accepting_commands
abbrev ensure_accepting_commands : Method Coordinator Unit
ensure_accepting_commands c = ensure (not c.shutdown_requested) runtime_error c

-- provider_sessions.get_provider
abbrev get_provider : String → Method Coordinator Unit
get_provider profile c = ensure (any (λ p. p == profile) c.connected) key_error c

start_queued : ℕ → Option RunSnapshot → Method Coordinator Unit
unfolding Store.set_status Store.append_event
start_queued now none = pure tt
start_queued now (some queued) = do
  write (Store.set_status queued.run_id RunStatus.running none now)
  write (Store.append_event queued.run_id EventType.started "queue" "Queued run started." [] now)
  put (some (record { kind = start; run_id = queued.run_id }))

-- _start_next
pub start_next : ℕ → Method Coordinator Unit
unfolding start_queued
start_next now c =
    if c.shutdown_requested
    then (ok tt, c)
    else if is_none (Store.active_run c.db)
    then start_queued now (Store.next_queued_run c.db) c
    else (ok tt, c)

abbrev accepts_runs : Option WorkspaceState → Method Coordinator Unit
accepts_runs none = raise key_error
accepts_runs (some WorkspaceState.deleting) = raise value_error
accepts_runs (some WorkspaceState.cleanup_pending) = raise value_error
accepts_runs (some _) = pure tt

-- The thread of a new run: a workspace has one of its own.
abbrev thread_of : String → Option String → String
thread_of thread_id none = thread_id
thread_of thread_id (some w) = workspace_thread w

abbrev check_workspace : (String → Option WorkspaceState) → Option String → Method Coordinator Unit
check_workspace get_workspace none = pure tt
check_workspace get_workspace (some w) = accepts_runs (get_workspace w)

abbrev insert_run : Result (RunSnapshot × Db) → Method Coordinator RunSnapshot
insert_run (ok (run, db)) c = (ok run, record c { db = db })
insert_run (err e) c = (err e, c)

-- The end of submit_message, for a run that has been created.
announce : ℕ → Bool → Bool → RunSnapshot → Method Coordinator RunSnapshot
unfolding start_next Store.append_event
announce now true idle run = do
  write (Store.append_event run.run_id EventType.started "queue" "Agent run started." [] now)
  put (some (record { kind = start; run_id = run.run_id }))
  pure run
announce now false idle run = do
  write (
      Store.append_event run.run_id EventType.queued "queue" "Message queued behind the active run."
        [] now)
  if idle then start_next now else pure tt
  pure run

-- Nothing active and nothing queued.
starts_at_once : Db → Bool
starts_at_once db =
    if is_none (Store.active_run db) then is_none (Store.next_queued_run db) else false

-- submit_message; `get_workspace` is the workspace repository's answer, `run_id` the drawn uuid.
pub submit_message :
    (get_workspace : String → Option WorkspaceState)
    → (run_id thread_id provider_profile_id message : String) → Option String
    → (now : ℕ) → Method Coordinator RunSnapshot
unfolding announce starts_at_once Store.create_run
submit_message get_workspace run_id thread_id profile message workspace_id now = do
  ensure_accepting_commands
  get_provider profile
  check_workspace get_workspace workspace_id
  at_once ← gets (λ c. starts_at_once c.db)
  idle ← gets (λ c. is_none (Store.active_run c.db))
  run ← λ c.
      insert_run
        (Store.create_run run_id (thread_of thread_id workspace_id) profile message
          (if at_once then RunStatus.running else RunStatus.queued) workspace_id now c.db)
        c
  announce now at_once idle run

abbrev find_run : String → Method Coordinator RunSnapshot
find_run run_id c = (Store.get_run run_id c.db, c)

abbrev is_running : RunStatus → Bool
is_running RunStatus.running = true
is_running _ = false

abbrev is_paused : RunStatus → Bool
is_paused RunStatus.paused = true
is_paused _ = false

-- stop
pub stop : String → (now : ℕ) → Method Coordinator Unit
unfolding Store.get_run Store.set_status Store.append_event
stop run_id now = do
  run ← find_run run_id
  ensure (is_running run.status) value_error
  modify (λ c. record c { controls = Control.request_stop run_id c.controls })
  write (Store.append_event run_id EventType.stop_requested "stopping" "Stop requested." [] now)
  write (Store.set_status run_id RunStatus.stopping none now)

-- resume
pub resume_run : String → (now : ℕ) → Method Coordinator Unit
unfolding Store.get_run Store.set_status
resume_run run_id now = do
  run ← find_run run_id
  ensure (is_paused run.status) value_error
  get_provider run.provider_profile_id
  ensure_accepting_commands
  write (Store.set_status run_id RunStatus.running none now)
  put (some (record { kind = resume; run_id = run_id }))

request_stops : List RunSnapshot → Registry → Registry
request_stops [] controls = controls
request_stops (r ∷ rs) controls = request_stops rs (Control.request_stop r.run_id controls)

-- pause_all
pub pause_all : Coordinator → Coordinator
unfolding request_stops
pause_all c = record c { controls = request_stops (Store.list_by_status is_busy c.db) c.controls }

abbrev sentinel_for : WorkerThread → List (Option Command)
sentinel_for absent = []
sentinel_for _ = none ∷ []

close : Bool → Coordinator → Coordinator
close true c = c
close false c = record c {
  shutdown_requested = true;
  commands = c.commands ++ sentinel_for c.worker;
}

-- shutdown, up to the wait for the thread
pub shutdown : Coordinator → Coordinator
unfolding pause_all close
shutdown c = close c.shutdown_requested (pause_all c)

start_recovered : ℕ → Method Coordinator Unit
unfolding start_next
start_recovered now c = if is_none (Store.active_run c.db) then start_next now c else (ok tt, c)

-- start; `restored` are the profiles that _restore_saved_profiles connects.
pub start_worker : (restored : List String) → (now : ℕ) → Method Coordinator Unit
unfolding start_recovered
start_worker restored now c =
    if is_alive c.worker
    then (ok tt, c)
    else if c.shutdown_requested
    then (err runtime_error, c)
    else start_recovered now (record c {
      db = (Recovery.recover_unfinished now c.db).1;
      connected = c.connected ++ restored;
      worker = alive;
    })

-- delete_settled_workspace_runs; `cleanup_failed` tells whether the checkpoint saver raised.
pub delete_workspace_runs : String → (cleanup_failed : Bool) → Method Coordinator Unit
delete_workspace_runs workspace_id cleanup_failed c =
    if Workspaces.has_unsettled_runs workspace_id c.db
    then (err value_error, c)
    else if cleanup_failed
    then (err runtime_error, c)
    else write (Workspaces.delete_settled_workspace_runs workspace_id) c
