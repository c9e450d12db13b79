-- ===== src/Runtime/Coordinator/Execute/Scenarios.antt =====
-- Runs of the coordinator on two small databases.
use exam_sage.Common.{
  ◌≤◌, String, ◌≡◌, refl, false, none, [], ◌∷◌, ◌++◌, length, filter, map, arith, order_by,
}
use exam_sage.Common.Table.{lookup, update}
use exam_sage.Common.Table.Keys.{keys_of}
use exam_sage.Runtime.Models.{RunStatus, RunSnapshot}
use exam_sage.Runtime.Store.{
  Db, empty_db, run_key, is_active, is_busy, is_queued, select_runs, active_run, next_queued_run,
  create_run, append_event, insert_event, list_events, get_run, set_status_and_append_event,
  update_run,
}
use exam_sage.Runtime.Store.Recovery.{recover_unfinished, recover_runs, unfinished_rows}
use exam_sage.Runtime.Store.Recovery.Laws.{status_of, recovered_option, recover_unfinished-status}
use exam_sage.Runtime.Coordinator.{
  Coordinator, new, submit_message, start_worker, start_recovered, start_next, start_queued,
  announce, starts_at_once,
}
use exam_sage.Runtime.Coordinator.Execute.{
  GraphOutcome, take_command, finish_execution, handle, begin, prepare, last_sequence, conclude,
  settle, discard, after,
}
use exam_sage.Runtime.Coordinator.Execute.Progress.{executing_ids}
use exam_sage.Runtime.Coordinator.Phase.{command_ids}
use exam_sage.Runtime.Coordinator.Boot.{IsSound}
use exam_sage.Runtime.Coordinator.Reach.{
  submits, takes, finishes, Reach, boots, goes_on, at_most_one_active, busy_runs_are_pending,
  queue_never_stalls, worker_takes_run,
}

abbrev run_named : String → RunStatus → RunSnapshot
run_named run_id status = record {
  run_id = run_id;
  thread_id = "thread";
  provider_profile_id = "profile";
  workspace_id = none;
  message = "hello";
  status = status;
  error = none;
  created_at = 1;
  updated_at = 1;
}

-- One run was cut off, and one waits behind it.
abbrev left_behind : Db
left_behind = record {
  runs = run_named "first" RunStatus.running ∷ run_named "second" RunStatus.queued ∷ [];
  events = [];
  last_sequence = 0;
}

left_behind-IsSound : IsSound left_behind
unfolding lookup keys_of
left_behind-IsSound = record { unique = (refl, (refl, tt)); single = omega arith }

empty_db-IsSound : IsSound empty_db
unfolding lookup keys_of
empty_db-IsSound = record { unique = tt; single = omega arith }

abbrev booted : Db → Coordinator
booted db = (start_worker ("profile" ∷ []) 5 (new db)).1

abbrev asked : Db → Coordinator
asked db = (submit_message (λ _. none) "third" "thread" "profile" "hi" none 6 (booted db)).1

asked-Reach : (db : Db) → Reach db (asked db)
asked-Reach db =
    goes_on (boots ("profile" ∷ []) 5) (submits (λ _. none) "third" "thread" "profile" "hi" none 6)

at_most_one_active_example :
    length (filter (λ r. is_active r.status) (asked left_behind).db.runs) ≤ 1
at_most_one_active_example =
    at_most_one_active left_behind (asked left_behind) left_behind-IsSound (asked-Reach left_behind)

busy_runs_are_pending_example :
    map run_key (filter (λ r. is_busy r.status) (asked empty_db).db.runs)
    ≡ executing_ids (asked empty_db).executing ++ command_ids (asked empty_db).commands
busy_runs_are_pending_example =
    busy_runs_are_pending empty_db (asked empty_db) empty_db-IsSound (asked-Reach empty_db)

recover_unfinished-status_example :
    status_of (recover_unfinished 5 left_behind).1 "first"
    ≡ recovered_option (status_of left_behind "first")
recover_unfinished-status_example =
    recover_unfinished-status 5 left_behind "first" left_behind-IsSound.unique

asked_busy : map run_key (filter (λ r. is_busy r.status) (asked empty_db).db.runs) ≡ "third" ∷ []
unfolding start_worker start_recovered start_next start_queued submit_message announce
    starts_at_once recover_unfinished recover_runs unfinished_rows select_runs order_by active_run
    next_queued_run create_run append_event insert_event lookup
asked_busy = refl

asked_open : ((asked empty_db).shutdown_requested ≡ false) × ((asked empty_db).executing ≡ none)
unfolding start_worker start_recovered start_next start_queued submit_message announce
    starts_at_once recover_unfinished recover_runs unfinished_rows select_runs order_by active_run
    next_queued_run create_run append_event insert_event lookup
asked_open = (refl, refl)

worker_takes_run_example :
    executing_ids (take_command 7 none (asked empty_db)).executing ≡ "third" ∷ []
worker_takes_run_example =
    worker_takes_run empty_db (asked empty_db) 7 none "third" empty_db-IsSound
      (asked-Reach empty_db) asked_open.0 asked_open.1 asked_busy

-- The run has been executed.
abbrev done : Coordinator
done = finish_execution (GraphOutcome.returned []) 8 (take_command 7 none (asked empty_db))

done-Reach : Reach empty_db done
done-Reach =
    goes_on (goes_on (asked-Reach empty_db) (takes 7 none)) (finishes (GraphOutcome.returned []) 8)

done_calm :
    (done.shutdown_requested ≡ false)
    × (filter (λ r. is_active r.status) done.db.runs ≡ [])
    × (map (λ r. r.status) done.db.runs ≡ RunStatus.completed ∷ [])
unfolding start_worker start_recovered start_next start_queued submit_message announce
    starts_at_once recover_unfinished recover_runs unfinished_rows select_runs order_by active_run
    next_queued_run create_run append_event insert_event lookup update take_command handle begin
    prepare last_sequence finish_execution conclude settle discard after list_events get_run
    set_status_and_append_event update_run
done_calm = (refl, refl, refl)

queue_never_stalls_example : filter (λ r. is_queued r.status) done.db.runs ≡ []
queue_never_stalls_example =
    queue_never_stalls empty_db done empty_db-IsSound done-Reach done_calm.0 done_calm.1
