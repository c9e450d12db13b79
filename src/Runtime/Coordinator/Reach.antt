-- ===== src/Runtime/Coordinator/Reach.antt =====
-- All that can happen to a coordinator, and what holds in every state that it reaches.
use exam_sage.Common.{
  ℕ, ◌≤◌, String, ◌≡◌, refl, sym, ap, ◌∙◌, Bool, false, Option, none, List, [], ◌∷◌, ◌++◌, length,
  filter, map, arith, length-map,
}
use exam_sage.Common.Table.Keys.{keys_of-eq-map}
use exam_sage.Runtime.Models.{RunStatus, EventType, RunSnapshot, Payload}
use exam_sage.Runtime.Store.{Db, run_key, is_active, is_busy, is_queued}
use exam_sage.Runtime.Store.Laws.{ids_with, busy_nil}
use exam_sage.Workspace.Models.{WorkspaceState}
use exam_sage.Runtime.Coordinator.{
  Coordinator, new, submit_message, stop, resume_run, pause_all, shutdown, start_worker,
  delete_workspace_runs,
}
use exam_sage.Runtime.Coordinator.Execute.{
  Checkpoint, GraphOutcome, take_command, emit, finish_execution,
}
use exam_sage.Runtime.Coordinator.Execute.Keeps.{take_command-Inv, emit-Inv}
use exam_sage.Runtime.Coordinator.Execute.Concludes.{finish_execution-Inv}
use exam_sage.Runtime.Coordinator.Execute.Progress.{executing_ids, take_command_takes}
use exam_sage.Runtime.Coordinator.Phase.{idle, started, command_ids}
use exam_sage.Runtime.Coordinator.Invariant.{Phase, at_rest, paused, working, Inv, Inv-same}
use exam_sage.Runtime.Coordinator.Submit.{submit_message-Inv}
use exam_sage.Runtime.Coordinator.Requests.{
  stop-Inv, resume_run-Inv, pause_all-Inv, shutdown-Inv, delete_workspace_runs-Inv,
}
use exam_sage.Runtime.Coordinator.Boot.{IsSound, start_worker-Inv, restart-Inv}

-- One atomic step: a call by a client, a part of the worker's loop between two of its locks, or a
-- change of the connected providers. The arguments and the clock are the environment's.
pub data Step (c : Coordinator) : Coordinator → Type 0 where
  submits :
      (get_workspace : String → Option WorkspaceState) (run_id thread_id profile message : String)
      (workspace_id : Option String) (now : ℕ)
      → Step c (submit_message get_workspace run_id thread_id profile message workspace_id now c).1
  stops : (run_id : String) (now : ℕ) → Step c (stop run_id now c).1
  resumes : (run_id : String) (now : ℕ) → Step c (resume_run run_id now c).1
  pauses_all : Step c (pause_all c)
  shuts_down : Step c (shutdown c)
  starts : (restored : List String) (now : ℕ) → Step c (start_worker restored now c).1
  deletes :
      (workspace_id : String) (cleanup_failed : Bool)
      → Step c (delete_workspace_runs workspace_id cleanup_failed c).1
  connects : (profiles : List String) → Step c (record c { connected = profiles })
  takes : (now : ℕ) (checkpoint : Option Checkpoint) → Step c (take_command now checkpoint c)
  emits :
      (run_id : String) (event_type : EventType) (stage message : String) (payload : Payload)
      (now : ℕ)
      → Step c (emit run_id event_type stage message payload now c).1
  finishes : (outcome : GraphOutcome) (now : ℕ) → Step c (finish_execution outcome now c)

-- The states behind a first start on a sound database.
pub data Reach (db : Db) : Coordinator → Type 0 where
  boots : (restored : List String) (now : ℕ) → Reach db (start_worker restored now (new db)).1
  goes_on : {c d : Coordinator} → Reach db c → Step c d → Reach db d

Step-Inv : {c d : Coordinator} → Step c d → Inv c → Inv d
Step-Inv {c} (submits g i t p m w now) h = submit_message-Inv g i t p m w now c h
Step-Inv {c} (stops i now) h = stop-Inv i now c h
Step-Inv {c} (resumes i now) h = resume_run-Inv i now c h
Step-Inv {c} pauses_all h = pause_all-Inv c h
Step-Inv {c} shuts_down h = shutdown-Inv c h
Step-Inv {c} (starts restored now) h = restart-Inv restored now c h
Step-Inv {c} (deletes w failed) h = delete_workspace_runs-Inv w failed c h
Step-Inv {c} (connects ps) h =
    Inv-same (record { commands = refl; executing = refl; worker = refl; shutdown = refl }) refl
      refl (λ _. refl) h h.unique
Step-Inv {c} (takes now k) h = take_command-Inv now k c h
Step-Inv {c} (emits i t s m p now) h = emit-Inv i t s m p now c h
Step-Inv {c} (finishes o now) h = finish_execution-Inv o now c h

pub Reach-Inv : {db : Db} {c : Coordinator} → IsSound db → Reach db c → Inv c
Reach-Inv {db} s (boots restored now) = (start_worker-Inv restored now db s).1
Reach-Inv s (goes_on r st) = Step-Inv st (Reach-Inv s r)

single_ids : (c : Coordinator) → Phase c → length (ids_with is_active c.db) ≤ 1
single_ids c (at_rest x (idle a n w)) = rw a (omega arith)
single_ids c (at_rest x (started k a b n)) = rw a (omega arith)
single_ids c (paused k x a b n) = rw a (omega arith)
single_ids c (working e x a b n) = rw a (omega arith)

-- In every state that steps reach behind a start on a sound database, at most one run is running,
-- stopping or paused.
pub at_most_one_active :
    (db : Db) (c : Coordinator)
    → IsSound db
    → Reach db c
    → length (filter (λ r. is_active r.status) c.db.runs) ≤ 1
at_most_one_active db c s r =
    let small = single_ids c (Reach-Inv s r).phase in
    let same : length (ids_with is_active c.db)
        ≡ length (filter (λ r. is_active r.status) c.db.runs) =
      ap length (keys_of-eq-map run_key (λ r. is_active r.status) c.db.runs) ∙ length-map _ _ in
    omega arith

pending :
    (c : Coordinator)
    → Phase c
    → ids_with is_busy c.db ≡ executing_ids c.executing ++ command_ids c.commands
pending c (at_rest x (idle a n w)) = rw (x, n) (busy_nil c.db a)
pending c (at_rest x (started k a b n)) = rw (x, n) b
pending c (paused k x a b n) = rw (x, n) b
pending c (working e x a b n) = rw (x, n) b

-- In every state that steps reach behind a start on a sound database, the ids of the runs that are
-- running or stopping are the id of the run that the worker has in hand, if any, followed by the ids
-- of the commands in its queue.
pub busy_runs_are_pending :
    (db : Db) (c : Coordinator)
    → IsSound db
    → Reach db c
    → map run_key (filter (λ r. is_busy r.status) c.db.runs)
      ≡ executing_ids c.executing ++ command_ids c.commands
busy_runs_are_pending db c s r =
    sym (keys_of-eq-map run_key (λ r. is_busy r.status) c.db.runs) ∙ pending c (Reach-Inv s r).phase

calm_ids :
    (c : Coordinator) (test : RunStatus → Bool)
    → filter (λ r. test r.status) c.db.runs ≡ []
    → ids_with test c.db ≡ []
calm_ids c test e = keys_of-eq-map run_key (λ r. test r.status) c.db.runs ∙ ap (map run_key) e

none_waits :
    (c : Coordinator)
    → Phase c
    → c.shutdown_requested ≡ false
    → ids_with is_active c.db ≡ []
    → ids_with is_queued c.db ≡ []
none_waits c (at_rest x (idle a n w)) open_ e = w open_
none_waits c (at_rest x (started k a b n)) open_ e = absurd (cc)
none_waits c (paused k x a b n) open_ e = absurd (cc)
none_waits c (working f x a b n) open_ e = absurd (cc)

nil_of_map : (rs : List RunSnapshot) → map run_key rs ≡ [] → rs ≡ []
nil_of_map [] e = refl
nil_of_map (r ∷ rs) e = absurd (cc)

-- In every state that steps reach behind a start on a sound database, if no shutdown was asked for
-- and no run is running, stopping or paused, then no run is queued.
pub queue_never_stalls :
    (db : Db) (c : Coordinator)
    → IsSound db
    → Reach db c
    → c.shutdown_requested ≡ false
    → filter (λ r. is_active r.status) c.db.runs ≡ []
    → filter (λ r. is_queued r.status) c.db.runs ≡ []
queue_never_stalls db c s r open_ e = nil_of_map (filter (λ r. is_queued r.status) c.db.runs) (
    sym (keys_of-eq-map run_key (λ r. is_queued r.status) c.db.runs)
    ∙ none_waits c (Reach-Inv s r).phase open_ (calm_ids c is_active e))

-- In every state that steps reach behind a start on a sound database, if no shutdown was asked for,
-- the worker has nothing in hand and one run is running or stopping, then the worker's next turn
-- takes that run in hand.
pub worker_takes_run :
    (db : Db) (c : Coordinator) (now : ℕ) (checkpoint : Option Checkpoint) (k : String)
    → IsSound db
    → Reach db c
    → c.shutdown_requested ≡ false
    → c.executing ≡ none
    → map run_key (filter (λ r. is_busy r.status) c.db.runs) ≡ k ∷ []
    → executing_ids (take_command now checkpoint c).executing ≡ k ∷ []
worker_takes_run db c now checkpoint k s r open_ x b =
    take_command_takes now checkpoint c (Reach-Inv s r) x k open_
      (keys_of-eq-map run_key (λ r. is_busy r.status) c.db.runs ∙ b)
