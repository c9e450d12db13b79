-- ===== src/Runtime/Coordinator/Requests.antt =====
-- stop, resume, pause_all, shutdown and the deletion of a workspace's runs keep the invariant.
use native.Mathlib.Omega.{arith}
use mathlib.Core.List.{append-nil}
use exam_sage.Common.{
  ℕ, String, ◌≡◌, refl, sym, ◌∙◌, Bool, true, false, ◌&&◌, not, Option, none, some, List, [], ◌∷◌,
  ◌++◌, inl, inr, Bool-cases, after_check, Result, ok, ensure, value_error, key_error,
  runtime_error, any, All-map, any-false, ◌==◌, ensure_same, ensure_passed, if_both,
}
use exam_sage.Common.Table.{IsUnique-filter}
use exam_sage.Common.Table.Keys.{keys_of-filter}
use exam_sage.Runtime.Control
use exam_sage.Runtime.Models.{RunStatus, EventType, RunSnapshot}
use exam_sage.Runtime.Store.{
  Db, run_key, is_active, is_busy, is_queued, get_run, update_run, insert_event,
}
use exam_sage.Runtime.Store.Workspaces.{
  belongs_to, is_unsettled, has_unsettled_runs, delete_runs, delete_settled_workspace_runs,
}
use exam_sage.Runtime.Store.Laws.{
  ids_with, find_row, HasUniqueIds-update_run, set_status_found, append_event_found,
  ids-update_same, ids-update_new,
}
use exam_sage.Runtime.Coordinator.{
  Coordinator, Command, resume, is_running, is_paused, stop, resume_run, pause_all, shutdown,
  find_run, delete_workspace_runs, get_provider, ensure_accepting_commands, WorkerThread, absent,
  alive, ended, sentinel_for, close,
}
use exam_sage.Runtime.Coordinator.Phase.{
  idle, started, command_ids, command_ids-append, has_sentinel-append, Settled,
}
use exam_sage.Runtime.Coordinator.Invariant.{
  Phase, at_rest, paused, working, Inv, Inv-same, resumable,
}

find_run-found :
    (id : String) (c : Coordinator) {r : RunSnapshot}
    → (find_run id c).0 ≡ ok r
    → find_row id c.db ≡ some r
unfolding get_run
find_run-found id c {r} e = ground arith

running_tests :
    (s : RunStatus)
    → is_running s ≡ true
    → (is_active s ≡ true) × (is_busy s ≡ true) × (is_queued s ≡ false)
running_tests s h = ground arith

paused_tests : (s : RunStatus) → is_paused s ≡ true → is_active s ≡ true
paused_tests s h = ground arith

-- stop, on a run that is running
module _ (id : String) (now : ℕ) (c : Coordinator) (h : Inv c) {r : RunSnapshot}
    (found : find_row id c.db ≡ some r) (run : is_running r.status ≡ true) where
  stopped_db : Db
  unfolding insert_event
  stopped_db =
      update_run id RunStatus.stopping none now
        (insert_event id EventType.stop_requested "stopping" "Stop requested." [] now c.db)

  stopped-Inv : Inv (record c { db = stopped_db; controls = Control.request_stop id c.controls })
  unfolding stopped_db
  stopped-Inv =
      let d : Db =
        insert_event id EventType.stop_requested "stopping" "Stop requested." [] now c.db in
      let (active, busy, queued) = running_tests r.status run in
      Inv-same (record { commands = refl; executing = refl; worker = refl; shutdown = refl })
        (ids-update_same id RunStatus.stopping none now d found is_active (sym active))
        (ids-update_same id RunStatus.stopping none now d found is_busy (sym busy))
        (λ _. ids-update_same id RunStatus.stopping none now d found is_queued (sym queued)) h
        (HasUniqueIds-update_run id RunStatus.stopping none now d h.unique)

-- A stop request that is refused changes nothing; an accepted one keeps the run active and busy.
pub stop-Inv : (id : String) (now : ℕ) (c : Coordinator) → Inv c → Inv (stop id now c).1
unfolding stop stopped_db insert_event
stop-Inv id now c h = after_check Inv (find_run id) _ c refl h λ r got.
    after_check Inv (ensure (is_running r.status) value_error) _ c
      (ensure_same (is_running r.status) value_error c) h
      λ _ run.
        let found = find_run-found id c got in
        rw
          (append_event_found id EventType.stop_requested "stopping" "Stop requested." [] now c.db
            found)
          (rw
            (set_status_found id RunStatus.stopping none now
              (insert_event id EventType.stop_requested "stopping" "Stop requested." [] now c.db)
              found)
            (stopped-Inv id now c h found (ensure_passed (is_running r.status) value_error c run)))

resumed-Inv :
    (id : String) (now : ℕ) (c : Coordinator)
    → Inv c
    → {r : RunSnapshot} → find_row id c.db ≡ some r
    → is_paused r.status ≡ true
    → Inv (record c {
      db = update_run id RunStatus.running none now c.db;
      commands = c.commands ++ some (record { kind = resume; run_id = id }) ∷ [];
    })
resumed-Inv id now c h {r} found p =
    let (x, a, b, n) = resumable h id found p in
    let command : Command = record { kind = resume; run_id = id } in
    record {
      unique = HasUniqueIds-update_run id RunStatus.running none now c.db h.unique;
      phase = at_rest x (
          started id
            (ids-update_same id RunStatus.running none now c.db found is_active
                (sym (paused_tests r.status p))
              ∙ a)
            (ids-update_new id RunStatus.running none now c.db found is_busy b refl)
            (command_ids-append c.commands (some command) ∙ rw n));
      sentinel = λ e. h.sentinel (sym (has_sentinel-append c.commands command) ∙ e);
      served = h.served;
    }

pub resume_run-Inv : (id : String) (now : ℕ) (c : Coordinator) → Inv c → Inv (resume_run id now c).1
unfolding resume_run
resume_run-Inv id now c h = after_check Inv (find_run id) _ c refl h λ r got.
    after_check Inv (ensure (is_paused r.status) value_error) _ c
      (ensure_same (is_paused r.status) value_error c) h
      λ _ p.
        after_check Inv (get_provider r.provider_profile_id) _ c
          (ensure_same (any (λ q. q == r.provider_profile_id) c.connected) key_error c) h
          λ _ _.
            after_check Inv ensure_accepting_commands _ c
              (ensure_same (not c.shutdown_requested) runtime_error c) h
              λ _ _.
                let found = find_run-found id c got in
                rw (set_status_found id RunStatus.running none now c.db found) (
                  resumed-Inv id now c h found (ensure_passed (is_paused r.status) value_error c p))

pub pause_all-Inv : (c : Coordinator) → Inv c → Inv (pause_all c)
unfolding pause_all
pause_all-Inv c h =
    Inv-same (record { commands = refl; executing = refl; worker = refl; shutdown = refl }) refl
      refl (λ _. refl) h h.unique

command_ids-sentinel :
    (cs : List (Option Command)) (w : WorkerThread)
    → command_ids (cs ++ sentinel_for w) ≡ command_ids cs
command_ids-sentinel cs absent = rw (append-nil cs)
command_ids-sentinel cs alive = command_ids-append cs none ∙ append-nil _
command_ids-sentinel cs ended = command_ids-append cs none ∙ append-nil _

module _ (c c' : Coordinator) (db : c'.db ≡ c.db) (x : c'.executing ≡ c.executing)
    (n : command_ids c'.commands ≡ command_ids c.commands)
    (closed : c'.shutdown_requested ≡ true) where
  closed_Settled :
      Settled c.db c.commands c.shutdown_requested → Settled c'.db c'.commands c'.shutdown_requested
  closed_Settled (idle a m w) = rw db (idle a (n ∙ m) (λ e. absurd (cc)))
  closed_Settled (started k a b m) = rw db (started k a b (n ∙ m))

  -- A shutdown leaves every run where it is.
  closed_Phase : Phase c → Phase c'
  closed_Phase (at_rest y s) = at_rest (x ∙ y) (closed_Settled s)
  closed_Phase (paused k y a b m) = paused k (x ∙ y) (rw db a) (rw db b) (n ∙ m)
  closed_Phase (working e y a b m) = working e (x ∙ y) (rw db a) (rw db b) (n ∙ m)

close-Inv : (b : Bool) (c : Coordinator) → Inv c → Inv (close b c)
unfolding close
close-Inv true c h = h
close-Inv false c h = record {
  unique = h.unique;
  phase = closed_Phase c _ refl refl (command_ids-sentinel c.commands c.worker) refl h.phase;
  sentinel = λ _. refl;
  served = inr refl;
}

pub shutdown-Inv : (c : Coordinator) → Inv c → Inv (shutdown c)
unfolding shutdown
shutdown-Inv c h = close-Inv c.shutdown_requested (pause_all c) (pause_all-Inv c h)

settled_tests :
    (b : Bool) (s : RunStatus)
    → (b && is_unsettled s) ≡ false
    → not b ≡ false
    → (is_active s ≡ false) × (is_busy s ≡ false) × (is_queued s ≡ false)
settled_tests b s h e = ground arith

module _ (w : String) (db : Db)
    (settled : any (λ r. belongs_to w r && is_unsettled r.status) db.runs ≡ false) where
  abbrev kept : RunSnapshot → Bool
  kept r = not (belongs_to w r)

  ids-delete :
      (test : RunStatus → Bool)
      → ((b : Bool) (s : RunStatus)
          → (b && is_unsettled s) ≡ false
          → not b ≡ false
          → test s ≡ false)
      → ids_with test (delete_runs w db) ≡ ids_with test db
  unfolding delete_runs
  ids-delete test out =
      keys_of-filter run_key (λ r. test r.status) kept db.runs
        (All-map (λ r e. out (belongs_to w r) r.status e) db.runs
          (any-false (λ r. belongs_to w r && is_unsettled r.status) db.runs settled))

  deleted-Inv : (c : Coordinator) → c.db ≡ db → Inv c → Inv (record c { db = delete_runs w db })
  unfolding delete_runs
  deleted-Inv c at h =
      Inv-same (record { commands = refl; executing = refl; worker = refl; shutdown = refl })
        (ids-delete is_active (λ b s e k. (settled_tests b s e k).0) ∙ rw at)
        (ids-delete is_busy (λ b s e k. (settled_tests b s e k).1) ∙ rw at)
        (λ _. ids-delete is_queued (λ b s e k. (settled_tests b s e k).2) ∙ rw at) h
        (IsUnique-filter run_key kept db.runs (rw (← at) h.unique))

-- Only settled runs are deleted, so nothing under way loses its row.
pub delete_workspace_runs-Inv :
    (w : String) (cleanup_failed : Bool) (c : Coordinator)
    → Inv c
    → Inv (delete_workspace_runs w cleanup_failed c).1
unfolding delete_workspace_runs delete_settled_workspace_runs
delete_workspace_runs-Inv w cleanup_failed c h =
    if_both (λ (z : Result Unit × Coordinator). Inv z.1) (has_unsettled_runs w c.db) _ _ (λ _. h)
      λ _.
        if_both (λ (z : Result Unit × Coordinator). Inv z.1) cleanup_failed _ _ (λ _. h)
          λ _. elim (Bool-cases (any (λ r. belongs_to w r && is_unsettled r.status) c.db.runs)) [
            | inl busy ↦ rw busy h
            | inr settled ↦ rw settled (deleted-Inv w c.db settled c refl h)
          ]
