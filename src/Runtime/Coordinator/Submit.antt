-- ===== src/Runtime/Coordinator/Submit.antt =====
-- submit_message keeps the coordinator's invariant, on every path.
use native.Mathlib.Omega.{arith}
use mathlib.Core.Path.{subst}
use exam_sage.Common.{
  ℕ, String, ◌≡◌, refl, sym, ap, ◌∙◌, Bool, true, false, Option, none, some, [], ◌∷◌, ◌++◌, is_none,
  after_check, ◌>>=◌, Result, ok, err, if◌then◌else◌, not, any, ◌==◌, ensure_same, runtime_error,
  key_error,
}
use exam_sage.Runtime.Models.{RunStatus, EventType, RunSnapshot}
use exam_sage.Runtime.Store.{
  Db, is_active, is_busy, active_run, create_run, append_event, insert_event,
}
use exam_sage.Runtime.Store.Laws.{
  ids_with, find_row, HasUniqueIds, HasUniqueIds-append, find_row-append, append_event_found,
  create_run-ok, ids-append_in, ids-append_out, select-none, busy_nil,
}
use exam_sage.Workspace.Models.{WorkspaceState}
use exam_sage.Runtime.Coordinator.{
  Coordinator, start, submit_message, announce, insert_run, starts_at_once,
  ensure_accepting_commands, get_provider, check_workspace, accepts_runs, thread_of, start_next,
}
use exam_sage.Runtime.Coordinator.Phase.{
  started, Started, start_next-Started, command_ids-append, has_sentinel-append,
}
use exam_sage.Runtime.Coordinator.Invariant.{at_rest, Inv, Inv-same, Phase-calm}

-- After a start of the next run the invariant holds, if the worker is at rest.
pub Started-Inv : {c c' : Coordinator} → Inv c → c.executing ≡ none → Started c c' → Inv c'
Started-Inv h x s = record {
  unique = s.unique;
  phase = at_rest (s.executing ∙ x) s.settled;
  sentinel = λ e. s.shutdown ∙ h.sentinel (sym s.sentinel ∙ e);
  served = rw (s.worker, s.shutdown) h.served;
}

none_of : {A : Type 0} (o : Option A) → is_none o ≡ true → o ≡ none
none_of none e = refl
none_of (some x) e = absurd (cc)

workspace_same :
    (get_workspace : String → Option WorkspaceState) (w : Option String) (c : Coordinator)
    → (check_workspace get_workspace w c).1 ≡ c
workspace_same get_workspace none c = refl
workspace_same get_workspace (some w) c = accepts_same (get_workspace w)
  where
    accepts_same : (s : Option WorkspaceState) → (accepts_runs s c).1 ≡ c
    accepts_same none = refl
    accepts_same (some WorkspaceState.deleting) = refl
    accepts_same (some WorkspaceState.cleanup_pending) = refl
    accepts_same (some _) = refl

none-calm : (db : Db) → active_run db ≡ none → ids_with is_active db ≡ []
unfolding active_run
none-calm db e = (select-none is_active db).0 e

-- The state behind create_run.
abbrev with_row : Coordinator → RunSnapshot → Coordinator
with_row c row = record c { db = record c.db { runs = c.db.runs ++ row ∷ [] } }

module _ (c : Coordinator) (h : Inv c) (row : RunSnapshot) (fresh : find_row row.run_id c.db ≡ none)
    (now : ℕ) where
  -- A run that starts at once becomes the one that waits for the worker.
  announce_started :
      row.status ≡ RunStatus.running
      → ids_with is_active c.db ≡ []
      → (idle_now : Bool) → Inv (announce now true idle_now row (with_row c row)).1
  unfolding announce insert_event
  announce_started s a idle_now =
      rw
        (append_event_found row.run_id EventType.started "queue" "Agent run started." [] now
          (with_row c row).db (find_row-append c.db row fresh))
        (record {
          unique = HasUniqueIds-append c.db row fresh h.unique;
          phase = at_rest (Phase-calm h.phase a).0 (
              started row.run_id (ids-append_in is_active c.db row (rw s) ∙ rw a)
                (ids-append_in is_busy c.db row (rw s) ∙ rw (busy_nil c.db a))
                (command_ids-append c.commands (some (record { kind = start; run_id = row.run_id }))
                  ∙ rw (Phase-calm h.phase a).1));
          sentinel = λ e. h.sentinel (
              sym (has_sentinel-append c.commands (record { kind = start; run_id = row.run_id }))
              ∙ e);
          served = h.served;
        })

  -- The tables with a queued run and its event.
  queued_db : Db
  unfolding insert_event
  queued_db =
      insert_event row.run_id EventType.queued "queue" "Message queued behind the active run." []
        now (with_row c row).db

  module _ (s : row.status ≡ RunStatus.queued) where
    queued_active : ids_with is_active queued_db ≡ ids_with is_active c.db
    unfolding queued_db
    queued_active = ids-append_out is_active c.db row (rw s)

    queued_busy : ids_with is_busy queued_db ≡ ids_with is_busy c.db
    unfolding queued_db
    queued_busy = ids-append_out is_busy c.db row (rw s)

    queued_unique : HasUniqueIds queued_db
    unfolding queued_db
    queued_unique = HasUniqueIds-append c.db row fresh h.unique

    queued_waits : (ids_with is_active c.db ≡ [] → ⊥) → Inv (record c { db = queued_db })
    queued_waits busy_now =
        Inv-same (record { commands = refl; executing = refl; worker = refl; shutdown = refl })
          queued_active queued_busy (λ e. absurd (busy_now e)) h queued_unique

    queued_starts :
        ids_with is_active c.db ≡ []
        → ((start_next now (record c { db = queued_db })).0 ≡ ok tt)
          × Inv (start_next now (record c { db = queued_db })).1
    queued_starts a =
        let (x, n) = Phase-calm h.phase a in
        let c2 : Coordinator = record c { db = queued_db } in
        let (done, s) = start_next-Started now c2 queued_unique (queued_active ∙ a) n in
        (
          done,
          record {
            unique = s.unique;
            phase = at_rest (s.executing ∙ x) s.settled;
            sentinel = λ e. s.shutdown ∙ h.sentinel (sym s.sentinel ∙ e);
            served = rw (s.worker, s.shutdown) h.served;
          },
        )

    appended :
        append_event row.run_id EventType.queued "queue" "Message queued behind the active run." []
          now
          (with_row c row).db
        ≡ ok queued_db
    unfolding queued_db
    appended =
        append_event_found row.run_id EventType.queued "queue"
          "Message queued behind the active run." [] now (with_row c row).db
          (find_row-append c.db row fresh)

    -- A queued run waits behind the active one, or the oldest queued run is started.
    announce_queued :
        (idle_now : Bool)
        → idle_now ≡ is_none (active_run c.db)
        → Inv (announce now false idle_now row (with_row c row)).1
    unfolding announce active_run
    announce_queued true e =
        let none_active : active_run c.db ≡ none = none_of (active_run c.db) (sym e) in
        let (done, kept) = queued_starts ((select-none is_active c.db).0 none_active) in
        rw appended (rw done kept)
    announce_queued false e = rw appended (
        queued_waits (λ a.
          let none_active : active_run c.db ≡ none = (select-none is_active c.db).1 a in
          cc (e ∙ ap is_none none_active)))

calm_at_once : (db : Db) → starts_at_once db ≡ true → is_none (active_run db) ≡ true
unfolding starts_at_once
calm_at_once db e = ground arith

abbrev status_for : Bool → RunStatus
status_for at_once = if at_once then RunStatus.running else RunStatus.queued

module _ (run_id thread_id profile message : String) (workspace_id : Option String) (now : ℕ)
    (c : Coordinator) (h : Inv c) where
  abbrev created : Bool → Result (RunSnapshot × Db)
  created at_once =
      create_run run_id thread_id profile message (status_for at_once) workspace_id now c.db

  abbrev Announced : Bool → Result (RunSnapshot × Db) → Type 0
  Announced at_once r =
      Inv ((insert_run r >>= announce now at_once (is_none (active_run c.db))) c).1

  created-Inv :
      (at_once : Bool)
      → at_once ≡ starts_at_once c.db
      → (r : Result (RunSnapshot × Db)) → created at_once ≡ r
      → Announced at_once r
  created-Inv at_once e (err x) made = h
  created-Inv true e (ok (row, db)) made =
      let (at, id, status, fresh) =
        create_run-ok run_id thread_id profile message RunStatus.running workspace_id now c.db
          made in
      let idle_now : active_run c.db ≡ none =
        none_of (active_run c.db) (calm_at_once c.db (sym e)) in
      subst (λ d. Announced true (ok (row, d))) (sym at)
        (announce_started c h row (subst (λ i. find_row i c.db ≡ none) (sym id) fresh) now status
          (none-calm c.db idle_now) (is_none (active_run c.db)))
  created-Inv false e (ok (row, db)) made =
      let (at, id, status, fresh) =
        create_run-ok run_id thread_id profile message RunStatus.queued workspace_id now c.db
          made in
      subst (λ d. Announced false (ok (row, d))) (sym at)
        (announce_queued c h row (subst (λ i. find_row i c.db ≡ none) (sym id) fresh) now status
          (is_none (active_run c.db)) refl)

-- submit_message keeps the invariant, whatever the repository answers and whether it raises.
pub submit_message-Inv :
    (get_workspace : String → Option WorkspaceState) (run_id thread_id profile message : String)
    (workspace_id : Option String) (now : ℕ) (c : Coordinator)
    → Inv c
    → Inv (submit_message get_workspace run_id thread_id profile message workspace_id now c).1
unfolding submit_message
submit_message-Inv get_workspace run_id thread_id profile message workspace_id now c h =
    after_check Inv ensure_accepting_commands _ c
      (ensure_same (not c.shutdown_requested) runtime_error c) h
      λ _ _.
        after_check Inv (get_provider profile) _ c
          (ensure_same (any (λ p. p == profile) c.connected) key_error c) h
          λ _ _.
            after_check Inv (check_workspace get_workspace workspace_id) _ c
              (workspace_same get_workspace workspace_id c) h
              λ _ _.
                created-Inv run_id (thread_of thread_id workspace_id) profile message workspace_id
                  now c h (starts_at_once c.db) refl _ refl
