-- ===== src/Runtime/Coordinator/Execute/Concludes.antt =====
-- The branches of _execute behind `graph.invoke` keep the invariant, and none of them raises.
use native.Mathlib.Omega.{arith}
use exam_sage.Common.{
  ℕ, String, ◌≡◌, refl, sym, ◌∙◌, Bool, true, false, Option, none, some, List, [], ◌∷◌, Result, ok,
}
use exam_sage.Runtime.Control
use exam_sage.Runtime.Models.{RunStatus, EventType, RunSnapshot, Payload}
use exam_sage.Runtime.Store.{Db, is_active, is_busy, update_run, insert_event}
use exam_sage.Runtime.Store.Laws.{
  ids_with, find_row, HasUniqueIds, HasUniqueIds-update_run, set_status_found, settle_found,
  ids-update_same, ids-update_drop,
}
use exam_sage.Runtime.Coordinator.{Coordinator, Execution, start_next}
use exam_sage.Runtime.Coordinator.Execute.{
  GraphOutcome, source_error, raised, returned, Interrupt, conclude, pause_interrupted, pause_for,
  settle, finish_execution, after, outcome_of, source_change_interrupt, paused_since,
}
use exam_sage.Runtime.Coordinator.Execute.Keeps.{executed_run}
use exam_sage.Runtime.Coordinator.Phase.{start_next-Started, command_ids}
use exam_sage.Runtime.Coordinator.Invariant.{at_rest, paused, Inv}

busy_tests : (s : RunStatus) → is_busy s ≡ true → is_active s ≡ true
busy_tests s h = ground arith

-- What a conclusion comes to: no exception, and the invariant once the worker is free.
abbrev Concluded : Result (Unit {0}) × Coordinator → Type 0
Concluded x = (x.0 ≡ ok tt) × Inv (record x.1 { executing = none })

module _ (c : Coordinator) (e : Execution) (x : c.executing ≡ some e) (h : Inv c) (now : ℕ) where
  abbrev id : String
  id = e.command.run_id

  -- A run that is written back as paused, with whatever event.
  paused_back :
      (db : Db)
      → db.runs ≡ (update_run id RunStatus.paused none now c.db).runs
      → (r : RunSnapshot) → find_row id c.db ≡ some r
      → is_busy r.status ≡ true
      → ids_with is_active c.db ≡ id ∷ []
      → ids_with is_busy c.db ≡ id ∷ []
      → command_ids c.commands ≡ []
      → (controls : Control.Registry)
      → Inv (record c { db = db; controls = controls; executing = none })
  paused_back db at r found busy a b n controls = record {
    unique = rw at (HasUniqueIds-update_run id RunStatus.paused none now c.db h.unique);
    phase =
        paused id refl
          (rw at (
            ids-update_same id RunStatus.paused none now c.db found is_active
              (sym (busy_tests r.status busy))
            ∙ a))
          (rw at (ids-update_drop id RunStatus.paused none now c.db found is_busy b busy refl)) n;
    sentinel = h.sentinel;
    served = h.served;
  }

  -- A run that ends, and the start of the next one.
  ended_then_next :
      (status : RunStatus) (error : Option String)
      → is_active status ≡ false
      → (db : Db) → db.runs ≡ (update_run id status error now c.db).runs
      → (controls : Control.Registry)
      → Concluded (start_next now (record c { db = db; controls = controls }))
  ended_then_next status error inactive db at controls =
      let (r, found, busy, a, b, n) = executed_run c e x h in
      let c2 : Coordinator = record c { db = db; controls = controls } in
      let unique : HasUniqueIds db =
        rw at (HasUniqueIds-update_run id status error now c.db h.unique) in
      let calm : ids_with is_active db ≡ [] = rw at (
        ids-update_drop id status error now c.db found is_active a (busy_tests r.status busy)
          inactive) in
      let (done, s) = start_next-Started now c2 unique calm n in
      (
        done,
        record {
          unique = s.unique;
          phase = at_rest refl s.settled;
          sentinel = λ t. s.shutdown ∙ h.sentinel (sym s.sentinel ∙ t);
          served = rw (s.worker, s.shutdown) h.served;
        },
      )

  settled_paused :
      (stage message : String) (payload : Payload)
      → Concluded (settle id RunStatus.paused EventType.paused stage message payload none now c)
  unfolding settle insert_event
  settled_paused stage message payload =
      let (r, found, busy, a, b, n) = executed_run c e x h in
      rw
        (settle_found id RunStatus.paused none now c.db found EventType.paused stage message
          payload)
        (refl, paused_back _ refl r found busy a b n c.controls)

  pause_interrupted-Concluded :
      (announced : Bool) (interrupts : List Interrupt)
      → Concluded (pause_interrupted now id announced interrupts c)
  unfolding pause_interrupted
  pause_interrupted-Concluded true interrupts =
      let (r, found, busy, a, b, n) = executed_run c e x h in
      rw (set_status_found id RunStatus.paused none now c.db found)
        (refl, paused_back _ refl r found busy a b n c.controls)
  pause_interrupted-Concluded false interrupts = go (source_change_interrupt interrupts)
    where
      go : (change : Option Payload) → Concluded (pause_for now id change c)
      go none = settled_paused "paused" "The run is paused at a safe boundary." []
      go (some payload) =
          settled_paused "source_changed"
            "A course source changed. Rescan and approve it before resuming." payload

  -- However the graph ends, the run is paused or ended, and the worker goes on.
  conclude-Concluded :
      (outcome : GraphOutcome) (cursor : ℕ) → Concluded (conclude outcome cursor id now c)
  unfolding conclude insert_event
  conclude-Concluded (source_error code entry_id) cursor =
      let (r, found, busy, a, b, n) = executed_run c e x h in
      rw (settle_found id RunStatus.paused none now c.db found _ _ _ _)
        (refl, paused_back _ refl r found busy a b n (Control.discard id c.controls))
  conclude-Concluded (raised type_name) cursor =
      let (r, found, busy, a, b, n) = executed_run c e x h in
      rw (settle_found id RunStatus.failed _ now c.db found _ _ _ _)
        (ended_then_next RunStatus.failed _ refl _ refl (Control.discard id c.controls))
  conclude-Concluded (returned []) cursor =
      let (r, found, busy, a, b, n) = executed_run c e x h in
      rw (settle_found id RunStatus.completed none now c.db found _ _ _ _)
        (ended_then_next RunStatus.completed none refl _ refl (Control.discard id c.controls))
  conclude-Concluded (returned (i ∷ is)) cursor =
      pause_interrupted-Concluded (paused_since id cursor c) (i ∷ is)

after-Inv : (x : Result (Unit {0}) × Coordinator) → Concluded x → Inv (after x.0 x.1)
unfolding after
after-Inv (r, c) h = rw h.0 h.1

-- The worker is free behind the conclusion, and has not died of an exception.
pub finish_execution-Inv :
    (outcome : GraphOutcome) (now : ℕ) (c : Coordinator)
    → Inv c
    → Inv (finish_execution outcome now c)
unfolding finish_execution
finish_execution-Inv outcome now c h = go c.executing refl
  where
    finished : Option Execution → Coordinator
    finished none = c
    finished (some e) =
        let m = conclude (outcome_of e.call outcome) e.event_cursor e.command.run_id now c in
        after m.0 m.1

    go : (x : Option Execution) → c.executing ≡ x → Inv (finished x)
    go none x = h
    go (some e) x =
        after-Inv (conclude (outcome_of e.call outcome) e.event_cursor e.command.run_id now c)
          (conclude-Concluded c e x h now (outcome_of e.call outcome) e.event_cursor)
