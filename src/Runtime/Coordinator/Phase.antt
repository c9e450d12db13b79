-- ===== src/Runtime/Coordinator/Phase.antt =====
-- The invariant of the coordinator: where its one active run is, and the methods' parts that keep it.
use exam_sage.Common.{
  ℕ, String, ◌≡◌, refl, ap, ◌∙◌, Bool, true, false, Option, none, some, List, [], ◌∷◌, ◌++◌, ok,
  Bool-cases, inl, inr,
}
use exam_sage.Runtime.Models.{RunStatus, EventType, RunSnapshot}
use exam_sage.Runtime.Store.{
  Db, is_active, is_busy, is_queued, active_run, next_queued_run, update_run, insert_event,
}
use exam_sage.Runtime.Store.Laws.{
  ids_with, find_row, HasUniqueIds, HasUniqueIds-update_run, set_status_found, append_event_found,
  find_row-update_run, ids-update_new, select-none, select-some, busy_nil,
}
use exam_sage.Runtime.Coordinator.{Coordinator, Command, start, start_next, start_queued}

-- The runs that the worker has still to take.
abbrev pub command_ids : List (Option Command) → List String
command_ids [] = []
command_ids (none ∷ rest) = command_ids rest
command_ids (some command ∷ rest) = command.run_id ∷ command_ids rest

abbrev pub has_sentinel : List (Option Command) → Bool
has_sentinel [] = false
has_sentinel (none ∷ rest) = true
has_sentinel (some command ∷ rest) = has_sentinel rest

pub command_ids-append :
    (cs : List (Option Command)) (d : Option Command)
    → command_ids (cs ++ d ∷ []) ≡ command_ids cs ++ command_ids (d ∷ [])
command_ids-append [] d = refl
command_ids-append (none ∷ cs) d = command_ids-append cs d
command_ids-append (some c ∷ cs) d = ap (λ l. c.run_id ∷ l) (command_ids-append cs d)

pub has_sentinel-append :
    (cs : List (Option Command)) (c : Command) → has_sentinel (cs ++ some c ∷ []) ≡ has_sentinel cs
has_sentinel-append [] c = refl
has_sentinel-append (none ∷ cs) c = refl
has_sentinel-append (some d ∷ cs) c = has_sentinel-append cs c

-- No run is active and none waits, or one has been started and its command put.
pub data Settled (db : Db) (commands : List (Option Command)) (shutdown : Bool) : Type 0 where
  idle :
      ids_with is_active db ≡ []
      → command_ids commands ≡ []
      → (shutdown ≡ false → ids_with is_queued db ≡ [])
      → Settled db commands shutdown
  started :
      (k : String)
      → ids_with is_active db ≡ k ∷ []
      → ids_with is_busy db ≡ k ∷ []
      → command_ids commands ≡ k ∷ []
      → Settled db commands shutdown

-- Nothing but the tables and the queue changes, and the queue keeps its sentinel.
pub record Started (c c' : Coordinator) : Type 0 where
  pub unique : HasUniqueIds c'.db
  pub settled : Settled c'.db c'.commands c'.shutdown_requested
  pub executing : c'.executing ≡ c.executing
  pub worker : c'.worker ≡ c.worker
  pub shutdown : c'.shutdown_requested ≡ c.shutdown_requested
  pub sentinel : has_sentinel c'.commands ≡ has_sentinel c.commands

-- start_queued on a run that stands in the table.
start_queued_found :
    (now : ℕ) (c : Coordinator) (q : RunSnapshot)
    → find_row q.run_id c.db ≡ some q
    → start_queued now (some q) c ≡ (
      ok tt,
      record c {
        db =
            insert_event q.run_id EventType.started "queue" "Queued run started." [] now
              (update_run q.run_id RunStatus.running none now c.db);
        commands = c.commands ++ some (record { kind = start; run_id = q.run_id }) ∷ [];
      },
    )
unfolding start_queued
start_queued_found now c q found =
    rw (set_status_found q.run_id RunStatus.running none now c.db found) (
      rw (
        append_event_found q.run_id EventType.started "queue" "Queued run started." [] now
          (update_run q.run_id RunStatus.running none now c.db)
          (find_row-update_run q.run_id RunStatus.running none now c.db found)))

idle_Started :
    (c : Coordinator)
    → HasUniqueIds c.db
    → ids_with is_active c.db ≡ []
    → command_ids c.commands ≡ []
    → (c.shutdown_requested ≡ false → ids_with is_queued c.db ≡ [])
    → Started c c
idle_Started c u a n w = record {
  unique = u;
  settled = idle a n w;
  executing = refl;
  worker = refl;
  shutdown = refl;
  sentinel = refl;
}

module _ (now : ℕ) (c : Coordinator) (u : HasUniqueIds c.db) (calm : ids_with is_active c.db ≡ [])
    (n : command_ids c.commands ≡ []) where
  start_queued-Started-some :
      (q : RunSnapshot)
      → find_row q.run_id c.db ≡ some q
      → ((start_queued now (some q) c).0 ≡ ok tt) × Started c (start_queued now (some q) c).1
  unfolding insert_event
  start_queued-Started-some q found =
      let k = q.run_id in
      rw (start_queued_found now c q found) (
        refl,
        record {
          unique = HasUniqueIds-update_run k RunStatus.running none now c.db u;
          settled =
              started k (ids-update_new k RunStatus.running none now c.db found is_active calm refl)
                (ids-update_new k RunStatus.running none now c.db found is_busy (busy_nil c.db calm)
                  refl)
                (command_ids-append c.commands (some (record { kind = start; run_id = k })) ∙ rw n);
          executing = refl;
          worker = refl;
          shutdown = refl;
          sentinel = has_sentinel-append c.commands (record { kind = start; run_id = k });
        },
      )

  start_queued-Started :
      (next : Option RunSnapshot)
      → ((q : RunSnapshot) → next ≡ some q → find_row q.run_id c.db ≡ some q)
      → (next ≡ none → ids_with is_queued c.db ≡ [])
      → ((start_queued now next c).0 ≡ ok tt) × Started c (start_queued now next c).1
  unfolding start_queued
  start_queued-Started none h w = (refl, idle_Started c u calm n (λ e. w refl))
  start_queued-Started (some q) h w = start_queued-Started-some q (h q refl)

  -- _start_next, when no run is active and no command waits, starts a queued run if it may.
  pub start_next-Started : ((start_next now c).0 ≡ ok tt) × Started c (start_next now c).1
  unfolding start_next active_run next_queued_run
  start_next-Started = elim (Bool-cases c.shutdown_requested) [
    | inl closed ↦ simp closed (refl, idle_Started c u calm n (λ e. absurd (cc)))
    | inr open_ ↦
        simp (open_, (select-none is_active c.db).1 calm)
          (start_queued-Started (next_queued_run c.db) (λ q e. (select-some is_queued c.db u e).0)
            (select-none is_queued c.db).0)
  ]
