-- ===== src/Runtime/Coordinator/Execute/Keeps.antt =====
-- The worker keeps the coordinator's invariant: taking a command, the graph's events, concluding.
use native.Mathlib.Omega.{arith}
use mathlib.Core.Option.{some-injective}
use exam_sage.Common.{
  ℕ, String, ◌≡◌, refl, sym, ap, ◌∙◌, Bool, true, false, ◌&&◌, Option, none, some, List, [], ◌∷◌,
  inr, ◌⊎◌, Result, ok, err, Method, ◌>>◌, if_both, if◌then◌else◌,
}
use exam_sage.Common.Table.Keys.{keys_of_one}
use exam_sage.Runtime.Control
use exam_sage.Runtime.Models.{EventType, RunSnapshot, Payload}
use exam_sage.Runtime.Store
use exam_sage.Runtime.Store.{
  Db, run_key, is_active, is_busy, is_queued, get_run, update_run, insert_event, append_event,
  set_status,
}
use exam_sage.Runtime.Store.Laws.{ids_with, find_row, HasUniqueIds}
use exam_sage.Runtime.Coordinator.{
  Coordinator, Command, CommandKind, start, resume, Execution, GraphCall, alive, ended, is_alive,
  write, initial_state,
}
use exam_sage.Runtime.Coordinator.Execute.{
  Checkpoint, prepare, begin, handle, take_command, emit, is_run, only_pause, pending_call,
}
use exam_sage.Runtime.Coordinator.Phase.{Settled, idle, started, command_ids, has_sentinel}
use exam_sage.Runtime.Coordinator.Invariant.{
  Phase, at_rest, paused, working, Inv, SameQueue, Inv-same,
}

-- The runs, the queue and the worker are left alone.
record Frame (c c' : Coordinator) : Type 0 where
  runs : c'.db.runs ≡ c.db.runs
  queue : SameQueue c c'

Frame-refl : (c : Coordinator) → Frame c c
Frame-refl c = record {
  runs = refl;
  queue = record { commands = refl; executing = refl; worker = refl; shutdown = refl };
}

append_event-runs :
    (k : String) (t : EventType) (stage message : String) (payload : Payload) (now : ℕ) (db : Db)
    {db' : Db}
    → append_event k t stage message payload now db ≡ ok db'
    → db'.runs ≡ db.runs
unfolding append_event
append_event-runs k t stage message payload now db {db'} h = ground arith

-- A transaction that leaves the runs, and a rest that leaves the state.
write-Frame :
    {A : Type 0} (f : Db → Result Db) (rest : Result A) (c : Coordinator)
    → ((db : Db) → f c.db ≡ ok db → db.runs ≡ c.db.runs)
    → Frame c ((write f >> λ d. (rest, d)) c).1
write-Frame f rest c h = go (f c.db) refl
  where
    go : (r : Result Db) → f c.db ≡ r → Frame c ((write (λ _. r) >> λ d. (rest, d)) c).1
    go (ok db) e = record {
      runs = h db e;
      queue = record { commands = refl; executing = refl; worker = refl; shutdown = refl };
    }
    go (err x) e = Frame-refl c

Frame-trans : {a b c : Coordinator} → Frame a b → Frame b c → Frame a c
Frame-trans f g = record {
  runs = g.runs ∙ f.runs;
  queue = record {
    commands = g.queue.commands ∙ f.queue.commands;
    executing = g.queue.executing ∙ f.queue.executing;
    worker = g.queue.worker ∙ f.queue.worker;
    shutdown = g.queue.shutdown ∙ f.queue.shutdown;
  };
}

cleared-Frame :
    (b : Bool) (id : String) (c : Coordinator)
    → Frame c (if b then record c { controls = Control.clear_stop id c.controls } else c)
cleared-Frame true id c = record {
  runs = refl;
  queue = record { commands = refl; executing = refl; worker = refl; shutdown = refl };
}
cleared-Frame false id c = Frame-refl c

-- What the worker does before `graph.invoke` touches events and stop flags only.
prepare-Frame :
    (kind : CommandKind) (now : ℕ) (checkpoint : Option Checkpoint) (run : RunSnapshot)
    (c : Coordinator)
    → Frame c (prepare kind now checkpoint run c).1
unfolding prepare
prepare-Frame start now checkpoint run c = Frame-refl c
prepare-Frame resume now none run c = Frame-refl c
prepare-Frame resume now (some k) run c =
    if_both (λ (m : Method Coordinator GraphCall). Frame c (m c).1)
      (is_run run.run_id k.run_id && k.has_interrupts) _ _ (λ _. Frame-refl c)
      λ _.
        let same_run = is_run run.run_id k.run_id in
        let clears = same_run && (k.pause_pending && only_pause k.next) in
        let c1 : Coordinator =
          if clears then record c { controls = Control.clear_stop run.run_id c.controls } else c in
        Frame-trans (cleared-Frame clears run.run_id c) (
          write-Frame
            (Store.append_event run.run_id EventType.resumed "planning"
              "The run resumed from durable state." [] now)
            (ok (if same_run then pending_call k.next else initial_state)) c1
            (λ db.
              append_event-runs run.run_id EventType.resumed "planning"
                "The run resumed from durable state." [] now c1.db))

write_alone-Frame :
    (f : Db → Result Db) (c : Coordinator)
    → ((db : Db) → f c.db ≡ ok db → db.runs ≡ c.db.runs)
    → Frame c (write f c).1
write_alone-Frame f c h = go (f c.db) refl
  where
    go : (r : Result Db) → f c.db ≡ r → Frame c (write (λ _. r) c).1
    go (ok db) e = record {
      runs = h db e;
      queue = record { commands = refl; executing = refl; worker = refl; shutdown = refl };
    }
    go (err x) e = Frame-refl c

emit-Frame :
    (id : String) (t : EventType) (stage message : String) (payload : Payload) (now : ℕ)
    (c : Coordinator)
    → Frame c (emit id t stage message payload now c).1
unfolding emit
emit-Frame id t stage message payload now c =
    write_alone-Frame (append_event id t stage message payload now) c
      (λ db. append_event-runs id t stage message payload now c.db)

Frame-Inv : {c c' : Coordinator} → Frame c c' → Inv c → Inv c'
Frame-Inv f h = Inv-same f.queue (rw f.runs) (rw f.runs) (λ _. rw f.runs) h (rw f.runs h.unique)

pub emit-Inv :
    (id : String) (t : EventType) (stage message : String) (payload : Payload) (now : ℕ)
    (c : Coordinator)
    → Inv c
    → Inv (emit id t stage message payload now c).1
emit-Inv id t stage message payload now c h =
    Frame-Inv (emit-Frame id t stage message payload now c) h

-- The command that waits is that of the one busy run, which stands in the table.
pub head_command :
    (c : Coordinator) (command : Command) (rest : List (Option Command))
    → c.commands ≡ some command ∷ rest
    → c.executing ≡ none
    → Inv c
    → (r : RunSnapshot) × (find_row command.run_id c.db ≡ some r)
      × (ids_with is_active c.db ≡ command.run_id ∷ [])
      × (ids_with is_busy c.db ≡ command.run_id ∷ [])
      × (command_ids rest ≡ [])
head_command c command rest e x h = go h.phase
  where
    ids : command_ids c.commands ≡ command.run_id ∷ command_ids rest
    ids = rw e

    go :
        Phase c
        → (r : RunSnapshot) × (find_row command.run_id c.db ≡ some r)
          × (ids_with is_active c.db ≡ command.run_id ∷ [])
          × (ids_with is_busy c.db ≡ command.run_id ∷ [])
          × (command_ids rest ≡ [])
    go (at_rest y (idle a n w)) = absurd (cc (ids))
    go (at_rest y (started k a b n)) =
        let same : k ≡ command.run_id = cc (ids, n) in
        let none_left : command_ids rest ≡ [] = cc (ids, n) in
        let b' = b ∙ ap (λ i. i ∷ []) same in
        let (r, found, busy) =
          keys_of_one run_key (λ y. is_busy y.status) command.run_id c.db.runs h.unique b' in
        (r, found, a ∙ ap (λ i. i ∷ []) same, b', none_left)
    go (paused k y a b n) = absurd (cc (ids))
    go (working f y a b n) = absurd (cc)

-- A run taken by the worker: the state behind `begin` differs from a frame in `executing` alone.
taken-Inv :
    (c c' : Coordinator) (e : Execution)
    → Frame c c'
    → HasUniqueIds c.db
    → ids_with is_active c.db ≡ e.command.run_id ∷ []
    → ids_with is_busy c.db ≡ e.command.run_id ∷ []
    → command_ids c.commands ≡ []
    → (has_sentinel c.commands ≡ true → c.shutdown_requested ≡ true)
    → (c.worker ≡ alive) ⊎ (c.shutdown_requested ≡ true)
    → Inv (record c' { executing = some e })
taken-Inv c c' e f u a b n s w = record {
  unique = rw f.runs u;
  phase = working e refl (rw f.runs a) (rw f.runs b) (rw f.queue.commands n);
  sentinel = λ t. f.queue.shutdown ∙ s (ap has_sentinel (sym f.queue.commands) ∙ t);
  served = rw (f.queue.worker, f.queue.shutdown) w;
}

pub get_run-found :
    (id : String) (db : Db) {r : RunSnapshot} → find_row id db ≡ some r → get_run id db ≡ ok r
unfolding get_run
get_run-found id db found = rw found

handle-Inv :
    (now : ℕ) (checkpoint : Option Checkpoint) (c : Coordinator) (cs : List (Option Command))
    → c.commands ≡ cs
    → c.executing ≡ none
    → Inv c
    → Inv (handle cs now checkpoint c)
unfolding handle begin
handle-Inv now checkpoint c [] e x h = h
handle-Inv now checkpoint c (none ∷ rest) e x h =
    let closed : c.shutdown_requested ≡ true = h.sentinel (ap has_sentinel e) in
    record {
      unique = h.unique;
      phase = ended_Phase h.phase;
      sentinel = λ _. closed;
      served = inr closed;
    }
  where
    c' : Coordinator
    c' = record c { commands = rest; worker = ended }

    ended_Settled :
        Settled c.db c.commands c.shutdown_requested → Settled c.db rest c.shutdown_requested
    ended_Settled (idle a n w) = idle a (ap command_ids (sym e) ∙ n) w
    ended_Settled (started k a b n) = started k a b (ap command_ids (sym e) ∙ n)

    ended_Phase : Phase c → Phase c'
    ended_Phase (at_rest y s) = at_rest y (ended_Settled s)
    ended_Phase (paused k y a b n) = paused k y a b (ap command_ids (sym e) ∙ n)
    ended_Phase (working f y a b n) = working f y a b (ap command_ids (sym e) ∙ n)
handle-Inv now checkpoint c (some command ∷ rest) e x h =
    let (r, found, a, b, n) = head_command c command rest e x h in
    let c1 : Coordinator = record c { commands = rest } in
    rw (get_run-found command.run_id c.db found) (
      taken-Inv c1 (prepare command.kind now checkpoint r c1).1 _
        (prepare-Frame command.kind now checkpoint r c1) h.unique a b n
        (λ t. h.sentinel (ap has_sentinel e ∙ t)) h.served)

-- Taking a command keeps the invariant; the sentinel ends the worker, and only a shutdown put it.
pub take_command-Inv :
    (now : ℕ) (checkpoint : Option Checkpoint) (c : Coordinator)
    → Inv c
    → Inv (take_command now checkpoint c)
unfolding take_command
take_command-Inv now checkpoint c h = go c.executing refl
  where
    go :
        (x : Option Execution)
        → c.executing ≡ x
        → Inv (elim x [
          | none ↦ if is_alive c.worker then handle c.commands now checkpoint c else c
          | some e ↦ c
        ])
    go none x =
        if_both Inv (is_alive c.worker) _ _ (λ _. handle-Inv now checkpoint c c.commands refl x h)
          (λ _. h)
    go (some e) x = h

-- The run that the worker executes: it stands in the table, and is the one busy run.
pub executed_run :
    (c : Coordinator) (e : Execution)
    → c.executing ≡ some e
    → Inv c
    → (r : RunSnapshot) × (find_row e.command.run_id c.db ≡ some r)
      × (is_busy r.status ≡ true)
      × (ids_with is_active c.db ≡ e.command.run_id ∷ [])
      × (ids_with is_busy c.db ≡ e.command.run_id ∷ [])
      × (command_ids c.commands ≡ [])
executed_run c e x h = go h.phase
  where
    go :
        Phase c
        → (r : RunSnapshot) × (find_row e.command.run_id c.db ≡ some r)
          × (is_busy r.status ≡ true)
          × (ids_with is_active c.db ≡ e.command.run_id ∷ [])
          × (ids_with is_busy c.db ≡ e.command.run_id ∷ [])
          × (command_ids c.commands ≡ [])
    go (at_rest y s) = absurd (cc)
    go (paused k y a b n) = absurd (cc)
    go (working f y a b n) =
        let same : f ≡ e = some-injective f e (sym y ∙ x) in
        let a' = a ∙ ap (λ (g : Execution). g.command.run_id ∷ []) same in
        let b' = b ∙ ap (λ (g : Execution). g.command.run_id ∷ []) same in
        let (r, found, busy) =
          keys_of_one run_key (λ y. is_busy y.status) e.command.run_id c.db.runs h.unique b' in
        (r, found, busy, a', b', n)
