-- ===== src/Runtime/Coordinator/Execute.antt =====
-- exam_predictor/runtime/coordinator.py: _loop, _execute and _invoke_resume.
pub mod Keeps
pub mod Concludes
pub mod Progress
mod Scenarios
use exam_sage.Common.{
  ℕ, String, Bool, true, false, ◌&&◌, Option, none, some, List, [], ◌∷◌, if◌then◌else◌, any, Method,
  Result, ok, err, ◌>>=◌, ◌>>◌, pure, gets, modify, ◌==◌, get_or,
}
use Prim.Native.String.{◌++◌ as ◌<>◌}
use text.Mathlib.Text.{starts_with}
use exam_sage.Runtime.Models.{RunStatus, EventType, AgentEvent, RunSnapshot, Payload}
use exam_sage.Runtime.Control
use exam_sage.Runtime.Store
use exam_sage.Runtime.Coordinator.{
  Coordinator, Command, CommandKind, start, resume, GraphCall, initial_state, resume_command,
  continue_pending, saved_values, ended, write, start_next, is_alive,
}

-- What `graph.get_state` shows of a thread; `none` where the graph has no such method.
pub record Checkpoint : Type 0 where
  pub run_id : Option String
  pub has_interrupts : Bool
  pub pause_pending : Bool
  pub next : List String

abbrev is_run : String → Option String → Bool
is_run run_id none = false
is_run run_id (some r) = r == run_id

abbrev only_pause : List String → Bool
only_pause (node ∷ []) = starts_with node "pause_before_"
only_pause _ = false

abbrev pending_call : List String → GraphCall
pending_call [] = saved_values
pending_call (node ∷ nodes) = continue_pending

-- The part of _invoke_resume behind the interrupt test.
resume_from : ℕ → RunSnapshot → Checkpoint → Bool → Method Coordinator GraphCall
resume_from now run checkpoint same_run = do
  modify (λ c.
      if same_run && (checkpoint.pause_pending && only_pause checkpoint.next)
      then record c { controls = Control.clear_stop run.run_id c.controls }
      else c)
  write (
      Store.append_event run.run_id EventType.resumed "planning"
        "The run resumed from durable state." [] now)
  pure (if same_run then pending_call checkpoint.next else initial_state)

-- _invoke_resume, up to `graph.invoke`
invoke_resume : ℕ → Option Checkpoint → RunSnapshot → Method Coordinator GraphCall
unfolding resume_from
invoke_resume now none run = pure resume_command
invoke_resume now (some checkpoint) run =
    let same_run = is_run run.run_id checkpoint.run_id in
    if same_run && checkpoint.has_interrupts
    then pure resume_command
    else resume_from now run checkpoint same_run

prepare : CommandKind → ℕ → Option Checkpoint → RunSnapshot → Method Coordinator GraphCall
unfolding invoke_resume
prepare start now checkpoint run = pure initial_state
prepare resume now checkpoint run = invoke_resume now checkpoint run

-- The sequence number of the last event, or 0.
last_sequence : ℕ → List AgentEvent → ℕ
last_sequence n [] = n
last_sequence n (e ∷ es) = last_sequence e.sequence es

-- An exception that escapes the loop ends the thread.
begin : Command → ℕ → Option Checkpoint → Result RunSnapshot → Coordinator → Coordinator
unfolding prepare last_sequence
begin command now checkpoint (err e) c = record c { worker = ended }
begin command now checkpoint (ok run) c =
    let (call, c') = prepare command.kind now checkpoint run c in
    record c' {
      executing = some (record {
        command = command;
        event_cursor = last_sequence 0 (Store.list_events command.run_id 0 c.db);
        call = call;
      });
    }

handle : List (Option Command) → ℕ → Option Checkpoint → Coordinator → Coordinator
unfolding begin
handle [] now checkpoint c = c
handle (none ∷ rest) now checkpoint c = record c { commands = rest; worker = ended }
handle (some command ∷ rest) now checkpoint c =
    begin command now checkpoint (Store.get_run command.run_id c.db) (record c { commands = rest })

-- The worker takes a command, if it is alive and at leisure, and goes as far as `graph.invoke`.
pub take_command : ℕ → Option Checkpoint → Coordinator → Coordinator
unfolding handle
take_command now checkpoint c = elim c.executing [
  | none ↦ if is_alive c.worker then handle c.commands now checkpoint c else c
  | some e ↦ c
]

-- _emit, called by the graph for its run
pub emit :
    String → EventType → (stage message : String) → Payload → (now : ℕ) → Method Coordinator Unit
emit run_id event_type stage message payload now =
    write (Store.append_event run_id event_type stage message payload now)

-- An interrupt of the graph: one of kind "source_changed", with its fields, or another.
pub data Interrupt : Type 0 where
  source_changed : (code entry_id : Option String) → Interrupt
  other : Interrupt

-- How `graph.invoke` ends: SourceAuthorizationError, another exception, or a result with interrupts.
pub data GraphOutcome : Type 0 where
  source_error : (code entry_id : String) → GraphOutcome
  raised : (type_name : String) → GraphOutcome
  returned : List Interrupt → GraphOutcome

abbrev source_payload : String → String → Payload
source_payload code entry_id = ("code", code) ∷ ("entry_id", entry_id) ∷ []

-- _source_change_interrupt
source_change_interrupt : List Interrupt → Option Payload
source_change_interrupt [] = none
source_change_interrupt (source_changed code entry_id ∷ rest) =
    some (source_payload (get_or code "source_approval_revoked") (get_or entry_id ""))
source_change_interrupt (other ∷ rest) = source_change_interrupt rest

abbrev source_text : String
source_text = "A course source changed. Rescan and approve it before resuming."

settle :
    String
    → RunStatus
    → EventType
    → (stage message : String) → Payload
    → Option String
    → (now : ℕ) → Method Coordinator Unit
settle run_id status event_type stage message payload error now =
    write
      (Store.set_status_and_append_event run_id status event_type stage message payload error now)

discard : String → Method Coordinator Unit
discard run_id = modify (λ c. record c { controls = Control.discard run_id c.controls })

pause_for : ℕ → String → Option Payload → Method Coordinator Unit
unfolding settle
pause_for now run_id none =
    settle run_id RunStatus.paused EventType.paused "paused" "The run is paused at a safe boundary."
      [] none now
pause_for now run_id (some payload) =
    settle run_id RunStatus.paused EventType.paused "source_changed" source_text payload none now

abbrev is_pause : EventType → Bool
is_pause EventType.paused = true
is_pause _ = false

-- Whether the graph has announced the pause itself, after the cursor.
paused_since : String → ℕ → Coordinator → Bool
paused_since run_id cursor c =
    any (λ e. is_pause e.event_type) (Store.list_events run_id cursor c.db)

pause_interrupted : ℕ → String → Bool → List Interrupt → Method Coordinator Unit
unfolding pause_for source_change_interrupt
pause_interrupted now run_id true interrupts =
    write (Store.set_status run_id RunStatus.paused none now)
pause_interrupted now run_id false interrupts =
    pause_for now run_id (source_change_interrupt interrupts)

-- The branches of _execute behind `graph.invoke`.
conclude : GraphOutcome → ℕ → String → ℕ → Method Coordinator Unit
unfolding settle discard pause_interrupted paused_since
conclude (source_error code entry_id) cursor run_id now = do
  settle run_id RunStatus.paused EventType.paused "source_changed" source_text
      (source_payload code entry_id) none now
  discard run_id
conclude (raised type_name) cursor run_id now = do
  settle run_id RunStatus.failed EventType.failed "failed" (◌<>◌ type_name ": Agent run failed.") []
      (some (◌<>◌ type_name ": Agent run failed.")) now
  discard run_id
  start_next now
conclude (returned []) cursor run_id now = do
  settle run_id RunStatus.completed EventType.completed "complete" "Agent run completed." [] none
      now
  discard run_id
  start_next now
conclude (returned (i ∷ is)) cursor run_id now = do
  announced ← gets (paused_since run_id cursor)
  pause_interrupted now run_id announced (i ∷ is)

-- An exception of _invoke_resume is handled like one of the graph.
abbrev outcome_of : Result GraphCall → GraphOutcome → GraphOutcome
outcome_of (ok call) outcome = outcome
outcome_of (err e) outcome = raised "Exception"

after : Result (Unit {0}) → Coordinator → Coordinator
after (ok u) c = record c { executing = none }
after (err e) c = record c { executing = none; worker = ended }

-- The worker concludes the run that it executes.
pub finish_execution : GraphOutcome → ℕ → Coordinator → Coordinator
unfolding conclude after
finish_execution outcome now c = elim c.executing [
  | none ↦ c
  | some e ↦
      let (r, c') = conclude (outcome_of e.call outcome) e.event_cursor e.command.run_id now c in
      after r c'
]
