-- ===== src/Runtime/Control.antt =====
-- exam_predictor/runtime/control.py: one stop flag for each run.
pub mod Refines
mod Scenarios
use exam_sage.Common.{
  String, Bool, true, false, Option, none, some, List, [], ◌∷◌, ◌++◌, ◌==◌, filter, not,
}
use exam_sage.Common.Table.{lookup, update}

-- `Event` of threading: its flag.
pub record StopEvent : Type 0 where
  pub run_id : String
  pub is_set : Bool

-- The dictionary `_events`.
abbrev pub Registry : Type 0
Registry = List StopEvent

abbrev pub key : StopEvent → String
key e = e.run_id

or_insert : String → Option StopEvent → Registry → Registry
or_insert run_id none events = events ++ record { run_id = run_id; is_set = false } ∷ []
or_insert run_id (some e) events = events

-- _event: `setdefault`
event : String → Registry → Registry
unfolding or_insert lookup
event run_id events = or_insert run_id (lookup key run_id events) events

pub request_stop : String → Registry → Registry
unfolding event update
request_stop run_id events =
    update key run_id (λ e. record e { is_set = true }) (event run_id events)

pub clear_stop : String → Registry → Registry
unfolding event update
clear_stop run_id events =
    update key run_id (λ e. record e { is_set = false }) (event run_id events)

flag : Option StopEvent → Bool
flag none = false
flag (some e) = e.is_set

-- is_stop_requested: the answer, and the registry in which the flag now exists.
pub is_stop_requested : String → Registry → Bool × Registry
unfolding event flag lookup
is_stop_requested run_id events =
    (flag (lookup key run_id (event run_id events)), event run_id events)

-- `pop(run_id, None)`
pub discard : String → Registry → Registry
discard run_id = filter (λ e. not (e.run_id == run_id))
