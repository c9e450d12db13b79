-- ===== src/Runtime/Models.antt =====
-- exam_predictor/runtime/models.py: runs, events and their enumerations.
use exam_sage.Common.{ℕ, String, Bool, true, false, Option, List}

-- RunStatus
pub data RunStatus : Type 0 where
  queued running stopping paused completed failed : RunStatus

pub RunStatus-discrete : Discrete RunStatus
RunStatus-discrete = hlevel

-- RunStatus.is_terminal
abbrev pub is_terminal : RunStatus → Bool
is_terminal completed = true
is_terminal failed = true
is_terminal _ = false

-- RunStatus.is_settled
abbrev pub is_settled : RunStatus → Bool
is_settled paused = true
is_settled completed = true
is_settled failed = true
is_settled _ = false

-- EventType
pub data EventType : Type 0 where
  queued started progress tool_started tool_completed message stop_requested paused resumed
        completed failed :
      EventType

-- A JSON object, as the fields that the coordinator writes: texts.
abbrev pub Payload : Type 0
Payload = List (String × String)

-- AgentEvent; a time is the number that an instant in UTC stands for.
pub record AgentEvent : Type 0 where
  pub sequence : ℕ
  pub run_id : String
  pub event_type : EventType
  pub stage : String
  pub message : String
  pub payload : Payload
  pub created_at : ℕ

-- RunSnapshot
pub record RunSnapshot : Type 0 where
  pub run_id : String
  pub thread_id : String
  pub provider_profile_id : String
  pub workspace_id : Option String
  pub message : String
  pub status : RunStatus
  pub error : Option String
  pub created_at : ℕ
  pub updated_at : ℕ
