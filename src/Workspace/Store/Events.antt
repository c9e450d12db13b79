-- ===== src/Workspace/Store/Events.antt =====
-- The events of a job: what they may hold, and their table.
use exam_sage.Common.{
  ℕ, suc, String, Bool, true, false, ◌&&◌, Option, none, some, List, [], ◌∷◌, ◌++◌, map, leb, ltb,
  any, filter, if◌then◌else◌, Method, Result, ok, err, ◌>>=◌, ◌>>◌, pure, raise, gets, modify,
  ensure, value_error, ◌==◌, is_error_code, is_safe_id,
}
use exam_sage.Common.Table.{lookup}
use exam_sage.Workspace.Models.{PayloadValue, WorkspaceEvent}
use exam_sage.Workspace.Paths.{normalize_relative_path}
use exam_sage.Workspace.Store.{Db}

abbrev pub Payload : Type 0
Payload = List (String × PayloadValue)

-- A rule of _EVENT_RULES
pub record EventRule : Type 0 where
  pub message : String
  pub allowed : List String
  pub required : List String

abbrev rule : String → List String → List String → Option EventRule
rule message allowed required =
    some (record { message = message; allowed = allowed; required = required })

abbrev progress_keys : List String
progress_keys = "bytes_hashed" ∷ "current_relative_path" ∷ "discovered_count" ∷ "failure_count" ∷ []

abbrev approval_keys : List String
approval_keys = "bytes_hashed" ∷ "discovered_count" ∷ "failure_count" ∷ "revision_id" ∷ []

-- _EVENT_RULES
unfoldable pub event_rule : String → Option EventRule
event_rule event_type =
    if event_type == "queued"
    then rule "Workspace operation queued." [] []
    else if event_type == "started"
    then rule "Workspace scan started." [] []
    else if event_type == "scan_progress"
    then rule "Scanning course files." progress_keys progress_keys
    else if event_type == "approval_required"
    then rule "Scan complete. Review the selected course files." approval_keys approval_keys
    else if event_type == "succeeded"
    then rule "Workspace operation completed." ("revision_id" ∷ []) []
    else if event_type == "failed"
    then rule "Workspace scan failed." ("safe_error_code" ∷ []) ("safe_error_code" ∷ [])
    else if event_type == "cancelled"
    then rule "Workspace operation cancelled." ("safe_error_code" ∷ []) []
    else none

unfoldable pub every : (String → Bool) → List String → Bool
every p [] = true
every p (x ∷ xs) = p x && every p xs

abbrev pub mem : String → List String → Bool
mem s = any (λ t. t == s)

abbrev pair_key : String × PayloadValue → String
pair_key p = p.0

-- payload[key], if it is there
abbrev value_of : String → Payload → Option PayloadValue
value_of key payload = elim (lookup pair_key key payload) [ none ↦ none | some (k, v) ↦ some v ]

abbrev is_counter : Option PayloadValue → Bool
is_counter none = true
is_counter (some (PayloadValue.count n)) = true
is_counter _ = false

unfoldable pub text_length : String → ℕ
text_length String.[] = 0
text_length (String.◌∷◌ c s) = suc (text_length s)

abbrev is_normal : String → Result String → Result (Unit {0})
is_normal value (ok path) =
    if path == value && leb (text_length path) 1024 then ok tt else err value_error
is_normal value (err e) = err e

abbrev check_path : Option PayloadValue → Result (Unit {0})
check_path none = ok tt
check_path (some PayloadValue.absent) = ok tt
check_path (some (PayloadValue.text value)) = is_normal value (normalize_relative_path value)
check_path _ = err value_error

abbrev is_text : (String → Bool) → Option PayloadValue → Bool
is_text p none = true
is_text p (some (PayloadValue.text value)) = p value
is_text p _ = false

abbrev lift : Result (Unit {0}) → Method Db Unit
lift r db = (r, db)

-- The tests behind the rule. A secret-shaped key is no allowed key, and both raise the same.
unfoldable pub check_payload : EventRule → (message : String) → Payload → Method Db Unit
unfolding every text_length
check_payload r message payload = do
  ensure (message == r.message) value_error
  ensure
      (every (λ k. mem k (map pair_key payload)) r.required
        && every (λ k. mem k r.allowed) (map pair_key payload))
      value_error
  ensure
      (is_counter (value_of "bytes_hashed" payload)
        && (is_counter (value_of "discovered_count" payload)
            && is_counter (value_of "failure_count" payload)))
      value_error
  lift (check_path (value_of "current_relative_path" payload))
  ensure (is_text is_error_code (value_of "safe_error_code" payload)) value_error
  ensure (is_text is_safe_id (value_of "revision_id" payload)) value_error

-- _validated_event_payload
unfoldable pub validate_event : (event_type message : String) → Payload → Method Db Unit
unfolding event_rule check_payload
validate_event event_type message payload = elim (event_rule event_type) [
  | none ↦ raise value_error
  | some r ↦ check_payload r message payload
]

-- The row that INSERT INTO workspace_events adds, with the next sequence number.
unfoldable pub new_event :
    (job_id event_type message : String) → Payload → (now : ℕ) → Db → WorkspaceEvent
new_event job_id event_type message payload now db = record {
  sequence = suc db.last_sequence;
  job_id = job_id;
  event_type = event_type;
  message = message;
  payload = payload;
  created_at = now;
}

unfoldable pub store_event : WorkspaceEvent → Db → Db
store_event event db = record db {
  events = db.events ++ event ∷ [];
  last_sequence = event.sequence;
}

-- _insert_event
unfoldable pub insert_event :
    (job_id event_type message : String) → Payload → (now : ℕ) → Method Db WorkspaceEvent
unfolding validate_event new_event store_event
insert_event job_id event_type message payload now = do
  validate_event event_type message payload
  event ← gets (new_event job_id event_type message payload now)
  modify (store_event event)
  pure event

-- list_job_events; the rows stand in the order of their sequence numbers.
unfoldable pub list_job_events : String → (after_sequence : ℕ) → Db → List WorkspaceEvent
list_job_events job_id after db = filter (λ e. e.job_id == job_id && ltb after e.sequence) db.events
