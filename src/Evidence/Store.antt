-- ===== src/Evidence/Store.antt =====
-- exam_predictor/evidence/store.py: the tables of EvidenceStore, its transactions, and the reads.
pub mod Claims
pub mod Attempts
pub mod Publication
pub mod Fencing
pub mod Releasing
pub mod Republication
pub mod Claiming
mod Scenarios
use Prim.Native.Char.{code}
use Prim.Native.String.{compare, ◌++◌ as ◌<>◌}
use Prim.Native.Nat.{Ordering}
use exam_sage.Common.{
  is_alnum, up_to, is_error_code, ℕ, zero, suc, ◌+◌, String, Bool, true, false, ◌&&◌, ◌||◌, not,
  Option, none, some, List, [], ◌∷◌, map, leb, ltb, eqb, if◌then◌else◌, is_none, filter, count,
  length, Method, Result, ok, err, Error, ◌>>=◌, ◌>>◌, pure, raise, gets, modify, ensure, key_error,
  value_error, ◌==◌,
}
use exam_sage.Common.Table.{lookup, update}
use exam_sage.Evidence.Models.{PartState, SourcePartPlan, EvidenceUnit}
use exam_sage.Evidence.Tokens.{claim_token}

-- A row of evidence_parts: the plan, whose fields fill the other columns of the source, and the
-- columns that the store changes.
pub record PartRow : Type 0 where
  pub plan : SourcePartPlan
  pub state : PartState
  pub attempt_count : ℕ
  pub next_attempt_at : Option ℕ
  pub plan_generation : ℕ
  pub claim_generation : ℕ
  pub created_at : ℕ
  pub updated_at : ℕ

-- A row of evidence_meta
pub record MetaRow : Type 0 where
  pub name : String
  pub value : String

-- A row of evidence_attempts
pub record AttemptRow : Type 0 where
  pub part_id : String
  pub attempt_number : ℕ
  pub route : String
  pub outcome : PartState
  pub safe_error_code : Option String
  pub started_at : ℕ
  pub finished_at : Option ℕ

-- A row of evidence_units; unit_json is the unit itself.
pub record UnitRow : Type 0 where
  pub unit : EvidenceUnit
  pub unit_sha256 : String
  pub published_at : ℕ

-- A row of evidence_cache
pub record CacheRow : Type 0 where
  pub cache_digest : String
  pub evidence_unit_id : String
  pub unit_sha256 : String
  pub source_sha256 : String
  pub plan_generation : Option ℕ
  pub claim_generation : Option ℕ
  pub created_at : ℕ

pub record Db : Type 0 where
  pub parts : List PartRow
  pub meta : List MetaRow
  pub attempts : List AttemptRow
  pub units : List UnitRow
  pub cache : List CacheRow

abbrev pub part_key : PartRow → String
part_key r = r.plan.part_id

abbrev pub find_part : String → Db → Option PartRow
find_part part_id db = lookup part_key part_id db.parts

-- SELECT ... WHERE part_id = ?, with the KeyError for a missing part
abbrev row_or_error : Option PartRow → Method Db PartRow
row_or_error none = raise key_error
row_or_error (some r) = pure r

abbrev pub require_part : String → Method Db PartRow
require_part part_id db = row_or_error (find_part part_id db) db

-- UPDATE evidence_parts SET ... WHERE part_id = ?
abbrev pub update_part : String → (PartRow → PartRow) → Db → Db
update_part part_id f db = record db { parts = update part_key part_id f db.parts }

abbrev meta_key : MetaRow → String
meta_key m = m.name

-- f"current_revision:{digest(workspace_id)}"
abbrev current_name : (String → String) → String → String
current_name digest workspace_id = ◌<>◌ "current_revision:" (digest workspace_id)

abbrev has_value : String → Option MetaRow → Bool
has_value value none = false
has_value value (some m) = m.value == value

-- is_current_revision
unfoldable pub is_current :
    (digest : String → String) → (workspace_id revision_id : String) → Db → Bool
is_current digest workspace_id revision_id db =
    has_value revision_id (lookup meta_key (current_name digest workspace_id) db.meta)

-- The test on a part's own revision that the transactions make.
abbrev pub part_is_current : (digest : String → String) → PartRow → Db → Bool
part_is_current digest r db = is_current digest r.plan.workspace_id r.plan.revision_id db

-- The token of the row's present generations.
abbrev pub row_token : (digest : String → String) → PartRow → String
row_token digest r = claim_token digest r.plan.part_id r.plan_generation r.claim_generation

abbrev pub is_running : PartState → Bool
is_running PartState.running = true
is_running _ = false

abbrev pub is_retry_wait : PartState → Bool
is_retry_wait PartState.retry_wait = true
is_retry_wait _ = false

-- _part: the plan with the row's state
abbrev pub plan_of : PartRow → SourcePartPlan
plan_of r = record r.plan { state = r.state }

-- get_part
pub get_part : String → Method Db SourcePartPlan
get_part part_id = do row ← require_part part_id; pure (plan_of row)

-- attempt_count
unfoldable pub attempt_count : String → Method Db ℕ
attempt_count part_id = do row ← require_part part_id; pure row.attempt_count

abbrev pub in_revision : (workspace_id revision_id : String) → PartRow → Bool
in_revision workspace_id revision_id r =
    r.plan.workspace_id == workspace_id && r.plan.revision_id == revision_id

abbrev pub state_eq : PartState → PartState → Bool
state_eq PartState.planned PartState.planned = true
state_eq PartState.authorized PartState.authorized = true
state_eq PartState.prepared PartState.prepared = true
state_eq PartState.running PartState.running = true
state_eq PartState.processed PartState.processed = true
state_eq PartState.retry_wait PartState.retry_wait = true
state_eq PartState.failed PartState.failed = true
state_eq PartState.invalidated PartState.invalidated = true
state_eq _ _ = false

-- part_state_counts; a state that the source leaves out of the dictionary counts 0.
unfoldable pub part_state_counts : (workspace_id revision_id : String) → Db → PartState → ℕ
part_state_counts workspace_id revision_id db state =
    count (λ r. in_revision workspace_id revision_id r && state_eq r.state state) db.parts

is_route_char : ℕ → Bool
unfolding is_alnum
is_route_char c = is_alnum c || (eqb c 95 || (eqb c 46 || (eqb c 58 || eqb c 45)))

-- [A-Za-z0-9][A-Za-z0-9_.:-]{0,127}
unfoldable pub is_route : String → Bool
unfolding is_alnum is_route_char up_to
is_route String.[] = false
is_route (String.◌∷◌ c s) = is_alnum (code c) && up_to is_route_char 127 s

-- route_attempt_count
unfoldable pub route_attempt_count : (part_id route : String) → Method Db ℕ
unfolding is_route
route_attempt_count part_id route = do
  ensure (is_route route) value_error
  gets (λ db. count (λ a. a.part_id == part_id && a.route == route) db.attempts)

abbrev comes_first : String → String → Bool
comes_first s t = elim (compare s t) [ Ordering.gt ↦ false | _ ↦ true ]

-- A column of ORDER BY: the later columns count where it is equal.
abbrev by : ℕ → ℕ → Bool → Bool
by m n later = if ltb m n then true else if ltb n m then false else later

-- ORDER BY priority ASC, scheduling_rank ASC, ordinal ASC, part_id ASC
abbrev pub scheduled_no_later : PartRow → PartRow → Bool
scheduled_no_later a b = by a.plan.priority b.plan.priority (
    by a.plan.scheduling_rank b.plan.scheduling_rank
      (by a.plan.ordinal b.plan.ordinal (comes_first a.plan.part_id b.plan.part_id)))
