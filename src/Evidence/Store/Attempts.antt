-- ===== src/Evidence/Store/Attempts.antt =====
-- exam_predictor/evidence/store.py: the recorded attempts of a claimed part.
use Prim.Native.Nat.{max}
use exam_sage.Common.{
  is_error_code, transaction, ℕ, String, Bool, true, ◌&&◌, not, Option, none, some, [], ◌∷◌, ◌++◌,
  leb, eqb, if◌then◌else◌, is_none, any, get_or, Method, ok, err, ◌>>=◌, ◌>>◌, pure, raise, gets,
  modify, ensure, value_error, integrity_error, ◌==◌,
}
use exam_sage.Evidence.Models.{PartState, SourcePartPlan}
use exam_sage.Evidence.Store.{
  Db, AttemptRow, require_part, update_part, part_is_current, row_token, is_running, is_retry_wait,
  plan_of, is_route,
}

-- The argument `outcome`: a state, or one of the words that stand for some.
pub data Outcome : Type 0 where
  state : PartState → Outcome
  word : String → Outcome

abbrev or_value_error : Option PartState → Method Db PartState
or_value_error none = raise value_error
or_value_error (some s) = pure s

pub alias : String → Option PartState
alias s =
    if s == "success"
    then some PartState.processed
    else if s == "processed"
    then some PartState.processed
    else if s == "retry"
    then some PartState.retry_wait
    else if s == "retry_wait"
    then some PartState.retry_wait
    else if s == "failed"
    then some PartState.failed
    else if s == "running"
    then some PartState.running
    else none

-- _attempt_state
unfoldable pub attempt_state : Outcome → Method Db PartState
unfolding alias
attempt_state (state s) = pure s
attempt_state (word w) = or_value_error (alias w)

abbrev pub is_bounded_code : Option String → Bool
is_bounded_code none = true
is_bounded_code (some code) = is_error_code code

-- INSERT INTO evidence_attempts, with UNIQUE(part_id, attempt_number)
abbrev pub insert_attempt : AttemptRow → Method Db Unit
insert_attempt row db =
    if any (λ a. a.part_id == row.part_id && eqb a.attempt_number row.attempt_number) db.attempts
    then (err integrity_error, db)
    else (ok tt, record db { attempts = db.attempts ++ row ∷ [] })

-- The transaction of record_attempt, behind the tests on the arguments
unfoldable pub store_attempt :
    (digest : String → String)
    → (part_id : String) → AttemptRow
    → (next_attempt_at : Option ℕ) → (claim_token : String) → Method Db SourcePartPlan
store_attempt digest part_id attempt next_attempt token = transaction (do
  part ← require_part part_id
  current ← gets (part_is_current digest part)
  ensure current value_error
  ensure (is_running part.state && token == row_token digest part) value_error
  insert_attempt attempt
  modify (
      update_part part_id (λ r. record r {
        state = attempt.outcome;
        attempt_count = max r.attempt_count attempt.attempt_number;
        next_attempt_at = next_attempt;
        updated_at = get_or attempt.finished_at attempt.started_at;
      }))
  row ← require_part part_id
  pure (plan_of row))

-- record_attempt
unfoldable pub record_attempt :
    (digest : String → String)
    → (part_id : String) → (attempt : ℕ) → (route : String) → Outcome
    → (started_at : ℕ) → (finished_at : Option ℕ) → (safe_error_code : Option String)
    → (next_attempt_at : Option ℕ) → (claim_token : String) → Method Db SourcePartPlan
unfolding attempt_state store_attempt
record_attempt digest part_id attempt route outcome started finished code next_attempt token = do
  ensure (leb 1 attempt) value_error
  ensure (is_route route) value_error
  ensure (is_bounded_code code) value_error
  result ← attempt_state outcome
  ensure (not (is_running result)) value_error
  ensure (not (is_retry_wait result && is_none next_attempt)) value_error
  store_attempt digest part_id
      (record {
        part_id = part_id;
        attempt_number = attempt;
        route = route;
        outcome = result;
        safe_error_code = code;
        started_at = started;
        finished_at = finished;
      })
      next_attempt token

-- fail_exhausted_claim
unfoldable pub fail_exhausted_claim :
    (digest : String → String)
    → (part_id claim_token : String) → (failed_at : ℕ) → Method Db SourcePartPlan
fail_exhausted_claim digest part_id token failed_at = transaction (do
  part ← require_part part_id
  current ← gets (part_is_current digest part)
  ensure (current && (is_running part.state && token == row_token digest part)) value_error
  modify (
      update_part part_id (λ r. record r {
        state = PartState.failed;
        next_attempt_at = none;
        updated_at = failed_at;
      }))
  row ← require_part part_id
  pure (plan_of row))
