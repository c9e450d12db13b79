-- ===== src/Evidence/Scheduler.antt =====
-- exam_predictor/evidence/scheduler.py: how EvidenceScheduler works on one claimed part. The provider,
-- the validator, the artifact store, the guard, the clocks and the stop requests are the environment.
pub mod Bounds
pub mod Pending
mod Scenarios
use Prim.Native.Nat.{max}
use exam_sage.Common.{
  ℕ, zero, suc, ◌+◌, ◌-◌, ◌*◌, ◌^◌, String, Bool, true, false, ◌&&◌, not, Option, none, some, List,
  [], ◌∷◌, ◌++◌, ltb, leb, eqb, if◌then◌else◌, is_none, Method, Result, ok, err, Error, ◌>>=◌, ◌>>◌,
  pure, raise, gets, modify, ensure, runtime_error,
}
use exam_sage.Evidence.Models.{PartState, SourcePartPlan, EvidenceUnit}
use exam_sage.Evidence.Store.{Db, attempt_count, route_attempt_count}
use exam_sage.Evidence.Store.Claims.{Claim, pause_claim, resume_claim}
use exam_sage.Evidence.Store.Attempts.{Outcome, record_attempt, fail_exhausted_claim}
use exam_sage.Evidence.Store.Publication.{Env, publish_evidence, reuse_cached_evidence}

-- The fields of EvidencePolicy that the retries and the validator read; a time is a number of ticks.
pub record Policy : Type 0 where
  pub max_attempts_per_route : ℕ
  pub retry_backoff : ℕ
  pub max_repair_attempts : ℕ

-- EvidenceProviderError
pub record ProviderError : Type 0 where
  pub code : String
  pub retryable : Bool
  pub retry_after : Option ℕ

-- What opening the part and building its request come to: EvidenceAuthorizationError, another
-- exception, or a request.
pub data Opening : Type 0 where
  denied unreadable opened : Opening

-- What EvidenceValidator.validate meets: what _validate_once makes of the first answer, whether ten
-- seconds are left, and what the repair comes to, none where repair_evidence raises, where its answer
-- is no text, or where _validate_once refuses it.
pub record Validation : Type 0 where
  pub first : Option EvidenceUnit
  pub has_time : Bool
  pub repaired : Option EvidenceUnit

-- What analyze_source_part comes to: EvidenceProviderError, another exception,
-- EvidenceAuthorizationError, or a result, with what its validation meets.
pub data Analysis : Type 0 where
  refused : ProviderError → Analysis
  invalid revoked : Analysis
  answered : Validation → Analysis

-- The environment's answers in one round of the retry loop.
pub record Round : Type 0 where
  pub must_pause : Bool
  pub started_at : ℕ
  pub opening : Opening
  pub must_pause_opened : Bool
  pub analysis : Analysis
  pub completed_at : ℕ
  pub finished_at : ℕ
  pub waited : Bool
  pub resumed_at : ℕ

-- provider.route_identity, with the keys that _route_key and _cache_key make of it
pub data Route : Type 0 where
  route_refused : ProviderError → Route
  route_raised : Route
  identified : (route_key cache_key : String) → Route

-- The environment's answers for one part; a round is named by its attempt number.
pub record World : Type 0 where
  pub must_pause : Bool
  pub route : Route
  pub guard_admits : Bool
  pub now : ℕ
  pub paused_at : ℕ
  pub round : ℕ → Round

-- The store, the token in `token_holder`, the number of calls of the provider, the emitted events.
pub record Work : Type 0 where
  pub db : Db
  pub token : String
  pub calls : ℕ
  pub events : List String

abbrev on_db : {A : Type 0} → Work → Result A × Db → Result A × Work
on_db w (r, db) = (r, record w { db = db })

abbrev store : {A : Type 0} → Method Db A → Method Work A
store m w = on_db w (m w.db)

abbrev emit : String → Method Work Unit
emit event = modify (λ w. record w { events = w.events ++ event ∷ [] })

-- provider.analyze_source_part, or provider.repair_evidence
abbrev call_provider : Method Work Unit
call_provider = modify (λ w. record w { calls = w.calls + 1 })

abbrev ignoring : {A : Type 0} → Result A × Work → Result (Unit {0}) × Work
ignoring (r, w) = (ok tt, w)

-- _pause_claim: the store raises nothing but the two exceptions that are caught.
unfoldable pub pause : Env → String → ℕ → Method Work Unit
pause env part_id now w = ignoring (store (pause_claim env.digest part_id w.token now) w)

-- _retry_delay
unfoldable pub retry_delay : Policy → Option ℕ → (attempt : ℕ) → ℕ
retry_delay policy none attempt = policy.retry_backoff * 2 ^ (attempt - 1)
retry_delay policy (some seconds) attempt = seconds

-- store.record_attempt under the present token
abbrev record_outcome :
    Env
    → (part_id : String) → (attempt : ℕ) → (route : String) → PartState
    → (started finished : ℕ) → (code : String) → (next_attempt : Option ℕ)
    → Method Work SourcePartPlan
record_outcome env part_id attempt route state started finished code next_attempt w =
    store
      (record_attempt env.digest part_id attempt route (Outcome.state state) started (some finished)
        (some code) next_attempt w.token)
      w

-- _record_failed, and the outcome behind it
unfoldable pub record_failed :
    Env
    → (part_id : String) → (attempt : ℕ) → (route code : String) → (started finished : ℕ)
    → Method Work PartState
record_failed env part_id attempt route code started finished = do
  record_outcome env part_id attempt route PartState.failed started finished code none
  emit "part_failed"
  pure PartState.failed

-- _record_recoverable_route_error
unfoldable pub record_recoverable :
    Env
    → (part_id : String) → (attempt : ℕ) → (route code : String) → (started finished : ℕ)
    → Method Work PartState
record_recoverable env part_id attempt route code started finished = do
  record_outcome env part_id attempt route PartState.retry_wait started finished code
      (some finished)
  emit "part_failed"
  pure PartState.retry_wait

abbrev paused : Env → String → ℕ → Method Work PartState
paused env part_id now = do pause env part_id now; pure PartState.retry_wait

abbrev hold : String → Method Work Unit
hold token = modify (λ w. record w { token = token })

-- The retry behind a provider's error: wait, and take the claim again.
unfoldable pub retry :
    Env → (part_id : String) → (attempt : ℕ) → Round → Method Work PartState → Method Work PartState
retry env part_id attempt round again w =
    if round.waited
    then (do
      claim ← store (resume_claim env.digest part_id w.token (attempt + 1) round.resumed_at)
      hold claim.claim_token
      again)
        w
    else (ok PartState.retry_wait, w)

-- `except EvidenceProviderError`
unfoldable pub on_error :
    Env
    → Policy
    → (part_id route : String) → (route_attempt attempt : ℕ) → Round
    → ProviderError
    → Method Work PartState
    → Method Work PartState
unfolding retry record_failed record_recoverable retry_delay
on_error env policy part_id route route_attempt attempt round error again =
    if error.retryable && ltb route_attempt policy.max_attempts_per_route
    then (do
      record_outcome env part_id attempt route PartState.retry_wait round.started_at
          round.finished_at error.code
          (some (round.finished_at + retry_delay policy error.retry_after route_attempt))
      emit "part_retrying"
      retry env part_id attempt round again)
    else if error.retryable
    then record_failed env part_id attempt route error.code round.started_at round.finished_at
    else record_recoverable env part_id attempt route error.code round.started_at round.finished_at

-- EvidenceValidator.validate behind the first refusal; the provider is the repairer.
unfoldable pub repair : Policy → Validation → Method Work (Option EvidenceUnit)
repair policy v =
    if eqb policy.max_repair_attempts 0
    then pure none
    else if v.has_time
    then (do call_provider; pure v.repaired)
    else pure none

-- EvidenceValidator.validate; none for EvidenceValidationError
unfoldable pub validate :
    Policy → Validation → Option EvidenceUnit → Method Work (Option EvidenceUnit)
unfolding repair
validate policy v (some unit) = pure (some unit)
validate policy v none = repair policy v

-- What follows the validation; an exception of the publication escapes.
unfoldable pub on_unit :
    Env
    → (part_id route cache_key : String) → (attempt : ℕ) → Round
    → Option EvidenceUnit
    → Method Work PartState
unfolding record_failed
on_unit env part_id route cache_key attempt round none =
    record_failed env part_id attempt route "evidence_validation_failed" round.started_at
      round.finished_at
on_unit env part_id route cache_key attempt round (some unit) = do
  token ← gets (λ w. w.token)
  store (publish_evidence env part_id unit cache_key token round.completed_at)
  emit "part_processed"
  pure PartState.processed

-- What follows the provider's answer
unfoldable pub on_analysis :
    Env
    → Policy
    → (part_id route cache_key : String) → (route_attempt attempt : ℕ) → Round
    → Analysis
    → Method Work PartState
    → Method Work PartState
unfolding on_error record_failed validate on_unit
on_analysis env policy part_id route cache_key route_attempt attempt round (refused error) again =
    on_error env policy part_id route route_attempt attempt round error again
on_analysis env policy part_id route cache_key route_attempt attempt round invalid again =
    record_failed env part_id attempt route "evidence_validation_failed" round.started_at
      round.finished_at
on_analysis env policy part_id route cache_key route_attempt attempt round revoked again =
    raise runtime_error
on_analysis env policy part_id route cache_key route_attempt attempt round (answered v) again = do
  unit ← validate policy v v.first
  on_unit env part_id route cache_key attempt round unit

-- The block that opens the part, asks the provider and publishes.
unfoldable pub attempt_part :
    Env
    → Policy
    → World
    → (part_id route cache_key : String) → (route_attempt attempt : ℕ) → Opening
    → Method Work PartState
    → Method Work PartState
unfolding on_analysis record_failed pause
attempt_part env policy world part_id route cache_key route_attempt attempt denied again =
    raise runtime_error
attempt_part env policy world part_id route cache_key route_attempt attempt unreadable again =
    let round = world.round attempt in
    record_failed env part_id attempt route "evidence_validation_failed" round.started_at
      round.finished_at
attempt_part env policy world part_id route cache_key route_attempt attempt opened again =
    let round = world.round attempt in
    if round.must_pause_opened then paused env part_id world.paused_at else (do
      call_provider
      on_analysis env policy part_id route cache_key route_attempt attempt round round.analysis
          again)

-- `while route_attempt <= max_attempts_per_route`, by the rounds that are left until it fails.
unfoldable pub attempt_rounds :
    Env
    → Policy
    → World
    → (part_id route cache_key : String) → (left route_attempt attempt : ℕ) → Method Work PartState
unfolding attempt_part pause
attempt_rounds env policy world part_id route cache_key zero route_attempt attempt =
    pure PartState.failed
attempt_rounds env policy world part_id route cache_key (suc left) route_attempt attempt =
    let again =
      attempt_rounds env policy world part_id route cache_key left (route_attempt + 1)
        (attempt + 1) in
    let round = world.round attempt in
    if round.must_pause then paused env part_id world.paused_at else (do
      emit "part_started"
      attempt_part env policy world part_id route cache_key route_attempt attempt round.opening
          again)

-- The attempts of a part that the cache does not serve.
unfoldable pub attempt_route :
    Env
    → Policy
    → World
    → (part_id route cache_key : String) → (recorded attempts : ℕ) → Method Work PartState
unfolding attempt_rounds
attempt_route env policy world part_id route cache_key recorded attempts w =
    if ltb policy.max_attempts_per_route (recorded + 1)
    then (do
      store (fail_exhausted_claim env.digest part_id w.token world.now)
      emit "part_failed"
      pure PartState.failed)
        w
    else attempt_rounds env policy world part_id route cache_key
        (policy.max_attempts_per_route + 1 - (recorded + 1)) (recorded + 1) (attempts + 1) w

-- What follows the look into the cache
unfoldable pub serve :
    Env
    → Policy
    → World
    → (part_id route cache_key : String) → Option EvidenceUnit
    → Method Work PartState
unfolding attempt_route
serve env policy world part_id route cache_key (some unit) = do
  emit "part_processed"
  pure PartState.processed
serve env policy world part_id route cache_key none = do
  attempts ← store (attempt_count part_id)
  recorded ← store (route_attempt_count part_id route)
  attempt_route env policy world part_id route cache_key recorded attempts

-- The part of _run_part behind the route's identity
unfoldable pub run_route : Env → Policy → World → (part_id : String) → Route → Method Work PartState
unfolding serve record_recoverable
run_route env policy world part_id (route_refused error) = do
  attempts ← store (attempt_count part_id)
  record_recoverable env part_id (attempts + 1) "provider:route-unavailable" error.code world.now
      world.now
run_route env policy world part_id route_raised = raise runtime_error
run_route env policy world part_id (identified route cache_key) = do
  ensure world.guard_admits runtime_error
  token ← gets (λ w. w.token)
  cached ← store (reuse_cached_evidence env part_id cache_key token world.now)
  serve env policy world part_id route cache_key cached

-- _run_part
unfoldable pub run_part : Env → Policy → World → (part_id : String) → Method Work PartState
unfolding run_route pause
run_part env policy world part_id =
    if world.must_pause
    then paused env part_id world.paused_at
    else run_route env policy world part_id world.route

abbrev guarded : Env → World → String → Result PartState × Work → PartState × Work
guarded env world part_id (ok state, w) = (state, w)
guarded env world part_id (err e, w) =
    (PartState.retry_wait, (pause env part_id world.paused_at w).1)

-- _run_part_guarded, for a claim that the store has handed out
unfoldable pub run_part_guarded : Env → Policy → World → Claim → List String → Db → PartState × Work
unfolding run_part
run_part_guarded env policy world claim events db = guarded env world claim.plan.part_id (
    run_part env policy world claim.plan.part_id
      (record { db = db; token = claim.claim_token; calls = 0; events = events }))

-- _pending_count, on the counts of part_state_counts
unfoldable pub pending_count : (PartState → ℕ) → ℕ
pending_count counts =
    counts PartState.planned
    + (counts PartState.authorized
        + (counts PartState.prepared + (counts PartState.running + counts PartState.retry_wait)))
