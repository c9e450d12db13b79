-- ===== src/Evidence/Scheduler/Bounds.antt =====
-- How often the scheduler calls the provider for a part.
use native.Mathlib.Omega.{arith}
use exam_sage.Common.{
  ℕ, zero, suc, ◌+◌, ◌-◌, ◌≤◌, String, ◌≡◌, refl, ap, ◌&&◌, Option, none, some, List, [], ◌∷◌, ◌++◌,
  Method, Result, ok, err, after_check, bind-then, ensure_same, ◌>>=◌, ◌>>◌, ensure, runtime_error,
  ltb, count, if_both, ◌==◌,
}
use exam_sage.Evidence.Models.{PartState, EvidenceUnit}
use exam_sage.Evidence.Store.{Db, PartRow, CacheRow, UnitRow, attempt_count, route_attempt_count}
use exam_sage.Evidence.Store.Claims.{Claim, resume_claim}
use exam_sage.Evidence.Store.Attempts.{Outcome, record_attempt}
use exam_sage.Evidence.Store.Publication.{
  Env, reuse, store_reused, insert_unit, reuse_cached_evidence,
}
use exam_sage.Evidence.Scheduler.{
  Policy, Round, Route, World, Work, Opening, Analysis, ProviderError, store, emit, pause,
  record_failed, record_recoverable, retry_delay, retry, Validation, repair, validate, on_unit,
  on_error, on_analysis, attempt_part, attempt_rounds, attempt_route, serve, run_route, run_part,
  run_part_guarded, guarded, hold,
}

-- A method that calls the provider n times at most.
abbrev pub IsBounded : {A : Type 0} → ℕ → Method Work A → Type 0
IsBounded n m = (w : Work) → (m w).1.calls ≤ w.calls + n

-- A transaction, and what follows it.
after_store :
    {A B : Type 0} (n : ℕ) (m : Method Db A) (f : A → Method Work B) (w : Work)
    → ((x : A) → IsBounded n (f x))
    → ((store m >>= f) w).1.calls ≤ w.calls + n
after_store {A} n m f w k = go (m w.db)
  where
    go : (y : Result A × Db) → ((store (λ _. y) >>= f) w).1.calls ≤ w.calls + n
    go (ok x, db) = k x (record w { db = db })
    go (err e, db) = omega arith

record_failed-IsBounded :
    (n : ℕ) (env : Env) (id : String) (attempt : ℕ) (route code : String) (started finished : ℕ)
    → IsBounded n (record_failed env id attempt route code started finished)
unfolding record_failed
record_failed-IsBounded n env id attempt route code started finished w = ground arith

record_recoverable-IsBounded :
    (n : ℕ) (env : Env) (id : String) (attempt : ℕ) (route code : String) (started finished : ℕ)
    → IsBounded n (record_recoverable env id attempt route code started finished)
unfolding record_recoverable
record_recoverable-IsBounded n env id attempt route code started finished w = ground arith

pause-calls :
    (env : Env) (id : String) (now : ℕ) (w : Work) → (pause env id now w).1.calls ≡ w.calls
unfolding pause
pause-calls env id now w = ground arith

retry-IsBounded :
    (n : ℕ) (env : Env) (id : String) (attempt : ℕ) (round : Round) (again : Method Work PartState)
    → IsBounded n again
    → IsBounded n (retry env id attempt round again)
unfolding retry
retry-IsBounded n env id attempt round again h w =
    if_both (λ (y : Result PartState × Work). y.1.calls ≤ w.calls + n) round.waited _ _
      (λ _.
        after_store n (resume_claim env.digest id w.token (attempt + 1) round.resumed_at)
          (λ claim. hold claim.claim_token >> again) w
          (λ claim v. h (record v { token = claim.claim_token })))
      (λ _. omega arith)

-- The validation calls the provider once at most, and not at all where no repair is allowed.
validate-IsBounded :
    (policy : Policy) (v : Validation) (o : Option EvidenceUnit)
    → IsBounded policy.max_repair_attempts (validate policy v o)
unfolding validate repair
validate-IsBounded policy v (some unit) w = omega arith
validate-IsBounded policy v none w = ground arith

on_unit-calls :
    (env : Env) (id route cache_key : String) (attempt : ℕ) (round : Round)
    (o : Option EvidenceUnit) (w : Work)
    → (on_unit env id route cache_key attempt round o w).1.calls ≤ w.calls
unfolding on_unit
on_unit-calls env id route cache_key attempt round none w =
    let same =
      record_failed-IsBounded 0 env id attempt route "evidence_validation_failed" round.started_at
        round.finished_at w in
    omega arith
on_unit-calls env id route cache_key attempt round (some unit) w = ground arith

-- The room left for calls holds those of a validation, and those of the rounds that follow.
module _ (n : ℕ) (env : Env) (policy : Policy) (world : World) (id route : String)
    (again : Method Work PartState) (h : IsBounded n again)
    (room : policy.max_repair_attempts ≤ n) where
  on_error-IsBounded :
      (route_attempt attempt : ℕ) (round : Round) (error : ProviderError)
      → IsBounded n (on_error env policy id route route_attempt attempt round error again)
  unfolding on_error
  on_error-IsBounded route_attempt attempt round error w =
      if_both (λ (m : Method Work PartState). (m w).1.calls ≤ w.calls + n)
        (error.retryable && ltb route_attempt policy.max_attempts_per_route) _ _
        (λ _.
          after_store n
            (record_attempt env.digest id attempt route (Outcome.state PartState.retry_wait)
              round.started_at (some round.finished_at) (some error.code)
              (some (round.finished_at + retry_delay policy error.retry_after route_attempt))
              w.token)
            (λ _. emit "part_retrying" >> retry env id attempt round again) w
            (λ _ v.
              retry-IsBounded n env id attempt round again h
                (record v { events = v.events ++ "part_retrying" ∷ [] })))
        (λ _.
          if_both (λ (m : Method Work PartState). (m w).1.calls ≤ w.calls + n) error.retryable _ _
            (λ _.
              record_failed-IsBounded n env id attempt route error.code round.started_at
                round.finished_at w)
            (λ _.
              record_recoverable-IsBounded n env id attempt route error.code round.started_at
                round.finished_at w))

  on_analysis-IsBounded :
      (cache_key : String) (route_attempt attempt : ℕ) (round : Round) (analysis : Analysis)
      → IsBounded n
          (on_analysis env policy id route cache_key route_attempt attempt round analysis again)
  unfolding on_analysis
  on_analysis-IsBounded cache_key route_attempt attempt round (Analysis.refused error) w =
      on_error-IsBounded route_attempt attempt round error w
  on_analysis-IsBounded cache_key route_attempt attempt round Analysis.invalid w =
      record_failed-IsBounded n env id attempt route "evidence_validation_failed" round.started_at
        round.finished_at w
  on_analysis-IsBounded cache_key route_attempt attempt round Analysis.revoked w = omega arith
  on_analysis-IsBounded cache_key route_attempt attempt round (Analysis.answered v) w =
      bind-then (λ x. x.calls ≤ w.calls + policy.max_repair_attempts) (λ x. x.calls ≤ w.calls + n)
        (validate policy v v.first) (on_unit env id route cache_key attempt round) w
        (validate-IsBounded policy v v.first w) (λ x k. omega arith)
        (λ o x k. omega (arith, on_unit-calls env id route cache_key attempt round o x))

  attempt_part-IsBounded :
      (cache_key : String) (route_attempt attempt : ℕ) (opening : Opening)
      → IsBounded
          (suc n)
          (attempt_part env policy world id route cache_key route_attempt attempt opening again)
  unfolding attempt_part
  attempt_part-IsBounded cache_key route_attempt attempt Opening.denied w = omega arith
  attempt_part-IsBounded cache_key route_attempt attempt Opening.unreadable w =
      record_failed-IsBounded (suc n) env id attempt route "evidence_validation_failed" _ _ w
  attempt_part-IsBounded cache_key route_attempt attempt Opening.opened w = ground (
    arith,
    pause-calls env id world.paused_at w,
    on_analysis-IsBounded cache_key route_attempt attempt (world.round attempt)
        ((world.round attempt).analysis) (record w { calls = w.calls + 1 }),
  )

attempt_rounds-IsBounded :
    (env : Env) (policy : Policy) (world : World) (id route cache_key : String)
    (left route_attempt attempt : ℕ)
    → IsBounded
        (left + policy.max_repair_attempts)
        (attempt_rounds env policy world id route cache_key left route_attempt attempt)
unfolding attempt_rounds
attempt_rounds-IsBounded env policy world id route cache_key zero route_attempt attempt w =
    omega arith
attempt_rounds-IsBounded env policy world id route cache_key (suc left) route_attempt attempt w =
    let again =
      attempt_rounds env policy world id route cache_key left (route_attempt + 1) (attempt + 1) in
    let next =
      attempt_part-IsBounded (left + policy.max_repair_attempts) env policy world id route again
        (attempt_rounds-IsBounded env policy world id route cache_key left (route_attempt + 1)
          (attempt + 1))
        (omega arith) cache_key route_attempt attempt (world.round attempt).opening
        (record w { events = w.events ++ "part_started" ∷ [] }) in
    ground (arith, pause-calls env id world.paused_at w, next)

-- The attempts that are recorded for a part and a route.
abbrev pub recorded_attempts : String → String → Db → ℕ
recorded_attempts id route db = count (λ a. a.part_id == id && a.route == route) db.attempts

reuse-attempts :
    (env : Env) (id digest : String) (part : PartRow) (now : ℕ) (o : Option (CacheRow × UnitRow))
    (db : Db)
    → (reuse env id digest part now o db).1.attempts ≡ db.attempts
unfolding reuse store_reused insert_unit
reuse-attempts env id digest part now none db = refl
reuse-attempts env id digest part now (some (c, row)) db = ground arith

reuse_cached_evidence-attempts :
    (env : Env) (id key token : String) (now : ℕ) (db : Db)
    → (reuse_cached_evidence env id key token now db).1.attempts ≡ db.attempts
unfolding reuse_cached_evidence
reuse_cached_evidence-attempts env id key token now db = ground (
  arith,
  λ (part : PartRow) (o : Option (CacheRow × UnitRow)).
      reuse-attempts env id (env.digest key) part now o db,
)

attempt_route-IsBounded :
    (env : Env) (policy : Policy) (world : World) (id route cache_key : String)
    (recorded attempts : ℕ)
    → IsBounded
        (policy.max_attempts_per_route - recorded + policy.max_repair_attempts)
        (attempt_route env policy world id route cache_key recorded attempts)
unfolding attempt_route
attempt_route-IsBounded env policy world id route cache_key recorded attempts w =
    let rounds =
      attempt_rounds-IsBounded env policy world id route cache_key
        (policy.max_attempts_per_route + 1 - (recorded + 1)) (recorded + 1) (attempts + 1) w in
    ground (arith, rounds)

-- A read of the store, and what follows it.
after_read :
    {A B : Type 0} (bound : ℕ) (m : Method Db A) (f : A → Method Work B) (w : Work)
    → (m w.db).1 ≡ w.db
    → w.calls ≤ bound
    → ((x : A) → (m w.db).0 ≡ ok x → (f x w).1.calls ≤ bound)
    → ((store m >>= f) w).1.calls ≤ bound
after_read bound m f w same =
    after_check (λ v. v.calls ≤ bound) (store m) f w (ap (λ d. record w { db = d }) same)

attempt_count-same : (id : String) (db : Db) → (attempt_count id db).1 ≡ db
unfolding attempt_count
attempt_count-same id db = ground arith

route_attempt_count-same : (id route : String) (db : Db) → (route_attempt_count id route db).1 ≡ db
unfolding route_attempt_count
route_attempt_count-same id route db = ground arith

route_attempt_count-recorded :
    (id route : String) (db : Db) (n : ℕ)
    → (route_attempt_count id route db).0 ≡ ok n
    → n ≡ recorded_attempts id route db
unfolding route_attempt_count
route_attempt_count-recorded id route db n e = ground arith

serve-calls :
    (env : Env) (policy : Policy) (world : World) (id route cache_key : String)
    (o : Option EvidenceUnit) (w : Work)
    → (serve env policy world id route cache_key o w).1.calls
      ≤ w.calls
        + (policy.max_attempts_per_route
            - recorded_attempts id route w.db
            + policy.max_repair_attempts)
unfolding serve
serve-calls env policy world id route cache_key (some unit) w = omega arith
serve-calls env policy world id route cache_key none w =
    let bound =
      w.calls
      + (policy.max_attempts_per_route
          - recorded_attempts id route w.db
          + policy.max_repair_attempts) in
    after_read bound (attempt_count id) _ w (attempt_count-same id w.db) (omega arith)
      (λ attempts _.
        after_read bound (route_attempt_count id route)
          (λ recorded. attempt_route env policy world id route cache_key recorded attempts) w
          (route_attempt_count-same id route w.db) (omega arith)
          (λ recorded e.
            let same = route_attempt_count-recorded id route w.db recorded e in
            let most =
              attempt_route-IsBounded env policy world id route cache_key recorded attempts w in
            ground (arith, same, most)))

module _ (env : Env) (policy : Policy) (world : World) (id route cache_key : String)
    (w : Work) where
  -- A transaction that records no attempt, and the way on from what it gives.
  serve_next :
      (y : Result (Option EvidenceUnit) × Db)
      → y.1.attempts ≡ w.db.attempts
      → ((store (λ _. y) >>= serve env policy world id route cache_key) w).1.calls
        ≤ w.calls
          + (policy.max_attempts_per_route
              - recorded_attempts id route w.db
              + policy.max_repair_attempts)
  serve_next (ok o, d) kept =
      let served = serve-calls env policy world id route cache_key o (record w { db = d }) in
      let same : (recorded_attempts id route d ≡ recorded_attempts id route w.db) =
        ap (count (λ a. a.part_id == id && a.route == route)) kept in
      omega arith
  serve_next (err e, d) kept = omega arith

  run_route-calls :
      (run_route env policy world id (Route.identified route cache_key) w).1.calls
      ≤ w.calls
        + (policy.max_attempts_per_route
            - recorded_attempts id route w.db
            + policy.max_repair_attempts)
  unfolding run_route
  run_route-calls =
      after_check
        (λ v.
          v.calls
          ≤ w.calls
            + (policy.max_attempts_per_route
                - recorded_attempts id route w.db
                + policy.max_repair_attempts))
        (ensure world.guard_admits runtime_error) _ w
        (ensure_same world.guard_admits runtime_error w) (omega arith)
        (λ _ _.
          serve_next (reuse_cached_evidence env id cache_key w.token world.now w.db)
            (reuse_cached_evidence-attempts env id cache_key w.token world.now w.db))

  run_part-calls :
      world.route ≡ Route.identified route cache_key
      → (run_part env policy world id w).1.calls
        ≤ w.calls
          + (policy.max_attempts_per_route
              - recorded_attempts id route w.db
              + policy.max_repair_attempts)
  unfolding run_part
  run_part-calls e =
      if_both
        (λ (m : Method Work PartState).
          (m w).1.calls
          ≤ w.calls
            + (policy.max_attempts_per_route
                - recorded_attempts id route w.db
                + policy.max_repair_attempts))
        world.must_pause _ _ (λ _. let same = pause-calls env id world.paused_at w in omega arith)
        (λ _. rw e run_route-calls)

guarded-calls :
    (env : Env) (world : World) (id : String) (y : Result PartState × Work)
    → (guarded env world id y).1.calls ≡ y.1.calls
guarded-calls env world id (ok state, w) = refl
guarded-calls env world id (err e, w) = pause-calls env id world.paused_at w

-- If the provider's route is identified, then while a claimed part is worked on, the provider is
-- called, for analyses and repairs together, at most as often as the limit of attempts per route
-- exceeds the number of attempts that the store has recorded for the part and the route, plus the
-- limit of repairs, whatever the environment answers.
pub provider_calls_bounded :
    (env : Env) (policy : Policy) (world : World) (claim : Claim) (events : List String) (db : Db)
    (route cache_key : String)
    → world.route ≡ Route.identified route cache_key
    → (run_part_guarded env policy world claim events db).1.calls
      ≤ policy.max_attempts_per_route
        - recorded_attempts claim.plan.part_id route db
        + policy.max_repair_attempts
unfolding run_part_guarded
provider_calls_bounded env policy world claim events db route cache_key e =
    let id = claim.plan.part_id in
    let w : Work = record { db = db; token = claim.claim_token; calls = 0; events = events } in
    let kept = guarded-calls env world id (run_part env policy world id w) in
    let most = run_part-calls env policy world id route cache_key w e in omega arith
