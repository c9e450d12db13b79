-- ===== src/Evidence/Store/Fencing.antt =====
-- A token of another generation than the part's present one gives no access.
use native.Mathlib.Omega.{arith}
use exam_sage.Common.{
  ℕ, String, ◌≡◌, refl, ap, ◌∙◌, Bool, false, ◌&&◌, Option, none, some, Result, is_ok, ◌==◌, eq_iff,
  inl, inr, Bool-cases,
}
use exam_sage.Common.Table.{lookup-key}
use exam_sage.Evidence.Models.{PartState, EvidenceUnit}
use exam_sage.Evidence.Tokens.{claim_token, claim_token-injective}
use exam_sage.Evidence.Store.{
  Db, PartRow, AttemptRow, part_key, find_part, row_token, is_running, is_retry_wait,
}
use exam_sage.Evidence.Store.Claims.{resume_claim, pause_claim}
use exam_sage.Evidence.Store.Attempts.{
  Outcome, alias, record_attempt, store_attempt, fail_exhausted_claim, attempt_state,
}
use exam_sage.Evidence.Store.Publication.{
  Env, publish_claimed, is_processed, publish_evidence, reuse_cached_evidence,
}

-- No result, and the tables as they were.
abbrev pub IsRefused : {A : Type 0} → Db → Result A × Db → Type 0
IsRefused before x = (is_ok x.0 ≡ false) × (x.1 ≡ before)

-- A part whose row is there and which does not run under the token.
module _ (digest : String → String) (id token : String) (db : Db) (r : PartRow)
    (found : find_part id db ≡ some r)
    (barred : (is_running r.state && token == row_token digest r) ≡ false) where
  pause_claim-IsRefused : (now : ℕ) → IsRefused db (pause_claim digest id token now db)
  unfolding pause_claim
  pause_claim-IsRefused now = (ground arith, ground arith)

  fail_exhausted_claim-IsRefused :
      (now : ℕ) → IsRefused db (fail_exhausted_claim digest id token now db)
  unfolding fail_exhausted_claim
  fail_exhausted_claim-IsRefused now = (ground arith, ground arith)

  store_attempt-IsRefused :
      (attempt : AttemptRow) (next_attempt : Option ℕ)
      → IsRefused db (store_attempt digest id attempt next_attempt token db)
  unfolding store_attempt
  store_attempt-IsRefused attempt next_attempt = (ground arith, ground arith)

  record_state-IsRefused :
      (attempt : ℕ) (route : String) (s : PartState) (started : ℕ) (finished : Option ℕ)
      (code : Option String) (next_attempt : Option ℕ)
      → IsRefused db (
          record_attempt digest id attempt route
            (Outcome.state s)
            started
            finished
            code
            next_attempt
            token
            db)
  unfolding record_attempt attempt_state
  record_state-IsRefused attempt route s started finished code next_attempt =
      let stored = λ (x : AttemptRow). store_attempt-IsRefused x next_attempt in
      (
        ground (arith, λ (x : AttemptRow). (stored x).0),
        ground (arith, λ (x : AttemptRow). (stored x).1),
      )

  record_attempt-IsRefused :
      (attempt : ℕ) (route : String) (outcome : Outcome) (started : ℕ) (finished : Option ℕ)
      (code : Option String) (next_attempt : Option ℕ)
      → IsRefused db (
          record_attempt digest id attempt route outcome started finished code next_attempt token
            db)
  unfolding record_attempt attempt_state
  record_attempt-IsRefused attempt route (Outcome.state s) started finished code next_attempt =
      record_state-IsRefused attempt route s started finished code next_attempt
  record_attempt-IsRefused attempt route (Outcome.word w) started finished code next_attempt =
      go (alias w) refl
    where
      go :
          (o : Option PartState)
          → alias w ≡ o
          → IsRefused db (
              record_attempt digest id attempt route
                (Outcome.word w)
                started
                finished
                code
                next_attempt
                token
                db)
      go none e = (ground arith, ground arith)
      go (some s) e =
          rw e (record_state-IsRefused attempt route s started finished code next_attempt)

reuse_cached_evidence-IsRefused :
    (env : Env) (id token : String) (db : Db) (r : PartRow)
    → find_part id db ≡ some r
    → (is_running r.state && token == row_token env.digest r) ≡ false
    → (cache_key : String) (now : ℕ)
    → IsRefused db (reuse_cached_evidence env id cache_key token now db)
unfolding reuse_cached_evidence
reuse_cached_evidence-IsRefused env id token db r found barred cache_key now =
    (ground arith, ground arith)

resume_claim-IsRefused :
    (digest : String → String) (id token : String) (db : Db) (r : PartRow)
    → find_part id db ≡ some r
    → (is_retry_wait r.state && token == row_token digest r) ≡ false
    → (attempt now : ℕ) → IsRefused db (resume_claim digest id token attempt now db)
unfolding resume_claim
resume_claim-IsRefused digest id token db r found barred attempt now = (ground arith, ground arith)

publish_evidence-IsRefused :
    (env : Env) (id token : String) (db : Db) (r : PartRow)
    → find_part id db ≡ some r
    → (token == row_token env.digest r) ≡ false
    → (u : EvidenceUnit) (cache_key : String) (now : ℕ)
    → IsRefused db (publish_evidence env id u cache_key token now db)
unfolding publish_evidence
publish_evidence-IsRefused env id token db r found stale u cache_key now =
    (ground arith, ground arith)

publish_evidence-unclaimed :
    (env : Env) (id token : String) (db : Db) (r : PartRow)
    → find_part id db ≡ some r
    → is_running r.state ≡ false
    → is_processed r.state ≡ false
    → (u : EvidenceUnit) (cache_key : String) (now : ℕ)
    → IsRefused db (publish_evidence env id u cache_key token now db)
unfolding publish_evidence publish_claimed
publish_evidence-unclaimed env id token db r found waits fresh u cache_key now =
    (ground arith, ground arith)

and_false : (b c : Bool) → c ≡ false → (b && c) ≡ false
and_false b c e = ground arith

-- A token of other generations than the row's is not the row's token.
other_generation :
    (digest : String → String) (id : String) (a b : ℕ) (db : Db) (r : PartRow)
    → ((s t : String) → digest s ≡ digest t → s ≡ t)
    → find_part id db ≡ some r
    → ¬ ((a ≡ r.plan_generation) × (b ≡ r.claim_generation))
    → (claim_token digest id a b == row_token digest r) ≡ false
other_generation digest id a b db r apart found other =
    elim (Bool-cases (claim_token digest id a b == row_token digest r)) [
      | inl e ↦ absurd (
          other (
            claim_token-injective digest id a b r.plan_generation r.claim_generation apart (
              (eq_iff _ _).0 e
              ∙ ap (λ k. claim_token digest k r.plan_generation r.claim_generation)
                  (lookup-key part_key id db.parts {x = r} found))))
      | inr e ↦ e
    ]

-- If the digest has no collisions, the part's row is there, and a token was made for generations
-- that are not both the row's present ones, then each of the six operations that take a claim token
-- raises and leaves every table as it was, whatever its other arguments: record_attempt,
-- fail_exhausted_claim, resume_claim, pause_claim, publish_evidence and reuse_cached_evidence.
pub stale_token-IsRefused :
    (env : Env) (id : String) (plan_generation claim_generation : ℕ) (db : Db) (r : PartRow)
    → ((s t : String) → env.digest s ≡ env.digest t → s ≡ t)
    → find_part id db ≡ some r
    → ¬ ((plan_generation ≡ r.plan_generation) × (claim_generation ≡ r.claim_generation))
    → let token = claim_token env.digest id plan_generation claim_generation in
      (((attempt : ℕ) (route : String) (outcome : Outcome) (started : ℕ) (finished : Option ℕ)
            (code : Option String) (next_attempt : Option ℕ)
          → IsRefused db (
              record_attempt env.digest id attempt route outcome started finished code next_attempt
                token db))
        × ((now : ℕ) → IsRefused db (fail_exhausted_claim env.digest id token now db))
        × ((attempt now : ℕ) → IsRefused db (resume_claim env.digest id token attempt now db))
        × ((now : ℕ) → IsRefused db (pause_claim env.digest id token now db))
        × ((u : EvidenceUnit) (cache_key : String) (now : ℕ)
            → IsRefused db (publish_evidence env id u cache_key token now db))
        × ((cache_key : String) (now : ℕ)
            → IsRefused db (reuse_cached_evidence env id cache_key token now db)))
stale_token-IsRefused env id a b db r apart found other =
    let token = claim_token env.digest id a b in
    let stale = other_generation env.digest id a b db r apart found other in
    let barred = and_false (is_running r.state) _ stale in
    (
      record_attempt-IsRefused env.digest id token db r found barred,
      fail_exhausted_claim-IsRefused env.digest id token db r found barred,
      resume_claim-IsRefused env.digest id token db r found
          (and_false (is_retry_wait r.state) _ stale),
      pause_claim-IsRefused env.digest id token db r found barred,
      publish_evidence-IsRefused env id token db r found stale,
      reuse_cached_evidence-IsRefused env id token db r found barred,
    )

-- If the part's row is there and it is neither running nor processed, then with any token at all
-- record_attempt, fail_exhausted_claim, pause_claim, publish_evidence and reuse_cached_evidence raise
-- and leave every table as it was.
pub unclaimed_part-IsRefused :
    (env : Env) (id token : String) (db : Db) (r : PartRow)
    → find_part id db ≡ some r
    → is_running r.state ≡ false
    → is_processed r.state ≡ false
    → (((attempt : ℕ) (route : String) (outcome : Outcome) (started : ℕ) (finished : Option ℕ)
            (code : Option String) (next_attempt : Option ℕ)
          → IsRefused db (
              record_attempt env.digest id attempt route outcome started finished code next_attempt
                token db))
        × ((now : ℕ) → IsRefused db (fail_exhausted_claim env.digest id token now db))
        × ((now : ℕ) → IsRefused db (pause_claim env.digest id token now db))
        × ((u : EvidenceUnit) (cache_key : String) (now : ℕ)
            → IsRefused db (publish_evidence env id u cache_key token now db))
        × ((cache_key : String) (now : ℕ)
            → IsRefused db (reuse_cached_evidence env id cache_key token now db)))
unclaimed_part-IsRefused env id token db r found waits fresh =
    let barred : (is_running r.state && token == row_token env.digest r) ≡ false =
      simp waits refl in
    (
      record_attempt-IsRefused env.digest id token db r found barred,
      fail_exhausted_claim-IsRefused env.digest id token db r found barred,
      pause_claim-IsRefused env.digest id token db r found barred,
      publish_evidence-unclaimed env id token db r found waits fresh,
      reuse_cached_evidence-IsRefused env id token db r found barred,
    )
