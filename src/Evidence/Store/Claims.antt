-- ===== src/Evidence/Store/Claims.antt =====
-- exam_predictor/evidence/store.py: how a part is claimed, resumed, paused and requeued.
use exam_sage.Common.{
  transaction, ℕ, zero, suc, ◌+◌, String, Bool, true, false, ◌&&◌, not, Option, none, some, List,
  [], ◌∷◌, map, leb, ltb, eqb, if◌then◌else◌, filter, take, any, order_by, Method, ok, ◌>>=◌, ◌>>◌,
  pure, gets, modify, ensure, value_error, ◌==◌,
}
use Prim.Native.Nat.{max}
use exam_sage.Evidence.Models.{PartState, SourcePartPlan}
use exam_sage.Evidence.Tokens.{claim_token}
use exam_sage.Evidence.Store.{
  Db, PartRow, require_part, update_part, is_current, part_is_current, row_token, is_running,
  is_retry_wait, plan_of, in_revision, state_eq, scheduled_no_later, comes_first, by,
}

-- EvidencePartClaim
pub record Claim : Type 0 where
  pub plan : SourcePartPlan
  pub claim_token : String

abbrev pub is_claimable_state : PartState → Bool
is_claimable_state PartState.planned = true
is_claimable_state PartState.authorized = true
is_claimable_state PartState.prepared = true
is_claimable_state PartState.retry_wait = true
is_claimable_state _ = false

-- next_attempt_at IS NULL OR next_attempt_at <= ?
abbrev pub is_due : ℕ → Option ℕ → Bool
is_due now none = true
is_due now (some t) = leb t now

abbrev pub is_claimable : (workspace_id revision_id : String) → (now : ℕ) → PartRow → Bool
is_claimable workspace_id revision_id now r =
    in_revision workspace_id revision_id r
    && (is_claimable_state r.state && is_due now r.next_attempt_at)

-- The rows that a claim selects.
unfoldable pub frontier : (workspace_id revision_id : String) → (limit now : ℕ) → Db → List PartRow
frontier workspace_id revision_id limit now db =
    take limit
      (order_by scheduled_no_later (filter (is_claimable workspace_id revision_id now) db.parts))

abbrev pub claimed : (now : ℕ) → PartRow → PartRow
claimed now r = record r {
  state = PartState.running;
  next_attempt_at = none;
  claim_generation = r.claim_generation + 1;
  updated_at = now;
}

unfoldable pub claim_rows : ℕ → List PartRow → Db → Db
claim_rows now [] db = db
claim_rows now (r ∷ rs) db = claim_rows now rs (update_part r.plan.part_id (claimed now) db)

-- The claim of a selected row, whose generation the update has raised.
abbrev pub claim_of : (digest : String → String) → PartRow → Claim
claim_of digest r = record {
  plan = record r.plan { state = PartState.running };
  claim_token = claim_token digest r.plan.part_id r.plan_generation (r.claim_generation + 1);
}

unfoldable pub claim_frontier :
    (digest : String → String)
    → (workspace_id revision_id : String) → (limit now : ℕ) → Method Db (List Claim)
unfolding frontier claim_rows
claim_frontier digest workspace_id revision_id limit now db =
    let rows = frontier workspace_id revision_id limit now db in
    if is_current digest workspace_id revision_id db
    then (ok (map (claim_of digest) rows), claim_rows now rows db)
    else (ok [], db)

-- claim_parts_with_tokens
unfoldable pub claim_parts_with_tokens :
    (digest : String → String)
    → (workspace_id revision_id : String) → (limit now : ℕ) → Method Db (List Claim)
unfolding claim_frontier
claim_parts_with_tokens digest workspace_id revision_id zero now = pure []
claim_parts_with_tokens digest workspace_id revision_id (suc n) now =
    transaction (claim_frontier digest workspace_id revision_id (suc n) now)

-- mark_running
unfoldable pub mark_running :
    (digest : String → String)
    → (part_id : String) → (attempt : ℕ) → (expected_state : PartState) → (now : ℕ)
    → Method Db SourcePartPlan
mark_running digest part_id attempt expected_state now = do
  ensure (leb 1 attempt) value_error
  transaction (do
    part ← require_part part_id
    current ← gets (part_is_current digest part)
    ensure current value_error
    ensure (state_eq part.state expected_state) value_error
    modify (
        update_part part_id
          (λ r. record (claimed now r) { attempt_count = max r.attempt_count attempt }))
    row ← require_part part_id
    pure (plan_of row))

abbrev pub claim_in : (digest : String → String) → PartRow → Claim
claim_in digest r = record { plan = plan_of r; claim_token = row_token digest r }

-- resume_claim
unfoldable pub resume_claim :
    (digest : String → String)
    → (part_id previous_claim_token : String) → (attempt now : ℕ) → Method Db Claim
resume_claim digest part_id previous_claim_token attempt now = do
  ensure (leb 1 attempt) value_error
  transaction (do
    part ← require_part part_id
    current ← gets (part_is_current digest part)
    ensure (current && (is_retry_wait part.state && previous_claim_token == row_token digest part))
        value_error
    modify (
        update_part part_id
          (λ r. record (claimed now r) { attempt_count = max r.attempt_count attempt }))
    row ← require_part part_id
    pure (claim_in digest row))

-- publication_token
unfoldable pub publication_token :
    (digest : String → String) → (part_id : String) → Method Db String
publication_token digest part_id = do
  part ← require_part part_id
  current ← gets (part_is_current digest part)
  ensure current value_error
  ensure (is_running part.state) value_error
  pure (row_token digest part)

abbrev pub paused_row : (now : ℕ) → PartRow → PartRow
paused_row now r = record r {
  state = PartState.retry_wait;
  next_attempt_at = some now;
  updated_at = now;
}

-- pause_claim; it asks for no current revision.
unfoldable pub pause_claim :
    (digest : String → String) → (part_id claim_token : String) → (now : ℕ) → Method Db Unit
pause_claim digest part_id token now = transaction (do
  part ← require_part part_id
  ensure (is_running part.state && token == row_token digest part) value_error
  modify (update_part part_id (paused_row now)))

-- ORDER BY priority ASC, ordinal ASC, part_id ASC
abbrev pub listed_no_later : PartRow → PartRow → Bool
listed_no_later a b =
    by a.plan.priority b.plan.priority
      (by a.plan.ordinal b.plan.ordinal (comes_first a.plan.part_id b.plan.part_id))

-- list_parts
pub list_parts : (workspace_id revision_id : String) → Db → List SourcePartPlan
list_parts workspace_id revision_id db =
    map plan_of (order_by listed_no_later (filter (in_revision workspace_id revision_id) db.parts))

abbrev pub is_failed : PartState → Bool
is_failed PartState.failed = true
is_failed _ = false

abbrev pub has_id : String → List PartRow → Bool
has_id part_id = any (λ r. r.plan.part_id == part_id)

requeue : ℕ → List PartRow → PartRow → PartRow
requeue now failures r =
    if has_id r.plan.part_id failures
    then record r { state = PartState.prepared; next_attempt_at = none; updated_at = now }
    else r

-- DELETE FROM evidence_parts WHERE part_id IN ..., with ON DELETE CASCADE on attempts, units and,
-- through the units, on the cache
pub delete_parts : List PartRow → Db → Db
delete_parts gone db =
    let is_gone = λ (part_id : String). has_id part_id gone in
    record db {
      parts = filter (λ r. not (is_gone r.plan.part_id)) db.parts;
      attempts = filter (λ a. not (is_gone a.part_id)) db.attempts;
      units = filter (λ u. not (is_gone u.unit.source_part_id)) db.units;
      cache =
          filter
            (λ c. not (
              any
                (λ u.
                  is_gone u.unit.source_part_id && u.unit.evidence_unit_id == c.evidence_unit_id)
                db.units))
            db.cache;
    }

retry_current : (workspace_id revision_id : String) → (now : ℕ) → Method Db (List String)
unfolding requeue delete_parts
retry_current workspace_id revision_id now db =
    let rows =
      order_by listed_no_later
        (filter (λ r. in_revision workspace_id revision_id r && is_failed r.state) db.parts) in
    let db' = delete_parts (filter (λ r. eqb r.attempt_count 0) rows) db in
    (
      ok (map (λ r. r.plan.part_id) rows),
      record db' { parts = map (requeue now (filter (λ r. ltb 0 r.attempt_count) rows)) db'.parts },
    )

-- retry_failed_parts
unfoldable pub retry_failed_parts :
    (digest : String → String)
    → (workspace_id revision_id : String) → (now : ℕ) → Method Db (List String)
unfolding retry_current
retry_failed_parts digest workspace_id revision_id now = transaction (λ db.
    if is_current digest workspace_id revision_id db
    then retry_current workspace_id revision_id now db
    else (ok [], db))

unfoldable pub recover_row : ℕ → PartRow → PartRow
recover_row now r = if is_running r.state then paused_row now r else r

-- ORDER BY created_at ASC, part_id ASC
abbrev recovered_no_later : PartRow → PartRow → Bool
recovered_no_later a b = by a.created_at b.created_at (comes_first a.plan.part_id b.plan.part_id)

-- recover_unfinished
unfoldable pub recover_unfinished : (now : ℕ) → Db → List String × Db
unfolding recover_row
recover_unfinished now db = (
  map (λ r. r.plan.part_id)
      (order_by recovered_no_later (filter (λ r. is_running r.state) db.parts)),
  record db { parts = map (recover_row now) db.parts },
)
