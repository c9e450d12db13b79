-- ===== src/Evidence/Store/Scenarios.antt =====
-- A store with one part that a second claim has taken over.
use exam_sage.Common.{
  ℕ, String, ◌≡◌, refl, true, false, any, none, arith, eq_refl, some, List, [], ◌∷◌, Result, ok,
  is_ok, All, order_by, place, ◌==◌,
}
use exam_sage.Common.Table.{lookup, update, IsUnique}
use exam_sage.Evidence.Models.{PartState, SourcePartPlan, EvidenceUnit}
use exam_sage.Evidence.Tokens.{claim_token, claim_token-injective}
use exam_sage.Evidence.Store.{Db, PartRow, find_part, part_key, is_current}
use exam_sage.Evidence.Store.Publication.{
  Env, publish_evidence, publish_claimed, publish_new, put_unit, insert_cache, texts_are_safe,
  all_citations, belongs, is_inside,
}
use exam_sage.Evidence.Store.Releasing.{recover_unfinished_releases}
use exam_sage.Evidence.Store.Republication.{publish_evidence_again}
use exam_sage.Evidence.Store.Claims.{
  Claim, recover_row, recover_unfinished, publication_token, pause_claim, claim_of,
  claim_parts_with_tokens, claim_frontier, claim_rows, frontier,
}
use exam_sage.Evidence.Store.Claiming.{IsHeld, handed_out, claim_parts_with_tokens-IsHeld}
use exam_sage.Evidence.Store.Claiming.Disjoint.{claim_parts_with_tokens_disjoint}
use exam_sage.Evidence.Store.Fencing.{IsRefused, stale_token-IsRefused, unclaimed_part-IsRefused}

abbrev plain : Env
plain = record {
  digest = λ s. s;
  json = λ u. u.content;
  is_safe = λ s. true;
  locator_contains = λ p c. true;
}

abbrev plan : SourcePartPlan
plan = record {
  part_id = "part";
  workspace_id = "workspace";
  revision_id = "revision";
  entry_id = "entry";
  relative_path = "notes.pdf";
  source_sha256 = "source";
  part_sha256 = "content";
  ordinal = 0;
  scheduling_rank = 0;
  locator = "pages 1-4";
  media_type = "application/pdf";
  size_bytes = 10;
  scheduling_class = "teaching";
  priority = 2;
  preparation_policy_version = "v1";
  preparation_schema_version = "v1";
  state = PartState.planned;
  idempotency_key = "key";
  safe_error_code = none;
}

abbrev row_in : PartState → PartRow
row_in state = record {
  plan = plan;
  state = state;
  attempt_count = 1;
  next_attempt_at = none;
  plan_generation = 1;
  claim_generation = 2;
  created_at = 1;
  updated_at = 3;
}

abbrev db_in : PartState → Db
db_in state = record {
  parts = row_in state ∷ [];
  meta = record { name = "current_revision:workspace"; value = "revision" } ∷ [];
  attempts = [];
  units = [];
  cache = [];
}

found_in : (state : PartState) → find_part "part" (db_in state) ≡ some (row_in state)
unfolding lookup
found_in state = refl

abbrev unit : EvidenceUnit
unit = record {
  evidence_unit_id = "unit";
  source_part_id = "part";
  content = "text";
  citations = [];
}

-- The claim of the first generation comes too late to publish.
stale_token-IsRefused_example : IsRefused (db_in PartState.running) (
    publish_evidence plain "part" unit "key"
      (claim_token (λ s. s) "part" 1 1)
      9
      (db_in PartState.running))
stale_token-IsRefused_example =
    (stale_token-IsRefused plain "part" 1 1 (db_in PartState.running) (row_in PartState.running)
        (λ s t e. e) (found_in PartState.running) (λ e. absurd (cc (e.1)))).4
      unit "key" 9

unclaimed_part-IsRefused_example :
    IsRefused
      (db_in PartState.failed)
      (pause_claim (λ s. s) "part" "token" 9 (db_in PartState.failed))
unclaimed_part-IsRefused_example =
    (unclaimed_part-IsRefused plain "part" "token" (db_in PartState.failed)
        (row_in PartState.failed) (found_in PartState.failed) refl refl).2
      9

claim_token-injective_example : (◌≡◌ {A = ℕ} 3 3) × (◌≡◌ {A = ℕ} 4 4)
claim_token-injective_example = claim_token-injective (λ s. s) "part" 3 4 3 4 (λ s t e. e) refl

-- Two parts wait.
abbrev named : String → PartRow
named id =
    let row = row_in PartState.planned in record row { plan = record row.plan { part_id = id } }

abbrev two_parts : Db
two_parts = record (db_in PartState.planned) { parts = named "b" ∷ named "a" ∷ [] }

two_parts-IsUnique : IsUnique part_key two_parts.parts
unfolding lookup
two_parts-IsUnique = (refl, (refl, tt))

abbrev claim_one : Db → Result (List Claim) × Db
claim_one db = claim_parts_with_tokens (λ s. s) "workspace" "revision" 1 9 db

first_claim : (claim_one two_parts).0 ≡ ok (claim_of (λ s. s) (named "a") ∷ [])
unfolding claim_parts_with_tokens claim_frontier frontier order_by place is_current lookup
first_claim = refl

second_claim : (claim_one (claim_one two_parts).1).0 ≡ ok (claim_of (λ s. s) (named "b") ∷ [])
unfolding claim_parts_with_tokens claim_frontier claim_rows frontier order_by place is_current
    lookup update
second_claim = refl

claim_parts_with_tokens-IsHeld_example :
    All (IsHeld (λ s. s) (claim_one two_parts).1) (claim_of (λ s. s) (named "a") ∷ [])
claim_parts_with_tokens-IsHeld_example =
    claim_parts_with_tokens-IsHeld (λ s. s) "workspace" "revision" 1 9 two_parts
      (claim_of (λ s. s) (named "a") ∷ []) two_parts-IsUnique first_claim

claim_parts_with_tokens_disjoint_example :
    All
      (λ c.
        All (λ d. (c.plan.part_id == d.plan.part_id) ≡ false) (claim_of (λ s. s) (named "b") ∷ []))
      (claim_of (λ s. s) (named "a") ∷ [])
claim_parts_with_tokens_disjoint_example =
    claim_parts_with_tokens_disjoint (λ s. s) "workspace" "revision" "workspace" "revision" 1 1 9 9
      two_parts (claim_of (λ s. s) (named "a") ∷ []) (claim_of (λ s. s) (named "b") ∷ [])
      two_parts-IsUnique first_claim second_claim

published :
    (publish_evidence plain "part" unit "key"
      (claim_token (λ s. s) "part" 1 2)
      9
      (db_in PartState.running)).0
    ≡ ok true
unfolding publish_evidence publish_claimed publish_new put_unit insert_cache texts_are_safe
    all_citations belongs is_inside is_current lookup
published = ground (arith, eq_refl (claim_token (λ s. s) "part" 1 2))

publish_evidence_again_example :
    let token = claim_token (λ s. s) "part" 1 2 in
    let after = (publish_evidence plain "part" unit "key" token 9 (db_in PartState.running)).1 in
    ((publish_evidence plain "part" unit "key" token 10 after).0 ≡ ok false)
    × ((publish_evidence plain "part" unit "key" token 10 after).1 ≡ after)
publish_evidence_again_example =
    publish_evidence_again plain "part" unit "key" (claim_token (λ s. s) "part" 1 2) 9 10
      (db_in PartState.running) published

recover_unfinished_releases_example :
    let after = (recover_unfinished 7 (db_in PartState.running)).1 in
    (is_ok (publication_token (λ s. s) "part" after).0 ≡ false)
    × (any
          (λ c. c.plan.part_id == "part")
          (handed_out (claim_parts_with_tokens (λ s. s) "workspace" "revision" 4 8 after).0)
        ≡ true)
unfolding recover_unfinished recover_row is_current lookup
recover_unfinished_releases_example =
    recover_unfinished_releases (λ s. s) "workspace" "revision" "part" 7 8 4
      (db_in PartState.running) (row_in PartState.running) (found_in PartState.running) refl refl
      refl (omega arith) (omega arith)
