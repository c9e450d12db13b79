-- ===== src/Evidence/Scheduler/Scenarios.antt =====
-- A part whose provider fails at the second attempt and answers with malformed text at the third.
use exam_sage.Common.{
  is_error_code, ◌+◌, ◌-◌, if◌then◌else◌, ◌≤◌, ◌≡◌, refl, true, false, ◌&&◌, not, none, some, [],
  ◌∷◌, count, eqb,
}
use exam_sage.Common.Table.{lookup, update}
use exam_sage.Evidence.Policy.{representative_ordinals, count-representative_ordinals}
use exam_sage.Evidence.Models.{PartState, SourcePartPlan}
use exam_sage.Evidence.Store.{
  Db, in_revision, is_current, part_state_counts, attempt_count, route_attempt_count,
}
use exam_sage.Evidence.Tokens.{claim_token, claim_identity}
use exam_sage.Evidence.Store.Claims.{Claim, resume_claim}
use exam_sage.Evidence.Store.Attempts.{record_attempt}
use exam_sage.Evidence.Store.Publication.{Env, reuse_cached_evidence}
use exam_sage.Evidence.Scheduler.{
  Policy, Route, World, Opening, Analysis, run_part_guarded, pending_count, run_part, run_route,
  serve, attempt_route, attempt_rounds, attempt_part, on_analysis, on_error, on_unit, validate,
  repair, retry, record_failed, record_recoverable, retry_delay, pause,
}
use exam_sage.Evidence.Scheduler.Bounds.{recorded_attempts, provider_calls_bounded}
use exam_sage.Evidence.Scheduler.Pending.{is_terminal_state, pending_count-part_state_counts}

abbrev env : Env
env = record {
  digest = λ s. s;
  json = λ u. u.content;
  is_safe = λ s. true;
  locator_contains = λ p c. true;
}

abbrev plan : SourcePartPlan
plan = record {
  part_id = "part";
  workspace_id = "w";
  revision_id = "r";
  entry_id = "entry";
  relative_path = "notes.pdf";
  source_sha256 = "source";
  part_sha256 = "content";
  ordinal = 0;
  scheduling_rank = 0;
  locator = "pages 1-4";
  media_type = "application/pdf";
  size_bytes = 10;
  scheduling_class = "teaching";
  priority = 2;
  preparation_policy_version = "v1";
  preparation_schema_version = "v1";
  state = PartState.running;
  idempotency_key = "key";
  safe_error_code = none;
}

abbrev claimed_db : Db
claimed_db = record {
  parts =
      record {
        plan = plan;
        state = PartState.running;
        attempt_count = 1;
        next_attempt_at = none;
        plan_generation = 1;
        claim_generation = 1;
        created_at = 1;
        updated_at = 2;
      }
      ∷ [];
  meta = record { name = "current_revision:w"; value = "r" } ∷ [];
  attempts =
      record {
        part_id = "part";
        attempt_number = 1;
        route = "openai:balanced";
        outcome = PartState.retry_wait;
        safe_error_code = some "timeout";
        started_at = 1;
        finished_at = some 2;
      }
      ∷ [];
  units = [];
  cache = [];
}

abbrev failing : World
failing = record {
  must_pause = false;
  route = Route.identified "openai:balanced" "cache";
  guard_admits = true;
  now = 3;
  paused_at = 9;
  round = λ attempt. record {
    must_pause = false;
    started_at = 4;
    opening = Opening.opened;
    must_pause_opened = false;
    analysis =
        if eqb attempt 2
        then Analysis.refused (record { code = "timeout"; retryable = true; retry_after = none })
        else Analysis.answered (record { first = none; has_time = true; repaired = none });
    completed_at = 5;
    finished_at = 6;
    waited = true;
    resumed_at = 7;
  };
}

abbrev claim : Claim
claim = record { plan = plan; claim_token = claim_token (λ s. s) "part" 1 1 }

abbrev policy : Policy
policy = record { max_attempts_per_route = 3; retry_backoff = 1; max_repair_attempts = 1 }

-- One attempt is recorded: two are left.
two_left : 3 - recorded_attempts "part" "openai:balanced" claimed_db ≡ 2
two_left = refl

-- Two analyses and the repair use up what the bound allows.
bound_reached : (run_part_guarded env policy failing claim [] claimed_db).1.calls ≡ 3
unfolding run_part_guarded run_part run_route serve attempt_route attempt_rounds attempt_part
    on_analysis on_error on_unit validate repair retry record_failed record_recoverable retry_delay
    pause record_attempt resume_claim reuse_cached_evidence attempt_count route_attempt_count lookup
    update is_current is_error_code claim_token claim_identity
bound_reached = refl

provider_calls_bounded_example :
    (run_part_guarded env policy failing claim [] claimed_db).1.calls
    ≤ 3 - recorded_attempts "part" "openai:balanced" claimed_db + 1
provider_calls_bounded_example =
    provider_calls_bounded env policy failing claim [] claimed_db "openai:balanced" "cache" refl

pending_count-part_state_counts_example :
    pending_count (part_state_counts "w" "r" claimed_db)
    ≡ count (λ r. in_revision "w" "r" r && not (is_terminal_state r.state)) claimed_db.parts
pending_count-part_state_counts_example = pending_count-part_state_counts "w" "r" claimed_db

count-representative_ordinals_example : count (eqb 3) (representative_ordinals 5) ≡ 1
count-representative_ordinals_example = count-representative_ordinals 3 5
