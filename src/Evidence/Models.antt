-- ===== src/Evidence/Models.antt =====
-- exam_predictor/evidence/models.py: parts, citations and evidence units.
use exam_sage.Common.{ℕ, String, Option, List}

-- PartState
pub data PartState : Type 0 where
  planned authorized prepared running processed retry_wait failed invalidated : PartState

pub PartState-discrete : Discrete PartState
PartState-discrete = hlevel

-- SourcePartPlan
pub record SourcePartPlan : Type 0 where
  pub part_id : String
  pub workspace_id : String
  pub revision_id : String
  pub entry_id : String
  pub relative_path : String
  pub source_sha256 : String
  pub part_sha256 : String
  pub ordinal : ℕ
  pub scheduling_rank : ℕ
  pub locator : String
  pub media_type : String
  pub size_bytes : ℕ
  pub scheduling_class : String
  pub priority : ℕ
  pub preparation_policy_version : String
  pub preparation_schema_version : String
  pub state : PartState
  pub idempotency_key : String
  pub safe_error_code : Option String

-- EvidenceCitation
pub record EvidenceCitation : Type 0 where
  pub citation_id : String
  pub evidence_unit_id : String
  pub source_part_id : String
  pub relative_path : String
  pub locator : String

-- EvidenceUnit
pub record EvidenceUnit : Type 0 where
  pub evidence_unit_id : String
  pub source_part_id : String
  pub content : String
  pub citations : List EvidenceCitation
