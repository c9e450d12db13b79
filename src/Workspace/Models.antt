-- ===== src/Workspace/Models.antt =====
-- exam_predictor/workspace/models.py: the records of a workspace and their enumerations.
use exam_sage.Common.{ℕ, String, Bool, Option, List}

-- SourceMode
pub data SourceMode : Type 0 where
  native_folder browser_snapshot : SourceMode

-- WorkspaceState
pub data WorkspaceState : Type 0 where
  ready scanning approval_required approved needs_attention deleting cleanup_pending :
      WorkspaceState

-- SourceState
pub data SourceState : Type 0 where
  pending_approval approved excluded failed changed removed : SourceState

-- WorkspaceJobStatus
pub data JobStatus : Type 0 where
  queued running succeeded failed cancelled : JobStatus

-- ManifestEntry
pub record ManifestEntry : Type 0 where
  pub entry_id : String
  pub workspace_id : String
  pub relative_path : String
  pub item_kind : String
  pub format_category : Option String
  pub size_bytes : ℕ
  pub modified_ns : Option ℕ
  pub device_id : Option String
  pub file_id : Option String
  pub sha256 : Option String
  pub state : SourceState
  pub included : Bool
  pub inclusion_reason : Option String
  pub proposed_course_group : String
  pub failure_code : Option String
  pub safe_message : Option String
  pub archive_parent_entry_id : Option String
  pub archive_member_path : Option String
  pub archive_member_index : Option ℕ
  pub archive_member_crc32 : Option ℕ
  pub archive_member_compressed_bytes : Option ℕ

-- ManifestRevision
pub record ManifestRevision : Type 0 where
  pub revision_id : String
  pub workspace_id : String
  pub parent_revision_id : Option String
  pub scan_job_id : Option String
  pub policy_version : String
  pub entries : List ManifestEntry
  pub created_at : ℕ

-- ApprovedEntryHash
pub record ApprovedEntryHash : Type 0 where
  pub entry_id : String
  pub sha256 : String

-- ApprovalRecord
pub record ApprovalRecord : Type 0 where
  pub approval_id : String
  pub workspace_id : String
  pub revision_id : String
  pub entries : List ApprovedEntryHash
  pub policy_version : String
  pub approved_at : ℕ

-- WorkspaceRecord
pub record WorkspaceRecord : Type 0 where
  pub workspace_id : String
  pub display_name : String
  pub source_mode : SourceMode
  pub canonical_root : String
  pub root_device : Option String
  pub root_file_id : Option String
  pub state : WorkspaceState
  pub current_draft_revision_id : Option String
  pub current_approved_revision_id : Option String
  pub created_at : ℕ
  pub updated_at : ℕ
  pub last_scanned_at : Option ℕ
  pub last_access_verified_at : Option ℕ

-- WorkspaceSummary; a state that the source leaves out of `counts` counts 0.
pub record WorkspaceSummary : Type 0 where
  pub workspace_id : String
  pub display_name : String
  pub source_mode : SourceMode
  pub state : WorkspaceState
  pub counts : SourceState → ℕ
  pub updated_at : ℕ

-- ScanProgress
pub record ScanProgress : Type 0 where
  pub discovered_count : ℕ
  pub bytes_hashed : ℕ
  pub failure_count : ℕ
  pub current_relative_path : Option String

-- ScanResult
pub record ScanResult : Type 0 where
  pub workspace_id : String
  pub entries : List ManifestEntry
  pub discovered_count : ℕ
  pub bytes_hashed : ℕ
  pub failure_count : ℕ
  pub completed_at : ℕ

-- WorkspaceJob
pub record WorkspaceJob : Type 0 where
  pub job_id : String
  pub workspace_id : String
  pub job_kind : String
  pub status : JobStatus
  pub idempotency_key : String
  pub safe_error_code : Option String
  pub created_at : ℕ
  pub started_at : Option ℕ
  pub finished_at : Option ℕ

-- A value of an event's payload: str, a nonnegative int, or one of the others (a negative int, a
-- float, a bool), and None.
pub data PayloadValue : Type 0 where
  text : String → PayloadValue
  count : ℕ → PayloadValue
  other absent : PayloadValue

-- WorkspaceEvent
pub record WorkspaceEvent : Type 0 where
  pub sequence : ℕ
  pub job_id : String
  pub event_type : String
  pub message : String
  pub payload : List (String × PayloadValue)
  pub created_at : ℕ

-- CleanupRecord
pub record CleanupRecord : Type 0 where
  pub cleanup_id : String
  pub workspace_id : String
  pub owned_relative_path : String
  pub safe_error_code : String
  pub attempt_count : ℕ
  pub deletion_root_device : Option String
  pub deletion_root_file_id : Option String
  pub created_at : ℕ
  pub updated_at : ℕ
