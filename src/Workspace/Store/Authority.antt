-- ===== src/Workspace/Store/Authority.antt =====
-- The authority to transmit sources: the current approval of a workspace and its revision.
pub mod Revoked
pub mod Granted
pub mod Complete
use exam_sage.Common.{
  ℕ, String, Bool, true, false, ◌&&◌, not, Option, none, some, List, [], ◌∷◌, head?, filter,
  order_by, leb, ltb, if◌then◌else◌, Method, Result, ok, err, Error, ◌>>=◌, ◌>>◌, pure, raise, gets,
  modify, ensure, transaction, authority_revoked, ◌==◌,
}
use exam_sage.Workspace.Models.{WorkspaceState, ManifestRevision, ApprovalRecord, WorkspaceRecord}
use exam_sage.Workspace.Store.{Db, WorkspaceRow, find_workspace, update_workspace, is_optional}
use exam_sage.Workspace.Store.Manifests.{revision}

-- TransmissionAuthoritySnapshot
pub record Snapshot : Type 0 where
  pub workspace : WorkspaceRecord
  pub approval : Option ApprovalRecord
  pub revision : Option ManifestRevision

-- A later row comes first, so that it wins where the times are equal.
unfoldable pub latest : Option ApprovalRecord → List ApprovalRecord → Option ApprovalRecord
latest best [] = best
latest none (a ∷ rest) = latest (some a) rest
latest (some b) (a ∷ rest) =
    let kept = latest (some b) rest in
    let taken = latest (some a) rest in if leb b.approved_at a.approved_at then taken else kept

abbrev pub approves : (workspace_id revision_id : String) → ApprovalRecord → Bool
approves workspace_id revision_id a = a.workspace_id == workspace_id && a.revision_id == revision_id

-- ORDER BY approved_at DESC, rowid DESC LIMIT 1
unfoldable pub latest_approval : (workspace_id revision_id : String) → Db → Option ApprovalRecord
unfolding latest
latest_approval workspace_id revision_id db =
    latest none (filter (approves workspace_id revision_id) db.approvals)

-- get_approval
unfoldable pub get_approval : (workspace_id : String) → Db → Option ApprovalRecord
unfolding latest_approval
get_approval workspace_id db = elim (find_workspace workspace_id db) [
  | none ↦ none
  | some row ↦ elim row.workspace.current_approved_revision_id [
    | none ↦ none
    | some revision_id ↦ latest_approval workspace_id revision_id db
  ]
]

abbrev pub bare : WorkspaceRow → Option Snapshot
bare row = some (record { workspace = row.workspace; approval = none; revision = none })

-- The snapshot once the approval has been read
unfoldable pub snapshot_with :
    (workspace_id revision_id : String)
    → WorkspaceRow
    → Option ApprovalRecord
    → Method Db (Option Snapshot)
unfolding revision
snapshot_with workspace_id revision_id row none = pure (bare row)
snapshot_with workspace_id revision_id row (some approval) = do
  found ← revision workspace_id revision_id
  pure
      (some (record { workspace = row.workspace; approval = some approval; revision = some found }))

-- The snapshot once the current approved revision has been read
unfoldable pub snapshot_at :
    (workspace_id : String) → WorkspaceRow → Option String → Method Db (Option Snapshot)
unfolding snapshot_with latest_approval
snapshot_at workspace_id row none = pure (bare row)
snapshot_at workspace_id row (some revision_id) = do
  approval ← gets (latest_approval workspace_id revision_id)
  snapshot_with workspace_id revision_id row approval

unfoldable pub snapshot_of :
    (workspace_id : String) → Option WorkspaceRow → Method Db (Option Snapshot)
unfolding snapshot_at
snapshot_of workspace_id none = pure none
snapshot_of workspace_id (some row) =
    snapshot_at workspace_id row row.workspace.current_approved_revision_id

-- _transmission_authority_snapshot
unfoldable pub snapshot : (workspace_id : String) → Method Db (Option Snapshot)
unfolding snapshot_of
snapshot workspace_id = do row ← gets (find_workspace workspace_id); snapshot_of workspace_id row

-- transmission_authority_snapshot
unfoldable pub transmission_authority_snapshot :
    (workspace_id : String) → Method Db (Option Snapshot)
unfolding snapshot
transmission_authority_snapshot workspace_id = transaction (snapshot workspace_id)

abbrev pub is_approved : WorkspaceState → Bool
is_approved WorkspaceState.approved = true
is_approved _ = false

abbrev is_named : (approval_id revision_id : String) → Option ApprovalRecord → Bool
is_named approval_id revision_id none = false
is_named approval_id revision_id (some a) =
    a.approval_id == approval_id && a.revision_id == revision_id

abbrev is_revision : (revision_id : String) → Option ManifestRevision → Bool
is_revision revision_id none = false
is_revision revision_id (some r) = r.revision_id == revision_id

-- The test of hold_transmission_authority
abbrev pub is_current : (approval_id revision_id : String) → Snapshot → Bool
is_current approval_id revision_id s =
    is_approved s.workspace.state
    && (is_optional s.workspace.current_draft_revision_id revision_id
        && (is_optional s.workspace.current_approved_revision_id revision_id
            && (is_named approval_id revision_id s.approval && is_revision revision_id s.revision)))

abbrev verified : (workspace_id : String) → Option ℕ → Db → Db
verified workspace_id none db = db
verified workspace_id (some t) db =
    update_workspace workspace_id
      (λ w. record w { last_access_verified_at = some t; updated_at = t }) db

abbrev pub require_current :
    (workspace_id approval_id revision_id : String)
    → Option ℕ
    → Option Snapshot
    → Method Db Snapshot
require_current workspace_id approval_id revision_id verified_at none = raise authority_revoked
require_current workspace_id approval_id revision_id verified_at (some s) = do
  ensure (is_current approval_id revision_id s) authority_revoked
  modify (verified workspace_id verified_at)
  pure s

-- The transaction of hold_transmission_authority
unfoldable pub hold_body :
    (workspace_id approval_id revision_id : String) → (verified_at : Option ℕ) → Method Db Snapshot
unfolding snapshot
hold_body workspace_id approval_id revision_id verified_at = do
  found ← snapshot workspace_id
  require_current workspace_id approval_id revision_id verified_at found

-- hold_transmission_authority, up to its yield
unfoldable pub hold_transmission_authority :
    (workspace_id approval_id revision_id : String) → (verified_at : Option ℕ) → Method Db Snapshot
unfolding hold_body
hold_transmission_authority workspace_id approval_id revision_id verified_at =
    transaction (hold_body workspace_id approval_id revision_id verified_at)
