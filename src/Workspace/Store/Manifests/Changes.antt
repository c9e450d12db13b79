-- ===== src/Workspace/Store/Manifests/Changes.antt =====
-- The changes of a manifest, and its approval.
use Prim.Native.Nat.{Ordering}
use Prim.Native.String.{compare as compare_texts}
use exam_sage.Common.{
  ℕ, String, Bool, true, false, ◌&&◌, ◌||◌, not, Option, none, some, List, [], ◌∷◌, ◌++◌, map,
  is_none, get_or, any, filter, order_by, if◌then◌else◌, Method, ◌>>=◌, ◌>>◌, pure, gets, modify,
  ensure, or_raise, transaction, not_found, stale, invalid_approval, integrity_error, ◌==◌,
}
use exam_sage.Workspace.Models.{
  WorkspaceState, SourceState, ManifestEntry, ManifestRevision, ApprovedEntryHash, ApprovalRecord,
  WorkspaceRecord,
}
use exam_sage.Workspace.Store.{Db, EntryRow, workspace_row, update_workspace, is_optional}
use exam_sage.Workspace.Store.Manifests.{revision, insert_revision, insert_entries}

-- _clone_revision
unfoldable pub clone_revision :
    ManifestRevision
    → (revision_id : String) → (created_at : ℕ) → (ManifestEntry → ManifestEntry)
    → Method Db ManifestRevision
unfolding insert_revision insert_entries revision
clone_revision source revision_id created_at transform = do
  insert_revision (record {
    revision_id = revision_id;
    workspace_id = source.workspace_id;
    parent_revision_id = some source.revision_id;
    scan_job_id = none;
    policy_version = source.policy_version;
    created_at = created_at;
  })
  insert_entries revision_id (map transform source.entries)
  revision source.workspace_id revision_id

abbrev pub is_requested : List String → ManifestEntry → Bool
is_requested requested e = any (λ id. id == e.entry_id) requested

-- requested - known is empty
abbrev pub all_known : List String → List ManifestEntry → Bool
all_known requested entries = not (any (λ id. not (any (λ e. e.entry_id == id) entries)) requested)

abbrev is_open : SourceState → Bool
is_open SourceState.pending_approval = true
is_open SourceState.approved = true
is_open SourceState.changed = true
is_open _ = false

abbrev is_changed : SourceState → Bool
is_changed SourceState.changed = true
is_changed _ = false

-- update_inclusion, for a requested entry
unfoldable pub update_inclusion : (included : Bool) → ManifestEntry → ManifestEntry
update_inclusion included e =
    if not included && is_open e.state
    then record e {
      state = SourceState.excluded;
      included = false;
      inclusion_reason = some "user_excluded";
      failure_code = none;
      safe_message = none;
    }
    else if included && (is_optional e.inclusion_reason "user_excluded" || is_changed e.state)
    then record e {
      state = SourceState.pending_approval;
      included = true;
      inclusion_reason = none;
      failure_code = none;
      safe_message = none;
    }
    else record e { included = included }

-- mark_changed, for a requested entry
unfoldable pub mark_changed : (code : String) → ManifestEntry → ManifestEntry
mark_changed code e = record e {
  state = SourceState.changed;
  included = false;
  inclusion_reason = some code;
  failure_code = some code;
  safe_message = some "The selected source changed and needs review.";
}

abbrev pub on_requested :
    List String → (ManifestEntry → ManifestEntry) → ManifestEntry → ManifestEntry
on_requested requested f e = if is_requested requested e then f e else e

-- UPDATE workspaces of a change
unfoldable pub finish_change :
    (new_revision_id workspace_id : String) → WorkspaceState → (now : ℕ) → Method Db Unit
finish_change new_revision_id workspace_id state now = modify (
    update_workspace workspace_id (λ w. record w {
      state = state;
      current_draft_revision_id = some new_revision_id;
      updated_at = now;
    }))

-- What the four changes have in common: a copy of the draft becomes the draft.
unfoldable pub change_draft :
    (new_revision_id workspace_id revision_id : String)
    → (entry_ids : List String) → (ManifestEntry → ManifestEntry)
    → WorkspaceState
    → (now : ℕ) → Method Db ManifestRevision
unfolding clone_revision revision finish_change
change_draft new_revision_id workspace_id revision_id entry_ids f state now = do
  current ← revision workspace_id revision_id
  ensure (all_known entry_ids current.entries) not_found
  clone_revision current new_revision_id now (on_requested entry_ids f)
  finish_change new_revision_id workspace_id state now
  revision workspace_id new_revision_id

-- The transactions of the changes: of a draft that the caller names, and of the latest one.
unfoldable pub change_current :
    (new_revision_id workspace_id revision_id : String)
    → (entry_ids : List String) → (ManifestEntry → ManifestEntry)
    → WorkspaceState
    → (now : ℕ) → Method Db ManifestRevision
unfolding change_draft
change_current new_revision_id workspace_id revision_id entry_ids f state now = do
  row ← workspace_row workspace_id
  ensure (is_optional row.workspace.current_draft_revision_id revision_id) stale
  change_draft new_revision_id workspace_id revision_id entry_ids f state now

unfoldable pub change_latest :
    (new_revision_id workspace_id : String)
    → (entry_ids : List String) → (ManifestEntry → ManifestEntry)
    → WorkspaceState
    → (now : ℕ) → Method Db ManifestRevision
unfolding change_draft
change_latest new_revision_id workspace_id entry_ids f state now = do
  row ← workspace_row workspace_id
  revision_id ← or_raise not_found row.workspace.current_draft_revision_id
  change_draft new_revision_id workspace_id revision_id entry_ids f state now

-- set_inclusion
unfoldable pub set_inclusion :
    (new_revision_id workspace_id revision_id : String)
    → (entry_ids : List String) → (included : Bool) → (now : ℕ) → Method Db ManifestRevision
unfolding change_current update_inclusion
set_inclusion new_revision_id workspace_id revision_id entry_ids included now = transaction (
    change_current new_revision_id workspace_id revision_id entry_ids (update_inclusion included)
      WorkspaceState.approval_required now)

-- mark_entry_changed
unfoldable pub mark_entry_changed :
    (new_revision_id workspace_id entry_id code : String) → (now : ℕ) → Method Db ManifestRevision
unfolding change_latest mark_changed
mark_entry_changed new_revision_id workspace_id entry_id code now = transaction (
    change_latest new_revision_id workspace_id (entry_id ∷ []) (mark_changed code)
      WorkspaceState.needs_attention now)

-- mark_revision_attention_if_current
unfoldable pub mark_revision_attention_if_current :
    (new_revision_id workspace_id revision_id : String)
    → (entry_ids : List String) → (code : String) → (now : ℕ) → Method Db ManifestRevision
unfolding change_current mark_changed
mark_revision_attention_if_current new_revision_id workspace_id revision_id entry_ids code now =
    transaction (
      change_current new_revision_id workspace_id revision_id entry_ids (mark_changed code)
        WorkspaceState.needs_attention now)

-- mark_entries_changed_latest
unfoldable pub mark_entries_changed_latest :
    (new_revision_id workspace_id : String)
    → (entry_ids : List String) → (code : String) → (now : ℕ) → Method Db ManifestRevision
unfolding change_latest mark_changed
mark_entries_changed_latest new_revision_id workspace_id entry_ids code now = transaction (
    change_latest new_revision_id workspace_id entry_ids (mark_changed code)
      WorkspaceState.needs_attention now)

abbrev pub is_eligible_state : SourceState → Bool
is_eligible_state SourceState.pending_approval = true
is_eligible_state SourceState.approved = true
is_eligible_state _ = false

-- A selected entry that stands in the way of an approval
abbrev pub blocks_approval : ManifestEntry → Bool
blocks_approval e = is_none e.sha256 || not (is_eligible_state e.state)

abbrev pub approved_hash : ManifestEntry → ApprovedEntryHash
approved_hash e = record { entry_id = e.entry_id; sha256 = get_or e.sha256 "" }

abbrev pub id_no_later : ManifestEntry → ManifestEntry → Bool
id_no_later a b = elim (compare_texts a.entry_id b.entry_id) [ Ordering.gt ↦ false | _ ↦ true ]

-- UPDATE manifest_entries SET state = 'approved' WHERE revision_id = ? AND entry_id IN ...
unfoldable pub approve_row : (revision_id : String) → List ManifestEntry → EntryRow → EntryRow
approve_row revision_id selected r =
    if r.revision_id == revision_id && any (λ e. e.entry_id == r.entry.entry_id) selected
    then record r { entry = record r.entry { state = SourceState.approved } }
    else r

-- INSERT INTO approvals, with its primary key
unfoldable pub insert_approval : ApprovalRecord → Method Db Unit
insert_approval approval = do
  clash ← gets (λ db. any (λ a. a.approval_id == approval.approval_id) db.approvals)
  ensure (not clash) integrity_error
  modify (λ db. record db { approvals = db.approvals ++ approval ∷ [] })

abbrev or_else : Option ℕ → Option ℕ → Option ℕ
or_else none y = y
or_else (some x) y = some x

-- The approval of a manifest
unfoldable pub approval_of :
    (approval_id workspace_id revision_id policy_version : String)
    → (approved_at : ℕ) → List ManifestEntry
    → ApprovalRecord
approval_of approval_id workspace_id revision_id policy_version approved_at entries = record {
  approval_id = approval_id;
  workspace_id = workspace_id;
  revision_id = revision_id;
  entries = map approved_hash (order_by id_no_later (filter (λ e. e.included) entries));
  policy_version = policy_version;
  approved_at = approved_at;
}

-- UPDATE workspaces of approve
abbrev pub approved_workspace :
    (revision_id : String)
    → (verified_at : Option ℕ) → (now : ℕ) → WorkspaceRecord
    → WorkspaceRecord
approved_workspace revision_id verified_at now w = record w {
  state = WorkspaceState.approved;
  current_approved_revision_id = some revision_id;
  updated_at = get_or verified_at now;
  last_access_verified_at = or_else verified_at w.last_access_verified_at;
}

-- The transaction of approve
unfoldable pub approve_body :
    (approval_id workspace_id revision_id policy_version : String)
    → (verified_at : Option ℕ) → (now : ℕ) → Method Db ApprovalRecord
unfolding revision insert_approval approve_row approval_of
approve_body approval_id workspace_id revision_id policy_version verified_at now = do
  row ← workspace_row workspace_id
  ensure (is_optional row.workspace.current_draft_revision_id revision_id) stale
  manifest ← revision workspace_id revision_id
  ensure (manifest.policy_version == policy_version) invalid_approval
  ensure (not (any blocks_approval (filter (λ e. e.included) manifest.entries))) invalid_approval
  let approval : ApprovalRecord =
      approval_of approval_id workspace_id revision_id policy_version (get_or verified_at now)
        manifest.entries
  insert_approval approval
  modify (λ db. record db {
    entries = map (approve_row revision_id (filter (λ e. e.included) manifest.entries)) db.entries;
  })
  modify (update_workspace workspace_id (approved_workspace revision_id verified_at now))
  pure approval

-- approve; `now` is read where `verified_at` is missing.
unfoldable pub approve :
    (approval_id workspace_id revision_id policy_version : String)
    → (verified_at : Option ℕ) → (now : ℕ) → Method Db ApprovalRecord
unfolding approve_body
approve approval_id workspace_id revision_id policy_version verified_at now =
    transaction (approve_body approval_id workspace_id revision_id policy_version verified_at now)

-- record_access_verified
unfoldable pub record_access_verified : (workspace_id : String) → (verified_at : ℕ) → Method Db Unit
record_access_verified workspace_id verified_at = do
  workspace_row workspace_id
  modify (
      update_workspace workspace_id
        (λ w. record w { last_access_verified_at = some verified_at; updated_at = verified_at }))
