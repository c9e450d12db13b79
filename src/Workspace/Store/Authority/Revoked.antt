-- ===== src/Workspace/Store/Authority/Revoked.antt =====
-- What a change of the manifest does to the authority to transmit its sources.
use mathlib.Core.Path.{subst}
use exam_sage.Common.{
  ℕ, String, Bool, false, Option, none, some, List, [], ◌∷◌, ◌≡◌, refl, sym, ◌∙◌, eq_refl, ok,
  is_ok, ◌>>◌, ensure, or_raise, OnOk, OnOk-bind, OnOk-transaction, ok-injective, is_ok-transaction,
  after_check, after_step, not_found, stale,
}
use exam_sage.Common.Table.{lookup-update, map_option}
use exam_sage.Workspace.Models.{
  WorkspaceState, WorkspaceRecord, ManifestEntry, ManifestRevision, ApprovalRecord,
}
use exam_sage.Workspace.Store.{
  Db, WorkspaceRow, workspace_key, find_workspace, workspace_row, update_workspace, is_optional,
}
use exam_sage.Workspace.Store.Manifests.{revision}
use exam_sage.Workspace.Store.Manifests.Reads.{revision_same}
use exam_sage.Workspace.Store.Manifests.Changes.{
  clone_revision, on_requested, all_known, finish_change, change_draft, change_current,
  change_latest, update_inclusion, mark_changed, set_inclusion, mark_entry_changed,
  mark_entries_changed_latest,
}
use exam_sage.Workspace.Store.Authority.{
  Snapshot, snapshot_with, snapshot_at, snapshot_of, snapshot, hold_body, latest_approval,
  hold_transmission_authority, require_current, is_approved,
}

-- No approval of the workspace can be held.
abbrev pub IsRevoked : String → Db → Type 0
IsRevoked w db =
    (approval_id revision_id : String) (t : Option ℕ)
    → is_ok (hold_transmission_authority w approval_id revision_id t db).0 ≡ false

-- The workspace, if it is there, is not in the state `approved`.
abbrev IsUnapproved : Option WorkspaceRow → Type 0
IsUnapproved none = Unit
IsUnapproved (some row) = is_approved row.workspace.state ≡ false

abbrev IsStale : Option Snapshot → Type 0
IsStale none = Unit
IsStale (some s) = is_approved s.workspace.state ≡ false

snapshot_with_same :
    (w r : String) (row : WorkspaceRow) (o : Option ApprovalRecord) (db : Db)
    → ((snapshot_with w r row o db).1 ≡ db)
      × ((s : Option Snapshot)
          → is_approved row.workspace.state ≡ false
          → (snapshot_with w r row o db).0 ≡ ok s
          → IsStale s)
unfolding snapshot_with
snapshot_with_same w r row none db = (refl, λ s h e. subst IsStale (ok-injective e) h)
snapshot_with_same w r row (some a) db = (
  after_check (λ t. t ≡ db) (revision w r) _ db (revision_same w r db) refl (λ _ _. refl),
  λ s h.
      OnOk-bind (λ s _. IsStale s) (revision w r) _ db
        (λ found _ s e. subst IsStale (ok-injective e) h) s,
)

snapshot_at_same :
    (w : String) (row : WorkspaceRow) (o : Option String) (db : Db)
    → ((snapshot_at w row o db).1 ≡ db)
      × ((s : Option Snapshot)
          → is_approved row.workspace.state ≡ false
          → (snapshot_at w row o db).0 ≡ ok s
          → IsStale s)
unfolding snapshot_at
snapshot_at_same w row none db = (refl, λ s h e. subst IsStale (ok-injective e) h)
snapshot_at_same w row (some r) db = snapshot_with_same w r row (latest_approval w r db) db

snapshot_of_same :
    (w : String) (o : Option WorkspaceRow) (db : Db)
    → ((snapshot_of w o db).1 ≡ db)
      × ((s : Option Snapshot) → IsUnapproved o → (snapshot_of w o db).0 ≡ ok s → IsStale s)
unfolding snapshot_of
snapshot_of_same w none db = (refl, λ s h e. subst IsStale (ok-injective e) tt)
snapshot_of_same w (some row) db =
    snapshot_at_same w row row.workspace.current_approved_revision_id db

require_current-refuses :
    (w a r : String) (t : Option ℕ) (s : Option Snapshot) (db : Db)
    → IsStale s
    → is_ok (require_current w a r t s db).0 ≡ false
require_current-refuses w a r t none db h = refl
require_current-refuses w a r t (some s) db h = rw h refl

unapproved-IsRevoked : (w : String) (db : Db) → IsUnapproved (find_workspace w db) → IsRevoked w db
unfolding hold_transmission_authority hold_body snapshot
unapproved-IsRevoked w db h a r t =
    let (same, outdated) = snapshot_of_same w (find_workspace w db) db in
    is_ok-transaction (hold_body w a r t) db
    ∙ after_step (λ x. is_ok x.0 ≡ false) (snapshot w) (require_current w a r t) db same
        (λ _ _. refl) (λ s e. require_current-refuses w a r t s db (outdated s h e))

updated-IsUnapproved :
    (w : String) (f : WorkspaceRecord → WorkspaceRecord) (db : Db)
    → ((x : WorkspaceRecord) → (f x).workspace_id ≡ x.workspace_id)
    → ((x : WorkspaceRecord) → is_approved (f x).state ≡ false)
    → IsUnapproved (find_workspace w (update_workspace w f db))
updated-IsUnapproved w f db same h =
    rw
      (lookup-update workspace_key w w (λ r. record r { workspace = f r.workspace }) db.workspaces
        (λ r. same r.workspace))
      (rw (eq_refl w) (mapped (find_workspace w db)))
  where
    mapped :
        (o : Option WorkspaceRow)
        → IsUnapproved (map_option (λ r. record r { workspace = f r.workspace }) o)
    mapped none = tt
    mapped (some row) = h row.workspace

-- The write that ends a change, and the read behind it
end_of_change :
    (new w : String) (state : WorkspaceState) (now : ℕ) (db : Db)
    → is_approved state ≡ false
    → OnOk (λ _ s. IsRevoked w s) ((finish_change new w state now >> revision w new) db)
unfolding finish_change
end_of_change new w state now db h m e =
    subst (IsRevoked w) (sym (revision_same w new (finish_change new w state now db).1)) (
      unapproved-IsRevoked w (finish_change new w state now db).1
        (updated-IsUnapproved w _ db (λ x. refl) (λ x. h)))

module _ (new w : String) (ids : List String) (f : ManifestEntry → ManifestEntry)
    (state : WorkspaceState) (now : ℕ) (h : is_approved state ≡ false) where
  change_draft-IsRevoked :
      (r : String) (db : Db) → OnOk (λ _ s. IsRevoked w s) (change_draft new w r ids f state now db)
  unfolding change_draft
  change_draft-IsRevoked r db =
      OnOk-bind (λ _ s. IsRevoked w s) (revision w r) _ db
        (λ current _.
          OnOk-bind (λ _ s. IsRevoked w s) (ensure (all_known ids current.entries) not_found) _
            (revision w r db).1
            (λ _ _.
              OnOk-bind (λ _ s. IsRevoked w s) (clone_revision current new now (on_requested ids f))
                _ (ensure (all_known ids current.entries) not_found (revision w r db).1).1
                (λ _ _. end_of_change new w state now _ h)))

  change_current-IsRevoked :
      (r : String) (db : Db)
      → OnOk (λ _ s. IsRevoked w s) (change_current new w r ids f state now db)
  unfolding change_current
  change_current-IsRevoked r db =
      OnOk-bind (λ _ s. IsRevoked w s) (workspace_row w) _ db
        (λ row _.
          OnOk-bind (λ _ s. IsRevoked w s)
            (ensure (is_optional row.workspace.current_draft_revision_id r) stale) _
            (workspace_row w db).1 (λ _ _. change_draft-IsRevoked r _))

  change_latest-IsRevoked :
      (db : Db) → OnOk (λ _ s. IsRevoked w s) (change_latest new w ids f state now db)
  unfolding change_latest
  change_latest-IsRevoked db =
      OnOk-bind (λ _ s. IsRevoked w s) (workspace_row w) _ db
        (λ row _.
          OnOk-bind (λ _ s. IsRevoked w s)
            (or_raise not_found row.workspace.current_draft_revision_id) _ (workspace_row w db).1
            (λ r _. change_draft-IsRevoked r _))

-- In the database that a successful set_inclusion leaves, no approval of the workspace can be
-- held: hold_transmission_authority fails for every approval, revision and time.
pub set_inclusion-IsRevoked :
    (new w r : String) (ids : List String) (included : Bool) (now : ℕ) (db : Db)
    {m : ManifestRevision}
    → (set_inclusion new w r ids included now db).0 ≡ ok m
    → IsRevoked w (set_inclusion new w r ids included now db).1
unfolding set_inclusion
set_inclusion-IsRevoked new w r ids included now db {m} =
    OnOk-transaction (λ _ s. IsRevoked w s)
      (change_current new w r ids (update_inclusion included) WorkspaceState.approval_required now)
      db
      (change_current-IsRevoked new w ids (update_inclusion included)
        WorkspaceState.approval_required now refl r db)
      m

-- In the database that a successful mark_entry_changed leaves, no approval of the workspace can be
-- held.
pub mark_entry_changed-IsRevoked :
    (new w id code : String) (now : ℕ) (db : Db) {m : ManifestRevision}
    → (mark_entry_changed new w id code now db).0 ≡ ok m
    → IsRevoked w (mark_entry_changed new w id code now db).1
unfolding mark_entry_changed
mark_entry_changed-IsRevoked new w id code now db {m} =
    OnOk-transaction (λ _ s. IsRevoked w s)
      (change_latest new w (id ∷ []) (mark_changed code) WorkspaceState.needs_attention now) db
      (change_latest-IsRevoked new w (id ∷ []) (mark_changed code) WorkspaceState.needs_attention
        now refl db)
      m

-- In the database that a successful mark_entries_changed_latest leaves, no approval of the
-- workspace can be held.
pub mark_entries_changed_latest-IsRevoked :
    (new w : String) (ids : List String) (code : String) (now : ℕ) (db : Db) {m : ManifestRevision}
    → (mark_entries_changed_latest new w ids code now db).0 ≡ ok m
    → IsRevoked w (mark_entries_changed_latest new w ids code now db).1
unfolding mark_entries_changed_latest
mark_entries_changed_latest-IsRevoked new w ids code now db {m} =
    OnOk-transaction (λ _ s. IsRevoked w s)
      (change_latest new w ids (mark_changed code) WorkspaceState.needs_attention now) db
      (change_latest-IsRevoked new w ids (mark_changed code) WorkspaceState.needs_attention now refl
        db)
      m
