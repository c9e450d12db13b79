-- ===== src/Workspace/Transmission.antt =====
-- exam_predictor/workspace/transmission.py: the gate through which the bytes of approved sources leave,
-- its grants and open_approved. What the file system and the scanner answer is an argument.
pub mod Authorize
pub mod Bound
pub mod Once
mod Scenarios
use exam_sage.Common.{
  ℕ, String, Bool, true, false, ◌&&◌, ◌||◌, not, Option, none, some, List, [], ◌∷◌, ◌++◌, is_none,
  any, filter, find, leb, eqb, if◌then◌else◌, Result, ok, err, Error, authority_revoked, ◌==◌,
}
use exam_sage.Workspace.Models.{
  SourceState, ManifestEntry, ApprovalRecord, ManifestRevision, WorkspaceRecord,
}
use exam_sage.Workspace.Store.{Db, is_optional}
use exam_sage.Workspace.Store.Manifests.Changes.{mark_entries_changed_latest}
use exam_sage.Workspace.Store.Authority.{Snapshot, hold_transmission_authority}

-- SourceAuthorizationError
pub record Refusal : Type 0 where
  pub code : String
  pub workspace_id : String
  pub entry_id : String

pub data Answer (A : Type 0) : Type 0 where
  allowed : A → Answer A
  refused : Refusal → Answer A

abbrev pub refuse : {A : Type 0} → (code workspace_id entry_id : String) → Answer A
refuse code workspace_id entry_id =
    Answer.refused (record { code = code; workspace_id = workspace_id; entry_id = entry_id })

-- _ReadGrant, with its token
pub record ReadGrant : Type 0 where
  pub token : String
  pub workspace_id : String
  pub approval_id : String
  pub revision_id : String
  pub entry_id : String
  pub relative_path : String
  pub size_bytes : ℕ
  pub modified_ns : Option ℕ
  pub device_id : Option String
  pub file_id : Option String
  pub sha256 : String
  pub root_device : Option String
  pub root_file_id : Option String
  pub expires_at : ℕ

-- WorkspaceTransmissionGate with the database of its store
pub record Gate : Type 0 where
  pub db : Db
  pub read_grants : List ReadGrant

-- RootAnchor of filesystem.py; the two numbers of the identity are given as their texts.
pub record RootAnchor : Type 0 where
  pub canonical_root : String
  pub identity : Option (String × String)

-- RevalidatedEntry of scanner.py
pub record RevalidatedEntry : Type 0 where
  pub entry_id : String
  pub size_bytes : ℕ
  pub modified_ns : Option ℕ
  pub device_id : Option String
  pub file_id : Option String
  pub sha256 : Option String
  pub failure_code : Option String

-- An answer of the file system, or the code of a SecureOpenError
pub data Attempt (A : Type 0) : Type 0 where
  got : A → Attempt A
  open_error : (code : String) → Attempt A

abbrev pub is_same : {A : Type 0} → (A → A → Bool) → Option A → Option A → Bool
is_same eq none none = true
is_same eq (some a) (some b) = eq a b
is_same eq _ _ = false

abbrev pub same_text : Option String → Option String → Bool
same_text = is_same (λ a b. a == b)

abbrev pub same_number : Option ℕ → Option ℕ → Bool
same_number = is_same eqb

-- _root_matches; `same_path` is _same_path.
unfoldable pub root_matches :
    (same_path : String → String → Bool) → WorkspaceRecord → RootAnchor → Bool
root_matches same_path workspace anchor = elim anchor.identity [
  | none ↦ false
  | some (device, file_id) ↦
      same_path workspace.canonical_root anchor.canonical_root
      && (is_optional workspace.root_device device && is_optional workspace.root_file_id file_id)
]

-- _entry_matches
unfoldable pub entry_matches :
    (entry_id : String)
    → (size_bytes : ℕ) → (modified_ns : Option ℕ) → (device_id file_id sha256 : Option String)
    → RevalidatedEntry
    → (approved_sha256 : String) → Bool
entry_matches entry_id size_bytes modified_ns device_id file_id sha256 v approved =
    is_none v.failure_code
    && (v.entry_id == entry_id
        && (eqb v.size_bytes size_bytes
            && (same_number v.modified_ns modified_ns
                && (same_text v.device_id device_id
                    && (same_text v.file_id file_id
                        && (same_text v.sha256 sha256 && is_optional v.sha256 approved))))))

-- _entry_matches on _grant_entry
abbrev pub grant_matches : ReadGrant → RevalidatedEntry → Bool
grant_matches g v =
    entry_matches g.entry_id g.size_bytes g.modified_ns g.device_id g.file_id (some g.sha256) v
      g.sha256

abbrev pub is_live : (now : ℕ) → ReadGrant → Bool
is_live now g = not (leb g.expires_at now)

-- _purge_expired_locked
unfoldable pub purge_expired : (now : ℕ) → List ReadGrant → List ReadGrant
purge_expired now = filter (is_live now)

-- pop(token, None), which a read follows
unfoldable pub pop_grant : (token : String) → List ReadGrant → List ReadGrant
pop_grant token = filter (λ g. not (g.token == token))

abbrev pub is_approved_source : SourceState → Bool
is_approved_source SourceState.approved = true
is_approved_source _ = false

abbrev hash_is : (entry_id sha256 : String) → ApprovalRecord → Bool
hash_is entry_id sha256 a = elim (find (λ h. h.entry_id == entry_id) a.entries) [
  | none ↦ false
  | some h ↦ h.sha256 == sha256
]

abbrev entry_is : (entry_id sha256 : String) → ManifestRevision → Bool
entry_is entry_id sha256 r = elim (find (λ e. e.entry_id == entry_id) r.entries) [
  | none ↦ false
  | some e ↦ is_approved_source e.state && (e.included && is_optional e.sha256 sha256)
]

-- _grant_remains_authorized
unfoldable pub grant_remains_authorized : Snapshot → ReadGrant → Bool
grant_remains_authorized s g = elim s.approval [
  | none ↦ false
  | some a ↦ elim s.revision [
    | none ↦ false
    | some r ↦ hash_is g.entry_id g.sha256 a && entry_is g.entry_id g.sha256 r
  ]
]

abbrev pub after_mark :
    {A : Type 0}
    → (first : String) → Refusal
    → Gate
    → Result ManifestRevision × Db
    → Answer A × Gate
after_mark first refusal gate (ok m, db) = (Answer.refused refusal, record gate { db = db })
after_mark first refusal gate (err e, db) =
    (refuse "source_state_update_failed" refusal.workspace_id first, record gate { db = db })

-- _mark_changed, and the raise behind it; `new_revision_id` is the drawn uuid.
unfoldable pub mark_and_refuse :
    {A : Type 0}
    → (new_revision_id : String) → (now : ℕ) → (entry_ids : List String) → (first : String)
    → Refusal
    → Gate
    → Answer A × Gate
unfolding mark_entries_changed_latest
mark_and_refuse new now ids first refusal gate =
    after_mark first refusal gate (
      mark_entries_changed_latest new refusal.workspace_id ids "approved_source_changed" now
        gate.db)

-- The surroundings of one open_approved: the clock, the file system and the drawn ids.
pub record Reading : Type 0 where
  pub consumed_at : ℕ
  pub now : ℕ
  pub new_revision_id : String
  pub same_path : String → String → Bool
  pub anchor : Attempt RootAnchor
  pub copied : Attempt RevalidatedEntry

abbrev pub refusal_of : (code : String) → ReadGrant → Refusal
refusal_of code g = record { code = code; workspace_id = g.workspace_id; entry_id = g.entry_id }

abbrev pub fail : {A : Type 0} → (code : String) → Reading → ReadGrant → Gate → Answer A × Gate
fail code w g gate =
    mark_and_refuse w.new_revision_id w.now (g.entry_id ∷ []) g.entry_id (refusal_of code g) gate

-- The copy of the file into the spool, once its root is anchored
unfoldable pub read_copy :
    Reading → ReadGrant → Attempt RevalidatedEntry → Gate → Answer RevalidatedEntry × Gate
unfolding entry_matches mark_and_refuse
read_copy w g (Attempt.open_error code) gate = fail "approved_source_changed" w g gate
read_copy w g (Attempt.got current) gate =
    if grant_matches g current
    then (Answer.allowed current, gate)
    else fail "approved_source_changed" w g gate

unfoldable pub read_root :
    Reading
    → ReadGrant
    → WorkspaceRecord
    → Attempt RootAnchor
    → Gate
    → Answer RevalidatedEntry × Gate
unfolding root_matches read_copy mark_and_refuse
read_root w g workspace (Attempt.open_error code) gate = fail "approved_source_changed" w g gate
read_root w g workspace (Attempt.got anchor) gate =
    if root_matches w.same_path workspace anchor
    then read_copy w g w.copied gate
    else fail "source_root_identity_changed" w g gate

-- The body of the with statement over the held authority
unfoldable pub read_held : Reading → ReadGrant → Snapshot → Gate → Answer RevalidatedEntry × Gate
unfolding grant_remains_authorized read_root mark_and_refuse
read_held w g s gate =
    if not (grant_remains_authorized s g)
    then (refuse "source_approval_revoked" g.workspace_id g.entry_id, gate)
    else if not (
        same_text s.workspace.root_device g.root_device
        && same_text s.workspace.root_file_id g.root_file_id)
    then fail "source_root_identity_changed" w g gate
    else read_root w g s.workspace w.anchor gate

-- _hold_current_authority around it
unfoldable pub read_authorized :
    Reading → ReadGrant → Result Snapshot × Db → Gate → Answer RevalidatedEntry × Gate
unfolding read_held
read_authorized w g (err Error.authority_revoked, db) gate =
    (refuse "source_approval_revoked" g.workspace_id g.entry_id, record gate { db = db })
read_authorized w g (err e, db) gate =
    (refuse "source_store_unavailable" g.workspace_id g.entry_id, record gate { db = db })
read_authorized w g (ok s, db) gate = read_held w g s (record gate { db = db })

-- open_approved once its grant has been taken
unfoldable pub open_grant : Reading → Option ReadGrant → Gate → Answer RevalidatedEntry × Gate
unfolding read_authorized hold_transmission_authority
open_grant w none gate = (refuse "read_token_invalid" "" "", gate)
open_grant w (some g) gate =
    if leb g.expires_at w.consumed_at
    then (refuse "read_token_expired" g.workspace_id g.entry_id, gate)
    else read_authorized w g
        (hold_transmission_authority g.workspace_id g.approval_id g.revision_id none gate.db) gate

-- open_approved, up to its yield
unfoldable pub open_approved : Reading → (token : String) → Gate → Answer RevalidatedEntry × Gate
unfolding open_grant purge_expired pop_grant
open_approved w token gate =
    open_grant w (find (λ g. g.token == token) gate.read_grants)
      (record gate { read_grants = purge_expired w.consumed_at (pop_grant token gate.read_grants) })
