-- ===== src/Workspace/Transmission/Authorize.antt =====
-- WorkspaceTransmissionGate.authorize: the tests of a request, and the grants that it issues.
pub mod Requested
use exam_sage.Common.{
  ℕ, ◌+◌, String, Bool, true, false, ◌&&◌, ◌||◌, not, Option, none, some, List, [], ◌∷◌, ◌++◌,
  is_none, any, filter, map, if◌then◌else◌, Result, ok, err, Error, authority_revoked, ◌==◌,
}
use exam_sage.Workspace.Models.{
  SourceState, ManifestEntry, ApprovedEntryHash, ApprovalRecord, ManifestRevision, WorkspaceRecord,
}
use exam_sage.Workspace.Store.{Db, is_optional}
use exam_sage.Workspace.Store.Manifests.{default_policy_version}
use exam_sage.Workspace.Store.Authority.{
  Snapshot, transmission_authority_snapshot, hold_transmission_authority, is_approved,
}
use exam_sage.Workspace.Transmission.{
  Refusal, Answer, ReadGrant, Gate, RootAnchor, RevalidatedEntry, Attempt, refuse, same_text,
  is_approved_source, root_matches, entry_matches, purge_expired, mark_and_refuse,
}

-- RevalidationResult of scanner.py
pub record Validation : Type 0 where
  pub canonical_root : String
  pub root_device : String
  pub root_file_id : String
  pub entries : List RevalidatedEntry

-- The surroundings of one authorize: the clocks, the file system, the scanner, and the drawn texts.
pub record Request : Type 0 where
  pub started_at : ℕ
  pub issued_at : ℕ
  pub verified_at : ℕ
  pub ttl : ℕ
  pub now : ℕ
  pub new_revision_id : String
  pub draw_token : (entry_id : String) → String
  pub same_path : String → String → Bool
  pub anchor : Attempt RootAnchor
  pub revalidate : List ManifestEntry → Attempt Validation

-- ApprovedSource
pub record ApprovedSource : Type 0 where
  pub workspace_id : String
  pub entry_id : String
  pub relative_path : String
  pub size_bytes : ℕ
  pub sha256 : String
  pub read_token : String

-- A dictionary made from a list: the last item of a key counts.
unfoldable pub last_with {ℓ} : {A : Type ℓ} → (A → Bool) → List A → Option A
last_with p [] = none
last_with p (x ∷ xs) =
    let later = last_with p xs in
    elim later [ some y ↦ some y | none ↦ if p x then some x else none ]

unfoldable pub has_repeats : List String → Bool
has_repeats [] = false
has_repeats (x ∷ xs) = any (λ y. y == x) xs || has_repeats xs

abbrev pub first_of : List String → String
first_of [] = ""
first_of (x ∷ xs) = x

abbrev pub is_plain_source : ManifestEntry → Bool
is_plain_source e = not (
    not (e.item_kind == "file")
    || (not (is_none e.archive_parent_entry_id)
        || (not e.included
            || (not (is_approved_source e.state)
                || (is_none e.modified_ns
                    || (is_none e.device_id || (is_none e.file_id || is_none e.sha256)))))))

-- One turn of the loop over the requested ids
unfoldable pub select_one :
    (workspace_id entry_id : String)
    → Option ManifestEntry
    → Option ApprovedEntryHash
    → Answer (ManifestEntry × String)
select_one w id none h = refuse "source_not_approved" w id
select_one w id (some e) none = refuse "source_not_approved" w id
select_one w id (some e) (some h) =
    if not (is_optional e.sha256 h.sha256)
    then refuse "source_approval_mismatch" w id
    else if not (is_plain_source e)
    then refuse "source_not_approved" w id
    else Answer.allowed (e, h.sha256)

abbrev pub add_selected :
    Answer (ManifestEntry × String)
    → Answer (List (ManifestEntry × String))
    → Answer (List (ManifestEntry × String))
add_selected (Answer.refused r) rest = Answer.refused r
add_selected (Answer.allowed s) (Answer.refused r) = Answer.refused r
add_selected (Answer.allowed s) (Answer.allowed ss) = Answer.allowed (s ∷ ss)

-- The loop over the requested ids; the first refusal is raised.
unfoldable pub select_all :
    (workspace_id : String)
    → ManifestRevision
    → ApprovalRecord
    → List String
    → Answer (List (ManifestEntry × String))
unfolding select_one last_with
select_all w r a [] = Answer.allowed []
select_all w r a (id ∷ ids) =
    add_selected
      (select_one w id (last_with (λ e. e.entry_id == id) r.entries)
        (last_with (λ h. h.entry_id == id) a.entries))
      (select_all w r a ids)

abbrev pub Selected : Type 0
Selected = List (ManifestEntry × String)

-- The entry of a selected file in the validation
abbrev validated : Validation → String → Option RevalidatedEntry
validated v id = last_with (λ x. x.entry_id == id) v.entries

abbrev still_matches : Validation → ManifestEntry × String → Bool
still_matches v (e, approved) = elim (validated v e.entry_id) [
  | none ↦ false
  | some x ↦
      entry_matches e.entry_id e.size_bytes e.modified_ns e.device_id e.file_id e.sha256 x approved
]

abbrev pub entry_of : ManifestEntry × String → String
entry_of s = s.0.entry_id

-- The ids of the selected files that have changed
unfoldable pub mismatched : Validation → Selected → List String
unfolding entry_matches last_with
mismatched v selected = map entry_of (filter (λ s. not (still_matches v s)) selected)

-- A failure: its code, its entry, and the entries that are marked.
pub record Failure : Type 0 where
  pub code : String
  pub entry_id : String
  pub changed : List String

pub data Check : Type 0 where
  sound : Validation → Check
  broken : Failure → Check

abbrev broken_all : (code : String) → List String → Check
broken_all code requested =
    Check.broken (record { code = code; entry_id = first_of requested; changed = requested })

-- The code for a SecureOpenError
abbrev open_code : String → String
open_code code =
    if code == "source_link_or_reparse"
      || (code == "source_open_failed"
          || (code == "source_root_invalid" || code == "source_root_identity_unavailable"))
    then "source_root_invalid"
    else "approved_source_changed"

abbrev check_mismatched : Validation → List String → Check
check_mismatched v [] = Check.sound v
check_mismatched v (id ∷ ids) =
    Check.broken (record { code = "approved_source_changed"; entry_id = id; changed = id ∷ ids })

unfoldable pub check_validation :
    Request → WorkspaceRecord → RootAnchor → List String → Selected → Attempt Validation → Check
unfolding mismatched
check_validation q w anchor requested selected (Attempt.open_error code) =
    broken_all (open_code code) requested
check_validation q w anchor requested selected (Attempt.got v) =
    if not (q.same_path v.canonical_root anchor.canonical_root)
      || (not (is_optional w.root_device v.root_device)
          || not (is_optional w.root_file_id v.root_file_id))
    then broken_all "source_root_identity_changed" requested
    else check_mismatched v (mismatched v selected)

-- The try block over the anchored root
unfoldable pub check_sources :
    Request → WorkspaceRecord → List String → Selected → Attempt RootAnchor → Check
unfolding root_matches check_validation
check_sources q w requested selected (Attempt.open_error code) =
    broken_all (open_code code) requested
check_sources q w requested selected (Attempt.got anchor) =
    if not (root_matches q.same_path w anchor)
    then broken_all "source_root_identity_changed" requested
    else check_validation q w anchor requested selected (q.revalidate (map (λ s. s.0) selected))

abbrev size_of : Option RevalidatedEntry → ℕ
size_of none = 0
size_of (some x) = x.size_bytes

abbrev modified_of : Option RevalidatedEntry → Option ℕ
modified_of none = none
modified_of (some x) = x.modified_ns

abbrev device_of : Option RevalidatedEntry → Option String
device_of none = none
device_of (some x) = x.device_id

abbrev file_of : Option RevalidatedEntry → Option String
file_of none = none
file_of (some x) = x.file_id

-- The grant of a selected file, whose entry the validation has
unfoldable pub grant_of :
    Request
    → WorkspaceRecord
    → ApprovalRecord
    → ManifestRevision
    → Validation
    → ManifestEntry × String
    → ReadGrant
unfolding last_with
grant_of q w a r v (e, approved) = record {
  token = q.draw_token e.entry_id;
  workspace_id = w.workspace_id;
  approval_id = a.approval_id;
  revision_id = r.revision_id;
  entry_id = e.entry_id;
  relative_path = e.relative_path;
  size_bytes = size_of (validated v e.entry_id);
  modified_ns = modified_of (validated v e.entry_id);
  device_id = device_of (validated v e.entry_id);
  file_id = file_of (validated v e.entry_id);
  sha256 = approved;
  root_device = w.root_device;
  root_file_id = w.root_file_id;
  expires_at = q.issued_at + q.ttl;
}

-- The descriptor of a grant
abbrev pub source_of : ReadGrant → ApprovedSource
source_of g = record {
  workspace_id = g.workspace_id;
  entry_id = g.entry_id;
  relative_path = g.relative_path;
  size_bytes = g.size_bytes;
  sha256 = g.sha256;
  read_token = g.token;
}

-- The dictionary of new grants: the last one for each token
unfoldable pub last_grants : List ReadGrant → List ReadGrant
last_grants [] = []
last_grants (g ∷ gs) =
    let rest = last_grants gs in if any (λ n. n.token == g.token) gs then rest else g ∷ rest

-- The update of the dictionary of grants with new ones
unfoldable pub publish : List ReadGrant → List ReadGrant → List ReadGrant
unfolding last_grants
publish new old = filter (λ g. not (any (λ n. n.token == g.token) new)) old ++ last_grants new

-- The publication of the grants under the held authority
unfoldable pub publish_held :
    Request
    → (workspace_id first : String) → List ReadGrant
    → Gate
    → Result Snapshot × Db
    → Answer (List ApprovedSource) × Gate
unfolding publish purge_expired
publish_held q w first grants gate (ok s, db) = (
  Answer.allowed (map source_of grants),
  record { db = db; read_grants = publish grants (purge_expired q.issued_at gate.read_grants) },
)
publish_held q w first grants gate (err Error.authority_revoked, db) =
    (refuse "source_approval_revoked" w first, record gate { db = db })
publish_held q w first grants gate (err e, db) =
    (refuse "source_store_unavailable" w first, record gate { db = db })

-- What follows the checks
unfoldable pub issue :
    Request
    → WorkspaceRecord
    → ApprovalRecord
    → ManifestRevision
    → (first : String) → Selected
    → Check
    → Gate
    → Answer (List ApprovedSource) × Gate
unfolding grant_of publish_held mark_and_refuse hold_transmission_authority
issue q w a r first selected (Check.broken f) gate =
    mark_and_refuse q.new_revision_id q.now f.changed (first_of f.changed)
      (record { code = f.code; workspace_id = w.workspace_id; entry_id = f.entry_id }) gate
issue q w a r first selected (Check.sound v) gate =
    publish_held q w.workspace_id first (map (grant_of q w a r v) selected) gate (
      hold_transmission_authority w.workspace_id a.approval_id r.revision_id (some q.verified_at)
        gate.db)

-- The selection has been made or refused.
unfoldable pub check_selected :
    Request
    → WorkspaceRecord
    → ApprovalRecord
    → ManifestRevision
    → List String
    → Answer Selected
    → Gate
    → Answer (List ApprovedSource) × Gate
unfolding check_sources issue
check_selected q w a r requested (Answer.refused f) gate = (Answer.refused f, gate)
check_selected q w a r requested (Answer.allowed selected) gate =
    issue q w a r (first_of requested) selected (check_sources q w requested selected q.anchor) gate

-- The tests on the approval and its revision; `first` is the first id that is requested.
unfoldable pub check_authority :
    Request
    → (workspace_id : String) → List String
    → WorkspaceRecord
    → Option ApprovalRecord
    → Option ManifestRevision
    → Gate
    → Answer (List ApprovedSource) × Gate
unfolding select_all check_selected
check_authority q id requested w none revision gate =
    (refuse "source_approval_required" id (first_of requested), gate)
check_authority q id requested w (some a) none gate =
    if not (is_approved w.state)
    then (refuse "source_approval_required" id (first_of requested), gate)
    else if not (a.policy_version == default_policy_version)
    then (refuse "source_approval_stale_policy" id (first_of requested), gate)
    else (refuse "source_approval_required" id (first_of requested), gate)
check_authority q id requested w (some a) (some r) gate =
    if not (is_approved w.state)
    then (refuse "source_approval_required" id (first_of requested), gate)
    else if not (a.policy_version == default_policy_version)
        || not (r.policy_version == default_policy_version)
    then (refuse "source_approval_stale_policy" id (first_of requested), gate)
    else check_selected q w a r requested (select_all id r a requested) gate

unfoldable pub check_snapshot :
    Request
    → (workspace_id : String) → List String
    → Result (Option Snapshot)
    → Gate
    → Answer (List ApprovedSource) × Gate
unfolding check_authority
check_snapshot q id requested (err e) gate =
    (refuse "source_store_unavailable" id (first_of requested), gate)
check_snapshot q id requested (ok none) gate =
    (refuse "workspace_not_found" id (first_of requested), gate)
check_snapshot q id requested (ok (some s)) gate =
    check_authority q id requested s.workspace s.approval s.revision gate

abbrev pub is_empty : List String → Bool
is_empty [] = true
is_empty (x ∷ xs) = false

-- authorize, under the policy DEFAULT_SCAN_POLICY
unfoldable pub authorize :
    Request
    → (workspace_id : String) → (entry_ids : List String) → Gate
    → Answer (List ApprovedSource) × Gate
unfolding has_repeats check_snapshot purge_expired transmission_authority_snapshot
authorize q id requested gate =
    let purged : Gate = record gate { read_grants = purge_expired q.started_at gate.read_grants } in
    if is_empty requested || has_repeats requested
    then (refuse "source_request_invalid" id (first_of requested), purged)
    else check_snapshot q id requested (transmission_authority_snapshot id gate.db).0 purged
