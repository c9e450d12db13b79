-- ===== src/Workspace/Transmission/Scenarios.antt =====
-- A gate with one grant, at which the theorems about reads apply.
use exam_sage.Common.{
  true, false, none, some, List, [], ◌∷◌, any, find, map, leb, ◌≡◌, refl, ok, ◌==◌, order_by, place,
}
use exam_sage.Common.Table.{lookup, update}
use exam_sage.Workspace.Store.{is_optional}
use exam_sage.Workspace.Store.Manifests.{
  revision, entries_of, insert_revision, insert_entry, insert_entries,
}
use exam_sage.Workspace.Store.Manifests.Changes.{
  clone_revision, change_draft, change_current, finish_change, set_inclusion, approve, approve_body,
  approval_of, approve_row, insert_approval,
}
use exam_sage.Workspace.Store.Authority.{
  Snapshot, latest, latest_approval, transmission_authority_snapshot, snapshot, snapshot_of,
  snapshot_at, snapshot_with, hold_body, hold_transmission_authority,
}
use exam_sage.Workspace.Scenarios.{held}
use exam_sage.Workspace.Transmission.{
  Answer, ReadGrant, Gate, Reading, Attempt, RevalidatedEntry, open_approved, open_grant,
  read_authorized, read_held, read_root, read_copy, root_matches, entry_matches,
  grant_remains_authorized, purge_expired, pop_grant,
}
use exam_sage.Workspace.Transmission.Authorize.{
  Request, ApprovedSource, authorize, has_repeats, check_snapshot, check_authority, select_all,
  select_one, last_with, check_selected, check_sources, check_validation, mismatched, issue,
  grant_of, publish_held, publish,
}
use exam_sage.Workspace.Transmission.Authorize.Requested.{authorize-covers_request}
use exam_sage.Workspace.Transmission.Once.{open_approved-uses_up}
use exam_sage.Workspace.Transmission.Bound.{open_approved-IsApproved, set_inclusion-closes_gate}

abbrev grant : ReadGrant
grant = record {
  token = "t1";
  workspace_id = "w1";
  approval_id = "a1";
  revision_id = "r1";
  entry_id = "e1";
  relative_path = "week1/notes.pdf";
  size_bytes = 10;
  modified_ns = some 7;
  device_id = some "d";
  file_id = some "f";
  sha256 = "aa";
  root_device = some "d";
  root_file_id = some "f";
  expires_at = 60;
}

abbrev copied : RevalidatedEntry
copied = record {
  entry_id = "e1";
  size_bytes = 10;
  modified_ns = some 7;
  device_id = some "d";
  file_id = some "f";
  sha256 = some "aa";
  failure_code = none;
}

abbrev reading : Reading
reading = record {
  consumed_at = 30;
  now = 30;
  new_revision_id = "r9";
  same_path = λ a b. a == b;
  anchor = Attempt.got (record { canonical_root = "/courses/algebra"; identity = some ("d", "f") });
  copied = Attempt.got copied;
}

abbrev gate : Gate
gate = record { db = held; read_grants = grant ∷ [] }

open_approved-uses_up_example :
    any (λ g. g.token == "t1") (open_approved reading "t1" gate).1.read_grants ≡ false
open_approved-uses_up_example = open_approved-uses_up reading "t1" gate

open_approved-IsApproved_example :
    (g : ReadGrant) × (find (λ x. x.token == "t1") gate.read_grants ≡ some g)
    × (leb g.expires_at 30 ≡ false)
    × (s : Snapshot) × ((hold_transmission_authority g.workspace_id g.approval_id g.revision_id none
          held).0
        ≡ ok s)
    × (grant_remains_authorized s g ≡ true)
    × (is_optional copied.sha256 g.sha256 ≡ true)
unfolding open_approved open_grant read_authorized read_held read_root read_copy root_matches
    entry_matches grant_remains_authorized purge_expired pop_grant hold_transmission_authority
    hold_body snapshot snapshot_of snapshot_at snapshot_with latest_approval latest approve
    approve_body approval_of approve_row insert_approval revision entries_of lookup update order_by
    place
open_approved-IsApproved_example = open_approved-IsApproved reading "t1" gate {v = copied} refl

set_inclusion-closes_gate_example : ¬ (
    (open_approved reading "t1" (record {
      db = (set_inclusion "r2" "w1" "r1" ("e1" ∷ []) false 5 held).1;
      read_grants = grant ∷ [];
    })).0
    ≡ Answer.allowed copied)
unfolding approve approve_body approval_of approve_row insert_approval set_inclusion change_current
    change_draft finish_change clone_revision revision entries_of insert_revision insert_entry
    insert_entries lookup update order_by place
set_inclusion-closes_gate_example =
    set_inclusion-closes_gate "r2" "w1" "r1" ("e1" ∷ []) false 5 held refl reading "t1" (grant ∷ [])
      grant refl refl copied

abbrev request : Request
request = record {
  started_at = 10;
  issued_at = 20;
  verified_at = 20;
  ttl = 40;
  now = 20;
  new_revision_id = "r9";
  draw_token = λ id. "t1";
  same_path = λ a b. a == b;
  anchor = Attempt.got (record { canonical_root = "/courses/algebra"; identity = some ("d", "f") });
  revalidate = λ es. Attempt.got (record {
    canonical_root = "/courses/algebra";
    root_device = "d";
    root_file_id = "f";
    entries = copied ∷ [];
  });
}

abbrev sources : List ApprovedSource
sources =
    (record {
      workspace_id = "w1";
      entry_id = "e1";
      relative_path = "week1/notes.pdf";
      size_bytes = 10;
      sha256 = "aa";
      read_token = "t1";
    })
    ∷ []

authorize-covers_request_example : map (λ s. s.entry_id) sources ≡ "e1" ∷ []
unfolding authorize has_repeats check_snapshot check_authority select_all select_one last_with
    check_selected check_sources check_validation mismatched issue grant_of publish_held publish
    entry_matches root_matches purge_expired hold_transmission_authority hold_body
    transmission_authority_snapshot snapshot snapshot_of snapshot_at snapshot_with latest_approval
    latest approve approve_body approval_of approve_row insert_approval revision entries_of lookup
    update order_by place
authorize-covers_request_example =
    authorize-covers_request request "w1" ("e1" ∷ []) (record { db = held; read_grants = [] })
      {sources = sources} refl
